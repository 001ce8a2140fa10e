-- ===== src/Loader/Host.antt =====
-- What loader.c asks of the system, and `struct loaded_exe`, `mmap_file` and the pages' protections.
pub mod Protection
use Prim.Native.Nat.{bit_and}
use rv32isam.Base.{
  ℕ, zero, ◌+◌, ◌/◌, ◌%◌, List, [], ◌∷◌, Bool, not, leb, ltb, ◌==◌, ◌&&◌, ◌⊎◌, inl, inr,
  if◌then◌else◌,
}
use rv32isam.Elf.{pf_x, pf_w, pf_r}
use rv32isam.Loader.{PageDescr}
use rv32isam.Interpret.State.{Memory}

-- A file in memory. What is read beyond its end is what the memory there holds.
pub record MappedFile : Type 0 where
  pub base : ℕ
  pub size : ℕ
  pub bytes : ℕ → ℕ

-- The calls of the system, which give a failure's `errno` on the left. `fstat` and `map_file` are
-- about the one file that is loaded; `mmap` gives zeroed memory that can be read and written;
-- `mmap_fixed` gives the address at which it mapped `size` bytes, whatever that is; `mprotect`
-- gives 0, or its `errno`. `errno` is what an earlier call may have left there.
pub record Host : Type 0 where
  pub page_size : ℕ
  pub fstat : ℕ ⊎ ℕ
  pub map_file : ℕ → ℕ ⊎ MappedFile
  pub mmap : ℕ → ℕ ⊎ ℕ
  pub mmap_fixed : ℕ → ℕ → ℕ ⊎ ℕ
  pub mprotect : ℕ → ℕ → ℕ → ℕ
  pub errno : ℕ

pub record LoadedExe : Type 0 where
  pub mem : Memory
  pub mem_count : ℕ
  pub entrypoint : ℕ

-- A return of the loader with its code; or a failed `assert`, or a run that C leaves undefined.
pub data Loaded : Type 0 where
  returned : ℕ → LoadedExe → Loaded
  aborted undefined : Loaded

unfoldable pub mmap_file : Host → ℕ ⊎ MappedFile
mmap_file host = elim host.fstat [ inl errno ↦ inl errno | inr st_size ↦ host.map_file st_size ]

abbrev pub prot_read : ℕ
prot_read = 1

abbrev pub prot_write : ℕ
prot_write = 2

abbrev pub prot_exec : ℕ
prot_exec = 4

abbrev pub hasflag : PageDescr → ℕ → Bool
hasflag page flag = not (bit_and page.flags flag == 0)

-- `prot`, as the sum of its bits.
pub page_prot : PageDescr → ℕ
page_prot page =
    (if hasflag page pf_r then prot_read else 0)
    + (if hasflag page pf_w then prot_write else 0)
    + (if hasflag page pf_x then prot_exec else 0)

-- The loop that sets the protections: `errno` of the first call that fails, or 0.
pub protect_pages : Host → ℕ → List PageDescr → ℕ
protect_pages host memory [] = 0
protect_pages host memory (page ∷ rest) =
    let failure = host.mprotect (memory + page.offset_from_mmap) page.size (page_prot page) in
    let later = protect_pages host memory rest in if failure == 0 then later else failure

abbrev pub covers : PageDescr → ℕ → Bool
covers page a = leb page.offset_from_mmap a && ltb a (page.offset_from_mmap + page.size)

-- The protection of a byte of the image after all calls, each of which overrides what was there.
pub prot_at : ℕ → List PageDescr → ℕ → ℕ
prot_at prot [] a = prot
prot_at prot (page ∷ rest) a = prot_at (if covers page a then page_prot page else prot) rest a

abbrev pub can_read : ℕ → Bool
can_read prot = prot % 2 == 1

abbrev pub can_write : ℕ → Bool
can_write prot = prot / 2 % 2 == 1
