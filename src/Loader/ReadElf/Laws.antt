-- ===== src/Loader/ReadElf/Laws.antt =====
-- What `loader_read_elf` makes of a file that it can load.
use Prim.Native.Nat.{bit_and}
use rv32isam.Base.{
  ℕ, ◌+◌, ◌*◌, ◌^◌, ◌≤◌, ◌<◌, ◌≡◌, ◌≢◌, refl, sym, ◌∙◌, arith, List, [], ◌∷◌, some, true, false,
  inr, not, ltb, ◌==◌,
}
use mathlib.Core.Path.{subst}
use rv32isam.Base.Lists.{length, map, All, none_left, and_all, All-map}
use rv32isam.Base.Word.{IsU32, sub32, u8}
use rv32isam.Base.Bytes.{IsByte}
use rv32isam.Elf.{Ehdr, Phdr, ehdr_at, shdr_at, sizeof_shdr, em_riscv, sht_rela, pf_r, pf_w}
use rv32isam.Interpret.State.{Memory}
use rv32isam.Loader.{LoadableSegment}
use rv32isam.Loader.Host.{
  Host, MappedFile, LoadedExe, returned, mmap_file, prot_at, can_read, can_write, prot_read,
  prot_write,
}
use rv32isam.Loader.Host.Protection.{protect_pages_zero, can_read-InSome, can_write-InSome}
use rv32isam.Loader.Layout.{Placed, layout}
use rv32isam.Loader.Layout.Laws.{Ascending, IsImage, layout-IsImage}
use rv32isam.Loader.Layout.Offset.{IsPowTwo}
use rv32isam.Loader.Image.{copy_segments}
use rv32isam.Loader.Image.Laws.{Holds, copy_segments-Holds, copy_segments-IsByte}
use rv32isam.Loader.Sections
use rv32isam.Loader.Sections.{relocate_sections}
use rv32isam.Loader.Sections.Laws.{relocate_sections_none}
use rv32isam.Loader.ReadElf.{
  expected_ident, begins_with, loadable_segments, protect_image, load_image, load_segments,
  read_mapped, loader_read_elf,
}

-- An executable whose loadable segments are `head ∷ rest`.
pub record IsProgram (page_size : ℕ) (file : ℕ → ℕ) (head : Phdr) (rest : List Phdr) : Type 0 where
  pub ident : begins_with file 0 expected_ident ≡ true
  pub machine : (ehdr_at file 0).e_machine ≡ em_riscv
  pub entry : (ehdr_at file 0).e_entry ≢ 0
  pub has_headers : (ehdr_at file 0).e_phentsize ≢ 0
  pub headers :
      loadable_segments file (ehdr_at file 0).e_phoff (ehdr_at file 0).e_phnum 0
      ≡ some (head ∷ rest, true)
  pub ascending : Ascending head rest
  pub head_fits : IsU32 head.p_memsz
  pub few : length rest < 2 ^ 16
  pub head_align : head.p_align ≤ page_size
  pub filled : All (λ (p : Phdr). p.p_filesz ≤ p.p_memsz) (head ∷ rest)

-- One that needs no relocation.
pub record IsExecutable (page_size : ℕ) (file : ℕ → ℕ) (head : Phdr) (rest : List Phdr)
    : Type 0 where
  pub program : IsProgram page_size file head rest
  pub no_relocation :
      (i : ℕ)
      → i < (ehdr_at file 0).e_shnum
      → (shdr_at file ((ehdr_at file 0).e_shoff + sizeof_shdr * i)).sh_type ≢ sht_rela

-- A system that has the file and the memory asked for.
pub record Serves (host : Host) (mapped : MappedFile) (size memory : ℕ) : Type 0 where
  pub pow_two : IsPowTwo host.page_size
  pub maps_file : mmap_file host ≡ inr mapped
  pub maps_image : host.mmap size ≡ inr memory
  pub protects : (address length prot : ℕ) → host.mprotect address length prot ≡ 0

-- Each segment has its bytes in memory, and they can be read, and written to, just if its flags say
-- so.
pub record IsLoadedImage (file : ℕ → ℕ) (placed : Placed) (mem : Memory) : Type 0 where
  pub size : mem.size ≡ placed.end
  pub holds : All (Holds file mem.bytes) placed.segms
  pub reading :
      All
        (λ (s : LoadableSegment).
          (j : ℕ)
          → j < s.phdr.p_memsz
          → mem.readable (s.mem_offset + j) ≡ not (bit_and (u8 s.phdr.p_flags) pf_r == 0))
        placed.segms
  pub writing :
      All
        (λ (s : LoadableSegment).
          (j : ℕ)
          → j < s.phdr.p_memsz
          → mem.writable (s.mem_offset + j) ≡ not (bit_and (u8 s.phdr.p_flags) pf_w == 0))
        placed.segms

All-unmap :
    {P : Phdr → Type 0} {l : List Phdr} (segms : List LoadableSegment)
    → map (λ (s : LoadableSegment). s.phdr) segms ≡ l
    → All P l
    → All (λ (s : LoadableSegment). P s.phdr) segms
All-unmap {P} segms e all = split segms (subst (All P) (sym e) all)
  where
    split :
        (segms : List LoadableSegment)
        → All P (map (λ (s : LoadableSegment). s.phdr) segms)
        → All (λ (s : LoadableSegment). P s.phdr) segms
    split [] all = none_left
    split (s ∷ segms) (and_all p all) = and_all p (split segms all)

loader_read_elf-mapped :
    (host : Host) (exe : LoadedExe) {mapped : MappedFile}
    → mmap_file host ≡ inr mapped
    → loader_read_elf host exe ≡ read_mapped host mapped.bytes exe
unfolding loader_read_elf
loader_read_elf-mapped host exe e = rw (loader_read_elf, e) refl

read_mapped-program :
    (host : Host) (file : ℕ → ℕ) (exe : LoadedExe) {head : Phdr} {rest : List Phdr}
    → IsProgram host.page_size file head rest
    → read_mapped host file exe ≡ load_segments host file (ehdr_at file 0) 0 (head ∷ rest) true exe
unfolding read_mapped
read_mapped-program host file exe x =
    let e0 : ((ehdr_at file 0).e_entry == 0) ≡ false = ground (arith, x.entry) in
    let e1 : ((ehdr_at file 0).e_machine == em_riscv) ≡ true = ground (arith, x.machine) in
    let e2 : ((ehdr_at file 0).e_phentsize == 0) ≡ false = ground (arith, x.has_headers) in
    rw (x.ident, e1, e2, read_mapped, x.headers, e0) refl

load_image-lem :
    (host : Host) (file : ℕ → ℕ) (ehdr : Ehdr) (code : ℕ) (placed : Placed) (head : Phdr)
    (exe : LoadedExe) {memory : ℕ} {copied bytes : ℕ → ℕ}
    → host.mmap placed.end ≡ inr memory
    → copy_segments file placed.end (λ a. 0) placed.segms ≡ some copied
    → relocate_sections file ehdr.e_shoff placed.segms placed.end code ehdr.e_shnum 0 copied
      ≡ Sections.patched bytes
    → load_image host file ehdr code placed head exe
      ≡ protect_image host file ehdr code memory placed head exe bytes
unfolding load_image
load_image-lem host file ehdr code placed head exe e f g = rw (load_image, e, f, g) refl

module _ (host : Host) (mapped : MappedFile) (head : Phdr) (rest : List Phdr) (exe : LoadedExe)
    (memory : ℕ) where
  -- The layout of the image.
  abbrev pub placed : Placed
  placed = layout host.page_size (ehdr_at mapped.bytes 0).e_entry exe.entrypoint head rest

  -- The loader returns 0, and the image is as its program headers say.
  pub record IsLoadedAs (exe' : LoadedExe) : Type 0 where
    pub loads : loader_read_elf host exe ≡ returned 0 exe'
    pub loaded : IsLoadedImage mapped.bytes placed exe'.mem
    pub entrypoint : exe'.entrypoint ≡ sub32 (ehdr_at mapped.bytes 0).e_entry head.p_vaddr
    pub layout_of : IsImage host.page_size (head ∷ rest) placed
    pub base : exe'.mem.base ≡ memory
    pub all_bytes : ((a : ℕ) → IsByte (mapped.bytes a)) → (a : ℕ) → IsByte (exe'.mem.bytes a)

  -- Where the relocations leave the image as the file has it.
  pub IsProgram-Loads :
      IsProgram host.page_size mapped.bytes head rest
      → Serves host mapped placed.end memory
      → ((bytes : ℕ → ℕ)
          → IsImage host.page_size (head ∷ rest) placed
          → All (Holds mapped.bytes bytes) placed.segms
          → relocate_sections mapped.bytes
              (ehdr_at mapped.bytes 0).e_shoff
              placed.segms
              placed.end
              0
              (ehdr_at mapped.bytes 0).e_shnum
              0
              bytes
            ≡ Sections.patched bytes)
      → (exe' : LoadedExe) × IsLoadedAs exe'
  unfolding load_segments protect_image
  IsProgram-Loads file serves relocates =
      let image =
        layout-IsImage host.page_size (ehdr_at mapped.bytes 0).e_entry serves.pow_two exe.entrypoint
          head rest file.ascending file.head_fits file.few in
      let (bytes, copied, holds, before) =
        copy_segments-Holds mapped.bytes (λ a. 0) placed.end image.packed
          (All-unmap placed.segms image.same_headers file.filled) in
      let unpatched = relocates bytes image holds in
      let protects = protect_pages_zero host memory placed.pages serves.protects in
      let e3 : ltb host.page_size head.p_align ≡ false = ground (arith, file.head_align) in
      (
        record {
          mem = record {
            base = memory;
            size = placed.end;
            bytes = bytes;
            readable = λ a. can_read (prot_at (prot_read + prot_write) placed.pages a);
            writable = λ a. can_write (prot_at (prot_read + prot_write) placed.pages a);
          };
          mem_count = placed.end;
          entrypoint = sub32 (ehdr_at mapped.bytes 0).e_entry head.p_vaddr;
        },
        record {
          loads =
              loader_read_elf-mapped host exe serves.maps_file
              ∙ read_mapped-program host mapped.bytes exe file
              ∙ rw (load_segments, e3) refl
              ∙ load_image-lem host mapped.bytes (ehdr_at mapped.bytes 0) 0 placed head
                  (record exe { entrypoint = placed.entrypoint }) serves.maps_image copied unpatched
              ∙ rw (protect_image, protects) refl;
          loaded = record {
            size = refl;
            holds = holds;
            reading =
                All-map (λ s m j lt. can_read-InSome (prot_read + prot_write) s j image.paged m lt)
                  image.in_pages;
            writing =
                All-map (λ s m j lt. can_write-InSome (prot_read + prot_write) s j image.paged m lt)
                  image.in_pages;
          };
          entrypoint = refl;
          layout_of = image;
          base = refl;
          all_bytes = λ h.
              copy_segments-IsByte mapped.bytes placed.end h (λ a. 0) placed.segms
                (λ a. omega arith) copied;
        },
      )

  -- On an executable that needs no relocation, and a system that has the file and the memory, the
  -- loader returns 0 and an image in which each segment has its bytes, and can be read just if its flags
  -- say so, and written to just if they say so; the entry point is at its distance from the first segment's address.
  pub loader_read_elf-Loads :
      IsExecutable host.page_size mapped.bytes head rest
      → Serves host mapped placed.end memory
      → (exe' : LoadedExe) × (loader_read_elf host exe ≡ returned 0 exe')
        × IsLoadedImage mapped.bytes placed exe'.mem
        × (exe'.entrypoint ≡ sub32 (ehdr_at mapped.bytes 0).e_entry head.p_vaddr)
        × IsImage host.page_size (head ∷ rest) placed
  loader_read_elf-Loads file serves =
      let (exe', l) = IsProgram-Loads file.program serves (λ bytes image holds.
        relocate_sections_none mapped.bytes (ehdr_at mapped.bytes 0).e_shoff placed.segms placed.end
          0 (ehdr_at mapped.bytes 0).e_shnum 0 bytes
          (λ k lt. file.no_relocation k (omega arith))) in
      (exe', l.loads, l.loaded, l.entrypoint, l.layout_of)
