-- ===== src/Loader/ReadElf.antt =====
-- loader.c: `loader_read_elf`. `code` is a `bool`, so that every error is 1.
pub mod Laws
use Prim.Native.Nat.{bit_and}
use rv32isam.Base.{
  ℕ, zero, suc, ◌+◌, ◌*◌, List, [], ◌∷◌, Option, none, some, Bool, true, false, not, ltb, ◌==◌,
  ◌&&◌, ◌||◌, inl, inr, if◌then◌else◌,
}
use rv32isam.Base.Lists.{◌>>=◌}
use rv32isam.Base.Word.{sub32, bool_word}
use rv32isam.Elf.{
  Ehdr, Phdr, ehdr_at, phdr_at, sizeof_phdr, em_riscv, pt_load, pt_interp, pf_x, pf_r,
}
use rv32isam.Interpret.State.{Memory}
use rv32isam.Loader.Host.{
  Host, MappedFile, LoadedExe, Loaded, returned, aborted, undefined, mmap_file, protect_pages,
  prot_at, can_read, can_write, prot_read, prot_write,
}
use rv32isam.Loader.Layout.{Placed, layout}
use rv32isam.Loader.Image.{copy_segments}
use rv32isam.Loader.Sections
use rv32isam.Loader.Sections.{relocate_sections}

-- `expected_ident`, and its comparison with the file's first bytes.
abbrev pub expected_ident : List ℕ
expected_ident = 0x7f ∷ 69 ∷ 76 ∷ 70 ∷ 1 ∷ 1 ∷ 1 ∷ 0 ∷ 0 ∷ []

abbrev pub begins_with : (ℕ → ℕ) → ℕ → List ℕ → Bool
begins_with bytes a [] = true
begins_with bytes a (b ∷ rest) = bytes a == b && begins_with bytes (a + 1) rest

-- The loop over the program headers from index `i` on, `n` of them: the loadable ones, and whether
-- one of these can be read and executed. A header of a program interpreter is an error.
unfoldable pub loadable_segments : (ℕ → ℕ) → ℕ → ℕ → ℕ → Option (List Phdr × Bool)
loadable_segments file e_phoff zero i = some ([], false)
loadable_segments file e_phoff (suc n) i =
    let segment = phdr_at file (e_phoff + sizeof_phdr * i) in
    let rest = loadable_segments file e_phoff n (i + 1) in
    if segment.p_type == pt_interp
    then none
    else if segment.p_type == pt_load
    then (do
      (segments, found_any) ← rest
      some
          (segment ∷ segments, (bit_and segment.p_flags (pf_x + pf_r) == pf_x + pf_r) || found_any))
    else rest

module _ (host : Host) (file : ℕ → ℕ) (ehdr : Ehdr) (code : ℕ) where
  -- From the protections on: the image holds `bytes`.
  pub protect_image : ℕ → Placed → Phdr → LoadedExe → (ℕ → ℕ) → Loaded
  protect_image memory placed head exe bytes =
      if protect_pages host memory placed.pages == 0
      then returned code (record {
        mem = record {
          base = memory;
          size = placed.end;
          bytes = bytes;
          readable = λ a. can_read (prot_at (prot_read + prot_write) placed.pages a);
          writable = λ a. can_write (prot_at (prot_read + prot_write) placed.pages a);
        };
        mem_count = placed.end;
        entrypoint = sub32 ehdr.e_entry head.p_vaddr;
      })
      else returned 1 exe

  -- From the layout's end on.
  pub load_image : Placed → Phdr → LoadedExe → Loaded
  load_image placed head exe = elim (host.mmap placed.end) [
    | inl errno ↦ returned 1 exe
    | inr memory ↦ elim (copy_segments file placed.end (λ a. 0) placed.segms) [
      | none ↦ undefined
      | some copied ↦
          elim (relocate_sections file ehdr.e_shoff placed.segms placed.end code ehdr.e_shnum 0
            copied) [
              | Sections.patched bytes ↦ protect_image memory placed head exe bytes
              | Sections.failed code' ↦ returned code' exe
              | Sections.aborted ↦ aborted
              | Sections.undefined ↦ undefined
            ]
    ]
  ]

  -- From the collected segments on. The layout may leave an entry point in `exe` even where loading
  -- then fails.
  pub load_segments : List Phdr → Bool → LoadedExe → Loaded
  load_segments [] found_any exe = returned code exe
  load_segments (head ∷ rest) found_any exe =
      if not found_any
      then returned code exe
      else if ltb host.page_size head.p_align
      then returned 1 exe
      else (let placed = layout host.page_size ehdr.e_entry exe.entrypoint head rest in
          load_image placed head (record exe { entrypoint = placed.entrypoint }))

-- The checks of the mapped file.
pub read_mapped : Host → (ℕ → ℕ) → LoadedExe → Loaded
read_mapped host file exe =
    let ehdr = ehdr_at file 0 in
    let code = bool_word (ehdr.e_entry == 0) in
    if not (begins_with file 0 expected_ident)
    then returned 1 exe
    else if not (ehdr.e_machine == em_riscv)
    then returned 1 exe
    else if ehdr.e_phentsize == 0
    then returned 1 exe
    else elim (loadable_segments file ehdr.e_phoff ehdr.e_phnum 0) [
      | none ↦ returned 1 exe
      | some (segments, found_any) ↦ load_segments host file ehdr code segments found_any exe
    ]

-- A call that fails sets `errno`, which is not 0.
pub loader_read_elf : Host → LoadedExe → Loaded
loader_read_elf host exe = elim (mmap_file host) [
  | inl errno ↦ returned 1 exe
  | inr mapped ↦ read_mapped host mapped.bytes exe
]
