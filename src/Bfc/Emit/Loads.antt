-- ===== src/Bfc/Emit/Loads.antt =====
-- The loader on the file of `emit_elf`.
use mathlib.Core.Path.{subst}
use rv32isam.Base.{
  ℕ, ◌+◌, ◌^◌, ◌≤◌, ◌<◌, ◌≡◌, refl, sym, ◌∙◌, ap, arith, List, [], ◌∷◌, some, true, false, inr, ltb,
}
use rv32isam.Base.Lists.{length, All, none_left, and_all}
use rv32isam.Base.Word.{sub32}
use rv32isam.Base.Bytes.{IsByte}
use rv32isam.Elf.{Ehdr, Phdr, ehdr_at}
use rv32isam.Loader.{LoadableSegment}
use rv32isam.Loader.Host.{Host, MappedFile, LoadedExe, returned}
use rv32isam.Loader.Layout.{Placed, layout}
use rv32isam.Loader.Layout.Pair.{first_of, second_offset, layout-two, data-then-text}
use rv32isam.Loader.Layout.Offset.{IsPowTwo}
use rv32isam.Loader.Layout.Laws.{
  Ascending, last, then_follows, Packed, full, then_packed, IsImage, layout-IsImage,
}
use rv32isam.Loader.Image.Laws.{Holds}
use rv32isam.Loader.Sections.{patched, relocate_sections}
use rv32isam.Loader.ReadElf.{loadable_segments, loader_read_elf}
use rv32isam.Loader.ReadElf.Laws.{IsProgram, Serves, IsLoadedAs, placed, IsProgram-Loads}
use rv32isam.Bfc.Emit.File.{places, elf_file}
use rv32isam.Out.At.{at}
use rv32isam.Bfc.Emit.ReadBack.{contents-at, data_phdr, text_phdr, IsReadAs, elf_file-IsReadAs}
use rv32isam.Out.{Out}
use rv32isam.Bfc.Emit.{emit_elf}
use rv32isam.Bfc.Emit.Writes.{NotCrossed, emit_elf-Writes}
use rv32isam.Bfc.Emit.Relocated.{elf_file-HasSections, elf_file-HasRelocations}
use rv32isam.Bfc.Emit.Loaded.{
  AreSmallPages, text-IsNear, text_offset, text_segment, two_segments, relocations-same,
}

pages-IsPowTwo : {page_size : ℕ} → AreSmallPages page_size → IsPowTwo page_size
pages-IsPowTwo pages = record {
  exponent = pages.exponent;
  small = omega (arith, pages.small);
  value = pages.value;
}

module _ {page_size : ℕ} (insns : List ℕ) (pages : AreSmallPages page_size)
    (room : length insns + 1000 ≤ 2 ^ 31) where
  abbrev data_header : Phdr
  data_header = data_phdr page_size (places page_size (length insns))

  abbrev text_header : Phdr
  text_header = text_phdr page_size (length insns) (places page_size (length insns))

  ascending : Ascending data_header (text_header ∷ [])
  ascending =
      let near = text-IsNear pages in
      then_follows
        record {
          after = omega (arith, near.from);
          vaddr_fits = omega (arith, near.to);
          memsz_fits = omega (arith, room);
          align_request = inr (pages-IsPowTwo pages);
        }
        last

  read-IsProgram :
      {f : ℕ → ℕ}
      → IsReadAs page_size insns f
      → IsProgram page_size f data_header (text_header ∷ [])
  read-IsProgram {f} r = record {
    ident = r.ident;
    machine = ap (λ (e : Ehdr). e.e_machine) r.header;
    entry = λ e.
        absurd (
          omega (arith, sym (ap (λ (h : Ehdr). h.e_entry) r.header) ∙ e, (text-IsNear pages).from));
    has_headers = λ e. absurd (omega (arith, sym (ap (λ (h : Ehdr). h.e_phentsize) r.header) ∙ e));
    headers = ap (λ (h : Ehdr). loadable_segments f h.e_phoff h.e_phnum 0) r.header ∙ r.segments;
    ascending = ascending;
    head_fits = omega arith;
    few = omega arith;
    head_align = omega arith;
    filled = and_all (omega arith) (and_all (omega arith) none_left);
  }

  second-offset : second_offset page_size data_header text_header ≡ text_offset page_size
  second-offset =
      rw pages.value (data-then-text (468 + length insns) (length insns) pages.exponent pages.small)

  layout-segments :
      (e_entry entrypoint : ℕ)
      → (layout page_size e_entry entrypoint data_header (text_header ∷ [])).segms
        ≡ two_segments page_size (length insns)
  layout-segments e_entry entrypoint =
      layout-two page_size e_entry entrypoint data_header text_header
      ∙ ap
          (λ (offset : ℕ).
            first_of data_header ∷ record { mem_offset = offset; phdr = text_header } ∷ [])
          second-offset

-- An image with the data at its start and the instructions from `text_offset` on, which cannot be
-- written to; both can be read.
pub record IsElfImage (page_size : ℕ) (insns : List ℕ) (exe : LoadedExe) : Type 0 where
  pub entrypoint : exe.entrypoint ≡ text_offset page_size
  pub size : exe.mem.size ≡ text_offset page_size + length insns
  pub data_zero : (a : ℕ) → a < 3072 → exe.mem.bytes a ≡ 0
  pub data_writable : (a : ℕ) → a < 3072 → exe.mem.writable a ≡ true
  pub data_readable : (a : ℕ) → a < 3072 → exe.mem.readable a ≡ true
  pub text : (j : ℕ) → j < length insns → exe.mem.bytes (text_offset page_size + j) ≡ at insns j
  pub text_readable :
      (j : ℕ) → j < length insns → exe.mem.readable (text_offset page_size + j) ≡ true
  pub text_read_only :
      (j : ℕ) → j < length insns → exe.mem.writable (text_offset page_size + j) ≡ false
  pub all_bytes : (a : ℕ) → IsByte (exe.mem.bytes a)

Packed-two :
    {from : ℕ} {a b : LoadableSegment} {size : ℕ}
    → Packed from (a ∷ b ∷ []) size
    → size ≡ b.mem_offset + b.phdr.p_memsz
Packed-two (then_packed h (then_packed h' full)) = refl

-- A file of these bytes in memory.
pub record Contains (bytes : ℕ → ℕ) (file : List ℕ) : Type 0 where
  pub same : (j : ℕ) → j < length file → bytes j ≡ at file j
  pub all_bytes : (a : ℕ) → IsByte (bytes a)

module _ (host : Host) (mapped : MappedFile) (exe : LoadedExe) (insns : List ℕ) (address : ℕ)
    (pages : AreSmallPages host.page_size) (long : 8 ≤ length insns)
    (room : length insns + 1000 ≤ 2 ^ 31)
    (file : Contains mapped.bytes (elf_file host.page_size insns)) where
  abbrev read : IsReadAs host.page_size insns mapped.bytes
  read = elf_file-IsReadAs host.page_size insns mapped.bytes (pages-IsPowTwo pages) room file.same

  abbrev placed_elf : Placed
  placed_elf =
      placed host mapped (data_header {page_size = host.page_size} insns pages room)
        (text_header {page_size = host.page_size} insns pages room ∷ []) exe address

  segments-are : placed_elf.segms ≡ two_segments host.page_size (length insns)
  segments-are = layout-segments insns pages room (ehdr_at mapped.bytes 0).e_entry exe.entrypoint

  image-end :
      {size : ℕ} → Packed 0 placed_elf.segms size → size ≡ text_offset host.page_size + length insns
  image-end {size} packed =
      Packed-two (subst (λ (l : List LoadableSegment). Packed 0 l size) segments-are packed)

  both :
      {P : LoadableSegment → Type 0}
      → All P placed_elf.segms
      → P (first_of (data_header {page_size = host.page_size} insns pages room))
        × P (text_segment host.page_size (length insns))
  both {P} all = split (subst (All P) segments-are all)
    where
      split : {a b : LoadableSegment} → All P (a ∷ b ∷ []) → P a × P b
      split (and_all p (and_all q none_left)) = (p, q)

  keeps :
      (bytes : ℕ → ℕ)
      → IsImage host.page_size
          (data_header {page_size = host.page_size} insns pages room
            ∷ text_header {page_size = host.page_size} insns pages room
            ∷ [])
          placed_elf
      → All (Holds mapped.bytes bytes) placed_elf.segms
      → relocate_sections mapped.bytes
          (ehdr_at mapped.bytes 0).e_shoff
          placed_elf.segms
          placed_elf.end
          0
          (ehdr_at mapped.bytes 0).e_shnum
          0
          bytes
        ≡ patched bytes
  keeps bytes image holds =
      ap
        (λ (h : Ehdr).
          relocate_sections mapped.bytes h.e_shoff placed_elf.segms placed_elf.end 0 h.e_shnum 0
            bytes)
        read.header
      ∙ rw segments-are (
          relocations-same host.page_size (length insns) (text-IsNear pages) (omega (arith, long))
            room mapped.bytes file.all_bytes placed_elf.end
            (elf_file-HasSections host.page_size insns mapped.bytes (pages-IsPowTwo pages) room
              file.same)
            (elf_file-HasRelocations host.page_size insns mapped.bytes file.same) long
            (omega (arith, image-end image.packed)) bytes (both holds).1)

  as_loaded :
      {exe' : LoadedExe}
      → IsLoadedAs host mapped
          (data_header {page_size = host.page_size} insns pages room)
          (text_header {page_size = host.page_size} insns pages room ∷ [])
          exe
          address
          exe'
      → IsElfImage host.page_size insns exe'
  as_loaded {exe'} l = record {
    entrypoint =
        l.entrypoint
        ∙ ap (λ (h : Ehdr). sub32 h.e_entry 0x10000) read.header
        ∙ omega (arith, (text-IsNear pages).from, (text-IsNear pages).to);
    size = l.loaded.size ∙ image-end l.layout_of.packed;
    data_zero = λ a lt.
        let beyond : ltb a 0 ≡ false = ground arith in
        ap exe'.mem.bytes (omega arith) ∙ (both l.loaded.holds).0 a lt ∙ rw beyond refl;
    data_writable = λ a lt. ap exe'.mem.writable (omega arith) ∙ (both l.loaded.writing).0 a lt;
    data_readable = λ a lt. ap exe'.mem.readable (omega arith) ∙ (both l.loaded.reading).0 a lt;
    text = λ j lt.
        let given : ltb j (length insns) ≡ true = ground (arith, lt) in
        (both l.loaded.holds).1 j lt ∙ rw given (read.text j lt);
    text_readable = λ j lt. (both l.loaded.reading).1 j lt;
    text_read_only = λ j lt. (both l.loaded.writing).1 j lt;
    all_bytes = l.all_bytes file.all_bytes;
  }

  -- `emit_elf`'s file is loaded.
  pub elf_file-Loads :
      Serves host mapped (text_offset host.page_size + length insns) address
      → (exe' : LoadedExe) × (loader_read_elf host exe ≡ returned 0 exe')
        × (exe'.mem.base ≡ address)
        × IsElfImage host.page_size insns exe'
  elf_file-Loads serves =
      let (exe', l) =
        IsProgram-Loads host mapped (data_header {page_size = host.page_size} insns pages room)
          (text_header {page_size = host.page_size} insns pages room ∷ []) exe address
          (read-IsProgram insns pages room read) (rw end serves) keeps in
      (exe', l.loads, l.base, as_loaded l)
    where
      end : placed_elf.end ≡ text_offset host.page_size + length insns
      end =
          image-end
            (layout-IsImage host.page_size (ehdr_at mapped.bytes 0).e_entry (pages-IsPowTwo pages)
              exe.entrypoint (data_header {page_size = host.page_size} insns pages room)
              (text_header {page_size = host.page_size} insns pages room ∷ [])
              (ascending {page_size = host.page_size} insns pages room) (omega arith)
              (omega arith)).packed

-- For pages of at most 64 KB and at least 8 bytes of instructions, up to nearly 2 ^ 31 and where the
-- array does not grow for the section names: `emit_elf`
-- makes a file, and wherever the system has that file, `loader_read_elf` returns 0 and an image that
-- begins with 3072 zeros, which can be read and written to, and has the instructions, which can be
-- read only, from the entry point on to its end; the relocations change nothing in it.
pub emit_elf-Loads :
    (z : ℕ) (memory : ℕ → ℕ) (host : Host) (mapped : MappedFile) (exe : LoadedExe) (insns : List ℕ)
    (address : ℕ)
    → AreSmallPages host.page_size
    → 8 ≤ length insns
    → length insns + 1000 ≤ 2 ^ 31
    → NotCrossed (543 + length insns)
    → Serves host mapped (text_offset host.page_size + length insns) address
    → ((a : ℕ) → IsByte (mapped.bytes a))
    → (elf : Out) × (emit_elf z memory host.page_size insns ≡ some elf)
      × (((j : ℕ) → j < elf.len → mapped.bytes j ≡ elf.bytes j)
          → (exe' : LoadedExe) × (loader_read_elf host exe ≡ returned 0 exe')
            × (exe'.mem.base ≡ address)
            × IsElfImage host.page_size insns exe')
emit_elf-Loads z memory host mapped exe insns address pages long room settled serves all_bytes =
    let (elf, emitted, valid, holds) =
      emit_elf-Writes z memory host.page_size insns (pages-IsPowTwo pages) room settled in
    (
      elf,
      emitted,
      λ same.
          elf_file-Loads host mapped exe insns address pages long room
            record { same = λ j lt. contents-at elf holds same j lt; all_bytes = all_bytes } serves,
    )
