-- ===== src/Bfc/Emit/Loaded.antt =====
-- The file of `emit_elf` in `loader_read_elf`: where its sections are in the image, and that the
-- relocations change nothing there.
use rv32isam.Base.{
  ℕ, ◌+◌, ◌-◌, ◌*◌, ◌^◌, ◌≤◌, ◌<◌, ◌≡◌, refl, sym, arith, List, [], ◌∷◌, true, false, Bool-cases,
  inl, inr, ltb, ◌==◌,
}
use rv32isam.Base.Word.{u32, sub32, add64}
use rv32isam.Base.Bytes.{IsByte}
use rv32isam.Base.Masks.{two_pow_pos, two_pow_le}
use rv32isam.BitMath.Align.{round_up, round_up-IsRoundUp, IsRoundUp-near}
use rv32isam.Elf.{Shdr, shdr_at, rela_at}
use rv32isam.Loader.{LoadableSegment}
use rv32isam.Loader.Layout.Pair.{first_of}
use rv32isam.Loader.Image.Laws.{Holds}
use rv32isam.Loader.Sections
use rv32isam.Loader.Sections.{
  found, contains, find_offset_for_section, patched, relocate_section, relocate_sections,
  section_at,
}
use rv32isam.Loader.Sections.Laws.{
  relocate_sections_same, relocate_section_other, relocate_section_two, relocate-zero,
  patch_hi20-zero,
}
use rv32isam.Bfc.Emit.File.{places}
use rv32isam.Bfc.Emit.ReadBack.{data_phdr, text_phdr}
use rv32isam.Bfc.Emit.Relocated.{HasSections, HasRelocations}

-- Where the instructions are in the image.
abbrev pub text_offset : ℕ → ℕ
text_offset page_size = round_up 68608 page_size - 0x10000

abbrev pub text_segment : ℕ → ℕ → LoadableSegment
text_segment page_size n = record {
  mem_offset = text_offset page_size;
  phdr = text_phdr page_size n (places page_size n);
}

abbrev pub two_segments : ℕ → ℕ → List LoadableSegment
two_segments page_size n =
    first_of (data_phdr page_size (places page_size n)) ∷ text_segment page_size n ∷ []

-- Pages of at most 64 KB.
pub record AreSmallPages (page_size : ℕ) : Type 0 where
  pub exponent : ℕ
  pub small : exponent ≤ 16
  pub value : page_size ≡ 2 ^ exponent

-- The code begins soon after the data.
pub record IsNear (text : ℕ) : Type 0 where
  pub from : 68608 ≤ text
  pub to : text ≤ 68608 + 2 ^ 16

pub text-IsNear : {page_size : ℕ} → AreSmallPages page_size → IsNear (round_up 68608 page_size)
text-IsNear {page_size} pages =
    let pos : 0 < page_size = omega (arith, pages.value, two_pow_pos pages.exponent) in
    let up = round_up-IsRoundUp 68608 page_size pos in
    let small = two_pow_le pages.exponent 16 pages.small in
    record { from = up.not_below; to = omega (arith, IsRoundUp-near pos up, pages.value, small) }

module _ (page_size n : ℕ) (near : IsNear (round_up 68608 page_size)) (some_code : 0 < n)
    (room : n + 1000 ≤ 2 ^ 31) where
  find-data :
      (section : Shdr)
      → section.sh_addr ≡ 0x10000
      → find_offset_for_section section (two_segments page_size n) ≡ found 0
  unfolding find_offset_for_section
  find-data section e = rw e refl

  find-text :
      (section : Shdr)
      → section.sh_addr ≡ round_up 68608 page_size
      → find_offset_for_section section (two_segments page_size n) ≡ found (text_offset page_size)
  unfolding find_offset_for_section
  find-text section e =
      let text = round_up 68608 page_size in
      let beyond : contains (first_of (data_phdr page_size (places page_size n))) text ≡ false =
        ground (arith, near.from) in
      let inside : contains (text_segment page_size n) text ≡ true =
        ground (arith, near.to, some_code, room) in
      let res : add64 (text_offset page_size) (sub32 text text) ≡ text_offset page_size =
        omega (arith, near.to) in
      let low : ltb (text_offset page_size) (2 ^ 32 - 1) ≡ true = ground (arith, near.to) in
      let same : u32 (text_offset page_size) ≡ text_offset page_size = omega (arith, near.to) in
      rw (e, beyond, inside, res, low, same) refl

  -- On an image that holds the segments.
  module _ (f : ℕ → ℕ) (all_bytes : (a : ℕ) → IsByte (f a)) (size : ℕ)
      (sections : HasSections (places page_size n) f) (entries : HasRelocations n f) (long : 8 ≤ n)
      (within : text_offset page_size + n ≤ size) (bytes : ℕ → ℕ)
      (holds : Holds f bytes (text_segment page_size n)) where
    patched-IsByte :
        (b : ℕ) → text_offset page_size ≤ b → b < text_offset page_size + n → IsByte (bytes b)
    patched-IsByte b from to =
        let j = b - text_offset page_size in
        let given : ltb j n ≡ true = ground arith in
        let back : text_offset page_size + j ≡ b = omega (arith, from) in
        rw (sym back) (rw (holds j (omega arith), given) (all_bytes (468 + j)))

    first_two :
        (i : ℕ)
        → i < 2
        → Sections.relocate f 148
            (two_segments page_size n)
            size
            0
            (text_offset page_size)
            (section_at f 148 (two_segments page_size n) size 0 (shdr_at f 268).sh_link).sh_offset
            (rela_at f ((shdr_at f 268).sh_offset + 12 * i))
            bytes
          ≡ patched bytes
    first_two i lt =
        rw (sections.rela_link, sections.symtab_offset, sections.rela_offset)
          (relocate-zero f 148 (two_segments page_size n) size 0 (text_offset page_size) (492 + n)
            (rela_at f (468 + n + 12 * i)) bytes 1 (4 * i) (entries.info i lt) (entries.addend i lt)
            (entries.offset i lt) entries.value entries.shndx
            (find-data (shdr_at f 188) sections.data_addr)
            (patch_hi20-zero size bytes (text_offset page_size + 4 * i) (omega arith)
              (λ b from to. patched-IsByte b (omega arith) (omega arith))))

    rela_same :
        relocate_section f 148 (two_segments page_size n) size 0 (shdr_at f 268) bytes
        ≡ patched bytes
    rela_same =
        relocate_section_two f 148 (two_segments page_size n) size 0 (shdr_at f 268) bytes
          sections.rela_type sections.rela_entsize sections.rela_size
          (rw sections.rela_info (find-text (shdr_at f 228) sections.text_addr)) first_two

    section_same :
        (k : ℕ)
        → k < 8
        → relocate_section f 148
            (two_segments page_size n)
            size
            0
            (section_at f 148 (two_segments page_size n) size 0 k)
            bytes
          ≡ patched bytes
    section_same k lt = elim (Bool-cases (k == 3)) [
      | inl e ↦ let three : k ≡ 3 = ground (arith, e) in rw three rela_same
      | inr e ↦
          relocate_section_other f 148 (two_segments page_size n) size 0 (shdr_at f (148 + 40 * k))
            bytes (sections.others k lt (ground (arith, e)))
    ]

    pub relocations-same :
        relocate_sections f 148 (two_segments page_size n) size 0 8 0 bytes ≡ patched bytes
    relocations-same =
        relocate_sections_same f 148 (two_segments page_size n) size 0 8 0 bytes section_same
