-- ===== src/Loader/Sections/Laws.antt =====
-- What the search for a section gives.
use rv32isam.Base.{
  ℕ, zero, suc, ◌==◌, ◌≢◌, ◌*◌, ◌+◌, ◌-◌, ◌^◌, ◌≤◌, ◌<◌, ◌≡◌, refl, arith, List, true, false,
  Bool-cases, inl, inr, ◌⊎◌, ltb, leb,
}
use rv32isam.Base.Lists.{Any, here, there, All, none_left, and_all}
use rv32isam.Base.Word.{u32, add64, sub32}
use rv32isam.Elf.{
  Shdr, Rela, shdr_at, rela_at, sym_at, sizeof_shdr, sizeof_rela, sht_rela, r_riscv_hi20,
}
use rv32isam.Base.Bytes.{IsByte, load_u32, store_u32-load_u32}
use rv32isam.Base.Masks.{bit_or-zero}
use rv32isam.Loader.{LoadableSegment}
use rv32isam.Loader.Sections.{
  found, not_found, contains, find_offset_for_section, patched, relocate_section, relocate_sections,
  relocate, relocate_table, section_at, patch_hi20,
}

-- A segment below 2 ^ 32, in the program's addresses and nearly in the image's.
pub record IsSmall (segm : LoadableSegment) : Type 0 where
  pub in_program : segm.phdr.p_vaddr + segm.phdr.p_memsz < 2 ^ 32
  pub in_image : segm.mem_offset + segm.phdr.p_memsz < 2 ^ 32

-- The segment takes the program's address `addr` to the offset `r` of the image.
pub record Maps (addr r : ℕ) (segm : LoadableSegment) : Type 0 where
  pub from : segm.phdr.p_vaddr ≤ addr
  pub to : addr < segm.phdr.p_vaddr + segm.phdr.p_memsz
  pub place : r ≡ segm.mem_offset + (addr - segm.phdr.p_vaddr)

abbrev pub Avoids : ℕ → LoadableSegment → Type 0
Avoids addr segm = (addr < segm.phdr.p_vaddr) ⊎ (segm.phdr.p_vaddr + segm.phdr.p_memsz ≤ addr)

-- Among segments that are small, and on a `u32` address, the search gives the offset to which one of
-- the segments takes the section's address, or none of them contains it; it never fails its `assert`.
pub find_offset_for_section_lem :
    (section : Shdr) {segms : List LoadableSegment}
    → All IsSmall segms
    → section.sh_addr < 2 ^ 32
    → ((r : ℕ) × (find_offset_for_section section segms ≡ found r)
        × Any (Maps section.sh_addr r) segms)
      ⊎ ((find_offset_for_section section segms ≡ not_found) × All (Avoids section.sh_addr) segms)
unfolding find_offset_for_section
find_offset_for_section_lem section none_left h = inr (refl, none_left)
find_offset_for_section_lem section (and_all {x = segm} small rest) h =
    elim (Bool-cases (contains segm section.sh_addr)) [
      | inl e ↦
          let r = segm.mem_offset + (section.sh_addr - segm.phdr.p_vaddr) in
          let from : segm.phdr.p_vaddr ≤ section.sh_addr = ground (arith, e, small.in_program) in
          let to : section.sh_addr < segm.phdr.p_vaddr + segm.phdr.p_memsz =
            ground (arith, e, small.in_program) in
          let res : add64 segm.mem_offset (sub32 section.sh_addr segm.phdr.p_vaddr) ≡ r =
            omega (arith, small.in_image, from, to) in
          let low : ltb r (2 ^ 32 - 1) ≡ true = ground (arith, small.in_image, from, to) in
          let same : u32 r ≡ r = omega (arith, small.in_image, from, to) in
          inl (r, rw (e, res, low, same) refl, here (record { from = from; to = to; place = refl }))
      | inr e ↦
          let avoids : Avoids section.sh_addr segm = avoid segm small e in
          elim (find_offset_for_section_lem section rest h) [
            | inl (r, f, m) ↦ inl (r, rw (e, f), there m)
            | inr (f, m) ↦ inr (rw (e, f), and_all avoids m)
          ]
    ]
  where
    avoid :
        (s : LoadableSegment)
        → IsSmall s
        → contains s section.sh_addr ≡ false
        → Avoids section.sh_addr s
    avoid s small e = ground (arith, e, small.in_program)

module _ (file : ℕ → ℕ) (e_shoff : ℕ) (segms : List LoadableSegment) (size code : ℕ) where
  -- Where each section from index `i` on, of `n`, leaves the image as it is, all do.
  pub relocate_sections_same :
      (n i : ℕ) (bytes : ℕ → ℕ)
      → ((k : ℕ)
          → k < i + n
          → relocate_section file e_shoff segms size code
              (section_at file e_shoff segms size code k)
              bytes
            ≡ patched bytes)
      → relocate_sections file e_shoff segms size code n i bytes ≡ patched bytes
  unfolding relocate_sections
  relocate_sections_same zero i bytes h = refl
  relocate_sections_same (suc n) i bytes h =
      rw (h i (omega arith)) (relocate_sections_same n (i + 1) bytes (λ k lt. h k (omega arith)))

  -- A section of another type has no relocations.
  pub relocate_section_other :
      (section : Shdr) (bytes : ℕ → ℕ)
      → section.sh_type ≢ sht_rela
      → relocate_section file e_shoff segms size code section bytes ≡ patched bytes
  unfolding relocate_section
  relocate_section_other section bytes other =
      let e : (section.sh_type == sht_rela) ≡ false = ground (arith, other) in rw e refl

  -- Two relocations that leave the image as it is.
  pub relocate_section_two :
      (section : Shdr) {patch_base : ℕ} (bytes : ℕ → ℕ)
      → section.sh_type ≡ sht_rela
      → section.sh_entsize ≡ sizeof_rela
      → section.sh_size ≡ 24
      → find_offset_for_section (section_at file e_shoff segms size code section.sh_info) segms
        ≡ found patch_base
      → ((i : ℕ)
          → i < 2
          → relocate file e_shoff segms size code patch_base
              (section_at file e_shoff segms size code section.sh_link).sh_offset
              (rela_at file (section.sh_offset + sizeof_rela * i))
              bytes
            ≡ patched bytes)
      → relocate_section file e_shoff segms size code section bytes ≡ patched bytes
  unfolding relocate_section relocate_table
  relocate_section_two section bytes type entsize size24 place same =
      rw (type, entsize, place, size24, same 0 (omega arith), same 1 (omega arith)) refl

  -- A relocation against a symbol of the section at the image's start, and without an addend.
  pub relocate-zero :
      (patch_base syms : ℕ) (rela : Rela) (bytes : ℕ → ℕ) (i r_offset : ℕ)
      → rela.r_info ≡ r_riscv_hi20
      → rela.r_addend ≡ 0
      → rela.r_offset ≡ r_offset
      → (sym_at file (syms + 0)).st_value ≡ 0
      → (sym_at file (syms + 0)).st_shndx ≡ i
      → find_offset_for_section (section_at file e_shoff segms size code i) segms ≡ found 0
      → patch_hi20 size bytes (patch_base + r_offset) 0 ≡ patched bytes
      → relocate file e_shoff segms size code patch_base syms rela bytes ≡ patched bytes
  unfolding relocate
  relocate-zero patch_base syms rela bytes i r_offset info addend offset value index place same =
      rw (info, relocate, index, place, info, value, addend, offset, same) refl

-- The upper bits of 0 are joined to an instruction.
pub patch_hi20-zero :
    (size : ℕ) (bytes : ℕ → ℕ) (a : ℕ)
    → a + 4 ≤ size
    → ((b : ℕ) → a ≤ b → b < a + 4 → IsByte (bytes b))
    → patch_hi20 size bytes a 0 ≡ patched bytes
unfolding patch_hi20
patch_hi20-zero size bytes a room h =
    let inside : leb (a + 4) size ≡ true = ground (arith, room) in
    let word : u32 (load_u32 bytes a) ≡ load_u32 bytes a = omega (
      arith,
      h a (omega arith) (omega arith),
      h (a + 1) (omega arith) (omega arith),
      h (a + 2) (omega arith) (omega arith),
      h (a + 3) (omega arith) (omega arith),
    ) in
    rw (inside, bit_or-zero (load_u32 bytes a), word, store_u32-load_u32 bytes a h) refl

-- Where no section from index `i` on, of `n`, has relocations, the image stays as it is.
pub relocate_sections_none :
    (file : ℕ → ℕ) (e_shoff : ℕ) (segms : List LoadableSegment) (size code n i : ℕ) (bytes : ℕ → ℕ)
    → ((k : ℕ) → k < i + n → (shdr_at file (e_shoff + sizeof_shdr * k)).sh_type ≢ sht_rela)
    → relocate_sections file e_shoff segms size code n i bytes ≡ patched bytes
relocate_sections_none file e_shoff segms size code n i bytes h =
    relocate_sections_same file e_shoff segms size code n i bytes (λ k lt.
      relocate_section_other file e_shoff segms size code
        (section_at file e_shoff segms size code k) bytes (h k lt))
