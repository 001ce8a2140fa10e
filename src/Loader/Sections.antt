-- ===== src/Loader/Sections.antt =====
-- loader.c: sections found in the image, and the relocations applied to it.
pub mod Laws
use Prim.Native.Nat.{bit_and, bit_or}
use rv32isam.Base.{
  ℕ, zero, suc, ◌+◌, ◌-◌, ◌*◌, ◌/◌, ◌^◌, List, [], ◌∷◌, Bool, ltb, leb, ◌==◌, ◌&&◌, if◌then◌else◌,
}
use rv32isam.Base.Word.{u32, add32, sub32, add64, not64}
use rv32isam.Base.Bytes.{load_u32, store_u32}
use rv32isam.Elf.{
  Ehdr, Shdr, Sym, Rela, shdr_at, sym_at, rela_at, sizeof_shdr, sizeof_sym, sizeof_rela, r_sym,
  r_type, sht_rela, r_riscv_hi20,
}
use rv32isam.Loader.{LoadableSegment}

-- `find_offset_for_section`: its result, `false`, or a failed `assert`.
pub data Search : Type 0 where
  found : ℕ → Search
  not_found failed_assert : Search

abbrev pub contains : LoadableSegment → ℕ → Bool
contains segm addr =
    leb segm.phdr.p_vaddr addr && ltb addr (add32 segm.phdr.p_vaddr segm.phdr.p_memsz)

unfoldable pub find_offset_for_section : Shdr → List LoadableSegment → Search
find_offset_for_section section [] = not_found
find_offset_for_section section (segm ∷ rest) =
    let res = add64 segm.mem_offset (sub32 section.sh_addr segm.phdr.p_vaddr) in
    let later = find_offset_for_section section rest in
    if contains segm section.sh_addr
    then (if ltb res (2 ^ 32 - 1) then found (u32 res) else failed_assert)
    else later

-- The image's bytes after relocations; or `goto clean_mapped_exe` with this `code`; or an end.
pub data Patched : Type 0 where
  patched : (ℕ → ℕ) → Patched
  failed : ℕ → Patched
  aborted undefined : Patched

abbrev pub and_then : Patched → ((ℕ → ℕ) → Patched) → Patched
and_then (patched bytes) next = next bytes
and_then (failed code) next = failed code
and_then aborted next = aborted
and_then undefined next = undefined

-- `case R_RISCV_HI20`: the mask is 64 bits wide, and the image's word is used from wherever in the
-- image it is.
pub patch_hi20 : ℕ → (ℕ → ℕ) → ℕ → ℕ → Patched
patch_hi20 size bytes insn_to_patch result =
    if leb (insn_to_patch + 4) size
    then patched (
        store_u32 bytes insn_to_patch
          (u32 (bit_or (load_u32 bytes insn_to_patch) (bit_and result (not64 (2 ^ 20 - 1))))))
    else undefined

-- For a file, the image's segments and size, and the `code` so far.
module _ (file : ℕ → ℕ) (e_shoff : ℕ) (segms : List LoadableSegment) (size code : ℕ) where
  abbrev pub section_at : ℕ → Shdr
  section_at i = shdr_at file (e_shoff + sizeof_shdr * i)

  -- One relocation against the symbols at `syms`.
  pub relocate : ℕ → ℕ → Rela → (ℕ → ℕ) → Patched
  relocate patch_base syms rela bytes =
      let sym = sym_at file (syms + sizeof_sym * r_sym rela.r_info) in
      elim (find_offset_for_section (section_at sym.st_shndx) segms) [
        | found sym_base ↦
            let s = add32 sym_base sym.st_value in
            if r_type rela.r_info == r_riscv_hi20
            then patch_hi20 size bytes (patch_base + rela.r_offset) (add32 s rela.r_addend)
            else failed 1
        | not_found ↦ failed code
        | failed_assert ↦ aborted
      ]

  -- The entries from index `i` on, `n` of them.
  pub relocate_table : ℕ → ℕ → ℕ → ℕ → ℕ → (ℕ → ℕ) → Patched
  relocate_table patch_base syms relatbl zero i bytes = patched bytes
  relocate_table patch_base syms relatbl (suc n) i bytes =
      and_then (relocate patch_base syms (rela_at file (relatbl + sizeof_rela * i)) bytes)
        (λ bytes'. relocate_table patch_base syms relatbl n (i + 1) bytes')

  -- A section with relocations.
  pub relocate_section : Shdr → (ℕ → ℕ) → Patched
  relocate_section rela_shdr bytes =
      if rela_shdr.sh_type == sht_rela
      then (if rela_shdr.sh_entsize == sizeof_rela
          then elim (find_offset_for_section (section_at rela_shdr.sh_info) segms) [
            | found patch_base ↦
                relocate_table patch_base (section_at rela_shdr.sh_link).sh_offset
                  rela_shdr.sh_offset (rela_shdr.sh_size / sizeof_rela) 0 bytes
            | not_found ↦ failed code
            | failed_assert ↦ aborted
          ]
          else aborted)
      else patched bytes

  -- The sections from index `i` on, `n` of them.
  pub relocate_sections : ℕ → ℕ → (ℕ → ℕ) → Patched
  relocate_sections zero i bytes = patched bytes
  relocate_sections (suc n) i bytes =
      and_then (relocate_section (section_at i) bytes)
        (λ bytes'. relocate_sections n (i + 1) bytes')
