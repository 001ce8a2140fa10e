-- ===== src/Bfc/Emit.antt =====
-- bfc.c: `emit_elf`, which writes a program's instructions as an ELF file of 32 bits. The parts of the
-- file are reserved or appended in the order of the code, and the headers filled in where they
-- were reserved. Every field of every header is assigned, and so a header is stored as a whole.
pub mod File
pub mod Writes
pub mod ReadBack
pub mod Relocated
pub mod Loaded
pub mod Loads
use rv32isam.Base.{
  ℕ, zero, suc, ◌+◌, ◌-◌, ◌*◌, ◌/◌, ◌%◌, ◌^◌, List, [], ◌∷◌, ◌++◌, Option, none, some, ltb, ◌==◌,
  if◌then◌else◌,
}
use rv32isam.Base.Lists.{length, ◌>>=◌}
use rv32isam.Base.Word.{u32, add32, sub32, not32}
use rv32isam.Elf.{
  Phdr, Shdr, Sym, sizeof_ehdr, sizeof_phdr, sizeof_shdr, sizeof_sym, sizeof_rela, ehdr_bytes,
  phdr_bytes, shdr_bytes, sym_bytes, rela_bytes, stt_object, stt_func,
}
use rv32isam.Out.{Out, empty, copy, out_resv_index, out_write, out_write_index}
use rv32isam.Out.Laws.{contents}
use rv32isam.Bfc.Names.{
  data_segm, text_segm, riscv_attr_segm, segment_count, null_shdr, data_shdr, text_shdr, rela_shdr,
  symtab_shdr, strtab_shdr, shstrtab_shdr, riscv_attr_shdr, section_count, text_name, data_name,
  attributes_name, rela_text_name, symtab_name, strtab_name, shstrtab_name, bf_data_name,
  bf_entry_name,
}
use rv32isam.Bfc.Headers.{
  popcount, data_size, Plan, text_section, text_segment, data_section, data_segment, null_section,
  riscv_attr_section, riscv_attr_segment, rela_section, symtab_section, strings_section,
  local_symbol, hi20_relocation, e_ident, elf_header,
}

-- The file, and the names of its sections.
pub record Files : Type 0 where
  pub elf : Out
  pub shstrtab : Out

-- An assignment to bytes that were reserved.
abbrev pub store : ℕ → List ℕ → Out → Out
store a bytes out = record out { bytes = copy out.bytes a bytes }

-- `sections[i] = ` and `segments[i] = `.
abbrev pub set_section : Plan → ℕ → Shdr → Out → Out
set_section p i section = store (p.shoff + sizeof_shdr * i) (shdr_bytes section)

abbrev pub set_segment : Plan → ℕ → Phdr → Out → Out
set_segment p i segment = store (p.phoff + sizeof_phdr * i) (phdr_bytes segment)

module _ (clz_of_zero : ℕ) where
  unfoldable pub strtab_add : Out → List ℕ → record { index : ℕ; out : Out }
  strtab_add out name = out_write_index clz_of_zero out (name ++ (0 ∷ []))

  -- A section with its name.
  abbrev pub add_section : Plan → ℕ → List ℕ → (ℕ → Shdr) → Files → Files
  add_section p i name section files =
      let named = strtab_add files.shstrtab name in
      record { elf = set_section p i (section named.index) files.elf; shstrtab = named.out }

  -- `.text` and `.data`.
  abbrev pub add_program : Plan → Files → Files
  add_program p files =
      let text = add_section p text_shdr text_name (text_section p) files in
      let text' = record text { elf = set_segment p text_segm (text_segment p) text.elf } in
      let data' = add_section p data_shdr data_name (data_section p) text' in
      record data' { elf = set_segment p data_segm (data_segment p) data'.elf }

  -- `emit_riscv_attributes` appends nothing.
  abbrev pub add_attributes : Plan → Files → Files
  add_attributes p files =
      let begin = files.elf.len in
      let len = sub32 files.elf.len begin in
      let section =
        add_section p riscv_attr_shdr attributes_name (riscv_attr_section begin len) files in
      record section {
        elf = set_segment p riscv_attr_segm (riscv_attr_segment begin len) section.elf;
      }

  abbrev pub add_relocations : Plan → ℕ → Files → Files
  add_relocations p data_sym_ndx files =
      let rela_offt = files.elf.len in
      let reserved = out_resv_index clz_of_zero files.elf (2 * sizeof_rela) in
      let relocations =
        rela_bytes (hi20_relocation data_sym_ndx 0)
        ++ rela_bytes (hi20_relocation data_sym_ndx 4) in
      add_section p rela_shdr rela_text_name (rela_section rela_offt)
        (record files { elf = store rela_offt relocations reserved })

  -- A symbol at the end of the table.
  abbrev pub add_symbol : Sym → Out → Out
  add_symbol symbol symtab =
      store symtab.len (sym_bytes symbol) (out_resv_index clz_of_zero symtab sizeof_sym)

  -- An array at the end of the file, in a section of its own.
  abbrev pub add_table : Plan → ℕ → List ℕ → (ℕ → ℕ → ℕ → Shdr) → Out → Files → Files
  add_table p i name section table files =
      let written = out_write_index clz_of_zero files.elf (contents table) in
      add_section p i name (section written.index table.len) (record files { elf = written.out })

  -- The symbols, the relocations and both tables. `memory` is what new arrays happen to hold.
  abbrev pub add_symbols : (ℕ → ℕ) → Plan → Files → Files
  add_symbols memory p files =
      let named_data = strtab_add (empty memory) bf_data_name in
      let one =
        add_symbol (local_symbol named_data.index data_size stt_object data_shdr) (empty memory) in
      let relocated = add_relocations p 0 files in
      let named_entry = strtab_add named_data.out bf_entry_name in
      let two = add_symbol (local_symbol named_entry.index p.insns_len stt_func text_shdr) one in
      let with_symtab = add_table p symtab_shdr symtab_name symtab_section two relocated in
      add_table p strtab_shdr strtab_name strings_section named_entry.out with_symtab

  -- Its name is in the table before the table is written. C leaves open whether the section's header
  -- is looked up before the write whose result is stored in it: where the write has to grow the
  -- file, the store may go to freed memory, and the outcome is `none`.
  abbrev pub add_section_names : Plan → Files → Option Out
  add_section_names p files =
      let named = strtab_add files.shstrtab shstrtab_name in
      let written = out_write_index clz_of_zero files.elf (contents named.out) in
      if ltb files.elf.cap written.out.len
      then none
      else some (
          set_section p shstrtab_shdr (strings_section written.index named.out.len named.index)
            written.out)

  -- The parts from the headers' reservation up to that.
  abbrev pub before_names : (ℕ → ℕ) → Plan → Out → Files
  before_names memory p elf =
      let begun =
        add_section p null_shdr [] null_section (record { elf = elf; shstrtab = empty memory }) in
      add_symbols memory p (add_attributes p (add_program p begun))

  abbrev pub finish_elf : (ℕ → ℕ) → Plan → Out → Option Out
  finish_elf memory p elf = do
    written ← add_section_names p (before_names memory p elf)
    some (store 0 (ehdr_bytes e_ident (elf_header p)) written)

  -- The file's bytes, or a failed `assert`, or an undefined store.
  unfoldable pub emit_elf : (ℕ → ℕ) → ℕ → List ℕ → Option Out
  emit_elf memory page_size insns =
      let ehdr_resv = out_resv_index clz_of_zero (empty memory) sizeof_ehdr in
      let segms_resv = out_resv_index clz_of_zero ehdr_resv (sizeof_phdr * segment_count) in
      let reserved = out_resv_index clz_of_zero segms_resv (sizeof_shdr * section_count) in
      let written = out_write_index clz_of_zero reserved insns in
      let p : Plan = record {
        page_size = page_size;
        phoff = ehdr_resv.len;
        shoff = segms_resv.len;
        insns_begin_elf = written.index;
        insns_len = length insns;
      } in
      if popcount 64 page_size == 1 then finish_elf memory p written.out else none
