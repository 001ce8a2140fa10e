-- ===== src/Bfc/Emit/File.antt =====
-- The file that `emit_elf` writes, as a list of bytes.
use rv32isam.Base.{ℕ, ◌+◌, List, [], ◌∷◌, ◌++◌}
use rv32isam.Base.Lists.{length}
use rv32isam.Bfc.Names.{
  bf_data_name, bf_entry_name, text_name, data_name, attributes_name, rela_text_name, symtab_name,
  strtab_name, shstrtab_name,
}
use rv32isam.Elf.{words}
use rv32isam.BitMath.Align.{round_up}

-- Where the parts of the file lie: the address of the instructions, and the offsets of the
-- data, which takes no place, of what follows the instructions, and of the tables.
pub record Places : Type 0 where
  pub text : ℕ
  pub data_at : ℕ
  pub tables : ℕ
  pub attributes_len : ℕ
  pub symtab : ℕ
  pub strtab : ℕ
  pub shstrtab : ℕ

-- The ELF header of an executable for RISC-V with three segments at 52 and eight sections at 148,
-- whose names are in section 6.
abbrev pub file_header : Places → List ℕ
file_header at =
    0x7f ∷ 69 ∷ 76 ∷ 70 ∷ 1 ∷ 1 ∷ 1 ∷ 0 ∷ 0 ∷ 0 ∷ 0 ∷ 0 ∷ 0 ∷ 0 ∷ 0 ∷ 0 ∷ 2 ∷ 0 ∷ 243 ∷ 0 ∷ []
    ++ (words (1 ∷ at.text ∷ 52 ∷ 148 ∷ 0 ∷ [])
        ++ (52 ∷ 0 ∷ 32 ∷ 0 ∷ 3 ∷ 0 ∷ 40 ∷ 0 ∷ 8 ∷ 0 ∷ 6 ∷ 0 ∷ []))

-- The data, the instructions and the attributes: type, offset, both addresses, both sizes, flags and
-- alignment.
abbrev pub segment_headers : ℕ → ℕ → Places → List ℕ
segment_headers page_size n at =
    words (1 ∷ at.data_at ∷ 0x10000 ∷ 0x10000 ∷ 0 ∷ 3072 ∷ 6 ∷ page_size ∷ [])
    ++ (words (1 ∷ 468 ∷ at.text ∷ at.text ∷ n ∷ n ∷ 5 ∷ page_size ∷ [])
        ++ words (0x70000003 ∷ at.tables ∷ 0 ∷ 0 ∷ at.attributes_len ∷ 0 ∷ 4 ∷ 1 ∷ []))

-- The empty section, .data, .text, .rela.text, .symtab, .strtab, .shstrtab, .riscv.attributes: name,
-- type, flags, address, offset, size, link, info, alignment and size of an entry.
abbrev pub section_headers : ℕ → ℕ → Places → List ℕ
section_headers page_size n at =
    words (0 ∷ 0 ∷ 0 ∷ 0 ∷ 0 ∷ 0 ∷ 0 ∷ 0 ∷ 0 ∷ 0 ∷ [])
    ++ (words (7 ∷ 8 ∷ 3 ∷ 0x10000 ∷ at.data_at ∷ 3072 ∷ 0 ∷ 0 ∷ page_size ∷ 0 ∷ [])
        ++ (words (1 ∷ 1 ∷ 6 ∷ at.text ∷ 468 ∷ n ∷ 0 ∷ 0 ∷ page_size ∷ 0 ∷ [])
            ++ (words (31 ∷ 4 ∷ 0 ∷ 0 ∷ at.tables ∷ 24 ∷ 4 ∷ 2 ∷ 0 ∷ 12 ∷ [])
                ++ (words (42 ∷ 2 ∷ 0 ∷ 0 ∷ at.symtab ∷ 32 ∷ 5 ∷ 2 ∷ 1 ∷ 16 ∷ [])
                    ++ (words (50 ∷ 3 ∷ 32 ∷ 0 ∷ at.strtab ∷ 19 ∷ 0 ∷ 0 ∷ 1 ∷ 1 ∷ [])
                        ++ (words (58 ∷ 3 ∷ 32 ∷ 0 ∷ at.shstrtab ∷ 68 ∷ 0 ∷ 0 ∷ 1 ∷ 1 ∷ [])
                            ++ words (
                                13 ∷ 0x70000003 ∷ 0 ∷ 0 ∷ at.tables ∷ at.attributes_len ∷ 0 ∷ 0 ∷ 1
                                ∷ 0 ∷ [])))))))

abbrev pub elf_headers : ℕ → ℕ → Places → List ℕ
elf_headers page_size n at =
    file_header at ++ (segment_headers page_size n at ++ section_headers page_size n at)

-- Of the first two instructions, against symbol 0.
abbrev pub relocations : List ℕ
relocations = words (0 ∷ 26 ∷ 0 ∷ 4 ∷ 26 ∷ 0 ∷ [])

-- `_bf_data`, an object in section 1, and `_bf_entry`, a function in section 2.
abbrev pub symbols : ℕ → List ℕ
symbols n =
    words (0 ∷ 0 ∷ 3072 ∷ []) ++ (1 ∷ 0 ∷ 1 ∷ 0 ∷ words (9 ∷ 0 ∷ n ∷ []) ++ (2 ∷ 0 ∷ 2 ∷ 0 ∷ []))

abbrev pub ended : List ℕ → List ℕ
ended name = name ++ (0 ∷ [])

abbrev pub symbol_names : List ℕ
symbol_names = ended bf_data_name ++ ended bf_entry_name

abbrev pub section_names : List ℕ
section_names =
    ended []
    ++ (ended text_name
        ++ (ended data_name
            ++ (ended attributes_name
                ++ (ended rela_text_name
                    ++ (ended symtab_name ++ (ended strtab_name ++ ended shstrtab_name))))))

-- The instructions begin at the first multiple of the page size after the data.
abbrev pub places : ℕ → ℕ → Places
places page_size n = record {
  text = round_up (0x10000 + 3072) page_size;
  data_at = 468 + n;
  tables = 468 + n;
  attributes_len = 0;
  symtab = 492 + n;
  strtab = 524 + n;
  shstrtab = 543 + n;
}

-- The whole file.
abbrev pub elf_file : ℕ → List ℕ → List ℕ
elf_file page_size insns =
    let n = length insns in
    elf_headers page_size n (places page_size n)
    ++ ((((insns ++ relocations) ++ symbols n) ++ symbol_names) ++ section_names)
