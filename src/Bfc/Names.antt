-- ===== src/Bfc/Names.antt =====
-- bfc.c: the indices of the ELF file's segments and sections, and the names in its tables.
use rv32isam.Base.{ℕ, List, [], ◌∷◌}

-- The indices of the segments and of the sections.
abbrev pub data_segm : ℕ
data_segm = 0

abbrev pub text_segm : ℕ
text_segm = 1

abbrev pub riscv_attr_segm : ℕ
riscv_attr_segm = 2

abbrev pub segment_count : ℕ
segment_count = 3

abbrev pub null_shdr : ℕ
null_shdr = 0

abbrev pub data_shdr : ℕ
data_shdr = 1

abbrev pub text_shdr : ℕ
text_shdr = 2

abbrev pub rela_shdr : ℕ
rela_shdr = 3

abbrev pub symtab_shdr : ℕ
symtab_shdr = 4

abbrev pub strtab_shdr : ℕ
strtab_shdr = 5

abbrev pub shstrtab_shdr : ℕ
shstrtab_shdr = 6

abbrev pub riscv_attr_shdr : ℕ
riscv_attr_shdr = 7

abbrev pub section_count : ℕ
section_count = 8

-- The names, without the terminating 0.
abbrev pub text_name : List ℕ
text_name = 46 ∷ 116 ∷ 101 ∷ 120 ∷ 116 ∷ []

abbrev pub data_name : List ℕ
data_name = 46 ∷ 100 ∷ 97 ∷ 116 ∷ 97 ∷ []

abbrev pub attributes_name : List ℕ
attributes_name =
    46 ∷ 114 ∷ 105 ∷ 115 ∷ 99 ∷ 118 ∷ 46 ∷ 97 ∷ 116 ∷ 116 ∷ 114 ∷ 105 ∷ 98 ∷ 117 ∷ 116 ∷ 101 ∷ 115
    ∷ []

abbrev pub rela_text_name : List ℕ
rela_text_name = 46 ∷ 114 ∷ 101 ∷ 108 ∷ 97 ∷ 46 ∷ 116 ∷ 101 ∷ 120 ∷ 116 ∷ []

abbrev pub symtab_name : List ℕ
symtab_name = 46 ∷ 115 ∷ 121 ∷ 109 ∷ 116 ∷ 97 ∷ 98 ∷ []

abbrev pub strtab_name : List ℕ
strtab_name = 46 ∷ 115 ∷ 116 ∷ 114 ∷ 116 ∷ 97 ∷ 98 ∷ []

abbrev pub shstrtab_name : List ℕ
shstrtab_name = 46 ∷ 115 ∷ 104 ∷ 115 ∷ 116 ∷ 114 ∷ 116 ∷ 97 ∷ 98 ∷ []

abbrev pub bf_data_name : List ℕ
bf_data_name = 95 ∷ 98 ∷ 102 ∷ 95 ∷ 100 ∷ 97 ∷ 116 ∷ 97 ∷ []

abbrev pub bf_entry_name : List ℕ
bf_entry_name = 95 ∷ 98 ∷ 102 ∷ 95 ∷ 101 ∷ 110 ∷ 116 ∷ 114 ∷ 121 ∷ []
