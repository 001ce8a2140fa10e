-- ===== src/Bfc/Headers.antt =====
-- bfc.c: the headers that `emit_elf` fills in.
use Prim.Native.Nat.{bit_and}
use rv32isam.Base.{ℕ, zero, suc, ◌+◌, ◌*◌, ◌/◌, ◌%◌, ◌^◌, List, [], ◌∷◌}
use rv32isam.Base.Word.{add32, sub32, not32}
use rv32isam.Bfc.Names.{
  segment_count, text_shdr, symtab_shdr, strtab_shdr, shstrtab_shdr, section_count,
}
use rv32isam.Elf.{
  Ehdr, Phdr, Shdr, Sym, Rela, sizeof_ehdr, sizeof_phdr, sizeof_shdr, sizeof_sym, sizeof_rela,
  pt_load, pt_riscv_attributes, pf_r, pf_w, pf_x, sht_progbits, sht_symtab, sht_strtab, sht_rela,
  sht_nobits, sht_riscv_attributes, shf_write, shf_alloc, shf_execinstr, shf_strings, et_exec,
  em_riscv, ev_current, r_riscv_hi20,
}

-- `__builtin_popcountll`, of the `n` lowest bits.
abbrev pub popcount : ℕ → ℕ → ℕ
popcount zero v = 0
popcount (suc n) v = v % 2 + popcount n (v / 2)

abbrev pub data_begin_virt : ℕ
data_begin_virt = 0x10000

abbrev pub data_size : ℕ
data_size = 3 * 1024

abbrev pub insns_begin_virt : ℕ → ℕ
insns_begin_virt page_size =
    bit_and (add32 (data_begin_virt + data_size) (sub32 page_size 1)) (not32 (sub32 page_size 1))

-- What the headers are made from.
pub record Plan : Type 0 where
  pub page_size : ℕ
  pub phoff : ℕ
  pub shoff : ℕ
  pub insns_begin_elf : ℕ
  pub insns_len : ℕ

abbrev pub text_section : Plan → ℕ → Shdr
text_section p sh_name = record {
  sh_name = sh_name;
  sh_type = sht_progbits;
  sh_flags = shf_alloc + shf_execinstr;
  sh_addr = insns_begin_virt p.page_size;
  sh_offset = p.insns_begin_elf;
  sh_size = p.insns_len;
  sh_link = 0;
  sh_info = 0;
  sh_addralign = p.page_size;
  sh_entsize = 0;
}

abbrev pub text_segment : Plan → Phdr
text_segment p = record {
  p_type = pt_load;
  p_offset = p.insns_begin_elf;
  p_vaddr = insns_begin_virt p.page_size;
  p_paddr = insns_begin_virt p.page_size;
  p_filesz = p.insns_len;
  p_memsz = p.insns_len;
  p_flags = pf_r + pf_x;
  p_align = p.page_size;
}

abbrev pub data_section : Plan → ℕ → Shdr
data_section p sh_name = record {
  sh_name = sh_name;
  sh_type = sht_nobits;
  sh_flags = shf_alloc + shf_write;
  sh_addr = data_begin_virt;
  sh_offset = add32 p.insns_begin_elf p.insns_len;
  sh_size = data_size;
  sh_link = 0;
  sh_info = 0;
  sh_addralign = p.page_size;
  sh_entsize = 0;
}

abbrev pub data_segment : Plan → Phdr
data_segment p = record {
  p_type = pt_load;
  p_offset = add32 p.insns_begin_elf p.insns_len;
  p_vaddr = data_begin_virt;
  p_paddr = data_begin_virt;
  p_filesz = 0;
  p_memsz = data_size;
  p_flags = pf_r + pf_w;
  p_align = p.page_size;
}

abbrev pub null_section : ℕ → Shdr
null_section sh_name = record {
  sh_name = sh_name;
  sh_type = 0;
  sh_flags = 0;
  sh_addr = 0;
  sh_offset = 0;
  sh_size = 0;
  sh_link = 0;
  sh_info = 0;
  sh_addralign = 0;
  sh_entsize = 0;
}

abbrev pub riscv_attr_section : ℕ → ℕ → ℕ → Shdr
riscv_attr_section begin len sh_name = record (null_section sh_name) {
  sh_type = sht_riscv_attributes;
  sh_offset = begin;
  sh_size = len;
  sh_addralign = 1;
}

abbrev pub riscv_attr_segment : ℕ → ℕ → Phdr
riscv_attr_segment begin len = record {
  p_type = pt_riscv_attributes;
  p_offset = begin;
  p_vaddr = 0;
  p_paddr = 0;
  p_filesz = len;
  p_memsz = 0;
  p_flags = pf_r;
  p_align = 1;
}

abbrev pub rela_section : ℕ → ℕ → Shdr
rela_section rela_offt sh_name = record (null_section sh_name) {
  sh_type = sht_rela;
  sh_offset = rela_offt;
  sh_size = 2 * sizeof_rela;
  sh_link = symtab_shdr;
  sh_info = text_shdr;
  sh_entsize = sizeof_rela;
}

abbrev pub symtab_section : ℕ → ℕ → ℕ → Shdr
symtab_section begin len sh_name = record (null_section sh_name) {
  sh_type = sht_symtab;
  sh_offset = begin;
  sh_size = len;
  sh_addralign = 1;
  sh_link = strtab_shdr;
  sh_info = 2;
  sh_entsize = sizeof_sym;
}

-- `.strtab` and `.shstrtab`.
abbrev pub strings_section : ℕ → ℕ → ℕ → Shdr
strings_section begin len sh_name = record (null_section sh_name) {
  sh_type = sht_strtab;
  sh_flags = shf_strings;
  sh_offset = begin;
  sh_size = len;
  sh_addralign = 1;
  sh_entsize = 1;
}

-- A symbol of local binding: `ELF32_ST_INFO(STB_LOCAL, kind)` is `kind`.
abbrev pub local_symbol : ℕ → ℕ → ℕ → ℕ → Sym
local_symbol st_name st_size kind st_shndx = record {
  st_name = st_name;
  st_value = 0;
  st_size = st_size;
  st_info = kind;
  st_other = 0;
  st_shndx = st_shndx;
}

-- `ELF32_R_INFO(sym, type)`.
abbrev pub hi20_relocation : ℕ → ℕ → Rela
hi20_relocation sym r_offset = record {
  r_offset = r_offset;
  r_info = sym * 2 ^ 8 + r_riscv_hi20;
  r_addend = 0;
}

abbrev pub e_ident : List ℕ
e_ident = 0x7f ∷ 69 ∷ 76 ∷ 70 ∷ 1 ∷ 1 ∷ 1 ∷ 0 ∷ 0 ∷ 0 ∷ 0 ∷ 0 ∷ 0 ∷ 0 ∷ 0 ∷ 0 ∷ []

abbrev pub elf_header : Plan → Ehdr
elf_header p = record {
  e_type = et_exec;
  e_machine = em_riscv;
  e_version = ev_current;
  e_entry = insns_begin_virt p.page_size;
  e_phoff = p.phoff;
  e_shoff = p.shoff;
  e_flags = 0;
  e_ehsize = sizeof_ehdr;
  e_phentsize = sizeof_phdr;
  e_phnum = segment_count;
  e_shentsize = sizeof_shdr;
  e_shnum = section_count;
  e_shstrndx = shstrtab_shdr;
}
