-- ===== src/Elf.antt =====
-- The part of the ELF format, as elf.h of the system declares it, that loader.c reads and bfc.c writes: the structures
-- of 32-bit files as bytes at fixed offsets, least significant first, and the constants.
use rv32isam.Base.{List, [], ◌∷◌, ◌++◌, ℕ, ◌+◌, ◌*◌, ◌/◌, ◌%◌, ◌^◌}
use rv32isam.Base.Bytes.{load_u32}

abbrev pub load_u16 : (ℕ → ℕ) → ℕ → ℕ
load_u16 bytes a = bytes a + bytes (a + 1) * 2 ^ 8

pub record Ehdr : Type 0 where
  pub e_type : ℕ
  pub e_machine : ℕ
  pub e_version : ℕ
  pub e_entry : ℕ
  pub e_phoff : ℕ
  pub e_shoff : ℕ
  pub e_flags : ℕ
  pub e_ehsize : ℕ
  pub e_phentsize : ℕ
  pub e_phnum : ℕ
  pub e_shentsize : ℕ
  pub e_shnum : ℕ
  pub e_shstrndx : ℕ

pub record Phdr : Type 0 where
  pub p_type : ℕ
  pub p_offset : ℕ
  pub p_vaddr : ℕ
  pub p_paddr : ℕ
  pub p_filesz : ℕ
  pub p_memsz : ℕ
  pub p_flags : ℕ
  pub p_align : ℕ

pub record Shdr : Type 0 where
  pub sh_name : ℕ
  pub sh_type : ℕ
  pub sh_flags : ℕ
  pub sh_addr : ℕ
  pub sh_offset : ℕ
  pub sh_size : ℕ
  pub sh_link : ℕ
  pub sh_info : ℕ
  pub sh_addralign : ℕ
  pub sh_entsize : ℕ

pub record Sym : Type 0 where
  pub st_name : ℕ
  pub st_value : ℕ
  pub st_size : ℕ
  pub st_info : ℕ
  pub st_other : ℕ
  pub st_shndx : ℕ

pub record Rela : Type 0 where
  pub r_offset : ℕ
  pub r_info : ℕ
  pub r_addend : ℕ

abbrev pub sizeof_phdr : ℕ
sizeof_phdr = 32

abbrev pub sizeof_shdr : ℕ
sizeof_shdr = 40

abbrev pub sizeof_sym : ℕ
sizeof_sym = 16

abbrev pub sizeof_rela : ℕ
sizeof_rela = 12

abbrev pub sizeof_ehdr : ℕ
sizeof_ehdr = 52

-- The structure at an offset of a file.
abbrev pub ehdr_at : (ℕ → ℕ) → ℕ → Ehdr
ehdr_at bytes a = record {
  e_type = load_u16 bytes (a + 16);
  e_machine = load_u16 bytes (a + 18);
  e_version = load_u32 bytes (a + 20);
  e_entry = load_u32 bytes (a + 24);
  e_phoff = load_u32 bytes (a + 28);
  e_shoff = load_u32 bytes (a + 32);
  e_flags = load_u32 bytes (a + 36);
  e_ehsize = load_u16 bytes (a + 40);
  e_phentsize = load_u16 bytes (a + 42);
  e_phnum = load_u16 bytes (a + 44);
  e_shentsize = load_u16 bytes (a + 46);
  e_shnum = load_u16 bytes (a + 48);
  e_shstrndx = load_u16 bytes (a + 50);
}

abbrev pub phdr_at : (ℕ → ℕ) → ℕ → Phdr
phdr_at bytes a = record {
  p_type = load_u32 bytes a;
  p_offset = load_u32 bytes (a + 4);
  p_vaddr = load_u32 bytes (a + 8);
  p_paddr = load_u32 bytes (a + 12);
  p_filesz = load_u32 bytes (a + 16);
  p_memsz = load_u32 bytes (a + 20);
  p_flags = load_u32 bytes (a + 24);
  p_align = load_u32 bytes (a + 28);
}

abbrev pub shdr_at : (ℕ → ℕ) → ℕ → Shdr
shdr_at bytes a = record {
  sh_name = load_u32 bytes a;
  sh_type = load_u32 bytes (a + 4);
  sh_flags = load_u32 bytes (a + 8);
  sh_addr = load_u32 bytes (a + 12);
  sh_offset = load_u32 bytes (a + 16);
  sh_size = load_u32 bytes (a + 20);
  sh_link = load_u32 bytes (a + 24);
  sh_info = load_u32 bytes (a + 28);
  sh_addralign = load_u32 bytes (a + 32);
  sh_entsize = load_u32 bytes (a + 36);
}

abbrev pub sym_at : (ℕ → ℕ) → ℕ → Sym
sym_at bytes a = record {
  st_name = load_u32 bytes a;
  st_value = load_u32 bytes (a + 4);
  st_size = load_u32 bytes (a + 8);
  st_info = bytes (a + 12);
  st_other = bytes (a + 13);
  st_shndx = load_u16 bytes (a + 14);
}

abbrev pub rela_at : (ℕ → ℕ) → ℕ → Rela
rela_at bytes a = record {
  r_offset = load_u32 bytes a;
  r_info = load_u32 bytes (a + 4);
  r_addend = load_u32 bytes (a + 8);
}

-- The bytes of the structures.
abbrev pub half_bytes : ℕ → List ℕ
half_bytes v = v % 2 ^ 8 ∷ v / 2 ^ 8 % 2 ^ 8 ∷ []

abbrev pub words : List ℕ → List ℕ
words [] = []
words (w ∷ ws) = w % 2 ^ 8 ∷ w / 2 ^ 8 % 2 ^ 8 ∷ w / 2 ^ 16 % 2 ^ 8 ∷ w / 2 ^ 24 % 2 ^ 8 ∷ words ws

abbrev pub ehdr_bytes : List ℕ → Ehdr → List ℕ
ehdr_bytes e_ident h =
    e_ident
    ++ (half_bytes h.e_type
        ++ (half_bytes h.e_machine
            ++ (words (h.e_version ∷ h.e_entry ∷ h.e_phoff ∷ h.e_shoff ∷ h.e_flags ∷ [])
                ++ (half_bytes h.e_ehsize
                    ++ (half_bytes h.e_phentsize
                        ++ (half_bytes h.e_phnum
                            ++ (half_bytes h.e_shentsize
                                ++ (half_bytes h.e_shnum ++ half_bytes h.e_shstrndx))))))))

abbrev pub phdr_bytes : Phdr → List ℕ
phdr_bytes h = words (
    h.p_type ∷ h.p_offset ∷ h.p_vaddr ∷ h.p_paddr ∷ h.p_filesz ∷ h.p_memsz ∷ h.p_flags ∷ h.p_align
    ∷ [])

abbrev pub shdr_bytes : Shdr → List ℕ
shdr_bytes h = words (
    h.sh_name ∷ h.sh_type ∷ h.sh_flags ∷ h.sh_addr ∷ h.sh_offset ∷ h.sh_size ∷ h.sh_link ∷ h.sh_info
    ∷ h.sh_addralign ∷ h.sh_entsize ∷ [])

abbrev pub sym_bytes : Sym → List ℕ
sym_bytes s =
    words (s.st_name ∷ s.st_value ∷ s.st_size ∷ [])
    ++ (s.st_info % 2 ^ 8 ∷ s.st_other % 2 ^ 8 ∷ half_bytes s.st_shndx)

abbrev pub rela_bytes : Rela → List ℕ
rela_bytes r = words (r.r_offset ∷ r.r_info ∷ r.r_addend ∷ [])

-- ELF32_R_SYM and ELF32_R_TYPE.
abbrev pub r_sym : ℕ → ℕ
r_sym info = info / 2 ^ 8

abbrev pub r_type : ℕ → ℕ
r_type info = info % 2 ^ 8

abbrev pub em_riscv : ℕ
em_riscv = 243

abbrev pub pt_load : ℕ
pt_load = 1

abbrev pub pt_interp : ℕ
pt_interp = 3

abbrev pub pf_x : ℕ
pf_x = 1

abbrev pub pf_w : ℕ
pf_w = 2

abbrev pub pf_r : ℕ
pf_r = 4

abbrev pub sht_rela : ℕ
sht_rela = 4

abbrev pub r_riscv_hi20 : ℕ
r_riscv_hi20 = 26

abbrev pub pt_riscv_attributes : ℕ
pt_riscv_attributes = 0x70000003

abbrev pub sht_progbits : ℕ
sht_progbits = 1

abbrev pub sht_symtab : ℕ
sht_symtab = 2

abbrev pub sht_strtab : ℕ
sht_strtab = 3

abbrev pub sht_nobits : ℕ
sht_nobits = 8

abbrev pub sht_riscv_attributes : ℕ
sht_riscv_attributes = 0x70000003

abbrev pub shf_write : ℕ
shf_write = 1

abbrev pub shf_alloc : ℕ
shf_alloc = 2

abbrev pub shf_execinstr : ℕ
shf_execinstr = 4

abbrev pub shf_strings : ℕ
shf_strings = 32

abbrev pub et_exec : ℕ
et_exec = 2

abbrev pub ev_current : ℕ
ev_current = 1

abbrev pub stt_object : ℕ
stt_object = 1

abbrev pub stt_func : ℕ
stt_func = 2
