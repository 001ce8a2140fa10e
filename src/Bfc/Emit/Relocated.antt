-- ===== src/Bfc/Emit/Relocated.antt =====
-- The relocations of the file of `emit_elf`, as `loader_read_elf` applies them: they change nothing.
use rv32isam.Base.{
  ℕ, zero, suc, ◌+◌, ◌*◌, ◌^◌, ◌≤◌, ◌<◌, ◌≡◌, ◌≢◌, refl, sym, ◌∙◌, ap, arith, List, ◌++◌,
}
use mathlib.Core.Path.{subst}
use native.Mathlib.Nat.{add_assoc}
use rv32isam.Base.Lists.{length, length-append}
use rv32isam.Base.Word.{IsU32}
use rv32isam.Elf.{Sym, Rela, shdr_at, sym_at, rela_at, sht_rela}
use rv32isam.Bfc.Emit.File.{
  Places, places, elf_headers, relocations, symbols, symbol_names, section_names, elf_file,
}
use rv32isam.Out.At.{at, at-append, at-from}
use rv32isam.Bfc.Emit.ReadBack.{longer, over, over-id, round_up_fits, word}
use rv32isam.Loader.Layout.Offset.{IsPowTwo}

-- What the loader reads of the section headers.
pub record HasSections (p : Places) (f : ℕ → ℕ) : Type 0 where
  pub others : (k : ℕ) → k < 8 → k ≢ 3 → (shdr_at f (148 + 40 * k)).sh_type ≢ sht_rela
  pub data_addr : (shdr_at f 188).sh_addr ≡ 0x10000
  pub text_addr : (shdr_at f 228).sh_addr ≡ p.text
  pub rela_type : (shdr_at f 268).sh_type ≡ sht_rela
  pub rela_offset : (shdr_at f 268).sh_offset ≡ p.tables
  pub rela_size : (shdr_at f 268).sh_size ≡ 24
  pub rela_link : (shdr_at f 268).sh_link ≡ 4
  pub rela_info : (shdr_at f 268).sh_info ≡ 2
  pub rela_entsize : (shdr_at f 268).sh_entsize ≡ 12
  pub symtab_offset : (shdr_at f 308).sh_offset ≡ p.symtab

module _ (page_size n : ℕ) (p : Places) (f : ℕ → ℕ) where
  over-others :
      (k : ℕ)
      → k < 8
      → k ≢ 3
      → (shdr_at (over 468 (elf_headers page_size n p) f) (148 + 40 * k)).sh_type ≢ sht_rela
  over-others zero lt ne = λ e. absurd (omega (arith, e))
  over-others (suc zero) lt ne = λ e. absurd (omega (arith, e))
  over-others (suc (suc zero)) lt ne = λ e. absurd (omega (arith, e))
  over-others (suc (suc (suc zero))) lt ne = absurd (ne refl)
  over-others (suc (suc (suc (suc zero)))) lt ne = λ e. absurd (omega (arith, e))
  over-others (suc (suc (suc (suc (suc zero))))) lt ne = λ e. absurd (omega (arith, e))
  over-others (suc (suc (suc (suc (suc (suc zero)))))) lt ne = λ e. absurd (omega (arith, e))
  over-others (suc (suc (suc (suc (suc (suc (suc zero))))))) lt ne = λ e. absurd (omega (arith, e))
  over-others (suc (suc (suc (suc (suc (suc (suc (suc k)))))))) lt ne = absurd (omega (arith, lt))

  over-HasSections :
      IsU32 p.text
      → IsU32 p.tables
      → IsU32 p.symtab
      → HasSections p (over 468 (elf_headers page_size n p) f)
  over-HasSections text tables symtab = record {
    others = over-others;
    data_addr = refl;
    text_addr = word p.text text;
    rela_type = refl;
    rela_offset = word p.tables tables;
    rela_size = refl;
    rela_link = refl;
    rela_info = refl;
    rela_entsize = refl;
    symtab_offset = word p.symtab symtab;
  }

abbrev shifted : (ℕ → ℕ) → ℕ → ℕ → ℕ
shifted f b j = f (b + j)

rela_at-shifted : (f : ℕ → ℕ) (b x : ℕ) → rela_at f (b + x) ≡ rela_at (shifted f b) x
rela_at-shifted f b x = simp add_assoc

sym_at-shifted : (f : ℕ → ℕ) (b x : ℕ) → sym_at f (b + x) ≡ sym_at (shifted f b) x
sym_at-shifted f b x = simp add_assoc

-- The two relocations, and the symbol that they are against.
pub record HasRelocations (n : ℕ) (f : ℕ → ℕ) : Type 0 where
  pub offset : (i : ℕ) → i < 2 → (rela_at f (468 + n + 12 * i)).r_offset ≡ 4 * i
  pub info : (i : ℕ) → i < 2 → (rela_at f (468 + n + 12 * i)).r_info ≡ 26
  pub addend : (i : ℕ) → i < 2 → (rela_at f (468 + n + 12 * i)).r_addend ≡ 0
  pub value : (sym_at f (492 + n + 0)).st_value ≡ 0
  pub shndx : (sym_at f (492 + n + 0)).st_shndx ≡ 1

over-relocation :
    (f : ℕ → ℕ) (i : ℕ)
    → i < 2
    → rela_at (over 24 relocations f) (12 * i)
      ≡ record { r_offset = 4 * i; r_info = 26; r_addend = 0 }
over-relocation f zero lt = refl
over-relocation f (suc zero) lt = refl
over-relocation f (suc (suc i)) lt = absurd (omega arith)

pub elf_file-HasRelocations :
    (page_size : ℕ) (insns : List ℕ) (f : ℕ → ℕ)
    → ((j : ℕ) → j < length (elf_file page_size insns) → f j ≡ at (elf_file page_size insns) j)
    → HasRelocations (length insns) f
elf_file-HasRelocations page_size insns f h = record {
  offset = λ i lt. ap (λ (r : Rela). r.r_offset) (relocation i lt);
  info = λ i lt. ap (λ (r : Rela). r.r_info) (relocation i lt);
  addend = λ i lt. ap (λ (r : Rela). r.r_addend) (relocation i lt);
  value = ap (λ (s : Sym). s.st_value) symbol;
  shndx = ap (λ (s : Sym). s.st_shndx) symbol;
}
  where
    n : ℕ
    n = length insns

    p : Places
    p = places page_size n

    tables : List ℕ
    tables = (insns ++ relocations) ++ symbols n

    below : (j : ℕ) → j < length tables → f (468 + j) ≡ at tables j
    below j lt =
        let headers = elf_headers page_size n p in
        let named = longer tables symbol_names lt in
        let all = longer (tables ++ symbol_names) section_names named in
        h (468 + j)
          (omega (arith, length-append headers ((tables ++ symbol_names) ++ section_names), all))
        ∙ at-from headers ((tables ++ symbol_names) ++ section_names) j
        ∙ at-append (tables ++ symbol_names) section_names j named
        ∙ at-append tables symbol_names j lt

    in_relocations : (j : ℕ) → j < 24 → f (468 + n + j) ≡ at relocations j
    in_relocations j lt =
        let inside : n + j < length (insns ++ relocations) =
          omega (arith, length-append insns relocations, lt) in
        ap f (omega arith)
        ∙ below (n + j) (longer (insns ++ relocations) (symbols n) inside)
        ∙ at-append (insns ++ relocations) (symbols n) (n + j) inside
        ∙ at-from insns relocations j

    in_symbols : (j : ℕ) → j < 16 → f (492 + n + j) ≡ at (symbols n) j
    in_symbols j lt =
        let size = length-append insns relocations in
        let inside : length (insns ++ relocations) + j < length tables =
          omega (arith, length-append (insns ++ relocations) (symbols n), lt) in
        ap f (omega (arith, size))
        ∙ below (length (insns ++ relocations) + j) inside
        ∙ at-from (insns ++ relocations) (symbols n) j

    relocation :
        (i : ℕ)
        → i < 2
        → rela_at f (468 + n + 12 * i) ≡ record { r_offset = 4 * i; r_info = 26; r_addend = 0 }
    relocation i lt =
        rela_at-shifted f (468 + n) (12 * i)
        ∙ ap (λ (g : ℕ → ℕ). rela_at g (12 * i))
            (sym (over-id 24 relocations (shifted f (468 + n)) in_relocations))
        ∙ over-relocation (shifted f (468 + n)) i lt

    symbol : sym_at f (492 + n + 0) ≡ record {
      st_name = 0;
      st_value = 0;
      st_size = 3072;
      st_info = 1;
      st_other = 0;
      st_shndx = 1;
    }
    symbol =
        sym_at-shifted f (492 + n) 0
        ∙ ap (λ (g : ℕ → ℕ). sym_at g 0)
            (sym (over-id 16 (symbols n) (shifted f (492 + n)) in_symbols))

pub elf_file-HasSections :
    (page_size : ℕ) (insns : List ℕ) (f : ℕ → ℕ)
    → IsPowTwo page_size
    → length insns + 1000 ≤ 2 ^ 31
    → ((j : ℕ) → j < length (elf_file page_size insns) → f j ≡ at (elf_file page_size insns) j)
    → HasSections (places page_size (length insns)) f
elf_file-HasSections page_size insns f pow room h =
    let n = length insns in
    let p = places page_size n in
    let headers = elf_headers page_size n p in
    let rest = (((insns ++ relocations) ++ symbols n) ++ symbol_names) ++ section_names in
    let same =
      over-id 468 headers f (λ j lt.
        h j (omega (arith, lt, length-append headers rest)) ∙ at-append headers rest j lt) in
    subst (HasSections p) same (
      over-HasSections page_size n p f (round_up_fits pow) (omega (arith, room))
        (omega (arith, room)))
