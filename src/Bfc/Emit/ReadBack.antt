-- ===== src/Bfc/Emit/ReadBack.antt =====
-- The file of `emit_elf` as `loader_read_elf` reads it.
use rv32isam.Base.{
  ℕ, ◌+◌, ◌%◌, ◌/◌, ◌*◌, ◌^◌, ◌≤◌, ◌<◌, ◌≡◌, refl, sym, ◌∙◌, ap, arith, List, [], ◌∷◌, ◌++◌, some,
  true, Bool-cases, inl, inr, ltb, if◌then◌else◌,
}
use mathlib.Core.Path.{fun_ext, subst}
use rv32isam.Base.{◌-◌}
use rv32isam.Base.Masks.{two_pow_le, two_pow_lt}
use rv32isam.BitMath.Align.{round_up}
use native.Mathlib.Nat.{div-mul-le_self}
use rv32isam.Base.Lists.{length, length-append}
use rv32isam.Out.{Out}
use rv32isam.Base.Word.{IsU32}
use rv32isam.Elf.{Ehdr, Phdr, ehdr_at}
use rv32isam.Out.Laws.{contents}
use rv32isam.Out.At.{at, at-append, at-from, at-slice, length-slice}
use rv32isam.Loader.ReadElf.{expected_ident, begins_with, loadable_segments}
use rv32isam.Bfc.Emit.{emit_elf}
use rv32isam.Bfc.Emit.Writes.{NotCrossed, emit_elf-Writes}
use rv32isam.Loader.Layout.Offset.{IsPowTwo}
use rv32isam.Bfc.Emit.File.{
  Places, places, elf_headers, relocations, symbols, symbol_names, section_names, elf_file,
}

-- A memory whose first bytes are those of a list.
abbrev pub over : ℕ → List ℕ → (ℕ → ℕ) → ℕ → ℕ
over n l f j = if ltb j n then at l j else f j

pub word :
    (w : ℕ)
    → IsU32 w
    → w % 2 ^ 8
        + w / 2 ^ 8 % 2 ^ 8 * 2 ^ 8
        + w / 2 ^ 16 % 2 ^ 8 * 2 ^ 16
        + w / 2 ^ 24 % 2 ^ 8 * 2 ^ 24
      ≡ w
word w h = omega arith

abbrev pub data_phdr : ℕ → Places → Phdr
data_phdr page_size at = record {
  p_type = 1;
  p_offset = at.data_at;
  p_vaddr = 0x10000;
  p_paddr = 0x10000;
  p_filesz = 0;
  p_memsz = 3072;
  p_flags = 6;
  p_align = page_size;
}

abbrev pub text_phdr : ℕ → ℕ → Places → Phdr
text_phdr page_size n at = record {
  p_type = 1;
  p_offset = 468;
  p_vaddr = at.text;
  p_paddr = at.text;
  p_filesz = n;
  p_memsz = n;
  p_flags = 5;
  p_align = page_size;
}

abbrev pub header_of : Places → Ehdr
header_of p = record {
  e_type = 2;
  e_machine = 243;
  e_version = 1;
  e_entry = p.text;
  e_phoff = 52;
  e_shoff = 148;
  e_flags = 0;
  e_ehsize = 52;
  e_phentsize = 32;
  e_phnum = 3;
  e_shentsize = 40;
  e_shnum = 8;
  e_shstrndx = 6;
}

module _ (page_size n : ℕ) (p : Places) (f : ℕ → ℕ) (text_fits : IsU32 p.text) where
  ehdr-over : ehdr_at (over 468 (elf_headers page_size n p) f) 0 ≡ header_of p
  ehdr-over = rw (word p.text text_fits) refl

  ident-over : begins_with (over 468 (elf_headers page_size n p) f) 0 expected_ident ≡ true
  ident-over = refl

  segments-over :
      IsU32 page_size
      → IsU32 n
      → IsU32 p.data_at
      → loadable_segments (over 468 (elf_headers page_size n p) f) 52 3 0
        ≡ some (data_phdr page_size p ∷ text_phdr page_size n p ∷ [], true)
  unfolding loadable_segments
  segments-over hp hn hd =
      rw (word page_size hp, word n hn, word p.text text_fits, word p.data_at hd) refl

pub over-id : (n : ℕ) (l : List ℕ) (f : ℕ → ℕ) → ((j : ℕ) → j < n → f j ≡ at l j) → over n l f ≡ f
over-id n l f h = fun_ext (λ j. same j)
  where
    same : (j : ℕ) → over n l f j ≡ f j
    same j = elim (Bool-cases (ltb j n)) [
      | inl e ↦ rw e (sym (h j (ground (arith, e))))
      | inr e ↦ rw e refl
    ]

-- What `loader_read_elf` finds in a file: the segments of the data and of the instructions, the latter
-- at the entry point.
pub record IsReadAs (page_size : ℕ) (insns : List ℕ) (f : ℕ → ℕ) : Type 0 where
  pub ident : begins_with f 0 expected_ident ≡ true
  pub header : ehdr_at f 0 ≡ header_of (places page_size (length insns))
  pub segments :
      loadable_segments f 52 3 0
      ≡ some (
        data_phdr page_size (places page_size (length insns))
            ∷ text_phdr page_size (length insns) (places page_size (length insns))
            ∷ [],
        true,
      )
  pub text : (j : ℕ) → j < length insns → f (468 + j) ≡ at insns j

pub longer : (l m : List ℕ) {j : ℕ} → j < length l → j < length (l ++ m)
longer l m h = omega (arith, length-append l m, h)

pub round_up_fits : {page_size : ℕ} → IsPowTwo page_size → IsU32 (round_up 68608 page_size)
round_up_fits {page_size} pow =
    let small : page_size ≤ 2 ^ 31 =
      rw pow.value (two_pow_le pow.exponent 31 (omega (arith, pow.small))) in
    omega (arith, div-mul-le_self (68608 + (page_size - 1)) page_size, small)

pub elf_file-IsReadAs :
    (page_size : ℕ) (insns : List ℕ) (f : ℕ → ℕ)
    → IsPowTwo page_size
    → length insns + 1000 ≤ 2 ^ 31
    → ((j : ℕ) → j < length (elf_file page_size insns) → f j ≡ at (elf_file page_size insns) j)
    → IsReadAs page_size insns f
elf_file-IsReadAs page_size insns f pow room h =
    let n = length insns in
    let p = places page_size n in
    let headers = elf_headers page_size n p in
    let rest = (((insns ++ relocations) ++ symbols n) ++ symbol_names) ++ section_names in
    let size = length-append headers rest in
    let same =
      over-id 468 headers f (λ j lt. h j (omega (arith, lt, size)) ∙ at-append headers rest j lt) in
    let fits : IsU32 page_size = rw pow.value (two_pow_lt pow.exponent 32 pow.small) in
    let text_fits = round_up_fits pow in
    record {
      ident =
          subst (λ (g : ℕ → ℕ). begins_with g 0 expected_ident ≡ true) same
            (ident-over page_size n p f text_fits);
      header =
          subst (λ (g : ℕ → ℕ). ehdr_at g 0 ≡ header_of p) same
            (ehdr-over page_size n p f text_fits);
      segments =
          subst
            (λ (g : ℕ → ℕ).
              loadable_segments g 52 3 0
              ≡ some (data_phdr page_size p ∷ text_phdr page_size n p ∷ [], true))
            same
            (segments-over page_size n p f text_fits fits (omega (arith, room))
              (omega (arith, room)));
      text = λ j lt.
          let lt1 = longer insns relocations lt in
          let lt2 = longer (insns ++ relocations) (symbols n) lt1 in
          let lt3 = longer ((insns ++ relocations) ++ symbols n) symbol_names lt2 in
          let lt4 =
            longer (((insns ++ relocations) ++ symbols n) ++ symbol_names) section_names lt3 in
          h (468 + j) (omega (arith, size, lt4))
          ∙ at-from headers rest j
          ∙ at-append (((insns ++ relocations) ++ symbols n) ++ symbol_names) section_names j lt3
          ∙ at-append ((insns ++ relocations) ++ symbols n) symbol_names j lt2
          ∙ at-append (insns ++ relocations) (symbols n) j lt1
          ∙ at-append insns relocations j lt;
    }

-- A memory with the bytes of an array has those of the list that it holds.
pub contents-at :
    (out : Out) {l : List ℕ} {f : ℕ → ℕ}
    → contents out ≡ l
    → ((j : ℕ) → j < out.len → f j ≡ out.bytes j)
    → (j : ℕ) → j < length l
    → f j ≡ at l j
contents-at out holds same j lt =
    let inside : j < out.len =
      omega (arith, lt, ap length holds, length-slice out.bytes 0 out.len) in
    same j inside
    ∙ sym (at-slice out.bytes 0 out.len j inside ∙ ap out.bytes (omega arith))
    ∙ ap (λ (l : List ℕ). at l j) holds

-- For a page size that is a power of two and up to nearly 2 ^ 31 bytes of instructions, where the
-- array does not grow for the section names, `emit_elf`
-- makes a file such that wherever its bytes lie in memory, `loader_read_elf` finds there the
-- identification and the header that it asks for, the segments of the data and of the
-- instructions as the ones to load, one of which can be executed, and the instructions where
-- their segment says.
pub emit_elf-IsReadAs :
    (z : ℕ) (memory : ℕ → ℕ) (page_size : ℕ) (insns : List ℕ)
    → IsPowTwo page_size
    → length insns + 1000 ≤ 2 ^ 31
    → NotCrossed (543 + length insns)
    → (elf : Out) × (emit_elf z memory page_size insns ≡ some elf)
      × ((f : ℕ → ℕ) → ((j : ℕ) → j < elf.len → f j ≡ elf.bytes j) → IsReadAs page_size insns f)
emit_elf-IsReadAs z memory page_size insns pow room settled =
    let (elf, emitted, valid, holds) = emit_elf-Writes z memory page_size insns pow room settled in
    (
      elf,
      emitted,
      λ f same.
          elf_file-IsReadAs page_size insns f pow room (λ j lt. contents-at elf holds same j lt),
    )
