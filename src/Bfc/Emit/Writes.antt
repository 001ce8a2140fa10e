-- ===== src/Bfc/Emit/Writes.antt =====
-- `emit_elf` writes that file.
use rv32isam.Base.{
  ℕ, zero, suc, ◌+◌, ◌%◌, ◌/◌, ◌^◌, ◌≤◌, ◌<◌, ◌≡◌, refl, ◌∙◌, ap, arith, List, ◌++◌, some, ltb,
  false,
}
use mathlib.Core.Path.{subst}
use native.Mathlib.Decide.{dec_lt}
use rv32isam.Base.Lists.{length}
use rv32isam.Base.Word.{add32, sub32}
use rv32isam.Elf.{ehdr_bytes, phdr_bytes, shdr_bytes}
use rv32isam.Out.{Out, empty, out_resv_index, out_write, out_write_index}
use rv32isam.Out.Laws.{IsValid, HasRoom, slice, contents, out_resv_index-IsValid}
use rv32isam.Out.Reserved.{
  HasPower, first-HasPower, out_resv_index-HasPower, Split, reserved-Split, store-Split,
  append-Split, contents-Split,
}
use rv32isam.Base.Masks.{two_pow_suc, two_pow_le}
use rv32isam.BitMath.{align_upwards}
use rv32isam.BitMath.Align.{round_up, align_upwards-eq-round_up, round_up-lt}
use rv32isam.Loader.Layout.Offset.{IsPowTwo}
use rv32isam.Bfc.Headers.{
  popcount, insns_begin_virt, Plan, null_section, data_section, text_section, rela_section,
  symtab_section, strings_section, riscv_attr_section, data_segment, text_segment,
  riscv_attr_segment, elf_header, e_ident,
}
use rv32isam.Bfc.Emit.{strtab_add, before_names, finish_elf, emit_elf}
use rv32isam.Bfc.Emit.File.{
  Places, places, elf_headers, relocations, symbols, symbol_names, section_names, elf_file,
}

-- What the code computes with, for `n` bytes of instructions.
abbrev plan : ℕ → ℕ → Plan
plan page_size n = record {
  page_size = page_size;
  phoff = 52;
  shoff = 148;
  insns_begin_elf = 468;
  insns_len = n;
}

-- No power of two lies from `m` to 67 more. An array of `m` bytes then does not grow for the table of
-- section names, which is 68 bytes long.
pub record NotCrossed (m : ℕ) : Type 0 where
  pub exponent : ℕ
  pub below : 2 ^ exponent < m
  pub above : m + 68 ≤ 2 ^ (exponent + 1)

-- So that an array of `m` bytes, with a power of two as its capacity, does not grow for it.
not_grown :
    (z : ℕ) (out : Out) (l : List ℕ) (m : ℕ)
    → NotCrossed m
    → HasPower out
    → IsValid out
    → out.len ≡ m
    → length l ≡ 68
    → HasRoom out (length l)
    → ltb out.cap (out_write z out l).len ≡ false
unfolding out_write
not_grown z out l m settled power valid e size room =
    let r = out_resv_index-IsValid z out (length l) valid room in
    let larger : settled.exponent < power.exponent = elim (dec_lt settled.exponent power.exponent) [
      | yes lt ↦ lt
      | no ge ↦
          let back = two_pow_le power.exponent settled.exponent (omega (arith, ge)) in
          absurd (omega (arith, back, settled.below, power.value, valid.within, e))
    ] in
    let reaches = two_pow_le (settled.exponent + 1) power.exponent (omega (arith, larger)) in
    ground (arith, r.1, reaches, settled.above, power.value, e, size)

module _ (z : ℕ) (memory : ℕ → ℕ) (page_size n : ℕ) where
  abbrev raw_places : Out → Places
  raw_places elf = record {
    text = insns_begin_virt page_size;
    data_at = add32 468 n;
    tables = elf.len;
    attributes_len = sub32 elf.len elf.len;
    symtab = add32 elf.len 24;
    strtab = add32 (add32 elf.len 24) 32;
    shstrtab = add32 (add32 (add32 elf.len 24) 32) 19;
  }

  -- What `finish_elf` makes of a file with reserved headers.
  record Finished (elf : Out) (body : List ℕ) : Type 0 where
    out : Out
    finishes : finish_elf z memory (plan page_size n) elf ≡ some out
    header : ℕ → ℕ
    split :
        Split 468 out header
          ((((body ++ relocations) ++ symbols n) ++ symbol_names) ++ section_names)
    headers : slice header 0 468 ≡ elf_headers page_size n (raw_places elf)

  finish_elf-Finished :
      {elf : Out} {header : ℕ → ℕ} {body : List ℕ}
      → Split 468 elf header body
      → elf.len + 200 ≤ 2 ^ 31
      → NotCrossed (75 + elf.len)
      → Finished elf body
  unfolding strtab_add out_write_index out_write out_resv_index
  finish_elf-Finished {elf} {header} {body} s0 room settled =
      let p = plan page_size n in
      let tables = elf.len in
      let len = sub32 tables tables in
      let null = store-Split 468 148 (shdr_bytes (null_section 0)) s0 (omega arith) in
      let text_section = store-Split 468 228 (shdr_bytes (text_section p 1)) null (omega arith) in
      let text = store-Split 468 84 (phdr_bytes (text_segment p)) text_section (omega arith) in
      let data'_section = store-Split 468 188 (shdr_bytes (data_section p 7)) text (omega arith) in
      let data' = store-Split 468 52 (phdr_bytes (data_segment p)) data'_section (omega arith) in
      let attr_section =
        store-Split 468 428 (shdr_bytes (riscv_attr_section tables len 13)) data' (omega arith) in
      let attr =
        store-Split 468 116 (phdr_bytes (riscv_attr_segment tables len)) attr_section
          (omega arith) in
      let rela_end = append-Split 468 z relocations attr (omega arith) in
      let rela = store-Split 468 268 (shdr_bytes (rela_section tables 31)) rela_end (omega arith) in
      let symtab_end = append-Split 468 z (symbols n) rela (omega arith) in
      let symtab =
        store-Split 468 308 (shdr_bytes (symtab_section (add32 tables 24) 32 42)) symtab_end
          (omega arith) in
      let strtab_end = append-Split 468 z symbol_names symtab (omega arith) in
      let strtab =
        store-Split 468 348 (shdr_bytes (strings_section (add32 (add32 tables 24) 32) 19 50))
          strtab_end (omega arith) in
      let before : Split 468 (before_names z memory p elf).elf _ _ = strtab in
      let stays : ltb (before_names z memory p elf).elf.cap
            (out_write z (before_names z memory p elf).elf section_names).len
          ≡ false =
        not_grown z (before_names z memory p elf).elf section_names (75 + elf.len) settled
          before.capacity before.valid (omega (arith, before.size)) (omega arith)
          (omega (arith, before.size, room)) in
      let shstrtab_end = append-Split 468 z section_names strtab (omega arith) in
      let shstrtab =
        store-Split 468 388
          (shdr_bytes (strings_section (add32 (add32 (add32 tables 24) 32) 19) 68 58)) shstrtab_end
          (omega arith) in
      record {
        out = _;
        finishes = rw stays refl;
        header = _;
        split = store-Split 468 0 (ehdr_bytes e_ident (elf_header p)) shstrtab (omega arith);
        headers = refl;
      }

  raw_places-places :
      (elf : Out)
      → IsPowTwo page_size
      → n + 1000 ≤ 2 ^ 31
      → elf.len ≡ 468 + n
      → raw_places elf ≡ places page_size n
  unfolding align_upwards
  raw_places-places elf pow room e =
      let text : insns_begin_virt page_size ≡ round_up (0x10000 + 3072) page_size = rw pow.value (
        align_upwards-eq-round_up 68608 pow.exponent pow.small
        ∙ round_up-lt 68608 pow.exponent 32
            (omega (arith, two_pow_le pow.exponent 31 (omega (arith, pow.small))))) in
      let data_at : add32 468 n ≡ 468 + n = omega arith in
      let len : sub32 elf.len elf.len ≡ 0 = omega (arith, e) in
      let symtab : add32 elf.len 24 ≡ 492 + n = omega (arith, e) in
      let strtab : add32 (492 + n) 32 ≡ 524 + n = omega arith in
      let shstrtab : add32 (524 + n) 19 ≡ 543 + n = omega arith in
      rw (text, data_at, len, symtab, strtab, shstrtab, e) refl

popcount-two_pow : (w k : ℕ) → k < w → popcount w (2 ^ k) ≡ 1
popcount-two_pow zero k h = absurd (omega arith)
popcount-two_pow (suc w) zero h = ap (λ (t : ℕ). 1 + t) (popcount-zero w)
  where
    popcount-zero : (w : ℕ) → popcount w 0 ≡ 0
    popcount-zero zero = refl
    popcount-zero (suc w) = omega (arith, popcount-zero w)
popcount-two_pow (suc w) (suc k) h =
    rw (even, half) (omega (arith, popcount-two_pow w k (omega arith)))
  where
    even : 2 ^ suc k % 2 ≡ 0
    even = omega (arith, two_pow_suc k)

    half : 2 ^ suc k / 2 ≡ 2 ^ k
    half = omega (arith, two_pow_suc k)

module _ (z : ℕ) (memory : ℕ → ℕ) where
  -- The array with the headers reserved and the instructions written.
  abbrev begun : List ℕ → Out
  begun insns =
      out_write z (out_resv_index z (out_resv_index z (out_resv_index z (empty memory) 52) 96) 320)
        insns

  begun-Split :
      (insns : List ℕ) → length insns + 1000 ≤ 2 ^ 31 → Split 468 (begun insns) memory insns
  unfolding out_resv_index
  begun-Split insns room =
      let v1 =
        (out_resv_index-IsValid z (empty memory) 52
          (record { within = omega arith; addressable = omega arith }) (omega arith)).0 in
      let v2 =
        (out_resv_index-IsValid z (out_resv_index z (empty memory) 52) 96 v1 (omega arith)).0 in
      let p1 = first-HasPower z (empty memory) 52 (omega arith) (omega arith) in
      let p2 =
        out_resv_index-HasPower z (out_resv_index z (empty memory) 52) 96 v1 (omega arith) p1 in
      let power =
        out_resv_index-HasPower z (out_resv_index z (out_resv_index z (empty memory) 52) 96) 320 v2
          (omega arith) p2 in
      let v3 =
        (out_resv_index-IsValid z (out_resv_index z (out_resv_index z (empty memory) 52) 96) 320 v2
          (omega arith)).0 in
      append-Split 468 z insns (reserved-Split 468 v3 power refl) (omega arith)

  -- For a page size that is a power of two and up to nearly 2 ^ 31 bytes of instructions, where the
  -- array does not grow for the section names, `emit_elf` makes a file: the headers of the ELF file, its three segments and its eight sections, in
  -- this order, the instructions, the two relocations, the two symbols, and the two tables of
  -- strings, with each part at the offset that its header tells.
  pub emit_elf-Writes :
      (page_size : ℕ) (insns : List ℕ)
      → IsPowTwo page_size
      → length insns + 1000 ≤ 2 ^ 31
      → NotCrossed (543 + length insns)
      → (elf : Out) × (emit_elf z memory page_size insns ≡ some elf)
        × IsValid elf
        × (contents elf ≡ elf_file page_size insns)
  unfolding emit_elf out_write_index out_resv_index
  emit_elf-Writes page_size insns pow room settled =
      let split = begun-Split insns room in
      let size : (begun insns).len ≡ 468 + length insns = split.size in
      let f =
        finish_elf-Finished z memory page_size (length insns) split (omega (arith, size))
          (subst NotCrossed (omega (arith, size)) settled) in
      let one : popcount 64 page_size ≡ 1 =
        rw pow.value (popcount-two_pow 64 pow.exponent (omega (arith, pow.small))) in
      (
        f.out,
        rw one f.finishes,
        f.split.valid,
        contents-Split 468 f.split
            ∙ ap
                (λ (t : List ℕ).
                  t
                  ++ ((((insns ++ relocations) ++ symbols (length insns)) ++ symbol_names)
                      ++ section_names))
                (f.headers
                  ∙ ap (elf_headers page_size (length insns)) (
                      raw_places-places z memory page_size (length insns) (begun insns) pow room
                        size)),
      )
