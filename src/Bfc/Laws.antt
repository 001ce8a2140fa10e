-- ===== src/Bfc/Laws.antt =====
-- What the assembler writes, against the specification's encodings.
use rv32isam.Base.{ℕ, ◌+◌, ◌*◌, ◌/◌, ◌%◌, ◌^◌, ◌<◌, ◌≡◌, refl, sym, arith, List, ◌++◌}
use rv32isam.Base.Bytes.{load_u32}
use rv32isam.Isa as Isa
use rv32isam.Isa.{encode, i_word, s_word, u_word, r_word, b_word}
use rv32isam.Base.Lists.{length}
use rv32isam.Out.{Out, out_resv_index}
use rv32isam.Out.Laws.{
  IsValid, HasRoom, word_bytes, Appends, out_write_u32le-Appends, out_write_u32le-store,
  Appends-trans,
}
use rv32isam.Bfc.{
  emit, asm_addi, asm_lbu, asm_sb, asm_lui, asm_or, asm_ecall, addi_fields, lbu_fields, sb_fields,
  lui_fields, or_fields,
}

-- `ecall`, of the specification.
abbrev pub ecall_word : ℕ
ecall_word = 0x73

lui_word :
    (raw dest imm : ℕ)
    → dest < 32
    → lui_fields dest imm raw % 2 ^ 32 ≡ u_word 0x37 dest (imm % 2 ^ 20)
lui_word raw dest imm h = omega arith

addi_word :
    (raw dest a imm : ℕ)
    → dest < 32
    → a < 32
    → addi_fields dest a imm raw % 2 ^ 32 ≡ i_word 0x13 dest 0 a (imm % 2 ^ 12)
addi_word raw dest a imm h k = omega arith

lbu_word :
    (raw base dest offset : ℕ)
    → base < 32
    → dest < 32
    → lbu_fields base dest offset raw % 2 ^ 32 ≡ i_word 0x03 dest 4 base (offset % 2 ^ 12)
lbu_word raw base dest offset h k = omega arith

-- The displacement that `asm_sb` encodes: it puts the low half of the offset into the upper field
-- and the other way round.
abbrev pub swapped : ℕ → ℕ
swapped offset = offset % 2 ^ 5 * 2 ^ 5 + offset / 2 ^ 5 % 2 ^ 5

sb_word :
    (raw base src offset : ℕ)
    → base < 32
    → src < 32
    → sb_fields base src offset raw % 2 ^ 32 ≡ s_word 0x23 0 base src (swapped offset)
sb_word raw base src offset h k = omega arith

or_word :
    (raw dest a b : ℕ)
    → dest < 32
    → a < 32
    → b < 32
    → or_fields dest a b raw % 2 ^ 32 ≡ r_word 0x33 dest 6 a b 0
or_word raw dest a b h k l = omega arith

pub word_bytes-mod : (v w : ℕ) → v % 2 ^ 32 ≡ w → word_bytes v ≡ word_bytes w
word_bytes-mod v w h = rw (d0, d1, d2, d3) refl
  where
    d0 : v % 2 ^ 8 ≡ w % 2 ^ 8
    d0 = omega arith

    d1 : v / 2 ^ 8 % 2 ^ 8 ≡ w / 2 ^ 8 % 2 ^ 8
    d1 = omega arith

    d2 : v / 2 ^ 16 % 2 ^ 8 ≡ w / 2 ^ 16 % 2 ^ 8
    d2 = omega arith

    d3 : v / 2 ^ 24 % 2 ^ 8 ≡ w / 2 ^ 24 % 2 ^ 8
    d3 = omega arith

module _ (z : ℕ) where
  -- Editing the fields of a reserved word appends the word that they make up.
  pub emit-Appends :
      (fields : ℕ → ℕ) (w : ℕ) (out : Out)
      → IsValid out
      → HasRoom out 4
      → ((raw : ℕ) → fields raw % 2 ^ 32 ≡ w)
      → Appends z out (word_bytes w) (emit z fields out)
  emit-Appends fields w out v room h =
      let raw = load_u32 (out_resv_index z out 4).bytes out.len in
      rw (sym (word_bytes-mod (fields raw) w (h raw)))
        (out_write_u32le-store z out (fields raw) v room)

  -- On a valid array with room for 4 bytes, and for registers below 32, `asm_addi` appends the encoding
  -- of ADDI with the low twelve bits of the immediate.
  pub asm_addi-Appends :
      (out : Out) (dest a imm : ℕ)
      → IsValid out
      → HasRoom out 4
      → dest < 32
      → a < 32
      → Appends z out
          (word_bytes (encode (Isa.op_imm Isa.addi dest a (imm % 2 ^ 12))))
          (asm_addi z out dest a imm)
  unfolding asm_addi
  asm_addi-Appends out dest a imm v room h k =
      emit-Appends (addi_fields dest a imm) _ out v room (λ raw. addi_word raw dest a imm h k)

  pub asm_lui-Appends :
      (out : Out) (dest imm : ℕ)
      → IsValid out
      → HasRoom out 4
      → dest < 32
      → Appends z out (word_bytes (encode (Isa.lui dest (imm % 2 ^ 20)))) (asm_lui z out dest imm)
  unfolding asm_lui
  asm_lui-Appends out dest imm v room h =
      emit-Appends (lui_fields dest imm) _ out v room (λ raw. lui_word raw dest imm h)

  pub asm_lbu-Appends :
      (out : Out) (base dest offset : ℕ)
      → IsValid out
      → HasRoom out 4
      → base < 32
      → dest < 32
      → Appends z out
          (word_bytes (encode (Isa.lbu dest base (offset % 2 ^ 12))))
          (asm_lbu z out base dest offset)
  unfolding asm_lbu
  asm_lbu-Appends out base dest offset v room h k =
      emit-Appends (lbu_fields base dest offset) _ out v room
        (λ raw. lbu_word raw base dest offset h k)

  -- On a valid array with room for 4 bytes, and for registers below 32, `asm_sb` appends a byte store
  -- whose displacement is the offset with its two low halves of five bits exchanged.
  pub asm_sb-Appends :
      (out : Out) (base src offset : ℕ)
      → IsValid out
      → HasRoom out 4
      → base < 32
      → src < 32
      → Appends z out
          (word_bytes (encode (Isa.sb src base (swapped offset))))
          (asm_sb z out base src offset)
  unfolding asm_sb
  asm_sb-Appends out base src offset v room h k =
      emit-Appends (sb_fields base src offset) _ out v room (λ raw. sb_word raw base src offset h k)

  pub asm_or-Appends :
      (out : Out) (dest a b : ℕ)
      → IsValid out
      → HasRoom out 4
      → dest < 32
      → a < 32
      → b < 32
      → Appends z out (word_bytes (encode (Isa.op Isa.or dest a b))) (asm_or z out dest a b)
  unfolding asm_or
  asm_or-Appends out dest a b v room h k l =
      emit-Appends (or_fields dest a b) _ out v room (λ raw. or_word raw dest a b h k l)

  pub asm_ecall-Appends :
      (out : Out)
      → IsValid out
      → HasRoom out 4
      → Appends z out (word_bytes ecall_word) (asm_ecall z out)
  unfolding asm_ecall
  asm_ecall-Appends out v room = out_write_u32le-Appends z out ecall_word v room

  -- One more instruction after others.
  pub and_then :
      {out out' out'' : Out} {l m : List ℕ}
      → HasRoom out (length l + 4)
      → Appends z out l out'
      → (IsValid out' → HasRoom out' 4 → Appends z out' m out'')
      → Appends z out (l ++ m) out''
  and_then room p next = Appends-trans z p (next p.valid (omega (arith, p.new_len)))
