-- ===== src/Bfc/Compile/LoopWords.antt =====
-- The two instructions that the compiler puts around a loop.
use rv32isam.Base.{ℕ, ◌+◌, ◌-◌, ◌*◌, ◌/◌, ◌%◌, ◌^◌, ◌<◌, ◌≡◌, ◌∙◌, arith, ltb, if◌then◌else◌}
use rv32isam.Isa
use rv32isam.Isa.{encode, b_word}
use rv32isam.Rv.Insn.{put, b_format}
use rv32isam.Bfc.{sar16, beq_fields, target_fields, set_jal}

beq_word :
    (raw : ℕ)
    → beq_fields 5 0 raw % 2 ^ 32
      ≡ b_word 0x63 0 5 0 0 + raw / 2 ^ 7 % 2 ^ 5 * 2 ^ 7 + raw / 2 ^ 25 % 2 ^ 7 * 2 ^ 25
beq_word raw = omega arith

sar1 : (d : ℕ) → d < 2 ^ 16 → sar16 d 1 % 16 ≡ d / 2 % 16
sar1 d h = ground (arith, h)

sar5 : (d : ℕ) → d < 2 ^ 16 → sar16 d 5 % 64 ≡ d / 32 % 64
sar5 d h = ground (arith, h)

sar11 : (d : ℕ) → d < 2 ^ 16 → sar16 d 11 % 2 ≡ d / 2 ^ 11 % 2
sar11 d h = ground (arith, h)

sar12 : (d : ℕ) → d < 2 ^ 16 → sar16 d 12 % 2 ≡ d / 2 ^ 12 % 2
sar12 d h = ground (arith, h)

-- The bits of a word that the four assignments of `patch_beq` make up, one after another.
record Low (w a : ℕ) : Type 0 where
  opcode : w % 2 ^ 7 ≡ 0x63
  registers : w / 2 ^ 12 % 2 ^ 13 ≡ 40
  imm_4_1 : w / 2 ^ 8 % 16 ≡ a

put_4_1 :
    (w v a : ℕ)
    → w % 2 ^ 7 ≡ 0x63
    → w / 2 ^ 12 % 2 ^ 13 ≡ 40
    → v % 16 ≡ a
    → Low (put b_format.imm_4_1 v w) a
put_4_1 w v a p q r = record {
  opcode = omega (arith, p);
  registers = omega (arith, q);
  imm_4_1 = omega (arith, r);
}

put_10_5 :
    (w v a b : ℕ)
    → Low w a
    → v % 64 ≡ b
    → Low (put b_format.imm_10_5 v w) a × (put b_format.imm_10_5 v w / 2 ^ 25 % 64 ≡ b)
put_10_5 w v a b l r = (
  record {
    opcode = omega (arith, l.opcode);
    registers = omega (arith, l.registers);
    imm_4_1 = omega (arith, l.imm_4_1);
  },
  omega (arith, r),
)

put_11 :
    (w v a b c : ℕ)
    → Low w a
    → w / 2 ^ 25 % 64 ≡ b
    → v % 2 ≡ c
    → Low (put b_format.imm_11 v w) a
      × (put b_format.imm_11 v w / 2 ^ 25 % 64 ≡ b)
      × (put b_format.imm_11 v w / 2 ^ 7 % 2 ≡ c)
put_11 w v a b c l p r = (
  record {
    opcode = omega (arith, l.opcode);
    registers = omega (arith, l.registers);
    imm_4_1 = omega (arith, l.imm_4_1);
  },
  omega (arith, p),
  omega (arith, r),
)

put_12 :
    (w v a b c e : ℕ)
    → Low w a
    → w / 2 ^ 25 % 64 ≡ b
    → w / 2 ^ 7 % 2 ≡ c
    → v % 2 ≡ e
    → put b_format.imm_12 v w % 2 ^ 32
      ≡ 0x63 + c * 2 ^ 7 + a * 2 ^ 8 + 40 * 2 ^ 12 + b * 2 ^ 25 + e * 2 ^ 31
put_12 w v a b c e l p q r = omega (arith, l.opcode, l.registers, l.imm_4_1, p, q, r)

-- What the fields that `patch_beq` leaves make with those that it sets.
target_word :
    (d w : ℕ)
    → d < 2 ^ 16
    → d % 2 ≡ 0
    → w % 2 ^ 7 ≡ 0x63
    → w / 2 ^ 12 % 2 ^ 13 ≡ 40
    → target_fields d w % 2 ^ 32 ≡ b_word 0x63 0 5 0 (d % 2 ^ 13)
target_word d w h even low high =
    let l1 = put_4_1 w (sar16 d 1) (d / 2 % 16) low high (sar1 d h) in
    let (l2, b) = put_10_5 _ (sar16 d 5) (d / 2 % 16) (d / 32 % 64) l1 (sar5 d h) in
    let (l3, b', c) =
      put_11 _ (sar16 d 11) (d / 2 % 16) (d / 32 % 64) (d / 2 ^ 11 % 2) l2 b (sar11 d h) in
    put_12 _ (sar16 d 12) (d / 2 % 16) (d / 32 % 64) (d / 2 ^ 11 % 2) (d / 2 ^ 12 % 2) l3 b' c
      (sar12 d h)
    ∙ omega (arith, even)

-- The branch after patching: to `d` from it, where the 13 bits of its field hold that.
pub patched_branch :
    (raw d : ℕ)
    → d < 2 ^ 16
    → d % 2 ≡ 0
    → target_fields d (beq_fields 5 0 raw % 2 ^ 32) % 2 ^ 32
      ≡ encode (Isa.branch Isa.equal 5 0 (d % 2 ^ 13))
patched_branch raw d h even =
    target_word d (beq_fields 5 0 raw % 2 ^ 32) h even (omega (arith, beq_word raw))
      (omega (arith, beq_word raw))

-- The last word of a loop: `-d`, of the `i16`, in the upper 20 bits.
abbrev pub back_word : ℕ → ℕ
back_word d = 0x6f + (if ltb d (2 ^ 15) then 2 ^ 20 - d else 2 ^ 16 - d) % 2 ^ 20 * 2 ^ 12

pub set_jal-back_word : (d raw : ℕ) → d < 2 ^ 16 → set_jal d raw % 2 ^ 32 ≡ back_word d
set_jal-back_word d raw h = ground (arith, h)
