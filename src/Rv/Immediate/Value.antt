-- ===== src/Rv/Immediate/Value.antt =====
-- The value of each immediate, read from the fields of its format in insn.h.
use Prim.Native.Nat.{bit_and, bit_or}
use native.Mathlib.Nat.{mod-eq_of_lt}
use rv32isam.Base.{
  ℕ, zero, suc, ◌+◌, ◌-◌, ◌*◌, ◌/◌, ◌%◌, ◌^◌, ◌≤◌, ◌<◌, ◌≡◌, refl, arith, ◌∙◌, sym, ap,
}
use rv32isam.Base.Word.{IsU32, ℤ, pos, negsuc, signed, sub32, shl32}
use rv32isam.Base.Masks.{
  two_pow_add, two_pow_lt, bit_or_comm, bit_and_low, bit_and-mul_two_pow, bit_or_fields,
}
use rv32isam.BitMath.PowTwo.{clz-HasTop, HasTop-le}
use rv32isam.Rv.Insn.{bits, get, put, i_format, s_format, b_format, u_format, j_format}
use rv32isam.Rv.Immediate.{
  bit_cast_i32, make_positive, sext32_generic, sext32_imm12, read_upper_immediate, j_immediate_over,
  read_j_immediate, read_b_immediate, read_s_immediate, read_i_immediate, read_shift_immediate,
}

-- The bits of each immediate in the order of their significance.
abbrev pub s_immediate : ℕ → ℕ
s_immediate raw = get s_format.imm_11_5 raw * 2 ^ 5 + get s_format.imm_4_0 raw

abbrev pub b_immediate : ℕ → ℕ
b_immediate raw =
    get b_format.imm_12 raw * 2 ^ 12
    + get b_format.imm_11 raw * 2 ^ 11
    + get b_format.imm_10_5 raw * 2 ^ 5
    + get b_format.imm_4_1 raw * 2

abbrev pub j_immediate : ℕ → ℕ
j_immediate raw =
    get j_format.imm_20 raw * 2 ^ 20
    + get j_format.imm_19_12 raw * 2 ^ 12
    + get j_format.imm_11 raw * 2 ^ 11
    + get j_format.imm_10_1 raw * 2

-- A pattern of `w` bits continued to 32 bits by its highest bit.
abbrev pub extend : ℕ → ℕ → ℕ
extend w a = a + a / 2 ^ (w - 1) * (2 ^ 32 - 2 ^ w)

pub read_i-extend :
    (raw : ℕ) → IsU32 raw → read_i_immediate raw ≡ extend 12 (get i_format.imm_11_0 raw)
unfolding read_i_immediate
read_i-extend raw h = omega arith

pub read_s-extend : (raw : ℕ) → IsU32 raw → read_s_immediate raw ≡ extend 12 (s_immediate raw)
unfolding read_s_immediate
read_s-extend raw h = omega arith

pub read_b-extend : (raw : ℕ) → IsU32 raw → read_b_immediate raw ≡ extend 13 (b_immediate raw)
unfolding read_b_immediate
read_b-extend raw h = omega arith

-- The five fields below bit 20 cover what the word held there.
j_low :
    (imm a b c d : ℕ)
    → IsU32 imm
    → a < 2 ^ 8
    → b < 2
    → c < 2 ^ 4
    → d < 2 ^ 6
    → put
        (bits 5 6)
        d
        (put (bits 1 4) c (put (bits 11 1) b (put (bits 12 8) a (put (bits 0 1) 0 imm))))
      ≡ imm / 2 ^ 20 * 2 ^ 20 + a * 2 ^ 12 + b * 2 ^ 11 + d * 2 ^ 5 + c * 2
j_low imm a b c d h ha hb hc hd = omega arith

pub read_j-extend :
    (imm raw : ℕ) → IsU32 imm → IsU32 raw → j_immediate_over imm raw ≡ extend 21 (j_immediate raw)
unfolding j_immediate_over
read_j-extend imm raw k h =
    rw
      (j_low imm (get (bits 12 8) raw) (get (bits 20 1) raw) (get (bits 21 4) raw)
        (get (bits 25 6) raw) k (omega arith) (omega arith) (omega arith) (omega arith))
      (omega arith)

extend12-signed :
    (a : ℕ) → a < 2 ^ 12 → (extend 12 a < 2 ^ 32) × (signed 32 (extend 12 a) ≡ signed 12 a)
extend12-signed a h = ground arith

extend13-signed :
    (a : ℕ) → a < 2 ^ 13 → (extend 13 a < 2 ^ 32) × (signed 32 (extend 13 a) ≡ signed 13 a)
extend13-signed a h = ground arith

extend21-signed :
    (a : ℕ) → a < 2 ^ 21 → (extend 21 a < 2 ^ 32) × (signed 32 (extend 21 a) ≡ signed 21 a)
extend21-signed a h = ground arith

-- The I-immediate of a `u32` is a `u32` whose `int32_t` is the integer that the twelve bits stand for.
pub read_i_immediate-signed :
    (raw : ℕ)
    → IsU32 raw
    → IsU32 (read_i_immediate raw)
      × (signed 32 (read_i_immediate raw) ≡ signed 12 (get i_format.imm_11_0 raw))
read_i_immediate-signed raw h = rw (read_i-extend raw h) (extend12-signed _ (omega arith))

-- The S-immediate of a `u32` is a `u32` whose `int32_t` is the integer that `imm_11_5` and `imm_4_0`
-- together stand for.
pub read_s_immediate-signed :
    (raw : ℕ)
    → IsU32 raw
    → IsU32 (read_s_immediate raw)
      × (signed 32 (read_s_immediate raw) ≡ signed 12 (s_immediate raw))
read_s_immediate-signed raw h = rw (read_s-extend raw h) (extend12-signed _ (omega arith))

-- The B-immediate of a `u32` is an even `u32` whose `int32_t` is the integer that the four fields of a
-- branch stand for.
pub read_b_immediate-signed :
    (raw : ℕ)
    → IsU32 raw
    → IsU32 (read_b_immediate raw)
      × (signed 32 (read_b_immediate raw) ≡ signed 13 (b_immediate raw))
      × (read_b_immediate raw % 2 ≡ 0)
read_b_immediate-signed raw h =
    let (range, value) = extend13-signed (b_immediate raw) (omega arith) in
    rw (read_b-extend raw h) (range, value, omega arith)

-- The J-immediate of a `u32` is an even `u32` whose `int32_t` is the integer that the four fields of a
-- jump stand for, and what the result's union, a `u32`, held before does not matter.
pub read_j_immediate-signed :
    (raw : ℕ)
    → IsU32 raw
    → IsU32 (read_j_immediate raw)
      × (signed 32 (read_j_immediate raw) ≡ signed 21 (j_immediate raw))
      × (read_j_immediate raw % 2 ≡ 0)
      × ((imm : ℕ) → IsU32 imm → j_immediate_over imm raw ≡ read_j_immediate raw)
unfolding read_j_immediate
read_j_immediate-signed raw h =
    let (range, value) = extend21-signed (j_immediate raw) (omega arith) in
    let from_zero = read_j-extend 0 raw (omega arith) h in
    (
      rw from_zero range,
      rw from_zero value,
      rw from_zero (omega arith),
      λ imm k. read_j-extend imm raw k h ∙ sym from_zero,
    )

pub read_upper_immediate_lem :
    (raw : ℕ) → IsU32 raw → read_upper_immediate raw ≡ get u_format.imm_31_12 raw * 2 ^ 12
unfolding read_upper_immediate
read_upper_immediate_lem raw h =
    omega (arith, bit_and-mul_two_pow 12 raw 0xfffff, bit_and_low 20 (raw / 2 ^ 12))

pub read_shift_immediate_lem :
    (raw : ℕ) → IsU32 raw → read_shift_immediate raw ≡ get i_format.imm_11_0 raw % 32
unfolding read_shift_immediate
read_shift_immediate_lem raw h =
    omega (arith, bit_and_low 5 (read_i_immediate raw), read_i-extend raw h)

-- The mask that `sext32_imm12` joins to its argument.
sext12_mask :
    (s : ℕ)
    → s < 2
    → bit_and (2 ^ 32 - 1 - (s + 2 ^ 32 - 1) % 2 ^ 32) 0xfffff000 ≡ s * 0xfffff * 2 ^ 12
sext12_mask zero h = refl
sext12_mask (suc zero) h = refl
sext12_mask (suc (suc s)) h = absurd (omega arith)

or_above : (x m : ℕ) → x < 2 ^ 12 → bit_or x (m * 2 ^ 12) ≡ m * 2 ^ 12 + x
or_above x m h = bit_or_comm x (m * 2 ^ 12) ∙ bit_or_fields 12 m x h

pub sext32_imm12-extend : (x : ℕ) → x < 2 ^ 12 → sext32_imm12 x ≡ extend 12 x
unfolding sext32_imm12 bit_cast_i32
sext32_imm12-extend x h =
    rw (sext12_mask (x / 2048) (omega arith), or_above x (x / 2048 * 0xfffff) h) (omega arith)

-- On a `u32`, `sext32_imm12` of the immediate field is the I-immediate.
pub sext32_imm12-read_i :
    (raw : ℕ) → IsU32 raw → sext32_imm12 (get i_format.imm_11_0 raw) ≡ read_i_immediate raw
sext32_imm12-read_i raw h =
    sext32_imm12-extend (get i_format.imm_11_0 raw) (omega arith) ∙ sym (read_i-extend raw h)

-- The absolute value of an `int32_t` pattern.
pub abs32 : ℤ → ℕ
abs32 (pos n) = n
abs32 (negsuc n) = suc n

-- For the pattern of an `int32_t`, `make_positive` is the absolute value of the integer, which for the
-- least integer is 2 ^ 31.
pub make_positive-abs : (v : ℕ) → IsU32 v → make_positive v ≡ abs32 (signed 32 v)
unfolding make_positive abs32
make_positive-abs v h = ground arith

two_pow_product : (a b : ℕ) → a + b ≡ 30 → 2 ^ a * 2 ^ b ≡ 2 ^ 30
two_pow_product a b e = sym (two_pow_add a b) ∙ ap (λ (t : ℕ). 2 ^ t) e

generic_mask : (m : ℕ) → m ≤ 30 → shl32 (shl32 1 (31 - m - 1)) (sub32 32 (31 - m) - 1) ≡ 2 ^ 30
generic_mask m h =
    let place : 31 - m - 1 ≡ 30 - m = omega arith in
    let back : sub32 32 (31 - m) - 1 ≡ m = omega arith in
    rw (place, back)
      (omega (
        arith,
        two_pow_lt (30 - m) 32 (omega arith),
        mod-eq_of_lt {n = 2 ^ (30 - m)} {m = 2 ^ 32} (two_pow_lt (30 - m) 32 (omega arith)),
        ap (λ (t : ℕ). t * 2 ^ m) first,
        two_pow_product (30 - m) m (omega arith),
      ))
  where
    first : shl32 1 (30 - m) ≡ 2 ^ (30 - m)
    first = omega (arith, two_pow_lt (30 - m) 32 (omega arith))

-- `sext32_generic` extends no sign: on every word from 1 to 2 ^ 31 - 1 it sets bit 30.
pub sext32_generic_sets_bit_30 :
    (z v : ℕ) → 0 < v → v < 2 ^ 31 → sext32_generic z v ≡ bit_or v (2 ^ 30)
unfolding sext32_generic
sext32_generic_sets_bit_30 z v nz h =
    let (m, le, e, top) = clz-HasTop z v nz (omega arith) in
    let small : m ≤ 30 = HasTop-le m v 30 top h in rw (e, generic_mask m small) (ground arith)
