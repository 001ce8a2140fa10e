-- ===== src/BitMath/Align.antt =====
-- `align_upwards` and `align_upwards64` against rounding up in the integers.
use Prim.Native.Nat.{bit_and}
use native.Mathlib.Nat.{
  div-lt_iff_lt-mul, div-mul-le_self, lt-div-mul-add, mod-eq_of_lt, mod-mod, mul-mod_left,
}
use rv32isam.Base.{ℕ, zero, suc, ◌+◌, ◌-◌, ◌*◌, ◌/◌, ◌%◌, ◌^◌, ◌≤◌, ◌<◌, ◌≡◌, refl, arith}
use rv32isam.Base.Masks.{
  two_pow_pos, two_pow_lt, two_pow_add, bit_and-mul_two_pow, bit_and_low, mod-mul-div, mul-mod-mul,
}
use rv32isam.Base.Word.{sub32, sub64}
use rv32isam.BitMath.{align_upwards, align_upwards64}

-- The least multiple of `m` that is at least `val`.
abbrev pub round_up : ℕ → ℕ → ℕ
round_up val m = (val + (m - 1)) / m * m

pred-mul : (p q : ℕ) → 0 < p → (p - 1) * q ≡ p * q - q
pred-mul zero q h = absurd (omega arith)
pred-mul (suc p) q h = let e : suc p - 1 ≡ p = omega arith in rw e (omega arith)

-- Clearing the `k` low bits of a sum that wrapped at `w` bits.
clear_low :
    (j k w s : ℕ)
    → j + k ≡ w
    → bit_and (s % 2 ^ w) (2 ^ w - 1 - (2 ^ k - 1)) ≡ s / 2 ^ k * 2 ^ k % 2 ^ w
clear_low j k w s e =
    rw
      (
        ← e,
        mask,
        two_pow_add j k,
        bit_and-mul_two_pow k (s % (2 ^ j * 2 ^ k)) (2 ^ j - 1),
        mod-mul-div s (2 ^ j) (2 ^ k) (two_pow_pos j) (two_pow_pos k),
        bit_and_low j (s / 2 ^ k % 2 ^ j),
        mul-mod-mul (s / 2 ^ k) (2 ^ j) (2 ^ k) (two_pow_pos j) (two_pow_pos k),
        mod-mod (s / 2 ^ k) (2 ^ j),
      )
      refl
  where
    mask : 2 ^ (j + k) - 1 - (2 ^ k - 1) ≡ (2 ^ j - 1) * 2 ^ k
    mask = omega (arith, two_pow_add j k, two_pow_pos k, pred-mul (2 ^ j) (2 ^ k) (two_pow_pos j))

-- On every `u32`, and for every power of two that is one, `align_upwards` rounds up, modulo
-- 2 ^ 32: beyond the last multiple it wraps to 0.
pub align_upwards-eq-round_up :
    (val k : ℕ) → k < 32 → align_upwards val (2 ^ k) ≡ round_up val (2 ^ k) % 2 ^ 32
unfolding align_upwards
align_upwards-eq-round_up val k h =
    rw low_mask (clear_low (32 - k) k 32 (val + (2 ^ k - 1)) (omega arith))
  where
    low_mask : sub32 (2 ^ k) 1 ≡ 2 ^ k - 1
    low_mask = omega (arith, two_pow_pos k, two_pow_lt k 32 h)

pub align_upwards64-eq-round_up :
    (val k : ℕ) → k < 64 → align_upwards64 val (2 ^ k) ≡ round_up val (2 ^ k) % 2 ^ 64
unfolding align_upwards64
align_upwards64-eq-round_up val k h =
    rw low_mask (clear_low (64 - k) k 64 (val + (2 ^ k - 1)) (omega arith))
  where
    low_mask : sub64 (2 ^ k) 1 ≡ 2 ^ k - 1
    low_mask = omega (arith, two_pow_pos k, two_pow_lt k 64 h)

-- What a rounding up `r` of `val` to multiples of `m` is: a multiple, not below, and the least one.
pub record IsRoundUp (val m r : ℕ) : Type 0 where
  pub multiple : r % m ≡ 0
  pub not_below : val ≤ r
  pub least : (t : ℕ) → val ≤ t * m → r ≤ t * m

pub round_up-IsRoundUp : (val m : ℕ) → 0 < m → IsRoundUp val m (round_up val m)
round_up-IsRoundUp val m h = record {
  multiple = mul-mod_left ((val + (m - 1)) / m) m;
  not_below = omega (arith, lt-div-mul-add {a = val + (m - 1)} h);
  least = least;
}
  where
    below : (t : ℕ) → val ≤ t * m → (val + (m - 1)) / m < suc t
    below t le = (div-lt_iff_lt-mul h).1 (omega arith)

    least : (t : ℕ) → val ≤ t * m → round_up val m ≤ t * m
    least t le = let le' : (val + (m - 1)) / m ≤ t = omega (arith, below t le) in grind arith

pub round_up-lt :
    (val k w : ℕ) → val + (2 ^ k - 1) < 2 ^ w → round_up val (2 ^ k) % 2 ^ w ≡ round_up val (2 ^ k)
round_up-lt val k w h = mod-eq_of_lt (omega (arith, div-mul-le_self (val + (2 ^ k - 1)) (2 ^ k)))

-- Where the rounding up of a `u32` does not pass 2 ^ 32, `align_upwards` with a power of two below
-- 2 ^ 32 is the least multiple of it that is not below the value.
pub align_upwards-IsRoundUp :
    (val k : ℕ)
    → k < 32
    → val + (2 ^ k - 1) < 2 ^ 32
    → IsRoundUp val (2 ^ k) (align_upwards val (2 ^ k))
align_upwards-IsRoundUp val k h fits =
    rw (align_upwards-eq-round_up val k h, round_up-lt val k 32 fits)
      (round_up-IsRoundUp val (2 ^ k) (two_pow_pos k))

-- Where the rounding up of a `u64` does not pass 2 ^ 64, `align_upwards64` with a power of two below
-- 2 ^ 64 is the least multiple of it that is not below the value.
pub align_upwards64-IsRoundUp :
    (val k : ℕ)
    → k < 64
    → val + (2 ^ k - 1) < 2 ^ 64
    → IsRoundUp val (2 ^ k) (align_upwards64 val (2 ^ k))
align_upwards64-IsRoundUp val k h fits =
    rw (align_upwards64-eq-round_up val k h, round_up-lt val k 64 fits)
      (round_up-IsRoundUp val (2 ^ k) (two_pow_pos k))

-- The least multiple is near.
pub IsRoundUp-near : {val m r : ℕ} → 0 < m → IsRoundUp val m r → r ≤ val + m
IsRoundUp-near {val} {m} {r} pos up =
    omega (arith, up.least (val / m + 1) above, sum, div-mul-le_self val m)
  where
    sum : (val / m + 1) * m ≡ val / m * m + m
    sum = grind arith

    above : val ≤ (val / m + 1) * m
    above = omega (arith, sum, lt-div-mul-add {a = val} pos)
