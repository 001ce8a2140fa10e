-- ===== src/BitMath/PowTwo.antt =====
-- `next_po2` and `max_po2` against the powers of two.
use Prim.Native.Nat.{bit_or, max}
use native.Mathlib.Decide.{dec_lt}
use rv32isam.Base.{
  ℕ, zero, suc, ◌+◌, ◌-◌, ◌*◌, ◌/◌, ◌%◌, ◌^◌, ◌≤◌, ◌<◌, ◌≡◌, ◌⊎◌, refl, ap, arith, ◌∙◌,
}
use rv32isam.Base.Masks.{
  two_pow_pos, two_pow_suc, two_pow_lt, two_pow_le, bit_and_low, bit_or-lt, bit_or-ge_left,
  bit_or-ge_right,
}
use rv32isam.Base.Word.{sub32, shl32, IsU32}
use rv32isam.BitMath.{bit_width, clz, next_po2, max_po2}

bit_width-suc : (n x : ℕ) → bit_width (suc n) (suc x) ≡ suc (bit_width n (suc x / 2))
unfolding bit_width
bit_width-suc n x = ground arith

bit_width-zero : (n : ℕ) → bit_width n 0 ≡ 0
unfolding bit_width
bit_width-zero zero = refl
bit_width-zero (suc n) = refl

bit_width_upper : (n x : ℕ) → x < 2 ^ n → x < 2 ^ bit_width n x
bit_width_upper zero x h = unfold bit_width in h
bit_width_upper (suc n) zero h = rw bit_width-zero (omega arith)
bit_width_upper (suc n) (suc x) h = rw (bit_width-suc n x) (
    omega (
      arith,
      two_pow_suc (bit_width n (suc x / 2)),
      bit_width_upper n (suc x / 2) (omega (arith, two_pow_suc n)),
    ))

bit_width_lower : (n x m : ℕ) → bit_width n x ≡ suc m → 2 ^ m ≤ x
bit_width_lower zero x m e = absurd (unfold bit_width in omega arith)
bit_width_lower (suc n) zero m e = absurd (omega (arith, bit_width-zero (suc n)))
bit_width_lower (suc n) (suc x) zero e = omega arith
bit_width_lower (suc n) (suc x) (suc m) e =
    omega (arith, two_pow_suc m, bit_width_lower n (suc x / 2) m (omega (arith, bit_width-suc n x)))

bit_width-le : (n x : ℕ) → bit_width n x ≤ n
bit_width-le zero x = unfold bit_width in omega arith
bit_width-le (suc n) zero = omega (arith, bit_width-zero (suc n))
bit_width-le (suc n) (suc x) = omega (arith, bit_width-suc n x, bit_width-le n (suc x / 2))

bit_width_pos : (n x : ℕ) → 0 < x → (m : ℕ) × (bit_width (suc n) x ≡ suc m)
bit_width_pos n zero h = absurd (omega arith)
bit_width_pos n (suc x) h = (bit_width n (suc x / 2), bit_width-suc n x)

-- `x` has its highest binary digit at place `m`.
pub record HasTop (m x : ℕ) : Type 0 where
  pub from : 2 ^ m ≤ x
  pub below : x < 2 ^ suc m

-- The highest digit of a non-zero word stands at place 31 - clz.
pub clz-HasTop : (z x : ℕ) → 0 < x → IsU32 x → (m : ℕ) × (m ≤ 31) × (clz z x ≡ 31 - m) × HasTop m x
unfolding clz
clz-HasTop z x pos h =
    let (m, e) = bit_width_pos 31 x pos in
    (
      m,
      omega (arith, bit_width-le 32 x),
      ground (arith),
      record { from = bit_width_lower 32 x m e; below = rw e at (bit_width_upper 32 x h) },
    )

-- Places of the highest digit are ordered as the numbers are.
HasTop-mono : (i j x y : ℕ) → HasTop i x → HasTop j y → x ≤ y → i ≤ j
HasTop-mono i j x y p q h = elim (dec_lt j i) [
  | yes lt ↦ absurd (omega (arith, p.from, q.below, two_pow_le (suc j) i lt))
  | no ge ↦ omega arith
]

pub HasTop-le : (m x k : ℕ) → HasTop m x → x < 2 ^ suc k → m ≤ k
HasTop-le m x k top h = elim (dec_lt k m) [
  | yes lt ↦ absurd (omega (arith, top.from, two_pow_le (suc k) m lt))
  | no ge ↦ omega arith
]

HasTop-two_pow : (i : ℕ) → HasTop i (2 ^ i)
HasTop-two_pow i = omega (arith, two_pow_suc i, two_pow_pos i)

shl32_one : (m : ℕ) → m ≤ 31 → shl32 1 m ≡ 2 ^ m
shl32_one m h = omega (arith, two_pow_lt m 32 (omega arith))

-- The power that `next_po2` shifts by, in terms of the highest digit of `val - 1`.
next_po2-top :
    (z val m : ℕ) → m ≤ 31 → clz z (sub32 val 1) ≡ 31 - m → next_po2 z val ≡ 2 ^ ((m + 1) % 32)
unfolding next_po2
next_po2-top z val m h e =
    rw (e, bit_and_low 5 (sub32 32 (31 - m)), count) (shl32_one ((m + 1) % 32) (omega arith))
  where
    count : sub32 32 (31 - m) % 2 ^ 5 ≡ (m + 1) % 32
    count = omega arith

-- From 2 up to 2 ^ 31, `next_po2` is the least power of two that is not below its argument.
pub next_po2_least :
    (z val : ℕ)
    → 2 ≤ val
    → val ≤ 2 ^ 31
    → (k : ℕ) × (k ≤ 31) × (next_po2 z val ≡ 2 ^ k) × (val ≤ 2 ^ k) × (2 ^ k < 2 * val)
next_po2_least z val lo hi =
    let (m, le, e, top) = clz-HasTop z (sub32 val 1) (omega arith) (omega arith) in
    let m_le : m ≤ 30 = HasTop_small m top in
    let count : (m + 1) % 32 ≡ suc m = omega arith in
    (
      suc m,
      omega arith,
      rw (next_po2-top z val m le e, count),
      omega (arith, top.below),
      omega (arith, top.from, two_pow_suc m),
    )
  where
    HasTop_small : (m : ℕ) → HasTop m (sub32 val 1) → m ≤ 30
    HasTop_small m top = elim (dec_lt 30 m) [
      | yes lt ↦ absurd (omega (arith, top.from, two_pow_le 31 m lt))
      | no ge ↦ omega arith
    ]

-- On a `u32` that is 0 or beyond 2 ^ 31, `next_po2` is 1.
pub next_po2_wraps : (z val : ℕ) → IsU32 val → (val ≡ 0) ⊎ (2 ^ 31 < val) → next_po2 z val ≡ 1
next_po2_wraps z val h out =
    let (m, le, e, top) = clz-HasTop z (sub32 val 1) (omega arith) (omega arith) in
    let m_ge : 31 ≤ m = HasTop_large m top in
    let count : (m + 1) % 32 ≡ 0 = omega arith in rw (next_po2-top z val m le e, count)
  where
    HasTop_large : (m : ℕ) → HasTop m (sub32 val 1) → 31 ≤ m
    HasTop_large m top = elim (dec_lt m 31) [
      | yes lt ↦ absurd (omega (arith, top.below, two_pow_le (suc m) 31 lt))
      | no ge ↦ omega arith
    ]

-- Whatever `__builtin_clz` gives at 0, `next_po2` is a power of two that a word holds.
pub next_po2_power : (z val : ℕ) → (k : ℕ) × (k ≤ 31) × (next_po2 z val ≡ 2 ^ k)
unfolding next_po2
next_po2_power z val =
    let s : ℕ = sub32 32 (clz z (sub32 val 1)) in
    (s % 32, omega arith, rw (bit_and_low 5 s) (shl32_one (s % 32) (omega arith)))

-- `max_po2` is the highest digit of the two words together.
max_po2-top :
    (z a b : ℕ)
    → 0 < b
    → IsU32 a
    → IsU32 b
    → (m : ℕ) × (m ≤ 31) × (max_po2 z a b ≡ 2 ^ m) × HasTop m (bit_or a b)
unfolding max_po2
max_po2-top z a b pos ha hb =
    let (m, le, e, top) =
      clz-HasTop z (bit_or a b) (omega (arith, bit_or-ge_right a b)) (bit_or-lt 32 a b ha hb) in
    let count : 31 - (31 - m) ≡ m = omega arith in (m, le, rw (e, count) (shl32_one m le), top)

-- `max_po2` of two powers of two below 2 ^ 32 is the larger one.
pub max_po2_lem : (z i j : ℕ) → i < 32 → j < 32 → max_po2 z (2 ^ i) (2 ^ j) ≡ 2 ^ max i j
max_po2_lem z i j hi hj =
    let a : IsU32 (2 ^ i) = two_pow_lt i 32 hi in
    let b : IsU32 (2 ^ j) = two_pow_lt j 32 hj in
    let (m, le, e, top) = max_po2-top z (2 ^ i) (2 ^ j) (two_pow_pos j) a b in
    let ge_i = HasTop-mono i m (2 ^ i) _ (HasTop-two_pow i) top (bit_or-ge_left (2 ^ i) (2 ^ j)) in
    let ge_j = HasTop-mono j m (2 ^ j) _ (HasTop-two_pow j) top (bit_or-ge_right (2 ^ i) (2 ^ j)) in
    let le_max = below_max m top in
    let same : m ≡ max i j = omega arith in e ∙ ap (λ (t : ℕ). 2 ^ t) same
  where
    below_max : (m : ℕ) → HasTop m (bit_or (2 ^ i) (2 ^ j)) → m ≤ max i j
    below_max m top = elim (dec_lt (max i j) m) [
      | yes lt ↦ absurd (
          omega (
            arith,
            top.from,
            two_pow_le (suc (max i j)) m lt,
            bit_or-lt (suc (max i j)) (2 ^ i) (2 ^ j) (two_pow_lt i _ (omega arith))
                (two_pow_lt j _ (omega arith)),
          ))
      | no ge ↦ omega arith
    ]

-- The capacity that `out_resv` asks for holds what it has to, up to 2 ^ 31 bytes, and is at least 8.
pub capacity-ge :
    (z required : ℕ)
    → 0 < required
    → required ≤ 2 ^ 31
    → (required ≤ max_po2 z (next_po2 z required) 8) × (max_po2 z (next_po2 z required) 8 < 2 ^ 32)
capacity-ge z required pos h = elim (dec_lt 1 required) [
  | yes big ↦
      let (k, k_le, e, ge, small) = next_po2_least z required big h in
      let is_max = max_po2_lem z k 3 (omega arith) (omega arith) in
      rw (e, is_max)
        (omega (arith, two_pow_le k (max k 3) (omega arith)), two_pow_lt (max k 3) 32 (omega arith))
  | no one ↦
      let (k, k_le, e) = next_po2_power z required in
      let is_max = max_po2_lem z k 3 (omega arith) (omega arith) in
      rw (e, is_max) (omega (arith, two_pow_pos (max k 3)), two_pow_lt (max k 3) 32 (omega arith))
]

-- It is a power of two.
pub capacity-power : (z required : ℕ) → (k : ℕ) × (max_po2 z (next_po2 z required) 8 ≡ 2 ^ k)
capacity-power z required =
    let (k, k_le, e) = next_po2_power z required in
    let is_max = max_po2_lem z k 3 (omega arith) (omega arith) in (max k 3, rw e is_max)

pub max_po2-one_eight : (z : ℕ) → max_po2 z 1 8 ≡ 8
unfolding max_po2 clz bit_width
max_po2-one_eight z = refl
