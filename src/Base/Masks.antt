-- ===== src/Base/Masks.antt =====
-- Masks and fields as arithmetic, at every width.
use Prim.Native.Nat.{
  ℕ, zero, suc, ◌+◌, ◌-◌, ◌*◌, ◌/◌, ◌%◌, ◌^◌, ◌≤◌, ◌<◌, bit_and, bit_or, bit_xor, differ,
  bit_and-bitwise, bit_or-bitwise,
}
use mathlib.Core.Path.{◌≡◌, refl, ap}
use native.Mathlib.Omega.{arith}
use native.Mathlib.Nat.{
  pow-suc, one-le-pow, div-div-eq-div-mul, div-add-mod, div-eq_of_lt, mod-eq_of_lt, mod-lt,
  zero-add, add-mul-mod_self_right, add-mul-div_right, pow-le-pow_right, add_comm, mul-mod_left,
  mul-div_left,
}
use rv32isam.Base.Bits.{bit_and_digit, bit_or_digit, bit_xor_digit}

pub bit_and-zero : (n a : ℕ) → a ≤ n → bit_and a 0 ≡ 0
bit_and-zero n zero h = refl
bit_and-zero zero (suc a) h = absurd (omega arith)
bit_and-zero (suc n) (suc a) h =
    omega (arith, bit_and_digit (suc a) 0, bit_and-zero n (suc a / 2) (omega arith))

bit_or-zero_fuel : (n a : ℕ) → a ≤ n → bit_or a 0 ≡ a
bit_or-zero_fuel n zero h = refl
bit_or-zero_fuel zero (suc a) h = absurd (omega arith)
bit_or-zero_fuel (suc n) (suc a) h =
    omega (arith, bit_or_digit (suc a) 0, bit_or-zero_fuel n (suc a / 2) (omega arith))

pub bit_or-zero : (a : ℕ) → bit_or a 0 ≡ a
bit_or-zero a = bit_or-zero_fuel a a (omega arith)

pub two_pow_suc : (k : ℕ) → 2 ^ suc k ≡ 2 * 2 ^ k
two_pow_suc k = omega (arith, pow-suc 2 k)

pub two_pow_pos : (k : ℕ) → 0 < 2 ^ k
two_pow_pos k = one-le-pow k 2 (omega arith)

pub div-two_pow_suc : (a k : ℕ) → a / 2 ^ suc k ≡ a / 2 / 2 ^ k
div-two_pow_suc a k = rw (two_pow_suc k, div-div-eq-div-mul a 2 (2 ^ k))

mul-two_pow_suc : (q k : ℕ) → q * 2 ^ suc k ≡ 2 * (q * 2 ^ k)
mul-two_pow_suc q k = omega (arith, ap (λ (t : ℕ). q * t) (two_pow_suc k))

-- The remainder by `2 ^ (k + 1)`, from the lowest digit and the rest.
pub mod-two_pow_suc : (a k : ℕ) → a % 2 ^ suc k ≡ 2 * (a / 2 % 2 ^ k) + a % 2
mod-two_pow_suc a k = omega (
  arith,
  div-two_pow_suc a k,
  div-add-mod a (2 ^ suc k),
  div-add-mod (a / 2) (2 ^ k),
  ap (λ (t : ℕ). t * (a / 2 / 2 ^ k)) (two_pow_suc k),
  ap (λ (t : ℕ). 2 ^ suc k * t) (div-two_pow_suc a k),
)

-- `a & ((1 << k) - 1)` keeps the `k` low bits.
pub bit_and_low : (k a : ℕ) → bit_and a (2 ^ k - 1) ≡ a % 2 ^ k
bit_and_low zero a = omega (arith, bit_and-zero a a (omega arith))
bit_and_low (suc k) a = rw (mod-two_pow_suc a k) (
    rw (bit_and_digit a (2 ^ suc k - 1))
      (rw half (omega (arith, bit_and_low k (a / 2), two_pow_suc k, two_pow_pos k))))
  where
    half : (2 ^ suc k - 1) / 2 ≡ 2 ^ k - 1
    half = omega (arith, two_pow_suc k, two_pow_pos k)

-- A mask whose `k` low bits are clear clears those of the number.
pub bit_and-mul_two_pow : (k a m : ℕ) → bit_and a (m * 2 ^ k) ≡ bit_and (a / 2 ^ k) m * 2 ^ k
bit_and-mul_two_pow zero a m = rw (unit m, div_one a) (omega arith)
  where
    unit : (t : ℕ) → t * 2 ^ 0 ≡ t
    unit t = omega arith

    div_one : (t : ℕ) → t / 2 ^ 0 ≡ t
    div_one t = omega arith
bit_and-mul_two_pow (suc k) a m =
    rw (bit_and_digit a (m * 2 ^ suc k), div-two_pow_suc a k, half)
      (omega (
        arith,
        bit_and-mul_two_pow k (a / 2) m,
        mul-two_pow_suc m k,
        mul-two_pow_suc (bit_and (a / 2 / 2 ^ k) m) k,
      ))
  where
    half : m * 2 ^ suc k / 2 ≡ m * 2 ^ k
    half = omega (arith, mul-two_pow_suc m k)

-- A number whose `k` low bits are clear, joined to any other.
pub bit_or-mul_two_pow :
    (k m a : ℕ) → bit_or (m * 2 ^ k) a ≡ bit_or m (a / 2 ^ k) * 2 ^ k + a % 2 ^ k
bit_or-mul_two_pow zero m a = rw (unit m, div_one a) (omega arith)
  where
    unit : (t : ℕ) → t * 2 ^ 0 ≡ t
    unit t = omega arith

    div_one : (t : ℕ) → t / 2 ^ 0 ≡ t
    div_one t = omega arith
bit_or-mul_two_pow (suc k) m a =
    rw (bit_or_digit (m * 2 ^ suc k) a, div-two_pow_suc a k, mod-two_pow_suc a k, half)
      (omega (
        arith,
        bit_or-mul_two_pow k m (a / 2),
        mul-two_pow_suc m k,
        mul-two_pow_suc (bit_or m (a / 2 / 2 ^ k)) k,
      ))
  where
    half : m * 2 ^ suc k / 2 ≡ m * 2 ^ k
    half = omega (arith, mul-two_pow_suc m k)

-- `(q << k) | r` is a sum when `r` fits below.
pub bit_or_fields : (k q r : ℕ) → r < 2 ^ k → bit_or (q * 2 ^ k) r ≡ q * 2 ^ k + r
bit_or_fields k q r h = rw (bit_or-mul_two_pow k q r, div-eq_of_lt h, mod-eq_of_lt h, bit_or-zero q)

or_ge_left_fuel : (n a b : ℕ) → a ≤ n → a ≤ bit_or a b
or_ge_left_fuel n zero b h = omega arith
or_ge_left_fuel zero (suc a) b h = absurd (omega arith)
or_ge_left_fuel (suc n) (suc a) b h =
    omega (arith, bit_or_digit (suc a) b, or_ge_left_fuel n (suc a / 2) (b / 2) (omega arith))

pub bit_or-ge_left : (a b : ℕ) → a ≤ bit_or a b
bit_or-ge_left a b = or_ge_left_fuel a a b (omega arith)

or_ge_right_fuel : (n a b : ℕ) → b ≤ n → b ≤ bit_or a b
or_ge_right_fuel n a zero h = omega arith
or_ge_right_fuel zero a (suc b) h = absurd (omega arith)
or_ge_right_fuel (suc n) a (suc b) h =
    omega (arith, bit_or_digit a (suc b), or_ge_right_fuel n (a / 2) (suc b / 2) (omega arith))

pub bit_or-ge_right : (a b : ℕ) → b ≤ bit_or a b
bit_or-ge_right a b = or_ge_right_fuel b a b (omega arith)

zero-bit_or : (b : ℕ) → bit_or 0 b ≡ b
zero-bit_or b = simp bit_or-bitwise

or_comm_fuel : (n a b : ℕ) → a ≤ n → bit_or a b ≡ bit_or b a
or_comm_fuel n zero b h = rw (bit_or-zero b, zero-bit_or b)
or_comm_fuel zero (suc a) b h = absurd (omega arith)
or_comm_fuel (suc n) (suc a) b h = omega (
  arith,
  bit_or_digit (suc a) b,
  bit_or_digit b (suc a),
  or_comm_fuel n (suc a / 2) (b / 2) (omega arith),
)

pub bit_or_comm : (a b : ℕ) → bit_or a b ≡ bit_or b a
bit_or_comm a b = or_comm_fuel a a b (omega arith)

half_lt : (k a : ℕ) → a < 2 ^ suc k → a / 2 < 2 ^ k
half_lt k a h = omega (arith, two_pow_suc k)

-- The operations keep to the width of their arguments.
pub bit_or-lt : (k a b : ℕ) → a < 2 ^ k → b < 2 ^ k → bit_or a b < 2 ^ k
bit_or-lt zero a b p q = rw (zero_of p, zero_of q) (omega arith)
  where
    zero_of : {t : ℕ} → t < 2 ^ 0 → t ≡ 0
    zero_of h = omega arith
bit_or-lt (suc k) a b p q = omega (
  arith,
  bit_or_digit a b,
  two_pow_suc k,
  bit_or-lt k (a / 2) (b / 2) (half_lt k a p) (half_lt k b q),
)

differ_le : (a b : ℕ) → a < 2 → b < 2 → differ a b < 2
differ_le zero b p q = q
differ_le (suc a) zero p q = p
differ_le (suc a) (suc b) p q = differ_le a b (omega arith) (omega arith)

pub bit_xor-lt : (k a b : ℕ) → a < 2 ^ k → b < 2 ^ k → bit_xor a b < 2 ^ k
bit_xor-lt zero a b p q = rw (zero_of p, zero_of q) (omega arith)
  where
    zero_of : {t : ℕ} → t < 2 ^ 0 → t ≡ 0
    zero_of h = omega arith
bit_xor-lt (suc k) a b p q = omega (
  arith,
  bit_xor_digit a b,
  two_pow_suc k,
  differ_le (a % 2) (b % 2) (omega arith) (omega arith),
  bit_xor-lt k (a / 2) (b / 2) (half_lt k a p) (half_lt k b q),
)

and-le_fuel : (n a b : ℕ) → a ≤ n → bit_and a b ≤ a
and-le_fuel n zero b h = omega (arith, bit_and_digit 0 b, zero_and b)
  where
    zero_and : (b : ℕ) → bit_and 0 b ≡ 0
    zero_and b = simp bit_and-bitwise
and-le_fuel zero (suc a) b h = absurd (omega arith)
and-le_fuel (suc n) (suc a) b h =
    omega (arith, bit_and_digit (suc a) b, and-le_fuel n (suc a / 2) (b / 2) (omega arith))

pub bit_and-le : (a b : ℕ) → bit_and a b ≤ a
bit_and-le a b = and-le_fuel a a b (omega arith)

pub two_pow_add : (j k : ℕ) → 2 ^ (j + k) ≡ 2 ^ j * 2 ^ k
two_pow_add zero k = rw zero-add (omega arith)
two_pow_add (suc j) k =
    rw (shift, two_pow_suc (j + k), two_pow_suc j) (omega (arith, two_pow_add j k))
  where
    shift : suc j + k ≡ suc (j + k)
    shift = omega arith

pub two_pow_lt : (k w : ℕ) → k < w → 2 ^ k < 2 ^ w
two_pow_lt k zero h = absurd (omega arith)
two_pow_lt zero (suc w) h = omega (arith, two_pow_suc w, two_pow_pos w)
two_pow_lt (suc k) (suc w) h =
    omega (arith, two_pow_suc w, two_pow_suc k, two_pow_lt k w (omega arith))

pub two_pow_le : (k w : ℕ) → k ≤ w → 2 ^ k ≤ 2 ^ w
two_pow_le k w h = pow-le-pow_right (omega arith) h

fits : (r c p q : ℕ) → r < p → c < q → r * q + c < p * q
fits r c p q h k = grind arith

-- What a quotient and a remainder leave below `p * q`.
split_mod : (v p q : ℕ) → 0 < p → 0 < q → v % (p * q) ≡ v / q % p * q + v % q
split_mod v p q hp hq =
    rw
      (
        ap (λ (t : ℕ). t % (p * q)) whole,
        add-mul-mod_self_right (v / q % p * q + v % q) (v / q / p) (p * q),
      )
      (mod-eq_of_lt (fits (v / q % p) (v % q) p q (mod-lt (v / q) hp) (mod-lt v hq)))
  where
    whole : v ≡ v / q % p * q + v % q + v / q / p * (p * q)
    whole = omega (arith, div-add-mod v q, ap (λ (t : ℕ). t * q) (div-add-mod (v / q) p))

upper_field : (r c q : ℕ) → c < q → (r * q + c) / q ≡ r
upper_field r c q h =
    rw (add_comm (r * q) c, add-mul-div_right c r (from_pos h), div-eq_of_lt h) (omega arith)
  where
    from_pos : c < q → 0 < q
    from_pos h = omega arith

-- Dividing by `q` what is left modulo `p * q`, and the other way round.
pub mod-mul-div : (v p q : ℕ) → 0 < p → 0 < q → v % (p * q) / q ≡ v / q % p
mod-mul-div v p q hp hq =
    rw (split_mod v p q hp hq) (upper_field (v / q % p) (v % q) q (mod-lt v hq))

pub mul-mod-mul : (t p q : ℕ) → 0 < p → 0 < q → t * q % (p * q) ≡ t % p * q
mul-mod-mul t p q hp hq =
    rw (split_mod (t * q) p q hp hq, mul-mod_left t q, mul-div_left t hq) (omega arith)
