-- ===== src/Base/Word.antt =====
-- The C integer types as native numbers: conversions, wrapping arithmetic, shifts, bit-fields, and
-- the integer that a two's complement pattern stands for (common/types.h).
use Prim.Native.Nat.{ℕ, ◌+◌, ◌-◌, ◌*◌, ◌/◌, ◌%◌, ◌^◌, ◌<◌}
use mathlib.Core.Bool.{Bool, true, false}
use rv32isam.Base.Tests.{ltb, if◌then◌else◌}

-- A conversion to `uint8_t`, `uint16_t`, `uint32_t`, `uint64_t`.
abbrev pub u8 : ℕ → ℕ
u8 n = n % 2 ^ 8

abbrev pub u16 : ℕ → ℕ
u16 n = n % 2 ^ 16

abbrev pub u32 : ℕ → ℕ
u32 n = n % 2 ^ 32

abbrev pub u64 : ℕ → ℕ
u64 n = n % 2 ^ 64

abbrev pub IsU32 : ℕ → Type 0
IsU32 n = n < 2 ^ 32

-- `a + b`, `a - b`, `~a` and `a << k` on `uint32_t`. The modulus is added before a subtraction,
-- since `-` stops at 0.
abbrev pub add32 : ℕ → ℕ → ℕ
add32 a b = (a + b) % 2 ^ 32

abbrev pub sub32 : ℕ → ℕ → ℕ
sub32 a b = (a + 2 ^ 32 - b % 2 ^ 32) % 2 ^ 32

abbrev pub not32 : ℕ → ℕ
not32 a = 2 ^ 32 - 1 - a

abbrev pub shl32 : ℕ → ℕ → ℕ
shl32 a k = a * 2 ^ k % 2 ^ 32

abbrev pub shr : ℕ → ℕ → ℕ
shr a k = a / 2 ^ k

abbrev pub add64 : ℕ → ℕ → ℕ
add64 a b = (a + b) % 2 ^ 64

abbrev pub sub64 : ℕ → ℕ → ℕ
sub64 a b = (a + 2 ^ 64 - b % 2 ^ 64) % 2 ^ 64

abbrev pub not64 : ℕ → ℕ
not64 a = 2 ^ 64 - 1 - a

-- Reading a bit-field of `w` bits whose lowest bit is bit `lo`: bit-fields are laid out from the
-- least significant bit up.
abbrev pub field : ℕ → ℕ → ℕ → ℕ
field lo w raw = raw / 2 ^ lo % 2 ^ w

-- Storing into such a bit-field: `v` is cut to `w` bits, the bits below and above stay.
abbrev pub set_field : ℕ → ℕ → ℕ → ℕ → ℕ
set_field lo w v raw = raw / 2 ^ (lo + w) * 2 ^ (lo + w) + v % 2 ^ w * 2 ^ lo + raw % 2 ^ lo

-- `negsuc n` is -(n + 1).
pub data ℤ : Type 0 where
  pos : ℕ → ℤ
  negsuc : ℕ → ℤ

-- The integer that the `w` low bits of a pattern stand for in two's complement.
abbrev pub signed : ℕ → ℕ → ℤ
signed w a =
    if ltb (a % 2 ^ w) (2 ^ (w - 1)) then pos (a % 2 ^ w) else negsuc (2 ^ w - a % 2 ^ w - 1)

-- The conversion of an `int32_t`, given by its pattern, to 64 bits, which repeats the sign bit.
abbrev pub sext64 : ℕ → ℕ
sext64 a = if ltb a (2 ^ 31) then a else a + (2 ^ 64 - 2 ^ 32)

-- `a < b`, and the result of a comparison as a word.
abbrev pub lt_ℤ : ℤ → ℤ → Bool
lt_ℤ (pos a) (pos b) = ltb a b
lt_ℤ (pos a) (negsuc b) = false
lt_ℤ (negsuc a) (pos b) = true
lt_ℤ (negsuc a) (negsuc b) = ltb b a

abbrev pub bool_word : Bool → ℕ
bool_word b = if b then 1 else 0
