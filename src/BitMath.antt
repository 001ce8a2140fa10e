-- ===== src/BitMath.antt =====
-- common/bit_math.h: alignment and powers of two on `u32`, and alignment on `u64`.
-- `__builtin_clz` is undefined at 0: what it gives there is the parameter `clz_of_zero`.
pub mod Align
pub mod PowTwo
use Prim.Native.Nat.{bit_and, bit_or}
use rv32isam.Base.{ℕ, zero, suc, ◌-◌, ◌/◌, ◌==◌, if◌then◌else◌}
use rv32isam.Base.Word.{add32, sub32, not32, shl32, add64, sub64, not64}

unfoldable pub align_upwards : ℕ → ℕ → ℕ
align_upwards val align = bit_and (add32 val (sub32 align 1)) (not32 (sub32 align 1))

unfoldable pub align_upwards64 : ℕ → ℕ → ℕ
align_upwards64 val align = bit_and (add64 val (sub64 align 1)) (not64 (sub64 align 1))

-- The number of binary digits of `x`, if that is at most the first argument.
pub bit_width : ℕ → ℕ → ℕ
bit_width zero x = 0
bit_width (suc n) x = let rest = bit_width n (x / 2) in if x == 0 then 0 else suc rest

module _ (clz_of_zero : ℕ) where
  -- `__builtin_clz` on a `u32`: the number of zero bits above the highest one.
  pub clz : ℕ → ℕ
  clz x = if x == 0 then clz_of_zero else 32 - bit_width 32 x

  pub next_po2 : ℕ → ℕ
  next_po2 val = shl32 1 (bit_and (sub32 32 (clz (sub32 val 1))) 31)

  pub max_po2 : ℕ → ℕ → ℕ
  max_po2 a b = shl32 1 (31 - clz (bit_or a b))
