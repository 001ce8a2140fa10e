-- ===== src/Interpret/Exec/Values.antt =====
-- The values that the instructions compute are `u32`s.
use native.Mathlib.Nat.{div-le_self}
use rv32isam.Base.{ℕ, ◌*◌, ◌-◌, ◌/◌, ◌%◌, ◌^◌, ◌<◌, ◌≡◌, refl, arith}
use rv32isam.Base.Word.{IsU32, u8}
use rv32isam.Base.Masks.{bit_or-lt, bit_xor-lt, bit_and-le, bit_and-zero, bit_and_low, bit_or-zero}
use rv32isam.Rv.Insn.{get, i_format}
use rv32isam.Rv.Immediate.{read_i_immediate, read_shift_immediate}
use rv32isam.Rv.Immediate.Value.{read_i_immediate-signed, read_i-extend, read_shift_immediate_lem}
use rv32isam.Interpret.Exec.{shift_right, imm_value}

pub shift_right-IsU32 : (raw src : ℕ) → IsU32 src → IsU32 (shift_right raw src)
unfolding shift_right
shift_right-IsU32 raw src h =
    bit_or-lt 32 _ _ (omega (arith, div-le_self src (2 ^ u8 (read_shift_immediate raw))))
      (omega arith)

pub imm_value-IsU32 : (raw x : ℕ) → IsU32 raw → IsU32 x → IsU32 (imm_value raw x)
unfolding imm_value
imm_value-IsU32 raw x h k = ground (
  arith,
  (read_i_immediate-signed raw h).0,
  bit_xor-lt 32 x (read_i_immediate raw) k,
  bit_or-lt 32 x (read_i_immediate raw) k,
  bit_and-le x (read_i_immediate raw),
  shift_right-IsU32 raw x k,
)

-- For a word below 2 ^ 31, so also for an SRAI of it, whose mark is bit 30, the value of `case
-- imm_func_srli` is the logical shift by the low five bits of the immediate.
pub shift_right-logical :
    (raw src : ℕ) → raw < 2 ^ 31 → shift_right raw src ≡ src / 2 ^ (get i_format.imm_11_0 raw % 32)
unfolding shift_right
shift_right-logical raw src h =
    rw
      (
        bit_and_low 1 (read_i_immediate raw / 2 ^ 12),
        sign,
        bit_and-zero (src / 2 ^ 31) (src / 2 ^ 31) (omega arith),
        no_addend (31 - u8 (read_shift_immediate raw)),
        bit_or-zero (src / 2 ^ u8 (read_shift_immediate raw)),
        count,
      )
      refl
  where
    sign : read_i_immediate raw / 2 ^ 12 % 2 ^ 1 ≡ 0
    sign = omega (arith, read_i-extend raw (omega arith))

    no_addend : (n : ℕ) → 0 * 2 ^ n % 2 ^ 32 ≡ 0
    no_addend n = omega arith

    count : u8 (read_shift_immediate raw) ≡ get i_format.imm_11_0 raw % 32
    count = omega (arith, read_shift_immediate_lem raw (omega arith))
