-- ===== src/Rv/Immediate.antt =====
-- rv/bits.h: the immediates that are spread over an instruction word, and sign extension.
-- A union of a struct of bit-fields and a `u32` is the word; `extract` reads its fields and `imm`
-- is written field by field.
pub mod Value
use Prim.Native.Nat.{bit_and, bit_or}
use rv32isam.Base.{ℕ, ◌-◌, ◌^◌, ◌==◌, ltb, if◌then◌else◌}
use rv32isam.Base.Word.{sub32, not32, sub64, shl32, shr}
use rv32isam.BitMath.{clz}
use rv32isam.Rv.Insn.{bits, get, put}

-- An `int32_t` is its bit pattern, so the casts between it and `u32` leave the number alone.
unfoldable pub bit_cast_i32 : ℕ → ℕ
bit_cast_i32 v = v

pub bit_cast_u32 : ℕ → ℕ
bit_cast_u32 v = v

-- `v < 0 ? -v : v` on an `int32_t`.
unfoldable pub make_positive : ℕ → ℕ
make_positive v = if ltb v (2 ^ 31) then v else sub32 0 v

pub sext32_imm32 : ℕ → ℕ
sext32_imm32 x = bit_cast_i32 x

pub sext32_generic : ℕ → ℕ → ℕ
sext32_generic clz_of_zero v =
    let fill_count = clz clz_of_zero v in
    let bit_pos = sub32 32 fill_count in
    let mask = shl32 (shl32 1 (fill_count - 1)) (bit_pos - 1) in if v == 0 then 0 else bit_or v mask

unfoldable pub sext32_imm12 : ℕ → ℕ
sext32_imm12 x_12 =
    let mask = not32 (sub32 (shr x_12 11) 1) in
    let mask' = bit_and mask 0xfffff000 in bit_cast_i32 (bit_or x_12 mask')

unfoldable pub read_upper_immediate : ℕ → ℕ
read_upper_immediate raw = bit_and raw 0xfffff000

-- The fields of `imm` are written over what the union held before.
unfoldable pub j_immediate_over : ℕ → ℕ → ℕ
j_immediate_over imm raw =
    let imm1 = put (bits 0 1) 0 imm in
    let imm2 = put (bits 12 8) (get (bits 12 8) raw) imm1 in
    let imm3 = put (bits 11 1) (get (bits 20 1) raw) imm2 in
    let imm4 = put (bits 1 4) (get (bits 21 4) raw) imm3 in
    let imm5 = put (bits 5 6) (get (bits 25 6) raw) imm4 in
    put (bits 20 12) (sub64 0 (get (bits 31 1) raw)) imm5

-- C leaves open what an uninitialised union holds; every bit of it is written, so any will do.
unfoldable pub read_j_immediate : ℕ → ℕ
unfolding j_immediate_over
read_j_immediate raw = j_immediate_over 0 raw

unfoldable pub read_b_immediate : ℕ → ℕ
read_b_immediate raw =
    let imm1 = put (bits 0 1) 0 0 in
    let imm2 = put (bits 11 1) (get (bits 7 1) raw) imm1 in
    let imm3 = put (bits 1 4) (get (bits 8 4) raw) imm2 in
    let imm4 = put (bits 5 6) (get (bits 25 6) raw) imm3 in
    put (bits 12 20) (sub64 0 (get (bits 31 1) raw)) imm4

unfoldable pub read_s_immediate : ℕ → ℕ
read_s_immediate raw =
    let imm1 = put (bits 0 1) (get (bits 7 1) raw) 0 in
    let imm2 = put (bits 1 4) (get (bits 8 4) raw) imm1 in
    let imm3 = put (bits 5 6) (get (bits 25 6) raw) imm2 in
    put (bits 11 21) (sub64 0 (get (bits 31 1) raw)) imm3

unfoldable pub read_i_immediate : ℕ → ℕ
read_i_immediate raw =
    let imm1 = put (bits 0 1) (get (bits 20 1) raw) 0 in
    let imm2 = put (bits 1 4) (get (bits 21 4) raw) imm1 in
    let imm3 = put (bits 5 6) (get (bits 25 6) raw) imm2 in
    put (bits 11 21) (sub64 0 (get (bits 31 1) raw)) imm3

unfoldable pub read_shift_immediate : ℕ → ℕ
read_shift_immediate raw = bit_and (read_i_immediate raw) 0x1f
