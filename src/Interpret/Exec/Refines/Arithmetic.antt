-- ===== src/Interpret/Exec/Refines/Arithmetic.antt =====
-- The instructions that compute a register from registers and an immediate.
use Prim.Native.Nat.{bit_or}
use native.Mathlib.Nat.{mod-eq_of_lt}
use rv32isam.Base.{ℕ, ◌+◌, ◌-◌, ◌*◌, ◌%◌, ◌^◌, ◌<◌, ◌≡◌, ◌≢◌, refl, sym, ◌∙◌, arith}
use rv32isam.Base.Word.{add32, sub32}
use rv32isam.Isa
use rv32isam.Isa.{
  Instr, Fits, encode, Machine, move, set_x, effect, ImmOp, imm_code, imm_effect, RegOp, op_effect,
  Condition, condition_code, holds, i_word, s_word, b_word, u_word, j_word, r_word,
}
use rv32isam.Rv.Dasm.Laws.{dasm-op_auipc, dasm-op_lui, dasm-op_imm, dasm-op_op}
use rv32isam.Rv.Immediate.{bit_cast_i32, read_upper_immediate}
use rv32isam.Rv.Immediate.Value.{
  read_i-extend, read_i_immediate-signed, read_upper_immediate_lem, read_shift_immediate_lem,
}
use rv32isam.Interpret.State.{Cpu, read_register}
use rv32isam.Interpret.State.Valid.{IsValid}
use rv32isam.Interpret.Exec.{exec, exec_imm, exec_op, imm_value}
use rv32isam.Interpret.Exec.Decode.{IsIWord, IsUWord, IsRWord, move-extend12}
use rv32isam.Interpret.Exec.Fetch.{Fetches}
use rv32isam.Interpret.Exec.Refines.{from_zero, Refines, writes}

module _ {cpu : Cpu} {raw : ℕ} (f : Fetches cpu raw) where
  pub lui-word : (rd imm : ℕ) → IsUWord 0x37 rd imm raw → Refines cpu (Isa.lui rd imm)
  unfolding exec
  lui-word rd imm d =
      let ne : raw ≢ 0 = omega (arith, d.opcode_of) in
      writes rd (read_upper_immediate raw) (imm * 2 ^ 12) f ne
        (dasm-op_lui raw cpu.pc ne d.opcode_of) (rw (d.opcode_of, d.rd_of))
        (rw (read_upper_immediate_lem raw d.fits, d.imm_of))

  pub auipc-word : (rd imm : ℕ) → IsUWord 0x17 rd imm raw → Refines cpu (Isa.auipc rd imm)
  unfolding exec
  auipc-word rd imm d =
      let ne : raw ≢ 0 = omega (arith, d.opcode_of) in
      writes rd (add32 cpu.pc (read_upper_immediate raw)) ((cpu.pc + imm * 2 ^ 12) % 2 ^ 32) f ne
        (dasm-op_auipc raw cpu.pc ne d.opcode_of) (rw (d.opcode_of, d.rd_of))
        (rw (read_upper_immediate_lem raw d.fits, d.imm_of))

  imm_value-effect :
      (o : ImmOp) (rd rs1 imm a : ℕ)
      → imm < 2 ^ 12
      → IsIWord 0x13 rd (imm_code o) rs1 imm raw
      → imm_value raw a ≡ imm_effect o a imm
  unfolding imm_value bit_cast_i32
  imm_value-effect Isa.addi rd rs1 imm a h d =
      rw (d.funct3_of, read_i-extend raw d.fits, d.imm_of) (move-extend12 a imm h)
  imm_value-effect Isa.slti rd rs1 imm a h d =
      rw (d.funct3_of, (read_i_immediate-signed raw d.fits).1, d.imm_of) refl
  imm_value-effect Isa.sltiu rd rs1 imm a h d =
      rw (d.funct3_of, read_i-extend raw d.fits, d.imm_of, from_zero imm h)
  imm_value-effect Isa.xori rd rs1 imm a h d =
      rw (d.funct3_of, read_i-extend raw d.fits, d.imm_of, from_zero imm h)
  imm_value-effect Isa.ori rd rs1 imm a h d =
      rw (d.funct3_of, read_i-extend raw d.fits, d.imm_of, from_zero imm h)
  imm_value-effect Isa.andi rd rs1 imm a h d =
      rw (d.funct3_of, read_i-extend raw d.fits, d.imm_of, from_zero imm h)

  not_srli : (o : ImmOp) → imm_code o ≢ 5
  not_srli Isa.addi e = omega arith
  not_srli Isa.slti e = omega arith
  not_srli Isa.sltiu e = omega arith
  not_srli Isa.xori e = omega arith
  not_srli Isa.ori e = omega arith
  not_srli Isa.andi e = omega arith

  pub op_imm-word :
      (o : ImmOp) (rd rs1 imm : ℕ)
      → imm < 2 ^ 12
      → IsIWord 0x13 rd (imm_code o) rs1 imm raw
      → Refines cpu (Isa.op_imm o rd rs1 imm)
  unfolding exec exec_imm
  op_imm-word o rd rs1 imm h d =
      let ne : raw ≢ 0 = omega (arith, d.opcode_of) in
      writes rd (imm_value raw (read_register cpu rs1)) (imm_effect o (read_register cpu rs1) imm) f
        ne (dasm-op_imm raw cpu.pc ne d.opcode_of (λ e. not_srli o (sym d.funct3_of ∙ e)))
        (rw (d.opcode_of, d.rd_of, d.rs1_of))
        (imm_value-effect o rd rs1 imm (read_register cpu rs1) h d)

  slli-value :
      (rd rs1 shamt a : ℕ)
      → shamt < 32
      → IsIWord 0x13 rd 1 rs1 shamt raw
      → imm_value raw a ≡ a * 2 ^ shamt % 2 ^ 32
  unfolding imm_value
  slli-value rd rs1 shamt a h d =
      rw (d.funct3_of, read_shift_immediate_lem raw d.fits, d.imm_of, mod-eq_of_lt h)

  pub slli-word :
      (rd rs1 shamt : ℕ)
      → shamt < 32
      → IsIWord 0x13 rd 1 rs1 shamt raw
      → Refines cpu (Isa.slli rd rs1 shamt)
  unfolding exec exec_imm
  slli-word rd rs1 shamt h d =
      let ne : raw ≢ 0 = omega (arith, d.opcode_of) in
      writes rd (imm_value raw (read_register cpu rs1)) (read_register cpu rs1 * 2 ^ shamt % 2 ^ 32)
        f ne (dasm-op_imm raw cpu.pc ne d.opcode_of (λ e. omega (arith, sym d.funct3_of ∙ e)))
        (rw (d.opcode_of, d.rd_of, d.rs1_of)) (slli-value rd rs1 shamt (read_register cpu rs1) h d)

  pub or-word :
      (rd rs1 rs2 : ℕ) → IsRWord 0x33 rd 6 rs1 rs2 0 raw → Refines cpu (Isa.op Isa.or rd rs1 rs2)
  unfolding exec exec_op
  or-word rd rs1 rs2 d =
      let ne : raw ≢ 0 = omega (arith, d.opcode_of) in
      let v : ℕ = bit_or (read_register cpu rs1) (read_register cpu rs2) in
      writes rd v v f ne (dasm-op_op raw cpu.pc ne d.opcode_of)
        (rw (d.opcode_of, d.funct3_of, d.rd_of, d.rs1_of, d.rs2_of)) refl

  pub add-word :
      (rd rs1 rs2 : ℕ) → IsRWord 0x33 rd 0 rs1 rs2 0 raw → Refines cpu (Isa.op Isa.add rd rs1 rs2)
  unfolding exec exec_op
  add-word rd rs1 rs2 d =
      let ne : raw ≢ 0 = omega (arith, d.opcode_of) in
      let v : ℕ = add32 (read_register cpu rs1) (read_register cpu rs2) in
      writes rd v v f ne (dasm-op_op raw cpu.pc ne d.opcode_of)
        (rw (d.opcode_of, d.funct3_of, d.rd_of, d.rs1_of, d.rs2_of, d.funct7_of)) refl

  pub sub-word :
      (rd rs1 rs2 : ℕ)
      → IsValid cpu
      → IsRWord 0x33 rd 0 rs1 rs2 32 raw
      → Refines cpu (Isa.op Isa.sub rd rs1 rs2)
  unfolding exec exec_op
  sub-word rd rs1 rs2 valid d =
      let ne : raw ≢ 0 = omega (arith, d.opcode_of) in
      let a = read_register cpu rs1 in
      let b = read_register cpu rs2 in
      writes rd (add32 a (sub32 0 b)) ((a + 2 ^ 32 - b) % 2 ^ 32) f ne
        (dasm-op_op raw cpu.pc ne d.opcode_of)
        (rw (d.opcode_of, d.funct3_of, d.rd_of, d.rs1_of, d.rs2_of, d.funct7_of))
        (omega (arith, valid.registers_fit rs1, valid.registers_fit rs2))
