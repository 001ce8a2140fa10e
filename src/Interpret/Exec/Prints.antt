-- ===== src/Interpret/Exec/Prints.antt =====
-- The disassembler on the encodings of the specification's instructions.
use rv32isam.Base.{ℕ, ◌<◌, ◌≢◌, arith}
use rv32isam.Isa
use rv32isam.Isa.{Instr, Fits, encode, Condition, condition_code, ImmOp, imm_code, RegOp}
use rv32isam.Rv.Dasm.{dasm}
use rv32isam.Rv.Dasm.Laws.{
  IsPrinted, dasm-op_jalr, dasm-op_jal, dasm-op_auipc, dasm-op_lui, dasm-lbu, dasm-op_imm,
  dasm-op_store, dasm-op_branch, dasm-op_op,
}
use rv32isam.Interpret.Exec.Decode.{
  i_word-IsIWord, s_word-IsSWord, b_word-IsBWord, u_word-IsUWord, j_word-IsJWord, r_word-IsRWord,
}

condition_code_cases :
    (c : Condition) → (condition_code c < 8) × (condition_code c ≢ 2) × (condition_code c ≢ 3)
condition_code_cases Isa.equal = omega arith
condition_code_cases Isa.not_equal = omega arith
condition_code_cases Isa.less_unsigned = omega arith
condition_code_cases Isa.at_least_unsigned = omega arith

imm_code_cases : (o : ImmOp) → (imm_code o < 8) × (imm_code o ≢ 5)
imm_code_cases Isa.addi = omega arith
imm_code_cases Isa.slti = omega arith
imm_code_cases Isa.sltiu = omega arith
imm_code_cases Isa.xori = omega arith
imm_code_cases Isa.ori = omega arith
imm_code_cases Isa.andi = omega arith

-- Every instruction of `Instr` whose operands fit is printed, at any offset: the disassembler neither
-- aborts nor reads a table at an entry that it lacks.
pub dasm-encode : (i : Instr) (offset : ℕ) → Fits i → IsPrinted (dasm (encode i) offset)
dasm-encode (Isa.lui rd imm) offset fit =
    let d = u_word-IsUWord 0x37 rd imm (omega arith) fit.0 fit.1 in
    dasm-op_lui _ offset (omega arith) d.opcode_of
dasm-encode (Isa.auipc rd imm) offset fit =
    let d = u_word-IsUWord 0x17 rd imm (omega arith) fit.0 fit.1 in
    dasm-op_auipc _ offset (omega arith) d.opcode_of
dasm-encode (Isa.jal rd imm) offset fit =
    let d = j_word-IsJWord 0x6f rd imm (omega arith) fit.0 fit.1 fit.2 in
    dasm-op_jal _ offset (omega arith) d.opcode_of
dasm-encode (Isa.jalr rd rs1 imm) offset fit =
    let d = i_word-IsIWord 0x67 rd 0 rs1 imm (omega arith) fit.0 (omega arith) fit.1 fit.2 in
    dasm-op_jalr _ offset (omega arith) d.opcode_of
dasm-encode (Isa.branch c rs1 rs2 imm) offset fit =
    let k = condition_code_cases c in
    let d =
      b_word-IsBWord 0x63 (condition_code c) rs1 rs2 imm (omega arith) k.0 fit.0 fit.1 fit.2
        fit.3 in
    dasm-op_branch _ offset (omega arith) d.opcode_of (rw d.funct3_of k.1) (rw d.funct3_of k.2)
dasm-encode (Isa.lbu rd rs1 imm) offset fit =
    let d = i_word-IsIWord 0x03 rd 4 rs1 imm (omega arith) fit.0 (omega arith) fit.1 fit.2 in
    dasm-lbu _ offset (omega arith) d.opcode_of d.funct3_of
dasm-encode (Isa.sb rs2 rs1 imm) offset fit =
    let d = s_word-IsSWord 0x23 0 rs1 rs2 imm (omega arith) (omega arith) fit.1 fit.0 fit.2 in
    dasm-op_store _ offset (omega arith) d.opcode_of (omega (arith, d.funct3_of))
dasm-encode (Isa.sw rs2 rs1 imm) offset fit =
    let d = s_word-IsSWord 0x23 2 rs1 rs2 imm (omega arith) (omega arith) fit.1 fit.0 fit.2 in
    dasm-op_store _ offset (omega arith) d.opcode_of (omega (arith, d.funct3_of))
dasm-encode (Isa.op_imm o rd rs1 imm) offset fit =
    let k = imm_code_cases o in
    let d = i_word-IsIWord 0x13 rd (imm_code o) rs1 imm (omega arith) fit.0 k.0 fit.1 fit.2 in
    dasm-op_imm _ offset (omega arith) d.opcode_of (rw d.funct3_of k.1)
dasm-encode (Isa.slli rd rs1 shamt) offset fit =
    let d =
      i_word-IsIWord 0x13 rd 1 rs1 shamt (omega arith) fit.0 (omega arith) fit.1 (omega arith) in
    dasm-op_imm _ offset (omega arith) d.opcode_of (omega (arith, d.funct3_of))
dasm-encode (Isa.op Isa.add rd rs1 rs2) offset fit =
    let d =
      r_word-IsRWord 0x33 rd 0 rs1 rs2 0 (omega arith) fit.0 (omega arith) fit.1 fit.2
        (omega arith) in
    dasm-op_op _ offset (omega arith) d.opcode_of
dasm-encode (Isa.op Isa.sub rd rs1 rs2) offset fit =
    let d =
      r_word-IsRWord 0x33 rd 0 rs1 rs2 32 (omega arith) fit.0 (omega arith) fit.1 fit.2
        (omega arith) in
    dasm-op_op _ offset (omega arith) d.opcode_of
dasm-encode (Isa.op Isa.or rd rs1 rs2) offset fit =
    let d =
      r_word-IsRWord 0x33 rd 6 rs1 rs2 0 (omega arith) fit.0 (omega arith) fit.1 fit.2
        (omega arith) in
    dasm-op_op _ offset (omega arith) d.opcode_of
