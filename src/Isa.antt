-- ===== src/Isa.antt =====
-- The part of RV32I that the interpreter carries out, after the specification that interpret.c and
-- insn.h cite: instructions with their operands, their encoding, and their effect on 32 registers,
-- a program counter and a byte memory. It stands apart from the C code, which it is to judge.
use Prim.Native.Nat.{bit_and, bit_or, bit_xor}
use rv32isam.Base.{
  ℕ, ◌+◌, ◌-◌, ◌*◌, ◌/◌, ◌%◌, ◌^◌, ◌<◌, ◌≡◌, Bool, not, ◌==◌, ltb, leb, if◌then◌else◌,
}
use rv32isam.Base.Word.{ℤ, pos, negsuc, signed}
use rv32isam.Base.Bytes.{update, store_u32}
use rv32isam.Base.Word.{lt_ℤ, bool_word}

pub data Condition : Type 0 where
  equal not_equal less_unsigned at_least_unsigned : Condition

pub data ImmOp : Type 0 where
  addi slti sltiu xori ori andi : ImmOp

pub data RegOp : Type 0 where
  add sub or : RegOp

-- Immediates are patterns of 12, 13, 20 or 21 bits.
pub data Instr : Type 0 where
  lui auipc : ℕ → ℕ → Instr
  jal : ℕ → ℕ → Instr
  jalr : ℕ → ℕ → ℕ → Instr
  branch : Condition → ℕ → ℕ → ℕ → Instr
  lbu : ℕ → ℕ → ℕ → Instr
  sb sw : ℕ → ℕ → ℕ → Instr
  op_imm : ImmOp → ℕ → ℕ → ℕ → Instr
  slli : ℕ → ℕ → ℕ → Instr
  op : RegOp → ℕ → ℕ → ℕ → Instr

-- The operands fit their fields, and jumps go to even distances.
abbrev pub Fits : Instr → Type 0
Fits (lui rd imm) = (rd < 32) × (imm < 2 ^ 20)
Fits (auipc rd imm) = (rd < 32) × (imm < 2 ^ 20)
Fits (jal rd imm) = (rd < 32) × (imm < 2 ^ 21) × (imm % 2 ≡ 0)
Fits (jalr rd rs1 imm) = (rd < 32) × (rs1 < 32) × (imm < 2 ^ 12)
Fits (branch c rs1 rs2 imm) = (rs1 < 32) × (rs2 < 32) × (imm < 2 ^ 13) × (imm % 2 ≡ 0)
Fits (lbu rd rs1 imm) = (rd < 32) × (rs1 < 32) × (imm < 2 ^ 12)
Fits (sb rs2 rs1 imm) = (rs2 < 32) × (rs1 < 32) × (imm < 2 ^ 12)
Fits (sw rs2 rs1 imm) = (rs2 < 32) × (rs1 < 32) × (imm < 2 ^ 12)
Fits (op_imm o rd rs1 imm) = (rd < 32) × (rs1 < 32) × (imm < 2 ^ 12)
Fits (slli rd rs1 shamt) = (rd < 32) × (rs1 < 32) × (shamt < 32)
Fits (op o rd rs1 rs2) = (rd < 32) × (rs1 < 32) × (rs2 < 32)

abbrev pub i_word : ℕ → ℕ → ℕ → ℕ → ℕ → ℕ
i_word opcode rd funct3 rs1 imm =
    opcode + rd * 2 ^ 7 + funct3 * 2 ^ 12 + rs1 * 2 ^ 15 + imm * 2 ^ 20

abbrev pub s_word : ℕ → ℕ → ℕ → ℕ → ℕ → ℕ
s_word opcode funct3 rs1 rs2 imm =
    opcode + imm % 32 * 2 ^ 7 + funct3 * 2 ^ 12 + rs1 * 2 ^ 15 + rs2 * 2 ^ 20 + imm / 32 * 2 ^ 25

-- From the top: imm[12], imm[10:5], rs2, rs1, funct3, imm[4:1], imm[11], opcode.
abbrev pub b_word : ℕ → ℕ → ℕ → ℕ → ℕ → ℕ
b_word opcode funct3 rs1 rs2 imm =
    opcode
    + imm / 2 ^ 11 % 2 * 2 ^ 7
    + imm / 2 % 16 * 2 ^ 8
    + funct3 * 2 ^ 12
    + rs1 * 2 ^ 15
    + rs2 * 2 ^ 20
    + imm / 32 % 64 * 2 ^ 25
    + imm / 2 ^ 12 * 2 ^ 31

abbrev pub u_word : ℕ → ℕ → ℕ → ℕ
u_word opcode rd imm = opcode + rd * 2 ^ 7 + imm * 2 ^ 12

-- From the top: imm[20], imm[10:1], imm[11], imm[19:12], rd, opcode.
abbrev pub j_word : ℕ → ℕ → ℕ → ℕ
j_word opcode rd imm =
    opcode
    + rd * 2 ^ 7
    + imm / 2 ^ 12 % 2 ^ 8 * 2 ^ 12
    + imm / 2 ^ 11 % 2 * 2 ^ 20
    + imm / 2 % 2 ^ 10 * 2 ^ 21
    + imm / 2 ^ 20 * 2 ^ 31

abbrev pub r_word : ℕ → ℕ → ℕ → ℕ → ℕ → ℕ → ℕ
r_word opcode rd funct3 rs1 rs2 funct7 =
    opcode + rd * 2 ^ 7 + funct3 * 2 ^ 12 + rs1 * 2 ^ 15 + rs2 * 2 ^ 20 + funct7 * 2 ^ 25

abbrev pub condition_code : Condition → ℕ
condition_code equal = 0
condition_code not_equal = 1
condition_code less_unsigned = 6
condition_code at_least_unsigned = 7

abbrev pub imm_code : ImmOp → ℕ
imm_code addi = 0
imm_code slti = 2
imm_code sltiu = 3
imm_code xori = 4
imm_code ori = 6
imm_code andi = 7

abbrev pub encode : Instr → ℕ
encode (lui rd imm) = u_word 0x37 rd imm
encode (auipc rd imm) = u_word 0x17 rd imm
encode (jal rd imm) = j_word 0x6f rd imm
encode (jalr rd rs1 imm) = i_word 0x67 rd 0 rs1 imm
encode (branch c rs1 rs2 imm) = b_word 0x63 (condition_code c) rs1 rs2 imm
encode (lbu rd rs1 imm) = i_word 0x03 rd 4 rs1 imm
encode (sb rs2 rs1 imm) = s_word 0x23 0 rs1 rs2 imm
encode (sw rs2 rs1 imm) = s_word 0x23 2 rs1 rs2 imm
encode (op_imm o rd rs1 imm) = i_word 0x13 rd (imm_code o) rs1 imm
encode (slli rd rs1 shamt) = i_word 0x13 rd 1 rs1 shamt
encode (op add rd rs1 rs2) = r_word 0x33 rd 0 rs1 rs2 0
encode (op sub rd rs1 rs2) = r_word 0x33 rd 0 rs1 rs2 32
encode (op or rd rs1 rs2) = r_word 0x33 rd 6 rs1 rs2 0

pub record Machine : Type 0 where
  pub x : ℕ → ℕ
  pub pc : ℕ
  pub mem : ℕ → ℕ

-- A word moved by an integer, modulo 2 ^ 32.
abbrev pub move : ℕ → ℤ → ℕ
move a (pos n) = (a + n) % 2 ^ 32
move a (negsuc n) = (a + (2 ^ 32 - 1 - n)) % 2 ^ 32

abbrev pub set_x : ℕ → ℕ → (ℕ → ℕ) → ℕ → ℕ
set_x rd v x j = if j == 0 then 0 else if j == rd then v else x j

abbrev pub holds : Condition → ℕ → ℕ → Bool
holds equal a b = a == b
holds not_equal a b = not (a == b)
holds less_unsigned a b = ltb a b
holds at_least_unsigned a b = leb b a

abbrev pub imm_effect : ImmOp → ℕ → ℕ → ℕ
imm_effect addi a imm = move a (signed 12 imm)
imm_effect slti a imm = bool_word (lt_ℤ (signed 32 a) (signed 12 imm))
imm_effect sltiu a imm = bool_word (ltb a (move 0 (signed 12 imm)))
imm_effect xori a imm = bit_xor a (move 0 (signed 12 imm))
imm_effect ori a imm = bit_or a (move 0 (signed 12 imm))
imm_effect andi a imm = bit_and a (move 0 (signed 12 imm))

abbrev pub op_effect : RegOp → ℕ → ℕ → ℕ
op_effect add a b = (a + b) % 2 ^ 32
op_effect sub a b = (a + 2 ^ 32 - b) % 2 ^ 32
op_effect or a b = bit_or a b

abbrev pub next : Machine → Machine
next m = record m { pc = (m.pc + 4) % 2 ^ 32 }

abbrev pub set : ℕ → ℕ → Machine → Machine
set rd v m = record m { x = set_x rd v m.x }

abbrev pub effect : Instr → Machine → Machine
effect (lui rd imm) m = next (set rd (imm * 2 ^ 12) m)
effect (auipc rd imm) m = next (set rd ((m.pc + imm * 2 ^ 12) % 2 ^ 32) m)
effect (jal rd imm) m = record (set rd ((m.pc + 4) % 2 ^ 32) m) { pc = move (m.pc) (signed 21 imm) }
effect (jalr rd rs1 imm) m = record (set rd ((m.pc + 4) % 2 ^ 32) m) {
  pc = move (m.x rs1) (signed 12 imm) / 2 * 2;
}
effect (branch c rs1 rs2 imm) m =
    if holds c (m.x rs1) (m.x rs2) then record m { pc = move (m.pc) (signed 13 imm) } else next m
effect (lbu rd rs1 imm) m = next (set rd (m.mem (move (m.x rs1) (signed 12 imm))) m)
effect (sb rs2 rs1 imm) m =
    next (record m { mem = update m.mem (move (m.x rs1) (signed 12 imm)) (m.x rs2 % 2 ^ 8) })
effect (sw rs2 rs1 imm) m =
    next (record m { mem = store_u32 m.mem (move (m.x rs1) (signed 12 imm)) (m.x rs2) })
effect (op_imm o rd rs1 imm) m = next (set rd (imm_effect o (m.x rs1) imm) m)
effect (slli rd rs1 shamt) m = next (set rd (m.x rs1 * 2 ^ shamt % 2 ^ 32) m)
effect (op o rd rs1 rs2) m = next (set rd (op_effect o (m.x rs1) (m.x rs2)) m)
