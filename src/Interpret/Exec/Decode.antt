-- ===== src/Interpret/Exec/Decode.antt =====
-- The bit-fields of `union insn` read back what the specification's encodings put together.
use rv32isam.Base.{ℕ, ◌+◌, ◌-◌, ◌/◌, ◌%◌, ◌^◌, ◌<◌, ◌≡◌, arith}
use rv32isam.Base.Word.{IsU32, signed, sext64}
use rv32isam.Isa.{i_word, s_word, b_word, u_word, j_word, r_word, move}
use rv32isam.Rv.Insn.{get, unknown, r_format, i_format, s_format, b_format, u_format, j_format}
use rv32isam.Rv.Immediate.Value.{extend, b_immediate, j_immediate}

-- A word of the I format with these fields.
pub record IsIWord (opcode rd funct3 rs1 imm raw : ℕ) : Type 0 where
  pub opcode_of : get unknown.opcode raw ≡ opcode
  pub rd_of : get i_format.rd raw ≡ rd
  pub funct3_of : get i_format.funct3 raw ≡ funct3
  pub rs1_of : get i_format.rs1 raw ≡ rs1
  pub imm_of : get i_format.imm_11_0 raw ≡ imm
  pub fits : IsU32 raw

pub i_word-IsIWord :
    (opcode rd funct3 rs1 imm : ℕ)
    → opcode < 2 ^ 7
    → rd < 32
    → funct3 < 8
    → rs1 < 32
    → imm < 2 ^ 12
    → IsIWord opcode rd funct3 rs1 imm (i_word opcode rd funct3 rs1 imm)
i_word-IsIWord opcode rd funct3 rs1 imm a b c d e = omega arith

pub record IsSWord (opcode funct3 rs1 rs2 imm raw : ℕ) : Type 0 where
  pub opcode_of : get unknown.opcode raw ≡ opcode
  pub funct3_of : get s_format.funct3 raw ≡ funct3
  pub rs1_of : get s_format.rs1 raw ≡ rs1
  pub rs2_of : get s_format.rs2 raw ≡ rs2
  pub low_of : get s_format.imm_4_0 raw ≡ imm % 32
  pub high_of : get s_format.imm_11_5 raw ≡ imm / 32
  pub fits : IsU32 raw

pub s_word-IsSWord :
    (opcode funct3 rs1 rs2 imm : ℕ)
    → opcode < 2 ^ 7
    → funct3 < 8
    → rs1 < 32
    → rs2 < 32
    → imm < 2 ^ 12
    → IsSWord opcode funct3 rs1 rs2 imm (s_word opcode funct3 rs1 rs2 imm)
s_word-IsSWord opcode funct3 rs1 rs2 imm a b c d e = omega arith

pub record IsBWord (opcode funct3 rs1 rs2 imm raw : ℕ) : Type 0 where
  pub opcode_of : get unknown.opcode raw ≡ opcode
  pub funct3_of : get b_format.funct3 raw ≡ funct3
  pub rs1_of : get b_format.rs1 raw ≡ rs1
  pub rs2_of : get b_format.rs2 raw ≡ rs2
  pub imm_of : b_immediate raw ≡ imm
  pub fits : IsU32 raw

pub b_word-IsBWord :
    (opcode funct3 rs1 rs2 imm : ℕ)
    → opcode < 2 ^ 7
    → funct3 < 8
    → rs1 < 32
    → rs2 < 32
    → imm < 2 ^ 13
    → imm % 2 ≡ 0
    → IsBWord opcode funct3 rs1 rs2 imm (b_word opcode funct3 rs1 rs2 imm)
b_word-IsBWord opcode funct3 rs1 rs2 imm a b c d e f = omega arith

pub record IsUWord (opcode rd imm raw : ℕ) : Type 0 where
  pub opcode_of : get unknown.opcode raw ≡ opcode
  pub rd_of : get u_format.rd raw ≡ rd
  pub imm_of : get u_format.imm_31_12 raw ≡ imm
  pub fits : IsU32 raw

pub u_word-IsUWord :
    (opcode rd imm : ℕ)
    → opcode < 2 ^ 7
    → rd < 32
    → imm < 2 ^ 20
    → IsUWord opcode rd imm (u_word opcode rd imm)
u_word-IsUWord opcode rd imm a b c = omega arith

pub record IsJWord (opcode rd imm raw : ℕ) : Type 0 where
  pub opcode_of : get unknown.opcode raw ≡ opcode
  pub rd_of : get j_format.rd raw ≡ rd
  pub imm_of : j_immediate raw ≡ imm
  pub fits : IsU32 raw

pub j_word-IsJWord :
    (opcode rd imm : ℕ)
    → opcode < 2 ^ 7
    → rd < 32
    → imm < 2 ^ 21
    → imm % 2 ≡ 0
    → IsJWord opcode rd imm (j_word opcode rd imm)
j_word-IsJWord opcode rd imm a b c d = omega arith

pub record IsRWord (opcode rd funct3 rs1 rs2 funct7 raw : ℕ) : Type 0 where
  pub opcode_of : get unknown.opcode raw ≡ opcode
  pub rd_of : get r_format.rd raw ≡ rd
  pub funct3_of : get r_format.funct3 raw ≡ funct3
  pub rs1_of : get r_format.rs1 raw ≡ rs1
  pub rs2_of : get r_format.rs2 raw ≡ rs2
  pub funct7_of : get r_format.funct7 raw ≡ funct7
  pub fits : IsU32 raw

pub r_word-IsRWord :
    (opcode rd funct3 rs1 rs2 funct7 : ℕ)
    → opcode < 2 ^ 7
    → rd < 32
    → funct3 < 8
    → rs1 < 32
    → rs2 < 32
    → funct7 < 2 ^ 7
    → IsRWord opcode rd funct3 rs1 rs2 funct7 (r_word opcode rd funct3 rs1 rs2 funct7)
r_word-IsRWord opcode rd funct3 rs1 rs2 funct7 a b c d e f = omega arith

-- Adding an extended pattern moves a word by the integer that the pattern stands for.
pub move-extend12 :
    (a imm : ℕ) → imm < 2 ^ 12 → (a + extend 12 imm) % 2 ^ 32 ≡ move a (signed 12 imm)
move-extend12 a imm h = ground arith

pub move-extend13 :
    (a imm : ℕ) → imm < 2 ^ 13 → (a + extend 13 imm) % 2 ^ 32 ≡ move a (signed 13 imm)
move-extend13 a imm h = ground arith

pub move-extend21 :
    (a imm : ℕ) → imm < 2 ^ 21 → (a + extend 21 imm) % 2 ^ 32 ≡ move a (signed 21 imm)
move-extend21 a imm h = ground arith

-- The interpreter's 64-bit address is the 32-bit one of the specification, where that lies below
-- 2 ^ 31 - 2 ^ 11.
pub location-move :
    (a imm : ℕ)
    → IsU32 a
    → imm < 2 ^ 12
    → move a (signed 12 imm) < 2 ^ 31 - 2 ^ 11
    → (sext64 a + sext64 (extend 12 imm)) % 2 ^ 64 ≡ move a (signed 12 imm)
location-move a imm ha hi h = ground arith
