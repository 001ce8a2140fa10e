-- ===== src/Rv/Insn.antt =====
-- rv/insn.h: the bit-fields of `union insn`, and the constants that the other parts use.
use rv32isam.Base.{ℕ}
use rv32isam.Base.Word.{field, set_field}

-- A bit-field: its lowest bit and its number of bits.
pub record BitField : Type 0 where
  pub low : ℕ
  pub width : ℕ

abbrev pub bits : ℕ → ℕ → BitField
bits low width = record { low = low; width = width }

-- `raw.f` and `raw.f = v`.
abbrev pub get : BitField → ℕ → ℕ
get f raw = field f.low f.width raw

abbrev pub put : BitField → ℕ → ℕ → ℕ
put f v raw = set_field f.low f.width v raw

-- The members of `union insn`.
pub record Unknown : Type 0 where
  pub opcode : BitField
  pub unk_rest : BitField

pub record RFormat : Type 0 where
  pub opcode : BitField
  pub rd : BitField
  pub funct3 : BitField
  pub rs1 : BitField
  pub rs2 : BitField
  pub funct7 : BitField

pub record IFormat : Type 0 where
  pub opcode : BitField
  pub rd : BitField
  pub funct3 : BitField
  pub rs1 : BitField
  pub imm_11_0 : BitField

pub record SFormat : Type 0 where
  pub opcode : BitField
  pub imm_4_0 : BitField
  pub funct3 : BitField
  pub rs1 : BitField
  pub rs2 : BitField
  pub imm_11_5 : BitField

pub record BFormat : Type 0 where
  pub opcode : BitField
  pub imm_11 : BitField
  pub imm_4_1 : BitField
  pub funct3 : BitField
  pub rs1 : BitField
  pub rs2 : BitField
  pub imm_10_5 : BitField
  pub imm_12 : BitField

pub record UFormat : Type 0 where
  pub opcode : BitField
  pub rd : BitField
  pub imm_31_12 : BitField

pub record JFormat : Type 0 where
  pub opcode : BitField
  pub rd : BitField
  pub imm_19_12 : BitField
  pub imm_11 : BitField
  pub imm_10_1 : BitField
  pub imm_20 : BitField

abbrev pub unknown : Unknown
unknown = record { opcode = bits 0 7; unk_rest = bits 7 25 }

abbrev pub r_format : RFormat
r_format = record {
  opcode = bits 0 7;
  rd = bits 7 5;
  funct3 = bits 12 3;
  rs1 = bits 15 5;
  rs2 = bits 20 5;
  funct7 = bits 25 7;
}

abbrev pub i_format : IFormat
i_format = record {
  opcode = bits 0 7;
  rd = bits 7 5;
  funct3 = bits 12 3;
  rs1 = bits 15 5;
  imm_11_0 = bits 20 12;
}

abbrev pub s_format : SFormat
s_format = record {
  opcode = bits 0 7;
  imm_4_0 = bits 7 5;
  funct3 = bits 12 3;
  rs1 = bits 15 5;
  rs2 = bits 20 5;
  imm_11_5 = bits 25 7;
}

abbrev pub b_format : BFormat
b_format = record {
  opcode = bits 0 7;
  imm_11 = bits 7 1;
  imm_4_1 = bits 8 4;
  funct3 = bits 12 3;
  rs1 = bits 15 5;
  rs2 = bits 20 5;
  imm_10_5 = bits 25 6;
  imm_12 = bits 31 1;
}

abbrev pub u_format : UFormat
u_format = record { opcode = bits 0 7; rd = bits 7 5; imm_31_12 = bits 12 20 }

abbrev pub j_format : JFormat
j_format = record {
  opcode = bits 0 7;
  rd = bits 7 5;
  imm_19_12 = bits 12 8;
  imm_11 = bits 20 1;
  imm_10_1 = bits 21 10;
  imm_20 = bits 31 1;
}
