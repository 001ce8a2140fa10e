-- ===== src/Interpret/Exec/Refines/All.antt =====
-- All instructions together.
use rv32isam.Base.{◌+◌, ◌%◌, ◌^◌, ◌≤◌, ◌<◌, ◌≡◌, arith, true}
use rv32isam.Isa
use rv32isam.Isa.{
  Instr, Fits, encode, Machine, move, set_x, effect, ImmOp, imm_code, imm_effect, RegOp, op_effect,
  Condition, condition_code, holds, i_word, s_word, b_word, u_word, j_word, r_word,
}
use rv32isam.Interpret.State.{Cpu, writable_u8, writable_u32, readable_u8}
use rv32isam.Interpret.State.Valid.{IsValid}
use rv32isam.Interpret.Exec.Decode.{
  i_word-IsIWord, s_word-IsSWord, b_word-IsBWord, u_word-IsUWord, j_word-IsJWord, r_word-IsRWord,
}
use rv32isam.Interpret.Exec.Fetch.{Fetches}
use rv32isam.Interpret.Exec.Refines.{Refines}
use rv32isam.Interpret.Exec.Refines.Arithmetic.{
  lui-word, auipc-word, op_imm-word, slli-word, or-word, add-word, sub-word,
}
use rv32isam.Interpret.Exec.Refines.Memory.{IsSmall, address, lbu-word, sb-word, sw-word}
use rv32isam.Interpret.Exec.Refines.Jumps.{jal-word, jalr-word, branch-word}

code_lt : (c : Condition) → condition_code c < 8
code_lt Isa.equal = omega arith
code_lt Isa.not_equal = omega arith
code_lt Isa.less_unsigned = omega arith
code_lt Isa.at_least_unsigned = omega arith

imm_code_lt : (o : ImmOp) → imm_code o < 8
imm_code_lt Isa.addi = omega arith
imm_code_lt Isa.slti = omega arith
imm_code_lt Isa.sltiu = omega arith
imm_code_lt Isa.xori = omega arith
imm_code_lt Isa.ori = omega arith
imm_code_lt Isa.andi = omega arith

-- What the instruction asks of memory: a load of a readable byte, a store to writable bytes of it, and
-- a word at an address that is a multiple of 4.
abbrev pub MayAccess : Cpu → Instr → Type 0
MayAccess cpu (Isa.lbu rd rs1 imm) = readable_u8 cpu.memory (address cpu rs1 imm) ≡ true
MayAccess cpu (Isa.sb rs2 rs1 imm) = writable_u8 cpu.memory (address cpu rs1 imm) ≡ true
MayAccess cpu (Isa.sw rs2 rs1 imm) =
    (writable_u32 cpu.memory (address cpu rs1 imm) ≡ true)
    × ((cpu.memory.base + address cpu rs1 imm) % 4 ≡ 0)
MayAccess cpu _ = Unit

-- An image below 2 ^ 31 - 2 ^ 11 bytes, and below the end of the host's addresses.
pub record IsLoaded (cpu : Cpu) : Type 0 where
  pub small : IsSmall cpu
  pub on_host : cpu.memory.base + cpu.memory.size ≤ 2 ^ 64

-- In a valid state of a loaded image, a round that fetches the encoding of one of the instructions
-- of `Instr`, whose operands fit and which may make its memory access, goes on to the state that
-- the specification gives.
pub step-Refines :
    (cpu : Cpu) (i : Instr)
    → IsValid cpu
    → IsLoaded cpu
    → Fits i
    → Fetches cpu (encode i)
    → MayAccess cpu i
    → Refines cpu i
step-Refines cpu (Isa.lui rd imm) valid loaded fit f may =
    lui-word f rd imm (u_word-IsUWord 0x37 rd imm (omega arith) fit.0 fit.1)
step-Refines cpu (Isa.auipc rd imm) valid loaded fit f may =
    auipc-word f rd imm (u_word-IsUWord 0x17 rd imm (omega arith) fit.0 fit.1)
step-Refines cpu (Isa.jal rd imm) valid loaded fit f may =
    jal-word f rd imm fit.1 (j_word-IsJWord 0x6f rd imm (omega arith) fit.0 fit.1 fit.2)
step-Refines cpu (Isa.jalr rd rs1 imm) valid loaded fit f may =
    jalr-word f rd rs1 imm fit.2
      (i_word-IsIWord 0x67 rd 0 rs1 imm (omega arith) fit.0 (omega arith) fit.1 fit.2)
step-Refines cpu (Isa.branch c rs1 rs2 imm) valid loaded fit f may =
    branch-word f c rs1 rs2 imm fit.2 (
      b_word-IsBWord 0x63 (condition_code c) rs1 rs2 imm (omega arith) (code_lt c) fit.0 fit.1 fit.2
        fit.3)
step-Refines cpu (Isa.lbu rd rs1 imm) valid loaded fit f may =
    lbu-word valid loaded.small f rd rs1 imm fit.2
      (i_word-IsIWord 0x03 rd 4 rs1 imm (omega arith) fit.0 (omega arith) fit.1 fit.2) may
step-Refines cpu (Isa.sb rs2 rs1 imm) valid loaded fit f may =
    sb-word valid loaded.small f rs2 rs1 imm fit.2
      (s_word-IsSWord 0x23 0 rs1 rs2 imm (omega arith) (omega arith) fit.1 fit.0 fit.2) may
step-Refines cpu (Isa.sw rs2 rs1 imm) valid loaded fit f may =
    sw-word valid loaded.small f rs2 rs1 imm fit.2
      (s_word-IsSWord 0x23 2 rs1 rs2 imm (omega arith) (omega arith) fit.1 fit.0 fit.2)
      loaded.on_host may.1 may.0
step-Refines cpu (Isa.op_imm o rd rs1 imm) valid loaded fit f may =
    op_imm-word f o rd rs1 imm fit.2
      (i_word-IsIWord 0x13 rd (imm_code o) rs1 imm (omega arith) fit.0 (imm_code_lt o) fit.1 fit.2)
step-Refines cpu (Isa.slli rd rs1 shamt) valid loaded fit f may =
    slli-word f rd rs1 shamt fit.2
      (i_word-IsIWord 0x13 rd 1 rs1 shamt (omega arith) fit.0 (omega arith) fit.1 (omega arith))
step-Refines cpu (Isa.op Isa.add rd rs1 rs2) valid loaded fit f may =
    add-word f rd rs1 rs2 (
      r_word-IsRWord 0x33 rd 0 rs1 rs2 0 (omega arith) fit.0 (omega arith) fit.1 fit.2
        (omega arith))
step-Refines cpu (Isa.op Isa.sub rd rs1 rs2) valid loaded fit f may = sub-word f rd rs1 rs2 valid (
    r_word-IsRWord 0x33 rd 0 rs1 rs2 32 (omega arith) fit.0 (omega arith) fit.1 fit.2 (omega arith))
step-Refines cpu (Isa.op Isa.or rd rs1 rs2) valid loaded fit f may =
    or-word f rd rs1 rs2 (
      r_word-IsRWord 0x33 rd 6 rs1 rs2 0 (omega arith) fit.0 (omega arith) fit.1 fit.2
        (omega arith))
