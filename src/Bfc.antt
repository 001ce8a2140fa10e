-- ===== src/Bfc.antt =====
-- bfc.c: the assembler of the brainfuck compiler (`asm_*`, `patch_beq`), which writes the bit-fields
-- of `union insn` in place, over whatever the memory held, and the code for one input character.
-- A negative `i16` or `i32` argument is given by its pattern.
pub mod Laws
pub mod Compile
pub mod Names
pub mod Headers
pub mod Emit
pub mod Main
pub mod Tape
use rv32isam.Base.{ℕ, ◌+◌, ◌-◌, ◌/◌, ◌%◌, ◌^◌, ltb, if◌then◌else◌}
use rv32isam.Base.Word.{set_field}
use rv32isam.Base.Bytes.{load_u32, store_u32}
use rv32isam.Rv.Insn.{put, unknown, r_format, i_format, s_format, b_format, u_format}
use rv32isam.Rv.Opcode.{op_branch, op_load, op_store, op_imm, op_lui, op_system}
use rv32isam.Rv.Funct.{branch_func_beq, load_func_lbu, store_func_sb, imm_func_addi}
use rv32isam.Rv.Reg.{rv_zero}
use rv32isam.Out.{Out, out_resv_index, out_write_u32le}

-- `i16` arithmetic shift.
abbrev pub sar16 : ℕ → ℕ → ℕ
sar16 v k = if ltb v (2 ^ 15) then v / 2 ^ k else (v + 2 ^ 32 - 2 ^ 16) / 2 ^ k

-- The assignments to the instruction word at offset `index`.
abbrev pub edit : (ℕ → ℕ) → ℕ → Out → Out
edit fields index out = record out {
  bytes = store_u32 out.bytes index (fields (load_u32 out.bytes index));
}

-- The target of the branch is left as it was, for `patch_beq` to fill in.
abbrev pub beq_fields : ℕ → ℕ → ℕ → ℕ
beq_fields rs1 rs2 beq =
    put b_format.rs2 rs2 (
      put b_format.rs1 rs1
        (put b_format.funct3 branch_func_beq (put b_format.opcode op_branch beq)))

abbrev pub target_fields : ℕ → ℕ → ℕ
target_fields offset beq = put b_format.imm_12 (sar16 offset 12) (
    put b_format.imm_11 (sar16 offset 11)
      (put b_format.imm_10_5 (sar16 offset 5) (put b_format.imm_4_1 (sar16 offset 1) beq)))

abbrev pub lbu_fields : ℕ → ℕ → ℕ → ℕ → ℕ
lbu_fields base dest offset lbu = put i_format.imm_11_0 offset (
    put i_format.rd dest
      (put i_format.rs1 base (put i_format.funct3 load_func_lbu (put i_format.opcode op_load lbu))))

abbrev pub sb_fields : ℕ → ℕ → ℕ → ℕ → ℕ
sb_fields base src offset sbu = put s_format.opcode op_store (
    put s_format.funct3 store_func_sb (
      put s_format.imm_4_0 (offset / 2 ^ 5 % 2 ^ 7) (
        put s_format.imm_11_5 (offset % 2 ^ 5) (put s_format.rs1 base (put s_format.rs2 src sbu)))))

abbrev pub addi_fields : ℕ → ℕ → ℕ → ℕ → ℕ
addi_fields dest a imm addi = put i_format.imm_11_0 imm (
    put i_format.rs1 a
      (put i_format.rd dest (put i_format.funct3 imm_func_addi (put i_format.opcode op_imm addi))))

abbrev pub lui_fields : ℕ → ℕ → ℕ → ℕ
lui_fields dest imm_20 lui =
    put u_format.imm_31_12 imm_20 (put u_format.rd dest (put u_format.opcode op_lui lui))

-- The fields of the local `struct _or` lie where those of the R format do.
abbrev pub or_fields : ℕ → ℕ → ℕ → ℕ → ℕ
or_fields dest a b insn = put r_format.rs2 b (
    put r_format.rs1 a (
      put r_format.rd dest
        (put r_format.funct7 0 (put r_format.funct3 0b110 (put r_format.opcode 0b0110011 insn)))))

-- The local `struct jal`: `tag : 7; rd : 5; offset : 20`. `-dist_from_chk` is an `int`.
abbrev pub set_jal : ℕ → ℕ → ℕ
set_jal dist_from_chk jal =
    set_field 12 20
      (if ltb dist_from_chk (2 ^ 15) then 2 ^ 32 - dist_from_chk else 2 ^ 16 - dist_from_chk)
      (set_field 7 5 rv_zero (set_field 0 7 0b1101111 jal))

-- The word at offset `index` of the array.
pub patch_beq : Out → ℕ → ℕ → Out
patch_beq out index offset = edit (target_fields offset) index out

module _ (clz_of_zero : ℕ) where
  -- `*insn = out_resv(out, 4)` and the assignments to `insn`.
  abbrev pub emit : (ℕ → ℕ) → Out → Out
  emit fields out = edit fields out.len (out_resv_index clz_of_zero out 4)

  pub asm_empty_beq : Out → ℕ → ℕ → Out
  asm_empty_beq out rs1 rs2 = emit (beq_fields rs1 rs2) out

  pub asm_lbu : Out → ℕ → ℕ → ℕ → Out
  asm_lbu out base dest offset = emit (lbu_fields base dest offset) out

  pub asm_sb : Out → ℕ → ℕ → ℕ → Out
  asm_sb out base src offset = emit (sb_fields base src offset) out

  pub asm_addi : Out → ℕ → ℕ → ℕ → Out
  asm_addi out dest a imm = emit (addi_fields dest a imm) out

  pub asm_lui : Out → ℕ → ℕ → Out
  asm_lui out dest imm_20 = emit (lui_fields dest imm_20) out

  pub asm_or : Out → ℕ → ℕ → ℕ → Out
  asm_or out dest a b = emit (or_fields dest a b) out

  -- A whole word at once: every other field is 0.
  pub asm_ecall : Out → Out
  asm_ecall out = out_write_u32le clz_of_zero out (put unknown.opcode op_system 0)
