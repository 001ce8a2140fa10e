-- ===== src/Rv/Dasm.antt =====
-- rv/dasm.c: the text of one instruction, as the pieces that `fprintf` and `fputs` are given.
-- `%s` prints a text, `%x` a word in hexadecimal, `%d` an `int32_t` in decimal.
pub mod Laws
use Prim.Native.String.{String}
use rv32isam.Base.{ℕ, zero, ◌^◌, Bool, true, false, ◌==◌, ltb, if◌then◌else◌, not, ◌||◌}
use rv32isam.Base.{Option, none, some, List, [], ◌∷◌}
use rv32isam.Base.Lists.{get_elem?}
use rv32isam.Base.Word.{ℤ, signed, add32}
use rv32isam.Rv.Insn.{get, unknown, r_format, i_format, s_format, b_format, u_format, j_format}
use rv32isam.Rv.Opcode.{
  op_load, op_load_fp, op_custom_0, op_misc_mem, op_imm, op_auipc, op_imm_32, op_store, op_store_fp,
  op_custom_1, op_amo, op_op, op_lui, op_op_32, op_madd, op_msub, op_nmsub, op_nmadd, op_fp,
  op_custom2_rv128, op_branch, op_jalr, op_jal, op_system, op_custom3_rv128,
}
use rv32isam.Rv.Funct.{imm_func_slli, imm_func_srli, ecall_ecall, ecall_ebreak}
use rv32isam.Rv.Immediate.{
  bit_cast_i32, make_positive, read_upper_immediate, read_j_immediate, read_b_immediate,
  read_s_immediate, read_i_immediate, read_shift_immediate,
}

pub data Piece : Type 0 where
  str : String → Piece
  hex : ℕ → Piece
  dec : ℤ → Piece

-- `aborted`: an `assert` failed. `undefined`: a table was read beyond its end, or at an entry that
-- it leaves null, which `%s` must not be given.
pub data Disassembly : Type 0 where
  printed : List Piece → Disassembly
  aborted undefined : Disassembly

-- The tables of names: `none` for a null entry.
pub abi_reg_names : List (Option String)
abi_reg_names =
    some "zero"
    ∷ some "ra"
    ∷ some "sp"
    ∷ some "gp"
    ∷ some "tp"
    ∷ some "t0"
    ∷ some "t1"
    ∷ some "t2"
    ∷ some "s0"
    ∷ some "s1"
    ∷ some "a0"
    ∷ some "a1"
    ∷ some "a2"
    ∷ some "a3"
    ∷ some "a4"
    ∷ some "a5"
    ∷ some "a6"
    ∷ some "a7"
    ∷ some "s2"
    ∷ some "s3"
    ∷ some "s4"
    ∷ some "s5"
    ∷ some "s6"
    ∷ some "s7"
    ∷ some "s8"
    ∷ some "s9"
    ∷ some "s10"
    ∷ some "s11"
    ∷ some "t3"
    ∷ some "t4"
    ∷ some "t5"
    ∷ some "t6"
    ∷ []

pub func_names : List (Option String)
func_names = some "lb" ∷ some "lh" ∷ some "lw" ∷ none ∷ some "lbu" ∷ some "lhu" ∷ []

pub branch_names : List (Option String)
branch_names =
    some "beq" ∷ some "bne" ∷ none ∷ none ∷ some "blt" ∷ some "bge" ∷ some "bltu" ∷ some "bgeu" ∷ []

pub imm_names : List (Option String)
imm_names =
    some "addi"
    ∷ some "slli"
    ∷ some "slti"
    ∷ some "sltiu"
    ∷ some "xori"
    ∷ some "srli"
    ∷ some "ori"
    ∷ some "andi"
    ∷ []

pub modes : List (Option String)
modes = some "sb" ∷ some "sh" ∷ some "sw" ∷ []

-- The two columns of `inames`.
pub inames : Bool → List (Option String)
inames false =
    some "add"
    ∷ some "sll"
    ∷ some "slt"
    ∷ some "sltu"
    ∷ some "xor"
    ∷ some "srl"
    ∷ some "or"
    ∷ some "and"
    ∷ []
inames true =
    some "sub"
    ∷ some "sll"
    ∷ some "slt"
    ∷ some "sltu"
    ∷ some "xor"
    ∷ some "sra"
    ∷ some "or"
    ∷ some "and"
    ∷ []

-- A table's text at an index.
entry : List (Option String) → ℕ → Option Piece
entry table n = elim (get_elem? table n) [
  | none ↦ none
  | some name ↦ elim name [ none ↦ none | some s ↦ some (str s) ]
]

reg : ℕ → Option Piece
reg n = entry abi_reg_names n

text : String → Option Piece
text s = some (str s)

word : ℕ → Option Piece
word v = some (hex v)

prepend : Piece → Disassembly → Disassembly
prepend p (printed ps) = printed (p ∷ ps)
prepend p aborted = aborted
prepend p undefined = undefined

-- One call of `fprintf`, with the pieces of its format and its arguments in order.
fprintf : List (Option Piece) → Disassembly
fprintf [] = printed []
fprintf (none ∷ rest) = undefined
fprintf (some p ∷ rest) = prepend p (fprintf rest)

-- `imm < 0 ? "-" : ""` on an `int32_t`.
sign : ℕ → Option Piece
sign imm = if ltb imm (2 ^ 31) then some (str "") else some (str "-")

-- `case op_imm` of the switch.
dasm_imm : ℕ → Disassembly
dasm_imm raw =
    let imm = bit_cast_i32 (read_i_immediate raw) in
    let funct3 = get i_format.funct3 raw in
    let rd = get i_format.rd raw in
    let rs1 = get i_format.rs1 raw in
    if funct3 == imm_func_slli
    then fprintf (
        text "slli "
        ∷ reg rd
        ∷ text ", "
        ∷ reg rs1
        ∷ text ", 0x"
        ∷ word (read_shift_immediate raw)
        ∷ [])
    else if funct3 == imm_func_srli
    then aborted
    else fprintf (
        entry imm_names funct3
        ∷ text " "
        ∷ reg rd
        ∷ text ", "
        ∷ reg rs1
        ∷ text ", "
        ∷ sign imm
        ∷ text "0x"
        ∷ word (make_positive imm)
        ∷ [])

-- `case op_system` of the switch: no other immediate prints anything.
dasm_system : ℕ → Disassembly
dasm_system raw =
    let imm = get i_format.imm_11_0 raw in
    if imm == ecall_ecall
    then fprintf (text "ecall" ∷ [])
    else if imm == ecall_ebreak
    then fprintf (text "ebreak" ∷ [])
    else printed []

-- The opcodes whose case is the failing `assert` at the end of the switch.
is_todo : ℕ → Bool
is_todo op =
    op == op_load_fp
    || op == op_custom_0
    || op == op_misc_mem
    || op == op_imm_32
    || op == op_store_fp
    || op == op_custom_1
    || op == op_amo
    || op == op_op_32
    || op == op_madd
    || op == op_msub
    || op == op_nmsub
    || op == op_nmadd
    || op == op_fp
    || op == op_custom2_rv128
    || op == op_custom3_rv128

-- The switch over the opcode; a word of no listed opcode prints nothing.
dasm_switch : ℕ → ℕ → Disassembly
dasm_switch raw insn_offset =
    let op = get unknown.opcode raw in
    if op == op_jalr
    then (let imm = bit_cast_i32 (read_i_immediate raw) in
        fprintf (
          text "jalr "
          ∷ reg (get i_format.rd raw)
          ∷ text ", "
          ∷ sign imm
          ∷ text "0x"
          ∷ word (make_positive imm)
          ∷ text "("
          ∷ reg (get i_format.rs1 raw)
          ∷ text ")"
          ∷ []))
    else if op == op_jal
    then fprintf (
        text "jal "
        ∷ reg (get j_format.rd raw)
        ∷ text ", 0x"
        ∷ word (add32 insn_offset (bit_cast_i32 (read_j_immediate raw)))
        ∷ [])
    else if op == op_auipc
    then fprintf (
        text "auipc "
        ∷ reg (get u_format.rd raw)
        ∷ text ", 0x"
        ∷ word (read_upper_immediate raw)
        ∷ [])
    else if op == op_load
    then fprintf (
        entry func_names (get i_format.funct3 raw)
        ∷ text " "
        ∷ reg (get i_format.rd raw)
        ∷ text ", "
        ∷ some (dec (signed 32 (bit_cast_i32 (read_i_immediate raw))))
        ∷ text "("
        ∷ reg (get i_format.rs1 raw)
        ∷ text ")"
        ∷ [])
    else if op == op_branch
    then (let imm = bit_cast_i32 (read_b_immediate raw) in
        fprintf (
          entry branch_names (get b_format.funct3 raw)
          ∷ text " "
          ∷ reg (get b_format.rs1 raw)
          ∷ text ", "
          ∷ reg (get b_format.rs2 raw)
          ∷ text ", 0x"
          ∷ word (add32 insn_offset imm)
          ∷ []))
    else if op == op_lui
    then fprintf (
        text "lui "
        ∷ reg (get u_format.rd raw)
        ∷ text ", "
        ∷ word (get u_format.imm_31_12 raw)
        ∷ [])
    else if op == op_imm
    then dasm_imm raw
    else if op == op_store
    then (let imm = bit_cast_i32 (read_s_immediate raw) in
        fprintf (
          entry modes (get s_format.funct3 raw)
          ∷ text " "
          ∷ reg (get s_format.rs2 raw)
          ∷ text ", "
          ∷ text "-"
          ∷ text "0x"
          ∷ word imm
          ∷ text "("
          ∷ reg (get s_format.rs1 raw)
          ∷ text ")"
          ∷ []))
    else if op == op_op
    then (let has_funct7 = not (get r_format.funct7 raw == 0) in
        fprintf (
          entry (inames has_funct7) (get r_format.funct3 raw)
          ∷ text " "
          ∷ reg (get r_format.rd raw)
          ∷ text ", "
          ∷ reg (get r_format.rs1 raw)
          ∷ text ", "
          ∷ reg (get r_format.rs2 raw)
          ∷ []))
    else if op == op_system
    then dasm_system raw
    else if is_todo op
    then aborted
    else printed []

unfoldable pub dasm : ℕ → ℕ → Disassembly
unfolding dasm_switch dasm_imm dasm_system is_todo fprintf prepend entry reg text word sign
    abi_reg_names func_names branch_names imm_names modes inames
dasm raw insn_offset =
    if raw == 0
    then prepend (str "<illegal>") (dasm_switch raw insn_offset)
    else dasm_switch raw insn_offset
