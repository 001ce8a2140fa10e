-- ===== src/Interpret/Exec.antt =====
-- One round of the loop of `interpret`: the checks, the disassembler, and the switch.
pub mod Prints
pub mod Values
pub mod Valid
pub mod Frame
pub mod Fetch
pub mod Decode
pub mod Refines
use Prim.Native.Nat.{bit_and, bit_or, bit_xor}
use rv32isam.Base.{ℕ, ◌+◌, ◌-◌, ◌%◌, ◌^◌, Bool, ltb, leb, ◌==◌}
use rv32isam.Base.{◌||◌, not, if◌then◌else◌}
use rv32isam.Base.Word.{u8, add32, sub32, not32, shl32, shr, sext64, signed, lt_ℤ, bool_word}
use rv32isam.Rv.Insn.{get, unknown, r_format, i_format, s_format, b_format, u_format, j_format}
use rv32isam.Rv.Opcode.{
  op_load, op_load_fp, op_custom_0, op_misc_mem, op_imm, op_auipc, op_imm_32, op_store, op_store_fp,
  op_custom_1, op_amo, op_op, op_lui, op_op_32, op_madd, op_msub, op_nmsub, op_nmadd, op_fp,
  op_custom2_rv128, op_branch, op_jalr, op_jal, op_system, op_custom3_rv128,
}
use rv32isam.Rv.Funct.{
  store_func_sb, store_func_sh, store_func_sw, branch_func_beq, branch_func_bne, branch_func_blt,
  branch_func_bge, branch_func_bltu, branch_func_bgeu, load_func_lb, load_func_lh, load_func_lw,
  load_func_lbu, load_func_lhu, imm_func_addi, imm_func_slti, imm_func_sltiu, imm_func_xori,
  imm_func_ori, imm_func_andi, imm_func_slli, op_funct3_add, op_funct3_or, op_funct7_sub,
}
use rv32isam.Rv.Immediate.{
  bit_cast_i32, sext32_imm12, read_upper_immediate, read_j_immediate, read_b_immediate,
  read_i_immediate, read_shift_immediate,
}
use rv32isam.Rv.Dasm
use rv32isam.Rv.Dasm.{dasm}
use rv32isam.Interpret.State.{
  Cpu, Outcome, running, aborted, trapped, undefined, write_register, read_register, readable_u8,
  readable_u32, at_writable_u8, at_writable_u32, set_bytes,
}
use rv32isam.Base.Bytes.{load_u32, store_u32, update}

-- `case imm_func_srli`: `(~(u32)top_bit + 1) << (31 - shift_count)` joined to the logical shift.
pub shift_right : ℕ → ℕ → ℕ
shift_right raw src =
    let imm = read_i_immediate raw in
    let shift_count = u8 (read_shift_immediate raw) in
    let is_srai = bit_and (shr imm 12) 1 in
    let top_bit = bit_and (shr src 31) is_srai in
    let bit_addend = shl32 (add32 (not32 top_bit) 1) (31 - shift_count) in
    bit_or (shr src shift_count) bit_addend

-- The value that `case op_imm` writes to the register. The addition is on `int32_t`, and is taken
-- to wrap where C leaves its overflow open.
pub imm_value : ℕ → ℕ → ℕ
imm_value raw x =
    let funct3 = get i_format.funct3 raw in
    let imm = read_i_immediate raw in
    if funct3 == imm_func_addi
    then add32 (bit_cast_i32 x) (bit_cast_i32 imm)
    else if funct3 == imm_func_slti
    then bool_word (lt_ℤ (signed 32 (bit_cast_i32 x)) (signed 32 (bit_cast_i32 imm)))
    else if funct3 == imm_func_sltiu
    then bool_word (ltb x imm)
    else if funct3 == imm_func_xori
    then bit_xor x imm
    else if funct3 == imm_func_ori
    then bit_or x imm
    else if funct3 == imm_func_andi
    then bit_and x imm
    else if funct3 == imm_func_slli
    then shl32 x (read_shift_immediate raw)
    else shift_right raw x

pub exec_imm : ℕ → Cpu → Outcome
exec_imm raw cpu = running (
    write_register cpu (get i_format.rd raw)
      (imm_value raw (read_register cpu (get i_format.rs1 raw))))

-- Both pointer additions are made on 64-bit addresses, with the operands' signs.
pub load_location : ℕ → Cpu → ℕ
load_location raw cpu =
    let offset = bit_cast_i32 (read_register cpu (get i_format.rs1 raw)) in
    (sext64 offset + sext64 (sext32_imm12 (get i_format.imm_11_0 raw))) % 2 ^ 64

pub exec_load : ℕ → Cpu → Outcome
exec_load raw cpu =
    let funct3 = get i_format.funct3 raw in
    let mem_loc = load_location raw cpu in
    if funct3 == load_func_lbu
    then (if readable_u8 cpu.memory mem_loc
        then running (write_register cpu (get i_format.rd raw) (cpu.memory.bytes mem_loc))
        else undefined)
    else if funct3 == load_func_lb
        || funct3 == load_func_lh
        || funct3 == load_func_lw
        || funct3 == load_func_lhu
    then aborted
    else running cpu

-- `sext32_imm12` takes a `u16`, and the shift is on `u32`.
pub store_location : ℕ → Cpu → ℕ
store_location raw cpu =
    let offset =
      sext32_imm12 (bit_or (get s_format.imm_4_0 raw) (shl32 (get s_format.imm_11_5 raw) 5)) in
    (sext64 offset + sext64 (bit_cast_i32 (read_register cpu (get s_format.rs1 raw)))) % 2 ^ 64

-- The code stores without a test of its own; the system checks the page's protection.
pub store_byte : Cpu → ℕ → ℕ → Outcome
store_byte cpu a v = at_writable_u8 cpu.memory a (set_bytes cpu (update cpu.memory.bytes a (u8 v)))

pub store_word : Cpu → ℕ → ℕ → Outcome
store_word cpu a v = at_writable_u32 cpu.memory a (set_bytes cpu (store_u32 cpu.memory.bytes a v))

pub exec_store : ℕ → Cpu → Outcome
exec_store raw cpu =
    let funct3 = get s_format.funct3 raw in
    let mem_loc = store_location raw cpu in
    let value = read_register cpu (get s_format.rs2 raw) in
    if funct3 == store_func_sb
    then store_byte cpu mem_loc value
    else if funct3 == store_func_sw
    then (if (cpu.memory.base + mem_loc) % 2 ^ 64 % 4 == 0
        then store_word cpu mem_loc value
        else trapped)
    else if funct3 == store_func_sh
    then aborted
    else running cpu

-- `pc += offset - 4`, before the loop's footer adds 4.
abbrev pub branch_if : Bool → ℕ → Cpu → Outcome
branch_if taken offset cpu =
    if taken then running (record cpu { pc = add32 cpu.pc (sub32 offset 4) }) else running cpu

pub exec_branch : ℕ → Cpu → Outcome
exec_branch raw cpu =
    let funct3 = get b_format.funct3 raw in
    let offset = bit_cast_i32 (read_b_immediate raw) in
    let a = read_register cpu (get b_format.rs1 raw) in
    let b = read_register cpu (get b_format.rs2 raw) in
    if funct3 == branch_func_bne
    then branch_if (not (a == b)) offset cpu
    else if funct3 == branch_func_beq
    then branch_if (a == b) offset cpu
    else if funct3 == branch_func_bgeu
    then branch_if (leb b a) offset cpu
    else if funct3 == branch_func_bltu
    then branch_if (ltb a b) offset cpu
    else if funct3 == branch_func_blt || funct3 == branch_func_bge
    then aborted
    else running cpu

pub exec_op : ℕ → Cpu → Outcome
exec_op raw cpu =
    let funct3 = get r_format.funct3 raw in
    let rd = get r_format.rd raw in
    let s1 = read_register cpu (get r_format.rs1 raw) in
    let s2 = read_register cpu (get r_format.rs2 raw) in
    if funct3 == op_funct3_or
    then running (write_register cpu rd (bit_or s1 s2))
    else if funct3 == op_funct3_add
    then (let s2' = if get r_format.funct7 raw == op_funct7_sub then sub32 0 s2 else s2 in
        running (write_register cpu rd (add32 s1 s2')))
    else aborted

pub exec_jalr : ℕ → Cpu → Outcome
exec_jalr raw cpu =
    let jump_pc =
      bit_and (add32 (read_i_immediate raw) (read_register cpu (get i_format.rs1 raw))) (not32 1) in
    let cpu' = write_register cpu (get i_format.rd raw) (add32 cpu.pc 4) in
    running (record cpu' { pc = sub32 jump_pc 4 })

pub exec_jal : ℕ → Cpu → Outcome
exec_jal raw cpu =
    let jump_pc = add32 cpu.pc (read_j_immediate raw) in
    let cpu' = write_register cpu (get j_format.rd raw) (add32 cpu.pc 4) in
    running (record cpu' { pc = sub32 jump_pc 4 })

-- The opcodes whose case is the failing `assert` at the end of the switch.
pub is_unimplemented : ℕ → Bool
is_unimplemented op =
    op == op_system
    || op == op_load_fp
    || op == op_custom_0
    || op == op_misc_mem
    || op == op_imm_32
    || op == op_store_fp
    || op == op_custom_1
    || op == op_amo
    || op == op_op_32
    || op == op_madd
    || op == op_msub
    || op == op_nmsub
    || op == op_nmadd
    || op == op_fp
    || op == op_custom2_rv128
    || op == op_custom3_rv128

-- The switch over the opcode; a word of no listed opcode does nothing.
pub exec : ℕ → Cpu → Outcome
exec raw cpu =
    let op = get unknown.opcode raw in
    if op == op_jalr
    then exec_jalr raw cpu
    else if op == op_jal
    then exec_jal raw cpu
    else if op == op_lui
    then running (write_register cpu (get u_format.rd raw) (read_upper_immediate raw))
    else if op == op_auipc
    then running
        (write_register cpu (get u_format.rd raw) (add32 cpu.pc (read_upper_immediate raw)))
    else if op == op_imm
    then exec_imm raw cpu
    else if op == op_load
    then exec_load raw cpu
    else if op == op_store
    then exec_store raw cpu
    else if op == op_branch
    then exec_branch raw cpu
    else if op == op_op
    then exec_op raw cpu
    else if is_unimplemented op
    then aborted
    else running cpu

-- The loop's footer, `pc += 4`.
abbrev pub footer : Outcome → Outcome
footer (running cpu) = running (record cpu { pc = add32 cpu.pc 4 })
footer aborted = aborted
footer trapped = trapped
footer undefined = undefined

-- The body on the word that was fetched. The disassembler runs first, and its `assert` counts.
pub exec_word : ℕ → Cpu → Outcome
exec_word raw cpu = elim (dasm raw cpu.pc) [
  | Dasm.printed pieces ↦ if raw == 0 then trapped else footer (exec raw cpu)
  | Dasm.aborted ↦ aborted
  | Dasm.undefined ↦ undefined
]

pub step : Cpu → Outcome
step cpu =
    if bit_and (cpu.memory.base + cpu.pc) 3 == 0
    then (if readable_u32 cpu.memory cpu.pc
        then exec_word (load_u32 cpu.memory.bytes cpu.pc) cpu
        else undefined)
    else aborted
