-- ===== src/Tests.antt =====
-- The theorems at concrete inputs, and small runs of the code.
pub mod Loading
pub mod Emitting
pub mod Running
use rv32isam.Base.{
  ℕ, ◌+◌, ◌*◌, ◌%◌, ◌^◌, ◌<◌, ◌≤◌, ◌≡◌, refl, arith, List, [], ◌∷◌, none, some, inr, ◌-◌, leb, true,
}
use rv32isam.Base.Word.{IsU32, signed}
use rv32isam.Base.Bytes.{IsByte, store_u32, store_u32-IsByte, load_u32-store_u32}
use rv32isam.BitMath.{align_upwards, align_upwards64, next_po2, max_po2}
use rv32isam.BitMath.Align.{IsRoundUp, align_upwards-IsRoundUp, align_upwards64-IsRoundUp}
use rv32isam.BitMath.PowTwo.{next_po2_least, next_po2_wraps, max_po2_lem}
use rv32isam.Rv.Insn.{get, i_format}
use rv32isam.Rv.Immediate.{
  sext32_imm12, sext32_generic, read_i_immediate, read_s_immediate, read_b_immediate,
  read_j_immediate, j_immediate_over, make_positive,
}
use rv32isam.Rv.Immediate.Value.{
  read_i_immediate-signed, read_s_immediate-signed, read_b_immediate-signed,
  read_j_immediate-signed, sext32_imm12-read_i, sext32_generic_sets_bit_30, make_positive-abs,
  abs32, s_immediate, b_immediate, j_immediate,
}
use rv32isam.Rv.Dasm.{dasm}
use rv32isam.Rv.Dasm.Laws.{IsPrinted, dasm-op_branch}
use rv32isam.Isa
use rv32isam.Isa.{Instr, encode}
use rv32isam.Interpret.State.{Cpu, Memory, running, aborted, read_register, write_register}
use rv32isam.Interpret.State.Registers.{read_register-write_register}
use rv32isam.Interpret.State.Valid
use rv32isam.Interpret.Exec.{step, shift_right}
use rv32isam.Interpret.Exec.Values.{shift_right-logical}
use rv32isam.Interpret.Exec.Fetch.{Fetches, step-srli_aborts}
use rv32isam.Interpret.Exec.Prints.{dasm-encode}
use rv32isam.Interpret.Exec.Refines.{Refines}
use rv32isam.Interpret.Exec.Refines.All.{IsLoaded, step-Refines}
use rv32isam.Interpret.Run.{run, start, interpret}
use rv32isam.Interpret.Run.Laws.{start-IsValid}
use rv32isam.Out.{Out, out_resv_index, out_write}
use rv32isam.Out.Laws
use rv32isam.Out.Laws.{
  Appends, HasRoom, word_bytes, out_resv_index-IsValid, out_write-Appends, out_resv_index_shrinks,
}
use rv32isam.Bfc.{asm_sb, asm_addi}
use rv32isam.Bfc.Laws.{asm_sb-Appends, asm_addi-Appends}
use rv32isam.Bfc.Compile.{push_loop, pop_loop, compile_stdin}
use rv32isam.Bfc.Compile.Loops.{pop_loop-push_loop, compile_stdin_unbalanced}

-- An image of 64 bytes whose first word is `raw`, mapped at 4096 and writable from offset 32.
abbrev image : ℕ → Memory
image raw = record {
  base = 4096;
  size = 64;
  bytes = store_u32 (λ a. 0) 0 raw;
  readable = λ a. true;
  writable = λ a. leb 32 a;
}

image-IsByte : (raw a : ℕ) → IsByte ((image raw).bytes a)
image-IsByte raw a = store_u32-IsByte (λ n. 0) 0 raw (λ n. omega arith) a

booted : (raw : ℕ) → Valid.IsValid (start (image raw) 0)
booted raw = start-IsValid (image raw) 0 (image-IsByte raw) (omega arith)

fetched : (raw : ℕ) → IsU32 raw → Fetches (start (image raw) 0) raw
fetched raw h = record {
  aligned = omega arith;
  in_image = omega arith;
  readable = λ a from to. refl;
  word_at_pc = load_u32-store_u32 (λ n. 0) 0 raw h;
}

-- addi sp, zero, -16
abbrev addi_sp : Instr
addi_sp = Isa.op_imm Isa.addi 2 0 4080

abbrev addi_cpu : Cpu
addi_cpu = start (image (encode addi_sp)) 0

loaded : IsLoaded addi_cpu
loaded = record { small = omega arith; on_host = omega arith }

addi_round : Refines addi_cpu addi_sp
addi_round =
    step-Refines addi_cpu addi_sp (booted (encode addi_sp)) loaded (omega arith)
      (fetched (encode addi_sp) (omega arith)) tt

step-Refines_example : Refines addi_cpu addi_sp
step-Refines_example =
    step-Refines addi_cpu addi_sp (booted (encode addi_sp)) loaded (omega arith)
      (fetched (encode addi_sp) (omega arith)) tt

read_register-write_register_example : read_register (write_register addi_cpu 5 7) 5 ≡ 7
read_register-write_register_example = read_register-write_register addi_cpu 5 7 5

-- srai t0, t0, 1
step-srli_aborts_example : step (start (image 0x4012d293) 0) ≡ aborted
step-srli_aborts_example =
    step-srli_aborts (start (image 0x4012d293) 0) 0x4012d293 (fetched 0x4012d293 (omega arith))
      (omega arith) (omega arith)

-- The value of srai by 1 on -2 ^ 31 ought to be 0xc0000000.
shift_right-logical_example : shift_right 0x4012d293 0x80000000 ≡ 0x40000000
shift_right-logical_example = shift_right-logical 0x4012d293 0x80000000 (omega arith)

-- jal zero, -4
read_j_immediate-signed_example :
    IsU32 (read_j_immediate 0xffdff06f)
    × (signed 32 (read_j_immediate 0xffdff06f) ≡ signed 21 (j_immediate 0xffdff06f))
    × (read_j_immediate 0xffdff06f % 2 ≡ 0)
    × ((imm : ℕ) → IsU32 imm → j_immediate_over imm 0xffdff06f ≡ read_j_immediate 0xffdff06f)
read_j_immediate-signed_example = read_j_immediate-signed 0xffdff06f (omega arith)

-- beq zero, zero, -4
read_b_immediate-signed_example :
    IsU32 (read_b_immediate 0xfe000ee3)
    × (signed 32 (read_b_immediate 0xfe000ee3) ≡ signed 13 (b_immediate 0xfe000ee3))
    × (read_b_immediate 0xfe000ee3 % 2 ≡ 0)
read_b_immediate-signed_example = read_b_immediate-signed 0xfe000ee3 (omega arith)

-- sw ra, -4(sp)
read_s_immediate-signed_example :
    IsU32 (read_s_immediate 0xfe112e23)
    × (signed 32 (read_s_immediate 0xfe112e23) ≡ signed 12 (s_immediate 0xfe112e23))
read_s_immediate-signed_example = read_s_immediate-signed 0xfe112e23 (omega arith)

-- addi sp, sp, -16
read_i_immediate-signed_example :
    IsU32 (read_i_immediate 0xff010113)
    × (signed 32 (read_i_immediate 0xff010113) ≡ signed 12 (get i_format.imm_11_0 0xff010113))
read_i_immediate-signed_example = read_i_immediate-signed 0xff010113 (omega arith)

sext32_imm12-read_i_example :
    sext32_imm12 (get i_format.imm_11_0 0xff010113) ≡ read_i_immediate 0xff010113
sext32_imm12-read_i_example = sext32_imm12-read_i 0xff010113 (omega arith)

sext32_generic_sets_bit_30_example : sext32_generic 0 5 ≡ 0x40000005
sext32_generic_sets_bit_30_example = sext32_generic_sets_bit_30 0 5 (omega arith) (omega arith)

align_upwards-IsRoundUp_example : IsRoundUp 4097 (2 ^ 12) (align_upwards 4097 (2 ^ 12))
align_upwards-IsRoundUp_example = align_upwards-IsRoundUp 4097 12 (omega arith) (omega arith)

align_upwards64-IsRoundUp_example : IsRoundUp 4097 (2 ^ 12) (align_upwards64 4097 (2 ^ 12))
align_upwards64-IsRoundUp_example = align_upwards64-IsRoundUp 4097 12 (omega arith) (omega arith)

next_po2_least_example :
    (k : ℕ) × (k ≤ 31) × (next_po2 0 100 ≡ 2 ^ k) × (100 ≤ 2 ^ k) × (2 ^ k < 2 * 100)
next_po2_least_example = next_po2_least 0 100 (omega arith) (omega arith)

next_po2_wraps_example : next_po2 0 (2 ^ 31 + 1) ≡ 1
next_po2_wraps_example = next_po2_wraps 0 (2 ^ 31 + 1) (omega arith) (inr (omega arith))

-- An array of 8 bytes of which 5 are in use.
abbrev five : Out
five = record { bytes = λ a. a % 256; len = 5; cap = 8 }

five-IsValid : Laws.IsValid five
five-IsValid = record { within = omega arith; addressable = omega arith }

out_resv_index-IsValid_example :
    Laws.IsValid (out_resv_index 0 five 10)
    × ((out_resv_index 0 five 10).len ≡ 15)
    × ((out_resv_index 0 five 10).bytes ≡ five.bytes)
    × (8 ≤ (out_resv_index 0 five 10).cap)
out_resv_index-IsValid_example = out_resv_index-IsValid 0 five 10 five-IsValid (omega arith)

out_write-Appends_example : Appends 0 five (7 ∷ 9 ∷ []) (out_write 0 five (7 ∷ 9 ∷ []))
out_write-Appends_example = out_write-Appends 0 five (7 ∷ 9 ∷ []) five-IsValid (omega arith)

out_resv_index_shrinks_example :
    ((out_resv_index 0 five (2 ^ 31)).cap ≡ 8) × ((out_resv_index 0 five (2 ^ 31)).len ≡ 2 ^ 31 + 5)
out_resv_index_shrinks_example =
    out_resv_index_shrinks 0 five (2 ^ 31) (omega arith) (omega arith) (omega arith)

-- sb t0, 1(s1), which is encoded as sb t0, 32(s1).
asm_sb-Appends_example : Appends 0 five (word_bytes (encode (Isa.sb 5 9 32))) (asm_sb 0 five 9 5 1)
asm_sb-Appends_example =
    asm_sb-Appends 0 five 9 5 1 five-IsValid (omega arith) (omega arith) (omega arith)

dasm-encode_example : IsPrinted (dasm (encode addi_sp) 16)
dasm-encode_example = dasm-encode addi_sp 16 (omega arith)

compile_stdin_unbalanced_example : compile_stdin 0 (λ a. 0) five (93 ∷ 43 ∷ []) ≡ none
compile_stdin_unbalanced_example = compile_stdin_unbalanced 0 (λ a. 0) five (43 ∷ [])
