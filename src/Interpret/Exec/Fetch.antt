-- ===== src/Interpret/Exec/Fetch.antt =====
-- From the fetched word to the switch.
use rv32isam.Base.{ℕ, ◌+◌, ◌%◌, ◌≤◌, ◌<◌, ◌≡◌, true, ◌≢◌, arith, ◌∙◌}
use rv32isam.Base.Masks.{bit_and_low}
use rv32isam.Rv.Dasm.{dasm}
use rv32isam.Rv.Dasm.Laws.{IsPrinted, dasm-srli}
use rv32isam.Rv.Funct.{imm_func_srli}
use rv32isam.Rv.Opcode.{op_imm}
use rv32isam.Rv.Insn.{get, unknown, i_format}
use rv32isam.Interpret.State.{Cpu, aborted, trapped}
use rv32isam.Base.Bytes.{load_u32}
use rv32isam.Interpret.Exec.{exec, exec_word, footer, is_unimplemented, step}

-- The processor is about to fetch `raw`, aligned and in the image.
pub record Fetches (cpu : Cpu) (raw : ℕ) : Type 0 where
  pub aligned : (cpu.memory.base + cpu.pc) % 4 ≡ 0
  pub in_image : cpu.pc + 4 ≤ cpu.memory.size
  pub readable : (b : ℕ) → cpu.pc ≤ b → b < cpu.pc + 4 → cpu.memory.readable b ≡ true
  pub word_at_pc : load_u32 cpu.memory.bytes cpu.pc ≡ raw

pub step-fetch : {cpu : Cpu} {raw : ℕ} → Fetches cpu raw → step cpu ≡ exec_word raw cpu
unfolding step
step-fetch {cpu} {raw} f = ground (
  arith,
  f.aligned,
  f.in_image,
  f.readable cpu.pc (omega arith) (omega arith),
  f.readable (cpu.pc + 1) (omega arith) (omega arith),
  f.readable (cpu.pc + 2) (omega arith) (omega arith),
  f.readable (cpu.pc + 3) (omega arith) (omega arith),
  f.word_at_pc,
  bit_and_low 2 (cpu.memory.base + cpu.pc),
)

pub exec_word-printed :
    (raw : ℕ) (cpu : Cpu)
    → raw ≢ 0
    → IsPrinted (dasm raw cpu.pc)
    → exec_word raw cpu ≡ footer (exec raw cpu)
unfolding exec_word
exec_word-printed raw cpu ne (ps, e) = rw (e, exec_word) (ground arith)

-- An instruction address that is no multiple of 4 aborts.
pub step_misaligned : (cpu : Cpu) → (cpu.memory.base + cpu.pc) % 4 ≢ 0 → step cpu ≡ aborted
unfolding step
step_misaligned cpu h = ground (arith, bit_and_low 2 (cpu.memory.base + cpu.pc))

-- A fetched word of zeros traps, though it is disassembled first.
pub step_zero_word : (cpu : Cpu) → Fetches cpu 0 → step cpu ≡ trapped
unfolding exec_word dasm
step_zero_word cpu f = step-fetch f

-- A round that fetches a word with the opcode OP-IMM and the funct3 of SRLI and SRAI aborts.
pub step-srli_aborts :
    (cpu : Cpu) (raw : ℕ)
    → Fetches cpu raw
    → get unknown.opcode raw ≡ op_imm
    → get i_format.funct3 raw ≡ imm_func_srli
    → step cpu ≡ aborted
unfolding exec_word
step-srli_aborts cpu raw f e g = step-fetch f ∙ rw (dasm-srli raw cpu.pc nonzero e g, exec_word)
  where
    nonzero : raw ≢ 0
    nonzero z = omega arith

-- The interpreter does not carry out ECALL: a round that fetches it aborts, once it is printed.
pub step-ecall_aborts : {cpu : Cpu} → Fetches cpu 0x73 → step cpu ≡ aborted
unfolding exec exec_word dasm is_unimplemented
step-ecall_aborts {cpu} f = step-fetch f
