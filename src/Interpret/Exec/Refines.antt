-- ===== src/Interpret/Exec/Refines.antt =====
-- A round of the interpreter on an encoded instruction is that instruction's effect.
pub mod Arithmetic
pub mod Memory
pub mod Jumps
pub mod All
use mathlib.Core.Path.{fun_ext}
use rv32isam.Base.{ℕ, ◌^◌, ◌<◌, ◌≡◌, ◌≢◌, ap, ◌∙◌, arith}
use rv32isam.Base.Word.{signed, add32}
use rv32isam.Isa
use rv32isam.Isa.{Instr, Machine, move, set_x, effect}
use rv32isam.Rv.Dasm.{dasm}
use rv32isam.Rv.Dasm.Laws.{IsPrinted}
use rv32isam.Rv.Immediate.Value.{extend}
use rv32isam.Interpret.State.{Cpu, running, write_register, read_register}
use rv32isam.Interpret.State.Registers.{
  read_register-write_register, write_register-memory, write_register-pc, read_register-record,
}
use rv32isam.Interpret.Exec.{exec, footer, step}
use rv32isam.Interpret.Exec.Fetch.{Fetches, step-fetch, exec_word-printed}

pub from_zero : (imm : ℕ) → imm < 2 ^ 12 → extend 12 imm ≡ move 0 (signed 12 imm)
from_zero imm h = ground arith

-- What a program can see of the processor.
abbrev pub machine_of : Cpu → Machine
machine_of cpu = record { x = read_register cpu; pc = cpu.pc; mem = cpu.memory.bytes }

-- The round goes on, and to the state that the specification says.
abbrev pub Refines : Cpu → Instr → Type 0
Refines cpu i =
    (cpu' : Cpu) × (step cpu ≡ running cpu') × (machine_of cpu' ≡ effect i (machine_of cpu))

pub step-exec :
    {cpu after : Cpu} {raw : ℕ}
    → Fetches cpu raw
    → raw ≢ 0
    → IsPrinted (dasm raw cpu.pc)
    → exec raw cpu ≡ running after
    → step cpu ≡ running (record after { pc = add32 after.pc 4 })
step-exec {cpu} {after} {raw} f ne prints e =
    step-fetch f ∙ exec_word-printed raw cpu ne prints ∙ ap footer e

-- The state after a register was written and the program counter set.
pub machine_of-write :
    (cpu : Cpu) (rd v p : ℕ)
    → machine_of (record (write_register cpu rd v) { pc = p })
      ≡ record { x = set_x rd v (read_register cpu); pc = p; mem = cpu.memory.bytes }
machine_of-write cpu rd v p =
    λ i. record { x = registers i; pc = p; mem = (write_register-memory cpu rd v i).bytes }
  where
    registers :
        read_register (record (write_register cpu rd v) { pc = p }) ≡ set_x rd v (read_register cpu)
    registers = fun_ext λ j.
        read_register-record (write_register cpu rd v) p _ j
        ∙ read_register-write_register cpu rd v j

-- An instruction that writes a register and falls through.
pub writes :
    {cpu : Cpu} {raw : ℕ} (rd v w : ℕ)
    → Fetches cpu raw
    → raw ≢ 0
    → IsPrinted (dasm raw cpu.pc)
    → exec raw cpu ≡ running (write_register cpu rd v)
    → v ≡ w
    → (cpu' : Cpu) × (step cpu ≡ running cpu')
      × (machine_of cpu' ≡ Isa.next (Isa.set rd w (machine_of cpu)))
writes {cpu} rd v w f ne prints e same = (
  record (write_register cpu rd v) { pc = add32 (write_register cpu rd v).pc 4 },
  step-exec f ne prints e,
  rw (write_register-pc cpu rd v, same) (machine_of-write cpu rd w _),
)
