-- ===== src/Interpret/Run.antt =====
-- `interpret`: the loop has no end of its own, so it is given a number of rounds.
pub mod Laws
pub mod Code
use rv32isam.Base.{ℕ, zero, suc}
use rv32isam.Interpret.State.{Cpu, Memory, Outcome, running, aborted, trapped, undefined}
use rv32isam.Interpret.Exec.{step}

-- `running` at the end: that many rounds were made, and the loop goes on.
pub run : ℕ → Cpu → Outcome
run zero cpu = running cpu
run (suc n) cpu = elim (step cpu) [
  | running cpu' ↦ run n cpu'
  | aborted ↦ aborted
  | trapped ↦ trapped
  | undefined ↦ undefined
]

-- `struct rv32i cpu = {0}`.
abbrev pub start : Memory → ℕ → Cpu
start memory entrypoint = record { registers = λ n. 0; pc = entrypoint; memory = memory }

pub interpret : Memory → ℕ → ℕ → Outcome
interpret memory entrypoint rounds = run rounds (start memory entrypoint)
