-- ===== src/Interpret/Run/Laws.antt =====
-- Runs of any number of rounds.
use rv32isam.Base.{ℕ, zero, suc, ◌+◌, ◌≡◌, ◌∙◌, refl, arith}
use rv32isam.Base.Word.{IsU32}
use rv32isam.Base.Bytes.{IsByte}
use rv32isam.Interpret.State.{Cpu, Memory, Outcome, running, aborted, trapped, undefined}
use rv32isam.Interpret.State.Registers.{read_register-zeros}
use rv32isam.Interpret.State.Valid.{IsValid}
use rv32isam.Interpret.Exec.{step}
use rv32isam.Interpret.Exec.Valid.{
  Ensures, goes_on, has_aborted, has_trapped, is_undefined, Ensures-running,
}
use rv32isam.Interpret.Exec.Frame.{IsFramed, IsFramed-refl, IsFramed-trans, step-IsFramed}
use rv32isam.Interpret.Run.{run, start, interpret}

pub start-IsValid :
    (memory : Memory) (entrypoint : ℕ)
    → ((a : ℕ) → IsByte (memory.bytes a))
    → IsU32 entrypoint
    → IsValid (start memory entrypoint)
start-IsValid memory entrypoint h k = record {
  registers_fit = λ j. omega (arith, read_register-zeros entrypoint memory j);
  pc_fits = k;
  bytes_fit = h;
}

module _ (P : Cpu → Type 0) (keeps : (c c' : Cpu) → P c → step c ≡ running c' → P c') where
  -- What a round that goes on keeps, a run keeps.
  Ensures-run : (n : ℕ) (cpu : Cpu) → P cpu → Ensures P (run n cpu)
  unfolding run
  Ensures-run zero cpu p = goes_on p
  Ensures-run (suc n) cpu p = next_round (step cpu) (λ c' e. Ensures-run n c' (keeps cpu c' p e))
    where
      next_round :
          (o : Outcome)
          → ((c' : Cpu) → o ≡ running c' → Ensures P (run n c'))
          → Ensures P (elim o [
            | running c' ↦ run n c'
            | aborted ↦ aborted
            | trapped ↦ trapped
            | undefined ↦ undefined
          ])
      next_round (running c') h = h c' refl
      next_round aborted h = has_aborted
      next_round trapped h = has_trapped
      next_round undefined h = is_undefined

-- While a run of any number of rounds goes on, what may not be written to is kept.
pub interpret-IsFramed :
    (memory : Memory) (entrypoint rounds : ℕ) {cpu : Cpu}
    → interpret memory entrypoint rounds ≡ running cpu
    → IsFramed memory cpu.memory
unfolding interpret
interpret-IsFramed memory entrypoint rounds e = Ensures-running (rw e at ensured)
  where
    ensured :
        Ensures (λ (cpu : Cpu). IsFramed memory cpu.memory) (run rounds (start memory entrypoint))
    ensured =
        Ensures-run (λ (cpu : Cpu). IsFramed memory cpu.memory)
          (λ c c' framed e. IsFramed-trans framed (step-IsFramed c e)) rounds
          (start memory entrypoint) (IsFramed-refl memory)

pub continue_from : Outcome → ℕ → Outcome
continue_from (running cpu) n = run n cpu
continue_from aborted n = aborted
continue_from trapped n = trapped
continue_from undefined n = undefined

-- Rounds after rounds: a run that goes on is continued from where it stands, and one that has ended
-- stays ended.
pub run-add : (m n : ℕ) (cpu : Cpu) → run (m + n) cpu ≡ continue_from (run m cpu) n
unfolding run continue_from
run-add zero n cpu = rw (zero_plus n) refl
  where
    zero_plus : (t : ℕ) → 0 + t ≡ t
    zero_plus t = omega arith
run-add (suc m) n cpu = rw (shift, run) (next_round (step cpu) (λ c'. run-add m n c'))
  where
    shift : suc m + n ≡ suc (m + n)
    shift = omega arith

    next_round :
        (o : Outcome)
        → ((c' : Cpu) → run (m + n) c' ≡ continue_from (run m c') n)
        → elim o [
          | running c' ↦ run (m + n) c'
          | aborted ↦ aborted
          | trapped ↦ trapped
          | undefined ↦ undefined
        ]
          ≡ continue_from
              (elim o [
                | running c' ↦ run m c'
                | aborted ↦ aborted
                | trapped ↦ trapped
                | undefined ↦ undefined
              ])
              n
    next_round (running c') h = h c'
    next_round aborted h = refl
    next_round trapped h = refl
    next_round undefined h = refl

pub run-then :
    (m n : ℕ) (cpu : Cpu) {cpu' : Cpu} {o : Outcome}
    → run m cpu ≡ running cpu'
    → run n cpu' ≡ o
    → run (m + n) cpu ≡ o
unfolding continue_from
run-then m n cpu first then = run-add m n cpu ∙ rw first then
