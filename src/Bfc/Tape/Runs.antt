-- ===== src/Bfc/Tape/Runs.antt =====
-- The compiled code in the interpreter, against the meaning of the program.
use mathlib.Core.List.{append_assoc}
use mathlib.Core.Path.{subst}
use rv32isam.Base.{
  ℕ, suc, ◌+◌, ◌*◌, ◌≤◌, ◌<◌, ◌≡◌, refl, ◌∙◌, ap, arith, List, [], ◌∷◌, ◌++◌, Option, none, some,
  true, Bool-cases, inl, inr,
}
use rv32isam.Base.Lists.{length, map, ◌>>=◌}
use rv32isam.Isa.{Instr, encode}
use rv32isam.Interpret.State.{Cpu, Memory, running, aborted, readable_u8, writable_u8}
use rv32isam.Interpret.Exec.Fetch.{Fetches}
use rv32isam.Interpret.Exec.Frame.{IsFramed, IsFramed-trans}
use rv32isam.Interpret.Exec.Refines.{machine_of}
use rv32isam.Interpret.Run.{run}
use rv32isam.Interpret.Run.Laws.{run-then}
use rv32isam.Interpret.Run.Code.{IsReady, IsReady-Fetches, run-Reaches, run-ecall}
use rv32isam.Bfc.Compile.StraightLine.{code_of, body_words}
use rv32isam.Bfc.Tape.{Tape, is_call, act, meaning}
use rv32isam.Bfc.Tape.Code.{
  IsTape, instrs_of, call_instrs, exit_instrs, Does, Does?, act-Does, call-Does, exit-Does,
  code_of-instrs_of, length-instrs_of, code_of-call,
}

-- A run that makes at most `bound` rounds, leaves the tape, has an ECALL to run then, and aborts at it.
pub record Ends (size bound : ℕ) (cpu : Cpu) (tape : Tape) : Type 0 where
  pub rounds : ℕ
  pub few : rounds ≤ bound
  pub last : Cpu
  pub goes_on : run rounds cpu ≡ running last
  pub at_call : Fetches last 0x73
  pub ends : (n : ℕ) → run (rounds + suc n) cpu ≡ aborted
  pub tape_left : IsTape size (machine_of last) tape
  pub framed : IsFramed cpu.memory last.memory

-- Where there is one to leave.
abbrev pub Ends? : ℕ → ℕ → Cpu → Option Tape → Type 0
Ends? size bound cpu none = Unit
Ends? size bound cpu (some tape) = Ends size bound cpu tape

pub Ends-after :
    (size bound : ℕ) {bound' : ℕ} (cpu : Cpu) {cpu' : Cpu} (k : ℕ) (o : Option Tape)
    → run k cpu ≡ running cpu'
    → IsFramed cpu.memory cpu'.memory
    → k + bound ≤ bound'
    → Ends? size bound cpu' o
    → Ends? size bound' cpu o
Ends-after size bound cpu k none first framed le e = tt
Ends-after size bound cpu k (some tape) first framed le e = record {
  rounds = k + e.rounds;
  few = omega (arith, e.few);
  last = e.last;
  goes_on = run-then k e.rounds cpu first e.goes_on;
  at_call = e.at_call;
  ends = λ n.
      ap (λ (t : ℕ). run t cpu) (omega arith) ∙ run-then k (e.rounds + suc n) cpu first (e.ends n);
  tape_left = e.tape_left;
  framed = IsFramed-trans framed e.framed;
}

-- Instructions, and then ECALL.
at_ecall :
    {size bound : ℕ} {cpu : Cpu} {tape : Tape} (is : List Instr) (ws : List ℕ)
    → length is ≤ bound
    → IsReady cpu (map encode is ++ 0x73 ∷ ws)
    → Does size (readable_u8 cpu.memory) (writable_u8 cpu.memory) is (machine_of cpu) tape
    → Ends size bound cpu tape
at_ecall {cpu = cpu} is ws le ready does =
    let (cpu', r) = run-Reaches is (0x73 ∷ ws) ready does.allowed in
    record {
      rounds = length is;
      few = le;
      last = cpu';
      goes_on = r.runs;
      at_call = IsReady-Fetches r.ready;
      ends = λ n. run-then (length is) (suc n) cpu r.runs (run-ecall n r.ready);
      tape_left = rw r.state does.tape;
      framed = r.framed;
    }

abbrev pub exit_words : List ℕ
exit_words = map encode exit_instrs ++ 0x73 ∷ []

module _ (size : ℕ) where
  -- The tape is in the image, and can be read and written to.
  pub record HasTape (memory : Memory) : Type 0 where
    pub loads : (a : ℕ) → a < size → readable_u8 memory a ≡ true
    pub may : (a : ℕ) → a < size → writable_u8 memory a ≡ true

  pub HasTape-framed :
      {memory memory' : Memory} → IsFramed memory memory' → HasTape memory → HasTape memory'
  HasTape-framed framed h = record {
    loads = rw (framed.same_size, framed.same_readable) h.loads;
    may = rw (framed.same_size, framed.same_writable) h.may;
  }

  -- The code of a program with a meaning ends with the tape that is meant, in at most five rounds for a
  -- character and two more.
  pub body-Ends :
      (input : List ℕ) {cpu : Cpu} {tape : Tape}
      → IsReady cpu (body_words input ++ exit_words)
      → HasTape cpu.memory
      → IsTape size (machine_of cpu) tape
      → Ends? size (5 * length input + 2) cpu (meaning size input tape)
  body-Ends [] {cpu} {tape} ready h t = at_ecall exit_instrs [] (omega arith) ready (
      exit-Does size (readable_u8 cpu.memory) (writable_u8 cpu.memory) h.loads h.may
        (machine_of cpu) tape t)
  body-Ends (c ∷ input) {cpu} {tape} ready h t = elim (Bool-cases (is_call c)) [
    | inl call ↦
        let (number, fits, words) = code_of-call c call in
        rw call (
          at_ecall (call_instrs number) (body_words input ++ exit_words) (omega arith)
            (subst (IsReady cpu) (regroup (map encode (call_instrs number)) words) ready)
            (call-Does size (readable_u8 cpu.memory) (writable_u8 cpu.memory) h.loads h.may number
              (machine_of cpu) tape fits t))
    | inr no_call ↦
        let words = code_of-instrs_of c no_call in
        let does =
          act-Does size (readable_u8 cpu.memory) (writable_u8 cpu.memory) h.loads h.may c
            (machine_of cpu) tape t in
        rw no_call (
          first_act (act size c tape) (λ cpu' tape' r h' t'. body-Ends input r h' t')
            (length-instrs_of c) (rw (words, append_assoc) at ready) does)
  ]
    where
      regroup :
          (ws : List ℕ)
          → code_of c ≡ ws ++ 0x73 ∷ []
          → (code_of c ++ body_words input) ++ exit_words
            ≡ ws ++ 0x73 ∷ (body_words input ++ exit_words)
      regroup ws e = rw (e, append_assoc, append_assoc) refl

      first_act :
          (o : Option Tape)
          → ((cpu' : Cpu) (tape' : Tape)
              → IsReady cpu' (body_words input ++ exit_words)
              → HasTape cpu'.memory
              → IsTape size (machine_of cpu') tape'
              → Ends? size (5 * length input + 2) cpu' (meaning size input tape'))
          → length (instrs_of c) ≤ 5
          → IsReady cpu (map encode (instrs_of c) ++ (body_words input ++ exit_words))
          → Does? size
              (readable_u8 cpu.memory)
              (writable_u8 cpu.memory)
              (instrs_of c)
              (machine_of cpu)
              o
          → Ends? size (5 * suc (length input) + 2) cpu (o >>= meaning size input)
      first_act none later few ready does = tt
      first_act (some tape') later few ready does =
          let (cpu', r) =
            run-Reaches (instrs_of c) (body_words input ++ exit_words) ready does.allowed in
          Ends-after size (5 * length input + 2) cpu (length (instrs_of c))
            (meaning size input tape') r.runs r.framed (omega (arith, few))
            (later cpu' tape' r.ready (HasTape-framed r.framed h) (rw r.state does.tape))
