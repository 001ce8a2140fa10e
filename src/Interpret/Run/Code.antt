-- ===== src/Interpret/Run/Code.antt =====
-- Runs of code without jumps that lies in read-only memory.
use rv32isam.Base.{
  ℕ, suc, ◌+◌, ◌%◌, ◌^◌, ◌≤◌, ◌<◌, ◌≡◌, refl, ◌∙◌, ap, arith, List, [], ◌∷◌, ◌++◌, Bool, true,
  false, ◌&&◌, leb,
}
use rv32isam.Base.Lists.{length, map}
use rv32isam.Base.Bytes.{load_u32}
use rv32isam.Base.Word.{signed}
use rv32isam.Isa
use rv32isam.Isa.{Instr, Machine, Fits, encode, effect, move}
use rv32isam.Interpret.State.{Cpu, Memory, running, aborted, readable_u8, writable_u8}
use rv32isam.Interpret.State.Valid.{IsValid}
use rv32isam.Interpret.Exec.{step}
use rv32isam.Interpret.Exec.Valid.{step-IsValid}
use rv32isam.Interpret.Exec.Frame.{IsFramed, IsFramed-refl, IsFramed-trans, step-IsFramed}
use rv32isam.Interpret.Exec.Fetch.{Fetches, step-ecall_aborts}
use rv32isam.Interpret.Exec.Refines.{machine_of}
use rv32isam.Interpret.Exec.Refines.All.{IsLoaded, MayAccess, step-Refines}
use rv32isam.Interpret.Run.{run}
use rv32isam.Loader.Kept.{read_only-kept}

-- A word of the program: aligned, in the image, and not to be written to.
pub record IsWord (memory : Memory) (a w : ℕ) : Type 0 where
  pub aligned : (memory.base + a) % 4 ≡ 0
  pub in_image : a + 4 ≤ memory.size
  pub value : load_u32 memory.bytes a ≡ w
  pub readable : (b : ℕ) → a ≤ b → b < a + 4 → memory.readable b ≡ true
  pub read_only : (b : ℕ) → a ≤ b → b < a + 4 → memory.writable b ≡ false

abbrev pub CodeAt : Memory → ℕ → List ℕ → Type 0
CodeAt memory a [] = Unit
CodeAt memory a (w ∷ ws) = IsWord memory a w × CodeAt memory (a + 4) ws

IsWord-kept :
    {memory memory' : Memory} {a w : ℕ}
    → IsFramed memory memory'
    → IsWord memory a w
    → IsWord memory' a w
IsWord-kept {memory} {memory'} {a} {w} framed word = record {
  aligned = rw framed.same_base word.aligned;
  in_image = rw framed.same_size word.in_image;
  value =
      rw
        (
          same a (omega arith) (omega arith),
          same (a + 1) (omega arith) (omega arith),
          same (a + 2) (omega arith) (omega arith),
          same (a + 3) (omega arith) (omega arith),
        )
        word.value;
  readable = λ b from to. rw framed.same_readable (word.readable b from to);
  read_only = λ b from to. rw framed.same_writable (word.read_only b from to);
}
  where
    same : (b : ℕ) → a ≤ b → b < a + 4 → memory'.bytes b ≡ memory.bytes b
    same b from to = read_only-kept framed b (word.read_only b from to)

CodeAt-kept :
    {memory memory' : Memory} (a : ℕ) (ws : List ℕ)
    → IsFramed memory memory'
    → CodeAt memory a ws
    → CodeAt memory' a ws
CodeAt-kept a [] framed code = code
CodeAt-kept a (w ∷ ws) framed code =
    (IsWord-kept framed code.0, CodeAt-kept (a + 4) ws framed code.1)

-- The processor is about to run the words, in a state in which it can.
pub record IsReady (cpu : Cpu) (ws : List ℕ) : Type 0 where
  pub valid : IsValid cpu
  pub loaded : IsLoaded cpu
  pub code : CodeAt cpu.memory cpu.pc ws

-- What an instruction without a jump asks of an image, of which these bytes can be read and written.
abbrev pub May : (ℕ → Bool) → (ℕ → Bool) → Instr → Machine → Type 0
May readable writable (Isa.lbu rd rs1 imm) m = readable (move (m.x rs1) (signed 12 imm)) ≡ true
May readable writable (Isa.sb rs2 rs1 imm) m = writable (move (m.x rs1) (signed 12 imm)) ≡ true
May readable writable (Isa.sw rs2 rs1 imm) m = ⊥
May readable writable (Isa.jal rd imm) m = ⊥
May readable writable (Isa.jalr rd rs1 imm) m = ⊥
May readable writable (Isa.branch c rs1 rs2 imm) m = ⊥
May readable writable _ m = Unit

abbrev pub effects : List Instr → Machine → Machine
effects [] m = m
effects (i ∷ is) m = effects is (effect i m)

abbrev pub Allowed : (ℕ → Bool) → (ℕ → Bool) → List Instr → Machine → Type 0
Allowed readable writable [] m = Unit
Allowed readable writable (i ∷ is) m =
    Fits i × May readable writable i m × Allowed readable writable is (effect i m)

May-access :
    (cpu : Cpu) (i : Instr)
    → May (readable_u8 cpu.memory) (writable_u8 cpu.memory) i (machine_of cpu)
    → MayAccess cpu i
May-access cpu (Isa.lui rd imm) may = tt
May-access cpu (Isa.auipc rd imm) may = tt
May-access cpu (Isa.jal rd imm) may = tt
May-access cpu (Isa.jalr rd rs1 imm) may = tt
May-access cpu (Isa.branch c rs1 rs2 imm) may = tt
May-access cpu (Isa.lbu rd rs1 imm) may = may
May-access cpu (Isa.sb rs2 rs1 imm) may = may
May-access cpu (Isa.sw rs2 rs1 imm) may = elim may [ ]
May-access cpu (Isa.op_imm o rd rs1 imm) may = tt
May-access cpu (Isa.slli rd rs1 shamt) may = tt
May-access cpu (Isa.op o rd rs1 rs2) may = tt

-- It falls through to the next one.
May-next :
    (readable writable : ℕ → Bool) (i : Instr) (m : Machine)
    → May readable writable i m
    → (effect i m).pc ≡ (m.pc + 4) % 2 ^ 32
May-next readable writable (Isa.lui rd imm) m may = refl
May-next readable writable (Isa.auipc rd imm) m may = refl
May-next readable writable (Isa.jal rd imm) m may = elim may [ ]
May-next readable writable (Isa.jalr rd rs1 imm) m may = elim may [ ]
May-next readable writable (Isa.branch c rs1 rs2 imm) m may = elim may [ ]
May-next readable writable (Isa.lbu rd rs1 imm) m may = refl
May-next readable writable (Isa.sb rs2 rs1 imm) m may = refl
May-next readable writable (Isa.sw rs2 rs1 imm) m may = elim may [ ]
May-next readable writable (Isa.op_imm o rd rs1 imm) m may = refl
May-next readable writable (Isa.slli rd rs1 shamt) m may = refl
May-next readable writable (Isa.op o rd rs1 rs2) m may = refl

pub IsReady-Fetches : {cpu : Cpu} {w : ℕ} {ws : List ℕ} → IsReady cpu (w ∷ ws) → Fetches cpu w
IsReady-Fetches ready = record {
  aligned = ready.code.0.aligned;
  in_image = ready.code.0.in_image;
  readable = ready.code.0.readable;
  word_at_pc = ready.code.0.value;
}

-- `cpu'` is where a round for each instruction leads, with the effects of all, and with the
-- rest of the words to run.
pub record Reaches (cpu : Cpu) (is : List Instr) (ws : List ℕ) (cpu' : Cpu) : Type 0 where
  pub runs : run (length is) cpu ≡ running cpu'
  pub state : machine_of cpu' ≡ effects is (machine_of cpu)
  pub ready : IsReady cpu' ws
  pub framed : IsFramed cpu.memory cpu'.memory

-- A round of an instruction that leads to other words.
pub step-To :
    {cpu : Cpu} (i : Instr) {ws : List ℕ} {a : ℕ} (words : List ℕ)
    → IsReady cpu (encode i ∷ ws)
    → Fits i
    → MayAccess cpu i
    → (effect i (machine_of cpu)).pc ≡ a
    → CodeAt cpu.memory a words
    → (cpu' : Cpu) × (step cpu ≡ running cpu')
      × (machine_of cpu' ≡ effect i (machine_of cpu))
      × IsReady cpu' words
      × IsFramed cpu.memory cpu'.memory
step-To {cpu} i {a = a} words ready fit may to code =
    let (cpu', e, same) =
      step-Refines cpu i ready.valid ready.loaded fit (IsReady-Fetches ready) may in
    let framed : IsFramed cpu.memory cpu'.memory = step-IsFramed cpu e in
    let pc : cpu'.pc ≡ a = ap (λ (m : Machine). m.pc) same ∙ to in
    (
      cpu',
      e,
      same,
      record {
        valid = step-IsValid ready.valid e;
        loaded = record {
          small = rw framed.same_size ready.loaded.small;
          on_host = rw (framed.same_base, framed.same_size) ready.loaded.on_host;
        };
        code = rw pc (CodeAt-kept a words framed code);
      },
      framed,
    )

step-Reaches :
    {cpu : Cpu} (i : Instr) (ws : List ℕ)
    → IsReady cpu (encode i ∷ ws)
    → Fits i
    → May (readable_u8 cpu.memory) (writable_u8 cpu.memory) i (machine_of cpu)
    → (cpu' : Cpu) × (step cpu ≡ running cpu')
      × (machine_of cpu' ≡ effect i (machine_of cpu))
      × IsReady cpu' ws
      × IsFramed cpu.memory cpu'.memory
step-Reaches {cpu} i ws ready fit may =
    step-To i ws ready fit (May-access cpu i may)
      (May-next (readable_u8 cpu.memory) (writable_u8 cpu.memory) i (machine_of cpu) may
        ∙ omega (arith, ready.code.0.in_image, ready.loaded.small))
      ready.code.1

readable-framed :
    {before after : Memory} → IsFramed before after → readable_u8 after ≡ readable_u8 before
readable-framed framed = λ i a. leb (a + 1) (framed.same_size i) && framed.same_readable i a

writable-framed :
    {before after : Memory} → IsFramed before after → writable_u8 after ≡ writable_u8 before
writable-framed framed = λ i a. leb (a + 1) (framed.same_size i) && framed.same_writable i a

-- Code without jumps runs to its end, with the effects of its instructions.
pub run-Reaches :
    {cpu : Cpu} (is : List Instr) (ws : List ℕ)
    → IsReady cpu (map encode is ++ ws)
    → Allowed (readable_u8 cpu.memory) (writable_u8 cpu.memory) is (machine_of cpu)
    → (cpu' : Cpu) × Reaches cpu is ws cpu'
unfolding run
run-Reaches {cpu} [] ws ready allowed =
    (cpu, record { runs = refl; state = refl; ready = ready; framed = IsFramed-refl cpu.memory })
run-Reaches {cpu} (i ∷ is) ws ready (fit, may, allowed) =
    let (next, e, same, ready', framed) = step-Reaches i (map encode is ++ ws) ready fit may in
    let (cpu', after) =
      run-Reaches {cpu = next} is ws ready'
        (rw (readable-framed framed, writable-framed framed, same) allowed) in
    (
      cpu',
      record {
        runs = rw (run, e) after.runs;
        state = after.state ∙ ap (effects is) same;
        ready = after.ready;
        framed = IsFramed-trans framed after.framed;
      },
    )

-- At an ECALL it ends.
pub run-ecall :
    {cpu : Cpu} {ws : List ℕ} (n : ℕ) → IsReady cpu (0x73 ∷ ws) → run (suc n) cpu ≡ aborted
unfolding run
run-ecall n ready = rw (run, step-ecall_aborts (IsReady-Fetches ready)) refl

-- Two rounds.
pub run-two :
    (cpu : Cpu) {cpu1 cpu2 : Cpu}
    → step cpu ≡ running cpu1
    → step cpu1 ≡ running cpu2
    → run 2 cpu ≡ running cpu2
unfolding run
run-two cpu e f = rw (run, e, run, f) refl
