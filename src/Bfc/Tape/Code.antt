-- ===== src/Bfc/Tape/Code.antt =====
-- The code of a character against its meaning.
use rv32isam.Base.{
  if◌then◌else◌, ℕ, ◌+◌, ◌-◌, ◌%◌, ◌^◌, ◌≤◌, ◌<◌, ◌≡◌, refl, ◌∙◌, ap, arith, List, [], ◌∷◌, ◌++◌,
  Option, none, some, Bool, true, false, Bool-cases, inl, inr, ltb, ◌==◌,
}
use rv32isam.Base.Lists.{length, map}
use rv32isam.Base.Word.{signed}
use rv32isam.Isa
use rv32isam.Isa.{Instr, Machine, encode}
use rv32isam.Interpret.Run.Code.{effects, Allowed}
use rv32isam.Bfc.Tape.{Tape, is_call, add_cell, move_pointer, act}
use rv32isam.Bfc.Compile.StraightLine.{code_of}

-- The tape lies at the beginning of memory, and x9 points to its cell.
pub record IsTape (size : ℕ) (m : Machine) (tape : Tape) : Type 0 where
  pub pointer : m.x 9 ≡ tape.pointer
  pub pointer_fits : tape.pointer < 2 ^ 32
  pub cells : (a : ℕ) → a < size → m.mem a ≡ tape.cells a
  pub bytes : (a : ℕ) → a < size → tape.cells a < 256

abbrev pub cell_code : ℕ → List Instr
cell_code imm = Isa.lbu 5 9 0 ∷ Isa.op_imm Isa.addi 5 5 imm ∷ Isa.sb 5 9 0 ∷ []

-- The instructions of a character that is not a call.
abbrev pub instrs_of : ℕ → List Instr
instrs_of c =
    if c == 43
    then cell_code 1
    else if c == 45
    then cell_code 4095
    else if c == 62
    then Isa.op_imm Isa.addi 9 9 1 ∷ []
    else if c == 60
    then Isa.op_imm Isa.addi 9 9 4095 ∷ []
    else []

-- The instructions before a system call, and those before the last one.
abbrev pub call_instrs : ℕ → List Instr
call_instrs number =
    Isa.op_imm Isa.addi 17 0 number
    ∷ Isa.op_imm Isa.addi 10 0 1
    ∷ Isa.op Isa.or 10 0 9
    ∷ Isa.op_imm Isa.addi 12 0 1
    ∷ []

abbrev pub exit_instrs : List Instr
exit_instrs = Isa.op_imm Isa.addi 17 0 93 ∷ Isa.op_imm Isa.addi 10 0 0 ∷ []

-- Which of the characters it is, as the tests tell it.
data Kind (c : ℕ) : Type 0 where
  is_plus : (c == 43) ≡ true → Kind c
  is_minus : (c == 43) ≡ false → (c == 45) ≡ true → Kind c
  is_greater : (c == 43) ≡ false → (c == 45) ≡ false → (c == 62) ≡ true → Kind c
  is_less : (c == 43) ≡ false → (c == 45) ≡ false → (c == 62) ≡ false → (c == 60) ≡ true → Kind c
  is_remark : (c == 43) ≡ false → (c == 45) ≡ false → (c == 62) ≡ false → (c == 60) ≡ false → Kind c

character-Kind : (c : ℕ) → Kind c
character-Kind c = elim (Bool-cases (c == 43)) [
  | inl e ↦ is_plus e
  | inr n43 ↦ elim (Bool-cases (c == 45)) [
    | inl e ↦ is_minus n43 e
    | inr n45 ↦ elim (Bool-cases (c == 62)) [
      | inl e ↦ is_greater n43 n45 e
      | inr n62 ↦ elim (Bool-cases (c == 60)) [
        | inl e ↦ is_less n43 n45 n62 e
        | inr n60 ↦ is_remark n43 n45 n62 n60
      ]
    ]
  ]
]

module _ (size : ℕ) (readable writable : ℕ → Bool) where
  -- The instructions may run, and their effect on the tape is the one told.
  pub record Does (is : List Instr) (m : Machine) (tape' : Tape) : Type 0 where
    pub allowed : Allowed readable writable is m
    pub tape : IsTape size (effects is m) tape'

  -- Where the tape has one.
  abbrev pub Does? : List Instr → Machine → Option Tape → Type 0
  Does? is m none = Unit
  Does? is m (some tape') = Does is m tape'

-- Memory that begins with the tape, which can be read and written to.
module _ (size : ℕ) (readable writable : ℕ → Bool) (loads : (a : ℕ) → a < size → readable a ≡ true)
    (may : (a : ℕ) → a < size → writable a ≡ true) where
  add_cell-Does :
      (imm n : ℕ) (m : Machine) (tape : Tape)
      → imm < 2 ^ 12
      → ((a : ℕ) → a < 256 → Isa.move a (signed 12 imm) % 2 ^ 8 ≡ (a + n) % 256)
      → IsTape size m tape
      → Does? size readable writable (cell_code imm) m (add_cell size n tape)
  add_cell-Does imm n m tape h k t = elim (Bool-cases (ltb tape.pointer size)) [
    | inl inside ↦
        let lt : tape.pointer < size = ground (arith, inside) in
        let at : Isa.move (m.x 9) (signed 12 0) ≡ tape.pointer =
          omega (arith, t.pointer, t.pointer_fits) in
        let old : m.mem tape.pointer ≡ tape.cells tape.pointer = t.cells tape.pointer lt in
        let new = k (tape.cells tape.pointer) (t.bytes tape.pointer lt) in
        rw inside record {
          allowed =
              rw (at, loads tape.pointer lt, may tape.pointer lt)
                (
                  (omega arith, omega arith, omega arith),
                  refl,
                  (
                    (omega arith, omega arith, h),
                    tt,
                    ((omega arith, omega arith, omega arith), refl, tt),
                  ),
                );
          tape = record {
            pointer = t.pointer;
            pointer_fits = t.pointer_fits;
            cells = λ a inside'. rw (at, old, new) (ground (arith, t.cells a inside'));
            bytes = λ a inside'. ground (arith, t.bytes a inside');
          };
        }
    | inr outside ↦ rw outside tt
  ]

  move_pointer-Does :
      (imm n : ℕ) (m : Machine) (tape : Tape)
      → imm < 2 ^ 12
      → ((a : ℕ) → a < 2 ^ 32 → Isa.move a (signed 12 imm) ≡ (a + n) % 2 ^ 32)
      → IsTape size m tape
      → Does size readable writable (Isa.op_imm Isa.addi 9 9 imm ∷ []) m (move_pointer size n tape)
  move_pointer-Does imm n m tape h k t = record {
    allowed = ((omega arith, omega arith, h), tt, tt);
    tape = record {
      pointer =
          ap (λ (a : ℕ). Isa.move a (signed 12 imm)) t.pointer ∙ k tape.pointer t.pointer_fits;
      pointer_fits = omega arith;
      cells = t.cells;
      bytes = t.bytes;
    };
  }

  -- A character that is no call: its instructions may run where it has a meaning, and do what it means.
  pub act-Does :
      (c : ℕ) (m : Machine) (tape : Tape)
      → IsTape size m tape
      → Does? size readable writable (instrs_of c) m (act size c tape)
  act-Does c m tape t = elim (character-Kind c) [
    | is_plus e ↦ rw e (add_cell-Does 1 1 m tape (omega arith) (λ a h. omega arith) t)
    | is_minus n43 e ↦
        rw (n43, e) (add_cell-Does 4095 255 m tape (omega arith) (λ a h. omega arith) t)
    | is_greater n43 n45 e ↦
        rw (n43, n45, e) (move_pointer-Does 1 1 m tape (omega arith) (λ a h. omega arith) t)
    | is_less n43 n45 n62 e ↦
        rw (n43, n45, n62, e)
          (move_pointer-Does 4095 (2 ^ 32 - 1) m tape (omega arith) (λ a h. omega arith) t)
    | is_remark n43 n45 n62 n60 ↦ rw (n43, n45, n62, n60) record { allowed = tt; tape = t }
  ]

  pub call-Does :
      (number : ℕ) (m : Machine) (tape : Tape)
      → number < 2 ^ 12
      → IsTape size m tape
      → Does size readable writable (call_instrs number) m tape
  call-Does number m tape h t = record {
    allowed = (
      (omega arith, omega arith, h),
      tt,
      (
        (omega arith, omega arith, omega arith),
        tt,
        (
          (omega arith, omega arith, omega arith),
          tt,
          ((omega arith, omega arith, omega arith), tt, tt),
        ),
      ),
    );
    tape = record {
      pointer = t.pointer;
      pointer_fits = t.pointer_fits;
      cells = t.cells;
      bytes = t.bytes;
    };
  }

  pub exit-Does :
      (m : Machine) (tape : Tape)
      → IsTape size m tape
      → Does size readable writable exit_instrs m tape
  exit-Does m tape t = record {
    allowed = (
      (omega arith, omega arith, omega arith),
      tt,
      ((omega arith, omega arith, omega arith), tt, tt),
    );
    tape = record {
      pointer = t.pointer;
      pointer_fits = t.pointer_fits;
      cells = t.cells;
      bytes = t.bytes;
    };
  }

pub length-instrs_of : (c : ℕ) → length (instrs_of c) ≤ 5
length-instrs_of c = elim (character-Kind c) [
  | is_plus e ↦ rw e (omega arith)
  | is_minus n43 e ↦ rw (n43, e) (omega arith)
  | is_greater n43 n45 e ↦ rw (n43, n45, e) (omega arith)
  | is_less n43 n45 n62 e ↦ rw (n43, n45, n62, e) (omega arith)
  | is_remark n43 n45 n62 n60 ↦ rw (n43, n45, n62, n60) (omega arith)
]

-- The words of such a character are those of its instructions.
pub code_of-instrs_of : (c : ℕ) → is_call c ≡ false → code_of c ≡ map encode (instrs_of c)
code_of-instrs_of c no_call =
    let n46 : (c == 46) ≡ false = ground (arith, no_call) in
    let n44 : (c == 44) ≡ false = ground (arith, no_call) in
    elim (character-Kind c) [
      | is_plus e ↦ rw e refl
      | is_minus n43 e ↦ rw (n43, e) refl
      | is_greater n43 n45 e ↦ rw (n43, n45, n46, n44, e) refl
      | is_less n43 n45 n62 e ↦ rw (n43, n45, n46, n44, n62, e) refl
      | is_remark n43 n45 n62 n60 ↦ rw (n43, n45, n46, n44, n62, n60) refl
    ]

-- Those of a call end with ECALL.
pub code_of-call :
    (c : ℕ)
    → is_call c ≡ true
    → (number : ℕ) × (number < 2 ^ 12) × (code_of c ≡ map encode (call_instrs number) ++ 0x73 ∷ [])
code_of-call c call = elim (Bool-cases (c == 46)) [
  | inl e ↦
      let n43 : (c == 43) ≡ false = ground (arith, e) in
      let n45 : (c == 45) ≡ false = ground (arith, e) in (64, omega arith, rw (n43, n45, e) refl)
  | inr n46 ↦
      let e : (c == 44) ≡ true = ground (arith, call) in
      let n43 : (c == 43) ≡ false = ground (arith, e) in
      let n45 : (c == 45) ≡ false = ground (arith, e) in
      (63, omega arith, rw (n43, n45, n46, e) refl)
]
