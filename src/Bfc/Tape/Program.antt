-- ===== src/Bfc/Tape/Program.antt =====
-- A whole program in memory, from its first instruction on.
use rv32isam.Base.{
  ℕ, suc, ◌+◌, ◌-◌, ◌*◌, ◌/◌, ◌%◌, ◌^◌, ◌≤◌, ◌<◌, ◌≡◌, refl, ◌∙◌, ap, arith, List, [], ◌∷◌, ◌++◌,
  Bool, true, false, ◌==◌, if◌then◌else◌,
}
use rv32isam.Base.Lists.{length, All, none_left, and_all}
use rv32isam.Base.Word.{IsU32}
use rv32isam.Isa
use rv32isam.Isa.{Instr, encode}
use rv32isam.Interpret.State.{Cpu, Memory}
use rv32isam.Interpret.Run.Code.{CodeAt, IsReady, run-Reaches}
use rv32isam.Bfc.Compile.{plus, minus, dot, comma, greater, less}
use rv32isam.Bfc.Compile.StraightLine.{code_of, body_words, program_words, words_bytes}
use rv32isam.Out.At.{at}
use rv32isam.Bfc.Tape.{blank, meaning}
use rv32isam.Bfc.Tape.Runs.{HasTape, HasTape-framed, Ends?, Ends-after, exit_words, body-Ends}

abbrev prologue_instrs : List Instr
prologue_instrs = Isa.lui 9 0 ∷ Isa.op_imm Isa.addi 9 0 0 ∷ []

-- From the first instruction on, a program with a meaning ends with the tape that is meant, when the
-- memory of the tape is zero.
pub program-Ends :
    (size : ℕ) (input : List ℕ) {cpu : Cpu}
    → IsReady cpu (program_words input)
    → HasTape size cpu.memory
    → ((a : ℕ) → a < size → cpu.memory.bytes a ≡ 0)
    → Ends? size (5 * length input + 4) cpu (meaning size input blank)
program-Ends size input {cpu} ready h zeros =
    let (cpu', r) =
      run-Reaches prologue_instrs (body_words input ++ exit_words) ready
        ((omega arith, omega arith), tt, ((omega arith, omega arith, omega arith), tt, tt)) in
    Ends-after size (5 * length input + 2) cpu 2 (meaning size input blank) r.runs r.framed
      (omega arith)
      (body-Ends size input r.ready (HasTape-framed size r.framed h) (
        rw r.state record {
          pointer = refl;
          pointer_fits = omega arith;
          cells = zeros;
          bytes = λ a lt. omega arith;
        }))

word_of :
    (w : ℕ)
    → IsU32 w
    → w % 2 ^ 8
        + w / 2 ^ 8 % 2 ^ 8 * 2 ^ 8
        + w / 2 ^ 16 % 2 ^ 8 * 2 ^ 16
        + w / 2 ^ 24 % 2 ^ 8 * 2 ^ 24
      ≡ w
word_of w h = omega arith

-- Words whose bytes lie in memory that can be read but not written to, from a multiple of 4 on.
pub CodeAt-words :
    (memory : Memory) (a : ℕ) (ws : List ℕ)
    → All IsU32 ws
    → (memory.base + a) % 4 ≡ 0
    → a + length (words_bytes ws) ≤ memory.size
    → ((j : ℕ) → j < length (words_bytes ws) → memory.bytes (a + j) ≡ at (words_bytes ws) j)
    → ((j : ℕ) → j < length (words_bytes ws) → memory.readable (a + j) ≡ true)
    → ((j : ℕ) → j < length (words_bytes ws) → memory.writable (a + j) ≡ false)
    → CodeAt memory a ws
CodeAt-words memory a [] fits aligned room holds reads kept = tt
CodeAt-words memory a (w ∷ ws) (and_all fit fits) aligned room holds reads kept = (
  record {
    aligned = aligned;
    in_image = omega (arith, room);
    value =
        rw (first, holds 1 (omega arith), holds 2 (omega arith), holds 3 (omega arith))
          (word_of w fit);
    readable = λ b from to. ap memory.readable (omega arith) ∙ reads (b - a) (omega arith);
    read_only = λ b from to. ap memory.writable (omega arith) ∙ kept (b - a) (omega arith);
  },
  CodeAt-words memory (a + 4) ws fits (omega arith) (omega (arith, room))
      (λ j lt. ap memory.bytes (omega arith) ∙ holds (suc (suc (suc (suc j)))) (omega (arith, lt)))
      (λ j lt.
        ap memory.readable (omega arith) ∙ reads (suc (suc (suc (suc j)))) (omega (arith, lt)))
      (λ j lt.
        ap memory.writable (omega arith) ∙ kept (suc (suc (suc (suc j)))) (omega (arith, lt))),
)
  where
    first : memory.bytes a ≡ w % 2 ^ 8
    first = ap memory.bytes (omega arith) ∙ holds 0 (omega arith)

if-All : (b : Bool) {l m : List ℕ} → All IsU32 l → All IsU32 m → All IsU32 (if b then l else m)
if-All true p q = p
if-All false p q = q

pub All-append : {l m : List ℕ} → All IsU32 l → All IsU32 m → All IsU32 (l ++ m)
All-append none_left q = q
All-append (and_all p rest) q = and_all p (All-append rest q)

pub code_of-IsU32 : (c : ℕ) → All IsU32 (code_of c)
code_of-IsU32 c =
    if-All (c == plus)
      (and_all (omega arith) (and_all (omega arith) (and_all (omega arith) none_left)))
      (if-All (c == minus)
        (and_all (omega arith) (and_all (omega arith) (and_all (omega arith) none_left)))
        (if-All (c == dot)
          (and_all (omega arith) (
            and_all (omega arith)
              (and_all (omega arith) (and_all (omega arith) (and_all (omega arith) none_left)))))
          (if-All (c == comma)
            (and_all (omega arith) (
              and_all (omega arith)
                (and_all (omega arith) (and_all (omega arith) (and_all (omega arith) none_left)))))
            (if-All (c == greater) (and_all (omega arith) none_left)
              (if-All (c == less) (and_all (omega arith) none_left) none_left)))))

body_words-IsU32 : (input : List ℕ) → All IsU32 (body_words input)
body_words-IsU32 [] = none_left
body_words-IsU32 (c ∷ input) = All-append (code_of-IsU32 c) (body_words-IsU32 input)

pub program_words-IsU32 : (input : List ℕ) → All IsU32 (program_words input)
program_words-IsU32 input = and_all (omega arith) (
    and_all (omega arith) (
      All-append (body_words-IsU32 input)
        (and_all (omega arith) (and_all (omega arith) (and_all (omega arith) none_left)))))
