-- ===== src/Bfc/Tape/Loop.antt =====
-- The beginning of a compiled loop in the interpreter, from the program on.
use rv32isam.Base.{ℕ, ◌+◌, ◌%◌, ◌^◌, ◌≤◌, ◌<◌, ◌≡◌, true, false, List, [], ◌∷◌, ◌++◌}
use rv32isam.Base.Lists.{length, All}
use rv32isam.Isa
use rv32isam.Isa.{Instr}
use rv32isam.Interpret.State.{Memory}
use rv32isam.Bfc.Compile.StraightLine.{words_bytes, addi_word}
use rv32isam.Bfc.Compile.LoopWords.{back_word}
use rv32isam.Bfc.Compile.LoopCode.{distance}
use rv32isam.Bfc.Laws.{ecall_word}
use rv32isam.Out.{Out}
use rv32isam.Out.At.{at}

-- The words of a loop after its load, and after its branch.
abbrev branch_of : List ℕ → Instr
branch_of vs = Isa.branch Isa.equal 5 0 (distance (words_bytes vs) % 2 ^ 13)

abbrev pub body_of : List ℕ → List ℕ → List ℕ
body_of vs ws = vs ++ back_word (distance (words_bytes vs)) ∷ ws

abbrev exit_code : List ℕ
exit_code = addi_word 17 0 93 ∷ addi_word 10 0 0 ∷ ecall_word ∷ []

-- The processor has the bytes in memory from `a` on, which can be read but not written to.
pub record HasCode (memory : Memory) (a : ℕ) (code : List ℕ) : Type 0 where
  pub aligned : (memory.base + a) % 4 ≡ 0
  pub room : a + length code ≤ memory.size
  pub holds : (j : ℕ) → j < length code → memory.bytes (a + j) ≡ at code j
  pub readable : (j : ℕ) → j < length code → memory.readable (a + j) ≡ true
  pub read_only : (j : ℕ) → j < length code → memory.writable (a + j) ≡ false
