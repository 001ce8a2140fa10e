-- ===== src/Bfc/Compile/Balanced.antt =====
-- The code that the compiler emits for programs with loops, as a list of instruction words.
use mathlib.Core.List.{append_assoc}
use rv32isam.Base.{
  ℕ, ◌*◌, ◌%◌, ◌^◌, ◌≤◌, ◌≡◌, ◌≢◌, refl, sym, ap, arith, false, List, [], ◌∷◌, ◌++◌, ◌==◌,
}
use rv32isam.Base.Lists.{length, length-append}
use rv32isam.Isa
use rv32isam.Isa.{encode}
use rv32isam.Bfc.Laws.{ecall_word}
use rv32isam.Bfc.Compile.{left_bracket, right_bracket, until_eof}
use rv32isam.Bfc.Compile.StraightLine.{
  IsStraight, done, straight, body_words, words_bytes, code_of, length-code_of, addi_word,
}
use rv32isam.Bfc.Compile.LoopWords.{back_word}
use rv32isam.Bfc.Compile.LoopCode.{distance}

-- lbu t0, 0(s1); beq t0, zero; the body; and the jump back, which holds the same distance negated.
abbrev pub loop_words : List ℕ → List ℕ
loop_words vs =
    encode (Isa.lbu 5 9 0)
    ∷ encode (Isa.branch Isa.equal 5 0 (distance (words_bytes vs) % 2 ^ 13))
    ∷ (vs ++ back_word (distance (words_bytes vs)) ∷ [])

-- Programs whose brackets are balanced, without the byte that ends the input, and their code.
pub data Compiles : List ℕ → List ℕ → Type 0 where
  empty_program : Compiles [] []
  character :
      (c : ℕ) {input ws : List ℕ}
      → c ≢ left_bracket
      → c ≢ right_bracket
      → c ≢ 255
      → Compiles input ws
      → Compiles (c ∷ input) (code_of c ++ ws)
  loop :
      {body input vs ws : List ℕ}
      → Compiles body vs
      → Compiles input ws
      → Compiles (left_bracket ∷ (body ++ right_bracket ∷ input)) (loop_words vs ++ ws)

-- Without brackets, the code of the characters in their order.
pub straight-Compiles : {input : List ℕ} → IsStraight input → Compiles input (body_words input)
straight-Compiles done = empty_program
straight-Compiles (straight c input p q r rest) = character c p q r (straight-Compiles rest)

-- lui s1, 0; addi s1, zero, 0; the code; addi a7, zero, 93; addi a0, zero, 0; ecall
abbrev pub balanced_words : List ℕ → List ℕ
balanced_words ws =
    (encode (Isa.lui 9 0) ∷ addi_word 9 0 0 ∷ [])
    ++ (ws ++ (addi_word 17 0 93 ∷ addi_word 10 0 0 ∷ ecall_word ∷ []))

pub length-words_bytes : (ws : List ℕ) → length (words_bytes ws) ≡ 4 * length ws
length-words_bytes [] = refl
length-words_bytes (w ∷ ws) = omega (arith, length-words_bytes ws)

pub length-Compiles : {input ws : List ℕ} → Compiles input ws → length ws ≤ 5 * length input
length-Compiles empty_program = omega arith
length-Compiles (character c {input} {ws} p q r rest) = omega (
  arith,
  length-append (code_of c) ws,
  length-words_bytes (code_of c),
  length-code_of c,
  length-Compiles rest,
)
length-Compiles (loop {body} {input} {vs} {ws} inner rest) = omega (
  arith,
  length-append (loop_words vs) ws,
  length-append vs (back_word (distance (words_bytes vs)) ∷ []),
  length-append body (right_bracket ∷ input),
  length-Compiles inner,
  length-Compiles rest,
)

-- The code ends before any byte 255.
pub until_eof-Compiles :
    {input ws : List ℕ} (tail : List ℕ)
    → Compiles input ws
    → until_eof (input ++ tail) ≡ input ++ until_eof tail
unfolding until_eof
until_eof-Compiles tail empty_program = refl
until_eof-Compiles tail (character c {input} p q r rest) =
    let e : (c == 255) ≡ false = ground arith in rw (e, until_eof-Compiles tail rest) refl
until_eof-Compiles tail (loop {body} {input} inner rest) =
    rw
      (
        append_assoc body (right_bracket ∷ input) tail,
        until_eof-Compiles (right_bracket ∷ (input ++ tail)) inner,
        until_eof-Compiles tail rest,
      )
      (ap (λ (l : List ℕ). left_bracket ∷ l)
        (sym (append_assoc body (right_bracket ∷ input) (until_eof tail))))
