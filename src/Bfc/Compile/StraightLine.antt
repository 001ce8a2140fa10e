-- ===== src/Bfc/Compile/StraightLine.antt =====
-- The code that the compiler emits for characters other than brackets, and for programs of those, as a
-- list of instruction words.
use rv32isam.Base.{
  ℕ, ◌-◌, ◌%◌, ◌^◌, ◌≤◌, ◌≡◌, ◌≢◌, refl, sym, arith, Bool, true, false, List, [], ◌∷◌, ◌++◌, ◌==◌,
  if◌then◌else◌,
}
use mathlib.Core.List.{append-nil}
use rv32isam.Base.Lists.{length}
use rv32isam.Isa
use rv32isam.Isa.{encode, Instr}
use rv32isam.Out.{Out}
use rv32isam.Out.Laws.{IsValid, HasRoom, word_bytes, Appends, contents}
use rv32isam.Bfc.Laws.{
  ecall_word, and_then, asm_addi-Appends, asm_lui-Appends, asm_lbu-Appends, asm_sb-Appends,
  asm_or-Appends, asm_ecall-Appends,
}
use rv32isam.Bfc.Compile.{
  plus, minus, dot, comma, greater, less, left_bracket, right_bracket, write_cell, call,
  compile_simple, prologue, epilogue,
}

abbrev pub words_bytes : List ℕ → List ℕ
words_bytes [] = []
words_bytes (w ∷ ws) = word_bytes w ++ words_bytes ws

-- addi rd, rs1, imm
abbrev pub addi_word : ℕ → ℕ → ℕ → ℕ
addi_word rd rs1 imm = encode (Isa.op_imm Isa.addi rd rs1 imm)

-- lbu t0, 0(s1); addi t0, t0, imm; sb t0, 0(s1)
abbrev pub cell_words : ℕ → List ℕ
cell_words imm = encode (Isa.lbu 5 9 0) ∷ addi_word 5 5 imm ∷ encode (Isa.sb 5 9 0) ∷ []

-- addi a7, zero, number; addi a0, zero, 1; or a0, zero, s1; addi a2, zero, 1; ecall
abbrev pub call_words : ℕ → List ℕ
call_words number =
    addi_word 17 0 number
    ∷ addi_word 10 0 1
    ∷ encode (Isa.op Isa.or 10 0 9)
    ∷ addi_word 12 0 1
    ∷ ecall_word
    ∷ []

abbrev pub code_of : ℕ → List ℕ
code_of c =
    if c == plus
    then cell_words 1
    else if c == minus
    then cell_words 4095
    else if c == dot
    then call_words 64
    else if c == comma
    then call_words 63
    else if c == greater
    then addi_word 9 9 1 ∷ []
    else if c == less
    then addi_word 9 9 4095 ∷ []
    else []

if_length :
    (b : Bool) (l m : List ℕ)
    → length (words_bytes l) ≤ 20
    → length (words_bytes m) ≤ 20
    → length (words_bytes (if b then l else m)) ≤ 20
if_length true l m p q = p
if_length false l m p q = q

pub length-code_of : (c : ℕ) → length (words_bytes (code_of c)) ≤ 20
length-code_of c = if_length (c == plus) _ _ (omega arith) (
    if_length (c == minus) _ _ (omega arith) (
      if_length (c == dot) _ _ (omega arith) (
        if_length (c == comma) _ _ (omega arith) (
          if_length (c == greater) _ _ (omega arith)
            (if_length (c == less) _ _ (omega arith) (omega arith))))))

-- Programs without brackets, and without the byte that ends the input.
pub data IsStraight : List ℕ → Type 0 where
  done : IsStraight []
  straight :
      (c : ℕ) (input : List ℕ)
      → c ≢ left_bracket
      → c ≢ right_bracket
      → c ≢ 255
      → IsStraight input
      → IsStraight (c ∷ input)

abbrev pub body_words : List ℕ → List ℕ
body_words [] = []
body_words (c ∷ input) = code_of c ++ body_words input

-- lui s1, 0; addi s1, zero, 0, the body, addi a7, zero, 93; addi a0, zero, 0; ecall
abbrev pub program_words : List ℕ → List ℕ
program_words input =
    (encode (Isa.lui 9 0) ∷ addi_word 9 0 0 ∷ [])
    ++ (body_words input ++ (addi_word 17 0 93 ∷ addi_word 10 0 0 ∷ ecall_word ∷ []))

pub words_bytes-append : (l m : List ℕ) → words_bytes (l ++ m) ≡ words_bytes l ++ words_bytes m
words_bytes-append [] m = refl
words_bytes-append (w ∷ ws) m = rw (words_bytes-append ws m) refl

module _ (z : ℕ) where
  -- At most 20 bytes for a character.
  write_cell-Appends :
      (out : Out) (imm : ℕ)
      → IsValid out
      → HasRoom out 20
      → Appends z out (words_bytes (cell_words (imm % 2 ^ 12))) (write_cell z out imm)
  unfolding write_cell
  write_cell-Appends out imm v room =
      and_then z (omega arith)
        (and_then z (omega arith)
          (asm_lbu-Appends z out 9 5 0 v (omega arith) (omega arith) (omega arith))
          (λ v' room'. asm_addi-Appends z _ 5 5 imm v' room' (omega arith) (omega arith)))
        (λ v' room'. asm_sb-Appends z _ 9 5 0 v' room' (omega arith) (omega arith))

  call-Appends :
      (out : Out) (number : ℕ)
      → IsValid out
      → HasRoom out 20
      → Appends z out (words_bytes (call_words (number % 2 ^ 12))) (call z out number)
  unfolding call
  call-Appends out number v room =
      and_then z (omega arith)
        (and_then z (omega arith)
          (and_then z (omega arith)
            (and_then z (omega arith)
              (asm_addi-Appends z out 17 0 number v (omega arith) (omega arith) (omega arith))
              (λ v' room'. asm_addi-Appends z _ 10 0 1 v' room' (omega arith) (omega arith)))
            (λ v' room'.
              asm_or-Appends z _ 10 0 9 v' room' (omega arith) (omega arith) (omega arith)))
          (λ v' room'. asm_addi-Appends z _ 12 0 1 v' room' (omega arith) (omega arith)))
        (λ v' room'. asm_ecall-Appends z _ v' room')

  pub nothing-Appends : (out : Out) → IsValid out → Appends z out [] out
  nothing-Appends out v = record {
    valid = v;
    new_len = omega arith;
    new_contents = sym (append-nil (contents out));
  }

  if-Appends :
      (b : Bool) (out : Out) (l m : List ℕ) (o p : Out)
      → Appends z out (words_bytes l) o
      → Appends z out (words_bytes m) p
      → Appends z out (words_bytes (if b then l else m)) (if b then o else p)
  if-Appends true out l m o p x y = x
  if-Appends false out l m o p x y = y

  -- A character without a loop adds its code.
  pub compile_simple-Appends :
      (out : Out) (c : ℕ)
      → IsValid out
      → HasRoom out 20
      → Appends z out (words_bytes (code_of c)) (compile_simple z out c)
  unfolding compile_simple
  compile_simple-Appends out c v room =
      let r : HasRoom out 4 = omega arith in
      if-Appends (c == plus) out _ _ _ _ (write_cell-Appends out 1 v room) (
        if-Appends (c == minus) out _ _ _ _ (write_cell-Appends out (2 ^ 16 - 1) v room) (
          if-Appends (c == dot) out _ _ _ _ (call-Appends out 64 v room) (
            if-Appends (c == comma) out _ _ _ _ (call-Appends out 63 v room) (
              if-Appends (c == greater) out _ _ _ _
                (asm_addi-Appends z out 9 9 1 v r (omega arith) (omega arith))
                (if-Appends (c == less) out _ _ _ _
                  (asm_addi-Appends z out 9 9 (2 ^ 16 - 1) v r (omega arith) (omega arith))
                  (nothing-Appends out v))))))

  pub prologue-Appends :
      (out : Out)
      → IsValid out
      → HasRoom out 8
      → Appends z out (words_bytes (encode (Isa.lui 9 0) ∷ addi_word 9 0 0 ∷ [])) (prologue z out)
  unfolding prologue
  prologue-Appends out v room =
      and_then z (omega arith) (asm_lui-Appends z out 9 0 v (omega arith) (omega arith))
        (λ v' room'. asm_addi-Appends z _ 9 0 0 v' room' (omega arith) (omega arith))

  pub epilogue-Appends :
      (out : Out)
      → IsValid out
      → HasRoom out 12
      → Appends z out
          (words_bytes (addi_word 17 0 93 ∷ addi_word 10 0 0 ∷ ecall_word ∷ []))
          (epilogue z out)
  unfolding epilogue
  epilogue-Appends out v room =
      and_then z (omega arith)
        (and_then z (omega arith)
          (asm_addi-Appends z out 17 0 93 v (omega arith) (omega arith) (omega arith))
          (λ v' room'. asm_addi-Appends z _ 10 0 0 v' room' (omega arith) (omega arith)))
        (λ v' room'. asm_ecall-Appends z _ v' room')
