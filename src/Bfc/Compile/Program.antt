-- ===== src/Bfc/Compile/Program.antt =====
-- `compile_stdin` on programs whose brackets are balanced.
use mathlib.Core.List.{append_assoc, append-nil}
use rv32isam.Base.{
  ℕ, ◌+◌, ◌*◌, ◌≤◌, ◌<◌, ◌≡◌, refl, sym, ◌∙◌, ap, arith, false, some, List, [], ◌∷◌, ◌++◌, ◌==◌,
}
use rv32isam.Base.Lists.{length, length-append}
use rv32isam.Base.Bytes.{load_u32}
use rv32isam.Isa
use rv32isam.Isa.{encode}
use rv32isam.Out.{Out, empty}
use rv32isam.Out.Laws.{IsValid, HasRoom, word_bytes, contents, Appends, Appends-trans}
use rv32isam.Out.At.{length-slice}
use rv32isam.Bfc.{beq_fields}
use rv32isam.Bfc.Laws.{ecall_word}
use rv32isam.Bfc.Compile.{
  Compiler, left_bracket, right_bracket, compile_simple, compile_char, compile_chars, compile_stdin,
  open_loop, close_loop, prologue, epilogue, until_eof,
}
use rv32isam.Bfc.Compile.StraightLine.{
  words_bytes, words_bytes-append, code_of, length-code_of, addi_word, nothing-Appends,
  compile_simple-Appends, prologue-Appends, epilogue-Appends,
}
use rv32isam.Bfc.Compile.LoopWords.{back_word}
use rv32isam.Bfc.Compile.LoopCode.{Keeps, Opens, open_loop-Opens, distance, close_loop-lem}
use rv32isam.Bfc.Compile.Balanced.{
  Compiles, empty_program, character, loop, loop_words, balanced_words, length-words_bytes,
  length-Compiles, until_eof-Compiles,
}

load-kept :
    (o o' : Out) (a : ℕ)
    → ((b : ℕ) → b < o.len → o'.bytes b ≡ o.bytes b)
    → a + 4 ≤ o.len
    → load_u32 o'.bytes a ≡ load_u32 o.bytes a
load-kept o o' a h room =
    rw
      (h a (omega arith), h (a + 1) (omega arith), h (a + 2) (omega arith), h (a + 3) (omega arith))
      refl

regroup : (a b c d : List ℕ) → (a ++ (b ++ c)) ++ d ≡ (a ++ b) ++ (c ++ d)
regroup a b c d = simp append_assoc

module _ (z : ℕ) where
  -- The state after the characters of a program: its code is appended, and the stack is as before.
  record Compiled (st : Compiler) (ws : List ℕ) (st' : Compiler) : Type 0 where
    code : Appends z st.insns (words_bytes ws) st'.insns
    stack : Keeps st.loop_begin_stack st'.loop_begin_stack

  -- From `[` over the body to `]`.
  loop-Compiled :
      (st st1 st2 : Compiler) {vs : List ℕ}
      → Opens z st st1
      → Compiled st1 vs st2
      → HasRoom st2.insns 4
      → (st3 : Compiler) × (close_loop z st2 ≡ some st3) × Compiled st (loop_words vs) st3
  loop-Compiled st st1 st2 {vs} opens inner room =
      let load = word_bytes (encode (Isa.lbu 5 9 0)) in
      let l = contents st.insns ++ load in
      let m = words_bytes vs in
      let d = distance m in
      let size : length l ≡ st.insns.len + 4 = omega (
        arith,
        length-append (contents st.insns) load,
        length-slice st.insns.bytes 0 st.insns.len,
      ) in
      let n = st.loop_begin_stack.len in
      let kept = inner.stack.same_bytes in
      let (insns, e, valid, len, code) =
        close_loop-lem z st2 l m opens.raw n inner.code.valid inner.stack.valid
          (omega (arith, inner.stack.same_len, opens.stack_len)) (omega (arith, size))
          (load-kept st1.loop_begin_stack st2.loop_begin_stack n kept
              (omega (arith, opens.stack_len))
            ∙ opens.check
            ∙ omega (arith, size))
          (load-kept st1.loop_begin_stack st2.loop_begin_stack (n + 4) kept
              (omega (arith, opens.stack_len))
            ∙ opens.branch
            ∙ omega (arith, size))
          (inner.code.new_contents
            ∙ ap (λ (bs : List ℕ). bs ++ m) opens.appends.new_contents
            ∙ regroup (contents st.insns) load (word_bytes (beq_fields 5 0 opens.raw)) m)
          room (omega (arith, length-words_bytes vs)) in
      (
        record { insns = insns; loop_begin_stack = record st2.loop_begin_stack { len = n } },
        e,
        record {
          code = record {
            valid = valid;
            new_len = omega (
              arith,
              len,
              inner.code.new_len,
              opens.appends.new_len,
              length-words_bytes vs,
              length-words_bytes (loop_words vs),
              length-append vs (back_word d ∷ []),
            );
            new_contents =
                code
                ∙ append_assoc (contents st.insns) load _
                ∙ rw (words_bytes-append vs (back_word d ∷ [])) refl;
          };
          stack = record {
            valid = record {
              within =
                  omega (arith, inner.stack.valid.within, inner.stack.same_len, opens.stack_len);
              addressable = inner.stack.valid.addressable;
            };
            same_len = refl;
            same_bytes =
                λ a lt. kept a (omega (arith, opens.stack_len, lt)) ∙ opens.stack_below a lt;
          };
        },
      )

  compile_chars-Compiled :
      {input ws : List ℕ} (tail : List ℕ) (st : Compiler)
      → Compiles input ws
      → IsValid st.insns
      → IsValid st.loop_begin_stack
      → HasRoom st.insns (20 * length input)
      → HasRoom st.loop_begin_stack (8 * length input)
      → (st' : Compiler) × (compile_chars z st (input ++ tail) ≡ compile_chars z st' tail)
        × Compiled st ws st'
  unfolding compile_chars compile_char
  compile_chars-Compiled tail st empty_program v w room stack_room = (
    st,
    refl,
    record {
      code = nothing-Appends z st.insns v;
      stack = record { valid = w; same_len = refl; same_bytes = λ a lt. refl };
    },
  )
  compile_chars-Compiled tail st (character c {input} {ws} p q r rest) v w room stack_room =
      let not_left : (c == left_bracket) ≡ false = ground arith in
      let not_right : (c == right_bracket) ≡ false = ground arith in
      let first = compile_simple-Appends z st.insns c v (omega arith) in
      let short = length-code_of c in
      let (st', e, more) =
        compile_chars-Compiled tail (record st { insns = compile_simple z st.insns c }) rest
          first.valid w (omega (arith, first.new_len, short)) (omega arith) in
      (
        st',
        rw (not_left, not_right) e,
        record {
          code = rw (words_bytes-append (code_of c) ws) (Appends-trans z first more.code);
          stack = more.stack;
        },
      )
  compile_chars-Compiled tail st (loop {body} {input} {vs} {ws} inner rest) v w room stack_room =
      let size = length-append body (right_bracket ∷ input) in
      let opens = open_loop-Opens z st v w (omega arith) (omega arith) in
      let (st2, e, within) =
        compile_chars-Compiled (right_bracket ∷ (input ++ tail)) (open_loop z st) inner
          opens.appends.valid opens.stack_valid (omega (arith, opens.appends.new_len, size))
          (omega (arith, opens.stack_len, size)) in
      let grown = length-words_bytes vs in
      let few = length-Compiles inner in
      let (st3, closed, whole) =
        loop-Compiled st (open_loop z st) st2 opens within
          (omega (arith, opens.appends.new_len, within.code.new_len, size, grown, few)) in
      let (st', e', more) =
        compile_chars-Compiled tail st3 rest whole.code.valid whole.stack.valid
          (omega (
            arith,
            whole.code.new_len,
            length-words_bytes (loop_words vs),
            length-append vs (back_word (distance (words_bytes vs)) ∷ []),
            size,
            few,
          ))
          (omega (arith, whole.stack.same_len, size)) in
      (
        st',
        ap (compile_chars z (open_loop z st)) (append_assoc body (right_bracket ∷ input) tail)
            ∙ e
            ∙ rw closed e',
        record {
          code = rw (words_bytes-append (loop_words vs) ws) (Appends-trans z whole.code more.code);
          stack = record {
            valid = more.stack.valid;
            same_len = more.stack.same_len ∙ whole.stack.same_len;
            same_bytes = λ a lt.
                more.stack.same_bytes a (omega (arith, whole.stack.same_len, lt))
                ∙ whole.stack.same_bytes a lt;
          };
        },
      )

  -- Onto a valid array with room for 20 bytes a character and 20 more, a program whose brackets are
  -- balanced, and without the byte 255, compiles, and what is appended to the instructions is its
  -- code between the prologue and the exit.
  pub compile_stdin-balanced :
      {input ws : List ℕ} (memory : ℕ → ℕ) (insns : Out)
      → Compiles input ws
      → IsValid insns
      → HasRoom insns (20 * length input + 20)
      → (insns' : Out) × (compile_stdin z memory insns input ≡ some insns')
        × Appends z insns (words_bytes (balanced_words ws)) insns'
  unfolding compile_stdin compile_chars until_eof
  compile_stdin-balanced {input} {ws} memory insns s v room =
      let exit = addi_word 17 0 93 ∷ addi_word 10 0 0 ∷ ecall_word ∷ [] in
      let before = prologue-Appends z insns v (omega arith) in
      let whole : until_eof input ≡ input ++ [] =
        sym (ap until_eof (append-nil input)) ∙ until_eof-Compiles [] s in
      let (st, e, body) =
        compile_chars-Compiled []
          record { insns = prologue z insns; loop_begin_stack = empty memory } s before.valid
          record { within = omega arith; addressable = omega arith } (omega (arith, before.new_len))
          (omega arith) in
      let after = epilogue-Appends z st.insns body.code.valid (
        omega
          (arith, before.new_len, body.code.new_len, length-words_bytes ws, length-Compiles s)) in
      (
        epilogue z st.insns,
        rw (whole, e) refl,
        rw (words_bytes-append ws exit) (Appends-trans z before (Appends-trans z body.code after)),
      )
