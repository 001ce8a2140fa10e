-- ===== src/Bfc/Compile/Loops.antt =====
-- The stack of open loops of `compile_stdin`.
use rv32isam.Base.{List, ◌∷◌, ℕ, ◌+◌, ◌-◌, ◌^◌, ◌≡◌, arith, refl, ◌∙◌, none, some, true, false, ltb}
use rv32isam.Base.Word.{IsU32, sub32}
use rv32isam.Base.Bytes.{load_u32, store_u32, load_u32-store_u32}
use rv32isam.Out.{Out, empty, out_resv_index}
use rv32isam.Out.Laws.{IsValid, HasRoom, out_resv_index-IsValid}
use rv32isam.Bfc.Compile.{
  right_bracket, until_eof, close_loop, compile_char, compile_chars, compile_stdin, push_loop,
  pop_loop,
}

pub load_u32-store_above : (f : ℕ → ℕ) (a v : ℕ) → load_u32 (store_u32 f (a + 4) v) a ≡ load_u32 f a
load_u32-store_above f a v = ground arith

pub pop_loop-open :
    (stack : Out) (n chk beq : ℕ)
    → IsValid stack
    → stack.len ≡ n + 8
    → load_u32 stack.bytes n ≡ chk
    → load_u32 stack.bytes (n + 4) ≡ beq
    → pop_loop stack
      ≡ some (record { check_offset = chk; beq_offset = beq }, record stack { len = n })
unfolding pop_loop
pop_loop-open stack n chk beq v h p q =
    let e : sub32 stack.len 8 ≡ n = omega (arith, v.within, v.addressable) in
    let t : ltb stack.cap (n + 8) ≡ false = ground (arith, v.within) in rw (e, t, p, q) refl

-- Without an open loop, `]` reads outside the stack.
pop_loop-empty : (stack : Out) → IsValid stack → stack.len ≡ 0 → pop_loop stack ≡ none
unfolding pop_loop
pop_loop-empty stack v h =
    let e : sub32 stack.len 8 ≡ 2 ^ 32 - 8 = omega arith in
    let t : ltb stack.cap (2 ^ 32) ≡ true = ground (arith, v.addressable) in rw (e, t) refl

module _ (z : ℕ) where
  -- On a valid stack with room for 8 bytes, two `u32`s pushed are what the next pop gives, and it gives
  -- the stack its length back.
  pub pop_loop-push_loop :
      (stack : Out) (chk beq : ℕ)
      → IsValid stack
      → HasRoom stack 8
      → IsU32 chk
      → IsU32 beq
      → pop_loop (push_loop z stack chk beq)
        ≡ some (
          record { check_offset = chk; beq_offset = beq },
          record (push_loop z stack chk beq) { len = stack.len },
        )
  unfolding push_loop
  pop_loop-push_loop stack chk beq v room hc hb =
      let r = out_resv_index-IsValid z stack 8 v room in
      pop_loop-open (push_loop z stack chk beq) stack.len chk beq
        (record { within = r.0.within; addressable = r.0.addressable }) r.1
        (load_u32-store_above (store_u32 (out_resv_index z stack 8).bytes stack.len chk) stack.len
            beq
          ∙ load_u32-store_u32 (out_resv_index z stack 8).bytes stack.len chk hc)
        (load_u32-store_u32 (store_u32 (out_resv_index z stack 8).bytes stack.len chk)
          (stack.len + 4) beq hb)

  -- A program that begins with `]` reads outside the stack of loops, whatever comes after.
  pub compile_stdin_unbalanced :
      (memory : ℕ → ℕ) (insns : Out) (input : List ℕ)
      → compile_stdin z memory insns (right_bracket ∷ input) ≡ none
  unfolding compile_stdin compile_chars compile_char close_loop until_eof
  compile_stdin_unbalanced memory insns input =
      rw
        (pop_loop-empty (empty memory) (record { within = omega arith; addressable = omega arith })
          refl)
        refl
