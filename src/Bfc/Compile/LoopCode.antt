-- ===== src/Bfc/Compile/LoopCode.antt =====
-- What `[` and `]` do to the arrays of the compiler.
use mathlib.Core.List.{append_assoc}
use rv32isam.Base.{ℕ, ◌+◌, ◌-◌, ◌%◌, ◌^◌, ◌≤◌, ◌<◌, ◌≡◌, refl, ◌∙◌, ap, arith, List, ◌++◌, some}
use rv32isam.Base.Lists.{length, length-append}
use rv32isam.Base.Word.{u16, sub32, add32}
use rv32isam.Base.Bytes.{load_u32, store_u32, load_u32-store_u32}
use rv32isam.Isa
use rv32isam.Isa.{encode}
use rv32isam.Out.{Out, out_resv_index}
use rv32isam.Out.Laws.{
  IsValid, HasRoom, word_bytes, contents, Appends, Appends-trans, out_resv_index-IsValid,
  out_write_u32le-store,
}
use rv32isam.Out.At.{load_u32-held, store_u32-held, length-slice}
use rv32isam.Bfc.{edit, emit, beq_fields, target_fields, set_jal, patch_beq, asm_empty_beq}
use rv32isam.Bfc.Laws.{word_bytes-mod, emit-Appends, asm_lbu-Appends}
use rv32isam.Bfc.Compile.{Compiler, push_loop, open_loop, close_loop, load_cell}
use rv32isam.Bfc.Compile.Loops.{pop_loop-open, load_u32-store_above}
use rv32isam.Bfc.Compile.LoopWords.{patched_branch, back_word, set_jal-back_word}

-- Editing a word that lies after `l` and before `m`.
edit-held :
    (fields : ℕ → ℕ) (out : Out) (l m : List ℕ) (w v : ℕ)
    → contents out ≡ l ++ (word_bytes w ++ m)
    → fields (w % 2 ^ 32) % 2 ^ 32 ≡ v
    → contents (edit fields (length l) out) ≡ l ++ (word_bytes v ++ m)
edit-held fields out l m w v held e =
    store_u32-held out l w m held (fields (load_u32 out.bytes (length l)))
    ∙ ap (λ (bs : List ℕ). l ++ (bs ++ m))
        (word_bytes-mod (fields (load_u32 out.bytes (length l))) v
          (ap (λ (t : ℕ). fields t % 2 ^ 32) (load_u32-held out l w m held) ∙ e))

-- What a loop's branch and jump hold: the bytes from the loop's check to behind its last word, around
-- the body's bytes `m`.
abbrev pub distance : List ℕ → ℕ
distance m = (length m + 12) % 2 ^ 16

-- A stack with all that another one holds, and at most more memory.
pub record Keeps (stack stack' : Out) : Type 0 where
  pub valid : IsValid stack'
  pub same_len : stack'.len ≡ stack.len
  pub same_bytes : (a : ℕ) → a < stack.len → stack'.bytes a ≡ stack.bytes a

module _ (z : ℕ) where
  -- `[` appends the load of the cell and a branch, whose target fields hold anything, and pushes where
  -- they are.
  pub record Opens (st st' : Compiler) : Type 0 where
    pub raw : ℕ
    pub appends :
        Appends z st.insns
          (word_bytes (encode (Isa.lbu 5 9 0)) ++ word_bytes (beq_fields 5 0 raw))
          st'.insns
    pub stack_valid : IsValid st'.loop_begin_stack
    pub stack_len : st'.loop_begin_stack.len ≡ st.loop_begin_stack.len + 8
    pub check : load_u32 st'.loop_begin_stack.bytes st.loop_begin_stack.len ≡ st.insns.len
    pub branch :
        load_u32 st'.loop_begin_stack.bytes (st.loop_begin_stack.len + 4) ≡ st.insns.len + 4
    pub stack_below :
        (a : ℕ)
        → a < st.loop_begin_stack.len
        → st'.loop_begin_stack.bytes a ≡ st.loop_begin_stack.bytes a

  store-below : (f : ℕ → ℕ) (a v b : ℕ) → b < a → store_u32 f a v b ≡ f b
  store-below f a v b h = ground (arith, h)

  pub open_loop-Opens :
      (st : Compiler)
      → IsValid st.insns
      → IsValid st.loop_begin_stack
      → HasRoom st.insns 8
      → HasRoom st.loop_begin_stack 8
      → Opens st (open_loop z st)
  unfolding open_loop asm_empty_beq push_loop out_resv_index
  open_loop-Opens st v w room stack_room =
      let loaded = asm_lbu-Appends z st.insns 9 5 0 v (omega arith) (omega arith) (omega arith) in
      let insns = load_cell z st.insns 5 in
      let raw = load_u32 (out_resv_index z insns 4).bytes insns.len in
      let r = out_resv_index-IsValid z st.loop_begin_stack 8 w stack_room in
      let old = (out_resv_index z st.loop_begin_stack 8).bytes in
      let n = st.loop_begin_stack.len in
      let after : insns.len ≡ st.insns.len + 4 = loaded.new_len in
      record {
        raw = raw;
        appends = Appends-trans z loaded (
            out_write_u32le-store z insns (beq_fields 5 0 raw) loaded.valid
              (omega (arith, loaded.new_len)));
        stack_valid = record { within = r.0.within; addressable = r.0.addressable };
        stack_len = r.1;
        check =
            load_u32-store_above (store_u32 old n st.insns.len) n insns.len
            ∙ load_u32-store_u32 old n st.insns.len (omega arith);
        branch =
            load_u32-store_u32 (store_u32 old n st.insns.len) (n + 4) insns.len
              (omega (arith, after))
            ∙ after;
        stack_below = λ a lt.
            store-below (store_u32 old n st.insns.len) (n + 4) insns.len a (omega arith)
            ∙ store-below old n st.insns.len a lt;
      }

  -- `]`, with the branch after `l` and the body's bytes `m` after it, sets the branch's target, appends
  -- the jump, and takes what was pushed from the stack.
  pub close_loop-lem :
      (st : Compiler) (l m : List ℕ) (raw n : ℕ)
      → IsValid st.insns
      → IsValid st.loop_begin_stack
      → st.loop_begin_stack.len ≡ n + 8
      → 4 ≤ length l
      → load_u32 st.loop_begin_stack.bytes n ≡ length l - 4
      → load_u32 st.loop_begin_stack.bytes (n + 4) ≡ length l
      → contents st.insns ≡ l ++ (word_bytes (beq_fields 5 0 raw) ++ m)
      → HasRoom st.insns 4
      → length m % 2 ≡ 0
      → (insns' : Out) × (close_loop z st
          ≡ some
              record { insns = insns'; loop_begin_stack = record st.loop_begin_stack { len = n } })
        × IsValid insns'
        × (insns'.len ≡ st.insns.len + 4)
        × (contents insns'
            ≡ l
              ++ (word_bytes (encode (Isa.branch Isa.equal 5 0 (distance m % 2 ^ 13)))
                  ++ (m ++ word_bytes (back_word (distance m)))))
  unfolding close_loop patch_beq out_resv_index
  close_loop-lem st l m raw n v w stack_len check_at chk branch_at held room even =
      let d = distance m in
      let branch = encode (Isa.branch Isa.equal 5 0 (d % 2 ^ 13)) in
      let insns = edit (target_fields d) (length l) st.insns in
      let size : st.insns.len ≡ length l + (4 + length m) = omega (
        arith,
        ap length held,
        length-slice st.insns.bytes 0 st.insns.len,
        length-append l (word_bytes (beq_fields 5 0 raw) ++ m),
      ) in
      let dist : u16 (sub32 (add32 st.insns.len 4) (length l - 4)) ≡ d =
        omega (arith, size, check_at, room) in
      let patched : contents insns ≡ l ++ (word_bytes branch ++ m) =
        edit-held (target_fields d) st.insns l m (beq_fields 5 0 raw) branch held
          (patched_branch raw d (omega arith) (omega (arith, even))) in
      let jump =
        emit-Appends z (set_jal d) (back_word d) insns
          (record { within = v.within; addressable = v.addressable }) room
          (λ r. set_jal-back_word d r (omega arith)) in
      (
        emit z (set_jal d) insns,
        rw
            (
              pop_loop-open st.loop_begin_stack n (length l - 4) (length l) w stack_len chk
                  branch_at,
              dist,
            )
            refl,
        jump.valid,
        jump.new_len,
        jump.new_contents
            ∙ ap (λ (bs : List ℕ). bs ++ word_bytes (back_word d)) patched
            ∙ append_assoc l (word_bytes branch ++ m) (word_bytes (back_word d)),
      )
