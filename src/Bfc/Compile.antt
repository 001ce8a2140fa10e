-- ===== src/Bfc/Compile.antt =====
-- bfc.c: `compile_stdin`. The input is the list of the bytes that `getchar` gives.
pub mod StraightLine
pub mod Loops
pub mod LoopWords
pub mod LoopCode
pub mod Balanced
pub mod Program
use rv32isam.Base.{ℕ, ◌+◌, ◌-◌, ◌^◌, List, [], ◌∷◌, Option, none, some, ltb, ◌==◌, if◌then◌else◌}
use rv32isam.Base.Word.{u16, sub32}
use rv32isam.Base.Bytes.{load_u32, store_u32}
use rv32isam.Base.Lists.{◌>>=◌}
use rv32isam.Rv.Reg.{rv_zero, rv_s1, rv_t0, rv_a0, rv_a2, rv_a7}
use rv32isam.Out.{Out, empty, out_resv_index}
use rv32isam.Bfc.{
  edit, set_jal, patch_beq, asm_addi, asm_lbu, asm_sb, asm_lui, asm_or, asm_ecall, asm_empty_beq,
}

-- The characters that have a meaning, as numbers.
abbrev pub left_bracket : ℕ
left_bracket = 91

abbrev pub right_bracket : ℕ
right_bracket = 93

abbrev pub plus : ℕ
plus = 43

abbrev pub minus : ℕ
minus = 45

abbrev pub dot : ℕ
dot = 46

abbrev pub comma : ℕ
comma = 44

abbrev pub greater : ℕ
greater = 62

abbrev pub less : ℕ
less = 60

-- The two arrays of `compile_stdin`.
pub record Compiler : Type 0 where
  pub insns : Out
  pub loop_begin_stack : Out

pub record LoopInfo : Type 0 where
  pub check_offset : ℕ
  pub beq_offset : ℕ

-- Without an open loop the length wraps around and the read is beyond the memory allocated, which
-- is undefined: `none`.
pub pop_loop : Out → Option (LoopInfo × Out)
pop_loop stack =
    let len' = sub32 stack.len 8 in
    if ltb stack.cap (len' + 8)
    then none
    else some (
      record {
        check_offset = load_u32 stack.bytes len';
        beq_offset = load_u32 stack.bytes (len' + 4);
      },
      record stack { len = len' },
    )

-- The bytes up to the first 255.
pub until_eof : List ℕ → List ℕ
until_eof [] = []
until_eof (c ∷ input) = let rest = until_eof input in if c == 255 then [] else c ∷ rest

module _ (clz_of_zero : ℕ) where
  abbrev pub load_cell : Out → ℕ → Out
  load_cell insns dest = asm_lbu clz_of_zero insns rv_s1 dest 0

  abbrev pub store_cell : Out → ℕ → Out
  store_cell insns src = asm_sb clz_of_zero insns rv_s1 src 0

  -- `u32 check_offset; u32 beq_offset;` at the end of the stack.
  pub push_loop : Out → ℕ → ℕ → Out
  push_loop stack chk beq =
      let stack' = out_resv_index clz_of_zero stack 8 in
      record stack' { bytes = store_u32 (store_u32 stack'.bytes stack.len chk) (stack.len + 4) beq }

  -- case '[': the branch is to be patched at the matching ']'.
  pub open_loop : Compiler → Compiler
  open_loop c =
      let loaded = load_cell c.insns rv_t0 in
      record {
        insns = asm_empty_beq clz_of_zero loaded rv_t0 rv_zero;
        loop_begin_stack = push_loop c.loop_begin_stack c.insns.len loaded.len;
      }

  -- case ']': `dist_from_chk` is an `i16`, `jal->offset` a field of 20 bits.
  pub close_loop : Compiler → Option Compiler
  close_loop c = do
    popped ← pop_loop c.loop_begin_stack
    let insns = out_resv_index clz_of_zero c.insns 4
    let dist_from_chk = u16 (sub32 insns.len popped.0.check_offset)
    some record {
      insns =
          edit (set_jal dist_from_chk) c.insns.len
            (patch_beq insns popped.0.beq_offset dist_from_chk);
      loop_begin_stack = popped.1;
    }

  -- The cases of the characters that only append instructions. `.` and `,` put the address of the
  -- cell over the file descriptor.
  pub write_cell : Out → ℕ → Out
  write_cell insns imm =
      store_cell (asm_addi clz_of_zero (load_cell insns rv_t0) rv_t0 rv_t0 imm) rv_t0

  pub call : Out → ℕ → Out
  call insns number = asm_ecall clz_of_zero (
      asm_addi clz_of_zero
        (asm_or clz_of_zero
          (asm_addi clz_of_zero (asm_addi clz_of_zero insns rv_a7 rv_zero number) rv_a0 rv_zero 1)
          rv_a0 rv_zero rv_s1)
        rv_a2 rv_zero 1)

  pub compile_simple : Out → ℕ → Out
  compile_simple insns c =
      if c == plus
      then write_cell insns 1
      else if c == minus
      then write_cell insns (2 ^ 16 - 1)
      else if c == dot
      then call insns 64
      else if c == comma
      then call insns 63
      else if c == greater
      then asm_addi clz_of_zero insns rv_s1 rv_s1 1
      else if c == less
      then asm_addi clz_of_zero insns rv_s1 rv_s1 (2 ^ 16 - 1)
      else insns

  -- One turn of the loop.
  pub compile_char : Compiler → ℕ → Option Compiler
  compile_char st c =
      if c == left_bracket
      then some (open_loop st)
      else if c == right_bracket
      then close_loop st
      else some (record st { insns = compile_simple st.insns c })

  -- A byte 255 ends the loop as the end of the input does: it is a `char`, compared with `EOF`.
  pub compile_chars : Compiler → List ℕ → Option Compiler
  compile_chars st [] = some st
  compile_chars st (c ∷ input) = do st' ← compile_char st c; compile_chars st' input

  pub prologue : Out → Out
  prologue insns = asm_addi clz_of_zero (asm_lui clz_of_zero insns rv_s1 rv_zero) rv_s1 rv_zero 0

  pub epilogue : Out → Out
  epilogue insns =
      asm_ecall clz_of_zero
        (asm_addi clz_of_zero (asm_addi clz_of_zero insns rv_a7 rv_zero 93) rv_a0 rv_zero 0)

  -- `memory` is what the memory of the stack happens to hold.
  pub compile_stdin : (ℕ → ℕ) → Out → List ℕ → Option Out
  compile_stdin memory insns input = do
    st ←
        compile_chars (record { insns = prologue insns; loop_begin_stack = empty memory })
          (until_eof input)
    some (epilogue st.insns)
