-- ===== src/Bfc/Tape.antt =====
-- What a brainfuck program without loops means, for the code that bfc.c compiles it to: cells from
-- 0 on, and a pointer that wraps at 2 ^ 32 and may point anywhere while no cell is used. `.` and `,`
-- are system calls, at which the interpreter ends.
pub mod Code
pub mod Runs
pub mod Program
pub mod Raw
pub mod Elf
pub mod Loop
use rv32isam.Base.{
  Bool, ◌-◌, ℕ, ◌+◌, ◌%◌, ◌^◌, List, [], ◌∷◌, Option, none, some, ltb, ◌==◌, ◌||◌, if◌then◌else◌,
}
use rv32isam.Base.Lists.{◌>>=◌}
use rv32isam.Base.Bytes.{update}

pub record Tape : Type 0 where
  pub pointer : ℕ
  pub cells : ℕ → ℕ

abbrev pub blank : Tape
blank = record { pointer = 0; cells = λ a. 0 }

abbrev pub is_call : ℕ → Bool
is_call c = c == 46 || c == 44

-- On a tape of `size` cells. `none`: a cell that does not exist is used.
module _ (size : ℕ) where
  abbrev pub add_cell : ℕ → Tape → Option Tape
  add_cell n tape =
      if ltb tape.pointer size
      then some (record tape {
        cells = update tape.cells tape.pointer ((tape.cells tape.pointer + n) % 256);
      })
      else none

  abbrev pub move_pointer : ℕ → Tape → Tape
  move_pointer n tape = record tape { pointer = (tape.pointer + n) % 2 ^ 32 }

  -- A character that is neither a bracket nor a call. Others than these four are remarks.
  abbrev pub act : ℕ → Tape → Option Tape
  act c tape =
      if c == 43
      then add_cell 1 tape
      else if c == 45
      then add_cell 255 tape
      else if c == 62
      then some (move_pointer 1 tape)
      else if c == 60
      then some (move_pointer (2 ^ 32 - 1) tape)
      else some tape

  -- The tape at the end, or at the first call.
  abbrev pub meaning : List ℕ → Tape → Option Tape
  meaning [] tape = some tape
  meaning (c ∷ input) tape =
      if is_call c then some tape else (do tape' ← act c tape; meaning input tape')
