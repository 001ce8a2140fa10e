-- ===== src/Bfc/Main.antt =====
-- bfc.c: `main` and `emit_raw`, which leave the file a.out. The messages of `perror` are left out.
pub mod Laws
use Prim.Native.String.{String}
use rv32isam.Base.{
  ℕ, zero, suc, List, [], ◌∷◌, Option, none, some, Bool, true, false, not, ◌==◌, ◌⊎◌, inl, inr,
  if◌then◌else◌,
}
use rv32isam.Base.Lists.{length, take, ◌>>=◌}
use rv32isam.Base.Texts.{equals}
use rv32isam.Out.{Out, empty}
use rv32isam.Out.Laws.{contents}
use rv32isam.Bfc.Compile.{compile_stdin}
use rv32isam.Bfc.Emit.{emit_elf}

pub data EmitMode : Type 0 where
  mode_elf mode_raw : EmitMode

-- The calls of the system: the page size; whether a.out can be opened; and the number of bytes that
-- `write` puts into it, or its `errno` on the left.
pub record System : Type 0 where
  pub page_size : ℕ
  pub opens : Bool
  pub write : List ℕ → ℕ ⊎ ℕ

-- What a.out holds when it was opened, which empties it; and whether a call failed.
pub record Emitted : Type 0 where
  pub a_out : Option (List ℕ)
  pub failed : Bool

pub emit_raw : System → List ℕ → Emitted
emit_raw system bytes =
    if system.opens
    then elim (system.write bytes) [
      | inl errno ↦ record { a_out = some []; failed = true }
      | inr count ↦ record { a_out = some (take count bytes); failed = not (count == length bytes) }
    ]
    else record { a_out = none; failed = true }

-- The arguments after the program's name.
unfoldable pub emit_mode : List String → EmitMode
emit_mode (arg ∷ []) = if equals arg "--raw" then mode_raw else mode_elf
emit_mode argv = mode_elf

-- The switch on the mode, for the compiled instructions. `memory` tells what the memory of each new
-- array happens to hold. An undefined run or a failed `assert` is `none`.
pub emit : ℕ → (ℕ → ℕ) → System → EmitMode → List ℕ → Option Emitted
emit clz_of_zero memory system mode_elf result = do
  elf ← emit_elf clz_of_zero memory system.page_size result
  some (emit_raw system (contents elf))
emit clz_of_zero memory system mode_raw result = some (emit_raw system result)

pub main : ℕ → (ℕ → ℕ) → System → List String → List ℕ → Option Emitted
main clz_of_zero memory system argv input = do
  insns ← compile_stdin clz_of_zero memory (empty memory) input
  emit clz_of_zero memory system (emit_mode argv) (contents insns)
