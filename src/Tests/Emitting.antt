-- ===== src/Tests/Emitting.antt =====
-- The files of the compiler at concrete inputs.
use rv32isam.Base.{◌<◌, ℕ, ◌≡◌, refl, arith, List, [], ◌∷◌, ◌++◌, some, true, false, inr}
use rv32isam.Base.Lists.{length}
use rv32isam.Out.{Out, empty}
use rv32isam.Out.Laws.{IsValid, contents, Appends}
use rv32isam.Loader.Layout.Offset.{IsPowTwo}
use rv32isam.Bfc.Compile.{compile_stdin}
use rv32isam.Bfc.Compile.StraightLine.{code_of, words_bytes}
use rv32isam.Bfc.Compile.Balanced.{
  Compiles, empty_program, character, loop, loop_words, balanced_words,
}
use rv32isam.Bfc.Compile.Program.{compile_stdin-balanced}
use rv32isam.Bfc.Emit.{emit_elf}
use rv32isam.Bfc.Emit.File.{elf_file}
use rv32isam.Bfc.Emit.Writes.{NotCrossed, emit_elf-Writes}
use rv32isam.Bfc.Emit.ReadBack.{IsReadAs, emit_elf-IsReadAs}
use rv32isam.Bfc.Main.{System, main}
use rv32isam.Bfc.Main.Laws.{Asks, Writes, main-balanced}

page : IsPowTwo 4096
page = record { exponent = 12; small = omega arith; value = omega arith }

settled : NotCrossed 547
settled = record { exponent = 9; below = omega arith; above = omega arith }

emit_elf-Writes_example :
    (elf : Out) × (emit_elf 0 (λ a. 7) 4096 (115 ∷ 0 ∷ 0 ∷ 0 ∷ []) ≡ some elf)
    × IsValid elf
    × (contents elf ≡ elf_file 4096 (115 ∷ 0 ∷ 0 ∷ 0 ∷ []))
emit_elf-Writes_example =
    emit_elf-Writes 0 (λ a. 7) 4096 (115 ∷ 0 ∷ 0 ∷ 0 ∷ []) page (omega arith) settled

abbrev system : System
system = record { page_size = 4096; opens = true; write = λ bytes. inr (length bytes) }

writes : Writes system
writes = record { pow_two = page; opens = refl; all_written = λ bytes. refl }

-- +[-]
abbrev clear_loop : List ℕ
clear_loop = 43 ∷ 91 ∷ 45 ∷ 93 ∷ []

abbrev clear_words : List ℕ
clear_words = code_of 43 ++ (loop_words (code_of 45 ++ []) ++ [])

clear_loop-Compiles : Compiles clear_loop clear_words
clear_loop-Compiles =
    character 43 (ground arith) (ground arith) (ground arith)
      (loop (character 45 (ground arith) (ground arith) (ground arith) empty_program) empty_program)

compile_stdin-balanced_example :
    (insns' : Out) × (compile_stdin 0 (λ a. 0) (empty (λ a. 7)) clear_loop ≡ some insns')
    × Appends 0 (empty (λ a. 7)) (words_bytes (balanced_words clear_words)) insns'
compile_stdin-balanced_example =
    compile_stdin-balanced 0 (λ a. 0) (empty (λ a. 7)) clear_loop-Compiles
      record { within = omega arith; addressable = omega arith } (omega arith)

main-balanced_example :
    main 0 (λ a. 7) system ("--help" ∷ []) clear_loop
    ≡ some record {
      a_out = some (elf_file 4096 (words_bytes (balanced_words clear_words)));
      failed = false;
    }
main-balanced_example =
    main-balanced 0 (λ a. 7) system ("--help" ∷ []) (Asks.another refl) writes clear_loop-Compiles
      (omega arith) record { exponent = 9; below = omega arith; above = omega arith }

emit_elf-IsReadAs_example :
    (elf : Out) × (emit_elf 0 (λ a. 7) 4096 (115 ∷ 0 ∷ 0 ∷ 0 ∷ []) ≡ some elf)
    × ((f : ℕ → ℕ)
        → ((j : ℕ) → j < elf.len → f j ≡ elf.bytes j)
        → IsReadAs 4096 (115 ∷ 0 ∷ 0 ∷ 0 ∷ []) f)
emit_elf-IsReadAs_example =
    emit_elf-IsReadAs 0 (λ a. 7) 4096 (115 ∷ 0 ∷ 0 ∷ 0 ∷ []) page (omega arith) settled
