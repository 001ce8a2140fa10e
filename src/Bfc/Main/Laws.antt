-- ===== src/Bfc/Main/Laws.antt =====
-- The file that the compiler leaves for a program.
use Prim.Native.String.{String}
use rv32isam.Base.{
  ℕ, ◌+◌, ◌*◌, ◌^◌, ◌≤◌, ◌≡◌, refl, ap, arith, List, [], ◌∷◌, some, true, false, inr, ◌==◌,
}
use rv32isam.Base.Lists.{length, length-append, take-length}
use rv32isam.Base.Texts.{equals}
use rv32isam.Out.{empty}
use rv32isam.Loader.Layout.Offset.{IsPowTwo}
use rv32isam.Bfc.Compile.StraightLine.{IsStraight, words_bytes, addi_word, program_words}
use rv32isam.Bfc.Compile.Balanced.{
  Compiles, straight-Compiles, balanced_words, length-words_bytes, length-Compiles,
}
use rv32isam.Bfc.Compile.Program.{compile_stdin-balanced}
use rv32isam.Bfc.Laws.{ecall_word}
use rv32isam.Bfc.Emit.File.{elf_file}
use rv32isam.Bfc.Emit.Writes.{NotCrossed, emit_elf-Writes}
use rv32isam.Bfc.Main.{EmitMode, mode_elf, mode_raw, System, emit_raw, emit_mode, emit, main}

-- A system where a.out can be written.
pub record Writes (system : System) : Type 0 where
  pub pow_two : IsPowTwo system.page_size
  pub opens : system.opens ≡ true
  pub all_written : (bytes : List ℕ) → system.write bytes ≡ inr (length bytes)

emit_raw-Writes :
    {system : System} (bytes : List ℕ)
    → Writes system
    → emit_raw system bytes ≡ record { a_out = some bytes; failed = false }
unfolding emit_raw
emit_raw-Writes {system} bytes w =
    let same : (length bytes == length bytes) ≡ true = ground arith in
    rw (emit_raw, w.opens, w.all_written bytes, same, take-length bytes) refl

-- What a.out is to hold.
abbrev pub output : EmitMode → ℕ → List ℕ → List ℕ
output mode_elf page_size insns = elf_file page_size insns
output mode_raw page_size insns = insns

-- In ELF mode, the array with the file does not grow for the section names.
abbrev pub Settles : EmitMode → List ℕ → Type 0
Settles mode_elf insns = NotCrossed (543 + length insns)
Settles mode_raw insns = Unit

emit-Writes :
    (z : ℕ) (memory : ℕ → ℕ) {system : System} (mode : EmitMode) (result : List ℕ)
    → Writes system
    → length result + 1000 ≤ 2 ^ 31
    → Settles mode result
    → emit z memory system mode result
      ≡ some record { a_out = some (output mode system.page_size result); failed = false }
unfolding emit
emit-Writes z memory {system} mode_elf result w room settled =
    let (elf, emitted, valid, holds) =
      emit_elf-Writes z memory system.page_size result w.pow_two room settled in
    rw (emitted, holds) (ap some (emit_raw-Writes (elf_file system.page_size result) w))
emit-Writes z memory mode_raw result w room settled = ap some (emit_raw-Writes result w)

length-balanced :
    {input ws : List ℕ}
    → Compiles input ws
    → length (words_bytes (balanced_words ws)) ≤ 20 * length input + 20
length-balanced {ws = ws} s =
    let exit = addi_word 17 0 93 ∷ addi_word 10 0 0 ∷ ecall_word ∷ [] in
    omega (arith, length-words_bytes (balanced_words ws), length-append ws exit, length-Compiles s)

pub length-program :
    {input : List ℕ}
    → IsStraight input
    → length (words_bytes (program_words input)) ≤ 20 * length input + 20
length-program s = length-balanced (straight-Compiles s)

-- The mode that the arguments ask for.
pub data Asks : List String → EmitMode → Type 0 where
  raw : Asks ("--raw" ∷ []) mode_raw
  nothing : Asks [] mode_elf
  another : {arg : String} → equals arg "--raw" ≡ false → Asks (arg ∷ []) mode_elf
  several : {arg arg' : String} {rest : List String} → Asks (arg ∷ arg' ∷ rest) mode_elf

emit_mode-Asks : {argv : List String} {mode : EmitMode} → Asks argv mode → emit_mode argv ≡ mode
unfolding emit_mode
emit_mode-Asks raw = refl
emit_mode-Asks nothing = refl
emit_mode-Asks (another e) = rw e refl
emit_mode-Asks several = refl

-- For a program whose brackets are balanced and without the byte 255, short enough, and a system where
-- a.out can be written; and, where the ELF file is asked for, whose length is not one at which the
-- array with the file grows for the section names: the compiler leaves in it, without a failure, the code of the program: with
-- the argument `--raw` and no other the code alone, otherwise the ELF file that holds it.
pub main-balanced :
    (z : ℕ) (memory : ℕ → ℕ) (system : System) (argv : List String) {mode : EmitMode}
    {input ws : List ℕ}
    → Asks argv mode
    → Writes system
    → Compiles input ws
    → length input * 20 + 2000 ≤ 2 ^ 30
    → Settles mode (words_bytes (balanced_words ws))
    → main z memory system argv input
      ≡ some record {
        a_out = some (output mode system.page_size (words_bytes (balanced_words ws)));
        failed = false;
      }
unfolding main
main-balanced z memory system argv {mode} {input} {ws} asks w s room settled =
    let bound = length-balanced s in
    let (insns, compiled, code) =
      compile_stdin-balanced z memory (empty memory) s
        record { within = omega arith; addressable = omega arith } (omega arith) in
    rw (compiled, code.new_contents, emit_mode-Asks asks)
      (emit-Writes z memory mode (words_bytes (balanced_words ws)) w (omega (arith, bound)) settled)

-- The same for programs without brackets.
pub main-straight :
    (z : ℕ) (memory : ℕ → ℕ) (system : System) (argv : List String) {mode : EmitMode}
    (input : List ℕ)
    → Asks argv mode
    → Writes system
    → IsStraight input
    → length input * 20 + 2000 ≤ 2 ^ 30
    → Settles mode (words_bytes (program_words input))
    → main z memory system argv input
      ≡ some record {
        a_out = some (output mode system.page_size (words_bytes (program_words input)));
        failed = false;
      }
main-straight z memory system argv input asks w loop_free room settled =
    main-balanced z memory system argv asks w (straight-Compiles loop_free) room settled
