-- ===== src/Tests/Running.antt =====
-- Compiled programs at concrete inputs: loaded, and run.
use rv32isam.Base.{
  ℕ, zero, suc, ◌+◌, ◌<◌, ◌≡◌, refl, arith, List, [], ◌∷◌, ◌++◌, some, Bool, true, false, inr, ltb,
  ◌&&◌,
}
use rv32isam.Base.Lists.{length}
use rv32isam.Base.Word.{u32}
use rv32isam.Base.Bytes.{IsByte, update}
use rv32isam.Out.{Out}
use rv32isam.Out.At.{at}
use rv32isam.Interpret.State.{Memory}
use rv32isam.Interpret.Run.{start}
use rv32isam.Loader.Host.{Host, MappedFile, LoadedExe, returned, mmap_file}
use rv32isam.Loader.Layout.Offset.{IsPowTwo}
use rv32isam.Loader.ReadElf.{loader_read_elf}
use rv32isam.Loader.ReadElf.Laws.{Serves}
use rv32isam.Loader.ReadRaw.{loader_read_raw}
use rv32isam.Loader.ReadRaw.Laws.{ServesRaw}
use rv32isam.Bfc.Compile.StraightLine.{IsStraight, done, straight, words_bytes, program_words}
use rv32isam.Bfc.Compile.Balanced.{loop_words, balanced_words}
use rv32isam.Bfc.Emit.{emit_elf}
use rv32isam.Bfc.Emit.File.{elf_file}
use rv32isam.Bfc.Emit.Writes.{NotCrossed}
use rv32isam.Bfc.Emit.Loaded.{AreSmallPages, text_offset}
use rv32isam.Bfc.Emit.Loads.{Contains, IsElfImage, emit_elf-Loads}
use rv32isam.Bfc.Main.{System, main}
use rv32isam.Bfc.Main.Laws.{Writes}
use rv32isam.Bfc.Tape.{Tape}
use rv32isam.Bfc.Tape.Runs.{Ends}
use rv32isam.Bfc.Tape.Raw.{IsMapped, main_raw-Ends}
use rv32isam.Bfc.Tape.Elf.{main_elf-Ends}

abbrev are_bytes : List ℕ → Bool
are_bytes [] = true
are_bytes (b ∷ l) = ltb b 256 && are_bytes l

at-IsByte : (l : List ℕ) → are_bytes l ≡ true → (a : ℕ) → IsByte (at l a)
at-IsByte [] h a = omega arith
at-IsByte (b ∷ l) h zero = ground (arith, h)
at-IsByte (b ∷ l) h (suc a) = at-IsByte l (ground (arith, h)) a

page : IsPowTwo 4096
page = record { exponent = 12; small = omega arith; value = omega arith }

pages : AreSmallPages 4096
pages = record { exponent = 12; small = omega arith; value = omega arith }

-- +.
abbrev plus_dot : List ℕ
plus_dot = 43 ∷ 46 ∷ []

plus_dot-IsStraight : IsStraight plus_dot
plus_dot-IsStraight =
    straight 43 (46 ∷ []) (ground arith) (ground arith) (ground arith)
      (straight 46 [] (ground arith) (ground arith) (ground arith) done)

abbrev code : List ℕ
code = words_bytes (program_words plus_dot)

abbrev system : System
system = record { page_size = 4096; opens = true; write = λ bytes. inr (length bytes) }

writes : Writes system
writes = record { pow_two = page; opens = refl; all_written = λ bytes. refl }

-- One cell is 1.
abbrev one_cell : Tape
one_cell = record { pointer = 0; cells = update (λ a. 0) 0 1 }

-- The files, in memory.
abbrev mapped_elf : MappedFile
mapped_elf = record { base = 0x7000; size = 800; bytes = at (elf_file 4096 code) }

abbrev mapped_raw : MappedFile
mapped_raw = record { base = 0x100000; size = length code; bytes = at code }

abbrev host : MappedFile → Host
host mapped = record {
  page_size = 4096;
  fstat = inr mapped.size;
  map_file = λ size. inr mapped;
  mmap = λ size. inr 0x20000;
  mmap_fixed = λ address size. inr address;
  mprotect = λ address size prot. 0;
  errno = 0;
}

abbrev unset_exe : LoadedExe
unset_exe = record {
  mem = record { base = 0; size = 0; bytes = λ a. 0; readable = λ a. false; writable = λ a. false };
  mem_count = 0;
  entrypoint = 0;
}

settled : NotCrossed (543 + length code)
settled = record { exponent = 9; below = omega arith; above = omega arith }

serves : (size : ℕ) → Serves (host mapped_elf) mapped_elf size 0x20000
unfolding mmap_file
serves size = record {
  pow_two = page;
  maps_file = refl;
  maps_image = refl;
  protects = λ address length prot. refl;
}

serves_raw : ServesRaw (host mapped_raw) mapped_raw
unfolding mmap_file
serves_raw = record { pow_two = page; maps_file = refl; maps_below = λ address size. refl }

contains : Contains mapped_elf.bytes (elf_file 4096 code)
contains = record { same = λ j lt. refl; all_bytes = at-IsByte (elf_file 4096 code) refl }

main_elf-Ends_example :
    (exe' : LoadedExe) × (main 0 (λ a. 7) system [] plus_dot
      ≡ some record { a_out = some (elf_file 4096 code); failed = false })
    × (loader_read_elf (host mapped_elf) unset_exe ≡ returned 0 exe')
    × Ends 3072 14 (start exe'.mem (u32 exe'.entrypoint)) one_cell
main_elf-Ends_example =
    main_elf-Ends 0 (λ a. 7) system plus_dot (host mapped_elf) mapped_elf unset_exe 0x20000 writes
      plus_dot-IsStraight (omega arith) settled refl pages contains
      (serves (text_offset 4096 + length code)) record { aligned = refl; on_host = omega arith }
      refl

mapped : IsMapped mapped_raw code
mapped = record {
  size = refl;
  holds = λ j lt. refl;
  all_bytes = at-IsByte code refl;
  aligned = refl;
  on_host = omega arith;
}

main_raw-Ends_example :
    (exe' : LoadedExe) × (main 0 (λ a. 7) system ("--raw" ∷ []) plus_dot
      ≡ some record { a_out = some code; failed = false })
    × (loader_read_raw (host mapped_raw) 100 unset_exe ≡ returned 0 exe')
    × Ends 100 14 (start exe'.mem (u32 exe'.entrypoint)) one_cell
main_raw-Ends_example =
    main_raw-Ends 0 (λ a. 7) system plus_dot (host mapped_raw) mapped_raw unset_exe 100 writes
      plus_dot-IsStraight (omega arith) serves_raw mapped (omega arith) (omega arith) (omega arith)
      refl

emit_elf-Loads_example :
    (elf : Out) × (emit_elf 0 (λ a. 7) 4096 code ≡ some elf)
    × (((j : ℕ) → j < elf.len → mapped_elf.bytes j ≡ elf.bytes j)
        → (exe' : LoadedExe) × (loader_read_elf (host mapped_elf) unset_exe ≡ returned 0 exe')
          × (exe'.mem.base ≡ 0x20000)
          × IsElfImage 4096 code exe')
emit_elf-Loads_example =
    emit_elf-Loads 0 (λ a. 7) (host mapped_elf) mapped_elf unset_exe code 0x20000 pages
      (omega arith) (omega arith) settled (serves (text_offset 4096 + length code))
      contains.all_bytes

-- [], behind a cell that is 0.
abbrev loop_code : List ℕ
loop_code = words_bytes (balanced_words (loop_words [] ++ []))

abbrev loop_memory : Memory
loop_memory = record {
  base = 4096;
  size = 36;
  bytes = at (0 ∷ 0 ∷ 0 ∷ 0 ∷ loop_code);
  readable = λ a. true;
  writable = λ a. false;
}
