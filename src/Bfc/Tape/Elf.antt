-- ===== src/Bfc/Tape/Elf.antt =====
-- A compiled program without loops, as an ELF file, loaded and run.
use mathlib.Core.Path.{subst}
use rv32isam.Base.{ℕ, zero, suc, ◌+◌, ◌*◌, ◌%◌, ◌^◌, ◌≤◌, ◌≡◌, refl, arith, List, [], some, false}
use rv32isam.Base.Lists.{length}
use rv32isam.Base.Word.{u32}
use rv32isam.Base.Masks.{two_pow_pos}
use rv32isam.BitMath.Align.{round_up, round_up-IsRoundUp}
use rv32isam.Interpret.Run.{start}
use rv32isam.Interpret.Run.Laws.{start-IsValid}
use rv32isam.Interpret.Run.Code.{IsReady}
use rv32isam.Loader.Host.{Host, MappedFile, LoadedExe, returned}
use rv32isam.Loader.Layout.Offset.{multiple-two_pow}
use rv32isam.Loader.ReadElf.{loader_read_elf}
use rv32isam.Loader.ReadElf.Laws.{Serves}
use rv32isam.Bfc.Compile.StraightLine.{IsStraight, words_bytes, program_words}
use rv32isam.Bfc.Emit.File.{elf_file}
use rv32isam.Bfc.Emit.Writes.{NotCrossed}
use rv32isam.Bfc.Emit.Loaded.{AreSmallPages, text-IsNear, text_offset}
use rv32isam.Bfc.Emit.Loads.{Contains, IsElfImage, elf_file-Loads}
use rv32isam.Bfc.Main.{System, main}
use rv32isam.Bfc.Main.Laws.{Asks, Writes, length-program, main-straight}
use rv32isam.Bfc.Tape.{Tape, blank, meaning}
use rv32isam.Bfc.Tape.Runs.{Ends, Ends?}
use rv32isam.Bfc.Tape.Program.{program-Ends, program_words-IsU32, CodeAt-words}

-- A page begins at a multiple of 4, and so does what follows 67 KB in pages that are smaller.
text-aligned : (k : ℕ) → round_up 68608 (2 ^ k) % 4 ≡ 0
text-aligned zero = refl
text-aligned (suc zero) = refl
text-aligned (suc (suc k)) =
    multiple-two_pow (round_up 68608 (2 ^ suc (suc k))) 2 (suc (suc k)) (omega arith)
      (round_up-IsRoundUp 68608 (2 ^ suc (suc k)) (two_pow_pos (suc (suc k)))).multiple

-- Where the system puts the image.
pub record IsAddress (address : ℕ) : Type 0 where
  pub aligned : address % 4 ≡ 0
  pub on_host : address + 2 ^ 31 ≤ 2 ^ 64

module _ {page_size address : ℕ} {exe : LoadedExe} (input : List ℕ)
    (pages : AreSmallPages page_size) (free : IsAddress address) (base : exe.mem.base ≡ address)
    (image : IsElfImage page_size (words_bytes (program_words input)) exe)
    (short : length input * 20 + 2000 ≤ 2 ^ 30) (loop_free : IsStraight input) where
  elf-IsReady : IsReady (start exe.mem (u32 exe.entrypoint)) (program_words input)
  elf-IsReady =
      let near = text-IsNear pages in
      let code = length-program loop_free in
      let T = text_offset page_size in
      let aligned : round_up 68608 page_size % 4 ≡ 0 =
        rw pages.value (text-aligned pages.exponent) in
      let entry : u32 exe.entrypoint ≡ T = omega (arith, image.entrypoint, near.to) in
      record {
        valid = start-IsValid exe.mem (u32 exe.entrypoint) image.all_bytes (omega arith);
        loaded = record {
          small = omega (arith, image.size, near.to, code, short);
          on_host = omega (arith, image.size, near.to, code, short, base, free.on_host);
        };
        code = rw entry (
            CodeAt-words exe.mem T (program_words input) (program_words-IsU32 input)
              (omega (arith, base, free.aligned, aligned, near.from)) (omega (arith, image.size))
              image.text image.text_readable image.text_read_only);
      }

-- For a program without brackets that stays on a tape of 3072 cells, whose length is not one at which
-- the array with the file grows for the section names: the compiler without arguments
-- leaves an ELF file with its code in a.out; with the page size that the compiler saw, at most 64 KB,
-- that file is loaded; and the interpreter runs from the entry point until the first system call: in
-- at most five rounds for a character and four more it comes to an ECALL, has the tape that the
-- program means at the start of the image then, and aborts there.
pub main_elf-Ends :
    (z : ℕ) (memory : ℕ → ℕ) (system : System) (input : List ℕ) (host : Host) (mapped : MappedFile)
    (exe : LoadedExe) (address : ℕ) {tape : Tape}
    → Writes system
    → IsStraight input
    → length input * 20 + 2000 ≤ 2 ^ 30
    → NotCrossed (543 + length (words_bytes (program_words input)))
    → system.page_size ≡ host.page_size
    → AreSmallPages host.page_size
    → Contains mapped.bytes (elf_file host.page_size (words_bytes (program_words input)))
    → Serves host mapped
        (text_offset host.page_size + length (words_bytes (program_words input)))
        address
    → IsAddress address
    → meaning 3072 input blank ≡ some tape
    → (exe' : LoadedExe) × (main z memory system [] input
        ≡ some record {
          a_out = some (elf_file host.page_size (words_bytes (program_words input)));
          failed = false;
        })
      × (loader_read_elf host exe ≡ returned 0 exe')
      × Ends 3072 (5 * length input + 4) (start exe'.mem (u32 exe'.entrypoint)) tape
main_elf-Ends z memory system input host mapped exe address {tape} writes loop_free short settled
      same pages file serves free means =
    let insns = words_bytes (program_words input) in
    let code = length-program loop_free in
    let (exe', loads, base, image) =
      elf_file-Loads host mapped exe insns address pages (omega arith) (omega (arith, code, short))
        file serves in
    (
      exe',
      subst
          (λ (page : ℕ).
            main z memory system [] input
            ≡ some record { a_out = some (elf_file page insns); failed = false })
          same (main-straight z memory system [] input Asks.nothing writes loop_free short settled),
      loads,
      subst (Ends? 3072 (5 * length input + 4) (start exe'.mem (u32 exe'.entrypoint))) means (
          program-Ends 3072 input (elf-IsReady input pages free base image short loop_free)
            record {
              loads = λ a lt.
                  ground
                    (arith, image.data_readable a lt, image.size, (text-IsNear pages).from, lt);
              may = λ a lt.
                  ground
                    (arith, image.data_writable a lt, image.size, (text-IsNear pages).from, lt);
            }
            image.data_zero),
    )
