-- ===== src/Bfc/Tape/Raw.antt =====
-- A compiled program without loops, loaded as a raw file and run.
use rv32isam.Base.{
  ℕ, ◌+◌, ◌-◌, ◌*◌, ◌%◌, ◌^◌, ◌≤◌, ◌<◌, ◌≡◌, ◌∙◌, ap, arith, List, [], ◌∷◌, some, false,
}
use native.Mathlib.Decide.{dec_lt}
use mathlib.Core.Path.{subst}
use rv32isam.Base.Lists.{length}
use rv32isam.Base.Word.{u32}
use rv32isam.Base.Bytes.{IsByte}
use rv32isam.Base.Masks.{two_pow_pos}
use rv32isam.BitMath.Align.{IsRoundUp-near}
use rv32isam.Interpret.Run.{start}
use rv32isam.Interpret.Run.Laws.{start-IsValid}
use rv32isam.Interpret.Run.Code.{IsReady}
use rv32isam.Loader.Host.{Host, MappedFile, LoadedExe, returned}
use rv32isam.Loader.ReadRaw.{loader_read_raw}
use rv32isam.Loader.ReadRaw.Laws.{ServesRaw, IsRawImage, loader_read_raw-Loads}
use rv32isam.Bfc.Compile.StraightLine.{IsStraight, words_bytes, program_words}
use rv32isam.Out.At.{at}
use rv32isam.Bfc.Main.{System, main}
use rv32isam.Bfc.Main.Laws.{Asks, Writes, length-program, main-straight}
use rv32isam.Bfc.Tape.{Tape, blank, meaning}
use rv32isam.Bfc.Tape.Runs.{HasTape, Ends, Ends?}
use rv32isam.Bfc.Tape.Program.{program-Ends, program_words-IsU32, CodeAt-words}

-- A file of these bytes in memory.
pub record IsMapped (mapped : MappedFile) (bytes : List ℕ) : Type 0 where
  pub size : mapped.size ≡ length bytes
  pub holds : (j : ℕ) → j < length bytes → mapped.bytes j ≡ at bytes j
  pub all_bytes : (a : ℕ) → IsByte (mapped.bytes a)
  pub aligned : mapped.base % 4 ≡ 0
  pub on_host : mapped.base + mapped.size ≤ 2 ^ 64

module _ {mapped : MappedFile} {exe : LoadedExe} (input : List ℕ)
    (file : IsMapped mapped (words_bytes (program_words input))) (image : IsRawImage mapped exe)
    (room : exe.entrypoint + mapped.size ≤ 2 ^ 31 - 2 ^ 11)
    (below : exe.entrypoint ≤ mapped.base) where
  raw-base : exe.mem.base + exe.entrypoint ≡ mapped.base
  raw-base = omega (arith, image.base, file.on_host)

  raw-IsReady : IsReady (start exe.mem (u32 exe.entrypoint)) (program_words input)
  raw-IsReady =
      let entry : u32 exe.entrypoint ≡ exe.entrypoint = omega (arith, room) in
      record {
        valid = start-IsValid exe.mem (u32 exe.entrypoint) bytes (omega arith);
        loaded = record {
          small = omega (arith, image.size, room);
          on_host = omega (arith, image.size, raw-base, file.on_host);
        };
        code = rw entry (
            CodeAt-words exe.mem exe.entrypoint (program_words input) (program_words-IsU32 input)
              (omega (arith, raw-base, file.aligned)) (omega (arith, image.size, file.size))
              (λ j lt. image.text j ∙ file.holds j lt) (λ j lt. image.readable (exe.entrypoint + j))
              (λ j lt. image.text_read_only j));
      }
    where
      bytes : (a : ℕ) → IsByte (exe.mem.bytes a)
      bytes a = elim (dec_lt a exe.entrypoint) [
        | yes lt ↦ omega (arith, image.data_zero a lt)
        | no ge ↦
            let back : exe.entrypoint + (a - exe.entrypoint) ≡ a = omega (arith, ge) in
            omega (
              arith,
              ap exe.mem.bytes back,
              image.text (a - exe.entrypoint),
              file.all_bytes (a - exe.entrypoint),
            )
      ]

  raw-HasTape : (size : ℕ) → size ≤ exe.entrypoint → HasTape size exe.mem
  raw-HasTape size le = record {
    loads = λ a lt. ground (arith, image.readable a, image.size, le, lt);
    may = λ a lt. ground (arith, image.data_writable a (omega (arith, lt, le)), image.size, le, lt);
  }

-- For a program without brackets that stays on a tape of `data_segment_count` cells: the compiler with
-- `--raw` leaves its code in a.out; that file is loaded, with a data segment of this size; and the
-- interpreter runs from the entry point until the first system call: in at most five rounds for a
-- character and four more it comes to an ECALL, has the tape that the program means in the data
-- segment then, and aborts there.
pub main_raw-Ends :
    (z : ℕ) (memory : ℕ → ℕ) (system : System) (input : List ℕ) (host : Host) (mapped : MappedFile)
    (exe : LoadedExe) (data_segment_count : ℕ) {tape : Tape}
    → Writes system
    → IsStraight input
    → length input * 20 + 2000 ≤ 2 ^ 30
    → ServesRaw host mapped
    → IsMapped mapped (words_bytes (program_words input))
    → 0 < data_segment_count
    → data_segment_count + host.page_size ≤ 2 ^ 29
    → data_segment_count + host.page_size ≤ mapped.base
    → meaning data_segment_count input blank ≡ some tape
    → (exe' : LoadedExe) × (main z memory system ("--raw" ∷ []) input
        ≡ some record { a_out = some (words_bytes (program_words input)); failed = false })
      × (loader_read_raw host data_segment_count exe ≡ returned 0 exe')
      × Ends data_segment_count (5 * length input + 4) (start exe'.mem (u32 exe'.entrypoint)) tape
main_raw-Ends z memory system input host mapped exe count {tape} writes loop_free short serves file
      pos small below means =
    let (exe', loads, up, image, kept) =
      loader_read_raw-Loads host mapped exe count serves pos (omega (arith, small)) in
    let page_pos : 0 < host.page_size =
      omega (arith, serves.pow_two.value, two_pow_pos serves.pow_two.exponent) in
    let near = IsRoundUp-near page_pos up in
    let code = length-program loop_free in
    let room : exe'.entrypoint + mapped.size ≤ 2 ^ 31 - 2 ^ 11 =
      omega (arith, near, small, file.size, code, short) in
    let low : exe'.entrypoint ≤ mapped.base = omega (arith, near, below) in
    (
      exe',
      main-straight z memory system ("--raw" ∷ []) input Asks.raw writes loop_free short tt,
      loads,
      subst (Ends? count (5 * length input + 4) (start exe'.mem (u32 exe'.entrypoint))) means (
          program-Ends count input (raw-IsReady input file image room low)
            (raw-HasTape input file image room low count up.not_below)
            (λ a lt. image.data_zero a (omega (arith, lt, up.not_below)))),
    )
