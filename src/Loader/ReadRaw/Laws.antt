-- ===== src/Loader/ReadRaw/Laws.antt =====
-- What `loader_read_raw` makes of a file.
use rv32isam.Base.{ℕ, ◌+◌, ◌-◌, ◌^◌, ◌≤◌, ◌<◌, ◌≡◌, refl, ◌∙◌, arith, true, false, inr, ltb, ◌==◌}
use rv32isam.Base.Word.{u32, sub64}
use rv32isam.Base.Masks.{two_pow_pos}
use rv32isam.BitMath.{align_upwards}
use rv32isam.BitMath.Align.{IsRoundUp, align_upwards-IsRoundUp}
use rv32isam.Interpret.State.{Cpu, running}
use rv32isam.Interpret.Run.{interpret}
use rv32isam.Interpret.Run.Laws.{interpret-IsFramed}
use rv32isam.Loader.Kept.{read_only-kept}
use rv32isam.Loader.Host.{Host, MappedFile, LoadedExe, returned, mmap_file}
use rv32isam.Loader.Layout.Offset.{IsPowTwo}
use rv32isam.Loader.ReadRaw.{loader_read_raw, file_memory, below}

-- A system that has the file, and the memory below it where it is asked for.
pub record ServesRaw (host : Host) (mapped : MappedFile) : Type 0 where
  pub pow_two : IsPowTwo host.page_size
  pub maps_file : mmap_file host ≡ inr mapped
  pub maps_below : (address size : ℕ) → host.mmap_fixed address size ≡ inr address

-- `entrypoint` bytes of data that can be written to, then the file, which cannot; all can be read.
pub record IsRawImage (mapped : MappedFile) (exe : LoadedExe) : Type 0 where
  pub base : exe.mem.base ≡ sub64 mapped.base exe.entrypoint
  pub size : exe.mem.size ≡ exe.entrypoint + mapped.size
  pub data_zero : (a : ℕ) → a < exe.entrypoint → exe.mem.bytes a ≡ 0
  pub data_writable : (a : ℕ) → a < exe.entrypoint → exe.mem.writable a ≡ true
  pub readable : (a : ℕ) → exe.mem.readable a ≡ true
  pub text : (j : ℕ) → exe.mem.bytes (exe.entrypoint + j) ≡ mapped.bytes j
  pub text_read_only : (j : ℕ) → exe.mem.writable (exe.entrypoint + j) ≡ false

abbrev raw_exe : MappedFile → ℕ → LoadedExe
raw_exe mapped count = record {
  mem = below count (file_memory mapped);
  mem_count = mapped.size;
  entrypoint = count;
}

raw_exe-IsRawImage : (mapped : MappedFile) (count : ℕ) → IsRawImage mapped (raw_exe mapped count)
raw_exe-IsRawImage mapped count = record {
  base = refl;
  size = refl;
  data_zero = λ a lt. ground arith;
  data_writable = λ a lt. ground arith;
  readable = λ a. ground arith;
  text = λ j.
      let back : count + j - count ≡ j = omega arith in
      let beyond : ltb (count + j) count ≡ false = ground arith in rw (beyond, back) refl;
  text_read_only = λ j. ground arith;
}

raw_text-kept :
    (mapped : MappedFile) (exe : LoadedExe) (entrypoint rounds : ℕ) {cpu : Cpu} (j : ℕ)
    → IsRawImage mapped exe
    → interpret exe.mem entrypoint rounds ≡ running cpu
    → cpu.memory.bytes (exe.entrypoint + j) ≡ mapped.bytes j
raw_text-kept mapped exe entrypoint rounds j image run =
    read_only-kept (interpret-IsFramed exe.mem entrypoint rounds run) (exe.entrypoint + j)
      (image.text_read_only j)
    ∙ image.text j

same_address : (n : ℕ) → (n == n) ≡ true
same_address n = ground arith

-- With a data segment whose size can be rounded up to pages within 32 bits, and a system that has the
-- memory, the loader returns 0 and the image of the data, rounded up to pages, and the file, which
-- begins at the entry point; and however long the interpreter then runs, the file's bytes stay.
pub loader_read_raw-Loads :
    (host : Host) (mapped : MappedFile) (exe : LoadedExe) (data_segment_count : ℕ)
    → ServesRaw host mapped
    → 0 < data_segment_count
    → data_segment_count + host.page_size ≤ 2 ^ 32
    → (exe' : LoadedExe) × (loader_read_raw host data_segment_count exe ≡ returned 0 exe')
      × IsRoundUp data_segment_count host.page_size exe'.entrypoint
      × IsRawImage mapped exe'
      × ((rounds : ℕ) (cpu : Cpu) (j : ℕ)
          → interpret exe'.mem (u32 exe'.entrypoint) rounds ≡ running cpu
          → cpu.memory.bytes (exe'.entrypoint + j) ≡ mapped.bytes j)
unfolding loader_read_raw
loader_read_raw-Loads host mapped exe count serves pos fits =
    let aligned = align_upwards count host.page_size in
    let some_data : (count == 0) ≡ false = ground arith in
    (
      raw_exe mapped aligned,
      rw
          (
            loader_read_raw,
            serves.maps_file,
            some_data,
            serves.maps_below (sub64 mapped.base aligned) aligned,
            same_address (sub64 mapped.base aligned),
          )
          refl,
      rw serves.pow_two.value (
          align_upwards-IsRoundUp count serves.pow_two.exponent serves.pow_two.small
            (omega (arith, serves.pow_two.value, two_pow_pos serves.pow_two.exponent))),
      raw_exe-IsRawImage mapped aligned,
      λ rounds cpu j run.
          raw_text-kept mapped (raw_exe mapped aligned) (u32 aligned) rounds j
            (raw_exe-IsRawImage mapped aligned) run,
    )
