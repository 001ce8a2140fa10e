-- ===== src/Loader/ReadRaw.antt =====
-- loader.c: `loader_read_raw`, for a file that holds instructions only.
pub mod Laws
use rv32isam.Base.{ℕ, zero, ◌+◌, ◌-◌, ◌^◌, Bool, false, ltb, ◌==◌, inl, inr, if◌then◌else◌}
use rv32isam.Base.Word.{sub64}
use rv32isam.BitMath.{align_upwards}
use rv32isam.Interpret.State.{Memory}
use rv32isam.Loader.Host.{Host, MappedFile, LoadedExe, Loaded, returned, mmap_file}

-- The file is mapped for reading only.
abbrev pub file_memory : MappedFile → Memory
file_memory mapped = record {
  base = mapped.base;
  size = mapped.size;
  bytes = mapped.bytes;
  readable = λ a. Bool.true;
  writable = λ a. false;
}

-- Zeroed memory that can be written to, mapped right below another one.
abbrev pub below : ℕ → Memory → Memory
below count memory = record {
  base = sub64 memory.base count;
  size = count + memory.size;
  bytes = λ a. if ltb a count then 0 else memory.bytes (a - count);
  readable = λ a. if ltb a count then Bool.true else memory.readable (a - count);
  writable = λ a. if ltb a count then Bool.true else memory.writable (a - count);
}

-- `mem_count` stays the size of the file.
pub loader_read_raw : Host → ℕ → LoadedExe → Loaded
loader_read_raw host data_segment_count exe = elim (mmap_file host) [
  | inl errno ↦ returned errno exe
  | inr mapped ↦
      let exe' : LoadedExe = record {
        mem = file_memory mapped;
        mem_count = mapped.size;
        entrypoint = 0;
      } in
      let aligned_count = align_upwards data_segment_count host.page_size in
      let wanted_start_addr = sub64 mapped.base aligned_count in
      if data_segment_count == 0
      then returned 0 exe'
      else elim (host.mmap_fixed wanted_start_addr aligned_count) [
        | inl errno ↦ returned errno exe'
        | inr addr ↦
            if addr == wanted_start_addr
            then returned 0
                (record exe' { mem = below aligned_count exe'.mem; entrypoint = aligned_count })
            else returned host.errno exe'
      ]
]
