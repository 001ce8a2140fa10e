-- ===== src/Loader/Runs.antt =====
-- Loaded programs in the interpreter.
use Prim.Native.Nat.{bit_and}
use rv32isam.Base.{ℕ, ◌+◌, ◌<◌, ◌≡◌, ◌∙◌, arith, List, not, ◌==◌}
use rv32isam.Base.Lists.{All, none_left, and_all}
use rv32isam.Base.Word.{u8, u32}
use rv32isam.Elf.{Phdr, pf_w}
use rv32isam.Interpret.State.{Memory, Cpu, running, mapped}
use rv32isam.Interpret.Run.{interpret}
use rv32isam.Interpret.Run.Laws.{interpret-IsFramed}
use rv32isam.Interpret.Exec.Frame.{IsFramed}
use rv32isam.Loader.{LoadableSegment}
use rv32isam.Loader.Kept.{read_only-kept}
use rv32isam.Loader.Host.{Host, MappedFile, LoadedExe, returned}
use rv32isam.Loader.Image.Laws.{Holds}
use rv32isam.Loader.ReadElf.{loader_read_elf}
use rv32isam.Loader.ReadElf.Laws.{IsExecutable, Serves, placed, loader_read_elf-Loads}

-- A segment that may not be written to.
abbrev pub IsReadOnly : LoadableSegment → Type 0
IsReadOnly segm = bit_and (u8 segm.phdr.p_flags) pf_w ≡ 0

segments-kept :
    (file : ℕ → ℕ) {memory memory' : Memory} {segms : List LoadableSegment}
    → IsFramed memory memory'
    → All (Holds file memory.bytes) segms
    → All
        (λ (s : LoadableSegment).
          (j : ℕ)
          → j < s.phdr.p_memsz
          → memory.writable (s.mem_offset + j) ≡ not (bit_and (u8 s.phdr.p_flags) pf_w == 0))
        segms
    → All (λ (s : LoadableSegment). IsReadOnly s → Holds file memory'.bytes s) segms
segments-kept file framed none_left none_left = none_left
segments-kept file framed (and_all {x = s} holds rest) (and_all protection others) =
    and_all
      (λ read_only j lt.
        read_only-kept framed (s.mem_offset + j) (protection j lt ∙ ground (arith, read_only))
        ∙ holds j lt)
      (segments-kept file framed rest others)

-- An executable that needs no relocation is loaded, and however long the interpreter then runs from
-- its entry point, its segments that may not be written to hold the file's bytes.
pub loaded_program-IsKept :
    (host : Host) (mapped : MappedFile) (head : Phdr) (rest : List Phdr) (exe : LoadedExe)
    (memory : ℕ)
    → IsExecutable host.page_size mapped.bytes head rest
    → Serves host mapped (placed host mapped head rest exe memory).end memory
    → (exe' : LoadedExe) × (loader_read_elf host exe ≡ returned 0 exe')
      × ((rounds : ℕ) (cpu : Cpu)
          → interpret exe'.mem (u32 exe'.entrypoint) rounds ≡ running cpu
          → All
              (λ (s : LoadableSegment). IsReadOnly s → Holds mapped.bytes cpu.memory.bytes s)
              (placed host mapped head rest exe memory).segms)
loaded_program-IsKept host mapped head rest exe memory file serves =
    let (exe', e, image, entry, layout) =
      loader_read_elf-Loads host mapped head rest exe memory file serves in
    (
      exe',
      e,
      λ rounds cpu run.
          segments-kept mapped.bytes (interpret-IsFramed exe'.mem (u32 exe'.entrypoint) rounds run)
            image.holds image.writing,
    )
