-- ===== src/Interpret/State.antt =====
-- The state of interpret.c: the register file of `struct rv32i`, the program counter, and the
-- memory image that the loader mapped.
pub mod Registers
pub mod Valid
use rv32isam.Base.Bytes.{update}
use rv32isam.Base.{ℕ, ◌+◌, ◌-◌, Bool, leb, ◌==◌, ◌&&◌, if◌then◌else◌}

-- The image stands at the host address `base`, and `size` bytes are mapped; `bytes`, `readable`
-- and `writable` go by offsets from `base`. A page that the loader left without PROT_READ is not
-- readable, and one without PROT_WRITE not writable.
pub record Memory : Type 0 where
  pub base : ℕ
  pub size : ℕ
  pub bytes : ℕ → ℕ
  pub readable : ℕ → Bool
  pub writable : ℕ → Bool

-- `registers[n]` holds x(n + 1).
pub record Cpu : Type 0 where
  pub registers : ℕ → ℕ
  pub pc : ℕ
  pub memory : Memory

-- How a round of the loop can end: `aborted` by `abort` or a failed `assert`, `trapped` by
-- `__builtin_trap`, and `undefined` where C gives the run no meaning (an access beyond the image, or
-- one that the protection of its page does not allow, which the host mostly answers by SIGSEGV, or a table overrun).
pub data Outcome : Type 0 where
  running : Cpu → Outcome
  aborted trapped undefined : Outcome

pub write_register : Cpu → ℕ → ℕ → Cpu
write_register cpu reg_index value =
    if reg_index == 0
    then cpu
    else record cpu { registers = update cpu.registers (reg_index - 1) value }

unfoldable pub read_register : Cpu → ℕ → ℕ
read_register cpu reg_index = if reg_index == 0 then 0 else cpu.registers (reg_index - 1)

-- `n` bytes from offset `a` lie in the image.
abbrev pub mapped : Memory → ℕ → ℕ → Bool
mapped m a n = leb (a + n) m.size

-- They can be read.
abbrev pub readable_u8 : Memory → ℕ → Bool
readable_u8 m a = mapped m a 1 && m.readable a

abbrev pub readable_u32 : Memory → ℕ → Bool
readable_u32 m a =
    mapped m a 4 && m.readable a && m.readable (a + 1) && m.readable (a + 2) && m.readable (a + 3)

-- They can be written to.
abbrev pub writable_u8 : Memory → ℕ → Bool
writable_u8 m a = mapped m a 1 && m.writable a

abbrev pub writable_u32 : Memory → ℕ → Bool
writable_u32 m a =
    mapped m a 4 && m.writable a && m.writable (a + 1) && m.writable (a + 2) && m.writable (a + 3)

-- What the system makes of a store to them: it lets the run go on where the pages' protection allows
-- the store, and otherwise ends the program.
abbrev pub at_writable_u8 : Memory → ℕ → Cpu → Outcome
at_writable_u8 m a stored = if writable_u8 m a then running stored else undefined

abbrev pub at_writable_u32 : Memory → ℕ → Cpu → Outcome
at_writable_u32 m a stored = if writable_u32 m a then running stored else undefined

abbrev pub set_bytes : Cpu → (ℕ → ℕ) → Cpu
set_bytes cpu bytes = record cpu { memory = record (cpu.memory) { bytes = bytes } }
