-- ===== src/Interpret/State/Valid.antt =====
-- Every register and the program counter hold a `u32`, and every byte of memory is one.
use rv32isam.Base.{ℕ, arith}
use rv32isam.Base.Word.{IsU32}
use rv32isam.Interpret.State.{Cpu, write_register, read_register, set_bytes}
use rv32isam.Base.Bytes.{IsByte}
use rv32isam.Interpret.State.Registers.{
  read_register-write_register, write_register-memory, write_register-pc, read_register-record,
}

pub record IsValid (cpu : Cpu) : Type 0 where
  pub registers_fit : (j : ℕ) → IsU32 (read_register cpu j)
  pub pc_fits : IsU32 cpu.pc
  pub bytes_fit : (a : ℕ) → IsByte (cpu.memory.bytes a)

pub write_register-IsValid :
    (cpu : Cpu) (i v : ℕ) → IsU32 v → IsValid cpu → IsValid (write_register cpu i v)
write_register-IsValid cpu i v h valid = record {
  registers_fit =
      λ j. ground (arith, read_register-write_register cpu i v j, valid.registers_fit j);
  pc_fits = ground (arith, write_register-pc cpu i v, valid.pc_fits);
  bytes_fit = λ a. rw write_register-memory (valid.bytes_fit a);
}

pub set_pc-IsValid :
    (cpu : Cpu) (pc : ℕ) → IsU32 pc → IsValid cpu → IsValid (record cpu { pc = pc })
set_pc-IsValid cpu pc h valid = record {
  registers_fit = λ j. rw (read_register-record cpu pc cpu.memory j) (valid.registers_fit j);
  pc_fits = h;
  bytes_fit = valid.bytes_fit;
}

pub set_bytes-IsValid :
    (cpu : Cpu) (bytes : ℕ → ℕ)
    → ((a : ℕ) → IsByte (bytes a))
    → IsValid cpu
    → IsValid (set_bytes cpu bytes)
set_bytes-IsValid cpu bytes h valid = record {
  registers_fit = λ j.
      rw (read_register-record cpu cpu.pc (set_bytes cpu bytes).memory j) (valid.registers_fit j);
  pc_fits = valid.pc_fits;
  bytes_fit = h;
}
