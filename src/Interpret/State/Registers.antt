-- ===== src/Interpret/State/Registers.antt =====
-- The register file: `write_register` and `read_register`.
use rv32isam.Base.{ℕ, ◌≡◌, arith, ◌==◌, if◌then◌else◌}
use rv32isam.Interpret.State.{Cpu, Memory, write_register, read_register}

-- A register reads as what was last written to it, and register 0 as 0, whatever is written.
pub read_register-write_register :
    (cpu : Cpu) (i v j : ℕ)
    → read_register (write_register cpu i v) j
      ≡ (if j == 0 then 0 else if j == i then v else read_register cpu j)
unfolding write_register read_register
read_register-write_register cpu i v j = ground arith

pub write_register-memory : (cpu : Cpu) (i v : ℕ) → (write_register cpu i v).memory ≡ cpu.memory
unfolding write_register
write_register-memory cpu i v = ground arith

pub write_register-pc : (cpu : Cpu) (i v : ℕ) → (write_register cpu i v).pc ≡ cpu.pc
unfolding write_register
write_register-pc cpu i v = ground arith

-- Reading depends on the registers alone.
pub read_register-record :
    (cpu : Cpu) (pc : ℕ) (memory : Memory) (j : ℕ)
    → read_register (record cpu { pc = pc; memory = memory }) j ≡ read_register cpu j
unfolding read_register
read_register-record cpu pc memory j = ground arith

-- All registers of `struct rv32i cpu = {0}` read as 0.
pub read_register-zeros :
    (pc : ℕ) (memory : Memory) (j : ℕ)
    → read_register (record { registers = λ n. 0; pc = pc; memory = memory }) j ≡ 0
unfolding read_register
read_register-zeros pc memory j = ground arith
