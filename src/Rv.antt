-- ===== src/Rv.antt =====
-- rv/: the instruction formats and their constants, the immediates, the disassembler.
pub mod Reg
pub mod Opcode
pub mod Funct
pub mod Insn
pub mod Immediate
pub mod Dasm
