-- ===== src/Interpret.antt =====
-- interpret.c: the emulated processor.
pub mod State
pub mod Exec
pub mod Run
