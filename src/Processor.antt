-- ===== src/Processor.antt =====
-- riscv/processor.h and riscv/processor.cc: one hart.
pub mod Opcodes
pub mod Names
pub mod State
pub mod Reset
pub mod Step
pub mod Csr
pub mod Trap
pub mod Triggers
