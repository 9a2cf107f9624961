-- ===== src/Processor/Csr.antt =====
-- riscv/processor.cc: `set_csr` and `get_csr`. The `switch` on the number of the register is a match
-- on its name (`Processor.Names.csr_name`).
pub mod Write
pub mod Read
pub mod Invariant
pub mod Isolation
