-- ===== src/Tests.antt =====
-- Runs of the definitions and of the theorems at concrete inputs.
pub mod Debuggers
pub mod Accesses
pub mod Words
pub mod Blocks
pub mod Harts
pub mod Insns
pub mod Opcodes
pub mod Memories
pub mod Machines
pub mod Steps
pub mod Triggers
