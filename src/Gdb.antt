-- ===== src/Gdb.antt =====
-- riscv/gdbserver.h and riscv/gdbserver.cc: the server of the remote debugger.
pub mod Buffer
pub mod Packet
pub mod Request
pub mod Server
pub mod Assembler
pub mod Program
