-- ===== src/Lib.antt =====
-- spike: a RISC-V instruction set simulator, with simulators of caches and of an oblivious RAM.
--
-- A processor (riscv/processor.h) keeps the state of a hart: registers, control registers, privilege
-- and debug state. Its MMU (riscv/mmu.h) translates addresses by the page tables in target memory
-- and remembers translations in a TLB, which writes of mstatus and changes of privilege flush.
-- Accesses outside memory go to the bus (riscv/devices.cc), on which ROMs, the timer and the
-- processors themselves stand. Cache simulators (riscv/cachesim.cc) listen to the accesses, pass
-- misses to the next level, and the last level passes them to the oblivious RAM
-- (riscv/oramsim.cc), which calls a memory simulator.
--
-- The files:
--   Base                words, bits, lists and tests that the other modules share
--   Decode              riscv/decode.h: insn_t, regfile_t, get_field and set_field, extensions of words
--                       (Compressed: the fields of the compressed formats)
--   Mulhi               riscv/mulhi.h
--   Encoding            riscv/encoding.h: masks and codes, under their names in lower case
--                       (Insns: the list of instructions, with their masks and codes)
--   Processor.Names     riscv/encoding.h: the control registers with a case in set_csr or get_csr
--   Processor.State     riscv/processor.h: state_t, dcsr_t, mcontrol_t, and the fields of mmu_t
--   Processor.Csr       riscv/processor.cc: set_csr (Write) and get_csr (Read), one clause per register
--   Processor.Trap      riscv/processor.cc: take_interrupt, take_trap; riscv/insns: mret and sret
--   Processor.Reset     riscv/processor.cc: processor_t::reset
--   Processor.Triggers  riscv/processor.h: trigger_match
--   Processor.Opcodes   riscv/processor.cc: register_insn, build_opcode_map and decode_insn, and the
--                       registration of the base instructions
--   Processor.Step      riscv/execute.cc: processor_t::step, the loop that runs a hart
--   Insns               riscv/insns: the bodies of the integer instructions (Alu, Muldiv), of jumps and
--                       branches (Control), of those on control registers (Csr), and of the compressed
--                       ones without memory (Compressed), and all of these by name (Table); of
--                       loads and stores (Memory, CompressedMemory) and atomics (Atomic);
--                       Running: programs of those in the tables, in the loop of a hart
--   Mmu                 riscv/mmu.h and mmu.cc: walk, translate, refill_tlb, the TLB tests;
--                       Mmu.Port: what an access sees; Mmu.Data: loads, stores and atomic operations;
--                       Mmu.Fetch: the fetch of instructions and their cache
--   Devices             riscv/devices.cc, rom.cc, rtc.cc, and mmio_load and mmio_store of sim.cc
--   Devices.Debug       riscv/debug_module.h and debug_module.cc
--   Sim                 riscv/sim.cc: sim_t::step, the turns of the harts
--   Cache               riscv/cachesim.h and cachesim.cc
--   Oram                riscv/oramsim.h and oramsim.cc
--   Gdb                 riscv/gdbserver.h and gdbserver.cc, the remote debugger: its circular buffers
--                       (Buffer), the packets that it sends (Packet), how it tells the bytes that
--                       arrive apart (Request), what it does with a packet (Server), the instruction
--                       words that it makes (Assembler), and how it writes them to the debug RAM
--                       (Program)
--   Tests               runs at concrete inputs
--
-- How the code is modelled. A machine word is a natural number below 2 ^ 64, and every operation that
-- can wrap is written with its modulus (Base.Word). Objects are records that functions take and
-- return. A trap that is thrown, a failed assertion and an abort are `none` or the `thrown` of
-- Processor.Trap.Return. The body of an instruction takes the hart, the pc and the word and returns
-- the hart with the next pc or a trap (Processor.Trap.Return.Outcome). An access to memory is a
-- function of the hart's port, Mmu.Port.M, which gives the changed port and a result, a trap or a
-- matched trigger, and so is an instruction that accesses memory. Arrays and maps that are only
-- indexed are functions; the map of a fully associative cache and that of the bus are lists in the
-- order of their keys. A pointer into target memory is an offset.
--
-- Loops are structural recursion on what is left of them. `ctz_rounds`, `cto_rounds` and `log_rounds`
-- take 64 rounds, one for each digit of the word that they shift; the walk takes the number of levels,
-- and the paths of the oblivious RAM the height of the tree.
--
-- The loop of a hart takes fuel, one unit for each turn; for n instructions of a program,
-- more than 2n + 1 units are enough. The loop of the simulator takes one unit for each instruction, since each of
-- its turns runs at least one. The sort of the instructions is an insertion sort, which gives one of
-- the orders that std::sort may give. The loop over the packets that have arrived takes one unit for
-- each byte in the buffer, since each of its turns but the last consumes one.
--
-- Parameters. What stands below a cache is `Handlers`, the memory simulator below the oblivious RAM is
-- `dram_access`, the random number of `rand` and the logarithm of the C library are arguments, and a
-- device on the bus and a tracer of the MMU are records of their two operations. The loop that reads
-- the debugger's packets takes what is done with a packet; Gdb.Server.Packets.handle_packet is that.
-- The loop of a hart takes the fetch and execution of the instruction at a pc, for which
-- Insns.Running.run_program is one, and whether the debugger asks for the hart; the decoder takes the
-- functions of the instructions. The loop of the simulator takes the turn of a hart, for which
-- Sim.run_hart is one, and the turn of the host.
--
-- Not modelled: the instructions that compute with floating-point numbers; the loop of a hart over
-- the instructions that access memory, since its `execute` changes the hart alone; the simulator's
-- set-up and its host interface, the console, the disassembler, option parsing and what is only
-- printed; of the remote debugger the socket and the steps of the
-- operations that are queued; and the copies of SoftFloat and
-- DRAMSim2.
pub mod Base
pub mod Cache
pub mod Decode
pub mod Mmu
pub mod Insns
pub mod Mulhi
pub mod Devices
pub mod Encoding
pub mod Oram
pub mod Processor
pub mod Tests
pub mod Sim
pub mod Gdb
