-- ===== src/Insns.antt =====
-- riscv/insn_template.cc and the macros of riscv/decode.h: what the bodies under riscv/insns share.
pub mod Alu
pub mod Atomic
pub mod Compressed
pub mod CompressedMemory
pub mod Control
pub mod Csr
pub mod Division
pub mod Ending
pub mod Ends
pub mod Expansion
pub mod Memory
pub mod Muldiv
pub mod Reservation
pub mod Roundtrip
pub mod Running
pub mod Table
use spike.Base.{ℕ, Bool, true, not, truth, bit_and, if◌then◌else◌, add64, Option, none, some}
use spike.Decode.{insn_length, rd, rs1, rs2, regfile_write, sext_xlen}
use spike.Processor.Csr.Read.{supports_extension}
use spike.Processor.State.{Processor}
use spike.Processor.Trap.Return.{Outcome, next, illegal_instruction, misaligned, fetch_misaligned}

-- What `rv32_NAME` and `rv64_NAME` hand to the body: the width, the word, its pc and the pc after it.
-- `debug_interrupt` is what the debug module tells this hart.
pub record Fetched : Type 0 where
  pub xlen : ℕ
  pub insn : ℕ
  pub pc : ℕ
  pub npc : ℕ
  pub debug_interrupt : Bool

abbrev pub Body : Type 0
Body = Fetched → Processor → Processor × Outcome

-- `rv32_NAME` and `rv64_NAME`, for the match of the instruction.
unfoldable pub run_body : ℕ → Body → ℕ → Bool → ℕ → ℕ → Processor → Processor × Outcome
run_body opcode body xlen debug_interrupt insn pc p =
    body
      record {
        xlen = xlen;
        insn = insn;
        pc = pc;
        npc = sext_xlen xlen (add64 pc (insn_length opcode));
        debug_interrupt = debug_interrupt;
      }
      p

-- `RS1` and `RS2`
abbrev pub reg1 : Fetched → Processor → ℕ
reg1 f p = p.state.xpr (rs1 f.insn)

abbrev pub reg2 : Fetched → Processor → ℕ
reg2 f p = p.state.xpr (rs2 f.insn)

-- `WRITE_REG`
unfoldable pub write_reg : Processor → ℕ → ℕ → Processor
write_reg p i value = record p {
  state = record p.state { xpr = regfile_write true p.state.xpr i value };
}

-- The end of a body that writes one register.
abbrev pub finish : Fetched → Processor → ℕ → ℕ → Processor × Outcome
finish f p i value = (write_reg p i value, next f.npc)

abbrev pub write_rd : Fetched → Processor → ℕ → Processor × Outcome
write_rd f p value = finish f p (rd f.insn) value

-- `require`
abbrev pub require : Bool → Processor → Processor × Outcome → Processor × Outcome
require test p rest = if test then rest else (p, illegal_instruction)

abbrev pub require_extension : ℕ → Processor → Processor × Outcome → Processor × Outcome
require_extension letter p rest = require (supports_extension p letter) p rest

-- The letter `M`.
abbrev pub letter_m : ℕ
letter_m = 12

-- `set_pc`, and what the body does to the hart after it.
unfoldable pub set_pc : Fetched → Processor → ℕ → Processor → Processor × Outcome
set_pc f p target after =
    if misaligned p target
    then (p, fetch_misaligned target)
    else (after, next (sext_xlen f.xlen target))
