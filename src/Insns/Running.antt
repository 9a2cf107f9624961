-- ===== src/Insns/Running.antt =====
-- Programs of the instructions modelled here, in the loop of riscv/execute.cc.
use spike.Base.{ℕ, ◌%◌, ◌≡◌, Bool, false, none, some, List, ◌++◌, get_elem?}
use spike.Encoding.Insns.{Insn}
use spike.Insns.{Body, run_body}
use spike.Insns.Ending.{executed, is_return}
use spike.Insns.Table.{alu_bodies, muldiv_bodies, control_bodies, csr_bodies, compressed_bodies}
use spike.Processor.Csr.Invariant.{IsLegal}
use spike.Processor.State.{Processor}
use spike.Processor.Step.{Executed}
use spike.Processor.Trap.Return.{illegal_instruction}
use spike.Processor.Trap.{Trap}

abbrev pub bodies : List (Insn × Body)
bodies = alu_bodies ++ (muldiv_bodies ++ (control_bodies ++ (csr_bodies ++ compressed_bodies)))

-- `execute_insn` on a program: the word at each pc, and the number of its instruction among the bodies.
-- A word without a number is an illegal instruction. The length of an instruction is read off its word:
-- the bits that say it are in each `MASK_…`, so that they are those of `MATCH_…`.
module _ (code number : ℕ → ℕ) (debug_interrupt : Bool) where
  unfoldable pub run_program : Processor → ℕ → Processor × Executed
  run_program p pc = elim (get_elem? bodies (number (code pc))) [
    | none ↦ (p, executed illegal_instruction)
    | some (insn, body) ↦
        let r = run_body (code pc) body p.xlen debug_interrupt (code pc) pc p in (r.0, executed r.1)
  ]

  -- Whether the instruction at a pc returns from a trap.
  abbrev pub returns_at : ℕ → Bool
  returns_at pc = elim (get_elem? bodies (number (code pc))) [
    | none ↦ false
    | some (insn, body) ↦ is_return insn
  ]

-- A legal hart at an even pc.
pub record Sound (p : Processor) : Type 0 where
  pub legal : IsLegal p
  pub even : p.state.pc % 2 ≡ 0
