-- ===== src/Insns/Control.antt =====
-- Branches, jumps and system instructions under riscv/insns. mret.h and sret.h are in
-- `Processor.Trap.Return`.
use spike.Base.{ℕ, Bool, not, bit_and, not64, ltb, leb, ◌==◌, if◌then◌else◌, add64, signed_lt, none}
use spike.Decode.{i_imm, sb_imm, uj_imm, rd}
use spike.Encoding.{
  prv_u, prv_s, prv_h, prv_m, cause_breakpoint, cause_user_ecall, cause_supervisor_ecall,
  cause_hypervisor_ecall, cause_machine_ecall,
}
use spike.Insns.{Body, Fetched, reg1, reg2, write_reg, require, set_pc}
use spike.Processor.State.{Processor, step_stepping, flush_icache, flush_tlb, set_privilege}
use spike.Processor.Trap.Return.{
  Outcome, next, thrown, misaligned, fetch_misaligned, serialize_after,
}

abbrev pub trap : ℕ → Outcome
trap cause = thrown (record { cause = cause; badaddr = none })

-- The body of a branch: `set_pc(BRANCH_TARGET)` under its test.
abbrev branch : Fetched → Processor → Bool → Processor × Outcome
branch f p test = if test then set_pc f p (add64 f.pc (sb_imm f.insn)) p else (p, next f.npc)

-- What dret.h does once the pc is found aligned.
unfoldable pub leave_debug_mode : Processor → Processor
leave_debug_mode p =
    let jumped = record p { state = record p.state { pc = p.state.dpc } } in
    let q = set_privilege jumped p.state.dcsr.prv in
    record q {
      state = record q.state {
        dcsr = record q.state.dcsr { cause = 0 };
        single_step = if q.state.dcsr.step then step_stepping else q.state.single_step;
      };
    }

unfoldable pub beq : Body
beq f p = branch f p ((reg1 f p) == (reg2 f p))

unfoldable pub bge : Body
bge f p = branch f p (not (signed_lt (reg1 f p) (reg2 f p)))

unfoldable pub bgeu : Body
bgeu f p = branch f p (leb (reg2 f p) (reg1 f p))

unfoldable pub blt : Body
blt f p = branch f p (signed_lt (reg1 f p) (reg2 f p))

unfoldable pub bltu : Body
bltu f p = branch f p (ltb (reg1 f p) (reg2 f p))

unfoldable pub bne : Body
bne f p = branch f p (not ((reg1 f p) == (reg2 f p)))

unfoldable pub jal : Body
jal f p = set_pc f p (add64 f.pc (uj_imm f.insn)) (write_reg p (rd f.insn) f.npc)

unfoldable pub jalr : Body
jalr f p =
    set_pc f p (bit_and (add64 (reg1 f p) (i_imm f.insn)) (not64 1)) (write_reg p (rd f.insn) f.npc)

unfoldable pub ebreak : Body
ebreak f p = (p, trap cause_breakpoint)

unfoldable pub ecall : Body
ecall f p =
    if p.state.prv == prv_u
    then (p, trap cause_user_ecall)
    else if p.state.prv == prv_s
    then (p, trap cause_supervisor_ecall)
    else if p.state.prv == prv_h
    then (p, trap cause_hypervisor_ecall)
    else if p.state.prv == prv_m
    then (p, trap cause_machine_ecall)
    else (p, next f.npc)

unfoldable pub dret : Body
dret f p = require (leb prv_m p.state.prv) p (
    if misaligned p p.state.dpc
    then (p, fetch_misaligned p.state.dpc)
    else (leave_debug_mode p, next serialize_after))

unfoldable pub fence : Body
fence f p = (p, next f.npc)

unfoldable pub fence_i : Body
fence_i f p = (record p { mmu = flush_icache p.mmu }, next f.npc)

unfoldable pub sfence_vm : Body
sfence_vm f p = require (leb prv_s p.state.prv) p (record p { mmu = flush_tlb p.mmu }, next f.npc)

unfoldable pub wfi : Body
wfi f p = (p, next f.npc)
