-- ===== src/Tests/Harts.antt =====
-- A hart of riscv/processor.h after its reset, and harts made from it.
use spike.Base.{
  ℕ, ◌+◌, ◌^◌, ◌≤◌, ◌<◌, ◌≡◌, inl, inr, refl, arith, false, none, some, bit, bit_lem, all_ones,
}
use spike.Decode.{get_field}
use spike.Decode.Fields.{field}
use spike.Encoding.{prv_m, default_rstvec}
use spike.Processor.Names.{CsrName}
use spike.Processor.State.{Processor, Mmu, reset_state}
use spike.Processor.Csr.Write.{set_csr, write_csr, sstatus_mask, validate_vm}
use spike.Processor.Csr.Invariant.{IsLegal, set_csr-IsLegal}
use spike.Processor.Reset.{reset, reset-IsLegal}
use spike.Processor.Csr.Isolation.{sstatus-outside}
use spike.Processor.Trap.{
  Trap, take_trap, take_interrupt, interrupt_cause, debug_breakpoint, delegated,
}
use spike.Processor.Trap.Interrupt.{IsEnabled, take_interrupt-lowest}
use spike.Processor.Trap.Enter.{take_trap-IsLegal, take_trap_machine}
use spike.Processor.Trap.Return.{mret, next, serialize_after, misaligned}
use spike.Processor.Trap.Return.Laws.{mret-take_trap}

abbrev empty_mmu : Mmu
empty_mmu = record {
  tlb_data = λ _. 0;
  tlb_insn_tag = λ _. all_ones;
  tlb_load_tag = λ _. all_ones;
  tlb_store_tag = λ _. all_ones;
  icache_tag = λ _. all_ones;
  icache_insn = λ _. 0;
  check_triggers_fetch = false;
  check_triggers_load = false;
  check_triggers_store = false;
  matched_trigger = none;
}

-- An RV64 hart at its reset, but in mode `prv`, with the given mstatus, mip, mie and mideleg.
unfoldable pub hart : ℕ → ℕ → ℕ → ℕ → ℕ → Processor
unfolding reset_state
hart prv mstatus mip mie mideleg = record {
  state = record reset_state {
    prv = prv;
    mstatus = mstatus;
    mip = mip;
    mie = mie;
    mideleg = mideleg;
    mtvec = 0x100;
  };
  mmu = empty_mmu;
  ext = false;
  id = 0;
  max_xlen = 64;
  xlen = 64;
  isa = 0x8000000000041101;
  max_isa = 0x8000000000041101;
  debug = false;
  halt_on_reset = false;
}

-- A hart in supervisor mode with its interrupts on; a software and a timer interrupt of machine mode
-- are pending, and the timer interrupt is enabled.
abbrev pub timed : Processor
timed = hart 1 2 0x88 0x80 0x2

pub timed-word : timed.state.mip < 2 ^ 64
unfolding hart
timed-word = omega arith

pub timed-IsLegal : IsLegal timed
unfolding hart validate_vm
timed-IsLegal = record {
  width = inr refl;
  same_width = refl;
  prv_known = (omega arith, omega arith);
  status = record { word = omega arith; vm_legal = refl; sd_dirty = refl };
  mie_known = refl;
  mideleg_known = refl;
  medeleg_known = omega arith;
  stvec_aligned = refl;
  mtvec_aligned = refl;
  tselect_known = omega arith;
  fflags_known = omega arith;
  frm_known = omega arith;
  sptbr_known = omega arith;
}

set_csr-IsLegal_example : IsLegal (set_csr 0x300 timed 0x7fff9e7fffff)
set_csr-IsLegal_example = set_csr-IsLegal 0x300 timed 0x7fff9e7fffff timed-IsLegal

sstatus-outside_example :
    bit (write_csr CsrName.sstatus timed 0xffff).state.mstatus 3 ≡ bit timed.state.mstatus 3
unfolding hart
sstatus-outside_example =
    sstatus-outside timed timed-IsLegal 0xffff 3 (omega (arith, bit_lem 3 sstatus_mask))
      (omega arith)

timer-IsEnabled : IsEnabled timed 7
unfolding hart
timer-IsEnabled = (
  omega (arith, bit_lem 7 0x88),
  omega (arith, bit_lem 7 0x80),
  inl (omega (arith, bit_lem 7 2), inl (omega arith)),
)

take_interrupt-lowest_example :
    (i : ℕ) × (take_interrupt timed
      ≡ some (record { cause = interrupt_cause timed i; badaddr = none }))
    × IsEnabled timed i
    × (i ≤ 7)
unfolding hart
take_interrupt-lowest_example =
    take_interrupt-lowest timed 7 (omega arith) (omega arith) (omega arith) timer-IsEnabled

abbrev timer_trap : Trap
timer_trap = record { cause = 2 ^ 63 + 7; badaddr = none }

timer_taken : take_interrupt timed ≡ some timer_trap
unfolding hart take_interrupt get_field
timer_taken = refl

take_trap-IsLegal_example : IsLegal (take_trap timed timer_trap 0x80000000)
take_trap-IsLegal_example = take_trap-IsLegal timed timer_trap 0x80000000 timed-IsLegal

for_machine :
    (debug_breakpoint timed timer_trap.cause ≡ false) × (delegated timed timer_trap.cause ≡ false)
unfolding hart debug_breakpoint delegated
for_machine = (refl, refl)

take_trap_machine_example :
    let q = (take_trap timed timer_trap 0x80000000).state in
    (q.prv ≡ prv_m)
    × (q.pc ≡ timed.state.mtvec)
    × (q.mepc ≡ 0x80000000)
    × (q.mcause ≡ 2 ^ 63 + 7)
    × (field 3 1 q.mstatus ≡ 0)
    × (field 11 2 q.mstatus ≡ timed.state.prv)
    × (field 7 1 q.mstatus ≡ field timed.state.prv 1 timed.state.mstatus)
unfolding hart
take_trap_machine_example =
    take_trap_machine timed timer_trap 0x80000000 timed-IsLegal for_machine.0 refl for_machine.1

aligned : misaligned timed 0x80000000 ≡ false
unfolding hart misaligned
aligned = refl

mret-take_trap_example :
    let (q, out) = mret (take_trap timed timer_trap 0x80000000) in
    (out ≡ next serialize_after)
    × (q.state.pc ≡ 0x80000000)
    × (q.state.prv ≡ timed.state.prv)
    × (field timed.state.prv 1 q.state.mstatus ≡ field timed.state.prv 1 timed.state.mstatus)
unfolding hart
mret-take_trap_example =
    mret-take_trap timed timer_trap 0x80000000 timed-IsLegal for_machine.0 refl for_machine.1
      aligned (inl refl)

-- A hart in user mode, with a value of mstatus that none has.
reset-IsLegal_example :
    let q = reset (hart 0 0xffffffffffffffff 0x80 0x80 0) in
    IsLegal q
    × (q.state.prv ≡ prv_m)
    × (q.state.pc ≡ default_rstvec)
    × (q.state.dcsr.halt ≡ false)
    × (q.halt_on_reset ≡ false)
unfolding hart
reset-IsLegal_example = reset-IsLegal (hart 0 0xffffffffffffffff 0x80 0x80 0) (inr refl)
