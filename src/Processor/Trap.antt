-- ===== src/Processor/Trap.antt =====
-- riscv/processor.cc and riscv/trap.h: traps, interrupts and debug mode, and the instructions that
-- return from a trap (riscv/insns).
pub mod Interrupt
pub mod Enter
pub mod Return
use spike.Base.{
  ℕ, zero, suc, ◌+◌, ◌-◌, ◌*◌, ◌/◌, ◌%◌, ◌^◌, bit_and, bit_or, Bool, true, false, ◌&&◌, ◌||◌, not,
  ltb, leb, ◌==◌, if◌then◌else◌, Option, none, some, truth, from_bool, neg64, not64, shl64, shr, u8,
}
use spike.Decode.{get_field, set_field}
use spike.Encoding.{
  prv_u, prv_s, prv_h, prv_m, mstatus_uie, mstatus_sie, mstatus_mie, mstatus_spie, mstatus_mpie,
  mstatus_spp, mstatus_mpp, cause_breakpoint, dcsr_cause_swbp,
}
use spike.Processor.State.{Processor, State, Dcsr, set_privilege, yield_load_reservation}
use spike.Processor.Csr.Write.{set_csr}

-- `trap_t` and `mem_trap_t`: the cause, and the bad address of a memory trap.
pub record Trap : Type 0 where
  pub cause : ℕ
  pub badaddr : Option ℕ

-- `DEBUG_ROM_START` and `DEBUG_ROM_EXCEPTION` (riscv/decode.h)
abbrev pub debug_rom_start : ℕ
debug_rom_start = 0x800

abbrev pub debug_rom_exception : ℕ
debug_rom_exception = 0x808

-- The number of the lowest one bit. A word has 64 digits, so 64 rounds are enough.
ctz_rounds : ℕ → ℕ → ℕ
ctz_rounds zero val = 0
ctz_rounds (suc fuel) val =
    let rest = ctz_rounds fuel (shr val 1) in if bit_and val 1 == 0 then suc rest else 0

unfoldable pub ctz : ℕ → ℕ
unfolding ctz_rounds
ctz val = if truth val then ctz_rounds 64 val else 0

-- The interrupts that `take_interrupt` finds enabled.
unfoldable pub enabled_interrupts : Processor → ℕ
enabled_interrupts p =
    let pending = bit_and p.state.mip p.state.mie in
    let mie = truth (get_field p.state.mstatus mstatus_mie) in
    let m_enabled = ltb p.state.prv prv_m || (p.state.prv == prv_m && mie) in
    let machine = bit_and (bit_and pending (not64 p.state.mideleg)) (neg64 (from_bool m_enabled)) in
    let sie = truth (get_field p.state.mstatus mstatus_sie) in
    let s_enabled = ltb p.state.prv prv_s || (p.state.prv == prv_s && sie) in
    bit_or machine (bit_and (bit_and pending p.state.mideleg) (neg64 (from_bool s_enabled)))

-- `raise_interrupt`
unfoldable pub interrupt_cause : Processor → ℕ → ℕ
interrupt_cause p which = bit_or (shl64 1 (p.max_xlen - 1)) which

-- `take_interrupt`: the trap that it throws, if any.
unfoldable pub take_interrupt : Processor → Option Trap
unfolding enabled_interrupts interrupt_cause ctz
take_interrupt p =
    if truth (enabled_interrupts p)
    then some (record { cause = interrupt_cause p (ctz (enabled_interrupts p)); badaddr = none })
    else none

unfoldable pub enter_debug_mode : Processor → ℕ → Processor
unfolding set_privilege
enter_debug_mode p cause =
    let d = record p.state.dcsr { cause = u8 cause; prv = u8 p.state.prv } in
    let q = set_privilege (record p { state = record p.state { dcsr = d } }) prv_m in
    record q { state = record q.state { dpc = q.state.pc; pc = debug_rom_start } }
  where
    open p use {state}

-- The breakpoints that go to the debugger.
unfoldable pub debug_breakpoint : Processor → ℕ → Bool
debug_breakpoint p cause =
    cause == cause_breakpoint
    && ((p.state.prv == prv_m && p.state.dcsr.ebreakm)
        || ((p.state.prv == prv_h && p.state.dcsr.ebreakh)
            || ((p.state.prv == prv_s && p.state.dcsr.ebreaks)
                || (p.state.prv == prv_u && p.state.dcsr.ebreaku))))

-- Whether the trap is delegated to supervisor mode.
unfoldable pub delegated : Processor → ℕ → Bool
delegated p cause =
    let top = shl64 1 (p.max_xlen - 1) in
    let is_interrupt = truth (bit_and cause top) in
    let deleg = if is_interrupt then p.state.mideleg else p.state.medeleg in
    let number = if is_interrupt then bit_and cause (not64 top) else cause in
    leb p.state.prv prv_s && (ltb number p.max_xlen && truth (bit_and (shr deleg number) 1))

abbrev pub from_option : ℕ → Option ℕ → ℕ
from_option old none = old
from_option old (some new) = new

-- The trap registers, and the interrupt-enable stack in mstatus, that the two cases of `take_trap` write.
unfoldable pub supervisor_frame : Processor → Trap → ℕ → Processor
supervisor_frame p t epc = record p {
  state = record p.state {
    pc = p.state.stvec;
    scause = t.cause;
    sepc = epc;
    sbadaddr = from_option p.state.sbadaddr t.badaddr;
  };
}

unfoldable pub supervisor_status : ℕ → ℕ → ℕ
supervisor_status s prv =
    let s1 = set_field s mstatus_spie (get_field s (shl64 mstatus_uie prv)) in
    let s2 = set_field s1 mstatus_spp prv in set_field s2 mstatus_sie 0

unfoldable pub trap_to_supervisor : Processor → Trap → ℕ → Processor
unfolding supervisor_frame supervisor_status
trap_to_supervisor p t epc =
    set_privilege
      (set_csr 0x300 (supervisor_frame p t epc) (supervisor_status p.state.mstatus p.state.prv))
      prv_s

unfoldable pub machine_frame : Processor → Trap → ℕ → Processor
machine_frame p t epc = record p {
  state = record p.state {
    pc = p.state.mtvec;
    mepc = epc;
    mcause = t.cause;
    mbadaddr = from_option p.state.mbadaddr t.badaddr;
  };
}

unfoldable pub machine_status : ℕ → ℕ → ℕ
machine_status s prv =
    let s1 = set_field s mstatus_mpie (get_field s (shl64 mstatus_uie prv)) in
    let s2 = set_field s1 mstatus_mpp prv in set_field s2 mstatus_mie 0

unfoldable pub trap_to_machine : Processor → Trap → ℕ → Processor
unfolding machine_frame machine_status
trap_to_machine p t epc =
    set_privilege
      (set_csr 0x300 (machine_frame p t epc) (machine_status p.state.mstatus p.state.prv)) prv_m

-- `take_trap`, less the message that it prints.
unfoldable pub take_trap : Processor → Trap → ℕ → Processor
unfolding debug_breakpoint enter_debug_mode delegated trap_to_supervisor trap_to_machine
    yield_load_reservation
take_trap p t epc =
    if debug_breakpoint p t.cause
    then enter_debug_mode p dcsr_cause_swbp
    else if truth p.state.dcsr.cause
    then record p { state = record p.state { pc = debug_rom_exception } }
    else yield_load_reservation
        (if delegated p t.cause then trap_to_supervisor p t epc else trap_to_machine p t epc)
