-- ===== src/Processor/Csr/Read.antt =====
-- `processor_t::get_csr`. `none` is the illegal-instruction trap. `debug_interrupt` is what
-- `sim->debug_module.get_interrupt(id)` returns.
use spike.Base.{
  ℕ, ◌-◌, ◌*◌, ◌^◌, bit_and, bit_or, Bool, ◌&&◌, ◌||◌, ltb, leb, ◌==◌, if◌then◌else◌, Option, none,
  some, truth, from_bool, shl64, shr,
}
use spike.Decode.{set_field}
use spike.Encoding.{
  prv_u, prv_s, mstatus_fs, sstatus_fs, sstatus_xs, sstatus32_sd, sstatus64_sd, mcontrol_select,
  mcontrol_timing, mcontrol_action, mcontrol_chain, mcontrol_match, mcontrol_m, mcontrol_h,
  mcontrol_s, mcontrol_u, mcontrol_execute, mcontrol_store, mcontrol_load, dcsr_xdebugver,
  dcsr_ndreset, dcsr_fullreset, dcsr_prv, dcsr_step, dcsr_debugint, dcsr_stopcycle, dcsr_stoptime,
  dcsr_ebreakm, dcsr_ebreakh, dcsr_ebreaks, dcsr_ebreaku, dcsr_halt, dcsr_cause,
}
use spike.Processor.Names.{CsrName, csr_name}
use spike.Processor.State.{Processor, num_triggers}
use spike.Processor.Csr.Write.{sstatus_mask, mcontrol_dmode}

-- `supports_extension`, of the letter `A` + `letter`.
unfoldable pub supports_extension : Processor → ℕ → Bool
supports_extension p letter = truth (bit_and (shr p.isa letter) 1)

abbrev pub letter_f : ℕ
letter_f = 5

-- The counters that the current mode may read.
unfoldable pub counter_ok : Processor → ℕ → Bool
counter_ok p which =
    let enabled =
      if p.state.prv == prv_u
      then p.state.mucounteren
      else if p.state.prv == prv_s
      then p.state.mscounteren
      else 0xffffffff in
    truth (bit_and (shr enabled (bit_and which 31)) 1)

abbrev pub within : ℕ → ℕ → ℕ → Bool
within low high n = leb low n && leb n high

-- The hardware performance counters read as zero. The fourth test is the third once more, under
-- `xlen == 32`, as in the code.
unfoldable pub zero_counter : Processor → ℕ → Bool
unfolding counter_ok
zero_counter p which =
    (counter_ok p which && (within 0xc03 0xc1f which || (p.xlen == 32 && within 0xc83 0xc9f which)))
    || (within 0xb03 0xb1f which
        || ((p.xlen == 32 && within 0xb03 0xb1f which) || within 0x323 0x33f which))

unfoldable pub read_fp : Processor → ℕ → Option ℕ
unfolding supports_extension
read_fp p v =
    if truth (bit_and p.state.mstatus mstatus_fs)
    then (if supports_extension p letter_f then some v else none)
    else none

unfoldable pub read_sstatus : Processor → ℕ
read_sstatus p =
    let sstatus = bit_and p.state.mstatus sstatus_mask in
    if (bit_and sstatus sstatus_fs == sstatus_fs) || (bit_and sstatus sstatus_xs == sstatus_xs)
    then bit_or sstatus (if p.xlen == 32 then sstatus32_sd else sstatus64_sd)
    else sstatus

unfoldable pub read_tdata1 : Processor → ℕ
read_tdata1 p =
    let mc = p.state.mcontrol p.state.tselect in
    let v = set_field 0 (0xf * 2 ^ (p.xlen - 4)) mc.type in
    let v = set_field v (mcontrol_dmode p.xlen) (from_bool mc.dmode) in
    let v = set_field v (0x3f * 2 ^ (p.xlen - 11)) mc.maskmax in
    let v = set_field v mcontrol_select (from_bool mc.select) in
    let v = set_field v mcontrol_timing (from_bool mc.timing) in
    let v = set_field v mcontrol_action mc.action in
    let v = set_field v mcontrol_chain (from_bool mc.chain) in
    let v = set_field v mcontrol_match mc.match in
    let v = set_field v mcontrol_m (from_bool mc.m) in
    let v = set_field v mcontrol_h (from_bool mc.h) in
    let v = set_field v mcontrol_s (from_bool mc.s) in
    let v = set_field v mcontrol_u (from_bool mc.u) in
    let v = set_field v mcontrol_execute (from_bool mc.execute) in
    let v = set_field v mcontrol_store (from_bool mc.store) in
    let v = set_field v mcontrol_load (from_bool mc.load) in
    if ltb p.state.tselect num_triggers then v else 0

unfoldable pub read_dcsr : Processor → Bool → ℕ
read_dcsr p debug_interrupt =
    let d = p.state.dcsr in
    let v = set_field 0 dcsr_xdebugver 1 in
    let v = set_field v dcsr_ndreset 0 in
    let v = set_field v dcsr_fullreset 0 in
    let v = set_field v dcsr_prv d.prv in
    let v = set_field v dcsr_step (from_bool d.step) in
    let v = set_field v dcsr_debugint (from_bool debug_interrupt) in
    let v = set_field v dcsr_stopcycle 0 in
    let v = set_field v dcsr_stoptime 0 in
    let v = set_field v dcsr_ebreakm (from_bool d.ebreakm) in
    let v = set_field v dcsr_ebreakh (from_bool d.ebreakh) in
    let v = set_field v dcsr_ebreaks (from_bool d.ebreaks) in
    let v = set_field v dcsr_ebreaku (from_bool d.ebreaku) in
    let v = set_field v dcsr_halt (from_bool d.halt) in set_field v dcsr_cause d.cause

unfoldable pub read_scause : Processor → ℕ
read_scause p =
    let c = p.state.scause in
    if ltb p.xlen p.max_xlen then bit_or c (shl64 (shr c (p.max_xlen - 1)) (p.xlen - 1)) else c

-- The `switch`. `counter` is whether the current mode may read the counter.
unfoldable pub read_csr : CsrName → Processor → Bool → Bool → Option ℕ
unfolding read_fp read_sstatus read_tdata1 read_dcsr read_scause
read_csr CsrName.fflags p counter dbg = read_fp p p.state.fflags
read_csr CsrName.frm p counter dbg = read_fp p p.state.frm
read_csr CsrName.fcsr p counter dbg =
    read_fp p (bit_or (shl64 p.state.fflags 0) (shl64 p.state.frm 5))
read_csr CsrName.instret p counter dbg = if counter then some p.state.minstret else none
read_csr CsrName.cycle p counter dbg = if counter then some p.state.minstret else none
read_csr CsrName.minstret p counter dbg = some p.state.minstret
read_csr CsrName.mcycle p counter dbg = some p.state.minstret
read_csr CsrName.minstreth p counter dbg =
    if p.xlen == 32 then some (shr p.state.minstret 32) else none
read_csr CsrName.mcycleh p counter dbg =
    if p.xlen == 32 then some (shr p.state.minstret 32) else none
read_csr CsrName.mucounteren p counter dbg = some p.state.mucounteren
read_csr CsrName.mscounteren p counter dbg = some p.state.mscounteren
read_csr CsrName.sstatus p counter dbg = some (read_sstatus p)
read_csr CsrName.sip p counter dbg = some (bit_and p.state.mip p.state.mideleg)
read_csr CsrName.sie p counter dbg = some (bit_and p.state.mie p.state.mideleg)
read_csr CsrName.sepc p counter dbg = some p.state.sepc
read_csr CsrName.sbadaddr p counter dbg = some p.state.sbadaddr
read_csr CsrName.stvec p counter dbg = some p.state.stvec
read_csr CsrName.scause p counter dbg = some (read_scause p)
read_csr CsrName.sptbr p counter dbg = some p.state.sptbr
read_csr CsrName.sscratch p counter dbg = some p.state.sscratch
read_csr CsrName.mstatus p counter dbg = some p.state.mstatus
read_csr CsrName.mip p counter dbg = some p.state.mip
read_csr CsrName.mie p counter dbg = some p.state.mie
read_csr CsrName.mepc p counter dbg = some p.state.mepc
read_csr CsrName.mscratch p counter dbg = some p.state.mscratch
read_csr CsrName.mcause p counter dbg = some p.state.mcause
read_csr CsrName.mbadaddr p counter dbg = some p.state.mbadaddr
read_csr CsrName.misa p counter dbg = some p.isa
read_csr CsrName.marchid p counter dbg = some 0
read_csr CsrName.mimpid p counter dbg = some 0
read_csr CsrName.mvendorid p counter dbg = some 0
read_csr CsrName.mhartid p counter dbg = some p.id
read_csr CsrName.mtvec p counter dbg = some p.state.mtvec
read_csr CsrName.medeleg p counter dbg = some p.state.medeleg
read_csr CsrName.mideleg p counter dbg = some p.state.mideleg
read_csr CsrName.tselect p counter dbg = some p.state.tselect
read_csr CsrName.tdata1 p counter dbg = some (read_tdata1 p)
read_csr CsrName.tdata2 p counter dbg =
    some (if ltb p.state.tselect num_triggers then p.state.tdata2 p.state.tselect else 0)
read_csr CsrName.tdata3 p counter dbg = some 0
read_csr CsrName.dcsr p counter dbg = some (read_dcsr p dbg)
read_csr CsrName.dpc p counter dbg = some p.state.dpc
read_csr CsrName.dscratch p counter dbg = some p.state.dscratch

unfoldable pub get_csr : ℕ → Processor → Bool → Option ℕ
unfolding zero_counter read_csr
get_csr which p debug_interrupt = if zero_counter p which then some 0 else elim (csr_name which) [
  | none ↦ none
  | some name ↦ read_csr name p (counter_ok p which) debug_interrupt
]
