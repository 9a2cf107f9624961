-- ===== src/Processor/Csr/Write.antt =====
-- `processor_t::set_csr`, one function for each case that does more than store its value.
use spike.Base.{
  ℕ, zero, suc, ◌-◌, ◌^◌, bit_and, bit_or, bit_xor, Bool, true, false, ◌&&◌, ◌||◌, not, ltb, ◌==◌,
  if◌then◌else◌, none, some, truth, from_bool, not64, shl64, shr, u32,
}
use spike.Decode.{get_field, set_field, zext_xlen}
use spike.Encoding.{
  mstatus_vm, mstatus_mpp, mstatus_mprv, mstatus_pum, mstatus_mxr, mstatus_sie, mstatus_spie,
  mstatus_mie, mstatus_mpie, mstatus_spp, mstatus_fs, mstatus_xs, mstatus32_sd, mstatus64_sd,
  sstatus_sie, sstatus_spie, sstatus_spp, sstatus_fs, sstatus_xs, sstatus_pum, vm_sv32, vm_sv39,
  vm_sv48, vm_mbare, mip_ssip, mip_stip, mip_seip, mip_msip, mip_mtip, irq_cop, mcontrol_select,
  mcontrol_timing, mcontrol_action, mcontrol_chain, mcontrol_match, mcontrol_m, mcontrol_h,
  mcontrol_s, mcontrol_u, mcontrol_execute, mcontrol_store, mcontrol_load, dcsr_prv, dcsr_step,
  dcsr_ebreakm, dcsr_ebreakh, dcsr_ebreaks, dcsr_ebreaku, dcsr_halt,
}
use spike.Processor.Names.{CsrName, csr_name}
use spike.Processor.State.{Processor, Mcontrol, Mmu, num_triggers, flush_tlb}

unfoldable pub validate_vm : ℕ → ℕ → Bool
validate_vm max_xlen vm =
    if max_xlen == 64 && (vm == vm_sv39 || vm == vm_sv48)
    then true
    else if max_xlen == 32 && vm == vm_sv32
    then true
    else vm == vm_mbare

-- The assertion that `xlen` is `max_xlen`, which holds in a legal hart, is not modelled.
unfoldable pub paddr_bits : Processor → ℕ
paddr_bits p = if p.max_xlen == 64 then 50 else 34

-- `dirty_fp_state` (riscv/decode.h)
unfoldable pub dirty_fp_state : Processor → ℕ
dirty_fp_state p =
    bit_or p.state.mstatus (bit_or mstatus_fs (if p.xlen == 64 then mstatus64_sd else mstatus32_sd))

abbrev pub delegable_ints : ℕ
delegable_ints = bit_or (bit_or (bit_or mip_ssip mip_stip) mip_seip) (2 ^ irq_cop)

abbrev pub all_ints : ℕ
all_ints = bit_or (bit_or delegable_ints mip_msip) mip_mtip

abbrev pub flushing_bits : ℕ
flushing_bits =
    bit_or (bit_or (bit_or (bit_or mstatus_vm mstatus_mpp) mstatus_mprv) mstatus_pum) mstatus_mxr

-- The bits of mstatus that software writes: the `vm` field only if the value's is supported.
unfoldable pub mstatus_mask : Processor → ℕ → ℕ
unfolding validate_vm
mstatus_mask p val =
    let mask =
      bit_or
        (bit_or
          (bit_or
            (bit_or
              (bit_or
                (bit_or
                  (bit_or
                    (bit_or (bit_or (bit_or mstatus_sie mstatus_spie) mstatus_mie) mstatus_mpie)
                    mstatus_spp)
                  mstatus_fs)
                mstatus_mprv)
              mstatus_pum)
            mstatus_mpp)
          mstatus_mxr)
        (if p.ext then mstatus_xs else 0) in
    if validate_vm p.max_xlen (get_field val mstatus_vm) then bit_or mask mstatus_vm else mask

-- The SD bit sums up the dirty states: it is set exactly if FS or XS is all ones.
unfoldable pub with_sd : ℕ → ℕ → ℕ
with_sd max_xlen mstatus =
    let dirty =
      (bit_and mstatus mstatus_fs == mstatus_fs) || (bit_and mstatus mstatus_xs == mstatus_xs) in
    if max_xlen == 32
    then set_field mstatus mstatus32_sd (from_bool dirty)
    else set_field mstatus mstatus64_sd (from_bool dirty)

unfoldable pub write_mstatus : Processor → ℕ → Processor
unfolding flush_tlb
write_mstatus p val =
    let old = p.state.mstatus in
    let flushed =
      if truth (bit_and (bit_xor val old) flushing_bits) then flush_tlb p.mmu else p.mmu in
    let mask = mstatus_mask p val in
    let written = bit_or (bit_and old (not64 mask)) (bit_and val mask) in
    record p {
      mmu = flushed;
      state = record p.state { mstatus = with_sd p.max_xlen written };
      xlen = p.max_xlen;
    }
  where
    open p use {state, mmu}

unfoldable pub write_mip : Processor → ℕ → Processor
write_mip p val =
    let mask = bit_or mip_ssip mip_stip in
    record p {
      state = record p.state { mip = bit_or (bit_and p.state.mip (not64 mask)) (bit_and val mask) };
    }

unfoldable pub write_mie : Processor → ℕ → Processor
write_mie p val = record p {
  state = record p.state {
    mie = bit_or (bit_and p.state.mie (not64 all_ints)) (bit_and val all_ints);
  };
}

-- Every cause of the table has a bit that can be delegated.
abbrev pub cause_mask : ℕ
cause_mask = 0xfff

abbrev pub sstatus_mask : ℕ
sstatus_mask =
    bit_or
      (bit_or (bit_or (bit_or (bit_or sstatus_sie sstatus_spie) sstatus_spp) sstatus_fs) sstatus_xs)
      sstatus_pum

-- MISA: the letters M, A, F, D and C can be switched, and D not without F.
unfoldable pub write_misa : Processor → ℕ → Processor
write_misa p val =
    let v = if not (truth (bit_and val (2 ^ 5))) then bit_and val (not64 (2 ^ 3)) else val in
    let mask =
      bit_and (bit_or (bit_or (bit_or (bit_or (2 ^ 12) (2 ^ 0)) (2 ^ 5)) (2 ^ 3)) (2 ^ 2))
        p.max_isa in
    record p { isa = bit_or (bit_and v mask) (bit_and p.isa (not64 mask)) }

-- `processor_t::trigger_updated`
module _ (mcontrol : ℕ → Mcontrol) where
  unfoldable pub scan_triggers : ℕ → ℕ → Mmu → Mmu
  scan_triggers zero i mmu = mmu
  scan_triggers (suc left) i mmu = scan_triggers left (suc i) (record mmu {
    check_triggers_fetch = (mcontrol i).execute || mmu.check_triggers_fetch;
    check_triggers_load = (mcontrol i).load || mmu.check_triggers_load;
    check_triggers_store = (mcontrol i).store || mmu.check_triggers_store;
  })

unfoldable pub trigger_updated : Processor → Processor
unfolding flush_tlb scan_triggers
trigger_updated p =
    let cleared = record (flush_tlb p.mmu) {
      check_triggers_fetch = false;
      check_triggers_load = false;
      check_triggers_store = false;
    } in
    record p { mmu = scan_triggers p.state.mcontrol num_triggers 0 cleared }

abbrev pub update {ℓ} : {A : Type ℓ} → (ℕ → A) → ℕ → A → ℕ → A
update f i v j = if j == i then v else f j

-- `MCONTROL_DMODE(xlen)`
abbrev pub mcontrol_dmode : ℕ → ℕ
mcontrol_dmode xlen = 2 ^ (xlen - 5)

unfoldable pub new_mcontrol : ℕ → Mcontrol → ℕ → Mcontrol
new_mcontrol xlen mc val =
    let execute = truth (get_field val mcontrol_execute) in
    record mc {
      dmode = truth (get_field val (mcontrol_dmode xlen));
      select = truth (get_field val mcontrol_select);
      timing = if execute then false else truth (get_field val mcontrol_timing);
      action = get_field val mcontrol_action;
      chain = truth (get_field val mcontrol_chain);
      match = get_field val mcontrol_match;
      m = truth (get_field val mcontrol_m);
      h = truth (get_field val mcontrol_h);
      s = truth (get_field val mcontrol_s);
      u = truth (get_field val mcontrol_u);
      execute = execute;
      store = truth (get_field val mcontrol_store);
      load = truth (get_field val mcontrol_load);
    }

-- Triggers that the debugger owns are closed to software outside debug mode.
unfoldable pub trigger_locked : Processor → Bool
trigger_locked p = (p.state.mcontrol p.state.tselect).dmode && not (truth p.state.dcsr.cause)

unfoldable pub write_tdata1 : Processor → ℕ → Processor
unfolding trigger_locked new_mcontrol trigger_updated
write_tdata1 p val =
    let i = p.state.tselect in
    let mc = new_mcontrol p.xlen (p.state.mcontrol i) val in
    if trigger_locked p
    then p
    else trigger_updated
        (record p { state = record p.state { mcontrol = update p.state.mcontrol i mc } })

unfoldable pub write_tdata2 : Processor → ℕ → Processor
unfolding trigger_locked
write_tdata2 p val =
    if trigger_locked p
    then p
    else if ltb p.state.tselect num_triggers
    then record p { state = record p.state { tdata2 = update p.state.tdata2 p.state.tselect val } }
    else p

unfoldable pub write_dcsr : Processor → ℕ → Processor
write_dcsr p val = record p {
  state = record p.state {
    dcsr = record p.state.dcsr {
      prv = get_field val dcsr_prv;
      step = truth (get_field val dcsr_step);
      ebreakm = truth (get_field val dcsr_ebreakm);
      ebreakh = truth (get_field val dcsr_ebreakh);
      ebreaks = truth (get_field val dcsr_ebreaks);
      ebreaku = truth (get_field val dcsr_ebreaku);
      halt = truth (get_field val dcsr_halt);
    };
  };
}

-- The counters are one 64-bit number, which RV32 writes by halves.
unfoldable pub write_minstret : Processor → ℕ → ℕ
write_minstret p val =
    if p.xlen == 32
    then bit_or (shl64 (shr p.state.minstret 32) 32) (bit_and val 0xffffffff)
    else val

-- `>>` of `state.minstret << 32` is on 64 bits.
unfoldable pub write_minstreth : Processor → ℕ → ℕ
write_minstreth p val = bit_or (shl64 val 32) (shr (shl64 p.state.minstret 32) 32)

unfoldable pub write_csr : CsrName → Processor → ℕ → Processor
unfolding dirty_fp_state write_mstatus write_mip write_mie write_misa write_tdata1 write_tdata2
    write_dcsr write_minstret write_minstreth paddr_bits
write_csr CsrName.fflags p val = record p {
  state = record p.state { mstatus = dirty_fp_state p; fflags = bit_and val 0x1f };
}
write_csr CsrName.frm p val = record p {
  state = record p.state { mstatus = dirty_fp_state p; frm = bit_and val 0x7 };
}
write_csr CsrName.fcsr p val = record p {
  state = record p.state {
    mstatus = dirty_fp_state p;
    fflags = shr (bit_and val 0x1f) 0;
    frm = shr (bit_and val 0xe0) 5;
  };
}
write_csr CsrName.mstatus p val = write_mstatus p val
write_csr CsrName.mip p val = write_mip p val
write_csr CsrName.mie p val = write_mie p val
write_csr CsrName.mideleg p val = record p {
  state = record p.state {
    mideleg = bit_or (bit_and p.state.mideleg (not64 delegable_ints)) (bit_and val delegable_ints);
  };
}
write_csr CsrName.medeleg p val = record p {
  state = record p.state {
    medeleg = bit_or (bit_and p.state.medeleg (not64 cause_mask)) (bit_and val cause_mask);
  };
}
write_csr CsrName.minstret p val = record p {
  state = record p.state { minstret = write_minstret p val };
}
write_csr CsrName.mcycle p val = record p {
  state = record p.state { minstret = write_minstret p val };
}
write_csr CsrName.minstreth p val = record p {
  state = record p.state { minstret = write_minstreth p val };
}
write_csr CsrName.mcycleh p val = record p {
  state = record p.state { minstret = write_minstreth p val };
}
write_csr CsrName.mucounteren p val = record p { state = record p.state { mucounteren = u32 val } }
write_csr CsrName.mscounteren p val = record p { state = record p.state { mscounteren = u32 val } }
write_csr CsrName.sstatus p val = write_mstatus p (
    zext_xlen p.xlen
      (bit_or (bit_and p.state.mstatus (not64 sstatus_mask)) (bit_and val sstatus_mask)))
write_csr CsrName.sip p val =
    let mask = bit_and mip_ssip p.state.mideleg in
    write_mip p (zext_xlen p.xlen (bit_or (bit_and p.state.mip (not64 mask)) (bit_and val mask)))
write_csr CsrName.sie p val =
    let mask = p.state.mideleg in
    write_mie p (zext_xlen p.xlen (bit_or (bit_and p.state.mie (not64 mask)) (bit_and val mask)))
write_csr CsrName.sptbr p val = record p {
  state = record p.state { sptbr = bit_and val (2 ^ (paddr_bits p - 12) - 1) };
}
write_csr CsrName.sepc p val = record p { state = record p.state { sepc = val } }
write_csr CsrName.stvec p val = record p { state = record p.state { stvec = shl64 (shr val 2) 2 } }
write_csr CsrName.sscratch p val = record p { state = record p.state { sscratch = val } }
write_csr CsrName.scause p val = record p { state = record p.state { scause = val } }
write_csr CsrName.sbadaddr p val = record p { state = record p.state { sbadaddr = val } }
write_csr CsrName.mepc p val = record p { state = record p.state { mepc = val } }
write_csr CsrName.mtvec p val = record p { state = record p.state { mtvec = shl64 (shr val 2) 2 } }
write_csr CsrName.mscratch p val = record p { state = record p.state { mscratch = val } }
write_csr CsrName.mcause p val = record p { state = record p.state { mcause = val } }
write_csr CsrName.mbadaddr p val = record p { state = record p.state { mbadaddr = val } }
write_csr CsrName.misa p val = write_misa p val
write_csr CsrName.tselect p val =
    if ltb val num_triggers then record p { state = record p.state { tselect = val } } else p
write_csr CsrName.tdata1 p val = write_tdata1 p val
write_csr CsrName.tdata2 p val = write_tdata2 p val
write_csr CsrName.dcsr p val = write_dcsr p val
write_csr CsrName.dpc p val = record p { state = record p.state { dpc = val } }
write_csr CsrName.dscratch p val = record p { state = record p.state { dscratch = val } }
write_csr _ p val = p

-- A number with no case is ignored.
unfoldable pub set_csr : ℕ → Processor → ℕ → Processor
set_csr which p val =
    let v = zext_xlen p.xlen val in
    elim (csr_name which) [ none ↦ p | some name ↦ write_csr name p v ]
