-- ===== src/Processor/Csr/Invariant.antt =====
-- What every write of a control register keeps true of a hart.
pub mod Status
use native.Mathlib.Decide.{dec_lt}
use spike.Base.{
  ℕ, zero, suc, ◌+◌, ◌-◌, ◌*◌, ◌/◌, ◌%◌, ◌^◌, ◌≤◌, ◌<◌, min, bit_and, bit_or, Bool, true, false,
  ◌≡◌, ◌≢◌, ◌⊎◌, inl, inr, refl, ◌∙◌, ap, sym, arith, ltb, ◌==◌, if◌then◌else◌, Option, none, some,
  masked, not64, shl64, shr, Bool-cases, Option-cases, and_mask, and-lt, and-lt_right, or-lt,
  bit_ext, bit-and, bit-or, bit, bit-le-one, bit_complement, bit-high, not64-bit,
}
use spike.Decode.{zext_xlen}
use spike.Processor.Names.{CsrName, csr_name}
use spike.Processor.State.{Processor, State, num_triggers}
use spike.Processor.Csr.Write.{
  write_csr, set_csr, delegable_ints, all_ints, cause_mask, write_mstatus, write_mip, write_mie,
  write_misa, write_tdata1, write_tdata2, write_dcsr, trigger_updated, trigger_locked, paddr_bits,
}
use Status.{StatusOk, written_status-StatusOk, dirty_fp_state-StatusOk}

-- The registers that the rest of the simulator relies on, as numbers.
pub record Legal
    (max_xlen xlen prv mstatus mie mideleg medeleg stvec mtvec tselect fflags frm sptbr : ℕ)
    : Type 0 where
  pub width : (max_xlen ≡ 32) ⊎ (max_xlen ≡ 64)
  pub same_width : xlen ≡ max_xlen
  pub prv_known : (prv ≤ 3) × (prv ≢ 2)
  pub status : StatusOk max_xlen mstatus
  pub mie_known : bit_and mie all_ints ≡ mie
  pub mideleg_known : bit_and mideleg delegable_ints ≡ mideleg
  pub medeleg_known : medeleg < 2 ^ 12
  pub stvec_aligned : stvec % 4 ≡ 0
  pub mtvec_aligned : mtvec % 4 ≡ 0
  pub tselect_known : tselect < num_triggers
  pub fflags_known : fflags < 2 ^ 5
  pub frm_known : frm < 2 ^ 3
  pub sptbr_known : sptbr < 2 ^ 38

-- A hart is legal: supported widths, privilege and address translation modes only, SD sums up the
-- dirty states, only delegable interrupts and causes are delegated, and the rest is in range.
abbrev pub IsLegal : Processor → Type 0
IsLegal p =
    Legal p.max_xlen p.xlen p.state.prv p.state.mstatus p.state.mie p.state.mideleg p.state.medeleg
      p.state.stvec p.state.mtvec p.state.tselect p.state.fflags p.state.frm p.state.sptbr

-- A masked write of a register that lies within the mask stays within it.
masked-within :
    (old mask val : ℕ)
    → mask < 2 ^ 64
    → bit_and old mask ≡ old
    → bit_and (masked old mask val) mask ≡ masked old mask val
masked-within old mask val m within = bit_ext _ _ λ i.
    let a = bit-and (masked old mask val) mask i in
    let b = bit-or (bit_and old (not64 mask)) (bit_and val mask) i in
    let c = bit-and old (not64 mask) i in
    let d = bit-and val mask i in
    let e : min (bit old i) (bit mask i) ≡ bit old i =
      sym (bit-and old mask i) ∙ ap (λ t. bit t i) within in
    elim (dec_lt i 64) [
      | yes q ↦ omega (
        arith,
        a,
        b,
        c,
        d,
        e,
        not64-bit mask i m q,
        bit-le-one mask i,
        bit-le-one old i,
        bit-le-one val i,
      )
      | no q ↦ omega (arith, a, b, c, d, e, bit-high 64 mask i m (omega arith), bit-le-one old i)
    ]

masked-small :
    (n old mask val : ℕ) → n ≤ 64 → mask < 2 ^ n → old < 2 ^ n → masked old mask val < 2 ^ n
masked-small n old mask val p m o =
    or-lt n _ _ (and-lt n old (not64 mask) o) (and-lt_right n val mask m)

tvec_aligned : (val : ℕ) → shl64 (shr val 2) 2 % 4 ≡ 0
tvec_aligned val = omega arith

module _ (p : Processor) (v : IsLegal p) (val : ℕ) where
  with_status :
      (m : ℕ)
      → StatusOk p.max_xlen m
      → IsLegal (record p { state = record p.state { mstatus = m }; xlen = p.max_xlen })
  with_status m ok = record {
    width = v.width;
    same_width = refl;
    prv_known = v.prv_known;
    status = ok;
    mie_known = v.mie_known;
    mideleg_known = v.mideleg_known;
    medeleg_known = v.medeleg_known;
    stvec_aligned = v.stvec_aligned;
    mtvec_aligned = v.mtvec_aligned;
    tselect_known = v.tselect_known;
    fflags_known = v.fflags_known;
    frm_known = v.frm_known;
    sptbr_known = v.sptbr_known;
  }

  pub write_mstatus-IsLegal : IsLegal (write_mstatus p val)
  unfolding write_mstatus
  write_mstatus-IsLegal = with_status _ (written_status-StatusOk p val v.status)

  pub write_mie-IsLegal : IsLegal (write_mie p val)
  unfolding write_mie
  write_mie-IsLegal =
      ground (arith, masked-within p.state.mie all_ints val (omega arith) v.mie_known)

  write_mideleg-IsLegal : IsLegal (write_csr CsrName.mideleg p val)
  unfolding write_csr
  write_mideleg-IsLegal =
      ground (arith, masked-within p.state.mideleg delegable_ints val (omega arith) v.mideleg_known)

  write_fflags-IsLegal : IsLegal (write_csr CsrName.fflags p val)
  unfolding write_csr
  write_fflags-IsLegal = ground (
    arith,
    dirty_fp_state-StatusOk p v.same_width v.width v.status,
    and-lt_right 5 val 0x1f (omega arith),
  )

  write_frm-IsLegal : IsLegal (write_csr CsrName.frm p val)
  unfolding write_csr
  write_frm-IsLegal = ground (
    arith,
    dirty_fp_state-StatusOk p v.same_width v.width v.status,
    and-lt_right 3 val 0x7 (omega arith),
  )

  write_fcsr-IsLegal : IsLegal (write_csr CsrName.fcsr p val)
  unfolding write_csr
  write_fcsr-IsLegal = ground (
    arith,
    dirty_fp_state-StatusOk p v.same_width v.width v.status,
    and-lt_right 5 val 0x1f (omega arith),
    and-lt_right 8 val 0xe0 (omega arith),
  )

  write_medeleg-IsLegal : IsLegal (write_csr CsrName.medeleg p val)
  unfolding write_csr
  write_medeleg-IsLegal = ground (
    arith,
    masked-small 12 p.state.medeleg cause_mask val (omega arith) (omega arith) v.medeleg_known,
  )

  write_sptbr-IsLegal : IsLegal (write_csr CsrName.sptbr p val)
  unfolding write_csr paddr_bits
  write_sptbr-IsLegal = elim (Bool-cases (p.max_xlen == 64)) [
    | inl wide ↦
        let small = and-lt_right 38 val (2 ^ 38 - 1) (omega arith) in
        rw wide (ground (arith, small))
    | inr narrow ↦
        let small = and-lt_right 38 val (2 ^ 22 - 1) (omega arith) in
        rw narrow (ground (arith, small))
  ]

  write_stvec-IsLegal : IsLegal (write_csr CsrName.stvec p val)
  unfolding write_csr
  write_stvec-IsLegal = ground arith

  write_mtvec-IsLegal : IsLegal (write_csr CsrName.mtvec p val)
  unfolding write_csr
  write_mtvec-IsLegal = ground arith

  write_tselect-IsLegal : IsLegal (write_csr CsrName.tselect p val)
  unfolding write_csr
  write_tselect-IsLegal = ground arith

  write_tdata1-IsLegal : IsLegal (write_tdata1 p val)
  unfolding write_tdata1
  write_tdata1-IsLegal = elim (Bool-cases (trigger_locked p)) [
    | inl locked ↦ rw locked v
    | inr unlocked ↦ rw unlocked v
  ]

  write_tdata2-IsLegal : IsLegal (write_tdata2 p val)
  unfolding write_tdata2
  write_tdata2-IsLegal = elim (Bool-cases (trigger_locked p)) [
    | inl locked ↦ rw locked v
    | inr free ↦ elim (Bool-cases (ltb p.state.tselect num_triggers)) [
      | inl known ↦ rw (free, known) v
      | inr unknown ↦ rw (free, unknown) v
    ]
  ]

-- Writing any named register, with any value, keeps the hart legal.
pub write_csr-IsLegal :
    (name : CsrName) (p : Processor) (val : ℕ) → IsLegal p → IsLegal (write_csr name p val)
unfolding write_csr
write_csr-IsLegal CsrName.fflags p val v = write_fflags-IsLegal p v val
write_csr-IsLegal CsrName.frm p val v = write_frm-IsLegal p v val
write_csr-IsLegal CsrName.fcsr p val v = write_fcsr-IsLegal p v val
write_csr-IsLegal CsrName.mstatus p val v = write_mstatus-IsLegal p v val
write_csr-IsLegal CsrName.mip p val v = v
write_csr-IsLegal CsrName.mie p val v = write_mie-IsLegal p v val
write_csr-IsLegal CsrName.mideleg p val v = write_mideleg-IsLegal p v val
write_csr-IsLegal CsrName.medeleg p val v = write_medeleg-IsLegal p v val
write_csr-IsLegal CsrName.minstret p val v = v
write_csr-IsLegal CsrName.mcycle p val v = v
write_csr-IsLegal CsrName.minstreth p val v = v
write_csr-IsLegal CsrName.mcycleh p val v = v
write_csr-IsLegal CsrName.mucounteren p val v = v
write_csr-IsLegal CsrName.mscounteren p val v = v
write_csr-IsLegal CsrName.sstatus p val v = write_mstatus-IsLegal p v _
write_csr-IsLegal CsrName.sip p val v = v
write_csr-IsLegal CsrName.sie p val v = write_mie-IsLegal p v _
write_csr-IsLegal CsrName.sptbr p val v = write_sptbr-IsLegal p v val
write_csr-IsLegal CsrName.sepc p val v = v
write_csr-IsLegal CsrName.stvec p val v = write_stvec-IsLegal p v val
write_csr-IsLegal CsrName.sscratch p val v = v
write_csr-IsLegal CsrName.scause p val v = v
write_csr-IsLegal CsrName.sbadaddr p val v = v
write_csr-IsLegal CsrName.mepc p val v = v
write_csr-IsLegal CsrName.mtvec p val v = write_mtvec-IsLegal p v val
write_csr-IsLegal CsrName.mscratch p val v = v
write_csr-IsLegal CsrName.mcause p val v = v
write_csr-IsLegal CsrName.mbadaddr p val v = v
write_csr-IsLegal CsrName.misa p val v = v
write_csr-IsLegal CsrName.tselect p val v = write_tselect-IsLegal p v val
write_csr-IsLegal CsrName.tdata1 p val v = write_tdata1-IsLegal p v val
write_csr-IsLegal CsrName.tdata2 p val v = write_tdata2-IsLegal p v val
write_csr-IsLegal CsrName.tdata3 p val v = v
write_csr-IsLegal CsrName.dcsr p val v = v
write_csr-IsLegal CsrName.dpc p val v = v
write_csr-IsLegal CsrName.dscratch p val v = v
write_csr-IsLegal CsrName.instret p val v = v
write_csr-IsLegal CsrName.cycle p val v = v
write_csr-IsLegal CsrName.marchid p val v = v
write_csr-IsLegal CsrName.mimpid p val v = v
write_csr-IsLegal CsrName.mvendorid p val v = v
write_csr-IsLegal CsrName.mhartid p val v = v

-- Every write to a control register, whatever its number and value, keeps the hart legal.
pub set_csr-IsLegal :
    (which : ℕ) (p : Processor) (val : ℕ) → IsLegal p → IsLegal (set_csr which p val)
unfolding set_csr
set_csr-IsLegal which p val v = elim (Option-cases (csr_name which)) [
  | inl ignored ↦ rw (ignored, set_csr) v
  | inr (name, e) ↦ rw (e, set_csr) (write_csr-IsLegal name p (zext_xlen p.xlen val) v)
]
