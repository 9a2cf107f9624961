-- ===== src/Processor/Trap/Enter.antt =====
-- What taking a trap does to a legal hart.
use spike.Base.{
  ℕ, zero, suc, ◌+◌, ◌-◌, ◌%◌, ◌^◌, ◌≤◌, ◌<◌, true, false, ◌≡◌, ◌≢◌, inl, inr, refl, ◌∙◌, ap, arith,
  Bool-cases, truth, shl64,
}
use spike.Decode.{zext_xlen, get_field, set_field}
use spike.Decode.Fields.{field, field_ext, get_field_lem, set_field-lt}
use spike.Encoding.{dcsr_cause_swbp, prv_s, prv_m, mstatus_uie, mstatus_mpie, mstatus_mpp}
use spike.Processor.Names.{csr_name}
use spike.Processor.State.{Processor, set_privilege}
use spike.Processor.Csr.Write.{set_csr, write_csr, mstatus_mask}
use spike.Processor.Csr.Invariant.{IsLegal, set_csr-IsLegal}
use spike.Processor.Csr.Invariant.Status.{
  written_status, written_status-field, mask_fields, field-set_field_self, field-set_field_other,
}
use spike.Processor.Csr.Isolation.{zext_xlen-bit}
use spike.Processor.Trap.{
  Trap, take_trap, supervisor_frame, supervisor_status, machine_frame, machine_status,
  trap_to_supervisor, trap_to_machine, delegated, debug_breakpoint, enter_debug_mode,
}

pub set_privilege-IsLegal :
    (p : Processor) (prv : ℕ) → IsLegal p → prv ≤ 3 → IsLegal (set_privilege p prv)
unfolding set_privilege
set_privilege-IsLegal p prv v known = ground arith

pub enter_debug_mode-IsLegal :
    (p : Processor) (cause : ℕ) → IsLegal p → IsLegal (enter_debug_mode p cause)
unfolding enter_debug_mode
enter_debug_mode-IsLegal p cause v = ground arith

trap_to_supervisor-IsLegal :
    (p : Processor) (t : Trap) (epc : ℕ) → IsLegal p → IsLegal (trap_to_supervisor p t epc)
unfolding trap_to_supervisor
trap_to_supervisor-IsLegal p t epc v =
    let q =
      set_csr 0x300 (supervisor_frame p t epc) (supervisor_status p.state.mstatus p.state.prv) in
    set_privilege-IsLegal q prv_s
      (set_csr-IsLegal 0x300 (supervisor_frame p t epc)
        (supervisor_status p.state.mstatus p.state.prv) v)
      (omega arith)

trap_to_machine-IsLegal :
    (p : Processor) (t : Trap) (epc : ℕ) → IsLegal p → IsLegal (trap_to_machine p t epc)
unfolding trap_to_machine
trap_to_machine-IsLegal p t epc v =
    let q = set_csr 0x300 (machine_frame p t epc) (machine_status p.state.mstatus p.state.prv) in
    set_privilege-IsLegal q prv_m
      (set_csr-IsLegal 0x300 (machine_frame p t epc) (machine_status p.state.mstatus p.state.prv) v)
      (omega arith)

-- Taking a trap, whatever its cause, keeps the hart legal.
pub take_trap-IsLegal :
    (p : Processor) (t : Trap) (epc : ℕ) → IsLegal p → IsLegal (take_trap p t epc)
unfolding take_trap
take_trap-IsLegal p t epc v = elim (Bool-cases (debug_breakpoint p t.cause)) [
  | inl debug ↦ rw debug (enter_debug_mode-IsLegal p dcsr_cause_swbp v)
  | inr normal ↦ elim (Bool-cases (truth p.state.dcsr.cause)) [
    | inl in_debug ↦ rw (normal, in_debug) v
    | inr running ↦ elim (Bool-cases (delegated p t.cause)) [
      | inl down ↦ rw (normal, running, down) (trap_to_supervisor-IsLegal p t epc v)
      | inr up ↦ rw (normal, running, up) (trap_to_machine-IsLegal p t epc v)
    ]
  ]
]

pub set_privilege-prv : (p : Processor) (prv : ℕ) → prv ≢ 2 → (set_privilege p prv).state.prv ≡ prv
unfolding set_privilege
set_privilege-prv p prv ne = ground arith

-- A trap never lowers the privilege of a legal hart.
pub take_trap-raises :
    (p : Processor) (t : Trap) (epc : ℕ) → IsLegal p → p.state.prv ≤ (take_trap p t epc).state.prv
unfolding take_trap
take_trap-raises p t epc v = elim (Bool-cases (debug_breakpoint p t.cause)) [
  | inl debug ↦ rw debug (omega (arith, v.prv_known.0))
  | inr normal ↦ elim (Bool-cases (truth p.state.dcsr.cause)) [
    | inl in_debug ↦ rw (normal, in_debug) (omega arith)
    | inr running ↦ elim (Bool-cases (delegated p t.cause)) [
      | inl down ↦ rw (normal, running, down) (low_enough down)
      | inr up ↦ rw (normal, running, up) (omega (arith, v.prv_known.0))
    ]
  ]
]
  where
    low_enough : delegated p t.cause ≡ true → p.state.prv ≤ prv_s
    low_enough down = ground arith

-- The enable bit of a mode is the mstatus bit with the mode's number.
enable_bit : (s prv : ℕ) → prv ≤ 3 → get_field s (shl64 mstatus_uie prv) % 2 ^ 1 ≡ field prv 1 s
enable_bit s zero h =
    ap (λ t. t % 2) (get_field_lem 0 1 (omega arith) (omega arith) s) ∙ omega arith
enable_bit s (suc zero) h =
    ap (λ t. t % 2) (get_field_lem 1 1 (omega arith) (omega arith) s) ∙ omega arith
enable_bit s (suc (suc zero)) h =
    ap (λ t. t % 2) (get_field_lem 2 1 (omega arith) (omega arith) s) ∙ omega arith
enable_bit s (suc (suc (suc zero))) h =
    ap (λ t. t % 2) (get_field_lem 3 1 (omega arith) (omega arith) s) ∙ omega arith
enable_bit s (suc (suc (suc (suc prv)))) h = absurd (omega arith)

-- The fields of mstatus that the machine case writes, from those of the status before.
module _ (s prv : ℕ) (word : s < 2 ^ 64) (known : (prv ≤ 3) × (prv ≢ 2)) where
  machine_status_fields :
      let m = machine_status s prv in
      (field 3 1 m ≡ 0) × (field 11 2 m ≡ prv) × (field 7 1 m ≡ field prv 1 s) × (m < 2 ^ 64)
  unfolding machine_status
  machine_status_fields =
      let s1 = set_field s mstatus_mpie (get_field s (shl64 mstatus_uie prv)) in
      let s2 = set_field s1 mstatus_mpp prv in
      let w1 =
        set_field-lt 7 1 (omega arith) (omega arith) s (get_field s (shl64 mstatus_uie prv)) word in
      let w2 = set_field-lt 11 2 (omega arith) (omega arith) s1 prv w1 in
      let a = field-set_field_self 3 1 (omega arith) (omega arith) s2 0 in
      let b =
        field-set_field_other 3 1 (omega arith) (omega arith) 11 2 s2 0 (omega arith) (omega arith)
          (inr (omega arith)) w2
        ∙ field-set_field_self 11 2 (omega arith) (omega arith) s1 prv in
      let c =
        field-set_field_other 3 1 (omega arith) (omega arith) 7 1 s2 0 (omega arith) (omega arith)
          (inr (omega arith)) w2
        ∙ field-set_field_other 11 2 (omega arith) (omega arith) 7 1 s1 prv (omega arith)
            (omega arith) (inl (omega arith)) w1
        ∙ field-set_field_self 7 1 (omega arith) (omega arith) s
            (get_field s (shl64 mstatus_uie prv)) in
      (
        a,
        b ∙ omega arith,
        c ∙ enable_bit s prv known.0,
        set_field-lt 3 1 (omega arith) (omega arith) s2 0 w2,
      )

zext_xlen-field :
    (low width xlen v : ℕ)
    → low + width ≤ 32
    → 32 ≤ xlen
    → xlen ≤ 64
    → field low width (zext_xlen xlen v) ≡ field low width v
zext_xlen-field low width xlen v low_enough wide fits =
    field_ext low width _ _ λ i p. zext_xlen-bit xlen v (i + low) fits (omega arith)

set_mstatus :
    (p : Processor) (val : ℕ)
    → (set_csr 0x300 p val).state.mstatus ≡ written_status p (zext_xlen p.xlen val)
unfolding set_csr csr_name write_csr
set_mstatus p val = refl

-- A field below SD that software may write, after a write to mstatus.
pub set_mstatus-field :
    (low width : ℕ) (p : Processor) (val : ℕ)
    → 0 < width
    → low + width ≤ 31
    → IsLegal p
    → field low width (mstatus_mask p (zext_xlen p.xlen val)) ≡ 2 ^ width - 1
    → field low width (set_csr 0x300 p val).state.mstatus ≡ field low width val
set_mstatus-field low width p val w below v covered =
    ap (field low width) (set_mstatus p val)
    ∙ written_status-field low width p (zext_xlen p.xlen val) w below v.width v.status.word covered
    ∙ zext_xlen-field low width p.xlen val (omega arith) (ground arith) (ground arith)

-- A trap that is neither for the debugger nor delegated, taken by a legal hart outside debug mode:
-- the machine mode runs from mtvec with its interrupts off, and the registers record the cause, the
-- exception's address, the mode that was left and whether that mode had its interrupts on.
pub take_trap_machine :
    (p : Processor) (t : Trap) (epc : ℕ)
    → IsLegal p
    → debug_breakpoint p t.cause ≡ false
    → truth p.state.dcsr.cause ≡ false
    → delegated p t.cause ≡ false
    → let q = (take_trap p t epc).state in
      (q.prv ≡ prv_m)
      × (q.pc ≡ p.state.mtvec)
      × (q.mepc ≡ epc)
      × (q.mcause ≡ t.cause)
      × (field 3 1 q.mstatus ≡ 0)
      × (field 11 2 q.mstatus ≡ p.state.prv)
      × (field 7 1 q.mstatus ≡ field p.state.prv 1 p.state.mstatus)
unfolding take_trap set_csr csr_name write_csr
take_trap_machine p t epc v normal running up =
    let frame = machine_frame p t epc in
    let m = machine_status p.state.mstatus p.state.prv in
    let f = machine_status_fields p.state.mstatus p.state.prv v.status.word v.prv_known in
    let w = mask_fields frame (zext_xlen p.xlen m) in
    rw (normal, running, up)
      (
        refl,
        refl,
        refl,
        refl,
        set_mstatus-field 3 1 frame m (omega arith) (omega arith) v w.1 ∙ f.0,
        set_mstatus-field 11 2 frame m (omega arith) (omega arith) v w.5 ∙ f.1,
        set_mstatus-field 7 1 frame m (omega arith) (omega arith) v w.3 ∙ f.2,
      )
