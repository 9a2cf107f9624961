-- ===== src/Processor/Trap/Return/Laws.antt =====
-- `mret` undoes the machine case of `take_trap`.
use spike.Base.{
  ℕ, ◌%◌, ◌^◌, ◌≤◌, ◌<◌, true, false, ◌≡◌, ◌≢◌, ◌⊎◌, inl, inr, refl, ◌∙◌, ap, arith, leb, truth,
}
use spike.Decode.{get_field, set_field, zext_xlen}
use spike.Decode.Fields.{field, field_mask, get_field_lem, set_field-lt}
use spike.Encoding.{prv_m, mstatus_mpie, mstatus_mpp}
use spike.Processor.Names.{csr_name}
use spike.Processor.State.{Processor, set_privilege}
use spike.Processor.Csr.Write.{set_csr, write_csr, mstatus_mask}
use spike.Processor.Csr.Invariant.{IsLegal}
use spike.Processor.Csr.Invariant.Status.{mask_fields, field-set_field_self, field-set_field_other}
use spike.Processor.Trap.{Trap, take_trap, debug_breakpoint, delegated}
use spike.Processor.Trap.Enter.{
  take_trap-IsLegal, take_trap_machine, set_mstatus-field, set_privilege-IsLegal,
}
use spike.Processor.Trap.Return.{next, mret, mret_status, misaligned, serialize_after}

-- Clearing MPIE and MPP leaves the enable bits of the supervisor and machine modes.
clear_stack :
    (k s val : ℕ)
    → s < 2 ^ 64
    → k ≤ 3
    → field k 1
        (set_field (set_field (set_field s (field_mask k 1) val) mstatus_mpie 0) mstatus_mpp 0)
      ≡ val % 2
clear_stack k s val word small =
    let s1 = set_field s (field_mask k 1) val in
    let s2 = set_field s1 mstatus_mpie 0 in
    let w1 = set_field-lt k 1 (omega arith) (omega arith) s val word in
    let w2 = set_field-lt 7 1 (omega arith) (omega arith) s1 0 w1 in
    field-set_field_other 11 2 (omega arith) (omega arith) k 1 s2 0 (omega arith) (omega arith)
      (inl (omega arith)) w2
    ∙ field-set_field_other 7 1 (omega arith) (omega arith) k 1 s1 0 (omega arith) (omega arith)
        (inl (omega arith)) w1
    ∙ field-set_field_self k 1 (omega arith) (omega arith) s val

-- What `mret` writes to the enable bit of the mode that it returns to.
mret_status-enable :
    (s prev : ℕ)
    → s < 2 ^ 64
    → (prev ≡ 1) ⊎ (prev ≡ 3)
    → get_field s mstatus_mpp ≡ prev
    → field prev 1 (mret_status s) ≡ field 7 1 s
unfolding mret_status
mret_status-enable s prev word mode e =
    let mpie = get_field_lem 7 1 (omega arith) (omega arith) s in
    elim mode [
      | inl one ↦
          rw (e, one)
            (clear_stack 1 s (get_field s mstatus_mpie) word (omega arith)
              ∙ ap (λ t. t % 2) mpie
              ∙ omega arith)
      | inr three ↦
          rw (e, three)
            (clear_stack 3 s (get_field s mstatus_mpie) word (omega arith)
              ∙ ap (λ t. t % 2) mpie
              ∙ omega arith)
    ]

field_cover : (p : Processor) (val k : ℕ) → (k ≡ 1) ⊎ (k ≡ 3) → field k 1 (mstatus_mask p val) ≡ 1
field_cover p val k mode = elim mode [
  | inl one ↦ rw one (mask_fields p val).0
  | inr three ↦ rw three (mask_fields p val).1
]

-- The pc and the mode after a return that writes mstatus last.
resumed :
    (p : Processor) (level val : ℕ)
    → level ≢ 2
    → let q = set_csr 0x300 (set_privilege p level) val in
      (q.state.pc ≡ p.state.pc) × (q.state.prv ≡ level)
unfolding set_csr csr_name write_csr set_privilege
resumed p level val ne = (refl, ground arith)

-- A machine-mode return from a legal hart whose return address is aligned: the hart runs at mepc,
-- in the mode that MPP names, whose interrupts are enabled as MPIE says.
mret_lem :
    (p : Processor) (prev : ℕ)
    → IsLegal p
    → p.state.prv ≡ prv_m
    → misaligned p p.state.mepc ≡ false
    → (prev ≡ 1) ⊎ (prev ≡ 3)
    → field 11 2 p.state.mstatus ≡ prev
    → let (q, out) = mret p in
      (out ≡ next serialize_after)
      × (q.state.pc ≡ p.state.mepc)
      × (q.state.prv ≡ prev)
      × (field prev 1 q.state.mstatus ≡ field 7 1 p.state.mstatus)
unfolding mret
mret_lem p prev v machine aligned mode mpp =
    let s = p.state.mstatus in
    let read : get_field s mstatus_mpp ≡ prev =
      get_field_lem 11 2 (omega arith) (omega arith) s ∙ mpp in
    let jumped = record p { state = record p.state { pc = p.state.mepc } } in
    let entered = set_privilege jumped prev in
    let legal : IsLegal entered = set_privilege-IsLegal jumped prev v (omega arith) in
    let privileged : leb prv_m p.state.prv ≡ true = ground arith in
    let after = resumed jumped prev (mret_status s) (omega arith) in
    rw (privileged, aligned, read)
      (
        refl,
        after.0,
        after.1,
        set_mstatus-field prev 1 entered (mret_status s) (omega arith) (omega arith) legal
              (field_cover entered (zext_xlen entered.xlen (mret_status s)) prev mode)
            ∙ mret_status-enable s prev v.status.word mode read,
      )

take_trap-isa :
    (p : Processor) (t : Trap) (epc : ℕ)
    → debug_breakpoint p t.cause ≡ false
    → truth p.state.dcsr.cause ≡ false
    → delegated p t.cause ≡ false
    → (take_trap p t epc).isa ≡ p.isa
unfolding take_trap set_csr csr_name write_csr
take_trap-isa p t epc normal running up = rw (normal, running, up)

misaligned_congr :
    (p q : Processor) (target : ℕ) → q.isa ≡ p.isa → misaligned q target ≡ misaligned p target
unfolding misaligned
misaligned_congr p q target e = rw e

-- Round trip: `mret` after a machine trap from supervisor or machine mode goes back to the
-- instruction that trapped, in the mode that trapped, with that mode's interrupts as they were. The
-- trap is neither for the debugger nor delegated, the hart is legal and outside debug mode, and
-- the trapping pc is aligned.
pub mret-take_trap :
    (p : Processor) (t : Trap) (epc : ℕ)
    → IsLegal p
    → debug_breakpoint p t.cause ≡ false
    → truth p.state.dcsr.cause ≡ false
    → delegated p t.cause ≡ false
    → misaligned p epc ≡ false
    → (p.state.prv ≡ 1) ⊎ (p.state.prv ≡ 3)
    → let (q, out) = mret (take_trap p t epc) in
      (out ≡ next serialize_after)
      × (q.state.pc ≡ epc)
      × (q.state.prv ≡ p.state.prv)
      × (field p.state.prv 1 q.state.mstatus ≡ field p.state.prv 1 p.state.mstatus)
mret-take_trap p t epc v normal running up aligned mode =
    let q = take_trap p t epc in
    let (at_m, vector, saved, cause, off, mpp, mpie) =
      take_trap_machine p t epc v normal running up in
    let straight : misaligned q q.state.mepc ≡ false =
      ap (misaligned q) saved
      ∙ misaligned_congr p q epc (take_trap-isa p t epc normal running up)
      ∙ aligned in
    let (out, pc, prv, enable) =
      mret_lem q p.state.prv (take_trap-IsLegal p t epc v) at_m straight mode mpp in
    (out, pc ∙ saved, prv, enable ∙ mpie)
