-- ===== src/Processor/Reset.antt =====
-- `processor_t::reset` in riscv/processor.cc. The reset of an extension is outside the hart's state.
use spike.Base.{ℕ, ◌≡◌, ◌⊎◌, inl, inr, refl, arith, false}
use spike.Decode.{zext_xlen}
use spike.Encoding.{prv_m, default_rstvec}
use spike.Processor.Csr.Invariant.{IsLegal, write_mstatus-IsLegal}
use spike.Processor.Csr.Invariant.Status.{StatusOk}
use spike.Processor.Csr.Write.{mstatus_mask, validate_vm, set_csr, write_csr, write_mstatus}
use spike.Processor.Names.{csr_name}
use spike.Processor.State.{Processor, reset_state}

-- `CSR_MSTATUS`
abbrev csr_mstatus : ℕ
csr_mstatus = 0x300

-- The state of the reset, with the request to halt taken over.
abbrev fresh : Processor → Processor
fresh p = record p {
  state = let s = reset_state in record s { dcsr = record s.dcsr { halt = p.halt_on_reset } };
  halt_on_reset = false;
}

-- `processor_t::reset`
unfoldable pub reset : Processor → Processor
reset p = let q = fresh p in set_csr csr_mstatus q q.state.mstatus

blank-StatusOk : (xlen : ℕ) → (xlen ≡ 32) ⊎ (xlen ≡ 64) → StatusOk xlen 0
unfolding validate_vm
blank-StatusOk xlen width = elim width [
  | inl e ↦ rw e record { word = omega arith; vm_legal = refl; sd_dirty = refl }
  | inr e ↦ rw e record { word = omega arith; vm_legal = refl; sd_dirty = refl }
]

-- A fresh hart is legal but for its width, which the write of mstatus sets.
fresh-IsLegal :
    (p : Processor)
    → (p.max_xlen ≡ 32) ⊎ (p.max_xlen ≡ 64)
    → IsLegal (record (fresh p) { xlen = p.max_xlen })
unfolding reset_state
fresh-IsLegal p width = record {
  width = width;
  same_width = refl;
  prv_known = (omega arith, omega arith);
  status = blank-StatusOk p.max_xlen width;
  mie_known = refl;
  mideleg_known = refl;
  medeleg_known = omega arith;
  stvec_aligned = refl;
  mtvec_aligned = refl;
  tselect_known = omega arith;
  fflags_known = omega arith;
  frm_known = omega arith;
  sptbr_known = omega arith;
}

-- Of a hart with 32 or 64 bits, whatever it did before, the reset makes a legal one in machine mode
-- at the reset vector, which halts if that was asked for, and no second time.
pub reset-IsLegal :
    (p : Processor)
    → (p.max_xlen ≡ 32) ⊎ (p.max_xlen ≡ 64)
    → let q = reset p in
      IsLegal q
      × (q.state.prv ≡ prv_m)
      × (q.state.pc ≡ default_rstvec)
      × (q.state.dcsr.halt ≡ p.halt_on_reset)
      × (q.halt_on_reset ≡ false)
unfolding reset set_csr write_csr write_mstatus mstatus_mask reset_state csr_name
reset-IsLegal p width = (
  write_mstatus-IsLegal (record (fresh p) { xlen = p.max_xlen }) (fresh-IsLegal p width)
      (zext_xlen p.xlen 0),
  refl,
  refl,
  refl,
  refl,
)
