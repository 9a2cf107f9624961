-- ===== src/Insns/Csr.antt =====
-- riscv/insns/csrrc.h to csrrwi.h, with `validate_csr` of riscv/decode.h.
use spike.Base.{
  ℕ, Bool, true, false, not, ◌&&◌, ◌||◌, bit_and, bit_or, not64, ltb, ◌==◌, if◌then◌else◌, none,
  some,
}
use spike.Decode.{rs1, csr, get_field, sext_xlen}
use spike.Insns.{Body, Fetched, reg1, write_rd}
use spike.Processor.Csr.Read.{get_csr}
use spike.Processor.Csr.Write.{set_csr}
use spike.Processor.State.{Processor}
use spike.Processor.Trap.Return.{Outcome, next, illegal_instruction}

-- `PC_SERIALIZE_BEFORE`
abbrev pub serialize_before : ℕ
serialize_before = 3

-- The test of `validate_csr` for privilege and for a write to a read-only register.
unfoldable pub csr_denied : Processor → ℕ → Bool → Bool
unfolding get_field
csr_denied p which write =
    write && get_field which 0xc00 == 3 || ltb p.state.prv (get_field which 0x300)

-- The body that the six share: `new` gives the value that is written from the old one.
unfoldable pub access_csr : Fetched → Processor → Bool → (ℕ → ℕ) → Processor × Outcome
unfolding csr_denied
access_csr f p write new =
    let q = record p { state = record p.state { serialized = false } } in
    let which = csr f.insn in
    if not p.state.serialized
    then (p, next serialize_before)
    else if csr_denied p which write
    then (q, illegal_instruction)
    else elim (get_csr which q f.debug_interrupt) [
      | none ↦ (q, illegal_instruction)
      | some old ↦
          write_rd f (if write then set_csr which q (new old) else q) (sext_xlen f.xlen old)
    ]

unfoldable pub csrrc : Body
csrrc f p = access_csr f p (not (rs1 f.insn == 0)) (λ old. bit_and old (not64 (reg1 f p)))

unfoldable pub csrrci : Body
csrrci f p = access_csr f p (not (rs1 f.insn == 0)) (λ old. bit_and old (not64 (rs1 f.insn)))

unfoldable pub csrrs : Body
csrrs f p = access_csr f p (not (rs1 f.insn == 0)) (λ old. bit_or old (reg1 f p))

unfoldable pub csrrsi : Body
csrrsi f p = access_csr f p (not (rs1 f.insn == 0)) (λ old. bit_or old (rs1 f.insn))

unfoldable pub csrrw : Body
csrrw f p = access_csr f p true (λ old. (reg1 f p))

unfoldable pub csrrwi : Body
csrrwi f p = access_csr f p true (λ old. rs1 f.insn)
