-- ===== src/Processor/Csr/Isolation.antt =====
-- What supervisor software can reach of the machine's registers: sstatus, sie and sip are windows.
use native.Mathlib.Decide.{dec_lt}
use spike.Base.{
  ℕ, ◌+◌, ◌-◌, ◌^◌, ◌≤◌, ◌<◌, bit_and, bit_or, true, false, ◌≡◌, ◌≢◌, ◌⊎◌, inl, inr, ◌∙◌, ap, arith,
  ◌==◌, masked, shl64, bit, bit-shr, bit-high, shl64-bit, masked-bit_in, masked-bit_out, masked-lt,
  and-lt, and-lt_right, bit-le-one,
}
use spike.Decode.{zext_xlen}
use spike.Decode.Fields.{set_field-bit_out}
use spike.Encoding.{mip_ssip, mip_stip}
use spike.Processor.Names.{CsrName}
use spike.Processor.State.{Processor}
use spike.Processor.Csr.Write.{
  write_csr, write_mstatus, write_mie, write_mip, with_sd, mstatus_mask, sstatus_mask, all_ints,
  delegable_ints,
}
use spike.Processor.Csr.Invariant.{IsLegal}
use spike.Processor.Csr.Invariant.Status.{mask-lt}

-- `zext_xlen` keeps the digits below `xlen`.
pub zext_xlen-bit : (xlen v i : ℕ) → xlen ≤ 64 → i < xlen → bit (zext_xlen xlen v) i ≡ bit v i
unfolding zext_xlen
zext_xlen-bit xlen v i fits p =
    let k = 64 - xlen in
    let e : i + k - k ≡ i = omega arith in
    bit-shr k (shl64 v k) i ∙ shl64-bit k v (i + k) (omega arith) (omega arith) ∙ ap (bit v) e

with_sd-bit :
    (max_xlen m i : ℕ)
    → m < 2 ^ 64
    → (max_xlen ≡ 32) ⊎ (max_xlen ≡ 64)
    → i ≢ max_xlen - 1
    → bit (with_sd max_xlen m) i ≡ bit m i
unfolding with_sd
with_sd-bit max_xlen m i word width other = elim width [
  | inl e ↦
      let narrow : (max_xlen == 32) ≡ true = ground arith in
      rw narrow (set_field-bit_out 31 1 (omega arith) (omega arith) m _ i word (omega arith))
  | inr e ↦
      let wide : (max_xlen == 32) ≡ false = ground arith in
      rw wide (set_field-bit_out 63 1 (omega arith) (omega arith) m _ i word (omega arith))
]

-- A write through two masks, the inner one of the window, keeps what lies outside the window.
window-bit :
    (xlen old inner outer val i : ℕ)
    → xlen ≤ 64
    → 32 ≤ xlen
    → old < 2 ^ 64
    → inner < 2 ^ 64
    → outer < 2 ^ 32
    → bit inner i ≡ 0
    → bit (masked old outer (zext_xlen xlen (masked old inner val))) i ≡ bit old i
window-bit xlen old inner outer val i fits wide word in_word out_word outside =
    let w = zext_xlen xlen (masked old inner val) in
    elim (dec_lt (bit outer i) 1) [
      | yes p ↦ masked-bit_out old outer w i (omega arith) word (omega arith)
      | no p ↦ elim (dec_lt i 32) [
        | yes q ↦
            masked-bit_in old outer w i (omega arith) (omega (arith, bit-le-one outer i))
            ∙ zext_xlen-bit xlen (masked old inner val) i fits (omega arith)
            ∙ masked-bit_out old inner val i in_word word outside
        | no q ↦ absurd (omega (arith, bit-high 32 outer i out_word (omega arith)))
      ]
    ]

module _ (p : Processor) (legal : IsLegal p) (val i : ℕ) where
  widths : (p.xlen ≤ 64) × (32 ≤ p.xlen)
  widths = ground arith

  -- In a legal hart, writing sstatus, with any value, changes no bit of mstatus outside the sstatus
  -- mask but the summary bit SD.
  pub sstatus-outside :
      bit sstatus_mask i ≡ 0
      → i ≢ p.max_xlen - 1
      → bit (write_csr CsrName.sstatus p val).state.mstatus i ≡ bit p.state.mstatus i
  unfolding write_csr write_mstatus
  sstatus-outside outside not_sd =
      let old = p.state.mstatus in
      let w = zext_xlen p.xlen (masked old sstatus_mask val) in
      let mask = mstatus_mask p w in
      let word = legal.status.word in
      with_sd-bit p.max_xlen (masked old mask w) i
        (masked-lt old mask w (omega (arith, mask-lt p w)) word) legal.width not_sd
      ∙ window-bit p.xlen old sstatus_mask mask val i widths.0 widths.1 word (omega arith)
          (mask-lt p w) outside

  -- In a legal hart, writing sie, with any value, changes no enable of an interrupt that is not
  -- delegated.
  pub sie-outside :
      bit p.state.mideleg i ≡ 0 → bit (write_csr CsrName.sie p val).state.mie i ≡ bit p.state.mie i
  unfolding write_csr write_mie
  sie-outside outside =
      let deleg_word : p.state.mideleg < 2 ^ 64 = omega (
        arith,
        and-lt_right 64 p.state.mideleg delegable_ints (omega arith),
        legal.mideleg_known,
      ) in
      let mie_word : p.state.mie < 2 ^ 64 =
        omega (arith, and-lt_right 64 p.state.mie all_ints (omega arith), legal.mie_known) in
      window-bit p.xlen p.state.mie p.state.mideleg all_ints val i widths.0 widths.1 mie_word
        deleg_word (omega arith) outside

  -- In a legal hart, writing sip, with any value, changes no pending bit but that of a delegated
  -- supervisor software interrupt.
  pub sip-outside :
      p.state.mip < 2 ^ 64
      → bit (bit_and mip_ssip p.state.mideleg) i ≡ 0
      → bit (write_csr CsrName.sip p val).state.mip i ≡ bit p.state.mip i
  unfolding write_csr write_mip
  sip-outside mip_word outside =
      window-bit p.xlen p.state.mip (bit_and mip_ssip p.state.mideleg) (bit_or mip_ssip mip_stip)
        val i widths.0 widths.1 mip_word (and-lt 64 mip_ssip p.state.mideleg (omega arith))
        (omega arith) outside
