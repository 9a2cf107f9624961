-- ===== src/Processor/Csr/Invariant/Status.antt =====
-- The mstatus register: its `vm` field is always a supported one, and SD sums up FS and XS.
use mathlib.Core.Bool.{◌||◌}
use native.Mathlib.Decide.{dec_lt}
use native.Mathlib.Nat.{one-le-pow, mod-lt}
use spike.Base.{
  ℕ, ◌+◌, ◌-◌, ◌%◌, ◌^◌, ◌≤◌, ◌<◌, bit_and, bit_or, Bool, true, false, ◌≡◌, ◌⊎◌, inl, inr, refl,
  ◌∙◌, ap, sym, arith, ◌==◌, if◌then◌else◌, masked, masked-lt, Bool-cases, from_bool, or-lt, bit,
  bit-le-one, bit-zero, bit_ext, bit_mask, bit-high, bit-or,
}
use spike.Decode.{get_field, set_field}
use spike.Decode.Fields.{
  field_mask, field, get_field_lem, get_field-set_field, get_field-set_field_other, set_field-lt,
  field-masked_in, field-masked_out, and-field_mask, field_ext, field-bit,
}
use spike.Encoding.{mstatus_fs, mstatus_xs, mstatus_vm}
use spike.Processor.State.{Processor}
use spike.Processor.Csr.Write.{validate_vm, with_sd, mstatus_mask, dirty_fp_state}

-- Whether a dirty state is recorded, as the SD bit shows it.
abbrev pub dirty : ℕ → ℕ
dirty m = from_bool ((field 13 2 m == 3) || (field 15 2 m == 3))

abbrev pub sd_bit : ℕ → ℕ → ℕ
sd_bit max_xlen m = if max_xlen == 32 then field 31 1 m else field 63 1 m

pub record StatusOk (max_xlen m : ℕ) : Type 0 where
  pub word : m < 2 ^ 64
  pub vm_legal : validate_vm max_xlen (field 24 5 m) ≡ true
  pub sd_dirty : sd_bit max_xlen m ≡ dirty m

module _ (low width : ℕ) (w : 0 < width) (fits : low + width ≤ 64) where
  pub field-set_field_self :
      (reg val : ℕ) → field low width (set_field reg (field_mask low width) val) ≡ val % 2 ^ width
  field-set_field_self reg val =
      sym (get_field_lem low width w fits _) ∙ get_field-set_field low width w fits reg val

  pub field-set_field_other :
      (low' width' reg val : ℕ)
      → 0 < width'
      → low' + width' ≤ 64
      → (low' + width' ≤ low) ⊎ (low + width ≤ low')
      → reg < 2 ^ 64
      → field low' width' (set_field reg (field_mask low width) val) ≡ field low' width' reg
  field-set_field_other low' width' reg val w' fits' apart word =
      sym (get_field_lem low' width' w' fits' _)
      ∙ get_field-set_field_other low width low' width' reg val w fits w' fits' apart word
      ∙ get_field_lem low' width' w' fits' reg

-- The test of `set_csr` for a dirty state, as the fields show it.
dirty_test :
    (m : ℕ)
    → from_bool ((bit_and m mstatus_fs == mstatus_fs) || (bit_and m mstatus_xs == mstatus_xs))
      ≡ dirty m
dirty_test m = rw (and-field_mask 13 2 m, and-field_mask 15 2 m) (ground arith)

-- Writing a bit from 31 on leaves the fields below it.
module _ (low m val : ℕ) (high : 31 ≤ low) (fits : low + 1 ≤ 64) (word : m < 2 ^ 64) where
  abbrev written : ℕ
  written = set_field m (field_mask low 1) val

  written_fields :
      (field 13 2 written ≡ field 13 2 m)
      × (field 15 2 written ≡ field 15 2 m)
      × (field 24 5 written ≡ field 24 5 m)
      × (field low 1 written ≡ val % 2)
      × (written < 2 ^ 64)
  written_fields =
      let other = field-set_field_other low 1 (omega arith) fits in
      (
        other 13 2 m val (omega arith) (omega arith) (inl (omega arith)) word,
        other 15 2 m val (omega arith) (omega arith) (inl (omega arith)) word,
        other 24 5 m val (omega arith) (omega arith) (inl (omega arith)) word,
        field-set_field_self low 1 (omega arith) fits m val,
        set_field-lt low 1 (omega arith) fits m val word,
      )

  written-dirty : dirty written ≡ dirty m
  written-dirty = rw (written_fields.0, written_fields.1)

from_bool-mod : (b : Bool) → from_bool b % 2 ≡ from_bool b
from_bool-mod true = refl
from_bool-mod false = refl

pub with_sd-StatusOk :
    (max_xlen m : ℕ)
    → m < 2 ^ 64
    → validate_vm max_xlen (field 24 5 m) ≡ true
    → StatusOk max_xlen (with_sd max_xlen m)
unfolding with_sd
with_sd-StatusOk max_xlen m word vm =
    let d = (bit_and m mstatus_fs == mstatus_fs) || (bit_and m mstatus_xs == mstatus_xs) in
    elim (Bool-cases (max_xlen == 32)) [
      | inl narrow ↦
          let f = written_fields 31 m (from_bool d) (omega arith) (omega arith) word in
          rw narrow (record {
            word = f.4;
            vm_legal = rw f.2 vm;
            sd_dirty = rw narrow (
                f.3
                ∙ from_bool-mod d
                ∙ dirty_test m
                ∙ sym (written-dirty 31 m (from_bool d) (omega arith) (omega arith) word));
          })
      | inr wide ↦
          let f = written_fields 63 m (from_bool d) (omega arith) (omega arith) word in
          rw wide (record {
            word = f.4;
            vm_legal = rw f.2 vm;
            sd_dirty = rw wide (
                f.3
                ∙ from_bool-mod d
                ∙ dirty_test m
                ∙ sym (written-dirty 63 m (from_bool d) (omega arith) (omega arith) word));
          })
    ]

-- The mask of `set_csr`, by whether there is an extension and whether the value's `vm` is supported.
mask_values :
    (p : Processor) (val : ℕ)
    → let ok = validate_vm p.max_xlen (get_field val mstatus_vm) in
      mstatus_mask p val ≡ (
        if ok
        then (if p.ext then 0x1f0ff9aa else 0x1f0e79aa)
        else if p.ext
        then 0x0ff9aa
        else 0x0e79aa)
unfolding mstatus_mask
mask_values p val = elim (Bool-cases (validate_vm p.max_xlen (get_field val mstatus_vm))) [
  | inl ok ↦ elim (Bool-cases p.ext) [ inl e ↦ rw (ok, e) | inr e ↦ rw (ok, e) ]
  | inr ok ↦ elim (Bool-cases p.ext) [ inl e ↦ rw (ok, e) | inr e ↦ rw (ok, e) ]
]

pub mask-lt : (p : Processor) (val : ℕ) → mstatus_mask p val < 2 ^ 32
mask-lt p val = ground (arith, mask_values p val)

mask_vm :
    (p : Processor) (val : ℕ)
    → field 24 5 (mstatus_mask p val)
      ≡ (if validate_vm p.max_xlen (get_field val mstatus_vm) then 2 ^ 5 - 1 else 0)
mask_vm p val = ground (arith, mask_values p val)

-- The value that `set_csr` stores in mstatus.
abbrev pub written_status : Processor → ℕ → ℕ
written_status p val = with_sd p.max_xlen (masked p.state.mstatus (mstatus_mask p val) val)

pub written_status-StatusOk :
    (p : Processor) (val : ℕ)
    → StatusOk p.max_xlen p.state.mstatus
    → StatusOk p.max_xlen (written_status p val)
written_status-StatusOk p val old =
    let mask = mstatus_mask p val in
    with_sd-StatusOk p.max_xlen _
      (masked-lt p.state.mstatus mask val (omega (arith, mask-lt p val)) old.word)
      (elim (Bool-cases (validate_vm p.max_xlen (get_field val mstatus_vm))) [
        | inl ok ↦
            let all : field 24 5 mask ≡ 2 ^ 5 - 1 = mask_vm p val ∙ rw ok in
            let new : field 24 5 (masked p.state.mstatus mask val) ≡ field 24 5 val =
              field-masked_in 24 5 p.state.mstatus mask val (omega (arith, mask-lt p val)) all in
            let read : get_field val mstatus_vm ≡ field 24 5 val =
              get_field_lem 24 5 (omega arith) (omega arith) val in
            ap (validate_vm p.max_xlen) (new ∙ sym read) ∙ ok
        | inr no_vm ↦
            let none : field 24 5 mask ≡ 0 = mask_vm p val ∙ rw no_vm in
            ap (validate_vm p.max_xlen) (
              field-masked_out 24 5 p.state.mstatus mask val (omega (arith, mask-lt p val)) old.word
                none)
            ∙ old.vm_legal
      ])

-- `dirty_fp_state` sets FS and SD and keeps the other fields.
or_keeps :
    (low width m c : ℕ) → field low width c ≡ 0 → field low width (bit_or m c) ≡ field low width m
or_keeps low width m c none = field_ext low width _ _ λ i p. omega (
  arith,
  bit-or m c (i + low),
  sym (field-bit low width c i p) ∙ ap (λ t. bit t i) none ∙ bit-zero i,
)

or_sets :
    (low width m c : ℕ)
    → field low width c ≡ 2 ^ width - 1
    → field low width (bit_or m c) ≡ 2 ^ width - 1
or_sets low width m c all = bit_ext _ _ λ i. elim (dec_lt i width) [
  | yes p ↦ omega (
    arith,
    field-bit low width (bit_or m c) i p,
    bit-or m c (i + low),
    field-bit low width c i p,
    ap (λ t. bit t i) all,
    bit_mask width i p,
    bit-le-one m (i + low),
  )
  | no p ↦
      let pos : 0 < 2 ^ width = one-le-pow width 2 (omega arith) in
      bit-high width _ i (mod-lt _ pos) (omega arith)
      ∙ sym (bit-high width (2 ^ width - 1) i (omega arith) (omega arith))
]

pub dirty_fp_state-StatusOk :
    (p : Processor)
    → p.xlen ≡ p.max_xlen
    → (p.max_xlen ≡ 32) ⊎ (p.max_xlen ≡ 64)
    → StatusOk p.max_xlen p.state.mstatus
    → StatusOk p.max_xlen (dirty_fp_state p)
unfolding dirty_fp_state
dirty_fp_state-StatusOk p same width old = elim width [
  | inl e ↦
      let narrow : (p.xlen == 64) ≡ false = ground arith in
      let m = p.state.mstatus in
      rw narrow (record {
        word = or-lt 64 m _ old.word (omega arith);
        vm_legal = rw (or_keeps 24 5 m 0x80006000 (omega arith)) old.vm_legal;
        sd_dirty =
            rw
              (e, or_sets 31 1 m 0x80006000 (omega arith), or_sets 13 2 m 0x80006000 (omega arith));
      })
  | inr e ↦
      let wide : (p.xlen == 64) ≡ true = ground arith in
      let m = p.state.mstatus in
      rw wide (record {
        word = or-lt 64 m _ old.word (omega arith);
        vm_legal = rw (or_keeps 24 5 m 0x8000000000006000 (omega arith)) old.vm_legal;
        sd_dirty = rw (
          e,
          or_sets 63 1 m 0x8000000000006000 (omega arith),
          or_sets 13 2 m 0x8000000000006000 (omega arith),
        );
      })
]

-- A field below SD that is in the mask reads back as written.
pub written_status-field :
    (low width : ℕ) (p : Processor) (val : ℕ)
    → 0 < width
    → low + width ≤ 31
    → (p.max_xlen ≡ 32) ⊎ (p.max_xlen ≡ 64)
    → p.state.mstatus < 2 ^ 64
    → field low width (mstatus_mask p val) ≡ 2 ^ width - 1
    → field low width (written_status p val) ≡ field low width val
unfolding with_sd
written_status-field low width p val w below widths word covered =
    let old = p.state.mstatus in
    let mask = mstatus_mask p val in
    let m = masked old mask val in
    let m_word = masked-lt old mask val (omega (arith, mask-lt p val)) word in
    let inside = field-masked_in low width old mask val (omega (arith, mask-lt p val)) covered in
    elim (Bool-cases (p.max_xlen == 32)) [
      | inl narrow ↦ rw narrow (
          field-set_field_other 31 1 (omega arith) (omega arith) low width m _ w (omega arith)
            (inl (omega arith)) m_word
          ∙ inside)
      | inr wide ↦ rw wide (
          field-set_field_other 63 1 (omega arith) (omega arith) low width m _ w (omega arith)
            (inl (omega arith)) m_word
          ∙ inside)
    ]

-- The interrupt-enable stack, and the previous privileges, are in the mask.
pub mask_fields :
    (p : Processor) (val : ℕ)
    → let m = mstatus_mask p val in
      (field 1 1 m ≡ 1)
      × (field 3 1 m ≡ 1)
      × (field 5 1 m ≡ 1)
      × (field 7 1 m ≡ 1)
      × (field 8 1 m ≡ 1)
      × (field 11 2 m ≡ 3)
mask_fields p val = ground (arith, mask_values p val)
