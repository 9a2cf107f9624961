-- ===== src/Decode/Fields.antt =====
-- The laws of `get_field` and `set_field`, for the contiguous masks that the registers use.
use native.Mathlib.Decide.{dec_lt}
use native.Mathlib.Nat.{one-le-pow, mod-lt}
use spike.Base.{
  ℕ, ◌+◌, ◌-◌, ◌*◌, ◌/◌, ◌%◌, ◌^◌, ◌≤◌, ◌<◌, bit_and, ◌≡◌, ◌∙◌, sym, ap, arith, shl64, shl64-bit,
  shl64-bit_low, masked, masked-bit_in, masked-bit_out, mul64, not64, not64-bit, bit, bit-and,
  bit-shl, bit-shl_low, bit-mod, bit-shr, bit-high, bit_mask, bit_ext, bit-le-one, bit-zero,
  lt-pow_of_bits, bit-pow_self, bit-pow_ne, masked-lt, ◌⊎◌, inl, inr,
}
use spike.Decode.{get_field, set_field, lowest_bit}

-- `width` ones from bit `low` on.
abbrev pub field_mask : ℕ → ℕ → ℕ
field_mask low width = (2 ^ width - 1) * 2 ^ low

module _ (low width : ℕ) where
  pub field_mask-bit_in : (i : ℕ) → low ≤ i → i < low + width → bit (field_mask low width) i ≡ 1
  field_mask-bit_in i p q =
      let e : i - low + low ≡ i = omega arith in
      ap (bit (field_mask low width)) (sym e)
      ∙ bit-shl low (2 ^ width - 1) (i - low)
      ∙ bit_mask width (i - low) (omega arith)

  pub field_mask-bit_below : (i : ℕ) → i < low → bit (field_mask low width) i ≡ 0
  field_mask-bit_below i p = bit-shl_low low (2 ^ width - 1) i p

  pub field_mask-bit_above : (i : ℕ) → low + width ≤ i → bit (field_mask low width) i ≡ 0
  field_mask-bit_above i p =
      let e : i - low + low ≡ i = omega arith in
      ap (bit (field_mask low width)) (sym e)
      ∙ bit-shl low (2 ^ width - 1) (i - low)
      ∙ bit-high width (2 ^ width - 1) (i - low) (omega (arith, one-le-pow width 2 (omega arith)))
          (omega arith)

  module _ (some_width : 0 < width) (fits : low + width ≤ 64) where
    field_mask-lt : field_mask low width < 2 ^ 64
    field_mask-lt = lt-pow_of_bits 64 _ λ i p. field_mask-bit_above i (omega arith)

    lowest_bit-at : (i : ℕ) → bit (lowest_bit (field_mask low width)) i ≡ bit (1 * 2 ^ low) i
    unfolding lowest_bit
    lowest_bit-at i =
        let m = field_mask low width in
        let both = bit-and m (not64 (shl64 m 1)) i in
        let word : shl64 m 1 < 2 ^ 64 = omega arith in
        elim (dec_lt i low) [
          | yes p ↦ omega (arith, both, field_mask-bit_below i p, bit-shl_low low 1 i p)
          | no p ↦ elim (dec_lt low i) [
            | no q ↦ let e : i ≡ low = omega arith in rw e (at_low word)
            | yes q ↦ elim (dec_lt i (low + width)) [
              | no r ↦ omega (
                arith,
                both,
                field_mask-bit_above i (omega arith),
                bit-pow_ne low i (omega arith),
              )
              | yes r ↦ omega (
                arith,
                both,
                shl64-bit 1 m i (omega arith) (omega arith),
                field_mask-bit_in (i - 1) (omega arith) (omega arith),
                not64-bit (shl64 m 1) i word (omega arith),
                bit-pow_ne low i (omega arith),
              )
            ]
          ]
        ]
      where
        at_low :
            shl64 (field_mask low width) 1 < 2 ^ 64
            → bit (lowest_bit (field_mask low width)) low ≡ bit (1 * 2 ^ low) low
        at_low word =
            let m = field_mask low width in
            let shifted : bit (shl64 m 1) low ≡ 0 = elim (dec_lt 0 low) [
              | yes p ↦
                  shl64-bit 1 m low (omega arith) p ∙ field_mask-bit_below (low - 1) (omega arith)
              | no p ↦ shl64-bit_low 1 m low (omega arith) (omega arith)
            ] in
            omega (
              arith,
              bit-and m (not64 (shl64 m 1)) low,
              field_mask-bit_in low (omega arith) (omega arith),
              not64-bit (shl64 m 1) low word (omega arith),
              bit-pow_self low,
            )

    pub lowest_bit_lem : lowest_bit (field_mask low width) ≡ 2 ^ low
    lowest_bit_lem = let e : 1 * 2 ^ low ≡ 2 ^ low = omega arith in bit_ext _ _ lowest_bit-at ∙ e

    -- `get_field` is the number that stands in the field.
    pub get_field_lem : (reg : ℕ) → get_field reg (field_mask low width) ≡ reg / 2 ^ low % 2 ^ width
    unfolding get_field
    get_field_lem reg = rw lowest_bit_lem (bit_ext _ _ at)
      where
        at :
            (i : ℕ)
            → bit (bit_and reg (field_mask low width) / 2 ^ low) i
              ≡ bit (reg / 2 ^ low % 2 ^ width) i
        at i =
            let m = field_mask low width in
            let left = bit-shr low (bit_and reg m) i in
            let both = bit-and reg m (i + low) in
            let right = bit-shr low reg i in
            elim (dec_lt i width) [
              | yes p ↦ omega (
                arith,
                left,
                both,
                right,
                field_mask-bit_in (i + low) (omega arith) (omega arith),
                bit-mod width (reg / 2 ^ low) i p,
                bit-le-one reg (i + low),
              )
              | no p ↦ omega (
                arith,
                left,
                both,
                field_mask-bit_above (i + low) (omega arith),
                bit-high width (reg / 2 ^ low % 2 ^ width) i
                    (mod-lt _ (one-le-pow width 2 (omega arith))) (omega arith),
              )
            ]

    -- A digit of `set_field`: inside the field it is the value's, outside the register's.
    pub set_field-bit_in :
        (reg val i : ℕ)
        → low ≤ i
        → i < low + width
        → bit (set_field reg (field_mask low width) val) i ≡ bit val (i - low)
    unfolding set_field
    set_field-bit_in reg val i p q = rw lowest_bit_lem (
        masked-bit_in reg (field_mask low width) (mul64 val (2 ^ low)) i field_mask-lt
          (field_mask-bit_in i p q)
        ∙ shl64-bit low val i (omega arith) p)

    pub set_field-bit_out :
        (reg val i : ℕ)
        → reg < 2 ^ 64
        → (i < low) ⊎ (low + width ≤ i)
        → bit (set_field reg (field_mask low width) val) i ≡ bit reg i
    unfolding set_field
    set_field-bit_out reg val i r out = rw lowest_bit_lem (
        masked-bit_out reg (field_mask low width) (mul64 val (2 ^ low)) i field_mask-lt r
          (elim out [ inl p ↦ field_mask-bit_below i p | inr p ↦ field_mask-bit_above i p ]))

    pub set_field-lt :
        (reg val : ℕ) → reg < 2 ^ 64 → set_field reg (field_mask low width) val < 2 ^ 64
    unfolding set_field
    set_field-lt reg val r = masked-lt reg (field_mask low width) _ field_mask-lt r

    -- What is written to a field is read back, cut to the field's width.
    pub get_field-set_field :
        (reg val : ℕ)
        → get_field (set_field reg (field_mask low width) val) (field_mask low width)
          ≡ val % 2 ^ width
    get_field-set_field reg val = rw get_field_lem (bit_ext _ _ at)
      where
        at :
            (i : ℕ)
            → bit (set_field reg (field_mask low width) val / 2 ^ low % 2 ^ width) i
              ≡ bit (val % 2 ^ width) i
        at i =
            let s = set_field reg (field_mask low width) val in
            let e : i + low - low ≡ i = omega arith in
            elim (dec_lt i width) [
              | yes p ↦
                  bit-mod width (s / 2 ^ low) i p
                  ∙ bit-shr low s i
                  ∙ set_field-bit_in reg val (i + low) (omega arith) (omega arith)
                  ∙ ap (bit val) e
                  ∙ sym (bit-mod width val i p)
              | no p ↦
                  let pos : 0 < 2 ^ width = one-le-pow width 2 (omega arith) in
                  bit-high width _ i (mod-lt _ pos) (omega arith)
                  ∙ sym (bit-high width _ i (mod-lt val pos) (omega arith))
            ]

-- Writing one field leaves another, disjoint field as it was.
pub get_field-set_field_other :
    (low width low' width' reg val : ℕ)
    → 0 < width
    → low + width ≤ 64
    → 0 < width'
    → low' + width' ≤ 64
    → (low' + width' ≤ low) ⊎ (low + width ≤ low')
    → reg < 2 ^ 64
    → get_field (set_field reg (field_mask low width) val) (field_mask low' width')
      ≡ get_field reg (field_mask low' width')
get_field-set_field_other low width low' width' reg val w f w' f' apart r =
    get_field_lem low' width' w' f' (set_field reg (field_mask low width) val)
    ∙ bit_ext _ _ at
    ∙ sym (get_field_lem low' width' w' f' reg)
  where
    at :
        (i : ℕ)
        → bit (set_field reg (field_mask low width) val / 2 ^ low' % 2 ^ width') i
          ≡ bit (reg / 2 ^ low' % 2 ^ width') i
    at i =
        let s = set_field reg (field_mask low width) val in
        elim (dec_lt i width') [
          | yes p ↦
              bit-mod width' (s / 2 ^ low') i p
              ∙ bit-shr low' s i
              ∙ set_field-bit_out low width w f reg val (i + low') r (omega arith)
              ∙ sym (bit-mod width' (reg / 2 ^ low') i p ∙ bit-shr low' reg i)
          | no p ↦
              let pos : 0 < 2 ^ width' = one-le-pow width' 2 (omega arith) in
              bit-high width' _ i (mod-lt _ pos) (omega arith)
              ∙ sym (bit-high width' _ i (mod-lt _ pos) (omega arith))
        ]

-- The number in the field `low`..`low + width`, and how a masked write changes it.
abbrev pub field : ℕ → ℕ → ℕ → ℕ
field low width reg = reg / 2 ^ low % 2 ^ width

pub field-bit : (low width reg i : ℕ) → i < width → bit (field low width reg) i ≡ bit reg (i + low)
field-bit low width reg i p = bit-mod width (reg / 2 ^ low) i p ∙ bit-shr low reg i

pub field_ext :
    (low width a b : ℕ)
    → ((i : ℕ) → i < width → bit a (i + low) ≡ bit b (i + low))
    → field low width a ≡ field low width b
field_ext low width a b same = bit_ext _ _ λ i. elim (dec_lt i width) [
  | yes p ↦ field-bit low width a i p ∙ same i p ∙ sym (field-bit low width b i p)
  | no p ↦
      let pos : 0 < 2 ^ width = one-le-pow width 2 (omega arith) in
      bit-high width _ i (mod-lt _ pos) (omega arith)
      ∙ sym (bit-high width _ i (mod-lt _ pos) (omega arith))
]

-- A field that the mask covers is the new value's, one that it does not touch the old value's.
pub field-masked_in :
    (low width old mask val : ℕ)
    → mask < 2 ^ 64
    → field low width mask ≡ 2 ^ width - 1
    → field low width (masked old mask val) ≡ field low width val
field-masked_in low width old mask val m all = field_ext low width _ _ λ i p.
    masked-bit_in old mask val (i + low) m
      (sym (field-bit low width mask i p) ∙ ap (λ t. bit t i) all ∙ bit_mask width i p)

pub field-masked_out :
    (low width old mask val : ℕ)
    → mask < 2 ^ 64
    → old < 2 ^ 64
    → field low width mask ≡ 0
    → field low width (masked old mask val) ≡ field low width old
field-masked_out low width old mask val m o none = field_ext low width _ _ λ i p.
    masked-bit_out old mask val (i + low) m o
      (sym (field-bit low width mask i p) ∙ ap (λ t. bit t i) none ∙ bit-zero i)

-- `reg & mask` of a field is the field's number in its place.
pub and-field_mask :
    (low width reg : ℕ) → bit_and reg (field_mask low width) ≡ field low width reg * 2 ^ low
and-field_mask low width reg = bit_ext _ _ λ i. elim (dec_lt i low) [
  | yes p ↦ omega (
    arith,
    bit-and reg (field_mask low width) i,
    field_mask-bit_below low width i p,
    bit-shl_low low (field low width reg) i p,
  )
  | no p ↦
      let e : i - low + low ≡ i = omega arith in
      let there : bit (field low width reg * 2 ^ low) i ≡ bit (field low width reg) (i - low) =
        ap (bit (field low width reg * 2 ^ low)) (sym e)
        ∙ bit-shl low (field low width reg) (i - low) in
      elim (dec_lt i (low + width)) [
        | yes q ↦ omega (
          arith,
          bit-and reg (field_mask low width) i,
          field_mask-bit_in low width i (omega arith) q,
          there,
          field-bit low width reg (i - low) (omega arith),
          ap (bit reg) e,
          bit-le-one reg i,
        )
        | no q ↦ omega (
          arith,
          bit-and reg (field_mask low width) i,
          field_mask-bit_above low width i (omega arith),
          there,
          bit-high width (field low width reg) (i - low)
              (mod-lt _ (one-le-pow width 2 (omega arith))) (omega arith),
        )
      ]
]
