-- ===== src/Mmu/Tlb.antt =====
-- The TLB of riscv/mmu.h: a hit gives what the translation gave.
use mathlib.Core.Option.{some-injective}
use spike.Base.{
  ℕ, ◌+◌, ◌%◌, ◌^◌, ◌<◌, bit_and, bit_or, true, false, ◌||◌, ◌≡◌, ◌≢◌, ◌⊎◌, inl, inr, refl, ◌∙◌, ap,
  sym, arith, Bool-cases, ◌==◌, if◌then◌else◌, none, some, shr, add64, sub64, all_ones, not64,
  and_mask, or_disjoint, none≢some, bit-or, bit_ext, Option-cases,
}
use spike.Processor.State.{Mmu, flush_tlb}
use spike.Mmu.{
  AccessType, load, store, fetch, tlb_entries, tlb_check_triggers, put, kept_tag, refill_tags,
  refill_tlb, checks, tlb_tag, tlb_hit, addr_to_mem, pgshift,
}

-- The tag of page `vpn`, with the trigger bit or without it.
abbrev Names : ℕ → ℕ → Type 0
Names vpn tag = (tag ≡ vpn) ⊎ (tag ≡ vpn + 2 ^ 63)

pub or_swap : (a b : ℕ) → bit_or a b ≡ bit_or b a
or_swap a b = bit_ext _ _ λ i. omega (arith, bit-or a b i, bit-or b a i)

checked_tag : (vpn : ℕ) → vpn < 2 ^ 52 → bit_or vpn tlb_check_triggers ≡ vpn + 2 ^ 63
checked_tag vpn h = omega (arith, or_swap vpn (2 ^ 63), or_disjoint 63 1 vpn (omega arith))

page-lt : (v : ℕ) → v < 2 ^ 64 → shr v pgshift < 2 ^ 52
page-lt v h = omega arith

-- A hit: the tag names the page, and the address is the slot's offset added.
tlb_hit_cases :
    (m : Mmu) (type : AccessType) (v off : ℕ)
    → v < 2 ^ 64
    → tlb_hit m type v ≡ some off
    → Names (shr v pgshift) (tlb_tag m type (shr v pgshift % tlb_entries))
      × (off ≡ add64 (m.tlb_data (shr v pgshift % tlb_entries)) v)
unfolding tlb_hit
tlb_hit_cases m type v off h e =
    let tag = tlb_tag m type (shr v pgshift % tlb_entries) in
    elim (Bool-cases
      ((tag == shr v pgshift) || (tag == bit_or (shr v pgshift) tlb_check_triggers))) [
        | inl hit ↦ (named _ tag (page-lt v h) hit, sym (some-injective _ _ (rw hit at e)))
        | inr miss ↦ absurd (none≢some (rw miss at e))
      ]
  where
    named :
        (vpn tag : ℕ)
        → vpn < 2 ^ 52
        → ((tag == vpn) || (tag == bit_or vpn tlb_check_triggers)) ≡ true
        → Names vpn tag
    named vpn tag h e = let c = checked_tag vpn h in ground arith

tlb_hit_of_Names :
    (m : Mmu) (type : AccessType) (v : ℕ)
    → v < 2 ^ 64
    → Names (shr v pgshift) (tlb_tag m type (shr v pgshift % tlb_entries))
    → tlb_hit m type v ≡ some (add64 (m.tlb_data (shr v pgshift % tlb_entries)) v)
unfolding tlb_hit
tlb_hit_of_Names m type v h n =
    rw (test (shr v pgshift) (tlb_tag m type (shr v pgshift % tlb_entries)) (page-lt v h) n) refl
  where
    test :
        (vpn tag : ℕ)
        → vpn < 2 ^ 52
        → Names vpn tag
        → ((tag == vpn) || (tag == bit_or vpn tlb_check_triggers)) ≡ true
    test vpn tag h n = let c = checked_tag vpn h in ground arith

gone : (vpn : ℕ) → vpn < 2 ^ 52 → Names vpn all_ones → ⊥
gone vpn h (inl e) = omega arith
gone vpn h (inr e) = omega arith

kept-Names :
    (tag expected vpn : ℕ) → vpn < 2 ^ 52 → Names vpn (kept_tag tag expected) → vpn ≡ expected
unfolding kept_tag
kept-Names tag expected vpn h n =
    elim (Bool-cases (bit_and tag (not64 tlb_check_triggers) == expected)) [
      | inl e ↦
          let k = and_mask 63 tag in
          let same : tag % 2 ^ 63 ≡ expected = ground arith in
          let m : Names vpn tag = rw e at n in residue vpn tag h m ∙ same
      | inr e ↦ let m : Names vpn all_ones = rw e at n in absurd (gone vpn h m)
    ]
  where
    residue : (vpn tag : ℕ) → vpn < 2 ^ 52 → Names vpn tag → vpn ≡ tag % 2 ^ 63
    residue vpn tag h (inl e) = omega arith
    residue vpn tag h (inr e) = omega arith

-- What a tag array says of page `vpn` after the slot of page `expected` is written.
put-Names :
    (f : ℕ → ℕ) (new expected vpn : ℕ)
    → vpn < 2 ^ 52
    → (Names vpn new → vpn ≡ expected)
    → Names vpn (put f (expected % tlb_entries) new (vpn % tlb_entries))
    → (vpn ≡ expected)
      ⊎ ((vpn % tlb_entries ≢ expected % tlb_entries) × Names vpn (f (vpn % tlb_entries)))
put-Names f new expected vpn h same n =
    elim (Bool-cases (vpn % tlb_entries == expected % tlb_entries)) [
      | inl e ↦ inl (same (rw e at n))
      | inr e ↦ inr (ground arith, rw e at n)
    ]

-- The tag that `refill_tlb` writes.
abbrev new_tag : Mmu → AccessType → ℕ → ℕ
new_tag m type expected = if checks m type then bit_or expected tlb_check_triggers else expected

new_tag-Names :
    (m : Mmu) (type : AccessType) (expected : ℕ)
    → expected < 2 ^ 52
    → Names expected (new_tag m type expected)
new_tag-Names m type expected h = elim (Bool-cases (checks m type)) [
  | inl e ↦ rw e (inr (checked_tag expected h))
  | inr e ↦ rw e (inl refl)
]

new_tag_page :
    (m : Mmu) (type : AccessType) (expected vpn : ℕ)
    → expected < 2 ^ 52
    → vpn < 2 ^ 52
    → Names vpn (new_tag m type expected)
    → vpn ≡ expected
new_tag_page m type expected vpn h k n =
    one_page _ expected vpn h k (new_tag-Names m type expected h) n
  where
    one_page : (t e v : ℕ) → e < 2 ^ 52 → v < 2 ^ 52 → Names e t → Names v t → v ≡ e
    one_page t e v h k (inl p) (inl q) = omega arith
    one_page t e v h k (inl p) (inr q) = absurd (omega arith)
    one_page t e v h k (inr p) (inl q) = absurd (omega arith)
    one_page t e v h k (inr p) (inr q) = omega arith

-- The tag arrays after `refill_tlb`: that of the access type, and the two others.
own_tag :
    (m : Mmu) (type : AccessType) (f : ℕ → ℕ) (expected vpn : ℕ)
    → expected < 2 ^ 52
    → vpn < 2 ^ 52
    → Names vpn (
        put
          (put f (expected % tlb_entries) (kept_tag (f (expected % tlb_entries)) expected))
          (expected % tlb_entries)
          (new_tag m type expected)
          (vpn % tlb_entries))
    → (vpn ≡ expected)
      ⊎ ((vpn % tlb_entries ≢ expected % tlb_entries) × Names vpn (f (vpn % tlb_entries)))
own_tag m type f expected vpn h k n =
    elim (put-Names
      (put f (expected % tlb_entries) (kept_tag (f (expected % tlb_entries)) expected))
      (new_tag m type expected) expected vpn k (new_tag_page m type expected vpn h k) n) [
        | inl e ↦ inl e
        | inr p ↦ put-Names f _ expected vpn k (kept-Names _ expected vpn k) p.1
      ]

other_tag :
    (f : ℕ → ℕ) (expected vpn : ℕ)
    → vpn < 2 ^ 52
    → Names vpn (
        put f
          (expected % tlb_entries)
          (kept_tag (f (expected % tlb_entries)) expected)
          (vpn % tlb_entries))
    → (vpn ≡ expected)
      ⊎ ((vpn % tlb_entries ≢ expected % tlb_entries) × Names vpn (f (vpn % tlb_entries)))
other_tag f expected vpn k n = put-Names f _ expected vpn k (kept-Names _ expected vpn k) n

refilled_tag :
    (m : Mmu) (vaddr paddr : ℕ) (type looked : AccessType) (vpn : ℕ)
    → shr vaddr pgshift < 2 ^ 52
    → vpn < 2 ^ 52
    → Names vpn (tlb_tag (refill_tlb m vaddr paddr type) looked (vpn % tlb_entries))
    → (vpn ≡ shr vaddr pgshift)
      ⊎ ((vpn % tlb_entries ≢ shr vaddr pgshift % tlb_entries)
          × Names vpn (tlb_tag m looked (vpn % tlb_entries)))
unfolding refill_tlb refill_tags tlb_tag checks
refilled_tag m vaddr paddr load load vpn h k n = own_tag m load m.tlb_load_tag _ vpn h k n
refilled_tag m vaddr paddr load store vpn h k n = other_tag m.tlb_store_tag _ vpn k n
refilled_tag m vaddr paddr load fetch vpn h k n = other_tag m.tlb_insn_tag _ vpn k n
refilled_tag m vaddr paddr store load vpn h k n = other_tag m.tlb_load_tag _ vpn k n
refilled_tag m vaddr paddr store store vpn h k n = own_tag m store m.tlb_store_tag _ vpn h k n
refilled_tag m vaddr paddr store fetch vpn h k n = other_tag m.tlb_insn_tag _ vpn k n
refilled_tag m vaddr paddr fetch load vpn h k n = other_tag m.tlb_load_tag _ vpn k n
refilled_tag m vaddr paddr fetch store vpn h k n = other_tag m.tlb_store_tag _ vpn k n
refilled_tag m vaddr paddr fetch fetch vpn h k n = own_tag m fetch m.tlb_insn_tag _ vpn h k n

refilled_data :
    (m : Mmu) (vaddr paddr : ℕ) (type : AccessType) (j : ℕ)
    → (refill_tlb m vaddr paddr type).tlb_data j
      ≡ put m.tlb_data (shr vaddr pgshift % tlb_entries) (sub64 (addr_to_mem paddr) vaddr) j
unfolding refill_tlb refill_tags
refilled_data m vaddr paddr load j = refl
refilled_data m vaddr paddr store j = refl
refilled_data m vaddr paddr fetch j = refl

refilled_own :
    (m : Mmu) (vaddr paddr : ℕ) (type : AccessType)
    → tlb_tag (refill_tlb m vaddr paddr type) type (shr vaddr pgshift % tlb_entries)
      ≡ new_tag m type (shr vaddr pgshift)
unfolding refill_tlb refill_tags tlb_tag checks
refilled_own m vaddr paddr load =
    let e : (shr vaddr pgshift % tlb_entries == shr vaddr pgshift % tlb_entries) ≡ true =
      ground arith in
    rw e refl
refilled_own m vaddr paddr store =
    let e : (shr vaddr pgshift % tlb_entries == shr vaddr pgshift % tlb_entries) ≡ true =
      ground arith in
    rw e refl
refilled_own m vaddr paddr fetch =
    let e : (shr vaddr pgshift % tlb_entries == shr vaddr pgshift % tlb_entries) ≡ true =
      ground arith in
    rw e refl

-- A map from virtual addresses to host addresses that keeps the offset within a page.
abbrev pub IsPageMap : (ℕ → ℕ) → Type 0
IsPageMap place =
    (v w : ℕ)
    → v < 2 ^ 64
    → w < 2 ^ 64
    → shr v pgshift ≡ shr w pgshift
    → add64 (sub64 (place v) v) w ≡ place w

-- Every hit, of a load, a store or a fetch, gives the host address that the map gives.
abbrev pub IsCoherent : (ℕ → ℕ) → Mmu → Type 0
IsCoherent place m =
    (type : AccessType) (v off : ℕ) → v < 2 ^ 64 → tlb_hit m type v ≡ some off → off ≡ place v

-- `refill_tlb` keeps the TLB coherent with a page map when the physical address that it is given
-- stands where the map places the virtual address: whatever entries the three tag arrays hold, no
-- later hit of any type gives another host address than the map.
pub refill_tlb-IsCoherent :
    (place : ℕ → ℕ) (m : Mmu) (vaddr paddr : ℕ) (type : AccessType)
    → IsPageMap place
    → vaddr < 2 ^ 64
    → addr_to_mem paddr ≡ place vaddr
    → IsCoherent place m
    → IsCoherent place (refill_tlb m vaddr paddr type)
refill_tlb-IsCoherent place m vaddr paddr type pages word at coherent looked v off h hit =
    let (named, e) = tlb_hit_cases (refill_tlb m vaddr paddr type) looked v off h hit in
    let d = refilled_data m vaddr paddr type (shr v pgshift % tlb_entries) in
    e
    ∙ elim (refilled_tag m vaddr paddr type looked (shr v pgshift) (page-lt vaddr word)
        (page-lt v h) named) [
          | inl same ↦
              let eq : (shr v pgshift % tlb_entries == shr vaddr pgshift % tlb_entries) ≡ true =
                ground arith in
              rw (d, eq, at) (pages vaddr v word h (sym same))
          | inr (apart, old) ↦
              let ne : (shr v pgshift % tlb_entries == shr vaddr pgshift % tlb_entries) ≡ false =
                ground arith in
              rw (d, ne) (coherent looked v _ h (tlb_hit_of_Names m looked v h old))
        ]

-- After `refill_tlb`, with or without trigger checks, an access of that type to any address of the
-- page is a hit, at the host address that the page map gives.
pub refill_tlb-hit :
    (place : ℕ → ℕ) (m : Mmu) (vaddr paddr v : ℕ) (type : AccessType)
    → IsPageMap place
    → vaddr < 2 ^ 64
    → v < 2 ^ 64
    → addr_to_mem paddr ≡ place vaddr
    → shr v pgshift ≡ shr vaddr pgshift
    → tlb_hit (refill_tlb m vaddr paddr type) type v ≡ some (place v)
refill_tlb-hit place m vaddr paddr v type pages word h at same =
    let own = new_tag-Names m type (shr vaddr pgshift) (page-lt vaddr word) in
    let d = refilled_data m vaddr paddr type (shr vaddr pgshift % tlb_entries) in
    let eq : (shr vaddr pgshift % tlb_entries == shr vaddr pgshift % tlb_entries) ≡ true =
      ground arith in
    let named : Names (shr v pgshift)
        (tlb_tag (refill_tlb m vaddr paddr type) type (shr v pgshift % tlb_entries)) =
      rw (same, refilled_own m vaddr paddr type) own in
    tlb_hit_of_Names (refill_tlb m vaddr paddr type) type v h named
    ∙ rw (same, d, eq, at) (ap some (pages vaddr v word h (sym same)))

flushed_tag : (m : Mmu) (type : AccessType) (j : ℕ) → tlb_tag (flush_tlb m) type j ≡ all_ones
unfolding tlb_tag flush_tlb
flushed_tag m load j = refl
flushed_tag m store j = refl
flushed_tag m fetch j = refl

-- After `flush_tlb` no access of any type is a hit.
pub flush_tlb-misses :
    (m : Mmu) (type : AccessType) (v : ℕ) → v < 2 ^ 64 → tlb_hit (flush_tlb m) type v ≡ none
flush_tlb-misses m type v h = elim (Option-cases (tlb_hit (flush_tlb m) type v)) [
  | inl e ↦ e
  | inr (off, e) ↦
      let (named, _) = tlb_hit_cases (flush_tlb m) type v off h e in
      absurd (
        gone (shr v pgshift) (page-lt v h)
          (rw (flushed_tag m type (shr v pgshift % tlb_entries)) at named))
]
