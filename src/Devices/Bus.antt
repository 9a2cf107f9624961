-- ===== src/Devices/Bus.antt =====
-- Which device the bus of riscv/devices.cc calls.
use mathlib.Core.Option.{some-injective}
use spike.Base.{
  ℕ, zero, suc, ◌^◌, ◌≤◌, ◌<◌, false, ◌≡◌, inl, inr, ap, arith, Bool-cases, ltb, ◌==◌, some, List,
  [], ◌∷◌, get_elem?, neg64, none≢some,
}
use spike.Devices.{Device, insert_device, add_device, lower_bound}

module _ {S : Type 0} where
  -- The keys of a map: 64-bit words, in ascending order.
  unfoldable pub Above : ℕ → List (ℕ × Device S) → Type 0
  Above k [] = Unit
  Above k ((k', d) ∷ rest) = (k < k') × Above k rest

  unfoldable pub IsMap : List (ℕ × Device S) → Type 0
  unfolding Above
  IsMap [] = Unit
  IsMap ((k, d) ∷ rest) = (k < 2 ^ 64) × Above k rest × IsMap rest

  Above-entry :
      (k : ℕ) (devices : List (ℕ × Device S)) (i k' : ℕ) (d : Device S)
      → Above k devices
      → get_elem? devices i ≡ some (k', d)
      → k < k'
  unfolding Above
  Above-entry k [] i k' d a e = absurd (none≢some e)
  Above-entry k ((k1, d1) ∷ rest) zero k' d (h, a) e =
      let same : k1 ≡ k' = ap (λ t. t.0) (some-injective _ _ e) in omega arith
  Above-entry k ((k1, d1) ∷ rest) (suc i) k' d (h, a) e = Above-entry k rest i k' d a e

  lower_bound_least :
      (devices : List (ℕ × Device S)) (key i k k' : ℕ) (d d' : Device S)
      → IsMap devices
      → lower_bound devices key ≡ some (k, d)
      → get_elem? devices i ≡ some (k', d')
      → key ≤ k'
      → (key ≤ k) × (k ≤ k') × (k < 2 ^ 64)
  unfolding lower_bound IsMap
  lower_bound_least [] key i k k' d d' m e at h = absurd (none≢some e)
  lower_bound_least ((k1, d1) ∷ rest) key zero k k' d d' (word, above, m) e at h =
      let same : k1 ≡ k' = ap (λ t. t.0) (some-injective _ _ at) in
      let t : ltb k1 key ≡ false = ground arith in
      let found : k1 ≡ k = ap (λ t. t.0) (some-injective _ _ (rw t at e)) in
      (omega arith, omega arith, omega arith)
  lower_bound_least ((k1, d1) ∷ rest) key (suc i) k k' d d' (word, above, m) e at h =
      elim (Bool-cases (ltb k1 key)) [
        | inl low ↦ lower_bound_least rest key i k k' d d' m (rw low at e) at h
        | inr high ↦
            let found : k1 ≡ k = ap (λ t. t.0) (some-injective _ _ (rw high at e)) in
            let less = Above-entry k1 rest i k' d' above at in
            (ground arith, omega arith, omega arith)
      ]

  -- A bus access at an address other than 0 goes to the nearest device below: the device that it
  -- finds has a base not above the address, and no device of the bus with a base other than 0 that is
  -- not above the address has a greater base. A device's key is its negated base.
  pub lower_bound-nearest :
      (devices : List (ℕ × Device S)) (addr i k k' : ℕ) (d d' : Device S)
      → IsMap devices
      → 0 < addr
      → addr < 2 ^ 64
      → lower_bound devices (neg64 addr) ≡ some (k, d)
      → get_elem? devices i ≡ some (k', d')
      → 0 < k'
      → k' < 2 ^ 64
      → neg64 k' ≤ addr
      → (neg64 k ≤ addr) × (neg64 k' ≤ neg64 k)
  lower_bound-nearest devices addr i k k' d d' m some_addr word e at pos word' below =
      let (a, b, c) = lower_bound_least devices (neg64 addr) i k k' d d' m e at (omega arith) in
      (omega arith, omega arith)

  insert-Above :
      (devices : List (ℕ × Device S)) (low key : ℕ) (dev : Device S)
      → low < key
      → Above low devices
      → Above low (insert_device devices key dev)
  unfolding insert_device Above
  insert-Above [] low key dev h a = (h, tt)
  insert-Above ((k, d) ∷ rest) low key dev h (b, a) = elim (Bool-cases (ltb key k)) [
    | inl first ↦ rw first (h, (b, a))
    | inr later ↦ elim (Bool-cases (k == key)) [
      | inl same ↦ rw (later, same) (b, a)
      | inr other ↦ rw (later, other) (b, insert-Above rest low key dev h a)
    ]
  ]

  Above-trans :
      (devices : List (ℕ × Device S)) (low key : ℕ)
      → low < key
      → Above key devices
      → Above low devices
  unfolding Above
  Above-trans [] low key h a = tt
  Above-trans ((k, d) ∷ rest) low key h (b, a) = (omega arith, Above-trans rest low key h a)

  insert-IsMap :
      (devices : List (ℕ × Device S)) (key : ℕ) (dev : Device S)
      → key < 2 ^ 64
      → IsMap devices
      → IsMap (insert_device devices key dev)
  unfolding insert_device IsMap Above
  insert-IsMap [] key dev word m = (word, tt, tt)
  insert-IsMap ((k, d) ∷ rest) key dev word (w, above, m) = elim (Bool-cases (ltb key k)) [
    | inl first ↦
        rw first (word, (ground arith, Above-trans rest key k (ground arith) above), (w, above, m))
    | inr later ↦ elim (Bool-cases (k == key)) [
      | inl same ↦ rw (later, same) (w, above, m)
      | inr other ↦
          rw (later, other)
            (w, insert-Above rest k key dev (ground arith) above, insert-IsMap rest key dev word m)
    ]
  ]

  -- Adding a device, at a new base or at one that is taken, keeps the keys of the bus in ascending
  -- order.
  pub add_device-IsMap :
      (devices : List (ℕ × Device S)) (addr : ℕ) (dev : Device S)
      → IsMap devices
      → IsMap (add_device devices addr dev)
  unfolding add_device
  add_device-IsMap devices addr dev m = insert-IsMap devices (neg64 addr) dev (omega arith) m
