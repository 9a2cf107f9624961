-- ===== src/Gdb/Buffer/Place.antt =====
-- The circular buffer of riscv/gdbserver.h as a queue.
use native.Mathlib.Nat.{mod-eq_of_lt, mod-eq-sub-mod}
use native.Mathlib.Decide.{dec_lt}
use spike.Base.{
  ℕ, ◌+◌, ◌-◌, ◌%◌, ◌^◌, ◌<◌, ◌≤◌, ◌≡◌, inl, inr, refl, ap, ◌∙◌, arith, true, false, ltb, leb, List,
  get_or, Bool-cases, ◌⊎◌,
}
use spike.Gdb.Buffer.{Buffer, add32, size, fill}

-- The indices are in the array, and no sum of two of them wraps.
pub record IsValid (b : Buffer) : Type 0 where
  pub start_in : b.start < b.capacity
  pub end_in : b.end < b.capacity
  pub small : b.capacity ≤ 2 ^ 31

-- The index of an entry.
pub slot_low :
    (b : Buffer) (i : ℕ)
    → IsValid b
    → b.start + i < b.capacity
    → add32 b.start i % b.capacity ≡ b.start + i
slot_low b i v h =
    let e : add32 b.start i ≡ b.start + i = omega arith in rw e (ground (arith, mod-eq_of_lt h))

pub slot_high :
    (b : Buffer) (i : ℕ)
    → IsValid b
    → i < b.capacity
    → b.capacity ≤ b.start + i
    → add32 b.start i % b.capacity ≡ b.start + i - b.capacity
slot_high b i v h k =
    let e : add32 b.start i ≡ b.start + i = omega arith in
    rw e (
      ground (
        arith,
        mod-eq-sub-mod {n = b.start + i} {m = b.capacity} (omega arith),
        mod-eq_of_lt {n = b.start + i - b.capacity} {m = b.capacity} (omega arith),
      ))

-- The size, and the place of the end.
pub size_lem :
    (b : Buffer)
    → IsValid b
    → (b.start ≤ b.end × size b ≡ b.end - b.start)
      ⊎ (b.end < b.start × size b ≡ b.end + b.capacity - b.start)
unfolding size
size_lem b v = elim (Bool-cases (leb b.start b.end)) [
  | inl e ↦ inl (ground arith, ground arith)
  | inr e ↦ inr (ground arith, ground arith)
]

-- Where an old entry stands.
pub place_old :
    (b : Buffer) (i : ℕ)
    → IsValid b
    → i < size b
    → (add32 b.start i % b.capacity < b.end)
      ⊎ (b.end < b.start × b.start ≤ add32 b.start i % b.capacity)
place_old b i v h = elim (dec_lt (b.start + i) b.capacity) [
  | yes p ↦
      let e = slot_low b i v p in
      elim (size_lem b v) [ inl (o, s) ↦ inl (omega arith) | inr (o, s) ↦ inr (o, omega arith) ]
  | no p ↦ elim (size_lem b v) [
    | inl (o, s) ↦ inl (omega arith)
    | inr (o, s) ↦ let e = slot_high b i v (omega arith) (omega arith) in inl (omega arith)
  ]
]

-- An entry that is put behind the last one.
pub place_new_low :
    (b : Buffer) (i : ℕ)
    → IsValid b
    → b.end + i < b.capacity
    → size b + i < b.capacity
    → add32 b.start (size b + i) % b.capacity ≡ b.end + i
place_new_low b i v h k = elim (size_lem b v) [
  | inl (o, s) ↦ slot_low b (size b + i) v (omega arith) ∙ omega arith
  | inr (o, s) ↦ slot_high b (size b + i) v k (omega arith) ∙ omega arith
]

pub place_new_high :
    (b : Buffer) (i : ℕ)
    → IsValid b
    → b.capacity ≤ b.end + i
    → size b + i < b.capacity
    → add32 b.start (size b + i) % b.capacity ≡ b.end + i - b.capacity
place_new_high b i v h k = elim (size_lem b v) [
  | inl (o, s) ↦ slot_high b (size b + i) v k (omega arith) ∙ omega arith
  | inr (o, s) ↦ omega arith
]

-- What `memcpy` writes, and what it leaves.
pub fill_inside :
    (b : Buffer) (src : List ℕ) (from count i j : ℕ)
    → b.end ≤ i
    → i < b.end + count
    → from + (i - b.end) ≡ j
    → (fill b src from count).elements i ≡ get_or src j 0
unfolding fill
fill_inside b src from count i j low high at =
    let e : leb b.end i ≡ true = ground arith in
    let e' : ltb i (b.end + count) ≡ true = ground arith in
    rw e (rw e' (ap (λ k. get_or src k 0) at))

pub fill_below :
    (b : Buffer) (src : List ℕ) (from count i : ℕ)
    → i < b.end
    → (fill b src from count).elements i ≡ b.elements i
unfolding fill
fill_below b src from count i h = let e : leb b.end i ≡ false = ground arith in rw e refl

pub fill_above :
    (b : Buffer) (src : List ℕ) (from count i : ℕ)
    → b.end + count ≤ i
    → (fill b src from count).elements i ≡ b.elements i
unfolding fill
fill_above b src from count i h =
    let e : leb b.end i ≡ true = ground arith in
    let e' : ltb i (b.end + count) ≡ false = ground arith in rw e (rw e' refl)
