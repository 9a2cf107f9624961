-- ===== src/Processor/Opcodes/Order.antt =====
-- The order of the instruction table of riscv/processor.cc: which orders give each word the same entry.
use mathlib.Core.Bool.{true≢false}
use spike.Base.{
  ℕ, and_mask, true, false, ◌≡◌, ◌≢◌, ◌⊎◌, inl, inr, refl, ◌∙◌, ap, sym, arith, Bool-cases,
  if◌then◌else◌, Option, none, some, List, [], ◌∷◌, ◌++◌,
}
use spike.Processor.Opcodes.{InsnDesc, Found, matches, find_insn}

module _ {F : Type 0} where
  -- The reference: the first entry whose masked bits agree.
  unfoldable pub first_match : List (InsnDesc F) → ℕ → Option (InsnDesc F)
  first_match [] bits = none
  first_match (d ∷ rest) bits = if matches bits d then some d else first_match rest bits

  -- Two entries with a mask that share a word have the same match.
  abbrev pub Compatible : InsnDesc F → InsnDesc F → Type 0
  Compatible d e =
      d.mask ≢ 0
      → e.mask ≢ 0
      → (w : ℕ) → matches w d ≡ true
      → matches w e ≡ true
      → d.match ≡ e.match

  unfoldable pub AllCompatible : InsnDesc F → List (InsnDesc F) → Type 0
  AllCompatible d [] = Unit {0}
  AllCompatible d (e ∷ rest) = Compatible d e × AllCompatible d rest

  -- Any two entries are compatible.
  unfoldable pub Pairwise : List (InsnDesc F) → Type 0
  Pairwise [] = Unit {0}
  Pairwise (d ∷ rest) = AllCompatible d rest × Pairwise rest

  unfoldable pub Absent : ℕ → List (InsnDesc F) → Type 0
  Absent match [] = Unit {0}
  Absent match (d ∷ rest) = (d.match ≢ match) × Absent match rest

  unfoldable pub Heads : ℕ → List (InsnDesc F) → Type 0
  Heads match [] = ⊥
  Heads match (d ∷ rest) = d.match ≡ match

  -- The entries with one match stand side by side.
  unfoldable pub Grouped : List (InsnDesc F) → Type 0
  Grouped [] = Unit {0}
  Grouped (d ∷ rest) = (Heads d.match rest ⊎ Absent d.match rest) × Grouped rest

  -- There is an entry that every word matches.
  unfoldable pub Terminated : List (InsnDesc F) → Type 0
  Terminated [] = ⊥
  Terminated (d ∷ rest) = ((d.mask ≡ 0) × (d.match ≡ 0)) ⊎ Terminated rest

  -- No entry agrees with the word.
  unfoldable pub Misses : ℕ → List (InsnDesc F) → Type 0
  Misses bits [] = Unit {0}
  Misses bits (d ∷ rest) = (matches bits d ≡ false) × Misses bits rest

  pub record IsTable (l : List (InsnDesc F)) : Type 0 where
    pub pairwise : Pairwise l
    pub grouped : Grouped l
    pub terminated : Terminated l

  pub matches_zero : (w : ℕ) (d : InsnDesc F) → d.mask ≡ 0 → d.match ≡ 0 → matches w d ≡ true
  matches_zero w d m z = let e = and_mask 0 w in rw (m, z) (ground arith)

  -- The search finds the first entry that agrees.
  pub find_insn-some :
      (l : List (InsnDesc F)) (bits : ℕ)
      → Terminated l
      → (found : Found F) × (find_insn l bits ≡ some found)
        × (l ≡ found.before ++ (found.desc ∷ found.after))
        × (first_match l bits ≡ some found.desc)
        × Misses bits found.before
  unfolding find_insn first_match Terminated Misses
  find_insn-some [] bits h = elim h [ ]
  find_insn-some (d ∷ rest) bits h = elim (Bool-cases (matches bits d)) [
    | inl here ↦
        (record { before = []; desc = d; after = rest }, rw here refl, refl, rw here refl, tt)
    | inr later ↦ elim h [
      | inl (m, z) ↦ absurd (true≢false (sym (matches_zero bits d m z) ∙ later))
      | inr t ↦
          let (found, e, split, first, misses) = find_insn-some rest bits t in
          (
            record found { before = d ∷ found.before },
            rw (later, e) refl,
            ap (λ (l : List (InsnDesc F)). d ∷ l) split,
            rw later first,
            (later, misses),
          )
    ]
  ]
