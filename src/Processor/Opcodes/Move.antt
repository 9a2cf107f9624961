-- ===== src/Processor/Opcodes/Move.antt =====
-- `decode_insn` in riscv/processor.cc: moving an entry to the front keeps what every word finds.
use mathlib.Core.Bool.{true≢false}
use mathlib.Core.Path.{subst}
use spike.Base.{
  ℕ, Bool, true, false, ◌&&◌, not, ◌==◌, ◌≡◌, ◌≢◌, inl, inr, refl, ◌∙◌, ap, sym, arith, Bool-cases,
  some, List, [], ◌∷◌, ◌++◌, bit_and, and_mask,
}
use spike.Processor.Opcodes.{
  InsnDesc, Found, matches, differs_last, differs_first, is_first, move_to_front,
}
use spike.Processor.Opcodes.Order.{
  first_match, Compatible, AllCompatible, Pairwise, Absent, Heads, Grouped, Terminated, Misses,
  IsTable,
}

pub not_equal : (a b : ℕ) → not (a == b) ≡ true → a ≢ b
not_equal a b e = ground arith

pub both_true : (a b : Bool) → a && b ≡ true → (a ≡ true) × (b ≡ true)
both_true true b e = (refl, e)
both_true false b e = absurd (true≢false (sym e))

module _ {F : Type 0} where
  Absent-mid :
      (m : ℕ) (before : List (InsnDesc F)) (d : InsnDesc F) (after : List (InsnDesc F))
      → Absent m (before ++ (d ∷ after))
      → (d.match ≢ m) × Absent m (before ++ after)
  unfolding Absent
  Absent-mid m [] d after h = h
  Absent-mid m (x ∷ before) d after (ne, h) =
      let (apart, rest) = Absent-mid m before d after h in (apart, (ne, rest))

  AllCompatible-mid :
      (e : InsnDesc F) (before : List (InsnDesc F)) (d : InsnDesc F) (after : List (InsnDesc F))
      → AllCompatible e (before ++ (d ∷ after))
      → Compatible e d × AllCompatible e (before ++ after)
  unfolding AllCompatible
  AllCompatible-mid e [] d after h = h
  AllCompatible-mid e (x ∷ before) d after (c, h) =
      let (mine, rest) = AllCompatible-mid e before d after h in (mine, (c, rest))

  Compatible-sym : (d e : InsnDesc F) → Compatible d e → Compatible e d
  Compatible-sym d e c m n w x y = sym (c n m w y x)

  -- An entry of the table that stands at its front is compatible with the others, and the others are.
  Pairwise-mid :
      (before : List (InsnDesc F)) (d : InsnDesc F) (after : List (InsnDesc F))
      → Pairwise (before ++ (d ∷ after))
      → AllCompatible d (before ++ after) × Pairwise (before ++ after)
  unfolding Pairwise AllCompatible
  Pairwise-mid [] d after h = h
  Pairwise-mid (x ∷ before) d after (c, h) =
      let (mine, others) = AllCompatible-mid x before d after c in
      let (all, rest) = Pairwise-mid before d after h in
      ((Compatible-sym x d mine, all), (others, rest))

  Grouped-drop :
      (before : List (InsnDesc F)) (d : InsnDesc F) (after : List (InsnDesc F))
      → Grouped (before ++ (d ∷ after))
      → Grouped (d ∷ after)
  unfolding Grouped
  Grouped-drop [] d after h = h
  Grouped-drop (x ∷ before) d after (g, h) = Grouped-drop before d after h

  -- Where the neighbour before has another match, all that stand before have.
  last_apart-Absent :
      (before : List (InsnDesc F)) (d : InsnDesc F) (after : List (InsnDesc F))
      → Grouped (before ++ (d ∷ after))
      → differs_last before d.match ≡ true
      → Absent d.match before
  unfolding Grouped Absent Heads differs_last
  last_apart-Absent [] d after g e = tt
  last_apart-Absent (x ∷ []) d after g e = (not_equal x.match d.match e, tt)
  last_apart-Absent (x ∷ y ∷ before) d after (g, h) e =
      let (apart, rest) = last_apart-Absent (y ∷ before) d after h e in
      (
        elim g [
          | inl same ↦ λ k. apart (same ∙ k)
          | inr absent ↦ λ k. (Absent-mid x.match (y ∷ before) d after absent).0 (sym k)
        ],
        (apart, rest),
      )

  first_apart-Absent :
      (d : InsnDesc F) (after : List (InsnDesc F))
      → Grouped (d ∷ after)
      → differs_first after d.match ≡ true
      → Absent d.match after
  unfolding Grouped Heads differs_first
  first_apart-Absent d [] (inl h, g) e = elim h [ ]
  first_apart-Absent d (x ∷ after) (inl h, g) e = absurd (not_equal x.match d.match e h)
  first_apart-Absent d after (inr absent, g) e = absent

  Absent-append :
      (m : ℕ) (before after : List (InsnDesc F))
      → Absent m before
      → Absent m after
      → Absent m (before ++ after)
  unfolding Absent
  Absent-append m [] after h k = k
  Absent-append m (x ∷ before) after (ne, h) k = (ne, Absent-append m before after h k)

  -- Taking out an entry whose neighbour before has another match.
  Grouped-remove :
      (before : List (InsnDesc F)) (d : InsnDesc F) (after : List (InsnDesc F))
      → Grouped (before ++ (d ∷ after))
      → differs_last before d.match ≡ true
      → Grouped (before ++ after)
  unfolding Grouped Heads differs_last Absent
  Grouped-remove [] d after (g, h) e = h
  Grouped-remove (x ∷ []) d after (inl same, (g, h)) e =
      absurd (not_equal x.match d.match e (sym same))
  Grouped-remove (x ∷ []) d after (inr (ne, absent), (g, h)) e = (inr absent, h)
  Grouped-remove (x ∷ y ∷ before) d after (inl same, h) e =
      (inl same, Grouped-remove (y ∷ before) d after h e)
  Grouped-remove (x ∷ y ∷ before) d after (inr absent, h) e = (
    inr (Absent-mid x.match (y ∷ before) d after absent).1,
    Grouped-remove (y ∷ before) d after h e,
  )

  Terminated-remove :
      (before : List (InsnDesc F)) (d : InsnDesc F) (after : List (InsnDesc F))
      → d.mask ≢ 0
      → Terminated (before ++ (d ∷ after))
      → Terminated (before ++ after)
  unfolding Terminated
  Terminated-remove [] d after ne (inl (z, m)) = absurd (ne z)
  Terminated-remove [] d after ne (inr t) = t
  Terminated-remove (x ∷ before) d after ne (inl z) = inl z
  Terminated-remove (x ∷ before) d after ne (inr t) = inr (Terminated-remove before d after ne t)

  bare_same : (x : InsnDesc F) (w v : ℕ) → x.mask ≡ 0 → matches w x ≡ matches v x
  bare_same x w v z =
      let e : bit_and w x.mask ≡ bit_and v x.mask = rw z (no_bits w ∙ sym (no_bits v)) in
      ap (λ n. n == x.match) e
    where
      no_bits : (w : ℕ) → bit_and w 0 ≡ 0
      no_bits w = let e = and_mask 0 w in omega arith

  -- An entry that agrees with a word that `d` agrees with is no entry before `d`.
  before-Misses :
      (before : List (InsnDesc F)) (d : InsnDesc F) (after : List (InsnDesc F)) (bits w : ℕ)
      → Pairwise (before ++ (d ∷ after))
      → Absent d.match before
      → Misses bits before
      → d.mask ≢ 0
      → matches w d ≡ true
      → Misses w before
  unfolding Pairwise Absent Misses
  before-Misses [] d after bits w p a m ne e = tt
  before-Misses (x ∷ before) d after bits w (c, p) (apart, a) (off, m) ne e = (
    elim (Bool-cases (matches w x)) [
      | inr other ↦ other
      | inl both ↦ elim (Bool-cases (x.mask == 0)) [
        | inl bare ↦ absurd (true≢false (sym both ∙ bare_same x w bits (ground arith) ∙ off))
        | inr real ↦
            absurd (apart ((AllCompatible-mid x before d after c).0 (ground arith) ne w both e))
      ]
    ],
    before-Misses before d after bits w p a m ne e,
  )

  first_match_hit :
      (before : List (InsnDesc F)) (d : InsnDesc F) (after : List (InsnDesc F)) (w : ℕ)
      → Misses w before
      → matches w d ≡ true
      → first_match (before ++ (d ∷ after)) w ≡ some d
  unfolding Misses first_match
  first_match_hit [] d after w m e = rw e refl
  first_match_hit (x ∷ before) d after w (off, m) e = rw off (first_match_hit before d after w m e)

  first_match_skip :
      (before : List (InsnDesc F)) (d : InsnDesc F) (after : List (InsnDesc F)) (w : ℕ)
      → matches w d ≡ false
      → first_match (before ++ (d ∷ after)) w ≡ first_match (before ++ after) w
  unfolding first_match
  first_match_skip [] d after w e = rw e refl
  first_match_skip (x ∷ before) d after w e = elim (Bool-cases (matches w x)) [
    | inl here ↦ rw here refl
    | inr there ↦ rw there (first_match_skip before d after w e)
  ]

  -- What a search finds: the entry, with what stands before it and after it.
  abbrev pub Splits : List (InsnDesc F) → ℕ → Found F → Type 0
  Splits l bits found = (l ≡ found.before ++ (found.desc ∷ found.after)) × Misses bits found.before

  -- The conditions for a move.
  Moves : Found F → Type 0
  Moves found =
      (found.desc.mask ≢ 0)
      × (differs_last found.before found.desc.match ≡ true)
      × (differs_first found.after found.desc.match ≡ true)

  moved-IsTable :
      (found : Found F)
      → IsTable (found.before ++ (found.desc ∷ found.after))
      → Moves found
      → IsTable (found.desc ∷ (found.before ++ found.after))
  unfolding Moves Pairwise Grouped Terminated
  moved-IsTable found t (ne, last, first) =
      let before = found.before in
      let d = found.desc in
      let after = found.after in
      record {
        pairwise = Pairwise-mid before d after t.pairwise;
        grouped = (
          inr (
              Absent-append d.match before after (last_apart-Absent before d after t.grouped last)
                (first_apart-Absent d after (Grouped-drop before d after t.grouped) first)),
          Grouped-remove before d after t.grouped last,
        );
        terminated = inr (Terminated-remove before d after ne t.terminated);
      }

  moved-first_match :
      (found : Found F) (bits w : ℕ)
      → IsTable (found.before ++ (found.desc ∷ found.after))
      → Misses bits found.before
      → Moves found
      → first_match (found.desc ∷ (found.before ++ found.after)) w
        ≡ first_match (found.before ++ (found.desc ∷ found.after)) w
  unfolding Moves first_match
  moved-first_match found bits w t m (ne, last, first) =
      let before = found.before in
      let d = found.desc in
      let after = found.after in
      elim (Bool-cases (matches w d)) [
        | inl hit ↦ rw hit (
            sym (
              first_match_hit before d after w
                (before-Misses before d after bits w t.pairwise
                  (last_apart-Absent before d after t.grouped last) m ne hit)
                hit))
        | inr skip ↦ rw skip (sym (first_match_skip before d after w skip))
      ]

  pub move_to_front_lem :
      (l : List (InsnDesc F)) (bits : ℕ) (found : Found F)
      → IsTable l
      → Splits l bits found
      → IsTable (move_to_front found)
        × ((w : ℕ) → first_match (move_to_front found) w ≡ first_match l w)
  unfolding move_to_front Moves
  move_to_front_lem l bits found t (split, misses) =
      let d = found.desc in
      let real = not (d.mask == 0) in
      let t' = subst IsTable split t in
      let back = λ (w : ℕ). ap (λ (k : List (InsnDesc F)). first_match k w) (sym split) in
      elim (Bool-cases (
        real
        && not (is_first found.before)
        && (differs_last found.before d.match && differs_first found.after d.match))) [
          | inl moves ↦
              let (a, b) = both_true (real && not (is_first found.before)) _ moves in
              let (ne, later) = both_true real _ a in
              let (last, first) = both_true (differs_last found.before d.match) _ b in
              let m : Moves found = (not_equal d.mask 0 ne, last, first) in
              rw moves
                (moved-IsTable found t' m, λ w. moved-first_match found bits w t' misses m ∙ back w)
          | inr stays ↦ rw stays (t', back)
        ]
