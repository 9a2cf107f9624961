-- ===== src/Processor/Opcodes/Sort.antt =====
-- `build_opcode_map` in riscv/processor.cc: the order of the table after the sort.
use mathlib.Core.Bool.{◌||◌}
use spike.Base.{
  ℕ, suc, ◌≤◌, min, Bool, true, false, ◌&&◌, not, ◌==◌, ◌≡◌, inl, inr, refl, ◌∙◌, ap, sym, arith,
  Bool-cases, List, [], ◌∷◌, ◌++◌, bit, bit_and, bit_ext, bit-and,
}
use spike.Processor.Opcodes.{InsnDesc, Opcodes, precedes, insert_insn, sort_insns, build_opcode_map}
use spike.Processor.Opcodes.Order.{
  Compatible, AllCompatible, Pairwise, Absent, Heads, Grouped, Terminated,
}
use spike.Processor.Opcodes.Move.{not_equal, both_true}
use spike.Processor.Opcodes.Decode.{Decodes}

and_swap : (w k l : ℕ) → bit_and (bit_and w k) l ≡ bit_and (bit_and w l) k
and_swap w k l = bit_ext _ _ (λ i.
    bit-and (bit_and w k) l i
    ∙ ap (λ v. min v (bit l i)) (bit-and w k i)
    ∙ swap (bit w i) (bit k i) (bit l i)
    ∙ sym (bit-and (bit_and w l) k i ∙ ap (λ v. min v (bit k i)) (bit-and w l i)))
  where
    swap : (a b c : ℕ) → min (min a b) c ≡ min (min a c) b
    swap a b c = omega arith

from_test : (a b : ℕ) → (a == b) ≡ true → a ≡ b
from_test a b e = ground arith

module _ {F : Type 0} where
  -- No entry has a greater match.
  AtMost : ℕ → List (InsnDesc F) → Type 0
  AtMost m [] = Unit {0}
  AtMost m (d ∷ rest) = (d.match ≤ m) × AtMost m rest

  IsSorted : List (InsnDesc F) → Type 0
  IsSorted [] = Unit {0}
  IsSorted (d ∷ rest) = AtMost d.match rest × IsSorted rest

  AtMost-weaken : (m n : ℕ) (l : List (InsnDesc F)) → m ≤ n → AtMost m l → AtMost n l
  unfolding AtMost
  AtMost-weaken m n [] le h = tt
  AtMost-weaken m n (d ∷ rest) le (a, h) = (omega arith, AtMost-weaken m n rest le h)

  AtMost-insert_insn :
      (m : ℕ) (d : InsnDesc F) (l : List (InsnDesc F))
      → d.match ≤ m
      → AtMost m l
      → AtMost m (insert_insn d l)
  unfolding AtMost insert_insn
  AtMost-insert_insn m d [] le h = (le, tt)
  AtMost-insert_insn m d (e ∷ rest) le (a, h) = elim (Bool-cases (precedes e d)) [
    | inl before ↦ rw before (a, AtMost-insert_insn m d rest le h)
    | inr after ↦ rw after (le, (a, h))
  ]

  precedes-le : (e d : InsnDesc F) → precedes e d ≡ true → d.match ≤ e.match
  precedes-le e d p = ground arith

  precedes-ge : (e d : InsnDesc F) → precedes e d ≡ false → e.match ≤ d.match
  precedes-ge e d p = ground arith

  insert_insn-IsSorted :
      (d : InsnDesc F) (l : List (InsnDesc F)) → IsSorted l → IsSorted (insert_insn d l)
  unfolding IsSorted insert_insn AtMost
  insert_insn-IsSorted d [] h = (tt, tt)
  insert_insn-IsSorted d (e ∷ rest) (a, h) = elim (Bool-cases (precedes e d)) [
    | inl before ↦ rw before (
      AtMost-insert_insn e.match d rest (precedes-le e d before) a,
      insert_insn-IsSorted d rest h,
    )
    | inr after ↦
        let le = precedes-ge e d after in
        rw after ((le, AtMost-weaken e.match d.match rest le a), (a, h))
  ]

  sort_insns-IsSorted : (l : List (InsnDesc F)) → IsSorted (sort_insns l)
  unfolding IsSorted sort_insns
  sort_insns-IsSorted [] = tt
  sort_insns-IsSorted (d ∷ rest) =
      insert_insn-IsSorted d (sort_insns rest) (sort_insns-IsSorted rest)

  AtMost-Absent : (m n : ℕ) (l : List (InsnDesc F)) → AtMost m l → suc m ≤ n → Absent n l
  unfolding AtMost Absent
  AtMost-Absent m n [] h lt = tt
  AtMost-Absent m n (d ∷ rest) (a, h) lt = (λ e. absurd (omega arith), AtMost-Absent m n rest h lt)

  IsSorted-Grouped : (l : List (InsnDesc F)) → IsSorted l → Grouped l
  unfolding IsSorted Grouped AtMost Heads Absent
  IsSorted-Grouped [] h = tt
  IsSorted-Grouped (d ∷ []) h = (inr tt, tt)
  IsSorted-Grouped (d ∷ e ∷ rest) ((le, a), (b, h)) = (
    elim (Bool-cases (e.match == d.match)) [
      | inl same ↦ inl (ground arith)
      | inr apart ↦
          let lt : suc e.match ≤ d.match = lower e.match d.match le apart in
          inr (λ k. absurd (omega arith), AtMost-Absent e.match d.match rest b lt)
    ],
    IsSorted-Grouped (e ∷ rest) (b, h),
  )
    where
      lower : (a b : ℕ) → a ≤ b → (a == b) ≡ false → suc a ≤ b
      lower a b le e = ground arith

  AllCompatible-insert_insn :
      (c d : InsnDesc F) (l : List (InsnDesc F))
      → Compatible c d
      → AllCompatible c l
      → AllCompatible c (insert_insn d l)
  unfolding AllCompatible insert_insn
  AllCompatible-insert_insn c d [] k h = (k, tt)
  AllCompatible-insert_insn c d (e ∷ rest) k (a, h) = elim (Bool-cases (precedes e d)) [
    | inl before ↦ rw before (a, AllCompatible-insert_insn c d rest k h)
    | inr after ↦ rw after (k, (a, h))
  ]

  insert_insn-Pairwise :
      (d : InsnDesc F) (l : List (InsnDesc F))
      → AllCompatible d l
      → Pairwise l
      → Pairwise (insert_insn d l)
  unfolding Pairwise AllCompatible insert_insn
  insert_insn-Pairwise d [] k h = (tt, tt)
  insert_insn-Pairwise d (e ∷ rest) (c, k) (a, h) = elim (Bool-cases (precedes e d)) [
    | inl before ↦ rw before (
      AllCompatible-insert_insn e d rest (λ m n w x y. sym (c n m w y x)) a,
      insert_insn-Pairwise d rest k h,
    )
    | inr after ↦ rw after ((c, k), (a, h))
  ]

  AllCompatible-sort_insns :
      (c : InsnDesc F) (l : List (InsnDesc F)) → AllCompatible c l → AllCompatible c (sort_insns l)
  unfolding AllCompatible sort_insns
  AllCompatible-sort_insns c [] h = tt
  AllCompatible-sort_insns c (d ∷ rest) (a, h) =
      AllCompatible-insert_insn c d (sort_insns rest) a (AllCompatible-sort_insns c rest h)

  sort_insns-Pairwise : (l : List (InsnDesc F)) → Pairwise l → Pairwise (sort_insns l)
  unfolding Pairwise sort_insns
  sort_insns-Pairwise [] h = tt
  sort_insns-Pairwise (d ∷ rest) (a, h) =
      insert_insn-Pairwise d (sort_insns rest) (AllCompatible-sort_insns d rest a)
        (sort_insns-Pairwise rest h)

  insert_insn-Terminated :
      (d : InsnDesc F) (l : List (InsnDesc F)) → Terminated (d ∷ l) → Terminated (insert_insn d l)
  unfolding Terminated insert_insn
  insert_insn-Terminated d [] h = h
  insert_insn-Terminated d (e ∷ rest) h = elim (Bool-cases (precedes e d)) [
    | inr after ↦ rw after h
    | inl before ↦ rw before (elim h [
      | inl z ↦ inr (insert_insn-Terminated d rest (inl z))
      | inr (inl z) ↦ inl z
      | inr (inr t) ↦ inr (insert_insn-Terminated d rest (inr t))
    ])
  ]

  sort_insns-Terminated : (l : List (InsnDesc F)) → Terminated l → Terminated (sort_insns l)
  unfolding Terminated sort_insns
  sort_insns-Terminated [] h = h
  sort_insns-Terminated (d ∷ rest) (inl z) = insert_insn-Terminated d (sort_insns rest) (inl z)
  sort_insns-Terminated (d ∷ rest) (inr t) =
      insert_insn-Terminated d (sort_insns rest) (inr (sort_insns-Terminated rest t))

  -- A table that ends in an entry for every word.
  pub append-Terminated :
      (l : List (InsnDesc F)) (d : InsnDesc F)
      → d.mask ≡ 0
      → d.match ≡ 0
      → Terminated (l ++ (d ∷ []))
  unfolding Terminated
  append-Terminated [] d m z = inl (m, z)
  append-Terminated (e ∷ rest) d m z = inr (append-Terminated rest d m z)

  -- A decoder that was just built stands for its own table.
  pub build_opcode_map-Decodes :
      (illegal : F) (o : Opcodes F)
      → Pairwise o.instructions
      → Terminated o.instructions
      → Decodes (sort_insns o.instructions) (build_opcode_map illegal o)
  unfolding build_opcode_map
  build_opcode_map-Decodes illegal o p t = record {
    table = record {
      pairwise = sort_insns-Pairwise o.instructions p;
      grouped = IsSorted-Grouped (sort_insns o.instructions) (sort_insns-IsSorted o.instructions);
      terminated = sort_insns-Terminated o.instructions t;
    };
    same = λ w. refl;
    cached = λ w ne e. absurd (ne (sym e));
  }

  -- A test for compatibility: the words that two entries share agree on both masks, and
  -- the last entry has no mask.
  unfoldable pub compatible : InsnDesc F → InsnDesc F → Bool
  compatible d e =
      e.mask == 0 || (d.match == e.match || not (bit_and d.match e.mask == bit_and e.match d.mask))

  compatible_sound : (d e : InsnDesc F) → compatible d e ≡ true → Compatible d e
  unfolding compatible
  compatible_sound d e h m n w x y =
      let a : bit_and w d.mask ≡ d.match = ground arith in
      let b : bit_and w e.mask ≡ e.match = ground arith in
      let shared : bit_and d.match e.mask ≡ bit_and e.match d.mask =
        ap (λ v. bit_and v e.mask) (sym a)
        ∙ and_swap w d.mask e.mask
        ∙ ap (λ v. bit_and v d.mask) b in
      elim (Bool-cases (e.mask == 0)) [
        | inl bare ↦ absurd (n (from_test e.mask 0 bare))
        | inr masked ↦ elim (Bool-cases (d.match == e.match)) [
          | inl same ↦ from_test d.match e.match same
          | inr apart ↦
              let t : not (bit_and d.match e.mask == bit_and e.match d.mask) ≡ true =
                rw (masked, apart) at h in
              absurd (not_equal (bit_and d.match e.mask) (bit_and e.match d.mask) t shared)
        ]
      ]

  unfoldable pub compatible_with : InsnDesc F → List (InsnDesc F) → Bool
  compatible_with d [] = true
  compatible_with d (e ∷ rest) = compatible d e && compatible_with d rest

  unfoldable pub all_compatible : List (InsnDesc F) → Bool
  all_compatible [] = true
  all_compatible (d ∷ rest) = compatible_with d rest && all_compatible rest

  compatible_with_sound :
      (d : InsnDesc F) (l : List (InsnDesc F)) → compatible_with d l ≡ true → AllCompatible d l
  unfolding compatible_with AllCompatible
  compatible_with_sound d [] h = tt
  compatible_with_sound d (e ∷ rest) h =
      let (a, b) = both_true (compatible d e) (compatible_with d rest) h in
      (compatible_sound d e a, compatible_with_sound d rest b)

  pub all_compatible_sound : (l : List (InsnDesc F)) → all_compatible l ≡ true → Pairwise l
  unfolding all_compatible Pairwise
  all_compatible_sound [] h = tt
  all_compatible_sound (d ∷ rest) h =
      let (a, b) = both_true (compatible_with d rest) (all_compatible rest) h in
      (compatible_with_sound d rest a, all_compatible_sound rest b)
