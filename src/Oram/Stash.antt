-- ===== src/Oram/Stash.antt =====
-- The steps of `stash_write_back` in riscv/oramsim.cc on the stash: what each of them keeps.
use mathlib.Core.Bool.{true≢false}
use mathlib.Core.Option.{some-injective}
use spike.Base.{
  ℕ, zero, suc, ◌+◌, ◌-◌, ◌≤◌, ◌<◌, true, false, ◌≡◌, ◌≢◌, inl, inr, refl, ◌∙◌, ap, sym, arith,
  Bool-cases, ◌==◌, some, none≢some,
}
use spike.Oram.{
  Oram, empty, put, search_stash, remove_block, place_below, copy_evicted, bring_evicted,
  keep_block,
}

-- Every place that holds something, other than what `skip` names, holds it still.
abbrev pub Keeps : (ℕ → ℕ) → (ℕ → ℕ) → Type 0
Keeps st st' = (i v : ℕ) → v ≢ empty → st i ≡ v → st' i ≡ v

pub Keeps-trans : {a b c : ℕ → ℕ} → Keeps a b → Keeps b c → Keeps a c
Keeps-trans k l i v ne e = l i v ne (k i v ne e)

-- A write to an empty place.
pub put-Keeps : (st : ℕ → ℕ) (j v : ℕ) → st j ≡ empty → Keeps st (put st j v)
put-Keeps st j v free i w ne e = elim (Bool-cases (i == j)) [
  | inl here ↦ let at : i ≡ j = ground arith in absurd (ne (sym e ∙ ap st at ∙ free))
  | inr other ↦ rw other e
]

pub put_self : (st : ℕ → ℕ) (j v : ℕ) → put st j v j ≡ v
put_self st j v = let e : (j == j) ≡ true = ground arith in rw e refl

-- A block that is not in the stash has no place there.
pub search_stash_absent :
    (n i : ℕ) (st : ℕ → ℕ) (bid j : ℕ)
    → search_stash n i st bid ≡ false
    → i ≤ j
    → j < i + n
    → st j ≢ bid
unfolding search_stash
search_stash_absent zero i st bid j e h k at = absurd (omega arith)
search_stash_absent (suc n) i st bid j e h k at = elim (Bool-cases (st i == bid)) [
  | inl found ↦ absurd (true≢false (rw found at e))
  | inr other ↦ elim (Bool-cases (j == i)) [
    | inl here ↦
        let same : j ≡ i = ground arith in
        let ne : st i ≢ bid = ground arith in absurd (ne (sym (ap st same) ∙ at))
    | inr apart ↦
        search_stash_absent n (suc i) st bid j (rw other at e) (ground arith) (omega arith) at
  ]
]

pub remove_block_keeps :
    (n i : ℕ) (st : ℕ → ℕ) (bid j v : ℕ) → v ≢ bid → st j ≡ v → remove_block n i st bid j ≡ v
unfolding remove_block
remove_block_keeps zero i st bid j v ne e = e
remove_block_keeps (suc n) i st bid j v ne e = elim (Bool-cases (st i == bid)) [
  | inl found ↦ rw found (elim (Bool-cases (j == i)) [
    | inl here ↦
        let at : j ≡ i = ground arith in
        let b : st i ≡ bid = ground arith in absurd (ne (sym e ∙ ap st at ∙ b))
    | inr other ↦ rw other e
  ])
  | inr later ↦ rw later (remove_block_keeps n (suc i) st bid j v ne e)
]

-- The place that `place_below` finds was empty and is not above the height.
pub place_below-some :
    (c : ℕ) (st placed : ℕ → ℕ) (bid : ℕ)
    → place_below c st bid ≡ some placed
    → (s : ℕ) × (s ≤ c) × (st s ≡ empty) × (placed ≡ put st s bid)
unfolding place_below
place_below-some zero st placed bid e = elim (Bool-cases (st zero == empty)) [
  | inl free ↦ (0, omega arith, ground arith, sym (some-injective _ _ (rw free at e)))
  | inr full ↦ absurd (none≢some (rw full at e))
]
place_below-some (suc c) st placed bid e = elim (Bool-cases (st (suc c) == empty)) [
  | inl free ↦ (suc c, omega arith, ground arith, sym (some-injective _ _ (rw free at e)))
  | inr full ↦
      let (s, le, free, p) = place_below-some c st placed bid (rw full at e) in
      (s, omega arith, free, p)
]

copy_evicted-Keeps : (n i : ℕ) (st : ℕ → ℕ) (bid : ℕ) → Keeps st (copy_evicted n i st bid)
unfolding copy_evicted
copy_evicted-Keeps zero i st bid j v ne e = e
copy_evicted-Keeps (suc n) i st bid j v ne e = elim (Bool-cases (st i == empty)) [
  | inl free ↦ rw free (put-Keeps st i bid (ground arith) j v ne e)
  | inr full ↦ rw full (copy_evicted-Keeps n (suc i) st bid j v ne e)
]

-- Places from `i + n` on are not written.
copy_evicted_above :
    (n i : ℕ) (st : ℕ → ℕ) (bid j : ℕ) → i + n ≤ j → copy_evicted n i st bid j ≡ st j
unfolding copy_evicted
copy_evicted_above zero i st bid j h = refl
copy_evicted_above (suc n) i st bid j h = elim (Bool-cases (st i == empty)) [
  | inl free ↦ rw free (let o : (j == i) ≡ false = ground arith in rw o refl)
  | inr full ↦ rw full (copy_evicted_above n (suc i) st bid j (omega arith))
]

pub bring_evicted-Keeps :
    (n sid : ℕ) (o : Oram) (leaf : ℕ) (st : ℕ → ℕ) → Keeps st (bring_evicted n sid o leaf st)
unfolding bring_evicted
bring_evicted-Keeps zero sid o leaf st j v ne e = e
bring_evicted-Keeps (suc n) sid o leaf st j v ne e =
    elim (Bool-cases (o.position_map (st sid) == leaf)) [
      | inl mine ↦ rw mine (
          bring_evicted-Keeps n (suc sid) o leaf (copy_evicted o.tree_height 0 st (st sid)) j v ne
            (copy_evicted-Keeps o.tree_height 0 st (st sid) j v ne e))
      | inr foreign ↦ rw foreign (bring_evicted-Keeps n (suc sid) o leaf st j v ne e)
    ]

pub bring_evicted_above :
    (n sid : ℕ) (o : Oram) (leaf : ℕ) (st : ℕ → ℕ) (j : ℕ)
    → o.tree_height ≤ j
    → bring_evicted n sid o leaf st j ≡ st j
unfolding bring_evicted
bring_evicted_above zero sid o leaf st j h = refl
bring_evicted_above (suc n) sid o leaf st j h =
    elim (Bool-cases (o.position_map (st sid) == leaf)) [
      | inl mine ↦ rw mine (
          bring_evicted_above n (suc sid) o leaf (copy_evicted o.tree_height 0 st (st sid)) j h
          ∙ copy_evicted_above o.tree_height 0 st (st sid) j (omega arith))
      | inr foreign ↦ rw foreign (bring_evicted_above n (suc sid) o leaf st j h)
    ]

-- A block that is kept stands in an upper place that was empty; the loop has a place to look at.
pub keep_block-some :
    (n sid stashsz : ℕ) (st kept : ℕ → ℕ) (bid : ℕ)
    → 0 < n
    → sid + n ≡ stashsz
    → keep_block n sid stashsz st bid ≡ some kept
    → (s : ℕ) × (sid ≤ s) × (s < stashsz) × (st s ≡ empty) × (kept ≡ put st s bid)
unfolding keep_block
keep_block-some zero sid stashsz st kept bid p h e = absurd (omega arith)
keep_block-some (suc n) sid stashsz st kept bid p h e = elim (Bool-cases (st sid == empty)) [
  | inl free ↦
      (sid, omega arith, omega arith, ground arith, sym (some-injective _ _ (rw free at e)))
  | inr full ↦ elim (Bool-cases (sid == stashsz - 1)) [
    | inl last ↦ absurd (none≢some (rw (full, last) at e))
    | inr more ↦
        let (s, le, lt, free, k) =
          keep_block-some n (suc sid) stashsz st kept bid (ground arith) (omega arith)
            (rw (full, more) at e) in
        (s, omega arith, lt, free, k)
  ]
]

-- With an empty upper place there is no overflow.
pub keep_block_finds :
    (n sid stashsz : ℕ) (st : ℕ → ℕ) (bid j : ℕ)
    → sid ≤ j
    → j < sid + n
    → sid + n ≡ stashsz
    → st j ≡ empty
    → (kept : ℕ → ℕ) × (keep_block n sid stashsz st bid ≡ some kept)
unfolding keep_block
keep_block_finds zero sid stashsz st bid j h k z free = absurd (omega arith)
keep_block_finds (suc n) sid stashsz st bid j h k z free = elim (Bool-cases (st sid == empty)) [
  | inl here ↦ rw here (put st sid bid, refl)
  | inr full ↦
      let ne : st sid ≢ empty = ground arith in
      let apart = differs st sid j ne free in
      let more : (sid == stashsz - 1) ≡ false = ground arith in
      rw (full, more)
        (keep_block_finds n (suc sid) stashsz st bid j (omega arith) (omega arith) (omega arith)
          free)
]
  where
    differs : (st : ℕ → ℕ) (i j : ℕ) → st i ≢ empty → st j ≡ empty → i ≢ j
    differs st i j ne e same = ne (ap st same ∙ e)
