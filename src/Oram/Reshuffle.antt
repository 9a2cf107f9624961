-- ===== src/Oram/Reshuffle.antt =====
-- `stash_write_back` of riscv/oramsim.cc: no block of a path that was read is lost by the steps before
-- the path is written.
use mathlib.Core.Option.{some-injective}
use spike.Base.{
  ℕ, ◌+◌, ◌-◌, ◌≤◌, ◌<◌, ◌≡◌, ◌≢◌, ◌⊎◌, inl, inr, refl, ◌∙◌, ap, sym, arith, Option-cases, some,
}
use spike.Oram.{
  Oram, empty, put, remove_block, place_below, bring_evicted, keep_block, meeting_height, reshuffle,
}
use spike.Oram.Path.{ancestor}
use spike.Oram.Stash.{
  Keeps, put-Keeps, put_self, remove_block_keeps, place_below-some, bring_evicted-Keeps,
  bring_evicted_above, keep_block-some, keep_block_finds,
}
use spike.Oram.Tree.{ancestor_up}

-- A place of the stash, of `size` places over a tree of height `h`, from which the block `b` with the
-- position `p` comes to its home when the path to `leaf` is written: a place above the path, or the
-- place of a node that is on the path to `p` too.
abbrev pub InStash : ℕ → ℕ → ℕ → (ℕ → ℕ) → ℕ → ℕ → Type 0
InStash h size leaf st b p =
    (i : ℕ) × (i < size)
    × (st i ≡ b)
    × ((h < i) ⊎ ((i ≤ h) × (ancestor leaf (h - i) ≡ ancestor p (h - i))))

Keeps-InStash :
    (h size leaf : ℕ) (st st' : ℕ → ℕ) (b p : ℕ)
    → Keeps st st'
    → b ≢ empty
    → InStash h size leaf st b p
    → InStash h size leaf st' b p
Keeps-InStash h size leaf st st' b p k ne (i, lt, at, side) = (i, lt, k i b ne at, side)

-- What is asked of a write-back: every other block keeps a place, and the block that moves gets one.
abbrev pub Reshuffled : Oram → ℕ → ℕ → ℕ → (ℕ → ℕ) → Type 0
Reshuffled o leaf bid new_leaf st =
    ((b p : ℕ)
      → b ≢ bid
      → b ≢ empty
      → InStash o.tree_height o.stashsz leaf o.stash b p
      → InStash o.tree_height o.stashsz leaf st b p)
    × InStash o.tree_height o.stashsz leaf st bid new_leaf

-- The paths to the old and the new leaf meet at height `c`.
abbrev pub Meets : Oram → ℕ → ℕ → ℕ → Type 0
Meets o leaf new_leaf c =
    (meeting_height o.tree_height new_leaf leaf ≡ some c)
    × (c ≤ o.tree_height)
    × (ancestor new_leaf (o.tree_height - c) ≡ ancestor leaf (o.tree_height - c))

-- A stash with the block at the place `s` that was empty.
put-Reshuffled :
    (o : Oram) (leaf bid new_leaf : ℕ) (st st' : ℕ → ℕ) (s : ℕ)
    → bid ≢ empty
    → Keeps (remove_block o.stashsz 0 o.stash bid) st
    → st s ≡ empty
    → s < o.stashsz
    → (o.tree_height < s)
      ⊎ ((s ≤ o.tree_height)
          × (ancestor leaf (o.tree_height - s) ≡ ancestor new_leaf (o.tree_height - s)))
    → Keeps (put st s bid) st'
    → Reshuffled o leaf bid new_leaf st'
put-Reshuffled o leaf bid new_leaf st st' s real before free small side after = (
  λ b p other ne (i, lt, at, rest). (
    i,
    lt,
    after i b ne (
        put-Keeps st s bid free i b ne
          (before i b ne (remove_block_keeps o.stashsz 0 o.stash bid i b other at))),
    rest,
  ),
  (s, small, after s bid real (put_self st s bid), side),
)

pub reshuffle-Reshuffled :
    (o : Oram) (leaf bid new_leaf c : ℕ) (st : ℕ → ℕ)
    → bid ≢ empty
    → o.tree_height + 1 < o.stashsz
    → Meets o leaf new_leaf c
    → reshuffle o leaf bid new_leaf ≡ some st
    → Reshuffled o leaf bid new_leaf st
unfolding reshuffle
reshuffle-Reshuffled o leaf bid new_leaf c st real room (found, low, meet) e =
    let removed = remove_block o.stashsz 0 o.stash bid in
    let upper = o.stashsz - (o.tree_height + 1) in
    let first = o.tree_height + 1 in
    elim (Option-cases (place_below c removed bid)) [
      | inl n ↦
          let brought = bring_evicted upper first o leaf removed in
          let k : keep_block upper first o.stashsz brought bid ≡ some st =
            rw (found, n, reshuffle) at e in
          let (s, above, small, free, is) =
            keep_block-some upper first o.stashsz brought st bid (omega arith) (omega arith) k in
          put-Reshuffled o leaf bid new_leaf brought st s real
            (bring_evicted-Keeps upper first o leaf removed) free small (inl (omega arith))
            (λ j v ne at. ap (λ f. f j) is ∙ at)
      | inr (placed, y) ↦
          let is : bring_evicted upper first o leaf placed ≡ st =
            some-injective _ _ (rw (found, y, reshuffle) at e) in
          let (s, le, free, p) = place_below-some c removed placed bid y in
          put-Reshuffled o leaf bid new_leaf removed st s real (λ i v ne at. at) free (omega arith)
            (inr (
              omega arith,
              sym (
                  ancestor_up new_leaf leaf (o.tree_height - c) (o.tree_height - s) (omega arith)
                    meet),
            ))
            (λ j v ne at.
              ap (λ f. f j) (sym is)
              ∙ bring_evicted-Keeps upper first o leaf placed j v ne (ap (λ f. f j) p ∙ at))
    ]

-- The overflow wants every place above the path full.
pub reshuffle-some :
    (o : Oram) (leaf bid new_leaf c i : ℕ)
    → bid ≢ empty
    → Meets o leaf new_leaf c
    → o.tree_height < i
    → i < o.stashsz
    → o.stash i ≡ empty
    → (st : ℕ → ℕ) × (reshuffle o leaf bid new_leaf ≡ some st)
unfolding reshuffle
reshuffle-some o leaf bid new_leaf c i real (found, low, meet) above small free =
    let removed = remove_block o.stashsz 0 o.stash bid in
    let upper = o.stashsz - (o.tree_height + 1) in
    let first = o.tree_height + 1 in
    elim (Option-cases (place_below c removed bid)) [
      | inl n ↦
          let brought = bring_evicted upper first o leaf removed in
          let free' : brought i ≡ empty =
            bring_evicted_above upper first o leaf removed i (omega arith)
            ∙ remove_block_keeps o.stashsz 0 o.stash bid i empty (λ e. real (sym e)) free in
          let (st, k) =
            keep_block_finds upper first o.stashsz brought bid i (omega arith) (omega arith)
              (omega arith) free' in
          (st, rw (found, n, reshuffle) k)
      | inr (placed, y) ↦ (bring_evicted upper first o leaf placed, rw (found, y, reshuffle) refl)
    ]
