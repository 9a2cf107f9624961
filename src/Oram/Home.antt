-- ===== src/Oram/Home.antt =====
-- Where riscv/oramsim.cc keeps a block, before and after a path is read and written.
use spike.Base.{ℕ, ◌-◌, ◌≤◌, ◌<◌, ◌≡◌, ◌≢◌, ◌⊎◌, inl, inr, ◌∙◌, ap, sym, arith, Bool-cases, ◌==◌}
use spike.Mmu.{AccessType}
use spike.Oram.{Oram, load_path, write_path}
use spike.Oram.Path.{ancestor}
use spike.Oram.Reshuffle.{InStash}
use spike.Oram.Tree.{
  AtHeight, ancestors_apart, load_path_above, load_path-stash, write_path_above, write_path_off,
  write_path-tree,
}

-- A block with the position `p` stands in a place of the stash above the path, or in a node of the tree
-- on the path to `p`.
abbrev pub Home : ℕ → ℕ → (ℕ → ℕ) → (ℕ → ℕ) → ℕ → ℕ → Type 0
Home h size stash tree p b =
    ((i : ℕ) × (h < i) × (i < size) × (stash i ≡ b))
    ⊎ ((k : ℕ) × (k ≤ h) × (tree (ancestor p k) ≡ b))

-- The block stands in a node of the tree that is not on the path to `leaf`.
abbrev pub OffPath : ℕ → ℕ → (ℕ → ℕ) → ℕ → ℕ → Type 0
OffPath h leaf tree p b =
    (k : ℕ) × (k ≤ h) × (tree (ancestor p k) ≡ b) × (ancestor leaf k ≢ ancestor p k)

module _ {D : Type 0} (dram_access : D → ℕ → ℕ → AccessType → D) where
  -- A block at home is in the stash or off the path once the path is read.
  pub load_path-Home :
      (o : Oram) (below : D) (leaf p b : ℕ)
      → o.tree_height < o.stashsz
      → Home o.tree_height o.stashsz o.stash o.oram_tree p b
      → InStash o.tree_height o.stashsz leaf
          (load_path dram_access o.tree_height o below leaf).0.stash
          b
          p
        ⊎ OffPath o.tree_height leaf o.oram_tree p b
  load_path-Home o below leaf p b room (inl (i, above, small, at)) =
      inl (i, small, load_path_above dram_access o.tree_height o below leaf i above ∙ at, inl above)
  load_path-Home o below leaf p b room (inr (k, le, at)) =
      let h = o.tree_height in
      elim (Bool-cases (ancestor leaf k == ancestor p k)) [
        | inl shared ↦
            let same : ancestor leaf k ≡ ancestor p k = ground arith in
            let z : h - (h - k) ≡ k = omega arith in
            inl (
              h - k,
              omega arith,
              load_path-stash dram_access h o below leaf (h - k) (omega arith)
                  ∙ ap (λ j. o.oram_tree (ancestor leaf j)) z
                  ∙ ap o.oram_tree same
                  ∙ at,
              inr (omega arith, ap (ancestor leaf) z ∙ same ∙ ap (ancestor p) (sym z)),
            )
        | inr apart ↦ inr (k, le, at, ground arith)
      ]

  pub write_path-Home :
      (o : Oram) (below : D) (leaf p b : ℕ)
      → AtHeight o.tree_height leaf
      → AtHeight o.tree_height p
      → InStash o.tree_height o.stashsz leaf o.stash b p
        ⊎ OffPath o.tree_height leaf o.oram_tree p b
      → let written = (write_path dram_access o.tree_height o below leaf).0 in
        Home o.tree_height o.stashsz written.stash written.oram_tree p b
  write_path-Home o below leaf p b hl hp (inl (i, small, at, inl above)) =
      inl (i, above, small, write_path_above dram_access o.tree_height o below leaf i above ∙ at)
  write_path-Home o below leaf p b hl hp (inl (i, small, at, inr (le, shared))) =
      let written = (write_path dram_access o.tree_height o below leaf).0 in
      inr (
        o.tree_height - i,
        omega arith,
        ap written.oram_tree (sym shared)
            ∙ write_path-tree dram_access o.tree_height o below leaf i hl le
            ∙ at,
      )
  write_path-Home o below leaf p b hl hp (inr (k, le, at, apart)) =
      let h = o.tree_height in
      inr (
        k,
        le,
        write_path_off dram_access h o below leaf (ancestor p k) (λ j small e.
              let same = ancestors_apart h p leaf k (h - j) hp hl le (omega arith) e in
              apart (ap (ancestor leaf) same ∙ sym e))
            ∙ at,
      )
