-- ===== src/Oram/Invariant.antt =====
-- The invariant of riscv/oramsim.cc: every block is at home between two accesses.
use native.Mathlib.Nat.{pow-suc, pow-le-pow_right, mod-lt}
use spike.Base.{
  ℕ, suc, ◌+◌, ◌-◌, ◌%◌, ◌^◌, ◌≤◌, ◌<◌, true, false, ◌≡◌, ◌≢◌, ◌⊎◌, inl, inr, ◌∙◌, sym, arith,
  Bool-cases, ◌==◌, add64,
}
use spike.Mmu.{AccessType}
use spike.Oram.{Oram, empty, put, is_leaf, load_path, write_path}
use spike.Oram.Home.{Home, OffPath, load_path-Home, write_path-Home}
use spike.Oram.Path.{ancestor, meeting_height_nearest}
use spike.Oram.Reshuffle.{InStash, Meets, Reshuffled}
use spike.Oram.Tree.{AtHeight, ancestor-root, load_path-shape, write_path-shape, write_path_clears}

-- A state between two accesses: the sizes fit, every position is a leaf, the places of the stash for a
-- path are empty, and every block is at home.
pub record WellFormed (o : Oram) : Type 0 where
  pub leaves_lem : o.tree_leaves ≡ 2 ^ o.tree_height
  pub nodes_lem : o.tree_nodes ≡ 2 ^ suc o.tree_height - 1
  pub room : o.tree_height + 1 < o.stashsz
  pub few : o.num_of_blocks < empty
  pub position : (b : ℕ) → b < o.num_of_blocks → AtHeight o.tree_height (o.position_map b)
  pub cleared : (i : ℕ) → i ≤ o.tree_height → o.stash i ≡ empty
  pub home :
      (b : ℕ)
      → b < o.num_of_blocks
      → Home o.tree_height o.stashsz o.stash o.oram_tree (o.position_map b) b

-- Paths to two leaves meet, at the root at the latest.
pub meets :
    (o : Oram) (leaf new_leaf : ℕ)
    → AtHeight o.tree_height leaf
    → AtHeight o.tree_height new_leaf
    → (c : ℕ) × Meets o leaf new_leaf c
unfolding AtHeight
meets o leaf new_leaf (low, high) (low', high') =
    let h = o.tree_height in
    let step : h + 1 ≡ suc h = omega arith in
    let z : h - 0 ≡ h = omega arith in
    let root : ancestor new_leaf (h - 0) ≡ ancestor leaf (h - 0) =
      rw z (ancestor-root h new_leaf (low', high') ∙ sym (ancestor-root h leaf (low, high))) in
    let (c, found, small, near, meet) =
      meeting_height_nearest h new_leaf leaf 0 low' (rw step high') low (rw step high) (omega arith)
        root in
    (c, (found, small, meet))

-- The number of a block is not the mark of an empty place.
pub distinct : (b n : ℕ) → b < n → n < empty → b ≢ empty
distinct b n h k e = omega arith

module _ {D : Type 0} (dram_access : D → ℕ → ℕ → AccessType → D) where
  -- The new leaf of a block is a leaf.
  new_leaf-AtHeight :
      (o : Oram) (random : ℕ)
      → WellFormed o
      → AtHeight o.tree_height (random % o.tree_leaves + o.tree_leaves)
  unfolding AtHeight
  new_leaf-AtHeight o random w =
      let p = pow-suc 2 o.tree_height in
      let q = pow-le-pow_right {n = 2} (omega arith) {i = 0} {j = o.tree_height} (omega arith) in
      let some_leaf : 0 < 2 ^ o.tree_height = omega arith in
      let r = mod-lt random some_leaf in rw w.leaves_lem (omega arith, omega arith)

  pub AtHeight-is_leaf :
      (o : Oram) (leaf : ℕ)
      → o.tree_leaves ≡ 2 ^ o.tree_height
      → o.tree_nodes ≡ 2 ^ suc o.tree_height - 1
      → AtHeight o.tree_height leaf
      → is_leaf o leaf ≡ true
  unfolding AtHeight is_leaf
  AtHeight-is_leaf o leaf l n (low, high) = ground arith

  -- A state in which the path to `leaf` is read and `bid` has moved.
  pub record PathRead (p : Oram) (leaf bid : ℕ) : Type 0 where
    pub leaves_lem : p.tree_leaves ≡ 2 ^ p.tree_height
    pub nodes_lem : p.tree_nodes ≡ 2 ^ suc p.tree_height - 1
    pub room : p.tree_height + 1 < p.stashsz
    pub few : p.num_of_blocks < empty
    pub known : bid < p.num_of_blocks
    pub old : AtHeight p.tree_height leaf
    pub position : (b : ℕ) → b < p.num_of_blocks → AtHeight p.tree_height (p.position_map b)
    pub kept :
        (b : ℕ)
        → b < p.num_of_blocks
        → b ≢ bid
        → InStash p.tree_height p.stashsz leaf p.stash b (p.position_map b)
          ⊎ OffPath p.tree_height leaf p.oram_tree (p.position_map b) b

  unfoldable pub moved : Oram → ℕ → ℕ → Oram
  moved o bid random = record o {
    stash_miss = add64 o.stash_miss 1;
    position_map = put o.position_map bid (random % o.tree_leaves + o.tree_leaves);
  }

  moved_position :
      (o : Oram) (bid random b : ℕ)
      → WellFormed o
      → b < o.num_of_blocks
      → AtHeight o.tree_height (put o.position_map bid (random % o.tree_leaves + o.tree_leaves) b)
  moved_position o bid random b w h = elim (Bool-cases (b == bid)) [
    | inl here ↦ rw here (new_leaf-AtHeight o random w)
    | inr other ↦ rw other (w.position b h)
  ]

  pub load-PathRead :
      (o : Oram) (below : D) (bid random : ℕ)
      → WellFormed o
      → bid < o.num_of_blocks
      → PathRead
          (load_path dram_access o.tree_height (moved o bid random) below (o.position_map bid)).0
          (o.position_map bid)
          bid
  unfolding moved
  load-PathRead o below bid random w known =
      let leaf = o.position_map bid in
      let start = moved o bid random in
      let ((hh, ll, nn, ss, bb, pp), tt) =
        load_path-shape dram_access o.tree_height start below leaf in
      record {
        leaves_lem = rw (hh, ll) w.leaves_lem;
        nodes_lem = rw (hh, nn) w.nodes_lem;
        room = rw (hh, ss) w.room;
        few = rw bb w.few;
        known = rw bb known;
        old = rw hh (w.position bid known);
        position = rw (hh, bb, pp) (λ b h. moved_position o bid random b w h);
        kept =
            rw (hh, ss, bb, pp, tt)
              (λ b h other.
                let apart : (b == bid) ≡ false = ground arith in
                rw apart (
                  load_path-Home dram_access start below leaf (o.position_map b) b (omega arith)
                    (w.home b h)));
      }

  pub write-WellFormed :
      (p : Oram) (below : D) (leaf bid : ℕ) (st : ℕ → ℕ)
      → PathRead p leaf bid
      → Reshuffled p leaf bid (p.position_map bid) st
      → WellFormed (write_path dram_access p.tree_height (record p { stash = st }) below leaf).0
  write-WellFormed p below leaf bid st r (others, mine) =
      let ready = record p { stash = st } in
      let (hh, ll, nn, ss, bb, pp) = write_path-shape dram_access p.tree_height ready below leaf in
      record {
        leaves_lem = rw (hh, ll) r.leaves_lem;
        nodes_lem = rw (hh, nn) r.nodes_lem;
        room = rw (hh, ss) r.room;
        few = rw bb r.few;
        position = rw (hh, bb, pp) r.position;
        cleared = rw hh (write_path_clears dram_access p.tree_height ready below leaf);
        home =
            rw (hh, ss, bb, pp)
              (λ b h.
                write_path-Home dram_access ready below leaf (p.position_map b) b r.old
                  (r.position b h)
                  (elim (Bool-cases (b == bid)) [
                    | inl here ↦ let same : b ≡ bid = ground arith in inl (rw same mine)
                    | inr apart ↦ elim (r.kept b h (ground arith)) [
                      | inl held ↦ inl (
                          others b (p.position_map b) (ground arith)
                            (distinct b p.num_of_blocks h r.few) held)
                      | inr off ↦ inr off
                    ]
                  ]));
      }
