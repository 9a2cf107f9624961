-- ===== src/Oram/Tree.antt =====
-- The paths that `load_path_to_stash` and `stash_write_back` of riscv/oramsim.cc read and write.
use native.Mathlib.Nat.{pow-suc, div-div-eq-div-mul, div-le_self, pow-le-pow_right, div-one}
use native.Mathlib.Decide.{dec_lt}
use spike.Base.{
  ℕ, zero, suc, ◌-◌, ◌/◌, ◌^◌, ◌≤◌, ◌<◌, true, false, ◌≡◌, ◌≢◌, inl, inr, refl, ◌∙◌, ap, sym, arith,
  Bool-cases, ◌==◌,
}
use spike.Mmu.{AccessType}
use spike.Oram.{Oram, empty, load_path, write_path}
use spike.Oram.Stash.{put_self}
use spike.Oram.Path.{ancestor, ancestor-half}

pub ancestor-suc : (a k : ℕ) → ancestor a (suc k) ≡ ancestor a k / 2
ancestor-suc a k = rw (pow-suc 2 k, ← div-div-eq-div-mul a (2 ^ k) 2) refl

-- A common ancestor has common ancestors.
pub ancestor_up : (a b k j : ℕ) → k ≤ j → ancestor a k ≡ ancestor b k → ancestor a j ≡ ancestor b j
ancestor_up a b k zero h e =
    let z : k ≡ 0 = omega arith in ap (ancestor a) (sym z) ∙ e ∙ ap (ancestor b) z
ancestor_up a b k (suc j) h e = elim (Bool-cases (k == suc j)) [
  | inl here ↦
      let same : k ≡ suc j = ground arith in ap (ancestor a) (sym same) ∙ e ∙ ap (ancestor b) same
  | inr below ↦
      ancestor-suc a j
      ∙ ap (λ v. v / 2) (ancestor_up a b k j (ground arith) e)
      ∙ sym (ancestor-suc b j)
]

-- The ancestor of a node at height `n`, `k` levels up, is at height `n - k`.
unfoldable pub AtHeight : ℕ → ℕ → Type 0
AtHeight n a = (2 ^ n ≤ a) × (a < 2 ^ suc n)

pub half-AtHeight : (n a : ℕ) → AtHeight (suc n) a → AtHeight n (a / 2)
unfolding AtHeight
half-AtHeight n a (low, high) =
    let p = pow-suc 2 n in let q = pow-suc 2 (suc n) in (omega arith, omega arith)

pub ancestor-AtHeight : (n a k : ℕ) → AtHeight n a → k ≤ n → AtHeight (n - k) (ancestor a k)
ancestor-AtHeight n a zero h le = let z : n - 0 ≡ n = omega arith in rw (z, div-one a) h
ancestor-AtHeight n a (suc k) h le =
    let e : n - k ≡ suc (n - suc k) = omega arith in
    let below : AtHeight (suc (n - suc k)) (ancestor a k) =
      rw (← e) (ancestor-AtHeight n a k h (omega arith)) in
    rw (ancestor-suc a k) (half-AtHeight (n - suc k) (ancestor a k) below)

one_at_root : (a : ℕ) → AtHeight 0 a → a ≡ 1
unfolding AtHeight
one_at_root a (low, high) = omega arith

-- The root is an ancestor of every node.
pub ancestor-root : (n a : ℕ) → AtHeight n a → ancestor a n ≡ 1
ancestor-root n a h =
    let z : n - n ≡ 0 = omega arith in
    one_at_root (ancestor a n) (rw z at (ancestor-AtHeight n a n h (omega arith)))

-- One node is at one height.
height_unique : (n m a : ℕ) → AtHeight n a → AtHeight m a → n ≤ m
unfolding AtHeight
height_unique n m a (l, h) (l', h') = elim (dec_lt m n) [
  | no le ↦ omega arith
  | yes lt ↦
      let p = pow-le-pow_right {n = 2} (omega arith) {i = suc m} {j = n} (omega arith) in
      absurd (omega arith)
]

pub ancestors_apart :
    (n a b k j : ℕ)
    → AtHeight n a
    → AtHeight n b
    → k ≤ n
    → j ≤ n
    → ancestor a k ≡ ancestor b j
    → k ≡ j
ancestors_apart n a b k j h h' le le' e =
    let x = ancestor-AtHeight n a k h le in
    let y : AtHeight (n - j) (ancestor a k) = rw e (ancestor-AtHeight n b j h' le') in
    let p = height_unique (n - k) (n - j) (ancestor a k) x y in
    let q = height_unique (n - j) (n - k) (ancestor a k) y x in omega arith

-- A node is not among the ancestors of its parent.
pub above_apart : (n a k : ℕ) → AtHeight (suc n) a → a ≢ ancestor (a / 2) k
unfolding AtHeight
above_apart n a k (low, high) e =
    let p = pow-le-pow_right {n = 2} (omega arith) {i = 0} {j = suc n} (omega arith) in
    let q = div-le_self (a / 2) (2 ^ k) in let pos : 1 ≤ a = omega arith in absurd (omega arith)

module _ {D : Type 0} (dram_access : D → ℕ → ℕ → AccessType → D) where
  -- Two states that differ at most in the stash and the tree.
  abbrev pub SameShape : Oram → Oram → Type 0
  SameShape o p =
      (p.tree_height ≡ o.tree_height)
      × (p.tree_leaves ≡ o.tree_leaves)
      × (p.tree_nodes ≡ o.tree_nodes)
      × (p.stashsz ≡ o.stashsz)
      × (p.num_of_blocks ≡ o.num_of_blocks)
      × (p.position_map ≡ o.position_map)

  pub load_path-shape :
      (s : ℕ) (o : Oram) (below : D) (cur : ℕ)
      → SameShape o (load_path dram_access s o below cur).0
        × ((load_path dram_access s o below cur).0.oram_tree ≡ o.oram_tree)
  unfolding load_path
  load_path-shape zero o below cur = ((refl, refl, refl, refl, refl, refl), refl)
  load_path-shape (suc s) o below cur = load_path-shape s _ _ (cur / 2)

  pub load_path_above :
      (s : ℕ) (o : Oram) (below : D) (cur j : ℕ)
      → s < j
      → (load_path dram_access s o below cur).0.stash j ≡ o.stash j
  unfolding load_path
  load_path_above zero o below cur j h = let e : (j == 0) ≡ false = ground arith in rw e refl
  load_path_above (suc s) o below cur j h =
      let e : (j == suc s) ≡ false = ground arith in
      load_path_above s _ _ (cur / 2) j (omega arith) ∙ rw e refl

  -- The node at height `j` of the path comes to place `j` of the stash.
  pub load_path-stash :
      (s : ℕ) (o : Oram) (below : D) (cur j : ℕ)
      → j ≤ s
      → (load_path dram_access s o below cur).0.stash j ≡ o.oram_tree (ancestor cur (s - j))
  unfolding load_path
  load_path-stash zero o below cur j h =
      let z : j ≡ 0 = omega arith in
      let e : (j == 0) ≡ true = ground arith in
      let d : 0 - j ≡ 0 = omega arith in rw (e, d, div-one cur) refl
  load_path-stash (suc s) o below cur j h = elim (Bool-cases (j == suc s)) [
    | inl top ↦
        let z : suc s - j ≡ 0 = ground arith in
        load_path_above s _ _ (cur / 2) j (ground arith) ∙ rw (top, z, div-one cur) refl
    | inr lower ↦
        let le : j ≤ s = ground arith in
        load_path-stash s _ _ (cur / 2) j le ∙ ap o.oram_tree (ancestor-half cur s j le)
  ]

  pub write_path-shape :
      (s : ℕ) (o : Oram) (below : D) (cur : ℕ)
      → SameShape o (write_path dram_access s o below cur).0
  unfolding write_path
  write_path-shape zero o below cur = (refl, refl, refl, refl, refl, refl)
  write_path-shape (suc s) o below cur = write_path-shape s _ _ (cur / 2)

  pub write_path_above :
      (s : ℕ) (o : Oram) (below : D) (cur j : ℕ)
      → s < j
      → (write_path dram_access s o below cur).0.stash j ≡ o.stash j
  unfolding write_path
  write_path_above zero o below cur j h = let e : (j == 0) ≡ false = ground arith in rw e refl
  write_path_above (suc s) o below cur j h =
      let e : (j == suc s) ≡ false = ground arith in
      write_path_above s _ _ (cur / 2) j (omega arith) ∙ rw e refl

  -- The places of the path are left empty.
  pub write_path_clears :
      (s : ℕ) (o : Oram) (below : D) (cur j : ℕ)
      → j ≤ s
      → (write_path dram_access s o below cur).0.stash j ≡ empty
  unfolding write_path
  write_path_clears zero o below cur j h = let e : (j == 0) ≡ true = ground arith in rw e refl
  write_path_clears (suc s) o below cur j h = elim (Bool-cases (j == suc s)) [
    | inl top ↦ write_path_above s _ _ (cur / 2) j (ground arith) ∙ rw top refl
    | inr lower ↦ write_path_clears s _ _ (cur / 2) j (ground arith)
  ]

  -- A node that is not on the path keeps its block.
  pub write_path_off :
      (s : ℕ) (o : Oram) (below : D) (cur node : ℕ)
      → ((j : ℕ) → j ≤ s → node ≢ ancestor cur (s - j))
      → (write_path dram_access s o below cur).0.oram_tree node ≡ o.oram_tree node
  unfolding write_path
  write_path_off zero o below cur node off =
      let ne : node ≢ cur = λ e. off 0 (omega arith) (e ∙ sym (div-one cur)) in
      let t : (node == cur) ≡ false = ground arith in rw t refl
  write_path_off (suc s) o below cur node off =
      let z : suc s - suc s ≡ 0 = omega arith in
      let ne : node ≢ cur = λ e. off (suc s) (omega arith) (e ∙ sym (rw (z, div-one cur) refl)) in
      let t : (node == cur) ≡ false = ground arith in
      write_path_off s _ _ (cur / 2) node
        (λ j h e. off j (omega arith) (e ∙ ancestor-half cur s j h))
      ∙ rw t refl

  -- The node at height `j` of the path gets what stands at place `j` of the stash.
  pub write_path-tree :
      (s : ℕ) (o : Oram) (below : D) (cur j : ℕ)
      → AtHeight s cur
      → j ≤ s
      → (write_path dram_access s o below cur).0.oram_tree (ancestor cur (s - j)) ≡ o.stash j
  unfolding write_path
  write_path-tree zero o below cur j at h =
      let z : j ≡ 0 = omega arith in
      let e : (cur == cur) ≡ true = ground arith in rw (z, div-one cur, e) refl
  write_path-tree (suc s) o below cur j at h = elim (Bool-cases (j == suc s)) [
    | inl top ↦
        let z : suc s - j ≡ 0 = ground arith in
        let here : ancestor cur (suc s - j) ≡ cur = rw (z, div-one cur) refl in
        let k : j ≡ suc s = ground arith in
        rw here (
          write_path_off s _ _ (cur / 2) cur (λ i _. above_apart s cur (s - i) at)
          ∙ put_self o.oram_tree cur (o.stash (suc s))
          ∙ ap o.stash (sym k))
    | inr lower ↦
        let le : j ≤ s = ground arith in
        rw (← ancestor-half cur s j le)
          (write_path-tree s _ _ (cur / 2) j (half-AtHeight s cur at) le ∙ rw lower refl)
  ]
