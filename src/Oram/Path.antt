-- ===== src/Oram/Path.antt =====
-- The tree of riscv/oramsim.cc: paths from a leaf to the root.
use native.Mathlib.Nat.{pow-suc, pow-succ', div-div-eq-div-mul}
use native.Mathlib.Decide.{dec_lt}
use spike.Base.{
  ◌%◌, ℕ, zero, suc, ◌+◌, ◌-◌, ◌*◌, ◌/◌, ◌^◌, ◌≤◌, ◌<◌, true, false, ◌≡◌, inl, inr, refl, ◌∙◌, ap,
  sym, arith, Bool-cases, ltb, leb, ◌==◌, some,
}
use spike.Oram.{init, is_leaf, meeting_height}

-- The ancestor of a node `k` levels up.
abbrev pub ancestor : ℕ → ℕ → ℕ
ancestor node k = node / 2 ^ k

pub ancestor-half : (node n j : ℕ) → j ≤ n → ancestor (node / 2) (n - j) ≡ ancestor node (suc n - j)
ancestor-half node n j h =
    let e : suc n - j ≡ suc (n - j) = omega arith in
    rw (e, pow-succ' 2 (n - j), ← div-div-eq-div-mul node 2 (2 ^ (n - j))) refl

-- Two nodes at height `n` of the tree have a common ancestor: the search finds one, at a height `h`
-- up to `n`, and no common ancestor, such as one at height `j`, is nearer to the leaves.
pub meeting_height_nearest :
    (n a b j : ℕ)
    → 2 ^ n ≤ a
    → a < 2 ^ (n + 1)
    → 2 ^ n ≤ b
    → b < 2 ^ (n + 1)
    → j ≤ n
    → ancestor a (n - j) ≡ ancestor b (n - j)
    → (h : ℕ) × (meeting_height n a b ≡ some h)
      × (h ≤ n)
      × (j ≤ h)
      × (ancestor a (n - h) ≡ ancestor b (n - h))
unfolding meeting_height
meeting_height_nearest zero a b j la ua lb ub k e =
    let same : a ≡ b = omega arith in
    let t : (a == b) ≡ true = ground arith in rw t (0, refl, omega arith, k, ap (λ v. v / 1) same)
meeting_height_nearest (suc n) a b j la ua lb ub k e = elim (Bool-cases (a == b)) [
  | inl same ↦
      let eq : a ≡ b = ground arith in
      rw same (suc n, refl, omega arith, k, ap (λ v. ancestor v (suc n - suc n)) eq)
  | inr apart ↦ elim (dec_lt j (suc n)) [
    | no top ↦
        let z : suc n - j ≡ 0 = omega arith in
        let same : a / 1 ≡ b / 1 = rw z at e in absurd (ground arith)
    | yes below ↦
        let p = pow-suc 2 n in
        let q = pow-suc 2 (n + 1) in
        let r : suc n + 1 ≡ suc (n + 1) = omega arith in
        let ua' : a < 2 ^ suc (n + 1) = rw (← r) ua in
        let ub' : b < 2 ^ suc (n + 1) = rw (← r) ub in
        let up = ancestor-half a n j (omega arith) ∙ e ∙ sym (ancestor-half b n j (omega arith)) in
        let (h, found, small, near, meet) =
          meeting_height_nearest n (a / 2) (b / 2) j (omega arith) (omega arith) (omega arith)
            (omega arith) (omega arith) up in
        rw apart (
          h,
          found,
          omega arith,
          near,
          sym (ancestor-half a n h small) ∙ meet ∙ ancestor-half b n h small,
        )
  ]
]

-- After `init` every block that has a leaf is at home: its position is a leaf of the tree, and that
-- leaf holds the block.
pub init-home :
    (log2 : ℕ → ℕ) (bucketsz stashsz mem_mb cacheline_sz bid : ℕ)
    → bid < (init log2 bucketsz stashsz mem_mb cacheline_sz).tree_leaves
    → let o = init log2 bucketsz stashsz mem_mb cacheline_sz in
      (is_leaf o (o.position_map bid) ≡ true) × (o.oram_tree (o.position_map bid) ≡ bid)
unfolding init is_leaf
init-home log2 bucketsz stashsz mem_mb cacheline_sz bid h =
    let k = log2 (mem_mb * 1024 * 1024 % 2 ^ 64 / cacheline_sz / bucketsz) in
    let twice : 2 ^ (k + 1) ≡ 2 ^ k * 2 = rw (add-one k) (pow-suc 2 k) in
    let mapped : ltb bid (2 ^ k) ≡ true = ground arith in
    let below : leb (2 ^ k + bid) (2 ^ (k + 1) - 1) ≡ true = ground arith in
    let above : leb (2 ^ k) (2 ^ k + bid) ≡ true = ground arith in
    let some_node : (2 ^ k + bid == 0) ≡ false = ground arith in
    let no_inner : ltb (2 ^ k + bid) (2 ^ k) ≡ false = ground arith in
    let node : ltb (2 ^ k + bid) (2 * 2 ^ k) ≡ true = ground arith in
    (rw (mapped, above, below) refl, rw (mapped, some_node, no_inner, node) (omega arith))
  where
    add-one : (k : ℕ) → k + 1 ≡ suc k
    add-one k = omega arith
