-- ===== src/Mmu/Walk.antt =====
-- The page-table walk of riscv/mmu.cc against the rules of the privileged architecture.
use spike.Base.{
  ℕ, zero, suc, ◌*◌, ◌^◌, ◌<◌, bit_and, Bool, true, false, ◌≡◌, ◌≢◌, ◌⊎◌, ◌↔◌, inl, inr, refl, ◌∙◌,
  ap, arith, Bool-cases, ◌==◌, truth, shr, shl64, all_ones, bit, bit-and, bit-le-one, bit_ext,
  bit-pow_self, bit-pow_ne, bit-zero, and_mask, bit_lem,
}
use spike.Mmu.{
  AccessType, load, store, fetch, Memory, Request, addr_is_mem, pte_addr, read_pte, pte_table,
  pte_wrong_mode, pte_reserved, pte_denies, leaf_value, walk_leaf, walk_levels, mark_accessed,
}

-- The test of one digit.
digit_zero : (k x : ℕ) → bit x k ≡ 0 → bit_and x (1 * 2 ^ k) ≡ 0
digit_zero k x e = bit_ext _ _ λ i. elim (Bool-cases (i == k)) [
  | inl same ↦
      let at : i ≡ k = ground arith in rw at (omega (arith, bit-and x (1 * 2 ^ k) k, bit-zero k))
  | inr apart ↦ omega (arith, bit-and x (1 * 2 ^ k) i, bit-zero i, bit-pow_ne k i (ground arith))
]

digit_one : (k x : ℕ) → bit x k ≡ 1 → bit_and x (1 * 2 ^ k) ≡ 1 * 2 ^ k
digit_one k x e = bit_ext _ _ λ i. elim (Bool-cases (i == k)) [
  | inl same ↦
      let at : i ≡ k = ground arith in
      rw at (omega (arith, bit-and x (1 * 2 ^ k) k, bit-pow_self k))
  | inr apart ↦ omega (arith, bit-and x (1 * 2 ^ k) i, bit-zero i, bit-pow_ne k i (ground arith))
]

digit_test : (k x : ℕ) → 0 < 2 ^ k → truth (bit_and x (1 * 2 ^ k)) ≡ (bit x k == 1)
digit_test k x pos = elim (Bool-cases (bit x k == 1)) [
  | inl one ↦
      let e = digit_one k x (ground arith) in
      let t : truth (1 * 2 ^ k) ≡ true = ground arith in rw (one, e) t
  | inr unset ↦
      let le = bit-le-one x k in
      let z : bit x k ≡ 0 = ground arith in let e = digit_zero k x z in rw (unset, e) refl
]

-- The permission of a leaf PTE `pte` (V, R, W, X and U are its digits 0 to 4): it is valid and not
-- write-only; user mode needs U, and supervisor mode needs U to be clear where PUM is set; a fetch
-- needs X, a load R, or X where MXR is set, a store R and W.
abbrev pub AllowsMode : Request → ℕ → Type 0
AllowsMode r pte =
    ((bit pte 4 ≡ 1) × ((r.supervisor ≡ false) ⊎ (r.pum ≡ false)))
    ⊎ ((bit pte 4 ≡ 0) × (r.supervisor ≡ true))

unfoldable pub AllowsAccess : ℕ → Bool → AccessType → Type 0
AllowsAccess pte mxr fetch = bit pte 3 ≡ 1
AllowsAccess pte mxr load = (bit pte 1 ≡ 1) ⊎ ((mxr ≡ true) × (bit pte 3 ≡ 1))
AllowsAccess pte mxr store = (bit pte 1 ≡ 1) × (bit pte 2 ≡ 1)

abbrev pub Allows : Request → ℕ → Type 0
Allows r pte =
    (bit pte 0 ≡ 1)
    × ((bit pte 1 ≡ 1) ⊎ (bit pte 2 ≡ 0))
    × AllowsMode r pte
    × AllowsAccess pte r.mxr r.type

-- The chain of PTEs from the table at `base`, with `n` levels left, down to the leaf PTE `pte` at
-- address `at`, below which `k` levels are left. Every PTE on the way is in memory, and each but the
-- last points to a table: its R, W and X are clear and V is set.
pub data Chain (r : Request) (memory : Memory) : ℕ → ℕ → ℕ → ℕ → ℕ → Type 0 where
  leaf_pte :
      (k base : ℕ)
      → addr_is_mem memory (pte_addr r base (k * r.ptidxbits)) ≡ true
      → Chain r memory
          (suc k)
          base
          k
          (pte_addr r base (k * r.ptidxbits))
          (read_pte r memory (pte_addr r base (k * r.ptidxbits)))
  table_pte :
      (n base k at pte : ℕ)
      → addr_is_mem memory (pte_addr r base (n * r.ptidxbits)) ≡ true
      → bit_and (read_pte r memory (pte_addr r base (n * r.ptidxbits))) 15 ≡ 1
      → Chain r memory n
          (shl64 (shr (read_pte r memory (pte_addr r base (n * r.ptidxbits))) 10) 12)
          k
          at
          pte
      → Chain r memory (suc n) base k at pte

-- The tests of the code on a leaf PTE are those rules.
module _ (r : Request) (pte : ℕ) where
  right_mode : (pte_wrong_mode pte r.supervisor r.pum ≡ false) ↔ AllowsMode r pte
  unfolding pte_wrong_mode
  right_mode = rw (digit_test 4 pte (omega arith)) (let le = bit-le-one pte 4 in ground arith)

  valid_leaf : (pte_reserved pte ≡ false) ↔ ((bit pte 0 ≡ 1) × ((bit pte 1 ≡ 1) ⊎ (bit pte 2 ≡ 0)))
  unfolding pte_reserved
  valid_leaf =
      rw
        (
          digit_test 0 pte (omega arith),
          digit_test 1 pte (omega arith),
          digit_test 2 pte (omega arith),
        )
        (let le = bit-le-one pte 2 in ground arith)

grants :
    (pte : ℕ) (mxr : Bool) (type : AccessType)
    → (pte_denies pte type mxr ≡ false) ↔ AllowsAccess pte mxr type
unfolding pte_denies AllowsAccess
grants pte mxr fetch = rw (digit_test 3 pte (omega arith)) (ground arith)
grants pte mxr load =
    rw (digit_test 1 pte (omega arith), digit_test 3 pte (omega arith)) (ground arith)
grants pte mxr store =
    rw (digit_test 1 pte (omega arith), digit_test 2 pte (omega arith)) (ground arith)

table_digits : (pte : ℕ) → bit_and pte 15 ≡ 1 → (bit pte 1 ≡ 0) × (bit pte 3 ≡ 0)
table_digits pte e =
    let m = and_mask 4 pte in (omega (arith, bit_lem 1 pte), omega (arith, bit_lem 3 pte))

allowed_digit :
    (pte : ℕ) (mxr : Bool) (type : AccessType)
    → AllowsAccess pte mxr type
    → (bit pte 1 ≡ 1) ⊎ (bit pte 3 ≡ 1)
unfolding AllowsAccess
allowed_digit pte mxr fetch a = inr a
allowed_digit pte mxr load (inl a) = inl a
allowed_digit pte mxr load (inr (_, a)) = inr a
allowed_digit pte mxr store (a, _) = inl a

-- A leaf that the rules allow is no table.
leaf-not_table : (r : Request) (pte : ℕ) → Allows r pte → pte_table pte ≡ false
unfolding pte_table
leaf-not_table r pte (v, w, m, a) = elim (Bool-cases (bit_and pte 15 == 1)) [
  | inr e ↦ e
  | inl e ↦
      let (z1, z3) = table_digits pte (ground arith) in
      absurd (no_digit z1 z3 (allowed_digit pte r.mxr r.type a))
]
  where
    no_digit : bit pte 1 ≡ 0 → bit pte 3 ≡ 0 → (bit pte 1 ≡ 1) ⊎ (bit pte 3 ≡ 1) → ⊥
    no_digit z1 z3 (inl one) = omega arith
    no_digit z1 z3 (inr one) = omega arith

-- What `walk_leaf` gives for a PTE that the rules allow, and for one that they do not.
walk_leaf-Allows :
    (r : Request) (memory : Memory) (at pte shift : ℕ)
    → Allows r pte
    → walk_leaf r memory at pte shift ≡ (leaf_value r pte shift, mark_accessed r memory at)
unfolding walk_leaf
walk_leaf-Allows r memory at pte shift (v, w, m, a) =
    let (_, m2) = right_mode r pte in
    let (_, v2) = valid_leaf r pte in
    let (_, a2) = grants pte r.mxr r.type in rw (m2 m, v2 (v, w), a2 a) refl

walk_leaf-cases :
    (r : Request) (memory : Memory) (at pte shift : ℕ)
    → (walk_leaf r memory at pte shift ≡ (all_ones, memory)) ⊎ Allows r pte
unfolding walk_leaf
walk_leaf-cases r memory at pte shift = elim (Bool-cases (pte_wrong_mode pte r.supervisor r.pum)) [
  | inl e ↦ inl (rw e refl)
  | inr mode ↦ elim (Bool-cases (pte_reserved pte)) [
    | inl e ↦ inl (rw (mode, e) refl)
    | inr good ↦ elim (Bool-cases (pte_denies pte r.type r.mxr)) [
      | inl e ↦ inl (rw (mode, good, e) refl)
      | inr access ↦
          let (m1, _) = right_mode r pte in
          let (v1, _) = valid_leaf r pte in
          let (a1, _) = grants pte r.mxr r.type in
          let (v, w) = v1 good in inr (v, w, m1 mode, a1 access)
    ]
  ]
]

is_table : (pte : ℕ) → pte_table pte ≡ true → bit_and pte 15 ≡ 1
unfolding pte_table
is_table pte e = ground arith

table_lem : (pte : ℕ) → bit_and pte 15 ≡ 1 → pte_table pte ≡ true
unfolding pte_table
table_lem pte e = ground arith

-- A walk that ends in an address, not in the -1 of a fault, went down a chain of tables in memory to
-- a leaf PTE that allows the access by the rules of the architecture; the address is made of the
-- leaf's page number, with the low index bits of the virtual address for a superpage, and memory
-- changes only by the accessed and dirty bits of that leaf.
pub walk_levels-Chain :
    (r : Request) (memory : Memory) (n base : ℕ)
    → (walk_levels r memory n base).0 ≢ all_ones
    → (k : ℕ) × (at : ℕ) × (pte : ℕ) × Chain r memory n base k at pte
      × Allows r pte
      × (walk_levels r memory n base
          ≡ (leaf_value r pte (k * r.ptidxbits), mark_accessed r memory at))
unfolding walk_levels
walk_levels-Chain r memory zero base ne = absurd (ne refl)
walk_levels-Chain r memory (suc n) base ne =
    let at = pte_addr r base (n * r.ptidxbits) in
    let pte = read_pte r memory at in
    elim (Bool-cases (addr_is_mem memory at)) [
      | inr out ↦ absurd (ne (rw out refl))
      | inl inside ↦ elim (Bool-cases (pte_table pte)) [
        | inl table ↦
            let next = shl64 (shr pte 10) 12 in
            let down : walk_levels r memory (suc n) base ≡ walk_levels r memory n next =
              rw (inside, table) refl in
            let (k, at', leaf, chain, allows, e) =
              walk_levels-Chain r memory n next (λ z. ne (ap (λ w. w.0) down ∙ z)) in
            (
              k,
              at',
              leaf,
              table_pte n base k at' leaf inside (is_table pte table) chain,
              allows,
              down ∙ e,
            )
        | inr leaf ↦
            let here : walk_levels r memory (suc n) base
                ≡ walk_leaf r memory at pte (n * r.ptidxbits) =
              rw (inside, leaf) refl in
            elim (walk_leaf-cases r memory at pte (n * r.ptidxbits)) [
              | inl fault ↦ absurd (ne (ap (λ w. w.0) (here ∙ fault)))
              | inr allows ↦ (
                n,
                at,
                pte,
                leaf_pte n base inside,
                allows,
                here ∙ walk_leaf-Allows r memory at pte (n * r.ptidxbits) allows,
              )
            ]
      ]
    ]

-- The other way round: where the tables in memory lead from the root to a leaf PTE that allows the
-- access, the walk gives its address and sets its accessed and dirty bits.
pub Chain-walk_levels :
    (r : Request) (memory : Memory) (n base k at pte : ℕ)
    → Chain r memory n base k at pte
    → Allows r pte
    → walk_levels r memory n base ≡ (leaf_value r pte (k * r.ptidxbits), mark_accessed r memory at)
unfolding walk_levels
Chain-walk_levels r memory _ _ _ _ _ (leaf_pte k base inside) allows =
    rw (inside, leaf-not_table r _ allows) (walk_leaf-Allows r memory _ _ _ allows)
Chain-walk_levels r memory _ _ _ _ _ (table_pte n base k at pte inside table chain) allows =
    rw (inside, table_lem _ table) (Chain-walk_levels r memory n _ k at pte chain allows)
