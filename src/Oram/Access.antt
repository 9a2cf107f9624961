-- ===== src/Oram/Access.antt =====
-- `oram_sim_t::access` in riscv/oramsim.cc: no block is lost, and only a full stash stops an access.
use mathlib.Core.Path.{subst}
use mathlib.Core.Option.{some-injective}
use native.Mathlib.Nat.{div-one, pow-suc, pow-le-pow_right}
use spike.Base.{
  ℕ, zero, suc, if◌then◌else◌, ◌+◌, ◌%◌, ◌^◌, ◌≤◌, ◌<◌, true, false, ◌≡◌, inl, inr, refl, ◌∙◌, ap,
  sym, arith, Bool-cases, Option-cases, ltb, leb, ◌==◌, none, some, none≢some, add64,
}
use spike.Mmu.{AccessType}
use spike.Oram.{
  Oram, empty, access, miss, get_block_id, block_is_in_stash, is_leaf, load_path,
  load_path_to_stash, reshuffle, stash_write_back, write_path,
}
use spike.Oram.Path.{init-home}
use spike.Oram.Reshuffle.{reshuffle-Reshuffled, reshuffle-some}
use spike.Oram.Tree.{AtHeight, load_path-shape, load_path_above}
use spike.Oram.{init, search_stash}
use spike.Oram.Invariant.{
  WellFormed, PathRead, meets, distinct, moved, load-PathRead, write-WellFormed, AtHeight-is_leaf,
}

-- The state that `init` gives: where the number of blocks is a power of two, every block is at home.
pub init-WellFormed :
    (log2 : ℕ → ℕ) (bucketsz stashsz mem_mb cacheline_sz : ℕ)
    → let o = init log2 bucketsz stashsz mem_mb cacheline_sz in
      o.num_of_blocks ≡ 2 ^ log2 o.num_of_blocks
      → o.num_of_blocks < empty
      → o.tree_height + 1 < stashsz
      → WellFormed o
unfolding init AtHeight
init-WellFormed log2 bucketsz stashsz mem_mb cacheline_sz exact few room =
    let o = init log2 bucketsz stashsz mem_mb cacheline_sz in
    let k = o.tree_height in
    let p = pow-suc 2 k in
    let step : k + 1 ≡ suc k = omega arith in
    record {
      leaves_lem = refl;
      nodes_lem = rw step refl;
      room = room;
      few = few;
      position =
          λ b h. let t : ltb b (2 ^ k) ≡ true = ground arith in rw t (omega arith, omega arith);
      cleared = λ i h. let t : ltb i stashsz ≡ true = ground arith in rw t refl;
      home = λ b h.
          let at = init-home log2 bucketsz stashsz mem_mb cacheline_sz b (omega arith) in
          inr (0, omega arith, ap o.oram_tree (div-one (o.position_map b)) ∙ at.1);
    }

search_stash-empty :
    (n i size bid : ℕ)
    → i + n ≤ size
    → bid < empty
    → search_stash n i (λ j. if ltb j size then empty else 0) bid ≡ false
unfolding search_stash
search_stash-empty zero i size bid h ne = refl
search_stash-empty (suc n) i size bid h ne =
    let t : ltb i size ≡ true = ground arith in
    let u : (empty == bid) ≡ false = ground arith in
    rw (t, u) (search_stash-empty n (suc i) size bid (omega arith) ne)

module _ {D : Type 0} (dram_access : D → ℕ → ℕ → AccessType → D) where
  -- The write-back of a path that was read.
  stash_write_back-WellFormed :
      (p o' : Oram) (below below' : D) (leaf bid : ℕ)
      → PathRead dram_access p leaf bid
      → stash_write_back dram_access p below leaf bid (p.position_map bid) ≡ some (o', below')
      → WellFormed o'
  unfolding stash_write_back
  stash_write_back-WellFormed p o' below below' leaf bid r e =
      let new_leaf = p.position_map bid in
      let (c, m) = meets p leaf new_leaf r.old (r.position bid r.known) in
      elim (Option-cases (reshuffle p leaf bid new_leaf)) [
        | inl stuck ↦ absurd (none≢some (rw (stuck, stash_write_back) at e))
        | inr (st, found) ↦
            let done = some-injective _ _ (rw (found, stash_write_back) at e) in
            let kept =
              reshuffle-Reshuffled p leaf bid new_leaf c st
                (distinct bid p.num_of_blocks r.known r.few) r.room m found in
            subst WellFormed (ap (λ (q : Oram × D). q.0) done)
              (write-WellFormed dram_access p below leaf bid st r kept)
      ]

  stash_write_back-some :
      (p : Oram) (below : D) (leaf bid i : ℕ)
      → PathRead dram_access p leaf bid
      → p.tree_height < i
      → i < p.stashsz
      → p.stash i ≡ empty
      → (o' : Oram) × (below' : D) × (stash_write_back dram_access p below leaf bid
            (p.position_map bid)
          ≡ some (o', below'))
  unfolding stash_write_back
  stash_write_back-some p below leaf bid i r above small free =
      let new_leaf = p.position_map bid in
      let (c, m) = meets p leaf new_leaf r.old (r.position bid r.known) in
      let (st, found) =
        reshuffle-some p leaf bid new_leaf c i (distinct bid p.num_of_blocks r.known r.few) m above
          small free in
      let written = write_path dram_access p.tree_height (record p { stash = st }) below leaf in
      (written.0, written.1, rw (found, stash_write_back) refl)

  -- A miss reads the path of a block and writes it back.
  miss_reads :
      (o : Oram) (below : D) (bid random : ℕ)
      → WellFormed o
      → bid < o.num_of_blocks
      → let read =
          load_path dram_access o.tree_height
            (moved dram_access o bid random)
            below
            (o.position_map bid) in
        miss dram_access o below bid random
        ≡ stash_write_back dram_access read.0 read.1
            (o.position_map bid)
            bid
            (read.0.position_map bid)
  unfolding miss load_path_to_stash moved
  miss_reads o below bid random w known =
      let leaf = o.position_map bid in
      let start = moved dram_access o bid random in
      let on : is_leaf start leaf ≡ true =
        AtHeight-is_leaf dram_access start leaf w.leaves_lem w.nodes_lem (w.position bid known) in
      let ((hh, ll, nn, ss, bb, pp), tt) =
        load_path-shape dram_access o.tree_height start below leaf in
      let self : (bid == bid) ≡ true = ground arith in
      let given : (load_path dram_access o.tree_height start below leaf).0.position_map bid
          ≡ random % o.tree_leaves + o.tree_leaves =
        ap (λ (f : ℕ → ℕ). f bid) pp ∙ rw self refl in
      rw given (rw (on, is_leaf, load_path_to_stash, miss) refl)

  miss-WellFormed :
      (o o' : Oram) (below below' : D) (bid random : ℕ)
      → WellFormed o
      → bid < o.num_of_blocks
      → miss dram_access o below bid random ≡ some (o', below')
      → WellFormed o'
  miss-WellFormed o o' below below' bid random w known e =
      let read =
        load_path dram_access o.tree_height (moved dram_access o bid random) below
          (o.position_map bid) in
      stash_write_back-WellFormed read.0 o' read.1 below' (o.position_map bid) bid
        (load-PathRead dram_access o below bid random w known)
        (sym (miss_reads o below bid random w known) ∙ e)

  miss-some :
      (o : Oram) (below : D) (bid random i : ℕ)
      → WellFormed o
      → bid < o.num_of_blocks
      → o.tree_height < i
      → i < o.stashsz
      → o.stash i ≡ empty
      → (o' : Oram) × (below' : D) × (miss dram_access o below bid random ≡ some (o', below'))
  unfolding moved
  miss-some o below bid random i w known above small free =
      let leaf = o.position_map bid in
      let start = moved dram_access o bid random in
      let read = load_path dram_access o.tree_height start below leaf in
      let ((hh, ll, nn, ss, bb, pp), tt) =
        load_path-shape dram_access o.tree_height start below leaf in
      let (o', below', e) =
        stash_write_back-some read.0 read.1 leaf bid i
          (load-PathRead dram_access o below bid random w known) (rw hh above) (rw ss small)
          (load_path_above dram_access o.tree_height start below leaf i above ∙ free) in
      (o', below', miss_reads o below bid random w known ∙ e)

  counted-WellFormed :
      (o : Oram) (accesses hits : ℕ)
      → WellFormed o
      → WellFormed (record o { oram_accesses = accesses; stash_hit = hits })
  counted-WellFormed o accesses hits w = record {
    leaves_lem = w.leaves_lem;
    nodes_lem = w.nodes_lem;
    room = w.room;
    few = w.few;
    position = w.position;
    cleared = w.cleared;
    home = w.home;
  }

  -- An access to the oblivious RAM that is served keeps it well formed: every position is a leaf,
  -- the places of the stash for a path are empty, and every block stands somewhere in the stash or
  -- in a node on the path to its position; further copies of a block are not ruled out.
  pub access-WellFormed :
      (o o' : Oram) (below below' : D) (addr random : ℕ)
      → WellFormed o
      → access dram_access o below addr random ≡ some (o', below')
      → WellFormed o'
  unfolding access
  access-WellFormed o o' below below' addr random w e =
      let bid = get_block_id o addr in
      elim (Bool-cases (ltb bid o.num_of_blocks)) [
        | inl known ↦ elim (Bool-cases (block_is_in_stash o bid)) [
          | inl hit ↦
              subst WellFormed
                (ap (λ (q : Oram × D). q.0) (some-injective _ _ (rw (known, hit, access) at e)))
                (counted-WellFormed o (add64 o.oram_accesses 1) (add64 o.stash_hit 1) w)
          | inr missed ↦
              miss-WellFormed (record o { oram_accesses = add64 o.oram_accesses 1 }) o' below below'
                bid random (counted-WellFormed o (add64 o.oram_accesses 1) o.stash_hit w)
                (ground arith) (rw (known, missed, access) at e)
        ]
        | inr unknown ↦ absurd (none≢some (rw (unknown, access) at e))
      ]

  -- Where the simulator is well formed and a place of the stash above the path is empty, an access to
  -- a block that it knows is served.
  pub access-some :
      (o : Oram) (below : D) (addr random i : ℕ)
      → WellFormed o
      → get_block_id o addr < o.num_of_blocks
      → o.tree_height < i
      → i < o.stashsz
      → o.stash i ≡ empty
      → (o' : Oram) × (below' : D) × (access dram_access o below addr random ≡ some (o', below'))
  unfolding access
  access-some o below addr random i w known above small free =
      let bid = get_block_id o addr in
      let t : ltb bid o.num_of_blocks ≡ true = ground arith in
      elim (Bool-cases (block_is_in_stash o bid)) [
        | inl hit ↦ (
          record o { oram_accesses = add64 o.oram_accesses 1; stash_hit = add64 o.stash_hit 1 },
          below,
          rw (t, hit, access) refl,
        )
        | inr missed ↦
            let (o', below', e) =
              miss-some (record o { oram_accesses = add64 o.oram_accesses 1 }) below bid random i
                (counted-WellFormed o (add64 o.oram_accesses 1) o.stash_hit w) known above small
                free in
            (o', below', rw (t, missed, access) e)
      ]

  low_node : (o : Oram) → 0 < o.tree_leaves → is_leaf o 0 ≡ false
  unfolding is_leaf
  low_node o h = let e : leb o.tree_leaves 0 ≡ false = ground arith in rw e refl

  -- A position that is no leaf fails the check of the path.
  miss_no_leaf :
      (o : Oram) (below : D) (bid random : ℕ)
      → is_leaf o (o.position_map bid) ≡ false
      → miss dram_access o below bid random ≡ none
  unfolding miss load_path_to_stash is_leaf
  miss_no_leaf o below bid random off = rw (off, is_leaf, load_path_to_stash, miss) refl

  -- Where the number of blocks is no power of two, the blocks from the number of the leaves on have no
  -- leaf after `init`: their first access fails the check of the position.
  pub init-unplaced :
      (log2 : ℕ → ℕ) (bucketsz stashsz mem_mb cacheline_sz : ℕ) (below : D) (addr random : ℕ)
      → let o = init log2 bucketsz stashsz mem_mb cacheline_sz in
        o.tree_leaves ≤ get_block_id o addr
        → get_block_id o addr < empty
        → access dram_access o below addr random ≡ none
  unfolding init access
  init-unplaced log2 bucketsz stashsz mem_mb cacheline_sz below addr random high low =
      let o = init log2 bucketsz stashsz mem_mb cacheline_sz in
      let bid = get_block_id o addr in
      let some_leaf =
        pow-le-pow_right {n = 2} (omega arith) {i = 0} {j = o.tree_height} (omega arith) in
      elim (Bool-cases (ltb bid o.num_of_blocks)) [
        | inl known ↦
            let missed : block_is_in_stash o bid ≡ false =
              search_stash-empty stashsz 0 stashsz bid (omega arith) low in
            let far : ltb bid o.tree_leaves ≡ false = ground arith in
            rw (known, missed, access)
              (miss_no_leaf (record o { oram_accesses = add64 o.oram_accesses 1 }) below bid random
                (rw far
                  (low_node (record o { oram_accesses = add64 o.oram_accesses 1 }) (omega arith))))
        | inr unknown ↦ rw (unknown, access) refl
      ]
