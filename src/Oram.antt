-- ===== src/Oram.antt =====
-- riscv/oramsim.h and riscv/oramsim.cc: the simulator of a tree-based oblivious RAM. `DEBUG` is 0, so
-- the messages are left out, and so are the parsing of the configuration string and the statistics
-- that are printed. A failed `assert` is `none`.
pub mod Path
pub mod Access
pub mod Home
pub mod Invariant
pub mod Reshuffle
pub mod Stash
pub mod Tree
use spike.Base.{
  ℕ, zero, suc, ◌+◌, ◌-◌, ◌*◌, ◌/◌, ◌%◌, ◌^◌, Bool, true, false, ◌&&◌, ◌||◌, not, ltb, leb, ◌==◌,
  if◌then◌else◌, Option, none, some, add64, sub64, mul64, all_ones,
}
use spike.Mmu.{AccessType, load, store}

-- `oram_sim_t`, less its handler. The two maps read 0 at a key that is not there, as `operator[]` does.
pub record Oram : Type 0 where
  pub bucketsz : ℕ
  pub stashsz : ℕ
  pub mem_mb : ℕ
  pub cacheline_sz : ℕ
  pub num_of_blocks : ℕ
  pub stash : ℕ → ℕ
  pub position_map : ℕ → ℕ
  pub tree_height : ℕ
  pub tree_leaves : ℕ
  pub tree_nodes : ℕ
  pub oram_tree : ℕ → ℕ
  pub oram_accesses : ℕ
  pub stash_hit : ℕ
  pub stash_miss : ℕ

-- The mark of an empty place, (uint64_t) -1.
abbrev pub empty : ℕ
empty = all_ones

abbrev pub put : (ℕ → ℕ) → ℕ → ℕ → ℕ → ℕ
put f i v j = if j == i then v else f j

-- `oram_sim_t::init`, with the height that `log2` of the C library gives for the number of blocks.
unfoldable pub init : (ℕ → ℕ) → ℕ → ℕ → ℕ → ℕ → Oram
init log2 bucketsz stashsz mem_mb cacheline_sz =
    let blocks = mem_mb * 1024 * 1024 % 2 ^ 64 / cacheline_sz / bucketsz in
    let leaves = 2 ^ log2 blocks in
    record {
      bucketsz = bucketsz;
      stashsz = stashsz;
      mem_mb = mem_mb;
      cacheline_sz = cacheline_sz;
      num_of_blocks = blocks;
      stash = λ i. if ltb i stashsz then empty else 0;
      position_map = λ bid. if ltb bid leaves then leaves + bid else 0;
      tree_height = log2 blocks;
      tree_leaves = leaves;
      tree_nodes = 2 ^ (log2 blocks + 1) - 1;
      oram_tree = λ node.
          if node == 0
          then 0
          else if ltb node leaves
          then empty
          else if ltb node (2 * leaves)
          then node - leaves
          else 0;
      oram_accesses = 0;
      stash_hit = 0;
      stash_miss = 0;
    }

-- `block_is_in_stash`, over `n` places from `i` on.
pub search_stash : ℕ → ℕ → (ℕ → ℕ) → ℕ → Bool
search_stash zero i stash bid = false
search_stash (suc n) i stash bid =
    let rest = search_stash n (suc i) stash bid in if stash i == bid then true else rest

unfoldable pub block_is_in_stash : Oram → ℕ → Bool
unfolding search_stash
block_is_in_stash o bid = search_stash o.stashsz 0 o.stash bid

unfoldable pub get_block_id : Oram → ℕ → ℕ
get_block_id o addr = sub64 addr 0x80000000 / o.cacheline_sz

unfoldable pub block_id_to_addr : Oram → ℕ → ℕ
block_id_to_addr o bid = add64 (mul64 bid o.cacheline_sz) 0x80000000

unfoldable pub is_leaf : Oram → ℕ → Bool
is_leaf o leaf = leb o.tree_leaves leaf && leb leaf o.tree_nodes

-- The loop of `stash_write_back` for the nearest ancestor, with `n` heights left below `cur_height`:
-- the height at which the two paths meet; `none` where they do not.
unfoldable pub meeting_height : ℕ → ℕ → ℕ → Option ℕ
meeting_height zero new_node node = if new_node == node then some 0 else none
meeting_height (suc n) new_node node =
    let above = meeting_height n (new_node / 2) (node / 2) in
    if new_node == node then some (suc n) else above

-- The removal of the first copy of a block from the stash.
pub remove_block : ℕ → ℕ → (ℕ → ℕ) → ℕ → ℕ → ℕ
remove_block zero i stash bid = stash
remove_block (suc n) i stash bid =
    let rest = remove_block n (suc i) stash bid in
    if stash i == bid then put stash i empty else rest

-- The search from a height down for an empty place, and the stash with the block in it.
pub place_below : ℕ → (ℕ → ℕ) → ℕ → Option (ℕ → ℕ)
place_below zero stash bid = if stash zero == empty then some (put stash zero bid) else none
place_below (suc n) stash bid =
    let lower = place_below n stash bid in
    if stash (suc n) == empty then some (put stash (suc n) bid) else lower

-- The inner loop that brings an evicted block into the path: the first empty place below the leaf
-- gets it. The place that the block comes from keeps it, as the code compares where it means to assign.
pub copy_evicted : ℕ → ℕ → (ℕ → ℕ) → ℕ → ℕ → ℕ
copy_evicted zero ssid stash bid = stash
copy_evicted (suc n) ssid stash bid =
    let rest = copy_evicted n (suc ssid) stash bid in
    if stash ssid == empty then put stash ssid bid else rest

pub bring_evicted : ℕ → ℕ → Oram → ℕ → (ℕ → ℕ) → ℕ → ℕ
unfolding copy_evicted
bring_evicted zero sid o leaf stash = stash
bring_evicted (suc n) sid o leaf stash =
    let stash' =
      if o.position_map (stash sid) == leaf
      then copy_evicted o.tree_height 0 stash (stash sid)
      else stash in
    bring_evicted n (suc sid) o leaf stash'

-- The block that stays in the stash; `none` is the overflow.
pub keep_block : ℕ → ℕ → ℕ → (ℕ → ℕ) → ℕ → Option (ℕ → ℕ)
keep_block zero sid stashsz stash bid = some stash
keep_block (suc n) sid stashsz stash bid =
    let rest = keep_block n (suc sid) stashsz stash bid in
    if stash sid == empty
    then some (put stash sid bid)
    else if sid == stashsz - 1
    then none
    else rest

-- The stash after the steps of `stash_write_back` that come before the path is written.
unfoldable pub reshuffle : Oram → ℕ → ℕ → ℕ → Option (ℕ → ℕ)
unfolding remove_block place_below bring_evicted keep_block meeting_height
reshuffle o leaf bid new_leaf = elim (meeting_height o.tree_height new_leaf leaf) [
  | none ↦ none
  | some height ↦
      let removed = remove_block o.stashsz 0 o.stash bid in
      let upper = o.stashsz - (o.tree_height + 1) in
      elim (place_below height removed bid) [
        | some placed ↦ some (bring_evicted upper (o.tree_height + 1) o leaf placed)
        | none ↦
            keep_block upper (o.tree_height + 1) o.stashsz
              (bring_evicted upper (o.tree_height + 1) o leaf removed) bid
      ]
]

-- The memory below, whose controller is not part of this model: an access is an address, a size and a
-- kind.
module _ {D : Type 0} (dram_access : D → ℕ → ℕ → AccessType → D) where
  -- `load_path_to_stash`, with the heights `s` to 0 left.
  pub load_path : ℕ → Oram → D → ℕ → Oram × D
  unfolding block_id_to_addr
  load_path zero o below cur = (
    record o { stash = put o.stash zero (o.oram_tree cur) },
    dram_access below (block_id_to_addr o (o.oram_tree cur)) o.cacheline_sz load,
  )
  load_path (suc s) o below cur =
      load_path s (record o { stash = put o.stash (suc s) (o.oram_tree cur) })
        (dram_access below (block_id_to_addr o (o.oram_tree cur)) o.cacheline_sz load) (cur / 2)

  unfoldable pub load_path_to_stash : Oram → D → ℕ → Option (Oram × D)
  unfolding load_path is_leaf
  load_path_to_stash o below leaf =
      if is_leaf o leaf then some (load_path o.tree_height o below leaf) else none

  -- The last loop of `stash_write_back`.
  pub write_path : ℕ → Oram → D → ℕ → Oram × D
  unfolding block_id_to_addr
  write_path zero o below cur = (
    record o { oram_tree = put o.oram_tree cur (o.stash zero); stash = put o.stash zero empty },
    dram_access below (block_id_to_addr o (o.stash zero)) o.cacheline_sz store,
  )
  write_path (suc s) o below cur =
      write_path s
        (record o {
          oram_tree = put o.oram_tree cur (o.stash (suc s));
          stash = put o.stash (suc s) empty;
        })
        (dram_access below (block_id_to_addr o (o.stash (suc s))) o.cacheline_sz store) (cur / 2)

  unfoldable pub stash_write_back : Oram → D → ℕ → ℕ → ℕ → Option (Oram × D)
  unfolding reshuffle write_path
  stash_write_back o below leaf bid new_leaf = elim (reshuffle o leaf bid new_leaf) [
    | none ↦ none
    | some stash ↦ some (write_path o.tree_height (record o { stash = stash }) below leaf)
  ]

  -- The part of `access` after a stash miss; `random` is what `rand` gives.
  unfoldable pub miss : Oram → D → ℕ → ℕ → Option (Oram × D)
  unfolding load_path_to_stash stash_write_back
  miss o below bid random =
      let leaf = o.position_map bid in
      let new_leaf = random % o.tree_leaves + o.tree_leaves in
      let moved = record o {
        stash_miss = add64 o.stash_miss 1;
        position_map = put o.position_map bid new_leaf;
      } in
      elim (load_path_to_stash moved below leaf) [
        | none ↦ none
        | some loaded ↦ stash_write_back loaded.0 loaded.1 leaf bid new_leaf
      ]

  -- `oram_sim_t::access`
  unfoldable pub access : Oram → D → ℕ → ℕ → Option (Oram × D)
  unfolding miss block_is_in_stash get_block_id
  access o below addr random =
      let counted = record o { oram_accesses = add64 o.oram_accesses 1 } in
      let bid = get_block_id o addr in
      if ltb bid o.num_of_blocks
      then (if block_is_in_stash o bid
          then some (record counted { stash_hit = add64 o.stash_hit 1 }, below)
          else miss counted below bid random)
      else none
