-- ===== src/Tests/Memories.antt =====
-- Page tables and a TLB of riscv/mmu.h, and caches of riscv/cachesim.h.
use spike.Base.{
  ℕ, ◌+◌, ◌*◌, ◌^◌, ◌≤◌, ◌≡◌, ◌≢◌, inl, inr, refl, arith, true, false, none, some, ◌==◌,
  if◌then◌else◌, bit_lem, none≢some, all_ones, add64, sym, ◌∙◌,
}
use spike.Processor.State.{Mmu, flush_tlb}
use spike.Mmu.{
  load, store, Memory, Request, walk_levels, leaf_value, mark_accessed, addr_is_mem, pte_addr,
  read_pte, refill_tlb, addr_to_mem,
}
use spike.Mmu.Walk.{
  Chain, leaf_pte, table_pte, Allows, AllowsAccess, walk_levels-Chain, Chain-walk_levels,
}
use spike.Mmu.Tlb.{IsPageMap, IsCoherent, refill_tlb-IsCoherent, flush_tlb-misses}
use spike.Cache.{Cache, ways_array, Handlers, access, init}
use spike.Cache.Hit.{with_ways, access-access}
use spike.Cache.Init.{init-some}

-- A table at 0x80000000 whose first PTE points to a table at 0x80001000, whose second PTE is a leaf
-- for page 0x80002 that supervisor mode may read, write and execute.
abbrev tables : Memory
tables = record {
  memsz = 0x10000;
  mem = λ i.
      if i == 0
      then 0x01
      else if i == 1
      then 0x04
      else if i == 3
      then 0x20
      else if i == 0x1008
      then 0x0f
      else if i == 0x1009
      then 0x08
      else if i == 0x100b
      then 0x20
      else 0;
}

abbrev request : Request
request = record {
  ptidxbits = 9;
  ptesize = 8;
  addr = 0x1234;
  type = store;
  supervisor = true;
  pum = true;
  mxr = false;
}

walked : (walk_levels request tables 2 0x80000000).0 ≡ 0x80002000
unfolding walk_levels
walked = refl

walk_levels-Chain_example :
    (k : ℕ) × (at : ℕ) × (pte : ℕ) × Chain request tables 2 0x80000000 k at pte
    × Allows request pte
    × (walk_levels request tables 2 0x80000000
        ≡ (leaf_value request pte (k * 9), mark_accessed request tables at))
walk_levels-Chain_example =
    walk_levels-Chain request tables 2 0x80000000 (λ e. absurd (apart (sym walked ∙ e)))
  where
    apart : 0x80002000 ≢ all_ones
    apart = omega arith

leaf-Allows : Allows request 0x2000080f
unfolding AllowsAccess
leaf-Allows = (
  omega (arith, bit_lem 0 0x2000080f),
  inl (omega (arith, bit_lem 1 0x2000080f)),
  inr (omega (arith, bit_lem 4 0x2000080f), refl),
  (omega (arith, bit_lem 1 0x2000080f), omega (arith, bit_lem 2 0x2000080f)),
)

chain : Chain request tables 2 0x80000000 0 0x80001008 0x2000080f
unfolding addr_is_mem pte_addr read_pte
chain = table_pte 1 0x80000000 0 0x80001008 0x2000080f refl refl (leaf_pte 0 0x80001000 refl)

Chain-walk_levels_example :
    walk_levels request tables 2 0x80000000
    ≡ (leaf_value request 0x2000080f (0 * 9), mark_accessed request tables 0x80001008)
Chain-walk_levels_example =
    Chain-walk_levels request tables 2 0x80000000 0 0x80001008 0x2000080f chain leaf-Allows

-- An empty TLB, and the map of an address to the place 0x5000 above it.
abbrev empty_tlb : Mmu
empty_tlb = record {
  tlb_data = λ _. 0;
  tlb_insn_tag = λ _. all_ones;
  tlb_load_tag = λ _. all_ones;
  tlb_store_tag = λ _. all_ones;
  icache_tag = λ _. all_ones;
  icache_insn = λ _. 0;
  check_triggers_fetch = false;
  check_triggers_load = true;
  check_triggers_store = false;
  matched_trigger = none;
}

abbrev above : ℕ → ℕ
above v = add64 v 0x5000

above-IsPageMap : IsPageMap above
above-IsPageMap v w h k e = omega arith

empty-IsCoherent : IsCoherent above (flush_tlb empty_tlb)
empty-IsCoherent type v off h hit =
    absurd (none≢some (sym (flush_tlb-misses empty_tlb type v h) ∙ hit))

refill_tlb-IsCoherent_example :
    IsCoherent above (refill_tlb (flush_tlb empty_tlb) 0x1234 0x80006234 load)
unfolding addr_to_mem
refill_tlb-IsCoherent_example =
    refill_tlb-IsCoherent above (flush_tlb empty_tlb) 0x1234 0x80006234 load above-IsPageMap
      (omega arith) refl empty-IsCoherent

-- A cache of two sets of two ways with lines of 16 bytes, above a counter of the lines that it asks
-- for.
abbrev small_cache : Cache
small_cache = record {
  lfsr = 1;
  sets = 2;
  ways = 2;
  linesz = 16;
  idx_shift = 4;
  tags = ways_array λ _. 0;
  read_accesses = 0;
  read_misses = 0;
  bytes_read = 0;
  write_accesses = 0;
  write_misses = 0;
  bytes_written = 0;
  writebacks = 0;
  oram_accesses = 0;
}

abbrev counter : Handlers ℕ
counter = record { miss_handler = some λ n addr bytes store. n + 1; oram_handler = none }

access-access_example :
    let (d, under) = access counter (with_ways small_cache λ _. 0) 0 0x1238 4 true in
    let (e, under') = access counter d under 0x1238 8 false in
    (under' ≡ under) × (e.read_misses ≡ d.read_misses) × (e.write_misses ≡ d.write_misses)
access-access_example =
    access-access counter small_cache (λ _. 0) 0 0x1238 4 true 8 false (omega arith) (omega arith)
      (omega arith)

made : init 2 2 16 (ways_array λ _. 0) ≡ some small_cache
unfolding init
made = refl

init-some_example :
    (j : ℕ) × (2 ≡ 2 ^ j)
    × (16 ≡ 2 ^ small_cache.idx_shift)
    × (3 ≤ small_cache.idx_shift)
    × (small_cache.sets ≡ 2)
    × (small_cache.linesz ≡ 16)
init-some_example =
    init-some 2 2 16 (ways_array λ _. 0) small_cache (omega arith) (omega arith) made
