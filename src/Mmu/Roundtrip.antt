-- ===== src/Mmu/Roundtrip.antt =====
-- Loads after stores, and atomic operations, of riscv/mmu.h.
use mathlib.Core.Option.{some-injective}
use mathlib.Core.Path.{subst}
use spike.Base.{
  ℕ, zero, suc, ◌+◌, ◌*◌, ◌/◌, ◌%◌, ◌^◌, ◌<◌, ◌≡◌, ◌⊎◌, inl, inr, refl, sym, ap, ◌∙◌, arith, Bool,
  true, false, ◌==◌, if◌then◌else◌, Option, none, some,
}
use spike.Decode.{get_field}
use spike.Encoding.{mstatus_vm, vm_mbare, prv_m}
use spike.Mmu.{
  AccessType, load, store, fetch, Memory, access_mode, walk, walk_with, paging_mode, addr_is_mem,
  read_bytes, write_bytes, translate,
}
use spike.Mmu.Data.{
  host_bytes, host_value, to_reg, load_value, store_value, amo_value, as_store_fault,
}
use spike.Mmu.Direct.{
  Reaches, moved, trigger_match-moved, load_value-direct, store_value-direct, stored,
}
use spike.Mmu.Port.{Port, and_then, ◌>>◌, done, with_mmu, Platform}
use spike.Mmu.Tlb.{IsCoherent}
use spike.Processor.State.{Processor, Mmu}

read_bytes-above :
    (len : ℕ) (mem : ℕ → ℕ) (off at b : ℕ)
    → off < at
    → read_bytes len (λ i. if i == off then b else mem i) at ≡ read_bytes len mem at
unfolding read_bytes
read_bytes-above zero mem off at b h = refl
read_bytes-above (suc len) mem off at b h =
    let e : (at == off) ≡ false = ground arith in
    rw e (ap (λ v. mem at + 2 ^ 8 * v) (read_bytes-above len mem off (at + 1) b (omega arith)))

read_bytes-write_bytes :
    (len : ℕ) (mem : ℕ → ℕ) (off v : ℕ)
    → read_bytes len (write_bytes len mem off v) off ≡ host_value (host_bytes len v)
unfolding read_bytes write_bytes host_bytes host_value
read_bytes-write_bytes zero mem off v = refl
read_bytes-write_bytes (suc len) mem off v =
    let e : (off == off) ≡ true = ground arith in
    let rest = write_bytes len mem (off + 1) (v / 2 ^ 8) in
    rw e (
      ap (λ t. v % 2 ^ 8 + 2 ^ 8 * t)
        (read_bytes-above len rest off (off + 1) (v % 2 ^ 8) (omega arith)
          ∙ read_bytes-write_bytes len mem (off + 1) (v / 2 ^ 8)))

abbrev IsSize : ℕ → Type 0
IsSize size = (size ≡ 1) ⊎ (size ≡ 2) ⊎ (size ≡ 4) ⊎ (size ≡ 8)

host_value-host_bytes :
    (len v : ℕ) → IsSize len → v < 2 ^ (8 * len) → host_value (host_bytes len v) ≡ v
unfolding host_value host_bytes
host_value-host_bytes len v (inl e) =
    subst (λ n. v < 2 ^ (8 * n) → host_value (host_bytes n v) ≡ v) (sym e) λ h. omega arith
host_value-host_bytes len v (inr (inl e)) =
    subst (λ n. v < 2 ^ (8 * n) → host_value (host_bytes n v) ≡ v) (sym e) λ h. omega arith
host_value-host_bytes len v (inr (inr (inl e))) =
    subst (λ n. v < 2 ^ (8 * n) → host_value (host_bytes n v) ≡ v) (sym e) λ h. omega arith
host_value-host_bytes len v (inr (inr (inr e))) =
    subst (λ n. v < 2 ^ (8 * n) → host_value (host_bytes n v) ≡ v) (sym e) λ h. omega arith

cut-lt : (len v : ℕ) → IsSize len → v % 2 ^ (8 * len) < 2 ^ (8 * len)
cut-lt len v (inl e) = subst (λ n. v % 2 ^ (8 * n) < 2 ^ (8 * n)) (sym e) (omega arith)
cut-lt len v (inr (inl e)) = subst (λ n. v % 2 ^ (8 * n) < 2 ^ (8 * n)) (sym e) (omega arith)
cut-lt len v (inr (inr (inl e))) = subst (λ n. v % 2 ^ (8 * n) < 2 ^ (8 * n)) (sym e) (omega arith)
cut-lt len v (inr (inr (inr e))) = subst (λ n. v % 2 ^ (8 * n) < 2 ^ (8 * n)) (sym e) (omega arith)

-- Without paging the memory does not matter to a translation.
bare_translation :
    (p : Processor) (memory memory' : Memory) (addr paddr : ℕ) (type : AccessType)
    → (get_field p.state.mstatus mstatus_vm == vm_mbare) ≡ true
    → translate p memory addr type ≡ some (paddr, memory)
    → translate p memory' addr type ≡ some (paddr, memory')
unfolding translate
bare_translation p memory memory' addr paddr type bare e =
    let found = some-injective _ _ (rw bare at e) in
    rw bare (ap (λ (q : ℕ × Memory). some (q.0, memory')) found)

access_mode-moved :
    (p : Processor) (m : Mmu) (xpr : ℕ → ℕ) (reservation : ℕ) (type : AccessType)
    → access_mode (moved p m xpr reservation) type ≡ access_mode p type
unfolding access_mode
access_mode-moved p m xpr reservation load = refl
access_mode-moved p m xpr reservation store = refl
access_mode-moved p m xpr reservation fetch = refl

walk_with-moved :
    (p : Processor) (m : Mmu) (xpr : ℕ → ℕ) (reservation : ℕ) (memory : Memory) (addr : ℕ)
    (type : AccessType) (mode : ℕ) (sizes : Option (ℕ × ℕ × ℕ))
    → walk_with (moved p m xpr reservation) memory addr type mode sizes
      ≡ walk_with p memory addr type mode sizes
unfolding walk_with
walk_with-moved p m xpr reservation memory addr type mode none = refl
walk_with-moved p m xpr reservation memory addr type mode (some sizes) = refl

translate-moved :
    (p : Processor) (m : Mmu) (xpr : ℕ → ℕ) (reservation : ℕ) (memory : Memory) (addr : ℕ)
    (type : AccessType)
    → translate (moved p m xpr reservation) memory addr type ≡ translate p memory addr type
unfolding translate walk
translate-moved p m xpr reservation memory addr type =
    let bare = get_field p.state.mstatus mstatus_vm == vm_mbare in
    let mode = if bare then prv_m else access_mode p type in
    let sizes = paging_mode (get_field p.state.mstatus mstatus_vm) in
    rw (access_mode-moved p m xpr reservation type)
      (rw (walk_with-moved p m xpr reservation memory addr type mode sizes) refl)

module _ {S : Type 0} (platform : Platform S) (place : ℕ → ℕ) (addr size : ℕ) where
  -- A coherent TLB in place of another, and other registers.
  pub reaches-moved :
      (port : Port S) (m : Mmu) (xpr : ℕ → ℕ) (reservation : ℕ) (type : AccessType)
      → Reaches platform place port addr size type
      → IsCoherent place m
      → Reaches platform place
          (record port { hart = moved port.hart m xpr reservation })
          addr
          size
          type
  reaches-moved port m xpr reservation type r coherent = record {
    paddr = r.paddr;
    pages = r.pages;
    coherent = coherent;
    word = r.word;
    sizes = r.sizes;
    aligned = r.aligned;
    found = translate-moved port.hart m xpr reservation port.memory addr type ∙ r.found;
    inside = r.inside;
    placed = r.placed;
    quiet = λ operation a val.
        trigger_match-moved port.hart m xpr reservation operation a val ∙ r.quiet operation a val;
    unwatched = r.unwatched;
  }

  reaches-with_mmu :
      (port : Port S) (m : Mmu) (type : AccessType)
      → Reaches platform place port addr size type
      → IsCoherent place m
      → Reaches platform place (record port { hart = with_mmu port.hart m }) addr size type
  reaches-with_mmu port m type =
      reaches-moved port m port.hart.state.xpr port.hart.state.load_reservation type

  -- Without paging a store does not change what an access reaches.
  reaches-stored :
      (port : Port S) (mem : ℕ → ℕ) (type : AccessType)
      → (get_field port.hart.state.mstatus mstatus_vm == vm_mbare) ≡ true
      → Reaches platform place port addr size type
      → Reaches platform place
          (record port { memory = record port.memory { mem = mem } })
          addr
          size
          type
  unfolding addr_is_mem
  reaches-stored port mem type bare r = record {
    paddr = r.paddr;
    pages = r.pages;
    coherent = r.coherent;
    word = r.word;
    sizes = r.sizes;
    aligned = r.aligned;
    found =
        bare_translation port.hart port.memory (record port.memory { mem = mem }) addr r.paddr type
          bare r.found;
    inside = r.inside;
    placed = r.placed;
    quiet = r.quiet;
    unwatched = r.unwatched;
  }

  -- The port after a store, with the MMU that it leaves.
  abbrev pub after_store : Port S → ℕ → Mmu → Port S
  after_store port val m =
      record (stored platform place port addr size (place addr) (val % 2 ^ (8 * size))) {
        hart = with_mmu port.hart m;
      }

  -- The two accesses one by one: what the store leaves, and what the load gives there.
  pub load_after_store :
      (port : Port S) (signed : Bool) (val : ℕ)
      → (get_field port.hart.state.mstatus mstatus_vm == vm_mbare) ≡ true
      → Reaches platform place port addr size store
      → Reaches platform place port addr size load
      → (m : Mmu) × (m' : Mmu) × (store_value platform size addr val port
          ≡ (after_store port val m, done tt))
        × (load_value platform signed size addr (after_store port val m)
            ≡ (after_store port val m', done (to_reg signed size (val % 2 ^ (8 * size)))))
        × IsCoherent place m'
  load_after_store port signed val bare r q =
      let v = val % 2 ^ (8 * size) in
      let mem = write_bytes size port.memory.mem (place addr) v in
      let (m, run, coherent) = store_value-direct platform place port addr size val r in
      let after = record port { memory = record port.memory { mem = mem } } in
      let q' = reaches-with_mmu after m load (reaches-stored port mem load bare q) coherent in
      let (m', run', coherent') =
        load_value-direct platform place (record after { hart = with_mmu port.hart m }) addr size
          signed q' in
      let back =
        read_bytes-write_bytes size port.memory.mem (place addr) v
        ∙ host_value-host_bytes size v r.sizes (cut-lt size val r.sizes) in
      (m, m', run, rw run' (rw back refl), coherent')

  -- Without paging, for an aligned address of 1, 2, 4 or 8 bytes, where for the store and for the
  -- load the translation leads into the memory, to the place that a map of whole pages gives, and
  -- leaves the page tables as they are, the TLB agrees with that map, and neither triggers nor
  -- tracers catch the accesses, a load after a store to the same address gives the value that was
  -- stored, cut to its size and extended by the load, and the memory holds it; only the MMU
  -- changes besides, and its TLB still agrees with the map.
  pub load_value-store_value :
      (port : Port S) (signed : Bool) (val : ℕ)
      → (get_field port.hart.state.mstatus mstatus_vm == vm_mbare) ≡ true
      → Reaches platform place port addr size store
      → Reaches platform place port addr size load
      → (m : Mmu) × ((do store_value platform size addr val; load_value platform signed size addr)
            port
          ≡ (after_store port val m, done (to_reg signed size (val % 2 ^ (8 * size)))))
        × IsCoherent place m
  unfolding and_then
  load_value-store_value port signed val bare r q =
      let (m, m', run, run', coherent) = load_after_store port signed val bare r q in
      (m', rw run run', coherent)

  -- An atomic operation that neither triggers nor tracers catch gives the value in memory, and leaves
  -- there what its function makes of it, cut to its size.
  pub amo_value-direct :
      (port : Port S) (f : ℕ → ℕ)
      → Reaches platform place port addr size load
      → Reaches platform place port addr size store
      → let old = read_bytes size port.memory.mem (place addr) in
        (m : Mmu) × (amo_value platform size addr f port ≡ (
          record (stored platform place port addr size (place addr) (f old % 2 ^ (8 * size))) {
            hart = with_mmu port.hart m;
          },
          done old,
        ))
        × IsCoherent place m
  unfolding amo_value and_then to_reg as_store_fault
  amo_value-direct port f r q =
      let old = read_bytes size port.memory.mem (place addr) in
      let (m, run, coherent) = load_value-direct platform place port addr size false r in
      let q' = reaches-with_mmu port m store q coherent in
      let (m', run', coherent') =
        store_value-direct platform place (record port { hart = with_mmu port.hart m }) addr size
          (f old) q' in
      let aligned = r.aligned in (m', rw (aligned, amo_value) (rw run (rw run' refl)), coherent')
