-- ===== src/Mmu/Direct.antt =====
-- The loads and stores of riscv/mmu.h against the memory that a page map shows: whether the TLB knows
-- the page or not makes no difference.
use mathlib.Core.Path.{subst}
use spike.Base.{
  ℕ, zero, suc, ◌+◌, ◌*◌, ◌/◌, ◌%◌, ◌^◌, ◌<◌, ◌≡◌, ◌⊎◌, inl, inr, refl, sym, ap, ◌∙◌, Bool, true,
  false, ◌||◌, ◌==◌, if◌then◌else◌, none, some, List, Bool-cases, Option-cases, bit_or, add64, shr,
}
use spike.Mmu.{
  AccessType, load, store, addr_is_mem, addr_to_mem, read_bytes, write_bytes, translate, refill_tlb,
  tlb_tag, tlb_hit, tlb_entries, tlb_check_triggers, pgshift,
}
use spike.Mmu.Data.{
  bytes_at, copy_bytes, host_bytes, host_value, reg_from_bytes, to_reg, unaligned, check_trigger,
  check_bytes, translated, refill, trace_or_refill, load_bytes, load_slow_path, store_bytes,
  store_slow_path, load_value, store_value,
}
use spike.Mmu.Port.{Port, and_then, done, with_mmu, Platform, interested_in_range}
use spike.Mmu.Tlb.{IsPageMap, IsCoherent, refill_tlb-IsCoherent}
use spike.Processor.State.{Processor, Mmu, TriggerOperation, operation_load, operation_store}
use spike.Processor.Triggers.{trigger_match}

-- A hart with another MMU, other registers and another reservation, which no access depends on.
abbrev pub moved : Processor → Mmu → (ℕ → ℕ) → ℕ → Processor
moved p m xpr reservation = record p {
  mmu = m;
  state = record p.state { xpr = xpr; load_reservation = reservation };
}

pub trigger_match-moved :
    (p : Processor) (m : Mmu) (xpr : ℕ → ℕ) (reservation : ℕ) (operation : TriggerOperation)
    (addr val : ℕ)
    → trigger_match (moved p m xpr reservation) operation addr val
      ≡ trigger_match p operation addr val
unfolding trigger_match
trigger_match-moved p m xpr reservation operation addr val = refl

pub trigger_match-with_mmu :
    (p : Processor) (m : Mmu) (operation : TriggerOperation) (addr val : ℕ)
    → trigger_match (with_mmu p m) operation addr val ≡ trigger_match p operation addr val
unfolding trigger_match
trigger_match-with_mmu p m operation addr val = refl

reg_from_bytes-some :
    (len : ℕ) (bytes : List ℕ)
    → (len ≡ 1) ⊎ (len ≡ 2) ⊎ (len ≡ 4) ⊎ (len ≡ 8)
    → (val : ℕ) × (reg_from_bytes len bytes ≡ some val)
unfolding reg_from_bytes
reg_from_bytes-some len bytes (inl e) =
    subst (λ n. (val : ℕ) × (reg_from_bytes n bytes ≡ some val)) (sym e) (_, refl)
reg_from_bytes-some len bytes (inr (inl e)) =
    subst (λ n. (val : ℕ) × (reg_from_bytes n bytes ≡ some val)) (sym e) (_, refl)
reg_from_bytes-some len bytes (inr (inr (inl e))) =
    subst (λ n. (val : ℕ) × (reg_from_bytes n bytes ≡ some val)) (sym e) (_, refl)
reg_from_bytes-some len bytes (inr (inr (inr e))) =
    subst (λ n. (val : ℕ) × (reg_from_bytes n bytes ≡ some val)) (sym e) (_, refl)

host_value-bytes_at :
    (len : ℕ) (mem : ℕ → ℕ) (off : ℕ) → host_value (bytes_at len mem off) ≡ read_bytes len mem off
unfolding host_value bytes_at read_bytes
host_value-bytes_at zero mem off = refl
host_value-bytes_at (suc len) mem off =
    ap (λ v. mem off + 2 ^ 8 * v) (host_value-bytes_at len mem (off + 1))

copy_bytes-host_bytes :
    (len : ℕ) (mem : ℕ → ℕ) (off val : ℕ)
    → copy_bytes mem off (host_bytes len val) ≡ write_bytes len mem off val
unfolding host_bytes copy_bytes write_bytes
copy_bytes-host_bytes zero mem off val = refl
copy_bytes-host_bytes (suc len) mem off val =
    ap (λ (rest : ℕ → ℕ). λ i. if i == off then val % 2 ^ 8 else rest i)
      (copy_bytes-host_bytes len mem (off + 1) (val / 2 ^ 8))

-- The test of the fast paths, with the trigger bit or without it.
unfoldable pub names : (m : Mmu) (type : AccessType) (addr : ℕ) → Bool
names m type addr =
    let vpn = shr addr pgshift in
    let tag = tlb_tag m type (vpn % tlb_entries) in
    (tag == vpn) || (tag == bit_or vpn tlb_check_triggers)

pub fast_place :
    (place : ℕ → ℕ) (m : Mmu) (type : AccessType) (addr : ℕ)
    → IsCoherent place m
    → addr < 2 ^ 64
    → names m type addr ≡ true
    → add64 (m.tlb_data (shr addr pgshift % tlb_entries)) addr ≡ place addr
unfolding tlb_hit names
fast_place place m type addr coherent word hit = coherent type addr _ word (rw (hit, tlb_hit) refl)

module _ {S : Type 0} where
  check_trigger-quiet :
      (operation : TriggerOperation) (addr val : ℕ) (port : Port S)
      → trigger_match port.hart operation addr val ≡ none
      → check_trigger operation addr val port ≡ (port, done tt)
  unfolding check_trigger
  check_trigger-quiet operation addr val port quiet =
      elim (Option-cases port.hart.mmu.matched_trigger) [
        | inl free ↦ simp (free, quiet, check_trigger)
        | inr (t, held) ↦ simp (held, check_trigger)
      ]

  -- Only the sizes 1, 2, 4 and 8 occur, so no value is refused.
  check_bytes-quiet :
      (platform : Platform S) (operation : TriggerOperation) (addr len : ℕ) (bytes : List ℕ)
      (port : Port S)
      → (len ≡ 1) ⊎ (len ≡ 2) ⊎ (len ≡ 4) ⊎ (len ≡ 8)
      → ((val : ℕ) → trigger_match port.hart operation addr val ≡ none)
      → check_bytes platform operation addr len bytes port ≡ (port, done tt)
  unfolding check_bytes
  check_bytes-quiet platform operation addr len bytes port sizes quiet =
      elim (Option-cases port.hart.mmu.matched_trigger) [
        | inl free ↦
            let (val, e) = reg_from_bytes-some len bytes sizes in
            simp (free, e, check_bytes) (check_trigger-quiet operation addr val port (quiet val))
        | inr (t, held) ↦ simp (held, check_bytes)
      ]

  -- An access that neither a trigger nor a tracer catches: the address is aligned, the translation
  -- leads into the memory, where the page map says, and leaves the page tables as they are, and the
  -- TLB holds nothing else.
  pub record Reaches (platform : Platform S) (place : ℕ → ℕ) (port : Port S) (addr size : ℕ)
      (type : AccessType) : Type 0 where
    pub paddr : ℕ
    pub pages : IsPageMap place
    pub coherent : IsCoherent place port.hart.mmu
    pub word : addr < 2 ^ 64
    pub sizes : (size ≡ 1) ⊎ (size ≡ 2) ⊎ (size ≡ 4) ⊎ (size ≡ 8)
    pub aligned : unaligned addr size ≡ false
    pub found : translate port.hart port.memory addr type ≡ some (paddr, port.memory)
    pub inside : addr_is_mem port.memory paddr ≡ true
    pub placed : addr_to_mem paddr ≡ place addr
    pub quiet :
        (operation : TriggerOperation) (a val : ℕ) → trigger_match port.hart operation a val ≡ none
    pub unwatched :
        interested_in_range platform.tracers port.rest paddr (add64 paddr (2 ^ pgshift)) type
        ≡ false

  module _ (platform : Platform S) (place : ℕ → ℕ) (port : Port S) (addr size : ℕ) where
    -- The port with the page in the TLB.
    abbrev refilled : AccessType → ℕ → Port S
    refilled type paddr = record port {
      hart = with_mmu port.hart (refill_tlb port.hart.mmu addr paddr type);
    }

    pub translated-found :
        (type : AccessType) (paddr : ℕ)
        → translate port.hart port.memory addr type ≡ some (paddr, port.memory)
        → translated addr type port ≡ (port, done paddr)
    unfolding translated
    translated-found type paddr e = simp (e, translated)

    trace_or_refill-refills :
        (type : AccessType) (paddr len : ℕ) (q : Port S)
        → interested_in_range platform.tracers q.rest paddr (add64 paddr (2 ^ pgshift)) type ≡ false
        → trace_or_refill platform addr paddr len type q
          ≡ (record q { hart = with_mmu q.hart (refill_tlb q.hart.mmu addr paddr type) }, done tt)
    unfolding trace_or_refill refill
    trace_or_refill-refills type paddr len q unwatched = rw (unwatched, trace_or_refill) refl

    load_bytes-inside :
        (r : Reaches platform place port addr size load)
        → load_bytes platform addr r.paddr size port
          ≡ (refilled load r.paddr, done (bytes_at size port.memory.mem (addr_to_mem r.paddr)))
    unfolding load_bytes and_then
    load_bytes-inside r =
        let inside = r.inside in
        let e = trace_or_refill-refills load r.paddr size port r.unwatched in
        rw (inside, load_bytes) (rw e refl)

    load_slow_path-direct :
        (r : Reaches platform place port addr size load)
        → load_slow_path platform addr size port
          ≡ (refilled load r.paddr, done (bytes_at size port.memory.mem (addr_to_mem r.paddr)))
    unfolding load_slow_path and_then
    load_slow_path-direct r =
        let read = bytes_at size port.memory.mem (addr_to_mem r.paddr) in
        let next = refilled load r.paddr in
        let translated = translated-found load r.paddr r.found in
        let loaded = load_bytes-inside r in
        let checked = check_bytes-quiet platform operation_load addr size read next r.sizes λ val.
          trigger_match-with_mmu port.hart next.hart.mmu operation_load addr val
          ∙ r.quiet operation_load addr val in
        rw (translated, load_slow_path) (rw loaded (rw checked refl))

    pub load_value-direct :
        (signed : Bool)
        → Reaches platform place port addr size load
        → (m : Mmu) × (load_value platform signed size addr port ≡ (
          record port { hart = with_mmu port.hart m },
          done (to_reg signed size (read_bytes size port.memory.mem (place addr))),
        ))
          × IsCoherent place m
    unfolding load_value and_then names
    load_value-direct signed r =
        let vpn = shr addr pgshift in
        let m = port.hart.mmu in
        let tag = tlb_tag m load (vpn % tlb_entries) in
        let aligned = r.aligned in
        elim (Bool-cases (tag == vpn)) [
          | inl named ↦
              let hit : names m load addr ≡ true = rw named refl in
              let at = fast_place place m load addr r.coherent r.word hit in
              (m, rw (aligned, named, load_value) (rw at refl), r.coherent)
          | inr other ↦ elim (Bool-cases (tag == bit_or vpn tlb_check_triggers)) [
            | inl checked ↦
                let hit : names m load addr ≡ true = rw (other, checked, names) refl in
                let at = fast_place place m load addr r.coherent r.word hit in
                let value = to_reg signed size (read_bytes size port.memory.mem (place addr)) in
                let quiet =
                  check_trigger-quiet operation_load addr value port
                    (r.quiet operation_load addr value) in
                (m, rw (aligned, other, checked, load_value) (rw at (rw quiet refl)), r.coherent)
            | inr missed ↦
                let slow = load_slow_path-direct r in
                let read = host_value-bytes_at size port.memory.mem (addr_to_mem r.paddr) in
                let placed = r.placed in
                (
                  refill_tlb m addr r.paddr load,
                  rw (aligned, other, missed, load_value) (rw slow (rw (read, placed) refl)),
                  refill_tlb-IsCoherent place m addr r.paddr load r.pages r.word r.placed
                      r.coherent,
                )
          ]
        ]

    -- The port with another value in memory.
    abbrev pub stored : ℕ → ℕ → Port S
    stored off v = record port {
      memory = record port.memory { mem = write_bytes size port.memory.mem off v };
    }

    store_slow_path-direct :
        (r : Reaches platform place port addr size store) (v : ℕ)
        → store_slow_path platform addr size (host_bytes size v) port ≡ (
          record (stored (addr_to_mem r.paddr) v) {
            hart = with_mmu port.hart (refill_tlb port.hart.mmu addr r.paddr store);
          },
          done tt,
        )
    unfolding store_slow_path store_bytes and_then
    store_slow_path-direct r v =
        let inside = r.inside in
        let translated = translated-found store r.paddr r.found in
        let copied = copy_bytes-host_bytes size port.memory.mem (addr_to_mem r.paddr) v in
        let checked =
          check_bytes-quiet platform operation_store addr size (host_bytes size v) port r.sizes
            (r.quiet operation_store addr) in
        let filled =
          trace_or_refill-refills store r.paddr size (stored (addr_to_mem r.paddr) v) r.unwatched in
        rw (translated, store_slow_path) (rw checked (rw inside (rw copied filled)))

    -- A store writes the value to memory and leaves all else but the MMU as it is, whether the TLB
    -- knows the page or not, and the TLB stays coherent.
    pub store_value-direct :
        (val : ℕ)
        → Reaches platform place port addr size store
        → (m : Mmu) × (store_value platform size addr val port ≡ (
          record (stored (place addr) (val % 2 ^ (8 * size))) { hart = with_mmu port.hart m },
          done tt,
        ))
          × IsCoherent place m
    unfolding store_value and_then names
    store_value-direct val r =
        let vpn = shr addr pgshift in
        let m = port.hart.mmu in
        let tag = tlb_tag m store (vpn % tlb_entries) in
        let v = val % 2 ^ (8 * size) in
        let aligned = r.aligned in
        elim (Bool-cases (tag == vpn)) [
          | inl named ↦
              let hit : names m store addr ≡ true = rw named refl in
              let at = fast_place place m store addr r.coherent r.word hit in
              (m, rw (aligned, named, store_value) (rw at refl), r.coherent)
          | inr other ↦ elim (Bool-cases (tag == bit_or vpn tlb_check_triggers)) [
            | inl checked ↦
                let hit : names m store addr ≡ true = rw (other, checked, names) refl in
                let at = fast_place place m store addr r.coherent r.word hit in
                let quiet =
                  check_trigger-quiet operation_store addr v port
                    (r.quiet operation_store addr v) in
                (m, rw (aligned, other, checked, store_value) (rw at (rw quiet refl)), r.coherent)
            | inr missed ↦
                let slow = store_slow_path-direct r v in
                let placed = r.placed in
                (
                  refill_tlb m addr r.paddr store,
                  rw (aligned, other, missed, store_value) (rw slow (rw placed refl)),
                  refill_tlb-IsCoherent place m addr r.paddr store r.pages r.word r.placed
                      r.coherent,
                )
          ]
        ]
