-- ===== src/Mmu/Faults.antt =====
-- The traps of loads, stores and atomic operations of riscv/mmu.h.
use spike.Base.{
  ℕ, ◌≡◌, ◌⊎◌, inl, inr, ◌∙◌, ◌%◌, ◌*◌, ◌^◌, refl, Bool, true, false, ◌==◌, if◌then◌else◌, List,
  Bool-cases, Option-cases, bit_or, shr, add64,
}
use spike.Devices.{mmio_load, mmio_store}
use spike.Encoding.{
  cause_misaligned_load, cause_misaligned_store, cause_fault_load, cause_fault_store,
}
use spike.Mmu.{
  AccessType, load, store, addr_is_mem, addr_to_mem, read_bytes, translate, tlb_tag, tlb_entries,
  tlb_check_triggers, pgshift,
}
use spike.Mmu.Data.{
  mem_trap, unaligned, bytes_at, host_value, to_reg, poke, check_trigger, check_bytes, translated,
  refill, trace_or_refill, load_bytes, load_slow_path, store_bytes, store_slow_path, load_value,
  store_value, amo_value, as_store_fault, reg_from_bytes,
}
use spike.Mmu.Port.{
  Port, Access, done, traps, triggers, aborts, M, and_then, pure, Platform, interested_in_range,
}
use spike.Processor.State.{TriggerOperation, operation_load, operation_store}
use spike.Processor.Trap.{Trap}
use spike.Processor.Triggers.{trigger_match}

abbrev IsTrap : {A : Type 0} → (Trap → Type 0) → Access A → Type 0
IsTrap P (done a) = Unit {0}
IsTrap P (traps t) = P t
IsTrap P (triggers m) = Unit {0}
IsTrap P aborts = Unit {0}

abbrev pub Only : Trap → Trap → Type 0
Only t u = u ≡ t

-- If the access ends with a trap, `P` holds of it.
pub record TrapsOnly {S A : Type 0} (P : Trap → Type 0) (r : Port S × Access A) : Type 0 where
  pub only : IsTrap P r.1

-- The only trap of a load.
abbrev pub load_trap : ℕ → ℕ → Trap
load_trap addr size =
    mem_trap (if unaligned addr size then cause_misaligned_load else cause_fault_load) addr

abbrev pub store_trap : ℕ → ℕ → Trap
store_trap addr size =
    mem_trap (if unaligned addr size then cause_misaligned_store else cause_fault_store) addr

module _ {S : Type 0} where
  and_then-TrapsOnly :
      {A B : Type 0} (P : Trap → Type 0) (f : A → M S B) (r : Port S × Access A)
      → TrapsOnly P r
      → ((a : A) (port : Port S) → TrapsOnly P (f a port))
      → TrapsOnly P (and_then f r)
  unfolding and_then
  and_then-TrapsOnly P f (port, done a) h k = k a port
  and_then-TrapsOnly P f (port, traps u) h k = record { only = h.only }
  and_then-TrapsOnly P f (port, triggers u) h k = record { only = tt }
  and_then-TrapsOnly P f (port, aborts) h k = record { only = tt }

  either :
      {A : Type 0} (P : Trap → Type 0) (b : Bool) (x y : Port S × Access A)
      → (b ≡ true → TrapsOnly P x)
      → (b ≡ false → TrapsOnly P y)
      → TrapsOnly P (if b then x else y)
  either P true x y h k = h refl
  either P false x y h k = k refl

  check_trigger-TrapsOnly :
      (P : Trap → Type 0) (operation : TriggerOperation) (addr val : ℕ) (port : Port S)
      → TrapsOnly P (check_trigger operation addr val port)
  unfolding check_trigger
  check_trigger-TrapsOnly P operation addr val port =
      elim (Option-cases port.hart.mmu.matched_trigger) [
        | inr (u, held) ↦ simp (held, check_trigger) record { only = tt }
        | inl free ↦ elim (Option-cases (trigger_match port.hart operation addr val)) [
          | inl quiet ↦ simp (free, quiet, check_trigger) (record { only = tt })
          | inr (i, fired) ↦
              simp (free, fired, check_trigger)
                (either P (port.hart.state.mcontrol i).timing _ _ (λ _. record { only = tt })
                  (λ _. record { only = tt }))
        ]
      ]

  module _ (platform : Platform S) where
    translated-TrapsOnly :
        (P : Trap → Type 0) (addr : ℕ) (type : AccessType) (port : Port S)
        → TrapsOnly P (translated addr type port)
    unfolding translated
    translated-TrapsOnly P addr type port =
        elim (Option-cases (translate port.hart port.memory addr type)) [
          | inl failed ↦ simp (failed, translated) (record { only = tt })
          | inr (r, e) ↦ simp (e, translated) (record { only = tt })
        ]

    check_bytes-TrapsOnly :
        (P : Trap → Type 0) (operation : TriggerOperation) (addr len : ℕ) (bytes : List ℕ)
        (port : Port S)
        → TrapsOnly P (check_bytes platform operation addr len bytes port)
    unfolding check_bytes
    check_bytes-TrapsOnly P operation addr len bytes port =
        elim (Option-cases port.hart.mmu.matched_trigger) [
          | inr (u, held) ↦ simp (held, check_bytes) (record { only = tt })
          | inl free ↦ elim (Option-cases (reg_from_bytes len bytes)) [
            | inl none_fits ↦ simp (free, none_fits, check_bytes) (record { only = tt })
            | inr (val, e) ↦
                simp (free, e, check_bytes) (check_trigger-TrapsOnly P operation addr val port)
          ]
        ]

    trace_or_refill-TrapsOnly :
        (P : Trap → Type 0) (addr paddr len : ℕ) (type : AccessType) (port : Port S)
        → TrapsOnly P (trace_or_refill platform addr paddr len type port)
    unfolding trace_or_refill refill
    trace_or_refill-TrapsOnly P addr paddr len type port =
        either P
          (interested_in_range platform.tracers port.rest paddr (add64 paddr (2 ^ pgshift)) type) _
          _ (λ _. record { only = tt }) (λ _. record { only = tt })

    load_bytes-TrapsOnly :
        (addr paddr len : ℕ) (port : Port S)
        → TrapsOnly
            (Only (mem_trap cause_fault_load addr))
            (load_bytes platform addr paddr len port)
    unfolding load_bytes
    load_bytes-TrapsOnly addr paddr len port =
        let P = Only (mem_trap cause_fault_load addr) in
        either P (addr_is_mem port.memory paddr) _ _
          (λ _.
            and_then-TrapsOnly P (λ _. pure (bytes_at len port.memory.mem (addr_to_mem paddr))) _
              (trace_or_refill-TrapsOnly P addr paddr len load port) λ a q. record { only = tt })
          (λ _. elim (Option-cases (mmio_load platform.devices port paddr len)) [
            | inl refused ↦ rw refused record { only = refl }
            | inr (bytes, e) ↦ rw e record { only = tt }
          ])

    store_bytes-TrapsOnly :
        (addr paddr len : ℕ) (bytes : List ℕ) (port : Port S)
        → TrapsOnly
            (Only (mem_trap cause_fault_store addr))
            (store_bytes platform addr paddr bytes len port)
    unfolding store_bytes
    store_bytes-TrapsOnly addr paddr len bytes port =
        let P = Only (mem_trap cause_fault_store addr) in
        either P (addr_is_mem port.memory paddr) _ _
          (λ _. trace_or_refill-TrapsOnly P addr paddr len store _)
          (λ _. elim (Option-cases (mmio_store platform.devices port paddr bytes)) [
            | inl refused ↦ rw refused record { only = refl }
            | inr (q, e) ↦ rw e record { only = tt }
          ])

    load_slow_path-TrapsOnly :
        (addr len : ℕ) (port : Port S)
        → TrapsOnly (Only (mem_trap cause_fault_load addr)) (load_slow_path platform addr len port)
    unfolding load_slow_path
    load_slow_path-TrapsOnly addr len port =
        let P = Only (mem_trap cause_fault_load addr) in
        and_then-TrapsOnly P _ _ (translated-TrapsOnly P addr load port) λ paddr q.
          and_then-TrapsOnly P _ _ (load_bytes-TrapsOnly addr paddr len q) λ bytes q'.
            and_then-TrapsOnly P (λ _. pure bytes) _
              (check_bytes-TrapsOnly P operation_load addr len bytes q') λ _ _. record { only = tt }

    store_slow_path-TrapsOnly :
        (addr len : ℕ) (bytes : List ℕ) (port : Port S)
        → TrapsOnly
            (Only (mem_trap cause_fault_store addr))
            (store_slow_path platform addr len bytes port)
    unfolding store_slow_path
    store_slow_path-TrapsOnly addr len bytes port =
        let P = Only (mem_trap cause_fault_store addr) in
        and_then-TrapsOnly P _ _ (translated-TrapsOnly P addr store port) λ paddr q.
          and_then-TrapsOnly P _ _ (check_bytes-TrapsOnly P operation_store addr len bytes q)
            λ _ q'. store_bytes-TrapsOnly addr paddr len bytes q'

    load_value-TrapsOnly :
        (signed : Bool) (size addr : ℕ) (port : Port S)
        → TrapsOnly (Only (load_trap addr size)) (load_value platform signed size addr port)
    unfolding load_value
    load_value-TrapsOnly signed size addr port =
        let P = Only (mem_trap cause_fault_load addr) in
        let vpn = shr addr pgshift in
        let tag = tlb_tag port.hart.mmu load (vpn % tlb_entries) in
        let off = add64 (port.hart.mmu.tlb_data (vpn % tlb_entries)) addr in
        let read = to_reg signed size (read_bytes size port.memory.mem off) in
        elim (Bool-cases (unaligned addr size)) [
          | inl off ↦ rw (off, load_value) record { only = refl }
          | inr aligned ↦
              rw (aligned, load_value)
                (either P (tag == vpn) _ _ (λ _. record { only = tt })
                  λ _.
                    either P (tag == bit_or vpn tlb_check_triggers) _ _
                      (λ _.
                        and_then-TrapsOnly P (λ _. pure read) _
                          (check_trigger-TrapsOnly P operation_load addr _ port)
                          λ _ _. record { only = tt })
                      (λ _.
                        and_then-TrapsOnly P (λ bytes. pure (to_reg signed size (host_value bytes)))
                          _ (load_slow_path-TrapsOnly addr size port) λ _ _. record { only = tt }))
        ]

    store_value-TrapsOnly :
        (size addr val : ℕ) (port : Port S)
        → TrapsOnly (Only (store_trap addr size)) (store_value platform size addr val port)
    unfolding store_value
    store_value-TrapsOnly size addr val port =
        let P = Only (mem_trap cause_fault_store addr) in
        let vpn = shr addr pgshift in
        let tag = tlb_tag port.hart.mmu store (vpn % tlb_entries) in
        let off = add64 (port.hart.mmu.tlb_data (vpn % tlb_entries)) addr in
        let v = val % 2 ^ (8 * size) in
        elim (Bool-cases (unaligned addr size)) [
          | inl off ↦ rw (off, store_value) record { only = refl }
          | inr aligned ↦
              rw (aligned, store_value)
                (either P (tag == vpn) _ _ (λ _. record { only = tt })
                  λ _.
                    either P (tag == bit_or vpn tlb_check_triggers) _ _
                      (λ _.
                        and_then-TrapsOnly P (λ _. poke size off v) _
                          (check_trigger-TrapsOnly P operation_store addr _ port)
                          λ _ _. record { only = tt })
                      (λ _. store_slow_path-TrapsOnly addr size _ port))
        ]

    weaken :
        {A : Type 0} (P Q : Trap → Type 0) (r : Port S × Access A)
        → ((t : Trap) → P t → Q t)
        → TrapsOnly P r
        → TrapsOnly Q r
    weaken P Q (port, done a) h k = record { only = tt }
    weaken P Q (port, traps t) h k = record { only = h t k.only }
    weaken P Q (port, triggers t) h k = record { only = tt }
    weaken P Q (port, aborts) h k = record { only = tt }

    -- The faults of an aligned access.
    abbrev Fault : ℕ → Trap → Type 0
    Fault addr t = (t ≡ mem_trap cause_fault_load addr) ⊎ (t ≡ mem_trap cause_fault_store addr)

    as_store_fault-TrapsOnly :
        {A : Type 0} (addr : ℕ) (r : Port S × Access A)
        → TrapsOnly (Fault addr) r
        → TrapsOnly (Only (mem_trap cause_fault_store addr)) (r.0, as_store_fault r.1)
    unfolding as_store_fault
    as_store_fault-TrapsOnly addr (port, done a) h = record { only = tt }
    as_store_fault-TrapsOnly addr (port, traps t) h = elim (h.only) [
      | inl e ↦ rw e record { only = refl }
      | inr e ↦ rw e record { only = refl }
    ]
    as_store_fault-TrapsOnly addr (port, triggers t) h = record { only = tt }
    as_store_fault-TrapsOnly addr (port, aborts) h = record { only = tt }

    -- The only trap that an atomic operation throws is a store trap at its address: misaligned where
    -- the address is not aligned, and else an access fault, be it the load or the store that faults.
    pub amo_value-TrapsOnly :
        (size addr : ℕ) (f : ℕ → ℕ) (port : Port S)
        → TrapsOnly (Only (store_trap addr size)) (amo_value platform size addr f port)
    unfolding amo_value
    amo_value-TrapsOnly size addr f port = elim (Bool-cases (unaligned addr size)) [
      | inl off ↦ rw (off, amo_value) record { only = refl }
      | inr aligned ↦
          let loads =
            weaken _ (Fault addr) (load_value platform false size addr port)
              (λ t e. inl (e ∙ rw aligned refl)) (load_value-TrapsOnly false size addr port) in
          let stores = λ (lhs : ℕ) (q : Port S).
            weaken _ (Fault addr) (store_value platform size addr (f lhs) q)
              (λ t e. inr (e ∙ rw aligned refl)) (store_value-TrapsOnly size addr (f lhs) q) in
          rw (aligned, amo_value)
            (as_store_fault-TrapsOnly addr _ (
              and_then-TrapsOnly (Fault addr) _ _ loads λ lhs q.
                and_then-TrapsOnly (Fault addr) (λ _. pure lhs) _ (stores lhs q)
                  λ _ _. record { only = tt }))
    ]
