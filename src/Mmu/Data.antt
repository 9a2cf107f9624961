-- ===== src/Mmu/Data.antt =====
-- riscv/mmu.h and riscv/mmu.cc: loads, stores and atomic operations, with the TLB's fast paths and the
-- slow paths.
use spike.Base.{
  ℕ, zero, suc, ◌+◌, ◌-◌, ◌*◌, ◌/◌, ◌%◌, ◌^◌, bit_and, bit_or, Bool, false, ◌==◌, if◌then◌else◌,
  Option, none, some, List, [], ◌∷◌, get_or, truth, add64, shl64, shr, sra64,
}
use spike.Devices.{mmio_load, mmio_store}
use spike.Encoding.{
  cause_misaligned_load, cause_misaligned_store, cause_fault_load, cause_fault_store,
}
use spike.Mmu.{
  AccessType, load, store, addr_is_mem, addr_to_mem, read_bytes, write_bytes, translate, refill_tlb,
  tlb_tag, tlb_entries, tlb_check_triggers, pgshift,
}
use spike.Mmu.Port.{
  Access, done, traps, triggers, aborts, M, and_then, ◌>>=◌, ◌>>◌, pure, with_mmu, Platform,
  interested_in_range, trace,
}
use spike.Processor.State.{TriggerOperation, operation_store, operation_load, TriggerMatched}
use spike.Processor.Trap.{Trap}
use spike.Processor.Triggers.{trigger_match}

-- `memcpy` from and to the target's memory.
unfoldable pub bytes_at : ℕ → (ℕ → ℕ) → ℕ → List ℕ
bytes_at zero mem off = []
bytes_at (suc len) mem off = mem off ∷ bytes_at len mem (off + 1)

unfoldable pub copy_bytes : (ℕ → ℕ) → ℕ → List ℕ → ℕ → ℕ
copy_bytes mem off [] = mem
copy_bytes mem off (b ∷ bytes) =
    let rest = copy_bytes mem (off + 1) bytes in λ i. if i == off then b else rest i

-- The bytes of an integer on a little-endian host, and the integer of some bytes.
unfoldable pub host_bytes : ℕ → ℕ → List ℕ
host_bytes zero val = []
host_bytes (suc len) val = val % 2 ^ 8 ∷ host_bytes len (val / 2 ^ 8)

unfoldable pub host_value : List ℕ → ℕ
host_value [] = 0
host_value (b ∷ bytes) = b + 2 ^ 8 * host_value bytes

-- `reg_from_bytes`; `none` is the `abort`.
unfoldable pub reg_from_bytes : ℕ → List ℕ → Option ℕ
reg_from_bytes len bytes =
    let low = bit_or (get_or bytes 0 0) (shl64 (get_or bytes 1 0) 8) in
    let half = bit_or (bit_or low (shl64 (get_or bytes 2 0) 16)) (shl64 (get_or bytes 3 0) 24) in
    let more = bit_or (bit_or half (shl64 (get_or bytes 4 0) 32)) (shl64 (get_or bytes 5 0) 40) in
    if len == 1
    then some (get_or bytes 0 0)
    else if len == 2
    then some low
    else if len == 4
    then some half
    else if len == 8
    then some (bit_or (bit_or more (shl64 (get_or bytes 6 0) 48)) (shl64 (get_or bytes 7 0) 56))
    else none

-- The conversion of a value of `size` bytes to `reg_t`, signed or not.
unfoldable pub to_reg : Bool → ℕ → ℕ → ℕ
to_reg signed size v = if signed then sra64 (shl64 v (64 - 8 * size)) (64 - 8 * size) else v

abbrev pub mem_trap : ℕ → ℕ → Trap
mem_trap cause addr = record { cause = cause; badaddr = some addr }

-- `addr & (sizeof(type##_t)-1)`
abbrev pub unaligned : ℕ → ℕ → Bool
unaligned addr size = truth (bit_and addr (size - 1))

-- The `catch` of `amo_func`: a fault of the load is one of a store.
unfoldable pub as_store_fault : {A : Type 0} → Access A → Access A
as_store_fault (traps t) =
    if t.cause == cause_fault_load then traps (record t { cause = cause_fault_store }) else traps t
as_store_fault a = a

module _ {S : Type 0} where
  -- `trigger_exception` with the test of `matched_trigger` around it, in loads and stores alike.
  unfoldable pub check_trigger : TriggerOperation → ℕ → ℕ → M S (Unit {0})
  check_trigger operation addr val port =
      let p = port.hart in
      let matched : ℕ → TriggerMatched =
        λ i. record { index = i; operation = operation; address = addr; value = val } in
      elim p.mmu.matched_trigger [
        | some t ↦ (port, done tt)
        | none ↦ elim (trigger_match p operation addr val) [
          | none ↦ (port, done tt)
          | some i ↦
              if (p.state.mcontrol i).timing
              then (
                record port {
                  hart = with_mmu p (record p.mmu { matched_trigger = some (matched i) });
                },
                triggers (matched i),
              )
              else (port, triggers (matched i))
        ]
      ]

  -- `translate`, with its effect on the page tables.
  unfoldable pub translated : ℕ → AccessType → M S ℕ
  translated addr type port = elim (translate port.hart port.memory addr type) [
    | none ↦ (port, aborts)
    | some r ↦ (record port { memory = r.1 }, done r.0)
  ]

  unfoldable pub refill : ℕ → ℕ → AccessType → M S (Unit {0})
  refill addr paddr type port = (
    record port { hart = with_mmu port.hart (refill_tlb port.hart.mmu addr paddr type) },
    done tt,
  )

  -- The value at a host address, and its replacement.
  abbrev pub peek : ℕ → ℕ → M S ℕ
  peek size off port = (port, done (read_bytes size port.memory.mem off))

  abbrev pub poke : ℕ → ℕ → ℕ → M S (Unit {0})
  poke size off val port = (
    record port { memory = record port.memory { mem = write_bytes size port.memory.mem off val } },
    done tt,
  )

  module _ (platform : Platform S) where
    -- `tracer.trace` if a tracer is interested in the page, else `refill_tlb`.
    unfoldable pub trace_or_refill : ℕ → ℕ → ℕ → AccessType → M S (Unit {0})
    unfolding refill
    trace_or_refill addr paddr len type port =
        if interested_in_range platform.tracers port.rest paddr (add64 paddr (2 ^ pgshift)) type
        then (record port { rest = trace platform.tracers port.rest paddr len type }, done tt)
        else refill addr paddr type port

    -- `load_slow_path`: the bytes that it leaves.
    unfoldable pub load_bytes : ℕ → ℕ → ℕ → M S (List ℕ)
    unfolding trace_or_refill and_then
    load_bytes addr paddr len port =
        if addr_is_mem port.memory paddr
        then (trace_or_refill addr paddr len load
              >> pure (bytes_at len port.memory.mem (addr_to_mem paddr)))
            port
        else elim (mmio_load platform.devices port paddr len) [
          | none ↦ (port, traps (mem_trap cause_fault_load addr))
          | some bytes ↦ (port, done bytes)
        ]

    unfoldable pub check_bytes : TriggerOperation → ℕ → ℕ → List ℕ → M S (Unit {0})
    check_bytes operation addr len bytes port = elim port.hart.mmu.matched_trigger [
      | some t ↦ (port, done tt)
      | none ↦ elim (reg_from_bytes len bytes) [
        | none ↦ (port, aborts)
        | some val ↦ check_trigger operation addr val port
      ]
    ]

    unfoldable pub load_slow_path : ℕ → ℕ → M S (List ℕ)
    unfolding translated load_bytes check_bytes and_then
    load_slow_path addr len = do
      paddr ← translated addr load
      bytes ← load_bytes addr paddr len
      check_bytes operation_load addr len bytes
      pure bytes

    unfoldable pub store_bytes : ℕ → ℕ → List ℕ → ℕ → M S (Unit {0})
    unfolding trace_or_refill
    store_bytes addr paddr bytes len port =
        if addr_is_mem port.memory paddr
        then trace_or_refill addr paddr len store (record port {
          memory = record port.memory {
            mem = copy_bytes port.memory.mem (addr_to_mem paddr) bytes;
          };
        })
        else elim (mmio_store platform.devices port paddr bytes) [
          | none ↦ (port, traps (mem_trap cause_fault_store addr))
          | some port' ↦ (port', done tt)
        ]

    -- `store_slow_path`
    unfoldable pub store_slow_path : ℕ → ℕ → List ℕ → M S (Unit {0})
    unfolding translated store_bytes check_bytes and_then
    store_slow_path addr len bytes = do
      paddr ← translated addr store
      check_bytes operation_store addr len bytes
      store_bytes addr paddr bytes len

    -- `load_func`, for a type of `size` bytes.
    unfoldable pub load_value : Bool → ℕ → ℕ → M S ℕ
    unfolding load_slow_path check_trigger and_then
    load_value signed size addr port =
        let m = port.hart.mmu in
        let vpn = shr addr pgshift in
        let tag = tlb_tag m load (vpn % tlb_entries) in
        let off = add64 (m.tlb_data (vpn % tlb_entries)) addr in
        let read = to_reg signed size (read_bytes size port.memory.mem off) in
        if unaligned addr size
        then (port, traps (mem_trap cause_misaligned_load addr))
        else if tag == vpn
        then (port, done read)
        else if tag == bit_or vpn tlb_check_triggers
        then (check_trigger operation_load addr read >> pure read) port
        else (load_slow_path addr size >>= λ bytes. pure (to_reg signed size (host_value bytes)))
            port

    -- `store_func`, for an unsigned type of `size` bytes.
    unfoldable pub store_value : ℕ → ℕ → ℕ → M S (Unit {0})
    unfolding store_slow_path check_trigger and_then
    store_value size addr val port =
        let m = port.hart.mmu in
        let vpn = shr addr pgshift in
        let tag = tlb_tag m store (vpn % tlb_entries) in
        let off = add64 (m.tlb_data (vpn % tlb_entries)) addr in
        let v = val % 2 ^ (8 * size) in
        if unaligned addr size
        then (port, traps (mem_trap cause_misaligned_store addr))
        else if tag == vpn
        then poke size off v port
        else if tag == bit_or vpn tlb_check_triggers
        then (check_trigger operation_store addr v >> poke size off v) port
        else store_slow_path addr size (host_bytes size v) port

    -- `amo_func`
    unfoldable pub amo_value : ℕ → ℕ → (ℕ → ℕ) → M S ℕ
    amo_value size addr f port =
        let run : M S ℕ = (do
          lhs ← load_value false size addr
          store_value size addr (f lhs)
          pure lhs) in
        if unaligned addr size
        then (port, traps (mem_trap cause_misaligned_store addr))
        else ((run port).0, as_store_fault (run port).1)
