-- ===== src/Devices.antt =====
-- riscv/devices.h, devices.cc, rom.cc, rtc.cc and the device side of a processor (processor.cc): the
-- bus and what stands on it. A device acts on the state `S` of the whole machine.
pub mod Bus
pub mod Timer
pub mod Debug
use spike.Base.{
  ℕ, zero, suc, ◌+◌, ◌-◌, ◌*◌, ◌/◌, ◌%◌, ◌^◌, bit_and, bit_or, Bool, true, false, ◌||◌, ltb, leb,
  ◌==◌, if◌then◌else◌, Option, none, some, List, [], ◌∷◌, length, take, drop, get_or, truth, add64,
  sub64, neg64, not64,
}
use spike.Encoding.{mip_mtip, mip_msip}
use spike.Processor.State.{Processor, State}

-- `abstract_device_t`; `none` is the result `false`.
pub record Device (S : Type 0) : Type 0 where
  pub load : S → ℕ → ℕ → Option (List ℕ)
  pub store : S → ℕ → List ℕ → Option S

module _ {S : Type 0} where
  -- `bus_t::devices`, a `std::map` in the order of its keys, the negated base addresses.
  insert_device : List (ℕ × Device S) → ℕ → Device S → List (ℕ × Device S)
  insert_device [] key dev = (key, dev) ∷ []
  insert_device ((k, d) ∷ rest) key dev =
      let later = insert_device rest key dev in
      if ltb key k
      then (key, dev) ∷ (k, d) ∷ rest
      else if k == key
      then (k, dev) ∷ rest
      else (k, d) ∷ later

  unfoldable pub add_device : List (ℕ × Device S) → ℕ → Device S → List (ℕ × Device S)
  unfolding insert_device
  add_device devices addr dev = insert_device devices (neg64 addr) dev

  -- `std::map::lower_bound`: the first entry whose key is not less.
  unfoldable pub lower_bound : List (ℕ × Device S) → ℕ → Option (ℕ × Device S)
  lower_bound [] key = none
  lower_bound ((k, d) ∷ rest) key =
      let later = lower_bound rest key in if ltb k key then later else some (k, d)

  -- `bus_t::load` and `bus_t::store`
  unfoldable pub bus_load : List (ℕ × Device S) → S → ℕ → ℕ → Option (List ℕ)
  unfolding lower_bound
  bus_load devices s addr len = elim (lower_bound devices (neg64 addr)) [
    | none ↦ none
    | some entry ↦ entry.1.load s (sub64 addr (neg64 entry.0)) len
  ]

  unfoldable pub bus_store : List (ℕ × Device S) → S → ℕ → List ℕ → Option S
  unfolding lower_bound
  bus_store devices s addr bytes = elim (lower_bound devices (neg64 addr)) [
    | none ↦ none
    | some entry ↦ entry.1.store s (sub64 addr (neg64 entry.0)) bytes
  ]

  -- `sim_t::mmio_load` and `sim_t::mmio_store`
  unfoldable pub mmio_load : List (ℕ × Device S) → S → ℕ → ℕ → Option (List ℕ)
  unfolding bus_load
  mmio_load devices s addr len =
      if ltb (add64 addr len) addr then none else bus_load devices s addr len

  unfoldable pub mmio_store : List (ℕ × Device S) → S → ℕ → List ℕ → Option S
  unfolding bus_store
  mmio_store devices s addr bytes =
      if ltb (add64 addr (length bytes)) addr then none else bus_store devices s addr bytes

  -- `rom_device_t`
  unfoldable pub rom_device : List ℕ → Device S
  rom_device contents = record {
    load = λ s addr len.
        if ltb (length contents) (add64 addr len)
        then none
        else some (take len (drop addr contents));
    store = λ s addr bytes. none;
  }

-- `rtc_t` and the processors whose timer it is: `regs` holds the time, then a comparand for each of
-- the `count` processors.
pub record Rtc : Type 0 where
  pub count : ℕ
  pub regs : ℕ → ℕ
  pub procs : ℕ → Processor

-- The body of the loop of `rtc_t::increment`.
unfoldable pub set_mtip : Processor → Bool → Processor
set_mtip p due = record p {
  state = record p.state {
    mip =
        let clear = bit_and p.state.mip (not64 mip_mtip) in
        if due then bit_or clear mip_mtip else clear;
  };
}

update_timers : ℕ → ℕ → (ℕ → ℕ) → (ℕ → Processor) → ℕ → Processor
unfolding set_mtip
update_timers zero i regs procs = procs
update_timers (suc n) i regs procs =
    update_timers n (suc i) regs
      λ j. if j == i then set_mtip (procs i) (leb (regs (1 + i)) (regs 0)) else procs j

-- `rtc_t::increment`
unfoldable pub increment : Rtc → ℕ → Rtc
unfolding update_timers
increment rtc inc =
    let regs : ℕ → ℕ = λ j. if j == 0 then add64 (rtc.regs 0) inc else rtc.regs j in
    record rtc { regs = regs; procs = update_timers rtc.count 0 regs rtc.procs }

-- `size`, and the bytes of the registers from an address on, as `memcpy` reads and writes them.
abbrev pub rtc_size : Rtc → ℕ
rtc_size rtc = (1 + rtc.count) * 8

rtc_bytes : ℕ → (ℕ → ℕ) → ℕ → List ℕ
rtc_bytes zero regs addr = []
rtc_bytes (suc len) regs addr =
    regs (addr / 8) / 2 ^ (8 * (addr % 8)) % 2 ^ 8 ∷ rtc_bytes len regs (addr + 1)

abbrev set_byte : ℕ → ℕ → ℕ → ℕ
set_byte word k b = word % 2 ^ (8 * k) + b * 2 ^ (8 * k) + word / 2 ^ (8 * k + 8) * 2 ^ (8 * k + 8)

rtc_write : List ℕ → (ℕ → ℕ) → ℕ → ℕ → ℕ
rtc_write [] regs addr = regs
rtc_write (b ∷ bytes) regs addr =
    rtc_write bytes (λ j. if j == addr / 8 then set_byte (regs j) (addr % 8) b else regs j)
      (addr + 1)

-- `rtc_t::load` and `rtc_t::store`
unfoldable pub rtc_load : Rtc → ℕ → ℕ → Option (List ℕ)
unfolding rtc_bytes
rtc_load rtc addr len =
    if ltb (rtc_size rtc) (add64 addr len) then none else some (rtc_bytes len rtc.regs addr)

unfoldable pub rtc_store : Rtc → ℕ → List ℕ → Option Rtc
unfolding rtc_write increment
rtc_store rtc addr bytes =
    if ltb (rtc_size rtc) (add64 addr (length bytes)) || ltb addr 8
    then none
    else some (increment (record rtc { regs = rtc_write bytes rtc.regs addr }) 0)

-- `processor_t::load` and `processor_t::store`: the software interrupt bit of the processor.
abbrev pub processor_load : Processor → ℕ → ℕ → Option (List ℕ)
processor_load p addr len = none

unfoldable pub processor_store : Processor → ℕ → List ℕ → Option Processor
processor_store p addr bytes =
    if addr == 0
    then some (record p {
      state = record p.state {
        mip =
            let clear = bit_and p.state.mip (not64 mip_msip) in
            if truth (bit_and (get_or bytes 0 0) 1) then bit_or clear mip_msip else clear;
      };
    })
    else none
