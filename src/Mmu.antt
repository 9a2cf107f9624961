-- ===== src/Mmu.antt =====
-- riscv/mmu.h and riscv/mmu.cc: target memory as the MMU sees it, the page-table walk, translation,
-- and the TLB.
pub mod Data
pub mod Direct
pub mod Faults
pub mod Fetch
pub mod Parcels
pub mod Port
pub mod Roundtrip
pub mod Tlb
pub mod Walk
use spike.Base.{
  ℕ, zero, suc, ◌+◌, ◌-◌, ◌*◌, ◌/◌, ◌%◌, ◌^◌, bit_and, bit_or, Bool, true, false, ◌&&◌, ◌||◌, not,
  ltb, leb, ◌==◌, if◌then◌else◌, Option, none, some, truth, from_bool, add64, sub64, not64, shl64,
  shr, all_ones,
}
use spike.Decode.{get_field}
use spike.Encoding.{
  prv_s, prv_m, mstatus_vm, mstatus_mpp, mstatus_mprv, mstatus_pum, mstatus_mxr, vm_mbare, vm_sv32,
  vm_sv39, vm_sv48, dram_base, pte_v, pte_r, pte_w, pte_x, pte_u, pte_a, pte_d, pte_ppn_shift,
}
use spike.Processor.State.{Mmu, Processor, State}

-- `access_type` (riscv/memtracer.h)
pub data AccessType : Type 0 where
  load store fetch : AccessType

-- The memory of the target (`sim_t::mem` and `memsz`), a byte at each offset.
pub record Memory : Type 0 where
  pub memsz : ℕ
  pub mem : ℕ → ℕ

-- `sim_t::addr_is_mem` and `sim_t::addr_to_mem`; a host address is an offset into `mem`.
unfoldable pub addr_is_mem : Memory → ℕ → Bool
addr_is_mem memory addr = leb dram_base addr && ltb addr (add64 dram_base memory.memsz)

unfoldable pub addr_to_mem : ℕ → ℕ
addr_to_mem addr = sub64 addr dram_base

-- A little-endian read of `len` bytes, and a write.
unfoldable pub read_bytes : ℕ → (ℕ → ℕ) → ℕ → ℕ
read_bytes zero mem off = 0
read_bytes (suc len) mem off = mem off + 2 ^ 8 * read_bytes len mem (off + 1)

unfoldable pub write_bytes : ℕ → (ℕ → ℕ) → ℕ → ℕ → ℕ → ℕ
write_bytes zero mem off val = mem
write_bytes (suc len) mem off val =
    let rest = write_bytes len mem (off + 1) (val / 2 ^ 8) in
    λ i. if i == off then val % 2 ^ 8 else rest i

abbrev pub pgshift : ℕ
pgshift = 12

-- `PTE_TABLE`
unfoldable pub pte_table : ℕ → Bool
pte_table pte = bit_and pte (bit_or (bit_or pte_v pte_r) (bit_or pte_w pte_x)) == pte_v

-- The three tests on a PTE that is not a table.
unfoldable pub pte_wrong_mode : ℕ → Bool → Bool → Bool
pte_wrong_mode pte supervisor pum =
    if truth (bit_and pte pte_u) then supervisor && pum else not supervisor

unfoldable pub pte_reserved : ℕ → Bool
pte_reserved pte =
    not (truth (bit_and pte pte_v))
    || (not (truth (bit_and pte pte_r)) && truth (bit_and pte pte_w))

unfoldable pub pte_denies : ℕ → AccessType → Bool → Bool
pte_denies pte fetch mxr = not (truth (bit_and pte pte_x))
pte_denies pte load mxr = not (truth (bit_and pte pte_r)) && not (mxr && truth (bit_and pte pte_x))
pte_denies pte store mxr = not (truth (bit_and pte pte_r) && truth (bit_and pte pte_w))

-- `PTE_A | ((type == STORE) * PTE_D)`
unfoldable pub accessed_bits : AccessType → ℕ
accessed_bits load = pte_a
accessed_bits store = bit_or pte_a pte_d
accessed_bits fetch = pte_a

-- What one walk is given: the sizes of the mode, the access and the status bits.
pub record Request : Type 0 where
  pub ptidxbits : ℕ
  pub ptesize : ℕ
  pub addr : ℕ
  pub type : AccessType
  pub supervisor : Bool
  pub pum : Bool
  pub mxr : Bool

unfoldable pub pte_addr : Request → ℕ → ℕ → ℕ
pte_addr r base ptshift =
    add64 base (bit_and (shr r.addr (pgshift + ptshift)) (2 ^ r.ptidxbits - 1) * r.ptesize)

unfoldable pub read_pte : Request → Memory → ℕ → ℕ
unfolding read_bytes addr_to_mem
read_pte r memory at = read_bytes r.ptesize memory.mem (addr_to_mem at)

unfoldable pub leaf_value : Request → ℕ → ℕ → ℕ
leaf_value r pte ptshift =
    shl64 (bit_or (shr pte pte_ppn_shift) (bit_and (shr r.addr pgshift) (2 ^ ptshift - 1))) pgshift

unfoldable pub mark_accessed : Request → Memory → ℕ → Memory
unfolding read_bytes write_bytes addr_to_mem accessed_bits
mark_accessed r memory at = record memory {
  mem =
      write_bytes 4 memory.mem (addr_to_mem at)
        (bit_or (read_bytes 4 memory.mem (addr_to_mem at)) (accessed_bits r.type));
}

-- What `walk` does with the PTE of a level that is no table.
unfoldable pub walk_leaf : Request → Memory → ℕ → ℕ → ℕ → ℕ × Memory
unfolding pte_wrong_mode pte_reserved pte_denies leaf_value mark_accessed
walk_leaf r memory at pte ptshift =
    if pte_wrong_mode pte r.supervisor r.pum
    then (all_ones, memory)
    else if pte_reserved pte
    then (all_ones, memory)
    else if pte_denies pte r.type r.mxr
    then (all_ones, memory)
    else (leaf_value r pte ptshift, mark_accessed r memory at)

-- The loop of `mmu_t::walk`, with `n` levels left.
unfoldable pub walk_levels : Request → Memory → ℕ → ℕ → ℕ × Memory
unfolding addr_is_mem pte_addr read_pte pte_table walk_leaf
walk_levels r memory zero base = (all_ones, memory)
walk_levels r memory (suc n) base =
    let at = pte_addr r base (n * r.ptidxbits) in
    let pte = read_pte r memory at in
    let next = walk_levels r memory n (shl64 (shr pte pte_ppn_shift) pgshift) in
    if addr_is_mem memory at
    then if pte_table pte then next else walk_leaf r memory at pte (n * r.ptidxbits)
    else (all_ones, memory)

-- The sizes of the paging mode (levels, index bits, bytes of a PTE); `none` is the `abort`.
unfoldable pub paging_mode : ℕ → Option (ℕ × ℕ × ℕ)
paging_mode vm =
    if vm == vm_sv32
    then some (2, 10, 4)
    else if vm == vm_sv39
    then some (3, 9, 8)
    else if vm == vm_sv48
    then some (4, 9, 8)
    else none

unfoldable pub canonical : ℕ → ℕ → ℕ → Bool
canonical xlen va_bits addr =
    let mask = sub64 (shl64 1 (xlen - (va_bits - 1))) 1 in
    let msbs = bit_and (shr addr (va_bits - 1)) mask in (msbs == 0) || (msbs == mask)

-- `mmu_t::walk`
unfoldable pub walk_with :
    Processor → Memory → ℕ → AccessType → ℕ → Option (ℕ × ℕ × ℕ) → Option (ℕ × Memory)
unfolding walk_levels canonical
walk_with p memory addr type mode none = none
walk_with p memory addr type mode (some (levels, ptidxbits, ptesize)) =
    let r : Request = record {
      ptidxbits = ptidxbits;
      ptesize = ptesize;
      addr = addr;
      type = type;
      supervisor = mode == prv_s;
      pum = truth (get_field p.state.mstatus mstatus_pum);
      mxr = truth (get_field p.state.mstatus mstatus_mxr);
    } in
    if canonical p.xlen (pgshift + levels * ptidxbits) addr
    then some (walk_levels r memory levels (shl64 p.state.sptbr pgshift))
    else some (all_ones, memory)

unfoldable pub walk : Processor → Memory → ℕ → AccessType → ℕ → Option (ℕ × Memory)
unfolding walk_with paging_mode
walk p memory addr type mode =
    walk_with p memory addr type mode (paging_mode (get_field p.state.mstatus mstatus_vm))

-- The privilege that `mmu_t::translate` uses.
unfoldable pub data_mode : Processor → ℕ
data_mode p =
    if not (truth p.state.dcsr.cause) && truth (get_field p.state.mstatus mstatus_mprv)
    then get_field p.state.mstatus mstatus_mpp
    else p.state.prv

unfoldable pub access_mode : Processor → AccessType → ℕ
unfolding data_mode
access_mode p load = data_mode p
access_mode p store = data_mode p
access_mode p fetch = p.state.prv

-- `mmu_t::translate`, of a processor's MMU.
unfoldable pub translate : Processor → Memory → ℕ → AccessType → Option (ℕ × Memory)
unfolding walk access_mode
translate p memory addr type =
    let bare = get_field p.state.mstatus mstatus_vm == vm_mbare in
    let mode = if bare then prv_m else access_mode p type in
    if mode == prv_m
    then some (bit_and addr (sub64 (shl64 2 (p.xlen - 1)) 1), memory)
    else elim (walk p memory addr type mode) [
      | none ↦ none
      | some r ↦ some (bit_or r.0 (bit_and addr (2 ^ pgshift - 1)), r.1)
    ]

-- The TLB. `TLB_ENTRIES` and `TLB_CHECK_TRIGGERS`
abbrev pub tlb_entries : ℕ
tlb_entries = 256

abbrev pub tlb_check_triggers : ℕ
tlb_check_triggers = 2 ^ 63

abbrev pub put : (ℕ → ℕ) → ℕ → ℕ → ℕ → ℕ
put f i v j = if j == i then v else f j

-- A tag that `refill_tlb` leaves, or clears as it names another page.
unfoldable pub kept_tag : ℕ → ℕ → ℕ
kept_tag tag expected = if bit_and tag (not64 tlb_check_triggers) == expected then tag else all_ones

unfoldable pub checks : Mmu → AccessType → Bool
checks m fetch = m.check_triggers_fetch
checks m load = m.check_triggers_load
checks m store = m.check_triggers_store

unfoldable pub refill_tags : Mmu → AccessType → ℕ → ℕ → Mmu
refill_tags m fetch idx tag = record m { tlb_insn_tag = put m.tlb_insn_tag idx tag }
refill_tags m load idx tag = record m { tlb_load_tag = put m.tlb_load_tag idx tag }
refill_tags m store idx tag = record m { tlb_store_tag = put m.tlb_store_tag idx tag }

-- `mmu_t::refill_tlb`
unfoldable pub refill_tlb : Mmu → ℕ → ℕ → AccessType → Mmu
unfolding kept_tag checks refill_tags addr_to_mem
refill_tlb m vaddr paddr type =
    let idx = shr vaddr pgshift % tlb_entries in
    let expected = shr vaddr pgshift in
    let kept = record m {
      tlb_load_tag = put m.tlb_load_tag idx (kept_tag (m.tlb_load_tag idx) expected);
      tlb_store_tag = put m.tlb_store_tag idx (kept_tag (m.tlb_store_tag idx) expected);
      tlb_insn_tag = put m.tlb_insn_tag idx (kept_tag (m.tlb_insn_tag idx) expected);
    } in
    let tag = if checks m type then bit_or expected tlb_check_triggers else expected in
    let filled = refill_tags kept type idx tag in
    record filled { tlb_data = put filled.tlb_data idx (sub64 (addr_to_mem paddr) vaddr) }

-- The tag that the fast paths of `load_func`, `store_func` and `translate_insn_addr` read, and the
-- host address that they take when the tag, with the trigger bit or without, is that of the page.
unfoldable pub tlb_tag : Mmu → AccessType → ℕ → ℕ
tlb_tag m fetch idx = m.tlb_insn_tag idx
tlb_tag m load idx = m.tlb_load_tag idx
tlb_tag m store idx = m.tlb_store_tag idx

unfoldable pub tlb_hit : Mmu → AccessType → ℕ → Option ℕ
unfolding tlb_tag
tlb_hit m type addr =
    let vpn = shr addr pgshift in
    let tag = tlb_tag m type (vpn % tlb_entries) in
    if (tag == vpn) || (tag == bit_or vpn tlb_check_triggers)
    then some (add64 (m.tlb_data (vpn % tlb_entries)) addr)
    else none
