-- ===== src/Mmu/Fetch.antt =====
-- riscv/mmu.h and riscv/mmu.cc: the fetch of an instruction in pieces of 16 bits, and the cache of
-- fetched instructions. The function of an instruction, which `decode_insn` finds, is not kept here.
use spike.Base.{
  ℕ, ◌/◌, ◌%◌, bit_or, ◌&&◌, ◌==◌, not, if◌then◌else◌, none, some, add64, shl64, shr, sra64,
  all_ones,
}
use spike.Decode.{insn_length}
use spike.Devices.{mmio_load}
use spike.Encoding.{cause_fault_fetch, dram_base}
use spike.Mmu.{
  fetch, addr_is_mem, addr_to_mem, read_bytes, tlb_tag, tlb_entries, tlb_check_triggers, pgshift,
  put,
}
use spike.Mmu.Data.{mem_trap, host_value, translated, refill}
use spike.Mmu.Port.{
  done, traps, triggers, M, and_then, ◌>>=◌, ◌>>◌, pure, modify, with_mmu, Platform,
  interested_in_range, trace,
}
use spike.Processor.State.{operation_execute}
use spike.Processor.Triggers.{trigger_match}

-- Sixteen bits and the host address that they stand at.
pub record Piece : Type 0 where
  pub at : ℕ
  pub bits : ℕ

-- The two conversions of a piece: `int16_t` to `insn_bits_t`.
abbrev pub sext16 : ℕ → ℕ
sext16 v = sra64 (shl64 v 48) 48

module _ {S : Type 0} (platform : Platform S) where
  -- `fetch_slow_path`, and the read through the pointer that it returns.
  unfoldable pub fetch_at : ℕ → ℕ → M S Piece
  unfolding refill and_then
  fetch_at vaddr paddr port =
      if (paddr == all_ones) && not (vaddr == all_ones)
      then (port, traps (mem_trap cause_fault_fetch vaddr))
      else if addr_is_mem port.memory paddr
      then (refill vaddr paddr fetch
            >> pure record {
              at = addr_to_mem paddr;
              bits = read_bytes 2 port.memory.mem (addr_to_mem paddr);
            })
          port
      else elim (mmio_load platform.devices port paddr 2) [
        | none ↦ (port, traps (mem_trap cause_fault_fetch vaddr))
        | some bytes ↦ (port, done record { at = platform.fetch_temp; bits = host_value bytes })
      ]

  unfoldable pub fetch_slow_path : ℕ → M S Piece
  unfolding translated fetch_at and_then
  fetch_slow_path vaddr = do paddr ← translated vaddr fetch; fetch_at vaddr paddr

  -- `translate_insn_addr`
  unfoldable pub translate_insn_addr : ℕ → M S Piece
  unfolding fetch_slow_path
  translate_insn_addr addr port =
      let m = port.hart.mmu in
      let vpn = shr addr pgshift in
      let tag = tlb_tag m fetch (vpn % tlb_entries) in
      let off = add64 (m.tlb_data (vpn % tlb_entries)) addr in
      let bits = read_bytes 2 port.memory.mem off in
      let piece : Piece = record { at = off; bits = bits } in
      if tag == vpn
      then (port, done piece)
      else if tag == bit_or vpn tlb_check_triggers
      then (elim (trigger_match port.hart operation_execute addr bits) [
        | none ↦ (port, done piece)
        | some i ↦ (
          port,
          triggers
              record { index = i; operation = operation_execute; address = addr; value = bits },
        )
      ])
      else fetch_slow_path addr port

  -- The pieces after the first, as the switch on the length reads them.
  unfoldable pub fetch_rest : ℕ → ℕ → ℕ → M S ℕ
  fetch_rest addr length low =
      if length == 4
      then (do b ← translate_insn_addr (add64 addr 2); pure (bit_or low (shl64 (sext16 b.bits) 16)))
      else if length == 2
      then pure (sext16 low)
      else if length == 6
      then (do
        c ← translate_insn_addr (add64 addr 4)
        b ← translate_insn_addr (add64 addr 2)
        pure (bit_or (bit_or low (shl64 (sext16 c.bits) 32)) (shl64 b.bits 16)))
      else do
        d ← translate_insn_addr (add64 addr 6)
        c ← translate_insn_addr (add64 addr 4)
        b ← translate_insn_addr (add64 addr 2)
        pure (
            bit_or (bit_or (bit_or low (shl64 (sext16 d.bits) 48)) (shl64 c.bits 32))
              (shl64 b.bits 16))

  -- The tag that the entry gets; a traced instruction is not kept.
  unfoldable pub entry_tag : ℕ → ℕ → ℕ → M S ℕ
  entry_tag addr at length port =
      let paddr = add64 at dram_base in
      if interested_in_range platform.tracers port.rest paddr (add64 paddr 1) fetch
      then (
        record port { rest = trace platform.tracers port.rest paddr length fetch },
        done all_ones,
      )
      else (port, done addr)

  -- `refill_icache`: the tag and the word of the entry. `load_insn` drops the tag.
  unfoldable pub refill_icache : ℕ → M S (ℕ × ℕ)
  refill_icache addr = do
    a ← translate_insn_addr addr
    insn ← fetch_rest addr (insn_length a.bits) a.bits
    tag ← entry_tag addr a.at (insn_length a.bits)
    pure (tag, insn)

  unfoldable pub load_insn : ℕ → M S ℕ
  load_insn addr = do entry ← refill_icache addr; pure entry.1

  abbrev pub icache_index : ℕ → ℕ
  icache_index addr = addr / 2 % 1024

  unfoldable pub fill_entry : ℕ → ℕ × ℕ → M S (Unit {0})
  fill_entry i entry = modify λ p. with_mmu p (record p.mmu {
    icache_tag = put p.mmu.icache_tag i entry.0;
    icache_insn = put p.mmu.icache_insn i entry.1;
  })

  -- `access_icache`
  unfoldable pub access_icache : ℕ → M S ℕ
  access_icache addr port =
      let i = icache_index addr in
      if port.hart.mmu.icache_tag i == addr
      then (port, done (port.hart.mmu.icache_insn i))
      else (do entry ← refill_icache addr; fill_entry i entry; pure entry.1) port
