-- ===== src/Mmu/Parcels.antt =====
-- The fetch of an instruction of riscv/mmu.h against the memory that a page map shows.
use spike.Base.{
  ℕ, ◌+◌, ◌*◌, ◌/◌, ◌%◌, ◌^◌, ◌<◌, ◌≡◌, inl, inr, refl, sym, ap, ◌∙◌, arith, true, false, ◌==◌, [],
  Bool-cases, bit_or, add64, shl64, shr, all_ones, or_disjoint,
}
use spike.Decode.{insn_length, sext32}
use spike.Mmu.{
  fetch, Memory, addr_is_mem, read_bytes, refill_tlb, tlb_tag, tlb_entries, tlb_check_triggers,
  pgshift,
}
use spike.Mmu.Data.{refill}
use spike.Mmu.Direct.{Reaches, names, fast_place, translated-found}
use spike.Mmu.Fetch.{
  Piece, sext16, fetch_at, fetch_slow_path, translate_insn_addr, fetch_rest, entry_tag,
  refill_icache, load_insn,
}
use spike.Mmu.Port.{Port, Access, and_then, done, with_mmu, Platform, interested_in_range}
use spike.Mmu.Roundtrip.{reaches-moved}
use spike.Mmu.Tlb.{or_swap, IsCoherent, refill_tlb-IsCoherent}
use spike.Processor.State.{Mmu, operation_execute}

in_memory :
    (memory : Memory) (paddr : ℕ) → addr_is_mem memory paddr ≡ true → (paddr == all_ones) ≡ false
unfolding addr_is_mem
in_memory memory paddr e = ground arith

module _ {S : Type 0} (platform : Platform S) (place : ℕ → ℕ) (port : Port S) (addr : ℕ) where
  abbrev piece : Piece
  piece = record { at = place addr; bits = read_bytes 2 port.memory.mem (place addr) }

  fetch_slow_path-direct :
      (r : Reaches platform place port addr 2 fetch)
      → fetch_slow_path platform addr port ≡ (
        record port { hart = with_mmu port.hart (refill_tlb port.hart.mmu addr r.paddr fetch) },
        done piece,
      )
  unfolding fetch_slow_path fetch_at refill and_then
  fetch_slow_path-direct r =
      let inside = r.inside in
      let other = in_memory port.memory r.paddr inside in
      let placed = r.placed in
      let found = translated-found platform place port addr 2 fetch r.paddr r.found in
      rw (found, fetch_slow_path) (rw other (rw inside (rw placed refl)))

  abbrev piece_at : ℕ → Port S × Access Piece
  piece_at off = (port, done record { at = off; bits = read_bytes 2 port.memory.mem off })

  -- A piece of an instruction is the half word at its place, whether the TLB knows the page or not.
  translate_insn_addr-direct :
      Reaches platform place port addr 2 fetch
      → (m : Mmu) × (translate_insn_addr platform addr port
          ≡ (record port { hart = with_mmu port.hart m }, done piece))
        × IsCoherent place m
  unfolding translate_insn_addr names
  translate_insn_addr-direct r =
      let vpn = shr addr pgshift in
      let m = port.hart.mmu in
      let tag = tlb_tag m fetch (vpn % tlb_entries) in
      elim (Bool-cases (tag == vpn)) [
        | inl named ↦
            let hit : names m fetch addr ≡ true = rw named refl in
            let at = fast_place place m fetch addr r.coherent r.word hit in
            (m, rw (named, translate_insn_addr) (ap piece_at at), r.coherent)
        | inr other ↦ elim (Bool-cases (tag == bit_or vpn tlb_check_triggers)) [
          | inl checked ↦
              let hit : names m fetch addr ≡ true = rw (other, checked, names) refl in
              let at = fast_place place m fetch addr r.coherent r.word hit in
              let off = add64 (m.tlb_data (vpn % tlb_entries)) addr in
              let quiet = r.quiet operation_execute addr (read_bytes 2 port.memory.mem off) in
              (m, rw (other, checked, translate_insn_addr) (rw quiet (ap piece_at at)), r.coherent)
          | inr missed ↦
              let slow = fetch_slow_path-direct r in
              (
                refill_tlb m addr r.paddr fetch,
                rw (other, missed, translate_insn_addr) slow,
                refill_tlb-IsCoherent place m addr r.paddr fetch r.pages r.word r.placed r.coherent,
              )
        ]
      ]

-- Two half words, the second with its sign, make a word with its sign.
join_halves :
    (low high : ℕ)
    → low < 2 ^ 16
    → high < 2 ^ 16
    → bit_or low (shl64 (sext16 high) 16) ≡ sext32 (low + 2 ^ 16 * high)
unfolding sext32
join_halves low high l h =
    let upper = shl64 (sext16 high) 16 in
    let e : upper ≡ upper / 2 ^ 16 * 2 ^ 16 = ground arith in
    or_swap low upper
    ∙ ap (λ t. bit_or t low) e
    ∙ or_disjoint 16 (upper / 2 ^ 16) low l
    ∙ ground arith

read_bytes-lt : (mem : ℕ → ℕ) (off : ℕ) → ((i : ℕ) → mem i < 2 ^ 8) → read_bytes 2 mem off < 2 ^ 16
unfolding read_bytes
read_bytes-lt mem off bytes = let a = bytes off in let b = bytes (off + 1) in omega arith

read_bytes-halves :
    (mem : ℕ → ℕ) (off : ℕ)
    → read_bytes 4 mem off ≡ read_bytes 2 mem off + 2 ^ 16 * read_bytes 2 mem (off + 2)
unfolding read_bytes
read_bytes-halves mem off =
    let e : off + 1 + 1 ≡ off + 2 = omega arith in
    let e' : off + 2 + 1 ≡ off + 3 = omega arith in rw e (rw e' (omega arith))

module _ {S : Type 0} (platform : Platform S) (place : ℕ → ℕ) (port : Port S) (addr : ℕ) where
  entry_tag-untraced :
      (at length : ℕ) (q : Port S)
      → platform.tracers ≡ []
      → entry_tag platform addr at length q ≡ (q, done addr)
  unfolding entry_tag interested_in_range
  entry_tag-untraced at length q untraced = rw untraced refl

  -- A fetch of an instruction whose low bits say 32 bits gives the word in memory, extended with
  -- its sign, where the address is even, each half's translation leads into the memory, to the
  -- place that a map of whole pages gives, and leaves the page tables as they are, the map puts
  -- the second half right behind the first, on the same page or on the next, the TLB agrees with
  -- the map, the memory holds bytes, no trigger matches and no tracer is registered. Only the MMU
  -- changes, and its TLB still agrees with the map.
  pub load_insn-word :
      Reaches platform place port addr 2 fetch
      → Reaches platform place port (add64 addr 2) 2 fetch
      → place (add64 addr 2) ≡ place addr + 2
      → ((i : ℕ) → port.memory.mem i < 2 ^ 8)
      → insn_length (read_bytes 2 port.memory.mem (place addr)) ≡ 4
      → platform.tracers ≡ []
      → (m : Mmu) × (load_insn platform addr port ≡ (
        record port { hart = with_mmu port.hart m },
        done (sext32 (read_bytes 4 port.memory.mem (place addr))),
      ))
        × IsCoherent place m
  unfolding load_insn refill_icache fetch_rest and_then
  load_insn-word first second adjacent bytes long untraced =
      let mem = port.memory.mem in
      let low = read_bytes 2 mem (place addr) in
      let high = read_bytes 2 mem (place (add64 addr 2)) in
      let (m, run, coherent) = translate_insn_addr-direct platform place port addr first in
      let p = port.hart in
      let next =
        reaches-moved platform place (add64 addr 2) 2 port m p.state.xpr p.state.load_reservation
          fetch second coherent in
      let mid = record port { hart = with_mmu port.hart m } in
      let (m', run', coherent') =
        translate_insn_addr-direct platform place mid (add64 addr 2) next in
      let last = record port { hart = with_mmu port.hart m' } in
      let tag = entry_tag-untraced (place addr) 4 last untraced in
      let word : bit_or low (shl64 (sext16 high) 16) ≡ sext32 (read_bytes 4 mem (place addr)) =
        join_halves low high (read_bytes-lt mem _ bytes) (read_bytes-lt mem _ bytes)
        ∙ ap sext32 (
            ap (λ off. low + 2 ^ 16 * read_bytes 2 mem off) adjacent
            ∙ sym (read_bytes-halves mem (place addr))) in
      (m', rw run (rw long (rw run' (rw tag (rw word refl)))), coherent')
