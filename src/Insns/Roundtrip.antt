-- ===== src/Insns/Roundtrip.antt =====
-- What the loads, stores and atomic instructions under riscv/insns do together.
use spike.Base.{
  ℕ, ◌*◌, ◌%◌, ◌^◌, ◌<◌, ◌≡◌, ◌≢◌, inl, inr, refl, arith, true, false, ◌==◌, Bool-cases,
}
use spike.Decode.{get_field, rd, rs1, rs2, regfile_write}
use spike.Encoding.{mstatus_vm, vm_mbare}
use spike.Insns.{Fetched, reg1, reg2, write_reg}
use spike.Insns.Atomic.{letter_a, load_reserved, store_conditional, lr_d, sc_d}
use spike.Insns.Memory.{needs, load_x, store_reg, ld, sd, load_address, store_address}
use spike.Mmu.{load, store, read_bytes, write_bytes}
use spike.Mmu.Data.{to_reg}
use spike.Mmu.Direct.{Reaches, moved, stored, load_value-direct, store_value-direct}
use spike.Mmu.Port.{Port, done, and_then, ◌>>◌, with_mmu, Platform}
use spike.Mmu.Roundtrip.{after_store, load_after_store, reaches-moved}
use spike.Processor.Csr.Read.{supports_extension}

to_reg_whole : (v : ℕ) → v < 2 ^ 64 → to_reg true 8 (v % 2 ^ (8 * 8)) ≡ v
unfolding to_reg
to_reg_whole v h = ground arith

regfile_write_other :
    (file : ℕ → ℕ) (i j value : ℕ) → j ≢ i → regfile_write true file i value j ≡ file j
unfolding regfile_write
regfile_write_other file i j value ne =
    let e : (j == i) ≡ false = ground arith in
    elim (Bool-cases (i == 0)) [
      | inl zero_reg ↦ rw zero_reg refl
      | inr other ↦ rw other (rw e refl)
    ]

regfile_write_self :
    (file : ℕ → ℕ) (i value : ℕ) → i ≢ 0 → regfile_write true file i value i ≡ value
unfolding regfile_write
regfile_write_self file i value ne =
    let e : (i == 0) ≡ false = ground arith in
    let same : (i == i) ≡ true = ground arith in rw e (rw same refl)

module _ {S : Type 0} (platform : Platform S) (place : ℕ → ℕ) (port : Port S) where
  -- On 64 bits and without paging, where the address is a multiple of eight, its translation for
  -- the store and for the load leads into the memory, to the place that a map of whole pages
  -- gives, and leaves the page tables as they are, the TLB agrees with that map, and neither
  -- triggers nor tracers catch the accesses, ld after sd to the same address puts the word that
  -- was stored into its destination, a register other than x0.
  pub ld-sd :
      (f g : Fetched)
      → f.xlen ≡ 64
      → g.xlen ≡ 64
      → load_address g port.hart ≡ store_address f port.hart
      → rd g.insn ≢ 0
      → reg2 f port.hart < 2 ^ 64
      → (get_field port.hart.state.mstatus mstatus_vm == vm_mbare) ≡ true
      → Reaches platform place port (store_address f port.hart) 8 store
      → Reaches platform place port (store_address f port.hart) 8 load
      → (q : Port S) × ((do sd platform f; ld platform g) port ≡ (q, done g.npc))
        × (q.hart.state.xpr (rd g.insn) ≡ reg2 f port.hart)
        × (q.hart.state.pc ≡ port.hart.state.pc)
  unfolding sd ld needs and_then load_x store_reg write_reg regfile_write
  ld-sd f g wide wide' same dest word bare r q =
      let a = store_address f port.hart in
      let v = reg2 f port.hart in
      let (m, m', run, run', coherent) = load_after_store platform place a 8 port true v bare r q in
      let whole = to_reg_whole v word in
      let last = after_store platform place a 8 port v m' in
      let e : (f.xlen == 64) ≡ true = rw wide refl in
      let e' : (g.xlen == 64) ≡ true = rw wide' refl in
      let kept : (rd g.insn == 0) ≡ false = ground arith in
      let here : (rd g.insn == rd g.insn) ≡ true = ground arith in
      (
        record last { hart = write_reg last.hart (rd g.insn) v },
        rw e (rw run (rw e' (rw same (rw run' (rw whole refl))))),
        rw kept (rw here refl),
        refl,
      )

  -- On 64 bits and with the extension A, where the address is a multiple of eight, its translation
  -- for the load and for the store leads into the memory, to the place that a map of whole pages
  -- gives, and leaves the page tables as they are, the TLB agrees with that map, and neither
  -- triggers nor tracers catch the accesses, sc.d right after lr.d to the same address succeeds:
  -- it stores its register, and its destination, a register other than x0, is 0. The two name the
  -- address by one register, and the load goes to neither that register nor the one that is
  -- stored.
  pub sc_d-lr_d :
      (f g : Fetched)
      → f.xlen ≡ 64
      → g.xlen ≡ 64
      → supports_extension port.hart letter_a ≡ true
      → rs1 g.insn ≡ rs1 f.insn
      → rs1 f.insn ≢ rd f.insn
      → rs2 g.insn ≢ rd f.insn
      → rd g.insn ≢ 0
      → Reaches platform place port (reg1 f port.hart) 8 load
      → Reaches platform place port (reg1 f port.hart) 8 store
      → (q : Port S) × ((do lr_d platform f; sc_d platform g) port ≡ (q, done g.npc))
        × (q.hart.state.xpr (rd g.insn) ≡ 0)
        × (q.memory.mem
            ≡ write_bytes 8 port.memory.mem (place (reg1 f port.hart)) (reg2 g port.hart % 2 ^ 64))
  unfolding lr_d sc_d needs and_then load_x load_reserved store_conditional write_reg
      supports_extension
  sc_d-lr_d f g wide wide' atomic base_same base_kept source_kept dest r q =
      let a = reg1 f port.hart in
      let p = port.hart in
      let reserved = record port { hart = moved p p.mmu p.state.xpr a } in
      let r0 = reaches-moved platform place a 8 port p.mmu p.state.xpr a load r r.coherent in
      let (m, run, coherent) = load_value-direct platform place reserved a 8 true r0 in
      let v = to_reg true 8 (read_bytes 8 port.memory.mem (place a)) in
      let xpr = regfile_write true p.state.xpr (rd f.insn) v in
      let mid = record port { hart = moved p m xpr a } in
      let q0 = reaches-moved platform place a 8 port m xpr a store q coherent in
      let val = reg2 g p in
      let (m', run', coherent') = store_value-direct platform place mid a 8 val q0 in
      let last = stored platform place mid a 8 (place a) (val % 2 ^ (8 * 8)) in
      let e : (f.xlen == 64) ≡ true = rw wide refl in
      let e' : (g.xlen == 64) ≡ true = rw wide' refl in
      let base : xpr (rs1 g.insn) ≡ a =
        rw base_same (regfile_write_other p.state.xpr (rd f.insn) (rs1 f.insn) v base_kept) in
      let source : xpr (rs2 g.insn) ≡ val =
        regfile_write_other p.state.xpr (rd f.insn) (rs2 g.insn) v source_kept in
      let held : (a == a) ≡ true = ground arith in
      (
        record last { hart = write_reg (with_mmu last.hart m') (rd g.insn) 0 },
        rw atomic
            (rw e (rw run (rw atomic (rw e' (rw base (rw held (rw source (rw run' refl)))))))),
        regfile_write_self xpr (rd g.insn) 0 dest,
        refl,
      )
