-- ===== src/Insns/Reservation.antt =====
-- The reservation of riscv/insns/sc_w.h and sc_d.h over a trap.
use spike.Base.{ℕ, ◌≡◌, ◌≢◌, refl, arith, true, false, ◌==◌, all_ones, truth}
use spike.Decode.{rd}
use spike.Insns.{Fetched, reg1, write_reg}
use spike.Insns.Atomic.{letter_a, store_conditional, sc_w, sc_d}
use spike.Insns.Memory.{needs}
use spike.Mmu.Port.{Port, done, and_then, Platform}
use spike.Processor.Csr.Read.{supports_extension}
use spike.Processor.State.{Processor}
use spike.Processor.Trap.{Trap, take_trap, debug_breakpoint}

take_trap-yields :
    (p : Processor) (t : Trap) (epc : ℕ)
    → debug_breakpoint p t.cause ≡ false
    → truth p.state.dcsr.cause ≡ false
    → (take_trap p t epc).state.load_reservation ≡ all_ones
unfolding take_trap
take_trap-yields p t epc inside outside = rw inside (rw outside refl)

module _ {S : Type 0} (platform : Platform S) where
  store_conditional-fails :
      (size : ℕ) (f : Fetched) (port : Port S)
      → port.hart.state.load_reservation ≡ all_ones
      → reg1 f port.hart ≢ all_ones
      → store_conditional platform size f port
        ≡ (record port { hart = write_reg port.hart (rd f.insn) 1 }, done f.npc)
  unfolding store_conditional and_then
  store_conditional-fails size f port yielded other =
      let e : (reg1 f port.hart == all_ones) ≡ false = ground arith in simp (yielded, e)

  -- After a trap that is taken outside debug mode and not for the debugger, a store-conditional fails
  -- unless its address is all ones: with the extension A, and on 64 bits for sc.d, its destination is
  -- 1, the hart goes on, and neither the memory, the MMU nor the devices change.
  pub sc-take_trap :
      (f : Fetched) (port : Port S) (p : Processor) (t : Trap) (epc : ℕ)
      → debug_breakpoint p t.cause ≡ false
      → truth p.state.dcsr.cause ≡ false
      → let q = record port { hart = take_trap p t epc } in
        supports_extension q.hart letter_a ≡ true
        → f.xlen ≡ 64
        → reg1 f q.hart ≢ all_ones
        → let failed = record q { hart = write_reg q.hart (rd f.insn) 1 } in
          (sc_w platform f q ≡ (failed, done f.npc)) × (sc_d platform f q ≡ (failed, done f.npc))
  unfolding sc_w sc_d needs and_then
  sc-take_trap f port p t epc inside outside atomic wide other =
      let q = record port { hart = take_trap p t epc } in
      let yielded = take_trap-yields p t epc inside outside in
      let e : (f.xlen == 64) ≡ true = rw wide refl in
      (
        rw atomic (store_conditional-fails 4 f q yielded other),
        rw atomic (rw e (store_conditional-fails 8 f q yielded other)),
      )
