-- ===== src/Tests/Accesses.antt =====
-- Loads, stores, atomic operations and fetches of a hart in machine mode after its reset.
use spike.Base.{
  ℕ, ◌^◌, ◌<◌, ◌≡◌, inl, inr, refl, sym, ◌∙◌, arith, true, false, ◌==◌, none, some, [], add64,
  sub64, none≢some, if◌then◌else◌,
}
use spike.Decode.{
  get_field, insn_length, rd, rs1, rs2, i_imm, s_imm, sext32, x, xs, imm_sign, regfile_write,
  set_field,
}
use spike.Encoding.{dram_base}
use spike.Insns.{Fetched, write_reg}
use spike.Insns.Atomic.{lr_d, sc_d, sc_w}
use spike.Insns.Memory.{ld, sd}
use spike.Insns.Reservation.{sc-take_trap}
use spike.Insns.Roundtrip.{ld-sd, sc_d-lr_d}
use spike.Mmu.{
  write_bytes, AccessType, load, store, fetch, addr_is_mem, addr_to_mem, read_bytes, translate,
}
use spike.Mmu.Data.{to_reg, load_value, store_value, amo_value}
use spike.Mmu.Faults.{TrapsOnly, Only, store_trap, amo_value-TrapsOnly}
use spike.Mmu.Fetch.{load_insn}
use spike.Mmu.Parcels.{load_insn-word}
use spike.Mmu.Roundtrip.{after_store, load_value-store_value}
use spike.Processor.Csr.Read.{supports_extension}
use spike.Processor.Trap.{Trap, take_trap, debug_breakpoint, delegated}
use spike.Processor.Csr.Write.{set_csr, write_csr}
use spike.Processor.Names.{csr_name}
use spike.Mmu.Direct.{Reaches}
use spike.Mmu.Port.{Port, Platform, done, with_mmu, ◌>>◌, interested_in_range}
use spike.Mmu.Tlb.{IsPageMap, IsCoherent, flush_tlb-misses}
use spike.Processor.State.{
  Processor, Mmu, set_privilege, reset_state, flush_tlb, flush_icache, TriggerOperation,
  operation_execute, operation_load, operation_store,
}
use spike.Processor.Triggers.{trigger_match}
use spike.Tests.Harts.{hart}

abbrev place : ℕ → ℕ
place v = sub64 v dram_base

abbrev nothing_else : Platform (Unit {0})
nothing_else = record { devices = []; tracers = []; fetch_temp = 0 }

-- The registers 2 and 3 hold an address in memory and a value.
abbrev started : Processor
started = write_reg (write_reg (hart 3 0 0 0 0) 2 0x80000010) 3 0xfedcba9876543210

abbrev machine : Port (Unit {0})
machine = record { hart = started; memory = record { memsz = 0x1000; mem = λ i. 0 }; rest = tt }

place-IsPageMap : IsPageMap place
place-IsPageMap v w h k e = omega arith

started-IsCoherent : IsCoherent place started.mmu
unfolding flush_tlb flush_icache hart write_reg
started-IsCoherent type v off h hit =
    absurd (none≢some (sym (flush_tlb-misses started.mmu type v h) ∙ hit))

started-quiet :
    (operation : TriggerOperation) (a val : ℕ) → trigger_match started operation a val ≡ none
unfolding trigger_match hart write_reg
started-quiet operation_execute a val = refl
started-quiet operation_store a val = refl
started-quiet operation_load a val = refl

machine-Reaches : (type : AccessType) → Reaches nothing_else place machine 0x80000010 8 type
unfolding translate addr_is_mem addr_to_mem get_field interested_in_range hart write_reg
machine-Reaches type = record {
  paddr = 0x80000010;
  pages = place-IsPageMap;
  coherent = started-IsCoherent;
  word = omega arith;
  sizes = inr (inr (inr refl));
  aligned = refl;
  found = refl;
  inside = refl;
  placed = refl;
  quiet = started-quiet;
  unwatched = refl;
}

load_value-store_value_example :
    (m : Mmu) × ((do
      store_value nothing_else 8 0x80000010 0xfedcba9876543210
      load_value nothing_else true 8 0x80000010)
        machine
      ≡ (
        after_store nothing_else place 0x80000010 8 machine 0xfedcba9876543210 m,
        done (to_reg true 8 0xfedcba9876543210),
      ))
    × IsCoherent place m
unfolding get_field hart write_reg
load_value-store_value_example =
    load_value-store_value nothing_else place 0x80000010 8 machine true 0xfedcba9876543210 refl
      (machine-Reaches store) (machine-Reaches load)

-- An atomic operation at an address with no device.
amo_value-TrapsOnly_example :
    TrapsOnly (Only (store_trap 0x1000 8)) (amo_value nothing_else 8 0x1000 (add64 7) machine)
amo_value-TrapsOnly_example = amo_value-TrapsOnly nothing_else 8 0x1000 (add64 7) machine

abbrev fetched : ℕ → Fetched
fetched word = record { xlen = 64; insn = word; pc = 0x1000; npc = 0x1004; debug_interrupt = false }

-- `sd x3, 0(x2)` and `ld x4, 0(x2)`
ld-sd_example :
    (q : Port (Unit {0})) × ((do
      sd nothing_else (fetched 0x00313023)
      ld nothing_else (fetched 0x00013203))
        machine
      ≡ (q, done 0x1004))
    × (q.hart.state.xpr (rd 0x00013203) ≡ 0xfedcba9876543210)
    × (q.hart.state.pc ≡ machine.hart.state.pc)
unfolding get_field hart write_reg regfile_write rd rs1 rs2 i_imm s_imm x xs imm_sign
ld-sd_example =
    ld-sd nothing_else place machine (fetched 0x00313023) (fetched 0x00013203) refl refl refl
      (omega arith) (omega arith) refl (machine-Reaches store) (machine-Reaches load)

-- `lr.d x5, (x2)` and `sc.d x6, x3, (x2)`
sc_d-lr_d_example :
    (q : Port (Unit {0})) × ((do
      lr_d nothing_else (fetched 0x100132af)
      sc_d nothing_else (fetched 0x1831332f))
        machine
      ≡ (q, done 0x1004))
    × (q.hart.state.xpr (rd 0x1831332f) ≡ 0)
    × (q.memory.mem ≡ write_bytes 8 machine.memory.mem (place 0x80000010) 0xfedcba9876543210)
unfolding get_field hart write_reg regfile_write rd rs1 rs2 i_imm s_imm x xs imm_sign
    supports_extension
sc_d-lr_d_example =
    sc_d-lr_d nothing_else place machine (fetched 0x100132af) (fetched 0x1831332f) refl refl refl
      refl (omega arith) (omega arith) (omega arith) (machine-Reaches load) (machine-Reaches store)

-- A load of the supervisor's faults, and the hart goes on to `sc.d x6, x3, (x2)`.
abbrev fault : Trap
fault = record { cause = 5; badaddr = some 0x1000 }

sc-take_trap_example :
    let q = record machine { hart = take_trap started fault 0x1000 } in
    let f = fetched 0x1831332f in
    let failed = record q { hart = write_reg q.hart (rd f.insn) 1 } in
    (sc_w nothing_else f q ≡ (failed, done f.npc)) × (sc_d nothing_else f q ≡ (failed, done f.npc))
unfolding hart write_reg take_trap debug_breakpoint set_csr csr_name write_csr set_privilege
    supports_extension get_field set_field delegated regfile_write rd rs1 x reset_state
sc-take_trap_example =
    sc-take_trap nothing_else (fetched 0x1831332f) machine started fault 0x1000 refl refl refl refl
      (omega arith)

-- The word of `addi x1, x0, -1` at the start of the memory.
abbrev coded_byte : ℕ → ℕ
coded_byte i = if i == 0 then 0x93 else if i == 1 then 0 else if i == 2 then 0xf0 else 0xff

abbrev coded : Port (Unit {0})
coded = record machine { memory = record { memsz = 0x1000; mem = coded_byte } }

coded_byte-lt : (i : ℕ) → coded_byte i < 2 ^ 8
coded_byte-lt i = ground arith

coded-Reaches-first : Reaches nothing_else place coded 0x80000000 2 fetch
unfolding translate addr_is_mem addr_to_mem get_field interested_in_range hart write_reg
coded-Reaches-first = record {
  paddr = 0x80000000;
  pages = place-IsPageMap;
  coherent = started-IsCoherent;
  word = omega arith;
  sizes = inr (inl refl);
  aligned = refl;
  found = refl;
  inside = refl;
  placed = refl;
  quiet = started-quiet;
  unwatched = refl;
}

coded-Reaches-second : Reaches nothing_else place coded 0x80000002 2 fetch
unfolding translate addr_is_mem addr_to_mem get_field interested_in_range hart write_reg
coded-Reaches-second = record {
  paddr = 0x80000002;
  pages = place-IsPageMap;
  coherent = started-IsCoherent;
  word = omega arith;
  sizes = inr (inl refl);
  aligned = refl;
  found = refl;
  inside = refl;
  placed = refl;
  quiet = started-quiet;
  unwatched = refl;
}

load_insn-word_example :
    (m : Mmu) × (load_insn nothing_else 0x80000000 coded
      ≡ (record coded { hart = with_mmu coded.hart m }, done 0xfffffffffff00093))
    × IsCoherent place m
unfolding sext32 read_bytes insn_length
load_insn-word_example =
    load_insn-word nothing_else place coded 0x80000000 coded-Reaches-first coded-Reaches-second refl
      coded_byte-lt refl refl
