-- ===== src/Tests/Insns.antt =====
-- Instructions of riscv/insns on one hart.
use spike.Base.{ℕ, ◌-◌, ◌^◌, ◌==◌, if◌then◌else◌, true, false, ◌≡◌, refl, arith, add64, mul64}
use spike.Decode.{rd, rs1, rs2, x}
use spike.Decode.Compressed.{rvc_rs1s, rvc_rs2s}
use spike.Insns.{Fetched, letter_m}
use spike.Insns.Alu
use spike.Insns.Compressed
use spike.Insns.Division.{div-rem}
use spike.Insns.Expansion.{ShortRegisters, c_registers-expansion}
use spike.Insns.Muldiv.{div, rem}
use spike.Processor.State.{Processor}
use spike.Processor.Csr.Read.{supports_extension}
use spike.Processor.Trap.Return.{letter_c}
use spike.Tests.Harts.{hart}

-- a1 holds -7 and a2 holds 2.
abbrev dividing : Processor
dividing =
    let p = hart 3 0 0 0 0 in
    record p {
      isa = 0x1104;
      state = record p.state {
        xpr = λ i. if i == 11 then 2 ^ 64 - 7 else if i == 12 then 2 else 0;
      };
    }

abbrev at_start : ℕ → Fetched
at_start insn = record {
  xlen = 64;
  insn = insn;
  pc = 0x80000000;
  npc = 0x80000004;
  debug_interrupt = false;
}

multiplies : supports_extension dividing letter_m ≡ true
unfolding supports_extension
multiplies = refl

compresses : supports_extension dividing letter_c ≡ true
unfolding supports_extension
compresses = refl

-- div a0, a1, a2 has the fields of rem a0, a1, a2.
div-rem_example :
    add64
      (mul64 ((div (at_start 0x02c5c533) dividing).0.state.xpr 10) 2)
      ((rem (at_start 0x02c5c533) dividing).0.state.xpr 10)
    ≡ 2 ^ 64 - 7
unfolding rd rs1 rs2 x
div-rem_example =
    div-rem (at_start 0x02c5c533) dividing refl multiplies (omega arith) (omega arith) (omega arith)

-- c.sub a0, a1 and sub a0, a0, a1.
short : ShortRegisters (at_start 0x8d0d) (at_start 0x40b50533)
unfolding rd rs1 rs2 x rvc_rs1s rvc_rs2s
short = (refl, refl, refl)

c_registers-expansion_example :
    (Compressed.c_sub (at_start 0x8d0d) dividing ≡ Alu.sub (at_start 0x40b50533) dividing)
    × (Compressed.c_and (at_start 0x8d0d) dividing ≡ Alu.and (at_start 0x40b50533) dividing)
    × (Compressed.c_or (at_start 0x8d0d) dividing ≡ Alu.or (at_start 0x40b50533) dividing)
    × (Compressed.c_xor (at_start 0x8d0d) dividing ≡ Alu.xor (at_start 0x40b50533) dividing)
    × (Compressed.c_addw (at_start 0x8d0d) dividing ≡ Alu.addw (at_start 0x40b50533) dividing)
    × (Compressed.c_subw (at_start 0x8d0d) dividing ≡ Alu.subw (at_start 0x40b50533) dividing)
c_registers-expansion_example =
    c_registers-expansion (at_start 0x8d0d) (at_start 0x40b50533) dividing compresses
      (refl, refl, refl) short
