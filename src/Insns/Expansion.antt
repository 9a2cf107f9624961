-- ===== src/Insns/Expansion.antt =====
-- The compressed instructions under riscv/insns do what the instruction does that they stand for.
use spike.Base.{true, ◌≡◌, refl, ap}
use spike.Decode.{rd, rs1, rs2}
use spike.Decode.Compressed.{rvc_rs1s, rvc_rs2s}
use spike.Insns.{Fetched, reg1, reg2}
use spike.Insns.Alu
use spike.Insns.Compressed
use spike.Processor.Csr.Read.{supports_extension}
use spike.Processor.State.{Processor}
use spike.Processor.Trap.Return.{letter_c}

-- Two words that are run at one pc with one width, of one length.
abbrev pub SamePlace : Fetched → Fetched → Type 0
SamePlace f g = (f.xlen ≡ g.xlen) × (f.pc ≡ g.pc) × (f.npc ≡ g.npc)

-- The fields of `g` name the registers that an instruction of two registers, both among the eight that
-- the short form can name, names in `f`.
abbrev pub ShortRegisters : Fetched → Fetched → Type 0
ShortRegisters f g =
    (rd g.insn ≡ rvc_rs1s f.insn) × (rs1 g.insn ≡ rvc_rs1s f.insn) × (rs2 g.insn ≡ rvc_rs2s f.insn)

pub c_registers-expansion :
    (f g : Fetched) (p : Processor)
    → supports_extension p letter_c ≡ true
    → SamePlace f g
    → ShortRegisters f g
    → (Compressed.c_sub f p ≡ Alu.sub g p)
      × (Compressed.c_and f p ≡ Alu.and g p)
      × (Compressed.c_or f p ≡ Alu.or g p)
      × (Compressed.c_xor f p ≡ Alu.xor g p)
      × (Compressed.c_addw f p ≡ Alu.addw g p)
      × (Compressed.c_subw f p ≡ Alu.subw g p)
unfolding Compressed.c_sub Compressed.c_and Compressed.c_or Compressed.c_xor Compressed.c_addw
    Compressed.c_subw Alu.sub Alu.and Alu.or Alu.xor Alu.addw Alu.subw
c_registers-expansion f g p ext (w, at, to) (d, a, b) =
    let ra : reg1 g p ≡ p.state.xpr (rvc_rs1s f.insn) = ap p.state.xpr a in
    let rb : reg2 g p ≡ p.state.xpr (rvc_rs2s f.insn) = ap p.state.xpr b in
    (
      simp (ext, w, to, d, ra, rb) refl,
      simp (ext, to, d, ra, rb) refl,
      simp (ext, to, d, ra, rb) refl,
      simp (ext, to, d, ra, rb) refl,
      simp (ext, w, to, d, ra, rb) refl,
      simp (ext, w, to, d, ra, rb) refl,
    )
