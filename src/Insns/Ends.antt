-- ===== src/Insns/Ends.antt =====
-- How the bodies under riscv/insns end: with a trap, a mark for the loop or an even next pc.
use spike.Insns.Alu
use spike.Insns.Compressed
use spike.Insns.Control
use spike.Insns.Csr
use spike.Insns.Csr.{access_csr, csr_denied, serialize_before}
use spike.Insns.Muldiv
use spike.Insns.Table.{alu_bodies, muldiv_bodies, control_bodies, csr_bodies, compressed_bodies}
use spike.Processor.Trap.Return
use spike.Processor.Trap.Return.{Outcome, next, thrown, misaligned}
use spike.Insns.Ending.{AllEnd, all_checked, ◌▷◌, endings, throws, access_csr_ends}

pub alu_bodies-AllEnd : AllEnd alu_bodies
unfolding Alu.add Alu.addi Alu.addiw Alu.addw Alu.and Alu.andi Alu.auipc Alu.lui Alu.or Alu.ori
    Alu.sll Alu.slli Alu.slliw Alu.sllw Alu.slt Alu.slti Alu.sltiu Alu.sltu Alu.sra Alu.srai
    Alu.sraiw Alu.sraw Alu.srl Alu.srli Alu.srliw Alu.srlw Alu.sub Alu.subw Alu.xor Alu.xori
alu_bodies-AllEnd =
    (λ f p at. (search endings))
    ▷ (λ f p at. (search endings))
    ▷ (λ f p at. search endings)
    ▷ (λ f p at. search endings)
    ▷ (λ f p at. (search endings))
    ▷ (λ f p at. (search endings))
    ▷ (λ f p at. (search endings))
    ▷ (λ f p at. (search endings))
    ▷ (λ f p at. (search endings))
    ▷ (λ f p at. (search endings))
    ▷ (λ f p at. (search endings))
    ▷ (λ f p at. search endings)
    ▷ (λ f p at. search endings)
    ▷ (λ f p at. search endings)
    ▷ (λ f p at. (search endings))
    ▷ (λ f p at. (search endings))
    ▷ (λ f p at. (search endings))
    ▷ (λ f p at. (search endings))
    ▷ (λ f p at. (search endings))
    ▷ (λ f p at. search endings)
    ▷ (λ f p at. search endings)
    ▷ (λ f p at. search endings)
    ▷ (λ f p at. (search endings))
    ▷ (λ f p at. search endings)
    ▷ (λ f p at. search endings)
    ▷ (λ f p at. search endings)
    ▷ (λ f p at. (search endings))
    ▷ (λ f p at. search endings)
    ▷ (λ f p at. (search endings))
    ▷ (λ f p at. (search endings))
    ▷ all_checked

pub muldiv_bodies-AllEnd : AllEnd muldiv_bodies
unfolding Muldiv.mul Muldiv.mulh Muldiv.mulhsu Muldiv.mulhu Muldiv.mulw Muldiv.div Muldiv.divu
    Muldiv.divuw Muldiv.divw Muldiv.rem Muldiv.remu Muldiv.remuw Muldiv.remw
muldiv_bodies-AllEnd =
    (λ f p at. search endings)
    ▷ (λ f p at. search endings)
    ▷ (λ f p at. search endings)
    ▷ (λ f p at. search endings)
    ▷ (λ f p at. search endings)
    ▷ (λ f p at. search endings)
    ▷ (λ f p at. search endings)
    ▷ (λ f p at. search endings)
    ▷ (λ f p at. search endings)
    ▷ (λ f p at. search endings)
    ▷ (λ f p at. search endings)
    ▷ (λ f p at. search endings)
    ▷ (λ f p at. search endings)
    ▷ all_checked

pub control_bodies-AllEnd : AllEnd control_bodies
unfolding Control.beq Control.bge Control.bgeu Control.blt Control.bltu Control.bne Control.jal
    Control.jalr Control.ebreak Control.ecall Control.dret Control.fence Control.fence_i
    Control.sfence_vm Control.wfi Return.mret Return.sret
control_bodies-AllEnd =
    (λ f p at. let even = at.even_pc in search endings)
    ▷ (λ f p at. let even = at.even_pc in search endings)
    ▷ (λ f p at. let even = at.even_pc in search endings)
    ▷ (λ f p at. let even = at.even_pc in search endings)
    ▷ (λ f p at. let even = at.even_pc in search endings)
    ▷ (λ f p at. let even = at.even_pc in search endings)
    ▷ (λ f p at. let even = at.even_pc in search endings)
    ▷ (λ f p at. let even = at.even_pc in search endings)
    ▷ (λ f p at. (throws p _))
    ▷ (λ f p at. search endings)
    ▷ (λ f p at. search endings)
    ▷ (λ f p at. (search endings))
    ▷ (λ f p at. (search endings))
    ▷ (λ f p at. search endings)
    ▷ (λ f p at. (search endings))
    ▷ (λ f p at. search endings)
    ▷ (λ f p at. search endings)
    ▷ all_checked

pub csr_bodies-AllEnd : AllEnd csr_bodies
unfolding Csr.csrrc Csr.csrrci Csr.csrrs Csr.csrrsi Csr.csrrw Csr.csrrwi
csr_bodies-AllEnd =
    (λ f p at. access_csr_ends f p _ _ at)
    ▷ (λ f p at. access_csr_ends f p _ _ at)
    ▷ (λ f p at. access_csr_ends f p _ _ at)
    ▷ (λ f p at. access_csr_ends f p _ _ at)
    ▷ (λ f p at. access_csr_ends f p _ _ at)
    ▷ (λ f p at. access_csr_ends f p _ _ at)
    ▷ all_checked

pub compressed_bodies-AllEnd : AllEnd compressed_bodies
unfolding Compressed.c_add Compressed.c_addi Compressed.c_addi4spn Compressed.c_addw
    Compressed.c_and Compressed.c_andi Compressed.c_beqz Compressed.c_bnez Compressed.c_ebreak
    Compressed.c_j Compressed.c_jal Compressed.c_jalr Compressed.c_jr Compressed.c_li
    Compressed.c_lui Compressed.c_mv Compressed.c_or Compressed.c_slli Compressed.c_srai
    Compressed.c_srli Compressed.c_sub Compressed.c_subw Compressed.c_xor
compressed_bodies-AllEnd =
    (λ f p at. search endings)
    ▷ (λ f p at. search endings)
    ▷ (λ f p at. search endings)
    ▷ (λ f p at. search endings)
    ▷ (λ f p at. search endings)
    ▷ (λ f p at. search endings)
    ▷ (λ f p at. let even = at.even_pc in search endings)
    ▷ (λ f p at. let even = at.even_pc in search endings)
    ▷ (λ f p at. search endings)
    ▷ (λ f p at. let even = at.even_pc in search endings)
    ▷ (λ f p at. let even = at.even_pc in search endings)
    ▷ (λ f p at. let even = at.even_pc in search endings)
    ▷ (λ f p at. let even = at.even_pc in search endings)
    ▷ (λ f p at. search endings)
    ▷ (λ f p at. search endings)
    ▷ (λ f p at. search endings)
    ▷ (λ f p at. search endings)
    ▷ (λ f p at. search endings)
    ▷ (λ f p at. search endings)
    ▷ (λ f p at. search endings)
    ▷ (λ f p at. search endings)
    ▷ (λ f p at. search endings)
    ▷ (λ f p at. search endings)
    ▷ all_checked

-- Each of the instructions of the integer base, of M, of the control registers and of the compressed
-- forms without memory, run at an even pc with an even fall-through on a 32 or 64-bit hart, throws a
-- trap, asks for serialization that is due, or goes to an even pc. It leaves a legal hart legal, and
-- one that throws leaves the pc of the hart, except that of mret, sret and dret only the mark is said.
pub bodies-AllEnd :
    AllEnd alu_bodies
    × AllEnd muldiv_bodies
    × AllEnd control_bodies
    × AllEnd csr_bodies
    × AllEnd compressed_bodies
bodies-AllEnd = (
  alu_bodies-AllEnd, muldiv_bodies-AllEnd, control_bodies-AllEnd, csr_bodies-AllEnd,
  compressed_bodies-AllEnd,
)
