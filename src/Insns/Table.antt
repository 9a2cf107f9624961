-- ===== src/Insns/Table.antt =====
-- The bodies under riscv/insns by the names that riscv/riscv.mk.in lists.
use spike.Base.{List, [], ◌∷◌}
use spike.Encoding.Insns.{Insn}
use spike.Insns.{Body}
use spike.Insns.Alu
use spike.Insns.Compressed
use spike.Insns.Control
use spike.Insns.Csr
use spike.Insns.Muldiv
use spike.Processor.Trap.Return

abbrev pub alu_bodies : List (Insn × Body)
alu_bodies =
    (Insn.add, Alu.add)
    ∷ (Insn.addi, Alu.addi)
    ∷ (Insn.addiw, Alu.addiw)
    ∷ (Insn.addw, Alu.addw)
    ∷ (Insn.and, Alu.and)
    ∷ (Insn.andi, Alu.andi)
    ∷ (Insn.auipc, Alu.auipc)
    ∷ (Insn.lui, Alu.lui)
    ∷ (Insn.or, Alu.or)
    ∷ (Insn.ori, Alu.ori)
    ∷ (Insn.sll, Alu.sll)
    ∷ (Insn.slli, Alu.slli)
    ∷ (Insn.slliw, Alu.slliw)
    ∷ (Insn.sllw, Alu.sllw)
    ∷ (Insn.slt, Alu.slt)
    ∷ (Insn.slti, Alu.slti)
    ∷ (Insn.sltiu, Alu.sltiu)
    ∷ (Insn.sltu, Alu.sltu)
    ∷ (Insn.sra, Alu.sra)
    ∷ (Insn.srai, Alu.srai)
    ∷ (Insn.sraiw, Alu.sraiw)
    ∷ (Insn.sraw, Alu.sraw)
    ∷ (Insn.srl, Alu.srl)
    ∷ (Insn.srli, Alu.srli)
    ∷ (Insn.srliw, Alu.srliw)
    ∷ (Insn.srlw, Alu.srlw)
    ∷ (Insn.sub, Alu.sub)
    ∷ (Insn.subw, Alu.subw)
    ∷ (Insn.xor, Alu.xor)
    ∷ (Insn.xori, Alu.xori)
    ∷ []

abbrev pub muldiv_bodies : List (Insn × Body)
muldiv_bodies =
    (Insn.mul, Muldiv.mul)
    ∷ (Insn.mulh, Muldiv.mulh)
    ∷ (Insn.mulhsu, Muldiv.mulhsu)
    ∷ (Insn.mulhu, Muldiv.mulhu)
    ∷ (Insn.mulw, Muldiv.mulw)
    ∷ (Insn.div, Muldiv.div)
    ∷ (Insn.divu, Muldiv.divu)
    ∷ (Insn.divuw, Muldiv.divuw)
    ∷ (Insn.divw, Muldiv.divw)
    ∷ (Insn.rem, Muldiv.rem)
    ∷ (Insn.remu, Muldiv.remu)
    ∷ (Insn.remuw, Muldiv.remuw)
    ∷ (Insn.remw, Muldiv.remw)
    ∷ []

abbrev pub control_bodies : List (Insn × Body)
control_bodies =
    (Insn.beq, Control.beq)
    ∷ (Insn.bge, Control.bge)
    ∷ (Insn.bgeu, Control.bgeu)
    ∷ (Insn.blt, Control.blt)
    ∷ (Insn.bltu, Control.bltu)
    ∷ (Insn.bne, Control.bne)
    ∷ (Insn.jal, Control.jal)
    ∷ (Insn.jalr, Control.jalr)
    ∷ (Insn.ebreak, Control.ebreak)
    ∷ (Insn.ecall, Control.ecall)
    ∷ (Insn.dret, Control.dret)
    ∷ (Insn.fence, Control.fence)
    ∷ (Insn.fence_i, Control.fence_i)
    ∷ (Insn.sfence_vm, Control.sfence_vm)
    ∷ (Insn.wfi, Control.wfi)
    ∷ (Insn.mret, λ f p. Return.mret p)
    ∷ (Insn.sret, λ f p. Return.sret p)
    ∷ []

abbrev pub csr_bodies : List (Insn × Body)
csr_bodies =
    (Insn.csrrc, Csr.csrrc)
    ∷ (Insn.csrrci, Csr.csrrci)
    ∷ (Insn.csrrs, Csr.csrrs)
    ∷ (Insn.csrrsi, Csr.csrrsi)
    ∷ (Insn.csrrw, Csr.csrrw)
    ∷ (Insn.csrrwi, Csr.csrrwi)
    ∷ []

abbrev pub compressed_bodies : List (Insn × Body)
compressed_bodies =
    (Insn.c_add, Compressed.c_add)
    ∷ (Insn.c_addi, Compressed.c_addi)
    ∷ (Insn.c_addi4spn, Compressed.c_addi4spn)
    ∷ (Insn.c_addw, Compressed.c_addw)
    ∷ (Insn.c_and, Compressed.c_and)
    ∷ (Insn.c_andi, Compressed.c_andi)
    ∷ (Insn.c_beqz, Compressed.c_beqz)
    ∷ (Insn.c_bnez, Compressed.c_bnez)
    ∷ (Insn.c_ebreak, Compressed.c_ebreak)
    ∷ (Insn.c_j, Compressed.c_j)
    ∷ (Insn.c_jal, Compressed.c_jal)
    ∷ (Insn.c_jalr, Compressed.c_jalr)
    ∷ (Insn.c_jr, Compressed.c_jr)
    ∷ (Insn.c_li, Compressed.c_li)
    ∷ (Insn.c_lui, Compressed.c_lui)
    ∷ (Insn.c_mv, Compressed.c_mv)
    ∷ (Insn.c_or, Compressed.c_or)
    ∷ (Insn.c_slli, Compressed.c_slli)
    ∷ (Insn.c_srai, Compressed.c_srai)
    ∷ (Insn.c_srli, Compressed.c_srli)
    ∷ (Insn.c_sub, Compressed.c_sub)
    ∷ (Insn.c_subw, Compressed.c_subw)
    ∷ (Insn.c_xor, Compressed.c_xor)
    ∷ []
