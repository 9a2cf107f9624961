-- ===== src/Insns/Compressed.antt =====
-- The compressed instructions under riscv/insns that do not access memory.
use spike.Base.{
  ℕ, not, bit_and, bit_or, bit_xor, not64, ltb, ◌==◌, if◌then◌else◌, add64, sub64, shl64, shr,
  sra64,
}
use spike.Decode.{sext32, sext_xlen, zext_xlen}
use spike.Decode.Compressed.{
  rvc_imm, rvc_zimm, rvc_addi4spn_imm, rvc_addi16sp_imm, rvc_j_imm, rvc_b_imm, rvc_rd, rvc_rs1,
  rvc_rs2, rvc_rs1s, rvc_rs2s,
}
use spike.Encoding.{cause_breakpoint}
use spike.Insns.{Body, write_reg, write_rd, finish, require, require_extension, set_pc}
use spike.Insns.Control.{trap}
use spike.Processor.State.{Processor}
use spike.Processor.Trap.Return.{next, letter_c}

-- `X_RA` and `X_SP`
abbrev pub x_ra : ℕ
x_ra = 1

abbrev pub x_sp : ℕ
x_sp = 2

abbrev xreg : Processor → ℕ → ℕ
xreg p i = p.state.xpr i

unfoldable pub c_add : Body
c_add f p = require_extension letter_c p (
    require (not ((rvc_rs2 f.insn) == 0)) p
      (write_rd f p (sext_xlen f.xlen (add64 (xreg p (rvc_rs1 f.insn)) (xreg p (rvc_rs2 f.insn))))))

unfoldable pub c_addi : Body
c_addi f p =
    require_extension letter_c p
      (write_rd f p (sext_xlen f.xlen (add64 (xreg p (rvc_rs1 f.insn)) (rvc_imm f.insn))))

unfoldable pub c_addi4spn : Body
c_addi4spn f p = require_extension letter_c p (
    require (not (rvc_addi4spn_imm f.insn == 0)) p (
      finish f p (rvc_rs2s f.insn)
        (sext_xlen f.xlen (add64 (xreg p x_sp) (rvc_addi4spn_imm f.insn)))))

unfoldable pub c_addw : Body
c_addw f p = require_extension letter_c p (
    require (f.xlen == 64) p (
      finish f p (rvc_rs1s f.insn)
        (sext32 (add64 (xreg p (rvc_rs1s f.insn)) (xreg p (rvc_rs2s f.insn))))))

unfoldable pub c_and : Body
c_and f p =
    require_extension letter_c p
      (finish f p (rvc_rs1s f.insn) (bit_and (xreg p (rvc_rs1s f.insn)) (xreg p (rvc_rs2s f.insn))))

unfoldable pub c_andi : Body
c_andi f p =
    require_extension letter_c p
      (finish f p (rvc_rs1s f.insn) (bit_and (xreg p (rvc_rs1s f.insn)) (rvc_imm f.insn)))

unfoldable pub c_beqz : Body
c_beqz f p = require_extension letter_c p (
    if (xreg p (rvc_rs1s f.insn)) == 0
    then set_pc f p (add64 f.pc (rvc_b_imm f.insn)) p
    else (p, next f.npc))

unfoldable pub c_bnez : Body
c_bnez f p = require_extension letter_c p (
    if (xreg p (rvc_rs1s f.insn)) == 0
    then (p, next f.npc)
    else set_pc f p (add64 f.pc (rvc_b_imm f.insn)) p)

unfoldable pub c_ebreak : Body
c_ebreak f p = require_extension letter_c p (p, trap cause_breakpoint)

unfoldable pub c_j : Body
c_j f p = require_extension letter_c p (set_pc f p (add64 f.pc (rvc_j_imm f.insn)) p)

unfoldable pub c_jal : Body
c_jal f p = require_extension letter_c p (
    if f.xlen == 32
    then set_pc f p (add64 f.pc (rvc_j_imm f.insn)) (write_reg p x_ra f.npc)
    else require (not ((rvc_rd f.insn) == 0)) p
        (write_rd f p (sext32 (add64 (xreg p (rvc_rs1 f.insn)) (rvc_imm f.insn)))))

unfoldable pub c_jalr : Body
c_jalr f p = require_extension letter_c p (
    require (not ((rvc_rs1 f.insn) == 0)) p
      (set_pc f p (bit_and (xreg p (rvc_rs1 f.insn)) (not64 1)) (write_reg p x_ra f.npc)))

unfoldable pub c_jr : Body
c_jr f p = require_extension letter_c p (
    require (not ((rvc_rs1 f.insn) == 0)) p
      (set_pc f p (bit_and (xreg p (rvc_rs1 f.insn)) (not64 1)) p))

unfoldable pub c_li : Body
c_li f p =
    require_extension letter_c p
      (require (not ((rvc_rd f.insn) == 0)) p (write_rd f p (rvc_imm f.insn)))

unfoldable pub c_lui : Body
c_lui f p = require_extension letter_c p (
    if (rvc_rd f.insn) == 2
    then require (not (rvc_addi16sp_imm f.insn == 0)) p
        (finish f p x_sp (sext_xlen f.xlen (add64 (xreg p x_sp) (rvc_addi16sp_imm f.insn))))
    else require (not ((rvc_rd f.insn) == 0)) p (write_rd f p (shl64 (rvc_imm f.insn) 12)))

unfoldable pub c_mv : Body
c_mv f p =
    require_extension letter_c p
      (require (not ((rvc_rs2 f.insn) == 0)) p (write_rd f p (xreg p (rvc_rs2 f.insn))))

unfoldable pub c_or : Body
c_or f p =
    require_extension letter_c p
      (finish f p (rvc_rs1s f.insn) (bit_or (xreg p (rvc_rs1s f.insn)) (xreg p (rvc_rs2s f.insn))))

unfoldable pub c_slli : Body
c_slli f p = require_extension letter_c p (
    require (ltb (rvc_zimm f.insn) f.xlen) p
      (write_rd f p (sext_xlen f.xlen (shl64 (xreg p (rvc_rs1 f.insn)) (rvc_zimm f.insn)))))

unfoldable pub c_srai : Body
c_srai f p = require_extension letter_c p (
    require (ltb (rvc_zimm f.insn) f.xlen) p (
      finish f p (rvc_rs1s f.insn)
        (sext_xlen f.xlen (sra64 (sext_xlen f.xlen (xreg p (rvc_rs1s f.insn))) (rvc_zimm f.insn)))))

unfoldable pub c_srli : Body
c_srli f p = require_extension letter_c p (
    require (ltb (rvc_zimm f.insn) f.xlen) p (
      finish f p (rvc_rs1s f.insn)
        (sext_xlen f.xlen (shr (zext_xlen f.xlen (xreg p (rvc_rs1s f.insn))) (rvc_zimm f.insn)))))

unfoldable pub c_sub : Body
c_sub f p = require_extension letter_c p (
    finish f p (rvc_rs1s f.insn)
      (sext_xlen f.xlen (sub64 (xreg p (rvc_rs1s f.insn)) (xreg p (rvc_rs2s f.insn)))))

unfoldable pub c_subw : Body
c_subw f p = require_extension letter_c p (
    require (f.xlen == 64) p (
      finish f p (rvc_rs1s f.insn)
        (sext32 (sub64 (xreg p (rvc_rs1s f.insn)) (xreg p (rvc_rs2s f.insn))))))

unfoldable pub c_xor : Body
c_xor f p =
    require_extension letter_c p
      (finish f p (rvc_rs1s f.insn) (bit_xor (xreg p (rvc_rs1s f.insn)) (xreg p (rvc_rs2s f.insn))))
