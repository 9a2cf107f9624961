-- ===== src/Insns/Alu.antt =====
-- The integer instructions on registers and immediates: riscv/insns/add.h to xori.h.
use spike.Base.{
  ℕ, ◌-◌, bit_and, bit_or, bit_xor, ltb, ◌==◌, from_bool, add64, sub64, shl64, shr, sra64,
  signed_lt,
}
use spike.Decode.{i_imm, u_imm, sext32, zext32, sext_xlen, zext_xlen}
use spike.Insns.{Body, reg1, reg2, write_rd, require}

-- `SHAMT`
abbrev pub shamt : ℕ → ℕ
shamt insn = bit_and (i_imm insn) 0x3f

unfoldable pub add : Body
add f p = write_rd f p (sext_xlen f.xlen (add64 (reg1 f p) (reg2 f p)))

unfoldable pub addi : Body
addi f p = write_rd f p (sext_xlen f.xlen (add64 (reg1 f p) (i_imm f.insn)))

unfoldable pub addiw : Body
addiw f p = require (f.xlen == 64) p (write_rd f p (sext32 (add64 (i_imm f.insn) (reg1 f p))))

unfoldable pub addw : Body
addw f p = require (f.xlen == 64) p (write_rd f p (sext32 (add64 (reg1 f p) (reg2 f p))))

unfoldable pub and : Body
and f p = write_rd f p (bit_and (reg1 f p) (reg2 f p))

unfoldable pub andi : Body
andi f p = write_rd f p (bit_and (i_imm f.insn) (reg1 f p))

unfoldable pub auipc : Body
auipc f p = write_rd f p (sext_xlen f.xlen (add64 (u_imm f.insn) f.pc))

unfoldable pub lui : Body
lui f p = write_rd f p (u_imm f.insn)

unfoldable pub or : Body
or f p = write_rd f p (bit_or (reg1 f p) (reg2 f p))

unfoldable pub ori : Body
ori f p = write_rd f p (bit_or (i_imm f.insn) (reg1 f p))

unfoldable pub sll : Body
sll f p = write_rd f p (sext_xlen f.xlen (shl64 (reg1 f p) (bit_and (reg2 f p) (f.xlen - 1))))

unfoldable pub slli : Body
slli f p =
    require (ltb (shamt f.insn) f.xlen) p
      (write_rd f p (sext_xlen f.xlen (shl64 (reg1 f p) (shamt f.insn))))

unfoldable pub slliw : Body
slliw f p = require (f.xlen == 64) p (write_rd f p (sext32 (shl64 (reg1 f p) (shamt f.insn))))

unfoldable pub sllw : Body
sllw f p =
    require (f.xlen == 64) p (write_rd f p (sext32 (shl64 (reg1 f p) (bit_and (reg2 f p) 0x1f))))

unfoldable pub slt : Body
slt f p = write_rd f p (from_bool (signed_lt (reg1 f p) (reg2 f p)))

unfoldable pub slti : Body
slti f p = write_rd f p (from_bool (signed_lt (reg1 f p) (i_imm f.insn)))

unfoldable pub sltiu : Body
sltiu f p = write_rd f p (from_bool (ltb (reg1 f p) (i_imm f.insn)))

unfoldable pub sltu : Body
sltu f p = write_rd f p (from_bool (ltb (reg1 f p) (reg2 f p)))

unfoldable pub sra : Body
sra f p =
    write_rd f p
      (sext_xlen f.xlen (sra64 (sext_xlen f.xlen (reg1 f p)) (bit_and (reg2 f p) (f.xlen - 1))))

unfoldable pub srai : Body
srai f p =
    require (ltb (shamt f.insn) f.xlen) p
      (write_rd f p (sext_xlen f.xlen (sra64 (sext_xlen f.xlen (reg1 f p)) (shamt f.insn))))

unfoldable pub sraiw : Body
sraiw f p =
    require (f.xlen == 64) p (write_rd f p (sext32 (sra64 (sext32 (reg1 f p)) (shamt f.insn))))

unfoldable pub sraw : Body
sraw f p =
    require (f.xlen == 64) p
      (write_rd f p (sext32 (sra64 (sext32 (reg1 f p)) (bit_and (reg2 f p) 0x1f))))

unfoldable pub srl : Body
srl f p =
    write_rd f p
      (sext_xlen f.xlen (shr (zext_xlen f.xlen (reg1 f p)) (bit_and (reg2 f p) (f.xlen - 1))))

unfoldable pub srli : Body
srli f p =
    require (ltb (shamt f.insn) f.xlen) p
      (write_rd f p (sext_xlen f.xlen (shr (zext_xlen f.xlen (reg1 f p)) (shamt f.insn))))

unfoldable pub srliw : Body
srliw f p =
    require (f.xlen == 64) p (write_rd f p (sext32 (shr (zext32 (reg1 f p)) (shamt f.insn))))

unfoldable pub srlw : Body
srlw f p =
    require (f.xlen == 64) p
      (write_rd f p (sext32 (shr (zext32 (reg1 f p)) (bit_and (reg2 f p) 0x1f))))

unfoldable pub sub : Body
sub f p = write_rd f p (sext_xlen f.xlen (sub64 (reg1 f p) (reg2 f p)))

unfoldable pub subw : Body
subw f p = require (f.xlen == 64) p (write_rd f p (sext32 (sub64 (reg1 f p) (reg2 f p))))

unfoldable pub xor : Body
xor f p = write_rd f p (bit_xor (reg1 f p) (reg2 f p))

unfoldable pub xori : Body
xori f p = write_rd f p (bit_xor (i_imm f.insn) (reg1 f p))
