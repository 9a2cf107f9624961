-- ===== src/Encoding/Insns.antt =====
-- The instructions of riscv/riscv.mk.in, and what riscv/encoding.h declares of them.
use spike.Base.{ℕ, Option, none, some, List, [], ◌∷◌, ◌++◌}

-- `riscv_insn_list`: the instructions that a processor registers.
pub data Insn : Type 0 where
  beq bne blt bge bltu bgeu jalr jal lui auipc addi slli slti sltiu xori srli srai ori andi : Insn
  add sub sll slt sltu xor srl sra or and addiw slliw srliw sraiw addw subw sllw srlw sraw : Insn
  lb lh lw ld lbu lhu lwu sb sh sw sd fence fence_i mul mulh mulhsu mulhu div divu rem remu : Insn
  mulw divw divuw remw remuw amoadd_w amoxor_w amoor_w amoand_w amomin_w amomax_w amominu_w : Insn
  amomaxu_w amoswap_w lr_w sc_w amoadd_d amoxor_d amoor_d amoand_d amomin_d amomax_d : Insn
  amominu_d amomaxu_d amoswap_d lr_d sc_d ecall ebreak sret mret dret sfence_vm wfi csrrw : Insn
  csrrs csrrc csrrwi csrrsi csrrci fadd_s fsub_s fmul_s fdiv_s fsgnj_s fsgnjn_s fsgnjx_s : Insn
  fmin_s fmax_s fsqrt_s fadd_d fsub_d fmul_d fdiv_d fsgnj_d fsgnjn_d fsgnjx_d fmin_d fmax_d : Insn
  fcvt_s_d fcvt_d_s fsqrt_d fle_s flt_s feq_s fle_d flt_d feq_d fcvt_w_s fcvt_wu_s fcvt_l_s : Insn
  fcvt_lu_s fmv_x_s fclass_s fcvt_w_d fcvt_wu_d fcvt_l_d fcvt_lu_d fmv_x_d fclass_d fcvt_s_w : Insn
  fcvt_s_wu fcvt_s_l fcvt_s_lu fmv_s_x fcvt_d_w fcvt_d_wu fcvt_d_l fcvt_d_lu fmv_d_x flw fld : Insn
  fsw fsd fmadd_s fmsub_s fnmsub_s fnmadd_s fmadd_d fmsub_d fnmsub_d fnmadd_d c_jr c_jalr : Insn
  c_ebreak c_addi4spn c_fld c_lw c_flw c_fsd c_sw c_fsw c_addi c_jal c_li c_lui c_srli : Insn
  c_srai c_andi c_sub c_xor c_or c_and c_subw c_addw c_j c_beqz c_bnez c_slli c_fldsp c_lwsp : Insn
  c_flwsp c_mv c_add c_fsdsp c_swsp c_fswsp : Insn

-- `MATCH_…` and `MASK_…` of one declared instruction; `none` is one that no processor registers.
pub record Declaration : Type 0 where
  pub match : ℕ
  pub mask : ℕ
  pub insn : Option Insn

abbrev declare : ℕ → ℕ → Option Insn → Declaration
declare match mask insn = record { match = match; mask = mask; insn = insn }

abbrev declarations_1 : List Declaration
declarations_1 =
    declare 0x63 0x707f (some beq)
    ∷ declare 0x1063 0x707f (some bne)
    ∷ declare 0x4063 0x707f (some blt)
    ∷ declare 0x5063 0x707f (some bge)
    ∷ declare 0x6063 0x707f (some bltu)
    ∷ declare 0x7063 0x707f (some bgeu)
    ∷ declare 0x67 0x707f (some jalr)
    ∷ declare 0x6f 0x7f (some jal)
    ∷ declare 0x37 0x7f (some lui)
    ∷ declare 0x17 0x7f (some auipc)
    ∷ declare 0x13 0x707f (some addi)
    ∷ declare 0x1013 0xfc00707f (some slli)
    ∷ declare 0x2013 0x707f (some slti)
    ∷ declare 0x3013 0x707f (some sltiu)
    ∷ declare 0x4013 0x707f (some xori)
    ∷ declare 0x5013 0xfc00707f (some srli)
    ∷ declare 0x40005013 0xfc00707f (some srai)
    ∷ declare 0x6013 0x707f (some ori)
    ∷ declare 0x7013 0x707f (some andi)
    ∷ declare 0x33 0xfe00707f (some add)
    ∷ declare 0x40000033 0xfe00707f (some sub)
    ∷ declare 0x1033 0xfe00707f (some sll)
    ∷ declare 0x2033 0xfe00707f (some slt)
    ∷ declare 0x3033 0xfe00707f (some sltu)
    ∷ declare 0x4033 0xfe00707f (some xor)
    ∷ declare 0x5033 0xfe00707f (some srl)
    ∷ declare 0x40005033 0xfe00707f (some sra)
    ∷ declare 0x6033 0xfe00707f (some or)
    ∷ declare 0x7033 0xfe00707f (some and)
    ∷ declare 0x1b 0x707f (some addiw)
    ∷ declare 0x101b 0xfe00707f (some slliw)
    ∷ declare 0x501b 0xfe00707f (some srliw)
    ∷ declare 0x4000501b 0xfe00707f (some sraiw)
    ∷ declare 0x3b 0xfe00707f (some addw)
    ∷ declare 0x4000003b 0xfe00707f (some subw)
    ∷ declare 0x103b 0xfe00707f (some sllw)
    ∷ declare 0x503b 0xfe00707f (some srlw)
    ∷ declare 0x4000503b 0xfe00707f (some sraw)
    ∷ declare 0x3 0x707f (some lb)
    ∷ declare 0x1003 0x707f (some lh)
    ∷ declare 0x2003 0x707f (some lw)
    ∷ declare 0x3003 0x707f (some ld)
    ∷ declare 0x4003 0x707f (some lbu)
    ∷ declare 0x5003 0x707f (some lhu)
    ∷ declare 0x6003 0x707f (some lwu)
    ∷ declare 0x23 0x707f (some sb)
    ∷ declare 0x1023 0x707f (some sh)
    ∷ declare 0x2023 0x707f (some sw)
    ∷ declare 0x3023 0x707f (some sd)
    ∷ declare 0xf 0x707f (some fence)
    ∷ declare 0x100f 0x707f (some fence_i)
    ∷ declare 0x2000033 0xfe00707f (some mul)
    ∷ declare 0x2001033 0xfe00707f (some mulh)
    ∷ declare 0x2002033 0xfe00707f (some mulhsu)
    ∷ declare 0x2003033 0xfe00707f (some mulhu)
    ∷ declare 0x2004033 0xfe00707f (some div)
    ∷ declare 0x2005033 0xfe00707f (some divu)
    ∷ declare 0x2006033 0xfe00707f (some rem)
    ∷ []

abbrev declarations_2 : List Declaration
declarations_2 =
    declare 0x2007033 0xfe00707f (some remu)
    ∷ declare 0x200003b 0xfe00707f (some mulw)
    ∷ declare 0x200403b 0xfe00707f (some divw)
    ∷ declare 0x200503b 0xfe00707f (some divuw)
    ∷ declare 0x200603b 0xfe00707f (some remw)
    ∷ declare 0x200703b 0xfe00707f (some remuw)
    ∷ declare 0x202f 0xf800707f (some amoadd_w)
    ∷ declare 0x2000202f 0xf800707f (some amoxor_w)
    ∷ declare 0x4000202f 0xf800707f (some amoor_w)
    ∷ declare 0x6000202f 0xf800707f (some amoand_w)
    ∷ declare 0x8000202f 0xf800707f (some amomin_w)
    ∷ declare 0xa000202f 0xf800707f (some amomax_w)
    ∷ declare 0xc000202f 0xf800707f (some amominu_w)
    ∷ declare 0xe000202f 0xf800707f (some amomaxu_w)
    ∷ declare 0x800202f 0xf800707f (some amoswap_w)
    ∷ declare 0x1000202f 0xf9f0707f (some lr_w)
    ∷ declare 0x1800202f 0xf800707f (some sc_w)
    ∷ declare 0x302f 0xf800707f (some amoadd_d)
    ∷ declare 0x2000302f 0xf800707f (some amoxor_d)
    ∷ declare 0x4000302f 0xf800707f (some amoor_d)
    ∷ declare 0x6000302f 0xf800707f (some amoand_d)
    ∷ declare 0x8000302f 0xf800707f (some amomin_d)
    ∷ declare 0xa000302f 0xf800707f (some amomax_d)
    ∷ declare 0xc000302f 0xf800707f (some amominu_d)
    ∷ declare 0xe000302f 0xf800707f (some amomaxu_d)
    ∷ declare 0x800302f 0xf800707f (some amoswap_d)
    ∷ declare 0x1000302f 0xf9f0707f (some lr_d)
    ∷ declare 0x1800302f 0xf800707f (some sc_d)
    ∷ declare 0x73 0xffffffff (some ecall)
    ∷ declare 0x100073 0xffffffff (some ebreak)
    ∷ declare 0x200073 0xffffffff none
    ∷ declare 0x10200073 0xffffffff (some sret)
    ∷ declare 0x20200073 0xffffffff none
    ∷ declare 0x30200073 0xffffffff (some mret)
    ∷ declare 0x7b200073 0xffffffff (some dret)
    ∷ declare 0x10400073 0xfff07fff (some sfence_vm)
    ∷ declare 0x10500073 0xffffffff (some wfi)
    ∷ declare 0x1073 0x707f (some csrrw)
    ∷ declare 0x2073 0x707f (some csrrs)
    ∷ declare 0x3073 0x707f (some csrrc)
    ∷ declare 0x5073 0x707f (some csrrwi)
    ∷ declare 0x6073 0x707f (some csrrsi)
    ∷ declare 0x7073 0x707f (some csrrci)
    ∷ declare 0x53 0xfe00007f (some fadd_s)
    ∷ declare 0x8000053 0xfe00007f (some fsub_s)
    ∷ declare 0x10000053 0xfe00007f (some fmul_s)
    ∷ declare 0x18000053 0xfe00007f (some fdiv_s)
    ∷ declare 0x20000053 0xfe00707f (some fsgnj_s)
    ∷ declare 0x20001053 0xfe00707f (some fsgnjn_s)
    ∷ declare 0x20002053 0xfe00707f (some fsgnjx_s)
    ∷ declare 0x28000053 0xfe00707f (some fmin_s)
    ∷ declare 0x28001053 0xfe00707f (some fmax_s)
    ∷ declare 0x58000053 0xfff0007f (some fsqrt_s)
    ∷ declare 0x2000053 0xfe00007f (some fadd_d)
    ∷ declare 0xa000053 0xfe00007f (some fsub_d)
    ∷ declare 0x12000053 0xfe00007f (some fmul_d)
    ∷ declare 0x1a000053 0xfe00007f (some fdiv_d)
    ∷ declare 0x22000053 0xfe00707f (some fsgnj_d)
    ∷ []

abbrev declarations_3 : List Declaration
declarations_3 =
    declare 0x22001053 0xfe00707f (some fsgnjn_d)
    ∷ declare 0x22002053 0xfe00707f (some fsgnjx_d)
    ∷ declare 0x2a000053 0xfe00707f (some fmin_d)
    ∷ declare 0x2a001053 0xfe00707f (some fmax_d)
    ∷ declare 0x40100053 0xfff0007f (some fcvt_s_d)
    ∷ declare 0x42000053 0xfff0007f (some fcvt_d_s)
    ∷ declare 0x5a000053 0xfff0007f (some fsqrt_d)
    ∷ declare 0xa0000053 0xfe00707f (some fle_s)
    ∷ declare 0xa0001053 0xfe00707f (some flt_s)
    ∷ declare 0xa0002053 0xfe00707f (some feq_s)
    ∷ declare 0xa2000053 0xfe00707f (some fle_d)
    ∷ declare 0xa2001053 0xfe00707f (some flt_d)
    ∷ declare 0xa2002053 0xfe00707f (some feq_d)
    ∷ declare 0xc0000053 0xfff0007f (some fcvt_w_s)
    ∷ declare 0xc0100053 0xfff0007f (some fcvt_wu_s)
    ∷ declare 0xc0200053 0xfff0007f (some fcvt_l_s)
    ∷ declare 0xc0300053 0xfff0007f (some fcvt_lu_s)
    ∷ declare 0xe0000053 0xfff0707f (some fmv_x_s)
    ∷ declare 0xe0001053 0xfff0707f (some fclass_s)
    ∷ declare 0xc2000053 0xfff0007f (some fcvt_w_d)
    ∷ declare 0xc2100053 0xfff0007f (some fcvt_wu_d)
    ∷ declare 0xc2200053 0xfff0007f (some fcvt_l_d)
    ∷ declare 0xc2300053 0xfff0007f (some fcvt_lu_d)
    ∷ declare 0xe2000053 0xfff0707f (some fmv_x_d)
    ∷ declare 0xe2001053 0xfff0707f (some fclass_d)
    ∷ declare 0xd0000053 0xfff0007f (some fcvt_s_w)
    ∷ declare 0xd0100053 0xfff0007f (some fcvt_s_wu)
    ∷ declare 0xd0200053 0xfff0007f (some fcvt_s_l)
    ∷ declare 0xd0300053 0xfff0007f (some fcvt_s_lu)
    ∷ declare 0xf0000053 0xfff0707f (some fmv_s_x)
    ∷ declare 0xd2000053 0xfff0007f (some fcvt_d_w)
    ∷ declare 0xd2100053 0xfff0007f (some fcvt_d_wu)
    ∷ declare 0xd2200053 0xfff0007f (some fcvt_d_l)
    ∷ declare 0xd2300053 0xfff0007f (some fcvt_d_lu)
    ∷ declare 0xf2000053 0xfff0707f (some fmv_d_x)
    ∷ declare 0x2007 0x707f (some flw)
    ∷ declare 0x3007 0x707f (some fld)
    ∷ declare 0x2027 0x707f (some fsw)
    ∷ declare 0x3027 0x707f (some fsd)
    ∷ declare 0x43 0x600007f (some fmadd_s)
    ∷ declare 0x47 0x600007f (some fmsub_s)
    ∷ declare 0x4b 0x600007f (some fnmsub_s)
    ∷ declare 0x4f 0x600007f (some fnmadd_s)
    ∷ declare 0x2000043 0x600007f (some fmadd_d)
    ∷ declare 0x2000047 0x600007f (some fmsub_d)
    ∷ declare 0x200004b 0x600007f (some fnmsub_d)
    ∷ declare 0x200004f 0x600007f (some fnmadd_d)
    ∷ declare 0x1 0xffff none
    ∷ declare 0x6101 0xef83 none
    ∷ declare 0x8002 0xf07f (some c_jr)
    ∷ declare 0x9002 0xf07f (some c_jalr)
    ∷ declare 0x9002 0xffff (some c_ebreak)
    ∷ declare 0x6000 0xe003 none
    ∷ declare 0xe000 0xe003 none
    ∷ declare 0x2001 0xe003 none
    ∷ declare 0x6002 0xe003 none
    ∷ declare 0xe002 0xe003 none
    ∷ declare 0x0 0xe003 (some c_addi4spn)
    ∷ []

abbrev declarations_4 : List Declaration
declarations_4 =
    declare 0x2000 0xe003 (some c_fld)
    ∷ declare 0x4000 0xe003 (some c_lw)
    ∷ declare 0x6000 0xe003 (some c_flw)
    ∷ declare 0xa000 0xe003 (some c_fsd)
    ∷ declare 0xc000 0xe003 (some c_sw)
    ∷ declare 0xe000 0xe003 (some c_fsw)
    ∷ declare 0x1 0xe003 (some c_addi)
    ∷ declare 0x2001 0xe003 (some c_jal)
    ∷ declare 0x4001 0xe003 (some c_li)
    ∷ declare 0x6001 0xe003 (some c_lui)
    ∷ declare 0x8001 0xec03 (some c_srli)
    ∷ declare 0x8401 0xec03 (some c_srai)
    ∷ declare 0x8801 0xec03 (some c_andi)
    ∷ declare 0x8c01 0xfc63 (some c_sub)
    ∷ declare 0x8c21 0xfc63 (some c_xor)
    ∷ declare 0x8c41 0xfc63 (some c_or)
    ∷ declare 0x8c61 0xfc63 (some c_and)
    ∷ declare 0x9c01 0xfc63 (some c_subw)
    ∷ declare 0x9c21 0xfc63 (some c_addw)
    ∷ declare 0xa001 0xe003 (some c_j)
    ∷ declare 0xc001 0xe003 (some c_beqz)
    ∷ declare 0xe001 0xe003 (some c_bnez)
    ∷ declare 0x2 0xe003 (some c_slli)
    ∷ declare 0x2002 0xe003 (some c_fldsp)
    ∷ declare 0x4002 0xe003 (some c_lwsp)
    ∷ declare 0x6002 0xe003 (some c_flwsp)
    ∷ declare 0x8002 0xf003 (some c_mv)
    ∷ declare 0x9002 0xf003 (some c_add)
    ∷ declare 0xa002 0xe003 (some c_fsdsp)
    ∷ declare 0xc002 0xe003 (some c_swsp)
    ∷ declare 0xe002 0xe003 (some c_fswsp)
    ∷ declare 0xb 0x707f none
    ∷ declare 0x200b 0x707f none
    ∷ declare 0x300b 0x707f none
    ∷ declare 0x400b 0x707f none
    ∷ declare 0x600b 0x707f none
    ∷ declare 0x700b 0x707f none
    ∷ declare 0x2b 0x707f none
    ∷ declare 0x202b 0x707f none
    ∷ declare 0x302b 0x707f none
    ∷ declare 0x402b 0x707f none
    ∷ declare 0x602b 0x707f none
    ∷ declare 0x702b 0x707f none
    ∷ declare 0x5b 0x707f none
    ∷ declare 0x205b 0x707f none
    ∷ declare 0x305b 0x707f none
    ∷ declare 0x405b 0x707f none
    ∷ declare 0x605b 0x707f none
    ∷ declare 0x705b 0x707f none
    ∷ declare 0x7b 0x707f none
    ∷ declare 0x207b 0x707f none
    ∷ declare 0x307b 0x707f none
    ∷ declare 0x407b 0x707f none
    ∷ declare 0x607b 0x707f none
    ∷ declare 0x707b 0x707f none
    ∷ []

-- All `DECLARE_INSN` lines.
unfoldable pub declarations : List Declaration
declarations = declarations_1 ++ (declarations_2 ++ (declarations_3 ++ (declarations_4)))
