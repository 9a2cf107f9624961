-- ===== src/Insns/CompressedMemory.antt =====
-- The compressed instructions under riscv/insns that load and store.
use spike.Base.{ℕ, true, not, ◌==◌, if◌then◌else◌, add64}
use spike.Decode.{rd}
use spike.Decode.Compressed.{
  rvc_lwsp_imm, rvc_ldsp_imm, rvc_swsp_imm, rvc_sdsp_imm, rvc_lw_imm, rvc_ld_imm, rvc_rd, rvc_rs2,
  rvc_rs1s, rvc_rs2s,
}
use spike.Insns.{Fetched}
use spike.Insns.Compressed.{x_sp}
use spike.Insns.Memory.{
  MemoryBody, needs, needs_extension, needs_fp, letter_d, load_x, load_f, store_reg,
}
use spike.Mmu.Port.{◌>>◌, Platform}
use spike.Processor.Csr.Read.{letter_f}
use spike.Processor.State.{Processor}
use spike.Processor.Trap.Return.{letter_c}

-- An address from a register of the short field or from the stack pointer, and the sources of stores.
abbrev short_address : (ℕ → ℕ) → Fetched → Processor → ℕ
short_address imm f p = add64 (p.state.xpr (rvc_rs1s f.insn)) (imm f.insn)

abbrev stack_address : (ℕ → ℕ) → Fetched → Processor → ℕ
stack_address imm f p = add64 (p.state.xpr x_sp) (imm f.insn)

abbrev xreg_at : (ℕ → ℕ) → Fetched → Processor → ℕ
xreg_at field f p = p.state.xpr (field f.insn)

abbrev freg_at : (ℕ → ℕ) → Fetched → Processor → ℕ
freg_at field f p = p.state.fpr (field f.insn)

module _ {S : Type 0} (platform : Platform S) where
  unfoldable pub c_lw : MemoryBody S
  c_lw f = do
    needs_extension letter_c
    load_x platform true 4 (short_address rvc_lw_imm f) (rvc_rs2s f.insn) f

  unfoldable pub c_lwsp : MemoryBody S
  c_lwsp f = do
    needs_extension letter_c
    needs λ _. not (rvc_rd f.insn == 0)
    load_x platform true 4 (stack_address rvc_lwsp_imm f) (rd f.insn) f

  unfoldable pub c_sw : MemoryBody S
  c_sw f = do
    needs_extension letter_c
    store_reg platform 4 (short_address rvc_lw_imm f) (xreg_at rvc_rs2s f) f

  unfoldable pub c_swsp : MemoryBody S
  c_swsp f = do
    needs_extension letter_c
    store_reg platform 4 (stack_address rvc_swsp_imm f) (xreg_at rvc_rs2 f) f

  unfoldable pub c_fld : MemoryBody S
  c_fld f = do
    needs_extension letter_c
    needs_extension letter_d
    needs_fp
    load_f platform true 8 (short_address rvc_ld_imm f) (rvc_rs2s f.insn) f

  unfoldable pub c_fldsp : MemoryBody S
  c_fldsp f = do
    needs_extension letter_c
    needs_extension letter_d
    needs_fp
    load_f platform true 8 (stack_address rvc_ldsp_imm f) (rd f.insn) f

  unfoldable pub c_fsd : MemoryBody S
  c_fsd f = do
    needs_extension letter_c
    needs_extension letter_d
    needs_fp
    store_reg platform 8 (short_address rvc_ld_imm f) (freg_at rvc_rs2s f) f

  unfoldable pub c_fsdsp : MemoryBody S
  c_fsdsp f = do
    needs_extension letter_c
    needs_extension letter_d
    needs_fp
    store_reg platform 8 (stack_address rvc_sdsp_imm f) (freg_at rvc_rs2 f) f

  -- On 64 bits this is `c.ld`.
  unfoldable pub c_flw : MemoryBody S
  c_flw f = do
    needs_extension letter_c
    if f.xlen == 32
        then (do
          needs_extension letter_f
          needs_fp
          load_f platform true 4 (short_address rvc_lw_imm f) (rvc_rs2s f.insn) f)
        else (load_x platform true 8 (short_address rvc_ld_imm f) (rvc_rs2s f.insn) f)

  -- On 64 bits this is `c.ldsp`.
  unfoldable pub c_flwsp : MemoryBody S
  c_flwsp f = do
    needs_extension letter_c
    if f.xlen == 32
        then (do
          needs_extension letter_f
          needs_fp
          load_f platform true 4 (stack_address rvc_lwsp_imm f) (rd f.insn) f)
        else (do
          needs λ _. not (rvc_rd f.insn == 0)
          load_x platform true 8 (stack_address rvc_ldsp_imm f) (rd f.insn) f)

  -- On 64 bits this is `c.sd`.
  unfoldable pub c_fsw : MemoryBody S
  c_fsw f = do
    needs_extension letter_c
    if f.xlen == 32
        then (do
          needs_extension letter_f
          needs_fp
          store_reg platform 4 (short_address rvc_lw_imm f) (freg_at rvc_rs2s f) f)
        else (store_reg platform 8 (short_address rvc_ld_imm f) (xreg_at rvc_rs2s f) f)

  -- On 64 bits this is `c.sdsp`.
  unfoldable pub c_fswsp : MemoryBody S
  c_fswsp f = do
    needs_extension letter_c
    if f.xlen == 32
        then (do
          needs_extension letter_f
          needs_fp
          store_reg platform 4 (stack_address rvc_swsp_imm f) (freg_at rvc_rs2 f) f)
        else (store_reg platform 8 (stack_address rvc_sdsp_imm f) (xreg_at rvc_rs2 f) f)
