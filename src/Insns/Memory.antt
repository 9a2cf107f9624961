-- ===== src/Insns/Memory.antt =====
-- The instructions under riscv/insns that load and store, with the macros of riscv/decode.h that they
-- use. The body of one gives the next pc.
use spike.Base.{ℕ, Bool, true, false, ◌==◌, if◌then◌else◌, bit_and, none, truth, add64}
use spike.Decode.{i_imm, s_imm, rd, rs2, regfile_write}
use spike.Encoding.{mstatus_fs, cause_illegal_instruction}
use spike.Insns.{Fetched, reg1, reg2, write_reg}
use spike.Mmu.Data.{load_value, store_value}
use spike.Mmu.Port.{done, traps, M, ◌>>=◌, ◌>>◌, pure, asks, modify, Platform}
use spike.Processor.Csr.Read.{supports_extension, letter_f}
use spike.Processor.Csr.Write.{dirty_fp_state}
use spike.Processor.State.{Processor}

abbrev pub MemoryBody : Type 0 → Type 0
MemoryBody S = Fetched → M S ℕ

-- The letter `D`.
abbrev pub letter_d : ℕ
letter_d = 3

module _ {S : Type 0} where
  -- `require`
  unfoldable pub needs : (Processor → Bool) → M S (Unit {0})
  needs test port =
      if test port.hart
      then (port, done tt)
      else (port, traps record { cause = cause_illegal_instruction; badaddr = none })

  abbrev pub needs_extension : ℕ → M S (Unit {0})
  needs_extension letter = needs λ p. supports_extension p letter

  -- `require_rv64` and `require_fp`
  abbrev pub needs_rv64 : Fetched → M S (Unit {0})
  needs_rv64 f = needs λ _. f.xlen == 64

  abbrev pub needs_fp : M S (Unit {0})
  needs_fp = needs λ p. truth (bit_and p.state.mstatus mstatus_fs)

  -- `WRITE_REG` and `WRITE_FREG`
  abbrev pub write_xreg : ℕ → ℕ → M S (Unit {0})
  write_xreg i value = modify λ p. write_reg p i value

  abbrev pub write_freg : ℕ → ℕ → M S (Unit {0})
  write_freg i value = modify λ p. record p {
    state = record p.state {
      fpr = regfile_write false p.state.fpr i value;
      mstatus = dirty_fp_state p;
    };
  }

-- `RS1 + insn.i_imm()`, `RS1 + insn.s_imm()` and `FRS2`
abbrev pub load_address : Fetched → Processor → ℕ
load_address f p = add64 (reg1 f p) (i_imm f.insn)

abbrev pub store_address : Fetched → Processor → ℕ
store_address f p = add64 (reg1 f p) (s_imm f.insn)

abbrev pub freg2 : Fetched → Processor → ℕ
freg2 f p = p.state.fpr (rs2 f.insn)

module _ {S : Type 0} (platform : Platform S) where
  -- A load to a register, and a store of one.
  unfoldable pub load_x : Bool → ℕ → (Processor → ℕ) → ℕ → MemoryBody S
  load_x signed size addr dest f = do
    a ← asks addr
    v ← load_value platform signed size a
    write_xreg dest v
    pure f.npc

  unfoldable pub load_f : Bool → ℕ → (Processor → ℕ) → ℕ → MemoryBody S
  load_f signed size addr dest f = do
    a ← asks addr
    v ← load_value platform signed size a
    write_freg dest v
    pure f.npc

  unfoldable pub store_reg : ℕ → (Processor → ℕ) → (Processor → ℕ) → MemoryBody S
  store_reg size addr source f = do
    a ← asks addr
    v ← asks source
    store_value platform size a v
    pure f.npc

  unfoldable pub lb : MemoryBody S
  lb f = load_x true 1 (load_address f) (rd f.insn) f

  unfoldable pub lbu : MemoryBody S
  lbu f = load_x false 1 (load_address f) (rd f.insn) f

  unfoldable pub lh : MemoryBody S
  lh f = load_x true 2 (load_address f) (rd f.insn) f

  unfoldable pub lhu : MemoryBody S
  lhu f = load_x false 2 (load_address f) (rd f.insn) f

  unfoldable pub lw : MemoryBody S
  lw f = load_x true 4 (load_address f) (rd f.insn) f

  unfoldable pub lwu : MemoryBody S
  lwu f = do needs_rv64 f; load_x false 4 (load_address f) (rd f.insn) f

  unfoldable pub ld : MemoryBody S
  ld f = do needs_rv64 f; load_x true 8 (load_address f) (rd f.insn) f

  unfoldable pub sb : MemoryBody S
  sb f = store_reg 1 (store_address f) (reg2 f) f

  unfoldable pub sh : MemoryBody S
  sh f = store_reg 2 (store_address f) (reg2 f) f

  unfoldable pub sw : MemoryBody S
  sw f = store_reg 4 (store_address f) (reg2 f) f

  unfoldable pub sd : MemoryBody S
  sd f = do needs_rv64 f; store_reg 8 (store_address f) (reg2 f) f

  unfoldable pub flw : MemoryBody S
  flw f = do needs_extension letter_f; needs_fp; load_f false 4 (load_address f) (rd f.insn) f

  unfoldable pub fld : MemoryBody S
  fld f = do needs_extension letter_d; needs_fp; load_f true 8 (load_address f) (rd f.insn) f

  unfoldable pub fsw : MemoryBody S
  fsw f = do needs_extension letter_f; needs_fp; store_reg 4 (store_address f) (freg2 f) f

  unfoldable pub fsd : MemoryBody S
  fsd f = do needs_extension letter_d; needs_fp; store_reg 8 (store_address f) (freg2 f) f
