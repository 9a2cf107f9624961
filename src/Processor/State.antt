-- ===== src/Processor/State.antt =====
-- riscv/processor.h: the architectural state of a hart, the debug and trigger registers, and the
-- part of `mmu_t` (riscv/mmu.h) that caches translations for it.
use spike.Base.{ℕ, Bool, false, Option, all_ones, ◌==◌, if◌then◌else◌}
use spike.Encoding.{prv_m, default_rstvec, default_mtvec, prv_h, prv_u}

-- `dcsr_t`
pub record Dcsr : Type 0 where
  pub prv : ℕ
  pub step : Bool
  pub ebreakm : Bool
  pub ebreakh : Bool
  pub ebreaks : Bool
  pub ebreaku : Bool
  pub halt : Bool
  pub cause : ℕ

-- `mcontrol_t`. `action` and `match` are C enumerations, which also hold numbers with no name.
pub record Mcontrol : Type 0 where
  pub type : ℕ
  pub dmode : Bool
  pub maskmax : ℕ
  pub select : Bool
  pub timing : Bool
  pub action : ℕ
  pub chain : Bool
  pub match : ℕ
  pub m : Bool
  pub h : Bool
  pub s : Bool
  pub u : Bool
  pub execute : Bool
  pub store : Bool
  pub load : Bool

pub data SingleStep : Type 0 where
  step_none step_stepping step_stepped : SingleStep

abbrev pub num_triggers : ℕ
num_triggers = 4

-- `state_t`. Arrays are functions of the index.
pub record State : Type 0 where
  pub pc : ℕ
  pub xpr : ℕ → ℕ
  pub fpr : ℕ → ℕ
  pub prv : ℕ
  pub mstatus : ℕ
  pub mepc : ℕ
  pub mbadaddr : ℕ
  pub mscratch : ℕ
  pub mtvec : ℕ
  pub mcause : ℕ
  pub minstret : ℕ
  pub mie : ℕ
  pub mip : ℕ
  pub medeleg : ℕ
  pub mideleg : ℕ
  pub mucounteren : ℕ
  pub mscounteren : ℕ
  pub sepc : ℕ
  pub sbadaddr : ℕ
  pub sscratch : ℕ
  pub stvec : ℕ
  pub sptbr : ℕ
  pub scause : ℕ
  pub dpc : ℕ
  pub dscratch : ℕ
  pub dcsr : Dcsr
  pub tselect : ℕ
  pub mcontrol : ℕ → Mcontrol
  pub tdata2 : ℕ → ℕ
  pub fflags : ℕ
  pub frm : ℕ
  pub serialized : Bool
  pub single_step : SingleStep
  pub load_reservation : ℕ

-- `trigger_operation_t` and `trigger_matched_t`
pub data TriggerOperation : Type 0 where
  operation_execute operation_store operation_load : TriggerOperation

pub record TriggerMatched : Type 0 where
  pub index : ℕ
  pub operation : TriggerOperation
  pub address : ℕ
  pub value : ℕ

-- The fields of `mmu_t` that change. `tlb_data` holds `addr_to_mem(paddr) - vaddr` as an offset into
-- target memory, modulo 2 ^ 64.
pub record Mmu : Type 0 where
  pub tlb_data : ℕ → ℕ
  pub tlb_insn_tag : ℕ → ℕ
  pub tlb_load_tag : ℕ → ℕ
  pub tlb_store_tag : ℕ → ℕ
  pub icache_tag : ℕ → ℕ
  pub icache_insn : ℕ → ℕ
  pub check_triggers_fetch : Bool
  pub check_triggers_load : Bool
  pub check_triggers_store : Bool
  pub matched_trigger : Option TriggerMatched

-- `processor_t`, less its opcode table (`Processor.Opcodes`) and what only prints. `ext` is whether
-- an extension is registered.
pub record Processor : Type 0 where
  pub state : State
  pub mmu : Mmu
  pub ext : Bool
  pub id : ℕ
  pub max_xlen : ℕ
  pub xlen : ℕ
  pub isa : ℕ
  pub max_isa : ℕ
  pub debug : Bool
  pub halt_on_reset : Bool

unfoldable pub flush_icache : Mmu → Mmu
flush_icache mmu = record mmu { icache_tag = λ _. all_ones }

unfoldable pub flush_tlb : Mmu → Mmu
unfolding flush_icache
flush_tlb mmu = flush_icache (record mmu {
  tlb_insn_tag = λ _. all_ones;
  tlb_load_tag = λ _. all_ones;
  tlb_store_tag = λ _. all_ones;
})

abbrev pub no_mcontrol : Mcontrol
no_mcontrol = record {
  type = 0;
  dmode = false;
  maskmax = 0;
  select = false;
  timing = false;
  action = 0;
  chain = false;
  match = 0;
  m = false;
  h = false;
  s = false;
  u = false;
  execute = false;
  store = false;
  load = false;
}

-- `state_t::reset`: all zero, but for the fields that it then sets.
unfoldable pub reset_state : State
reset_state = record {
  pc = default_rstvec;
  xpr = λ _. 0;
  fpr = λ _. 0;
  prv = prv_m;
  mstatus = 0;
  mepc = 0;
  mbadaddr = 0;
  mscratch = 0;
  mtvec = default_mtvec;
  mcause = 0;
  minstret = 0;
  mie = 0;
  mip = 0;
  medeleg = 0;
  mideleg = 0;
  mucounteren = 0;
  mscounteren = 0;
  sepc = 0;
  sbadaddr = 0;
  sscratch = 0;
  stvec = 0;
  sptbr = 0;
  scause = 0;
  dpc = 0;
  dscratch = 0;
  dcsr = record {
    prv = 0;
    step = false;
    ebreakm = false;
    ebreakh = false;
    ebreaks = false;
    ebreaku = false;
    halt = false;
    cause = 0;
  };
  tselect = 0;
  mcontrol = λ _. record no_mcontrol { type = 2 };
  tdata2 = λ _. 0;
  fflags = 0;
  frm = 0;
  serialized = false;
  single_step = step_none;
  load_reservation = all_ones;
}

-- `processor_t::set_privilege`: the hypervisor mode, which is not there, becomes user mode. The
-- caller passes at most `PRV_M`, as the code asserts.
unfoldable pub set_privilege : Processor → ℕ → Processor
unfolding flush_tlb
set_privilege p prv =
    let level = if prv == prv_h then prv_u else prv in
    record p { mmu = flush_tlb p.mmu; state = record p.state { prv = level } }
  where
    open p use {mmu, state}

unfoldable pub yield_load_reservation : Processor → Processor
yield_load_reservation p = record p { state = record p.state { load_reservation = all_ones } }
