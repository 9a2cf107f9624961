-- ===== src/Encoding.antt =====
-- riscv/encoding.h: the fields, numbers and addresses of the privileged architecture that the
-- simulator's code names. Numbers of control registers are in `Processor.Names`.
pub mod Insns
use spike.Base.{ℕ}

abbrev pub mstatus_uie : ℕ
mstatus_uie = 0x1

abbrev pub mstatus_sie : ℕ
mstatus_sie = 0x2

abbrev pub mstatus_mie : ℕ
mstatus_mie = 0x8

abbrev pub mstatus_spie : ℕ
mstatus_spie = 0x20

abbrev pub mstatus_mpie : ℕ
mstatus_mpie = 0x80

abbrev pub mstatus_spp : ℕ
mstatus_spp = 0x100

abbrev pub mstatus_mpp : ℕ
mstatus_mpp = 0x1800

abbrev pub mstatus_fs : ℕ
mstatus_fs = 0x6000

abbrev pub mstatus_xs : ℕ
mstatus_xs = 0x18000

abbrev pub mstatus_mprv : ℕ
mstatus_mprv = 0x20000

abbrev pub mstatus_pum : ℕ
mstatus_pum = 0x40000

abbrev pub mstatus_mxr : ℕ
mstatus_mxr = 0x80000

abbrev pub mstatus_vm : ℕ
mstatus_vm = 0x1f000000

abbrev pub mstatus32_sd : ℕ
mstatus32_sd = 0x80000000

abbrev pub mstatus64_sd : ℕ
mstatus64_sd = 0x8000000000000000

abbrev pub sstatus_sie : ℕ
sstatus_sie = 0x2

abbrev pub sstatus_spie : ℕ
sstatus_spie = 0x20

abbrev pub sstatus_spp : ℕ
sstatus_spp = 0x100

abbrev pub sstatus_fs : ℕ
sstatus_fs = 0x6000

abbrev pub sstatus_xs : ℕ
sstatus_xs = 0x18000

abbrev pub sstatus_pum : ℕ
sstatus_pum = 0x40000

abbrev pub sstatus32_sd : ℕ
sstatus32_sd = 0x80000000

abbrev pub sstatus64_sd : ℕ
sstatus64_sd = 0x8000000000000000

abbrev pub dcsr_xdebugver : ℕ
dcsr_xdebugver = 0xc0000000

abbrev pub dcsr_ndreset : ℕ
dcsr_ndreset = 0x20000000

abbrev pub dcsr_fullreset : ℕ
dcsr_fullreset = 0x10000000

abbrev pub dcsr_ebreakm : ℕ
dcsr_ebreakm = 0x8000

abbrev pub dcsr_ebreakh : ℕ
dcsr_ebreakh = 0x4000

abbrev pub dcsr_ebreaks : ℕ
dcsr_ebreaks = 0x2000

abbrev pub dcsr_ebreaku : ℕ
dcsr_ebreaku = 0x1000

abbrev pub dcsr_stopcycle : ℕ
dcsr_stopcycle = 0x400

abbrev pub dcsr_stoptime : ℕ
dcsr_stoptime = 0x200

abbrev pub dcsr_cause : ℕ
dcsr_cause = 0x1c0

abbrev pub dcsr_debugint : ℕ
dcsr_debugint = 0x20

abbrev pub dcsr_halt : ℕ
dcsr_halt = 0x8

abbrev pub dcsr_step : ℕ
dcsr_step = 0x4

abbrev pub dcsr_prv : ℕ
dcsr_prv = 0x3

abbrev pub dcsr_cause_none : ℕ
dcsr_cause_none = 0x0

abbrev pub dcsr_cause_swbp : ℕ
dcsr_cause_swbp = 0x1

abbrev pub dcsr_cause_hwbp : ℕ
dcsr_cause_hwbp = 0x2

abbrev pub dcsr_cause_debugint : ℕ
dcsr_cause_debugint = 0x3

abbrev pub dcsr_cause_step : ℕ
dcsr_cause_step = 0x4

abbrev pub dcsr_cause_halt : ℕ
dcsr_cause_halt = 0x5

abbrev pub mcontrol_select : ℕ
mcontrol_select = 0x80000

abbrev pub mcontrol_timing : ℕ
mcontrol_timing = 0x40000

abbrev pub mcontrol_action : ℕ
mcontrol_action = 0x3f000

abbrev pub mcontrol_chain : ℕ
mcontrol_chain = 0x800

abbrev pub mcontrol_match : ℕ
mcontrol_match = 0x780

abbrev pub mcontrol_m : ℕ
mcontrol_m = 0x40

abbrev pub mcontrol_h : ℕ
mcontrol_h = 0x20

abbrev pub mcontrol_s : ℕ
mcontrol_s = 0x10

abbrev pub mcontrol_u : ℕ
mcontrol_u = 0x8

abbrev pub mcontrol_execute : ℕ
mcontrol_execute = 0x4

abbrev pub mcontrol_store : ℕ
mcontrol_store = 0x2

abbrev pub mcontrol_load : ℕ
mcontrol_load = 0x1

abbrev pub mcontrol_action_debug_exception : ℕ
mcontrol_action_debug_exception = 0x0

abbrev pub mcontrol_action_debug_mode : ℕ
mcontrol_action_debug_mode = 0x1

abbrev pub mcontrol_match_equal : ℕ
mcontrol_match_equal = 0x0

abbrev pub mcontrol_match_napot : ℕ
mcontrol_match_napot = 0x1

abbrev pub mcontrol_match_ge : ℕ
mcontrol_match_ge = 0x2

abbrev pub mcontrol_match_lt : ℕ
mcontrol_match_lt = 0x3

abbrev pub mcontrol_match_mask_low : ℕ
mcontrol_match_mask_low = 0x4

abbrev pub mcontrol_match_mask_high : ℕ
mcontrol_match_mask_high = 0x5

abbrev pub mip_ssip : ℕ
mip_ssip = 0x2

abbrev pub mip_msip : ℕ
mip_msip = 0x8

abbrev pub mip_stip : ℕ
mip_stip = 0x20

abbrev pub mip_mtip : ℕ
mip_mtip = 0x80

abbrev pub mip_seip : ℕ
mip_seip = 0x200

abbrev pub prv_u : ℕ
prv_u = 0x0

abbrev pub prv_s : ℕ
prv_s = 0x1

abbrev pub prv_h : ℕ
prv_h = 0x2

abbrev pub prv_m : ℕ
prv_m = 0x3

abbrev pub vm_mbare : ℕ
vm_mbare = 0x0

abbrev pub vm_sv32 : ℕ
vm_sv32 = 0x8

abbrev pub vm_sv39 : ℕ
vm_sv39 = 0x9

abbrev pub vm_sv48 : ℕ
vm_sv48 = 0xa

abbrev pub irq_cop : ℕ
irq_cop = 0xc

abbrev pub default_rstvec : ℕ
default_rstvec = 0x1000

abbrev pub default_mtvec : ℕ
default_mtvec = 0x1010

abbrev pub ext_io_base : ℕ
ext_io_base = 0x40000000

abbrev pub dram_base : ℕ
dram_base = 0x80000000

abbrev pub pte_v : ℕ
pte_v = 0x1

abbrev pub pte_r : ℕ
pte_r = 0x2

abbrev pub pte_w : ℕ
pte_w = 0x4

abbrev pub pte_x : ℕ
pte_x = 0x8

abbrev pub pte_u : ℕ
pte_u = 0x10

abbrev pub pte_a : ℕ
pte_a = 0x40

abbrev pub pte_d : ℕ
pte_d = 0x80

abbrev pub pte_ppn_shift : ℕ
pte_ppn_shift = 0xa

abbrev pub cause_misaligned_fetch : ℕ
cause_misaligned_fetch = 0x0

abbrev pub cause_fault_fetch : ℕ
cause_fault_fetch = 0x1

abbrev pub cause_illegal_instruction : ℕ
cause_illegal_instruction = 0x2

abbrev pub cause_breakpoint : ℕ
cause_breakpoint = 0x3

abbrev pub cause_misaligned_load : ℕ
cause_misaligned_load = 0x4

abbrev pub cause_fault_load : ℕ
cause_fault_load = 0x5

abbrev pub cause_misaligned_store : ℕ
cause_misaligned_store = 0x6

abbrev pub cause_fault_store : ℕ
cause_fault_store = 0x7

abbrev pub cause_user_ecall : ℕ
cause_user_ecall = 0x8

abbrev pub cause_supervisor_ecall : ℕ
cause_supervisor_ecall = 0x9

abbrev pub cause_hypervisor_ecall : ℕ
cause_hypervisor_ecall = 0xa

abbrev pub cause_machine_ecall : ℕ
cause_machine_ecall = 0xb
