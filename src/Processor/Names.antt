-- ===== src/Processor/Names.antt =====
-- riscv/encoding.h: the control registers that `set_csr` and `get_csr` have a case for, and their
-- numbers.
use spike.Base.{ℕ, Option, none, some, List, [], ◌∷◌, ◌==◌, if◌then◌else◌}

pub data CsrName : Type 0 where
  fflags : CsrName
  frm : CsrName
  fcsr : CsrName
  mstatus : CsrName
  mip : CsrName
  mie : CsrName
  mideleg : CsrName
  medeleg : CsrName
  minstret : CsrName
  mcycle : CsrName
  minstreth : CsrName
  mcycleh : CsrName
  mucounteren : CsrName
  mscounteren : CsrName
  sstatus : CsrName
  sip : CsrName
  sie : CsrName
  sptbr : CsrName
  sepc : CsrName
  stvec : CsrName
  sscratch : CsrName
  scause : CsrName
  sbadaddr : CsrName
  mepc : CsrName
  mtvec : CsrName
  mscratch : CsrName
  mcause : CsrName
  mbadaddr : CsrName
  misa : CsrName
  tselect : CsrName
  tdata1 : CsrName
  tdata2 : CsrName
  tdata3 : CsrName
  dcsr : CsrName
  dpc : CsrName
  dscratch : CsrName
  instret : CsrName
  cycle : CsrName
  marchid : CsrName
  mimpid : CsrName
  mvendorid : CsrName
  mhartid : CsrName

abbrev pub csr_numbers : List (ℕ × CsrName)
csr_numbers =
    (0x1, fflags)
    ∷ (0x2, frm)
    ∷ (0x3, fcsr)
    ∷ (0x300, mstatus)
    ∷ (0x344, mip)
    ∷ (0x304, mie)
    ∷ (0x303, mideleg)
    ∷ (0x302, medeleg)
    ∷ (0xb02, minstret)
    ∷ (0xb00, mcycle)
    ∷ (0xb82, minstreth)
    ∷ (0xb80, mcycleh)
    ∷ (0x320, mucounteren)
    ∷ (0x321, mscounteren)
    ∷ (0x100, sstatus)
    ∷ (0x144, sip)
    ∷ (0x104, sie)
    ∷ (0x180, sptbr)
    ∷ (0x141, sepc)
    ∷ (0x105, stvec)
    ∷ (0x140, sscratch)
    ∷ (0x142, scause)
    ∷ (0x143, sbadaddr)
    ∷ (0x341, mepc)
    ∷ (0x305, mtvec)
    ∷ (0x340, mscratch)
    ∷ (0x342, mcause)
    ∷ (0x343, mbadaddr)
    ∷ (0x301, misa)
    ∷ (0x7a0, tselect)
    ∷ (0x7a1, tdata1)
    ∷ (0x7a2, tdata2)
    ∷ (0x7a3, tdata3)
    ∷ (0x7b0, dcsr)
    ∷ (0x7b1, dpc)
    ∷ (0x7b2, dscratch)
    ∷ (0xc02, instret)
    ∷ (0xc00, cycle)
    ∷ (0xf12, marchid)
    ∷ (0xf13, mimpid)
    ∷ (0xf11, mvendorid)
    ∷ (0xf14, mhartid)
    ∷ []

lookup_csr : ℕ → List (ℕ × CsrName) → Option CsrName
lookup_csr which [] = none
lookup_csr which ((number, name) ∷ rest) =
    if which == number then some name else lookup_csr which rest

-- The case of the `switch` that a number selects.
unfoldable pub csr_name : ℕ → Option CsrName
unfolding lookup_csr
csr_name which = lookup_csr which csr_numbers
