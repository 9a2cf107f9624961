-- ===== src/Insns/Atomic.antt =====
-- The atomic instructions under riscv/insns.
use spike.Base.{ℕ, Bool, true, bit_and, bit_or, bit_xor, ltb, ◌==◌, if◌then◌else◌, add64, signed_lt}
use spike.Decode.{rd, sext32, zext32}
use spike.Insns.{reg1, reg2}
use spike.Insns.Memory.{MemoryBody, needs_extension, needs_rv64, write_xreg, load_x}
use spike.Mmu.Data.{amo_value, store_value}
use spike.Mmu.Port.{◌>>=◌, ◌>>◌, pure, asks, modify, Platform}
use spike.Processor.State.{Processor}

-- The letter `A`.
abbrev pub letter_a : ℕ
letter_a = 0

-- `std::max` and `std::min` under an order.
abbrev greater : (ℕ → ℕ → Bool) → ℕ → ℕ → ℕ
greater less a b = if less a b then b else a

abbrev lesser : (ℕ → ℕ → Bool) → ℕ → ℕ → ℕ
lesser less a b = if less b a then b else a

abbrev set_reservation : ℕ → Processor → Processor
set_reservation addr p = record p { state = record p.state { load_reservation = addr } }

module _ {S : Type 0} (platform : Platform S) where
  -- `amo_uint32` and `amo_uint64` at `RS1`, with what the function does to the old value and `RS2`.
  unfoldable pub amo_w : (ℕ → ℕ → ℕ) → MemoryBody S
  amo_w op f = do
    needs_extension letter_a
    a ← asks (reg1 f)
    b ← asks (reg2 f)
    old ← amo_value platform 4 a (λ lhs. op lhs b)
    write_xreg (rd f.insn) (sext32 old)
    pure f.npc

  unfoldable pub amo_d : (ℕ → ℕ → ℕ) → MemoryBody S
  amo_d op f = do
    needs_extension letter_a
    needs_rv64 f
    a ← asks (reg1 f)
    b ← asks (reg2 f)
    old ← amo_value platform 8 a (λ lhs. op lhs b)
    write_xreg (rd f.insn) old
    pure f.npc

  -- The store of `sc`, if the reservation is for its address.
  unfoldable pub store_conditional : ℕ → MemoryBody S
  store_conditional size f = do
    a ← asks (reg1 f)
    held ← asks (λ p. p.state.load_reservation)
    if a == held
        then (do
          v ← asks (reg2 f)
          store_value platform size a v
          write_xreg (rd f.insn) 0
          pure f.npc)
        else (do write_xreg (rd f.insn) 1; pure f.npc)

  -- The load of `lr`, which reserves its address first.
  unfoldable pub load_reserved : ℕ → MemoryBody S
  load_reserved size f = do
    a ← asks (reg1 f)
    modify (set_reservation a)
    load_x platform true size (reg1 f) (rd f.insn) f

  unfoldable pub lr_w : MemoryBody S
  lr_w f = do needs_extension letter_a; load_reserved 4 f

  unfoldable pub lr_d : MemoryBody S
  lr_d f = do needs_extension letter_a; needs_rv64 f; load_reserved 8 f

  unfoldable pub sc_w : MemoryBody S
  sc_w f = do needs_extension letter_a; store_conditional 4 f

  unfoldable pub sc_d : MemoryBody S
  sc_d f = do needs_extension letter_a; needs_rv64 f; store_conditional 8 f

  unfoldable pub amoadd_w : MemoryBody S
  amoadd_w f = amo_w add64 f

  unfoldable pub amoadd_d : MemoryBody S
  amoadd_d f = amo_d add64 f

  unfoldable pub amoand_w : MemoryBody S
  amoand_w f = amo_w bit_and f

  unfoldable pub amoand_d : MemoryBody S
  amoand_d f = amo_d bit_and f

  unfoldable pub amoor_w : MemoryBody S
  amoor_w f = amo_w bit_or f

  unfoldable pub amoor_d : MemoryBody S
  amoor_d f = amo_d bit_or f

  unfoldable pub amoxor_w : MemoryBody S
  amoxor_w f = amo_w bit_xor f

  unfoldable pub amoxor_d : MemoryBody S
  amoxor_d f = amo_d bit_xor f

  unfoldable pub amoswap_w : MemoryBody S
  amoswap_w f = amo_w (λ lhs b. b) f

  unfoldable pub amoswap_d : MemoryBody S
  amoswap_d f = amo_d (λ lhs b. b) f

  unfoldable pub amomax_w : MemoryBody S
  amomax_w f = amo_w (λ lhs b. greater signed_lt (sext32 lhs) (sext32 b)) f

  unfoldable pub amomax_d : MemoryBody S
  amomax_d f = amo_d (greater signed_lt) f

  unfoldable pub amomin_w : MemoryBody S
  amomin_w f = amo_w (λ lhs b. lesser signed_lt (sext32 lhs) (sext32 b)) f

  unfoldable pub amomin_d : MemoryBody S
  amomin_d f = amo_d (lesser signed_lt) f

  unfoldable pub amomaxu_w : MemoryBody S
  amomaxu_w f = amo_w (λ lhs b. greater ltb lhs (zext32 b)) f

  unfoldable pub amomaxu_d : MemoryBody S
  amomaxu_d f = amo_d (greater ltb) f

  unfoldable pub amominu_w : MemoryBody S
  amominu_w f = amo_w (λ lhs b. lesser ltb lhs (zext32 b)) f

  unfoldable pub amominu_d : MemoryBody S
  amominu_d f = amo_d (lesser ltb) f
