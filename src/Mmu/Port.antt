-- ===== src/Mmu/Port.antt =====
-- riscv/mmu.h: a hart's port into the memory of the target. An access changes the hart with its MMU,
-- the memory and the rest of the machine, `S`, and it may throw.
use spike.Base.{ℕ, Bool, false, ◌||◌, List, [], ◌∷◌}
use spike.Devices.{Device}
use spike.Mmu.{AccessType, Memory}
use spike.Processor.State.{Processor, Mmu, TriggerMatched}
use spike.Processor.Trap.{Trap}

-- What an access of a hart sees.
pub record Port (S : Type 0) : Type 0 where
  pub hart : Processor
  pub memory : Memory
  pub rest : S

-- How an access ends: with a result, a trap, a matched trigger, or the program's `abort`.
pub data Access (A : Type 0) : Type 0 where
  done : A → Access A
  traps : Trap → Access A
  triggers : TriggerMatched → Access A
  aborts : Access A

abbrev pub M : Type 0 → Type 0 → Type 0
M S A = Port S → Port S × Access A

module _ {S : Type 0} where
  -- What throws ends the chain.
  unfoldable pub and_then : {A B : Type 0} → (A → M S B) → Port S × Access A → Port S × Access B
  and_then f (port, done a) = f a port
  and_then f (port, traps t) = (port, traps t)
  and_then f (port, triggers t) = (port, triggers t)
  and_then f (port, aborts) = (port, aborts)

  infixl 5 ◌>>=◌ ◌>>◌
  abbrev pub ◌>>=◌ : {A B : Type 0} → M S A → (A → M S B) → M S B
  ◌>>=◌ m f port = and_then f (m port)

  abbrev pub ◌>>◌ : {A B : Type 0} → M S A → M S B → M S B
  m >> k = m >>= λ _. k

  abbrev pub pure : {A : Type 0} → A → M S A
  pure a port = (port, done a)

  abbrev pub throw : {A : Type 0} → Trap → M S A
  throw t port = (port, traps t)

  -- A part of the hart, and a change of it.
  abbrev pub asks : {A : Type 0} → (Processor → A) → M S A
  asks f port = (port, done (f port.hart))

  abbrev pub modify : (Processor → Processor) → M S (Unit {0})
  modify f port = (record port { hart = f port.hart }, done tt)

abbrev pub with_mmu : Processor → Mmu → Processor
with_mmu p m = record p { mmu = m }

-- `memtracer_t`
pub record Tracer (S : Type 0) : Type 0 where
  pub interested_in_range : S → ℕ → ℕ → AccessType → Bool
  pub trace : S → ℕ → ℕ → AccessType → S

-- `memtracer_list_t`
unfoldable pub interested_in_range : {S : Type 0} → List (Tracer S) → S → ℕ → ℕ → AccessType → Bool
interested_in_range [] s begin end type = false
interested_in_range (t ∷ ts) s begin end type =
    t.interested_in_range s begin end type || interested_in_range ts s begin end type

unfoldable pub trace : {S : Type 0} → List (Tracer S) → S → ℕ → ℕ → AccessType → S
trace [] s addr bytes type = s
trace (t ∷ ts) s addr bytes type = trace ts (t.trace s addr bytes type) addr bytes type

-- What stands beside the hart: the devices on the bus, the tracers of the MMU, and the host address
-- of `fetch_temp`, as an offset from the target's memory.
pub record Platform (S : Type 0) : Type 0 where
  pub devices : List (ℕ × Device (Port S))
  pub tracers : List (Tracer S)
  pub fetch_temp : ℕ
