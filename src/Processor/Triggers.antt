-- ===== src/Processor/Triggers.antt =====
-- riscv/processor.h: the choice of the trigger that an access sets off (`trigger_match`).
use native.Mathlib.Decide.{dec_lt}
use mathlib.Core.Option.{some-injective}
use mathlib.Core.Bool.{true≢false}
use spike.Base.{
  ℕ, zero, suc, ◌+◌, ◌-◌, ◌/◌, ◌^◌, ◌≤◌, ◌<◌, bit_and, Bool, true, false, ◌&&◌, ◌||◌, not, ltb, leb,
  ◌==◌, if◌then◌else◌, Option, none, some, truth, not64, shr, ◌≡◌, ◌≢◌, inl, inr, refl, sym, ◌∙◌,
  ap, arith, Bool-cases, none≢some,
}
use spike.Encoding.{
  prv_m, prv_h, prv_s, prv_u, mcontrol_match_equal, mcontrol_match_napot, mcontrol_match_ge,
  mcontrol_match_lt, mcontrol_match_mask_low, mcontrol_match_mask_high,
}
use spike.Processor.State.{
  Processor, Mcontrol, TriggerOperation, operation_execute, operation_store, operation_load,
  num_triggers,
}

-- `cto`: the number of low ones. A word has 64 digits, so 64 rounds are enough.
cto_rounds : ℕ → ℕ → ℕ
cto_rounds zero val = 0
cto_rounds (suc fuel) val =
    let rest = cto_rounds fuel (shr val 1) in if bit_and val 1 == 1 then suc rest else 0

unfoldable pub cto : ℕ → ℕ
unfolding cto_rounds
cto val = cto_rounds 64 val

-- A trigger is passed over when it is not for the operation or not for the privilege.
unfoldable pub for_operation : Mcontrol → TriggerOperation → Bool
for_operation c operation_execute = c.execute
for_operation c operation_store = c.store
for_operation c operation_load = c.load

unfoldable pub passed_over : Mcontrol → TriggerOperation → ℕ → Bool
unfolding for_operation
passed_over c operation prv =
    not (for_operation c operation)
    || (((prv == prv_m) && not c.m)
        || (((prv == prv_h) && not c.h)
            || (((prv == prv_s) && not c.s) || ((prv == prv_u) && not c.u))))

-- The value that is compared, and the comparison. The code shifts an `int` by `cto`, which is defined
-- for fewer than 31 ones.
unfoldable pub compared_value : Processor → Mcontrol → ℕ → ℕ → ℕ
compared_value p c address value =
    let chosen = if c.select then value else address in
    if p.xlen == 32 then bit_and chosen 0xffffffff else chosen

unfoldable pub agrees : ℕ → ℕ → ℕ → ℕ → Bool
unfolding cto
agrees xlen match value tdata2 =
    let napot = not64 (2 ^ cto tdata2 - 1) in
    let half = shr tdata2 (xlen / 2) in
    if match == mcontrol_match_equal
    then value == tdata2
    else if match == mcontrol_match_napot
    then bit_and value napot == bit_and tdata2 napot
    else if match == mcontrol_match_ge
    then leb tdata2 value
    else if match == mcontrol_match_lt
    then ltb value tdata2
    else if match == mcontrol_match_mask_low
    then bit_and value half == bit_and tdata2 half
    else if match == mcontrol_match_mask_high
    then bit_and (shr value (xlen / 2)) half == bit_and tdata2 half
    else true

-- Whether the tests of the loop's body let trigger `i` through.
unfoldable pub fires : Processor → TriggerOperation → ℕ → ℕ → ℕ → Bool
unfolding passed_over compared_value agrees
fires p operation address value i =
    let c = p.state.mcontrol i in
    not (passed_over c operation p.state.prv)
    && agrees p.xlen c.match (compared_value p c address value) (p.state.tdata2 i)

-- The loop, over `n` triggers from `i` on, with `chain_ok`, which it starts true.
match_from : Processor → TriggerOperation → ℕ → ℕ → ℕ → ℕ → Bool → Option ℕ
unfolding fires
match_from p operation address value zero i chain_ok = none
match_from p operation address value (suc n) i chain_ok =
    let rest = match_from p operation address value n (suc i) in
    let chain = (p.state.mcontrol i).chain in
    if not chain_ok
    then rest (chain_ok || not chain)
    else if fires p operation address value i
    then (if not chain then some i else rest true)
    else rest chain_ok

-- `processor_t::trigger_match`; `none` is the result -1.
unfoldable pub trigger_match : Processor → TriggerOperation → ℕ → ℕ → Option ℕ
unfolding match_from
trigger_match p operation address value =
    if truth p.state.dcsr.cause
    then none
    else match_from p operation address value num_triggers 0 true

-- Where a test tells two numbers apart, they differ.
past : (g : ℕ → Bool) (i j : ℕ) (a b : Bool) → i ≤ j → g i ≡ a → g j ≡ b → a ≢ b → suc i ≤ j
past g i j a b h e f ne = elim (dec_lt i j) [
  | yes less ↦ less
  | no more ↦ let same : i ≡ j = omega arith in absurd (ne (sym e ∙ ap g same ∙ f))
]

module _ (p : Processor) (operation : TriggerOperation) (address value : ℕ) where
  match_from_sound :
      (n i k : ℕ)
      → match_from p operation address value n i true ≡ some k
      → (fires p operation address value k ≡ true)
        × ((p.state.mcontrol k).chain ≡ false)
        × (k < i + n)
  unfolding match_from
  match_from_sound zero i k e = absurd (none≢some e)
  match_from_sound (suc n) i k e = elim (Bool-cases (fires p operation address value i)) [
    | inr quiet ↦
        let (f, c, b) = match_from_sound n (suc i) k (rw quiet at e) in (f, c, omega arith)
    | inl fired ↦ elim (Bool-cases (p.state.mcontrol i).chain) [
      | inl chained ↦
          let (f, c, b) = match_from_sound n (suc i) k (rw (fired, chained) at e) in
          (f, c, omega arith)
      | inr free ↦
          let same : i ≡ k = some-injective _ _ (rw (fired, free) at e) in
          rw (← same) (fired, free, omega arith)
    ]
  ]

  match_from_complete :
      (n i j : ℕ)
      → i ≤ j
      → j < i + n
      → fires p operation address value j ≡ true
      → (p.state.mcontrol j).chain ≡ false
      → (k : ℕ) × (match_from p operation address value n i true ≡ some k) × (k ≤ j)
  unfolding match_from
  match_from_complete zero i j h b f c = absurd (omega arith)
  match_from_complete (suc n) i j h b f c = elim (Bool-cases (fires p operation address value i)) [
    | inr quiet ↦ rw quiet (
        match_from_complete n (suc i) j
          (past (fires p operation address value) i j false true h quiet f
            (λ e. true≢false (sym e)))
          (omega arith) f c)
    | inl fired ↦ elim (Bool-cases (p.state.mcontrol i).chain) [
      | inl chained ↦
          rw (fired, chained)
            (match_from_complete n (suc i) j
              (past (λ k. (p.state.mcontrol k).chain) i j true false h chained c true≢false)
              (omega arith) f c)
      | inr free ↦ rw (fired, free) (i, refl, h)
    ]
  ]

  -- A trigger that is set off outside debug mode is one of the four, passes every test of the access
  -- and is not chained.
  pub trigger_match-fires :
      (k : ℕ)
      → trigger_match p operation address value ≡ some k
      → (k < num_triggers)
        × (fires p operation address value k ≡ true)
        × ((p.state.mcontrol k).chain ≡ false)
        × (truth p.state.dcsr.cause ≡ false)
  unfolding trigger_match
  trigger_match-fires k e = elim (Bool-cases (truth p.state.dcsr.cause)) [
    | inl debug ↦ absurd (none≢some (rw debug at e))
    | inr running ↦
        let (f, c, b) = match_from_sound num_triggers 0 k (rw running at e) in
        (omega arith, f, c, running)
  ]

  -- Outside debug mode, where trigger `j` passes every test and is not chained, a trigger is set off,
  -- and its number is at most `j`.
  pub trigger_match-first :
      (j : ℕ)
      → truth p.state.dcsr.cause ≡ false
      → j < num_triggers
      → fires p operation address value j ≡ true
      → (p.state.mcontrol j).chain ≡ false
      → (k : ℕ) × (trigger_match p operation address value ≡ some k) × (k ≤ j)
  unfolding trigger_match
  trigger_match-first j running b f c =
      rw running (match_from_complete num_triggers 0 j (omega arith) (omega arith) f c)
