-- ===== src/Devices/Timer.antt =====
-- The timer interrupt of riscv/rtc.cc.
use native.Mathlib.Decide.{dec_lt}
use spike.Base.{
  ℕ, zero, suc, ◌+◌, ◌^◌, ◌≤◌, ◌<◌, bit_and, Bool, true, false, ◌≡◌, ◌≢◌, ◌↔◌, inl, inr, refl, ◌∙◌,
  arith, Bool-cases, leb, ◌==◌, if◌then◌else◌, not64, bit, bit-and, bit-or, bit-le-one, bit-high,
  bit-pow_self, bit-pow_ne, not64-bit, from_bool, add64,
}
use spike.Encoding.{mip_mtip}
use spike.Processor.State.{Processor}
use spike.Devices.{Rtc, set_mtip, update_timers, increment}

set_mtip-bit : (p : Processor) (due : Bool) → bit (set_mtip p due).state.mip 7 ≡ from_bool due
unfolding set_mtip
set_mtip-bit p true = omega (
  arith,
  bit-or (bit_and p.state.mip (not64 mip_mtip)) mip_mtip 7,
  bit-pow_self 7,
  bit-le-one (bit_and p.state.mip (not64 mip_mtip)) 7,
)
set_mtip-bit p false = omega (
  arith,
  bit-and p.state.mip (not64 mip_mtip) 7,
  bit-pow_self 7,
  not64-bit mip_mtip 7 (omega arith) (omega arith),
)

cleared : (v i : ℕ) → v < 2 ^ 64 → i ≢ 7 → bit (bit_and v (not64 mip_mtip)) i ≡ bit v i
cleared v i word ne = elim (dec_lt i 64) [
  | yes small ↦ omega (
    arith,
    bit-and v (not64 mip_mtip) i,
    bit-pow_ne 7 i ne,
    not64-bit mip_mtip i (omega arith) small,
    bit-le-one v i,
  )
  | no large ↦ omega (arith, bit-and v (not64 mip_mtip) i, bit-high 64 v i word (omega arith))
]

set_mtip-other :
    (p : Processor) (due : Bool) (i : ℕ)
    → p.state.mip < 2 ^ 64
    → i ≢ 7
    → bit (set_mtip p due).state.mip i ≡ bit p.state.mip i
unfolding set_mtip
set_mtip-other p true i word ne = omega (
  arith,
  bit-or (bit_and p.state.mip (not64 mip_mtip)) mip_mtip i,
  bit-pow_ne 7 i ne,
  cleared p.state.mip i word ne,
)
set_mtip-other p false i word ne = cleared p.state.mip i word ne

-- The loop leaves the processors before its start, and treats each of the others once.
update_timers_before :
    (n i : ℕ) (regs : ℕ → ℕ) (procs : ℕ → Processor) (j : ℕ)
    → j < i
    → update_timers n i regs procs j ≡ procs j
unfolding update_timers
update_timers_before zero i regs procs j h = refl
update_timers_before (suc n) i regs procs j h =
    let e : (j == i) ≡ false = ground arith in
    update_timers_before n (suc i) regs _ j (omega arith) ∙ rw e refl

update_timers_lem :
    (n i : ℕ) (regs : ℕ → ℕ) (procs : ℕ → Processor) (j : ℕ)
    → i ≤ j
    → j < i + n
    → update_timers n i regs procs j ≡ set_mtip (procs j) (leb (regs (1 + j)) (regs 0))
unfolding update_timers
update_timers_lem zero i regs procs j h k = absurd (omega arith)
update_timers_lem (suc n) i regs procs j h k = elim (Bool-cases (j == i)) [
  | inl here ↦
      let e : j ≡ i = ground arith in
      update_timers_before n (suc i) regs _ j (omega arith) ∙ rw (here, e) refl
  | inr later ↦ update_timers_lem n (suc i) regs _ j (ground arith) (omega arith) ∙ rw later refl
]

-- After `increment`, and so after every write of a register, the timer interrupt of each processor is
-- pending exactly when the time has reached its comparand; every other pending bit is as it was.
pub increment_lem :
    (rtc : Rtc) (inc j i : ℕ)
    → j < rtc.count
    → (rtc.procs j).state.mip < 2 ^ 64
    → i ≢ 7
    → let after = increment rtc inc in
      (after.regs 0 ≡ add64 (rtc.regs 0) inc)
      × ((bit (after.procs j).state.mip 7 ≡ 1) ↔ (rtc.regs (1 + j) ≤ after.regs 0))
      × (bit (after.procs j).state.mip i ≡ bit (rtc.procs j).state.mip i)
unfolding increment
increment_lem rtc inc j i h word ne =
    let regs : ℕ → ℕ = λ k. if k == 0 then add64 (rtc.regs 0) inc else rtc.regs k in
    let due = leb (regs (1 + j)) (regs 0) in
    let at = update_timers_lem rtc.count 0 regs rtc.procs j (omega arith) (omega arith) in
    let own : (1 + j == 0) ≡ false = ground arith in
    (
      refl,
      rw at (rw (set_mtip-bit (rtc.procs j) due) (rw own (ground arith))),
      rw at (set_mtip-other (rtc.procs j) due i word ne),
    )
