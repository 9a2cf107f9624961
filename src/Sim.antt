-- ===== src/Sim.antt =====
-- riscv/sim.cc: `sim_t::step`, which gives the harts their turns. The harts and the host see the
-- devices and the target's memory; the counters of the turns are private to the simulator.
pub mod Turns
use spike.Base.{
  ℕ, zero, suc, ◌+◌, ◌-◌, ◌*◌, ◌/◌, min, ◌==◌, ltb, Bool, true, false, if◌then◌else◌, Option, none,
  some,
}
use spike.Devices.{Rtc, increment}
use spike.Processor.State.{Processor, yield_load_reservation}
use spike.Processor.Step.{Executed, step}

-- What the harts and the host share: the timer with the processors, and the target's memory.
pub record Board : Type 0 where
  pub rtc : Rtc
  pub memory : ℕ → ℕ

-- The fields of `sim_t` that `step` uses.
pub record Sim : Type 0 where
  pub board : Board
  pub current_step : ℕ
  pub current_proc : ℕ

abbrev pub interleave : ℕ
interleave = 5000

abbrev pub insns_per_rtc_tick : ℕ
insns_per_rtc_tick = 100

-- `yield_load_reservation` of the processor with a number.
unfoldable pub yield_hart : ℕ → Board → Board
yield_hart i b = record b {
  rtc = record b.rtc {
    procs = λ j. if j == i then yield_load_reservation (b.rtc.procs i) else b.rtc.procs j;
  };
}

-- To the next processor; after the last one to the first, with a tick of the timer.
unfoldable pub next_proc : Sim → Sim
next_proc s =
    if s.current_proc + 1 == s.board.rtc.count
    then record s {
      current_proc = 0;
      board = record s.board { rtc = increment s.board.rtc (interleave / insns_per_rtc_tick) };
    }
    else record s { current_proc = s.current_proc + 1 }

-- `step(n)` of the processor `i`, for instructions that leave the memory and the devices alone. The
-- fuel is enough for `n` instructions.
unfoldable pub run_hart :
    (Processor → ℕ → Processor × Executed) → (ℕ → Bool) → ℕ → ℕ → Board → Option Board
run_hart execute debug_interrupt i n b =
    elim (step execute (n * 2 + 2) n (b.rtc.procs i) (debug_interrupt i)) [
      | none ↦ none
      | some q ↦
          some
            (record b { rtc = record b.rtc { procs = λ j. if j == i then q else b.rtc.procs j } })
    ]

-- `run i n` is `step(n)` of the processor `i`; `none` is a failed assertion or an abort.
-- `switch_to` is the turn of the host, until it switches back.
module _ (run : ℕ → ℕ → Board → Option Board) (switch_to : Board → Board) where
  -- The rest of a turn of the loop, after the processor has run `steps` instructions.
  unfoldable pub end_turn : ℕ → Sim → Sim
  unfolding yield_hart next_proc
  end_turn steps s =
      if s.current_step + steps == interleave
      then (let moved =
            next_proc (record s { current_step = 0; board = yield_hart s.current_proc s.board }) in
          record moved { board = switch_to moved.board })
      else record s { current_step = s.current_step + steps }

  -- The loop from `i` on, with fuel for its turns.
  unfoldable pub turns : ℕ → ℕ → ℕ → Sim → Option Sim
  unfolding end_turn
  turns zero n i s = if ltb i n then none else some s
  turns (suc fuel) n i s =
      let steps = min (n - i) (interleave - s.current_step) in
      if ltb i n
      then elim (run s.current_proc steps s.board) [
        | none ↦ none
        | some b ↦ turns fuel n (i + steps) (end_turn steps (record s { board = b }))
      ]
      else some s

  -- `sim_t::step`: no more turns than instructions.
  unfoldable pub step_sim : ℕ → Sim → Option Sim
  unfolding turns
  step_sim n s = turns n n 0 s
