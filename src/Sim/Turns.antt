-- ===== src/Sim/Turns.antt =====
-- The turns of `sim_t::step` in riscv/sim.cc: how far the harts and the timer come.
use mathlib.Core.Option.{some-injective}
use mathlib.Core.Path.{subst}
use spike.Base.{
  ℕ, zero, suc, ◌+◌, ◌-◌, ◌*◌, ◌%◌, ◌^◌, ◌<◌, ◌≤◌, min, ◌==◌, ltb, Bool, false, Option, none, some,
  none≢some, Option-cases, ◌⊎◌, ◌≡◌, ◌≢◌, refl, sym, ◌∙◌, inl, inr, arith, Bool-cases,
}
use spike.Devices.{increment}
use spike.Processor.State.{Processor}
use spike.Processor.Step.{Executed, step}
use spike.Sim.{run_hart, Board, Sim, interleave, yield_hart, next_proc, end_turn, turns, step_sim}

-- The time of the timer.
abbrev pub time : Board → ℕ
time b = b.rtc.regs 0

-- What a turn of the harts or the host keeps: the number of the processors and the time.
pub record Keeps (b c : Board) : Type 0 where
  pub count_lem : c.rtc.count ≡ b.rtc.count
  pub time_lem : time c ≡ time b

-- The counters are in their ranges, and the time is a word.
pub record InTurn (s : Sim) : Type 0 where
  pub steps_left : s.current_step < interleave
  pub proc_known : s.current_proc < s.board.rtc.count
  pub word : time s.board < 2 ^ 64

-- The instructions since the last tick.
abbrev pub place : Sim → ℕ
place s = s.current_proc * interleave + s.current_step

-- From `s` to `t` the harts run `n` instructions, with `ticks` ticks of the timer.
pub record Advances (s t : Sim) (n ticks : ℕ) : Type 0 where
  pub in_turn : InTurn t
  pub count_lem : t.board.rtc.count ≡ s.board.rtc.count
  pub instructions : ticks * (s.board.rtc.count * interleave) + place t ≡ place s + n
  pub ticked : time t.board ≡ (time s.board + ticks * 50) % 2 ^ 64

-- There is no result, because the turn of a hart on some board has failed.
abbrev pub Stopped : (ℕ → ℕ → Board → Option Board) → Option Sim → Type 0
Stopped run o = (i : ℕ) × (n : ℕ) × (b : Board) × (run i n b ≡ none) × (o ≡ none)

abbrev pub Fails : (ℕ → ℕ → Board → Option Board) → (Board → Board) → ℕ → Sim → Type 0
Fails run switch_to n s = Stopped run (step_sim run switch_to n s)

stays : (s : Sim) → InTurn s → Advances s s 0 0
stays s w = record {
  in_turn = w;
  count_lem = refl;
  instructions = omega arith;
  ticked = let h = w.word in omega arith;
}

distance :
    (i j r a b c m n total : ℕ)
    → i * r + b ≡ a + m
    → j * r + c ≡ b + n
    → m + n ≡ total
    → (i + j) * r + c ≡ a + total
distance i j r a b c m n total first second all = omega arith

together :
    (s t u : Sim) (m n total i j : ℕ)
    → m + n ≡ total
    → Advances s t m i
    → Advances t u n j
    → Advances s u total (i + j)
together s t u m n total i j all a b =
    let same = a.count_lem in
    let first = a.instructions in
    let second : j * (s.board.rtc.count * interleave) + place u ≡ place t + n =
      rw (sym same) b.instructions in
    let time1 = a.ticked in
    let time2 = b.ticked in
    record {
      in_turn = b.in_turn;
      count_lem = b.count_lem ∙ same;
      instructions = distance i j (s.board.rtc.count * interleave) _ _ _ m n total first second all;
      ticked = omega arith;
    }

-- A turn of the harts or the host in between.
with_board :
    (s t : Sim) (n ticks : ℕ) (b : Board)
    → Keeps t.board b
    → Advances s t n ticks
    → Advances s (record t { board = b }) n ticks
with_board s t n ticks b k a = record {
  in_turn = record {
    steps_left = a.in_turn.steps_left;
    proc_known = rw k.count_lem a.in_turn.proc_known;
    word = rw k.time_lem a.in_turn.word;
  };
  count_lem = k.count_lem ∙ a.count_lem;
  instructions = a.instructions;
  ticked = k.time_lem ∙ a.ticked;
}

goes_on :
    (s : Sim) (steps : ℕ)
    → InTurn s
    → s.current_step + steps < interleave
    → Advances s (record s { current_step = s.current_step + steps }) steps 0
goes_on s steps w h = record {
  in_turn = record { steps_left = h; proc_known = w.proc_known; word = w.word };
  count_lem = refl;
  instructions = omega arith;
  ticked = let k = w.word in omega arith;
}

-- The board may have changed on the way, but not in its time and its count.
next_proc-Advances :
    (s : Sim) (steps : ℕ) (b : Board)
    → InTurn s
    → Keeps s.board b
    → s.current_step + steps ≡ interleave
    → (ticks : ℕ) × Advances s (next_proc (record s { current_step = 0; board = b })) steps ticks
unfolding next_proc increment
next_proc-Advances s steps b w k h =
    let word = w.word in
    let known = w.proc_known in
    let same = k.count_lem in
    let now = k.time_lem in
    elim (Bool-cases (s.current_proc + 1 == b.rtc.count)) [
      | inl last ↦
          let end : s.current_proc + 1 ≡ b.rtc.count = ground arith in
          (
            1,
            rw (last, next_proc)
                record {
                  in_turn = record {
                    steps_left = omega arith;
                    proc_known = omega arith;
                    word = omega arith;
                  };
                  count_lem = same;
                  instructions = omega arith;
                  ticked = rw now refl;
                },
          )
      | inr more ↦
          let on : s.current_proc + 1 ≢ b.rtc.count = ground arith in
          (
            0,
            rw (more, next_proc)
                record {
                  in_turn = record {
                    steps_left = omega arith;
                    proc_known = omega arith;
                    word = omega arith;
                  };
                  count_lem = same;
                  instructions = omega arith;
                  ticked = omega arith;
                },
          )
    ]

-- The loop in riscv/execute.cc, where it comes back, keeps the time.
pub run_hart-Keeps :
    (execute : Processor → ℕ → Processor × Executed) (debug_interrupt : ℕ → Bool) (i n : ℕ)
    (b c : Board)
    → run_hart execute debug_interrupt i n b ≡ some c
    → Keeps b c
unfolding run_hart
run_hart-Keeps execute debug_interrupt i n b c e =
    elim (Option-cases (step execute (n * 2 + 2) n (b.rtc.procs i) (debug_interrupt i))) [
      | inl stopped ↦ absurd (none≢some (rw (stopped, run_hart) at e))
      | inr (q, ran) ↦
          subst (Keeps b) (some-injective _ _ (rw (ran, run_hart) at e))
            record { count_lem = refl; time_lem = refl }
    ]

module _ (run : ℕ → ℕ → Board → Option Board) (switch_to : Board → Board)
    (keeps : (i n : ℕ) (b c : Board) → run i n b ≡ some c → Keeps b c)
    (hosts : (b : Board) → Keeps b (switch_to b)) where
  -- A turn of at least one instruction that does not go past the interleaving.
  end_turn-Advances :
      (s : Sim) (steps : ℕ) (b : Board)
      → InTurn s
      → Keeps s.board b
      → s.current_step + steps ≤ interleave
      → (ticks : ℕ) × Advances s (end_turn run switch_to steps (record s { board = b })) steps ticks
  unfolding end_turn yield_hart
  end_turn-Advances s steps b w k h = elim (Bool-cases (s.current_step + steps == interleave)) [
    | inl full ↦
        let (ticks, a) =
          next_proc-Advances s steps (yield_hart s.current_proc b) w
            record { count_lem = k.count_lem; time_lem = k.time_lem } (ground arith) in
        (ticks, rw full (with_board s _ steps ticks _ (hosts _) a))
    | inr short ↦ (0, rw short (with_board s _ steps 0 b k (goes_on s steps w (ground arith))))
  ]

  turns-Advances :
      (fuel n i left : ℕ) (s : Sim)
      → InTurn s
      → i + left ≡ n
      → left ≤ fuel
      → ((t : Sim) × (ticks : ℕ) × (turns run switch_to fuel n i s ≡ some t)
          × Advances s t left ticks)
        ⊎ Stopped run (turns run switch_to fuel n i s)
  unfolding turns
  turns-Advances zero n i left s w h enough =
      let done : ltb i n ≡ false = ground arith in
      let nothing : left ≡ 0 = omega arith in inl (s, 0, rw done refl, rw nothing (stays s w))
  turns-Advances (suc fuel) n i left s w h enough = elim (Bool-cases (ltb i n)) [
    | inr done ↦
        let nothing : left ≡ 0 = ground arith in inl (s, 0, rw done refl, rw nothing (stays s w))
    | inl more ↦
        let steps = min (n - i) (interleave - s.current_step) in
        let some_left : i < n = ground arith in
        let room = w.steps_left in
        elim (Option-cases (run s.current_proc steps s.board)) [
          | inl fails ↦ inr (s.current_proc, steps, s.board, fails, rw (more, fails) refl)
          | inr (b, ran) ↦
              let k = keeps s.current_proc steps s.board b ran in
              let (ticks, a) = end_turn-Advances s steps b w k (omega arith) in
              elim (turns-Advances fuel n (i + steps) (left - steps)
                (end_turn run switch_to steps (record s { board = b })) a.in_turn (omega arith)
                (omega arith)) [
                  | inr (j, m, c, fails, e) ↦ inr (j, m, c, fails, rw (more, ran) e)
                  | inl (t, later, e, rest) ↦ inl (
                    t,
                    ticks + later,
                    rw (more, ran) e,
                    together s _ t steps (left - steps) left ticks later (omega arith) a rest,
                  )
                ]
        ]
  ]

  -- Where the counters are in their ranges and the time is a word, and neither the harts, where their
  -- turns come back, nor the host set the time or the number of the processors, `sim_t::step` of `n`
  -- comes to its end, or fails where the turn of a hart has failed. At its end the counters are in
  -- their ranges, the place in the round of turns, at 5000 instructions for each processor, has moved
  -- by `n`, and each whole round has moved the time by 50.
  pub step_sim-Advances :
      (n : ℕ) (s : Sim)
      → InTurn s
      → ((t : Sim) × (ticks : ℕ) × (step_sim run switch_to n s ≡ some t) × Advances s t n ticks)
        ⊎ Fails run switch_to n s
  unfolding step_sim
  step_sim-Advances n s w = turns-Advances n n 0 n s w (omega arith) (omega arith)
