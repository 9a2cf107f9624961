-- ===== src/Processor/Step/Progress.antt =====
-- `processor_t::step` in riscv/execute.cc: the loop comes to its end.
use spike.Base.{
  ℕ, zero, suc, min, ◌+◌, ◌-◌, ◌*◌, ◌≤◌, ◌<◌, Bool, true, false, ◌==◌, ◌≡◌, inl, inr, refl, arith,
  Bool-cases, if◌then◌else◌, Option, some,
}
use spike.Encoding.{dcsr_cause_none, dcsr_cause_debugint, dcsr_cause_halt}
use spike.Processor.State.{Processor}
use spike.Processor.Step.{
  Executed, is_stepped, Pass, again, end_step, try_block, catch_trap, round, end_round, rounds,
  step,
}
use spike.Processor.Trap.{Trap, take_trap, enter_debug_mode}
use spike.Processor.Step.Passes.{
  Prompt, by_trap_end, by_retiring, by_serializing, retired, end_step-Good, try_block-Moves,
}

either_some :
    {Good : Processor → Type 0} (b : Bool) (x y : Option Processor)
    → (q : Processor) × (x ≡ some q) × Good q
    → (q : Processor) × (y ≡ some q) × Good q
    → (q : Processor) × ((if b then x else y) ≡ some q) × Good q
either_some true x y h k = h
either_some false x y h k = k

module _ (execute : Processor → ℕ → Processor × Executed) (Good : Processor → Type 0)
    (prompt : Prompt execute Good) where
  -- The turns that a state can still wait for an instruction to be serialized.
  abbrev waiting : Processor → ℕ
  waiting p = if p.state.serialized then 0 else 1

  waiting-le-one : (p : Processor) → waiting p ≤ 1
  waiting-le-one p = ground arith

  waiting-one : (p : Processor) → p.state.serialized ≡ false → waiting p ≡ 1
  waiting-one p e = ground arith

  waiting-zero : (p : Processor) → p.state.serialized ≡ true → waiting p ≡ 0
  waiting-zero p e = ground arith

  abbrev trapped : Trap → Pass → Processor
  trapped t pass =
      let p = take_trap pass.hart t pass.pc in
      if is_stepped p.state.single_step then end_step p else p

  trapped-Good : (t : Trap) (pass : Pass) → Good pass.hart → Good (trapped t pass)
  trapped-Good t pass g =
      let k = prompt.trapping pass.hart t pass.pc g in
      elim (Bool-cases (is_stepped (take_trap pass.hart t pass.pc).state.single_step)) [
        | inl stepped ↦ rw stepped (end_step-Good execute Good prompt _ k)
        | inr on ↦ rw on k
      ]

  -- A turn of the outer loop comes nearer to the end.
  round_nearer :
      (n : ℕ) (p : Processor)
      → Good p
      → 0 < n
      → (q : Processor) × (left : ℕ) × (round execute n p ≡ again q left)
        × (left * 2 + waiting q < n * 2 + waiting p)
        × Good q
  unfolding round end_round catch_trap
  round_nearer n p g h =
      let pass = try_block execute n p in
      let (moves, k) = try_block-Moves execute Good prompt n p g h in
      elim moves [
        | by_trap_end t e ↦
            let z : pass.instret - pass.instret ≡ 0 = omega arith in
            let w = waiting-le-one (trapped t pass) in
            (
              retired (trapped t pass) pass.instret,
              pass.instret - pass.instret,
              rw (e, end_round, round) refl,
              omega arith,
              prompt.counting _ _ (trapped-Good t pass k),
            )
        | by_retiring e lt ↦
            let w = waiting-le-one pass.hart in
            (
              retired pass.hart pass.instret,
              n - pass.instret,
              rw (e, end_round, round) refl,
              omega arith,
              prompt.counting _ _ k,
            )
        | by_serializing e z was now ↦
            let a = waiting-one p was in
            let b = waiting-zero (retired pass.hart pass.instret) now in
            (
              retired pass.hart pass.instret,
              n - pass.instret,
              rw (e, end_round, round) refl,
              omega arith,
              prompt.counting _ _ k,
            )
      ]

  -- With enough fuel the loop comes to its end, and it does not fail.
  rounds-some :
      (fuel n : ℕ) (p : Processor)
      → Good p
      → n * 2 + waiting p < fuel
      → (q : Processor) × (rounds execute fuel n p ≡ some q) × Good q
  unfolding rounds
  rounds-some zero n p g h = absurd (omega arith)
  rounds-some (suc fuel) n p g h = elim (Bool-cases (n == 0)) [
    | inl z ↦ rw (z, rounds) (p, refl, g)
    | inr more ↦
        let (q, left, e, lt, k) = round_nearer n p g (ground arith) in
        let (r, f, k') = rounds-some fuel left q k (omega arith) in rw (more, e, rounds) (r, f, k')
  ]

  -- Where the instructions lead a good hart, at its own pc, to a trap, to an even pc or to a mark for a
  -- serialization that is due, and the hart is good then as after a trap, an entry of debug mode and
  -- the loop's own writes, the loop of a good hart for `n` instructions comes to its end on fuel for
  -- more than 2n + 1 turns, with or without a request of the debugger, and leaves a good hart.
  pub step_some :
      (fuel n : ℕ) (p : Processor) (debug_interrupt : Bool)
      → Good p
      → n * 2 + 1 < fuel
      → (q : Processor) × (step execute fuel n p debug_interrupt ≡ some q) × Good q
  unfolding step
  step_some fuel n p debug_interrupt g h =
      let run = λ (m : ℕ) (q : Processor) (k : Good q) (le : m ≤ n).
        let w = waiting-le-one q in rounds-some fuel m q k (omega arith) in
      let le : n ≤ n = omega arith in
      either_some (p.state.dcsr.cause == dcsr_cause_none) _ _
        (either_some debug_interrupt _ _
          (run n (enter_debug_mode p dcsr_cause_debugint) (prompt.debugging p _ g) le)
          (either_some p.state.dcsr.halt _ _
            (run n (enter_debug_mode p dcsr_cause_halt) (prompt.debugging p _ g) le)
            (run n p g le)))
        (run (min n 11) p g (omega arith))
