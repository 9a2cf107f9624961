-- ===== src/Processor/Step/Passes.antt =====
-- One pass of `processor_t::step` in riscv/execute.cc: how its two inner loops end.
use spike.Base.{
  ℕ, zero, suc, ◌≤◌, ◌<◌, true, false, not, ◌&&◌, ◌==◌, ◌≡◌, inl, inr, refl, ◌∙◌, sym, arith,
  Bool-cases, Option-cases, add64,
}
use spike.Encoding.{dcsr_cause_step}
use spike.Insns.Csr.{serialize_before}
use spike.Processor.State.{Processor, SingleStep, step_none, step_stepped}
use spike.Processor.Step.{
  Executed, goes, traps, invalid_pc, is_stepped, is_stepping, slow_path, Pass, Ending, completed,
  by_trap, end_step, slow_loop, fast_loop, try_block, begin_step, set_single_step,
}
use spike.Processor.Trap.{Trap, take_interrupt, take_trap, enter_debug_mode}
use spike.Processor.Trap.Return.{serialize_after}

-- What is asked of the end of an instruction: no trigger matches, and a pc with the low bit set is the
-- mark of an instruction that is to be serialized after, or before where it is not yet.
pub data Ends (p : Processor) (e : Executed) : Type 0 where
  ends_trap : (t : Trap) → e ≡ traps t → Ends p e
  ends_valid : (npc : ℕ) → invalid_pc npc ≡ false → e ≡ goes npc → Ends p e
  ends_after : e ≡ goes serialize_after → Ends p e
  ends_before : p.state.serialized ≡ false → e ≡ goes serialize_before → Ends p e

abbrev pub at_pc : Processor → ℕ → Processor
at_pc p npc = record p { state = record p.state { pc = npc } }

abbrev pub retired : Processor → ℕ → Processor
retired p instret = record p {
  state = record p.state { minstret = add64 p.state.minstret instret };
}

abbrev pub set_serialized : Processor → Processor
set_serialized p = record p { state = record p.state { serialized = true } }

-- How an instruction ends that leads from one good hart to another.
pub data Leads (Good : Processor → Type 0) (p : Processor) (r : Processor × Executed) : Type 0 where
  leads_trap : (t : Trap) → r.1 ≡ traps t → Good r.0 → Leads Good p r
  leads_valid :
      (npc : ℕ) → invalid_pc npc ≡ false → r.1 ≡ goes npc → Good (at_pc r.0 npc) → Leads Good p r
  leads_after : r.1 ≡ goes serialize_after → Good r.0 → Leads Good p r
  leads_before :
      p.state.serialized ≡ false → r.1 ≡ goes serialize_before → Good r.0 → Leads Good p r

-- The instructions lead from good harts to good harts, and so does what else the loop does to a hart.
pub record Prompt (execute : Processor → ℕ → Processor × Executed) (Good : Processor → Type 0)
    : Type 0 where
  pub leads : (p : Processor) (pc : ℕ) → Good p → pc ≡ p.state.pc → Leads Good p (execute p pc)
  pub trapping : (p : Processor) (t : Trap) (epc : ℕ) → Good p → Good (take_trap p t epc)
  pub debugging : (p : Processor) (cause : ℕ) → Good p → Good (enter_debug_mode p cause)
  pub stepping : (p : Processor) (s : SingleStep) → Good p → Good (set_single_step p s)
  pub counting : (p : Processor) (n : ℕ) → Good p → Good (retired p n)
  pub serializing : (p : Processor) → Good p → Good (set_serialized p)

-- A pass that the loop can go on from.
pub data Fine (e : Ending) : Type 0 where
  fine_completed : e ≡ completed → Fine e
  fine_trap : (t : Trap) → e ≡ by_trap t → Fine e

-- What a pass from a state with `instret` instructions retired comes to.
abbrev pub Runs : (Processor → Type 0) → ℕ → Pass → Type 0
Runs Good instret pass = Fine pass.ending × (instret ≤ pass.instret) × Good pass.hart

-- The first instruction retires, or is one that waits to be serialized.
pub data Moves (p : Processor) (pass : Pass) : Type 0 where
  by_trap_end : (t : Trap) → pass.ending ≡ by_trap t → Moves p pass
  by_retiring : pass.ending ≡ completed → 0 < pass.instret → Moves p pass
  by_serializing :
      pass.ending ≡ completed
      → pass.instret ≡ 0
      → p.state.serialized ≡ false
      → pass.hart.state.serialized ≡ true
      → Moves p pass

module _ (execute : Processor → ℕ → Processor × Executed) (Good : Processor → Type 0)
    (prompt : Prompt execute Good) where
  fast_loop-Runs :
      (left instret : ℕ) (p : Processor)
      → Good p
      → Runs Good instret (fast_loop execute left instret p p.state.pc)
  unfolding fast_loop
  fast_loop-Runs zero instret p g = (fine_completed refl, omega arith, g)
  fast_loop-Runs (suc left) instret p g = elim (prompt.leads p p.state.pc g refl) [
    | leads_trap t e k ↦ rw (e, fast_loop) (fine_trap t refl, omega arith, k)
    | leads_valid npc valid e k ↦
        let (fine, le, k') =
          fast_loop-Runs left (suc instret) (at_pc (execute p p.state.pc).0 npc) k in
        rw (e, valid, fast_loop) (fine, omega arith, k')
    | leads_after e k ↦ rw (e, fast_loop) (fine_completed refl, omega arith, k)
    | leads_before s e k ↦
        rw (e, fast_loop) (fine_completed refl, omega arith, prompt.serializing _ k)
  ]

  begin_step-Good : (p : Processor) → Good p → Good (begin_step p)
  unfolding begin_step
  begin_step-Good p g = elim (Bool-cases (is_stepping p.state.single_step)) [
    | inl steps ↦ rw steps (prompt.stepping p step_stepped g)
    | inr runs ↦ rw runs g
  ]

  begin_step-same :
      (p : Processor)
      → ((begin_step p).state.serialized ≡ p.state.serialized)
        × (p.state.pc ≡ (begin_step p).state.pc)
  unfolding begin_step
  begin_step-same p = elim (Bool-cases (is_stepping p.state.single_step)) [
    | inl steps ↦ rw steps (refl, refl)
    | inr runs ↦ rw runs (refl, refl)
  ]

  pub end_step-Good : (p : Processor) → Good p → Good (end_step p)
  end_step-Good p g = prompt.debugging _ dcsr_cause_step (prompt.stepping p step_none g)

  slow_loop-Runs :
      (left instret : ℕ) (p : Processor)
      → Good p
      → Runs Good instret (slow_loop execute left instret p p.state.pc)
  unfolding slow_loop
  slow_loop-Runs zero instret p g = (fine_completed refl, omega arith, g)
  slow_loop-Runs (suc left) instret p g =
      let q = begin_step p in
      let r = (execute q p.state.pc).0 in
      elim (prompt.leads q p.state.pc (begin_step-Good p g) (begin_step-same p).1) [
        | leads_trap t e k ↦ rw (e, slow_loop) (fine_trap t refl, omega arith, k)
        | leads_valid npc valid e k ↦
            elim (Bool-cases (is_stepped r.state.single_step && not (npc == serialize_before))) [
              | inl stepped ↦
                  rw (e, valid, stepped, slow_loop)
                    (fine_completed refl, omega arith, end_step-Good _ k)
              | inr on ↦
                  let (fine, le, k') = slow_loop-Runs left (suc instret) (at_pc r npc) k in
                  rw (e, valid, on, slow_loop) (fine, omega arith, k')
            ]
        | leads_after e k ↦ rw (e, slow_loop) (fine_completed refl, omega arith, k)
        | leads_before s e k ↦
            rw (e, slow_loop) (fine_completed refl, omega arith, prompt.serializing _ k)
      ]

  -- A pass that has retired an instruction.
  retired-Moves : (p : Processor) (pass : Pass) → Runs Good 1 pass → Moves p pass × Good pass.hart
  retired-Moves p pass (fine_completed e, le, g) = (by_retiring e le, g)
  retired-Moves p pass (fine_trap t e, le, g) = (by_trap_end t e, g)

  fast_loop-Moves :
      (left : ℕ) (p : Processor)
      → Good p
      → let pass = fast_loop execute (suc left) 0 p p.state.pc in Moves p pass × Good pass.hart
  unfolding fast_loop
  fast_loop-Moves left p g = elim (prompt.leads p p.state.pc g refl) [
    | leads_trap t e k ↦ rw (e, fast_loop) (by_trap_end t refl, k)
    | leads_valid npc valid e k ↦
        rw (e, valid, fast_loop)
          (retired-Moves p _ (fast_loop-Runs left 1 (at_pc (execute p p.state.pc).0 npc) k))
    | leads_after e k ↦ rw (e, fast_loop) (by_retiring refl (omega arith), k)
    | leads_before s e k ↦
        rw (e, fast_loop) (by_serializing refl refl s refl, prompt.serializing _ k)
  ]

  slow_loop-Moves :
      (left : ℕ) (p : Processor)
      → Good p
      → let pass = slow_loop execute (suc left) 0 p p.state.pc in Moves p pass × Good pass.hart
  unfolding slow_loop
  slow_loop-Moves left p g =
      let q = begin_step p in
      let r = (execute q p.state.pc).0 in
      elim (prompt.leads q p.state.pc (begin_step-Good p g) (begin_step-same p).1) [
        | leads_trap t e k ↦ rw (e, slow_loop) (by_trap_end t refl, k)
        | leads_valid npc valid e k ↦
            elim (Bool-cases (is_stepped r.state.single_step && not (npc == serialize_before))) [
              | inl stepped ↦
                  rw (e, valid, stepped, slow_loop)
                    (by_retiring refl (omega arith), end_step-Good _ k)
              | inr on ↦
                  rw (e, valid, on, slow_loop)
                    (retired-Moves p _ (slow_loop-Runs left 1 (at_pc r npc) k))
            ]
        | leads_after e k ↦ rw (e, slow_loop) (by_retiring refl (omega arith), k)
        | leads_before s e k ↦
            rw (e, slow_loop)
              (
                by_serializing refl refl (sym (begin_step-same p).0 ∙ s) refl,
                prompt.serializing _ k,
              )
      ]

  pub try_block-Moves :
      (n : ℕ) (p : Processor)
      → Good p
      → 0 < n
      → let pass = try_block execute n p in Moves p pass × Good pass.hart
  unfolding try_block
  try_block-Moves zero p g h = absurd (omega arith)
  try_block-Moves (suc left) p g h = elim (Option-cases (take_interrupt p)) [
    | inr (t, e) ↦ rw (e, try_block) (by_trap_end t refl, g)
    | inl e ↦ elim (Bool-cases (slow_path p)) [
      | inl slow ↦ rw (e, slow, try_block) (slow_loop-Moves left p g)
      | inr fast ↦ rw (e, fast, try_block) (fast_loop-Moves left p g)
    ]
  ]
