-- ===== src/Processor/Step.antt =====
-- riscv/execute.cc: the loop that fetches and executes. The host's copy of decoded instructions, the
-- commit log, the histogram and the disassembly do not show here: an instruction is `execute`, which
-- fetches at a pc and calls its function, as `load_insn` with `execute_insn` and an entry of the
-- instruction cache both do. Nor does the refill of that cache ahead of the pc, after an instruction
-- that is not in it: a trap that this fetch would throw behind the last of `n` instructions is thrown
-- by the next call here.
pub mod Passes
pub mod Progress
use spike.Base.{
  ℕ, zero, suc, ◌+◌, ◌-◌, min, Bool, true, false, not, ◌&&◌, ◌||◌, ◌==◌, if◌then◌else◌, Option,
  none, some, truth, bit_and, add64,
}
use spike.Encoding.{
  cause_breakpoint, mcontrol_action_debug_mode, mcontrol_action_debug_exception, dcsr_cause_none,
  dcsr_cause_hwbp, dcsr_cause_debugint, dcsr_cause_step, dcsr_cause_halt,
}
use spike.Insns.Csr.{serialize_before}
use spike.Processor.State.{
  Processor, SingleStep, step_none, step_stepping, step_stepped, TriggerMatched,
}
use spike.Processor.Trap.{Trap, take_interrupt, take_trap, enter_debug_mode}
use spike.Processor.Trap.Return.{serialize_after}

-- How a fetch and execution ends: the next pc, a trap or a matched trigger.
pub data Executed : Type 0 where
  goes : ℕ → Executed
  traps : Trap → Executed
  triggers : TriggerMatched → Executed

-- `invalid_pc`
abbrev pub invalid_pc : ℕ → Bool
invalid_pc pc = truth (bit_and pc 1)

abbrev pub is_stepping : SingleStep → Bool
is_stepping step_stepping = true
is_stepping _ = false

abbrev pub is_stepped : SingleStep → Bool
is_stepped step_stepped = true
is_stepped _ = false

abbrev pub is_none : SingleStep → Bool
is_none step_none = true
is_none _ = false

unfoldable pub slow_path : Processor → Bool
slow_path p = p.debug || not (is_none p.state.single_step) || truth p.state.dcsr.cause

abbrev pub set_single_step : Processor → SingleStep → Processor
set_single_step p s = record p { state = record p.state { single_step = s } }

-- What the slow path does before an instruction.
unfoldable pub begin_step : Processor → Processor
begin_step p = if is_stepping p.state.single_step then set_single_step p step_stepped else p

-- `advance_pc`: the loop goes on, is left, or the program aborts.
pub data Advanced : Type 0 where
  continues : Processor → Advanced
  leaves : Processor → ℕ → Advanced
  aborts : Advanced

unfoldable pub advance_pc : Processor → ℕ → Advanced
advance_pc p npc =
    if invalid_pc npc
    then (if npc == serialize_before
        then leaves (record p { state = record p.state { serialized = true } }) 0
        else if npc == serialize_after
        then leaves p 1
        else aborts)
    else continues (record p { state = record p.state { pc = npc } })

-- What a pass through the `try` block leaves: the state, the pc, the number of instructions retired and
-- how it ended.
pub data Ending : Type 0 where
  completed : Ending
  by_trap : Trap → Ending
  by_trigger : TriggerMatched → Ending
  aborted : Ending

pub record Pass : Type 0 where
  pub hart : Processor
  pub pc : ℕ
  pub instret : ℕ
  pub ending : Ending

-- The outcome of one turn of the outer loop: the state and the instructions left, the end of the loop
-- before its time, or an exception that nobody catches or `abort`.
pub data Round : Type 0 where
  again : Processor → ℕ → Round
  stops : Processor → Round
  fails : Round

-- The end of `catch(trap_t& t)`, and of the slow loop: a step that was made leads to debug mode.
abbrev pub end_step : Processor → Processor
end_step p = enter_debug_mode (set_single_step p step_none) dcsr_cause_step

module _ (execute : Processor → ℕ → Processor × Executed) where
  -- The loop of the slow path, with `left` instructions to go.
  unfoldable pub slow_loop : ℕ → ℕ → Processor → ℕ → Pass
  unfolding advance_pc begin_step
  slow_loop zero instret p pc = record { hart = p; pc = pc; instret = instret; ending = completed }
  slow_loop (suc left) instret p pc =
      let done = execute (begin_step p) pc in
      elim done.1 [
        | traps t ↦ record { hart = done.0; pc = pc; instret = instret; ending = by_trap t }
        | triggers t ↦ record { hart = done.0; pc = pc; instret = instret; ending = by_trigger t }
        | goes npc ↦ elim (advance_pc done.0 npc) [
          | aborts ↦ record { hart = done.0; pc = npc; instret = instret; ending = aborted }
          | leaves r retired ↦ record {
            hart = r;
            pc = r.state.pc;
            instret = instret + retired;
            ending = completed;
          }
          | continues r ↦ elim (is_stepped r.state.single_step && not (npc == serialize_before)) [
            | true ↦ record {
              hart = end_step r;
              pc = npc;
              instret = suc instret;
              ending = completed;
            }
            | false ↦ slow_loop left (suc instret) r npc
          ]
        ]
      ]

  -- The loop over the instruction cache.
  unfoldable pub fast_loop : ℕ → ℕ → Processor → ℕ → Pass
  unfolding advance_pc
  fast_loop zero instret p pc = record { hart = p; pc = pc; instret = instret; ending = completed }
  fast_loop (suc left) instret p pc =
      let done = execute p pc in
      elim done.1 [
        | traps t ↦ record { hart = done.0; pc = pc; instret = instret; ending = by_trap t }
        | triggers t ↦ record { hart = done.0; pc = pc; instret = instret; ending = by_trigger t }
        | goes npc ↦ elim (advance_pc done.0 npc) [
          | aborts ↦ record { hart = done.0; pc = npc; instret = instret; ending = aborted }
          | leaves r retired ↦ record {
            hart = r;
            pc = r.state.pc;
            instret = instret + retired;
            ending = completed;
          }
          | continues r ↦ fast_loop left (suc instret) r npc
        ]
      ]

  -- The `try` block.
  unfoldable pub try_block : ℕ → Processor → Pass
  unfolding slow_loop fast_loop slow_path
  try_block n p = elim (take_interrupt p) [
    | some t ↦ record { hart = p; pc = p.state.pc; instret = 0; ending = by_trap t }
    | none ↦ if slow_path p then slow_loop n 0 p p.state.pc else fast_loop n 0 p p.state.pc
  ]

  -- The end of the body of the loop.
  abbrev pub retire : ℕ → Processor → ℕ → Round
  retire n p instret =
      again (record p { state = record p.state { minstret = add64 p.state.minstret instret } })
        (n - instret)

  -- The switch on the action of the trigger.
  unfoldable pub trigger_action : ℕ → TriggerMatched → Processor → ℕ → ℕ → Round
  trigger_action n t p pc instret =
      let action = (p.state.mcontrol t.index).action in
      if action == mcontrol_action_debug_mode
      then retire n (enter_debug_mode p dcsr_cause_hwbp) instret
      else if action == mcontrol_action_debug_exception
      then retire n (take_trap p record { cause = cause_breakpoint; badaddr = some t.address } pc)
          instret
      else fails

  -- `catch (trigger_matched_t& t)`. Where `advance_pc` meets a mark, its `break` leaves the outer loop.
  unfoldable pub catch_trigger : ℕ → TriggerMatched → Pass → Round
  unfolding advance_pc trigger_action
  catch_trigger n t pass = elim pass.hart.mmu.matched_trigger [
    | none ↦ trigger_action n t pass.hart pass.pc pass.instret
    | some _ ↦
        let done = execute pass.hart pass.pc in
        elim done.1 [
          | traps _ ↦ fails
          | triggers _ ↦ fails
          | goes npc ↦ elim (advance_pc done.0 npc) [
            | aborts ↦ fails
            | leaves r retired ↦ stops r
            | continues r ↦
                trigger_action n t (record r { mmu = record r.mmu { matched_trigger = none } }) npc
                  (suc pass.instret)
          ]
        ]
  ]

  -- `catch(trap_t& t)`
  unfoldable pub catch_trap : Trap → Pass → Round
  catch_trap t pass =
      let p = take_trap pass.hart t pass.pc in
      retire pass.instret (if is_stepped p.state.single_step then end_step p else p) pass.instret

  -- The catch blocks and the end of the body of the loop, after a pass.
  unfoldable pub end_round : ℕ → Pass → Round
  unfolding catch_trigger catch_trap
  end_round n pass = elim pass.ending [
    | completed ↦ retire n pass.hart pass.instret
    | by_trap t ↦ catch_trap t pass
    | by_trigger t ↦ catch_trigger n t pass
    | aborted ↦ fails
  ]

  unfoldable pub round : ℕ → Processor → Round
  unfolding try_block end_round
  round n p = end_round n (try_block n p)

  -- The outer loop, with fuel: a turn may retire nothing. `none` is a failure or the end of the fuel.
  unfoldable pub rounds : ℕ → ℕ → Processor → Option Processor
  unfolding round
  rounds zero n p = none
  rounds (suc fuel) n p = elim (n == 0) [
    | true ↦ some p
    | false ↦ elim (round n p) [
      | again q left ↦ rounds fuel left q
      | stops q ↦ some q
      | fails ↦ none
    ]
  ]

  -- `processor_t::step`; `debug_interrupt` is what the debug module tells this hart.
  unfoldable pub step : ℕ → ℕ → Processor → Bool → Option Processor
  unfolding rounds
  step fuel n p debug_interrupt =
      if p.state.dcsr.cause == dcsr_cause_none
      then (if debug_interrupt
          then rounds fuel n (enter_debug_mode p dcsr_cause_debugint)
          else if p.state.dcsr.halt
          then rounds fuel n (enter_debug_mode p dcsr_cause_halt)
          else rounds fuel n p)
      else rounds fuel (min n 11) p
