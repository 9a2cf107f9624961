-- ===== src/Tests/Steps.antt =====
-- The loop of riscv/execute.cc and the simulator's turns with a program that counts.
use spike.Base.{ℕ, ◌⊎◌, ◌==◌, false, ◌≡◌, refl, arith, some, if◌then◌else◌, get_elem?}
use spike.Processor.State.{Processor}
use spike.Processor.Step.{Executed}
use spike.Insns.Alu
use spike.Insns.Control
use spike.Encoding.Insns.{Insn}
use spike.Insns.Running.{bodies, run_program}
use spike.Sim.{Board, Sim, run_hart, step_sim}
use spike.Sim.Turns.{InTurn, Advances, Keeps, Fails, run_hart-Keeps, step_sim-Advances}
use spike.Tests.Harts.{hart}

-- addi x1, x1, 1 at 0x80000000, and behind it a jump back to it; an illegal word elsewhere.
abbrev code : ℕ → ℕ
code pc = if pc == 0x80000000 then 0x00108093 else if pc == 0x80000004 then 0xffdff06f else 0

-- The places of addi and jal among the bodies.
abbrev number : ℕ → ℕ
number word = if word == 0x00108093 then 1 else if word == 0xffdff06f then 49 else 200

counts : get_elem? bodies 1 ≡ some (Insn.addi, Alu.addi)
counts = refl

jumps : get_elem? bodies 49 ≡ some (Insn.jal, Control.jal)
jumps = refl

abbrev counting : Processor → ℕ → Processor × Executed
counting = run_program code number false

-- Two harts, before the last ten instructions of the second one's turn.
abbrev two_harts : Sim
two_harts = record {
  board = record {
    rtc = record { count = 2; regs = λ _. 7; procs = λ _. hart 3 0 0 0 0 };
    memory = λ _. 0;
  };
  current_step = 4990;
  current_proc = 1;
}

two_harts-InTurn : InTurn two_harts
two_harts-InTurn = record { steps_left = omega arith; proc_known = omega arith; word = omega arith }

idle_host : (b : Board) → Keeps b b
idle_host b = record { count_lem = refl; time_lem = refl }

step_sim-Advances_example :
    ((t : Sim) × (ticks : ℕ) × (step_sim (run_hart counting (λ _. false)) (λ b. b) 25000 two_harts
        ≡ some t)
      × Advances two_harts t 25000 ticks)
    ⊎ Fails (run_hart counting (λ _. false)) (λ b. b) 25000 two_harts
step_sim-Advances_example =
    step_sim-Advances (run_hart counting (λ _. false)) (λ b. b)
      (run_hart-Keeps counting (λ _. false)) idle_host 25000 two_harts two_harts-InTurn
