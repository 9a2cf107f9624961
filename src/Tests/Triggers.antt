-- ===== src/Tests/Triggers.antt =====
-- A load that sets off a trigger of riscv/processor.h.
use spike.Base.{◌≡◌, refl, true, some, if◌then◌else◌, ◌==◌}
use spike.Processor.State.{Processor, operation_load, no_mcontrol}
use spike.Processor.Triggers.{trigger_match}
use spike.Tests.Harts.{hart}

-- Trigger 2 watches loads at 0x1000 in supervisor mode.
unfoldable watched : Processor
unfolding hart
watched =
    let h = hart 1 0 0 0 0 in
    record h {
      state = record h.state {
        mcontrol =
            λ i. if i == 2 then record no_mcontrol { s = true; load = true } else no_mcontrol;
        tdata2 = λ i. 0x1000;
      };
    }

set_off : trigger_match watched operation_load 0x1000 5 ≡ some 2
unfolding watched trigger_match
set_off = refl
