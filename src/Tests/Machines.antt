-- ===== src/Tests/Machines.antt =====
-- A bus and a timer of riscv/devices.h, and a tree of riscv/oramsim.cc.
use spike.Base.{
  false, ℕ, ◌-◌, ◌^◌, ◌≡◌, refl, arith, some, List, [], ◌∷◌, neg64, if◌then◌else◌, ◌==◌,
}
use spike.Devices.{Device, Rtc, lower_bound, rom_device}
use spike.Devices.Bus.{Above, IsMap}
use spike.Devices.Debug.{DebugModule}
use spike.Tests.Harts.{timed}

-- Two ROMs, at 0x1000 and at 0x40000000.
abbrev rom : Device ℕ
rom = rom_device (1 ∷ 2 ∷ 3 ∷ [])

abbrev devices : List (ℕ × Device ℕ)
devices = (2 ^ 64 - 0x40000000, rom) ∷ (2 ^ 64 - 0x1000, rom) ∷ []

devices-IsMap : IsMap devices
unfolding Above IsMap
devices-IsMap = (omega arith, (omega arith, tt), (omega arith, tt, tt))

found : lower_bound devices (neg64 0x1010) ≡ some (2 ^ 64 - 0x1000, rom)
unfolding lower_bound
found = refl

-- A timer at 100 ticks whose one comparand is 150.
abbrev clock : Rtc
clock = record { count = 1; regs = λ i. if i == 0 then 100 else 150; procs = λ i. timed }

-- An empty debug RAM.
abbrev blank : DebugModule
blank = record { interrupt = λ _. false; halt_notification = λ _. false; debug_ram = λ _. 0 }
