-- ===== src/Gdb/Program.antt =====
-- How the remote debugger of riscv/gdbserver.cc writes its programs to the debug RAM and reads their
-- results: `gdbserver_t::dr_…`. `none` is `abort` and a failed assertion.

pub mod Jump
use spike.Base.{
  ℕ, ◌+◌, ◌-◌, ◌*◌, ◌/◌, ◌%◌, ◌^◌, bit_or, Bool, true, false, ◌||◌, not, ltb, ◌==◌, if◌then◌else◌,
  Option, none, some, shr, u32,
}
use spike.Devices.Debug.{DebugModule, ram_write32, ram_read32}
use spike.Gdb.Assembler.{jal, sw, sd, lw, ld}

-- `enum slot`
pub data Slot : Type 0 where
  inst0 data0 data1 data_last : Slot

abbrev pub slot_offset32 : Slot → ℕ
slot_offset32 inst0 = 0
slot_offset32 data0 = 4
slot_offset32 data1 = 5
slot_offset32 data_last = 15

abbrev pub slot_offset64 : Slot → ℕ
slot_offset64 inst0 = 0
slot_offset64 data0 = 4
slot_offset64 data1 = 6
slot_offset64 data_last = 14

abbrev pub ram_start : ℕ
ram_start = 0x400

abbrev pub rom_resume : ℕ
rom_resume = 0x804

unfoldable pub dr_write32 : DebugModule → ℕ → ℕ → DebugModule
dr_write32 d index value = ram_write32 d index (u32 value)

unfoldable pub dr_write64 : DebugModule → ℕ → ℕ → DebugModule
dr_write64 d index value = dr_write32 (dr_write32 d index value) (index + 1) (shr value 32)

unfoldable pub dr_write : ℕ → DebugModule → Slot → ℕ → Option DebugModule
dr_write xlen d slot value =
    if xlen == 32
    then some (dr_write32 d (slot_offset32 slot) value)
    else if xlen == 64
    then some (dr_write64 d (slot_offset64 slot) value)
    else none

unfoldable pub dr_write_jump : DebugModule → ℕ → DebugModule
dr_write_jump d index =
    dr_write32 d index (jal 0 (u32 (rom_resume + 2 ^ 32 - (ram_start + 4 * index))))

-- Whether the instruction at `index` is outside the slot that it writes, as the assertions have it.
abbrev pub is_apart : Slot → ℕ → Bool
is_apart inst0 index = ltb 2 index
is_apart data0 index = ltb index 4 || ltb 6 index
is_apart data1 index = ltb index 5 || ltb 10 index
is_apart data_last index = ltb index 6 || ltb 14 index

unfoldable pub dr_write_store : ℕ → DebugModule → ℕ → ℕ → Slot → Option DebugModule
dr_write_store xlen d index reg slot =
    if not (is_apart slot index)
    then none
    else if xlen == 32
    then some (dr_write32 d index (sw reg 0 (ram_start + 4 * slot_offset32 slot)))
    else if xlen == 64
    then some (dr_write32 d index (sd reg 0 (ram_start + 4 * slot_offset64 slot)))
    else none

unfoldable pub dr_write_load : ℕ → DebugModule → ℕ → ℕ → Slot → Option DebugModule
dr_write_load xlen d index reg slot =
    if xlen == 32
    then some (dr_write32 d index (lw reg 0 (ram_start + 4 * slot_offset32 slot)))
    else if xlen == 64
    then some (dr_write32 d index (ld reg 0 (ram_start + 4 * slot_offset64 slot)))
    else none

unfoldable pub dr_read32 : DebugModule → ℕ → ℕ
dr_read32 d index = ram_read32 d index

unfoldable pub dr_read64 : DebugModule → ℕ → ℕ
dr_read64 d index = bit_or (dr_read32 d (index + 1) * 2 ^ 32) (dr_read32 d index)

unfoldable pub dr_read : ℕ → DebugModule → Slot → Option ℕ
dr_read xlen d slot =
    if xlen == 32
    then some (dr_read32 d (slot_offset32 slot))
    else if xlen == 64
    then some (dr_read64 d (slot_offset64 slot))
    else none
