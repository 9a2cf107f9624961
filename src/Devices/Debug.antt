-- ===== src/Devices/Debug.antt =====
-- riscv/debug_module.h and riscv/debug_module.cc: the memory and the notifications by which a debugger
-- and the harts talk. The messages are left out; the debug ROM, a file that the build generates, is a
-- parameter.
pub mod Ram
use spike.Base.{
  ℕ, zero, suc, ◌+◌, ◌-◌, ◌*◌, ◌/◌, ◌%◌, ◌^◌, bit_and, bit_or, Bool, true, false, ◌&&◌, ltb, leb,
  ◌==◌, if◌then◌else◌, Option, none, some, List, [], ◌∷◌, length, take, drop, get_or, truth, add64,
  sub64, shr, u32,
}

-- `DEBUG_START`, `DEBUG_ROM_START`, and the rest of the memory map.
abbrev debug_start : ℕ
debug_start = 0x100

abbrev rom_start : ℕ
rom_start = 0x800

abbrev debug_cleardebint : ℕ
debug_cleardebint = 0x100

abbrev debug_sethaltnot : ℕ
debug_sethaltnot = 0x10c

abbrev debug_ram_start : ℕ
debug_ram_start = 0x400

abbrev debug_ram_size : ℕ
debug_ram_size = 64

abbrev debug_ram_end : ℕ
debug_ram_end = debug_ram_start + debug_ram_size

-- `debug_module_t`; a set of hart numbers is its membership test.
pub record DebugModule : Type 0 where
  pub interrupt : ℕ → Bool
  pub halt_notification : ℕ → Bool
  pub debug_ram : ℕ → ℕ

abbrev put_bit : (ℕ → Bool) → ℕ → Bool → ℕ → Bool
put_bit f i v j = if j == i then v else f j

abbrev put_byte : (ℕ → ℕ) → ℕ → ℕ → ℕ → ℕ
put_byte f i v j = if j == i then v else f j

unfoldable pub set_interrupt : DebugModule → ℕ → DebugModule
set_interrupt d hartid = record d { interrupt = put_bit d.interrupt hartid true }

unfoldable pub clear_interrupt : DebugModule → ℕ → DebugModule
clear_interrupt d hartid = record d { interrupt = put_bit d.interrupt hartid false }

unfoldable pub set_halt_notification : DebugModule → ℕ → DebugModule
set_halt_notification d hartid = record d {
  halt_notification = put_bit d.halt_notification hartid true;
}

unfoldable pub clear_halt_notification : DebugModule → ℕ → DebugModule
clear_halt_notification d hartid = record d {
  halt_notification = put_bit d.halt_notification hartid false;
}

-- `memcpy` out of the debug RAM and into it.
read_ram : ℕ → (ℕ → ℕ) → ℕ → List ℕ
read_ram zero ram off = []
read_ram (suc len) ram off = ram off ∷ read_ram len ram (off + 1)

write_ram : List ℕ → (ℕ → ℕ) → ℕ → ℕ → ℕ
write_ram [] ram off = ram
write_ram (b ∷ bytes) ram off = write_ram bytes (put_byte ram off b) (off + 1)

-- `debug_module_t::load`, with the bytes of the debug ROM.
unfoldable pub debug_load : List ℕ → DebugModule → ℕ → ℕ → Option (List ℕ)
unfolding read_ram
debug_load rom d offset len =
    let addr = add64 debug_start offset in
    if leb debug_ram_start addr && leb (add64 addr len) debug_ram_end
    then some (read_ram len d.debug_ram (addr - debug_ram_start))
    else if leb rom_start addr && leb (add64 addr len) (rom_start + length rom)
    then some (take len (drop (addr - rom_start) rom))
    else none

-- The little-endian word of the first four bytes.
abbrev word_of : List ℕ → ℕ
word_of bytes =
    get_or bytes 0 0
    + 2 ^ 8 * get_or bytes 1 0
    + 2 ^ 16 * get_or bytes 2 0
    + 2 ^ 24 * get_or bytes 3 0

-- `debug_module_t::store`
unfoldable pub debug_store : DebugModule → ℕ → List ℕ → Option DebugModule
unfolding write_ram clear_interrupt set_halt_notification
debug_store d offset bytes =
    let addr = add64 debug_start offset in
    let len = length bytes in
    if truth (bit_and addr (sub64 len 1))
    then none
    else if leb debug_ram_start addr && leb (add64 addr len) debug_ram_end
    then some (record d { debug_ram = write_ram bytes d.debug_ram (addr - debug_ram_start) })
    else if (len == 4) && (addr == debug_cleardebint)
    then some (clear_interrupt d (word_of bytes))
    else if (len == 4) && (addr == debug_sethaltnot)
    then some (set_halt_notification d (word_of bytes))
    else none

-- `ram_write32` and `ram_read32`
unfoldable pub ram_write32 : DebugModule → ℕ → ℕ → DebugModule
ram_write32 d index value =
    let base = index * 4 in
    let ram1 = put_byte d.debug_ram base (bit_and value 0xff) in
    let ram2 = put_byte ram1 (base + 1) (bit_and (shr value 8) 0xff) in
    let ram3 = put_byte ram2 (base + 2) (bit_and (shr value 16) 0xff) in
    record d { debug_ram = put_byte ram3 (base + 3) (bit_and (shr value 24) 0xff) }

unfoldable pub ram_read32 : DebugModule → ℕ → ℕ
ram_read32 d index =
    let base = index * 4 in
    bit_or
      (bit_or (bit_or (d.debug_ram base) (d.debug_ram (base + 1) * 2 ^ 8))
        (d.debug_ram (base + 2) * 2 ^ 16))
      (d.debug_ram (base + 3) * 2 ^ 24)
