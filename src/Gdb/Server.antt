-- ===== src/Gdb/Server.antt =====
-- What the remote debugger of riscv/gdbserver.cc does with a packet: `gdbserver_t::handle_packet` and
-- the functions that it calls. The state is what they read and write of `gdbserver_t`; a byte behind
-- the end of a packet is read as 0, `none` is a failed assertion and `die`.
pub mod Packets
pub mod Memory
use spike.Base.{
  ℕ, zero, suc, ◌+◌, ◌-◌, ◌/◌, ◌%◌, ◌^◌, bit_xor, Bool, true, false, ◌&&◌, ◌||◌, not, ltb, ◌==◌,
  if◌then◌else◌, Option, none, some, List, [], ◌∷◌, ◌++◌, length, get_or, drop, replicate,
}
use spike.Gdb.Packet.{
  compute_checksum, extract_checksum, Sender, send, start_packet, end_packet, send_packet,
  consume_hex_number, consume_hex_number_le, consume_string,
}

-- `software_breakpoint_t` and `hardware_breakpoint_t`; the index of a hardware breakpoint is not kept.
pub record SoftwareBreakpoint : Type 0 where
  pub vaddr : ℕ
  pub size : ℕ
  pub instruction : List ℕ

pub record HardwareBreakpoint : Type 0 where
  pub vaddr : ℕ
  pub size : ℕ
  pub load : Bool
  pub store : Bool
  pub execute : Bool

-- The operations that are queued, with the arguments of their constructors. A read for a breakpoint
-- names its address, a write its bytes.
pub data Operation : Type 0 where
  halt : Bool → Operation
  general_registers_read : Operation
  register_read : ℕ → Operation
  register_write : ℕ → ℕ → Operation
  collect_translation_info : ℕ → ℕ → Operation
  memory_read : ℕ → ℕ → Option ℕ → Operation
  memory_write : ℕ → ℕ → List ℕ → Operation
  maybe_save_tselect maybe_restore_tselect maybe_restore_mstatus : Operation
  continue : Bool → Operation
  hardware_breakpoint_insert hardware_breakpoint_remove : HardwareBreakpoint → Operation

pub record Server : Type 0 where
  pub sender : Sender
  pub operation_queue : List Operation
  pub extended_mode : Bool
  pub fence_i_required : Bool
  pub dpc : ℕ
  pub software_breakpoints : ℕ → Option SoftwareBreakpoint
  pub hardware_breakpoints : List HardwareBreakpoint

abbrev pub add_operation : Operation → Server → Server
add_operation operation s = record s { operation_queue = s.operation_queue ++ operation ∷ [] }

-- A call of the sender.
unfoldable pub reply : Server → List ℕ → Option Server
reply s msg = elim (send_packet s.sender msg) [
  | none ↦ none
  | some sender ↦ some (record s { sender = sender })
]

-- `E` and two digits.
abbrev pub error : Server → ℕ → ℕ → Option Server
error s high low = reply s (69 ∷ high ∷ low ∷ [])

abbrev pub ok : Server → Option Server
ok s = reply s (79 ∷ 75 ∷ [])

abbrev pub next : List ℕ → ℕ
next iter = get_or iter 0 0

unfoldable pub handle_halt_reason : Server → Option Server
handle_halt_reason s = reply s (83 ∷ 48 ∷ 48 ∷ [])

abbrev pub handle_general_registers_read : Server → Server
handle_general_registers_read s = add_operation general_registers_read s

unfoldable pub handle_register_read : List ℕ → Server → Option Server
handle_register_read packet s =
    let (n, iter) = consume_hex_number 0 (drop 2 packet) in
    if not (next iter == 35)
    then error s 48 49
    else some (add_operation (register_read (n % 2 ^ 32)) s)

unfoldable pub handle_register_write : List ℕ → Server → Option Server
handle_register_write packet s =
    let (n, iter) = consume_hex_number 0 (drop 2 packet) in
    let (value, iter') = consume_hex_number_le 0 4 (drop 1 iter) in
    if not (next iter == 61)
    then error s 48 53
    else if not (next iter' == 35)
    then error s 48 54
    else ok (add_operation (register_write (n % 2 ^ 32) value) s)

unfoldable pub handle_memory_read : List ℕ → Server → Option Server
handle_memory_read packet s =
    let (address, iter) = consume_hex_number 0 (drop 2 packet) in
    let (len, iter') = consume_hex_number 0 (drop 1 iter) in
    if not (next iter == 44)
    then error s 49 48
    else if not (next iter' == 35)
    then error s 49 49
    else some (
        add_operation (memory_read address (len % 2 ^ 32) none)
          (add_operation (collect_translation_info address len) s))

-- The loop that takes the bytes out of a packet: they and what is left, or the digit of the error.
abbrev pub unescape : ℕ → List ℕ → List ℕ × (ℕ × List ℕ)
unescape zero iter = ([], (0, iter))
unescape (suc len) [] = ([], (50, []))
unescape (suc len) (c ∷ []) =
    let (bytes, (code, left)) = unescape len [] in
    if c == 125 then ([], (51, [])) else (c ∷ bytes, (code, left))
unescape (suc len) (c ∷ d ∷ iter) =
    let (escaped, (code, left)) = unescape len iter in
    let (bytes, (code', left')) = unescape len (d ∷ iter) in
    if c == 125 then (bit_xor d 32 ∷ escaped, (code, left)) else (c ∷ bytes, (code', left'))

unfoldable pub handle_memory_binary_write : List ℕ → Server → Option Server
handle_memory_binary_write packet s =
    let (address, iter) = consume_hex_number 0 (drop 2 packet) in
    let (len, iter') = consume_hex_number 0 (drop 1 iter) in
    let (bytes, (code, iter'')) = unescape len (drop 1 iter') in
    if not (next iter == 44)
    then error s 50 48
    else if not (next iter' == 58)
    then error s 50 49
    else if len == 0
    then ok s
    else if not (code == 0)
    then error s 50 code
    else if not (next iter'' == 35)
    then error s 52 98
    else some (
        add_operation (memory_write address (len % 2 ^ 32) bytes)
          (add_operation (collect_translation_info address len) s))

unfoldable pub handle_continue : List ℕ → Server → Option Server
handle_continue packet s =
    let (value, iter) = consume_hex_number 0 (drop 2 packet) in
    let moved = record s { dpc = value } in
    let go = λ (t : Server).
      add_operation (continue false)
        (add_operation maybe_restore_mstatus (add_operation maybe_restore_tselect t)) in
    if get_or packet 2 0 == 35
    then some (go s)
    else if not (next iter == 35)
    then error moved 51 48
    else some (go moved)

unfoldable pub handle_step : List ℕ → Server → Option Server
handle_step packet s =
    if get_or packet 2 0 == 35
    then some (add_operation (continue true) (add_operation maybe_restore_tselect s))
    else none

unfoldable pub handle_extended : Server → Option Server
handle_extended s = elim (ok s) [ none ↦ none | some t ↦ some (record t { extended_mode = true }) ]
