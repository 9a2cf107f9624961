-- ===== src/Gdb/Server/Packets.antt =====
-- Breakpoints, queries and the dispatch of packets, of riscv/gdbserver.cc.
use spike.Base.{
  ℕ, zero, suc, ◌%◌, ◌^◌, Bool, true, false, ◌&&◌, ◌||◌, not, ◌==◌, if◌then◌else◌, Option, none,
  some, List, [], ◌∷◌, ◌++◌, length, get_or, drop, replicate,
}
use spike.Gdb.Packet.{
  compute_checksum, extract_checksum, Sender, send, start_packet, end_packet, consume_hex_number,
  consume_string,
}
use spike.Gdb.Server.{
  SoftwareBreakpoint, HardwareBreakpoint, halt, collect_translation_info, memory_read, memory_write,
  maybe_save_tselect, hardware_breakpoint_insert, hardware_breakpoint_remove, Server, add_operation,
  reply, error, ok, next, handle_halt_reason, handle_general_registers_read, handle_register_read,
  handle_register_write, handle_memory_read, handle_memory_binary_write, handle_continue,
  handle_step, handle_extended,
}

-- The bytes of `MATCH_C_EBREAK` and of `MATCH_EBREAK`.
abbrev ebreak_bytes : ℕ → List ℕ
ebreak_bytes size = if size == 2 then 0x02 ∷ 0x90 ∷ [] else 0x73 ∷ 0x00 ∷ 0x10 ∷ 0x00 ∷ []

abbrev set_software : ℕ → Option SoftwareBreakpoint → Server → Server
set_software vaddr bp s = record s {
  software_breakpoints = λ a. if a == vaddr then bp else s.software_breakpoints a;
}

unfoldable pub software_breakpoint_insert : ℕ → ℕ → Server → Server
software_breakpoint_insert vaddr size s =
    let bp : SoftwareBreakpoint = record {
      vaddr = vaddr;
      size = size;
      instruction = replicate 4 0;
    } in
    let s1 =
      add_operation (collect_translation_info vaddr size) (record s { fence_i_required = true }) in
    let s2 = set_software vaddr (some bp) s1 in
    add_operation (memory_write vaddr size (ebreak_bytes size))
      (add_operation (memory_read vaddr size (some vaddr)) s2)

-- What the map holds at an address that it has not is zero.
abbrev found_breakpoint : Option SoftwareBreakpoint → SoftwareBreakpoint
found_breakpoint none = record { vaddr = 0; size = 0; instruction = replicate 4 0 }
found_breakpoint (some bp) = bp

unfoldable pub software_breakpoint_remove : ℕ → ℕ → Server → Server
software_breakpoint_remove vaddr size s =
    let found_bp = found_breakpoint (s.software_breakpoints vaddr) in
    let s1 =
      add_operation (collect_translation_info vaddr size) (record s { fence_i_required = true }) in
    set_software vaddr none
      (add_operation (memory_write found_bp.vaddr found_bp.size found_bp.instruction) s1)

unfoldable pub insert_hardware : HardwareBreakpoint → Server → Server
insert_hardware bp s =
    add_operation (hardware_breakpoint_insert bp) (add_operation maybe_save_tselect s)

-- `std::set::find`, by address and size.
abbrev pub find_hardware : List HardwareBreakpoint → HardwareBreakpoint → Option HardwareBreakpoint
find_hardware [] bp = none
find_hardware (b ∷ bs) bp =
    let rest = find_hardware bs bp in
    if (b.vaddr == bp.vaddr) && (b.size == bp.size) then some b else rest

-- A breakpoint that is not in the set would be read behind its end: `none`.
unfoldable pub remove_hardware : HardwareBreakpoint → Server → Option Server
remove_hardware bp s = elim (find_hardware s.hardware_breakpoints bp) [
  | none ↦ none
  | some found ↦
      some (add_operation (hardware_breakpoint_remove found) (add_operation maybe_save_tselect s))
]

-- The switch over the type: 0 is a software breakpoint, 1 to 4 execute, write, read and access.
unfoldable pub set_breakpoint : Bool → ℕ → ℕ → ℕ → Server → Option Server
set_breakpoint insert type address size s =
    let bp : HardwareBreakpoint = record {
      vaddr = address;
      size = size;
      load = (type == 3) || (type == 4);
      store = (type == 2) || (type == 4);
      execute = (type == 1) || (type == 4);
    } in
    if type == 0
    then (if not (size == 2) && not (size == 4)
        then error s 53 51
        else if insert
        then ok (software_breakpoint_insert address size s)
        else ok (software_breakpoint_remove address size s))
    else if (type == 1) || (type == 2) || (type == 3) || (type == 4)
    then (if insert
        then some (insert_hardware bp s)
        else elim (remove_hardware bp s) [ none ↦ none | some t ↦ ok t ])
    else error s 53 54

unfoldable pub handle_breakpoint : List ℕ → Server → Option Server
handle_breakpoint packet s =
    let (type, iter) = consume_hex_number 0 (drop 2 packet) in
    let (address, iter') = consume_hex_number 0 (drop 1 iter) in
    let (size, iter'') = consume_hex_number 0 (drop 1 iter') in
    if not (next iter == 44)
    then error s 53 48
    else if not (next iter' == 44)
    then error s 53 49
    else if not (next iter'' == 35)
    then error s 53 50
    else set_breakpoint (get_or packet 1 0 == 90) (type % 2 ^ 32) address (size % 2 ^ 32) s

-- `Supported`, `swbreak+`, `swbreak+;` and `PacketSize=131072;`
abbrev supported_name : List ℕ
supported_name = 83 ∷ 117 ∷ 112 ∷ 112 ∷ 111 ∷ 114 ∷ 116 ∷ 101 ∷ 100 ∷ []

abbrev swbreak_name : List ℕ
swbreak_name = 115 ∷ 119 ∷ 98 ∷ 114 ∷ 101 ∷ 97 ∷ 107 ∷ 43 ∷ []

abbrev packet_size_name : List ℕ
packet_size_name =
    80 ∷ 97 ∷ 99 ∷ 107 ∷ 101 ∷ 116 ∷ 83 ∷ 105 ∷ 122 ∷ 101 ∷ 61 ∷ 49 ∷ 51 ∷ 49 ∷ 48 ∷ 55 ∷ 50 ∷ 59
    ∷ []

abbrev same_string : List ℕ → List ℕ → Bool
same_string [] [] = true
same_string [] (y ∷ ys) = false
same_string (x ∷ xs) [] = false
same_string (x ∷ xs) (y ∷ ys) = (x == y) && same_string xs ys

-- The loop over the features. Each turn takes a byte at least: the length of `iter` is fuel enough.
unfoldable pub send_features : ℕ → List ℕ → Sender → Option Sender
send_features zero iter s = some s
send_features (suc fuel) [] s = some s
send_features (suc fuel) (c ∷ iter) s =
    let (feature, left) = consume_string 59 (c ∷ iter) in
    let unknown = send_features fuel (drop 1 left) s in
    let known : Option Sender = elim (send s (swbreak_name ++ 59 ∷ [])) [
      | none ↦ none
      | some t ↦ send_features fuel (drop 1 left) t
    ] in
    if same_string feature swbreak_name then known else unknown

unfoldable pub send_supported : List ℕ → Sender → Option Sender
send_supported iter s = elim (start_packet s) [
  | none ↦ none
  | some started ↦ elim (send_features (length iter) iter started) [
    | none ↦ none
    | some featured ↦ elim (send featured packet_size_name) [
      | none ↦ none
      | some sent ↦ end_packet sent
    ]
  ]
]

unfoldable pub handle_query : List ℕ → Server → Option Server
handle_query packet s =
    let (name, iter) = consume_string 58 (drop 2 packet) in
    if same_string name supported_name
    then elim (send_supported (drop 1 iter) s.sender) [
      | none ↦ none
      | some sender ↦ some (record s { sender = sender })
    ]
    else reply s []

-- The switch over the first byte of the data.
unfoldable pub dispatch : List ℕ → Server → Option Server
dispatch packet s =
    let c = get_or packet 1 0 in
    if c == 33
    then handle_extended s
    else if c == 63
    then handle_halt_reason s
    else if c == 103
    then some (handle_general_registers_read s)
    else if c == 109
    then handle_memory_read packet s
    else if c == 88
    then handle_memory_binary_write packet s
    else if c == 112
    then handle_register_read packet s
    else if c == 80
    then handle_register_write packet s
    else if c == 99
    then handle_continue packet s
    else if c == 115
    then handle_step packet s
    else if (c == 122) || (c == 90)
    then handle_breakpoint packet s
    else if (c == 113) || (c == 81)
    then handle_query packet s
    else reply s []

abbrev send_byte : ℕ → Server → Option Server
send_byte byte s = elim (send s.sender (byte ∷ [])) [
  | none ↦ none
  | some sender ↦ some (record s { sender = sender })
]

unfoldable pub handle_packet : List ℕ → Server → Option Server
handle_packet packet s =
    if not (compute_checksum packet == extract_checksum packet)
    then send_byte 45 s
    else elim (send_byte 43 s) [ none ↦ none | some t ↦ dispatch packet t ]

unfoldable pub handle_interrupt : Server → Server
handle_interrupt s = add_operation (halt true) s
