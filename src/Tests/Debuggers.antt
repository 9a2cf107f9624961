-- ===== src/Tests/Debuggers.antt =====
-- The remote debugger's buffers, packets and programs at concrete bytes.
use spike.Base.{
  ℕ, ◌+◌, ◌*◌, ◌≡◌, refl, arith, Bool, true, false, none, some, List, [], ◌∷◌, ◌++◌, get_or, add64,
  drop,
}
use spike.Decode.{uj_imm, rd}
use spike.Decode.Formats.{sign_extend}
use spike.Devices.Debug.{DebugModule}
use spike.Gdb.Buffer.{Buffer, consume, size, entry, append}
use spike.Gdb.Buffer.Place.{IsValid}
use spike.Gdb.Buffer.Contents.{contents, contents-append, contents-consume}
use spike.Gdb.Buffer.Append.{append-none}
use spike.Gdb.Packet.{Sender, send_packet, compute_checksum, extract_checksum}
use spike.Gdb.Packet.Framing.{framed, send_packet_lem}
use spike.Gdb.Request.{process_requests}
use spike.Gdb.Request.Framed.{Lacks}
use spike.Gdb.Request.Delivery.{process_requests_lem}
use spike.Gdb.Program.{dr_read32, dr_write_jump, ram_start, rom_resume}
use spike.Gdb.Program.Jump.{dr_write_jump_lem}
use spike.Gdb.Server.{Server, collect_translation_info, memory_read}
use spike.Gdb.Server.Packets.{handle_packet}
use spike.Gdb.Server.Memory.{IsDigits, number, read_request, handle_packet_read}

abbrev ring : Buffer
ring = record { elements = λ i. i; start = 3; end = 9; capacity = 10 }

ring-IsValid : IsValid ring
ring-IsValid = record { start_in = omega arith; end_in = omega arith; small = omega arith }

size-ring : size ring ≡ 6
unfolding size
size-ring = refl

contents-append_example :
    (c : Buffer) × (append ring (7 ∷ 8 ∷ []) ≡ some c
      × (IsValid c × contents c ≡ contents ring ++ 7 ∷ 8 ∷ []))
contents-append_example = contents-append ring (7 ∷ 8 ∷ []) ring-IsValid (omega (arith, size-ring))

contents-consume_example :
    IsValid (consume ring 4) × contents (consume ring 4) ≡ drop 4 (contents ring)
contents-consume_example = contents-consume ring 4 ring-IsValid (omega (arith, size-ring))

append-none_example : append ring (7 ∷ 8 ∷ 9 ∷ []) ≡ none
append-none_example =
    append-none ring (7 ∷ 8 ∷ 9 ∷ []) ring-IsValid (omega arith) (omega arith)
      (omega (arith, size-ring))

-- A sender with nothing to send, in the middle of its array.
abbrev idle : Sender
idle = record {
  send_buf = record { elements = λ i. 0; start = 3; end = 3; capacity = 32 };
  running_checksum = 0;
  expect_ack = false;
}

idle-IsValid : IsValid idle.send_buf
idle-IsValid = record { start_in = omega arith; end_in = omega arith; small = omega arith }

size-idle : size idle.send_buf ≡ 0
unfolding size
size-idle = refl

send_packet_lem_example :
    (t : Sender) × (send_packet idle (79 ∷ 75 ∷ []) ≡ some t
      × (IsValid t.send_buf
          × ((contents t.send_buf ≡ contents idle.send_buf ++ framed (79 ∷ 75 ∷ []))
              × ((compute_checksum (framed (79 ∷ 75 ∷ []))
                    ≡ extract_checksum (framed (79 ∷ 75 ∷ [])))
                  × t.expect_ack ≡ true))))
send_packet_lem_example =
    send_packet_lem idle (79 ∷ 75 ∷ []) idle-IsValid (omega (arith, size-idle))

-- The packet `$g#67` and a byte behind it.
abbrev arrived : Buffer
arrived = record {
  elements = λ i. get_or (36 ∷ 103 ∷ 35 ∷ 54 ∷ 55 ∷ 43 ∷ []) i 0;
  start = 0;
  end = 6;
  capacity = 16;
}

arrived-IsValid : IsValid arrived
arrived-IsValid = record { start_in = omega arith; end_in = omega arith; small = omega arith }

contents-arrived : contents arrived ≡ (36 ∷ 103 ∷ 35 ∷ 54 ∷ 55 ∷ []) ++ 43 ∷ []
unfolding contents size entry
contents-arrived = refl

-- The state of the rest of the server is the packets that it was given.
abbrev keep : List ℕ → List (List ℕ) → List (List ℕ)
keep packet seen = packet ∷ seen

abbrev unchanged : List (List ℕ) → List (List ℕ)
unchanged seen = seen

abbrev awaited : List (List ℕ) → Bool
awaited seen = true

process_requests_lem_example :
    (c : Buffer) × (process_requests keep unchanged awaited arrived []
        ≡ some (c, keep (36 ∷ 103 ∷ 35 ∷ 54 ∷ 55 ∷ []) [])
      × (IsValid c × contents c ≡ 43 ∷ []))
unfolding Lacks
process_requests_lem_example =
    process_requests_lem keep unchanged awaited arrived [] (103 ∷ []) 54 55 (43 ∷ [])
      arrived-IsValid contents-arrived (ground arith, tt) (ground arith, tt)
      (ground arith, (ground arith, tt))

abbrev debug_module : DebugModule
debug_module = record { debug_ram = λ i. 0; interrupt = λ i. false; halt_notification = λ i. false }

dr_write_jump_lem_example :
    let word = sign_extend 32 (dr_read32 (dr_write_jump debug_module 3) 3) in
    (add64 (ram_start + 4 * 3) (uj_imm word) ≡ rom_resume) × (rd word ≡ 0)
dr_write_jump_lem_example = dr_write_jump_lem debug_module 3 (omega arith)

abbrev server : Server
server = record {
  sender = idle;
  operation_queue = [];
  extended_mode = false;
  fence_i_required = false;
  dpc = 0;
  software_breakpoints = λ a. none;
  hardware_breakpoints = [];
}

handle_packet_read_example :
    (t : Server) × (handle_packet (framed (read_request (8 ∷ 0 ∷ []) (4 ∷ []))) server ≡ some t
      × ((contents t.sender.send_buf ≡ contents idle.send_buf ++ 43 ∷ [])
          × (t.operation_queue
              ≡ []
                ++ collect_translation_info (number 0 (8 ∷ 0 ∷ [])) (number 0 (4 ∷ []))
                  ∷ memory_read (number 0 (8 ∷ 0 ∷ [])) (number 0 (4 ∷ [])) none
                  ∷ [])))
unfolding IsDigits
handle_packet_read_example =
    handle_packet_read (8 ∷ 0 ∷ []) (4 ∷ []) server (omega arith, (omega arith, tt))
      (omega arith, tt) (omega arith) (omega arith) idle-IsValid (omega (arith, size-idle))
