-- ===== src/Gdb/Packet.antt =====
-- The packets of the remote protocol, of riscv/gdbserver.cc: `$`, the data, `#`, and two digits of a
-- sum of the data. A packet is the list of its bytes.
pub mod Framing
use spike.Base.{
  ℕ, zero, suc, ◌+◌, ◌-◌, ◌*◌, ◌/◌, ◌%◌, ◌^◌, bit_or, Bool, true, false, ◌&&◌, not, ltb, leb, ◌==◌,
  if◌then◌else◌, Option, none, some, List, [], ◌∷◌, ◌++◌, length, get_or, take, drop, shl64,
}
use spike.Gdb.Buffer.{Buffer, size, entry, empty, full, consume, append}

-- `checksum += byte`, of 8 bits.
abbrev pub sum : ℕ → List ℕ → ℕ
sum checksum [] = checksum
sum checksum (byte ∷ bytes) = sum ((checksum + byte) % 2 ^ 8) bytes

unfoldable pub compute_checksum : List ℕ → ℕ
compute_checksum packet = sum 0 (take (length packet - 4) (drop 1 packet))

unfoldable pub character_hex_value : ℕ → ℕ
character_hex_value character =
    if leb 48 character && leb character 57
    then character - 48
    else if leb 97 character && leb character 102
    then 10 + character - 97
    else if leb 65 character && leb character 70
    then 10 + character - 65
    else 255

unfoldable pub extract_checksum : List ℕ → ℕ
extract_checksum packet =
    (character_hex_value (get_or packet (length packet - 1) 0)
      + 16 * character_hex_value (get_or packet (length packet - 2) 0))
    % 2 ^ 8

-- `sprintf` of a byte with `%02x`.
abbrev pub hex_digit : ℕ → ℕ
hex_digit n = if ltb n 10 then 48 + n else 87 + n

abbrev pub hex_byte : ℕ → List ℕ
hex_byte n = hex_digit (n / 16 % 16) ∷ hex_digit (n % 16) ∷ []

-- The sending half of the server.
pub record Sender : Type 0 where
  pub send_buf : Buffer
  pub running_checksum : ℕ
  pub expect_ack : Bool

-- `send` of a string.
unfoldable pub send : Sender → List ℕ → Option Sender
send s msg = elim (append s.send_buf msg) [
  | none ↦ none
  | some buf ↦ some (record s { send_buf = buf; running_checksum = sum s.running_checksum msg })
]

-- `send` of a number: `count` bytes, the lowest first.
unfoldable pub send_value : ℕ → Sender → ℕ → Option Sender
send_value zero s value = some s
send_value (suc count) s value = elim (send s (hex_byte (value % 2 ^ 8))) [
  | none ↦ none
  | some s' ↦ send_value count s' (value / 2 ^ 8)
]

unfoldable pub start_packet : Sender → Option Sender
start_packet s = elim (send s (36 ∷ [])) [
  | none ↦ none
  | some s' ↦ some (record s' { running_checksum = 0 })
]

-- `end_packet`; it is called without data here.
unfoldable pub end_packet : Sender → Option Sender
end_packet s = elim (send s (35 ∷ hex_byte s.running_checksum)) [
  | none ↦ none
  | some s' ↦ some (record s' { expect_ack = true })
]

unfoldable pub send_packet : Sender → List ℕ → Option Sender
send_packet s msg = elim (start_packet s) [
  | none ↦ none
  | some started ↦ elim (send started msg) [
    | none ↦ none
    | some sent ↦ elim (end_packet sent) [
      | none ↦ none
      | some ended ↦ some (record ended { expect_ack = true })
    ]
  ]
]

-- The value that a number's digits make, the first the highest, and what is left of the packet.
abbrev pub consume_hex_number : ℕ → List ℕ → ℕ × List ℕ
consume_hex_number value [] = (value, [])
consume_hex_number value (c ∷ rest) =
    let more = consume_hex_number ((value * 2 ^ 4) % 2 ^ 64 + character_hex_value c) rest in
    if ltb 15 (character_hex_value c) then (value, c ∷ rest) else more

-- `consume_hex_number_le`: the bytes are in the opposite order, the digits of a byte are not.
-- The report of a number that is too long is not kept.
abbrev pub consume_hex_number_le : ℕ → ℕ → List ℕ → ℕ × List ℕ
consume_hex_number_le value shift [] = (value, [])
consume_hex_number_le value shift (c ∷ rest) =
    let more =
      consume_hex_number_le (bit_or value (shl64 (character_hex_value c) shift))
        (if shift % 8 == 0 then shift + 12 else shift - 4) rest in
    if ltb 15 (character_hex_value c) then (value, c ∷ rest) else more

-- `consume_string`.
abbrev pub consume_string : ℕ → List ℕ → List ℕ × List ℕ
consume_string separator [] = ([], [])
consume_string separator (c ∷ rest) =
    let (str, left) = consume_string separator rest in
    if c == separator then ([], c ∷ rest) else (c ∷ str, left)
