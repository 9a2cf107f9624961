-- ===== src/Gdb/Server/Memory.antt =====
-- A request for memory, as gdb writes it, and what riscv/gdbserver.cc makes of it.
use spike.Base.{
  ℕ, ◌+◌, ◌*◌, ◌%◌, ◌^◌, ◌<◌, ◌≤◌, ◌≡◌, refl, sym, ap, ◌∙◌, arith, true, false, ltb, ◌==◌, none,
  some, List, [], ◌∷◌, ◌++◌, map,
}
use mathlib.Core.List.{append_assoc}
use spike.Gdb.Buffer.{size}
use spike.Gdb.Buffer.Place.{IsValid}
use spike.Gdb.Buffer.Contents.{contents}
use spike.Gdb.Packet.{
  compute_checksum, extract_checksum, character_hex_value, hex_digit, send, hex_byte, sum,
  consume_hex_number, Sender,
}
use spike.Gdb.Packet.Framing.{framed, checksum_framed, hex_value-hex_digit, send_lem}
use spike.Gdb.Server.{
  collect_translation_info, memory_read, Server, add_operation, handle_memory_read,
}
use spike.Gdb.Server.Packets.{handle_packet, dispatch}

-- The number that hexadecimal digits make behind `value`.
abbrev pub number : ℕ → List ℕ → ℕ
number value [] = value
number value (d ∷ ds) = number (value * 16 + d) ds

unfoldable pub IsDigits : List ℕ → Type 0
IsDigits [] = Unit
IsDigits (d ∷ ds) = d < 16 × IsDigits ds

number-le : (value : ℕ) (ds : List ℕ) → value ≤ number value ds
number-le value [] = omega arith
number-le value (d ∷ ds) = let rest = number-le (value * 16 + d) ds in omega arith

-- Digits are read back, up to a byte that is none.
consume_hex_number_lem :
    (value : ℕ) (ds : List ℕ) (c : ℕ) (rest : List ℕ)
    → IsDigits ds
    → number value ds < 2 ^ 64
    → ltb 15 (character_hex_value c) ≡ true
    → consume_hex_number value (map hex_digit ds ++ c ∷ rest) ≡ (number value ds, c ∷ rest)
unfolding IsDigits
consume_hex_number_lem value [] c rest v h k = rw k refl
consume_hex_number_lem value (d ∷ ds) c rest (v, vs) h k =
    let e = hex_value-hex_digit d v in
    let room = number-le (value * 16 + d) ds in
    let shift : value * 2 ^ 4 % 2 ^ 64 + d ≡ value * 16 + d = omega arith in
    let small : ltb 15 d ≡ false = ground arith in
    rw e (rw small (rw shift (consume_hex_number_lem (value * 16 + d) ds c rest vs h k)))

abbrev pub read_request : List ℕ → List ℕ → List ℕ
read_request address len = 109 ∷ (map hex_digit address ++ 44 ∷ map hex_digit len)

handle_memory_read_lem :
    (address len tail : List ℕ) (s : Server)
    → IsDigits address
    → IsDigits len
    → number 0 address < 2 ^ 64
    → number 0 len < 2 ^ 32
    → handle_memory_read
        (36 ∷ 109 ∷ (map hex_digit address ++ 44 ∷ (map hex_digit len ++ 35 ∷ tail)))
        s
      ≡ some (
          add_operation
            (memory_read (number 0 address) (number 0 len) none)
            (add_operation (collect_translation_info (number 0 address) (number 0 len)) s))
unfolding handle_memory_read character_hex_value
handle_memory_read_lem address len tail s va vl ha hl =
    let e = consume_hex_number_lem 0 address 44 (map hex_digit len ++ 35 ∷ tail) va ha refl in
    let e' = consume_hex_number_lem 0 len 35 tail vl (omega arith) refl in
    let small : number 0 len % 2 ^ 32 ≡ number 0 len = omega arith in rw e (rw e' (rw small refl))

-- A good packet of this kind goes to its handler, behind the acknowledgement.
handle_packet_of :
    (xs : List ℕ) (s : Server) (sent : Sender)
    → compute_checksum (36 ∷ 109 ∷ xs) ≡ extract_checksum (36 ∷ 109 ∷ xs)
    → send s.sender (43 ∷ []) ≡ some sent
    → handle_packet (36 ∷ 109 ∷ xs) s
      ≡ handle_memory_read (36 ∷ 109 ∷ xs) (record s { sender = sent })
unfolding handle_packet dispatch
handle_packet_of xs s sent same e =
    let passes : (compute_checksum (36 ∷ 109 ∷ xs) == extract_checksum (36 ∷ 109 ∷ xs)) ≡ true =
      ground arith in
    rw passes (rw e refl)

-- Where the send buffer has room for two bytes more, a request for memory, written in hexadecimal
-- digits of an address below 2 ^ 64 and a length below 2 ^ 32, is acknowledged with one byte, and
-- the translation of the address and the read are queued behind what is queued.
pub handle_packet_read :
    (address len : List ℕ) (s : Server)
    → IsDigits address
    → IsDigits len
    → number 0 address < 2 ^ 64
    → number 0 len < 2 ^ 32
    → IsValid s.sender.send_buf
    → size s.sender.send_buf + 2 < s.sender.send_buf.capacity
    → (t : Server) × (handle_packet (framed (read_request address len)) s ≡ some t
        × ((contents t.sender.send_buf ≡ contents s.sender.send_buf ++ 43 ∷ [])
            × (t.operation_queue
                ≡ s.operation_queue
                  ++ collect_translation_info (number 0 address) (number 0 len)
                    ∷ memory_read (number 0 address) (number 0 len) none
                    ∷ [])))
handle_packet_read address len s va vl ha hl v room =
    let (sent, (e, (a, c))) = send_lem s.sender (43 ∷ []) v (omega arith) in
    let tail = hex_byte (sum 0 (read_request address len)) in
    let request : List ℕ =
      36 ∷ 109 ∷ (map hex_digit address ++ 44 ∷ (map hex_digit len ++ 35 ∷ tail)) in
    let shape : framed (read_request address len) ≡ request =
      ap (λ zs. 36 ∷ 109 ∷ zs)
        (append_assoc (map hex_digit address) (44 ∷ map hex_digit len) (35 ∷ tail)) in
    let same : compute_checksum request ≡ extract_checksum request =
      sym (ap compute_checksum shape)
      ∙ checksum_framed (read_request address len)
      ∙ ap extract_checksum shape in
    let told = record s { sender = sent } in
    (
      _,
      (
        ap (λ p. handle_packet p s) shape
            ∙ handle_packet_of (map hex_digit address ++ 44 ∷ (map hex_digit len ++ 35 ∷ tail)) s
                sent same e
            ∙ handle_memory_read_lem address len tail told va vl ha hl,
        (
          a.contents_add,
          append_assoc s.operation_queue
              (collect_translation_info (number 0 address) (number 0 len) ∷ [])
              (memory_read (number 0 address) (number 0 len) none ∷ []),
        ),
      ),
    )
