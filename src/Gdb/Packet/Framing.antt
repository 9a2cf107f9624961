-- ===== src/Gdb/Packet/Framing.antt =====
-- What the remote debugger of riscv/gdbserver.cc sends.
use mathlib.Core.List.{append_assoc}
use spike.Base.{
  ℕ, suc, ◌+◌, ◌-◌, ◌/◌, ◌%◌, ◌^◌, ◌<◌, ◌≡◌, refl, sym, ap, ◌∙◌, arith, true, length-append,
  get_or-append_back, some, List, [], ◌∷◌, ◌++◌, length, get_or, take,
}
use spike.Gdb.Buffer.{size}
use spike.Gdb.Buffer.Place.{IsValid}
use spike.Gdb.Buffer.Queue.{append_lem}
use spike.Gdb.Buffer.Contents.{contents, contents-Appended}
use spike.Gdb.Packet.{
  sum, compute_checksum, character_hex_value, extract_checksum, hex_digit, hex_byte, Sender, send,
  start_packet, end_packet, send_packet,
}

-- A packet with the data `msg`.
abbrev pub framed : List ℕ → List ℕ
framed msg = 36 ∷ msg ++ 35 ∷ hex_byte (sum 0 msg)

take_front : (xs ys : List ℕ) → take (length xs) (xs ++ ys) ≡ xs
take_front [] ys = refl
take_front (x ∷ xs) ys = ap (λ zs. x ∷ zs) (take_front xs ys)

sum-lt : (c : ℕ) (xs : List ℕ) → c < 2 ^ 8 → sum c xs < 2 ^ 8
sum-lt c [] h = h
sum-lt c (x ∷ xs) h = sum-lt ((c + x) % 2 ^ 8) xs (omega arith)

-- A digit is read back as its value.
pub hex_value-hex_digit : (n : ℕ) → n < 16 → character_hex_value (hex_digit n) ≡ n
unfolding character_hex_value
hex_value-hex_digit n h = ground arith

-- A packet passes the receiver's test.
compute_framed : (msg : List ℕ) → compute_checksum (framed msg) ≡ sum 0 msg
unfolding compute_checksum
compute_framed msg =
    let tail = 35 ∷ hex_byte (sum 0 msg) in
    let n : suc (length (msg ++ tail)) - 4 ≡ length msg = omega (arith, length-append msg tail) in
    ap (λ n. sum 0 (take n (msg ++ tail))) n ∙ ap (sum 0) (take_front msg tail)

extract_framed : (msg : List ℕ) → extract_checksum (framed msg) ≡ sum 0 msg
unfolding extract_checksum
extract_framed msg =
    let checksum = sum 0 msg in
    let tail = 35 ∷ hex_byte checksum in
    let n1 : suc (length (msg ++ tail)) - 1 ≡ suc (length msg) + 2 =
      omega (arith, length-append msg tail) in
    let n2 : suc (length (msg ++ tail)) - 2 ≡ suc (length msg) + 1 =
      omega (arith, length-append msg tail) in
    let low = ap (λ n. get_or (framed msg) n 0) n1 ∙ get_or-append_back (36 ∷ msg) tail 2 0 in
    let high = ap (λ n. get_or (framed msg) n 0) n2 ∙ get_or-append_back (36 ∷ msg) tail 1 0 in
    let l = ap character_hex_value low ∙ hex_value-hex_digit (checksum % 16) (omega arith) in
    let h = ap character_hex_value high ∙ hex_value-hex_digit (checksum / 16 % 16) (omega arith) in
    let small = sum-lt 0 msg (omega arith) in rw l (rw h (omega arith))

pub checksum_framed : (msg : List ℕ) → compute_checksum (framed msg) ≡ extract_checksum (framed msg)
checksum_framed msg = compute_framed msg ∙ sym (extract_framed msg)

-- What a sender that has sent `msg` has become.
pub record Sent (s t : Sender) (msg : List ℕ) : Type 0 where
  pub valid : IsValid t.send_buf
  pub capacity_lem : t.send_buf.capacity ≡ s.send_buf.capacity
  pub size_add : size t.send_buf ≡ size s.send_buf + length msg
  pub contents_add : contents t.send_buf ≡ contents s.send_buf ++ msg

-- `send` puts its bytes behind what is to be sent.
pub send_lem :
    (s : Sender) (msg : List ℕ)
    → IsValid s.send_buf
    → size s.send_buf + length msg + 1 < s.send_buf.capacity
    → (t : Sender) × (send s msg ≡ some t
        × (Sent s t msg × t.running_checksum ≡ sum s.running_checksum msg))
unfolding send
send_lem s msg v room =
    let (c, (e, a)) = append_lem s.send_buf msg v room in
    (
      record s { send_buf = c; running_checksum = sum s.running_checksum msg },
      (
        rw (e, send) refl,
        (
          record {
            valid = a.valid;
            capacity_lem = a.capacity_lem;
            size_add = a.size_add;
            contents_add = contents-Appended s.send_buf c msg a;
          },
          refl,
        ),
      ),
    )

-- The calls of `send_packet`.
send_packet_of :
    (s s1 s2 s3 : Sender) (msg : List ℕ)
    → send s (36 ∷ []) ≡ some s1
    → send (record s1 { running_checksum = 0 }) msg ≡ some s2
    → send s2 (35 ∷ hex_byte s2.running_checksum) ≡ some s3
    → send_packet s msg ≡ some (record s3 { expect_ack = true })
unfolding send_packet start_packet end_packet
send_packet_of s s1 s2 s3 msg e1 e2 e3 =
    rw (e1, start_packet, send_packet)
      (rw (e2, send_packet) (rw (e3, end_packet, send_packet) refl))

-- A packet is sent whole where there is room for it and one byte more. It passes the test by which a
-- receiver of the protocol knows it, and an acknowledgement is awaited.
pub send_packet_lem :
    (s : Sender) (msg : List ℕ)
    → IsValid s.send_buf
    → size s.send_buf + length msg + 5 < s.send_buf.capacity
    → (t : Sender) × (send_packet s msg ≡ some t
        × (IsValid t.send_buf
            × ((contents t.send_buf ≡ contents s.send_buf ++ framed msg)
                × ((compute_checksum (framed msg) ≡ extract_checksum (framed msg))
                    × t.expect_ack ≡ true))))
send_packet_lem s msg v room =
    let (s1, (e1, (a1, c1))) = send_lem s (36 ∷ []) v (omega arith) in
    let started = record s1 { running_checksum = 0 } in
    let l1 = a1.size_add in
    let k1 = a1.capacity_lem in
    let (s2, (e2, (a2, c2))) = send_lem started msg a1.valid (omega arith) in
    let l2 = a2.size_add in
    let k2 = a2.capacity_lem in
    let tail = 35 ∷ hex_byte s2.running_checksum in
    let (s3, (e3, (a3, c3))) = send_lem s2 tail a2.valid (omega arith) in
    let all =
      a3.contents_add
      ∙ ap (λ xs. xs ++ tail) (a2.contents_add ∙ ap (λ xs. xs ++ msg) a1.contents_add)
      ∙ append_assoc (contents s.send_buf ++ 36 ∷ []) msg tail
      ∙ append_assoc (contents s.send_buf) (36 ∷ []) (msg ++ tail)
      ∙ ap (λ c. contents s.send_buf ++ (36 ∷ msg ++ 35 ∷ hex_byte c)) c2 in
    (
      record s3 { expect_ack = true },
      (send_packet_of s s1 s2 s3 msg e1 e2 e3, (a3.valid, (all, (checksum_framed msg, refl)))),
    )
