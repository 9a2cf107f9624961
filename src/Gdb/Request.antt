-- ===== src/Gdb/Request.antt =====
-- `gdbserver_t::process_requests` of riscv/gdbserver.cc: how the bytes that have arrived are told
-- apart. What the server does with a packet and with an interrupt are arguments, for a state `S` that
-- holds all of the server but the buffer.
pub mod Framed
pub mod Delivery
pub mod Turns
use spike.Base.{
  ℕ, zero, suc, ◌+◌, ◌-◌, Bool, true, false, ◌&&◌, not, leb, ◌==◌, if◌then◌else◌, Option, none,
  some, List, [], ◌∷◌, ◌++◌, length, get_or,
}
use spike.Gdb.Buffer.{Buffer, size, entry, empty, full, consume}

abbrev pub is_empty : List ℕ → Bool
is_empty [] = true
is_empty (x ∷ xs) = false

-- How the inner loop is left: at the end of the buffer with the bytes before it, or by a `break`.
pub data Scan : Type 0 where
  ended : List ℕ → Scan
  acknowledged : Scan
  interrupted : Scan
  malformed : ℕ → Scan
  request : List ℕ → ℕ → Scan

-- The inner loop at the index `i`, with `count` indices left.
unfoldable pub scan : Buffer → Bool → List ℕ → ℕ → ℕ → Scan
scan b expect_ack packet i zero = ended packet
scan b expect_ack packet i (suc count) =
    let byte = entry b i in
    let pushed = packet ++ byte ∷ [] in
    let rest = scan b expect_ack pushed (suc i) count in
    if is_empty packet && expect_ack && (byte == 43)
    then acknowledged
    else if is_empty packet && (byte == 3)
    then interrupted
    else if (byte == 36) && not (is_empty packet)
    then malformed i
    else if leb 4 (length pushed) && (get_or pushed (length pushed - 3) 0 == 35)
    then request pushed (i + 1)
    else rest

module _ {S : Type 0} (handle_packet : List ℕ → S → S) (handle_interrupt : S → S)
    (expect_ack : S → Bool) where
  -- What follows the inner loop: the next turn of the outer one, or its end.
  unfoldable pub turn : Scan → Buffer → S → Buffer × S → Buffer × S → Buffer × S → Buffer × S
  turn (ended packet) b s again acked after_interrupt = if is_empty packet then again else (b, s)
  turn acknowledged b s again acked after_interrupt = acked
  turn interrupted b s again acked after_interrupt = after_interrupt
  turn (malformed i) b s again acked after_interrupt = (consume b i, s)
  turn (request packet n) b s again acked after_interrupt = (consume b n, handle_packet packet s)

  -- The outer loop, at most `fuel` times.
  unfoldable pub requests : ℕ → Buffer → S → Buffer × S
  requests zero b s = (b, s)
  requests (suc fuel) b s =
      let acked = requests fuel (consume b 1) s in
      let after_interrupt = requests fuel (consume b 1) (handle_interrupt s) in
      let again = requests fuel b s in
      if empty b
      then (b, s)
      else turn (scan b (expect_ack s) [] 0 (size b)) b s again acked after_interrupt

  -- `none` is the failed assertion that the buffer is not full. Each turn of the loop that is
  -- followed by another one consumes a byte.
  unfoldable pub process_requests : Buffer → S → Option (Buffer × S)
  process_requests b s =
      let (left, after) = requests (size b) b s in if full left then none else some (left, after)
