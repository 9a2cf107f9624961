-- ===== src/Gdb/Request/Delivery.antt =====
-- How a packet in the receive buffer of riscv/gdbserver.cc reaches its handler.
use mathlib.Core.List.{nil≢cons, head-eq_of_cons-eq, tail-eq_of_cons-eq}
use native.Mathlib.Decide.{dec_lt}
use spike.Base.{
  ℕ, zero, suc, ◌+◌, ◌-◌, ◌%◌, ◌<◌, ◌≡◌, refl, sym, ap, ◌∙◌, arith, Bool, true, false, some, List,
  [], ◌∷◌, ◌++◌, length, drop, length-append, inl, inr, Bool-cases,
}
use native.Mathlib.Nat.{mod-eq_of_lt, mod-eq-sub-mod}
use spike.Gdb.Buffer.{Buffer, add32, size, entry, empty, full, consume}
use spike.Gdb.Buffer.Place.{IsValid, size_lem}
use spike.Gdb.Buffer.Contents.{read_off, contents, length-contents, contents-consume}
use spike.Gdb.Request.{scan, requests, turn, process_requests}
use spike.Gdb.Request.Framed.{Lacks, Stands, scan_framed}

read_off-Stands :
    (b : Buffer) (i count : ℕ) (xs ys : List ℕ)
    → read_off (entry b) i count ≡ xs ++ ys
    → Stands b i xs
unfolding Stands
read_off-Stands b i count [] ys e = tt
read_off-Stands b i zero (x ∷ xs) ys e = absurd (nil≢cons e)
read_off-Stands b i (suc count) (x ∷ xs) ys e =
    (head-eq_of_cons-eq e, read_off-Stands b (suc i) count xs ys (tail-eq_of_cons-eq e))

drop_front : (xs ys : List ℕ) → drop (length xs) (xs ++ ys) ≡ ys
drop_front [] ys = refl
drop_front (x ∷ xs) ys = drop_front xs ys

-- A full buffer holds one element less than its capacity.
full_size : (b : Buffer) → IsValid b → full b ≡ true → size b + 1 ≡ b.capacity
unfolding full
full_size b v e =
    let l = size_lem b v in
    let e0 : add32 b.end 1 ≡ b.end + 1 = omega arith in
    elim (dec_lt (b.end + 1) b.capacity) [
      | yes h ↦
          let m = mod-eq_of_lt h in
          let at : (b.end + 1) % b.capacity ≡ b.start = ground arith in ground arith
      | no h ↦
          let m = mod-eq-sub-mod {n = b.end + 1} {m = b.capacity} (omega arith) in
          let z : b.end + 1 - b.capacity ≡ 0 = omega arith in
          let m' : (b.end + 1 - b.capacity) % b.capacity ≡ 0 = rw z (mod-eq_of_lt (ground arith)) in
          let at : (b.end + 1) % b.capacity ≡ b.start = ground arith in ground arith
    ]

size_lt : (b : Buffer) → IsValid b → size b < b.capacity
size_lt b v = let l = size_lem b v in ground arith

-- Of a buffer that holds two elements less it is false.
not_full : (b : Buffer) → IsValid b → size b + 1 < b.capacity → full b ≡ false
not_full b v h = elim (Bool-cases (full b)) [
  | inl e ↦ let n = full_size b v e in absurd (omega arith)
  | inr e ↦ e
]

empty_size : (b : Buffer) → IsValid b → 0 < size b → empty b ≡ false
unfolding empty
empty_size b v h = let l = size_lem b v in ground arith

module _ {S : Type 0} (handle_packet : List ℕ → S → S) (handle_interrupt : S → S)
    (expect_ack : S → Bool) (b : Buffer) (s : S) (msg : List ℕ) (high low : ℕ) (rest : List ℕ) where
  abbrev packet : List ℕ
  packet = 36 ∷ msg ++ 35 ∷ high ∷ low ∷ []

  size_packet : contents b ≡ packet ++ rest → size b ≡ length msg + 4 + length rest
  size_packet e =
      sym (length-contents b)
      ∙ ap length e
      ∙ omega (arith, length-append packet rest, length-append msg (35 ∷ high ∷ low ∷ []))

  requests_lem :
      (fuel : ℕ)
      → IsValid b
      → contents b ≡ packet ++ rest
      → Lacks 35 msg
      → Lacks 36 msg
      → Lacks 36 (high ∷ low ∷ [])
      → requests handle_packet handle_interrupt expect_ack (suc fuel) b s
        ≡ (consume b (length msg + 4), handle_packet packet s)
  unfolding requests turn contents
  requests_lem fuel v e h k l =
      let n = size_packet e in
      let filled = empty_size b v (omega arith) in
      let found =
        ap (scan b (expect_ack s) [] 0) n
        ∙ scan_framed b (expect_ack s) msg high low (length rest) h k l
            (read_off-Stands b 0 (size b) packet rest e) in
      rw (filled, requests) (rw (found, requests) refl)

  -- A packet at the front of the receive buffer is handed over whole, and the bytes behind it stay for
  -- the next call. Its data is without `$` and `#`, and its two last bytes are not `$`.
  pub process_requests_lem :
      IsValid b
      → contents b ≡ packet ++ rest
      → Lacks 35 msg
      → Lacks 36 msg
      → Lacks 36 (high ∷ low ∷ [])
      → (c : Buffer) × (process_requests handle_packet handle_interrupt expect_ack b s
            ≡ some (c, handle_packet packet s)
          × (IsValid c × contents c ≡ rest))
  unfolding process_requests consume
  process_requests_lem v e h k l =
      let n = size_packet e in
      let c = consume b (length msg + 4) in
      let (v', e') = contents-consume b (length msg + 4) v (omega arith) in
      let n' : length packet ≡ length msg + 4 =
        omega (arith, length-append msg (35 ∷ high ∷ low ∷ [])) in
      let left : contents c ≡ rest =
        e'
        ∙ ap (drop (length msg + 4)) e
        ∙ ap (λ n. drop n (packet ++ rest)) (sym n')
        ∙ drop_front packet rest in
      let some_room : full c ≡ false =
        let m = sym (length-contents c) ∙ ap length left in
        let below = size_lt b v in not_full c v' (omega arith) in
      let turns : size b ≡ suc (length msg + 3 + length rest) = omega arith in
      let run =
        ap (λ n. requests handle_packet handle_interrupt expect_ack n b s) turns
        ∙ requests_lem (length msg + 3 + length rest) v e h k l in
      (c, (rw (run, process_requests) (rw (some_room, process_requests) refl), (v', left)))
