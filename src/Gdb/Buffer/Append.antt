-- ===== src/Gdb/Buffer/Append.antt =====
-- An append to the circular buffer of riscv/gdbserver.h.
use spike.Base.{
  ℕ, ◌+◌, ◌-◌, ◌^◌, ◌<◌, ◌≤◌, ◌≡◌, refl, ap, ◌∙◌, arith, min, true, false, ltb, leb, ◌==◌, none,
  some, List, length,
}
use spike.Gdb.Buffer.Place.{IsValid, size_lem}
use spike.Gdb.Buffer.{
  Buffer, add32, size, contiguous_empty_size, data_added, fill, append_first, append_rest, append,
}

-- What is free behind the end.
pub empty_behind :
    (b : Buffer) → 0 < b.start → b.start ≤ b.end → contiguous_empty_size b ≡ b.capacity - b.end
unfolding contiguous_empty_size
empty_behind b h k = ground arith

pub empty_front : (b : Buffer) → b.start ≤ 0 → contiguous_empty_size b ≡ b.capacity - b.end - 1
unfolding contiguous_empty_size
empty_front b h = ground arith

pub empty_between : (b : Buffer) → b.end < b.start → contiguous_empty_size b ≡ b.start - b.end - 1
unfolding contiguous_empty_size
empty_between b h = ground arith

-- `data_added` inside the array, and at its end.
pub data_added_inside :
    (b : Buffer) (n last : ℕ)
    → b.capacity ≤ 2 ^ 31
    → b.end + n ≡ last
    → last < b.capacity
    → data_added b n ≡ some (record b { end = last })
unfolding data_added
data_added_inside b n last small l h =
    let e0 : add32 b.end n ≡ last = omega arith in
    let e1 : leb last b.capacity ≡ true = ground arith in
    let e2 : (last == b.capacity) ≡ false = ground arith in rw e0 (rw e1 (rw e2 refl))

pub data_added_end :
    (b : Buffer) (n : ℕ)
    → b.capacity ≤ 2 ^ 31
    → b.end + n ≡ b.capacity
    → data_added b n ≡ some (record b { end = 0 })
unfolding data_added
data_added_end b n small h =
    let e0 : add32 b.end n ≡ b.capacity = omega arith in
    let e1 : leb b.capacity b.capacity ≡ true = ground arith in
    let e2 : (b.capacity == b.capacity) ≡ true = ground arith in rw e0 (rw e1 (rw e2 refl))

-- An append in one piece, which leaves the end at `last`.
pub append_once :
    (b : Buffer) (src : List ℕ) (last : ℕ)
    → length src ≤ contiguous_empty_size b
    → data_added (fill b src 0 (length src)) (length src)
      ≡ some (record (fill b src 0 (length src)) { end = last })
    → append b src ≡ some (record (fill b src 0 (length src)) { end = last })
unfolding append append_first append_rest
append_once b src last h added =
    let e0 : min (length src) (contiguous_empty_size b) ≡ length src = omega arith in
    let e1 : ltb 0 (length src - length src) ≡ false = ground arith in
    ap (append_first b src) e0 ∙ rw (added, append_first) (rw e1 refl)

-- An append that goes round the end of the array.
abbrev pub turned : Buffer → List ℕ → Buffer
turned b src = record (fill b src 0 (b.capacity - b.end)) { end = 0 }

abbrev pub round_last : Buffer → List ℕ → Buffer
round_last b src =
    let n = length src - (b.capacity - b.end) in
    record (fill (turned b src) src (b.capacity - b.end) n) { end = n }

-- Its first piece fills the array to the end.
first_round :
    (b : Buffer) (src : List ℕ)
    → IsValid b
    → 0 < b.start
    → b.start ≤ b.end
    → b.capacity - b.end < length src
    → append b src
      ≡ append_rest (turned b src) src (b.capacity - b.end) (length src - (b.capacity - b.end))
unfolding append append_first fill
first_round b src v above order more =
    let e0 : min (length src) (contiguous_empty_size b) ≡ b.capacity - b.end =
      let e = empty_behind b above order in omega arith in
    let e1 : data_added (fill b src 0 (b.capacity - b.end)) (b.capacity - b.end)
        ≡ some (turned b src) =
      data_added_end (fill b src 0 (b.capacity - b.end)) (b.capacity - b.end) v.small
        (omega arith) in
    ap (append_first b src) e0 ∙ rw (e1, append_first) refl

pub append_round :
    (b : Buffer) (src : List ℕ)
    → IsValid b
    → 0 < b.start
    → b.start ≤ b.end
    → b.capacity - b.end < length src
    → size b + length src + 1 < b.capacity
    → append b src ≡ some (round_last b src)
unfolding append_rest fill
append_round b src v above order more room =
    let n = length src - (b.capacity - b.end) in
    let split = size_lem b v in
    let e2 : ltb n (contiguous_empty_size (turned b src)) ≡ true =
      let e = empty_between (turned b src) above in ground arith in
    let e3 : ltb 0 n ≡ true = ground arith in
    let e4 : data_added (fill (turned b src) src (b.capacity - b.end) n) n
        ≡ some (round_last b src) =
      data_added_inside (fill (turned b src) src (b.capacity - b.end) n) n n v.small (omega arith)
        (ground arith) in
    first_round b src v above order more ∙ rw (e3, append_rest) (rw (e2, append_rest) e4)

-- In a valid buffer whose data starts at 2 or later and does not wrap, an append of as many elements
-- as make capacity - 1 with those that are there fails an assertion.
pub append-none :
    (b : Buffer) (src : List ℕ)
    → IsValid b
    → 2 ≤ b.start
    → b.start ≤ b.end
    → size b + length src + 1 ≡ b.capacity
    → append b src ≡ none
unfolding append_rest fill
append-none b src v above order room =
    let n = length src - (b.capacity - b.end) in
    let split = size_lem b v in
    let e2 : ltb n (contiguous_empty_size (turned b src)) ≡ false =
      let e = empty_between (turned b src) (omega arith) in ground arith in
    let e3 : ltb 0 n ≡ true = ground arith in
    first_round b src v (omega arith) order (ground arith)
    ∙ rw (e3, append_rest) (rw (e2, append_rest) refl)
