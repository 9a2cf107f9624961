-- ===== src/Gdb/Buffer/Queue.antt =====
-- The circular buffer of riscv/gdbserver.h as a queue.
use native.Mathlib.Decide.{dec_lt, dec_le}
use spike.Base.{
  ℕ, ◌+◌, ◌-◌, ◌<◌, ◌≤◌, ◌≡◌, ◌⊎◌, inl, inr, refl, ap, ◌∙◌, arith, some, List, length, get_or,
}
use spike.Gdb.Buffer.Place.{
  IsValid, size_lem, slot_low, place_old, place_new_low, place_new_high, fill_inside, fill_below,
  fill_above,
}
use spike.Gdb.Buffer.Append.{
  turned, round_last, append_once, append_round, empty_behind, empty_front, empty_between,
  data_added_inside, data_added_end,
}
use spike.Gdb.Buffer.{Buffer, size, entry, contiguous_empty_size, fill, append}

-- What an append leaves: the old entries, and behind them the new.
pub record Appended (b c : Buffer) (src : List ℕ) : Type 0 where
  pub valid : IsValid c
  pub capacity_lem : c.capacity ≡ b.capacity
  pub size_add : size c ≡ size b + length src
  pub old : (i : ℕ) → i < size b → entry c i ≡ entry b i
  pub new : (i : ℕ) → i < length src → entry c (size b + i) ≡ get_or src i 0

-- Where an append in one piece may leave the end.
Last : Buffer → ℕ → ℕ → Type 0
Last b n last =
    (last ≡ b.end + n × last < b.capacity)
    ⊎ (last ≡ 0 × (b.end + n ≡ b.capacity × (b.start ≤ b.end × 0 < b.start)))

module _ (b : Buffer) (src : List ℕ) (last : ℕ) (v : IsValid b)
    (room : size b + length src < b.capacity) where
  abbrev once : Buffer
  once = record (fill b src 0 (length src)) { end = last }

  once-IsValid : Last b (length src) last → IsValid once
  unfolding fill Last
  once-IsValid l = record {
    start_in = v.start_in;
    end_in = elim l [ inl (e, k) ↦ k | inr (e, k) ↦ omega arith ];
    small = v.small;
  }

  once-size : Last b (length src) last → size once ≡ size b + length src
  unfolding fill Last
  once-size l =
      let after = size_lem once (once-IsValid l) in let before = size_lem b v in ground arith

  once-old : (i : ℕ) → i < size b → entry once i ≡ entry b i
  unfolding entry fill
  once-old i h = elim (place_old b i v h) [
    | inl k ↦ fill_below b src 0 (length src) _ k
    | inr (o, k) ↦
        fill_above b src 0 (length src) _
          (elim (size_lem b v) [ inl (p, e) ↦ omega arith | inr (p, e) ↦ omega arith ])
  ]

  once-new :
      Last b (length src) last → (i : ℕ) → i < length src → entry once (size b + i) ≡ get_or src i 0
  unfolding fill Last entry
  once-new l i h =
      let inside : b.end + i < b.capacity = elim l [
        | inl (e, k) ↦ omega arith
        | inr (e, (k, o)) ↦ omega arith
      ] in
      ap (fill b src 0 (length src)).elements (place_new_low b i v inside (omega arith))
      ∙ fill_inside b src 0 (length src) _ i (omega arith) (omega arith) (omega arith)

  once-Appended : Last b (length src) last → Appended b once src
  unfolding fill
  once-Appended l = record {
    valid = once-IsValid l;
    capacity_lem = refl;
    size_add = once-size l;
    old = once-old;
    new = once-new l;
  }

module _ (b : Buffer) (src : List ℕ) (v : IsValid b) (above : 0 < b.start) (order : b.start ≤ b.end)
    (more : b.capacity - b.end < length src) (room : size b + length src < b.capacity) where
  straight : size b ≡ b.end - b.start
  straight = elim (size_lem b v) [ inl (p, e) ↦ e | inr (p, e) ↦ omega arith ]

  round_last-IsValid : IsValid (round_last b src)
  unfolding fill
  round_last-IsValid =
      let e = straight in record { start_in = v.start_in; end_in = omega arith; small = v.small }

  round_last-size : size (round_last b src) ≡ size b + length src
  unfolding fill
  round_last-size =
      let after = size_lem (round_last b src) round_last-IsValid in
      let before = straight in ground arith

  round_last-old : (i : ℕ) → i < size b → entry (round_last b src) i ≡ entry b i
  unfolding entry fill
  round_last-old i h =
      let e = straight in
      elim (place_old b i v h) [
        | inl k ↦
            let e' = slot_low b i v (omega arith) in
            fill_above (turned b src) src _ _ _ (omega arith) ∙ fill_below b src 0 _ _ k
        | inr (o, k) ↦ omega arith
      ]

  round_last-new : (i : ℕ) → i < length src → entry (round_last b src) (size b + i) ≡ get_or src i 0
  unfolding fill entry
  round_last-new i h =
      let e = straight in
      let b' = turned b src in
      elim (dec_lt (b.end + i) b.capacity) [
        | yes k ↦
            ap (round_last b src).elements (place_new_low b i v k (omega arith))
            ∙ fill_above b' src (b.capacity - b.end) (length src - (b.capacity - b.end)) (b.end + i)
                (omega arith)
            ∙ fill_inside b src 0 (b.capacity - b.end) (b.end + i) i (omega arith) (omega arith)
                (omega arith)
        | no k ↦
            ap (round_last b src).elements (place_new_high b i v (omega arith) (omega arith))
            ∙ fill_inside b' src (b.capacity - b.end) (length src - (b.capacity - b.end))
                (b.end + i - b.capacity) i (omega arith) (omega arith) (omega arith)
      ]

  round_last-Appended : Appended b (round_last b src) src
  unfolding fill
  round_last-Appended = record {
    valid = round_last-IsValid;
    capacity_lem = refl;
    size_add = round_last-size;
    old = round_last-old;
    new = round_last-new;
  }

-- An append in one piece, inside the array or up to its end.
once_inside :
    (b : Buffer) (src : List ℕ)
    → IsValid b
    → size b + length src < b.capacity
    → length src ≤ contiguous_empty_size b
    → b.end + length src < b.capacity
    → (c : Buffer) × (append b src ≡ some c × Appended b c src)
unfolding Last fill
once_inside b src v room fits l =
    let n = length src in
    let added = data_added_inside (fill b src 0 n) n (b.end + n) v.small refl l in
    (
      _,
      (
        append_once b src (b.end + n) fits added,
        once-Appended b src (b.end + n) v room (inl (refl, l)),
      ),
    )

once_end :
    (b : Buffer) (src : List ℕ)
    → IsValid b
    → size b + length src < b.capacity
    → length src ≤ contiguous_empty_size b
    → 0 < b.start
    → b.start ≤ b.end
    → b.end + length src ≡ b.capacity
    → (c : Buffer) × (append b src ≡ some c × Appended b c src)
unfolding Last fill
once_end b src v room fits above order l =
    let n = length src in
    let added = data_added_end (fill b src 0 n) n v.small l in
    (
      _,
      (
        append_once b src 0 fits added,
        once-Appended b src 0 v room (inr (refl, (l, (order, above)))),
      ),
    )

-- With one element to spare an append keeps the queue and puts the new elements behind it.
pub append_lem :
    (b : Buffer) (src : List ℕ)
    → IsValid b
    → size b + length src + 1 < b.capacity
    → (c : Buffer) × (append b src ≡ some c × Appended b c src)
append_lem b src v room = elim (size_lem b v) [
  | inr (turn, s) ↦
      let e = empty_between b turn in once_inside b src v (omega arith) (omega arith) (omega arith)
  | inl (order, s) ↦ elim (dec_lt 0 b.start) [
    | no zero_start ↦
        let e = empty_front b (omega arith) in
        once_inside b src v (omega arith) (omega arith) (omega arith)
    | yes above ↦
        let e = empty_behind b above order in
        elim (dec_lt (b.end + length src) b.capacity) [
          | yes l ↦ once_inside b src v (omega arith) (omega arith) l
          | no l ↦ elim (dec_le (b.end + length src) b.capacity) [
            | yes l' ↦ once_end b src v (omega arith) (omega arith) above order (omega arith)
            | no more ↦ (
              round_last b src,
              (
                append_round b src v above order (omega arith) room,
                round_last-Appended b src v above order (omega arith) (omega arith),
              ),
            )
          ]
        ]
  ]
]
