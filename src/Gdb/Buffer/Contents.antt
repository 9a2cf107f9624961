-- ===== src/Gdb/Buffer/Contents.antt =====
-- The circular buffer of riscv/gdbserver.h as the list of its entries.
use native.Mathlib.Decide.{dec_lt}
use spike.Base.{
  ℕ, zero, suc, ◌+◌, ◌-◌, ◌<◌, ◌≤◌, ◌≡◌, ◌⊎◌, inl, inr, refl, sym, ap, ◌∙◌, arith, some, List, [],
  ◌∷◌, ◌++◌, length, get_or, drop,
}
use spike.Gdb.Buffer.Place.{IsValid, size_lem, slot_low, slot_high}
use spike.Gdb.Buffer.Queue.{Appended, append_lem}
use spike.Gdb.Buffer.{Buffer, size, entry, append, consume}

-- `count` values of a function.
abbrev pub read_off : (ℕ → ℕ) → ℕ → ℕ → List ℕ
read_off f i zero = []
read_off f i (suc count) = f i ∷ read_off f (suc i) count

-- The elements that are in the buffer, in the order in which they leave it.
unfoldable pub contents : Buffer → List ℕ
contents b = read_off (entry b) 0 (size b)

read_off_ext :
    (f g : ℕ → ℕ) (i j count : ℕ)
    → ((k : ℕ) → k < count → f (i + k) ≡ g (j + k))
    → read_off f i count ≡ read_off g j count
read_off_ext f g i j zero h = refl
read_off_ext f g i j (suc count) h =
    let first : f i ≡ g j =
      ap f {x = i} {y = i + 0} (omega arith)
      ∙ h 0 (omega arith)
      ∙ ap g {x = j + 0} {y = j} (omega arith) in
    let rest = read_off_ext f g (suc i) (suc j) count (λ k l.
      ap f {x = suc i + k} {y = i + suc k} (omega arith)
      ∙ h (suc k) (omega arith)
      ∙ ap g {x = j + suc k} {y = suc j + k} (omega arith)) in
    cc

read_off_add :
    (f : ℕ → ℕ) (i m n : ℕ) → read_off f i (m + n) ≡ read_off f i m ++ read_off f (i + m) n
read_off_add f i zero n =
    let e : 0 + n ≡ n = omega arith in let e' : i + 0 ≡ i = omega arith in rw e (rw e' refl)
read_off_add f i (suc m) n =
    let e : suc m + n ≡ suc (m + n) = omega arith in
    let e' : i + suc m ≡ suc i + m = omega arith in
    rw e (rw e' (ap (λ xs. f i ∷ xs) (read_off_add f (suc i) m n)))

length-read_off : (f : ℕ → ℕ) (i count : ℕ) → length (read_off f i count) ≡ count
length-read_off f i zero = refl
length-read_off f i (suc count) = ap suc (length-read_off f (suc i) count)

read_off_list :
    (f : ℕ → ℕ) (i : ℕ) (xs : List ℕ)
    → ((k : ℕ) → k < length xs → f (i + k) ≡ get_or xs k 0)
    → read_off f i (length xs) ≡ xs
read_off_list f i [] h = refl
read_off_list f i (x ∷ xs) h =
    let first : f i ≡ x = ap f {x = i} {y = i + 0} (omega arith) ∙ h 0 (omega arith) in
    let rest =
      read_off_list f (suc i) xs
        (λ k l. ap f {x = suc i + k} {y = i + suc k} (omega arith) ∙ h (suc k) (omega arith)) in
    cc

drop-read_off :
    (f : ℕ → ℕ) (i n count : ℕ) → drop n (read_off f i count) ≡ read_off f (i + n) (count - n)
drop-read_off f i zero count =
    let e : i + 0 ≡ i = omega arith in let e' : count - 0 ≡ count = omega arith in rw e (rw e' refl)
drop-read_off f i (suc n) zero = let e : 0 - suc n ≡ 0 = omega arith in rw e refl
drop-read_off f i (suc n) (suc count) =
    let e : suc count - suc n ≡ count - n = omega arith in
    let e' : i + suc n ≡ suc i + n = omega arith in rw e (rw e' (drop-read_off f (suc i) n count))

pub contents-Appended :
    (b c : Buffer) (src : List ℕ) → Appended b c src → contents c ≡ contents b ++ src
unfolding contents
contents-Appended b c src a =
    let old = read_off_ext (entry c) (entry b) 0 0 (size b) (λ i h.
      ap (entry c) {x = 0 + i} {y = i} (omega arith)
      ∙ a.old i h
      ∙ ap (entry b) {x = i} {y = 0 + i} (omega arith)) in
    let new =
      read_off_list (entry c) (0 + size b) src
        (λ i h. ap (entry c) {x = 0 + size b + i} {y = size b + i} (omega arith) ∙ a.new i h) in
    ap (read_off (entry c) 0) a.size_add
    ∙ read_off_add (entry c) 0 (size b) (length src)
    ∙ ap (λ xs. xs ++ read_off (entry c) (0 + size b) (length src)) old
    ∙ ap (λ ys. read_off (entry b) 0 (size b) ++ ys) new

pub length-contents : (b : Buffer) → length (contents b) ≡ size b
unfolding contents
length-contents b = length-read_off (entry b) 0 (size b)

-- An append that leaves room for one element more puts its elements behind those that are in the
-- buffer; it meets no assertion.
pub contents-append :
    (b : Buffer) (src : List ℕ)
    → IsValid b
    → size b + length src + 1 < b.capacity
    → (c : Buffer) × (append b src ≡ some c × (IsValid c × contents c ≡ contents b ++ src))
contents-append b src v room =
    let (c, (e, a)) = append_lem b src v room in (c, (e, (a.valid, contents-Appended b c src a)))

-- Where the start is after `n` elements are consumed.
consume_start :
    (b : Buffer) (n : ℕ)
    → IsValid b
    → n ≤ size b
    → ((consume b n).start ≡ b.start + n × b.start + n < b.capacity)
      ⊎ ((consume b n).start ≡ b.start + n - b.capacity
          × (b.capacity ≤ b.start + n × b.end < b.start))
unfolding consume
consume_start b n v h =
    let split = size_lem b v in
    elim (dec_lt (b.start + n) b.capacity) [
      | yes k ↦ inl (slot_low b n v k, k)
      | no k ↦ inr (slot_high b n v (ground arith) (omega arith), (omega arith, ground arith))
    ]

pub consume-IsValid : (b : Buffer) (n : ℕ) → IsValid b → n ≤ size b → IsValid (consume b n)
unfolding consume
consume-IsValid b n v h =
    let split = consume_start b n v h in
    record { start_in = ground arith; end_in = v.end_in; small = v.small }

pub consume-size : (b : Buffer) (n : ℕ) → IsValid b → n ≤ size b → size (consume b n) ≡ size b - n
unfolding consume
consume-size b n v h =
    let split = consume_start b n v h in
    let before = size_lem b v in
    let after = size_lem (consume b n) (consume-IsValid b n v h) in ground arith

entry-consume :
    (b : Buffer) (n i : ℕ) → IsValid b → n + i < size b → entry (consume b n) i ≡ entry b (n + i)
unfolding consume entry
entry-consume b n i v h =
    let c = consume b n in
    let v' = consume-IsValid b n v (omega arith) in
    let split = size_lem b v in
    ap b.elements (elim (consume_start b n v (omega arith)) [
      | inl (e, k) ↦ elim (dec_lt (b.start + n + i) b.capacity) [
        | yes k ↦
            let e1 = slot_low c i v' (omega arith) in
            let e2 = slot_low b (n + i) v (omega arith) in omega arith
        | no k ↦
            let e1 = slot_high c i v' (ground arith) (omega arith) in
            let e2 = slot_high b (n + i) v (ground arith) (omega arith) in omega arith
      ]
      | inr (e, (k, o)) ↦
          let e1 = slot_low c i v' (ground arith) in
          let e2 = slot_high b (n + i) v (ground arith) (omega arith) in omega arith
    ])

-- Of a valid buffer, consuming no more elements than it holds takes them from the front of its
-- contents, in their order, and leaves a valid buffer.
pub contents-consume :
    (b : Buffer) (n : ℕ)
    → IsValid b
    → n ≤ size b
    → IsValid (consume b n) × contents (consume b n) ≡ drop n (contents b)
unfolding contents
contents-consume b n v h = (
  consume-IsValid b n v h,
  (ap (read_off (entry (consume b n)) 0) (consume-size b n v h)
      ∙ read_off_ext (entry (consume b n)) (entry b) 0 (0 + n) (size b - n) (λ i k.
        ap (entry (consume b n)) {x = 0 + i} {y = i} (omega arith)
        ∙ entry-consume b n i v (omega arith)
        ∙ ap (entry b) {x = n + i} {y = 0 + n + i} (omega arith))
      ∙ sym (drop-read_off (entry b) 0 n (size b))),
)
