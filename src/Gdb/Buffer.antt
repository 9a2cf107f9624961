-- ===== src/Gdb/Buffer.antt =====
-- `circular_buffer_t` of riscv/gdbserver.h and riscv/gdbserver.cc. `data` is an array, and its indices
-- are of 32 bits.
pub mod Place
pub mod Append
pub mod Queue
pub mod Contents
use spike.Base.{
  ℕ, ◌+◌, ◌-◌, ◌%◌, ◌^◌, min, Bool, true, false, ◌&&◌, ltb, leb, ◌==◌, if◌then◌else◌, Option, none,
  some, List, length, get_or,
}

pub record Buffer : Type 0 where
  pub elements : ℕ → ℕ
  pub start : ℕ
  pub end : ℕ
  pub capacity : ℕ

abbrev pub add32 : ℕ → ℕ → ℕ
add32 a b = (a + b) % 2 ^ 32

-- The constructor; the memory is as it is found.
abbrev pub make : (ℕ → ℕ) → ℕ → Buffer
make elements capacity = record { elements = elements; start = 0; end = 0; capacity = capacity }

unfoldable pub size : Buffer → ℕ
size b = if leb b.start b.end then b.end - b.start else b.end + b.capacity - b.start

unfoldable pub empty : Buffer → Bool
empty b = b.start == b.end

unfoldable pub full : Buffer → Bool
full b = add32 b.end 1 % b.capacity == b.start

-- `entry` and `operator[]`
unfoldable pub entry : Buffer → ℕ → ℕ
entry b index = b.elements (add32 b.start index % b.capacity)

unfoldable pub contiguous_empty_size : Buffer → ℕ
contiguous_empty_size b =
    if leb b.start b.end
    then (if b.start == 0 then b.capacity - b.end - 1 else b.capacity - b.end)
    else b.start - b.end - 1

unfoldable pub contiguous_data_size : Buffer → ℕ
contiguous_data_size b = if leb b.start b.end then b.end - b.start else b.capacity - b.start

-- `data_added`; `none` is the failed assertion.
unfoldable pub data_added : Buffer → ℕ → Option Buffer
data_added b bytes =
    let end = add32 b.end bytes in
    if leb end b.capacity
    then some (record b { end = if end == b.capacity then 0 else end })
    else none

unfoldable pub consume : Buffer → ℕ → Buffer
consume b bytes = record b { start = add32 b.start bytes % b.capacity }

unfoldable pub reset : Buffer → Buffer
reset b = record b { start = 0; end = 0 }

-- `memcpy` of `count` elements of `src`, from the index `from` on, to `contiguous_empty`.
unfoldable pub fill : Buffer → List ℕ → ℕ → ℕ → Buffer
fill b src from count = record b {
  elements = λ i.
      if leb b.end i && ltb i (b.end + count)
      then get_or src (from + (i - b.end)) 0
      else b.elements i;
}

unfoldable pub append_rest : Buffer → List ℕ → ℕ → ℕ → Option Buffer
append_rest b src copy count =
    if ltb 0 count
    then (if ltb count (contiguous_empty_size b)
        then data_added (fill b src copy count) count
        else none)
    else some b

unfoldable pub append_first : Buffer → List ℕ → ℕ → Option Buffer
append_first b src copy = elim (data_added (fill b src 0 copy) copy) [
  | none ↦ none
  | some filled ↦ append_rest filled src copy (length src - copy)
]

unfoldable pub append : Buffer → List ℕ → Option Buffer
append b src = append_first b src (min (length src) (contiguous_empty_size b))
