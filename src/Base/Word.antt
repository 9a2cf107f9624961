-- ===== src/Base/Word.antt =====
-- Machine words as native numbers below `2 ^ w`: wrapping arithmetic, shifts and casts of C.
use Prim.Native.Nat.{ℕ, ◌+◌, ◌-◌, ◌*◌, ◌/◌, ◌%◌, ◌^◌, ◌≤◌, ◌<◌, bit_and, bit_or}
use mathlib.Core.Path.{◌≡◌, ◌∙◌, ap, sym}
use mathlib.Core.Bool.{Bool, true, false}
use native.Mathlib.Decide.{dec_lt}
use native.Mathlib.Omega.{arith}
use spike.Base.Bits.{
  bit, bit-mod, bit-shl, bit-shl_low, bit-le-one, bit-and, bit-or, bit-high, bit_complement,
  lt-pow_of_bits,
}
use spike.Base.Tests.{ltb, ◌==◌, if◌then◌else◌}

-- A value as a C condition, and a C condition as a value.
abbrev pub truth : ℕ → Bool
truth x = if x == 0 then false else true

abbrev pub from_bool : Bool → ℕ
from_bool true = 1
from_bool false = 0

-- uint64_t arithmetic. `-` on ℕ stops at 0, so the modulus is added first.
abbrev pub add64 : ℕ → ℕ → ℕ
add64 a b = (a + b) % 2 ^ 64

abbrev pub sub64 : ℕ → ℕ → ℕ
sub64 a b = (a + 2 ^ 64 - b) % 2 ^ 64

abbrev pub mul64 : ℕ → ℕ → ℕ
mul64 a b = a * b % 2 ^ 64

abbrev pub neg64 : ℕ → ℕ
neg64 a = (2 ^ 64 - a) % 2 ^ 64

-- `~x` of a word.
abbrev pub not64 : ℕ → ℕ
not64 x = 2 ^ 64 - 1 - x

abbrev pub all_ones : ℕ
all_ones = 2 ^ 64 - 1

abbrev pub shl64 : ℕ → ℕ → ℕ
shl64 x k = x * 2 ^ k % 2 ^ 64

abbrev pub shr : ℕ → ℕ → ℕ
shr x k = x / 2 ^ k

abbrev pub u32 : ℕ → ℕ
u32 x = x % 2 ^ 32

abbrev pub u8 : ℕ → ℕ
u8 x = x % 2 ^ 8

-- The bit patterns of int64_t: `>>` of a negative number shifts in ones.
abbrev pub is_negative : ℕ → Bool
is_negative x = if ltb x (2 ^ 63) then false else true

abbrev pub sra64 : ℕ → ℕ → ℕ
sra64 x k = if ltb x (2 ^ 63) then x / 2 ^ k else 2 ^ 64 - 1 - (2 ^ 64 - 1 - x) / 2 ^ k

-- `<` of int64_t, on bit patterns.
abbrev pub signed_lt : ℕ → ℕ → Bool
signed_lt a b = ltb ((a + 2 ^ 63) % 2 ^ 64) ((b + 2 ^ 63) % 2 ^ 64)

pub not64-bit : (x i : ℕ) → x < 2 ^ 64 → i < 64 → bit (not64 x) i + bit x i ≡ 1
not64-bit x i h p = bit_complement 64 x i h p

-- `(old & ~mask) | (val & mask)`: each digit comes from `val` where the mask has a one, else from `old`.
abbrev pub masked : ℕ → ℕ → ℕ → ℕ
masked old mask val = bit_or (bit_and old (not64 mask)) (bit_and val mask)

pub masked-bit_in :
    (old mask val i : ℕ) → mask < 2 ^ 64 → bit mask i ≡ 1 → bit (masked old mask val) i ≡ bit val i
masked-bit_in old mask val i m b = elim (dec_lt i 64) [
  | yes p ↦ omega (
    arith,
    bit-or (bit_and old (not64 mask)) (bit_and val mask) i,
    bit-and old (not64 mask) i,
    bit-and val mask i,
    not64-bit mask i m p,
    bit-le-one val i,
  )
  | no p ↦ absurd (omega (arith, bit-high 64 mask i m (omega arith)))
]

pub masked-bit_out :
    (old mask val i : ℕ)
    → mask < 2 ^ 64
    → old < 2 ^ 64
    → bit mask i ≡ 0
    → bit (masked old mask val) i ≡ bit old i
masked-bit_out old mask val i m o b = elim (dec_lt i 64) [
  | yes p ↦ omega (
    arith,
    bit-or (bit_and old (not64 mask)) (bit_and val mask) i,
    bit-and old (not64 mask) i,
    bit-and val mask i,
    not64-bit mask i m p,
    bit-le-one old i,
  )
  | no p ↦ omega (
    arith,
    bit-or (bit_and old (not64 mask)) (bit_and val mask) i,
    bit-and old (not64 mask) i,
    bit-and val mask i,
    bit-high 64 old i o (omega arith),
  )
]

pub masked-lt : (old mask val : ℕ) → mask < 2 ^ 64 → old < 2 ^ 64 → masked old mask val < 2 ^ 64
masked-lt old mask val m o = lt-pow_of_bits 64 _ λ i p. omega (
  arith,
  bit-or (bit_and old (not64 mask)) (bit_and val mask) i,
  bit-and old (not64 mask) i,
  bit-and val mask i,
  bit-high 64 old i o p,
  bit-high 64 mask i m p,
)

-- A left shift moves the digits up and drops those that leave the word.
pub shl64-bit : (k v i : ℕ) → i < 64 → k ≤ i → bit (shl64 v k) i ≡ bit v (i - k)
shl64-bit k v i p q =
    let e : i - k + k ≡ i = omega arith in
    bit-mod 64 (v * 2 ^ k) i p ∙ ap (bit (v * 2 ^ k)) (sym e) ∙ bit-shl k v (i - k)

pub shl64-bit_low : (k v i : ℕ) → i < 64 → i < k → bit (shl64 v k) i ≡ 0
shl64-bit_low k v i p q = bit-mod 64 (v * 2 ^ k) i p ∙ bit-shl_low k v i q
