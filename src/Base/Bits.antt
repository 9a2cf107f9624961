-- ===== src/Base/Bits.antt =====
-- Binary digits of native numbers. `bit x i` is digit `i` of `x`; each bit operation is described
-- by its digits, and numbers with the same digits are equal.
mod Digits
use Prim.Native.Nat.{
  ℕ, zero, suc, ◌+◌, ◌-◌, ◌*◌, ◌/◌, ◌%◌, ◌^◌, ◌≤◌, ◌<◌, min, max, bit_and, bit_or, bit_xor, differ,
}
use mathlib.Core.Logic.{◌≢◌}
use mathlib.Core.Path.{◌≡◌, refl, ◌∙◌, sym, ap}
use native.Mathlib.Nat.{
  pow-suc, pow-succ', one-le-pow, div-div-eq-div-mul, div-one, mul-add-mod_self_right, mod-eq_of_lt,
  mod-lt, div-add-mod', le_trans,
}
use native.Mathlib.Decide.{dec_lt}
use native.Mathlib.Omega.{arith}
use Digits.{and-low, or-low, xor-low}

pub bit : ℕ → ℕ → ℕ
bit x zero = x % 2
bit x (suc i) = bit (x / 2) i

pub bit-le-one : (x i : ℕ) → bit x i ≤ 1
unfolding bit
bit-le-one x zero = omega arith
bit-le-one x (suc i) = bit-le-one (x / 2) i

pub bit-zero : (i : ℕ) → bit 0 i ≡ 0
unfolding bit
bit-zero zero = refl
bit-zero (suc i) = bit-zero i

-- The digits of the three operations.
pub bit-and : (a b i : ℕ) → bit (bit_and a b) i ≡ min (bit a i) (bit b i)
unfolding bit
bit-and a b zero = omega (arith, and-low a b)
bit-and a b (suc i) = ap (λ t. bit t i) (omega (arith, and-low a b)) ∙ bit-and (a / 2) (b / 2) i

pub bit-or : (a b i : ℕ) → bit (bit_or a b) i ≡ max (bit a i) (bit b i)
unfolding bit
bit-or a b zero = omega (arith, or-low a b)
bit-or a b (suc i) = ap (λ t. bit t i) (omega (arith, or-low a b)) ∙ bit-or (a / 2) (b / 2) i

pub bit-xor : (a b i : ℕ) → bit (bit_xor a b) i ≡ (bit a i + bit b i) % 2
unfolding bit
bit-xor a b zero = omega (arith, xor-low a b)
bit-xor a b (suc i) = ap (λ t. bit t i) (omega (arith, xor-low a b)) ∙ bit-xor (a / 2) (b / 2) i

-- Numbers with the same digits are equal.
bit_ext_below : (n a b : ℕ) → a ≤ n → b ≤ n → ((i : ℕ) → bit a i ≡ bit b i) → a ≡ b
unfolding bit
bit_ext_below zero a b p q h = omega arith
bit_ext_below (suc n) a b p q h =
    let low : a % 2 ≡ b % 2 = h 0 in
    omega (arith, bit_ext_below n (a / 2) (b / 2) (omega arith) (omega arith) (λ i. h (suc i)))

pub bit_ext : (a b : ℕ) → ((i : ℕ) → bit a i ≡ bit b i) → a ≡ b
bit_ext a b = bit_ext_below (max a b) a b (omega arith) (omega arith)

-- A number below `2 ^ n` has no digit from `n` on, and the other way round.
pub bit-high : (n x i : ℕ) → x < 2 ^ n → n ≤ i → bit x i ≡ 0
unfolding bit
bit-high zero x i h p = let e : x ≡ 0 = omega arith in rw e (bit-zero i)
bit-high (suc n) x zero h p = absurd (omega arith)
bit-high (suc n) x (suc i) h p = bit-high n (x / 2) i (omega (arith, pow-suc 2 n)) (omega arith)

pub lt-pow_of_bits : (n x : ℕ) → ((i : ℕ) → n ≤ i → bit x i ≡ 0) → x < 2 ^ n
unfolding bit
lt-pow_of_bits zero x h =
    let e : x ≡ 0 = bit_ext x 0 (λ i. h i (omega arith) ∙ sym (bit-zero i)) in omega arith
lt-pow_of_bits (suc n) x h =
    omega (arith, pow-suc 2 n, lt-pow_of_bits n (x / 2) (λ i p. h (suc i) (omega arith)))

-- Shifts move the digits.
pub bit-shr : (k x i : ℕ) → bit (x / 2 ^ k) i ≡ bit x (i + k)
unfolding bit
bit-shr zero x i = let e : i + 0 ≡ i = omega arith in rw (div-one, e)
bit-shr (suc k) x i =
    rw (pow-succ' 2 k, ← div-div-eq-div-mul x 2 (2 ^ k))
      (bit-shr k (x / 2) i ∙ ap (bit x) (let e : suc (i + k) ≡ i + suc k = omega arith in e))

pub bit-shl : (k x i : ℕ) → bit (x * 2 ^ k) (i + k) ≡ bit x i
unfolding bit
bit-shl zero x i = let e : i + 0 ≡ i = omega arith in let f : x * 1 ≡ x = omega arith in rw (e, f)
bit-shl (suc k) x i =
    let e : i + suc k ≡ suc (i + k) = omega arith in
    let half : x * 2 ^ suc k / 2 ≡ x * 2 ^ k =
      omega (arith, pow-suc 2 k, ap (λ (t : ℕ). x * t) (pow-suc 2 k)) in
    rw e (ap (λ t. bit t (i + k)) half ∙ bit-shl k x i)

pub bit-shl_low : (k x i : ℕ) → i < k → bit (x * 2 ^ k) i ≡ 0
unfolding bit
bit-shl_low zero x i h = absurd (omega arith)
bit-shl_low (suc k) x zero h = omega (arith, ap (λ (t : ℕ). x * t) (pow-suc 2 k))
bit-shl_low (suc k) x (suc i) h =
    let half : x * 2 ^ suc k / 2 ≡ x * 2 ^ k = omega (arith, ap (λ (t : ℕ). x * t) (pow-suc 2 k)) in
    ap (λ t. bit t i) half ∙ bit-shl_low k x i (omega arith)

-- The digits of `x % 2 ^ n` are those of `x` below `n`.
half-mod : (p x : ℕ) → 0 < p → x % (p * 2) / 2 ≡ x / 2 % p
half-mod p x h =
    let q = x / (p * 2) in
    let r = x % (p * 2) in
    let low : r < p * 2 = mod-lt x (omega arith) in
    let split : q * (p * 2) + r ≡ x = div-add-mod' x (p * 2) in
    let halves : x / 2 ≡ q * p + r / 2 = omega arith in
    rw (halves, mul-add-mod_self_right q p (r / 2), mod-eq_of_lt {n = r / 2} {m = p} (omega arith))

pub bit-mod : (n x i : ℕ) → i < n → bit (x % 2 ^ n) i ≡ bit x i
unfolding bit
bit-mod zero x i h = absurd (omega arith)
bit-mod (suc n) x zero h =
    let split : x / 2 ^ suc n * 2 ^ suc n + x % 2 ^ suc n ≡ x = div-add-mod' x (2 ^ suc n) in
    omega (arith, ap (λ (t : ℕ). x / 2 ^ suc n * t) (pow-suc 2 n), split)
bit-mod (suc n) x (suc i) h =
    let half : x % 2 ^ suc n / 2 ≡ x / 2 % 2 ^ n =
      rw (pow-suc 2 n) (half-mod (2 ^ n) x (one-le-pow n 2 (omega arith))) in
    ap (λ t. bit t i) half ∙ bit-mod n (x / 2) i (omega arith)

-- The digits of the complement.
pub bit_complement : (n x i : ℕ) → x < 2 ^ n → i < n → bit (2 ^ n - 1 - x) i + bit x i ≡ 1
unfolding bit
bit_complement zero x i h p = absurd (omega arith)
bit_complement (suc n) x zero h p = omega (arith, pow-suc 2 n)
bit_complement (suc n) x (suc i) h p =
    let half : (2 ^ suc n - 1 - x) / 2 ≡ 2 ^ n - 1 - x / 2 = omega (arith, pow-suc 2 n) in
    rw half (bit_complement n (x / 2) i (omega (arith, pow-suc 2 n)) (omega arith))

pub bit_mask : (n i : ℕ) → i < n → bit (2 ^ n - 1) i ≡ 1
bit_mask n i p =
    let e : 2 ^ n - 1 - 0 ≡ 2 ^ n - 1 = omega arith in
    let f : bit (2 ^ n - 1 - 0) i + bit 0 i ≡ 1 =
      bit_complement n 0 i (one-le-pow n 2 (omega arith)) p in
    omega (arith, ap (λ t. bit t i) e, bit-zero i)

-- A mask of `n` low digits is the remainder by `2 ^ n`.
pub and_mask : (n x : ℕ) → bit_and x (2 ^ n - 1) ≡ x % 2 ^ n
and_mask n x = bit_ext _ _ λ i. elim (dec_lt i n) [
  | yes p ↦ omega (arith, bit-and x (2 ^ n - 1) i, bit_mask n i p, bit-mod n x i p, bit-le-one x i)
  | no p ↦ omega (
    arith,
    bit-and x (2 ^ n - 1) i,
    bit-high n (2 ^ n - 1) i (omega (arith, one-le-pow n 2 (omega arith))) (omega arith),
    bit-high n (x % 2 ^ n) i (mod-lt x (one-le-pow n 2 (omega arith))) (omega arith),
  )
]

pub or-zero : (x : ℕ) → bit_or x 0 ≡ x
or-zero x = bit_ext _ _ λ i. omega (arith, bit-or x 0 i, bit-zero i)

-- Digits that do not overlap are a sum.
pub or_disjoint : (k q r : ℕ) → r < 2 ^ k → bit_or (q * 2 ^ k) r ≡ q * 2 ^ k + r
or_disjoint zero q r h =
    let e : r ≡ 0 = omega arith in
    let f : q * 1 ≡ q = omega arith in rw (e, f, or-zero q) (omega arith)
or_disjoint (suc k) q r h =
    let twice : q * 2 ^ suc k ≡ q * 2 ^ k * 2 =
      omega (arith, ap (λ (t : ℕ). q * t) (pow-suc 2 k)) in
    let half : q * 2 ^ k * 2 / 2 ≡ q * 2 ^ k = omega arith in
    rw (twice, or-low (q * 2 ^ k * 2) r, half, or_disjoint k q (r / 2) (omega (arith, pow-suc 2 k)))
      (omega arith)

-- `and`, `or` and `xor` stay below a power of two.
pub and-lt : (n a b : ℕ) → a < 2 ^ n → bit_and a b < 2 ^ n
and-lt n a b h = lt-pow_of_bits n _ λ i p. omega (arith, bit-and a b i, bit-high n a i h p)

pub and-lt_right : (n a b : ℕ) → b < 2 ^ n → bit_and a b < 2 ^ n
and-lt_right n a b h = lt-pow_of_bits n _ λ i p. omega (arith, bit-and a b i, bit-high n b i h p)

pub or-lt : (n a b : ℕ) → a < 2 ^ n → b < 2 ^ n → bit_or a b < 2 ^ n
or-lt n a b h k =
    lt-pow_of_bits n _ λ i p. omega (arith, bit-or a b i, bit-high n a i h p, bit-high n b i k p)

pub xor-lt : (n a b : ℕ) → a < 2 ^ n → b < 2 ^ n → bit_xor a b < 2 ^ n
xor-lt n a b h k =
    lt-pow_of_bits n _ λ i p. omega (arith, bit-xor a b i, bit-high n a i h p, bit-high n b i k p)

pub and_comm : (a b : ℕ) → bit_and a b ≡ bit_and b a
and_comm a b = bit_ext _ _ λ i. omega (arith, bit-and a b i, bit-and b a i)

pub and_self : (a : ℕ) → bit_and a a ≡ a
and_self a = bit_ext _ _ λ i. omega (arith, bit-and a a i)

pub or_self : (a : ℕ) → bit_or a a ≡ a
or_self a = bit_ext _ _ λ i. omega (arith, bit-or a a i)

-- The one digit of a power of two.
pub bit-pow_self : (k : ℕ) → bit (1 * 2 ^ k) k ≡ 1
bit-pow_self k =
    let e : 0 + k ≡ k = omega arith in ap (bit (1 * 2 ^ k)) (sym e) ∙ bit-shl k 1 0 ∙ bit_one
  where
    bit_one : bit 1 0 ≡ 1
    bit_one = unfold bit in refl

pub bit-pow_ne : (k i : ℕ) → i ≢ k → bit (1 * 2 ^ k) i ≡ 0
bit-pow_ne k i ne = elim (dec_lt i k) [
  | yes p ↦ bit-shl_low k 1 i p
  | no p ↦
      let e : i - k + k ≡ i = omega arith in
      ap (bit (1 * 2 ^ k)) (sym e)
      ∙ bit-shl k 1 (i - k)
      ∙ bit-high 1 1 (i - k) (omega arith) (omega arith)
]

pub bit-first : (x : ℕ) → bit x 0 ≡ x % 2
unfolding bit
bit-first x = refl

pub bit-suc : (x i : ℕ) → bit x (suc i) ≡ bit (x / 2) i
unfolding bit
bit-suc x i = refl

pub half-and : (a b : ℕ) → bit_and a b / 2 ≡ bit_and (a / 2) (b / 2)
half-and a b = omega (arith, and-low a b)

pub bit_lem : (k x : ℕ) → bit x k ≡ x / 2 ^ k % 2
bit_lem k x =
    let e : k ≡ 0 + k = omega arith in ap (bit x) e ∙ sym (bit-shr k x 0) ∙ bit-first (x / 2 ^ k)
