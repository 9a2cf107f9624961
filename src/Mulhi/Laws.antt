-- ===== src/Mulhi/Laws.antt =====
-- The piecewise products are the high halves of the exact products.
use mathlib.Core.Path.{ap₂}
use native.Mathlib.Nat.{mul_comm, mod_self, zero-mod, mul-add-mod_self_left}
use spike.Base.{
  ℕ, ◌+◌, ◌-◌, ◌*◌, ◌/◌, ◌%◌, ◌^◌, ◌≤◌, ◌<◌, true, false, ◌≡◌, ◌∙◌, sym, ap, arith, bit_or, add64,
  mul64, not64, shr, shl64, u32, is_negative, if◌then◌else◌, ◌==◌, from_bool, bool_ne, or_disjoint,
  Bool-cases, inl, inr, suc, zero,
}
use spike.Mulhi.{mulhu, mulh, mulhsu, magnitude}

-- Schoolbook multiplication in base `2 ^ 32`, with each carry below the base.
product_pieces :
    (a0 a1 b0 b1 : ℕ)
    → (a0 + a1 * 2 ^ 32) * (b0 + b1 * 2 ^ 32)
      ≡ a0 * b0 + (a1 * b0) * 2 ^ 32 + (a0 * b1) * 2 ^ 32 + (a1 * b1) * 2 ^ 64
product_pieces a0 a1 b0 b1 = grind arith

piece_bound : (p q : ℕ) → p < 2 ^ 32 → q < 2 ^ 32 → p * q ≤ (2 ^ 32 - 1) * (2 ^ 32 - 1)
piece_bound p q h k = grind arith

-- The carries of the four piecewise products add up to the high half.
carries :
    (p00 p10 p01 p11 : ℕ)
    → p00 ≤ (2 ^ 32 - 1) * (2 ^ 32 - 1)
    → p10 ≤ (2 ^ 32 - 1) * (2 ^ 32 - 1)
    → p01 ≤ (2 ^ 32 - 1) * (2 ^ 32 - 1)
    → p11 ≤ (2 ^ 32 - 1) * (2 ^ 32 - 1)
    → let t = add64 (p10 % 2 ^ 64) (shr (p00 % 2 ^ 64) 32) in
      let t' = add64 (p01 % 2 ^ 64) (u32 t) in
      let t'' = add64 (add64 (p11 % 2 ^ 64) (u32 (shr t 32))) (shr t' 32) in
      bit_or (shl64 (u32 (shr t'' 32)) 32) (u32 t'')
      ≡ (p00 + p10 * 2 ^ 32 + p01 * 2 ^ 32 + p11 * 2 ^ 64) / 2 ^ 64
carries p00 p10 p01 p11 h00 h10 h01 h11 =
    let t = add64 (p10 % 2 ^ 64) (shr (p00 % 2 ^ 64) 32) in
    let t' = add64 (p01 % 2 ^ 64) (u32 t) in
    let t'' = add64 (add64 (p11 % 2 ^ 64) (u32 (shr t 32))) (shr t' 32) in
    let exact : shl64 (u32 (shr t'' 32)) 32 ≡ u32 (shr t'' 32) * 2 ^ 32 = omega arith in
    rw (exact, or_disjoint 32 (u32 (shr t'' 32)) (u32 t'') (omega arith)) (omega arith)

-- `mulhu` is the high half of the exact product.
pub mulhu_lem : (a b : ℕ) → a < 2 ^ 64 → b < 2 ^ 64 → mulhu a b ≡ a * b / 2 ^ 64
unfolding mulhu
mulhu_lem a b h k =
    let a0 = u32 a in
    let a1 = shr a 32 in
    let b0 = u32 b in
    let b1 = shr b 32 in
    let ea : a ≡ a0 + a1 * 2 ^ 32 = omega arith in
    let eb : b ≡ b0 + b1 * 2 ^ 32 = omega arith in
    let product : a * b ≡ a0 * b0 + (a1 * b0) * 2 ^ 32 + (a0 * b1) * 2 ^ 32 + (a1 * b1) * 2 ^ 64 =
      ap₂ ◌*◌ ea eb ∙ product_pieces a0 a1 b0 b1 in
    carries (a0 * b0) (a1 * b0) (a0 * b1) (a1 * b1) (piece_bound a0 b0 (omega arith) (omega arith))
      (piece_bound a1 b0 (omega arith) (omega arith))
      (piece_bound a0 b1 (omega arith) (omega arith))
      (piece_bound a1 b1 (omega arith) (omega arith))
    ∙ ap (λ t. t / 2 ^ 64) (sym product)

-- An int64_t pattern as a 128-bit pattern.
unfoldable pub sign128 : ℕ → ℕ
sign128 a = if is_negative a then a + 2 ^ 128 - 2 ^ 64 else a

pub magnitude_bound : (a : ℕ) → a < 2 ^ 64 → magnitude a ≤ 2 ^ 63
unfolding magnitude
magnitude_bound a h = ground arith

product_bound : (a b : ℕ) → a ≤ 2 ^ 63 → b ≤ 2 ^ 63 → a * b ≤ 2 ^ 126
product_bound a b h k = grind arith

-- `m - a` times `b` is `- (a * b)` modulo `m`, and `m - a` times `m - b` is `a * b`.
pub negated_product : (m a b : ℕ) → 0 < m → a ≤ m → a * b ≤ m → (m - a) * b % m ≡ (m - a * b) % m
negated_product m a zero pos h k =
    let e : (m - a) * 0 ≡ 0 = omega arith in
    let f : m - a * 0 ≡ m = omega arith in rw (e, f, mod_self, zero-mod)
negated_product m a (suc b) pos h k =
    let d = m - a in
    let split : m ≡ a + d = omega arith in
    let row : m * b ≡ a * b + d * b = ap (λ (t : ℕ). t * b) split ∙ omega arith in
    let e : d * suc b ≡ m * b + (m - a * suc b) = omega arith in
    rw e (mul-add-mod_self_left m b (m - a * suc b))

pub negated_both : (m a b : ℕ) → a + b ≤ m → (m - a) * (m - b) % m ≡ a * b % m
negated_both m a b h =
    let f = m - a - b in
    let ea : m - a ≡ b + f = omega arith in
    let eb : m - b ≡ a + f = omega arith in
    let row : m * f ≡ (a + b + f) * f = ap (λ (t : ℕ). t * f) (omega arith) in
    let e : (b + f) * (a + f) ≡ m * f + a * b = omega arith in
    rw (ea, eb, e) (mul-add-mod_self_left m f (a * b))

-- The low half does not depend on the extension.
pub low_half : (a b c d : ℕ) → (a + 2 ^ 64 * c) * (b + 2 ^ 64 * d) % 2 ^ 64 ≡ mul64 a b
low_half a b c d =
    let e : (a + 2 ^ 64 * c) * (b + 2 ^ 64 * d)
        ≡ 2 ^ 64 * (c * b + a * d + 2 ^ 64 * (c * d)) + a * b =
      omega arith in
    rw e (omega arith)

-- Complementing the high half, with the carry of the low half, negates the 128-bit number.
negate_halves :
    (n : ℕ)
    → n ≤ 2 ^ 127
    → let low = (2 ^ 128 - n) % 2 ^ 128 % 2 ^ 64 in
      add64 (not64 (n / 2 ^ 64)) (from_bool (low == 0)) * 2 ^ 64 + low ≡ (2 ^ 128 - n) % 2 ^ 128
negate_halves n h = ground arith

sign128-split :
    (a : ℕ) → a < 2 ^ 64 → sign128 a ≡ a + 2 ^ 64 * (if is_negative a then 2 ^ 64 - 1 else 0)
unfolding sign128
sign128-split a h = ground arith

mul64-sign128 :
    (a b : ℕ) → a < 2 ^ 64 → b < 2 ^ 64 → mul64 a b ≡ sign128 a * sign128 b % 2 ^ 128 % 2 ^ 64
mul64-sign128 a b h k =
    let cut : sign128 a * sign128 b % 2 ^ 128 % 2 ^ 64 ≡ sign128 a * sign128 b % 2 ^ 64 =
      omega arith in
    sym (
      cut
      ∙ ap (λ t. t % 2 ^ 64) (ap₂ ◌*◌ (sign128-split a h) (sign128-split b k))
      ∙ low_half a b _ _)

sign128_neg :
    (a : ℕ)
    → a < 2 ^ 64
    → is_negative a ≡ true
    → (sign128 a ≡ 2 ^ 128 - magnitude a) × (magnitude a ≤ 2 ^ 63)
unfolding magnitude sign128
sign128_neg a h n = ground arith

sign128_pos : (a : ℕ) → is_negative a ≡ false → (sign128 a ≡ magnitude a) × (magnitude a < 2 ^ 63)
unfolding magnitude sign128
sign128_pos a n = ground arith

-- The 128-bit product of the extended operands, from the product of the magnitudes.
signed_product :
    (a b : ℕ)
    → a < 2 ^ 64
    → b < 2 ^ 64
    → let n = magnitude a * magnitude b in
      (n ≤ 2 ^ 126)
      × (sign128 a * sign128 b % 2 ^ 128
          ≡ (if bool_ne (is_negative a) (is_negative b) then (2 ^ 128 - n) % 2 ^ 128 else n))
signed_product a b h k =
    let u = magnitude a in
    let v = magnitude b in
    let bound = product_bound u v (magnitude_bound a h) (magnitude_bound b k) in
    (
      bound,
      elim (Bool-cases (is_negative a)) [
        | inl na ↦ elim (Bool-cases (is_negative b)) [
          | inl nb ↦
              rw (na, nb, (sign128_neg a h na).0, (sign128_neg b k nb).0)
                (negated_both (2 ^ 128) u v
                    (omega (arith, magnitude_bound a h, magnitude_bound b k))
                  ∙ omega arith)
          | inr pb ↦
              rw (na, pb, (sign128_neg a h na).0, (sign128_pos b pb).0)
                (negated_product (2 ^ 128) u v (omega arith) (omega (arith, magnitude_bound a h))
                  (omega arith))
        ]
        | inr pa ↦ elim (Bool-cases (is_negative b)) [
          | inl nb ↦
              rw
                (
                  pa,
                  nb,
                  (sign128_pos a pa).0,
                  (sign128_neg b k nb).0,
                  mul_comm u (2 ^ 128 - v),
                  mul_comm u v,
                )
                (negated_product (2 ^ 128) v u (omega arith) (omega (arith, magnitude_bound b k))
                  (omega arith))
          | inr pb ↦ rw (pa, pb, (sign128_pos a pa).0, (sign128_pos b pb).0) (omega arith)
        ]
      ],
    )

mul64-sign128_left : (a b : ℕ) → a < 2 ^ 64 → mul64 a b ≡ sign128 a * b % 2 ^ 128 % 2 ^ 64
mul64-sign128_left a b h =
    let cut : sign128 a * b % 2 ^ 128 % 2 ^ 64 ≡ sign128 a * b % 2 ^ 64 = omega arith in
    let e : b + 2 ^ 64 * 0 ≡ b = omega arith in
    sym (cut ∙ ap (λ t. t % 2 ^ 64) (ap₂ ◌*◌ (sign128-split a h) (sym e)) ∙ low_half a b _ 0)

-- Both halves of the signed product: `mulh` above `a * b` is the product of the 128-bit numbers.
pub mulh_lem :
    (a b : ℕ)
    → a < 2 ^ 64
    → b < 2 ^ 64
    → mulh a b * 2 ^ 64 + mul64 a b ≡ sign128 a * sign128 b % 2 ^ 128
unfolding mulh
mulh_lem a b h k =
    let u = magnitude a in
    let v = magnitude b in
    let high =
      mulhu_lem u v (omega (arith, magnitude_bound a h)) (omega (arith, magnitude_bound b k)) in
    let low = mul64-sign128 a b h k in
    let (bound, product) = signed_product a b h k in
    elim (Bool-cases (bool_ne (is_negative a) (is_negative b))) [
      | inl neg ↦
          let whole = rw neg at product in
          rw (neg, high, low, whole) (negate_halves (u * v) (omega arith))
      | inr pos ↦ let whole = rw pos at product in rw (pos, high, low, whole) (omega arith)
    ]

half_product_bound : (a b : ℕ) → a ≤ 2 ^ 63 → b < 2 ^ 64 → a * b ≤ 2 ^ 127
half_product_bound a b h k = grind arith

-- `mulhsu` above `a * b` is the 128-bit product of a signed and an unsigned number.
pub mulhsu_lem :
    (a b : ℕ) → a < 2 ^ 64 → b < 2 ^ 64 → mulhsu a b * 2 ^ 64 + mul64 a b ≡ sign128 a * b % 2 ^ 128
unfolding mulhsu
mulhsu_lem a b h k =
    let u = magnitude a in
    let bound = half_product_bound u b (magnitude_bound a h) k in
    let high = mulhu_lem u b (omega (arith, magnitude_bound a h)) k in
    let low : mul64 a b ≡ sign128 a * b % 2 ^ 128 % 2 ^ 64 = mul64-sign128_left a b h in
    elim (Bool-cases (is_negative a)) [
      | inl neg ↦
          let whole : sign128 a * b % 2 ^ 128 ≡ (2 ^ 128 - u * b) % 2 ^ 128 =
            rw (sign128_neg a h neg).0 (
              negated_product (2 ^ 128) u b (omega arith) (omega (arith, magnitude_bound a h))
                (omega arith)) in
          rw (neg, high, low, whole) (negate_halves (u * b) bound)
      | inr pos ↦ rw (pos, high, low, (sign128_pos a pos).0) (omega arith)
    ]
