-- ===== src/Insns/Division.antt =====
-- riscv/insns/div.h and rem.h: quotient and remainder belong together.
use native.Mathlib.Nat.{div-add-mod, div-le_self, mod-le, mul_comm}
use spike.Base.{
  ℕ, ◌+◌, ◌-◌, ◌*◌, ◌/◌, ◌%◌, ◌^◌, ◌≤◌, ◌<◌, Bool, true, false, ◌&&◌, ◌==◌, ◌≡◌, ◌≢◌, inl, inr,
  refl, ◌∙◌, ap, sym, arith, Bool-cases, if◌then◌else◌, all_ones, add64, mul64, neg64, is_negative,
  bool_ne,
}
use spike.Decode.{rd, sext_xlen, regfile_write}
use spike.Insns.{Fetched, reg1, reg2, write_reg, letter_m}
use spike.Insns.Muldiv.{sdiv64, srem64, int64_min, div, rem}
use spike.Mulhi.{magnitude}
use spike.Mulhi.Laws.{low_half, negated_product, negated_both, magnitude_bound}
use spike.Processor.Csr.Read.{supports_extension}
use spike.Processor.State.{Processor}

mod_mul_left : (x y : ℕ) → x % 2 ^ 64 * y % 2 ^ 64 ≡ x * y % 2 ^ 64
mod_mul_left x y =
    let e : x % 2 ^ 64 + 2 ^ 64 * (x / 2 ^ 64) ≡ x = omega arith in
    let f : y + 2 ^ 64 * 0 ≡ y = omega arith in
    sym (low_half (x % 2 ^ 64) y (x / 2 ^ 64) 0)
    ∙ ap (λ (t : ℕ). t * (y + 2 ^ 64 * 0) % 2 ^ 64) e
    ∙ ap (λ (t : ℕ). x * t % 2 ^ 64) f

-- A product with a negated factor is the negated product.
neg64-mul : (x y : ℕ) → x ≤ 2 ^ 64 → x * y ≤ 2 ^ 64 → mul64 (neg64 x) y ≡ neg64 (x * y)
neg64-mul x y h k = mod_mul_left (2 ^ 64 - x) y ∙ negated_product (2 ^ 64) x y (omega arith) h k

neg64-neg64 : (x y : ℕ) → x + y ≤ 2 ^ 64 → mul64 (neg64 x) (neg64 y) ≡ x * y % 2 ^ 64
neg64-neg64 x y h =
    mod_mul_left (2 ^ 64 - x) (neg64 y)
    ∙ ap (λ v. v % 2 ^ 64) (mul_comm (2 ^ 64 - x) (neg64 y))
    ∙ mod_mul_left (2 ^ 64 - y) (2 ^ 64 - x)
    ∙ ap (λ v. v % 2 ^ 64) (mul_comm (2 ^ 64 - y) (2 ^ 64 - x))
    ∙ negated_both (2 ^ 64) x y h

-- A bit pattern from its sign and its magnitude.
abbrev signed : Bool → ℕ → ℕ
signed sign v = if sign then neg64 v else v

signed-magnitude : (a : ℕ) → a < 2 ^ 64 → a ≡ signed (is_negative a) (magnitude a)
unfolding magnitude
signed-magnitude a h = ground arith

signed_divides :
    (sa sb : Bool) (a b ma mb q r : ℕ)
    → q * mb + r ≡ ma
    → a ≡ signed sa ma
    → b ≡ signed sb mb
    → ma ≤ 2 ^ 63
    → mb ≤ 2 ^ 63
    → q ≤ ma
    → add64 (mul64 (signed (bool_ne sa sb) q) b) (signed sa r) ≡ a
signed_divides false false a b ma mb q r e x y la lb lq = rw (x, y) (omega arith)
signed_divides false true a b ma mb q r e x y la lb lq =
    let p = neg64-neg64 q mb (omega arith) in rw (x, y, p) (omega arith)
signed_divides true false a b ma mb q r e x y la lb lq =
    let p = neg64-mul q mb (omega arith) (omega arith) in rw (x, y, p) (omega arith)
signed_divides true true a b ma mb q r e x y la lb lq =
    let p : mul64 q (neg64 mb) ≡ neg64 (q * mb) =
      ap (λ (t : ℕ). t % 2 ^ 64) (mul_comm q (neg64 mb))
      ∙ neg64-mul mb q (omega arith) (omega arith)
      ∙ ap neg64 (mul_comm mb q) in
    rw (x, y, p) (omega arith)

magnitude_pos : (a : ℕ) → a < 2 ^ 64 → a ≢ 0 → 0 < magnitude a
unfolding magnitude
magnitude_pos a h ne = ground arith

-- The quotient times the divisor, with the remainder, is the dividend.
pub divides :
    (a b : ℕ) → a < 2 ^ 64 → b < 2 ^ 64 → b ≢ 0 → add64 (mul64 (sdiv64 a b) b) (srem64 a b) ≡ a
unfolding sdiv64 srem64
divides a b ha hb nz =
    let q = magnitude a / magnitude b in
    let r = magnitude a % magnitude b in
    let e : q * magnitude b + r ≡ magnitude a =
      ap (λ (t : ℕ). t + r) (mul_comm q (magnitude b)) ∙ div-add-mod (magnitude a) (magnitude b) in
    signed_divides (is_negative a) (is_negative b) a b (magnitude a) (magnitude b) q r e
      (signed-magnitude a ha) (signed-magnitude b hb) (magnitude_bound a ha) (magnitude_bound b hb)
      (div-le_self (magnitude a) (magnitude b))

sext64 : (w v : ℕ) → w ≡ 64 → v < 2 ^ 64 → sext_xlen w v ≡ v
unfolding sext_xlen
sext64 w v e h = rw e (ground arith)

signed-lt : (s : Bool) (v : ℕ) → v < 2 ^ 64 → signed s v < 2 ^ 64
signed-lt true v h = omega arith
signed-lt false v h = h

sdiv64-lt : (a b : ℕ) → a < 2 ^ 64 → sdiv64 a b < 2 ^ 64
unfolding sdiv64
sdiv64-lt a b h =
    let la = magnitude_bound a h in
    let lq = div-le_self (magnitude a) (magnitude b) in
    signed-lt (bool_ne (is_negative a) (is_negative b)) (magnitude a / magnitude b) (omega arith)

srem64-lt : (a b : ℕ) → a < 2 ^ 64 → srem64 a b < 2 ^ 64
unfolding srem64
srem64-lt a b h =
    let la = magnitude_bound a h in
    let lr = mod-le (magnitude a) (magnitude b) in
    signed-lt (is_negative a) (magnitude a % magnitude b) (omega arith)

-- What an instruction writes to a register other than x0 is read back.
written : (p : Processor) (i v : ℕ) → i ≢ 0 → (write_reg p i v).state.xpr i ≡ v
unfolding write_reg regfile_write
written p i v ne =
    let a : (i == 0) ≡ false = ground arith in
    let b : (i == i) ≡ true = ground arith in rw (a, b) refl

from_test : (a b : ℕ) → (a == b) ≡ true → a ≡ b
from_test a b e = ground arith

from_failed : (a b : ℕ) → (a == b) ≡ false → a ≢ b
from_failed a b e = ground arith

by_zero : (a b : ℕ) → a < 2 ^ 64 → b ≡ 0 → add64 (mul64 all_ones b) a ≡ a
by_zero a b h z = rw z (omega arith)

overflow : (a b : ℕ) → a ≡ int64_min → b ≡ all_ones → add64 (mul64 a b) 0 ≡ a
overflow a b x y = rw (x, y) refl

-- In a 64-bit hart with the extension, `div` and `rem` of two registers write a quotient and a remainder
-- that belong to the dividend, for every divisor: zero and the overflow included.
pub div-rem :
    (f : Fetched) (p : Processor)
    → f.xlen ≡ 64
    → supports_extension p letter_m ≡ true
    → rd f.insn ≢ 0
    → reg1 f p < 2 ^ 64
    → reg2 f p < 2 ^ 64
    → add64
        (mul64 ((div f p).0.state.xpr (rd f.insn)) (reg2 f p))
        ((rem f p).0.state.xpr (rd f.insn))
      ≡ reg1 f p
unfolding div rem
div-rem f p wide ext ne ha hb =
    let a = reg1 f p in
    let b = reg2 f p in
    let la = sext64 f.xlen a wide ha in
    let lb = sext64 f.xlen b wide hb in
    elim (Bool-cases (b == 0)) [
      | inl z ↦
          simp (ext, la, lb, z, written p (rd f.insn) all_ones ne, written p (rd f.insn) a ne)
            (by_zero a b ha (from_test b 0 z))
      | inr nz ↦ elim (Bool-cases (a == int64_min && b == all_ones)) [
        | inl over ↦
            simp (ext, la, lb, nz, over, written p (rd f.insn) a ne, written p (rd f.insn) 0 ne)
              (overflow a b (ground arith) (ground arith))
        | inr fits ↦
            let lq = sext64 f.xlen (sdiv64 a b) wide (sdiv64-lt a b ha) in
            let lr = sext64 f.xlen (srem64 a b) wide (srem64-lt a b ha) in
            simp
              (
                ext,
                la,
                lb,
                nz,
                fits,
                lq,
                lr,
                written p (rd f.insn) (sdiv64 a b) ne,
                written p (rd f.insn) (srem64 a b) ne,
              )
              (divides a b ha hb (from_failed b 0 nz))
      ]
    ]
