-- ===== src/Mulhi.antt =====
-- riscv/mulhi.h: the high half of a 64-bit product from 32-bit pieces.
pub mod Laws
use spike.Base.{
  ℕ, ◌+◌, ◌-◌, ◌*◌, ◌/◌, ◌%◌, ◌^◌, ◌||◌, ◌&&◌, not, Bool, true, false, bit_or, add64, mul64, neg64,
  not64, shr, shl64, u32, is_negative, if◌then◌else◌, ◌==◌, from_bool, bool_ne,
}

unfoldable pub mulhu : ℕ → ℕ → ℕ
mulhu a b =
    let a0 = u32 a in
    let a1 = shr a 32 in
    let b0 = u32 b in
    let b1 = shr b 32 in
    let t = add64 (mul64 a1 b0) (shr (mul64 a0 b0) 32) in
    let y1 = u32 t in
    let y2 = u32 (shr t 32) in
    let t' = add64 (mul64 a0 b1) y1 in
    let t'' = add64 (add64 (mul64 a1 b1) y2) (shr t' 32) in
    let y2' = u32 t'' in let y3 = u32 (shr t'' 32) in bit_or (shl64 y3 32) y2'

-- `-a` of a negative argument is its magnitude.
unfoldable pub magnitude : ℕ → ℕ
magnitude a = if is_negative a then neg64 a else a

unfoldable pub mulh : ℕ → ℕ → ℕ
mulh a b =
    let negate = bool_ne (is_negative a) (is_negative b) in
    let res = mulhu (magnitude a) (magnitude b) in
    if negate then add64 (not64 res) (from_bool (mul64 a b == 0)) else res

unfoldable pub mulhsu : ℕ → ℕ → ℕ
mulhsu a b =
    let negate = is_negative a in
    let res = mulhu (magnitude a) b in
    if negate then add64 (not64 res) (from_bool (mul64 a b == 0)) else res
