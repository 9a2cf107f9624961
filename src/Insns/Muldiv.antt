-- ===== src/Insns/Muldiv.antt =====
-- The instructions of the extension M: riscv/insns/mul.h to remw.h.
use spike.Base.{
  ℕ, ◌/◌, ◌%◌, ◌^◌, ◌==◌, ◌&&◌, if◌then◌else◌, all_ones, mul64, neg64, shr, sra64, is_negative,
  bool_ne,
}
use spike.Decode.{sext32, zext32, sext_xlen, zext_xlen}
use spike.Insns.{Body, reg1, reg2, write_rd, require, require_extension, letter_m}
use spike.Mulhi
use spike.Mulhi.{magnitude}

abbrev pub int64_min : ℕ
int64_min = 2 ^ 63

-- `/` and `%` of int64_t, on bit patterns: the quotient is cut towards zero, and the remainder has the
-- sign of the dividend. The divisor is not zero, and they overflow in no other case than that which
-- the code tests.
unfoldable pub sdiv64 : ℕ → ℕ → ℕ
unfolding magnitude
sdiv64 a b =
    let q = magnitude a / magnitude b in
    if bool_ne (is_negative a) (is_negative b) then neg64 q else q

unfoldable pub srem64 : ℕ → ℕ → ℕ
unfolding magnitude
srem64 a b = let r = magnitude a % magnitude b in if is_negative a then neg64 r else r

unfoldable pub mul : Body
mul f p =
    require_extension letter_m p (write_rd f p (sext_xlen f.xlen (mul64 (reg1 f p) (reg2 f p))))

unfoldable pub mulh : Body
mulh f p = require_extension letter_m p (
    if f.xlen == 64
    then write_rd f p (Mulhi.mulh (reg1 f p) (reg2 f p))
    else write_rd f p (sext32 (sra64 (mul64 (sext32 (reg1 f p)) (sext32 (reg2 f p))) 32)))

unfoldable pub mulhsu : Body
mulhsu f p = require_extension letter_m p (
    if f.xlen == 64
    then write_rd f p (Mulhi.mulhsu (reg1 f p) (reg2 f p))
    else write_rd f p (sext32 (shr (mul64 (sext32 (reg1 f p)) (zext32 (reg2 f p))) 32)))

unfoldable pub mulhu : Body
mulhu f p = require_extension letter_m p (
    if f.xlen == 64
    then write_rd f p (Mulhi.mulhu (reg1 f p) (reg2 f p))
    else write_rd f p (sext32 (shr (mul64 (zext32 (reg1 f p)) (zext32 (reg2 f p))) 32)))

unfoldable pub mulw : Body
mulw f p =
    require_extension letter_m p
      (require (f.xlen == 64) p (write_rd f p (sext32 (mul64 (reg1 f p) (reg2 f p)))))

unfoldable pub div : Body
div f p = require_extension letter_m p (
    if (sext_xlen f.xlen (reg2 f p)) == 0
    then write_rd f p all_ones
    else (if (sext_xlen f.xlen (reg1 f p)) == int64_min && (sext_xlen f.xlen (reg2 f p)) == all_ones
        then write_rd f p (sext_xlen f.xlen (reg1 f p))
        else write_rd f p (
            sext_xlen f.xlen (sdiv64 (sext_xlen f.xlen (reg1 f p)) (sext_xlen f.xlen (reg2 f p))))))

unfoldable pub divu : Body
divu f p = require_extension letter_m p (
    if (zext_xlen f.xlen (reg2 f p)) == 0
    then write_rd f p all_ones
    else (write_rd f p
        (sext_xlen f.xlen ((zext_xlen f.xlen (reg1 f p)) / (zext_xlen f.xlen (reg2 f p))))))

unfoldable pub divuw : Body
divuw f p = require_extension letter_m p (
    require (f.xlen == 64) p (
      if (zext32 (reg2 f p)) == 0
      then write_rd f p all_ones
      else (write_rd f p (sext32 ((zext32 (reg1 f p)) / (zext32 (reg2 f p)))))))

unfoldable pub divw : Body
divw f p = require_extension letter_m p (
    require (f.xlen == 64) p (
      if (sext32 (reg2 f p)) == 0
      then write_rd f p all_ones
      else (write_rd f p (sext32 (sdiv64 (sext32 (reg1 f p)) (sext32 (reg2 f p)))))))

unfoldable pub rem : Body
rem f p = require_extension letter_m p (
    if (sext_xlen f.xlen (reg2 f p)) == 0
    then write_rd f p (sext_xlen f.xlen (reg1 f p))
    else (if (sext_xlen f.xlen (reg1 f p)) == int64_min && (sext_xlen f.xlen (reg2 f p)) == all_ones
        then write_rd f p 0
        else write_rd f p (
            sext_xlen f.xlen (srem64 (sext_xlen f.xlen (reg1 f p)) (sext_xlen f.xlen (reg2 f p))))))

unfoldable pub remu : Body
remu f p = require_extension letter_m p (
    if (zext_xlen f.xlen (reg2 f p)) == 0
    then write_rd f p (sext_xlen f.xlen (reg1 f p))
    else (write_rd f p
        (sext_xlen f.xlen ((zext_xlen f.xlen (reg1 f p)) % (zext_xlen f.xlen (reg2 f p))))))

unfoldable pub remuw : Body
remuw f p = require_extension letter_m p (
    require (f.xlen == 64) p (
      if (zext32 (reg2 f p)) == 0
      then write_rd f p (sext32 (zext32 (reg1 f p)))
      else (write_rd f p (sext32 ((zext32 (reg1 f p)) % (zext32 (reg2 f p)))))))

unfoldable pub remw : Body
remw f p = require_extension letter_m p (
    require (f.xlen == 64) p (
      if (sext32 (reg2 f p)) == 0
      then write_rd f p (sext32 (reg1 f p))
      else (write_rd f p (sext32 (srem64 (sext32 (reg1 f p)) (sext32 (reg2 f p)))))))
