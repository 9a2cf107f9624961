-- ===== src/Decode.antt =====
-- riscv/decode.h: instruction words and their fields, the register file, and the accessors of
-- bit fields in control registers. An instruction word is its 64-bit pattern `b`.
pub mod Compressed
pub mod Fields
pub mod Formats
use spike.Base.{
  ℕ, ◌+◌, ◌-◌, ◌*◌, ◌/◌, ◌^◌, bit_and, bit_or, Bool, true, false, ◌&&◌, ◌||◌, not, ltb, ◌==◌,
  if◌then◌else◌, add64, mul64, shl64, shr, sra64, not64,
}

-- `insn_length`, of the low bits of the first parcel.
unfoldable pub insn_length : ℕ → ℕ
insn_length b =
    if ltb (bit_and b 0x03) 0x03
    then 2
    else if ltb (bit_and b 0x1f) 0x1f
    then 4
    else if ltb (bit_and b 0x3f) 0x3f
    then 6
    else 8

-- `insn_t::x` and `insn_t::xs`: `len` bits from bit `lo`, extended with zeros or with the sign.
unfoldable pub x : ℕ → ℕ → ℕ → ℕ
x b lo len = bit_and (shr b lo) (2 ^ len - 1)

unfoldable pub xs : ℕ → ℕ → ℕ → ℕ
xs b lo len = sra64 (shl64 b (64 - lo - len)) (64 - len)

unfoldable pub imm_sign : ℕ → ℕ
unfolding xs
imm_sign b = xs b 63 1

unfoldable pub i_imm : ℕ → ℕ
i_imm b = sra64 b 20

unfoldable pub s_imm : ℕ → ℕ
unfolding x xs
s_imm b = add64 (x b 7 5) (shl64 (xs b 25 7) 5)

unfoldable pub sb_imm : ℕ → ℕ
unfolding x imm_sign
sb_imm b =
    add64 (add64 (add64 (shl64 (x b 8 4) 1) (shl64 (x b 25 6) 5)) (shl64 (x b 7 1) 11))
      (shl64 (imm_sign b) 12)

unfoldable pub u_imm : ℕ → ℕ
u_imm b = shl64 (sra64 b 12) 12

unfoldable pub uj_imm : ℕ → ℕ
unfolding x imm_sign
uj_imm b =
    add64 (add64 (add64 (shl64 (x b 21 10) 1) (shl64 (x b 20 1) 11)) (shl64 (x b 12 8) 12))
      (shl64 (imm_sign b) 20)

unfoldable pub rd : ℕ → ℕ
unfolding x
rd b = x b 7 5

unfoldable pub rs1 : ℕ → ℕ
unfolding x
rs1 b = x b 15 5

unfoldable pub rs2 : ℕ → ℕ
unfolding x
rs2 b = x b 20 5

unfoldable pub csr : ℕ → ℕ
unfolding x
csr b = x b 20 12

-- `regfile_t::write`: register 0 of the integer file stays zero.
unfoldable pub regfile_write : Bool → (ℕ → ℕ) → ℕ → ℕ → ℕ → ℕ
regfile_write zero_reg file i value =
    if not zero_reg || not (i == 0) then (λ j. if j == i then value else file j) else file

-- `get_field` and `set_field`: the value of the field that a mask selects.
unfoldable pub lowest_bit : ℕ → ℕ
lowest_bit mask = bit_and mask (not64 (shl64 mask 1))

unfoldable pub get_field : ℕ → ℕ → ℕ
unfolding lowest_bit
get_field reg mask = bit_and reg mask / lowest_bit mask

unfoldable pub set_field : ℕ → ℕ → ℕ → ℕ
unfolding lowest_bit
set_field reg mask val =
    bit_or (bit_and reg (not64 mask)) (bit_and (mul64 val (lowest_bit mask)) mask)

-- `sext32`, `zext32`, `sext_xlen` and `zext_xlen`.
unfoldable pub sext32 : ℕ → ℕ
sext32 v = sra64 (shl64 v 32) 32

unfoldable pub zext32 : ℕ → ℕ
zext32 v = bit_and v 0xffffffff

unfoldable pub sext_xlen : ℕ → ℕ → ℕ
sext_xlen xlen v = sra64 (shl64 v (64 - xlen)) (64 - xlen)

unfoldable pub zext_xlen : ℕ → ℕ → ℕ
zext_xlen xlen v = shr (shl64 v (64 - xlen)) (64 - xlen)
