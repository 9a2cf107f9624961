-- ===== src/Decode/Formats.antt =====
-- The instruction formats of the ISA as records of fields, the words that they encode, and what
-- `insn_t` reads back. A 32-bit word is held sign-extended, as `mmu_t::refill_icache` stores it.
use spike.Base.{ℕ, ◌+◌, ◌-◌, ◌*◌, ◌/◌, ◌%◌, ◌^◌, ◌<◌, ◌≡◌, arith, ◌∙◌, ltb, if◌then◌else◌, and_mask}
use spike.Decode.{x, xs, imm_sign, i_imm, s_imm, sb_imm, u_imm, uj_imm, rd, rs1, rs2}

abbrev pub sign_extend : ℕ → ℕ → ℕ
sign_extend w v = if ltb v (2 ^ (w - 1)) then v else v + 2 ^ 64 - 2 ^ w

pub x_lem : (b lo len : ℕ) → x b lo len ≡ b / 2 ^ lo % 2 ^ len
unfolding x
x_lem b lo len = and_mask len (b / 2 ^ lo)

pub record BFormat : Type 0 where
  pub imm12 : ℕ
  pub imm10_5 : ℕ
  pub src2 : ℕ
  pub src1 : ℕ
  pub funct3 : ℕ
  pub imm4_1 : ℕ
  pub imm11 : ℕ
  pub opcode : ℕ

abbrev pub encode_b : BFormat → ℕ
encode_b f =
    f.imm12 * 2 ^ 31
    + f.imm10_5 * 2 ^ 25
    + f.src2 * 2 ^ 20
    + f.src1 * 2 ^ 15
    + f.funct3 * 2 ^ 12
    + f.imm4_1 * 2 ^ 8
    + f.imm11 * 2 ^ 7
    + f.opcode

pub record IsBFormat (f : BFormat) : Type 0 where
  pub imm12_one : f.imm12 < 2
  pub imm10_5_six : f.imm10_5 < 64
  pub src2_five : f.src2 < 32
  pub src1_five : f.src1 < 32
  pub funct3_three : f.funct3 < 8
  pub imm4_1_four : f.imm4_1 < 16
  pub imm11_one : f.imm11 < 2
  pub opcode_seven : f.opcode < 128

imm_sign_lem : (b : ℕ) → b < 2 ^ 64 → imm_sign b ≡ (if ltb b (2 ^ 63) then 0 else 2 ^ 64 - 1)
unfolding imm_sign xs
imm_sign_lem b h = ground arith

sb_imm_lem :
    (b : ℕ)
    → sb_imm b
      ≡ (b / 2 ^ 8 % 16 * 2 + b / 2 ^ 25 % 64 * 32 + b / 2 ^ 7 % 2 * 2 ^ 11 + imm_sign b * 2 ^ 12)
        % 2 ^ 64
unfolding sb_imm
sb_imm_lem b = omega (arith, x_lem b 8 4, x_lem b 25 6, x_lem b 7 1)

-- The fields of an encoded word, whatever the sign bit is.
encode_b_fields :
    (f : BFormat)
    → IsBFormat f
    → let b = sign_extend 32 (encode_b f) in
      (b < 2 ^ 64)
      × (b / 2 ^ 8 % 16 ≡ f.imm4_1)
      × (b / 2 ^ 25 % 64 ≡ f.imm10_5)
      × (b / 2 ^ 7 % 2 ≡ f.imm11)
      × (b / 2 ^ 15 % 32 ≡ f.src1)
      × (b / 2 ^ 20 % 32 ≡ f.src2)
encode_b_fields f v = ground arith

encode_b-sign :
    (f : BFormat) → IsBFormat f → imm_sign (sign_extend 32 (encode_b f)) ≡ f.imm12 * (2 ^ 64 - 1)
encode_b-sign f v = ground (arith, imm_sign_lem (sign_extend 32 (encode_b f)))

-- A branch word decodes to the registers and the offset that were encoded: the offset is the
-- 13-bit two's complement number with bits 12, 11, 10..5 and 4..1 from the four immediate fields.
pub sb_imm-encode_b :
    (f : BFormat)
    → IsBFormat f
    → let b = sign_extend 32 (encode_b f) in
      (sb_imm b
        ≡ sign_extend 13 (f.imm12 * 2 ^ 12 + f.imm11 * 2 ^ 11 + f.imm10_5 * 2 ^ 5 + f.imm4_1 * 2))
      × (rs1 b ≡ f.src1)
      × (rs2 b ≡ f.src2)
unfolding rs1 rs2
sb_imm-encode_b f v =
    let b = sign_extend 32 (encode_b f) in
    let (word, a1, a2, a3, a4, a5) = encode_b_fields f v in
    (
      sb_imm_lem b ∙ rw (a1, a2, a3, encode_b-sign f v) (ground arith),
      x_lem b 15 5 ∙ a4,
      x_lem b 20 5 ∙ a5,
    )

-- Jumps: `jal`.
pub record JFormat : Type 0 where
  pub imm20 : ℕ
  pub imm10_1 : ℕ
  pub imm11 : ℕ
  pub imm19_12 : ℕ
  pub dest : ℕ
  pub opcode : ℕ

abbrev pub encode_j : JFormat → ℕ
encode_j f =
    f.imm20 * 2 ^ 31
    + f.imm10_1 * 2 ^ 21
    + f.imm11 * 2 ^ 20
    + f.imm19_12 * 2 ^ 12
    + f.dest * 2 ^ 7
    + f.opcode

pub record IsJFormat (f : JFormat) : Type 0 where
  pub imm20_one : f.imm20 < 2
  pub imm10_1_ten : f.imm10_1 < 1024
  pub imm11_one : f.imm11 < 2
  pub imm19_12_eight : f.imm19_12 < 256
  pub dest_five : f.dest < 32
  pub opcode_seven : f.opcode < 128

uj_imm_lem :
    (b : ℕ)
    → uj_imm b
      ≡ (b / 2 ^ 21 % 1024 * 2
          + b / 2 ^ 20 % 2 * 2 ^ 11
          + b / 2 ^ 12 % 256 * 2 ^ 12
          + imm_sign b * 2 ^ 20)
        % 2 ^ 64
unfolding uj_imm
uj_imm_lem b = omega (arith, x_lem b 21 10, x_lem b 20 1, x_lem b 12 8)

encode_j_fields :
    (f : JFormat)
    → IsJFormat f
    → let b = sign_extend 32 (encode_j f) in
      (b < 2 ^ 64)
      × (b / 2 ^ 21 % 1024 ≡ f.imm10_1)
      × (b / 2 ^ 20 % 2 ≡ f.imm11)
      × (b / 2 ^ 12 % 256 ≡ f.imm19_12)
      × (b / 2 ^ 7 % 32 ≡ f.dest)
encode_j_fields f v = ground arith

encode_j-sign :
    (f : JFormat) → IsJFormat f → imm_sign (sign_extend 32 (encode_j f)) ≡ f.imm20 * (2 ^ 64 - 1)
encode_j-sign f v = ground (arith, imm_sign_lem (sign_extend 32 (encode_j f)))

-- A jump word decodes to the destination and to the 21-bit offset that were encoded.
pub uj_imm-encode_j :
    (f : JFormat)
    → IsJFormat f
    → let b = sign_extend 32 (encode_j f) in
      (uj_imm b
        ≡ sign_extend 21
            (f.imm20 * 2 ^ 20 + f.imm19_12 * 2 ^ 12 + f.imm11 * 2 ^ 11 + f.imm10_1 * 2))
      × (rd b ≡ f.dest)
unfolding rd
uj_imm-encode_j f v =
    let b = sign_extend 32 (encode_j f) in
    let (word, a1, a2, a3, a4) = encode_j_fields f v in
    (uj_imm_lem b ∙ rw (a1, a2, a3, encode_j-sign f v) (ground arith), x_lem b 7 5 ∙ a4)

-- Stores, and the immediates of loads and register-immediate operations.
record SFormat : Type 0 where
  pub imm11_5 : ℕ
  pub src2 : ℕ
  pub src1 : ℕ
  pub funct3 : ℕ
  pub low5 : ℕ
  pub opcode : ℕ

abbrev encode_s : SFormat → ℕ
encode_s f =
    f.imm11_5 * 2 ^ 25
    + f.src2 * 2 ^ 20
    + f.src1 * 2 ^ 15
    + f.funct3 * 2 ^ 12
    + f.low5 * 2 ^ 7
    + f.opcode

record IsSFormat (f : SFormat) : Type 0 where
  pub imm11_5_seven : f.imm11_5 < 128
  pub src2_five : f.src2 < 32
  pub src1_five : f.src1 < 32
  pub funct3_three : f.funct3 < 8
  pub low5_five : f.low5 < 32
  pub opcode_seven : f.opcode < 128

xs_25_7 :
    (f : SFormat) → IsSFormat f → xs (sign_extend 32 (encode_s f)) 25 7 ≡ sign_extend 7 f.imm11_5
unfolding xs
xs_25_7 f v = ground arith

encode_s_fields :
    (f : SFormat)
    → IsSFormat f
    → let b = sign_extend 32 (encode_s f) in
      (b / 2 ^ 7 % 32 ≡ f.low5) × (b / 2 ^ 15 % 32 ≡ f.src1) × (b / 2 ^ 20 % 32 ≡ f.src2)
encode_s_fields f v = ground arith

i_imm_lem :
    (f : SFormat)
    → IsSFormat f
    → i_imm (sign_extend 32 (encode_s f)) ≡ sign_extend 12 (f.imm11_5 * 2 ^ 5 + f.src2)
unfolding i_imm
i_imm_lem f v = ground arith

u_imm_lem :
    (f : SFormat)
    → IsSFormat f
    → u_imm (sign_extend 32 (encode_s f))
      ≡ sign_extend 32 (f.imm11_5 * 2 ^ 25 + f.src2 * 2 ^ 20 + f.src1 * 2 ^ 15 + f.funct3 * 2 ^ 12)
unfolding u_imm
u_imm_lem f v = ground arith

-- The same word read in the store, register-immediate and upper-immediate formats: each immediate
-- is the two's complement number of its bits, and the registers are those that were encoded.
imm-encode_s :
    (f : SFormat)
    → IsSFormat f
    → let b = sign_extend 32 (encode_s f) in
      (s_imm b ≡ sign_extend 12 (f.imm11_5 * 2 ^ 5 + f.low5))
      × (i_imm b ≡ sign_extend 12 (f.imm11_5 * 2 ^ 5 + f.src2))
      × (u_imm b
          ≡ sign_extend 32
              (f.imm11_5 * 2 ^ 25 + f.src2 * 2 ^ 20 + f.src1 * 2 ^ 15 + f.funct3 * 2 ^ 12))
      × (rd b ≡ f.low5)
      × (rs1 b ≡ f.src1)
      × (rs2 b ≡ f.src2)
unfolding s_imm rd rs1 rs2
imm-encode_s f v =
    let b = sign_extend 32 (encode_s f) in
    let (a1, a2, a3) = encode_s_fields f v in
    let low = x_lem b 7 5 ∙ a1 in
    (
      rw (low, xs_25_7 f v) (ground arith),
      i_imm_lem f v,
      u_imm_lem f v,
      low,
      x_lem b 15 5 ∙ a2,
      x_lem b 20 5 ∙ a3,
    )
