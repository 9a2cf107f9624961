-- ===== src/Gdb/Program/Jump.antt =====
-- The jump with which the debugger's programs end, riscv/gdbserver.cc.
use spike.Base.{
  ℕ, ◌+◌, ◌-◌, ◌*◌, ◌/◌, ◌%◌, ◌^◌, ◌<◌, ◌≡◌, ap, ◌∙◌, arith, bit_or, and_mask, or_disjoint, add64,
  u32,
}
use spike.Decode.{uj_imm, rd}
use spike.Decode.Formats.{JFormat, encode_j, IsJFormat, uj_imm-encode_j, sign_extend}
use spike.Devices.Debug.{DebugModule}
use spike.Devices.Debug.Ram.{ram_read32-ram_write32}
use spike.Gdb.Assembler.{shl32, bits, bit, jal}
use spike.Gdb.Program.{dr_write32, dr_write_jump, dr_read32, ram_start, rom_resume}

or_add : (a q r k : ℕ) → a ≡ q * 2 ^ k → r < 2 ^ k → bit_or a r ≡ a + r
or_add a q r k e h = rw e (or_disjoint k q r h)

abbrev jump_format : ℕ → ℕ → JFormat
jump_format rd imm = record {
  imm20 = imm / 2 ^ 20 % 2;
  imm10_1 = imm / 2 % 1024;
  imm11 = imm / 2 ^ 11 % 2;
  imm19_12 = imm / 2 ^ 12 % 256;
  dest = rd;
  opcode = 0x6f;
}

jump_format_valid : (rd imm : ℕ) → rd < 32 → IsJFormat (jump_format rd imm)
jump_format_valid rd imm h = record {
  imm20_one = omega arith;
  imm10_1_ten = omega arith;
  imm11_one = omega arith;
  imm19_12_eight = omega arith;
  dest_five = h;
  opcode_seven = omega arith;
}

-- A word with the fields of a jump.
or_six :
    (a b c d e : ℕ)
    → a < 2
    → b < 1024
    → c < 2
    → d < 256
    → e < 32
    → bit_or
        (bit_or
          (bit_or (bit_or (bit_or (shl32 a 31) (shl32 b 21)) (shl32 c 20)) (shl32 d 12))
          (shl32 e 7))
        0x6f
      ≡ a * 2 ^ 31 + b * 2 ^ 21 + c * 2 ^ 20 + d * 2 ^ 12 + e * 2 ^ 7 + 0x6f
or_six a b c d e ha hb hc hd he =
    let e1 = or_add (shl32 a 31) a (shl32 b 21) 31 (omega arith) (omega arith) in
    let e2 =
      or_add (shl32 a 31 + shl32 b 21) (a * 2 ^ 10 + b) (shl32 c 20) 21 (omega arith)
        (omega arith) in
    let e3 =
      or_add (shl32 a 31 + shl32 b 21 + shl32 c 20) (a * 2 ^ 11 + b * 2 + c) (shl32 d 12) 20
        (omega arith) (omega arith) in
    let e4 =
      or_add (shl32 a 31 + shl32 b 21 + shl32 c 20 + shl32 d 12)
        (a * 2 ^ 19 + b * 2 ^ 9 + c * 2 ^ 8 + d) (shl32 e 7) 12 (omega arith) (omega arith) in
    let e5 =
      or_add (shl32 a 31 + shl32 b 21 + shl32 c 20 + shl32 d 12 + shl32 e 7)
        (a * 2 ^ 24 + b * 2 ^ 14 + c * 2 ^ 13 + d * 2 ^ 5 + e) 0x6f 7 (omega arith) (omega arith) in
    rw e1 (rw e2 (rw e3 (rw e4 (rw e5 (omega arith)))))

jal_lem : (rd imm : ℕ) → rd < 32 → jal rd imm ≡ encode_j (jump_format rd imm)
unfolding jal bits bit
jal_lem rd imm h =
    rw
      (
        and_mask 1 (imm / 2 ^ 20),
        and_mask 10 (imm / 2),
        and_mask 1 (imm / 2 ^ 11),
        and_mask 8 (imm / 2 ^ 12),
      )
      (or_six _ _ _ _ rd (omega arith) (omega arith) (omega arith) (omega arith) h)

encode_j-lt : (rd imm : ℕ) → rd < 32 → encode_j (jump_format rd imm) < 2 ^ 32
encode_j-lt rd imm h = omega arith

-- The word that is written.
dr_read32-dr_write_jump :
    (d : DebugModule) (index : ℕ)
    → index < 16
    → dr_read32 (dr_write_jump d index) index ≡ encode_j (jump_format 0 (0x404 - 4 * index))
unfolding dr_read32 dr_write_jump dr_write32
dr_read32-dr_write_jump d index h =
    let offset : u32 (rom_resume + 2 ^ 32 - (ram_start + 4 * index)) ≡ 0x404 - 4 * index =
      omega arith in
    let word =
      jal_lem 0 (u32 (rom_resume + 2 ^ 32 - (ram_start + 4 * index))) (omega arith)
      ∙ ap (λ n. encode_j (jump_format 0 n)) offset in
    let small = encode_j-lt 0 (0x404 - 4 * index) (omega arith) in
    ram_read32-ram_write32 d index
      (u32 (jal 0 (u32 (rom_resume + 2 ^ 32 - (ram_start + 4 * index))))) (omega arith)
    ∙ ap u32 word
    ∙ omega arith

-- Wherever in the debug RAM a program ends, its last word is a jump that links nothing and goes to the
-- place of the debug ROM that resumes the hart.
pub dr_write_jump_lem :
    (d : DebugModule) (index : ℕ)
    → index < 16
    → let word = sign_extend 32 (dr_read32 (dr_write_jump d index) index) in
      (add64 (ram_start + 4 * index) (uj_imm word) ≡ rom_resume) × (rd word ≡ 0)
dr_write_jump_lem d index h =
    let imm = 0x404 - 4 * index in
    let (target, dest) =
      uj_imm-encode_j (jump_format 0 imm) (jump_format_valid 0 imm (omega arith)) in
    let same : imm / 2 ^ 20 % 2 * 2 ^ 20
          + imm / 2 ^ 12 % 256 * 2 ^ 12
          + imm / 2 ^ 11 % 2 * 2 ^ 11
          + imm / 2 % 1024 * 2
        ≡ imm =
      omega arith in
    let positive : sign_extend 21 imm ≡ imm = ground arith in
    let far = target ∙ ap (sign_extend 21) same ∙ positive in
    let e : sign_extend 32 (dr_read32 (dr_write_jump d index) index)
        ≡ sign_extend 32 (encode_j (jump_format 0 imm)) =
      ap (sign_extend 32) (dr_read32-dr_write_jump d index h) in
    (ap (λ w. add64 (ram_start + 4 * index) (uj_imm w)) e ∙ rw far (omega arith), ap rd e ∙ dest)
