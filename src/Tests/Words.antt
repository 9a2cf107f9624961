-- ===== src/Tests/Words.antt =====
-- Instruction words, register fields and multiplications of riscv/decode.h and riscv/mulhi.h.
use spike.Base.{◌+◌, ◌*◌, ◌%◌, ◌^◌, ◌≡◌, arith, mul64}
use spike.Decode.Formats.{JFormat}
use spike.Mulhi.{mulh}
use spike.Mulhi.Laws.{sign128, mulh_lem}

-- `jal x1, -2`
abbrev jal : JFormat
jal = record { imm20 = 1; imm10_1 = 1023; imm11 = 1; imm19_12 = 255; dest = 1; opcode = 111 }

mulh_lem_example :
    mulh 0xffffffffffffffff 3 * 2 ^ 64 + mul64 0xffffffffffffffff 3
    ≡ sign128 0xffffffffffffffff * sign128 3 % 2 ^ 128
mulh_lem_example = mulh_lem 0xffffffffffffffff 3 (omega arith) (omega arith)
