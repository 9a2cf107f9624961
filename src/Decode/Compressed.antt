-- ===== src/Decode/Compressed.antt =====
-- `insn_t` in riscv/decode.h: the registers and immediates of compressed instructions.
use spike.Base.{ℕ, ◌+◌, add64, shl64}
use spike.Decode.{x, xs, rd}

unfoldable pub rvc_imm : ℕ → ℕ
unfolding x xs
rvc_imm b = add64 (x b 2 5) (shl64 (xs b 12 1) 5)

unfoldable pub rvc_zimm : ℕ → ℕ
unfolding x
rvc_zimm b = add64 (x b 2 5) (shl64 (x b 12 1) 5)

unfoldable pub rvc_addi4spn_imm : ℕ → ℕ
unfolding x
rvc_addi4spn_imm b =
    add64 (add64 (add64 (shl64 (x b 6 1) 2) (shl64 (x b 5 1) 3)) (shl64 (x b 11 2) 4))
      (shl64 (x b 7 4) 6)

unfoldable pub rvc_addi16sp_imm : ℕ → ℕ
unfolding x xs
rvc_addi16sp_imm b =
    add64
      (add64 (add64 (add64 (shl64 (x b 6 1) 4) (shl64 (x b 2 1) 5)) (shl64 (x b 5 1) 6))
        (shl64 (x b 3 2) 7))
      (shl64 (xs b 12 1) 9)

unfoldable pub rvc_lwsp_imm : ℕ → ℕ
unfolding x
rvc_lwsp_imm b = add64 (add64 (shl64 (x b 4 3) 2) (shl64 (x b 12 1) 5)) (shl64 (x b 2 2) 6)

unfoldable pub rvc_ldsp_imm : ℕ → ℕ
unfolding x
rvc_ldsp_imm b = add64 (add64 (shl64 (x b 5 2) 3) (shl64 (x b 12 1) 5)) (shl64 (x b 2 3) 6)

unfoldable pub rvc_swsp_imm : ℕ → ℕ
unfolding x
rvc_swsp_imm b = add64 (shl64 (x b 9 4) 2) (shl64 (x b 7 2) 6)

unfoldable pub rvc_sdsp_imm : ℕ → ℕ
unfolding x
rvc_sdsp_imm b = add64 (shl64 (x b 10 3) 3) (shl64 (x b 7 3) 6)

unfoldable pub rvc_lw_imm : ℕ → ℕ
unfolding x
rvc_lw_imm b = add64 (add64 (shl64 (x b 6 1) 2) (shl64 (x b 10 3) 3)) (shl64 (x b 5 1) 6)

unfoldable pub rvc_ld_imm : ℕ → ℕ
unfolding x
rvc_ld_imm b = add64 (shl64 (x b 10 3) 3) (shl64 (x b 5 2) 6)

unfoldable pub rvc_j_imm : ℕ → ℕ
unfolding x xs
rvc_j_imm b =
    add64
      (add64
        (add64
          (add64
            (add64 (add64 (add64 (shl64 (x b 3 3) 1) (shl64 (x b 11 1) 4)) (shl64 (x b 2 1) 5))
              (shl64 (x b 7 1) 6))
            (shl64 (x b 6 1) 7))
          (shl64 (x b 9 2) 8))
        (shl64 (x b 8 1) 10))
      (shl64 (xs b 12 1) 11)

unfoldable pub rvc_b_imm : ℕ → ℕ
unfolding x xs
rvc_b_imm b =
    add64
      (add64 (add64 (add64 (shl64 (x b 3 2) 1) (shl64 (x b 10 2) 3)) (shl64 (x b 2 1) 5))
        (shl64 (x b 5 2) 6))
      (shl64 (xs b 12 1) 8)

unfoldable pub rvc_simm3 : ℕ → ℕ
unfolding x
rvc_simm3 b = x b 10 3

unfoldable pub rvc_rd : ℕ → ℕ
unfolding rd
rvc_rd b = rd b

unfoldable pub rvc_rs1 : ℕ → ℕ
unfolding rd
rvc_rs1 b = rd b

unfoldable pub rvc_rs2 : ℕ → ℕ
unfolding x
rvc_rs2 b = x b 2 5

unfoldable pub rvc_rs1s : ℕ → ℕ
unfolding x
rvc_rs1s b = 8 + x b 7 3

unfoldable pub rvc_rs2s : ℕ → ℕ
unfolding x
rvc_rs2s b = 8 + x b 2 3
