-- ===== src/Gdb/Assembler.antt =====
-- The words of instructions that the remote debugger of riscv/gdbserver.cc puts together. The registers
-- and the control registers are numbers of 32 bits, the offsets numbers of 16.
use spike.Base.{ℕ, ◌+◌, ◌-◌, ◌^◌, bit_and, bit_or, shr, ◌*◌, ◌%◌}

abbrev pub shl32 : ℕ → ℕ → ℕ
shl32 value n = value * 2 ^ n % 2 ^ 32

infixl 30 ◌∣◌
abbrev ◌∣◌ : ℕ → ℕ → ℕ
a ∣ b = bit_or a b

unfoldable pub bits : ℕ → ℕ → ℕ → ℕ
bits value hi lo = bit_and (shr value lo) (2 ^ (hi + 1 - lo) - 1)

unfoldable pub bit : ℕ → ℕ → ℕ
bit value b = bit_and (shr value b) 1

unfoldable pub jal : ℕ → ℕ → ℕ
jal rd imm =
    shl32 (bit imm 20) 31
    ∣ shl32 (bits imm 10 1) 21
    ∣ shl32 (bit imm 11) 20
    ∣ shl32 (bits imm 19 12) 12
    ∣ shl32 rd 7
    ∣ 0x6f

unfoldable pub csrsi : ℕ → ℕ → ℕ
csrsi csr imm = shl32 csr 20 ∣ shl32 (bits imm 4 0) 15 ∣ 0x6073

unfoldable pub csrci : ℕ → ℕ → ℕ
csrci csr imm = shl32 csr 20 ∣ shl32 (bits imm 4 0) 15 ∣ 0x7073

unfoldable pub csrr : ℕ → ℕ → ℕ
csrr rd csr = shl32 csr 20 ∣ shl32 rd 7 ∣ 0x2073

unfoldable pub csrw : ℕ → ℕ → ℕ
csrw source csr = shl32 csr 20 ∣ shl32 source 15 ∣ 0x1073

abbrev pub fence_i : ℕ
fence_i = 0x100f

unfoldable pub sb : ℕ → ℕ → ℕ → ℕ
sb src base offset =
    shl32 (bits offset 11 5) 25 ∣ shl32 src 20 ∣ shl32 base 15 ∣ shl32 (bits offset 4 0) 7 ∣ 0x23

unfoldable pub sh : ℕ → ℕ → ℕ → ℕ
sh src base offset =
    shl32 (bits offset 11 5) 25 ∣ shl32 src 20 ∣ shl32 base 15 ∣ shl32 (bits offset 4 0) 7 ∣ 0x1023

unfoldable pub sw : ℕ → ℕ → ℕ → ℕ
sw src base offset =
    shl32 (bits offset 11 5) 25 ∣ shl32 src 20 ∣ shl32 base 15 ∣ shl32 (bits offset 4 0) 7 ∣ 0x2023

unfoldable pub sd : ℕ → ℕ → ℕ → ℕ
sd src base offset =
    shl32 (bits offset 11 5) 25
    ∣ shl32 (bits src 4 0) 20
    ∣ shl32 base 15
    ∣ shl32 (bits offset 4 0) 7
    ∣ 0x3023

unfoldable pub fsw : ℕ → ℕ → ℕ → ℕ
fsw src base offset =
    shl32 (bits offset 11 5) 25
    ∣ shl32 (bits src 4 0) 20
    ∣ shl32 base 15
    ∣ shl32 (bits offset 4 0) 7
    ∣ 0x2027

unfoldable pub fsd : ℕ → ℕ → ℕ → ℕ
fsd src base offset =
    shl32 (bits offset 11 5) 25
    ∣ shl32 (bits src 4 0) 20
    ∣ shl32 base 15
    ∣ shl32 (bits offset 4 0) 7
    ∣ 0x3027

unfoldable pub ld : ℕ → ℕ → ℕ → ℕ
ld rd base offset = shl32 (bits offset 11 0) 20 ∣ shl32 base 15 ∣ shl32 (bits rd 4 0) 7 ∣ 0x3003

unfoldable pub lw : ℕ → ℕ → ℕ → ℕ
lw rd base offset = shl32 (bits offset 11 0) 20 ∣ shl32 base 15 ∣ shl32 (bits rd 4 0) 7 ∣ 0x2003

unfoldable pub lh : ℕ → ℕ → ℕ → ℕ
lh rd base offset = shl32 (bits offset 11 0) 20 ∣ shl32 base 15 ∣ shl32 (bits rd 4 0) 7 ∣ 0x1003

unfoldable pub lb : ℕ → ℕ → ℕ → ℕ
lb rd base offset = shl32 (bits offset 11 0) 20 ∣ shl32 base 15 ∣ shl32 (bits rd 4 0) 7 ∣ 0x3

unfoldable pub flw : ℕ → ℕ → ℕ → ℕ
flw dest base offset =
    shl32 (bits offset 11 0) 20 ∣ shl32 base 15 ∣ shl32 (bits dest 4 0) 7 ∣ 0x2007

unfoldable pub fld : ℕ → ℕ → ℕ → ℕ
fld dest base offset =
    shl32 (bits offset 11 0) 20 ∣ shl32 base 15 ∣ shl32 (bits dest 4 0) 7 ∣ 0x3007

unfoldable pub addi : ℕ → ℕ → ℕ → ℕ
addi dest src imm = shl32 (bits imm 11 0) 20 ∣ shl32 src 15 ∣ shl32 dest 7 ∣ 0x13

unfoldable pub ori : ℕ → ℕ → ℕ → ℕ
ori dest src imm = shl32 (bits imm 11 0) 20 ∣ shl32 src 15 ∣ shl32 dest 7 ∣ 0x6013

unfoldable pub xori : ℕ → ℕ → ℕ → ℕ
xori dest src imm = shl32 (bits imm 11 0) 20 ∣ shl32 src 15 ∣ shl32 dest 7 ∣ 0x4013

unfoldable pub srli : ℕ → ℕ → ℕ → ℕ
srli dest src shamt = shl32 (bits shamt 4 0) 20 ∣ shl32 src 15 ∣ shl32 dest 7 ∣ 0x5013

unfoldable pub nop : ℕ
nop = addi 0 0 0
