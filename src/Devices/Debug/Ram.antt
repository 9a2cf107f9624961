-- ===== src/Devices/Debug/Ram.antt =====
-- The debug RAM of riscv/debug_module.cc.
use spike.Base.{
  ℕ, ◌+◌, ◌*◌, ◌%◌, ◌^◌, ◌<◌, bit_and, bit_or, ◌≡◌, ◌≢◌, ◌⊎◌, refl, ◌∙◌, arith, and_mask,
  or_disjoint, bit_ext, bit-or, shr,
}
use spike.Devices.Debug.{DebugModule, ram_write32, ram_read32, put_byte}

or_swap : (a b : ℕ) → bit_or a b ≡ bit_or b a
or_swap a b = bit_ext _ _ λ i. omega (arith, bit-or a b i, bit-or b a i)

-- Four bytes put together.
word_lem :
    (a b c d : ℕ)
    → a < 2 ^ 8
    → b < 2 ^ 8
    → c < 2 ^ 8
    → bit_or (bit_or (bit_or a (b * 2 ^ 8)) (c * 2 ^ 16)) (d * 2 ^ 24)
      ≡ a + b * 2 ^ 8 + c * 2 ^ 16 + d * 2 ^ 24
word_lem a b c d h k l =
    let e1 = or_swap a (b * 2 ^ 8) ∙ or_disjoint 8 b a h in
    let e2 =
      or_swap (b * 2 ^ 8 + a) (c * 2 ^ 16) ∙ or_disjoint 16 c (b * 2 ^ 8 + a) (omega arith) in
    let s = c * 2 ^ 16 + (b * 2 ^ 8 + a) in
    let e3 = or_swap s (d * 2 ^ 24) ∙ or_disjoint 24 d s (omega arith) in
    rw (e1, e2, e3) (omega arith)

-- Four writes in a row.
abbrev four : (ℕ → ℕ) → ℕ → ℕ → ℕ → ℕ → ℕ → ℕ → ℕ
four f base w x y z =
    put_byte (put_byte (put_byte (put_byte f base w) (base + 1) x) (base + 2) y) (base + 3) z

four_own :
    (f : ℕ → ℕ) (base w x y z : ℕ)
    → (four f base w x y z base ≡ w)
      × (four f base w x y z (base + 1) ≡ x)
      × (four f base w x y z (base + 2) ≡ y)
      × (four f base w x y z (base + 3) ≡ z)
four_own f base w x y z = (ground arith, ground arith, ground arith, ground arith)

four_other :
    (f : ℕ → ℕ) (base w x y z j : ℕ) → (j < base) ⊎ (base + 3 < j) → four f base w x y z j ≡ f j
four_other f base w x y z j apart = ground arith

read_lem :
    (d : DebugModule) (index a b c e : ℕ)
    → d.debug_ram (index * 4) ≡ a
    → d.debug_ram (index * 4 + 1) ≡ b
    → d.debug_ram (index * 4 + 2) ≡ c
    → d.debug_ram (index * 4 + 3) ≡ e
    → ram_read32 d index ≡ bit_or (bit_or (bit_or a (b * 2 ^ 8)) (c * 2 ^ 16)) (e * 2 ^ 24)
unfolding ram_read32
read_lem d index a b c e p q r s = rw (p, q, r, s) refl

-- A word that is written to the debug RAM is read back.
pub ram_read32-ram_write32 :
    (d : DebugModule) (index value : ℕ)
    → value < 2 ^ 32
    → ram_read32 (ram_write32 d index value) index ≡ value
unfolding ram_write32
ram_read32-ram_write32 d index value h =
    let (p, q, r, s) =
      four_own d.debug_ram (index * 4) (bit_and value 255) (bit_and (shr value 8) 255)
        (bit_and (shr value 16) 255) (bit_and (shr value 24) 255) in
    read_lem (ram_write32 d index value) index _ _ _ _ (p ∙ and_mask 8 value)
      (q ∙ and_mask 8 (shr value 8)) (r ∙ and_mask 8 (shr value 16)) (s ∙ and_mask 8 (shr value 24))
    ∙ word_lem (value % 2 ^ 8) (shr value 8 % 2 ^ 8) (shr value 16 % 2 ^ 8) (shr value 24 % 2 ^ 8)
        (omega arith) (omega arith) (omega arith)
    ∙ bytes value h
  where
    bytes :
        (value : ℕ)
        → value < 2 ^ 32
        → value % 2 ^ 8
            + shr value 8 % 2 ^ 8 * 2 ^ 8
            + shr value 16 % 2 ^ 8 * 2 ^ 16
            + shr value 24 % 2 ^ 8 * 2 ^ 24
          ≡ value
    bytes value h = omega arith

-- Writing a word leaves the other words.
pub ram_read32-ram_write32_other :
    (d : DebugModule) (index other value : ℕ)
    → index ≢ other
    → ram_read32 (ram_write32 d index value) other ≡ ram_read32 d other
unfolding ram_read32 ram_write32
ram_read32-ram_write32_other d index other value ne =
    let same =
      four_other d.debug_ram (index * 4) (bit_and value 255) (bit_and (shr value 8) 255)
        (bit_and (shr value 16) 255) (bit_and (shr value 24) 255) in
    read_lem (ram_write32 d index value) other _ _ _ _ (same (other * 4) (omega arith))
      (same (other * 4 + 1) (omega arith)) (same (other * 4 + 2) (omega arith))
      (same (other * 4 + 3) (omega arith))
