-- ===== src/Cache/Init.antt =====
-- The geometry that riscv/cachesim.cc accepts, and its random number generator.
use native.Mathlib.Decide.{dec_lt}
use native.Mathlib.Nat.{pow-suc}
use mathlib.Core.Option.{some-injective}
use spike.Base.{
  ℕ, zero, suc, ◌-◌, ◌/◌, ◌%◌, ◌^◌, ◌≤◌, ◌<◌, bit_and, true, false, ◌||◌, ◌≡◌, inl, inr, refl, ◌∙◌,
  ap, sym, arith, Bool-cases, ltb, ◌==◌, some, truth, sub64, bit, bit-xor, bit-le-one, bit-zero,
  bit_ext, and_mask, none≢some, half-and, bit_lem, and_self, xor-lt, and-lt_right,
}
use spike.Cache.{Cache, Tags, init, log_rounds, lfsr_next}

-- A number whose digits are those of no predecessor is a power of two.
log_rounds_lem : (n x : ℕ) → x < 2 ^ n → 0 < x → bit_and x (x - 1) ≡ 0 → x ≡ 2 ^ log_rounds n x
unfolding log_rounds
log_rounds_lem zero x h p e = omega arith
log_rounds_lem (suc n) x h p e = elim (dec_lt 1 x) [
  | no small ↦ let t : ltb 1 x ≡ false = ground arith in rw t (omega arith)
  | yes large ↦
      let t : ltb 1 x ≡ true = ground arith in
      let half : bit_and (x / 2) ((x - 1) / 2) ≡ 0 = sym (half-and x (x - 1)) ∙ ap (λ v. v / 2) e in
      let even = is_even x (x / 2) large half in
      let down : (x - 1) / 2 ≡ x / 2 - 1 = omega arith in
      let rest =
        log_rounds_lem n (x / 2) (omega (arith, pow-suc 2 n)) (omega arith)
          (ap (bit_and (x / 2)) (sym down) ∙ half) in
      rw t (double x _ even rest)
]
  where
    is_even : (x y : ℕ) → 1 < x → bit_and (x / 2) ((x - 1) / 2) ≡ 0 → x % 2 ≡ 0
    is_even x y large half = elim (Bool-cases (x % 2 == 0)) [
      | inl e ↦ ground arith
      | inr odd ↦
          let one : x % 2 ≡ 1 = ground arith in
          let same : (x - 1) / 2 ≡ x / 2 = omega arith in
          let z : x / 2 ≡ 0 = sym (and_self (x / 2)) ∙ ap (bit_and (x / 2)) (sym same) ∙ half in
          absurd (omega arith)
    ]

    double : (x m : ℕ) → x % 2 ≡ 0 → x / 2 ≡ 2 ^ m → x ≡ 2 ^ suc m
    double x m even rest = omega (arith, pow-suc 2 m)

power_test :
    (x : ℕ) → x < 2 ^ 64 → 0 < x → truth (bit_and x (sub64 x 1)) ≡ false → x ≡ 2 ^ log_rounds 64 x
power_test x h p e =
    let pred : sub64 x 1 ≡ x - 1 = omega arith in
    let z : bit_and x (sub64 x 1) ≡ 0 = ground arith in
    log_rounds_lem 64 x h p (ap (bit_and x) (sym pred) ∙ z)

eight : (k : ℕ) → 8 ≤ 2 ^ k → 3 ≤ k
eight zero h = omega arith
eight (suc zero) h = omega arith
eight (suc (suc zero)) h = omega arith
eight (suc (suc (suc k))) h = omega arith

-- `init` refuses every size that is not a power of two and every line below eight bytes. What it
-- accepts has 2 ^ j sets for some j and lines of 2 ^ k bytes, k at least 3, and `idx_shift` is k.
pub init-some :
    (sets ways linesz : ℕ) (tags : Tags) (c : Cache)
    → sets < 2 ^ 64
    → linesz < 2 ^ 64
    → init sets ways linesz tags ≡ some c
    → (j : ℕ) × (sets ≡ 2 ^ j)
      × (linesz ≡ 2 ^ c.idx_shift)
      × (3 ≤ c.idx_shift)
      × (c.sets ≡ sets)
      × (c.linesz ≡ linesz)
unfolding init
init-some sets ways linesz tags c small word h =
    elim (Bool-cases ((sets == 0) || truth (bit_and sets (sub64 sets 1)))) [
      | inl bad ↦ absurd (none≢some (sym (rw bad refl) ∙ h))
      | inr good ↦ elim (Bool-cases (ltb linesz 8 || truth (bit_and linesz (sub64 linesz 1)))) [
        | inl bad ↦ absurd (none≢some (sym (rw (good, bad) refl) ∙ h))
        | inr fine ↦
            let e = some-injective _ _ (rw (good, fine) at h) in
            rw (← e) (
              accepted sets linesz small word (ground arith) (ground arith) (ground arith)
                (ground arith))
      ]
    ]
  where
    accepted :
        (sets linesz : ℕ)
        → sets < 2 ^ 64
        → linesz < 2 ^ 64
        → 0 < sets
        → truth (bit_and sets (sub64 sets 1)) ≡ false
        → 8 ≤ linesz
        → truth (bit_and linesz (sub64 linesz 1)) ≡ false
        → (j : ℕ) × (sets ≡ 2 ^ j)
          × (linesz ≡ 2 ^ log_rounds 64 linesz)
          × (3 ≤ log_rounds 64 linesz)
          × (sets ≡ sets)
          × (linesz ≡ linesz)
    accepted sets linesz small word some_set t1 large t2 =
        let lines = power_test linesz word (omega arith) t2 in
        (
          log_rounds 64 sets,
          power_test sets small some_set t1,
          lines,
          eight _ (omega arith),
          refl,
          refl,
        )

lfsr_even : (reg : ℕ) → reg % 2 ≡ 0 → lfsr_next reg ≡ reg / 2
unfolding lfsr_next
lfsr_even reg e = bit_ext _ _ λ i.
    rw (and_mask 1 reg, e)
      (omega (arith, bit-xor (reg / 2) 0 i, bit-zero i, bit-le-one (reg / 2) i))

lfsr_odd : (reg : ℕ) → reg < 2 ^ 32 → reg % 2 ≡ 1 → bit (lfsr_next reg) 31 ≡ 1
unfolding lfsr_next
lfsr_odd reg h e =
    rw (and_mask 1 reg, e)
      (omega (arith, bit-xor (reg / 2) 0xd0000001 31, bit_lem 31 (reg / 2), bit_lem 31 0xd0000001))

lfsr-lt : (reg : ℕ) → reg < 2 ^ 32 → lfsr_next reg < 2 ^ 32
unfolding lfsr_next
lfsr-lt reg h = xor-lt 32 _ _ (omega arith) (and-lt_right 32 _ _ (omega arith))

-- The register of the generator stays a 32-bit word and never becomes 0, from which it could not
-- leave.
pub lfsr_next-nonzero :
    (reg : ℕ) → 0 < reg → reg < 2 ^ 32 → (0 < lfsr_next reg) × (lfsr_next reg < 2 ^ 32)
lfsr_next-nonzero reg p h = (
  elim (Bool-cases (reg % 2 == 0)) [
    | inl even ↦ let e : reg % 2 ≡ 0 = ground arith in omega (arith, lfsr_even reg e)
    | inr odd ↦ some_digit (lfsr_next reg) (lfsr_odd reg h (ground arith))
  ],
  lfsr-lt reg h,
)
  where
    some_digit : (v : ℕ) → bit v 31 ≡ 1 → 0 < v
    some_digit zero e = absurd (omega (arith, bit-zero 31))
    some_digit (suc v) e = omega arith
