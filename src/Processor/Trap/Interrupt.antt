-- ===== src/Processor/Trap/Interrupt.antt =====
-- Which interrupt `take_interrupt` raises.
use native.Mathlib.Decide.{dec_lt}
use native.Mathlib.Nat.{pow-suc}
use mathlib.Core.Option.{some-injective}
use spike.Base.{
  ℕ, zero, suc, ◌-◌, ◌/◌, ◌%◌, ◌^◌, ◌≤◌, ◌<◌, min, max, bit_and, bit_or, Bool, true, false, ◌&&◌,
  ◌||◌, ◌≡◌, ◌⊎◌, ◌↔◌, inl, inr, refl, ◌∙◌, sym, arith, ltb, ◌==◌, Bool-cases, truth, bit, bit-and,
  bit-or, bit-le-one, bit-high, bit-zero, not64-bit, neg64, not64, from_bool, shr, or-lt, and-lt,
  bit_mask, none≢some, bit-first, bit-suc, and_mask, none, some,
}
use spike.Decode.{get_field}
use spike.Decode.Fields.{field, get_field_lem}
use spike.Encoding.{prv_m, prv_s, mstatus_mie, mstatus_sie}
use spike.Processor.State.{Processor}
use spike.Processor.Trap.{
  Trap, ctz, ctz_rounds, enabled_interrupts, take_interrupt, interrupt_cause,
}

-- `ctz` is the position of the lowest one.
ctz_rounds_lem :
    (n v : ℕ)
    → v < 2 ^ n
    → 0 < v
    → (bit v (ctz_rounds n v) ≡ 1) × ((j : ℕ) → j < ctz_rounds n v → bit v j ≡ 0)
unfolding ctz_rounds
ctz_rounds_lem zero v h p = absurd (omega arith)
ctz_rounds_lem (suc n) v h p = elim (Bool-cases (bit_and v 1 == 0)) [
  | inl even ↦
      let halves : v / 2 < 2 ^ n = omega (arith, pow-suc 2 n) in
      let low : v % 2 ≡ 0 = ground (arith, and_mask 1 v) in
      let (found, below) = ctz_rounds_lem n (v / 2) halves (omega arith) in
      let e : shr v 1 ≡ v / 2 = refl in rw even (bit-suc v _ ∙ found, λ j q. lower j q low below)
  | inr odd ↦
      let low : v % 2 ≡ 1 = ground (arith, and_mask 1 v) in
      rw odd (bit-first v ∙ low, λ j q. absurd (omega arith))
]
  where
    lower :
        (j : ℕ)
        → j < suc (ctz_rounds n (v / 2))
        → v % 2 ≡ 0
        → ((j : ℕ) → j < ctz_rounds n (v / 2) → bit (v / 2) j ≡ 0)
        → bit v j ≡ 0
    lower zero q low below = bit-first v ∙ low
    lower (suc j) q low below = bit-suc v j ∙ below j (omega arith)

ctz_lem : (v : ℕ) → v < 2 ^ 64 → 0 < v → (bit v (ctz v) ≡ 1) × ((j : ℕ) → j < ctz v → bit v j ≡ 0)
unfolding ctz
ctz_lem v h p =
    let some_one : truth v ≡ true = ground arith in rw some_one (ctz_rounds_lem 64 v h p)

-- The privileged architecture's rule for interrupt `i`: it is pending and enabled; if it is not
-- delegated, the hart is below machine mode or has MIE set there; if it is delegated, the hart is in
-- user mode, or in supervisor mode with SIE set.
abbrev pub MachineTakes : Processor → Type 0
MachineTakes p = (p.state.prv < 3) ⊎ ((p.state.prv ≡ 3) × (field 3 1 p.state.mstatus ≡ 1))

abbrev pub SupervisorTakes : Processor → Type 0
SupervisorTakes p = (p.state.prv < 1) ⊎ ((p.state.prv ≡ 1) × (field 1 1 p.state.mstatus ≡ 1))

abbrev pub IsEnabled : Processor → ℕ → Type 0
IsEnabled p i =
    (bit p.state.mip i ≡ 1)
    × (bit p.state.mie i ≡ 1)
    × (((bit p.state.mideleg i ≡ 0) × MachineTakes p)
        ⊎ ((bit p.state.mideleg i ≡ 1) × SupervisorTakes p))

m_enabled : Processor → Bool
m_enabled p =
    ltb p.state.prv prv_m || (p.state.prv == prv_m && truth (get_field p.state.mstatus mstatus_mie))

s_enabled : Processor → Bool
s_enabled p =
    ltb p.state.prv prv_s || (p.state.prv == prv_s && truth (get_field p.state.mstatus mstatus_sie))

m_enabled_iff : (p : Processor) → (m_enabled p ≡ true) ↔ MachineTakes p
unfolding m_enabled
m_enabled_iff p = rw (get_field_lem 3 1 (omega arith) (omega arith) p.state.mstatus) (ground arith)

s_enabled_iff : (p : Processor) → (s_enabled p ≡ true) ↔ SupervisorTakes p
unfolding s_enabled
s_enabled_iff p = rw (get_field_lem 1 1 (omega arith) (omega arith) p.state.mstatus) (ground arith)

bit-neg64 : (b : Bool) (i : ℕ) → i < 64 → bit (neg64 (from_bool b)) i ≡ from_bool b
bit-neg64 true i h = bit_mask 64 i h
bit-neg64 false i h = bit-zero i

-- A digit of the word that `enabled_interrupts` puts together.
enabled_digits :
    (a b d m s i x y : ℕ)
    → d < 2 ^ 64
    → i < 64
    → bit m i ≡ x
    → bit s i ≡ y
    → bit
        (bit_or (bit_and (bit_and (bit_and a b) (not64 d)) m) (bit_and (bit_and (bit_and a b) d) s))
        i
      ≡ max
          (min (min (min (bit a i) (bit b i)) (1 - bit d i)) x)
          (min (min (min (bit a i) (bit b i)) (bit d i)) y)
enabled_digits a b d m s i x y word small e f =
    let c : bit (not64 d) i ≡ 1 - bit d i = omega (arith, not64-bit d i word small) in
    bit-or _ _ i
    ∙ (rw
        (
          bit-and (bit_and (bit_and a b) (not64 d)) m i,
          bit-and (bit_and a b) (not64 d) i,
          bit-and (bit_and (bit_and a b) d) s i,
          bit-and (bit_and a b) d i,
          bit-and a b i,
          c,
          e,
          f,
        )
        refl)

enabled-bit :
    (p : Processor) (i : ℕ)
    → p.state.mideleg < 2 ^ 64
    → i < 64
    → bit (enabled_interrupts p) i
      ≡ max
          (min
            (min (min (bit p.state.mip i) (bit p.state.mie i)) (1 - bit p.state.mideleg i))
            (from_bool (m_enabled p)))
          (min
            (min (min (bit p.state.mip i) (bit p.state.mie i)) (bit p.state.mideleg i))
            (from_bool (s_enabled p)))
unfolding enabled_interrupts m_enabled s_enabled
enabled-bit p i word small =
    enabled_digits _ _ _ _ _ i _ _ word small (bit-neg64 _ i small) (bit-neg64 _ i small)

-- The digit of `enabled_interrupts` is one exactly where the rule above holds.
digit_rule :
    (a b d i : ℕ) (m s : Bool)
    → (max
          (min (min (min (bit a i) (bit b i)) (1 - bit d i)) (from_bool m))
          (min (min (min (bit a i) (bit b i)) (bit d i)) (from_bool s))
        ≡ 1)
      ↔ ((bit a i ≡ 1)
          × (bit b i ≡ 1)
          × (((bit d i ≡ 0) × (m ≡ true)) ⊎ ((bit d i ≡ 1) × (s ≡ true))))
digit_rule a b d i true true =
    let le1 = bit-le-one a i in let le2 = bit-le-one b i in let le3 = bit-le-one d i in ground arith
digit_rule a b d i true false =
    let le1 = bit-le-one a i in let le2 = bit-le-one b i in let le3 = bit-le-one d i in ground arith
digit_rule a b d i false true =
    let le1 = bit-le-one a i in let le2 = bit-le-one b i in let le3 = bit-le-one d i in ground arith
digit_rule a b d i false false =
    let le1 = bit-le-one a i in let le2 = bit-le-one b i in let le3 = bit-le-one d i in ground arith

rule_map :
    {A B X Y C D C' D' : Type 0}
    → (C → C')
    → (D → D')
    → A × B × ((X × C) ⊎ (Y × D))
    → A × B × ((X × C') ⊎ (Y × D'))
rule_map f g (a, b, inl (x, c)) = (a, b, inl (x, f c))
rule_map f g (a, b, inr (x, d)) = (a, b, inr (x, g d))

IsEnabled-rule :
    (p : Processor) (i : ℕ)
    → p.state.mideleg < 2 ^ 64
    → i < 64
    → (bit (enabled_interrupts p) i ≡ 1) ↔ IsEnabled p i
IsEnabled-rule p i word small = rw (enabled-bit p i word small) (
    let (there, back) =
      digit_rule p.state.mip p.state.mie p.state.mideleg i (m_enabled p) (s_enabled p) in
    let (m1, m2) = m_enabled_iff p in
    let (s1, s2) = s_enabled_iff p in (λ e. rule_map m1 s1 (there e), λ e. back (rule_map m2 s2 e)))

-- What `take_interrupt` throws is enabled, and no enabled interrupt has a lower number.
enabled-lt : (p : Processor) → p.state.mip < 2 ^ 64 → enabled_interrupts p < 2 ^ 64
unfolding enabled_interrupts
enabled-lt p word =
    or-lt 64 _ _ (and-lt 64 _ _ (and-lt 64 _ _ (and-lt 64 _ _ word)))
      (and-lt 64 _ _ (and-lt 64 _ _ (and-lt 64 _ _ word)))

silent : (p : Processor) → ¬ (0 < enabled_interrupts p) → take_interrupt p ≡ none
unfolding take_interrupt
silent p h = let t : truth (enabled_interrupts p) ≡ false = ground arith in rw t refl

ctz-lt : (v i : ℕ) → v < 2 ^ 64 → bit v i ≡ 1 → i < 64
ctz-lt v i h found = elim (dec_lt i 64) [
  | yes small ↦ small
  | no large ↦ let z = bit-high 64 v i h (omega arith) in absurd (omega arith)
]

raised :
    (p : Processor)
    → 0 < enabled_interrupts p
    → take_interrupt p
      ≡ some (record { cause = interrupt_cause p (ctz (enabled_interrupts p)); badaddr = none })
unfolding take_interrupt
raised p h = let t : truth (enabled_interrupts p) ≡ true = ground arith in rw t refl

-- If interrupt `j` is pending and enabled by the architecture's rule, `take_interrupt` throws an
-- interrupt that is itself pending and enabled, and its number is at most `j`: the lowest enabled
-- interrupt is taken.
pub take_interrupt-lowest :
    (p : Processor) (j : ℕ)
    → p.state.mip < 2 ^ 64
    → p.state.mideleg < 2 ^ 64
    → j < 64
    → IsEnabled p j
    → (i : ℕ) × (take_interrupt p ≡ some (record { cause = interrupt_cause p i; badaddr = none }))
      × IsEnabled p i
      × (i ≤ j)
take_interrupt-lowest p j wide word small e =
    let (there, back) = IsEnabled-rule p j word small in
    let one = back e in
    let some_digit : 0 < enabled_interrupts p = positive _ one in
    let (found, below) = ctz_lem (enabled_interrupts p) (enabled-lt p wide) some_digit in
    let least = lowest (enabled_interrupts p) _ j below one in
    let (rule, _) = IsEnabled-rule p (ctz (enabled_interrupts p)) word (omega arith) in
    (ctz (enabled_interrupts p), raised p some_digit, rule found, least)
  where
    positive : (v : ℕ) → bit v j ≡ 1 → 0 < v
    positive zero h = absurd (omega (arith, bit-zero j))
    positive (suc v) h = omega arith

    lowest : (v c j : ℕ) → ((j : ℕ) → j < c → bit v j ≡ 0) → bit v j ≡ 1 → c ≤ j
    lowest v c j below one = elim (dec_lt j c) [
      | yes h ↦ let z = below j h in absurd (omega arith)
      | no h ↦ omega arith
    ]

-- What `take_interrupt` throws is an interrupt below 64, with no bad address, that is pending and
-- enabled by the architecture's rule.
pub take_interrupt-IsEnabled :
    (p : Processor) (t : Trap)
    → p.state.mip < 2 ^ 64
    → p.state.mideleg < 2 ^ 64
    → take_interrupt p ≡ some t
    → (i : ℕ) × (t ≡ record { cause = interrupt_cause p i; badaddr = none })
      × (i < 64)
      × IsEnabled p i
take_interrupt-IsEnabled p t wide word h = elim (dec_lt 0 (enabled_interrupts p)) [
  | no z ↦ absurd (none≢some (sym (silent p z) ∙ h))
  | yes some_digit ↦
      let (found, _) = ctz_lem (enabled_interrupts p) (enabled-lt p wide) some_digit in
      let small =
        ctz-lt (enabled_interrupts p) (ctz (enabled_interrupts p)) (enabled-lt p wide) found in
      let (rule, _) = IsEnabled-rule p (ctz (enabled_interrupts p)) word small in
      (
        ctz (enabled_interrupts p),
        some-injective _ _ (sym h ∙ raised p some_digit),
        small,
        rule found,
      )
]
