-- ===== src/Insns/Ending.antt =====
-- How a body under riscv/insns may end, and the lemmas by which each of them does.
use spike.Base.{
  ℕ, ◌%◌, Bool, true, false, not, ◌≡◌, ◌⊎◌, inl, inr, refl, ◌∙◌, ap, sym, arith, Bool-cases,
  if◌then◌else◌, Option, none, some, List, [], ◌∷◌, bit_and, bit, bit-first, bit-and, min, and_mask,
  add64, not64,
}
use spike.Decode.{sb_imm, uj_imm, sext_xlen, csr}
use spike.Decode.Compressed.{rvc_b_imm, rvc_j_imm}
use spike.Encoding.Insns.{Insn}
use spike.Insns.{Body, Fetched, set_pc, write_reg}
use spike.Processor.Csr.Invariant.{IsLegal, set_csr-IsLegal}
use spike.Processor.Csr.Write.{set_csr}
use spike.Insns.Csr.{access_csr, csr_denied, serialize_before}
use spike.Processor.Csr.Read.{get_csr}
use spike.Processor.State.{Processor}
use spike.Processor.Step.{Executed, goes, traps, invalid_pc}
use spike.Processor.Step.Passes.{Ends, ends_trap, ends_valid, ends_after, ends_before}
use spike.Processor.Trap.Return
use spike.Processor.Trap.Return.{Outcome, next, thrown, misaligned}
use spike.Processor.Trap.{Trap}

-- What the loop sees of the outcome of a body.
abbrev pub executed : Outcome → Executed
executed (next npc) = goes npc
executed (thrown t) = traps t

abbrev pub is_return : Insn → Bool
is_return Insn.mret = true
is_return Insn.sret = true
is_return Insn.dret = true
is_return _ = false

-- What a body leaves of a legal hart: it is legal, and goes on at an even pc or throws at its own. A
-- return from a trap goes where a register says.
pub data Kept (ret : Bool) (p : Processor) (r : Processor × Outcome) : Type 0 where
  kept_next : (npc : ℕ) → r.1 ≡ next npc → npc % 2 ≡ 0 → (IsLegal p → IsLegal r.0) → Kept ret p r
  kept_thrown :
      (t : Trap)
      → r.1 ≡ thrown t
      → r.0.state.pc ≡ p.state.pc
      → (IsLegal p → IsLegal r.0)
      → Kept ret p r
  kept_waiting : p.state.serialized ≡ false → r ≡ (p, next serialize_before) → Kept ret p r
  kept_return : ret ≡ true → r.1 ≡ next Return.serialize_after → Kept ret p r

pub record EndsWell (ret : Bool) (p : Processor) (r : Processor × Outcome) : Type 0 where
  pub ends : Ends p (executed r.1)
  pub kept : Kept ret p r

-- One hart is legal where the other is.
pub record Legalizes (p q : Processor) : Type 0 where
  pub legalizes_lem : IsLegal p → IsLegal q

pub Legalizes-same : (p : Processor) → Legalizes p p
Legalizes-same p = record { legalizes_lem = λ v. v }

pub Legalizes-write : (p : Processor) (i value : ℕ) → Legalizes p (write_reg p i value)
unfolding write_reg
Legalizes-write p i value = record { legalizes_lem = λ v. v }

pub if_ends :
    {ret : Bool} (p : Processor) (b : Bool) (x y : Processor × Outcome)
    → EndsWell ret p x
    → EndsWell ret p y
    → EndsWell ret p (if b then x else y)
if_ends p true x y h k = h
if_ends p false x y h k = k

-- A word of the hart with an even pc, whose fall-through is even.
pub record AtEven (f : Fetched) : Type 0 where
  pub width : (f.xlen ≡ 32) ⊎ (f.xlen ≡ 64)
  pub even_pc : f.pc % 2 ≡ 0
  pub even_npc : f.npc % 2 ≡ 0

pub even_valid : (v : ℕ) → v % 2 ≡ 0 → invalid_pc v ≡ false
even_valid v e = let m : bit_and v 1 ≡ 0 = and_mask 1 v ∙ e in rw m refl

pub sext_xlen-even : (w v : ℕ) → (w ≡ 32) ⊎ (w ≡ 64) → v % 2 ≡ 0 → sext_xlen w v % 2 ≡ 0
unfolding sext_xlen
sext_xlen-even w v (inl narrow) e = rw narrow (ground arith)
sext_xlen-even w v (inr wide) e = rw wide (ground arith)

pub target_even : (a b : ℕ) → a % 2 ≡ 0 → b % 2 ≡ 0 → add64 a b % 2 ≡ 0
target_even a b h k = omega arith

pub cleared_even : (v : ℕ) → bit_and v (not64 1) % 2 ≡ 0
cleared_even v =
    sym (bit-first (bit_and v (not64 1)))
    ∙ bit-and v (not64 1) 0
    ∙ ap (min (bit v 0)) (bit-first (not64 1))
    ∙ least (bit v 0)
  where
    least : (a : ℕ) → min a 0 ≡ 0
    least a = omega arith

pub sb_imm_even : (b : ℕ) → sb_imm b % 2 ≡ 0
unfolding sb_imm
sb_imm_even b = omega arith

pub uj_imm_even : (b : ℕ) → uj_imm b % 2 ≡ 0
unfolding uj_imm
uj_imm_even b = omega arith

pub rvc_b_imm_even : (b : ℕ) → rvc_b_imm b % 2 ≡ 0
unfolding rvc_b_imm
rvc_b_imm_even b = omega arith

pub rvc_j_imm_even : (b : ℕ) → rvc_j_imm b % 2 ≡ 0
unfolding rvc_j_imm
rvc_j_imm_even b = omega arith

pub falls :
    {ret : Bool} (f : Fetched) (p q : Processor)
    → AtEven f
    → Legalizes p q
    → EndsWell ret p (q, next f.npc)
falls f p q at v = record {
  ends = ends_valid f.npc (even_valid f.npc at.even_npc) refl;
  kept = kept_next f.npc refl at.even_npc v.legalizes_lem;
}

pub rests : {ret : Bool} (f : Fetched) (p : Processor) → AtEven f → EndsWell ret p (p, next f.npc)
rests f p at = falls f p p at (Legalizes-same p)

pub writes :
    {ret : Bool} (f : Fetched) (p : Processor) (i value : ℕ)
    → AtEven f
    → EndsWell ret p (write_reg p i value, next f.npc)
writes f p i value at = falls f p _ at (Legalizes-write p i value)

pub throws : {ret : Bool} (p : Processor) (t : Trap) → EndsWell ret p (p, thrown t)
throws p t = record { ends = ends_trap t refl; kept = kept_thrown t refl refl (λ v. v) }

pub serializes : (p q : Processor) → EndsWell true p (q, next Return.serialize_after)
serializes p q = record { ends = ends_after refl; kept = kept_return refl refl }

pub set_pc_ends :
    {ret : Bool} (f : Fetched) (p : Processor) (target : ℕ) (after : Processor)
    → AtEven f
    → target % 2 ≡ 0
    → Legalizes p after
    → EndsWell ret p (set_pc f p target after)
unfolding set_pc
set_pc_ends f p target after at e v = elim (Bool-cases (misaligned p target)) [
  | inl bad ↦ rw bad (throws p _)
  | inr good ↦
      let even = sext_xlen-even f.xlen target at.width e in
      rw good record {
        ends = ends_valid (sext_xlen f.xlen target) (even_valid _ even) refl;
        kept = kept_next (sext_xlen f.xlen target) refl even v.legalizes_lem;
      }
]

pub if_cases :
    {ret : Bool} (p : Processor) (b : Bool) (x y : Processor × Outcome)
    → (b ≡ true → EndsWell ret p x)
    → EndsWell ret p y
    → EndsWell ret p (if b then x else y)
if_cases p true x y h k = h refl
if_cases p false x y h k = k

-- The serialization is used up.
abbrev pub used_up : Processor → Processor
used_up p = record p { state = record p.state { serialized = false } }

pub old_ends :
    {ret : Bool} (p : Processor) (o : Option ℕ) (refused : Processor × Outcome)
    (done : ℕ → Processor × Outcome)
    → EndsWell ret p refused
    → ((old : ℕ) → EndsWell ret p (done old))
    → EndsWell ret p (elim o [ none ↦ refused | some old ↦ done old ])
old_ends p none refused done h k = h
old_ends p (some old) refused done h k = k old

pub not-true : (b : Bool) → not b ≡ true → b ≡ false
not-true true e = sym e
not-true false e = refl

-- A refusal uses up the serialization.
pub refuses : {ret : Bool} (p : Processor) (t : Trap) → EndsWell ret p (used_up p, thrown t)
refuses p t = record { ends = ends_trap t refl; kept = kept_thrown t refl refl (λ v. v) }

pub set_csr-Legalizes :
    (p : Processor) (b : Bool) (which value : ℕ)
    → Legalizes p (if b then set_csr which (used_up p) value else used_up p)
set_csr-Legalizes p true which value = record {
  legalizes_lem = λ v. set_csr-IsLegal which (used_up p) value v;
}
set_csr-Legalizes p false which value = record { legalizes_lem = λ v. v }

pub Legalizes-written :
    (p q : Processor) (i value : ℕ) → Legalizes p q → Legalizes p (write_reg q i value)
unfolding write_reg
Legalizes-written p q i value v = record { legalizes_lem = v.legalizes_lem }

pub access_csr_ends :
    {ret : Bool} (f : Fetched) (p : Processor) (write : Bool) (new : ℕ → ℕ)
    → AtEven f
    → EndsWell ret p (access_csr f p write new)
unfolding access_csr
access_csr_ends f p write new at =
    if_cases p (not p.state.serialized) _ _
      (λ e. record {
        ends = ends_before (not-true p.state.serialized e) refl;
        kept = kept_waiting (not-true p.state.serialized e) refl;
      })
      (if_ends p (csr_denied p (csr f.insn) write) _ _ (refuses p _) (
        old_ends p (get_csr (csr f.insn) _ f.debug_interrupt) _ _ (refuses p _) (λ old.
          falls f p _ at
            (Legalizes-written p _ _ _ (set_csr-Legalizes p write (csr f.insn) (new old))))))

-- The end of a body at an even pc.
abbrev pub EndsBody : Insn → Body → Type 0
EndsBody insn body =
    (f : Fetched) (p : Processor) → AtEven f → EndsWell (is_return insn) p (body f p)

pub data AllEnd : List (Insn × Body) → Type 0 where
  all_checked : AllEnd []
  ◌▷◌ :
      {insn : Insn} {body : Body} {rest : List (Insn × Body)}
      → EndsBody insn body
      → AllEnd rest
      → AllEnd ((insn, body) ∷ rest)

infixr 4 ◌▷◌
pub ruleset endings = (
  if_ends, writes, rests, falls, throws, serializes, Legalizes-same, Legalizes-write, set_pc_ends,
  access_csr_ends, target_even, cleared_even, sb_imm_even, uj_imm_even, rvc_b_imm_even,
  rvc_j_imm_even,
)
