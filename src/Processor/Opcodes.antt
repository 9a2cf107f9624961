-- ===== src/Processor/Opcodes.antt =====
-- The instruction table of riscv/processor.cc and riscv/processor.h: `register_insn`,
-- `build_opcode_map` and `decode_insn`, which keeps a cache and moves what it finds to the front.
pub mod Order
pub mod Sort
pub mod Base
pub mod Decode
pub mod Move
use mathlib.Core.Bool.{◌||◌}
use spike.Base.{
  ℕ, ◌%◌, Bool, true, false, ◌&&◌, not, ltb, ◌==◌, if◌then◌else◌, Option, none, some, List, [], ◌∷◌,
  ◌++◌, bit_and,
}

-- `insn_desc_t`; `F` is the type of the functions `rv32` and `rv64`.
pub record InsnDesc (F : Type 0) : Type 0 where
  pub match : ℕ
  pub mask : ℕ
  pub rv32 : F
  pub rv64 : F

abbrev pub opcode_cache_size : ℕ
opcode_cache_size = 8191

-- The members of `processor_t` that hold the instructions.
pub record Opcodes (F : Type 0) : Type 0 where
  pub instructions : List (InsnDesc F)
  pub opcode_cache : ℕ → InsnDesc F

-- What the search stops at: the entries before it, the entry, and those after it.
pub record Found (F : Type 0) : Type 0 where
  pub before : List (InsnDesc F)
  pub desc : InsnDesc F
  pub after : List (InsnDesc F)

module _ {F : Type 0} where
  -- `(insn.bits() & p->mask) == p->match`
  abbrev pub matches : ℕ → InsnDesc F → Bool
  matches bits d = bit_and bits d.mask == d.match

  abbrev pub passed : InsnDesc F → Option (Found F) → Option (Found F)
  passed d none = none
  passed d (some found) = some record found { before = d ∷ found.before }

  -- The linear search; `none` where it runs off the end of the table.
  unfoldable pub find_insn : List (InsnDesc F) → ℕ → Option (Found F)
  find_insn [] bits = none
  find_insn (d ∷ rest) bits =
      let later = find_insn rest bits in
      if matches bits d then some record { before = []; desc = d; after = rest } else passed d later

  -- `p->match != (p-1)->match`, where there is an entry before.
  unfoldable pub differs_last : List (InsnDesc F) → ℕ → Bool
  differs_last [] match = true
  differs_last (d ∷ []) match = not (d.match == match)
  differs_last (d ∷ e ∷ rest) match = differs_last (e ∷ rest) match

  -- `p->match != (p+1)->match`. An entry with a mask is never the last of the table.
  unfoldable pub differs_first : List (InsnDesc F) → ℕ → Bool
  differs_first [] match = false
  differs_first (d ∷ rest) match = not (d.match == match)

  abbrev pub is_first : List (InsnDesc F) → Bool
  is_first [] = true
  is_first (d ∷ rest) = false

  -- The table after a search: the entry moves to the front, unless it is there already, has no mask or
  -- has a neighbour with its match.
  unfoldable pub move_to_front : Found F → List (InsnDesc F)
  unfolding differs_last differs_first
  move_to_front found =
      if not (found.desc.mask == 0)
        && not (is_first found.before)
        && (differs_last found.before found.desc.match
            && differs_first found.after found.desc.match)
      then found.desc ∷ (found.before ++ found.after)
      else found.before ++ (found.desc ∷ found.after)

  abbrev pub set_cache : (ℕ → InsnDesc F) → ℕ → InsnDesc F → ℕ → InsnDesc F
  set_cache cache idx desc i = if i == idx then desc else cache i

  -- `decode_insn`, less the choice by the width; `none` where the search runs off the table.
  unfoldable pub lookup_insn : Opcodes F → ℕ → Option (InsnDesc F × Opcodes F)
  unfolding find_insn move_to_front
  lookup_insn o bits =
      let idx = bits % opcode_cache_size in
      let cached = o.opcode_cache idx in
      if bits == cached.match then some (cached, o) else elim (find_insn o.instructions bits) [
        | none ↦ none
        | some found ↦ some (
          found.desc,
          record {
            instructions = move_to_front found;
            opcode_cache = set_cache o.opcode_cache idx (record found.desc { match = bits });
          },
        )
      ]

  abbrev pub by_width : ℕ → InsnDesc F → F
  by_width xlen desc = if xlen == 64 then desc.rv64 else desc.rv32

  unfoldable pub decode_insn : ℕ → Opcodes F → ℕ → Option (F × Opcodes F)
  unfolding lookup_insn
  decode_insn xlen o bits = elim (lookup_insn o bits) [
    | none ↦ none
    | some found ↦ some (by_width xlen found.0, found.1)
  ]

  -- The order `cmp` of `build_opcode_map`.
  abbrev pub precedes : InsnDesc F → InsnDesc F → Bool
  precedes lhs rhs =
      if lhs.match == rhs.match then ltb rhs.mask lhs.mask else ltb rhs.match lhs.match

  -- `std::sort`, by insertion.
  unfoldable pub insert_insn : InsnDesc F → List (InsnDesc F) → List (InsnDesc F)
  insert_insn d [] = d ∷ []
  insert_insn d (e ∷ rest) =
      let later = insert_insn d rest in if precedes e d then e ∷ later else d ∷ e ∷ rest

  unfoldable pub sort_insns : List (InsnDesc F) → List (InsnDesc F)
  sort_insns [] = []
  sort_insns (d ∷ rest) = insert_insn d (sort_insns rest)

  unfoldable pub register_insn : Opcodes F → InsnDesc F → Opcodes F
  register_insn o desc = record o { instructions = o.instructions ++ (desc ∷ []) }

  -- `build_opcode_map`, with what `illegal_instruction` stands for.
  unfoldable pub build_opcode_map : F → Opcodes F → Opcodes F
  unfolding sort_insns insert_insn
  build_opcode_map illegal o = record {
    instructions = sort_insns o.instructions;
    opcode_cache = λ _. record { match = 0; mask = 0; rv32 = illegal; rv64 = illegal };
  }
