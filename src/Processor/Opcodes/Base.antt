-- ===== src/Processor/Opcodes/Base.antt =====
-- `register_base_instructions` in riscv/processor.cc: the instruction table of every processor.
use spike.Base.{refl, none, some, List, [], ◌∷◌}
use spike.Encoding.Insns.{Insn, Declaration, declarations}
use spike.Processor.Opcodes.{Opcodes, register_insn, build_opcode_map, sort_insns}
use spike.Processor.Opcodes.Decode.{Decodes}
use spike.Processor.Opcodes.Order.{Pairwise, Terminated}
use spike.Processor.Opcodes.Sort.{
  append-Terminated, all_compatible, compatible, compatible_with, all_compatible_sound,
  build_opcode_map-Decodes,
}

-- The functions `rv32_NAME` and `rv64_NAME` of each instruction, which a build generates from
-- riscv/insn_template.cc, and `illegal_instruction`.
module _ {F : Type 0} (rv32 rv64 : Insn → F) (illegal : F) where
  -- `REGISTER_INSN` for the declarations in turn. The order of the registration is another one than
  -- that of riscv/riscv.mk.in, which the sort makes no difference of.
  unfoldable pub register_insns : List Declaration → Opcodes F → Opcodes F
  unfolding register_insn
  register_insns [] o = o
  register_insns (d ∷ rest) o = register_insns rest (elim d.insn [
    | none ↦ o
    | some insn ↦
        register_insn o
          record { match = d.match; mask = d.mask; rv32 = rv32 insn; rv64 = rv64 insn }
  ])

  abbrev no_insns : Opcodes F
  no_insns = record {
    instructions = [];
    opcode_cache = λ _. record { match = 0; mask = 0; rv32 = illegal; rv64 = illegal };
  }

  unfoldable pub base_insns : Opcodes F
  unfolding register_insns register_insn declarations
  base_insns =
      register_insn (register_insns declarations no_insns)
        record { match = 0; mask = 0; rv32 = illegal; rv64 = illegal }

  unfoldable pub register_base_instructions : Opcodes F
  unfolding base_insns build_opcode_map
  register_base_instructions = build_opcode_map illegal base_insns

  base_insns-Pairwise : Pairwise base_insns.instructions
  unfolding all_compatible compatible_with compatible base_insns register_insns register_insn
      declarations
  base_insns-Pairwise = all_compatible_sound base_insns.instructions refl

  base_insns-Terminated : Terminated base_insns.instructions
  unfolding base_insns register_insn
  base_insns-Terminated =
      append-Terminated (register_insns declarations no_insns).instructions
        record { match = 0; mask = 0; rv32 = illegal; rv64 = illegal } refl refl

  -- The decoder of a processor stands for the table of the base instructions, whatever the functions.
  pub register_base_instructions-Decodes :
      Decodes (sort_insns base_insns.instructions) register_base_instructions
  unfolding register_base_instructions
  register_base_instructions-Decodes =
      build_opcode_map-Decodes illegal base_insns base_insns-Pairwise base_insns-Terminated
