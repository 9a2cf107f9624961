-- ===== src/Tests/Opcodes.antt =====
-- The instruction table of riscv/processor.cc with the names of the instructions for their functions.
use spike.Base.{ℕ, ◌≡◌, refl, arith, none, some, Option, List}
use spike.Encoding.Insns.{Insn, declarations}
use spike.Processor.Opcodes.{
  InsnDesc, Opcodes, by_width, decode_insn, sort_insns, insert_insn, register_insn,
}
use spike.Processor.Opcodes.Base.{
  base_insns, register_insns, register_base_instructions, register_base_instructions-Decodes,
}
use spike.Processor.Opcodes.Decode.{Decodes, decode_insn-Decodes, decode_insn-first_match}
use spike.Processor.Opcodes.Order.{first_match}

abbrev name32 : Insn → Option Insn
name32 insn = some insn

abbrev table : List (InsnDesc (Option Insn))
table = sort_insns (base_insns name32 name32 none).instructions

abbrev decoder : Opcodes (Option Insn)
decoder = register_base_instructions name32 name32 none

decoder-Decodes : Decodes table decoder
decoder-Decodes = register_base_instructions-Decodes name32 name32 none

register_base_instructions-Decodes_example : Decodes table decoder
register_base_instructions-Decodes_example = register_base_instructions-Decodes name32 name32 none

decode_insn-Decodes_example :
    (f : Option Insn) × (o' : Opcodes (Option Insn)) × (decode_insn 64 decoder 0x00c58533
      ≡ some (f, o'))
    × Decodes table o'
decode_insn-Decodes_example = decode_insn-Decodes table 64 decoder 0x00c58533 decoder-Decodes

decode_insn-first_match_example :
    (d : InsnDesc (Option Insn)) × (o' : Opcodes (Option Insn)) × (first_match table 0x00c58533
      ≡ some d)
    × (decode_insn 64 decoder 0x00c58533 ≡ some (by_width 64 d, o'))
decode_insn-first_match_example =
    decode_insn-first_match table 64 decoder 0x00c58533 decoder-Decodes (omega arith)

-- The function that a word decodes to.
abbrev named : ℕ → Option (Option Insn)
named bits = elim (first_match table bits) [ none ↦ none | some d ↦ some d.rv64 ]

-- add a0, a1, a2
named-add : named 0x00c58533 ≡ some (some Insn.add)
unfolding first_match base_insns sort_insns insert_insn register_insns register_insn declarations
named-add = refl
