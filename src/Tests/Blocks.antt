-- ===== src/Tests/Blocks.antt =====
-- The ORAM of riscv/oramsim.cc with four blocks, over a memory that counts its accesses.
use spike.Base.{ℕ, ◌+◌, ◌≡◌, refl, arith, some, none}
use spike.Mmu.{AccessType}
use spike.Oram.{Oram, init, access, get_block_id}
use spike.Oram.Access.{init-WellFormed, init-unplaced, access-WellFormed, access-some}
use spike.Oram.Invariant.{WellFormed}

count_accesses : ℕ → ℕ → ℕ → AccessType → ℕ
count_accesses n addr bytes type_ = n + 1

abbrev two_levels : ℕ → ℕ
two_levels n = 2

abbrev four_blocks : Oram
unfolding init get_block_id
four_blocks = init two_levels 4 8 1 65536

init-WellFormed_example : WellFormed four_blocks
unfolding init get_block_id
init-WellFormed_example = init-WellFormed two_levels 4 8 1 65536 refl (omega arith) (omega arith)

four_blocks-WellFormed : WellFormed four_blocks
unfolding init get_block_id
four_blocks-WellFormed = init-WellFormed two_levels 4 8 1 65536 refl (omega arith) (omega arith)

-- The third place above the path is empty, so that block 1 can be accessed.
access-some_example :
    (o' : Oram) × (below' : ℕ) × (access count_accesses four_blocks 0 0x80010000 7
      ≡ some (o', below'))
unfolding init get_block_id
access-some_example =
    access-some count_accesses four_blocks 0 0x80010000 7 5 four_blocks-WellFormed (omega arith)
      (omega arith) (omega arith) refl

served :
    (o' : Oram) × (below' : ℕ) × (access count_accesses four_blocks 0 0x80010000 7
      ≡ some (o', below'))
unfolding init get_block_id
served =
    access-some count_accesses four_blocks 0 0x80010000 7 5 four_blocks-WellFormed (omega arith)
      (omega arith) (omega arith) refl

access-WellFormed_example : WellFormed served.0
access-WellFormed_example =
    access-WellFormed count_accesses four_blocks served.0 0 served.1 0x80010000 7
      four_blocks-WellFormed served.2

-- With 5 blocks there are 4 leaves, and block 4 has none.
init-unplaced_example : access count_accesses (init two_levels 3 8 1 65536) 0 0x80040000 7 ≡ none
unfolding init get_block_id
init-unplaced_example =
    init-unplaced count_accesses two_levels 3 8 1 65536 0 0x80040000 7 (omega arith) (omega arith)
