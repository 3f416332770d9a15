-- ===== src/Ext2/Allocator/Tests.antt =====
-- Runs of the block allocator, and its theorems at concrete inputs.
use dvida_oxide.Prelude.{ℕ, ◌==◌, if◌then◌else◌, Option, some, [], ◌∷◌}
use dvida_oxide.Ext2.{Bytes}
use dvida_oxide.Ext2.Allocator.{Ext2BlockGroup, BlockAllocator, allocate_n_blocks}
use dvida_oxide.Ext2.Allocator.Outcome.{AllocOutcome, allocate_n_blocks-AllocOutcome}

-- Two groups of eight blocks of two sectors, with block 1 of the first and block 3 of the second free.
get_group : ℕ → Option Ext2BlockGroup
get_group g =
    some (record {
      group_number = g;
      blocks_per_group = 8;
      sectors_per_block = 2;
      bg_block_bitmap = g;
    })

bitmap : Ext2BlockGroup → Option Bytes
bitmap group =
    if group.bg_block_bitmap == 0 then some (0b1111_1101 ∷ []) else some (0b1111_0111 ∷ [])

abbrev allocator : BlockAllocator
allocator = record {
  block_groups_count = 2;
  blocks_per_group = 8;
  allocated_block_indices = [];
  unwritten_freed_blocks = [];
}

allocate_n_blocks-AllocOutcome_example :
    AllocOutcome get_group bitmap 8 2 0 allocator 2
      (allocate_n_blocks get_group bitmap 0 2 allocator)
allocate_n_blocks-AllocOutcome_example =
    allocate_n_blocks-AllocOutcome get_group bitmap 0 2 allocator
