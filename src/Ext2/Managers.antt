-- ===== src/Ext2/Managers.antt =====
-- kernel/src/drivers/fs/ext2/managers.rs: the arithmetic of IoHandler and GroupManager between blocks,
-- sectors and groups. Addresses are not negative and far below the bound of `i64`.
mod Tests
pub mod Rounding
use package.dvida_oxide.Prelude.{ℕ, ◌*◌, ◌/◌, ◌%◌, ◌+◌, ◌^◌}
use package.dvida_oxide.Ext2.{as_u32}
use package.dvida_oxide.Ext2.Allocator.{sector_size}

-- Of both handlers, the numbers.
pub record GroupManager : Type 0 where
  pub blocks_per_group : ℕ
  pub first_data_block : ℕ
  pub block_size : ℕ

abbrev pub block_group_descriptor_size : ℕ
block_group_descriptor_size = 32

pub block_idx_to_lba : GroupManager → ℕ → ℕ
block_idx_to_lba m block_idx = block_idx * m.block_size / sector_size

pub lba_to_block_idx : GroupManager → ℕ → ℕ
lba_to_block_idx m lba = as_u32 (as_u32 (lba / m.block_size) * sector_size)

-- The group that `get_group_from_block_idx` and `get_group_from_lba` ask for.
pub group_of_block_idx : GroupManager → ℕ → ℕ
group_of_block_idx m idx = idx / m.blocks_per_group

pub group_of_lba : GroupManager → ℕ → ℕ
unfolding lba_to_block_idx
group_of_lba m lba = lba_to_block_idx m lba / m.blocks_per_group

-- Where `get_group` reads the descriptor: the sector, and the first byte in it.
pub descriptor_sector : GroupManager → ℕ → ℕ
unfolding block_idx_to_lba
descriptor_sector m gr_number =
    block_idx_to_lba m (m.first_data_block + 1)
    + gr_number * block_group_descriptor_size / sector_size

pub descriptor_byte : ℕ → ℕ
descriptor_byte gr_number = gr_number * block_group_descriptor_size % sector_size
