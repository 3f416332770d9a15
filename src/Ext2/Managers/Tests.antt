-- ===== src/Ext2/Managers/Tests.antt =====
-- The conversions at concrete inputs.
use dvida_oxide.Prelude.{◌≡◌, refl, arith}
use dvida_oxide.Ext2.Managers.{GroupManager, block_idx_to_lba, lba_to_block_idx}
use dvida_oxide.Ext2.Managers.Rounding.{lba_to_block_idx-block_idx_to_lba}

abbrev manager : GroupManager
manager = record { blocks_per_group = 8192; first_data_block = 1; block_size = 1024 }

-- Block 700 comes back as block 512.
lba_to_block_idx-block_idx_to_lba_example :
    lba_to_block_idx manager (block_idx_to_lba manager 700) ≡ 512
lba_to_block_idx-block_idx_to_lba_example =
    lba_to_block_idx-block_idx_to_lba manager 700 refl (omega arith)
