-- ===== src/Ext2/Managers/Rounding.antt =====
-- How far the conversions between blocks and sectors are inverse to each other.
use dvida_oxide.Prelude.{ℕ, ◌*◌, ◌/◌, ◌+◌, ◌≤◌, ◌<◌, ◌≡◌, ◌∙◌, ap, arith}
use native.Mathlib.Nat.{mod-eq_of_lt}
use dvida_oxide.Ext2.{as_u32}
use dvida_oxide.Ext2.Managers.{
  GroupManager, block_idx_to_lba, lba_to_block_idx, descriptor_sector, descriptor_byte,
}

-- With blocks of 1024 bytes, the block index that `lba_to_block_idx` finds for the first sector of a
-- block is that of the block rounded down to a multiple of 512.
pub lba_to_block_idx-block_idx_to_lba :
    (m : GroupManager) (b : ℕ)
    → m.block_size ≡ 1024
    → b < 4294967296
    → lba_to_block_idx m (block_idx_to_lba m b) ≡ b / 512 * 512
unfolding lba_to_block_idx block_idx_to_lba
lba_to_block_idx-block_idx_to_lba m b size low =
    let sectors : b * m.block_size / 512 ≡ b * 2 = ap (λ s. b * s / 512) size ∙ omega arith in
    let blocks : b * m.block_size / 512 / m.block_size ≡ b / 512 =
      ap (λ s. b * m.block_size / 512 / s) size ∙ ap (λ l. l / 1024) sectors ∙ omega arith in
    let word : as_u32 (b / 512) ≡ b / 512 =
      mod-eq_of_lt {n = b / 512} {m = 4294967296} (omega arith) in
    ap (λ t. as_u32 (as_u32 t * 512)) blocks
    ∙ ap (λ t. as_u32 (t * 512)) word
    ∙ mod-eq_of_lt {n = b / 512 * 512} {m = 4294967296} (omega arith)

-- The descriptors of two groups do not overlap, and none runs over the end of its sector.
pub descriptor-apart :
    (m : GroupManager) (g h : ℕ)
    → g < h
    → (descriptor_byte g + 32 ≤ 512)
      × (descriptor_sector m g * 512 + descriptor_byte g + 32
          ≤ descriptor_sector m h * 512 + descriptor_byte h)
unfolding descriptor_sector descriptor_byte
descriptor-apart m g h lt = (omega arith, omega arith)
