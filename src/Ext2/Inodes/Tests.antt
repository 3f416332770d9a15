-- ===== src/Ext2/Inodes/Tests.antt =====
-- Inodes at concrete numbers, with a code of their bytes that keeps the mode.
use dvida_oxide.Prelude.{
  ℕ, ◌+◌, ◌*◌, ◌≡◌, refl, ap, ◌∙◌, true, some, [], get_or, set, replicate, length-set,
  get_or-set_self, get_or-set_ne, arith,
}
use dvida_oxide.Ext2.{Res, done, Bytes}
use dvida_oxide.Ext2.Files.{Inode}
use dvida_oxide.Ext2.Inodes.{
  InodePlus, Sectors, global_idx_to_inode_plus, relative_idx_to_inode_plus,
}
use dvida_oxide.Ext2.Inodes.Stored.{Encodes, Tables, StoredInode, write_inode-StoredInode}

abbrev with_mode : ℕ → Inode
with_mode mode = record { i_mode = mode; i_size = 0; i_blocks = 0; i_block = [] }

abbrev deserialize_inode : Bytes → Res Inode
deserialize_inode b = done (with_mode (get_or b 0 0))

abbrev serialize_inode : Inode → Bytes → Res ℕ × Bytes
serialize_inode inode target = (done 128, set target 0 inode.i_mode)

abbrev Fits : Inode → Type 0
Fits inode = with_mode inode.i_mode ≡ inode

encodes : Encodes deserialize_inode serialize_inode Fits
encodes = record {
  writes = λ inode target fits enough. (
    set target 0 inode.i_mode,
    refl,
    length-set target 0 inode.i_mode,
    ap done (ap with_mode (get_or-set_self target 0 inode.i_mode 0 (omega arith)) ∙ fits),
    λ j h. get_or-set_ne target 0 j inode.i_mode 0 (λ e. omega (arith, h, e)),
  );
  reads = λ a b la lb same. ap (λ m. done (with_mode m)) (same 0 (omega arith));
}

-- Groups of eight inodes, each with two sectors.
abbrev table : ℕ → ℕ
table g = 10 + 2 * g

tables : Tables 8 (λ g. done (table g)) table
tables = record {
  at = λ g. refl;
  apart = λ g g' i i' differ low low' e. differ (omega (arith, low, low', e));
}

abbrev sectors : Sectors
sectors = record { read = λ n. some (replicate 512 0); writable = λ n. true }

abbrev twelve : InodePlus
twelve = record { inode = with_mode 7; relative_idx = 3; group_number = 1; absolute_idx = 12 }

write_inode-StoredInode_example :
    StoredInode 8
      (λ g. done (table g))
      deserialize_inode
      serialize_inode
      Fits
      encodes
      table
      tables
      sectors
      (λ n. replicate 512 0)
      (λ n. refl)
      (λ n. refl)
      (λ n. refl)
      12
      twelve
unfolding global_idx_to_inode_plus
write_inode-StoredInode_example =
    write_inode-StoredInode 8 (λ g. done (table g)) deserialize_inode serialize_inode Fits encodes
      table tables sectors (λ n. replicate 512 0) (λ n. refl) (λ n. refl) (λ n. refl) 12
      (with_mode 7) twelve (omega arith) (omega arith) (omega arith) refl refl

-- The number of a place in a group is that of the inode.
numbers_agree : (relative_idx_to_inode_plus 8 (with_mode 7) 1 3).absolute_idx ≡ 12
unfolding relative_idx_to_inode_plus
numbers_agree = refl
