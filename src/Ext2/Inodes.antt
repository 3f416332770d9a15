-- ===== src/Ext2/Inodes.antt =====
-- kernel/src/drivers/fs/ext2/inode.rs: the numbers of inodes, and their places in the tables of the
-- groups. The bytes of an inode, which a macro's code reads and writes, and the first sector of a group's
-- table are parameters. The counters that do_write_inode keeps for a new inode are not here.
pub mod Numbers
pub mod Stored
mod Tests
use package.dvida_oxide.Prelude.{
  ℕ, ◌+◌, ◌-◌, ◌*◌, ◌/◌, ◌%◌, ◌^◌, Bool, ◌==◌, if◌then◌else◌, Option, none, some, ◌++◌, take, drop,
}
use package.dvida_oxide.Ext2.{Res, done, io_error, panic, ◌then◌, Bytes, as_u32}
use package.dvida_oxide.Ext2.Allocator.{sector_size}
use package.dvida_oxide.Ext2.Files.{Inode}

abbrev pub inode_size : ℕ
inode_size = 128

pub record InodePlus : Type 0 where
  pub inode : Inode
  pub absolute_idx : ℕ
  pub group_number : ℕ
  pub relative_idx : ℕ

-- The drive by sectors: their bytes, or an error.
pub record Sectors : Type 0 where
  pub read : ℕ → Option Bytes
  pub writable : ℕ → Bool

abbrev pub Stepping : Type 0 → Type 0
Stepping A = Res A × Sectors

abbrev pub read_sectors : ℕ → Sectors → Stepping Bytes
read_sectors lba s = elim (s.read lba) [ none ↦ (io_error, s) | some buf ↦ (done buf, s) ]

abbrev pub write_sectors : Bytes → ℕ → Sectors → Stepping (Unit {0})
write_sectors buf lba s =
    if s.writable lba
    then (done tt, record s { read = λ i. if i == lba then some buf else s.read i })
    else (io_error, s)

-- The place of an inode in the table of its group.
abbrev pub sector_offset : ℕ → ℕ
sector_offset idx = idx * inode_size / sector_size

abbrev pub byte_offset : ℕ → ℕ
byte_offset idx = idx * inode_size % sector_size

module _ (s_inodes_per_group : ℕ) where
  abbrev pub before : ℕ → ℕ
  before idx = as_u32 (idx + 2 ^ 32 - 1)

  -- Without a group's size the division panics.
  pub global_idx_to_inode_plus : Inode → ℕ → Option InodePlus
  global_idx_to_inode_plus inode idx =
      if s_inodes_per_group == 0
      then none
      else some (record {
        inode = inode;
        relative_idx = before idx % s_inodes_per_group;
        group_number = before idx / s_inodes_per_group;
        absolute_idx = idx;
      })

  pub relative_idx_to_inode_plus : Inode → ℕ → ℕ → InodePlus
  relative_idx_to_inode_plus inode group_number idx = record {
    inode = inode;
    relative_idx = idx;
    group_number = group_number;
    absolute_idx = as_u32 (group_number * s_inodes_per_group + idx + 1);
  }

  module _ (get_inode_table_lba : ℕ → Res ℕ) (deserialize_inode : Bytes → Res Inode)
      (serialize_inode : Inode → Bytes → Res ℕ × Bytes) where
    pub get_inode_in_group : ℕ → ℕ → Sectors → Stepping InodePlus
    get_inode_in_group group_number idx s = (get_inode_table_lba group_number, s) then λ lba s.
        read_sectors (lba + sector_offset idx) s then λ buf s.
        (deserialize_inode (drop (byte_offset idx) buf), s) then λ inode s. (
          done (record {
            inode = inode;
            group_number = group_number;
            relative_idx = idx;
            absolute_idx = as_u32 (s_inodes_per_group * group_number + idx + 1);
          }),
          s,
        )

    pub get_nth_inode : ℕ → Sectors → Stepping InodePlus
    get_nth_inode idx s =
        if s_inodes_per_group == 0
        then (panic, s)
        else get_inode_in_group (before idx / s_inodes_per_group) (before idx % s_inodes_per_group)
            s

    -- `do_write_inode` of an inode that is not new.
    pub write_inode : InodePlus → Sectors → Stepping (Unit {0})
    write_inode plus s = (get_inode_table_lba plus.group_number, s) then λ lba s.
        read_sectors (lba + sector_offset plus.relative_idx) s then λ buf s.
        let off = byte_offset plus.relative_idx in
        let (r, slice) = serialize_inode plus.inode (drop off buf) in
        (r, s) then λ _ s.
        write_sectors (take off buf ++ slice) (lba + sector_offset plus.relative_idx) s
