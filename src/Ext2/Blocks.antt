-- ===== src/Ext2/Blocks.antt =====
-- kernel/src/drivers/fs/ext2/block_iterator.rs, with the limits of read.rs: how the blocks of a file
-- are found through its inode. Here is the side that reads.
pub mod Tree
pub mod Levels
pub mod Reading
mod Tests
use package.dvida_oxide.Prelude.{
  ℕ, ◌+◌, ◌-◌, ◌*◌, ◌/◌, ◌%◌, Bool, true, false, Option, none, some, List, length, get_elem?,
  get_or, replicate, ltb, leb, ◌==◌, if◌then◌else◌,
}
use package.dvida_oxide.Ext2.{
  Res, done, io_error, panic, ◌then◌, unwrap, Bytes, as_u32, u32_at, Drive,
}

abbrev pub block_size_bytes : ℕ
block_size_bytes = 1024

abbrev pub inode_block_limit : ℕ
inode_block_limit = 12

abbrev pub ind_block_addr_count : ℕ
ind_block_addr_count = block_size_bytes / 4

abbrev pub inode_ind_block_limit : ℕ
inode_ind_block_limit = inode_block_limit + ind_block_addr_count

abbrev pub inode_double_ind_block_limit : ℕ
inode_double_ind_block_limit = inode_ind_block_limit + ind_block_addr_count * ind_block_addr_count

abbrev pub inode_triple_ind_block_limit : ℕ
inode_triple_ind_block_limit =
    inode_double_ind_block_limit
    + ind_block_addr_count * ind_block_addr_count * ind_block_addr_count

-- The iterator, without the handles of the drive and of the allocator.
pub record InodeBlockIterator : Type 0 where
  pub blocks : List ℕ
  pub group_number : ℕ
  pub block_size : ℕ
  pub cur_ind_buf : Option Bytes
  pub cur_ind_buf_block_idx : ℕ
  pub cur_double_ind_buf : Option Bytes
  pub cur_double_ind_buf_block_idx : ℕ
  pub cur_triple_ind_buf : Option Bytes
  pub cur_triple_ind_buf_block_idx : ℕ
  pub blocks_limit : ℕ
  pub cur_idx : ℕ
  pub cur_block_idx : ℕ

abbrev pub Step : Type 0 → Type 0
Step A = Res A × InodeBlockIterator

pub record BlockIterElement : Type 0 where
  pub buf : Bytes
  pub is_terminated : Bool
  pub block_idx : ℕ

-- `div_ceil` of the size by the block size.
unfoldable pub create_block_iterator : List ℕ → ℕ → ℕ → ℕ → InodeBlockIterator
create_block_iterator i_block i_size block_size group_number = record {
  blocks = i_block;
  group_number = group_number;
  block_size = block_size;
  cur_ind_buf = none;
  cur_ind_buf_block_idx = 0;
  cur_double_ind_buf = none;
  cur_double_ind_buf_block_idx = 0;
  cur_triple_ind_buf = none;
  cur_triple_ind_buf_block_idx = 0;
  blocks_limit = (i_size + block_size - 1) / block_size;
  cur_idx = 0;
  cur_block_idx = 0;
}

-- `self.blocks[i]`, for an index below 15.
abbrev pub block_of : InodeBlockIterator → ℕ → ℕ
block_of it i = get_or it.blocks i 0

abbrev pub zeros : Bytes → Bytes
zeros buf = replicate (length buf) 0

pub found : Step Bytes → Step BlockIterElement
found r = r then λ b it.
    (done (record { buf = b; is_terminated = false; block_idx = it.cur_block_idx }), it)

module _ (drive : Drive) where
  pub handle_block : Bytes → ℕ → InodeBlockIterator → Step Bytes
  handle_block buf block_idx it =
      let it' = record it { cur_block_idx = block_idx } in
      let read : Step Bytes = elim (drive block_idx) [
        | some b ↦ (done b, it')
        | none ↦ (io_error, it')
      ] in
      if block_idx == 0 then (done (zeros buf), it') else read

  -- The first test of `handle_ind_block`: an empty buffer is filled from the inode.
  pub first_ind_buf : Option Bytes → InodeBlockIterator → Step Bytes
  first_ind_buf (some b) it = (done b, it)
  first_ind_buf none it =
      let at = block_of it inode_block_limit in
      elim (drive at) [
        | some b ↦ (done b, record it { cur_ind_buf = some b; cur_ind_buf_block_idx = at })
        | none ↦ (io_error, it)
      ]

  -- The second test: a buffer of another block is replaced.
  pub switch_ind_buf : ℕ → Bytes → InodeBlockIterator → Step Bytes
  switch_ind_buf ind_block_idx b it =
      let moved = record it { cur_ind_buf_block_idx = ind_block_idx } in
      let read : Step Bytes = elim (drive ind_block_idx) [
        | some b' ↦ (done b', record moved { cur_ind_buf = some b' })
        | none ↦ (io_error, record moved { cur_ind_buf = none })
      ] in
      if ind_block_idx == it.cur_ind_buf_block_idx then (done b, it) else read

  pub handle_ind_block : Bytes → ℕ → ℕ → InodeBlockIterator → Step Bytes
  handle_ind_block buf offset_in_ind_block ind_block_idx it =
      let go = first_ind_buf it.cur_ind_buf it then λ b it1.
      switch_ind_buf ind_block_idx b it1 then λ ind_buf it2.
      unwrap (u32_at ind_buf offset_in_ind_block) it2 then λ block_idx it3.
      handle_block buf block_idx it3 in
      if ind_block_idx == 0 then (done (zeros buf), it) else go

  pub first_double_ind_buf : Option Bytes → InodeBlockIterator → Step Bytes
  first_double_ind_buf (some b) it = (done b, it)
  first_double_ind_buf none it =
      let at = block_of it (inode_block_limit + 1) in
      elim (drive at) [
        | some b ↦
            (done b, record it { cur_double_ind_buf = some b; cur_double_ind_buf_block_idx = at })
        | none ↦ (io_error, it)
      ]

  pub switch_double_ind_buf : ℕ → Bytes → InodeBlockIterator → Step Bytes
  switch_double_ind_buf double_ind_block_idx b it =
      let moved = record it { cur_double_ind_buf_block_idx = double_ind_block_idx } in
      let read : Step Bytes = elim (drive double_ind_block_idx) [
        | some b' ↦ (done b', record moved { cur_double_ind_buf = some b' })
        | none ↦ (io_error, record moved { cur_double_ind_buf = none })
      ] in
      if double_ind_block_idx == it.cur_double_ind_buf_block_idx then (done b, it) else read

  pub handle_double_ind_block : Bytes → ℕ → ℕ → ℕ → InodeBlockIterator → Step Bytes
  handle_double_ind_block buf offset_in_double_ind_block offset_in_ind_block double_ind_block_idx
        it =
      let go = first_double_ind_buf it.cur_double_ind_buf it then λ b it1.
      switch_double_ind_buf double_ind_block_idx b it1 then λ double_ind_buf it2.
      unwrap (u32_at double_ind_buf offset_in_double_ind_block) it2 then λ ind_block_idx it3.
      handle_ind_block buf offset_in_ind_block ind_block_idx it3 in
      if double_ind_block_idx == 0 then (done (zeros buf), it) else go

  -- The buffer of the triple indirect block, filled once; its block index is not set.
  pub first_triple_ind_buf : Option Bytes → InodeBlockIterator → Step Bytes
  first_triple_ind_buf (some b) it = (done b, it)
  first_triple_ind_buf none it =
      let at = block_of it (inode_block_limit + 2) in
      elim (drive at) [
        | some b ↦ (done b, record it { cur_triple_ind_buf = some b })
        | none ↦ (io_error, it)
      ]

  pub get_double : Bytes → InodeBlockIterator → Step Bytes
  get_double buf it =
      let num_idx_per_block = it.block_size / 4 in
      let i = it.cur_idx - inode_ind_block_limit in
      handle_double_ind_block buf (i / num_idx_per_block * 4) (i % num_idx_per_block * 4)
        (block_of it (inode_block_limit + 1)) it

  pub get_triple : Bytes → InodeBlockIterator → Step Bytes
  get_triple buf it =
      let num_idx_per_block = it.block_size / 4 in
      let i = it.cur_idx - inode_double_ind_block_limit in
      let go = first_triple_ind_buf it.cur_triple_ind_buf it then λ triple_ind_buf it1.
      unwrap (u32_at triple_ind_buf (i / (num_idx_per_block * num_idx_per_block) * 4)) it1
      then λ double_ind_block_idx it2.
          handle_double_ind_block buf (i / num_idx_per_block % num_idx_per_block * 4)
            (i % num_idx_per_block * 4) double_ind_block_idx it2 in
      if block_of it (inode_block_limit + 2) == 0 then (done (zeros buf), it) else go

  pub get : Bytes → InodeBlockIterator → Step BlockIterElement
  get buf it =
      let idx = as_u32 it.cur_idx in
      let direct =
        unwrap (get_elem? it.blocks it.cur_idx) it then λ b it1. handle_block buf b it1 in
      let single =
        handle_ind_block buf (it.cur_idx - inode_block_limit) (block_of it inode_block_limit) it in
      let terminated : Step BlockIterElement =
        (done (record { buf = buf; is_terminated = true; block_idx = 0 }), it) in
      if ltb idx inode_block_limit
      then found direct
      else (if ltb idx inode_ind_block_limit
          then found single
          else (if ltb idx inode_double_ind_block_limit
              then found (get_double buf it)
              else (if ltb idx inode_triple_ind_block_limit
                  then found (get_triple buf it)
                  else terminated)))

  pub next : Bytes → InodeBlockIterator → Step BlockIterElement
  next buf it =
      let terminated : Step BlockIterElement =
        (done (record { buf = buf; is_terminated = true; block_idx = 0 }), it) in
      let go =
        get buf it then λ element it1. (done element, record it1 { cur_idx = it1.cur_idx + 1 }) in
      if leb it.blocks_limit it.cur_idx then terminated else go

unfoldable pub skip : ℕ → InodeBlockIterator → InodeBlockIterator
skip count it = record it { cur_idx = it.cur_idx + count }

pub skip_to_end : InodeBlockIterator → InodeBlockIterator
skip_to_end it = record it { cur_idx = it.blocks_limit }
