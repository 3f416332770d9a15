-- ===== src/Ext2/Setting.antt =====
-- kernel/src/drivers/fs/ext2/block_iterator.rs, the side that writes: `set` gives the block at the
-- current index a place on the drive, with the indirect blocks that lead to it. The allocator is a
-- parameter, which Ext2/Allocator can fill.
pub mod Pointers
pub mod Tree
pub mod Settled
pub mod Outcome
pub mod Single
pub mod Double
pub mod Triple
pub mod Roots
pub mod Below
pub mod Placing
pub mod Kept
pub mod Storing
pub mod Reading
pub mod Sample
mod Tests
use package.dvida_oxide.Prelude.{
  ℕ, ◌+◌, ◌-◌, ◌*◌, ◌/◌, ◌%◌, Bool, Option, none, some, List, [], ◌∷◌, ◌++◌, get_elem?, set,
  replicate, ltb, ◌==◌, if◌then◌else◌,
}
use package.dvida_oxide.Ext2.{
  Res, done, refused, io_error, no_space_left, panic, ◌then◌, unwrap, Bytes, u32_at, Drive,
}
use package.dvida_oxide.Ext2.Allocator.{AllocatedBlock}
use package.dvida_oxide.Ext2.Blocks.{
  InodeBlockIterator, block_of, inode_block_limit, inode_ind_block_limit,
  inode_double_ind_block_limit,
}

-- A drive that is written: a block that can be is replaced as a whole.
pub record Disk : Type 0 where
  pub drive : Drive
  pub writable : ℕ → Bool

abbrev pub written : Disk → ℕ → Bytes → Disk
written disk block buf = record disk { drive = λ n. if n == block then some buf else disk.drive n }

-- Four bytes at an offset, little-endian.
pub put_u32 : Bytes → ℕ → ℕ → Bytes
put_u32 buf offset n =
    set
      (set (set (set buf offset (n % 256)) (offset + 1) (n / 256 % 256)) (offset + 2)
        (n / 65536 % 256))
      (offset + 3) (n / 16777216 % 256)

-- The iterator with the drive, the allocator and the vector `allocated_blocks` of the call.
pub record SetState {ℓ} (S : Type ℓ) : Type ℓ where
  pub it : InodeBlockIterator
  pub disk : Disk
  pub allocator : S
  pub allocated_blocks : List AllocatedBlock

abbrev pub Setting {ℓ κ} : Type ℓ → Type κ → Type (ℓ ⊔ κ)
Setting S A = Res A × SetState S

pub record BlockIterSetRes : Type 0 where
  pub allocated_blocks : List AllocatedBlock
  pub block_idx : ℕ

module _ {ℓ} {S : Type ℓ} where
  pub read_block : ℕ → SetState S → Setting S Bytes
  read_block block st = elim (st.disk.drive block) [
    | some buf ↦ (done buf, st)
    | none ↦ (io_error, st)
  ]

  pub write_block : Bytes → ℕ → SetState S → Setting S (Unit {0})
  write_block buf block st =
      if st.disk.writable block
      then (done tt, record st { disk = written st.disk block buf })
      else (io_error, st)

  pub clear_block : ℕ → SetState S → Setting S (Unit {0})
  clear_block block st = write_block (replicate st.it.block_size 0) block st

  abbrev pub push : AllocatedBlock → SetState S → SetState S
  push block st = record st { allocated_blocks = st.allocated_blocks ++ (block ∷ []) }

  abbrev pub with_it : InodeBlockIterator → SetState S → SetState S
  with_it it st = record st { it = it }

  -- The buffers of the three levels, read if they hold another block; the last `unwrap` of the source
  -- is on the buffer that is there then.
  pub load_ind : ℕ → SetState S → Setting S Bytes
  load_ind block st =
      let read = read_block block st then λ buf st1. (
        done buf,
        with_it (record st1.it { cur_ind_buf = some buf; cur_ind_buf_block_idx = block }) st1,
      ) in
      if st.it.cur_ind_buf_block_idx == block then unwrap st.it.cur_ind_buf st else read

  pub load_double : ℕ → SetState S → Setting S Bytes
  load_double block st =
      let read = read_block block st then λ buf st1. (
        done buf,
        with_it
            (record st1.it { cur_double_ind_buf = some buf; cur_double_ind_buf_block_idx = block })
            st1,
      ) in
      if st.it.cur_double_ind_buf_block_idx == block
      then unwrap st.it.cur_double_ind_buf st
      else read

  -- The buffers that `set` fills first, if they are empty.
  pub first_ind : Option Bytes → SetState S → Setting S (Unit {0})
  first_ind (some buf) st = (done tt, st)
  first_ind none st =
      let at = block_of st.it inode_block_limit in
      read_block at st then λ buf st1.
      (done tt, with_it (record st1.it { cur_ind_buf = some buf; cur_ind_buf_block_idx = at }) st1)

  pub first_double : Option Bytes → SetState S → Setting S (Unit {0})
  first_double (some buf) st = (done tt, st)
  first_double none st =
      let at = block_of st.it (inode_block_limit + 1) in
      read_block at st then λ buf st1. (
        done tt,
        with_it (record st1.it { cur_double_ind_buf = some buf; cur_double_ind_buf_block_idx = at })
            st1,
      )

  pub first_triple : Option Bytes → SetState S → Setting S (Unit {0})
  first_triple (some buf) st = (done tt, st)
  first_triple none st =
      let at = block_of st.it (inode_block_limit + 2) in
      read_block at st then λ buf st1. (
        done tt,
        with_it (record st1.it { cur_triple_ind_buf = some buf; cur_triple_ind_buf_block_idx = at })
            st1,
      )

  -- `remove(0)` panics on an empty vector.
  pub first_of : Res (List AllocatedBlock) × S → SetState S → Setting S AllocatedBlock
  first_of r st =
      let st1 = record st { allocator = r.1 } in
      elim r.0 [
        | done blocks ↦ unwrap (get_elem? blocks 0) st1
        | io_error ↦ (io_error, st1)
        | refused e ↦ (refused e, st1)
        | no_space_left ↦ (no_space_left, st1)
        | panic ↦ (panic, st1)
      ]

  module _ (allocate : ℕ → ℕ → S → Res (List AllocatedBlock) × S) where
    -- One block of the iterator's group.
    pub allocate_one : SetState S → Setting S AllocatedBlock
    allocate_one st = first_of (allocate st.it.group_number 1 st.allocator) st

    -- A pointer that is 0 is replaced by that of a new block, in the buffer and on the drive.
    pub fill_ind : Bytes → ℕ → SetState S → Setting S ℕ
    fill_ind buf offset st = allocate_one st then λ block st1.
        let buf' = put_u32 buf (offset * 4) block.block_global_idx in
        let st2 = with_it (record st1.it { cur_ind_buf = some buf' }) st1 in
        write_block buf' st2.it.cur_ind_buf_block_idx st2 then λ _ st3.
        (done block.block_global_idx, push block st3)

    -- The block of a pointer of the two levels above is cleared.
    pub fill_double : Bytes → ℕ → SetState S → Setting S ℕ
    fill_double buf offset st = allocate_one st then λ block st1.
        let buf' = put_u32 buf (offset * 4) block.block_global_idx in
        let st2 = with_it (record st1.it { cur_double_ind_buf = some buf' }) st1 in
        write_block buf' st2.it.cur_double_ind_buf_block_idx st2 then λ _ st3.
        clear_block block.block_global_idx st3 then λ _ st4.
        (done block.block_global_idx, push block st4)

    pub fill_triple : Bytes → ℕ → SetState S → Setting S ℕ
    fill_triple buf offset st = allocate_one st then λ block st1.
        let buf' = put_u32 buf (offset * 4) block.block_global_idx in
        let st2 = with_it (record st1.it { cur_triple_ind_buf = some buf' }) st1 in
        write_block buf' st2.it.cur_triple_ind_buf_block_idx st2 then λ _ st3.
        clear_block block.block_global_idx st3 then λ _ st4.
        (done block.block_global_idx, push block st4)

    pub handle_set_block : ℕ → ℕ → SetState S → Setting S (Unit {0})
    handle_set_block ind_block_idx offset_in_ind_block st =
        load_ind ind_block_idx st then λ buf st1.
        unwrap (u32_at buf (offset_in_ind_block * 4)) st1 then λ num st2.
        (if num == 0 then fill_ind buf offset_in_ind_block st2 else (done num, st2)) then λ res st3.
        (done tt, with_it (record st3.it { cur_block_idx = res }) st3)

    pub handle_set_indirect_block : ℕ → ℕ → ℕ → SetState S → Setting S (Unit {0})
    handle_set_indirect_block double_ind_block_idx offset_in_double_ind_block offset_in_ind_block
          st =
        load_double double_ind_block_idx st then λ buf st1.
        unwrap (u32_at buf (offset_in_double_ind_block * 4)) st1 then λ num st2.
        (if num == 0 then fill_double buf offset_in_double_ind_block st2 else (done num, st2))
        then λ ind_block_idx st3. handle_set_block ind_block_idx offset_in_ind_block st3

    pub handle_set_double_indirect_block : ℕ → ℕ → ℕ → SetState S → Setting S (Unit {0})
    handle_set_double_indirect_block offset_in_triple_ind_block offset_in_double_ind_block
          offset_in_ind_block st =
        unwrap st.it.cur_triple_ind_buf st then λ buf st1.
        unwrap (u32_at buf (offset_in_triple_ind_block * 4)) st1 then λ num st2.
        (if num == 0 then fill_triple buf offset_in_triple_ind_block st2 else (done num, st2))
        then λ double_ind_block_idx st3.
            handle_set_indirect_block double_ind_block_idx offset_in_double_ind_block
              offset_in_ind_block st3

    pub handle_block_in_blocks_array : ℕ → SetState S → Setting S (Unit {0})
    handle_block_in_blocks_array idx st =
        let fill = allocate_one st then λ block st1.
        let blocks = set st1.it.blocks idx block.block_global_idx in
        let st2 = with_it (record st1.it { blocks = blocks }) st1 in
        clear_block block.block_global_idx st2 then λ _ st3. (done tt, push block st3) in
        if block_of st.it idx == 0 then fill else (done tt, st)

    pub set_direct : SetState S → Setting S (Unit {0})
    set_direct st =
        let idx = st.it.cur_idx in
        let fill = allocate_one st then λ block st1.
        let blocks = set st1.it.blocks idx block.block_global_idx in
        (done tt, push block (with_it (record st1.it { blocks = blocks }) st1)) in
        (if block_of st.it idx == 0 then fill else (done tt, st)) then λ _ st2.
        (done tt, with_it (record st2.it { cur_block_idx = block_of st2.it idx }) st2)

    pub set_single : SetState S → Setting S (Unit {0})
    set_single st = handle_block_in_blocks_array inode_block_limit st then λ _ st1.
        first_ind st1.it.cur_ind_buf st1 then λ _ st2.
        handle_set_block (block_of st2.it inode_block_limit) (st2.it.cur_idx - inode_block_limit)
          st2

    pub set_double : SetState S → Setting S (Unit {0})
    set_double st =
        let blocks_per_group = st.it.block_size / 4 in
        let i = st.it.cur_idx - inode_ind_block_limit in
        handle_block_in_blocks_array (inode_block_limit + 1) st then λ _ st1.
        first_double st1.it.cur_double_ind_buf st1 then λ _ st2.
        handle_set_indirect_block (block_of st2.it (inode_block_limit + 1)) (i / blocks_per_group)
          (i % blocks_per_group) st2

    pub set_triple : SetState S → Setting S (Unit {0})
    set_triple st =
        let blocks_per_group = st.it.block_size / 4 in
        let i = st.it.cur_idx - inode_double_ind_block_limit in
        handle_block_in_blocks_array (inode_block_limit + 2) st then λ _ st1.
        first_triple st1.it.cur_triple_ind_buf st1 then λ _ st2.
        handle_set_double_indirect_block (i / (blocks_per_group * blocks_per_group))
          (i / blocks_per_group % blocks_per_group) (i % blocks_per_group) st2

    -- `set`; a name that the lists have.
    pub set_block : SetState S → Setting S BlockIterSetRes
    set_block st =
        let st0 = record st { allocated_blocks = [] } in
        let idx = st.it.cur_idx in
        (if ltb idx inode_block_limit
          then set_direct st0
          else (if ltb idx inode_ind_block_limit
              then set_single st0
              else (if ltb idx inode_double_ind_block_limit
                  then set_double st0
                  else set_triple st0)))
        then λ _ st1. (
          done (record {
            allocated_blocks = st1.allocated_blocks;
            block_idx = st1.it.cur_block_idx;
          }),
          st1,
        )

    pub next_set : SetState S → Setting S BlockIterSetRes
    next_set st = set_block st then λ res st1.
        (done res, with_it (record st1.it { cur_idx = st1.it.cur_idx + 1 }) st1)
