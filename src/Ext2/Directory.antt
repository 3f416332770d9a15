-- ===== src/Ext2/Directory.antt =====
-- kernel/src/drivers/fs/ext2/open.rs and dirs.rs: the search by name and the adding of an entry over the
-- blocks of a directory. The time stamp of the directory is not here.
pub mod Rounds
pub mod Finding
mod Tests
use package.dvida_oxide.Prelude.{
  ℕ, zero, suc, ◌+◌, ◌*◌, ◌%◌, ◌^◌, Bool, true, false, not, ◌==◌, if◌then◌else◌, Option, none, some,
  List, [], ◌∷◌, length, replicate,
}
use package.dvida_oxide.Prelude.Results.{is_some}
use package.dvida_oxide.Serialize.{little}
use package.dvida_oxide.Ext2.{Res, done, refused, not_a_directory, panic, ◌then◌, Bytes, as_u32}
use package.dvida_oxide.Ext2.Allocator.{AllocatedBlock}
use package.dvida_oxide.Ext2.Blocks.{create_block_iterator, next}
use package.dvida_oxide.Ext2.Setting.{
  Disk, SetState, Setting, with_it, read_block, write_block, set_block,
}
use package.dvida_oxide.Ext2.Files.{Inode, inode_is_directory}
use package.dvida_oxide.Ext2.Entries.{
  DirEntry, new, serialize_entry, block_start, find_entry_by_name_in_block, add_in_block,
}

module _ {ℓ} {S : Type ℓ} where
  abbrev pub open_directory : Inode → ℕ → ℕ → Disk → S → SetState S
  open_directory inode group_number block_size disk allocator = record {
    it = create_block_iterator inode.i_block inode.i_size block_size group_number;
    disk = disk;
    allocator = allocator;
    allocated_blocks = [];
  }

  -- The loop of `do_find_entry_by_name`; every round takes the iterator one block further.
  pub find_loop : ℕ → Bytes → Bool → Bool → ℕ → ℕ → Bytes → SetState S → Setting S (Option ℕ)
  find_loop block_size name delete find_is_empty zero remaining buf st = (panic, st)
  find_loop block_size name delete find_is_empty (suc fuel) remaining buf st =
      let (r, it) = next st.disk.drive buf st.it in
      (r, with_it it st) then λ element st1.
      let (found, after) =
        find_entry_by_name_in_block (λ b s. write_block b element.block_idx s) block_size name
          delete find_is_empty block_size (block_start remaining element.buf) st1 in
      let go : Setting S (Option ℕ) = (found, after.1) then λ res st2. elim res.1 [
        | true ↦ (done (if find_is_empty then none else res.0), st2)
        | false ↦ elim res.0 [
          | some inode ↦ (done (some inode), st2)
          | none ↦ find_loop block_size name delete find_is_empty fuel after.0 res.2 st2
        ]
      ] in
      if element.is_terminated then (done none, st1) else go

  pub do_find_entry_by_name : Inode → ℕ → ℕ → Bytes → Bool → Bool → Disk → S → Setting S (Option ℕ)
  do_find_entry_by_name inode group_number block_size name delete find_is_empty disk allocator =
      let start = open_directory inode group_number block_size disk allocator in
      let result =
        find_loop block_size name delete find_is_empty (start.it.blocks_limit + 1) inode.i_size
          (replicate block_size 0) start in
      if inode_is_directory inode then result else (refused not_a_directory, start)

  abbrev pub find_entry_by_name : Inode → ℕ → ℕ → Bytes → Disk → S → Setting S (Option ℕ)
  find_entry_by_name inode group_number block_size name disk allocator =
      do_find_entry_by_name inode group_number block_size name false false disk allocator

  abbrev pub find_entry_by_name_and_delete : Inode → ℕ → ℕ → Bytes → Disk → S → Setting S (Option ℕ)
  find_entry_by_name_and_delete inode group_number block_size name disk allocator =
      do_find_entry_by_name inode group_number block_size name true false disk allocator

  abbrev pub is_dir_empty : Inode → ℕ → ℕ → Disk → S → Setting S Bool
  is_dir_empty inode group_number block_size disk allocator =
      do_find_entry_by_name inode group_number block_size [] false false disk allocator
      then λ found st. (done (not (is_some found)), st)

  -- `write_newly_allocated_blocks` of the allocator, with a buffer, is a parameter.
  module _ (allocate : ℕ → ℕ → S → Res (List AllocatedBlock) × S)
      (write_newly_allocated_blocks : Bytes → SetState S → Setting S (Unit {0})) where
    -- A block of the directory's own for the entry, with the inode after it.
    pub add_block : Inode → ℕ → DirEntry → Bytes → SetState S → Setting S Inode
    add_block inode block_size entry buf st = set_block allocate st then λ res st1.
        read_block res.block_idx st1 then λ read st2.
        let (r, bytes) =
          serialize_entry little (record entry { rec_len = block_size % 2 ^ 16 })
            (replicate (length read) 0) in
        (r, st2) then λ _ st3. write_block bytes res.block_idx st3 then λ _ st4.
        write_newly_allocated_blocks bytes st4 then λ _ st5.
        (done (record inode { i_size = as_u32 (inode.i_size + block_size) }), st5)

    -- The outer loop of `add_dir_entry`.
    pub add_loop : Inode → ℕ → DirEntry → ℕ → Bytes → SetState S → Setting S Inode
    add_loop inode block_size entry zero buf st = (panic, st)
    add_loop inode block_size entry (suc fuel) buf st =
        let (r, it) = next st.disk.drive buf st.it in
        (r, with_it it st) then λ element st1.
        let (added, bytes) = add_in_block block_size entry block_size 0 element.buf in
        let rest = add_loop inode block_size entry fuel bytes st1 in
        let go : Setting S Inode = (added, st1) then λ took st2. elim took [
          | true ↦ write_block bytes element.block_idx st2 then λ _ st3. (done inode, st3)
          | false ↦ rest
        ] in
        if element.is_terminated then add_block inode block_size entry element.buf st1 else go

    pub add_dir_entry : Inode → ℕ → ℕ → ℕ → Bytes → Disk → S → Setting S Inode
    add_dir_entry inode group_number block_size child_inode_idx name disk allocator =
        let start = open_directory inode group_number block_size disk allocator in
        add_loop inode block_size (new child_inode_idx name) (start.it.blocks_limit + 1)
          (replicate block_size 0) start
