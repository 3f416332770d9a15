-- ===== src/Ext2/Files.antt =====
-- kernel/src/drivers/fs/ext2/read.rs and write.rs: the bytes of a file, over the block iterator. The
-- buffers of blocks have the length of a block.
pub mod Copying
pub mod Got
pub mod Whole
pub mod Writing
mod Tests
use package.dvida_oxide.Prelude.{
  ℕ, zero, suc, ◌+◌, ◌-◌, ◌*◌, ◌/◌, ◌%◌, bit_and, Bool, true, false, ltb, leb, ◌==◌, if◌then◌else◌,
  List, [], ◌∷◌, length, get_or, set, replicate, min,
}
use package.dvida_oxide.Ext2.{
  HalFsIoErr, is_directory, Res, done, refused, panic, ◌then◌, Bytes, as_u32, Drive,
}
use package.dvida_oxide.Ext2.Blocks.{
  InodeBlockIterator, BlockIterElement, create_block_iterator, next,
}

-- What an inode says of the bytes of its file; the rest of the record is for the system's other parts.
pub record Inode : Type 0 where
  pub i_mode : ℕ
  pub i_size : ℕ
  pub i_blocks : ℕ
  pub i_block : List ℕ

pub record HalIoCtx : Type 0 where
  pub head : ℕ

pub record Progress : Type 0 where
  pub block_idx : ℕ
  pub offset : ℕ
  pub bytes_written : ℕ

abbrev pub file_type : Inode → ℕ
file_type inode = bit_and inode.i_mode 0xF000

abbrev pub inode_is_directory : Inode → Bool
inode_is_directory inode = file_type inode == 0x4000

-- Where the head stands, by block and offset.
abbrev pub progress_at : ℕ → ℕ → Progress
progress_at block_size head = record {
  block_idx = as_u32 head / block_size;
  offset = as_u32 head % block_size;
  bytes_written = 0;
}

-- The target of a read, with the position in the file and the progress.
pub record Reading : Type 0 where
  pub target : Bytes
  pub ctx : HalIoCtx
  pub progress : Progress

abbrev pub read_byte : ℕ → Reading → Reading
read_byte byte s = record {
  target = set s.target s.progress.bytes_written byte;
  ctx = record { head = s.ctx.head + 1 };
  progress = record s.progress { bytes_written = s.progress.bytes_written + 1 };
}

-- The loop of `read_till_next_block`, with so many bytes of the block to go, from byte `i` on.
pub read_till_next_block_from : ℕ → ℕ → ℕ → Bytes → Reading → Reading
read_till_next_block_from i_size zero i buf s = record s {
  progress = record s.progress { block_idx = s.progress.block_idx + 1; offset = 0 };
}
read_till_next_block_from i_size (suc rounds) i buf s =
    let rest = read_till_next_block_from i_size rounds (i + 1) buf (read_byte (get_or buf i 0) s) in
    if leb i_size (as_u32 s.ctx.head)
    then s
    else (if leb (length s.target) s.progress.bytes_written then s else rest)

pub read_till_next_block : ℕ → ℕ → Bytes → Reading → Reading
read_till_next_block block_size i_size buf s =
    read_till_next_block_from i_size (block_size - s.progress.offset) s.progress.offset buf s

-- What a read works on: the iterator and the target.
pub record ReadState : Type 0 where
  pub it : InodeBlockIterator
  pub reading : Reading

module _ (drive : Drive) (block_size : ℕ) where
  abbrev pub lift :
      ReadState → Res BlockIterElement × InodeBlockIterator → Res BlockIterElement × ReadState
  lift s (r, it) = (r, record s { it = it })

  -- The loop of `read`; every round that goes on takes the iterator one block further.
  pub read_loop : ℕ → ℕ → Bytes → ReadState → Res (Unit {0}) × ReadState
  read_loop zero i_size block_buf s = (panic, s)
  read_loop (suc fuel) i_size block_buf s =
      let go = lift s (next drive block_buf s.it) then λ element s1. elim element.is_terminated [
        | true ↦ (done tt, s1)
        | false ↦
            read_loop fuel i_size element.buf (record s1 {
              reading = read_till_next_block block_size i_size element.buf s1.reading;
            })
      ] in
      if ltb (as_u32 s.reading.ctx.head) i_size
      then (if ltb s.reading.progress.bytes_written (length s.reading.target)
          then go
          else (done tt, s))
      else (done tt, s)

  -- With the state at the end: the target and the head.
  pub read : Inode → ℕ → Bytes → HalIoCtx → Res ℕ × Reading
  read inode group_number target ctx =
      let start : Reading = record {
        target = target;
        ctx = ctx;
        progress = progress_at block_size ctx.head;
      } in
      let it = create_block_iterator inode.i_block inode.i_size block_size group_number in
      let (r, s) =
        read_loop (it.blocks_limit + 1) inode.i_size (replicate block_size 0)
          (record { it = it; reading = start }) in
      let result : Res ℕ × Reading =
        (r, s.reading) then λ _ reading. (done reading.progress.bytes_written, reading) in
      let to_read = min (length target) (inode.i_size - ctx.head) in
      if inode_is_directory inode
      then (refused is_directory, start)
      else (if to_read == 0 then (done 0, start) else result)
