-- ===== src/Ext2/Files/Writing.antt =====
-- kernel/src/drivers/fs/ext2/write.rs: the bytes of a write, over the side of the block iterator that
-- writes. A buffer has the 1024 bytes of BLOCK_SIZE. The time stamp and the writing of the inode and of
-- the bitmaps behind it are not here.
pub mod Patching
pub mod Block
pub mod Rounds
pub mod Whole
pub mod Outcome
mod Tests
use package.dvida_oxide.Prelude.{
  ℕ, zero, suc, ◌+◌, ◌-◌, ◌*◌, ◌/◌, ◌%◌, Bool, ltb, leb, ◌==◌, if◌then◌else◌, List, [], ◌∷◌, length,
  get_or, set, replicate,
}
use package.dvida_oxide.Ext2.{Res, done, refused, is_directory, panic, ◌then◌, Bytes, as_u32}
use package.dvida_oxide.Ext2.Allocator.{AllocatedBlock}
use package.dvida_oxide.Ext2.Blocks.{create_block_iterator, skip}
use package.dvida_oxide.Ext2.Setting.{Disk, SetState, Setting, read_block, write_block, next_set}
use package.dvida_oxide.Ext2.Files.{Inode, HalIoCtx, Progress, inode_is_directory, progress_at}

-- The buffer of a block, with the size of the file, the head and the progress.
pub record Patch : Type 0 where
  pub buf : Bytes
  pub i_size : ℕ
  pub ctx : HalIoCtx
  pub progress : Progress

-- A byte of the input at place `i` of the buffer.
abbrev pub patch_byte : ℕ → ℕ → Patch → Patch
patch_byte i byte p = record {
  buf = set p.buf i byte;
  i_size = p.i_size;
  ctx = record { head = p.ctx.head + 1 };
  progress = record p.progress { bytes_written = p.progress.bytes_written + 1 };
}

-- The file grows by one where the head has reached its size.
abbrev pub grow : Patch → Patch
grow p = record p {
  i_size = if leb p.i_size (as_u32 p.ctx.head) then as_u32 (p.i_size + 1) else p.i_size;
}

-- The loop of `write_till_next_block`, with so many bytes of the block to go, from byte `i` on.
pub write_till_next_block_from : Bytes → ℕ → ℕ → Patch → Patch
write_till_next_block_from input zero i p = p
write_till_next_block_from input (suc rounds) i p =
    let grown = grow p in
    let byte = get_or input p.progress.bytes_written 0 in
    let rest = write_till_next_block_from input rounds (i + 1) (patch_byte i byte grown) in
    if leb (length input) p.progress.bytes_written then grown else rest

-- What a write works on.
pub record WriteState {ℓ} (S : Type ℓ) : Type ℓ where
  pub st : SetState S
  pub i_size : ℕ
  pub ctx : HalIoCtx
  pub progress : Progress
  pub blocks_allocated_count : ℕ

abbrev pub Writing {ℓ κ} : Type ℓ → Type κ → Type (ℓ ⊔ κ)
Writing S A = Res A × WriteState S

module _ {ℓ} {S : Type ℓ} where
  abbrev pub lift {κ} : {A : Type κ} → WriteState S → Setting S A → Writing S A
  lift w (r, st) = (r, record w { st = st })

  pub write_till_next_block : ℕ → Bytes → ℕ → WriteState S → Writing S (Unit {0})
  write_till_next_block block_size input block_idx w =
      let start : Setting S Bytes =
        if w.progress.offset == 0
        then (done (replicate 1024 0), w.st)
        else read_block block_idx w.st in
      lift w start then λ buf w1.
      let p =
        write_till_next_block_from input (block_size - w1.progress.offset) w1.progress.offset
          (record { buf = buf; i_size = w1.i_size; ctx = w1.ctx; progress = w1.progress }) in
      let w2 = record w1 { i_size = p.i_size; ctx = p.ctx; progress = p.progress } in
      lift w2 (write_block p.buf block_idx w2.st) then λ _ w3. (
        done tt,
        record w3 {
          progress = record w3.progress { block_idx = w3.progress.block_idx + 1; offset = 0 };
        },
      )

  module _ (allocate : ℕ → ℕ → S → Res (List AllocatedBlock) × S) where
    -- The loop of `write`; every round writes a byte at least.
    pub write_loop : ℕ → ℕ → Bytes → WriteState S → Writing S (Unit {0})
    write_loop block_size zero input w = (panic, w)
    write_loop block_size (suc fuel) input w =
        let go = lift w (next_set allocate w.st) then λ res w1.
        let count = w1.blocks_allocated_count + length res.allocated_blocks in
        write_till_next_block block_size input res.block_idx
          (record w1 { blocks_allocated_count = count })
        then λ _ w2. write_loop block_size fuel input w2 in
        if ltb w.progress.bytes_written (length input) then go else (done tt, w)

    abbrev pub write_start : Inode → ℕ → ℕ → HalIoCtx → Disk → S → WriteState S
    write_start inode group_number block_size ctx disk allocator =
        let progress = progress_at block_size ctx.head in
        record {
          st = record {
            it =
                skip progress.block_idx
                  (create_block_iterator inode.i_block inode.i_size block_size group_number);
            disk = disk;
            allocator = allocator;
            allocated_blocks = [];
          };
          i_size = inode.i_size;
          ctx = ctx;
          progress = progress;
          blocks_allocated_count = 0;
        }

    -- With the inode after it.
    pub write : Inode → ℕ → ℕ → Bytes → HalIoCtx → Disk → S → Res (ℕ × Inode) × WriteState S
    write inode group_number block_size input ctx disk allocator =
        let start = write_start inode group_number block_size ctx disk allocator in
        let result : Res (ℕ × Inode) × WriteState S =
          write_loop block_size (length input + 1) input start then λ _ w. (
            done (
              w.progress.bytes_written,
              record inode {
                i_size = w.i_size;
                i_block = w.st.it.blocks;
                i_blocks = inode.i_blocks + w.blocks_allocated_count * block_size;
              },
            ),
            w,
          ) in
        if inode_is_directory inode then (refused is_directory, start) else result
