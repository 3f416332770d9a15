-- ===== src/Ext2/Allocator.antt =====
-- kernel/src/drivers/fs/ext2/allocator.rs, with the arithmetic of structs.rs: the allocation of
-- blocks from the bitmaps of the block groups. The set of allocated blocks is the list of its
-- elements; it is ordered by the address alone, so a block is in it if its address is.
pub mod Scan
pub mod Outcome
mod Tests
use package.dvida_oxide.Prelude.{
  ℕ, zero, suc, ◌+◌, ◌-◌, ◌*◌, ◌/◌, ◌%◌, ◌^◌, Bool, true, false, ◌||◌, Option, none, some, List, [],
  ◌∷◌, ◌++◌, ltb, ◌==◌, if◌then◌else◌,
}
use package.dvida_oxide.Ext2.{Res, done, refused, io_error, no_space_left, panic, ◌then◌, Bytes}
use package.dvida_oxide.Ext2.Bits.{Bit, bit_zero, bit_one, bits}

abbrev pub sector_size : ℕ
sector_size = 512

abbrev pub reserved_boot_record_offset : ℕ
reserved_boot_record_offset = 2

pub record AllocatedBlock : Type 0 where
  pub addr : ℕ
  pub block_global_idx : ℕ
  pub block_relatve_idx : ℕ
  pub gr_number : ℕ

-- A block group, with the bitmap that its descriptor points to.
pub record Ext2BlockGroup : Type 0 where
  pub group_number : ℕ
  pub blocks_per_group : ℕ
  pub sectors_per_block : ℕ
  pub bg_block_bitmap : ℕ

abbrev pub get_group_lba : Ext2BlockGroup → ℕ
get_group_lba g =
    if g.group_number == 0
    then reserved_boot_record_offset
    else reserved_boot_record_offset
      + (g.blocks_per_group - 1) * g.sectors_per_block
      + 1024 / sector_size
      + (g.group_number - 1) * g.blocks_per_group * g.sectors_per_block

-- The allocator without the handles of the drive, which answer by `get_group` and `bitmap` below.
pub record BlockAllocator : Type 0 where
  pub block_groups_count : ℕ
  pub blocks_per_group : ℕ
  pub allocated_block_indices : List AllocatedBlock
  pub unwritten_freed_blocks : List ℕ

-- `BTreeSet::contains` and `insert`.
abbrev pub contains : ℕ → List AllocatedBlock → Bool
contains addr [] = false
contains addr (x ∷ xs) = x.addr == addr || contains addr xs

abbrev pub insert : AllocatedBlock → List AllocatedBlock → List AllocatedBlock
insert b s = if contains b.addr s then s else b ∷ s

-- The block at a bit of the bitmap of a group.
pub block_at : Ext2BlockGroup → ℕ → ℕ → ℕ → AllocatedBlock
block_at group group_number blocks_per_group idx = record {
  addr = get_group_lba group + idx * group.sectors_per_block;
  block_global_idx = (group_number % 2 ^ 32 * blocks_per_group + idx % 2 ^ 32) % 2 ^ 32;
  block_relatve_idx = idx % 2 ^ 32;
  gr_number = group_number;
}

-- What is left to allocate, the set of allocated blocks, and the result so far.
pub record Scanning : Type 0 where
  pub remaining : ℕ
  pub set : List AllocatedBlock
  pub blocks : List AllocatedBlock

-- The loop over the bits of a group's bitmap, from bit `idx` on.
pub scan : (ℕ → AllocatedBlock) → ℕ → List Bit → Scanning → Scanning
scan block idx [] s = s
scan block idx (bit ∷ rest) s =
    let b = block idx in
    let skip = scan block (idx + 1) rest s in
    let take = scan block (idx + 1) rest (record {
      remaining = s.remaining - 1;
      set = insert b s.set;
      blocks = s.blocks ++ (b ∷ []);
    }) in
    if s.remaining == 0
    then s
    else (elim bit [ bit_one ↦ skip | bit_zero ↦ if contains b.addr s.set then skip else take ])

-- The drive's answers: the descriptor of a group, and the bytes of its block bitmap.
module _ (get_group : ℕ → Option Ext2BlockGroup) (bitmap : Ext2BlockGroup → Option Bytes) where
  -- The scan of one group.
  pub scan_group : ℕ → ℕ → Scanning → Res (List AllocatedBlock) × Scanning
  unfolding scan
  scan_group blocks_per_group group_number s = elim (get_group group_number) [
    | none ↦ (io_error, s)
    | some group ↦ elim (bitmap group) [
      | none ↦ (io_error, s)
      | some buf ↦
          let s' = scan (block_at group group_number blocks_per_group) 0 (bits buf) s in
          (done s'.blocks, s')
    ]
  ]

  -- The loop over the groups; the first number counts the groups that are left.
  pub scan_groups : ℕ → ℕ → ℕ → ℕ → Scanning → Res (List AllocatedBlock) × Scanning
  unfolding scan_group
  scan_groups zero group_number exclude blocks_per_group s = (done s.blocks, s)
  scan_groups (suc left) group_number exclude blocks_per_group s =
      let skip = scan_groups left (group_number + 1) exclude blocks_per_group s in
      let scanned = scan_group blocks_per_group group_number s then λ found s'.
      scan_groups left (group_number + 1) exclude blocks_per_group s' in
      if group_number == exclude
      then skip
      else (if s.remaining == 0 then (done s.blocks, s) else scanned)

  -- The shared set is changed also when the call fails.
  keep_set :
      BlockAllocator
      → Res (List AllocatedBlock) × Scanning
      → Res (List AllocatedBlock) × BlockAllocator
  keep_set a (r, s) = (r, record a { allocated_block_indices = s.set })

  enough : List AllocatedBlock → Scanning → Res (List AllocatedBlock) × Scanning
  enough found s = if ltb 0 s.remaining then (no_space_left, s) else (done s.blocks, s)

  pub allocate_n_blocks : ℕ → ℕ → BlockAllocator → Res (List AllocatedBlock) × BlockAllocator
  unfolding scan_groups keep_set enough
  allocate_n_blocks exclude_group_idx remaining_blocks a =
      let start : Scanning = record {
        remaining = remaining_blocks;
        set = a.allocated_block_indices;
        blocks = [];
      } in
      keep_set a
        (scan_groups a.block_groups_count 0 exclude_group_idx a.blocks_per_group start then enough)

  -- The rest of a request that the group could not satisfy.
  fall_back : ℕ → BlockAllocator → Scanning → Res (List AllocatedBlock) × BlockAllocator
  fall_back group_number a s =
      let a' = record a { allocated_block_indices = s.set } in
      let more = allocate_n_blocks group_number s.remaining a' then λ rest a''.
      (done (s.blocks ++ rest), a'') in
      if s.remaining == 0 then (done s.blocks, a') else more

  pub allocate_n_blocks_in_group :
      ℕ → ℕ → BlockAllocator → Res (List AllocatedBlock) × BlockAllocator
  unfolding scan_group fall_back
  allocate_n_blocks_in_group group_number num a =
      let start : Scanning = record {
        remaining = num;
        set = a.allocated_block_indices;
        blocks = [];
      } in
      let (r, s) = scan_group a.blocks_per_group group_number start in
      let a' = record a { allocated_block_indices = s.set } in
      elim r [
        | done found ↦ fall_back group_number a s
        | io_error ↦ (io_error, a')
        | refused e ↦ (refused e, a')
        | no_space_left ↦ (no_space_left, a')
        | panic ↦ (panic, a')
      ]

contains_idx : ℕ → List ℕ → Bool
contains_idx i [] = false
contains_idx i (x ∷ xs) = x == i || contains_idx i xs

pub add_freed_block : ℕ → BlockAllocator → BlockAllocator
unfolding contains_idx
add_freed_block block a =
    let freed = a.unwritten_freed_blocks in
    record a { unwritten_freed_blocks = if contains_idx block freed then freed else block ∷ freed }
