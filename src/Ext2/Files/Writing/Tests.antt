-- ===== src/Ext2/Files/Writing/Tests.antt =====
-- The theorems on writes at concrete inputs.
use dvida_oxide.Prelude.{
  ℕ, zero, suc, ◌-◌, ◌/◌, ◌<◌, ◌≡◌, inl, inr, refl, [], ◌∷◌, replicate, get_or, arith,
}
use dvida_oxide.Ext2.Blocks.Reading.{file_block}
use dvida_oxide.Ext2.Setting.Pointers.{get_or-zeros}
use dvida_oxide.Ext2.Setting.Tree.{Leads}
use dvida_oxide.Ext2.{Bytes}
use dvida_oxide.Ext2.Blocks.{create_block_iterator, skip}
use dvida_oxide.Ext2.Setting.Sample.{
  Free, Room, allocate, allocate-Allocates, level, content, disk, fresh-Settled,
}
use dvida_oxide.Ext2.Setting.Settled.{Settled}
use dvida_oxide.Ext2.Files.{Inode}
use dvida_oxide.Ext2.Files.Writing.{WriteState, write_start, write}
use dvida_oxide.Ext2.Files.Writing.Whole.{four_each}
use dvida_oxide.Ext2.Files.Writing.Outcome.{Writes, WritesInBlock, write-Writes, write_in_block}

-- A file of 2000 bytes, all of them in holes.
abbrev file : Inode
file = record { i_mode = 0x8000; i_size = 2000; i_blocks = 0; i_block = replicate 15 0 }

abbrev input : Bytes
input = 1 ∷ 2 ∷ 3 ∷ []

abbrev start : WriteState ℕ
start = write_start allocate file 0 1024 (record { head = 1500 }) disk 100

start-Settled : Settled Free level content start.st
unfolding create_block_iterator skip
start-Settled = fresh-Settled _ 1

write-Writes_example :
    Writes Free Room allocate allocate-Allocates input file 1500
      (write allocate file 0 1024 input (record { head = 1500 }) disk 100)
unfolding four_each
write-Writes_example =
    write-Writes Free Room allocate allocate-Allocates input file 0 1500 disk 100 level content refl
      (omega arith) (omega arith) (omega arith) (omega arith) start-Settled
      (omega arith, omega arith) (omega arith)

-- The file with its blocks in the blocks 21 and 22 of the drive.
abbrev stored_file : Inode
stored_file = record {
  i_mode = 0x8000;
  i_size = 2000;
  i_blocks = 2048;
  i_block = 21 ∷ 22 ∷ replicate 13 0;
}

abbrev stored_start : WriteState ℕ
stored_start = write_start allocate stored_file 0 1024 (record { head = 1500 }) disk 100

stored_roots :
    (j : ℕ) → j < 15 → Leads level (j - 11) (get_or (21 ∷ 22 ∷ replicate {A = ℕ} 13 0) j 0)
unfolding level
stored_roots zero h = inr refl
stored_roots (suc zero) h = inr refl
stored_roots (suc (suc j)) h = inl (get_or-zeros 13 j)

stored_start-Settled : Settled Free level content stored_start.st
unfolding create_block_iterator skip
stored_start-Settled =
    let S = fresh-Settled 2 1 in
    record {
      tree = S.tree;
      answers = S.answers;
      writable = S.writable;
      size = refl;
      fifteen = refl;
      ind = refl;
      double = refl;
      triple = refl;
      at_root = tt;
      roots = stored_roots;
      null_block = S.null_block;
      free_blocks = S.free_blocks;
    }

write_in_block_example :
    WritesInBlock Free Room allocate allocate-Allocates input content stored_file 1500
      (write allocate stored_file 0 1024 input (record { head = 1500 }) disk 100)
write_in_block_example =
    write_in_block Free Room allocate allocate-Allocates input stored_file 0 1500 disk 100 level
      content refl (omega arith) (omega arith) (omega arith) (omega arith) stored_start-Settled
      (omega arith, omega arith) (omega arith) (omega arith)

-- The block of the write is there, so that the others of its bytes are kept.
block_there : file_block content stored_file.i_block (1500 / 1024) ≡ 22
block_there = refl
