-- ===== src/Ext2/Files/Tests.antt =====
-- Reads of a file at concrete inputs.
use dvida_oxide.Prelude.{ℕ, suc, ◌%◌, refl, ap, some, ◌∷◌, replicate, length-replicate, arith}
use dvida_oxide.Ext2.{Bytes, Drive}
use dvida_oxide.Ext2.Blocks.Tree.{Answers}
use dvida_oxide.Ext2.Files.{Inode, read}
use dvida_oxide.Ext2.Files.Whole.{ReadsFile, read-ReadsFile}

-- Block `n` starts with its number.
content : ℕ → Bytes
content n = n % 256 ∷ replicate 1023 0

drive : Drive
drive n = some (content n)

drive-Answers : Answers drive content
unfolding drive content
drive-Answers = record {
  answers = λ n. refl;
  whole = λ n. ap suc (length-replicate {A = ℕ} 1023 0);
}

-- A file of 1500 bytes in the blocks 21 and 22.
abbrev file : Inode
file = record { i_mode = 0x8000; i_size = 1500; i_blocks = 4; i_block = 21 ∷ 22 ∷ replicate 13 0 }

read-ReadsFile_example :
    ReadsFile content file 1000
      (replicate 40 0)
      (read drive 1024 file 0 (replicate 40 0) (record { head = 1000 }))
read-ReadsFile_example =
    read-ReadsFile drive content drive-Answers file 0 1000 (replicate 40 0) refl refl (omega arith)
      (omega arith)
