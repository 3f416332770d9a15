-- ===== src/Ext2/Blocks/Tests.antt =====
-- Runs of the block iterator, and its theorems at concrete inputs.
use dvida_oxide.Prelude.{
  ℕ, suc, ◌+◌, ◌%◌, ◌≡◌, ◌≢◌, ◌⊎◌, inr, refl, ap, none, some, [], ◌∷◌, replicate, length-replicate,
  arith,
}
use dvida_oxide.Ext2.{panic, Bytes, Drive}
use dvida_oxide.Ext2.Blocks.{InodeBlockIterator, block_of, get}
use dvida_oxide.Ext2.Blocks.Tree.{number_at, Answers, Coherent, bytes_of, pointer}
use dvida_oxide.Ext2.Blocks.Reading.{file_block, Finds, get-Finds, get-single}

-- Block `n` has the pointer `n % 256 + 1` at its start and zeros behind it.
content : ℕ → Bytes
content n = (n % 256 + 1) ∷ replicate 1023 0

drive : Drive
drive n = some (content n)

drive-Answers : Answers drive content
unfolding drive content
drive-Answers = record {
  answers = λ n. refl;
  whole = λ n. ap suc (length-replicate {A = ℕ} 1023 0);
}

abbrev iterator : ℕ → InodeBlockIterator
iterator i = record {
  blocks = 21 ∷ 22 ∷ 23 ∷ 24 ∷ 25 ∷ 26 ∷ 27 ∷ 28 ∷ 29 ∷ 30 ∷ 31 ∷ 32 ∷ 33 ∷ 34 ∷ 35 ∷ [];
  group_number = 0;
  block_size = 1024;
  cur_ind_buf = none;
  cur_ind_buf_block_idx = 0;
  cur_double_ind_buf = none;
  cur_double_ind_buf_block_idx = 0;
  cur_triple_ind_buf = none;
  cur_triple_ind_buf_block_idx = 0;
  blocks_limit = 100000;
  cur_idx = i;
  cur_block_idx = 0;
}

iterator-Coherent : (i : ℕ) → Coherent content (iterator i)
iterator-Coherent i = record {
  ind = λ b e. absurd (cc e);
  double = λ b e. absurd (cc e);
  triple = λ b e. absurd (cc e);
}

-- Block 268 of the file is behind the pointers 34, then 35, then 36.
double_runs : file_block content (iterator 268).blocks 268 ≡ 36
unfolding content number_at
double_runs = refl

get-Finds_example :
    Finds content
      (iterator 268)
      (bytes_of content [] (file_block content (iterator 268).blocks 268))
      (get drive [] (iterator 268))
get-Finds_example =
    get-Finds drive content drive-Answers [] (iterator 268) (iterator-Coherent 268) refl refl
      (inr (omega arith)) (omega arith)

get-single_example :
    ((block_of (iterator 13) 12 ≢ 0) × (1 % 4 ≢ 0) × ((get drive [] (iterator 13)).0 ≡ panic))
    ⊎ (((block_of (iterator 13) 12 ≡ 0) ⊎ (1 % 4 ≡ 0))
        × Finds content
            (iterator 13)
            (bytes_of content [] (pointer content (block_of (iterator 13) 12) 1))
            (get drive [] (iterator 13)))
get-single_example =
    get-single drive content drive-Answers [] (iterator 13) (iterator-Coherent 13) (omega arith)
      (omega arith)
