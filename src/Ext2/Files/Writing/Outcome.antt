-- ===== src/Ext2/Files/Writing/Outcome.antt =====
-- What a write returns, and the bytes of a write inside one block.
use dvida_oxide.Prelude.{
  ℕ, ◌+◌, ◌-◌, ◌*◌, ◌/◌, ◌%◌, ◌≤◌, ◌<◌, ◌≡◌, ◌≢◌, ◌⊎◌, inl, inr, refl, ap, sym, ◌∙◌, false, List,
  length, get_or, replicate, ne→==, arith,
}
use native.Mathlib.Nat.{mod-eq_of_lt}
use dvida_oxide.Ext2.{Res, done, Bytes, as_u32}
use dvida_oxide.Ext2.Allocator.{AllocatedBlock}
use dvida_oxide.Ext2.Blocks.{create_block_iterator, skip}
use dvida_oxide.Ext2.Blocks.Reading.{file_block}
use dvida_oxide.Ext2.Setting.{Disk}
use dvida_oxide.Ext2.Setting.Pointers.{get_or-zeros}
use dvida_oxide.Ext2.Setting.Tree.{Level, Content}
use dvida_oxide.Ext2.Setting.Settled.{Allocates, Settled}
use dvida_oxide.Ext2.Files.{Inode, inode_is_directory}
use dvida_oxide.Ext2.Files.Writing.{WriteState, write_loop, write_start, write}
use dvida_oxide.Ext2.Files.Writing.Block.{start_buf, patch_of}
use dvida_oxide.Ext2.Files.Writing.Patching.{Patches}
use dvida_oxide.Ext2.Files.Writing.Rounds.{Round, round}
use dvida_oxide.Ext2.Files.Writing.Whole.{four_each, SizeAfter, stopped, write_loop-Ends}

-- The rounds of a write: the blocks that it touches.
abbrev pub rounds_of : ℕ → Bytes → ℕ
rounds_of head input = (head % 1024 + length input + 1023) / 1024

start_buf-zeros : (offset : ℕ) (old : Bytes) → offset ≡ 0 → start_buf offset old ≡ replicate 1024 0
start_buf-zeros offset old h = ap (λ o. start_buf o old) h

start_buf-kept : (offset : ℕ) (old : Bytes) → offset ≢ 0 → start_buf offset old ≡ old
start_buf-kept offset old h = rw (ne→== offset 0 h) refl

module _ {ℓ} {S : Type ℓ} (Free : S → ℕ → Type 0) (Room : S → ℕ → Type 0)
    (allocate : ℕ → ℕ → S → Res (List AllocatedBlock) × S) (A : Allocates S allocate Free Room)
    (input : Bytes) where
  -- A write that takes the whole input, with the inode after it.
  pub record Writes (inode : Inode) (head : ℕ) (out : Res (ℕ × Inode) × WriteState S) : Type ℓ where
    pub level' : Level
    pub content' : Content
    pub after : WriteState S
    pub inode' : Inode
    pub returns : out ≡ (done (length input, inode'), after)
    pub settled : Settled Free level' content' after.st
    pub blocks : inode'.i_block ≡ after.st.it.blocks
    pub head_after : after.ctx.head ≡ head + length input
    pub size : SizeAfter inode.i_size head (head % 1024) (length input) inode'.i_size

  pub record WritesInBlock (content : Content) (inode : Inode) (head : ℕ)
      (out : Res (ℕ × Inode) × WriteState S) : Type ℓ where
    pub level' : Level
    pub content' : Content
    pub after : WriteState S
    pub inode' : Inode
    pub returns : out ≡ (done (length input, inode'), after)
    pub settled : Settled Free level' content' after.st
    pub bytes :
        (t : ℕ)
        → t < length input
        → get_or (content' (file_block content' inode'.i_block (head / 1024))) (head % 1024 + t) 0
          ≡ get_or input t 0
    pub around :
        (j : ℕ)
        → (j < head % 1024) ⊎ (head % 1024 + length input ≤ j)
        → head % 1024 ≢ 0
        → file_block content inode.i_block (head / 1024) ≢ 0
        → get_or (content' (file_block content' inode'.i_block (head / 1024))) j 0
          ≡ get_or (content (file_block content inode.i_block (head / 1024))) j 0
    pub cleared :
        (j : ℕ)
        → length input ≤ j
        → head % 1024 ≡ 0
        → get_or (content' (file_block content' inode'.i_block (head / 1024))) j 0 ≡ 0

  module _ (inode : Inode) (group_number head : ℕ) (disk : Disk) (allocator : S) (level : Level)
      (c : Content) (file : inode_is_directory inode ≡ false) (in_file : head ≤ inode.i_size)
      (small : inode.i_size < 4294966271) (low : head + length input < 4294966270)
      (some_input : 0 < length input) where
    abbrev start : WriteState S
    start = write_start allocate inode group_number 1024 (record { head = head }) disk allocator

    word : as_u32 head ≡ head
    word = mod-eq_of_lt {n = head} {m = 4294967296} (omega arith)

    -- What the loop leaves, as the result of the write.
    abbrev taken : ℕ → WriteState S → Res (ℕ × Inode) × WriteState S
    taken count w = (
      done (
        count,
        record inode {
          i_size = w.i_size;
          i_block = w.st.it.blocks;
          i_blocks = inode.i_blocks + w.blocks_allocated_count * 1024;
        },
      ),
      w,
    )

    write-finished :
        (w : WriteState S)
        → write_loop allocate 1024 (length input + 1) input start ≡ (done tt, w)
        → write allocate inode group_number 1024 input (record { head = head }) disk allocator
          ≡ taken w.progress.bytes_written w
    unfolding write
    write-finished w h = rw (file, h) refl

    module _ (settled : Settled Free level c start.st)
        (room : Room allocator (four_each (rounds_of head input)))
        (idx : head / 1024 + rounds_of head input ≤ 16843020) where
      -- With blocks of 1024 bytes and a state, a drive and an allocator as `set` wants them, with room for
      -- four blocks for each block of the file that is touched, and below 4 GB: a write of some bytes, at or
      -- before the end of a file that is no directory, ends, takes the whole input, moves the head behind it
      -- and leaves all in order; the file ends behind the write at least, but unless the write fills its last
      -- block, one byte further.
      pub write-Writes :
          Writes inode head
            (write allocate inode group_number 1024 input (record { head = head }) disk allocator)
      unfolding skip create_block_iterator
      write-Writes =
          let E =
            write_loop-Ends Free Room allocate A input (rounds_of head input) (length input + 1)
              level c start settled (omega (arith, word)) room (omega arith) (omega arith) in_file
              small (omega arith) (omega (arith, word)) (omega arith) (inl (omega arith)) in
          record {
            level' = E.level';
            content' = E.content';
            after = E.after;
            inode' = record inode {
              i_size = E.after.i_size;
              i_block = E.after.st.it.blocks;
              i_blocks = inode.i_blocks + E.after.blocks_allocated_count * 1024;
            };
            returns = write-finished E.after E.returns ∙ ap (λ n. taken n E.after) E.all;
            settled = E.settled;
            blocks = refl;
            head_after = omega (arith, E.head);
            size = elim E.size [
              | inl (m, t) ↦ inl (omega (arith, m, word), omega (arith, t))
              | inr (m, t) ↦ inr ((λ e. m (omega (arith, e, word))), omega (arith, t))
            ];
          }

    -- What a first round that takes the whole input leaves.
    module _ (R : Round Free Room allocate A input 0 level c start)
        (inside : head % 1024 + length input ≤ 1024) where
      abbrev P :
          Patches input
            (1024 - start.progress.offset)
            start.progress.offset
            (patch_of (start_buf start.progress.offset R.old) start)
            R.patch
      P = R.patches

      offset : start.progress.offset ≡ head % 1024
      offset = ap (λ h. h % 1024) word

      place : start.st.it.cur_idx ≡ head / 1024
      unfolding skip create_block_iterator
      place = omega (arith, word)

      all : P.count ≡ length input
      all = elim P.size [
        | inl (filled, s) ↦ omega (arith, filled, P.in_input, offset)
        | inr (some_left, full, s) ↦ omega (arith, full)
      ]

      block_holds :
          R.content' (file_block R.content' R.after.st.it.blocks (head / 1024)) ≡ R.patch.buf
      block_holds =
          ap (λ i. R.content' (file_block R.content' R.after.st.it.blocks i)) (sym place) ∙ R.holds

      outside :
          (j : ℕ)
          → (j < head % 1024) ⊎ (head % 1024 + length input ≤ j)
          → get_or R.patch.buf j 0 ≡ get_or (start_buf start.progress.offset R.old) j 0
      outside j (inl h) = P.outside j (inl (omega (arith, h, offset)))
      outside j (inr h) = P.outside j (inr (omega (arith, h, offset, all)))

      in_block :
          WritesInBlock c inode head
            (write allocate inode group_number 1024 input (record { head = head }) disk allocator)
      unfolding skip create_block_iterator
      in_block = record {
        level' = R.level';
        content' = R.content';
        after = R.after;
        inode' = record inode {
          i_size = R.after.i_size;
          i_block = R.after.st.it.blocks;
          i_blocks = inode.i_blocks + R.after.blocks_allocated_count * 1024;
        };
        returns =
            write-finished R.after (
              ap (λ fuel. write_loop allocate 1024 fuel input start) (omega arith)
              ∙ R.goes (length input)
              ∙ stopped Free Room allocate A input (length input) R.after some_input
                  (omega (arith, R.written, P.written, all)))
            ∙ ap (λ n. taken n R.after) (omega (arith, R.written, P.written, all));
        settled = R.settled;
        bytes = λ t h.
            ap (λ b. get_or b (head % 1024 + t) 0) block_holds
            ∙ ap (λ o. get_or R.patch.buf (o + t) 0) (sym offset)
            ∙ P.inside t (omega (arith, h, all))
            ∙ ap (λ k. get_or input k 0) (omega arith);
        around = λ j h not_start there.
            ap (λ b. get_or b j 0) block_holds
            ∙ outside j h
            ∙ ap (λ b. get_or b j 0)
                (start_buf-kept start.progress.offset R.old (λ e. not_start (sym offset ∙ e))
                  ∙ R.before (λ e. there (ap (file_block c inode.i_block) (sym place) ∙ e))
                  ∙ ap (λ i. c (file_block c inode.i_block i)) place);
        cleared = λ j h at_start.
            ap (λ b. get_or b j 0) block_holds
            ∙ outside j (inr (omega (arith, h, at_start)))
            ∙ ap (λ b. get_or b j 0)
                (start_buf-zeros start.progress.offset R.old (offset ∙ at_start))
            ∙ get_or-zeros 1024 j;
      }

    module _ (settled : Settled Free level c start.st) (room : Room allocator 4)
        (inside : head % 1024 + length input ≤ 1024) (idx : head / 1024 < 16843020) where
      -- With blocks of 1024 bytes and a state, a drive and an allocator as `set` wants them, with room for
      -- four blocks, and below 4 GB: a write of some bytes that stays inside a block, at or before the end of
      -- a file that is no directory, takes the whole input, and the bytes of the block from the head on are
      -- then those of the input. Where the write does not start at the block's start and the file had the
      -- block, the other bytes are kept; of a hole nothing is said there. Where the write starts at the
      -- block's start, the bytes behind the input are zero.
      pub write_in_block :
          WritesInBlock c inode head
            (write allocate inode group_number 1024 input (record { head = head }) disk allocator)
      unfolding skip create_block_iterator
      write_in_block =
          let R =
            round Free Room allocate A input 0 level c start settled (omega (arith, word)) room
              (omega arith) some_input in_file small in
          in_block R inside
