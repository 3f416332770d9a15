-- ===== src/Ext2/Files/Whole.antt =====
-- A read as a whole.
use dvida_oxide.Prelude.{
  ℕ, zero, suc, ◌+◌, ◌-◌, ◌*◌, ◌/◌, ◌%◌, ◌^◌, ◌≤◌, ◌<◌, ◌≡◌, ◌≢◌, ◌⊎◌, inl, inr, refl, ap, sym, ◌∙◌,
  subst, false, Bool-cases, ltb, ltb→lt, ltb→le, le→ltb, ==→eq, ==→ne, ◌==◌, List, length, get_or,
  replicate, min, arith,
}
use native.Mathlib.Nat.{mod-eq_of_lt}
use dvida_oxide.Ext2.{Res, done, Bytes, as_u32, Drive}
use dvida_oxide.Ext2.Blocks.{InodeBlockIterator, get, create_block_iterator}
use dvida_oxide.Ext2.Blocks.Tree.{bytes_of, Coherent, Answers}
use dvida_oxide.Ext2.Blocks.Reading.{file_block, Finds, next-get}
use dvida_oxide.Ext2.Files.{
  Inode, Reading, ReadState, inode_is_directory, progress_at, read_till_next_block, read_loop, read,
}
use dvida_oxide.Ext2.Files.Copying.{Copies, read_till_next_block_from-Copies}
use dvida_oxide.Ext2.Files.Got.{file_byte, get-early, ReadSoFar, copied-ReadSoFar}

module _ (drive : Drive) (content : ℕ → Bytes) (D : Answers drive content) (blocks : List ℕ)
    (count : length blocks ≡ 15) (i_size : ℕ) (word : i_size < 2 ^ 32) (head offset : ℕ)
    (target : Bytes) (behind : offset ≤ head) (limit : ℕ) (all_blocks : i_size ≤ limit * 1024)
    (near : offset + min (length target) (i_size - head) ≤ 13 * 1024) where
  abbrev SoFar : Reading → Type 0
  SoFar = ReadSoFar drive content D blocks i_size head offset target

  abbrev Stopped : Reading → Type 0
  Stopped s = (s.ctx.head ≡ i_size) ⊎ (s.progress.bytes_written ≡ length target)

  read_loop_stops :
      (fuel : ℕ) (buf : Bytes) (s : ReadState)
      → 0 < fuel
      → SoFar s.reading
      → Stopped s.reading
      → read_loop drive 1024 fuel i_size buf s ≡ (done tt, s)
  unfolding read_loop
  read_loop_stops zero buf s h R why = absurd (omega arith)
  read_loop_stops (suc fuel) buf s h R why =
      let small : as_u32 s.reading.ctx.head ≡ s.reading.ctx.head =
        mod-eq_of_lt {n = s.reading.ctx.head} {m = 4294967296} (omega (arith, R.in_file)) in
      elim (Bool-cases (ltb (as_u32 s.reading.ctx.head) i_size)) [
        | inr e ↦ rw e refl
        | inl e ↦ elim why [
          | inl at_end ↦ absurd (omega (arith, at_end, small, ltb→lt _ _ e))
          | inr full ↦
              rw
                (
                  e,
                  le→ltb s.reading.progress.bytes_written (length s.reading.target)
                      (omega (arith, full, R.whole)),
                )
                refl
        ]
      ]

  -- The iterator at a block, and the target filled up to it.
  record AtBlock (s : ReadState) : Type 0 where
    so_far : SoFar s.reading
    coherent : Coherent content s.it
    block_size : s.it.block_size ≡ 1024
    same_blocks : s.it.blocks ≡ blocks
    same_limit : s.it.blocks_limit ≡ limit
    at : s.it.cur_idx * 1024 + s.reading.progress.offset ≡ offset + s.reading.progress.bytes_written
    inside : s.reading.progress.offset < 1024
    below : s.it.cur_idx ≤ limit

  read_loop-ends :
      (fuel : ℕ) (buf : Bytes) (s : ReadState)
      → AtBlock s
      → limit < fuel + s.it.cur_idx
      → (s' : ReadState) × (read_loop drive 1024 fuel i_size buf s ≡ (done tt, s'))
        × SoFar s'.reading
        × Stopped s'.reading
  unfolding read_loop read_till_next_block
  read_loop-ends zero buf s A enough = absurd (omega (arith, A.below))
  read_loop-ends (suc fuel) buf s A enough =
      let R = A.so_far in
      let bw : ℕ = s.reading.progress.bytes_written in
      let small : as_u32 s.reading.ctx.head ≡ s.reading.ctx.head =
        mod-eq_of_lt {n = s.reading.ctx.head} {m = 4294967296} (omega (arith, R.in_file)) in
      elim (Bool-cases (ltb (as_u32 s.reading.ctx.head) i_size)) [
        | inr e ↦
            let why : Stopped s.reading = inl (omega (arith, R.in_file, small, ltb→le _ _ e)) in
            (s, read_loop_stops (suc fuel) buf s (omega arith) R why, R, why)
        | inl e ↦ elim (Bool-cases (ltb bw (length s.reading.target))) [
          | inr f ↦
              let why : Stopped s.reading =
                inr (omega (arith, R.in_target, R.whole, ltb→le _ _ f)) in
              (s, read_loop_stops (suc fuel) buf s (omega arith) R why, R, why)
          | inl f ↦
              let idx : ℕ = s.it.cur_idx in
              let off : ℕ = s.reading.progress.offset in
              let below : idx < limit =
                omega (arith, small, ltb→lt _ _ e, R.moved, A.at, behind, all_blocks) in
              let b : Bytes = bytes_of content buf (file_block content blocks idx) in
              let F =
                subst
                  (λ bs.
                    Finds content s.it (bytes_of content buf (file_block content bs idx))
                      (get drive buf s.it))
                  A.same_blocks
                  (get-early drive content D buf s.it A.coherent A.block_size
                    (ap length A.same_blocks ∙ count)
                    (omega
                      (arith, small, ltb→lt _ _ e, ltb→lt _ _ f, R.whole, R.moved, A.at, near))) in
              let (after, block_idx, N, idx1, C, blocks1, limit1, size1) =
                next-get drive content D buf b s.it (omega (arith, below, A.same_limit)) F in
              let s1 : Reading = read_till_next_block 1024 i_size b s.reading in
              let K : Copies i_size (1024 - off) off b s.reading s1 =
                read_till_next_block_from-Copies i_size word b (1024 - off) off s.reading R.in_file
                  (omega (arith, R.in_target, R.whole)) in
              let R1 : SoFar s1 =
                copied-ReadSoFar drive content D blocks i_size head offset target buf idx s.reading
                  s1 R A.at A.inside K in
              let next_state : ReadState = record { it = after; reading = s1 } in
              let step : read_loop drive 1024 (suc fuel) i_size buf s
                  ≡ read_loop drive 1024 fuel i_size b next_state =
                rw (e, f, N, read_loop) refl in
              elim K.ends [
                | inr why ↦
                    let stop : Stopped s1 = elim why [
                      | inl at_end ↦ inl at_end
                      | inr full ↦ inr (full ∙ R.whole)
                    ] in
                    (
                      next_state,
                      step
                          ∙ read_loop_stops fuel b next_state (omega (arith, enough, below)) R1
                              stop,
                      R1,
                      stop,
                    )
                | inl (every, zero_offset) ↦
                    let (s', q, R', stop) =
                      read_loop-ends fuel b next_state
                        (record {
                          so_far = R1;
                          coherent = C;
                          block_size = size1 ∙ A.block_size;
                          same_blocks = blocks1 ∙ A.same_blocks;
                          same_limit = limit1 ∙ A.same_limit;
                          at = omega (arith, idx1, zero_offset, every, K.written, A.at, A.inside);
                          inside = omega (arith, zero_offset);
                          below = omega (arith, idx1, below);
                        })
                        (omega (arith, enough, idx1)) in
                    (s', step ∙ q, R', stop)
              ]
        ]
      ]

-- What a read leaves: so many bytes of the file in the target, from a byte on, and the head behind them.
pub record ReadsFile (content : ℕ → Bytes) (inode : Inode) (head : ℕ) (target : Bytes)
    (out : Res ℕ × Reading) : Type 0 where
  pub count : ℕ
  pub after : Reading
  pub returns : out ≡ (done count, after)
  pub how_many : count ≡ min (length target) (inode.i_size - head)
  pub bytes :
      (t : ℕ)
      → t < count
      → get_or after.target t 0 ≡ file_byte content inode.i_block (head % 1024 + t)
  pub rest : (j : ℕ) → count ≤ j → get_or after.target j 0 ≡ get_or target j 0
  pub whole : length after.target ≡ length target
  pub head_after : after.ctx.head ≡ head + count

module _ (drive : Drive) (content : ℕ → Bytes) (D : Answers drive content) where
  -- A read of a file that is no directory, with 15 pointers, a size below 2^32, blocks of 1024 bytes, a
  -- drive that answers and an end within the first 13 blocks of the file, counted from its first block
  -- and the offset of the head in its block on: it ends and returns as many bytes as the file has behind
  -- the head and the target has room for, with the head behind them; they are the bytes of the file from
  -- that offset of its first block on, and the rest of the target is kept.
  pub read-ReadsFile :
      (inode : Inode) (group_number head : ℕ) (target : Bytes)
      → inode_is_directory inode ≡ false
      → length inode.i_block ≡ 15
      → inode.i_size < 2 ^ 32
      → head % 1024 + min (length target) (inode.i_size - head) ≤ 13 * 1024
      → ReadsFile content inode head target
          (read drive 1024 inode group_number target (record { head = head }))
  unfolding read create_block_iterator
  read-ReadsFile inode group_number head target file fifteen word near =
      elim (Bool-cases (min (length target) (inode.i_size - head) == 0)) [
        | inl e ↦
            let zero_left : min (length target) (inode.i_size - head) ≡ 0 = ==→eq _ 0 e in
            rw (file, e)
              (record {
                count = 0;
                after = record {
                  target = target;
                  ctx = record { head = head };
                  progress = progress_at 1024 head;
                };
                returns = refl;
                how_many = sym zero_left;
                bytes = λ t h. absurd (omega arith);
                rest = λ j h. refl;
                whole = refl;
                head_after = omega arith;
              })
        | inr e ↦
            let left : min (length target) (inode.i_size - head) ≢ 0 = ==→ne _ 0 e in
            let small : as_u32 head ≡ head =
              mod-eq_of_lt {n = head} {m = 4294967296} (omega (arith, left)) in
            let limit : ℕ = (inode.i_size + 1024 - 1) / 1024 in
            let it : InodeBlockIterator =
              create_block_iterator inode.i_block inode.i_size 1024 group_number in
            let start : Reading = record {
              target = target;
              ctx = record { head = head };
              progress = progress_at 1024 head;
            } in
            let (s', q, R, stop) =
              read_loop-ends drive content D inode.i_block fifteen inode.i_size word head
                (head % 1024) target (omega arith) limit (omega arith) near (limit + 1)
                (replicate 1024 0) (record { it = it; reading = start })
                (record {
                  so_far = record {
                    whole = refl;
                    copied = λ t h. absurd (omega arith);
                    rest = λ j h. refl;
                    moved = omega arith;
                    in_file = omega (arith, left);
                    in_target = omega arith;
                  };
                  coherent = record {
                    ind = λ b k. absurd (cc k);
                    double = λ b k. absurd (cc k);
                    triple = λ b k. absurd (cc k);
                  };
                  block_size = refl;
                  same_blocks = refl;
                  same_limit = refl;
                  at = omega (arith, small);
                  inside = omega arith;
                  below = omega arith;
                })
                (omega arith) in
            rw (file, e, q)
              (record {
                count = s'.reading.progress.bytes_written;
                after = s'.reading;
                returns = refl;
                how_many = elim stop [
                  | inl at_end ↦ omega (arith, at_end, R.moved, R.in_target)
                  | inr full ↦ omega (arith, full, R.moved, R.in_file)
                ];
                bytes = R.copied;
                rest = R.rest;
                whole = R.whole;
                head_after = R.moved;
              })
      ]
