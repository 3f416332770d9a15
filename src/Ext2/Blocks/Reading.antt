-- ===== src/Ext2/Blocks/Reading.antt =====
-- The block that `get` reads, by the index in the file.
use dvida_oxide.Prelude.{
  ℕ, ◌+◌, ◌-◌, ◌*◌, ◌/◌, ◌%◌, ◌≤◌, ◌<◌, ◌≡◌, ◌≢◌, ◌⊎◌, refl, ap, sym, ◌∙◌, subst, ◌==◌, ==→eq,
  ==→ne, true, false, List, length, get_or, get_elem?-eq-get_or, inl, inr, Bool-cases, ltb, lt→ltb,
  le→ltb, ltb→lt, ltb→le, gt→leb, le→leb, if◌then◌else◌, arith,
}
use native.Mathlib.Nat.{mod-eq_of_lt}
use dvida_oxide.Ext2.{
  Res, done, refused, io_error, no_space_left, panic, ◌then◌, Bytes, as_u32, Drive,
}
use dvida_oxide.Ext2.Blocks.{
  InodeBlockIterator, Step, BlockIterElement, inode_block_limit, inode_ind_block_limit, block_of,
  get_double, get_triple, handle_ind_block, found, get, next,
}
use dvida_oxide.Ext2.Blocks.Tree.{
  pointer, bytes_of, Coherent, Keeps, Reads, Reads-unwrap, Answers, handle_block-Reads,
}
use dvida_oxide.Ext2.Blocks.Levels.{
  handle_ind_block-Reads, missing-Reads, handle_ind_block-panic, handle_double_ind_block-Reads,
  triple-Reads,
}

-- Block `idx` of a file in the format of ext2, with four bytes to a pointer and blocks of 1024 bytes.
abbrev pub file_block : (ℕ → Bytes) → List ℕ → ℕ → ℕ
file_block content blocks idx =
    let single = pointer content (get_or blocks 12 0) ((idx - 12) * 4) in
    let j = idx - 268 in
    let double =
      pointer content (pointer content (get_or blocks 13 0) (j / 256 * 4)) (j % 256 * 4) in
    let k = idx - 65804 in
    let triple =
      pointer content
        (pointer content (pointer content (get_or blocks 14 0) (k / 65536 * 4)) (k / 256 % 256 * 4))
        (k % 256 * 4) in
    if ltb idx 12
    then get_or blocks idx 0
    else (if ltb idx 268 then single else (if ltb idx 65804 then double else triple))

-- What a call returns: a block that is not the end, by its bytes.
pub record Finds (content : ℕ → Bytes) (it : InodeBlockIterator) (b : Bytes)
    (out : Res BlockIterElement × InodeBlockIterator) : Type 0 where
  pub after : InodeBlockIterator
  pub block_idx : ℕ
  pub returns :
      out ≡ (done (record { buf = b; is_terminated = false; block_idx = block_idx }), after)
  pub keeps : Keeps it after
  pub coherent : Coherent content after

found-Finds :
    (content : ℕ → Bytes) (it : InodeBlockIterator) (b : Bytes) (r : Step Bytes)
    → Reads content it b r
    → Finds content it b (found r)
unfolding found
found-Finds content it b r R = record {
  after = R.after;
  block_idx = R.after.cur_block_idx;
  returns = rw (R.returns, found) refl;
  keeps = R.keeps;
  coherent = R.coherent;
}

found-panic : (r : Step Bytes) → r.0 ≡ panic → (found r).0 ≡ panic
unfolding found
found-panic (done b, it) h = absurd (cc h)
found-panic (refused e, it) h = absurd (cc h)
found-panic (io_error, it) h = absurd (cc h)
found-panic (no_space_left, it) h = absurd (cc h)
found-panic (panic, it) h = refl

module _ (drive : Drive) (content : ℕ → Bytes) (D : Answers drive content) where
  get_direct :
      (buf : Bytes) (it : InodeBlockIterator)
      → Coherent content it
      → length it.blocks ≡ 15
      → it.cur_idx < 12
      → Finds content it
          (bytes_of content buf (file_block content it.blocks it.cur_idx))
          (get drive buf it)
  unfolding get
  get_direct buf it C count first =
      let idx : as_u32 it.cur_idx ≡ it.cur_idx =
        mod-eq_of_lt {n = it.cur_idx} {m = 4294967296} (omega arith) in
      let direct : ltb (as_u32 it.cur_idx) 12 ≡ true =
        lt→ltb (as_u32 it.cur_idx) 12 (omega (arith, idx)) in
      let n = get_or it.blocks it.cur_idx 0 in
      rw (direct, lt→ltb it.cur_idx 12 first, get)
        (found-Finds content it _ _ (
          Reads-unwrap content it n _ _ _ (get_elem?-eq-get_or it.blocks it.cur_idx 0 (omega arith))
            (handle_block-Reads drive content D buf n it C)))

  get_double_Finds :
      (buf : Bytes) (it : InodeBlockIterator)
      → Coherent content it
      → it.block_size ≡ 1024
      → 268 ≤ it.cur_idx
      → it.cur_idx < 65804
      → Finds content it
          (bytes_of content buf (file_block content it.blocks it.cur_idx))
          (get drive buf it)
  unfolding get get_double
  get_double_Finds buf it C size lo hi =
      let i = as_u32 it.cur_idx in
      let idx : i ≡ it.cur_idx = mod-eq_of_lt {n = it.cur_idx} {m = 4294967296} (omega arith) in
      let per_block : it.block_size / 4 ≡ 256 = omega arith in
      rw
        (
          le→ltb i 12 (omega (arith, idx)),
          le→ltb i 268 (omega (arith, idx)),
          lt→ltb i 65804 (omega (arith, idx)),
          le→ltb it.cur_idx 12 (omega arith),
          le→ltb it.cur_idx 268 lo,
          lt→ltb it.cur_idx 65804 hi,
          per_block,
          get,
          get_double,
        )
        (found-Finds content it _ _ (
          handle_double_ind_block-Reads drive content D buf _ _ (block_of it 13) it C (omega arith)
            (omega arith) (omega arith) (omega arith)))

  get_triple_Finds :
      (buf : Bytes) (it : InodeBlockIterator)
      → Coherent content it
      → it.block_size ≡ 1024
      → 65804 ≤ it.cur_idx
      → it.cur_idx < 16843020
      → Finds content it
          (bytes_of content buf (file_block content it.blocks it.cur_idx))
          (get drive buf it)
  unfolding get get_triple
  get_triple_Finds buf it C size lo hi =
      let i = as_u32 it.cur_idx in
      let idx : i ≡ it.cur_idx = mod-eq_of_lt {n = it.cur_idx} {m = 4294967296} (omega arith) in
      let per_block : it.block_size / 4 ≡ 256 = omega arith in
      rw
        (
          le→ltb i 12 (omega (arith, idx)),
          le→ltb i 268 (omega (arith, idx)),
          le→ltb i 65804 (omega (arith, idx)),
          lt→ltb i 16843020 (omega (arith, idx)),
          le→ltb it.cur_idx 12 (omega arith),
          le→ltb it.cur_idx 268 (omega arith),
          le→ltb it.cur_idx 65804 lo,
          per_block,
          get,
          get_triple,
        )
        (found-Finds content it _ _ (
          triple-Reads drive content D buf _ _ _ it (block_of it 14) C refl (omega arith)
            (omega arith) (omega arith) (omega arith) (omega arith) (omega arith)))

  -- `get` returns the bytes of the block that the format names, and zeros for a hole, for a file of
  -- blocks of 1024 bytes and for every index but those of the single indirect block.
  pub get-Finds :
      (buf : Bytes) (it : InodeBlockIterator)
      → Coherent content it
      → it.block_size ≡ 1024
      → length it.blocks ≡ 15
      → (it.cur_idx < 12) ⊎ (268 ≤ it.cur_idx)
      → it.cur_idx < 16843020
      → Finds content it
          (bytes_of content buf (file_block content it.blocks it.cur_idx))
          (get drive buf it)
  get-Finds buf it C size count range low = elim range [
    | inl first ↦ get_direct buf it C count first
    | inr above ↦ elim (Bool-cases (ltb it.cur_idx 65804)) [
      | inl e ↦ get_double_Finds buf it C size above (ltb→lt it.cur_idx 65804 e)
      | inr e ↦ get_triple_Finds buf it C size (ltb→le it.cur_idx 65804 e) low
    ]
  ]

  -- In the range of the single indirect block, with a drive that answers in blocks of 1024 bytes and
  -- buffers that agree with it, `get` takes the pointer at byte `cur_idx - 12` of that block, not at four
  -- times that. Where the block is there and that byte is not at a multiple of four, it panics; else it
  -- returns the bytes of the block that the pointer names, or zeros for a hole or a missing single
  -- indirect block.
  pub get-single :
      (buf : Bytes) (it : InodeBlockIterator)
      → Coherent content it
      → 12 ≤ it.cur_idx
      → it.cur_idx < 268
      → ((block_of it 12 ≢ 0) × ((it.cur_idx - 12) % 4 ≢ 0) × ((get drive buf it).0 ≡ panic))
        ⊎ (((block_of it 12 ≡ 0) ⊎ ((it.cur_idx - 12) % 4 ≡ 0))
            × Finds content it
                (bytes_of content buf (pointer content (block_of it 12) (it.cur_idx - 12)))
                (get drive buf it))
  unfolding get
  get-single buf it C lo hi =
      let idx : as_u32 it.cur_idx ≡ it.cur_idx =
        mod-eq_of_lt {n = it.cur_idx} {m = 4294967296} (omega arith) in
      let not_direct : ltb (as_u32 it.cur_idx) inode_block_limit ≡ false =
        le→ltb (as_u32 it.cur_idx) 12 (omega (arith, idx)) in
      let single : ltb (as_u32 it.cur_idx) inode_ind_block_limit ≡ true =
        lt→ltb (as_u32 it.cur_idx) 268 (omega (arith, idx)) in
      let n : ℕ = block_of it 12 in
      let offset : ℕ = it.cur_idx - 12 in
      let goes : get drive buf it ≡ found (handle_ind_block drive buf offset n it) =
        rw (not_direct, single, get) refl in
      elim (Bool-cases (n == 0)) [
        | inl e ↦ inr (
          inl (==→eq n 0 e),
          subst (Finds content it (bytes_of content buf (pointer content n offset))) (sym goes) (
              found-Finds content it _ _
                (missing-Reads drive content D buf offset n it C (==→eq n 0 e))),
        )
        | inr e ↦ elim (Bool-cases (offset % 4 == 0)) [
          | inl f ↦ inr (
            inr (==→eq (offset % 4) 0 f),
            subst (Finds content it (bytes_of content buf (pointer content n offset))) (sym goes) (
                found-Finds content it _ _ (
                  handle_ind_block-Reads drive content D buf offset n it C (omega arith)
                    (==→eq (offset % 4) 0 f))),
          )
          | inr f ↦
              let nonzero : n ≢ 0 = ==→ne n 0 e in
              let askew : offset % 4 ≢ 0 = ==→ne (offset % 4) 0 f in
              inl (
                nonzero,
                askew,
                ap (λ r. r.0) goes
                    ∙ found-panic _
                        (handle_ind_block-panic drive content D buf offset n it C nonzero askew),
              )
        ]
      ]

  -- `next` before the limit returns the block of the current index, as `get` does, and moves on to
  -- the next index, with the buffers coherent for it.
  pub next-get :
      (buf b : Bytes) (it : InodeBlockIterator)
      → it.cur_idx < it.blocks_limit
      → Finds content it b (get drive buf it)
      → (after : InodeBlockIterator) × (block_idx : ℕ) × (next drive buf it
          ≡ (done (record { buf = b; is_terminated = false; block_idx = block_idx }), after))
        × (after.cur_idx ≡ it.cur_idx + 1)
        × Coherent content after
        × (after.blocks ≡ it.blocks)
        × (after.blocks_limit ≡ it.blocks_limit)
        × (after.block_size ≡ it.block_size)
  unfolding next
  next-get buf b it below F =
      let C = F.coherent in
      (
        record F.after { cur_idx = F.after.cur_idx + 1 },
        F.block_idx,
        rw (gt→leb it.blocks_limit it.cur_idx below, F.returns, next) refl,
        ap (λ n. n + 1) F.keeps.cur_idx,
        record { ind = C.ind; double = C.double; triple = C.triple },
        F.keeps.blocks,
        F.keeps.blocks_limit,
        F.keeps.block_size,
      )

  pub next-terminated :
      (buf : Bytes) (it : InodeBlockIterator)
      → it.blocks_limit ≤ it.cur_idx
      → next drive buf it ≡ (done (record { buf = buf; is_terminated = true; block_idx = 0 }), it)
  unfolding next
  next-terminated buf it h = rw (le→leb it.blocks_limit it.cur_idx h, next) refl
