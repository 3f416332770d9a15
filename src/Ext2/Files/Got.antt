-- ===== src/Ext2/Files/Got.antt =====
-- The bytes of a file, and those that a read has copied.
use dvida_oxide.Prelude.{
  ℕ, ◌+◌, ◌-◌, ◌*◌, ◌/◌, ◌%◌, ◌≤◌, ◌<◌, ◌≡◌, inl, inr, refl, ap, sym, ◌∙◌, subst, Bool-cases, ap₂,
  lt→ltb, le→ltb, ◌==◌, List, length, get_or, if◌then◌else◌, arith,
}
use native.Mathlib.Decide.{dec_lt}
use dvida_oxide.Ext2.{Bytes, Drive, ◌then◌}
use dvida_oxide.Ext2.Blocks.{InodeBlockIterator, get}
use dvida_oxide.Ext2.Blocks.Tree.{pointer, bytes_of, Coherent, Answers}
use dvida_oxide.Ext2.Blocks.Reading.{file_block, Finds, get-Finds, get-single}
use dvida_oxide.Ext2.Setting.Pointers.{get_or-zeros}
use dvida_oxide.Ext2.Files.{Reading}
use dvida_oxide.Ext2.Files.Copying.{Copies}

-- A byte of a block, where a block that is missing reads as zeros.
abbrev pub byte_in : (ℕ → Bytes) → ℕ → ℕ → ℕ
byte_in content block k = if block == 0 then 0 else get_or (content block) k 0

-- Byte `p` of a file in the format of ext2.
abbrev pub file_byte : (ℕ → Bytes) → List ℕ → ℕ → ℕ
file_byte content blocks p = byte_in content (file_block content blocks (p / 1024)) (p % 1024)

byte_in-bytes_of :
    (content : ℕ → Bytes) (buf : Bytes) (block k : ℕ)
    → get_or (bytes_of content buf block) k 0 ≡ byte_in content block k
byte_in-bytes_of content buf block k = elim (Bool-cases (block == 0)) [
  | inl e ↦ rw e (get_or-zeros (length buf) k)
  | inr e ↦ rw e refl
]

module _ (drive : Drive) (content : ℕ → Bytes) (D : Answers drive content) where
  -- The first thirteen blocks: the single indirect block is read right at its first pointer only.
  pub get-early :
      (buf : Bytes) (it : InodeBlockIterator)
      → Coherent content it
      → it.block_size ≡ 1024
      → length it.blocks ≡ 15
      → it.cur_idx < 13
      → Finds content it
          (bytes_of content buf (file_block content it.blocks it.cur_idx))
          (get drive buf it)
  get-early buf it C size count early = elim (dec_lt it.cur_idx 12) [
    | yes lo ↦ get-Finds drive content D buf it C size count (inl lo) (omega arith)
    | no not_lo ↦
        let n : ℕ = get_or it.blocks 12 0 in
        let first : file_block content it.blocks it.cur_idx ≡ pointer content n (it.cur_idx - 12) =
          rw (le→ltb it.cur_idx 12 (omega arith), lt→ltb it.cur_idx 268 (omega arith))
            (ap (pointer content n) (omega arith)) in
        elim (get-single drive content D buf it C (omega arith) (omega arith)) [
          | inl (nonzero, askew, panics) ↦ absurd (askew (omega arith))
          | inr (why, F) ↦
              subst (λ b. Finds content it (bytes_of content buf b) (get drive buf it)) (sym first)
                F
        ]
  ]

  -- The state between two rounds of the loop: what went to the target so far.
  pub record ReadSoFar (blocks : List ℕ) (i_size head offset : ℕ) (target : Bytes) (s : Reading)
      : Type 0 where
    pub whole : length s.target ≡ length target
    pub copied :
        (t : ℕ)
        → t < s.progress.bytes_written
        → get_or s.target t 0 ≡ file_byte content blocks (offset + t)
    pub rest : (j : ℕ) → s.progress.bytes_written ≤ j → get_or s.target j 0 ≡ get_or target j 0
    pub moved : s.ctx.head ≡ head + s.progress.bytes_written
    pub in_file : s.ctx.head ≤ i_size
    pub in_target : s.progress.bytes_written ≤ length target

  -- One block more.
  pub copied-ReadSoFar :
      (blocks : List ℕ) (i_size head offset : ℕ) (target buf : Bytes) (idx : ℕ) (s s' : Reading)
      → ReadSoFar blocks i_size head offset target s
      → idx * 1024 + s.progress.offset ≡ offset + s.progress.bytes_written
      → s.progress.offset < 1024
      → Copies i_size
          (1024 - s.progress.offset)
          s.progress.offset
          (bytes_of content buf (file_block content blocks idx))
          s
          s'
      → ReadSoFar blocks i_size head offset target s'
  copied-ReadSoFar blocks i_size head offset target buf idx s s' R at inside K = record {
    whole = K.whole ∙ R.whole;
    copied = copied;
    rest =
        λ j h. K.outside j (inr (omega (arith, K.written))) ∙ R.rest j (omega (arith, K.written));
    moved = omega (arith, K.head, K.written, R.moved);
    in_file = omega (arith, K.head, K.in_file);
    in_target = omega (arith, K.written, K.in_target, R.whole);
  }
    where
      copied :
          (t : ℕ)
          → t < s'.progress.bytes_written
          → get_or s'.target t 0 ≡ file_byte content blocks (offset + t)
      copied t h = elim (dec_lt t s.progress.bytes_written) [
        | yes before ↦ K.outside t (inl before) ∙ R.copied t before
        | no after ↦
            let u : ℕ = t - s.progress.bytes_written in
            let k : ℕ = s.progress.offset + u in
            let div : (offset + t) / 1024 ≡ idx = omega (arith, K.written, K.at_most) in
            let rem : (offset + t) % 1024 ≡ k = omega (arith, K.written, K.at_most) in
            ap (λ j. get_or s'.target j 0) (omega arith)
            ∙ K.inside u (omega (arith, K.written))
            ∙ byte_in-bytes_of content buf (file_block content blocks idx) k
            ∙ ap₂ (λ i j. byte_in content (file_block content blocks i) j) (sym div) (sym rem)
      ]
