-- ===== src/Ext2/Blocks/Tree.antt =====
-- Which block of a file the iterator reads: the tree of indirect blocks, walked from the inode.
use dvida_oxide.Prelude.{
  ℕ, ◌+◌, ◌*◌, ◌<◌, ◌≡◌, refl, ◌∙◌, sym, ap, subst, Option, none, some, length, get_or,
  get_elem?-eq-get_or, inl, inr, Bool-cases, ◌%◌, ◌==◌, ==→eq, eq→==, if◌then◌else◌, arith,
}
use dvida_oxide.Prelude.Results.{some_inj}
use dvida_oxide.Ext2.{done, ◌then◌, unwrap, Bytes, u32_at, Drive}
use dvida_oxide.Ext2.Blocks.{
  InodeBlockIterator, Step, block_of, zeros, handle_block, first_ind_buf, switch_ind_buf,
  first_double_ind_buf, switch_double_ind_buf, first_triple_ind_buf,
}

-- The number in four bytes, where they are there.
unfoldable pub number_at : Bytes → ℕ → ℕ
number_at buf offset =
    get_or buf offset 0
    + 256 * get_or buf (offset + 1) 0
    + 65536 * get_or buf (offset + 2) 0
    + 16777216 * get_or buf (offset + 3) 0

pub u32_at-number_at :
    (buf : Bytes) (offset : ℕ)
    → offset + 3 < length buf
    → offset % 4 ≡ 0
    → u32_at buf offset ≡ some (number_at buf offset)
unfolding number_at
u32_at-number_at buf offset h aligned =
    rw
      (
        eq→== (offset % 4) 0 aligned,
        get_elem?-eq-get_or buf offset 0 (omega arith),
        get_elem?-eq-get_or buf (offset + 1) 0 (omega arith),
        get_elem?-eq-get_or buf (offset + 2) 0 (omega arith),
        get_elem?-eq-get_or buf (offset + 3) 0 (omega arith),
      )
      refl

module _ (content : ℕ → Bytes) where
  -- The pointer at a byte offset of a block; there is none below a block that is missing.
  abbrev pub pointer : ℕ → ℕ → ℕ
  pointer block offset = if block == 0 then 0 else number_at (content block) offset

  -- What a reader gets for a block: its bytes, or zeros for a hole of the file.
  abbrev pub bytes_of : Bytes → ℕ → Bytes
  bytes_of buf block = if block == 0 then zeros buf else content block

  -- The buffers hold the blocks that their indices name.
  pub record Coherent (it : InodeBlockIterator) : Type 0 where
    pub ind : (b : Bytes) → it.cur_ind_buf ≡ some b → b ≡ content it.cur_ind_buf_block_idx
    pub double :
        (b : Bytes) → it.cur_double_ind_buf ≡ some b → b ≡ content it.cur_double_ind_buf_block_idx
    pub triple : (b : Bytes) → it.cur_triple_ind_buf ≡ some b → b ≡ content (block_of it 14)

-- What no read changes.
pub record Keeps (it it' : InodeBlockIterator) : Type 0 where
  pub blocks : it'.blocks ≡ it.blocks
  pub cur_idx : it'.cur_idx ≡ it.cur_idx
  pub blocks_limit : it'.blocks_limit ≡ it.blocks_limit
  pub block_size : it'.block_size ≡ it.block_size

Keeps-trans : (a b c : InodeBlockIterator) → Keeps a b → Keeps b c → Keeps a c
Keeps-trans a b c K L = record {
  blocks = L.blocks ∙ K.blocks;
  cur_idx = L.cur_idx ∙ K.cur_idx;
  blocks_limit = L.blocks_limit ∙ K.blocks_limit;
  block_size = L.block_size ∙ K.block_size;
}

-- A read that returns `b` and leaves the buffers coherent.
pub record Reads (content : ℕ → Bytes) (it : InodeBlockIterator) (b : Bytes) (out : Step Bytes)
    : Type 0 where
  pub after : InodeBlockIterator
  pub returns : out ≡ (done b, after)
  pub keeps : Keeps it after
  pub coherent : Coherent content after

-- The drive answers, with whole blocks.
pub record Answers (drive : Drive) (content : ℕ → Bytes) : Type 0 where
  pub answers : (n : ℕ) → drive n ≡ some (content n)
  pub whole : (n : ℕ) → length (content n) ≡ 1024

pub Keeps-refl : (it : InodeBlockIterator) → Keeps it it
Keeps-refl it = record { blocks = refl; cur_idx = refl; blocks_limit = refl; block_size = refl }

pub Reads-then :
    (content : ℕ → Bytes) (it : InodeBlockIterator) (b c : Bytes) (r : Step Bytes)
    (f : Bytes → InodeBlockIterator → Step Bytes) (R : Reads content it b r)
    → Reads content R.after c (f b R.after)
    → Reads content it c (r then f)
Reads-then content it b c r f R S = record {
  after = S.after;
  returns = ap (λ t. t then f) R.returns ∙ S.returns;
  keeps = Keeps-trans it R.after S.after R.keeps S.keeps;
  coherent = S.coherent;
}

pub Reads-unwrap :
    {A : Type 0} (content : ℕ → Bytes) (it : InodeBlockIterator) (v : A) (c : Bytes) (o : Option A)
    (f : A → InodeBlockIterator → Step Bytes)
    → o ≡ some v
    → Reads content it c (f v it)
    → Reads content it c (unwrap o it then f)
Reads-unwrap content it v c o f e R = subst (λ o. Reads content it c (unwrap o it then f)) (sym e) R

module _ (drive : Drive) (content : ℕ → Bytes) (D : Answers drive content) where
  pub handle_block-Reads :
      (buf : Bytes) (n : ℕ) (it : InodeBlockIterator)
      → Coherent content it
      → Reads content it (bytes_of content buf n) (handle_block drive buf n it)
  unfolding handle_block
  handle_block-Reads buf n it C = record {
    after = record it { cur_block_idx = n };
    returns = elim (Bool-cases (n == 0)) [ inl e ↦ rw e refl | inr e ↦ rw (e, D.answers n) refl ];
    keeps = record { blocks = refl; cur_idx = refl; blocks_limit = refl; block_size = refl };
    coherent = record { ind = C.ind; double = C.double; triple = C.triple };
  }

  pub first_ind_buf-Reads :
      (cur : Option Bytes) (it : InodeBlockIterator)
      → Coherent content it
      → it.cur_ind_buf ≡ cur
      → (b : Bytes) × (R : Reads content it b (first_ind_buf drive cur it)) × (R.after.cur_ind_buf
          ≡ some b)
  unfolding first_ind_buf
  first_ind_buf-Reads (some b) it C h =
      (b, record { after = it; returns = refl; keeps = Keeps-refl it; coherent = C }, h)
  first_ind_buf-Reads none it C h =
      let at = block_of it 12 in
      (
        content at,
        record {
          after = record it { cur_ind_buf = some (content at); cur_ind_buf_block_idx = at };
          returns = rw (D.answers at, first_ind_buf) refl;
          keeps = record { blocks = refl; cur_idx = refl; blocks_limit = refl; block_size = refl };
          coherent = record { ind = λ b e. sym (some_inj e); double = C.double; triple = C.triple };
        },
        refl,
      )

  pub switch_ind_buf-Reads :
      (n : ℕ) (b : Bytes) (it : InodeBlockIterator)
      → Coherent content it
      → it.cur_ind_buf ≡ some b
      → Reads content it (content n) (switch_ind_buf drive n b it)
  unfolding switch_ind_buf
  switch_ind_buf-Reads n b it C h = elim (Bool-cases (n == it.cur_ind_buf_block_idx)) [
    | inl e ↦
        let same : b ≡ content n =
          C.ind b h ∙ ap content (sym (==→eq n it.cur_ind_buf_block_idx e)) in
        record {
          after = it;
          returns = rw e (ap (λ t. (done t, it)) same);
          keeps = Keeps-refl it;
          coherent = C;
        }
    | inr e ↦ record {
      after = record it { cur_ind_buf = some (content n); cur_ind_buf_block_idx = n };
      returns = rw (e, D.answers n) refl;
      keeps = record { blocks = refl; cur_idx = refl; blocks_limit = refl; block_size = refl };
      coherent = record { ind = λ b e. sym (some_inj e); double = C.double; triple = C.triple };
    }
  ]

  pub first_double_ind_buf-Reads :
      (cur : Option Bytes) (it : InodeBlockIterator)
      → Coherent content it
      → it.cur_double_ind_buf ≡ cur
      → (b : Bytes) × (R : Reads content it b (first_double_ind_buf drive cur it))
        × (R.after.cur_double_ind_buf ≡ some b)
  unfolding first_double_ind_buf
  first_double_ind_buf-Reads (some b) it C h =
      (b, record { after = it; returns = refl; keeps = Keeps-refl it; coherent = C }, h)
  first_double_ind_buf-Reads none it C h =
      let at = block_of it 13 in
      (
        content at,
        record {
          after = record it {
            cur_double_ind_buf = some (content at);
            cur_double_ind_buf_block_idx = at;
          };
          returns = rw (D.answers at, first_double_ind_buf) refl;
          keeps = record { blocks = refl; cur_idx = refl; blocks_limit = refl; block_size = refl };
          coherent = record { ind = C.ind; double = λ b e. sym (some_inj e); triple = C.triple };
        },
        refl,
      )

  pub switch_double_ind_buf-Reads :
      (n : ℕ) (b : Bytes) (it : InodeBlockIterator)
      → Coherent content it
      → it.cur_double_ind_buf ≡ some b
      → Reads content it (content n) (switch_double_ind_buf drive n b it)
  unfolding switch_double_ind_buf
  switch_double_ind_buf-Reads n b it C h =
      elim (Bool-cases (n == it.cur_double_ind_buf_block_idx)) [
        | inl e ↦
            let same : b ≡ content n =
              C.double b h ∙ ap content (sym (==→eq n it.cur_double_ind_buf_block_idx e)) in
            record {
              after = it;
              returns = rw e (ap (λ t. (done t, it)) same);
              keeps = Keeps-refl it;
              coherent = C;
            }
        | inr e ↦ record {
          after = record it {
            cur_double_ind_buf = some (content n);
            cur_double_ind_buf_block_idx = n;
          };
          returns = rw (e, D.answers n) refl;
          keeps = record { blocks = refl; cur_idx = refl; blocks_limit = refl; block_size = refl };
          coherent = record { ind = C.ind; double = λ b e. sym (some_inj e); triple = C.triple };
        }
      ]

  pub first_triple_ind_buf-Reads :
      (cur : Option Bytes) (it : InodeBlockIterator)
      → Coherent content it
      → it.cur_triple_ind_buf ≡ cur
      → (b : Bytes) × (R : Reads content it b (first_triple_ind_buf drive cur it))
        × (R.after.cur_triple_ind_buf ≡ some b)
  unfolding first_triple_ind_buf
  first_triple_ind_buf-Reads (some b) it C h =
      (b, record { after = it; returns = refl; keeps = Keeps-refl it; coherent = C }, h)
  first_triple_ind_buf-Reads none it C h =
      let at = block_of it 14 in
      (
        content at,
        record {
          after = record it { cur_triple_ind_buf = some (content at) };
          returns = rw (D.answers at, first_triple_ind_buf) refl;
          keeps = record { blocks = refl; cur_idx = refl; blocks_limit = refl; block_size = refl };
          coherent = record { ind = C.ind; double = C.double; triple = λ b e. sym (some_inj e) };
        },
        refl,
      )

  pub in_block :
      (n offset : ℕ)
      → offset + 3 < 1024
      → offset % 4 ≡ 0
      → u32_at (content n) offset ≡ some (number_at (content n) offset)
  in_block n offset h aligned =
      u32_at-number_at (content n) offset (omega (arith, D.whole n)) aligned
