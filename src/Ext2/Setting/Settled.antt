-- ===== src/Ext2/Setting/Settled.antt =====
-- The states between the calls: the buffers hold blocks of their levels, and the allocator has others.
use dvida_oxide.Prelude.{
  ℕ, suc, ◌-◌, ◌^◌, ◌<◌, ◌≡◌, refl, sym, ap, ap₂, ◌∙◌, ◌≢◌, inl, inr, true, Bool-cases, ◌==◌, ==→eq,
  ==→ne, Option, none, some, List, [], ◌∷◌, length, replicate,
}
use dvida_oxide.Ext2.{Res, done, unwrap, Bytes}
use dvida_oxide.Ext2.Allocator.{AllocatedBlock}
use dvida_oxide.Ext2.Blocks.{block_of}
use dvida_oxide.Ext2.Setting.{
  Disk, SetState, written, with_it, write_block, clear_block, load_ind, load_double, allocate_one,
  first_of, read_block,
}
use dvida_oxide.Ext2.Setting.Tree.{Level, Content, free, Leads, IsTree}

-- What the code relies on in the allocator: while it has room it gives a block that was free, is not
-- block 0 and is not free after it.
pub record Allocates {ℓ} (S : Type ℓ) (allocate : ℕ → ℕ → S → Res (List AllocatedBlock) × S)
    (Free : S → ℕ → Type 0) (Room : S → ℕ → Type 0) : Type ℓ where
  pub less : (s : S) (m : ℕ) → Room s (suc m) → Room s m
  pub gives :
      (group : ℕ) (s : S) (m : ℕ)
      → Room s (suc m)
      → (b : AllocatedBlock) × (s' : S) × (allocate group 1 s ≡ (done (b ∷ []), s'))
        × Free s b.block_global_idx
        × (b.block_global_idx ≢ 0)
        × (b.block_global_idx < 2 ^ 32)
        × ((n : ℕ) → Free s' n → Free s n × (n ≢ b.block_global_idx))
        × Room s' m

-- A buffer holds the block that its index names, of a level; the index of an empty one is 0.
abbrev pub Held : Level → Content → ℕ → Option Bytes → ℕ → Type 0
Held level content k none idx = idx ≡ 0
Held level content k (some buf) idx = (buf ≡ content idx) × (level idx ≡ k)

-- The buffer of the triple indirect block is that of the inode.
abbrev pub AtRoot : Option Bytes → ℕ → ℕ → Type 0
AtRoot none idx root = Unit
AtRoot (some buf) idx root = idx ≡ root

pub Held-keep :
    (level : Level) (c : Content) (level' : Level) (c' : Content) (k : ℕ) (o : Option Bytes)
    (idx : ℕ)
    → (level idx ≡ k → (c' idx ≡ c idx) × (level' idx ≡ k))
    → Held level c k o idx
    → Held level' c' k o idx
Held-keep level c level' c' k none idx f h = h
Held-keep level c level' c' k (some buf) idx f (e, l) = let (ec, el) = f l in (e ∙ sym ec, el)

-- The pointers of the inode lead to data up to the twelfth, and to indirect blocks of the levels 1 to 3
-- behind them; block 0 is no indirect block.
module _ {ℓ} {S : Type ℓ} (Free : S → ℕ → Type 0) where
  pub record Settled (level : Level) (content : Content) (st : SetState S) : Type 0 where
    pub tree : IsTree level content
    pub answers : (n : ℕ) → st.disk.drive n ≡ some (content n)
    pub writable : (n : ℕ) → st.disk.writable n ≡ true
    pub size : st.it.block_size ≡ 1024
    pub fifteen : length st.it.blocks ≡ 15
    pub ind : Held level content 1 st.it.cur_ind_buf st.it.cur_ind_buf_block_idx
    pub double : Held level content 2 st.it.cur_double_ind_buf st.it.cur_double_ind_buf_block_idx
    pub triple : Held level content 3 st.it.cur_triple_ind_buf st.it.cur_triple_ind_buf_block_idx
    pub at_root :
        AtRoot st.it.cur_triple_ind_buf st.it.cur_triple_ind_buf_block_idx (block_of st.it 14)
    pub roots : (i : ℕ) → i < 15 → Leads level (i - 11) (block_of st.it i)
    pub null_block : level 0 ≡ 0
    pub free_blocks : (n : ℕ) → Free st.allocator n → level n ≡ free

-- The position of the iterator and the blocks allocated so far do not matter.
pub moved-Settled {ℓ} :
    {S : Type ℓ} (Free : S → ℕ → Type 0) (level : Level) (c : Content) (st : SetState S)
    → Settled Free level c st
    → (cur_idx cur_block_idx : ℕ) (blocks : List AllocatedBlock)
    → Settled Free level c (record st {
      it = record st.it { cur_idx = cur_idx; cur_block_idx = cur_block_idx };
      allocated_blocks = blocks;
    })
moved-Settled Free level c st s cur_idx cur_block_idx blocks = record {
  tree = s.tree;
  answers = s.answers;
  writable = s.writable;
  size = s.size;
  fifteen = s.fifteen;
  ind = s.ind;
  double = s.double;
  triple = s.triple;
  at_root = s.at_root;
  roots = s.roots;
  null_block = s.null_block;
  free_blocks = s.free_blocks;
}

-- A buffer whose index names a block holds it.
hit :
    (level : Level) (c : Content) (k n idx : ℕ) (o : Option Bytes)
    → n ≢ 0
    → idx ≡ n
    → Held level c k o idx
    → o ≡ some (c n)
hit level c k n idx none z i h = absurd (z (sym i ∙ h))
hit level c k n idx (some b) z i h = ap some (h.0 ∙ ap c i)

-- A drive after a block is written.
pub written-answers :
    (disk : Disk) (n : ℕ) (buf : Bytes) (c c' : Content)
    → ((i : ℕ) → disk.drive i ≡ some (c i))
    → c' n ≡ buf
    → ((i : ℕ) → i ≢ n → c' i ≡ c i)
    → (i : ℕ) → (written disk n buf).drive i ≡ some (c' i)
written-answers disk n buf c c' answers here others i = elim (Bool-cases (i == n)) [
  | inl e ↦ rw e (ap some (sym (ap c' (==→eq i n e) ∙ here)))
  | inr e ↦ rw e (answers i ∙ ap some (sym (others i (==→ne i n e))))
]

module _ {ℓ} {S : Type ℓ} where
  pub write_block-done :
      (buf : Bytes) (n : ℕ) (st : SetState S)
      → st.disk.writable n ≡ true
      → write_block buf n st ≡ (done tt, record st { disk = written st.disk n buf })
  unfolding write_block
  write_block-done buf n st h = rw h refl

  pub clear_block-done :
      (n : ℕ) (st : SetState S)
      → st.disk.writable n ≡ true
      → st.it.block_size ≡ 1024
      → clear_block n st ≡ (done tt, record st { disk = written st.disk n (replicate 1024 0) })
  unfolding clear_block
  clear_block-done n st h size =
      ap (λ k. write_block (replicate k 0) n st) size ∙ write_block-done (replicate 1024 0) n st h

  abbrev pub ind_loaded : ℕ → Bytes → SetState S → SetState S
  ind_loaded n buf st =
      with_it (record st.it { cur_ind_buf = some buf; cur_ind_buf_block_idx = n }) st

  abbrev pub double_loaded : ℕ → Bytes → SetState S → SetState S
  double_loaded n buf st =
      with_it (record st.it { cur_double_ind_buf = some buf; cur_double_ind_buf_block_idx = n }) st

  pub read_block-done :
      (n : ℕ) (buf : Bytes) (st : SetState S)
      → st.disk.drive n ≡ some buf
      → read_block n st ≡ (done buf, st)
  unfolding read_block
  read_block-done n buf st h = rw (h, read_block) refl

  pub load_ind-done :
      (level : Level) (c : Content) (n : ℕ) (st : SetState S)
      → n ≢ 0
      → Held level c 1 st.it.cur_ind_buf st.it.cur_ind_buf_block_idx
      → st.disk.drive n ≡ some (c n)
      → load_ind n st ≡ (done (c n), ind_loaded n (c n) st)
  unfolding load_ind
  load_ind-done level c n st z h d = elim (Bool-cases (st.it.cur_ind_buf_block_idx == n)) [
    | inl e ↦
        let q : st.it.cur_ind_buf_block_idx ≡ n = ==→eq _ n e in
        let p : st.it.cur_ind_buf ≡ some (c n) = hit level c 1 n _ st.it.cur_ind_buf z q h in
        rw e (
          ap (λ o. unwrap o st) p
          ∙ ap (λ s. (done (c n), s))
              (ap₂ (λ o i. with_it (record st.it { cur_ind_buf = o; cur_ind_buf_block_idx = i }) st)
                p q))
    | inr e ↦ rw e (rw (read_block-done n (c n) st d) refl)
  ]

  pub load_double-done :
      (level : Level) (c : Content) (n : ℕ) (st : SetState S)
      → n ≢ 0
      → Held level c 2 st.it.cur_double_ind_buf st.it.cur_double_ind_buf_block_idx
      → st.disk.drive n ≡ some (c n)
      → load_double n st ≡ (done (c n), double_loaded n (c n) st)
  unfolding load_double
  load_double-done level c n st z h d =
      elim (Bool-cases (st.it.cur_double_ind_buf_block_idx == n)) [
        | inl e ↦
            let q : st.it.cur_double_ind_buf_block_idx ≡ n = ==→eq _ n e in
            let p : st.it.cur_double_ind_buf ≡ some (c n) =
              hit level c 2 n _ st.it.cur_double_ind_buf z q h in
            rw e (
              ap (λ o. unwrap o st) p
              ∙ ap (λ s. (done (c n), s))
                  (ap₂
                    (λ o i.
                      with_it
                        (record st.it { cur_double_ind_buf = o; cur_double_ind_buf_block_idx = i })
                        st)
                    p q))
        | inr e ↦ rw e (rw (read_block-done n (c n) st d) refl)
      ]

  module _ (allocate : ℕ → ℕ → S → Res (List AllocatedBlock) × S) where
    pub allocate_one-done :
        (st : SetState S) (b : AllocatedBlock) (s' : S)
        → allocate st.it.group_number 1 st.allocator ≡ (done (b ∷ []), s')
        → allocate_one allocate st ≡ (done b, record st { allocator = s' })
    unfolding allocate_one first_of
    allocate_one-done st b s' h = ap (λ r. first_of r st) h
