-- ===== src/Ext2/Setting/Below.antt =====
-- What `set` does behind the pointer of the inode: the first buffer, and the block below it.
use dvida_oxide.Prelude.{
  ℕ, suc, ◌-◌, ◌*◌, ◌<◌, ◌≡◌, refl, sym, ap, ◌∙◌, ◌≢◌, subst, Option, none, some, List,
}
use dvida_oxide.Ext2.{Res, done, ◌then◌, Bytes}
use dvida_oxide.Ext2.Allocator.{AllocatedBlock}
use dvida_oxide.Ext2.Blocks.{block_of}
use dvida_oxide.Ext2.Blocks.Tree.{pointer}
use dvida_oxide.Ext2.Setting.{
  SetState, first_ind, first_double, first_triple, handle_set_block, handle_set_indirect_block,
  handle_set_double_indirect_block, with_it,
}
use dvida_oxide.Ext2.Setting.Tree.{Level, Content, slot, pointer-slot}
use dvida_oxide.Ext2.Setting.Settled.{
  Allocates, AtRoot, Held, Settled, ind_loaded, double_loaded, read_block-done,
}
use dvida_oxide.Ext2.Setting.Outcome.{Sets, Sets-from}
use dvida_oxide.Ext2.Setting.Single.{handle_set_block-Sets}
use dvida_oxide.Ext2.Setting.Double.{handle_set_indirect_block-Sets}
use dvida_oxide.Ext2.Setting.Triple.{handle_set_double_indirect_block-Sets}

module _ {ℓ} {S : Type ℓ} (Free : S → ℕ → Type 0) (level : Level) (c : Content) (st : SetState S)
    (settled : Settled Free level c st) where
  ind_loaded-Settled : (n : ℕ) → level n ≡ 1 → Settled Free level c (ind_loaded n (c n) st)
  ind_loaded-Settled n h = record {
    tree = settled.tree;
    answers = settled.answers;
    writable = settled.writable;
    size = settled.size;
    fifteen = settled.fifteen;
    ind = (refl, h);
    double = settled.double;
    triple = settled.triple;
    at_root = settled.at_root;
    roots = settled.roots;
    null_block = settled.null_block;
    free_blocks = settled.free_blocks;
  }

  double_loaded-Settled : (n : ℕ) → level n ≡ 2 → Settled Free level c (double_loaded n (c n) st)
  double_loaded-Settled n h = record {
    tree = settled.tree;
    answers = settled.answers;
    writable = settled.writable;
    size = settled.size;
    fifteen = settled.fifteen;
    ind = settled.ind;
    double = (refl, h);
    triple = settled.triple;
    at_root = settled.at_root;
    roots = settled.roots;
    null_block = settled.null_block;
    free_blocks = settled.free_blocks;
  }

  abbrev triple_loaded : SetState S
  triple_loaded =
      with_it
        (record st.it {
          cur_triple_ind_buf = some (c (block_of st.it 14));
          cur_triple_ind_buf_block_idx = block_of st.it 14;
        })
        st

  triple_loaded-Settled : level (block_of st.it 14) ≡ 3 → Settled Free level c triple_loaded
  triple_loaded-Settled h = record {
    tree = settled.tree;
    answers = settled.answers;
    writable = settled.writable;
    size = settled.size;
    fifteen = settled.fifteen;
    ind = settled.ind;
    double = settled.double;
    triple = (refl, h);
    at_root = refl;
    roots = settled.roots;
    null_block = settled.null_block;
    free_blocks = settled.free_blocks;
  }

  module _ (allocate : ℕ → ℕ → S → Res (List AllocatedBlock) × S) (Room : S → ℕ → Type 0)
      (A : Allocates S allocate Free Room) where
    pub below_single :
        (m : ℕ) (o : Option Bytes)
        → block_of st.it 12 ≢ 0
        → level (block_of st.it 12) ≡ 1
        → st.it.cur_idx - 12 < 256
        → Room st.allocator (suc m)
        → Sets Free Room m level c st
            (λ c'. pointer c' (block_of st.it 12) ((st.it.cur_idx - 12) * 4))
            (first_ind o st then λ _ st2.
              handle_set_block allocate (block_of st2.it 12) (st2.it.cur_idx - 12) st2)
    unfolding first_ind
    below_single m (some buf) z at_level inside room =
        Sets-from Free Room m level c st st _ _ _ _ refl refl (λ c'. pointer-slot c' _ _ z) refl
          (handle_set_block-Sets allocate Free Room A level c st (block_of st.it 12)
            (st.it.cur_idx - 12) m settled z at_level inside room)
    below_single m none z at_level inside room =
        let root : ℕ = block_of st.it 12 in
        Sets-from Free Room m level c st (ind_loaded root (c root) st) _ _ _ _ refl refl
          (λ c'. pointer-slot c' _ _ z)
          (ap
            (λ r. (r then λ buf st1. (done tt, ind_loaded root buf st1)) then λ _ st2.
              handle_set_block allocate (block_of st2.it 12) (st2.it.cur_idx - 12) st2)
            (read_block-done root (c root) st (settled.answers root)))
          (handle_set_block-Sets allocate Free Room A level c (ind_loaded root (c root) st) root
            (st.it.cur_idx - 12) m (ind_loaded-Settled root at_level) z at_level inside room)

    pub below_double :
        (m offset2 offset1 : ℕ) (o : Option Bytes)
        → block_of st.it 13 ≢ 0
        → level (block_of st.it 13) ≡ 2
        → offset2 < 256
        → offset1 < 256
        → Room st.allocator (suc (suc m))
        → Sets Free Room m level c st
            (λ c'. pointer c' (pointer c' (block_of st.it 13) (offset2 * 4)) (offset1 * 4))
            (first_double o st then λ _ st2.
              handle_set_indirect_block allocate (block_of st2.it 13) offset2 offset1 st2)
    unfolding first_double
    below_double m offset2 offset1 (some buf) z at_level inside2 inside1 room =
        Sets-from Free Room m level c st st _ _ _ _ refl refl
          (λ c'. ap (λ t. pointer c' t (offset1 * 4)) (pointer-slot c' _ offset2 z)) refl
          (handle_set_indirect_block-Sets allocate Free Room A level c st (block_of st.it 13)
            offset2 offset1 m settled z at_level inside2 inside1 room)
    below_double m offset2 offset1 none z at_level inside2 inside1 room =
        let root : ℕ = block_of st.it 13 in
        Sets-from Free Room m level c st (double_loaded root (c root) st) _ _ _ _ refl refl
          (λ c'. ap (λ t. pointer c' t (offset1 * 4)) (pointer-slot c' _ offset2 z))
          (ap
            (λ r. (r then λ buf st1. (done tt, double_loaded root buf st1)) then λ _ st2.
              handle_set_indirect_block allocate (block_of st2.it 13) offset2 offset1 st2)
            (read_block-done root (c root) st (settled.answers root)))
          (handle_set_indirect_block-Sets allocate Free Room A level c
            (double_loaded root (c root) st) root offset2 offset1 m
            (double_loaded-Settled root at_level) z at_level inside2 inside1 room)

    pub below_triple :
        (m offset3 offset2 offset1 : ℕ) (o : Option Bytes)
        → st.it.cur_triple_ind_buf ≡ o
        → block_of st.it 14 ≢ 0
        → level (block_of st.it 14) ≡ 3
        → offset3 < 256
        → offset2 < 256
        → offset1 < 256
        → Room st.allocator (suc (suc (suc m)))
        → Sets Free Room m level c st
            (λ c'.
              pointer c'
                (pointer c' (pointer c' (block_of st.it 14) (offset3 * 4)) (offset2 * 4))
                (offset1 * 4))
            (first_triple o st then λ _ st2.
              handle_set_double_indirect_block allocate offset3 offset2 offset1 st2)
    unfolding first_triple
    below_triple m offset3 offset2 offset1 (some buf) h z at_level inside3 inside2 inside1 room =
        let idx : ℕ = st.it.cur_triple_ind_buf_block_idx in
        let root : idx ≡ block_of st.it 14 =
          subst (λ q. AtRoot q idx (block_of st.it 14)) h settled.at_root in
        let held = subst (λ q. Held level c 3 q idx) h settled.triple in
        Sets-from Free Room m level c st st _ _ _ _ refl refl
          (λ c'.
            ap (λ t. pointer c' (pointer c' t (offset2 * 4)) (offset1 * 4))
              (pointer-slot c' _ offset3 z ∙ ap (λ t. slot c' t offset3) (sym root)))
          refl
          (handle_set_double_indirect_block-Sets allocate Free Room A level c st offset3 offset2
            offset1 m settled held.1 root (h ∙ ap some held.0) inside3 inside2 inside1 room)
    below_triple m offset3 offset2 offset1 none h z at_level inside3 inside2 inside1 room =
        let root : ℕ = block_of st.it 14 in
        Sets-from Free Room m level c st triple_loaded _ _ _ _ refl refl
          (λ c'.
            ap (λ t. pointer c' (pointer c' t (offset2 * 4)) (offset1 * 4))
              (pointer-slot c' _ offset3 z))
          (ap
            (λ r.
              (r then λ buf st1. (
                done tt,
                with_it
                    (record st1.it {
                      cur_triple_ind_buf = some buf;
                      cur_triple_ind_buf_block_idx = root;
                    })
                    st1,
              ))
              then λ _ st2. handle_set_double_indirect_block allocate offset3 offset2 offset1 st2)
            (read_block-done root (c root) st (settled.answers root)))
          (handle_set_double_indirect_block-Sets allocate Free Room A level c triple_loaded offset3
            offset2 offset1 m (triple_loaded-Settled at_level) at_level refl refl inside3 inside2
            inside1 room)
