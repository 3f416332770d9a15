-- ===== src/Ext2/Setting/Storing.antt =====
-- `set` as a whole, against the tree of blocks of the format.
use dvida_oxide.Prelude.{
  ℕ, suc, ◌+◌, ◌<◌, ◌≡◌, ap, ◌≢◌, inl, inr, Bool-cases, List, [], ltb, ltb→lt, ltb→le,
  if◌then◌else◌,
}
use dvida_oxide.Ext2.{Res, done, ◌then◌}
use dvida_oxide.Ext2.Allocator.{AllocatedBlock}
use dvida_oxide.Ext2.Blocks.Reading.{file_block}
use dvida_oxide.Ext2.Setting.{
  SetState, Setting, BlockIterSetRes, set_direct, set_single, set_double, set_triple, set_block,
  next_set, with_it,
}
use dvida_oxide.Ext2.Setting.Tree.{Level, Content}
use dvida_oxide.Ext2.Setting.Settled.{Allocates, Settled, moved-Settled}
use dvida_oxide.Ext2.Setting.Outcome.{Places}
use dvida_oxide.Ext2.Setting.Placing.{
  set_direct-Places, set_single-Places, set_double-Places, set_triple-Places,
}
use dvida_oxide.Ext2.Setting.Kept.{file_block-kept}

abbrev pub moved_on {ℓ} : {S : Type ℓ} → SetState S → SetState S
moved_on st = with_it (record st.it { cur_idx = st.it.cur_idx + 1 }) st

module _ {ℓ} {S : Type ℓ} (Free : S → ℕ → Type 0) (Room : S → ℕ → Type 0) where
  -- A call of `set` succeeds; the block it names is the one that the format has at the index, the
  -- blocks of the file and the data on the drive stay, and the next call finds all in order.
  pub record Stores (m : ℕ) (level : Level) (content : Content) (st : SetState S)
      (out : Setting S BlockIterSetRes) : Type ℓ where
    pub level' : Level
    pub content' : Content
    pub after : SetState S
    pub res : BlockIterSetRes
    pub returns : out ≡ (done res, after)
    pub settled : Settled Free level' content' after
    pub there : res.block_idx ≢ 0
    pub leads : file_block content' after.it.blocks st.it.cur_idx ≡ res.block_idx
    pub kept :
        (j : ℕ)
        → j < 16843020
        → file_block content st.it.blocks j ≢ 0
        → file_block content' after.it.blocks j ≡ file_block content st.it.blocks j
    pub data_kept : (n : ℕ) → level n ≡ 0 → content' n ≡ content n
    pub cur_idx : after.it.cur_idx ≡ st.it.cur_idx
    pub room : Room after.allocator m

  module _ (allocate : ℕ → ℕ → S → Res (List AllocatedBlock) × S)
      (A : Allocates S allocate Free Room) (level : Level) (c : Content) (st : SetState S) (m : ℕ)
      (settled : Settled Free level c st) (small : st.it.cur_idx < 16843020)
      (room : Room st.allocator (suc (suc (suc (suc m))))) where
    -- The state at the start of the call.
    abbrev st0 : SetState S
    st0 = record st { allocated_blocks = [] }

    settled0 : Settled Free level c st0
    settled0 = moved-Settled Free level c st settled st.it.cur_idx st.it.cur_block_idx []

    room3 : Room st.allocator (suc (suc (suc m)))
    room3 = A.less st.allocator (suc (suc (suc m))) room

    room2 : Room st.allocator (suc (suc m))
    room2 = A.less st.allocator (suc (suc m)) room3

    room1 : Room st.allocator (suc m)
    room1 = A.less st.allocator (suc m) room2

    abbrev levels : Setting S (Unit {0})
    levels =
        if ltb st.it.cur_idx 12
        then set_direct allocate st0
        else (if ltb st.it.cur_idx 268
            then set_single allocate st0
            else (if ltb st.it.cur_idx 65804
                then set_double allocate st0
                else set_triple allocate st0))

    levels-Places :
        Places Free Room m level c st0 (λ c' blocks. file_block c' blocks st.it.cur_idx) levels
    levels-Places = elim (Bool-cases (ltb st.it.cur_idx 12)) [
      | inl e ↦
          rw e (set_direct-Places allocate Free Room A level c st0 m settled0 (ltb→lt _ 12 e) room1)
      | inr e ↦ elim (Bool-cases (ltb st.it.cur_idx 268)) [
        | inl f ↦
            rw (e, f)
              (set_single-Places allocate Free Room A level c st0 m settled0 (ltb→le _ 12 e)
                (ltb→lt _ 268 f) room2)
        | inr f ↦ elim (Bool-cases (ltb st.it.cur_idx 65804)) [
          | inl g ↦
              rw (e, f, g)
                (set_double-Places allocate Free Room A level c st0 m settled0 (ltb→le _ 268 f)
                  (ltb→lt _ 65804 g) room3)
          | inr g ↦
              rw (e, f, g)
                (set_triple-Places allocate Free Room A level c st0 m settled0 (ltb→le _ 65804 g)
                  small room)
        ]
      ]
    ]

    -- With blocks of 1024 bytes, a drive that answers and can be written, buffers that hold blocks of
    -- their levels and an allocator with room for four blocks, `set` succeeds at every index that a file
    -- can have: it returns the number of a block, the tree of the inode leads to that block at the index
    -- and to the same blocks as before at the indices that had one, the bytes of the data blocks stay, and
    -- the buffers, the tree and the allocator are in order again.
    pub set_block-Stores : Stores m level c st (set_block allocate st)
    unfolding set_block
    set_block-Stores =
        let P = levels-Places in
        record {
          level' = P.level';
          content' = P.content';
          after = P.after;
          res = record {
            allocated_blocks = P.after.allocated_blocks;
            block_idx = P.after.it.cur_block_idx;
          };
          returns =
              ap
                (λ r. r then λ _ st1. (
                  done (record {
                    allocated_blocks = st1.allocated_blocks;
                    block_idx = st1.it.cur_block_idx;
                  }),
                  st1,
                ))
                P.returns;
          settled = P.settled;
          there = P.there;
          leads = P.leads;
          kept =
              file_block-kept level c P.level' P.content' settled.tree P.extends.pointers
                st.it.blocks P.after.it.blocks settled.roots P.others;
          data_kept = P.extends.data_kept;
          cur_idx = P.cur_idx;
          room = P.room;
        }

  pub next_set-done :
      (allocate : ℕ → ℕ → S → Res (List AllocatedBlock) × S) (level : Level) (c : Content)
      (st : SetState S) (m : ℕ) (T : Stores m level c st (set_block allocate st))
      → next_set allocate st ≡ (done T.res, moved_on T.after)
  unfolding next_set
  next_set-done allocate level c st m T =
      ap (λ r. r then λ res st1. (done res, moved_on st1)) T.returns
