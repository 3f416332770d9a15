-- ===== src/Ext2/Setting/Reading.antt =====
-- `get` at an index that `set` gave a block.
use dvida_oxide.Prelude.{
  ℕ, suc, ◌≤◌, ◌<◌, ◌≡◌, ◌≢◌, ◌⊎◌, refl, List, sym, ap, subst, ◌∙◌, ne→==, Option, none, some,
}
use dvida_oxide.Ext2.{Res, done, Bytes}
use dvida_oxide.Ext2.Allocator.{AllocatedBlock}
use dvida_oxide.Ext2.Blocks.{get}
use dvida_oxide.Ext2.Blocks.Tree.{Coherent, bytes_of}
use dvida_oxide.Ext2.Blocks.Reading.{file_block, Finds, get-Finds}
use dvida_oxide.Ext2.Setting.{SetState, Setting, BlockIterSetRes, set_block}
use dvida_oxide.Ext2.Setting.Tree.{Level, Content}
use dvida_oxide.Ext2.Setting.Settled.{Allocates, Held, AtRoot, Settled}
use dvida_oxide.Ext2.Setting.Storing.{set_block-Stores}

Held-same :
    (level : Level) (c : Content) (k : ℕ) (o : Option Bytes) (idx : ℕ)
    → Held level c k o idx
    → (b : Bytes) → o ≡ some b
    → b ≡ c idx
Held-same level c k none idx h b e = absurd (cc e)
Held-same level c k (some d) idx h b e = let same : b ≡ d = cc e in same ∙ h.0

AtRoot-same :
    (c : Content) (o : Option Bytes) (idx root : ℕ)
    → AtRoot o idx root
    → (b : Bytes) → o ≡ some b
    → idx ≡ root
AtRoot-same c none idx root h b e = absurd (cc e)
AtRoot-same c (some d) idx root h b e = h

-- A call of `set` that succeeds, and a `get` behind it that returns the bytes which the drive then has
-- for the block that `set` named.
pub record ReadsBack {ℓ} {S : Type ℓ} (buf : Bytes) (out : Setting S BlockIterSetRes) : Type ℓ where
  pub res : BlockIterSetRes
  pub after : SetState S
  pub content' : Content
  pub returns : out ≡ (done res, after)
  pub there : res.block_idx ≢ 0
  pub on_drive : (n : ℕ) → after.disk.drive n ≡ some (content' n)
  pub finds : Finds content' after.it (content' res.block_idx) (get after.disk.drive buf after.it)

module _ {ℓ} {S : Type ℓ} (Free : S → ℕ → Type 0) (Room : S → ℕ → Type 0) where
  Settled-Coherent :
      (level : Level) (c : Content) (st : SetState S) → Settled Free level c st → Coherent c st.it
  Settled-Coherent level c st s = record {
    ind = Held-same level c 1 _ _ s.ind;
    double = Held-same level c 2 _ _ s.double;
    triple = λ b e. Held-same level c 3 _ _ s.triple b e ∙ ap c (AtRoot-same c _ _ _ s.at_root b e);
  }

  -- With blocks of 1024 bytes, a drive that answers and can be written, buffers that hold blocks of their
  -- levels and an allocator with room for four blocks, `set` succeeds at every index that a file can have,
  -- outside the range of the single indirect block, and `get` at the same index then returns the bytes
  -- that the drive has for the block which `set` named.
  pub set_block-get :
      (allocate : ℕ → ℕ → S → Res (List AllocatedBlock) × S)
      → Allocates S allocate Free Room
      → (level : Level) (c : Content) (st : SetState S) (m : ℕ) (buf : Bytes)
      → Settled Free level c st
      → (st.it.cur_idx < 12) ⊎ (268 ≤ st.it.cur_idx)
      → st.it.cur_idx < 16843020
      → Room st.allocator (suc (suc (suc (suc m))))
      → ReadsBack buf (set_block allocate st)
  set_block-get allocate A level c st m buf settled range small room =
      let T = set_block-Stores Free Room allocate A level c st m settled small room in
      let here : file_block T.content' T.after.it.blocks T.after.it.cur_idx ≡ T.res.block_idx =
        ap (file_block T.content' T.after.it.blocks) T.cur_idx ∙ T.leads in
      let bytes : bytes_of T.content' buf T.res.block_idx ≡ T.content' T.res.block_idx =
        rw (ne→== T.res.block_idx 0 T.there) refl in
      record {
        res = T.res;
        after = T.after;
        content' = T.content';
        returns = T.returns;
        there = T.there;
        on_drive = T.settled.answers;
        finds =
            subst (λ b. Finds T.content' T.after.it b (get T.after.disk.drive buf T.after.it))
              (ap (bytes_of T.content' buf) here ∙ bytes)
              (get-Finds T.after.disk.drive T.content'
                (record { answers = T.settled.answers; whole = T.settled.tree.whole }) buf
                T.after.it (Settled-Coherent T.level' T.content' T.after T.settled) T.settled.size
                T.settled.fifteen (subst (λ i. (i < 12) ⊎ (268 ≤ i)) (sym T.cur_idx) range)
                (subst (λ i. i < 16843020) (sym T.cur_idx) small));
      }
