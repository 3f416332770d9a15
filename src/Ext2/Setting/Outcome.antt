-- ===== src/Ext2/Setting/Outcome.antt =====
-- What the calls of the write side leave.
use dvida_oxide.Prelude.{ℕ, suc, ◌-◌, ◌<◌, ◌≡◌, sym, ap, ◌∙◌, ◌≢◌, List, get_or, arith}
use dvida_oxide.Ext2.{done, ◌then◌}
use dvida_oxide.Ext2.Blocks.{block_of}
use dvida_oxide.Ext2.Setting.{SetState, Setting}
use dvida_oxide.Ext2.Setting.Tree.{Level, Content, slot, Extends, Extends-trans}
use dvida_oxide.Ext2.Setting.Settled.{Settled}

module _ {ℓ} {S : Type ℓ} (Free : S → ℕ → Type 0) (Room : S → ℕ → Type 0) where
  -- A call that leaves the buffers and the tree in order, with the block that `found` leads to.
  pub record Sets (m : ℕ) (level : Level) (content : Content) (st : SetState S)
      (found : Content → ℕ) (out : Setting S (Unit {0})) : Type ℓ where
    pub level' : Level
    pub content' : Content
    pub after : SetState S
    pub returns : out ≡ (done tt, after)
    pub settled : Settled Free level' content' after
    pub extends : Extends level content level' content'
    pub room : Room after.allocator m
    pub cur_idx : after.it.cur_idx ≡ st.it.cur_idx
    pub blocks : after.it.blocks ≡ st.it.blocks
    pub leads : found content' ≡ after.it.cur_block_idx
    pub there : after.it.cur_block_idx ≢ 0

  -- The same call, seen from a state with the same index and pointers, and with another reading of `found`.
  pub Sets-from :
      (m : ℕ) (level : Level) (c : Content) (st st1 : SetState S) (found found1 : Content → ℕ)
      (out out1 : Setting S (Unit {0}))
      → st1.it.cur_idx ≡ st.it.cur_idx
      → st1.it.blocks ≡ st.it.blocks
      → ((c' : Content) → found c' ≡ found1 c')
      → out ≡ out1
      → Sets m level c st1 found1 out1
      → Sets m level c st found out
  Sets-from m level c st st1 found found1 out out1 same_idx same_blocks same_found same T = record {
    level' = T.level';
    content' = T.content';
    after = T.after;
    returns = same ∙ T.returns;
    settled = T.settled;
    extends = T.extends;
    room = T.room;
    cur_idx = T.cur_idx ∙ same_idx;
    blocks = T.blocks ∙ same_blocks;
    leads = same_found T.content' ∙ T.leads;
    there = T.there;
  }

  -- A pointer of a block leads to a block of the level below, which has no pointers if it is new.
  pub record Fills (m k : ℕ) (level : Level) (content : Content) (st : SetState S) (n offset : ℕ)
      (out : Setting S ℕ) : Type ℓ where
    pub level' : Level
    pub content' : Content
    pub after : SetState S
    pub value : ℕ
    pub returns : out ≡ (done value, after)
    pub settled : Settled Free level' content' after
    pub extends : Extends level content level' content'
    pub room : Room after.allocator m
    pub cur_idx : after.it.cur_idx ≡ st.it.cur_idx
    pub blocks : after.it.blocks ≡ st.it.blocks
    pub leads : slot content' n offset ≡ value
    pub there : value ≢ 0
    pub below : level' value ≡ k

  -- The pointer is filled, and the rest is done below it.
  pub Fills-Sets :
      (m0 m k : ℕ) (level : Level) (c : Content) (st : SetState S) (n offset : ℕ)
      (out : Setting S ℕ) (found : ℕ → Content → ℕ) (f : ℕ → SetState S → Setting S (Unit {0}))
      (F : Fills m0 k level c st n offset out)
      → level n ≡ suc k
      → k < 3
      → offset < 256
      → Sets m F.level' F.content' F.after (found F.value) (f F.value F.after)
      → Sets m level c st (λ c'. found (slot c' n offset) c') (out then f)
  Fills-Sets m0 m k level c st n offset out found f F at_level low inside T =
      let up : F.level' n ≡ suc k =
        F.extends.levels n (λ e. omega (arith, e, at_level)) ∙ at_level in
      let same : slot T.content' n offset ≡ F.value =
        T.extends.pointers n k offset up low inside (λ e. F.there (sym F.leads ∙ e)) ∙ F.leads in
      record {
        level' = T.level';
        content' = T.content';
        after = T.after;
        returns = ap (λ t. t then f) F.returns ∙ T.returns;
        settled = T.settled;
        extends = Extends-trans level c F.level' F.content' T.level' T.content' F.extends T.extends;
        room = T.room;
        cur_idx = T.cur_idx ∙ F.cur_idx;
        blocks = T.blocks ∙ F.blocks;
        leads = ap (λ p. found p T.content') same ∙ T.leads;
        there = T.there;
      }

  -- A pointer of the inode leads to a block of its level.
  pub record Roots (m : ℕ) (level : Level) (content : Content) (st : SetState S) (i : ℕ)
      (out : Setting S (Unit {0})) : Type ℓ where
    pub level' : Level
    pub content' : Content
    pub after : SetState S
    pub returns : out ≡ (done tt, after)
    pub settled : Settled Free level' content' after
    pub extends : Extends level content level' content'
    pub room : Room after.allocator m
    pub cur_idx : after.it.cur_idx ≡ st.it.cur_idx
    pub others : (j : ℕ) → block_of st.it j ≢ 0 → block_of after.it j ≡ block_of st.it j
    pub there : block_of after.it i ≢ 0
    pub at_level : level' (block_of after.it i) ≡ i - 11

  -- What `set` leaves: the pointers of the inode that were there are kept too.
  pub record Places (m : ℕ) (level : Level) (content : Content) (st : SetState S)
      (found : Content → List ℕ → ℕ) (out : Setting S (Unit {0})) : Type ℓ where
    pub level' : Level
    pub content' : Content
    pub after : SetState S
    pub returns : out ≡ (done tt, after)
    pub settled : Settled Free level' content' after
    pub extends : Extends level content level' content'
    pub room : Room after.allocator m
    pub cur_idx : after.it.cur_idx ≡ st.it.cur_idx
    pub others : (j : ℕ) → block_of st.it j ≢ 0 → block_of after.it j ≡ block_of st.it j
    pub leads : found content' after.it.blocks ≡ after.it.cur_block_idx
    pub there : after.it.cur_block_idx ≢ 0

  -- A root, a state that differs from it in its buffers only, and a block below.
  pub Roots-Places :
      (m0 m : ℕ) (level : Level) (c : Content) (st : SetState S) (i : ℕ)
      (out : Setting S (Unit {0})) (f : SetState S → Setting S (Unit {0}))
      (R : Roots m0 level c st i out) (st1 : SetState S) (found : ℕ → Content → ℕ)
      → st1.it.cur_idx ≡ R.after.it.cur_idx
      → st1.it.blocks ≡ R.after.it.blocks
      → Sets m R.level' R.content' st1 (found (block_of R.after.it i)) (f R.after)
      → Places m level c st (λ c' blocks. found (get_or blocks i 0) c') (out then λ _ s. f s)
  Roots-Places m0 m level c st i out f R st1 found same_idx same_blocks T = record {
    level' = T.level';
    content' = T.content';
    after = T.after;
    returns = ap (λ t. t then λ _ s. f s) R.returns ∙ T.returns;
    settled = T.settled;
    extends = Extends-trans level c R.level' R.content' T.level' T.content' R.extends T.extends;
    room = T.room;
    cur_idx = T.cur_idx ∙ same_idx ∙ R.cur_idx;
    others = λ j h. ap (λ b. get_or b j 0) (T.blocks ∙ same_blocks) ∙ R.others j h;
    leads = ap (λ b. found (get_or b i 0) T.content') (T.blocks ∙ same_blocks) ∙ T.leads;
    there = T.there;
  }

  pub Places-from :
      (m : ℕ) (level : Level) (c : Content) (st : SetState S) (found found1 : Content → List ℕ → ℕ)
      (out out1 : Setting S (Unit {0}))
      → ((c' : Content) (blocks : List ℕ) → found c' blocks ≡ found1 c' blocks)
      → out ≡ out1
      → Places m level c st found1 out1
      → Places m level c st found out
  Places-from m level c st found found1 out out1 same_found same P = record {
    level' = P.level';
    content' = P.content';
    after = P.after;
    returns = same ∙ P.returns;
    settled = P.settled;
    extends = P.extends;
    room = P.room;
    cur_idx = P.cur_idx;
    others = P.others;
    leads = same_found P.content' P.after.it.blocks ∙ P.leads;
    there = P.there;
  }
