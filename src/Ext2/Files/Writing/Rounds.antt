-- ===== src/Ext2/Files/Writing/Rounds.antt =====
-- The rounds of a write, one after the other.
use dvida_oxide.Prelude.{
  ℕ, suc, ◌+◌, ◌-◌, ◌≤◌, ◌<◌, ◌≡◌, ◌≢◌, inl, inr, refl, ap, sym, ◌∙◌, Bool-cases, lt→ltb, ◌==◌,
  List, length, length-replicate, arith,
}
use dvida_oxide.Ext2.{Res, Bytes}
use dvida_oxide.Ext2.Allocator.{AllocatedBlock}
use dvida_oxide.Ext2.Blocks.Reading.{file_block}
use dvida_oxide.Ext2.Setting.{SetState}
use dvida_oxide.Ext2.Setting.Tree.{Level, Content}
use dvida_oxide.Ext2.Setting.Settled.{Allocates, Settled, moved-Settled}
use dvida_oxide.Ext2.Setting.Kept.{file_block-Leads}
use dvida_oxide.Ext2.Setting.Storing.{set_block-Stores, moved_on, next_set-done}
use dvida_oxide.Ext2.Files.Writing.{Patch, WriteState, write_till_next_block_from, write_loop}
use dvida_oxide.Ext2.Files.Writing.Patching.{Patches, write_till_next_block_from-Patches}
use dvida_oxide.Ext2.Files.Writing.Block.{
  content_with, content_with_self, data_written-Settled, file_block-content_with, start_buf,
  patch_of, after_patch, write_till_next_block-done,
}

module _ {ℓ} {S : Type ℓ} (Free : S → ℕ → Type 0) (Room : S → ℕ → Type 0)
    (allocate : ℕ → ℕ → S → Res (List AllocatedBlock) × S) (A : Allocates S allocate Free Room)
    (input : Bytes) where
  -- A round of the loop: the block at the index holds the patched buffer, and the next round finds all in
  -- order.
  pub record Round (m : ℕ) (level : Level) (content : Content) (w : WriteState S) : Type ℓ where
    pub level' : Level
    pub content' : Content
    pub after : WriteState S
    pub old : Bytes
    pub patch : Patch
    pub goes :
        (fuel : ℕ)
        → write_loop allocate 1024 (suc fuel) input w ≡ write_loop allocate 1024 fuel input after
    pub patches :
        Patches input
          (1024 - w.progress.offset)
          w.progress.offset
          (patch_of (start_buf w.progress.offset old) w)
          patch
    pub size : after.i_size ≡ patch.i_size
    pub head : after.ctx.head ≡ patch.ctx.head
    pub written : after.progress.bytes_written ≡ patch.progress.bytes_written
    pub offset : after.progress.offset ≡ 0
    pub settled : Settled Free level' content' after.st
    pub room : Room after.st.allocator m
    pub cur_idx : after.st.it.cur_idx ≡ w.st.it.cur_idx + 1
    pub holds : content' (file_block content' after.st.it.blocks w.st.it.cur_idx) ≡ patch.buf
    pub before :
        file_block content w.st.it.blocks w.st.it.cur_idx ≢ 0
        → old ≡ content (file_block content w.st.it.blocks w.st.it.cur_idx)

  pub round :
      (m : ℕ) (level : Level) (c : Content) (w : WriteState S)
      → Settled Free level c w.st
      → w.st.it.cur_idx < 16843020
      → Room w.st.allocator (suc (suc (suc (suc m))))
      → w.progress.offset < 1024
      → w.progress.bytes_written < length input
      → w.ctx.head ≤ w.i_size
      → w.i_size < 4294966271
      → Round m level c w
  unfolding write_loop
  round m level c w settled small room inside more in_file word =
      let T = set_block-Stores Free Room allocate A level c w.st m settled small room in
      let block : ℕ = T.res.block_idx in
      let off : ℕ = w.progress.offset in
      let old : Bytes = T.content' block in
      let st1 : SetState S = moved_on T.after in
      let w1 : WriteState S = record w {
        st = st1;
        blocks_allocated_count = w.blocks_allocated_count + length T.res.allocated_blocks;
      } in
      let p : Patch =
        write_till_next_block_from input (1024 - off) off (patch_of (start_buf off old) w) in
      let P : Patches input (1024 - off) off (patch_of (start_buf off old) w) p =
        write_till_next_block_from-Patches input (1024 - off) off (patch_of (start_buf off old) w)
          (omega (arith, start_whole off old (T.settled.tree.whole block))) (omega arith) in_file
          (omega arith) in
      let whole : length p.buf ≡ 1024 =
        P.whole ∙ start_whole off old (T.settled.tree.whole block) in
      let data_block : T.level' block ≡ 0 =
        elim (file_block-Leads T.level' T.content' T.settled.tree T.after.it.blocks T.settled.roots
          w.st.it.cur_idx small) [
            | inl e ↦ absurd (T.there (sym T.leads ∙ e))
            | inr e ↦ ap T.level' (sym T.leads) ∙ e
          ] in
      let settled1 : Settled Free T.level' T.content' st1 =
        moved-Settled Free T.level' T.content' T.after T.settled (T.after.it.cur_idx + 1)
          T.after.it.cur_block_idx T.after.allocated_blocks in
      let c1 : Content =
        content_with Free T.level' T.content' st1 settled1 block data_block p.buf whole in
      record {
        level' = T.level';
        content' = c1;
        after = after_patch p block w1;
        old = old;
        patch = p;
        goes = λ fuel.
            rw
              (
                lt→ltb w.progress.bytes_written (length input) more,
                next_set-done Free Room allocate level c w.st m T,
                write_till_next_block-done input old block w1 (settled1.answers block)
                    (settled1.writable block),
                write_loop,
              )
              refl;
        patches = P;
        size = refl;
        head = refl;
        written = refl;
        offset = refl;
        settled =
            data_written-Settled Free T.level' T.content' st1 settled1 block data_block p.buf whole;
        room = T.room;
        cur_idx = ap (λ i. i + 1) T.cur_idx;
        holds =
            ap c1 (
              file_block-content_with Free T.level' T.content' st1 settled1 block data_block p.buf
                whole w.st.it.cur_idx small (λ e. T.there (sym T.leads ∙ e))
              ∙ T.leads)
            ∙ content_with_self Free T.level' T.content' st1 settled1 block data_block p.buf whole;
        before = λ h.
            let stays = T.kept w.st.it.cur_idx small h in
            ap T.content' (sym T.leads ∙ stays)
            ∙ T.data_kept (file_block c w.st.it.blocks w.st.it.cur_idx)
                (elim (file_block-Leads level c settled.tree w.st.it.blocks settled.roots
                  w.st.it.cur_idx small) [ inl e ↦ absurd (h e) | inr e ↦ e ]);
      }
    where
      start_whole : (off : ℕ) (old : Bytes) → length old ≡ 1024 → length (start_buf off old) ≡ 1024
      start_whole off old h = elim (Bool-cases (off == 0)) [
        | inl e ↦ rw e (length-replicate {A = ℕ} 1024 0)
        | inr e ↦ rw e h
      ]
