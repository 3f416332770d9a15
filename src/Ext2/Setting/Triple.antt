-- ===== src/Ext2/Setting/Triple.antt =====
-- A block below the triple indirect block.
use dvida_oxide.Prelude.{
  ℕ, suc, ◌-◌, ◌*◌, ◌^◌, ◌<◌, ◌≡◌, refl, sym, ap, subst, ◌∙◌, ◌≢◌, inl, inr, Bool-cases,
  if◌then◌else◌, ◌==◌, ==→eq, ==→ne, ne→==, ==_refl, some, List, [], ◌∷◌, ◌++◌, length, replicate,
  length-replicate, arith,
}
use dvida_oxide.Ext2.{Res, done, ◌then◌, Bytes}
use dvida_oxide.Ext2.Allocator.{AllocatedBlock}
use dvida_oxide.Ext2.Blocks.{block_of}
use dvida_oxide.Ext2.Blocks.Tree.{pointer, number_at, u32_at-number_at}
use dvida_oxide.Ext2.Setting.{
  Disk, SetState, written, put_u32, fill_triple, handle_set_indirect_block,
  handle_set_double_indirect_block,
}
use dvida_oxide.Ext2.Setting.Pointers.{number_at-zeros}
use dvida_oxide.Ext2.Setting.Tree.{
  Level, Content, free, slot, Extends-refl, taken, taken_self, taken-other, in_use, taken-Leads,
  grafted, graft-here, graft-new, graft-other, graft-IsTree, graft-slot, graft-Extends,
  pointer-slot,
}
use dvida_oxide.Ext2.Setting.Settled.{
  Allocates, Held-keep, Settled, write_block-done, clear_block-done, written-answers,
  allocate_one-done,
}
use dvida_oxide.Ext2.Setting.Outcome.{Sets, Sets-from, Fills, Fills-Sets}
use dvida_oxide.Ext2.Setting.Double.{handle_set_indirect_block-Sets}

module _ {ℓ} {S : Type ℓ} (allocate : ℕ → ℕ → S → Res (List AllocatedBlock) × S)
    (Free : S → ℕ → Type 0) (Room : S → ℕ → Type 0) where
  module _ (A : Allocates S allocate Free Room) (level : Level) (c : Content) (st : SetState S)
      (offset m : ℕ) (settled : Settled Free level c st)
      (at_level : level st.it.cur_triple_ind_buf_block_idx ≡ 3)
      (root : st.it.cur_triple_ind_buf_block_idx ≡ block_of st.it 14) (inside : offset < 256)
      (room : Room st.allocator (suc m)) where
    abbrev n : ℕ
    n = st.it.cur_triple_ind_buf_block_idx

    abbrev st1 : SetState S
    st1 = st

    there_before :
        slot c n offset ≢ 0 → Fills Free Room m 2 level c st n offset (done (slot c n offset), st1)
    there_before h = record {
      level' = level;
      content' = c;
      after = st1;
      value = slot c n offset;
      returns = refl;
      settled = record {
        tree = settled.tree;
        answers = settled.answers;
        writable = settled.writable;
        size = settled.size;
        fifteen = settled.fifteen;
        ind = settled.ind;
        double = settled.double;
        triple = settled.triple;
        at_root = settled.at_root;
        roots = settled.roots;
        null_block = settled.null_block;
        free_blocks = settled.free_blocks;
      };
      extends = Extends-refl level c;
      room = A.less st.allocator m room;
      cur_idx = refl;
      blocks = refl;
      leads = refl;
      there = h;
      below = elim (settled.tree.points n 2 offset at_level (omega arith) inside) [
        | inl e ↦ absurd (h e)
        | inr e ↦ e
      ];
    }

    -- The pointer is missing, and the allocator gives the block `b`.
    module _ (missing : slot c n offset ≡ 0) (b : AllocatedBlock) (s' : S)
        (gives : allocate st.it.group_number 1 st.allocator ≡ (done (b ∷ []), s'))
        (was_free : Free st.allocator b.block_global_idx) (some_block : b.block_global_idx ≢ 0)
        (word : b.block_global_idx < 2 ^ 32)
        (less_free : (i : ℕ) → Free s' i → Free st.allocator i × (i ≢ b.block_global_idx))
        (rest : Room s' m) where
      abbrev g : ℕ
      g = b.block_global_idx

      is_free : level g ≡ free
      is_free = settled.free_blocks g was_free

      abbrev zeros : Bytes
      zeros = replicate 1024 0

      whole : length zeros ≡ 1024
      whole = length-replicate {A = ℕ} 1024 0

      no_pointers : (o : ℕ) → 0 < 2 → number_at zeros (o * 4) ≡ 0
      no_pointers o p = number_at-zeros 1024 (o * 4)

      abbrev level1 : Level
      level1 = taken level g 2

      abbrev c1 : Content
      c1 =
          grafted level c n 2 offset g zeros settled.tree at_level (omega arith) inside missing
            is_free word whole no_pointers

      c1-n : c1 n ≡ put_u32 (c n) (offset * 4) g
      c1-n =
          graft-here level c n 2 offset g zeros settled.tree at_level (omega arith) inside missing
            is_free word whole no_pointers

      c1-g : c1 g ≡ zeros
      c1-g =
          graft-new level c n 2 offset g zeros settled.tree at_level (omega arith) inside missing
            is_free word whole no_pointers

      kept : (k i : ℕ) → k < 4 → k ≢ 3 → level i ≡ k → (c1 i ≡ c i) × (level1 i ≡ k)
      kept k i lt ne h = (
        graft-other level c n 2 offset g zeros settled.tree at_level (omega arith) inside missing
            is_free word whole no_pointers i (λ e. ne (sym h ∙ ap level e ∙ at_level))
            (in_use level g i k is_free h lt),
        taken-other level g 2 i (in_use level g i k is_free h lt) ∙ h,
      )

      -- Between the two writes.
      abbrev middle : Content
      middle i = if i == n then put_u32 (c n) (offset * 4) g else c i

      abbrev written_once : Disk
      written_once = written st.disk n (put_u32 (c n) (offset * 4) g)

      answers1 : (i : ℕ) → (written written_once g zeros).drive i ≡ some (c1 i)
      answers1 =
          written-answers written_once g zeros middle c1
            (written-answers st.disk n (put_u32 (c n) (offset * 4) g) c middle settled.answers
              (rw (==_refl n) refl) (λ i h. rw (ne→== i n h) refl))
            c1-g (λ i h. rw (ne→== i g h) refl)

      fill_triple-done : fill_triple allocate (c n) offset st1 ≡ (
        done g,
        record {
          it = record st1.it { cur_triple_ind_buf = some (put_u32 (c n) (offset * 4) g) };
          disk = written written_once g zeros;
          allocator = s';
          allocated_blocks = st.allocated_blocks ++ (b ∷ []);
        },
      )
      unfolding fill_triple
      fill_triple-done =
          let st2 : SetState S = record st1 {
            it = record st1.it { cur_triple_ind_buf = some (put_u32 (c n) (offset * 4) g) };
            allocator = s';
          } in
          rw (allocate_one-done allocate st1 b s' gives, fill_triple)
            (rw (write_block-done (put_u32 (c n) (offset * 4) g) n st2 (settled.writable n)) (
              rw
                (clear_block-done g (record st2 { disk = written_once }) (settled.writable g)
                  settled.size)
                refl))

      missing_before :
          Fills Free Room m 2 level c st n offset (fill_triple allocate (c n) offset st1)
      missing_before = record {
        level' = level1;
        content' = c1;
        after = record {
          it = record st1.it { cur_triple_ind_buf = some (put_u32 (c n) (offset * 4) g) };
          disk = written written_once g zeros;
          allocator = s';
          allocated_blocks = st.allocated_blocks ++ (b ∷ []);
        };
        value = g;
        returns = fill_triple-done;
        settled = record {
          tree =
              graft-IsTree level c n 2 offset g zeros settled.tree at_level (omega arith) inside
                missing is_free word whole no_pointers;
          answers = answers1;
          writable = settled.writable;
          size = settled.size;
          fifteen = settled.fifteen;
          ind =
              Held-keep level c level1 c1 1 _ _ (kept 1 _ (omega arith) (λ e. omega arith))
                settled.ind;
          double =
              Held-keep level c level1 c1 2 _ _ (kept 2 _ (omega arith) (λ e. omega arith))
                settled.double;
          triple = (
            sym c1-n,
            taken-other level g 2 n (in_use level g n 3 is_free at_level (omega arith)) ∙ at_level,
          );
          at_root = root;
          roots = λ i h. taken-Leads level g 2 (i - 11) _ is_free (omega arith) (settled.roots i h);
          null_block = taken-other level g 2 0 (λ e. some_block (sym e)) ∙ settled.null_block;
          free_blocks = λ i h.
              let (f, ne) = less_free i h in taken-other level g 2 i ne ∙ settled.free_blocks i f;
        };
        extends =
            graft-Extends level c n 2 offset g zeros settled.tree at_level (omega arith) inside
              missing is_free word whole no_pointers;
        room = rest;
        cur_idx = refl;
        blocks = refl;
        leads =
            graft-slot level c n 2 offset g zeros settled.tree at_level (omega arith) inside missing
              is_free word whole no_pointers;
        there = some_block;
        below = taken_self level g 2;
      }

    pub fill_triple-Fills : Fills Free Room m 2 level c st n offset (
        if slot c n offset == 0
        then fill_triple allocate (c n) offset st1
        else (done (slot c n offset), st1))
    fill_triple-Fills = elim (Bool-cases (slot c n offset == 0)) [
      | inl e ↦
          let (b, s', gives, was_free, some_block, word, less_free, rest) =
            A.gives st.it.group_number st.allocator m room in
          rw e (missing_before (==→eq _ 0 e) b s' gives was_free some_block word less_free rest)
      | inr e ↦ rw e (there_before (==→ne _ 0 e))
    ]

  module _ (A : Allocates S allocate Free Room) (level : Level) (c : Content) (st : SetState S)
      (offset3 offset2 offset1 m : ℕ) (settled : Settled Free level c st)
      (at_level : level st.it.cur_triple_ind_buf_block_idx ≡ 3)
      (root : st.it.cur_triple_ind_buf_block_idx ≡ block_of st.it 14)
      (buffer : st.it.cur_triple_ind_buf ≡ some (c st.it.cur_triple_ind_buf_block_idx))
      (inside3 : offset3 < 256) (inside2 : offset2 < 256) (inside1 : offset1 < 256)
      (room : Room st.allocator (suc (suc (suc m)))) where
    abbrev top : ℕ
    top = st.it.cur_triple_ind_buf_block_idx

    handle_set_double_indirect_block-loaded :
        handle_set_double_indirect_block allocate offset3 offset2 offset1 st ≡ (
          (if slot c top offset3 == 0
            then fill_triple allocate (c top) offset3 st
            else (done (slot c top offset3), st))
          then λ double_ind_block_idx st3.
              handle_set_indirect_block allocate double_ind_block_idx offset2 offset1 st3)
    unfolding handle_set_double_indirect_block
    handle_set_double_indirect_block-loaded =
        rw (buffer, handle_set_double_indirect_block)
          (rw
            (u32_at-number_at (c top) (offset3 * 4) (omega (arith, settled.tree.whole top))
              (omega arith))
            refl)

    pub handle_set_double_indirect_block-Sets :
        Sets Free Room m level c st
          (λ c'. pointer c' (pointer c' (slot c' top offset3) (offset2 * 4)) (offset1 * 4))
          (handle_set_double_indirect_block allocate offset3 offset2 offset1 st)
    handle_set_double_indirect_block-Sets =
        let F =
          fill_triple-Fills A level c st offset3 (suc (suc m)) settled at_level root inside3 room in
        subst
          (λ t.
            Sets Free Room m level c st
              (λ c'. pointer c' (pointer c' (slot c' top offset3) (offset2 * 4)) (offset1 * 4)) t)
          (sym handle_set_double_indirect_block-loaded)
          (Fills-Sets Free Room (suc (suc m)) m 2 level c st top offset3 _
            (λ p c'. pointer c' (pointer c' p (offset2 * 4)) (offset1 * 4))
            (λ double_ind_block_idx st3.
              handle_set_indirect_block allocate double_ind_block_idx offset2 offset1 st3)
            F at_level (omega arith) inside3
            (Sets-from Free Room m F.level' F.content' F.after F.after _ _ _ _ refl refl
              (λ c'. ap (λ p. pointer c' p (offset1 * 4)) (pointer-slot c' F.value offset2 F.there))
              refl
              (handle_set_indirect_block-Sets allocate Free Room A F.level' F.content' F.after
                F.value offset2 offset1 m F.settled F.there F.below inside2 inside1 F.room)))
