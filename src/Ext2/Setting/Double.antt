-- ===== src/Ext2/Setting/Double.antt =====
-- A block below a double indirect block.
use dvida_oxide.Prelude.{
  ℕ, suc, ◌-◌, ◌*◌, ◌^◌, ◌<◌, ◌≡◌, refl, sym, ap, subst, ◌∙◌, ◌≢◌, inl, inr, Bool-cases,
  if◌then◌else◌, ◌==◌, ==→eq, ==→ne, ne→==, ==_refl, some, List, [], ◌∷◌, ◌++◌, length, replicate,
  length-replicate, arith,
}
use dvida_oxide.Ext2.{Res, done, ◌then◌, Bytes}
use dvida_oxide.Ext2.Allocator.{AllocatedBlock}
use dvida_oxide.Ext2.Blocks.Tree.{pointer, number_at, u32_at-number_at}
use dvida_oxide.Ext2.Setting.{
  Disk, SetState, written, put_u32, fill_double, handle_set_block, handle_set_indirect_block,
}
use dvida_oxide.Ext2.Setting.Pointers.{number_at-zeros}
use dvida_oxide.Ext2.Setting.Tree.{
  Level, Content, free, slot, Extends-refl, taken, taken_self, taken-other, in_use, taken-Leads,
  grafted, graft-here, graft-new, graft-other, graft-IsTree, graft-slot, graft-Extends,
  pointer-slot,
}
use dvida_oxide.Ext2.Setting.Settled.{
  Allocates, Held-keep, Settled, write_block-done, clear_block-done, written-answers, double_loaded,
  load_double-done, allocate_one-done,
}
use dvida_oxide.Ext2.Setting.Outcome.{Sets, Sets-from, Fills, Fills-Sets}
use dvida_oxide.Ext2.Setting.Single.{handle_set_block-Sets}

module _ {ℓ} {S : Type ℓ} (allocate : ℕ → ℕ → S → Res (List AllocatedBlock) × S)
    (Free : S → ℕ → Type 0) (Room : S → ℕ → Type 0) where
  module _ (A : Allocates S allocate Free Room) (level : Level) (c : Content) (st : SetState S)
      (n offset m : ℕ) (settled : Settled Free level c st) (z : n ≢ 0) (at_level : level n ≡ 2)
      (inside : offset < 256) (room : Room st.allocator (suc m)) where
    abbrev st1 : SetState S
    st1 = double_loaded n (c n) st

    there_before :
        slot c n offset ≢ 0 → Fills Free Room m 1 level c st n offset (done (slot c n offset), st1)
    there_before h = record {
      level' = level;
      content' = c;
      after = st1;
      value = slot c n offset;
      returns = refl;
      settled = record {
        tree = settled.tree;
        answers = settled.answers;
        writable = settled.writable;
        size = settled.size;
        fifteen = settled.fifteen;
        ind = settled.ind;
        double = (refl, at_level);
        triple = settled.triple;
        at_root = settled.at_root;
        roots = settled.roots;
        null_block = settled.null_block;
        free_blocks = settled.free_blocks;
      };
      extends = Extends-refl level c;
      room = A.less st.allocator m room;
      cur_idx = refl;
      blocks = refl;
      leads = refl;
      there = h;
      below = elim (settled.tree.points n 1 offset at_level (omega arith) inside) [
        | inl e ↦ absurd (h e)
        | inr e ↦ e
      ];
    }

    -- The pointer is missing, and the allocator gives the block `b`.
    module _ (missing : slot c n offset ≡ 0) (b : AllocatedBlock) (s' : S)
        (gives : allocate st.it.group_number 1 st.allocator ≡ (done (b ∷ []), s'))
        (was_free : Free st.allocator b.block_global_idx) (some_block : b.block_global_idx ≢ 0)
        (word : b.block_global_idx < 2 ^ 32)
        (less_free : (i : ℕ) → Free s' i → Free st.allocator i × (i ≢ b.block_global_idx))
        (rest : Room s' m) where
      abbrev g : ℕ
      g = b.block_global_idx

      is_free : level g ≡ free
      is_free = settled.free_blocks g was_free

      abbrev zeros : Bytes
      zeros = replicate 1024 0

      whole : length zeros ≡ 1024
      whole = length-replicate {A = ℕ} 1024 0

      no_pointers : (o : ℕ) → 0 < 1 → number_at zeros (o * 4) ≡ 0
      no_pointers o p = number_at-zeros 1024 (o * 4)

      abbrev level1 : Level
      level1 = taken level g 1

      abbrev c1 : Content
      c1 =
          grafted level c n 1 offset g zeros settled.tree at_level (omega arith) inside missing
            is_free word whole no_pointers

      c1-n : c1 n ≡ put_u32 (c n) (offset * 4) g
      c1-n =
          graft-here level c n 1 offset g zeros settled.tree at_level (omega arith) inside missing
            is_free word whole no_pointers

      c1-g : c1 g ≡ zeros
      c1-g =
          graft-new level c n 1 offset g zeros settled.tree at_level (omega arith) inside missing
            is_free word whole no_pointers

      kept : (k i : ℕ) → k < 4 → k ≢ 2 → level i ≡ k → (c1 i ≡ c i) × (level1 i ≡ k)
      kept k i lt ne h = (
        graft-other level c n 1 offset g zeros settled.tree at_level (omega arith) inside missing
            is_free word whole no_pointers i (λ e. ne (sym h ∙ ap level e ∙ at_level))
            (in_use level g i k is_free h lt),
        taken-other level g 1 i (in_use level g i k is_free h lt) ∙ h,
      )

      -- Between the two writes.
      abbrev middle : Content
      middle i = if i == n then put_u32 (c n) (offset * 4) g else c i

      abbrev written_once : Disk
      written_once = written st.disk n (put_u32 (c n) (offset * 4) g)

      answers1 : (i : ℕ) → (written written_once g zeros).drive i ≡ some (c1 i)
      answers1 =
          written-answers written_once g zeros middle c1
            (written-answers st.disk n (put_u32 (c n) (offset * 4) g) c middle settled.answers
              (rw (==_refl n) refl) (λ i h. rw (ne→== i n h) refl))
            c1-g (λ i h. rw (ne→== i g h) refl)

      fill_double-done : fill_double allocate (c n) offset st1 ≡ (
        done g,
        record {
          it = record st1.it { cur_double_ind_buf = some (put_u32 (c n) (offset * 4) g) };
          disk = written written_once g zeros;
          allocator = s';
          allocated_blocks = st.allocated_blocks ++ (b ∷ []);
        },
      )
      unfolding fill_double
      fill_double-done =
          let st2 : SetState S = record st1 {
            it = record st1.it { cur_double_ind_buf = some (put_u32 (c n) (offset * 4) g) };
            allocator = s';
          } in
          rw (allocate_one-done allocate st1 b s' gives, fill_double)
            (rw (write_block-done (put_u32 (c n) (offset * 4) g) n st2 (settled.writable n)) (
              rw
                (clear_block-done g (record st2 { disk = written_once }) (settled.writable g)
                  settled.size)
                refl))

      missing_before :
          Fills Free Room m 1 level c st n offset (fill_double allocate (c n) offset st1)
      missing_before = record {
        level' = level1;
        content' = c1;
        after = record {
          it = record st1.it { cur_double_ind_buf = some (put_u32 (c n) (offset * 4) g) };
          disk = written written_once g zeros;
          allocator = s';
          allocated_blocks = st.allocated_blocks ++ (b ∷ []);
        };
        value = g;
        returns = fill_double-done;
        settled = record {
          tree =
              graft-IsTree level c n 1 offset g zeros settled.tree at_level (omega arith) inside
                missing is_free word whole no_pointers;
          answers = answers1;
          writable = settled.writable;
          size = settled.size;
          fifteen = settled.fifteen;
          ind =
              Held-keep level c level1 c1 1 _ _ (kept 1 _ (omega arith) (λ e. omega arith))
                settled.ind;
          double = (
            sym c1-n,
            taken-other level g 1 n (in_use level g n 2 is_free at_level (omega arith)) ∙ at_level,
          );
          triple =
              Held-keep level c level1 c1 3 _ _ (kept 3 _ (omega arith) (λ e. omega arith))
                settled.triple;
          at_root = settled.at_root;
          roots = λ i h. taken-Leads level g 1 (i - 11) _ is_free (omega arith) (settled.roots i h);
          null_block = taken-other level g 1 0 (λ e. some_block (sym e)) ∙ settled.null_block;
          free_blocks = λ i h.
              let (f, ne) = less_free i h in taken-other level g 1 i ne ∙ settled.free_blocks i f;
        };
        extends =
            graft-Extends level c n 1 offset g zeros settled.tree at_level (omega arith) inside
              missing is_free word whole no_pointers;
        room = rest;
        cur_idx = refl;
        blocks = refl;
        leads =
            graft-slot level c n 1 offset g zeros settled.tree at_level (omega arith) inside missing
              is_free word whole no_pointers;
        there = some_block;
        below = taken_self level g 1;
      }

    pub fill_double-Fills : Fills Free Room m 1 level c st n offset (
        if slot c n offset == 0
        then fill_double allocate (c n) offset st1
        else (done (slot c n offset), st1))
    fill_double-Fills = elim (Bool-cases (slot c n offset == 0)) [
      | inl e ↦
          let (b, s', gives, was_free, some_block, word, less_free, rest) =
            A.gives st.it.group_number st.allocator m room in
          rw e (missing_before (==→eq _ 0 e) b s' gives was_free some_block word less_free rest)
      | inr e ↦ rw e (there_before (==→ne _ 0 e))
    ]

  module _ (A : Allocates S allocate Free Room) (level : Level) (c : Content) (st : SetState S)
      (n offset2 offset1 m : ℕ) (settled : Settled Free level c st) (z : n ≢ 0)
      (at_level : level n ≡ 2) (inside2 : offset2 < 256) (inside1 : offset1 < 256)
      (room : Room st.allocator (suc (suc m))) where
    handle_set_indirect_block-loaded : handle_set_indirect_block allocate n offset2 offset1 st ≡ (
        (if slot c n offset2 == 0
          then fill_double allocate (c n) offset2 (double_loaded n (c n) st)
          else (done (slot c n offset2), double_loaded n (c n) st))
        then λ ind_block_idx st3. handle_set_block allocate ind_block_idx offset1 st3)
    unfolding handle_set_indirect_block
    handle_set_indirect_block-loaded =
        rw
          (
            load_double-done level c n st z settled.double (settled.answers n),
            handle_set_indirect_block,
          )
          (rw
            (u32_at-number_at (c n) (offset2 * 4) (omega (arith, settled.tree.whole n))
              (omega arith))
            refl)

    pub handle_set_indirect_block-Sets :
        Sets Free Room m level c st
          (λ c'. pointer c' (slot c' n offset2) (offset1 * 4))
          (handle_set_indirect_block allocate n offset2 offset1 st)
    handle_set_indirect_block-Sets =
        let F = fill_double-Fills A level c st n offset2 (suc m) settled z at_level inside2 room in
        subst
          (λ t. Sets Free Room m level c st (λ c'. pointer c' (slot c' n offset2) (offset1 * 4)) t)
          (sym handle_set_indirect_block-loaded)
          (Fills-Sets Free Room (suc m) m 1 level c st n offset2 _
            (λ p c'. pointer c' p (offset1 * 4))
            (λ ind_block_idx st3. handle_set_block allocate ind_block_idx offset1 st3) F at_level
            (omega arith) inside2
            (Sets-from Free Room m F.level' F.content' F.after F.after _ _ _ _ refl refl
              (λ c'. pointer-slot c' F.value offset1 F.there) refl
              (handle_set_block-Sets allocate Free Room A F.level' F.content' F.after F.value
                offset1 m F.settled F.there F.below inside1 F.room)))
