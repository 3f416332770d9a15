-- ===== src/Ext2/Setting/Single.antt =====
-- A block below an indirect block.
use dvida_oxide.Prelude.{
  ℕ, suc, ◌-◌, ◌*◌, ◌^◌, ◌<◌, ◌≡◌, refl, sym, ap, subst, ◌∙◌, ◌≢◌, inl, inr, Bool-cases,
  if◌then◌else◌, ◌==◌, ==→eq, ==→ne, some, List, [], ◌∷◌, ◌++◌, arith,
}
use dvida_oxide.Ext2.{Res, done, ◌then◌, Bytes}
use dvida_oxide.Ext2.Allocator.{AllocatedBlock}
use dvida_oxide.Ext2.Blocks.Tree.{number_at, u32_at-number_at}
use dvida_oxide.Ext2.Setting.{
  SetState, Setting, written, with_it, put_u32, fill_ind, handle_set_block,
}
use dvida_oxide.Ext2.Setting.Tree.{
  Level, Content, free, slot, Extends-refl, taken, taken-other, in_use, taken-Leads, grafted,
  graft-here, graft-new, graft-other, graft-IsTree, graft-slot, graft-Extends,
}
use dvida_oxide.Ext2.Setting.Settled.{
  Allocates, Held-keep, Settled, write_block-done, written-answers, ind_loaded, load_ind-done,
  allocate_one-done,
}
use dvida_oxide.Ext2.Setting.Outcome.{Sets}

module _ {ℓ} {S : Type ℓ} (allocate : ℕ → ℕ → S → Res (List AllocatedBlock) × S)
    (Free : S → ℕ → Type 0) (Room : S → ℕ → Type 0) where
  -- The rest of `handle_set_block`, behind the pointer.
  abbrev finish : Setting S ℕ → Setting S (Unit {0})
  finish r = r then λ res st3. (done tt, with_it (record st3.it { cur_block_idx = res }) st3)

  module _ (A : Allocates S allocate Free Room) (level : Level) (c : Content) (st : SetState S)
      (n offset m : ℕ) (settled : Settled Free level c st) (z : n ≢ 0) (at_level : level n ≡ 1)
      (inside : offset < 256) (room : Room st.allocator (suc m)) where
    abbrev st1 : SetState S
    st1 = ind_loaded n (c n) st

    handle_set_block-loaded :
        handle_set_block allocate n offset st
        ≡ finish (
            if slot c n offset == 0
            then fill_ind allocate (c n) offset st1
            else (done (slot c n offset), st1))
    unfolding handle_set_block
    handle_set_block-loaded =
        rw (load_ind-done level c n st z settled.ind (settled.answers n), handle_set_block)
          (rw
            (u32_at-number_at (c n) (offset * 4) (omega (arith, settled.tree.whole n))
              (omega arith))
            refl)

    there_before :
        slot c n offset ≢ 0
        → Sets Free Room m level c st
            (λ c'. slot c' n offset)
            (finish (done (slot c n offset), st1))
    there_before h = record {
      level' = level;
      content' = c;
      after = with_it (record st1.it { cur_block_idx = slot c n offset }) st1;
      returns = refl;
      settled = record {
        tree = settled.tree;
        answers = settled.answers;
        writable = settled.writable;
        size = settled.size;
        fifteen = settled.fifteen;
        ind = (refl, at_level);
        double = settled.double;
        triple = settled.triple;
        at_root = settled.at_root;
        roots = settled.roots;
        null_block = settled.null_block;
        free_blocks = settled.free_blocks;
      };
      extends = Extends-refl level c;
      room = A.less st.allocator m room;
      cur_idx = refl;
      blocks = refl;
      leads = refl;
      there = h;
    }

    fill_ind-done :
        (b : AllocatedBlock) (s' : S)
        → allocate st.it.group_number 1 st.allocator ≡ (done (b ∷ []), s')
        → (let buf : Bytes = put_u32 (c n) (offset * 4) b.block_global_idx in
            fill_ind allocate (c n) offset st1 ≡ (
              done b.block_global_idx,
              record {
                it = record st1.it { cur_ind_buf = some buf };
                disk = written st.disk n buf;
                allocator = s';
                allocated_blocks = st.allocated_blocks ++ (b ∷ []);
              },
            ))
    unfolding fill_ind
    fill_ind-done b s' h =
        rw (allocate_one-done allocate st1 b s' h, fill_ind)
          (rw
            (write_block-done (put_u32 (c n) (offset * 4) b.block_global_idx) n
              (record st1 {
                it = record st1.it {
                  cur_ind_buf = some (put_u32 (c n) (offset * 4) b.block_global_idx);
                };
                allocator = s';
              })
              (settled.writable n))
            refl)

    -- The pointer is missing, and the allocator gives the block `b`.
    module _ (missing : slot c n offset ≡ 0) (b : AllocatedBlock) (s' : S)
        (gives : allocate st.it.group_number 1 st.allocator ≡ (done (b ∷ []), s'))
        (was_free : Free st.allocator b.block_global_idx) (some_block : b.block_global_idx ≢ 0)
        (word : b.block_global_idx < 2 ^ 32)
        (less_free : (i : ℕ) → Free s' i → Free st.allocator i × (i ≢ b.block_global_idx))
        (rest : Room s' m) where
      abbrev g : ℕ
      g = b.block_global_idx

      is_free : level g ≡ free
      is_free = settled.free_blocks g was_free

      no_pointers : (o : ℕ) → 0 < 0 → number_at (c g) (o * 4) ≡ 0
      no_pointers o p = absurd (omega arith)

      abbrev level1 : Level
      level1 = taken level g 0

      abbrev c1 : Content
      c1 =
          grafted level c n 0 offset g (c g) settled.tree at_level (omega arith) inside missing
            is_free word (settled.tree.whole g) no_pointers

      c1-n : c1 n ≡ put_u32 (c n) (offset * 4) g
      c1-n =
          graft-here level c n 0 offset g (c g) settled.tree at_level (omega arith) inside missing
            is_free word (settled.tree.whole g) no_pointers

      c1-other : (i : ℕ) → i ≢ n → c1 i ≡ c i
      c1-other i h = elim (Bool-cases (i == g)) [
        | inl e ↦
            let eg : i ≡ g = ==→eq i g e in
            ap c1 eg
            ∙ graft-new level c n 0 offset g (c g) settled.tree at_level (omega arith) inside
                missing is_free word (settled.tree.whole g) no_pointers
            ∙ ap c (sym eg)
        | inr e ↦
            graft-other level c n 0 offset g (c g) settled.tree at_level (omega arith) inside
              missing is_free word (settled.tree.whole g) no_pointers i h (==→ne i g e)
      ]

      kept : (k i : ℕ) → k < 4 → k ≢ 1 → level i ≡ k → (c1 i ≡ c i) × (level1 i ≡ k)
      kept k i lt ne h = (
        c1-other i (λ e. ne (sym h ∙ ap level e ∙ at_level)),
        taken-other level g 0 i (in_use level g i k is_free h lt) ∙ h,
      )

      answers1 : (i : ℕ) → (written st.disk n (put_u32 (c n) (offset * 4) g)).drive i ≡ some (c1 i)
      answers1 =
          written-answers st.disk n (put_u32 (c n) (offset * 4) g) c c1 settled.answers c1-n
            c1-other

      missing_before :
          Sets Free Room m level c st
            (λ c'. slot c' n offset)
            (finish (fill_ind allocate (c n) offset st1))
      missing_before = record {
        level' = level1;
        content' = c1;
        after = record {
          it = record st1.it {
            cur_ind_buf = some (put_u32 (c n) (offset * 4) g);
            cur_block_idx = g;
          };
          disk = written st.disk n (put_u32 (c n) (offset * 4) g);
          allocator = s';
          allocated_blocks = st.allocated_blocks ++ (b ∷ []);
        };
        returns = ap finish (fill_ind-done b s' gives);
        settled = record {
          tree =
              graft-IsTree level c n 0 offset g (c g) settled.tree at_level (omega arith) inside
                missing is_free word (settled.tree.whole g) no_pointers;
          answers = answers1;
          writable = settled.writable;
          size = settled.size;
          fifteen = settled.fifteen;
          ind = (
            sym c1-n,
            taken-other level g 0 n (in_use level g n 1 is_free at_level (omega arith)) ∙ at_level,
          );
          double =
              Held-keep level c level1 c1 2 _ _ (kept 2 _ (omega arith) (λ e. omega arith))
                settled.double;
          triple =
              Held-keep level c level1 c1 3 _ _ (kept 3 _ (omega arith) (λ e. omega arith))
                settled.triple;
          at_root = settled.at_root;
          roots = λ i h. taken-Leads level g 0 (i - 11) _ is_free (omega arith) (settled.roots i h);
          null_block = taken-other level g 0 0 (λ e. some_block (sym e)) ∙ settled.null_block;
          free_blocks = λ i h.
              let (f, ne) = less_free i h in taken-other level g 0 i ne ∙ settled.free_blocks i f;
        };
        extends =
            graft-Extends level c n 0 offset g (c g) settled.tree at_level (omega arith) inside
              missing is_free word (settled.tree.whole g) no_pointers;
        room = rest;
        cur_idx = refl;
        blocks = refl;
        leads =
            graft-slot level c n 0 offset g (c g) settled.tree at_level (omega arith) inside missing
              is_free word (settled.tree.whole g) no_pointers;
        there = some_block;
      }

    pub handle_set_block-Sets :
        Sets Free Room m level c st (λ c'. slot c' n offset) (handle_set_block allocate n offset st)
    handle_set_block-Sets = elim (Bool-cases (slot c n offset == 0)) [
      | inl e ↦
          let (b, s', gives, was_free, some_block, word, less_free, rest) =
            A.gives st.it.group_number st.allocator m room in
          subst (λ t. Sets Free Room m level c st (λ c'. slot c' n offset) t)
            (sym (
              handle_set_block-loaded
              ∙ ap
                  (λ q. finish (
                    if q
                    then fill_ind allocate (c n) offset st1
                    else (done (slot c n offset), st1)))
                  e))
            (missing_before (==→eq _ 0 e) b s' gives was_free some_block word less_free rest)
      | inr e ↦
          subst (λ t. Sets Free Room m level c st (λ c'. slot c' n offset) t)
            (sym (
              handle_set_block-loaded
              ∙ ap
                  (λ q. finish (
                    if q
                    then fill_ind allocate (c n) offset st1
                    else (done (slot c n offset), st1)))
                  e))
            (there_before (==→ne _ 0 e))
    ]
