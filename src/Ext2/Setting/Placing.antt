-- ===== src/Ext2/Setting/Placing.antt =====
-- `set` at each of the four levels of an inode.
use dvida_oxide.Prelude.{
  ℕ, suc, ◌-◌, ◌*◌, ◌/◌, ◌%◌, ◌≤◌, ◌<◌, ◌≡◌, refl, sym, ap, ◌∙◌, ◌≢◌, inl, inr, Bool-cases,
  if◌then◌else◌, ◌==◌, ==→eq, ==→ne, some, List, get_or, arith,
}
use dvida_oxide.Ext2.{Res, done, ◌then◌}
use dvida_oxide.Ext2.Allocator.{AllocatedBlock}
use dvida_oxide.Ext2.Blocks.{block_of}
use dvida_oxide.Ext2.Blocks.Tree.{pointer}
use dvida_oxide.Ext2.Setting.{
  SetState, Setting, first_ind, first_double, first_triple, handle_set_block,
  handle_set_indirect_block, handle_set_double_indirect_block, with_it, set_direct, set_single,
  set_double, set_triple,
}
use dvida_oxide.Ext2.Setting.Tree.{Level, Content, Extends-refl}
use dvida_oxide.Ext2.Setting.Settled.{Allocates, Settled, moved-Settled, allocate_one-done}
use dvida_oxide.Ext2.Setting.Outcome.{Sets, Roots, Places, Roots-Places, Places-from}
use dvida_oxide.Ext2.Setting.Roots.{root-Roots, there_before, handle_block_in_blocks_array-Roots}
use dvida_oxide.Ext2.Setting.Below.{below_single, below_double, below_triple}

module _ {ℓ} {S : Type ℓ} (allocate : ℕ → ℕ → S → Res (List AllocatedBlock) × S)
    (Free : S → ℕ → Type 0) (Room : S → ℕ → Type 0) (A : Allocates S allocate Free Room)
    (level : Level) (c : Content) (st : SetState S) (m : ℕ)
    (settled : Settled Free level c st) where
  pub set_single-Places :
      12 ≤ st.it.cur_idx
      → st.it.cur_idx < 268
      → Room st.allocator (suc (suc m))
      → Places Free Room m level c st
          (λ c' blocks. pointer c' (get_or blocks 12 0) ((st.it.cur_idx - 12) * 4))
          (set_single allocate st)
  unfolding set_single
  set_single-Places lo hi room =
      let R =
        handle_block_in_blocks_array-Roots allocate Free Room A level c st 12 (suc m) settled
          (omega arith) room in
      Places-from Free Room m level c st _
        (λ c' blocks. pointer c' (get_or blocks 12 0) ((R.after.it.cur_idx - 12) * 4)) _ _
        (λ c' blocks. ap (λ i. pointer c' (get_or blocks 12 0) ((i - 12) * 4)) (sym R.cur_idx)) refl
        (Roots-Places Free Room (suc m) m level c st 12 _
          (λ s. first_ind s.it.cur_ind_buf s then λ _ st2.
            handle_set_block allocate (block_of st2.it 12) (st2.it.cur_idx - 12) st2)
          R R.after (λ p c'. pointer c' p ((R.after.it.cur_idx - 12) * 4)) refl refl
          (below_single Free R.level' R.content' R.after R.settled allocate Room A m
            R.after.it.cur_ind_buf R.there R.at_level (omega (arith, R.cur_idx)) R.room))

  abbrev per_block : ℕ
  per_block = st.it.block_size / 4

  pub set_double-Places :
      268 ≤ st.it.cur_idx
      → st.it.cur_idx < 65804
      → Room st.allocator (suc (suc (suc m)))
      → Places Free Room m level c st
          (λ c' blocks.
            pointer c'
              (pointer c' (get_or blocks 13 0) ((st.it.cur_idx - 268) / 256 * 4))
              ((st.it.cur_idx - 268) % 256 * 4))
          (set_double allocate st)
  unfolding set_double
  set_double-Places lo hi room =
      let R =
        handle_block_in_blocks_array-Roots allocate Free Room A level c st 13 (suc (suc m)) settled
          (omega arith) room in
      let i : ℕ = st.it.cur_idx - 268 in
      let per : per_block ≡ 256 = omega (arith, settled.size) in
      rw per (
        Roots-Places Free Room (suc (suc m)) m level c st 13 _
          (λ s. first_double s.it.cur_double_ind_buf s then λ _ st2.
            handle_set_indirect_block allocate (block_of st2.it 13) (i / 256) (i % 256) st2)
          R R.after (λ p c'. pointer c' (pointer c' p (i / 256 * 4)) (i % 256 * 4)) refl refl
          (below_double Free R.level' R.content' R.after R.settled allocate Room A m (i / 256)
            (i % 256) R.after.it.cur_double_ind_buf R.there R.at_level (omega arith) (omega arith)
            R.room))

  pub set_triple-Places :
      65804 ≤ st.it.cur_idx
      → st.it.cur_idx < 16843020
      → Room st.allocator (suc (suc (suc (suc m))))
      → Places Free Room m level c st
          (λ c' blocks.
            pointer c'
              (pointer c'
                (pointer c' (get_or blocks 14 0) ((st.it.cur_idx - 65804) / 65536 * 4))
                ((st.it.cur_idx - 65804) / 256 % 256 * 4))
              ((st.it.cur_idx - 65804) % 256 * 4))
          (set_triple allocate st)
  unfolding set_triple
  set_triple-Places lo hi room =
      let R =
        handle_block_in_blocks_array-Roots allocate Free Room A level c st 14 (suc (suc (suc m)))
          settled (omega arith) room in
      let i : ℕ = st.it.cur_idx - 65804 in
      let per : per_block ≡ 256 = omega (arith, settled.size) in
      rw per (
        Roots-Places Free Room (suc (suc (suc m))) m level c st 14 _
          (λ s. first_triple s.it.cur_triple_ind_buf s then λ _ st2.
            handle_set_double_indirect_block allocate (i / 65536) (i / 256 % 256) (i % 256) st2)
          R R.after
          (λ p c'.
            pointer c' (pointer c' (pointer c' p (i / 65536 * 4)) (i / 256 % 256 * 4))
              (i % 256 * 4))
          refl refl
          (below_triple Free R.level' R.content' R.after R.settled allocate Room A m (i / 65536)
            (i / 256 % 256) (i % 256) R.after.it.cur_triple_ind_buf refl R.there R.at_level
            (omega arith) (omega arith) (omega arith) R.room))

  -- The rest of `set` at a direct block.
  abbrev at_direct : SetState S → Setting S (Unit {0})
  at_direct st2 =
      (done tt, with_it (record st2.it { cur_block_idx = block_of st2.it st.it.cur_idx }) st2)

  direct-Sets :
      (level1 : Level) (c1 : Content) (st1 : SetState S)
      → Settled Free level1 c1 st1
      → Room st1.allocator m
      → block_of st1.it st.it.cur_idx ≢ 0
      → Sets Free Room m level1 c1 st1 (λ c'. block_of st1.it st.it.cur_idx) (at_direct st1)
  direct-Sets level1 c1 st1 s room h = record {
    level' = level1;
    content' = c1;
    after = with_it (record st1.it { cur_block_idx = block_of st1.it st.it.cur_idx }) st1;
    returns = refl;
    settled =
        moved-Settled Free level1 c1 st1 s st1.it.cur_idx (block_of st1.it st.it.cur_idx)
          st1.allocated_blocks;
    extends = Extends-refl level1 c1;
    room = room;
    cur_idx = refl;
    blocks = refl;
    leads = refl;
    there = h;
  }

  direct-Places :
      (out : Setting S (Unit {0}))
      → Roots Free Room m level c st st.it.cur_idx out
      → Places Free Room m level c st
          (λ c' blocks. get_or blocks st.it.cur_idx 0)
          (out then λ _ s. at_direct s)
  direct-Places out R =
      Roots-Places Free Room m m level c st st.it.cur_idx out at_direct R R.after (λ p c'. p) refl
        refl (direct-Sets R.level' R.content' R.after R.settled R.room R.there)

  pub set_direct-Places :
      st.it.cur_idx < 12
      → Room st.allocator (suc m)
      → Places Free Room m level c st
          (λ c' blocks. get_or blocks st.it.cur_idx 0)
          (set_direct allocate st)
  unfolding set_direct
  set_direct-Places hi room = elim (Bool-cases (block_of st.it st.it.cur_idx == 0)) [
    | inr e ↦ rw e (
        direct-Places _ (
          there_before allocate Free Room A level c st st.it.cur_idx m settled (omega arith) room
            (==→ne _ 0 e)))
    | inl e ↦
        let (b, s', gives, was_free, some_block, word, less_free, rest) =
          A.gives st.it.group_number st.allocator m room in
        let g : ℕ = b.block_global_idx in
        rw e (
          direct-Places _ (
            root-Roots allocate Free Room A level c st st.it.cur_idx m settled (omega arith) room
              (==→eq _ 0 e) b s' was_free some_block less_free rest (c g) (settled.tree.whole g)
              (λ o p. absurd (omega arith)) st.disk settled.writable _
              (λ j. elim (Bool-cases (j == g)) [
                | inl q ↦ settled.answers j ∙ ap some (rw q (ap c (==→eq j g q)))
                | inr q ↦ settled.answers j ∙ ap some (rw q refl)
              ])
              (rw (allocate_one-done allocate st b s' gives) refl)))
  ]
