-- ===== src/Ext2/Setting/Roots.antt =====
-- The pointers of the inode.
use dvida_oxide.Prelude.{
  ℕ, suc, ◌-◌, ◌*◌, ◌<◌, ◌≡◌, refl, sym, ap, subst, ◌∙◌, ◌≢◌, inl, inr, true, Bool-cases,
  if◌then◌else◌, ◌==◌, ==→eq, ==→ne, ne→==, ==_refl, ==_refl, Option, none, some, List, [], ◌∷◌,
  ◌++◌, length, set, length-set, get_or-set_self, get_or-set_ne, replicate, length-replicate, arith,
}
use dvida_oxide.Ext2.{Res, done, ◌then◌, Bytes}
use dvida_oxide.Ext2.Allocator.{AllocatedBlock}
use dvida_oxide.Ext2.Blocks.{block_of}
use dvida_oxide.Ext2.Blocks.Tree.{number_at}
use dvida_oxide.Ext2.Setting.{Disk, SetState, Setting, written, handle_block_in_blocks_array}
use dvida_oxide.Ext2.Setting.Pointers.{number_at-zeros}
use dvida_oxide.Ext2.Setting.Tree.{
  Level, Content, free, Leads, Extends-refl, taken, taken_self, taken-other, in_use, taken-Leads,
  seed-IsTree, seed-Extends,
}
use dvida_oxide.Ext2.Setting.Settled.{
  Allocates, Held, Held-keep, AtRoot, Settled, clear_block-done, written-answers, allocate_one-done,
}
use dvida_oxide.Ext2.Setting.Outcome.{Roots}

-- A buffer of a root that is not there is empty.
AtRoot-new :
    (level : Level) (c : Content) (o : Option Bytes) (idx root g : ℕ)
    → level 0 ≡ 0
    → Held level c 3 o idx
    → AtRoot o idx root
    → root ≡ 0
    → AtRoot o idx g
AtRoot-new level c none idx root g z h a e = tt
AtRoot-new level c (some buf) idx root g z h a e = absurd (omega (arith, z, h.1, ap level (a ∙ e)))

module _ {ℓ} {S : Type ℓ} (allocate : ℕ → ℕ → S → Res (List AllocatedBlock) × S)
    (Free : S → ℕ → Type 0) (Room : S → ℕ → Type 0) (A : Allocates S allocate Free Room)
    (level : Level) (c : Content) (st : SetState S) (i m : ℕ) (settled : Settled Free level c st)
    (inside : i < 15) (room : Room st.allocator (suc m)) where
  pub there_before : block_of st.it i ≢ 0 → Roots Free Room m level c st i (done tt, st)
  there_before h = record {
    level' = level;
    content' = c;
    after = st;
    returns = refl;
    settled = settled;
    extends = Extends-refl level c;
    room = A.less st.allocator m room;
    cur_idx = refl;
    others = λ j k. refl;
    there = h;
    at_level = elim (settled.roots i inside) [ inl e ↦ absurd (h e) | inr e ↦ e ];
  }

  -- The pointer is missing, and the allocator gives the block `b`, which holds `buf` afterwards.
  module _ (missing : block_of st.it i ≡ 0) (b : AllocatedBlock) (s' : S)
      (was_free : Free st.allocator b.block_global_idx) (some_block : b.block_global_idx ≢ 0)
      (less_free : (j : ℕ) → Free s' j → Free st.allocator j × (j ≢ b.block_global_idx))
      (rest : Room s' m) (buf : Bytes) (whole : length buf ≡ 1024)
      (empty : (o : ℕ) → 0 < i - 11 → number_at buf (o * 4) ≡ 0) (disk : Disk)
      (writable : (j : ℕ) → disk.writable j ≡ true) where
    abbrev g : ℕ
    g = b.block_global_idx

    is_free : level g ≡ free
    is_free = settled.free_blocks g was_free

    abbrev level1 : Level
    level1 = taken level g (i - 11)

    abbrev c1 : Content
    c1 j = if j == g then buf else c j

    c1-g : c1 g ≡ buf
    c1-g = rw (==_refl g) refl

    c1-other : (j : ℕ) → j ≢ g → c1 j ≡ c j
    c1-other j h = rw (ne→== j g h) refl

    kept : (k j : ℕ) → k < 4 → level j ≡ k → (c1 j ≡ c j) × (level1 j ≡ k)
    kept k j lt h = (
      c1-other j (in_use level g j k is_free h lt),
      taken-other level g (i - 11) j (in_use level g j k is_free h lt) ∙ h,
    )

    abbrev after : SetState S
    after = record {
      it = record st.it { blocks = set st.it.blocks i g };
      disk = disk;
      allocator = s';
      allocated_blocks = st.allocated_blocks ++ (b ∷ []);
    }

    block-i : block_of after.it i ≡ g
    block-i = get_or-set_self st.it.blocks i g 0 (omega (arith, settled.fifteen))

    block-other : (j : ℕ) → i ≢ j → block_of after.it j ≡ block_of st.it j
    block-other j h = get_or-set_ne st.it.blocks i j g 0 h

    roots1 : (j : ℕ) → j < 15 → Leads level1 (j - 11) (block_of after.it j)
    roots1 j h = elim (Bool-cases (i == j)) [
      | inl e ↦
          let ij : i ≡ j = ==→eq i j e in
          inr (
            ap level1 (ap (block_of after.it) (sym ij) ∙ block-i)
            ∙ taken_self level g (i - 11)
            ∙ ap (λ t. t - 11) ij)
      | inr e ↦
          subst (Leads level1 (j - 11)) (sym (block-other j (==→ne i j e)))
            (taken-Leads level g (i - 11) (j - 11) _ is_free (omega arith) (settled.roots j h))
    ]

    at_root1 :
        AtRoot st.it.cur_triple_ind_buf st.it.cur_triple_ind_buf_block_idx (block_of after.it 14)
    at_root1 = elim (Bool-cases (i == 14)) [
      | inl e ↦
          AtRoot-new level c st.it.cur_triple_ind_buf _ (block_of st.it 14) (block_of after.it 14)
            settled.null_block settled.triple settled.at_root
            (ap (block_of st.it) (sym (==→eq i 14 e)) ∙ missing)
      | inr e ↦
          subst (AtRoot st.it.cur_triple_ind_buf st.it.cur_triple_ind_buf_block_idx)
            (sym (block-other 14 (==→ne i 14 e))) settled.at_root
    ]

    pub root-Roots :
        (out : Setting S (Unit {0}))
        → ((j : ℕ) → disk.drive j ≡ some (c1 j))
        → out ≡ (done tt, after)
        → Roots Free Room m level c st i out
    root-Roots out answers returns = record {
      level' = level1;
      content' = c1;
      after = after;
      returns = returns;
      settled = record {
        tree =
            seed-IsTree level c c1 g (i - 11) settled.tree is_free (ap length c1-g ∙ whole)
              (λ o p. ap (λ t. number_at t (o * 4)) c1-g ∙ empty o p) c1-other;
        answers = answers;
        writable = writable;
        size = settled.size;
        fifteen = length-set st.it.blocks i g ∙ settled.fifteen;
        ind = Held-keep level c level1 c1 1 _ _ (kept 1 _ (omega arith)) settled.ind;
        double = Held-keep level c level1 c1 2 _ _ (kept 2 _ (omega arith)) settled.double;
        triple = Held-keep level c level1 c1 3 _ _ (kept 3 _ (omega arith)) settled.triple;
        at_root = at_root1;
        roots = roots1;
        null_block = taken-other level g (i - 11) 0 (λ e. some_block (sym e)) ∙ settled.null_block;
        free_blocks = λ j h.
            let (f, ne) = less_free j h in
            taken-other level g (i - 11) j ne ∙ settled.free_blocks j f;
      };
      extends =
          seed-Extends level c c1 g (i - 11) settled.tree is_free (ap length c1-g ∙ whole)
            (λ o p. ap (λ t. number_at t (o * 4)) c1-g ∙ empty o p) c1-other;
      room = rest;
      cur_idx = refl;
      others = λ j h. block-other j (λ e. h (ap (block_of st.it) (sym e) ∙ missing));
      there = λ e. some_block (sym block-i ∙ e);
      at_level = ap level1 block-i ∙ taken_self level g (i - 11);
    }

  pub handle_block_in_blocks_array-Roots :
      Roots Free Room m level c st i (handle_block_in_blocks_array allocate i st)
  unfolding handle_block_in_blocks_array
  handle_block_in_blocks_array-Roots = elim (Bool-cases (block_of st.it i == 0)) [
    | inr e ↦ rw e (there_before (==→ne _ 0 e))
    | inl e ↦
        let (b, s', gives, was_free, some_block, word, less_free, rest) =
          A.gives st.it.group_number st.allocator m room in
        let g : ℕ = b.block_global_idx in
        let zeros : Bytes = replicate 1024 0 in
        let st2 : SetState S = record st {
          it = record st.it { blocks = set st.it.blocks i g };
          allocator = s';
        } in
        rw e (
          root-Roots (==→eq _ 0 e) b s' was_free some_block less_free rest zeros
            (length-replicate {A = ℕ} 1024 0) (λ o p. number_at-zeros 1024 (o * 4))
            (written st.disk g zeros) settled.writable _
            (written-answers st.disk g zeros c (λ j. if j == g then zeros else c j) settled.answers
              (rw (==_refl g) refl) (λ j h. rw (ne→== j g h) refl))
            (rw (allocate_one-done allocate st b s' gives)
              (rw (clear_block-done g st2 (settled.writable g) settled.size) refl)))
  ]
