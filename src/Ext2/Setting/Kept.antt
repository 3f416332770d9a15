-- ===== src/Ext2/Setting/Kept.antt =====
-- The blocks of a file that were there keep their place.
use dvida_oxide.Prelude.{
  ℕ, suc, ◌-◌, ◌*◌, ◌/◌, ◌%◌, ◌<◌, ◌≡◌, refl, sym, ap, subst, ◌∙◌, ◌≢◌, inl, inr, Bool-cases, List,
  get_or, ltb, ltb→lt, ◌==◌, ==→ne, arith,
}
use dvida_oxide.Ext2.Blocks.Tree.{pointer}
use dvida_oxide.Ext2.Blocks.Reading.{file_block}
use dvida_oxide.Ext2.Setting.Tree.{Level, Content, Leads, IsTree, slot, pointer-slot}

module _ (level : Level) (c : Content) (level' : Level) (c' : Content) (tree : IsTree level c)
    (pointers : (n k offset : ℕ)
      → level n ≡ suc k
      → k < 3
      → offset < 256
      → slot c n offset ≢ 0
      → slot c' n offset ≡ slot c n offset) where
  root_there : (n o : ℕ) → pointer c n (o * 4) ≢ 0 → n ≢ 0
  root_there n o h e = h (rw e refl)

  pointer-Leads :
      (n k o : ℕ)
      → k < 3
      → o < 256
      → n ≢ 0
      → Leads level (suc k) n
      → Leads level k (pointer c n (o * 4))
  pointer-Leads n k o low inside z (inl e) = absurd (z e)
  pointer-Leads n k o low inside z (inr e) =
      subst (Leads level k) (sym (pointer-slot c n o z)) (tree.points n k o e low inside)

  pointer-kept :
      (n k o : ℕ)
      → k < 3
      → o < 256
      → Leads level (suc k) n
      → pointer c n (o * 4) ≢ 0
      → pointer c' n (o * 4) ≡ pointer c n (o * 4)
  pointer-kept n k o low inside (inl e) h = absurd (root_there n o h e)
  pointer-kept n k o low inside (inr e) h =
      let z : n ≢ 0 = root_there n o h in
      pointer-slot c' n o z
      ∙ pointers n k o e low inside (λ q. h (pointer-slot c n o z ∙ q))
      ∙ sym (pointer-slot c n o z)

  double-kept :
      (n k o2 o1 : ℕ)
      → suc k < 3
      → o2 < 256
      → o1 < 256
      → Leads level (suc (suc k)) n
      → pointer c (pointer c n (o2 * 4)) (o1 * 4) ≢ 0
      → pointer c' (pointer c' n (o2 * 4)) (o1 * 4) ≡ pointer c (pointer c n (o2 * 4)) (o1 * 4)
  double-kept n k o2 o1 low inside2 inside1 l h =
      let q : ℕ = pointer c n (o2 * 4) in
      let z : q ≢ 0 = root_there q o1 h in
      ap (λ t. pointer c' t (o1 * 4)) (pointer-kept n (suc k) o2 low inside2 l z)
      ∙ pointer-kept q k o1 (omega arith) inside1
          (pointer-Leads n (suc k) o2 low inside2 (root_there n o2 z) l) h

  triple-kept :
      (n o3 o2 o1 : ℕ)
      → o3 < 256
      → o2 < 256
      → o1 < 256
      → Leads level 3 n
      → pointer c (pointer c (pointer c n (o3 * 4)) (o2 * 4)) (o1 * 4) ≢ 0
      → pointer c' (pointer c' (pointer c' n (o3 * 4)) (o2 * 4)) (o1 * 4)
        ≡ pointer c (pointer c (pointer c n (o3 * 4)) (o2 * 4)) (o1 * 4)
  triple-kept n o3 o2 o1 inside3 inside2 inside1 l h =
      let r : ℕ = pointer c n (o3 * 4) in
      let zr : r ≢ 0 = root_there r o2 (root_there (pointer c r (o2 * 4)) o1 h) in
      ap (λ t. pointer c' (pointer c' t (o2 * 4)) (o1 * 4))
        (pointer-kept n 2 o3 (omega arith) inside3 l zr)
      ∙ double-kept r 0 o2 o1 (omega arith) inside2 inside1
          (pointer-Leads n 2 o3 (omega arith) inside3 (root_there n o3 zr) l) h

  pub file_block-kept :
      (blocks blocks' : List ℕ)
      → ((i : ℕ) → i < 15 → Leads level (i - 11) (get_or blocks i 0))
      → ((i : ℕ) → get_or blocks i 0 ≢ 0 → get_or blocks' i 0 ≡ get_or blocks i 0)
      → (j : ℕ) → j < 16843020
      → file_block c blocks j ≢ 0
      → file_block c' blocks' j ≡ file_block c blocks j
  file_block-kept blocks blocks' roots others j small h = elim (Bool-cases (ltb j 12)) [
    | inl e ↦ rw e (others j (λ q. h (rw e q)))
    | inr e ↦ elim (Bool-cases (ltb j 268)) [
      | inl f ↦
          let b : j < 268 = ltb→lt j 268 f in
          let z : pointer c (get_or blocks 12 0) ((j - 12) * 4) ≢ 0 = λ q. h (rw (e, f) q) in
          rw (e, f)
            (ap (λ t. pointer c' t ((j - 12) * 4)) (others 12 (root_there _ (j - 12) z))
              ∙ pointer-kept _ 0 (j - 12) (omega arith) (omega arith) (roots 12 (omega arith)) z)
      | inr f ↦ elim (Bool-cases (ltb j 65804)) [
        | inl g ↦
            let b : j < 65804 = ltb→lt j 65804 g in
            let i : ℕ = j - 268 in
            let z : pointer c (pointer c (get_or blocks 13 0) (i / 256 * 4)) (i % 256 * 4) ≢ 0 =
              λ q. h (rw (e, f, g) q) in
            rw (e, f, g)
              (ap (λ t. pointer c' (pointer c' t (i / 256 * 4)) (i % 256 * 4))
                  (others 13 (root_there _ (i / 256) (root_there _ (i % 256) z)))
                ∙ double-kept _ 0 (i / 256) (i % 256) (omega arith) (omega arith) (omega arith)
                    (roots 13 (omega arith)) z)
        | inr g ↦
            let i : ℕ = j - 65804 in
            let z : pointer c
                  (pointer c (pointer c (get_or blocks 14 0) (i / 65536 * 4)) (i / 256 % 256 * 4))
                  (i % 256 * 4)
                ≢ 0 =
              λ q. h (rw (e, f, g) q) in
            rw (e, f, g)
              (ap
                  (λ t.
                    pointer c' (pointer c' (pointer c' t (i / 65536 * 4)) (i / 256 % 256 * 4))
                      (i % 256 * 4))
                  (others 14 (
                    root_there _ (i / 65536)
                      (root_there _ (i / 256 % 256) (root_there _ (i % 256) z))))
                ∙ triple-kept _ (i / 65536) (i / 256 % 256) (i % 256) (omega arith) (omega arith)
                    (omega arith) (roots 14 (omega arith)) z)
      ]
    ]
  ]

module _ (level : Level) (c : Content) (tree : IsTree level c) where
  below :
      (n k o : ℕ) → k < 3 → o < 256 → Leads level (suc k) n → Leads level k (pointer c n (o * 4))
  below n k o low inside (inl e) = inl (rw e refl)
  below n k o low inside (inr e) = elim (Bool-cases (n == 0)) [
    | inl z ↦ inl (rw z refl)
    | inr z ↦
        subst (Leads level k) (sym (pointer-slot c n o (==→ne n 0 z)))
          (tree.points n k o e low inside)
  ]

  -- The blocks of a file hold data.
  pub file_block-Leads :
      (blocks : List ℕ)
      → ((i : ℕ) → i < 15 → Leads level (i - 11) (get_or blocks i 0))
      → (j : ℕ) → j < 16843020
      → Leads level 0 (file_block c blocks j)
  file_block-Leads blocks roots j small = elim (Bool-cases (ltb j 12)) [
    | inl e ↦ rw e (
        subst (λ k. Leads level k (get_or blocks j 0)) (omega (arith, ltb→lt j 12 e))
          (roots j (omega (arith, ltb→lt j 12 e))))
    | inr e ↦ elim (Bool-cases (ltb j 268)) [
      | inl f ↦
          rw (e, f)
            (below _ 0 (j - 12) (omega arith) (omega (arith, ltb→lt j 268 f))
              (roots 12 (omega arith)))
      | inr f ↦ elim (Bool-cases (ltb j 65804)) [
        | inl g ↦
            let small2 : j < 65804 = ltb→lt j 65804 g in
            rw (e, f, g)
              (below _ 0 ((j - 268) % 256) (omega arith) (omega arith)
                (below _ 1 ((j - 268) / 256) (omega arith) (omega arith) (roots 13 (omega arith))))
        | inr g ↦
            rw (e, f, g)
              (below _ 0 ((j - 65804) % 256) (omega arith) (omega arith) (
                below _ 1 ((j - 65804) / 256 % 256) (omega arith) (omega arith) (
                  below _ 2 ((j - 65804) / 65536) (omega arith) (omega arith)
                    (roots 14 (omega arith)))))
      ]
    ]
  ]
