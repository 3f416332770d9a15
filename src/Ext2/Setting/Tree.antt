-- ===== src/Ext2/Setting/Tree.antt =====
-- The blocks of the drive by their level: 0 for data, 1 to 3 for indirect blocks, 4 for blocks that are
-- free. How a new block and a new pointer change them.
use dvida_oxide.Prelude.{
  ℕ, suc, ◌*◌, ◌^◌, ◌<◌, ◌≡◌, refl, sym, ap, subst, ◌∙◌, ◌≢◌, ◌⊎◌, inl, inr, Bool-cases,
  if◌then◌else◌, ◌==◌, ==→eq, ==→ne, ne→==, ==_refl, length, arith,
}
use native.Mathlib.Decide.{dec_lt}
use dvida_oxide.Ext2.{Bytes}
use dvida_oxide.Ext2.Blocks.Tree.{number_at, pointer}
use dvida_oxide.Ext2.Setting.{put_u32}
use dvida_oxide.Ext2.Setting.Pointers.{length-put_u32, number_at-put_u32, number_at-put_u32_other}

abbrev pub Level : Type 0
Level = ℕ → ℕ

abbrev pub Content : Type 0
Content = ℕ → Bytes

abbrev pub free : ℕ
free = 4

-- A pointer is missing or leads to a block of the level below.
abbrev pub Leads : Level → ℕ → ℕ → Type 0
Leads level k p = (p ≡ 0) ⊎ (level p ≡ k)

abbrev pub slot : Content → ℕ → ℕ → ℕ
slot content n offset = number_at (content n) (offset * 4)

pub record IsTree (level : Level) (content : Content) : Type 0 where
  pub whole : (n : ℕ) → length (content n) ≡ 1024
  pub points :
      (n k offset : ℕ)
      → level n ≡ suc k
      → k < 3
      → offset < 256
      → Leads level k (slot content n offset)

-- Blocks in use keep their level, pointers that are there their block, and data their bytes.
pub record Extends (level : Level) (content : Content) (level' : Level) (content' : Content)
    : Type 0 where
  pub levels : (n : ℕ) → level n ≢ free → level' n ≡ level n
  pub pointers :
      (n k offset : ℕ)
      → level n ≡ suc k
      → k < 3
      → offset < 256
      → slot content n offset ≢ 0
      → slot content' n offset ≡ slot content n offset
  pub data_kept : (n : ℕ) → level n ≡ 0 → content' n ≡ content n

pub Extends-refl : (level : Level) (content : Content) → Extends level content level content
Extends-refl level content = record {
  levels = λ n h. refl;
  pointers = λ n k o h l m s. refl;
  data_kept = λ n h. refl;
}

pub Extends-trans :
    (l1 : Level) (c1 : Content) (l2 : Level) (c2 : Content) (l3 : Level) (c3 : Content)
    → Extends l1 c1 l2 c2
    → Extends l2 c2 l3 c3
    → Extends l1 c1 l3 c3
Extends-trans l1 c1 l2 c2 l3 c3 e f = record {
  levels = λ n h. let k : l2 n ≡ l1 n = e.levels n h in f.levels n (λ q. h (sym k ∙ q)) ∙ k;
  pointers = λ n k o h lt m s.
      let h2 : l2 n ≡ suc k = e.levels n (λ q. omega (arith, h, q)) ∙ h in
      let p : slot c2 n o ≡ slot c1 n o = e.pointers n k o h lt m s in
      f.pointers n k o h2 lt m (λ q. s (sym p ∙ q)) ∙ p;
  data_kept = λ n h.
      let h2 : l2 n ≡ 0 = e.levels n (λ q. omega (arith, h, q)) ∙ h in
      f.data_kept n h2 ∙ e.data_kept n h;
}

abbrev pub taken : Level → ℕ → ℕ → Level
taken level g k n = if n == g then k else level n

pub taken_self : (level : Level) (g k : ℕ) → taken level g k g ≡ k
taken_self level g k = rw (==_refl g) refl

pub taken-other : (level : Level) (g k n : ℕ) → n ≢ g → taken level g k n ≡ level n
taken-other level g k n h = rw (ne→== n g h) refl

-- A block in use is not the free one.
pub in_use : (level : Level) (g n k : ℕ) → level g ≡ free → level n ≡ k → k < 4 → n ≢ g
in_use level g n k hg hn lt e = omega (arith, hg, hn, ap level e)

pub taken-Leads :
    (level : Level) (g k j p : ℕ)
    → level g ≡ free
    → j < 4
    → Leads level j p
    → Leads (taken level g k) j p
taken-Leads level g k j p hg lt (inl e) = inl e
taken-Leads level g k j p hg lt (inr e) =
    inr (taken-other level g k p (in_use level g p j hg e lt) ∙ e)

-- A free block comes into use; for a level above the data it holds no pointers.
module _ (level : Level) (c c' : Content) (g k : ℕ) (tree : IsTree level c)
    (is_free : level g ≡ free) (whole : length (c' g) ≡ 1024)
    (empty : (offset : ℕ) → 0 < k → slot c' g offset ≡ 0)
    (others : (n : ℕ) → n ≢ g → c' n ≡ c n) where
  pub seed-IsTree : IsTree (taken level g k) c'
  seed-IsTree = record {
    whole = λ n. elim (Bool-cases (n == g)) [
      | inl e ↦ rw (==→eq n g e) whole
      | inr e ↦ ap length (others n (==→ne n g e)) ∙ tree.whole n
    ];
    points = λ n j o h lt m. elim (Bool-cases (n == g)) [
      | inl e ↦
          let eg : n ≡ g = ==→eq n g e in
          let kj : k ≡ suc j = sym (taken_self level g k) ∙ ap (taken level g k) (sym eg) ∙ h in
          inl (ap (λ t. slot c' t o) eg ∙ empty o (omega arith))
      | inr e ↦
          let ne : n ≢ g = ==→ne n g e in
          let hn : level n ≡ suc j = sym (taken-other level g k n ne) ∙ h in
          subst (λ b. Leads (taken level g k) j (number_at b (o * 4))) (sym (others n ne))
            (taken-Leads level g k j (slot c n o) is_free (omega arith) (tree.points n j o hn lt m))
    ];
  }

  pub seed-Extends : Extends level c (taken level g k) c'
  seed-Extends = record {
    levels = λ n h. taken-other level g k n (λ e. h (ap level e ∙ is_free));
    pointers = λ n j o h lt m s.
        ap (λ b. number_at b (o * 4)) (others n (in_use level g n (suc j) is_free h (omega arith)));
    data_kept = λ n h. others n (in_use level g n 0 is_free h (omega arith));
  }

-- A missing pointer of a block is set.
module _ (level : Level) (c c' : Content) (n k offset p : ℕ) (tree : IsTree level c)
    (at_level : level n ≡ suc k) (low : k < 3) (inside : offset < 256)
    (missing : slot c n offset ≡ 0) (target : level p ≡ k) (word : p < 2 ^ 32)
    (here : c' n ≡ put_u32 (c n) (offset * 4) p) (others : (m : ℕ) → m ≢ n → c' m ≡ c m) where
  pub link-slot : slot c' n offset ≡ p
  link-slot =
      ap (λ b. number_at b (offset * 4)) here
      ∙ number_at-put_u32 (c n) (offset * 4) p (omega (arith, tree.whole n)) word

  link-other : (o : ℕ) → o ≢ offset → slot c' n o ≡ slot c n o
  link-other o ne =
      ap (λ b. number_at b (o * 4)) here
      ∙ number_at-put_u32_other (c n) (offset * 4) p (o * 4)
          (elim (dec_lt o offset) [ yes l ↦ inl (omega arith) | no l ↦ inr (omega arith) ])

  pub link-IsTree : IsTree level c'
  link-IsTree = record {
    whole = λ m. elim (Bool-cases (m == n)) [
      | inl e ↦
          ap (λ t. length (c' t)) (==→eq m n e)
          ∙ ap length here
          ∙ length-put_u32 (c n) (offset * 4) p
          ∙ tree.whole n
      | inr e ↦ ap length (others m (==→ne m n e)) ∙ tree.whole m
    ];
    points = λ m j o h lt i. elim (Bool-cases (m == n)) [
      | inl e ↦
          let em : m ≡ n = ==→eq m n e in
          let jk : suc j ≡ suc k = sym h ∙ ap level em ∙ at_level in
          subst (λ t. Leads level j (slot c' t o)) (sym em)
            (elim (Bool-cases (o == offset)) [
              | inl eo ↦ inr (
                  ap level (ap (slot c' n) (==→eq o offset eo) ∙ link-slot)
                  ∙ target
                  ∙ omega (arith, jk))
              | inr eo ↦
                  subst (Leads level j) (sym (link-other o (==→ne o offset eo)))
                    (tree.points n j o (at_level ∙ sym jk) lt i)
            ])
      | inr e ↦
          subst (λ b. Leads level j (number_at b (o * 4))) (sym (others m (==→ne m n e)))
            (tree.points m j o h lt i)
    ];
  }

  pub link-Extends : Extends level c level c'
  link-Extends = record {
    levels = λ m h. refl;
    pointers = λ m j o h lt i s. elim (Bool-cases (m == n)) [
      | inl e ↦
          let em : m ≡ n = ==→eq m n e in
          ap (λ t. slot c' t o) em
          ∙ link-other o (λ eo. s (ap (λ t. slot c t o) em ∙ ap (slot c n) eo ∙ missing))
          ∙ ap (λ t. slot c t o) (sym em)
      | inr e ↦ ap (λ b. number_at b (o * 4)) (others m (==→ne m n e))
    ];
    data_kept = λ m h. others m (λ e. omega (arith, h, at_level, ap level e));
  }

-- A free block comes into use below a block whose pointer to it was missing.
module _ (level : Level) (c : Content) (n k offset g : ℕ) (z : Bytes) (tree : IsTree level c)
    (at_level : level n ≡ suc k) (low : k < 3) (inside : offset < 256)
    (missing : slot c n offset ≡ 0) (is_free : level g ≡ free) (word : g < 2 ^ 32)
    (whole : length z ≡ 1024) (empty : (o : ℕ) → 0 < k → number_at z (o * 4) ≡ 0) where
  abbrev seeded : Content
  seeded m = if m == g then z else c m

  abbrev pub grafted : Content
  grafted m = if m == n then put_u32 (c n) (offset * 4) g else seeded m

  apart : n ≢ g
  apart = in_use level g n (suc k) is_free at_level (omega arith)

  seeded-new : seeded g ≡ z
  seeded-new = rw (==_refl g) refl

  seeded-other : (m : ℕ) → m ≢ g → seeded m ≡ c m
  seeded-other m h = rw (ne→== m g h) refl

  pub graft-here : grafted n ≡ put_u32 (c n) (offset * 4) g
  graft-here = rw (==_refl n) refl

  pub graft-new : grafted g ≡ z
  graft-new = rw (ne→== g n (λ e. apart (sym e))) seeded-new

  pub graft-other : (m : ℕ) → m ≢ n → m ≢ g → grafted m ≡ c m
  graft-other m h k = rw (ne→== m n h) (seeded-other m k)

  after_seed-IsTree : IsTree (taken level g k) seeded
  after_seed-IsTree =
      seed-IsTree level c seeded g k tree is_free (ap length seeded-new ∙ whole)
        (λ o p. ap (λ b. number_at b (o * 4)) seeded-new ∙ empty o p) seeded-other

  after_seed-Extends : Extends level c (taken level g k) seeded
  after_seed-Extends =
      seed-Extends level c seeded g k tree is_free (ap length seeded-new ∙ whole)
        (λ o p. ap (λ b. number_at b (o * 4)) seeded-new ∙ empty o p) seeded-other

  link_level : taken level g k n ≡ suc k
  link_level = taken-other level g k n apart ∙ at_level

  link_missing : slot seeded n offset ≡ 0
  link_missing = ap (λ b. number_at b (offset * 4)) (seeded-other n apart) ∙ missing

  link_here : grafted n ≡ put_u32 (seeded n) (offset * 4) g
  link_here = graft-here ∙ ap (λ b. put_u32 b (offset * 4) g) (sym (seeded-other n apart))

  link_others : (m : ℕ) → m ≢ n → grafted m ≡ seeded m
  link_others m h = rw (ne→== m n h) refl

  pub graft-IsTree : IsTree (taken level g k) grafted
  graft-IsTree =
      link-IsTree (taken level g k) seeded grafted n k offset g after_seed-IsTree link_level low
        inside link_missing (taken_self level g k) word link_here link_others

  pub graft-slot : slot grafted n offset ≡ g
  graft-slot =
      link-slot (taken level g k) seeded grafted n k offset g after_seed-IsTree link_level low
        inside link_missing (taken_self level g k) word link_here link_others

  pub graft-Extends : Extends level c (taken level g k) grafted
  graft-Extends =
      Extends-trans level c (taken level g k) seeded (taken level g k) grafted after_seed-Extends (
        link-Extends (taken level g k) seeded grafted n k offset g after_seed-IsTree link_level low
          inside link_missing (taken_self level g k) word link_here link_others)

-- The pointer as a reader sees it.
pub pointer-slot : (c : Content) (n o : ℕ) → n ≢ 0 → pointer c n (o * 4) ≡ slot c n o
pointer-slot c n o h = rw (ne→== n 0 h) refl
