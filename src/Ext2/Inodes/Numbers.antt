-- ===== src/Ext2/Inodes/Numbers.antt =====
-- kernel/src/drivers/fs/ext2/inode.rs: the number of an inode, and its place in the table of a group.
use dvida_oxide.Prelude.{ℕ, ◌+◌, ◌*◌, ◌/◌, ◌%◌, ◌^◌, ◌<◌, ◌≡◌, ap, ap₂, sym, ◌∙◌, arith}
use native.Mathlib.Nat.{div-add-mod}
use dvida_oxide.Ext2.Inodes.{sector_offset, byte_offset, before}

pub one_place :
    (i j a b : ℕ)
    → a ≡ b
    → byte_offset i ≡ byte_offset j
    → a + sector_offset i ≡ b + sector_offset j
    → i ≡ j
one_place i j a b h bytes e = omega arith

module _ (per_group : ℕ) where
  -- The group of a number, and the place in the group.
  abbrev pub group : ℕ → ℕ
  group n = before per_group n / per_group

  abbrev pub place : ℕ → ℕ
  place n = before per_group n % per_group

  pub split : (n : ℕ) → per_group * group n + place n ≡ before per_group n
  split n = div-add-mod (before per_group n) per_group

  pub before-number : (n : ℕ) → 0 < n → n < 2 ^ 32 → before per_group n + 1 ≡ n
  before-number n first word = omega arith

  pub same_number :
      (m n : ℕ)
      → 0 < m
      → m < 2 ^ 32
      → 0 < n
      → n < 2 ^ 32
      → group m ≡ group n
      → place m ≡ place n
      → m ≡ n
  same_number m n fm wm fn wn g i =
      sym (before-number m fm wm)
      ∙ ap (λ b. b + 1) (sym (split m) ∙ ap₂ (λ g i. per_group * g + i) g i ∙ split n)
      ∙ before-number n fn wn
