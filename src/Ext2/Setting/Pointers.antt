-- ===== src/Ext2/Setting/Pointers.antt =====
-- A pointer that is written into a block, and the pointers beside it.
use dvida_oxide.Prelude.{
  ℕ, zero, suc, ◌+◌, ◌/◌, ◌%◌, ◌^◌, ◌≤◌, ◌<◌, ◌≡◌, refl, ◌∙◌, ◌⊎◌, inl, inr, length, get_or, set,
  length-set, get_or-set_self, get_or-set_ne, replicate, arith,
}
use dvida_oxide.Ext2.{Bytes}
use dvida_oxide.Ext2.Blocks.Tree.{number_at}
use dvida_oxide.Ext2.Setting.{put_u32}

abbrev byte_of : ℕ → ℕ → ℕ
byte_of n zero = n % 256
byte_of n (suc zero) = n / 256 % 256
byte_of n (suc (suc zero)) = n / 65536 % 256
byte_of n _ = n / 16777216 % 256

pub length-put_u32 : (buf : Bytes) (o n : ℕ) → length (put_u32 buf o n) ≡ length buf
unfolding put_u32
length-put_u32 buf o n =
    length-set _ (o + 3) _ ∙ length-set _ (o + 2) _ ∙ length-set _ (o + 1) _ ∙ length-set buf o _

-- A byte outside the four keeps its place.
put_u32-other :
    (buf : Bytes) (o n i : ℕ)
    → (i < o) ⊎ (o + 4 ≤ i)
    → get_or (put_u32 buf o n) i 0 ≡ get_or buf i 0
unfolding put_u32
put_u32-other buf o n i h =
    get_or-set_ne _ (o + 3) i _ 0 (λ e. apart h (omega arith) (omega arith))
    ∙ get_or-set_ne _ (o + 2) i _ 0 (λ e. apart h (omega arith) (omega arith))
    ∙ get_or-set_ne _ (o + 1) i _ 0 (λ e. apart h (omega arith) (omega arith))
    ∙ get_or-set_ne buf o i _ 0 (λ e. apart h (omega arith) (omega arith))
  where
    apart : (i < o) ⊎ (o + 4 ≤ i) → o ≤ i → i < o + 4 → ⊥
    apart (inl l) a b = omega arith
    apart (inr l) a b = omega arith

module _ (buf : Bytes) (o n : ℕ) (room : o + 3 < length buf) where
  byte_0 : get_or (put_u32 buf o n) o 0 ≡ n % 256
  unfolding put_u32
  byte_0 =
      get_or-set_ne _ (o + 3) o _ 0 (λ e. omega arith)
      ∙ get_or-set_ne _ (o + 2) o _ 0 (λ e. omega arith)
      ∙ get_or-set_ne _ (o + 1) o _ 0 (λ e. omega arith)
      ∙ get_or-set_self buf o _ 0 (omega arith)

  byte_1 : get_or (put_u32 buf o n) (o + 1) 0 ≡ n / 256 % 256
  unfolding put_u32
  byte_1 =
      get_or-set_ne _ (o + 3) (o + 1) _ 0 (λ e. omega arith)
      ∙ get_or-set_ne _ (o + 2) (o + 1) _ 0 (λ e. omega arith)
      ∙ get_or-set_self _ (o + 1) _ 0 (omega (arith, length-set buf o (n % 256)))

  byte_2 : get_or (put_u32 buf o n) (o + 2) 0 ≡ n / 65536 % 256
  unfolding put_u32
  byte_2 =
      get_or-set_ne _ (o + 3) (o + 2) _ 0 (λ e. omega arith)
      ∙ get_or-set_self _ (o + 2) _ 0 (
          omega (
            arith,
            length-set buf o (n % 256),
            length-set (set buf o (n % 256)) (o + 1) (n / 256 % 256),
          ))

  byte_3 : get_or (put_u32 buf o n) (o + 3) 0 ≡ n / 16777216 % 256
  unfolding put_u32
  byte_3 = get_or-set_self _ (o + 3) _ 0 (
      omega (
        arith,
        length-set buf o (n % 256),
        length-set (set buf o (n % 256)) (o + 1) (n / 256 % 256),
        length-set (set (set buf o (n % 256)) (o + 1) (n / 256 % 256)) (o + 2) (n / 65536 % 256),
      ))

  pub number_at-put_u32 : n < 2 ^ 32 → number_at (put_u32 buf o n) o ≡ n
  unfolding number_at
  number_at-put_u32 h = rw (byte_0, byte_1, byte_2, byte_3) (omega arith)

pub number_at-put_u32_other :
    (buf : Bytes) (o n i : ℕ)
    → (i + 4 ≤ o) ⊎ (o + 4 ≤ i)
    → number_at (put_u32 buf o n) i ≡ number_at buf i
unfolding number_at
number_at-put_u32_other buf o n i h =
    rw
      (
        put_u32-other buf o n i (side i h (omega arith) (omega arith)),
        put_u32-other buf o n (i + 1) (side (i + 1) h (omega arith) (omega arith)),
        put_u32-other buf o n (i + 2) (side (i + 2) h (omega arith) (omega arith)),
        put_u32-other buf o n (i + 3) (side (i + 3) h (omega arith) (omega arith)),
      )
      refl
  where
    side : (j : ℕ) → (i + 4 ≤ o) ⊎ (o + 4 ≤ i) → i ≤ j → j < i + 4 → (j < o) ⊎ (o + 4 ≤ j)
    side j (inl l) a b = inl (omega arith)
    side j (inr l) a b = inr (omega arith)

pub get_or-zeros : (n i : ℕ) → ◌≡◌ {A = ℕ} (get_or (replicate n 0) i 0) 0
get_or-zeros zero i = refl
get_or-zeros (suc n) zero = refl
get_or-zeros (suc n) (suc i) = get_or-zeros n i

pub number_at-zeros : (n i : ℕ) → number_at (replicate n 0) i ≡ 0
unfolding number_at
number_at-zeros n i =
    rw (get_or-zeros n i, get_or-zeros n (i + 1), get_or-zeros n (i + 2), get_or-zeros n (i + 3))
      refl
