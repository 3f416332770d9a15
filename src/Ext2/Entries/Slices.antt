-- ===== src/Ext2/Entries/Slices.antt =====
-- The bytes of a buffer in which a slice was written over.
use dvida_oxide.Prelude.{
  ℕ, zero, suc, ◌+◌, ◌-◌, ◌/◌, ◌%◌, ◌^◌, ◌≤◌, ◌<◌, ◌≡◌, ◌⊎◌, inl, inr, refl, ap, sym, ◌∙◌, [], ◌∷◌,
  ◌++◌, length, get_or, set, take, drop, length-append, length-take, length-set, get_or-set_self,
  get_or-set_ne, lt→ltb, arith,
}
use dvida_oxide.Ext2.{Bytes, done}
use dvida_oxide.Ext2.Entries.{put_name, put_u16, u16_of}

pub get_or-append_low :
    (xs ys : Bytes) (j : ℕ) → j < length xs → get_or (xs ++ ys) j 0 ≡ get_or xs j 0
get_or-append_low [] ys j h = absurd (omega arith)
get_or-append_low (x ∷ xs) ys zero h = refl
get_or-append_low (x ∷ xs) ys (suc j) h = get_or-append_low xs ys j (omega arith)

pub get_or-append_high :
    (xs ys : Bytes) (j : ℕ) → get_or (xs ++ ys) (length xs + j) 0 ≡ get_or ys j 0
get_or-append_high [] ys j = ap (λ k. get_or ys k 0) {x = 0 + j} {y = j} (omega arith)
get_or-append_high (x ∷ xs) ys j =
    ap (λ k. get_or (x ∷ xs ++ ys) k 0) {y = suc (length xs + j)} (omega arith)
    ∙ get_or-append_high xs ys j

pub get_or-take : (n : ℕ) (xs : Bytes) (j : ℕ) → j < n → get_or (take n xs) j 0 ≡ get_or xs j 0
get_or-take zero xs j h = absurd (omega arith)
get_or-take (suc n) [] j h = refl
get_or-take (suc n) (x ∷ xs) zero h = refl
get_or-take (suc n) (x ∷ xs) (suc j) h = get_or-take n xs j (omega arith)

pub get_or-drop : (n : ℕ) (xs : Bytes) (j : ℕ) → get_or (drop n xs) j 0 ≡ get_or xs (n + j) 0
get_or-drop zero xs j = ap (λ k. get_or xs k 0) {x = j} {y = 0 + j} (omega arith)
get_or-drop (suc n) [] j = refl
get_or-drop (suc n) (x ∷ xs) j =
    get_or-drop n xs j ∙ ap (λ k. get_or (x ∷ xs) k 0) {x = suc (n + j)} (omega arith)

module _ (at : ℕ) (buf slice : Bytes) (inside : at ≤ length buf)
    (whole : length slice ≡ length buf - at) where
  pub length-splice : length (take at buf ++ slice) ≡ length buf
  length-splice = length-append (take at buf) slice ∙ omega (arith, length-take at buf, whole)

  front : length (take at buf) ≡ at
  front = omega (arith, length-take at buf)

  pub get_or-splice_low : (j : ℕ) → j < at → get_or (take at buf ++ slice) j 0 ≡ get_or buf j 0
  get_or-splice_low j h =
      get_or-append_low (take at buf) slice j (omega (arith, front)) ∙ get_or-take at buf j h

  pub get_or-splice_high : (j : ℕ) → get_or (take at buf ++ slice) (at + j) 0 ≡ get_or slice j 0
  get_or-splice_high j =
      ap (λ k. get_or (take at buf ++ slice) (k + j) 0) (sym front)
      ∙ get_or-append_high (take at buf) slice j

-- The bytes of a name go to their places, and the others stay.
pub record Named (name : Bytes) (i : ℕ) (target after : Bytes) : Type 0 where
  pub whole : length after ≡ length target
  pub inside : (t : ℕ) → t < length name → get_or after (i + t) 0 ≡ get_or name t 0
  pub outside : (j : ℕ) → (j < i) ⊎ (i + length name ≤ j) → get_or after j 0 ≡ get_or target j 0

one_more :
    (b : ℕ) (name : Bytes) (i : ℕ) (target after : Bytes)
    → i < length target
    → Named name (i + 1) (set target i b) after
    → Named (b ∷ name) i target after
one_more b name i target after fits N = record {
  whole = N.whole ∙ length-set target i b;
  inside = inside;
  outside = λ j k. N.outside j (apart j k) ∙ get_or-set_ne target i j b 0 (λ e. differ j k e);
}
  where
    apart :
        (j : ℕ) → (j < i) ⊎ (i + suc (length name) ≤ j) → (j < i + 1) ⊎ (i + 1 + length name ≤ j)
    apart j (inl h) = inl (omega arith)
    apart j (inr h) = inr (omega arith)

    differ : (j : ℕ) → (j < i) ⊎ (i + suc (length name) ≤ j) → i ≡ j → ⊥
    differ j (inl h) e = omega arith
    differ j (inr h) e = omega arith

    inside : (t : ℕ) → t < suc (length name) → get_or after (i + t) 0 ≡ get_or (b ∷ name) t 0
    inside zero h =
        ap (λ k. get_or after k 0) {y = i} (omega arith)
        ∙ N.outside i (inl (omega arith))
        ∙ get_or-set_self target i b 0 fits
    inside (suc t) h =
        ap (λ k. get_or after k 0) {y = i + 1 + t} (omega arith) ∙ N.inside t (omega arith)

pub put_name-Named :
    (name : Bytes) (i : ℕ) (target : Bytes)
    → i + length name ≤ length target
    → (after : Bytes) × (put_name name i target ≡ (done tt, after)) × Named name i target after
unfolding put_name
put_name-Named [] i target h = (
  target,
  refl,
  record { whole = refl; inside = λ t k. absurd (omega arith); outside = λ j k. refl },
)
put_name-Named (b ∷ name) i target h =
    let (after, goes, N) =
      put_name-Named name (i + 1) (set target i b) (omega (arith, length-set target i b)) in
    (
      after,
      rw (lt→ltb i (length target) (omega arith)) goes,
      one_more b name i target after (omega arith) N,
    )

pub length-put_u16 : (buf : Bytes) (o n : ℕ) → length (put_u16 buf o n) ≡ length buf
unfolding put_u16
length-put_u16 buf o n = length-set _ (o + 1) _ ∙ length-set buf o _

pub put_u16-other :
    (buf : Bytes) (o n j : ℕ)
    → (j < o) ⊎ (o + 2 ≤ j)
    → get_or (put_u16 buf o n) j 0 ≡ get_or buf j 0
unfolding put_u16
put_u16-other buf o n j h =
    get_or-set_ne _ (o + 1) j _ 0 (λ p. apart h (omega arith) (omega arith))
    ∙ get_or-set_ne buf o j _ 0 (λ p. apart h (omega arith) (omega arith))
  where
    apart : (j < o) ⊎ (o + 2 ≤ j) → o ≤ j → j < o + 2 → ⊥
    apart (inl l) a b = omega arith
    apart (inr l) a b = omega arith

pub u16_of-put_u16 :
    (buf : Bytes) (o n : ℕ) → o + 1 < length buf → n < 2 ^ 16 → u16_of (put_u16 buf o n) o ≡ n
unfolding put_u16
u16_of-put_u16 buf o n fits small = omega (
  arith,
  get_or-set_ne (set buf o (n % 256)) (o + 1) o (n / 256) 0 (λ p. omega arith),
  get_or-set_self buf o (n % 256) 0 (omega arith),
  get_or-set_self (set buf o (n % 256)) (o + 1) (n / 256) 0
      (omega (arith, length-set buf o (n % 256))),
)
