-- ===== src/Prelude/Bytes.antt =====
-- Single bits of a byte, by the bit operations of the source: a test `b & (1 << k)`, a set
-- `b | (1 << k)` and a clear `b & !(1 << k)`. The laws are checked over all bytes.
use dvida_oxide.Prelude.{
  ℕ, zero, suc, ◌-◌, ◌^◌, ◌<◌, ◌≡◌, refl, Bool, true, false, not, ◌&&◌, ◌||◌, bit_and, bit_or, ◌==◌,
  if◌then◌else◌, leb, arith,
}

abbrev pub bit_test : ℕ → ℕ → Bool
bit_test b k = not (bit_and b (2 ^ k) == 0)

abbrev pub bit_set : ℕ → ℕ → ℕ
bit_set b k = bit_or b (2 ^ k)

-- `!` of a byte is its complement to 255.
abbrev pub bit_clear : ℕ → ℕ → ℕ
bit_clear b k = bit_and b (255 - 2 ^ k)

unfoldable pub all_below : ℕ → (ℕ → Bool) → Bool
all_below zero p = true
all_below (suc n) p = p n && all_below n p

pub all_below_lem : (n : ℕ) (p : ℕ → Bool) (x : ℕ) → all_below n p ≡ true → x < n → p x ≡ true
unfolding all_below
all_below_lem zero p x h lt = absurd (omega arith)
all_below_lem (suc n) p x h lt = ground (arith, all_below_lem n p x)

abbrev same : Bool → Bool → Bool
same true b = b
same false b = not b

same→eq : (a b : Bool) → same a b ≡ true → a ≡ b
same→eq a b h = ground arith

-- For every byte `b` and bits `j`, `k`.
for_bits : (ℕ → ℕ → ℕ → Bool) → Bool
unfolding all_below
for_bits p = all_below 256 (λ b. all_below 8 (λ k. all_below 8 (λ j. p b k j)))

for_bits_lem :
    (p : ℕ → ℕ → ℕ → Bool) (b k j : ℕ)
    → for_bits p ≡ true
    → b < 256
    → k < 8
    → j < 8
    → p b k j ≡ true
unfolding for_bits
for_bits_lem p b k j h hb hk hj =
    all_below_lem 8 (p b k) j
      (all_below_lem 8 (λ x. all_below 8 (p b x)) k
        (all_below_lem 256 (λ x. all_below 8 (λ y. all_below 8 (p x y))) b h hb) hk)
      hj

-- What a bit test sees after a set and after a clear.
after_write : ℕ → ℕ → ℕ → Bool
after_write b k j =
    same (bit_test (bit_set b k) j) (j == k || bit_test b j)
    && same (bit_test (bit_clear b k) j) (not (j == k) && bit_test b j)

-- The results are bytes, a clear undoes a set of a bit that was off, and a full byte is 255.
in_range : ℕ → ℕ → ℕ → Bool
in_range b k j =
    leb (bit_set b k) 255
    && leb (bit_clear b k) 255
    && (if bit_test b k then true else bit_clear (bit_set b k) k == b)
    && (if b == 255 then bit_test b j else true)
    && (if b == 0 then not (bit_test b j) else true)

after_write_table : for_bits after_write ≡ true
unfolding for_bits after_write
after_write_table = refl

in_range_table : for_bits in_range ≡ true
unfolding for_bits in_range
in_range_table = refl

module _ (b k : ℕ) (hb : b < 256) (hk : k < 8) where
  pub bit_test-bit_set : (j : ℕ) → j < 8 → bit_test (bit_set b k) j ≡ (j == k || bit_test b j)
  unfolding after_write
  bit_test-bit_set j hj = ground (arith, for_bits_lem after_write b k j after_write_table hb hk hj)

  pub bit_test-bit_clear :
      (j : ℕ) → j < 8 → bit_test (bit_clear b k) j ≡ (not (j == k) && bit_test b j)
  unfolding after_write
  bit_test-bit_clear j hj =
      ground (arith, for_bits_lem after_write b k j after_write_table hb hk hj)

  pub bit_set-lt : bit_set b k < 256
  unfolding in_range
  bit_set-lt = ground (arith, for_bits_lem in_range b k 0 in_range_table hb hk)

  pub bit_clear-lt : bit_clear b k < 256
  unfolding in_range
  bit_clear-lt = ground (arith, for_bits_lem in_range b k 0 in_range_table hb hk)

  pub bit_clear-bit_set : bit_test b k ≡ false → bit_clear (bit_set b k) k ≡ b
  unfolding in_range
  bit_clear-bit_set off = ground (arith, for_bits_lem in_range b k 0 in_range_table hb hk)

pub bit_test_full : (k : ℕ) → k < 8 → bit_test 255 k ≡ true
unfolding in_range
bit_test_full k hk = ground (arith, for_bits_lem in_range 255 0 k in_range_table)

pub bit_test_zero : (k : ℕ) → k < 8 → bit_test 0 k ≡ false
unfolding in_range
bit_test_zero k hk = ground (arith, for_bits_lem in_range 0 0 k in_range_table)
