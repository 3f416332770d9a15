-- ===== src/Prelude/Words.antt =====
-- The binary digits of a number, and what the bit operations do to them.
use dvida_oxide.Prelude.{
  ℕ, zero, suc, ◌+◌, ◌-◌, ◌*◌, ◌/◌, ◌%◌, ◌^◌, ◌≤◌, ◌<◌, ◌≡◌, refl, ap, ◌∙◌, sym, ◌≢◌, min, max,
  bit_and, bit_or, ◌==◌, ==→eq, ==→ne, Bool-cases, inl, inr, arith,
}
use Prim.Native.Nat.{digits, bitwise, bit_and-bitwise, bit_or-bitwise}

abbrev pub bit : ℕ → ℕ → ℕ
bit n zero = n % 2
bit n (suc j) = bit (n / 2) j

pub bit-lt : (n j : ℕ) → bit n j < 2
bit-lt n zero = omega arith
bit-lt n (suc j) = bit-lt (n / 2) j

-- An operation digit by digit; `z` is its result where the first number has run out.
module _ (z : ℕ → ℕ) (f : ℕ → ℕ → ℕ) (run_out : (b : ℕ) → z b ≡ z (b / 2) * 2 + f 0 (b % 2)) where
  one_more : (k x y : ℕ) → x ≤ k → digits z f (suc k) x y ≡ digits z f k x y
  one_more zero zero y small = refl
  one_more (suc k) zero y small = refl
  one_more zero (suc x) y small = absurd (omega arith)
  one_more (suc k) (suc x) y small =
      ap (λ rest. rest * 2 + f (suc x % 2) (y % 2)) (one_more k (suc x / 2) (y / 2) (omega arith))

  enough : (k x y : ℕ) → x ≤ k → digits z f k x y ≡ bitwise z f x y
  enough zero zero y small = refl
  enough zero (suc x) y small = absurd (omega arith)
  enough (suc k) x y small = elim (Bool-cases (x == suc k)) [
    | inl same ↦ ap (λ j. digits z f j x y) (sym (==→eq x (suc k) same))
    | inr less ↦
        let below : x ≤ k = omega (arith, small, ==→ne x (suc k) less) in
        one_more k x y below ∙ enough k x y below
  ]

  pub by_digits : (x y : ℕ) → bitwise z f x y ≡ bitwise z f (x / 2) (y / 2) * 2 + f (x % 2) (y % 2)
  by_digits zero y = run_out y
  by_digits (suc x) y =
      ap (λ rest. rest * 2 + f (suc x % 2) (y % 2)) (enough x (suc x / 2) (y / 2) (omega arith))

and_by_digits : (a b : ℕ) → bit_and a b ≡ bit_and (a / 2) (b / 2) * 2 + min (a % 2) (b % 2)
and_by_digits a b =
    bit_and-bitwise a b
    ∙ by_digits (λ y. 0) min (λ y. omega arith) a b
    ∙ ap (λ t. t * 2 + min (a % 2) (b % 2)) (sym (bit_and-bitwise (a / 2) (b / 2)))

or_by_digits : (a b : ℕ) → bit_or a b ≡ bit_or (a / 2) (b / 2) * 2 + max (a % 2) (b % 2)
or_by_digits a b =
    bit_or-bitwise a b
    ∙ by_digits (λ y. y) max (λ y. omega arith) a b
    ∙ ap (λ t. t * 2 + max (a % 2) (b % 2)) (sym (bit_or-bitwise (a / 2) (b / 2)))

pub bit-bit_and : (a b j : ℕ) → bit (bit_and a b) j ≡ min (bit a j) (bit b j)
bit-bit_and a b zero = omega (arith, and_by_digits a b)
bit-bit_and a b (suc j) =
    let half : bit_and a b / 2 ≡ bit_and (a / 2) (b / 2) = omega (arith, and_by_digits a b) in
    ap (λ t. bit t j) half ∙ bit-bit_and (a / 2) (b / 2) j

pub bit-bit_or : (a b j : ℕ) → bit (bit_or a b) j ≡ max (bit a j) (bit b j)
bit-bit_or a b zero = omega (arith, or_by_digits a b)
bit-bit_or a b (suc j) =
    let half : bit_or a b / 2 ≡ bit_or (a / 2) (b / 2) = omega (arith, or_by_digits a b) in
    ap (λ t. bit t j) half ∙ bit-bit_or (a / 2) (b / 2) j

pub zero_bit : (j : ℕ) → bit 0 j ≡ 0
zero_bit zero = refl
zero_bit (suc j) = zero_bit j

pub bit_power_self : (i : ℕ) → bit (2 ^ i) i ≡ 1
bit_power_self zero = refl
bit_power_self (suc i) =
    let half : 2 ^ suc i / 2 ≡ 2 ^ i = omega arith in ap (λ t. bit t i) half ∙ bit_power_self i

pub bit_power_other : (i j : ℕ) → i ≢ j → bit (2 ^ i) j ≡ 0
bit_power_other zero zero h = absurd (h refl)
bit_power_other zero (suc j) h = zero_bit j
bit_power_other (suc i) zero h = omega arith
bit_power_other (suc i) (suc j) h =
    let half : 2 ^ suc i / 2 ≡ 2 ^ i = omega arith in
    ap (λ t. bit t j) half ∙ bit_power_other i j (λ e. h (ap suc e))

-- The complement in a word of `w` bits.
pub bit-complement : (w n j : ℕ) → n < 2 ^ w → j < w → bit (2 ^ w - 1 - n) j ≡ 1 - bit n j
bit-complement zero n j p q = absurd (omega arith)
bit-complement (suc w) n zero p q = omega arith
bit-complement (suc w) n (suc j) p q =
    let half : (2 ^ suc w - 1 - n) / 2 ≡ 2 ^ w - 1 - n / 2 = omega arith in
    ap (λ t. bit t j) half ∙ bit-complement w (n / 2) j (omega arith) (omega arith)

pub power_lt : (i w : ℕ) → i < w → 2 ^ i < 2 ^ w
power_lt i zero h = absurd (omega arith)
power_lt zero (suc w) h = let positive : 0 < 2 ^ w = power_positive w in omega (arith, positive)
  where
    power_positive : (w : ℕ) → 0 < 2 ^ w
    power_positive zero = omega arith
    power_positive (suc w) = omega (arith, power_positive w)
power_lt (suc i) (suc w) h =
    let below : 2 ^ i < 2 ^ w = power_lt i w (omega arith) in omega (arith, below)

-- The lowest bits are kept, and a number is rounded down to a multiple of four.
bit_and_ones : (k a : ℕ) → a < 2 ^ k → bit_and a (2 ^ k - 1) ≡ a
bit_and_ones zero a h = let none : a ≡ 0 = omega arith in ap (λ n. bit_and n 0) none ∙ sym none
bit_and_ones (suc k) a h =
    let rest : bit_and (a / 2) (2 ^ k - 1) ≡ a / 2 = bit_and_ones k (a / 2) (omega arith) in
    let half : (2 ^ suc k - 1) / 2 ≡ 2 ^ k - 1 = omega arith in
    let low : (2 ^ suc k - 1) % 2 ≡ 1 = omega arith in
    and_by_digits a (2 ^ suc k - 1)
    ∙ ap (λ h. bit_and (a / 2) h * 2 + min (a % 2) ((2 ^ suc k - 1) % 2)) half
    ∙ omega (arith, rest, low)

pub bit_and_round : (a : ℕ) → a < 2 ^ 16 → bit_and a 65532 ≡ a / 4 * 4
bit_and_round a h = omega (
  arith,
  and_by_digits a 65532,
  and_by_digits (a / 2) 32766,
  bit_and_ones 14 (a / 2 / 2) (omega arith),
)
