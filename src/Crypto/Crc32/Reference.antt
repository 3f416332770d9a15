-- ===== src/Crypto/Crc32/Reference.antt =====
-- The CRC-32 bit by bit, as its polynomial defines it.
use dvida_oxide.Prelude.{
  ℕ, zero, suc, ◌+◌, ◌*◌, ◌/◌, ◌%◌, ◌^◌, ◌<◌, ◌≡◌, refl, ap, ap₂, ◌∙◌, sym, ◌==◌, ==→eq, bit_xor,
  List, [], ◌∷◌, ◌++◌, All, true, arith,
}
use dvida_oxide.Prelude.Bytes.{all_below, all_below_lem}
use dvida_oxide.Prelude.Xor.{
  bit_xor-zero, zero-bit_xor, bit_xor_step, bit_xor-half, bit_xor-digit, bit_xor_middle, bit_xor-lt,
  bit_xor_assoc,
}
use dvida_oxide.Crypto.Crc32.{
  i_table, table_at, full_round, partial_round, full_loop, full_crc, partial_crc, is_verified_crc32,
}

abbrev polynomial : ℕ
polynomial = 0xEDB88320

abbrev if_odd : ℕ → ℕ
if_odd zero = 0
if_odd (suc n) = polynomial

-- One bit is shifted out, and if it is 1 the polynomial is subtracted.
pub shift : ℕ → ℕ
shift x = bit_xor (x / 2) (if_odd (x % 2))

pub shifts : ℕ → ℕ → ℕ
unfolding shift
shifts zero x = x
shifts (suc k) x = shifts k (shift x)

-- All bytes, each of them with its low bit first.
pub remainder : ℕ → List ℕ → ℕ
remainder crc [] = crc
remainder crc (byte ∷ s_data) = remainder (shifts 8 (bit_xor crc byte)) s_data

pub reference : List ℕ → ℕ
unfolding remainder
reference s_data = bit_xor (remainder 0xFFFFFFFF s_data) 0xFFFFFFFF

if_odd-xor : (a b : ℕ) → a < 2 → b < 2 → if_odd ((a + b) % 2) ≡ bit_xor (if_odd a) (if_odd b)
if_odd-xor zero b ha hb =
    let e : (0 + b) % 2 ≡ b = omega arith in rw e (sym (zero-bit_xor (if_odd b)))
if_odd-xor (suc zero) zero ha hb = refl
if_odd-xor (suc zero) (suc zero) ha hb = refl
if_odd-xor (suc zero) (suc (suc b)) ha hb = absurd (omega arith)
if_odd-xor (suc (suc a)) b ha hb = absurd (omega arith)

shift-xor : (a b : ℕ) → shift (bit_xor a b) ≡ bit_xor (shift a) (shift b)
unfolding shift
shift-xor a b =
    ap₂ bit_xor (bit_xor-half a b)
      (ap if_odd (bit_xor-digit a b) ∙ if_odd-xor (a % 2) (b % 2) (omega arith) (omega arith))
    ∙ bit_xor_middle (a / 2) (b / 2) (if_odd (a % 2)) (if_odd (b % 2))

shifts-xor : (k a b : ℕ) → shifts k (bit_xor a b) ≡ bit_xor (shifts k a) (shifts k b)
unfolding shifts
shifts-xor zero a b = refl
shifts-xor (suc k) a b = ap (shifts k) (shift-xor a b) ∙ shifts-xor k (shift a) (shift b)

shift-even : (a : ℕ) → shift (a * 2) ≡ a
unfolding shift
shift-even a =
    let h : a * 2 / 2 ≡ a = omega arith in
    let d : a * 2 % 2 ≡ 0 = omega arith in rw (h, d) (bit_xor-zero a)

double : (a k : ℕ) → a * 2 ^ suc k ≡ (a * 2 ^ k) * 2
double a k = grind arith

shifts-high : (k a : ℕ) → shifts k (a * 2 ^ k) ≡ a
unfolding shifts
shifts-high zero a = omega arith
shifts-high (suc k) a =
    let e : a * 2 ^ suc k ≡ (a * 2 ^ k) * 2 = double a k in
    ap (shifts k) (ap shift e ∙ shift-even (a * 2 ^ k)) ∙ shifts-high k a

-- The high and the low digits of a number, put together.
high-xor-low : (k a b : ℕ) → b < 2 ^ k → bit_xor (a * 2 ^ k) b ≡ a * 2 ^ k + b
high-xor-low zero a b h =
    let e : b ≡ 0 = omega arith in rw e (bit_xor-zero (a * 2 ^ 0) ∙ omega arith)
high-xor-low (suc k) a b h =
    let e : a * 2 ^ suc k ≡ (a * 2 ^ k) * 2 = double a k in
    let h' : (a * 2 ^ k) * 2 / 2 ≡ a * 2 ^ k = omega arith in
    let l : b / 2 < 2 ^ k = omega arith in
    rw e (
      omega (
        arith,
        bit_xor_step (a * 2 ^ k * 2) b,
        ap (λ t. bit_xor t (b / 2)) h',
        high-xor-low k a (b / 2) l,
      ))

shifts-split : (x : ℕ) → shifts 8 x ≡ bit_xor (x / 256) (shifts 8 (x % 256))
shifts-split x =
    ap (shifts 8) (sym (high-xor-low 8 (x / 256) (x % 256) (omega arith) ∙ omega arith))
    ∙ shifts-xor 8 (x / 256 * 2 ^ 8) (x % 256)
    ∙ ap (λ t. bit_xor t (shifts 8 (x % 256))) (shifts-high 8 (x / 256))

table_checked : all_below 256 (λ i. table_at i == shifts 8 i) ≡ true
unfolding all_below table_at i_table shifts shift
table_checked = refl

table_at-eq : (i : ℕ) → i < 256 → table_at i ≡ shifts 8 i
table_at-eq i h = ==→eq _ _ (all_below_lem 256 (λ i. table_at i == shifts 8 i) i table_checked h)

-- A byte reaches the last byte only.
xor_byte : (a b : ℕ) → b < 256 → bit_xor a b ≡ a / 256 * 256 + bit_xor (a % 256) b
xor_byte a b h =
    ap (λ t. bit_xor t b) (sym (high-xor-low 8 (a / 256) (a % 256) (omega arith) ∙ omega arith))
    ∙ bit_xor_assoc (a / 256 * 256) (a % 256) b
    ∙ high-xor-low 8 (a / 256) (bit_xor (a % 256) b) (bit_xor-lt 8 (a % 256) b (omega arith) h)

xor_byte-lt : (a b : ℕ) → b < 256 → bit_xor (a % 256) b < 256
xor_byte-lt a b h = bit_xor-lt 8 (a % 256) b (omega arith) h

module _ (crc byte : ℕ) (h : byte < 256) where
  high : bit_xor crc byte / 256 ≡ crc / 256
  high = omega (arith, xor_byte crc byte h, xor_byte-lt crc byte h)

  low : bit_xor crc byte % 256 ≡ bit_xor (crc % 256) byte
  low = omega (arith, xor_byte crc byte h, xor_byte-lt crc byte h)

  full_round-eq : full_round crc byte ≡ shifts 8 (bit_xor crc byte)
  unfolding full_round
  full_round-eq =
      ap₂ bit_xor (sym high) (table_at-eq (bit_xor crc byte % 256) (omega arith))
      ∙ sym (shifts-split (bit_xor crc byte))

  partial_round-eq : partial_round crc byte ≡ full_round crc byte
  unfolding full_round partial_round
  partial_round-eq = rw low refl

full_loop-eq :
    (s_data : List ℕ) (crc : ℕ)
    → All (λ b. b < 256) s_data
    → full_loop crc s_data ≡ remainder crc s_data
unfolding full_loop remainder
full_loop-eq [] crc h = refl
full_loop-eq (byte ∷ s_data) crc h =
    ap (λ t. full_loop t s_data) (full_round-eq crc byte h.0)
    ∙ full_loop-eq s_data (shifts 8 (bit_xor crc byte)) h.1

partial_crc-eq :
    (s_data : List ℕ) (crc : ℕ)
    → All (λ b. b < 256) s_data
    → partial_crc crc s_data ≡ full_loop crc s_data
unfolding partial_crc full_loop
partial_crc-eq [] crc h = refl
partial_crc-eq (byte ∷ s_data) crc h =
    ap (λ t. partial_crc t s_data) (partial_round-eq crc byte h.0)
    ∙ partial_crc-eq s_data (full_round crc byte) h.1

partial_crc-append :
    (xs ys : List ℕ) (crc : ℕ) → partial_crc crc (xs ++ ys) ≡ partial_crc (partial_crc crc xs) ys
unfolding partial_crc
partial_crc-append [] ys crc = refl
partial_crc-append (x ∷ xs) ys crc = partial_crc-append xs ys (partial_round crc x)

pub is_verified_crc32-sum :
    (arr : List ℕ) (crc32 : ℕ) → is_verified_crc32 arr crc32 ≡ true → full_crc arr ≡ crc32
unfolding is_verified_crc32
is_verified_crc32-sum arr crc32 h = sym (==→eq _ _ (ground arith))

pub full_crc-eq : (s_data : List ℕ) → All (λ b. b < 256) s_data → full_crc s_data ≡ reference s_data
unfolding full_crc reference
full_crc-eq s_data h = ap (λ t. bit_xor t 0xFFFFFFFF) (full_loop-eq s_data 0xFFFFFFFF h)

-- For bytes, the checksum by the table is that which the polynomial defines bit by bit, and it may be
-- taken part by part: the two ends of the data by two calls of `partial_crc`.
pub full_crc-reference :
    (xs ys : List ℕ)
    → All (λ b. b < 256) (xs ++ ys)
    → (full_crc (xs ++ ys) ≡ reference (xs ++ ys))
      × (bit_xor (partial_crc (partial_crc 0xFFFFFFFF xs) ys) 0xFFFFFFFF ≡ full_crc (xs ++ ys))
unfolding full_crc
full_crc-reference xs ys h = (
  full_crc-eq (xs ++ ys) h,
  ap (λ t. bit_xor t 0xFFFFFFFF)
      (sym (partial_crc-append xs ys 0xFFFFFFFF) ∙ partial_crc-eq (xs ++ ys) 0xFFFFFFFF h),
)
