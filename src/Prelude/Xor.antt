-- ===== src/Prelude/Xor.antt =====
-- The exclusive or of numbers: it works digit by digit, and is associative and commutative.
use dvida_oxide.Prelude.{
  ℕ, zero, suc, ◌+◌, ◌*◌, ◌/◌, ◌%◌, ◌^◌, ◌≤◌, ◌<◌, ◌≡◌, refl, ap, ap₂, ◌∙◌, sym, bit_xor, arith,
}
use Prim.Native.Nat.{differ, bit_xor-bitwise}
use dvida_oxide.Prelude.Words.{by_digits}

pub zero-bit_xor : (b : ℕ) → bit_xor 0 b ≡ b
zero-bit_xor b = bit_xor-bitwise 0 b

pub bit_xor_step : (a b : ℕ) → bit_xor a b ≡ bit_xor (a / 2) (b / 2) * 2 + (a % 2 + b % 2) % 2
bit_xor_step a b =
    bit_xor-bitwise a b
    ∙ by_digits (λ y. y) differ (λ y. omega arith) a b
    ∙ ap₂ (λ s t. s * 2 + t) (sym (bit_xor-bitwise (a / 2) (b / 2)))
        (differ-add (a % 2) (b % 2) (omega arith) (omega arith))
  where
    differ-add : (a b : ℕ) → a < 2 → b < 2 → differ a b ≡ (a + b) % 2
    differ-add zero b ha hb = omega arith
    differ-add (suc zero) zero ha hb = refl
    differ-add (suc zero) (suc zero) ha hb = refl
    differ-add (suc zero) (suc (suc b)) ha hb = absurd (omega arith)
    differ-add (suc (suc a)) b ha hb = absurd (omega arith)

pub bit_xor-half : (a b : ℕ) → bit_xor a b / 2 ≡ bit_xor (a / 2) (b / 2)
bit_xor-half a b = omega (arith, bit_xor_step a b)

pub bit_xor-digit : (a b : ℕ) → bit_xor a b % 2 ≡ (a % 2 + b % 2) % 2
bit_xor-digit a b = omega (arith, bit_xor_step a b)

-- Two numbers with the same last digit and the same half are the same.
same_digits : (a b : ℕ) → a / 2 ≡ b / 2 → a % 2 ≡ b % 2 → a ≡ b
same_digits a b h k = omega arith

comm_fuel : (n a b : ℕ) → a + b ≤ n → bit_xor a b ≡ bit_xor b a
comm_fuel zero a b h =
    let ea : a ≡ 0 = omega arith in let eb : b ≡ 0 = omega arith in rw (ea, eb) refl
comm_fuel (suc n) zero zero h = refl
comm_fuel (suc n) a b h =
    same_digits (bit_xor a b) (bit_xor b a)
      (bit_xor-half a b ∙ comm_fuel n (a / 2) (b / 2) (omega arith) ∙ sym (bit_xor-half b a))
      (omega (arith, bit_xor-digit a b, bit_xor-digit b a))

pub bit_xor_comm : (a b : ℕ) → bit_xor a b ≡ bit_xor b a
bit_xor_comm a b = comm_fuel (a + b) a b (omega arith)

pub bit_xor-zero : (a : ℕ) → bit_xor a 0 ≡ a
bit_xor-zero a = bit_xor_comm a 0 ∙ zero-bit_xor a

assoc_fuel : (n a b c : ℕ) → a + b + c ≤ n → bit_xor (bit_xor a b) c ≡ bit_xor a (bit_xor b c)
assoc_fuel zero a b c h =
    let ea : a ≡ 0 = omega arith in
    let eb : b ≡ 0 = omega arith in let ec : c ≡ 0 = omega arith in rw (ea, eb, ec) refl
assoc_fuel (suc n) zero zero zero h = refl
assoc_fuel (suc n) a b c h =
    same_digits (bit_xor (bit_xor a b) c) (bit_xor a (bit_xor b c))
      (bit_xor-half (bit_xor a b) c
        ∙ ap (λ t. bit_xor t (c / 2)) (bit_xor-half a b)
        ∙ assoc_fuel n (a / 2) (b / 2) (c / 2) (omega arith)
        ∙ sym (bit_xor-half a (bit_xor b c) ∙ ap (bit_xor (a / 2)) (bit_xor-half b c)))
      (omega (
        arith,
        bit_xor-digit (bit_xor a b) c,
        bit_xor-digit a b,
        bit_xor-digit a (bit_xor b c),
        bit_xor-digit b c,
      ))

pub bit_xor_assoc : (a b c : ℕ) → bit_xor (bit_xor a b) c ≡ bit_xor a (bit_xor b c)
bit_xor_assoc a b c = assoc_fuel (a + b + c) a b c (omega arith)

pub bit_xor_middle :
    (a b c d : ℕ) → bit_xor (bit_xor a b) (bit_xor c d) ≡ bit_xor (bit_xor a c) (bit_xor b d)
bit_xor_middle a b c d =
    bit_xor_assoc a b (bit_xor c d)
    ∙ ap (bit_xor a)
        (sym (bit_xor_assoc b c d) ∙ ap (λ t. bit_xor t d) (bit_xor_comm b c) ∙ bit_xor_assoc c b d)
    ∙ sym (bit_xor_assoc a c (bit_xor b d))

pub bit_xor-lt : (k a b : ℕ) → a < 2 ^ k → b < 2 ^ k → bit_xor a b < 2 ^ k
bit_xor-lt zero a b ha hb =
    let ea : a ≡ 0 = omega arith in let eb : b ≡ 0 = omega arith in rw (ea, eb) (omega arith)
bit_xor-lt (suc k) a b ha hb =
    let p : 2 ^ suc k ≡ 2 ^ k * 2 = omega arith in
    let ha' : a < 2 ^ k * 2 = rw p at ha in
    let hb' : b < 2 ^ k * 2 = rw p at hb in
    rw p (omega (arith, bit_xor_step a b, bit_xor-lt k (a / 2) (b / 2) (omega arith) (omega arith)))
