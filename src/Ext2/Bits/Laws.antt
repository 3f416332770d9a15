-- ===== src/Ext2/Bits/Laws.antt =====
-- The bits that the iterator yields.
use dvida_oxide.Prelude.{
  ℕ, zero, suc, ◌+◌, ◌*◌, ◌/◌, ◌%◌, ◌^◌, ◌≤◌, ◌<◌, ◌≡◌, refl, ◌∙◌, ap, Option, none, some, List, [],
  ◌∷◌, true, false, length, get_elem?, get_or, bit_and, ltb, leb, ◌==◌, if◌then◌else◌, inl, inr,
  Bool-cases, lt→ltb, le→ltb, leb→le, leb→gt, arith,
}
use dvida_oxide.Ext2.{Bytes}
use dvida_oxide.Ext2.Bits.{Bit, bit_zero, bit_one, BitIterator, new, next, collect, bits}

-- Bit `i` of the bytes, from the lowest bit of each byte on.
abbrev pub bit_at : Bytes → ℕ → Bit
bit_at num i = if bit_and (get_or num (i / 8) 0) (2 ^ (i % 8)) == 0 then bit_zero else bit_one

abbrev bit_or_end : Bytes → ℕ → Option Bit
bit_or_end num i = if ltb i (length num * 8) then some (bit_at num i) else none

next-end :
    (num : Bytes) (idx b : ℕ)
    → leb (length num) idx ≡ true
    → next (record { num = num; idx = idx; bit_idx = b })
      ≡ (none, record { num = num; idx = idx; bit_idx = b })
unfolding next
next-end num idx b e = rw e refl

-- The state that stands at bit `i`.
abbrev at_bit : Bytes → ℕ → BitIterator
at_bit num i = record { num = num; idx = i / 8; bit_idx = i % 8 }

next-bit :
    (num : Bytes) (i : ℕ)
    → leb (length num) (i / 8) ≡ false
    → next (at_bit num i) ≡ (some (bit_at num i), at_bit num (i + 1))
unfolding next
next-bit num i e = elim (Bool-cases (leb 8 (i % 8 + 1))) [
  | inl last ↦
      let full = leb→le 8 (i % 8 + 1) last in
      let up : (i + 1) / 8 ≡ i / 8 + 1 = omega arith in
      let low : (i + 1) % 8 ≡ 0 = omega arith in rw (e, last, up, low) refl
  | inr inside ↦
      let room = leb→gt 8 (i % 8 + 1) inside in
      let same : (i + 1) / 8 ≡ i / 8 = omega arith in
      let up : (i + 1) % 8 ≡ i % 8 + 1 = omega arith in rw (e, inside, same, up) refl
]

yielded : ℕ → Option Bit × BitIterator → List Bit
yielded fuel r = elim r.0 [ none ↦ [] | some bit ↦ bit ∷ collect fuel r.1 ]

head_or_later :
    (fuel : ℕ) (num : Bytes) (i j : ℕ)
    → i / 8 < length num
    → ((k : ℕ) → get_elem? (collect fuel (at_bit num (i + 1))) k ≡ bit_or_end num (i + 1 + k))
    → get_elem? (bit_at num i ∷ collect fuel (at_bit num (i + 1))) j ≡ bit_or_end num (i + j)
head_or_later fuel num i zero below later =
    let e : i + 0 ≡ i = omega arith in rw (e, lt→ltb i (length num * 8) (omega arith)) refl
head_or_later fuel num i (suc j) below later =
    let e : i + 1 + j ≡ i + suc j = omega arith in later j ∙ ap (bit_or_end num) e

collect-bits :
    (fuel : ℕ) (num : Bytes) (i j : ℕ)
    → length num * 8 + 1 ≤ fuel + i
    → get_elem? (collect fuel (at_bit num i)) j ≡ bit_or_end num (i + j)
unfolding collect yielded
collect-bits zero num i j enough = rw (le→ltb (i + j) (length num * 8) (omega arith)) refl
collect-bits (suc fuel) num i j enough = elim (Bool-cases (leb (length num) (i / 8))) [
  | inl e ↦
      let over = leb→le (length num) (i / 8) e in
      rw (next-end num (i / 8) (i % 8) e, le→ltb (i + j) (length num * 8) (omega arith), collect)
        refl
  | inr e ↦
      let below = leb→gt (length num) (i / 8) e in
      let step : collect (suc fuel) (at_bit num i)
          ≡ bit_at num i ∷ collect fuel (at_bit num (i + 1)) =
        ap (yielded fuel) (next-bit num i e) in
      ap (λ l. get_elem? l j) step
      ∙ head_or_later fuel num i j below (λ k. collect-bits fuel num (i + 1) k (omega arith))
]

-- Element `i` of the iteration is bit `i` of the bytes, lowest bit of each byte first, and there are
-- eight for each byte.
pub get_elem?-bits :
    (num : Bytes) (i : ℕ)
    → get_elem? (bits num) i ≡ (if ltb i (length num * 8) then some (bit_at num i) else none)
unfolding bits new
get_elem?-bits num i =
    let e : 0 + i ≡ i = omega arith in
    collect-bits (length num * 8 + 1) num 0 i (omega arith) ∙ ap (bit_or_end num) e
