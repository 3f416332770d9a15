-- ===== src/Memory/Bitmap/Laws.antt =====
-- The marks of single pages and of runs of pages.
use dvida_oxide.Prelude.{
  ℕ, zero, suc, ◌+◌, ◌*◌, ◌/◌, ◌%◌, ◌≤◌, ◌<◌, ◌≡◌, refl, ◌∙◌, inl, inr, Bool, not, ◌&&◌, ◌||◌,
  Option, some, List, [], ◌∷◌, length, get_or, set, length-set, get_or-set_self, get_or-set_ne,
  get_elem?-eq-get_or, ltb, leb, ◌==◌, if◌then◌else◌, Bool-cases, arith, ==→eq, ==→ne,
}
use dvida_oxide.Prelude.Bytes.{
  bit_test, bit_set, bit_clear, bit_test-bit_set, bit_test-bit_clear, bit_set-lt, bit_clear-lt,
}
use dvida_oxide.Memory.Bitmap.{used, mark_used, mark_unused}

-- The cells are bytes.
abbrev pub AreBytes : List ℕ → Type 0
AreBytes [] = Unit {0}
AreBytes (b ∷ bs) = (b < 256) × AreBytes bs

pub get_or-lt : (cells : List ℕ) (i : ℕ) → AreBytes cells → get_or cells i 0 < 256
get_or-lt [] i h = omega arith
get_or-lt (b ∷ bs) zero h = h.0
get_or-lt (b ∷ bs) (suc i) h = get_or-lt bs i h.1

pub set-AreBytes : (cells : List ℕ) (i v : ℕ) → AreBytes cells → v < 256 → AreBytes (set cells i v)
set-AreBytes [] i v h hv = h
set-AreBytes (b ∷ bs) zero v h hv = (hv, h.1)
set-AreBytes (b ∷ bs) (suc i) v h hv = (h.0, set-AreBytes bs i v h.1 hv)

module _ (cells : List ℕ) (bytes : AreBytes cells) (i : ℕ) (inside : i / 8 < length cells) where
  abbrev old : ℕ
  old = get_or cells (i / 8) 0

  pub used-set :
      (v j : ℕ)
      → used (set cells (i / 8) v) j ≡ (if i / 8 == j / 8 then bit_test v (j % 8) else used cells j)
  used-set v j = elim (Bool-cases (i / 8 == j / 8)) [
    | inl e ↦ rw (e, ← ==→eq (i / 8) (j / 8) e, get_or-set_self cells (i / 8) v 0 inside)
    | inr e ↦ rw (e, get_or-set_ne cells (i / 8) (j / 8) v 0 (==→ne (i / 8) (j / 8) e))
  ]

  -- Setting the bit of page `i` marks page `i` and no other.
  pub used-bit_set :
      (j : ℕ) → used (set cells (i / 8) (bit_set old (i % 8))) j ≡ (j == i || used cells j)
  used-bit_set j = ground (
    arith,
    used-set (bit_set old (i % 8)) j,
    bit_test-bit_set old (i % 8) (get_or-lt cells (i / 8) bytes) (omega arith) (j % 8),
  )

  pub used-bit_clear :
      (j : ℕ) → used (set cells (i / 8) (bit_clear old (i % 8))) j ≡ (not (j == i) && used cells j)
  used-bit_clear j = ground (
    arith,
    used-set (bit_clear old (i % 8)) j,
    bit_test-bit_clear old (i % 8) (get_or-lt cells (i / 8) bytes) (omega arith) (j % 8),
  )

-- `run` returned normally, with a bitmap of the same length in which page `j` is `mark j`.
pub record Marks (cells : List ℕ) (mark : ℕ → Bool) (run : Option (List ℕ)) : Type 0 where
  pub out : List ℕ
  pub returns : run ≡ some out
  pub size : length out ≡ length cells
  pub bytes : AreBytes out
  pub marks : (j : ℕ) → used out j ≡ mark j

-- Page `j` is one of the `count` pages from `idx` on.
abbrev pub in_run : ℕ → ℕ → ℕ → Bool
in_run idx count j = leb idx j && ltb j (idx + count)

pub mark_used-Marks :
    (count idx : ℕ) (cells : List ℕ)
    → AreBytes cells
    → idx + count ≤ 8 * length cells
    → Marks cells (λ j. in_run idx count j || used cells j) (mark_used count idx cells)
unfolding mark_used
mark_used-Marks zero idx cells bytes fits = record {
  out = cells;
  returns = refl;
  size = refl;
  bytes = bytes;
  marks = λ j. ground arith;
}
mark_used-Marks (suc count) idx cells bytes fits =
    let inside : idx / 8 < length cells = omega arith in
    let b = get_or cells (idx / 8) 0 in
    let next = set cells (idx / 8) (bit_set b (idx % 8)) in
    let small = get_or-lt cells (idx / 8) bytes in
    let size' = length-set cells (idx / 8) (bit_set b (idx % 8)) in
    let rest =
      mark_used-Marks count (idx + 1) next
        (set-AreBytes cells (idx / 8) _ bytes (bit_set-lt b (idx % 8) small (omega arith)))
        (omega arith) in
    record {
      out = rest.out;
      returns = rw (get_elem?-eq-get_or cells (idx / 8) 0 inside, mark_used) rest.returns;
      size = rest.size ∙ size';
      bytes = rest.bytes;
      marks = λ j. ground (arith, rest.marks j, used-bit_set cells bytes idx inside j);
    }

pub mark_unused-Marks :
    (count idx : ℕ) (cells : List ℕ)
    → AreBytes cells
    → idx + count ≤ 8 * length cells
    → Marks cells (λ j. not (in_run idx count j) && used cells j) (mark_unused count idx cells)
unfolding mark_unused
mark_unused-Marks zero idx cells bytes fits = record {
  out = cells;
  returns = refl;
  size = refl;
  bytes = bytes;
  marks = λ j. ground arith;
}
mark_unused-Marks (suc count) idx cells bytes fits =
    let inside : idx / 8 < length cells = omega arith in
    let b = get_or cells (idx / 8) 0 in
    let next = set cells (idx / 8) (bit_clear b (idx % 8)) in
    let small = get_or-lt cells (idx / 8) bytes in
    let size' = length-set cells (idx / 8) (bit_clear b (idx % 8)) in
    let rest =
      mark_unused-Marks count (idx + 1) next
        (set-AreBytes cells (idx / 8) _ bytes (bit_clear-lt b (idx % 8) small (omega arith)))
        (omega arith) in
    record {
      out = rest.out;
      returns = rw (get_elem?-eq-get_or cells (idx / 8) 0 inside, mark_unused) rest.returns;
      size = rest.size ∙ size';
      bytes = rest.bytes;
      marks = λ j. ground (arith, rest.marks j, used-bit_clear cells bytes idx inside j);
    }
