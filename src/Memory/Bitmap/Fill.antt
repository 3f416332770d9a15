-- ===== src/Memory/Bitmap/Fill.antt =====
-- What `fill` and the sums over the memory map compute.
use dvida_oxide.Prelude.{
  ℕ, zero, suc, ◌+◌, ◌-◌, ◌*◌, ◌/◌, ◌%◌, ◌≤◌, ◌≡◌, refl, ◌∙◌, sym, subst, ap₂, le→leb, gt→leb,
  ==→eq, ==→ne, length-append, get_elem?-append_middle, inl, inr, Bool, true, false, not, ◌&&◌,
  ◌||◌, Option, some, List, [], ◌∷◌, ◌++◌, length, replicate, length-replicate, take-all, ltb, ◌==◌,
  if◌then◌else◌, Bool-cases, arith, get_or,
}
use native.Mathlib.Nat.{zero-sub, add-zero}
use native.Mathlib.Numerals.{sub-one}
use dvida_oxide.Prelude.Bytes.{bit_test_full, bit_test_zero}
use dvida_oxide.Memory.Bitmap
use dvida_oxide.Memory.Bitmap.{
  BitMap, Entry, EntryType, from_entry, is_usable, is_usable_kind, page_size, used,
  get_memmap_length_usable, trim_from, get_highest_physical_memory_usable, fill, free_usable,
  set_unused_by_address, set_used_by_address, sum_memmap, sum_from,
}
use dvida_oxide.Memory.Bitmap.Laws.{AreBytes, in_run, mark_unused-Marks, mark_used-Marks}

-- Page `j` belongs to a usable entry.
abbrev pub in_usable : List Entry → ℕ → Bool
in_usable [] j = false
in_usable (e ∷ es) j =
    (is_usable e && in_run (e.base / page_size) (e.length / page_size) j) || in_usable es j

-- The pages of the usable entries have bits in a bitmap of `n` bytes.
abbrev pub Fits : ℕ → List Entry → Type 0
Fits n [] = Unit {0}
Fits n (e ∷ es) =
    (is_usable e ≡ true → e.base / page_size + e.length / page_size ≤ 8 * n) × Fits n es

pub full-AreBytes : (n : ℕ) → AreBytes (replicate n 255)
full-AreBytes zero = tt
full-AreBytes (suc n) = (omega arith, full-AreBytes n)

get_or-replicate :
    (n i : ℕ) → ◌≡◌ {A = ℕ} (get_or (replicate n 255) i 0) (if ltb i n then 255 else 0)
get_or-replicate zero i = ground arith
get_or-replicate (suc n) zero = ground arith
get_or-replicate (suc n) (suc i) = get_or-replicate n i ∙ ground arith

-- A bitmap of `n` full bytes has just its `8 * n` pages marked.
pub used-full : (n j : ℕ) → used (replicate n 255) j ≡ ltb j (8 * n)
used-full n j =
    let full = bit_test_full (j % 8) (omega arith) in
    let empty = bit_test_zero (j % 8) (omega arith) in
    rw (get_or-replicate n (j / 8)) (elim (Bool-cases (ltb (j / 8) n)) [
      | inl h ↦ rw (h, full) (ground arith)
      | inr h ↦ rw (h, empty) (ground arith)
    ])

-- `run` returned normally, with a bitmap as long as `m` in which page `j` is `mark j`.
pub record Filled (m : BitMap) (mark : ℕ → Bool) (run : Option BitMap) : Type 0 where
  pub out : BitMap
  pub returns : run ≡ some out
  pub size : length out.cells ≡ length m.cells
  pub pages : out.page_length ≡ m.page_length
  pub bytes : AreBytes out.cells
  pub marks : (j : ℕ) → used out.cells j ≡ mark j

pub set_used_by_address-Filled :
    (m : BitMap) (base page_count : ℕ)
    → AreBytes m.cells
    → base / page_size + page_count ≤ 8 * length m.cells
    → Filled m
        (λ j. in_run (base / page_size) page_count j || used m.cells j)
        (set_used_by_address m base page_count)
unfolding set_used_by_address
set_used_by_address-Filled m base page_count bytes fits =
    let r = mark_used-Marks page_count (base / page_size) m.cells bytes fits in
    record {
      out = record m { cells = r.out };
      returns = rw r.returns;
      size = r.size;
      pages = refl;
      bytes = r.bytes;
      marks = r.marks;
    }

set_unused_by_address-Filled :
    (m : BitMap) (base page_count : ℕ)
    → AreBytes m.cells
    → base / page_size + page_count ≤ 8 * length m.cells
    → Filled m
        (λ j. not (in_run (base / page_size) page_count j) && used m.cells j)
        (set_unused_by_address m base page_count)
unfolding set_unused_by_address
set_unused_by_address-Filled m base page_count bytes fits =
    let r = mark_unused-Marks page_count (base / page_size) m.cells bytes fits in
    record {
      out = record m { cells = r.out };
      returns = rw r.returns;
      size = r.size;
      pages = refl;
      bytes = r.bytes;
      marks = r.marks;
    }

free_usable-Filled :
    (es : List Entry) (m : BitMap)
    → AreBytes m.cells
    → Fits (length m.cells) es
    → Filled m (λ j. not (in_usable es j) && used m.cells j) (free_usable es m)
unfolding free_usable
free_usable-Filled [] m bytes fits = record {
  out = m;
  returns = refl;
  size = refl;
  pages = refl;
  bytes = bytes;
  marks = λ j. ground arith;
}
free_usable-Filled (e ∷ es) m bytes fits = elim (Bool-cases (is_usable e)) [
  | inl yes_usable ↦
      let one =
        set_unused_by_address-Filled m e.base (e.length / page_size) bytes (fits.0 yes_usable) in
      let rest = free_usable-Filled es one.out one.bytes (rw one.size fits.1) in
      record {
        out = rest.out;
        returns = rw (yes_usable, one.returns, free_usable) rest.returns;
        size = rest.size ∙ one.size;
        pages = rest.pages ∙ one.pages;
        bytes = rest.bytes;
        marks = λ j. ground (arith, rest.marks j, one.marks j);
      }
  | inr not_usable ↦
      let rest = free_usable-Filled es m bytes fits.1 in
      record {
        out = rest.out;
        returns = rw (not_usable, free_usable) rest.returns;
        size = rest.size;
        pages = rest.pages;
        bytes = rest.bytes;
        marks = λ j. ground (arith, rest.marks j);
      }
]

-- The memory map's whole length is returned: the loop that should drop the entries at its end
-- that are not usable runs over an empty range.
pub get_memmap_length_usable_whole :
    (e : Entry) (es : List Entry) → get_memmap_length_usable (e ∷ es) ≡ some (length (e ∷ es))
unfolding get_memmap_length_usable trim_from
get_memmap_length_usable_whole e es = rw (zero-sub, trim_from)

pub fill-Filled :
    (e : Entry) (es : List Entry) (m : BitMap)
    → Fits (length m.cells) (e ∷ es)
    → Filled m (λ j. ltb j (8 * length m.cells) && not (in_usable (e ∷ es) j)) (fill (e ∷ es) m)
unfolding fill
fill-Filled e es m fits =
    let start = record m { cells = replicate (length m.cells) 255 } in
    let size = length-replicate (length m.cells) 255 in
    let r =
      free_usable-Filled (e ∷ es) start (full-AreBytes _)
        (subst (λ n. Fits n (e ∷ es)) (sym size) fits) in
    record {
      out = r.out;
      returns = rw (zero-sub, trim_from, take-all (length es) es (omega arith)) r.returns;
      size = r.size ∙ size;
      pages = r.pages;
      bytes = r.bytes;
      marks = λ j. r.marks j ∙ rw (used-full (length m.cells) j) (ground arith);
    }

kind-usable : (t : EntryType) → is_usable_kind (from_entry t) ≡ Bitmap.is_usable_type t
unfolding from_entry
kind-usable EntryType.usable = refl
kind-usable EntryType.reserved = refl
kind-usable t = refl

-- The end of the last entry of the map, of whatever type, is taken for the end of usable memory.
pub get_highest_physical_memory_usable-last :
    (before : List Entry) (last : Entry)
    → get_highest_physical_memory_usable (before ++ (last ∷ [])) ≡ some (last.base + last.length)
unfolding get_highest_physical_memory_usable
get_highest_physical_memory_usable-last [] last = refl
get_highest_physical_memory_usable-last (e ∷ es) last =
    let at_end : length (es ++ (last ∷ [])) ≡ suc (length es) =
      omega (arith, length-append es (last ∷ [])) in
    rw (zero-sub, trim_from, at_end, sub-one, get_elem?-append_middle es last [])

abbrev pub usable_sum : List Entry → ℕ
usable_sum [] = 0
usable_sum (e ∷ es) = (if is_usable e then e.length else 0) + usable_sum es

-- All lengths, but that of a last entry that is not usable.
abbrev pub counted_sum : List Entry → ℕ
counted_sum [] = 0
counted_sum (e ∷ es) =
    (if is_usable e || not (length es == 0) then e.length else 0) + counted_sum es

sum_from-cons :
    (len index : ℕ) (e : Entry) (es : List Entry) (t u : ℕ)
    → index + length (e ∷ es) ≡ len
    → sum_from len index (e ∷ es) t u
      ≡ sum_from len
          (index + 1)
          es
          (t + (if is_usable e || not (length es == 0) then e.length else 0))
          (u + (if is_usable e then e.length else 0))
unfolding sum_from
sum_from-cons len index e es t u h =
    rw (kind-usable e.entry_type) (elim (Bool-cases (is_usable e)) [
      | inl used_entry ↦ rw used_entry
      | inr other ↦ rw other (elim (Bool-cases (length es == 0)) [
        | inl end ↦ rw (
          le→leb (len - 1) index (omega (arith, ==→eq (length es) 0 end)),
          end,
          add-zero,
          add-zero,
        )
        | inr more ↦
            rw (gt→leb (len - 1) index (omega (arith, ==→ne (length es) 0 more)), more, add-zero)
      ])
    ])

sum_from_lem :
    (len index : ℕ) (es : List Entry) (t u : ℕ)
    → index + length es ≡ len
    → sum_from len index es t u ≡ (t + counted_sum es, u + usable_sum es)
unfolding sum_from
sum_from_lem len index [] t u h = ground arith
sum_from_lem len index (e ∷ es) t u h =
    sum_from-cons len index e es t u h
    ∙ sum_from_lem len (index + 1) es _ _ (omega arith)
    ∙ ap₂ (λ x y. (x, y)) (omega arith) (omega arith)

-- The totals of the memory map.
sum_memmap_lem : (es : List Entry) → sum_memmap es ≡ (counted_sum es, usable_sum es)
unfolding sum_memmap
sum_memmap_lem es = sum_from_lem (length es) 0 es 0 0 (omega arith) ∙ ground arith
