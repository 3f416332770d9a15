-- ===== src/Serialize/RoundTrip.antt =====
-- An array of numbers is read back as it was written.
use mathlib.Core.List.{reverse-reverse, reverse-cons}
use dvida_oxide.Prelude.{
  ℕ, zero, suc, ◌+◌, ◌*◌, ◌/◌, ◌^◌, ◌≤◌, ◌<◌, ◌≡◌, refl, sym, ap, ap₂, ◌∙◌, le→ltb, List, [], ◌∷◌,
  ◌++◌, length, take, drop, reverse, append-nil, append_assoc, length-append, length-take,
  length-drop, take-all, drop-all, drop-drop, take-append-drop, All, arith,
}
use dvida_oxide.Serialize.{
  Endianness, little, big, na, ok, Bytes, to_le_bytes, from_le_bytes, to_bytes, from_bytes,
  serialize, deserialize, serialize_elems, serialize_array, deserialize_elems, deserialize_array,
}

length-reverse : (xs : Bytes) → length (reverse xs) ≡ length xs
length-reverse [] = refl
length-reverse (x ∷ xs) =
    ap length (reverse-cons x xs)
    ∙ omega (arith, length-append (reverse xs) (x ∷ []), length-reverse xs)

pub length-to_le_bytes : (size n : ℕ) → length (to_le_bytes size n) ≡ size
unfolding to_le_bytes
length-to_le_bytes zero n = refl
length-to_le_bytes (suc size) n = ap suc (length-to_le_bytes size (n / 256))

length-to_bytes : (e : Endianness) (size n : ℕ) → length (to_bytes e size n) ≡ size
unfolding to_bytes
length-to_bytes little size n = length-to_le_bytes size n
length-to_bytes na size n = length-to_le_bytes size n
length-to_bytes big size n = length-reverse (to_le_bytes size n) ∙ length-to_le_bytes size n

from_le_bytes-to_le_bytes : (size n : ℕ) → n < 256 ^ size → from_le_bytes (to_le_bytes size n) ≡ n
unfolding from_le_bytes to_le_bytes
from_le_bytes-to_le_bytes zero n h = omega arith
from_le_bytes-to_le_bytes (suc size) n h =
    omega (arith, from_le_bytes-to_le_bytes size (n / 256) (omega arith))

from_bytes-to_bytes :
    (e : Endianness) (size n : ℕ) → n < 256 ^ size → from_bytes e (to_bytes e size n) ≡ n
unfolding from_bytes to_bytes
from_bytes-to_bytes little size n h = from_le_bytes-to_le_bytes size n h
from_bytes-to_bytes na size n h = from_le_bytes-to_le_bytes size n h
from_bytes-to_bytes big size n h =
    ap from_le_bytes (reverse-reverse (to_le_bytes size n)) ∙ from_le_bytes-to_le_bytes size n h

-- The numbers one after the other.
pub encode : Endianness → ℕ → List ℕ → Bytes
encode e size [] = []
encode e size (n ∷ ns) = to_bytes e size n ++ encode e size ns

take-append : (n : ℕ) (xs ys : Bytes) → length xs ≡ n → take n (xs ++ ys) ≡ xs
take-append zero [] [] h = refl
take-append zero [] (y ∷ ys) h = refl
take-append zero (x ∷ xs) ys h = absurd (omega arith)
take-append (suc n) [] ys h = absurd (omega arith)
take-append (suc n) (x ∷ xs) ys h = ap (λ t. x ∷ t) (take-append n xs ys (omega arith))

drop-append : (n : ℕ) (xs ys : Bytes) → length xs ≡ n → drop n (xs ++ ys) ≡ ys
drop-append zero [] ys h = refl
drop-append zero (x ∷ xs) ys h = absurd (omega arith)
drop-append (suc n) [] ys h = absurd (omega arith)
drop-append (suc n) (x ∷ xs) ys h = drop-append n xs ys (omega arith)

-- One number in a slice of its own size.
serialize-slice :
    (e : Endianness) (size n : ℕ) (slice : Bytes)
    → length slice ≡ size
    → serialize e size n slice ≡ ok (size, to_bytes e size n)
unfolding serialize
serialize-slice e size n slice h =
    rw (le→ltb (length slice) size (omega arith))
      (rw (drop-all size slice (omega arith), append-nil (to_bytes e size n)) refl)

deserialize-slice :
    (e : Endianness) (size n : ℕ)
    → n < 256 ^ size
    → deserialize e size (to_bytes e size n) ≡ ok (n, size)
unfolding deserialize
deserialize-slice e size n h =
    rw (le→ltb (length (to_bytes e size n)) size (omega (arith, length-to_bytes e size n))) (
      rw (take-all size (to_bytes e size n) (omega (arith, length-to_bytes e size n)))
        (rw (from_bytes-to_bytes e size n h) refl))

serialize_elems-encode :
    (e : Endianness) (size : ℕ) (ns : List ℕ) (offset : ℕ) (target : Bytes)
    → offset + size * length ns ≤ length target
    → serialize_elems e size ns offset target
      ≡ ok (take offset target ++ (encode e size ns ++ drop (offset + size * length ns) target))
unfolding serialize_elems encode
serialize_elems-encode e size [] offset target h =
    let e0 : offset + size * 0 ≡ offset = grind arith in
    rw (e0, take-append-drop offset target) refl
serialize_elems-encode e size (n ∷ ns) offset target h =
    let k : ℕ = length ns in
    let m : size * suc k ≡ size + size * k = grind arith in
    let slice : Bytes = take size (drop offset target) in
    let ls : length slice ≡ size =
      omega (arith, length-take size (drop offset target), length-drop offset target) in
    let t : Bytes = to_bytes e size n in
    let front : Bytes = take offset target ++ t in
    let back : Bytes = drop (offset + size) target in
    let lf : length front ≡ offset + size = omega (
      arith,
      length-append (take offset target) t,
      length-take offset target,
      length-to_bytes e size n,
    ) in
    let shape : take offset target ++ (t ++ back) ≡ front ++ back =
      sym (append_assoc (take offset target) t back) in
    let lt : length (front ++ back) ≡ length target =
      omega (arith, length-append front back, length-drop (offset + size) target) in
    let far : offset + size * suc k ≡ offset + size + size * k = omega arith in
    let tail : drop (offset + size + size * k) (front ++ back)
        ≡ drop (offset + size * suc k) target =
      sym (drop-drop (size * k) (offset + size) (front ++ back))
      ∙ ap (drop (size * k)) (drop-append (offset + size) front back lf)
      ∙ drop-drop (size * k) (offset + size) target
      ∙ ap (λ i. drop i target) (sym far) in
    rw (serialize-slice e size n slice ls, serialize_elems)
      (ap (serialize_elems e size ns (offset + size)) shape
        ∙ (serialize_elems-encode e size ns (offset + size) (front ++ back) (omega arith)
            ∙ ap ok (
                ap₂ (λ a b. a ++ (encode e size ns ++ b))
                  (take-append (offset + size) front back lf) tail
                ∙ append_assoc (take offset target) t
                    (encode e size ns ++ drop (offset + size * suc k) target)
                ∙ ap (λ b. take offset target ++ b)
                    (sym
                      (append_assoc t (encode e size ns) (drop (offset + size * suc k) target))))))

deserialize_elems-cons :
    (e : Endianness) (size n read : ℕ) (ns : List ℕ) (offset : ℕ) (input : Bytes)
    → deserialize e size (take size (drop offset input)) ≡ ok (n, read)
    → deserialize_elems e size (length ns) (offset + size) input ≡ ok ns
    → deserialize_elems e size (suc (length ns)) offset input ≡ ok (n ∷ ns)
unfolding deserialize_elems
deserialize_elems-cons e size n read ns offset input h k =
    rw (h, deserialize_elems) (rw (k, deserialize_elems) refl)

deserialize_elems-encode :
    (e : Endianness) (size : ℕ) (ns : List ℕ) (offset : ℕ) (input rest : Bytes)
    → All (λ n. n < 256 ^ size) ns
    → drop offset input ≡ encode e size ns ++ rest
    → deserialize_elems e size (length ns) offset input ≡ ok ns
unfolding deserialize_elems encode
deserialize_elems-encode e size [] offset input rest a h = refl
deserialize_elems-encode e size (n ∷ ns) offset input rest (hn, a) h =
    let t : Bytes = to_bytes e size n in
    let h' : drop offset input ≡ t ++ (encode e size ns ++ rest) =
      h ∙ append_assoc t (encode e size ns) rest in
    let s : take size (drop offset input) ≡ t =
      rw h' (take-append size t _ (length-to_bytes e size n)) in
    let r : drop (offset + size) input ≡ encode e size ns ++ rest =
      sym (drop-drop size offset input) ∙ rw h' (drop-append size t _ (length-to_bytes e size n)) in
    deserialize_elems-cons e size n size ns offset input
      (ap (deserialize e size) s ∙ deserialize-slice e size n hn)
      (deserialize_elems-encode e size ns (offset + size) input rest a r)

length-encode :
    (e : Endianness) (size : ℕ) (ns : List ℕ) → length (encode e size ns) ≡ size * length ns
unfolding encode
length-encode e size [] = grind arith
length-encode e size (n ∷ ns) =
    let m : size * suc (length ns) ≡ size + size * length ns = grind arith in
    omega (
      arith,
      length-append (to_bytes e size n) (encode e size ns),
      length-to_bytes e size n,
      length-encode e size ns,
    )

-- In either byte order, for numbers that fit into their bytes and a target with room for them all:
-- the array is written as the bytes of its numbers one after the other, the rest of the target is
-- kept, and what was written is read back as the array.
pub deserialize_array-serialize_array :
    (e : Endianness) (size : ℕ) (ns : List ℕ) (target : Bytes)
    → All (λ n. n < 256 ^ size) ns
    → size * length ns ≤ length target
    → (after : Bytes) × (serialize_array e size ns target ≡ ok (size * length ns, after))
      × (after ≡ encode e size ns ++ drop (size * length ns) target)
      × (deserialize_array e size (length ns) after ≡ ok (ns, size * length ns))
unfolding serialize_array deserialize_array
deserialize_array-serialize_array e size ns target a h =
    let after : Bytes = encode e size ns ++ drop (size * length ns) target in
    let z : 0 + size * length ns ≡ size * length ns = omega arith in
    let written : serialize_elems e size ns 0 target ≡ ok after =
      serialize_elems-encode e size ns 0 target (omega arith)
      ∙ ap (λ i. ok (encode e size ns ++ drop i target)) z in
    let room : size * length ns ≤ length after = omega (
      arith,
      length-append (encode e size ns) (drop (size * length ns) target),
      length-encode e size ns,
    ) in
    (
      after,
      rw (le→ltb (length target) (size * length ns) h, written) refl,
      refl,
      rw
          (
            le→ltb (length after) (size * length ns) room,
            deserialize_elems-encode e size ns 0 after (drop (size * length ns) target) a refl,
          )
          refl,
    )
