-- ===== src/Ext2/Entries/Decoding.antt =====
-- What the source reads of an entry in a block.
use dvida_oxide.Prelude.{
  ℕ, zero, suc, ◌+◌, ◌-◌, ◌*◌, ◌≤◌, ◌<◌, ◌≡◌, refl, ap, sym, ◌∙◌, [], ◌∷◌, length, get_or, take,
  drop, length-drop, le→ltb, gt→leb, arith,
}
use dvida_oxide.Serialize.{little, from_le_bytes, from_bytes, deserialize}
use dvida_oxide.Ext2.{Bytes, done}
use dvida_oxide.Ext2.Entries.{DirEntry, get_number, push_char, get_name, deserialize_entry}
use dvida_oxide.Ext2.Entries.Slices.{get_or-drop}
use dvida_oxide.Ext2.Entries.Tiles.{Tile}

first_byte :
    (n : ℕ) (xs : Bytes)
    → from_le_bytes (take (suc n) xs) ≡ get_or xs 0 0 + 256 * from_le_bytes (take n (drop 1 xs))
unfolding from_le_bytes
first_byte zero [] = refl
first_byte (suc n) [] = refl
first_byte n (x ∷ xs) = refl

next_byte :
    (n i : ℕ) (xs : Bytes)
    → from_le_bytes (take (suc n) (drop i xs))
      ≡ get_or xs i 0 + 256 * from_le_bytes (take n (drop (suc i) xs))
next_byte n zero xs = first_byte n xs
next_byte n (suc i) [] = first_byte n []
next_byte n (suc i) (x ∷ xs) = next_byte n i xs

no_bytes : (xs : Bytes) → from_le_bytes (take 0 xs) ≡ 0
unfolding from_le_bytes
no_bytes xs = refl

number_1 : (i : ℕ) (xs : Bytes) → from_le_bytes (take 1 (drop i xs)) ≡ get_or xs i 0
number_1 i xs = omega (arith, next_byte 0 i xs, no_bytes (drop (suc i) xs))

get_number-done :
    (size acc : ℕ) (input : Bytes)
    → acc + size ≤ length input
    → get_number little size input acc
      ≡ (done (from_le_bytes (take size (drop acc input))), acc + size)
unfolding get_number deserialize from_bytes
get_number-done size acc input h =
    rw
      (
        le→ltb (length (drop acc input)) size (omega (arith, length-drop acc input)),
        deserialize,
        get_number,
      )
      refl

-- The string that the bytes of a name become, behind one that is there.
unfoldable pub chars : Bytes → Bytes → Bytes
chars before [] = before
chars before (b ∷ bs) = chars (push_char before b) bs

get_name-chars :
    (name before : Bytes) (i : ℕ) (input : Bytes) (acc : ℕ)
    → i + length name ≤ length (drop acc input)
    → ((t : ℕ) → t < length name → get_or (drop acc input) (i + t) 0 ≡ get_or name t 0)
    → get_name (length name) i before input acc ≡ (done (chars before name), acc)
unfolding get_name chars
get_name-chars [] before i input acc h same = refl
get_name-chars (b ∷ name) before i input acc h same =
    let byte : get_or (drop acc input) i 0 ≡ b =
      ap (λ k. get_or (drop acc input) k 0) {y = i + 0} (omega arith) ∙ same 0 (omega arith) in
    rw (gt→leb (length (drop acc input)) i (omega arith), byte)
      (get_name-chars name (push_char before b) (i + 1) input acc (omega arith) (λ t k.
        ap (λ k. get_or (drop acc input) k 0) {y = i + suc t} (omega arith)
        ∙ same (suc t) (omega arith)))

-- What the source reads of an entry.
abbrev pub read_as : DirEntry → DirEntry
read_as e = record e { name = chars [] e.name }

module _ (buf : Bytes) (o : ℕ) (e : DirEntry) (whole : length buf ≡ 1024) (T : Tile buf o e) where
  abbrev input : Bytes
  input = drop o buf

  length-input : length input ≡ 1024 - o
  length-input = omega (arith, length-drop o buf, whole)

  at : (i j : ℕ) → i ≡ o + j → get_or input j 0 ≡ get_or buf i 0
  at i j h = get_or-drop o buf j ∙ ap (λ k. get_or buf k 0) (sym h)

  inode_read : from_le_bytes (take 4 (drop 0 input)) ≡ e.inode
  inode_read = omega (
    arith,
    T.inode,
    next_byte 3 0 input,
    next_byte 2 1 input,
    next_byte 1 2 input,
    number_1 3 input,
    at o 0 (omega arith),
    at (o + 1) 1 refl,
    at (o + 2) 2 refl,
    at (o + 2 + 1) 3 (omega arith),
  )

  rec_len_read : from_le_bytes (take 2 (drop 4 input)) ≡ e.rec_len
  rec_len_read = omega (
    arith,
    T.rec_len,
    next_byte 1 4 input,
    number_1 5 input,
    at (o + 4) 4 refl,
    at (o + 4 + 1) 5 (omega arith),
  )

  room : 8 + length e.name ≤ length input
  room = omega (arith, length-input, T.fits, T.inside)

  name_read : get_name (length e.name) 0 [] input 8 ≡ (done (chars [] e.name), 8)
  name_read = get_name-chars e.name [] 0 input 8 (omega (arith, length-drop 8 input, room)) (λ t h.
      get_or-drop 8 input (0 + t)
      ∙ ap (λ k. get_or input k 0) {y = 8 + t} (omega arith)
      ∙ at (o + (8 + t)) (8 + t) refl
      ∙ T.name t h)

  number :
      (size acc n : ℕ)
      → acc + size ≤ 8
      → from_le_bytes (take size (drop acc input)) ≡ n
      → get_number little size input acc ≡ (done n, acc + size)
  number size acc n h value =
      get_number-done size acc input (omega (arith, room)) ∙ ap (λ k. (done k, acc + size)) value

  pub deserialize_entry-Tile : deserialize_entry little input ≡ (done (read_as e), e.rec_len)
  unfolding deserialize_entry
  deserialize_entry-Tile =
      rw
        (
          number 4 0 e.inode (omega arith) inode_read,
          number 2 4 e.rec_len (omega arith) rec_len_read,
          number 1 6 (length e.name) (omega arith)
              (number_1 6 input ∙ at (o + 6) 6 refl ∙ T.name_len),
          number 1 7 e.file_type (omega arith) (number_1 7 input ∙ at (o + 7) 7 refl ∙ T.file_type),
          name_read,
        )
        refl
