-- ===== src/Ext2/Entries/Tiles.antt =====
-- A block that its entries fill one after the other, and what they are as a list.
use dvida_oxide.Prelude.{
  ℕ, ◌+◌, ◌*◌, ◌/◌, ◌≤◌, ◌<◌, ◌≡◌, ◌⊎◌, inl, inr, ap, ap₂, ◌∙◌, some, List, [], ◌∷◌, length, get_or,
  le→ltb, bit_and, arith,
}
use dvida_oxide.Prelude.Words.{bit_and_round}
use dvida_oxide.Ext2.{Bytes}
use dvida_oxide.Ext2.Entries.{
  DirEntry, DirEntryPartial, partial_at, min_reclen, record_length, new, as_u16, u16_of, u32_of,
}

-- The bytes that an entry needs, with the two bytes behind the number of its length as one number.
abbrev pub used : DirEntry → ℕ
used e = (11 + length e.name + 256 * e.file_type) / 4 * 4

abbrev pub needed : Bytes → ℕ
needed name = (11 + length name) / 4 * 4

-- The entry that stands at a place.
pub record Tile (buf : Bytes) (o : ℕ) (e : DirEntry) : Type 0 where
  pub inode : u32_of buf o ≡ e.inode
  pub rec_len : u16_of buf (o + 4) ≡ e.rec_len
  pub name_len : get_or buf (o + 6) 0 ≡ length e.name
  pub file_type : get_or buf (o + 7) 0 ≡ e.file_type
  pub name : (t : ℕ) → t < length e.name → get_or buf (o + (8 + t)) 0 ≡ get_or e.name t 0
  pub fits : used e ≤ e.rec_len
  pub inside : o + e.rec_len ≤ 1024

-- The entries from a place on fill the rest of the block.
unfoldable pub Tiled : Bytes → ℕ → List DirEntry → Type 0
Tiled buf o [] = o ≡ 1024
Tiled buf o (e ∷ es) = Tile buf o e × Tiled buf (o + e.rec_len) es

-- A tile whose length may have changed.
pub Tile-keep :
    (buf buf' : Bytes) (o r : ℕ) (e : DirEntry)
    → Tile buf o e
    → ((j : ℕ)
        → o ≤ j
        → j < o + used e
        → (j < o + 4) ⊎ (o + 6 ≤ j)
        → get_or buf' j 0 ≡ get_or buf j 0)
    → u16_of buf' (o + 4) ≡ r
    → used e ≤ r
    → o + r ≤ 1024
    → Tile buf' o (record e { rec_len = r })
Tile-keep buf buf' o r e T same len fits inside = record {
  inode = omega (
    arith,
    T.inode,
    same o (omega arith) (omega arith) (inl (omega arith)),
    same (o + 1) (omega arith) (omega arith) (inl (omega arith)),
    same (o + 2) (omega arith) (omega arith) (inl (omega arith)),
    same (o + 2 + 1) (omega arith) (omega arith) (inl (omega arith)),
  );
  rec_len = len;
  name_len = same (o + 6) (omega arith) (omega arith) (inr (omega arith)) ∙ T.name_len;
  file_type = same (o + 7) (omega arith) (omega arith) (inr (omega arith)) ∙ T.file_type;
  name = λ t h. same (o + (8 + t)) (omega arith) (omega arith) (inr (omega arith)) ∙ T.name t h;
  fits = fits;
  inside = inside;
}

pub Tiled-same :
    (buf buf' : Bytes) (o : ℕ) (es : List DirEntry)
    → ((j : ℕ) → o ≤ j → get_or buf' j 0 ≡ get_or buf j 0)
    → Tiled buf o es
    → Tiled buf' o es
unfolding Tiled
Tiled-same buf buf' o [] same T = T
Tiled-same buf buf' o (e ∷ es) same (T, rest) = (
  Tile-keep buf buf' o e.rec_len e T (λ j h _ _. same j h)
      (omega (arith, T.rec_len, same (o + 4) (omega arith), same (o + 4 + 1) (omega arith))) T.fits
      T.inside,
  Tiled-same buf buf' (o + e.rec_len) es (λ j h. same j (omega arith)) rest,
)

-- What the source reads of a tile.
abbrev pub partial_of : DirEntry → DirEntryPartial
partial_of e = record {
  inode = e.inode;
  rec_len = e.rec_len;
  name_len = length e.name + 256 * e.file_type;
}

pub partial_at-Tile :
    (buf : Bytes) (o : ℕ) (e : DirEntry)
    → length buf ≡ 1024
    → Tile buf o e
    → partial_at buf o ≡ some (partial_of e)
unfolding partial_at
partial_at-Tile buf o e whole T =
    rw (le→ltb (length buf) (o + 8) (omega (arith, whole, T.fits, T.inside))) (
      ap₂ (λ i r. some (record { inode = i; rec_len = r; name_len = u16_of buf (o + 6) })) T.inode
        T.rec_len
      ∙ ap (λ n. some (record { inode = e.inode; rec_len = e.rec_len; name_len = n })) both)
  where
    both : u16_of buf (o + 6) ≡ length e.name + 256 * e.file_type
    both = omega (
      arith,
      T.name_len,
      ap (λ k. get_or buf k 0) {x = o + 6 + 1} {y = o + 7} (omega arith),
      T.file_type,
    )

pub min_reclen-used : (e : DirEntry) → used e ≤ 1024 → min_reclen (partial_of e) ≡ used e
min_reclen-used e h =
    let small : as_u16 (8 + (length e.name + 256 * e.file_type) + 3)
        ≡ 11 + length e.name + 256 * e.file_type =
      omega arith in
    ap (λ n. bit_and n 65532) small ∙ bit_and_round _ (omega arith)

pub record_length-needed :
    (e : DirEntry) → length e.name < 256 → needed e.name ≤ e.rec_len → record_length e ≡ e.rec_len
record_length-needed e short h =
    let small : as_u16 (as_u16 (8 + length e.name) + 3) ≡ 11 + length e.name = omega arith in
    let round : bit_and (as_u16 (as_u16 (8 + length e.name) + 3)) 65532 ≡ needed e.name =
      ap (λ n. bit_and n 65532) small ∙ bit_and_round (11 + length e.name) (omega arith) in
    omega (arith, round, h)

pub record_length-new :
    (inode : ℕ) (name : Bytes) → length name < 256 → record_length (new inode name) ≡ needed name
record_length-new inode name short =
    let small : as_u16 (as_u16 (8 + length name) + 3) ≡ 11 + length name = omega arith in
    let round : bit_and (as_u16 (as_u16 (8 + length name) + 3)) 65532 ≡ needed name =
      ap (λ n. bit_and n 65532) small ∙ bit_and_round (11 + length name) (omega arith) in
    omega (arith, round)
