-- ===== src/Ext2/Entries/Adding.antt =====
-- A new entry in a block, against the list of the block's entries.
use dvida_oxide.Prelude.{
  ℕ, zero, suc, ◌+◌, ◌-◌, ◌^◌, ◌≤◌, ◌<◌, ◌≡◌, ◌⊎◌, inl, inr, refl, ap, ap₂, sym, ◌∙◌, subst, Bool,
  true, false, Bool-cases, Option, none, some, List, [], ◌∷◌, ◌++◌, length, get_or, take, drop,
  length-drop, leb, leb→le, ltb, lt→ltb, le→ltb, if◌then◌else◌, arith,
}
use dvida_oxide.Serialize.{little}
use dvida_oxide.Ext2.{Bytes, Res, done, ◌then◌}
use dvida_oxide.Ext2.Entries.{
  DirEntry, min_reclen, record_length, new, as_u16, sub_u16, put_u16, serialize_entry, place_entry,
  place_behind, add_in_block,
}
use dvida_oxide.Ext2.Entries.Slices.{
  length-put_u16, put_u16-other, u16_of-put_u16, length-splice, get_or-splice_low,
  get_or-splice_high, get_or-drop,
}
use dvida_oxide.Ext2.Entries.Fields.{Written, serialize_entry-Written}
use dvida_oxide.Ext2.Entries.Tiles.{
  used, needed, Tile, Tiled, Tile-keep, Tiled-same, partial_of, partial_at-Tile, min_reclen-used,
  record_length-needed, record_length-new,
}

-- The rest of an entry's record goes to the new one.
abbrev pub behind : ℕ → Bytes → DirEntry → DirEntry
behind inode name e = record {
  inode = inode;
  rec_len = e.rec_len - used e;
  file_type = 0;
  name = name;
}

abbrev pub shrunk : DirEntry → DirEntry
shrunk e = record e { rec_len = used e }

-- The new entry stands behind the first one whose record has room for it.
unfoldable pub insert_entry : ℕ → Bytes → List DirEntry → Option (List DirEntry)
insert_entry inode name [] = none
insert_entry inode name (e ∷ es) =
    let rest : Option (List DirEntry) = elim (insert_entry inode name es) [
      | none ↦ none
      | some es' ↦ some (e ∷ es')
    ] in
    if leb (needed name) (e.rec_len - used e)
    then some (shrunk e ∷ behind inode name e ∷ es)
    else rest

module _ (inode : ℕ) (name : Bytes) (short : length name < 256) (number : inode < 2 ^ 32) where
  -- What a call leaves of a block whose entries are given: with no room the block as it was.
  unfoldable pub Adds : Bytes → ℕ → Option (List DirEntry) → Res Bool × Bytes → Type 0
  Adds buf o none out = out ≡ (done false, buf)
  Adds buf o (some es) out =
      (buf' : Bytes) × (out ≡ (done true, buf'))
      × Tiled buf' o es
      × (length buf' ≡ 1024)
      × ((j : ℕ) → j < o → get_or buf' j 0 ≡ get_or buf j 0)

  -- The two records that come from the one of `e`.
  module _ (buf : Bytes) (o : ℕ) (e : DirEntry) (whole : length buf ≡ 1024) (T : Tile buf o e)
      (room : needed name ≤ e.rec_len - used e) where
    abbrev shortened : Bytes
    shortened = put_u16 buf (o + 4) (used e)

    length-shortened : length shortened ≡ 1024
    length-shortened = length-put_u16 buf (o + 4) (used e) ∙ whole

    -- The slice that the new entry is written over.
    module _ (slice : Bytes)
        (W : Written
          (record (new inode name) { rec_len = e.rec_len - used e })
          (drop (o + used e) shortened)
          slice) where
      abbrev buf' : Bytes
      buf' = take (o + used e) shortened ++ slice

      in_block : o + used e ≤ length shortened
      in_block = omega (arith, length-shortened, T.fits, T.inside)

      slice_whole : length slice ≡ length shortened - (o + used e)
      slice_whole = W.whole ∙ length-drop (o + used e) shortened

      low : (j : ℕ) → j < o + used e → get_or buf' j 0 ≡ get_or shortened j 0
      low = get_or-splice_low (o + used e) shortened slice in_block slice_whole

      high : (j : ℕ) → get_or buf' (o + used e + j) 0 ≡ get_or slice j 0
      high = get_or-splice_high (o + used e) shortened slice in_block slice_whole

      length-placed : length buf' ≡ 1024
      length-placed =
          length-splice (o + used e) shortened slice in_block slice_whole ∙ length-shortened

      shrunk-Tile : Tile buf' o (shrunk e)
      shrunk-Tile =
          Tile-keep buf buf' o (used e) e T
            (λ j from to h. low j to ∙ put_u16-other buf (o + 4) (used e) j (apart j h))
            (omega (
              arith,
              low (o + 4) (omega arith),
              low (o + 4 + 1) (omega arith),
              u16_of-put_u16 buf (o + 4) (used e) (omega (arith, whole, T.fits, T.inside))
                  (omega (arith, T.fits, T.inside)),
            ))
            (omega arith) (omega (arith, T.fits, T.inside))
        where
          apart : (j : ℕ) → (j < o + 4) ⊎ (o + 6 ≤ j) → (j < o + 4) ⊎ (o + 4 + 2 ≤ j)
          apart j (inl h) = inl h
          apart j (inr h) = inr (omega arith)

      there : (i j : ℕ) → i ≡ o + used e + j → get_or buf' i 0 ≡ get_or slice j 0
      there i j h = ap (λ k. get_or buf' k 0) h ∙ high j

      behind-Tile : Tile buf' (o + used e) (behind inode name e)
      behind-Tile =
          let at : ℕ = o + used e in
          record {
            inode = omega (
              arith,
              W.inode,
              there at 0 (omega arith),
              there (at + 1) 1 (omega arith),
              there (at + 2) 2 (omega arith),
              there (at + 2 + 1) 3 (omega arith),
            );
            rec_len = omega (
              arith,
              W.rec_len,
              record_length-needed (record (new inode name) { rec_len = e.rec_len - used e }) short
                  room,
              there (at + 4) 4 (omega arith),
              there (at + 4 + 1) 5 (omega arith),
            );
            name_len = there (at + 6) 6 refl ∙ W.name_len;
            file_type = there (at + 7) 7 refl ∙ W.file_type;
            name = λ t h. there (at + (8 + t)) (8 + t) refl ∙ W.name t h;
            fits = omega (arith, room);
            inside = omega (arith, T.fits, T.inside);
          }

      after_tiles : (j : ℕ) → o + e.rec_len ≤ j → get_or buf' j 0 ≡ get_or buf j 0
      after_tiles j h =
          ap (λ k. get_or buf' k 0) {y = o + used e + (j - (o + used e))} (omega (arith, T.fits))
          ∙ high (j - (o + used e))
          ∙ W.outside (j - (o + used e)) (omega (arith, room, T.fits))
          ∙ get_or-drop (o + used e) shortened (j - (o + used e))
          ∙ ap (λ k. get_or shortened k 0) {y = j} (omega (arith, T.fits))
          ∙ put_u16-other buf (o + 4) (used e) j (inr (omega (arith, T.fits)))

      before_tiles : (j : ℕ) → j < o → get_or buf' j 0 ≡ get_or buf j 0
      before_tiles j h =
          low j (omega arith) ∙ put_u16-other buf (o + 4) (used e) j (inl (omega arith))

    abbrev entry : DirEntry
    entry = record (new inode name) { rec_len = e.rec_len - used e }

    length-entry : record_length entry ≡ e.rec_len - used e
    length-entry = record_length-needed entry short room

    place_behind-done :
        (n : ℕ) (slice : Bytes)
        → serialize_entry little entry (drop (o + used e) shortened) ≡ (done n, slice)
        → place_behind (new inode name) (used e) (e.rec_len - used e) o buf
          ≡ (done n, take (o + used e) shortened ++ slice)
    unfolding place_behind
    place_behind-done n slice goes =
        rw
          (
            goes,
            le→ltb (length shortened) (o + used e)
                (omega (arith, length-shortened, T.fits, T.inside)),
          )
          refl

    place_entry-behind :
        place_entry (new inode name) (partial_of e) o buf
        ≡ place_behind (new inode name) (used e) (e.rec_len - used e) o buf
    place_entry-behind =
        let min : min_reclen (partial_of e) ≡ used e =
          min_reclen-used e (omega (arith, T.fits, T.inside)) in
        let left : sub_u16 e.rec_len (used e) ≡ e.rec_len - used e =
          omega (arith, T.fits, T.inside) in
        ap (λ m. place_behind (new inode name) m (sub_u16 e.rec_len m) o buf) min
        ∙ ap (λ r. place_behind (new inode name) (used e) r o buf) left

    place_entry-Adds :
        (es : List DirEntry)
        → Tiled buf (o + e.rec_len) es
        → Adds buf o
            (some (shrunk e ∷ behind inode name e ∷ es))
            (place_entry (new inode name) (partial_of e) o buf then λ _ buf'. (done true, buf'))
    unfolding Tiled Adds
    place_entry-Adds es rest =
        let (slice, goes, W) =
          serialize_entry-Written entry (drop (o + used e) shortened) short
            (omega
              (arith, length-drop (o + used e) shortened, length-shortened, room, T.fits, T.inside))
            number (omega (arith, length-entry, T.fits, T.inside)) (omega arith) in
        (
          take (o + used e) shortened ++ slice,
          ap (λ r. r then λ _ buf'. (done true, buf'))
              (place_entry-behind ∙ place_behind-done _ slice goes),
          (
            shrunk-Tile slice W,
            (
              behind-Tile slice W,
              Tiled-same buf (buf' slice W) (o + used e + (e.rec_len - used e)) es
                  (λ j h. after_tiles slice W j (omega (arith, h, T.fits)))
                  (subst (λ k. Tiled buf k es) {x = o + e.rec_len}
                    {y = o + used e + (e.rec_len - used e)} (omega (arith, T.fits)) rest),
            ),
          ),
          length-placed slice W,
          before_tiles slice W,
        )

  -- A round of the loop on an entry.
  add_in_block-round :
      (fuel o : ℕ) (buf : Bytes) (e : DirEntry)
      → length buf ≡ 1024
      → Tile buf o e
      → add_in_block 1024 (new inode name) (suc fuel) o buf ≡ (
          if leb (needed name) (e.rec_len - used e)
          then (place_entry (new inode name) (partial_of e) o buf then λ _ buf'. (done true, buf'))
          else add_in_block 1024 (new inode name) fuel (o + e.rec_len) buf)
  unfolding add_in_block
  add_in_block-round fuel o buf e whole T =
      let known : record_length (new inode name) ≡ needed name =
        record_length-new inode name short in
      let left : sub_u16 e.rec_len (min_reclen (partial_of e)) ≡ e.rec_len - used e =
        ap (sub_u16 e.rec_len) (min_reclen-used e (omega (arith, T.fits, T.inside)))
        ∙ omega (arith, T.fits, T.inside) in
      let in_order : ltb (as_u16 1024) (as_u16 (e.rec_len + as_u16 o)) ≡ false =
        le→ltb (as_u16 1024) _ (omega (arith, T.inside)) in
      rw
        (
          lt→ltb o (length buf) (omega (arith, whole, T.fits, T.inside)),
          partial_at-Tile buf o e whole T,
          in_order,
        )
        (ap
          (λ b.
            if b
            then (place_entry (new inode name) (partial_of e) o buf then λ _ buf'.
                (done true, buf'))
            else add_in_block 1024 (new inode name) fuel (o + e.rec_len) buf)
          (ap₂ leb known left))

  later :
      (buf : Bytes) (o : ℕ) (e : DirEntry) (found : Option (List DirEntry)) (out : Res Bool × Bytes)
      → Tile buf o e
      → Adds buf (o + e.rec_len) found out
      → Adds buf o (elim found [ none ↦ none | some es ↦ some (e ∷ es) ]) out
  unfolding Adds Tiled
  later buf o e none out T h = h
  later buf o e (some es) out T (buf', goes, tiled, whole, same) = (
    buf',
    goes,
    (
      Tile-keep buf buf' o e.rec_len e T (λ j _ to _. same j (omega (arith, to, T.fits)))
          (omega (
            arith,
            T.rec_len,
            T.fits,
            same (o + 4) (omega (arith, T.fits)),
            same (o + 4 + 1) (omega (arith, T.fits)),
          ))
          T.fits T.inside,
      tiled,
    ),
    whole,
    λ j h. same j (omega arith),
  )

  -- For a name of less than 256 bytes and an inode of 32 bits, from a place of a block of 1024 bytes on that
  -- the entries fill: with a round for each entry and one more, add_in_block does what insert_entry does to
  -- the list of entries. With no room it leaves the block; else the block has its size, its entries from
  -- the place on are those of the new list, which fill it again, and the bytes before the place stay.
  pub add_in_block-Adds :
      (fuel o : ℕ) (buf : Bytes) (es : List DirEntry)
      → length buf ≡ 1024
      → Tiled buf o es
      → length es < fuel
      → Adds buf o (insert_entry inode name es) (add_in_block 1024 (new inode name) fuel o buf)
  unfolding add_in_block insert_entry Tiled Adds
  add_in_block-Adds zero o buf es whole T h = absurd (omega arith)
  add_in_block-Adds (suc fuel) o buf [] whole T h = rw (le→ltb o (length buf) (omega arith)) refl
  add_in_block-Adds (suc fuel) o buf (e ∷ es) whole (T, rest) h =
      subst (Adds buf o (insert_entry inode name (e ∷ es)))
        (sym (add_in_block-round fuel o buf e whole T))
        (elim (Bool-cases (leb (needed name) (e.rec_len - used e))) [
          | inl fits ↦ rw fits (place_entry-Adds buf o e whole T (leb→le _ _ fits) es rest)
          | inr full ↦ rw full (
              later buf o e (insert_entry inode name es) _ T
                (add_in_block-Adds fuel (o + e.rec_len) buf es whole rest (omega arith)))
        ])
