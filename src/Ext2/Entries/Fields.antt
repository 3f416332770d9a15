-- ===== src/Ext2/Entries/Fields.antt =====
-- The bytes of an entry that is written.
use dvida_oxide.Prelude.{
  ℕ, ◌+◌, ◌-◌, ◌%◌, ◌^◌, ◌≤◌, ◌<◌, ◌≡◌, ◌⊎◌, inl, inr, refl, ap, ◌∙◌, ◌++◌, length, get_or, take,
  drop, length-append, length-drop, le→ltb, arith,
}
use dvida_oxide.Serialize.{little, to_le_bytes, to_bytes, serialize}
use dvida_oxide.Serialize.RoundTrip.{length-to_le_bytes}
use dvida_oxide.Ext2.{Bytes, done}
use dvida_oxide.Ext2.Entries.{DirEntry, record_length, put_number, serialize_entry, u16_of, u32_of}
use dvida_oxide.Ext2.Entries.Slices.{
  Named, put_name-Named, length-splice, get_or-splice_low, get_or-splice_high, get_or-append_low,
  get_or-append_high, get_or-drop,
}

-- A target with a number at a place.
put : ℕ → ℕ → ℕ → Bytes → Bytes
put size n acc target = take acc target ++ (to_le_bytes size n ++ drop size (drop acc target))

module _ (size n acc : ℕ) (target : Bytes) (fits : acc + size ≤ length target) where
  abbrev bytes : Bytes
  bytes = to_le_bytes size n

  abbrev slice : Bytes
  slice = bytes ++ drop size (drop acc target)

  slice_whole : length slice ≡ length target - acc
  slice_whole =
      length-append bytes (drop size (drop acc target))
      ∙ omega (
        arith,
        length-to_le_bytes size n,
        length-drop size (drop acc target),
        length-drop acc target,
      )

  behind : (j : ℕ) → acc + size ≤ j → get_or (take acc target ++ slice) j 0 ≡ get_or target j 0
  behind j h =
      ap (λ k. get_or (take acc target ++ slice) k 0) {y = acc + (j - acc)} (omega arith)
      ∙ get_or-splice_high acc target slice (omega arith) slice_whole (j - acc)
      ∙ ap (λ k. get_or slice k 0) {y = length bytes + (j - acc - size)}
          (omega (arith, length-to_le_bytes size n))
      ∙ get_or-append_high bytes (drop size (drop acc target)) (j - acc - size)
      ∙ get_or-drop size (drop acc target) (j - acc - size)
      ∙ get_or-drop acc target (size + (j - acc - size))
      ∙ ap (λ k. get_or target k 0) (omega arith)

  outside :
      (j : ℕ)
      → (j < acc) ⊎ (acc + length bytes ≤ j)
      → get_or (take acc target ++ slice) j 0 ≡ get_or target j 0
  outside j (inl h) = get_or-splice_low acc target slice (omega arith) slice_whole j h
  outside j (inr h) = behind j (omega (arith, length-to_le_bytes size n))

  put-Named : Named bytes acc target (put size n acc target)
  unfolding put
  put-Named = record {
    whole = length-splice acc target slice (omega arith) slice_whole;
    inside = λ t h.
        get_or-splice_high acc target slice (omega arith) slice_whole t
        ∙ get_or-append_low bytes (drop size (drop acc target)) t h;
    outside = outside;
  }

  put_number-put : put_number little size n acc target ≡ (done (acc + size), put size n acc target)
  unfolding put_number serialize to_bytes put
  put_number-put =
      rw
        (
          le→ltb (length (drop acc target)) size (omega (arith, length-drop acc target)),
          serialize,
          put_number,
        )
        refl

-- What a serialized entry holds, and what it leaves.
pub record Written (e : DirEntry) (target after : Bytes) : Type 0 where
  pub whole : length after ≡ length target
  pub inode : u32_of after 0 ≡ e.inode
  pub rec_len : u16_of after 4 ≡ record_length e
  pub name_len : get_or after 6 0 ≡ length e.name
  pub file_type : get_or after 7 0 ≡ e.file_type
  pub name : (t : ℕ) → t < length e.name → get_or after (8 + t) 0 ≡ get_or e.name t 0
  pub outside : (j : ℕ) → 8 + length e.name ≤ j → get_or after j 0 ≡ get_or target j 0

-- The five pieces of an entry, one over the other.
layers :
    (e : DirEntry) (target t1 t2 t3 t4 after : Bytes)
    → length e.name < 256
    → e.inode < 2 ^ 32
    → record_length e < 2 ^ 16
    → e.file_type < 256
    → Named (to_le_bytes 4 e.inode) 0 target t1
    → Named (to_le_bytes 2 (record_length e)) 4 t1 t2
    → Named (to_le_bytes 1 (length e.name % 256)) 6 t2 t3
    → Named (to_le_bytes 1 e.file_type) 7 t3 t4
    → Named e.name 8 t4 after
    → Written e target after
unfolding to_le_bytes
layers e target t1 t2 t3 t4 after short inode word file_type N1 N2 N3 N4 N5 = record {
  whole = N5.whole ∙ N4.whole ∙ N3.whole ∙ N2.whole ∙ N1.whole;
  inode = omega (
    arith,
    above_1 0 (omega arith),
    N1.inside 0 (omega arith),
    above_1 1 (omega arith),
    N1.inside 1 (omega arith),
    above_1 2 (omega arith),
    N1.inside 2 (omega arith),
    above_1 3 (omega arith),
    N1.inside 3 (omega arith),
  );
  rec_len = omega (
    arith,
    above_2 4 (omega arith),
    N2.inside 0 (omega arith),
    above_2 5 (omega arith),
    N2.inside 1 (omega arith),
  );
  name_len = omega (
    arith,
    N5.outside 6 (inl (omega arith)),
    N4.outside 6 (inl (omega arith)),
    N3.inside 0 (omega arith),
  );
  file_type = omega (arith, N5.outside 7 (inl (omega arith)), N4.inside 0 (omega arith));
  name = N5.inside;
  outside = λ j h.
      N5.outside j (inr (omega arith))
      ∙ N4.outside j (inr (omega arith))
      ∙ N3.outside j (inr (omega arith))
      ∙ N2.outside j (inr (omega arith))
      ∙ N1.outside j (inr (omega arith));
}
  where
    above_2 : (j : ℕ) → j < 6 → get_or after j 0 ≡ get_or t2 j 0
    above_2 j h =
        N5.outside j (inl (omega arith))
        ∙ N4.outside j (inl (omega arith))
        ∙ N3.outside j (inl (omega arith))

    above_1 : (j : ℕ) → j < 4 → get_or after j 0 ≡ get_or t1 j 0
    above_1 j h = above_2 j (omega arith) ∙ N2.outside j (inl (omega arith))

pub serialize_entry-Written :
    (e : DirEntry) (target : Bytes)
    → length e.name < 256
    → 8 + length e.name ≤ length target
    → e.inode < 2 ^ 32
    → record_length e < 2 ^ 16
    → e.file_type < 256
    → (after : Bytes) × (serialize_entry little e target ≡ (done (record_length e), after))
      × Written e target after
unfolding serialize_entry
serialize_entry-Written e target short fits inode word file_type =
    let t1 : Bytes = put 4 e.inode 0 target in
    let N1 = put-Named 4 e.inode 0 target (omega arith) in
    let t2 : Bytes = put 2 (record_length e) 4 t1 in
    let N2 = put-Named 2 (record_length e) 4 t1 (omega (arith, N1.whole)) in
    let t3 : Bytes = put 1 (length e.name % 256) 6 t2 in
    let N3 = put-Named 1 (length e.name % 256) 6 t2 (omega (arith, N1.whole, N2.whole)) in
    let t4 : Bytes = put 1 e.file_type 7 t3 in
    let N4 = put-Named 1 e.file_type 7 t3 (omega (arith, N1.whole, N2.whole, N3.whole)) in
    let (after, goes, N5) =
      put_name-Named e.name 8 t4 (omega (arith, N1.whole, N2.whole, N3.whole, N4.whole)) in
    (
      after,
      rw
          (
            le→ltb 255 (length e.name) (omega arith),
            put_number-put 4 e.inode 0 target (omega arith),
            put_number-put 2 (record_length e) 4 t1 (omega (arith, N1.whole)),
            put_number-put 1 (length e.name % 256) 6 t2 (omega (arith, N1.whole, N2.whole)),
            put_number-put 1 e.file_type 7 t3 (omega (arith, N1.whole, N2.whole, N3.whole)),
            goes,
          )
          refl,
      layers e target t1 t2 t3 t4 after short inode word file_type N1 N2 N3 N4 N5,
    )
