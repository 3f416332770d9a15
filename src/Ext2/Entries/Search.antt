-- ===== src/Ext2/Entries/Search.antt =====
-- The search by name in a block, against the list of the block's entries.
use dvida_oxide.Prelude.{
  ℕ, zero, suc, ◌+◌, ◌-◌, ◌^◌, ◌≤◌, ◌<◌, ◌≡◌, inl, inr, refl, ap, sym, subst, Bool, true, false,
  not, ◌&&◌, Bool-cases, Option, none, some, List, [], ◌∷◌, length, lt→ltb, le→ltb, ◌==◌, ==→eq,
  if◌then◌else◌, arith,
}
use dvida_oxide.Ext2.{Bytes, Res, done, ◌then◌, as_u32}
use dvida_oxide.Ext2.Entries.{
  DirEntry, same_bytes, is_special, Searching, find_entry_by_name_in_block, check_entry,
  behind_entry,
}
use dvida_oxide.Ext2.Entries.Tiles.{Tile, Tiled}
use dvida_oxide.Ext2.Entries.Decoding.{chars, read_as, deserialize_entry-Tile}

-- Whether a search for a name stops at an entry.
abbrev pub matches : Bytes → DirEntry → Bool
matches name e =
    not (is_special (chars [] e.name)) && (not (e.inode == 0) && same_bytes name (chars [] e.name))

-- The inode of the first entry that is in use and has the name.
unfoldable pub lookup : Bytes → List DirEntry → Option ℕ
lookup name [] = none
lookup name (e ∷ es) = if matches name e then some e.inode else lookup name es

module _ {ℓ} {S : Type ℓ} (write_sectors : Bytes → S → Res (Unit {0}) × S) (name : Bytes)
    (st : S) where
  abbrev find : ℕ → Searching → Res (Option ℕ × Bool × Bytes) × (ℕ × S)
  find fuel s = find_entry_by_name_in_block write_sectors 1024 name false false fuel s st

  -- A search that ends: its result, whether the directory ends, and what is left of it.
  pub record Finds (s : Searching) (found : Option ℕ)
      (out : Res (Option ℕ × Bool × Bytes) × (ℕ × S)) : Type ℓ where
    pub is_terminated : Bool
    pub remaining : ℕ
    pub returns : out ≡ (done (found, is_terminated, s.buf), (remaining, st))
    pub ends : is_terminated ≡ true → remaining ≡ 0
    pub all_read : found ≡ none → s.progr + s.remaining_size ≡ 1024 + remaining

  round :
      (fuel : ℕ) (s : Searching) (e : DirEntry)
      → length s.buf ≡ 1024
      → Tile s.buf s.progr e
      → find (suc fuel) s
        ≡ check_entry write_sectors name false false s st
            (as_u32 (s.remaining_size + 2 ^ 32 - e.rec_len))
            (find fuel (behind_entry write_sectors s e.rec_len))
            (read_as e)
  unfolding find_entry_by_name_in_block
  round fuel s e whole T = rw (lt→ltb s.progr 1024 (omega (arith, T.fits, T.inside))) (
      ap
        (λ d. (d.0, (s.remaining_size, st)) then λ entry _.
          check_entry write_sectors name false false s st (as_u32 (s.remaining_size + 2 ^ 32 - d.1))
            (find fuel (behind_entry write_sectors s d.1)) entry)
        (deserialize_entry-Tile s.buf s.progr e whole T))

  check_entry-Finds :
      (s : Searching) (rest : Res (Option ℕ × Bool × Bytes) × (ℕ × S)) (e : DirEntry)
      (es : List DirEntry)
      → e.rec_len ≤ s.remaining_size
      → s.remaining_size < 2 ^ 32
      → Finds (behind_entry write_sectors s e.rec_len) (lookup name es) rest
      → (s.remaining_size ≡ e.rec_len → (lookup name es ≡ none) × (s.progr + e.rec_len ≡ 1024))
      → Finds s (lookup name (e ∷ es)) (
          check_entry write_sectors name false false s st
            (as_u32 (s.remaining_size + 2 ^ 32 - e.rec_len))
            rest
            (read_as e))
  unfolding check_entry lookup
  check_entry-Finds s rest e es room word F ends =
      let remaining : ℕ = as_u32 (s.remaining_size + 2 ^ 32 - e.rec_len) in
      elim (Bool-cases (is_special (chars [] e.name))) [
        | inl special ↦ elim (Bool-cases (remaining == 0)) [
          | inl over ↦ rw (special, over) (over_with true (==→eq _ _ over))
          | inr more ↦ rw (special, more) on
        ]
        | inr plain ↦ elim (Bool-cases (e.inode == 0)) [
          | inl unused ↦ elim (Bool-cases (remaining == 0)) [
            | inl over ↦ rw (plain, unused, over) (over_with false (==→eq _ _ over))
            | inr more ↦ rw (plain, unused, more) on
          ]
          | inr in_use ↦ elim (Bool-cases (same_bytes name (chars [] e.name))) [
            | inl here ↦
                rw (plain, in_use, here)
                  (record {
                    is_terminated = remaining == 0;
                    remaining = remaining;
                    returns = refl;
                    ends = λ h. ==→eq _ _ h;
                    all_read = λ h. absurd (cc h);
                  })
            | inr other ↦ elim (Bool-cases (remaining == 0)) [
              | inl over ↦ rw (plain, in_use, other, over) (over_with false (==→eq _ _ over))
              | inr more ↦ rw (plain, in_use, other, more) on
            ]
          ]
        ]
      ]
    where
      on : Finds s (lookup name es) rest
      on = record {
        is_terminated = F.is_terminated;
        remaining = F.remaining;
        returns = F.returns;
        ends = F.ends;
        all_read = λ h. omega (arith, F.all_read h);
      }

      over_with :
          (t : Bool)
          → as_u32 (s.remaining_size + 2 ^ 32 - e.rec_len) ≡ 0
          → Finds s
              (lookup name es)
              (done (none, t, s.buf), (as_u32 (s.remaining_size + 2 ^ 32 - e.rec_len), st))
      over_with t h =
          let (nothing, all) = ends (omega (arith, h)) in
          record {
            is_terminated = t;
            remaining = as_u32 (s.remaining_size + 2 ^ 32 - e.rec_len);
            returns =
                ap (λ f. (done (f, t, s.buf), (as_u32 (s.remaining_size + 2 ^ 32 - e.rec_len), st)))
                  (sym nothing);
            ends = λ _. h;
            all_read = λ _. omega (arith, h, all);
          }

  pub find_entry_by_name_in_block-Finds :
      (fuel : ℕ) (s : Searching) (es : List DirEntry)
      → length s.buf ≡ 1024
      → Tiled s.buf s.progr es
      → 1024 ≤ s.progr + s.remaining_size
      → s.remaining_size < 2 ^ 32
      → length es < fuel
      → Finds s (lookup name es) (find fuel s)
  unfolding find_entry_by_name_in_block lookup Tiled
  find_entry_by_name_in_block-Finds zero s es whole T left word h = absurd (omega arith)
  find_entry_by_name_in_block-Finds (suc fuel) s [] whole T left word h =
      rw (le→ltb s.progr 1024 (omega arith)) (record {
        is_terminated = false;
        remaining = s.remaining_size;
        returns = refl;
        ends = λ h. absurd (cc h);
        all_read = λ _. omega arith;
      })
  find_entry_by_name_in_block-Finds (suc fuel) s (e ∷ es) whole (T, rest) left word h =
      subst (Finds s (lookup name (e ∷ es))) (sym (round fuel s e whole T)) (
        check_entry-Finds s _ e es (omega (arith, T.inside)) word
          (find_entry_by_name_in_block-Finds fuel (behind_entry write_sectors s e.rec_len) es whole
            rest (omega (arith, T.inside)) (omega arith) (omega arith))
          (ended es rest))
    where
      ended :
          (es : List DirEntry)
          → Tiled s.buf (s.progr + e.rec_len) es
          → s.remaining_size ≡ e.rec_len
          → (lookup name es ≡ none) × (s.progr + e.rec_len ≡ 1024)
      ended [] t z = (refl, t)
      ended (f ∷ es) (t, _) z = absurd (omega (arith, z, t.fits, t.inside, T.inside))
