-- ===== src/Ext2/Entries/Sample.antt =====
-- A block with two entries.
use dvida_oxide.Prelude.{
  ℕ, zero, suc, ◌+◌, ◌<◌, ◌≡◌, refl, List, [], ◌∷◌, ◌++◌, get_or, replicate, arith,
}
use dvida_oxide.Ext2.{Bytes}
use dvida_oxide.Ext2.Entries.{DirEntry}
use dvida_oxide.Ext2.Entries.Tiles.{Tiled}

-- "." with inode 2, and "ab" with inode 12 and the rest of the block.
abbrev pub bytes : Bytes
bytes =
    (2 ∷ 0 ∷ 0 ∷ 0 ∷ 12 ∷ 0 ∷ 1 ∷ 0 ∷ 46 ∷ 0 ∷ 0 ∷ 0 ∷ [])
    ++ ((12 ∷ 0 ∷ 0 ∷ 0 ∷ 244 ∷ 3 ∷ 2 ∷ 0 ∷ 97 ∷ 98 ∷ 0 ∷ 0 ∷ []) ++ replicate 1000 0)

abbrev pub entries : List DirEntry
entries =
    record { inode = 2; rec_len = 12; file_type = 0; name = 46 ∷ [] }
    ∷ record { inode = 12; rec_len = 1012; file_type = 0; name = 97 ∷ 98 ∷ [] }
    ∷ []

dot : (t : ℕ) → t < 1 → get_or bytes (0 + (8 + t)) 0 ≡ get_or (46 ∷ []) t 0
dot zero h = refl
dot (suc t) h = absurd (omega arith)

ab : (t : ℕ) → t < 2 → get_or bytes (12 + (8 + t)) 0 ≡ get_or (97 ∷ 98 ∷ []) t 0
ab zero h = refl
ab (suc zero) h = refl
ab (suc (suc t)) h = absurd (omega arith)

pub bytes-Tiled : Tiled bytes 0 entries
unfolding Tiled
bytes-Tiled = (
  record {
    inode = refl;
    rec_len = refl;
    name_len = refl;
    file_type = refl;
    name = dot;
    fits = omega arith;
    inside = omega arith;
  },
  (
    record {
      inode = refl;
      rec_len = refl;
      name_len = refl;
      file_type = refl;
      name = ab;
      fits = omega arith;
      inside = omega arith;
    },
    refl,
  ),
)
