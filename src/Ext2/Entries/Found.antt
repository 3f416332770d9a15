-- ===== src/Ext2/Entries/Found.antt =====
-- A new entry is found again, and the others as before.
use dvida_oxide.Prelude.{
  ℕ, ◌+◌, ◌-◌, ◌*◌, ◌^◌, ◌≤◌, ◌<◌, ◌≡◌, ◌≢◌, ◌⊎◌, inl, inr, refl, ap, sym, ◌∙◌, subst, Bool, true,
  false, Bool-cases, Option, none, some, Option-cases, List, [], ◌∷◌, ◌++◌, append-nil,
  append_assoc, length, lt→ltb, leb, ==_refl, ne→==, if◌then◌else◌, arith,
}
use dvida_oxide.Prelude.Results.{some_inj}
use dvida_oxide.Ext2.{Bytes, Res, done}
use dvida_oxide.Ext2.Entries.{
  DirEntry, new, block_start, same_bytes, is_special, add_in_block, find_entry_by_name_in_block,
}
use dvida_oxide.Ext2.Entries.Tiles.{used, needed, Tiled}
use dvida_oxide.Ext2.Entries.Adding.{behind, shrunk, insert_entry, Adds, add_in_block-Adds}
use dvida_oxide.Ext2.Entries.Decoding.{chars}
use dvida_oxide.Ext2.Entries.Search.{matches, lookup, Finds, find_entry_by_name_in_block-Finds}

-- A string of characters that take one byte each.
unfoldable pub IsAscii : Bytes → Type 0
IsAscii [] = Unit
IsAscii (b ∷ bs) = (b < 128) × IsAscii bs

chars-IsAscii : (name before : Bytes) → IsAscii name → chars before name ≡ before ++ name
unfolding chars IsAscii
chars-IsAscii [] before h = sym (append-nil before)
chars-IsAscii (b ∷ name) before (low, h) =
    rw (lt→ltb b 128 low)
      (chars-IsAscii name (before ++ b ∷ []) h ∙ append_assoc before (b ∷ []) name)

same_bytes_refl : (name : Bytes) → same_bytes name name ≡ true
unfolding same_bytes
same_bytes_refl [] = refl
same_bytes_refl (b ∷ name) = rw (==_refl b) (same_bytes_refl name)

-- Each entry takes eight bytes at least.
pub length-Tiled :
    (buf : Bytes) (o : ℕ) (es : List DirEntry) → Tiled buf o es → o + 8 * length es ≤ 1024
unfolding Tiled
length-Tiled buf o [] T = omega arith
length-Tiled buf o (e ∷ es) (T, rest) =
    omega (arith, T.fits, length-Tiled buf (o + e.rec_len) es rest)

-- Where the new entry went: behind the first one, or further down.
insert_entry-cases :
    (inode : ℕ) (name : Bytes) (e : DirEntry) (es es' : List DirEntry)
    → insert_entry inode name (e ∷ es) ≡ some es'
    → (shrunk e ∷ behind inode name e ∷ es ≡ es')
      ⊎ ((rest : List DirEntry) × (insert_entry inode name es ≡ some rest) × (e ∷ rest ≡ es'))
unfolding insert_entry
insert_entry-cases inode name e es es' h =
    elim (Bool-cases (leb (needed name) (e.rec_len - used e))) [
      | inl fits ↦ inl (
          some_inj (
            sym (ap (λ b. if b then some (shrunk e ∷ behind inode name e ∷ es) else further) fits)
            ∙ h))
      | inr full ↦
          let at_rest : further ≡ some es' =
            sym (ap (λ b. if b then some (shrunk e ∷ behind inode name e ∷ es) else further) full)
            ∙ h in
          elim (Option-cases (insert_entry inode name es)) [
            | inl no_room ↦ absurd (cc (at_rest, ap below no_room))
            | inr (rest, found) ↦ inr (rest, found, some_inj (sym (ap below found) ∙ at_rest))
          ]
    ]
  where
    below : Option (List DirEntry) → Option (List DirEntry)
    below found = elim found [ none ↦ none | some rest ↦ some (e ∷ rest) ]

    further : Option (List DirEntry)
    further = below (insert_entry inode name es)

lookup-none :
    (name : Bytes) (e : DirEntry) (es : List DirEntry)
    → lookup name (e ∷ es) ≡ none
    → (matches name e ≡ false) × (lookup name es ≡ none)
unfolding lookup
lookup-none name e es h = elim (Bool-cases (matches name e)) [
  | inl here ↦ absurd (cc (h, ap (λ b. if b then some e.inode else lookup name es) here))
  | inr other ↦ (other, sym (ap (λ b. if b then some e.inode else lookup name es) other) ∙ h)
]

module _ (inode : ℕ) (name : Bytes) (ascii : IsAscii name) (plain : is_special name ≡ false)
    (in_use : inode ≢ 0) where
  own : (e : DirEntry) → matches name (behind inode name e) ≡ true
  own e =
      let read : chars [] name ≡ name = chars-IsAscii name [] ascii in
      rw (read, plain, ne→== inode 0 in_use, same_bytes_refl name) refl

  others :
      (other : Bytes) (e : DirEntry)
      → same_bytes other name ≡ false
      → matches other (behind inode name e) ≡ false
  others other e h =
      let read : chars [] name ≡ name = chars-IsAscii name [] ascii in
      rw (read, plain, ne→== inode 0 in_use, h) refl

  lookup-insert_entry :
      (es es' : List DirEntry)
      → insert_entry inode name es ≡ some es'
      → lookup name es ≡ none
      → lookup name es' ≡ some inode
  unfolding insert_entry lookup
  lookup-insert_entry [] es' h absent = absurd (cc h)
  lookup-insert_entry (e ∷ es) es' h absent =
      let (not_first, absent') = lookup-none name e es absent in
      elim (insert_entry-cases inode name e es es' h) [
        | inl now ↦ ap (lookup name) (sym now) ∙ rw (not_first, own e) refl
        | inr (rest, found, now) ↦
            ap (lookup name) (sym now) ∙ rw not_first (lookup-insert_entry es rest found absent')
      ]

  lookup-insert_entry_other :
      (other : Bytes) (es es' : List DirEntry)
      → same_bytes other name ≡ false
      → insert_entry inode name es ≡ some es'
      → lookup other es' ≡ lookup other es
  unfolding insert_entry lookup
  lookup-insert_entry_other other [] es' differ h = absurd (cc h)
  lookup-insert_entry_other other (e ∷ es) es' differ h =
      elim (insert_entry-cases inode name e es es' h) [
        | inl now ↦ ap (lookup other) (sym now) ∙ rw (others other e differ) refl
        | inr (rest, found, now) ↦
            ap (lookup other) (sym now)
            ∙ ap (λ r. if matches other e then some e.inode else r)
                (lookup-insert_entry_other other es rest differ found)
      ]

module _ {ℓ} {S : Type ℓ} (write_sectors : Bytes → S → Res (Unit {0}) × S) (st : S) where
  -- A search from the start of a block, with so much left of the directory.
  abbrev pub search : Bytes → ℕ → Bytes → Res (Option ℕ × Bool × Bytes) × (ℕ × S)
  search name remaining buf =
      find_entry_by_name_in_block write_sectors 1024 name false false 1024
        (block_start remaining buf) st

  pub record FoundAgain (inode : ℕ) (name : Bytes) (es : List DirEntry) (buf : Bytes) : Type ℓ where
    pub own :
        (remaining : ℕ)
        → 1024 ≤ remaining
        → remaining < 2 ^ 32
        → Finds write_sectors name st
            (block_start remaining buf)
            (some inode)
            (search name remaining buf)
    pub others :
        (other : Bytes) (remaining : ℕ)
        → same_bytes other name ≡ false
        → 1024 ≤ remaining
        → remaining < 2 ^ 32
        → Finds write_sectors other st
            (block_start remaining buf)
            (lookup other es)
            (search other remaining buf)

  module _ (inode : ℕ) (name : Bytes) (ascii : IsAscii name) (plain : is_special name ≡ false)
      (in_use : inode ≢ 0) (buf buf' : Bytes) (es : List DirEntry)
      (absent : lookup name es ≡ none) where
    searches :
        (es' : List DirEntry)
        → insert_entry inode name es ≡ some es'
        → Tiled buf' 0 es'
        → length buf' ≡ 1024
        → FoundAgain inode name es buf'
    searches es' inserted T whole =
        let finds : (sought : Bytes) (remaining : ℕ)
            → 1024 ≤ remaining
            → remaining < 2 ^ 32
            → Finds write_sectors sought st (block_start remaining buf') (lookup sought es')
                (search sought remaining buf') =
          λ sought remaining enough word.
            find_entry_by_name_in_block-Finds write_sectors sought st 1024
              (block_start remaining buf') es' whole T (omega arith) word
              (omega (arith, length-Tiled buf' 0 es' T)) in
        record {
          own = λ remaining enough word.
              subst
                (λ f.
                  Finds write_sectors name st (block_start remaining buf') f
                    (search name remaining buf'))
                (lookup-insert_entry inode name ascii plain in_use es es' inserted absent)
                (finds name remaining enough word);
          others = λ other remaining differ enough word.
              subst
                (λ f.
                  Finds write_sectors other st (block_start remaining buf') f
                    (search other remaining buf'))
                (lookup-insert_entry_other inode name ascii plain in_use other es es' differ
                  inserted)
                (finds other remaining enough word);
        }

    added :
        (short : length name < 256) (number : inode < 2 ^ 32) (found : Option (List DirEntry))
        (out : Res Bool × Bytes)
        → insert_entry inode name es ≡ found
        → Adds inode name short number buf 0 found out
        → out ≡ (done true, buf')
        → FoundAgain inode name es buf'
    unfolding Adds
    added short number none out h A took = absurd (cc (A, took))
    added short number (some es') out h (after, goes, T, whole, _) took =
        let same : after ≡ buf' = ap (λ r. r.1) (sym goes ∙ took) in
        searches es' h (subst (λ b. Tiled b 0 es') same T) (ap length (sym same) ∙ whole)

    -- After a block of 1024 bytes, which its entries fill, took a new entry in use, with a name of ASCII
    -- characters that was not in it and is neither "." nor "..": a search of the block, with a block at
    -- least left of the directory, finds the inode under the name, and under every other name what the
    -- entries said before.
    pub find_entry_by_name_in_block-add_in_block :
        length name < 256
        → inode < 2 ^ 32
        → length buf ≡ 1024
        → Tiled buf 0 es
        → add_in_block 1024 (new inode name) 1024 0 buf ≡ (done true, buf')
        → FoundAgain inode name es buf'
    find_entry_by_name_in_block-add_in_block short number whole T took =
        added short number (insert_entry inode name es) _ refl
          (add_in_block-Adds inode name short number 1024 0 buf es whole T
            (omega (arith, length-Tiled buf 0 es T)))
          took
