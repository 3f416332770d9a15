-- ===== src/Ext2/Inodes/Stored.antt =====
-- kernel/src/drivers/fs/ext2/inode.rs: an inode that is written is read again, and the others stay.
use dvida_oxide.Prelude.{
  ℕ, ◌+◌, ◌-◌, ◌*◌, ◌^◌, ◌≤◌, ◌<◌, ◌≡◌, ◌≢◌, ◌⊎◌, inl, inr, refl, ap, sym, ◌∙◌, subst, true,
  Bool-cases, ◌==◌, ==→eq, ==→ne, ==_refl, ne→==, if◌then◌else◌, some, ◌++◌, length, get_or, take,
  drop, length-drop, arith,
}
use native.Mathlib.Decide.{dec_lt}
use native.Mathlib.Nat.{mod-lt}
use dvida_oxide.Prelude.Results.{some_inj}
use dvida_oxide.Ext2.{Res, done, refused, io_error, no_space_left, panic, ◌then◌, Bytes, as_u32}
use dvida_oxide.Ext2.Files.{Inode}
use dvida_oxide.Ext2.Entries.Slices.{
  length-splice, get_or-splice_low, get_or-splice_high, get_or-drop,
}
use dvida_oxide.Ext2.Inodes.{
  InodePlus, Sectors, read_sectors, write_sectors, sector_offset, byte_offset, before,
  global_idx_to_inode_plus, get_inode_in_group, get_nth_inode, write_inode,
}
use dvida_oxide.Ext2.Inodes.Numbers.{group, place, split, same_number, one_place}

-- What the code relies on in the macro's code: an inode of 128 bytes, those behind them kept, is read back.
pub record Encodes (deserialize_inode : Bytes → Res Inode)
    (serialize_inode : Inode → Bytes → Res ℕ × Bytes) (Fits : Inode → Type 0) : Type 0 where
  pub writes :
      (inode : Inode) (target : Bytes)
      → Fits inode
      → 128 ≤ length target
      → (after : Bytes) × (serialize_inode inode target ≡ (done 128, after))
        × (length after ≡ length target)
        × (deserialize_inode after ≡ done inode)
        × ((j : ℕ) → 128 ≤ j → get_or after j 0 ≡ get_or target j 0)
  pub reads :
      (a b : Bytes)
      → 128 ≤ length a
      → 128 ≤ length b
      → ((j : ℕ) → j < 128 → get_or a j 0 ≡ get_or b j 0)
      → deserialize_inode a ≡ deserialize_inode b

-- The tables of the groups, no two of which share a sector.
pub record Tables (per_group : ℕ) (get_inode_table_lba : ℕ → Res ℕ) (lba : ℕ → ℕ) : Type 0 where
  pub at : (g : ℕ) → get_inode_table_lba g ≡ done (lba g)
  pub apart :
      (g g' i i' : ℕ)
      → g ≢ g'
      → i < per_group
      → i' < per_group
      → lba g + sector_offset i ≢ lba g' + sector_offset i'

module _ (per_group : ℕ) (get_inode_table_lba : ℕ → Res ℕ) (deserialize_inode : Bytes → Res Inode)
    (serialize_inode : Inode → Bytes → Res ℕ × Bytes) (Fits : Inode → Type 0)
    (E : Encodes deserialize_inode serialize_inode Fits) (lba : ℕ → ℕ)
    (T : Tables per_group get_inode_table_lba lba) (s : Sectors) (content : ℕ → Bytes)
    (answers : (n : ℕ) → s.read n ≡ some (content n)) (whole : (n : ℕ) → length (content n) ≡ 512)
    (writable : (n : ℕ) → s.writable n ≡ true) where
  abbrev get_in_group : ℕ → ℕ → Sectors → Res InodePlus × Sectors
  get_in_group = get_inode_in_group per_group get_inode_table_lba deserialize_inode serialize_inode

  abbrev get_nth : ℕ → Sectors → Res InodePlus × Sectors
  get_nth = get_nth_inode per_group get_inode_table_lba deserialize_inode serialize_inode

  abbrev write : InodePlus → Sectors → Res (Unit {0}) × Sectors
  write = write_inode per_group get_inode_table_lba deserialize_inode serialize_inode

  abbrev plus_of : ℕ → ℕ → Inode → InodePlus
  plus_of g i inode = record {
    inode = inode;
    group_number = g;
    relative_idx = i;
    absolute_idx = as_u32 (per_group * g + i + 1);
  }

  abbrev decoded : ℕ → ℕ → Res Inode → Sectors → Res InodePlus × Sectors
  decoded g i r s = (r, s) then λ inode s. (done (plus_of g i inode), s)

  get_in_group-done :
      (g i : ℕ) (after : Sectors) (buf : Bytes)
      → after.read (lba g + sector_offset i) ≡ some buf
      → get_in_group g i after ≡ decoded g i (deserialize_inode (drop (byte_offset i) buf)) after
  unfolding get_inode_in_group
  get_in_group-done g i after buf h = rw (T.at g, h, read_sectors) refl

  decoded-same :
      (g i : ℕ) (r : Res Inode) (a b : Sectors) → (decoded g i r a).0 ≡ (decoded g i r b).0
  decoded-same g i (done inode) a b = refl
  decoded-same g i (refused e) a b = refl
  decoded-same g i io_error a b = refl
  decoded-same g i no_space_left a b = refl
  decoded-same g i panic a b = refl

  -- After a write of the inode at a place.
  module _ (plus : InodePlus) (after : Bytes)
      (len : length after
        ≡ length (
            drop
              (byte_offset plus.relative_idx)
              (content (lba plus.group_number + sector_offset plus.relative_idx))))
      (beyond : (j : ℕ)
        → 128 ≤ j
        → get_or after j 0
          ≡ get_or
              (drop
                (byte_offset plus.relative_idx)
                (content (lba plus.group_number + sector_offset plus.relative_idx)))
              j
              0) where
    abbrev off : ℕ
    off = byte_offset plus.relative_idx

    abbrev sector : ℕ
    sector = lba plus.group_number + sector_offset plus.relative_idx

    abbrev new_bytes : Bytes
    new_bytes = take off (content sector) ++ after

    abbrev stored : Sectors
    stored = record s { read = λ i. if i == sector then some new_bytes else s.read i }

    write-stored :
        (n : ℕ)
        → serialize_inode plus.inode (drop off (content sector)) ≡ (done n, after)
        → write plus s ≡ (done tt, stored)
    unfolding write_inode
    write-stored n h =
        rw (T.at plus.group_number, answers sector, h, writable sector, read_sectors, write_sectors)
          refl

    room : off + 128 ≤ 512
    room = omega arith

    slice : length after ≡ length (content sector) - off
    slice = len ∙ length-drop off (content sector)

    stored_here : stored.read sector ≡ some new_bytes
    stored_here = rw (==_refl sector) refl

    length-new_bytes : length new_bytes ≡ 512
    length-new_bytes =
        length-splice off (content sector) after (omega (arith, whole sector)) slice ∙ whole sector

    pub own_bytes : deserialize_inode (drop off new_bytes) ≡ deserialize_inode after
    own_bytes =
        E.reads (drop off new_bytes) after
          (omega (arith, length-drop off new_bytes, length-new_bytes))
          (omega (arith, slice, whole sector))
          (λ j h.
            get_or-drop off new_bytes j
            ∙ get_or-splice_high off (content sector) after (omega (arith, whole sector)) slice j)

    -- Another place of the sector.
    other_bytes :
        (i : ℕ)
        → byte_offset i ≢ off
        → deserialize_inode (drop (byte_offset i) new_bytes)
          ≡ deserialize_inode (drop (byte_offset i) (content sector))
    other_bytes i differ =
        E.reads (drop (byte_offset i) new_bytes) (drop (byte_offset i) (content sector))
          (omega (arith, length-drop (byte_offset i) new_bytes, length-new_bytes))
          (omega (arith, length-drop (byte_offset i) (content sector), whole sector))
          (λ j h.
            get_or-drop (byte_offset i) new_bytes j
            ∙ same j h
            ∙ sym (get_or-drop (byte_offset i) (content sector) j))
      where
        same :
            (j : ℕ)
            → j < 128
            → get_or new_bytes (byte_offset i + j) 0 ≡ get_or (content sector) (byte_offset i + j) 0
        same j h = elim (dec_lt (byte_offset i) off) [
          | yes low ↦
              get_or-splice_low off (content sector) after (omega (arith, whole sector)) slice
                (byte_offset i + j) (omega arith)
          | no high ↦
              ap (λ k. get_or new_bytes k 0) {y = off + (byte_offset i + j - off)} (omega arith)
              ∙ get_or-splice_high off (content sector) after (omega (arith, whole sector)) slice
                  (byte_offset i + j - off)
              ∙ beyond (byte_offset i + j - off) (omega arith)
              ∙ get_or-drop off (content sector) (byte_offset i + j - off)
              ∙ ap (λ k. get_or (content sector) k 0) {y = byte_offset i + j} (omega arith)
        ]

    others :
        (g i : ℕ)
        → (lba g + sector_offset i ≢ sector) ⊎ (byte_offset i ≢ off)
        → (get_in_group g i stored).0 ≡ (get_in_group g i s).0
    others g i differ =
        let place : ℕ = lba g + sector_offset i in
        let old = ap (λ r. r.0) (get_in_group-done g i s (content place) (answers place)) in
        elim (Bool-cases (place == sector)) [
          | inr apart ↦
              ap (λ r. r.0)
                (get_in_group-done g i stored (content place)
                  (ap (λ b. if b then some new_bytes else s.read place) apart ∙ answers place))
              ∙ decoded-same g i (deserialize_inode (drop (byte_offset i) (content place))) stored s
              ∙ sym old
          | inl here ↦ elim differ [
            | inl apart ↦ absurd (apart (==→eq place sector here))
            | inr apart ↦
                ap (λ r. r.0)
                  (get_in_group-done g i stored new_bytes
                    (ap (λ b. if b then some new_bytes else s.read place) here))
                ∙ decoded-same g i (deserialize_inode (drop (byte_offset i) new_bytes)) stored s
                ∙ ap (λ r. (decoded g i r s).0)
                    (other_bytes i apart
                      ∙ ap (λ n. deserialize_inode (drop (byte_offset i) (content n)))
                          (sym (==→eq place sector here)))
                ∙ sym old
          ]
        ]

  -- What a write of an inode leaves for those who read by number.
  pub record StoredInode (n : ℕ) (plus : InodePlus) : Type 0 where
    pub after : Sectors
    pub returns : write plus s ≡ (done tt, after)
    pub own : get_nth n after ≡ (done plus, after)
    pub others : (m : ℕ) → 0 < m → m < 2 ^ 32 → m ≢ n → (get_nth m after).0 ≡ (get_nth m s).0

  -- Two numbers have places apart.
  apart :
      (m n : ℕ)
      → 0 < per_group
      → 0 < m
      → m < 2 ^ 32
      → 0 < n
      → n < 2 ^ 32
      → m ≢ n
      → (lba (group per_group m) + sector_offset (place per_group m)
          ≢ lba (group per_group n) + sector_offset (place per_group n))
        ⊎ (byte_offset (place per_group m) ≢ byte_offset (place per_group n))
  apart m n groups fm wm fn wn differ = elim (Bool-cases (group per_group m == group per_group n)) [
    | inr other ↦ inl (
        T.apart (group per_group m) (group per_group n) (place per_group m) (place per_group n)
          (==→ne _ _ other) (mod-lt (before per_group m) {m = per_group} groups)
          (mod-lt (before per_group n) {m = per_group} groups))
    | inl here ↦
        elim (Bool-cases (byte_offset (place per_group m) == byte_offset (place per_group n))) [
          | inr bytes ↦ inr (==→ne _ _ bytes)
          | inl bytes ↦ inl (λ e. differ (
              same_number per_group m n fm wm fn wn (==→eq _ _ here) (
                one_place (place per_group m) (place per_group n) (lba (group per_group m))
                  (lba (group per_group n)) (ap lba (==→eq _ _ here)) (==→eq _ _ bytes) e)))
        ]
  ]

  numbered : ℕ → Inode → InodePlus
  numbered n inode = record {
    inode = inode;
    relative_idx = place per_group n;
    group_number = group per_group n;
    absolute_idx = n;
  }

  get_nth-group :
      (n : ℕ) (after : Sectors)
      → 0 < per_group
      → get_nth n after ≡ get_in_group (group per_group n) (place per_group n) after
  unfolding get_nth_inode
  get_nth-group n after groups = rw (ne→== per_group 0 (λ e. omega arith)) refl

  stored_inode :
      (n : ℕ) (inode : Inode)
      → 0 < per_group
      → 0 < n
      → n < 2 ^ 32
      → Fits inode
      → StoredInode n (numbered n inode)
  unfolding numbered
  stored_inode n inode groups first word fits =
      let plus : InodePlus = numbered n inode in
      let target : Bytes =
        drop (byte_offset (place per_group n))
          (content (lba (group per_group n) + sector_offset (place per_group n))) in
      let (after, goes, len, decodes, beyond) = E.writes inode target fits (
        omega (
          arith,
          length-drop (byte_offset (place per_group n))
              (content (lba (group per_group n) + sector_offset (place per_group n))),
          whole (lba (group per_group n) + sector_offset (place per_group n)),
        )) in
      record {
        after = stored plus after len beyond;
        returns = write-stored plus after len beyond 128 goes;
        own =
            get_nth-group n (stored plus after len beyond) groups
            ∙ get_in_group-done (group per_group n) (place per_group n)
                (stored plus after len beyond) (new_bytes plus after len beyond)
                (stored_here plus after len beyond)
            ∙ ap
                (λ r.
                  decoded (group per_group n) (place per_group n) r (stored plus after len beyond))
                (own_bytes plus after len beyond ∙ decodes)
            ∙ ap
                (λ a. (
                  done (record {
                    inode = inode;
                    group_number = group per_group n;
                    relative_idx = place per_group n;
                    absolute_idx = a;
                  }),
                  stored plus after len beyond,
                ))
                (ap (λ b. as_u32 (b + 1)) (split per_group n) ∙ omega arith);
        others = λ m fm wm differ.
            ap (λ r. r.0) (get_nth-group m (stored plus after len beyond) groups)
            ∙ others plus after len beyond (group per_group m) (place per_group m)
                (apart m n groups fm wm first word differ)
            ∙ ap (λ r. r.0) (sym (get_nth-group m s groups));
      }

  -- Where the macro's code reads back what it writes into 128 bytes, on a drive of sectors of 512 bytes that
  -- answers and can be written, with tables that share no sector: an inode written under its number is
  -- read again under it, with its group and its place, and all others are read as before.
  pub write_inode-StoredInode :
      (n : ℕ) (inode : Inode) (plus : InodePlus)
      → 0 < per_group
      → 0 < n
      → n < 2 ^ 32
      → Fits inode
      → global_idx_to_inode_plus per_group inode n ≡ some plus
      → StoredInode n plus
  unfolding global_idx_to_inode_plus numbered
  write_inode-StoredInode n inode plus groups first word fits made =
      subst (StoredInode n) (some_inj (rw (ne→== per_group 0 (λ e. omega arith)) refl ∙ made))
        (stored_inode n inode groups first word fits)
