-- ===== src/Ext2/Entries.antt =====
-- kernel/src/drivers/fs/ext2/mod.rs, dirs.rs and open.rs: the entries of a directory. An entry as bytes,
-- the place of a new entry in a block, and the search by name. A string is the list of the bytes of its
-- UTF-8 form.
pub mod Slices
pub mod Tiles
pub mod Fields
pub mod Adding
pub mod Decoding
pub mod Search
pub mod Found
pub mod Sample
mod Tests
use package.dvida_oxide.Prelude.{
  ℕ, zero, suc, ◌+◌, ◌-◌, ◌*◌, ◌/◌, ◌%◌, ◌^◌, max, bit_and, Bool, true, false, not, ◌&&◌, ◌||◌, ltb,
  leb, ◌==◌, if◌then◌else◌, Option, none, some, List, [], ◌∷◌, ◌++◌, length, get_or, set, take,
  drop,
}
use package.dvida_oxide.Serialize.{
  Endianness, little, bad_string_length, wrong_buffer_size, ok, err, serialize, deserialize,
}
use package.dvida_oxide.Ext2.{
  Res, done, refused, serialization_err, deserialization_err, corrupted, panic, ◌then◌, Bytes,
  as_u32,
}

abbrev pub as_u16 : ℕ → ℕ
as_u16 n = n % 2 ^ 16

-- A difference of 16 bits wraps around.
abbrev pub sub_u16 : ℕ → ℕ → ℕ
sub_u16 a b = as_u16 (a + 2 ^ 16 - b)

pub record DirEntry : Type 0 where
  pub inode : ℕ
  pub rec_len : ℕ
  pub file_type : ℕ
  pub name : Bytes

pub record DirEntryPartial : Type 0 where
  pub inode : ℕ
  pub rec_len : ℕ
  pub name_len : ℕ

-- The numbers of an entry in the bytes of a block.
abbrev pub u16_of : Bytes → ℕ → ℕ
u16_of buf o = get_or buf o 0 + 256 * get_or buf (o + 1) 0

abbrev pub u32_of : Bytes → ℕ → ℕ
u32_of buf o = u16_of buf o + 65536 * u16_of buf (o + 2)

-- A number of 16 bits at a place.
pub put_u16 : Bytes → ℕ → ℕ → Bytes
put_u16 buf o n = set (set buf o (n % 256)) (o + 1) (n / 256)

-- The slice panics out of bounds.
pub partial_at : Bytes → ℕ → Option DirEntryPartial
partial_at buf progr =
    if ltb (length buf) (progr + 8)
    then none
    else some (record {
      inode = u32_of buf progr;
      rec_len = u16_of buf (progr + 4);
      name_len = u16_of buf (progr + 6);
    })

abbrev pub min_reclen : DirEntryPartial → ℕ
min_reclen p = bit_and (as_u16 (8 + p.name_len + 3)) 65532

abbrev pub record_length : DirEntry → ℕ
record_length e = max (bit_and (as_u16 (as_u16 (8 + length e.name) + 3)) 65532) e.rec_len

abbrev pub new : ℕ → Bytes → DirEntry
new inode name =
    let res : DirEntry = record { inode = inode; rec_len = 0; file_type = 0; name = name } in
    record res { rec_len = record_length res }

-- `serialize` of a number on the slice from `acc` on, with `acc` behind it.
pub put_number : Endianness → ℕ → ℕ → ℕ → Bytes → Res ℕ × Bytes
put_number endianness size n acc target = elim (serialize endianness size n (drop acc target)) [
  | err e ↦ (refused (serialization_err e), target)
  | ok (written, slice) ↦ (done (acc + written), take acc target ++ slice)
]

-- The loop over the bytes of the name.
pub put_name : Bytes → ℕ → Bytes → Res (Unit {0}) × Bytes
put_name [] i target = (done tt, target)
put_name (byte ∷ name) i target =
    let rest = put_name name (i + 1) (set target i byte) in
    if ltb i (length target) then rest else (panic, target)

-- `DirEntry::serialize`, with the target after it.
pub serialize_entry : Endianness → DirEntry → Bytes → Res ℕ × Bytes
serialize_entry endianness e target =
    let go = put_number endianness 4 e.inode 0 target then λ acc t1.
    put_number endianness 2 (record_length e) acc t1 then λ acc t2.
    put_number endianness 1 (length e.name % 256) acc t2 then λ acc t3.
    put_number endianness 1 e.file_type acc t3 then λ acc t4.
    put_name e.name acc t4 then λ _ t5. (done (record_length e), t5) in
    if ltb 255 (length e.name)
    then (refused (serialization_err (bad_string_length 0 255)), target)
    else go

-- `deserialize` of a number from the slice from `acc` on, with `acc` behind it.
pub get_number : Endianness → ℕ → Bytes → ℕ → Res ℕ × ℕ
get_number endianness size input acc = elim (deserialize endianness size (drop acc input)) [
  | err e ↦ (refused (deserialization_err e), acc)
  | ok (n, read) ↦ (done n, acc + read)
]

-- `byte as char` at the end of a string.
abbrev pub push_char : Bytes → ℕ → Bytes
push_char name byte =
    name ++ (if ltb byte 128 then byte ∷ [] else (192 + byte / 64) ∷ (128 + byte % 64) ∷ [])

-- The loop over the bytes of the name, with so many to go.
pub get_name : ℕ → ℕ → Bytes → Bytes → ℕ → Res Bytes × ℕ
get_name zero i name input acc = (done name, acc)
get_name (suc rounds) i name input acc =
    let rest = get_name rounds (i + 1) (push_char name (get_or (drop acc input) i 0)) input acc in
    if leb (length (drop acc input)) i
    then (refused (deserialization_err wrong_buffer_size), acc)
    else rest

-- `DirEntry::deserialize`, with the bytes read.
pub deserialize_entry : Endianness → Bytes → Res DirEntry × ℕ
deserialize_entry endianness input = get_number endianness 4 input 0 then λ inode acc.
    get_number endianness 2 input acc then λ rec_len acc.
    get_number endianness 1 input acc then λ name_len acc.
    get_number endianness 1 input acc then λ file_type acc.
    get_name name_len 0 [] input acc then λ name _. (
      done (record { inode = inode; rec_len = rec_len; file_type = file_type; name = name }),
      rec_len,
    )

-- The record at a place is shortened to a length, and the new entry stands behind it with the rest.
pub place_behind : DirEntry → ℕ → ℕ → ℕ → Bytes → Res ℕ × Bytes
place_behind entry new_reclen rec_len progr buf =
    let at = progr + new_reclen in
    let buf1 = put_u16 buf (progr + 4) new_reclen in
    let (r, slice) = serialize_entry little (record entry { rec_len = rec_len }) (drop at buf1) in
    if ltb (length buf1) at then (panic, buf1) else (r, take at buf1 ++ slice)

abbrev pub place_entry : DirEntry → DirEntryPartial → ℕ → Bytes → Res ℕ × Bytes
place_entry entry p = place_behind entry (min_reclen p) (sub_u16 p.rec_len (min_reclen p))

-- The inner loop of `add_dir_entry`, from `progr` on: whether the block took the entry, with the block.
-- A record of length 0 that is too short would keep the source in the loop; here it ends without fuel.
pub add_in_block : ℕ → DirEntry → ℕ → ℕ → Bytes → Res Bool × Bytes
add_in_block block_size entry zero progr buf = (panic, buf)
add_in_block block_size entry (suc fuel) progr buf =
    let go : Res Bool × Bytes = elim (partial_at buf progr) [
      | none ↦ (panic, buf)
      | some p ↦
          let rest = add_in_block block_size entry fuel (progr + p.rec_len) buf in
          if ltb (as_u16 block_size) (as_u16 (p.rec_len + as_u16 progr))
          then (refused corrupted, buf)
          else (if leb (record_length entry) (sub_u16 p.rec_len (min_reclen p))
              then (place_entry entry p progr buf then λ _ buf'. (done true, buf'))
              else rest)
    ] in
    if ltb progr (length buf) then go else (done false, buf)

-- `==` of two strings.
unfoldable pub same_bytes : Bytes → Bytes → Bool
same_bytes [] [] = true
same_bytes [] (b ∷ bs) = false
same_bytes (a ∷ as') [] = false
same_bytes (a ∷ as') (b ∷ bs) = (a == b) && same_bytes as' bs

abbrev pub is_special : Bytes → Bool
is_special name = same_bytes name (0x2E ∷ []) || same_bytes name (0x2E ∷ 0x2E ∷ [])

-- Where a search stands: the variables of `find_entry_by_name_in_block`, with the block and what is left
-- of the directory.
pub record Searching : Type 0 where
  pub progr : ℕ
  pub this_entry_idx : ℕ
  pub last_entry_idx : ℕ
  pub remaining_size : ℕ
  pub buf : Bytes

abbrev pub block_start : ℕ → Bytes → Searching
block_start remaining buf = record {
  progr = 0;
  this_entry_idx = 0;
  last_entry_idx = 0;
  remaining_size = remaining;
  buf = buf;
}

module _ {ℓ} {S : Type ℓ} (write_sectors : Bytes → S → Res (Unit {0}) × S) where
  -- The first entry of a block becomes a padding entry, any other goes to the one before it.
  pub delete_entry : DirEntry → Searching → S → Res Bytes × S
  delete_entry entry s st =
      let padding : Res Bytes × S =
        (if ltb (length s.buf) 8
          then (panic, st)
          else (let buf' =
                put_u16 (put_u16 (put_u16 (put_u16 s.buf 0 0) 2 0) 4 (record_length entry)) 6 0 in
              write_sectors buf' st then λ _ st'. (done buf', st'))) in
      let merged : Res Bytes × S = elim (partial_at s.buf s.this_entry_idx) [
        | none ↦ (panic, st)
        | some this_raw ↦ elim (partial_at s.buf s.last_entry_idx) [
          | none ↦ (panic, st)
          | some last_raw ↦
              let buf' =
                put_u16 s.buf (s.last_entry_idx + 4)
                  (as_u16 (last_raw.rec_len + this_raw.rec_len)) in
              write_sectors buf' st then λ _ st'. (done buf', st')
        ]
      ] in
      if s.this_entry_idx == s.last_entry_idx then padding else merged

  -- What the loop of `find_entry_by_name_in_block` does with an entry, before it goes on with the rest.
  pub check_entry :
      Bytes
      → Bool
      → Bool
      → Searching
      → S
      → ℕ
      → Res (Option ℕ × Bool × Bytes) × (ℕ × S)
      → DirEntry
      → Res (Option ℕ × Bool × Bytes) × (ℕ × S)
  check_entry name delete find_is_empty s st remaining rest entry =
      let is_terminated = remaining == 0 in
      let found : Res (Option ℕ × Bool × Bytes) × (ℕ × S) =
        (if delete
          then (let (deleted, st') = delete_entry entry s st in
              (deleted, (remaining, st')) then λ buf' after.
              (done (some entry.inode, is_terminated, buf'), after))
          else (done (some entry.inode, is_terminated, s.buf), (remaining, st))) in
      if is_special entry.name
      then (if is_terminated then (done (none, true, s.buf), (remaining, st)) else rest)
      else (if not (entry.inode == 0) && (same_bytes name entry.name && not find_is_empty)
          then found
          else (if is_terminated then (done (none, false, s.buf), (remaining, st)) else rest))

  abbrev pub behind_entry : Searching → ℕ → Searching
  behind_entry s bytes_read = record {
    progr = s.progr + bytes_read;
    this_entry_idx = s.this_entry_idx + bytes_read;
    last_entry_idx = s.this_entry_idx;
    remaining_size = as_u32 (s.remaining_size + 2 ^ 32 - bytes_read);
    buf = s.buf;
  }

  -- `find_entry_by_name_in_block`: the inode, whether the directory ends, and the block, with what is left
  -- of the directory. A record of length 0 keeps the source in the loop; here it ends without fuel.
  pub find_entry_by_name_in_block :
      ℕ → Bytes → Bool → Bool → ℕ → Searching → S → Res (Option ℕ × Bool × Bytes) × (ℕ × S)
  find_entry_by_name_in_block block_size name delete find_is_empty zero s st =
      (panic, (s.remaining_size, st))
  find_entry_by_name_in_block block_size name delete find_is_empty (suc fuel) s st =
      let (r, bytes_read) = deserialize_entry little (drop s.progr s.buf) in
      let s' = behind_entry s bytes_read in
      let rest = find_entry_by_name_in_block block_size name delete find_is_empty fuel s' st in
      let go = (r, (s.remaining_size, st)) then λ entry _.
      check_entry name delete find_is_empty s st s'.remaining_size rest entry in
      if ltb s.progr block_size then go else (done (none, false, s.buf), (s.remaining_size, st))
