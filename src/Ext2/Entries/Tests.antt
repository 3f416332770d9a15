-- ===== src/Ext2/Entries/Tests.antt =====
-- A block with two entries, and the theorems on entries at concrete inputs.
use dvida_oxide.Prelude.{ℕ, ◌≡◌, refl, true, [], ◌∷◌, arith}
use dvida_oxide.Serialize.{serialize, to_bytes, to_le_bytes}
use dvida_oxide.Ext2.{Bytes, done}
use dvida_oxide.Ext2.Entries.{
  new, partial_at, put_number, put_name, put_u16, serialize_entry, place_behind, same_bytes,
  add_in_block,
}
use dvida_oxide.Ext2.Entries.Sample.{bytes, entries, bytes-Tiled}
use dvida_oxide.Ext2.Entries.Adding.{Adds, insert_entry, add_in_block-Adds}
use dvida_oxide.Ext2.Entries.Decoding.{chars}
use dvida_oxide.Ext2.Entries.Search.{lookup}
use dvida_oxide.Ext2.Entries.Found.{IsAscii, FoundAgain, find_entry_by_name_in_block-add_in_block}

abbrev letter : Bytes
letter = 99 ∷ []

-- The entry "c" goes behind "ab".
after_c : Bytes
unfolding add_in_block partial_at place_behind serialize_entry put_number serialize to_bytes
    to_le_bytes put_name put_u16
after_c = (add_in_block 1024 (new 13 letter) 1024 0 bytes).1

c_added : add_in_block 1024 (new 13 letter) 1024 0 bytes ≡ (done true, after_c)
unfolding add_in_block partial_at place_behind serialize_entry put_number serialize to_bytes
    to_le_bytes put_name put_u16 after_c
c_added = refl

add_in_block-Adds_example :
    Adds 13 letter
      (omega arith)
      (omega arith)
      bytes
      0
      (insert_entry 13 letter entries)
      (add_in_block 1024 (new 13 letter) 3 0 bytes)
add_in_block-Adds_example =
    add_in_block-Adds 13 letter (omega arith) (omega arith) 3 0 bytes entries refl bytes-Tiled
      (omega arith)

find_entry_by_name_in_block-add_in_block_example :
    FoundAgain {S = ℕ} (λ b st. (done tt, st)) 0 13 letter entries after_c
unfolding lookup same_bytes IsAscii chars
find_entry_by_name_in_block-add_in_block_example =
    find_entry_by_name_in_block-add_in_block (λ b st. (done tt, st)) 0 13 letter (omega arith, tt)
      refl (λ e. omega (arith, e)) bytes after_c entries refl (omega arith) (omega arith) refl
      bytes-Tiled c_added
