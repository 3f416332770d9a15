-- ===== src/Gpt.antt =====
-- kernel/src/hal/gpt.rs: the partition table. The drive is a parameter: the bytes that a read of a
-- number of bytes gives, from a sector on, which is counted from the end if it is negative.
pub mod Verified
mod Tests
use package.dvida_oxide.Prelude.{
  ℕ, zero, suc, ◌+◌, ◌-◌, ◌*◌, ◌/◌, ◌%◌, ◌^◌, ◌==◌, ltb, leb, Bool, true, false, not, ◌||◌,
  if◌then◌else◌, Option, none, some, List, [], ◌∷◌, ◌++◌, length, take, drop, replicate,
}
use package.dvida_oxide.Prelude.Int.{ℤ, pos, negsuc}
use package.dvida_oxide.Prelude.Results.{◌>>=◌}
use package.dvida_oxide.Crypto.Crc32.{is_verified_crc32}

abbrev pub Bytes : Type 0
Bytes = List ℕ

abbrev pub sector_size : ℕ
sector_size = 512

abbrev pub Drive : Type 0
Drive = ℤ → ℕ → Option Bytes

pub data GptErr : Type 0 where
  buffer_too_small : GptErr
  gpt_already_exist : GptErr
  gpt_non_exist : GptErr
  gpt_corrupted : GptErr
  bad_array_entry_size : GptErr
  no_free_slot : GptErr
  overlapping_partition : GptErr
  invalid_lba_range : GptErr
  invalid_entry_index : GptErr
  entry_already_empty : GptErr
  name_too_long : GptErr
  serialization_err : GptErr
  io : GptErr
  drive_didnt_respond : GptErr

-- A panic is not an error that the code returns.
pub data GptResult {ℓ} (A : Type ℓ) : Type ℓ where
  ok : A → GptResult A
  err : GptErr → GptResult A
  panic : GptResult A

infixl 5 ◌and_then◌
abbrev pub ◌and_then◌ {ℓ κ} :
    {A : Type ℓ} {B : Type κ} → GptResult A → (A → GptResult B) → GptResult B
(ok a) and_then f = f a
(err e) and_then f = err e
panic and_then f = panic

pub record GptHeader : Type 0 where
  pub sig : Bytes
  pub revision : ℕ
  pub size : ℕ
  pub header_crc32 : ℕ
  pub reserved : ℕ
  pub loc : ℕ
  pub backup_loc : ℕ
  pub first_usable_block : ℕ
  pub last_usable_block : ℕ
  pub guid : Bytes
  pub array_start : ℕ
  pub entry_num : ℕ
  pub entry_size : ℕ
  pub array_crc32 : ℕ

pub record GptEntry : Type 0 where
  pub type_guid : Bytes
  pub unique_guid : Bytes
  pub start_lba : ℕ
  pub end_lba : ℕ
  pub flags : ℕ
  pub name1 : List ℕ
  pub name2 : List ℕ

pub is_empty : GptEntry → Bool
is_empty entry = entry.start_lba == 0

-- A code unit of a surrogate pair is no character.
abbrev pub char_of : ℕ → ℕ
char_of c = if ltb c 0xD800 || leb 0xE000 c then c else 0x20

pub chars_of : List ℕ → List ℕ
chars_of [] = []
chars_of (c ∷ cs) = let rest = chars_of cs in if c == 0 then rest else char_of c ∷ rest

-- The characters by their code points.
pub get_name : GptEntry → List ℕ
unfolding chars_of
get_name entry = chars_of (entry.name1 ++ entry.name2)

-- Little-endian numbers at an offset.
pub le : Bytes → ℕ
le [] = 0
le (b ∷ bs) = b + 256 * le bs

pub number : ℕ → ℕ → Bytes → ℕ
unfolding le
number size offset buf = le (take size (drop offset buf))

pub u16s : ℕ → ℕ → Bytes → List ℕ
unfolding number
u16s zero offset buf = []
u16s (suc n) offset buf = number 2 offset buf ∷ u16s n (offset + 2) buf

abbrev pub header_bytes : ℕ
header_bytes = 92

abbrev pub entry_bytes : ℕ
entry_bytes = 128

-- The fields stand one after the other, without padding.
pub header_of : Bytes → GptHeader
unfolding number
header_of buf = record {
  sig = take 8 buf;
  revision = number 4 8 buf;
  size = number 4 12 buf;
  header_crc32 = number 4 16 buf;
  reserved = number 4 20 buf;
  loc = number 8 24 buf;
  backup_loc = number 8 32 buf;
  first_usable_block = number 8 40 buf;
  last_usable_block = number 8 48 buf;
  guid = take 16 (drop 56 buf);
  array_start = number 8 72 buf;
  entry_num = number 4 80 buf;
  entry_size = number 4 84 buf;
  array_crc32 = number 4 88 buf;
}

pub entry_of : Bytes → GptEntry
unfolding number u16s
entry_of buf = record {
  type_guid = take 16 buf;
  unique_guid = take 16 (drop 16 buf);
  start_lba = number 8 32 buf;
  end_lba = number 8 40 buf;
  flags = number 8 48 buf;
  name1 = u16s 32 56 buf;
  name2 = u16s 4 120 buf;
}

-- `header.header_crc32 = 0`, in the buffer.
pub clear_crc : Bytes → Bytes
clear_crc buf = take 16 buf ++ (replicate 4 0 ++ drop 20 buf)

-- With the buffer that is left, in which the checksum is 0.
pub is_valid_header : Bytes → Bool × Bytes
unfolding clear_crc number
is_valid_header buf =
    let buf' = clear_crc buf in (is_verified_crc32 (take header_bytes buf') (number 4 16 buf), buf')

-- Of an `u32`.
unfoldable pub power_below : ℕ → ℕ → Bool
power_below zero n = false
power_below (suc k) n = (n == 2 ^ k) || power_below k n

abbrev pub is_power_of_two : ℕ → Bool
is_power_of_two n = power_below 32 n

-- The bytes of the array, by a product of two `u32` that wraps around.
pub array_bytes : GptHeader → ℕ
array_bytes header = header.entry_num * header.entry_size % 2 ^ 32

abbrev pub arr_block_count : ℕ → ℕ
arr_block_count bytes = bytes / 512 + (if bytes % 512 == 0 then 0 else 1)

-- `as i64`
abbrev pub as_i64 : ℕ → ℤ
as_i64 n = if ltb n (2 ^ 63) then pos n else negsuc (2 ^ 64 - n - 1)

-- -1 - count is the negative number with `negsuc count`.
abbrev pub arr_lba : Bool → GptHeader → ℕ → ℤ
arr_lba is_backup header bytes =
    if is_backup then negsuc (arr_block_count bytes) else as_i64 header.array_start

-- `as u16`
abbrev pub arr_sectors : ℕ → ℕ
arr_sectors bytes = bytes / 512 % 2 ^ 16

-- `chunks`, with the length of the buffer for fuel.
pub chunks_of : ℕ → ℕ → Bytes → List Bytes
chunks_of zero size buf = []
chunks_of (suc fuel) size [] = []
chunks_of (suc fuel) size (b ∷ buf) =
    take size (b ∷ buf) ∷ chunks_of fuel size (drop size (b ∷ buf))

abbrev pub chunks : ℕ → Bytes → List Bytes
chunks size buf = chunks_of (length buf) size buf

-- A slice that is too short panics.
pub entries_of : List Bytes → GptResult (List GptEntry)
entries_of [] = ok []
entries_of (slice ∷ slices) =
    let rest = entries_of slices in
    if ltb (length slice) entry_bytes
    then panic
    else rest and_then λ entries. ok (entry_of (take entry_bytes slice) ∷ entries)

abbrev pub io_or {ℓ} : {A : Type ℓ} → Option A → GptResult A
io_or none = err io
io_or (some a) = ok a

-- What is read after the header.
pub get_array : Drive → Bool → GptHeader → GptResult (List GptEntry)
unfolding array_bytes chunks_of entries_of
get_array drive is_backup header =
    let bytes = array_bytes header in
    io_or (drive (arr_lba is_backup header bytes) (arr_sectors bytes * 512)) and_then λ buffer.
    if is_verified_crc32 buffer header.array_crc32
    then entries_of (chunks header.entry_size buffer)
    else err gpt_corrupted

pub get_table : Drive → ℤ → Bool → GptResult (GptHeader × List GptEntry)
unfolding is_valid_header header_of power_below get_array
get_table drive lba is_backup = io_or (drive lba sector_size) and_then λ header_buf.
    let (valid, header_buf') = is_valid_header header_buf in
    let header = header_of header_buf' in
    let table = get_array drive is_backup header and_then λ entries. ok (header, entries) in
    if not valid
    then err gpt_corrupted
    else (if not (is_power_of_two (header.entry_size / 128))
        then err bad_array_entry_size
        else table)

-- "EFI PART"
abbrev pub signature : Bytes
signature = 0x45 ∷ 0x46 ∷ 0x49 ∷ 0x20 ∷ 0x50 ∷ 0x41 ∷ 0x52 ∷ 0x54 ∷ []

pub starts_with : Bytes → Bytes → Bool
starts_with buf [] = true
starts_with [] (p ∷ ps) = false
starts_with (b ∷ buf) (p ∷ ps) = if b == p then starts_with buf ps else false

-- `is_normal_present` at 1 and `is_backup_present` at -1.
pub is_present : Drive → ℤ → Bool
unfolding starts_with
is_present drive lba = elim (drive lba sector_size) [
  | none ↦ false
  | some buf ↦ starts_with buf signature
]

pub is_gpt_present : Drive → Bool
unfolding is_present
is_gpt_present drive = is_present drive (pos 1) || is_present drive (negsuc 0)

-- The table that is taken, from the results for the two copies.
pub choose {ℓ} : {A : Type ℓ} → GptResult A → GptResult A → GptResult A
choose panic backup = panic
choose (ok primary) panic = panic
choose (ok primary) (ok backup) = ok primary
choose (ok primary) (err e) = ok primary
choose (err e) panic = panic
choose (err e) (ok backup) = ok backup
choose (err e) (err e') = err gpt_corrupted

pub read_gpt : Drive → GptResult (GptHeader × List GptEntry)
unfolding is_gpt_present get_table choose
read_gpt drive =
    if is_gpt_present drive
    then choose (get_table drive (pos 1) false) (get_table drive (negsuc 0) true)
    else err gpt_non_exist
