-- ===== src/Gpt/Tests.antt =====
-- A drive with one copy of a table of four entries, the first of which is in use.
use dvida_oxide.Prelude.{
  ℕ, zero, suc, ◌/◌, ◌%◌, ◌<◌, ◌≡◌, refl, subst, sym, ◌∙◌, ◌==◌, ==→eq, ltb, ltb→lt, Bool, true,
  false, Bool-cases, ◌&&◌, if◌then◌else◌, ◌⊎◌, inl, inr, some, none, Option, List, [], ◌∷◌, ◌++◌,
  length, replicate, map, All, arith,
}
use dvida_oxide.Prelude.Int.{ℤ, pos, negsuc}
use dvida_oxide.Crypto.Crc32.{full_crc, full_loop, full_round, table_at, i_table, is_verified_crc32}
use dvida_oxide.Gpt.{
  Bytes, Drive, GptHeader, GptEntry, GptResult, ok, signature, le, number, u16s, header_of,
  entry_of, clear_crc, is_valid_header, power_below, array_bytes, chunks_of, entries_of, get_array,
  get_table, starts_with, is_present, is_gpt_present, choose, read_gpt, is_empty, get_name,
  chars_of,
}
use dvida_oxide.Gpt.Verified.{IsDrive, IsVerified, read_gpt-IsVerified}

abbrev le_bytes : ℕ → ℕ → Bytes
le_bytes zero n = []
le_bytes (suc k) n = n % 256 ∷ le_bytes k (n / 256)

abbrev array : Bytes
array = replicate 32 7 ++ le_bytes 8 34 ++ le_bytes 8 99 ++ replicate 464 0

-- The header with a checksum in its place.
abbrev header_with : ℕ → ℕ → Bytes
header_with sum array_sum =
    signature
    ++ le_bytes 4 0x10000
    ++ le_bytes 4 92
    ++ le_bytes 4 sum
    ++ replicate 4 0
    ++ le_bytes 8 1
    ++ le_bytes 8 199
    ++ le_bytes 8 34
    ++ le_bytes 8 166
    ++ replicate 16 5
    ++ le_bytes 8 2
    ++ le_bytes 4 4
    ++ le_bytes 4 128
    ++ le_bytes 4 array_sum

array_sum : ℕ
unfolding full_crc full_loop full_round table_at i_table
array_sum = full_crc array

sector : Bytes
unfolding array_sum full_crc full_loop full_round table_at i_table
sector = header_with (full_crc (header_with 0 array_sum)) array_sum ++ replicate 420 0

look : ℤ → Option Bytes
look (pos k) = if k == 1 then some sector else (if k == 2 then some array else none)
look (negsuc k) = none

drive : Drive
unfolding look
drive lba n = if n == 512 then look lba else none

all_bytes : Bytes → Bool
all_bytes [] = true
all_bytes (b ∷ bs) = ltb b 256 && all_bytes bs

all_bytes_lem : (bs : Bytes) → all_bytes bs ≡ true → All (λ b. b < 256) bs
unfolding all_bytes
all_bytes_lem [] h = tt
all_bytes_lem (b ∷ bs) h = (ltb→lt b 256 (ground arith), all_bytes_lem bs (ground arith))

look_lem : (lba : ℤ) (buf : Bytes) → look lba ≡ some buf → (sector ≡ buf) ⊎ (array ≡ buf)
unfolding look
look_lem (pos k) buf h = elim (Bool-cases (k == 1)) [
  | inl e ↦ inl (cc (rw e at h))
  | inr e ↦ elim (Bool-cases (k == 2)) [
    | inl e' ↦ inr (cc (rw (e, e') at h))
    | inr e' ↦ absurd (cc (rw (e, e') at h))
  ]
]
look_lem (negsuc k) buf h = absurd (cc h)

drive_lem :
    (lba : ℤ) (n : ℕ) (buf : Bytes) → drive lba n ≡ some buf → (n ≡ 512) × (look lba ≡ some buf)
unfolding drive
drive_lem lba n buf h = elim (Bool-cases (n == 512)) [
  | inl e ↦ (==→eq n 512 e, rw e at h)
  | inr e ↦ absurd (cc (rw e at h))
]

sector-bytes : (all_bytes sector ≡ true) × (length sector ≡ 512)
unfolding sector array_sum full_crc full_loop full_round table_at i_table all_bytes
sector-bytes = (refl, refl)

array-bytes : (all_bytes array ≡ true) × (length array ≡ 512)
unfolding all_bytes
array-bytes = (refl, refl)

drive-IsDrive : IsDrive drive
drive-IsDrive = record {
  bytes = λ lba n buf h. elim (look_lem lba buf (drive_lem lba n buf h).1) [
    | inl e ↦ subst (All (λ b. b < 256)) e (all_bytes_lem sector sector-bytes.0)
    | inr e ↦ subst (All (λ b. b < 256)) e (all_bytes_lem array array-bytes.0)
  ];
  sized = λ lba n buf h.
      let (n512, l) = drive_lem lba n buf h in
      elim (look_lem lba buf l) [
        | inl e ↦ subst (λ b. length b ≡ n) e (sector-bytes.1 ∙ sym n512)
        | inr e ↦ subst (λ b. length b ≡ n) e (array-bytes.1 ∙ sym n512)
      ];
}

table_of : GptResult (GptHeader × List GptEntry) → GptHeader × List GptEntry
table_of (ok table) = table
table_of _ = (header_of [], [])

table : GptHeader × List GptEntry
table = table_of (read_gpt drive)

drive-table : read_gpt drive ≡ ok table
unfolding drive look sector array_sum full_crc full_loop full_round table_at i_table table table_of
    read_gpt is_gpt_present is_present starts_with choose get_table is_valid_header
    is_verified_crc32 clear_crc header_of number le power_below get_array array_bytes chunks_of
    entries_of entry_of u16s
drive-table = refl

read_gpt-IsVerified_example : (is_backup : Bool) × IsVerified drive is_backup table.0 table.1
read_gpt-IsVerified_example = read_gpt-IsVerified drive table.0 table.1 drive-IsDrive drive-table

first_entry :
    (map is_empty table.1 ≡ false ∷ true ∷ true ∷ true ∷ [])
    × (map get_name table.1 ≡ [] ∷ [] ∷ [] ∷ [] ∷ [])
unfolding drive look sector array_sum full_crc full_loop full_round table_at i_table table table_of
    read_gpt is_gpt_present is_present starts_with choose get_table is_valid_header
    is_verified_crc32 clear_crc header_of number le power_below get_array array_bytes chunks_of
    entries_of entry_of u16s is_empty get_name chars_of
first_entry = (refl, refl)
