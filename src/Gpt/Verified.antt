-- ===== src/Gpt/Verified.antt =====
-- What stands behind a table that is read.
use dvida_oxide.Prelude.{
  ℕ, zero, suc, ◌+◌, ◌-◌, ◌*◌, ◌/◌, ◌%◌, ◌^◌, ◌≤◌, ◌<◌, ◌≡◌, refl, sym, ap, subst, replicate,
  All-append, ◌++◌, ◌∙◌, ◌==◌, ==→eq, ==→ne, ltb, ltb→lt, ltb→le, get_elem?, Bool, true, false,
  Bool-cases, Option, none, some, List, [], ◌∷◌, length, take, drop, length-drop, All, arith, ◌⊎◌,
  inl, inr,
}
use native.Mathlib.Decide.{dec_lt}
use dvida_oxide.Prelude.Int.{ℤ, pos, negsuc}
use dvida_oxide.Crypto.Crc32.{full_crc, is_verified_crc32}
use dvida_oxide.Crypto.Crc32.Reference.{reference, full_crc-eq, is_verified_crc32-sum}
use dvida_oxide.Gpt.{
  Bytes, sector_size, Drive, GptResult, ok, err, panic, ◌and_then◌, GptHeader, GptEntry, number,
  power_below, header_bytes, entry_bytes, header_of, entry_of, clear_crc, is_valid_header,
  is_power_of_two, array_bytes, arr_lba, arr_sectors, chunks_of, chunks, entries_of, io_or,
  get_array, get_table, is_gpt_present, choose, read_gpt,
}

abbrev IsBytes : Bytes → Type 0
IsBytes buf = All (λ b. b < 256) buf

-- A read gives bytes, as many as it is asked for.
pub record IsDrive (drive : Drive) : Type 0 where
  pub bytes : (lba : ℤ) (n : ℕ) (buf : Bytes) → drive lba n ≡ some buf → All (λ b. b < 256) buf
  pub sized : (lba : ℤ) (n : ℕ) (buf : Bytes) → drive lba n ≡ some buf → length buf ≡ n

abbrev pub header_lba : Bool → ℤ
header_lba false = pos 1
header_lba true = negsuc 0

-- Where the array of so many bytes starts: at the header's sector, a number of 64 bits with a sign, or, for
-- the backup, as many sectors before the last one as the array fills, the last of them in part.
abbrev pub StartsAt : Bool → GptHeader → ℕ → ℤ → Type 0
StartsAt false header bytes lba =
    ((header.array_start < 2 ^ 63) × (lba ≡ pos header.array_start))
    ⊎ ((2 ^ 63 ≤ header.array_start) × (lba ≡ negsuc (2 ^ 64 - header.array_start - 1)))
StartsAt true header bytes lba =
    (n : ℕ) × (bytes ≤ n * 512) × (n * 512 < bytes + 512) × (lba ≡ negsuc n)

-- One copy of the table on the drive, whose two checksums are right by the polynomial's definition. What
-- is read of the array is its whole sectors, their count cut to 16 bits; there is an entry for each
-- place at which one begins in them.
pub record IsVerified (drive : Drive) (is_backup : Bool) (header : GptHeader)
    (entries : List GptEntry) : Type 0 where
  pub sector : Bytes
  pub on_drive : drive (header_lba is_backup) 512 ≡ some sector
  pub header_sum : reference (take 92 (clear_crc sector)) ≡ number 4 16 sector
  pub decoded : header ≡ header_of (clear_crc sector)
  pub bytes : ℕ
  pub size : bytes ≡ header.entry_num * header.entry_size % 2 ^ 32
  pub lba : ℤ
  pub starts_at : StartsAt is_backup header bytes lba
  pub array : Bytes
  pub array_on_drive : drive lba (bytes / 512 % 2 ^ 16 * 512) ≡ some array
  pub array_sum : reference array ≡ header.array_crc32
  pub entry_at :
      (i : ℕ)
      → i < length entries
      → get_elem? entries i
        ≡ some (entry_of (take 128 (take header.entry_size (drop (i * header.entry_size) array))))
  pub all_entries :
      (bytes / 512 % 2 ^ 16 * 512 ≤ length entries * header.entry_size)
      × (length entries * header.entry_size < bytes / 512 % 2 ^ 16 * 512 + header.entry_size)

value_of {ℓ} : {A : Type ℓ} → A → GptResult A → A
value_of d (ok a) = a
value_of d (err e) = d
value_of d panic = d

ok_inj {ℓ} : {A : Type ℓ} {a b : A} → ok a ≡ ok b → a ≡ b
unfolding value_of
ok_inj {a = a} e = ap (value_of a) e

io_or-ok {ℓ} : {A : Type ℓ} (o : Option A) (a : A) → io_or o ≡ ok a → o ≡ some a
io_or-ok none a h = absurd (cc h)
io_or-ok (some b) a h = ap some (ok_inj h)

and_then-ok {ℓ κ} :
    {A : Type ℓ} {B : Type κ} (m : GptResult A) (f : A → GptResult B) (b : B)
    → (m and_then f) ≡ ok b
    → (a : A) × (m ≡ ok a) × (f a ≡ ok b)
and_then-ok (ok a) f b h = (a, refl, h)
and_then-ok (err e) f b h = absurd (cc h)
and_then-ok panic f b h = absurd (cc h)

drop-nil : (n : ℕ) → drop {A = ℕ} n [] ≡ []
drop-nil zero = refl
drop-nil (suc n) = refl

drop-drop : (m n : ℕ) (buf : Bytes) → drop n (drop m buf) ≡ drop (m + n) buf
drop-drop zero n buf = ap (λ k. drop k buf) (omega arith)
drop-drop (suc m) n [] =
    drop-nil n ∙ sym (ap (λ k. drop {A = ℕ} k []) {y = suc (m + n)} (omega arith))
drop-drop (suc m) n (b ∷ buf) =
    drop-drop m n buf ∙ ap (λ k. drop k (b ∷ buf)) {x = suc (m + n)} (omega arith)

entries_of-length :
    (slices : List Bytes) (entries : List GptEntry)
    → entries_of slices ≡ ok entries
    → length entries ≡ length slices
unfolding entries_of
entries_of-length [] entries h = rw (← ok_inj h) refl
entries_of-length (slice ∷ slices) entries h = elim (Bool-cases (ltb (length slice) entry_bytes)) [
  | inl e ↦ absurd (cc (rw e at h))
  | inr e ↦
      let h' : (entries_of slices and_then λ es. ok (entry_of (take entry_bytes slice) ∷ es))
          ≡ ok entries =
        rw e at h in
      let (es, k, q) = and_then-ok (entries_of slices) _ entries h' in
      rw (← ok_inj q) (ap suc (entries_of-length slices es k))
]

-- The first entry, and those behind it.
entries_of-cons :
    (slice : Bytes) (slices : List Bytes) (entries : List GptEntry)
    → entries_of (slice ∷ slices) ≡ ok entries
    → (es : List GptEntry) × (entries_of slices ≡ ok es)
      × (entries ≡ entry_of (take entry_bytes slice) ∷ es)
unfolding entries_of
entries_of-cons slice slices entries h = elim (Bool-cases (ltb (length slice) entry_bytes)) [
  | inl e ↦ absurd (cc (rw e at h))
  | inr e ↦
      let h' : (entries_of slices and_then λ es. ok (entry_of (take entry_bytes slice) ∷ es))
          ≡ ok entries =
        rw e at h in
      let (es, k, q) = and_then-ok (entries_of slices) _ entries h' in (es, k, sym (ok_inj q))
]

-- The entry at each place.
entries_of-chunks_of :
    (fuel size : ℕ) (buf : Bytes) (entries : List GptEntry)
    → entries_of (chunks_of fuel size buf) ≡ ok entries
    → (i : ℕ) → i < length entries
    → get_elem? entries i ≡ some (entry_of (take 128 (take size (drop (i * size) buf))))
unfolding chunks_of
entries_of-chunks_of zero size buf entries h i lt =
    absurd (omega (arith, entries_of-length [] entries h))
entries_of-chunks_of (suc fuel) size [] entries h i lt =
    absurd (omega (arith, entries_of-length [] entries h))
entries_of-chunks_of (suc fuel) size (b ∷ buf) entries h zero lt =
    let (es, k, q) =
      entries_of-cons (take size (b ∷ buf)) (chunks_of fuel size (drop size (b ∷ buf))) entries h in
    ap (λ l. get_elem? l 0) q
    ∙ ap (λ n. some (entry_of (take 128 (take size (drop n (b ∷ buf)))))) {x = 0} {y = 0 * size}
        (grind arith)
entries_of-chunks_of (suc fuel) size (b ∷ buf) entries h (suc i) lt =
    let (es, k, q) =
      entries_of-cons (take size (b ∷ buf)) (chunks_of fuel size (drop size (b ∷ buf))) entries h in
    ap (λ l. get_elem? l (suc i)) q
    ∙ entries_of-chunks_of fuel size (drop size (b ∷ buf)) es k i (omega (arith, ap length q))
    ∙ ap (λ l. some (entry_of (take 128 (take size l))))
        (drop-drop size (i * size) (b ∷ buf)
          ∙ ap (λ n. drop n (b ∷ buf)) {y = suc i * size} (grind arith))

none_of_less : (m size : ℕ) → m * size < size → m * size ≡ 0
none_of_less zero size h = omega arith
none_of_less (suc m) size h =
    let e : suc m * size ≡ m * size + size = grind arith in absurd (omega arith)

chunks_of-length :
    (fuel size : ℕ) (buf : Bytes)
    → 0 < size
    → length buf ≤ fuel
    → (length buf ≤ length (chunks_of fuel size buf) * size)
      × (length (chunks_of fuel size buf) * size < length buf + size)
unfolding chunks_of
chunks_of-length zero size [] p h = (omega arith, omega arith)
chunks_of-length zero size (b ∷ buf) p h = absurd (omega arith)
chunks_of-length (suc fuel) size [] p h = (omega arith, omega arith)
chunks_of-length (suc fuel) size (b ∷ buf) p h =
    let n : ℕ = length (b ∷ buf) in
    let l : length (drop size (b ∷ buf)) ≡ n - size = length-drop size (b ∷ buf) in
    let (lo, hi) = chunks_of-length fuel size (drop size (b ∷ buf)) p (omega arith) in
    let m : ℕ = length (chunks_of fuel size (drop size (b ∷ buf))) in
    let one_more : suc m * size ≡ m * size + size = grind arith in
    (
      omega arith,
      elim (dec_lt (m * size) size) [
        | yes q ↦ omega (arith, none_of_less m size q)
        | no q ↦ omega arith
      ],
    )

-- The parts of a header that is accepted.
is_valid_header-sum :
    (buf : Bytes)
    → (is_valid_header buf).0 ≡ true
    → full_crc (take header_bytes (clear_crc buf)) ≡ number 4 16 buf
unfolding is_valid_header
is_valid_header-sum buf h = is_verified_crc32-sum _ _ h

-- The array that is read for a header.
record IsArray (drive : Drive) (is_backup : Bool) (header : GptHeader) (entries : List GptEntry)
    : Type 0 where
  array : Bytes
  on_drive :
      drive (arr_lba is_backup header (array_bytes header)) (arr_sectors (array_bytes header) * 512)
      ≡ some array
  sum : is_verified_crc32 array header.array_crc32 ≡ true
  decoded : entries_of (chunks header.entry_size array) ≡ ok entries

get_array-IsArray :
    (drive : Drive) (is_backup : Bool) (header : GptHeader) (entries : List GptEntry)
    → get_array drive is_backup header ≡ ok entries
    → IsArray drive is_backup header entries
unfolding get_array
get_array-IsArray drive is_backup header entries h =
    let (array, on_drive, h2) =
      and_then-ok
        (io_or (
          drive (arr_lba is_backup header (array_bytes header))
            (arr_sectors (array_bytes header) * 512)))
        _ entries h in
    elim (Bool-cases (is_verified_crc32 array header.array_crc32)) [
      | inl v ↦ record {
        array = array;
        on_drive = io_or-ok _ array on_drive;
        sum = v;
        decoded = rw v at h2;
      }
      | inr v ↦ absurd (cc (rw v at h2))
    ]

arr_lba-StartsAt :
    (is_backup : Bool) (header : GptHeader) (bytes : ℕ)
    → StartsAt is_backup header bytes (arr_lba is_backup header bytes)
arr_lba-StartsAt false header bytes = elim (Bool-cases (ltb header.array_start (2 ^ 63))) [
  | inl e ↦ inl (ltb→lt header.array_start (2 ^ 63) e, rw e refl)
  | inr e ↦ inr (ltb→le header.array_start (2 ^ 63) e, rw e refl)
]
arr_lba-StartsAt true header bytes = elim (Bool-cases (bytes % 512 == 0)) [
  | inl e ↦ (bytes / 512 + 0, omega (arith, ==→eq (bytes % 512) 0 e), omega arith, rw e refl)
  | inr e ↦ (bytes / 512 + 1, omega arith, omega (arith, ==→ne (bytes % 512) 0 e), rw e refl)
]

power_below-pos : (k n : ℕ) → power_below k n ≡ true → 0 < n
unfolding power_below
power_below-pos zero n h = absurd (cc h)
power_below-pos (suc k) n h = elim (Bool-cases (n == 2 ^ k)) [
  | inl e ↦ omega (arith, ==→eq n (2 ^ k) e, pow-pos k)
  | inr e ↦ power_below-pos k n (rw e at h)
]
  where
    pow-pos : (k : ℕ) → 0 < 2 ^ k
    pow-pos zero = omega arith
    pow-pos (suc k) = omega (arith, pow-pos k)

All-take {κ} : (P : ℕ → Type κ) (n : ℕ) (xs : Bytes) → All P xs → All P (take n xs)
All-take P zero xs h = tt
All-take P (suc n) [] h = tt
All-take P (suc n) (x ∷ xs) h = (h.0, All-take P n xs h.1)

All-drop {κ} : (P : ℕ → Type κ) (n : ℕ) (xs : Bytes) → All P xs → All P (drop n xs)
All-drop P zero xs h = h
All-drop P (suc n) [] h = tt
All-drop P (suc n) (x ∷ xs) h = All-drop P n xs h.1

clear_crc-IsBytes : (buf : Bytes) → IsBytes buf → IsBytes (clear_crc buf)
unfolding clear_crc
clear_crc-IsBytes buf h =
    All-append (λ b. b < 256) (take 16 buf) (replicate 4 0 ++ drop 20 buf)
      (All-take (λ b. b < 256) 16 buf h)
      (omega arith, (omega arith, (omega arith, (omega arith, All-drop (λ b. b < 256) 20 buf h))))

-- A copy whose header and array are accepted.
accepted-IsVerified :
    (drive : Drive) (is_backup : Bool) (sector : Bytes) (entries : List GptEntry)
    → IsDrive drive
    → drive (header_lba is_backup) sector_size ≡ some sector
    → (is_valid_header sector).0 ≡ true
    → is_power_of_two ((header_of (clear_crc sector)).entry_size / 128) ≡ true
    → get_array drive is_backup (header_of (clear_crc sector)) ≡ ok entries
    → IsVerified drive is_backup (header_of (clear_crc sector)) entries
unfolding array_bytes
accepted-IsVerified drive is_backup sector entries d on_drive v w got =
    let head : GptHeader = header_of (clear_crc sector) in
    let a = get_array-IsArray drive is_backup head entries got in
    let n : length a.array ≡ arr_sectors (array_bytes head) * 512 =
      d.sized _ _ a.array a.on_drive in
    let pos_size : 0 < head.entry_size =
      omega (arith, power_below-pos 32 (head.entry_size / 128) w) in
    let c = chunks_of-length (length a.array) head.entry_size a.array pos_size (omega arith) in
    let l = entries_of-length (chunks head.entry_size a.array) entries a.decoded in
    record {
      sector = sector;
      on_drive = on_drive;
      header_sum =
          sym (
            full_crc-eq (take header_bytes (clear_crc sector)) (
              All-take (λ b. b < 256) header_bytes (clear_crc sector)
                (clear_crc-IsBytes sector (d.bytes _ _ sector on_drive))))
          ∙ is_valid_header-sum sector v;
      decoded = refl;
      bytes = array_bytes head;
      size = refl;
      lba = arr_lba is_backup head (array_bytes head);
      starts_at = arr_lba-StartsAt is_backup head (array_bytes head);
      array = a.array;
      array_on_drive = a.on_drive;
      array_sum =
          sym (full_crc-eq a.array (d.bytes _ _ a.array a.on_drive))
          ∙ is_verified_crc32-sum a.array head.array_crc32 a.sum;
      entry_at = entries_of-chunks_of (length a.array) head.entry_size a.array entries a.decoded;
      all_entries = rw (l, ← n) c;
    }

get_table-IsVerified :
    (drive : Drive) (is_backup : Bool) (header : GptHeader) (entries : List GptEntry)
    → IsDrive drive
    → get_table drive (header_lba is_backup) is_backup ≡ ok (header, entries)
    → IsVerified drive is_backup header entries
unfolding get_table is_valid_header
get_table-IsVerified drive is_backup header entries d h =
    let (sector, on_drive, h2) =
      and_then-ok (io_or (drive (header_lba is_backup) sector_size)) _ (header, entries) h in
    let head : GptHeader = header_of (is_valid_header sector).1 in
    elim (Bool-cases (is_valid_header sector).0) [
      | inr v ↦ absurd (cc (rw v at h2))
      | inl v ↦ elim (Bool-cases (is_power_of_two (head.entry_size / 128))) [
        | inr w ↦ absurd (cc (rw w at (rw v at h2)))
        | inl w ↦
            let h3 : (get_array drive is_backup head and_then λ es. ok (head, es))
                ≡ ok (header, entries) =
              rw w at (rw v at h2) in
            let (es, got, h4) =
              and_then-ok (get_array drive is_backup head) _ (header, entries) h3 in
            subst (λ t. IsVerified drive is_backup t.0 t.1) (ok_inj h4)
              (accepted-IsVerified drive is_backup sector es d (io_or-ok _ sector on_drive) v w got)
      ]
    ]

choose-ok {ℓ} :
    {A : Type ℓ} (primary backup : GptResult A) (a : A)
    → choose primary backup ≡ ok a
    → (primary ≡ ok a) ⊎ (backup ≡ ok a)
unfolding choose
choose-ok panic backup a h = absurd (cc h)
choose-ok (ok p) panic a h = absurd (cc h)
choose-ok (ok p) (ok b) a h = inl h
choose-ok (ok p) (err e) a h = inl h
choose-ok (err e) panic a h = absurd (cc h)
choose-ok (err e) (ok b) a h = inr h
choose-ok (err e) (err e') a h = absurd (cc h)

-- A table that is read, from any drive that gives bytes, is one of the two copies on it, whose array
-- starts where the header says, or before the last sector for the backup. The checksums of the header and
-- of what is read of the array, its whole sectors with their count cut to 16 bits, are right, and the
-- entries are those that begin in the sectors that are read, each decoded at its place.
pub read_gpt-IsVerified :
    (drive : Drive) (header : GptHeader) (entries : List GptEntry)
    → IsDrive drive
    → read_gpt drive ≡ ok (header, entries)
    → (is_backup : Bool) × IsVerified drive is_backup header entries
unfolding read_gpt
read_gpt-IsVerified drive header entries d h = elim (Bool-cases (is_gpt_present drive)) [
  | inr n ↦ absurd (cc (rw n at h))
  | inl y ↦
      elim (choose-ok (get_table drive (pos 1) false) (get_table drive (negsuc 0) true)
        (header, entries) (rw y at h)) [
          | inl p ↦ (false, get_table-IsVerified drive false header entries d p)
          | inr b ↦ (true, get_table-IsVerified drive true header entries d b)
        ]
]
