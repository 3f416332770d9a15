-- ===== src/Time/Rtc.antt =====
-- `Rtc::read_datetime` and `read_datetime_reliable`. The hardware answers each port read in turn:
-- a script gives the values that successive polls of the update flag see, and the registers that
-- the reads of one attempt see. Only the log output is left out.
mod Tests
use package.dvida_oxide.Prelude.{
  ℕ, zero, suc, ◌+◌, ◌-◌, ◌*◌, ◌/◌, ◌%◌, ◌≤◌, ◌<◌, ◌≡◌, ◌≢◌, refl, inl, inr, Bool, true, false, not,
  ◌&&◌, ◌||◌, Option, none, some, List, [], ◌∷◌, bit_and, ltb, leb, ◌==◌, if◌then◌else◌, Bool-cases,
  arith, ==→eq, ==→ne, subst, sym,
}
use package.dvida_oxide.Prelude.Bytes.{all_below, all_below_lem}
use package.dvida_oxide.Time.{RtcDateTime}
use package.dvida_oxide.Time.Days.{month_cases}

abbrev pub status_b_24_hour : ℕ
status_b_24_hour = 0x02

abbrev pub status_b_binary : ℕ
status_b_binary = 0x04

-- What the reads of one attempt return.
pub record Registers : Type 0 where
  pub seconds : ℕ
  pub minutes : ℕ
  pub hours : ℕ
  pub weekday : ℕ
  pub day : ℕ
  pub month : ℕ
  pub year : ℕ
  pub century : ℕ
  pub status_b : ℕ

-- One attempt: the registers, and the update flag as it is polled after they were read.
pub record Attempt : Type 0 where
  pub registers : Registers
  pub updating : Bool

-- `bcd >> 4` is at most 15, so the `u8` product cannot wrap.
pub bcd_to_binary : ℕ → ℕ
bcd_to_binary bcd = bcd / 16 * 10 + bit_and bcd 0x0F

-- The conversion of the hour to 24 hours.
pub to_24_hour : Bool → ℕ → ℕ
to_24_hour is_24hour hour =
    if is_24hour
    then hour
    else (let pm = not (bit_and hour 0x80 == 0) in
        let hour' = bit_and hour 0x7F in
        if pm && not (hour' == 12)
        then hour' + 12
        else (if not pm && hour' == 12 then 0 else hour'))

pub full_year : ℕ → ℕ → ℕ
full_year century year =
    if ltb 0 century && ltb century 99
    then century * 100 + year
    else (if ltb year 80 then 2000 + year else 1900 + year)

-- The conversions after the reads.
pub decode : Registers → RtcDateTime
unfolding bcd_to_binary to_24_hour full_year
decode r =
    let is_binary = not (bit_and r.status_b status_b_binary == 0) in
    let is_24hour = not (bit_and r.status_b status_b_24_hour == 0) in
    let convert = λ (v : ℕ). if is_binary then v else bcd_to_binary v in
    let hour = if is_binary then r.hours else bcd_to_binary (bit_and r.hours 0x7F) in
    record {
      second = convert r.seconds;
      minute = convert r.minutes;
      hour = to_24_hour is_24hour hour;
      day = convert r.day;
      month = convert r.month;
      year = full_year (convert r.century) (convert r.year);
      weekday = r.weekday;
    }

-- The wait before the reads has ended; an update during them makes the attempt fail.
pub read_datetime : Attempt → Option RtcDateTime
read_datetime a = if a.updating then none else some (decode a.registers)

-- `for attempt in 1..=5`, over the attempts that are left; `none` is the panic at the end.
pub read_attempts : ℕ → (ℕ → Attempt) → ℕ → Option RtcDateTime
read_attempts zero script n = none
read_attempts (suc left) script n =
    let rest = read_attempts left script (n + 1) in
    elim (read_datetime (script n)) [ some dt ↦ some dt | none ↦ rest ]

pub read_datetime_reliable : (ℕ → Attempt) → Option RtcDateTime
read_datetime_reliable script = read_attempts 5 script 0

abbrev pub encode_bcd : ℕ → ℕ
encode_bcd n = n / 10 * 16 + n % 10

bcd_table : all_below 100 (λ n. bcd_to_binary (encode_bcd n) == n) ≡ true
unfolding all_below bcd_to_binary
bcd_table = refl

-- `bcd_to_binary` decodes the two decimal digits of every number below 100.
bcd_to_binary-encode_bcd : (n : ℕ) → n < 100 → bcd_to_binary (encode_bcd n) ≡ n
bcd_to_binary-encode_bcd n h =
    ==→eq _ n (all_below_lem 100 (λ k. bcd_to_binary (encode_bcd k) == k) n bcd_table h)

abbrev pub is_binary : Registers → Bool
is_binary r = not (bit_and r.status_b status_b_binary == 0)

abbrev pub is_24hour : Registers → Bool
is_24hour r = not (bit_and r.status_b status_b_24_hour == 0)

-- The hours register of a 12-hour clock: the hour in binary or BCD, with bit 7 in the afternoon.
abbrev pub hours_register : Bool → Bool → ℕ → ℕ
hours_register binary pm hour =
    (if binary then hour else encode_bcd hour) + (if pm then 0x80 else 0)

converted : Bool → ℕ → ℕ
unfolding bcd_to_binary to_24_hour
converted binary register =
    to_24_hour false (if binary then register else bcd_to_binary (bit_and register 0x7F))

converted_lem :
    (binary pm : Bool) (hour : ℕ)
    → 1 ≤ hour
    → hour ≤ 12
    → converted binary (hours_register binary pm hour)
      ≡ hour % 12 + (if binary && pm then 12 else 0)
unfolding converted
converted_lem true true = month_cases _ refl refl refl refl refl refl refl refl refl refl refl refl
converted_lem true false = month_cases _ refl refl refl refl refl refl refl refl refl refl refl refl
converted_lem false true = month_cases _ refl refl refl refl refl refl refl refl refl refl refl refl
converted_lem false false =
    month_cases _ refl refl refl refl refl refl refl refl refl refl refl refl

-- With a 12-hour clock the hour is right in binary mode. In BCD mode the afternoon flag is lost:
-- an afternoon hour is decoded as that of the morning.
pub decode_12_hour :
    (r : Registers) (pm : Bool) (hour : ℕ)
    → is_24hour r ≡ false
    → 1 ≤ hour
    → hour ≤ 12
    → r.hours ≡ hours_register (is_binary r) pm hour
    → (decode r).hour ≡ hour % 12 + (if is_binary r && pm then 12 else 0)
unfolding decode converted
decode_12_hour r pm hour clock lo hi e = rw (clock, e) (converted_lem (is_binary r) pm hour lo hi)

read_datetime-updating : (a : Attempt) → a.updating ≡ true → read_datetime a ≡ none
unfolding read_datetime
read_datetime-updating a e = rw e

read_datetime-steady :
    (a : Attempt) → a.updating ≡ false → read_datetime a ≡ some (decode a.registers)
unfolding read_datetime
read_datetime-steady a e = rw e

-- The attempts from `n` up to `k` meet an update.
abbrev pub AllUpdating : (ℕ → Attempt) → ℕ → ℕ → Type 0
AllUpdating script n k = (j : ℕ) → n ≤ j → j < k → (script j).updating ≡ true

read_attempts-first :
    (left : ℕ) (script : ℕ → Attempt) (n k : ℕ)
    → n ≤ k
    → k < n + left
    → AllUpdating script n k
    → (script k).updating ≡ false
    → read_attempts left script n ≡ some (decode (script k).registers)
unfolding read_attempts
read_attempts-first zero script n k lo hi all steady = absurd (omega arith)
read_attempts-first (suc left) script n k lo hi all steady = elim (Bool-cases (n == k)) [
  | inl e ↦
      let here : read_datetime (script n) ≡ some (decode (script k).registers) =
        subst (λ m. read_datetime (script m) ≡ some (decode (script k).registers))
          (sym (==→eq n k e)) (read_datetime-steady (script k) steady) in
      rw (here, read_attempts)
  | inr e ↦
      let before : n < k = omega (arith, ==→ne n k e) in
      rw (read_datetime-updating (script n) (all n (omega arith) before), read_attempts)
        (read_attempts-first left script (n + 1) k (omega arith) (omega arith)
          (λ j lo' hi'. all j (omega arith) hi') steady)
]

read_attempts_all :
    (left : ℕ) (script : ℕ → Attempt) (n : ℕ)
    → AllUpdating script n (n + left)
    → read_attempts left script n ≡ none
unfolding read_attempts
read_attempts_all zero script n all = refl
read_attempts_all (suc left) script n all =
    rw (read_datetime-updating (script n) (all n (omega arith) (omega arith)), read_attempts)
      (read_attempts_all left script (n + 1) (λ j lo hi. all j (omega arith) (omega arith)))

-- The reliable read returns the date of the first of five attempts that no update spoils.
pub read_datetime_reliable-first :
    (script : ℕ → Attempt) (k : ℕ)
    → k < 5
    → AllUpdating script 0 k
    → (script k).updating ≡ false
    → read_datetime_reliable script ≡ some (decode (script k).registers)
unfolding read_datetime_reliable
read_datetime_reliable-first script k hi all steady =
    read_attempts-first 5 script 0 k (omega arith) (omega arith) all steady

-- It panics if updates spoil all five.
pub read_datetime_reliable_all :
    (script : ℕ → Attempt) → AllUpdating script 0 5 → read_datetime_reliable script ≡ none
unfolding read_datetime_reliable
read_datetime_reliable_all script all = read_attempts_all 5 script 0 all
