-- ===== src/Time.antt =====
-- kernel/src/time/mod.rs and formats.rs: the real-time clock and its conversions. A read of the
-- hardware is a function of the register (`Rtc.Registers`). Words wrap as in a release build;
-- `none` is a panic.
pub mod Rtc
pub mod Days
pub mod Posix
pub mod Datetime
pub mod RoundTrip
pub mod Weekday
mod Tests
use package.dvida_oxide.Prelude.{
  ℕ, zero, suc, ◌+◌, ◌-◌, ◌*◌, ◌/◌, ◌%◌, ◌^◌, Bool, true, false, not, ◌&&◌, ◌||◌, Option, none,
  some, List, [], ◌∷◌, get_elem?, ltb, leb, ◌==◌, if◌then◌else◌,
}
use package.dvida_oxide.Prelude.Int.{
  ℤ, pos, negsuc, sub_ℕ, ◌+ℤ◌, ◌-ℤ◌, ◌*ℤ◌, ltb_ℤ, div_ℤ, mod_ℤ, as_word,
}

pub record RtcDateTime : Type 0 where
  pub second : ℕ
  pub minute : ℕ
  pub hour : ℕ
  pub day : ℕ
  pub month : ℕ
  pub year : ℕ
  pub weekday : ℕ

unfoldable pub is_leap_year : ℕ → Bool
is_leap_year year = (year % 4 == 0 && not (year % 100 == 0)) || year % 400 == 0

abbrev pub days_in_month : List ℕ
days_in_month = 31 ∷ 28 ∷ 31 ∷ 30 ∷ 31 ∷ 30 ∷ 31 ∷ 31 ∷ 30 ∷ 31 ∷ 30 ∷ 31 ∷ []

-- `for y in 1970..year`, with `rounds` years to go from `y` on.
pub add_years : ℕ → ℕ → ℕ → ℕ
add_years zero y days = days
add_years (suc rounds) y days =
    add_years rounds (y + 1) (days + (if is_leap_year y then 366 else 365))

-- `for m in 1..month`, with `rounds` months to go from `m` on; the table's index can panic.
pub add_months : ℕ → ℕ → ℕ → ℕ → Option ℕ
add_months year zero m days = some days
add_months year (suc rounds) m days = elim (get_elem? days_in_month (m - 1)) [
  | none ↦ none
  | some n ↦
      add_months year rounds (m + 1) (days + n + (if m == 2 && is_leap_year year then 1 else 0))
]

pub datetime_to_unix_timestamp : RtcDateTime → Option ℤ
datetime_to_unix_timestamp dt =
    elim (add_months dt.year (dt.month - 1) 1 (add_years (dt.year - 1970) 1970 0)) [
      | none ↦ none
      | some complete ↦
          let days = pos complete +ℤ (pos dt.day -ℤ pos 1) in
          some (days *ℤ pos 86400 +ℤ pos (dt.hour * 3600) +ℤ pos (dt.minute * 60) +ℤ pos dt.second)
    ]

-- Zeller's congruence, in `i32`.
pub calculate_weekday : ℕ → ℕ → ℕ → ℕ
calculate_weekday year month day =
    let m = if ltb month 3 then month + 12 else month in
    let y = if ltb month 3 then pos year -ℤ pos 1 else pos year in
    let k = mod_ℤ y 100 in
    let j = div_ℤ y 100 in
    let h =
      mod_ℤ (pos day +ℤ pos (13 * (m + 1) / 5) +ℤ k +ℤ div_ℤ k 4 +ℤ div_ℤ j 4 -ℤ pos 2 *ℤ j) 7 in
    as_word 256 (mod_ℤ (h +ℤ pos 6) 7)

-- The year loop of `unix_timestamp_to_datetime`: the year that the days fall in, and the days left
-- in it. `year` is a `u16`. Every round takes at least 365 days, so the fuel lasts.
pub split_years : ℕ → ℤ → ℕ → Option (ℤ × ℕ)
split_years zero days year = none
split_years (suc fuel) days year =
    let days_in_year = pos (if is_leap_year year then 366 else 365) in
    let rest = split_years fuel (days -ℤ days_in_year) ((year + 1) % 2 ^ 16) in
    if ltb_ℤ days days_in_year then some (days, year) else rest

-- `for m in 0..12`, over the table from `m` on.
pub split_months : ℕ → List ℕ → ℕ → ℤ → ℕ → ℤ × ℕ
split_months year [] m days month = (days, month)
split_months year (n ∷ table) m days month =
    let length = pos (n + (if m == 1 && is_leap_year year then 1 else 0)) in
    let rest = split_months year table (m + 1) (days -ℤ length) (month + 1) in
    if ltb_ℤ days length then (days, month) else rest

abbrev pub fuel_for : ℤ → ℕ
fuel_for (pos n) = n + 1
fuel_for (negsuc n) = 1

pub unix_timestamp_to_datetime : ℤ → Option RtcDateTime
unix_timestamp_to_datetime timestamp =
    let days = div_ℤ timestamp 86400 in
    let remaining = mod_ℤ timestamp 86400 in
    let remaining' = mod_ℤ remaining 3600 in
    elim (split_years (fuel_for days) days 1970) [
      | none ↦ none
      | some (left, year) ↦
          let (left', month) = split_months year days_in_month 0 left 1 in
          let day = as_word 256 (left' +ℤ pos 1) in
          some (record {
            second = as_word 256 (mod_ℤ remaining' 60);
            minute = as_word 256 (div_ℤ remaining' 60);
            hour = as_word 256 (div_ℤ remaining 3600);
            day = day;
            month = month;
            year = year;
            weekday = calculate_weekday year month day;
          })
    ]

-- formats.rs, in `i32` up to the last line, which is in `u32`.
pub rtc_to_posix : RtcDateTime → ℕ
rtc_to_posix rtc =
    let year = if leb rtc.month 2 then pos rtc.year -ℤ pos 1 else pos rtc.year in
    let month = if leb rtc.month 2 then rtc.month + 12 else rtc.month in
    let days =
      pos 365 *ℤ year
      +ℤ div_ℤ year 4
      -ℤ div_ℤ year 100
      +ℤ div_ℤ year 400
      +ℤ pos ((153 * month - 457) / 5)
      +ℤ pos rtc.day
      -ℤ pos 719528 in
    (as_word (2 ^ 32) days * 86400 + rtc.hour * 3600 + rtc.minute * 60 + rtc.second) % 2 ^ 32
