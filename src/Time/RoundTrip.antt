-- ===== src/Time/RoundTrip.antt =====
-- The conversions between dates and timestamps invert each other.
use dvida_oxide.Prelude.{
  ℕ, suc, ◌+◌, ◌-◌, ◌*◌, ◌/◌, ◌%◌, ◌≤◌, ◌<◌, ◌≡◌, refl, ◌∙◌, sym, ap, subst, Option, some, arith,
}
use dvida_oxide.Prelude.Int.{ℤ, pos, div_ℤ, mod_ℤ, as_word, +ℤ_pos}
use dvida_oxide.Time.{
  RtcDateTime, days_in_month, split_years, split_months, calculate_weekday,
  unix_timestamp_to_datetime, datetime_to_unix_timestamp,
}
use dvida_oxide.Time.Days.{
  IsDate, year_length, days_before_year, days_before_month, days_before_year-suc,
  days_before_year-ge, days_before_year_epoch, unix_days, unix_seconds,
  datetime_to_unix_timestamp_lem,
}
use dvida_oxide.Time.Datetime.{
  last_year, month_length, month_length_lem, FindsYear, FindsMonth, split_years-FindsYear,
  split_months-FindsMonth, days_in_month-AreLengths, days_before_year_mono, days_before_month_mono,
}

-- A date and time of day that exist, from 1970 to the last year of a `u16`.
pub record IsDatetime (dt : RtcDateTime) : Type 0 where
  pub date : IsDate dt
  pub day_to : dt.day ≤ month_length dt.year dt.month
  pub year_to : dt.year ≤ last_year
  pub hour_to : dt.hour < 24
  pub minute_to : dt.minute < 60
  pub second_to : dt.second < 60

-- The first timestamp whose year is no `u16`.
abbrev pub end_of_time : ℕ
end_of_time = (days_before_year (last_year + 1) - 719162) * 86400

month_length-le : (year month : ℕ) → 1 ≤ month → month_length year month ≤ 31
month_length-le year month h = ground arith

-- `run` returned the date of the timestamp.
pub record Converts (timestamp : ℕ) (run : Option RtcDateTime) : Type 0 where
  pub out : RtcDateTime
  pub returns : run ≡ some out
  pub exists : IsDatetime out
  pub seconds : unix_seconds out ≡ timestamp
  pub on : out.weekday ≡ calculate_weekday out.year out.month out.day

year_of :
    (days : ℕ)
    → days < days_before_year (last_year + 1) - 719162
    → FindsYear days 1970 (split_years (days + 1) (pos days) 1970)
year_of days h =
    split_years-FindsYear (days + 1) days 1970 (omega arith) (omega arith) (omega arith)
      (omega (arith, days_before_year_epoch))

month_of :
    (year days : ℕ)
    → days < year_length year
    → FindsMonth year days 1 13 (split_months year days_in_month 0 (pos days) 1)
month_of year days h =
    split_months-FindsMonth year days_in_month 0 days (days_in_month-AreLengths year) (ground arith)

-- The number of a day found by the loops.
found_day :
    (days year year_days month month_days : ℕ)
    → 1970 ≤ year
    → days_before_year year + year_days ≡ days_before_year 1970 + days
    → days_before_month year month + month_days ≡ days_before_month year 1 + year_days
    → unix_days year month (month_days + 1) ≡ days
found_day days year year_days month month_days from y m =
    omega (arith, days_before_year_epoch, days_before_year-ge year from)

found_datetime : ℕ → ℕ → ℕ → ℕ → RtcDateTime
found_datetime rest year month day = record {
  second = rest % 3600 % 60;
  minute = rest % 3600 / 60;
  hour = rest / 3600;
  day = day;
  month = month;
  year = year;
  weekday = calculate_weekday year month day;
}

returned :
    (timestamp year_days year month_days month : ℕ)
    → split_years (timestamp / 86400 + 1) (pos (timestamp / 86400)) 1970
      ≡ some (pos year_days, year)
    → split_months year days_in_month 0 (pos year_days) 1 ≡ (pos month_days, month)
    → month_days < 31
    → unix_timestamp_to_datetime (pos timestamp)
      ≡ some (found_datetime (timestamp % 86400) year month (month_days + 1))
unfolding unix_timestamp_to_datetime found_datetime div_ℤ mod_ℤ as_word
returned timestamp year_days year month_days month y m short =
    let day : (month_days + 1) % 256 ≡ month_days + 1 = omega arith in
    rw (y, m, +ℤ_pos, day, unix_timestamp_to_datetime) (ground arith)

found_seconds :
    (timestamp year month day : ℕ)
    → unix_days year month day ≡ timestamp / 86400
    → unix_seconds (found_datetime (timestamp % 86400) year month day) ≡ timestamp
unfolding found_datetime
found_seconds timestamp year month day e = omega arith

pub unix_timestamp_to_datetime-Converts :
    (timestamp : ℕ)
    → timestamp < end_of_time
    → Converts timestamp (unix_timestamp_to_datetime (pos timestamp))
unfolding found_datetime
unix_timestamp_to_datetime-Converts timestamp h =
    let rest = timestamp % 86400 in
    let y = year_of (timestamp / 86400) (omega arith) in
    let m = month_of y.found y.left y.within in
    let short = month_length-le y.found m.found m.above in
    record {
      out = found_datetime rest y.found m.found (m.left + 1);
      returns =
          returned timestamp y.left y.found m.left m.found y.returns m.returns
            (omega (arith, m.within, short));
      exists = record {
        date = record {
          year_from = y.above;
          month_from = m.above;
          month_to = omega (arith, m.below);
          day_from = omega arith;
        };
        day_to = omega (arith, m.within);
        year_to = y.word;
        hour_to = omega arith;
        minute_to = omega arith;
        second_to = omega arith;
      };
      seconds =
          found_seconds timestamp y.found m.found (m.left + 1)
            (found_day (timestamp / 86400) y.found y.left m.found m.left y.above y.total m.total);
      on = refl;
    }

-- From a timestamp to its date and back: every timestamp from 0 up to the end of the year 65535
-- has a date, which exists, and `datetime_to_unix_timestamp` returns the timestamp for it.
pub unix_timestamp_to_datetime-datetime_to_unix_timestamp :
    (timestamp : ℕ)
    → timestamp < end_of_time
    → (dt : RtcDateTime) × (unix_timestamp_to_datetime (pos timestamp) ≡ some dt)
      × IsDatetime dt
      × (datetime_to_unix_timestamp dt ≡ some (pos timestamp))
unix_timestamp_to_datetime-datetime_to_unix_timestamp timestamp h =
    let c = unix_timestamp_to_datetime-Converts timestamp h in
    (
      c.out,
      c.returns,
      c.exists,
      datetime_to_unix_timestamp_lem c.out c.exists.date ∙ ap (λ n. some (pos n)) c.seconds,
    )

year_unique :
    (y y' a a' : ℕ)
    → 1970 ≤ y
    → days_before_year y + a ≡ days_before_year y' + a'
    → a < year_length y
    → ¬ (suc y ≤ y')
year_unique y y' a a' lo e h lt =
    let at : y + 1 + (y' - (y + 1)) ≡ y' = omega arith in
    omega (
      arith,
      days_before_year-suc y,
      subst (λ k. days_before_year (y + 1) ≤ days_before_year k) at
          (days_before_year_mono (y' - (y + 1)) (y + 1) (omega arith)),
    )

month_unique :
    (year m m' a a' : ℕ)
    → 1 ≤ m
    → days_before_month year m + a ≡ days_before_month year m' + a'
    → a < month_length year m
    → ¬ (suc m ≤ m')
month_unique year m m' a a' lo e h lt = omega (
  arith,
  month_length_lem year m lo,
  days_before_month_mono year (m + 1) m' (omega arith) (omega arith),
)

year_day-lt :
    (dt : RtcDateTime)
    → IsDatetime dt
    → days_before_month dt.year dt.month + (dt.day - 1) < year_length dt.year
year_day-lt dt d =
    let all : days_before_month dt.year 13 ≡ year_length dt.year = ground arith in
    omega (
      arith,
      all,
      month_length_lem dt.year dt.month d.date.month_from,
      days_before_month_mono dt.year (dt.month + 1) 13 (omega arith)
          (omega (arith, d.date.month_to)),
    )

module _ (d d' : RtcDateTime) (v : IsDatetime d) (v' : IsDatetime d')
    (same : unix_seconds d ≡ unix_seconds d') where
  same_days : unix_days d.year d.month d.day ≡ unix_days d'.year d'.month d'.day
  same_days = omega (arith, v.hour_to, v'.hour_to)

  same_year : d.year ≡ d'.year
  same_year =
      let y = days_before_year-ge d.year v.date.year_from in
      let y' = days_before_year-ge d'.year v'.date.year_from in
      let a = days_before_month d.year d.month + (d.day - 1) in
      let a' = days_before_month d'.year d'.month + (d'.day - 1) in
      let e : days_before_year d.year + a ≡ days_before_year d'.year + a' =
        omega (arith, same_days) in
      omega (
        arith,
        year_unique d.year d'.year a a' v.date.year_from e (year_day-lt d v),
        year_unique d'.year d.year a' a v'.date.year_from (sym e) (year_day-lt d' v'),
      )

  same_month_days :
      days_before_month d.year d.month + (d.day - 1)
      ≡ days_before_month d.year d'.month + (d'.day - 1)
  same_month_days =
      let y = days_before_year-ge d.year v.date.year_from in
      let y' = days_before_year-ge d'.year v'.date.year_from in
      omega (
        arith,
        same_days,
        ap days_before_year same_year,
        ap (λ k. days_before_month k d'.month) same_year,
      )

  same_month : d.month ≡ d'.month
  same_month =
      let to : d'.day - 1 < month_length d.year d'.month =
        rw same_year (omega (arith, v'.day_to, v'.date.day_from)) in
      omega (
        arith,
        month_unique d.year d.month d'.month (d.day - 1) (d'.day - 1) v.date.month_from
            same_month_days (omega (arith, v.day_to, v.date.day_from)),
        month_unique d.year d'.month d.month (d'.day - 1) (d.day - 1) v'.date.month_from
            (sym same_month_days) to,
      )

  same_day : d.day ≡ d'.day
  same_day = omega (
    arith,
    same_month_days,
    ap (days_before_month d.year) same_month,
    v.date.day_from,
    v'.date.day_from,
  )

  same_datetime :
      d.weekday ≡ calculate_weekday d.year d.month d.day
      → d'.weekday ≡ calculate_weekday d'.year d'.month d'.day
      → d ≡ d'
  same_datetime w w' =
      let seconds : d.second ≡ d'.second = omega (arith, same_days) in
      let minutes : d.minute ≡ d'.minute = omega (arith, same_days) in
      let hours : d.hour ≡ d'.hour = omega (arith, same_days) in
      let on : d.weekday ≡ d'.weekday = cc (same_year, same_month, same_day) in
      λ i. record {
        second = seconds i;
        minute = minutes i;
        hour = hours i;
        day = same_day i;
        month = same_month i;
        year = same_year i;
        weekday = on i;
      }

before_end : (dt : RtcDateTime) → IsDatetime dt → unix_seconds dt < end_of_time
before_end dt v =
    let at : dt.year + 1 + (last_year - dt.year) ≡ last_year + 1 = omega (arith, v.year_to) in
    omega (
      arith,
      year_day-lt dt v,
      days_before_year-suc dt.year (omega (arith, v.date.year_from)),
      days_before_year-ge dt.year v.date.year_from,
      subst (λ k. days_before_year (dt.year + 1) ≤ days_before_year k) at
          (days_before_year_mono (last_year - dt.year) (dt.year + 1) (omega arith)),
    )

-- From a date to its timestamp and back: a date and time of day that exist, from 1970 up to the
-- year 65535 and with the weekday of `calculate_weekday`, come back from their timestamp.
pub datetime_to_unix_timestamp-unix_timestamp_to_datetime :
    (dt : RtcDateTime)
    → IsDatetime dt
    → dt.weekday ≡ calculate_weekday dt.year dt.month dt.day
    → (timestamp : ℤ) × (datetime_to_unix_timestamp dt ≡ some timestamp)
      × (unix_timestamp_to_datetime timestamp ≡ some dt)
datetime_to_unix_timestamp-unix_timestamp_to_datetime dt v on =
    let c = unix_timestamp_to_datetime-Converts (unix_seconds dt) (before_end dt v) in
    (
      pos (unix_seconds dt),
      datetime_to_unix_timestamp_lem dt v.date,
      c.returns ∙ ap some (same_datetime c.out dt c.exists v c.seconds c.on on),
    )
