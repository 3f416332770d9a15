-- ===== src/Time/Days.antt =====
-- Days of years and months in closed form: the loops of the conversions against the calendar.
use dvida_oxide.Prelude.{
  ℕ, zero, suc, ◌+◌, ◌-◌, ◌*◌, ◌/◌, ◌≤◌, ◌≡◌, refl, ap, subst, some, leb, if◌then◌else◌, arith,
}
use native.Mathlib.Nat.{add-zero}
use dvida_oxide.Prelude.Int.{pos, +ℤ_pos, -ℤ_pos, *ℤ_pos}
use dvida_oxide.Time.{datetime_to_unix_timestamp, RtcDateTime, is_leap_year, add_years, add_months}

abbrev pub year_length : ℕ → ℕ
year_length y = if is_leap_year y then 366 else 365

-- The days between 1 January of year 1 and 1 January of year `y`, for a positive `y`.
unfoldable pub days_before_year : ℕ → ℕ
days_before_year y = 365 * (y - 1) + (y - 1) / 4 + (y - 1) / 400 - (y - 1) / 100

pub days_before_year-suc :
    (y : ℕ) → 1 ≤ y → days_before_year (y + 1) ≡ days_before_year y + year_length y
unfolding days_before_year is_leap_year
days_before_year-suc y h = ground arith

pub add_years_lem :
    (rounds y days : ℕ)
    → 1 ≤ y
    → add_years rounds y days + days_before_year y ≡ days + days_before_year (y + rounds)
unfolding add_years
add_years_lem zero y days h = rw add-zero
add_years_lem (suc rounds) y days h =
    let shift : y + suc rounds ≡ y + 1 + rounds = omega arith in
    rw shift
      (omega (arith, add_years_lem rounds (y + 1) (days + year_length y), days_before_year-suc y h))

-- The days of the months before `month` in a year.
abbrev pub days_before_month : ℕ → ℕ → ℕ
days_before_month year month =
    if leb month 2
    then 31 * (month - 1)
    else (153 * month - 457) / 5 + 59 + (if is_leap_year year then 1 else 0)

-- A month is one of twelve.
pub month_cases {ℓ} :
    (P : ℕ → Type ℓ)
    → P 1
    → P 2
    → P 3
    → P 4
    → P 5
    → P 6
    → P 7
    → P 8
    → P 9
    → P 10
    → P 11
    → P 12
    → (m : ℕ) → 1 ≤ m
    → m ≤ 12
    → P m
month_cases P p1 p2 p3 p4 p5 p6 p7 p8 p9 p10 p11 p12 m lo hi = go m lo hi
  where
    go : (m : ℕ) → 1 ≤ m → m ≤ 12 → P m
    go zero lo hi = absurd (omega arith)
    go (suc zero) lo hi = p1
    go (suc (suc zero)) lo hi = p2
    go (suc (suc (suc zero))) lo hi = p3
    go (suc (suc (suc (suc zero)))) lo hi = p4
    go (suc (suc (suc (suc (suc zero))))) lo hi = p5
    go (suc (suc (suc (suc (suc (suc zero)))))) lo hi = p6
    go (suc (suc (suc (suc (suc (suc (suc zero))))))) lo hi = p7
    go (suc (suc (suc (suc (suc (suc (suc (suc zero)))))))) lo hi = p8
    go (suc (suc (suc (suc (suc (suc (suc (suc (suc zero))))))))) lo hi = p9
    go (suc (suc (suc (suc (suc (suc (suc (suc (suc (suc zero)))))))))) lo hi = p10
    go (suc (suc (suc (suc (suc (suc (suc (suc (suc (suc (suc zero))))))))))) lo hi = p11
    go (suc (suc (suc (suc (suc (suc (suc (suc (suc (suc (suc (suc zero)))))))))))) lo hi = p12
    go (suc (suc (suc (suc (suc (suc (suc (suc (suc (suc (suc (suc (suc m))))))))))))) lo hi =
        absurd (omega arith)

pub add_months_lem :
    (year days month : ℕ)
    → 1 ≤ month
    → month ≤ 12
    → add_months year (month - 1) 1 days ≡ some (days + days_before_month year month)
unfolding add_months is_leap_year
add_months_lem year days =
    month_cases
      (λ month. add_months year (month - 1) 1 days ≡ some (days + days_before_month year month))
      (ground arith) (ground arith) (ground arith) (ground arith) (ground arith) (ground arith)
      (ground arith) (ground arith) (ground arith) (ground arith) (ground arith) (ground arith)

-- The day number of a date: the days since 1 January 1970, for a date from then on.
abbrev pub unix_days : ℕ → ℕ → ℕ → ℕ
unix_days year month day = days_before_year year + days_before_month year month + (day - 1) - 719162

abbrev pub unix_seconds : RtcDateTime → ℕ
unix_seconds dt =
    unix_days dt.year dt.month dt.day * 86400 + dt.hour * 3600 + dt.minute * 60 + dt.second

-- A date from 1970 on; the day is not held to the length of its month.
pub record IsDate (dt : RtcDateTime) : Type 0 where
  pub year_from : 1970 ≤ dt.year
  pub month_from : 1 ≤ dt.month
  pub month_to : dt.month ≤ 12
  pub day_from : 1 ≤ dt.day

pub days_before_year_epoch : days_before_year 1970 ≡ 719162
unfolding days_before_year
days_before_year_epoch = refl

pub days_before_year-ge : (y : ℕ) → 1970 ≤ y → 719162 + 365 * (y - 1970) ≤ days_before_year y
unfolding days_before_year
days_before_year-ge y h = omega arith

-- `datetime_to_unix_timestamp` returns the seconds since 1970 of a date.
pub datetime_to_unix_timestamp_lem :
    (dt : RtcDateTime) → IsDate dt → datetime_to_unix_timestamp dt ≡ some (pos (unix_seconds dt))
unfolding datetime_to_unix_timestamp
datetime_to_unix_timestamp_lem dt d =
    let years = add_years_lem (dt.year - 1970) 1970 0 (omega arith) in
    let at : 1970 + (dt.year - 1970) ≡ dt.year = omega (arith, d.year_from) in
    let years' =
      subst
        (λ y. add_years (dt.year - 1970) 1970 0 + days_before_year 1970 ≡ 0 + days_before_year y) at
        years in
    let months =
      add_months_lem dt.year (add_years (dt.year - 1970) 1970 0) dt.month d.month_from d.month_to in
    rw
      (
        months,
        datetime_to_unix_timestamp,
        -ℤ_pos dt.day 1 d.day_from,
        +ℤ_pos,
        *ℤ_pos,
        +ℤ_pos,
        +ℤ_pos,
        +ℤ_pos,
      )
      (ap (λ n. some (pos n))
        (omega (arith, years', days_before_year_epoch, days_before_year-ge dt.year d.year_from)))
