-- ===== src/Time/Datetime.antt =====
-- `unix_timestamp_to_datetime`: the loops over years and months find the date of a day number.
use dvida_oxide.Prelude.{
  ℕ, zero, suc, ◌+◌, ◌-◌, ◌%◌, ◌^◌, ◌≤◌, ◌<◌, ◌≡◌, refl, ◌∙◌, ap, inl, inr, Option, ◌&&◌, some,
  List, [], ◌∷◌, length, ltb, ◌==◌, if◌then◌else◌, Bool-cases, arith, ltb→lt, ltb→le,
}
use dvida_oxide.Prelude.Int.{ℤ, pos, -ℤ_pos, ltb_ℤ-pos}
use dvida_oxide.Time.{is_leap_year, days_in_month, split_years, split_months}
use dvida_oxide.Time.Days.{year_length, days_before_year, days_before_month, days_before_year-suc}

pub days_before_year_mono : (k y : ℕ) → 1 ≤ y → days_before_year y ≤ days_before_year (y + k)
unfolding days_before_year
days_before_year_mono k y h = omega arith

abbrev pub last_year : ℕ
last_year = 2 ^ 16 - 1

-- The year loop, from `year` on with `days` to go, returned the year that the days fall in.
pub record FindsYear (days year : ℕ) (run : Option (ℤ × ℕ)) : Type 0 where
  pub left : ℕ
  pub found : ℕ
  pub returns : run ≡ some (pos left, found)
  pub total : days_before_year found + left ≡ days_before_year year + days
  pub within : left < year_length found
  pub above : year ≤ found
  pub word : found ≤ last_year

year_length_pos : (y : ℕ) → 1 ≤ year_length y
year_length_pos y = ground arith

next_year :
    (days year : ℕ)
    → 1 ≤ year
    → year ≤ last_year
    → days_before_year year + days < days_before_year (last_year + 1)
    → year_length year ≤ days
    → year + 1 ≤ last_year
next_year days year lo hi d more = elim (Bool-cases (ltb year last_year)) [
  | inl before ↦ omega (arith, ltb→lt year last_year before)
  | inr at ↦
      let e : year ≡ last_year = omega (arith, ltb→le year last_year at) in
      absurd (omega (arith, days_before_year-suc year lo, ap (λ y. days_before_year (y + 1)) e))
]

pub split_years-FindsYear :
    (fuel days year : ℕ)
    → days < fuel
    → 1 ≤ year
    → year ≤ last_year
    → days_before_year year + days < days_before_year (last_year + 1)
    → FindsYear days year (split_years fuel (pos days) year)
unfolding split_years
split_years-FindsYear zero days year f lo hi d = absurd (omega arith)
split_years-FindsYear (suc fuel) days year f lo hi d =
    elim (Bool-cases (ltb days (year_length year))) [
      | inl stop ↦ record {
        left = days;
        found = year;
        returns = rw (ltb_ℤ-pos, stop);
        total = refl;
        within = ltb→lt days (year_length year) stop;
        above = omega arith;
        word = hi;
      }
      | inr on ↦
          let more = ltb→le days (year_length year) on in
          let one = days_before_year-suc year lo in
          let next = next_year days year lo hi d more in
          let step : (year + 1) % 2 ^ 16 ≡ year + 1 = omega arith in
          let go_on : split_years (suc fuel) (pos days) year
              ≡ split_years fuel (pos (days - year_length year)) (year + 1) =
            rw (ltb_ℤ-pos, on, -ℤ_pos days (year_length year) more, step, split_years) in
          let rest =
            split_years-FindsYear fuel (days - year_length year) (year + 1)
              (omega (arith, year_length_pos year)) (omega arith) next (omega (arith, one)) in
          record {
            left = rest.left;
            found = rest.found;
            returns = go_on ∙ rest.returns;
            total = omega (arith, rest.total, one);
            within = rest.within;
            above = omega (arith, rest.above);
            word = rest.word;
          }
    ]

abbrev pub month_length : ℕ → ℕ → ℕ
month_length year month = days_before_month year (month + 1) - days_before_month year month

-- The table from month `m` on, counted from 0, holds the lengths of the months.
abbrev pub AreLengths : ℕ → List ℕ → ℕ → Type 0
AreLengths year [] m = Unit {0}
AreLengths year (n ∷ table) m =
    (n + (if m == 1 && is_leap_year year then 1 else 0) ≡ month_length year (m + 1))
    × AreLengths year table (m + 1)

pub days_in_month-AreLengths : (year : ℕ) → AreLengths year days_in_month 0
days_in_month-AreLengths year = elim (Bool-cases (is_leap_year year)) [
  | inl leap ↦ rw leap (omega arith)
  | inr common ↦ rw common (omega arith)
]

pub days_before_month_mono :
    (year m m' : ℕ) → 1 ≤ m → m ≤ m' → days_before_month year m ≤ days_before_month year m'
days_before_month_mono year m m' lo h = ground arith

pub month_length_lem :
    (year m : ℕ)
    → 1 ≤ m
    → days_before_month year (m + 1) ≡ days_before_month year m + month_length year m
month_length_lem year m h = omega (arith, days_before_month_mono year m (m + 1) h)

pub record FindsMonth (year days month end : ℕ) (run : ℤ × ℕ) : Type 0 where
  pub left : ℕ
  pub found : ℕ
  pub returns : run ≡ (pos left, found)
  pub total : days_before_month year found + left ≡ days_before_month year month + days
  pub within : left < month_length year found
  pub above : month ≤ found
  pub below : found < end

pub split_months-FindsMonth :
    (year : ℕ) (table : List ℕ) (m days : ℕ)
    → AreLengths year table m
    → days_before_month year (m + 1) + days < days_before_month year (m + 1 + length table)
    → FindsMonth year days
        (m + 1)
        (m + 1 + length table)
        (split_months year table m (pos days) (m + 1))
unfolding split_months
split_months-FindsMonth year [] m days l h =
    absurd (omega (arith, ap (days_before_month year) none_left))
  where
    none_left : m + 1 + 0 ≡ m + 1
    none_left = omega arith
split_months-FindsMonth year (n ∷ table) m days l h =
    elim (Bool-cases (ltb days (month_length year (m + 1)))) [
      | inl stop ↦ record {
        left = days;
        found = m + 1;
        returns = rw (ltb_ℤ-pos, l.0, stop);
        total = refl;
        within = ltb→lt days (month_length year (m + 1)) stop;
        above = omega arith;
        below = omega arith;
      }
      | inr on ↦
          let more = ltb→le days (month_length year (m + 1)) on in
          let one = month_length_lem year (m + 1) (omega arith) in
          let shift : m + 1 + length (n ∷ table) ≡ m + 1 + 1 + length table = omega arith in
          let go_on : split_months year (n ∷ table) m (pos days) (m + 1)
              ≡ split_months year table (m + 1) (pos (days - month_length year (m + 1)))
                  (m + 1 + 1) =
            rw (ltb_ℤ-pos, l.0, on, -ℤ_pos days (month_length year (m + 1)) more, split_months) in
          let rest =
            split_months-FindsMonth year table (m + 1) (days - month_length year (m + 1)) l.1
              (omega (arith, one, ap (days_before_month year) shift)) in
          record {
            left = rest.left;
            found = rest.found;
            returns = go_on ∙ rest.returns;
            total = omega (arith, rest.total, one);
            within = rest.within;
            above = omega (arith, rest.above);
            below = omega (arith, rest.below);
          }
    ]
