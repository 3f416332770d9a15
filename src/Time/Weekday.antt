-- ===== src/Time/Weekday.antt =====
-- `calculate_weekday`: Zeller's congruence against the number of the day.
use dvida_oxide.Prelude.{
  ℕ, ◌+◌, ◌-◌, ◌*◌, ◌/◌, ◌%◌, ◌≤◌, ◌≡◌, inl, inr, true, false, ltb, leb, Bool-cases, arith,
}
use dvida_oxide.Prelude.Int.{
  pos, ◌+ℤ◌, ◌-ℤ◌, ◌*ℤ◌, div_ℤ, mod_ℤ, as_word, +ℤ_pos, -ℤ_pos, *ℤ_pos, div_ℤ-pos, mod_ℤ-pos,
}
use dvida_oxide.Time.{RtcDateTime, calculate_weekday}
use dvida_oxide.Time.Days.{IsDate, unix_days}
use dvida_oxide.Time.Posix.{march_days, march_year, march_month, march_days-eq-unix_days}

-- The sum of the congruence, without the last term.
abbrev zeller : ℕ → ℕ → ℕ → ℕ
zeller year month day = day + 13 * (month + 1) / 5 + year % 100 + year % 100 / 4 + year / 100 / 4

last_digit :
    (a b : ℕ) → as_word 256 (mod_ℤ (mod_ℤ (pos a -ℤ pos b) 7 +ℤ pos 6) 7) ≡ (a + 6 + 6 * b) % 7
unfolding as_word mod_ℤ ◌-ℤ◌ ◌+ℤ◌
last_digit a b = ground arith

zeller_lem :
    (year month day : ℕ)
    → pos day
        +ℤ pos (13 * (month + 1) / 5)
        +ℤ mod_ℤ (pos year) 100
        +ℤ div_ℤ (mod_ℤ (pos year) 100) 4
        +ℤ div_ℤ (div_ℤ (pos year) 100) 4
        -ℤ pos 2 *ℤ div_ℤ (pos year) 100
      ≡ pos (zeller year month day) -ℤ pos (2 * (year / 100))
zeller_lem year month day = simp (mod_ℤ-pos, div_ℤ-pos, +ℤ_pos, *ℤ_pos)

calculate_weekday_march :
    (dt : RtcDateTime)
    → 1 ≤ dt.year
    → calculate_weekday dt.year dt.month dt.day
      ≡ (zeller (march_year dt) (march_month dt) dt.day + 6 + 6 * (2 * (march_year dt / 100))) % 7
unfolding calculate_weekday
calculate_weekday_march dt h = elim (Bool-cases (leb dt.month 2)) [
  | inl early ↦
      let test : ltb dt.month 3 ≡ true = ground arith in
      rw (test, early, -ℤ_pos dt.year 1 h, zeller_lem, last_digit)
  | inr late ↦
      let test : ltb dt.month 3 ≡ false = ground arith in rw (test, late, zeller_lem, last_digit)
]

zeller-march_days :
    (year month day : ℕ)
    → 3 ≤ month
    → (zeller year month day + 6 + 6 * (2 * (year / 100)) + 719469) % 7
      ≡ (march_days year month day + 4) % 7
zeller-march_days year month day h =
    let months : (153 * month - 457) / 5 + 94 ≡ 28 * month + 13 * (month + 1) / 5 = omega arith in
    let quarters : year / 4 ≡ 25 * (year / 100) + year % 100 / 4 = omega arith in
    let eras : year / 400 ≡ year / 100 / 4 = omega arith in omega (arith, months, quarters, eras)

-- From 1970 on the weekday is that of the number of the day, counted from a Thursday.
pub calculate_weekday_lem :
    (dt : RtcDateTime)
    → IsDate dt
    → calculate_weekday dt.year dt.month dt.day ≡ (unix_days dt.year dt.month dt.day + 4) % 7
calculate_weekday_lem dt d =
    let days = march_days-eq-unix_days dt d in
    let march : 3 ≤ march_month dt = ground arith in
    rw (calculate_weekday_march dt (omega (arith, d.year_from)))
      (omega (arith, days, zeller-march_days (march_year dt) (march_month dt) dt.day march))
