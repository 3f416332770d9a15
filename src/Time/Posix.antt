-- ===== src/Time/Posix.antt =====
-- `rtc_to_posix` against the calendar and against `datetime_to_unix_timestamp`.
use dvida_oxide.Prelude.{
  ℕ, ◌+◌, ◌-◌, ◌*◌, ◌/◌, ◌%◌, ◌^◌, ◌≤◌, ◌≡◌, ◌∙◌, sym, ap, inl, inr, some, leb, if◌then◌else◌,
  Bool-cases, arith,
}
use dvida_oxide.Prelude.Int.{
  pos, ◌+ℤ◌, ◌-ℤ◌, ◌*ℤ◌, div_ℤ, as_word, +ℤ_pos, -ℤ_pos, *ℤ_pos, div_ℤ-pos,
}
use dvida_oxide.Time.{RtcDateTime, rtc_to_posix, datetime_to_unix_timestamp}
use dvida_oxide.Time.Days.{
  IsDate, days_before_year, days_before_year-suc, unix_days, unix_seconds,
  datetime_to_unix_timestamp_lem,
}

-- The sum that `rtc_to_posix` takes 719528 from, for a year and month counted from March.
abbrev pub march_days : ℕ → ℕ → ℕ → ℕ
march_days year month day =
    365 * year + year / 4 - year / 100 + year / 400 + (153 * month - 457) / 5 + day

abbrev pub march_year : RtcDateTime → ℕ
march_year dt = if leb dt.month 2 then dt.year - 1 else dt.year

abbrev pub march_month : RtcDateTime → ℕ
march_month dt = if leb dt.month 2 then dt.month + 12 else dt.month

pub march_days-eq-unix_days :
    (dt : RtcDateTime)
    → IsDate dt
    → march_days (march_year dt) (march_month dt) dt.day
      ≡ unix_days dt.year dt.month dt.day + 719469
unfolding days_before_year
march_days-eq-unix_days dt d = elim (Bool-cases (leb dt.month 2)) [
  | inl early ↦ rw early (ground arith)
  | inr late ↦ rw late (ground (arith, days_before_year-suc dt.year, d.year_from))
]

as_word-sub : (a b : ℕ) → b ≤ 2 ^ 32 → (as_word (2 ^ 32) (pos a -ℤ pos b) + b) % 2 ^ 32 ≡ a % 2 ^ 32
unfolding as_word ◌-ℤ◌
as_word-sub a b h = ground arith

march_lem :
    (year month day : ℕ)
    → pos 365 *ℤ pos year
        +ℤ div_ℤ (pos year) 4
        -ℤ div_ℤ (pos year) 100
        +ℤ div_ℤ (pos year) 400
        +ℤ pos ((153 * month - 457) / 5)
        +ℤ pos day
      ≡ pos (march_days year month day)
march_lem year month day = rw (
  div_ℤ-pos year 4,
  div_ℤ-pos year 100,
  div_ℤ-pos year 400,
  *ℤ_pos,
  +ℤ_pos,
  -ℤ_pos (365 * year + year / 4) (year / 100) (omega arith),
  +ℤ_pos,
  +ℤ_pos,
  +ℤ_pos,
)

rtc_to_posix-march :
    (dt : RtcDateTime)
    → 1 ≤ dt.year
    → rtc_to_posix dt
      ≡ (as_word (2 ^ 32) (pos (march_days (march_year dt) (march_month dt) dt.day) -ℤ pos 719528)
            * 86400
          + dt.hour * 3600
          + dt.minute * 60
          + dt.second)
        % 2 ^ 32
unfolding rtc_to_posix
rtc_to_posix-march dt h = elim (Bool-cases (leb dt.month 2)) [
  | inl early ↦ rw (early, rtc_to_posix, -ℤ_pos dt.year 1 h, march_lem)
  | inr late ↦ rw (late, rtc_to_posix, march_lem)
]

-- For every date from 1970 on, `rtc_to_posix` is 59 days behind `unix_seconds`, in 32-bit
-- arithmetic.
pub rtc_to_posix_behind :
    (dt : RtcDateTime)
    → IsDate dt
    → (rtc_to_posix dt + 59 * 86400) % 2 ^ 32 ≡ unix_seconds dt % 2 ^ 32
rtc_to_posix_behind dt d =
    let days = march_days-eq-unix_days dt d in
    let w = as_word-sub (march_days (march_year dt) (march_month dt) dt.day) 719528 (omega arith) in
    rw (rtc_to_posix-march dt (omega (arith, d.year_from))) (omega (arith, days, w))

-- The two conversions of a date to seconds disagree by 59 days, in 32-bit arithmetic.
pub rtc_to_posix-datetime_to_unix_timestamp :
    (dt : RtcDateTime) (n : ℕ)
    → IsDate dt
    → datetime_to_unix_timestamp dt ≡ some (pos n)
    → (rtc_to_posix dt + 59 * 86400) % 2 ^ 32 ≡ n % 2 ^ 32
rtc_to_posix-datetime_to_unix_timestamp dt n d e =
    rtc_to_posix_behind dt d
    ∙ ap (λ k. k % 2 ^ 32) (cc (sym (datetime_to_unix_timestamp_lem dt d) ∙ e))
