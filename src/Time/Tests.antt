-- ===== src/Time/Tests.antt =====
-- Runs of the clock's conversions, and their theorems at concrete inputs.
use dvida_oxide.Prelude.{◌+◌, ◌-◌, ◌*◌, ◌%◌, ◌^◌, ◌≡◌, ◌<◌, refl, some, arith}
use dvida_oxide.Prelude.Int.{ℤ, pos, negsuc, ◌+ℤ◌, ◌-ℤ◌, ◌*ℤ◌, div_ℤ, mod_ℤ, as_word}
use dvida_oxide.Time.{
  RtcDateTime, datetime_to_unix_timestamp, unix_timestamp_to_datetime, calculate_weekday,
  rtc_to_posix, is_leap_year, add_years, add_months, split_years, split_months,
}
use dvida_oxide.Time.Days.{days_before_year}
use dvida_oxide.Time.RoundTrip.{
  IsDatetime, end_of_time, unix_timestamp_to_datetime-datetime_to_unix_timestamp,
  datetime_to_unix_timestamp-unix_timestamp_to_datetime,
}
use dvida_oxide.Time.Posix.{rtc_to_posix-datetime_to_unix_timestamp}

-- Thursday, 29 February 2024, 13:37:05.
abbrev leap_day : RtcDateTime
leap_day = record {
  second = 5;
  minute = 37;
  hour = 13;
  day = 29;
  month = 2;
  year = 2024;
  weekday = 4;
}

leap_day_runs : datetime_to_unix_timestamp leap_day ≡ some (pos 1709213825)
unfolding datetime_to_unix_timestamp add_years add_months is_leap_year ◌+ℤ◌ ◌-ℤ◌ ◌*ℤ◌
leap_day_runs = refl

leap_day_back : unix_timestamp_to_datetime (pos 1709213825) ≡ some leap_day
unfolding unix_timestamp_to_datetime split_years split_months calculate_weekday is_leap_year ◌+ℤ◌
    ◌-ℤ◌ ◌*ℤ◌ div_ℤ mod_ℤ as_word
leap_day_back = refl

leap_day_posix : rtc_to_posix leap_day ≡ 1709213825 - 59 * 86400
unfolding rtc_to_posix ◌+ℤ◌ ◌-ℤ◌ ◌*ℤ◌ div_ℤ as_word
leap_day_posix = refl

-- A timestamp before 1970 is no date before 1970.
before_1970 :
    unix_timestamp_to_datetime (negsuc 86400)
    ≡ some (record {
      second = 255;
      minute = 0;
      hour = 0;
      day = 0;
      month = 1;
      year = 1970;
      weekday = 3;
    })
unfolding unix_timestamp_to_datetime split_years split_months calculate_weekday is_leap_year ◌+ℤ◌
    ◌-ℤ◌ ◌*ℤ◌ div_ℤ mod_ℤ as_word
before_1970 = refl

leap_day-IsDatetime : IsDatetime leap_day
unfolding is_leap_year
leap_day-IsDatetime = omega arith

rtc_to_posix_example : (rtc_to_posix leap_day + 59 * 86400) % 2 ^ 32 ≡ 1709213825 % 2 ^ 32
rtc_to_posix_example =
    rtc_to_posix-datetime_to_unix_timestamp leap_day 1709213825 leap_day-IsDatetime.date
      leap_day_runs

early : 1709213825 < end_of_time
unfolding days_before_year
early = omega arith

from_timestamp_example :
    (dt : RtcDateTime) × (unix_timestamp_to_datetime (pos 1709213825) ≡ some dt)
    × IsDatetime dt
    × (datetime_to_unix_timestamp dt ≡ some (pos 1709213825))
from_timestamp_example = unix_timestamp_to_datetime-datetime_to_unix_timestamp 1709213825 early

leap_day_weekday : leap_day.weekday ≡ calculate_weekday 2024 2 29
unfolding calculate_weekday ◌+ℤ◌ ◌-ℤ◌ ◌*ℤ◌ div_ℤ mod_ℤ as_word
leap_day_weekday = refl

from_date_example :
    (timestamp : ℤ) × (datetime_to_unix_timestamp leap_day ≡ some timestamp)
    × (unix_timestamp_to_datetime timestamp ≡ some leap_day)
from_date_example =
    datetime_to_unix_timestamp-unix_timestamp_to_datetime leap_day leap_day-IsDatetime
      leap_day_weekday
