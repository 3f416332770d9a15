-- ===== src/Time/Rtc/Tests.antt =====
-- Reads of a clock, and the theorems about them at concrete inputs.
use dvida_oxide.Prelude.{◌≡◌, refl, true, arith}
use dvida_oxide.Time.Rtc.{Registers, decode, bcd_to_binary, decode_12_hour}

-- 11 p.m. on a BCD clock of 12 hours.
abbrev late_evening : Registers
late_evening = record {
  seconds = 0x59;
  minutes = 0x30;
  hours = 0x91;
  weekday = 6;
  day = 0x31;
  month = 0x12;
  year = 0x25;
  century = 0x20;
  status_b = 0;
}

late_evening_runs :
    decode late_evening
    ≡ record { second = 59; minute = 30; hour = 11; day = 31; month = 12; year = 2025; weekday = 6 }
unfolding decode
late_evening_runs = refl

decode_12_hour_example : (decode late_evening).hour ≡ 11
decode_12_hour_example = decode_12_hour late_evening true 11 refl (omega arith) (omega arith) refl

bcd_runs : bcd_to_binary 0x42 ≡ 42
unfolding bcd_to_binary
bcd_runs = refl
