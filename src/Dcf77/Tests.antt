-- ===== src/Dcf77/Tests.antt =====
-- Concrete dates of the DCF77 receiver.
use matemat.Base.{◌+◌, ◌*◌, ◌≡◌, refl, take, arith, ◌∷◌, []}
use matemat.Clock.{is_leap_year}
use matemat.Clock.Calendar.{elapsed, calendar, sum}
use matemat.Dcf77.{utc_to_unix_time, days_since, year_days, bcd2bin}
use matemat.Dcf77.Receiver.{Dcf}
use matemat.Dcf77.Error.{utc_to_unix_time_error}

-- 2009-07-14 09:20:05, and an hour later, 65536 seconds too early.
morning : utc_to_unix_time 2009 7 14 9 20 5 ≡ 1247563205
unfolding utc_to_unix_time days_since year_days
morning = refl

ten_o_clock : utc_to_unix_time 2009 7 14 10 20 5 + 65536 ≡ 1247566805
unfolding utc_to_unix_time days_since year_days
ten_o_clock = refl

bcd_year : bcd2bin 0x59 ≡ 59
unfolding bcd2bin
bcd_year = refl

-- 2008-10-14 16:20:05.
utc_to_unix_time_error_example :
    utc_to_unix_time 2008 10 14 16 20 5 + 0 + 65536
    ≡ (elapsed 38 1970 + sum (take 9 (calendar (is_leap_year 2008))) + 13) * 86400
      + 16 * 3600
      + 20 * 60
      + 5
      + 86400
      + 86400
unfolding is_leap_year
utc_to_unix_time_error_example =
    utc_to_unix_time_error 38 9 13 16 20 5 (omega arith) (omega arith) (omega arith) (omega arith)
      (omega arith) (omega arith) (omega arith)

-- In second 29, with an even number of ones before.
abbrev listening : Dcf
listening = record {
  time = 0 ∷ 0 ∷ 128 ∷ 0 ∷ 0 ∷ 0 ∷ 0 ∷ 0 ∷ [];
  timerover = 1000;
  tcnt2last = 10;
  timebyte = 2;
  timeparity = 0;
  sync = 29;
  valid = 0;
}
