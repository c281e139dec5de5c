-- ===== src/Clock/Tests.antt =====
-- Concrete dates and synchronisations.
use matemat.Base.{
  ◌+◌, ◌≤◌, ◌≡◌, refl, true, false, inl, List, [], ◌∷◌, some, arith, take, ◌-◌, ◌%◌, ◌*◌, ◌/◌,
}
use matemat.Clock.{
  Options, Datetime, clock_reset, clock_datetime, is_leap_year, year_loop, month_loop,
}
use matemat.Clock.Calendar.{IsDateOf, clock_datetime-IsDateOf, calendar, sum, year_and_day}
use matemat.Clock.LeapMarch.{clock_datetime_late}
use matemat.Clock.Total.{clock_datetime-total}
use matemat.Clock.Monotone.{Event, tick, sync, run, seconds, run-monotone}

-- 2009-07-14 16:20:05, a Tuesday.
july :
    clock_datetime 1247588405
    ≡ some (record { sec = 5; min = 20; hour = 16; day = 14; month = 7; dow = 2; year = 9 })
unfolding clock_datetime year_loop month_loop is_leap_year
july = refl

-- 2012-03-31 is shown as 32 March.
march_32 :
    clock_datetime 1333152000
    ≡ some (record { sec = 0; min = 0; hour = 0; day = 32; month = 3; dow = 6; year = 12 })
unfolding clock_datetime year_loop month_loop is_leap_year
march_32 = refl

clock_datetime-IsDateOf_example :
    (d : Datetime) × (clock_datetime 1247588405 ≡ some d) × IsDateOf 1247588405 d
unfolding year_loop is_leap_year
clock_datetime-IsDateOf_example = clock_datetime-IsDateOf 1247588405 (omega arith) (inl refl)

clock_datetime_late_example :
    (d : Datetime) × (clock_datetime 1333152000 ≡ some d)
    × (d.month ≡ 3)
    × (sum (take (d.month - 1) (calendar true)) + (d.day - 1) ≡ (year_and_day 1333152000).1 + 1)
unfolding year_loop is_leap_year
clock_datetime_late_example =
    clock_datetime_late 1333152000 (omega arith) refl (omega arith) (omega arith)

abbrev with_ntp : Options
with_ntp = record { ntp = true; dcf77 = false; crystal = false; whm = false }

abbrev two_syncs : List Event
two_syncs = tick ∷ sync 1247588405 ∷ tick ∷ sync 1247588400 ∷ tick ∷ []

run-monotone_example :
    (1 + seconds with_ntp two_syncs ≤ (run with_ntp two_syncs clock_reset).timestamp)
    × ((run with_ntp two_syncs clock_reset).timestamp ≤ 1247588405 + seconds with_ntp two_syncs)
    × ((run with_ntp two_syncs clock_reset).sync_timestamp
        ≤ (run with_ntp two_syncs clock_reset).timestamp)
run-monotone_example =
    run-monotone with_ntp two_syncs clock_reset 1247588405 (omega arith) (omega arith) (omega arith)
      (omega arith)

clock_datetime-total_example :
    (d : Datetime) × (clock_datetime 1333152000 ≡ some d)
    × (1333152000 % 86400 ≡ (d.hour * 60 + d.min) * 60 + d.sec)
    × (d.sec ≡ 1333152000 % 60)
    × (d.dow ≡ (1333152000 / 86400 + 4) % 7)
clock_datetime-total_example = clock_datetime-total 1333152000 (omega arith)
