-- ===== src/Clock/Total.antt =====
-- That `clock_datetime` of firmware/clock/clock.c always gives a date, and the right time of day.
use matemat.Base.{
  ℕ, ◌+◌, ◌/◌, ◌%◌, ◌<◌, ◌≡◌, refl, Bool, true, false, Option, none, some, arith, if◌then◌else◌,
  ◌*◌, ltb,
}
use matemat.Clock.{Datetime, clock_datetime, month_loop, months, is_leap_year, epoch_year}
use matemat.Clock.Calendar.{
  each_day, each_day-elem, year_loop-InYear, year_and_day, clock_datetime-eq,
}

is_found : Option (ℕ × ℕ) → Bool
is_found none = false
is_found (some (m, d)) = ltb d 32

common_found : each_day (λ doy. is_found (month_loop false months 0 doy)) 365 ≡ true
unfolding each_day month_loop is_found
common_found = refl

leap_found : each_day (λ doy. is_found (month_loop true months 0 doy)) 366 ≡ true
unfolding each_day month_loop is_found
leap_found = refl

month_loop_found :
    (leap : Bool) (doy : ℕ)
    → doy < (if leap then 366 else 365)
    → is_found (month_loop leap months 0 doy) ≡ true
month_loop_found false doy h = each_day-elem _ 365 doy h common_found
month_loop_found true doy h = each_day-elem _ 366 doy h leap_found

is_found-some :
    (o : Option (ℕ × ℕ)) → is_found o ≡ true → (m : ℕ) × (d : ℕ) × (o ≡ some (m, d)) × (d < 32)
unfolding is_found
is_found-some none h = cc
is_found-some (some (m, d)) h = (m, d, refl, ground arith)

-- Every 32-bit time stamp has a date, in leap years too: no read leaves the table of the months,
-- and the seconds, minutes, hours and the day of the week are those of the stamp.
pub clock_datetime-total :
    (timestamp : ℕ)
    → timestamp < 4294967296
    → (d : Datetime) × (clock_datetime timestamp ≡ some d)
      × (timestamp % 86400 ≡ (d.hour * 60 + d.min) * 60 + d.sec)
      × (d.sec ≡ timestamp % 60)
      × (d.dow ≡ (timestamp / 86400 + 4) % 7)
clock_datetime-total timestamp h =
    let (y, left) = year_and_day timestamp in
    let v = year_loop-InYear (timestamp / 86400) (timestamp / 86400) epoch_year (omega arith) in
    let found = month_loop_found (is_leap_year y) left v.inside in
    let (m, d, e, small) = is_found-some (month_loop (is_leap_year y) months 0 left) found in
    (_, clock_datetime-eq timestamp m d h e (omega arith), omega arith, refl, refl)
