-- ===== src/Clock/LeapMarch.antt =====
-- The leap day of firmware/clock/clock.c: `d->month == 2` is tested while the months are still
-- counted from 0, so the day goes to March.
use matemat.Base.{
  ℕ, ◌+◌, ◌-◌, ◌≤◌, ◌<◌, ◌≡◌, refl, ap, ◌∙◌, Bool, true, false, not, ◌&&◌, ◌||◌, Option, none, some,
  arith, leb, ltb, ◌==◌, take,
}
use matemat.Clock.{Datetime, is_leap_year, months, month_loop, clock_datetime}
use matemat.Clock.Calendar.{calendar, sum, each_day, each_day-elem, year_and_day, clock_datetime-eq}

-- Day `doy` of a leap year is taken for a day of March.
abbrev in_march : ℕ → Option (ℕ × ℕ) → Bool
in_march doy none = false
in_march doy (some (m, d)) = m == 2 && (d + 59 == doy && ltb d 32)

march_table :
    each_day
      (λ doy. not (leb 59 doy && ltb doy 91) || in_march doy (month_loop true months 0 doy))
      366
    ≡ true
unfolding each_day month_loop
march_table = refl

in_march-eq :
    (doy : ℕ) (o : Option (ℕ × ℕ))
    → in_march doy o ≡ true
    → (d : ℕ) × (o ≡ some (2, d)) × (d + 59 ≡ doy) × (d < 32)
in_march-eq doy none h = cc
in_march-eq doy (some (m, d)) h = (d, ground arith, ground arith, ground arith)

month_loop_late :
    (doy : ℕ) → 59 ≤ doy → doy < 91 → in_march doy (month_loop true months 0 doy) ≡ true
month_loop_late doy low high = ground (arith, each_day-elem _ 366 doy (omega arith) march_table)

-- In a leap year the days from 29 February (day 59, counted from 0) to 31 March (day 90) are all
-- shown as March, one day late: 29 February as 1 March, 31 March as 32 March.
pub clock_datetime_late :
    (timestamp : ℕ)
    → timestamp < 4294967296
    → let (y, left) = year_and_day timestamp in
      is_leap_year y ≡ true
      → 59 ≤ left
      → left < 91
      → (d : Datetime) × (clock_datetime timestamp ≡ some d)
        × (d.month ≡ 3)
        × (sum (take (d.month - 1) (calendar true)) + (d.day - 1) ≡ left + 1)
clock_datetime_late timestamp h leap low high =
    let (y, left) = year_and_day timestamp in
    let (d, e, day, small) =
      in_march-eq left (month_loop true months 0 left) (month_loop_late left low high) in
    let at : month_loop (is_leap_year y) months 0 left ≡ some (2, d) =
      ap (λ l. month_loop l months 0 left) leap ∙ e in
    (_, clock_datetime-eq timestamp 2 d h at (omega arith), refl, omega arith)
