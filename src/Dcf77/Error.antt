-- ===== src/Dcf77/Error.antt =====
-- By how much `utc_to_unix_time` of firmware/dcf77/dcf77.c is wrong.
use matemat.Base.{
  ℕ, ◌+◌, ◌-◌, ◌*◌, ◌/◌, ◌%◌, ◌≤◌, ◌<◌, ◌≡◌, refl, Bool, true, false, ◌&&◌, ◌||◌, ltb, ◌==◌,
  if◌then◌else◌, u16, take, arith, leb,
}
use matemat.Clock.{is_leap_year}
use matemat.Clock.Calendar.{each_day, each_day-elem, elapsed, calendar, sum}
use matemat.Dcf77.{days_since, year_days, utc_to_unix_time}

year_table :
    each_day
      (λ n.
        elapsed n 1970 == 365 * n + (n + 1) / 4
        && (if is_leap_year (n + 1970) then n % 4 == 2 else (if n % 4 == 2 then false else true)))
      68
    ≡ true
unfolding each_day is_leap_year
year_table = refl

-- The days before the month of index `k`, as the source adds them up and as the calendar has them.
month_test : Bool → ℕ → Bool
unfolding year_days
month_test leap k =
    30 * k
      + year_days (k + 1)
      + (if ltb 2 (k + 1) then if leap then 1 else 0 else 2)
      + (if k == 8 || k == 10 then 1 else 0)
    == sum (take k (calendar leap)) + 2 + (if k == 7 || k == 9 then 1 else 0)

common_months : each_day (month_test false) 12 ≡ true
unfolding each_day month_test
common_months = refl

leap_months : each_day (month_test true) 12 ≡ true
unfolding each_day month_test
leap_months = refl

month_test-calendar :
    (leap : Bool) (k : ℕ)
    → k < 12
    → 30 * k
        + year_days (k + 1)
        + (if ltb 2 (k + 1) then if leap then 1 else 0 else 2)
        + (if k == 8 || k == 10 then 1 else 0)
      ≡ sum (take k (calendar leap)) + 2 + (if k == 7 || k == 9 then 1 else 0)
unfolding month_test
month_test-calendar false k h =
    let t = each_day-elem (month_test false) 12 k h common_months in ground (arith, t)
month_test-calendar true k h =
    let t = each_day-elem (month_test true) 12 k h leap_months in ground (arith, t)

year-calendar :
    (n : ℕ)
    → n < 68
    → (elapsed n 1970 ≡ 365 * n + (n + 1) / 4) × (is_leap_year (n + 1970) ≡ (n % 4 == 2))
year-calendar n h = let t = each_day-elem _ 68 n h year_table in ground (arith, t)

year_days-le : (k : ℕ) → k < 12 → year_days (k + 1) ≤ 7
unfolding year_days
year_days-le k h = ground arith

days_since-eq :
    (n k d : ℕ)
    → 2 ≤ n
    → n < 68
    → k < 12
    → d < 31
    → days_since (n + 1970) (k + 1) (d + 1) + 2
      ≡ (n + 2) / 4
        + n * 365
        + 30 * k
        + year_days (k + 1)
        + d
        + (if ltb 2 (k + 1) then if n % 4 == 2 then 1 else 0 else 2)
unfolding days_since
days_since-eq n k d low high month day =
    let b = year_days-le k month in
    let y1 : u16 (n + 1970 + 65536 - 1972) ≡ n - 2 = omega arith in
    let y2 : u16 (n + 1970 + 65536 - 1970) ≡ n = omega arith in
    let start : u16 (
          u16 ((n - 2) / 4 + 1 + n * 365)
          + 30 * (k + 1 + 65535)
          + year_days (k + 1)
          + (d + 1)
          + 65535)
        ≡ (n + 2) / 4 + n * 365 + 30 * k + year_days (k + 1) + d =
      omega (arith, b) in
    rw (y1, y2, start) (ground arith)

-- The days since 1970, for the years 1972 to 2037: one too many in a leap year and in August and
-- October, one too few in September and November.
days_since-calendar :
    (n k d : ℕ)
    → 2 ≤ n
    → n < 68
    → k < 12
    → d < 31
    → let leap = is_leap_year (n + 1970) in
      days_since (n + 1970) (k + 1) (d + 1) + (if k == 8 || k == 10 then 1 else 0)
      ≡ elapsed n 1970
        + sum (take k (calendar leap))
        + d
        + (if leap then 1 else 0)
        + (if k == 7 || k == 9 then 1 else 0)
days_since-calendar n k d low high month day =
    let leap = is_leap_year (n + 1970) in
    let m = month_test-calendar leap k month in
    let y = year-calendar n high in
    let b = year_days-le k month in
    let s = days_since-eq n k d low high month day in ground (arith, m, y, b, s)

days_since-le :
    (n k d : ℕ) → 2 ≤ n → n < 68 → k < 12 → d < 31 → days_since (n + 1970) (k + 1) (d + 1) ≤ 24850
days_since-le n k d low high month day =
    ground (arith, days_since-eq n k d low high month day, year_days-le k month)

utc_to_unix_time-eq :
    (n k d hour minute second : ℕ)
    → 2 ≤ n
    → n < 68
    → k < 12
    → d < 31
    → hour < 24
    → minute < 60
    → second < 60
    → utc_to_unix_time (n + 1970) (k + 1) (d + 1) hour minute second
        + (if leb 10 hour then 65536 else 0)
      ≡ days_since (n + 1970) (k + 1) (d + 1) * 86400 + hour * 3600 + minute * 60 + second
unfolding utc_to_unix_time
utc_to_unix_time-eq n k d hour minute second low high month day h m s =
    let bound = days_since-le n k d low high month day in
    let days0 : 730 ≤ days_since (n + 1970) (k + 1) (d + 1) =
      ground (arith, days_since-eq n k d low high month day) in
    ground (arith, bound, days0)

-- What `utc_to_unix_time` makes of the day `d` (from 0) of the month of index `k` (from 0) of the
-- year `1970 + n`, for the years 1972 to 2037, against the seconds since 1970 by the calendar:
-- a day too many in leap years and in August and October, a day too few in September and November,
-- and 65536 seconds too few from ten o'clock on.
pub utc_to_unix_time_error :
    (n k d hour minute second : ℕ)
    → 2 ≤ n
    → n < 68
    → k < 12
    → d < 31
    → hour < 24
    → minute < 60
    → second < 60
    → let leap = is_leap_year (n + 1970) in
      utc_to_unix_time (n + 1970) (k + 1) (d + 1) hour minute second
        + (if k == 8 || k == 10 then 86400 else 0)
        + (if leb 10 hour then 65536 else 0)
      ≡ (elapsed n 1970 + sum (take k (calendar leap)) + d) * 86400
        + hour * 3600
        + minute * 60
        + second
        + (if leap then 86400 else 0)
        + (if k == 7 || k == 9 then 86400 else 0)
utc_to_unix_time_error n k d hour minute second low high month day h m s =
    let days = days_since-calendar n k d low high month day in
    let time = utc_to_unix_time-eq n k d hour minute second low high month day h m s in
    ground (arith, days, time)
