-- ===== src/Clock/Calendar.antt =====
-- The dates of firmware/clock/clock.c against the Gregorian calendar.
use matemat.Base.{
  ℕ, zero, suc, ◌+◌, ◌-◌, ◌*◌, ◌/◌, ◌%◌, ◌≤◌, ◌<◌, ◌≡◌, ◌⊎◌, refl, ◌∙◌, inl, inr, Bool, true, false,
  ◌&&◌, ◌||◌, Option, none, some, List, [], ◌∷◌, arith, leb, ltb, ◌==◌, if◌then◌else◌, u8, u16,
  get_or, take, Bool-cases,
}
use matemat.Clock.{
  Datetime, epoch_year, is_leap_year, months, year_loop, month_loop, clock_datetime,
}

abbrev pub days_in : ℕ → ℕ
days_in y = if is_leap_year y then 366 else 365

-- The days of the `n` years from `y` on.
abbrev pub elapsed : ℕ → ℕ → ℕ
elapsed zero y = 0
elapsed (suc n) y = days_in y + elapsed n (y + 1)

-- The lengths of the months.
abbrev pub calendar : Bool → List ℕ
calendar leap =
    31 ∷ (if leap then 29 else 28) ∷ 31 ∷ 30 ∷ 31 ∷ 30 ∷ 31 ∷ 31 ∷ 30 ∷ 31 ∷ 30 ∷ 31 ∷ []

abbrev pub sum : List ℕ → ℕ
sum [] = 0
sum (n ∷ ns) = n + sum ns

-- What the loop over the years finds.
pub record InYear (fuel days y : ℕ) : Type 0 where
  pub years : ℕ
  pub year_eq : (year_loop fuel days y).1 ≡ y + years
  pub days_eq : days ≡ elapsed years y + (year_loop fuel days y).0
  pub inside : (year_loop fuel days y).0 < days_in (year_loop fuel days y).1

year_loop_done :
    (fuel days y : ℕ) → year_loop fuel days y ≡ (days, y) → days < days_in y → InYear fuel days y
year_loop_done fuel days y e h = record {
  years = 0;
  year_eq = rw e (omega arith);
  days_eq = rw e (omega arith);
  inside = rw e h;
}

year_loop_round :
    (fuel days days' y : ℕ)
    → year_loop (suc fuel) days y ≡ year_loop fuel days' (y + 1)
    → days ≡ days_in y + days'
    → InYear fuel days' (y + 1)
    → InYear (suc fuel) days y
year_loop_round fuel days days' y e d h = record {
  years = suc h.years;
  year_eq = rw e (h.year_eq ∙ omega arith);
  days_eq = rw e (omega (arith, d, h.days_eq));
  inside = rw e h.inside;
}

pub year_loop-InYear : (fuel days y : ℕ) → days ≤ fuel → InYear fuel days y
unfolding year_loop
year_loop-InYear zero days y h = year_loop_done zero days y refl (ground arith)
year_loop-InYear (suc fuel) days y h = elim (Bool-cases (leb 365 days)) [
  | inr few ↦ year_loop_done (suc fuel) days y (rw few) (ground arith)
  | inl many ↦ elim (Bool-cases (is_leap_year y)) [
    | inr common ↦
        year_loop_round fuel days (days - 365) y (rw (many, common)) (ground arith)
          (year_loop-InYear fuel (days - 365) (y + 1) (ground arith))
    | inl leap ↦ elim (Bool-cases (days == 365)) [
      | inl last ↦ year_loop_done (suc fuel) days y (rw (many, leap, last)) (ground arith)
      | inr more ↦
          year_loop_round fuel days (days - 1 - 365) y (rw (many, leap, more)) (ground arith)
            (year_loop-InYear fuel (days - 1 - 365) (y + 1) (ground arith))
    ]
  ]
]

-- A month and day, both counted from 0, that fall on day `doy` of a year.
abbrev on_day : Bool → ℕ → Option (ℕ × ℕ) → Bool
on_day leap doy none = false
on_day leap doy (some (m, d)) =
    ltb m 12
    && (sum (take m (calendar leap)) + d == doy && (ltb d (get_or (calendar leap) m 0) && ltb d 31))

-- The test passes on each of the first `days` days.
unfoldable pub each_day : (ℕ → Bool) → ℕ → Bool
each_day test zero = true
each_day test (suc days) = if test days then each_day test days else false

pub each_day-elem :
    (test : ℕ → Bool) (days doy : ℕ) → doy < days → each_day test days ≡ true → test doy ≡ true
unfolding each_day
each_day-elem test zero doy inside passed = absurd (omega arith)
each_day-elem test (suc days) doy inside passed = ground (arith, each_day-elem test days doy)

common_table : each_day (λ doy. on_day false doy (month_loop false months 0 doy)) 365 ≡ true
unfolding each_day month_loop
common_table = refl

-- In a leap year the days from 59 to 90 are left out.
leap_table :
    each_day
      (λ doy. (leb 59 doy && ltb doy 91) || on_day true doy (month_loop true months 0 doy))
      366
    ≡ true
unfolding each_day month_loop
leap_table = refl

month_loop-on_day :
    (leap : Bool) (doy : ℕ)
    → doy < (if leap then 366 else 365)
    → (leap ≡ false) ⊎ ((doy < 59) ⊎ (91 ≤ doy))
    → on_day leap doy (month_loop leap months 0 doy) ≡ true
month_loop-on_day false doy h k = each_day-elem _ 365 doy h common_table
month_loop-on_day true doy h k = ground (arith, each_day-elem _ 366 doy h leap_table)

on_day-parts :
    (leap : Bool) (doy : ℕ) (o : Option (ℕ × ℕ))
    → on_day leap doy o ≡ true
    → (m : ℕ) × (d : ℕ) × (o ≡ some (m, d))
      × (m < 12)
      × (sum (take m (calendar leap)) + d ≡ doy)
      × (d < get_or (calendar leap) m 0)
      × (d < 31)
on_day-parts leap doy none h = cc
on_day-parts leap doy (some (m, d)) h =
    (m, d, refl, ground arith, ground arith, ground arith, ground arith)

-- The year and the day of the year, counted from 0, that the first loop finds.
abbrev pub year_and_day : ℕ → ℕ × ℕ
year_and_day timestamp =
    let (left, year) = year_loop (timestamp / 86400) (timestamp / 86400) epoch_year in (year, left)

-- `d` is the date and time of day of a time stamp: some year `full_year`, shown modulo 100, whose
-- month and day exist in it, is as many days, hours, minutes and seconds after 1970 as the
-- stamp says, and the day of the week is as many days after a Thursday.
pub record IsDateOf (timestamp : ℕ) (d : Datetime) : Type 0 where
  pub full_year : ℕ
  pub year_short : d.year ≡ full_year % 100
  pub since_epoch : epoch_year ≤ full_year
  pub month_low : 1 ≤ d.month
  pub month_high : d.month ≤ 12
  pub day_low : 1 ≤ d.day
  pub day_high : d.day ≤ get_or (calendar (is_leap_year full_year)) (d.month - 1) 0
  pub date_exact :
      timestamp / 86400
      ≡ elapsed (full_year - epoch_year) epoch_year
        + (sum (take (d.month - 1) (calendar (is_leap_year full_year))) + (d.day - 1))
  pub time_exact : timestamp % 86400 ≡ (d.hour * 60 + d.min) * 60 + d.sec
  pub min_sec : (d.min < 60) × (d.sec < 60)
  pub weekday : d.dow ≡ (timestamp / 86400 + 4) % 7

pub clock_datetime-eq :
    (timestamp m d : ℕ)
    → timestamp < 4294967296
    → let (y, left) = year_and_day timestamp in
      month_loop (is_leap_year y) months 0 left ≡ some (m, d)
      → d < 255
      → clock_datetime timestamp
        ≡ some (record {
          sec = timestamp % 60;
          min = timestamp / 60 % 60;
          hour = timestamp / 60 / 60 % 24;
          day = d + 1;
          month = m + 1;
          dow = (timestamp / 86400 + 4) % 7;
          year = y % 100;
        })
unfolding clock_datetime
clock_datetime-eq timestamp m d h e s =
    let days : u16 (timestamp / 60 / 60 / 24) ≡ timestamp / 86400 = omega arith in
    let day : u8 (d + 1) ≡ d + 1 = omega arith in ground arith

-- Every 32-bit time stamp outside leap years, and in them outside the days from 29 February to
-- 31 March, is turned into its calendar date and time of day, and no read leaves the table of the
-- months.
pub clock_datetime-IsDateOf :
    (timestamp : ℕ)
    → timestamp < 4294967296
    → let (y, left) = year_and_day timestamp in
      (is_leap_year y ≡ false) ⊎ ((left < 59) ⊎ (91 ≤ left))
      → (d : Datetime) × (clock_datetime timestamp ≡ some d) × IsDateOf timestamp d
clock_datetime-IsDateOf timestamp h k =
    let days = timestamp / 86400 in
    let (y, left) = year_and_day timestamp in
    let v = year_loop-InYear days days epoch_year (omega arith) in
    let (m, d, e, month, exact, inside, small) =
      on_day-parts (is_leap_year y) left (month_loop (is_leap_year y) months 0 left)
        (month_loop-on_day (is_leap_year y) left v.inside k) in
    let m1 : m + 1 - 1 ≡ m = omega arith in
    let n1 : y - epoch_year ≡ v.years = omega (arith, v.year_eq) in
    (
      _,
      clock_datetime-eq timestamp m d h e (omega arith),
      record {
        full_year = y;
        year_short = refl;
        since_epoch = omega (arith, v.year_eq);
        month_low = omega arith;
        month_high = omega arith;
        day_low = omega arith;
        day_high = rw m1 (omega arith);
        date_exact = rw (m1, n1) (omega (arith, v.days_eq, exact));
        time_exact = omega arith;
        min_sec = (omega arith, omega arith);
        weekday = refl;
      },
    )
