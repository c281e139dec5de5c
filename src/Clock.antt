-- ===== src/Clock.antt =====
-- firmware/clock/clock.c: the time stamp, its synchronisation, and the calendar date of a time stamp.
-- The build options that the file tests are a record of flags. Register setup is not modelled.
pub mod Monotone
pub mod Calendar
pub mod LeapMarch
pub mod Total
mod Tests
use matemat.Base.{
  ℕ, zero, suc, ◌+◌, ◌-◌, ◌/◌, ◌%◌, Bool, true, false, not, ◌&&◌, ◌||◌, Option, none, some, List,
  [], ◌∷◌, ltb, leb, ◌==◌, if◌then◌else◌, u8, u16, u32,
}

pub record Options : Type 0 where
  pub ntp : Bool
  pub dcf77 : Bool
  pub crystal : Bool
  pub whm : Bool

-- The file's globals.
pub record Clock : Type 0 where
  pub timestamp : ℕ
  pub sync_timestamp : ℕ
  pub ntp_timer : ℕ
  pub startup_timestamp : ℕ

abbrev pub clock_reset : Clock
clock_reset = record { timestamp = 1; sync_timestamp = 0; ntp_timer = 1; startup_timestamp = 0 }

-- `timestamp++`, which waits for a sync only where there is a source of it.
count_second : Options → Clock → Clock
count_second o c =
    if not (o.ntp || o.dcf77) || leb c.sync_timestamp c.timestamp
    then record c { timestamp = u32 (c.timestamp + 1) }
    else c

-- The overflow interrupt of the crystal's timer.
unfoldable pub crystal_overflow : Options → Clock → Clock
unfolding count_second
crystal_overflow o c = if o.crystal then count_second o c else c

-- The first block of `clock_tick`: the countdown to a request.
ntp_countdown : Options → Clock → Clock × ℕ
ntp_countdown o c =
    let t = u16 (c.ntp_timer + 65535) in
    if o.ntp && not (c.ntp_timer == 0)
    then (record c { ntp_timer = t }, if t == 0 then 1 else 0)
    else (c, 0)

-- The result counts the calls of `ntp_send_packet`.
unfoldable pub clock_tick : Options → Clock → Clock × ℕ
unfolding count_second ntp_countdown
clock_tick o c =
    let (c', sent) = ntp_countdown o c in
    let early = if o.ntp && (leb c'.timestamp 50 && c'.timestamp % 5 == 0) then 1 else 0 in
    (if o.crystal then c' else count_second o c', sent + early)

unfoldable pub clock_set_time : Options → ℕ → Clock → Clock
clock_set_time o t c = record c {
  sync_timestamp = t;
  timestamp = if ltb c.timestamp t then t else c.timestamp;
  startup_timestamp = if o.whm && c.startup_timestamp == 0 then t else c.startup_timestamp;
  ntp_timer = if o.ntp then 4096 else c.ntp_timer;
}

unfoldable pub clock_get_time : Clock → ℕ
clock_get_time c = c.timestamp

unfoldable pub clock_last_sync : Clock → ℕ
clock_last_sync c = c.sync_timestamp

-- `struct clock_datetime_t`; `month` and `day` count from 1.
pub record Datetime : Type 0 where
  pub sec : ℕ
  pub min : ℕ
  pub hour : ℕ
  pub day : ℕ
  pub month : ℕ
  pub dow : ℕ
  pub year : ℕ

abbrev pub epoch_year : ℕ
epoch_year = 1970

abbrev pub epoch_dow : ℕ
epoch_dow = 4

unfoldable pub is_leap_year : ℕ → Bool
is_leap_year y = y % 4 == 0 && (not (y % 100 == 0) || y % 400 == 0)

abbrev pub months : List ℕ
months = 31 ∷ 28 ∷ 31 ∷ 30 ∷ 31 ∷ 30 ∷ 31 ∷ 31 ∷ 30 ∷ 31 ∷ 30 ∷ 31 ∷ []

-- The loop over the years, with the days left and the year; every round takes 365 days or more,
-- so the number of days is fuel enough.
unfoldable pub year_loop : ℕ → ℕ → ℕ → ℕ × ℕ
year_loop zero days year = (days, year)
year_loop (suc fuel) days year =
    let after_leap = year_loop fuel (days - 1 - 365) (year + 1) in
    let after_common = year_loop fuel (days - 365) (year + 1) in
    if leb 365 days
    then if is_leap_year year
      then if days == 365 then (days, year) else after_leap
      else after_common
    else (days, year)

-- The loop over the months at index `m` of the table, of which `ms` is left; `none` is a read
-- behind the table's end. `leap` is `is_leap_year(year)`.
unfoldable pub month_loop : Bool → List ℕ → ℕ → ℕ → Option (ℕ × ℕ)
month_loop leap [] m days = none
month_loop leap (n ∷ ms) m days =
    let monthdays = if m == 2 && leap then n + 1 else n in
    let rest = month_loop leap ms (m + 1) (days - monthdays) in
    if ltb days monthdays then some (m, days) else rest

unfoldable pub clock_datetime : ℕ → Option Datetime
clock_datetime timestamp =
    let days = u16 (timestamp / 60 / 60 / 24) in
    let (left, year) = year_loop days days epoch_year in
    elim (month_loop (is_leap_year year) months 0 left) [
      | none ↦ none
      | some (m, d) ↦ some (record {
        sec = timestamp % 60;
        min = timestamp / 60 % 60;
        hour = timestamp / 60 / 60 % 24;
        day = u8 (d + 1);
        month = m + 1;
        dow = (days + epoch_dow) % 7;
        year = year % 100;
      })
    ]
