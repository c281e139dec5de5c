-- ===== src/Dcf77.antt =====
-- firmware/dcf77/dcf77.c: the time stamp of a received date, `utc_to_unix_time`; Receiver
-- models the interrupt that decodes the pulses.
pub mod Error
pub mod Receiver
mod Tests
use matemat.Base.{ℕ, ◌+◌, ◌-◌, ◌*◌, ◌/◌, ◌%◌, Bool, ◌||◌, ltb, ◌==◌, if◌then◌else◌, u8, u16, u32}

-- The macro, of a byte; its value is an `int`.
unfoldable pub bcd2bin : ℕ → ℕ
bcd2bin byte = byte - byte / 16 * 6

-- A 16-bit `int`, given modulo 2^16, as a `long` modulo 2^32.
abbrev pub extend : ℕ → ℕ
extend n = if ltb n 32768 then n else n + 4294901760

-- `year_days`.
unfoldable pub year_days : ℕ → ℕ
year_days month = if month == 8 || month == 10 then month / 2 + 1 else month / 2

-- `days`; the year is a `uint16_t`, and so are its differences.
unfoldable pub days_since : ℕ → ℕ → ℕ → ℕ
days_since year month day =
    let years = u16 (u16 (year + 65536 - 1972) / 4 + 1 + u16 (year + 65536 - 1970) * 365) in
    let start = u16 (years + 30 * (month + 65535) + year_days month + day + 65535) in
    let shorter = u16 (start + 65534) in
    if ltb 2 month then if year % 4 == 0 then u16 (shorter + 1) else shorter else start

-- `hour * 3600` and `minute * 60` are products of type `int`, which wrap.
unfoldable pub utc_to_unix_time : ℕ → ℕ → ℕ → ℕ → ℕ → ℕ → ℕ
utc_to_unix_time year month day hour minute second = u32 (
    days_since year month day * 86400
    + extend (u16 (hour * 3600))
    + extend (u16 (minute * 60))
    + second)
