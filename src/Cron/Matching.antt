-- ===== src/Cron/Matching.antt =====
-- When an event of firmware/cron/cron.c matches a date.
use matemat.Base.{ℕ, zero, suc, u8, ◌+◌, ◌%◌, ◌≤◌, ◌≡◌, ◌↔◌, true, arith}
use matemat.Base.Int.{ℤ, pos, negsuc, neg_part}
use matemat.Clock.{Datetime}
use matemat.Cron.{CronEvent, cron_check_event, check_field}

-- What cron.h says of a field: a value from 0 on is that value, -1 is any value, and a value -n
-- below it is any multiple of n.
pub Matches : ℤ → ℕ → Type 0
Matches (pos n) value = n ≡ value
Matches (negsuc zero) value = Unit
Matches (negsuc (suc n)) value = value % (n + 2) ≡ 0

check_field-Matches :
    (f : ℤ) (value : ℕ) → neg_part f ≤ 128 → (check_field f value ≡ true) ↔ Matches f value
unfolding check_field Matches
check_field-Matches (pos n) value h = ground arith
check_field-Matches (negsuc zero) value h = ground arith
check_field-Matches (negsuc (suc n)) value h =
    let e : u8 (suc n + 1) ≡ n + 2 = omega (arith, h) in ground arith

-- An event matches a date exactly if each of its five fields matches, for fields of type `int8_t`.
pub cron_check_event-Matches :
    (e : CronEvent) (d : Datetime)
    → neg_part e.minute ≤ 128
    → neg_part e.hour ≤ 128
    → neg_part e.day ≤ 128
    → neg_part e.month ≤ 128
    → neg_part e.dow ≤ 128
    → (cron_check_event e d ≡ true) ↔ (
        Matches e.minute d.min
        × Matches e.hour d.hour
        × Matches e.day d.day
        × Matches e.month d.month
        × Matches e.dow d.dow)
unfolding cron_check_event
cron_check_event-Matches e d h1 h2 h3 h4 h5 = ground (
  arith,
  check_field-Matches e.minute d.min h1,
  check_field-Matches e.hour d.hour h2,
  check_field-Matches e.day d.day h3,
  check_field-Matches e.month d.month h4,
  check_field-Matches e.dow d.dow h5,
)
