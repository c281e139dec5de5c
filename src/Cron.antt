-- ===== src/Cron.antt =====
-- firmware/cron/cron.c: the event table, the test of an event against a date, and the periodic check.
-- A handler is a number that stands for its address; a call of one is an output. The clock's reading
-- is an argument of the periodic check.
pub mod Matching
pub mod Once
mod Tests
use matemat.Base.{
  ℕ, suc, ◌+◌, ◌-◌, ◌%◌, Bool, true, false, not, Option, none, some, List, [], ◌∷◌, ◌++◌, ltb, ◌==◌,
  if◌then◌else◌, u8, u32,
}
use matemat.Base.Int.{ℤ, pos, negsuc}
use matemat.Clock.{Datetime, clock_datetime}

-- The event's five fields and its handler, `none` for NULL.
pub record CronEvent : Type 0 where
  pub minute : ℤ
  pub hour : ℤ
  pub day : ℤ
  pub month : ℤ
  pub dow : ℤ
  pub handler : Option ℕ

-- `fields`, the union's other member.
abbrev pub fields : CronEvent → List ℤ
fields e = e.minute ∷ e.hour ∷ e.day ∷ e.month ∷ e.dow ∷ []

-- `cron_fields` of a date.
abbrev pub cron_fields : Datetime → List ℕ
cron_fields d = d.min ∷ d.hour ∷ d.day ∷ d.month ∷ d.dow ∷ []

-- The handler `test`, which logs a line.
abbrev pub test : ℕ
test = 0

abbrev pub events : List CronEvent
events =
    record {
      minute = negsuc 0;
      hour = negsuc 1;
      day = negsuc 0;
      month = negsuc 0;
      dow = negsuc 0;
      handler = some test;
    }
    ∷ record {
      minute = pos 51;
      hour = negsuc 0;
      day = negsuc 0;
      month = negsuc 0;
      dow = negsuc 0;
      handler = some test;
    }
    ∷ record {
      minute = negsuc 1;
      hour = negsuc 0;
      day = negsuc 0;
      month = negsuc 0;
      dow = negsuc 0;
      handler = some test;
    }
    ∷ record {
      minute = negsuc 0;
      hour = negsuc 0;
      day = negsuc 0;
      month = negsuc 0;
      dow = negsuc 0;
      handler = none;
    }
    ∷ []

-- One round of the loop over the fields: whether the field lets the event match. `step` is a byte,
-- and a negative field is not 0.
pub check_field : ℤ → ℕ → Bool
check_field (pos n) value = n == value
check_field (negsuc n) value = if n == 0 then true else value % u8 (n + 1) == 0

check_fields : List ℤ → List ℕ → Bool
check_fields (f ∷ fs) (v ∷ vs) =
    let rest = check_fields fs vs in if check_field f v then rest else false
check_fields _ _ = true

unfoldable pub cron_check_event : CronEvent → Datetime → Bool
unfolding check_fields check_field
cron_check_event event d = check_fields (fields event) (cron_fields d)

-- The loop over the table up to the NULL handler: the handlers that are called. The list's end stands
-- for a NULL handler too.
unfoldable pub check_events : List CronEvent → Datetime → List ℕ
check_events [] d = []
check_events (event ∷ es) d =
    let rest = check_events es d in
    elim event.handler [ none ↦ [] | some h ↦ if cron_check_event event d then h ∷ rest else rest ]

-- With the table, the time stamp and `last_check`: the new `last_check`, and the handlers called;
-- `none` where `clock_datetime` reads behind its table.
unfoldable pub cron_periodic : List CronEvent → ℕ → ℕ → Option (ℕ × List ℕ)
cron_periodic table timestamp last_check =
    if ltb (u32 (timestamp + 4294967296 - last_check)) 60
    then some (last_check, [])
    else elim (clock_datetime timestamp) [
      | none ↦ none
      | some d ↦ some (u32 (timestamp + 4294967296 - d.sec), check_events table d)
    ]
