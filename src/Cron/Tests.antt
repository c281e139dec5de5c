-- ===== src/Cron/Tests.antt =====
-- Concrete events and calls of the cron table.
use matemat.Base.{◌/◌, ◌≡◌, ◌↔◌, refl, true, some, [], ◌∷◌, arith}
use matemat.Base.Int.{pos, negsuc}
use matemat.Clock.{Datetime, clock_datetime, year_loop, month_loop, is_leap_year}
use matemat.Cron.{CronEvent, events, cron_check_event, cron_periodic, check_events}
use matemat.Cron.Matching.{Matches, cron_check_event-Matches}
use matemat.Cron.Once.{cron_run, due, cron_run-due}

-- 2009-07-14 16:20:05: the hour and the minute are even.
evening : cron_periodic events 1247588405 0 ≡ some (1247588400, 0 ∷ 0 ∷ [])
unfolding cron_periodic check_events cron_check_event clock_datetime year_loop month_loop
    is_leap_year
evening = refl

abbrev at_51 : CronEvent
at_51 = record {
  minute = pos 51;
  hour = negsuc 1;
  day = negsuc 0;
  month = negsuc 0;
  dow = negsuc 0;
  handler = some 3;
}

abbrev some_date : Datetime
some_date = record { sec = 5; min = 51; hour = 16; day = 14; month = 7; dow = 2; year = 9 }

cron_check_event-Matches_example : (cron_check_event at_51 some_date ≡ true) ↔ (
    Matches (pos 51) 51
    × Matches (negsuc 1) 16
    × Matches (negsuc 0) 14
    × Matches (negsuc 0) 7
    × Matches (negsuc 0) 2)
cron_check_event-Matches_example =
    cron_check_event-Matches at_51 some_date (omega arith) (omega arith) (omega arith) (omega arith)
      (omega arith)

cron_run-due_example :
    cron_run events (1247588405 ∷ 1247588406 ∷ 1247588461 ∷ []) 0
    ≡ some (due events (0 / 60) (1247588405 ∷ 1247588406 ∷ 1247588461 ∷ []))
cron_run-due_example =
    cron_run-due events (1247588405 ∷ 1247588406 ∷ 1247588461 ∷ []) 0 refl (ground arith)
