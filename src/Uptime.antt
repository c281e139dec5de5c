-- ===== src/Uptime.antt =====
-- firmware2/uptime.c: the seconds since start-up.
use matemat.Base.{
  ℕ, zero, suc, ◌+◌, ◌-◌, ◌/◌, ◌≤◌, ◌<◌, ◌≡◌, Bool, true, false, arith, ◌==◌, if◌then◌else◌, u16,
  u32,
}

-- `struct uptimedata` and the static `count`.
pub record Uptime : Type 0 where
  pub uptime : ℕ
  pub updated : Bool
  pub count : ℕ

-- `uptime_init`, with the initial value of the static.
unfoldable pub uptime_init : Uptime
uptime_init = record { uptime = 0; updated = true; count = 100 }

-- `--count == 0` compares after the subtraction.
unfoldable pub uptime_tick : Uptime → Uptime
uptime_tick s =
    let c = u16 (s.count + 65535) in
    if c == 0
    then record { uptime = u32 (s.uptime + 1); updated = true; count = 100 }
    else record s { updated = false; count = c }

unfoldable pub uptime_run : ℕ → Uptime → Uptime
uptime_run zero s = s
uptime_run (suc n) s = uptime_run n (uptime_tick s)

uptime_tick_parts :
    (s : Uptime)
    → 0 < s.count
    → s.count ≤ 100
    → (0 < (uptime_tick s).count)
      × ((uptime_tick s).count ≤ 100)
      × ((uptime_tick s).uptime ≡ (if s.count == 1 then u32 (s.uptime + 1) else s.uptime))
      × ((uptime_tick s).count ≡ (if s.count == 1 then 100 else s.count - 1))
unfolding uptime_tick
uptime_tick_parts s p q = ground arith

uptime_run_from :
    (n : ℕ) (s : Uptime)
    → 0 < s.count
    → s.count ≤ 100
    → s.uptime < 4294967296
    → (uptime_run n s).uptime ≡ u32 (s.uptime + (100 - s.count + n) / 100)
unfolding uptime_run
uptime_run_from zero s p q r = ground arith
uptime_run_from (suc n) s p q r =
    ground (arith, uptime_tick_parts s p q, uptime_run_from n (uptime_tick s))

-- After n ticks of 10 ms the uptime is the number of whole hundreds in n, modulo 2 ^ 32.
uptime_run-seconds : (n : ℕ) → (uptime_run n uptime_init).uptime ≡ u32 (n / 100)
unfolding uptime_init
uptime_run-seconds n =
    ground (arith, uptime_run_from n (record { uptime = 0; updated = true; count = 100 }))
