-- ===== src/Timer/Drive.antt =====
-- The bus of firmware/zbus/zbus.c, driven by firmware/timer.c.
use matemat.Base.{
  ℕ, suc, ◌*◌, ◌<◌, ◌≡◌, refl, Bool-cases, inl, inr, false, if◌then◌else◌, List, [], ◌∷◌, ◌++◌,
  arith,
}
use matemat.Timer.{Call, Options, Timer}
use matemat.Timer.Rate.{Pass, timer_run, count, is_tick, is_zbus, timer_run-IsRate}
use matemat.Zbus.{Bus, core_periodic, sending, escape}
use matemat.Zbus.Pending.{periodic_run, periodic_run-starts}

-- What the calls do to the bus.
pub bus_run : List Call → Bus → Bus × List ℕ
bus_run [] b = (b, [])
bus_run (c ∷ cs) b =
    let (b1, out) = if is_zbus c then core_periodic b else (b, []) in
    let (b2, rest) = bus_run cs b1 in (b2, out ++ rest)

bus_run-periodic_run : (cs : List Call) (b : Bus) → bus_run cs b ≡ periodic_run (count is_zbus cs) b
unfolding bus_run periodic_run count
bus_run-periodic_run [] b = refl
bus_run-periodic_run (c ∷ cs) b = elim (Bool-cases (is_zbus c)) [
  | inl y ↦ rw (y, bus_run-periodic_run cs (core_periodic b).0) refl
  | inr n ↦ rw (n, bus_run-periodic_run cs b) refl
]

-- In a build that is not for the Teensy, with the tick counter below 500, and while the bus has no
-- receive or transmit interrupt and gets no further message: a message that waits for a bus blocked at
-- `n + 1` is started by the time that `10 (n + 1)` ticks of 20 ms have been taken, however the passes of
-- the main loop, the expiring timer and the locked buffer are arranged: the line gets the first byte of
-- the start sequence, once, and nothing before it.
pub timer_run-starts :
    (o : Options) (ps : List Pass) (t : Timer) (n : ℕ) (b : Bus)
    → o.teensy ≡ false
    → t.counter < 500
    → b.bus_blocked ≡ suc n
    → 0 < b.send_len
    → count is_tick (timer_run o ps t).1 ≡ 10 * suc n
    → let (b', out) = bus_run (timer_run o ps t).1 b in
      (out ≡ escape ∷ []) × (b'.mode ≡ sending) × (b'.send_len ≡ b.send_len)
timer_run-starts o ps t n b plain small blocked p ticks =
    let r = timer_run-IsRate o ps t plain small in
    let calls : count is_zbus (timer_run o ps t).1 ≡ suc n = omega (arith, r.buses, ticks) in
    let s = periodic_run-starts n b blocked p in
    rw (bus_run-periodic_run (timer_run o ps t).1 b, calls) (s.0, s.1, s.4)
