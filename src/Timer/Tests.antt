-- ===== src/Timer/Tests.antt =====
-- Concrete passes of the main loop.
use matemat.Base.{◌≡◌, refl, true, false, List, [], ◌∷◌, arith, replicate}
use matemat.Timer.{
  Options, Timer, timer_process, tick, net_calls, second_calls, arp_calls, tcp_calls, udp_calls,
  zbus_call, tcp_call, udp_call, watchcat_call, fs20_call, ps2_call, modbus_call, matemat_call,
}
use matemat.Timer.Rate.{Pass, pass, timer_run, count, is_tick}
use matemat.Timer.Drive.{bus_run, timer_run-starts}
use matemat.Zbus.{Bus, zeroed, receiving, sending, escape}

abbrev options : Options
options = record { teensy = false; tcp_conns = 1; udp_conns = 1 }

abbrev started : Timer
started = record { expired = false; counter = 495 }

-- The timer expires, twice while the buffer is locked.
abbrev held : Pass
held = record { expires = true; locked = true }

abbrev free : Pass
free = record { expires = true; locked = false }

abbrev passes : List Pass
passes = held ∷ held ∷ replicate 20 free

abbrev queued : Bus
queued = record (zeroed (replicate 8 65) (replicate 8 0)) {
  mode = receiving;
  send_len = 3;
  bus_blocked = 2;
}

twenty_ticks : count is_tick (timer_run options passes started).1 ≡ 20
unfolding count timer_run pass timer_process tick net_calls second_calls arp_calls tcp_calls
    udp_calls
twenty_ticks = refl

tenth_tick :
    (timer_process options false (record { expired = true; counter = 19 })).1
    ≡ watchcat_call
      ∷ fs20_call
      ∷ ps2_call
      ∷ modbus_call
      ∷ matemat_call
      ∷ zbus_call
      ∷ tcp_call 0
      ∷ udp_call 0
      ∷ []
unfolding timer_process tick net_calls second_calls arp_calls tcp_calls udp_calls
tenth_tick = refl

timer_run-starts_example :
    let (b', out) = bus_run (timer_run options passes started).1 queued in
    (out ≡ escape ∷ []) × (b'.mode ≡ sending) × (b'.send_len ≡ 3)
timer_run-starts_example =
    timer_run-starts options passes started 1 queued refl (omega arith) refl (omega arith)
      twenty_ticks
