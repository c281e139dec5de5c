-- ===== src/Timer.antt =====
-- firmware/timer.c: what the main loop calls at each tick of 20 ms, in this order.
-- A call is a value, so that the calls of the other components are their functions. The build has
-- IPv4 and a network adapter, and no boot loader, RFM12, CONTROL6, I2C commands or OpenVPN; a
-- packet that uIP makes is sent by `fill_llh_and_transmit` as part of the call that makes it.
pub mod Rate
pub mod Drive
mod Tests
use matemat.Base.{
  ℕ, zero, suc, ◌+◌, ◌%◌, Bool, true, false, not, ◌||◌, List, [], ◌∷◌, ◌++◌, ◌==◌, if◌then◌else◌,
  u16,
}

-- `watchcat_periodic`, `fs20_process_timeout`, `ps2_periodic`, `modbus_periodic`,
-- `matemat_periodic`, `zbus_core_periodic`, `cron_periodic`, the age of the weather report,
-- `clock_tick`, `uip_arp_timer`; `uip_periodic` and `uip_udp_periodic` with their connections.
pub data Call : Type 0 where
  watchcat_call fs20_call ps2_call modbus_call matemat_call : Call
  zbus_call cron_call weather_call clock_call arp_call : Call
  tcp_call udp_call : ℕ → Call

-- TEENSY_SUPPORT, UIP_CONNS and UIP_UDP_CONNS.
pub record Options : Type 0 where
  pub teensy : Bool
  pub tcp_conns : ℕ
  pub udp_conns : ℕ

-- The flag OCF1A of timer 1, and the function's `counter`.
pub record Timer : Type 0 where
  pub expired : Bool
  pub counter : ℕ

-- The loops over the connections, from `i` on.
unfoldable pub tcp_calls : ℕ → ℕ → List Call
tcp_calls i zero = []
tcp_calls i (suc n) = tcp_call i ∷ tcp_calls (i + 1) n

unfoldable pub udp_calls : ℕ → ℕ → List Call
udp_calls i zero = []
udp_calls i (suc n) = udp_call i ∷ udp_calls (i + 1) n

abbrev pub tick_calls : List Call
tick_calls = watchcat_call ∷ fs20_call ∷ ps2_call ∷ modbus_call ∷ matemat_call ∷ []

-- Every 200 ms; for the Teensy every eighth tick.
unfoldable pub net_calls : Options → ℕ → List Call
net_calls o counter =
    if (if o.teensy then counter % 8 == 0 else counter % 10 == 0)
    then zbus_call ∷ (tcp_calls 0 o.tcp_conns ++ udp_calls 0 o.udp_conns)
    else []

unfoldable pub second_calls : ℕ → List Call
second_calls counter = if counter % 50 == 0 then cron_call ∷ weather_call ∷ clock_call ∷ [] else []

unfoldable pub arp_calls : ℕ → List Call
arp_calls counter = if counter == 500 then arp_call ∷ [] else []

-- The block behind the lock.
unfoldable pub tick : Options → Timer → Timer × List Call
tick o t =
    let counter = u16 (t.counter + 1) in
    (
      record { expired = false; counter = if counter == 500 then 0 else counter },
      tick_calls ++ (net_calls o counter ++ (second_calls counter ++ arp_calls counter)),
    )

-- `timer_process`, where `locked` is the result of `uip_buf_lock`.
unfoldable pub timer_process : Options → Bool → Timer → Timer × List Call
unfolding tick
timer_process o locked t = if not t.expired || locked then (t, []) else tick o t
