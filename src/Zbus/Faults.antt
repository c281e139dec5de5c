-- ===== src/Zbus/Faults.antt =====
-- Two messages of firmware/zbus/zbus.c that go wrong.
use matemat.Base.{
  ℕ, ◌+◌, ◌<◌, ◌≡◌, refl, ◌∙◌, Bool, true, false, inl, inr, Bool-cases, ◌==◌, List, [], ◌∷◌, ◌++◌,
  arith, length, drop,
}
use matemat.Zbus.{
  Build, Bus, escape, zbus_stop, send_data, txstart, tx_interrupt, rx_interrupt, append_data,
  stop_condition, core_periodic, process, off, zbus_start,
}
use matemat.Zbus.Sending.{
  escaped, stop_sequence, tx_run, tx_run-rest, tx_interrupt-escape, tx_run-suc, frame,
}
use matemat.Zbus.Receiving.{IsReady, rx_run}

unopened-plain :
    (o : Build) (c : ℕ) (s : List ℕ) (b : Bus)
    → b.recv_len ≡ 0
    → b.recv_escape_data ≡ false
    → b.bus_blocked ≡ 0
    → (c == escape) ≡ false
    → rx_run o (c ∷ s) b ≡ rx_run o s b
unfolding rx_run rx_interrupt append_data
unopened-plain o c s b r e k n = ground arith

unopened-escape :
    (o : Build) (s : List ℕ) (b : Bus)
    → b.recv_len ≡ 0
    → b.recv_escape_data ≡ false
    → b.bus_blocked ≡ 0
    → rx_run o (escape ∷ escape ∷ s) b ≡ rx_run o s b
unfolding rx_run rx_interrupt append_data
unopened-escape o s b r e k = ground arith

unopened-stop :
    (o : Build) (b : Bus)
    → b.recv_len ≡ 0
    → b.recv_escape_data ≡ false
    → b.bus_blocked ≡ 0
    → b.send_len ≡ 0
    → rx_run o stop_sequence b ≡ (b, [])
unfolding rx_run rx_interrupt stop_condition
unopened-stop o b r e k n = ground arith

-- Nothing is kept of bytes that come without a start condition.
rx_run-unopened :
    (o : Build) (s : List ℕ) (b : Bus)
    → b.recv_len ≡ 0
    → b.recv_escape_data ≡ false
    → b.bus_blocked ≡ 0
    → b.send_len ≡ 0
    → rx_run o (escaped s ++ stop_sequence) b ≡ (b, [])
unfolding escaped
rx_run-unopened o [] b r e k n = unopened-stop o b r e k n
rx_run-unopened o (c ∷ s) b r e k n =
    let ih = rx_run-unopened o s b r e k n in
    elim (Bool-cases (c == escape)) [
      | inl y ↦ rw y (unopened-escape o (escaped s ++ stop_sequence) b r e k ∙ ih)
      | inr p ↦ rw p (unopened-plain o c (escaped s ++ stop_sequence) b r e k p ∙ ih)
    ]

-- A message that is handed over between the backslash and the `1` of the stop condition of the one
-- before is accepted, but is sent without a start condition: after the `1` the line carries only
-- its bytes and its stop condition, of which a ready receiver, for which the bus is free, keeps
-- nothing.
pub late_message-lost :
    (o : Build) (base len : ℕ) (s tail : List ℕ) (a b : Bus)
    → a.send_escape_data ≡ zbus_stop
    → a.send_len ≡ 0
    → 0 < a.bus_blocked
    → drop base a.uip_buf ≡ s ++ tail
    → length s ≡ len
    → 0 < length s
    → IsReady o b
    → b.bus_blocked ≡ 0
    → let (a1, out, accepted) = send_data base len a in
      let (_, rest) = tx_run (length (zbus_stop ∷ escape ∷ (escaped s ++ stop_sequence))) a1 in
      (accepted ≡ true)
      × (out ++ rest ≡ zbus_stop ∷ (escaped s ++ stop_sequence))
      × (rx_run o (escaped s ++ stop_sequence) b ≡ (b, []))
late_message-lost o base len s tail a b e n k at size some_bytes ready free =
    let a0 = record a { send_base = base; send_len = len; send_offset = 0 } in
    let a1 = record a0 { send_escape_data = 0 } in
    let queued : send_data base len a ≡ (a0, [], true) = unfold send_data txstart in ground arith in
    let z : base + 0 ≡ base = omega arith in
    let rest = tx_run-rest s tail a1 refl (omega arith) (omega arith) (rw z at) in
    let stop : tx_interrupt a0 ≡ (a1, zbus_stop ∷ []) =
      tx_interrupt-escape a0 (omega arith) ∙ rw e in
    let all = tx_run-suc _ a0 a1 _ _ _ stop rest in
    (rw queued, rw (queued, all), rx_run-unopened o s b ready.unread ready.plain free ready.unsent)

empty_frame :
    (o : Build) (b : Bus)
    → IsReady o b
    → rx_run o (escape ∷ zbus_start ∷ stop_sequence) b
      ≡ (record b { recv_offset = 0; mode = off; recv_len = 0; bus_blocked = 0 }, [])
unfolding rx_run rx_interrupt stop_condition
empty_frame o b ready = ground arith

-- Calls of the main loop and of the timer that follow: `true` is `zbus_process`.
module _ (uip : List ℕ → ℕ → List ℕ × ℕ) (o : Build) where
  pub housekeeping : List Bool → Bus → Bus
  housekeeping [] b = b
  housekeeping (true ∷ cs) b = housekeeping cs (process uip o b).0
  housekeeping (false ∷ cs) b = housekeeping cs (core_periodic b).0

  housekeeping-off :
      (calls : List Bool) (b : Bus)
      → b.mode ≡ off
      → b.recv_len ≡ 0
      → b.send_len ≡ 0
      → ((housekeeping calls b).mode ≡ off) × ((housekeeping calls b).recv_len ≡ 0)
  unfolding housekeeping process core_periodic
  housekeeping-off [] b m r n = (m, r)
  housekeeping-off (true ∷ cs) b m r n =
      let b1 = (process uip o b).0 in
      let kept : (b1.mode ≡ off) × (b1.recv_len ≡ 0) × (b1.send_len ≡ 0) = ground arith in
      housekeeping-off cs b1 kept.0 kept.1 kept.2
  housekeeping-off (false ∷ cs) b m r n =
      let b1 = (core_periodic b).0 in
      let kept : (b1.mode ≡ off) × (b1.recv_len ≡ 0) × (b1.send_len ≡ 0) = ground arith in
      housekeeping-off cs b1 kept.0 kept.1 kept.2

  -- A frame without a byte switches a ready receiver off, and since it leaves nothing to read, no
  -- number of calls of `zbus_process` and `zbus_core_periodic` switches it on again.
  pub empty_frame-off :
      (calls : List Bool) (b : Bus)
      → IsReady o b
      → let (b', out) = rx_run o (frame []) b in
        (out ≡ []) × ((housekeeping calls b').mode ≡ off) × ((housekeeping calls b').recv_len ≡ 0)
  unfolding escaped
  empty_frame-off calls b ready =
      let k = housekeeping-off calls _ refl refl ready.unsent in
      rw (empty_frame o b ready) (refl, k.0, k.1)
