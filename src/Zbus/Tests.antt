-- ===== src/Zbus/Tests.antt =====
-- Concrete messages on the bus.
use matemat.Base.{ℕ, ◌≡◌, refl, true, false, some, List, [], ◌∷◌, ◌++◌, arith, length, replicate}
use matemat.Zbus.{
  Build, Bus, off, receiving, sending, zeroed, escape, zbus_stop, core_init, core_periodic,
  send_data, rxstart, rxfinish,
}
use matemat.Zbus.Sending.{IsIdle, tx_run, frame, escaped, stop_sequence}
use matemat.Zbus.Receiving.{rx_run}
use matemat.Zbus.Transfer.{transfer}
use matemat.Zbus.Bounds.{IsBus, here, next, ticked, queued, core_init-Reach}
use matemat.Zbus.Faults.{late_message-lost, housekeeping, empty_frame-off}

-- The build with a network adapter, and a stack that answers nothing.
abbrev bridge : Build
bridge = record { shared = false; recv_size = 8; bridge_offset = 2 }

abbrev silent : List ℕ → ℕ → List ℕ × ℕ
silent s n = (s, 0)

-- Two bytes of a header, and a message with a backslash in it.
abbrev message : List ℕ
message = 65 ∷ escape ∷ 48 ∷ []

abbrev listening : Bus
listening = record (zeroed (9 ∷ 9 ∷ (message ++ (7 ∷ 7 ∷ 7 ∷ 7 ∷ 7 ∷ 7 ∷ []))) (replicate 8 0)) {
  mode = receiving;
}

abbrev stopping : Bus
stopping = record listening {
  mode = sending;
  rxtx_pin = true;
  send_escape_data = zbus_stop;
  bus_blocked = 3;
}

line : frame message ≡ 92 ∷ 48 ∷ 65 ∷ 92 ∷ 92 ∷ 48 ∷ 92 ∷ 49 ∷ []
unfolding escaped
line = refl

transfer_example :
    let (a1, out, accepted) = send_data 2 3 listening in
    let (a2, rest) = tx_run (length (frame message)) a1 in
    let (b', answer) = rx_run bridge (out ++ rest) listening in
    (accepted ≡ true)
    × (rxfinish bridge b' ≡ some message)
    × (answer ≡ [])
    × IsIdle a2
    × (a2.mode ≡ receiving)
transfer_example =
    transfer bridge 2 3 message (7 ∷ 7 ∷ 7 ∷ 7 ∷ 7 ∷ 7 ∷ []) listening listening (omega arith)
      (ground arith) refl refl (omega arith) (omega arith)

abbrev waiting : Bus
waiting = record listening { send_base = 2; send_len = 3; bus_blocked = 3 }

core_init-Reach_example :
    IsBus bridge
      (send_data 2 3 (core_periodic (core_init (zeroed (replicate 10 0) (replicate 8 0))).0).0).0
unfolding core_init core_periodic rxstart
core_init-Reach_example =
    core_init-Reach bridge silent (λ s n. refl) (λ s n h. omega arith) (replicate 10 0)
      (replicate 8 0) (omega arith) (omega arith) (next (next here ticked) (queued 2 3 omega arith))

late_message-lost_example :
    let (a1, out, accepted) = send_data 2 3 stopping in
    let (_, rest) = tx_run (length (zbus_stop ∷ escape ∷ (escaped message ++ stop_sequence))) a1 in
    (accepted ≡ true)
    × (out ++ rest ≡ zbus_stop ∷ (escaped message ++ stop_sequence))
    × (rx_run bridge (escaped message ++ stop_sequence) listening ≡ (listening, []))
late_message-lost_example =
    late_message-lost bridge 2 3 message (7 ∷ 7 ∷ 7 ∷ 7 ∷ 7 ∷ 7 ∷ []) stopping listening refl refl
      (omega arith) refl refl (omega arith) (ground arith) refl

empty_frame-off_example :
    let (b', out) = rx_run bridge (frame []) listening in
    (out ≡ [])
    × ((housekeeping silent bridge (true ∷ false ∷ []) b').mode ≡ off)
    × ((housekeeping silent bridge (true ∷ false ∷ []) b').recv_len ≡ 0)
empty_frame-off_example = empty_frame-off silent bridge (true ∷ false ∷ []) listening (ground arith)
