-- ===== src/Zbus/Transfer.antt =====
-- A message from one controller to another over the bus of firmware/zbus/zbus.c.
use matemat.Base.{ℕ, ◌<◌, ◌≤◌, ◌≡◌, true, some, List, [], ◌++◌, arith, length, drop}
use matemat.Zbus.{Build, Bus, receiving, send_data, rxfinish}
use matemat.Zbus.Sending.{IsIdle, tx_run, frame, send_data-frame}
use matemat.Zbus.Receiving.{IsReady, rx_run, rx_run-frame}

-- A message of any bytes, at least one and no more than the receiver's buffer holds, that an idle
-- controller is given to send, is accepted; what its transmit interrupts put on the line, one for
-- each byte of the frame, makes a ready receiver have exactly the message to read. The sender is
-- idle and listens again, and the receiver puts nothing on the line.
pub transfer :
    (o : Build) (base len : ℕ) (s tail : List ℕ) (a b : Bus)
    → IsIdle a
    → IsReady o b
    → drop base a.uip_buf ≡ s ++ tail
    → length s ≡ len
    → 0 < length s
    → length s ≤ o.recv_size
    → let (a1, out, accepted) = send_data base len a in
      let (a2, rest) = tx_run (length (frame s)) a1 in
      let (b', answer) = rx_run o (out ++ rest) b in
      (accepted ≡ true)
      × (rxfinish o b' ≡ some s)
      × (answer ≡ [])
      × IsIdle a2
      × (a2.mode ≡ receiving)
transfer o base len s tail a b idle ready at size some_bytes fits =
    let sent = send_data-frame base len s tail a idle some_bytes size at in
    let got = rx_run-frame o s b ready some_bytes fits in
    (sent.0, rw sent.1 got.0, rw sent.1 got.1, rw sent.2 (omega arith), rw sent.2)
