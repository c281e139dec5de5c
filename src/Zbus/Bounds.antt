-- ===== src/Zbus/Bounds.antt =====
-- That the bus of firmware/zbus/zbus.c stays inside its buffers, and drives the line only to send.
use matemat.Base.{
  ◌+◌, ◌≤◌, ◌≡◌, ◌↔◌, true, arith, length, ◌<◌, ℕ, Bool, length-set, false, List, take, ◌++◌, drop,
  length-append, length-take, length-drop, ◌∙◌, if◌then◌else◌,
}
use matemat.Zbus.{
  Build, Bus, sending, recv_memory, txstart, rxstart, core_periodic, send_data, tx_interrupt,
  append_data, stop_condition, rx_interrupt, receiving, process, zeroed, packet, answered,
  message_start, core_init,
}

pub record IsBus (o : Build) (b : Bus) : Type 0 where
  pub room : o.recv_size ≤ length (recv_memory o b)
  pub recv_inside : b.recv_offset ≤ o.recv_size
  pub recv_fits : b.recv_len ≤ o.recv_size
  pub send_inside : 0 < b.send_len → b.send_offset ≤ b.send_len
  pub send_fits : b.send_base + b.send_len ≤ length b.uip_buf
  pub bridge_fits : o.bridge_offset + o.recv_size ≤ length b.uip_buf
  pub blocked_capped : b.bus_blocked ≤ 3
  pub direction : (b.rxtx_pin ≡ true) ↔ (b.mode ≡ sending)

txstart-IsBus : (o : Build) (b : Bus) → IsBus o b → IsBus o (txstart b).0
unfolding txstart
txstart-IsBus o b h = ground arith

rxstart-IsBus : (o : Build) (b : Bus) → IsBus o b → IsBus o (rxstart b).0
unfolding rxstart
rxstart-IsBus o b h = ground (arith, txstart-IsBus o b h)

core_periodic-IsBus : (o : Build) (b : Bus) → IsBus o b → IsBus o (core_periodic b).0
unfolding core_periodic txstart
core_periodic-IsBus o b h = ground arith

send_data-IsBus :
    (o : Build) (base len : ℕ) (b : Bus)
    → base + len ≤ length b.uip_buf
    → IsBus o b
    → IsBus o (send_data base len b).0
unfolding send_data txstart
send_data-IsBus o base len b fits h = ground arith

tx_interrupt-IsBus :
    (o : Build) (b : Bus) → b.mode ≡ sending → IsBus o b → IsBus o (tx_interrupt b).0
unfolding tx_interrupt rxstart txstart
tx_interrupt-IsBus o b m h = ground arith

append_data-IsBus : (o : Build) (c : ℕ) (b : Bus) → IsBus o b → IsBus o (append_data o c b)
unfolding append_data
append_data-IsBus o c b h =
    ground (arith, length-set b.uip_buf b.recv_offset c, length-set b.recv_buffer b.recv_offset c)

stop_condition-IsBus :
    (o : Build) (b : Bus) → b.mode ≡ receiving → IsBus o b → IsBus o (stop_condition b).0
unfolding stop_condition txstart
stop_condition-IsBus o b m h = ground arith

rx_interrupt-IsBus :
    (o : Build) (error : Bool) (c : ℕ) (b : Bus)
    → b.mode ≡ receiving
    → IsBus o b
    → IsBus o (rx_interrupt o error c b).0
unfolding rx_interrupt
rx_interrupt-IsBus o error c b m h =
    let plain = record b { recv_escape_data = false } in
    let p : IsBus o plain = ground arith in
    ground (
      arith,
      append_data-IsBus o c b h,
      append_data-IsBus o c plain p,
      stop_condition-IsBus o plain m p,
    )

-- What `zbus_process` hands to the stack has the buffer's size.
packet-length : (o : Build) (b : Bus) → IsBus o b → length (packet o b) ≡ length b.uip_buf
unfolding packet
packet-length o b h =
    let at = o.bridge_offset in
    ground (
      arith,
      length-append (take at b.uip_buf)
          (take b.recv_len b.recv_buffer ++ drop (at + b.recv_len) b.uip_buf),
      length-append (take b.recv_len b.recv_buffer) (drop (at + b.recv_len) b.uip_buf),
      length-take at b.uip_buf,
      length-take b.recv_len b.recv_buffer,
      length-drop (at + b.recv_len) b.uip_buf,
    )

answered-IsBus :
    (o : Build) (answer : List ℕ) (len : ℕ) (b : Bus)
    → length answer ≡ length b.uip_buf
    → o.bridge_offset + len ≤ length b.uip_buf
    → IsBus o b
    → IsBus o (answered o answer len b).0
unfolding answered
answered-IsBus o answer len b size fits h =
    let handled = record b { uip_buf = answer; recv_len = 0 } in
    let v : IsBus o handled = ground arith in
    ground (
      arith,
      rxstart-IsBus o handled v,
      send_data-IsBus o (message_start o) len handled (ground arith) v,
    )

-- The stack leaves the buffer's size, and in a buffer that has room for a received message it
-- answers with a packet that fits behind the bridge's header.
module _ (o : Build) (uip : List ℕ → ℕ → List ℕ × ℕ)
    (keeps : (s : List ℕ) (n : ℕ) → length (uip s n).0 ≡ length s)
    (fits : (s : List ℕ) (n : ℕ)
      → o.bridge_offset + o.recv_size ≤ length s
      → o.bridge_offset + (uip s n).1 ≤ length s) where
  process-IsBus : (b : Bus) → IsBus o b → IsBus o (process uip o b).0
  unfolding process
  process-IsBus b h =
      let size = packet-length o b h in
      let n = b.recv_len + message_start o in
      let kept : length (uip (packet o b) n).0 ≡ length b.uip_buf = keeps (packet o b) n ∙ size in
      let room : o.bridge_offset + (uip (packet o b) n).1 ≤ length b.uip_buf =
        rw size at (fits (packet o b) n (omega (arith, size))) in
      ground (arith, answered-IsBus o (uip (packet o b) n).0 (uip (packet o b) n).1 b kept room h)

  -- What can happen to the bus: an enabled interrupt, a timer call, a call of the main loop, or a
  -- message of the program's that lies in the buffer.
  pub data Step : Bus → Bus → Type 0 where
    transmitted : {b : Bus} → b.mode ≡ sending → Step b (tx_interrupt b).0
    heard :
        {b : Bus}
        → (error : Bool) (c : ℕ) → b.mode ≡ receiving
        → Step b (rx_interrupt o error c b).0
    ticked : {b : Bus} → Step b (core_periodic b).0
    processed : {b : Bus} → Step b (process uip o b).0
    queued :
        {b : Bus} → (base len : ℕ) → base + len ≤ length b.uip_buf → Step b (send_data base len b).0

  pub data Reach (b : Bus) : Bus → Type 0 where
    here : Reach b b
    next : {b1 b2 : Bus} → Reach b b1 → Step b1 b2 → Reach b b2

  Step-IsBus : {b b' : Bus} → Step b b' → IsBus o b → IsBus o b'
  Step-IsBus (transmitted {b} m) h = tx_interrupt-IsBus o b m h
  Step-IsBus (heard {b} error c m) h = rx_interrupt-IsBus o error c b m h
  Step-IsBus (ticked {b}) h = core_periodic-IsBus o b h
  Step-IsBus (processed {b}) h = process-IsBus b h
  Step-IsBus (queued {b} base len f) h = send_data-IsBus o base len b f h

  Reach-IsBus : {b b' : Bus} → IsBus o b → Reach b b' → IsBus o b'
  Reach-IsBus h here = h
  Reach-IsBus h (next r s) = Step-IsBus s (Reach-IsBus h r)

  -- From initialisation on, with buffers that have their sizes, whatever happens in whatever order:
  -- received bytes are written and counted inside the receive buffer, the bytes that are sent are
  -- read inside `uip_buf`, the block of the bus is at most 3, and the line is driven exactly while
  -- the controller is sending.
  pub core_init-Reach :
      (uip_buf recv_buffer : List ℕ)
      → o.recv_size ≤ (if o.shared then length uip_buf else length recv_buffer)
      → o.bridge_offset + o.recv_size ≤ length uip_buf
      → {b : Bus} → Reach (core_init (zeroed uip_buf recv_buffer)).0 b
      → IsBus o b
  unfolding core_init rxstart
  core_init-Reach uip_buf recv_buffer room bridge r = Reach-IsBus (ground arith) r
