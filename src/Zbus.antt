-- ===== src/Zbus.antt =====
-- firmware/zbus/zbus.c and process.c: framed messages on a shared half-duplex line. A write of the
-- serial data register is an output. The USART's control register is the mode; the pins of the two
-- lights and the setup of the registers are not modelled. Without encryption and raw capture, as
-- both are separate options. The result of `zbus_txstart`, which nothing reads, is left out.
pub mod Bounds
pub mod Sending
pub mod Receiving
pub mod Transfer
pub mod Pending
pub mod Faults
mod Tests
use matemat.Base.{
  ℕ, ◌+◌, ◌-◌, Bool, true, false, ◌&&◌, Option, none, some, List, [], ◌∷◌, ◌++◌, ltb, leb, ◌==◌,
  if◌then◌else◌, set, get_or, take, drop,
}

-- ZBUS_START, ZBUS_STOP, and the backslash before them.
abbrev pub zbus_start : ℕ
zbus_start = b'0'

abbrev pub zbus_stop : ℕ
zbus_stop = b'1'

abbrev pub escape : ℕ
escape = 0x5c

-- The interrupts and directions that are enabled: none, RXCIE with RXEN, or TXCIE with TXEN.
pub data Mode : Type 0 where
  off receiving sending : Mode

-- Without ENC28J60_SUPPORT the receiver writes into `uip_buf`, which is sent from, too.
-- `recv_size` is ZBUS_RECV_BUFFER, `bridge_offset` is where a message starts in `uip_buf`.
pub record Build : Type 0 where
  pub shared : Bool
  pub recv_size : ℕ
  pub bridge_offset : ℕ

-- The file's globals, with `send_ctx.data` as an index into `uip_buf`; and ZBUS_RXTX_PIN.
pub record Bus : Type 0 where
  pub send_escape_data : ℕ
  pub recv_escape_data : Bool
  pub bus_blocked : ℕ
  pub send_len : ℕ
  pub send_offset : ℕ
  pub send_base : ℕ
  pub recv_len : ℕ
  pub recv_offset : ℕ
  pub uip_buf : List ℕ
  pub recv_buffer : List ℕ
  pub mode : Mode
  pub rxtx_pin : Bool

-- The globals before `zbus_core_init`, with the memory of the two buffers.
abbrev pub zeroed : List ℕ → List ℕ → Bus
zeroed uip_buf recv_buffer = record {
  send_escape_data = 0;
  recv_escape_data = false;
  bus_blocked = 0;
  send_len = 0;
  send_offset = 0;
  send_base = 0;
  recv_len = 0;
  recv_offset = 0;
  uip_buf = uip_buf;
  recv_buffer = recv_buffer;
  mode = off;
  rxtx_pin = false;
}

unfoldable pub txstart : Bus → Bus × List ℕ
txstart b =
    if b.bus_blocked == 0
    then (
      record b { bus_blocked = 3; mode = sending; rxtx_pin = true; send_escape_data = zbus_start },
      escape ∷ [],
    )
    else (b, [])

unfoldable pub send_data : ℕ → ℕ → Bus → Bus × List ℕ × Bool
send_data base len b =
    let (started, out) = txstart (record b { send_base = base; send_len = len; send_offset = 0 }) in
    if b.send_len == 0 then (started, out, true) else (b, [], false)

unfoldable pub rxstart : Bus → Bus × List ℕ
rxstart b =
    if ltb 0 b.send_len then txstart b else (record b { mode = receiving; rxtx_pin = false }, [])

abbrev pub rxstop : Bus → Bus
rxstop b = record b { mode = off }

-- What `recv_ctx.data` points to.
abbrev pub recv_memory : Build → Bus → List ℕ
recv_memory o b = if o.shared then b.uip_buf else b.recv_buffer

-- The received bytes, from the context that is returned.
unfoldable pub rxfinish : Build → Bus → Option (List ℕ)
rxfinish o b = if b.recv_len == 0 then none else some (take b.recv_len (recv_memory o b))

-- `zbus_core_init`.
unfoldable pub core_init : Bus → Bus × List ℕ
core_init b = rxstart (record b { send_len = 0; recv_len = 0 })

unfoldable pub core_periodic : Bus → Bus × List ℕ
core_periodic b =
    let counted = record b { bus_blocked = b.bus_blocked - 1 } in
    if b.bus_blocked == 0
    then (b, [])
    else if counted.bus_blocked == 0 && ltb 0 b.send_len
    then txstart counted
    else (counted, [])

-- The interrupt that finds the last byte sent.
unfoldable pub tx_interrupt : Bus → Bus × List ℕ
tx_interrupt b =
    let c = get_or b.uip_buf (b.send_base + b.send_offset) 0 in
    let moved = record b { send_offset = b.send_offset + 1; bus_blocked = 3 } in
    if ltb 0 b.send_escape_data
    then (record b { send_escape_data = 0 }, b.send_escape_data ∷ [])
    else if ltb 0 b.send_len && ltb b.send_offset b.send_len
    then if c == escape
      then (record moved { send_escape_data = c }, escape ∷ [])
      else (moved, c ∷ [])
    else if ltb 0 b.send_len
    then (record b { send_len = 0; send_escape_data = zbus_stop }, escape ∷ [])
    else rxstart (record b { bus_blocked = 0 })

-- From the label `append_data` on.
pub append_data : Build → ℕ → Bus → Bus
append_data o c b =
    let next = record b { recv_offset = b.recv_offset + 1 } in
    if leb o.recv_size b.recv_offset
    then b
    else if b.bus_blocked == 0
    then b
    else if o.shared
    then record next { uip_buf = set b.uip_buf b.recv_offset c }
    else record next { recv_buffer = set b.recv_buffer b.recv_offset c }

pub stop_condition : Bus → Bus × List ℕ
stop_condition b =
    let ended =
      record (if b.bus_blocked == 0 then b else record (rxstop b) { recv_len = b.recv_offset }) {
        bus_blocked = 0;
      } in
    if ltb 0 b.send_len then txstart ended else (ended, [])

-- The receive interrupt, with the error bits of the status register and the data register.
unfoldable pub rx_interrupt : Build → Bool → ℕ → Bus → Bus × List ℕ
unfolding append_data stop_condition
rx_interrupt o error c b =
    let plain = record b { recv_escape_data = false } in
    if error
    then (b, [])
    else if ltb 0 b.recv_len
    then (b, [])
    else if b.recv_escape_data
    then if c == zbus_start
      then (record plain { recv_offset = 0; bus_blocked = 3 }, [])
      else if c == zbus_stop
      then stop_condition plain
      else if c == escape
      then (append_data o c plain, [])
      else (plain, [])
    else if c == escape
    then (record b { recv_escape_data = true }, [])
    else (append_data o c b, [])

-- Where a message starts in `uip_buf`, and the buffer with a received message in it.
abbrev pub message_start : Build → ℕ
message_start o = if o.shared then 0 else o.bridge_offset

pub packet : Build → Bus → List ℕ
packet o b =
    let at = message_start o in
    if o.shared
    then b.uip_buf
    else take at b.uip_buf ++ (take b.recv_len b.recv_buffer ++ drop (at + b.recv_len) b.uip_buf)

-- The end of `zbus_process`: the stack has left a buffer and the length of its answer.
pub answered : Build → List ℕ → ℕ → Bus → Bus × List ℕ
answered o answer len b =
    let handled = record b { uip_buf = answer; recv_len = 0 } in
    let (sent, out, _) = send_data (message_start o) len handled in
    if len == 0 then rxstart handled else (sent, out)

-- `zbus_process`, where `uip` is the stack: it gets the buffer and the length of a packet in it,
-- and leaves the buffer and the length of its answer, 0 for none.
module _ (uip : List ℕ → ℕ → List ℕ × ℕ) where
  unfoldable pub process : Build → Bus → Bus × List ℕ
  unfolding rxfinish packet answered
  process o b =
      let (answer, len) = uip (packet o b) (b.recv_len + message_start o) in
      if b.recv_len == 0 then (b, []) else answered o answer len b
