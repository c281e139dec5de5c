-- ===== src/Modbus.antt =====
-- firmware/modbus/modbus.c: requests to other Modbus devices, and requests of others to this one.
-- A write of the serial data register is an output; the registers' setup is not modelled.
pub mod Client
pub mod Answers
pub mod Registers
pub mod Master
pub mod Exchange
pub mod Truncated
mod Tests
use matemat.Base.{
  ℕ, zero, suc, ◌+◌, ◌-◌, ◌*◌, ◌/◌, ◌%◌, Bool, true, false, not, ◌&&◌, ◌||◌, List, [], ◌∷◌, ◌++◌,
  ltb, leb, ◌==◌, if◌then◌else◌, u8, set, get_or, take,
}
use matemat.Base.Int.{ℤ, pos, negsuc}
use Client.{Config, Answer, crc_calc, client_process}

-- MODBUS_BUFFER_LEN.
abbrev pub buffer_len : ℕ
buffer_len = 100

-- The globals. `client` is `modbus_client_state.data` with the memory behind it, `buffer` the array of
-- the caller of `modbus_rxstart`; `on_client` says which of them `modbus_data.data` points to, and
-- `waiting` whether `modbus_recv_len_ptr` points to the caller's `recv_len`. Then the transmit
-- interrupt's bit and the transmitter's pin.
pub record Modbus : Type 0 where
  pub holding : List ℕ
  pub client : List ℕ
  pub client_len : ℕ
  pub buffer : List ℕ
  pub on_client : Bool
  pub sent : ℕ
  pub len : ℕ
  pub crc : ℕ
  pub crc_len : ℕ
  pub recv_timer : ℕ
  pub waiting : Bool
  pub recv_len : ℤ
  pub txcie : Bool
  pub tx_pin : Bool

-- `modbus_init`.
unfoldable pub init : Modbus → Modbus
init m = record m { tx_pin = false; len = 0; sent = 0; crc_len = 0; client_len = 0 }

-- What `modbus_data.data` points to.
abbrev pub current : Modbus → List ℕ
current m = if m.on_client then m.client else m.buffer

-- The last two bytes of a frame. In front of the array stand its length and, never written, the
-- number of a transaction.
pub frame_crc : Modbus → ℕ
frame_crc m =
    if m.client_len == 0
    then 0
    else if m.client_len == 1
    then get_or m.client 0 0 * 256 + m.client_len
    else get_or m.client (m.client_len - 1) 0 * 256 + get_or m.client (m.client_len - 2) 0

module _ (k : Config) where
  -- The end of a frame for this controller: it is processed, and the answer is begun.
  pub answer_frame : Modbus → Modbus × List ℕ
  answer_frame m =
      let length = u8 (m.client_len + 254) in
      let answer = client_process k length m.holding m.client in
      let processed = record m { holding = answer.holding; client = answer.bytes } in
      let begun = record processed {
        tx_pin = true;
        on_client = true;
        len = length;
        sent = 1;
        txcie = true;
        client_len = 0;
      } in
      let is_none : Bool = elim answer.recv_len [ pos n ↦ n == 0 | negsuc n ↦ false ] in
      if is_none
      then (record processed { client_len = 0 }, [])
      else (begun, get_or answer.bytes 0 0 ∷ [])

  -- The block of `modbus_periodic` that ends a frame. A frame of less than two bytes makes the
  -- number of bytes under the checksum wrap.
  pub end_frame : Modbus → Modbus × List ℕ
  end_frame m =
      let counted = crc_calc k (take (u8 (m.client_len + 254)) m.client) in
      let to = get_or m.client 0 0 in
      if not (counted == frame_crc m)
      then (record m { client_len = 0 }, [])
      else if not (to == k.address || to == k.broadcast)
      then (m, [])
      else answer_frame m

  unfoldable pub periodic : Modbus → Modbus × List ℕ
  periodic m =
      let ticked = record m { recv_timer = m.recv_timer - 1 } in
      if m.recv_timer == 0
      then (m, [])
      else if not m.waiting
      then if ticked.recv_timer == 0 then end_frame ticked else (ticked, [])
      else if not (ticked.recv_timer == 0)
      then (ticked, [])
      else (
        record ticked { recv_len = if ltb m.len 2 then negsuc 0 else pos m.len; waiting = false },
        [],
      )

  -- The part of `modbus_rxstart` behind the test of the address.
  pub begin_request : List ℕ → ℕ → Modbus → Modbus × List ℕ × Bool
  begin_request request length m = if ltb 0 m.crc_len then (m, [], false) else (
    record m {
      tx_pin = true;
      waiting = true;
      crc = crc_calc k (take length request);
      crc_len = 2;
      buffer = request;
      on_client = false;
      len = length;
      sent = 1;
      txcie = true;
    },
    get_or request 0 0 ∷ [],
    true,
  )

  -- `modbus_rxstart`, where the bytes at `data` are `request`. A caller does not call it while another
  -- waits: both callers test that first.
  unfoldable pub rxstart : List ℕ → ℕ → Modbus → Modbus × List ℕ × Bool
  unfolding begin_request
  rxstart request length m =
      let to = get_or request 0 0 in
      let answer = client_process k length m.holding request in
      let processed = record m {
        holding = answer.holding;
        buffer = answer.bytes;
        recv_len = answer.recv_len;
      } in
      if to == k.address || to == k.broadcast
      then if get_or answer.bytes 0 0 == k.address
        then (processed, [], true)
        else begin_request answer.bytes length processed
      else begin_request request length m

-- The interrupt that finds the last byte sent.
unfoldable pub tx_interrupt : Modbus → Modbus × List ℕ
tx_interrupt m =
    let left = m.crc_len - 1 in
    let ended = record m { txcie = false; tx_pin = false } in
    if ltb m.sent m.len
    then (record m { sent = u8 (m.sent + 1) }, get_or (current m) m.sent 0 ∷ [])
    else if ltb 0 m.crc_len
    then (record m { crc_len = left }, (if left == 1 then m.crc % 256 else m.crc / 256 % 256) ∷ [])
    else if m.waiting
    then (record ended { len = 0; recv_timer = 4 }, [])
    else (ended, [])

-- The receive interrupt, with the error bits of the status register and the data register.
unfoldable pub rx_interrupt : Bool → ℕ → Modbus → Modbus
rx_interrupt error c m =
    let more = record m { len = u8 (m.len + 1); recv_timer = 2 } in
    if error
    then m
    else if not m.waiting
    then record m {
      client = set m.client m.client_len c;
      client_len = u8 (m.client_len + 1);
      recv_timer = 2;
    }
    else if leb buffer_len m.len
    then m
    else if m.on_client
    then record more { client = set m.client m.len c }
    else record more { buffer = set m.buffer m.len c }
