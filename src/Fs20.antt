-- ===== src/Fs20.antt =====
-- firmware/fs20/fs20.c: commands of the FS20 radio, sent as pulses and received from the
-- comparator's and timer 2's interrupts. The pulses and delays of the sender are outputs; an
-- interrupt gets the counter of timer 2, which it resets. The weather station WS300, heard by the same
-- interrupts with a state of its own, is in Fs20/Weather.antt. Debugging output, counters of interrupts
-- and register setup are not modelled.
pub mod Bounds
pub mod Bits
pub mod Once
pub mod Weather
mod Tests
use matemat.Base.{
  ℕ, zero, suc, ◌+◌, ◌-◌, ◌*◌, ◌/◌, ◌%◌, ◌^◌, Bool, true, false, not, ◌&&◌, ◌||◌, List, [], ◌∷◌,
  ◌++◌, ltb, leb, ◌==◌, if◌then◌else◌, u8, take, replicate,
}

-- `fs20_send_zero` and `fs20_send_one`: the pin is on and off for 400 or for 600 microseconds.
pub data Pulse : Type 0 where
  zero_pulse one_pulse : Pulse

-- What is sent: pulses, and FS20_DELAY_CMD.
pub data Output : Type 0 where
  pulses : List Pulse → Output
  delay_cmd : Output

unfoldable pub send_sync : List Pulse
send_sync = replicate 12 zero_pulse ++ one_pulse ∷ []

abbrev pub send_bit : ℕ → Pulse
send_bit bit = if ltb 0 bit then one_pulse else zero_pulse

-- The loop of `fs20_send_byte` from the bit `n - 1` down.
unfoldable pub send_bits : ℕ → ℕ → List Pulse
send_bits zero byte = []
send_bits (suc i) byte = send_bit (byte / 2 ^ i % 2 * 2 ^ i) ∷ send_bits i byte

-- The sum of a command, as the sender computes it.
unfoldable pub sum_of : ℕ → ℕ → ℕ → ℕ → ℕ
sum_of hc1 hc2 addr cmd = u8 (u8 (u8 (u8 (6 + hc1) + hc2) + addr) + cmd)

-- The datagram of a received command: the bit-fields of `raw`, which avr-gcc packs from bit 0 on.
pub record Datagram : Type 0 where
  pub sync : ℕ
  pub hc1 : ℕ
  pub p1 : ℕ
  pub hc2 : ℕ
  pub p2 : ℕ
  pub addr : ℕ
  pub p3 : ℕ
  pub cmd : ℕ
  pub p4 : ℕ
  pub parity : ℕ
  pub p5 : ℕ

unfoldable pub datagram_of : ℕ → Datagram
datagram_of raw = record {
  sync = raw / 2 ^ 45 % 2 ^ 13;
  hc1 = raw / 2 ^ 37 % 256;
  p1 = raw / 2 ^ 36 % 2;
  hc2 = raw / 2 ^ 28 % 256;
  p2 = raw / 2 ^ 27 % 2;
  addr = raw / 2 ^ 19 % 256;
  p3 = raw / 2 ^ 18 % 2;
  cmd = raw / 2 ^ 10 % 256;
  p4 = raw / 2 ^ 9 % 2;
  parity = raw / 2 % 256;
  p5 = raw % 2;
}

-- `fs20_global.fs20`, and the comparator interrupt's `time_old`.
pub record Fs20 : Type 0 where
  pub raw : ℕ
  pub rec : ℕ
  pub err : ℕ
  pub queue : List Datagram
  pub len : ℕ
  pub timeout : ℕ
  pub time_old : ℕ

-- FS20_DATAGRAM_LENGTH and FS20_QUEUE_LENGTH.
abbrev pub datagram_length : ℕ
datagram_length = 58

abbrev pub queue_length : ℕ
queue_length = 5

abbrev pub pulse_zero : ℕ → Bool
pulse_zero x = leb 33 x && leb x 73

abbrev pub pulse_one : ℕ → Bool
pulse_one x = leb 74 x && leb x 105

-- FS20_PULSE_DIFFERENCE, the macro's signed differences on numbers.
abbrev pub pulse_difference : ℕ → ℕ → Bool
pulse_difference x y = leb (x - y) 68 && leb (y - x) 68

abbrev pub u64 : ℕ → ℕ
u64 n = n % 18446744073709551616

-- The block of the comparator's interrupt that is not locked.
pub edge : ℕ → Fs20 → Fs20
edge time s =
    let bit = record s { time_old = 0; err = 0; rec = s.rec + 1 } in
    if pulse_zero time && pulse_zero s.time_old && pulse_difference time s.time_old
    then record bit { raw = u64 (s.raw * 2) }
    else if pulse_one time && pulse_one s.time_old && pulse_difference time s.time_old
    then record bit { raw = u64 (s.raw * 2) + 1 }
    else if ltb 3 s.err
    then record s { err = 0; rec = 0; time_old = 0; raw = 0 }
    else record s { time_old = time; err = s.err + 1 }

-- ANALOG_COMP_vect, with the counter's value.
unfoldable pub comparator : ℕ → Fs20 → Fs20
unfolding edge
comparator time s = if s.timeout == 0 && ltb s.rec datagram_length then edge time s else s

-- TIMER2_OVF_vect.
unfoldable pub overflow : Fs20 → Fs20
overflow s =
    if not (s.rec == datagram_length) || ltb 0 s.timeout then record s { rec = 0; raw = 0 } else s

-- `fs20_process_timeout`.
unfoldable pub process_timeout : Fs20 → Fs20
process_timeout s = record s { timeout = s.timeout - 1 }

-- `fs20_init`, with the queue zeroed; `time_old` is no part of what is cleared.
unfoldable pub init : Fs20 → Fs20
init s = record {
  raw = 0;
  rec = 0;
  err = 0;
  queue = replicate queue_length (datagram_of 0);
  len = 0;
  timeout = 0;
  time_old = s.time_old;
}

-- `parity_even_bit` of the C library.
module _ (parity_even_bit : ℕ → ℕ) where
  unfoldable pub send_byte : ℕ → List Pulse
  send_byte byte = send_bits 8 byte ++ send_bit (parity_even_bit byte) ∷ []

  -- A command without the pulse and the delay behind it.
  unfoldable pub command_bits : ℕ → ℕ → ℕ → List Pulse
  command_bits housecode address command =
      let hi = housecode / 256 in
      let lo = housecode % 256 in
      send_sync
      ++ (send_byte hi
          ++ (send_byte lo
              ++ (send_byte address
                  ++ (send_byte command ++ send_byte (sum_of hi lo address command)))))

  send_round : ℕ → ℕ → ℕ → List Output
  send_round housecode address command =
      pulses (command_bits housecode address command ++ zero_pulse ∷ []) ∷ delay_cmd ∷ []

  -- `fs20_send`.
  unfoldable pub send : ℕ → ℕ → ℕ → List Output
  unfolding send_round
  send housecode address command =
      let round = send_round housecode address command in round ++ round ++ round

  -- The tests of the parities, where `p ^ q` is 0 for equal bits, and of the sum.
  unfoldable pub is_valid : Datagram → Bool
  is_valid d =
      (parity_even_bit d.hc1 == d.p1)
      && (parity_even_bit d.hc2 == d.p2)
      && (parity_even_bit d.addr == d.p3)
      && (parity_even_bit d.cmd == d.p4)
      && (parity_even_bit d.parity == d.p5)
      && (u8 (6 + (d.hc1 + d.hc2 + d.addr + d.cmd)) == d.parity)

  -- A complete datagram is put in front of the queue, if it is valid.
  unfoldable pub accept : Fs20 → Fs20
  accept s =
      let d = datagram_of s.raw in
      if (d.sync == 1) && is_valid d
      then record s {
        queue = d ∷ take (queue_length - 1) s.queue;
        len = if ltb s.len queue_length then s.len + 1 else s.len;
        timeout = 6;
      }
      else s

  -- `fs20_process`.
  unfoldable pub process : Fs20 → Fs20
  process s =
      let accepted = accept s in
      if s.rec == datagram_length then record accepted { raw = 0; rec = 0 } else s
