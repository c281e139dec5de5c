-- ===== src/Modbus/Tests.antt =====
-- Concrete frames on the Modbus line.
use matemat.Base.{
  ℕ, ◌+◌, ◌*◌, ◌%◌, ◌≡◌, refl, true, false, List, [], ◌∷◌, ◌++◌, arith, take, replicate, ◌/◌,
}
use matemat.Base.Int.{pos}
use matemat.Modbus.Client.{
  Config, crc_calc, client_process, initial_holding, word_at, send_error, send_message,
}
use matemat.Modbus.Registers.{client_process-write_read}
use matemat.Modbus.{Modbus, rxstart, periodic}
use matemat.Modbus.Master.{tx_run, crc_bytes}
use matemat.Modbus.Exchange.{exchange, tx_paused, rx_paused, timer_run, bytes}
use matemat.Modbus.Truncated.{read-truncated}

-- Device 1, broadcasts to 0, and a checksum in place of `_crc16_update` of the C library.
abbrev config : Config
config = record { address = 1; broadcast = 0; crc16_update = λ crc c. (crc * 3 + c) % 65536 }

-- Register 5 is set to 0x0102, then registers 4 and 5 are read.
abbrev write_five : List ℕ
write_five = 1 ∷ 6 ∷ 0 ∷ 5 ∷ 1 ∷ 2 ∷ replicate 94 0

abbrev read_two : List ℕ
read_two = 1 ∷ 3 ∷ 0 ∷ 4 ∷ 0 ∷ 2 ∷ replicate 94 0

client_process-write_read_example :
    let written = client_process config 6 initial_holding write_five in
    let read = client_process config 6 written.holding read_two in
    (word_at read.bytes 5 ≡ 258) × (read.recv_len ≡ pos 9)
client_process-write_read_example =
    client_process-write_read config 6 6 initial_holding write_five read_two 5 258 4 2 1 refl
      (ground arith) (record { room = omega arith; code = refl; pointer = refl; number = refl })
      (record { room = omega arith; code = refl; pointer = refl; number = refl }) (omega arith)
      (omega arith) (omega arith)

abbrev quiet : Modbus
quiet = record {
  holding = initial_holding;
  client = replicate 100 0;
  client_len = 0;
  buffer = [];
  on_client = true;
  sent = 0;
  len = 0;
  crc = 0;
  crc_len = 0;
  recv_timer = 0;
  waiting = false;
  recv_len = pos 0;
  txcie = false;
  tx_pin = false;
}

-- A request to device 7.
abbrev request : List ℕ
request = 7 ∷ 3 ∷ 0 ∷ 0 ∷ 0 ∷ 1 ∷ []

-- Its answer, each byte with the timer calls before it.
abbrev device_reply : List (ℕ × ℕ)
device_reply = (3, 7) ∷ (1, 3) ∷ (0, 2) ∷ (1, 0) ∷ (0, 9) ∷ (0, 10) ∷ (1, 11) ∷ []

abbrev pauses : List ℕ
pauses = 1 ∷ 0 ∷ 2 ∷ 0 ∷ 0 ∷ 1 ∷ 0 ∷ 0 ∷ []

exchange_example :
    let (m1, out, started) = rxstart config (request ++ replicate 94 0) 6 quiet in
    let (m2, rest) = tx_paused config pauses m1 in
    let m4 = timer_run config 2 (rx_paused config device_reply m2) in
    (started ≡ true)
    × (out ++ rest ≡ request ++ crc_bytes (crc_calc config request))
    × (m4.recv_len ≡ pos 7)
    × (take 7 m4.buffer ≡ bytes device_reply)
    × (m4.waiting ≡ false)
    × (m4.tx_pin ≡ false)
exchange_example =
    exchange config request (replicate 94 0) pauses device_reply quiet refl refl (ground arith)
      (ground arith) (omega arith) (omega arith) (omega arith) refl (omega arith) (omega arith)
      (
        omega arith,
        (
          omega arith,
          (omega arith, (omega arith, (omega arith, (omega arith, (omega arith, tt))))),
        ),
      )

-- The frame that asks for registers 4 and 5, with its checksum.
abbrev asked : Modbus
asked = record quiet {
  client =
      1
      ∷ 3
      ∷ 0
      ∷ 4
      ∷ 0
      ∷ 2
      ∷ (crc_calc config (1 ∷ 3 ∷ 0 ∷ 4 ∷ 0 ∷ 2 ∷ []) % 256)
      ∷ (crc_calc config (1 ∷ 3 ∷ 0 ∷ 4 ∷ 0 ∷ 2 ∷ []) / 256)
      ∷ replicate 92 0;
  client_len = 8;
  recv_timer = 1;
}

read-truncated_example :
    let answer = client_process config 6 asked.holding asked.client in
    let (m1, out) = periodic config asked in
    let (m2, rest) = tx_run 6 m1 in
    (answer.recv_len ≡ pos 9) × (out ++ rest ≡ take 6 answer.bytes) × (m2.txcie ≡ false)
read-truncated_example =
    read-truncated config asked 4 2
      (record {
        idle = refl;
        ended = refl;
        sent_out = refl;
        addressed = refl;
        size = refl;
        checked = unfold crc_calc in refl;
      })
      (record { room = omega arith; code = refl; pointer = refl; number = refl }) (ground arith)
      (omega arith) (omega arith)

-- An unknown function code is answered with an exception.
exception :
    take 5 (client_process config 6 initial_holding (1 ∷ 9 ∷ replicate 98 0)).bytes
    ≡ 1
      ∷ 137
      ∷ 1
      ∷ (crc_calc config (1 ∷ 137 ∷ 1 ∷ []) % 256)
      ∷ (crc_calc config (1 ∷ 137 ∷ 1 ∷ []) / 256)
      ∷ []
unfolding client_process send_error send_message crc_calc
exception = refl
