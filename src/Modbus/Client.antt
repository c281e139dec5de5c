-- ===== src/Modbus/Client.antt =====
-- firmware/modbus/modbus_client.c and modbus_client_cb.c: the answers of the controller as a Modbus
-- client, from its holding registers.
use matemat.Base.{
  ℕ, zero, suc, ◌+◌, ◌*◌, ◌/◌, ◌%◌, ◌||◌, List, [], ◌∷◌, ◌++◌, ltb, leb, ◌==◌, if◌then◌else◌, u8,
  set, get_or, take, drop,
}
use matemat.Base.Int.{ℤ, pos, negsuc}

-- MODBUS_HOLD_REGISTERS and MODBUS_INPUT_REGISTERS.
abbrev pub hold_registers : ℕ
hold_registers = 11

abbrev pub input_registers : ℕ
input_registers = 7

abbrev pub initial_holding : List ℕ
initial_holding = 0x2342 ∷ 0xf0f0 ∷ 0xdead ∷ 0xbeef ∷ 0 ∷ 0 ∷ 0 ∷ 0 ∷ 0 ∷ 0 ∷ 0 ∷ []

unfoldable pub read_holding : List ℕ → ℕ → ℕ
read_holding holding address = get_or holding address 0

unfoldable pub write_holding : List ℕ → ℕ → ℕ → List ℕ
write_holding holding address value = set holding address value

abbrev pub read_input : ℕ → ℕ
read_input address = 0xf0f0

-- `ntohs` of the two bytes at an index.
abbrev pub word_at : List ℕ → ℕ → ℕ
word_at s i = get_or s i 0 * 256 + get_or s (i + 1) 0

-- MODBUS_ADDRESS and MODBUS_BROADCAST of the configuration, and `_crc16_update` of the C library.
pub record Config : Type 0 where
  pub address : ℕ
  pub broadcast : ℕ
  pub crc16_update : ℕ → ℕ → ℕ

-- `modbus_crc_calc` over the bytes that it reads.
crc_loop : Config → ℕ → List ℕ → ℕ
crc_loop k crc [] = crc
crc_loop k crc (c ∷ s) = crc_loop k (k.crc16_update crc c) s

unfoldable pub crc_calc : Config → List ℕ → ℕ
unfolding crc_loop
crc_calc k s = crc_loop k 0xffff s

-- The bytes in memory, the registers, and `*recv_len`.
pub record Answer : Type 0 where
  pub bytes : List ℕ
  pub holding : List ℕ
  pub recv_len : ℤ

-- The loop that reads `n` registers from `address` on.
unfoldable pub read_registers : (ℕ → ℕ) → ℕ → ℕ → List ℕ
read_registers reg address zero = []
read_registers reg address (suc n) =
    (reg address / 256) ∷ (reg address % 256) ∷ read_registers reg (address + 1) n

-- The loop that writes `n` registers from `address` on, from the words at the index `i` on.
unfoldable pub write_registers : List ℕ → List ℕ → ℕ → ℕ → ℕ → List ℕ
write_registers s holding address i zero = holding
write_registers s holding address i (suc n) =
    write_registers s (write_holding holding address (word_at s i)) (address + 1) (i + 2) n

-- From the label `send_message` on, with `n` bytes of an answer.
unfoldable pub send_message : Config → ℕ → List ℕ → List ℕ → Answer
send_message k n holding s =
    let crc = crc_calc k (take n s) in
    if get_or s 0 0 == k.broadcast
    then record { bytes = s; holding = holding; recv_len = negsuc 0 }
    else record {
      bytes = set (set s n (crc % 256)) (n + 1) (crc / 256 % 256);
      holding = holding;
      recv_len = pos (n + 2);
    }

-- From the label `send_error` on, with the code that stands in `data[2]`; `| 0x80` sets bit 7.
unfoldable pub send_error : Config → ℕ → List ℕ → List ℕ → Answer
send_error k code holding s =
    let cmd = get_or s 1 0 in
    let failed = if ltb cmd 128 then cmd + 128 else cmd in
    send_message k 3 holding (set (set (set s 2 code) 0 k.address) 1 failed)

-- Function codes 3 and 4. The address and the count are bytes.
unfoldable pub read_request : Config → List ℕ → List ℕ → Answer
read_request k holding s =
    let is_holding = get_or s 1 0 == 3 in
    let ptr = u8 (word_at s 2) in
    let len = u8 (word_at s 4) in
    let reg = if is_holding then read_holding holding else read_input in
    let answer = k.address ∷ get_or s 1 0 ∷ u8 (len * 2) ∷ read_registers reg ptr len in
    let n = u8 (len * 2) + 3 in
    if ltb (if is_holding then hold_registers else input_registers) (ptr + len)
    then send_error k 2 holding s
    else send_message k n holding (take n answer ++ drop n s)

-- Function code 6: the request is echoed.
unfoldable pub write_request : Config → ℕ → List ℕ → List ℕ → Answer
write_request k length holding s =
    if leb hold_registers (word_at s 2)
    then send_error k 2 holding s
    else send_message k length (write_holding holding (word_at s 2) (word_at s 4)) s

-- Function code 16.
unfoldable pub xwrite_request : Config → List ℕ → List ℕ → Answer
xwrite_request k holding s =
    let ptr = u8 (word_at s 2) in
    let len = u8 (word_at s 4) in
    let written = write_registers s holding ptr 7 len in
    let answer = k.address ∷ 0x10 ∷ 0 ∷ ptr ∷ 0 ∷ len ∷ drop 6 s in
    if leb hold_registers (ptr + len)
    then send_error k 2 holding s
    else send_message k 6 written answer

-- `modbus_client_process` on the bytes at `data`, of which `length` were received.
unfoldable pub client_process : Config → ℕ → List ℕ → List ℕ → Answer
client_process k length holding s =
    let cmd = get_or s 1 0 in
    if cmd == 3 || cmd == 4
    then read_request k holding s
    else if cmd == 6
    then write_request k length holding s
    else if cmd == 16
    then xwrite_request k holding s
    else send_error k 1 holding s
