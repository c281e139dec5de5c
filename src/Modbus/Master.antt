-- ===== src/Modbus/Master.antt =====
-- A request of firmware/modbus/modbus.c to another device, and the other's answer.
use native.Mathlib.Nat.{add-zero}
use matemat.Base.{
  ap, refl, ltb, if◌then◌else◌, drop-cons, ℕ, zero, suc, ◌+◌, ◌/◌, ◌%◌, ◌<◌, ◌≡◌, true, false, List,
  [], ◌∷◌, ◌++◌, arith, length, drop, get_or, ◌≤◌, ◌≢◌, take, append-nil, append_assoc,
  take-set_end, set, length-set,
}
use native.Mathlib.Numerals.{add-one}
use matemat.Base.Int.{pos}
use matemat.Modbus.Client.{Config, crc_calc}
use matemat.Modbus.{Modbus, current, tx_interrupt, rx_interrupt, buffer_len, rxstart, periodic}

-- `n` transmit interrupts.
unfoldable pub tx_run : ℕ → Modbus → Modbus × List ℕ
tx_run zero m = (m, [])
tx_run (suc n) m =
    let (m1, out) = tx_interrupt m in let (m2, rest) = tx_run n m1 in (m2, out ++ rest)

-- Bytes received without an error.
unfoldable pub rx_run : List ℕ → Modbus → Modbus
rx_run [] m = m
rx_run (c ∷ s) m = rx_run s (rx_interrupt false c m)

-- The checksum on the line, the low byte first.
abbrev pub crc_bytes : ℕ → List ℕ
crc_bytes crc = (crc % 256) ∷ (crc / 256 % 256) ∷ []

-- The transmitter after the checksum, waiting for an answer.
abbrev pub expecting : Modbus → Modbus
expecting m = record m {
  sent = m.len;
  crc_len = 0;
  txcie = false;
  tx_pin = false;
  len = 0;
  recv_timer = 4;
}

pub tx_interrupt-next :
    (c : ℕ) (m : Modbus)
    → m.sent < m.len
    → m.len < 256
    → get_or (current m) m.sent 0 ≡ c
    → tx_interrupt m ≡ (record m { sent = m.sent + 1 }, c ∷ [])
unfolding tx_interrupt
tx_interrupt-next c m h l g = ground arith

tx_run-end :
    (m : Modbus)
    → m.waiting ≡ true
    → m.crc_len ≡ 2
    → m.sent ≡ m.len
    → tx_run 3 m ≡ (expecting m, crc_bytes m.crc)
unfolding tx_run tx_interrupt
tx_run-end m w c s = ground arith

pub tx_run-suc :
    (n : ℕ) (m m1 m2 : Modbus) (out rest : List ℕ)
    → tx_interrupt m ≡ (m1, out)
    → tx_run n m1 ≡ (m2, rest)
    → tx_run (suc n) m ≡ (m2, out ++ rest)
unfolding tx_run
tx_run-suc n m m1 m2 out rest e h = ground (arith, e, h)

pub tx_run-rest :
    (rest tail : List ℕ) (m : Modbus)
    → m.waiting ≡ true
    → m.crc_len ≡ 2
    → m.len < 256
    → m.sent + length rest ≡ m.len
    → drop m.sent (current m) ≡ rest ++ tail
    → tx_run (suc (length (rest ++ crc_bytes m.crc))) m ≡ (expecting m, rest ++ crc_bytes m.crc)
tx_run-rest [] tail m w c l n h = tx_run-end m w c (omega arith)
tx_run-rest (x ∷ rest) tail m w c l n h =
    let (g, d) = drop-cons (current m) m.sent x 0 (rest ++ tail) h in
    let m1 = record m { sent = m.sent + 1 } in
    let next = tx_interrupt-next x m (omega arith) l g in
    tx_run-suc _ m m1 _ _ _ next (tx_run-rest rest tail m1 w c l (omega arith) d)

pub rx_run-suc :
    (c : ℕ) (s : List ℕ) (m m1 : Modbus)
    → rx_interrupt false c m ≡ m1
    → rx_run (c ∷ s) m ≡ rx_run s m1
unfolding rx_run
rx_run-suc c s m m1 e = ap (rx_run s) e

pub rx_run-fields :
    (s : List ℕ) (m : Modbus)
    → m.waiting ≡ true
    → m.on_client ≡ false
    → m.len + length s ≤ buffer_len
    → buffer_len ≤ length m.buffer
    → let m' = rx_run s m in
      (m'.len ≡ m.len + length s)
      × (take (m.len + length s) m'.buffer ≡ take m.len m.buffer ++ s)
      × (m'.waiting ≡ true)
      × (m'.recv_timer ≡ (if ltb 0 (length s) then 2 else m.recv_timer))
      × (m'.tx_pin ≡ m.tx_pin)
rx_run-fields [] m w o n room =
    unfold rx_run in (omega arith, rw (add-zero, append-nil), w, refl, refl)
rx_run-fields (c ∷ s) m w o n room =
    let m1 = record m { buffer = set m.buffer m.len c; len = m.len + 1; recv_timer = 2 } in
    let e : rx_interrupt false c m ≡ m1 = unfold rx_interrupt in ground arith in
    let size = length-set m.buffer m.len c in
    let shift : m.len + suc (length s) ≡ m.len + 1 + length s = omega arith in
    let ih = rx_run-fields s m1 w o (omega arith) (omega (arith, size)) in
    let timer : (rx_run s m1).recv_timer ≡ 2 = ground (arith, ih.3) in
    rw (rx_run-suc c s m m1 e, shift)
      (
        ih.0,
        rw (ih.1, add-one, take-set_end m.buffer m.len c (omega arith), append_assoc),
        ih.2,
        ground (arith, timer),
        ih.4,
      )

module _ (k : Config) where
  pub rxstart-begun :
      (request : List ℕ) (length' : ℕ) (m : Modbus)
      → m.crc_len ≡ 0
      → get_or request 0 0 ≢ k.address
      → get_or request 0 0 ≢ k.broadcast
      → rxstart k request length' m ≡ (
        record m {
          tx_pin = true;
          waiting = true;
          crc = crc_calc k (take length' request);
          crc_len = 2;
          buffer = request;
          on_client = false;
          len = length';
          sent = 1;
          txcie = true;
        },
        get_or request 0 0 ∷ [],
        true,
      )
  unfolding rxstart
  rxstart-begun request n m c a b = ground arith

  pub periodic_twice :
      (m : Modbus)
      → m.waiting ≡ true
      → m.recv_timer ≡ 2
      → 2 ≤ m.len
      → (periodic k (periodic k m).0).0
        ≡ record m { recv_timer = 0; recv_len = pos m.len; waiting = false }
  unfolding periodic
  periodic_twice m w t l = ground arith
