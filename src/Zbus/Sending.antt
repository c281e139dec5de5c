-- ===== src/Zbus/Sending.antt =====
-- What the transmit interrupt of firmware/zbus/zbus.c puts on the line.
use matemat.Base.{
  drop-cons, ℕ, zero, suc, ◌+◌, ◌<◌, ◌≡◌, refl, ◌∙◌, true, false, inl, inr, Bool-cases, List, [],
  ◌∷◌, ◌++◌, arith, length, get_or, drop, drop-cons, ◌==◌, if◌then◌else◌,
}
use matemat.Zbus.{
  Bus, receiving, sending, zbus_start, zbus_stop, escape, tx_interrupt, send_data, txstart, rxstart,
}

-- `n` transmit interrupts.
unfoldable pub tx_run : ℕ → Bus → Bus × List ℕ
tx_run zero b = (b, [])
tx_run (suc n) b =
    let (b1, out) = tx_interrupt b in let (b2, rest) = tx_run n b1 in (b2, out ++ rest)

-- A backslash is sent twice.
unfoldable pub escaped : List ℕ → List ℕ
escaped [] = []
escaped (c ∷ s) = if c == escape then escape ∷ escape ∷ escaped s else c ∷ escaped s

abbrev pub stop_sequence : List ℕ
stop_sequence = escape ∷ zbus_stop ∷ []

-- A message on the line.
abbrev pub frame : List ℕ → List ℕ
frame s = escape ∷ zbus_start ∷ (escaped s ++ stop_sequence)

-- Nothing is being sent, and the bus is free.
pub record IsIdle (b : Bus) : Type 0 where
  pub no_escape : b.send_escape_data ≡ 0
  pub free : b.bus_blocked ≡ 0
  pub nothing : b.send_len ≡ 0

-- The sender after its message, which it has sent to the end.
abbrev pub finished : Bus → Bus
finished b = record b {
  send_escape_data = 0;
  bus_blocked = 0;
  send_len = 0;
  send_offset = b.send_len;
  mode = receiving;
  rxtx_pin = false;
}

abbrev moved : Bus → Bus
moved b = record b { send_offset = b.send_offset + 1; bus_blocked = 3 }

-- The interrupts that send the next byte of a message.
tx_interrupt-next :
    (c : ℕ) (b : Bus)
    → b.send_escape_data ≡ 0
    → b.send_offset < b.send_len
    → get_or b.uip_buf (b.send_base + b.send_offset) 0 ≡ c
    → tx_interrupt b ≡ (
      record (moved b) { send_escape_data = if c == escape then escape else 0 },
      (if c == escape then escape else c) ∷ [],
    )
unfolding tx_interrupt
tx_interrupt-next c b e n g = ground arith

pub tx_interrupt-escape :
    (b : Bus)
    → 0 < b.send_escape_data
    → tx_interrupt b ≡ (record b { send_escape_data = 0 }, b.send_escape_data ∷ [])
unfolding tx_interrupt
tx_interrupt-escape b e = ground arith

tx_run-end :
    (b : Bus)
    → b.send_escape_data ≡ 0
    → 0 < b.send_len
    → b.send_offset ≡ b.send_len
    → tx_run 3 b ≡ (finished b, stop_sequence)
unfolding tx_run tx_interrupt rxstart
tx_run-end b e p n = ground arith

pub tx_run-suc :
    (n : ℕ) (b b1 b2 : Bus) (out rest : List ℕ)
    → tx_interrupt b ≡ (b1, out)
    → tx_run n b1 ≡ (b2, rest)
    → tx_run (suc n) b ≡ (b2, out ++ rest)
unfolding tx_run
tx_run-suc n b b1 b2 out rest e h = ground (arith, e, h)

pub tx_run-rest :
    (rest tail : List ℕ) (b : Bus)
    → b.send_escape_data ≡ 0
    → 0 < b.send_len
    → b.send_offset + length rest ≡ b.send_len
    → drop (b.send_base + b.send_offset) b.uip_buf ≡ rest ++ tail
    → tx_run (suc (length (escaped rest ++ stop_sequence))) b
      ≡ (finished b, escaped rest ++ stop_sequence)
unfolding escaped
tx_run-rest [] tail b e p n h = tx_run-end b e p (omega arith)
tx_run-rest (c ∷ rest) tail b e p n h =
    let (g, d) = drop-cons b.uip_buf (b.send_base + b.send_offset) c 0 (rest ++ tail) h in
    let b1 = record (moved b) { send_escape_data = 0 } in
    let at : b.send_base + (b.send_offset + 1) ≡ b.send_base + b.send_offset + 1 = omega arith in
    let ih = tx_run-rest rest tail b1 refl p (omega arith) (rw at d) in
    let next = tx_interrupt-next c b e (omega arith) g in
    let carrying = record b1 { send_escape_data = escape } in
    let again = tx_interrupt-escape carrying (omega arith) in
    elim (Bool-cases (c == escape)) [
      | inl y ↦
          let first : tx_interrupt b ≡ (carrying, escape ∷ []) = next ∙ rw y in
          rw y (tx_run-suc _ b carrying _ _ _ first (tx_run-suc _ carrying b1 _ _ _ again ih))
      | inr n ↦
          let first : tx_interrupt b ≡ (b1, c ∷ []) = next ∙ rw n in
          rw n (tx_run-suc _ b b1 _ _ _ first ih)
    ]

-- An idle bus that is given a message sends it as a frame, in as many transmit interrupts as the
-- frame has bytes, the last of which switches back to receiving; the bus is free afterwards.
pub send_data-frame :
    (base len : ℕ) (s tail : List ℕ) (b : Bus)
    → IsIdle b
    → 0 < length s
    → length s ≡ len
    → drop base b.uip_buf ≡ s ++ tail
    → let (b1, out, accepted) = send_data base len b in
      let (b2, rest) = tx_run (length (frame s)) b1 in
      (accepted ≡ true)
      × (out ++ rest ≡ frame s)
      × (b2 ≡ finished (record b { send_base = base; send_len = len }))
send_data-frame base len s tail b idle some_bytes size at =
    let b0 = record b {
      send_base = base;
      send_len = len;
      send_offset = 0;
      bus_blocked = 3;
      mode = sending;
      rxtx_pin = true;
      send_escape_data = zbus_start;
    } in
    let b1 = record b0 { send_escape_data = 0 } in
    let started : send_data base len b ≡ (b0, escape ∷ [], true) =
      unfold send_data txstart in ground arith in
    let e : base + 0 ≡ base = omega arith in
    let rest = tx_run-rest s tail b1 refl (omega arith) (omega arith) (rw e at) in
    let all = tx_run-suc _ b0 b1 _ _ _ (tx_interrupt-escape b0 (omega arith)) rest in
    rw (started, all) (refl, refl, refl)
