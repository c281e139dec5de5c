-- ===== src/Modbus/Truncated.antt =====
-- The answers that firmware/modbus/modbus.c puts on the line for its client.
use matemat.Base.{
  ℕ, suc, ◌+◌, ◌*◌, ◌≤◌, ◌<◌, ◌≡◌, ◌≢◌, refl, ap, sym, ◌∙◌, true, false, List, [], ◌∷◌, ◌++◌, arith,
  length, take, drop, get_or, take-append-drop, length-take, drop-cons, u8, ◌==◌, ==_iff,
}
use matemat.Base.Int.{pos}
use matemat.Modbus.Client.{Config, read_request, crc_calc, client_process, hold_registers}
use matemat.Modbus.Registers.{IsRequest, read_request-registers, read_request-room}
use matemat.Modbus.{Modbus, current, tx_interrupt, periodic, end_frame, answer_frame, frame_crc}
use matemat.Modbus.Master.{tx_run, tx_interrupt-next, tx_run-suc}

-- The transmitter after the last byte of an answer.
abbrev silent : Modbus → Modbus
silent m = record m { sent = m.len; txcie = false; tx_pin = false }

tx_run-last :
    (m : Modbus) → m.waiting ≡ false → m.crc_len ≡ 0 → m.sent ≡ m.len → tx_run 1 m ≡ (silent m, [])
unfolding tx_run tx_interrupt
tx_run-last m w c s = ground arith

tx_run-plain :
    (rest tail : List ℕ) (m : Modbus)
    → m.waiting ≡ false
    → m.crc_len ≡ 0
    → m.len < 256
    → m.sent + length rest ≡ m.len
    → drop m.sent (current m) ≡ rest ++ tail
    → tx_run (suc (length rest)) m ≡ (silent m, rest)
tx_run-plain [] tail m w c l n h = tx_run-last m w c (omega arith)
tx_run-plain (x ∷ rest) tail m w c l n h =
    let (g, d) = drop-cons (current m) m.sent x 0 (rest ++ tail) h in
    let m1 = record m { sent = m.sent + 1 } in
    let next = tx_interrupt-next x m (omega arith) l g in
    tx_run-suc _ m m1 _ _ _ next (tx_run-plain rest tail m1 w c l (omega arith) d)

split_six :
    (s : List ℕ)
    → 6 ≤ length s
    → (x : ℕ) × (t : List ℕ) × (s ≡ x ∷ (t ++ drop 6 s)) × (length t ≡ 5) × (take 6 s ≡ x ∷ t)
split_six [] h = absurd (omega arith)
split_six (x ∷ s) h = (
  x,
  take 5 s,
  ap (λ t. x ∷ t) (sym (take-append-drop 5 s)),
  omega (arith, length-take 5 s),
  refl,
)

module _ (k : Config) where
  -- A frame for this controller whose checksum is right, at the timer call that ends it.
  pub record IsFrame (m : Modbus) : Type 0 where
    pub idle : m.waiting ≡ false
    pub ended : m.recv_timer ≡ 1
    pub sent_out : m.crc_len ≡ 0
    pub addressed : get_or m.client 0 0 ≡ k.address
    pub size : m.client_len ≡ 8
    pub checked : crc_calc k (take 6 m.client) ≡ get_or m.client 7 0 * 256 + get_or m.client 6 0

  begun : Modbus → Modbus
  begun m =
      let a = client_process k 6 m.holding m.client in
      record m {
        recv_timer = 0;
        holding = a.holding;
        client = a.bytes;
        tx_pin = true;
        on_client = true;
        len = 6;
        sent = 1;
        txcie = true;
        client_len = 0;
      }

  answer_frame-begun :
      (m : Modbus) (n : ℕ)
      → m.client_len ≡ 8
      → (client_process k 6 m.holding m.client).recv_len ≡ pos (suc n)
      → answer_frame k m ≡ (
        record (begun m) { recv_timer = m.recv_timer },
        get_or (client_process k 6 m.holding m.client).bytes 0 0 ∷ [],
      )
  unfolding answer_frame begun
  answer_frame-begun m n size r =
      let e : u8 (m.client_len + 254) ≡ 6 = omega arith in rw (e, r) (ground arith)

  end_frame-answer_frame :
      (m : Modbus)
      → m.client_len ≡ 8
      → get_or m.client 0 0 ≡ k.address
      → crc_calc k (take 6 m.client) ≡ get_or m.client 7 0 * 256 + get_or m.client 6 0
      → end_frame k m ≡ answer_frame k m
  unfolding end_frame frame_crc
  end_frame-answer_frame m size to c =
      let e : u8 (m.client_len + 254) ≡ 6 = omega arith in
      let crc : crc_calc k (take (u8 (m.client_len + 254)) m.client) ≡ frame_crc m =
        rw (e, size, frame_crc) c in
      let same : (crc_calc k (take (u8 (m.client_len + 254)) m.client) == frame_crc m) ≡ true =
        (==_iff _ _).1 crc in
      let mine : (get_or m.client 0 0 == k.address) ≡ true = (==_iff _ _).1 to in rw (same, mine)

  periodic-begun :
      (m : Modbus) (n : ℕ)
      → IsFrame m
      → (client_process k 6 m.holding m.client).recv_len ≡ pos (suc n)
      → periodic k m ≡ (begun m, get_or (client_process k 6 m.holding m.client).bytes 0 0 ∷ [])
  unfolding periodic begun
  periodic-begun m n f r =
      let m0 = record m { recv_timer = 0 } in
      let ends = end_frame-answer_frame m0 f.size f.addressed f.checked in
      let a = answer_frame-begun m0 n f.size r in ground (arith, f.ended, f.idle, ends ∙ a)

  periodic-answer :
      (m : Modbus) (n : ℕ) (x : ℕ) (s tail : List ℕ)
      → IsFrame m
      → (client_process k 6 m.holding m.client).recv_len ≡ pos (suc n)
      → (client_process k 6 m.holding m.client).bytes ≡ x ∷ (s ++ tail)
      → length s ≡ 5
      → let (m1, out) = periodic k m in
        let (m2, rest) = tx_run 6 m1 in (out ++ rest ≡ x ∷ s) × (m2.txcie ≡ false)
  periodic-answer m n x s tail f r b l =
      let e = periodic-begun m n f r in
      let head : get_or (client_process k 6 m.holding m.client).bytes 0 0 ≡ x = rw b in
      let count : suc (length s) ≡ 6 = omega arith in
      let plain : tx_run (suc (length s)) (begun m) ≡ (silent (begun m), s) =
        (let idle : (begun m).waiting ≡ false = unfold begun in f.idle in
          let sent_out : (begun m).crc_len ≡ 0 = unfold begun in f.sent_out in
          let short : (begun m).len < 256 = unfold begun in omega arith in
          let left : (begun m).sent + length s ≡ (begun m).len = unfold begun in omega arith in
          let text : drop (begun m).sent (current (begun m)) ≡ s ++ tail = unfold begun in rw b in
          tx_run-plain s tail (begun m) idle sent_out short left text) in
      let sent : tx_run 6 (begun m) ≡ (silent (begun m), s) = rw count at plain in
      rw (e, head, sent) (refl, refl)

  -- A request from another device to read `n` holding registers, at least one and all in the
  -- table, is answered in memory with `2 n + 5` bytes. But only the first six of them, as many as
  -- the request had without its checksum, are put on the line before the transmitter is switched
  -- off: never the checksum.
  pub read-truncated :
      (m : Modbus) (first n : ℕ)
      → IsFrame m
      → IsRequest 3 first n m.client
      → k.address ≢ k.broadcast
      → first + n ≤ hold_registers
      → 0 < n
      → let answer = client_process k 6 m.holding m.client in
        let (m1, out) = periodic k m in
        let (m2, rest) = tx_run 6 m1 in
        (answer.recv_len ≡ pos (n * 2 + 5))
        × (out ++ rest ≡ take 6 answer.bytes)
        × (m2.txcie ≡ false)
  read-truncated m first n f r other fits p =
      let a = client_process k 6 m.holding m.client in
      let is_read : a ≡ read_request k m.holding m.client = unfold client_process in rw r.code in
      let spec = read_request-registers k m.holding m.client first n 0 r other fits p in
      let count : a.recv_len ≡ pos (suc (n * 2 + 4)) = rw is_read (spec.1 ∙ ap pos (omega arith)) in
      let size : 6 ≤ length a.bytes =
        rw is_read (read_request-room k m.holding m.client first n r fits) in
      let (x, s, b, l, t) = split_six a.bytes size in
      let got = periodic-answer m (n * 2 + 4) x s (drop 6 a.bytes) f count b l in
      (count ∙ ap pos (omega arith), got.0 ∙ sym t, got.1)
