-- ===== src/Modbus/Exchange.antt =====
-- A request of firmware/modbus/modbus.c and its answer, with calls of the timer between the interrupts.
use matemat.Base.{
  ap, refl, take-length_append, drop-cons, sym, ℕ, zero, suc, ◌+◌, ◌/◌, ◌%◌, ◌<◌, ◌≡◌, ◌==◌, ==_iff,
  ◌-◌, true, false, List, [], ◌∷◌, ◌++◌, arith, length, drop, get_or, ◌≤◌, ◌≢◌, take, ◌∙◌, set,
}
use matemat.Base.Int.{pos}
use matemat.Modbus.Client.{Config, crc_calc}
use matemat.Modbus.{Modbus, current, tx_interrupt, rx_interrupt, buffer_len, rxstart, periodic}
use matemat.Modbus.Master.{
  rx_run, crc_bytes, expecting, tx_interrupt-next, rx_run-suc, rx_run-fields, rxstart-begun,
  periodic_twice,
}

-- Fewer calls of the timer before each byte than its count, which a byte sets to 2.
abbrev pub Prompt : ℕ → List (ℕ × ℕ) → Type 0
Prompt t [] = Unit
Prompt t ((n, c) ∷ s) = (n < t) × Prompt 2 s

abbrev pub bytes : List (ℕ × ℕ) → List ℕ
bytes [] = []
bytes ((n, c) ∷ s) = c ∷ bytes s

rx_next :
    (c : ℕ) (m : Modbus)
    → m.waiting ≡ true
    → m.on_client ≡ false
    → m.len < buffer_len
    → rx_interrupt false c m
      ≡ record m { buffer = set m.buffer m.len c; len = m.len + 1; recv_timer = 2 }
unfolding rx_interrupt
rx_next c m w o n = ground arith

module _ (k : Config) where
  stopped : (m : Modbus) → (m.recv_timer == 0) ≡ true → (periodic k m).0 ≡ m
  unfolding periodic
  stopped m e = ground (arith, e)

  one_call :
      (m : Modbus)
      → m.waiting ≡ true
      → 1 < m.recv_timer
      → (periodic k m).0 ≡ record m { recv_timer = m.recv_timer - 1 }
  unfolding periodic
  one_call m w h = ground (arith, w)

  -- `n` calls of the timer.
  unfoldable pub timer_run : ℕ → Modbus → Modbus
  timer_run zero m = m
  timer_run (suc n) m = timer_run n (periodic k m).0

  -- Transmit interrupts, each behind a number of timer calls.
  unfoldable pub tx_paused : List ℕ → Modbus → Modbus × List ℕ
  tx_paused [] m = (m, [])
  tx_paused (n ∷ ns) m =
      let (m1, out) = tx_interrupt (timer_run n m) in
      let (m2, rest) = tx_paused ns m1 in (m2, out ++ rest)

  -- Bytes received, each behind a number of timer calls.
  unfoldable pub rx_paused : List (ℕ × ℕ) → Modbus → Modbus
  rx_paused [] m = m
  rx_paused ((n, c) ∷ s) m = rx_paused s (rx_interrupt false c (timer_run n m))

  timer_run-stopped : (n : ℕ) (m : Modbus) → m.recv_timer ≡ 0 → timer_run n m ≡ m
  unfolding timer_run periodic
  timer_run-stopped zero m h = refl
  timer_run-stopped (suc n) m h =
      let e : (m.recv_timer == 0) ≡ true = (==_iff _ _).1 h in
      ap (timer_run n) (stopped m e) ∙ timer_run-stopped n m h

  timer_run-waiting :
      (n : ℕ) (m : Modbus)
      → m.waiting ≡ true
      → n < m.recv_timer
      → timer_run n m ≡ record m { recv_timer = m.recv_timer - n }
  unfolding timer_run
  timer_run-waiting zero m w h =
      let e : m.recv_timer ≡ m.recv_timer - 0 = omega arith in
      ap (λ (n : ℕ). record m { recv_timer = n }) e
  timer_run-waiting (suc n) m w h =
      let m1 = record m { recv_timer = m.recv_timer - 1 } in
      let e : m.recv_timer - 1 - n ≡ m.recv_timer - suc n = omega arith in
      ap (timer_run n) (one_call m w (omega arith))
      ∙ (timer_run-waiting n m1 w (omega arith) ∙ ap (λ (n : ℕ). record m { recv_timer = n }) e)

  tx_paused-nil : (m : Modbus) → tx_paused [] m ≡ (m, [])
  unfolding tx_paused
  tx_paused-nil m = refl

  tx_paused-cons :
      (n : ℕ) (ns : List ℕ) (m m1 m2 : Modbus) (out rest : List ℕ)
      → m.recv_timer ≡ 0
      → tx_interrupt m ≡ (m1, out)
      → tx_paused ns m1 ≡ (m2, rest)
      → tx_paused (n ∷ ns) m ≡ (m2, out ++ rest)
  unfolding tx_paused
  tx_paused-cons n ns m m1 m2 out rest z e h = rw (timer_run-stopped n m z, e, h) refl

  tx_paused-end :
      (ns : List ℕ) (m : Modbus)
      → m.waiting ≡ true
      → m.recv_timer ≡ 0
      → m.crc_len ≡ 2
      → m.sent ≡ m.len
      → length ns ≡ 3
      → tx_paused ns m ≡ (expecting m, crc_bytes m.crc)
  tx_paused-end [] m w z c s l = absurd (omega arith)
  tx_paused-end (_ ∷ []) m w z c s l = absurd (omega arith)
  tx_paused-end (_ ∷ _ ∷ []) m w z c s l = absurd (omega arith)
  tx_paused-end (_ ∷ _ ∷ _ ∷ _ ∷ ns) m w z c s l = absurd (omega arith)
  tx_paused-end (n1 ∷ n2 ∷ n3 ∷ []) m w z c s l =
      let m1 = record m { crc_len = 1 } in
      let m2 = record m { crc_len = 0 } in
      let e1 : tx_interrupt m ≡ (m1, (m.crc % 256) ∷ []) = unfold tx_interrupt in ground arith in
      let e2 : tx_interrupt m1 ≡ (m2, (m.crc / 256 % 256) ∷ []) =
        unfold tx_interrupt in ground arith in
      let e3 : tx_interrupt m2 ≡ (expecting m, []) = unfold tx_interrupt in ground arith in
      tx_paused-cons n1 _ m m1 _ _ _ z e1 (
        tx_paused-cons n2 _ m1 m2 _ _ _ z e2 (
          tx_paused-cons n3 [] m2 (expecting m) (expecting m) [] [] z e3
            (tx_paused-nil (expecting m))))

  tx_paused-rest :
      (ns rest tail : List ℕ) (m : Modbus)
      → m.waiting ≡ true
      → m.recv_timer ≡ 0
      → m.crc_len ≡ 2
      → m.len < 256
      → m.sent + length rest ≡ m.len
      → drop m.sent (current m) ≡ rest ++ tail
      → length ns ≡ 3 + length rest
      → tx_paused ns m ≡ (expecting m, rest ++ crc_bytes m.crc)
  tx_paused-rest ns [] tail m w z c l n h len = tx_paused-end ns m w z c (omega arith) (omega arith)
  tx_paused-rest [] (x ∷ rest) tail m w z c l n h len = absurd (omega arith)
  tx_paused-rest (p ∷ ns) (x ∷ rest) tail m w z c l n h len =
      let (g, d) = drop-cons (current m) m.sent x 0 (rest ++ tail) h in
      let m1 = record m { sent = m.sent + 1 } in
      let next = tx_interrupt-next x m (omega arith) l g in
      tx_paused-cons p ns m m1 _ _ _ z next
        (tx_paused-rest ns rest tail m1 w z c l (omega arith) d (omega arith))

  rx_paused-cons :
      (n c : ℕ) (s : List (ℕ × ℕ)) (m late m1 : Modbus)
      → timer_run n m ≡ late
      → rx_interrupt false c late ≡ m1
      → rx_paused ((n, c) ∷ s) m ≡ rx_paused s m1
  unfolding rx_paused
  rx_paused-cons n c s m late m1 e h =
      ap (λ (u : Modbus). rx_paused s u) (ap (rx_interrupt false c) e ∙ h)

  rx_paused-run :
      (s : List (ℕ × ℕ)) (m : Modbus)
      → m.waiting ≡ true
      → m.on_client ≡ false
      → m.len + length (bytes s) ≤ buffer_len
      → Prompt m.recv_timer s
      → rx_paused s m ≡ rx_run (bytes s) m
  rx_paused-run [] m w o n h = unfold rx_paused rx_run in refl
  rx_paused-run ((p, c) ∷ s) m w o n (h, rest) =
      let m1 = record m { buffer = set m.buffer m.len c; len = m.len + 1; recv_timer = 2 } in
      let late = record m { recv_timer = m.recv_timer - p } in
      let ih = rx_paused-run s m1 w o (omega arith) rest in
      rx_paused-cons p c s m late m1 (timer_run-waiting p m w h) (rx_next c late w o (omega arith))
      ∙ (ih ∙ sym (rx_run-suc c (bytes s) m m1 (rx_next c m w o (omega arith))))

  -- A request to another device, in an array of at least 100 bytes, begun while no other is sent and
  -- the timer stands: the transmit interrupts, one for each byte and a last one, each behind any number
  -- of timer calls, put exactly the request and its checksum on the line, the low byte first. If the
  -- device then answers with 2 to 100 bytes, the first behind at most three timer calls and each later
  -- one behind at most one, and falls silent, two timer calls later the caller finds their number, and
  -- the bytes in its array. Nothing is received while the request is sent.
  pub exchange :
      (s tail pauses : List ℕ) (answer : List (ℕ × ℕ)) (m : Modbus)
      → m.crc_len ≡ 0
      → m.recv_timer ≡ 0
      → get_or s 0 0 ≢ k.address
      → get_or s 0 0 ≢ k.broadcast
      → 0 < length s
      → length s < 256
      → buffer_len ≤ length (s ++ tail)
      → length pauses ≡ length s + 2
      → 2 ≤ length (bytes answer)
      → length (bytes answer) ≤ buffer_len
      → Prompt 4 answer
      → let (m1, out, started) = rxstart k (s ++ tail) (length s) m in
        let (m2, rest) = tx_paused pauses m1 in
        let m3 = rx_paused answer m2 in
        let m4 = timer_run 2 m3 in
        (started ≡ true)
        × (out ++ rest ≡ s ++ crc_bytes (crc_calc k s))
        × (m4.recv_len ≡ pos (length (bytes answer)))
        × (take (length (bytes answer)) m4.buffer ≡ bytes answer)
        × (m4.waiting ≡ false)
        × (m4.tx_pin ≡ false)
  unfolding timer_run
  exchange [] tail pauses answer m c z a b p l room np two fits prompt = absurd (omega arith)
  exchange (x ∷ s) tail pauses answer m c z a b p l room np two fits prompt =
      let request = x ∷ (s ++ tail) in
      let crc' = crc_calc k (x ∷ s) in
      let m1 = record m {
        tx_pin = true;
        waiting = true;
        crc = crc';
        crc_len = 2;
        buffer = request;
        on_client = false;
        len = suc (length s);
        sent = 1;
        txcie = true;
      } in
      let begun : rxstart k request (suc (length s)) m ≡ (m1, x ∷ [], true) =
        rxstart-begun k request (suc (length s)) m c a b ∙ rw (take-length_append s tail) in
      let sent =
        tx_paused-rest pauses s tail m1 refl z refl (omega arith) (omega arith) refl
          (omega arith) in
      let m2 = expecting m1 in
      let heard = rx_paused-run answer m2 refl refl (omega arith) prompt in
      let f = rx_run-fields (bytes answer) m2 refl refl (omega arith) (omega arith) in
      let m3 = rx_run (bytes answer) m2 in
      let timer : m3.recv_timer ≡ 2 = ground (arith, f.3) in
      let done = periodic_twice k m3 f.2 timer (omega (arith, f.0)) in
      let count : m3.len ≡ length (bytes answer) = omega (arith, f.0) in
      let text : take (length (bytes answer)) m3.buffer ≡ bytes answer =
        (let e : 0 + length (bytes answer) ≡ length (bytes answer) = omega arith in rw e at f.1) in
      rw (begun, sent, heard, done, count) (refl, refl, refl, text, refl, f.4)
