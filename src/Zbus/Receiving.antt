-- ===== src/Zbus/Receiving.antt =====
-- What the receive interrupt of firmware/zbus/zbus.c collects from a frame.
use matemat.Base.{
  ℕ, suc, ◌+◌, ◌<◌, ◌≤◌, ◌≡◌, refl, sym, ap, ◌∙◌, false, inl, inr, Bool-cases, some, List, [], ◌∷◌,
  ◌++◌, arith, length, set, take, ◌==◌, ==_iff, if◌then◌else◌, append_assoc, append-nil, length-set,
  take-set_end,
}
use native.Mathlib.Nat.{add-zero}
use native.Mathlib.Numerals.{add-one}
use matemat.Zbus.{
  Build, Bus, off, escape, zbus_start, zbus_stop, recv_memory, rx_interrupt, append_data, rxfinish,
  stop_condition,
}
use matemat.Zbus.Sending.{escaped, frame}

-- Bytes received without an error.
unfoldable pub rx_run : Build → List ℕ → Bus → Bus × List ℕ
rx_run o [] b = (b, [])
rx_run o (c ∷ s) b =
    let (b1, out) = rx_interrupt o false c b in let (b2, rest) = rx_run o s b1 in (b2, out ++ rest)

-- No message waits to be read or sent, and the buffer has its size.
pub record IsReady (o : Build) (b : Bus) : Type 0 where
  pub unread : b.recv_len ≡ 0
  pub plain : b.recv_escape_data ≡ false
  pub unsent : b.send_len ≡ 0
  pub room : o.recv_size ≤ length (recv_memory o b)

-- A byte taken into the buffer.
push : Build → ℕ → Bus → Bus
push o c b =
    let next = record b { recv_offset = b.recv_offset + 1 } in
    if o.shared
    then record next { uip_buf = set b.uip_buf b.recv_offset c }
    else record next { recv_buffer = set b.recv_buffer b.recv_offset c }

push_all : Build → List ℕ → Bus → Bus
push_all o [] b = b
push_all o (c ∷ s) b = push_all o s (push o c b)

push_fields :
    (o : Build) (c : ℕ) (b : Bus)
    → let b' = push o c b in
      (b'.recv_offset ≡ b.recv_offset + 1)
      × (recv_memory o b' ≡ set (recv_memory o b) b.recv_offset c)
      × (b'.recv_len ≡ b.recv_len)
      × (b'.recv_escape_data ≡ b.recv_escape_data)
      × (b'.bus_blocked ≡ b.bus_blocked)
      × (b'.send_len ≡ b.send_len)
unfolding push
push_fields o c b = ground arith

rx_run-plain :
    (o : Build) (c : ℕ) (b : Bus) (s : List ℕ)
    → b.recv_len ≡ 0
    → b.recv_escape_data ≡ false
    → 0 < b.bus_blocked
    → b.recv_offset < o.recv_size
    → (c == escape) ≡ false
    → rx_run o (c ∷ s) b ≡ rx_run o s (push o c b)
unfolding rx_run rx_interrupt append_data push
rx_run-plain o c b s r e k f n = ground arith

rx_run-escape :
    (o : Build) (b : Bus) (s : List ℕ)
    → b.recv_len ≡ 0
    → b.recv_escape_data ≡ false
    → 0 < b.bus_blocked
    → b.recv_offset < o.recv_size
    → rx_run o (escape ∷ escape ∷ s) b ≡ rx_run o s (push o escape b)
unfolding rx_run rx_interrupt append_data push
rx_run-escape o b s r e k f = ground arith

rx_run-escaped :
    (o : Build) (s rest : List ℕ) (b : Bus)
    → b.recv_len ≡ 0
    → b.recv_escape_data ≡ false
    → 0 < b.bus_blocked
    → b.recv_offset + length s ≤ o.recv_size
    → rx_run o (escaped s ++ rest) b ≡ rx_run o rest (push_all o s b)
unfolding escaped push_all
rx_run-escaped o [] rest b r e k f = refl
rx_run-escaped o (c ∷ s) rest b r e k f =
    let p = push_fields o c b in
    let ih =
      rx_run-escaped o s rest (push o c b) (p.2 ∙ r) (p.3 ∙ e) (omega (arith, p))
        (omega (arith, p)) in
    elim (Bool-cases (c == escape)) [
      | inl y ↦
          let same =
            ap (λ k. rx_run o (escaped s ++ rest) (push o k b)) (sym ((==_iff c escape).0 y)) in
          rw y (rx_run-escape o b (escaped s ++ rest) r e k (omega arith) ∙ same ∙ ih)
      | inr n ↦ rw n (rx_run-plain o c b (escaped s ++ rest) r e k (omega arith) n ∙ ih)
    ]

push_all_fields :
    (o : Build) (s : List ℕ) (b : Bus)
    → b.recv_offset + length s ≤ length (recv_memory o b)
    → let b' = push_all o s b in
      (b'.recv_offset ≡ b.recv_offset + length s)
      × (take (b.recv_offset + length s) (recv_memory o b')
          ≡ take b.recv_offset (recv_memory o b) ++ s)
      × (b'.recv_len ≡ b.recv_len)
      × (b'.recv_escape_data ≡ b.recv_escape_data)
      × (b'.bus_blocked ≡ b.bus_blocked)
      × (b'.send_len ≡ b.send_len)
unfolding push_all
push_all_fields o [] b fits = (omega arith, rw (add-zero, append-nil), refl, refl, refl, refl)
push_all_fields o (c ∷ s) b fits =
    let p = push_fields o c b in
    let size : length (recv_memory o (push o c b)) ≡ length (recv_memory o b) =
      ap length p.1 ∙ length-set (recv_memory o b) b.recv_offset c in
    let ih = push_all_fields o s (push o c b) (omega (arith, p.0, size)) in
    let shift : b.recv_offset + suc (length s) ≡ (push o c b).recv_offset + length s =
      omega (arith, p.0) in
    (
      ih.0 ∙ sym shift,
      rw (
        shift,
        ih.1,
        p.0,
        p.1,
        add-one,
        take-set_end (recv_memory o b) b.recv_offset c (omega arith),
        append_assoc,
      ),
      ih.2 ∙ p.2,
      ih.3 ∙ p.3,
      ih.4 ∙ p.4,
      ih.5 ∙ p.5,
    )

rx_run-start :
    (o : Build) (s : List ℕ) (b : Bus)
    → IsReady o b
    → rx_run o (escape ∷ zbus_start ∷ s) b
      ≡ rx_run o s (record b { recv_offset = 0; bus_blocked = 3 })
unfolding rx_run rx_interrupt
rx_run-start o s b ready = ground arith

rx_run-stop :
    (o : Build) (b : Bus)
    → b.recv_len ≡ 0
    → b.recv_escape_data ≡ false
    → b.send_len ≡ 0
    → 0 < b.bus_blocked
    → rx_run o (escape ∷ zbus_stop ∷ []) b
      ≡ (record b { mode = off; recv_len = b.recv_offset; bus_blocked = 0 }, [])
unfolding rx_run rx_interrupt stop_condition
rx_run-stop o b r e n k = ground arith

-- A ready receiver that hears a frame of at least one byte and at most its buffer's size, whatever
-- was on the line before, has exactly the frame's message to read, sends nothing, and is then
-- switched off with the bus free.
pub rx_run-frame :
    (o : Build) (s : List ℕ) (b : Bus)
    → IsReady o b
    → 0 < length s
    → length s ≤ o.recv_size
    → let (b', out) = rx_run o (frame s) b in
      (rxfinish o b' ≡ some s) × (out ≡ []) × (b'.mode ≡ off) × (b'.bus_blocked ≡ 0)
unfolding rxfinish
rx_run-frame o s b ready some_bytes fits =
    let opened = record b { recv_offset = 0; bus_blocked = 3 } in
    let b1 = push_all o s opened in
    let f = push_all_fields o s opened (omega (arith, ready.room)) in
    let collected =
      rx_run-escaped o s (escape ∷ zbus_stop ∷ []) opened ready.unread ready.plain (omega arith)
        (omega arith) in
    let stopped =
      rx_run-stop o b1 (f.2 ∙ ready.unread) (f.3 ∙ ready.plain) (f.5 ∙ ready.unsent)
        (omega (arith, f.4)) in
    let whole =
      rx_run-start o (escaped s ++ (escape ∷ zbus_stop ∷ [])) b ready ∙ collected ∙ stopped in
    let text : take b1.recv_offset (recv_memory o b1) ≡ s =
      ap (λ n. take n (recv_memory o b1)) f.0 ∙ f.1 in
    let filled : (b1.recv_offset == 0) ≡ false = ground (arith, f.0) in
    rw whole (rw (filled, text), refl, refl, refl)
