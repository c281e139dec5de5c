-- ===== src/Fs20/Bits.antt =====
-- The bits of a command of firmware/fs20/fs20.c, as its receiver shifts them in.
use matemat.Base.{
  zero, ℕ, suc, ◌+◌, ◌*◌, ◌/◌, ◌%◌, ◌≤◌, ◌<◌, ◌≡◌, refl, ◌∙◌, List, [], ◌∷◌, ◌++◌, arith, length,
  ltb, ap, false, true,
}
use matemat.Fs20.{
  Pulse, zero_pulse, one_pulse, send_bit, send_bits, send_sync, send_byte, u64, Fs20, comparator,
  edge, datagram_length,
}

-- What a list of pulses makes of the bits received before.
unfoldable pub shift_in : ℕ → List Pulse → ℕ
shift_in raw [] = raw
shift_in raw (zero_pulse ∷ g) = shift_in (u64 (raw * 2)) g
shift_in raw (one_pulse ∷ g) = shift_in (u64 (raw * 2) + 1) g

-- The counters that the comparator's interrupt may read at the two edges of each pulse.
pub data IsTimed : List Pulse → List ℕ → Type 0 where
  timed_none : IsTimed [] []
  timed_zero :
      {g : List Pulse} {ts : List ℕ}
      → (a b : ℕ) → 33 ≤ a
      → a ≤ 73
      → 33 ≤ b
      → b ≤ 73
      → IsTimed g ts
      → IsTimed (zero_pulse ∷ g) (a ∷ b ∷ ts)
  timed_one :
      {g : List Pulse} {ts : List ℕ}
      → (a b : ℕ) → 74 ≤ a
      → a ≤ 105
      → 74 ≤ b
      → b ≤ 105
      → IsTimed g ts
      → IsTimed (one_pulse ∷ g) (a ∷ b ∷ ts)

unfoldable pub edges : List ℕ → Fs20 → Fs20
edges [] s = s
edges (t ∷ ts) s = edges ts (comparator t s)

-- A receiver that listens, between two pulses.
pub record IsListening (s : Fs20) : Type 0 where
  pub open_bus : s.timeout ≡ 0
  pub between : s.time_old ≡ 0
  pub sane : s.err ≤ 3

abbrev err_after : List Pulse → ℕ → ℕ
err_after [] e = e
err_after (_ ∷ _) e = 0

err_after-zero : (g : List Pulse) → err_after g 0 ≡ 0
err_after-zero [] = refl
err_after-zero (p ∷ g) = refl

comparator-zero :
    (a b : ℕ) (s : Fs20)
    → 33 ≤ a
    → a ≤ 73
    → 33 ≤ b
    → b ≤ 73
    → IsListening s
    → s.rec < datagram_length
    → comparator b (comparator a s)
      ≡ record s { raw = u64 (s.raw * 2); rec = s.rec + 1; err = 0; time_old = 0 }
unfolding comparator edge
comparator-zero a b s a1 a2 b1 b2 h r = ground arith

comparator-one :
    (a b : ℕ) (s : Fs20)
    → 74 ≤ a
    → a ≤ 105
    → 74 ≤ b
    → b ≤ 105
    → IsListening s
    → s.rec < datagram_length
    → comparator b (comparator a s)
      ≡ record s { raw = u64 (s.raw * 2) + 1; rec = s.rec + 1; err = 0; time_old = 0 }
unfolding comparator edge
comparator-one a b s a1 a2 b1 b2 h r = ground arith

pub edges-IsTimed :
    (g : List Pulse) (ts : List ℕ) (s : Fs20)
    → IsTimed g ts
    → IsListening s
    → s.rec + length g ≤ datagram_length
    → edges ts s ≡ record s {
      raw = shift_in s.raw g;
      rec = s.rec + length g;
      err = err_after g s.err;
      time_old = 0;
    }
unfolding edges shift_in
edges-IsTimed _ _ s timed_none h r = ground arith
edges-IsTimed _ _ s (timed_zero {g} {ts} a b a1 a2 b1 b2 t) h r =
    let s1 = record s { raw = u64 (s.raw * 2); rec = s.rec + 1; err = 0; time_old = 0 } in
    let bit = comparator-zero a b s a1 a2 b1 b2 h (omega arith) in
    let l : IsListening s1 = record { open_bus = h.open_bus; between = refl; sane = omega arith } in
    let ih = edges-IsTimed g ts s1 t l (omega arith) in
    let count : s.rec + suc (length g) ≡ s.rec + 1 + length g = omega arith in
    let none_wrong = err_after-zero g in rw (bit, count) (rw none_wrong at ih)
edges-IsTimed _ _ s (timed_one {g} {ts} a b a1 a2 b1 b2 t) h r =
    let s1 = record s { raw = u64 (s.raw * 2) + 1; rec = s.rec + 1; err = 0; time_old = 0 } in
    let bit = comparator-one a b s a1 a2 b1 b2 h (omega arith) in
    let l : IsListening s1 = record { open_bus = h.open_bus; between = refl; sane = omega arith } in
    let ih = edges-IsTimed g ts s1 t l (omega arith) in
    let count : s.rec + suc (length g) ≡ s.rec + 1 + length g = omega arith in
    let none_wrong = err_after-zero g in rw (bit, count) (rw none_wrong at ih)

shift_in-bit :
    (raw v w : ℕ) (g : List Pulse)
    → raw < 9223372036854775808
    → v < 2
    → 0 < w
    → shift_in raw (send_bit (v * w) ∷ g) ≡ shift_in (raw * 2 + v) g
unfolding shift_in
shift_in-bit raw zero w g r b p =
    let off : ltb 0 (0 * w) ≡ false = ground arith in
    let e : u64 (raw * 2) ≡ raw * 2 + 0 = omega arith in rw (off, e)
shift_in-bit raw (suc zero) w g r b p =
    let on : ltb 0 (1 * w) ≡ true = ground arith in
    let e : u64 (raw * 2) + 1 ≡ raw * 2 + 1 = omega arith in rw (on, e)
shift_in-bit raw (suc (suc v)) w g r b p = absurd (omega arith)

pub shift_in-send_byte :
    (par : ℕ → ℕ) (raw byte : ℕ) (g : List Pulse)
    → raw < 36028797018963968
    → byte < 256
    → par byte < 2
    → shift_in raw (send_byte par byte ++ g) ≡ shift_in (raw * 512 + (byte * 2 + par byte)) g
unfolding send_byte send_bits
shift_in-send_byte par raw byte g r b p =
    let r7 = raw * 2 + byte / 128 % 2 in
    let r6 = r7 * 2 + byte / 64 % 2 in
    let r5 = r6 * 2 + byte / 32 % 2 in
    let r4 = r5 * 2 + byte / 16 % 2 in
    let r3 = r4 * 2 + byte / 8 % 2 in
    let r2 = r3 * 2 + byte / 4 % 2 in
    let r1 = r2 * 2 + byte / 2 % 2 in
    let r0 = r1 * 2 + byte / 1 % 2 in
    let last : shift_in r0 (send_bit (par byte) ∷ g) ≡ shift_in (r0 * 2 + par byte) g =
      (let one : par byte * 1 ≡ par byte = omega arith in
        rw one at (shift_in-bit r0 (par byte) 1 g (omega arith) p (omega arith))) in
    let whole : r0 * 2 + par byte ≡ raw * 512 + (byte * 2 + par byte) = omega arith in
    shift_in-bit raw (byte / 128 % 2) 128 _ (omega arith) (omega arith) (omega arith)
    ∙ shift_in-bit r7 (byte / 64 % 2) 64 _ (omega arith) (omega arith) (omega arith)
    ∙ shift_in-bit r6 (byte / 32 % 2) 32 _ (omega arith) (omega arith) (omega arith)
    ∙ shift_in-bit r5 (byte / 16 % 2) 16 _ (omega arith) (omega arith) (omega arith)
    ∙ shift_in-bit r4 (byte / 8 % 2) 8 _ (omega arith) (omega arith) (omega arith)
    ∙ shift_in-bit r3 (byte / 4 % 2) 4 _ (omega arith) (omega arith) (omega arith)
    ∙ shift_in-bit r2 (byte / 2 % 2) 2 _ (omega arith) (omega arith) (omega arith)
    ∙ shift_in-bit r1 (byte / 1 % 2) 1 _ (omega arith) (omega arith) (omega arith)
    ∙ last
    ∙ ap (λ x. shift_in x g) whole

pub shift_in-send_sync : (g : List Pulse) → shift_in 0 (send_sync ++ g) ≡ shift_in 1 g
unfolding send_sync shift_in
shift_in-send_sync g = refl
