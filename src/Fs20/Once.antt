-- ===== src/Fs20/Once.antt =====
-- A command that firmware/fs20/fs20.c sends three times, at a receiver of the same firmware.
use matemat.Base.{
  append-nil, true, ℕ, suc, ◌+◌, ◌-◌, ◌*◌, ◌/◌, ◌%◌, ◌<◌, ◌≡◌, refl, ◌∙◌, ap, List, [], ◌∷◌, arith,
  length, take, ltb, if◌then◌else◌, true,
}
use matemat.Fs20.{
  Datagram, Fs20, send_byte, send_sync, send_bits, sum_of, command_bits, datagram_of, comparator,
  overflow, process, accept, is_valid, process_timeout, datagram_length, queue_length,
}
use matemat.Fs20.Bits.{
  shift_in, IsTimed, edges, IsListening, edges-IsTimed, shift_in-send_byte, shift_in-send_sync,
}
use matemat.Fs20.Bounds.{Event, crossed, overflowed, processed, timed, run, step}

abbrev pub ticks : List Event → ℕ
ticks [] = 0
ticks (timed ∷ es) = suc (ticks es)
ticks (_ ∷ es) = ticks es

edges-locked : (ts : List ℕ) (s : Fs20) → s.rec ≡ datagram_length → edges ts s ≡ s
unfolding edges comparator
edges-locked [] s h = refl
edges-locked (t ∷ ts) s h =
    let e : comparator t s ≡ s = unfold comparator in ground arith in rw e (edges-locked ts s h)

-- Five bytes behind a synchronisation, each with a parity bit.
abbrev raw_of : ℕ → ℕ → ℕ → ℕ → ℕ → ℕ
raw_of b1 b2 b3 b4 b5 = (((((1 * 512 + b1) * 512 + b2) * 512 + b3) * 512 + b4) * 512 + b5)

datagram_of-raw_of :
    (h1 q1 h2 q2 a q3 c q4 p q5 : ℕ)
    → h1 < 256
    → q1 < 2
    → h2 < 256
    → q2 < 2
    → a < 256
    → q3 < 2
    → c < 256
    → q4 < 2
    → p < 256
    → q5 < 2
    → datagram_of (raw_of (h1 * 2 + q1) (h2 * 2 + q2) (a * 2 + q3) (c * 2 + q4) (p * 2 + q5))
      ≡ record {
        sync = 1;
        hc1 = h1;
        p1 = q1;
        hc2 = h2;
        p2 = q2;
        addr = a;
        p3 = q3;
        cmd = c;
        p4 = q4;
        parity = p;
        p5 = q5;
      }
unfolding datagram_of
datagram_of-raw_of h1 q1 h2 q2 a q3 c q4 p q5 b1 b2 b3 b4 b5 b6 b7 b8 b9 b10 = ground arith

module _ (par : ℕ → ℕ) where
  -- The datagram of a command.
  pub sent_datagram : ℕ → ℕ → ℕ → Datagram
  sent_datagram housecode address command =
      let hi = housecode / 256 in
      let lo = housecode % 256 in
      let sum = sum_of hi lo address command in
      record {
        sync = 1;
        hc1 = hi;
        p1 = par hi;
        hc2 = lo;
        p2 = par lo;
        addr = address;
        p3 = par address;
        cmd = command;
        p4 = par command;
        parity = sum;
        p5 = par sum;
      }

module _ (par : ℕ → ℕ) (is_bit : (byte : ℕ) → par byte < 2) where
  length-command_bits : (h a c : ℕ) → length (command_bits par h a c) ≡ 58
  unfolding command_bits send_byte send_bits send_sync
  length-command_bits h a c = refl

  datagram_of-command_bits :
      (h a c : ℕ)
      → h < 65536
      → a < 256
      → c < 256
      → datagram_of (shift_in 0 (command_bits par h a c)) ≡ sent_datagram par h a c
  unfolding command_bits sent_datagram shift_in
  datagram_of-command_bits h a c hb ab cb =
      let hi = h / 256 in
      let lo = h % 256 in
      let sum = sum_of hi lo a c in
      let small : sum < 256 = unfold sum_of in omega arith in
      let r1 = 1 * 512 + (hi * 2 + par hi) in
      let r2 = r1 * 512 + (lo * 2 + par lo) in
      let r3 = r2 * 512 + (a * 2 + par a) in
      let r4 = r3 * 512 + (c * 2 + par c) in
      let i1 = is_bit hi in
      let i2 = is_bit lo in
      let i3 = is_bit a in
      let i4 = is_bit c in
      let i5 = is_bit sum in
      let last : shift_in r4 (send_byte par sum) ≡ r4 * 512 + (sum * 2 + par sum) =
        rw append-nil at (shift_in-send_byte par r4 sum [] (omega arith) small i5) in
      let all =
        shift_in-send_sync _
        ∙ shift_in-send_byte par 1 hi _ (omega arith) (omega arith) i1
        ∙ shift_in-send_byte par r1 lo _ (omega arith) (omega arith) i2
        ∙ shift_in-send_byte par r2 a _ (omega arith) ab i3
        ∙ shift_in-send_byte par r3 c _ (omega arith) cb i4
        ∙ last in
      ap datagram_of all
      ∙ datagram_of-raw_of hi (par hi) lo (par lo) a (par a) c (par c) sum (par sum) (omega arith)
          i1 (omega arith) i2 ab i3 cb i4 small i5

  is_valid-sent_datagram :
      (h a c : ℕ) → h < 65536 → a < 256 → c < 256 → is_valid par (sent_datagram par h a c) ≡ true
  unfolding is_valid sent_datagram sum_of
  is_valid-sent_datagram h a c hb ab cb = ground arith

  run-step :
      (e : Event) (es : List Event) (s s1 : Fs20)
      → step par e s ≡ s1
      → run par (e ∷ es) s ≡ run par es s1
  unfolding run
  run-step e es s s1 h = ap (run par es) h

  run-deaf :
      (es : List Event) (s : Fs20)
      → s.rec ≡ 0
      → ticks es < s.timeout
      → ((run par es s).queue ≡ s.queue) × ((run par es s).len ≡ s.len)
  run-deaf [] s r t = unfold run in (refl, refl)
  run-deaf (crossed time ∷ es) s r t =
      let e : step par (crossed time) s ≡ s = unfold step comparator in ground arith in
      rw (run-step (crossed time) es s s e) (run-deaf es s r t)
  run-deaf (overflowed ∷ es) s r t =
      let s1 = record s { rec = 0; raw = 0 } in
      let e : step par overflowed s ≡ s1 = unfold step overflow in ground arith in
      rw (run-step overflowed es s s1 e) (run-deaf es s1 refl t)
  run-deaf (processed ∷ es) s r t =
      let e : step par processed s ≡ s = unfold step process in ground arith in
      rw (run-step processed es s s e) (run-deaf es s r t)
  run-deaf (timed ∷ es) s r t =
      let s1 = record s { timeout = s.timeout - 1 } in
      let e : step par timed s ≡ s1 = unfold step process_timeout in refl in
      rw (run-step timed es s s1 e) (run-deaf es s1 r (omega arith))

  process-accepted :
      (d : Datagram) (s : Fs20)
      → s.rec ≡ datagram_length
      → datagram_of s.raw ≡ d
      → d.sync ≡ 1
      → is_valid par d ≡ true
      → process par s ≡ record s {
        queue = d ∷ take 4 s.queue;
        len = if ltb s.len queue_length then s.len + 1 else s.len;
        timeout = 6;
        raw = 0;
        rec = 0;
      }
  unfolding process accept is_valid
  process-accepted d s r e y v = rw (r, e, y, v)

  -- A command heard by a receiver that listens, with no half of a bit remembered, at most three errors
  -- and no bit counted: both pulses of a 0 are 33 to 73 cycles of the timer, both of a 1 are 74 to 105,
  -- and however much the two differ (the header documents at most 18 cycles, but the bound of the code,
  -- 68, refuses no such pair). With any counters at edges behind it, the command is in front of the queue
  -- after the next `fs20_process`; whatever edges, overflows and calls follow, with fewer than six ticks
  -- nothing else enters the queue.
  pub command_bits-once :
      (h a c : ℕ) (ts behind : List ℕ) (later : List Event) (s : Fs20)
      → h < 65536
      → a < 256
      → c < 256
      → IsTimed (command_bits par h a c) ts
      → IsListening s
      → s.rec ≡ 0
      → s.raw ≡ 0
      → ticks later < 6
      → let s' = run par later (process par (edges behind (edges ts s))) in
        (s'.queue ≡ sent_datagram par h a c ∷ take 4 s.queue)
        × (s'.len ≡ (if ltb s.len queue_length then s.len + 1 else s.len))
  command_bits-once h a c ts behind later s hb ab cb t l rec raw short =
      let g = command_bits par h a c in
      let d = sent_datagram par h a c in
      let u = edges ts s in
      let size = length-command_bits h a c in
      let heard = edges-IsTimed g ts s t l (omega (arith, size)) in
      let full : u.rec ≡ datagram_length = ap (λ x. x.rec) heard ∙ omega (arith, size) in
      let text : datagram_of u.raw ≡ d =
        ap (λ x. datagram_of x.raw) heard ∙ rw raw (datagram_of-command_bits h a c hb ab cb) in
      let queue : u.queue ≡ s.queue = ap (λ x. x.queue) heard in
      let len : u.len ≡ s.len = ap (λ x. x.len) heard in
      let s1 = record u {
        queue = d ∷ take 4 u.queue;
        len = if ltb u.len queue_length then u.len + 1 else u.len;
        timeout = 6;
        raw = 0;
        rec = 0;
      } in
      let is_one : d.sync ≡ 1 = unfold sent_datagram in refl in
      let got : process par u ≡ s1 =
        process-accepted d u full text is_one (is_valid-sent_datagram h a c hb ab cb) in
      let kept = run-deaf later s1 refl short in
      rw (edges-locked behind u full, got) (kept.0 ∙ rw queue, kept.1 ∙ rw len)
