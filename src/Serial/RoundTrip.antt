-- ===== src/Serial/RoundTrip.antt =====
-- The host's frames against the reader of firmware2/serial_handler.c: what `serial_sendFrames`
-- writes is what `serial_readline` delivers.
use matemat.Base.{
  ℕ, suc, ◌+◌, ◌≤◌, ◌<◌, ◌≡◌, ◌≢◌, refl, ap, sym, ◌∙◌, false, List, [], ◌∷◌, ◌++◌, arith, length,
  All, set, take, drop, append_assoc, append-nil, length-set, take-set_end, take-take_append,
}
use matemat.Serial.{
  Reader, bufferlen, escape, start_control, end_mark, put_stop, put_s_enc, send_frames, readline,
  serial_readline, receive,
}
use native.Mathlib.Nat.{add-zero, zero-add}
use native.Mathlib.Numerals.{add-one}
use matemat.Serial.Bounds.{IsReader, length-copy}

-- A C string of bytes.
abbrev pub IsText : List ℕ → Type 0
IsText s = All (λ c. (0 < c) × (c < 256)) s

-- A message that fits the receiver's buffer.
abbrev pub IsMessage : List ℕ → Type 0
IsMessage s = IsText s × (0 < length s) × (length s < bufferlen)

abbrev push : ℕ → Reader → Reader
push c r = record r { buffer = set r.buffer r.fill c; fill = r.fill + 1 }

push_all : List ℕ → Reader → Reader
push_all [] r = r
push_all (c ∷ s) r = push_all s (push c r)

receive-plain :
    (c : ℕ) (r : Reader) (rest : List ℕ)
    → c < 256
    → c ≢ escape
    → r.escaped ≡ false
    → r.fill + 1 < bufferlen
    → receive r (c ∷ rest) ≡ receive (push c r) rest
unfolding receive serial_readline readline
receive-plain c r rest h ne e fits = ground arith

receive-escape :
    (r : Reader) (rest : List ℕ)
    → r.escaped ≡ false
    → r.fill + 1 < bufferlen
    → receive r (escape ∷ escape ∷ rest) ≡ receive (push escape r) rest
unfolding receive serial_readline readline
receive-escape r rest e fits = ground arith

-- The escaped form of a text fills the buffer with the text, and nothing is delivered meanwhile.
receive-put_s_enc :
    (s rest : List ℕ) (r : Reader)
    → IsText s
    → r.fill + length s < bufferlen
    → r.escaped ≡ false
    → receive r (put_s_enc s ++ rest) ≡ receive (push_all s r) rest
unfolding put_s_enc push_all
receive-put_s_enc [] rest r t fits e = refl
receive-put_s_enc (c ∷ s) rest r t fits e = ground (
  arith,
  receive-plain c r (put_s_enc s ++ rest),
  receive-escape r (put_s_enc s ++ rest),
  receive-put_s_enc s rest (push c r) t.1 (omega arith) e,
)

push_all_fields :
    (s : List ℕ) (r : Reader)
    → r.fill + length s < bufferlen
    → length r.buffer ≡ bufferlen
    → ((push_all s r).fill ≡ r.fill + length s)
      × ((push_all s r).escaped ≡ r.escaped)
      × ((push_all s r).serial_buffer ≡ r.serial_buffer)
      × (length (push_all s r).buffer ≡ bufferlen)
      × (take (r.fill + length s) (push_all s r).buffer ≡ take r.fill r.buffer ++ s)
unfolding push_all
push_all_fields [] r fits size = (omega arith, refl, refl, size, rw (add-zero, append-nil))
push_all_fields (c ∷ s) r fits size =
    let ih = push_all_fields s (push c r) (omega arith) (length-set r.buffer r.fill c ∙ size) in
    let shift : r.fill + suc (length s) ≡ r.fill + 1 + length s = omega arith in
    (
      ih.0 ∙ omega arith,
      ih.1,
      ih.2,
      ih.3,
      rw (shift, ih.4, add-one, take-set_end r.buffer r.fill c (omega arith), append_assoc),
    )

abbrev opened : Reader → Reader
opened r = record r { escaped = false; fill = 0 }

abbrev closed : Reader → Reader
closed r = record r {
  escaped = false;
  serial_buffer = take r.fill r.buffer ++ drop r.fill r.serial_buffer;
}

receive-put_start :
    (r : Reader) (rest : List ℕ)
    → r.escaped ≡ false
    → receive r (escape ∷ start_control ∷ rest) ≡ receive (opened r) rest
unfolding receive serial_readline readline
receive-put_start r rest e = ground arith

receive-put_stop :
    (r : Reader) (rest : List ℕ)
    → r.escaped ≡ false
    → 0 < r.fill
    → r.fill ≤ length r.buffer
    → receive r (escape ∷ end_mark ∷ rest)
      ≡ (take r.fill r.buffer ∷ (receive (closed r) rest).0, (receive (closed r) rest).1)
unfolding receive serial_readline readline
receive-put_stop r rest e some_fill fits =
    ground (arith, take-take_append r.fill r.buffer (drop r.fill r.serial_buffer))

-- The reader after a whole frame that carries `s`.
delivered : List ℕ → Reader → Reader
delivered s r = closed (push_all s (opened r))

-- Whatever the reader had collected before, one frame delivers its text.
receive-send_frames :
    (s rest : List ℕ) (r : Reader)
    → IsMessage s
    → IsReader r
    → r.escaped ≡ false
    → receive r (send_frames start_control s ++ rest)
      ≡ (s ∷ (receive (delivered s r) rest).0, (receive (delivered s r) rest).1)
unfolding send_frames delivered
receive-send_frames s rest r (t, some_text, fits) v e =
    let r' = push_all s (opened r) in
    let f = push_all_fields s (opened r) (omega arith) v.buffer_size in
    let filled : r'.fill ≡ length s = f.0 ∙ zero-add (length s) in
    let text : take r'.fill r'.buffer ≡ s = ap (λ n. take n r'.buffer) f.0 ∙ f.4 in
    receive-put_start r ((put_s_enc s ++ put_stop) ++ rest) e
    ∙ rw append_assoc (receive-put_s_enc s (put_stop ++ rest) (opened r) t (omega arith) refl)
    ∙ receive-put_stop r' rest f.1 (omega arith) (omega arith)
    ∙ ap (λ u. (u ∷ (receive (closed r') rest).0, (receive (closed r') rest).1)) text

delivered-IsReader :
    (s : List ℕ) (r : Reader)
    → length s < bufferlen
    → IsReader r
    → IsReader (delivered s r) × ((delivered s r).escaped ≡ false)
unfolding delivered
delivered-IsReader s r fits v =
    let r' = push_all s (opened r) in
    let f = push_all_fields s (opened r) (omega arith) v.buffer_size in
    let serial : length r'.serial_buffer ≡ bufferlen = ap length f.2 ∙ v.serial_size in
    (
      record {
        buffer_size = f.3;
        serial_size =
            length-copy r'.fill r'.buffer r'.serial_buffer (f.3 ∙ sym serial) (omega arith)
            ∙ serial;
        fill_capped = omega arith;
      },
      refl,
    )

-- The bytes of several commands, one frame after another.
pub send_all : List (List ℕ) → List ℕ
send_all [] = []
send_all (s ∷ ss) = send_frames start_control s ++ send_all ss

-- Every sequence of non-empty commands of at most 49 bytes without NUL, sent as one control frame
-- after another, is delivered in order and unchanged (escape characters in the text included),
-- whatever a reader outside an escape had collected before, and nothing else is delivered. The
-- reader ends outside an escape with its buffers intact.
pub receive-send_all :
    (ss : List (List ℕ)) (r : Reader)
    → All IsMessage ss
    → IsReader r
    → r.escaped ≡ false
    → ((receive r (send_all ss)).0 ≡ ss)
      × IsReader (receive r (send_all ss)).1
      × ((receive r (send_all ss)).1.escaped ≡ false)
unfolding send_all
receive-send_all [] r ms v e = unfold receive in (refl, v, e)
receive-send_all (s ∷ ss) r ms v e =
    let (v', e') = delivered-IsReader s r ms.0.2 v in
    let ih = receive-send_all ss (delivered s r) ms.1 v' e' in
    rw (receive-send_frames s (send_all ss) r ms.0 v e) (ap (λ t. s ∷ t) ih.0, ih.1, ih.2)
