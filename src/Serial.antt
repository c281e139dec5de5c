-- ===== src/Serial.antt =====
-- firmware2/serial_handler.c: the framed protocol between the controller and its host.
-- Sending returns the bytes handed to `uart_putc`; receiving takes one result of `uart_getc`.
-- `uart_putc` and `uart_getc` are the UART library's, and are not modelled.
pub mod Bounds
pub mod RoundTrip
pub mod Senders
mod Tests
use matemat.Base.{
  ℕ, zero, suc, ◌+◌, ◌-◌, ◌%◌, Bool, true, false, Option, none, some, List, [], ◌∷◌, ◌++◌, ltb, leb,
  ◌==◌, if◌then◌else◌, test_bit, set, take, drop, not,
}

-- SERIAL_BUFFERLEN, SERIAL_ESCAPE (a backslash) and the frame marks of serial_handler.h.
abbrev pub bufferlen : ℕ
bufferlen = 50

abbrev pub escape : ℕ
escape = 0x5c

abbrev pub start_control : ℕ
start_control = b'C'

abbrev pub start_debug : ℕ
start_debug = b'D'

abbrev pub start_temp : ℕ
start_temp = b'T'

abbrev pub end_mark : ℕ
end_mark = b'9'

unfoldable pub put_c_enc : ℕ → List ℕ
put_c_enc c = if c == escape then escape ∷ c ∷ [] else c ∷ []

-- A C string ends at its first NUL; the list's end stands for one too.
unfoldable pub put_s_enc : List ℕ → List ℕ
put_s_enc [] = []
put_s_enc (c ∷ s) =
    let rest = put_s_enc s in
    if c == 0 then [] else if c == escape then escape ∷ c ∷ rest else c ∷ rest

-- `none` is a read behind the end of `d`.
unfoldable pub put_enc : List ℕ → ℕ → Option (List ℕ)
put_enc d zero = some []
put_enc [] (suc n) = none
put_enc (c ∷ d) (suc n) = elim (put_enc d n) [
  | none ↦ none
  | some rest ↦ some (if c == escape then escape ∷ c ∷ rest else c ∷ rest)
]

unfoldable pub put_start : ℕ → List ℕ
put_start command = escape ∷ command ∷ []

unfoldable pub put_start_debug : List ℕ
put_start_debug = escape ∷ start_debug ∷ []

unfoldable pub put_stop : List ℕ
put_stop = escape ∷ end_mark ∷ []

unfoldable pub send_frames : ℕ → List ℕ → List ℕ
unfolding put_start put_stop
send_frames command s = put_start command ++ (put_s_enc s ++ put_stop)

unfoldable pub send_framec : ℕ → ℕ → List ℕ
unfolding put_start put_stop put_c_enc
send_framec command c = put_start command ++ (put_c_enc c ++ put_stop)

-- The file's globals and the statics of `readline`.
pub record Reader : Type 0 where
  pub buffer : List ℕ
  pub serial_buffer : List ℕ
  pub fill : ℕ
  pub escaped : Bool

-- The tail of `readline`: `buffer[fill++] = data` with the cap on `fill`.
store : ℕ → Reader → Reader
store c r = record r {
  buffer = set r.buffer r.fill c;
  fill = if leb bufferlen (r.fill + 1) then bufferlen - 1 else r.fill + 1;
}

-- `i` is what `uart_getc` returned: bit 8 is UART_NO_DATA, the low byte is the character.
unfoldable pub readline : ℕ → Reader → ℕ × Reader
unfolding store
readline i r =
    if test_bit i 8
    then (0, r)
    else (let c = i % 256 in
        if c == escape
        then if not r.escaped
          then (0, record r { escaped = true })
          else (0, store c (record r { escaped = false }))
        else if r.escaped
        then if c == start_control
          then (0, record r { escaped = false; fill = 0 })
          else if c == end_mark
          then (r.fill, record r { escaped = false })
          else (0, store c (record r { escaped = false }))
        else (0, store c r))

-- `memcpy(serial_buffer, buffer, l)` when a line is complete.
unfoldable pub serial_readline : ℕ → Reader → ℕ × Reader
serial_readline i r =
    let (l, r') = readline i r in
    if ltb 0 l
    then (l, record r' { serial_buffer = take l r'.buffer ++ drop l r'.serial_buffer })
    else (l, r')

-- The commands that the main loop is handed while the given words come in, each as the first
-- `l` bytes of `serial_buffer`.
unfoldable pub receive : Reader → List ℕ → List (List ℕ) × Reader
receive r [] = ([], r)
receive r (i ∷ is) =
    let (l, r') = serial_readline i r in
    let (out, r'') = receive r' is in
    if ltb 0 l then (take l r'.serial_buffer ∷ out, r'') else (out, r'')
