-- ===== src/Serial/Bounds.antt =====
-- The receive buffers of firmware2/serial_handler.c are never left: what holds of them between
-- two characters.
use matemat.Base.{
  ℕ, ◌<◌, ◌≤◌, ◌≡◌, true, List, ◌++◌, arith, length, take, drop, length-set, length-append,
  length-take, length-drop, ◌%◌, test_bit,
}
use matemat.Serial.{Reader, bufferlen, readline, serial_readline}

pub record IsReader (r : Reader) : Type 0 where
  pub buffer_size : length r.buffer ≡ bufferlen
  pub serial_size : length r.serial_buffer ≡ bufferlen
  pub fill_capped : r.fill < bufferlen

readline-IsReader :
    (i : ℕ) (r : Reader) → IsReader r → IsReader (readline i r).1 × ((readline i r).0 < bufferlen)
unfolding readline
readline-IsReader i r h = ground (arith, length-set r.buffer r.fill (i % 256))

-- Copying a line of at most the buffer's length keeps the size of `serial_buffer`.
pub length-copy :
    (l : ℕ) (xs ys : List ℕ)
    → length xs ≡ length ys
    → l ≤ length xs
    → length (take l xs ++ drop l ys) ≡ length ys
length-copy l xs ys e h =
    omega (arith, length-append (take l xs) (drop l ys), length-take l xs, length-drop l ys)

-- For every word that `uart_getc` may return, the reader keeps its invariant (both arrays have
-- 50 bytes and `fill` is a valid index), and the length reported is below 50, so that the copy
-- into `serial_buffer` and the later `cmd[len] = 0` stay inside it.
pub serial_readline-IsReader :
    (i : ℕ) (r : Reader)
    → IsReader r
    → IsReader (serial_readline i r).1 × ((serial_readline i r).0 < bufferlen)
unfolding serial_readline
serial_readline-IsReader i r h = ground (
  arith,
  readline-IsReader i r h,
  length-copy (readline i r).0 (readline i r).1.buffer (readline i r).1.serial_buffer,
)

-- Words that do not end a line or carry no character are reported as 0.
pub readline-silent : (i : ℕ) (r : Reader) → test_bit i 8 ≡ true → serial_readline i r ≡ (0, r)
unfolding serial_readline readline
readline-silent i r h = ground arith
