-- ===== src/Fs20/Bounds.antt =====
-- The reachable states of the receiver of firmware/fs20/fs20.c.
use matemat.Base.{ℕ, ◌≤◌, ◌<◌, ◌≡◌, List, [], ◌∷◌, arith, length, length-take}
use matemat.Fs20.{
  Fs20, comparator, edge, overflow, process, accept, process_timeout, init, datagram_length,
  queue_length,
}

-- What the receiver's functions are called for: an edge of the signal, the timer's overflow, the
-- main loop, and the tick of 20 ms.
pub data Event : Type 0 where
  crossed : ℕ → Event
  overflowed processed timed : Event

pub record IsFs20 (s : Fs20) : Type 0 where
  pub rec_bound : s.rec ≤ datagram_length
  pub raw_bound : s.raw < 18446744073709551616
  pub fresh : s.rec ≡ 0 → s.raw ≡ 0
  pub err_bound : s.err ≤ 4
  pub queue_size : length s.queue ≡ queue_length
  pub len_bound : s.len ≤ queue_length
  pub timeout_bound : s.timeout ≤ 6

edge-IsFs20 : (time : ℕ) (s : Fs20) → s.rec < datagram_length → IsFs20 s → IsFs20 (edge time s)
unfolding edge
edge-IsFs20 time s room h = ground arith

comparator-IsFs20 : (time : ℕ) (s : Fs20) → IsFs20 s → IsFs20 (comparator time s)
unfolding comparator
comparator-IsFs20 time s h = let e = edge-IsFs20 time s in ground (arith, e)

module _ (parity_even_bit : ℕ → ℕ) where
  unfoldable pub step : Event → Fs20 → Fs20
  step (crossed time) s = comparator time s
  step overflowed s = overflow s
  step processed s = process parity_even_bit s
  step timed s = process_timeout s

  unfoldable pub run : List Event → Fs20 → Fs20
  run [] s = s
  run (e ∷ es) s = run es (step e s)

  accept-IsFs20 : (s : Fs20) → IsFs20 s → IsFs20 (accept parity_even_bit s)
  unfolding accept
  accept-IsFs20 s h = let size = length-take 4 s.queue in ground (arith, size)

  process-IsFs20 : (s : Fs20) → IsFs20 s → IsFs20 (process parity_even_bit s)
  unfolding process
  process-IsFs20 s h = let a = accept-IsFs20 s h in ground (arith, a)

  step-IsFs20 : (e : Event) (s : Fs20) → IsFs20 s → IsFs20 (step e s)
  unfolding step overflow process_timeout
  step-IsFs20 (crossed time) s h = comparator-IsFs20 time s h
  step-IsFs20 overflowed s h = ground arith
  step-IsFs20 processed s h = process-IsFs20 s h
  step-IsFs20 timed s h = ground arith

  run-IsFs20 : (es : List Event) (s : Fs20) → IsFs20 s → IsFs20 (run es s)
  unfolding run
  run-IsFs20 [] s h = h
  run-IsFs20 (e ∷ es) s h = run-IsFs20 es (step e s) (step-IsFs20 e s h)

  -- After initialisation and any edges, overflows, calls of the main loop and ticks in any order:
  -- no more bits are counted than a datagram has, the bits fit in 64, they are all 0 when none is
  -- counted, at most four pulses in a row were not understood, the queue keeps its size, no more
  -- of it counts as filled, and the pause behind a command is at most 6 ticks.
  pub init-IsFs20 : (es : List Event) (s : Fs20) → IsFs20 (run es (init s))
  unfolding init
  init-IsFs20 es s = run-IsFs20 es (init s) (ground arith)
