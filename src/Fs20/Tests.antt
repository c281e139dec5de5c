-- ===== src/Fs20/Tests.antt =====
-- A concrete radio command.
use matemat.Base.{ℕ, ◌+◌, ◌/◌, ◌%◌, ◌≡◌, ◌<◌, refl, List, [], ◌∷◌, arith, replicate}
use matemat.Fs20.{
  Pulse, zero_pulse, one_pulse, Fs20, datagram_of, command_bits, send_byte, send_bits, init,
  process,
}
use matemat.Fs20.Bits.{IsTimed, timed_none, timed_zero, timed_one, edges}
use matemat.Fs20.Bounds.{crossed, overflowed, processed, timed, run, IsFs20, init-IsFs20}
use matemat.Fs20.Once.{sent_datagram, command_bits-once}

-- 1 for a byte with an odd number of bits.
abbrev odd_bits : ℕ → ℕ
odd_bits b = (b + b / 2 + b / 4 + b / 8 + b / 16 + b / 32 + b / 64 + b / 128) % 2

odd_bits-small : (b : ℕ) → odd_bits b < 2
odd_bits-small b = omega arith

-- Counters at the edges of pulses.
abbrev times : List Pulse → List ℕ
times [] = []
times (zero_pulse ∷ g) = 50 ∷ 70 ∷ times g
times (one_pulse ∷ g) = 80 ∷ 100 ∷ times g

times-IsTimed : (g : List Pulse) → IsTimed g (times g)
times-IsTimed [] = timed_none
times-IsTimed (zero_pulse ∷ g) =
    timed_zero 50 70 (omega arith) (omega arith) (omega arith) (omega arith) (times-IsTimed g)
times-IsTimed (one_pulse ∷ g) =
    timed_one 80 100 (omega arith) (omega arith) (omega arith) (omega arith) (times-IsTimed g)

abbrev off : Fs20
off = record {
  raw = 0;
  rec = 0;
  err = 0;
  queue = replicate 5 (datagram_of 0);
  len = 0;
  timeout = 0;
  time_old = 0;
}

byte :
    send_byte odd_bits 5
    ≡ zero_pulse ∷ zero_pulse ∷ zero_pulse ∷ zero_pulse ∷ zero_pulse ∷ one_pulse ∷ zero_pulse
      ∷ one_pulse ∷ zero_pulse ∷ []
unfolding send_byte send_bits
byte = refl

init-IsFs20_example :
    IsFs20 (run odd_bits (crossed 50 ∷ crossed 60 ∷ processed ∷ overflowed ∷ timed ∷ []) (init off))
init-IsFs20_example =
    init-IsFs20 odd_bits (crossed 50 ∷ crossed 60 ∷ processed ∷ overflowed ∷ timed ∷ []) off

command_bits-once_example :
    let heard = edges (times (command_bits odd_bits 0x1234 5 17)) off in
    let s' =
      run odd_bits
        (overflowed ∷ timed ∷ crossed 50 ∷ crossed 50 ∷ processed ∷ [])
        (process odd_bits (edges (50 ∷ 50 ∷ []) heard)) in
    (s'.queue ≡ sent_datagram odd_bits 0x1234 5 17 ∷ replicate 4 (datagram_of 0)) × (s'.len ≡ 1)
command_bits-once_example =
    command_bits-once odd_bits odd_bits-small 0x1234 5 17
      (times (command_bits odd_bits 0x1234 5 17)) (50 ∷ 50 ∷ [])
      (overflowed ∷ timed ∷ crossed 50 ∷ crossed 50 ∷ processed ∷ []) off (omega arith)
      (omega arith) (omega arith) (times-IsTimed (command_bits odd_bits 0x1234 5 17))
      (record { open_bus = refl; between = refl; sane = omega arith }) refl refl (omega arith)
