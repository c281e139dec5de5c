-- ===== src/Rc5/Tests.antt =====
-- An infrared command, sent and received.
use matemat.Base.{
  ℕ, ◌≡◌, refl, arith, Bool, true, false, ◌&&◌, ◌||◌, List, [], ◌∷◌, ◌==◌, if◌then◌else◌, drop,
  replicate, Bool-cases, inl, inr, take,
}
use matemat.Rc5.{Rc5, rc5_send, word_bits, bits_down, levels, received_bits, rc5_queue_length}
use matemat.Rc5.Receive.{changes, InTime, listening}
use matemat.Rc5.Words.{word_number}
use matemat.Rc5.Queue.{receive, receive-receive}

-- Counters in the middle of the tolerance.
abbrev counter_of : ℕ → ℕ
counter_of n = if n == 1 then 17 else 35

counters : List ℕ → List ℕ
counters [] = []
counters (n ∷ ns) = counter_of n ∷ counters ns

one_or_two : List ℕ → Bool
one_or_two [] = true
one_or_two (n ∷ ns) = (n == 1 || n == 2) && one_or_two ns

received_bits-counter : (n : ℕ) → (n == 1 || n == 2) ≡ true → received_bits (counter_of n) ≡ n
unfolding received_bits
received_bits-counter n h = elim (Bool-cases (n == 1)) [
  | inl y ↦ rw y (ground arith)
  | inr m ↦ rw m (ground arith)
]

counters-InTime : (ns : List ℕ) → one_or_two ns ≡ true → InTime ns (counters ns)
unfolding InTime counters one_or_two
counters-InTime [] h = tt
counters-InTime (n ∷ ns) h =
    (received_bits-counter n (ground (arith, h)), counters-InTime ns (ground (arith, h)))

abbrev fresh : Rc5
fresh = record {
  received_command = 0;
  enabled = true;
  new_data = false;
  halfbitcount = 0;
  interrupts = 0;
  temp_disable = false;
  queue = replicate rc5_queue_length 0;
  len = 0;
  temp_rc5 = 0;
  toggle = 2;
}

-- Address 2, command 1.
abbrev gaps : List ℕ
gaps = drop 1 (changes false 1 (rc5_send true 2 1).0)

gaps-valid : one_or_two gaps ≡ true
unfolding one_or_two changes rc5_send word_bits bits_down levels
gaps-valid = refl

receive-receive_example :
    let s = receive (0 ∷ counters gaps) (listening fresh 0 0 0) in
    let s' = receive (0 ∷ counters gaps) s in
    (s.queue ≡ take rc5_queue_length (word_number true 2 1 ∷ replicate rc5_queue_length 0))
    × (s'.queue ≡ s.queue)
    × (s'.len ≡ s.len)
receive-receive_example =
    receive-receive true 2 1 fresh 0 0 (counters gaps) (counters gaps) (omega arith) (omega arith)
      (counters-InTime gaps gaps-valid) (counters-InTime gaps gaps-valid) (omega arith)
