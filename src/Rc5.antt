-- ===== src/Rc5.antt =====
-- firmware/rc5/rc5.c: infrared commands in the RC5 code, sent as levels of a pin, each for half a bit,
-- and received from the interrupts of a pin, which get the counter of timer 0, and of its overflow.
-- Register setup and debugging output are not modelled.
pub mod Receive
pub mod Words
pub mod Queue
mod Tests
use matemat.Base.{
  ℕ, zero, suc, ◌+◌, ◌*◌, ◌%◌, Bool, true, false, not, ◌&&◌, ◌||◌, List, [], ◌∷◌, ◌++◌, ltb, ◌==◌,
  if◌then◌else◌, u8, u16, test_bit, ◌/◌, take, replicate,
}

-- `rc5_global`, `temp_rc5` and the `toggle` of `rc5_process`.
pub record Rc5 : Type 0 where
  pub received_command : ℕ
  pub enabled : Bool
  pub new_data : Bool
  pub halfbitcount : ℕ
  pub interrupts : ℕ
  pub temp_disable : Bool
  pub queue : List ℕ
  pub len : ℕ
  pub temp_rc5 : ℕ
  pub toggle : ℕ

-- The levels of `rc5_send_one` and `rc5_send_zero`.
abbrev pub send_level : Bool → List Bool
send_level bit = not bit ∷ bit ∷ []

-- A loop of `rc5_send`, from bit `i - 1` down.
unfoldable pub bits_down : ℕ → ℕ → List Bool
bits_down zero value = []
bits_down (suc i) value = test_bit value i ∷ bits_down i value

-- The bits of a command: two start bits, the toggle bit, address and command.
unfoldable pub word_bits : Bool → ℕ → ℕ → List Bool
word_bits toggle addr cmd = true ∷ true ∷ toggle ∷ (bits_down 5 addr ++ bits_down 6 cmd)

unfoldable pub levels : List Bool → List Bool
levels [] = []
levels (b ∷ bs) = send_level b ++ levels bs

-- `rc5_send`, with its toggle: the levels, the last one kept, and the toggle of the next command.
unfoldable pub rc5_send : Bool → ℕ → ℕ → List Bool × Bool
rc5_send toggle addr cmd = (levels (word_bits toggle addr cmd) ++ false ∷ [], not toggle)

-- How many half bits passed, or 0 for none that is valid: RC5_HALF_BIT_TICKS is 17, RC5_BIT_TICKS 35
-- and RC5_ENVIRONMENT 7.
unfoldable pub received_bits : ℕ → ℕ
received_bits counter =
    if ltb 10 counter && ltb counter 24
    then 1
    else if ltb 28 counter && ltb counter 42
    then 2
    else 0

-- The rounds of the loop over these half bits.
unfoldable pub half_bit : Rc5 → Rc5
half_bit s =
    let count = u8 (s.halfbitcount + 1) in
    record s {
      halfbitcount = count;
      temp_rc5 = if count % 2 == 1 then u16 (s.temp_rc5 * 2) + s.interrupts % 2 else s.temp_rc5;
    }

unfoldable pub half_bits : ℕ → Rc5 → Rc5
half_bits zero s = s
half_bits (suc n) s = half_bits n (half_bit s)

-- INT0_vect, with the counter's value.
unfoldable pub pin_interrupt : ℕ → Rc5 → Rc5
pin_interrupt counter s =
    let passed = half_bits (received_bits counter) s in
    if s.enabled && not s.temp_disable
    then if s.interrupts == 0
      then record s { temp_rc5 = 0; interrupts = 1 }
      else if received_bits counter == 0
      then record s { temp_disable = true; halfbitcount = 0 }
      else record passed { interrupts = u8 (passed.interrupts + 1) }
    else s

-- TIMER0_OVF_vect.
unfoldable pub rc5_overflow : Rc5 → Rc5
rc5_overflow s =
    let last = if s.halfbitcount == 26 then u16 (s.temp_rc5 * 2) else s.temp_rc5 in
    let complete = s.halfbitcount == 26 || s.halfbitcount == 27 in
    record s {
      received_command = if complete then last else s.received_command;
      new_data = complete || s.new_data;
      temp_rc5 = last;
      halfbitcount = 0;
      interrupts = 0;
      temp_disable = not s.enabled && s.temp_disable;
    }

abbrev pub toggle_bit : ℕ → ℕ
toggle_bit raw = raw / 2048 % 2

-- RC5_QUEUE_LENGTH.
abbrev pub rc5_queue_length : ℕ
rc5_queue_length = 10

unfoldable pub rc5_process : Rc5 → Rc5
rc5_process s =
    let received = toggle_bit s.received_command in
    let fresh = not (s.toggle == received) in
    if s.new_data
    then record s {
      queue = if fresh then take rc5_queue_length (s.received_command ∷ s.queue) else s.queue;
      len = if fresh && ltb s.len rc5_queue_length then s.len + 1 else s.len;
      toggle = if fresh then received else s.toggle;
      new_data = false;
    }
    else s

-- `rc5_init`; `temp_rc5` and the toggle are no part of what is cleared.
unfoldable pub rc5_init : Rc5 → Rc5
rc5_init s = record {
  received_command = 0;
  enabled = true;
  new_data = false;
  halfbitcount = 0;
  interrupts = 0;
  temp_disable = false;
  queue = replicate rc5_queue_length 0;
  len = 0;
  temp_rc5 = s.temp_rc5;
  toggle = s.toggle;
}
