-- ===== src/Rc5/Queue.antt =====
-- A key that is held down (firmware/rc5/rc5.c, `rc5_process`).
use matemat.Base.{
  ℕ, ◌+◌, ◌<◌, ◌≡◌, ◌≢◌, refl, sym, ap, ◌∙◌, arith, Bool, true, false, List, ◌∷◌, ltb, ◌==◌,
  if◌then◌else◌, take, drop, ==_iff,
}
use matemat.Rc5.{Rc5, rc5_send, rc5_overflow, rc5_process, rc5_queue_length, toggle_bit}
use matemat.Rc5.Receive.{changes, InTime, pin_interrupts, listening, complete}
use matemat.Rc5.Words.{word_number, rc5_send-rc5_overflow}

-- A command received, and dealt with.
pub receive : List ℕ → Rc5 → Rc5
receive cs s = rc5_process (rc5_overflow (pin_interrupts cs s))

process-new :
    (o : Rc5) (word : ℕ)
    → o.toggle ≢ toggle_bit word
    → rc5_process (complete o word) ≡ record (complete o word) {
      queue = take rc5_queue_length (word ∷ o.queue);
      len = if ltb o.len rc5_queue_length then o.len + 1 else o.len;
      toggle = toggle_bit word;
      new_data = false;
    }
unfolding rc5_process
process-new o word h = let e : (o.toggle == toggle_bit word) ≡ false = ground arith in rw e refl

process-again :
    (o : Rc5) (word : ℕ)
    → o.toggle ≡ toggle_bit word
    → rc5_process (complete o word) ≡ record (complete o word) { new_data = false }
unfolding rc5_process
process-again o word h =
    let e : (o.toggle == toggle_bit word) ≡ true = (==_iff _ _).1 h in rw e refl

-- A command that an enabled receiver gets twice, with the same toggle bit, each change of the level but
-- the first inside the tolerance of the time since the one before, and that `rc5_process` deals with
-- each time, enters the queue once, in front, if its toggle bit is not the one of the command before,
-- its address is below 32 and its code below 64.
pub receive-receive :
    (toggle : Bool) (addr cmd : ℕ) (o : Rc5) (c c' : ℕ) (cs cs' : List ℕ)
    → addr < 32
    → cmd < 64
    → InTime (drop 1 (changes false 1 (rc5_send toggle addr cmd).0)) cs
    → InTime (drop 1 (changes false 1 (rc5_send toggle addr cmd).0)) cs'
    → o.toggle ≢ toggle_bit (word_number toggle addr cmd)
    → let word = word_number toggle addr cmd in
      let s = receive (c ∷ cs) (listening o 0 0 o.temp_rc5) in
      let s' = receive (c' ∷ cs') s in
      (s.queue ≡ take rc5_queue_length (word ∷ o.queue)) × (s'.queue ≡ s.queue) × (s'.len ≡ s.len)
unfolding receive
receive-receive toggle addr cmd o c c' cs cs' ha hc i i' h =
    let word = word_number toggle addr cmd in
    let s = rc5_process (rc5_overflow (pin_interrupts (c ∷ cs) (listening o 0 0 o.temp_rc5))) in
    let first =
      ap rc5_process (rc5_send-rc5_overflow toggle addr cmd o c cs ha hc i)
      ∙ process-new o word h in
    let t : Rc5 = record (complete o word) {
      queue = take rc5_queue_length (word ∷ o.queue);
      len = if ltb o.len rc5_queue_length then o.len + 1 else o.len;
      toggle = toggle_bit word;
      new_data = false;
    } in
    let second =
      ap (λ u. rc5_process (rc5_overflow (pin_interrupts (c' ∷ cs') u))) first
      ∙ (ap rc5_process (rc5_send-rc5_overflow toggle addr cmd t c' cs' ha hc i')
          ∙ process-again t word refl) in
    (
      ap (λ (u : Rc5). u.queue) first,
      ap (λ (u : Rc5). u.queue) second ∙ sym (ap (λ (u : Rc5). u.queue) first),
      ap (λ (u : Rc5). u.len) second ∙ sym (ap (λ (u : Rc5). u.len) first),
    )
