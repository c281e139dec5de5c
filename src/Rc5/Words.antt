-- ===== src/Rc5/Words.antt =====
-- A whole infrared command (firmware/rc5/rc5.c).
use matemat.Base.{
  ℕ, ◌+◌, ◌*◌, ◌/◌, ◌%◌, ◌^◌, ◌<◌, ◌≡◌, refl, ap, ◌∙◌, arith, Bool, true, false, List, ◌∷◌, ◌++◌,
  length, test_bit, drop,
}
use matemat.Rc5.{Rc5, rc5_send, word_bits, bits_down, levels, pin_interrupt, rc5_overflow}
use matemat.Rc5.Receive.{
  changes, InTime, pin_interrupts, listening, bit_value, word_value, complete, decode,
}

bit_value-test_bit : (v i : ℕ) → bit_value (test_bit v i) ≡ v / 2 ^ i % 2
bit_value-test_bit v i = ground arith

address_value :
    (t v : ℕ) (bs : List Bool)
    → t < 1000
    → v < 32
    → word_value t (bits_down 5 v ++ bs) ≡ word_value (t * 32 + v) bs
unfolding word_value bits_down
address_value t v bs h l =
    ap (λ n. word_value n bs)
      (omega (
        arith,
        bit_value-test_bit v 0,
        bit_value-test_bit v 1,
        bit_value-test_bit v 2,
        bit_value-test_bit v 3,
        bit_value-test_bit v 4,
      ))

command_value : (t v : ℕ) → t < 1000 → v < 64 → word_value t (bits_down 6 v) ≡ t * 64 + v
unfolding word_value bits_down
command_value t v h l = omega (
  arith,
  bit_value-test_bit v 0,
  bit_value-test_bit v 1,
  bit_value-test_bit v 2,
  bit_value-test_bit v 3,
  bit_value-test_bit v 4,
  bit_value-test_bit v 5,
)

-- The start bits, the toggle bit, the address and the command as bit-fields of a number.
abbrev pub word_number : Bool → ℕ → ℕ → ℕ
word_number toggle addr cmd = (((3 * 2 + bit_value toggle) * 32) + addr) * 64 + cmd

word_value-number :
    (toggle : Bool) (addr cmd : ℕ)
    → addr < 32
    → cmd < 64
    → word_value 0 (word_bits toggle addr cmd) ≡ word_number toggle addr cmd
unfolding word_bits word_value
word_value-number true addr cmd ha hc =
    address_value 7 addr (bits_down 6 cmd) (omega arith) ha
    ∙ command_value (7 * 32 + addr) cmd (omega arith) hc
word_value-number false addr cmd ha hc =
    address_value 6 addr (bits_down 6 cmd) (omega arith) ha
    ∙ command_value (6 * 32 + addr) cmd (omega arith) hc

abbrev later_bits : Bool → ℕ → ℕ → List Bool
later_bits toggle addr cmd = true ∷ toggle ∷ (bits_down 5 addr ++ bits_down 6 cmd)

length-later_bits : (toggle : Bool) (addr cmd : ℕ) → length (later_bits toggle addr cmd) ≡ 13
unfolding bits_down
length-later_bits toggle addr cmd = refl

first_edge : (o : Rc5) (c t : ℕ) → pin_interrupt c (listening o 0 0 t) ≡ listening o 1 0 0
unfolding pin_interrupt
first_edge o c t = refl

-- The pin's interrupts for a command that is sent to an enabled receiver which waits for one, each
-- change of the level but the first inside the tolerance of the time since the one before, and the
-- timeout behind them: the receiver has the command with its toggle bit, its address below 32 and its
-- code below 64, and waits again.
pub rc5_send-rc5_overflow :
    (toggle : Bool) (addr cmd : ℕ) (o : Rc5) (c : ℕ) (cs : List ℕ)
    → addr < 32
    → cmd < 64
    → InTime (drop 1 (changes false 1 (rc5_send toggle addr cmd).0)) cs
    → rc5_overflow (pin_interrupts (c ∷ cs) (listening o 0 0 o.temp_rc5))
      ≡ complete o (word_number toggle addr cmd)
unfolding rc5_send pin_interrupts levels changes word_bits
rc5_send-rc5_overflow toggle addr cmd o c cs ha hc i =
    let bs = later_bits toggle addr cmd in
    let len = length-later_bits toggle addr cmd in
    ap (λ s. rc5_overflow (pin_interrupts cs s)) (first_edge o c o.temp_rc5)
    ∙ (decode bs true o 1 0 0 cs refl refl refl (omega (arith, len)) (omega (arith, len)) i
        ∙ ap (complete o) (word_value-number toggle addr cmd ha hc))
