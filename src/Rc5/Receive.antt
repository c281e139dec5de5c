-- ===== src/Rc5/Receive.antt =====
-- Infrared commands from the levels sent to the command received (firmware/rc5/rc5.c).
use matemat.Base.{
  ℕ, ◌+◌, ◌*◌, ◌%◌, ◌<◌, ◌≡◌, refl, ap, arith, Bool, true, false, not, List, [], ◌∷◌, ◌==◌,
  if◌then◌else◌, u16, length, ◌≤◌, ◌++◌, ◌∙◌,
}
use matemat.Rc5.{Rc5, received_bits, half_bit, half_bits, pin_interrupt, rc5_overflow, levels}

-- How many half bits lie between the changes of a level.
unfoldable pub changes : Bool → ℕ → List Bool → List ℕ
changes level n [] = []
changes level n (h ∷ hs) =
    let more = changes level (n + 1) hs in
    let next = changes h 1 hs in if (if level then h else not h) then more else n ∷ next

-- Counters of one or two half bits, inside the tolerance.
unfoldable pub InTime : List ℕ → List ℕ → Type 0
InTime [] [] = Unit
InTime [] (c ∷ cs) = ⊥
InTime (n ∷ ns) [] = ⊥
InTime (n ∷ ns) (c ∷ cs) = (received_bits c ≡ n) × InTime ns cs

unfoldable pub pin_interrupts : List ℕ → Rc5 → Rc5
pin_interrupts [] s = s
pin_interrupts (c ∷ cs) s = pin_interrupts cs (pin_interrupt c s)

-- A receiver in the middle of a word.
abbrev pub listening : Rc5 → ℕ → ℕ → ℕ → Rc5
listening o n h t = record o {
  enabled = true;
  temp_disable = false;
  interrupts = n;
  halfbitcount = h;
  temp_rc5 = t;
}

abbrev pub bit_value : Bool → ℕ
bit_value b = if b then 1 else 0

-- The bits of a word behind the number `t`.
unfoldable pub word_value : ℕ → List Bool → ℕ
word_value t [] = t
word_value t (b ∷ bs) = word_value (u16 (t * 2) + bit_value b) bs

half_even :
    (o : Rc5) (n h t c : ℕ)
    → (n == 0) ≡ false
    → n < 200
    → h < 200
    → h % 2 ≡ 0
    → received_bits c ≡ 1
    → pin_interrupt c (listening o n h t) ≡ listening o (n + 1) (h + 1) (u16 (t * 2) + n % 2)
unfolding pin_interrupt half_bits half_bit
half_even o n h t c z ln lh e r =
    let a : (n + 1) % 256 ≡ n + 1 = omega arith in
    let b : (h + 1) % 256 ≡ h + 1 = omega arith in
    let d : ((h + 1) % 2 == 1) ≡ true = ground arith in rw (z, r, a, b, d) refl

half_odd :
    (o : Rc5) (n h t c : ℕ)
    → (n == 0) ≡ false
    → n < 200
    → h < 200
    → h % 2 ≡ 1
    → received_bits c ≡ 1
    → pin_interrupt c (listening o n h t) ≡ listening o (n + 1) (h + 1) t
unfolding pin_interrupt half_bits half_bit
half_odd o n h t c z ln lh e r =
    let a : (n + 1) % 256 ≡ n + 1 = omega arith in
    let b : (h + 1) % 256 ≡ h + 1 = omega arith in
    let d : ((h + 1) % 2 == 1) ≡ false = ground arith in rw (z, r, a, b, d) refl

whole_even :
    (o : Rc5) (n h t c : ℕ)
    → (n == 0) ≡ false
    → n < 200
    → h < 200
    → h % 2 ≡ 0
    → received_bits c ≡ 2
    → pin_interrupt c (listening o n h t) ≡ listening o (n + 1) (h + 2) (u16 (t * 2) + n % 2)
unfolding pin_interrupt half_bits half_bit
whole_even o n h t c z ln lh e r =
    let a : (n + 1) % 256 ≡ n + 1 = omega arith in
    let b : (h + 1) % 256 ≡ h + 1 = omega arith in
    let g : (h + 1 + 1) % 256 ≡ h + 2 = omega arith in
    let d : ((h + 1) % 2 == 1) ≡ true = ground arith in
    let f : ((h + 2) % 2 == 1) ≡ false = ground arith in rw (z, r, a, b, g, d, f) refl

-- What the timeout makes of a whole word.
abbrev pub complete : Rc5 → ℕ → Rc5
complete o word = record o {
  enabled = true;
  temp_disable = false;
  interrupts = 0;
  halfbitcount = 0;
  temp_rc5 = word;
  received_command = word;
  new_data = true;
}

last_one :
    (o : Rc5) (n t c : ℕ)
    → (n == 0) ≡ false
    → n < 200
    → n % 2 ≡ 1
    → received_bits c ≡ 1
    → rc5_overflow (pin_interrupt c (listening o n 26 t)) ≡ complete o (u16 (t * 2) + 1)
unfolding rc5_overflow
last_one o n t c z ln e r =
    let last = half_even o n 26 t c z ln (omega arith) refl r in rw (last, e) refl

last_zero : (o : Rc5) (n t : ℕ) → rc5_overflow (listening o n 26 t) ≡ complete o (u16 (t * 2) + 0)
unfolding rc5_overflow
last_zero o n t = ap (complete o) (omega arith)

-- A bit that repeats the one before, and one that does not.
repeated :
    (o : Rc5) (n h t v : ℕ) (ns cs : List ℕ)
    → (n == 0) ≡ false
    → n < 150
    → h < 150
    → h % 2 ≡ 0
    → n % 2 ≡ v
    → InTime (1 ∷ 1 ∷ ns) cs
    → (rest : List ℕ) × InTime ns rest
      × (pin_interrupts cs (listening o n h t)
          ≡ pin_interrupts rest (listening o (n + 1 + 1) (h + 1 + 1) (u16 (t * 2) + v)))
unfolding pin_interrupts InTime
repeated o n h t v ns [] z ln lh e p i = absurd i
repeated o n h t v ns (c ∷ []) z ln lh e p (r, i) = absurd i
repeated o n h t v ns (c ∷ c' ∷ cs) z ln lh e p (r, (r', i)) =
    let first = half_even o n h t c z (omega arith) (omega arith) e r in
    let second =
      half_odd o (n + 1) (h + 1) (u16 (t * 2) + n % 2) c' (ground arith) (omega arith) (omega arith)
        (omega arith) r' in
    (cs, i, rw (first, second, p) refl)

changed :
    (o : Rc5) (n h t v : ℕ) (ns cs : List ℕ)
    → (n == 0) ≡ false
    → n < 150
    → h < 150
    → h % 2 ≡ 0
    → n % 2 ≡ v
    → InTime (2 ∷ ns) cs
    → (rest : List ℕ) × InTime ns rest
      × (pin_interrupts cs (listening o n h t)
          ≡ pin_interrupts rest (listening o (n + 1) (h + 2) (u16 (t * 2) + v)))
unfolding pin_interrupts InTime
changed o n h t v ns [] z ln lh e p i = absurd i
changed o n h t v ns (c ∷ cs) z ln lh e p (r, i) =
    let whole = whole_even o n h t c z (omega arith) (omega arith) e r in
    (cs, i, rw (whole, p) refl)

-- The end of a word, without a bit left.
word_end :
    (b : Bool) (o : Rc5) (n h t : ℕ) (cs : List ℕ)
    → (n == 0) ≡ false
    → n % 2 ≡ bit_value b
    → h ≡ 26
    → n < 150
    → InTime (changes b 1 (false ∷ [])) cs
    → rc5_overflow (pin_interrupts cs (listening o n h t)) ≡ complete o (u16 (t * 2) + bit_value b)
unfolding changes InTime pin_interrupts
word_end true o n h t [] z e end ln i = absurd i
word_end true o n h t (c ∷ []) z e end ln (r, i) = rw end (last_one o n t c z (omega arith) e r)
word_end true o n h t (c ∷ c' ∷ cs) z e end ln (r, i) = absurd i
word_end false o n h t [] z e end ln i = rw end (last_zero o n t)
word_end false o n h t (c ∷ cs) z e end ln i = absurd i

-- The bits `bs` behind a bit `b` whose second half has begun.
pub decode :
    (bs : List Bool) (b : Bool) (o : Rc5) (n h t : ℕ) (cs : List ℕ)
    → (n == 0) ≡ false
    → n % 2 ≡ bit_value b
    → h % 2 ≡ 0
    → h + 2 * length bs ≡ 26
    → n + 2 * length bs ≤ 100
    → InTime (changes b 1 (levels bs ++ (false ∷ []))) cs
    → rc5_overflow (pin_interrupts cs (listening o n h t)) ≡ complete o (word_value t (b ∷ bs))
unfolding changes levels word_value
decode [] b o n h t cs z e even len le i = word_end b o n h t cs z e (omega arith) (omega arith) i
decode (true ∷ bs) true o n h t cs z e even len le i =
    let (rest, i', step) = repeated o n h t 1 _ cs z (omega arith) (omega arith) even e i in
    ap rc5_overflow step
    ∙ decode bs true o (n + 1 + 1) (h + 1 + 1) (u16 (t * 2) + 1) rest (ground arith) (omega arith)
        (omega arith) (omega arith) (omega arith) i'
decode (false ∷ bs) false o n h t cs z e even len le i =
    let (rest, i', step) = repeated o n h t 0 _ cs z (omega arith) (omega arith) even e i in
    ap rc5_overflow step
    ∙ decode bs false o (n + 1 + 1) (h + 1 + 1) (u16 (t * 2) + 0) rest (ground arith) (omega arith)
        (omega arith) (omega arith) (omega arith) i'
decode (true ∷ bs) false o n h t cs z e even len le i =
    let (rest, i', step) = changed o n h t 0 _ cs z (omega arith) (omega arith) even e i in
    ap rc5_overflow step
    ∙ decode bs true o (n + 1) (h + 2) (u16 (t * 2) + 0) rest (ground arith) (omega arith)
        (omega arith) (omega arith) (omega arith) i'
decode (false ∷ bs) true o n h t cs z e even len le i =
    let (rest, i', step) = changed o n h t 1 _ cs z (omega arith) (omega arith) even e i in
    ap rc5_overflow step
    ∙ decode bs false o (n + 1) (h + 2) (u16 (t * 2) + 1) rest (ground arith) (omega arith)
        (omega arith) (omega arith) (omega arith) i'
