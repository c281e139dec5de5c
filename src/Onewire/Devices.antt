-- ===== src/Onewire/Devices.antt =====
-- The devices on a 1-Wire bus, as firmware/onewire/onewire.c relies on them.
use matemat.Base.{
  ap, sym, ◌∙◌, arith, [], ℕ, ◌+◌, ◌<◌, ◌≡◌, refl, Bool, true, false, not, ◌&&◌, inl, inr, ◌⊎◌,
  Bool-cases, if◌then◌else◌, List, [], ◌∷◌, arith, ap,
}
use matemat.Onewire.{Line, rom_bit}

-- The code is one of a list.
abbrev pub In : List ℕ → List (List ℕ) → Type 0
In d [] = ⊥
In d (x ∷ xs) = (d ≡ x) ⊎ In d xs

-- What the devices send together in the two slots for a bit: a level is low if one of them pulls it
-- low, by a 0 of its code in the first slot and by a 1 in the second.
unfoldable pub all_ones : ℕ → List (List ℕ) → Bool
all_ones i [] = true
all_ones i (x ∷ xs) = rom_bit x i && all_ones i xs

unfoldable pub all_zeros : ℕ → List (List ℕ) → Bool
all_zeros i [] = true
all_zeros i (x ∷ xs) = not (rom_bit x i) && all_zeros i xs

-- The devices whose bit is the one that the controller sends.
unfoldable pub keep : ℕ → Bool → List (List ℕ) → List (List ℕ)
keep i v [] = []
keep i v (x ∷ xs) =
    let rest = keep i v xs in
    let same = if v then rom_bit x i else not (rom_bit x i) in if same then x ∷ rest else rest

-- A bus with devices of these codes, at least one. `Answers s i b` says that in state `b` the devices
-- `s` are about to send their bit `i`. They answer to the command 0xf0 behind any reset.
pub record Devices {B : Type 0} (l : Line B) (codes : List (List ℕ)) : Type 1 where
  pub Answers : List (List ℕ) → ℕ → B → Type 0
  pub present : (b : B) → let (data1, data2, b') = l.reset b in (data1 ≡ false) × (data2 ≡ true)
  pub starts :
      (b : B)
      → let (data1, data2, b0) = l.reset b in
        let b4 = l.write false (l.write false (l.write false (l.write false b0))) in
        Answers codes 0 (l.write true (l.write true (l.write true (l.write true b4))))
  pub answer :
      (s : List (List ℕ)) (i : ℕ) (b : B)
      → i < 64
      → Answers s i b
      → let (bit1, b1) = l.read b in
        let (bit2, b2) = l.read b1 in
        (bit1 ≡ all_ones i s)
        × (bit2 ≡ all_zeros i s)
        × ((v : Bool) → Answers (keep i v s) (i + 1) (l.write v b2))

abbrev is_sent : Bool → Bool → Bool
is_sent v b = if v then b else not b

is_sent-eq : (v b : Bool) → b ≡ v → is_sent v b ≡ true
is_sent-eq true b e = e
is_sent-eq false b e = rw e refl

eq-is_sent : (v b : Bool) → is_sent v b ≡ true → b ≡ v
eq-is_sent true b e = e
eq-is_sent false true e = absurd (ground arith)
eq-is_sent false false e = refl

pub In-keep :
    (d : List ℕ) (i : ℕ) (v : Bool) (s : List (List ℕ))
    → In d s
    → rom_bit d i ≡ v
    → In d (keep i v s)
unfolding keep
In-keep d i v [] m e = m
In-keep d i v (x ∷ xs) (inl q) e =
    let sent = is_sent-eq v (rom_bit x i) (ap (λ (c : List ℕ). rom_bit c i) (sym q) ∙ e) in
    rw sent (inl q)
In-keep d i v (x ∷ xs) (inr m) e =
    let ih = In-keep d i v xs m e in
    elim (Bool-cases (is_sent v (rom_bit x i))) [ inl y ↦ rw y (inr ih) | inr n ↦ rw n ih ]

pub keep-In :
    (d : List ℕ) (i : ℕ) (v : Bool) (s : List (List ℕ))
    → In d (keep i v s)
    → In d s × (rom_bit d i ≡ v)
unfolding keep
keep-In d i v [] m = absurd m
keep-In d i v (x ∷ xs) m = elim (Bool-cases (is_sent v (rom_bit x i))) [
  | inl y ↦ elim (rw y at m) [
    | inl q ↦ (inl q, ap (λ (c : List ℕ). rom_bit c i) q ∙ eq-is_sent v (rom_bit x i) y)
    | inr r ↦ (let (h, e) = keep-In d i v xs r in (inr h, e))
  ]
  | inr n ↦ (let (h, e) = keep-In d i v xs (rw n at m) in (inr h, e))
]

pub all_ones-true :
    (d : List ℕ) (i : ℕ) (s : List (List ℕ)) → all_ones i s ≡ true → In d s → rom_bit d i ≡ true
unfolding all_ones
all_ones-true d i [] h m = absurd m
all_ones-true d i (x ∷ xs) h (inl e) = ground (arith, ap (λ (c : List ℕ). rom_bit c i) e)
all_ones-true d i (x ∷ xs) h (inr m) = ground (arith, all_ones-true d i xs)

pub all_zeros-true :
    (d : List ℕ) (i : ℕ) (s : List (List ℕ)) → all_zeros i s ≡ true → In d s → rom_bit d i ≡ false
unfolding all_zeros
all_zeros-true d i [] h m = absurd m
all_zeros-true d i (x ∷ xs) h (inl e) = ground (arith, ap (λ (c : List ℕ). rom_bit c i) e)
all_zeros-true d i (x ∷ xs) h (inr m) = ground (arith, all_zeros-true d i xs)

pub all_ones-false :
    (i : ℕ) (s : List (List ℕ))
    → all_ones i s ≡ false
    → (d : List ℕ) × In d s × (rom_bit d i ≡ false)
unfolding all_ones
all_ones-false i [] h = absurd (ground arith)
all_ones-false i (x ∷ xs) h = elim (Bool-cases (rom_bit x i)) [
  | inl y ↦ (let (d, m, e) = all_ones-false i xs (rw y at h) in (d, inr m, e))
  | inr n ↦ (x, inl refl, n)
]

pub all_zeros-false :
    (i : ℕ) (s : List (List ℕ))
    → all_zeros i s ≡ false
    → (d : List ℕ) × In d s × (rom_bit d i ≡ true)
unfolding all_zeros
all_zeros-false i [] h = absurd (ground arith)
all_zeros-false i (x ∷ xs) h = elim (Bool-cases (rom_bit x i)) [
  | inl y ↦ (x, inl refl, y)
  | inr n ↦ (let (d, m, e) = all_zeros-false i xs (rw n at h) in (d, inr m, e))
]
