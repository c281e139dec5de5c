-- ===== src/Onewire/Codes.antt =====
-- The bits of a ROM code (firmware/onewire/onewire.c).
use matemat.Onewire.{rom_bit, set_address_bit}
use matemat.Base.{
  [], ltb→lt, ◌||◌, ℕ, zero, suc, ◌+◌, ◌-◌, ◌^◌, ◌<◌, ◌≡◌, refl, Bool, true, false, not, ◌&&◌, ◌==◌,
  ltb, if◌then◌else◌, arith, List, length, All, test_bit, ◌||◌, sym, set, get_or, ==_iff, ◌≢◌, ◌/◌,
  ◌∷◌, ◌%◌, length-set, get_or-set_self, Bool-cases, ◌∙◌, inl, ◌*◌, inr, get_or-set_ne,
}

-- Eight bytes.
abbrev pub IsRom : List ℕ → Type 0
IsRom rom = (length rom ≡ 8) × All (λ b. b < 256) rom

-- A bit switched on and off in a byte.
abbrev bit_on : ℕ → ℕ → ℕ
bit_on b k = if test_bit b k then b else b + 2 ^ k

abbrev bit_off : ℕ → ℕ → ℕ
bit_off b k = if test_bit b k then b - 2 ^ k else b

abbrev equal_bit : Bool → Bool → Bool
equal_bit x y = if x then y else not y

bits_right : ℕ → ℕ → ℕ → Bool
bits_right k j b =
    ltb (bit_on b k) 256
    && (ltb (bit_off b k) 256
        && (equal_bit (test_bit (bit_on b k) j) (k == j || test_bit b j)
            && equal_bit (test_bit (bit_off b k) j) (not (k == j) && test_bit b j)))

and_true : (x y : Bool) → (x && y) ≡ true → (x ≡ true) × (y ≡ true)
and_true true y h = (refl, h)
and_true false y h = absurd (ground arith)

-- A test of every number under a bound.
passes : (ℕ → Bool) → ℕ → Bool
passes test zero = true
passes test (suc bound) = if test bound then passes test bound else false

passes-at : (test : ℕ → Bool) (bound k : ℕ) → k < bound → passes test bound ≡ true → test k ≡ true
unfolding passes
passes-at test zero k lt h = absurd (omega arith)
passes-at test (suc bound) k lt h = ground (arith, passes-at test bound k)

bits_table : passes (λ k. passes (λ j. passes (bits_right k j) 256) 8) 8 ≡ true
unfolding passes bits_right
bits_table = refl

equal_bit-eq : (x y : Bool) → equal_bit x y ≡ true → x ≡ y
equal_bit-eq true y h = sym h
equal_bit-eq false true h = absurd (ground arith)
equal_bit-eq false false h = refl

-- What the table says of a byte.
bits_lem :
    (b k j : ℕ)
    → b < 256
    → k < 8
    → j < 8
    → (bit_on b k < 256)
      × (bit_off b k < 256)
      × (test_bit (bit_on b k) j ≡ ((k == j) || test_bit b j))
      × (test_bit (bit_off b k) j ≡ (not (k == j) && test_bit b j))
unfolding bits_right
bits_lem b k j hb hk hj =
    let at_k = passes-at _ 8 k hk bits_table in
    let at_j = passes-at _ 8 j hj at_k in
    let at_b = passes-at _ 256 b hb at_j in
    let (p, r) = and_true _ _ at_b in
    let (q, s) = and_true _ _ r in
    let (t, u) = and_true _ _ s in
    (ltb→lt _ _ p, ltb→lt _ _ q, equal_bit-eq _ _ t, equal_bit-eq _ _ u)

All-set :
    (rom : List ℕ) (i v : ℕ) → v < 256 → All (λ b. b < 256) rom → All (λ b. b < 256) (set rom i v)
All-set [] i v h a = a
All-set (x ∷ xs) zero v h a = (h, a.1)
All-set (x ∷ xs) (suc i) v h a = (a.0, All-set xs i v h a.1)

All-get_or : (rom : List ℕ) (i : ℕ) → All (λ b. b < 256) rom → get_or rom i 0 < 256
All-get_or [] i a = omega arith
All-get_or (x ∷ xs) zero a = a.0
All-get_or (x ∷ xs) (suc i) a = All-get_or xs i a.1

-- A byte of the code with one bit written.
abbrev bit_set : ℕ → ℕ → Bool → ℕ
bit_set b k v = if v then bit_on b k else bit_off b k

bit_set-lt : (b k : ℕ) (v : Bool) → b < 256 → k < 8 → bit_set b k v < 256
bit_set-lt b k true h l = (bits_lem b k 0 h l (omega arith)).0
bit_set-lt b k false h l = (bits_lem b k 0 h l (omega arith)).1

test_bit-set_self : (b k : ℕ) (v : Bool) → b < 256 → k < 8 → test_bit (bit_set b k v) k ≡ v
test_bit-set_self b k true h l =
    let same_bit = (==_iff k k).1 refl in rw ((bits_lem b k k h l l).2, same_bit) refl
test_bit-set_self b k false h l =
    let same_bit = (==_iff k k).1 refl in rw ((bits_lem b k k h l l).3, same_bit) refl

test_bit-set_ne :
    (b k j : ℕ) (v : Bool)
    → b < 256
    → k < 8
    → j < 8
    → k ≢ j
    → test_bit (bit_set b k v) j ≡ test_bit b j
test_bit-set_ne b k j true h l m o =
    let other : (k == j) ≡ false = ground arith in rw ((bits_lem b k j h l m).2, other) refl
test_bit-set_ne b k j false h l m o =
    let other : (k == j) ≡ false = ground arith in rw ((bits_lem b k j h l m).3, other) refl

-- `ow_set_address_bit` writes its bit and no other.
pub set_address_bit-IsRom :
    (rom : List ℕ) (i : ℕ) (v : Bool) → IsRom rom → i < 64 → IsRom (set_address_bit rom i v)
unfolding set_address_bit
set_address_bit-IsRom rom i v (l, a) h =
    let b = get_or rom (i / 8) 0 in
    let small = bit_set-lt b (i % 8) v (All-get_or rom (i / 8) a) (omega arith) in
    (length-set rom (i / 8) (bit_set b (i % 8) v) ∙ l, All-set rom (i / 8) _ small a)

pub rom_bit-set_self :
    (rom : List ℕ) (i : ℕ) (v : Bool) → IsRom rom → i < 64 → rom_bit (set_address_bit rom i v) i ≡ v
unfolding set_address_bit rom_bit
rom_bit-set_self rom i v (l, a) h =
    let b = get_or rom (i / 8) 0 in
    rw (get_or-set_self rom (i / 8) (bit_set b (i % 8) v) 0 (omega arith))
      (test_bit-set_self b (i % 8) v (All-get_or rom (i / 8) a) (omega arith))

pub rom_bit-set_ne :
    (rom : List ℕ) (i j : ℕ) (v : Bool)
    → IsRom rom
    → i < 64
    → i ≢ j
    → rom_bit (set_address_bit rom i v) j ≡ rom_bit rom j
unfolding set_address_bit rom_bit
rom_bit-set_ne rom i j v (l, a) h o =
    let b = get_or rom (i / 8) 0 in
    elim (Bool-cases (i / 8 == j / 8)) [
      | inl y ↦
          let e : j / 8 ≡ i / 8 = sym ((==_iff (i / 8) (j / 8)).0 y) in
          let other : i % 8 ≢ j % 8 = omega arith in
          rw (e, get_or-set_self rom (i / 8) (bit_set b (i % 8) v) 0 (omega arith))
            (test_bit-set_ne b (i % 8) (j % 8) v (All-get_or rom (i / 8) a) (omega arith)
              (omega arith) other)
      | inr n ↦ rw (get_or-set_ne rom (i / 8) (j / 8) (bit_set b (i % 8) v) 0 (ground arith)) refl
    ]

-- A byte is its bits.
same_digit : (x y : ℕ) → (x % 2 == 1) ≡ (y % 2 == 1) → x % 2 ≡ y % 2
same_digit x y e = ground arith

byte_ext : (a b : ℕ) → a < 256 → b < 256 → ((k : ℕ) → k < 8 → test_bit a k ≡ test_bit b k) → a ≡ b
byte_ext a b h l e =
    let d = λ (k : ℕ) (m : k < 8). same_digit (a / 2 ^ k) (b / 2 ^ k) (e k m) in
    omega (
      arith,
      d 0 (omega arith),
      d 1 (omega arith),
      d 2 (omega arith),
      d 3 (omega arith),
      d 4 (omega arith),
      d 5 (omega arith),
      d 6 (omega arith),
      d 7 (omega arith),
    )

list_ext :
    (a b : List ℕ)
    → length a ≡ length b
    → ((k : ℕ) → k < length a → get_or a k 0 ≡ get_or b k 0)
    → a ≡ b
list_ext [] [] l e = refl
list_ext [] (y ∷ ys) l e = absurd (omega arith)
list_ext (x ∷ xs) [] l e = absurd (omega arith)
list_ext (x ∷ xs) (y ∷ ys) l e =
    let h : x ≡ y = e 0 (omega arith) in
    let t = list_ext xs ys (omega arith) (λ k b. e (suc k) (omega arith)) in cc (h, t)

-- ROM codes with the same bits are equal.
pub rom_ext :
    (a b : List ℕ) → IsRom a → IsRom b → ((i : ℕ) → i < 64 → rom_bit a i ≡ rom_bit b i) → a ≡ b
unfolding rom_bit
rom_ext a b (l, p) (m, q) e = list_ext a b (l ∙ sym m) λ k h.
    byte_ext (get_or a k 0) (get_or b k 0) (All-get_or a k p) (All-get_or b k q) λ j s.
      let hi : (k * 8 + j) / 8 ≡ k = omega arith in
      let lo : (k * 8 + j) % 8 ≡ j = omega arith in rw (hi, lo) at (e (k * 8 + j) (omega arith))
