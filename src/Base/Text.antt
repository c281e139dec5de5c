-- ===== src/Base/Text.antt =====
-- C strings as lists of bytes: literals, `strlen`, what a reader of a NUL-terminated array sees, and
-- the decimal digits that `sprintf` writes.
use Prim.Native.Char.{code}
use Prim.Native.String.{String}
use native.Mathlib.Nat.{pow-suc}
use matemat.Base.{
  ℕ, ◌-◌, ◌^◌, ◌≤◌, ◌<◌, ◌≡◌, refl, ◌∙◌, zero, suc, ◌+◌, ◌*◌, ◌/◌, ◌%◌, List, [], ◌∷◌, length, ltb,
  ◌==◌, if◌then◌else◌, arith, All, take, set, ◌++◌,
}

abbrev pub codes : String → List ℕ
codes String.[] = []
codes (String.◌∷◌ c s) = code c ∷ codes s

-- The bytes before the first NUL.
abbrev pub cstr : List ℕ → List ℕ
cstr [] = []
cstr (c ∷ s) = let rest = cstr s in if c == 0 then [] else c ∷ rest

abbrev pub strlen : List ℕ → ℕ
strlen s = length (cstr s)

-- "%u", "%lu" and "%d" of a number that is not negative; a 32-bit number has at most ten digits.
decimal_fuel : ℕ → ℕ → List ℕ → List ℕ
decimal_fuel zero n acc = acc
decimal_fuel (suc fuel) n acc =
    let rest = decimal_fuel fuel (n / 10) ((b'0' + n % 10) ∷ acc) in
    if ltb n 10 then (b'0' + n) ∷ acc else rest

unfoldable pub decimal : ℕ → List ℕ
unfolding decimal_fuel
decimal n = decimal_fuel 10 n []

-- The number that digits stand for, read behind `n`.
pub value : ℕ → List ℕ → ℕ
value n [] = n
value n (c ∷ s) = value (n * 10 + (c - b'0')) s

value-decimal_fuel :
    (fuel n : ℕ) (acc : List ℕ) → n < 10 ^ fuel → value 0 (decimal_fuel fuel n acc) ≡ value n acc
unfolding decimal_fuel value
value-decimal_fuel zero n acc h = let e : n ≡ 0 = omega arith in rw e
value-decimal_fuel (suc fuel) n acc h =
    ground (arith, pow-suc 10 fuel, value-decimal_fuel fuel (n / 10) ((b'0' + n % 10) ∷ acc))

length-decimal_fuel :
    (fuel n : ℕ) (acc : List ℕ) → length (decimal_fuel fuel n acc) ≤ fuel + length acc
unfolding decimal_fuel
length-decimal_fuel zero n acc = omega arith
length-decimal_fuel (suc fuel) n acc =
    ground (arith, length-decimal_fuel fuel (n / 10) ((b'0' + n % 10) ∷ acc))

-- Every 32-bit number is printed by at most ten characters, which read back as the number.
pub decimal-value : (n : ℕ) → n < 4294967296 → (value 0 (decimal n) ≡ n) × (length (decimal n) ≤ 10)
unfolding decimal
decimal-value n h = (
  value-decimal_fuel 10 n [] (omega arith) ∙ unfold value in refl,
  omega (arith, length-decimal_fuel 10 n []),
)

abbrev pub NonZero : List ℕ → Type 0
NonZero s = All (λ c. 0 < c) s

-- A NUL written behind a prefix without NUL ends the string there.
pub cstr-set_end :
    (n : ℕ) (msg : List ℕ) → n < length msg → NonZero (take n msg) → cstr (set msg n 0) ≡ take n msg
cstr-set_end zero [] h z = absurd (omega arith)
cstr-set_end zero (c ∷ msg) h z = refl
cstr-set_end (suc n) [] h z = absurd (omega arith)
cstr-set_end (suc n) (c ∷ msg) h z = ground (arith, cstr-set_end n msg (omega arith) z.1)

pub NonZero-append : (s t : List ℕ) → NonZero s → NonZero t → NonZero (s ++ t)
NonZero-append [] t h k = k
NonZero-append (c ∷ s) t h k = (h.0, NonZero-append s t h.1 k)
