-- ===== src/Onewire/Listing.antt =====
-- What the list command makes of a bus with devices (firmware/ecmd_parser/onewire.c and
-- firmware/onewire/onewire.c).
use matemat.Base.{
  ℕ, zero, suc, ◌+◌, ◌-◌, ◌≤◌, ◌<◌, ◌≡◌, refl, ap, ◌∙◌, Bool, true, false, inl, inr, if◌then◌else◌,
  arith, List, [], ◌∷◌, none, some, ◌==◌, ltb, length, take, lt→ltb,
}
use matemat.Base.Int.{ℤ, pos, negsuc}
use matemat.Onewire.{Line, Ow, ow_search_rom}
use matemat.Onewire.Command.{
  print_rom, list_answer, parse_cmd_onewire_list, run_list, lines, put_before, found_any,
}
use matemat.Onewire.Devices.{In}
use matemat.Onewire.Order.{key}

pub ltb-ge : (m n : ℕ) → n ≤ m → ltb m n ≡ false
ltb-ge m n h = ground arith

-- Sixteen characters.
pub length-print_rom : (r : List ℕ) → length (print_rom r) ≡ length r + length r
unfolding print_rom
length-print_rom [] = refl
length-print_rom (x ∷ xs) = omega (arith, length-print_rom xs)

take-all : (n : ℕ) (s : List ℕ) → length s ≤ n → take n s ≡ s
take-all zero [] h = refl
take-all (suc n) [] h = refl
take-all zero (x ∷ xs) h = absurd (omega arith)
take-all (suc n) (x ∷ xs) h = ap (λ (t : List ℕ). x ∷ t) (take-all n xs (omega arith))

-- The devices with a code above another.
pub above : ℕ → List (List ℕ) → ℕ
above k [] = 0
above k (x ∷ xs) = (if ltb k (key 64 0 x) then 1 else 0) + above k xs

above-le : (j k : ℕ) (s : List (List ℕ)) → j ≤ k → above k s ≤ above j s
unfolding above
above-le j k [] h = omega arith
above-le j k (x ∷ xs) h = ground (arith, above-le j k xs)

pub above-lt :
    (j : ℕ) (s : List (List ℕ)) (d : List ℕ)
    → In d s
    → j < key 64 0 d
    → above (key 64 0 d) s < above j s
unfolding above
above-lt j [] d m h = absurd m
above-lt j (x ∷ xs) d (inl e) h =
    let q = ap (key 64 0) e in
    let rest = above-le j (key 64 0 d) xs (omega arith) in
    let counted : ltb j (key 64 0 x) ≡ true = lt→ltb _ _ (omega arith) in
    let left : ltb (key 64 0 d) (key 64 0 x) ≡ false = ltb-ge _ _ (omega arith) in
    rw (counted, left) (omega (arith, rest))
above-lt j (x ∷ xs) d (inr m) h = ground (arith, above-lt j xs d m h)

above-le_length : (k : ℕ) (s : List (List ℕ)) → above k s ≤ length s
unfolding above
above-le_length k [] = omega arith
above-le_length k (x ∷ xs) = ground (arith, above-le_length k xs)

pub above-length : (s : List (List ℕ)) (d : List ℕ) → In d s → above (key 64 0 d) s < length s
unfolding above
above-length [] d m = absurd m
above-length (x ∷ xs) d (inl e) =
    let q = ap (key 64 0) e in
    let left : ltb (key 64 0 d) (key 64 0 x) ≡ false = ltb-ge _ _ (omega arith) in
    rw left (omega (arith, above-le_length (key 64 0 d) xs))
above-length (x ∷ xs) d (inr m) = ground (arith, above-length xs d m)

pub if_true : {A : Type 0} (c : Bool) (x y : A) → c ≡ true → (if c then x else y) ≡ x
if_true c x y h = rw h refl

pub if_false : {A : Type 0} (c : Bool) (x y : A) → c ≡ false → (if c then x else y) ≡ y
if_false c x y h = rw h refl

-- Codes of devices, each above the one before.
unfoldable pub Ascending : List (List ℕ) → List ℕ → List (List ℕ) → Type 0
Ascending codes r [] = Unit
Ascending codes r (x ∷ xs) = In x codes × (key 64 0 r < key 64 0 x) × Ascending codes x xs

unfoldable pub Sorted : List (List ℕ) → List (List ℕ) → Type 0
Sorted codes [] = Unit
Sorted codes (x ∷ xs) = In x codes × Ascending codes x xs

pub answer-found :
    {B : Type 0} (len : ℕ) (r : ℤ × Ow × B)
    → r.0 ≡ pos 1
    → 17 ≤ len
    → length r.1.current_rom ≡ 8
    → list_answer len r ≡ (negsuc 25, some (print_rom r.1.current_rom), r.1, r.2)
unfolding list_answer
answer-found len (ret, o, b) h le e =
    let n : length (print_rom o.current_rom) ≡ 16 = omega (arith, length-print_rom o.current_rom) in
    let whole = take-all (len - 1) (print_rom o.current_rom) (omega arith) in rw (h, n, whole) refl

pub answer-end :
    {B : Type 0} (len : ℕ) (r : ℤ × Ow × B)
    → r.0 ≡ pos 0
    → list_answer len r ≡ (pos 0, none, record r.1 { lock = 0 }, r.2)
unfolding list_answer
answer-end len (ret, o, b) h = rw h refl

module _ {B : Type 0} (l : Line B) where
  pub parse_again :
      (len : ℕ) (o : Ow) (b : B)
      → o.lock ≡ 1
      → parse_cmd_onewire_list l len o b ≡ list_answer len (ow_search_rom l false o b)
  unfolding parse_cmd_onewire_list
  parse_again len o b h =
      let c : (o.lock == 0) ≡ false = ground arith in if_false (o.lock == 0) _ _ c

  pub parse_first :
      (len : ℕ) (o : Ow) (b : B)
      → o.lock ≡ 0
      → (ow_search_rom l true (record o { lock = 1 }) b).0 ≡ pos 1
      → parse_cmd_onewire_list l len o b
        ≡ list_answer len (ow_search_rom l true (record o { lock = 1 }) b)
  unfolding parse_cmd_onewire_list
  parse_first len o b h e =
      let c : (o.lock == 0) ≡ true = ground arith in
      if_true (o.lock == 0) _ _ c ∙ if_true _ _ _ (ap found_any e)

  pub run_list-more :
      (fuel len : ℕ) (o o1 o2 : Ow) (b b1 b2 : B) (text : List ℕ) (texts : List (List ℕ))
      → parse_cmd_onewire_list l len o b ≡ (negsuc 25, some text, o1, b1)
      → run_list l fuel len o1 b1 ≡ some (texts, o2, b2)
      → run_list l (suc fuel) len o b ≡ some (text ∷ texts, o2, b2)
  unfolding run_list lines put_before
  run_list-more fuel len o o1 o2 b b1 b2 text texts h rest = rw (h, rest) refl

  pub run_list-end :
      (fuel len : ℕ) (o o1 : Ow) (b b1 : B)
      → parse_cmd_onewire_list l len o b ≡ (pos 0, none, o1, b1)
      → run_list l (suc fuel) len o b ≡ some ([], o1, b1)
  unfolding run_list lines put_before
  run_list-end fuel len o o1 b b1 h = rw h refl
