-- ===== src/Fs20/Weather/Hearing.antt =====
-- A report of the weather station, heard from its pulses to its values (firmware/fs20/fs20.c).
use matemat.Base.{
  ℕ, zero, suc, ◌+◌, ◌%◌, ◌<◌, ◌≤◌, ◌≡◌, refl, sym, ap, arith, Bool, true, false, List, [], ◌∷◌,
  ◌++◌, ltb, leb, if◌then◌else◌, set, replicate, test_bit, length, length-append, append_assoc,
  lt→ltb,
}
use matemat.Fs20.Weather.{Report, Ws300, ws300_length, no_bits, ws300_one, ws300_zero, ws300_edge}

-- Times of the two halves of a bit that are in the tolerance.
unfoldable pub Hears : List Bool → List (ℕ × ℕ) → Type 0
Hears [] [] = Unit
Hears [] (p ∷ ps) = ⊥
Hears (b ∷ bs) [] = ⊥
Hears (b ∷ bs) ((x, y) ∷ ps) = ((if b then ws300_one x y else ws300_zero x y) ≡ true) × Hears bs ps

-- The interrupts of these halves.
unfoldable pub hear : List (ℕ × ℕ) → Ws300 → Ws300
hear [] w = w
hear ((x, y) ∷ ps) w = hear ps (ws300_edge y (ws300_edge x w))

-- The bits of a datagram with these nibbles.
abbrev pub nibble_bits : ℕ → List Bool → List Bool
nibble_bits n rest = test_bit n 0 ∷ test_bit n 1 ∷ test_bit n 2 ∷ test_bit n 3 ∷ rest

unfoldable pub datagram_bits : List ℕ → List Bool
datagram_bits [] = []
datagram_bits (n ∷ []) = nibble_bits n []
datagram_bits (n ∷ m ∷ ns) = nibble_bits n (true ∷ datagram_bits (m ∷ ns))

abbrev pub synced : ℕ → List Bool → Report → Ws300
synced rec bits report = record {
  bits = bits;
  sync = true;
  null = 0;
  rec = rec;
  time_old = 0;
  reported = report;
}

abbrev pub waiting : ℕ → ℕ → Report → Ws300
waiting null old report = record {
  bits = no_bits;
  sync = false;
  null = null;
  rec = 0;
  time_old = old;
  reported = report;
}

one-not_zero : (x y : ℕ) → ws300_one x y ≡ true → ws300_zero x y ≡ false
unfolding ws300_one ws300_zero
one-not_zero x y h = ground arith

zero-not_one : (x y : ℕ) → ws300_zero x y ≡ true → ws300_one x y ≡ false
unfolding ws300_one ws300_zero
zero-not_one x y h = ground arith

-- After a bit the first half of the next one is only remembered.
first_half :
    (x rec : ℕ) (bits : List Bool) (r : Report)
    → ltb rec ws300_length ≡ true
    → ws300_edge x (synced rec bits r) ≡ record (synced rec bits r) { time_old = x }
unfolding ws300_edge ws300_one ws300_zero
first_half x rec bits r h = rw h refl

synced_bit :
    (b : Bool) (x y rec : ℕ) (bits : List Bool) (r : Report)
    → (if b then ws300_one x y else ws300_zero x y) ≡ true
    → ltb rec ws300_length ≡ true
    → ws300_edge y (ws300_edge x (synced rec bits r))
      ≡ synced (rec + 1) (if b then set bits rec true else bits) r
unfolding ws300_edge
synced_bit true x y rec bits r h lt =
    rw (first_half x rec bits r lt) (rw (lt, h, one-not_zero x y h) refl)
synced_bit false x y rec bits r h lt = rw (first_half x rec bits r lt) (rw (lt, h) refl)

set_next :
    (b : Bool) (xs ys : List Bool) (n : ℕ)
    → length xs ≡ n
    → (if b then set (xs ++ (false ∷ ys)) n true else xs ++ (false ∷ ys)) ≡ xs ++ (b ∷ ys)
set_next true [] ys zero h = refl
set_next true [] ys (suc n) h = absurd (omega arith)
set_next false xs ys n h = refl
set_next true (x ∷ xs) ys zero h = absurd (omega arith)
set_next true (x ∷ xs) ys (suc n) h =
    ap (λ (t : List Bool). x ∷ t) (set_next true xs ys n (omega arith))

-- The bits of a datagram behind `xs`.
pub heard_bits :
    (bs : List Bool) (ps : List (ℕ × ℕ)) (xs ys : List Bool) (rec : ℕ) (r : Report)
    → Hears bs ps
    → length xs ≡ rec
    → rec + length bs ≤ 79
    → hear ps (synced rec (xs ++ (replicate (length bs) false ++ ys)) r)
      ≡ synced (rec + length bs) (xs ++ (bs ++ ys)) r
unfolding hear Hears
heard_bits [] [] xs ys rec r h n le =
    let e : rec ≡ rec + 0 = omega arith in ap (λ k. synced k (xs ++ ys) r) e
heard_bits [] (p ∷ ps) xs ys rec r h n le = absurd h
heard_bits (b ∷ bs) [] xs ys rec r h n le = absurd h
heard_bits (b ∷ bs) ((x, y) ∷ ps) xs ys rec r (h, hs) n le =
    let zs = replicate (length bs) false ++ ys in
    let one : length (xs ++ (b ∷ [])) ≡ rec + 1 = omega (arith, length-append xs (b ∷ [])) in
    let ih = heard_bits bs ps (xs ++ (b ∷ [])) ys (rec + 1) r hs one (omega arith) in
    let front : (xs ++ (b ∷ [])) ++ zs ≡ xs ++ (b ∷ zs) = append_assoc xs (b ∷ []) zs in
    let behind : (xs ++ (b ∷ [])) ++ (bs ++ ys) ≡ xs ++ (b ∷ (bs ++ ys)) =
      append_assoc xs (b ∷ []) (bs ++ ys) in
    let count : rec + 1 + length bs ≡ rec + suc (length bs) = omega arith in
    rw
      (
        synced_bit b x y rec (xs ++ (false ∷ zs)) r h (lt→ltb _ _ (omega arith)),
        set_next b xs zs rec n,
      )
      (rw (front, behind, count) at ih)

-- The zeros in front of it.
pub heard_zeros :
    (k : ℕ) (ps : List (ℕ × ℕ)) (null : ℕ) (r : Report)
    → Hears (replicate k false) ps
    → null + k < 128
    → hear ps (waiting null 0 r) ≡ waiting (null + k) 0 r
unfolding hear Hears ws300_edge ws300_zero ws300_one
heard_zeros zero [] null r h le = let e : null ≡ null + 0 = omega arith in ap (λ k. waiting k 0 r) e
heard_zeros zero (p ∷ ps) null r h le = absurd h
heard_zeros (suc k) [] null r h le = absurd h
heard_zeros (suc k) ((x, y) ∷ ps) null r (h, hs) le =
    let ih = heard_zeros k ps (null + 1) r hs (omega arith) in
    let small : (null + 1) % 128 ≡ null + 1 = omega arith in
    let count : null + 1 + k ≡ null + suc k = omega arith in rw (h, small, sym count) ih

waiting_half : (x null : ℕ) (r : Report) → ws300_edge x (waiting null 0 r) ≡ waiting null x r
unfolding ws300_edge ws300_zero ws300_one
waiting_half x null r = refl

-- The one behind them.
pub heard_one :
    (x y null : ℕ) (r : Report)
    → ws300_one x y ≡ true
    → 8 ≤ null
    → ws300_edge y (ws300_edge x (waiting null 0 r)) ≡ synced 0 no_bits r
unfolding ws300_edge
heard_one x y null r h le =
    let enough : leb 8 null ≡ true = ground arith in
    rw (waiting_half x null r) (rw (one-not_zero x y h, h, enough) refl)
