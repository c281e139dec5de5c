-- ===== src/Fs20/Weather/Values.antt =====
-- The nibbles and values of a report of the weather station, and the whole way from its pulses to its
-- values (firmware/fs20/fs20.c).
use matemat.Base.{
  ℕ, zero, suc, ◌+◌, ◌*◌, ◌%◌, ◌<◌, ◌≤◌, ◌≡◌, refl, ap, ◌∙◌, arith, Bool, true, false, List, [],
  ◌∷◌, ◌++◌, ◌==◌, u8, get_or, replicate, test_bit, length, All, take, ==_iff,
}
use matemat.Fs20.Weather.{
  Report, Ws300, ws300_constant, no_bits, ws300_one, ws300_edge, bit_value, read_nibbles, markers,
  xor_from, sum_from, ws300_values, ws300_parse_datagram, ws300_process,
}
use matemat.Fs20.Weather.Hearing.{
  Hears, hear, datagram_bits, synced, waiting, heard_bits, heard_zeros, heard_one,
}

nibble_value :
    (n : ℕ)
    → n < 16
    → bit_value (test_bit n 0)
        + 2 * bit_value (test_bit n 1)
        + 4 * bit_value (test_bit n 2)
        + 8 * bit_value (test_bit n 3)
      ≡ n
nibble_value n h = ground arith

read_nibbles-datagram :
    (k : ℕ) (ns : List ℕ) (e : Bool)
    → All (λ n. n < 16) ns
    → k ≤ length ns
    → read_nibbles k (datagram_bits ns ++ (e ∷ [])) ≡ take k ns
unfolding read_nibbles datagram_bits
read_nibbles-datagram zero [] e a h = refl
read_nibbles-datagram zero (n ∷ ns) e a h = refl
read_nibbles-datagram (suc k) [] e a h = absurd (omega arith)
read_nibbles-datagram (suc zero) (n ∷ []) e a h = ap (λ (v : ℕ). v ∷ []) (nibble_value n a.0)
read_nibbles-datagram (suc (suc k)) (n ∷ []) e a h = absurd (omega arith)
read_nibbles-datagram (suc k) (n ∷ m ∷ ns) e a h =
    let ih = read_nibbles-datagram k (m ∷ ns) e a.1 (omega arith) in cc (nibble_value n a.0, ih)

markers-datagram :
    (k : ℕ) (ns : List ℕ) (t : List Bool)
    → suc k ≤ length ns
    → markers k (datagram_bits ns ++ t) ≡ true
unfolding markers datagram_bits
markers-datagram zero [] t h = refl
markers-datagram zero (n ∷ ns) t h = refl
markers-datagram (suc k) [] t h = absurd (omega arith)
markers-datagram (suc k) (n ∷ []) t h = absurd (omega arith)
markers-datagram (suc k) (n ∷ m ∷ ns) t h = markers-datagram k (m ∷ ns) t (omega arith)

length-datagram : (n : ℕ) (ns : List ℕ) → length (datagram_bits (n ∷ ns)) ≡ 4 + 5 * length ns
unfolding datagram_bits
length-datagram n [] = refl
length-datagram n (m ∷ ns) = omega (arith, length-datagram m ns)

-- The nibbles of a report: the constant, and the two checksums over those before.
unfoldable pub IsReport : List ℕ → Type 0
IsReport ns =
    (length ns ≡ 16)
    × All (λ n. n < 16) ns
    × (get_or ns 0 0 ≡ ws300_constant)
    × (xor_from 0 (take 15 ns) ≡ 0)
    × (get_or ns 15 0 ≡ (sum_from 0 (take 15 ns) + 5) % 16)

take-all : (n : ℕ) (s : List ℕ) → length s ≤ n → take n s ≡ s
take-all zero [] h = refl
take-all (suc n) [] h = refl
take-all zero (x ∷ xs) h = absurd (omega arith)
take-all (suc n) (x ∷ xs) h = ap (λ (t : List ℕ). x ∷ t) (take-all n xs (omega arith))

length-report : (ns : List ℕ) → length ns ≡ 16 → length (datagram_bits ns) ≡ 79
length-report [] h = absurd (omega arith)
length-report (n ∷ ns) h = omega (arith, length-datagram n ns)

parse-values :
    (ns : List ℕ) (w : Ws300)
    → IsReport ns
    → w.bits ≡ datagram_bits ns ++ (false ∷ [])
    → ws300_parse_datagram w ≡ ws300_values ns
unfolding ws300_parse_datagram IsReport
parse-values ns w (len, nibbles, first, xor, sum) bits =
    let whole =
      read_nibbles-datagram 16 ns false nibbles (omega arith) ∙ take-all 16 ns (omega arith) in
    let front = read_nibbles-datagram 15 ns false nibbles (omega arith) in
    let marked = markers-datagram 15 ns (false ∷ []) (omega arith) in
    let constant : (get_or ns 0 0 == ws300_constant) ≡ true = (==_iff _ _).1 first in
    let zero_sum : (xor_from 0 (take 15 ns) == 0) ≡ true = (==_iff _ _).1 xor in
    let equal : ((u8 (sum_from 0 (take 15 ns)) + 5) % 16 == get_or ns 15 0) ≡ true =
      (==_iff _ _).1 (omega (arith, sum)) in
    rw (bits, marked, whole, front, constant, zero_sum, equal) refl

length_of : (ns : List ℕ) → IsReport ns → length ns ≡ 16
unfolding IsReport
length_of ns report = report.0

process_values :
    (ns : List ℕ) (rec : ℕ) (r : Report)
    → rec ≡ 79
    → IsReport ns
    → ws300_process (synced rec (datagram_bits ns ++ (false ∷ [])) r)
      ≡ waiting 0 0 (ws300_values ns)
unfolding ws300_process
process_values ns rec r h report =
    rw (h, parse-values ns (synced 79 (datagram_bits ns ++ (false ∷ [])) r) report refl) refl

-- A report of the weather station, heard in a state with no bit counted and no half of one remembered,
-- is taken over: behind 8 to 127 zeros and a one, all its pulses inside the tolerance, with its
-- constant and checksums right, the next `fs20_process` has the values that `ws300_values` makes of its
-- nibbles, and the receiver is in that state again.
pub hear-report :
    (k : ℕ) (zs : List (ℕ × ℕ)) (x y : ℕ) (ps : List (ℕ × ℕ)) (ns : List ℕ) (r : Report)
    → 8 ≤ k
    → k < 128
    → Hears (replicate k false) zs
    → ws300_one x y ≡ true
    → Hears (datagram_bits ns) ps
    → IsReport ns
    → ws300_process (hear ps (ws300_edge y (ws300_edge x (hear zs (waiting 0 0 r)))))
      ≡ waiting 0 0 (ws300_values ns)
hear-report k zs x y ps ns r ge lt hz one hp report =
    let len = length-report ns (length_of ns report) in
    let zeros = heard_zeros k zs 0 r hz (omega arith) in
    let start = heard_one x y (0 + k) r one (omega arith) in
    let blank : no_bits ≡ replicate (length (datagram_bits ns)) false ++ (false ∷ []) =
      rw len refl in
    let bits = heard_bits (datagram_bits ns) ps [] (false ∷ []) 0 r hp refl (omega arith) in
    ap (λ w. ws300_process (hear ps (ws300_edge y (ws300_edge x w)))) zeros
    ∙ (ap (λ w. ws300_process (hear ps w)) start
        ∙ (ap (λ b. ws300_process (hear ps (synced 0 b r))) blank
            ∙ (ap ws300_process bits ∙ process_values ns _ r (omega arith) report)))
