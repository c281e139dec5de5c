-- ===== src/Dataflash/Bytes.antt =====
-- Reading bytes that were written over others.
use matemat.Base.{
  sym, get_or, ◌<◌, append_assoc, take-append-drop, ◌∙◌, ℕ, zero, suc, ◌+◌, ◌≤◌, ◌≡◌, refl, ap,
  List, [], ◌∷◌, ◌++◌, arith, length, take, drop, length-append, length-take, length-drop,
  take-length_append, ◌≢◌,
}
use matemat.Dataflash.{slice, splice, program, df_pages}
use matemat.Dataflash.Layout.{byte}

splice-cons :
    (x : ℕ) (s : List ℕ) (at : ℕ) (b : List ℕ) → splice (x ∷ s) (suc at) b ≡ x ∷ splice s at b
unfolding splice
splice-cons x s at b = let e : suc at + length b ≡ suc (at + length b) = omega arith in rw e

splice-zero : (s b : List ℕ) → splice s 0 b ≡ b ++ drop (length b) s
unfolding splice
splice-zero s b = let e : 0 + length b ≡ length b = omega arith in rw e

pub length-splice :
    (s : List ℕ) (at : ℕ) (b : List ℕ)
    → at + length b ≤ length s
    → length (splice s at b) ≡ length s
unfolding splice
length-splice s at b h = omega (
  arith,
  length-append (take at s) (b ++ drop (at + length b) s),
  length-append b (drop (at + length b) s),
  length-take at s,
  length-drop (at + length b) s,
)

drop-nil : (n : ℕ) → drop {A = ℕ} n [] ≡ []
drop-nil zero = refl
drop-nil (suc n) = refl

drop-append_drop :
    (b s : List ℕ) (i : ℕ) → length b ≤ i → drop i (b ++ drop (length b) s) ≡ drop i s
drop-append_drop [] s i h = refl
drop-append_drop (c ∷ b) s zero h = absurd (omega arith)
drop-append_drop (c ∷ b) [] (suc i) h =
    let ih = drop-append_drop b [] i (omega arith) in rw (drop-nil (length b), drop-nil i) at ih
drop-append_drop (c ∷ b) (x ∷ s) (suc i) h = drop-append_drop b s i (omega arith)

-- What was written is read.
pub slice-splice_self :
    (s : List ℕ) (at : ℕ) (b : List ℕ) → at ≤ length s → slice (splice s at b) at (length b) ≡ b
slice-splice_self s zero b h = rw (splice-zero s b) (take-length_append b (drop (length b) s))
slice-splice_self [] (suc at) b h = absurd (omega arith)
slice-splice_self (x ∷ s) (suc at) b h =
    rw (splice-cons x s at b) (slice-splice_self s at b (omega arith))

-- Before and behind it, nothing has changed.
pub slice-splice_below :
    (s : List ℕ) (at : ℕ) (b : List ℕ) (i n : ℕ)
    → i + n ≤ at
    → at ≤ length s
    → slice (splice s at b) i n ≡ slice s i n
slice-splice_below s zero b i n h l = let e : n ≡ 0 = omega arith in rw e
slice-splice_below [] (suc at) b i n h l = absurd (omega arith)
slice-splice_below (x ∷ s) (suc at) b zero zero h l = refl
slice-splice_below (x ∷ s) (suc at) b zero (suc n) h l =
    rw (splice-cons x s at b)
      (ap (λ t. x ∷ t) (slice-splice_below s at b 0 n (omega arith) (omega arith)))
slice-splice_below (x ∷ s) (suc at) b (suc i) n h l =
    rw (splice-cons x s at b) (slice-splice_below s at b i n (omega arith) (omega arith))

pub slice-splice_above :
    (s : List ℕ) (at : ℕ) (b : List ℕ) (i n : ℕ)
    → at + length b ≤ i
    → at ≤ length s
    → slice (splice s at b) i n ≡ slice s i n
slice-splice_above s zero b i n h l =
    rw (splice-zero s b) (ap (take n) (drop-append_drop b s i (omega arith)))
slice-splice_above [] (suc at) b i n h l = absurd (omega arith)
slice-splice_above (x ∷ s) (suc at) b zero n h l = absurd (omega arith)
slice-splice_above (x ∷ s) (suc at) b (suc i) n h l =
    rw (splice-cons x s at b) (slice-splice_above s at b i n (omega arith) (omega arith))

pub take-take : (m n : ℕ) (s : List ℕ) → m ≤ n → take m (take n s) ≡ take m s
take-take zero n s h = refl
take-take (suc m) zero s h = absurd (omega arith)
take-take (suc m) (suc n) [] h = refl
take-take (suc m) (suc n) (x ∷ s) h = ap (λ t. x ∷ t) (take-take m n s (omega arith))

-- A part of the front of a page.
pub slice-take : (n i m : ℕ) (s : List ℕ) → i + m ≤ n → slice (take n s) i m ≡ slice s i m
slice-take n zero m s h = take-take m n s (omega arith)
slice-take zero (suc i) m s h = absurd (omega arith)
slice-take (suc n) (suc i) m [] h = refl
slice-take (suc n) (suc i) m (x ∷ s) h = slice-take n i m s (omega arith)

drop-take_append : (m n : ℕ) (s : List ℕ) → m ≤ n → drop m (take n s) ++ drop n s ≡ drop m s
drop-take_append zero n s h = take-append-drop n s
drop-take_append (suc m) zero s h = absurd (omega arith)
drop-take_append (suc m) (suc n) [] h = refl
drop-take_append (suc m) (suc n) (x ∷ s) h = drop-take_append m n s (omega arith)

-- A front that is read, changed and written back.
pub splice-splice_front :
    (s : List ℕ) (n at : ℕ) (b : List ℕ)
    → at + length b ≤ n
    → n ≤ length s
    → splice s 0 (splice (slice s 0 n) at b) ≡ splice s at b
splice-splice_front s n at b h l =
    let front = splice (take n s) at b in
    let tl : length (take n s) ≡ n = omega (arith, length-take n s) in
    let size : length front ≡ n = length-splice (take n s) at b (omega (arith, tl)) ∙ tl in
    rw (splice-zero s front, size)
      (unfold splice in
        rw (
          append_assoc,
          append_assoc,
          drop-take_append (at + length b) n s h,
          take-take at n s (omega arith),
        ))

get_or-take : (n : ℕ) (s : List ℕ) (i : ℕ) → i < n → get_or (take n s) i 0 ≡ get_or s i 0
get_or-take zero s i h = absurd (omega arith)
get_or-take (suc n) [] i h = refl
get_or-take (suc n) (x ∷ s) zero h = refl
get_or-take (suc n) (x ∷ s) (suc i) h = get_or-take n s i (omega arith)

pub get_or-drop : (n : ℕ) (s : List ℕ) (i : ℕ) → get_or (drop n s) i 0 ≡ get_or s (n + i) 0
get_or-drop zero s i = let e : 0 + i ≡ i = omega arith in rw e
get_or-drop (suc n) [] i = refl
get_or-drop (suc n) (x ∷ s) i =
    let e : suc n + i ≡ suc (n + i) = omega arith in rw e (get_or-drop n s i)

-- A byte of a part of a page.
pub byte-slice : (s : List ℕ) (at n i : ℕ) → i < n → byte (slice s at n) i ≡ byte s (at + i)
byte-slice s at n i h = get_or-take n (drop at s) i h ∙ get_or-drop at s i

-- Two pages that agree in a part agree in its bytes.
pub byte-slice_eq :
    (s t : List ℕ) (at n i : ℕ)
    → i < n
    → slice s at n ≡ slice t at n
    → byte s (at + i) ≡ byte t (at + i)
byte-slice_eq s t at n i h e =
    sym (byte-slice s at n i h) ∙ ap (λ (x : List ℕ). byte x i) e ∙ byte-slice t at n i h

-- A page that is programmed, and another one.
pub program-other :
    (p : ℕ) (bytes : List ℕ) (m : ℕ → List ℕ) (q : ℕ)
    → p < df_pages
    → q ≢ p
    → program p bytes m q ≡ m q
unfolding program
program-other p bytes m q b o = ground arith

pub program-same :
    (p : ℕ) (bytes : List ℕ) (m : ℕ → List ℕ) → p < df_pages → program p bytes m p ≡ bytes
unfolding program
program-same p bytes m b = ground arith
