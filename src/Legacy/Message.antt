-- ===== src/Legacy/Message.antt =====
-- A display message that the host of firmware/matemat/matemat.c sends.
use matemat.Base.{
  ℕ, zero, suc, ◌+◌, ◌-◌, ◌≤◌, ◌<◌, ◌≡◌, ◌≢◌, refl, ap, ◌∙◌, List, [], ◌∷◌, ◌++◌, arith, length,
  set, take, drop, replicate, length-take, append-nil, append_assoc, All, length-set,
  length-replicate, false,
}
use matemat.Base.Text.{NonZero, NonZero-append, cstr, cstr-set_end}
use matemat.Legacy.Invariant.{length-blank}
use matemat.Legacy.{Machine, Output, goto, print_format, udr, usart_rx, blank, matemat_putmsg}

-- The characters of a message: neither a line end, nor NUL, nor the percent sign, since the text is
-- the format of `fprintf_P`.
abbrev pub IsText : List ℕ → Type 0
IsText s = All (λ c. (0 < c) × (c ≢ 10) × (c ≢ 13) × (c ≢ b'%')) s

-- The characters of `s` received one after another, with what is put out.
pub receive : List ℕ → Machine → Machine × List Output
receive [] m = (m, [])
receive (c ∷ s) m =
    let (m1, out) = usart_rx false c m in let (m2, rest) = receive s m1 in (m2, out ++ rest)

-- `s` written from the index `i` on.
fill : List ℕ → ℕ → List ℕ → List ℕ
fill [] i msg = msg
fill (c ∷ s) i msg = fill s (i + 1) (set msg i c)

fill-suc : (s : List ℕ) (i x : ℕ) (xs : List ℕ) → fill s (suc i) (x ∷ xs) ≡ x ∷ fill s i xs
unfolding fill
fill-suc [] i x xs = refl
fill-suc (c ∷ s) i x xs =
    let e : suc i + 1 ≡ suc (i + 1) = omega arith in rw e (fill-suc s (i + 1) x (set xs i c))

fill-zero : (s msg : List ℕ) → length s ≤ length msg → fill s 0 msg ≡ s ++ drop (length s) msg
unfolding fill
fill-zero [] msg h = refl
fill-zero (c ∷ s) [] h = absurd (omega arith)
fill-zero (c ∷ s) (x ∷ msg) h = fill-suc s 0 c msg ∙ ap (λ t. c ∷ t) (fill-zero s msg (omega arith))

take-set : (n i v : ℕ) (xs : List ℕ) → take n (set xs i v) ≡ set (take n xs) i v
take-set zero i v xs = refl
take-set (suc n) i v [] = refl
take-set (suc n) zero v (x ∷ xs) = refl
take-set (suc n) (suc i) v (x ∷ xs) = ap (λ t. x ∷ t) (take-set n i v xs)

take-fill : (n : ℕ) (s : List ℕ) (i : ℕ) (xs : List ℕ) → take n (fill s i xs) ≡ fill s i (take n xs)
unfolding fill
take-fill n [] i xs = refl
take-fill n (c ∷ s) i xs = take-fill n s (i + 1) (set xs i c) ∙ rw (take-set n i c xs)

length-fill : (s : List ℕ) (i : ℕ) (xs : List ℕ) → length (fill s i xs) ≡ length xs
unfolding fill
length-fill [] i xs = refl
length-fill (c ∷ s) i xs = length-fill s (i + 1) (set xs i c) ∙ length-set xs i c

blank-fill : (k i : ℕ) (msg : List ℕ) → blank k i msg ≡ fill (replicate k b' ') i msg
unfolding blank fill
blank-fill zero i msg = refl
blank-fill (suc k) i msg = blank-fill k (i + 1) (set msg i b' ')

drop-replicate : (i k : ℕ) → i ≤ k → drop {A = ℕ} i (replicate k b' ') ≡ replicate (k - i) b' '
drop-replicate zero k h = let e : k - 0 ≡ k = omega arith in rw e
drop-replicate (suc i) zero h = absurd (omega arith)
drop-replicate (suc i) (suc k) h =
    let e : suc k - suc i ≡ k - i = omega arith in rw e (drop-replicate i k (omega arith))

drop-take : (n : ℕ) (xs : List ℕ) → drop n (take n xs) ≡ []
drop-take zero xs = refl
drop-take (suc n) [] = refl
drop-take (suc n) (x ∷ xs) = drop-take n xs

IsText-NonZero : (s : List ℕ) → IsText s → NonZero s
IsText-NonZero [] h = tt
IsText-NonZero (c ∷ s) h = (h.0.0, IsText-NonZero s h.1)

blanks-NonZero : (k : ℕ) → NonZero (replicate k b' ')
blanks-NonZero zero = tt
blanks-NonZero (suc k) = (omega arith, blanks-NonZero k)

usart_rx-text :
    (c : ℕ) (m : Machine)
    → m.print ≡ 1
    → m.msgp ≤ 19
    → (0 < c) × (c ≢ 10) × (c ≢ 13) × (c ≢ b'%')
    → let (m', out) = usart_rx false c m in
      (out ≡ [])
      × (m'.print ≡ 1)
      × (m'.msg ≡ set m.msg m.msgp c)
      × (m.msgp < 19 → m'.msgp ≡ m.msgp + 1)
unfolding usart_rx
usart_rx-text c m p b h = ground arith

usart_rx-end :
    (m : Machine)
    → m.print ≡ 1
    → let (m', out) = usart_rx false 10 m in
      (out ≡ goto 0 0 ∷ print_format (cstr (set m.msg 20 0)) ∷ udr b'D' ∷ []) × (m'.print ≡ 0)
unfolding usart_rx matemat_putmsg
usart_rx-end m p = ground arith

receive-text :
    (s : List ℕ) (m : Machine)
    → m.print ≡ 1
    → m.msgp + length s ≤ 20
    → m.msgp ≤ 19
    → IsText s
    → let (m', out) = receive s m in (out ≡ []) × (m'.print ≡ 1) × (m'.msg ≡ fill s m.msgp m.msg)
unfolding receive fill
receive-text [] m p n b t = (refl, p, refl)
receive-text (c ∷ []) m p n b t = let (e, p', w, _) = usart_rx-text c m p b t.0 in (rw e, p', w)
receive-text (c ∷ d ∷ s) m p n b t =
    let (e, p', w, k) = usart_rx-text c m p b t.0 in
    let next = k (omega arith) in
    let m1 = (usart_rx false c m).0 in
    let n' : m1.msgp + length (d ∷ s) ≤ 20 = omega (arith, next) in
    let (e2, p2, w2) = receive-text (d ∷ s) m1 p' n' (omega (arith, n')) t.1 in
    (rw e e2, p2, w2 ∙ rw (next, w))

-- What the message array shows once `s` was written over twenty blanks.
cstr-fill :
    (s msg : List ℕ)
    → 20 < length msg
    → length s ≤ 20
    → NonZero s
    → cstr (set (fill s 0 (blank 20 0 msg)) 20 0) ≡ s ++ replicate (20 - length s) b' '
cstr-fill s msg long short z =
    let b = replicate {A = ℕ} 20 b' ' in
    let shut = fill s 0 (blank 20 0 msg) in
    let twenty : length (take 20 msg) ≡ 20 = omega (arith, length-take 20 msg) in
    let written : take 20 (blank 20 0 msg) ≡ b =
      rw (blank-fill 20 0 msg) (take-fill 20 b 0 msg)
      ∙ (fill-zero b (take 20 msg) (omega (arith, twenty, length-replicate {A = ℕ} 20 b' '))
          ∙ rw (length-replicate {A = ℕ} 20 b' ', drop-take 20 msg)) in
    let text : take 20 shut ≡ s ++ replicate (20 - length s) b' ' =
      take-fill 20 s 0 (blank 20 0 msg)
      ∙ (rw written (
          fill-zero s b (omega (arith, length-replicate {A = ℕ} 20 b' '))
          ∙ rw (drop-replicate (length s) 20 short))) in
    let size : 20 < length shut =
      omega (arith, length-fill s 0 (blank 20 0 msg), length-blank 20 0 msg) in
    let solid : NonZero (take 20 shut) =
      rw text
        (NonZero-append s (replicate (20 - length s) b' ') z (blanks-NonZero (20 - length s))) in
    cstr-set_end 20 shut size solid ∙ text

receive-append :
    (s t : List ℕ) (m : Machine)
    → let (m1, out) = receive s m in
      let (m2, rest) = receive t m1 in receive (s ++ t) m ≡ (m2, out ++ rest)
unfolding receive
receive-append [] t m = refl
receive-append (c ∷ s) t m = rw (receive-append s t (usart_rx false c m).0, append_assoc)

receive-message :
    (s : List ℕ) (m : Machine)
    → m.print ≡ 0
    → let m1 = record m { msg = blank 20 0 m.msg; print = 1; msgp = 0 } in
      (receive s m1).1 ≡ []
      → receive (b'D' ∷ (s ++ (10 ∷ []))) m ≡ usart_rx false 10 (receive s m1).0
unfolding receive
receive-message s m p e =
    let m1 = record m { msg = blank 20 0 m.msg; print = 1; msgp = 0 } in
    let first : usart_rx false b'D' m ≡ (m1, []) = unfold usart_rx in rw p in
    rw (first, receive-append s (10 ∷ []) m1, e, append-nil)

-- While no message is being received, `D`, a text of at most twenty characters without NUL, line end and
-- percent sign, and a line feed put out exactly the text, filled up with blanks to twenty columns, at
-- the first column of the first line, and are answered with one `D`; afterwards commands are obeyed
-- again.
pub message-shown :
    (s : List ℕ) (m : Machine)
    → m.print ≡ 0
    → 20 < length m.msg
    → length s ≤ 20
    → IsText s
    → let (m', out) = receive (b'D' ∷ (s ++ (10 ∷ []))) m in
      (out ≡ goto 0 0 ∷ print_format (s ++ replicate (20 - length s) b' ') ∷ udr b'D' ∷ [])
      × (m'.print ≡ 0)
message-shown s m p long short t =
    let m1 = record m { msg = blank 20 0 m.msg; print = 1; msgp = 0 } in
    let (e, p2, w) = receive-text s m1 refl (omega (arith, short)) (omega arith) t in
    let last = usart_rx-end (receive s m1).0 p2 in
    let shown = cstr-fill s m.msg long short (IsText-NonZero s t) in
    let whole = receive-message s m p e in (rw whole (last.0 ∙ rw (w, shown)), rw whole last.1)
