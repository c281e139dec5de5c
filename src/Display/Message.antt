-- ===== src/Display/Message.antt =====
-- What `display_msg` of firmware2/display.c shows of a message array.
use matemat.Base.{
  ℕ, zero, suc, ◌+◌, ◌-◌, ◌≤◌, ◌<◌, ◌≡◌, refl, ap, sym, Bool-cases, ltb→lt, u8, ◌∙◌, List, [], ◌∷◌,
  ◌++◌, arith, length, set, take, replicate, ltb, if◌then◌else◌, length-append, length-replicate,
  length-take, append_assoc, append-nil, inl, inr, length-set, take-set_end,
}
use native.Mathlib.Nat.{add-zero}
use native.Mathlib.Numerals.{add-one}
use matemat.Base.Text.{NonZero, NonZero-append, cstr-set_end, cstr, strlen}
use matemat.Display.{blank, pad_msg}

-- The string is a prefix of its array, and holds no NUL.
take-cstr : (n : ℕ) (msg : List ℕ) → n ≤ strlen msg → take n (cstr msg) ≡ take n msg
take-cstr zero msg h = refl
take-cstr (suc n) [] h = refl
take-cstr (suc n) (c ∷ msg) h = ground (arith, take-cstr n msg)

take-NonZero : (n : ℕ) (msg : List ℕ) → n ≤ strlen msg → NonZero (take n msg)
take-NonZero zero msg h = tt
take-NonZero (suc n) [] h = absurd (omega arith)
take-NonZero (suc n) (c ∷ msg) h = (ground arith, take-NonZero n msg (ground arith))

cstr-blank :
    (k i : ℕ) (msg : List ℕ)
    → i + k < length msg
    → NonZero (take i msg)
    → cstr (set (blank k i msg) (i + k) 0) ≡ take i msg ++ replicate k b' '
unfolding blank
cstr-blank zero i msg h z = rw (add-zero, append-nil) (cstr-set_end i msg (omega arith) z)
cstr-blank (suc k) i msg h z =
    let msg' = set msg i b' ' in
    let e : take (i + 1) msg' ≡ take i msg ++ (b' ' ∷ []) =
      rw add-one (take-set_end msg i b' ' (omega arith)) in
    let z' : NonZero (take (i + 1) msg') =
      rw e (NonZero-append (take i msg) (b' ' ∷ []) z (omega arith, tt)) in
    let ih = cstr-blank k (i + 1) msg' (omega (arith, length-set msg i b' ')) z' in
    let s : i + suc k ≡ i + 1 + k = omega arith in rw s (ih ∙ rw (e, append_assoc))

take-strlen : (msg : List ℕ) → take (strlen msg) msg ≡ cstr msg
take-strlen [] = refl
take-strlen (c ∷ msg) = ground (arith, take-strlen msg)

strlen-le : (msg : List ℕ) → strlen msg ≤ length msg
strlen-le [] = omega arith
strlen-le (c ∷ msg) = ground (arith, strlen-le msg)

pad_msg-eq :
    (msg : List ℕ)
    → strlen msg < 256
    → pad_msg msg ≡ set (blank (20 - strlen msg) (strlen msg) msg) 20 0
unfolding pad_msg
pad_msg-eq msg h = let e : u8 (strlen msg) ≡ strlen msg = omega arith in rw e

pad_short :
    (msg : List ℕ)
    → 20 < length msg
    → strlen msg < 20
    → cstr (set (blank (20 - strlen msg) (strlen msg) msg) 20 0)
      ≡ cstr msg ++ replicate (20 - strlen msg) b' '
pad_short msg long h =
    let n = strlen msg in
    let e : n + (20 - n) ≡ 20 = omega arith in
    let b = cstr-blank (20 - n) n msg (omega arith) (take-NonZero n msg (omega arith)) in
    rw e at b ∙ rw (take-strlen msg)

pad_long :
    (msg : List ℕ)
    → 20 < length msg
    → 20 ≤ strlen msg
    → cstr (set (blank (20 - strlen msg) (strlen msg) msg) 20 0) ≡ take 20 (cstr msg)
unfolding blank
pad_long msg long h =
    let e : 20 - strlen msg ≡ 0 = omega arith in
    rw (e, blank) (cstr-set_end 20 msg long (take-NonZero 20 msg h) ∙ sym (take-cstr 20 msg h))

-- For a message array of 21 to 255 bytes, `display_msg` shows exactly 20 characters: the first 20
-- of the message, filled up with blanks on the right where it is shorter.
cstr-pad_msg :
    (msg : List ℕ)
    → 20 < length msg
    → length msg < 256
    → (cstr (pad_msg msg) ≡ (
        if ltb (strlen msg) 20
        then cstr msg ++ replicate (20 - strlen msg) b' '
        else take 20 (cstr msg)))
      × (strlen (pad_msg msg) ≡ 20)
cstr-pad_msg msg long short =
    rw (pad_msg-eq msg (omega (arith, strlen-le msg))) (elim (Bool-cases (ltb (strlen msg) 20)) [
      | inl p ↦
          let e = pad_short msg long (ltb→lt _ _ p) in
          (
            rw p e,
            ap length e
                ∙ omega (
                  arith,
                  ltb→lt (strlen msg) 20 p,
                  length-append (cstr msg) (replicate (20 - strlen msg) b' '),
                  length-replicate {A = ℕ} (20 - strlen msg) b' ',
                ),
          )
      | inr p ↦
          let h : 20 ≤ strlen msg = ground arith in
          let e = pad_long msg long h in
          (rw p e, ap length e ∙ omega (arith, length-take 20 (cstr msg)))
    ])

length-blank : (k i : ℕ) (msg : List ℕ) → length (blank k i msg) ≡ length msg
unfolding blank
length-blank zero i msg = refl
length-blank (suc k) i msg = length-blank k (i + 1) (set msg i b' ') ∙ length-set msg i b' '

-- The message array keeps its size.
pub length-pad_msg : (msg : List ℕ) → length (pad_msg msg) ≡ length msg
unfolding pad_msg
length-pad_msg msg =
    let n = u8 (strlen msg) in length-set (blank (20 - n) n msg) 20 0 ∙ length-blank (20 - n) n msg
