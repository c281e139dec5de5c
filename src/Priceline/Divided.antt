-- ===== src/Priceline/Divided.antt =====
-- An order of firmware2/priceline.c that timer interrupts divide.
use matemat.Base.{
  [], ◌∷◌, refl, ◌∙◌, ℕ, List, Bool, true, ◌≡◌, ◌||◌, if◌then◌else◌, ◌&&◌, false, arith, Bool-cases,
  inl, inr, ==_iff, ◌==◌,
}
use matemat.Priceline.{Priceline, may_serve, serve_grant, interrupt, serve_pin}
use matemat.Priceline.Invariant.{IsPriceline, interrupt-IsPriceline}

-- Timer interrupts with the levels of the two price lines.
unfoldable pub interrupts : List (Bool × Bool) → Priceline → Priceline
interrupts [] s = s
interrupts ((high1, high3) ∷ js) s = interrupts js (interrupt high1 high3 s)

-- `priceline_serve` with the interrupts `js` behind its guards and `ks` behind its first store.
unfoldable pub serve_divided :
    List (Bool × Bool) → ℕ → List (Bool × Bool) → Priceline → Priceline × Bool
serve_divided js pl ks s =
    if may_serve pl s
    then (serve_grant (interrupts ks (serve_pin pl (interrupts js s))), true)
    else (s, false)

-- None of the interrupts changes the request.
unfoldable pub keep_request : List (Bool × Bool) → Priceline → Bool
keep_request [] s = true
keep_request ((high1, high3) ∷ js) s =
    let s' = interrupt high1 high3 s in (s'.pl == s.pl) && keep_request js s'

-- None of the interrupts inside an accepted order changes the request.
unfoldable pub order_undisturbed : List (Bool × Bool) → ℕ → List (Bool × Bool) → Priceline → Bool
order_undisturbed js pl ks s =
    if may_serve pl s
    then keep_request js s && keep_request ks (serve_pin pl (interrupts js s))
    else true

pub and_true : {x y : Bool} → (x && y) ≡ true → (x ≡ true) × (y ≡ true)
and_true {x = true} {y = true} h = (refl, refl)
and_true {x = true} {y = false} h = absurd (ground arith)
and_true {x = false} h = absurd (ground arith)

keep_request-may_serve :
    (a b : Bool) (pl : ℕ) (s : Priceline)
    → (interrupt a b s).pl ≡ s.pl
    → may_serve pl (interrupt a b s) ≡ may_serve pl s
unfolding may_serve
keep_request-may_serve a b pl s e = rw e refl

interrupts-IsPriceline :
    (js : List (Bool × Bool)) (pl : ℕ) (s : Priceline)
    → IsPriceline s
    → may_serve pl s ≡ true
    → keep_request js s ≡ true
    → IsPriceline (interrupts js s) × (may_serve pl (interrupts js s) ≡ true)
unfolding interrupts keep_request
interrupts-IsPriceline [] pl s h m k = (h, m)
interrupts-IsPriceline ((a, b) ∷ js) pl s h m k =
    let (same, rest) = and_true k in
    interrupts-IsPriceline js pl (interrupt a b s) (interrupt-IsPriceline a b s h)
      (keep_request-may_serve a b pl s ((==_iff _ _).0 same) ∙ m) rest

-- Some serve line is on.
abbrev serving : Priceline → Bool
serving s = s.serve1 || s.serve3

interrupt-serving :
    (a b : Bool) (pl : ℕ) (s : Priceline)
    → may_serve pl s ≡ true
    → (interrupt a b s).pl ≡ s.pl
    → serving s ≡ true
    → serving (interrupt a b s) ≡ true
unfolding may_serve interrupt
interrupt-serving true true pl s m e h = ground arith
interrupt-serving _ _ pl s m e h = ground arith

interrupts-serving :
    (js : List (Bool × Bool)) (pl : ℕ) (s : Priceline)
    → may_serve pl s ≡ true
    → keep_request js s ≡ true
    → serving s ≡ true
    → serving (interrupts js s) ≡ true
unfolding interrupts keep_request
interrupts-serving [] pl s m k h = h
interrupts-serving ((a, b) ∷ js) pl s m k h =
    let (same, rest) = and_true k in
    let e = (==_iff _ _).0 same in
    interrupts-serving js pl (interrupt a b s) (keep_request-may_serve a b pl s e ∙ m) rest
      (interrupt-serving a b pl s m e h)

serve_pin-IsPriceline :
    (pl : ℕ) (s : Priceline)
    → IsPriceline s
    → may_serve pl s ≡ true
    → IsPriceline (serve_pin pl s)
      × (may_serve pl (serve_pin pl s) ≡ true)
      × (serving (serve_pin pl s) ≡ true)
unfolding may_serve serve_pin
serve_pin-IsPriceline pl s h m = (ground arith, ground arith, ground arith)

serve_grant-IsPriceline :
    (s : Priceline) → IsPriceline s → serving s ≡ true → IsPriceline (serve_grant s)
unfolding serve_grant
serve_grant-IsPriceline s h m = ground arith

-- An order divided by interrupts that leave the request keeps the invariant.
pub serve_divided-IsPriceline :
    (js ks : List (Bool × Bool)) (pl : ℕ) (s : Priceline)
    → IsPriceline s
    → order_undisturbed js pl ks s ≡ true
    → IsPriceline (serve_divided js pl ks s).0
unfolding serve_divided order_undisturbed
serve_divided-IsPriceline js ks pl s h k = elim (Bool-cases (may_serve pl s)) [
  | inl m ↦
      let (kj, kk) = and_true (rw m at k) in
      let before = interrupts-IsPriceline js pl s h m kj in
      let pin = serve_pin-IsPriceline pl (interrupts js s) before.0 before.1 in
      let after = interrupts-IsPriceline ks pl _ pin.0 pin.1 kk in
      let on = interrupts-serving ks pl _ pin.1 kk pin.2 in
      rw m (serve_grant-IsPriceline _ after.0 on)
  | inr m ↦ rw m h
]
