-- ===== src/Watchcat/Expected.antt =====
-- The commands expected for a change of a port of firmware/watchcat/watchcat.c.
use matemat.Base.{
  ℕ, zero, suc, ◌≡◌, ◌⊎◌, inl, inr, refl, ap, ◌∙◌, sym, Bool, true, false, not, ◌&&◌, ◌||◌, List,
  [], ◌∷◌, ◌++◌, ◌==◌, if◌then◌else◌, set, get_or, length, arith, Bool-cases,
}
use matemat.Watchcat.{Reaction, VirtualPin, watchcat_edge}

-- The row is for this port, and its pin changes in its direction from `old` to `new`.
abbrev pub applies : Reaction → ℕ → List Bool → List Bool → Bool
applies r port new old =
    let before = get_or old r.pin false in
    let after = get_or new r.pin false in
    (r.port == port)
    && ((r.rising && (not before && after)) || (not r.rising && (not after && before)))

-- The commands for a change of a port from `old` to `new`: the table is gone through once, a row
-- that applies sends its command, and its pin is then taken as reported.
unfoldable pub expected : List Reaction → ℕ → List Bool → List Bool → List ℕ
expected [] port new old = []
expected (r ∷ table) port new old =
    let here = expected table port new (set old r.pin (get_or new r.pin false)) in
    let rest = expected table port new old in
    if applies r port new old then r.command ∷ here else rest

expected_skip :
    (r : Reaction) (table : List Reaction) (port : ℕ) (q old : List Bool)
    → applies r port q old ≡ false
    → expected (r ∷ table) port q old ≡ expected table port q old
unfolding expected
expected_skip r table port q old n = rw n refl

expected_hit :
    (r : Reaction) (table : List Reaction) (port : ℕ) (q old : List Bool)
    → applies r port q old ≡ true
    → expected (r ∷ table) port q old
      ≡ r.command ∷ expected table port q (set old r.pin (get_or q r.pin false))
unfolding expected
expected_hit r table port q old y = rw y refl

unchanged :
    (r : Reaction) (port : ℕ) (q old : List Bool)
    → get_or old r.pin false ≡ get_or q r.pin false
    → applies r port q old ≡ false
unchanged r port q old e = ground (arith, e)

pub expected_refl :
    (table : List Reaction) (port : ℕ) (q : List Bool) → expected table port q q ≡ []
unfolding expected
expected_refl [] port q = refl
expected_refl (r ∷ table) port q =
    expected_skip r table port q q (unchanged r port q q refl) ∙ expected_refl table port q

get_or-set :
    (old q : List Bool) (i : ℕ)
    → length old ≡ length q
    → get_or (set old i (get_or q i false)) i false ≡ get_or q i false
get_or-set [] [] i l = refl
get_or-set [] (y ∷ q) i l = absurd (omega arith)
get_or-set (x ∷ old) [] i l = absurd (omega arith)
get_or-set (x ∷ old) (y ∷ q) zero l = refl
get_or-set (x ∷ old) (y ∷ q) (suc i) l = get_or-set old q i (omega arith)

get_or-set_either :
    (old : List Bool) (b : Bool) (j i : ℕ)
    → (get_or (set old j b) i false ≡ get_or old i false)
      ⊎ ((i ≡ j) × (get_or (set old j b) i false ≡ b))
get_or-set_either [] b j i = inl refl
get_or-set_either (x ∷ old) b zero zero = inr (refl, refl)
get_or-set_either (x ∷ old) b zero (suc i) = inl refl
get_or-set_either (x ∷ old) b (suc j) zero = inl refl
get_or-set_either (x ∷ old) b (suc j) (suc i) = elim (get_or-set_either old b j i) [
  | inl e ↦ inl e
  | inr e ↦ inr (ap suc e.0, e.1)
]

-- After `watchcat_edge` each pin is as before, or as the port's state.
watchcat_edge-pins :
    (table : List Reaction) (port : ℕ) (v : VirtualPin) (i : ℕ)
    → let v' = (watchcat_edge table port v).0 in
      (get_or v'.old_state i false ≡ get_or v.old_state i false)
      ⊎ (get_or v'.old_state i false ≡ get_or v.state i false)
unfolding watchcat_edge
watchcat_edge-pins [] port v i = inr refl
watchcat_edge-pins (r ∷ table) port v i = elim (Bool-cases (applies r port v.state v.old_state)) [
  | inr n ↦ rw n (watchcat_edge-pins table port v i)
  | inl y ↦ rw y (elim (get_or-set_either v.old_state (get_or v.state r.pin false) r.pin i) [
    | inl e ↦ inl e
    | inr e ↦ inr (e.1 ∙ ap (λ (j : ℕ). get_or v.state j false) (sym e.0))
  ])
]

-- A row that does not apply does not apply after `watchcat_edge` either.
applies-watchcat_edge :
    (r : Reaction) (table : List Reaction) (port : ℕ) (v : VirtualPin)
    → applies r port v.state v.old_state ≡ false
    → applies r port v.state (watchcat_edge table port v).0.old_state ≡ false
applies-watchcat_edge r table port v n = elim (watchcat_edge-pins table port v r.pin) [
  | inl e ↦ rw e n
  | inr e ↦ unchanged r port v.state (watchcat_edge table port v).0.old_state e
]

-- What `watchcat_edge` sends is the beginning of what is expected, and it leaves the rest to be sent.
pub watchcat_edge-expected :
    (table : List Reaction) (port : ℕ) (v : VirtualPin)
    → length v.old_state ≡ length v.state
    → let (v', sent) = watchcat_edge table port v in
      expected table port v.state v.old_state ≡ sent ++ expected table port v.state v'.old_state
unfolding watchcat_edge
watchcat_edge-expected [] port v l = unfold expected in refl
watchcat_edge-expected (r ∷ table) port v l =
    let q = v.state in
    let old1 = set v.old_state r.pin (get_or q r.pin false) in
    elim (Bool-cases (applies r port q v.old_state)) [
      | inl y ↦
          let same_pin = unchanged r port q old1 (get_or-set v.old_state q r.pin l) in
          rw y (
            expected_hit r table port q v.old_state y
            ∙ ap (λ (t : List ℕ). r.command ∷ t) (sym (expected_skip r table port q old1 same_pin)))
      | inr n ↦
          let old2 = (watchcat_edge table port v).0.old_state in
          let sent = (watchcat_edge table port v).1 in
          let later = expected_skip r table port q old2 (applies-watchcat_edge r table port v n) in
          rw n (
            expected_skip r table port q v.old_state n
            ∙ (watchcat_edge-expected table port v l ∙ ap (λ (t : List ℕ). sent ++ t) (sym later)))
    ]
