-- ===== src/Watchcat/Differing.antt =====
-- The pins in which two bytes of firmware/watchcat/watchcat.c differ.
use matemat.Base.{
  ℕ, zero, suc, ◌≤◌, ◌<◌, ◌≡◌, refl, ap, Bool, true, false, List, [], ◌∷◌, arith, set, get_or,
  length, not, ◌&&◌, ◌||◌,
}
use matemat.Watchcat.{same}

-- How many pins differ.
pub differing : List Bool → List Bool → ℕ
differing (true ∷ xs) (false ∷ ys) = suc (differing xs ys)
differing (false ∷ xs) (true ∷ ys) = suc (differing xs ys)
differing (_ ∷ xs) (_ ∷ ys) = differing xs ys
differing _ _ = 0

pub same_refl : (xs : List Bool) → same xs xs ≡ true
unfolding same
same_refl [] = refl
same_refl (true ∷ xs) = same_refl xs
same_refl (false ∷ xs) = same_refl xs

pub same_sound : (xs ys : List Bool) → same xs ys ≡ true → xs ≡ ys
unfolding same
same_sound [] [] h = refl
same_sound (true ∷ xs) (true ∷ ys) h = ap (λ t. true ∷ t) (same_sound xs ys h)
same_sound (false ∷ xs) (false ∷ ys) h = ap (λ t. false ∷ t) (same_sound xs ys h)
same_sound [] (y ∷ ys) h = absurd (ground arith)
same_sound (true ∷ xs) [] h = absurd (ground arith)
same_sound (false ∷ xs) [] h = absurd (ground arith)
same_sound (true ∷ xs) (false ∷ ys) h = absurd (ground arith)
same_sound (false ∷ xs) (true ∷ ys) h = absurd (ground arith)

pub differing-bound : (xs ys : List Bool) → differing xs ys ≤ length xs
unfolding differing
differing-bound [] ys = ground arith
differing-bound (x ∷ xs) [] = ground arith
differing-bound (x ∷ xs) (y ∷ ys) = let ih = differing-bound xs ys in ground (arith, ih)

pub differing-zero : (xs ys : List Bool) → length xs ≡ length ys → differing xs ys ≡ 0 → xs ≡ ys
unfolding differing
differing-zero [] [] l h = refl
differing-zero [] (y ∷ ys) l h = absurd (omega arith)
differing-zero (x ∷ xs) [] l h = absurd (omega arith)
differing-zero (true ∷ xs) (true ∷ ys) l h =
    ap (λ t. true ∷ t) (differing-zero xs ys (omega arith) h)
differing-zero (false ∷ xs) (false ∷ ys) l h =
    ap (λ t. false ∷ t) (differing-zero xs ys (omega arith) h)
differing-zero (true ∷ xs) (false ∷ ys) l h = absurd (omega arith)
differing-zero (false ∷ xs) (true ∷ ys) l h = absurd (omega arith)

pub differing_refl : (xs : List Bool) → differing xs xs ≡ 0
unfolding differing
differing_refl [] = refl
differing_refl (true ∷ xs) = differing_refl xs
differing_refl (false ∷ xs) = differing_refl xs

pub differing-set :
    (xs ys : List Bool) (i : ℕ)
    → length xs ≡ length ys
    → (get_or xs i false && not (get_or ys i false))
        || (not (get_or xs i false) && get_or ys i false)
      ≡ true
    → differing xs (set ys i (get_or xs i false)) < differing xs ys
unfolding differing
differing-set [] [] i l h = absurd (ground arith)
differing-set [] (y ∷ ys) i l h = absurd (omega arith)
differing-set (x ∷ xs) [] i l h = absurd (omega arith)
differing-set (true ∷ xs) (true ∷ ys) zero l h = absurd (ground arith)
differing-set (false ∷ xs) (false ∷ ys) zero l h = absurd (ground arith)
differing-set (true ∷ xs) (false ∷ ys) zero l h = omega arith
differing-set (false ∷ xs) (true ∷ ys) zero l h = omega arith
differing-set (x ∷ xs) (y ∷ ys) (suc i) l h =
    let ih = differing-set xs ys i (omega arith) h in ground (arith, ih)
