-- ===== src/PyText/Ends.antt =====
-- The last character of a text: `endswith` of one character, and a slice that leaves it out.
use mathlib.Core.List.{reverse-append}
use cmu.Base.{
  ℕ, ◌-◌, ◌≡◌, refl, ap, ◌⊎◌, inl, inr, [], ◌∷◌, ◌++◌, arith, ◌==◌, length, length-append, take,
  Text,
}
use cmu.PyText.{starts_with, ends_with}

-- A text is empty or has a last character.
pub last-cases : (t : Text) → (t ≡ []) ⊎ ((xs : Text) × (y : ℕ) × (t ≡ xs ++ y ∷ []))
last-cases [] = inl refl
last-cases (x ∷ t) = elim (last-cases t) [
  | inl e ↦ inr ([], x, ap (◌∷◌ x) e)
  | inr (xs, y, e) ↦ inr (x ∷ xs, y, ap (◌∷◌ x) e)
]

pub ends_with-concat : (c : ℕ) (xs : Text) (y : ℕ) → ends_with (c ∷ []) (xs ++ y ∷ []) ≡ (c == y)
unfolding ends_with starts_with
ends_with-concat c xs y = rw reverse-append (ground arith)

take_all : (xs ys : Text) → take (length xs) (xs ++ ys) ≡ xs
take_all [] ys = refl
take_all (x ∷ xs) ys = ap (◌∷◌ x) (take_all xs ys)

pub take-length-concat : (xs : Text) (y : ℕ) → take (length (xs ++ y ∷ []) - 1) (xs ++ y ∷ []) ≡ xs
take-length-concat xs y =
    let e : length (xs ++ y ∷ []) - 1 ≡ length xs = omega (arith, length-append xs (y ∷ [])) in
    rw e (take_all xs (y ∷ []))
