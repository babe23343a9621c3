-- ===== src/Cpplint/Expression/Lines.antt =====
-- Lists cut at a place that is told by what stands before it.
use cmu.Base.{
  suc, ◌+◌, ◌≡◌, refl, ap, ◌∙◌, some, List, [], ◌∷◌, ◌++◌, arith, length, get_elem?, drop, Text,
}

abbrev pub concat : List Text → Text
concat [] = []
concat (l ∷ ls) = l ++ concat ls

pub drop-length {ℓ} : {A : Type ℓ} (pre xs : List A) → drop (length pre) (pre ++ xs) ≡ xs
drop-length [] xs = refl
drop-length (x ∷ pre) xs = drop-length pre xs

pub drop-suc {ℓ} :
    {A : Type ℓ} (pre : List A) (x : A) (xs : List A) → drop (length pre + 1) (pre ++ x ∷ xs) ≡ xs
drop-suc [] x xs = refl
drop-suc (y ∷ pre) x xs =
    let e : suc (length pre) + 1 ≡ suc (length pre + 1) = omega arith in
    ap (λ k. drop k (y ∷ (pre ++ x ∷ xs))) e ∙ drop-suc pre x xs

pub get_elem?-length {ℓ} :
    {A : Type ℓ} (pre : List A) (x : A) (xs : List A)
    → get_elem? (pre ++ x ∷ xs) (length pre) ≡ some x
get_elem?-length [] x xs = refl
get_elem?-length (y ∷ pre) x xs = get_elem?-length pre x xs
