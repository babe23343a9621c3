-- ===== src/PyText/Replace.antt =====
-- What `replace` and `lower` leave out, and where they change nothing.
use cmu.Base.{ℕ, zero, ◌≡◌, refl, true, false, ◌||◌, [], ◌∷◌, ◌++◌, arith, leb, Text}
use cmu.PyText.{contains, starts_with, replace_from, replace, lower_char, lower}

contains-append : (c : ℕ) (s t : Text) → contains c (s ++ t) ≡ (contains c s || contains c t)
unfolding contains
contains-append c [] t = refl
contains-append c (x ∷ s) t = ground (arith, contains-append c s t)

-- A text without the first character of the pattern stays as it is.
replace_from-id : (x : ℕ) (p new s : Text) → contains x s ≡ false → replace_from zero x p new s ≡ s
unfolding replace_from starts_with contains
replace_from-id x p new [] h = refl
replace_from-id x p new (c ∷ s) h = ground (arith, replace_from-id x p new s)

pub replace-id : (x : ℕ) (p new s : Text) → contains x s ≡ false → replace (x ∷ p) new s ≡ s
unfolding replace
replace-id x p new s h = replace_from-id x p new s h

-- After a character is replaced by others, it is gone.
contains-replace_from :
    (x : ℕ) (new s : Text)
    → contains x new ≡ false
    → contains x (replace_from zero x [] new s) ≡ false
unfolding replace_from starts_with contains
contains-replace_from x new [] h = refl
contains-replace_from x new (c ∷ s) h =
    ground
      (arith, contains-replace_from x new s h, contains-append x new (replace_from zero x [] new s))

pub contains-replace :
    (x : ℕ) (new s : Text) → contains x new ≡ false → contains x (replace (x ∷ []) new s) ≡ false
unfolding replace
contains-replace x new s h = contains-replace_from x new s h

-- Lowering makes no character that is not a lower-case letter.
pub contains-lower :
    (x : ℕ) (s : Text) → leb x 64 ≡ true → contains x s ≡ false → contains x (lower s) ≡ false
unfolding contains lower lower_char
contains-lower x [] l h = refl
contains-lower x (c ∷ s) l h = ground (arith, contains-lower x s l)

pub lower-lower : (s : Text) → lower (lower s) ≡ lower s
unfolding lower lower_char
lower-lower [] = refl
lower-lower (c ∷ s) = ground (arith, lower-lower s)
