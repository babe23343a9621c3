-- ===== src/Cpplint/Comments/Walk.antt =====
-- The walk of Comments/Multi over the parts of a list of lines.
use cmu.Base.{
  ℕ, ◌+◌, ◌≡◌, refl, ap, Bool, true, false, ◌||◌, none, some, List, [], ◌∷◌, ◌++◌, map, arith,
  length, Text,
}
use cmu.Cpplint.Comments.{opens_comment, closes_comment}
use cmu.Cpplint.Comments.Multi.{any, cleared, blank, unclosed}

pub blank-append_no_open :
    (before s : List Text)
    → any opens_comment before ≡ false
    → blank false (before ++ s) ≡ before ++ blank false s
blank-append_no_open [] s h = refl
blank-append_no_open (l ∷ before) s h = ground (arith, blank-append_no_open before s)

pub unclosed-append_no_open :
    (n : ℕ) (before s : List Text)
    → any opens_comment before ≡ false
    → unclosed false n (before ++ s) ≡ unclosed false (n + length before) s
unclosed-append_no_open n [] s h = ap (λ m. unclosed false m s) (omega arith)
unclosed-append_no_open n (l ∷ before) s h =
    ground (arith, unclosed-append_no_open (n + 1) before s)

any-append {ℓ} :
    {A : Type ℓ} (test : A → Bool) (xs ys : List A)
    → any test (xs ++ ys) ≡ (any test xs || any test ys)
any-append test [] ys = refl
any-append test (x ∷ xs) ys = ground (arith, any-append test xs ys)

pub any-closes_at :
    (before after : List Text) (at : Text)
    → closes_comment at ≡ true
    → any closes_comment (before ++ at ∷ after) ≡ true
any-closes_at before after at h = ground (arith, any-append closes_comment before (at ∷ after))

-- Inside a comment all lines are cleared up to the one that closes it.
pub blank-inside :
    (before after : List Text) (at : Text)
    → any closes_comment before ≡ false
    → closes_comment at ≡ true
    → blank true (before ++ at ∷ after)
      ≡ map (λ _. cleared) (before ++ at ∷ []) ++ blank false after
blank-inside [] after at h k = ground arith
blank-inside (l ∷ before) after at h k = ground (arith, blank-inside before after at)

pub unclosed-inside :
    (n : ℕ) (before after : List Text) (at : Text)
    → any closes_comment before ≡ false
    → closes_comment at ≡ true
    → unclosed true n (before ++ at ∷ after) ≡ unclosed false (n + length before + 1) after
unclosed-inside n [] after at h k = ground arith
unclosed-inside n (l ∷ before) after at h k =
    ground (arith, unclosed-inside (n + 1) before after at)

-- A line that opens a comment which is closed starts the inside.
pub blank-open :
    (l : Text) (ls : List Text)
    → opens_comment l ≡ true
    → any closes_comment (l ∷ ls) ≡ true
    → blank false (l ∷ ls) ≡ blank true (l ∷ ls)
blank-open l ls h k = ground arith

pub unclosed-open :
    (n : ℕ) (l : Text) (ls : List Text)
    → opens_comment l ≡ true
    → any closes_comment (l ∷ ls) ≡ true
    → unclosed false n (l ∷ ls) ≡ unclosed true n (l ∷ ls)
unclosed-open n l ls h k = ground arith

pub blank-no_close : (s : List Text) → any closes_comment s ≡ false → blank false s ≡ s
blank-no_close [] h = refl
blank-no_close (l ∷ s) h = ground (arith, blank-no_close s)

pub unclosed-no_open :
    (n : ℕ) (s : List Text) → any opens_comment s ≡ false → unclosed false n s ≡ none
unclosed-no_open n [] h = refl
unclosed-no_open n (l ∷ s) h = ground (arith, unclosed-no_open (n + 1) s)

pub blank-no_open : (s : List Text) → any opens_comment s ≡ false → blank false s ≡ s
blank-no_open [] h = refl
blank-no_open (l ∷ s) h = ground (arith, blank-no_open s)

pub unclosed-never :
    (n : ℕ) (l : Text) (ls : List Text)
    → opens_comment l ≡ true
    → any closes_comment (l ∷ ls) ≡ false
    → unclosed false n (l ∷ ls) ≡ some n
unclosed-never n l ls h k = ground arith
