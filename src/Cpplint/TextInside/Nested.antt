-- ===== src/Cpplint/TextInside/Nested.antt =====
-- `_GetTextInside` of build_support/cpplint.py finds the closing punctuation that matches.
use cmu.Base.{
  append-nil, sym, ◌≡⟨◌⟩◌, ◌∎, ℕ, ◌≡◌, refl, ap, ◌∙◌, true, false, Option, none, some, List, [],
  ◌∷◌, ◌++◌, append_assoc, arith, Text,
}
use cmu.Regex.{Re, Cursor, search_multiline}
use cmu.Cpplint.TextInside.{
  is_opening, is_closing, matching_punctuation, cons_text, text_until, behind_match,
  get_text_inside,
}

-- a text in which each bracket is matched by one of its kind
pub data IsNested : Text → Type 0 where
  nil : IsNested []
  other :
      (c : ℕ) {s : Text}
      → is_opening c ≡ false
      → is_closing c ≡ false
      → IsNested s
      → IsNested (c ∷ s)
  brackets :
      (c : ℕ) (s t : Text)
      → is_opening c ≡ true
      → IsNested s
      → IsNested t
      → IsNested (c ∷ s ++ matching_punctuation c ∷ t)

abbrev before_text : Text → Option Text → Option Text
before_text s none = none
before_text s (some t) = some (s ++ t)

abbrev IsTop : ℕ → Type 0
IsTop top = is_closing top ≡ true

-- what a character that is no bracket does, and one that opens
text_until-other :
    (c top : ℕ) (stack : List ℕ) (s : Text)
    → IsTop top
    → is_opening c ≡ false
    → is_closing c ≡ false
    → text_until top stack (c ∷ s) ≡ cons_text c (text_until top stack s)
unfolding text_until
text_until-other c top stack s k o e = ground arith

text_until-opening :
    (c top : ℕ) (stack : List ℕ) (s : Text)
    → IsTop top
    → is_opening c ≡ true
    → text_until top stack (c ∷ s)
      ≡ cons_text c (text_until (matching_punctuation c) (top ∷ stack) s)
unfolding text_until
text_until-opening c top stack s k o = ground arith

text_until-closing :
    (top next : ℕ) (stack : List ℕ) (s : Text)
    → text_until top (next ∷ stack) (top ∷ s) ≡ cons_text top (text_until next stack s)
unfolding text_until
text_until-closing top next stack s = ground arith

text_until-end : (top : ℕ) (s : Text) → text_until top [] (top ∷ s) ≡ some []
unfolding text_until
text_until-end top s = ground arith

matching-IsTop : (c : ℕ) → is_opening c ≡ true → IsTop (matching_punctuation c)
matching-IsTop c o = ground arith

before_text-nil : (o : Option Text) → o ≡ before_text [] o
before_text-nil none = refl
before_text-nil (some t) = refl

cons-before_text :
    (c : ℕ) (s : Text) (o : Option Text) → cons_text c (before_text s o) ≡ before_text (c ∷ s) o
cons-before_text c s none = refl
cons-before_text c s (some t) = refl

brackets-before_text :
    (c d : ℕ) (s u : Text) (o : Option Text)
    → cons_text c (before_text s (cons_text d (before_text u o))) ≡ before_text (c ∷ s ++ d ∷ u) o
brackets-before_text c d s u none = refl
brackets-before_text c d s u (some t) = ap (λ x. some (c ∷ x)) (sym (append_assoc s (d ∷ u) t))

-- A nested text is read as a whole, whatever is expected behind it.
text_until-IsNested :
    {s : Text} (n : IsNested s) (top : ℕ) (stack : List ℕ) (t : Text)
    → IsTop top
    → text_until top stack (s ++ t) ≡ before_text s (text_until top stack t)
text_until-IsNested nil top stack t k = before_text-nil (text_until top stack t)
text_until-IsNested (other c {s} o e n) top stack t k =
    text_until-other c top stack (s ++ t) k o e
    ∙ ap (cons_text c) (text_until-IsNested n top stack t k)
    ∙ cons-before_text c s (text_until top stack t)
text_until-IsNested (brackets c s u o n m) top stack t k =
    text_until top stack (c ∷ ((s ++ matching_punctuation c ∷ u) ++ t))
    ≡⟨ ap (λ x. text_until top stack (c ∷ x)) (append_assoc s (matching_punctuation c ∷ u) t) ⟩
      text_until top stack (c ∷ (s ++ (matching_punctuation c ∷ (u ++ t))))
    ≡⟨ text_until-opening c top stack (s ++ (matching_punctuation c ∷ (u ++ t))) k o ⟩
      cons_text c (
        text_until (matching_punctuation c) (top ∷ stack)
          (s ++ (matching_punctuation c ∷ (u ++ t))))
    ≡⟨ ap (cons_text c) (
        text_until-IsNested n (matching_punctuation c) (top ∷ stack)
          (matching_punctuation c ∷ (u ++ t)) (matching-IsTop c o)) ⟩
      cons_text c (
        before_text s
          (text_until (matching_punctuation c) (top ∷ stack) (matching_punctuation c ∷ (u ++ t))))
    ≡⟨ ap (λ x. cons_text c (before_text s x))
        (text_until-closing (matching_punctuation c) top stack (u ++ t)) ⟩
      cons_text c
        (before_text s (cons_text (matching_punctuation c) (text_until top stack (u ++ t))))
    ≡⟨ ap (λ x. cons_text c (before_text s (cons_text (matching_punctuation c) x)))
        (text_until-IsNested m top stack t k) ⟩
      cons_text c (
        before_text s (cons_text (matching_punctuation c) (before_text u (text_until top stack t))))
    ≡⟨ brackets-before_text c (matching_punctuation c) s u (text_until top stack t) ⟩
      before_text (c ∷ (s ++ matching_punctuation c ∷ u)) (text_until top stack t) ∎

-- If the search for the pattern with `re.M` finds a match that has read an opening punctuation last, and a
-- text in which the punctuations are nested stands behind it and then the one that matches it, that text
-- is what `_GetTextInside` returns.
pub get_text_inside-IsNested :
    (whole : Text) (start_pattern : Re) (i c : ℕ) (m : Cursor) (before s rest : Text)
    → search_multiline start_pattern whole ≡ some (i, m)
    → m.before ≡ c ∷ before
    → m.rest ≡ s ++ matching_punctuation c ∷ rest
    → is_opening c ≡ true
    → IsNested s
    → get_text_inside whole start_pattern ≡ some (some s)
unfolding get_text_inside behind_match
get_text_inside-IsNested whole start_pattern i c m before s rest found b r o n =
    rw (found, get_text_inside)
      (rw (b, behind_match)
        (rw (r, behind_match)
          (rw (o, behind_match)
            (ap (λ x. some x)
              (text_until-IsNested n (matching_punctuation c) [] (matching_punctuation c ∷ rest)
                  (matching-IsTop c o)
                ∙ ap (before_text s) (text_until-end (matching_punctuation c) rest)
                ∙ ap (λ x. some x) (append-nil s))))))
