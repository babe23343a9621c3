-- ===== src/Cpplint/TextInside.antt =====
-- `_GetTextInside` of build_support/cpplint.py.
pub mod Nested
use cmu.Base.{
  ℕ, Bool, true, false, ◌||◌, Option, none, some, List, [], ◌∷◌, ◌==◌, if◌then◌else◌, Text, text,
}
use cmu.PyText.{contains}
use cmu.Regex.{Re, search_multiline}

-- `matching_punctuation`, and its values
abbrev pub is_opening : ℕ → Bool
is_opening c = c == b'(' || (c == b'{' || c == b'[')

abbrev pub is_closing : ℕ → Bool
is_closing c = c == b')' || (c == b'}' || c == b']')

abbrev pub matching_punctuation : ℕ → ℕ
matching_punctuation c = if c == b'(' then b')' else if c == b'{' then b'}' else b']'

abbrev pub cons_text : ℕ → Option Text → Option Text
cons_text c none = none
cons_text c (some s) = some (c ∷ s)

-- The loop, over the text from a position on, with the top of the stack of closing punctuations that are
-- expected and the rest of the stack: what is read until the stack is empty, without the last character.
pub text_until : ℕ → List ℕ → Text → Option Text
text_until top stack [] = none
text_until top stack (c ∷ s) = elim (c == top) [
  | true ↦ elim stack [ [] ↦ some [] | next ∷ below ↦ cons_text c (text_until next below s) ]
  | false ↦ elim (is_closing c) [
    | true ↦ none
    | false ↦ elim (is_opening c) [
      | true ↦ cons_text c (text_until (matching_punctuation c) (top ∷ stack) s)
      | false ↦ cons_text c (text_until top stack s)
    ]
  ]
]

-- the text behind a match that has read a text, backwards; `none` is a failed assertion
behind_match : Text → Text → Option (Option Text)
unfolding text_until
behind_match [] rest = none
behind_match (c ∷ before) rest =
    if is_opening c then some (text_until (matching_punctuation c) [] rest) else none

-- `_GetTextInside`; `none` is a failed assertion, and `some none` is `None`
unfoldable pub get_text_inside : Text → Re → Option (Option Text)
unfolding search_multiline behind_match
get_text_inside s start_pattern = elim (search_multiline start_pattern s) [
  | none ↦ some none
  | some (_, m) ↦ behind_match m.before m.rest
]
