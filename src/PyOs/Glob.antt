-- ===== src/PyOs/Glob.antt =====
-- `fnmatch.fnmatch` on POSIX: `*`, `?`, `[seq]`, `[!seq]`, and a `[` that is never closed.
use cmu.Base.{
  ℕ, zero, suc, Bool, true, false, not, ◌&&◌, ◌||◌, Option, none, some, List, [], ◌∷◌, leb, ◌==◌,
  if◌then◌else◌, length, Text,
}

pub data Token : Type 0 where
  any_text any_char : Token
  one : ℕ → Token
  -- whether the set is negated, and its text
  set : Bool → Text → Token

-- a set read up to its `]`, and the rest of the pattern
until_bracket : Text → Option (Text × Text)
until_bracket [] = none
until_bracket (c ∷ p) =
    let rest = until_bracket p in
    if c == b']' then some ([], p) else elim rest [ none ↦ none | some (s, q) ↦ some (c ∷ s, q) ]

-- the first character of a set may be a `]`
set_body : Text → Option (Text × Text)
unfolding until_bracket
set_body [] = none
set_body (c ∷ p) = elim (until_bracket p) [ none ↦ none | some (s, q) ↦ some (c ∷ s, q) ]

read_set : Text → Option (Token × Text)
unfolding set_body
read_set [] = none
read_set (c ∷ p) =
    if c == b'!'
    then elim (set_body p) [ none ↦ none | some (s, q) ↦ some (set true s, q) ]
    else elim (set_body (c ∷ p)) [ none ↦ none | some (s, q) ↦ some (set false s, q) ]

-- Each round reads a character at least, so the length of the pattern is enough.
tokens_from : ℕ → Text → List Token
unfolding read_set
tokens_from zero p = []
tokens_from (suc fuel) [] = []
tokens_from (suc fuel) (c ∷ p) =
    let rest = tokens_from fuel p in
    if c == b'*'
    then any_text ∷ rest
    else if c == b'?'
    then any_char ∷ rest
    else if c == b'['
    then elim (read_set p) [ none ↦ one c ∷ rest | some (t, q) ↦ t ∷ tokens_from fuel q ]
    else one c ∷ rest

in_set : ℕ → Text → Bool
in_set c [] = false
in_set c (x ∷ []) = c == x
in_set c (x ∷ y ∷ []) = c == x || c == y
in_set c (x ∷ y ∷ z ∷ s) =
    if y == b'-' then leb x c && leb c z || in_set c s else c == x || in_set c (y ∷ z ∷ s)

any_suffix : (Text → Bool) → Text → Bool
any_suffix test [] = test []
any_suffix test (c ∷ s) = test (c ∷ s) || any_suffix test s

glob : List Token → Text → Bool
unfolding any_suffix in_set
glob [] [] = true
glob [] (c ∷ s) = false
glob (any_text ∷ ts) s = any_suffix (glob ts) s
glob (any_char ∷ ts) [] = false
glob (any_char ∷ ts) (c ∷ s) = glob ts s
glob (one x ∷ ts) [] = false
glob (one x ∷ ts) (c ∷ s) = c == x && glob ts s
glob (set negated xs ∷ ts) [] = false
glob (set negated xs ∷ ts) (c ∷ s) =
    (if negated then not (in_set c xs) else in_set c xs) && glob ts s

-- `fnmatch.fnmatch(name, pattern)`
unfoldable pub fnmatch : Text → Text → Bool
unfolding tokens_from glob
fnmatch name pattern = glob (tokens_from (length pattern) pattern) name
