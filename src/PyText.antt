-- ===== src/PyText.antt =====
-- The methods of Python's `str` that the scripts of build_support call, on text as a list of code
-- points. A result of -1 is `none`.
pub mod Ends
pub mod Replace
use cmu.Base.{
  ℕ, zero, suc, ◌+◌, ◌-◌, Bool, true, false, ◌&&◌, ◌||◌, Option, none, some, List, [], ◌∷◌, ◌++◌,
  map, reverse, ltb, leb, ◌==◌, if◌then◌else◌, length, Text, text_eq,
}
use mathlib.Core.Option

-- `str.isspace` of one character, which is also `\s` in a pattern over `str`
unfoldable pub is_space : ℕ → Bool
is_space c =
    leb 9 c && leb c 13
    || leb 28 c && leb c 32
    || c == 133
    || c == 160
    || c == 5760
    || leb 8192 c && leb c 8202
    || c == 8232
    || c == 8233
    || c == 8239
    || c == 8287
    || c == 12288

-- `s.startswith(p)`, the prefix first
unfoldable pub starts_with : Text → Text → Bool
starts_with [] s = true
starts_with (x ∷ p) [] = false
starts_with (x ∷ p) (y ∷ s) = x == y && starts_with p s

-- `s.endswith(p)`
unfoldable pub ends_with : Text → Text → Bool
unfolding starts_with
ends_with p s = starts_with (reverse p) (reverse s)

-- `s.find(p)`
unfoldable pub find : Text → Text → Option ℕ
unfolding starts_with
find p [] = if starts_with p [] then some 0 else none
find p (c ∷ s) = if starts_with p (c ∷ s) then some 0 else Option.map suc (find p s)

-- `c in s`, for one character
unfoldable pub contains : ℕ → Text → Bool
contains c [] = false
contains c (x ∷ s) = c == x || contains c s

-- `s.lstrip()`, `s.rstrip()`, `s.strip()`
unfoldable pub lstrip : Text → Text
unfolding is_space
lstrip [] = []
lstrip (c ∷ s) = if is_space c then lstrip s else c ∷ s

unfoldable pub rstrip : Text → Text
unfolding lstrip
rstrip s = reverse (lstrip (reverse s))

unfoldable pub strip : Text → Text
unfolding lstrip rstrip
strip s = rstrip (lstrip s)

-- Occurrences that do not overlap, from the left, `skip` characters into the last one found.
-- The pattern is `x ∷ p`, since the scripts never search for the empty text.
unfoldable pub replace_from : ℕ → ℕ → Text → Text → Text → Text
unfolding starts_with
replace_from skip x p new [] = []
replace_from (suc skip) x p new (c ∷ s) = replace_from skip x p new s
replace_from zero x p new (c ∷ s) = elim (starts_with (x ∷ p) (c ∷ s)) [
  | true ↦ new ++ replace_from (length p) x p new s
  | false ↦ c ∷ replace_from zero x p new s
]

-- `s.replace(old, new)`, for `old` not empty
unfoldable pub replace : Text → Text → Text → Text
unfolding replace_from
replace [] new s = s
replace (x ∷ p) new s = replace_from zero x p new s

unfoldable pub count_from : ℕ → ℕ → Text → Text → ℕ
unfolding starts_with
count_from skip x p [] = 0
count_from (suc skip) x p (c ∷ s) = count_from skip x p s
count_from zero x p (c ∷ s) = elim (starts_with (x ∷ p) (c ∷ s)) [
  | true ↦ suc (count_from (length p) x p s)
  | false ↦ count_from zero x p s
]

-- `s.count(p)`, for `p` not empty
unfoldable pub count : Text → Text → ℕ
unfolding count_from
count [] s = suc (length s)
count (x ∷ p) s = count_from zero x p s

-- `s.lower()`, on ASCII
unfoldable pub lower_char : ℕ → ℕ
lower_char c = if leb b'A' c && leb c b'Z' then c + 32 else c

unfoldable pub lower : Text → Text
unfolding lower_char
lower s = map lower_char s

abbrev pub cons_head : ℕ → List Text → List Text
cons_head c [] = (c ∷ []) ∷ []
cons_head c (t ∷ ts) = (c ∷ t) ∷ ts

-- `s.split(sep)`, for a separator of one character
unfoldable pub split : ℕ → Text → List Text
split sep [] = [] ∷ []
split sep (c ∷ s) = let rest = split sep s in if c == sep then [] ∷ rest else cons_head c rest

-- `sep.join(ts)`
unfoldable pub join : Text → List Text → Text
join sep [] = []
join sep (t ∷ []) = t
join sep (t ∷ u ∷ ts) = t ++ (sep ++ join sep (u ∷ ts))

-- `s in xs`, for a list or a set of texts
unfoldable pub member : Text → List Text → Bool
unfolding text_eq
member s [] = false
member s (t ∷ ts) = text_eq s t || member s ts

-- `s < t`, by code points
unfoldable pub text_lt : Text → Text → Bool
text_lt [] [] = false
text_lt [] (d ∷ t) = true
text_lt (c ∷ s) [] = false
text_lt (c ∷ s) (d ∷ t) = ltb c d || c == d && text_lt s t

-- `s.split()`: the parts between white space, without empty ones; `word` is the part at hand, backwards
words_from : Text → Text → List Text
unfolding is_space
words_from [] [] = []
words_from (c ∷ word) [] = reverse (c ∷ word) ∷ []
words_from [] (c ∷ s) = elim (is_space c) [ true ↦ words_from [] s | false ↦ words_from (c ∷ []) s ]
words_from (d ∷ word) (c ∷ s) = elim (is_space c) [
  | true ↦ reverse (d ∷ word) ∷ words_from [] s
  | false ↦ words_from (c ∷ d ∷ word) s
]

unfoldable pub words : Text → List Text
unfolding words_from
words s = words_from [] s

-- `s.upper()`, on ASCII
unfoldable pub upper_char : ℕ → ℕ
upper_char c = if leb b'a' c && leb c b'z' then c - 32 else c

unfoldable pub upper : Text → Text
unfolding upper_char
upper s = map upper_char s
