-- ===== src/Regex.antt =====
-- The part of Python's `re` that the scripts use: patterns, and the matcher, which tries the
-- alternatives in Python's order and backtracks. `\s` is that of Unicode; `\w`, `\d` and `\b` are
-- those of ASCII text. Each pattern is written beside its source text where it is used.
pub mod Reads
pub mod OneChar
use cmu.Base.{
  ℕ, zero, suc, ◌-◌, Bool, true, false, not, ◌&&◌, ◌||◌, Option, none, some, List, [], ◌∷◌, ◌++◌,
  leb, ◌==◌, if◌then◌else◌, length, take, String, Text, text,
}
use cmu.PyText.{is_space, contains}

pub data Re : Type 0 where
  eps : Re
  -- one character that passes a test
  one : (ℕ → Bool) → Re
  cat alt : Re → Re → Re
  -- `r*` and `r*?`
  star lazy : Re → Re
  -- `(r)`, with its number
  group : ℕ → Re → Re
  -- `^`, `$`, `\b`
  bol eol word_edge : Re
  -- `^` and `$` under `re.M`
  line_bol line_eol : Re
  -- `(?=r)` and `(?!r)`
  ahead not_ahead : Re → Re

-- What is read, backwards, what is left, and the groups, the last one set first.
pub record Cursor : Type 0 where
  pub before : Text
  pub rest : Text
  pub groups : List (ℕ × Text)

unfoldable pub is_word : ℕ → Bool
is_word c =
    leb b'a' c && leb c b'z' || leb b'A' c && leb c b'Z' || leb b'0' c && leb c b'9' || c == b'_'

abbrev pub next_word : Text → Bool
next_word [] = false
next_word (c ∷ s) = is_word c

-- the end, or a newline that is the last character
abbrev pub at_end : Text → Bool
at_end [] = true
at_end (c ∷ []) = c == b'\n'
at_end (c ∷ d ∷ s) = false

-- the end, or a newline
abbrev pub at_line_end : Text → Bool
at_line_end [] = true
at_line_end (c ∷ s) = c == b'\n'

abbrev differ : Bool → Bool → Bool
differ true b = not b
differ false b = b

abbrev Cont : Type 0
Cont = Cursor → Option Cursor

abbrev eat : (ℕ → Bool) → Text → Text → List (ℕ × Text) → Cont → Option Cursor
eat p before [] gs k = none
eat p before (c ∷ s) gs k =
    if p c then k (record { before = c ∷ before; rest = s; groups = gs }) else none

abbrev pub is_empty : Text → Bool
is_empty [] = true
is_empty (c ∷ s) = false

abbrev moved : Cursor → Cursor → Bool
moved c d = not (length d.rest == length c.rest)

-- `r*`: as many rounds as it can, each of which reads something; the number bounds the rounds
star_loop : (Cursor → Cont → Option Cursor) → ℕ → Cursor → Cont → Option Cursor
star_loop m zero c k = k c
star_loop m (suc n) c k = elim (m c (λ d. if moved c d then star_loop m n d k else none)) [
  | some r ↦ some r
  | none ↦ k c
]

lazy_loop : (Cursor → Cont → Option Cursor) → ℕ → Cursor → Cont → Option Cursor
lazy_loop m zero c k = k c
lazy_loop m (suc n) c k = elim (k c) [ some r ↦ some r | none ↦ m c (λ d. lazy_loop m n d k) ]

abbrev close_group : ℕ → Cursor → Cursor → Cursor
close_group g from to = record to {
  groups = (g, take (length from.rest - length to.rest) from.rest) ∷ to.groups;
}

unfoldable pub run : Re → Cursor → Cont → Option Cursor
unfolding star_loop lazy_loop is_word is_space contains
run eps c k = k c
run (one p) c k = eat p c.before c.rest c.groups k
run (cat a b) c k = run a c (λ d. run b d k)
run (alt a b) c k = elim (run a c k) [ some r ↦ some r | none ↦ run b c k ]
run (star r) c k = star_loop (run r) (length c.rest) c k
run (lazy r) c k = lazy_loop (run r) (length c.rest) c k
run (group g r) c k = run r c (λ d. k (close_group g c d))
run bol c k = if is_empty c.before then k c else none
run eol c k = if at_end c.rest then k c else none
run line_bol c k = if at_line_end c.before then k c else none
run line_eol c k = if at_line_end c.rest then k c else none
run word_edge c k = if differ (next_word c.before) (next_word c.rest) then k c else none
run (ahead r) c k = elim (run r c (λ d. some d)) [
  | some d ↦ k (record c { groups = d.groups })
  | none ↦ none
]
run (not_ahead r) c k = elim (run r c (λ d. some d)) [ some d ↦ none | none ↦ k c ]

-- Ways to write a pattern: a literal text, `[…]`, `[^…]`, `.`, `r+`, `r?`, `\s*`, `\s+`.
abbrev pub chars : Text → Re
chars [] = eps
chars (c ∷ s) = cat (one (λ d. d == c)) (chars s)

abbrev pub lit : String → Re
lit s = chars (text s)

abbrev pub any_of : String → Re
any_of s = one (λ d. contains d (text s))

abbrev pub none_of : String → Re
none_of s = one (λ d. not (contains d (text s)))

abbrev pub dot : Re
dot = one (λ d. not (d == b'\n'))

abbrev pub plus : Re → Re
plus r = cat r (star r)

abbrev pub opt : Re → Re
opt r = alt r eps

abbrev pub space : Re
space = one is_space

abbrev pub non_space : Re
non_space = one (λ d. not (is_space d))

abbrev pub spaces : Re
spaces = star space

abbrev pub word : Re
word = one is_word

abbrev pub seq : List Re → Re
seq [] = eps
seq (r ∷ []) = r
seq (r ∷ q ∷ rs) = cat r (seq (q ∷ rs))

abbrev pub any_word : List String → Re
any_word [] = not_ahead eps
any_word (s ∷ []) = lit s
any_word (s ∷ t ∷ ss) = alt (lit s) (any_word (t ∷ ss))

abbrev pub begin : Text → Cursor
begin s = record { before = []; rest = s; groups = [] }

-- `pattern.match(s)`: at the start of the text
unfoldable pub match : Re → Text → Option Cursor
unfolding run
match r s = run r (begin s) (λ c. some c)

search_from : Re → Text → Text → Option (ℕ × Cursor)
unfolding run
search_from r before [] =
    elim (run r (record { before = before; rest = []; groups = [] }) (λ c. some c)) [
      | some c ↦ some (length before, c)
      | none ↦ none
    ]
search_from r before (x ∷ s) =
    elim (run r (record { before = before; rest = x ∷ s; groups = [] }) (λ c. some c)) [
      | some c ↦ some (length before, c)
      | none ↦ search_from r (x ∷ before) s
    ]

-- `pattern.search(s)`: the first place where it matches, `m.start()` with the match
unfoldable pub search_all : Re → Text → Option (ℕ × Cursor)
unfolding search_from
search_all r s = search_from r [] s

-- the pattern compiled with `re.M`
pub multiline : Re → Re
multiline eps = eps
multiline (one p) = one p
multiline (cat a b) = cat (multiline a) (multiline b)
multiline (alt a b) = alt (multiline a) (multiline b)
multiline (star r) = star (multiline r)
multiline (lazy r) = lazy (multiline r)
multiline (group g r) = group g (multiline r)
multiline bol = line_bol
multiline eol = line_eol
multiline word_edge = word_edge
multiline line_bol = line_bol
multiline line_eol = line_eol
multiline (ahead r) = ahead (multiline r)
multiline (not_ahead r) = not_ahead (multiline r)

-- `re.search(r, s, re.M)`
unfoldable pub search_multiline : Re → Text → Option (ℕ × Cursor)
unfolding search_all multiline
search_multiline r s = search_all (multiline r) s

unfoldable pub matches : Re → Text → Bool
unfolding match
matches r s = elim (match r s) [ some _ ↦ true | none ↦ false ]

-- whether `pattern.search(s)` finds a place
unfoldable pub finds : Re → Text → Bool
unfolding search_all
finds r s = elim (search_all r s) [ some _ ↦ true | none ↦ false ]

lookup_group : ℕ → List (ℕ × Text) → Option Text
lookup_group g [] = none
lookup_group g ((h, t) ∷ gs) = if h == g then some t else lookup_group g gs

-- `m.group(g)` for `g > 0`, and the text of a group that took part
unfoldable pub group? : ℕ → Cursor → Option Text
unfolding lookup_group
group? g c = lookup_group g c.groups

unfoldable pub group_or : ℕ → Cursor → Text
unfolding group?
group_or g c = elim (group? g c) [ some t ↦ t | none ↦ [] ]

-- `pattern.sub(rep, s)`, for a pattern that matches no empty text; `skip` characters of the last
-- match are still to be passed over
sub_from : Re → Text → ℕ → Text → Text → Text
unfolding run
sub_from r rep skip before [] = []
sub_from r rep (suc skip) before (x ∷ s) = sub_from r rep skip (x ∷ before) s
sub_from r rep zero before (x ∷ s) =
    elim (run r (record { before = before; rest = x ∷ s; groups = [] }) (λ c. some c)) [
      | some c ↦ rep ++ sub_from r rep (length s - length c.rest) (x ∷ before) s
      | none ↦ x ∷ sub_from r rep zero (x ∷ before) s
    ]

unfoldable pub sub : Re → Text → Text → Text
unfolding sub_from
sub r rep s = sub_from r rep zero [] s

-- `pattern.finditer(s)`, for a pattern that matches no empty text: its matches from the left, which do
-- not overlap
find_from : Re → ℕ → Text → Text → List Cursor
unfolding run
find_from r skip before [] = []
find_from r (suc skip) before (x ∷ s) = find_from r skip (x ∷ before) s
find_from r zero before (x ∷ s) =
    elim (run r (record { before = before; rest = x ∷ s; groups = [] }) (λ c. some c)) [
      | some c ↦ c ∷ find_from r (length s - length c.rest) (x ∷ before) s
      | none ↦ find_from r zero (x ∷ before) s
    ]

unfoldable pub find_all : Re → Text → List Cursor
unfolding find_from
find_all r s = find_from r zero [] s

-- `m.group(1)` of the first match of a search, if there is one
unfoldable pub found_group : Re → Text → Option Text
unfolding search_all group_or
found_group r s = elim (search_all r s) [ none ↦ none | some (_, m) ↦ some (group_or 1 m) ]
