-- ===== src/Cpplint/FunctionLengths.antt =====
-- `CheckForFunctionLengths` of build_support/cpplint.py, which drives the function state over the
-- lines of a file.
use cmu.Base.{
  ℕ, Bool, false, not, ◌&&◌, ◌||◌, Option, none, some, List, [], ◌∷◌, ◌++◌, reverse, leb, ◌==◌,
  if◌then◌else◌, get_elem?, drop, Text, text, text_eq,
}
use cmu.PyText.{is_space, lstrip}
use cmu.Regex.{
  Re, one, star, group, bol, eol, alt, lit, dot, plus, space, spaces, word, seq, match, search_all,
  matches, finds, group_or,
}
use cmu.Cpplint.Report.{Report, report}
use cmu.Cpplint.Function.{FunctionState, begin_function, count_line, check_function, end_function}

-- (\w(\w|::|\*|\&|\s)*)\(
abbrev function_head : Re
function_head = seq (
    group 1
      (seq (word ∷ star (alt word (alt (lit "::") (alt (lit "*") (alt (lit "&") space)))) ∷ []))
    ∷ lit "("
    ∷ [])

until_space : Text → Text
unfolding is_space
until_space [] = []
until_space (c ∷ s) = let rest = until_space s in if is_space c then [] else c ∷ rest

-- `s.split()[-1]` of a text that is not blank
last_word : Text → Text
unfolding until_space lstrip
last_word s = reverse (until_space (lstrip (reverse s)))

-- [A-Z_]+$
abbrev capitals : Re
capitals = seq (plus (one (λ c. leb b'A' c && leb c b'Z' || c == b'_')) ∷ eol ∷ [])

-- whether a line may start a function, and is not the use of a macro
is_starting : Text → Bool
unfolding match group_or matches last_word text_eq
is_starting line = elim (match function_head line) [
  | none ↦ false
  | some m ↦
      let name = last_word (group_or 1 m) in
      text_eq name (text "TEST") || text_eq name (text "TEST_F") || not (matches capitals name)
]

-- `m.group(1)` of a search, and nothing where it finds no place
first_group : Re → Text → Text
unfolding search_all group_or
first_group r s = elim (search_all r s) [ none ↦ [] | some (_, m) ↦ group_or 1 m ]

-- ((\w|:)*)\(
abbrev name_before : Re
name_before = seq (group 1 (star (alt word (lit ":"))) ∷ lit "(" ∷ [])

-- (\(.*\))
abbrev parameters : Re
parameters = group 1 (seq (lit "(" ∷ star dot ∷ lit ")" ∷ []))

-- the name of the function that begins, from its first line and the lines joined
function_name : Text → Text → Text
unfolding first_group matches
function_name line joined_line =
    let function = first_group name_before line in
    if matches (lit "TEST") function
    then function ++ first_group parameters joined_line
    else function ++ text "()"

-- What the search for the body finds: the end of the file, a `;` or `}` first, or a `{`.
pub data Body : Type 0 where
  missing : Body
  trivial : Body
  begins : Text → Body

find_body : Text → List Text → Text → Body
unfolding finds lstrip function_name
find_body line [] joined_line = missing
find_body line (start_line ∷ lines) joined_line =
    let joined = joined_line ++ b' ' ∷ lstrip start_line in
    let rest = find_body line lines joined in
    if finds (alt (lit ";") (lit "}")) start_line
    then trivial
    else if finds (lit "{") start_line
    then begins (function_name line joined)
    else rest

start_function : Text → ℕ → Body → FunctionState → FunctionState × List Report
start_function filename linenum missing s = (
  s,
  report filename linenum "readability/fn_size" 5
        (text "Lint failed to find start of function body.")
      ∷ [],
)
start_function filename linenum trivial s = (s, [])
start_function filename linenum (begins function) s = (begin_function function s, [])

-- ^\}\s*$
abbrev function_end : Re
function_end = seq (bol ∷ lit "}" ∷ spaces ∷ eol ∷ [])

-- ^\s*$
abbrev blank : Re
blank = seq (bol ∷ spaces ∷ eol ∷ [])

check_lengths : ℕ → Text → List Text → ℕ → Text → FunctionState → FunctionState × List Report
unfolding is_starting find_body start_function matches
check_lengths verbose_level filename lines linenum line s =
    if is_starting line
    then start_function filename linenum (find_body line (drop linenum lines) []) s
    else if matches function_end line
    then (end_function s, check_function verbose_level filename linenum s)
    else if not (matches blank line)
    then (count_line s, [])
    else (s, [])

-- `CheckForFunctionLengths` of the lines without comments; `none` is the IndexError of a line that is
-- not there
unfoldable pub check_for_function_lengths :
    ℕ → Text → List Text → ℕ → FunctionState → Option (FunctionState × List Report)
unfolding check_lengths
check_for_function_lengths verbose_level filename lines linenum s = elim (get_elem? lines linenum) [
  | none ↦ none
  | some line ↦ some (check_lengths verbose_level filename lines linenum line s)
]
