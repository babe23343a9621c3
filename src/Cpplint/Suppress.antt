-- ===== src/Cpplint/Suppress.antt =====
-- The suppressions of build_support/cpplint.py: NOLINT comments and the directives that act on a
-- whole file. The module's two dictionaries are a record that each function returns anew.
pub mod Covers
mod Tests
use cmu.Base.{
  ℕ, ◌+◌, ◌-◌, Bool, true, false, not, ◌&&◌, ◌||◌, Option, none, some, List, [], ◌∷◌, ◌++◌, ◌==◌,
  if◌then◌else◌, length, take, drop, Text, text, text_eq,
}
use cmu.PyText.{starts_with, ends_with, member}
use cmu.Regex.{
  Re, Cursor, cat, alt, star, group, eol, word_edge, lit, one, none_of, dot, plus, opt, spaces, seq,
  search_all, finds, group?,
}
use cmu.Cpplint.Categories.{
  error_categories, legacy_error_categories, default_c_suppressed_categories,
  default_kernel_suppressed_categories,
}
use cmu.Cpplint.Report.{Report, report}

-- A key of `_error_suppressions`: a category, or `None` for all of them.
abbrev pub Key : Type 0
Key = Option Text

abbrev pub Lines : Type 0
Lines = List (Key × List ℕ)

-- `_error_suppressions` and the keys of `_global_error_suppressions`, whose values are all True
pub record Suppressions : Type 0 where
  pub by_line : Lines
  pub whole_file : List Text

pub key_eq : Key → Key → Bool
unfolding text_eq
key_eq none none = true
key_eq (some s) (some t) = text_eq s t
key_eq _ _ = false

pub has_line : ℕ → List ℕ → Bool
has_line n [] = false
has_line n (m ∷ ms) = n == m || has_line n ms

-- `linenum in _error_suppressions.get(key, set())`
pub on_line : Key → ℕ → Lines → Bool
unfolding key_eq has_line
on_line k n [] = false
on_line k n ((j, ms) ∷ d) = if key_eq k j then has_line n ms else on_line k n d

-- `_error_suppressions.setdefault(key, set()).add(linenum)`
pub add_line : Key → ℕ → Lines → Lines
unfolding key_eq
add_line k n [] = (k, n ∷ []) ∷ []
add_line k n ((j, ms) ∷ d) = if key_eq k j then (j, n ∷ ms) ∷ d else (j, ms) ∷ add_line k n d

-- \bNOLINT(NEXTLINE)?\b(\([^)]+\))?
abbrev pub nolint : Re
nolint = seq (
    word_edge
    ∷ lit "NOLINT"
    ∷ opt (group 1 (lit "NEXTLINE"))
    ∷ word_edge
    ∷ opt (group 2 (seq (lit "(" ∷ plus (none_of ")") ∷ lit ")" ∷ [])))
    ∷ [])

-- `category[1:-1]`
pub inner : Text → Text
inner t = drop 1 (take (length t - 1) t)

-- the line that a comment speaks of: its own, or the next one
pub suppressed_line : ℕ → Option Text → ℕ
suppressed_line linenum none = linenum
suppressed_line linenum (some _) = linenum + 1

add_to : Key → ℕ → Suppressions → Suppressions
unfolding add_line
add_to k n s = record s { by_line = add_line k n s.by_line }

-- the branch for a category that is neither missing nor `(*)`
parse_category : Text → ℕ → ℕ → Text → Suppressions → Suppressions × List Report
unfolding add_to inner member starts_with ends_with
parse_category filename linenum line category s =
    if starts_with (text "(") category && ends_with (text ")") category
    then (if member (inner category) error_categories
        then (add_to (some (inner category)) line s, [])
        else if not (member (inner category) legacy_error_categories)
        then (
          s,
          report filename linenum "readability/nolint" 5
                (text "Unknown NOLINT error category: " ++ inner category)
              ∷ [],
        )
        else (s, []))
    else (s, [])

parse_groups : Text → ℕ → ℕ → Option Text → Suppressions → Suppressions × List Report
unfolding parse_category add_to text_eq
parse_groups filename linenum line none s = (add_to none line s, [])
parse_groups filename linenum line (some category) s =
    if text_eq category (text "(*)")
    then (add_to none line s, [])
    else parse_category filename linenum line category s

parse_match : Text → ℕ → Option (ℕ × Cursor) → Suppressions → Suppressions × List Report
unfolding parse_groups suppressed_line group?
parse_match filename linenum none s = (s, [])
parse_match filename linenum (some (_, m)) s =
    parse_groups filename linenum (suppressed_line linenum (group? 1 m)) (group? 2 m) s

-- `ParseNolintSuppressions`
unfoldable pub parse_nolint_suppressions :
    Text → Text → ℕ → Suppressions → Suppressions × List Report
unfolding parse_match
parse_nolint_suppressions filename raw_line linenum s =
    parse_match filename linenum (search_all nolint raw_line) s

-- \b(?:LINT_C_FILE|vim?:\s*.*(\s*|:)filetype=c(\s*|:|$))
abbrev search_c_file : Re
search_c_file = cat word_edge (
    alt (lit "LINT_C_FILE") (
      seq (
        lit "vi"
        ∷ opt (lit "m")
        ∷ lit ":"
        ∷ spaces
        ∷ star dot
        ∷ group 1 (alt spaces (lit ":"))
        ∷ lit "filetype=c"
        ∷ group 2 (alt spaces (alt (lit ":") eol))
        ∷ [])))

-- \b(?:LINT_KERNEL_FILE)
abbrev search_kernel_file : Re
search_kernel_file = cat word_edge (lit "LINT_KERNEL_FILE")

-- one round of the loop of `ProcessGlobalSuppresions`
unfoldable pub process_global_line : Text → Suppressions → Suppressions
unfolding finds
process_global_line line s =
    let c_file = finds search_c_file line in
    let kernel_file = finds search_kernel_file line in
    let s1 =
      if c_file
      then record s { whole_file = default_c_suppressed_categories ++ s.whole_file }
      else s in
    if kernel_file
    then record s1 { whole_file = default_kernel_suppressed_categories ++ s1.whole_file }
    else s1

-- `ProcessGlobalSuppresions`
unfoldable pub process_global_suppresions : List Text → Suppressions → Suppressions
unfolding process_global_line
process_global_suppresions [] s = s
process_global_suppresions (line ∷ lines) s =
    process_global_suppresions lines (process_global_line line s)

-- `ResetNolintSuppressions`
unfoldable pub reset_nolint_suppressions : Suppressions → Suppressions
reset_nolint_suppressions s = record { by_line = []; whole_file = [] }

-- `IsErrorSuppressedByNolint`
unfoldable pub is_error_suppressed_by_nolint : Text → ℕ → Suppressions → Bool
unfolding on_line member
is_error_suppressed_by_nolint category linenum s =
    member category s.whole_file
    || on_line (some category) linenum s.by_line
    || on_line none linenum s.by_line
