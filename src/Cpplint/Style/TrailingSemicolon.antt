-- ===== src/Cpplint/Style/TrailingSemicolon.antt =====
-- `CheckTrailingSemicolon` of build_support/cpplint.py.
use cmu.Base.{
  ℕ, zero, suc, ◌-◌, Bool, false, not, ◌&&◌, ◌||◌, Option, none, some, List, [], ◌∷◌, map, reverse,
  leb, ltb, ◌==◌, if◌then◌else◌, length, take, drop, Text, text,
}
use cmu.PyText.{find, member}
use cmu.Regex.{
  Re, one, star, group, bol, eol, word_edge, alt, cat, lit, any_of, any_word, dot, plus, space,
  spaces, seq, match, matches, finds, group_or, found_group,
}
use cmu.Cpplint.Report.{report, Action, call, parse_nolint}
use cmu.Cpplint.Expression.{Closing, close_expression}
use cmu.Cpplint.Reverse.{reverse_close_expression}
use cmu.Cpplint.Cleansed.{CleansedLines}
use cmu.Cpplint.LineChecks.{get_previous_non_blank_line}
use cmu.Cpplint.Blocks.{line_at}

-- ^(.*\)\s*)\{ and ^(.*(?:else|\)\s*const)\s*)\{ and ^(\s*)\{
abbrev before_brace : Re → Re
before_brace start = seq (bol ∷ group 1 start ∷ lit "{" ∷ [])

abbrev behind_parenthesis : Re
behind_parenthesis = before_brace (seq (star dot ∷ lit ")" ∷ spaces ∷ []))

abbrev behind_else_or_const : Re
behind_else_or_const =
    before_brace
      (seq (star dot ∷ alt (lit "else") (seq (lit ")" ∷ spaces ∷ lit "const" ∷ [])) ∷ spaces ∷ []))

abbrev only_brace : Re
only_brace = before_brace spaces

-- \b([A-Z_][A-Z0-9_]*)\s*$
abbrev capital : Re
capital = one (λ c. leb b'A' c && leb c b'Z' || c == b'_')

abbrev macro_name : Re
macro_name = seq (
    word_edge
    ∷ group 1 (
        cat capital
          (star (one (λ c. leb b'A' c && leb c b'Z' || (leb b'0' c && leb c b'9' || c == b'_')))))
    ∷ spaces
    ∷ eol
    ∷ [])

-- the macros that are checked
abbrev safe_macros : List Text
safe_macros = map text (
    "TEST" ∷ "TEST_F" ∷ "MATCHER" ∷ "MATCHER_P" ∷ "TYPED_TEST" ∷ "EXCLUSIVE_LOCKS_REQUIRED"
    ∷ "SHARED_LOCKS_REQUIRED" ∷ "LOCKS_EXCLUDED" ∷ "INTERFACE_DEF" ∷ [])

-- ^(.*\])\s*$ and \boperator\s*\[\s*\]
abbrev bracket_at_end : Re
bracket_at_end = seq (bol ∷ group 1 (cat (star dot) (lit "]")) ∷ spaces ∷ eol ∷ [])

abbrev operator_brackets : Re
operator_brackets = seq (word_edge ∷ lit "operator" ∷ spaces ∷ lit "[" ∷ spaces ∷ lit "]" ∷ [])

-- \b(?:struct|union)\s+alignas\s*$ and \bdecltype$ and \s+=\s*$
abbrev aligned : Re
aligned = seq (
    word_edge ∷ any_word ("struct" ∷ "union" ∷ []) ∷ plus space ∷ lit "alignas" ∷ spaces ∷ eol ∷ [])

abbrev decltype_end : Re
decltype_end = seq (word_edge ∷ lit "decltype" ∷ eol ∷ [])

abbrev equals_end : Re
equals_end = seq (plus space ∷ lit "=" ∷ spaces ∷ eol ∷ [])

-- whether what stands before the parentheses lets a semicolon pass
is_exempt : Text → Bool
unfolding found_group match group_or finds member
is_exempt line_prefix =
    elim (found_group macro_name line_prefix) [
      | none ↦ false
      | some name ↦ not (member name safe_macros)
    ]
    || (elim (match bracket_at_end line_prefix) [
      | none ↦ false
      | some func ↦ not (finds operator_brackets (group_or 1 func))
    ]
        || (finds aligned line_prefix
            || (finds decltype_end line_prefix || finds equals_end line_prefix)))

-- the column of the last `)` of a text that has one
last_parenthesis : Text → ℕ
unfolding find
last_parenthesis s = elim (find (text ")") (reverse s)) [ none ↦ 0 | some i ↦ length s - 1 - i ]

-- \]\s*$ and [;{}]\s*$
abbrev at_end : Re → Re
at_end r = seq (r ∷ spaces ∷ eol ∷ [])

-- whether a brace behind parentheses, which were opened there, is checked
is_checked : List Text → Closing → Bool
unfolding is_exempt finds
is_checked elided opening =
    not (elim opening.pos [ none ↦ false | some start ↦ is_exempt (take start opening.line) ])
    && not
        (ltb 1 opening.linenum && finds (at_end (lit "]")) (line_at elided (opening.linenum - 1)))

-- the column of the brace whose block must not be followed by a semicolon, if there is one
checked_brace : List Text → ℕ → Text → Option ℕ
unfolding match group_or last_parenthesis reverse_close_expression is_checked
    get_previous_non_blank_line finds
checked_brace elided linenum line = elim (match behind_parenthesis line) [
  | some m ↦ elim (reverse_close_expression elided linenum (last_parenthesis (group_or 1 m))) [
    | none ↦ none
    | some opening ↦ if is_checked elided opening then some (length (group_or 1 m)) else none
  ]
  | none ↦ elim (match behind_else_or_const line) [
    | some m ↦ some (length (group_or 1 m))
    | none ↦ elim (get_previous_non_blank_line elided linenum) [
      | none ↦ none
      | some (prevline, n) ↦
          if finds (at_end (any_of ";{}")) prevline
          then elim (match only_brace line) [ none ↦ none | some m ↦ some (length (group_or 1 m)) ]
          else none
    ]
  ]
]

-- ^\s*;
abbrev semicolon_first : Re
semicolon_first = seq (bol ∷ spaces ∷ lit ";" ∷ [])

-- the raw line before a number, which for the first line is the last
raw_before : List Text → ℕ → Text
raw_before lines zero = line_at lines (length lines - 1)
raw_before lines (suc n) = line_at lines n

-- `CheckTrailingSemicolon`, of a line that is there
unfoldable pub check_trailing_semicolon : Text → CleansedLines → ℕ → List Action
unfolding checked_brace close_expression matches raw_before
check_trailing_semicolon filename clean_lines linenum =
    elim (checked_brace clean_lines.elided linenum (line_at clean_lines.elided linenum)) [
      | none ↦ []
      | some column ↦ elim (close_expression clean_lines.elided linenum column) [
        | none ↦ []
        | some c ↦ elim c.pos [
          | none ↦ []
          | some endpos ↦
              if matches semicolon_first (drop endpos c.line)
              then parse_nolint (raw_before clean_lines.raw_lines c.linenum) (c.linenum - 1)
                ∷ parse_nolint (line_at clean_lines.raw_lines c.linenum) c.linenum
                ∷ call (
                    report filename c.linenum "readability/braces" 4
                      (text "You don't need a ; after a }"))
                ∷ []
              else []
        ]
      ]
    ]
