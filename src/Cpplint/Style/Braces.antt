-- ===== src/Cpplint/Style/Braces.antt =====
-- `CheckBraces` of build_support/cpplint.py. `GetLineWidth`, which asks `unicodedata`, and `_line_length` are
-- parameters.
use cmu.Base.{
  ℕ, ◌+◌, ◌-◌, Bool, true, false, not, ◌&&◌, ◌||◌, Option, none, some, List, [], ◌∷◌, ◌++◌, ltb,
  ◌==◌, if◌then◌else◌, length, drop, Text, text,
}
use cmu.PyText.{contains, find}
use cmu.Regex.{
  Re, star, bol, eol, word_edge, alt, cat, lit, any_of, none_of, one, opt, spaces, seq, matches,
  finds, search_all,
}
use cmu.PyText.{is_space}
use cmu.Cpplint.Report.{Report, report, report_if}
use cmu.Cpplint.Expression.{Closing, close_expression}
use cmu.Cpplint.LineChecks.{get_indent_level, get_previous_non_blank_line}
use cmu.Cpplint.Blocks.{line_at}

-- \s*{\s*$ and [,;:}{(]\s*$ and \s*# and \s*}\s*$
abbrev only_open : Re
only_open = seq (spaces ∷ lit "{" ∷ spaces ∷ eol ∷ [])

abbrev goes_on : Re
goes_on = seq (any_of ",;:}{(" ∷ spaces ∷ eol ∷ [])

abbrev directive : Re
directive = cat spaces (lit "#")

abbrev only_close : Re
only_close = seq (spaces ∷ lit "}" ∷ spaces ∷ eol ∷ [])

-- \s*else\b\s*(?:if\b|\{|$)
abbrev else_first : Re
else_first = seq (
    spaces
    ∷ lit "else"
    ∷ word_edge
    ∷ spaces
    ∷ alt (cat (lit "if") word_edge) (alt (lit "{") eol)
    ∷ [])

-- else if\s*\( and }\s*else if\s*\(
abbrev else_if : Re
else_if = seq (lit "else if" ∷ spaces ∷ lit "(" ∷ [])

abbrev brace_else_if : Re
brace_else_if = seq (lit "}" ∷ spaces ∷ else_if ∷ [])

-- }\s*else[^{]*$ and [^}]*else\s*{
abbrev brace_on_left_only : Re
brace_on_left_only = seq (lit "}" ∷ spaces ∷ lit "else" ∷ star (none_of "{") ∷ eol ∷ [])

abbrev brace_on_right_only : Re
brace_on_right_only = seq (star (none_of "}") ∷ lit "else" ∷ spaces ∷ lit "{" ∷ [])

-- \belse [^\s{] and \belse if\b and \s*do [^\s{]
abbrev code_char : Re
code_char = one (λ c. not (c == b'{' || is_space c))

abbrev clause_behind_else : Re
clause_behind_else = seq (word_edge ∷ lit "else " ∷ code_char ∷ [])

abbrev else_if_word : Re
else_if_word = seq (word_edge ∷ lit "else if" ∷ word_edge ∷ [])

abbrev do_with_code : Re
do_with_code = seq (spaces ∷ lit "do " ∷ code_char ∷ [])

-- \b(if\s*\(|else\b) and \bif\s*\(
abbrev if_or_else : Re
if_or_else =
    seq (word_edge ∷ alt (seq (lit "if" ∷ spaces ∷ lit "(" ∷ [])) (cat (lit "else") word_edge) ∷ [])

abbrev if_paren : Re
if_paren = seq (word_edge ∷ lit "if" ∷ spaces ∷ lit "(" ∷ [])

-- ;[\s}]*(\\?)$
abbrev statement_end : Re
statement_end =
    seq (lit ";" ∷ star (one (λ c. c == b'}' || is_space c)) ∷ opt (lit "\\") ∷ eol ∷ [])

-- ^[^{};]*\[[^\[\]]*\][^{}]*\{[^{}]*\}\s*\)*[;,]\s*$
abbrev lambda : Re
lambda = seq (
    bol
    ∷ star (none_of "{};")
    ∷ lit "["
    ∷ star (none_of "[]")
    ∷ lit "]"
    ∷ star (none_of "{}")
    ∷ lit "{"
    ∷ star (none_of "{}")
    ∷ lit "}"
    ∷ spaces
    ∷ star (lit ")")
    ∷ any_of ";,"
    ∷ spaces
    ∷ eol
    ∷ [])

-- `GetPreviousNonBlankLine(clean_lines, linenum)[0]`
unfoldable pub previous_line : List Text → ℕ → Text
unfolding get_previous_non_blank_line
previous_line elided linenum = elim (get_previous_non_blank_line elided linenum) [
  | none ↦ []
  | some (line, n) ↦ line
]

-- `line[-1:]`, and `line[pos:]` with a position that may be -1
last_char : Text → Text
last_char line = drop (length line - 1) line

behind : Text → Option ℕ → Text
unfolding last_char
behind line none = last_char line
behind line (some pos) = drop pos line

-- the check that braces stand on both sides of `else`
check_both_sides : Text → List Text → ℕ → Text → List Report
unfolding finds matches find close_expression behind contains
check_both_sides filename elided linenum line =
    let both = text "If an else has a brace on one side, it should have it on both" in
    if finds else_if line
    then elim (find (text "else if") line) [
      | none ↦ []
      | some start ↦ elim (find (text "(") (drop start line)) [
        | none ↦ []
        | some i ↦
            if ltb 0 (start + i)
            then elim (close_expression elided linenum (start + i)) [
              | none ↦ []
              | some c ↦
                  let brace_on_left = finds brace_else_if line in
                  let brace_on_right = contains b'{' (behind c.line c.pos) in
                  report_if (if brace_on_left then not brace_on_right else brace_on_right) filename
                    linenum "readability/braces" 5 both
            ]
            else []
      ]
    ]
    else report_if (finds brace_on_left_only line || matches brace_on_right_only line) filename
        linenum "readability/braces" 5 both

-- the first line with a semicolon, of these and from a number on
semicolon_line : List Text → ℕ → Option ℕ
unfolding contains
semicolon_line [] linenum = none
semicolon_line (line ∷ lines) linenum = elim (contains b';' line) [
  | true ↦ some linenum
  | false ↦ semicolon_line lines (linenum + 1)
]

-- the lines from a number on, the first from a position on
lines_behind : List Text → ℕ → Option ℕ → List Text
unfolding behind
lines_behind elided linenum pos = elim (drop linenum elided) [
  | [] ↦ []
  | line ∷ lines ↦ behind line pos ∷ lines
]

-- \s*{ and \s*$ and \s*else\b
abbrev brace_next : Re
brace_next = cat spaces (lit "{")

abbrev nothing_next : Re
nothing_next = cat spaces eol

abbrev else_next : Re
else_next = seq (spaces ∷ lit "else" ∷ word_edge ∷ [])

-- what is said of the line where the first statement of a body ends
check_statement : Text → List Text → ℕ → Bool → ℕ → ℕ → List Report
unfolding find matches get_indent_level
check_statement filename elided linenum is_if if_indent endlinenum =
    let endline = line_at elided endlinenum in
    let next_line = line_at elided (endlinenum + 1) in
    let endpos : ℕ = elim (find (text ";") endline) [ none ↦ 0 | some i ↦ i ] in
    let several = text "If/else bodies with multiple statements require braces" in
    if not (matches statement_end (drop endpos endline))
    then report_if (not (matches lambda endline)) filename linenum "readability/braces" 4 several
    else if ltb endlinenum (length elided - 1)
    then (if is_if && (matches else_next next_line && not (get_indent_level next_line == if_indent))
        then report filename linenum "readability/braces" 4 (
            text
              "Else clause should be indented at the same level as if. Ambiguous nested if/else chains require braces.")
          ∷ []
        else report_if (ltb if_indent (get_indent_level next_line)) filename linenum
            "readability/braces" 4 several)
    else []

-- the check of a body behind the end of the condition
check_body : Text → List Text → ℕ → Bool → ℕ → Closing → List Report
unfolding behind matches semicolon_line lines_behind check_statement
check_body filename elided linenum is_if if_indent end =
    let rest = behind end.line end.pos in
    if matches brace_next rest
      || matches nothing_next rest
        && (ltb end.linenum (length elided - 1)
            && matches brace_next (line_at elided (end.linenum + 1)))
    then []
    else elim (semicolon_line (lines_behind elided end.linenum end.pos) end.linenum) [
      | none ↦ []
      | some endlinenum ↦ check_statement filename elided linenum is_if if_indent endlinenum
    ]

-- the check of bodies with more than one statement
check_bodies : Text → List Text → ℕ → Text → List Report
unfolding search_all matches close_expression get_indent_level check_body
check_bodies filename elided linenum line = elim (search_all if_or_else line) [
  | none ↦ []
  | some (_, m) ↦ if matches directive line then [] else elim (search_all if_paren line) [
    | none ↦
        check_body filename elided linenum false (get_indent_level line)
          (record { line = line; linenum = linenum; pos = some (length m.before) })
    | some (_, i) ↦ elim (close_expression elided linenum (length i.before - 1)) [
      | none ↦ []
      | some c ↦ check_body filename elided linenum true (get_indent_level line) c
    ]
  ]
]

module _ (line_width : Text → ℕ) (line_length : ℕ) where
  -- the check that a brace does not start a line
  check_open : Text → List Text → ℕ → Text → List Report
  unfolding matches finds find previous_line
  check_open filename elided linenum line =
      let prevline = previous_line elided linenum in
      report_if
        (matches only_open line
          && (not (finds goes_on prevline)
              && (not (matches directive prevline)
                  && not (
                      ltb line_length (line_width prevline + 2)
                      && elim (find (text "[]") prevline) [ none ↦ false | some i ↦ true ]))))
        filename linenum "whitespace/braces" 4
        (text "{ should almost always be at the end of the previous line")

  -- `CheckBraces`, of a line of the elided ones
  unfoldable pub check_braces : Text → List Text → ℕ → Text → List Report
  unfolding check_open matches finds previous_line check_both_sides check_bodies
  check_braces filename elided linenum line =
      check_open filename elided linenum line
      ++ (report_if (matches else_first line && matches only_close (previous_line elided linenum))
            filename linenum "whitespace/newline" 4
            (text "An else should appear on the same line as the preceding }")
          ++ (check_both_sides filename elided linenum line
              ++ (report_if (finds clause_behind_else line && not (finds else_if_word line))
                    filename linenum "whitespace/newline" 4
                    (text "Else clause should never be on same line as else (use 2 lines)")
                  ++ (report_if (matches do_with_code line) filename linenum "whitespace/newline" 4
                        (text "do/while clauses should not be on a single line")
                      ++ check_bodies filename elided linenum line))))
