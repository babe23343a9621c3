-- ===== src/Cpplint/Style/CheckMacros.antt =====
-- `FindCheckMacro` and `CheckCheck` of build_support/cpplint.py.
pub mod Rounds
use cmu.Base.{
  ℕ, zero, suc, ◌+◌, ◌-◌, Bool, true, false, not, ◌&&◌, ◌||◌, Option, none, some, List, [], ◌∷◌,
  ◌++◌, leb, ◌==◌, if◌then◌else◌, length, take, drop, String, Text, text, text_eq,
}
use cmu.PyText.{find, strip, member}
use cmu.Regex.{
  Re, one, star, group, bol, eol, word_edge, alt, cat, lit, any_of, none_of, any_word, dot, opt,
  plus, spaces, non_space, seq, match, matches, group_or,
}
use cmu.Cpplint.Report.{Report, report_if}
use cmu.Cpplint.Expression.{
  found, failed, pending, find_end_of_expression_in_line, close_expression,
}
use cmu.Cpplint.Blocks.{line_at}

-- `_CHECK_MACROS`
abbrev pub check_macros : List String
check_macros =
    "DCHECK" ∷ "CHECK" ∷ "EXPECT_TRUE" ∷ "ASSERT_TRUE" ∷ "EXPECT_FALSE" ∷ "ASSERT_FALSE" ∷ []

-- the names of operators, and those of their negations
abbrev replacements : List (String × String × String)
replacements =
    ("==", "EQ", "NE")
    ∷ ("!=", "NE", "EQ")
    ∷ (">=", "GE", "LT")
    ∷ (">", "GT", "LE")
    ∷ ("<=", "LE", "GT")
    ∷ ("<", "LT", "GE")
    ∷ []

replacement_of : Bool → Text → List (String × String × String) → Text
unfolding text_eq
replacement_of negated operator [] = []
replacement_of negated operator ((op, replacement, inverse) ∷ rs) =
    if text_eq operator (text op)
    then text (if negated then inverse else replacement)
    else replacement_of negated operator rs

-- `_CHECK_REPLACEMENT[macro][operator]`
pub check_replacement : Text → Text → Text
unfolding text_eq replacement_of
check_replacement macro operator =
    if text_eq macro (text "DCHECK")
    then text "DCHECK_" ++ replacement_of false operator replacements
    else if text_eq macro (text "CHECK")
    then text "CHECK_" ++ replacement_of false operator replacements
    else if text_eq macro (text "EXPECT_TRUE")
    then text "EXPECT_" ++ replacement_of false operator replacements
    else if text_eq macro (text "ASSERT_TRUE")
    then text "ASSERT_" ++ replacement_of false operator replacements
    else if text_eq macro (text "EXPECT_FALSE")
    then text "EXPECT_" ++ replacement_of true operator replacements
    else text "ASSERT_" ++ replacement_of true operator replacements

-- ^(.*\b…\s*)\(
abbrev macro_call : String → Re
macro_call macro =
    seq (bol ∷ group 1 (seq (star dot ∷ word_edge ∷ lit macro ∷ spaces ∷ [])) ∷ lit "(" ∷ [])

find_macro_from : Text → List String → Option (String × ℕ)
unfolding find match group_or
find_macro_from line [] = none
find_macro_from line (macro ∷ macros) = elim (find (text macro) line) [
  | none ↦ find_macro_from line macros
  | some i ↦ elim (match (macro_call macro) line) [
    | none ↦ find_macro_from line macros
    | some m ↦ some (macro, length (group_or 1 m))
  ]
]

-- `FindCheckMacro`
unfoldable pub find_check_macro : Text → Option (String × ℕ)
unfolding find_macro_from
find_check_macro line = find_macro_from line check_macros

concat : List Text → Text
concat [] = []
concat (line ∷ lines) = line ++ concat lines

-- the expression between the parentheses, over all its lines
expression_of : List Text → ℕ → ℕ → ℕ → ℕ → Text
unfolding concat
expression_of lines linenum start_pos end_line end_pos =
    if linenum == end_line
    then drop (start_pos + 1) (take (end_pos - 1) (line_at lines linenum))
    else drop (start_pos + 1) (line_at lines linenum)
      ++ (concat (take (end_line - (linenum + 1)) (drop (linenum + 1) lines))
          ++ take (end_pos - 1) (line_at lines end_line))

-- ^\s*(<<|<<=|>>|>>=|->\*|->|&&|\|\||==|!=|>=|>|<=|<|\()(.*)$
abbrev tokens : Re
tokens = any_word (
    "<<" ∷ "<<=" ∷ ">>" ∷ ">>=" ∷ "->*" ∷ "->" ∷ "&&" ∷ "||" ∷ "==" ∷ "!=" ∷ ">=" ∷ ">" ∷ "<=" ∷ "<"
    ∷ "(" ∷ [])

abbrev token_pattern : Re
token_pattern = seq (bol ∷ spaces ∷ group 1 tokens ∷ group 2 (star dot) ∷ eol ∷ [])

-- the operators that do not compare
abbrev shifts : List Text
shifts = text "<<" ∷ text "<<=" ∷ text ">>" ∷ text ">>=" ∷ text "->*" ∷ text "->" ∷ []

-- ^([^-=!<>()&|]+)(.*)$ and ^(\s*\S)(.*)$
abbrev operand : Re
operand = seq (bol ∷ group 1 (plus (none_of "-=!<>()&|")) ∷ group 2 (star dot) ∷ eol ∷ [])

abbrev character : Re
character = seq (bol ∷ group 1 (cat spaces non_space) ∷ group 2 (star dot) ∷ eol ∷ [])

-- `lhs`, `operator` and `rhs`
pub record Comparison : Type 0 where
  pub lhs : Text
  pub operator : Text
  pub rhs : Text

abbrev comparison : Text → Text → Text → Option Comparison
comparison lhs operator rhs = some (record { lhs = lhs; operator = operator; rhs = rhs })

-- In these parts of a round of the loop over the expression, `next` is the rounds behind it, and `none` is
-- the early return. First a parenthesis, then the other tokens.
on_parenthesis : (Text → Text → Option Comparison) → Text → Text → Option Comparison
unfolding find_end_of_expression_in_line
on_parenthesis next lhs rest = elim (find_end_of_expression_in_line rest 0 (b'(' ∷ [])) [
  | failed ↦ none
  | pending stack ↦ none
  | found end ↦ next (lhs ++ b'(' ∷ take end rest) (drop end rest)
]

on_token : (Text → Text → Option Comparison) → Text → Text → Text → Option Comparison
unfolding text_eq member on_parenthesis
on_token next lhs token rest =
    if text_eq token (text "(")
    then on_parenthesis next lhs rest
    else if text_eq token (text "&&") || text_eq token (text "||")
    then none
    else if member token shifts
    then next (lhs ++ token) rest
    else comparison lhs token rest

on_operand : (Text → Text → Option Comparison) → Text → Text → Option Comparison
unfolding match group_or
on_operand next lhs expression = elim (match operand expression) [
  | some m ↦ next (lhs ++ group_or 1 m) (group_or 2 m)
  | none ↦ elim (match character expression) [
    | some m ↦ next (lhs ++ group_or 1 m) (group_or 2 m)
    | none ↦ comparison lhs [] []
  ]
]

parse_round : (Text → Text → Option Comparison) → Text → Text → Option Comparison
unfolding match group_or on_token on_operand
parse_round next lhs expression = elim (match token_pattern expression) [
  | some m ↦ on_token next lhs (group_or 1 m) (group_or 2 m)
  | none ↦ on_operand next lhs expression
]

-- The loop, in at most as many rounds as the number; the first argument is the result if they run out. A
-- round reads a character, so one for each never run out.
pub parse_from : (Text → Text → Option Comparison) → ℕ → Text → Text → Option Comparison
unfolding parse_round
parse_from out fuel lhs [] = comparison lhs [] []
parse_from out zero lhs (c ∷ expression) = out lhs (c ∷ expression)
parse_from out (suc fuel) lhs (c ∷ expression) =
    parse_round (parse_from out fuel) lhs (c ∷ expression)

-- ^([-+]?(\d+|0[xX][0-9a-fA-F]+)[lLuU]{0,3}|".*"|'.*')$
abbrev digit : Re
digit = one (λ c. leb b'0' c && leb c b'9')

abbrev hex_digit : Re
hex_digit =
    one (λ c. leb b'0' c && leb c b'9' || (leb b'a' c && leb c b'f' || leb b'A' c && leb c b'F'))

abbrev match_constant : Re
match_constant = seq (
    bol
    ∷ alt
        (seq (
          opt (any_of "-+")
          ∷ alt (plus digit) (seq (lit "0" ∷ any_of "xX" ∷ plus hex_digit ∷ []))
          ∷ opt (any_of "lLuU")
          ∷ opt (any_of "lLuU")
          ∷ opt (any_of "lLuU")
          ∷ []))
        (alt (seq (lit "\"" ∷ star dot ∷ lit "\"" ∷ [])) (seq (lit "'" ∷ star dot ∷ lit "'" ∷ [])))
    ∷ eol
    ∷ [])

holds : Text → Text → Bool
unfolding find
holds part whole = elim (find part whole) [ none ↦ false | some i ↦ true ]

-- what is said of a comparison
check_comparison : Text → ℕ → String → Comparison → List Report
unfolding holds strip matches check_replacement
check_comparison filename linenum macro c =
    report_if
      (not (length c.lhs == 0 || (length c.operator == 0 || length c.rhs == 0))
        && (not (holds (text "&&") c.rhs || holds (text "||") c.rhs)
            && (matches match_constant (strip c.lhs) || matches match_constant (strip c.rhs))))
      filename linenum "readability/check" 2
      (text "Consider using "
        ++ (check_replacement (text macro) c.operator
            ++ (text " instead of " ++ (text macro ++ (text "(a " ++ (c.operator ++ text " b)"))))))

-- \s*;
abbrev semicolon : Re
semicolon = cat spaces (lit ";")

-- `CheckCheck`, of the elided lines
unfoldable pub check_check : Text → List Text → ℕ → List Report
unfolding find_check_macro close_expression matches expression_of parse_from check_comparison
check_check filename lines linenum = elim (find_check_macro (line_at lines linenum)) [
  | none ↦ []
  | some (macro, start_pos) ↦ elim (close_expression lines linenum start_pos) [
    | none ↦ []
    | some c ↦ elim c.pos [
      | none ↦ []
      | some end_pos ↦
          let expression = expression_of lines linenum start_pos c.linenum end_pos in
          if not (matches semicolon (drop end_pos c.line))
          then []
          else elim (parse_from (λ lhs _. comparison lhs [] []) (length expression) [] expression) [
            | none ↦ []
            | some comparison ↦ check_comparison filename linenum macro comparison
          ]
    ]
  ]
]
