-- ===== src/Cpplint/Style/Calls.antt =====
-- `CheckSpacingForFunctionCall`, `CheckParenthesisSpacing` and `CheckCommaSpacing` of
-- build_support/cpplint.py.
use cmu.Base.{
  ℕ, ◌+◌, not, ◌&&◌, ◌||◌, none, some, List, [], ◌∷◌, ◌++◌, leb, ◌==◌, if◌then◌else◌, length, Text,
  text, text_eq,
}
use cmu.PyText.{is_space, contains}
use cmu.Regex.{
  Re, one, star, group, bol, eol, word_edge, cat, alt, lit, any_of, none_of, dot, opt, plus, space,
  spaces, word, not_ahead, any_word, seq, finds, search_all, group_or, found_group, sub,
}
use cmu.Cpplint.Report.{Report, report, report_if}

-- \b…\s*\((.*)\)\s*[{;]
abbrev control : Re → Re → Re
control name end =
    seq (word_edge ∷ name ∷ spaces ∷ lit "(" ∷ group 1 (star dot) ∷ lit ")" ∷ spaces ∷ end ∷ [])

-- the inside of the first of these that a line holds, or the line
inside_control : List Re → Text → Text
unfolding found_group
inside_control [] line = line
inside_control (r ∷ rs) line = elim (found_group r line) [
  | none ↦ inside_control rs line
  | some inside ↦ inside
]

abbrev controls : List Re
controls =
    control (lit "if") (lit "{")
    ∷ control (lit "for") (lit "{")
    ∷ control (lit "while") (any_of "{;")
    ∷ control (lit "switch") (lit "{")
    ∷ []

-- \b(if|for|while|switch|return|new|delete|catch|sizeof)\b
abbrev control_word : Re
control_word = seq (
    word_edge
    ∷ any_word
        ("if" ∷ "for" ∷ "while" ∷ "switch" ∷ "return" ∷ "new" ∷ "delete" ∷ "catch" ∷ "sizeof" ∷ [])
    ∷ word_edge
    ∷ [])

-- \([^)]+\) behind a space, then \([^)]*(\)|,$)
abbrev parenthesized : Re
parenthesized = seq (lit " (" ∷ plus (none_of ")") ∷ lit ")" ∷ [])

abbrev function_pointer : Re
function_pointer =
    seq (parenthesized ∷ lit "(" ∷ star (none_of ")") ∷ alt (lit ")") (cat (lit ",") eol) ∷ [])

-- … \[[^\]]+\]
abbrev array_pointer : Re
array_pointer = seq (parenthesized ∷ lit "[" ∷ plus (none_of "]") ∷ lit "]" ∷ [])

-- \w\s*\(\s(?!\s*\\$)
abbrev space_in_call : Re
space_in_call =
    seq (word ∷ spaces ∷ lit "(" ∷ space ∷ not_ahead (seq (spaces ∷ lit "\\" ∷ eol ∷ [])) ∷ [])

-- \(\s+(?!(\s*\\)|\()
abbrev space_in_parens : Re
space_in_parens =
    seq (lit "(" ∷ plus space ∷ not_ahead (alt (cat spaces (lit "\\")) (lit "(")) ∷ [])

-- \w\s+\(
abbrev space_before_call : Re
space_before_call = seq (word ∷ plus space ∷ lit "(" ∷ [])

-- _{0,2}asm_{0,2}\s+_{0,2}volatile_{0,2}\s+\(
abbrev underscores : Re
underscores = cat (opt (lit "_")) (opt (lit "_"))

abbrev asm_volatile : Re
asm_volatile = seq (
    underscores
    ∷ lit "asm"
    ∷ underscores
    ∷ plus space
    ∷ underscores
    ∷ lit "volatile"
    ∷ underscores
    ∷ plus space
    ∷ lit "("
    ∷ [])

-- #\s*define|typedef|using\s+\w+\s*=
abbrev definition : Re
definition =
    alt (seq (lit "#" ∷ spaces ∷ lit "define" ∷ []))
      (alt (lit "typedef") (seq (lit "using" ∷ plus space ∷ plus word ∷ spaces ∷ lit "=" ∷ [])))

-- \w\s+\((\w+::)*\*\w+\)\(
abbrev member_pointer : Re
member_pointer = seq (
    word
    ∷ plus space
    ∷ lit "("
    ∷ star (cat (plus word) (lit "::"))
    ∷ lit "*"
    ∷ plus word
    ∷ lit ")("
    ∷ [])

-- \bcase\s+\( and \boperator_*\b
abbrev case_value : Re
case_value = seq (word_edge ∷ lit "case" ∷ plus space ∷ lit "(" ∷ [])

abbrev operator_name : Re
operator_name = seq (word_edge ∷ lit "operator" ∷ star (lit "_") ∷ word_edge ∷ [])

-- [^)]\s+\)\s*[^{\s] and ^\s+\)
abbrev space_before_closing : Re
space_before_closing =
    seq
      (none_of ")" ∷ plus space ∷ lit ")" ∷ spaces ∷ one (λ c. not (c == b'{' || is_space c)) ∷ [])

abbrev only_closing : Re
only_closing = seq (bol ∷ plus space ∷ lit ")" ∷ [])

-- the three checks of what looks like a call
check_call : Text → ℕ → Text → Text → List Report
unfolding finds
check_call filename linenum line fncall =
    (if finds space_in_call fncall
      then report filename linenum "whitespace/parens" 4
          (text "Extra space after ( in function call")
        ∷ []
      else report_if (finds space_in_parens fncall) filename linenum "whitespace/parens" 2
          (text "Extra space after ("))
    ++ (report_if
          (finds space_before_call fncall
            && (not (finds asm_volatile fncall)
                && (not (finds definition fncall)
                    && (not (finds member_pointer fncall) && not (finds case_value fncall)))))
          filename linenum "whitespace/parens" (if finds operator_name line then 0 else 4)
          (text "Extra space before ( in function call")
        ++ report_if (finds space_before_closing fncall) filename linenum "whitespace/parens" 2 (
            if finds only_closing fncall
            then text "Closing ) should be moved to the previous line"
            else text "Extra space before )"))

-- `CheckSpacingForFunctionCall`, of the elided line
unfoldable pub check_spacing_for_function_call : Text → ℕ → Text → List Report
unfolding inside_control check_call finds
check_spacing_for_function_call filename linenum line =
    let fncall = inside_control controls line in
    if not (finds control_word fncall)
      && (not (finds function_pointer fncall) && not (finds array_pointer fncall))
    then check_call filename linenum line fncall
    else []

-- ( if\(| for\(| while\(| switch\() behind a space
abbrev control_without_space : Re
control_without_space =
    cat (lit " ") (group 1 (any_word ("if(" ∷ "for(" ∷ "while(" ∷ "switch(" ∷ [])))

-- \b(if|for|while|switch)\s*\(([ ]*)(.).*[^ ]+([ ]*)\)\s*{\s*$
abbrev control_line : Re
control_line = seq (
    word_edge
    ∷ group 1 (any_word ("if" ∷ "for" ∷ "while" ∷ "switch" ∷ []))
    ∷ spaces
    ∷ lit "("
    ∷ group 2 (star (lit " "))
    ∷ group 3 dot
    ∷ star dot
    ∷ plus (none_of " ")
    ∷ group 4 (star (lit " "))
    ∷ lit ")"
    ∷ spaces
    ∷ lit "{"
    ∷ spaces
    ∷ eol
    ∷ [])

-- \bfor\s*\(.*; \)
abbrev for_without_step : Re
for_without_step = seq (word_edge ∷ lit "for" ∷ spaces ∷ lit "(" ∷ star dot ∷ lit "; )" ∷ [])

-- what is said of the spaces inside the parentheses, left and right
check_inside : Text → ℕ → Text → Text → ℕ → Text → ℕ → List Report
unfolding finds text_eq
check_inside filename linenum line name left next right =
    report_if
      (not (left == right)
        && not (
            text_eq next (text ";") && left == 1 + right
            || left == 0 && finds for_without_step line))
      filename linenum "whitespace/parens" 5 (text "Mismatching spaces inside () in " ++ name)
    ++ report_if (not (leb left 1)) filename linenum "whitespace/parens" 5
        (text "Should have zero or one spaces inside ( and ) in " ++ name)

-- `CheckParenthesisSpacing`, of the elided line
unfoldable pub check_parenthesis_spacing : Text → ℕ → Text → List Report
unfolding found_group search_all group_or check_inside
check_parenthesis_spacing filename linenum line =
    elim (found_group control_without_space line) [
      | none ↦ []
      | some name ↦
          report filename linenum "whitespace/parens" 5 (text "Missing space before ( in " ++ name)
          ∷ []
    ]
    ++ elim (search_all control_line line) [
      | none ↦ []
      | some (_, m) ↦
          check_inside filename linenum line (group_or 1 m) (length (group_or 2 m)) (group_or 3 m)
            (length (group_or 4 m))
    ]

-- ,[^,\s] and \boperator\s*,\s*\( and ;[^\s};\\)/]
abbrev tight_comma : Re
tight_comma = cat (lit ",") (one (λ c. not (c == b',' || is_space c)))

abbrev operator_comma : Re
operator_comma = seq (word_edge ∷ lit "operator" ∷ spaces ∷ lit "," ∷ spaces ∷ lit "(" ∷ [])

abbrev tight_semicolon : Re
tight_semicolon = cat (lit ";") (one (λ c. not (contains c (text "};\\)/") || is_space c)))

-- `CheckCommaSpacing`, of the elided line and the line without raw strings
unfoldable pub check_comma_spacing : Text → ℕ → Text → Text → List Report
unfolding finds sub
check_comma_spacing filename linenum line raw =
    report_if (finds tight_comma (sub operator_comma (text "F(") line) && finds tight_comma raw)
      filename linenum "whitespace/comma" 3 (text "Missing space after ,")
    ++ report_if (finds tight_semicolon line) filename linenum "whitespace/semicolon" 3
        (text "Missing space after ;")
