-- ===== src/Cpplint/Style/Tests.antt =====
-- Runs of the checks of style.
use cmu.Base.{none, some, List, ◌≡◌, ◌≤◌, refl, arith, length, Text, [], ◌∷◌, text}
use cmu.Cpplint.Report.{report, call, parse_nolint}
use cmu.Cpplint.Cleansed.{CleansedLines}
use cmu.Cpplint.Headers.{Extensions}
use cmu.Cpplint.Nesting.{initial}
use cmu.Cpplint.Style.Braces.{check_braces}
use cmu.Cpplint.Style.EmptyBlock.{check_empty_block_body}
use cmu.Cpplint.Style.TrailingSemicolon.{check_trailing_semicolon}
use cmu.Cpplint.Style.Line.{check_style}
use cmu.Cpplint.Style.Calls.{check_spacing_for_function_call, check_comma_spacing}
use cmu.Cpplint.Style.CommentText.{check_comment}
use cmu.Cpplint.Style.AltTokens.{check_alt_tokens}
use cmu.Cpplint.Style.Operators.{check_operator_spacing}
use cmu.Cpplint.Style.CheckMacros.{check_check, parse_from}
use cmu.Cpplint.Style.CheckMacros.Rounds.{parse_from-enough}

test_call :
    check_spacing_for_function_call (text "a.cc") 3 (text "f( x);")
    ≡ report (text "a.cc") 3 "whitespace/parens" 4 (text "Extra space after ( in function call")
      ∷ []
unfolding check_spacing_for_function_call
test_call = refl

test_comma :
    check_comma_spacing (text "a.cc") 3 (text "f(a,b);") (text "f(a,b);")
    ≡ report (text "a.cc") 3 "whitespace/comma" 3 (text "Missing space after ,") ∷ []
unfolding check_comma_spacing
test_comma = refl

test_todo :
    check_comment (text "// TODO fix") (text "a.cc") 3 0
    ≡ report
        (text "a.cc")
        3
        "readability/todo"
        2
        (text "Missing username in TODO; it should look like \"// TODO(my_username): Stuff.\"")
      ∷ []
unfolding check_comment
test_todo = refl

test_tokens :
    check_alt_tokens (text "a.cc") 3 (text "if (a and b or c)")
    ≡ report (text "a.cc") 3 "readability/alt_tokens" 2 (text "Use operator && instead of and")
      ∷ report (text "a.cc") 3 "readability/alt_tokens" 2 (text "Use operator || instead of or")
      ∷ []
unfolding check_alt_tokens
test_tokens = refl

test_operator :
    check_operator_spacing
      (text "a.cc")
      (text "bool operator==(T a) { x=1; }" ∷ [])
      0
      (text "bool operator==(T a) { x=1; }")
    ≡ report (text "a.cc") 0 "whitespace/operators" 4 (text "Missing spaces around =") ∷ []
unfolding check_operator_spacing
test_operator = refl

test_check :
    check_check (text "a.cc") (text "CHECK(x == 42);" ∷ []) 0
    ≡ report
        (text "a.cc")
        0
        "readability/check"
        2
        (text "Consider using CHECK_EQ instead of CHECK(a == b)")
      ∷ []
unfolding check_check
test_check = refl

abbrev expression : Text
expression = text "f(x) + 1 == 42"

expression-short : length expression ≤ 14
expression-short = omega arith

expression-shorter : length expression ≤ 30
expression-shorter = omega arith

parse_from-enough_example :
    parse_from (λ _ _. none) 14 [] expression
    ≡ parse_from (λ _ _. some (record { lhs = []; operator = []; rhs = [] })) 30 [] expression
parse_from-enough_example =
    parse_from-enough (λ _ _. none) (λ _ _. some (record { lhs = []; operator = []; rhs = [] })) 14
      30 [] expression expression-short expression-shorter

abbrev cleansed : List Text → CleansedLines
cleansed lines = record {
  elided = lines;
  lines = lines;
  raw_lines = lines;
  num_lines = length lines;
  lines_without_raw_strings = lines;
}

abbrev brace_lines : List Text
brace_lines =
    text ""
    ∷ text "int f()"
    ∷ text "{"
    ∷ text "  if (x) { } else"
    ∷ text "    y(); z();"
    ∷ text "}"
    ∷ []

test_brace_alone :
    check_braces (λ s. length s) 80 (text "a.cc") brace_lines 2 (text "{")
    ≡ report
        (text "a.cc")
        2
        "whitespace/braces"
        4
        (text "{ should almost always be at the end of the previous line")
      ∷ []
unfolding check_braces
test_brace_alone = refl

test_one_side :
    check_braces (λ s. length s) 80 (text "a.cc") brace_lines 3 (text "  if (x) { } else")
    ≡ report
        (text "a.cc")
        3
        "readability/braces"
        5
        (text "If an else has a brace on one side, it should have it on both")
      ∷ []
unfolding check_braces
test_one_side = refl

test_empty_if :
    check_empty_block_body
      (text "a.cc")
      (cleansed (text "if (a) {" ∷ text "}" ∷ text "f();" ∷ []))
      0
    ≡ report
        (text "a.cc")
        0
        "whitespace/empty_if_body"
        4
        (text "If statement had no body and no else clause")
      ∷ []
unfolding check_empty_block_body
test_empty_if = refl

test_else_follows :
    check_empty_block_body
      (text "a.cc")
      (cleansed (text "if (a) {" ∷ text "} else {" ∷ text "}" ∷ []))
      0
    ≡ []
unfolding check_empty_block_body
test_else_follows = refl

test_semicolon :
    check_trailing_semicolon
      (text "a.cc")
      (cleansed (text "" ∷ text "while (x) {" ∷ text "};" ∷ []))
      1
    ≡ parse_nolint (text "while (x) {") 1
      ∷ parse_nolint (text "};") 2
      ∷ call (report (text "a.cc") 2 "readability/braces" 4 (text "You don't need a ; after a }"))
      ∷ []
unfolding check_trailing_semicolon
test_semicolon = refl

abbrev defaults : Extensions
defaults = record { hpp_headers = []; valid_extensions = [] }

test_style :
    check_style
      (λ s. length s)
      80
      defaults
      (λ f. f)
      (λ f. f)
      (λ f. f)
      []
      (text "a.cc")
      (cleansed (text "" ∷ text "   x = 1; " ∷ []))
      1
      (text "cc")
      initial
    ≡ call (
        report
          (text "a.cc")
          1
          "whitespace/indent"
          3
          (text "Weird number of spaces at line-start.  Are you using a 2-space indent?"))
      ∷ call (
          report
            (text "a.cc")
            1
            "whitespace/end_of_line"
            4
            (text "Line ends in whitespace.  Consider deleting these extra spaces."))
      ∷ []
unfolding check_style
test_style = refl
