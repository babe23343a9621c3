-- ===== src/Cpplint/Inheritance.antt =====
-- `CheckMakePairUsesDeduction`, `CheckRedundantVirtual`, `CheckRedundantOverrideOrFinal` and
-- `FlagCxx11Features` of build_support/cpplint.py.
use cmu.Base.{
  ℕ, zero, suc, ◌+◌, ◌-◌, not, ◌&&◌, ◌||◌, Option, none, some, List, [], ◌∷◌, ◌++◌, map, reverse,
  ltb, if◌then◌else◌, length, take, drop, String, Text, text,
}
use cmu.PyText.{find, member, starts_with}
use cmu.Regex.{
  Re, star, group, bol, eol, word_edge, cat, lit, one, none_of, any_of, any_word, dot, plus,
  is_word, space, spaces, seq, match, matches, finds, group_or, found_group,
}
use cmu.Cpplint.Report.{Report, report, report_if}
use cmu.Cpplint.Expression.{Closing, close_expression}
use cmu.Cpplint.Blocks.{line_at}

-- _RE_PATTERN_EXPLICIT_MAKEPAIR: \bmake_pair\s*<
abbrev explicit_make_pair : Re
explicit_make_pair = seq (word_edge ∷ lit "make_pair" ∷ spaces ∷ lit "<" ∷ [])

-- `CheckMakePairUsesDeduction`, of the elided line
unfoldable pub check_make_pair_uses_deduction : Text → ℕ → Text → List Report
unfolding finds
check_make_pair_uses_deduction filename linenum line =
    report_if (finds explicit_make_pair line) filename linenum "build/explicit_make_pair" 4 (
      text
        "For C++11-compatibility, omit template arguments from make_pair OR use pair directly OR if appropriate, construct a pair directly")

-- ^(.*)(\bvirtual\b)(.*)$
abbrev virtual_word : Re
virtual_word = seq (
    bol
    ∷ group 1 (star dot)
    ∷ group 2 (seq (word_edge ∷ lit "virtual" ∷ word_edge ∷ []))
    ∷ group 3 (star dot)
    ∷ eol
    ∷ [])

-- \b(public|protected|private)\s+$ and ^\s+(public|protected|private)\b
abbrev access : Re
access = any_word ("public" ∷ "protected" ∷ "private" ∷ [])

abbrev access_before : Re
access_before = seq (word_edge ∷ access ∷ plus space ∷ eol ∷ [])

abbrev access_behind : Re
access_behind = seq (bol ∷ plus space ∷ access ∷ word_edge ∷ [])

-- ^.*[^:]:[^:].*$
abbrev bare_colon : Re
bare_colon = seq (bol ∷ star dot ∷ none_of ":" ∷ lit ":" ∷ none_of ":" ∷ star dot ∷ eol ∷ [])

-- ^([^(]*)\(
abbrev parameter_list : Re
parameter_list = seq (bol ∷ group 1 (star (none_of "(")) ∷ lit "(" ∷ [])

-- the end of the first parameter list, over so many lines from one on, the first from a column on
parameters_end : List Text → ℕ → ℕ → ℕ → Option Closing
unfolding match group_or close_expression
parameters_end elided zero start_line start_col = none
parameters_end elided (suc n) start_line start_col = elim (drop start_line elided) [
  | [] ↦ none
  | line ∷ lines ↦ elim (match parameter_list (drop start_col line)) [
    | some m ↦ close_expression elided start_line (start_col + length (group_or 1 m))
    | none ↦ parameters_end elided n (start_line + 1) 0
  ]
]

-- \b(override|final)\b and [^\w]\s*$
abbrev override_or_final : Re
override_or_final =
    seq (word_edge ∷ group 1 (any_word ("override" ∷ "final" ∷ [])) ∷ word_edge ∷ [])

abbrev ends_line : Re
ends_line = seq (one (λ c. not (is_word c)) ∷ spaces ∷ eol ∷ [])

-- what is said of these lines, until one of them ends in a character that is not one of a word
check_specifiers : Text → ℕ → List Text → List Report
unfolding found_group finds
check_specifiers filename linenum [] = []
check_specifiers filename linenum (line ∷ lines) =
    let later = check_specifiers filename linenum lines in
    elim (found_group override_or_final line) [
      | none ↦ []
      | some name ↦
          report filename linenum "readability/inheritance" 4 (
            text "\"virtual\" is redundant since function is already declared as \""
            ++ (name ++ text "\""))
          ∷ []
    ]
    ++ (if finds ends_line line then [] else later)

-- the lines from a number on, the first from a column on
lines_from : List Text → ℕ → ℕ → List Text
lines_from elided linenum col = elim (drop linenum elided) [
  | [] ↦ []
  | line ∷ lines ↦ drop col line ∷ lines
]

-- `CheckRedundantVirtual`, of a line of the elided ones
unfoldable pub check_redundant_virtual : Text → List Text → ℕ → Text → List Report
unfolding match matches finds group_or parameters_end check_specifiers lines_from
check_redundant_virtual filename elided linenum line = elim (match virtual_word line) [
  | none ↦ []
  | some m ↦
      if finds access_before (group_or 1 m) || matches access_behind (group_or 3 m)
      then []
      else if matches bare_colon line
      then []
      else elim (parameters_end elided 3 linenum (length (group_or 2 m))) [
        | none ↦ []
        | some c ↦ elim c.pos [
          | none ↦ []
          | some end_col ↦
              check_specifiers filename linenum (take 3 (lines_from elided c.linenum end_col))
        ]
      ]
]

-- `line[line.rfind(')'):]`, if there is one
from_last_parenthesis : Text → Option Text
unfolding find
from_last_parenthesis line = elim (find (text ")") (reverse line)) [
  | none ↦ none
  | some i ↦ some (drop (length line - 1 - i) line)
]

-- `CheckRedundantOverrideOrFinal`, of a line of the elided ones
check_fragment : Text → ℕ → Text → List Report
unfolding finds
check_fragment filename linenum fragment =
    report_if
      (finds (seq (word_edge ∷ lit "override" ∷ word_edge ∷ [])) fragment
        && finds (seq (word_edge ∷ lit "final" ∷ word_edge ∷ [])) fragment)
      filename linenum "readability/inheritance" 4
      (text "\"override\" is redundant since function is already declared as \"final\"")

unfoldable pub check_redundant_override_or_final : Text → List Text → ℕ → Text → List Report
unfolding from_last_parenthesis check_fragment
check_redundant_override_or_final filename elided linenum line =
    let above = from_last_parenthesis (line_at elided (linenum - 1)) in
    elim (from_last_parenthesis line) [
      | some fragment ↦ check_fragment filename linenum fragment
      | none ↦ elim above [
        | none ↦ []
        | some _ ↦ if ltb 1 linenum then check_fragment filename linenum line else []
      ]
    ]

-- \s*#\s*include\s+[<"]([^<"]+)[">]
abbrev include_name : Re
include_name = seq (
    spaces
    ∷ lit "#"
    ∷ spaces
    ∷ lit "include"
    ∷ plus space
    ∷ any_of "<\""
    ∷ group 1 (plus (none_of "<\""))
    ∷ any_of "\">"
    ∷ [])

-- the headers of C++11 that are not approved
abbrev cxx11_headers : List Text
cxx11_headers = map text (
    "cfenv" ∷ "condition_variable" ∷ "fenv.h" ∷ "future" ∷ "mutex" ∷ "thread" ∷ "chrono" ∷ "ratio"
    ∷ "regex" ∷ "system_error" ∷ [])

check_header : Text → ℕ → Text → List Report
unfolding starts_with member
check_header filename linenum include =
    report_if (starts_with (text "tr1/") include) filename linenum "build/c++tr1" 5
      (text "C++ TR1 headers such as <" ++ (include ++ text "> are unapproved."))
    ++ report_if (member include cxx11_headers) filename linenum "build/c++11" 5
        (b'<' ∷ include ++ text "> is an unapproved C++11 header.")

check_top_names : Text → ℕ → Text → List String → List Report
unfolding finds
check_top_names filename linenum line [] = []
check_top_names filename linenum line (top_name ∷ names) =
    report_if (finds (seq (word_edge ∷ lit "std::" ∷ lit top_name ∷ word_edge ∷ [])) line) filename
      linenum "build/c++11" 5
      (text "std::"
        ++ (text top_name
            ++ text
                " is an unapproved C++11 class or function.  Send c-style an example of where it would make your code more readable, and they may let you use it."))
    ++ check_top_names filename linenum line names

-- \s*# and \s*#\s*define\b
abbrev directive : Re
directive = cat spaces (lit "#")

abbrev define_directive : Re
define_directive = seq (spaces ∷ lit "#" ∷ spaces ∷ lit "define" ∷ word_edge ∷ [])

-- `FlagCxx11Features`, of the elided line
unfoldable pub flag_cxx11_features : Text → ℕ → Text → List Report
unfolding match matches group_or check_header check_top_names
flag_cxx11_features filename linenum line =
    elim (match include_name line) [
      | none ↦ []
      | some m ↦ check_header filename linenum (group_or 1 m)
    ]
    ++ (if matches directive line && not (matches define_directive line)
        then []
        else check_top_names filename linenum line ("alignment_of" ∷ "aligned_union" ∷ []))
