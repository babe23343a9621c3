-- ===== src/Cpplint/Style/Operators.antt =====
-- `CheckOperatorSpacing` of build_support/cpplint.py.
use cmu.Base.{
  ℕ, zero, suc, Bool, true, false, not, ◌&&◌, ◌||◌, Option, none, some, List, [], ◌∷◌, ◌++◌, map,
  leb, ◌==◌, if◌then◌else◌, length, Text, text, text_eq,
}
use cmu.PyText.{is_space, contains}
use cmu.Regex.{
  Re, one, star, group, bol, eol, word_edge, alt, cat, lit, any_of, any_word, dot, opt, plus, space,
  spaces, non_space, is_word, seq, match, matches, finds, search_all, group_or, found_group,
}
use cmu.Cpplint.Report.{Report, report, report_if}
use cmu.Cpplint.Expression.{Closing, close_expression}
use cmu.Cpplint.Reverse.{reverse_close_expression}

-- ^(.*\boperator\b)(\S+)(\s*\(.*)$
abbrev operator_method : Re
operator_method = seq (
    bol
    ∷ group 1 (seq (star dot ∷ word_edge ∷ lit "operator" ∷ word_edge ∷ []))
    ∷ group 2 (plus non_space)
    ∷ group 3 (seq (spaces ∷ lit "(" ∷ star dot ∷ []))
    ∷ eol
    ∷ [])

-- a round of the loop that hides the names of operators
hide_operator : (Text → Text) → Text → Text
unfolding match group_or
hide_operator next line = elim (match operator_method line) [
  | none ↦ line
  | some m ↦ next (group_or 1 m ++ (map (λ c. b'_') (group_or 2 m) ++ group_or 3 m))
]

-- The loop. A round leaves the word `operator` one time less, so a round for each character is enough.
hide_operators : ℕ → Text → Text
unfolding hide_operator
hide_operators zero line = line
hide_operators (suc fuel) line = hide_operator (hide_operators fuel) line

-- [\w.]= and =[\w.]
abbrev name_or_dot : Re
name_or_dot = one (λ c. is_word c || c == b'.')

-- \b(if|while|for) with a space
abbrev condition : Re
condition = seq (word_edge ∷ any_word ("if" ∷ "while" ∷ "for" ∷ []) ∷ lit " " ∷ [])

-- (>=|<=|==|!=|&=|\^=|\|=|\+=|\*=|\/=|\%=)
abbrev operator_with_equals : Re
operator_with_equals = cat (any_of "><=!&^|+*/%") (lit "=")

-- [^<>=!\s](==|!=|<=|>=|\|\|)[^<>=!\s,;\)]
abbrev tight_comparison : Re
tight_comparison = seq (
    one (λ c. not (contains c (text "<>=!") || is_space c))
    ∷ group 1 (any_word ("==" ∷ "!=" ∷ "<=" ∷ ">=" ∷ "||" ∷ []))
    ∷ one (λ c. not (contains c (text "<>=!,;)") || is_space c))
    ∷ [])

-- #.*include
abbrev include_directive : Re
include_directive = seq (lit "#" ∷ star dot ∷ lit "include" ∷ [])

-- ^(.*[^\s<])<[^\s=<,] and ^(.*[^-\s>])>[^\s=>,]
abbrev tight_less : Re
tight_less = seq (
    bol
    ∷ group 1 (cat (star dot) (one (λ c. not (c == b'<' || is_space c))))
    ∷ lit "<"
    ∷ one (λ c. not (contains c (text "=<,") || is_space c))
    ∷ [])

abbrev tight_greater : Re
tight_greater = seq (
    bol
    ∷ group 1 (cat (star dot) (one (λ c. not (contains c (text "->") || is_space c))))
    ∷ lit ">"
    ∷ one (λ c. not (contains c (text "=>,") || is_space c))
    ∷ [])

-- (operator|[^\s(<])(?:L|UL|LL|ULL|l|ul|ll|ull)?<<([^\s,=<])
abbrev tight_shift : Re
tight_shift = seq (
    group 1 (alt (lit "operator") (one (λ c. not (contains c (text "(<") || is_space c))))
    ∷ opt (any_word ("L" ∷ "UL" ∷ "LL" ∷ "ULL" ∷ "l" ∷ "ul" ∷ "ll" ∷ "ull" ∷ []))
    ∷ lit "<<"
    ∷ group 2 (one (λ c. not (contains c (text ",=<") || is_space c)))
    ∷ [])

-- >>[a-zA-Z_]
abbrev tight_right_shift : Re
tight_right_shift =
    cat (lit ">>") (one (λ c. leb b'a' c && leb c b'z' || (leb b'A' c && leb c b'Z' || c == b'_')))

-- (!\s|~\s|[\s]--[\s;]|[\s]\+\+[\s;])
abbrev loose_unary : Re
loose_unary = group 1 (
    alt (cat (any_of "!~") space)
      (seq (space ∷ any_word ("--" ∷ "++" ∷ []) ∷ one (λ c. c == b';' || is_space c) ∷ [])))

-- `s.isdigit()`, on ASCII
is_digit : Text → Bool
is_digit [] = false
is_digit (c ∷ []) = leb b'0' c && leb c b'9'
is_digit (c ∷ d ∷ s) = leb b'0' c && leb c b'9' && is_digit (d ∷ s)

-- whether a bracket is not matched; the position is that of a character of the line, since the line keeps
-- its columns
unmatched : Option Closing → Bool
unmatched none = true
unmatched (some c) = elim c.pos [ none ↦ true | some pos ↦ false ]

-- the checks of `<` and `>`
check_angles : Text → List Text → ℕ → Text → List Report
unfolding match group_or close_expression reverse_close_expression unmatched
check_angles filename elided linenum line =
    elim (match tight_less line) [
      | none ↦ []
      | some m ↦
          report_if (unmatched (close_expression elided linenum (length (group_or 1 m)))) filename
            linenum "whitespace/operators" 3 (text "Missing spaces around <")
    ]
    ++ elim (match tight_greater line) [
      | none ↦ []
      | some m ↦
          report_if (unmatched (reverse_close_expression elided linenum (length (group_or 1 m))))
            filename linenum "whitespace/operators" 3 (text "Missing spaces around >")
    ]

-- the check of comparisons, and of angle brackets where it finds nothing
check_comparison : Text → List Text → ℕ → Text → List Report
unfolding found_group matches check_angles
check_comparison filename elided linenum line = elim (found_group tight_comparison line) [
  | some name ↦
      report filename linenum "whitespace/operators" 3 (text "Missing spaces around " ++ name) ∷ []
  | none ↦
      if not (matches include_directive line) then check_angles filename elided linenum line else []
]

-- the check of `<<`
check_shift : Text → ℕ → Text → List Report
unfolding search_all group_or is_digit text_eq
check_shift filename linenum line = elim (search_all tight_shift line) [
  | none ↦ []
  | some (_, m) ↦
      report_if
        (not (is_digit (group_or 1 m) && is_digit (group_or 2 m))
          && not (text_eq (group_or 1 m) (text "operator") && text_eq (group_or 2 m) (text ";")))
        filename linenum "whitespace/operators" 3 (text "Missing spaces around <<")
]

-- `CheckOperatorSpacing`, of a line of the elided ones
unfoldable pub check_operator_spacing : Text → List Text → ℕ → Text → List Report
unfolding hide_operators finds check_comparison check_shift found_group
check_operator_spacing filename elided linenum source =
    let line = hide_operators (length source) source in
    report_if
      ((finds (cat name_or_dot (lit "=")) line || finds (cat (lit "=") name_or_dot) line)
        && (not (finds condition line)
            && (not (finds operator_with_equals line) && not (finds (lit "operator=") line))))
      filename linenum "whitespace/operators" 4 (text "Missing spaces around =")
    ++ (check_comparison filename elided linenum line
        ++ (check_shift filename linenum line
            ++ (report_if (finds tight_right_shift line) filename linenum "whitespace/operators" 3
                  (text "Missing spaces around >>")
                ++ elim (found_group loose_unary line) [
                  | none ↦ []
                  | some name ↦
                      report filename linenum "whitespace/operators" 4
                        (text "Extra space for operator " ++ name)
                      ∷ []
                ])))
