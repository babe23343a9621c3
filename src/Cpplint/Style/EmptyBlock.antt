-- ===== src/Cpplint/Style/EmptyBlock.antt =====
-- `CheckEmptyBlockBody` of build_support/cpplint.py.
use cmu.Base.{
  ℕ, ◌+◌, ◌-◌, Bool, true, false, not, ◌&&◌, Option, none, some, List, [], ◌∷◌, ◌++◌, map, ltb,
  ◌==◌, if◌then◌else◌, take, drop, Text, text, text_eq,
}
use cmu.PyText.{find, join}
use cmu.Regex.{
  Re, group, bol, eol, ahead, lit, any_word, cat, spaces, seq, match, matches, finds, group_or,
}
use cmu.Cpplint.Report.{Report, report}
use cmu.Cpplint.Comments.{cleanse_comments}
use cmu.Cpplint.Cleansed.{CleansedLines}
use cmu.Cpplint.Expression.{close_expression}
use cmu.Cpplint.Blocks.{line_at}

-- \s*(for|while|if)\s*\(
abbrev condition : Re
condition = seq (spaces ∷ group 1 (any_word ("for" ∷ "while" ∷ "if" ∷ [])) ∷ spaces ∷ lit "(" ∷ [])

-- ^\s*\{ and ^\s*$ and ^(?=\s*else)
abbrev open_first : Re
open_first = seq (bol ∷ spaces ∷ lit "{" ∷ [])

abbrev blank : Re
blank = seq (bol ∷ spaces ∷ eol ∷ [])

abbrev else_first : Re
else_first = seq (bol ∷ ahead (cat spaces (lit "else")) ∷ [])

-- the first line that starts with a brace, from a part of a line on, over lines that follow; none if
-- something else comes first
find_opening : ℕ → Text → List Text → Option (ℕ × Text)
unfolding finds
find_opening linenum fragment [] =
    if finds open_first fragment then some (linenum, fragment) else none
find_opening linenum fragment (next ∷ lines) = elim (finds open_first fragment) [
  | true ↦ some (linenum, fragment)
  | false ↦ elim (finds blank fragment) [
    | false ↦ none
    | true ↦ find_opening (linenum + 1) next lines
  ]
]

-- whether no `else` comes next, from a part of a line on, over lines that follow
no_else : Text → List Text → Bool
unfolding finds
no_else fragment [] = not (finds else_first fragment)
no_else fragment (next ∷ lines) = elim (finds else_first fragment) [
  | true ↦ false
  | false ↦ elim (finds blank fragment) [ false ↦ true | true ↦ no_else next lines ]
]

-- `body`, between the brace that opens it and the one that closes it
body_of : CleansedLines → ℕ → ℕ → ℕ → ℕ → Text
unfolding join
body_of clean_lines opening_linenum opening_pos closing_linenum closing_pos =
    let opening_line = line_at clean_lines.elided opening_linenum in
    if ltb opening_linenum closing_linenum
    then join (text "\n") (
        map (λ c. c ∷ []) (drop (opening_pos + 1) opening_line)
        ++ (take (closing_linenum - (opening_linenum + 1))
              (drop (opening_linenum + 1) clean_lines.raw_lines)
            ++ take (closing_pos - 1) (line_at clean_lines.elided closing_linenum) ∷ []))
    else drop (opening_pos + 1) (take (closing_pos - 1) opening_line)

-- whether the block that opens there is empty and no `else` follows
is_empty_block : CleansedLines → ℕ → ℕ → Bool
unfolding close_expression text_eq cleanse_comments finds body_of no_else
is_empty_block clean_lines opening_linenum opening_pos =
    let raw = line_at clean_lines.raw_lines opening_linenum in
    elim (close_expression clean_lines.elided opening_linenum opening_pos) [
      | none ↦ false
      | some c ↦ elim c.pos [
        | none ↦ false
        | some closing_pos ↦
            text_eq raw (cleanse_comments raw)
            && (finds blank (body_of clean_lines opening_linenum opening_pos c.linenum closing_pos)
                && no_else (drop closing_pos c.line) (drop (c.linenum + 1) clean_lines.elided))
      ]
    ]

-- the check of an `if` whose condition ends at a position of a line
check_if : Text → CleansedLines → ℕ → Text → ℕ → List Report
unfolding find_opening find is_empty_block
check_if filename clean_lines end_linenum end_line end_pos =
    elim (find_opening end_linenum (drop end_pos end_line)
      (drop (end_linenum + 1) clean_lines.elided)) [
        | none ↦ []
        | some (opening_linenum, fragment) ↦ elim (find (text "{") fragment) [
          | none ↦ []
          | some i ↦
              let opening_pos = if opening_linenum == end_linenum then i + end_pos else i in
              if is_empty_block clean_lines opening_linenum opening_pos
              then report filename end_linenum "whitespace/empty_if_body" 4
                  (text "If statement had no body and no else clause")
                ∷ []
              else []
        ]
      ]

-- what is said of a condition with this keyword that ends there
check_condition : Text → CleansedLines → Text → ℕ → Text → ℕ → List Report
unfolding matches text_eq check_if
check_condition filename clean_lines keyword end_linenum end_line end_pos =
    let is_if = text_eq keyword (text "if") in
    (if matches (lit ";") (drop end_pos end_line)
      then (if is_if
          then report filename end_linenum "whitespace/empty_conditional_body" 5
              (text "Empty conditional bodies should use {}")
            ∷ []
          else report filename end_linenum "whitespace/empty_loop_body" 5
              (text "Empty loop bodies should use {} or continue")
            ∷ [])
      else [])
    ++ (if is_if then check_if filename clean_lines end_linenum end_line end_pos else [])

-- `CheckEmptyBlockBody`, of a line that is there
unfoldable pub check_empty_block_body : Text → CleansedLines → ℕ → List Report
unfolding match group_or find close_expression check_condition
check_empty_block_body filename clean_lines linenum =
    let line = line_at clean_lines.elided linenum in
    elim (match condition line) [
      | none ↦ []
      | some m ↦ elim (find (text "(") line) [
        | none ↦ []
        | some i ↦ elim (close_expression clean_lines.elided linenum i) [
          | none ↦ []
          | some c ↦ elim c.pos [
            | none ↦ []
            | some end_pos ↦
                check_condition filename clean_lines (group_or 1 m) c.linenum c.line end_pos
          ]
        ]
      ]
    ]
