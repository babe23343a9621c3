-- ===== src/Cpplint/Reverse.antt =====
-- `FindStartOfExpressionInLine` and `ReverseCloseExpression` of build_support/cpplint.py. A line is
-- read from right to left: what stands before an index is a text whose head is the nearest character.
pub mod Mirror
pub mod Open
mod Tests
use cmu.Base.{
  ℕ, zero, suc, ◌+◌, ◌-◌, Bool, true, false, not, ◌&&◌, ◌||◌, Option, none, some, List, [], ◌∷◌,
  reverse, ◌==◌, if◌then◌else◌, length, get_elem?, take, drop, Text, text,
}
use cmu.PyText.{contains}
use cmu.Regex.{Re, space, lit, seq, finds, matches}
use cmu.Cpplint.Expression.{
  Stack, Scan, found, failed, pending, top_is, pop, is_open, is_close, pairs, operator_end, Closing,
}

-- `while stack and stack[-1] == '>': stack.pop()`
pop_right_angles : Stack → Stack
pop_right_angles [] = []
pop_right_angles (c ∷ stack) =
    let rest = pop_right_angles stack in if c == b'>' then rest else c ∷ stack

-- `line[i - 1] == c`, with `i > 0`
abbrev ends_in : ℕ → Text → Bool
ends_in c [] = false
ends_in c (d ∷ before) = d == c

-- What one character does: the scan goes on with the character before it, passes over that one too,
-- or stops.
pub data Back : Type 0 where
  on : Stack → Back
  skip : Stack → Back
  stop : Scan → Back

abbrev go_on_unless_empty : Scan → Stack → Back
go_on_unless_empty r [] = stop r
go_on_unless_empty r (c ∷ stack) = on (c ∷ stack)

abbrev open_top : ℕ → ℕ → Stack → Back
open_top i c [] = stop failed
open_top i c (o ∷ stack) = if pairs c o then go_on_unless_empty (found i) stack else stop failed

-- \s>=\s
abbrev spaced_at_least : Re
spaced_at_least = seq (space ∷ lit ">=" ∷ space ∷ [])

-- whether a `>` is part of `->`, ` >= ` or `operator>`
right_is_operator : Text → Text → Bool
unfolding matches finds
right_is_operator line [] = false
right_is_operator line (d ∷ before) =
    d == b'-'
    || matches spaced_at_least (drop (length before) line)
    || finds operator_end (reverse (d ∷ before))

-- the body of the loop of `FindStartOfExpressionInLine`, where the text is what stands before
start_step : Text → Text → ℕ → Stack → Back
unfolding right_is_operator pop_right_angles
start_step line before c stack =
    if is_close c
    then on (c ∷ stack)
    else if c == b'>'
    then (if right_is_operator line before then skip stack else on (b'>' ∷ stack))
    else if c == b'<'
    then (if ends_in b'<' before
        then skip stack
        else if top_is b'>' stack
        then go_on_unless_empty (found (length before)) (pop stack)
        else on stack)
    else if is_open c
    then open_top (length before) c (pop_right_angles stack)
    else if c == b';'
    then go_on_unless_empty failed (pop_right_angles stack)
    else on stack

-- the loop; the flag tells that one character more is passed over
pub start_from : Text → Text → Bool → Stack → Scan
unfolding start_step
start_from line [] passes stack = pending stack
start_from line (c ∷ before) true stack = start_from line before false stack
start_from line (c ∷ before) false stack = elim (start_step line before c stack) [
  | on stack' ↦ start_from line before false stack'
  | skip stack' ↦ start_from line before true stack'
  | stop r ↦ r
]

-- `FindStartOfExpressionInLine` from the index before `n`, so that 0 stands for the index -1 of an
-- empty line; `n` is at most the length of the line.
unfoldable pub find_start_of_expression_in_line : Text → ℕ → Stack → Scan
unfolding start_from
find_start_of_expression_in_line line n stack = start_from line (reverse (take n line)) false stack

-- the loop over the lines before, the nearest one first
pub reverse_close_from : List Text → Text → Stack → Closing
unfolding find_start_of_expression_in_line
reverse_close_from [] line stack = record { line = line; linenum = 0; pos = none }
reverse_close_from (prev ∷ lines) line [] = record { line = line; linenum = 0; pos = none }
reverse_close_from (prev ∷ lines) line (c ∷ stack) =
    elim (find_start_of_expression_in_line prev (length prev) (c ∷ stack)) [
      | found p ↦ record { line = prev; linenum = length lines; pos = some p }
      | failed ↦ record { line = prev; linenum = 0; pos = none }
      | pending stack' ↦ reverse_close_from lines prev stack'
    ]

reverse_close_line : List Text → ℕ → ℕ → Text → Closing
unfolding reverse_close_from find_start_of_expression_in_line
reverse_close_line elided linenum pos line =
    elim (find_start_of_expression_in_line line (pos + 1) []) [
      | found p ↦ record { line = line; linenum = linenum; pos = some p }
      | failed ↦ record { line = line; linenum = 0; pos = none }
      | pending stack ↦ reverse_close_from (reverse (take linenum elided)) line stack
    ]

reverse_close_at : List Text → ℕ → ℕ → Text → ℕ → Closing
unfolding reverse_close_line contains
reverse_close_at elided linenum pos line c =
    if not (contains c (text ")}]>"))
    then record { line = line; linenum = 0; pos = none }
    else reverse_close_line elided linenum pos line

-- `ReverseCloseExpression`; `none` is the IndexError of a line or a position that is not there
unfoldable pub reverse_close_expression : List Text → ℕ → ℕ → Option Closing
unfolding reverse_close_at
reverse_close_expression elided linenum pos = elim (get_elem? elided linenum) [
  | none ↦ none
  | some line ↦ elim (get_elem? line pos) [
    | none ↦ none
    | some c ↦ some (reverse_close_at elided linenum pos line c)
  ]
]
