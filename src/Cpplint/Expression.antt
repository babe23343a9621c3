-- ===== src/Cpplint/Expression.antt =====
-- Matching of brackets across lines in build_support/cpplint.py. A stack is a list whose head is its
-- top, where the source uses the end of a Python list.
pub mod Lines
pub mod Effect
pub mod Balance
pub mod Close
mod Tests
use cmu.Base.{
  ℕ, zero, suc, ◌+◌, ◌-◌, Bool, true, false, not, ◌&&◌, ◌||◌, Option, none, some, ◌⊎◌, inl, inr,
  List, [], ◌∷◌, ◌++◌, ltb, ◌==◌, if◌then◌else◌, length, get_elem?, take, drop, Text, text,
}
use cmu.PyText.{contains}
use cmu.Regex.{Re, word_edge, lit, any_of, spaces, eol, seq, cat, finds, matches}

abbrev pub Stack : Type 0
Stack = List ℕ

-- The index behind the end, `(-1, None)`, or `(-1, stack)`.
pub data Scan : Type 0 where
  found : ℕ → Scan
  failed : Scan
  pending : Stack → Scan

abbrev pub top_is : ℕ → Stack → Bool
top_is c [] = false
top_is c (d ∷ stack) = d == c

abbrev pub pop : Stack → Stack
pop [] = []
pop (c ∷ stack) = stack

-- `while stack and stack[-1] == '<': stack.pop()`
pop_angles : Stack → Stack
pop_angles [] = []
pop_angles (c ∷ stack) = let rest = pop_angles stack in if c == b'<' then rest else c ∷ stack

abbrev pub is_open : ℕ → Bool
is_open c = c == b'(' || c == b'[' || c == b'{'

abbrev pub is_close : ℕ → Bool
is_close c = c == b')' || c == b']' || c == b'}'

abbrev pub pairs : ℕ → ℕ → Bool
pairs o c = o == b'(' && c == b')' || o == b'[' && c == b']' || o == b'{' && c == b'}'

-- `line[i - 1] == c`, where `i > 0` is tested before
previous_is : Text → ℕ → ℕ → Bool
previous_is line zero c = false
previous_is line (suc i) c = elim (get_elem? line i) [ none ↦ false | some d ↦ d == c ]

-- \boperator\s*$
abbrev pub operator_end : Re
operator_end = seq (word_edge ∷ lit "operator" ∷ spaces ∷ eol ∷ [])

-- What one character does: the scan goes on with a stack, or stops.
abbrev Step : Type 0
Step = Stack ⊎ Scan

-- the end of a scan if the stack has become empty, and else the stack
abbrev unless_empty : Scan → Stack → Step
unless_empty r [] = inr r
unless_empty r (c ∷ stack) = inl (c ∷ stack)

abbrev close_top : ℕ → ℕ → Stack → Step
close_top i c [] = inr failed
close_top i c (o ∷ stack) = if pairs o c then unless_empty (found (i + 1)) stack else inr failed

less_step : Text → ℕ → Stack → Step
unfolding previous_is finds
less_step line i stack =
    if previous_is line i b'<'
    then (if top_is b'<' stack then unless_empty failed (pop stack) else inl stack)
    else if ltb 0 i && finds operator_end (take i line)
    then inl stack
    else inl (b'<' ∷ stack)

greater_step : Text → ℕ → Stack → Step
unfolding previous_is finds
greater_step line i stack =
    if ltb 0 i && (previous_is line i b'-' || finds operator_end (take (i - 1) line))
    then inl stack
    else if top_is b'<' stack
    then unless_empty (found (i + 1)) (pop stack)
    else inl stack

-- the body of the loop of `FindEndOfExpressionInLine`
end_step : Text → ℕ → ℕ → Stack → Step
unfolding less_step greater_step pop_angles
end_step line i c stack =
    if is_open c
    then inl (c ∷ stack)
    else if c == b'<'
    then less_step line i stack
    else if is_close c
    then close_top i c (pop_angles stack)
    else if c == b'>'
    then greater_step line i stack
    else if c == b';'
    then unless_empty failed (pop_angles stack)
    else inl stack

-- the loop from index `i`, where the line goes on with the last text
pub end_from : Text → ℕ → Text → Stack → Scan
unfolding end_step
end_from line i [] stack = pending stack
end_from line i (c ∷ rest) stack = elim (end_step line i c stack) [
  | inl stack' ↦ end_from line (i + 1) rest stack'
  | inr r ↦ r
]

-- `FindEndOfExpressionInLine`
unfoldable pub find_end_of_expression_in_line : Text → ℕ → Stack → Scan
unfolding end_from
find_end_of_expression_in_line line startpos stack =
    end_from line startpos (drop startpos line) stack

-- What `CloseExpression` returns: the line, its number, and the position, where -1 is `none`.
pub record Closing : Type 0 where
  pub line : Text
  pub linenum : ℕ
  pub pos : Option ℕ

-- the loop over the lines that follow; the number is `clean_lines.NumLines()`
pub close_from : ℕ → List Text → ℕ → Text → Stack → Closing
unfolding find_end_of_expression_in_line
close_from num_lines [] linenum line stack = record { line = line; linenum = num_lines; pos = none }
close_from num_lines (next ∷ lines) linenum line [] = record {
  line = line;
  linenum = num_lines;
  pos = none;
}
close_from num_lines (next ∷ lines) linenum line (c ∷ stack) =
    elim (find_end_of_expression_in_line next 0 (c ∷ stack)) [
      | found p ↦ record { line = next; linenum = linenum + 1; pos = some p }
      | failed ↦ record { line = next; linenum = num_lines; pos = none }
      | pending stack' ↦ close_from num_lines lines (linenum + 1) next stack'
    ]

-- <[<=]
abbrev shift_or_le : Re
shift_or_le = cat (lit "<") (any_of "<=")

close_line : List Text → ℕ → ℕ → Text → Closing
unfolding close_from find_end_of_expression_in_line
close_line elided linenum pos line = elim (find_end_of_expression_in_line line pos []) [
  | found p ↦ record { line = line; linenum = linenum; pos = some p }
  | failed ↦ record { line = line; linenum = length elided; pos = none }
  | pending stack ↦ close_from (length elided) (drop (linenum + 1) elided) linenum line stack
]

close_at : List Text → ℕ → ℕ → Text → ℕ → Closing
unfolding close_line contains matches
close_at elided linenum pos line c =
    if not (contains c (text "({[<")) || matches shift_or_le (drop pos line)
    then record { line = line; linenum = length elided; pos = none }
    else close_line elided linenum pos line

-- `CloseExpression`; `none` is the IndexError of a line or a position that is not there
unfoldable pub close_expression : List Text → ℕ → ℕ → Option Closing
unfolding close_at
close_expression elided linenum pos = elim (get_elem? elided linenum) [
  | none ↦ none
  | some line ↦ elim (get_elem? line pos) [
    | none ↦ none
    | some c ↦ some (close_at elided linenum pos line c)
  ]
]
