-- ===== src/Cpplint/TemplateArguments.antt =====
-- `InTemplateArgumentList` of `NestingState` in build_support/cpplint.py.
use cmu.Base.{
  ℕ, zero, suc, ◌+◌, ◌-◌, Bool, true, false, not, none, some, List, [], ◌∷◌, leb, ◌==◌,
  if◌then◌else◌, length, get_elem?, drop, Text, text,
}
use cmu.PyText.{contains}
use cmu.Regex.{Re, star, group, bol, dot, none_of, seq, match, group_or}
use cmu.Cpplint.Expression.{close_expression}

-- ^[^{};=\[\]\.<>]*(.)
abbrev next_token : Re
next_token = seq (bol ∷ star (none_of "{};=[].<>") ∷ group 1 dot ∷ [])

-- What one round does: the answer, or the line and the position that the next round looks at.
pub data Look : Type 0 where
  answer : Bool → Look
  at : ℕ → ℕ → Look

look_at_token : List Text → ℕ → Text → ℕ → ℕ → Look
unfolding contains close_expression
look_at_token elided linenum line token pos =
    if contains token (text "{};")
    then answer false
    else if contains token (text ">=[].")
    then answer true
    else if not (token == b'<')
    then (if leb (length line) (pos + 1) then at (linenum + 1) 0 else at linenum (pos + 1))
    else elim (close_expression elided linenum (pos - 1)) [
      | none ↦ answer false
      | some c ↦ elim c.pos [ none ↦ answer false | some end_pos ↦ at c.linenum end_pos ]
    ]

-- the first character of a text that has one
abbrev first : Text → ℕ
first [] = 0
first (c ∷ s) = c

look : List Text → ℕ → ℕ → Text → Look
unfolding match group_or look_at_token
look elided linenum pos line = elim (match next_token (drop pos line)) [
  | none ↦ at (linenum + 1) 0
  | some m ↦ look_at_token elided linenum line (first (group_or 1 m)) (pos + length m.before)
]

in_template_from : ℕ → List Text → ℕ → ℕ → Bool
unfolding look
in_template_from zero elided linenum pos = false
in_template_from (suc fuel) elided linenum pos = elim (get_elem? elided linenum) [
  | none ↦ false
  | some line ↦ elim (look elided linenum pos line) [
    | answer b ↦ b
    | at linenum' pos' ↦ in_template_from fuel elided linenum' pos'
  ]
]

abbrev characters : List Text → ℕ
characters [] = 0
characters (line ∷ lines) = suc (length line) + characters lines

-- `InTemplateArgumentList`; a round moves on by a character or to another line, so a round for each
-- character and for each line is enough.
unfoldable pub in_template_argument_list : List Text → ℕ → ℕ → Bool
unfolding in_template_from
in_template_argument_list elided linenum pos =
    in_template_from (suc (characters elided)) elided linenum pos
