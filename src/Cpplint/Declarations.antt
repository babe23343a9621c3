-- ===== src/Cpplint/Declarations.antt =====
-- What build_support/cpplint.py takes a line to declare: a macro, a forward declaration of a class, a
-- method that overrides or that is defined out of line; and the headers of C++14.
use cmu.Base.{
  ℕ, zero, suc, Bool, false, ◌||◌, Option, none, some, List, [], ◌∷◌, ◌++◌, if◌then◌else◌, length,
  get_elem?, drop, Text, text,
}
use cmu.PyText.{member}
use cmu.Regex.{
  Re, star, group, bol, eol, word_edge, lit, any_of, none_of, dot, plus, space, spaces, word, seq,
  match, matches, finds, group_or,
}
use cmu.Cpplint.Report.{Report, report}
use cmu.Cpplint.Expression.{Closing, close_expression}

-- \\$
abbrev continued : Re
continued = seq (lit "\\" ∷ eol ∷ [])

-- Whether a line of a list is there and matches; for a line that is not there the source raises an
-- IndexError.
line_finds : Re → List Text → ℕ → Bool
unfolding finds
line_finds r lines linenum = elim (get_elem? lines linenum) [
  | none ↦ false
  | some line ↦ finds r line
]

-- `IsMacroDefinition`, for a line that is there
unfoldable pub is_macro_definition : List Text → ℕ → Bool
unfolding line_finds
is_macro_definition lines zero = line_finds (seq (bol ∷ lit "#define" ∷ [])) lines zero
is_macro_definition lines (suc linenum) =
    line_finds (seq (bol ∷ lit "#define" ∷ [])) lines (suc linenum)
    || line_finds continued lines linenum

-- ^\s*(\btemplate\b)*.*class\s+\w+;\s*$
abbrev forward_class : Re
forward_class = seq (
    bol
    ∷ spaces
    ∷ star (seq (word_edge ∷ lit "template" ∷ word_edge ∷ []))
    ∷ star dot
    ∷ lit "class"
    ∷ plus space
    ∷ plus word
    ∷ lit ";"
    ∷ spaces
    ∷ eol
    ∷ [])

-- `IsForwardClassDeclaration`, of the line at hand
unfoldable pub is_forward_class_declaration : Text → Bool
unfolding matches
is_forward_class_declaration line = matches forward_class line

-- ^([^()]*\w+)\(
abbrev call_head : Re
call_head = seq (bol ∷ group 1 (seq (star (none_of "()") ∷ plus word ∷ [])) ∷ lit "(" ∷ [])

-- `closing_paren >= 0 and Search(r'\boverride\b', line[closing_paren:])`
overrides : Option Closing → Bool
unfolding finds
overrides none = false
overrides (some c) = elim c.pos [
  | none ↦ false
  | some p ↦ finds (seq (word_edge ∷ lit "override" ∷ word_edge ∷ [])) (drop p c.line)
]

-- the loops that look back over a number of lines, with what is asked of the first line that has the
-- head of a function, its number and the match of the head
scan_back : (ℕ → Text → Text → Bool) → List Text → ℕ → ℕ → Bool
unfolding match group_or
scan_back ask elided zero i = false
scan_back ask elided (suc fuel) zero = elim (get_elem? elided zero) [
  | none ↦ false
  | some line ↦ elim (match call_head line) [ none ↦ false | some m ↦ ask zero line (group_or 1 m) ]
]
scan_back ask elided (suc fuel) (suc i) = elim (get_elem? elided (suc i)) [
  | none ↦ false
  | some line ↦ elim (match call_head line) [
    | none ↦ scan_back ask elided fuel i
    | some m ↦ ask (suc i) line (group_or 1 m)
  ]
]

-- `IsDerivedFunction`
unfoldable pub is_derived_function : List Text → ℕ → Bool
unfolding scan_back overrides
is_derived_function elided linenum =
    scan_back (λ i line head. overrides (close_expression elided i (length head))) elided 10 linenum

-- ^[^()]*\w+::\w+\(
abbrev method_head : Re
method_head = seq (bol ∷ star (none_of "()") ∷ plus word ∷ lit "::" ∷ plus word ∷ lit "(" ∷ [])

-- `IsOutOfLineMethodDefinition`
unfoldable pub is_out_of_line_method_definition : List Text → ℕ → Bool
unfolding scan_back matches
is_out_of_line_method_definition elided linenum =
    scan_back (λ i line head. matches method_head line) elided 10 linenum

-- \s*#\s*include\s+[<"]([^<"]+)[">]
abbrev include_name : Re
include_name = seq (
    spaces
    ∷ lit "#"
    ∷ spaces
    ∷ lit "include"
    ∷ plus space
    ∷ any_of "<\""
    ∷ group 1 (plus (none_of "<\""))
    ∷ any_of "\">"
    ∷ [])

-- `FlagCxx14Features` of a line of `elided`
unfoldable pub flag_cxx14_features : Text → Text → ℕ → List Report
unfolding match group_or member
flag_cxx14_features filename line linenum = elim (match include_name line) [
  | none ↦ []
  | some m ↦
      if member (group_or 1 m) (text "scoped_allocator" ∷ text "shared_mutex" ∷ [])
      then report filename linenum "build/c++14" 5
          (b'<' ∷ (group_or 1 m ++ text "> is an unapproved C++14 header."))
        ∷ []
      else []
]
