-- ===== src/Cpplint/Style/BraceSpacing.antt =====
-- `_IsType`, `CheckBracesSpacing` and `IsDecltype` of build_support/cpplint.py.
use cmu.Base.{
  ℕ, zero, suc, ◌+◌, ◌-◌, Bool, false, not, ◌&&◌, ◌||◌, Option, none, some, List, [], ◌∷◌, ◌++◌,
  ◌==◌, if◌then◌else◌, length, take, drop, Text, text,
}
use cmu.PyText.{is_space, contains, find}
use cmu.Regex.{
  Re, one, star, group, bol, eol, word_edge, alt, cat, chars, lit, none_of, any_word, dot, opt,
  plus, space, spaces, non_space, seq, match, matches, finds, group_or,
}
use cmu.Cpplint.Report.{Report, report, report_if}
use cmu.Cpplint.Expression.{Closing, close_expression}
use cmu.Cpplint.Reverse.{reverse_close_expression}
use cmu.Cpplint.Blocks.{line_at}
use cmu.Cpplint.Nesting.{Blocks, is_namespace}

-- ^.*(\b\S+)$
abbrev last_word : Re
last_word = seq (bol ∷ star dot ∷ group 1 (cat word_edge (plus non_space)) ∷ eol ∷ [])

-- `_TYPES`, whose last alternative is empty
abbrev types : Re
types = seq (
    bol
    ∷ alt (cat (lit "char") (opt (any_word ("16_t" ∷ "32_t" ∷ [])))) (
        alt
          (any_word (
            "wchar_t" ∷ "bool" ∷ "short" ∷ "int" ∷ "long" ∷ "signed" ∷ "unsigned" ∷ "float"
            ∷ "double" ∷ "ptrdiff_t" ∷ "size_t" ∷ "max_align_t" ∷ "nullptr_t" ∷ []))
          (alt
            (seq (
              opt (lit "u")
              ∷ lit "int"
              ∷ opt (any_word ("_fast" ∷ "_least" ∷ []))
              ∷ any_word ("8" ∷ "16" ∷ "32" ∷ "64" ∷ [])
              ∷ lit "_t"
              ∷ []))
            (opt
              (seq (opt (lit "u") ∷ lit "int" ∷ any_word ("max" ∷ "ptr" ∷ []) ∷ lit "_t" ∷ [])))))
    ∷ eol
    ∷ [])

-- \b(?:typename|class|struct)\s+…\b
abbrev typename_pattern : Text → Re
typename_pattern token = seq (
    word_edge
    ∷ any_word ("typename" ∷ "class" ∷ "struct" ∷ [])
    ∷ plus space
    ∷ chars token
    ∷ word_edge
    ∷ [])

-- the line with `template` that is the last among so many, from a line back
template_line : List Text → ℕ → ℕ → Option ℕ
unfolding find
template_line elided line zero = none
template_line elided line (suc count) = elim (find (text "template") (line_at elided line)) [
  | some i ↦ some line
  | none ↦ template_line elided (line - 1) count
]

any_finds : Re → List Text → Bool
unfolding finds
any_finds r [] = false
any_finds r (line ∷ lines) = finds r line || any_finds r lines

-- the line where the block below the top starts, and 0 if there is none
abbrev next_block_start : Blocks → ℕ
next_block_start [] = 0
next_block_start (b ∷ stack) = b.starting_linenum

-- the loop over the blocks, from the innermost on
is_template_type : List Text → Text → Blocks → Bool
unfolding template_line any_finds
is_template_type elided token [] = false
is_template_type elided token (b ∷ stack) =
    let outside = is_template_type elided token stack in
    let last_line = b.starting_linenum in
    if is_namespace b
    then false
    else elim (template_line elided last_line (last_line + 1 - next_block_start stack)) [
      | none ↦ outside
      | some first_line ↦
          any_finds (typename_pattern token)
            (take (last_line + 1 - first_line) (drop first_line elided))
          || outside
    ]

-- `_IsType`
unfoldable pub is_type : List Text → Blocks → Text → Bool
unfolding match matches group_or is_template_type
is_type elided stack expr =
    let token : Text = elim (match last_word expr) [ none ↦ expr | some m ↦ group_or 1 m ] in
    matches types token || is_template_type elided token stack

-- ^(.*[^ ({>]){ and ^[\s}]*[{.;,)<>\]:]
abbrev tight_brace : Re
tight_brace = seq (bol ∷ group 1 (cat (star dot) (none_of " ({>")) ∷ lit "{" ∷ [])

abbrev goes_on : Re
goes_on = seq (
    bol ∷ star (one (λ c. c == b'}' || is_space c)) ∷ one (λ c. contains c (text "{.;,)<>]:")) ∷ [])

concat : List Text → Text
concat [] = []
concat (line ∷ lines) = line ++ concat lines

-- the text behind a closing brace, with the next two lines, but not the last of the file
trailing_text : List Text → Option Closing → Text
unfolding concat
trailing_text elided none = []
trailing_text elided (some c) =
    elim c.pos [ none ↦ [] | some endpos ↦ drop endpos c.line ]
    ++ concat (take 2 (drop (c.linenum + 1) (take (length elided - 1) elided)))

-- :\s*;\s*$ and ^\s*;\s*$ and \s+;\s*$
abbrev semicolon_at_end : List Re → Re
semicolon_at_end start = seq (start ++ lit ";" ∷ spaces ∷ eol ∷ [])

-- the checks of semicolons at the end of a line
check_semicolon : Text → ℕ → Text → List Report
unfolding finds
check_semicolon filename linenum line =
    if finds (semicolon_at_end (lit ":" ∷ spaces ∷ [])) line
    then report filename linenum "whitespace/semicolon" 5
        (text "Semicolon defining empty statement. Use {} instead.")
      ∷ []
    else if finds (semicolon_at_end (bol ∷ spaces ∷ [])) line
    then report filename linenum "whitespace/semicolon" 5
        (text "Line contains only semicolon. If this should be an empty statement, use {} instead.")
      ∷ []
    else report_if
        (finds (semicolon_at_end (plus space ∷ [])) line
          && not (finds (seq (word_edge ∷ lit "for" ∷ word_edge ∷ [])) line))
        filename linenum "whitespace/semicolon" 5
        (text
          "Extra space before last semicolon. If this should be an empty statement, use {} instead.")

-- `CheckBracesSpacing`, of a line of the elided ones
unfoldable pub check_braces_spacing : Text → List Text → ℕ → Text → Blocks → List Report
unfolding match matches finds group_or close_expression trailing_text is_type check_semicolon
check_braces_spacing filename elided linenum line stack =
    elim (match tight_brace line) [
      | none ↦ []
      | some m ↦
          report_if
            (not (
                matches goes_on
                  (trailing_text elided (close_expression elided linenum (length (group_or 1 m)))))
              && not (is_type elided stack (group_or 1 m)))
            filename linenum "whitespace/braces" 5 (text "Missing space before {")
    ]
    ++ (report_if (finds (lit "}else") line) filename linenum "whitespace/braces" 5
          (text "Missing space before else")
        ++ check_semicolon filename linenum line)

-- \bdecltype\s*$
abbrev decltype_end : Re
decltype_end = seq (word_edge ∷ lit "decltype" ∷ spaces ∷ eol ∷ [])

-- `IsDecltype`; `none` is the IndexError of a column that is not there
unfoldable pub is_decltype : List Text → ℕ → ℕ → Option Bool
unfolding reverse_close_expression finds
is_decltype elided linenum column = elim (reverse_close_expression elided linenum column) [
  | none ↦ none
  | some c ↦ elim c.pos [
    | none ↦ some false
    | some start_col ↦ some (finds decltype_end (take start_col c.line))
  ]
]
