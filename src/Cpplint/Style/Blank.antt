-- ===== src/Cpplint/Style/Blank.antt =====
-- `CheckSpacing` of build_support/cpplint.py: blank lines, comments, brackets and loops over ranges.
use cmu.Base.{
  ℕ, zero, suc, ◌+◌, ◌-◌, Bool, true, false, not, ◌&&◌, ◌||◌, none, some, List, [], ◌∷◌, ◌++◌, ltb,
  ◌==◌, if◌then◌else◌, length, take, Text, text, text_eq,
}
use cmu.PyText.{find, lstrip}
use cmu.Regex.{
  Re, star, eol, alt, cat, lit, none_of, any_word, dot, opt, plus, space, spaces, word, seq, match,
  matches, finds, group_or,
}
use cmu.Cpplint.Report.{Report, report, report_if}
use cmu.Cpplint.Cleansed.{CleansedLines}
use cmu.Cpplint.Include.{line_before}
use cmu.Cpplint.LineChecks.{is_blank_line}
use cmu.Cpplint.Blocks.{line_at}
use cmu.Cpplint.Nesting.{NestingState, in_namespace_body, in_extern_c}
use cmu.Cpplint.Style.Scopes.{section_label}
use cmu.Cpplint.Style.CommentText.{check_comment}

-- whether the last brace of a text is `{`, where the flag is whether the last one before it is
open_at_end : Bool → Text → Bool
open_at_end seen [] = seen
open_at_end seen (c ∷ line) =
    open_at_end (if c == b'{' then true else if c == b'}' then false else seen) line

-- \s{6}\w with spaces
abbrev six_spaces : Re
six_spaces = cat (lit "      ") word

-- whether the lines before a number that are indented by six spaces stand behind the start of an
-- initializer list
initializer_head : List Text → ℕ → Bool
unfolding matches text_eq
initializer_head elided zero = false
initializer_head elided (suc n) = elim (matches six_spaces (line_at elided n)) [
  | true ↦ initializer_head elided n
  | false ↦ text_eq (take 5 (line_at elided n)) (text "    :")
]

-- four spaces, then \w[^\(]*\)\s*(const\s*)?(\{\s*$|:), or four spaces and :
abbrev function_head : Re
function_head = seq (
    lit "    "
    ∷ word
    ∷ star (none_of "(")
    ∷ lit ")"
    ∷ spaces
    ∷ opt (cat (lit "const") spaces)
    ∷ alt (seq (lit "{" ∷ spaces ∷ eol ∷ [])) (lit ":")
    ∷ [])

-- `exception`
is_exception : List Text → ℕ → Text → Bool
unfolding matches initializer_head
is_exception elided linenum prev_line =
    if matches six_spaces prev_line
    then initializer_head elided (linenum - 1)
    else matches function_head prev_line || matches (lit "    :") prev_line

-- \s*}
abbrev closes_block : Re
closes_block = cat spaces (lit "}")

no_else : Text → Bool
unfolding find
no_else line = elim (find (text "} else ") line) [ none ↦ true | some i ↦ false ]

-- `clean_lines.elided[linenum - 1]`, which for the first line is the last
previous : List Text → ℕ → Text
previous elided linenum = elim (line_before linenum elided) [ none ↦ [] | some line ↦ line ]

-- what is said of a blank line
check_blank : Text → CleansedLines → ℕ → List Report
unfolding previous open_at_end is_exception match matches no_else group_or
check_blank filename clean_lines linenum =
    let prev_line = previous clean_lines.elided linenum in
    let next_line = line_at clean_lines.lines_without_raw_strings (linenum + 1) in
    report_if
      (open_at_end false prev_line && not (is_exception clean_lines.elided linenum prev_line))
      filename linenum "whitespace/blank_line" 2
      (text "Redundant blank line at the start of a code block should be deleted.")
    ++ (report_if
          (ltb (linenum + 1) clean_lines.num_lines
            && (matches closes_block next_line && no_else next_line))
          filename linenum "whitespace/blank_line" 3
          (text "Redundant blank line at the end of a code block should be deleted.")
        ++ elim (match section_label prev_line) [
          | none ↦ []
          | some m ↦
              report filename linenum "whitespace/blank_line" 3
                (text "Do not leave a blank line after \"" ++ (group_or 1 m ++ text ":\""))
              ∷ []
        ])

-- the first column of the next line that is no white space
next_line_start : CleansedLines → ℕ → ℕ
unfolding lstrip
next_line_start clean_lines linenum =
    let next_line = line_at clean_lines.lines_without_raw_strings (linenum + 1) in
    if ltb (linenum + 1) clean_lines.num_lines
    then length next_line - length (lstrip next_line)
    else 0

-- \w\s+\[ and (?:auto&?|delete|return)\s+\[
abbrev space_before_bracket : Re
space_before_bracket = seq (word ∷ plus space ∷ lit "[" ∷ [])

abbrev allowed_bracket : Re
allowed_bracket =
    seq (any_word ("auto&" ∷ "auto" ∷ "delete" ∷ "return" ∷ []) ∷ plus space ∷ lit "[" ∷ [])

-- for *\(.*[^:]:[^: ] and for *\(.*[^: ]:[^:]
abbrev for_with : List Re → Re
for_with end = seq (lit "for" ∷ star (lit " ") ∷ lit "(" ∷ star dot ∷ end)

abbrev no_space_behind : Re
no_space_behind = for_with (none_of ":" ∷ lit ":" ∷ none_of ": " ∷ [])

abbrev no_space_before : Re
no_space_before = for_with (none_of ": " ∷ lit ":" ∷ none_of ":" ∷ [])

-- `CheckSpacing`, of a line that is there
unfoldable pub check_spacing : Text → CleansedLines → ℕ → NestingState → List Report
unfolding is_blank_line check_blank next_line_start check_comment finds
check_spacing filename clean_lines linenum nesting_state =
    let line = line_at clean_lines.lines_without_raw_strings linenum in
    let elided = line_at clean_lines.elided linenum in
    (if is_blank_line line
        && (not (in_namespace_body nesting_state) && not (in_extern_c nesting_state))
      then check_blank filename clean_lines linenum
      else [])
    ++ (check_comment line filename linenum (next_line_start clean_lines linenum)
        ++ (report_if (finds space_before_bracket elided && not (finds allowed_bracket elided))
              filename linenum "whitespace/braces" 5 (text "Extra space before [")
            ++ report_if (finds no_space_behind elided || finds no_space_before elided) filename
                linenum "whitespace/forcolon" 2
                (text "Missing space around colon in range-based for loop")))
