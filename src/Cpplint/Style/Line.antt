-- ===== src/Cpplint/Style/Line.antt =====
-- `CheckStyle` of build_support/cpplint.py, with the checks that it calls.
use cmu.Base.{
  ℕ, zero, suc, Bool, true, false, not, ◌&&◌, ◌||◌, none, some, List, [], ◌∷◌, ◌++◌, map, leb, ltb,
  ◌==◌, if◌then◌else◌, Text, text, text_eq,
}
use cmu.PyText.{is_space, contains, starts_with, find, count}
use cmu.Regex.{
  Re, star, bol, eol, opt, lit, any_of, none_of, one, any_word, dot, plus, spaces, word, non_space,
  seq, matches, finds,
}
use cmu.Cpplint.Report.{Report, report_if, decimal, Action, call}
use cmu.Cpplint.Cleansed.{CleansedLines}
use cmu.Cpplint.Blocks.{line_at}
use cmu.Cpplint.Nesting.{NestingState, innermost_class}
use cmu.Cpplint.Headers.{Extensions, is_header_extension}
use cmu.Cpplint.HeaderGuard.{get_header_guard_cpp_variable}
use cmu.Cpplint.Style.Calls.{
  check_spacing_for_function_call, check_parenthesis_spacing, check_comma_spacing,
}
use cmu.Cpplint.Style.Scopes.{check_section_spacing}
use cmu.Cpplint.Style.AltTokens.{check_alt_tokens}
use cmu.Cpplint.Style.Blank.{check_spacing}
use cmu.Cpplint.Style.Operators.{check_operator_spacing}
use cmu.Cpplint.Style.BraceSpacing.{check_braces_spacing}
use cmu.Cpplint.Style.CheckMacros.{check_check}
use cmu.Cpplint.Style.TrailingSemicolon.{check_trailing_semicolon}
use cmu.Cpplint.Style.Braces.{previous_line, check_braces}
use cmu.Cpplint.Style.EmptyBlock.{check_empty_block_body}

holds : Text → Text → Bool
unfolding find
holds part whole = elim (find part whole) [ none ↦ false | some i ↦ true ]

-- \s*\w+\s*:\s*\\?$ and [",=><] *$ and ^\s*""
abbrev scope_or_label_pattern : Re
scope_or_label_pattern =
    seq (spaces ∷ plus word ∷ spaces ∷ lit ":" ∷ spaces ∷ opt (lit "\\") ∷ eol ∷ [])

abbrev continued : Re
continued = seq (any_of "\",=><" ∷ star (lit " ") ∷ eol ∷ [])

abbrev empty_string : Re
empty_string = seq (bol ∷ spaces ∷ lit "\"\"" ∷ [])

-- `initial_spaces`
initial_spaces : Text → ℕ
initial_spaces [] = 0
initial_spaces (c ∷ line) = let more = initial_spaces line in if c == b' ' then suc more else 0

-- the checks of the white space at the start of a line, where the line before is given
check_indent : Text → CleansedLines → ℕ → Text → Text → List Report
unfolding finds matches initial_spaces text_eq
check_indent filename clean_lines linenum prev line =
    report_if
      (not (finds continued prev)
        && ((initial_spaces line == 1 || initial_spaces line == 3)
            && (not (matches scope_or_label_pattern (line_at clean_lines.elided linenum))
                && not (
                    not (text_eq (line_at clean_lines.raw_lines linenum) line)
                    && matches empty_string line))))
      filename linenum "whitespace/indent" 3
      (text "Weird number of spaces at line-start.  Are you using a 2-space indent?")

-- `line and line[-1].isspace()`
ends_in_space : Text → Bool
unfolding is_space
ends_in_space [] = false
ends_in_space (c ∷ []) = is_space c
ends_in_space (c ∷ d ∷ line) = ends_in_space (d ∷ line)

-- ^\s*//.*http(s?)://\S*$ and ^\s*//\s*[^\s]*$
abbrev url : Re
url = seq (
    bol
    ∷ spaces
    ∷ lit "//"
    ∷ star dot
    ∷ lit "http"
    ∷ opt (lit "s")
    ∷ lit "://"
    ∷ star non_space
    ∷ eol
    ∷ [])

abbrev one_word_comment : Re
one_word_comment = seq (bol ∷ spaces ∷ lit "//" ∷ spaces ∷ star non_space ∷ eol ∷ [])

-- ^// \$Id:.*#[0-9]+ \$$ and ^\s*/// [@\\](copydoc|copydetails|copybrief) .*$
abbrev id_comment : Re
id_comment = seq (
    bol
    ∷ lit "// $Id:"
    ∷ star dot
    ∷ lit "#"
    ∷ plus (one (λ c. leb b'0' c && leb c b'9'))
    ∷ lit " $"
    ∷ eol
    ∷ [])

abbrev copied_comment : Re
copied_comment = seq (
    bol
    ∷ spaces
    ∷ lit "/// "
    ∷ any_of "@\\"
    ∷ any_word ("copydoc" ∷ "copydetails" ∷ "copybrief" ∷ [])
    ∷ lit " "
    ∷ star dot
    ∷ eol
    ∷ [])

-- `is_header_guard`, where the extension is that of a header
guards : Text → Text → Bool
unfolding starts_with
guards cppvar line =
    starts_with (text "#ifndef " ++ cppvar) line
    || (starts_with (text "#define " ++ cppvar) line
        || starts_with (text "#endif  // " ++ cppvar) line)

-- whether a line that is no header guard may be long
may_be_long : Text → Bool
unfolding starts_with matches
may_be_long line =
    starts_with (text "#include") line
    || (matches url line
        || (matches one_word_comment line
            || (matches id_comment line || matches copied_comment line)))

-- ^[^{};]*\[[^\[\]]*\][^{}]*\{[^{}\n\r]*\}
abbrev lambda : Re
lambda = seq (
    bol
    ∷ star (none_of "{};")
    ∷ lit "["
    ∷ star (none_of "[]")
    ∷ lit "]"
    ∷ star (none_of "{}")
    ∷ lit "{"
    ∷ star (none_of "{}\n\r")
    ∷ lit "}"
    ∷ [])

-- the check for more than one command on a line
check_commands : Text → List Text → ℕ → Text → List Report
unfolding count matches holds previous_line
check_commands filename elided linenum line =
    let cleansed_line = line_at elided linenum in
    let previous = previous_line elided linenum in
    report_if
      (ltb 1 (count (text ";") cleansed_line)
        && (not (matches lambda line)
            && (not (holds (text "for") cleansed_line)
                && ((not (holds (text "for") previous) || holds (text ";") previous)
                    && not (
                        (holds (text "case ") cleansed_line
                          || holds (text "default:") cleansed_line)
                        && holds (text "break;") cleansed_line)))))
      filename linenum "whitespace/newline" 0 (text "More than one command on the same line")

-- the line before a number, and the empty text before the first
line_above : List Text → ℕ → Text
line_above lines zero = []
line_above lines (suc n) = line_at lines n

abbrev calls : List Report → List Action
calls reports = map call reports

-- `GetLineWidth` and `_line_length`, and what the variable of the header guard is made of
module _ (line_width : Text → ℕ) (line_length : ℕ) (e : Extensions)
    (repository_name full_name abspath : Text → Text) (root : Text) where
  -- the check of the length of a line
  check_length : Text → Text → ℕ → Text → List Report
  unfolding is_header_extension get_header_guard_cpp_variable guards may_be_long
  check_length filename file_extension linenum line =
      let is_header_guard =
        is_header_extension e file_extension
        && guards (get_header_guard_cpp_variable repository_name full_name abspath root filename)
            line in
      report_if (not (is_header_guard || may_be_long line) && ltb line_length (line_width line))
        filename linenum "whitespace/line_length" 2
        (text "Lines should be <= " ++ (decimal line_length ++ text " characters long"))

  -- the part of `CheckStyle` that calls no other check
  check_line : Text → CleansedLines → ℕ → Text → List Report
  unfolding contains check_indent line_above ends_in_space check_length check_commands
  check_line filename clean_lines linenum file_extension =
      let raw_lines = clean_lines.lines_without_raw_strings in
      let line = line_at raw_lines linenum in
      report_if (contains b'\t' line) filename linenum "whitespace/tab" 1
        (text "Tab found; better to use spaces")
      ++ (check_indent filename clean_lines linenum (line_above raw_lines linenum) line
          ++ (report_if (ends_in_space line) filename linenum "whitespace/end_of_line" 4
                (text "Line ends in whitespace.  Consider deleting these extra spaces.")
              ++ (check_length filename file_extension linenum line
                  ++ check_commands filename clean_lines.elided linenum line)))

  -- the checks behind that of trailing semicolons
  check_spaces : Text → CleansedLines → ℕ → NestingState → List Report
  unfolding check_empty_block_body check_spacing check_operator_spacing check_parenthesis_spacing
      check_comma_spacing check_braces_spacing check_spacing_for_function_call check_check
      check_alt_tokens check_section_spacing
  check_spaces filename clean_lines linenum nesting_state =
      let elided = clean_lines.elided in
      let line = line_at elided linenum in
      check_empty_block_body filename clean_lines linenum
      ++ (check_spacing filename clean_lines linenum nesting_state
          ++ (check_operator_spacing filename elided linenum line
              ++ (check_parenthesis_spacing filename linenum line
                  ++ (check_comma_spacing filename linenum line
                        (line_at clean_lines.lines_without_raw_strings linenum)
                      ++ (check_braces_spacing filename elided linenum line nesting_state.stack
                          ++ (check_spacing_for_function_call filename linenum line
                              ++ (check_check filename elided linenum
                                  ++ (check_alt_tokens filename linenum line
                                      ++ elim (innermost_class nesting_state.stack) [
                                        | none ↦ []
                                        | some (b, c) ↦
                                            check_section_spacing filename clean_lines.lines b c
                                              linenum
                                      ]))))))))

  -- `CheckStyle`, of a line that is there
  unfoldable pub check_style : Text → CleansedLines → ℕ → Text → NestingState → List Action
  unfolding check_line check_braces check_trailing_semicolon check_spaces
  check_style filename clean_lines linenum file_extension nesting_state =
      calls (check_line filename clean_lines linenum file_extension)
      ++ (calls (
            check_braces line_width line_length filename clean_lines.elided linenum
              (line_at clean_lines.elided linenum))
          ++ (check_trailing_semicolon filename clean_lines linenum
              ++ calls (check_spaces filename clean_lines linenum nesting_state)))
