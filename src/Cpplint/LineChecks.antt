-- ===== src/Cpplint/LineChecks.antt =====
-- Checks of build_support/cpplint.py that look at one line, or at a file as a list of lines.
pub mod Blank
use cmu.Base.{
  ℕ, zero, suc, ◌+◌, ◌-◌, ◌%◌, Bool, true, false, not, ◌&&◌, ◌||◌, Option, none, some, List, [],
  ◌∷◌, ◌++◌, ltb, ◌==◌, if◌then◌else◌, length, get_elem?, take, drop, String, Text, text, text_eq,
}
use cmu.PyText.{is_space, contains, find, replace, count, lower}
use cmu.Regex.{
  Re, one, star, group, bol, eol, word_edge, cat, alt, lit, any_of, none_of, dot, plus, space,
  spaces, word, non_space, any_word, seq, match, matches, finds, group_or,
}
use cmu.Cpplint.Report.{Report, report}

any_finds : Re → List Text → Bool
unfolding finds
any_finds r [] = false
any_finds r (line ∷ lines) = finds r line || any_finds r lines

lower_all : List Text → List Text
unfolding lower
lower_all [] = []
lower_all (line ∷ lines) = lower line ∷ lower_all lines

-- `CheckForCopyright`; the search is without regard to case
unfoldable pub check_for_copyright : Text → List Text → List Report
unfolding any_finds lower_all
check_for_copyright filename lines =
    let top = take 10 (drop 1 lines) in
    if any_finds (lit "copyright") (lower_all top)
    then []
    else report filename 0 "legal/copyright" 5 (
        text
          "No copyright message found.  You should have a line: \"Copyright [year] <Copyright Owner>\"")
      ∷ []

-- ^( *)\S
abbrev indent : Re
indent = seq (bol ∷ group 1 (star (lit " ")) ∷ non_space ∷ [])

-- `GetIndentLevel`
unfoldable pub get_indent_level : Text → ℕ
unfolding match group_or
get_indent_level line = elim (match indent line) [ none ↦ 0 | some m ↦ length (group_or 1 m) ]

check_bad_from : Text → ℕ → List Text → List Report
unfolding contains
check_bad_from filename linenum [] = []
check_bad_from filename linenum (line ∷ lines) =
    (if contains 65533 line
      then report filename linenum "readability/utf8" 5
          (text "Line contains invalid UTF-8 (or Unicode replacement character).")
        ∷ []
      else [])
    ++ ((if contains 0 line
          then report filename linenum "readability/nul" 5 (text "Line contains NUL byte.") ∷ []
          else [])
        ++ check_bad_from filename (linenum + 1) lines)

-- `CheckForBadCharacters`
unfoldable pub check_for_bad_characters : Text → List Text → List Report
unfolding check_bad_from
check_for_bad_characters filename lines = check_bad_from filename 0 lines

-- `lines[-2]`, of a list of two lines or more
abbrev last_but_one : List Text → Text
last_but_one [] = []
last_but_one (x ∷ []) = []
last_but_one (x ∷ y ∷ []) = x
last_but_one (x ∷ y ∷ z ∷ ls) = last_but_one (y ∷ z ∷ ls)

-- `CheckForNewlineAtEOF`. The line number `len(lines) - 2` is negative for a list of less than two
-- lines, which a file never makes; it is 0 here.
unfoldable pub check_for_newline_at_eof : Text → List Text → List Report
unfolding text_eq
check_for_newline_at_eof filename lines =
    if ltb (length lines) 3 || not (text_eq (last_but_one lines) [])
    then report filename (length lines - 2) "whitespace/ending_newline" 5
        (text "Could not find a newline character at the end of the file.")
      ∷ []
    else []

-- `CheckForMultilineCommentsAndStrings` of a line of `elided`. The source takes the lowest bit of the
-- difference of the two counts of quotes, which is that of their sum.
unfoldable pub check_for_multiline_comments_and_strings : Text → Text → ℕ → List Report
unfolding replace count
check_for_multiline_comments_and_strings filename elided linenum =
    let line = replace (text "\\\\") [] elided in
    (if ltb (count (text "*/") line) (count (text "/*") line)
      then report filename linenum "readability/multiline_comment" 5 (
          text
            "Complex multi-line /*...*/-style comment found. Lint may give bogus warnings.  Consider replacing these with //-style comments, with #if 0...#endif, or with more clearly structured multi-line comments.")
        ∷ []
      else [])
    ++ (if (count (text "\"") line + count (text "\\\"") line) % 2 == 1
        then report filename linenum "readability/multiline_string" 5 (
            text
              "Multi-line string (\"...\") found.  This lint script doesn't do well with such strings, and may give bogus warnings.  Use C++11 raw strings or concatenation instead.")
          ∷ []
        else [])

-- (?:[-+*/=%^&|(<]\s*|>\s+)
abbrev unsafe_func_prefix : Re
unsafe_func_prefix = alt (cat (any_of "-+*/=%^&|(<") spaces) (cat (lit ">") (plus space))

-- A row of `_THREADING_LIST`: the function, whether its pattern has arguments, `\([^)]+\)`, or none,
-- `\(\)`. The alternative is the name with `_r`.
abbrev threading_list : List (String × Bool)
threading_list =
    ("asctime", true)
    ∷ ("ctime", true)
    ∷ ("getgrgid", true)
    ∷ ("getgrnam", true)
    ∷ ("getlogin", false)
    ∷ ("getpwnam", true)
    ∷ ("getpwuid", true)
    ∷ ("gmtime", true)
    ∷ ("localtime", true)
    ∷ ("rand", false)
    ∷ ("strtok", true)
    ∷ ("ttyname", true)
    ∷ []

threading_pattern : String × Bool → Re
threading_pattern (name, true) =
    seq (unsafe_func_prefix ∷ lit name ∷ lit "(" ∷ plus (none_of ")") ∷ lit ")" ∷ [])
threading_pattern (name, false) = seq (unsafe_func_prefix ∷ lit name ∷ lit "()" ∷ [])

check_threading : Text → Text → ℕ → List (String × Bool) → List Report
unfolding finds threading_pattern
check_threading filename line linenum [] = []
check_threading filename line linenum (row ∷ rows) =
    (if finds (threading_pattern row) line
      then report filename linenum "runtime/threadsafe_fn" 2 (
          text "Consider using "
          ++ (text row.0
              ++ (text "_r(...) instead of "
                  ++ (text row.0 ++ text "(...) for improved thread safety."))))
        ∷ []
      else [])
    ++ check_threading filename line linenum rows

-- `CheckPosixThreading` of a line of `elided`
unfoldable pub check_posix_threading : Text → Text → ℕ → List Report
unfolding check_threading
check_posix_threading filename line linenum = check_threading filename line linenum threading_list

-- \bVLOG\((INFO|ERROR|WARNING|DFATAL|FATAL)\)
abbrev vlog_level : Re
vlog_level = seq (
    word_edge
    ∷ lit "VLOG("
    ∷ any_word ("INFO" ∷ "ERROR" ∷ "WARNING" ∷ "DFATAL" ∷ "FATAL" ∷ [])
    ∷ lit ")"
    ∷ [])

-- `CheckVlogArguments` of a line of `elided`
unfoldable pub check_vlog_arguments : Text → Text → ℕ → List Report
unfolding finds
check_vlog_arguments filename line linenum =
    if finds vlog_level line
    then report filename linenum "runtime/vlog" 5 (
        text
          "VLOG() should be used with numeric verbosity level.  Use LOG() if you want symbolic severity levels.")
      ∷ []
    else []

-- ^\s*\*\w+(\+\+|--);
abbrev invalid_increment : Re
invalid_increment =
    seq (bol ∷ spaces ∷ lit "*" ∷ plus word ∷ alt (lit "++") (lit "--") ∷ lit ";" ∷ [])

-- `CheckInvalidIncrement` of a line of `elided`
unfoldable pub check_invalid_increment : Text → Text → ℕ → List Report
unfolding matches
check_invalid_increment filename line linenum =
    if matches invalid_increment line
    then report filename linenum "runtime/invalid_increment" 5
        (text "Changing pointer instead of value (or unused value of operator*).")
      ∷ []
    else []

-- `not line or line.isspace()` of `IsBlankLine`
unfoldable pub is_blank_line : Text → Bool
unfolding is_space
is_blank_line [] = true
is_blank_line (c ∷ line) = is_space c && is_blank_line line

-- `GetPreviousNonBlankLine`, where the empty text and -1 are `none`
unfoldable pub get_previous_non_blank_line : List Text → ℕ → Option (Text × ℕ)
unfolding is_blank_line
get_previous_non_blank_line elided zero = none
get_previous_non_blank_line elided (suc linenum) =
    let before = get_previous_non_blank_line elided linenum in
    elim (get_elem? elided linenum) [
      | none ↦ before
      | some line ↦ if not (is_blank_line line) then some (line, linenum) else before
    ]
