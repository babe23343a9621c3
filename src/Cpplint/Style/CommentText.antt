-- ===== src/Cpplint/Style/CommentText.antt =====
-- `CheckComment` of build_support/cpplint.py.
use cmu.Base.{
  ℕ, ◌-◌, ◌%◌, Bool, true, false, not, ◌&&◌, ◌||◌, Option, none, some, List, [], ◌∷◌, ◌++◌, leb,
  ltb, ◌==◌, if◌then◌else◌, length, get_elem?, take, drop, Text, text, text_eq,
}
use cmu.PyText.{contains, find, count}
use cmu.Regex.{
  Re, star, lazy, group, bol, eol, cat, alt, lit, none_of, dot, opt, plus, space, spaces, word, seq,
  match, matches, group?, group_or, sub,
}
use cmu.Cpplint.Report.{Report, report_if}

-- `string.whitespace`
abbrev whitespace : Text
whitespace = 32 ∷ 9 ∷ 10 ∷ 13 ∷ 11 ∷ 12 ∷ []

-- whether there is a character so many before a position, and it is no white space
code_before : Text → ℕ → ℕ → Bool
unfolding contains
code_before line pos n = elim (get_elem? line (pos - n)) [
  | none ↦ false
  | some c ↦ leb n pos && not (contains c whitespace)
]

-- ^.*{ *//
abbrev opens_scope : Re
opens_scope = seq (bol ∷ star dot ∷ lit "{" ∷ star (lit " ") ∷ lit "//" ∷ [])

-- _RE_PATTERN_TODO: ^//(\s*)TODO(\(.+?\))?:?(\s|$)?
abbrev todo : Re
todo = seq (
    bol
    ∷ lit "//"
    ∷ group 1 spaces
    ∷ lit "TODO"
    ∷ opt (group 2 (seq (lit "(" ∷ dot ∷ lazy dot ∷ lit ")" ∷ [])))
    ∷ opt (lit ":")
    ∷ opt (group 3 (alt space eol))
    ∷ [])

-- //[^ ]*\w and (///|//\!)(\s+|$)
abbrev text_at_once : Re
text_at_once = seq (lit "//" ∷ star (none_of " ") ∷ word ∷ [])

abbrev doxygen : Re
doxygen = cat (alt (lit "///") (lit "//!")) (alt (plus space) eol)

-- \\.
abbrev escape : Re
escape = cat (lit "\\") dot

-- what is said of a TODO: its spaces before, its user name and its spaces behind. The last may not take
-- part in the match, where the source compares `None` with a text, and that is an error too.
check_todo : Text → ℕ → Text → Text → Option Text → List Report
unfolding text_eq
check_todo filename linenum leading username middle =
    report_if (ltb 1 (length leading)) filename linenum "whitespace/todo" 2
      (text "Too many spaces before TODO")
    ++ (report_if (length username == 0) filename linenum "readability/todo" 2
          (text "Missing username in TODO; it should look like \"// TODO(my_username): Stuff.\"")
        ++ report_if
            (elim middle [
              | none ↦ true
              | some m ↦ not (text_eq m (text " ")) && not (text_eq m [])
            ])
            filename linenum "whitespace/todo" 2
            (text "TODO(my_username) should be followed by a space"))

-- what is said of a comment, from its slashes on
check_comment_text : Text → ℕ → Text → List Report
unfolding match matches group? group_or check_todo
check_comment_text filename linenum comment =
    elim (match todo comment) [
      | none ↦ []
      | some m ↦ check_todo filename linenum (group_or 1 m) (group_or 2 m) (group? 3 m)
    ]
    ++ report_if (matches text_at_once comment && not (matches doxygen comment)) filename linenum
        "whitespace/comments" 4 (text "Should have a space between // and comment")

-- `CheckComment`
unfoldable pub check_comment : Text → Text → ℕ → ℕ → List Report
unfolding find count sub matches code_before check_comment_text
check_comment line filename linenum next_line_start = elim (find (text "//") line) [
  | none ↦ []
  | some commentpos ↦
      if count (text "\"") (sub escape [] (take commentpos line)) % 2 == 0
      then report_if
          (not (matches opens_scope line && next_line_start == commentpos)
            && (code_before line commentpos 1 || code_before line commentpos 2))
          filename linenum "whitespace/comments" 2
          (text "At least two spaces is best between code and comments")
        ++ check_comment_text filename linenum (drop commentpos line)
      else []
]
