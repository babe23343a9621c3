-- ===== src/Cpplint/Comments.antt =====
-- The removal of comments in build_support/cpplint.py: those over several lines, and those within
-- one line.
pub mod Multi
pub mod Walk
pub mod Search
pub mod Loop
pub mod Remove
mod Tests
use cmu.Base.{
  ℕ, zero, suc, ◌+◌, ◌-◌, ◌%◌, Bool, true, false, not, ◌&&◌, ◌||◌, Option, none, some, List, [],
  ◌∷◌, ◌++◌, ltb, leb, ◌==◌, if◌then◌else◌, length, get_elem?, set, take, drop, Text, text,
}
use cmu.PyText.{starts_with, ends_with, find, strip, rstrip, replace, count}
use cmu.Regex.{
  Re, cat, alt, star, group, ahead, not_ahead, one, is_word, eol, lit, any_of, none_of, plus, space,
  spaces, seq, sub,
}
use cmu.Cpplint.Report.{Report, report}

-- `s.find('*/', 2)` is not -1
abbrev ends_after_two : Text → Bool
ends_after_two s = elim (find (text "*/") (drop 2 s)) [ some _ ↦ true | none ↦ false ]

-- the two tests on a line of `FindNextMultiLineCommentStart`
pub opens_comment : Text → Bool
unfolding strip starts_with find
opens_comment line = starts_with (text "/*") (strip line) && not (ends_after_two (strip line))

-- the test of `FindNextMultiLineCommentEnd`
pub closes_comment : Text → Bool
unfolding strip ends_with
closes_comment line = ends_with (text "*/") (strip line)

-- The loops that look for the first line from `lineix` on; the number bounds the rounds.
pub find_line : (Text → Bool) → ℕ → List Text → ℕ → ℕ
find_line test zero lines lineix = length lines
find_line test (suc fuel) lines lineix =
    let rest = find_line test fuel lines (lineix + 1) in
    elim (get_elem? lines lineix) [
      | none ↦ length lines
      | some line ↦ if test line then lineix else rest
    ]

-- `FindNextMultiLineCommentStart`; one round for each line is enough
unfoldable pub find_next_multi_line_comment_start : List Text → ℕ → ℕ
unfolding find_line
find_next_multi_line_comment_start lines lineix =
    find_line opens_comment (length lines) lines lineix

-- `FindNextMultiLineCommentEnd`
unfoldable pub find_next_multi_line_comment_end : List Text → ℕ → ℕ
unfolding find_line
find_next_multi_line_comment_end lines lineix = find_line closes_comment (length lines) lines lineix

-- `RemoveMultiLineCommentsFromRange`, with `end - begin` rounds
pub clear_from : ℕ → ℕ → List Text → List Text
clear_from zero begin lines = lines
clear_from (suc n) begin lines = clear_from n (begin + 1) (set lines begin (text "/**/"))

unfoldable pub remove_multi_line_comments_from_range : List Text → ℕ → ℕ → List Text
unfolding clear_from
remove_multi_line_comments_from_range lines begin end = clear_from (end - begin) begin lines

-- the loop of `RemoveMultiLineComments`
pub remove_loop : ℕ → Text → List Text → ℕ → List Text × List Report
unfolding find_next_multi_line_comment_start find_next_multi_line_comment_end
    remove_multi_line_comments_from_range
remove_loop zero filename lines lineix = (lines, [])
remove_loop (suc fuel) filename lines lineix =
    let start = find_next_multi_line_comment_start lines lineix in
    let stop = find_next_multi_line_comment_end lines start in
    let rest =
      remove_loop fuel filename (remove_multi_line_comments_from_range lines start (stop + 1))
        (stop + 1) in
    if not (ltb lineix (length lines))
    then (lines, [])
    else if leb (length lines) start
    then (lines, [])
    else if leb (length lines) stop
    then (
      lines,
      report filename (start + 1) "readability/multiline_comment" 5
            (text "Could not find end of multi-line comment")
          ∷ [],
    )
    else rest

-- `RemoveMultiLineComments`: the lines that are left in the list, and the calls of `error`
unfoldable pub remove_multi_line_comments : Text → List Text → List Text × List Report
unfolding remove_loop
remove_multi_line_comments filename lines = remove_loop (length lines) filename lines 0

-- `IsCppString`. The source subtracts the three counts and asks for the lowest bit, which is that
-- of their sum, also where the difference is negative.
unfoldable pub is_cpp_string : Text → Bool
unfolding replace count
is_cpp_string line =
    let l = replace (text "\\\\") (text "XX") line in
    (count (text "\"") l + count (text "\\\"") l + count (text "'\"'") l) % 2 == 1

-- /\*(?:[^*]|\*(?!/))*\*/
abbrev c_comment : Re
c_comment =
    seq (lit "/*" ∷ star (alt (none_of "*") (cat (lit "*") (not_ahead (lit "/")))) ∷ lit "*/" ∷ [])

-- \W
abbrev non_word : Re
non_word = one (λ c. not (is_word c))

-- _RE_PATTERN_CLEANSE_LINE_C_COMMENTS
abbrev cleanse_line_c_comments : Re
cleanse_line_c_comments = group 1 (
    alt (seq (spaces ∷ c_comment ∷ spaces ∷ eol ∷ [])) (
      alt (seq (c_comment ∷ plus space ∷ []))
        (alt (seq (plus space ∷ c_comment ∷ ahead non_word ∷ [])) c_comment)))

-- the line up to a `//` comment, if there is one outside a string
unfoldable pub cut_line_comment : Text → Text
unfolding find rstrip is_cpp_string
cut_line_comment line = elim (find (text "//") line) [
  | none ↦ line
  | some pos ↦ if not (is_cpp_string (take pos line)) then rstrip (take pos line) else line
]

-- `CleanseComments`
unfoldable pub cleanse_comments : Text → Text
unfolding cut_line_comment sub
cleanse_comments line = sub cleanse_line_c_comments [] (cut_line_comment line)
