-- ===== src/Cpplint/Comments/Tests.antt =====
-- Runs of the removal of comments.
use cmu.Base.{◌≡◌, refl, List, [], ◌∷◌, length, Text, text}
use cmu.Cpplint.Report.{report}
use cmu.Cpplint.Comments.{
  opens_comment, closes_comment, remove_multi_line_comments, cleanse_comments,
}
use cmu.Cpplint.Comments.Remove.{
  NoneStartsComment, remove_multi_line_comments_lem, remove_multi_line_comments_idem,
}

abbrev commented : List Text
commented = text "int i;" ∷ text " /* a" ∷ text "b */ " ∷ text "/* c */" ∷ []

abbrev cleaned : List Text
cleaned = text "int i;" ∷ text "/**/" ∷ text "/**/" ∷ text "/* c */" ∷ []

remove_multi_line_comments_lem_example :
    (remove_multi_line_comments (text "a.cc") commented ≡ (cleaned, []))
    × (length (remove_multi_line_comments (text "a.cc") commented).0 ≡ 4)
unfolding opens_comment closes_comment
remove_multi_line_comments_lem_example = remove_multi_line_comments_lem (text "a.cc") commented

remove_multi_line_comments_idem_example :
    let left = (remove_multi_line_comments (text "a.cc") commented).0 in
    NoneStartsComment left × (remove_multi_line_comments (text "a.cc") left ≡ (left, []))
unfolding remove_multi_line_comments opens_comment closes_comment
remove_multi_line_comments_idem_example =
    remove_multi_line_comments_idem (text "a.cc") commented refl

-- A comment that starts behind other text is left as it is.
test_behind_text :
    remove_multi_line_comments (text "a.cc") (text "int x; /* a" ∷ text "b */" ∷ [])
    ≡ (text "int x; /* a" ∷ text "b */" ∷ [], [])
unfolding remove_multi_line_comments opens_comment
test_behind_text = refl

test_never_closed :
    remove_multi_line_comments (text "a.cc") (text "x" ∷ text "/* y" ∷ text "z" ∷ []) ≡ (
      text "x" ∷ text "/* y" ∷ text "z" ∷ [],
      report
            (text "a.cc")
            2
            "readability/multiline_comment"
            5
            (text "Could not find end of multi-line comment")
          ∷ [],
    )
unfolding remove_multi_line_comments opens_comment closes_comment
test_never_closed = refl

-- A line `/*/` opens a comment and closes it.
test_slash_star_slash :
    remove_multi_line_comments (text "a.cc") (text "/*/" ∷ text "x */" ∷ [])
    ≡ (text "/**/" ∷ text "x */" ∷ [], [])
unfolding remove_multi_line_comments opens_comment closes_comment
test_slash_star_slash = refl

test_cleanse : cleanse_comments (text "a /* b */ c; // d") ≡ text "a c;"
unfolding cleanse_comments
test_cleanse = refl

test_cleanse_in_string : cleanse_comments (text "s = \"a//b\";") ≡ text "s = \"a//b\";"
unfolding cleanse_comments
test_cleanse_in_string = refl
