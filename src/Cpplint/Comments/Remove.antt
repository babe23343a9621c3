-- ===== src/Cpplint/Comments/Remove.antt =====
-- What `RemoveMultiLineComments` does to the lines of a file.
use mathlib.Core.Path.{ap₂}
use cmu.PyText.{strip, find, starts_with}
use cmu.Base.{
  true, text, ℕ, ◌+◌, ◌≡◌, refl, sym, ap, ◌∙◌, Bool, not, ◌&&◌, false, Option, none, some, List, [],
  ◌∷◌, arith, length, Text,
}
use cmu.Cpplint.Comments.{ends_after_two, opens_comment, closes_comment, remove_multi_line_comments}
use cmu.Cpplint.Comments.Multi.{any, cleared, clears, blank, unclosed}
use cmu.Cpplint.Comments.Walk
use cmu.Cpplint.Comments.Loop.{reports, length-blank, remove_loop_lem}

remove_all :
    (filename : Text) (lines : List Text)
    → remove_multi_line_comments filename lines
      ≡ (blank false lines, reports filename (unclosed false 0 lines))
unfolding remove_multi_line_comments
remove_all filename lines = remove_loop_lem (length lines) filename [] lines (omega arith)

-- The loops end, and what they do is one walk over the lines: the lines of each comment that starts
-- a line and ends a line are cleared, from its first line to its last, all others stay, and the
-- first comment that is never closed is reported, with its line counted from 1; no line is added or
-- lost.
pub remove_multi_line_comments_lem :
    (filename : Text) (lines : List Text)
    → (remove_multi_line_comments filename lines
        ≡ (blank false lines, reports filename (unclosed false 0 lines)))
      × (length (remove_multi_line_comments filename lines).0 ≡ length lines)
remove_multi_line_comments_lem filename lines = (
  remove_all filename lines,
  ap (λ r. length r.0) (remove_all filename lines) ∙ length-blank lines false,
)

cleared-opens : opens_comment cleared ≡ false
unfolding opens_comment
cleared-opens = refl

-- Only an unclosed comment leaves a line that starts with one that it does not end.
blank-opens :
    (lines : List Text) (inside : Bool) (n : ℕ)
    → unclosed inside n lines ≡ none
    → any opens_comment (blank inside lines) ≡ false
blank-opens [] inside n h = refl
blank-opens (l ∷ ls) inside n h =
    ground
      (arith, cleared-opens, blank-opens ls (clears inside l ls && not (closes_comment l)) (n + 1))

-- The line starts, behind white space, with `/*`, and there is no `*/` behind that.
abbrev pub StartsComment : Text → Type 0
StartsComment line =
    (rest : Text) × (strip line ≡ b'/' ∷ b'*' ∷ rest) × (find (text "*/") rest ≡ none)

abbrev pub NoneStartsComment : List Text → Type 0
NoneStartsComment [] = Unit
NoneStartsComment (l ∷ ls) = (¬ StartsComment l) × NoneStartsComment ls

StartsComment-opens_comment : (l : Text) → StartsComment l → opens_comment l ≡ true
unfolding opens_comment starts_with
StartsComment-opens_comment l (rest, e, f) =
    rw (e, opens_comment) (rw (f, not, ends_after_two) refl)

none_starts : (ls : List Text) → any opens_comment ls ≡ false → NoneStartsComment ls
none_starts [] h = tt
none_starts (l ∷ ls) h = (
  (λ s.
      let opened = StartsComment-opens_comment l s in
      let shut : opens_comment l ≡ false = ground arith in cc (opened, shut)),
  none_starts ls (ground arith),
)

reports-nil : (filename : Text) (o : Option ℕ) → reports filename o ≡ [] → o ≡ none
reports-nil filename none h = refl
reports-nil filename (some n) h = cc

-- Where nothing is reported, no line that is left starts, behind white space, with `/*` and has no `*/`
-- behind that `/*`, and a second run changes and reports nothing. Of a comment that starts behind other
-- text on its line nothing is said.
pub remove_multi_line_comments_idem :
    (filename : Text) (lines : List Text)
    → (remove_multi_line_comments filename lines).1 ≡ []
    → let left = (remove_multi_line_comments filename lines).0 in
      NoneStartsComment left × (remove_multi_line_comments filename left ≡ (left, []))
remove_multi_line_comments_idem filename lines h =
    let e = remove_all filename lines in
    let none_open = reports-nil filename (unclosed false 0 lines) (sym (ap (λ r. r.1) e) ∙ h) in
    let clean = blank-opens lines false 0 none_open in
    rw e (
      none_starts _ clean,
      remove_all filename (blank false lines)
          ∙ ap₂ (λ a b. (a, reports filename b)) (Walk.blank-no_open (blank false lines) clean)
              (Walk.unclosed-no_open 0 (blank false lines) clean),
    )
