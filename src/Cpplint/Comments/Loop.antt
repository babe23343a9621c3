-- ===== src/Cpplint/Comments/Loop.antt =====
-- The loop of `RemoveMultiLineComments` against the walk over the lines.
use mathlib.Core.Path.{ap₂, subst}
use cmu.Base.{
  ℕ, zero, suc, ◌+◌, ◌≤◌, ◌<◌, ◌≡◌, refl, sym, ap, ◌∙◌, inl, inr, Bool, true, false, Option, none,
  some, List, [], ◌∷◌, ◌++◌, append-nil, append_assoc, map, arith, length, length-append, Text,
  text,
}
use cmu.Cpplint.Report.{Report, report}
use cmu.Cpplint.Comments.{
  opens_comment, closes_comment, find_next_multi_line_comment_start,
  find_next_multi_line_comment_end, remove_multi_line_comments_from_range, remove_loop,
}
use cmu.Cpplint.Comments.Multi.{any, cleared, blank, unclosed, Cut-cases}
use cmu.Cpplint.Comments.Walk
use cmu.Cpplint.Comments.Search.{start-none, start-cut, stop-none, stop-cut, range-mid, length-map}

-- the report of a comment that is opened at this index and never closed
abbrev pub reports : Text → Option ℕ → List Report
reports filename none = []
reports filename (some n) =
    report filename (n + 1) "readability/multiline_comment" 5
      (text "Could not find end of multi-line comment")
    ∷ []

-- One round of the loop, by what the searches find.
module _ (fuel : ℕ) (filename : Text) (lines : List Text) (i : ℕ) where
  loop-past : length lines ≤ i → remove_loop (suc fuel) filename lines i ≡ (lines, [])
  unfolding remove_loop
  loop-past h = ground arith

  loop-none :
      find_next_multi_line_comment_start lines i ≡ length lines
      → remove_loop (suc fuel) filename lines i ≡ (lines, [])
  unfolding remove_loop
  loop-none h = ground arith

  loop-open :
      (start : ℕ)
      → find_next_multi_line_comment_start lines i ≡ start
      → find_next_multi_line_comment_end lines start ≡ length lines
      → i < length lines
      → start < length lines
      → remove_loop (suc fuel) filename lines i ≡ (lines, reports filename (some start))
  unfolding remove_loop
  loop-open start a b l k = ground arith

  loop-clear :
      (start stop : ℕ)
      → find_next_multi_line_comment_start lines i ≡ start
      → find_next_multi_line_comment_end lines start ≡ stop
      → i < length lines
      → start < length lines
      → stop < length lines
      → remove_loop (suc fuel) filename lines i
        ≡ remove_loop fuel filename
            (remove_multi_line_comments_from_range lines start (stop + 1))
            (stop + 1)
  unfolding remove_loop
  loop-clear start stop a b l k m = ground arith

-- What a loop leaves that starts behind `pre`.
abbrev all_left : Text → List Text → List Text → List Text × List Report
all_left filename pre suf =
    (pre ++ blank false suf, reports filename (unclosed false (length pre) suf))

module _ (fuel : ℕ) (filename : Text) (i : ℕ) (P before : List Text) (at : Text)
    (after : List Text) where
  abbrev all_lines : List Text
  all_lines = P ++ (before ++ at ∷ after)

  abbrev done : List Text
  done = P ++ map (λ _. cleared) (before ++ at ∷ [])

  -- A comment that starts behind `P` and closes at `at` is cleared, and the loop goes on behind it.
  loop-closed :
      find_next_multi_line_comment_start all_lines i ≡ length P
      → i < length all_lines
      → any closes_comment before ≡ false
      → closes_comment at ≡ true
      → remove_loop (suc fuel) filename all_lines i
        ≡ remove_loop fuel filename (done ++ after) (length done)
  loop-closed s l h k =
      let mid = before ++ at ∷ [] in
      let stop = stop-cut P before at after h k in
      let size = length-append P (before ++ at ∷ after) in
      let size' = length-append before (at ∷ after) in
      let mid_size = length-append before (at ∷ []) in
      let done_size : length done ≡ length P + length before + 1 =
        omega (arith, length-append P (map (λ _. cleared) mid), length-map cleared mid) in
      loop-clear fuel filename all_lines i (length P) (length P + length before) s stop l
        (omega arith) (omega arith)
      ∙ ap₂ (λ ls n. remove_loop fuel filename ls n)
          (ap
              (λ x.
                remove_multi_line_comments_from_range (P ++ x) (length P)
                  (length P + length before + 1))
              (sym (append_assoc before (at ∷ []) after))
            ∙ range-mid P mid after (length P + length before + 1) (omega arith)
            ∙ sym (append_assoc P (map (λ _. cleared) mid) after))
          (sym done_size)

-- `n` rounds are enough for `n` lines, wherever the loop starts.
abbrev Agrees : Text → ℕ → Type 0
Agrees filename n =
    (pre suf : List Text)
    → length suf ≤ n
    → remove_loop n filename (pre ++ suf) (length pre) ≡ all_left filename pre suf

pub length-blank : (lines : List Text) (inside : Bool) → length (blank inside lines) ≡ length lines
length-blank [] inside = refl
length-blank (l ∷ ls) inside = ap suc (length-blank ls _)

module _ (fuel : ℕ) (filename : Text) where
  -- what is left behind `P` by a loop that is inside a comment there
  abbrev inside_left : List Text → List Text → List Text × List Report
  inside_left P suf = (P ++ blank true suf, reports filename (unclosed true (length P) suf))

  loop-inside :
      (i : ℕ) (P before : List Text) (at : Text) (after : List Text)
      → Agrees filename fuel
      → find_next_multi_line_comment_start (P ++ (before ++ at ∷ after)) i ≡ length P
      → i < length (P ++ (before ++ at ∷ after))
      → length after ≤ fuel
      → any closes_comment before ≡ false
      → closes_comment at ≡ true
      → remove_loop (suc fuel) filename (P ++ (before ++ at ∷ after)) i
        ≡ inside_left P (before ++ at ∷ after)
  loop-inside i P before at after ih s l f h k =
      let mid = map (λ _. cleared) (before ++ at ∷ []) in
      let size : length (P ++ mid) ≡ length P + length before + 1 = omega (
        arith,
        length-append P mid,
        length-map cleared (before ++ at ∷ []),
        length-append before (at ∷ []),
      ) in
      loop-closed fuel filename i P before at after s l h k
      ∙ ih (P ++ mid) after f
      ∙ ap₂ (λ a b. (a, reports filename b))
          (append_assoc P mid (blank false after)
            ∙ ap (λ x. P ++ x) (sym (Walk.blank-inside before after at h k)))
          (ap (λ n. unclosed false n after) size
            ∙ sym (Walk.unclosed-inside (length P) before after at h k))

  loop-opened :
      (i : ℕ) (P : List Text) (at : Text) (after : List Text)
      → Agrees filename fuel
      → find_next_multi_line_comment_start (P ++ at ∷ after) i ≡ length P
      → i < length (P ++ at ∷ after)
      → length after ≤ fuel
      → opens_comment at ≡ true
      → remove_loop (suc fuel) filename (P ++ at ∷ after) i ≡ all_left filename P (at ∷ after)
  loop-opened i P at after ih s l f o = elim (Cut-cases closes_comment (at ∷ after)) [
    | inl h ↦
        loop-open fuel filename (P ++ at ∷ after) i (length P) s (stop-none P (at ∷ after) h) l
          (omega (arith, length-append P (at ∷ after)))
        ∙ ap₂ (λ a b. (P ++ a, reports filename b)) (sym (Walk.blank-no_close (at ∷ after) h))
            (sym (Walk.unclosed-never (length P) at after o h))
    | inr c ↦
        let closed : any closes_comment (at ∷ after) ≡ true =
          ap (any closes_comment) c.splits ∙ Walk.any-closes_at c.before c.after c.at c.passes in
        let short : length c.after ≤ fuel =
          omega (arith, ap length c.splits, length-append c.before (c.at ∷ c.after)) in
        let there = λ (X : List Text). find_next_multi_line_comment_start (P ++ X) i ≡ length P in
        subst (λ X. remove_loop (suc fuel) filename (P ++ X) i ≡ inside_left P X) (sym c.splits)
          (loop-inside i P c.before c.at c.after ih (subst there c.splits s)
            (subst (λ X. i < length (P ++ X)) c.splits l) short c.none_before c.passes)
        ∙ ap₂ (λ a b. (P ++ a, reports filename b)) (sym (Walk.blank-open at after o closed))
            (sym (Walk.unclosed-open (length P) at after o closed))
  ]

  loop-behind :
      (pre before : List Text) (at : Text) (after : List Text)
      → Agrees filename fuel
      → length after ≤ fuel
      → any opens_comment before ≡ false
      → opens_comment at ≡ true
      → remove_loop (suc fuel) filename (pre ++ (before ++ at ∷ after)) (length pre)
        ≡ all_left filename pre (before ++ at ∷ after)
  loop-behind pre before at after ih f h o =
      let e = append_assoc pre before (at ∷ after) in
      let size = length-append pre before in
      ap (λ ls. remove_loop (suc fuel) filename ls (length pre)) (sym e)
      ∙ loop-opened (length pre) (pre ++ before) at after ih
          (ap (λ ls. find_next_multi_line_comment_start ls (length pre)) e
            ∙ start-cut pre before at after h o
            ∙ sym size)
          (omega (arith, size, length-append (pre ++ before) (at ∷ after))) f o
      ∙ ap₂ (λ a b. (a, reports filename b))
          (append_assoc pre before (blank false (at ∷ after))
            ∙ ap (λ x. pre ++ x) (sym (Walk.blank-append_no_open before (at ∷ after) h)))
          (ap (λ n. unclosed false n (at ∷ after)) size
            ∙ sym (Walk.unclosed-append_no_open (length pre) before (at ∷ after) h))

pub remove_loop_lem : (fuel : ℕ) (filename : Text) → Agrees filename fuel
remove_loop_lem zero filename pre [] f = unfold remove_loop in rw append-nil refl
remove_loop_lem zero filename pre (l ∷ suf) f = absurd (omega arith)
remove_loop_lem (suc fuel) filename pre [] f =
    loop-past fuel filename (pre ++ []) (length pre) (rw append-nil (omega arith))
remove_loop_lem (suc fuel) filename pre (l ∷ ls) f = elim (Cut-cases opens_comment (l ∷ ls)) [
  | inl h ↦
      loop-none fuel filename (pre ++ l ∷ ls) (length pre) (start-none pre (l ∷ ls) h)
      ∙ ap₂ (λ a b. (pre ++ a, reports filename b)) (sym (Walk.blank-no_open (l ∷ ls) h))
          (sym (Walk.unclosed-no_open (length pre) (l ∷ ls) h))
  | inr c ↦
      let short : length c.after ≤ fuel =
        omega (arith, ap length c.splits, length-append c.before (c.at ∷ c.after)) in
      subst (λ X. remove_loop (suc fuel) filename (pre ++ X) (length pre) ≡ all_left filename pre X)
        (sym c.splits)
        (loop-behind fuel filename pre c.before c.at c.after (remove_loop_lem fuel filename) short
          c.none_before c.passes)
]
