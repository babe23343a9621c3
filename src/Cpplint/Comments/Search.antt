-- ===== src/Cpplint/Comments/Search.antt =====
-- What the searches of Comments find, and what a range that is cleared leaves.
use cmu.Base.{
  ℕ, suc, ◌+◌, ◌-◌, ◌≡◌, refl, ap, ◌∙◌, Bool, true, false, List, [], ◌∷◌, ◌++◌, map, arith, length,
  length-append, Text,
}
use cmu.Cpplint.Comments.{
  opens_comment, closes_comment, find_line, find_next_multi_line_comment_start,
  find_next_multi_line_comment_end, remove_multi_line_comments_from_range, clear_from,
}
use cmu.Cpplint.Comments.Multi.{any, cleared, find_line-none, find_line-cut, clear_from-mid}

pub start-none :
    (pre suf : List Text)
    → any opens_comment suf ≡ false
    → find_next_multi_line_comment_start (pre ++ suf) (length pre) ≡ length (pre ++ suf)
unfolding find_next_multi_line_comment_start
start-none pre suf h = find_line-none opens_comment (length (pre ++ suf)) pre suf h

-- With a round for each line a search reaches every line behind its start.
find_line-enough :
    (test : Text → Bool) (pre before : List Text) (at : Text) (after : List Text)
    → any test before ≡ false
    → test at ≡ true
    → find_line test
        (length (pre ++ (before ++ at ∷ after)))
        (pre ++ (before ++ at ∷ after))
        (length pre)
      ≡ length pre + length before
find_line-enough test pre before at after h k =
    let m = length pre + (length before + length after) in
    let e : length (pre ++ (before ++ at ∷ after)) ≡ suc m =
      omega (arith, length-append pre (before ++ at ∷ after), length-append before (at ∷ after)) in
    ap (λ n. find_line test n (pre ++ (before ++ at ∷ after)) (length pre)) e
    ∙ find_line-cut test m pre before at after (omega arith) h k

pub start-cut :
    (pre before : List Text) (at : Text) (after : List Text)
    → any opens_comment before ≡ false
    → opens_comment at ≡ true
    → find_next_multi_line_comment_start (pre ++ (before ++ at ∷ after)) (length pre)
      ≡ length pre + length before
unfolding find_next_multi_line_comment_start
start-cut pre before at after h k = find_line-enough opens_comment pre before at after h k

pub stop-none :
    (pre suf : List Text)
    → any closes_comment suf ≡ false
    → find_next_multi_line_comment_end (pre ++ suf) (length pre) ≡ length (pre ++ suf)
unfolding find_next_multi_line_comment_end
stop-none pre suf h = find_line-none closes_comment (length (pre ++ suf)) pre suf h

pub stop-cut :
    (pre before : List Text) (at : Text) (after : List Text)
    → any closes_comment before ≡ false
    → closes_comment at ≡ true
    → find_next_multi_line_comment_end (pre ++ (before ++ at ∷ after)) (length pre)
      ≡ length pre + length before
unfolding find_next_multi_line_comment_end
stop-cut pre before at after h k = find_line-enough closes_comment pre before at after h k

pub range-mid :
    (pre mid suf : List Text) (end : ℕ)
    → end ≡ length pre + length mid
    → remove_multi_line_comments_from_range (pre ++ (mid ++ suf)) (length pre) end
      ≡ pre ++ (map (λ _. cleared) mid ++ suf)
unfolding remove_multi_line_comments_from_range
range-mid pre mid suf end e =
    let n : end - length pre ≡ length mid = omega (arith, e) in
    ap (λ k. clear_from k (length pre) (pre ++ (mid ++ suf))) n ∙ clear_from-mid pre mid suf

pub length-map {ℓ} : {A : Type ℓ} (v : A) (xs : List A) → length (map (λ _. v) xs) ≡ length xs
length-map v [] = refl
length-map v (x ∷ xs) = ap suc (length-map v xs)
