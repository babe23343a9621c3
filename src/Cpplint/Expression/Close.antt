-- ===== src/Cpplint/Expression/Close.antt =====
-- `CloseExpression` finds the bracket that closes a nested text, over any number of lines.
use mathlib.Core.Path.{subst}
use cmu.Base.{
  ℕ, ◌+◌, ◌≡◌, refl, sym, ap, ◌∙◌, true, some, ◌⊎◌, inl, inr, List, [], ◌∷◌, ◌++◌, append_assoc,
  append-nil, arith, length, Text,
}
use cmu.PyText.{contains}
use cmu.Regex.{matches}
use cmu.Cpplint.Expression.{
  Stack, found, pending, is_open, pairs, Closing, end_from, find_end_of_expression_in_line,
  close_from, close_line, close_at, close_expression,
}
use cmu.Cpplint.Expression.Lines.{concat, drop-length, drop-suc, get_elem?-length}
use cmu.Cpplint.Expression.Effect.{Effect-split, Effect-cons}
use cmu.Cpplint.Expression.Balance.{
  balance_char, NoAngle, Holds, Nested, end_from-Holds, Holds-NoAngle, Nested-Holds, end_from-close,
  end_from-open,
}

pub pairs-is_open : (o c : ℕ) → pairs o c ≡ true → is_open o ≡ true
pairs-is_open o c h = ground arith

-- A line whose text closes the one bracket that is open.
find_end-last :
    (o c : ℕ) (body post : Text) (stack : Stack)
    → pairs o c ≡ true
    → NoAngle stack
    → Holds body stack (o ∷ [])
    → find_end_of_expression_in_line (body ++ c ∷ post) 0 stack ≡ found (length body + 1)
unfolding find_end_of_expression_in_line
find_end-last o c body post stack h n k =
    end_from-Holds (body ++ c ∷ post) 0 body (c ∷ post) stack (o ∷ []) n k
    ∙ end_from-close (body ++ c ∷ post) (0 + length body) o c post h
    ∙ ap found (omega arith)

-- A line that leaves brackets open.
find_end-pending :
    (line : Text) (stack stack' : Stack)
    → NoAngle stack
    → Holds line stack stack'
    → find_end_of_expression_in_line line 0 stack ≡ pending stack'
unfolding find_end_of_expression_in_line end_from
find_end-pending line stack stack' n h =
    ap (λ s. end_from line 0 s stack) (sym (append-nil line))
    ∙ end_from-Holds line 0 line [] stack stack' n h

module _ (num : ℕ) (bk : Text) (o c : ℕ) (post : Text) (after : List Text) where
  abbrev ends_at : ℕ → Closing
  ends_at n = record { line = bk ++ c ∷ post; linenum = n; pos = some (length bk + 1) }

  -- The lines up to the one that closes the bracket.
  close_from-lem :
      (mids : List Text) (n : ℕ) (line : Text) (q : ℕ) (stack : Stack)
      → pairs o c ≡ true
      → NoAngle (q ∷ stack)
      → Holds (concat mids ++ bk) (q ∷ stack) (o ∷ [])
      → close_from num (mids ++ (bk ++ c ∷ post) ∷ after) n line (q ∷ stack)
        ≡ ends_at (n + length mids + 1)
  unfolding close_from
  close_from-lem [] n line q stack h a k =
      rw (find_end-last o c bk post (q ∷ stack) h a k, close_from) (ap ends_at (omega arith))
  close_from-lem (l ∷ mids) n line q stack h a k =
      let (b, first, later) =
        Effect-split balance_char l (concat mids ++ bk) (q ∷ stack) (o ∷ [])
          (subst (λ s. Holds s (q ∷ stack) (o ∷ [])) (append_assoc l (concat mids) bk) k) in
      let (r, rest, e) = Effect-cons balance_char l q stack b first in
      let open_after = subst (λ s. Holds l (q ∷ stack) s) e first in
      rw (find_end-pending l (q ∷ stack) (r ∷ rest) a open_after, close_from)
        (close_from-lem mids (n + 1) l r rest h
            (Holds-NoAngle l (q ∷ stack) (r ∷ rest) a open_after)
            (subst (λ s. Holds (concat mids ++ bk) s (o ∷ [])) e later)
          ∙ ap ends_at (omega arith))

-- The three opening brackets.
pairs-cases : (o c : ℕ) → pairs o c ≡ true → (o ≡ b'(') ⊎ ((o ≡ b'[') ⊎ (o ≡ b'{'))
pairs-cases o c h = ground arith

-- An opening bracket passes the two tests of `CloseExpression`.
close_at-open :
    (elided : List Text) (n : ℕ) (pre b0 : Text) (o : ℕ)
    → (o ≡ b'(') ⊎ ((o ≡ b'[') ⊎ (o ≡ b'{'))
    → close_at elided n (length pre) (pre ++ o ∷ b0) o
      ≡ close_line elided n (length pre) (pre ++ o ∷ b0)
unfolding close_at contains matches
close_at-open elided n pre b0 o (inl e) = rw (drop-length pre (o ∷ b0), e) refl
close_at-open elided n pre b0 o (inr (inl e)) = rw (drop-length pre (o ∷ b0), e) refl
close_at-open elided n pre b0 o (inr (inr e)) = rw (drop-length pre (o ∷ b0), e) refl

-- The scan of the rest of the line on which the bracket stands.
open_scan :
    (pre b0 : Text) (o c : ℕ) (stack : Stack)
    → pairs o c ≡ true
    → Holds b0 (o ∷ []) stack
    → find_end_of_expression_in_line (pre ++ o ∷ b0) (length pre) [] ≡ pending stack
unfolding find_end_of_expression_in_line end_from
open_scan pre b0 o c stack h k =
    ap (λ s. end_from (pre ++ o ∷ b0) (length pre) s []) (drop-length pre (o ∷ b0))
    ∙ end_from-open (pre ++ o ∷ b0) (length pre) o c b0 h
    ∙ ap (λ s. end_from (pre ++ o ∷ b0) (length pre + 1) s (o ∷ [])) (sym (append-nil b0))
    ∙ end_from-Holds (pre ++ o ∷ b0) (length pre + 1) b0 [] (o ∷ []) stack (pairs-is_open o c h, tt)
        k

-- A bracket `(`, `[` or `{` is closed at its own closing bracket on a later line if the text between,
-- over the rest of its line, any lines between and the start of that later line, has no `<` and no
-- `>` and closes the brackets `(`, `[` and `{` in it in order; any other character may stand there,
-- `;` too. The later line is returned, with its number and the position behind the closing bracket.
pub close_expression-Nested :
    (before : List Text) (pre b0 : Text) (mids : List Text) (bk post : Text) (after : List Text)
    (o c : ℕ)
    → pairs o c ≡ true
    → Nested (b0 ++ (concat mids ++ bk))
    → close_expression
        (before ++ (pre ++ o ∷ b0) ∷ (mids ++ (bk ++ c ∷ post) ∷ after))
        (length before)
        (length pre)
      ≡ some (record {
        line = bk ++ c ∷ post;
        linenum = length before + length mids + 1;
        pos = some (length bk + 1);
      })
unfolding close_expression close_line
close_expression-Nested before pre b0 mids bk post after o c h k =
    let line = pre ++ o ∷ b0 in
    let rest = mids ++ (bk ++ c ∷ post) ∷ after in
    let elided = before ++ line ∷ rest in
    let (b, first, later) =
      Effect-split balance_char b0 (concat mids ++ bk) (o ∷ []) (o ∷ []) (Nested-Holds o [] k) in
    let (q, stack, e) = Effect-cons balance_char b0 o [] b first in
    let open_after = subst (λ s. Holds b0 (o ∷ []) s) e first in
    let na = Holds-NoAngle b0 (o ∷ []) (q ∷ stack) (pairs-is_open o c h, tt) open_after in
    let later' = subst (λ s. Holds (concat mids ++ bk) s (o ∷ [])) e later in
    rw (get_elem?-length before line rest, close_expression)
      (rw (get_elem?-length pre o b0) (
        ap some (
          close_at-open elided (length before) pre b0 o (pairs-cases o c h)
          ∙ rw (open_scan pre b0 o c (q ∷ stack) h open_after, close_line)
              (rw (drop-suc before line rest, close_from)
                (close_from-lem (length elided) bk o c post after mids (length before) line q stack
                  h na later')))))
