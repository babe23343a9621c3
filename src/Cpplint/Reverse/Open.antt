-- ===== src/Cpplint/Reverse/Open.antt =====
-- `ReverseCloseExpression` finds the bracket that opens a nested text, over any number of lines.
use mathlib.Core.Path.{subst}
use mathlib.Core.List.{reverse-append, reverse-cons, reverse}
use cmu.Base.{
  ℕ, suc, ◌+◌, ◌≡◌, refl, sym, ap, ◌∙◌, true, false, some, ◌⊎◌, inl, inr, List, [], ◌∷◌, ◌++◌,
  append_assoc, append-nil, arith, length, length-append, take, Text,
}
use cmu.PyText.{contains}
use cmu.Cpplint.Expression.{Stack, found, pending, is_close, pairs, Closing}
use cmu.Cpplint.Expression.Lines.{concat, get_elem?-length}
use cmu.Cpplint.Expression.Effect.{Effect, Effect-split, Effect-cons}
use cmu.Cpplint.Expression.Balance.{Nested}
use cmu.Cpplint.Reverse.{
  start_from, find_start_of_expression_in_line, reverse_close_from, reverse_close_line,
  reverse_close_at, reverse_close_expression,
}
use cmu.Cpplint.Reverse.Mirror.{
  balance_back, NoRight, start_from-Effect, Effect-NoRight, Nested-Effect, start_from-open,
  start_from-close,
}

-- the lines of a list, each read from the right
abbrev back_concat : List Text → Text
back_concat [] = []
back_concat (l ∷ ls) = reverse l ++ back_concat ls

back_concat-append : (xs ys : List Text) → back_concat (xs ++ ys) ≡ back_concat xs ++ back_concat ys
back_concat-append [] ys = refl
back_concat-append (x ∷ xs) ys = simp (back_concat-append xs ys, append_assoc)

reverse-concat : (mids : List Text) → reverse (concat mids) ≡ back_concat (reverse mids)
reverse-concat [] = refl
reverse-concat (l ∷ mids) =
    simp (reverse-append, reverse-cons, reverse-concat mids, back_concat-append, append-nil)

length-reverse {ℓ} : {A : Type ℓ} (xs : List A) → length (reverse xs) ≡ length xs
length-reverse [] = refl
length-reverse (x ∷ xs) =
    rw (reverse-cons x xs) (length-append (reverse xs) (x ∷ []) ∙ omega (arith, length-reverse xs))

take-length {ℓ} : {A : Type ℓ} (xs ys : List A) → take (length xs) (xs ++ ys) ≡ xs
take-length [] ys = refl
take-length (x ∷ xs) ys = ap (◌∷◌ x) (take-length xs ys)

take-suc {ℓ} :
    {A : Type ℓ} (xs : List A) (x : A) (ys : List A)
    → take (length xs + 1) (xs ++ x ∷ ys) ≡ xs ++ x ∷ []
take-suc [] x ys = refl
take-suc (y ∷ xs) x ys =
    let e : suc (length xs) + 1 ≡ suc (length xs + 1) = omega arith in
    ap (λ k. take k (y ∷ (xs ++ x ∷ ys))) e ∙ ap (◌∷◌ y) (take-suc xs x ys)

pairs-is_close : (o c : ℕ) → pairs o c ≡ true → is_close c ≡ true
pairs-is_close o c h = ground arith

-- A line in which the one bracket that is open has its start.
find_start-first :
    (o c : ℕ) (pre b0 : Text) (stack : Stack)
    → pairs o c ≡ true
    → NoRight stack
    → Effect balance_back (reverse b0) stack (c ∷ [])
    → find_start_of_expression_in_line (pre ++ o ∷ b0) (length (pre ++ o ∷ b0)) stack
      ≡ found (length pre)
unfolding find_start_of_expression_in_line
find_start-first o c pre b0 stack h n k =
    let line = pre ++ o ∷ b0 in
    let whole : take (length line) line ≡ line =
      ap (take (length line)) (sym (append-nil line)) ∙ take-length line [] in
    let turned : reverse line ≡ reverse b0 ++ o ∷ reverse pre =
      simp (reverse-append, reverse-cons, append_assoc) in
    ap (λ s. start_from line s false stack) (ap reverse whole ∙ turned)
    ∙ start_from-Effect line (reverse b0) (o ∷ reverse pre) stack (c ∷ []) n k
    ∙ start_from-open line (reverse pre) o c h
    ∙ ap found (length-reverse pre)

-- A line that leaves brackets open.
find_start-pending :
    (line : Text) (stack stack' : Stack)
    → NoRight stack
    → Effect balance_back (reverse line) stack stack'
    → find_start_of_expression_in_line line (length line) stack ≡ pending stack'
unfolding find_start_of_expression_in_line start_from
find_start-pending line stack stack' n h =
    let whole : take (length line) line ≡ line =
      ap (take (length line)) (sym (append-nil line)) ∙ take-length line [] in
    ap (λ s. start_from line s false stack) (ap reverse whole ∙ sym (append-nil (reverse line)))
    ∙ start_from-Effect line (reverse line) [] stack stack' n h

module _ (pre b0 : Text) (o c : ℕ) (befores : List Text) where
  abbrev starts_at : Closing
  starts_at = record { line = pre ++ o ∷ b0; linenum = length befores; pos = some (length pre) }

  -- The lines, from the nearest one on, up to the one that opens the bracket.
  reverse_close_from-lem :
      (ms : List Text) (line : Text) (q : ℕ) (stack : Stack)
      → pairs o c ≡ true
      → NoRight (q ∷ stack)
      → Effect balance_back (back_concat ms ++ reverse b0) (q ∷ stack) (c ∷ [])
      → reverse_close_from (ms ++ (pre ++ o ∷ b0) ∷ befores) line (q ∷ stack) ≡ starts_at
  unfolding reverse_close_from
  reverse_close_from-lem [] line q stack h a k =
      rw (find_start-first o c pre b0 (q ∷ stack) h a k, reverse_close_from) refl
  reverse_close_from-lem (l ∷ ms) line q stack h a k =
      let (b, first, later) =
        Effect-split balance_back (reverse l) (back_concat ms ++ reverse b0) (q ∷ stack) (c ∷ []) (
          subst (λ s. Effect balance_back s (q ∷ stack) (c ∷ []))
            (append_assoc (reverse l) (back_concat ms) (reverse b0)) k) in
      let (r, rest, e) = Effect-cons balance_back (reverse l) q stack b first in
      let open_after = subst (λ s. Effect balance_back (reverse l) (q ∷ stack) s) e first in
      rw (find_start-pending l (q ∷ stack) (r ∷ rest) a open_after, reverse_close_from)
        (reverse_close_from-lem ms l r rest h
          (Effect-NoRight (reverse l) (q ∷ stack) (r ∷ rest) a open_after)
          (subst (λ s. Effect balance_back (back_concat ms ++ reverse b0) s (c ∷ [])) e later))

-- The three closing brackets.
pairs-cases : (o c : ℕ) → pairs o c ≡ true → (c ≡ b')') ⊎ ((c ≡ b']') ⊎ (c ≡ b'}'))
pairs-cases o c h = ground arith

-- A closing bracket passes the test of `ReverseCloseExpression`.
reverse_close_at-close :
    (elided : List Text) (n pos : ℕ) (line : Text) (c : ℕ)
    → (c ≡ b')') ⊎ ((c ≡ b']') ⊎ (c ≡ b'}'))
    → reverse_close_at elided n pos line c ≡ reverse_close_line elided n pos line
unfolding reverse_close_at contains
reverse_close_at-close elided n pos line c (inl e) = rw e refl
reverse_close_at-close elided n pos line c (inr (inl e)) = rw e refl
reverse_close_at-close elided n pos line c (inr (inr e)) = rw e refl

-- The scan of what stands before the bracket on its line.
close_scan :
    (bk post : Text) (o c : ℕ) (stack : Stack)
    → pairs o c ≡ true
    → Effect balance_back (reverse bk) (c ∷ []) stack
    → find_start_of_expression_in_line (bk ++ c ∷ post) (length bk + 1) [] ≡ pending stack
unfolding find_start_of_expression_in_line start_from
close_scan bk post o c stack h k =
    let line = bk ++ c ∷ post in
    let turned : reverse (bk ++ c ∷ []) ≡ c ∷ (reverse bk ++ []) =
      simp (reverse-append, append-nil) in
    ap (λ s. start_from line s false []) (ap reverse (take-suc bk c post) ∙ turned)
    ∙ start_from-close line (reverse bk ++ []) o c h
    ∙ start_from-Effect line (reverse bk) [] (c ∷ []) stack (pairs-is_close o c h, tt) k

-- A bracket `)`, `]` or `}` is opened at its own opening bracket on an earlier line if the text
-- between, over the end of that earlier line, any lines between and the start of its own line, has no
-- `<` and no `>` and closes the brackets `(`, `[` and `{` in it in order; any other character may
-- stand there, `;` too. The earlier line is returned, with its number and the position of the opening
-- bracket.
pub reverse_close_expression-Nested :
    (before : List Text) (pre b0 : Text) (mids : List Text) (bk post : Text) (after : List Text)
    (o c : ℕ)
    → pairs o c ≡ true
    → Nested (b0 ++ (concat mids ++ bk))
    → reverse_close_expression
        ((before ++ (pre ++ o ∷ b0) ∷ mids) ++ (bk ++ c ∷ post) ∷ after)
        (length (before ++ (pre ++ o ∷ b0) ∷ mids))
        (length bk)
      ≡ some (record { line = pre ++ o ∷ b0; linenum = length before; pos = some (length pre) })
unfolding reverse_close_expression reverse_close_line
reverse_close_expression-Nested before pre b0 mids bk post after o c h k =
    let first_part = before ++ (pre ++ o ∷ b0) ∷ mids in
    let line = bk ++ c ∷ post in
    let turned : reverse (b0 ++ (concat mids ++ bk))
        ≡ reverse bk ++ (back_concat (reverse mids) ++ reverse b0) =
      simp (reverse-append, reverse-concat, append_assoc) in
    let (b, first, later) =
      Effect-split balance_back (reverse bk) (back_concat (reverse mids) ++ reverse b0) (c ∷ [])
        (c ∷ [])
        (subst (λ s. Effect balance_back s (c ∷ []) (c ∷ [])) turned (Nested-Effect c [] k)) in
    let (q, stack, e) = Effect-cons balance_back (reverse bk) c [] b first in
    let open_after = subst (λ s. Effect balance_back (reverse bk) (c ∷ []) s) e first in
    let na =
      Effect-NoRight (reverse bk) (c ∷ []) (q ∷ stack) (pairs-is_close o c h, tt) open_after in
    let later' =
      subst (λ s. Effect balance_back (back_concat (reverse mids) ++ reverse b0) s (c ∷ [])) e
        later in
    let lines : reverse first_part ≡ reverse mids ++ (pre ++ o ∷ b0) ∷ reverse before =
      simp (reverse-append, reverse-cons, append_assoc) in
    rw (get_elem?-length first_part line after, reverse_close_expression)
      (rw (get_elem?-length bk c post) (
        ap some (
          reverse_close_at-close (first_part ++ line ∷ after) (length first_part) (length bk) line c
            (pairs-cases o c h)
          ∙ rw (close_scan bk post o c (q ∷ stack) h open_after, reverse_close_line)
              (rw (take-length first_part (line ∷ after), lines, reverse_close_from)
                (reverse_close_from-lem pre b0 o c (reverse before) (reverse mids) line q stack h na
                    later'
                  ∙ rw (length-reverse before) refl)))))
