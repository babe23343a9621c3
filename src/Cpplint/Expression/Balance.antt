-- ===== src/Cpplint/Expression/Balance.antt =====
-- Nested brackets, and the scan of a text that holds them.
use mathlib.Core.Path.{ap₂, subst}
use cmu.Base.{
  ℕ, ◌+◌, ◌≡◌, refl, sym, ap, ◌∙◌, Bool, true, not, ◌||◌, Option, none, some, inl, [], ◌∷◌, ◌++◌,
  arith, ◌==◌, if◌then◌else◌, length, Text,
}
use cmu.Cpplint.Expression.Effect.{Effect, Effect-append}
use cmu.Cpplint.Expression.{Stack, found, pop_angles, is_open, is_close, pairs, end_step, end_from}

-- neither a bracket nor one of `<` and `>`
abbrev pub is_plain : ℕ → Bool
is_plain c = not (is_open c || is_close c || c == b'<' || c == b'>')

-- Text without `<` and `>` in which the brackets `(`, `[` and `{` are closed in order.
pub data Nested : Text → Type 0 where
  nil : Nested []
  plain : (c : ℕ) {s : Text} → is_plain c ≡ true → Nested s → Nested (c ∷ s)
  bracket :
      (o c : ℕ) (a b : Text) {t : Text}
      → pairs o c ≡ true
      → Nested a
      → Nested b
      → t ≡ o ∷ (a ++ c ∷ b)
      → Nested t

-- The effect on the stack of one character, and of a text; `none` where the stack is left or a
-- bracket does not fit.
abbrev pub balance_char : ℕ → Stack → Option Stack
balance_char c [] = none
balance_char c (o ∷ stack) =
    if is_open c
    then some (c ∷ o ∷ stack)
    else if is_close c
    then (if pairs o c then some stack else none)
    else if is_plain c
    then some (o ∷ stack)
    else none

abbrev pub balance : Text → Stack → Option Stack
balance [] stack = some stack
balance (c ∷ s) stack = elim (balance_char c stack) [ none ↦ none | some stack' ↦ balance s stack' ]

-- No `<` is on the stack, and it is not empty.
abbrev pub NoAngle : Stack → Type 0
NoAngle [] = Unit
NoAngle (c ∷ stack) = (is_open c ≡ true) × NoAngle stack

balance_char-NoAngle :
    (c : ℕ) (stack stack' : Stack)
    → NoAngle stack
    → balance_char c stack ≡ some stack'
    → NoAngle stack'
balance_char-NoAngle c [] stack' n h = cc
balance_char-NoAngle c (o ∷ stack) [] n h = tt
balance_char-NoAngle c (o ∷ stack) (p ∷ stack') n h = ground arith

end_step-balance_char :
    (line : Text) (i c o p : ℕ) (stack stack' : Stack)
    → NoAngle (o ∷ stack)
    → balance_char c (o ∷ stack) ≡ some (p ∷ stack')
    → end_step line i c (o ∷ stack) ≡ inl (p ∷ stack')
unfolding end_step pop_angles
end_step-balance_char line i c o p stack stack' n h = ground arith

-- The effect of a text on the scan from left to right.
abbrev pub Holds : Text → Stack → Stack → Type 0
Holds = Effect balance_char

pub end_from-Holds :
    (line : Text) (i : ℕ) (s rest : Text) (stack stack' : Stack)
    → NoAngle stack
    → Holds s stack stack'
    → end_from line i (s ++ rest) stack ≡ end_from line (i + length s) rest stack'
unfolding end_from
end_from-Holds line i [] rest stack stack' n h =
    ap₂ (λ k st. end_from line k rest st) (omega arith) h
end_from-Holds line i (c ∷ s) rest [] stack' n (o, st, e, h) = cc
end_from-Holds line i (c ∷ s) rest (q ∷ stack) stack' n (o, st, e, h) =
    rw (end_step-balance_char line i c q o stack st n e, end_from)
      (end_from-Holds line (i + 1) s rest (o ∷ st) stack'
          (balance_char-NoAngle c (q ∷ stack) (o ∷ st) n e) h
        ∙ ap (λ k. end_from line k rest stack') (omega arith))

pub Holds-NoAngle :
    (s : Text) (stack stack' : Stack) → NoAngle stack → Holds s stack stack' → NoAngle stack'
Holds-NoAngle [] stack stack' n h = subst NoAngle h n
Holds-NoAngle (c ∷ s) stack stack' n (o, st, e, h) =
    Holds-NoAngle s (o ∷ st) stack' (balance_char-NoAngle c stack (o ∷ st) n e) h

balance_char-plain :
    (c o : ℕ) (stack : Stack) → is_plain c ≡ true → balance_char c (o ∷ stack) ≡ some (o ∷ stack)
balance_char-plain c o stack h = ground arith

balance_char-open :
    (o c p : ℕ) (stack : Stack)
    → pairs o c ≡ true
    → balance_char o (p ∷ stack) ≡ some (o ∷ p ∷ stack)
balance_char-open o c p stack h = ground arith

balance_char-close :
    (o c : ℕ) (stack : Stack) → pairs o c ≡ true → balance_char c (o ∷ stack) ≡ some stack
balance_char-close o c stack h = ground arith

-- Nested text leaves the stack as it was.
pub Nested-Holds : {s : Text} (o : ℕ) (stack : Stack) → Nested s → Holds s (o ∷ stack) (o ∷ stack)
Nested-Holds o stack nil = refl
Nested-Holds o stack (plain c e h) =
    (o, stack, balance_char-plain c o stack e, Nested-Holds o stack h)
Nested-Holds o stack (bracket p c a b e h k t) =
    subst (λ x. Holds x (o ∷ stack) (o ∷ stack)) (sym t)
      (
        p,
        o ∷ stack,
        balance_char-open p c o stack e,
        Effect-append balance_char a (c ∷ b) (p ∷ o ∷ stack) (p ∷ o ∷ stack) (o ∷ stack)
            (Nested-Holds p (o ∷ stack) h)
            (o, stack, balance_char-close p c (o ∷ stack) e, Nested-Holds o stack k),
      )

-- The last bracket ends the scan.
pub end_from-close :
    (line : Text) (i o c : ℕ) (post : Text)
    → pairs o c ≡ true
    → end_from line i (c ∷ post) (o ∷ []) ≡ found (i + 1)
unfolding end_from end_step pop_angles
end_from-close line i o c post h = ground arith

pub end_from-open :
    (line : Text) (i o c : ℕ) (s : Text)
    → pairs o c ≡ true
    → end_from line i (o ∷ s) [] ≡ end_from line (i + 1) s (o ∷ [])
unfolding end_from end_step
end_from-open line i o c s h = ground arith
