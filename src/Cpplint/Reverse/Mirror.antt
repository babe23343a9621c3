-- ===== src/Cpplint/Reverse/Mirror.antt =====
-- The scan from right to left over nested brackets.
use mathlib.Core.Path.{subst}
use mathlib.Core.List.{reverse-append, reverse-cons}
use cmu.Base.{
  ℕ, ◌≡◌, refl, sym, ap, ◌∙◌, true, false, Option, none, some, [], ◌∷◌, ◌++◌, reverse, append_assoc,
  arith, if◌then◌else◌, length, Text,
}
use cmu.Cpplint.Expression.{Stack, found, is_open, is_close, pairs}
use cmu.Cpplint.Expression.Effect.{Effect, Effect-append}
use cmu.Cpplint.Expression.Balance.{is_plain, Nested, nil, plain, bracket}
use cmu.Cpplint.Reverse.{on, pop_right_angles, start_step, start_from}

-- The effect of one character, read from the right.
abbrev pub balance_back : ℕ → Stack → Option Stack
balance_back c [] = none
balance_back c (o ∷ stack) =
    if is_close c
    then some (c ∷ o ∷ stack)
    else if is_open c
    then (if pairs c o then some stack else none)
    else if is_plain c
    then some (o ∷ stack)
    else none

-- No `>` is on the stack.
abbrev pub NoRight : Stack → Type 0
NoRight [] = Unit
NoRight (c ∷ stack) = (is_close c ≡ true) × NoRight stack

balance_back-NoRight :
    (c : ℕ) (stack stack' : Stack)
    → NoRight stack
    → balance_back c stack ≡ some stack'
    → NoRight stack'
balance_back-NoRight c [] stack' n h = cc
balance_back-NoRight c (o ∷ stack) [] n h = tt
balance_back-NoRight c (o ∷ stack) (p ∷ stack') n h = ground arith

start_step-balance_back :
    (line before : Text) (c o p : ℕ) (stack stack' : Stack)
    → NoRight (o ∷ stack)
    → balance_back c (o ∷ stack) ≡ some (p ∷ stack')
    → start_step line before c (o ∷ stack) ≡ on (p ∷ stack')
unfolding start_step pop_right_angles
start_step-balance_back line before c o p stack stack' n h = ground arith

pub start_from-Effect :
    (line s rest : Text) (stack stack' : Stack)
    → NoRight stack
    → Effect balance_back s stack stack'
    → start_from line (s ++ rest) false stack ≡ start_from line rest false stack'
unfolding start_from
start_from-Effect line [] rest stack stack' n h = ap (start_from line rest false) h
start_from-Effect line (c ∷ s) rest [] stack' n (o, st, e, h) = cc
start_from-Effect line (c ∷ s) rest (q ∷ stack) stack' n (o, st, e, h) =
    rw (start_step-balance_back line (s ++ rest) c q o stack st n e, start_from)
      (start_from-Effect line s rest (o ∷ st) stack'
        (balance_back-NoRight c (q ∷ stack) (o ∷ st) n e) h)

pub Effect-NoRight :
    (s : Text) (stack stack' : Stack)
    → NoRight stack
    → Effect balance_back s stack stack'
    → NoRight stack'
Effect-NoRight [] stack stack' n h = subst NoRight h n
Effect-NoRight (c ∷ s) stack stack' n (o, st, e, h) =
    Effect-NoRight s (o ∷ st) stack' (balance_back-NoRight c stack (o ∷ st) n e) h

back-plain :
    (c o : ℕ) (stack : Stack) → is_plain c ≡ true → balance_back c (o ∷ stack) ≡ some (o ∷ stack)
back-plain c o stack h = ground arith

back-close :
    (o c p : ℕ) (stack : Stack)
    → pairs o c ≡ true
    → balance_back c (p ∷ stack) ≡ some (c ∷ p ∷ stack)
back-close o c p stack h = ground arith

back-open : (o c : ℕ) (stack : Stack) → pairs o c ≡ true → balance_back o (c ∷ stack) ≡ some stack
back-open o c stack h = ground arith

reverse-bracket :
    (o c : ℕ) (a b : Text) → reverse (o ∷ (a ++ c ∷ b)) ≡ reverse b ++ c ∷ (reverse a ++ o ∷ [])
reverse-bracket o c a b = simp (reverse-cons, reverse-append, append_assoc)

-- Nested text, read from the right, leaves the stack as it was.
pub Nested-Effect :
    {s : Text} (q : ℕ) (stack : Stack)
    → Nested s
    → Effect balance_back (reverse s) (q ∷ stack) (q ∷ stack)
Nested-Effect q stack nil = refl
Nested-Effect q stack (plain c {s} e h) =
    subst (λ x. Effect balance_back x (q ∷ stack) (q ∷ stack)) (sym (reverse-cons c s))
      (Effect-append balance_back (reverse s) (c ∷ []) (q ∷ stack) (q ∷ stack) (q ∷ stack)
        (Nested-Effect q stack h) (q, stack, back-plain c q stack e, refl))
Nested-Effect q stack (bracket o c a b e h k t) =
    subst (λ x. Effect balance_back x (q ∷ stack) (q ∷ stack))
      (sym (ap reverse t ∙ reverse-bracket o c a b))
      (Effect-append balance_back (reverse b) (c ∷ (reverse a ++ o ∷ [])) (q ∷ stack) (q ∷ stack)
        (q ∷ stack) (Nested-Effect q stack k)
        (
          c,
          q ∷ stack,
          back-close o c q stack e,
          Effect-append balance_back (reverse a) (o ∷ []) (c ∷ q ∷ stack) (c ∷ q ∷ stack)
              (q ∷ stack) (Nested-Effect c (q ∷ stack) h)
              (q, stack, back-open o c (q ∷ stack) e, refl),
        ))

-- The first bracket ends the scan.
pub start_from-open :
    (line before : Text) (o c : ℕ)
    → pairs o c ≡ true
    → start_from line (o ∷ before) false (c ∷ []) ≡ found (length before)
unfolding start_from start_step pop_right_angles
start_from-open line before o c h = ground arith

pub start_from-close :
    (line before : Text) (o c : ℕ)
    → pairs o c ≡ true
    → start_from line (c ∷ before) false [] ≡ start_from line before false (c ∷ [])
unfolding start_from start_step
start_from-close line before o c h = ground arith
