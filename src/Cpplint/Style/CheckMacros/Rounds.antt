-- ===== src/Cpplint/Style/CheckMacros/Rounds.antt =====
-- The loop of `CheckCheck` over an expression ends.
use cmu.Base.{
  ℕ, zero, suc, ◌≤◌, ◌<◌, ◌≡◌, refl, ap, ◌⊎◌, inl, inr, Bool-cases, Option, Option-cases, [], ◌∷◌,
  ◌++◌, ◌||◌, arith, length, take, drop, Text, text, text_eq,
}
use cmu.PyText.{member}
use cmu.Regex.{Cursor, none_of, cat, spaces, non_space, plus, match, group_or, begin}
use cmu.Regex.Reads.{
  Reads, both, grouped, at_bol, at_eol, match-Reads, Reads-rest, Reads-fewest, group_or-group_text,
}
use cmu.Cpplint.Cleansed.Rounds.{length-take-le, length-drop-le}
use cmu.Cpplint.Expression.{Scan, found, failed, pending, Stack, find_end_of_expression_in_line}
use cmu.Cpplint.Style.CheckMacros.{
  Comparison, tokens, shifts, token_pattern, operand, character, on_parenthesis, on_token,
  on_operand, parse_round, parse_from,
}

-- What follows a token or a part of an operand is shorter than the expression.
token_pattern-Reads :
    (s : Text) (m : Cursor) → Reads token_pattern (begin s) m → length (group_or 2 m) < length s
token_pattern-Reads s m
      (both (at_bol _) (both x (both (grouped w e1 g1) (both (grouped v e2 g2) (at_eol _))))) =
    omega (
      arith,
      ap length (group_or-group_text 2 m _ g2),
      length-take-le {A = ℕ},
      Reads-rest x,
      Reads-fewest tokens w,
      Reads-rest v,
      ap length e1,
      ap length e2,
    )

operand-Reads :
    (s : Text) (m : Cursor) → Reads operand (begin s) m → length (group_or 2 m) < length s
operand-Reads s m (both (at_bol _) (both (grouped w e1 g1) (both (grouped v e2 g2) (at_eol _)))) =
    omega (
      arith,
      ap length (group_or-group_text 2 m _ g2),
      length-take-le {A = ℕ},
      Reads-fewest (plus (none_of "-=!<>()&|")) w,
      Reads-rest v,
      ap length e1,
      ap length e2,
    )

character-Reads :
    (s : Text) (m : Cursor) → Reads character (begin s) m → length (group_or 2 m) < length s
character-Reads s m (both (at_bol _) (both (grouped w e1 g1) (both (grouped v e2 g2) (at_eol _)))) =
    omega (
      arith,
      ap length (group_or-group_text 2 m _ g2),
      length-take-le {A = ℕ},
      Reads-fewest (cat spaces non_space) w,
      Reads-rest v,
      ap length e1,
      ap length e2,
    )

Scan-cases :
    (s : Scan)
    → ((p : ℕ) × (s ≡ found p)) ⊎ ((s ≡ failed) ⊎ ((stack : Stack) × (s ≡ pending stack)))
Scan-cases (found p) = inl (p, refl)
Scan-cases failed = inr (inl refl)
Scan-cases (pending stack) = inr (inr (stack, refl))

-- two loops agree on the texts shorter than one
AgreeBelow : (f g : Text → Text → Option Comparison) → Text → Type 0
AgreeBelow f g s = (l t : Text) → length t < length s → f l t ≡ g l t

on_parenthesis-Agree :
    (f g : Text → Text → Option Comparison) (lhs rest s : Text)
    → length rest < length s
    → AgreeBelow f g s
    → on_parenthesis f lhs rest ≡ on_parenthesis g lhs rest
unfolding on_parenthesis AgreeBelow
on_parenthesis-Agree f g lhs rest s l h =
    elim (Scan-cases (find_end_of_expression_in_line rest 0 (b'(' ∷ []))) [
      | inl (p, e) ↦
          rw (e, on_parenthesis)
            (h (lhs ++ b'(' ∷ take p rest) (drop p rest) (omega (arith, l, length-drop-le p rest)))
      | inr (inl e) ↦ rw (e, on_parenthesis) refl
      | inr (inr (stack, e)) ↦ rw (e, on_parenthesis) refl
    ]

on_token-Agree :
    (f g : Text → Text → Option Comparison) (lhs token rest s : Text)
    → length rest < length s
    → AgreeBelow f g s
    → on_token f lhs token rest ≡ on_token g lhs token rest
unfolding on_token AgreeBelow
on_token-Agree f g lhs token rest s l h = elim (Bool-cases (text_eq token (text "("))) [
  | inl a ↦ rw (a, on_token) (on_parenthesis-Agree f g lhs rest s l h)
  | inr a ↦ elim (Bool-cases (text_eq token (text "&&") || text_eq token (text "||"))) [
    | inl b ↦ rw (a, on_token) (rw (b, on_token) refl)
    | inr b ↦ elim (Bool-cases (member token shifts)) [
      | inl c ↦ rw (a, on_token) (rw (b, on_token) (rw (c, on_token) (h (lhs ++ token) rest l)))
      | inr c ↦ rw (a, on_token) (rw (b, on_token) (rw (c, on_token) refl))
    ]
  ]
]

on_operand-Agree :
    (f g : Text → Text → Option Comparison) (lhs s : Text)
    → AgreeBelow f g s
    → on_operand f lhs s ≡ on_operand g lhs s
unfolding on_operand AgreeBelow
on_operand-Agree f g lhs s h = elim (Option-cases (match operand s)) [
  | inr (m, o) ↦
      rw (o, on_operand)
        (h (lhs ++ group_or 1 m) (group_or 2 m) (operand-Reads s m (match-Reads operand s m o)))
  | inl o ↦ elim (Option-cases (match character s)) [
    | inr (m, c) ↦
        rw (o, on_operand)
          (rw (c, on_operand)
            (h (lhs ++ group_or 1 m) (group_or 2 m)
              (character-Reads s m (match-Reads character s m c))))
    | inl c ↦ rw (o, on_operand) (rw (c, on_operand) refl)
  ]
]

parse_round-Agree :
    (f g : Text → Text → Option Comparison) (lhs s : Text)
    → AgreeBelow f g s
    → parse_round f lhs s ≡ parse_round g lhs s
unfolding parse_round
parse_round-Agree f g lhs s h = elim (Option-cases (match token_pattern s)) [
  | inr (m, o) ↦
      rw (o, parse_round)
        (on_token-Agree f g lhs (group_or 1 m) (group_or 2 m) s
          (token_pattern-Reads s m (match-Reads token_pattern s m o)) h)
  | inl o ↦ rw (o, parse_round) (on_operand-Agree f g lhs s h)
]

-- The loop of `CheckCheck` over an expression ends before it has done more rounds than the expression has
-- characters: with at least that many allowed, the operands and the operator it finds are the same,
-- whatever would be returned if they ran out.
pub parse_from-enough :
    (out other : Text → Text → Option Comparison) (n m : ℕ) (lhs s : Text)
    → length s ≤ n
    → length s ≤ m
    → parse_from out n lhs s ≡ parse_from other m lhs s
unfolding parse_from AgreeBelow
parse_from-enough out other n m lhs [] h k = refl
parse_from-enough out other zero m lhs (c ∷ s) h k = absurd (omega (arith, h))
parse_from-enough out other (suc n) zero lhs (c ∷ s) h k = absurd (omega (arith, k))
parse_from-enough out other (suc n) (suc m) lhs (c ∷ s) h k =
    parse_round-Agree (parse_from out n) (parse_from other m) lhs (c ∷ s)
      λ l t e. parse_from-enough out other n m l t (omega (arith, h, e)) (omega (arith, k, e))
