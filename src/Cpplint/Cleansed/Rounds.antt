-- ===== src/Cpplint/Cleansed/Rounds.antt =====
-- The loops that take strings out of a line end, each round leaving a shorter text.
use cmu.Base.{
  ℕ, zero, suc, ◌+◌, ◌≤◌, ◌<◌, ◌≡◌, refl, ap, ◌∙◌, true, false, Option, List, [], ◌∷◌, ◌++◌, arith,
  Bool-cases, Option-cases, inl, inr, length, take, drop, length-append, Text, text,
}
use cmu.PyText.{find, contains, replace}
use cmu.Regex.{star, lazy, dot, none_of, Cursor, match, matches, finds, group_or, begin}
use cmu.Regex.Reads.{
  Reads, nothing, char, both, grouped, at_bol, at_eol, at_edge, match-Reads, Reads-rest,
  Reads-no_groups, Reads-fewest, group_or-group_text, groups_then,
}
use cmu.Cpplint.Cleansed.{
  raw_prefix, raw_delimiter, end_raw, raw_string, comment_before, first_quote, number_end,
  literal_rest, open_raw_round, open_raw_strings, collapse_quoted, collapse_number, collapse_quote,
  collapse_round, collapse_from,
}

pub length-take-le {ℓ} : {A : Type ℓ} (n : ℕ) (xs : List A) → length (take n xs) ≤ n
length-take-le zero xs = omega arith
length-take-le (suc n) [] = omega arith
length-take-le (suc n) (x ∷ xs) = omega (arith, length-take-le n xs)

pub length-drop-le {ℓ} : {A : Type ℓ} (n : ℕ) (xs : List A) → length (drop n xs) ≤ length xs
length-drop-le zero xs = omega arith
length-drop-le (suc n) [] = omega arith
length-drop-le (suc n) (x ∷ xs) = omega (arith, length-drop-le n xs)

-- The text before the first quote, the quote and the text behind it are parts of the line.
first_quote-Reads :
    (s : Text) (m : Cursor)
    → Reads first_quote (begin s) m
    → length (group_or 1 m) + 1 + length (group_or 3 m) ≤ length s
first_quote-Reads s m
      (both (at_bol _) (
        both
          (grouped x e1 g1)
          (both (grouped (char q e2 g2 _) e3 g3) (both (grouped y e4 g4) (at_eol _))))) =
    let all = groups_then g4 (
      Reads-no_groups (star dot) refl y
      ∙ groups_then g3 (g2 ∙ groups_then g1 (Reads-no_groups (star (none_of "'\"")) refl x))) in
    omega (
      arith,
      ap length (group_or-group_text 1 m _ all),
      ap length (group_or-group_text 3 m _ all),
      length-take-le {A = ℕ},
      Reads-rest x,
      Reads-rest y,
      ap length e1,
      ap length e2,
      ap length e3,
      ap length e4,
    )

literal_rest-Reads :
    (s : Text) (m : Cursor) → Reads literal_rest (begin s) m → length (group_or 2 m) ≤ length s
literal_rest-Reads s m
      (both (at_bol _) (both (grouped x e1 g1) (both (grouped y e2 g2) (at_eol _)))) =
    omega (
      arith,
      ap length (group_or-group_text 2 m _ g2),
      length-take-le {A = ℕ},
      Reads-rest x,
      Reads-rest y,
      ap length e1,
    )

-- Two ways to go on that agree on every shorter text.
abbrev Agree {ℓ} : {A : Type ℓ} → (Text → A) → (Text → A) → Text → Type ℓ
Agree f g s = (t : Text) → length t < length s → f t ≡ g t

collapse_quoted-Agree :
    (f g : Text → Text) (s quote head tail : Text)
    → Agree f g s
    → length tail < length s
    → collapse_quoted f s quote head tail ≡ collapse_quoted g s quote head tail
unfolding collapse_quoted
collapse_quoted-Agree f g s quote head tail h l = elim (Option-cases (find quote tail)) [
  | inl o ↦ rw (o, collapse_quoted) refl
  | inr (i, o) ↦
      rw (o, collapse_quoted)
        (ap (λ t. head ++ (quote ++ (quote ++ t)))
          (h (drop (i + 1) tail) (omega (arith, l, length-drop-le (i + 1) tail))))
]

collapse_number-Agree :
    (f g : Text → Text) (s head tail : Text)
    → Agree f g s
    → suc (length tail) < length s
    → collapse_number f s head tail ≡ collapse_number g s head tail
unfolding collapse_number
collapse_number-Agree f g s head tail h l =
    elim (Option-cases (match literal_rest (b'\'' ∷ tail))) [
      | inl o ↦ rw (o, collapse_number) refl
      | inr (m, o) ↦
          let shorter = literal_rest-Reads (b'\'' ∷ tail) m (match-Reads literal_rest _ m o) in
          rw (o, collapse_number)
            (ap (λ t. head ++ (replace (text "'") [] (group_or 1 m) ++ t))
              (h (group_or 2 m) (omega (arith, l, shorter))))
    ]

no_number_end : finds number_end [] ≡ false
unfolding finds
no_number_end = refl

number_end-head : (head : Text) → finds number_end head ≡ true → 0 < length head
number_end-head [] h = cc (no_number_end, h)
number_end-head (c ∷ head) h = omega arith

collapse_quote-Agree :
    (f g : Text → Text) (s head quote tail : Text)
    → Agree f g s
    → length head + 1 + length tail ≤ length s
    → collapse_quote f s head quote tail ≡ collapse_quote g s head quote tail
unfolding collapse_quote
collapse_quote-Agree f g s head quote tail h l = elim (Bool-cases (contains b'"' quote)) [
  | inl c ↦ rw c (collapse_quoted-Agree f g s (text "\"") head tail h (omega (arith, l)))
  | inr c ↦ elim (Bool-cases (finds number_end head)) [
    | inl d ↦
        rw (c, d)
          (collapse_number-Agree f g s head tail h (omega (arith, l, number_end-head head d)))
    | inr d ↦ rw (c, d) (collapse_quoted-Agree f g s (text "'") head tail h (omega (arith, l)))
  ]
]

collapse_round-Agree :
    (f g : Text → Text) (s : Text) → Agree f g s → collapse_round f s ≡ collapse_round g s
unfolding collapse_round
collapse_round-Agree f g s h = elim (Option-cases (match first_quote s)) [
  | inl o ↦ rw (o, collapse_round) refl
  | inr (m, o) ↦
      rw (o, collapse_round)
        (collapse_quote-Agree f g s (group_or 1 m) (group_or 2 m) (group_or 3 m) h
          (first_quote-Reads s m (match-Reads first_quote s m o)))
]

-- The loop of `_CollapseStrings` ends before it has done one round more than the text has characters:
-- with more rounds allowed than that, its result is the same, whatever would be returned if they ran out.
pub collapse_from-enough :
    (out other : Text → Text) (n m : ℕ) (s : Text)
    → length s < n
    → length s < m
    → collapse_from out n s ≡ collapse_from other m s
unfolding collapse_from
collapse_from-enough out other zero m s h k = absurd (omega (arith, h))
collapse_from-enough out other (suc n) zero s h k = absurd (omega (arith, k))
collapse_from-enough out other (suc n) (suc m) s h k =
    collapse_round-Agree (collapse_from out n) (collapse_from other m) s
      λ t l. collapse_from-enough out other n m t (omega (arith, h, l)) (omega (arith, k, l))

-- The text before a raw string and the text behind its bracket are parts of the line.
raw_string-Reads :
    (s : Text) (m : Cursor)
    → Reads raw_string (begin s) m
    → length (group_or 1 m) + 3 + length (group_or 3 m) ≤ length s
raw_string-Reads s m
      (both (at_bol _) (
        both (grouped x e1 g1) (
          both at_edge (
            both p (
              both (both (char _ e2 g2 _) nothing) (
                both
                  (grouped y e3 g3)
                  (both (both (char _ e4 g4 _) nothing) (both (grouped z e5 g5) (at_eol _))))))))) =
    let all = groups_then g5 (
      Reads-no_groups (star dot) refl z
      ∙ g4
      ∙ groups_then g3 (
          Reads-no_groups (star raw_delimiter) refl y
          ∙ g2
          ∙ Reads-no_groups raw_prefix refl p
          ∙ groups_then g1 (Reads-no_groups (lazy dot) refl x))) in
    omega (
      arith,
      ap length (group_or-group_text 1 m _ all),
      ap length (group_or-group_text 3 m _ all),
      length-take-le {A = ℕ},
      Reads-rest x,
      Reads-fewest raw_prefix p,
      Reads-rest y,
      Reads-rest z,
      ap length e1,
      ap length e2,
      ap length e3,
      ap length e4,
      ap length e5,
    )

end_raw-Agree :
    (f g : Text → Text × Option Text) (s head delimiter tail : Text)
    → Agree f g s
    → length head + 3 + length tail ≤ length s
    → end_raw f head delimiter tail ≡ end_raw g head delimiter tail
unfolding end_raw
end_raw-Agree f g s head delimiter tail h l = elim (Option-cases (find delimiter tail)) [
  | inl o ↦ rw (o, end_raw) refl
  | inr (i, o) ↦
      let left = drop (i + length delimiter) tail in
      rw (o, end_raw)
        (h (head ++ (text "\"\"" ++ left)) (
          omega (
            arith,
            l,
            length-append head (text "\"\"" ++ left),
            length-drop-le (i + length delimiter) tail,
          )))
]

open_raw_round-Agree :
    (f g : Text → Text × Option Text) (s : Text)
    → Agree f g s
    → open_raw_round f s ≡ open_raw_round g s
unfolding open_raw_round
open_raw_round-Agree f g s h = elim (Option-cases (match raw_string s)) [
  | inl o ↦ rw (o, open_raw_round) refl
  | inr (m, o) ↦ elim (Bool-cases (matches comment_before (group_or 1 m))) [
    | inl c ↦ rw (o, c, open_raw_round) refl
    | inr c ↦
        rw (o, c, open_raw_round)
          (end_raw-Agree f g s (group_or 1 m) (b')' ∷ (group_or 2 m ++ text "\"")) (group_or 3 m) h
            (raw_string-Reads s m (match-Reads raw_string s m o)))
  ]
]

-- The loop over the raw strings of a line ends before it has done one round more than the line has
-- characters: with more rounds allowed than that, its result is the same, whatever would be returned if
-- they ran out.
pub open_raw_strings-enough :
    (out other : Text → Text × Option Text) (n m : ℕ) (s : Text)
    → length s < n
    → length s < m
    → open_raw_strings out n s ≡ open_raw_strings other m s
unfolding open_raw_strings
open_raw_strings-enough out other zero m s h k = absurd (omega (arith, h))
open_raw_strings-enough out other (suc n) zero s h k = absurd (omega (arith, k))
open_raw_strings-enough out other (suc n) (suc m) s h k =
    open_raw_round-Agree (open_raw_strings out n) (open_raw_strings other m) s
      λ t l. open_raw_strings-enough out other n m t (omega (arith, h, l)) (omega (arith, k, l))
