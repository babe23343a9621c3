-- ===== src/Cpplint/Constructors/Arguments.antt =====
-- How the arguments of a constructor are put together, of build_support/cpplint.py.
use mathlib.Core.Path.{subst}
use cmu.Base.{
  sym, ◌≡◌, ◌≤◌, ◌<◌, refl, ap, ◌⊎◌, inl, inr, true, false, Bool-cases, Option, none, some, List,
  [], ◌∷◌, ◌++◌, arith, Text, text,
}
use cmu.PyText.{count}
use cmu.Cpplint.Constructors.{is_unclosed, cons_to, collapse_argument, collapse_arguments}

-- A text with more `<` than `>` or more `(` than `)`, and one with neither.
abbrev pub Unclosed : Text → Type 0
Unclosed arg =
    (count (text ">") arg < count (text "<") arg) ⊎ (count (text ")") arg < count (text "(") arg)

abbrev pub Closed : Text → Type 0
Closed arg =
    (count (text "<") arg ≤ count (text ">") arg) × (count (text "(") arg ≤ count (text ")") arg)

-- a text and those behind it, with commas between
abbrev pub joined : Text → List Text → Text
joined arg [] = arg
joined arg (next ∷ args) = joined (arg ++ b',' ∷ next) args

-- The text is unclosed with each number of those behind it, but closed with all of them.
pub IsPart : Text → List Text → Type 0
IsPart arg [] = Closed arg
IsPart arg (next ∷ args) = Unclosed arg × IsPart (arg ++ b',' ∷ next) args

-- The text is unclosed with each number of those behind it, up to all of them.
pub StaysUnclosed : Text → List Text → Type 0
StaysUnclosed arg [] = Unclosed arg
StaysUnclosed arg (next ∷ args) = Unclosed arg × StaysUnclosed (arg ++ b',' ∷ next) args

-- The texts of a list, put together to parts, each of which takes the fewest texts with which it is
-- closed; none, if the texts end before a part is closed.
pub data IsCollapse : List Text → Option (List Text) → Type 0 where
  ends : IsCollapse [] (some [])
  part :
      (arg : Text) (more rest : List Text) (out : Option (List Text))
      → IsPart arg more
      → IsCollapse rest out
      → IsCollapse (arg ∷ (more ++ rest)) (cons_to (joined arg more) out)
  never_closed :
      (arg : Text) (more : List Text) → StaysUnclosed arg more → IsCollapse (arg ∷ more) none

is_unclosed-Unclosed : (arg : Text) → is_unclosed arg ≡ true → Unclosed arg
unfolding is_unclosed
is_unclosed-Unclosed arg h = ground arith

is_unclosed-Closed : (arg : Text) → is_unclosed arg ≡ false → Closed arg
unfolding is_unclosed
is_unclosed-Closed arg h = ground arith

-- What is read from one argument on, which may be joined from several: a part and what is behind it, or
-- no part.
abbrev Reading : Text → List Text → Option (List Text) → Type 0
Reading arg args o =
    ((more : List Text) × (rest : List Text) × (out : Option (List Text)) × (args ≡ more ++ rest)
      × IsPart arg more
      × IsCollapse rest out
      × (o ≡ cons_to (joined arg more) out))
    ⊎ (StaysUnclosed arg args × (o ≡ none))

Reading-IsCollapse :
    (arg : Text) (args : List Text) (o : Option (List Text))
    → Reading arg args o
    → IsCollapse (arg ∷ args) o
Reading-IsCollapse arg args o (inl (more, rest, out, e, p, c, r)) =
    subst (λ x. IsCollapse (arg ∷ args) x) (sym r)
      (subst (λ x. IsCollapse (arg ∷ x) (cons_to (joined arg more) out)) (sym e)
        (part arg more rest out p c))
Reading-IsCollapse arg args o (inr (u, r)) =
    subst (λ x. IsCollapse (arg ∷ args) x) (sym r) (never_closed arg args u)

collapse_argument-Reading :
    (arg : Text) (args : List Text) → Reading arg args (collapse_argument arg args)
unfolding collapse_argument IsPart StaysUnclosed
collapse_argument-Reading arg [] = elim (Bool-cases (is_unclosed arg)) [
  | inl e ↦ rw (e, collapse_argument) (inr (is_unclosed-Unclosed arg e, refl))
  | inr e ↦
      rw (e, collapse_argument) (inl ([], [], some [], refl, is_unclosed-Closed arg e, ends, refl))
]
collapse_argument-Reading arg (next ∷ args) = elim (Bool-cases (is_unclosed arg)) [
  | inl e ↦
      rw (e, collapse_argument)
        (elim (collapse_argument-Reading (arg ++ b',' ∷ next) args) [
          | inl (more, rest, out, f, p, c, r) ↦
              inl (next ∷ more, rest, out, ap (◌∷◌ next) f, (is_unclosed-Unclosed arg e, p), c, r)
          | inr (u, r) ↦ inr ((is_unclosed-Unclosed arg e, u), r)
        ])
  | inr e ↦
      rw (e, collapse_argument)
        (inl (
          [],
          next ∷ args,
          collapse_argument next args,
          refl,
          is_unclosed-Closed arg e,
          Reading-IsCollapse next args _ (collapse_argument-Reading next args),
          refl,
        ))
]

-- The arguments of a constructor that were split at commas are put together, with the commas, to parts
-- in order: a part takes the next argument, and then as few of those behind it as are needed for it to
-- have no more `<` than `>` and no more `(` than `)`. The check fails with an IndexError exactly if the
-- arguments end before that for some part.
pub collapse_arguments_lem : (args : List Text) → IsCollapse args (collapse_arguments args)
collapse_arguments_lem [] = ends
collapse_arguments_lem (arg ∷ args) =
    Reading-IsCollapse arg args _ (collapse_argument-Reading arg args)
