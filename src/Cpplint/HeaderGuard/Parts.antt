-- ===== src/Cpplint/HeaderGuard/Parts.antt =====
-- The loop that splits a path into its components, of build_support/cpplint.py.
use cmu.Base.{
  ℕ, zero, suc, ◌<◌, ◌≡◌, refl, inl, inr, Bool-cases, List, ◌∷◌, arith, length, Text, text_eq,
  text_eq_iff,
}
use cmu.PyOs.{dirname, basename}
use cmu.PyOs.Paths.{dirname-shorter}
use cmu.Cpplint.HeaderGuard.{path_split_round, path_split_from}

-- A round does the same with two loops behind it that agree on shorter paths.
path_split_round-Agree :
    (f g : Text → List Text → List Text) (path : Text) (found : List Text)
    → ((t : Text) (l : List Text) → length t < length path → f t l ≡ g t l)
    → path_split_round f path found ≡ path_split_round g path found
unfolding path_split_round
path_split_round-Agree f g path found h = elim (Bool-cases (text_eq (dirname path) path)) [
  | inl e ↦ rw (e, path_split_round) refl
  | inr e ↦ elim (Bool-cases (text_eq (basename path) path)) [
    | inl k ↦ rw (e, path_split_round) (rw (k, path_split_round) refl)
    | inr k ↦ elim (dirname-shorter path) [
      | inl same ↦ cc ((text_eq_iff (dirname path) path).1 same)
      | inr l ↦
          rw (e, path_split_round)
            (rw (k, path_split_round) (h (dirname path) (basename path ∷ found) l))
    ]
  ]
]

-- The loop of `PathSplitToList` ends before it has done one round more than the path has characters: with
-- more rounds allowed than that, the components are the same, whatever would be returned if they ran out.
pub path_split_from-enough :
    (out other : Text → List Text → List Text) (n m : ℕ) (path : Text) (found : List Text)
    → length path < n
    → length path < m
    → path_split_from out n path found ≡ path_split_from other m path found
unfolding path_split_from
path_split_from-enough out other zero m path found h k = absurd (omega (arith, h))
path_split_from-enough out other (suc n) zero path found h k = absurd (omega (arith, k))
path_split_from-enough out other (suc n) (suc m) path found h k =
    path_split_round-Agree (path_split_from out n) (path_split_from other m) path found
      λ t l s. path_split_from-enough out other n m t l (omega (arith, h, s)) (omega (arith, k, s))
