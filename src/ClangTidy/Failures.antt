-- ===== src/ClangTidy/Failures.antt =====
-- Which files have failed when the pool is done, in whatever order the threads ran.
use cmu.Base.{
  ℕ, ◌+◌, ◌≡◌, refl, ap, ◌∙◌, Bool, false, not, ◌&&◌, ◌||◌, List, [], ◌∷◌, ◌++◌, arith,
  if◌then◌else◌, Text, text_eq, text_eq_iff,
}
use cmu.ClangTidy.{
  should_skip, Pool, start, IsDone, return_code, run_tidy, Step, put, full, no_match, get, finish,
  Reaches, here, next,
}

-- how often a name is in a list
abbrev pub occurs : Text → List Text → ℕ
occurs x [] = 0
occurs x (y ∷ ys) = (if text_eq x y then 1 else 0) + occurs x ys

occurs-append : (x : Text) (ys zs : List Text) → occurs x (ys ++ zs) ≡ occurs x ys + occurs x zs
occurs-append x [] zs = omega arith
occurs-append x (y ∷ ys) zs = omega (arith, occurs-append x ys zs)

return_code-occurs :
    (xs ys : List Text) → ((x : Text) → occurs x xs ≡ occurs x ys) → return_code xs ≡ return_code ys
return_code-occurs [] [] h = refl
return_code-occurs (x ∷ xs) (y ∷ ys) h = refl
return_code-occurs (x ∷ xs) [] h = ground (arith, h x, text_eq_iff x x)
return_code-occurs [] (y ∷ ys) h = ground (arith, h y, text_eq_iff y y)

module _ (name_matches : Text → Bool) (tidy_fails : Text → Bool) (max_task : ℕ) where
  -- clang-tidy is run on the file, and fails.
  abbrev pub fails : Text → Bool
  fails name = not (should_skip name) && tidy_fails name

  abbrev pub failing : List Text → List Text
  failing [] = []
  failing (name ∷ names) = let rest = failing names in if fails name then name ∷ rest else rest

  -- some file of a list fails
  abbrev pub any_fails : List Text → Bool
  any_fails [] = false
  any_fails (name ∷ names) = fails name || any_fails names

  return_code-failing :
      (names : List Text) → return_code (failing names) ≡ (if any_fails names then 1 else 0)
  return_code-failing [] = refl
  return_code-failing (name ∷ names) = ground (arith, return_code-failing names)

  abbrev tally : Text → List Text → ℕ
  tally x names = occurs x (failing names)

  tally-append : (x : Text) (ys zs : List Text) → tally x (ys ++ zs) ≡ tally x ys + tally x zs
  tally-append x [] zs = omega arith
  tally-append x (y ∷ ys) zs = ground (arith, tally-append x ys zs)

  tally-cons : (x y : Text) (ys : List Text) → tally x (y ∷ ys) ≡ tally x (y ∷ []) + tally x ys
  tally-cons x y ys = tally-append x (y ∷ []) ys

  run_tidy-tally :
      (x name : Text) (failed : List Text)
      → occurs x (run_tidy name_matches tidy_fails max_task name failed)
        ≡ occurs x failed + tally x (name ∷ [])
  unfolding run_tidy
  run_tidy-tally x name failed = ground (arith, occurs-append x failed (name ∷ []))

  -- A failing file is in one place: failed, at hand, in the queue, or still to be put.
  abbrev total : Text → Pool → ℕ
  total x s = occurs x s.failed_files + (tally x s.running + (tally x s.queue + tally x s.waiting))

  Step-total :
      (x : Text) {s t : Pool} → Step name_matches tidy_fails max_task s t → total x t ≡ total x s
  Step-total x (put name w q r f m l) =
      omega (arith, tally-cons x name w, tally-append x q (name ∷ []))
  Step-total x (full name s w e m l) = refl
  Step-total x (no_match name s w e m) = refl
  Step-total x (get name w q r f l) = omega (arith, tally-cons x name q, tally-cons x name r)
  Step-total x (finish name w q a b f) = omega (
    arith,
    run_tidy-tally x name f,
    tally-append x a b,
    tally-append x a (name ∷ b),
    tally-cons x name b,
  )

  Reaches-total :
      (x : Text) {s t : Pool} → Reaches name_matches tidy_fails max_task s t → total x t ≡ total x s
  Reaches-total x here = refl
  Reaches-total x (next h k) = Step-total x k ∙ Reaches-total x h

  -- However the threads run, once the pool is done each file has been added to the failed ones as
  -- often as the database names it, if it is not skipped and clang-tidy fails on it, and never if not;
  -- and the return code is 1 if the database names such a file, and else 0.
  pub failed_files-occurs :
      (files : List Text) (t : Pool)
      → Reaches name_matches tidy_fails max_task (start files) t
      → IsDone t
      → ((x : Text) → occurs x t.failed_files ≡ occurs x (failing files))
        × (return_code t.failed_files ≡ (if any_fails files then 1 else 0))
  failed_files-occurs files t h (w, q, r) =
      let each : (x : Text) → occurs x t.failed_files ≡ occurs x (failing files) =
        λ x. omega (arith, Reaches-total x h, ap (tally x) w, ap (tally x) q, ap (tally x) r) in
      (each, return_code-occurs t.failed_files (failing files) each ∙ return_code-failing files)
