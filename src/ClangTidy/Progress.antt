-- ===== src/ClangTidy/Progress.antt =====
-- Whether the pool comes to its end.
use cmu.Base.{
  ℕ, ◌+◌, ◌*◌, ◌<◌, ◌≤◌, ◌≡◌, refl, ap, ◌∙◌, ◌⊎◌, inl, inr, Bool, true, false, ◌&&◌, List, [], ◌∷◌,
  arith, length, length-append, Text,
}
use cmu.ClangTidy.{Pool, start, IsDone, Step, put, full, no_match, get, finish, Reaches, here, next}

module _ (name_matches : Text → Bool) (tidy_fails : Text → Bool) (max_task : ℕ) where
  abbrev pub all_match : List Text → Bool
  all_match [] = true
  all_match (name ∷ names) = name_matches name && all_match names

  -- A file that does not match is never put, so it stays with the main thread.
  Step-all_match :
      {s t : Pool}
      → Step name_matches tidy_fails max_task s t
      → all_match t.waiting ≡ all_match s.waiting
  Step-all_match (put name w q r f m l) = rw m refl
  Step-all_match (full name s w e m l) = refl
  Step-all_match (no_match name s w e m) = refl
  Step-all_match (get name w q r f l) = refl
  Step-all_match (finish name w q a b f) = refl

  Reaches-all_match :
      {s t : Pool}
      → Reaches name_matches tidy_fails max_task s t
      → all_match t.waiting ≡ all_match s.waiting
  Reaches-all_match here = refl
  Reaches-all_match (next h k) = Step-all_match k ∙ Reaches-all_match h

  -- If some file of the database does not match the expression of the command line, the pool is
  -- never done, however the threads run.
  pub no_match-never-IsDone :
      (files : List Text) (t : Pool)
      → all_match files ≡ false
      → Reaches name_matches tidy_fails max_task (start files) t
      → ¬ IsDone t
  no_match-never-IsDone files t e h (w, q, r) = cc (Reaches-all_match h, e, ap all_match w)

  -- what is left to do: each file is put, taken and finished
  abbrev pub work : Pool → ℕ
  work s = 3 * length s.waiting + (2 * length s.queue + length s.running)

  Step-work : {s t : Pool} → Step name_matches tidy_fails max_task s t → work t ≤ work s
  Step-work (put name w q r f m l) = omega (arith, length-append q (name ∷ []))
  Step-work (full name s w e m l) = omega arith
  Step-work (no_match name s w e m) = omega arith
  Step-work (get name w q r f l) = omega arith
  Step-work (finish name w q a b f) = omega (arith, length-append a b, length-append a (name ∷ b))

  abbrev pool : List Text → List Text → List Text → List Text → Pool
  pool w q r f = record { waiting = w; queue = q; running = r; failed_files = f }

  -- A pool whose files all match and that is not done can do a step that leaves less work.
  less_work :
      (waiting queue running failed_files : List Text)
      → 0 < max_task
      → all_match waiting ≡ true
      → IsDone (pool waiting queue running failed_files)
        ⊎ ((t : Pool) × Step name_matches tidy_fails max_task
              (pool waiting queue running failed_files)
              t
            × (work t < work (pool waiting queue running failed_files)))
  less_work w q (name ∷ r) f p m = inr (_, finish name w q [] r f, omega arith)
  less_work w (name ∷ q) [] f p m = inr (_, get name w q [] f p, omega arith)
  less_work (name ∷ w) [] [] f p m = inr (_, put name w [] [] f (ground arith) p, omega arith)
  less_work [] [] [] f p m = inl (refl, refl, refl)

  -- If there is a worker and every file of the database matches, then whatever the threads have done
  -- so far, the pool is done or some thread can do a step that leaves less work, and no step of a
  -- thread leaves more.
  pub Reaches-progress :
      (files : List Text) (t : Pool)
      → 0 < max_task
      → all_match files ≡ true
      → Reaches name_matches tidy_fails max_task (start files) t
      → (IsDone t ⊎ ((u : Pool) × Step name_matches tidy_fails max_task t u × (work u < work t)))
        × ((u : Pool) → Step name_matches tidy_fails max_task t u → work u ≤ work t)
  Reaches-progress files t p m h = (
    less_work t.waiting t.queue t.running t.failed_files p (Reaches-all_match h ∙ m),
    λ u k. Step-work k,
  )
