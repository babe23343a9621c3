-- ===== src/ClangTidy/Tests.antt =====
-- Runs of the pool of run_clang_tidy.py, with one worker.
use cmu.Base.{
  ◌<◌, ◌≤◌, ◌≡◌, ◌⊎◌, refl, Bool, true, not, some, none, arith, List, [], ◌∷◌, Text, text, text_eq,
}
use cmu.ClangTidy.{
  Pool, start, IsDone, return_code, Step, put, get, finish, Reaches, here, next, should_skip,
  run_tidy, make_absolute, get_tidy_invocation,
}
use cmu.ClangTidy.Failures.{occurs, failing, failed_files-occurs}
use cmu.ClangTidy.Progress.{work, no_match-never-IsDone, Reaches-progress}

abbrev a : Text
a = text "/x/a.cpp"

abbrev b : Text
b = text "/x/third_party/b.cpp"

abbrev all : Text → Bool
all name = true

abbrev not_b : Text → Bool
not_b name = not (text_eq name b)

abbrev pool : List Text → List Text → List Text → List Text → Pool
pool w q r f = record { waiting = w; queue = q; running = r; failed_files = f }

-- `a` fails, and `b` is skipped.
done : Reaches all all 1 (start (a ∷ b ∷ [])) (pool [] [] [] (a ∷ []))
unfolding run_tidy should_skip
done =
    next
      (next
        (next
          (next
            (next (next here (put a (b ∷ []) [] [] [] refl (omega arith)))
              (get a (b ∷ []) [] [] [] (omega arith)))
            (put b [] [] (a ∷ []) [] refl (omega arith)))
          (finish a [] (b ∷ []) [] [] []))
        (get b [] [] [] (a ∷ []) (omega arith)))
      (finish b [] [] [] [] (a ∷ []))

failed_files-occurs_example :
    ((x : Text) → occurs x (a ∷ []) ≡ occurs x (failing all all 1 (a ∷ b ∷ [])))
    × (return_code (a ∷ []) ≡ 1)
unfolding should_skip
failed_files-occurs_example =
    failed_files-occurs all all 1 (a ∷ b ∷ []) (pool [] [] [] (a ∷ [])) done (refl, refl, refl)

put_a : Reaches all all 1 (start (a ∷ b ∷ [])) (pool (b ∷ []) (a ∷ []) [] [])
put_a = next here (put a (b ∷ []) [] [] [] refl (omega arith))

Reaches-progress_example :
    let t = pool (b ∷ []) (a ∷ []) [] [] in
    (IsDone t ⊎ ((u : Pool) × Step all all 1 t u × (work all all 1 u < work all all 1 t)))
    × ((u : Pool) → Step all all 1 t u → work all all 1 u ≤ work all all 1 t)
Reaches-progress_example =
    Reaches-progress all all 1 (a ∷ b ∷ []) (pool (b ∷ []) (a ∷ []) [] []) (omega arith) refl put_a

without_b : Reaches not_b all 1 (start (a ∷ b ∷ [])) (pool (b ∷ []) (a ∷ []) [] [])
unfolding text_eq
without_b = next here (put a (b ∷ []) [] [] [] refl (omega arith))

no_match-never-IsDone_example : ¬ IsDone (pool (b ∷ []) (a ∷ []) [] [])
unfolding text_eq
no_match-never-IsDone_example =
    no_match-never-IsDone not_b all 1 (a ∷ b ∷ []) (pool (b ∷ []) (a ∷ []) [] []) refl without_b

test_skip : should_skip b ≡ true
unfolding should_skip
test_skip = refl

test_make_absolute : make_absolute (text "../s/a.cpp") (text "/r/build") ≡ text "/r/s/a.cpp"
unfolding make_absolute
test_make_absolute = refl

test_invocation :
    get_tidy_invocation a none (text "/r") (record {
      clang_tidy_binary = text "clang-tidy";
      header_filter = none;
      checks = some [];
      extra_arg = text "-O2" ∷ [];
      extra_arg_before = [];
      quiet = true;
      config = none;
    })
    ≡ text "clang-tidy" ∷ text "-extra-arg=-O2" ∷ text "-p=/r" ∷ text "-quiet" ∷ a ∷ []
unfolding get_tidy_invocation
test_invocation = refl
