-- ===== src/Cpplint/HeaderGuard/Tests.antt =====
-- Runs of the variables of header guards.
use cmu.Base.{◌≡◌, ◌<◌, refl, arith, List, length, [], ◌∷◌, Text, text}
use cmu.Cpplint.Report.{report, call, parse_nolint}
use cmu.Cpplint.HeaderGuard.{path_split_from, path_split_to_list, get_header_guard_cpp_variable}
use cmu.Cpplint.HeaderGuard.Variable.{AllGuard, get_header_guard_cpp_variable-AllGuard}
use cmu.Cpplint.HeaderGuard.Parts.{path_split_from-enough}
use cmu.Cpplint.HeaderGuard.Check.{check_for_header_guard}

test_absolute :
    path_split_to_list (text "/a/b/c/") ≡ text "/" ∷ text "a" ∷ text "b" ∷ text "c" ∷ [] ∷ []
unfolding path_split_to_list
test_absolute = refl

test_relative : path_split_to_list (text "../a") ≡ text ".." ∷ text "a" ∷ []
unfolding path_split_to_list
test_relative = refl

test_variable :
    get_header_guard_cpp_variable
      (λ f. f)
      (λ f. f)
      (λ f. f)
      (text "src/include")
      (text "src/include/buffer/lru-replacer.h")
    ≡ text "BUFFER_LRU_REPLACER_H_"
unfolding get_header_guard_cpp_variable
test_variable = refl

get_header_guard_cpp_variable-AllGuard_example :
    AllGuard
      (get_header_guard_cpp_variable (λ f. f) (λ f. f) (λ f. f) (text "src") (text "src/a-b.h"))
get_header_guard_cpp_variable-AllGuard_example =
    get_header_guard_cpp_variable-AllGuard (λ f. f) (λ f. f) (λ f. f) (text "src")
      (text "src/a-b.h")

abbrev path : Text
path = text "/a/b/c/"

path-short : length path < 8
path-short = omega arith

path-shorter : length path < 30
path-shorter = omega arith

path_split_from-enough_example :
    path_split_from (λ _ found. found) 8 path [] ≡ path_split_from (λ _ _. []) 30 path []
path_split_from-enough_example =
    path_split_from-enough (λ _ found. found) (λ _ _. []) 8 30 path [] path-short path-shorter

abbrev header : List Text
header = text "// marker" ∷ text "#ifndef A_H_" ∷ text "#define A_H_" ∷ text "#endif  // B_H_" ∷ []

test_endif :
    check_for_header_guard (text "a.h") (text "A_H_") header
    ≡ parse_nolint (text "#endif  // B_H_") 3
      ∷ call (
          report
            (text "a.h")
            3
            "build/header_guard"
            5
            (text "#endif line should be \"#endif  // A_H_\""))
      ∷ []
unfolding check_for_header_guard
test_endif = refl
