-- ===== src/Cpplint/Suppress/Tests.antt =====
-- Runs of the suppressions.
use cmu.Base.{◌≡◌, refl, true, some, [], ◌∷◌, ◌||◌, text}
use cmu.Regex.{search_all}
use cmu.Cpplint.Categories.{error_categories}
use cmu.Cpplint.Report.{report}
use cmu.Cpplint.Suppress.{
  Suppressions, nolint, parse_nolint_suppressions, process_global_suppresions,
  reset_nolint_suppressions, is_error_suppressed_by_nolint,
}
use cmu.Cpplint.Suppress.Covers.{
  covers, any_marks, parse_nolint_suppressions_lem, process_global_suppresions_lem,
}

abbrev nothing : Suppressions
nothing = record { by_line = []; whole_file = [] }

-- `// NOLINTNEXTLINE(build/c++11)` on line 7, asked for on line 8
parse_nolint_suppressions_lem_example :
    is_error_suppressed_by_nolint
      (text "build/c++11")
      8
      (parse_nolint_suppressions (text "a.cc") (text "// NOLINTNEXTLINE(build/c++11)") 7 nothing).0
    ≡ (is_error_suppressed_by_nolint (text "build/c++11") 8 nothing
        || covers
            (search_all nolint (text "// NOLINTNEXTLINE(build/c++11)"))
            7
            (text "build/c++11")
            8)
parse_nolint_suppressions_lem_example =
    parse_nolint_suppressions_lem (text "a.cc") (text "// NOLINTNEXTLINE(build/c++11)") 7 nothing
      (text "build/c++11") 8

process_global_suppresions_lem_example :
    is_error_suppressed_by_nolint (text "readability/casting") 3 (
      process_global_suppresions
        (text "// vim: filetype=c" ∷ text "x" ∷ [])
        (reset_nolint_suppressions nothing))
    ≡ any_marks (text "readability/casting") (text "// vim: filetype=c" ∷ text "x" ∷ [])
process_global_suppresions_lem_example =
    process_global_suppresions_lem (text "// vim: filetype=c" ∷ text "x" ∷ []) nothing
      (text "readability/casting") 3

test_next_line :
    (parse_nolint_suppressions (text "a.cc") (text "// NOLINTNEXTLINE(build/c++11)") 7 nothing).0
    ≡ record { by_line = (some (text "build/c++11"), 8 ∷ []) ∷ []; whole_file = [] }
unfolding parse_nolint_suppressions search_all error_categories
test_next_line = refl

test_unknown : parse_nolint_suppressions (text "a.cc") (text "x; // NOLINT(foo)") 7 nothing ≡ (
  nothing,
  report (text "a.cc") 7 "readability/nolint" 5 (text "Unknown NOLINT error category: foo") ∷ [],
)
unfolding parse_nolint_suppressions search_all error_categories
test_unknown = refl

test_c_file :
    is_error_suppressed_by_nolint
      (text "readability/casting")
      3
      (process_global_suppresions (text "// vim: filetype=c" ∷ []) nothing)
    ≡ true
unfolding is_error_suppressed_by_nolint process_global_suppresions
test_c_file = refl
