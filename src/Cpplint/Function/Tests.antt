-- ===== src/Cpplint/Function/Tests.antt =====
-- Runs of the size check of functions.
use cmu.Base.{true, ◌≡◌, ◌⊎◌, ◌≤◌, ◌<◌, ◌*◌, ◌^◌, refl, [], ◌∷◌, text}
use cmu.PyText.{starts_with}
use cmu.Cpplint.Report.{Report}
use cmu.Cpplint.Function.{
  initial, begin_function, base_trigger, check_function, log_ratio, log2_ratio,
}
use cmu.Cpplint.Function.Size.{count_lines, IsLevel, check_function_lem}

check_function_lem_example :
    let r =
      check_function 0 (text "a.cc") 900 (count_lines 300 (begin_function (text "Run") initial)) in
    ((300 ≤ 250 * 2 ^ 0) × (r ≡ []))
    ⊎ ((250 * 2 ^ 0 < 300) × ((x : Report) × (r ≡ x ∷ []) × IsLevel 250 300 x.confidence))
unfolding starts_with
check_function_lem_example = check_function_lem 0 300 900 (text "a.cc") (text "Run") initial

-- A test may be longer.
test_test_trigger :
    check_function 0
      (text "a.cc")
      900
      (record { in_a_function = true; lines_in_function = 400; current_function = text "TestRun" })
    ≡ []
unfolding check_function base_trigger
test_test_trigger = refl

test_log2_ratio : log2_ratio 20 3 ≡ 2
unfolding log_ratio
test_log2_ratio = refl
