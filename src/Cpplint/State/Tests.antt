-- ===== src/Cpplint/State/Tests.antt =====
-- Runs of the lint state.
use cmu.Base.{
  ◌≡◌, ◌↔◌, ◌+◌, ◌++◌, refl, true, false, not, ◌&&◌, some, none, leb, List, [], ◌∷◌, Text, text,
}
use cmu.PyText.{split, join, starts_with, strip, contains}
use cmu.Cpplint.Categories.{default_filters}
use cmu.Cpplint.Report.{Report, report}
use cmu.Cpplint.Suppress.{Suppressions, is_error_suppressed_by_nolint}
use cmu.Cpplint.State.{
  LintState, initial, add_filters, set_filters, should_print_error, error_all, toplevel, eclipse,
}
use cmu.Cpplint.State.Filters.{
  AllSigned, AllPlain, Each, IsSigned, IsBlankOrSigned, excludes, last_match,
  should_print_error_lem, add_filters-AllSigned, set_filters-join,
}
use cmu.Cpplint.State.Tally.{count_of, printed, counted, length, lines, failures}
use cmu.Cpplint.State.Counts.{error_all-counts, error_all-output}

abbrev nothing : Suppressions
nothing = record { by_line = []; whole_file = [] }

-- All of `runtime` but `runtime/int` is left out.
abbrev strict : LintState
strict = record initial {
  filters = text "-runtime" ∷ text "+runtime/int" ∷ [];
  counting = toplevel;
  output_format = eclipse;
}

abbrev reports : List Report
reports =
    report (text "a.cc") 3 "runtime/int" 4 (text "Use int16")
    ∷ report (text "a.cc") 4 "runtime/printf" 4 (text "Use snprintf")
    ∷ report (text "a.cc") 9 "build/include" 4 (text "Twice")
    ∷ []

strict-AllSigned : AllSigned strict.filters
unfolding starts_with
strict-AllSigned = (refl, (refl, tt))

two-AllPlain : AllPlain (text "-build" ∷ text "+runtime/int" ∷ [])
unfolding starts_with strip contains
two-AllPlain = ((refl, refl, refl), ((refl, refl, refl), tt))

should_print_error_lem_example :
    should_print_error (text "runtime/int") 4 3 nothing strict
    ≡ some (
        not (is_error_suppressed_by_nolint (text "runtime/int") 3 nothing)
        && leb 1 4
        && not (excludes (last_match (text "runtime/int") strict.filters)))
should_print_error_lem_example =
    should_print_error_lem (text "runtime/int") 4 3 nothing strict strict-AllSigned

add_filters-AllSigned_example :
    ((add_filters (text "-a, b") strict).1 ≡ none)
    ↔ (Each IsSigned strict.filters × Each IsBlankOrSigned (split b',' (text "-a, b")))
add_filters-AllSigned_example = add_filters-AllSigned (text "-a, b") strict

set_filters-join_example : set_filters (text "-build,+runtime/int") strict ≡ (
  record strict { filters = default_filters ++ text "-build" ∷ text "+runtime/int" ∷ [] },
  none,
)
unfolding join
set_filters-join_example =
    set_filters-join (text "-build") (text "+runtime/int" ∷ []) strict two-AllPlain

error_all-counts_example :
    (t : LintState) × (error_all nothing reports strict ≡ some t)
    × (t.error_count ≡ 0 + length (printed nothing strict reports))
    × ((c : Text)
        → count_of c t.errors_by_category
          ≡ count_of c [] + counted toplevel c (printed nothing strict reports))
error_all-counts_example = error_all-counts nothing reports strict strict-AllSigned

error_all-output_example :
    (t : LintState) × (error_all nothing reports strict ≡ some t)
    × (t.stderr ≡ [] ++ lines eclipse (printed nothing strict reports))
    × (t.junit_failures ≡ [] ++ failures eclipse (printed nothing strict reports))
error_all-output_example = error_all-output nothing reports strict strict-AllSigned

test_add_filters_unsigned :
    (add_filters (text "-a, b") strict).1
    ≡ some (text "Every filter in --filters must start with + or - (b does not)")
unfolding add_filters
test_add_filters_unsigned = refl

test_last_filter : should_print_error (text "runtime/int") 4 3 nothing strict ≡ some true
unfolding should_print_error
test_last_filter = refl

test_filtered : should_print_error (text "runtime/printf") 4 3 nothing strict ≡ some false
unfolding should_print_error
test_filtered = refl
