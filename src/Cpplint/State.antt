-- ===== src/Cpplint/State.antt =====
-- `_CppLintState` of build_support/cpplint.py: verbosity, filters, counts and the output. A method
-- returns the new state. What goes to the two streams and to the JUnit lists is kept in order.
pub mod Filters
pub mod Counts
pub mod Tally
mod Tests
use cmu.Base.{
  ℕ, zero, suc, ◌+◌, Bool, true, false, not, ◌&&◌, ◌||◌, Option, none, some, List, [], ◌∷◌, ◌++◌,
  ltb, ◌==◌, if◌then◌else◌, drop, Text, text, text_eq,
}
use cmu.PyText.{starts_with, split, strip, text_lt}
use cmu.Cpplint.Categories.{default_filters}
use cmu.Cpplint.Report.{Report, decimal}
use cmu.Cpplint.Suppress.{Suppressions, is_error_suppressed_by_nolint}

-- the values that `ParseArguments` lets through for `--counting` and `--output`
pub data Counting : Type 0 where
  total toplevel detailed : Counting

pub data Format : Type 0 where
  emacs eclipse vs7 junit : Format

abbrev pub Counts : Type 0
Counts = List (Text × ℕ)

pub record LintState : Type 0 where
  pub verbose_level : ℕ
  pub error_count : ℕ
  pub filters : List Text
  pub filters_backup : List Text
  pub counting : Counting
  pub errors_by_category : Counts
  pub quiet : Bool
  pub output_format : Format
  pub junit_errors : List Text
  pub junit_failures : List Report
  pub stdout : List Text
  pub stderr : List Text

-- `__init__`
abbrev pub initial : LintState
initial = record {
  verbose_level = 1;
  error_count = 0;
  filters = default_filters;
  filters_backup = default_filters;
  counting = total;
  errors_by_category = [];
  quiet = false;
  output_format = emacs;
  junit_errors = [];
  junit_failures = [];
  stdout = [];
  stderr = [];
}

-- `SetOutputFormat`
abbrev pub set_output_format : Format → LintState → LintState
set_output_format f s = record s { output_format = f }

-- `SetQuiet` and `SetVerboseLevel` return the setting before.
abbrev pub set_quiet : Bool → LintState → LintState × Bool
set_quiet q s = (record s { quiet = q }, s.quiet)

abbrev pub set_verbose_level : ℕ → LintState → LintState × ℕ
set_verbose_level v s = (record s { verbose_level = v }, s.verbose_level)

-- `SetCountingStyle`
abbrev pub set_counting_style : Counting → LintState → LintState
set_counting_style c s = record s { counting = c }

-- the first loop of `AddFilters`
clean_filters : List Text → List Text
unfolding strip
clean_filters [] = []
clean_filters (f ∷ fs) =
    let rest = clean_filters fs in
    let clean = strip f in if text_eq clean [] then rest else clean ∷ rest

-- `filt.startswith('+') or filt.startswith('-')`
abbrev pub has_sign : Text → Bool
has_sign f = starts_with (text "+") f || starts_with (text "-") f

-- the second loop of `AddFilters`: the first filter without a sign, which is in the ValueError
first_unsigned : List Text → Option Text
unfolding starts_with
first_unsigned [] = none
first_unsigned (f ∷ fs) = let rest = first_unsigned fs in if has_sign f then rest else some f

-- `AddFilters`; the second part is the message of the ValueError, if one is raised, and then the
-- filters stay added.
unfoldable pub add_filters : Text → LintState → LintState × Option Text
unfolding clean_filters first_unsigned split text_eq
add_filters filters s =
    let all = s.filters ++ clean_filters (split b',' filters) in
    (
      record s { filters = all },
      elim (first_unsigned all) [
        | none ↦ none
        | some f ↦
            some
              (text "Every filter in --filters must start with + or - (" ++ f ++ text " does not)")
      ],
    )

-- `SetFilters`
unfoldable pub set_filters : Text → LintState → LintState × Option Text
unfolding add_filters
set_filters filters s = add_filters filters (record s { filters = default_filters })

-- `BackupFilters` and `RestoreFilters`
unfoldable pub backup_filters : LintState → LintState
backup_filters s = record s { filters_backup = s.filters }

unfoldable pub restore_filters : LintState → LintState
restore_filters s = record s { filters = s.filters_backup }

-- `ResetErrorCounts`
unfoldable pub reset_error_counts : LintState → LintState
reset_error_counts s = record s { error_count = 0; errors_by_category = [] }

abbrev first_text : List Text → Text
first_text [] = []
first_text (t ∷ ts) = t

-- the key under which a category is counted: `category.split('/')[0]`, unless in detail
unfoldable pub count_key : Counting → Text → Option Text
unfolding split
count_key total category = none
count_key toplevel category = some (first_text (split b'/' category))
count_key detailed category = some category

-- `errors_by_category[category] += 1`, with 0 for a new category
unfoldable pub bump : Text → Counts → Counts
unfolding text_eq
bump c [] = (c, 1) ∷ []
bump c ((d, n) ∷ counts) = if text_eq c d then (d, n + 1) ∷ counts else (d, n) ∷ bump c counts

-- the update of `errors_by_category`, where the errors are counted by category
bump_key : Option Text → Counts → Counts
unfolding bump
bump_key none counts = counts
bump_key (some key) counts = bump key counts

-- `IncrementErrorCount`
unfoldable pub increment_error_count : Text → LintState → LintState
unfolding count_key bump_key
increment_error_count category s = record s {
  error_count = s.error_count + 1;
  errors_by_category = bump_key (count_key s.counting category) s.errors_by_category;
}

is_junit : Format → Bool
is_junit junit = true
is_junit _ = false

-- `PrintInfo`; the flag is the module's `_quiet`
unfoldable pub print_info : Bool → Text → LintState → LintState
unfolding is_junit
print_info module_quiet message s =
    if not module_quiet && not (is_junit s.output_format)
    then record s { stdout = s.stdout ++ message ∷ [] }
    else s

-- `PrintError`
unfoldable pub print_error : Text → LintState → LintState
unfolding is_junit
print_error message s =
    if is_junit s.output_format
    then record s { junit_errors = s.junit_errors ++ message ∷ [] }
    else record s { stderr = s.stderr ++ message ∷ [] }

insert_count : Text × ℕ → Counts → Counts
unfolding text_lt
insert_count e [] = e ∷ []
insert_count e (d ∷ counts) = if text_lt d.0 e.0 then d ∷ insert_count e counts else e ∷ d ∷ counts

-- `sorted` of the items; the keys are distinct, so the counts are never compared
sort_counts : Counts → Counts
unfolding insert_count
sort_counts [] = []
sort_counts (e ∷ counts) = insert_count e (sort_counts counts)

print_counts : Bool → Counts → LintState → LintState
unfolding print_info decimal
print_counts quiet [] s = s
print_counts quiet ((category, count) ∷ counts) s = print_counts quiet counts (
    print_info quiet
      (text "Category '" ++ category ++ text "' errors found: " ++ decimal count ++ text "\n") s)

-- `PrintErrorCounts`
unfoldable pub print_error_counts : Bool → LintState → LintState
unfolding print_counts sort_counts
print_error_counts module_quiet s =
    let printed = print_counts module_quiet (sort_counts s.errors_by_category) s in
    if ltb 0 printed.error_count
    then print_info module_quiet
        (text "Total errors found: " ++ decimal printed.error_count ++ text "\n") printed
    else printed

-- the loop of `_ShouldPrintError`; `none` is the failure of `assert False`
is_filtered_from : Bool → List Text → Text → Option Bool
unfolding starts_with
is_filtered_from filtered [] category = some filtered
is_filtered_from filtered (f ∷ fs) category =
    let minus =
      is_filtered_from (if starts_with (drop 1 f) category then true else filtered) fs category in
    let plus =
      is_filtered_from (if starts_with (drop 1 f) category then false else filtered) fs category in
    if starts_with (text "-") f then minus else if starts_with (text "+") f then plus else none

-- `_ShouldPrintError`
unfoldable pub should_print_error : Text → ℕ → ℕ → Suppressions → LintState → Option Bool
unfolding is_filtered_from is_error_suppressed_by_nolint
should_print_error category confidence linenum suppressions s =
    if is_error_suppressed_by_nolint category linenum suppressions
    then some false
    else if ltb confidence s.verbose_level
    then some false
    else elim (is_filtered_from false s.filters category) [
      | none ↦ none
      | some filtered ↦ some (not filtered)
    ]

-- the texts of `Error`, one for each output format
pub vs7_message : Report → Text
unfolding decimal
vs7_message r =
    r.filename
    ++ text "("
    ++ decimal r.linenum
    ++ text "): error cpplint: ["
    ++ r.category
    ++ text "] "
    ++ r.message
    ++ text " ["
    ++ decimal r.confidence
    ++ text "]\n"

pub eclipse_message : Report → Text
unfolding decimal
eclipse_message r =
    r.filename
    ++ text ":"
    ++ decimal r.linenum
    ++ text ": warning: "
    ++ r.message
    ++ text "  ["
    ++ r.category
    ++ text "] ["
    ++ decimal r.confidence
    ++ text "]\n"

pub emacs_message : Report → Text
unfolding decimal
emacs_message r =
    r.filename
    ++ text ":"
    ++ decimal r.linenum
    ++ text ":  "
    ++ r.message
    ++ text "  ["
    ++ r.category
    ++ text "] ["
    ++ decimal r.confidence
    ++ text "]\n"

-- how `Error` writes a report in each format
pub emit : Format → Report → LintState → LintState
unfolding vs7_message eclipse_message emacs_message print_error
emit vs7 r s = print_error (vs7_message r) s
emit eclipse r s = record s { stderr = s.stderr ++ eclipse_message r ∷ [] }
emit junit r s = record s { junit_failures = s.junit_failures ++ r ∷ [] }
emit emacs r s = record s { stderr = s.stderr ++ emacs_message r ∷ [] }

-- `Error`; `none` is the failed assertion of `_ShouldPrintError`
unfoldable pub error : Suppressions → Report → LintState → Option LintState
unfolding should_print_error increment_error_count emit
error suppressions r s =
    elim (should_print_error r.category r.confidence r.linenum suppressions s) [
      | none ↦ none
      | some false ↦ some s
      | some true ↦
          let counted = increment_error_count r.category s in
          some (emit counted.output_format r counted)
    ]

-- the calls of a check, one after the other
unfoldable pub error_all : Suppressions → List Report → LintState → Option LintState
unfolding error
error_all suppressions [] s = some s
error_all suppressions (r ∷ rs) s = elim (error suppressions r s) [
  | none ↦ none
  | some s' ↦ error_all suppressions rs s'
]
