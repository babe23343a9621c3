-- ===== src/Cpplint/Function.antt =====
-- `_FunctionState` of build_support/cpplint.py: the function at hand and the lines of its body.
pub mod Size
mod Tests
use cmu.Base.{
  ℕ, zero, suc, ◌+◌, ◌*◌, ◌^◌, Bool, true, false, not, List, [], ◌∷◌, ◌++◌, ltb, leb, if◌then◌else◌,
  Text, text,
}
use cmu.Regex.{Re, lit, alt, cat, matches}
use cmu.Cpplint.Report.{Report, report, decimal}

pub record FunctionState : Type 0 where
  pub in_a_function : Bool
  pub lines_in_function : ℕ
  pub current_function : Text

abbrev pub normal_trigger : ℕ
normal_trigger = 250

abbrev pub test_trigger : ℕ
test_trigger = 400

-- `__init__`
abbrev pub initial : FunctionState
initial = record { in_a_function = false; lines_in_function = 0; current_function = [] }

-- `Begin`
unfoldable pub begin_function : Text → FunctionState → FunctionState
begin_function name s = record {
  in_a_function = true;
  lines_in_function = 0;
  current_function = name;
}

-- `Count`
unfoldable pub count_line : FunctionState → FunctionState
count_line s =
    if s.in_a_function then record s { lines_in_function = s.lines_in_function + 1 } else s

-- `End`
unfoldable pub end_function : FunctionState → FunctionState
end_function s = record s { in_a_function = false }

-- T(EST|est)
abbrev test_name : Re
test_name = cat (lit "T") (alt (lit "EST") (lit "est"))

unfoldable pub base_trigger : Text → ℕ
unfolding matches
base_trigger name = if matches test_name name then test_trigger else normal_trigger

-- `int(math.log(lines / base, 2))` for `base <= lines`, without the rounding of floats
pub log_ratio : ℕ → ℕ → ℕ → ℕ
log_ratio zero lines base = 0
log_ratio (suc fuel) lines base =
    let more = suc (log_ratio fuel lines (base * 2)) in if leb (base * 2) lines then more else 0

-- No more than `lines` doublings of a positive `base` stay within `lines`.
abbrev pub log2_ratio : ℕ → ℕ → ℕ
log2_ratio lines base = log_ratio lines lines base

-- `if error_level > 5: error_level = 5`
abbrev at_most_five : ℕ → ℕ
at_most_five level = if ltb 5 level then 5 else level

pub size_message : Text → ℕ → ℕ → Text
unfolding decimal
size_message name lines trigger =
    text "Small and focused functions are preferred: "
    ++ (name
        ++ (text " has "
            ++ (decimal lines
                ++ (text " non-comment lines (error triggered by exceeding "
                    ++ (decimal trigger ++ text " lines).")))))

-- `Check`, with the calls of `error` that it makes; the first number is `_VerboseLevel()`
unfoldable pub check_function : ℕ → Text → ℕ → FunctionState → List Report
check_function verbose_level filename linenum s =
    let base = base_trigger s.current_function in
    let trigger = base * 2 ^ verbose_level in
    if not s.in_a_function
    then []
    else if ltb trigger s.lines_in_function
    then report filename linenum "readability/fn_size"
        (at_most_five (log2_ratio s.lines_in_function base))
        (size_message s.current_function s.lines_in_function trigger)
      ∷ []
    else []
