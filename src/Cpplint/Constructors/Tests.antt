-- ===== src/Cpplint/Constructors/Tests.antt =====
-- Runs of the check of constructors.
use cmu.Base.{◌≡◌, refl, false, none, some, [], ◌∷◌, text}
use cmu.Cpplint.Report.{report}
use cmu.Cpplint.Blocks.{ClassInfo}
use cmu.Cpplint.Constructors.{collapse_argument, collapse_arguments, check_constructor}
use cmu.Cpplint.Constructors.Arguments.{IsCollapse, collapse_arguments_lem}

collapse_arguments_lem_example :
    IsCollapse
      (text "map<int" ∷ text " int> m" ∷ text " int i" ∷ [])
      (some (text "map<int, int> m" ∷ text " int i" ∷ []))
unfolding collapse_argument
collapse_arguments_lem_example =
    collapse_arguments_lem (text "map<int" ∷ text " int> m" ∷ text " int i" ∷ [])

-- Braces are not counted.
test_braces :
    collapse_arguments (text "v = {1" ∷ text " 2}" ∷ []) ≡ some (text "v = {1" ∷ text " 2}" ∷ [])
unfolding collapse_argument
test_braces = refl

abbrev widget : ClassInfo
widget = record {
  name = text "gui::Widget";
  is_derived = false;
  access = text "public";
  is_struct = false;
  class_indent = 0;
  last_line = 9;
}

test_single :
    check_constructor (text "a.h") 4 (text "  Widget(int n);") widget
    ≡ some (
        report
          (text "a.h")
          4
          "runtime/explicit"
          5
          (text "Single-parameter constructors should be marked explicit.")
        ∷ [])
unfolding check_constructor
test_single = refl

test_copy : check_constructor (text "a.h") 4 (text "  Widget(const Widget &w);") widget ≡ some []
unfolding check_constructor
test_copy = refl

-- The check fails with an IndexError on a default argument that shifts to the left.
test_shift : check_constructor (text "a.h") 4 (text "  Widget(int n = 1 << 2);") widget ≡ none
unfolding check_constructor
test_shift = refl
