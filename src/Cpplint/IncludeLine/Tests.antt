-- ===== src/Cpplint/IncludeLine/Tests.antt =====
-- Runs of the check of an include.
use cmu.Base.{◌≡◌, refl, some, [], ◌∷◌, text}
use cmu.Cpplint.Report.{report}
use cmu.Cpplint.Cleansed.{CleansedLines}
use cmu.Cpplint.Include.{IncludeState, initial}
use cmu.Cpplint.Headers.{Extensions}
use cmu.Cpplint.IncludeLine.{check_include_line, included}
use cmu.Cpplint.IncludeLine.Effect.{Effect, check_include_line-Effect}

abbrev defaults : Extensions
defaults = record { hpp_headers = []; valid_extensions = [] }

abbrev file : CleansedLines
file = record {
  elided = text "// marker" ∷ text "#include \"foo/foo.h\"" ∷ text "#include \"foo/foo.h\"" ∷ [];
  lines = text "// marker" ∷ text "#include \"foo/foo.h\"" ∷ text "#include \"foo/foo.h\"" ∷ [];
  raw_lines = [];
  num_lines = 3;
  lines_without_raw_strings = [];
}

abbrev known : IncludeState
known = record initial {
  include_list = ((text "foo/foo.h", 1) ∷ []) ∷ [];
  section = 1;
  last_header = text "foo/foo.h";
}

test_first :
    check_include_line (λ f. f) defaults (text "foo/foo.cc") file 1 initial ≡ some (known, [])
unfolding check_include_line
test_first = refl

test_twice :
    check_include_line (λ f. f) defaults (text "foo/foo.cc") file 2 known
    ≡ some (
      known,
      report
            (text "foo/foo.cc")
            2
            "build/include"
            4
            (text "\"foo/foo.h\" already included at foo/foo.cc:1")
          ∷ [],
    )
unfolding check_include_line
test_twice = refl

check_include_line-Effect_example :
    Effect 1
      (included (text "#include \"foo/foo.h\""))
      initial
      (check_include_line (λ f. f) defaults (text "foo/foo.cc") file 1 initial)
check_include_line-Effect_example =
    check_include_line-Effect (λ f. f) defaults (text "foo/foo.cc") file 1
      (text "#include \"foo/foo.h\"") (text "// marker") initial refl refl (λ e. cc)
