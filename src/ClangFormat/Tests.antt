-- ===== src/ClangFormat/Tests.antt =====
-- Runs of run_clang_format.py over a small tree of files.
use cmu.Base.{
  some, none, ◌||◌, ◌≡◌, ◌↔◌, refl, Bool, true, false, ◌&&◌, List, [], ◌∷◌, if◌then◌else◌, map,
  Text, text, text_eq, text_eq_iff, arith,
}
use cmu.PyText.{strip, split}
use cmu.ClangFormat.{
  Tools, IsDiff, Arguments, selects, check, formatted_filenames, diff_of, main, file_lines,
}
use cmu.ClangFormat.Verdict.{any_path, is_checked, raises, changed, check-changed}
use cmu.ClangFormat.Status.{any_exception, last_dir, main-last_dir, verdict}

lines_eq : List Text → List Text → Bool
lines_eq [] [] = true
lines_eq (x ∷ xs) (y ∷ ys) = text_eq x y && lines_eq xs ys
lines_eq _ _ = false

lines_eq_iff : (a b : List Text) → (lines_eq a b ≡ true) ↔ (a ≡ b)
unfolding lines_eq
lines_eq_iff (x ∷ a) (y ∷ b) = ground (arith, text_eq_iff x y, lines_eq_iff a b)
lines_eq_iff _ _ = ground arith

abbrev diff : Text → List Text → List Text → List Text
diff name a b = if lines_eq a b then [] else name ∷ []

diff-IsDiff : IsDiff diff
diff-IsDiff name a b = ground (arith, lines_eq_iff a b)

-- Each directory holds one C++ file. Those of `good` are left as they are by clang-format, it fails on
-- those of `broken`, and all others are changed.
abbrev tools : Tools
tools = record {
  walk = λ dir. (dir, text "a.cpp" ∷ text "b.txt" ∷ []) ∷ [];
  read = λ path. some path;
  formatted = λ binary path.
      if text_eq path (text "good/a.cpp")
      then some path
      else if text_eq path (text "broken/a.cpp")
      then none
      else some [];
  call_succeeds = λ command. false;
  unified_diff = diff;
}

abbrev lint : Arguments
lint = record { clang_format_binary = text "clang-format"; fix = false; quiet = true }

check-changed_example : (check tools lint [] (text "bad")).0 ≡ (
    if any_path (λ p. is_checked [] p && raises tools diff-IsDiff lint p) (tools.walk (text "bad"))
    then none
    else some (
        any_path
          (λ p. is_checked [] p && changed tools diff-IsDiff lint p)
          (tools.walk (text "bad"))))
check-changed_example = check-changed tools diff-IsDiff lint [] (text "bad") refl

main-last_dir_example : (main tools lint [] (text "bad,good")).0 ≡ (
    if any_exception tools lint (map strip (file_lines [])) (split b',' (text "bad,good"))
      || verdict tools lint
          (map strip (file_lines []))
          false
          (last_dir (split b',' (text "bad,good")))
    then 1
    else 0)
main-last_dir_example = main-last_dir tools lint [] (text "bad,good")

-- The issue of the first directory is lost.
test_bad_then_good : (main tools lint [] (text "bad,good")).0 ≡ 0
unfolding main lines_eq text_eq check formatted_filenames selects diff_of
test_bad_then_good = refl

test_good_then_bad : (main tools lint [] (text "good,bad")).0 ≡ 1
unfolding main lines_eq text_eq check formatted_filenames selects diff_of
test_good_then_bad = refl

-- A failure is not lost.
test_broken_then_good : (main tools lint [] (text "broken,good")).0 ≡ 1
unfolding main lines_eq text_eq check formatted_filenames selects diff_of
test_broken_then_good = refl

test_excluded : (check tools lint (text "bad/*" ∷ []) (text "bad")).0 ≡ some false
unfolding lines_eq text_eq check formatted_filenames selects diff_of
test_excluded = refl

test_fix_fails : (main tools (record lint { fix = true }) [] (text "good")).0 ≡ 1
unfolding main check
test_fix_fails = refl
