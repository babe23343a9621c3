-- ===== src/ClangFormat/Verdict.antt =====
-- When `check` finds an issue.
use mathlib.Core.Path.{ap₂, fun_ext}
use cmu.PyText.{ends_with}
use cmu.PyOs.Glob.{fnmatch}
use cmu.Base.{
  Option, none, some, Option-cases, ◌⊎◌, if◌then◌else◌, text, ℕ, ◌≡◌, ◌≢◌, refl, sym, ap, ◌∙◌, inl,
  inr, Bool, true, false, not, ◌&&◌, ◌||◌, List, [], ◌∷◌, ◌++◌, arith, leb, Bool-cases, length,
  Text, text_eq, text_eq_iff,
}
use cmu.PyOs.{path_join}
use cmu.ClangFormat.{
  Tools, IsDiff, Arguments, split_at, split_lines, any_glob, selects, select_files, select_all,
  formatted_filenames, diff_of, check_files, check, onto_first,
}

-- Lines with their ends hold the whole text.
abbrev concat : List Text → Text
concat [] = []
concat (l ∷ ls) = l ++ concat ls

concat-onto_first : (c : ℕ) (ls : List Text) → concat (onto_first c ls) ≡ c ∷ concat ls
concat-onto_first c [] = refl
concat-onto_first c (l ∷ ls) = refl

concat-split_at : (ends : ℕ → Bool) (s : Text) → concat (split_at ends s) ≡ s
unfolding split_at
concat-split_at ends [] = refl
concat-split_at ends (c ∷ s) =
    ground (arith, concat-onto_first c (split_at ends s), concat-split_at ends s)

split_lines_injective : (s t : Text) → split_lines s ≡ split_lines t → s ≡ t
unfolding split_lines
split_lines_injective s t h = sym (concat-split_at _ s) ∙ ap concat h ∙ concat-split_at _ t

-- a test on the path of some file that the walk finds
abbrev any_name : (Text → Bool) → Text → List Text → Bool
any_name test directory [] = false
any_name test directory (name ∷ names) =
    test (path_join directory name) || any_name test directory names

abbrev pub any_path : (Text → Bool) → List (Text × List Text) → Bool
any_path test [] = false
any_path test ((directory, names) ∷ dirs) = any_name test directory names || any_path test dirs

abbrev pub any : (Text → Bool) → List Text → Bool
any test [] = false
any test (x ∷ xs) = test x || any test xs

any-append :
    (test : Text → Bool) (xs ys : List Text) → any test (xs ++ ys) ≡ (any test xs || any test ys)
any-append test [] ys = refl
any-append test (x ∷ xs) ys = ground (arith, any-append test xs ys)

-- a test on a path: a `.h` or `.cpp` file that no glob of the list matches
abbrev pub is_checked : List Text → Text → Bool
is_checked globs path =
    (ends_with (text ".h") path || ends_with (text ".cpp") path)
    && not (any (λ g. fnmatch path g) globs)

any_glob-any :
    (path : Text) (globs : List Text) → any_glob path globs ≡ any (λ g. fnmatch path g) globs
unfolding any_glob
any_glob-any path [] = refl
any_glob-any path (g ∷ globs) = ground (arith, any_glob-any path globs)

selects-is_checked : (globs : List Text) (path : Text) → selects globs path ≡ is_checked globs path
unfolding selects
selects-is_checked globs path = rw (any_glob-any path globs) refl

any-select_files :
    (globs : List Text) (test : Text → Bool) (directory : Text) (names : List Text)
    → any test (select_files globs directory names)
      ≡ any_name (λ p. selects globs p && test p) directory names
unfolding select_files
any-select_files globs test directory [] = refl
any-select_files globs test directory (name ∷ names) =
    ground (arith, any-select_files globs test directory names)

any-selects :
    (globs : List Text) (test : Text → Bool) (dirs : List (Text × List Text))
    → any test (select_all globs dirs) ≡ any_path (λ p. selects globs p && test p) dirs
unfolding select_all
any-selects globs test [] = refl
any-selects globs test ((directory, names) ∷ dirs) = ground (
  arith,
  any-append test (select_files globs directory names) (select_all globs dirs),
  any-select_files globs test directory names,
  any-selects globs test dirs,
)

any-select_all :
    (globs : List Text) (test : Text → Bool) (dirs : List (Text × List Text))
    → any test (select_all globs dirs) ≡ any_path (λ p. is_checked globs p && test p) dirs
any-select_all globs test dirs =
    any-selects globs test dirs
    ∙ ap (λ f. any_path (λ p. f p && test p) dirs) (fun_ext (selects-is_checked globs))

empty-true : (ls : List Text) → ls ≡ [] → leb (length ls) 0 ≡ true
empty-true ls h = rw h refl

empty-false : (ls : List Text) → ls ≢ [] → leb (length ls) 0 ≡ false
empty-false [] h = absurd (h refl)
empty-false (l ∷ ls) h = ground arith

-- The first text is there and the second is another.
abbrev pub differs : Option Text → Option Text → Bool
differs (some a) (some b) = not (text_eq a b)
differs _ _ = false

abbrev pub is_none : Option Text → Bool
is_none none = true
is_none (some _) = false

module _ (tools : Tools) (is_diff : IsDiff tools.unified_diff) (arguments : Arguments) where
  -- whether an exception is raised for a file
  abbrev pub raises : Text → Bool
  raises path =
      is_none (tools.formatted arguments.clang_format_binary path) || is_none (tools.read path)

  -- whether clang-format would change a file
  abbrev pub changed : Text → Bool
  changed path = differs (tools.read path) (tools.formatted arguments.clang_format_binary path)

  lines-clean :
      (path a b : Text)
      → leb (length (tools.unified_diff path (split_lines a) (split_lines b))) 0 ≡ text_eq a b
  lines-clean path a b =
      let iff = is_diff path (split_lines a) (split_lines b) in
      elim (Bool-cases (text_eq a b)) [
        | inl e ↦ rw e (empty-true _ (iff.1 (ap split_lines ((text_eq_iff a b).0 e))))
        | inr e ↦
            rw e (
              empty-false _
                (λ h. cc (e, (text_eq_iff a b).1 (split_lines_injective a b (iff.0 h)))))
      ]

  -- What `diff_of` gives for a file.
  diff_of-cases :
      (path : Text)
      → ((diff_of tools arguments path ≡ none) × (raises path ≡ true))
        ⊎ ((diff : List Text) × (diff_of tools arguments path ≡ some diff)
            × (raises path ≡ false)
            × (leb (length diff) 0 ≡ not (changed path)))
  unfolding diff_of
  diff_of-cases path = elim (Option-cases (tools.formatted arguments.clang_format_binary path)) [
    | inl f ↦ inl (rw (f, diff_of) refl, rw f refl)
    | inr (b, f) ↦ elim (Option-cases (tools.read path)) [
      | inl r ↦ inl (rw (f, diff_of) (rw (r, diff_of) refl), rw (f, r) refl)
      | inr (a, r) ↦ inr (
        tools.unified_diff path (split_lines a) (split_lines b),
        rw (f, diff_of) (rw (r, diff_of) refl),
        rw (f, r) refl,
        rw (f, r) (lines-clean path a b ∙ ground arith),
      )
    ]
  ]

  check_files-changed :
      (names : List Text) (error : Bool)
      → (check_files tools arguments names error).0
        ≡ (if any raises names then none else some (error || any changed names))
  unfolding check_files
  check_files-changed [] error = ground arith
  check_files-changed (name ∷ names) error = elim (diff_of-cases name) [
    | inl (e, r) ↦ rw (e, check_files) (ground (arith, r))
    | inr (diff, e, r, c) ↦ elim (Bool-cases (changed name)) [
      | inl k ↦
          rw (e, check_files)
            (rw (c ∙ ap not k) (ground (arith, r, k, check_files-changed names true)))
      | inr k ↦
          rw (e, check_files)
            (rw (c ∙ ap not k) (ground (arith, r, k, check_files-changed names error)))
    ]
  ]

  check-lint :
      (globs : List Text) (source_dir : Text)
      → arguments.fix ≡ false
      → check tools arguments globs source_dir
        ≡ check_files tools arguments (formatted_filenames tools globs source_dir) false
  unfolding check
  check-lint globs source_dir h = ground arith

  -- Without `--fix`, `check` raises an exception exactly if, among the files that the walk of the
  -- directory finds, there is one whose path ends in `.h` or `.cpp`, that no glob matches, and that
  -- clang-format fails on or that cannot be read; otherwise it reports an issue exactly if there is
  -- such a file, `.h` or `.cpp` and matched by no glob, whose text clang-format changes.
  pub check-changed :
      (globs : List Text) (source_dir : Text)
      → arguments.fix ≡ false
      → (check tools arguments globs source_dir).0 ≡ (
          if any_path (λ p. is_checked globs p && raises p) (tools.walk source_dir)
          then none
          else some (any_path (λ p. is_checked globs p && changed p) (tools.walk source_dir)))
  unfolding formatted_filenames
  check-changed globs source_dir h =
      ap (λ r. r.0) (check-lint globs source_dir h)
      ∙ check_files-changed (select_all globs (tools.walk source_dir)) false
      ∙ ap₂ (λ a b. if a then none else some b)
          (any-select_all globs raises (tools.walk source_dir))
          (any-select_all globs changed (tools.walk source_dir))
