-- ===== src/ClangFormat/Status.antt =====
-- The exit status of the main program.
use cmu.Base.{
  true, not, ◌&&◌, ◌||◌, ◌∙◌, inl, inr, Bool-cases, Option-cases, ◌≡◌, refl, ap, Bool, false,
  Option, none, some, List, [], ◌∷◌, arith, if◌then◌else◌, map, Text, text_eq,
}
use cmu.PyText.{split, strip}
use cmu.ClangFormat.{Tools, Arguments, check, check_dirs, main, file_lines, exit_status}

-- the last directory of a list that is not the empty text
abbrev pub last_dir : List Text → Option Text
last_dir [] = none
last_dir (dir ∷ dirs) = elim (last_dir dirs) [
  | some d ↦ some d
  | none ↦ if text_eq dir [] then none else some dir
]

abbrev pub is_issue : Option Bool → Bool
is_issue none = false
is_issue (some error) = error

abbrev pub is_exception : Option Bool → Bool
is_exception none = true
is_exception (some error) = false

module _ (tools : Tools) (arguments : Arguments) where
  -- some directory of a list that is not the empty text makes `check` raise an exception
  abbrev pub any_exception : List Text → List Text → Bool
  any_exception globs [] = false
  any_exception globs (dir ∷ dirs) =
      not (text_eq dir []) && is_exception (check tools arguments globs dir).0
      || any_exception globs dirs

  -- what the last directory decides, where there is one
  abbrev pub verdict : List Text → Bool → Option Text → Bool
  verdict globs had_err none = had_err
  verdict globs had_err (some dir) = is_issue (check tools arguments globs dir).0

  check_dirs_lem :
      (globs dirs : List Text) (had_err : Bool)
      → (check_dirs tools arguments globs dirs had_err).0
        ≡ (if any_exception globs dirs then none else some (verdict globs had_err (last_dir dirs)))
  unfolding check_dirs
  check_dirs_lem globs [] had_err = refl
  check_dirs_lem globs (dir ∷ dirs) had_err = elim (Bool-cases (text_eq dir [])) [
    | inl e ↦ rw (e, check_dirs) (ground (arith, e, check_dirs_lem globs dirs had_err))
    | inr e ↦ elim (Option-cases (check tools arguments globs dir).0) [
      | inl c ↦ rw (e, check_dirs) (rw (c, check_dirs) (ground (arith, e, c)))
      | inr (err, c) ↦
          rw (e, check_dirs)
            (rw (c, check_dirs) (ground (arith, e, c, check_dirs_lem globs dirs err)))
    ]
  ]

  exit_status_lem :
      (a b : Bool) → exit_status (if a then none else some b) ≡ (if a || b then 1 else 0)
  exit_status_lem a b = ground arith

  -- The exit status is 1 if the check of some source directory which is not empty raises an exception.
  -- Else it is that of the last such directory, whatever was found in those before it: 1 if its check
  -- found an issue, and 0 if not or if there is none.
  pub main-last_dir :
      (globs_text source_dirs : Text)
      → let globs = map strip (file_lines globs_text) in
        let dirs = split b',' source_dirs in
        (main tools arguments globs_text source_dirs).0
        ≡ (if any_exception globs dirs || verdict globs false (last_dir dirs) then 1 else 0)
  unfolding main
  main-last_dir globs_text source_dirs =
      let globs = map strip (file_lines globs_text) in
      let dirs = split b',' source_dirs in
      ap exit_status (check_dirs_lem globs dirs false)
      ∙ exit_status_lem (any_exception globs dirs) (verdict globs false (last_dir dirs))
