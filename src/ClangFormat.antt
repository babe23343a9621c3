-- ===== src/ClangFormat.antt =====
-- build_support/run_clang_format.py: which files are checked, what is done with them, and the exit
-- status. The file system, clang-format and `difflib` are the record `Tools`. An exception, which the
-- script never catches, is `none`; Python's traceback is not among the events.
pub mod Verdict
pub mod Status
mod Tests
use cmu.Base.{
  ◌≡◌, ◌↔◌, ℕ, Bool, true, false, Option, none, some, not, ◌&&◌, ◌||◌, List, [], ◌∷◌, ◌++◌, map,
  ltb, ◌==◌, if◌then◌else◌, leb, length, String, Text, text, text_eq,
}
use cmu.PyText.{ends_with, strip, split, join}
use cmu.PyOs.{path_join}
use cmu.PyOs.Glob.{fnmatch}

-- `os.walk` of a directory, as the directories below it with their file names; the text of a file, or
-- none if it cannot be opened or is not UTF-8; the output of the clang-format binary on a file, or none
-- if `check_output` raises or the output is not UTF-8; whether `check_call` of a command returns, and
-- does not raise; `difflib.unified_diff` with the name of the file
pub record Tools : Type 0 where
  pub walk : Text → List (Text × List Text)
  pub read : Text → Option Text
  pub formatted : Text → Text → Option Text
  pub call_succeeds : List Text → Bool
  pub unified_diff : Text → List Text → List Text → List Text

-- What `unified_diff` is documented to do: it has output exactly where the lines differ.
abbrev pub IsDiff : (Text → List Text → List Text → List Text) → Type 0
IsDiff diff = (name : Text) (a b : List Text) → (diff name a b ≡ []) ↔ (a ≡ b)

pub record Arguments : Type 0 where
  pub clang_format_binary : Text
  pub fix : Bool
  pub quiet : Bool

-- what the script does to the world, in order
pub data Event : Type 0 where
  print : Text → Event
  write_stderr : List Text → Event
  -- `subprocess.check_call`
  call : List Text → Event

-- the line boundaries of `str.splitlines`, but for `\r\n`, which is one boundary
is_break : ℕ → Bool
is_break c = leb 10 c && leb c 13 || leb 28 c && leb c 30 || c == 133 || c == 8232 || c == 8233

abbrev onto_first : ℕ → List Text → List Text
onto_first c [] = (c ∷ []) ∷ []
onto_first c (l ∷ ls) = (c ∷ l) ∷ ls

abbrev starts_newline : Text → Bool
starts_newline [] = false
starts_newline (c ∷ s) = c == b'\n'

-- the lines of a text with their ends, for a set of line boundaries, `\r\n` being one boundary
unfoldable pub split_at : (ℕ → Bool) → Text → List Text
split_at ends [] = []
split_at ends (c ∷ s) =
    let rest = split_at ends s in
    if ends c && not (c == b'\r' && starts_newline s) then (c ∷ []) ∷ rest else onto_first c rest

-- `s.splitlines(True)`
unfoldable pub split_lines : Text → List Text
unfolding is_break split_at
split_lines s = split_at is_break s

-- the lines that a file opened as text yields
pub file_lines : Text → List Text
unfolding split_at
file_lines s = split_at (λ c. c == b'\n' || c == b'\r') s

any_glob : Text → List Text → Bool
unfolding fnmatch
any_glob name [] = false
any_glob name (g ∷ gs) = fnmatch name g || any_glob name gs

-- the tests on a path: a C++ file that no glob excludes
pub selects : List Text → Text → Bool
unfolding any_glob ends_with
selects exclude_globs path =
    (ends_with (text ".h") path || ends_with (text ".cpp") path)
    && not (any_glob path exclude_globs)

select_files : List Text → Text → List Text → List Text
unfolding path_join
select_files exclude_globs directory [] = []
select_files exclude_globs directory (name ∷ names) =
    let rest = select_files exclude_globs directory names in
    let path = path_join directory name in if selects exclude_globs path then path ∷ rest else rest

select_all : List Text → List (Text × List Text) → List Text
unfolding select_files
select_all exclude_globs [] = []
select_all exclude_globs ((directory, names) ∷ dirs) =
    select_files exclude_globs directory names ++ select_all exclude_globs dirs

-- what `sys.exit` is given, and the status that Python exits with after an exception
abbrev pub exit_status : Option Bool → ℕ
exit_status none = 1
exit_status (some had_err) = if had_err then 1 else 0

module _ (tools : Tools) where
  -- `formatted_filenames` of `check`
  unfoldable pub formatted_filenames : List Text → Text → List Text
  unfolding select_all
  formatted_filenames exclude_globs source_dir = select_all exclude_globs (tools.walk source_dir)

  -- `diff` of one file
  unfoldable pub diff_of : Arguments → Text → Option (List Text)
  unfolding split_lines
  diff_of arguments filename = elim (tools.formatted arguments.clang_format_binary filename) [
    | none ↦ none
    | some formatted ↦ elim (tools.read filename) [
      | none ↦ none
      | some original ↦
          some (tools.unified_diff filename (split_lines original) (split_lines formatted))
    ]
  ]

  -- the loop over the files
  check_files : Arguments → List Text → Bool → Option Bool × List Event
  unfolding diff_of
  check_files arguments [] error = (some error, [])
  check_files arguments (filename ∷ names) error =
      let said = if arguments.quiet then [] else print (text "Checking " ++ filename) ∷ [] in
      elim (diff_of arguments filename) [
        | none ↦ (none, said)
        | some diff ↦
            let clean = leb (length diff) 0 in
            let (error', events) = check_files arguments names (if clean then error else true) in
            let issues =
              if clean
              then []
              else print (filename ++ text " had clang-format style issues")
                ∷ write_stderr diff
                ∷ [] in
            (error', said ++ (issues ++ events))
      ]

  -- `check`
  unfoldable pub check : Arguments → List Text → Text → Option Bool × List Event
  unfolding check_files join
  check arguments exclude_globs source_dir =
      let names = formatted_filenames exclude_globs source_dir in
      let command = arguments.clang_format_binary ∷ text "-i" ∷ names in
      if arguments.fix
      then (
        (if tools.call_succeeds command then some false else none),
        (if arguments.quiet
              then []
              else print (join (text "\n") (map (λ x. text "Formatting " ++ x) names)) ∷ [])
            ++ call command ∷ [],
      )
      else check_files arguments names false

  -- the loop over the source directories of the main program
  check_dirs : Arguments → List Text → List Text → Bool → Option Bool × List Event
  unfolding text_eq
  check_dirs arguments exclude_globs [] had_err = (some had_err, [])
  check_dirs arguments exclude_globs (dir ∷ dirs) had_err = elim (text_eq dir []) [
    | true ↦ check_dirs arguments exclude_globs dirs had_err
    | false ↦
        let (o, events) = check arguments exclude_globs dir in
        elim o [
          | none ↦ (none, events)
          | some err ↦
              let (last, later) = check_dirs arguments exclude_globs dirs err in
              (last, events ++ later)
        ]
  ]

  -- the main program: the exit status and what is done; the first text is that of the globs file
  unfoldable pub main : Arguments → Text → Text → ℕ × List Event
  unfolding check_dirs split strip file_lines
  main arguments globs_text source_dirs =
      let exclude_globs = map strip (file_lines globs_text) in
      let (had_err, events) = check_dirs arguments exclude_globs (split b',' source_dirs) false in
      (exit_status had_err, events)
