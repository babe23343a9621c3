-- ===== src/ClangTidy.antt =====
-- build_support/run_clang_tidy.py and run_clang_tidy_extra.py: the command lines, the pool of
-- threads that run clang-tidy over the files of the compilation database, and the return code. What
-- clang-tidy makes of a file and the expression of the command line for file names are parameters.
pub mod Failures
pub mod Progress
mod Tests
use cmu.Base.{
  ℕ, ◌+◌, ◌*◌, ◌<◌, ◌≤◌, ◌≡◌, Bool, true, false, not, ◌&&◌, Option, none, some, List, [], ◌∷◌, ◌++◌,
  map, if◌then◌else◌, length, Text, text, text_eq,
}
use cmu.PyOs.{is_abs, normpath, path_join}
use cmu.Regex.{Re, star, dot, lit, seq, matches}

-- .*/third_party/.*
abbrev ignore_pat : Re
ignore_pat = seq (star dot ∷ lit "/third_party/" ∷ star dot ∷ [])

-- `should_skip` of `CheckConfig`, with the one pattern of `_init_config`
unfoldable pub should_skip : Text → Bool
unfolding matches
should_skip path = matches ignore_pat path

-- `make_absolute`
unfoldable pub make_absolute : Text → Text → Text
unfolding is_abs normpath path_join
make_absolute f directory = if is_abs f then f else normpath (path_join directory f)

pub record TidyArguments : Type 0 where
  pub clang_tidy_binary : Text
  pub header_filter : Option Text
  pub checks : Option Text
  pub extra_arg : List Text
  pub extra_arg_before : List Text
  pub quiet : Bool
  pub config : Option Text

-- the argument of an option that is set to a text
abbrev set_option : Text → Option Text → List Text
set_option name none = []
set_option name (some value) = (name ++ value) ∷ []

-- the argument of an option that is tested for its truth, which an empty text has not
true_option : Text → Option Text → List Text
unfolding text_eq
true_option name none = []
true_option name (some value) = if text_eq value [] then [] else (name ++ value) ∷ []

-- the arguments for the fixes, where `tmpdir` is given: the name is that of the temporary file
abbrev fixes_option : Option Text → List Text
fixes_option none = []
fixes_option (some name) = text "-export-fixes" ∷ name ∷ []

-- `get_tidy_invocation`
unfoldable pub get_tidy_invocation : Text → Option Text → Text → TidyArguments → List Text
unfolding true_option
get_tidy_invocation f fixes_file build_path a =
    (a.clang_tidy_binary ∷ set_option (text "-header-filter=") a.header_filter)
    ++ true_option (text "-checks=") a.checks
    ++ fixes_option fixes_file
    ++ map (λ arg. text "-extra-arg=" ++ arg) a.extra_arg
    ++ map (λ arg. text "-extra-arg-before=" ++ arg) a.extra_arg_before
    ++ (text "-p=" ++ build_path) ∷ []
    ++ (if a.quiet then text "-quiet" ∷ [] else [])
    ++ true_option (text "-config=") a.config
    ++ f ∷ []

-- the files of the database, from pairs of a file and its directory
abbrev database_files : List (Text × Text) → List Text
database_files [] = []
database_files ((file, directory) ∷ entries) = make_absolute file directory ∷ database_files entries

-- The main thread and its workers: the files that the main thread has not put yet, the one at hand
-- first, the queue, the files that a worker has at hand, and `failed_files`.
pub record Pool : Type 0 where
  pub waiting : List Text
  pub queue : List Text
  pub running : List Text
  pub failed_files : List Text

abbrev pub start : List Text → Pool
start files = record { waiting = files; queue = []; running = []; failed_files = [] }

-- `task_queue.join()` returns, in the main thread that has put all files.
abbrev pub IsDone : Pool → Type 0
IsDone s = (s.waiting ≡ []) × (s.queue ≡ []) × (s.running ≡ [])

-- the return code of the main program, before the fixes are exported and applied
abbrev pub return_code : List Text → ℕ
return_code [] = 0
return_code (name ∷ names) = 1

module _ (name_matches : Text → Bool) (tidy_fails : Text → Bool) (max_task : ℕ) where
  -- what the rest of a round of `run_tidy` does to `failed_files`
  unfoldable pub run_tidy : Text → List Text → List Text
  unfolding should_skip
  run_tidy name failed_files =
      if should_skip name
      then failed_files
      else if tidy_fails name
      then failed_files ++ name ∷ []
      else failed_files

  -- What the threads do, one step at a time.
  pub data Step : Pool → Pool → Type 0 where
    -- the main thread puts the file at hand
    put :
        (name : Text) (waiting queue running failed_files : List Text)
        → name_matches name ≡ true
        → length queue < max_task
        → Step
            (record {
              waiting = name ∷ waiting;
              queue = queue;
              running = running;
              failed_files = failed_files;
            })
            (record {
              waiting = waiting;
              queue = queue ++ name ∷ [];
              running = running;
              failed_files = failed_files;
            })
    -- `queue.Full` after the timeout: the file at hand is tried again
    full :
        (name : Text) (s : Pool) (waiting : List Text)
        → s.waiting ≡ name ∷ waiting
        → name_matches name ≡ true
        → max_task ≤ length s.queue
        → Step s s
    -- the file at hand does not match, and `put_file` stays False
    no_match :
        (name : Text) (s : Pool) (waiting : List Text)
        → s.waiting ≡ name ∷ waiting
        → name_matches name ≡ false
        → Step s s
    -- a worker that has no file at hand takes one
    get :
        (name : Text) (waiting queue running failed_files : List Text)
        → length running < max_task
        → Step
            (record {
              waiting = waiting;
              queue = name ∷ queue;
              running = running;
              failed_files = failed_files;
            })
            (record {
              waiting = waiting;
              queue = queue;
              running = name ∷ running;
              failed_files = failed_files;
            })
    -- a worker is done with its file
    finish :
        (name : Text) (waiting queue before after failed_files : List Text)
        → Step
            (record {
              waiting = waiting;
              queue = queue;
              running = before ++ name ∷ after;
              failed_files = failed_files;
            })
            (record {
              waiting = waiting;
              queue = queue;
              running = before ++ after;
              failed_files = run_tidy name failed_files;
            })

  pub data Reaches (s : Pool) : Pool → Type 0 where
    here : Reaches s s
    next : {t u : Pool} → Reaches s t → Step t u → Reaches s u
