-- ===== src/Cpplint/HeaderGuard.antt =====
-- `PathSplitToList` and `GetHeaderGuardCPPVariable` of build_support/cpplint.py. What `FileInfo` finds in
-- the file system is a parameter, and the output for debugging is left out.
pub mod Variable
pub mod Parts
pub mod Check
mod Tests
use cmu.Base.{
  ℕ, zero, suc, ◌+◌, ◌-◌, Bool, true, false, not, ◌&&◌, ◌||◌, Option, none, some, List, [], ◌∷◌,
  ◌++◌, reverse, leb, if◌then◌else◌, length, take, Text, text, text_eq,
}
use cmu.PyText.{replace, starts_with, ends_with, upper}
use cmu.PyOs.{dirname, basename, path_join}
use cmu.Regex.{Re, star, group, eol, one, lit, none_of, seq, search_all, group_or, sub}

-- a round of the loop of `PathSplitToList`, which puts the components in front of those found
path_split_round : (Text → List Text → List Text) → Text → List Text → List Text
unfolding dirname basename text_eq
path_split_round next path found =
    let head = dirname path in
    let tail = basename path in
    if text_eq head path
    then head ∷ found
    else if text_eq tail path
    then tail ∷ found
    else next head (tail ∷ found)

-- The loop, in at most as many rounds as the number; the first argument is the result if they run out. A
-- round shortens the path, so one for each character and one more never run out.
pub path_split_from : (Text → List Text → List Text) → ℕ → Text → List Text → List Text
unfolding path_split_round
path_split_from out zero path found = out path found
path_split_from out (suc fuel) path found = path_split_round (path_split_from out fuel) path found

unfoldable pub path_split_to_list : Text → List Text
unfolding path_split_from
path_split_to_list path = path_split_from (λ _ found. found) (suc (length path)) path []

-- `StripListPrefix`
strip_list_prefix : List Text → List Text → Option (List Text)
unfolding text_eq
strip_list_prefix lst [] = some lst
strip_list_prefix [] (p ∷ prefix) = none
strip_list_prefix (l ∷ lst) (p ∷ prefix) =
    let rest = strip_list_prefix lst prefix in if text_eq l p then rest else none

-- `os.path.join(*parts)`
join_parts : Text → List Text → Text
unfolding path_join
join_parts path [] = path
join_parts path (part ∷ parts) = join_parts (path_join path part) parts

-- the part of a path behind a root, if there is such a part that is not empty
behind_root : Text → Text → Option Text
unfolding strip_list_prefix path_split_to_list join_parts
behind_root path root =
    elim (strip_list_prefix (path_split_to_list path) (path_split_to_list root)) [
      | none ↦ none
      | some [] ↦ none
      | some (part ∷ parts) ↦ some (join_parts part parts)
    ]

-- _flymake\.h$ and /\.flymake/([^/]*)$
abbrev flymake_suffix : Re
flymake_suffix = seq (lit "_flymake.h" ∷ eol ∷ [])

abbrev flymake_directory : Re
flymake_directory = seq (lit "/.flymake/" ∷ group 1 (star (none_of "/")) ∷ eol ∷ [])

-- `re.sub(r'/\.flymake/([^/]*)$', r'/\1', filename)`; the pattern matches at most once
drop_flymake : Text → Text
unfolding search_all group_or
drop_flymake filename = elim (search_all flymake_directory filename) [
  | none ↦ filename
  | some (start, m) ↦ take start filename ++ (b'/' ∷ group_or 1 m) ++ m.rest
]

-- [^a-zA-Z0-9]
abbrev pub is_letter_or_digit : ℕ → Bool
is_letter_or_digit c =
    leb b'a' c && leb c b'z' || (leb b'A' c && leb c b'Z' || leb b'0' c && leb c b'9')

abbrev pub not_letter_or_digit : Re
not_letter_or_digit = one (λ c. not (is_letter_or_digit c))

-- the variable of a path
pub variable_of : Text → Text
unfolding sub upper
variable_of path = upper (sub not_letter_or_digit (text "_") path) ++ text "_"

-- The functions of the file system: `FileInfo(f).RepositoryName()`, `FileInfo(f).FullName()` and
-- `os.path.abspath`; and the option `--root`, whose empty text is `None`.
module _ (repository_name full_name abspath : Text → Text) (root : Text) where
  -- `FixupPathFromRoot`
  fixup_path_from_root : Text → Text
  unfolding behind_root
  fixup_path_from_root filename =
      let stripped = behind_root (repository_name filename) root in
      let outer = behind_root (full_name filename) (abspath root) in
      elim root [
        | [] ↦ repository_name filename
        | c ∷ cs ↦ elim stripped [
          | some path ↦ path
          | none ↦ elim outer [ some path ↦ path | none ↦ repository_name filename ]
        ]
      ]

  -- the path that the variable is made of
  pub guarded_path : Text → Text
  unfolding sub drop_flymake replace fixup_path_from_root
  guarded_path filename =
      let restored = drop_flymake (sub flymake_suffix (text ".h") filename) in
      fixup_path_from_root
        (replace (text "c++") (text "cpp") (replace (text "C++") (text "cpp") restored))

  -- `GetHeaderGuardCPPVariable`
  unfoldable pub get_header_guard_cpp_variable : Text → Text
  unfolding guarded_path variable_of
  get_header_guard_cpp_variable filename = variable_of (guarded_path filename)
