-- ===== src/PyOs.antt =====
-- Functions of Python's `os.path` and `fnmatch`, for POSIX paths, that the scripts of build_support
-- call.
pub mod Glob
pub mod Paths
use cmu.Base.{
  ℕ, Bool, true, false, not, ◌&&◌, ◌||◌, List, [], ◌∷◌, ◌++◌, reverse, ◌==◌, if◌then◌else◌, Text,
  text, text_eq, drop, take, length, ◌-◌,
}
use cmu.PyText.{starts_with, ends_with, split, join}

-- `os.path.isabs`
unfoldable pub is_abs : Text → Bool
unfolding starts_with
is_abs path = starts_with (text "/") path

-- `os.path.join` of two parts
unfoldable pub path_join : Text → Text → Text
unfolding is_abs text_eq ends_with
path_join a b =
    if is_abs b then b else if text_eq a [] || ends_with (text "/") a then a ++ b else a ++ b'/' ∷ b

-- one component of `os.path.normpath`, over those kept so far, the last one first; the flag is
-- whether the path starts with a slash
norm_step : Bool → Text → List Text → List Text
unfolding text_eq
norm_step rooted comp [] =
    if text_eq comp [] || text_eq comp (text ".") || rooted && text_eq comp (text "..")
    then []
    else comp ∷ []
norm_step rooted comp (last ∷ kept) =
    if text_eq comp [] || text_eq comp (text ".")
    then last ∷ kept
    else if not (text_eq comp (text "..")) || text_eq last (text "..")
    then comp ∷ last ∷ kept
    else kept

norm_all : Bool → List Text → List Text → List Text
unfolding norm_step
norm_all rooted [] kept = reverse kept
norm_all rooted (comp ∷ comps) kept = norm_all rooted comps (norm_step rooted comp kept)

-- the slashes that a path starts with: two exactly stay two
initial_slashes : Text → Text
unfolding starts_with
initial_slashes path =
    if starts_with (text "//") path && not (starts_with (text "///") path)
    then text "//"
    else if starts_with (text "/") path
    then text "/"
    else []

-- `os.path.normpath`
unfoldable pub normpath : Text → Text
unfolding text_eq initial_slashes norm_all split join
normpath path =
    let slashes = initial_slashes path in
    let normal =
      slashes ++ join (text "/") (norm_all (not (text_eq slashes [])) (split b'/' path) []) in
    if text_eq normal [] then text "." else normal

-- the characters before the first slash, dot or the like, and those from it on
before_char : ℕ → Text → Text
before_char sep [] = []
before_char sep (c ∷ s) = if c == sep then [] else c ∷ before_char sep s

from_char : ℕ → Text → Text
from_char sep [] = []
from_char sep (c ∷ s) = let later = from_char sep s in if c == sep then c ∷ s else later

-- a text without the characters of one kind that it starts with
skip_char : ℕ → Text → Text
skip_char sep [] = []
skip_char sep (c ∷ s) = let later = skip_char sep s in if c == sep then later else c ∷ s

-- a head that ends in slashes, backwards: without them, unless it is nothing else
strip_head : Text → Text
unfolding skip_char
strip_head head = elim (skip_char b'/' head) [ [] ↦ head | c ∷ s ↦ c ∷ s ]

-- `os.path.split`, with its parts `os.path.dirname` and `os.path.basename`
unfoldable pub dirname : Text → Text
unfolding from_char strip_head
dirname path = reverse (strip_head (from_char b'/' (reverse path)))

unfoldable pub basename : Text → Text
unfolding before_char
basename path = reverse (before_char b'/' (reverse path))

-- `os.path.splitext(path)[1]`, where the dots that a base name starts with do not count
unfoldable pub extension : Text → Text
unfolding basename before_char from_char skip_char
extension path =
    let name = reverse (basename path) in
    elim (skip_char b'.' (reverse (drop 1 (from_char b'.' name)))) [
      | [] ↦ []
      | c ∷ s ↦ b'.' ∷ reverse (before_char b'.' name)
    ]

-- `os.path.splitext(path)[0]`
unfoldable pub without_extension : Text → Text
unfolding extension
without_extension path = take (length path - length (extension path)) path
