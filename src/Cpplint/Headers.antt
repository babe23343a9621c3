-- ===== src/Cpplint/Headers.antt =====
-- What build_support/cpplint.py takes a header to be: the extensions of files and `_ClassifyInclude`.
mod Tests
use cmu.Base.{
  ℕ, zero, suc, ◌+◌, ◌-◌, Bool, true, false, not, ◌&&◌, ◌||◌, Option, none, some, List, [], ◌∷◌,
  ◌++◌, map, reverse, leb, ltb, ◌==◌, if◌then◌else◌, length, get_elem?, take, String, Text, text,
  text_eq,
}
use cmu.PyText.{contains, member, ends_with, strip, split}
use cmu.PyOs.{dirname, basename, extension, without_extension, normpath}
use cmu.Regex.{Re, bol, plus, one, cat, match}
use cmu.Cpplint.Include.{HeaderType, c_sys, cpp_sys, likely_my, possible_my, other}

-- `_CPP_HEADERS`
abbrev cpp_header_names : List String
cpp_header_names =
    "algobase.h" ∷ "algo.h" ∷ "alloc.h" ∷ "builtinbuf.h" ∷ "bvector.h" ∷ "complex.h" ∷ "defalloc.h"
    ∷ "deque.h" ∷ "editbuf.h" ∷ "fstream.h" ∷ "function.h" ∷ "hash_map" ∷ "hash_map.h" ∷ "hash_set"
    ∷ "hash_set.h" ∷ "hashtable.h" ∷ "heap.h" ∷ "indstream.h" ∷ "iomanip.h" ∷ "iostream.h"
    ∷ "istream.h" ∷ "iterator.h" ∷ "list.h" ∷ "map.h" ∷ "multimap.h" ∷ "multiset.h" ∷ "ostream.h"
    ∷ "pair.h" ∷ "parsestream.h" ∷ "pfstream.h" ∷ "procbuf.h" ∷ "pthread_alloc" ∷ "pthread_alloc.h"
    ∷ "rope" ∷ "rope.h" ∷ "ropeimpl.h" ∷ "set.h" ∷ "slist" ∷ "slist.h" ∷ "stack.h" ∷ "stdiostream.h"
    ∷ "stl_alloc.h" ∷ "stl_relops.h" ∷ "streambuf.h" ∷ "stream.h" ∷ "strfile.h" ∷ "strstream.h"
    ∷ "tempbuf.h" ∷ "tree.h" ∷ "type_traits.h" ∷ "vector.h" ∷ "algorithm" ∷ "array" ∷ "atomic"
    ∷ "bitset" ∷ "chrono" ∷ "codecvt" ∷ "complex" ∷ "condition_variable" ∷ "deque" ∷ "exception"
    ∷ "forward_list" ∷ "fstream" ∷ "functional" ∷ "future" ∷ "initializer_list" ∷ "iomanip" ∷ "ios"
    ∷ "iosfwd" ∷ "iostream" ∷ "istream" ∷ "iterator" ∷ "limits" ∷ "list" ∷ "locale" ∷ "map"
    ∷ "memory" ∷ "mutex" ∷ "new" ∷ "numeric" ∷ "ostream" ∷ "queue" ∷ "random" ∷ "ratio" ∷ "regex"
    ∷ "scoped_allocator" ∷ "set" ∷ "sstream" ∷ "stack" ∷ "stdexcept" ∷ "streambuf" ∷ "string"
    ∷ "strstream" ∷ "system_error" ∷ "thread" ∷ "tuple" ∷ "typeindex" ∷ "typeinfo" ∷ "type_traits"
    ∷ "unordered_map" ∷ "unordered_set" ∷ "utility" ∷ "valarray" ∷ "vector" ∷ "shared_mutex" ∷ "any"
    ∷ "charconv" ∷ "codecvt" ∷ "execution" ∷ "filesystem" ∷ "memory_resource" ∷ "optional"
    ∷ "string_view" ∷ "variant" ∷ "cassert" ∷ "ccomplex" ∷ "cctype" ∷ "cerrno" ∷ "cfenv" ∷ "cfloat"
    ∷ "cinttypes" ∷ "ciso646" ∷ "climits" ∷ "clocale" ∷ "cmath" ∷ "csetjmp" ∷ "csignal"
    ∷ "cstdalign" ∷ "cstdarg" ∷ "cstdbool" ∷ "cstddef" ∷ "cstdint" ∷ "cstdio" ∷ "cstdlib"
    ∷ "cstring" ∷ "ctgmath" ∷ "ctime" ∷ "cuchar" ∷ "cwchar" ∷ "cwctype" ∷ []

pub cpp_headers : List Text
cpp_headers = map text cpp_header_names

-- The sets of the options `--headers` and `--extensions`, as lists without an order that matters but for
-- the first match; an empty set is one that was not given.
pub record Extensions : Type 0 where
  pub hpp_headers : List Text
  pub valid_extensions : List Text

-- `ProcessHppHeadersOption` and `ProcessExtensionsOption`
unfoldable pub process_hpp_headers_option : Text → Extensions → Extensions
unfolding split strip
process_hpp_headers_option val e = record e { hpp_headers = map strip (split b',' val) }

unfoldable pub process_extensions_option : Text → Extensions → Extensions
unfolding split strip
process_extensions_option val e = record e { valid_extensions = map strip (split b',' val) }

with_h : List Text → List Text
unfolding contains
with_h [] = []
with_h (ext ∷ exts) = if contains b'h' ext then ext ∷ with_h exts else with_h exts

-- `GetHeaderExtensions`
unfoldable pub get_header_extensions : Extensions → List Text
unfolding with_h
get_header_extensions e = elim e.hpp_headers [
  | ext ∷ exts ↦ ext ∷ exts
  | [] ↦ elim e.valid_extensions [
    | ext ∷ exts ↦ with_h (ext ∷ exts)
    | [] ↦ map text ("h" ∷ "hh" ∷ "hpp" ∷ "hxx" ∷ "h++" ∷ "cuh" ∷ [])
  ]
]

-- `GetAllExtensions`
pub get_all_extensions : Extensions → List Text
unfolding get_header_extensions
get_all_extensions e = get_header_extensions e ++ elim e.valid_extensions [
  | ext ∷ exts ↦ ext ∷ exts
  | [] ↦ map text ("c" ∷ "cc" ∷ "cpp" ∷ "cxx" ∷ "c++" ∷ "cu" ∷ [])
]

-- the members of a set that are not in another
difference : List Text → List Text → List Text
unfolding member
difference [] others = []
difference (ext ∷ exts) others =
    if member ext others then difference exts others else ext ∷ difference exts others

-- `GetNonHeaderExtensions`, `IsHeaderExtension` and `_IsSourceExtension`
unfoldable pub get_non_header_extensions : Extensions → List Text
unfolding get_header_extensions get_all_extensions difference
get_non_header_extensions e = difference (get_all_extensions e) (get_header_extensions e)

unfoldable pub is_header_extension : Extensions → Text → Bool
unfolding member get_header_extensions
is_header_extension e file_extension = member file_extension (get_header_extensions e)

unfoldable pub is_source_extension : Extensions → Text → Bool
unfolding member get_non_header_extensions
is_source_extension e s = member s (get_non_header_extensions e)

-- every suffix with every extension behind a dot
product : List String → List Text → List Text
product [] exts = []
product (suffix ∷ suffixes) exts =
    map (λ ext. text suffix ++ b'.' ∷ ext) exts ++ product suffixes exts

-- a name without a suffix that stands behind a dash or an underscore
drop_suffix : Text → Text → Option Text
unfolding ends_with
drop_suffix filename suffix =
    if ends_with suffix filename && ltb (length suffix) (length filename)
    then elim (get_elem? filename (length filename - length suffix - 1)) [
      | none ↦ none
      | some c ↦
          if c == b'-' || c == b'_'
          then some (take (length filename - length suffix - 1) filename)
          else none
    ]
    else none

drop_suffixes : Text → List Text → Text
unfolding drop_suffix without_extension
drop_suffixes filename [] = without_extension filename
drop_suffixes filename (suffix ∷ suffixes) = elim (drop_suffix filename suffix) [
  | some left ↦ left
  | none ↦ drop_suffixes filename suffixes
]

-- `_DropCommonSuffixes`
unfoldable pub drop_common_suffixes : Extensions → Text → Text
unfolding product get_header_extensions get_non_header_extensions drop_suffixes
drop_common_suffixes e filename = drop_suffixes filename (
    product ("test" ∷ "regtest" ∷ "unittest" ∷ []) (get_non_header_extensions e)
    ++ product ("inl" ∷ "imp" ∷ "internal" ∷ []) (get_header_extensions e))

-- _RE_FIRST_COMPONENT: ^[^-_.]+
abbrev first_component : Re
first_component = cat bol (plus (one (λ c. not (c == b'-' || (c == b'_' || c == b'.')))))

-- whether two base names start with the same component
share_component : Text → Text → Bool
unfolding match text_eq
share_component target include = elim (match first_component target) [
  | none ↦ false
  | some t ↦ elim (match first_component include) [
    | none ↦ false
    | some i ↦ text_eq (reverse t.before) (reverse i.before)
  ]
]

-- `_ClassifyInclude`, of the name of the file in the repository
unfoldable pub classify_include : Extensions → Text → Text → Bool → HeaderType
unfolding member cpp_headers extension drop_common_suffixes dirname basename normpath text_eq
    share_component
classify_include e repository_name include is_system =
    if is_system && not (member (extension include) (map text (".hpp" ∷ ".hxx" ∷ ".h++" ∷ [])))
    then (if member include cpp_headers then cpp_sys else c_sys)
    else let target = drop_common_suffixes e repository_name in
      let own = drop_common_suffixes e include in
      let target_dir_pub = normpath (dirname target ++ text "/../public") in
      if text_eq (basename target) (basename own)
        && (text_eq (dirname own) (dirname target) || text_eq (dirname own) target_dir_pub)
      then likely_my
      else if share_component (basename target) (basename own)
      then possible_my
      else other
