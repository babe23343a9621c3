-- ===== src/Cpplint/Include.antt =====
-- `_IncludeState` of build_support/cpplint.py: which headers a file has included, and the order of
-- the sections that they come in.
pub mod Grammar
pub mod Order
pub mod Find
pub mod Canonical
mod Tests
use cmu.Base.{
  ℕ, zero, suc, ◌+◌, ◌-◌, Bool, true, false, not, ◌&&◌, ◌||◌, Option, none, some, List, [], ◌∷◌,
  ◌++◌, leb, ◌==◌, if◌then◌else◌, get_elem?, length, Text, text, text_eq,
}
use cmu.PyText.{replace, lower, text_lt}
use cmu.Regex.{Re, bol, word_edge, lit, spaces, seq, matches}

-- the constants `_C_SYS_HEADER` … `_OTHER_HEADER`
pub data HeaderType : Type 0 where
  c_sys cpp_sys likely_my possible_my other : HeaderType

-- the constants `_INITIAL_SECTION` … `_OTHER_H_SECTION`
abbrev pub initial_section : ℕ
initial_section = 0

abbrev pub my_h_section : ℕ
my_h_section = 1

abbrev pub c_section : ℕ
c_section = 2

abbrev pub cpp_section : ℕ
cpp_section = 3

abbrev pub other_h_section : ℕ
other_h_section = 4

-- `_TYPE_NAMES` and `_SECTION_NAMES`
type_name : HeaderType → Text
type_name c_sys = text "C system header"
type_name cpp_sys = text "C++ system header"
type_name likely_my = text "header this file implements"
type_name possible_my = text "header this file may implement"
type_name other = text "other header"

section_name : ℕ → Text
section_name zero = text "... nothing. (This can't be an error.)"
section_name (suc zero) = text "a header this file implements"
section_name (suc (suc zero)) = text "C system header"
section_name (suc (suc (suc zero))) = text "C++ system header"
section_name _ = text "other header"

pub record IncludeState : Type 0 where
  pub include_list : List (List (Text × ℕ))
  pub section : ℕ
  pub last_header : Text

-- `__init__`
abbrev pub initial : IncludeState
initial = record { include_list = [] ∷ []; section = initial_section; last_header = [] }

find_in : Text → List (Text × ℕ) → Option ℕ
unfolding text_eq
find_in header [] = none
find_in header ((h, n) ∷ fs) = if text_eq h header then some n else find_in header fs

find_in_lists : Text → List (List (Text × ℕ)) → Option ℕ
unfolding find_in
find_in_lists header [] = none
find_in_lists header (fs ∷ lists) = elim (find_in header fs) [
  | some n ↦ some n
  | none ↦ find_in_lists header lists
]

-- `FindHeader`; its -1 is `none`
unfoldable pub find_header : Text → IncludeState → Option ℕ
unfolding find_in_lists
find_header header s = find_in_lists header s.include_list

-- `include_list[-1] = f(include_list[-1])`; the list is never empty, see Include/Find
abbrev pub on_last {ℓ} : {A : Type ℓ} → (A → A) → List A → List A
on_last f [] = []
on_last f (x ∷ []) = f x ∷ []
on_last f (x ∷ y ∷ xs) = x ∷ on_last f (y ∷ xs)

-- what the directive of `ResetSection` does to the list of includes
reset_list : Text → List (List (Text × ℕ)) → List (List (Text × ℕ))
unfolding text_eq
reset_list directive lists =
    if text_eq directive (text "if")
      || text_eq directive (text "ifdef")
      || text_eq directive (text "ifndef")
    then lists ++ [] ∷ []
    else if text_eq directive (text "else") || text_eq directive (text "elif")
    then on_last (λ _. []) lists
    else lists

-- `ResetSection`
unfoldable pub reset_section : Text → IncludeState → IncludeState
unfolding reset_list
reset_section directive s = record s {
  include_list = reset_list directive s.include_list;
  section = initial_section;
  last_header = [];
}

-- `SetLastHeader`
unfoldable pub set_last_header : Text → IncludeState → IncludeState
set_last_header path s = record s { last_header = path }

-- `include_state.include_list[-1].append((include, linenum))` of `CheckIncludeLine`
unfoldable pub append_include : Text → ℕ → IncludeState → IncludeState
append_include include linenum s = record s {
  include_list = on_last (λ fs. fs ++ (include, linenum) ∷ []) s.include_list;
}

-- `CanonicalizeAlphabeticalOrder`
unfoldable pub canonicalize_alphabetical_order : Text → Text
unfolding replace lower
canonicalize_alphabetical_order path =
    lower (replace (text "-") (text "_") (replace (text "-inl.h") (text ".h") path))

-- `clean_lines.elided[linenum - 1]`, which for line 0 is the last line
abbrev pub line_before : ℕ → List Text → Option Text
line_before zero elided = get_elem? elided (length elided - 1)
line_before (suc n) elided = get_elem? elided n

-- ^\s*#\s*include\b
abbrev pub include_line : Re
include_line = seq (bol ∷ spaces ∷ lit "#" ∷ spaces ∷ lit "include" ∷ word_edge ∷ [])

-- `IsInAlphabeticalOrder`; `none` is the IndexError for a line that is not there
unfoldable pub is_in_alphabetical_order : List Text → ℕ → Text → IncludeState → Option Bool
unfolding text_lt matches
is_in_alphabetical_order elided linenum path s =
    if text_lt path s.last_header
    then elim (line_before linenum elided) [
      | none ↦ none
      | some line ↦ some (not (matches include_line line))
    ]
    else some true

-- The section that a header of a type leads to, and whether it may stand there.
pub next_section : HeaderType → ℕ → Option ℕ
next_section c_sys section = if leb section c_section then some c_section else none
next_section cpp_sys section = if leb section cpp_section then some cpp_section else none
next_section likely_my section =
    some (if leb section my_h_section then my_h_section else other_h_section)
next_section possible_my section =
    some (if leb section my_h_section then my_h_section else other_h_section)
next_section other section = some other_h_section

-- `CheckNextIncludeOrder`; an empty message is no error
unfoldable pub check_next_include_order : HeaderType → IncludeState → IncludeState × Text
unfolding next_section type_name section_name
check_next_include_order header_type s = elim (next_section header_type s.section) [
  | none ↦ (
    record s { last_header = [] },
    text "Found " ++ type_name header_type ++ text " after " ++ section_name s.section,
  )
  | some section ↦ (
    record s {
      section = section;
      last_header = if not (s.section == section) then [] else s.last_header;
    },
    [],
  )
]
