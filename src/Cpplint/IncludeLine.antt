-- ===== src/Cpplint/IncludeLine.antt =====
-- `CheckIncludeLine` of build_support/cpplint.py, over the state of the includes. The names of files in
-- the repository, which `FileInfo.RepositoryName` finds in the file system, are a parameter.
pub mod Effect
mod Tests
use cmu.Base.{
  ℕ, zero, suc, ◌+◌, ◌-◌, Bool, true, false, not, ◌&&◌, ◌||◌, Option, none, some, List, [], ◌∷◌,
  ◌++◌, leb, if◌then◌else◌, length, get_elem?, take, String, Text, text, text_eq,
}
use cmu.PyText.{find, ends_with}
use cmu.PyOs.{dirname, basename, extension, without_extension}
use cmu.Regex.{
  Re, one, star, spaces, group, bol, eol, alt, lit, none_of, any_word, plus, seq, match, matches,
  group_or,
}
use cmu.Cpplint.Report.{Report, report, report_if, decimal}
use cmu.Cpplint.Cleansed.{CleansedLines, include_pattern}
use cmu.Cpplint.Include.{
  HeaderType, IncludeState, find_header, set_last_header, append_include,
  canonicalize_alphabetical_order, is_in_alphabetical_order, check_next_include_order,
}
use cmu.Cpplint.Headers.{
  Extensions, get_header_extensions, get_non_header_extensions, classify_include,
}

-- #include\s*"([^/]+\.h)"
abbrev bare_include : Re
bare_include = seq (
    lit "#include"
    ∷ spaces
    ∷ lit "\""
    ∷ group 1 (seq (plus (none_of "/") ∷ lit ".h" ∷ []))
    ∷ lit "\""
    ∷ [])

-- _THIRD_PARTY_HEADERS_PATTERN: ^(?:[^/]*[A-Z][^/]*\.h|lua\.h|lauxlib\.h|lualib\.h)$
abbrev third_party_headers_pattern : Re
third_party_headers_pattern = seq (
    bol
    ∷ alt
        (seq (
          star (none_of "/")
          ∷ one (λ c. leb b'A' c && leb c b'Z')
          ∷ star (none_of "/")
          ∷ lit ".h"
          ∷ []))
        (any_word ("lua.h" ∷ "lauxlib.h" ∷ "lualib.h" ∷ []))
    ∷ eol
    ∷ [])

-- `part in whole`
holds : Text → Text → Bool
unfolding find
holds part whole = elim (find part whole) [ none ↦ false | some i ↦ true ]

-- the check that an include names a directory
check_subdir : Text → ℕ → Text → List Report
unfolding match matches group_or
check_subdir filename linenum line = elim (match bare_include line) [
  | none ↦ []
  | some m ↦
      report_if (not (matches third_party_headers_pattern (group_or 1 m))) filename linenum
        "build/include_subdir" 4 (text "Include the directory when naming .h files")
]

abbrev pub before :
    List Report → Option (IncludeState × List Report) → Option (IncludeState × List Report)
before reports none = none
before reports (some (s, later)) = some (s, reports ++ later)

-- the header that a line includes, and whether it does so in angle brackets
pub included : Text → Option (Text × Bool)
unfolding match group_or text_eq
included line = elim (match include_pattern line) [
  | none ↦ none
  | some m ↦ some (group_or 2 m, text_eq (group_or 1 m) (text "<"))
]

module _ (repository_name : Text → Text) (e : Extensions) (filename : Text) where
  -- the first extension of a source file that an include from another directory has
  foreign_source : Text → List Text → Option Text
  unfolding ends_with text_eq dirname
  foreign_source include [] = none
  foreign_source include (ext ∷ exts) =
      if ends_with (b'.' ∷ ext) include
        && not (text_eq (dirname (repository_name filename)) (dirname include))
      then some ext
      else foreign_source include exts

  -- whether an include is a header of the file itself, whatever its name
  third_src_header : Text → List Text → Bool
  unfolding extension holds basename
  third_src_header include [] = false
  third_src_header include (ext ∷ exts) =
      let basefilename =
        take (length filename - length (extension (basename (repository_name filename))))
          filename in
      let headername = repository_name (basefilename ++ b'.' ∷ ext) in
      holds headername include || holds include headername || third_src_header include exts

  -- the message about the order, with its advice
  order_reports : ℕ → Text → List Report
  unfolding without_extension basename
  order_reports linenum [] = []
  order_reports linenum (c ∷ message) =
      report filename linenum "build/include_order" 4 (
        (c ∷ message)
        ++ (text ". Should be: "
            ++ (without_extension (basename (repository_name filename))
                ++ text ".h, c system, c++ system, other.")))
      ∷ []

  -- the end of what is done with a header that is kept: where the message about the order and the order
  -- of the alphabet are known
  pub finish_include : ℕ → Text → Text → IncludeState → Bool → IncludeState × List Report
  unfolding canonicalize_alphabetical_order set_last_header order_reports
  finish_include linenum include message s ordered = (
    set_last_header (canonicalize_alphabetical_order include) s,
    order_reports linenum message
        ++ report_if (not ordered) filename linenum "build/include_alpha" 4
            (text "Include \"" ++ (include ++ text "\" not in alphabetical order")),
  )

  -- what is done with a header that is kept
  pub keep_include :
      List Text → ℕ → Text → Bool → IncludeState → Option (IncludeState × List Report)
  unfolding append_include check_next_include_order classify_include is_in_alphabetical_order
      canonicalize_alphabetical_order finish_include
  keep_include elided linenum include is_system s =
      let (s', message) =
        check_next_include_order (classify_include e (repository_name filename) include is_system)
          (append_include include linenum s) in
      elim (is_in_alphabetical_order elided linenum (canonicalize_alphabetical_order include) s') [
        | none ↦ none
        | some ordered ↦ some (finish_include linenum include message s' ordered)
      ]

  -- what is done with a header that is included
  pub on_include : List Text → ℕ → Text → Bool → IncludeState → Option (IncludeState × List Report)
  unfolding find_header decimal foreign_source third_src_header matches keep_include
      get_header_extensions get_non_header_extensions
  on_include elided linenum include is_system s = elim (find_header include s) [
    | some duplicate_line ↦ some (
      s,
      report filename linenum "build/include" 4 (
            text "\""
            ++ (include
                ++ (text "\" already included at "
                    ++ (filename ++ (text ":" ++ decimal duplicate_line)))))
          ∷ [],
    )
    | none ↦ elim (foreign_source include (get_non_header_extensions e)) [
      | some ext ↦ some (
        s,
        report filename linenum "build/include" 4
              (text "Do not include ." ++ (ext ++ text " files from other packages"))
            ∷ [],
      )
      | none ↦
          elim (third_src_header include (get_header_extensions e)
            || not (matches third_party_headers_pattern include)) [
              | true ↦ keep_include elided linenum include is_system s
              | false ↦ some (s, [])
            ]
    ]
  ]

  pub check_line_include : List Text → ℕ → Text → IncludeState → Option (IncludeState × List Report)
  unfolding included on_include check_subdir
  check_line_include elided linenum line s = elim (included line) [
    | none ↦ some (s, check_subdir filename linenum line)
    | some (include, is_system) ↦
        before (check_subdir filename linenum line) (on_include elided linenum include is_system s)
  ]

  -- `CheckIncludeLine`; `none` is the IndexError of a line that is not there
  unfoldable pub check_include_line :
      CleansedLines → ℕ → IncludeState → Option (IncludeState × List Report)
  unfolding check_line_include
  check_include_line clean_lines linenum s = elim (get_elem? clean_lines.lines linenum) [
    | none ↦ none
    | some line ↦ check_line_include clean_lines.elided linenum line s
  ]
