-- ===== src/Cpplint/HeaderGuard/Check.antt =====
-- `CheckForHeaderGuard` of build_support/cpplint.py, where the variable that it asks for is given.
use cmu.Base.{
  ℕ, ◌+◌, ◌-◌, Bool, false, not, ◌&&◌, ◌||◌, Option, none, some, List, [], ◌∷◌, ◌++◌, ◌==◌,
  if◌then◌else◌, length, drop, take, Text, text, text_eq,
}
use cmu.PyText.{words, starts_with}
use cmu.Regex.{
  Re, star, group, bol, word_edge, alt, chars, lit, none_of, opt, plus, space, spaces, seq, match,
  matches, finds, group?,
}
use cmu.Cpplint.Report.{report, Action, call, parse_nolint}
use cmu.Cpplint.Blocks.{line_at}

any_finds : Re → List Text → Bool
unfolding finds
any_finds r [] = false
any_finds r (line ∷ lines) = finds r line || any_finds r lines

any_matches : Re → List Text → Bool
unfolding matches
any_matches r [] = false
any_matches r (line ∷ lines) = matches r line || any_matches r lines

-- //\s*NOLINT\(build/header_guard\) and ^\s*#pragma\s+once
abbrev nolint_guard : Re
nolint_guard = seq (lit "//" ∷ spaces ∷ lit "NOLINT(build/header_guard)" ∷ [])

abbrev pragma_once : Re
pragma_once = seq (bol ∷ spaces ∷ lit "#pragma" ∷ plus space ∷ lit "once" ∷ [])

-- the variables of the loop over the lines
pub record Guard : Type 0 where
  pub ifndef : Text
  pub ifndef_linenum : ℕ
  pub define : Text
  pub endif : Text
  pub endif_linenum : ℕ

abbrev pub no_guard : Guard
no_guard = record { ifndef = []; ifndef_linenum = 0; define = []; endif = []; endif_linenum = 0 }

-- the parts of the body of the loop
see_ifndef : ℕ → Text → Text → Guard → Guard
unfolding text_eq
see_ifndef linenum directive name g =
    if length g.ifndef == 0 && text_eq directive (text "#ifndef")
    then record g { ifndef = name; ifndef_linenum = linenum }
    else g

see_define : Text → Text → Guard → Guard
unfolding text_eq
see_define directive name g =
    if length g.define == 0 && text_eq directive (text "#define")
    then record g { define = name }
    else g

see_words : ℕ → List Text → Guard → Guard
unfolding see_ifndef see_define
see_words linenum (directive ∷ name ∷ more) g =
    see_define directive name (see_ifndef linenum directive name g)
see_words linenum _ g = g

see_line : ℕ → Text → Guard → Guard
unfolding words see_words starts_with
see_line linenum line g =
    let seen = see_words linenum (words line) g in
    if starts_with (text "#endif") line
    then record seen { endif = line; endif_linenum = linenum }
    else seen

-- the loop over the lines, from a number on
pub see_lines : ℕ → List Text → Guard → Guard
unfolding see_line
see_lines linenum [] g = g
see_lines linenum (line ∷ lines) g = see_lines (linenum + 1) lines (see_line linenum line g)

-- #endif\s*//\s*…(_)?\b
abbrev endif_comment : Text → Re
endif_comment cppvar = seq (
    lit "#endif"
    ∷ spaces
    ∷ lit "//"
    ∷ spaces
    ∷ chars cppvar
    ∷ opt (group 1 (lit "_"))
    ∷ word_edge
    ∷ [])

-- #endif\s*/\*\s*…(_)?\s*\*/
abbrev endif_block_comment : Text → Re
endif_block_comment cppvar = seq (
    lit "#endif"
    ∷ spaces
    ∷ lit "/*"
    ∷ spaces
    ∷ chars cppvar
    ∷ opt (group 1 (lit "_"))
    ∷ spaces
    ∷ lit "*/"
    ∷ [])

-- ^(?:(?:'(?:\.|[^'])*')|(?:"(?:\.|[^"])*")|[^'"])*//
abbrev line_comment : Re
line_comment = seq (
    bol
    ∷ star (
        alt (seq (lit "'" ∷ star (alt (lit ".") (none_of "'")) ∷ lit "'" ∷ [])) (
          alt (seq (lit "\"" ∷ star (alt (lit ".") (none_of "\"")) ∷ lit "\"" ∷ []))
            (none_of "'\"")))
    ∷ lit "//"
    ∷ [])

module _ (filename cppvar : Text) (lines : List Text) where
  -- a report of the line of `#endif`
  endif_report : ℕ → ℕ → Text → Text → Action
  endif_report linenum error_level start end = call (
      report filename linenum "build/header_guard" error_level
        (text "#endif line should be \"#endif  " ++ (start ++ (cppvar ++ end))))

  -- what is said of a comment behind `#endif` that has the variable, with an underscore or without
  deprecated : ℕ → Option Text → Text → Text → List Action
  unfolding endif_report
  deprecated linenum none start end = []
  deprecated linenum (some underscore) start end = endif_report linenum 0 start end ∷ []

  -- what is said of the line of `#endif`
  check_endif : Guard → List Action
  unfolding match group? any_matches deprecated endif_report
  check_endif g = elim (match (endif_comment cppvar) g.endif) [
    | some m ↦ deprecated g.endif_linenum (group? 1 m) (text "// ") (text "\"")
    | none ↦
        let missing = endif_report g.endif_linenum 5 (text "// ") (text "\"") ∷ [] in
        if any_matches line_comment (take (length lines - 2) (drop 1 lines))
        then missing
        else elim (match (endif_block_comment cppvar) g.endif) [
          | some m ↦ deprecated g.endif_linenum (group? 1 m) (text "/* ") (text " */\"")
          | none ↦ missing
        ]
  ]

  -- what is said of the name that `#ifndef` asks for
  check_ifndef : Guard → List Action
  unfolding text_eq
  check_ifndef g =
      if text_eq g.ifndef cppvar
      then []
      else parse_nolint (line_at lines g.ifndef_linenum) g.ifndef_linenum
        ∷ call (
            report filename g.ifndef_linenum "build/header_guard"
              (if text_eq g.ifndef (cppvar ++ text "_") then 0 else 5)
              (text "#ifndef header guard has wrong style, please use: " ++ cppvar))
        ∷ []

  -- the rest of the check, where the loop is over
  pub check_guard : Guard → List Action
  unfolding text_eq check_ifndef check_endif
  check_guard g =
      if length g.ifndef == 0 || (length g.define == 0 || not (text_eq g.ifndef g.define))
      then call (
          report filename 0 "build/header_guard" 5
            (text "No #ifndef header guard found, suggested CPP variable is: " ++ cppvar))
        ∷ []
      else check_ifndef g
        ++ (parse_nolint (line_at lines g.endif_linenum) g.endif_linenum ∷ check_endif g)

  -- `CheckForHeaderGuard`, of the lines without raw strings
  unfoldable pub check_for_header_guard : List Action
  unfolding any_finds see_lines check_guard
  check_for_header_guard =
      if any_finds nolint_guard lines || any_finds pragma_once lines
      then []
      else check_guard (see_lines 0 lines no_guard)
