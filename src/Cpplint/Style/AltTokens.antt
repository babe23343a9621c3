-- ===== src/Cpplint/Style/AltTokens.antt =====
-- `CheckAltTokens` of build_support/cpplint.py.
use cmu.Base.{
  ℕ, Bool, true, false, ◌||◌, Option, none, some, List, [], ◌∷◌, ◌++◌, if◌then◌else◌, String, Text,
  text, text_eq,
}
use cmu.PyText.{find}
use cmu.Regex.{
  Re, Cursor, group, bol, eol, alt, lit, any_of, ahead, any_word, spaces, seq, matches, group_or,
  find_all,
}
use cmu.Cpplint.Report.{Report, report}

-- `_ALT_TOKEN_REPLACEMENT`
abbrev pub alt_token_replacement : List (String × String)
alt_token_replacement =
    ("and", "&&")
    ∷ ("bitor", "|")
    ∷ ("or", "||")
    ∷ ("xor", "^")
    ∷ ("compl", "~")
    ∷ ("bitand", "&")
    ∷ ("and_eq", "&=")
    ∷ ("or_eq", "|=")
    ∷ ("xor_eq", "^=")
    ∷ ("not", "!")
    ∷ ("not_eq", "!=")
    ∷ []

abbrev keys : List (String × String) → List String
keys [] = []
keys ((k, v) ∷ kvs) = k ∷ keys kvs

-- the value of a key that is there
lookup : Text → List (String × String) → Text
unfolding text_eq
lookup token [] = []
lookup token ((k, v) ∷ kvs) = if text_eq token (text k) then text v else lookup token kvs

-- _ALT_TOKEN_REPLACEMENT_PATTERN: [ =()](and|…)(?=[ (]|$)
abbrev alt_token_replacement_pattern : Re
alt_token_replacement_pattern = seq (
    any_of " =()"
    ∷ group 1 (any_word (keys alt_token_replacement))
    ∷ ahead (alt (any_of " (") eol)
    ∷ [])

-- ^\s*#
abbrev preprocessor : Re
preprocessor = seq (bol ∷ spaces ∷ lit "#" ∷ [])

report_tokens : Text → ℕ → List Cursor → List Report
unfolding group_or lookup
report_tokens filename linenum [] = []
report_tokens filename linenum (m ∷ ms) =
    report filename linenum "readability/alt_tokens" 2 (
      text "Use operator "
      ++ (lookup (group_or 1 m) alt_token_replacement ++ (text " instead of " ++ group_or 1 m)))
    ∷ report_tokens filename linenum ms

is_some : Option ℕ → Bool
is_some none = false
is_some (some n) = true

-- `CheckAltTokens`, of the elided line
unfoldable pub check_alt_tokens : Text → ℕ → Text → List Report
unfolding matches find find_all report_tokens is_some
check_alt_tokens filename linenum line =
    if matches preprocessor line
    then []
    else if is_some (find (text "/*") line) || is_some (find (text "*/") line)
    then []
    else report_tokens filename linenum (find_all alt_token_replacement_pattern line)
