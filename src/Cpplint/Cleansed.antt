-- ===== src/Cpplint/Cleansed.antt =====
-- `CleansedLines` of build_support/cpplint.py: raw strings, collapsed strings, and the four copies of
-- the lines of a file.
pub mod Copies
pub mod Rounds
use cmu.Base.{
  ℕ, zero, suc, ◌+◌, Bool, true, false, not, ◌||◌, Option, none, some, List, [], ◌∷◌, ◌++◌, map,
  leb, ◌&&◌, ◌==◌, if◌then◌else◌, length, drop, Text, text,
}
use cmu.PyText.{is_space, contains, find, replace}
use cmu.Regex.{
  Re, one, star, lazy, group, bol, eol, word_edge, cat, alt, lit, any_of, none_of, dot, opt, plus,
  spaces, non_space, any_word, seq, match, matches, finds, group_or, sub,
}
use cmu.Cpplint.Comments.{cleanse_comments}

-- ^(.*?)\b(?:R|u8R|uR|UR|LR)"([^\s\\()]*)\((.*)$
abbrev raw_prefix : Re
raw_prefix = any_word ("R" ∷ "u8R" ∷ "uR" ∷ "UR" ∷ "LR" ∷ [])

abbrev raw_delimiter : Re
raw_delimiter = one (λ c. not (is_space c || contains c (text "\\()")))

abbrev raw_string : Re
raw_string = seq (
    bol
    ∷ group 1 (lazy dot)
    ∷ word_edge
    ∷ raw_prefix
    ∷ lit "\""
    ∷ group 2 (star raw_delimiter)
    ∷ lit "("
    ∷ group 3 (star dot)
    ∷ eol
    ∷ [])

-- a quoted text, in which a backslash may stand before any character
abbrev quoted : Re → Re → Re
quoted quote inside = seq (quote ∷ star (alt (cat (lit "\\") dot) inside) ∷ quote ∷ [])

-- ^([^'"]|'(\\.|[^'])*'|"(\\.|[^"])*")*//
abbrev comment_before : Re
comment_before = seq (
    bol
    ∷ star (
        alt (none_of "'\"")
          (alt (quoted (lit "'") (none_of "'")) (quoted (lit "\"") (none_of "\""))))
    ∷ lit "//"
    ∷ [])

-- In these parts of a round of the loop over the raw strings that begin on a line, `next` is the
-- rounds behind it. The delimiter is that of a raw string which goes on behind the line.
end_raw : (Text → Text × Option Text) → Text → Text → Text → Text × Option Text
unfolding find
end_raw next head delimiter tail = elim (find delimiter tail) [
  | none ↦ (head ++ text "\"\"", some delimiter)
  | some end ↦ next (head ++ (text "\"\"" ++ drop (end + length delimiter) tail))
]

open_raw_round : (Text → Text × Option Text) → Text → Text × Option Text
unfolding match matches group_or end_raw
open_raw_round next line = elim (match raw_string line) [
  | none ↦ (line, none)
  | some m ↦
      if matches comment_before (group_or 1 m)
      then (line, none)
      else end_raw next (group_or 1 m) (b')' ∷ (group_or 2 m ++ text "\"")) (group_or 3 m)
]

-- The loop, in at most as many rounds as the number; the first argument is the result if they run out. A
-- round shortens the line, so one for each character and one more never run out.
pub open_raw_strings : (Text → Text × Option Text) → ℕ → Text → Text × Option Text
unfolding open_raw_round
open_raw_strings out zero line = out line
open_raw_strings out (suc fuel) line = open_raw_round (open_raw_strings out fuel) line

-- ^(\s*)\S
abbrev leading_space : Re
leading_space = seq (bol ∷ group 1 spaces ∷ non_space ∷ [])

-- What a line becomes, where the delimiter is that of the raw string it begins in. A line that holds a
-- delimiter holds its bracket, so the match of the leading space does not fail.
cleanse_raw_line : Text → Option Text → Text × Option Text
unfolding open_raw_strings match group_or find
cleanse_raw_line line none = open_raw_strings (λ t. (t, none)) (suc (length line)) line
cleanse_raw_line line (some delimiter) = elim (find delimiter line) [
  | none ↦ (text "\"\"", some delimiter)
  | some end ↦ elim (match leading_space line) [
    | none ↦ (text "\"\"", some delimiter)
    | some m ↦
        let left = group_or 1 m ++ (text "\"\"" ++ drop (end + length delimiter) line) in
        open_raw_strings (λ t. (t, none)) (suc (length left)) left
  ]
]

cleanse_raw_from : List Text → Option Text → List Text
unfolding cleanse_raw_line
cleanse_raw_from [] delimiter = []
cleanse_raw_from (line ∷ lines) delimiter =
    let (left, delimiter') = cleanse_raw_line line delimiter in
    left ∷ cleanse_raw_from lines delimiter'

-- `CleanseRawStrings`
unfoldable pub cleanse_raw_strings : List Text → List Text
unfolding cleanse_raw_from
cleanse_raw_strings lines = cleanse_raw_from lines none

-- ^\s*#\s*include\s*([<"])([^>"]*)[>"].*$
abbrev pub include_pattern : Re
include_pattern = seq (
    bol
    ∷ spaces
    ∷ lit "#"
    ∷ spaces
    ∷ lit "include"
    ∷ spaces
    ∷ group 1 (any_of "<\"")
    ∷ group 2 (star (none_of ">\""))
    ∷ any_of ">\""
    ∷ star dot
    ∷ eol
    ∷ [])

abbrev digit : Re
digit = one (λ c. leb b'0' c && leb c b'9')

abbrev hex_digit : Re
hex_digit =
    one (λ c. leb b'0' c && leb c b'9' || leb b'a' c && leb c b'f' || leb b'A' c && leb c b'F')

-- [0-9a-zA-Z_]
abbrev literal_char : Re
literal_char = one (λ c.
    leb b'0' c && leb c b'9' || leb b'a' c && leb c b'z' || leb b'A' c && leb c b'Z' || c == b'_')

-- \\([abfnrtv?"\\\']|\d+|x[0-9a-fA-F]+)
abbrev cleanse_line_escapes : Re
cleanse_line_escapes =
    cat (lit "\\")
      (alt (any_of "abfnrtv?\"\\'") (alt (plus digit) (cat (lit "x") (plus hex_digit))))

-- ^([^'"]*)(['"])(.*)$
abbrev first_quote : Re
first_quote =
    seq (
      bol ∷ group 1 (star (none_of "'\"")) ∷ group 2 (any_of "'\"") ∷ group 3 (star dot) ∷ eol ∷ [])

-- \b(?:0[bBxX]?|[1-9])[0-9a-fA-F]*$
abbrev number_end : Re
number_end = seq (
    word_edge
    ∷ alt (cat (lit "0") (opt (any_of "bBxX"))) (one (λ c. leb b'1' c && leb c b'9'))
    ∷ star hex_digit
    ∷ eol
    ∷ [])

-- ^((?:'?[0-9a-zA-Z_])*)(.*)$
abbrev literal_rest : Re
literal_rest =
    seq (bol ∷ group 1 (star (cat (opt (lit "'")) literal_char)) ∷ group 2 (star dot) ∷ eol ∷ [])

-- In these parts of a round of the loop of `_CollapseStrings`, `next` is the rounds behind it. First a
-- quoted text, which leaves its quotes, if it is closed.
collapse_quoted : (Text → Text) → Text → Text → Text → Text → Text
unfolding find
collapse_quoted next elided quote head tail = elim (find quote tail) [
  | none ↦ elided
  | some second ↦ head ++ (quote ++ (quote ++ next (drop (second + 1) tail)))
]

-- a digit separator, which is dropped with those that follow it
collapse_number : (Text → Text) → Text → Text → Text → Text
unfolding match group_or replace
collapse_number next elided head tail = elim (match literal_rest (b'\'' ∷ tail)) [
  | none ↦ elided
  | some l ↦ head ++ (replace (text "'") [] (group_or 1 l) ++ next (group_or 2 l))
]

collapse_quote : (Text → Text) → Text → Text → Text → Text → Text
unfolding contains collapse_quoted finds collapse_number
collapse_quote next elided head quote tail =
    if contains b'"' quote
    then collapse_quoted next elided (text "\"") head tail
    else if finds number_end head
    then collapse_number next elided head tail
    else collapse_quoted next elided (text "'") head tail

collapse_round : (Text → Text) → Text → Text
unfolding match group_or collapse_quote
collapse_round next elided = elim (match first_quote elided) [
  | none ↦ elided
  | some m ↦ collapse_quote next elided (group_or 1 m) (group_or 2 m) (group_or 3 m)
]

-- The loop, in at most as many rounds as the number; the first argument is the result if they run out. A
-- round reads a character, so one for each and one more never run out.
pub collapse_from : (Text → Text) → ℕ → Text → Text
unfolding collapse_round
collapse_from out zero elided = out elided
collapse_from out (suc fuel) elided = collapse_round (collapse_from out fuel) elided

-- `_CollapseStrings`
unfoldable pub collapse_strings : Text → Text
unfolding collapse_from matches sub
collapse_strings elided =
    if matches include_pattern elided
    then elided
    else let left = sub cleanse_line_escapes [] elided in
      collapse_from (λ t. t) (suc (length left)) left

pub record CleansedLines : Type 0 where
  pub elided : List Text
  pub lines : List Text
  pub raw_lines : List Text
  pub num_lines : ℕ
  pub lines_without_raw_strings : List Text

-- `__init__`
unfoldable pub cleansed_lines : List Text → CleansedLines
unfolding cleanse_raw_strings
cleansed_lines lines =
    let without = cleanse_raw_strings lines in
    record {
      elided = map (λ line. cleanse_comments (collapse_strings line)) without;
      lines = map cleanse_comments without;
      raw_lines = lines;
      num_lines = length lines;
      lines_without_raw_strings = without;
    }
