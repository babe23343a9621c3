-- ===== src/Cpplint/Constructs.antt =====
-- `CheckForNonStandardConstructs` of build_support/cpplint.py.
use cmu.Base.{
  ℕ, not, ◌&&◌, ◌||◌, Option, none, some, List, [], ◌∷◌, ◌++◌, leb, ◌==◌, if◌then◌else◌, Text, text,
}
use cmu.PyText.{is_space, replace}
use cmu.Regex.{
  Re, one, star, bol, word_edge, cat, alt, lit, any_of, dot, opt, plus, space, spaces, word,
  any_word, seq, matches, finds,
}
use cmu.Cpplint.Report.{Report, report_if}
use cmu.Cpplint.Constructors.{check_constructor}
use cmu.Cpplint.Blocks.{Block, ClassInfo}

abbrev digit : Re
digit = one (λ c. leb b'0' c && leb c b'9')

-- printf\s*\(.*".*% and what follows
abbrev printf_with : List Re → Re
printf_with end =
    seq (lit "printf" ∷ spaces ∷ lit "(" ∷ star dot ∷ lit "\"" ∷ star dot ∷ lit "%" ∷ end)

-- [-+ ]?\d*q and \d+\$
abbrev q_format : Re
q_format = printf_with (opt (any_of "-+ ") ∷ star digit ∷ lit "q" ∷ [])

abbrev position_format : Re
position_format = printf_with (plus digit ∷ lit "$" ∷ [])

-- ("|').*\\(%|\[|\(|{)
abbrev undefined_escape : Re
undefined_escape = seq (any_of "\"'" ∷ star dot ∷ lit "\\" ∷ any_of "%[({" ∷ [])

-- \b(const|…)\s+(register|static|extern|typedef)\b
abbrev storage_class : Re
storage_class = seq (
    word_edge
    ∷ alt
        (any_word (
          "const" ∷ "volatile" ∷ "void" ∷ "char" ∷ "short" ∷ "int" ∷ "long" ∷ "float" ∷ "double"
          ∷ "signed" ∷ "unsigned" ∷ "schar" ∷ []))
        (cat (opt (lit "u")) (any_word ("int8" ∷ "int16" ∷ "int32" ∷ "int64" ∷ [])))
    ∷ plus space
    ∷ any_word ("register" ∷ "static" ∷ "extern" ∷ "typedef" ∷ [])
    ∷ word_edge
    ∷ [])

-- \s*#\s*endif\s*[^/\s]+
abbrev text_after_endif : Re
text_after_endif = seq (
    spaces
    ∷ lit "#"
    ∷ spaces
    ∷ lit "endif"
    ∷ spaces
    ∷ plus (one (λ c. not (c == b'/' || is_space c)))
    ∷ [])

-- \s*class\s+(\w+\s*::\s*)+\w+\s*;
abbrev inner_forward : Re
inner_forward = seq (
    spaces
    ∷ lit "class"
    ∷ plus space
    ∷ plus (seq (plus word ∷ spaces ∷ lit "::" ∷ spaces ∷ []))
    ∷ plus word
    ∷ spaces
    ∷ lit ";"
    ∷ [])

-- (\w+|[+-]?\d+(\.\d*)?)\s*(<|>)\?=?\s*(\w+|[+-]?\d+)(\.\d*)?
abbrev fraction : Re
fraction = opt (seq (lit "." ∷ star digit ∷ []))

abbrev signed_number : Re
signed_number = seq (opt (any_of "+-") ∷ plus digit ∷ [])

abbrev min_max : Re
min_max = seq (
    alt (plus word) (cat signed_number fraction)
    ∷ spaces
    ∷ any_of "<>"
    ∷ lit "?"
    ∷ opt (lit "=")
    ∷ spaces
    ∷ alt (plus word) signed_number
    ∷ fraction
    ∷ [])

-- ^\s*const\s*string\s*&\s*\w+\s*;
abbrev string_reference : Re
string_reference = seq (
    bol
    ∷ spaces
    ∷ lit "const"
    ∷ spaces
    ∷ lit "string"
    ∷ spaces
    ∷ lit "&"
    ∷ spaces
    ∷ plus word
    ∷ spaces
    ∷ lit ";"
    ∷ [])

-- the checks of a line for which it does not matter where it stands, on the line with its strings and
-- on the line without
check_line : Text → ℕ → Text → Text → List Report
unfolding finds matches replace
check_line filename linenum line elided =
    report_if (finds q_format line) filename linenum "runtime/printf_format" 3
      (text "%q in format strings is deprecated.  Use %ll instead.")
    ++ (report_if (finds position_format line) filename linenum "runtime/printf_format" 2
          (text "%N$ formats are unconventional.  Try rewriting to avoid them.")
        ++ (report_if (finds undefined_escape (replace (text "\\\\") [] line)) filename linenum
              "build/printf_format" 3
              (text "%, [, (, and { are undefined character escapes.  Unescape them.")
            ++ (report_if (finds storage_class elided) filename linenum "build/storage_class" 5 (
                  text
                    "Storage-class specifier (static, extern, typedef, etc) should be at the beginning of the declaration.")
                ++ (report_if (matches text_after_endif elided) filename linenum
                      "build/endif_comment" 5
                      (text "Uncommented text after #endif is non-standard.  Use a comment.")
                    ++ (report_if (matches inner_forward elided) filename linenum
                          "build/forward_decl" 5
                          (text "Inner-style forward declarations are invalid.  Remove this line.")
                        ++ (report_if (finds min_max elided) filename linenum "build/deprecated" 3 (
                              text
                                ">? and <? (max and min) operators are non-standard and deprecated.")
                            ++ report_if (finds string_reference elided) filename linenum
                                "runtime/member_string_references" 2
                                (text
                                  "const string& members are dangerous. It is much better to use alternatives, such as pointers or simple constants.")))))))

-- `CheckForNonStandardConstructs` of a line with its strings and without, where the innermost class is
-- given. `none` is an IndexError.
unfoldable pub check_for_non_standard_constructs :
    Text → ℕ → Text → Text → Option (Block × ClassInfo) → Option (List Report)
unfolding check_line check_constructor
check_for_non_standard_constructs filename linenum line elided none =
    some (check_line filename linenum line elided)
check_for_non_standard_constructs filename linenum line elided (some (b, c)) =
    if not b.seen_open_brace
    then some (check_line filename linenum line elided)
    else elim (check_constructor filename linenum elided c) [
      | none ↦ none
      | some reports ↦ some (check_line filename linenum line elided ++ reports)
    ]
