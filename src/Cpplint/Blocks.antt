-- ===== src/Cpplint/Blocks.antt =====
-- The blocks of build_support/cpplint.py: `_BlockInfo`, `_ExternCInfo`, `_ClassInfo` and
-- `_NamespaceInfo`, with the checks at their begin and at their end.
use cmu.Base.{
  ℕ, zero, suc, ◌+◌, Bool, true, false, not, ◌&&◌, ◌||◌, none, some, List, [], ◌∷◌, ◌++◌, ltb, ◌==◌,
  if◌then◌else◌, length, get_elem?, drop, Text, text, text_eq,
}
use cmu.PyText.{is_space, contains, count}
use cmu.Regex.{
  Re, one, star, group, bol, eol, word_edge, alt, chars, lit, none_of, dot, plus, space, spaces,
  any_word, seq, match, search_all, matches, finds, group_or,
}
use cmu.Cpplint.Report.{Report, report}
use cmu.Cpplint.Cleansed.{CleansedLines}
use cmu.Cpplint.LineChecks.{get_indent_level}

-- the constants `_NO_ASM` … `_BLOCK_ASM`
pub data Asm : Type 0 where
  no_asm inside_asm end_asm block_asm : Asm

pub record ClassInfo : Type 0 where
  pub name : Text
  pub is_derived : Bool
  pub access : Text
  pub is_struct : Bool
  pub class_indent : ℕ
  pub last_line : ℕ

-- the class of a block, with the fields that it adds
pub data Kind : Type 0 where
  plain extern_c : Kind
  class_info : ClassInfo → Kind
  namespace_info : Text → Kind

-- `open_parentheses`, which may be negative, is the difference of two numbers: of the parentheses
-- opened and of those closed.
pub record Block : Type 0 where
  pub kind : Kind
  pub starting_linenum : ℕ
  pub seen_open_brace : Bool
  pub opened : ℕ
  pub closed : ℕ
  pub inline_asm : Asm

-- `_BlockInfo.__init__`
abbrev pub new_block : Kind → ℕ → Bool → Block
new_block kind linenum seen_open_brace = record {
  kind = kind;
  starting_linenum = linenum;
  seen_open_brace = seen_open_brace;
  opened = 0;
  closed = 0;
  inline_asm = no_asm;
}

-- `_ExternCInfo.__init__`
abbrev pub new_extern_c : ℕ → Block
new_extern_c linenum = new_block extern_c linenum true

-- `check_namespace_indentation`
abbrev pub check_namespace_indentation : Block → Bool
check_namespace_indentation b = elim b.kind [
  | plain ↦ false
  | extern_c ↦ false
  | class_info c ↦ true
  | namespace_info n ↦ true
]

-- The search for the last line of a class: the first line after which as many braces are closed as
-- were opened, and 0 if there is none.
class_end : List Text → ℕ → ℕ → ℕ → ℕ
unfolding count
class_end [] linenum opened closed = 0
class_end (line ∷ lines) linenum opened closed =
    let opened' = opened + count (text "{") line in
    let closed' = closed + count (text "}") line in
    let later = class_end lines (linenum + 1) opened' closed' in
    if opened' == closed' then linenum else later

-- the text of a line that is there
abbrev pub line_at : List Text → ℕ → Text
line_at lines linenum = elim (get_elem? lines linenum) [ none ↦ [] | some line ↦ line ]

-- `_ClassInfo.__init__`
unfoldable pub new_class : Text → Text → CleansedLines → ℕ → Block
unfolding class_end text_eq get_indent_level
new_class name class_or_struct clean_lines linenum =
    let is_struct = text_eq class_or_struct (text "struct") in
    new_block
      (class_info (record {
        name = name;
        is_derived = false;
        access = if is_struct then text "public" else text "private";
        is_struct = is_struct;
        class_indent = get_indent_level (line_at clean_lines.raw_lines linenum);
        last_line = class_end (drop linenum clean_lines.elided) linenum 0 0;
      }))
      linenum false

-- `_NamespaceInfo.__init__`, where `None` is the empty name
abbrev pub new_namespace : Text → ℕ → Block
new_namespace name linenum = new_block (namespace_info name) linenum false

-- (^|[^:]):($|[^:])
abbrev bare_colon : Re
bare_colon = seq (alt bol (none_of ":") ∷ lit ":" ∷ alt eol (none_of ":") ∷ [])

-- `CheckBegin` of each kind, of the line in `elided`
unfoldable pub check_begin : Text → Block → Block
unfolding finds
check_begin line b = elim b.kind [
  | plain ↦ b
  | extern_c ↦ b
  | class_info c ↦
      if finds bare_colon line
      then record b { kind = class_info (record c { is_derived = true }) }
      else b
  | namespace_info n ↦ b
]

-- `'struct ' + name` or `'class ' + name`
abbrev pub parent_name : ClassInfo → Text
parent_name c = if c.is_struct then text "struct " ++ c.name else text "class " ++ c.name

-- \b(DISALLOW_COPY_AND_ASSIGN|DISALLOW_IMPLICIT_CONSTRUCTORS)\( name \)
abbrev disallow_macro : Text → Re
disallow_macro name = seq (
    word_edge
    ∷ group 1 (any_word ("DISALLOW_COPY_AND_ASSIGN" ∷ "DISALLOW_IMPLICIT_CONSTRUCTORS" ∷ []))
    ∷ lit "("
    ∷ chars name
    ∷ lit ")"
    ∷ [])

-- ^\s*$
abbrev blank_line : Re
blank_line = seq (bol ∷ spaces ∷ eol ∷ [])

-- the loop of `_ClassInfo.CheckEnd` back from the line before `i`, while the line is behind the first
check_disallow : Text → List Text → Text → ℕ → Bool → ℕ → List Report
unfolding search_all group_or matches
check_disallow filename elided name starting_linenum seen zero = []
check_disallow filename elided name starting_linenum seen (suc i) =
    let line = line_at elided i in
    elim (ltb starting_linenum i) [
      | false ↦ []
      | true ↦ elim (search_all (disallow_macro name) line) [
        | some (_, m) ↦
            if seen
            then report filename i "readability/constructors" 3
                (group_or 1 m ++ text " should be the last thing in the class")
              ∷ []
            else []
        | none ↦
            check_disallow filename elided name starting_linenum
              (if matches blank_line line then seen else true) i
      ]
    ]

-- ^( *)\}
abbrev closing_brace : Re
closing_brace = seq (bol ∷ group 1 (star (lit " ")) ∷ lit "}" ∷ [])

-- `_ClassInfo.CheckEnd`
class_check_end : Text → CleansedLines → ℕ → ℕ → ClassInfo → List Report
unfolding check_disallow match group_or
class_check_end filename clean_lines linenum starting_linenum c =
    check_disallow filename clean_lines.elided c.name starting_linenum false linenum
    ++ elim (match closing_brace (line_at clean_lines.elided linenum)) [
      | none ↦ []
      | some m ↦
          if not (length (group_or 1 m) == c.class_indent)
          then report filename linenum "whitespace/indent" 3
              (text "Closing brace should be aligned with beginning of " ++ parent_name c)
            ∷ []
          else []
    ]

-- ^\s*};*\s*(//|/\*).*\bnamespace
abbrev namespace_comment : List Re → Re
namespace_comment end = seq (
    bol
    ∷ spaces
    ∷ lit "}"
    ∷ star (lit ";")
    ∷ spaces
    ∷ alt (lit "//") (lit "/*")
    ∷ star dot
    ∷ word_edge
    ∷ lit "namespace"
    ∷ end)

-- [\*/\.\\\s]*$
abbrev comment_end : List Re
comment_end = star (one (λ c. contains c (text "*/.\\") || is_space c)) ∷ eol ∷ []

-- ^\s*}.*\b(namespace anonymous|anonymous namespace)\b
abbrev anonymous_comment : Re
anonymous_comment = seq (
    bol
    ∷ spaces
    ∷ lit "}"
    ∷ star dot
    ∷ word_edge
    ∷ any_word ("namespace anonymous" ∷ "anonymous namespace" ∷ [])
    ∷ word_edge
    ∷ [])

check_anonymous : Text → Text → ℕ → List Report
unfolding matches
check_anonymous filename line linenum =
    if matches (namespace_comment comment_end) line
    then []
    else if matches anonymous_comment line
    then report filename linenum "readability/namespace" 5 (
        text
          "Anonymous namespace should be terminated with \"// namespace\" or \"// anonymous namespace\"")
      ∷ []
    else report filename linenum "readability/namespace" 5
        (text "Anonymous namespace should be terminated with \"// namespace\"")
      ∷ []

-- `_NamespaceInfo.CheckEnd` of the raw line
namespace_check_end : Text → Text → ℕ → ℕ → Text → List Report
unfolding matches check_anonymous
namespace_check_end filename line linenum starting_linenum name =
    if ltb linenum (starting_linenum + 10)
      && not (matches (namespace_comment (word_edge ∷ [])) line)
    then []
    else elim name [
      | [] ↦ check_anonymous filename line linenum
      | c ∷ cs ↦
          if matches (namespace_comment (plus space ∷ chars (c ∷ cs) ∷ comment_end)) line
          then []
          else report filename linenum "readability/namespace" 5
              (text "Namespace should be terminated with \"// namespace " ++ (c ∷ cs ++ text "\""))
            ∷ []
    ]

-- `CheckEnd` of each kind
unfoldable pub check_end : Text → CleansedLines → ℕ → Block → List Report
unfolding class_check_end namespace_check_end
check_end filename clean_lines linenum b = elim b.kind [
  | plain ↦ []
  | extern_c ↦ []
  | class_info c ↦ class_check_end filename clean_lines linenum b.starting_linenum c
  | namespace_info n ↦
      namespace_check_end filename (line_at clean_lines.raw_lines linenum) linenum
        b.starting_linenum n
]
