-- ===== src/Cpplint/Nesting.antt =====
-- `NestingState` of build_support/cpplint.py: the stack of the blocks that are open, its checkpoints
-- at preprocessor conditionals, and `Update` with one line. A stack is a list whose head is its top.
-- The checkpoints are copies in the source, so they are plain values here.
pub mod Conditionals
pub mod Braces
pub mod Namespaces
pub mod File
mod Tests
use cmu.Base.{
  ℕ, zero, suc, ◌+◌, Bool, true, false, not, ◌&&◌, ◌||◌, Option, none, some, List, [], ◌∷◌, ◌++◌,
  reverse, leb, ltb, ◌==◌, if◌then◌else◌, length, get_elem?, drop, Text, text,
}
use cmu.PyText.{is_space, contains, find, count}
use cmu.Regex.{
  Re, one, star, group, bol, eol, word_edge, cat, alt, lit, any_of, none_of, dot, opt, plus, space,
  spaces, word, is_word, any_word, seq, match, matches, group?, group_or,
}
use cmu.Cpplint.Report.{Report, report}
use cmu.Cpplint.Cleansed.{CleansedLines}
use cmu.Cpplint.Blocks.{
  Asm, no_asm, inside_asm, end_asm, block_asm, ClassInfo, Kind, plain, extern_c, class_info,
  namespace_info, Block, new_block, new_extern_c, new_class, new_namespace, check_begin, check_end,
  line_at, parent_name,
}
use cmu.Cpplint.TemplateArguments.{in_template_argument_list}

abbrev pub Blocks : Type 0
Blocks = List Block

-- `_PreprocessorInfo`
pub record PreprocessorInfo : Type 0 where
  pub stack_before_if : Blocks
  pub stack_before_else : Blocks
  pub seen_else : Bool

-- `previous_stack_top` is kept as it was when it was the top.
pub record NestingState : Type 0 where
  pub stack : Blocks
  pub previous_stack_top : Option Block
  pub pp_stack : List PreprocessorInfo

-- `__init__`
abbrev pub initial : NestingState
initial = record { stack = []; previous_stack_top = none; pp_stack = [] }

abbrev pub top : Blocks → Option Block
top [] = none
top (b ∷ stack) = some b

abbrev pub is_class : Block → Bool
is_class b = elim b.kind [
  | plain ↦ false
  | extern_c ↦ false
  | class_info c ↦ true
  | namespace_info n ↦ false
]

abbrev pub is_namespace : Block → Bool
is_namespace b = elim b.kind [
  | plain ↦ false
  | extern_c ↦ false
  | class_info c ↦ false
  | namespace_info n ↦ true
]

abbrev is_extern_c : Block → Bool
is_extern_c b = elim b.kind [
  | plain ↦ false
  | extern_c ↦ true
  | class_info c ↦ false
  | namespace_info n ↦ false
]

abbrev is_no_asm : Asm → Bool
is_no_asm no_asm = true
is_no_asm _ = false

abbrev top_has : (Block → Bool) → Blocks → Bool
top_has p [] = false
top_has p (b ∷ stack) = p b

-- `SeenOpenBrace`, `InNamespaceBody`, `InExternC`, `InClassDeclaration`, `InAsmBlock`
abbrev pub seen_open_brace : Blocks → Bool
seen_open_brace [] = true
seen_open_brace (b ∷ stack) = b.seen_open_brace

abbrev pub in_namespace_body : NestingState → Bool
in_namespace_body s = top_has is_namespace s.stack

abbrev pub in_extern_c : NestingState → Bool
in_extern_c s = top_has is_extern_c s.stack

abbrev pub in_class_declaration : NestingState → Bool
in_class_declaration s = top_has is_class s.stack

abbrev pub in_asm_block : NestingState → Bool
in_asm_block s = top_has (λ b. not (is_no_asm b.inline_asm)) s.stack

-- ^\s*#\s*(…)\b
abbrev directive : Re → Re
directive name = seq (bol ∷ spaces ∷ lit "#" ∷ spaces ∷ name ∷ word_edge ∷ [])

-- what a line is to `UpdatePreprocessor`
pub data Directive : Type 0 where
  if_line else_line endif_line other_line : Directive

-- the tests of `UpdatePreprocessor`
unfoldable pub directive_of : Text → Directive
unfolding matches
directive_of line =
    if matches (directive (any_word ("if" ∷ "ifdef" ∷ "ifndef" ∷ []))) line
    then if_line
    else if matches (directive (any_word ("else" ∷ "elif" ∷ []))) line
    then else_line
    else if matches (directive (lit "endif")) line
    then endif_line
    else other_line

-- the branches for `#else` and `#elif`, and for `#endif`
abbrev else_branch : List PreprocessorInfo → NestingState → NestingState
else_branch [] s = s
else_branch (p ∷ ps) s = record s {
  stack = p.stack_before_if;
  pp_stack =
      (if p.seen_else then p else record p { seen_else = true; stack_before_else = s.stack }) ∷ ps;
}

abbrev endif_branch : List PreprocessorInfo → NestingState → NestingState
endif_branch [] s = s
endif_branch (p ∷ ps) s = record s {
  stack = if p.seen_else then p.stack_before_else else s.stack;
  pp_stack = ps;
}

-- the branches of `UpdatePreprocessor`
pub on_directive : Directive → NestingState → NestingState
on_directive if_line s = record s {
  pp_stack =
      record { stack_before_if = s.stack; stack_before_else = []; seen_else = false } ∷ s.pp_stack;
}
on_directive else_line s = else_branch s.pp_stack s
on_directive endif_line s = endif_branch s.pp_stack s
on_directive other_line s = s

-- `UpdatePreprocessor`
unfoldable pub update_preprocessor : Text → NestingState → NestingState
unfolding directive_of on_directive
update_preprocessor line s = on_directive (directive_of line) s

-- _MATCH_ASM: ^\s*(?:asm|_asm|__asm|__asm__)(?:\s+(volatile|__volatile__))?\s*[{(]
abbrev match_asm : Re
match_asm = seq (
    bol
    ∷ spaces
    ∷ any_word ("asm" ∷ "_asm" ∷ "__asm" ∷ "__asm__" ∷ [])
    ∷ opt (cat (plus space) (any_word ("volatile" ∷ "__volatile__" ∷ [])))
    ∷ spaces
    ∷ any_of "{("
    ∷ [])

-- the state of inline assembly behind a line, where the first flag tells that the line changes the
-- depth of parentheses, the second that the depth is 1 then and the third that it is 0
abbrev next_asm : Bool → Bool → Bool → Text → Asm → Asm
next_asm changes one_open none_open line no_asm =
    if changes && one_open && matches match_asm line then inside_asm else no_asm
next_asm changes one_open none_open line end_asm =
    if changes && one_open && matches match_asm line then inside_asm else no_asm
next_asm changes one_open none_open line inside_asm = if none_open then end_asm else inside_asm
next_asm changes one_open none_open line block_asm = block_asm

-- the count of parentheses of `Update`, in the innermost block
count_parentheses : Text → Blocks → Blocks
unfolding count matches
count_parentheses line [] = []
count_parentheses line (b ∷ stack) =
    let opens = count (text "(") line in
    let closes = count (text ")") line in
    let opened = b.opened + opens in
    let closed = b.closed + closes in
    record b {
      opened = opened;
      closed = closed;
      inline_asm =
          next_asm (not (opens == closes)) (opened == closed + 1) (opened == closed) line
            b.inline_asm;
    }
    ∷ stack

-- ^\s*namespace\b\s*([:\w]+)?(.*)$
abbrev name_char : Re
name_char = one (λ c. c == b':' || is_word c)

abbrev namespace_decl : Re
namespace_decl = seq (
    bol
    ∷ spaces
    ∷ lit "namespace"
    ∷ word_edge
    ∷ spaces
    ∷ opt (group 1 (plus name_char))
    ∷ group 2 (star dot)
    ∷ eol
    ∷ [])

-- a round of the loop over the namespaces that a line begins with, and what is behind it
open_namespace : (Text → Blocks → Blocks × Text) → ℕ → Text → Blocks → Blocks × Text
unfolding match group_or find
open_namespace next linenum line stack = elim (match namespace_decl line) [
  | none ↦ (stack, line)
  | some m ↦
      let b = new_namespace (group_or 1 m) linenum in
      let left = group_or 2 m in
      elim (find (text "{") left) [
        | none ↦ next left (b ∷ stack)
        | some i ↦ next (drop (i + 1) left) (record b { seen_open_brace = true } ∷ stack)
      ]
]

-- The loop, in at most as many rounds as the number; the first argument is the result if they run out. A
-- round reads the word `namespace`, so one for each character and one more never run out.
pub open_namespaces : (Text → Blocks → Blocks × Text) → ℕ → ℕ → Text → Blocks → Blocks × Text
unfolding open_namespace
open_namespaces out zero linenum line stack = out line stack
open_namespaces out (suc fuel) linenum line stack =
    open_namespace (open_namespaces out fuel linenum) linenum line stack

-- ^(\s*(?:template\s*<[\w\s<>,:=]*>\s*)?(class|struct)\s+(?:[A-Z_]+\s+)*(\w+(?:::\w+)*))(.*)$
abbrev class_decl : Re
class_decl = seq (
    bol
    ∷ group 1 (
        seq (
          spaces
          ∷ opt (
              seq (
                lit "template"
                ∷ spaces
                ∷ lit "<"
                ∷ star (one (λ c. is_word c || is_space c || contains c (text "<>,:=")))
                ∷ lit ">"
                ∷ spaces
                ∷ []))
          ∷ group 2 (any_word ("class" ∷ "struct" ∷ []))
          ∷ plus space
          ∷ star (cat (plus (one (λ c. leb b'A' c && leb c b'Z' || c == b'_'))) (plus space))
          ∷ group 3 (cat (plus word) (star (cat (lit "::") (plus word))))
          ∷ []))
    ∷ group 4 (star dot)
    ∷ eol
    ∷ [])

-- `not self.stack or self.stack[-1].open_parentheses == 0`
abbrev no_open_parentheses : Blocks → Bool
no_open_parentheses [] = true
no_open_parentheses (b ∷ stack) = b.opened == b.closed

-- the class declaration of a line, if it has one, and what is left of the line
open_class : CleansedLines → ℕ → Text → Blocks → Blocks × Text
unfolding match group_or in_template_argument_list new_class
open_class clean_lines linenum line stack = elim (match class_decl line) [
  | none ↦ (stack, line)
  | some m ↦
      if no_open_parentheses stack
        && not (in_template_argument_list clean_lines.elided linenum (length (group_or 1 m)))
      then (new_class (group_or 3 m) (group_or 2 m) clean_lines linenum ∷ stack, group_or 4 m)
      else (stack, line)
]

-- the checks for a block whose brace has not been seen
begin_top : Text → Blocks → Blocks
unfolding check_begin
begin_top line [] = []
begin_top line (b ∷ stack) = (if b.seen_open_brace then b else check_begin line b) ∷ stack

-- ^(.*)\b(public|private|protected|signals)(\s+(?:slots\s*)?)?:(?:[^:]|$)
abbrev access_keyword : Re
access_keyword = seq (
    bol
    ∷ group 1 (star dot)
    ∷ word_edge
    ∷ group 2 (any_word ("public" ∷ "private" ∷ "protected" ∷ "signals" ∷ []))
    ∷ opt (group 3 (cat (plus space) (opt (cat (lit "slots") spaces))))
    ∷ lit ":"
    ∷ alt (none_of ":") eol
    ∷ [])

-- ^\s*$
abbrev only_spaces : Re
only_spaces = seq (bol ∷ spaces ∷ eol ∷ [])

-- the update of the access control of a class
class_access : Text → ℕ → Text → ClassInfo → ClassInfo × List Report
unfolding match matches group_or
class_access filename linenum line c = elim (match access_keyword line) [
  | none ↦ (c, [])
  | some m ↦ (
    record c { access = group_or 2 m },
    if not (length (group_or 1 m) == c.class_indent + 1) && matches only_spaces (group_or 1 m)
        then report filename linenum "whitespace/indent" 3 (
            group_or 2 m
            ++ (group_or 3 m ++ (text ": should be indented +1 space inside " ++ parent_name c)))
          ∷ []
        else [],
  )
]

update_access : Text → ℕ → Text → Blocks → Blocks × List Report
unfolding class_access
update_access filename linenum line [] = ([], [])
update_access filename linenum line (b ∷ stack) = elim b.kind [
  | plain ↦ (b ∷ stack, [])
  | extern_c ↦ (b ∷ stack, [])
  | class_info c ↦
      let (c', reports) = class_access filename linenum line c in
      (record b { kind = class_info c' } ∷ stack, reports)
  | namespace_info n ↦ (b ∷ stack, [])
]

-- ^extern\s*"[^"]*"\s*\{
abbrev extern_brace : Re
extern_brace = seq (
    bol ∷ lit "extern" ∷ spaces ∷ lit "\"" ∷ star (none_of "\"") ∷ lit "\"" ∷ spaces ∷ lit "{" ∷ [])

-- a block that opens within the rest of a line
brace_block : ℕ → Text → Block
unfolding matches
brace_block linenum line =
    if matches extern_brace line
    then new_extern_c linenum
    else record (new_block plain linenum true) {
      inline_asm = if matches match_asm line then block_asm else no_asm;
    }

-- what `{` does, and what `;` and `)` do
abbrev open_brace : ℕ → Text → Blocks → Blocks
open_brace linenum line [] = brace_block linenum line ∷ []
open_brace linenum line (b ∷ stack) =
    if not b.seen_open_brace
    then record b { seen_open_brace = true } ∷ stack
    else brace_block linenum line ∷ b ∷ stack

abbrev end_of_statement : Blocks → Blocks
end_of_statement [] = []
end_of_statement (b ∷ stack) = if not b.seen_open_brace then stack else b ∷ stack

module _ (filename : Text) (clean_lines : CleansedLines) (linenum : ℕ) where
  -- what `}` does
  abbrev close_brace : Blocks → Blocks × List Report
  close_brace [] = ([], [])
  close_brace (b ∷ stack) = (stack, check_end filename clean_lines linenum b)

  -- The loop over the braces and semicolons: the rest of the line is read from the left, and the
  -- first text is the line from behind the last one of them that was read.
  pub consume_braces : Text → Text → Blocks → Blocks × List Report
  unfolding brace_block check_end
  consume_braces line [] stack = (stack, [])
  consume_braces line (c ∷ rest) stack = elim (c == b'{') [
    | true ↦ consume_braces rest rest (open_brace linenum line stack)
    | false ↦ elim (c == b';' || c == b')') [
      | true ↦ consume_braces rest rest (end_of_statement stack)
      | false ↦ elim (c == b'}') [
        | true ↦
            let (stack', ended) = close_brace stack in
            let (stack'', reports) = consume_braces rest rest stack' in (stack'', ended ++ reports)
        | false ↦ consume_braces line rest stack
      ]
    ]
  ]

  -- the rest of `Update` behind `UpdatePreprocessor`
  pub update_line : Text → NestingState → NestingState × List Report
  unfolding count_parentheses open_namespaces open_class begin_top update_access consume_braces
  update_line elided s =
      let counted = count_parentheses elided s.stack in
      let (in_namespaces, line1) =
        open_namespaces (λ t b. (b, t)) (suc (length elided)) linenum elided counted in
      let (in_class, line2) = open_class clean_lines linenum line1 in_namespaces in
      let (accessed, reports) = update_access filename linenum line2 (begin_top elided in_class) in
      let (stack, ended) = consume_braces line2 line2 accessed in
      (record s { stack = stack }, reports ++ ended)

  -- `Update`; `none` is the IndexError of a line that is not there
  unfoldable pub update : NestingState → Option (NestingState × List Report)
  unfolding update_line update_preprocessor
  update s = elim (get_elem? clean_lines.elided linenum) [
    | none ↦ none
    | some line ↦ some (
        update_line line (update_preprocessor line (record s { previous_stack_top = top s.stack })))
  ]

-- `InnermostClass`, with the block that it is
abbrev pub innermost_class : Blocks → Option (Block × ClassInfo)
innermost_class [] = none
innermost_class (b ∷ stack) = elim b.kind [
  | plain ↦ innermost_class stack
  | extern_c ↦ innermost_class stack
  | class_info c ↦ some (b, c)
  | namespace_info n ↦ innermost_class stack
]

completed : Text → Blocks → List Report
completed filename [] = []
completed filename (b ∷ blocks) = elim b.kind [
  | plain ↦ completed filename blocks
  | extern_c ↦ completed filename blocks
  | class_info c ↦
      report filename b.starting_linenum "build/class" 5
        (text "Failed to find complete declaration of class " ++ c.name)
      ∷ completed filename blocks
  | namespace_info n ↦
      report filename b.starting_linenum "build/namespaces" 5
        (text "Failed to find complete declaration of namespace " ++ n)
      ∷ completed filename blocks
]

-- `CheckCompletedBlocks`, which goes through the stack from its bottom
unfoldable pub check_completed_blocks : Text → NestingState → List Report
unfolding completed
check_completed_blocks filename s = completed filename (reverse s.stack)
