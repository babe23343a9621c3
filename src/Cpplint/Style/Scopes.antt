-- ===== src/Cpplint/Style/Scopes.antt =====
-- `CheckSectionSpacing`, `IsBlockInNameSpace`, `ShouldCheckNamespaceIndentation` and
-- `CheckItemIndentationInNamespace` of build_support/cpplint.py.
use cmu.Base.{
  ℕ, zero, suc, ◌+◌, ◌-◌, Bool, false, not, ◌&&◌, ◌||◌, none, some, List, [], ◌∷◌, ◌++◌, leb, ltb,
  if◌then◌else◌, Text, text,
}
use cmu.Regex.{
  Re, group, bol, eol, word_edge, lit, plus, space, spaces, any_word, seq, match, matches, finds,
  group_or,
}
use cmu.Cpplint.Report.{Report, report_if}
use cmu.Cpplint.LineChecks.{is_blank_line}
use cmu.Cpplint.Declarations.{is_macro_definition, is_forward_class_declaration}
use cmu.Cpplint.Blocks.{Block, ClassInfo, check_namespace_indentation, line_at}
use cmu.Cpplint.Nesting.{Blocks, is_namespace}

-- \s*(public|protected|private):
abbrev pub section_label : Re
section_label =
    seq (spaces ∷ group 1 (any_word ("public" ∷ "protected" ∷ "private" ∷ [])) ∷ lit ":" ∷ [])

-- \b(class|struct)\b and \\$ and \{\s*$
abbrev class_word : Re
class_word = seq (word_edge ∷ any_word ("class" ∷ "struct" ∷ []) ∷ word_edge ∷ [])

abbrev continued : Re
continued = seq (lit "\\" ∷ eol ∷ [])

abbrev brace_at_end : Re
brace_at_end = seq (lit "{" ∷ spaces ∷ eol ∷ [])

-- the search for the end of the head of a class, over the next `count` lines from a line on; `starting`
-- if no line ends in a brace
end_class_head : List Text → ℕ → ℕ → ℕ → ℕ
unfolding finds
end_class_head lines starting linenum zero = starting
end_class_head lines starting linenum (suc count) =
    let later = end_class_head lines starting (linenum + 1) count in
    if finds brace_at_end (line_at lines linenum) then linenum else later

-- `CheckSectionSpacing`, of the lines with their strings and the innermost class
unfoldable pub check_section_spacing : Text → List Text → Block → ClassInfo → ℕ → List Report
unfolding match finds group_or is_blank_line end_class_head
check_section_spacing filename lines b c linenum =
    if leb c.last_line (b.starting_linenum + 24) || leb linenum b.starting_linenum
    then []
    else elim (match section_label (line_at lines linenum)) [
      | none ↦ []
      | some m ↦
          let prev_line = line_at lines (linenum - 1) in
          report_if
            (not (is_blank_line prev_line)
              && (not (finds class_word prev_line)
                  && (not (finds continued prev_line)
                      && ltb
                          (end_class_head lines b.starting_linenum b.starting_linenum
                            (linenum - b.starting_linenum))
                          (linenum - 1))))
            filename linenum "whitespace/blank_line" 3
            (text "\"" ++ (group_or 1 m ++ text ":\" should be preceded by a blank line"))
    ]

-- `IsBlockInNameSpace`, of the stack
abbrev pub is_block_in_name_space : Blocks → Bool → Bool
is_block_in_name_space [] is_forward_declaration = false
is_block_in_name_space (b ∷ []) is_forward_declaration = is_forward_declaration && is_namespace b
is_block_in_name_space (b ∷ below ∷ stack) is_forward_declaration =
    if is_forward_declaration
    then is_namespace b
    else check_namespace_indentation b && is_namespace below

-- `ShouldCheckNamespaceIndentation`
unfoldable pub should_check_namespace_indentation : Blocks → Bool → List Text → ℕ → Bool
unfolding is_forward_class_declaration is_macro_definition
should_check_namespace_indentation stack is_namespace_indent_item lines linenum =
    let is_forward_declaration = is_forward_class_declaration (line_at lines linenum) in
    if not (is_namespace_indent_item || is_forward_declaration)
    then false
    else if is_macro_definition lines linenum
    then false
    else is_block_in_name_space stack is_forward_declaration

-- ^\s+
abbrev indented : Re
indented = seq (bol ∷ plus space ∷ [])

-- `CheckItemIndentationInNamespace`
unfoldable pub check_item_indentation_in_namespace : Text → List Text → ℕ → List Report
unfolding matches
check_item_indentation_in_namespace filename lines linenum =
    report_if (matches indented (line_at lines linenum)) filename linenum
      "runtime/indentation_namespace" 4 (text "Do not indent within a namespace")
