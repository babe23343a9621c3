-- ===== src/Cpplint/Nesting/Tests.antt =====
-- Runs of the nesting state.
use cmu.Base.{
  ◌<◌, arith, ℕ, ◌≡◌, refl, Bool, true, false, Option, none, some, List, [], ◌∷◌, map, length, Text,
  text,
}
use cmu.Cpplint.Nesting.Namespaces.{open_namespaces-enough}
use cmu.Cpplint.Report.{Report}
use cmu.Cpplint.Cleansed.{CleansedLines}
use cmu.Cpplint.Blocks.{Block, new_namespace, check_end, line_at}
use cmu.Cpplint.Nesting.{
  NestingState, initial, open_namespaces, directive_of, update, consume_braces, is_class,
}
use cmu.Cpplint.Nesting.Conditionals.{Parts, no_lines, line, conditional, no_branches, branch, kept}
use cmu.Cpplint.Nesting.Braces.{
  Matched, nil, other, braces, consume_braces-body, consume_braces-Matched,
}
use cmu.Cpplint.Nesting.File.{line_effect, update_all, update_all-Parts}

abbrev cleansed : List Text → CleansedLines
cleansed lines = record {
  elided = lines;
  lines = lines;
  raw_lines = lines;
  num_lines = length lines;
  lines_without_raw_strings = lines;
}

abbrev file : CleansedLines
file = cleansed (
    text "#ifdef A"
    ∷ text "struct S {"
    ∷ text "#else"
    ∷ text "struct S : T {"
    ∷ text "#endif"
    ∷ text "};"
    ∷ [])

abbrev lines : List ℕ
lines = 0 ∷ 1 ∷ 2 ∷ 3 ∷ 4 ∷ 5 ∷ []

file-Parts : Parts (line_at file.elided) (line_effect (text "s.h") file) lines
unfolding directive_of
file-Parts =
    conditional 0 4 (1 ∷ []) (2 ∷ 3 ∷ []) (5 ∷ []) refl refl (line 1 refl no_lines)
      (branch 2 (3 ∷ []) [] refl (line 3 refl no_lines) no_branches refl) (line 5 refl no_lines)
      refl

update_all-Parts_example :
    (t : NestingState) × (reports : List Report) × (update_all (text "s.h") file lines initial
      ≡ some (t, reports))
    × (t.stack ≡ kept (line_at file.elided) (line_effect (text "s.h") file) file-Parts [])
    × (t.pp_stack ≡ [])
update_all-Parts_example =
    update_all-Parts (text "s.h") file lines initial file-Parts
      ((_, refl), ((_, refl), ((_, refl), ((_, refl), ((_, refl), ((_, refl), tt))))))

body-Matched : Matched (text " { ; } ")
body-Matched = other b' ' refl (
    braces (text " ; ") (text " ") (other b' ' refl (other b';' refl (other b' ' refl nil)))
      (other b' ' refl nil) refl)

abbrev unseen : Block
unseen = new_namespace (text "a") 0

consume_braces-body_example :
    consume_braces (text "a.cc") file 3 (text " { { ; } }") (text "{ { ; } }") (unseen ∷ [])
    ≡ ([], check_end (text "a.cc") file 3 (record unseen { seen_open_brace = true }))
consume_braces-body_example =
    consume_braces-body (text "a.cc") file 3 (text " { { ; } }") (text " { ; } ") unseen [] refl
      body-Matched

consume_braces-Matched_example :
    consume_braces (text "a.cc") file 3 (text " { ; } ") (text " { ; } ") [] ≡ ([], [])
consume_braces-Matched_example =
    consume_braces-Matched (text "a.cc") file 3 (text " { ; } ") [] body-Matched refl

-- the kinds of the blocks that are left open
abbrev kinds : Option (NestingState × List Report) → List Bool
kinds none = []
kinds (some (s, r)) = map (λ b. is_class b) s.stack

-- A class with a template head behind a namespace on the same line: the position that
-- `InTemplateArgumentList` looks at counts from the end of the namespace, and the class is missed.
test_namespace_template :
    kinds (
      update
        (text "a.cc")
        (cleansed (text "namespace n{template <class T>class B {" ∷ []))
        0
        initial)
    ≡ false ∷ false ∷ []
unfolding update
test_namespace_template = refl

test_template :
    kinds (update (text "a.cc") (cleansed (text "template <class T>class B {" ∷ [])) 0 initial)
    ≡ true ∷ []
unfolding update
test_template = refl

abbrev two_namespaces : Text
two_namespaces = text "namespace a { namespace b { x"

two_namespaces-short : length two_namespaces < 30
two_namespaces-short = omega arith

two_namespaces-shorter : length two_namespaces < 40
two_namespaces-shorter = omega arith

open_namespaces-enough_example :
    open_namespaces (λ t b. (b, t)) 30 7 two_namespaces []
    ≡ open_namespaces (λ t b. ([], t)) 40 7 two_namespaces []
open_namespaces-enough_example =
    open_namespaces-enough (λ t b. (b, t)) (λ t b. ([], t)) 30 40 7 two_namespaces []
      two_namespaces-short two_namespaces-shorter
