-- ===== src/Cpplint/Tests.antt =====
-- Runs of the checks of lines, of the cleansing of lines and of the lengths of functions.
use cmu.Base.{◌<◌, none, arith, ℕ, List, ◌≡◌, refl, true, some, [], ◌∷◌, length, text}
use cmu.Cpplint.Cleansed.Rounds.{collapse_from-enough, open_raw_strings-enough}
use cmu.Regex.{Re, alt, bol, cat, lit, search_multiline}
use cmu.Cpplint.TextInside.{get_text_inside}
use cmu.Cpplint.TextInside.Nested.{IsNested, nil, other, brackets, get_text_inside-IsNested}
use cmu.Cpplint.Inheritance.{check_redundant_virtual}
use cmu.Cpplint.Report.{report}
use cmu.Cpplint.Cleansed.{
  cleansed_lines, collapse_strings, cleanse_raw_strings, collapse_from, open_raw_strings,
}
use cmu.Cpplint.Cleansed.Copies.{cleansed_lines-length}
use cmu.Cpplint.LineChecks.{
  check_for_newline_at_eof, check_posix_threading, check_invalid_increment,
  get_previous_non_blank_line,
}
use cmu.Cpplint.LineChecks.Blank.{IsPrevious, get_previous_non_blank_line_lem}
use cmu.Cpplint.Function.{begin_function, initial}
use cmu.Cpplint.Expression.{close_expression}
use cmu.Cpplint.Declarations.{
  is_derived_function, is_out_of_line_method_definition, is_macro_definition,
  is_forward_class_declaration, flag_cxx14_features,
}
use cmu.Cpplint.FunctionLengths.{check_for_function_lengths}

cleansed_lines-length_example :
    let c = cleansed_lines (text "x = R\"(a" ∷ text "b)\";" ∷ []) in
    (c.num_lines ≡ 2)
    × (length c.elided ≡ c.num_lines)
    × (length c.lines ≡ c.num_lines)
    × (length c.raw_lines ≡ c.num_lines)
    × (length c.lines_without_raw_strings ≡ c.num_lines)
cleansed_lines-length_example = cleansed_lines-length (text "x = R\"(a" ∷ text "b)\";" ∷ [])

get_previous_non_blank_line_lem_example :
    IsPrevious
      (text "a" ∷ text " " ∷ text "b" ∷ [])
      2
      (get_previous_non_blank_line (text "a" ∷ text " " ∷ text "b" ∷ []) 2)
get_previous_non_blank_line_lem_example =
    get_previous_non_blank_line_lem (text "a" ∷ text " " ∷ text "b" ∷ []) 2

test_raw :
    cleanse_raw_strings (text "x = R\"(a" ∷ text " b" ∷ text "  c)\" + R\"y()y\";" ∷ [])
    ≡ text "x = \"\"" ∷ text "\"\"" ∷ text "  \"\" + \"\";" ∷ []
unfolding cleanse_raw_strings
test_raw = refl

test_collapse : collapse_strings (text "f(\"a\\\"b\", 'c', 1'000)") ≡ text "f(\"\", '', 1000)"
unfolding collapse_strings
test_collapse = refl

test_include : collapse_strings (text "#include \"a.h\"") ≡ text "#include \"a.h\""
unfolding collapse_strings
test_include = refl

test_previous :
    get_previous_non_blank_line (text "a" ∷ text " " ∷ text "b" ∷ []) 2 ≡ some (text "a", 0)
unfolding get_previous_non_blank_line
test_previous = refl

test_eof :
    check_for_newline_at_eof (text "a.cc") (text "// m" ∷ text "x" ∷ [] ∷ text "// m" ∷ []) ≡ []
unfolding check_for_newline_at_eof
test_eof = refl

test_increment :
    check_invalid_increment (text "a.cc") (text "  *count++;") 4
    ≡ report
        (text "a.cc")
        4
        "runtime/invalid_increment"
        5
        (text "Changing pointer instead of value (or unused value of operator*).")
      ∷ []
unfolding check_invalid_increment
test_increment = refl

test_threading : length (check_posix_threading (text "a.cc") (text "x = rand();") 4) ≡ 1
unfolding check_posix_threading
test_threading = refl

test_function_begins :
    check_for_function_lengths 0
      (text "a.cc")
      (text "int Run(int a," ∷ text "  int b) {" ∷ [])
      0
      initial
    ≡ some (
      record { in_a_function = true; lines_in_function = 0; current_function = text "Run()" },
      [],
    )
unfolding check_for_function_lengths begin_function
test_function_begins = refl

test_derived :
    is_derived_function (text "  int Run(int a," ∷ text "          int b) override {" ∷ []) 1 ≡ true
unfolding is_derived_function close_expression
test_derived = refl

test_out_of_line :
    is_out_of_line_method_definition (text "int A::Run(" ∷ text "  int b) {" ∷ []) 1 ≡ true
unfolding is_out_of_line_method_definition
test_out_of_line = refl

test_macro : is_macro_definition (text "#define A \\" ∷ text "  b" ∷ []) 1 ≡ true
unfolding is_macro_definition
test_macro = refl

test_forward : is_forward_class_declaration (text "template <class T> class A;") ≡ true
unfolding is_forward_class_declaration
test_forward = refl

test_cxx14 : length (flag_cxx14_features (text "a.cc") (text "#include <shared_mutex>") 3) ≡ 1
unfolding flag_cxx14_features
test_cxx14 = refl

abbrev quoted : List ℕ
quoted = text "f(\"a\", 1'000, 'b')"

quoted-short : length quoted < 19
quoted-short = omega arith

quoted-shorter : length quoted < 40
quoted-shorter = omega arith

collapse_from-enough_example : collapse_from (λ t. t) 19 quoted ≡ collapse_from (λ _. []) 40 quoted
collapse_from-enough_example =
    collapse_from-enough (λ t. t) (λ _. []) 19 40 quoted quoted-short quoted-shorter

abbrev raw : List ℕ
raw = text "x = R\"(a)\" + R\"b(\" "

raw-short : length raw < 22
raw-short = omega arith

raw-shorter : length raw < 40
raw-shorter = omega arith

open_raw_strings-enough_example :
    open_raw_strings (λ t. (t, none)) 22 raw ≡ open_raw_strings (λ _. ([], none)) 40 raw
open_raw_strings-enough_example =
    open_raw_strings-enough (λ t. (t, none)) (λ _. ([], none)) 22 40 raw raw-short raw-shorter

-- (^g|h)\(
abbrev line_start_g : Re
line_start_g = cat (alt (cat bol (lit "g")) (lit "h")) (lit "(")

-- `^` matches at the start of every line.
test_multiline : get_text_inside (text "\ng(b) h(a)") line_start_g ≡ some (some (text "b"))
unfolding get_text_inside
test_multiline = refl

abbrev printf_paren : Re
printf_paren = lit "printf("

printf_inside : IsNested (text "a(), b[c]")
printf_inside = other b'a' refl refl (
    brackets b'(' [] (text ", b[c]") refl nil (
      other b',' refl refl (
        other b' ' refl refl (
          other b'b' refl refl (brackets b'[' (text "c") [] refl (other b'c' refl refl nil) nil)))))

get_text_inside-IsNested_example :
    get_text_inside (text "printf(a(), b[c]); f()") printf_paren ≡ some (some (text "a(), b[c]"))
unfolding search_multiline
get_text_inside-IsNested_example =
    get_text_inside-IsNested (text "printf(a(), b[c]); f()") printf_paren 0 b'('
      (record { before = text "(ftnirp"; rest = text "a(), b[c]); f()"; groups = [] })
      (text "ftnirp") (text "a(), b[c]") (text "; f()") refl refl refl refl printf_inside

abbrev two_functions : List ℕ
two_functions = text "  void g() final; virtual void f();"

-- The search for the parameters of a virtual function starts at column 7, whatever the column of the
-- word: here it takes the specifier of the function before for that of the virtual one.
test_virtual_column :
    check_redundant_virtual (text "a.h") (two_functions ∷ []) 0 two_functions
    ≡ report
        (text "a.h")
        0
        "readability/inheritance"
        4
        (text "\"virtual\" is redundant since function is already declared as \"final\"")
      ∷ []
unfolding check_redundant_virtual
test_virtual_column = refl
