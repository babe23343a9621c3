-- ===== src/Cpplint/Constructors.antt =====
-- The part of `CheckForNonStandardConstructs` of build_support/cpplint.py that looks at constructors.
pub mod Arguments
mod Tests
use cmu.Base.{
  ℕ, zero, suc, ◌+◌, ◌-◌, Bool, true, false, not, ◌&&◌, ◌||◌, Option, none, some, List, [], ◌∷◌,
  ◌++◌, reverse, ltb, leb, ◌==◌, if◌then◌else◌, length, Text, text, text_eq,
}
use cmu.PyText.{is_space, strip, split, replace, count, find}
use cmu.Regex.{
  Re, one, star, group, bol, eol, word_edge, cat, alt, chars, lit, any_of, none_of, dot, opt, plus,
  space, spaces, word, any_word, seq, match, matches, finds, group?, group_or,
}
use cmu.Cpplint.Report.{Report, report, report_if}
use cmu.Cpplint.Blocks.{Block, ClassInfo}

-- whether more brackets are opened than closed in a text
pub is_unclosed : Text → Bool
unfolding count
is_unclosed arg =
    ltb (count (text ">") arg) (count (text "<") arg)
    || ltb (count (text ")") arg) (count (text "(") arg)

abbrev pub cons_to : Text → Option (List Text) → Option (List Text)
cons_to arg none = none
cons_to arg (some args) = some (arg ∷ args)

-- The two loops that put the arguments together which a comma has split, from one argument on. `none` is
-- the IndexError of `constructor_args[i + 1]`.
pub collapse_argument : Text → List Text → Option (List Text)
unfolding is_unclosed
collapse_argument arg [] = if is_unclosed arg then none else some (arg ∷ [])
collapse_argument arg (next ∷ args) =
    let joined = collapse_argument (arg ++ b',' ∷ next) args in
    let apart = cons_to arg (collapse_argument next args) in
    if is_unclosed arg then joined else apart

abbrev pub collapse_arguments : List Text → Option (List Text)
collapse_arguments [] = some []
collapse_arguments (arg ∷ args) = collapse_argument arg args

-- \s+(?:(?:inline|constexpr)\s+)*(explicit\s+)?(?:(?:inline|constexpr)\s+)*%s\s*
-- \(((?:[^()]|\([^()]*\))*)\)
abbrev specifiers : Re
specifiers = star (cat (any_word ("inline" ∷ "constexpr" ∷ [])) (plus space))

abbrev constructor : Text → Re
constructor base_classname = seq (
    plus space
    ∷ specifiers
    ∷ opt (group 1 (cat (lit "explicit") (plus space)))
    ∷ specifiers
    ∷ chars base_classname
    ∷ spaces
    ∷ lit "("
    ∷ group 2 (star (alt (none_of "()") (seq (lit "(" ∷ star (none_of "()") ∷ lit ")" ∷ []))))
    ∷ lit ")"
    ∷ [])

-- \bstd\s*::\s*initializer_list\b
abbrev initializer_list : Re
initializer_list =
    seq
      (word_edge ∷ lit "std" ∷ spaces ∷ lit "::" ∷ spaces ∷ lit "initializer_list" ∷ word_edge ∷ [])

-- (const\s+)?%s(\s*<[^>]*>)?(\s+const)?\s*(?:<\w+>\s*)?&
abbrev own_reference : Text → Re
own_reference base_classname = seq (
    opt (cat (lit "const") (plus space))
    ∷ chars base_classname
    ∷ opt (seq (spaces ∷ lit "<" ∷ star (none_of ">") ∷ lit ">" ∷ []))
    ∷ opt (cat (plus space) (lit "const"))
    ∷ spaces
    ∷ opt (seq (lit "<" ∷ plus word ∷ lit ">" ∷ spaces ∷ []))
    ∷ lit "&"
    ∷ [])

-- how many texts of a list hold another
count_with : Text → List Text → ℕ
unfolding find
count_with part [] = 0
count_with part (arg ∷ args) = elim (find part arg) [
  | none ↦ count_with part args
  | some i ↦ suc (count_with part args)
]

-- `noarg_constructor`
no_arguments : List Text → Bool
unfolding strip text_eq
no_arguments [] = true
no_arguments (arg ∷ []) = text_eq (strip arg) (text "void")
no_arguments (arg ∷ other ∷ args) = false

-- `onearg_constructor`, of the number of arguments, of those with a default and of variadic ones, where
-- the flag is `noarg_constructor`
abbrev one_argument : Bool → ℕ → ℕ → ℕ → Bool
one_argument noarg args defaulted variadic =
    args == 1 && not noarg
    || leb 1 args && (not noarg && leb (args - 1) defaulted)
    || leb args 2 && leb 1 variadic

-- `initializer_list_constructor or copy_constructor`, of one argument
converts_own : Text → List Text → Bool
unfolding finds matches strip
converts_own base_classname [] = false
converts_own base_classname (arg ∷ args) =
    finds initializer_list arg || matches (own_reference base_classname) (strip arg)

-- what is said of a constructor with these arguments
check_arguments : Text → ℕ → Text → Bool → List Text → List Report
unfolding no_arguments count_with converts_own
check_arguments filename linenum base_classname is_marked_explicit args =
    let defaulted = count_with (text "=") args in
    let variadic = count_with (text "&&...") args in
    let noarg = no_arguments args in
    let onearg = one_argument noarg (length args) defaulted variadic in
    if not is_marked_explicit && (onearg && not (converts_own base_classname args))
    then report filename linenum "runtime/explicit" 5 (
        if leb 1 defaulted || leb 1 variadic
        then text "Constructors callable with one argument should be marked explicit."
        else text "Single-parameter constructors should be marked explicit.")
      ∷ []
    else report_if (is_marked_explicit && (not onearg && noarg)) filename linenum "runtime/explicit"
        5 (text "Zero-parameter constructors should not be marked explicit.")

-- `classinfo.name.split('::')[-1]`, of the characters read so far, backwards
after_colons : Text → Text → Text
after_colons acc [] = reverse acc
after_colons acc (c ∷ []) = reverse (c ∷ acc)
after_colons acc (c ∷ d ∷ s) =
    let skipped = after_colons [] s in
    let kept = after_colons (c ∷ acc) (d ∷ s) in if c == b':' && d == b':' then skipped else kept

-- the arguments of a constructor, split at their commas
arguments_of : Text → List Text
unfolding split
arguments_of [] = []
arguments_of (c ∷ s) = split b',' (c ∷ s)

-- the part for a line of a class
unfoldable pub check_constructor : Text → ℕ → Text → ClassInfo → Option (List Report)
unfolding match group? group_or after_colons arguments_of collapse_argument check_arguments
check_constructor filename linenum elided c =
    let base_classname = after_colons [] c.name in
    elim (match (constructor base_classname) elided) [
      | none ↦ some []
      | some m ↦ elim (collapse_arguments (arguments_of (group_or 2 m))) [
        | none ↦ none
        | some args ↦ some (
            check_arguments filename linenum base_classname
              (elim (group? 1 m) [ none ↦ false | some e ↦ true ]) args)
      ]
    ]
