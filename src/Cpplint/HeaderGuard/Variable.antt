-- ===== src/Cpplint/HeaderGuard/Variable.antt =====
-- The characters of the variable of a header guard, of build_support/cpplint.py.
use cmu.Base.{
  ℕ, ◌≡◌, refl, Bool, true, not, ◌&&◌, ◌||◌, [], ◌∷◌, ◌++◌, map, leb, ◌==◌, arith, if◌then◌else◌,
  Text, text,
}
use cmu.PyText.{upper_char, upper}
use cmu.Regex.{sub}
use cmu.Regex.OneChar.{sub-one}
use cmu.Cpplint.HeaderGuard.{
  is_letter_or_digit, not_letter_or_digit, variable_of, guarded_path, get_header_guard_cpp_variable,
}

-- a capital letter, a digit or an underscore
abbrev pub is_guard_char : ℕ → Bool
is_guard_char c = leb b'A' c && leb c b'Z' || (leb b'0' c && leb c b'9' || c == b'_')

pub AllGuard : Text → Type 0
AllGuard [] = Unit
AllGuard (c ∷ s) = (is_guard_char c ≡ true) × AllGuard s

abbrev masked : ℕ → ℕ
masked c = upper_char (if not (is_letter_or_digit c) then b'_' else c)

masked-guard : (c : ℕ) → is_guard_char (masked c) ≡ true
unfolding upper_char
masked-guard c = ground arith

AllGuard-masked :
    (s : Text)
    → AllGuard (upper (map (λ c. if not (is_letter_or_digit c) then b'_' else c) s) ++ text "_")
unfolding AllGuard upper
AllGuard-masked [] = (refl, tt)
AllGuard-masked (c ∷ s) = (masked-guard c, AllGuard-masked s)

variable_of-AllGuard : (path : Text) → AllGuard (variable_of path)
unfolding variable_of
variable_of-AllGuard path =
    let e : sub not_letter_or_digit (text "_") path
        ≡ map (λ c. if not (is_letter_or_digit c) then b'_' else c) path =
      sub-one (λ c. not (is_letter_or_digit c)) b'_' path in
    rw e (AllGuard-masked path)

-- The variable of a header guard is made of capital letters, digits and underscores only, whatever the name
-- of the file and its place in the file system.
pub get_header_guard_cpp_variable-AllGuard :
    (repository_name full_name abspath : Text → Text) (root filename : Text)
    → AllGuard (get_header_guard_cpp_variable repository_name full_name abspath root filename)
unfolding get_header_guard_cpp_variable
get_header_guard_cpp_variable-AllGuard repository_name full_name abspath root filename =
    variable_of-AllGuard (guarded_path repository_name full_name abspath root filename)
