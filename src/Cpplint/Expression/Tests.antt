-- ===== src/Cpplint/Expression/Tests.antt =====
-- Runs of `CloseExpression`.
use cmu.Base.{◌≡◌, refl, none, some, [], ◌∷◌, text}
use cmu.Cpplint.Expression.{close_expression}
use cmu.Cpplint.Expression.Balance.{nil, plain, bracket}
use cmu.Cpplint.Expression.Close.{close_expression-Nested}

close_expression-Nested_example :
    close_expression (text "f {a;" ∷ text " [1];" ∷ text "} x;" ∷ []) 0 2
    ≡ some (record { line = text "} x;"; linenum = 2; pos = some 1 })
close_expression-Nested_example =
    close_expression-Nested [] (text "f ") (text "a;") (text " [1];" ∷ []) [] (text " x;") [] b'{'
      b'}' refl
      (plain b'a' refl (
        plain b';' refl (
          plain b' ' refl (
            bracket b'[' b']' (text "1") (text ";") refl (plain b'1' refl nil) (plain b';' refl nil)
              refl))))

-- A template argument list is closed at its own bracket, whatever shift stands in it.
test_template :
    close_expression (text "map<int, A<b> >> c;" ∷ []) 0 3
    ≡ some (record { line = text "map<int, A<b> >> c;"; linenum = 0; pos = some 15 })
unfolding close_expression
test_template = refl

-- `operator>` with no space is read as the end of a list.
test_operator :
    close_expression (text "a<b operator> c> d" ∷ []) 0 1
    ≡ some (record { line = text "a<b operator> c> d"; linenum = 0; pos = some 13 })
unfolding close_expression
test_operator = refl

test_no_bracket :
    close_expression (text "a << b" ∷ []) 0 2
    ≡ some (record { line = text "a << b"; linenum = 1; pos = none })
unfolding close_expression
test_no_bracket = refl
