-- ===== src/Cpplint/Reverse/Tests.antt =====
-- Runs of `ReverseCloseExpression`.
use cmu.Base.{◌≡◌, refl, some, [], ◌∷◌, text}
use cmu.Cpplint.Expression.Balance.{nil, plain, bracket}
use cmu.Cpplint.Reverse.{reverse_close_expression}
use cmu.Cpplint.Reverse.Open.{reverse_close_expression-Nested}

reverse_close_expression-Nested_example :
    reverse_close_expression (text "f {a;" ∷ text " [1];" ∷ text "} x;" ∷ []) 2 0
    ≡ some (record { line = text "f {a;"; linenum = 0; pos = some 2 })
reverse_close_expression-Nested_example =
    reverse_close_expression-Nested [] (text "f ") (text "a;") (text " [1];" ∷ []) [] (text " x;")
      [] b'{' b'}' refl
      (plain b'a' refl (
        plain b';' refl (
          plain b' ' refl (
            bracket b'[' b']' (text "1") (text ";") refl (plain b'1' refl nil) (plain b';' refl nil)
              refl))))

-- A comparison within the brackets is passed over.
test_comparison :
    reverse_close_expression (text "(a >= b)" ∷ []) 0 7
    ≡ some (record { line = text "(a >= b)"; linenum = 0; pos = some 0 })
unfolding reverse_close_expression
test_comparison = refl

test_template :
    reverse_close_expression (text "x = A<b(c)>" ∷ []) 0 10
    ≡ some (record { line = text "x = A<b(c)>"; linenum = 0; pos = some 5 })
unfolding reverse_close_expression
test_template = refl
