-- ===== src/Cpplint/Expression/Effect.antt =====
-- The effect of a text on a stack, told by the effect of each character.
use mathlib.Core.Path.{subst}
use cmu.Base.{ℕ, ◌≡◌, refl, sym, Option, some, [], ◌∷◌, ◌++◌, Text}
use cmu.Cpplint.Expression.{Stack}

module _ (step : ℕ → Stack → Option Stack) where
  -- The stack is non-empty at each character.
  abbrev pub Effect : Text → Stack → Stack → Type 0
  Effect [] stack stack' = stack ≡ stack'
  Effect (c ∷ s) stack stack' =
      (o : ℕ) × (rest : Stack) × (step c stack ≡ some (o ∷ rest)) × Effect s (o ∷ rest) stack'

  pub Effect-append :
      (s t : Text) (a b c : Stack) → Effect s a b → Effect t b c → Effect (s ++ t) a c
  Effect-append [] t a b c h k = subst (λ x. Effect t x c) (sym h) k
  Effect-append (d ∷ s) t a b c (o, st, e, h) k = (o, st, e, Effect-append s t (o ∷ st) b c h k)

  pub Effect-split :
      (s t : Text) (a c : Stack) → Effect (s ++ t) a c → (b : Stack) × Effect s a b × Effect t b c
  Effect-split [] t a c h = (a, refl, h)
  Effect-split (d ∷ s) t a c (o, st, e, h) =
      let (b, k, l) = Effect-split s t (o ∷ st) c h in (b, (o, st, e, k), l)

  -- The stack stays non-empty.
  pub Effect-cons :
      (s : Text) (q : ℕ) (stack b : Stack)
      → Effect s (q ∷ stack) b
      → (o : ℕ) × (rest : Stack) × (b ≡ o ∷ rest)
  Effect-cons [] q stack b h = (q, stack, sym h)
  Effect-cons (c ∷ s) q stack b (o, st, e, h) = Effect-cons s o st b h
