-- ===== src/Regex/OneChar.antt =====
-- Substitution of single characters.
use cmu.Base.{
  ℕ, zero, ◌-◌, ◌≡◌, refl, ap, Bool, Bool-cases, inl, inr, [], ◌∷◌, map, arith, if◌then◌else◌,
  length, Text,
}
use cmu.Regex.{one, sub_from, sub, run}

minus_self : (n : ℕ) → n - n ≡ 0
minus_self n = omega arith

sub_from-one :
    (p : ℕ → Bool) (r : ℕ) (before s : Text)
    → sub_from (one p) (r ∷ []) zero before s ≡ map (λ c. if p c then r else c) s
unfolding sub_from run
sub_from-one p r before [] = refl
sub_from-one p r before (x ∷ s) = elim (Bool-cases (p x)) [
  | inl e ↦
      rw (e, sub_from)
        (rw (minus_self (length s)) (ap (λ t. r ∷ t) (sub_from-one p r (x ∷ before) s)))
  | inr e ↦ rw (e, sub_from) (ap (λ t. x ∷ t) (sub_from-one p r (x ∷ before) s))
]

-- A class of characters is replaced by one character, at each place where it matches.
pub sub-one :
    (p : ℕ → Bool) (r : ℕ) (s : Text) → sub (one p) (r ∷ []) s ≡ map (λ c. if p c then r else c) s
unfolding sub
sub-one p r s = sub_from-one p r [] s
