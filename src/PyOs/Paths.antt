-- ===== src/PyOs/Paths.antt =====
-- The parts that a path is split into.
use cmu.Base.{
  ℕ, ◌<◌, ◌≡◌, refl, sym, ap, ◌∙◌, ◌⊎◌, inl, inr, Bool-cases, [], ◌∷◌, ◌++◌, append_assoc,
  append-nil, reverse, ◌==◌, arith, length, length-append, Text,
}
use mathlib.Core.List.{reverse-append, reverse-reverse}
use cmu.PyOs.{from_char, skip_char, strip_head, dirname}

abbrev IsEnd : Text → Text → Type 0
IsEnd t s = (u : Text) × (u ++ t ≡ s)

from_char-IsEnd : (c : ℕ) (s : Text) → IsEnd (from_char c s) s
unfolding from_char
from_char-IsEnd c [] = ([], refl)
from_char-IsEnd c (x ∷ s) = elim (Bool-cases (x == c)) [
  | inl e ↦ rw (e, from_char) ([], refl)
  | inr e ↦ let (u, p) = from_char-IsEnd c s in rw (e, from_char) (x ∷ u, ap (λ t. x ∷ t) p)
]

skip_char-IsEnd : (c : ℕ) (s : Text) → IsEnd (skip_char c s) s
unfolding skip_char
skip_char-IsEnd c [] = ([], refl)
skip_char-IsEnd c (x ∷ s) = elim (Bool-cases (x == c)) [
  | inl e ↦ let (u, p) = skip_char-IsEnd c s in rw (e, skip_char) (x ∷ u, ap (λ t. x ∷ t) p)
  | inr e ↦ rw (e, skip_char) ([], refl)
]

strip_head-IsEnd : (s : Text) → IsEnd (strip_head s) s
unfolding strip_head
strip_head-IsEnd s = go (skip_char b'/' s) (skip_char-IsEnd b'/' s)
  where
    go : (t : Text) → IsEnd t s → IsEnd (elim t [ [] ↦ s | c ∷ r ↦ c ∷ r ]) s
    go [] e = ([], refl)
    go (c ∷ r) e = e

-- what stands before the end of a text read backwards starts the text
dirname-prefix : (s : Text) → (t : Text) × (dirname s ++ t ≡ s)
unfolding dirname
dirname-prefix s =
    let (u, p) = from_char-IsEnd b'/' (reverse s) in
    let (v, q) = strip_head-IsEnd (from_char b'/' (reverse s)) in
    let stripped : Text = strip_head (from_char b'/' (reverse s)) in
    let whole : (u ++ v) ++ stripped ≡ reverse s =
      append_assoc u v stripped ∙ ap (λ t. u ++ t) q ∙ p in
    (
      reverse (u ++ v),
      sym (reverse-append (u ++ v) stripped) ∙ ap reverse whole ∙ reverse-reverse s,
    )

prefix-shorter : (h t s : Text) → h ++ t ≡ s → (h ≡ s) ⊎ (length h < length s)
prefix-shorter h [] s e = inl (sym (append-nil h) ∙ e)
prefix-shorter h (x ∷ t) s e =
    let l : length (h ++ x ∷ t) ≡ length s = ap length e in
    inr (omega (arith, l, length-append h (x ∷ t)))

-- The directory of a path is the path or shorter.
pub dirname-shorter : (s : Text) → (dirname s ≡ s) ⊎ (length (dirname s) < length s)
dirname-shorter s = let (t, e) = dirname-prefix s in prefix-shorter (dirname s) t s e
