-- ===== src/Cpplint/Include/Order.antt =====
-- Which orders of headers `CheckNextIncludeOrder` accepts. The comment of `CheckIncludeLine` lists the
-- file's own header at its deprecated place as a type of its own, before the other headers; the code has
-- one section for both.
use mathlib.Core.Path.{subst}
use cmu.Base.{Option-cases, ℕ, ◌≡◌, ◌≢◌, ◌↔◌, inl, inr, refl, none, some, List, [], ◌∷◌, Text}
use cmu.Cpplint.Include.{HeaderType, IncludeState, next_section, check_next_include_order}
use cmu.Cpplint.Include.Grammar.{Sections, stop, step, InOrder, Sections→InOrder, InOrder→Sections}

-- the messages for headers of these types, one after the other
abbrev pub messages : List HeaderType → IncludeState → List Text
messages [] s = []
messages (t ∷ ts) s = let (s', message) = check_next_include_order t s in message ∷ messages ts s'

abbrev pub NoErrors : List Text → Type 0
NoErrors [] = Unit
NoErrors (m ∷ ms) = (m ≡ []) × NoErrors ms

check-none :
    (t : HeaderType) (s : IncludeState)
    → next_section t s.section ≡ none
    → (check_next_include_order t s).1 ≢ []
unfolding check_next_include_order
check-none t s e = rw (e, check_next_include_order) (λ h. cc)

check-some :
    (t : HeaderType) (s : IncludeState) {n : ℕ}
    → next_section t s.section ≡ some n
    → ((check_next_include_order t s).0.section ≡ n) × ((check_next_include_order t s).1 ≡ [])
unfolding check_next_include_order
check-some t s e = rw (e, check_next_include_order) (refl, refl)

messages→Sections :
    (ts : List HeaderType) (s : IncludeState) → NoErrors (messages ts s) → Sections s.section ts
messages→Sections [] s h = stop
messages→Sections (t ∷ ts) s h = elim (Option-cases (next_section t s.section)) [
  | inl e ↦ absurd (check-none t s e h.0)
  | inr (n, e) ↦ step e (
      subst (λ m. Sections m ts) (check-some t s e).0
        (messages→Sections ts (check_next_include_order t s).0 h.1))
]

Sections→messages :
    (ts : List HeaderType) (s : IncludeState) {n : ℕ}
    → s.section ≡ n
    → Sections n ts
    → NoErrors (messages ts s)
Sections→messages [] s e h = tt
Sections→messages (t ∷ ts) s e (step k h) =
    let (at, none_said) = check-some t s (rw e k) in
    (none_said, Sections→messages ts (check_next_include_order t s).0 at h)

-- From the initial section, the headers of a file are all accepted, with no message, exactly if
-- they stand in order: the file's own, then C, then C++ system headers, then the others, among which,
-- in any place, further headers of the file's own may stand.
pub messages-InOrder :
    (ts : List HeaderType) (s : IncludeState)
    → s.section ≡ 0
    → NoErrors (messages ts s) ↔ InOrder ts
messages-InOrder ts s e = (
  (λ h. Sections→InOrder ts (subst (λ n. Sections n ts) e (messages→Sections ts s h))),
  (λ h. Sections→messages ts s e (InOrder→Sections ts h)),
)
