-- ===== src/Cpplint/State/Filters.antt =====
-- Filters: which one decides, when the text of `--filter` is accepted, and the backup of the list.
use cmu.Base.{
  ℕ, ◌≡◌, ◌↔◌, refl, ap, ◌∙◌, Bool, true, false, not, ◌&&◌, Option, none, some, List, [], ◌∷◌, ◌++◌,
  arith, if◌then◌else◌, leb, drop, Text, text, text_eq, text_eq_iff, ◌⊎◌, inl, inr, Bool-cases,
}
use cmu.PyText.{starts_with, split, strip, join, contains}
use cmu.Cpplint.Categories.{default_filters}
use cmu.Cpplint.Suppress.{Suppressions, is_error_suppressed_by_nolint}
use cmu.Cpplint.State.{
  LintState, has_sign, clean_filters, first_unsigned, add_filters, set_filters, is_filtered_from,
  should_print_error,
}

-- Every filter begins with its sign.
abbrev pub AllSigned : List Text → Type 0
AllSigned [] = Unit
AllSigned (f ∷ fs) = (has_sign f ≡ true) × AllSigned fs

-- The last filter of the list whose text after the sign begins the category.
abbrev pub last_match : Text → List Text → Option Text
last_match c [] = none
last_match c (f ∷ fs) = elim (last_match c fs) [
  | some g ↦ some g
  | none ↦ if starts_with (drop 1 f) c then some f else none
]

-- A category is left out if the last filter that matches it is a `-` filter.
abbrev pub excludes : Option Text → Bool
excludes none = false
excludes (some f) = starts_with (text "-") f

signs_differ : (f : Text) → starts_with (text "+") f ≡ true → starts_with (text "-") f ≡ false
unfolding starts_with
signs_differ [] h = refl
signs_differ (c ∷ f) h = ground arith

abbrev decide_from : Bool → Option Text → Bool
decide_from before none = before
decide_from before (some f) = starts_with (text "-") f

is_filtered_from_lem :
    (before : Bool) (fs : List Text) (c : Text)
    → AllSigned fs
    → is_filtered_from before fs c ≡ some (decide_from before (last_match c fs))
unfolding is_filtered_from
is_filtered_from_lem before [] c h = refl
is_filtered_from_lem before (f ∷ fs) c h = ground (
  arith,
  signs_differ f,
  is_filtered_from_lem before fs c h.1,
  is_filtered_from_lem true fs c h.1,
  is_filtered_from_lem false fs c h.1,
)

-- With filters that all have a sign, the assertion never fails, and an error is printed exactly if
-- it is not suppressed, its confidence is at least the verbosity, and the last filter that matches
-- its category, if there is one, is not a `-` filter.
pub should_print_error_lem :
    (c : Text) (confidence linenum : ℕ) (p : Suppressions) (s : LintState)
    → AllSigned s.filters
    → should_print_error c confidence linenum p s
      ≡ some (
          not (is_error_suppressed_by_nolint c linenum p)
          && leb s.verbose_level confidence
          && not (excludes (last_match c s.filters)))
unfolding should_print_error
should_print_error_lem c confidence linenum p s h =
    ground (arith, is_filtered_from_lem false s.filters c h)

first_unsigned_iff : (fs : List Text) → (first_unsigned fs ≡ none) ↔ AllSigned fs
unfolding first_unsigned
first_unsigned_iff [] = (λ _. tt, λ _. refl)
first_unsigned_iff (f ∷ fs) = ground (arith, first_unsigned_iff fs)

-- The text begins with a sign.
abbrev pub IsSigned : Text → Type 0
IsSigned f = (rest : Text) × ((f ≡ b'+' ∷ rest) ⊎ (f ≡ b'-' ∷ rest))

abbrev pub Each : (Text → Type 0) → List Text → Type 0
Each P [] = Unit
Each P (f ∷ fs) = P f × Each P fs

-- The text has nothing but white space, or begins with a sign behind it.
abbrev pub IsBlankOrSigned : Text → Type 0
IsBlankOrSigned f = (strip f ≡ []) ⊎ IsSigned (strip f)

IsSigned-has_sign : (f : Text) → IsSigned f → has_sign f ≡ true
unfolding starts_with
IsSigned-has_sign f (rest, inl e) = rw e refl
IsSigned-has_sign f (rest, inr e) = rw e refl

sign-cases : (c : ℕ) (f : Text) → has_sign (c ∷ f) ≡ true → (c ≡ b'+') ⊎ (c ≡ b'-')
unfolding starts_with
sign-cases c f h = ground arith

has_sign-IsSigned : (f : Text) → has_sign f ≡ true → IsSigned f
unfolding starts_with
has_sign-IsSigned [] h = cc
has_sign-IsSigned (c ∷ f) h = elim (sign-cases c f h) [
  | inl e ↦ (f, inl (ap (λ x. x ∷ f) e))
  | inr e ↦ (f, inr (ap (λ x. x ∷ f) e))
]

-- The new filters are those that are not blank.
clean_filters-AllSigned : (fs : List Text) → AllSigned (clean_filters fs) ↔ Each IsBlankOrSigned fs
unfolding clean_filters
clean_filters-AllSigned [] = ((λ _. tt), (λ _. tt))
clean_filters-AllSigned (f ∷ fs) = elim (Bool-cases (text_eq (strip f) [])) [
  | inl e ↦ rw e (
    (λ h. (inl ((text_eq_iff (strip f) []).0 e), (clean_filters-AllSigned fs).0 h)),
    (λ h. (clean_filters-AllSigned fs).1 h.1),
  )
  | inr e ↦ rw e (
    (λ h. (inr (has_sign-IsSigned (strip f) h.0), (clean_filters-AllSigned fs).0 h.1)),
    (λ h. elim h.0 [
      | inl k ↦ cc (e, (text_eq_iff (strip f) []).1 k)
      | inr k ↦ (IsSigned-has_sign (strip f) k, (clean_filters-AllSigned fs).1 h.1)
    ]),
  )
]

AllSigned-append :
    (fs gs : List Text)
    → AllSigned (fs ++ clean_filters gs) ↔ (Each IsSigned fs × Each IsBlankOrSigned gs)
AllSigned-append [] gs =
    ((λ h. (tt, (clean_filters-AllSigned gs).0 h)), (λ h. (clean_filters-AllSigned gs).1 h.1))
AllSigned-append (f ∷ fs) gs = (
  (λ h. let rest = (AllSigned-append fs gs).0 h.1 in ((has_sign-IsSigned f h.0, rest.0), rest.1)),
  (λ h. (IsSigned-has_sign f h.0.0, (AllSigned-append fs gs).1 (h.0.1, h.1))),
)

-- `AddFilters` raises no ValueError exactly if every filter that was set before begins with `+` or `-`,
-- and so does, behind white space, every part of the text between its commas that is not blank.
pub add_filters-AllSigned :
    (t : Text) (s : LintState)
    → ((add_filters t s).1 ≡ none) ↔ (Each IsSigned s.filters × Each IsBlankOrSigned (split b',' t))
unfolding add_filters
add_filters-AllSigned t s =
    let iff = first_unsigned_iff (s.filters ++ clean_filters (split b',' t)) in
    let parts = AllSigned-append s.filters (split b',' t) in
    ((λ h. parts.0 (iff.0 (ground (arith, h)))), (λ h. rw (iff.1 (parts.1 h), add_filters) refl))

-- A filter that can be written in a list: no comma, no space at its ends.
abbrev pub IsPlain : Text → Type 0
IsPlain f = (contains b',' f ≡ false) × (strip f ≡ f) × (has_sign f ≡ true)

abbrev pub AllPlain : List Text → Type 0
AllPlain [] = Unit
AllPlain (f ∷ fs) = IsPlain f × AllPlain fs

split-no_sep : (c : ℕ) (f : Text) → contains c f ≡ false → split c f ≡ f ∷ []
unfolding split contains
split-no_sep c [] h = refl
split-no_sep c (x ∷ f) h = ground (arith, split-no_sep c f)

split-append :
    (c : ℕ) (f rest : Text) → contains c f ≡ false → split c (f ++ c ∷ rest) ≡ f ∷ split c rest
unfolding split contains
split-append c [] rest h = ground arith
split-append c (x ∷ f) rest h = ground (arith, split-append c f rest)

split-join :
    (f : Text) (fs : List Text) → AllPlain (f ∷ fs) → split b',' (join (text ",") (f ∷ fs)) ≡ f ∷ fs
unfolding join
split-join f [] h = split-no_sep b',' f h.0.0
split-join f (g ∷ fs) h =
    split-append b',' f (join (text ",") (g ∷ fs)) h.0.0 ∙ ap (◌∷◌ f) (split-join g fs h.1)

signed-ne-nil : (f : Text) → has_sign f ≡ true → text_eq f [] ≡ false
unfolding starts_with text_eq
signed-ne-nil [] h = cc
signed-ne-nil (x ∷ f) h = refl

clean_filters_lem : (fs : List Text) → AllPlain fs → clean_filters fs ≡ fs
unfolding clean_filters
clean_filters_lem [] h = refl
clean_filters_lem (f ∷ fs) h =
    rw (h.0.1, signed-ne-nil f h.0.2) (ap (◌∷◌ f) (clean_filters_lem fs h.1))

AllPlain-AllSigned : (fs : List Text) → AllPlain fs → AllSigned fs
AllPlain-AllSigned [] h = tt
AllPlain-AllSigned (f ∷ fs) h = (h.0.2, AllPlain-AllSigned fs h.1)

-- A list of signed filters without commas or outer spaces, joined by commas, is what `SetFilters`
-- adds to the default filters, and it raises no error.
pub set_filters-join :
    (f : Text) (fs : List Text) (s : LintState)
    → AllPlain (f ∷ fs)
    → set_filters (join (text ",") (f ∷ fs)) s
      ≡ (record s { filters = default_filters ++ f ∷ fs }, none)
unfolding set_filters add_filters
set_filters-join f fs s h =
    rw (split-join f fs h, clean_filters_lem (f ∷ fs) h)
      (rw
        ((first_unsigned_iff (default_filters ++ f ∷ fs)).1
          (unfold starts_with in refl, AllPlain-AllSigned (f ∷ fs) h))
        refl)
