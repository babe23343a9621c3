-- ===== src/Cpplint/LineChecks/Blank.antt =====
-- What `GetPreviousNonBlankLine` finds.
use cmu.Base.{
  ℕ, zero, suc, ◌<◌, ◌≤◌, ◌≡◌, sym, ap, ◌∙◌, ◌⊎◌, inl, inr, Bool-cases, Option-cases, true, false,
  Option, none, some, List, arith, get_elem?, Text,
}
use cmu.Cpplint.LineChecks.{is_blank_line, get_previous_non_blank_line}

-- The lines from `from` to before `to` are blank.
abbrev pub BlankBetween : List Text → ℕ → ℕ → Type 0
BlankBetween elided from to =
    (i : ℕ) (line : Text)
    → from ≤ i
    → i < to
    → get_elem? elided i ≡ some line
    → is_blank_line line ≡ true

-- what a result says of the lines before a number
abbrev pub IsPrevious : List Text → ℕ → Option (Text × ℕ) → Type 0
IsPrevious elided linenum none = BlankBetween elided 0 linenum
IsPrevious elided linenum (some (line, n)) =
    (n < linenum)
    × (get_elem? elided n ≡ some line)
    × (is_blank_line line ≡ false)
    × BlankBetween elided (suc n) linenum

-- The line with this number, if there is one, is blank.
abbrev BlankAt : List Text → ℕ → Type 0
BlankAt elided n = (line : Text) → get_elem? elided n ≡ some line → is_blank_line line ≡ true

below_cases : (i n : ℕ) → i < suc n → (i < n) ⊎ (i ≡ n)
below_cases i n h = ground arith

BlankBetween-suc :
    (elided : List Text) (from n : ℕ)
    → BlankAt elided n
    → BlankBetween elided from n
    → BlankBetween elided from (suc n)
BlankBetween-suc elided from n at h i line a b e = elim (below_cases i n b) [
  | inl c ↦ h i line a c e
  | inr c ↦ at line (ap (get_elem? elided) (sym c) ∙ e)
]

IsPrevious-suc :
    (elided : List Text) (n : ℕ) (r : Option (Text × ℕ))
    → BlankAt elided n
    → IsPrevious elided n r
    → IsPrevious elided (suc n) r
IsPrevious-suc elided n none at h = BlankBetween-suc elided 0 n at h
IsPrevious-suc elided n (some (line, m)) at (a, b, c, d) =
    (omega (arith, a), b, c, BlankBetween-suc elided (suc m) n at d)

nothing_between : (elided : List Text) (n : ℕ) → BlankBetween elided n n
nothing_between elided n i line a b e = absurd (omega (arith, a, b))

-- The line that `GetPreviousNonBlankLine` returns stands before the line at hand under the number
-- returned, is not blank, and all lines between the two are blank; if it returns none, all lines
-- before are blank.
pub get_previous_non_blank_line_lem :
    (elided : List Text) (linenum : ℕ)
    → IsPrevious elided linenum (get_previous_non_blank_line elided linenum)
unfolding get_previous_non_blank_line
get_previous_non_blank_line_lem elided zero = nothing_between elided 0
get_previous_non_blank_line_lem elided (suc linenum) =
    let before = get_previous_non_blank_line_lem elided linenum in
    let result = get_previous_non_blank_line elided linenum in
    elim (Option-cases (get_elem? elided linenum)) [
      | inl e ↦
          rw (e, get_previous_non_blank_line)
            (IsPrevious-suc elided linenum result (λ line f. cc (e, f)) before)
      | inr (line, e) ↦ elim (Bool-cases (is_blank_line line)) [
        | inl b ↦
            rw (e, b, get_previous_non_blank_line)
              (IsPrevious-suc elided linenum result (λ line' f. cc (e, f, b)) before)
        | inr b ↦
            rw (e, b, get_previous_non_blank_line)
              (omega arith, e, b, nothing_between elided (suc linenum))
      ]
    ]
