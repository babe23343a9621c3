-- ===== src/Cpplint/Suppress/Covers.antt =====
-- Which errors a NOLINT comment silences, told without the slices and branches of the code.
use cmu.Base.{
  ℕ, suc, ◌≡◌, refl, ap, ◌∙◌, inl, inr, Bool, true, false, ◌&&◌, ◌||◌, Option, none, some, List, [],
  ◌∷◌, ◌++◌, arith, ◌==◌, Text, text, text_eq, text_eq_iff,
}
use cmu.PyText.{starts_with, ends_with, member}
use cmu.PyText.Ends.{last-cases, ends_with-concat, take-length-concat}
use cmu.Regex.{Cursor, search_all, finds, group?}
use cmu.Cpplint.Categories.{
  error_categories, default_c_suppressed_categories, default_kernel_suppressed_categories,
}
use cmu.Cpplint.Suppress.{
  Key, Lines, Suppressions, key_eq, has_line, on_line, add_line, nolint, inner, suppressed_line,
  parse_nolint_suppressions, process_global_suppresions, reset_nolint_suppressions,
  is_error_suppressed_by_nolint, parse_groups, add_to, parse_category, parse_match, search_c_file,
  search_kernel_file, process_global_line,
}

-- The category in parentheses, if there is one, is `c`, or stands for all.
abbrev names : Option Text → Text → Bool
names none c = true
names (some t) c =
    text_eq t (text "(*)") || text_eq t (b'(' ∷ (c ++ b')' ∷ [])) && member c error_categories

-- the line at hand, or the next one if `NEXTLINE` is there
abbrev is_line : Option Text → ℕ → ℕ → Bool
is_line none linenum l = l == linenum
is_line (some _) linenum l = l == suc linenum

abbrev pub covers : Option (ℕ × Cursor) → ℕ → Text → ℕ → Bool
covers none linenum c l = false
covers (some (_, m)) linenum c l = is_line (group? 1 m) linenum l && names (group? 2 m) c

key_eq_refl : (k : Key) → key_eq k k ≡ true
unfolding key_eq
key_eq_refl none = refl
key_eq_refl (some s) = (text_eq_iff s s).1 refl

key_eq→eq : (j k : Key) → key_eq j k ≡ true → j ≡ k
unfolding key_eq
key_eq→eq none none h = refl
key_eq→eq (some s) (some t) h = ap some ((text_eq_iff s t).0 h)
key_eq→eq none (some t) h = cc
key_eq→eq (some s) none h = cc

on_line-add_line :
    (k j : Key) (n m : ℕ) (d : Lines)
    → on_line k n (add_line j m d) ≡ (key_eq k j && n == m || on_line k n d)
unfolding on_line add_line has_line
on_line-add_line k j n m [] = ground arith
on_line-add_line k j n m ((i, ms) ∷ d) = ground (
  arith,
  on_line-add_line k j n m d,
  key_eq→eq k j,
  key_eq→eq k i,
  key_eq→eq j i,
  key_eq_refl k,
  key_eq_refl j,
  key_eq_refl i,
)

text_eq-concat :
    (xs c : Text) (y z : ℕ) → text_eq (xs ++ y ∷ []) (c ++ z ∷ []) ≡ (text_eq c xs && z == y)
unfolding text_eq
text_eq-concat [] [] y z = ground arith
text_eq-concat (x ∷ xs) (d ∷ c) y z = ground (arith, text_eq-concat xs c y z)
text_eq-concat [] (d ∷ []) y z = ground arith
text_eq-concat [] (d ∷ e ∷ c) y z = ground arith
text_eq-concat (x ∷ []) [] y z = ground arith
text_eq-concat (x ∷ w ∷ xs) [] y z = ground arith

text_eq-nil-concat : (c : Text) (z : ℕ) → text_eq [] (c ++ z ∷ []) ≡ false
unfolding text_eq
text_eq-nil-concat [] z = refl
text_eq-nil-concat (d ∷ c) z = refl

inner-concat : (x y : ℕ) (xs : Text) → inner (x ∷ (xs ++ y ∷ [])) ≡ xs
unfolding inner
inner-concat x y xs = rw (take-length-concat (x ∷ xs) y)

-- `(…)` taken apart by tests and a slice is the same as put together.
inner_iff_last :
    (c xs : Text) (y : ℕ)
    → (starts_with (text "(") (xs ++ y ∷ [])
        && ends_with (text ")") (xs ++ y ∷ [])
        && text_eq c (inner (xs ++ y ∷ [])))
      ≡ text_eq (xs ++ y ∷ []) (b'(' ∷ (c ++ b')' ∷ []))
inner_iff_last c [] y =
    rw (ends_with-concat b')' [] y)
      (unfold starts_with text_eq in ground (arith, text_eq-nil-concat c b')'))
inner_iff_last c (x ∷ xs) y =
    rw (ends_with-concat b')' (x ∷ xs) y, inner-concat x y xs)
      (unfold starts_with text_eq in ground (arith, text_eq-concat xs c y b')'))

inner_iff :
    (c t : Text)
    → (starts_with (text "(") t && ends_with (text ")") t && text_eq c (inner t))
      ≡ text_eq t (b'(' ∷ (c ++ b')' ∷ []))
inner_iff c t = elim (last-cases t) [
  | inl e ↦ rw e (unfold starts_with text_eq in refl)
  | inr (xs, y, e) ↦ rw e (inner_iff_last c xs y)
]

suppressed_line_lem :
    (o : Option Text) (linenum l : ℕ) → (l == suppressed_line linenum o) ≡ is_line o linenum l
unfolding suppressed_line
suppressed_line_lem none linenum l = refl
suppressed_line_lem (some t) linenum l = ground arith

module _ (filename : Text) (linenum : ℕ) (s : Suppressions) (c : Text) (l : ℕ) where
  parse_groups_lem :
      (line : ℕ) (o : Option Text)
      → is_error_suppressed_by_nolint c l (parse_groups filename linenum line o s).0
        ≡ (is_error_suppressed_by_nolint c l s || l == line && names o c)
  unfolding is_error_suppressed_by_nolint parse_groups add_to parse_category key_eq
  parse_groups_lem line none = ground (
    arith,
    on_line-add_line (some c) none l line s.by_line,
    on_line-add_line none none l line s.by_line,
  )
  parse_groups_lem line (some t) = ground (
    arith,
    inner_iff c t,
    text_eq_iff c (inner t),
    on_line-add_line (some c) none l line s.by_line,
    on_line-add_line none none l line s.by_line,
    on_line-add_line (some c) (some (inner t)) l line s.by_line,
    on_line-add_line none (some (inner t)) l line s.by_line,
  )

  parse_match_lem :
      (m : Option (ℕ × Cursor))
      → is_error_suppressed_by_nolint c l (parse_match filename linenum m s).0
        ≡ (is_error_suppressed_by_nolint c l s || covers m linenum c l)
  unfolding parse_match
  parse_match_lem none = ground arith
  parse_match_lem (some (k, m)) =
      parse_groups_lem (suppressed_line linenum (group? 1 m)) (group? 2 m)
      ∙ ap (λ b. is_error_suppressed_by_nolint c l s || b && names (group? 2 m) c)
          (suppressed_line_lem (group? 1 m) linenum l)

-- After a line is read, an error is silenced exactly if it was before or the comment on the line
-- speaks of it.
pub parse_nolint_suppressions_lem :
    (filename raw_line : Text) (linenum : ℕ) (s : Suppressions) (c : Text) (l : ℕ)
    → is_error_suppressed_by_nolint c l (parse_nolint_suppressions filename raw_line linenum s).0
      ≡ (is_error_suppressed_by_nolint c l s || covers (search_all nolint raw_line) linenum c l)
unfolding parse_nolint_suppressions
parse_nolint_suppressions_lem filename raw_line linenum s c l =
    parse_match_lem filename linenum s c l (search_all nolint raw_line)

-- Whether a line holds the mark of a C file or of a kernel file, for the category that it silences.
abbrev marks : Text → Text → Bool
marks c line =
    finds search_c_file line && member c default_c_suppressed_categories
    || finds search_kernel_file line && member c default_kernel_suppressed_categories

abbrev pub any_marks : Text → List Text → Bool
any_marks c [] = false
any_marks c (line ∷ lines) = marks c line || any_marks c lines

member-append : (c : Text) (xs ys : List Text) → member c (xs ++ ys) ≡ (member c xs || member c ys)
unfolding member
member-append c [] ys = refl
member-append c (x ∷ xs) ys = ground (arith, member-append c xs ys)

process_global_line_lem :
    (line : Text) (s : Suppressions) (c : Text) (l : ℕ)
    → is_error_suppressed_by_nolint c l (process_global_line line s)
      ≡ (is_error_suppressed_by_nolint c l s || marks c line)
unfolding process_global_line is_error_suppressed_by_nolint
process_global_line_lem line s c l = ground arith

process_global_suppresions_from :
    (lines : List Text) (s : Suppressions) (c : Text) (l : ℕ)
    → is_error_suppressed_by_nolint c l (process_global_suppresions lines s)
      ≡ (is_error_suppressed_by_nolint c l s || any_marks c lines)
unfolding process_global_suppresions
process_global_suppresions_from [] s c l = ground arith
process_global_suppresions_from (line ∷ lines) s c l = ground (
  arith,
  process_global_suppresions_from lines (process_global_line line s) c l,
  process_global_line_lem line s c l,
)

-- Once the suppressions are reset and the lines of a file are scanned for marks of a C or a kernel
-- file, an error is silenced, on every line, exactly if some line of the file marks its category.
pub process_global_suppresions_lem :
    (lines : List Text) (s : Suppressions) (c : Text) (l : ℕ)
    → is_error_suppressed_by_nolint c l
        (process_global_suppresions lines (reset_nolint_suppressions s))
      ≡ any_marks c lines
process_global_suppresions_lem lines s c l =
    process_global_suppresions_from lines (reset_nolint_suppressions s) c l
    ∙ unfold reset_nolint_suppressions is_error_suppressed_by_nolint on_line member in refl
