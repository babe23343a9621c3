-- ===== src/Cpplint/State/Tally.antt =====
-- The state after some reports were printed, against the state before: counts and output.
use cmu.Base.{
  ℕ, suc, ◌+◌, ◌≡◌, refl, sym, ap, ◌∙◌, Bool, true, false, Option, none, some, List, [], ◌∷◌, ◌++◌,
  append-nil, append_assoc, arith, if◌then◌else◌, Text, text_eq, text_eq_iff,
}
use mathlib.Core.Path.{ap₂}
use cmu.Cpplint.Report.{Report}
use cmu.Cpplint.Suppress.{Suppressions}
use cmu.Cpplint.State.{
  Counting, Counts, LintState, Format, vs7_message, emacs_message, eclipse_message, count_key, bump,
  bump_key, print_error, is_junit, emacs, eclipse, vs7, junit, increment_error_count,
  should_print_error, emit,
}

-- `errors_by_category.get(category, 0)`
abbrev pub count_of : Text → Counts → ℕ
count_of c [] = 0
count_of c ((d, n) ∷ counts) = if text_eq c d then n else count_of c counts

abbrev pub keep : Option Bool → Report → List Report → List Report
keep (some true) r rs = r ∷ rs
keep _ r rs = rs

-- The reports that `Error` prints, in order; it asks the state that does not change.
abbrev pub printed : Suppressions → LintState → List Report → List Report
printed p s [] = []
printed p s (r ∷ rs) =
    keep (should_print_error r.category r.confidence r.linenum p s) r (printed p s rs)

abbrev pub length : List Report → ℕ
length [] = 0
length (r ∷ rs) = suc (length rs)

abbrev pub key_is : Option Text → Text → Bool
key_is none c = false
key_is (some k) c = text_eq c k

-- how many reports are counted under a key
abbrev pub counted : Counting → Text → List Report → ℕ
counted counting c [] = 0
counted counting c (r ∷ rs) =
    (if key_is (count_key counting r.category) c then 1 else 0) + counted counting c rs

count_of-bump :
    (c d : Text) (counts : Counts)
    → count_of c (bump d counts) ≡ count_of c counts + (if text_eq c d then 1 else 0)
unfolding bump
count_of-bump c d [] = ground arith
count_of-bump c d ((e, n) ∷ counts) =
    ground (arith, count_of-bump c d counts, text_eq_iff c d, text_eq_iff c e, text_eq_iff d e)

count_of-bump_key :
    (c : Text) (o : Option Text) (counts : Counts)
    → count_of c (bump_key o counts) ≡ count_of c counts + (if key_is o c then 1 else 0)
unfolding bump_key
count_of-bump_key c none counts = omega arith
count_of-bump_key c (some k) counts = count_of-bump c k counts

-- What `should_print_error` reads of the state.
pub record SameRules (s t : LintState) : Type 0 where
  pub verbose_level : t.verbose_level ≡ s.verbose_level
  pub filters : t.filters ≡ s.filters
  pub counting : t.counting ≡ s.counting
  pub output_format : t.output_format ≡ s.output_format

should_print_error-SameRules :
    (c : Text) (k l : ℕ) (p : Suppressions) {s t : LintState}
    → SameRules s t
    → should_print_error c k l p t ≡ should_print_error c k l p s
unfolding should_print_error
should_print_error-SameRules c k l p h = rw (h.verbose_level, h.filters) refl

pub SameRules-trans : {s t u : LintState} → SameRules s t → SameRules t u → SameRules s u
SameRules-trans h k = record {
  verbose_level = k.verbose_level ∙ h.verbose_level;
  filters = k.filters ∙ h.filters;
  counting = k.counting ∙ h.counting;
  output_format = k.output_format ∙ h.output_format;
}

pub printed-SameRules :
    (p : Suppressions) {s t : LintState} (rs : List Report)
    → SameRules s t
    → printed p t rs ≡ printed p s rs
printed-SameRules p [] h = refl
printed-SameRules p (r ∷ rs) h =
    ap₂ (λ o qs. keep o r qs) (should_print_error-SameRules r.category r.confidence r.linenum p h)
      (printed-SameRules p rs h)

-- What each format writes to the standard error for a report, and what it keeps for JUnit.
abbrev pub lines : Format → List Report → List Text
lines f [] = []
lines emacs (r ∷ rs) = emacs_message r ∷ lines emacs rs
lines eclipse (r ∷ rs) = eclipse_message r ∷ lines eclipse rs
lines vs7 (r ∷ rs) = vs7_message r ∷ lines vs7 rs
lines junit (r ∷ rs) = []

abbrev pub failures : Format → List Report → List Report
failures junit rs = rs
failures _ rs = []

-- What the counts and the output of `t` say, when `rs` were printed since `s`.
pub record Tallied (s : LintState) (rs : List Report) (t : LintState) : Type 0 where
  pub total : t.error_count ≡ s.error_count + length rs
  pub each :
      (c : Text)
      → count_of c t.errors_by_category ≡ count_of c s.errors_by_category + counted s.counting c rs
  pub stderr : t.stderr ≡ s.stderr ++ lines s.output_format rs
  pub junit_failures : t.junit_failures ≡ s.junit_failures ++ failures s.output_format rs

pub lines-append :
    (f : Format) (rs qs : List Report) → lines f (rs ++ qs) ≡ lines f rs ++ lines f qs
lines-append f [] qs = refl
lines-append emacs (r ∷ rs) qs = ap (◌∷◌ (emacs_message r)) (lines-append emacs rs qs)
lines-append eclipse (r ∷ rs) qs = ap (◌∷◌ (eclipse_message r)) (lines-append eclipse rs qs)
lines-append vs7 (r ∷ rs) qs = ap (◌∷◌ (vs7_message r)) (lines-append vs7 rs qs)
lines-append junit (r ∷ rs) [] = rw append-nil refl
lines-append junit (r ∷ rs) (q ∷ qs) = refl

pub failures-append :
    (f : Format) (rs qs : List Report) → failures f (rs ++ qs) ≡ failures f rs ++ failures f qs
failures-append junit rs qs = refl
failures-append _ rs qs = refl

emit-counts :
    (f : Format) (r : Report) (s : LintState)
    → ((emit f r s).error_count ≡ s.error_count)
      × ((emit f r s).errors_by_category ≡ s.errors_by_category)
unfolding emit print_error
emit-counts f r s = ground arith

emit-output :
    (f : Format) (r : Report) (s : LintState)
    → s.output_format ≡ f
    → ((emit f r s).stderr ≡ s.stderr ++ lines f (r ∷ []))
      × ((emit f r s).junit_failures ≡ s.junit_failures ++ failures f (r ∷ []))
unfolding emit print_error is_junit
emit-output emacs r s h = (refl, sym (append-nil s.junit_failures))
emit-output eclipse r s h = (refl, sym (append-nil s.junit_failures))
emit-output vs7 r s h = rw h (refl, sym (append-nil s.junit_failures))
emit-output junit r s h = (sym (append-nil s.stderr), refl)

pub emit-increment-Tallied :
    (r : Report) (s : LintState)
    → Tallied s (r ∷ []) (emit s.output_format r (increment_error_count r.category s))
unfolding increment_error_count
emit-increment-Tallied r s =
    let t = increment_error_count r.category s in
    let (total, dict) = emit-counts s.output_format r t in
    let (stderr, junit_failures) = emit-output s.output_format r t refl in
    record {
      total = omega (arith, total);
      each = λ c. omega (
        arith,
        ap (λ d. count_of c d) dict,
        count_of-bump_key c (count_key s.counting r.category) s.errors_by_category,
      );
      stderr = stderr;
      junit_failures = junit_failures;
    }

failures-nil : (f : Format) (qs : List Report) → qs ≡ qs ++ failures f []
failures-nil junit qs = sym (append-nil qs)
failures-nil _ qs = sym (append-nil qs)

length-append : (rs qs : List Report) → length (rs ++ qs) ≡ length rs + length qs
length-append [] qs = omega arith
length-append (r ∷ rs) qs = omega (arith, length-append rs qs)

counted-append :
    (k : Counting) (c : Text) (rs qs : List Report)
    → counted k c (rs ++ qs) ≡ counted k c rs + counted k c qs
counted-append k c [] qs = omega arith
counted-append k c (r ∷ rs) qs = omega (arith, counted-append k c rs qs)

pub keep-append :
    (o : Option Bool) (r : Report) (rs : List Report) → keep o r rs ≡ keep o r [] ++ rs
keep-append none r rs = refl
keep-append (some true) r rs = refl
keep-append (some false) r rs = refl

pub Tallied-nil : (s : LintState) → Tallied s [] s
Tallied-nil s = record {
  total = omega arith;
  each = λ c. omega arith;
  stderr = sym (append-nil s.stderr);
  junit_failures = failures-nil s.output_format s.junit_failures;
}

pub Tallied-trans :
    {s t u : LintState} (rs qs : List Report)
    → SameRules s t
    → Tallied s rs t
    → Tallied t qs u
    → Tallied s (rs ++ qs) u
Tallied-trans {s} {t} {u} rs qs r h k = record {
  total = omega (arith, h, k, length-append rs qs);
  each = λ c. omega (
    arith,
    h.each c,
    k.each c,
    ap (λ x. counted x c qs) r.counting,
    counted-append s.counting c rs qs,
  );
  stderr = k.stderr ∙ simp (h.stderr, r.output_format, lines-append, append_assoc);
  junit_failures =
      k.junit_failures ∙ simp (h.junit_failures, r.output_format, failures-append, append_assoc);
}
