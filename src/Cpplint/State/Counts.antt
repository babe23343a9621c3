-- ===== src/Cpplint/State/Counts.antt =====
-- The statistics and the output of a run against the list of the reports that were printed.
use mathlib.Core.Path.{subst}
use cmu.Base.{◌+◌, ◌≡◌, refl, sym, Bool, true, false, some, List, [], ◌∷◌, ◌++◌, arith, Text}
use cmu.Cpplint.Report.{Report}
use cmu.Cpplint.Suppress.{Suppressions}
use cmu.Cpplint.State.{
  LintState, Format, increment_error_count, should_print_error, emit, error, error_all,
}
use cmu.Cpplint.State.Filters.{AllSigned, should_print_error_lem}
use cmu.Cpplint.State.Tally.{
  count_of, keep, printed, length, counted, SameRules, SameRules-trans, printed-SameRules, lines,
  failures, Tallied, emit-increment-Tallied, keep-append, Tallied-nil, Tallied-trans,
}

emit-SameRules :
    (f : Format) (r : Report) (s t : LintState) → SameRules s t → SameRules s (emit f r t)
unfolding emit
emit-SameRules f r s t h = ground arith

increment-SameRules : (c : Text) (s : LintState) → SameRules s (increment_error_count c s)
unfolding increment_error_count
increment-SameRules c s = ground arith

-- One report: it is printed and tallied, or nothing changes.
record Step (p : Suppressions) (r : Report) (s t : LintState) : Type 0 where
  runs : error p r s ≡ some t
  rules : SameRules s t
  tallied : Tallied s (printed p s (r ∷ [])) t

verdict-Step :
    (p : Suppressions) (r : Report) (s : LintState) (b : Bool)
    → should_print_error r.category r.confidence r.linenum p s ≡ some b
    → (t : LintState) × Step p r s t
unfolding error
verdict-Step p r s true e =
    let t = increment_error_count r.category s in
    (
      emit s.output_format r t,
      record {
        runs = rw (e, error) (unfold increment_error_count in refl);
        rules = emit-SameRules s.output_format r s t (increment-SameRules r.category s);
        tallied = rw e (emit-increment-Tallied r s);
      },
    )
verdict-Step p r s false e = (
  s,
  record {
    runs = rw (e, error) refl;
    rules = record { verbose_level = refl; filters = refl; counting = refl; output_format = refl };
    tallied = rw e (Tallied-nil s);
  },
)

error-Step :
    (p : Suppressions) (r : Report) (s : LintState)
    → AllSigned s.filters
    → (t : LintState) × Step p r s t
error-Step p r s h =
    verdict-Step p r s _ (should_print_error_lem r.category r.confidence r.linenum p s h)

record Runs (p : Suppressions) (rs : List Report) (s t : LintState) : Type 0 where
  runs : error_all p rs s ≡ some t
  rules : SameRules s t
  tallied : Tallied s (printed p s rs) t

error_all-cons :
    (p : Suppressions) (r : Report) (rs : List Report) (s : LintState) {t u : LintState}
    → Step p r s t
    → Runs p rs t u
    → Runs p (r ∷ rs) s u
unfolding error_all
error_all-cons p r rs s h k = record {
  runs = rw (h.runs, error_all) k.runs;
  rules = SameRules-trans h.rules k.rules;
  tallied =
      let o = should_print_error r.category r.confidence r.linenum p s in
      rw (keep-append o r (printed p s rs)) (
        Tallied-trans (keep o r []) (printed p s rs) h.rules h.tallied
          (rw (printed-SameRules p rs h.rules) at k.tallied));
}

error_all-Runs :
    (p : Suppressions) (rs : List Report) (s : LintState)
    → AllSigned s.filters
    → (t : LintState) × Runs p rs s t
error_all-Runs p [] s h = (
  s,
  record {
    runs = unfold error_all in refl;
    rules = record { verbose_level = refl; filters = refl; counting = refl; output_format = refl };
    tallied = Tallied-nil s;
  },
)
error_all-Runs p (r ∷ rs) s h =
    let (t, st) = error-Step p r s h in
    let (u, ru) = error_all-Runs p rs t (subst AllSigned (sym st.rules.filters) h) in
    (u, error_all-cons p r rs s st ru)

-- A run of reports, with filters that all have a sign, ends in a state: `error_count` has grown by
-- the number of the reports printed, and the count of each key by the number of those under it.
pub error_all-counts :
    (p : Suppressions) (rs : List Report) (s : LintState)
    → AllSigned s.filters
    → (t : LintState) × (error_all p rs s ≡ some t)
      × (t.error_count ≡ s.error_count + length (printed p s rs))
      × ((c : Text)
          → count_of c t.errors_by_category
            ≡ count_of c s.errors_by_category + counted s.counting c (printed p s rs))
error_all-counts p rs s h =
    let (t, r) = error_all-Runs p rs s h in (t, r.runs, r.tallied.total, r.tallied.each)

-- A run of reports, with filters that all have a sign, ends in a state: it has appended to the
-- standard error one line for each report printed, in order and in the output format set, or, for
-- JUnit, kept the reports themselves and written nothing.
pub error_all-output :
    (p : Suppressions) (rs : List Report) (s : LintState)
    → AllSigned s.filters
    → (t : LintState) × (error_all p rs s ≡ some t)
      × (t.stderr ≡ s.stderr ++ lines s.output_format (printed p s rs))
      × (t.junit_failures ≡ s.junit_failures ++ failures s.output_format (printed p s rs))
error_all-output p rs s h =
    let (t, r) = error_all-Runs p rs s h in (t, r.runs, r.tallied.stderr, r.tallied.junit_failures)
