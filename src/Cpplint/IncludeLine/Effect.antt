-- ===== src/Cpplint/IncludeLine/Effect.antt =====
-- What `CheckIncludeLine` of build_support/cpplint.py does to the headers that are known.
use cmu.Base.{
  ℕ, ◌≡◌, refl, sym, ap, ◌∙◌, ◌⊎◌, inl, inr, Bool, true, Bool-cases, ◌||◌, not, Option, none, some,
  Option-cases, List, ◌++◌, get_elem?, Text, text_eq, text_eq_iff, if◌then◌else◌,
}
use cmu.PyText.{text_lt}
use cmu.Regex.{matches}
use cmu.Cpplint.Report.{Report}
use cmu.Cpplint.Cleansed.{CleansedLines}
use cmu.Cpplint.Include.{
  HeaderType, IncludeState, initial, find_header, append_include, line_before, include_line,
  next_section, is_in_alphabetical_order, check_next_include_order, set_last_header,
  canonicalize_alphabetical_order,
}
use cmu.Cpplint.Include.Find.{IsOpen, or_else, find_header-append_include, append_include-IsOpen}
use cmu.Cpplint.Headers.{
  Extensions, get_header_extensions, get_non_header_extensions, classify_include,
}
use cmu.Cpplint.IncludeLine.{
  foreign_source, third_src_header, third_party_headers_pattern, finish_include, keep_include,
  on_include, included, check_line_include, check_include_line, before,
}

-- `h` keeps the line it had, if any, or it is what the line includes, was not known and is known from
-- that line now
pub Keeps : ℕ → Option (Text × Bool) → IncludeState → IncludeState → Text → Type 0
Keeps linenum include s t h =
    (find_header h t ≡ find_header h s)
    ⊎ ((find_header h s ≡ none)
        × (find_header h t ≡ some linenum)
        × (is_system : Bool) × (include ≡ some (h, is_system)))

-- only the list of the includes matters to `FindHeader`
find_header-list :
    (h : Text) (s t : IncludeState)
    → t.include_list ≡ s.include_list
    → find_header h t ≡ find_header h s
unfolding find_header
find_header-list h s t e = ap (λ l. find_header h (record initial { include_list = l })) e

check_next_include_order-list :
    (ty : HeaderType) (s : IncludeState)
    → (check_next_include_order ty s).0.include_list ≡ s.include_list
unfolding check_next_include_order
check_next_include_order-list ty s = elim (Option-cases (next_section ty s.section)) [
  | inl e ↦ rw (e, check_next_include_order) refl
  | inr (n, e) ↦ rw (e, check_next_include_order) refl
]

is_in_alphabetical_order-some :
    (elided : List Text) (linenum : ℕ) (path prev : Text) (s : IncludeState)
    → line_before linenum elided ≡ some prev
    → (b : Bool) × (is_in_alphabetical_order elided linenum path s ≡ some b)
unfolding is_in_alphabetical_order
is_in_alphabetical_order-some elided linenum path prev s e =
    elim (Bool-cases (text_lt path s.last_header)) [
      | inl l ↦ (
        not (matches include_line prev),
        rw (l, is_in_alphabetical_order) (rw (e, is_in_alphabetical_order) refl),
      )
      | inr l ↦ (true, rw (l, is_in_alphabetical_order) refl)
    ]

or_else-none : (o : Option ℕ) → or_else o none ≡ o
or_else-none none = refl
or_else-none (some n) = refl

append_include-Keeps :
    (h include : Text) (is_system : Bool) (linenum : ℕ) (s : IncludeState)
    → IsOpen s
    → find_header include s ≡ none
    → Keeps linenum (some (include, is_system)) s (append_include include linenum s) h
unfolding Keeps
append_include-Keeps h include is_system linenum s o f = elim (Bool-cases (text_eq include h)) [
  | inl e ↦
      let same : include ≡ h = (text_eq_iff include h).0 e in
      let unknown : find_header h s ≡ none = ap (λ x. find_header x s) (sym same) ∙ f in
      inr (
        unknown,
        find_header-append_include h include linenum s o
            ∙ ap (λ x. or_else x (if text_eq include h then some linenum else none)) unknown
            ∙ ap (λ x. if x then some linenum else none) e,
        is_system,
        ap (λ x. some (x, is_system)) same,
      )
  | inr e ↦ inl (
      find_header-append_include h include linenum s o
      ∙ ap (λ x. or_else (find_header h s) (if x then some linenum else none)) e
      ∙ or_else-none (find_header h s))
]

Keeps-list :
    (linenum : ℕ) (include : Option (Text × Bool)) (s t u : IncludeState) (h : Text)
    → u.include_list ≡ t.include_list
    → Keeps linenum include s t h
    → Keeps linenum include s u h
unfolding Keeps
Keeps-list linenum include s t u h e (inl k) = inl (find_header-list h t u e ∙ k)
Keeps-list linenum include s t u h e (inr (f, k, b, r)) =
    inr (f, find_header-list h t u e ∙ k, b, r)

-- the effect of a check on the headers that are known
pub Effect : ℕ → Option (Text × Bool) → IncludeState → Option (IncludeState × List Report) → Type 0
Effect linenum include s o =
    (t : IncludeState) × (reports : List Report) × (o ≡ some (t, reports))
    × IsOpen t
    × ((h : Text) → Keeps linenum include s t h)

before-Effect :
    (linenum : ℕ) (include : Option (Text × Bool)) (s : IncludeState) (reports : List Report)
    (o : Option (IncludeState × List Report))
    → Effect linenum include s o
    → Effect linenum include s (before reports o)
unfolding Effect
before-Effect linenum include s reports o (t, later, e, k, h) =
    (t, reports ++ later, ap (before reports) e, k, h)

module _ (repository_name : Text → Text) (e : Extensions) (filename : Text) where
  -- A header that is kept is appended to the list, and nothing else is done to the list.
  keep_include-list :
      (elided : List Text) (linenum : ℕ) (include prev : Text) (is_system : Bool) (s : IncludeState)
      → line_before linenum elided ≡ some prev
      → (t : IncludeState) × (reports : List Report) × (keep_include repository_name e filename
            elided linenum include is_system s
          ≡ some (t, reports))
        × (t.include_list ≡ (append_include include linenum s).include_list)
  unfolding keep_include finish_include set_last_header
  keep_include-list elided linenum include prev is_system s there =
      let ty = classify_include e (repository_name filename) include is_system in
      let next : IncludeState × Text =
        check_next_include_order ty (append_include include linenum s) in
      let (b, ordered) =
        is_in_alphabetical_order-some elided linenum (canonicalize_alphabetical_order include) prev
          next.0 there in
      let done : IncludeState × List Report =
        finish_include repository_name e filename linenum include next.1 next.0 b in
      (
        done.0,
        done.1,
        rw (ordered, keep_include) refl,
        check_next_include_order-list ty (append_include include linenum s),
      )

  on_include-Effect :
      (elided : List Text) (linenum : ℕ) (include prev : Text) (is_system : Bool) (s : IncludeState)
      → line_before linenum elided ≡ some prev
      → IsOpen s
      → Effect linenum
          (some (include, is_system))
          s
          (on_include repository_name e filename elided linenum include is_system s)
  unfolding on_include Effect Keeps
  on_include-Effect elided linenum include prev is_system s there o =
      elim (Option-cases (find_header include s)) [
        | inr (n, f) ↦ rw (f, on_include) (s, _, refl, o, λ h. inl refl)
        | inl f ↦
            elim (Option-cases
              (foreign_source repository_name e filename include (get_non_header_extensions e))) [
                | inr (ext, g) ↦
                    rw (f, on_include) (rw (g, on_include) (s, _, refl, o, λ h. inl refl))
                | inl g ↦
                    elim (Bool-cases (
                      third_src_header repository_name e filename include (get_header_extensions e)
                      || not (matches third_party_headers_pattern include))) [
                        | inr k ↦
                            rw (f, on_include)
                              (rw (g, on_include)
                                (rw (k, on_include) (s, _, refl, o, λ h. inl refl)))
                        | inl k ↦
                            let (t, reports, kept, same) =
                              keep_include-list elided linenum include prev is_system s there in
                            rw (f, on_include)
                              (rw (g, on_include)
                                (rw (k, on_include)
                                  (
                                    t,
                                    reports,
                                    kept,
                                    λ x. append_include-IsOpen include linenum s o (sym same ∙ x),
                                    λ h.
                                        Keeps-list linenum (some (include, is_system)) s
                                          (append_include include linenum s) t h same
                                          (append_include-Keeps h include is_system linenum s o f),
                                  )))
                      ]
              ]
      ]

  -- `CheckIncludeLine` of a line that is there never fails and leaves a list of includes open. Each header
  -- that was known to `FindHeader` keeps its line, and none becomes known but the one that the line
  -- includes, from that line, if it was not known before.
  pub check_include_line-Effect :
      (clean_lines : CleansedLines) (linenum : ℕ) (line prev : Text) (s : IncludeState)
      → get_elem? clean_lines.lines linenum ≡ some line
      → line_before linenum clean_lines.elided ≡ some prev
      → IsOpen s
      → Effect linenum
          (included line)
          s
          (check_include_line repository_name e filename clean_lines linenum s)
  unfolding check_include_line check_line_include Effect Keeps
  check_include_line-Effect clean_lines linenum line prev s there above o =
      elim (Option-cases (included line)) [
        | inl i ↦
            rw (there, check_include_line)
              (rw (i, check_line_include) (s, _, refl, o, λ h. inl refl))
        | inr ((include, is_system), i) ↦
            rw (there, check_include_line)
              (rw (i, check_line_include)
                (before-Effect linenum (some (include, is_system)) s _ _
                  (on_include-Effect clean_lines.elided linenum include prev is_system s above o)))
      ]
