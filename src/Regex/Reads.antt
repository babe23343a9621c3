-- ===== src/Regex/Reads.antt =====
-- What a pattern reads, as a relation, and the matcher against it.
use mathlib.Core.Path.{subst}
use cmu.Base.{
  ℕ, zero, suc, ◌+◌, ◌-◌, ◌≤◌, ◌≡◌, refl, ap, ◌∙◌, inl, inr, Bool, true, false, ◌&&◌, none, some,
  List, [], ◌∷◌, arith, ◌==◌, leb, if◌then◌else◌, Bool-cases, Option-cases, length, take, Text,
}
use cmu.Regex.{
  Re, eps, one, cat, alt, star, lazy, group, bol, eol, word_edge, line_bol, line_eol, ahead,
  not_ahead, Cursor, Cont, eat, is_empty, at_end, at_line_end, differ, next_word, moved, star_loop,
  lazy_loop, close_group, run, match, begin, lookup_group, group?, group_or,
}

-- The pattern reads from the first cursor to the second.
pub data Reads : Re → Cursor → Cursor → Type 0 where
  nothing : {c : Cursor} → Reads eps c c
  char :
      {p : ℕ → Bool} {c d : Cursor} (x : ℕ)
      → c.rest ≡ x ∷ d.rest
      → d.groups ≡ c.groups
      → p x ≡ true
      → Reads (one p) c d
  both : {a b : Re} {c d e : Cursor} → Reads a c d → Reads b d e → Reads (cat a b) c e
  left : {a b : Re} {c d : Cursor} → Reads a c d → Reads (alt a b) c d
  right : {a b : Re} {c d : Cursor} → Reads b c d → Reads (alt a b) c d
  no_more : {r : Re} {c : Cursor} → Reads (star r) c c
  more : {r : Re} {c d e : Cursor} → Reads r c d → Reads (star r) d e → Reads (star r) c e
  no_more_lazy : {r : Re} {c : Cursor} → Reads (lazy r) c c
  more_lazy : {r : Re} {c d e : Cursor} → Reads r c d → Reads (lazy r) d e → Reads (lazy r) c e
  grouped :
      {g : ℕ} {r : Re} {c d e : Cursor}
      → Reads r c d
      → e.rest ≡ d.rest
      → e.groups ≡ (g, take (length c.rest - length d.rest) c.rest) ∷ d.groups
      → Reads (group g r) c e
  at_bol : {c : Cursor} → is_empty c.before ≡ true → Reads bol c c
  at_eol : {c : Cursor} → at_end c.rest ≡ true → Reads eol c c
  at_line_bol : {c : Cursor} → Reads line_bol c c
  at_line_eol : {c : Cursor} → Reads line_eol c c
  at_edge : {c : Cursor} → Reads word_edge c c
  is_ahead :
      {r : Re} {c d e : Cursor}
      → Reads r c d
      → e.rest ≡ c.rest
      → e.groups ≡ d.groups
      → Reads (ahead r) c e
  is_not_ahead : {r : Re} {c : Cursor} → Reads (not_ahead r) c c

-- A result of the matcher was handed on from a cursor that the pattern reads to.
abbrev Through : Re → Cursor → Cont → Cursor → Type 0
Through r c k d = (e : Cursor) × Reads r c e × (k e ≡ some d)

abbrev Sound : Re → Type 0
Sound r = (c : Cursor) (k : Cont) (d : Cursor) → run r c k ≡ some d → Through r c k d

star_loop-Reads :
    (r : Re) (sound : Sound r) (n : ℕ) (c : Cursor) (k : Cont) (d : Cursor)
    → star_loop (run r) n c k ≡ some d
    → Through (star r) c k d
unfolding star_loop
star_loop-Reads r sound zero c k d h = (c, no_more, h)
star_loop-Reads r sound (suc n) c k d h =
    let next = λ (e : Cursor). if moved c e then star_loop (run r) n e k else none in
    elim (Option-cases (run r c next)) [
      | inl o ↦ (c, no_more, rw (o, star_loop) at h)
      | inr (x, o) ↦
          let (e, reads, f) = sound c next x o in
          let g : x ≡ d = ground (arith, rw (o, star_loop) at h) in
          elim (Bool-cases (moved c e)) [
            | inl m ↦
                let (e', later, f') = star_loop-Reads r sound n e k d (ground arith) in
                (e', more reads later, f')
            | inr m ↦ absurd (ground arith)
          ]
    ]

lazy_loop-Reads :
    (r : Re) (sound : Sound r) (n : ℕ) (c : Cursor) (k : Cont) (d : Cursor)
    → lazy_loop (run r) n c k ≡ some d
    → Through (lazy r) c k d
unfolding lazy_loop
lazy_loop-Reads r sound zero c k d h = (c, no_more_lazy, h)
lazy_loop-Reads r sound (suc n) c k d h = elim (Option-cases (k c)) [
  | inl o ↦
      let (e, reads, f) = sound c (λ e. lazy_loop (run r) n e k) d (rw (o, lazy_loop) at h) in
      let (e', later, f') = lazy_loop-Reads r sound n e k d f in (e', more_lazy reads later, f')
  | inr (x, o) ↦ (c, no_more_lazy, o ∙ (rw (o, lazy_loop) at h))
]

eat-Reads :
    (p : ℕ → Bool) (c : Cursor) (k : Cont) (d : Cursor) (before rest : Text)
    → c.before ≡ before
    → c.rest ≡ rest
    → eat p before rest c.groups k ≡ some d
    → Through (one p) c k d
eat-Reads p c k d before [] e f h = cc
eat-Reads p c k d before (x ∷ s) e f h = elim (Bool-cases (p x)) [
  | inl t ↦ (_, char x f refl t, rw (t, if◌then◌else◌) at h)
  | inr t ↦ cc (rw (t, if◌then◌else◌) at h)
]

-- Every match that the matcher finds is one that the pattern allows.
pub run-Reads : (r : Re) → Sound r
unfolding run
run-Reads eps c k d h = (c, nothing, h)
run-Reads (one p) c k d h = eat-Reads p c k d c.before c.rest refl refl h
run-Reads (cat a b) c k d h =
    let (e, x, f) = run-Reads a c (λ e. run b e k) d h in
    let (e', y, f') = run-Reads b e k d f in (e', both x y, f')
run-Reads (alt a b) c k d h = elim (Option-cases (run a c k)) [
  | inl o ↦ let (e, x, f) = run-Reads b c k d (rw (o, run) at h) in (e, right x, f)
  | inr (x, o) ↦ let (e, y, f) = run-Reads a c k x o in (e, left y, f ∙ (rw (o, run) at h))
]
run-Reads (star r) c k d h = star_loop-Reads r (run-Reads r) (length c.rest) c k d h
run-Reads (lazy r) c k d h = lazy_loop-Reads r (run-Reads r) (length c.rest) c k d h
run-Reads (group g r) c k d h =
    let (e, x, f) = run-Reads r c (λ e. k (close_group g c e)) d h in
    (close_group g c e, grouped x refl refl, f)
run-Reads bol c k d h = elim (Bool-cases (is_empty c.before)) [
  | inl t ↦ (c, at_bol t, rw (t, if◌then◌else◌) at h)
  | inr t ↦ cc (rw (t, if◌then◌else◌) at h)
]
run-Reads eol c k d h = elim (Bool-cases (at_end c.rest)) [
  | inl t ↦ (c, at_eol t, rw (t, if◌then◌else◌) at h)
  | inr t ↦ cc (rw (t, if◌then◌else◌) at h)
]
run-Reads line_bol c k d h = elim (Bool-cases (at_line_end c.before)) [
  | inl t ↦ (c, at_line_bol, rw (t, if◌then◌else◌) at h)
  | inr t ↦ cc (rw (t, if◌then◌else◌) at h)
]
run-Reads line_eol c k d h = elim (Bool-cases (at_line_end c.rest)) [
  | inl t ↦ (c, at_line_eol, rw (t, if◌then◌else◌) at h)
  | inr t ↦ cc (rw (t, if◌then◌else◌) at h)
]
run-Reads word_edge c k d h = elim (Bool-cases (differ (next_word c.before) (next_word c.rest))) [
  | inl t ↦ (c, at_edge, rw (t, if◌then◌else◌) at h)
  | inr t ↦ cc (rw (t, if◌then◌else◌) at h)
]
run-Reads (ahead r) c k d h = elim (Option-cases (run r c (λ e. some e))) [
  | inl o ↦ cc (rw (o, run) at h)
  | inr (x, o) ↦
      let (e, y, f) = run-Reads r c (λ e. some e) x o in
      (record c { groups = x.groups }, is_ahead y refl (ground arith), rw (o, run) at h)
]
run-Reads (not_ahead r) c k d h = elim (Option-cases (run r c (λ e. some e))) [
  | inl o ↦ (c, is_not_ahead, rw (o, run) at h)
  | inr (x, o) ↦ cc (rw (o, run) at h)
]

pub match-Reads : (r : Re) (s : Text) (d : Cursor) → match r s ≡ some d → Reads r (begin s) d
unfolding match
match-Reads r s d h =
    let (e, x, f) = run-Reads r (begin s) (λ c. some c) d h in
    let g : e ≡ d = ground arith in subst (Reads r (begin s)) g x

-- A pattern reads on, never back.
pub Reads-rest : {r : Re} {c d : Cursor} → Reads r c d → length d.rest ≤ length c.rest
Reads-rest nothing = omega arith
Reads-rest (char x e f h) = omega (arith, ap length e)
Reads-rest (both x y) = omega (arith, Reads-rest x, Reads-rest y)
Reads-rest (left x) = Reads-rest x
Reads-rest (right x) = Reads-rest x
Reads-rest no_more = omega arith
Reads-rest (more x y) = omega (arith, Reads-rest x, Reads-rest y)
Reads-rest no_more_lazy = omega arith
Reads-rest (more_lazy x y) = omega (arith, Reads-rest x, Reads-rest y)
Reads-rest (grouped x e f) = omega (arith, Reads-rest x, ap length e)
Reads-rest (at_bol h) = omega arith
Reads-rest (at_eol h) = omega arith
Reads-rest at_line_bol = omega arith
Reads-rest at_line_eol = omega arith
Reads-rest at_edge = omega arith
Reads-rest (is_ahead x e f) = omega (arith, ap length e)
Reads-rest is_not_ahead = omega arith

-- A pattern that has no group.
abbrev pub no_groups : Re → Bool
no_groups eps = true
no_groups (one p) = true
no_groups (cat a b) = no_groups a && no_groups b
no_groups (alt a b) = no_groups a && no_groups b
no_groups (star r) = no_groups r
no_groups (lazy r) = no_groups r
no_groups (group g r) = false
no_groups bol = true
no_groups eol = true
no_groups word_edge = true
no_groups line_bol = true
no_groups line_eol = true
no_groups (ahead r) = no_groups r
no_groups (not_ahead r) = true

pub Reads-no_groups :
    (r : Re) {c d : Cursor} → no_groups r ≡ true → Reads r c d → d.groups ≡ c.groups
Reads-no_groups eps h nothing = refl
Reads-no_groups (one p) h (char x e f k) = f
Reads-no_groups (cat a b) h (both x y) =
    Reads-no_groups b (ground arith) y ∙ Reads-no_groups a (ground arith) x
Reads-no_groups (alt a b) h (left x) = Reads-no_groups a (ground arith) x
Reads-no_groups (alt a b) h (right x) = Reads-no_groups b (ground arith) x
Reads-no_groups (star r) h no_more = refl
Reads-no_groups (star r) h (more x y) = Reads-no_groups (star r) h y ∙ Reads-no_groups r h x
Reads-no_groups (lazy r) h no_more_lazy = refl
Reads-no_groups (lazy r) h (more_lazy x y) = Reads-no_groups (lazy r) h y ∙ Reads-no_groups r h x
Reads-no_groups (group g r) h (grouped x e f) = cc
Reads-no_groups bol h (at_bol k) = refl
Reads-no_groups eol h (at_eol k) = refl
Reads-no_groups word_edge h at_edge = refl
Reads-no_groups line_bol h at_line_bol = refl
Reads-no_groups line_eol h at_line_eol = refl
Reads-no_groups (ahead r) h (is_ahead x e f) = f ∙ Reads-no_groups r h x
Reads-no_groups (not_ahead r) h is_not_ahead = refl

-- `m.group(g)` from a list of groups that is known
abbrev pub group_text : ℕ → List (ℕ × Text) → Text
group_text g [] = []
group_text g ((h, t) ∷ gs) = if h == g then t else group_text g gs

lookup_group-group_text :
    (g : ℕ) (gs : List (ℕ × Text))
    → (elim (lookup_group g gs) [ some t ↦ t | none ↦ [] ]) ≡ group_text g gs
unfolding lookup_group
lookup_group-group_text g [] = refl
lookup_group-group_text g ((h, t) ∷ gs) = ground (arith, lookup_group-group_text g gs)

pub group_or-group_text :
    (g : ℕ) (m : Cursor) (gs : List (ℕ × Text)) → m.groups ≡ gs → group_or g m ≡ group_text g gs
unfolding group_or group?
group_or-group_text g m gs e = lookup_group-group_text g m.groups ∙ ap (group_text g) e

pub groups_then : {xs ys zs : List (ℕ × Text)} {x : ℕ × Text} → xs ≡ x ∷ ys → ys ≡ zs → xs ≡ x ∷ zs
groups_then {x = x} e f = e ∙ ap (◌∷◌ x) f

-- The fewest characters that a pattern reads.
abbrev pub fewest : Re → ℕ
fewest eps = 0
fewest (one p) = 1
fewest (cat a b) = fewest a + fewest b
fewest (alt a b) = if leb (fewest a) (fewest b) then fewest a else fewest b
fewest (star r) = 0
fewest (lazy r) = 0
fewest (group g r) = fewest r
fewest bol = 0
fewest eol = 0
fewest word_edge = 0
fewest line_bol = 0
fewest line_eol = 0
fewest (ahead r) = 0
fewest (not_ahead r) = 0

pub Reads-fewest : (r : Re) {c d : Cursor} → Reads r c d → fewest r + length d.rest ≤ length c.rest
Reads-fewest eps nothing = omega arith
Reads-fewest (one p) (char x e f h) = omega (arith, ap length e)
Reads-fewest (cat a b) (both x y) = omega (arith, Reads-fewest a x, Reads-fewest b y)
Reads-fewest (alt a b) (left x) = ground (arith, Reads-fewest a x)
Reads-fewest (alt a b) (right x) = ground (arith, Reads-fewest b x)
Reads-fewest (star r) x = omega (arith, Reads-rest x)
Reads-fewest (lazy r) x = omega (arith, Reads-rest x)
Reads-fewest (group g r) (grouped x e f) = omega (arith, Reads-fewest r x, ap length e)
Reads-fewest bol x = omega (arith, Reads-rest x)
Reads-fewest eol x = omega (arith, Reads-rest x)
Reads-fewest word_edge x = omega (arith, Reads-rest x)
Reads-fewest line_bol x = omega (arith, Reads-rest x)
Reads-fewest line_eol x = omega (arith, Reads-rest x)
Reads-fewest (ahead r) x = omega (arith, Reads-rest x)
Reads-fewest (not_ahead r) x = omega (arith, Reads-rest x)
