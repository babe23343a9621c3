-- ===== src/Cpplint/Include/Grammar.antt =====
-- The order of headers as four parts of a list, and the walk through the sections that accepts it.
use cmu.Base.{ℕ, ◌≤◌, ◌≡◌, ◌⊎◌, inl, inr, refl, ap, ◌∙◌, some, List, [], ◌∷◌, ◌++◌, arith}
use cmu.Cpplint.Include.{HeaderType, c_sys, cpp_sys, likely_my, possible_my, other, next_section}

abbrev pub AllOf : (HeaderType → Type 0) → List HeaderType → Type 0
AllOf P [] = Unit
AllOf P (t ∷ ts) = P t × AllOf P ts

abbrev pub IsMine : HeaderType → Type 0
IsMine likely_my = Unit
IsMine possible_my = Unit
IsMine _ = ⊥

abbrev pub IsC : HeaderType → Type 0
IsC c_sys = Unit
IsC _ = ⊥

abbrev pub IsCpp : HeaderType → Type 0
IsCpp cpp_sys = Unit
IsCpp _ = ⊥

abbrev pub IsRest : HeaderType → Type 0
IsRest c_sys = ⊥
IsRest cpp_sys = ⊥
IsRest _ = Unit

-- The file's own headers, then those of C, then those of C++, then the others, which may include
-- further headers of the file's own.
pub record InOrder (ts : List HeaderType) : Type 0 where
  pub mine : List HeaderType
  pub c : List HeaderType
  pub cpp : List HeaderType
  pub rest : List HeaderType
  pub splits : ts ≡ mine ++ (c ++ (cpp ++ rest))
  pub mine_first : AllOf IsMine mine
  pub then_c : AllOf IsC c
  pub then_cpp : AllOf IsCpp cpp
  pub then_rest : AllOf IsRest rest

-- The step of the sections alone.
pub data Sections : ℕ → List HeaderType → Type 0 where
  stop : {n : ℕ} → Sections n []
  step :
      {n m : ℕ} {t : HeaderType} {ts : List HeaderType}
      → next_section t n ≡ some m
      → Sections m ts
      → Sections n (t ∷ ts)

-- From a late section only what comes in later ones is accepted.
rest_ok : (ts : List HeaderType) (n : ℕ) → AllOf IsRest ts → Sections n ts
unfolding next_section
rest_ok [] n h = stop
rest_ok (likely_my ∷ ts) n h = step refl (rest_ok ts _ h.1)
rest_ok (possible_my ∷ ts) n h = step refl (rest_ok ts _ h.1)
rest_ok (other ∷ ts) n h = step refl (rest_ok ts _ h.1)
rest_ok (c_sys ∷ ts) n h = absurd h.0
rest_ok (cpp_sys ∷ ts) n h = absurd h.0

cpp_ok :
    (ps rs : List HeaderType) (n : ℕ)
    → n ≤ 3
    → AllOf IsCpp ps
    → AllOf IsRest rs
    → Sections n (ps ++ rs)
unfolding next_section
cpp_ok [] rs n l h k = rest_ok rs n k
cpp_ok (cpp_sys ∷ ps) rs n l h k = step (ground arith) (cpp_ok ps rs 3 (omega arith) h.1 k)
cpp_ok (c_sys ∷ ps) rs n l h k = absurd h.0
cpp_ok (_ ∷ ps) rs n l h k = absurd h.0

c_ok :
    (cs ps rs : List HeaderType) (n : ℕ)
    → n ≤ 2
    → AllOf IsC cs
    → AllOf IsCpp ps
    → AllOf IsRest rs
    → Sections n (cs ++ (ps ++ rs))
unfolding next_section
c_ok [] ps rs n l g h k = cpp_ok ps rs n (omega arith) h k
c_ok (c_sys ∷ cs) ps rs n l g h k = step (ground arith) (c_ok cs ps rs 2 (omega arith) g.1 h k)
c_ok (_ ∷ cs) ps rs n l g h k = absurd g.0

mine_ok :
    (ms cs ps rs : List HeaderType) (n : ℕ)
    → n ≤ 1
    → AllOf IsMine ms
    → AllOf IsC cs
    → AllOf IsCpp ps
    → AllOf IsRest rs
    → Sections n (ms ++ (cs ++ (ps ++ rs)))
unfolding next_section
mine_ok [] cs ps rs n l f g h k = c_ok cs ps rs n (omega arith) g h k
mine_ok (likely_my ∷ ms) cs ps rs n l f g h k =
    step (ground arith) (mine_ok ms cs ps rs 1 (omega arith) f.1 g h k)
mine_ok (possible_my ∷ ms) cs ps rs n l f g h k =
    step (ground arith) (mine_ok ms cs ps rs 1 (omega arith) f.1 g h k)
mine_ok (c_sys ∷ ms) cs ps rs n l f g h k = absurd f.0
mine_ok (_ ∷ ms) cs ps rs n l f g h k = absurd f.0

-- What the first header can be, by the section before it.
rest_step : (t : HeaderType) {n m : ℕ} → 4 ≤ n → next_section t n ≡ some m → IsRest t × (4 ≤ m)
unfolding next_section
rest_step c_sys l e = ground arith
rest_step _ l e = ground arith

cpp_step :
    (t : HeaderType) {n m : ℕ}
    → 3 ≤ n
    → next_section t n ≡ some m
    → (IsCpp t × (3 ≤ m)) ⊎ (IsRest t × (4 ≤ m))
unfolding next_section
cpp_step c_sys l e = ground arith
cpp_step _ l e = ground arith

c_step :
    (t : HeaderType) {n m : ℕ}
    → 2 ≤ n
    → next_section t n ≡ some m
    → (IsC t × (2 ≤ m)) ⊎ ((IsCpp t × (3 ≤ m)) ⊎ (IsRest t × (4 ≤ m)))
unfolding next_section
c_step c_sys l e = ground arith
c_step _ l e = ground arith

mine_step :
    (t : HeaderType) (n : ℕ) {m : ℕ}
    → next_section t n ≡ some m
    → IsMine t ⊎ ((IsC t × (2 ≤ m)) ⊎ ((IsCpp t × (3 ≤ m)) ⊎ (IsRest t × (4 ≤ m))))
unfolding next_section
mine_step c_sys n e = ground arith
mine_step _ n e = ground arith

rest_only : (ts : List HeaderType) {n : ℕ} → 4 ≤ n → Sections n ts → AllOf IsRest ts
rest_only [] l h = tt
rest_only (t ∷ ts) l (step e h) =
    let (first, later) = rest_step t l e in (first, rest_only ts later h)

record FromCpp (ts : List HeaderType) : Type 0 where
  cpp : List HeaderType
  rest : List HeaderType
  splits : ts ≡ cpp ++ rest
  then_cpp : AllOf IsCpp cpp
  then_rest : AllOf IsRest rest

cpp_cons :
    (t : HeaderType) (ts : List HeaderType) {m : ℕ}
    → (IsCpp t × (3 ≤ m)) ⊎ (IsRest t × (4 ≤ m))
    → (3 ≤ m → FromCpp ts)
    → Sections m ts
    → FromCpp (t ∷ ts)
cpp_cons t ts (inl (first, later)) rec h =
    let w = rec later in
    record {
      cpp = t ∷ w.cpp;
      rest = w.rest;
      splits = ap (◌∷◌ t) w.splits;
      then_cpp = (first, w.then_cpp);
      then_rest = w.then_rest;
    }
cpp_cons t ts (inr (first, later)) rec h = record {
  cpp = [];
  rest = t ∷ ts;
  splits = refl;
  then_cpp = tt;
  then_rest = (first, rest_only ts later h);
}

cpp_only : (ts : List HeaderType) {n : ℕ} → 3 ≤ n → Sections n ts → FromCpp ts
cpp_only [] l h = record { cpp = []; rest = []; splits = refl; then_cpp = tt; then_rest = tt }
cpp_only (t ∷ ts) l (step e h) = cpp_cons t ts (cpp_step t l e) (λ k. cpp_only ts k h) h

record FromC (ts : List HeaderType) : Type 0 where
  c : List HeaderType
  after : List HeaderType
  splits : ts ≡ c ++ after
  then_c : AllOf IsC c
  then_cpp : FromCpp after

c_none : (ts : List HeaderType) → FromCpp ts → FromC ts
c_none ts w = record { c = []; after = ts; splits = refl; then_c = tt; then_cpp = w }

c_cons :
    (t : HeaderType) (ts : List HeaderType) {m : ℕ}
    → (IsC t × (2 ≤ m)) ⊎ ((IsCpp t × (3 ≤ m)) ⊎ (IsRest t × (4 ≤ m)))
    → (2 ≤ m → FromC ts)
    → Sections m ts
    → FromC (t ∷ ts)
c_cons t ts (inl (first, later)) rec h =
    let w = rec later in
    record {
      c = t ∷ w.c;
      after = w.after;
      splits = ap (◌∷◌ t) w.splits;
      then_c = (first, w.then_c);
      then_cpp = w.then_cpp;
    }
c_cons t ts (inr d) rec h = c_none (t ∷ ts) (cpp_cons t ts d (λ k. cpp_only ts k h) h)

c_only : (ts : List HeaderType) {n : ℕ} → 2 ≤ n → Sections n ts → FromC ts
c_only [] l h =
    c_none [] (record { cpp = []; rest = []; splits = refl; then_cpp = tt; then_rest = tt })
c_only (t ∷ ts) l (step e h) = c_cons t ts (c_step t l e) (λ k. c_only ts k h) h

record FromMine (ts : List HeaderType) : Type 0 where
  mine : List HeaderType
  after : List HeaderType
  splits : ts ≡ mine ++ after
  mine_first : AllOf IsMine mine
  then_c : FromC after

mine_none : (ts : List HeaderType) → FromC ts → FromMine ts
mine_none ts w = record { mine = []; after = ts; splits = refl; mine_first = tt; then_c = w }

mine_cons :
    (t : HeaderType) (ts : List HeaderType) {m : ℕ}
    → IsMine t ⊎ ((IsC t × (2 ≤ m)) ⊎ ((IsCpp t × (3 ≤ m)) ⊎ (IsRest t × (4 ≤ m))))
    → FromMine ts
    → Sections m ts
    → FromMine (t ∷ ts)
mine_cons t ts (inl first) w h = record {
  mine = t ∷ w.mine;
  after = w.after;
  splits = ap (◌∷◌ t) w.splits;
  mine_first = (first, w.mine_first);
  then_c = w.then_c;
}
mine_cons t ts (inr d) w h = mine_none (t ∷ ts) (c_cons t ts d (λ k. c_only ts k h) h)

mine_only : (ts : List HeaderType) {n : ℕ} → Sections n ts → FromMine ts
mine_only [] h =
    mine_none []
      (c_none [] (record { cpp = []; rest = []; splits = refl; then_cpp = tt; then_rest = tt }))
mine_only (t ∷ ts) (step {n = n} e h) = mine_cons t ts (mine_step t n e) (mine_only ts h) h

pub Sections→InOrder : (ts : List HeaderType) → Sections 0 ts → InOrder ts
Sections→InOrder ts h =
    let w = mine_only ts h in
    let v = w.then_c in
    let u = v.then_cpp in
    record {
      mine = w.mine;
      c = v.c;
      cpp = u.cpp;
      rest = u.rest;
      splits = w.splits ∙ ap (λ x. w.mine ++ x) (v.splits ∙ ap (λ x. v.c ++ x) u.splits);
      mine_first = w.mine_first;
      then_c = v.then_c;
      then_cpp = u.then_cpp;
      then_rest = u.then_rest;
    }

pub InOrder→Sections : (ts : List HeaderType) → InOrder ts → Sections 0 ts
InOrder→Sections ts h =
    rw h.splits
      (mine_ok h.mine h.c h.cpp h.rest 0 (omega arith) h.mine_first h.then_c h.then_cpp h.then_rest)
