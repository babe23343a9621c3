-- ===== src/Cpplint/Comments/Multi.antt =====
-- The removal of comments over several lines told by one walk over the lines, with no indices.
use cmu.Base.{
  ℕ, zero, suc, ◌+◌, ◌≤◌, ◌≡◌, refl, ap, ◌∙◌, ◌⊎◌, inl, inr, Bool, true, false, not, ◌&&◌, ◌||◌,
  Option, none, some, List, [], ◌∷◌, ◌++◌, append_assoc, append-nil, map, arith, if◌then◌else◌,
  Bool-cases, length, length-append, get_elem?, set, Text, text,
}
use cmu.Cpplint.Comments.{opens_comment, closes_comment, find_line, clear_from}

abbrev pub any {ℓ} : {A : Type ℓ} → (A → Bool) → List A → Bool
any test [] = false
any test (x ∷ xs) = test x || any test xs

abbrev pub cleared : Text
cleared = text "/**/"

-- Whether a line is cleared: it is inside a comment, or it opens one that some line closes, be it
-- the same line.
abbrev pub clears : Bool → Text → List Text → Bool
clears inside l ls = inside || opens_comment l && any closes_comment (l ∷ ls)

-- The lines that are left; the flag is whether the walk is inside a comment.
abbrev pub blank : Bool → List Text → List Text
blank inside [] = []
blank inside (l ∷ ls) =
    (if clears inside l ls then cleared else l)
    ∷ blank (clears inside l ls && not (closes_comment l)) ls

-- The index of the first line that opens a comment which no line closes.
abbrev pub unclosed : Bool → ℕ → List Text → Option ℕ
unclosed inside n [] = none
unclosed inside n (l ∷ ls) =
    if not inside && opens_comment l && not (any closes_comment (l ∷ ls))
    then some n
    else unclosed (clears inside l ls && not (closes_comment l)) (n + 1) ls

-- A list cut at the first element that passes a test.
pub record Cut {ℓ} {A : Type ℓ} (test : A → Bool) (xs : List A) : Type ℓ where
  pub before : List A
  pub at : A
  pub after : List A
  pub splits : xs ≡ before ++ at ∷ after
  pub none_before : any test before ≡ false
  pub passes : test at ≡ true

pub Cut-cases {ℓ} :
    {A : Type ℓ} (test : A → Bool) (xs : List A) → (any test xs ≡ false) ⊎ Cut test xs
Cut-cases test [] = inl refl
Cut-cases test (x ∷ xs) = elim (Bool-cases (test x)) [
  | inl e ↦
      inr
        (record { before = []; at = x; after = xs; splits = refl; none_before = refl; passes = e })
  | inr e ↦ elim (Cut-cases test xs) [
    | inl h ↦ inl (rw e h)
    | inr c ↦ inr (record {
      before = x ∷ c.before;
      at = c.at;
      after = c.after;
      splits = ap (◌∷◌ x) c.splits;
      none_before = rw e c.none_before;
      passes = c.passes;
    })
  ]
]

get_elem?-length :
    (pre : List Text) (l : Text) (suf : List Text)
    → get_elem? (pre ++ l ∷ suf) (length pre) ≡ some l
get_elem?-length [] l suf = refl
get_elem?-length (x ∷ pre) l suf = get_elem?-length pre l suf

get_elem?-end : (pre : List Text) → get_elem? pre (length pre) ≡ none
get_elem?-end [] = refl
get_elem?-end (x ∷ pre) = get_elem?-end pre

length-snoc : (pre : List Text) (l : Text) → length (pre ++ l ∷ []) ≡ length pre + 1
length-snoc pre l = length-append pre (l ∷ [])

set-length :
    (pre : List Text) (l v : Text) (suf : List Text)
    → set (pre ++ l ∷ suf) (length pre) v ≡ pre ++ v ∷ suf
set-length [] l v suf = refl
set-length (x ∷ pre) l v suf = ap (◌∷◌ x) (set-length pre l v suf)

find_line-step :
    (test : Text → Bool) (fuel : ℕ) (lines : List Text) (i : ℕ) {l : Text}
    → get_elem? lines i ≡ some l
    → find_line test (suc fuel) lines i ≡ (if test l then i else find_line test fuel lines (i + 1))
unfolding find_line
find_line-step test fuel lines i e = rw (e, find_line) refl

find_line-end :
    (test : Text → Bool) (fuel : ℕ) (lines : List Text) (i : ℕ)
    → get_elem? lines i ≡ none
    → find_line test fuel lines i ≡ length lines
unfolding find_line
find_line-end test zero lines i e = refl
find_line-end test (suc fuel) lines i e = rw (e, find_line) refl

pub find_line-none :
    (test : Text → Bool) (fuel : ℕ) (pre suf : List Text)
    → any test suf ≡ false
    → find_line test fuel (pre ++ suf) (length pre) ≡ length (pre ++ suf)
find_line-none test fuel pre [] h =
    rw append-nil (find_line-end test fuel pre (length pre) (get_elem?-end pre))
find_line-none test zero pre (l ∷ suf) h = unfold find_line in refl
find_line-none test (suc fuel) pre (l ∷ suf) h =
    let ih = find_line-none test fuel (pre ++ l ∷ []) suf (ground arith) in
    let ih' = simp (append_assoc, length-snoc) at ih in
    rw (find_line-step test fuel (pre ++ l ∷ suf) (length pre) (get_elem?-length pre l suf))
      (ground (arith, ih'))

pub find_line-cut :
    (test : Text → Bool) (fuel : ℕ) (pre before : List Text) (at : Text) (after : List Text)
    → length before ≤ fuel
    → any test before ≡ false
    → test at ≡ true
    → find_line test (suc fuel) (pre ++ (before ++ at ∷ after)) (length pre)
      ≡ length pre + length before
find_line-cut test fuel pre [] at after f h k =
    rw
      (find_line-step test fuel (pre ++ at ∷ after) (length pre) (get_elem?-length pre at after), k)
      (omega arith)
find_line-cut test zero pre (l ∷ before) at after f h k = absurd (omega arith)
find_line-cut test (suc fuel) pre (l ∷ before) at after f h k =
    let ih =
      find_line-cut test fuel (pre ++ l ∷ []) before at after (omega arith) (ground arith) k in
    let ih' = simp (append_assoc, length-snoc) at ih in
    let rest = before ++ at ∷ after in
    rw (find_line-step test (suc fuel) (pre ++ l ∷ rest) (length pre) (get_elem?-length pre l rest))
      (ground (arith, ih'))

pub clear_from-mid :
    (pre mid suf : List Text)
    → clear_from (length mid) (length pre) (pre ++ (mid ++ suf))
      ≡ pre ++ (map (λ _. cleared) mid ++ suf)
unfolding clear_from
clear_from-mid pre [] suf = refl
clear_from-mid pre (l ∷ mid) suf =
    let ih = clear_from-mid (pre ++ cleared ∷ []) mid suf in
    let ih' = simp (append_assoc, length-snoc) at ih in
    ap (clear_from (length mid) (length pre + 1)) (set-length pre l cleared (mid ++ suf)) ∙ ih'
