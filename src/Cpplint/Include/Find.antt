-- ===== src/Cpplint/Include/Find.antt =====
-- Which headers `FindHeader` knows, after an include and after a preprocessor directive.
use cmu.Base.{
  ℕ, ◌≡◌, ◌≢◌, refl, sym, ap, ◌∙◌, append-nil, append_assoc, true, Bool, ◌||◌, Option, none, some,
  List, [], ◌∷◌, ◌++◌, arith, if◌then◌else◌, Text, text, text_eq, text_eq_iff,
}
use cmu.Cpplint.Include.{
  IncludeState, find_in, find_in_lists, find_header, on_last, reset_list, reset_section,
  append_include,
}

-- `include_list` always holds a list for the section at hand.
abbrev pub IsOpen : IncludeState → Type 0
IsOpen s = s.include_list ≢ []

abbrev pub or_else : Option ℕ → Option ℕ → Option ℕ
or_else (some n) o = some n
or_else none o = o

find_in-concat :
    (h j : Text) (n : ℕ) (fs : List (Text × ℕ))
    → find_in h (fs ++ (j, n) ∷ []) ≡ or_else (find_in h fs) (if text_eq j h then some n else none)
unfolding find_in
find_in-concat h j n [] = refl
find_in-concat h j n ((i, m) ∷ fs) = ground (arith, find_in-concat h j n fs)

find_in_lists-on_last :
    (h j : Text) (n : ℕ) (lists : List (List (Text × ℕ)))
    → lists ≢ []
    → find_in_lists h (on_last (λ fs. fs ++ (j, n) ∷ []) lists)
      ≡ or_else (find_in_lists h lists) (if text_eq j h then some n else none)
unfolding find_in_lists
find_in_lists-on_last h j n [] ne = absurd (ne refl)
find_in_lists-on_last h j n (fs ∷ []) ne = ground (arith, find_in-concat h j n fs)
find_in_lists-on_last h j n (fs ∷ gs ∷ lists) ne =
    ground (arith, find_in_lists-on_last h j n (gs ∷ lists) (λ e. cc))

-- After an include of `j` on line `n`, a header that was known keeps the line it had, `j` is known
-- from line `n` if it was not, and no other header becomes known.
pub find_header-append_include :
    (h j : Text) (n : ℕ) (s : IncludeState)
    → IsOpen s
    → find_header h (append_include j n s)
      ≡ or_else (find_header h s) (if text_eq j h then some n else none)
unfolding find_header append_include
find_header-append_include h j n s o = find_in_lists-on_last h j n s.include_list o

append-ne-nil {ℓ} : {A : Type ℓ} (xs : List A) (x : A) → xs ++ x ∷ [] ≢ []
append-ne-nil [] x e = cc
append-ne-nil (y ∷ xs) x e = cc

on_last-ne-nil {ℓ} : {A : Type ℓ} (f : A → A) (xs : List A) → xs ≢ [] → on_last f xs ≢ []
on_last-ne-nil f [] ne e = ne e
on_last-ne-nil f (x ∷ []) ne e = cc
on_last-ne-nil f (x ∷ y ∷ xs) ne e = cc

pub append_include-IsOpen :
    (j : Text) (n : ℕ) (s : IncludeState) → IsOpen s → IsOpen (append_include j n s)
unfolding append_include
append_include-IsOpen j n s o = on_last-ne-nil (λ fs. fs ++ (j, n) ∷ []) s.include_list o

reset_list-ne-nil :
    (d : Text) (lists : List (List (Text × ℕ))) → lists ≢ [] → reset_list d lists ≢ []
unfolding reset_list
reset_list-ne-nil d lists ne =
    ground (arith, append-ne-nil lists [], on_last-ne-nil (λ _. []) lists ne)

-- `ResetSection` keeps a list of includes open, where one was, so the writes to `include_list[-1]`
-- do not fail after it.
pub reset_section-IsOpen : (d : Text) (s : IncludeState) → IsOpen s → IsOpen (reset_section d s)
unfolding reset_section
reset_section-IsOpen d s o = reset_list-ne-nil d s.include_list o

find_in_lists-concat_nil :
    (h : Text) (lists : List (List (Text × ℕ)))
    → find_in_lists h (lists ++ [] ∷ []) ≡ find_in_lists h lists
unfolding find_in_lists
find_in_lists-concat_nil h [] = refl
find_in_lists-concat_nil h (fs ∷ lists) = ground (arith, find_in_lists-concat_nil h lists)

-- the includes of a list, in order
abbrev pub append_all : List (Text × ℕ) → IncludeState → IncludeState
append_all [] s = s
append_all ((j, n) ∷ js) s = append_all js (append_include j n s)

-- the line of the first include of a header in a list
abbrev pub first_include : Text → List (Text × ℕ) → Option ℕ
first_include h [] = none
first_include h ((j, n) ∷ js) = if text_eq j h then some n else first_include h js

find_in-first_include : (h : Text) (js : List (Text × ℕ)) → find_in h js ≡ first_include h js
unfolding find_in
find_in-first_include h [] = refl
find_in-first_include h ((j, n) ∷ js) = ground (arith, find_in-first_include h js)

on_last-concat {ℓ} :
    {A : Type ℓ} (f : A → A) (xs : List A) (x : A) → on_last f (xs ++ x ∷ []) ≡ xs ++ f x ∷ []
on_last-concat f [] x = refl
on_last-concat f (y ∷ []) x = refl
on_last-concat f (y ∷ z ∷ xs) x = ap (◌∷◌ y) (on_last-concat f (z ∷ xs) x)

-- Includes are added to the last list.
append_all-last :
    (js fs : List (Text × ℕ)) (lists : List (List (Text × ℕ))) (s : IncludeState)
    → s.include_list ≡ lists ++ fs ∷ []
    → (append_all js s).include_list ≡ lists ++ (fs ++ js) ∷ []
unfolding append_include
append_all-last [] fs lists s e = e ∙ ap (λ x. lists ++ x ∷ []) (sym (append-nil fs))
append_all-last ((j, n) ∷ js) fs lists s e =
    append_all-last js (fs ++ (j, n) ∷ []) lists (append_include j n s)
      (ap (on_last (λ gs. gs ++ (j, n) ∷ [])) e ∙ on_last-concat (λ gs. gs ++ (j, n) ∷ []) lists fs)
    ∙ ap (λ x. lists ++ x ∷ []) (append_assoc fs ((j, n) ∷ []) js)

find_in_lists-concat :
    (h : Text) (js : List (Text × ℕ)) (lists : List (List (Text × ℕ)))
    → find_in_lists h (lists ++ js ∷ []) ≡ or_else (find_in_lists h lists) (first_include h js)
unfolding find_in_lists
find_in_lists-concat h js [] = ground (arith, find_in-first_include h js)
find_in_lists-concat h js (fs ∷ lists) = ground (arith, find_in_lists-concat h js lists)

-- the directives that begin a conditional, and those that begin another branch of one
abbrev pub opens : Text → Bool
opens d = text_eq d (text "if") || (text_eq d (text "ifdef") || text_eq d (text "ifndef"))

abbrev pub branches : Text → Bool
branches d = text_eq d (text "else") || text_eq d (text "elif")

reset_list-opens :
    (d : Text) (lists : List (List (Text × ℕ)))
    → opens d ≡ true
    → reset_list d lists ≡ lists ++ [] ∷ []
unfolding reset_list
reset_list-opens d lists o = ground arith

reset_list-branches :
    (d : Text) (lists : List (List (Text × ℕ)))
    → branches d ≡ true
    → reset_list d lists ≡ on_last (λ _. []) lists
unfolding reset_list
reset_list-branches d lists b = ground (
  arith,
  text_eq_iff d (text "if"),
  text_eq_iff d (text "ifdef"),
  text_eq_iff d (text "ifndef"),
  text_eq_iff d (text "else"),
  text_eq_iff d (text "elif"),
)

-- In a branch that an `if`, `ifdef` or `ifndef` begins and that holds no directive, a header is known if
-- it was known before, from the line it had, or else if the branch includes it, from the line of its
-- first include there. An `else` or `elif` at the end of the branch forgets the headers that only the
-- branch includes, and leaves all others known as they were before the branch.
pub find_header-reset_section :
    (h d e : Text) (js : List (Text × ℕ)) (s : IncludeState)
    → opens d ≡ true
    → branches e ≡ true
    → (find_header h (append_all js (reset_section d s))
        ≡ or_else (find_header h s) (first_include h js))
      × (find_header h (reset_section e (append_all js (reset_section d s))) ≡ find_header h s)
unfolding find_header reset_section
find_header-reset_section h d e js s o b =
    let inside =
      append_all-last js [] s.include_list (reset_section d s)
        (reset_list-opens d s.include_list o) in
    (
      ap (find_in_lists h) inside ∙ find_in_lists-concat h js s.include_list,
      ap (find_in_lists h) (
            reset_list-branches e (append_all js (reset_section d s)).include_list b
            ∙ ap (on_last (λ _. [])) inside
            ∙ on_last-concat (λ _. []) s.include_list js)
          ∙ find_in_lists-concat_nil h s.include_list,
    )
