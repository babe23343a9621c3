-- ===== src/Cpplint/Include/Tests.antt =====
-- Runs of the include state.
use cmu.Base.{text_eq, ◌≡◌, ◌↔◌, refl, false, some, none, [], ◌∷◌, text}
use cmu.PyText.{contains}
use cmu.Cpplint.Include.{
  c_sys, cpp_sys, likely_my, possible_my, other, IncludeState, initial, find_header, append_include,
  reset_section, canonicalize_alphabetical_order, check_next_include_order,
}
use cmu.Cpplint.Include.Grammar.{InOrder}
use cmu.Cpplint.Include.Order.{NoErrors, messages, messages-InOrder}
use cmu.Cpplint.Include.Find.{
  append_all, IsOpen, find_header-append_include, find_header-reset_section, reset_section-IsOpen,
}
use cmu.Cpplint.Include.Canonical.{canonicalize_alphabetical_order_idem}

-- one header before an `#if`, and one behind it
abbrev two_sections : IncludeState
two_sections = record initial {
  include_list = ((text "a.h", 1) ∷ []) ∷ ((text "b.h", 4) ∷ []) ∷ [];
}

messages-InOrder_example :
    NoErrors (messages (likely_my ∷ c_sys ∷ cpp_sys ∷ other ∷ possible_my ∷ []) initial)
    ↔ InOrder (likely_my ∷ c_sys ∷ cpp_sys ∷ other ∷ possible_my ∷ [])
messages-InOrder_example =
    messages-InOrder (likely_my ∷ c_sys ∷ cpp_sys ∷ other ∷ possible_my ∷ []) initial refl

find_header-append_include_example :
    find_header (text "c.h") (append_include (text "c.h") 6 two_sections) ≡ some 6
unfolding find_header
find_header-append_include_example =
    find_header-append_include (text "c.h") (text "c.h") 6 two_sections (λ e. cc)

find_header-reset_section_example :
    (find_header (text "c.h") (
        append_all
          ((text "c.h", 6) ∷ (text "c.h", 7) ∷ [])
          (reset_section (text "ifdef") two_sections))
      ≡ some 6)
    × (find_header (text "c.h") (
          reset_section (text "else") (
            append_all
              ((text "c.h", 6) ∷ (text "c.h", 7) ∷ [])
              (reset_section (text "ifdef") two_sections)))
        ≡ none)
unfolding find_header text_eq
find_header-reset_section_example =
    find_header-reset_section (text "c.h") (text "ifdef") (text "else")
      ((text "c.h", 6) ∷ (text "c.h", 7) ∷ []) two_sections refl refl

-- `endif` keeps its list, so the `else` behind an inner conditional clears the list of that one, and
-- `c.h` of the outer branch stays known.
test_nested :
    find_header (text "c.h") (
      reset_section (text "else") (
        reset_section (text "endif") (
          reset_section
            (text "if")
            (append_include (text "c.h") 2 (reset_section (text "if") initial)))))
    ≡ some 2
unfolding find_header append_include reset_section
test_nested = refl

reset_section-IsOpen_example : IsOpen (reset_section (text "if") two_sections)
reset_section-IsOpen_example = reset_section-IsOpen (text "if") two_sections (λ e. cc)

canonicalize_alphabetical_order_idem_example :
    (canonicalize_alphabetical_order (canonicalize_alphabetical_order (text "A-inl.h"))
      ≡ canonicalize_alphabetical_order (text "A-inl.h"))
    × (contains b'-' (canonicalize_alphabetical_order (text "A-inl.h")) ≡ false)
canonicalize_alphabetical_order_idem_example = canonicalize_alphabetical_order_idem (text "A-inl.h")

test_canonical : canonicalize_alphabetical_order (text "A-b-inl.h") ≡ text "a_b.h"
unfolding canonicalize_alphabetical_order
test_canonical = refl

test_c_after_cpp :
    (check_next_include_order c_sys (record initial { section = 3 })).1
    ≡ text "Found C system header after C++ system header"
unfolding check_next_include_order
test_c_after_cpp = refl
