-- ===== src/Cpplint/Include/Canonical.antt =====
-- The form in which include paths are compared.
use cmu.Base.{◌≡◌, refl, ap, ◌∙◌, [], false, Text, text}
use cmu.PyText.{contains, replace, lower}
use cmu.PyText.Replace.{replace-id, contains-replace, contains-lower, lower-lower}
use cmu.Cpplint.Include.{canonicalize_alphabetical_order}

no_dash : (path : Text) → contains b'-' (canonicalize_alphabetical_order path) ≡ false
unfolding canonicalize_alphabetical_order
no_dash path = contains-lower b'-' _ refl (
    contains-replace b'-' (text "_") (replace (text "-inl.h") (text ".h") path)
      (unfold contains in refl))

without_dash :
    (path : Text) → contains b'-' path ≡ false → canonicalize_alphabetical_order path ≡ lower path
unfolding canonicalize_alphabetical_order
without_dash path h = ap lower (
    ap (replace (text "-") (text "_")) (replace-id b'-' (text "inl.h") (text ".h") path h)
    ∙ replace-id b'-' [] (text "_") path h)

-- Paths are canonical after one pass: a second one changes nothing, and no dash is left.
pub canonicalize_alphabetical_order_idem :
    (path : Text)
    → (canonicalize_alphabetical_order (canonicalize_alphabetical_order path)
        ≡ canonicalize_alphabetical_order path)
      × (contains b'-' (canonicalize_alphabetical_order path) ≡ false)
canonicalize_alphabetical_order_idem path = (
  without_dash (canonicalize_alphabetical_order path) (no_dash path)
      ∙ unfold canonicalize_alphabetical_order in lower-lower _,
  no_dash path,
)
