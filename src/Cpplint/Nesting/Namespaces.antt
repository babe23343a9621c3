-- ===== src/Cpplint/Nesting/Namespaces.antt =====
-- The loop over the namespaces of a line ends.
use cmu.Base.{
  ℕ, zero, suc, ◌+◌, ◌≤◌, ◌<◌, ◌≡◌, refl, ap, arith, Option-cases, inl, inr, length, drop, Text,
  text,
}
use cmu.PyText.{find}
use cmu.Regex.{Cursor, lit, match, group_or, begin}
use cmu.Regex.Reads.{
  Reads, both, grouped, at_bol, at_eol, at_edge, match-Reads, Reads-rest, Reads-fewest,
  group_or-group_text,
}
use cmu.Cpplint.Cleansed.Rounds.{length-take-le, length-drop-le}
use cmu.Cpplint.Nesting.{Blocks, namespace_decl, open_namespace, open_namespaces}

-- What follows a namespace is shorter than the line.
namespace_decl-Reads :
    (s : Text) (m : Cursor)
    → Reads namespace_decl (begin s) m
    → length (group_or 2 m) + 9 ≤ length s
namespace_decl-Reads s m
      (both
        (at_bol _)
        (both x (both w (both at_edge (both y (both z (both (grouped v e g) (at_eol _)))))))) =
    omega (
      arith,
      ap length (group_or-group_text 2 m _ g),
      length-take-le {A = ℕ},
      Reads-rest x,
      Reads-fewest (lit "namespace") w,
      Reads-rest y,
      Reads-rest z,
      Reads-rest v,
    )

open_namespace-Agree :
    (f g : Text → Blocks → Blocks × Text) (linenum : ℕ) (s : Text) (stack : Blocks)
    → ((t : Text) (next : Blocks) → length t < length s → f t next ≡ g t next)
    → open_namespace f linenum s stack ≡ open_namespace g linenum s stack
unfolding open_namespace
open_namespace-Agree f g linenum s stack h = elim (Option-cases (match namespace_decl s)) [
  | inl o ↦ rw (o, open_namespace) refl
  | inr (m, o) ↦
      let l = namespace_decl-Reads s m (match-Reads namespace_decl s m o) in
      elim (Option-cases (find (text "{") (group_or 2 m))) [
        | inl c ↦
            rw (o, open_namespace) (rw (c, open_namespace) (h (group_or 2 m) _ (omega (arith, l))))
        | inr (i, c) ↦
            rw (o, open_namespace)
              (rw (c, open_namespace)
                (h (drop (i + 1) (group_or 2 m)) _
                  (omega (arith, l, length-drop-le (i + 1) (group_or 2 m)))))
      ]
]

-- The loop over the namespaces that a line begins with ends before it has done one round more than the
-- line has characters: with more rounds allowed than that, the stack and the rest of the line are the
-- same, whatever would be returned if they ran out.
pub open_namespaces-enough :
    (out other : Text → Blocks → Blocks × Text) (n m linenum : ℕ) (s : Text) (stack : Blocks)
    → length s < n
    → length s < m
    → open_namespaces out n linenum s stack ≡ open_namespaces other m linenum s stack
unfolding open_namespaces
open_namespaces-enough out other zero m linenum s stack h k = absurd (omega (arith, h))
open_namespaces-enough out other (suc n) zero linenum s stack h k = absurd (omega (arith, k))
open_namespaces-enough out other (suc n) (suc m) linenum s stack h k =
    open_namespace-Agree (open_namespaces out n linenum) (open_namespaces other m linenum) linenum s
      stack
      λ t next l.
        open_namespaces-enough out other n m linenum t next (omega (arith, h, l))
          (omega (arith, k, l))
