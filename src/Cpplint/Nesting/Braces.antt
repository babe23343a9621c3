-- ===== src/Cpplint/Nesting/Braces.antt =====
-- What braces that match do to the nesting stack.
use cmu.Base.{
  ℕ, ◌≡◌, refl, sym, ap, ◌∙◌, true, false, ◌||◌, List, [], ◌∷◌, ◌++◌, append_assoc, append-nil,
  arith, ◌==◌, if◌then◌else◌, Text,
}
use cmu.Cpplint.Report.{Report}
use cmu.Cpplint.Cleansed.{CleansedLines}
use cmu.Cpplint.Blocks.{Block, check_end}
use cmu.Cpplint.Nesting.{
  Blocks, seen_open_brace, brace_block, open_brace, end_of_statement, consume_braces,
}

-- Text in which each brace that is opened is closed.
pub data Matched : Text → Type 0 where
  nil : Matched []
  other : (c : ℕ) {s : Text} → (c == b'{' || c == b'}') ≡ false → Matched s → Matched (c ∷ s)
  braces : (a b : Text) {s : Text} → Matched a → Matched b → s ≡ b'{' ∷ (a ++ b'}' ∷ b) → Matched s

end_of_statement-seen :
    (stack : Blocks) → seen_open_brace stack ≡ true → end_of_statement stack ≡ stack
end_of_statement-seen [] h = refl
end_of_statement-seen (b ∷ stack) h = ground arith

open_brace-seen :
    (linenum : ℕ) (line : Text) (stack : Blocks)
    → seen_open_brace stack ≡ true
    → open_brace linenum line stack ≡ brace_block linenum line ∷ stack
open_brace-seen linenum line [] h = refl
open_brace-seen linenum line (b ∷ stack) h = ground arith

module _ (filename : Text) (clean_lines : CleansedLines) (linenum : ℕ) where
  abbrev consume : Text → Text → Blocks → Blocks × List Report
  consume = consume_braces filename clean_lines linenum

  consume-other :
      (c : ℕ) (line rest : Text) (stack : Blocks)
      → (c == b'{' || c == b'}') ≡ false
      → seen_open_brace stack ≡ true
      → (line' : Text) × (consume line (c ∷ rest) stack ≡ consume line' rest stack)
  unfolding consume_braces
  consume-other c line rest stack h o =
      (if c == b';' || c == b')' then rest else line, ground (arith, end_of_statement-seen stack))

  brace_block-end :
      (line : Text) → check_end filename clean_lines linenum (brace_block linenum line) ≡ []
  unfolding check_end brace_block
  brace_block-end line = ground arith

  brace_block-seen : (line : Text) → (brace_block linenum line).seen_open_brace ≡ true
  unfolding brace_block
  brace_block-seen line = ground arith

  consume-close :
      (b : Block) (line rest : Text) (stack : Blocks)
      → check_end filename clean_lines linenum b ≡ []
      → consume line (b'}' ∷ rest) (b ∷ stack) ≡ consume rest rest stack
  unfolding consume_braces
  consume-close b line rest stack h =
      ap (λ x. ((consume rest rest stack).0, x ++ (consume rest rest stack).1)) h

  -- Braces that match are opened and closed again: whatever blocks are open, the rest of the line
  -- finds the same blocks, and nothing is reported.
  consume-Matched :
      {s : Text} (m : Matched s) (line rest : Text) (stack : Blocks)
      → seen_open_brace stack ≡ true
      → (line' : Text) × (consume line (s ++ rest) stack ≡ consume line' rest stack)
  unfolding consume_braces
  consume-Matched nil line rest stack o = (line, refl)
  consume-Matched (other c {s} h m) line rest stack o =
      let (line1, e) = consume-other c line (s ++ rest) stack h o in
      let (line2, f) = consume-Matched m line1 rest stack o in (line2, e ∙ f)
  consume-Matched (braces a b {s} m n h) line rest stack o =
      let inner = a ++ (b'}' ∷ (b ++ rest)) in
      let block = brace_block linenum line in
      let (line1, e) =
        consume-Matched m inner (b'}' ∷ (b ++ rest)) (block ∷ stack) (brace_block-seen line) in
      let (line2, f) = consume-Matched n (b ++ rest) rest stack o in
      (
        line2,
        ap (λ x. consume line (x ++ rest) stack) h
            ∙ ap (λ x. consume line (b'{' ∷ x) stack) (append_assoc a (b'}' ∷ b) rest)
            ∙ ap (consume inner inner) (open_brace-seen linenum line stack o)
            ∙ e
            ∙ consume-close block line1 (b ++ rest) stack (brace_block-end line)
            ∙ f,
      )

  -- The body of a class or a namespace whose brace has not been seen, if its braces match, opens and
  -- ends that block alone: the stack below it is as before, and what is reported is its `CheckEnd`.
  pub consume_braces-body :
      (line body : Text) (b : Block) (stack : Blocks)
      → b.seen_open_brace ≡ false
      → Matched body
      → consume_braces filename clean_lines linenum line (b'{' ∷ (body ++ b'}' ∷ [])) (b ∷ stack)
        ≡ (stack, check_end filename clean_lines linenum (record b { seen_open_brace = true }))
  unfolding consume_braces
  consume_braces-body line body b stack h m =
      let opened = record b { seen_open_brace = true } in
      let inner = body ++ b'}' ∷ [] in
      let opens : open_brace linenum line (b ∷ stack) ≡ opened ∷ stack = ground arith in
      ap (consume inner inner) opens
      ∙ (consume-Matched m inner (b'}' ∷ []) (opened ∷ stack) refl).1
      ∙ ap (λ x. (stack, x)) (append-nil (check_end filename clean_lines linenum opened))

  -- Text whose braces match leaves the blocks that are open as they were and reports nothing, if the
  -- brace of the innermost has been seen.
  pub consume_braces-Matched :
      (text : Text) (stack : Blocks)
      → Matched text
      → seen_open_brace stack ≡ true
      → consume_braces filename clean_lines linenum text text stack ≡ (stack, [])
  unfolding consume_braces
  consume_braces-Matched text stack m o =
      ap (λ x. consume text x stack) (sym (append-nil text)) ∙ (consume-Matched m text [] stack o).1
