-- ===== src/Cpplint/Nesting/Conditionals.antt =====
-- What the preprocessor conditionals of a file leave of the nesting stack.
use cmu.Base.{
  ◌≡◌, refl, ap, ◌∙◌, true, false, List, [], ◌∷◌, ◌++◌, append_assoc, arith, if◌then◌else◌, Text,
}
use cmu.Cpplint.Nesting.{
  Blocks, PreprocessorInfo, NestingState, if_line, else_line, endif_line, other_line, directive_of,
  on_directive, update_preprocessor,
}

-- The lines of a file are values of any type with a text; `step` is what a line does to the stack
-- once the preprocessor is updated.
module _ {L : Type 0} (text_of : L → Text) (step : L → Blocks → Blocks) where
  -- Lines in which each conditional is closed; each has a first part and any number of others.
  mutual
    pub data Parts : List L → Type 0 where
      no_lines : Parts []
      line :
          (l : L) {ls : List L} → directive_of (text_of l) ≡ other_line → Parts ls → Parts (l ∷ ls)
      conditional :
          (l e : L) (first others rest : List L) {ls : List L}
          → directive_of (text_of l) ≡ if_line
          → directive_of (text_of e) ≡ endif_line
          → Parts first
          → Branches others
          → Parts rest
          → ls ≡ l ∷ (first ++ (others ++ e ∷ rest))
          → Parts ls

    pub data Branches : List L → Type 0 where
      no_branches : Branches []
      branch :
          (l : L) (body others : List L) {ls : List L}
          → directive_of (text_of l) ≡ else_line
          → Parts body
          → Branches others
          → ls ≡ l ∷ (body ++ others)
          → Branches ls

  -- What the lines do to the stack if only the first part of each conditional is compiled.
  pub kept : {ls : List L} → Parts ls → Blocks → Blocks
  kept no_lines stack = stack
  kept (line l d p) stack = kept p (step l stack)
  kept (conditional l e first others rest d d' p b q h) stack =
      kept q (step e (kept p (step l stack)))

  -- the lines one after the other, as `Update` takes them
  abbrev pub after_line : L → NestingState → NestingState
  after_line l s = let t = update_preprocessor (text_of l) s in record t { stack = step l t.stack }

  unfoldable pub run_lines : List L → NestingState → NestingState
  run_lines [] s = s
  run_lines (l ∷ ls) s = run_lines ls (after_line l s)

  -- the stack that `#endif` will restore
  abbrev restored : PreprocessorInfo → Blocks → Blocks
  restored q stack = if q.seen_else then q.stack_before_else else stack

  abbrev with_stack : Blocks → NestingState → NestingState
  with_stack stack s = record s { stack = stack }

  abbrev inside : PreprocessorInfo → Blocks → NestingState → NestingState
  inside q stack s = record s { stack = stack; pp_stack = q ∷ s.pp_stack }

  after_if :
      (l : L) (s : NestingState)
      → directive_of (text_of l) ≡ if_line
      → after_line l s
        ≡ inside
            (record { stack_before_if = s.stack; stack_before_else = []; seen_else = false })
            (step l s.stack)
            s
  unfolding update_preprocessor on_directive
  after_if l s d = rw (d, on_directive) refl

  after_other :
      (l : L) (s : NestingState)
      → directive_of (text_of l) ≡ other_line
      → after_line l s ≡ with_stack (step l s.stack) s
  unfolding update_preprocessor on_directive
  after_other l s d = rw (d, on_directive) refl

  after_endif :
      (l : L) (q : PreprocessorInfo) (stack : Blocks) (s : NestingState)
      → directive_of (text_of l) ≡ endif_line
      → after_line l (inside q stack s) ≡ with_stack (step l (restored q stack)) s
  unfolding update_preprocessor on_directive
  after_endif l q stack s d = rw (d, on_directive) refl

  after_else :
      (l : L) (q : PreprocessorInfo) (stack : Blocks) (s : NestingState)
      → directive_of (text_of l) ≡ else_line
      → (r : PreprocessorInfo) × (after_line l (inside q stack s)
          ≡ inside r (step l q.stack_before_if) s)
        × ((next : Blocks) → restored r next ≡ restored q stack)
  unfolding update_preprocessor on_directive
  after_else l q stack s d = (
    if q.seen_else then q else record q { seen_else = true; stack_before_else = stack },
    rw (d, on_directive) refl,
    λ next. ground arith,
  )

  mutual
    unfolding kept run_lines

    -- A conditional's further parts leave the checkpoint that `#endif` goes back to.
    run_lines-Branches :
        {ls : List L} (b : Branches ls) (tail : List L) (q : PreprocessorInfo) (stack : Blocks)
        (s : NestingState)
        → (r : PreprocessorInfo) × (next : Blocks) × (run_lines (ls ++ tail) (inside q stack s)
            ≡ run_lines tail (inside r next s))
          × (restored r next ≡ restored q stack)
    run_lines-Branches no_branches tail q stack s = (q, stack, refl, refl)
    run_lines-Branches (branch l body others d p b h) tail q stack s =
        let (q', e, k) = after_else l q stack s d in
        let opened = step l q.stack_before_if in
        let (r, next, e', k') = run_lines-Branches b tail q' (kept p opened) s in
        (
          r,
          next,
          ap (λ x. run_lines (x ++ tail) (inside q stack s)) h
              ∙ ap (run_lines ((body ++ others) ++ tail)) e
              ∙ ap (λ x. run_lines x (inside q' opened s)) (append_assoc body others tail)
              ∙ run_lines-Parts p (others ++ tail) (inside q' opened s)
              ∙ e',
          k' ∙ k (kept p opened),
        )

    -- Whatever stands in the parts of conditionals behind `#else` and `#elif`, the lines leave the
    -- stack that they would leave if only the first part of each conditional stood there, and no
    -- checkpoint.
    pub run_lines-Parts :
        {ls : List L} (p : Parts ls) (tail : List L) (s : NestingState)
        → run_lines (ls ++ tail) s ≡ run_lines tail (with_stack (kept p s.stack) s)
    run_lines-Parts no_lines tail s = refl
    run_lines-Parts (line l {ls} d p) tail s =
        ap (run_lines (ls ++ tail)) (after_other l s d)
        ∙ run_lines-Parts p tail (with_stack (step l s.stack) s)
    run_lines-Parts (conditional l e first others rest d d' p b q h) tail s =
        let opened = step l s.stack in
        let info : PreprocessorInfo = record {
          stack_before_if = s.stack;
          stack_before_else = [];
          seen_else = false;
        } in
        let (r, next, f, k) = run_lines-Branches b (e ∷ (rest ++ tail)) info (kept p opened) s in
        let shape : (first ++ (others ++ e ∷ rest)) ++ tail
            ≡ first ++ (others ++ e ∷ (rest ++ tail)) =
          append_assoc first (others ++ e ∷ rest) tail
          ∙ ap (◌++◌ first) (append_assoc others (e ∷ rest) tail) in
        ap (λ x. run_lines (x ++ tail) s) h
        ∙ ap (run_lines ((first ++ (others ++ e ∷ rest)) ++ tail)) (after_if l s d)
        ∙ ap (λ x. run_lines x (inside info opened s)) shape
        ∙ run_lines-Parts p (others ++ e ∷ (rest ++ tail)) (inside info opened s)
        ∙ f
        ∙ ap (run_lines (rest ++ tail)) (after_endif e r next s d')
        ∙ ap (λ x. run_lines (rest ++ tail) (with_stack (step e x) s)) k
        ∙ run_lines-Parts q tail (with_stack (step e (kept p opened)) s)
