-- ===== src/Cpplint/Nesting/File.antt =====
-- `Update` over the lines of a file, against the conditionals of the file.
use cmu.Base.{
  ℕ, ◌≡◌, refl, sym, ap, ◌∙◌, Option, none, some, List, [], ◌∷◌, ◌++◌, append-nil, get_elem?, Text,
}
use cmu.Cpplint.Report.{Report}
use cmu.Cpplint.Cleansed.{CleansedLines}
use cmu.Cpplint.Blocks.{line_at, Block}
use cmu.Cpplint.Nesting.{
  Blocks, PreprocessorInfo, NestingState, initial, Directive, directive_of, if_line, else_line,
  endif_line, other_line, on_directive, else_branch, endif_branch, update_preprocessor, update_line,
  update, top,
}
use cmu.Cpplint.Nesting.Conditionals.{Parts, kept, after_line, run_lines, run_lines-Parts}

abbrev before : Option Block → NestingState → NestingState
before x s = record s { previous_stack_top = x }

else_branch-before :
    (ps : List PreprocessorInfo) (x : Option Block) (s : NestingState)
    → else_branch ps (before x s) ≡ before x (else_branch ps s)
else_branch-before [] x s = refl
else_branch-before (p ∷ ps) x s = refl

endif_branch-before :
    (ps : List PreprocessorInfo) (x : Option Block) (s : NestingState)
    → endif_branch ps (before x s) ≡ before x (endif_branch ps s)
endif_branch-before [] x s = refl
endif_branch-before (p ∷ ps) x s = refl

-- The preprocessor does not read the top of the line before.
on_directive-before :
    (d : Directive) (x : Option Block) (s : NestingState)
    → on_directive d (before x s) ≡ before x (on_directive d s)
unfolding on_directive
on_directive-before if_line x s = refl
on_directive-before else_line x s = else_branch-before s.pp_stack x s
on_directive-before endif_line x s = endif_branch-before s.pp_stack x s
on_directive-before other_line x s = refl

module _ (filename : Text) (clean_lines : CleansedLines) where
  -- what a line does to the stack, behind `UpdatePreprocessor`
  abbrev pub line_effect : ℕ → Blocks → Blocks
  line_effect linenum stack =
      (update_line filename clean_lines linenum (line_at clean_lines.elided linenum)
        (record initial { stack = stack })).0.stack

  -- `Update` with one line after the other, and all that is reported
  pub update_all : List ℕ → NestingState → Option (NestingState × List Report)
  update_all [] s = some (s, [])
  update_all (n ∷ ns) s = elim (update filename clean_lines n s) [
    | none ↦ none
    | some (t, reports) ↦ elim (update_all ns t) [
      | none ↦ none
      | some (u, later) ↦ some (u, reports ++ later)
    ]
  ]

  -- The lines are there.
  abbrev pub Present : List ℕ → Type 0
  Present [] = Unit
  Present (n ∷ ns) = ((line : Text) × (get_elem? clean_lines.elided n ≡ some line)) × Present ns

  abbrev step_lines : ℕ → NestingState → NestingState
  step_lines = after_line (line_at clean_lines.elided) line_effect

  abbrev left_by : ℕ → Text → NestingState → NestingState
  left_by n line t = record t {
    stack = (update_line filename clean_lines n line (record initial { stack = t.stack })).0.stack;
  }

  update-after_line :
      (n : ℕ) (line : Text) (s : NestingState)
      → get_elem? clean_lines.elided n ≡ some line
      → (t : NestingState) × (reports : List Report) × (update filename clean_lines n s
          ≡ some (t, reports))
        × (before none t ≡ step_lines n (before none s))
  unfolding update update_preprocessor update_line
  update-after_line n line s e =
      let t = update_preprocessor line (before (top s.stack) s) in
      let r = update_line filename clean_lines n line t in
      let there : line_at clean_lines.elided n ≡ line = rw (e, line_at) refl in
      (
        r.0,
        r.1,
        rw (e, update) refl,
        ap (λ x. before none (update_line filename clean_lines n line x).0)
              (on_directive-before (directive_of line) (top s.stack) s)
            ∙ sym (
                ap (λ l. left_by n l (update_preprocessor l (before none s))) there
                ∙ ap (left_by n line) (on_directive-before (directive_of line) none s)),
      )

  Present-update_all :
      (ns : List ℕ) (s : NestingState)
      → Present ns
      → (t : NestingState) × (reports : List Report) × (update_all ns s ≡ some (t, reports))
        × (before none t ≡ run_lines (line_at clean_lines.elided) line_effect ns (before none s))
  unfolding update_all run_lines
  Present-update_all [] s h = (s, [], refl, refl)
  Present-update_all (n ∷ ns) s ((line, e), h) =
      let (t, reports, f, g) = update-after_line n line s e in
      let (u, later, f', g') = Present-update_all ns t h in
      (
        u,
        reports ++ later,
        rw (f, update_all) (rw (f', update_all) refl),
        g' ∙ ap (run_lines (line_at clean_lines.elided) line_effect ns) g,
      )

  -- Over lines that are there and whose conditionals are closed, `Update` never fails, and at the end
  -- the stack is what the lines make of it if only the part of each conditional behind its `#if` is
  -- there; the checkpoints are those of the start.
  pub update_all-Parts :
      (ns : List ℕ) (s : NestingState) (p : Parts (line_at clean_lines.elided) line_effect ns)
      → Present ns
      → (t : NestingState) × (reports : List Report) × (update_all ns s ≡ some (t, reports))
        × (t.stack ≡ kept (line_at clean_lines.elided) line_effect p s.stack)
        × (t.pp_stack ≡ s.pp_stack)
  unfolding run_lines
  update_all-Parts ns s p h =
      let (t, reports, e, f) = Present-update_all ns s h in
      let g : before none t
          ≡ before none
              (record s { stack = kept (line_at clean_lines.elided) line_effect p s.stack }) =
        f
        ∙ ap (λ x. run_lines (line_at clean_lines.elided) line_effect x (before none s))
            (sym (append-nil ns))
        ∙ run_lines-Parts (line_at clean_lines.elided) line_effect p [] (before none s) in
      (t, reports, e, ap (λ x. x.stack) g, ap (λ x. x.pp_stack) g)
