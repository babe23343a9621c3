-- ===== src/Cpplint/Function/Size.antt =====
-- When a function is reported as too long, and how severe the report is. The numbers that the comment in
-- `Check` gives for the severity, 50, 100, 200 and so on, are not those of the code.
use native.Mathlib.Nat.{pow-suc, pow-le-pow_right, mul-le-mul_left}
use mathlib.Core.Path.{subst}
use cmu.Base.{
  true, ◌||◌, text, ℕ, zero, suc, ◌+◌, ◌*◌, ◌^◌, ◌≤◌, ◌<◌, ◌≡◌, ◌↔◌, refl, ◌∙◌, true, [], ◌∷◌,
  arith, ltb, leb, leb→le, inl, inr, ◌⊎◌, if◌then◌else◌, Bool-cases, Text,
}
use cmu.PyText.{starts_with}
use cmu.Regex.{match, matches}
use cmu.Cpplint.Report.{Report}
use cmu.Cpplint.Function.{
  FunctionState, begin_function, count_line, base_trigger, log_ratio, log2_ratio, check_function,
}

-- `n` lines are counted.
abbrev pub count_lines : ℕ → FunctionState → FunctionState
count_lines zero s = s
count_lines (suc n) s = count_lines n (count_line s)

-- `2 ^ suc v` as a doubling of the base.
pow-double : (base v : ℕ) → base * 2 ^ suc v ≡ (base * 2) * 2 ^ v
pow-double base v = rw pow-suc (grind arith)

lt-two_pow : (v : ℕ) → v < 2 ^ v
lt-two_pow zero = omega arith
lt-two_pow (suc v) = rw pow-suc (omega (arith, lt-two_pow v))

log_ratio-lower :
    (v fuel lines base : ℕ) → v ≤ fuel → base * 2 ^ v ≤ lines → v ≤ log_ratio fuel lines base
unfolding log_ratio
log_ratio-lower zero fuel lines base f h = omega arith
log_ratio-lower (suc v) zero lines base f h = absurd (omega arith)
log_ratio-lower (suc v) (suc fuel) lines base f h =
    let h' : (base * 2) * 2 ^ v ≤ lines = rw pow-double at h in
    let p : base * 2 ≤ (base * 2) * 2 ^ v = grind (arith, lt-two_pow v) in
    ground (arith, log_ratio-lower v fuel lines (base * 2))

-- The level is the whole part of the logarithm: the base doubled that often is within the number of
-- lines, and doubled once more it is not.
log_ratio_bounds :
    (fuel lines base : ℕ)
    → 0 < base
    → base ≤ lines
    → lines < base + fuel
    → (base * 2 ^ log_ratio fuel lines base ≤ lines)
      × (lines < base * 2 ^ suc (log_ratio fuel lines base))
unfolding log_ratio
log_ratio_bounds zero lines base b l f = absurd (omega arith)
log_ratio_bounds (suc fuel) lines base b l f = elim (Bool-cases (leb (base * 2) lines)) [
  | inl e ↦
      let (lo, hi) =
        log_ratio_bounds fuel lines (base * 2) (omega arith) (leb→le (base * 2) lines e)
          (omega arith) in
      rw e (
        omega (arith, lo, pow-double base (log_ratio fuel lines (base * 2))),
        omega (arith, hi, pow-double base (suc (log_ratio fuel lines (base * 2)))),
      )
  | inr e ↦ rw e (ground arith, ground arith)
]

base_trigger_pos : (name : Text) → 0 < base_trigger name
unfolding base_trigger
base_trigger_pos name = ground arith

count_lines_lem :
    (n m : ℕ) (name : Text)
    → count_lines n
        (record { in_a_function = true; lines_in_function = m; current_function = name })
      ≡ record { in_a_function = true; lines_in_function = m + n; current_function = name }
unfolding count_line
count_lines_lem zero m name = ground arith
count_lines_lem (suc n) m name = count_lines_lem n (m + 1) name ∙ ground arith

count_lines-begin_function :
    (n : ℕ) (name : Text) (s : FunctionState)
    → count_lines n (begin_function name s)
      ≡ record { in_a_function = true; lines_in_function = n; current_function = name }
unfolding begin_function
count_lines-begin_function n name s = count_lines_lem n 0 name ∙ ground arith

-- the severity that a report of a function of `n` lines has, and what bounds it
abbrev pub IsLevel : ℕ → ℕ → ℕ → Type 0
IsLevel base n level = (level ≤ 5) × ((k : ℕ) → k ≤ 5 → (k ≤ level) ↔ (base * 2 ^ k ≤ n))

at_most_five_lem : (a : ℕ) (k : ℕ) → k ≤ 5 → (k ≤ (if ltb 5 a then 5 else a)) ↔ (k ≤ a)
at_most_five_lem a k h = ground arith

log2_ratio-IsLevel :
    (base n : ℕ) → 0 < base → base ≤ n → (k : ℕ) → (k ≤ log2_ratio n base) ↔ (base * 2 ^ k ≤ n)
log2_ratio-IsLevel base n b l k = (
  (λ h.
      let p : 2 ^ k ≤ 2 ^ log2_ratio n base = pow-le-pow_right (omega arith) h in
      let (lo, _) = log_ratio_bounds n n base b l (omega arith) in
      omega (arith, lo, mul-le-mul_left base p)),
  (λ h.
      let q : 2 ^ k ≤ base * 2 ^ k = grind arith in
      log_ratio-lower k n n base (omega (arith, lt-two_pow k)) h),
)

iff_trans : {A B C : Type 0} → A ↔ B → B ↔ C → A ↔ C
iff_trans f g = ((λ a. g.0 (f.0 a)), (λ c. f.1 (g.1 c)))

base_le : (v n base : ℕ) → base * 2 ^ v < n → base ≤ n
base_le v n base h = let p : base ≤ base * 2 ^ v = grind (arith, lt-two_pow v) in omega (arith, p)

check_function-base_trigger :
    (v n linenum : ℕ) (filename name : Text) (s : FunctionState)
    → let r = check_function v filename linenum (count_lines n (begin_function name s)) in
      ((n ≤ base_trigger name * 2 ^ v) × (r ≡ []))
      ⊎ ((base_trigger name * 2 ^ v < n)
          × ((x : Report) × (r ≡ x ∷ []) × IsLevel (base_trigger name) n x.confidence))
unfolding check_function
check_function-base_trigger v n linenum filename name s =
    rw (count_lines-begin_function n name s)
      (elim (Bool-cases (ltb (base_trigger name * 2 ^ v) n)) [
        | inl e ↦
            let big : base_trigger name * 2 ^ v < n = ground arith in
            rw e (
              inr (
                big,
                (
                  _,
                  refl,
                  (
                    ground arith,
                    λ k l. iff_trans (at_most_five_lem (log2_ratio n (base_trigger name)) k l) (
                        log2_ratio-IsLevel (base_trigger name) n (base_trigger_pos name)
                          (base_le v n (base_trigger name) big) k),
                  ),
                ),
              ))
        | inr e ↦ rw e (inl (ground arith, refl))
      ])

-- the number of lines that a function of this name may have at verbosity 0
abbrev pub longest : Text → ℕ
longest name = if starts_with (text "TEST") name || starts_with (text "Test") name then 400 else 250

base_trigger_lem : (name : Text) → base_trigger name ≡ longest name
unfolding base_trigger matches match starts_with
base_trigger_lem [] = refl
base_trigger_lem (a ∷ []) = ground arith
base_trigger_lem (a ∷ b ∷ []) = ground arith
base_trigger_lem (a ∷ b ∷ c ∷ []) = ground arith
base_trigger_lem (a ∷ b ∷ c ∷ d ∷ name) = ground arith

-- A function whose body has `n` counted lines is reported exactly if `n` exceeds its base, 400 lines if
-- its name starts with `TEST` or `Test` and else 250, doubled once for each verbosity level; there is
-- then one report, and its confidence is the largest `k` up to 5 such that `n` is at least the base
-- times `2 ^ k`.
pub check_function_lem :
    (v n linenum : ℕ) (filename name : Text) (s : FunctionState)
    → let r = check_function v filename linenum (count_lines n (begin_function name s)) in
      ((n ≤ longest name * 2 ^ v) × (r ≡ []))
      ⊎ ((longest name * 2 ^ v < n)
          × ((x : Report) × (r ≡ x ∷ []) × IsLevel (longest name) n x.confidence))
check_function_lem v n linenum filename name s =
    let r = check_function v filename linenum (count_lines n (begin_function name s)) in
    subst
      (λ base.
        ((n ≤ base * 2 ^ v) × (r ≡ []))
        ⊎ ((base * 2 ^ v < n) × ((x : Report) × (r ≡ x ∷ []) × IsLevel base n x.confidence)))
      (base_trigger_lem name) (check_function-base_trigger v n linenum filename name s)
