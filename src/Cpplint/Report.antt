-- ===== src/Cpplint/Report.antt =====
-- One call of the error handler that the functions of build_support/cpplint.py take as `error`,
-- and numbers as `%d` and `%s` print them. A check is modelled by the calls that it makes, in order.
use cmu.Base.{
  ℕ, zero, suc, ◌+◌, ◌/◌, ◌%◌, Bool, List, [], ◌∷◌, ltb, if◌then◌else◌, String, Text, text,
}

pub record Report : Type 0 where
  pub filename : Text
  pub linenum : ℕ
  pub category : Text
  pub confidence : ℕ
  pub message : Text

digits_onto : ℕ → ℕ → Text → Text
digits_onto zero n acc = acc
digits_onto (suc fuel) n acc =
    let acc' = (n % 10 + b'0') ∷ acc in
    let more = digits_onto fuel (n / 10) acc' in if ltb n 10 then acc' else more

-- A number has no more digits than it has units, so `suc n` rounds are enough.
unfoldable pub decimal : ℕ → Text
unfolding digits_onto
decimal n = digits_onto (suc n) n []

-- `error(filename, linenum, category, confidence, message)` with a literal category
abbrev pub report : Text → ℕ → String → ℕ → Text → Report
report f n c k m = record {
  filename = f;
  linenum = n;
  category = text c;
  confidence = k;
  message = m;
}

-- the call of the handler under an `if`
abbrev pub report_if : Bool → Text → ℕ → String → ℕ → Text → List Report
report_if b f n c k m = if b then report f n c k m ∷ [] else []

-- What some checks do, in order: a call of the handler, or a call of `ParseNolintSuppressions` with a line
-- and its number, after which errors on that line may be silenced.
pub data Action : Type 0 where
  call : Report → Action
  parse_nolint : Text → ℕ → Action
