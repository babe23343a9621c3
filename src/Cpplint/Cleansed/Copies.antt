-- ===== src/Cpplint/Cleansed/Copies.antt =====
-- The four copies of the lines of a file have the same length, whatever is removed from each line.
use cmu.Base.{suc, ◌≡◌, refl, ap, ◌∙◌, Option, none, List, [], ◌∷◌, map, length, Text}
use cmu.Cpplint.Cleansed.{cleanse_raw_line, cleanse_raw_from, cleanse_raw_strings, cleansed_lines}

length-cleanse_raw_from :
    (lines : List Text) (delimiter : Option Text)
    → length (cleanse_raw_from lines delimiter) ≡ length lines
unfolding cleanse_raw_from
length-cleanse_raw_from [] delimiter = refl
length-cleanse_raw_from (line ∷ lines) delimiter =
    ap suc (length-cleanse_raw_from lines (cleanse_raw_line line delimiter).1)

length-map {ℓ} : {A B : Type ℓ} (f : A → B) (xs : List A) → length (map f xs) ≡ length xs
length-map f [] = refl
length-map f (x ∷ xs) = ap suc (length-map f xs)

-- All four lists of a `CleansedLines` are as long as the file, which is the number of lines it
-- tells, so that a line number is good for each of them.
pub cleansed_lines-length :
    (file : List Text)
    → let c = cleansed_lines file in
      (c.num_lines ≡ length file)
      × (length c.elided ≡ c.num_lines)
      × (length c.lines ≡ c.num_lines)
      × (length c.raw_lines ≡ c.num_lines)
      × (length c.lines_without_raw_strings ≡ c.num_lines)
unfolding cleansed_lines cleanse_raw_strings
cleansed_lines-length file =
    let e = length-cleanse_raw_from file none in
    (
      refl,
      length-map _ (cleanse_raw_from file none) ∙ e,
      length-map _ (cleanse_raw_from file none) ∙ e,
      refl,
      e,
    )
