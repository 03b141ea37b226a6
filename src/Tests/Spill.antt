-- ===== src/Tests/Spill.antt =====
-- A sequence of four numbers, of which more than two go to the file.
use excelflow.Prelude.{◌≡◌, refl, Option, List, [], ◌∷◌, ℕ, none, some, length}
use mathlib.Core.Option
use excelflow.Spill.{Pickle, SpillableSequence, sequence, extend, get_item, len, get_elem?}
use excelflow.Spill.Refinement.{sequence_refines}

abbrev first_byte : List ℕ → Option (ℕ × List ℕ)
first_byte [] = none
first_byte (x ∷ xs) = some (x, xs)

abbrev pickle : Pickle ℕ
pickle = record { Byte = ℕ; dump = λ x. x ∷ []; load = first_byte }

abbrev numbers : List ℕ
numbers = 7 ∷ 8 ∷ 9 ∷ 6 ∷ []

abbrev new : SpillableSequence pickle
new = record { spill_after_items = 2; items = []; spilled = none }

new_made : sequence pickle 2 ≡ some new
unfolding sequence
new_made = refl

first_byte-trip : (x : ℕ) (rest : List ℕ) → first_byte (x ∷ rest) ≡ some (x, rest)
first_byte-trip x rest = refl

sequence_refines_example :
    (Option.map (λ r. r.0) (get_item pickle 3 (extend pickle numbers new)) ≡ get_elem? numbers 3)
    × (len pickle (extend pickle numbers new) ≡ length numbers)
sequence_refines_example = sequence_refines pickle first_byte-trip 2 numbers 3 new_made
