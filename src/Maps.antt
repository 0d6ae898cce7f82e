-- ===== src/Maps.antt =====
-- std::unordered_map from strings of bytes, as the list of its pairs: the operations that are used.
-- The order of the pairs is not specified there; here a new pair comes first.
pub mod Find
use securefs.Prelude.{ℕ, List, [], ◌∷◌, Option, none, some, same, if◌then◌else◌}

module _ {E : Type 0} where
  unfoldable pub find : List (List ℕ × E) → List ℕ → Option E
  find [] key = none
  find ((k, e) ∷ map) key = if same k key then some e else find map key

  unfoldable pub erase : List (List ℕ × E) → List ℕ → List (List ℕ × E)
  erase [] key = []
  erase ((k, e) ∷ map) key = if same k key then map else (k, e) ∷ erase map key

  unfoldable pub assign : List (List ℕ × E) → List ℕ → E → List (List ℕ × E)
  assign [] key new = []
  assign ((k, e) ∷ map) key new = if same k key then (k, new) ∷ map else (k, e) ∷ assign map key new

  unfoldable pub emplace : List (List ℕ × E) → List ℕ → E → List (List ℕ × E)
  emplace map key new = elim (find map key) [ some _ ↦ map | none ↦ (key, new) ∷ map ]
