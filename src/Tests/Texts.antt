-- ===== src/Tests/Texts.antt =====
-- Witnesses for numbers and texts of bytes.
use securefs.Prelude.{ℕ, ◌≡◌, List, [], ◌∷◌}
use securefs.Text.{split, c_string}
use securefs.Text.Words.{pieces, nonempty, split-pieces}

-- "/a//b"
abbrev path : List ℕ
path = 47 ∷ 97 ∷ 47 ∷ 47 ∷ 98 ∷ []

split-pieces_example : split path 47 ≡ (97 ∷ []) ∷ (98 ∷ []) ∷ []
unfolding pieces nonempty c_string
split-pieces_example = split-pieces path 47
