-- ===== src/Text/Words.antt =====
-- starts_with and split of sources/mystring.cpp, and independent descriptions of what they return.
use securefs.Prelude.{
  ℕ, suc, inl, inr, lt→ltb, ◌<◌, ◌≡◌, refl, ap, sym, ◌∙◌, false, List, [], ◌∷◌, ◌++◌, length, take,
  All, ltb, same, ◌==◌, if◌then◌else◌, Bool-cases, arith,
}
use mathlib.Core.List.{append_assoc, append-nil}
use securefs.Text.{c_string, prefix_matches, starts_with, split_from, split}

extend : ℕ → List (List ℕ) → List (List ℕ)
extend c [] = (c ∷ []) ∷ []
extend c (piece ∷ rest) = (c ∷ piece) ∷ rest

-- The pieces of a string around its separators, of which there is one more than separators; pieces
-- between adjacent separators, and at the ends, are empty.
unfoldable pub pieces : List ℕ → ℕ → List (List ℕ)
unfolding extend
pieces [] separator = [] ∷ []
pieces (c ∷ str) separator =
    let rest = pieces str separator in if c == separator then [] ∷ rest else extend c rest

-- The pieces that are not empty.
unfoldable pub nonempty : List (List ℕ) → List (List ℕ)
nonempty [] = []
nonempty (piece ∷ rest) = if ltb 0 (length piece) then piece ∷ nonempty rest else nonempty rest

-- What a word of split is: not empty, and without the separator and the code 0.
abbrev pub IsWord : ℕ → List ℕ → Type 0
IsWord separator word =
    (0 < length word) × All (λ c. ((c == 0) ≡ false) × ((c == separator) ≡ false)) word

-- starts_with tests whether the codes at the start, as many as the prefix has, are the prefix.
pub starts_with_lem :
    (str prefix : List ℕ) → starts_with str prefix ≡ same (take (length prefix) str) prefix
unfolding starts_with prefix_matches same
starts_with_lem str [] = ground arith
starts_with_lem [] (p ∷ prefix) = ground arith
starts_with_lem (c ∷ str) (p ∷ prefix) = ground (arith, starts_with_lem str prefix)

-- The pieces behind codes without a separator: they lengthen the first piece.
prepend : List ℕ → List (List ℕ) → List (List ℕ)
prepend word [] = word ∷ []
prepend word (piece ∷ rest) = (word ++ piece) ∷ rest

prepend-extend_nil : (c : ℕ) (rest : List (List ℕ)) → prepend [] (extend c rest) ≡ extend c rest
unfolding prepend extend
prepend-extend_nil c [] = refl
prepend-extend_nil c (piece ∷ rest) = refl

prepend-nil :
    (separator : ℕ) (str : List ℕ) → prepend [] (pieces str separator) ≡ pieces str separator
unfolding prepend pieces extend
prepend-nil separator [] = refl
prepend-nil separator (c ∷ str) = elim (Bool-cases (c == separator)) [
  | inl ends ↦ rw ends refl
  | inr goes_on ↦ rw goes_on (prepend-extend_nil c (pieces str separator))
]

prepend-extend :
    (c : ℕ) (word : List ℕ) (rest : List (List ℕ))
    → prepend (word ++ (c ∷ [])) rest ≡ prepend word (extend c rest)
unfolding prepend extend
prepend-extend c word [] = refl
prepend-extend c word (piece ∷ rest) = ap (λ p. p ∷ rest) (append_assoc word (c ∷ []) piece)

nonempty-split_from :
    (word str : List ℕ) (separator : ℕ)
    → split_from word str separator ≡ nonempty (prepend word (pieces (c_string str) separator))
unfolding split_from nonempty prepend pieces c_string
nonempty-split_from word [] separator = ap (λ w. nonempty (w ∷ [])) (sym (append-nil word))
nonempty-split_from word (c ∷ str) separator = elim (Bool-cases (c == 0)) [
  | inl zero_code ↦ rw zero_code (ap (λ w. nonempty (w ∷ [])) (sym (append-nil word)))
  | inr code ↦ rw code (elim (Bool-cases (c == separator)) [
    | inl ends ↦
        rw
          (
            ends,
            append-nil word,
            nonempty-split_from [] str separator,
            prepend-nil separator (c_string str),
          )
          refl
    | inr goes_on ↦ rw goes_on (
        nonempty-split_from (word ++ (c ∷ [])) str separator
        ∙ ap nonempty (prepend-extend c word (pieces (c_string str) separator)))
  ])
]

-- split returns the pieces of the string, up to its code 0, around its separators, in their order and
-- without the empty ones.
pub split-pieces :
    (str : List ℕ) (separator : ℕ)
    → split str separator ≡ nonempty (pieces (c_string str) separator)
unfolding split
split-pieces str separator =
    nonempty-split_from [] str separator ∙ ap nonempty (prepend-nil separator (c_string str))

push-IsWord :
    (separator : ℕ) (word : List ℕ) (words : List (List ℕ))
    → All (λ c. ((c == 0) ≡ false) × ((c == separator) ≡ false)) word
    → All (IsWord separator) words
    → All (IsWord separator) (if ltb 0 (length word) then word ∷ words else words)
push-IsWord separator [] words w ws = ws
push-IsWord separator (c ∷ word) words w ws =
    rw (lt→ltb 0 (suc (length word)) (omega arith)) ((omega arith, w), ws)

All-snoc : (P : ℕ → Type 0) (word : List ℕ) (c : ℕ) → All P word → P c → All P (word ++ (c ∷ []))
All-snoc P [] c w p = (p, tt)
All-snoc P (x ∷ word) c (q, w) p = (q, All-snoc P word c w p)

split_from-IsWord :
    (word str : List ℕ) (separator : ℕ)
    → All (λ c. ((c == 0) ≡ false) × ((c == separator) ≡ false)) word
    → All (IsWord separator) (split_from word str separator)
unfolding split_from
split_from-IsWord word [] separator w = push-IsWord separator word [] w tt
split_from-IsWord word (c ∷ str) separator w = elim (Bool-cases (c == 0)) [
  | inl zero_code ↦ rw zero_code (push-IsWord separator word [] w tt)
  | inr code ↦ rw code (elim (Bool-cases (c == separator)) [
    | inl ends ↦ rw ends (
        push-IsWord separator word (split_from [] str separator) w
          (split_from-IsWord [] str separator tt))
    | inr goes_on ↦
        rw goes_on
          (split_from-IsWord (word ++ (c ∷ [])) str separator (All-snoc _ word c w (code, goes_on)))
  ])
]

-- Every word of split has a code, and none of its codes is the separator or 0.
pub split-IsWord : (str : List ℕ) (separator : ℕ) → All (IsWord separator) (split str separator)
unfolding split
split-IsWord str separator = split_from-IsWord [] str separator tt
