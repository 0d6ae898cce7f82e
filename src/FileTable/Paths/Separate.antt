-- ===== src/FileTable/Paths/Separate.antt =====
-- The names of the files of different ids.
use mathlib.Core.List.{append_cancel_right}
use securefs.Prelude.{
  take-drop, ℕ, ◌<◌, ◌≡◌, ◌≢◌, refl, ap, ap₂, sym, ◌∙◌, List, [], ◌∷◌, ◌++◌, length, take, drop,
  All, length-append, length-take, length-drop, take-append_at, drop-append_at, arith,
}
use securefs.Error.{Result, ok}
use securefs.Text.{hexify, parse_digits}
use securefs.Text.Hex.{length-hexify, parse_digits-hexify}
use securefs.FileTable.{FileId}
use securefs.Prelude.Predicates.{All-take, All-drop}
use securefs.FileTable.Paths.{
  slash, meta_suffix, calculate_paths_version1, calculate_paths_version2,
}

-- The 32 bytes of an id.
abbrev pub IsId : FileId → Type 0
IsId id = (length id ≡ 32) × All (λ x. x < 256) id

bytes_of : List ℕ → Result (List ℕ) → List ℕ
bytes_of d (ok bytes) = bytes
bytes_of d _ = d

hexify_inj :
    (xs ys : List ℕ)
    → All (λ x. x < 256) xs
    → All (λ x. x < 256) ys
    → hexify xs ≡ hexify ys
    → xs ≡ ys
unfolding bytes_of
hexify_inj xs ys bx by e =
    ap (bytes_of [])
      (sym (parse_digits-hexify xs bx) ∙ ap parse_digits e ∙ parse_digits-hexify ys by)

joined_inj :
    (d d' s s' : List ℕ)
    → length d ≡ length d'
    → d ++ (slash ∷ s) ≡ d' ++ (slash ∷ s')
    → (d ≡ d') × (s ≡ s')
joined_inj d d' s s' h e = (
  sym (take-append_at (length d) d (slash ∷ s) refl)
      ∙ ap (take (length d)) e
      ∙ take-append_at (length d) d' (slash ∷ s') (sym h),
  ap (drop 1) (
      sym (drop-append_at (length d) d (slash ∷ s) refl)
      ∙ ap (drop (length d)) e
      ∙ drop-append_at (length d) d' (slash ∷ s') (sym h)),
)

parts_eq : (n : ℕ) (xs ys : List ℕ) → take n xs ≡ take n ys → drop n xs ≡ drop n ys → xs ≡ ys
parts_eq n xs ys first last = sym (take-drop n xs) ∙ ap₂ (λ a b. a ++ b) first last ∙ take-drop n ys

drop-drop : (id : FileId) → drop 5 (drop 1 id) ≡ drop 6 id
drop-drop [] = refl
drop-drop (x ∷ id) = refl

length-hexify-take :
    (n : ℕ) (id id' : FileId)
    → length id ≡ length id'
    → length (hexify (take n id)) ≡ length (hexify (take n id'))
length-hexify-take n id id' h = omega (
  arith,
  length-hexify (take n id),
  length-hexify (take n id'),
  length-take n id,
  length-take n id',
  h,
)

full_inj_one :
    (id id' : FileId)
    → IsId id
    → IsId id'
    → (calculate_paths_version1 id).full_filename ≡ (calculate_paths_version1 id').full_filename
    → id ≡ id'
unfolding calculate_paths_version1
full_inj_one id id' (n, b) (n', b') e =
    let same_length = n ∙ sym n' in
    let same_first = length-hexify-take 1 id id' same_length in
    let same_second =
      length-hexify-take 5 (drop 1 id) (drop 1 id')
        (omega (arith, length-drop 1 id, length-drop 1 id', same_length)) in
    let halves =
      joined_inj (hexify (take 1 id) ++ (slash ∷ hexify (take 5 (drop 1 id))))
        (hexify (take 1 id') ++ (slash ∷ hexify (take 5 (drop 1 id')))) (hexify (drop 6 id))
        (hexify (drop 6 id'))
        (omega (
          arith,
          length-append (hexify (take 1 id)) (slash ∷ hexify (take 5 (drop 1 id))),
          length-append (hexify (take 1 id')) (slash ∷ hexify (take 5 (drop 1 id'))),
          same_first,
          same_second,
        ))
        e in
    let dirs =
      joined_inj (hexify (take 1 id)) (hexify (take 1 id')) (hexify (take 5 (drop 1 id)))
        (hexify (take 5 (drop 1 id'))) same_first halves.0 in
    parts_eq 1 id id'
      (hexify_inj (take 1 id) (take 1 id') (All-take _ 1 id b) (All-take _ 1 id' b') dirs.0)
      (parts_eq 5 (drop 1 id) (drop 1 id')
        (hexify_inj (take 5 (drop 1 id)) (take 5 (drop 1 id'))
          (All-take _ 5 (drop 1 id) (All-drop _ 1 id b))
          (All-take _ 5 (drop 1 id') (All-drop _ 1 id' b')) dirs.1)
        (drop-drop id
          ∙ hexify_inj (drop 6 id) (drop 6 id') (All-drop _ 6 id b) (All-drop _ 6 id' b') halves.1
          ∙ sym (drop-drop id')))

full_inj_two :
    (id id' : FileId)
    → IsId id
    → IsId id'
    → (calculate_paths_version2 id).full_filename ≡ (calculate_paths_version2 id').full_filename
    → id ≡ id'
unfolding calculate_paths_version2
full_inj_two id id' (n, b) (n', b') e =
    let halves =
      joined_inj (hexify (take 1 id)) (hexify (take 1 id')) (hexify (drop 1 id))
        (hexify (drop 1 id')) (length-hexify-take 1 id id' (n ∙ sym n')) e in
    parts_eq 1 id id'
      (hexify_inj (take 1 id) (take 1 id') (All-take _ 1 id b) (All-take _ 1 id' b') halves.0)
      (hexify_inj (drop 1 id) (drop 1 id') (All-drop _ 1 id b) (All-drop _ 1 id' b') halves.1)

length-full_one :
    (id : FileId) → length id ≡ 32 → length (calculate_paths_version1 id).full_filename ≡ 66
unfolding calculate_paths_version1
length-full_one id n = omega (
  arith,
  length-append (hexify (take 1 id) ++ (slash ∷ hexify (take 5 (drop 1 id))))
      (slash ∷ hexify (drop 6 id)),
  length-append (hexify (take 1 id)) (slash ∷ hexify (take 5 (drop 1 id))),
  length-hexify (take 1 id),
  length-hexify (take 5 (drop 1 id)),
  length-hexify (drop 6 id),
  length-take 1 id,
  length-take 5 (drop 1 id),
  length-drop 1 id,
  length-drop 6 id,
  n,
)

length-full_two :
    (id : FileId) → length id ≡ 32 → length (calculate_paths_version2 id).full_filename ≡ 65
unfolding calculate_paths_version2
length-full_two id n = omega (
  arith,
  length-append (hexify (take 1 id)) (slash ∷ hexify (drop 1 id)),
  length-hexify (take 1 id),
  length-hexify (drop 1 id),
  length-take 1 id,
  length-drop 1 id,
  n,
)

unequal : (name name' : List ℕ) → length name ≡ length name' → name ≢ name' ++ meta_suffix
unequal name name' h e = omega (arith, ap length e, length-append name' meta_suffix, h)

-- In the old layout, different ids have different files and different files of metadata, and no
-- file has the name of a file of metadata, of the same id or of another.
pub paths_version1_lem :
    (id id' : FileId)
    → IsId id
    → IsId id'
    → id ≢ id'
    → (calculate_paths_version1 id).full_filename ≢ (calculate_paths_version1 id').full_filename
      × (calculate_paths_version1 id).meta_filename ≢ (calculate_paths_version1 id').meta_filename
      × (calculate_paths_version1 id).full_filename ≢ (calculate_paths_version1 id').meta_filename
      × (calculate_paths_version1 id).full_filename ≢ (calculate_paths_version1 id).meta_filename
unfolding calculate_paths_version1
paths_version1_lem id id' h h' ne = (
  λ e. ne (full_inj_one id id' h h' e),
  λ e. ne (full_inj_one id id' h h' (append_cancel_right _ _ meta_suffix e)),
  unequal _ _ (length-full_one id h.0 ∙ sym (length-full_one id' h'.0)),
  unequal _ _ refl,
)

-- In the new layout, different ids have different files and different files of metadata, and no
-- file has the name of a file of metadata, of the same id or of another.
pub paths_version2_lem :
    (id id' : FileId)
    → IsId id
    → IsId id'
    → id ≢ id'
    → (calculate_paths_version2 id).full_filename ≢ (calculate_paths_version2 id').full_filename
      × (calculate_paths_version2 id).meta_filename ≢ (calculate_paths_version2 id').meta_filename
      × (calculate_paths_version2 id).full_filename ≢ (calculate_paths_version2 id').meta_filename
      × (calculate_paths_version2 id).full_filename ≢ (calculate_paths_version2 id).meta_filename
unfolding calculate_paths_version2
paths_version2_lem id id' h h' ne = (
  λ e. ne (full_inj_two id id' h h' e),
  λ e. ne (full_inj_two id id' h h' (append_cancel_right _ _ meta_suffix e)),
  unequal _ _ (length-full_two id h.0 ∙ sym (length-full_two id' h'.0)),
  unequal _ _ refl,
)
