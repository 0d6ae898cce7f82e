-- ===== src/FileTable/Keys.antt =====
-- The maps and the vectors of ids of the file table.
use securefs.Prelude.{
  ℕ, ◌≡◌, ◌≤◌, refl, subst, ◌∙◌, inl, inr, false, List, [], ◌∷◌, ◌++◌, length, take, drop, All,
  same, same_sym, same→eq, Bool-cases, zero, suc, arith,
}
use securefs.Prelude.Predicates.{All-drop, All-append, All-map, All-map₂}
use securefs.Maps.Find.{find-erase_other}
use securefs.FileTable.{FileId, erase_all, remove}
use securefs.Maps.{find, erase}

module _ {E : Type 0} where
  pub find-erase_all_other :
      (files : List (FileId × E)) (ids : List FileId) (k : FileId)
      → All (λ x. same k x ≡ false) ids
      → find (erase_all files ids) k ≡ find files k
  unfolding erase_all
  find-erase_all_other files [] k h = refl
  find-erase_all_other files (id ∷ ids) k (h, hs) =
      find-erase_all_other (erase files id) ids k hs ∙ find-erase_other files id k h

-- No id twice.
abbrev pub Distinct : List FileId → Type 0
Distinct [] = Unit {0}
Distinct (x ∷ ids) = All (λ y. same y x ≡ false) ids × Distinct ids

pub All-remove :
    (P : FileId → Type 0) (id : FileId) (ids : List FileId) → All P ids → All P (remove id ids)
unfolding remove
All-remove P id [] h = tt
All-remove P id (x ∷ ids) (p, h) = elim (Bool-cases (same x id)) [
  | inl here ↦ rw here h
  | inr other ↦ rw other (p, All-remove P id ids h)
]

pub Distinct-remove :
    (id : FileId) (ids : List FileId)
    → Distinct ids
    → Distinct (remove id ids) × All (λ y. same y id ≡ false) (remove id ids)
unfolding remove
Distinct-remove id [] d = (tt, tt)
Distinct-remove id (x ∷ ids) (a, d) = elim (Bool-cases (same x id)) [
  | inl here ↦ rw here (d, subst (λ z. All (λ y. same y z ≡ false) ids) (same→eq x id here) a)
  | inr other ↦
      let (d', a') = Distinct-remove id ids d in rw other ((All-remove _ id ids a, d'), (other, a'))
]

pub Distinct-drop : (n : ℕ) (ids : List FileId) → Distinct ids → Distinct (drop n ids)
Distinct-drop zero ids d = d
Distinct-drop (suc n) [] d = d
Distinct-drop (suc n) (x ∷ ids) (a, d) = Distinct-drop n ids d

-- The ids that are dropped are apart from those that are left.
pub apart-take-drop :
    (n : ℕ) (ids : List FileId)
    → Distinct ids
    → All (λ y. All (λ x. same y x ≡ false) (take n ids)) (drop n ids)
apart-take-drop zero ids d = All-map ids (λ _ _. tt) (all_unit ids)
  where
    all_unit : (ids : List FileId) → All (λ _. Unit {0}) ids
    all_unit [] = tt
    all_unit (x ∷ ids) = (tt, all_unit ids)
apart-take-drop (suc n) [] d = tt
apart-take-drop (suc n) (x ∷ ids) (a, d) =
    All-map₂ (drop n ids) (λ y p q. (p, q)) (All-drop _ n ids a) (apart-take-drop n ids d)

pub Distinct-append :
    (ids : List FileId) (id : FileId)
    → Distinct ids
    → All (λ y. same y id ≡ false) ids
    → Distinct (ids ++ (id ∷ []))
Distinct-append [] id d a = (tt, tt)
Distinct-append (x ∷ ids) id (b, d) (p, a) =
    (All-append _ ids (id ∷ []) b (same_sym id x ∙ p, tt), Distinct-append ids id d a)

pub length-remove : (id : FileId) (ids : List FileId) → length (remove id ids) ≤ length ids
unfolding remove
length-remove id [] = omega arith
length-remove id (x ∷ ids) = elim (Bool-cases (same x id)) [
  | inl here ↦ rw here (omega arith)
  | inr other ↦ rw other (omega (arith, length-remove id ids))
]
