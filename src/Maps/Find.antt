-- ===== src/Maps/Find.antt =====
-- What is found after each operation on a map.
use securefs.Prelude.{
  ℕ, ◌≡◌, refl, ap, subst, sym, ◌∙◌, inl, inr, false, List, [], ◌∷◌, ◌++◌, none, some, same,
  same_refl, same_sym, same→eq, if◌then◌else◌, Bool-cases, Option-cases, none-ne-some,
}
use securefs.Maps.{find, erase, assign, emplace}

module _ {E : Type 0} where
  pub find-erase_other :
      (files : List (List ℕ × E)) (id k : List ℕ)
      → same k id ≡ false
      → find (erase files id) k ≡ find files k
  unfolding find erase
  find-erase_other [] id k h = refl
  find-erase_other ((x, e) ∷ files) id k h = elim (Bool-cases (same x id)) [
    | inl here ↦ rw (same→eq x id here, same_refl id, same_sym id k, h) refl
    | inr other ↦
        rw other (ap (λ r. if same x k then some e else r) (find-erase_other files id k h))
  ]

  pub find-assign_other :
      (files : List (List ℕ × E)) (id k : List ℕ) (new : E)
      → same k id ≡ false
      → find (assign files id new) k ≡ find files k
  unfolding find assign
  find-assign_other [] id k new h = refl
  find-assign_other ((x, e) ∷ files) id k new h = elim (Bool-cases (same x id)) [
    | inl here ↦ rw (same→eq x id here, same_refl id, same_sym id k, h) refl
    | inr other ↦
        rw other (ap (λ r. if same x k then some e else r) (find-assign_other files id k new h))
  ]

  pub find-assign :
      (files : List (List ℕ × E)) (id : List ℕ) (old new : E)
      → find files id ≡ some old
      → find (assign files id new) id ≡ some new
  unfolding find assign
  find-assign [] id old new h = cc
  find-assign ((x, e) ∷ files) id old new h = elim (Bool-cases (same x id)) [
    | inl here ↦ rw here (rw here refl)
    | inr other ↦ rw other (
        rw other (
          find-assign files id old new
            (subst (λ b. (if b then some e else find files id) ≡ some old) other h)))
  ]

  pub find-emplace_other :
      (files : List (List ℕ × E)) (id k : List ℕ) (new : E)
      → same k id ≡ false
      → find (emplace files id new) k ≡ find files k
  unfolding find emplace
  find-emplace_other files id k new h = elim (Option-cases (find files id)) [
    | inl fresh ↦ rw (fresh, emplace) (rw (same_sym id k, h) refl)
    | inr (e, present) ↦ rw (present, emplace) refl
  ]

  pub emplace_fresh :
      (map : List (List ℕ × E)) (key : List ℕ) (new : E)
      → find map key ≡ none
      → emplace map key new ≡ (key, new) ∷ map
  unfolding emplace
  emplace_fresh map key new fresh = rw (fresh, emplace) refl

  pub emplace_present :
      (map : List (List ℕ × E)) (key : List ℕ) (old new : E)
      → find map key ≡ some old
      → emplace map key new ≡ map
  unfolding emplace
  emplace_present map key old new present = rw (present, emplace) refl

  -- Two maps one behind the other.
  pub find-append_some :
      (map behind : List (List ℕ × E)) (key : List ℕ) (e : E)
      → find map key ≡ some e
      → find (map ++ behind) key ≡ some e
  unfolding find
  find-append_some [] behind key e h = cc
  find-append_some ((k, v) ∷ map) behind key e h = elim (Bool-cases (same k key)) [
    | inl here ↦ rw here (rw here at h)
    | inr other ↦ rw other (find-append_some map behind key e (rw other at h))
  ]

  pub find-append_none :
      (map behind : List (List ℕ × E)) (key : List ℕ)
      → find map key ≡ none
      → find (map ++ behind) key ≡ find behind key
  unfolding find
  find-append_none [] behind key h = refl
  find-append_none ((k, v) ∷ map) behind key h = elim (Bool-cases (same k key)) [
    | inl here ↦ none-ne-some (sym (rw here at h))
    | inr other ↦ rw other (find-append_none map behind key (rw other at h))
  ]

  -- emplace, in front of other pairs, is a pair between the two.
  pub find-emplace_append :
      (map behind : List (List ℕ × E)) (key : List ℕ) (new : E) (k : List ℕ)
      → find (emplace map key new ++ behind) k ≡ find (map ++ ((key, new) ∷ behind)) k
  unfolding find
  find-emplace_append map behind key new k = elim (Option-cases (find map key)) [
    | inl fresh ↦ rw (emplace_fresh map key new fresh) (elim (Bool-cases (same key k)) [
      | inl asked ↦ rw asked (
          sym (
            find-append_none map ((key, new) ∷ behind) k (rw (sym (same→eq key k asked)) fresh)
            ∙ rw asked refl))
      | inr other ↦ rw other (skip k other)
    ])
    | inr (old, present) ↦
        rw (emplace_present map key old new present) (elim (Bool-cases (same key k)) [
          | inl asked ↦
              let here : find map k ≡ some old = rw (sym (same→eq key k asked)) present in
              find-append_some map behind k old here
              ∙ sym (find-append_some map ((key, new) ∷ behind) k old here)
          | inr other ↦ skip k other
        ])
  ]
    where
      skip :
          (k : List ℕ)
          → same key k ≡ false
          → find (map ++ behind) k ≡ find (map ++ ((key, new) ∷ behind)) k
      skip k other = elim (Option-cases (find map k)) [
        | inl absent ↦
            find-append_none map behind k absent
            ∙ sym (find-append_none map ((key, new) ∷ behind) k absent ∙ rw other refl)
        | inr (e, here) ↦
            find-append_some map behind k e here
            ∙ sym (find-append_some map ((key, new) ∷ behind) k e here)
      ]
