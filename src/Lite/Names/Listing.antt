-- ===== src/Lite/Names/Listing.antt =====
-- The entries that a directory of the lite format lists.
use mathlib.Core.Option.{some-injective}
use securefs.Prelude.{
  none-ne-some, Option-cases, take-drop, ℕ, ◌≤◌, ◌<◌, ◌≡◌, ◌⊎◌, refl, ap, sym, subst, ◌∙◌, true,
  false, List, [], ◌∷◌, ◌++◌, some, length, take, drop, leb, ◌==◌, same, inl, inr, Bool-cases,
  lt→ltb, le→leb, gt→leb, pos→==, All, length-append, take-append_at, drop-append_at, arith,
}
use securefs.Prelude.Predicates.{All-append}
use securefs.Error.{Result, ok, throw, undefined, stuck}
use securefs.Text.Base32.{base32_decode}
use securefs.Text.Base32.RoundTrip.{IsLetter, base32_decode-base32_encode}
use securefs.Crypto.Siv.{
  SivCiphers, SivLaws, siv_size, encrypt_and_authenticate, decrypt_and_verify,
}
use securefs.Crypto.Siv.Verify.{
  decrypt_and_verify-encrypt_and_authenticate, encrypt_and_authenticate-decrypt_and_verify,
  encrypted-bytes,
}
use securefs.Lite.Stream.{calculate_real_size}
use securefs.Lite.Names.{dot, is_dots, encrypt_part, open_name, decode_name, next}

no_dots :
    (part : List ℕ)
    → All IsLetter part
    → (is_dots part ≡ false) × (same (take 1 part) (dot ∷ []) ≡ false)
unfolding same
no_dots [] a = (refl, refl)
no_dots (x ∷ part) ((p, q, r), a) = (rw q refl, rw q refl)

module _ (c : SivCiphers) (laws : SivLaws c) (block_size iv_size : ℕ) where
  next-some :
      (u : List ℕ × ℕ) (left : List (List ℕ × ℕ)) (entry : List ℕ × ℕ)
      → decode_name c block_size iv_size u.0 u.1 ≡ some entry
      → next c block_size iv_size (u ∷ left) ≡ some (entry, left)
  unfolding next
  next-some u left entry e = rw (e, next) refl

  -- The name of a file comes back from the name below, with the size of what it stores.
  pub next-encrypt_part :
      (name : List ℕ) (size : ℕ) (left : List (List ℕ × ℕ))
      → 0 < length name
      → length name ≤ 2000
      → All (λ x. x < 256) name
      → (part : List ℕ) × (encrypt_part c name ≡ ok part)
        × (next c block_size iv_size ((part, size) ∷ left)
            ≡ some ((name, calculate_real_size size block_size iv_size), left))
  unfolding encrypt_part decode_name open_name
  next-encrypt_part name size left some_codes h small =
      let sealed = encrypt_and_authenticate c name [] in
      let facts = encrypted-bytes c laws name [] small in
      let (part, encoded, decoded, long, plain) =
        base32_decode-base32_encode (sealed.1 ++ sealed.0)
          (All-append (λ y. y < 256) sealed.1 sealed.0 facts.3 facts.2) in
      let size_sum = length-append sealed.1 sealed.0 in
      (
        part,
        rw (lt→ltb 0 (length name) some_codes, le→leb (length name) 2000 h) encoded,
        next-some (part, size) left _
            (rw
              (
                pos→== (length part) (omega arith),
                (no_dots part plain).0,
                (no_dots part plain).1,
                decoded,
                gt→leb (length (sealed.1 ++ sealed.0)) 16 (omega arith),
                take-append_at 16 sealed.1 sealed.0 facts.1,
                drop-append_at 16 sealed.1 sealed.0 facts.1,
                decrypt_and_verify-encrypt_and_authenticate c laws name [],
              )
              refl),
      )

  -- What the name below is to an entry that is listed: itself, if it is made of dots, or the text of
  -- the encryption of the name, with its IV.
  abbrev pub Lists : List ℕ → List ℕ → Type 0
  Lists under_name name =
      ((is_dots name ≡ true) × (name ≡ under_name))
      ⊎ (base32_decode under_name
          ≡ ok ((encrypt_and_authenticate c name []).1 ++ (encrypt_and_authenticate c name []).0))

  open_name_lem :
      (under_name : List ℕ) (st_size : ℕ) (entry : List ℕ × ℕ) (r : Result (List ℕ))
      → base32_decode under_name ≡ r
      → open_name c block_size iv_size st_size r ≡ some entry
      → Lists under_name entry.0
  unfolding open_name
  open_name_lem under_name st_size entry (ok decoded) d e =
      elim (Bool-cases (leb (length decoded) siv_size)) [
        | inl short ↦ none-ne-some (rw short at e)
        | inr long ↦
            elim (Bool-cases
              (decrypt_and_verify c (drop siv_size decoded) [] (take siv_size decoded)).1) [
                | inl verified ↦ inr (
                    let opened = some-injective _ entry (rw (long, verified) at e) in
                    let sealed =
                      encrypt_and_authenticate-decrypt_and_verify c laws (drop siv_size decoded) []
                        (take siv_size decoded) verified in
                    d
                    ∙ ap ok (
                        sym (take-drop siv_size decoded)
                        ∙ ap (λ (s : List ℕ × List ℕ). s.1 ++ s.0) (sym sealed)
                        ∙ ap
                            (λ (o : List ℕ × ℕ).
                              (encrypt_and_authenticate c o.0 []).1
                              ++ (encrypt_and_authenticate c o.0 []).0)
                            opened))
                | inr refused ↦ none-ne-some (rw (long, refused) at e)
              ]
      ]
  open_name_lem under_name st_size entry (throw x) d e = cc
  open_name_lem under_name st_size entry undefined d e = cc
  open_name_lem under_name st_size entry stuck d e = cc

  decode_name_lem :
      (under_name : List ℕ) (st_size : ℕ) (entry : List ℕ × ℕ)
      → decode_name c block_size iv_size under_name st_size ≡ some entry
      → Lists under_name entry.0
  unfolding decode_name
  decode_name_lem under_name st_size entry e = elim (Bool-cases (length under_name == 0)) [
    | inl empty ↦ none-ne-some (rw empty at e)
    | inr some_codes ↦ elim (Bool-cases (is_dots under_name)) [
      | inl dots ↦
          let shown = some-injective (under_name, st_size) entry (rw (some_codes, dots) at e) in
          inl (
            subst (λ (o : List ℕ × ℕ). is_dots o.0 ≡ true) shown dots,
            sym (ap (λ (o : List ℕ × ℕ). o.0) shown),
          )
      | inr name ↦ elim (Bool-cases (same (take 1 under_name) (dot ∷ []))) [
        | inl hidden ↦ none-ne-some (rw (some_codes, name, hidden) at e)
        | inr visible ↦
            open_name_lem under_name st_size entry (base32_decode under_name) refl
              (rw (some_codes, name, visible) at e)
      ]
    ]
  ]

  -- Every entry that is listed stands for a name below, and is authentic; the names before it are skipped.
  pub next_lem :
      (under left : List (List ℕ × ℕ)) (entry : List ℕ × ℕ)
      → next c block_size iv_size under ≡ some (entry, left)
      → (skipped : List (List ℕ × ℕ)) × (u : List ℕ × ℕ) × (under ≡ skipped ++ (u ∷ left))
        × Lists u.0 entry.0
  unfolding next
  next_lem [] left entry e = cc
  next_lem (u ∷ under) left entry e =
      elim (Option-cases (decode_name c block_size iv_size u.0 u.1)) [
        | inl skipped_name ↦
            let (skipped, v, split, lists) =
              next_lem under left entry (rw (skipped_name, next) at e) in
            (u ∷ skipped, v, ap (λ l. u ∷ l) split, lists)
        | inr (shown, decoded) ↦
            let listed = some-injective (shown, under) (entry, left) (rw (decoded, next) at e) in
            (
              [],
              u,
              ap (λ l. u ∷ l) (ap (λ (r : (List ℕ × ℕ) × List (List ℕ × ℕ)). r.1) listed),
              subst (λ (o : List ℕ × ℕ). Lists u.0 o.0)
                  (ap (λ (r : (List ℕ × ℕ) × List (List ℕ × ℕ)). r.0) listed)
                  (decode_name_lem u.0 u.1 shown decoded),
            )
      ]
