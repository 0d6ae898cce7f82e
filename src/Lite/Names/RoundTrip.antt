-- ===== src/Lite/Names/RoundTrip.antt =====
-- decrypt_path on what encrypt_path writes.
use mathlib.Core.List.{append_assoc, append-nil}
use securefs.Prelude.{
  ℕ, suc, ◌+◌, ◌-◌, ◌^◌, u64, take, take-all, drop, ◌≤◌, ◌<◌, ◌≡◌, refl, ap, sym, ◌∙◌, false, List,
  [], ◌∷◌, ◌++◌, length, ◌==◌, ==→eq, if◌then◌else◌, inl, inr, Bool-cases, lt→ltb, le→leb, All,
  length-append, take-append_at, drop-append_at, arith,
}
use securefs.Prelude.Predicates.{All-append, All-map}
use securefs.Error.{ok, ◌>>◌, guard, invalid_filename}
use securefs.Text.Base32.RoundTrip.{IsLetter, base32_decode-base32_encode}
use securefs.Crypto.Siv.{
  SivCiphers, SivLaws, siv_size, encrypt_and_authenticate, decrypt_and_verify,
}
use securefs.Crypto.Siv.Verify.{decrypt_and_verify-encrypt_and_authenticate, encrypted-bytes}
use securefs.Lite.Names.{
  slash, bytes_at, encrypt_part, encrypt_from, encrypt_path, open_part, decrypt_part, decrypt_from,
  decrypt_path,
}

-- Every part between separators has at most 2000 bytes; `slice` is the part begun.
unfoldable pub FitsFrom : List ℕ → List ℕ → Type 0
FitsFrom slice [] = length slice ≤ 2000
FitsFrom slice (x ∷ path) =
    if x == slash
    then (length slice ≤ 2000) × FitsFrom [] path
    else FitsFrom (slice ++ (x ∷ [])) path

module _ (c : SivCiphers) where
  -- Codes that are no separators lengthen the slice.
  pub decrypt_from-append :
      (part slice rest : List ℕ)
      → All (λ x. (x == slash) ≡ false) part
      → decrypt_from c slice (part ++ rest) ≡ decrypt_from c (slice ++ part) rest
  unfolding decrypt_from
  decrypt_from-append [] slice rest a = ap (λ l. decrypt_from c l rest) (sym (append-nil slice))
  decrypt_from-append (x ∷ part) slice rest (p, a) =
      rw p (decrypt_from-append part (slice ++ (x ∷ [])) rest a)
      ∙ ap (λ l. decrypt_from c l rest) (append_assoc slice (x ∷ []) part)

module _ (c : SivCiphers) (laws : SivLaws c) where
  -- The bytes of a buffer that are read in bounds.
  bytes_at_lem :
      (buffer : List ℕ) (pos n : ℕ)
      → pos + n ≤ length buffer
      → bytes_at buffer pos n ≡ ok (take n (drop pos buffer))
  unfolding bytes_at
  bytes_at_lem buffer pos n h = rw (le→leb (pos + n) (length buffer) h) refl

  -- A part that has an IV is read in bounds.
  pub open_part_lem :
      (iv text : List ℕ)
      → length iv ≡ siv_size
      → length text < 2032
      → open_part c (iv ++ text) ≡ (
          guard (decrypt_and_verify c text [] iv).1 invalid_filename
          >> ok (decrypt_and_verify c text [] iv).0)
  unfolding open_part
  open_part_lem iv text h short =
      let size = length-append iv text in
      let wrapped : u64 (length (iv ++ text) + (2 ^ 64 - siv_size)) ≡ length text =
        omega (arith, size) in
      rw
        (
          wrapped,
          bytes_at_lem (iv ++ text) 16 (length text) (omega (arith, size)),
          bytes_at_lem (iv ++ text) 0 16 (omega (arith, size)),
          drop-append_at 16 iv text h,
          take-append_at 16 iv text h,
          take-all (length text) text (omega arith),
        )
        refl

  open_part-seal :
      (slice : List ℕ)
      → length slice ≤ 2000
      → length (encrypt_and_authenticate c slice []).1 ≡ siv_size
      → length (encrypt_and_authenticate c slice []).0 ≡ length slice
      → open_part c
          ((encrypt_and_authenticate c slice []).1 ++ (encrypt_and_authenticate c slice []).0)
        ≡ ok slice
  open_part-seal slice fits h h' =
      let sealed = encrypt_and_authenticate c slice [] in
      open_part_lem sealed.1 sealed.0 h (omega arith)
      ∙ rw (decrypt_and_verify-encrypt_and_authenticate c laws slice []) refl

  -- A part that was encrypted, as decrypt_path reads it.
  pub decrypt_part-encrypt_part :
      (slice : List ℕ)
      → length slice ≤ 2000
      → All (λ x. x < 256) slice
      → (part : List ℕ) × (encrypt_part c slice ≡ ok part)
        × (decrypt_part c part ≡ ok slice)
        × All (λ x. (x == slash) ≡ false) part
        × All (λ x. 0 < x) part
  unfolding encrypt_part decrypt_part
  decrypt_part-encrypt_part [] h small = ([], refl, refl, tt, tt)
  decrypt_part-encrypt_part (x ∷ slice) h small =
      let sealed = encrypt_and_authenticate c (x ∷ slice) [] in
      let facts = encrypted-bytes c laws (x ∷ slice) [] small in
      let (part, encoded, decoded, long, plain) =
        base32_decode-base32_encode (sealed.1 ++ sealed.0)
          (All-append (λ y. y < 256) sealed.1 sealed.0 facts.3 facts.2) in
      let size = length-append sealed.1 sealed.0 in
      (
        part,
        rw (lt→ltb 0 (suc (length slice)) (omega arith), le→leb (suc (length slice)) 2000 h)
            encoded,
        rw
            (
              lt→ltb 0 (length part) (omega arith),
              decoded,
              lt→ltb (length (sealed.1 ++ sealed.0)) 2032 (omega arith),
            )
            (open_part-seal (x ∷ slice) h facts.1 facts.0),
        All-map part (λ x (letter : IsLetter x). letter.0) plain,
        All-map part (λ x (letter : IsLetter x). ground (arith, letter.2)) plain,
      )

  decrypt_from-encrypt_from :
      (slice path : List ℕ)
      → FitsFrom slice path
      → All (λ x. x < 256) slice
      → All (λ x. x < 256) path
      → (str : List ℕ) × (encrypt_from c slice path ≡ ok str)
        × (decrypt_from c [] str ≡ ok (slice ++ path))
        × All (λ x. 0 < x) str
  unfolding encrypt_from decrypt_from FitsFrom
  decrypt_from-encrypt_from slice [] fits small b =
      let (part, encrypted, decrypted, plain, codes) = decrypt_part-encrypt_part slice fits small in
      (
        part,
        encrypted,
        ap (λ l. decrypt_from c [] l) (sym (append-nil part))
            ∙ decrypt_from-append c part [] [] plain
            ∙ decrypted
            ∙ ap ok (sym (append-nil slice)),
        codes,
      )
  decrypt_from-encrypt_from slice (x ∷ path) fits small (hx, b) = elim (Bool-cases (x == slash)) [
    | inl ends ↦
        let (fits_here, fits_there) = rw ends at fits in
        let (part, encrypted, decrypted, plain, codes) =
          decrypt_part-encrypt_part slice fits_here small in
        let (str, encrypted', decrypted', codes') =
          decrypt_from-encrypt_from [] path fits_there tt b in
        (
          part ++ (slash ∷ str),
          rw (ends, encrypted, encrypted') refl,
          decrypt_from-append c part [] (slash ∷ str) plain
              ∙ rw (decrypted, decrypted')
                  (ap (λ y. ok (slice ++ (y ∷ path))) (sym (==→eq x slash ends))),
          All-append (λ y. 0 < y) part (slash ∷ str) codes (omega arith, codes'),
        )
    | inr more ↦ rw more (
        let (str, encrypted, decrypted, codes) =
          decrypt_from-encrypt_from (slice ++ (x ∷ [])) path (rw more at fits)
            (All-append (λ y. y < 256) slice (x ∷ []) small (hx, tt)) b in
        (str, encrypted, decrypted ∙ ap ok (append_assoc slice (x ∷ []) path), codes))
  ]

  -- What is written of a path that fits decrypts to it, and has no code 0.
  pub encrypt_path_lem :
      (path : List ℕ)
      → FitsFrom [] path
      → All (λ x. x < 256) path
      → (str : List ℕ) × (encrypt_path c path ≡ ok str)
        × (decrypt_path c str ≡ ok path)
        × All (λ x. 0 < x) str
  unfolding encrypt_path decrypt_path
  encrypt_path_lem path fits small = decrypt_from-encrypt_from [] path fits tt small

  -- A path of bytes, each part of it of at most 2000, is encrypted, and decrypts to itself.
  pub decrypt_path-encrypt_path :
      (path : List ℕ)
      → FitsFrom [] path
      → All (λ x. x < 256) path
      → (str : List ℕ) × (encrypt_path c path ≡ ok str) × (decrypt_path c str ≡ ok path)
  decrypt_path-encrypt_path path fits small =
      let (str, encrypted, decrypted, codes) = encrypt_path_lem path fits small in
      (str, encrypted, decrypted)
