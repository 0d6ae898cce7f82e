-- ===== src/Lite/Names/Translate.antt =====
-- translate_path, and what decrypt_path and encrypt_path make of parts that are too short or too long.
use mathlib.Core.List.{append-nil}
use securefs.Prelude.{
  ℕ, suc, ◌+◌, ◌-◌, ◌^◌, u64, take, drop, take-drop, length-take, length-drop, ltb, ltb→lt, ltb→ge,
  ◌≤◌, ◌<◌, ◌≡◌, refl, ap, sym, ◌∙◌, Bool, true, false, List, [], ◌∷◌, ◌++◌, length, leb, ◌==◌,
  same, length-append, same→eq, inl, inr, Bool-cases, lt→ltb, gt→leb, leb→le, leb→gt, pos→==, All,
  arith,
}
use securefs.Prelude.Predicates.{All-append, All-map}
use securefs.Error.{ok-injective, Result, ok, throw, undefined, stuck, vfs, enametoolong}
use securefs.Text.CStrings.{c_string-whole}
use securefs.Text.Base32.{base32_decode}
use securefs.Crypto.Siv.{SivCiphers, SivLaws, siv_size, decrypt_and_verify}
use securefs.Lite.Names.{
  slash, buffer_size, bytes_at, encrypt_part, encrypt_from, encrypt_path, open_part, decrypt_part,
  decrypt_from, decrypt_path, transform, translate_path,
}
use securefs.Lite.Names.RoundTrip.{
  FitsFrom, decrypt_part-encrypt_part, decrypt_path-encrypt_path, encrypt_path_lem,
  decrypt_from-append, open_part_lem,
}

-- A part that fits is not too long.
pub FitsFrom-part :
    (slice part : List ℕ)
    → All (λ x. (x == slash) ≡ false) part
    → FitsFrom slice part
    → length slice + length part ≤ 2000
unfolding FitsFrom
FitsFrom-part slice [] plain fits = omega arith
FitsFrom-part slice (x ∷ part) (p, plain) fits = omega (
  arith,
  FitsFrom-part (slice ++ (x ∷ [])) part plain (rw p at fits),
  length-append slice (x ∷ []),
)

-- Whether a result is the undefined one, of a read outside of a buffer.
abbrev pub is_undefined {ℓ} : {A : Type ℓ} → Result A → Bool
is_undefined (ok a) = false
is_undefined (throw e) = false
is_undefined undefined = true
is_undefined stuck = false

module _ (c : SivCiphers) (laws : SivLaws c) where
  too_long_part :
      (slice : List ℕ) → 2000 < length slice → encrypt_part c slice ≡ throw (vfs enametoolong)
  unfolding encrypt_part
  too_long_part slice h =
      rw (lt→ltb 0 (length slice) (omega arith), gt→leb (length slice) 2000 h) refl

  encrypt_from-too_long :
      (slice path : List ℕ)
      → ¬ FitsFrom slice path
      → All (λ x. x < 256) slice
      → All (λ x. x < 256) path
      → encrypt_from c slice path ≡ throw (vfs enametoolong)
  unfolding encrypt_from FitsFrom
  encrypt_from-too_long slice [] long small b = elim (Bool-cases (leb (length slice) 2000)) [
    | inl short ↦ absurd (long (leb→le _ _ short))
    | inr e ↦ too_long_part slice (leb→gt _ _ e)
  ]
  encrypt_from-too_long slice (x ∷ path) long small (hx, b) = elim (Bool-cases (x == slash)) [
    | inl ends ↦ rw ends (elim (Bool-cases (leb (length slice) 2000)) [
      | inl short ↦
          let (part, encrypted, decrypted, plain, codes) =
            decrypt_part-encrypt_part c laws slice (leb→le _ _ short) small in
          rw
            (
              encrypted,
              encrypt_from-too_long [] path (λ f. long (rw ends (leb→le _ _ short, f))) tt b,
            )
            refl
      | inr e ↦ rw (too_long_part slice (leb→gt _ _ e)) refl
    ])
    | inr more ↦ rw more (
        encrypt_from-too_long (slice ++ (x ∷ [])) path (λ f. long (rw more f))
          (All-append (λ y. y < 256) slice (x ∷ []) small (hx, tt)) b)
  ]

  -- A path with a part of more than 2000 bytes is refused with ENAMETOOLONG.
  pub encrypt_path-too_long :
      (path : List ℕ)
      → ¬ FitsFrom [] path
      → All (λ x. x < 256) path
      → encrypt_path c path ≡ throw (vfs enametoolong)
  unfolding encrypt_path
  encrypt_path-too_long path long small = encrypt_from-too_long [] path long tt small

  root_decrypted : decrypt_path c (slash ∷ []) ≡ ok (slash ∷ [])
  unfolding decrypt_path decrypt_from decrypt_part
  root_decrypted = refl

  encrypt_path-slash :
      (path str : List ℕ)
      → encrypt_path c path ≡ ok str
      → encrypt_path c (slash ∷ path) ≡ ok (slash ∷ str)
  unfolding encrypt_path encrypt_from encrypt_part
  encrypt_path-slash path str e = rw e refl

  -- The target of a symbolic link, which keeps its leading '/', is read back by decrypt_path, and has
  -- no code 0.
  pub decrypt_path-translate_path :
      (utf8proc_map : Bool → Bool → List ℕ → Result (List ℕ)) (path : List ℕ)
      → 0 < length path
      → FitsFrom [] path
      → All (λ x. x < 256) path
      → All (λ x. 0 < x) path
      → (str : List ℕ) × (translate_path c utf8proc_map false false path true ≡ ok str)
        × (decrypt_path c str ≡ ok path)
        × All (λ x. 0 < x) str
  unfolding translate_path transform
  decrypt_path-translate_path utf8proc_map path some_codes fits small codes =
      elim (Bool-cases (same path (slash ∷ []))) [
        | inl root ↦ (
          slash ∷ [],
          rw (pos→== (length path) some_codes, root) refl,
          root_decrypted ∙ ap ok (sym (same→eq path (slash ∷ []) root)),
          (omega arith, tt),
        )
        | inr other ↦
            let (str, encrypted, decrypted, nonzero) = encrypt_path_lem c laws path fits small in
            (
              str,
              rw (pos→== (length path) some_codes, other, c_string-whole path codes, encrypted)
                  refl,
              decrypted,
              nonzero,
            )
      ]

  -- An absolute path other than "/", which transform maps to an absolute path of bytes, none of them 0,
  -- in parts of at most 2000, is made relative to the root of the folder: what translate_path gives
  -- decrypts to the transformed path without its leading '/'.
  pub decrypt_path-translate_path_absolute :
      (utf8proc_map : Bool → Bool → List ℕ → Result (List ℕ)) (case_fold nfc : Bool)
      (path transformed : List ℕ)
      → 0 < length path
      → transform c utf8proc_map (slash ∷ path) case_fold nfc ≡ ok (slash ∷ transformed)
      → FitsFrom [] transformed
      → All (λ x. (0 < x) × (x < 256)) transformed
      → (str : List ℕ) × (translate_path c utf8proc_map case_fold nfc (slash ∷ path) false ≡ ok str)
        × (decrypt_path c str ≡ ok transformed)
  unfolding translate_path same
  decrypt_path-translate_path_absolute utf8proc_map case_fold nfc [] transformed some_codes mapped
        fits bytes =
      absurd (omega arith)
  decrypt_path-translate_path_absolute utf8proc_map case_fold nfc (x ∷ path) transformed some_codes
        mapped fits bytes =
      let (str, encrypted, decrypted) =
        decrypt_path-encrypt_path c laws transformed fits
          (All-map transformed (λ x p. p.1) bytes) in
      (
        str,
        rw
            (
              pos→== (suc (suc (length path))) (omega arith),
              mapped,
              c_string-whole (slash ∷ transformed)
                  (omega arith, All-map transformed (λ x p. p.0) bytes),
              encrypt_path-slash transformed str encrypted,
            )
            refl,
        decrypted,
      )

  -- Two absolute paths other than "/", which transform maps to absolute paths of bytes, none of them 0,
  -- in parts of at most 2000, and of which translate_path makes the same string, are mapped to the same
  -- path by transform.
  pub translate_path_injective :
      (utf8proc_map : Bool → Bool → List ℕ → Result (List ℕ)) (case_fold nfc : Bool)
      (path path' transformed transformed' str : List ℕ)
      → 0 < length path
      → 0 < length path'
      → transform c utf8proc_map (slash ∷ path) case_fold nfc ≡ ok (slash ∷ transformed)
      → transform c utf8proc_map (slash ∷ path') case_fold nfc ≡ ok (slash ∷ transformed')
      → FitsFrom [] transformed
      → FitsFrom [] transformed'
      → All (λ x. (0 < x) × (x < 256)) transformed
      → All (λ x. (0 < x) × (x < 256)) transformed'
      → translate_path c utf8proc_map case_fold nfc (slash ∷ path) false ≡ ok str
      → translate_path c utf8proc_map case_fold nfc (slash ∷ path') false ≡ ok str
      → transformed ≡ transformed'
  translate_path_injective utf8proc_map case_fold nfc path path' transformed transformed' str
        some_codes some_codes' mapped mapped' fits fits' bytes bytes' e e' =
      let (s, t, d) =
        decrypt_path-translate_path_absolute utf8proc_map case_fold nfc path transformed some_codes
          mapped fits bytes in
      let (s', t', d') =
        decrypt_path-translate_path_absolute utf8proc_map case_fold nfc path' transformed'
          some_codes' mapped' fits' bytes' in
      ok-injective (sym d ∙ ap (decrypt_path c) (ok-injective (sym t ∙ e ∙ sym e' ∙ t')) ∙ d')

  -- A part with an IV is read within its bounds, whatever the verification says.
  open_part_long :
      (decoded : List ℕ)
      → siv_size ≤ length decoded
      → length decoded < 2032
      → is_undefined (open_part c decoded) ≡ false
  open_part_long decoded long room =
      let opened = decrypt_and_verify c (drop siv_size decoded) [] (take siv_size decoded) in
      ap (λ l. is_undefined (open_part c l)) (sym (take-drop siv_size decoded))
      ∙ ap is_undefined (
          open_part_lem c laws (take siv_size decoded) (drop siv_size decoded)
            (omega (arith, length-take siv_size decoded))
            (omega (arith, length-drop siv_size decoded)))
      ∙ elim (Bool-cases opened.1) [ inl right ↦ rw right refl | inr wrong ↦ rw wrong refl ]

  open_part_short : (decoded : List ℕ) → length decoded < siv_size → open_part c decoded ≡ undefined
  unfolding open_part bytes_at
  open_part_short decoded short =
      let outside : length decoded < siv_size + u64 (length decoded + (2 ^ 64 - siv_size)) =
        omega arith in
      rw (gt→leb (siv_size + u64 (length decoded + (2 ^ 64 - siv_size))) (length decoded) outside)
        refl

  -- decrypt_path of one part that base32_decode takes, to fewer than 2032 bytes, reads outside of the
  -- decoded bytes if these are fewer than the 16 of an IV, and not otherwise, be the part authentic or
  -- not.
  pub is_undefined-decrypt_path :
      (slice decoded : List ℕ)
      → 0 < length slice
      → All (λ x. (x == slash) ≡ false) slice
      → base32_decode slice ≡ ok decoded
      → length decoded < buffer_size
      → is_undefined (decrypt_path c slice) ≡ ltb (length decoded) siv_size
  unfolding decrypt_path decrypt_from decrypt_part
  is_undefined-decrypt_path slice decoded some_codes plain e room =
      ap (λ l. is_undefined (decrypt_from c [] l)) (sym (append-nil slice))
      ∙ ap is_undefined (decrypt_from-append c slice [] [] plain)
      ∙ rw (lt→ltb 0 (length slice) some_codes, e, lt→ltb (length decoded) 2032 room)
          (elim (Bool-cases (ltb (length decoded) siv_size)) [
            | inl short ↦ rw (short, open_part_short decoded (ltb→lt _ _ short)) refl
            | inr long ↦ open_part_long decoded (ltb→ge _ _ long) room ∙ sym long
          ])
