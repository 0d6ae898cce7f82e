-- ===== src/Crypto/Siv/Verify.antt =====
-- What AES_SIV decrypts.
use securefs.Prelude.{
  ℕ, ◌<◌, ◌≡◌, refl, ap, true, List, length, All, same_refl, same→eq, leb, Bool-cases, inl, inr,
}
use securefs.Crypto.Siv.{
  SivCiphers, SivLaws, encrypt_and_authenticate, decrypt_and_verify, s2v, clear_bits, siv_size,
}

module _ (c : SivCiphers) (laws : SivLaws c) where
  -- What was encrypted is decrypted to itself and verifies, with the same additional data.
  pub decrypt_and_verify-encrypt_and_authenticate :
      (text additional : List ℕ)
      → let (ciphertext, siv) = encrypt_and_authenticate c text additional in
        decrypt_and_verify c ciphertext additional siv ≡ (text, true)
  unfolding encrypt_and_authenticate decrypt_and_verify
  decrypt_and_verify-encrypt_and_authenticate text additional =
      rw (laws.undoes (clear_bits (s2v c text additional)) text, same_refl (s2v c text additional))
        refl

  -- A text that verifies is the encryption of what is handed over, with its IV.
  pub encrypt_and_authenticate-decrypt_and_verify :
      (text additional siv : List ℕ)
      → (decrypt_and_verify c text additional siv).1 ≡ true
      → encrypt_and_authenticate c (decrypt_and_verify c text additional siv).0 additional
        ≡ (text, siv)
  unfolding encrypt_and_authenticate decrypt_and_verify
  encrypt_and_authenticate-decrypt_and_verify text additional siv verified =
      let e = same→eq siv (s2v c (c.process_data (clear_bits siv) text) additional) verified in
      rw (← e) (ap (λ t. (t, siv)) (laws.undoes (clear_bits siv) text))

  length-s2v : (text additional : List ℕ) → length (s2v c text additional) ≡ siv_size
  unfolding s2v
  length-s2v text additional = elim (Bool-cases (leb siv_size (length text))) [
    | inl long ↦ rw long (laws.length_digest _)
    | inr short ↦ rw short (laws.length_digest _)
  ]

  s2v-bytes : (text additional : List ℕ) → All (λ x. x < 256) (s2v c text additional)
  unfolding s2v
  s2v-bytes text additional = elim (Bool-cases (leb siv_size (length text))) [
    | inl long ↦ rw long (laws.digest_bytes _)
    | inr short ↦ rw short (laws.digest_bytes _)
  ]

  pub encrypted-bytes :
      (text additional : List ℕ)
      → All (λ x. x < 256) text
      → (length (encrypt_and_authenticate c text additional).0 ≡ length text)
        × (length (encrypt_and_authenticate c text additional).1 ≡ siv_size)
        × All (λ x. x < 256) (encrypt_and_authenticate c text additional).0
        × All (λ x. x < 256) (encrypt_and_authenticate c text additional).1
  unfolding encrypt_and_authenticate
  encrypted-bytes text additional small = (
    laws.length_data _ text,
    length-s2v text additional,
    laws.data_bytes _ text small,
    s2v-bytes text additional,
  )
