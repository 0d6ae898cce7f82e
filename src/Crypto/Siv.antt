-- ===== src/Crypto/Siv.antt =====
-- AES_SIV of sources/crypto.h and sources/crypto.cpp, over CMAC and AES in counter mode.
pub mod Verify
pub mod Doubling
use Prim.Native.Nat.{bit_or, bit_xor}
use securefs.Prelude.{
  ℕ, zero, suc, ◌+◌, ◌-◌, ◌*◌, ◌/◌, ◌%◌, ◌<◌, ◌≡◌, Bool, List, [], ◌∷◌, ◌++◌, length, take, drop,
  replicate, All, get_or, leb, ltb, ◌==◌, same, if◌then◌else◌,
}

-- CMAC under one key, and counter mode under the other, from an IV.
pub record SivCiphers : Type 0 where
  pub calculate_digest : List ℕ → List ℕ
  pub process_data : List ℕ → List ℕ → List ℕ

-- The documented behaviour: a digest is a block; counter mode adds a stream of bytes to the text,
-- so that it undoes itself.
pub record SivLaws (c : SivCiphers) : Type 0 where
  pub length_digest : (message : List ℕ) → length (c.calculate_digest message) ≡ 16
  pub digest_bytes : (message : List ℕ) → All (λ x. x < 256) (c.calculate_digest message)
  pub length_data : (iv text : List ℕ) → length (c.process_data iv text) ≡ length text
  pub data_bytes :
      (iv text : List ℕ) → All (λ x. x < 256) text → All (λ x. x < 256) (c.process_data iv text)
  pub undoes : (iv text : List ℕ) → c.process_data iv (c.process_data iv text) ≡ text

-- AES_SIV::IV_SIZE
abbrev pub siv_size : ℕ
siv_size = 16

abbrev pub aes256_siv_zero_block : List ℕ
aes256_siv_zero_block = replicate 16 0

abbrev pub aes256_cmac_rb : List ℕ
aes256_cmac_rb = replicate 15 0 ++ (135 ∷ [])

abbrev pub aes256_iso_pad : ℕ
aes256_iso_pad = 128

unfoldable pub aes256_bitshift_left : List ℕ → List ℕ
aes256_bitshift_left [] = []
aes256_bitshift_left (x ∷ []) = (x * 2 % 256) ∷ []
aes256_bitshift_left (x ∷ y ∷ buf) =
    (bit_or (x * 2) (y / 128 % 2) % 256) ∷ aes256_bitshift_left (y ∷ buf)

-- CryptoPP::xorbuf
unfoldable pub xorbuf : List ℕ → List ℕ → List ℕ
xorbuf [] mask = []
xorbuf (x ∷ buf) [] = x ∷ buf
xorbuf (x ∷ buf) (m ∷ mask) = bit_xor x m ∷ xorbuf buf mask

unfoldable pub aes256_siv_dbl : List ℕ → List ℕ
aes256_siv_dbl block =
    let shifted = aes256_bitshift_left block in
    if get_or block 0 0 / 128 == 1 then xorbuf shifted aes256_cmac_rb else shifted

-- `iv[8] &= 0x7f; iv[12] &= 0x7f;`
unfoldable pub clear_bits : List ℕ → List ℕ
clear_bits iv =
    take 8 iv
    ++ ((get_or iv 8 0 % 128) ∷ (take 3 (drop 9 iv) ++ ((get_or iv 12 0 % 128) ∷ drop 13 iv)))

module _ (c : SivCiphers) where
  -- The block `D` of s2v once the additional data are in it.
  unfoldable pub mix_additional : List ℕ → List ℕ
  mix_additional additional =
      let d = c.calculate_digest aes256_siv_zero_block in
      if ltb 0 (length additional)
      then xorbuf (aes256_siv_dbl d) (c.calculate_digest additional)
      else d

  -- `additional` is empty where the code passes a null pointer.
  unfoldable pub s2v : List ℕ → List ℕ → List ℕ
  s2v text additional =
      let d = mix_additional additional in
      if leb siv_size (length text)
      then c.calculate_digest
          (take (length text - siv_size) text ++ xorbuf (drop (length text - siv_size) text) d)
      else c.calculate_digest (
          xorbuf (aes256_siv_dbl d)
            (text ++ (aes256_iso_pad ∷ replicate (siv_size - (length text + 1)) 0)))

  -- The text, and the IV that authenticates it.
  unfoldable pub encrypt_and_authenticate : List ℕ → List ℕ → List ℕ × List ℕ
  encrypt_and_authenticate text additional =
      let siv = s2v text additional in (c.process_data (clear_bits siv) text, siv)

  unfoldable pub decrypt_and_verify : List ℕ → List ℕ → List ℕ → List ℕ × Bool
  decrypt_and_verify text additional siv =
      let plaintext = c.process_data (clear_bits siv) text in
      (plaintext, same siv (s2v plaintext additional))
