-- ===== src/Tests/Names.antt =====
-- Witnesses for the names of the lite format, base32 and AES-SIV.
use securefs.Prelude.{
  same, ltb, if◌then◌else◌, ◌&&◌, ℕ, ◌+◌, ◌*◌, ◌/◌, ◌<◌, ◌≡◌, ◌==◌, refl, true, false, Bool, List,
  [], ◌∷◌, ◌++◌, length, replicate, All, some, length-replicate, arith,
}
use securefs.Prelude.Predicates.{All-replicate}
use securefs.Error.{Result, ok, throw, vfs, enametoolong}
use securefs.Text.{c_string}
use securefs.Text.Base32.{
  encode_loop, get_alphabet_index, base32_encode, base32_decode, decode_loop, get_group,
  get_base32_pair, or_at, strchr,
}
use securefs.Text.Base32.RoundTrip.{IsLetter, base32_decode-base32_encode}
use securefs.Crypto.Siv.{SivCiphers, SivLaws, encrypt_and_authenticate, decrypt_and_verify, s2v}
use securefs.Crypto.Siv.Verify.{encrypt_and_authenticate-decrypt_and_verify}
use securefs.Lite.Stream.{calculate_real_size}
use securefs.Lite.Names.{
  slash, encrypt_part, encrypt_from, encrypt_path, decrypt_path, transform, translate_path, next,
  decode_name, open_name,
}
use securefs.Lite.Names.RoundTrip.{FitsFrom, decrypt_path-encrypt_path}
use securefs.Lite.Names.Translate.{
  FitsFrom-part, encrypt_path-too_long, decrypt_path-translate_path_absolute, is_undefined,
  is_undefined-decrypt_path, translate_path_injective,
}
use securefs.Lite.Names.Listing.{Lists, next-encrypt_part, next_lem}

-- A digest of ones, and a cipher that leaves the text as it is.
abbrev pub toy_siv : SivCiphers
toy_siv = record { calculate_digest = λ message. replicate 16 1; process_data = λ iv text. text }

pub toy_siv_laws : SivLaws toy_siv
toy_siv_laws = record {
  length_digest = λ message. refl;
  digest_bytes = λ message. All-replicate (λ x. x < 256) 16 1 (omega arith);
  length_data = λ iv text. refl;
  data_bytes = λ iv text small. small;
  undoes = λ iv text. refl;
}

-- What "a" and "b" are encrypted to.
abbrev pub name_of_a : List ℕ
name_of_a =
    65 ∷ 69 ∷ 65 ∷ 83 ∷ 67 ∷ 65 ∷ 73 ∷ 66 ∷ 65 ∷ 69 ∷ 65 ∷ 83 ∷ 67 ∷ 65 ∷ 73 ∷ 66 ∷ 65 ∷ 69 ∷ 65
    ∷ 83 ∷ 67 ∷ 65 ∷ 73 ∷ 66 ∷ 65 ∷ 70 ∷ 83 ∷ 83 ∷ []

abbrev pub name_of_b : List ℕ
name_of_b =
    65 ∷ 69 ∷ 65 ∷ 83 ∷ 67 ∷ 65 ∷ 73 ∷ 66 ∷ 65 ∷ 69 ∷ 65 ∷ 83 ∷ 67 ∷ 65 ∷ 73 ∷ 66 ∷ 65 ∷ 69 ∷ 65
    ∷ 83 ∷ 67 ∷ 65 ∷ 73 ∷ 66 ∷ 65 ∷ 70 ∷ 84 ∷ 65 ∷ []

-- "a/b"
abbrev two_parts : List ℕ
two_parts = 97 ∷ 47 ∷ 98 ∷ []

two_parts-FitsFrom : FitsFrom [] two_parts
unfolding FitsFrom
two_parts-FitsFrom = (omega arith, omega arith)

decrypt_path-encrypt_path_example :
    (str : List ℕ) × (encrypt_path toy_siv two_parts ≡ ok str)
    × (decrypt_path toy_siv str ≡ ok two_parts)
decrypt_path-encrypt_path_example =
    decrypt_path-encrypt_path toy_siv toy_siv_laws two_parts two_parts-FitsFrom
      (omega arith, (omega arith, (omega arith, tt)))

abbrev pub no_map : Bool → Bool → List ℕ → Result (List ℕ)
no_map case_fold nfc str = ok str

-- What a map that folds cases makes of ASCII texts.
abbrev lower : List ℕ → List ℕ
lower [] = []
lower (x ∷ str) = (if ltb 64 x && ltb x 91 then x + 32 else x) ∷ lower str

abbrev lower_map : Bool → Bool → List ℕ → Result (List ℕ)
lower_map case_fold nfc str = ok (if case_fold then lower str else str)

-- "A/b"
abbrev mixed_case : List ℕ
mixed_case = 65 ∷ 47 ∷ 98 ∷ []

folded : transform toy_siv lower_map (slash ∷ mixed_case) true false ≡ ok (slash ∷ two_parts)
unfolding transform
folded = refl

kept_lower : transform toy_siv lower_map (slash ∷ two_parts) true false ≡ ok (slash ∷ two_parts)
unfolding transform
kept_lower = refl

two_parts-bytes : All (λ x. (0 < x) × (x < 256)) two_parts
two_parts-bytes =
    ((omega arith, omega arith), ((omega arith, omega arith), ((omega arith, omega arith), tt)))

decrypt_path-translate_path_absolute_example :
    (str : List ℕ) × (translate_path toy_siv lower_map true false (slash ∷ mixed_case) false
      ≡ ok str)
    × (decrypt_path toy_siv str ≡ ok two_parts)
decrypt_path-translate_path_absolute_example =
    decrypt_path-translate_path_absolute toy_siv toy_siv_laws lower_map true false mixed_case
      two_parts (omega arith) folded two_parts-FitsFrom two_parts-bytes

-- What "/A/b" and "/a/b" are translated to where cases are folded.
abbrev translated : List ℕ
translated = name_of_a ++ (slash ∷ name_of_b)

mixed_translated :
    translate_path toy_siv lower_map true false (slash ∷ mixed_case) false ≡ ok translated
unfolding translate_path transform encrypt_path encrypt_from encrypt_part base32_encode encode_loop
    get_alphabet_index encrypt_and_authenticate s2v c_string same
mixed_translated = refl

lower_translated :
    translate_path toy_siv lower_map true false (slash ∷ two_parts) false ≡ ok translated
unfolding translate_path transform encrypt_path encrypt_from encrypt_part base32_encode encode_loop
    get_alphabet_index encrypt_and_authenticate s2v c_string same
lower_translated = refl

translate_path_injective_example : two_parts ≡ two_parts
translate_path_injective_example =
    translate_path_injective toy_siv toy_siv_laws lower_map true false mixed_case two_parts
      two_parts two_parts translated (omega arith) (omega arith) folded kept_lower
      two_parts-FitsFrom two_parts-FitsFrom two_parts-bytes two_parts-bytes mixed_translated
      lower_translated

too_long-FitsFrom : ¬ FitsFrom [] (replicate 2001 97)
too_long-FitsFrom fits = absurd (
    omega (
      arith,
      FitsFrom-part [] (replicate 2001 97) (All-replicate (λ x. (x == slash) ≡ false) 2001 97 refl)
          fits,
      length-replicate {A = ℕ} 2001 97,
    ))

encrypt_path-too_long_example : encrypt_path toy_siv (replicate 2001 97) ≡ throw (vfs enametoolong)
encrypt_path-too_long_example =
    encrypt_path-too_long toy_siv toy_siv_laws (replicate 2001 97) too_long-FitsFrom
      (All-replicate (λ x. x < 256) 2001 97 (omega arith))

-- "AA" is one byte.
one_byte : base32_decode (65 ∷ 65 ∷ []) ≡ ok (0 ∷ [])
unfolding base32_decode decode_loop get_group get_base32_pair or_at strchr
one_byte = refl

is_undefined-decrypt_path_example : is_undefined (decrypt_path toy_siv (65 ∷ 65 ∷ [])) ≡ true
is_undefined-decrypt_path_example =
    is_undefined-decrypt_path toy_siv toy_siv_laws (65 ∷ 65 ∷ []) (0 ∷ []) (omega arith)
      (refl, (refl, tt)) one_byte (omega arith)

next-encrypt_part_example :
    (part : List ℕ) × (encrypt_part toy_siv (97 ∷ []) ≡ ok part)
    × (next toy_siv 4096 12 ((part, 100) ∷ [])
        ≡ some ((97 ∷ [], calculate_real_size 100 4096 12), []))
next-encrypt_part_example =
    next-encrypt_part toy_siv toy_siv_laws 4096 12 (97 ∷ []) 100 [] (omega arith) (omega arith)
      (omega arith, tt)

-- A listing of "a" behind a name that is no text of base32.
abbrev listing : List (List ℕ × ℕ)
listing = (33 ∷ [], 5) ∷ (name_of_a, 100) ∷ []

a_is_next : next toy_siv 4096 12 listing ≡ some ((97 ∷ [], calculate_real_size 100 4096 12), [])
unfolding next decode_name open_name base32_decode decode_loop get_group get_base32_pair or_at
    strchr decrypt_and_verify s2v same
a_is_next = refl

next_lem_example :
    (skipped : List (List ℕ × ℕ)) × (u : List ℕ × ℕ) × (listing ≡ skipped ++ (u ∷ []))
    × Lists toy_siv toy_siv_laws 4096 12 u.0 (97 ∷ [])
next_lem_example =
    next_lem toy_siv toy_siv_laws 4096 12 listing [] (97 ∷ [], calculate_real_size 100 4096 12)
      a_is_next

abbrev two_bytes : List ℕ
two_bytes = 255 ∷ 0 ∷ []

base32_decode-base32_encode_example :
    (cs : List ℕ) × (base32_encode two_bytes ≡ ok cs)
    × (base32_decode cs ≡ ok two_bytes)
    × (length cs ≡ (length two_bytes * 8 + 4) / 5)
    × All IsLetter cs
base32_decode-base32_encode_example =
    base32_decode-base32_encode two_bytes (omega arith, (omega arith, tt))

verified : (decrypt_and_verify toy_siv (97 ∷ []) [] (replicate 16 1)).1 ≡ true
unfolding decrypt_and_verify s2v same
verified = refl

encrypt_and_authenticate-decrypt_and_verify_example :
    encrypt_and_authenticate toy_siv (decrypt_and_verify toy_siv (97 ∷ []) [] (replicate 16 1)).0 []
    ≡ (97 ∷ [], replicate 16 1)
encrypt_and_authenticate-decrypt_and_verify_example =
    encrypt_and_authenticate-decrypt_and_verify toy_siv toy_siv_laws (97 ∷ []) [] (replicate 16 1)
      verified
