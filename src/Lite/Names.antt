-- ===== src/Lite/Names.antt =====
-- The names of the files of the lite format: encrypt_path, decrypt_path, translate_path and
-- LiteDirectoryTraverser of sources/lite_fs.cpp.
pub mod RoundTrip
pub mod Listing
pub mod Translate
use securefs.Prelude.{
  ℕ, zero, suc, ◌+◌, ◌-◌, ◌*◌, ◌^◌, ◌<◌, u64, Bool, true, false, ◌&&◌, ◌||◌, not, List, [], ◌∷◌,
  ◌++◌, Option, none, some, length, take, drop, leb, ltb, ◌==◌, same, if◌then◌else◌,
}
use securefs.Error.{
  Result, ok, throw, undefined, stuck, ◌>>=◌, ◌>>◌, guard, vfs, Errno, enametoolong,
  invalid_filename,
}
use securefs.Text.{is_ascii, c_string}
use securefs.Text.Base32.{base32_encode, base32_decode}
use securefs.Crypto.Siv.{SivCiphers, siv_size, encrypt_and_authenticate, decrypt_and_verify}
use securefs.Lite.Stream.{calculate_real_size}

-- The code of '/', and of '.'.
abbrev pub slash : ℕ
slash = 47

abbrev pub dot : ℕ
dot = 46

-- `name = ".."` and `name = "."`
abbrev pub is_dots : List ℕ → Bool
is_dots name = same name (dot ∷ []) || same name (dot ∷ dot ∷ [])

-- The size of `string_buffer`.
abbrev pub buffer_size : ℕ
buffer_size = 2032

-- What is read of a buffer: `n` bytes from `pos` on.
unfoldable pub bytes_at : List ℕ → ℕ → ℕ → Result (List ℕ)
bytes_at buffer pos n =
    if leb (pos + n) (length buffer) then ok (take n (drop pos buffer)) else undefined

module _ (c : SivCiphers) where
  -- A part of a path between two separators; an empty one is left out.
  unfoldable pub encrypt_part : List ℕ → Result (List ℕ)
  encrypt_part slice =
      if ltb 0 (length slice)
      then (do
        guard (leb (length slice) 2000) (vfs enametoolong)
        let sealed = encrypt_and_authenticate c slice []
        base32_encode (sealed.1 ++ sealed.0))
      else ok []

  -- The loop of encrypt_path: `slice` is what is between `last_nonseparator_index` and `i`.
  unfoldable pub encrypt_from : List ℕ → List ℕ → Result (List ℕ)
  encrypt_from slice [] = encrypt_part slice
  encrypt_from slice (x ∷ path) =
      let ended = (do
        encoded_part ← encrypt_part slice
        rest ← encrypt_from [] path
        ok (encoded_part ++ (slash ∷ rest))) in
      let longer = encrypt_from (slice ++ (x ∷ [])) path in if x == slash then ended else longer

  unfoldable pub encrypt_path : List ℕ → Result (List ℕ)
  encrypt_path path = encrypt_from [] path

  -- `decoded_part.size() - AES_SIV::IV_SIZE` is taken in 64 bits: with fewer bytes than an IV it wraps
  -- round, and what is read then is not the buffer's.
  unfoldable pub open_part : List ℕ → Result (List ℕ)
  open_part decoded_part =
      let size = u64 (length decoded_part + (2 ^ 64 - siv_size)) in
      do
        text ← bytes_at decoded_part siv_size size
        siv ← bytes_at decoded_part 0 siv_size
        let opened = decrypt_and_verify c text [] siv
        guard opened.1 invalid_filename
        ok opened.0

  unfoldable pub decrypt_part : List ℕ → Result (List ℕ)
  decrypt_part slice =
      if ltb 0 (length slice)
      then (do
        decoded_part ← base32_decode slice
        guard (ltb (length decoded_part) buffer_size) (vfs enametoolong)
        open_part decoded_part)
      else ok []

  unfoldable pub decrypt_from : List ℕ → List ℕ → Result (List ℕ)
  decrypt_from slice [] = decrypt_part slice
  decrypt_from slice (x ∷ path) =
      let ended = (do
        part ← decrypt_part slice
        rest ← decrypt_from [] path
        ok (part ++ (slash ∷ rest))) in
      let longer = decrypt_from (slice ++ (x ∷ [])) path in if x == slash then ended else longer

  unfoldable pub decrypt_path : List ℕ → Result (List ℕ)
  decrypt_path path = decrypt_from [] path

  -- transform of sources/mystring.cpp; `utf8proc_map` is the library's.
  unfoldable pub transform :
      (Bool → Bool → List ℕ → Result (List ℕ)) → List ℕ → Bool → Bool → Result (List ℕ)
  transform utf8proc_map str case_fold nfc =
      if not case_fold && (not nfc || is_ascii str) then ok str else utf8proc_map case_fold nfc str

  -- `m_flags & kOptionCaseFoldFileName` and `m_flags & kOptionNFCFileName` are `case_fold`, `nfc`.
  unfoldable pub translate_path :
      (Bool → Bool → List ℕ → Result (List ℕ)) → Bool → Bool → List ℕ → Bool → Result (List ℕ)
  translate_path utf8proc_map case_fold nfc path preserve_leading_slash =
      if length path == 0
      then ok []
      else if same path (slash ∷ [])
      then ok ((if preserve_leading_slash then slash else dot) ∷ [])
      else do
        transformed ← transform utf8proc_map path case_fold nfc
        str ← encrypt_path (c_string transformed)
        ok (
            if not preserve_leading_slash && same (take 1 str) (slash ∷ [])
            then drop 1 str
            else str)

  -- The body of `try`, from what base32_decode returned or threw; none is `continue`.
  unfoldable pub open_name : ℕ → ℕ → ℕ → Result (List ℕ) → Option (List ℕ × ℕ)
  open_name block_size iv_size st_size (ok decoded_bytes) =
      let opened =
        decrypt_and_verify c (drop siv_size decoded_bytes) [] (take siv_size decoded_bytes) in
      if leb (length decoded_bytes) siv_size
      then none
      else if opened.1
      then some (opened.0, calculate_real_size st_size block_size iv_size)
      else none
  open_name block_size iv_size st_size (throw e) = none
  open_name block_size iv_size st_size undefined = none
  open_name block_size iv_size st_size stuck = none

  -- What the traverser makes of a name below and its size: none where it goes on to the next one.
  unfoldable pub decode_name : ℕ → ℕ → List ℕ → ℕ → Option (List ℕ × ℕ)
  decode_name block_size iv_size under_name st_size =
      if length under_name == 0
      then none
      else if is_dots under_name
      then some (under_name, st_size)
      else if same (take 1 under_name) (dot ∷ [])
      then none
      else open_name block_size iv_size st_size (base32_decode under_name)

  -- LiteDirectoryTraverser::next, with a name and a size asked for, on what the traverser below has
  -- left: the entry, and what is left then.
  unfoldable pub next : ℕ → ℕ → List (List ℕ × ℕ) → Option ((List ℕ × ℕ) × List (List ℕ × ℕ))
  next block_size iv_size [] = none
  next block_size iv_size (under ∷ left) = elim (decode_name block_size iv_size under.0 under.1) [
    | some entry ↦ some (entry, left)
    | none ↦ next block_size iv_size left
  ]
