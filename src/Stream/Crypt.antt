-- ===== src/Stream/Crypt.antt =====
-- CryptStream and internal::AESGCMCryptStream of sources/streams.h and sources/streams.cpp: blocks
-- encrypted in place, with the IV and the MAC of each in a second stream behind a header.
pub mod RoundTrip
pub mod Headers
pub mod Blocks
pub mod Adjust
pub mod Written
pub mod Writes
pub mod Resizes
pub mod Laws
pub mod Contract
use securefs.Prelude.{
  ℕ, ◌+◌, ◌-◌, ◌*◌, ◌/◌, ◌^◌, Bool, true, false, ◌&&◌, not, List, [], ◌++◌, length, take, drop, min,
  replicate, ltb, leb, ◌==◌, u64, is_all_zeros, if◌then◌else◌,
}
use securefs.Error.{
  Result, ok, throw, ◌>>=◌, ◌>>◌, guard, invalid_argument, stream_too_long, message_verification,
  corrupted_metadata,
}
use securefs.Crypto.{Gcm, Rng, generate_nonzero}
use securefs.Stream.{StreamOps}
use securefs.Stream.Block.{BlockOps}

abbrev pub mac_size : ℕ
mac_size = 16

abbrev pub max_block_number : ℕ
max_block_number = 2 ^ 30

-- The numbers that the constructor takes, and how often `generate_random` may be called again.
pub record CryptOptions : Type 0 where
  pub block_size : ℕ
  pub iv_size : ℕ
  pub header_size : ℕ
  pub check : Bool
  pub tries : ℕ

-- `meta` is m_metastream, `session` is AES-GCM under the data key.
pub record CryptStream (D M R : Type 0) : Type 0 where
  pub stream : D
  pub meta : M
  pub rng : R
  pub session : Gcm
  pub id : List ℕ

module _ {D M R : Type 0} (under : StreamOps D) (metas : StreamOps M) (random : Rng R)
    (options : CryptOptions) where
  open options use {block_size, iv_size, header_size, check, tries}

  abbrev pub meta_size : ℕ
  meta_size = iv_size + mac_size

  abbrev pub encrypted_header_size : ℕ
  encrypted_header_size = header_size + iv_size + mac_size

  abbrev pub meta_position_for_iv : ℕ → ℕ
  meta_position_for_iv block_num = u64 (encrypted_header_size + meta_size * block_num)

  unfoldable pub check_block_number : ℕ → Result (Unit {0})
  check_block_number block_number =
      guard (leb block_number max_block_number)
        (stream_too_long (u64 (max_block_number * block_size)) (u64 (block_number * block_size)))

  -- The output, and the stream whose IV and MAC it has written.
  unfoldable pub encrypt : CryptStream D M R → ℕ → List ℕ → Result (List ℕ × CryptStream D M R)
  unfolding check_block_number
  encrypt s block_number input = if length input == 0 then ok ([], s) else do
    check_block_number block_number
    (iv, rng) ← generate_nonzero tries random s.rng iv_size
    let sealed = s.session.encrypt_and_authenticate iv s.id input
    meta ← metas.write s.meta (iv ++ sealed.1) (meta_position_for_iv block_number)
    ok (sealed.0, record s { meta = meta; rng = rng })

  -- The end of `decrypt`, with the IV and the MAC in `buffer`.
  unfoldable pub decrypt_with : CryptStream D M R → ℕ → List ℕ → List ℕ → Result (List ℕ)
  decrypt_with s block_number input buffer =
      if is_all_zeros buffer && is_all_zeros input
      then ok (replicate (length input) 0)
      else (let opened =
            s.session.decrypt_and_verify (take iv_size buffer) s.id (drop iv_size buffer) input in
          if check && not opened.1
          then throw (message_verification (block_number * block_size))
          else ok opened.0)

  unfoldable pub decrypt : CryptStream D M R → ℕ → List ℕ → Result (List ℕ)
  unfolding check_block_number
  decrypt s block_number input = if length input == 0 then ok [] else do
    check_block_number block_number
    buffer ← metas.read s.meta (meta_position_for_iv block_number) meta_size
    guard (length buffer == meta_size) corrupted_metadata
    decrypt_with s block_number input buffer

  unfoldable pub read_block : CryptStream D M R → ℕ → Result (List ℕ)
  read_block s block_number = do
    input ← under.read s.stream (u64 (block_number * block_size)) block_size
    if length input == 0 then ok [] else decrypt s block_number input

  unfoldable pub write_block : CryptStream D M R → ℕ → List ℕ → Result (CryptStream D M R)
  write_block s block_number input = do
    (buffer, s') ← encrypt s block_number input
    stream ← under.write s'.stream buffer (u64 (block_number * block_size))
    ok (record s' { stream = stream })

  unfoldable pub size : CryptStream D M R → ℕ
  size s = under.size s.stream

  unfoldable pub adjust_logical_size : CryptStream D M R → ℕ → Result (CryptStream D M R)
  adjust_logical_size s n = do
    stream ← under.resize s.stream n
    let block_num = u64 (n + block_size - 1) / block_size
    meta ← metas.resize s.meta (meta_position_for_iv block_num)
    ok (record s { stream = stream; meta = meta })

  abbrev pub crypt_blocks : BlockOps (CryptStream D M R)
  crypt_blocks = record {
    block_size = block_size;
    size = size;
    is_sparse = λ s. under.is_sparse s.stream && metas.is_sparse s.meta;
    read_block = read_block;
    write_block = write_block;
    adjust_logical_size = adjust_logical_size;
  }

  -- The header, or none if the second stream is empty.
  unfoldable pub unchecked_read_header : CryptStream D M R → Result (List ℕ)
  unchecked_read_header s = do
    buffer ← metas.read s.meta 0 encrypted_header_size
    if length buffer == 0
        then ok []
        else (guard (length buffer == encrypted_header_size) corrupted_metadata
            >> ok
                (s.session.decrypt_and_verify (take iv_size buffer) s.id
                  (take mac_size (drop iv_size buffer)) (drop mac_size (drop iv_size buffer))).0)

  unfoldable pub unchecked_write_header : CryptStream D M R → List ℕ → Result (CryptStream D M R)
  unchecked_write_header s input = do
    let drawn = random.generate_random s.rng iv_size
    let sealed = s.session.encrypt_and_authenticate drawn.0 s.id input
    meta ← metas.write s.meta (drawn.0 ++ (sealed.1 ++ sealed.0)) 0
    ok (record s { meta = meta; rng = drawn.1 })

  -- Whether there is a header, and the bytes that are copied to the output.
  unfoldable pub read_header : CryptStream D M R → ℕ → Result (Bool × List ℕ)
  read_header s n = do
    guard (leb n header_size) invalid_argument
    header ← unchecked_read_header s
    if n == header_size
        then ok (length header == n, header)
        else ok (not (length header == 0), take (min n (length header)) header)

  unfoldable pub write_header : CryptStream D M R → List ℕ → Result (CryptStream D M R)
  write_header s input = do
    guard (leb (length input) header_size) invalid_argument
    if length input == header_size
        then unchecked_write_header s input
        else unchecked_write_header s (input ++ replicate (header_size - length input) 0)
