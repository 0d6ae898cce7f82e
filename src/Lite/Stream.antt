-- ===== src/Lite/Stream.antt =====
-- lite::AESGCMCryptStream of sources/lite_stream.h and sources/lite_stream.cpp: the blocks of a file,
-- each encrypted with an IV and a MAC of its own, behind a header of 16 bytes.
pub mod Sizes
pub mod Seal
pub mod Blocks
pub mod ReadBlock
pub mod WriteBlock
pub mod Adjust
pub mod CutBlock
pub mod Laws
pub mod Contract
pub mod Verified
pub mod BlockNumbers
use securefs.Prelude.{
  ℕ, ◌+◌, ◌-◌, ◌*◌, ◌/◌, ◌%◌, ◌^◌, Bool, true, false, ◌&&◌, ◌||◌, not, List, [], ◌++◌, length, take,
  drop, replicate, ltb, leb, ◌==◌, u64, u32, is_all_zeros, if◌then◌else◌,
}
use securefs.Error.{
  Result, ok, throw, ◌>>=◌, ◌>>◌, guard, invalid_argument, stream_too_long,
  lite_message_verification,
}
use securefs.Endian.{to_little_endian}
use securefs.Crypto.{Gcm, Rng, generate_nonzero}
use securefs.Stream.{StreamOps}
use securefs.Stream.Block.{BlockOps}

abbrev pub mac_size : ℕ
mac_size = 16

abbrev pub header_size : ℕ
header_size = 16

-- MAX_BLOCKS
abbrev pub max_blocks : ℕ
max_blocks = 2 ^ 31 - 1

-- What the constructor takes, apart from the stream, and how often `generate_nonzero` may draw.
pub record LiteOptions : Type 0 where
  pub block_size : ℕ
  pub iv_size : ℕ
  pub check : Bool
  pub tries : ℕ

-- The stream below, the random number generator, and the cipher of the session key.
pub record LiteStream (T R : Type 0) : Type 0 where
  pub stream : T
  pub rng : R
  pub session : Gcm

-- calculate_real_size: the bytes that a file of `underlying_size` bytes stores.
unfoldable pub calculate_real_size : ℕ → ℕ → ℕ → ℕ
calculate_real_size underlying_size block_size iv_size =
    if leb underlying_size header_size
    then 0
    else (let body = underlying_size - header_size in
        let underlying_block_size = block_size + iv_size + mac_size in
        let num_blocks = body / underlying_block_size in
        let residue = body % underlying_block_size in
        num_blocks * block_size
        + (if ltb (iv_size + mac_size) residue then residue - iv_size - mac_size else 0))

-- The associated data of a block: its number, cut to 32 bits.
abbrev pub auxiliary : ℕ → List ℕ
auxiliary block_number = to_little_endian 4 (u32 block_number)

module _ {T R : Type 0} (under : StreamOps T) (random : Rng R) (options : LiteOptions) where
  open options use {block_size, iv_size, check, tries}

  abbrev pub underlying_block_size : ℕ
  underlying_block_size = block_size + iv_size + mac_size

  -- The end of `read_block`: what to make of the bytes read.
  unfoldable pub open_block : Gcm → ℕ → List ℕ → Result (List ℕ)
  open_block session block_number buffer =
      let rc = length buffer in
      let out_size = rc - iv_size - mac_size in
      if leb rc (mac_size + iv_size)
      then ok []
      else if ltb underlying_block_size rc
      then throw invalid_argument
      else if is_all_zeros buffer
      then ok (replicate out_size 0)
      else (let opened =
            session.decrypt_and_verify (take iv_size buffer) (auxiliary block_number)
              (drop (rc - mac_size) buffer) (take out_size (drop iv_size buffer)) in
          if check && not opened.1 then throw lite_message_verification else ok opened.0)

  too_long : ℕ → Result (Unit {0})
  too_long block_number =
      guard (leb block_number max_blocks)
        (stream_too_long (u64 (max_blocks * block_size)) (u64 (block_number * block_size)))

  unfoldable pub read_block : LiteStream T R → ℕ → Result (List ℕ)
  unfolding too_long
  read_block s block_number = do
    too_long block_number
    buffer ←
        under.read s.stream (u64 (header_size + underlying_block_size * block_number))
          underlying_block_size
    open_block s.session block_number buffer

  -- The bytes of a block that `write_block` hands to the stream below, and the generator after.
  unfoldable pub seal_block : LiteStream T R → ℕ → List ℕ → Result (List ℕ × R)
  seal_block s block_number input =
      if is_all_zeros input then ok (replicate (length input + iv_size + mac_size) 0, s.rng) else do
        (iv, rng) ← generate_nonzero tries random s.rng iv_size
        let sealed = s.session.encrypt_and_authenticate iv (auxiliary block_number) input
        ok (iv ++ (sealed.0 ++ sealed.1), rng)

  unfoldable pub write_block : LiteStream T R → ℕ → List ℕ → Result (LiteStream T R)
  unfolding too_long
  write_block s block_number input = do
    too_long block_number
    (buffer, rng) ← seal_block s block_number input
    stream ← under.write s.stream buffer (u64 (block_number * underlying_block_size + header_size))
    ok (record s { stream = stream; rng = rng })

  unfoldable pub size : LiteStream T R → ℕ
  size s = calculate_real_size (under.size s.stream) block_size iv_size

  unfoldable pub adjust_logical_size : LiteStream T R → ℕ → Result (LiteStream T R)
  adjust_logical_size s n = do
    let new_blocks = n / block_size
    let residue = n % block_size
    stream ← under.resize s.stream (
        u64 (
          header_size
          + new_blocks * underlying_block_size
          + (if ltb 0 residue then residue + iv_size + mac_size else 0)))
    ok (record s { stream = stream })

  -- The virtual functions that BlockBasedStream calls.
  abbrev pub lite_blocks : BlockOps (LiteStream T R)
  lite_blocks = record {
    block_size = block_size;
    size = size;
    is_sparse = λ s. under.is_sparse s.stream;
    read_block = read_block;
    write_block = write_block;
    adjust_logical_size = adjust_logical_size;
  }

  -- The rest of the constructor: the header of a new file is drawn, that of an old one is read.
  unfoldable pub lite_header : T → R → Result (T × R × List ℕ)
  lite_header stream rng = do
    header ← under.read stream 0 header_size
    if length header == 0
        then (let drawn = random.generate_random rng header_size in
            under.write stream drawn.0 0 >>= λ stream'. ok (stream', drawn.1, drawn.0))
        else (guard (length header == header_size) invalid_argument >> ok (stream, rng, header))

  -- The constructor, for a stream that is not null. `derive` is AES in ECB mode under the master
  -- key, and `cipher` is AES-GCM under a session key.
  unfoldable pub lite_open : (List ℕ → List ℕ) → (List ℕ → Gcm) → T → R → Result (LiteStream T R)
  unfolding lite_header
  lite_open derive cipher stream rng = do
    guard (not (ltb iv_size 12 || ltb 32 iv_size)) invalid_argument
    guard (not (ltb block_size 32)) invalid_argument
    (stream', rng', header) ← lite_header stream rng
    ok (record { stream = stream'; rng = rng'; session = cipher (derive header) })
