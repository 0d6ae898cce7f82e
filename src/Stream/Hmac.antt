-- ===== src/Stream/Hmac.antt =====
-- internal::HMACStream of sources/streams.cpp: a stream behind the HMAC-SHA256 of its bytes.
pub mod Contract
pub mod Check
use securefs.Prelude.{
  ℕ, zero, suc, ◌+◌, ◌-◌, ◌==◌, Bool, true, false, not, List, ◌++◌, [], length, same, ltb, u64,
  if◌then◌else◌,
}
use securefs.Error.{Result, ok, throw, stuck, ◌>>=◌, ◌>>◌, guard, invalid_hmac_stream}
use securefs.Stream.{StreamOps}

abbrev pub hmac_length : ℕ
hmac_length = 32

pub record HmacStream (T : Type 0) : Type 0 where
  pub key : List ℕ
  pub id : List ℕ
  pub stream : T
  pub is_dirty : Bool

-- `hmac` is CryptoPP's HMAC-SHA256, of a key and of what the calls of Update were given.
module _ {T : Type 0} (under : StreamOps T) (hmac : List ℕ → List ℕ → List ℕ) where
  -- The loop of run_mac: what it gives to Update.
  unfoldable pub run_loop : ℕ → T → ℕ → Result (List ℕ)
  run_loop zero stream off = stuck
  run_loop (suc fuel) stream off = do
    chunk ← under.read stream off 4096
    elim (length chunk == 0) [
      | true ↦ ok []
      | false ↦ (run_loop fuel stream (u64 (off + length chunk)) >>= λ rest. ok (chunk ++ rest))
    ]

  unfoldable pub run_mac : HmacStream T → Result (List ℕ)
  run_mac s = do
    updates ← run_loop (under.size s.stream + 1) s.stream hmac_length
    ok (s.id ++ updates)

  unfoldable pub check_hmac : HmacStream T → List ℕ → Result (HmacStream T)
  check_hmac s header = if length header == 0 then ok s else do
    guard (length header == hmac_length) invalid_hmac_stream
    message ← run_mac s
    guard (same (hmac s.key message) header) invalid_hmac_stream
    ok s

  -- The constructor, for a stream that is not null.
  unfoldable pub hmac_open : List ℕ → List ℕ → T → Bool → Result (HmacStream T)
  unfolding check_hmac
  hmac_open key id stream check =
      let s : HmacStream T = record { key = key; id = id; stream = stream; is_dirty = false } in
      if check then (under.read stream 0 hmac_length >>= λ header. check_hmac s header) else ok s

  -- The flush of the stream below, which changes nothing that it reads, is left out.
  unfoldable pub flush : HmacStream T → Result (HmacStream T)
  flush s = if not s.is_dirty then ok s else do
    message ← run_mac s
    stream ← under.write s.stream (hmac s.key message) 0
    ok (record s { stream = stream; is_dirty = false })

  unfoldable pub size : HmacStream T → ℕ
  size s = let sz = under.size s.stream in if ltb sz hmac_length then 0 else sz - hmac_length

  unfoldable pub read : HmacStream T → ℕ → ℕ → Result (List ℕ)
  read s off len = under.read s.stream (u64 (off + hmac_length)) len

  unfoldable pub write : HmacStream T → List ℕ → ℕ → Result (HmacStream T)
  write s input off = do
    stream ← under.write s.stream input (u64 (off + hmac_length))
    ok (record s { stream = stream; is_dirty = true })

  unfoldable pub resize : HmacStream T → ℕ → Result (HmacStream T)
  resize s len = do
    stream ← under.resize s.stream (u64 (len + hmac_length))
    ok (record s { stream = stream; is_dirty = true })

  abbrev pub hmac_stream : StreamOps (HmacStream T)
  hmac_stream = record {
    size = size;
    is_sparse = λ s. under.is_sparse s.stream;
    read = read;
    write = write;
    resize = resize;
  }
