-- ===== src/Lite/FileSystem/Opening.antt =====
-- Opening a file of the lite format.
use securefs.Prelude.{
  ℕ, ◌+◌, ◌*◌, ◌≤◌, ◌<◌, ◌≡◌, refl, ap, subst, ◌∙◌, sym, Bool, Bool-cases, inl, inr, false,
  if◌then◌else◌, ◌||◌, List, [], length, segment-zero, ge→ltb, le→leb, segment, arith,
}
use securefs.Error.{ok}
use securefs.Crypto.{Rng, RngLaws}
use securefs.Stream.{StreamOps, StreamLaws}
use securefs.Stream.Block.{read}
use securefs.Stream.Block.Reads.{read_lem}
use securefs.Stream.Block.Resizes.{resize_lem}
use securefs.Lite.Stream.{LiteStream, header_size, max_blocks, size, lite_blocks, lite_open}
use securefs.Lite.Stream.Blocks.{unit, lite_byte, IsLiteFile}
use securefs.Lite.Stream.Laws.{lite_laws}
use securefs.Lite.Stream.Verified.{lite_open-old}
use securefs.Lite.FileSystem.{RootOps, FileSystem, OpenFlags, adjusted_flags, translate, open_file}

module _ {W T R : Type 0} (root : RootOps W T) {streams : StreamOps T} (below : StreamLaws streams)
    (random : Rng R) (unset : List ℕ) (fs : FileSystem R)
    (random_laws : RngLaws random fs.options.iv_size fs.options.tries)
    (iv_min : 12 ≤ fs.options.iv_size) (iv_max : fs.options.iv_size ≤ 32)
    (block_min : 32 ≤ fs.options.block_size)
    (room : header_size + unit below random fs.options * (max_blocks + 1) ≤ below.limit)
    (full : length unset ≡ fs.options.block_size) where
  -- The file that a stream holds, under the key that is derived from its first 16 bytes.
  abbrev pub stored_file : T → R → LiteStream T R
  stored_file stream rng = record {
    stream = stream;
    rng = rng;
    session = fs.cipher (fs.derive (segment (below.byte stream) 0 header_size));
  }

  pos : 0 < fs.options.block_size
  pos = omega (arith, block_min)

  constructed_lem :
      (stream : T) (rng : R)
      → IsLiteFile below random fs.options (stored_file stream rng)
      → lite_open streams random fs.options fs.derive fs.cipher stream rng
        ≡ ok (stored_file stream rng)
  constructed_lem stream rng v =
      let header : header_size ≤ streams.size stream =
        subst (λ k. header_size ≤ k) (sym v.sized) (omega arith) in
      lite_open-old below random fs.options fs.derive fs.cipher stream rng v.valid (omega arith)
        (omega arith) iv_min iv_max block_min
      ∙ rw (le→leb header_size (streams.size stream) header) refl

  -- If the path is translated, and the system opens a stream below the translation that holds a
  -- well-formed file under the key derived from the stream's first 16 bytes, then open succeeds,
  -- where IVs have 12 to 32 bytes and blocks at least 32, and streams have room for 2^31 blocks. A
  -- read of the whole file that it returns hands over the decrypted bytes of the file below, or
  -- none if O_TRUNC is given. Every byte of the file is the one below, or zero, and it is well
  -- formed.
  pub open_file_lem :
      (w w' : W) (rng : R) (path name : List ℕ) (flags : OpenFlags) (owner_read : Bool) (stream : T)
      → translate root streams random unset fs path false ≡ ok name
      → root.open_file_stream w name (adjusted_flags flags) (owner_read || flags.creat)
        ≡ ok (stream, w')
      → IsLiteFile below random fs.options (stored_file stream rng)
      → (s' : LiteStream T R) × (open_file root streams random unset fs w rng path flags owner_read
          ≡ ok (s', w'))
        × (size streams random fs.options s'
            ≡ (if flags.trunc then 0 else size streams random fs.options (stored_file stream rng)))
        × (read
              (lite_blocks streams random fs.options)
              unset
              s'
              0
              (size streams random fs.options s')
            ≡ ok (
                if flags.trunc
                then []
                else segment
                    (lite_byte below random fs.options (stored_file stream rng))
                    0
                    (size streams random fs.options (stored_file stream rng))))
        × ((i : ℕ)
            → lite_byte below random fs.options s' i ≡ (
                if flags.trunc
                then 0
                else lite_byte below random fs.options (stored_file stream rng) i))
        × IsLiteFile below random fs.options s'
  unfolding open_file
  open_file_lem w w' rng path name flags owner_read stream named opened v =
      let laws = lite_laws below random fs.options random_laws pos room in
      let s = stored_file stream rng in
      let constructed = constructed_lem stream rng v in
      elim (Bool-cases flags.trunc) [
        | inl truncated ↦
            let b = resize_lem laws unset full s 0 v (omega arith) in
            (
              b.after,
              rw (named, opened, constructed, truncated) (rw b.returns refl),
              rw truncated b.resized,
              rw truncated (
                  whole b.after b.valid
                  ∙ ap ok (segment-zero (lite_byte below random fs.options b.after) 0 _ b.resized)),
              λ i. rw truncated (b.holds i ∙ rw (ge→ltb i 0 (omega arith)) refl),
              b.valid,
            )
        | inr kept ↦ (
          s,
          rw (named, opened, constructed, kept) refl,
          rw kept refl,
          rw kept (whole s v),
          λ i. rw kept refl,
          v,
        )
      ]
    where
      whole :
          (s : LiteStream T R)
          → IsLiteFile below random fs.options s
          → read
              (lite_blocks streams random fs.options)
              unset
              s
              0
              (size streams random fs.options s)
            ≡ ok
                (segment (lite_byte below random fs.options s) 0 (size streams random fs.options s))
      whole s v =
          read_lem (lite_laws below random fs.options random_laws pos room) unset s 0
            (size streams random fs.options s) v (omega (arith, v.fits))
          ∙ ap (λ n. ok (segment (lite_byte below random fs.options s) 0 n)) (omega arith)
