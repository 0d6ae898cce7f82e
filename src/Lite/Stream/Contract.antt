-- ===== src/Lite/Stream/Contract.antt =====
-- The lite stream as its users see it: reads after writes and resizes.
use securefs.Prelude.{ℕ, ◌+◌, ◌*◌, ◌≤◌, ◌<◌, ◌≡◌, List, length, max, segment}
use securefs.Error.{ok}
use securefs.Crypto.{Rng, RngLaws}
use securefs.Stream.{StreamOps, StreamLaws, written, cut}
use securefs.Stream.Block.{read, write, resize}
use securefs.Stream.Block.Contract.{read-write_blocks, read-resize_blocks}
use securefs.Lite.Stream.{LiteOptions, LiteStream, header_size, max_blocks, size, lite_blocks}
use securefs.Lite.Stream.Blocks.{unit, lite_byte, lite_limit, IsLiteFile}
use securefs.Lite.Stream.Laws.{lite_laws}

module _ {T R : Type 0} {under : StreamOps T} (below : StreamLaws under) (random : Rng R)
    (options : LiteOptions) (random_laws : RngLaws random options.iv_size options.tries)
    (pos : 0 < options.block_size)
    (room : header_size + unit below random options * (max_blocks + 1) ≤ below.limit)
    (unset : List ℕ) (full : length unset ≡ options.block_size) where
  -- In a well-formed file, over a stream with room for 2^31 blocks, a write of any bytes that ends
  -- within 2^31 blocks succeeds. A read of that range then hands over these bytes, all others are as
  -- before (zeros in a gap), and the file is well formed.
  pub read-write :
      (s : LiteStream T R) (input : List ℕ) (offset : ℕ)
      → IsLiteFile below random options s
      → offset + length input ≤ lite_limit below random options
      → (s' : LiteStream T R) × (write (lite_blocks under random options) unset s input offset
          ≡ ok s')
        × (read (lite_blocks under random options) unset s' offset (length input) ≡ ok input)
        × (size under random options s' ≡ max (size under random options s) (offset + length input))
        × ((i : ℕ)
            → lite_byte below random options s' i
              ≡ written (lite_byte below random options s) offset input i)
        × IsLiteFile below random options s'
  read-write s input offset v fits =
      read-write_blocks (lite_laws below random options random_laws pos room) unset full s input
        offset v fits

  -- In a well-formed file, over a stream with room for 2^31 blocks, a resize to any size of at most
  -- 2^31 blocks succeeds. A read of the whole file then hands over the old bytes, cut or followed by
  -- zeros, and the file is well formed.
  pub read-resize :
      (s : LiteStream T R) (n : ℕ)
      → IsLiteFile below random options s
      → n ≤ lite_limit below random options
      → (s' : LiteStream T R) × (resize (lite_blocks under random options) unset s n ≡ ok s')
        × (read (lite_blocks under random options) unset s' 0 n
            ≡ ok (segment (cut (lite_byte below random options s) n) 0 n))
        × IsLiteFile below random options s'
  read-resize s n v fits =
      read-resize_blocks (lite_laws below random options random_laws pos room) unset full s n v fits
