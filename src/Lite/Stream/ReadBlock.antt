-- ===== src/Lite/Stream/ReadBlock.antt =====
-- `read_block` of a lite file.
use native.Mathlib.Nat.{mod-eq_of_lt, lt_of_mul-lt-mul_right}
use securefs.Prelude.{ℕ, ◌+◌, ◌-◌, ◌*◌, ◌≤◌, ◌<◌, ◌≡◌, ap, ◌∙◌, min, u64, le→leb, segment, arith}
use securefs.Error.{ok}
use securefs.Crypto.{Rng}
use securefs.Stream.{StreamOps, StreamLaws}
use securefs.Lite.Stream.{LiteOptions, LiteStream, header_size, max_blocks, read_block, size}
use securefs.Lite.Stream.Blocks.{
  unit, place, place_fits, lite_byte, lite_limit, IsLiteFile, plain-segment,
}

module _ {T R : Type 0} {under : StreamOps T} (below : StreamLaws under) (random : Rng R)
    (options : LiteOptions) where
  open options use {block_size}

  pub block_number_fits :
      (n : ℕ) → n * block_size < lite_limit below random options → n ≤ max_blocks
  block_number_fits n h =
      let p : n < max_blocks + 1 = lt_of_mul-lt-mul_right block_size h in omega arith

  -- A read of a block within the limit of a well-formed file hands over the decrypted bytes of the
  -- block, up to the end of the file.
  pub read_block_lem :
      (s : LiteStream T R) (n : ℕ)
      → 0 < block_size
      → header_size + unit below random options * (max_blocks + 1) ≤ below.limit
      → IsLiteFile below random options s
      → n * block_size < lite_limit below random options
      → read_block under random options s n
        ≡ ok (
            segment
              (lite_byte below random options s)
              (n * block_size)
              (min block_size (size under random options s - n * block_size)))
  unfolding read_block
  read_block_lem s n pos room v h =
      let few = block_number_fits n h in
      let fits = place_fits below random options n few room in
      let word : u64 (place below random options n) ≡ place below random options n =
        mod-eq_of_lt (omega (arith, below.limit_fits)) in
      rw (le→leb n max_blocks few) (
        rw word (
          rw
            (below.read_returns s.stream (place below random options n) (unit below random options)
              v.valid fits)
            (v.opens n ∙ ap ok (plain-segment below random options pos s n v))))
