-- ===== src/Lite/Stream/Laws.antt =====
-- The lite stream as the blocks that BlockBasedStream asks of a subclass.
use native.Mathlib.Nat.{div-add-mod, mul_comm, mul-le-mul_left}
use securefs.Prelude.{ℕ, ◌+◌, ◌*◌, ◌/◌, ◌%◌, ◌≤◌, ◌<◌, ◌^◌, ◌≡◌, get_or_beyond, arith}
use securefs.Crypto.{Rng, RngLaws}
use securefs.Stream.{StreamOps, StreamLaws}
use securefs.Stream.Block.{BlockLaws}
use securefs.Lite.Stream.{LiteOptions, LiteStream, header_size, max_blocks, size, lite_blocks}
use securefs.Lite.Stream.Blocks.{unit, lite_byte, lite_limit, plain_block, IsLiteFile}
use securefs.Lite.Stream.ReadBlock.{read_block_lem}
use securefs.Lite.Stream.WriteBlock.{write_block_lem}
use securefs.Lite.Stream.Adjust.{cut_lem, grow_lem}
use securefs.Lite.Stream.CutBlock.{cut_block_lem}

module _ {T R : Type 0} {under : StreamOps T} (below : StreamLaws under) (random : Rng R)
    (options : LiteOptions) (random_laws : RngLaws random options.iv_size options.tries)
    (pos : 0 < options.block_size)
    (room : header_size + unit below random options * (max_blocks + 1) ≤ below.limit) where
  pub lite_byte_beyond :
      (s : LiteStream T R) (i : ℕ)
      → IsLiteFile below random options s
      → size under random options s ≤ i
      → lite_byte below random options s i ≡ 0
  lite_byte_beyond s i v h =
      get_or_beyond (i % options.block_size)
        (plain_block below random options s (i / options.block_size)) 0
        (omega (arith, v.lengths (i / options.block_size), div-add-mod i options.block_size))

  pub lite_limit_fits : lite_limit below random options < 2 ^ 64
  lite_limit_fits =
      let e : unit below random options * (max_blocks + 1)
          ≡ (max_blocks + 1) * unit below random options =
        mul_comm (unit below random options) (max_blocks + 1) in
      let le : (max_blocks + 1) * options.block_size
          ≤ (max_blocks + 1) * unit below random options =
        mul-le-mul_left (max_blocks + 1) (omega arith) in
      omega (arith, below.limit_fits)

  abbrev pub lite_laws : BlockLaws (lite_blocks under random options)
  lite_laws = record {
    Valid = IsLiteFile below random options;
    byte = lite_byte below random options;
    limit = lite_limit below random options;
    limit_fits = lite_limit_fits;
    block_size_pos = pos;
    byte_beyond = lite_byte_beyond;
    size_fits = λ s v. v.fits;
    read_block_returns = λ s n v h. read_block_lem below random options s n pos room v h;
    write_block_returns = λ s n input v w some fit covers l.
        write_block_lem below random options random_laws room s n input pos v w some fit covers l;
    cut_returns = λ s n v h a. cut_lem below random options pos room s n v h a;
    cut_block_returns = λ s n input v some part smaller.
        cut_block_lem below random options pos room s n input random_laws v some part smaller;
    grow_returns = λ s n v h l e. grow_lem below random options pos room s n v h l e;
  }
