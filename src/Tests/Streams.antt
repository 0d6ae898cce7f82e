-- ===== src/Tests/Streams.antt =====
-- Witnesses for the streams in blocks: a lite file in memory.
use securefs.Prelude.{◌-◌, ◌≡◌, refl, [], ◌∷◌, min, max, segment, arith}
use securefs.Error.{ok}
use securefs.Stream.{Becomes, written, cut}
use securefs.Stream.Memory.{memory}
use securefs.Stream.Block.{read, write, resize}
use securefs.Stream.Block.Reads.{read_lem}
use securefs.Stream.Block.Resizes.{write_lem, resize_lem}
use securefs.Lite.Stream.{lite_blocks, size}
use securefs.Tests.Setup.{toy_rng, lite_options, file_blocks, unset, three_bytes}

read_lem_example :
    read (lite_blocks memory toy_rng lite_options) unset three_bytes.after 38 100
    ≡ ok (
        segment
          (file_blocks.byte three_bytes.after)
          38
          (min 100 (size memory toy_rng lite_options three_bytes.after - 38)))
read_lem_example =
    read_lem file_blocks unset three_bytes.after 38 100 three_bytes.valid (omega arith)

write_lem_example :
    Becomes file_blocks.Valid
      (size memory toy_rng lite_options)
      file_blocks.byte
      (write (lite_blocks memory toy_rng lite_options) unset three_bytes.after (4 ∷ 5 ∷ []) 31)
      (max (size memory toy_rng lite_options three_bytes.after) 33)
      (written (file_blocks.byte three_bytes.after) 31 (4 ∷ 5 ∷ []))
write_lem_example =
    write_lem file_blocks unset refl three_bytes.after (4 ∷ 5 ∷ []) 31 three_bytes.valid
      (omega arith)

resize_lem_example :
    Becomes file_blocks.Valid
      (size memory toy_rng lite_options)
      file_blocks.byte
      (resize (lite_blocks memory toy_rng lite_options) unset three_bytes.after 41)
      41
      (cut (file_blocks.byte three_bytes.after) 41)
resize_lem_example =
    resize_lem file_blocks unset refl three_bytes.after 41 three_bytes.valid (omega arith)
