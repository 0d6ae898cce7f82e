-- ===== src/Tests/LiteFiles.antt =====
-- Witnesses for lite::AESGCMCryptStream.
use securefs.Prelude.{
  ℕ, zero, suc, ◌<◌, ◌+◌, ◌≡◌, ◌≤◌, ◌⊎◌, refl, true, is_all_zeros, List, [], ◌∷◌, ◌++◌, length,
  replicate, same, max, segment, arith,
}
use securefs.Error.{ok, throw}
use securefs.Crypto.{Rng, after_draws, generate_nonzero, generate_nonzero-after_draws}
use securefs.Stream.{Becomes, written, cut}
use securefs.Stream.Memory.{memory}
use securefs.Stream.Block.{read, write, resize}
use securefs.Lite.Stream.{
  LiteStream, mac_size, lite_blocks, size, read_block, write_block, open_block, calculate_real_size,
}
use securefs.Lite.Stream.Blocks.{IsLiteFile, lite_byte}
use securefs.Lite.Stream.Sizes.{encoded_size, calculate_real_size-encoded_size}
use securefs.Lite.Stream.WriteBlock.{write_block_lem}
use securefs.Lite.Stream.Contract.{read-write, read-resize}
use securefs.Lite.Stream.Verified.{open_block-authentic, authentic}
use securefs.Lite.Stream.BlockNumbers.{refusal, block_numbers_lem}
use securefs.Tests.Setup.{
  memory_file, toy_rng, toy_rng_laws, toy_gcm, lite_options, lite_room, new_file,
  new_file-IsLiteFile, unset, three_bytes,
}

read-write_example :
    (s' : LiteStream (List ℕ) (Unit {0})) × (write
        (lite_blocks memory toy_rng lite_options)
        unset
        three_bytes.after
        (8 ∷ 9 ∷ [])
        50
      ≡ ok s')
    × (read (lite_blocks memory toy_rng lite_options) unset s' 50 2 ≡ ok (8 ∷ 9 ∷ []))
    × (size memory toy_rng lite_options s'
        ≡ max (size memory toy_rng lite_options three_bytes.after) 52)
    × ((i : ℕ)
        → lite_byte memory_file toy_rng lite_options s' i
          ≡ written
              (lite_byte memory_file toy_rng lite_options three_bytes.after)
              50
              (8 ∷ 9 ∷ [])
              i)
    × IsLiteFile memory_file toy_rng lite_options s'
read-write_example =
    read-write memory_file toy_rng lite_options toy_rng_laws (omega arith) lite_room unset refl
      three_bytes.after (8 ∷ 9 ∷ []) 50 three_bytes.valid (omega arith)

read-resize_example :
    (s' : LiteStream (List ℕ) (Unit {0})) × (resize
        (lite_blocks memory toy_rng lite_options)
        unset
        three_bytes.after
        100
      ≡ ok s')
    × (read (lite_blocks memory toy_rng lite_options) unset s' 0 100
        ≡ ok (
            segment (cut (lite_byte memory_file toy_rng lite_options three_bytes.after) 100) 0 100))
    × IsLiteFile memory_file toy_rng lite_options s'
read-resize_example =
    read-resize memory_file toy_rng lite_options toy_rng_laws (omega arith) lite_room unset refl
      three_bytes.after 100 three_bytes.valid (omega arith)

write_block_lem_example :
    Becomes
      (IsLiteFile memory_file toy_rng lite_options)
      (size memory toy_rng lite_options)
      (lite_byte memory_file toy_rng lite_options)
      (write_block memory toy_rng lite_options new_file 0 (5 ∷ 6 ∷ []))
      (max (size memory toy_rng lite_options new_file) 2)
      (written (lite_byte memory_file toy_rng lite_options new_file) 0 (5 ∷ 6 ∷ []))
unfolding size calculate_real_size
write_block_lem_example =
    write_block_lem memory_file toy_rng lite_options toy_rng_laws lite_room new_file 0 (5 ∷ 6 ∷ [])
      (omega arith) new_file-IsLiteFile (omega arith) (omega arith) (omega arith) (omega arith)
      (omega arith)

calculate_real_size-encoded_size_example : calculate_real_size (encoded_size 32 12 70) 32 12 ≡ 70
calculate_real_size-encoded_size_example = calculate_real_size-encoded_size 32 12 (omega arith) 70

abbrev sealed_text : List ℕ
sealed_text = replicate 12 7 ++ ((5 ∷ []) ++ replicate 16 1)

sealed_opens : open_block memory toy_rng lite_options toy_gcm 0 sealed_text ≡ ok (5 ∷ [])
unfolding open_block is_all_zeros same
sealed_opens = refl

open_block-authentic_example :
    (length sealed_text ≤ mac_size + 12)
    ⊎ ((is_all_zeros sealed_text ≡ true)
        ⊎ (authentic memory toy_rng lite_options toy_gcm 0 sealed_text ≡ true))
open_block-authentic_example =
    open_block-authentic memory toy_rng lite_options toy_gcm 0 sealed_text (5 ∷ []) refl
      sealed_opens

block_numbers_lem_example :
    (read_block memory toy_rng lite_options new_file 2147483648
      ≡ throw (refusal memory toy_rng lite_options 2147483648))
    × (s' : LiteStream (List ℕ) (Unit {0})) × (write_block memory toy_rng lite_options new_file
          2147483648
          (1 ∷ [])
        ≡ throw (refusal memory toy_rng lite_options 2147483648))
block_numbers_lem_example =
    block_numbers_lem memory_file toy_rng lite_options toy_rng_laws (omega arith) lite_room new_file
      2147483648 (1 ∷ []) new_file-IsLiteFile (omega arith) (omega arith)

-- A generator whose first draw is null.
abbrev counter : Rng ℕ
counter = record { generate_random = λ r n. (replicate n r, r + 1) }

generate_nonzero-after_draws_example : generate_nonzero 3 counter 0 12 ≡ ok (replicate 12 1, 2)
unfolding is_all_zeros
generate_nonzero-after_draws_example =
    generate_nonzero-after_draws counter 12 3 1 0 (omega arith) first_null refl
  where
    first_null :
        (j : ℕ)
        → j < 1
        → is_all_zeros (counter.generate_random (after_draws counter 12 j 0) 12).0 ≡ true
    first_null zero h = refl
    first_null (suc j) h = absurd (omega arith)
