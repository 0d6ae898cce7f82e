-- ===== src/Tests/FullStreams.antt =====
-- Witnesses for the stream of the full format, its IVs and MACs in an HMACStream.
use securefs.Prelude.{ℕ, ◌≤◌, ◌≡◌, refl, true, List, [], ◌∷◌, replicate, max, segment, arith}
use securefs.Error.{ok}
use securefs.Stream.{StreamOps, StreamLaws, written, cut}
use securefs.Stream.Memory.{memory}
use securefs.Stream.Hmac
use securefs.Stream.Hmac.{HmacStream, hmac_stream}
use securefs.Stream.Hmac.Contract.{hmac_laws}
use securefs.Stream.Block.{read, write, resize}
use securefs.Stream.Crypt.{CryptOptions, CryptStream, size, crypt_blocks}
use securefs.Stream.Crypt.Blocks.{crypt_byte, IsCryptFile, HasRoom, well_formed}
use securefs.Stream.Crypt.Contract.{read-write_full, read-resize_full}
use securefs.Tests.Setup.{memory_file, toy_rng, toy_rng_laws, toy_gcm, toy_gcm_laws, toy_hmac}

abbrev metas : StreamOps (HmacStream (List ℕ))
metas = hmac_stream memory toy_hmac

abbrev meta_file : StreamLaws metas
meta_file = hmac_laws memory_file toy_hmac (omega arith)

abbrev options : CryptOptions
options = record { block_size = 64; iv_size = 12; header_size = 80; check = true; tries = 1 }

abbrev unset : List ℕ
unset = replicate 64 0

abbrev File : Type 0
File = CryptStream (List ℕ) (HmacStream (List ℕ)) (Unit {0})

-- A file without a byte.
abbrev new_file : File
new_file = record {
  stream = [];
  meta = record { key = 1 ∷ []; id = 2 ∷ []; stream = []; is_dirty = true };
  rng = tt;
  session = toy_gcm;
  id = 4 ∷ 4 ∷ [];
}

enough_room : HasRoom memory_file meta_file toy_rng options
enough_room = record { for_data = omega arith; few_bytes = omega arith; for_metas = omega arith }

no_meta : Hmac.size memory toy_hmac new_file.meta ≤ 0
unfolding Hmac.size
no_meta = omega arith

new_file-IsCryptFile : IsCryptFile memory_file meta_file toy_rng options new_file
new_file-IsCryptFile =
    (well_formed memory_file meta_file toy_rng options (omega arith) new_file 0 (λ _. [])
      (omega arith) (omega arith) toy_gcm_laws refl (omega arith) (λ m h. absurd (omega arith))
      (λ m i h p. meta_file.byte_beyond new_file.meta i (omega arith) (omega (arith, no_meta)))
      (λ m h. absurd (omega arith)) (λ m. omega arith)).0

-- Three bytes behind a gap of a block and more.
three_bytes :
    (s' : File) × (write
        (crypt_blocks memory metas toy_rng options)
        unset
        new_file
        (1 ∷ 2 ∷ 3 ∷ [])
        70
      ≡ ok s')
    × (read (crypt_blocks memory metas toy_rng options) unset s' 70 3 ≡ ok (1 ∷ 2 ∷ 3 ∷ []))
    × (size memory metas toy_rng options s' ≡ max (size memory metas toy_rng options new_file) 73)
    × ((i : ℕ)
        → crypt_byte memory_file meta_file toy_rng options s' i
          ≡ written
              (crypt_byte memory_file meta_file toy_rng options new_file)
              70
              (1 ∷ 2 ∷ 3 ∷ [])
              i)
    × IsCryptFile memory_file meta_file toy_rng options s'
three_bytes =
    read-write_full memory_file meta_file toy_rng options (omega arith) enough_room toy_rng_laws
      unset refl new_file (1 ∷ 2 ∷ 3 ∷ []) 70 new_file-IsCryptFile (omega arith)

read-write_full_example :
    (s' : File) × (write
        (crypt_blocks memory metas toy_rng options)
        unset
        three_bytes.0
        (8 ∷ 9 ∷ [])
        20
      ≡ ok s')
    × (read (crypt_blocks memory metas toy_rng options) unset s' 20 2 ≡ ok (8 ∷ 9 ∷ []))
    × (size memory metas toy_rng options s'
        ≡ max (size memory metas toy_rng options three_bytes.0) 22)
    × ((i : ℕ)
        → crypt_byte memory_file meta_file toy_rng options s' i
          ≡ written
              (crypt_byte memory_file meta_file toy_rng options three_bytes.0)
              20
              (8 ∷ 9 ∷ [])
              i)
    × IsCryptFile memory_file meta_file toy_rng options s'
read-write_full_example =
    read-write_full memory_file meta_file toy_rng options (omega arith) enough_room toy_rng_laws
      unset refl three_bytes.0 (8 ∷ 9 ∷ []) 20 three_bytes.5 (omega arith)

read-resize_full_example :
    (s' : File) × (resize (crypt_blocks memory metas toy_rng options) unset three_bytes.0 71
      ≡ ok s')
    × (read (crypt_blocks memory metas toy_rng options) unset s' 0 71
        ≡ ok (
            segment (cut (crypt_byte memory_file meta_file toy_rng options three_bytes.0) 71) 0 71))
    × IsCryptFile memory_file meta_file toy_rng options s'
read-resize_full_example =
    read-resize_full memory_file meta_file toy_rng options (omega arith) enough_room toy_rng_laws
      unset refl three_bytes.0 71 three_bytes.5 (omega arith)
