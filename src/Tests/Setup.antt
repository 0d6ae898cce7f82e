-- ===== src/Tests/Setup.antt =====
-- Test data: a stream in memory, a cipher with a constant MAC, a generator of sevens, and files.
use securefs.Prelude.{
  ℕ, length, ◌+◌, ◌*◌, ◌^◌, ◌≤◌, ◌≡◌, refl, ap, true, List, [], ◌∷◌, replicate, same, same_refl,
  is_all_zeros, length-replicate, max, segment-zero, arith,
}
use securefs.Crypto.{Gcm, GcmLaws, Rng, RngLaws}
use securefs.Stream.{StreamLaws, Becomes, written}
use securefs.Stream.Memory.{memory, memory_laws}
use securefs.Stream.Block.{BlockLaws, write}
use securefs.Stream.Block.Resizes.{write_lem}
use securefs.Lite.Stream.{
  LiteOptions, LiteStream, size, header_size, max_blocks, open_block, lite_blocks,
}
use securefs.Lite.Stream.Blocks.{unit, from_blocks, IsLiteFile, sealed_block}
use securefs.Lite.Stream.Laws.{lite_laws}

abbrev pub memory_file : StreamLaws memory
memory_file = memory_laws (2 ^ 62) (omega arith)

-- The text as it is, and sixteen ones.
abbrev pub toy_gcm : Gcm
toy_gcm = record {
  encrypt_and_authenticate = λ iv aad text. (text, replicate 16 1);
  decrypt_and_verify = λ iv aad mac text. (text, same mac (replicate 16 1));
}

pub toy_gcm_laws : GcmLaws toy_gcm
toy_gcm_laws = record {
  length_ciphertext = λ iv aad text. refl;
  length_mac = λ iv aad text. refl;
  decrypts = λ iv aad text. ap (λ b. (text, b)) (same_refl (replicate 16 1));
}

-- A MAC that is the length of the text.
abbrev pub toy_hmac : List ℕ → List ℕ → List ℕ
toy_hmac key text = replicate 32 (length text)

abbrev pub toy_rng : Rng (Unit {0})
toy_rng = record { generate_random = λ r n. (replicate n 7, r) }

pub toy_rng_laws : RngLaws toy_rng 12 1
unfolding is_all_zeros
toy_rng_laws = record {
  length_random = λ r n. length-replicate n 7;
  not_always_null = λ r. (0, omega arith, refl);
}

abbrev pub lite_options : LiteOptions
lite_options = record { block_size = 32; iv_size = 12; check = true; tries = 1 }

-- A lite file with nothing but its header.
abbrev pub new_file : LiteStream (List ℕ) (Unit {0})
new_file = record { stream = replicate 16 9; rng = tt; session = toy_gcm }

nothing_sealed : (n : ℕ) → sealed_block memory_file toy_rng lite_options new_file n ≡ []
nothing_sealed n = segment-zero _ _ _ (omega arith)

pub new_file-IsLiteFile : IsLiteFile memory_file toy_rng lite_options new_file
unfolding open_block
new_file-IsLiteFile =
    (from_blocks memory_file toy_rng lite_options (omega arith) new_file 0 (λ _. []) (omega arith)
      toy_gcm_laws refl (omega arith) (λ n. rw (nothing_sealed n) refl) (λ n. omega arith)).0

pub lite_room : header_size + unit memory_file toy_rng lite_options * (max_blocks + 1) ≤ 2 ^ 62
lite_room = omega arith

abbrev pub file_blocks : BlockLaws (lite_blocks memory toy_rng lite_options)
file_blocks = lite_laws memory_file toy_rng lite_options toy_rng_laws (omega arith) lite_room

abbrev pub unset : List ℕ
unset = replicate 32 0

-- The file after a write of three bytes behind a gap of forty.
abbrev pub three_bytes :
    Becomes file_blocks.Valid
      (size memory toy_rng lite_options)
      file_blocks.byte
      (write (lite_blocks memory toy_rng lite_options) unset new_file (1 ∷ 2 ∷ 3 ∷ []) 40)
      (max (size memory toy_rng lite_options new_file) 43)
      (written (file_blocks.byte new_file) 40 (1 ∷ 2 ∷ 3 ∷ []))
three_bytes =
    write_lem file_blocks unset refl new_file (1 ∷ 2 ∷ 3 ∷ []) 40 new_file-IsLiteFile (omega arith)
