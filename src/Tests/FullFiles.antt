-- ===== src/Tests/FullFiles.antt =====
-- Witnesses for the streams of the full format and for the headers of files.
use securefs.Prelude.{
  ℕ, ◌≡◌, refl, true, false, List, [], ◌∷◌, length, replicate, length-replicate, max, arith,
}
use securefs.Error.{ok}
use securefs.Stream.{Becomes, written}
use securefs.Stream.Memory.{memory}
use securefs.Stream.Hmac.{HmacStream, hmac_open, flush, write, size}
use securefs.Stream.Hmac.Check.{signed, verdict, hmac_open_lem, hmac_open-flush}
use securefs.Stream.Hmac.Contract.{hmac_byte, IsValid, hmac_write_lem}
use securefs.Stream.Crypt.{CryptOptions, CryptStream, read_header, write_header}
use securefs.Stream.Crypt.RoundTrip.{read_header-write_header}
use securefs.Stream.Crypt.Headers.{crypt_headers, crypt_header_laws}
use securefs.File
use securefs.File.{File, HeaderOps, zero_time, is_unlinked}
use securefs.File.Header.{HeaderFits, Recalls, read_header-flush}
use securefs.Crypto.{GcmLaws}
use securefs.Tests.Setup.{memory_file, toy_rng, toy_rng_laws, toy_gcm, toy_gcm_laws, toy_hmac}

abbrev dirty_stream : HmacStream (List ℕ)
dirty_stream = record { key = 1 ∷ []; id = 2 ∷ 3 ∷ []; stream = replicate 40 6; is_dirty = true }

hmac_open-flush_example :
    (s' : HmacStream (List ℕ)) × (flush memory toy_hmac dirty_stream ≡ ok s')
    × (hmac_open memory toy_hmac (1 ∷ []) (2 ∷ 3 ∷ []) s'.stream true ≡ ok s')
    × memory_file.Valid s'.stream
    × (signed memory_file toy_hmac s'.stream ≡ signed memory_file toy_hmac (replicate 40 6))
hmac_open-flush_example =
    hmac_open-flush memory_file toy_hmac dirty_stream (omega arith) (omega arith) (omega arith)
      (λ key text. length-replicate 32 (length text)) refl

hmac_open_lem_example :
    hmac_open memory toy_hmac (1 ∷ []) (2 ∷ []) (replicate 40 6) true
    ≡ verdict memory_file toy_hmac
        (record { key = 1 ∷ []; id = 2 ∷ []; stream = replicate 40 6; is_dirty = false })
hmac_open_lem_example =
    hmac_open_lem memory_file toy_hmac (1 ∷ []) (2 ∷ []) (replicate 40 6) (omega arith)
      (omega arith) (omega arith)

hmac_write_lem_example :
    Becomes
      (IsValid memory_file toy_hmac (omega arith))
      (size memory toy_hmac)
      (hmac_byte memory_file toy_hmac (omega arith))
      (write memory toy_hmac dirty_stream (7 ∷ []) 20)
      (max (size memory toy_hmac dirty_stream) 21)
      (written (hmac_byte memory_file toy_hmac (omega arith) dirty_stream) 20 (7 ∷ []))
hmac_write_lem_example =
    hmac_write_lem memory_file toy_hmac (omega arith) dirty_stream (7 ∷ []) 20 (omega arith)
      (omega arith) (omega arith)

abbrev crypt_options : CryptOptions
crypt_options = record { block_size = 64; iv_size = 12; header_size = 80; check = true; tries = 1 }

abbrev new_crypt : CryptStream (List ℕ) (List ℕ) (Unit {0})
new_crypt = record { stream = []; meta = []; rng = tt; session = toy_gcm; id = 4 ∷ 4 ∷ [] }

read_header-write_header_example :
    (s' : CryptStream (List ℕ) (List ℕ) (Unit {0})) × (write_header memory memory toy_rng
        crypt_options new_crypt
        (1 ∷ 2 ∷ [])
      ≡ ok s')
    × (read_header memory memory toy_rng crypt_options s' 2 ≡ ok (true, 1 ∷ 2 ∷ []))
    × memory_file.Valid s'.meta
    × GcmLaws s'.session
read_header-write_header_example =
    read_header-write_header memory memory_file toy_rng crypt_options (toy_rng_laws.length_random)
      new_crypt (1 ∷ 2 ∷ []) (omega arith) toy_gcm_laws (omega arith) (omega arith) (omega arith)

-- A directory with its times, changed since it was stored.
abbrev folder : File (CryptStream (List ℕ) (List ℕ) (Unit {0}))
folder = record {
  header = new_crypt;
  mode = 16877;
  uid = 1000;
  gid = 100;
  nlink = 2;
  root_page = 0;
  start_free_page = 4294967295;
  num_free_page = 0;
  atime = record { tv_sec = 1700000000; tv_nsec = 1 };
  mtime = record { tv_sec = 1700000001; tv_nsec = 2 };
  ctime = record { tv_sec = 1700000002; tv_nsec = 3 };
  birthtime = record { tv_sec = 1600000000; tv_nsec = 4 };
  is_dirty = true;
  store_time = true;
}

folder_fits : HeaderFits folder
folder_fits = record {
  mode = omega arith;
  uid = omega arith;
  gid = omega arith;
  nlink = omega arith;
  root_page = omega arith;
  start_free_page = omega arith;
  num_free_page = omega arith;
  atime = (omega arith, omega arith);
  mtime = (omega arith, omega arith);
  ctime = (omega arith, omega arith);
  birthtime = (omega arith, omega arith);
}

abbrev toy_headers : HeaderOps (CryptStream (List ℕ) (List ℕ) (Unit {0}))
toy_headers = crypt_headers memory memory toy_rng crypt_options

read_header-flush_example :
    (f' : File (CryptStream (List ℕ) (List ℕ) (Unit {0}))) × (File.flush toy_headers
        (λ h. ok h)
        folder
      ≡ ok f')
    × (f'.is_dirty ≡ false)
    × ((g' : File (CryptStream (List ℕ) (List ℕ) (Unit {0}))) × (File.read_header toy_headers
            (record folder { header = f'.header })
          ≡ ok g')
        × Recalls g' folder)
read_header-flush_example =
    read_header-flush toy_headers
      (crypt_header_laws memory memory toy_rng crypt_options memory_file toy_rng_laws.length_random
        (omega arith) (omega arith))
      folder folder (omega arith, toy_gcm_laws) (omega arith) folder_fits refl refl
