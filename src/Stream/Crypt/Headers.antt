-- ===== src/Stream/Crypt/Headers.antt =====
-- AESGCMCryptStream as the HeaderBase of a file.
use securefs.Prelude.{ℕ, ◌+◌, ◌≤◌, ◌<◌, ◌≡◌, length}
use securefs.Crypto.{GcmLaws, Rng}
use securefs.Stream.{StreamOps, StreamLaws}
use securefs.Stream.Crypt.{CryptOptions, CryptStream, mac_size, read_header, write_header}
use securefs.Stream.Crypt.RoundTrip.{read_header-write_header}
use securefs.File.{HeaderOps}
use securefs.File.Header.{HeaderLaws}

module _ {D M R : Type 0} (under : StreamOps D) (metas : StreamOps M) (random : Rng R)
    (options : CryptOptions) where
  abbrev pub crypt_headers : HeaderOps (CryptStream D M R)
  crypt_headers = record {
    read_header = read_header under metas random options;
    write_header = write_header under metas random options;
  }

  abbrev pub crypt_header_laws :
      (below : StreamLaws metas)
      → ((r : R) (n : ℕ) → length (random.generate_random r n).0 ≡ n)
      → 0 < options.header_size
      → options.header_size + options.iv_size + mac_size ≤ below.limit
      → HeaderLaws crypt_headers
  crypt_header_laws below full pos room = record {
    Valid = λ s. below.Valid s.meta × GcmLaws s.session;
    max_length = options.header_size;
    reads_written = λ s bytes v h.
        let (s', w, r, v', g') =
          read_header-write_header under below random options full s bytes v.0 v.1 pos h room in
        (s', w, r, (v', g'));
  }
