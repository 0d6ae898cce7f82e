-- ===== src/Stream/Crypt/Contract.antt =====
-- The stream of the full format as its users see it: reads after writes and resizes.
use securefs.Prelude.{ℕ, ◌+◌, ◌≤◌, ◌<◌, ◌≡◌, List, length, max, segment}
use securefs.Error.{ok}
use securefs.Crypto.{Rng, RngLaws}
use securefs.Stream.{StreamOps, StreamLaws, written, cut}
use securefs.Stream.Block.{read, write, resize}
use securefs.Stream.Block.Contract.{read-write_blocks, read-resize_blocks}
use securefs.Stream.Crypt.{CryptOptions, CryptStream, size, crypt_blocks}
use securefs.Stream.Crypt.Blocks.{crypt_byte, crypt_limit, IsCryptFile, HasRoom}
use securefs.Stream.Crypt.Laws.{crypt_laws}

module _ {D M R : Type 0} {under : StreamOps D} {metas : StreamOps M} (above : StreamLaws under)
    (below : StreamLaws metas) (random : Rng R) (options : CryptOptions)
    (pos : 0 < options.block_size) (room : HasRoom above below random options)
    (random_laws : RngLaws random options.iv_size options.tries) (unset : List ℕ)
    (full : length unset ≡ options.block_size) where
  -- A write of any bytes at any offset that fits succeeds. A read of that range then hands over these
  -- bytes, all others are as before (zeros in a gap), and the file is well formed.
  pub read-write_full :
      (s : CryptStream D M R) (input : List ℕ) (offset : ℕ)
      → IsCryptFile above below random options s
      → offset + length input ≤ crypt_limit above below random options
      → (s' : CryptStream D M R) × (write
            (crypt_blocks under metas random options)
            unset
            s
            input
            offset
          ≡ ok s')
        × (read (crypt_blocks under metas random options) unset s' offset (length input) ≡ ok input)
        × (size under metas random options s'
            ≡ max (size under metas random options s) (offset + length input))
        × ((i : ℕ)
            → crypt_byte above below random options s' i
              ≡ written (crypt_byte above below random options s) offset input i)
        × IsCryptFile above below random options s'
  unfolding crypt_laws
  read-write_full s input offset v fits =
      read-write_blocks (crypt_laws above below random options pos room random_laws) unset full s
        input offset v fits

  -- A resize to any size that fits succeeds. A read of the whole file then hands over the old bytes,
  -- cut or followed by zeros.
  pub read-resize_full :
      (s : CryptStream D M R) (n : ℕ)
      → IsCryptFile above below random options s
      → n ≤ crypt_limit above below random options
      → (s' : CryptStream D M R) × (resize (crypt_blocks under metas random options) unset s n
          ≡ ok s')
        × (read (crypt_blocks under metas random options) unset s' 0 n
            ≡ ok (segment (cut (crypt_byte above below random options s) n) 0 n))
        × IsCryptFile above below random options s'
  unfolding crypt_laws
  read-resize_full s n v fits =
      read-resize_blocks (crypt_laws above below random options pos room random_laws) unset full s n
        v fits
