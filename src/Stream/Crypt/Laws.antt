-- ===== src/Stream/Crypt/Laws.antt =====
-- AESGCMCryptStream of the full format as a subclass of BlockBasedStream.
use securefs.Prelude.{◌+◌, ◌*◌, ◌≤◌, ◌<◌, length, arith}
use securefs.Crypto.{Rng, RngLaws}
use securefs.Stream.{StreamOps, StreamLaws}
use securefs.Stream.Block.{BlockLaws}
use securefs.Stream.Crypt.{CryptOptions, size, crypt_blocks}
use securefs.Stream.Crypt.Blocks.{crypt_byte, crypt_limit, IsCryptFile, HasRoom, read_block_lem}
use securefs.Stream.Crypt.Written.{block_written}
use securefs.Stream.Crypt.Writes.{write_after, cut_after}
use securefs.Stream.Crypt.Resizes.{cut_lem, grow_lem, crypt_byte_beyond}

module _ {D M R : Type 0} {under : StreamOps D} {metas : StreamOps M} (above : StreamLaws under)
    (below : StreamLaws metas) (random : Rng R) (options : CryptOptions)
    (pos : 0 < options.block_size) (room : HasRoom above below random options)
    (random_laws : RngLaws random options.iv_size options.tries) where
  unfoldable pub crypt_laws : BlockLaws (crypt_blocks under metas random options)
  unfolding size
  crypt_laws = record {
    Valid = IsCryptFile above below random options;
    byte = crypt_byte above below random options;
    limit = crypt_limit above below random options;
    limit_fits = omega (arith, room.for_data, above.limit_fits);
    block_size_pos = pos;
    byte_beyond = λ s i v h. crypt_byte_beyond above below random options pos room s v i h;
    size_fits = λ s v. v.fits;
    read_block_returns = λ s n v h. read_block_lem above below random options pos s n room v h;
    write_block_returns = λ s n input v within some_bytes fit covers l.
        write_after above below random options pos room s n input
          (block_written above below random options pos s n input room random_laws v some_bytes l) v
          fit within some_bytes l covers;
    cut_returns = λ s n v h a. cut_lem above below random options pos room s v n h a;
    cut_block_returns = λ s n input v some_bytes part smaller.
        let l : n * options.block_size + length input ≤ crypt_limit above below random options =
          omega (arith, v.fits, smaller) in
        cut_after above below random options pos room s n input
          (block_written above below random options pos s n input room random_laws v some_bytes l) v
          (omega arith) (omega arith) some_bytes l smaller;
    grow_returns = λ s n v h l e. grow_lem above below random options pos room s v n h l e;
  }
