-- ===== src/Lite/Stream/BlockNumbers.antt =====
-- Which numbers of blocks `read_block` and `write_block` of the lite stream take.
use native.Mathlib.Nat.{mul-lt-mul_of_pos_right}
use securefs.Prelude.{
  ℕ, ◌+◌, ◌-◌, ◌*◌, ◌^◌, ◌≤◌, ◌<◌, ◌≡◌, refl, inl, inr, ltb, u64, min, length, List, segment,
  Bool-cases, if◌then◌else◌, gt→leb, ltb→lt, ltb→ge, arith,
}
use securefs.Error.{ok, throw, Exception, stream_too_long}
use securefs.Crypto.{Rng, RngLaws}
use securefs.Stream.{StreamOps, StreamLaws}
use securefs.Lite.Stream.{
  LiteOptions, LiteStream, header_size, max_blocks, size, too_long, read_block, write_block,
}
use securefs.Lite.Stream.Blocks.{unit, lite_byte, IsLiteFile}
use securefs.Lite.Stream.ReadBlock.{read_block_lem}
use securefs.Lite.Stream.WriteBlock.{written_below}

module _ {T R : Type 0} (under : StreamOps T) (random : Rng R) (options : LiteOptions) where
  open options use {block_size}

  -- What is thrown for a number that is too large.
  abbrev pub refusal : ℕ → Exception
  refusal n = stream_too_long (u64 (max_blocks * block_size)) (u64 (n * block_size))

  refused_lem :
      (s : LiteStream T R) (n : ℕ) (input : List ℕ)
      → max_blocks < n
      → (read_block under random options s n ≡ throw (refusal n))
        × (write_block under random options s n input ≡ throw (refusal n))
  unfolding read_block write_block too_long
  refused_lem s n input h = rw (gt→leb n max_blocks h) (refl, refl)

module _ {T R : Type 0} {under : StreamOps T} (below : StreamLaws under) (random : Rng R)
    (options : LiteOptions) (random_laws : RngLaws random options.iv_size options.tries)
    (pos : 0 < options.block_size)
    (room : header_size + unit below random options * (max_blocks + 1) ≤ below.limit) where
  open options use {block_size}

  -- Of a well-formed file over a stream with room for 2^31 blocks, read_block hands over exactly the
  -- blocks with a number below 2^31: their decrypted bytes, up to the end of the file. write_block
  -- takes a text of 1 to block_size bytes for exactly these numbers. Both throw
  -- StreamTooLongException for any other.
  pub block_numbers_lem :
      (s : LiteStream T R) (n : ℕ) (input : List ℕ)
      → IsLiteFile below random options s
      → 0 < length input
      → length input ≤ block_size
      → (read_block under random options s n ≡ (
          if ltb n (2 ^ 31)
          then ok (
              segment
                (lite_byte below random options s)
                (n * block_size)
                (min block_size (size under random options s - n * block_size)))
          else throw (refusal under random options n)))
        × (s' : LiteStream T R) × (write_block under random options s n input
            ≡ (if ltb n (2 ^ 31) then ok s' else throw (refusal under random options n)))
  block_numbers_lem s n input v some fit = elim (Bool-cases (ltb n (2 ^ 31))) [
    | inl few ↦
        let number : n < max_blocks + 1 = omega (arith, ltb→lt _ _ few) in
        let stored =
          written_below below random options random_laws room s n input v (omega arith) some fit in
        rw few (
          read_block_lem below random options s n pos room v (mul-lt-mul_of_pos_right number pos),
          record { stream = stored.stream; rng = stored.rng; session = s.session },
          stored.returns,
        )
    | inr many ↦
        let refused = refused_lem under random options s n input (omega (arith, ltb→ge _ _ many)) in
        rw many (refused.0, s, refused.1)
  ]
