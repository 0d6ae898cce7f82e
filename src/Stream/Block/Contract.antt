-- ===== src/Stream/Block/Contract.antt =====
-- BlockBasedStream as a StreamBase, whatever subclass provides its blocks.
use securefs.Prelude.{
  ℕ, ◌+◌, ◌≤◌, ◌≡◌, ◌∙◌, ap, List, length, max, segment, segment_ext, list_ext, length-segment,
  get_or-segment, arith,
}
use securefs.Error.{ok}
use securefs.Stream.{StreamLaws, written, cut}
use securefs.Stream.Block.{BlockOps, BlockLaws, block_stream, read, write, resize}
use securefs.Stream.Block.Reads.{read_lem}
use securefs.Stream.Block.Resizes.{resize_lem, write_lem}

-- A run of a file in which `input` is written is `input`.
pub segment-written :
    (f : ℕ → ℕ) (start : ℕ) (input : List ℕ)
    → segment (written f start input) start (length input) ≡ input
segment-written f start input =
    list_ext _ _ 0 (length-segment (written f start input) start (length input)) λ i h. ground (
      arith,
      get_or-segment (written f start input) start (length input) i,
      length-segment (written f start input) start (length input),
    )

module _ {S : Type 0} {o : BlockOps S} (laws : BlockLaws o) (unset : List ℕ)
    (u : length unset ≡ o.block_size) where
  abbrev pub block_stream_laws : StreamLaws (block_stream o unset)
  block_stream_laws = record {
    Valid = laws.Valid;
    byte = laws.byte;
    limit = laws.limit;
    limit_fits = laws.limit_fits;
    byte_beyond = laws.byte_beyond;
    size_fits = laws.size_fits;
    read_returns = read_lem laws unset;
    write_returns = λ s input offset v _. write_lem laws unset u s input offset v;
    resize_returns = resize_lem laws unset u;
  }

  -- What is read after a write.
  pub read-write_blocks :
      (s : S) (input : List ℕ) (offset : ℕ)
      → laws.Valid s
      → offset + length input ≤ laws.limit
      → (s' : S) × (write o unset s input offset ≡ ok s')
        × (read o unset s' offset (length input) ≡ ok input)
        × (o.size s' ≡ max (o.size s) (offset + length input))
        × ((i : ℕ) → laws.byte s' i ≡ written (laws.byte s) offset input i)
        × laws.Valid s'
  read-write_blocks s input offset v fits =
      let b = write_lem laws unset u s input offset v fits in
      (
        b.after,
        b.returns,
        read_lem laws unset b.after offset (length input) b.valid fits
            ∙ ap (λ n. ok (segment (laws.byte b.after) offset n)) (omega (arith, b.resized))
            ∙ ap ok (
                segment_ext (laws.byte b.after) (written (laws.byte s) offset input) offset
                  (length input) (λ i _ _. b.holds i)
                ∙ segment-written (laws.byte s) offset input),
        b.resized,
        b.holds,
        b.valid,
      )

  -- What is read after a resize.
  pub read-resize_blocks :
      (s : S) (n : ℕ)
      → laws.Valid s
      → n ≤ laws.limit
      → (s' : S) × (resize o unset s n ≡ ok s')
        × (read o unset s' 0 n ≡ ok (segment (cut (laws.byte s) n) 0 n))
        × laws.Valid s'
  read-resize_blocks s n v fits =
      let b = resize_lem laws unset u s n v fits in
      (
        b.after,
        b.returns,
        read_lem laws unset b.after 0 n b.valid (omega (arith, fits))
            ∙ ap (λ k. ok (segment (laws.byte b.after) 0 k)) (omega (arith, b.resized))
            ∙ ap ok
                (segment_ext (laws.byte b.after) (cut (laws.byte s) n) 0 n (λ i _ _. b.holds i)),
        b.valid,
      )
