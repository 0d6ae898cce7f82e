-- ===== src/Stream/Crypt/Written.antt =====
-- What the blocks of a file of the full format decrypt to once one of them was written.
use securefs.Prelude.{
  ℕ, ◌+◌, ◌-◌, ◌*◌, ◌≤◌, ◌<◌, ◌≡◌, ◌⊎◌, ap, ap₂, sym, ◌∙◌, inl, inr, false, List, ◌++◌, length, min,
  max, segment, segment_ext, length-append, is_all_zeros, arith,
}
use securefs.Error.{ok}
use securefs.Crypto.{GcmLaws, Rng, RngLaws, generate_nonzero_lem}
use securefs.Stream.{StreamOps, StreamLaws, Becomes, written}
use securefs.Stream.Outcome.{written_before, written_behind}
use securefs.Stream.Block.Contract.{segment-written}
use securefs.Stream.Block.Pieces.{after_block}
use securefs.Stream.Crypt.{CryptOptions, CryptStream, max_block_number, decrypt_with, write_block}
use securefs.Stream.Crypt.RoundTrip.{decrypt_with-sealed, write_sealed}
use securefs.Stream.Crypt.Blocks.{
  unit, place, plain_block, IsCryptFile, opens_there, place_mono, crypt_limit, HasRoom,
  block_number_fits, block_fits,
}

module _ {D M R : Type 0} {under : StreamOps D} {metas : StreamOps M} (above : StreamLaws under)
    (below : StreamLaws metas) (random : Rng R) (options : CryptOptions)
    (pos : 0 < options.block_size) where
  open options use {block_size, iv_size, tries}

  -- The output of `encrypt`, and what it writes to the second stream.
  abbrev pub ciphertext : CryptStream D M R → List ℕ → List ℕ → List ℕ
  ciphertext s iv input = (s.session.encrypt_and_authenticate iv s.id input).0

  abbrev pub iv_and_mac : CryptStream D M R → List ℕ → List ℕ → List ℕ
  iv_and_mac s iv input = iv ++ (s.session.encrypt_and_authenticate iv s.id input).1

  pub length-iv_and_mac :
      (s : CryptStream D M R) (iv input : List ℕ)
      → GcmLaws s.session
      → length iv ≡ iv_size
      → length (iv_and_mac s iv input) ≡ unit above below random options
  length-iv_and_mac s iv input g l = omega (
    arith,
    l,
    g.length_mac iv s.id input,
    length-append iv (s.session.encrypt_and_authenticate iv s.id input).1,
  )

  -- A write of block `n`: the IV that was drawn for it, and both streams.
  pub record BlockWritten (s : CryptStream D M R) (n : ℕ) (input : List ℕ) : Type 0 where
    pub iv : List ℕ
    pub rng : R
    pub length_iv : length iv ≡ iv_size
    pub fine : is_all_zeros iv ≡ false
    pub text :
        Becomes above.Valid under.size above.byte
          (under.write s.stream (ciphertext s iv input) (n * block_size))
          (max (under.size s.stream) (n * block_size + length (ciphertext s iv input)))
          (written (above.byte s.stream) (n * block_size) (ciphertext s iv input))
    pub metadata :
        Becomes below.Valid metas.size below.byte
          (metas.write s.meta (iv_and_mac s iv input) (place above below random options n))
          (max
            (metas.size s.meta)
            (place above below random options n + length (iv_and_mac s iv input)))
          (written (below.byte s.meta) (place above below random options n) (iv_and_mac s iv input))
    pub returns :
        write_block under metas random options s n input
        ≡ ok (record s { stream = text.after; meta = metadata.after; rng = rng })

  pub block_written :
      (s : CryptStream D M R) (n : ℕ) (input : List ℕ)
      → HasRoom above below random options
      → RngLaws random iv_size tries
      → IsCryptFile above below random options s
      → 0 < length input
      → n * block_size + length input ≤ crypt_limit above below random options
      → BlockWritten s n input
  block_written s n input room random_laws v some_bytes l =
      let few = block_number_fits above below random options pos n (omega arith) in
      let (iv, rng, drawn, li, fine) =
        generate_nonzero_lem random iv_size tries s.rng random_laws in
      let same_length = v.session.length_ciphertext iv s.id input in
      let unit_bytes = length-iv_and_mac s iv input v.session li in
      let mono = place_mono above below random options n (max_block_number + 1) (omega arith) in
      let d =
        above.write_returns s.stream (ciphertext s iv input) (n * block_size) v.valid (omega arith)
          (omega (arith, room.for_data)) in
      let c =
        below.write_returns s.meta (iv_and_mac s iv input) (place above below random options n)
          v.meta_valid (omega arith) (omega (arith, room.for_metas)) in
      record {
        iv = iv;
        rng = rng;
        length_iv = li;
        fine = fine;
        text = d;
        metadata = c;
        returns =
            write_sealed above below random options s n input iv rng c.after d.after few some_bytes
              (
                omega (arith, room.for_data, block_fits above below random options n few),
                omega (arith, room.for_metas),
              )
              drawn c.returns d.returns;
      }

  module _ (s : CryptStream D M R) (n : ℕ) (input : List ℕ) (w : BlockWritten s n input)
      (v : IsCryptFile above below random options s) (fit : length input ≤ block_size) where
    open w use {iv, rng, length_iv, fine, text, metadata}

    abbrev pub after_write : CryptStream D M R
    after_write = record s { stream = text.after; meta = metadata.after; rng = rng }

    -- The block itself, if it has as many bytes as were written.
    pub opens_here :
        (k : ℕ)
        → k ≡ length input
        → decrypt_with under metas random options after_write n
            (segment (above.byte text.after) (n * block_size) k)
            (segment
              (below.byte metadata.after)
              (place above below random options n)
              (unit above below random options))
          ≡ ok input
    unfolding decrypt_with
    opens_here k e =
        ap₂ (decrypt_with under metas random options s n)
          (ap (segment (above.byte text.after) (n * block_size))
              (e ∙ sym (v.session.length_ciphertext iv s.id input))
            ∙ segment_ext (above.byte text.after)
                (written (above.byte s.stream) (n * block_size) (ciphertext s iv input))
                (n * block_size) (length (ciphertext s iv input)) (λ i _ _. text.holds i)
            ∙ segment-written (above.byte s.stream) (n * block_size) (ciphertext s iv input))
          (ap (segment (below.byte metadata.after) (place above below random options n))
              (sym (length-iv_and_mac s iv input v.session length_iv))
            ∙ segment_ext (below.byte metadata.after)
                (written (below.byte s.meta) (place above below random options n)
                  (iv_and_mac s iv input))
                (place above below random options n) (length (iv_and_mac s iv input))
                (λ i _ _. metadata.holds i)
            ∙ segment-written (below.byte s.meta) (place above below random options n)
                (iv_and_mac s iv input))
        ∙ decrypt_with-sealed above below random options s n iv input v.session length_iv fine

    old_bytes :
        (m i : ℕ)
        → (m < n) ⊎ (n < m)
        → m * block_size ≤ i
        → i < m * block_size + block_size
        → above.byte text.after i ≡ above.byte s.stream i
    old_bytes m i (inl before) p q =
        text.holds i
        ∙ written_before (above.byte s.stream) (n * block_size) (ciphertext s iv input) i
            (omega (arith, after_block block_size pos m n before))
    old_bytes m i (inr behind) p q =
        text.holds i
        ∙ written_behind (above.byte s.stream) (n * block_size) (ciphertext s iv input) i (
            omega (
              arith,
              v.session.length_ciphertext iv s.id input,
              after_block block_size pos n m behind,
            ))

    old_meta :
        (m i : ℕ)
        → (m < n) ⊎ (n < m)
        → place above below random options m ≤ i
        → i < place above below random options m + unit above below random options
        → below.byte metadata.after i ≡ below.byte s.meta i
    old_meta m i (inl before) p q =
        metadata.holds i
        ∙ written_before (below.byte s.meta) (place above below random options n)
            (iv_and_mac s iv input) i
            (omega (arith, place_mono above below random options m n before))
    old_meta m i (inr behind) p q =
        metadata.holds i
        ∙ written_behind (below.byte s.meta) (place above below random options n)
            (iv_and_mac s iv input) i
            (omega (
              arith,
              length-iv_and_mac s iv input v.session length_iv,
              place_mono above below random options n m behind,
            ))

    -- Any other block, if as many bytes of it are there as before.
    pub opens_elsewhere :
        (m k : ℕ)
        → (m < n) ⊎ (n < m)
        → m * block_size < under.size s.stream
        → k ≡ min block_size (under.size s.stream - m * block_size)
        → decrypt_with under metas random options after_write m
            (segment (above.byte text.after) (m * block_size) k)
            (segment
              (below.byte metadata.after)
              (place above below random options m)
              (unit above below random options))
          ≡ ok (plain_block above below random options s m)
    unfolding decrypt_with
    opens_elsewhere m k other there e =
        ap₂ (decrypt_with under metas random options s m)
          (ap (segment (above.byte text.after) (m * block_size)) e
            ∙ segment_ext (above.byte text.after) (above.byte s.stream) (m * block_size)
                (min block_size (under.size s.stream - m * block_size))
                (λ i p q. old_bytes m i other p (omega arith)))
          (segment_ext (below.byte metadata.after) (below.byte s.meta)
            (place above below random options m) (unit above below random options)
            (λ i p q. old_meta m i other p q))
        ∙ opens_there above below random options s m v there
