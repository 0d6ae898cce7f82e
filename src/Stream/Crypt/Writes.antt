-- ===== src/Stream/Crypt/Writes.antt =====
-- write_block of a file of the full format, alone and before a cut.
use native.Mathlib.Nat.{mul-le-mul_right}
use securefs.Prelude.{
  ℕ, ◌+◌, ◌-◌, ◌*◌, ◌≤◌, ◌<◌, ◌≡◌, ◌⊎◌, refl, ap, sym, subst, ◌∙◌, inl, inr, false, List, length,
  min, max, ltb, ◌==◌, ==→eq, ltb→lt, ltb→ge, Bool-cases, segment, arith,
}
use securefs.Error.{ok, ◌>>=◌}
use securefs.Crypto.{Rng}
use securefs.Stream.{StreamOps, StreamLaws, Becomes, written, cut}
use securefs.Stream.Outcome.{Becomes-subst, written_behind}
use securefs.Stream.Block.Pieces.{
  replaced, ended, Blocks-replaced, Blocks-ended, pieces-replaced, pieces-ended, after_block,
}
use securefs.Stream.Crypt.{
  CryptOptions, CryptStream, decrypt_with, write_block, adjust_logical_size, size,
}
use securefs.Stream.Crypt.Blocks.{
  unit, place, meta_block, plain_block, crypt_byte, crypt_limit, IsCryptFile, HasRoom, well_formed,
  place_mono,
}
use securefs.Stream.Crypt.Adjust.{adjusted}
use securefs.Stream.Crypt.Written.{
  BlockWritten, ciphertext, iv_and_mac, length-iv_and_mac, after_write, opens_here, opens_elsewhere,
}

-- A number that is not `n`, from the test.
pub other_block : (m n : ℕ) → (m == n) ≡ false → (m < n) ⊎ (n < m)
other_block m n e = elim (Bool-cases (ltb m n)) [
  | inl before ↦ inl (ltb→lt _ _ before)
  | inr behind ↦ inr (ground arith)
]

module _ {D M R : Type 0} {under : StreamOps D} {metas : StreamOps M} (above : StreamLaws under)
    (below : StreamLaws metas) (random : Rng R) (options : CryptOptions)
    (pos : 0 < options.block_size) (room : HasRoom above below random options) where
  open options use {block_size, iv_size, tries}

  -- What is there of a block behind the first byte of another one that was written.
  there_before :
      (m n len old : ℕ)
      → (m < n) ⊎ (n < m)
      → n * block_size ≤ old
      → len ≤ block_size
      → m * block_size < max old (n * block_size + len)
      → (m * block_size < old)
        × (min block_size (max old (n * block_size + len) - m * block_size)
            ≡ min block_size (old - m * block_size))
  there_before m n len old (inl before) within fit h = (
    omega (arith, after_block block_size pos m n before),
    omega (arith, after_block block_size pos m n before),
  )
  there_before m n len old (inr behind) within fit h = (
    omega (arith, after_block block_size pos n m behind),
    omega (arith, after_block block_size pos n m behind),
  )

  -- A block behind all bytes is behind the one that was written.
  behind_written : (m n len : ℕ) → 0 < len → n * block_size + len ≤ m * block_size → n < m
  behind_written m n len some h = elim (Bool-cases (ltb n m)) [
    | inl behind ↦ ltb→lt _ _ behind
    | inr before ↦
        let p : m * block_size ≤ n * block_size = mul-le-mul_right block_size (ltb→ge _ _ before) in
        absurd (omega arith)
  ]

  module _ (s : CryptStream D M R) (n : ℕ) (input : List ℕ)
      (w : BlockWritten above below random options pos s n input)
      (v : IsCryptFile above below random options s) (fit : length input ≤ block_size)
      (within : n * block_size ≤ under.size s.stream) (some_bytes : 0 < length input)
      (l : n * block_size + length input ≤ crypt_limit above below random options) where
    open w use {iv, rng, length_iv, fine, text, metadata}

    abbrev after : CryptStream D M R
    after = after_write above below random options pos s n input w v fit

    length_text : length (ciphertext above below random options pos s iv input) ≡ length input
    length_text = v.session.length_ciphertext iv s.id input

    length_meta :
        length (iv_and_mac above below random options pos s iv input)
        ≡ unit above below random options
    length_meta = length-iv_and_mac above below random options pos s iv input v.session length_iv

    covered_after :
        (m : ℕ)
        → m * block_size < max (under.size s.stream) (n * block_size + length input)
        → place above below random options m + unit above below random options
          ≤ metas.size metadata.after
    covered_after m h = elim (Bool-cases (m == n)) [
      | inl here ↦ omega (
        arith,
        metadata.resized,
        length_meta,
        ap (place above below random options) (==→eq _ _ here),
      )
      | inr other ↦
          let (there, same_part) =
            there_before m n (length input) (under.size s.stream) (other_block m n other) within fit
              h in
          omega (arith, metadata.resized, v.covered m there)
    ]

    clean_after :
        (m i : ℕ)
        → max (under.size s.stream) (n * block_size + length input) ≤ m * block_size
        → place above below random options m ≤ i
        → below.byte metadata.after i ≡ 0
    clean_after m i h p =
        metadata.holds i
        ∙ written_behind (below.byte s.meta) (place above below random options n)
            (iv_and_mac above below random options pos s iv input) i
            (omega (
              arith,
              length_meta,
              place_mono above below random options n m
                  (behind_written m n (length input) some_bytes (omega arith)),
            ))
        ∙ v.clean m i (omega arith) p

    -- The block that was written, in a file that is then cut or extended to `size_then`.
    opens_at :
        (size_then m : ℕ)
        → m ≡ n
        → min block_size (size_then - n * block_size) ≡ length input
        → decrypt_with under metas random options after m
            (segment
              (above.byte text.after)
              (m * block_size)
              (min block_size (size_then - m * block_size)))
            (meta_block above below random options after m)
          ≡ ok input
    opens_at size_then m e h =
        subst
          (λ z.
            decrypt_with under metas random options after z
              (segment (above.byte text.after) (z * block_size)
                (min block_size (size_then - z * block_size)))
              (meta_block above below random options after z)
            ≡ ok input)
          (sym e)
          (opens_here above below random options pos s n input w v fit
            (min block_size (size_then - n * block_size)) h)

    opens_after :
        min block_size (under.size s.stream - n * block_size) ≤ length input
        → (m : ℕ) → m * block_size < max (under.size s.stream) (n * block_size + length input)
        → decrypt_with under metas random options after m
            (segment (above.byte text.after) (m * block_size) (
              min block_size
                (max (under.size s.stream) (n * block_size + length input) - m * block_size)))
            (meta_block above below random options after m)
          ≡ ok (replaced block_size pos (plain_block above below random options s) n input m)
    opens_after covers m h = elim (Bool-cases (m == n)) [
      | inl here ↦ rw here (opens_at _ m (==→eq _ _ here) (omega arith))
      | inr other ↦
          let (there, same_part) =
            there_before m n (length input) (under.size s.stream) (other_block m n other) within fit
              h in
          rw other (
            opens_elsewhere above below random options pos s n input w v fit m _
              (other_block m n other) there same_part)
    ]

    -- A block that is written whole, inside the file or at its end, replaces what was there of it.
    pub write_after :
        min block_size (under.size s.stream - n * block_size) ≤ length input
        → Becomes
            (IsCryptFile above below random options)
            (size under metas random options)
            (crypt_byte above below random options)
            (write_block under metas random options s n input)
            (max (size under metas random options s) (n * block_size + length input))
            (written (crypt_byte above below random options s) (n * block_size) input)
    unfolding size
    write_after covers =
        let resized =
          text.resized ∙ ap (λ k. max (under.size s.stream) (n * block_size + k)) length_text in
        let (v', h) =
          well_formed above below random options pos after
            (max (under.size s.stream) (n * block_size + length input))
            (replaced block_size pos (plain_block above below random options s) n input) text.valid
            metadata.valid v.session resized (omega (arith, v.fits)) covered_after clean_after
            (λ m p.
              ap
                (λ k.
                  decrypt_with under metas random options after m
                    (segment (above.byte text.after) (m * block_size)
                      (min block_size (k - m * block_size)))
                    (meta_block above below random options after m))
                resized
              ∙ opens_after covers m p)
            (Blocks-replaced block_size pos (plain_block above below random options s)
              (under.size s.stream) n input v.lengths fit within covers) in
        record {
          after = after;
          returns = w.returns;
          valid = v';
          resized = resized;
          holds = λ i.
              h i
              ∙ pieces-replaced block_size pos (plain_block above below random options s)
                  (under.size s.stream) n input v.lengths fit covers i;
        }

    -- A block that is written in part is the last one once the file is cut behind it.
    pub cut_after :
        n * block_size + length input < under.size s.stream
        → Becomes
            (IsCryptFile above below random options)
            (size under metas random options)
            (crypt_byte above below random options)
            (write_block under metas random options s n input >>= λ s'.
              adjust_logical_size under metas random options s' (n * block_size + length input))
            (n * block_size + length input)
            (cut
              (written (crypt_byte above below random options s) (n * block_size) input)
              (n * block_size + length input))
    cut_after smaller =
        let plain = plain_block above below random options s in
        Becomes-subst
          (adjusted above below random options pos room after (n * block_size + length input)
            (ended block_size pos plain n input) text.valid metadata.valid v.session l
            (Blocks-ended block_size pos plain (under.size s.stream) n input v.lengths fit
              (omega arith))
            opens_kept)
          (ap
            (λ r. r >>= λ s'.
              adjust_logical_size under metas random options s' (n * block_size + length input))
            w.returns)
          refl
          (λ i.
            pieces-ended block_size pos plain (under.size s.stream) n input v.lengths fit
              (omega arith) i)
      where
        opens_kept :
            (m : ℕ)
            → m * block_size < n * block_size + length input
            → decrypt_with under metas random options after m
                (segment
                  (above.byte text.after)
                  (m * block_size)
                  (min block_size (n * block_size + length input - m * block_size)))
                (meta_block above below random options after m)
              ≡ ok (ended block_size pos (plain_block above below random options s) n input m)
        opens_kept m h = elim (Bool-cases (m == n)) [
          | inl here ↦ rw here (opens_at _ m (==→eq _ _ here) (omega arith))
          | inr other ↦ elim (Bool-cases (ltb m n)) [
            | inl before ↦
                let below_n = after_block block_size pos m n (ltb→lt _ _ before) in
                rw (other, before)
                  (opens_elsewhere above below random options pos s n input w v fit m _
                    (inl (ltb→lt _ _ before)) (omega arith) (omega arith))
            | inr behind ↦ absurd (omega (arith, after_block block_size pos n m (ground arith)))
          ]
        ]
