-- ===== src/Stream/Crypt/Resizes.antt =====
-- adjust_logical_size of a well-formed file of the full format.
use native.Mathlib.Nat.{div-add-mod, mul-le-mul_right}
use securefs.Prelude.{
  ℕ, ◌-◌, ◌*◌, ◌/◌, ◌%◌, ◌≤◌, ◌<◌, ◌≡◌, ◌⊎◌, refl, ap, sym, subst, ◌∙◌, inl, inr, List, [], min,
  ltb, ◌==◌, ==→eq, ltb→lt, ltb→ge, Bool-cases, segment, segment_zeros, length-segment,
  get_or-segment, length-replicate, is_all_zeros-replicate, arith,
}
use securefs.Error.{ok}
use securefs.Crypto.{Rng}
use securefs.Stream.{StreamOps, StreamLaws, Becomes, cut}
use securefs.Stream.Outcome.{Becomes-subst}
use securefs.Stream.Block.Pieces.{
  pieces, ended, pieces-segment, pieces_beyond, pieces-ended, Blocks-ended, after_block,
  split_index,
}
use securefs.Stream.Crypt.{CryptOptions, CryptStream, decrypt_with, adjust_logical_size, size}
use securefs.Stream.Crypt.Blocks.{
  unit, place, meta_block, plain_block, crypt_byte, crypt_limit, IsCryptFile, HasRoom, opens_there,
}
use securefs.Stream.Crypt.Adjust.{adjusted}

module _ {D M R : Type 0} {under : StreamOps D} {metas : StreamOps M} (above : StreamLaws under)
    (below : StreamLaws metas) (random : Rng R) (options : CryptOptions)
    (pos : 0 < options.block_size) (room : HasRoom above below random options)
    (s : CryptStream D M R) (v : IsCryptFile above below random options s) where
  open options use {block_size, iv_size}

  abbrev plain : ℕ → List ℕ
  plain = plain_block above below random options s

  abbrev total : ℕ
  total = under.size s.stream

  -- The part that is left of a block is decrypted to what it was.
  opens_part :
      (m k : ℕ)
      → m * block_size < total
      → k ≡ min block_size (total - m * block_size)
      → decrypt_with under metas random options s m
          (segment (above.byte s.stream) (m * block_size) k)
          (meta_block above below random options s m)
        ≡ ok (plain m)
  opens_part m k there e =
      ap
        (λ j.
          decrypt_with under metas random options s m
            (segment (above.byte s.stream) (m * block_size) j)
            (meta_block above below random options s m))
        e
      ∙ opens_there above below random options s m v there

  cut_at :
      (k : ℕ)
      → k * block_size < total
      → Becomes
          (IsCryptFile above below random options)
          (size under metas random options)
          (crypt_byte above below random options)
          (adjust_logical_size under metas random options s (k * block_size))
          (k * block_size)
          (cut (crypt_byte above below random options s) (k * block_size))
  cut_at k h =
      Becomes-subst
        (adjusted above below random options pos room s (k * block_size)
          (ended block_size pos plain k []) v.valid v.meta_valid v.session (omega (arith, v.fits))
          (λ m.
            Blocks-ended block_size pos plain total k [] v.lengths (omega arith) (omega arith) m
            ∙ ap (λ z. min block_size (z - m * block_size)) (omega arith))
          opens_kept)
        refl refl
        (λ i.
          pieces-ended block_size pos plain total k [] v.lengths (omega arith) (omega arith) i
          ∙ ground arith)
    where
      opens_kept :
          (m : ℕ)
          → m * block_size < k * block_size
          → decrypt_with under metas random options s m
              (segment
                (above.byte s.stream)
                (m * block_size)
                (min block_size (k * block_size - m * block_size)))
              (meta_block above below random options s m)
            ≡ ok (ended block_size pos plain k [] m)
      opens_kept m p = elim (Bool-cases (m == k)) [
        | inl here ↦ absurd (omega (arith, ap (λ z. z * block_size) (==→eq _ _ here)))
        | inr other ↦ elim (Bool-cases (ltb m k)) [
          | inl before ↦
              let whole = after_block block_size pos m k (ltb→lt _ _ before) in
              rw (other, before) (opens_part m _ (omega arith) (omega arith))
          | inr behind ↦ absurd (omega (arith, after_block block_size pos k m (ground arith)))
        ]
      ]

  -- A file is cut between two blocks.
  pub cut_lem :
      (new_size : ℕ)
      → new_size < size under metas random options s
      → new_size % block_size ≡ 0
      → Becomes
          (IsCryptFile above below random options)
          (size under metas random options)
          (crypt_byte above below random options)
          (adjust_logical_size under metas random options s new_size)
          new_size
          (cut (crypt_byte above below random options s) new_size)
  unfolding size
  cut_lem new_size h a =
      subst
        (λ n.
          Becomes (IsCryptFile above below random options) (size under metas random options)
            (crypt_byte above below random options)
            (adjust_logical_size under metas random options s n) n
            (cut (crypt_byte above below random options s) n))
        (omega (arith, a, div-add-mod new_size block_size))
        (cut_at (new_size / block_size) (omega (arith, a, div-add-mod new_size block_size)))

  pub crypt_byte_beyond : (i : ℕ) → total ≤ i → crypt_byte above below random options s i ≡ 0
  crypt_byte_beyond i h = pieces_beyond block_size pos plain total i v.lengths h

  -- The blocks of a file that is extended by zeros.
  abbrev grown : ℕ → ℕ → List ℕ
  grown new_size m =
      segment (crypt_byte above below random options s) (m * block_size)
        (min block_size (new_size - m * block_size))

  opens_zeros :
      (m k : ℕ)
      → total ≤ m * block_size
      → decrypt_with under metas random options s m
          (segment (above.byte s.stream) (m * block_size) k)
          (meta_block above below random options s m)
        ≡ ok (segment (crypt_byte above below random options s) (m * block_size) k)
  unfolding decrypt_with
  opens_zeros m k behind =
      rw
        (
          segment_zeros (above.byte s.stream) (m * block_size) k
              (λ i p. above.byte_beyond s.stream i v.valid (omega arith)),
          segment_zeros (below.byte s.meta) (place above below random options m)
              (unit above below random options) (λ i p. v.clean m i behind p),
          segment_zeros (crypt_byte above below random options s) (m * block_size) k
              (λ i p. crypt_byte_beyond i (omega arith)),
          is_all_zeros-replicate k,
          is_all_zeros-replicate (unit above below random options),
          length-replicate {A = ℕ} k 0,
        )
        refl

  -- A file that ends with a whole block, or keeps its size, is extended by zeros.
  pub grow_lem :
      (new_size : ℕ)
      → size under metas random options s ≤ new_size
      → new_size ≤ crypt_limit above below random options
      → (size under metas random options s % block_size ≡ 0)
        ⊎ (size under metas random options s ≡ new_size)
      → Becomes
          (IsCryptFile above below random options)
          (size under metas random options)
          (crypt_byte above below random options)
          (adjust_logical_size under metas random options s new_size)
          new_size
          (crypt_byte above below random options s)
  unfolding size
  grow_lem new_size h l e =
      Becomes-subst
        (adjusted above below random options pos room s new_size (grown new_size) v.valid
          v.meta_valid v.session l
          (λ m. length-segment (crypt_byte above below random options s) (m * block_size) _)
          opens_grown)
        refl refl same_bytes
    where
      same_part :
          (m : ℕ)
          → m * block_size < total
          → min block_size (new_size - m * block_size) ≡ min block_size (total - m * block_size)
      same_part m there = elim e [
        | inr same_size ↦ omega (arith, same_size)
        | inl aligned ↦ elim (Bool-cases (ltb m (total / block_size))) [
          | inl before ↦ omega (
            arith,
            aligned,
            div-add-mod total block_size,
            after_block block_size pos m (total / block_size) (ltb→lt _ _ before),
          )
          | inr behind ↦
              let p : total / block_size * block_size ≤ m * block_size =
                mul-le-mul_right block_size (ltb→ge _ _ behind) in
              absurd (omega (arith, aligned, div-add-mod total block_size))
        ]
      ]

      opens_grown :
          (m : ℕ)
          → m * block_size < new_size
          → decrypt_with under metas random options s m
              (segment
                (above.byte s.stream)
                (m * block_size)
                (min block_size (new_size - m * block_size)))
              (meta_block above below random options s m)
            ≡ ok (grown new_size m)
      opens_grown m p = elim (Bool-cases (ltb (m * block_size) total)) [
        | inl there ↦
            opens_part m _ (ltb→lt _ _ there) (same_part m (ltb→lt _ _ there))
            ∙ ap ok (
                pieces-segment block_size pos plain total m v.lengths
                ∙ ap (segment (crypt_byte above below random options s) (m * block_size))
                    (sym (same_part m (ltb→lt _ _ there))))
        | inr behind ↦ opens_zeros m _ (ltb→ge _ _ behind)
      ]

      same_bytes :
          (i : ℕ)
          → pieces block_size pos (grown new_size) i ≡ crypt_byte above below random options s i
      same_bytes i =
          get_or-segment (crypt_byte above below random options s) (i / block_size * block_size) _
            (i % block_size)
          ∙ elim (Bool-cases
              (ltb (i % block_size) (min block_size (new_size - i / block_size * block_size)))) [
                | inl inside ↦
                    rw inside (
                      ap (crypt_byte above below random options s) (split_index block_size pos i).0)
                | inr beyond ↦ rw beyond (
                    sym (
                      crypt_byte_beyond i
                        (omega (arith, split_index block_size pos i, ltb→ge _ _ beyond))))
              ]
