-- ===== src/Stream/Crypt/Adjust.antt =====
-- adjust_logical_size of a file of the full format.
use native.Mathlib.Nat.{mod-eq_of_lt, mul-le-mul_left, le-div_iff_mul-le}
use securefs.Prelude.{
  ℕ, suc, ◌+◌, ◌-◌, ◌*◌, ◌/◌, ◌≤◌, ◌<◌, ◌≡◌, refl, ap, ap₂, ◌∙◌, inl, inr, List, min, ltb, u64,
  ltb→lt, ltb→ge, Bool-cases, segment, segment_ext, arith,
}
use securefs.Error.{ok}
use securefs.Crypto.{GcmLaws, Rng}
use securefs.Stream.{StreamOps, StreamLaws, Becomes}
use securefs.Stream.Outcome.{cut_before, cut_behind}
use securefs.Stream.Block.Pieces.{pieces, Blocks}
use securefs.Stream.Crypt.{
  CryptOptions, CryptStream, max_block_number, decrypt_with, adjust_logical_size, size,
}
use securefs.Stream.Crypt.Blocks.{
  unit, place, crypt_byte, crypt_limit, IsCryptFile, HasRoom, well_formed, place_mono, place_word,
}

-- The number of blocks that `n` bytes take.
block_count :
    (b n : ℕ)
    → 0 < b
    → ((m : ℕ) → m * b < n → m < (n + b - 1) / b) × ((m : ℕ) → n ≤ m * b → (n + b - 1) / b ≤ m)
block_count b n pos = (
  λ m h. omega (arith, (le-div_iff_mul-le {k = b} {x = suc m} {y = n + b - 1} pos).1 (omega arith)),
  λ m h. elim (Bool-cases (ltb m ((n + b - 1) / b))) [
    | inl more ↦ absurd (
        omega (
          arith,
          (le-div_iff_mul-le {k = b} {x = suc m} {y = n + b - 1} pos).0
              (omega (arith, ltb→lt _ _ more)),
        ))
    | inr few ↦ ltb→ge _ _ few
  ],
)

module _ {D M R : Type 0} {under : StreamOps D} {metas : StreamOps M} (above : StreamLaws under)
    (below : StreamLaws metas) (random : Rng R) (options : CryptOptions)
    (pos : 0 < options.block_size) (room : HasRoom above below random options) where
  open options use {block_size, iv_size}

  adjust_returns :
      (s : CryptStream D M R) (n k : ℕ) (stream : D) (meta : M)
      → u64 (n + block_size - 1) / block_size ≡ k
      → u64 (place above below random options k) ≡ place above below random options k
      → under.resize s.stream n ≡ ok stream
      → metas.resize s.meta (place above below random options k) ≡ ok meta
      → adjust_logical_size under metas random options s n
        ≡ ok (record s { stream = stream; meta = meta })
  unfolding adjust_logical_size
  adjust_returns s n k stream meta count word resized resized_meta =
      rw (count, word, resized, resized_meta) refl

  -- Streams that decrypt to `plain` once they are cut or extended to `n` bytes.
  pub adjusted :
      (s : CryptStream D M R) (n : ℕ) (plain : ℕ → List ℕ)
      → above.Valid s.stream
      → below.Valid s.meta
      → GcmLaws s.session
      → n ≤ crypt_limit above below random options
      → Blocks block_size pos plain n
      → ((m : ℕ)
          → m * block_size < n
          → decrypt_with under metas random options s m
              (segment (above.byte s.stream) (m * block_size) (min block_size (n - m * block_size)))
              (segment
                (below.byte s.meta)
                (place above below random options m)
                (unit above below random options))
            ≡ ok (plain m))
      → Becomes
          (IsCryptFile above below random options)
          (size under metas random options)
          (crypt_byte above below random options)
          (adjust_logical_size under metas random options s n)
          n
          (pieces block_size pos plain)
  unfolding size decrypt_with
  adjusted s n plain va vb g l blocks opens =
      let k = (n + block_size - 1) / block_size in
      let place_of = place above below random options in
      let (counted, few) = block_count block_size n pos in
      let small : k ≤ max_block_number + 1 = few (max_block_number + 1) l in
      let word : u64 (n + block_size - 1) ≡ n + block_size - 1 =
        mod-eq_of_lt (omega (arith, room.few_bytes)) in
      let there : place_of k ≤ below.limit =
        omega (arith, room.for_metas, mul-le-mul_left (unit above below random options) small) in
      let a = above.resize_returns s.stream n va (omega (arith, room.for_data)) in
      let c = below.resize_returns s.meta (place_of k) vb there in
      let s' : CryptStream D M R = record s { stream = a.after; meta = c.after } in
      let (v, h) =
        well_formed above below random options pos s' n plain a.valid c.valid g a.resized l
          (λ m p. omega (arith, c.resized, place_mono above below random options m k (counted m p)))
          (λ m i p q.
            c.holds i
            ∙ cut_behind (below.byte s.meta) (place_of k) i
                (omega (arith, mul-le-mul_left (unit above below random options) (few m p))))
          (λ m p.
            ap₂ (decrypt_with under metas random options s m)
              (ap
                  (λ z.
                    segment (above.byte a.after) (m * block_size)
                      (min block_size (z - m * block_size)))
                  a.resized
                ∙ segment_ext (above.byte a.after) (above.byte s.stream) (m * block_size)
                    (min block_size (n - m * block_size))
                    (λ i _ q. a.holds i ∙ cut_before (above.byte s.stream) n i (omega arith)))
              (segment_ext (below.byte c.after) (below.byte s.meta) (place_of m)
                (unit above below random options)
                (λ i _ q.
                  c.holds i
                  ∙ cut_before (below.byte s.meta) (place_of k) i
                      (omega (arith, place_mono above below random options m k (counted m p)))))
            ∙ opens m p)
          blocks in
      record {
        after = s';
        returns =
            adjust_returns s n k a.after c.after (ap (λ z. z / block_size) word)
              (place_word above below random options k room small) a.returns c.returns;
        valid = v;
        resized = a.resized;
        holds = h;
      }
