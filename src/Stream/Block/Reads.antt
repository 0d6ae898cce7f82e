-- ===== src/Stream/Block/Reads.antt =====
-- `read`: the bytes of a range, as many as the file has.
use native.Mathlib.Nat.{div-add-mod, mod-lt, mod-eq_of_lt}
use securefs.Prelude.{
  ℕ, zero, suc, ◌+◌, ◌-◌, ◌*◌, ◌/◌, ◌≤◌, ◌<◌, ◌^◌, ◌≡◌, ap, sym, ◌∙◌, false, inl, inr, List, ◌++◌,
  min, length, ltb, ◌==◌, segment, arith, length-segment, segment-zero, segment-append, Bool-cases,
  if◌then◌else◌, u64, ltb→lt, ltb→ge,
}
use securefs.Error.{ok, ◌>>=◌}
use securefs.Stream.Block.{BlockOps, BlockLaws, read_block_range, read_loop, read}
use securefs.Stream.Block.Range.{read_block_range_lem}

-- One round of a loop over blocks: the range `begin` to `end` of block `offset / b`.
pub record Round (b limit offset n : ℕ) : Type 0 where
  pub starts : offset / b * b + (offset - offset / b * b) ≡ offset
  pub begins : offset - offset / b * b < min b (u64 (offset + n - offset / b * b))
  pub ends : min b (u64 (offset + n - offset / b * b)) ≤ b
  pub unwrapped : u64 (offset + n - offset / b * b) ≡ offset + n - offset / b * b
  pub within : offset / b * b + min b (u64 (offset + n - offset / b * b)) ≤ offset + n
  pub below : offset / b * b < limit

pub round_lem :
    (b limit offset n : ℕ)
    → 0 < b
    → 0 < n
    → offset + n ≤ limit
    → limit < 2 ^ 64
    → Round b limit offset n
round_lem b limit offset n pos some fits small =
    let low : offset / b * b ≤ offset = omega (arith, div-add-mod offset b) in
    let near : offset < offset / b * b + b =
      omega (arith, div-add-mod offset b, mod-lt offset pos) in
    let u : u64 (offset + n - offset / b * b) ≡ offset + n - offset / b * b =
      mod-eq_of_lt (omega arith) in
    record {
      starts = omega arith;
      begins = rw u (omega arith);
      ends = omega arith;
      unwrapped = u;
      within = rw u (omega arith);
      below = omega arith;
    }

module _ {S : Type 0} {o : BlockOps S} (laws : BlockLaws o) (unset : List ℕ) where
  open o use {block_size, size}
  open laws use {Valid, byte, limit}

  chunk_length :
      (s : S) (offset m : ℕ)
      → length (segment (byte s) offset (min m (size s - offset))) ≡ min m (size s - offset)
  chunk_length s offset m = length-segment (byte s) offset (min m (size s - offset))

  -- One round of the loop, the test passed.
  read_loop_round :
      (fuel : ℕ) (s : S) (offset n : ℕ) (chunk : List ℕ)
      → 0 < n
      → read_block_range o unset s
          (offset / block_size)
          (offset - offset / block_size * block_size)
          (min block_size (u64 (offset + n - offset / block_size * block_size)))
        ≡ ok chunk
      → read_loop o unset (suc fuel) s offset n ≡ (
          if ltb (length chunk) (
            min block_size (u64 (offset + n - offset / block_size * block_size))
            - (offset - offset / block_size * block_size))
          then ok chunk
          else (read_loop o unset fuel s (u64 (offset + length chunk)) (n - length chunk)
              >>= λ rest. ok (chunk ++ rest)))
  unfolding read_loop
  read_loop_round fuel s offset n chunk h e =
      let t : (n == 0) ≡ false = ground arith in rw (t, read_loop) (rw e)

  read_loop_lem :
      (fuel : ℕ) (s : S) (offset n : ℕ)
      → n ≤ fuel
      → Valid s
      → offset + n ≤ limit
      → read_loop o unset fuel s offset n ≡ ok (segment (byte s) offset (min n (size s - offset)))
  unfolding read_loop
  read_loop_lem zero s offset zero e v h =
      ap ok (sym (segment-zero (byte s) offset _ (omega arith)))
  read_loop_lem zero s offset (suc n) e v h = absurd (omega arith)
  read_loop_lem (suc fuel) s offset zero e v h =
      ap ok (sym (segment-zero (byte s) offset _ (omega arith)))
  read_loop_lem (suc fuel) s offset (suc n) e v h =
      read_loop_round fuel s offset (suc n) chunk (omega arith) got
      ∙ elim (Bool-cases (ltb (length chunk) (end - begin))) [
        | inl short ↦ rw short (
            ap ok (
              ap (segment (byte s) offset)
                (omega (arith, chunk_length, ltb→lt _ _ short, r.begins, r.within, r.starts))))
        | inr full ↦ rw full (
            rw
              (next (ltb→ge _ _ full)
                (read_loop_lem fuel s (offset + length chunk) (suc n - length chunk)))
              (ap ok (joined (ltb→ge _ _ full))))
      ]
    where
      begin : ℕ
      begin = offset - offset / block_size * block_size

      end : ℕ
      end = min block_size (u64 (offset + suc n - offset / block_size * block_size))

      r : Round block_size limit offset (suc n)
      r =
          round_lem block_size limit offset (suc n) laws.block_size_pos (omega arith) h
            laws.limit_fits

      chunk : List ℕ
      chunk = segment (byte s) offset (min (end - begin) (size s - offset))

      chunk_length : length chunk ≡ min (end - begin) (size s - offset)
      chunk_length = length-segment (byte s) offset (min (end - begin) (size s - offset))

      got : read_block_range o unset s (offset / block_size) begin end ≡ ok chunk
      got =
          read_block_range_lem laws unset s (offset / block_size) begin end v r.below (omega arith)
            r.ends
          ∙ ap ok (ap (λ k. segment (byte s) k (min (end - begin) (size s - k))) r.starts)

      facts :
          end - begin ≤ length chunk
          → (0 < length chunk)
            × (length chunk ≤ suc n)
            × (min (suc n) (size s - offset)
                ≡ length chunk + min (suc n - length chunk) (size s - (offset + length chunk)))
      facts full = omega (arith, chunk_length, r.begins, r.within, r.starts)

      next :
          end - begin ≤ length chunk
          → (suc n - length chunk ≤ fuel
              → Valid s
              → offset + length chunk + (suc n - length chunk) ≤ limit
              → read_loop o unset fuel s (offset + length chunk) (suc n - length chunk)
                ≡ ok (
                    segment
                      (byte s)
                      (offset + length chunk)
                      (min (suc n - length chunk) (size s - (offset + length chunk)))))
          → read_loop o unset fuel s (u64 (offset + length chunk)) (suc n - length chunk)
            ≡ ok (
                segment
                  (byte s)
                  (offset + length chunk)
                  (min (suc n - length chunk) (size s - (offset + length chunk))))
      next full ih =
          ap (λ k. read_loop o unset fuel s k (suc n - length chunk))
            (mod-eq_of_lt (omega (arith, facts full, laws.limit_fits)))
          ∙ ih (omega (arith, facts full)) v (omega (arith, facts full))

      joined :
          end - begin ≤ length chunk
          → chunk
              ++ segment
                  (byte s)
                  (offset + length chunk)
                  (min (suc n - length chunk) (size s - (offset + length chunk)))
            ≡ segment (byte s) offset (min (suc n) (size s - offset))
      joined full =
          ap
            (λ k.
              chunk
              ++ segment (byte s) (offset + k)
                  (min (suc n - length chunk) (size s - (offset + length chunk))))
            chunk_length
          ∙ segment-append (byte s) offset (min (end - begin) (size s - offset)) _
          ∙ ap (segment (byte s) offset) (omega (arith, facts full, chunk_length))

  -- A read of a range within the limit hands over the bytes of the file in it, up to the end, after
  -- finitely many rounds.
  pub read_lem :
      (s : S) (offset n : ℕ)
      → Valid s
      → offset + n ≤ limit
      → read o unset s offset n ≡ ok (segment (byte s) offset (min n (size s - offset)))
  unfolding read
  read_lem s offset n v h = read_loop_lem n s offset n (omega arith) v h
