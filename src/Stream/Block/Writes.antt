-- ===== src/Stream/Block/Writes.antt =====
-- `unchecked_write` and `zero_fill`: writes of any range that starts in the file or at its end.
use native.Mathlib.Nat.{mod-eq_of_lt, mod-lt, div-add-mod}
use securefs.Prelude.{
  ℕ, zero, suc, ◌+◌, ◌-◌, ◌*◌, ◌/◌, ◌≤◌, ◌<◌, ◌≡◌, refl, ap, ◌∙◌, false, inl, inr, List, min, max,
  length, take, drop, replicate, ltb, ◌==◌, arith, Bool-cases, lt→ltb, ge→ltb, ltb→lt, ltb→ge, u64,
  length-take, length-drop, length-replicate, get_or-take, get_or-replicate,
}
use securefs.Error.{◌>>=◌}
use securefs.Stream.{Becomes, written}
use securefs.Stream.Outcome.{Becomes-subst, Becomes-ok, Becomes-bind, written-split}
use securefs.Stream.Block.{
  BlockOps, BlockLaws, read_then_write_block, write_loop, unchecked_write, zero_loop, zero_fill,
}
use securefs.Stream.Block.Range.{read_then_write_block_lem}
use securefs.Stream.Block.Reads.{Round, round_lem}

module _ {S : Type 0} {o : BlockOps S} (laws : BlockLaws o) (unset : List ℕ)
    (u : length unset ≡ o.block_size) where
  open o use {block_size, size}
  open laws use {Valid, byte, limit}

  -- One round of the loop, the test passed.
  write_loop_round :
      (fuel : ℕ) (s : S) (input : List ℕ) (offset n : ℕ)
      → 0 < n
      → write_loop o unset (suc fuel) s input offset n ≡ (
          read_then_write_block o unset s
            (offset / block_size)
            input
            (offset - offset / block_size * block_size)
            (min block_size (u64 (offset + n - offset / block_size * block_size)))
          >>= λ s'.
              write_loop o unset fuel s'
                (drop
                  (min block_size (u64 (offset + n - offset / block_size * block_size))
                    - (offset - offset / block_size * block_size))
                  input)
                (u64 (
                  offset
                  + (min block_size (u64 (offset + n - offset / block_size * block_size))
                      - (offset - offset / block_size * block_size))))
                (n
                  - (min block_size (u64 (offset + n - offset / block_size * block_size))
                      - (offset - offset / block_size * block_size))))
  unfolding write_loop
  write_loop_round fuel s input offset n h =
      let t : (n == 0) ≡ false = ground arith in rw (t, write_loop)

  write_loop_lem :
      (fuel : ℕ) (s : S) (input : List ℕ) (offset n : ℕ)
      → n ≤ fuel
      → n ≡ length input
      → Valid s
      → offset ≤ size s
      → offset + n ≤ limit
      → Becomes Valid size byte
          (write_loop o unset fuel s input offset n)
          (max (size s) (offset + n))
          (written (byte s) offset input)
  unfolding write_loop
  write_loop_lem zero s input offset zero e len v p h =
      Becomes-subst (Becomes-ok s v) refl (omega arith) (λ i. ground arith)
  write_loop_lem zero s input offset (suc n) e len v p h = absurd (omega arith)
  write_loop_lem (suc fuel) s input offset zero e len v p h =
      Becomes-subst (Becomes-ok s v) refl (omega arith) (λ i. ground arith)
  write_loop_lem (suc fuel) s input offset (suc n) e len v p h =
      Becomes-subst
        (Becomes-bind step
          (λ s'. write_loop o unset fuel s' (drop rc input) (u64 (offset + rc)) (suc n - rc)) _ _
          (rest (write_loop_lem fuel step.after (drop rc input) (offset + rc) (suc n - rc))))
        (write_loop_round fuel s input offset (suc n) (omega arith)) refl (λ i. refl)
    where
      begin : ℕ
      begin = offset - offset / block_size * block_size

      end : ℕ
      end = min block_size (u64 (offset + suc n - offset / block_size * block_size))

      rc : ℕ
      rc = end - begin

      r : Round block_size limit offset (suc n)
      r =
          round_lem block_size limit offset (suc n) laws.block_size_pos (omega arith) h
            laws.limit_fits

      facts : (0 < rc) × (rc ≤ suc n) × (offset / block_size * block_size + end ≡ offset + rc)
      facts = omega (arith, r.begins, r.within, r.starts)

      step :
          Becomes Valid size byte
            (read_then_write_block o unset s (offset / block_size) input begin end)
            (max (size s) (offset + rc))
            (written (byte s) offset (take rc input))
      step =
          Becomes-subst
            (read_then_write_block_lem laws unset s (offset / block_size) input begin end u v
              (omega (arith, r.starts)) r.begins r.ends (omega (arith, r.within))
              (omega (arith, r.within, r.starts)))
            refl (omega (arith, facts))
            (λ i. ap (λ k. written (byte s) k (take rc input) i) r.starts)

      rest :
          (suc n - rc ≤ fuel
            → suc n - rc ≡ length (drop rc input)
            → Valid step.after
            → offset + rc ≤ size step.after
            → offset + rc + (suc n - rc) ≤ limit
            → Becomes Valid size byte
                (write_loop o unset fuel step.after (drop rc input) (offset + rc) (suc n - rc))
                (max (size step.after) (offset + rc + (suc n - rc)))
                (written (byte step.after) (offset + rc) (drop rc input)))
          → Becomes Valid size byte
              (write_loop o unset fuel step.after (drop rc input) (u64 (offset + rc)) (suc n - rc))
              (max (size s) (offset + suc n))
              (written (byte s) offset input)
      rest ih =
          Becomes-subst
            (ih (omega (arith, facts)) (omega (arith, length-drop rc input)) step.valid
              (omega (arith, step.resized)) (omega (arith, facts)))
            (ap (λ k. write_loop o unset fuel step.after (drop rc input) k (suc n - rc))
              (mod-eq_of_lt (omega (arith, facts, laws.limit_fits))))
            (omega (arith, step.resized, facts))
            (λ i.
              written-split (byte s) (byte step.after) offset rc input i (omega (arith, facts))
                (step.holds i))

  -- A write of any bytes that starts in the file or at its end.
  pub unchecked_write_lem :
      (s : S) (input : List ℕ) (offset : ℕ)
      → Valid s
      → offset ≤ size s
      → offset + length input ≤ limit
      → Becomes Valid size byte
          (unchecked_write o unset s input offset (length input))
          (max (size s) (offset + length input))
          (written (byte s) offset input)
  unfolding unchecked_write
  unchecked_write_lem s input offset =
      write_loop_lem (length input) s input offset (length input) (omega arith) refl

  zero_loop_round :
      (fuel : ℕ) (s : S) (offset finish : ℕ)
      → offset < finish
      → zero_loop o unset (suc fuel) s offset finish ≡ (
          read_then_write_block o unset s
            (offset / block_size)
            (replicate block_size 0)
            (offset - offset / block_size * block_size)
            (min block_size (finish - offset / block_size * block_size))
          >>= λ s'.
              zero_loop o unset fuel s'
                (u64 (
                  offset
                  + (min block_size (finish - offset / block_size * block_size)
                      - (offset - offset / block_size * block_size))))
                finish)
  unfolding zero_loop
  zero_loop_round fuel s offset finish h = rw (lt→ltb offset finish h, zero_loop)

  zero_loop_done :
      (fuel : ℕ) (s : S) (offset finish : ℕ)
      → Valid s
      → size s ≡ offset
      → offset ≡ finish
      → Becomes Valid size byte (zero_loop o unset fuel s offset finish) finish (byte s)
  unfolding zero_loop
  zero_loop_done zero s offset finish v e p =
      Becomes-subst (Becomes-ok s v) (rw (ge→ltb offset finish (omega arith))) (omega arith)
        (λ i. refl)
  zero_loop_done (suc fuel) s offset finish v e p =
      Becomes-subst (Becomes-ok s v) (rw (ge→ltb offset finish (omega arith), zero_loop))
        (omega arith) (λ i. refl)

  zero_step :
      (fuel : ℕ) (s : S) (offset finish : ℕ)
      → Valid s
      → size s ≡ offset
      → offset < finish
      → finish ≤ limit
      → ((s' : S)
          → finish
              - (offset
                  + (min block_size (finish - offset / block_size * block_size)
                      - (offset - offset / block_size * block_size)))
            ≤ fuel
          → Valid s'
          → size s'
            ≡ offset
              + (min block_size (finish - offset / block_size * block_size)
                  - (offset - offset / block_size * block_size))
          → offset
              + (min block_size (finish - offset / block_size * block_size)
                  - (offset - offset / block_size * block_size))
            ≤ finish
          → finish ≤ limit
          → Becomes Valid size byte
              (zero_loop o unset fuel s'
                (offset
                  + (min block_size (finish - offset / block_size * block_size)
                      - (offset - offset / block_size * block_size)))
                finish)
              finish
              (byte s'))
      → finish - offset ≤ suc fuel
      → Becomes Valid size byte (zero_loop o unset (suc fuel) s offset finish) finish (byte s)
  zero_step fuel s offset finish v z p h ih m =
      Becomes-subst
        (Becomes-bind step (λ s'. zero_loop o unset fuel s' (u64 (offset + rc)) finish) finish
          (byte step.after)
          (Becomes-subst
            (ih step.after (omega (arith, facts)) step.valid (omega (arith, step.resized))
              (omega (arith, facts)) h)
            (ap (λ k. zero_loop o unset fuel step.after k finish)
              (mod-eq_of_lt (omega (arith, facts, laws.limit_fits))))
            refl (λ i. refl)))
        (zero_loop_round fuel s offset finish p) refl (λ i. step.holds i ∙ zeros i)
    where
      begin : ℕ
      begin = offset - offset / block_size * block_size

      end : ℕ
      end = min block_size (finish - offset / block_size * block_size)

      rc : ℕ
      rc = end - begin

      facts :
          (0 < rc)
          × (offset + rc ≤ finish)
          × (offset / block_size * block_size + end ≡ offset + rc)
          × (offset / block_size * block_size + begin ≡ offset)
          × (end ≤ block_size)
      facts = omega (arith, div-add-mod offset block_size, mod-lt offset laws.block_size_pos)

      new_zeros : List ℕ
      new_zeros = replicate block_size 0

      new : List ℕ
      new = take rc new_zeros

      step :
          Becomes Valid size byte
            (read_then_write_block o unset s
              (offset / block_size)
              (replicate block_size 0)
              begin
              end)
            (offset + rc)
            (written (byte s) offset new)
      step =
          Becomes-subst
            (read_then_write_block_lem laws unset s (offset / block_size) (replicate block_size 0)
              begin end u v (omega (arith, facts)) (omega (arith, facts)) (omega (arith, facts))
              (omega (arith, facts)) (omega (arith, facts, length-replicate {A = ℕ} block_size 0)))
            refl (omega (arith, facts)) (λ i. ap (λ k. written (byte s) k new i) (facts.3))

      zeros : (i : ℕ) → written (byte s) offset new i ≡ byte s i
      zeros i = ground (
        arith,
        length-take rc new_zeros,
        length-replicate {A = ℕ} block_size 0,
        get_or-take rc (i - offset) new_zeros 0,
        get_or-replicate {A = ℕ} block_size (i - offset) 0,
        laws.byte_beyond s i v,
      )

  -- Zeros behind the end of the file.
  zero_loop_lem :
      (fuel : ℕ) (s : S) (offset finish : ℕ)
      → finish - offset ≤ fuel
      → Valid s
      → size s ≡ offset
      → offset ≤ finish
      → finish ≤ limit
      → Becomes Valid size byte (zero_loop o unset fuel s offset finish) finish (byte s)
  zero_loop_lem zero s offset finish e v z p h =
      zero_loop_done zero s offset finish v z (omega arith)
  zero_loop_lem (suc fuel) s offset finish e v z p h = elim (Bool-cases (ltb offset finish)) [
    | inr done ↦ zero_loop_done (suc fuel) s offset finish v z (omega (arith, ltb→ge _ _ done))
    | inl more ↦
        zero_step fuel s offset finish v z (ltb→lt _ _ more) h
          (λ s'.
            zero_loop_lem fuel s'
              (offset
                + (min block_size (finish - offset / block_size * block_size)
                    - (offset - offset / block_size * block_size)))
              finish)
          e
  ]

  -- `zero_fill` from the end of the file on: the file is longer, and reads as before, zeros behind.
  pub zero_fill_lem :
      (s : S) (finish : ℕ)
      → Valid s
      → size s ≤ finish
      → finish ≤ limit
      → Becomes Valid size byte (zero_fill o unset s (size s) finish) finish (byte s)
  unfolding zero_fill
  zero_fill_lem s finish v = zero_loop_lem (finish - size s) s (size s) finish (omega arith) v refl
