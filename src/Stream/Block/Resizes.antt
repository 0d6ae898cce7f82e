-- ===== src/Stream/Block/Resizes.antt =====
-- `unchecked_resize`, `resize` and `write`.
use native.Mathlib.Nat.{
  mod-eq_of_lt, mod-lt, div-add-mod, le-div_iff_mul-le, div-mul-le_self, mul-mod_left,
}
use securefs.Prelude.{
  ℕ, suc, ◌+◌, ◌-◌, ◌*◌, ◌/◌, ◌%◌, ◌≤◌, ◌<◌, ◌≡◌, ◌≢◌, refl, ap, sym, ◌∙◌, ◌||◌, not, ◌⊎◌, inl, inr,
  List, min, max, length, take, replicate, ltb, ◌==◌, ==→eq, arith, Bool-cases, ltb→lt, ltb→ge,
  length-take, length-replicate, get_or-take, overlay, length-overlay, get_or-overlay, segment,
  length-segment, get_or-segment,
}
use securefs.Error.{Result, ok, throw, undefined, stuck, ◌>>=◌}
use securefs.Stream.{Becomes, written, cut}
use securefs.Stream.Outcome.{Becomes-subst, Becomes-ok, Becomes-bind, written-congr}
use securefs.Stream.Block.{
  BlockOps, BlockLaws, zero_fill, shrink_last_block, fill_gap, unchecked_resize, unchecked_write,
  write, resize,
}
use securefs.Stream.Block.Writes.{unchecked_write_lem, zero_fill_lem}

module _ {S : Type 0} {o : BlockOps S} (laws : BlockLaws o) (unset : List ℕ)
    (u : length unset ≡ o.block_size) where
  open o use {block_size, size, is_sparse}
  open laws use {Valid, byte, limit}

  -- The smaller file, if its last block is cut.
  shrink_within :
      (s : S) (n residue : ℕ)
      → Valid s
      → 0 < residue
      → residue < block_size
      → n * block_size + residue < size s
      → Becomes Valid size byte
          (o.read_block s n >>= λ old.
            (o.write_block s n (take residue (overlay (replicate block_size 0) 0 old)) >>= λ s'.
            o.adjust_logical_size s' (n * block_size + residue)))
          (n * block_size + residue)
          (cut (byte s) (n * block_size + residue))
  shrink_within s n residue v p q h =
      Becomes-subst
        (laws.cut_block_returns s n kept v (omega (arith, kept_length)) (omega (arith, kept_length))
          (omega (arith, kept_length)))
        (rw (laws.read_block_returns s n v (omega (arith, laws.size_fits s v))) (rw kept_length))
        (ap (λ k. n * block_size + k) kept_length) same
    where
      old : List ℕ
      old = segment (byte s) (n * block_size) (min block_size (size s - n * block_size))

      old_length : length old ≡ min block_size (size s - n * block_size)
      old_length =
          length-segment (byte s) (n * block_size) (min block_size (size s - n * block_size))

      blank : List ℕ
      blank = replicate block_size 0

      kept : List ℕ
      kept = take residue (overlay blank 0 old)

      kept_length : length kept ≡ residue
      kept_length = omega (
        arith,
        length-take residue (overlay blank 0 old),
        length-overlay blank 0 old,
        old_length,
        length-replicate {A = ℕ} block_size 0,
      )

      same :
          (i : ℕ)
          → cut (written (byte s) (n * block_size) kept) (n * block_size + length kept) i
            ≡ cut (byte s) (n * block_size + residue) i
      same i =
          let back : n * block_size ≤ i
              → byte s (n * block_size + (i - n * block_size)) ≡ byte s i =
            λ le. ap (byte s) (omega arith) in
          ground (
            arith,
            back,
            kept_length,
            old_length,
            length-replicate {A = ℕ} block_size 0,
            get_or-take residue (i - n * block_size) (overlay blank 0 old) 0,
            get_or-overlay blank 0 old (i - n * block_size),
            get_or-segment (byte s) (n * block_size) (min block_size (size s - n * block_size))
                (i - n * block_size),
          )

  shrink_lem :
      (s : S) (new_size : ℕ)
      → Valid s
      → new_size < size s
      → Becomes Valid size byte
          (shrink_last_block o unset s new_size >>= λ s'. o.adjust_logical_size s' new_size)
          new_size
          (cut (byte s) new_size)
  unfolding shrink_last_block
  shrink_lem s new_size v h = elim (Bool-cases (ltb 0 (new_size % block_size))) [
    | inl within ↦
        Becomes-subst
          (shrink_within s (new_size / block_size) (new_size % block_size) v (ltb→lt _ _ within)
            (mod-lt new_size laws.block_size_pos) (omega (arith, whole)))
          (rw within (bind_read (o.read_block s (new_size / block_size)))) whole
          (λ i. ap (λ k. cut (byte s) k i) whole)
    | inr aligned ↦
        Becomes-subst (laws.cut_returns s new_size v h (omega (arith, ltb→ge _ _ aligned)))
          (rw aligned) refl (λ i. refl)
  ]
    where
      whole : new_size / block_size * block_size + new_size % block_size ≡ new_size
      whole = omega (arith, div-add-mod new_size block_size)

      bind_read :
          (r : Result (List ℕ))
          → ((r >>= λ old.
                o.write_block s
                  (new_size / block_size)
                  (take (new_size % block_size) (overlay (replicate block_size 0) 0 old)))
              >>= λ s'. o.adjust_logical_size s' new_size)
            ≡ (r >>= λ old.
                (o.write_block s
                    (new_size / block_size)
                    (take (new_size % block_size) (overlay (replicate block_size 0) 0 old))
                  >>= λ s'.
                      o.adjust_logical_size s'
                        (new_size / block_size * block_size + new_size % block_size)))
      bind_read (ok old) =
          ap
            (λ k.
              o.write_block s (new_size / block_size)
                (take (new_size % block_size) (overlay (replicate block_size 0) 0 old))
              >>= λ s'. o.adjust_logical_size s' k)
            (sym whole)
      bind_read (throw e) = refl
      bind_read undefined = refl
      bind_read stuck = refl

  -- What `fill_gap` leaves to `adjust_logical_size`: nothing, or whole blocks.
  gap_lem :
      (s : S) (new_size : ℕ)
      → Valid s
      → size s < new_size
      → new_size ≤ limit
      → (m : ℕ) × Becomes Valid size byte (fill_gap o unset s (size s) new_size) m (byte s)
        × (m ≤ new_size)
        × ((m % block_size ≡ 0) ⊎ (m ≡ new_size))
  unfolding fill_gap
  gap_lem s new_size v h l =
      elim (Bool-cases (not (is_sparse s) || (size s / block_size == new_size / block_size))) [
        | inl all ↦ (
          new_size,
          Becomes-subst (zero_fill_lem laws unset u s new_size v (omega arith) l) (rw all) refl
              (λ i. refl),
          omega arith,
          inr refl,
        )
        | inr hole ↦ (
          next,
          Becomes-subst
              (zero_fill_lem laws unset u s next v (omega (arith, facts))
                (omega (arith, facts_new (ground arith))))
              (rw hole (
                ap (zero_fill o unset s (size s))
                  (mod-eq_of_lt (omega (arith, facts_new (ground arith), laws.limit_fits)))))
              refl (λ i. refl),
          facts_new (ground arith),
          inl next_aligned,
        )
      ]
    where
      next : ℕ
      next = size s / block_size * block_size + block_size

      facts : size s < next
      facts = omega (arith, div-add-mod (size s) block_size, mod-lt (size s) laws.block_size_pos)

      facts_new : size s / block_size ≢ new_size / block_size → next ≤ new_size
      facts_new ne =
          let le : size s / block_size ≤ new_size / block_size =
            (le-div_iff_mul-le laws.block_size_pos).1
              (omega (arith, div-mul-le_self (size s) block_size)) in
          let lt : suc (size s / block_size) ≤ new_size / block_size = omega (arith, le, ne) in
          omega (arith, (le-div_iff_mul-le laws.block_size_pos).0 lt)

      next_aligned : next % block_size ≡ 0
      next_aligned =
          let e : next ≡ suc (size s / block_size) * block_size = omega arith in
          ap (λ k. k % block_size) e ∙ mul-mod_left (suc (size s / block_size)) block_size

  grow_lem :
      (s : S) (new_size : ℕ)
      → Valid s
      → size s < new_size
      → new_size ≤ limit
      → Becomes Valid size byte
          (fill_gap o unset s (size s) new_size >>= λ s'. o.adjust_logical_size s' new_size)
          new_size
          (cut (byte s) new_size)
  grow_lem s new_size v h l =
      let (m, gap, le, ends) = gap_lem s new_size v h l in
      Becomes-bind gap (λ s'. o.adjust_logical_size s' new_size) new_size (cut (byte s) new_size)
        (Becomes-subst
          (laws.grow_returns gap.after new_size gap.valid (omega (arith, gap.resized)) l
            (same_end gap.after m gap.resized ends))
          refl refl (λ i. gap.holds i ∙ ground (arith, laws.byte_beyond s i v)))
    where
      same_end :
          (s' : S) (m : ℕ)
          → size s' ≡ m
          → (m % block_size ≡ 0) ⊎ (m ≡ new_size)
          → (size s' % block_size ≡ 0) ⊎ (size s' ≡ new_size)
      same_end s' m e (inl a) = inl (rw e a)
      same_end s' m e (inr b) = inr (e ∙ b)

  -- A resize within the limit succeeds: the file then has the size asked for, cut or extended by zeros.
  pub resize_lem :
      (s : S) (new_size : ℕ)
      → Valid s
      → new_size ≤ limit
      → Becomes Valid size byte (resize o unset s new_size) new_size (cut (byte s) new_size)
  unfolding resize unchecked_resize
  resize_lem s new_size v l = elim (Bool-cases (new_size == size s)) [
    | inl same ↦
        Becomes-subst (Becomes-ok s v) (rw same) (sym (==→eq _ _ same))
          (λ i. kept i (==→eq _ _ same))
    | inr other ↦ rw other (elim (Bool-cases (ltb new_size (size s))) [
      | inl smaller ↦ rw smaller (shrink_lem s new_size v (ltb→lt _ _ smaller))
      | inr larger ↦ rw larger (grow_lem s new_size v (ground arith) l)
    ])
  ]
    where
      kept : (i : ℕ) → new_size ≡ size s → byte s i ≡ cut (byte s) new_size i
      kept i e = ground (arith, laws.byte_beyond s i v)

  -- A write within the limit succeeds: the file then has `input` from `offset` on, zeros in a gap
  -- before it, and all other bytes as they were.
  pub write_lem :
      (s : S) (input : List ℕ) (offset : ℕ)
      → Valid s
      → offset + length input ≤ limit
      → Becomes Valid size byte
          (write o unset s input offset)
          (max (size s) (offset + length input))
          (written (byte s) offset input)
  unfolding write resize
  write_lem s input offset v l = elim (Bool-cases (ltb (size s) offset)) [
    | inl beyond ↦
        let gap = resize_lem s offset v (omega arith) in
        rw beyond (
          Becomes-bind gap (λ s'. unchecked_write o unset s' input offset (length input)) _ _
            (Becomes-subst
              (unchecked_write_lem laws unset u gap.after input offset gap.valid
                (omega (arith, gap.resized)) l)
              refl (omega (arith, gap.resized, ltb→lt _ _ beyond))
              (λ i.
                written-congr (byte gap.after) (cut (byte s) offset) offset input i (gap.holds i)
                ∙ written_cut i (ltb→lt _ _ beyond))))
    | inr within ↦
        rw within (unchecked_write_lem laws unset u s input offset v (ltb→ge _ _ within) l)
  ]
    where
      written_cut :
          (i : ℕ)
          → size s < offset
          → written (cut (byte s) offset) offset input i ≡ written (byte s) offset input i
      written_cut i h = ground (arith, laws.byte_beyond s i v)
