-- ===== src/Stream/Block/Range.antt =====
-- Part of one block, read or written: `read_block_range` and `read_then_write_block`.
use securefs.Prelude.{
  ℕ, ◌+◌, ◌-◌, ◌*◌, ◌≤◌, ◌<◌, ◌≡◌, refl, ap, ap₂, ◌∙◌, false, ◌&&◌, inl, inr, List, min, max,
  length, get_or, take, drop, ltb, leb, ◌==◌, if◌then◌else◌, get_or_beyond, tests, sym,
  segment-zero, leb→le, leb→gt, gt→leb, overlay, segment, arith, length-segment, take-drop-segment,
  Bool-cases, get_or-overlay, length-overlay, get_or-take, length-take, get_or-segment,
}
use securefs.Error.{ok}
use securefs.Stream.{Becomes, written}
use securefs.Stream.Outcome.{Becomes-subst}
use securefs.Stream.Block.{BlockOps, BlockLaws, read_block_range, read_then_write_block}

module _ {S : Type 0} {o : BlockOps S} (laws : BlockLaws o) (unset : List ℕ) where
  open o use {block_size, size}
  open laws use {Valid, byte, limit}

  -- The bytes of block `n` from `begin` on, cut out of the block as it is read.
  part_of_block :
      (s : S) (n begin end k : ℕ)
      → begin ≤ end
      → end ≤ block_size
      → k ≡ min block_size (size s - n * block_size)
      → begin < k
      → take (min end k - begin) (drop begin (segment (byte s) (n * block_size) k))
        ≡ segment
            (byte s)
            (n * block_size + begin)
            (min (end - begin) (size s - (n * block_size + begin)))
  part_of_block s n begin end k p q e h =
      take-drop-segment (byte s) (n * block_size) k begin (min end k - begin) (omega arith)
      ∙ ap (segment (byte s) (n * block_size + begin)) (omega arith)

  pub read_block_range_lem :
      (s : S) (n begin end : ℕ)
      → Valid s
      → n * block_size < limit
      → begin ≤ end
      → end ≤ block_size
      → read_block_range o unset s n begin end
        ≡ ok (
            segment
              (byte s)
              (n * block_size + begin)
              (min (end - begin) (size s - (n * block_size + begin))))
  unfolding read_block_range
  read_block_range_lem s n begin end v h p q =
      let k = min block_size (size s - n * block_size) in
      let len = length-segment (byte s) (n * block_size) k in
      elim (Bool-cases ((begin == 0) && (end == block_size))) [
        | inl whole ↦
            rw (whole, laws.read_block_returns s n v h)
              (ap ok (ap₂ (segment (byte s)) (ground arith) (ground arith)))
        | inr part ↦ rw part (elim (Bool-cases (leb end begin)) [
          | inl empty ↦
              rw empty
                (ap ok (sym (segment-zero (byte s) (n * block_size + begin) _ (omega tests))))
          | inr some_bytes ↦
              rw (some_bytes, laws.read_block_returns s n v h, length-segment)
                (elim (Bool-cases (leb k begin)) [
                  | inl beyond ↦ rw beyond (
                      ap ok (
                        sym (
                          segment-zero (byte s) (n * block_size + begin) _
                            (omega (tests, leb→le k begin beyond)))))
                  | inr within ↦
                      rw within
                        (ap ok (part_of_block s n begin end k p q refl (leb→gt k begin within)))
                ])
        ])
      ]

-- The buffer of `read_then_write_block`, byte by byte: the new bytes, and the old ones around them.
patched_buffer :
    (unset old input : List ℕ) (begin i : ℕ)
    → begin ≤ length old
    → length old ≤ length unset
    → begin + length input ≤ length unset
    → get_or
        (take (max (length old) (begin + length input)) (overlay (overlay unset 0 old) begin input))
        i
        0
      ≡ (if leb begin i && ltb i (begin + length input)
          then get_or input (i - begin) 0
          else get_or old i 0)
patched_buffer unset old input begin i p q r = ground (
  arith,
  get_or-take (max (length old) (begin + length input)) i
      (overlay (overlay unset 0 old) begin input) 0,
  get_or-overlay (overlay unset 0 old) begin input i,
  length-overlay unset 0 old,
  get_or-overlay unset 0 old i,
  get_or_beyond i old 0,
)

length-patched_buffer :
    (unset old input : List ℕ) (begin : ℕ)
    → begin ≤ length old
    → length old ≤ length unset
    → begin + length input ≤ length unset
    → length
        (take (max (length old) (begin + length input)) (overlay (overlay unset 0 old) begin input))
      ≡ max (length old) (begin + length input)
length-patched_buffer unset old input begin p q r = omega (
  arith,
  length-take (max (length old) (begin + length input)) (overlay (overlay unset 0 old) begin input),
  length-overlay (overlay unset 0 old) begin input,
  length-overlay unset 0 old,
)

module _ {S : Type 0} {o : BlockOps S} (laws : BlockLaws o) (unset : List ℕ) where
  open o use {block_size, size}
  open laws use {Valid, byte, limit}

  -- A write of a block whose bytes are those of `new` from `begin` on, and those of the file.
  write_covering :
      (s : S) (n : ℕ) (d new : List ℕ) (begin : ℕ)
      → Valid s
      → n * block_size + begin ≤ size s
      → 0 < length new
      → begin + length new ≤ block_size
      → n * block_size + (begin + length new) ≤ limit
      → length d ≡ max (min block_size (size s - n * block_size)) (begin + length new)
      → ((i : ℕ)
          → i < length d
          → get_or d i 0 ≡ (
              if leb begin i && ltb i (begin + length new)
              then get_or new (i - begin) 0
              else byte s (n * block_size + i)))
      → Becomes Valid size byte
          (o.write_block s n d)
          (max (size s) (n * block_size + (begin + length new)))
          (written (byte s) (n * block_size + begin) new)
  write_covering s n d new begin v h p q l e at =
      Becomes-subst
        (laws.write_block_returns s n d v (omega arith) (omega arith) (omega arith) (omega arith)
          (omega (arith, laws.size_fits s v)))
        refl (omega arith) point
    where
      same :
          (i : ℕ)
          → n * block_size ≤ i
          → (if leb begin (i - n * block_size) && ltb (i - n * block_size) (begin + length new)
              then get_or new (i - n * block_size - begin) 0
              else byte s (n * block_size + (i - n * block_size)))
            ≡ written (byte s) (n * block_size + begin) new i
      same i h =
          let back : byte s (n * block_size + (i - n * block_size)) ≡ byte s i =
            ap (byte s) (omega arith) in
          let index : get_or new (i - n * block_size - begin) 0
              ≡ get_or new (i - (n * block_size + begin)) 0 =
            ap (λ j. get_or new j 0) (omega arith) in
          ground arith

      point :
          (i : ℕ)
          → written (byte s) (n * block_size) d i ≡ written (byte s) (n * block_size + begin) new i
      point i = elim (Bool-cases (leb (n * block_size) i && ltb i (n * block_size + length d))) [
        | inl inside ↦ rw inside (at (i - n * block_size) (ground arith) ∙ same i (ground arith))
        | inr outside ↦ rw outside (ground arith)
      ]

  -- What is written is `input`; its first bytes, if it is longer than the range.
  pub read_then_write_block_lem :
      (s : S) (n : ℕ) (input : List ℕ) (begin end : ℕ)
      → length unset ≡ block_size
      → Valid s
      → n * block_size + begin ≤ size s
      → begin < end
      → end ≤ block_size
      → n * block_size + end ≤ limit
      → end ≤ begin + length input
      → Becomes Valid size byte
          (read_then_write_block o unset s n input begin end)
          (max (size s) (n * block_size + end))
          (written (byte s) (n * block_size + begin) (take (end - begin) input))
  unfolding read_then_write_block
  read_then_write_block_lem s n input begin end u v h p q l m =
      elim (Bool-cases ((begin == 0) && (end == block_size))) [
        | inl whole ↦
            Becomes-subst
              (write_covering s n (take block_size input) new begin v h f1 f2 f3
                (whole_length (ground arith) (ground arith))
                (whole_bytes (ground arith) (ground arith)))
              (rw whole) resized (λ i. refl)
        | inr part ↦
            Becomes-subst
              (write_covering s n patched new begin v h f1 f2 f3
                (length-patched_buffer unset old new begin g1 g2 g3
                  ∙ ap (λ k. max k (begin + length new)) old_length)
                patched_bytes)
              (rw part (
                rw not_empty (
                  rw (laws.read_block_returns s n v (omega arith)) (
                    ap
                      (λ e.
                        o.write_block s n
                          (take (max (length old) e) (overlay (overlay unset 0 old) begin new)))
                      (omega (arith, new_length))))))
              resized (λ i. refl)
      ]
    where
      new : List ℕ
      new = take (end - begin) input

      old : List ℕ
      old = segment (byte s) (n * block_size) (min block_size (size s - n * block_size))

      patched : List ℕ
      patched =
          take (max (length old) (begin + length new)) (overlay (overlay unset 0 old) begin new)

      new_length : length new ≡ end - begin
      new_length = omega (arith, length-take (end - begin) input)

      old_length : length old ≡ min block_size (size s - n * block_size)
      old_length =
          length-segment (byte s) (n * block_size) (min block_size (size s - n * block_size))

      f1 : 0 < length new
      f1 = omega (arith, new_length)

      f2 : begin + length new ≤ block_size
      f2 = omega (arith, new_length)

      f3 : n * block_size + (begin + length new) ≤ limit
      f3 = omega (arith, new_length)

      resized :
          max (size s) (n * block_size + (begin + length new)) ≡ max (size s) (n * block_size + end)
      resized = omega (arith, new_length)

      g1 : begin ≤ length old
      g1 = omega (arith, old_length)

      g2 : length old ≤ length unset
      g2 = omega (arith, old_length)

      g3 : begin + length new ≤ length unset
      g3 = omega (arith, new_length)

      not_empty : leb end begin ≡ false
      not_empty = gt→leb end begin p

      patched_bytes :
          (i : ℕ)
          → i < length patched
          → get_or patched i 0 ≡ (
              if leb begin i && ltb i (begin + length new)
              then get_or new (i - begin) 0
              else byte s (n * block_size + i))
      patched_bytes i hi = ground (
        arith,
        patched_buffer unset old new begin i g1 g2 g3,
        length-patched_buffer unset old new begin g1 g2 g3,
        get_or-segment (byte s) (n * block_size) (min block_size (size s - n * block_size)) i,
        old_length,
        g1,
      )

      whole_length :
          begin ≡ 0
          → end ≡ block_size
          → length (take block_size input)
            ≡ max (min block_size (size s - n * block_size)) (begin + length new)
      whole_length b e = omega (arith, new_length, length-take block_size input)

      whole_bytes :
          begin ≡ 0
          → end ≡ block_size
          → (i : ℕ) → i < length (take block_size input)
          → get_or (take block_size input) i 0 ≡ (
              if leb begin i && ltb i (begin + length new)
              then get_or new (i - begin) 0
              else byte s (n * block_size + i))
      whole_bytes b e i hi = ground (
        arith,
        new_length,
        length-take block_size input,
        get_or-take block_size i input 0,
        get_or-take (end - begin) (i - begin) input 0,
      )
