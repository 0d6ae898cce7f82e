-- ===== src/Lite/Stream/CutBlock.antt =====
-- A lite file that is cut within a block: the block is written anew, shorter, and then the file is cut.
use native.Mathlib.Nat.{div-add-mod, mod-lt}
use securefs.Prelude.{
  ℕ, ◌+◌, ◌-◌, ◌*◌, ◌/◌, ◌%◌, ◌≤◌, ◌<◌, ◌≡◌, refl, ap, sym, subst, ◌∙◌, inl, inr, List, [], length,
  get_or, min, ltb, ◌==◌, ==→eq, ltb→lt, ltb→ge, Bool-cases, if◌then◌else◌, segment, segment_ext,
  get_or_beyond, arith,
}
use securefs.Error.{ok, ◌>>=◌}
use securefs.Crypto.{Rng, RngLaws}
use securefs.Stream.{StreamOps, StreamLaws, Becomes, written, cut}
use securefs.Stream.Outcome.{Becomes-subst}
use securefs.Stream.Block.Contract.{segment-written}
use securefs.Lite.Stream.{
  LiteOptions, LiteStream, header_size, max_blocks, open_block, write_block, size,
  adjust_logical_size,
}
use securefs.Lite.Stream.Sizes.{encoded_size}
use securefs.Lite.Stream.Blocks.{unit, place, plain_block, lite_byte, lite_limit, IsLiteFile, apart}
use securefs.Lite.Stream.ReadBlock.{block_number_fits}
use securefs.Lite.Stream.WriteBlock.{WrittenBelow, written_below}
use securefs.Lite.Stream.Adjust.{
  encoded_size_fits, block_run, holds_blocks, resized_file, kept_block, no_block,
}

module _ {T R : Type 0} {under : StreamOps T} (below : StreamLaws under) (random : Rng R)
    (options : LiteOptions) (pos : 0 < options.block_size)
    (room : header_size + unit below random options * (max_blocks + 1) ≤ below.limit) where
  open options use {block_size, iv_size}

  module _ (s : LiteStream T R) (n : ℕ) (input : List ℕ) (v : IsLiteFile below random options s)
      (some : 0 < length input) (part : length input < block_size)
      (smaller : n * block_size + length input < size under random options s)
      (w : WrittenBelow below random options s n input) where
    cut_to : ℕ
    cut_to = n * block_size + length input

    between : LiteStream T R
    between = record { stream = w.stream; rng = w.rng; session = s.session }

    plain : ℕ → List ℕ
    plain m = if m == n then input else if ltb m n then plain_block below random options s m else []

    -- Blocks before block `n` lie before what is written.
    before_block :
        (m : ℕ)
        → m < n
        → open_block under random options s.session m
            (block_run below random options pos room between cut_to m)
          ≡ ok (plain_block below random options s m)
    unfolding between cut_to
    before_block m h =
        let a = apart below random options pos m n h in
        ap (open_block under random options s.session m) (
          segment_ext _ _ (place below random options m) _ (λ i p q. w.holds i ∙ ground (arith, a)))
        ∙ kept_block below random options pos room s cut_to m v (omega (arith, a))

    here_block :
        open_block under random options s.session n
          (block_run below random options pos room between cut_to n)
        ≡ ok input
    unfolding between cut_to
    here_block =
        ap (open_block under random options s.session n) (
          ap (segment (below.byte w.stream) (place below random options n))
            (ground (arith, w.buffer_length))
          ∙ segment_ext _ _ (place below random options n) (length w.buffer) (λ i _ _. w.holds i)
          ∙ segment-written (below.byte s.stream) (place below random options n) w.buffer)
        ∙ w.opens

    plain_opens :
        (m : ℕ)
        → open_block under random options between.session m
            (block_run below random options pos room between cut_to m)
          ≡ ok (plain m)
    unfolding plain between
    plain_opens m = elim (Bool-cases (m == n)) [
      | inl here ↦ rw here (
          subst
            (λ k.
              open_block under random options s.session k
                (block_run below random options pos room between cut_to k)
              ≡ ok input)
            (sym (==→eq _ _ here)) here_block)
      | inr there ↦ rw there (elim (Bool-cases (ltb m n)) [
        | inl before ↦ rw before (before_block m (ltb→lt _ _ before))
        | inr behind ↦ rw behind (
            no_block below random options pos room between cut_to m
              (unfold cut_to in omega (arith, apart below random options pos n m (ground arith))))
      ])
    ]

    plain_lengths : (m : ℕ) → length (plain m) ≡ min block_size (cut_to - m * block_size)
    unfolding plain cut_to
    plain_lengths m = elim (Bool-cases (m == n)) [
      | inl here ↦ rw here (
          let e : m * block_size ≡ n * block_size = ap (λ k. k * block_size) (==→eq _ _ here) in
          omega arith)
      | inr there ↦ rw there (elim (Bool-cases (ltb m n)) [
        | inl before ↦
            rw before
              (v.lengths m ∙ omega (arith, apart below random options pos m n (ltb→lt _ _ before)))
        | inr behind ↦ rw behind (omega (arith, apart below random options pos n m (ground arith)))
      ])
    ]

    inside : (i : ℕ) → i / block_size ≡ n → n * block_size + i % block_size ≡ i
    inside i e = omega (arith, div-add-mod i block_size, ap (λ k. block_size * k) e)

    plain_bytes :
        (i : ℕ)
        → holds_blocks below random options pos room plain i
          ≡ cut (written (lite_byte below random options s) (n * block_size) input) cut_to i
    unfolding plain cut_to
    plain_bytes i = elim (Bool-cases (i / block_size == n)) [
      | inl here ↦ rw here (here_bytes (==→eq _ _ here))
      | inr there ↦ rw there (elim (Bool-cases (ltb (i / block_size) n)) [
        | inl before ↦ rw before (
            let a = apart below random options pos (i / block_size) n (ltb→lt _ _ before) in
            ground (arith, a, div-add-mod i block_size, mod-lt i pos))
        | inr behind ↦ rw behind (
            let a = apart below random options pos n (i / block_size) (ground arith) in
            ground (arith, a, div-add-mod i block_size))
      ])
    ]
      where
        here_bytes :
            i / block_size ≡ n
            → get_or input (i % block_size) 0
              ≡ cut
                  (written (lite_byte below random options s) (n * block_size) input)
                  (n * block_size + length input)
                  i
        here_bytes e = elim (Bool-cases (ltb (i % block_size) (length input))) [
          | inl new ↦ ground (arith, inside i e)
          | inr old ↦
              get_or_beyond (i % block_size) input 0 (ltb→ge _ _ old) ∙ ground (arith, inside i e)
        ]

    cut_after :
        Becomes
          (IsLiteFile below random options)
          (size under random options)
          (lite_byte below random options)
          (write_block under random options s n input >>= λ s'.
            adjust_logical_size under random options s' (n * block_size + length input))
          (n * block_size + length input)
          (cut
            (written (lite_byte below random options s) (n * block_size) input)
            (n * block_size + length input))
    unfolding between cut_to
    cut_after =
        let fits : cut_to ≤ lite_limit below random options = omega (arith, v.fits) in
        Becomes-subst
          (resized_file below random options pos room between cut_to plain w.valid v.session fits
            plain_opens plain_lengths
            (below.resize_returns w.stream (encoded_size block_size iv_size cut_to) w.valid
              (encoded_size_fits below random options pos room cut_to fits)))
          (ap
            (λ r. r >>= λ s'.
              adjust_logical_size under random options s' (n * block_size + length input))
            w.returns)
          refl plain_bytes

  -- A write of a part of a block, and then a cut of the file behind that part, gives a well-formed
  -- file with the new bytes at its end.
  pub cut_block_lem :
      (s : LiteStream T R) (n : ℕ) (input : List ℕ)
      → RngLaws random iv_size options.tries
      → IsLiteFile below random options s
      → 0 < length input
      → length input < block_size
      → n * block_size + length input < size under random options s
      → Becomes
          (IsLiteFile below random options)
          (size under random options)
          (lite_byte below random options)
          (write_block under random options s n input >>= λ s'.
            adjust_logical_size under random options s' (n * block_size + length input))
          (n * block_size + length input)
          (cut
            (written (lite_byte below random options s) (n * block_size) input)
            (n * block_size + length input))
  cut_block_lem s n input random_laws v some part smaller =
      let few = block_number_fits below random options n (omega (arith, v.fits)) in
      cut_after s n input v some part smaller
        (written_below below random options random_laws room s n input v few some (omega arith))
