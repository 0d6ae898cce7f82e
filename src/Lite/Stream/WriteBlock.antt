-- ===== src/Lite/Stream/WriteBlock.antt =====
-- `write_block` of a lite file.
use native.Mathlib.Nat.{mod-eq_of_lt, mul_comm, div-add-mod, mod-lt}
use securefs.Prelude.{
  ℕ, ◌+◌, ◌-◌, ◌*◌, ◌/◌, ◌%◌, ◌≤◌, ◌<◌, ◌≡◌, ◌≢◌, ap, ap₂, sym, ◌∙◌, ◌⊎◌, inl, inr, subst, List,
  length, get_or, min, max, u64, ltb, ◌==◌, ==→eq, ltb→lt, ltb→ge, le→leb, Bool-cases,
  if◌then◌else◌, segment, segment_ext, get_or_beyond, arith,
}
use securefs.Error.{ok, ◌>>=◌}
use securefs.Crypto.{Rng, RngLaws}
use securefs.Stream.{StreamOps, StreamLaws, Becomes, written}
use securefs.Stream.Block.Contract.{segment-written}
use securefs.Lite.Stream.{
  LiteOptions, LiteStream, mac_size, header_size, max_blocks, open_block, write_block, seal_block,
  size,
}
use securefs.Lite.Stream.Sizes.{
  encoded_size, sealed_length, sealed_block_length, encoded_size_block,
}
use securefs.Lite.Stream.Seal.{open-seal}
use securefs.Lite.Stream.Blocks.{
  unit, place, place_fits, sealed_block, plain_block, lite_byte, lite_limit, IsLiteFile,
  from_blocks, apart, max-encoded_size, length-sealed,
}
use securefs.Lite.Stream.ReadBlock.{block_number_fits}

-- A write of `input` as block `n`: `buffer`, which opens to `input`, goes to the place of the block.
pub record WrittenBelow {T R : Type 0} {under : StreamOps T} (below : StreamLaws under)
    (random : Rng R) (options : LiteOptions) (s : LiteStream T R) (n : ℕ) (input : List ℕ)
    : Type 0 where
  pub buffer : List ℕ
  pub rng : R
  pub stream : T
  pub returns :
      write_block under random options s n input
      ≡ ok (record { stream = stream; rng = rng; session = s.session })
  pub buffer_length : length buffer ≡ length input + options.iv_size + mac_size
  pub opens : open_block under random options s.session n buffer ≡ ok input
  pub valid : below.Valid stream
  pub resized :
      under.size stream ≡ max (under.size s.stream) (place below random options n + length buffer)
  pub holds :
      (i : ℕ)
      → below.byte stream i ≡ written (below.byte s.stream) (place below random options n) buffer i

module _ {T R : Type 0} {under : StreamOps T} (below : StreamLaws under) (random : Rng R)
    (options : LiteOptions) (random_laws : RngLaws random options.iv_size options.tries)
    (room : header_size + unit below random options * (max_blocks + 1) ≤ below.limit) where
  open options use {block_size, iv_size}

  -- The write of a sealed block, once the stream below has taken it.
  taken :
      (s : LiteStream T R) (n : ℕ) (input buffer : List ℕ) (rng : R)
      → n ≤ max_blocks
      → seal_block under random options s n input ≡ ok (buffer, rng)
      → length buffer ≡ length input + iv_size + mac_size
      → open_block under random options s.session n buffer ≡ ok input
      → u64 (n * unit below random options + header_size) ≡ place below random options n
      → Becomes below.Valid under.size below.byte
          (under.write s.stream buffer (place below random options n))
          (max (under.size s.stream) (place below random options n + length buffer))
          (written (below.byte s.stream) (place below random options n) buffer)
      → WrittenBelow below random options s n input
  unfolding write_block
  taken s n input buffer rng few sealed len opened word w = record {
    buffer = buffer;
    rng = rng;
    stream = w.after;
    returns = rw (le→leb n max_blocks few) (
        rw sealed (
          rw word
            (ap (λ r. r >>= λ stream. ok (record s { stream = stream; rng = rng })) w.returns)));
    buffer_length = len;
    opens = opened;
    valid = w.valid;
    resized = w.resized;
    holds = w.holds;
  }

  pub written_below :
      (s : LiteStream T R) (n : ℕ) (input : List ℕ)
      → IsLiteFile below random options s
      → n ≤ max_blocks
      → 0 < length input
      → length input ≤ block_size
      → WrittenBelow below random options s n input
  written_below s n input v few some fit =
      let (buffer, rng, sealed, len, opened) =
        open-seal under random options s n input v.session random_laws some fit in
      let fits = place_fits below random options n few room in
      let there : n * unit below random options + header_size ≡ place below random options n =
        omega (arith, mul_comm n (unit below random options)) in
      let word : u64 (n * unit below random options + header_size) ≡ place below random options n =
        ap u64 there ∙ mod-eq_of_lt (omega (arith, below.limit_fits)) in
      taken s n input buffer rng few sealed len opened word (
        below.write_returns s.stream buffer (place below random options n) v.valid
          (omega (arith, len)) (omega (arith, len)))

  -- The file after a write that covers block `n`.
  module _ (s : LiteStream T R) (n : ℕ) (input : List ℕ) (pos : 0 < block_size)
      (v : IsLiteFile below random options s)
      (within : n * block_size ≤ size under random options s) (some : 0 < length input)
      (fit : length input ≤ block_size)
      (covers : min block_size (size under random options s - n * block_size) ≤ length input)
      (l : n * block_size + length input ≤ lite_limit below random options)
      (w : WrittenBelow below random options s n input) where
    after : LiteStream T R
    after = record { stream = w.stream; rng = w.rng; session = s.session }

    new_size : ℕ
    new_size = max (size under random options s) (n * block_size + length input)

    plain : ℕ → List ℕ
    plain m = if m == n then input else plain_block below random options s m

    after_size : under.size w.stream ≡ encoded_size block_size iv_size new_size
    unfolding new_size
    after_size =
        w.resized
        ∙ ap₂ max v.sized (
            omega (arith, w.buffer_length)
            ∙ encoded_size_block block_size iv_size pos n (length input) some fit)
        ∙ max-encoded_size below random options pos (size under random options s)
            (n * block_size + length input)

    after_length :
        (m : ℕ)
        → min (unit below random options) (under.size w.stream - place below random options m)
          ≡ sealed_length iv_size (min block_size (new_size - m * block_size))
    after_length m =
        ap (λ k. min (unit below random options) (k - place below random options m)) after_size
        ∙ sealed_block_length block_size iv_size pos new_size m

    -- The block that is written.
    same_block : sealed_block below random options after n ≡ w.buffer
    unfolding after new_size
    same_block =
        ap (segment (below.byte w.stream) (place below random options n))
          (after_length n ∙ ground (arith, w.buffer_length))
        ∙ segment_ext _ _ (place below random options n) (length w.buffer) (λ i _ _. w.holds i)
        ∙ segment-written (below.byte s.stream) (place below random options n) w.buffer

    -- What keeps block `m` apart from block `n`.
    disjoint :
        (m : ℕ)
        → m ≢ n
        → ((unit below random options * m + unit below random options
              ≤ unit below random options * n)
            × (m * block_size + block_size ≤ n * block_size))
          ⊎ ((unit below random options * n + unit below random options
                ≤ unit below random options * m)
              × (n * block_size + block_size ≤ m * block_size))
    disjoint m ne = elim (Bool-cases (ltb m n)) [
      | inl less ↦ inl (apart below random options pos m n (ltb→lt _ _ less))
      | inr more ↦ inr (apart below random options pos n m (omega (arith, ltb→ge _ _ more, ne)))
    ]

    other_length :
        (m : ℕ)
        → m ≢ n
        → min block_size (new_size - m * block_size)
          ≡ min block_size (size under random options s - m * block_size)
    unfolding new_size
    other_length m ne = omega (arith, disjoint m ne)

    other_block :
        (m : ℕ)
        → m ≢ n
        → sealed_block below random options after m ≡ sealed_block below random options s m
    unfolding after
    other_block m ne =
        ap (segment (below.byte w.stream) (place below random options m)) (
          after_length m
          ∙ ap (sealed_length iv_size) (other_length m ne)
          ∙ sym (length-sealed below random options pos s m v))
        ∙ segment_ext _ _ (place below random options m) _
            (λ i p q. w.holds i ∙ ground (arith, disjoint m ne, w.buffer_length))

    after_opens :
        (m : ℕ)
        → open_block under random options s.session m (sealed_block below random options after m)
          ≡ ok (plain m)
    unfolding plain
    after_opens m = elim (Bool-cases (m == n)) [
      | inl here ↦
          let e : m ≡ n = ==→eq _ _ here in
          rw here (
            subst
              (λ k.
                open_block under random options s.session k
                  (sealed_block below random options after k)
                ≡ ok input)
              (sym e) (ap (open_block under random options s.session n) same_block ∙ w.opens))
      | inr there ↦ rw there (
          ap (open_block under random options s.session m) (other_block m (ground arith))
          ∙ v.opens m)
    ]

    after_lengths : (m : ℕ) → length (plain m) ≡ min block_size (new_size - m * block_size)
    unfolding plain
    after_lengths m = elim (Bool-cases (m == n)) [
      | inl here ↦
          rw here (let e : m ≡ n = ==→eq _ _ here in here_length m (ap (λ k. k * block_size) e))
      | inr there ↦ rw there (v.lengths m ∙ sym (other_length m (ground arith)))
    ]
      where
        here_length :
            (m : ℕ)
            → m * block_size ≡ n * block_size
            → length input ≡ min block_size (new_size - m * block_size)
        here_length m e = unfold new_size in omega arith

    inside : (i : ℕ) → i / block_size ≡ n → n * block_size + i % block_size ≡ i
    inside i e = omega (arith, div-add-mod i block_size, ap (λ k. block_size * k) e)

    -- Behind `input` the old block has no byte.
    uncovered :
        (i : ℕ)
        → i / block_size ≡ n
        → length input ≤ i % block_size
        → lite_byte below random options s i ≡ 0
    uncovered i e h =
        get_or_beyond (i % block_size) (plain_block below random options s (i / block_size)) 0
          (omega (arith, v.lengths (i / block_size), ap (λ k. k * block_size) e))

    after_byte_here :
        (i : ℕ)
        → i / block_size ≡ n
        → get_or input (i % block_size) 0
          ≡ written (lite_byte below random options s) (n * block_size) input i
    after_byte_here i e = elim (Bool-cases (ltb (i % block_size) (length input))) [
      | inl new ↦ ground (arith, inside i e)
      | inr old ↦
          get_or_beyond (i % block_size) input 0 (ltb→ge _ _ old)
          ∙ ground (arith, inside i e, uncovered i e)
    ]

    after_byte_there :
        (i : ℕ)
        → i / block_size ≢ n
        → lite_byte below random options s i
          ≡ written (lite_byte below random options s) (n * block_size) input i
    after_byte_there i ne =
        ground (arith, disjoint (i / block_size) ne, div-add-mod i block_size, mod-lt i pos)

    after_byte :
        (i : ℕ)
        → get_or (plain (i / block_size)) (i % block_size) 0
          ≡ written (lite_byte below random options s) (n * block_size) input i
    unfolding plain
    after_byte i = elim (Bool-cases (i / block_size == n)) [
      | inl here ↦ rw here (after_byte_here i (==→eq _ _ here))
      | inr there ↦ rw there (after_byte_there i (ground arith))
    ]

    written_file :
        Becomes
          (IsLiteFile below random options)
          (size under random options)
          (lite_byte below random options)
          (write_block under random options s n input)
          new_size
          (written (lite_byte below random options s) (n * block_size) input)
    unfolding after
    written_file =
        let (file, sz, bytes) =
          from_blocks below random options pos after new_size plain w.valid v.session after_size
            (unfold new_size in omega (arith, v.fits)) after_opens after_lengths in
        record {
          after = after;
          returns = w.returns;
          valid = file;
          resized = sz;
          holds = λ i. bytes i ∙ after_byte i;
        }

  -- A write of a block that covers the block's old bytes, at or before the end of a well-formed file
  -- and within the limit of 2^31 blocks, gives a well-formed file with the new bytes in place.
  pub write_block_lem :
      (s : LiteStream T R) (n : ℕ) (input : List ℕ)
      → 0 < block_size
      → IsLiteFile below random options s
      → n * block_size ≤ size under random options s
      → 0 < length input
      → length input ≤ block_size
      → min block_size (size under random options s - n * block_size) ≤ length input
      → n * block_size + length input ≤ lite_limit below random options
      → Becomes
          (IsLiteFile below random options)
          (size under random options)
          (lite_byte below random options)
          (write_block under random options s n input)
          (max (size under random options s) (n * block_size + length input))
          (written (lite_byte below random options s) (n * block_size) input)
  unfolding new_size
  write_block_lem s n input pos v within some fit covers l =
      let few = block_number_fits below random options n (omega arith) in
      written_file s n input pos v within some fit covers l (written_below s n input v few some fit)
