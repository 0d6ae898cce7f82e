-- ===== src/Lite/Stream/Adjust.antt =====
-- `adjust_logical_size` of a lite file: cut at the end of a block, cut within the block just written,
-- and grown by whole blocks.
use native.Mathlib.Nat.{mod-eq_of_lt, div-add-mod, mod-lt, lt_of_mul-lt-mul_right}
use securefs.Prelude.{
  ℕ, ◌+◌, ◌-◌, ◌*◌, ◌/◌, ◌%◌, ◌≤◌, ◌<◌, ◌≡◌, ◌⊎◌, refl, ap, sym, ◌∙◌, inl, inr, List, [], length,
  get_or, replicate, min, u64, ltb, ltb→lt, ltb→ge, Bool-cases, if◌then◌else◌, segment, segment_ext,
  segment-zero, length-segment, get_or_beyond, get_or-replicate, length-replicate, list_ext,
  get_or-segment, arith,
}
use securefs.Error.{ok, ◌>>=◌}
use securefs.Crypto.{GcmLaws, Rng}
use securefs.Stream.{StreamOps, StreamLaws, Becomes, cut}
use securefs.Lite.Stream.{
  LiteOptions, LiteStream, mac_size, header_size, max_blocks, open_block, size, adjust_logical_size,
}
use securefs.Stream.Outcome.{Becomes-subst}
use securefs.Lite.Stream.Sizes.{
  encoded_size, encoded_size_of, sealed_length, sealed_block_length, encoded_size_mono,
}
use securefs.Lite.Stream.Seal.{open_block-zeros}
use securefs.Lite.Stream.Blocks.{
  unit, place, sealed_block, plain_block, lite_byte, lite_limit, IsLiteFile, from_blocks, apart,
  length-sealed,
}

module _ {T R : Type 0} {under : StreamOps T} (below : StreamLaws under) (random : Rng R)
    (options : LiteOptions) (pos : 0 < options.block_size)
    (room : header_size + unit below random options * (max_blocks + 1) ≤ below.limit) where
  open options use {block_size, iv_size}

  pub encoded_size_fits :
      (n : ℕ)
      → n ≤ lite_limit below random options
      → encoded_size block_size iv_size n ≤ below.limit
  encoded_size_fits n h =
      let whole : encoded_size block_size iv_size (lite_limit below random options + 0)
          ≡ header_size + (max_blocks + 1) * unit below random options + 0 =
        encoded_size_of block_size iv_size pos (max_blocks + 1) 0 pos in
      omega (
        arith,
        encoded_size_mono block_size iv_size pos n (lite_limit below random options + 0)
            (omega arith),
        whole,
      )

  -- The run of bytes that is block `m` of a file of `n` bytes below.
  abbrev pub block_run : LiteStream T R → ℕ → ℕ → List ℕ
  block_run s n m =
      segment (below.byte s.stream) (place below random options m)
        (sealed_length iv_size (min block_size (n - m * block_size)))

  abbrev pub holds_blocks : (ℕ → List ℕ) → ℕ → ℕ
  holds_blocks plain i = get_or (plain (i / block_size)) (i % block_size) 0

  -- A resize below that leaves blocks which open to `plain`.
  module _ (s : LiteStream T R) (n : ℕ) (plain : ℕ → List ℕ) (valid : below.Valid s.stream)
      (session : GcmLaws s.session) (fits : n ≤ lite_limit below random options)
      (opens : (m : ℕ)
        → open_block under random options s.session m (block_run s n m) ≡ ok (plain m))
      (lengths : (m : ℕ) → length (plain m) ≡ min block_size (n - m * block_size))
      (b : Becomes below.Valid under.size below.byte
        (under.resize s.stream (encoded_size block_size iv_size n))
        (encoded_size block_size iv_size n)
        (cut (below.byte s.stream) (encoded_size block_size iv_size n))) where
    resized_opens :
        (m : ℕ)
        → open_block under random options s.session m (
            sealed_block below random options
              (record { stream = b.after; rng = s.rng; session = s.session })
              m)
          ≡ ok (plain m)
    resized_opens m =
        let len : min (unit below random options)
              (under.size b.after - place below random options m)
            ≡ sealed_length iv_size (min block_size (n - m * block_size)) =
          ap (λ k. min (unit below random options) (k - place below random options m)) b.resized
          ∙ sealed_block_length block_size iv_size pos n m in
        ap (open_block under random options s.session m) (
          ap (segment (below.byte b.after) (place below random options m)) len
          ∙ segment_ext _ _ (place below random options m) _
              (λ i p q. b.holds i ∙ ground (arith, sealed_block_length block_size iv_size pos n m)))
        ∙ opens m

    pub resized_file :
        Becomes
          (IsLiteFile below random options)
          (size under random options)
          (lite_byte below random options)
          (adjust_logical_size under random options s n)
          n
          (holds_blocks plain)
    unfolding adjust_logical_size
    resized_file =
        let (file, sz, bytes) =
          from_blocks below random options pos
            (record { stream = b.after; rng = s.rng; session = s.session }) n plain b.valid session
            b.resized fits resized_opens lengths in
        let word : u64 (encoded_size block_size iv_size n) ≡ encoded_size block_size iv_size n =
          mod-eq_of_lt (omega (arith, encoded_size_fits n fits, below.limit_fits)) in
        record {
          after = record { stream = b.after; rng = s.rng; session = s.session };
          returns =
              ap (λ k. under.resize s.stream k >>= λ stream. ok (record s { stream = stream })) word
              ∙ ap (λ r. r >>= λ stream. ok (record s { stream = stream })) b.returns;
          valid = file;
          resized = sz;
          holds = bytes;
        }

  aligned_step :
      (x m : ℕ) → x % block_size ≡ 0 → m * block_size < x → m * block_size + block_size ≤ x
  aligned_step x m e h =
      let q : x / block_size * block_size ≡ x = omega (arith, div-add-mod x block_size) in
      let lt : m < x / block_size = lt_of_mul-lt-mul_right block_size (omega (arith, q)) in
      omega (arith, apart below random options pos m (x / block_size) lt, q)

  -- Block `m` of a file that is well formed, if it keeps its length.
  pub kept_block :
      (s : LiteStream T R) (n m : ℕ)
      → IsLiteFile below random options s
      → min block_size (n - m * block_size)
        ≡ min block_size (size under random options s - m * block_size)
      → open_block under random options s.session m (block_run s n m)
        ≡ ok (plain_block below random options s m)
  kept_block s n m v e =
      ap
        (λ k.
          open_block under random options s.session m
            (segment (below.byte s.stream) (place below random options m) k))
        (ap (sealed_length iv_size) e ∙ sym (length-sealed below random options pos s m v))
      ∙ v.opens m

  -- A block behind the end.
  pub no_block :
      (s : LiteStream T R) (n m : ℕ)
      → n ≤ m * block_size
      → open_block under random options s.session m (block_run s n m) ≡ ok []
  no_block s n m h =
      ap (open_block under random options s.session m)
        (segment-zero (below.byte s.stream) (place below random options m) _ (ground arith))
      ∙ open_block-zeros under random options s.session m 0 (omega arith)
      ∙ (let z : 0 - (iv_size + mac_size) ≡ 0 = omega arith in
          ap (λ k. ok (replicate {A = ℕ} k 0)) z)

  -- Block `m` of a hole: nothing below but nulls.
  hole_block :
      (s : LiteStream T R) (n m : ℕ)
      → IsLiteFile below random options s
      → size under random options s ≤ m * block_size
      → open_block under random options s.session m (block_run s n m)
        ≡ ok (replicate (min block_size (n - m * block_size)) 0)
  hole_block s n m v h =
      ap (open_block under random options s.session m) nulls
      ∙ open_block-zeros under random options s.session m len (ground arith)
      ∙ ap (λ k. ok (replicate {A = ℕ} k 0)) shorter
    where
      len : ℕ
      len = sealed_length iv_size (min block_size (n - m * block_size))

      shorter : len - (iv_size + mac_size) ≡ min block_size (n - m * block_size)
      shorter = ground arith

      ended :
          min (unit below random options) (under.size s.stream - place below random options m) ≡ 0
      ended = length-sealed below random options pos s m v ∙ ground arith

      unit_pos : 0 < unit below random options
      unit_pos = omega arith

      nulls : segment (below.byte s.stream) (place below random options m) len ≡ replicate len 0
      nulls =
          list_ext _ _ 0
            (length-segment (below.byte s.stream) (place below random options m) len
              ∙ sym (length-replicate {A = ℕ} len 0))
            λ i p. ground (
              arith,
              get_or-segment (below.byte s.stream) (place below random options m) len i,
              get_or-replicate {A = ℕ} len i 0,
              below.byte_beyond s.stream (place below random options m + i) v.valid
                  (omega (arith, ended, unit_pos)),
            )

  -- Cut where a block ends.
  module _ (s : LiteStream T R) (n : ℕ) (v : IsLiteFile below random options s)
      (smaller : n < size under random options s) (aligned : n % block_size ≡ 0) where
    kept : ℕ → List ℕ
    kept m = if ltb (m * block_size) n then plain_block below random options s m else []

    kept_opens :
        (m : ℕ) → open_block under random options s.session m (block_run s n m) ≡ ok (kept m)
    unfolding kept
    kept_opens m = elim (Bool-cases (ltb (m * block_size) n)) [
      | inl within ↦
          rw within
            (kept_block s n m v (omega (arith, aligned_step n m aligned (ltb→lt _ _ within))))
      | inr behind ↦ rw behind (no_block s n m (ltb→ge _ _ behind))
    ]

    kept_lengths : (m : ℕ) → length (kept m) ≡ min block_size (n - m * block_size)
    unfolding kept
    kept_lengths m = elim (Bool-cases (ltb (m * block_size) n)) [
      | inl within ↦
          rw within (v.lengths m ∙ omega (arith, aligned_step n m aligned (ltb→lt _ _ within)))
      | inr behind ↦ rw behind (omega (arith, ltb→ge _ _ behind))
    ]

    kept_bytes : (i : ℕ) → holds_blocks kept i ≡ cut (lite_byte below random options s) n i
    unfolding kept
    kept_bytes i = elim (Bool-cases (ltb (i / block_size * block_size) n)) [
      | inl within ↦ rw within (
          let near : i < n = omega (
            arith,
            aligned_step n (i / block_size) aligned (ltb→lt _ _ within),
            div-add-mod i block_size,
            mod-lt i pos,
          ) in
          ground arith)
      | inr behind ↦ rw behind (
          let far : n ≤ i = omega (arith, ltb→ge _ _ behind, div-add-mod i block_size) in
          ground arith)
    ]

    pub cut_lem :
        Becomes
          (IsLiteFile below random options)
          (size under random options)
          (lite_byte below random options)
          (adjust_logical_size under random options s n)
          n
          (cut (lite_byte below random options s) n)
    cut_lem =
        let fits : n ≤ lite_limit below random options = omega (arith, v.fits) in
        Becomes-subst
          (resized_file s n kept v.valid v.session fits kept_opens kept_lengths (
            below.resize_returns s.stream (encoded_size block_size iv_size n) v.valid
              (encoded_size_fits n fits)))
          refl refl kept_bytes

  -- Grown by whole blocks, or not at all.
  module _ (s : LiteStream T R) (n : ℕ) (v : IsLiteFile below random options s)
      (larger : size under random options s ≤ n) (fits : n ≤ lite_limit below random options)
      (ends : (size under random options s % block_size ≡ 0)
        ⊎ (size under random options s ≡ n)) where
    grown : ℕ → List ℕ
    grown m =
        if ltb (m * block_size) (size under random options s)
        then plain_block below random options s m
        else replicate (min block_size (n - m * block_size)) 0

    same_length :
        (m : ℕ)
        → m * block_size < size under random options s
        → min block_size (n - m * block_size)
          ≡ min block_size (size under random options s - m * block_size)
    same_length m h = elim ends [
      | inl aligned ↦ omega (arith, aligned_step (size under random options s) m aligned h)
      | inr equal ↦ omega (arith, equal)
    ]

    grown_opens :
        (m : ℕ) → open_block under random options s.session m (block_run s n m) ≡ ok (grown m)
    unfolding grown
    grown_opens m = elim (Bool-cases (ltb (m * block_size) (size under random options s))) [
      | inl within ↦ rw within (kept_block s n m v (same_length m (ltb→lt _ _ within)))
      | inr behind ↦ rw behind (hole_block s n m v (ltb→ge _ _ behind))
    ]

    grown_lengths : (m : ℕ) → length (grown m) ≡ min block_size (n - m * block_size)
    unfolding grown
    grown_lengths m = elim (Bool-cases (ltb (m * block_size) (size under random options s))) [
      | inl within ↦ rw within (v.lengths m ∙ sym (same_length m (ltb→lt _ _ within)))
      | inr behind ↦ rw behind (length-replicate {A = ℕ} (min block_size (n - m * block_size)) 0)
    ]

    grown_bytes : (i : ℕ) → holds_blocks grown i ≡ lite_byte below random options s i
    unfolding grown
    grown_bytes i =
        elim (Bool-cases (ltb (i / block_size * block_size) (size under random options s))) [
          | inl within ↦ rw within
          | inr behind ↦ rw behind (
              get_or-replicate {A = ℕ} (min block_size (n - i / block_size * block_size))
                (i % block_size) 0
              ∙ sym (
                  get_or_beyond (i % block_size)
                    (plain_block below random options s (i / block_size)) 0
                    (omega (arith, v.lengths (i / block_size), ltb→ge _ _ behind))))
        ]

    pub grow_lem :
        Becomes
          (IsLiteFile below random options)
          (size under random options)
          (lite_byte below random options)
          (adjust_logical_size under random options s n)
          n
          (lite_byte below random options s)
    grow_lem =
        Becomes-subst
          (resized_file s n grown v.valid v.session fits grown_opens grown_lengths (
            below.resize_returns s.stream (encoded_size block_size iv_size n) v.valid
              (encoded_size_fits n fits)))
          refl refl grown_bytes
