-- ===== src/Lite/Stream/Blocks.antt =====
-- The blocks of a lite file: what BlockBasedStream asks of the class that provides them.
use native.Mathlib.Nat.{mul-le-mul_right, max-eq_left, max-eq_right}
use securefs.Prelude.{
  ℕ, suc, ◌+◌, ◌-◌, ◌*◌, ◌/◌, ◌%◌, ◌≤◌, ◌<◌, ◌≡◌, ap, ap₂, sym, ◌∙◌, inl, inr, List, [], length,
  get_or, min, max, ltb, lt→ltb, ltb→lt, ltb→ge, Bool-cases, segment, length-segment,
  get_or-segment, list_ext, arith,
}
use securefs.Error.{Result, ok}
use securefs.Crypto.{GcmLaws, Rng}
use securefs.Stream.{StreamOps, StreamLaws}
use securefs.Lite.Stream.{
  LiteOptions, LiteStream, mac_size, header_size, max_blocks, open_block, size, calculate_real_size,
}
use securefs.Lite.Stream.Sizes.{
  encoded_size, sealed_length, calculate_real_size-encoded_size, sealed_block_length,
  encoded_size_mono,
}
use securefs.Stream.Block.Pieces.{whole_div, whole_mod}

-- The bytes that a read handed over, if it did.
abbrev pub bytes_of : Result (List ℕ) → List ℕ
bytes_of (ok bytes) = bytes
bytes_of _ = []

module _ {T R : Type 0} {under : StreamOps T} (below : StreamLaws under) (random : Rng R)
    (options : LiteOptions) where
  open options use {block_size, iv_size, tries}

  abbrev pub unit : ℕ
  unit = block_size + iv_size + mac_size

  -- Where block `n` begins below.
  abbrev pub place : ℕ → ℕ
  place n = header_size + unit * n

  -- What block `n` is below, and what it is opened to.
  abbrev pub sealed_block : LiteStream T R → ℕ → List ℕ
  sealed_block s n =
      segment (below.byte s.stream) (place n) (min unit (under.size s.stream - place n))

  abbrev pub plain_block : LiteStream T R → ℕ → List ℕ
  plain_block s n = bytes_of (open_block under random options s.session n (sealed_block s n))

  -- Byte `i` of the file.
  abbrev pub lite_byte : LiteStream T R → ℕ → ℕ
  lite_byte s i = get_or (plain_block s (i / block_size)) (i % block_size) 0

  abbrev pub lite_limit : ℕ
  lite_limit = (max_blocks + 1) * block_size

  -- A file that is well formed: of a size that blocks have, every block of which opens.
  pub record IsLiteFile (s : LiteStream T R) : Type 0 where
    pub valid : below.Valid s.stream
    pub session : GcmLaws s.session
    pub sized : under.size s.stream ≡ encoded_size block_size iv_size (size under random options s)
    pub fits : size under random options s ≤ lite_limit
    pub opens :
        (n : ℕ)
        → open_block under random options s.session n (sealed_block s n) ≡ ok (plain_block s n)
    pub lengths :
        (n : ℕ)
        → length (plain_block s n) ≡ min block_size (size under random options s - n * block_size)

  module _ (pos : 0 < block_size) where
    -- A file below whose blocks open to `plain` is well formed, and `plain` says what it holds.
    pub from_blocks :
        (s : LiteStream T R) (n : ℕ) (plain : ℕ → List ℕ)
        → below.Valid s.stream
        → GcmLaws s.session
        → under.size s.stream ≡ encoded_size block_size iv_size n
        → n ≤ lite_limit
        → ((m : ℕ) → open_block under random options s.session m (sealed_block s m) ≡ ok (plain m))
        → ((m : ℕ) → length (plain m) ≡ min block_size (n - m * block_size))
        → IsLiteFile s
          × (size under random options s ≡ n)
          × ((i : ℕ) → lite_byte s i ≡ get_or (plain (i / block_size)) (i % block_size) 0)
    unfolding size
    from_blocks s n plain v g e l o h =
        let sz : calculate_real_size (under.size s.stream) block_size iv_size ≡ n =
          ap (λ k. calculate_real_size k block_size iv_size) e
          ∙ calculate_real_size-encoded_size block_size iv_size pos n in
        let same : (m : ℕ) → plain_block s m ≡ plain m = λ m. ap bytes_of (o m) in
        (
          record {
            valid = v;
            session = g;
            sized = e ∙ ap (encoded_size block_size iv_size) (sym sz);
            fits = omega (arith, sz);
            opens = λ m. o m ∙ ap ok (sym (same m));
            lengths = λ m.
                ap length (same m) ∙ h m ∙ ap (λ k. min block_size (k - m * block_size)) (sym sz);
          },
          sz,
          λ i. ap (λ l. get_or l (i % block_size) 0) (same (i / block_size)),
        )

    -- Blocks that come one after the other do not meet, below or above.
    pub apart :
        (m n : ℕ)
        → m < n
        → (unit * m + unit ≤ unit * n) × (m * block_size + block_size ≤ n * block_size)
    apart m n h =
        let p : suc m * block_size ≤ n * block_size = mul-le-mul_right block_size h in
        let q : suc m * unit ≤ n * unit = mul-le-mul_right unit h in omega arith

    -- The bytes of block `m`, as a run of the file.
    pub plain-segment :
        (s : LiteStream T R) (m : ℕ)
        → IsLiteFile s
        → plain_block s m
          ≡ segment
              (lite_byte s)
              (m * block_size)
              (min block_size (size under random options s - m * block_size))
    plain-segment s m v =
        list_ext _ _ 0 (v.lengths m ∙ sym (length-segment (lite_byte s) (m * block_size) _)) λ i h.
          sym (
            get_or-segment (lite_byte s) (m * block_size) _ i
            ∙ rw
                (lt→ltb i (min block_size (size under random options s - m * block_size))
                  (omega (arith, v.lengths m)))
                (ap₂ (λ b j. get_or (plain_block s b) j 0)
                  (whole_div block_size m i (omega (arith, v.lengths m)))
                  (whole_mod block_size m i (omega (arith, v.lengths m)))))

    -- How long block `m` is below.
    pub length-sealed :
        (s : LiteStream T R) (m : ℕ)
        → IsLiteFile s
        → min unit (under.size s.stream - place m)
          ≡ sealed_length iv_size (min block_size (size under random options s - m * block_size))
    length-sealed s m v =
        ap (λ k. min unit (k - place m)) v.sized
        ∙ sealed_block_length block_size iv_size pos (size under random options s) m

    pub max-encoded_size :
        (m n : ℕ)
        → max (encoded_size block_size iv_size m) (encoded_size block_size iv_size n)
          ≡ encoded_size block_size iv_size (max m n)
    max-encoded_size m n = elim (Bool-cases (ltb m n)) [
      | inl less ↦
          let e : max m n ≡ n = omega (arith, ltb→lt _ _ less) in
          let le = encoded_size_mono block_size iv_size pos m n (omega (arith, ltb→lt _ _ less)) in
          max-eq_right le ∙ ap (encoded_size block_size iv_size) (sym e)
      | inr more ↦
          let e : max m n ≡ m = omega (arith, ltb→ge _ _ more) in
          let le = encoded_size_mono block_size iv_size pos n m (omega (arith, ltb→ge _ _ more)) in
          max-eq_left le ∙ ap (encoded_size block_size iv_size) (sym e)
    ]

  -- Every block has its place within what the stream below can hold.
  pub place_fits :
      (n : ℕ)
      → n ≤ max_blocks
      → header_size + unit * (max_blocks + 1) ≤ below.limit
      → place n + unit ≤ below.limit
  place_fits n h room =
      let p : suc n * unit ≤ (max_blocks + 1) * unit = mul-le-mul_right unit (omega arith) in
      omega arith
