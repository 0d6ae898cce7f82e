-- ===== src/Lite/Stream/Sizes.antt =====
-- The arithmetic of sizes: how long the stream below is for a file of a given length.
use native.Mathlib.Nat.{mul-le-mul_right, mod-lt, div-add-mod, le-div_iff_mul-le, div-mul-le_self}
use securefs.Prelude.{
  ℕ, suc, ◌+◌, ◌-◌, ◌*◌, ◌/◌, ◌%◌, ◌≤◌, ◌<◌, ◌≡◌, inl, inr, refl, ap, ap₂, sym, ◌∙◌, min, ltb, leb,
  ltb→lt, ltb→ge, leb→le, Bool-cases, if◌then◌else◌, arith,
}
use securefs.Stream.Block.Pieces.{whole_div, whole_mod}
use securefs.Lite.Stream.{calculate_real_size, header_size, mac_size}

-- A block of `k` bytes takes none below if it is empty, or an IV and a MAC more.
abbrev pub sealed_length : ℕ → ℕ → ℕ
sealed_length iv_size k = if ltb 0 k then k + iv_size + mac_size else 0

-- The size below of a file of `n` bytes.
abbrev pub encoded_size : ℕ → ℕ → ℕ → ℕ
encoded_size block_size iv_size n =
    header_size
    + n / block_size * (block_size + iv_size + mac_size)
    + sealed_length iv_size (n % block_size)

module _ (b iv : ℕ) (pos : 0 < b) where
  pub encoded_size_of :
      (q r : ℕ)
      → r < b
      → encoded_size b iv (q * b + r) ≡ header_size + q * (b + iv + mac_size) + sealed_length iv r
  encoded_size_of q r h =
      ap₂ (λ x y. header_size + x * (b + iv + mac_size) + sealed_length iv y) (whole_div b q r h)
        (whole_mod b q r h)

  steps :
      (m n : ℕ)
      → m < n
      → (m * b + b ≤ n * b) × (m * (b + iv + 16) + (b + iv + 16) ≤ n * (b + iv + 16))
  steps m n h =
      let p : suc m * b ≤ n * b = mul-le-mul_right b h in
      let q : suc m * (b + iv + 16) ≤ n * (b + iv + 16) = mul-le-mul_right (b + iv + 16) h in
      omega arith

  sealed-lt : (r : ℕ) → r < b → sealed_length iv r < b + iv + 16
  sealed-lt r h = ground arith

  real_of :
      (q r x : ℕ)
      → r < b
      → x ≡ sealed_length iv r
      → calculate_real_size (16 + q * (b + iv + 16) + x) b iv ≡ q * b + r
  unfolding calculate_real_size
  real_of q r x h e =
      let body : 16 + q * (b + iv + 16) + x - 16 ≡ q * (b + iv + 16) + x = omega arith in
      let d : (16 + q * (b + iv + 16) + x - 16) / (b + iv + 16) ≡ q =
        ap (λ t. t / (b + iv + 16)) body
        ∙ whole_div (b + iv + 16) q x (omega (arith, e, sealed-lt r h)) in
      let m : (16 + q * (b + iv + 16) + x - 16) % (b + iv + 16) ≡ x =
        ap (λ t. t % (b + iv + 16)) body
        ∙ whole_mod (b + iv + 16) q x (omega (arith, e, sealed-lt r h)) in
      let none_left : q * (b + iv + 16) + x ≤ 0 → q ≡ 0 = λ z. elim (Bool-cases (ltb 0 q)) [
        | inl t ↦ absurd (omega (arith, steps 0 q (ltb→lt _ _ t)))
        | inr t ↦ omega (arith, ltb→ge _ _ t)
      ] in
      elim (Bool-cases (leb (16 + q * (b + iv + 16) + x) 16)) [
        | inl empty ↦ rw empty (
            let z : q ≡ 0 = none_left (omega (arith, leb→le _ _ empty)) in
            ground (arith, z, ap (λ t. t * b) z))
        | inr some_bytes ↦ rw (some_bytes, d, m) (ground arith)
      ]

  -- A file of `n` bytes, whose blocks are encrypted behind the header, has the real size `n`.
  pub calculate_real_size-encoded_size :
      (n : ℕ) → calculate_real_size (encoded_size b iv n) b iv ≡ n
  calculate_real_size-encoded_size n =
      real_of (n / b) (n % b) (sealed_length iv (n % b)) (mod-lt n pos) refl
      ∙ omega (arith, div-add-mod n b)

  sealed_of :
      (q r m : ℕ)
      → r < b
      → min (b + iv + 16) (16 + q * (b + iv + 16) + sealed_length iv r - (16 + (b + iv + 16) * m))
        ≡ sealed_length iv (min b (q * b + r - m * b))
  sealed_of q r m h = elim (Bool-cases (ltb m q)) [
    | inl before ↦ ground (arith, steps m q (ltb→lt _ _ before))
    | inr behind ↦ elim (Bool-cases (ltb q m)) [
      | inl after ↦ ground (arith, steps q m (ltb→lt _ _ after), sealed-lt r h)
      | inr not_after ↦
          let e : q ≡ m = omega (arith, ltb→ge _ _ behind, ltb→ge _ _ not_after) in
          ground (arith, e, ap (λ t. t * b) e, ap (λ t. t * (b + iv + 16)) e)
    ]
  ]

  -- The bytes below of block `m` of a file of `n` bytes.
  pub sealed_block_length :
      (n m : ℕ)
      → min (b + iv + mac_size) (encoded_size b iv n - (header_size + (b + iv + mac_size) * m))
        ≡ sealed_length iv (min b (n - m * b))
  sealed_block_length n m =
      sealed_of (n / b) (n % b) m (mod-lt n pos)
      ∙ ap (λ t. sealed_length iv (min b (t - m * b))) (omega (arith, div-add-mod n b))

  pub encoded_size_block :
      (m k : ℕ)
      → 0 < k
      → k ≤ b
      → header_size + (b + iv + mac_size) * m + (k + iv + mac_size) ≡ encoded_size b iv (m * b + k)
  encoded_size_block m k p h = elim (Bool-cases (ltb k b)) [
    | inl part ↦ ground arith ∙ sym (encoded_size_of m k (ltb→lt _ _ part))
    | inr full ↦
        let e : m * b + k ≡ suc m * b + 0 = omega (arith, ltb→ge _ _ full) in
        omega (arith, ltb→ge _ _ full)
        ∙ sym (encoded_size_of (suc m) 0 pos)
        ∙ ap (encoded_size b iv) (sym e)
  ]

  pub encoded_size_mono : (m n : ℕ) → m ≤ n → encoded_size b iv m ≤ encoded_size b iv n
  encoded_size_mono m n h = elim (Bool-cases (ltb (m / b) (n / b))) [
    | inl less ↦
        omega (arith, steps (m / b) (n / b) (ltb→lt _ _ less), sealed-lt (m % b) (mod-lt m pos))
    | inr same ↦
        let le : m / b ≤ n / b = (le-div_iff_mul-le pos).1 (omega (arith, div-mul-le_self m b)) in
        let e : m / b ≡ n / b = omega (arith, ltb→ge _ _ same) in
        let rest : m % b ≤ n % b =
          omega (arith, div-add-mod m b, div-add-mod n b, ap (λ t. b * t) e) in
        ground (arith, e, ap (λ t. t * (b + iv + 16)) e, rest)
  ]
