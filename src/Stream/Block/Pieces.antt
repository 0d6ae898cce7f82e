-- ===== src/Stream/Block/Pieces.antt =====
-- A file given by its blocks: byte `i` is in block `i / block_size`.
use native.Mathlib.Nat.{
  div-eq_of_lt-le, mul-add-mod_self_right, mod-eq_of_lt, div-add-mod, mod-lt, mul-le-mul_right,
}
use securefs.Prelude.{
  ℕ, suc, ◌+◌, ◌-◌, ◌*◌, ◌/◌, ◌%◌, ◌≤◌, ◌<◌, ◌≡◌, ap, ap₂, sym, ◌∙◌, inl, inr, List, [], length,
  get_or, min, max, ltb, ◌==◌, ==→eq, lt→ltb, ltb→lt, ltb→ge, Bool-cases, if◌then◌else◌, segment,
  length-segment, get_or-segment, get_or_beyond, list_ext, arith,
}
use securefs.Stream.{written, cut}

-- Quotient and remainder of a sum of whole blocks and a rest.
pub whole_div : (b q r : ℕ) → r < b → (q * b + r) / b ≡ q
whole_div b q r h = div-eq_of_lt-le b (omega arith) (omega arith)

pub whole_mod : (b q r : ℕ) → r < b → (q * b + r) % b ≡ r
whole_mod b q r h = mul-add-mod_self_right q b r ∙ mod-eq_of_lt h

module _ (block_size : ℕ) (pos : 0 < block_size) where
  abbrev pub pieces : (ℕ → List ℕ) → ℕ → ℕ
  pieces plain i = get_or (plain (i / block_size)) (i % block_size) 0

  -- Block `n` becomes `input`.
  abbrev pub replaced : (ℕ → List ℕ) → ℕ → List ℕ → ℕ → List ℕ
  replaced plain n input m = if m == n then input else plain m

  -- Blocks before `n`, and `input` as the last.
  abbrev pub ended : (ℕ → List ℕ) → ℕ → List ℕ → ℕ → List ℕ
  ended plain n input m = if m == n then input else if ltb m n then plain m else []

  -- The blocks of a file of `size` bytes.
  abbrev pub Blocks : (ℕ → List ℕ) → ℕ → Type 0
  Blocks plain size = (m : ℕ) → length (plain m) ≡ min block_size (size - m * block_size)

  pub after_block : (m n : ℕ) → m < n → m * block_size + block_size ≤ n * block_size
  after_block m n h =
      let p : suc m * block_size ≤ n * block_size = mul-le-mul_right block_size h in omega arith

  pub split_index :
      (i : ℕ) → (i / block_size * block_size + i % block_size ≡ i) × (i % block_size < block_size)
  split_index i = (omega (arith, div-add-mod i block_size), mod-lt i pos)

  pub pieces-segment :
      (plain : ℕ → List ℕ) (size m : ℕ)
      → Blocks plain size
      → plain m ≡ segment (pieces plain) (m * block_size) (min block_size (size - m * block_size))
  pieces-segment plain size m lengths =
      list_ext _ _ 0 (lengths m ∙ sym (length-segment (pieces plain) (m * block_size) _)) λ i h.
        sym (
          get_or-segment (pieces plain) (m * block_size) _ i
          ∙ rw (lt→ltb i (min block_size (size - m * block_size)) (omega (arith, lengths m))) (
              ap₂ (λ b j. get_or (plain b) j 0)
                (whole_div block_size m i (omega (arith, lengths m)))
                (whole_mod block_size m i (omega (arith, lengths m)))))

  pub pieces_beyond :
      (plain : ℕ → List ℕ) (size i : ℕ) → Blocks plain size → size ≤ i → pieces plain i ≡ 0
  pieces_beyond plain size i lengths h =
      get_or_beyond (i % block_size) (plain (i / block_size)) 0
        (omega (arith, lengths (i / block_size), split_index i))

  module _ (plain : ℕ → List ℕ) (size n : ℕ) (input : List ℕ) (lengths : Blocks plain size)
      (fit : length input ≤ block_size) where
    in_block : (i : ℕ) → i / block_size ≡ n → n * block_size + i % block_size ≡ i
    in_block i e = omega (arith, split_index i, ap (λ k. k * block_size) e)

    pub Blocks-replaced :
        n * block_size ≤ size
        → min block_size (size - n * block_size) ≤ length input
        → Blocks (replaced plain n input) (max size (n * block_size + length input))
    Blocks-replaced within covers m = elim (Bool-cases (m == n)) [
      | inl here ↦ rw here (
          let e : m * block_size ≡ n * block_size = ap (λ k. k * block_size) (==→eq _ _ here) in
          omega arith)
      | inr there ↦ rw there (elim (Bool-cases (ltb m n)) [
        | inl before ↦ lengths m ∙ omega (arith, after_block m n (ltb→lt _ _ before))
        | inr behind ↦ lengths m ∙ omega (arith, after_block n m (ground arith))
      ])
    ]

    pub Blocks-ended :
        n * block_size + length input ≤ size
        → Blocks (ended plain n input) (n * block_size + length input)
    Blocks-ended smaller m = elim (Bool-cases (m == n)) [
      | inl here ↦ rw here (
          let e : m * block_size ≡ n * block_size = ap (λ k. k * block_size) (==→eq _ _ here) in
          omega arith)
      | inr there ↦ rw there (elim (Bool-cases (ltb m n)) [
        | inl before ↦ rw before (lengths m ∙ omega (arith, after_block m n (ltb→lt _ _ before)))
        | inr behind ↦ rw behind (omega (arith, after_block n m (ground arith)))
      ])
    ]

    pub pieces-replaced :
        min block_size (size - n * block_size) ≤ length input
        → (i : ℕ)
        → pieces (replaced plain n input) i ≡ written (pieces plain) (n * block_size) input i
    pieces-replaced covers i = elim (Bool-cases (i / block_size == n)) [
      | inl here ↦ rw here (here_byte (==→eq _ _ here))
      | inr there ↦ rw there (elim (Bool-cases (ltb (i / block_size) n)) [
        | inl before ↦
            ground (arith, after_block (i / block_size) n (ltb→lt _ _ before), split_index i)
        | inr behind ↦ ground (arith, after_block n (i / block_size) (ground arith), split_index i)
      ])
    ]
      where
        here_byte :
            i / block_size ≡ n
            → get_or input (i % block_size) 0 ≡ written (pieces plain) (n * block_size) input i
        here_byte e = elim (Bool-cases (ltb (i % block_size) (length input))) [
          | inl new ↦ ground (arith, in_block i e)
          | inr old ↦
              get_or_beyond (i % block_size) input 0 (ltb→ge _ _ old)
              ∙ ground (
                arith,
                in_block i e,
                get_or_beyond (i % block_size) (plain (i / block_size)) 0 (
                    omega (
                      arith,
                      lengths (i / block_size),
                      ap (λ k. k * block_size) e,
                      ltb→ge _ _ old,
                    )),
              )
        ]

    pub pieces-ended :
        n * block_size + length input ≤ size
        → (i : ℕ)
        → pieces (ended plain n input) i
          ≡ cut (written (pieces plain) (n * block_size) input) (n * block_size + length input) i
    pieces-ended smaller i = elim (Bool-cases (i / block_size == n)) [
      | inl here ↦ rw here (here_byte (==→eq _ _ here))
      | inr there ↦ rw there (elim (Bool-cases (ltb (i / block_size) n)) [
        | inl before ↦
            rw before
              (ground (arith, after_block (i / block_size) n (ltb→lt _ _ before), split_index i))
        | inr behind ↦
            rw behind (ground (arith, after_block n (i / block_size) (ground arith), split_index i))
      ])
    ]
      where
        here_byte :
            i / block_size ≡ n
            → get_or input (i % block_size) 0
              ≡ cut
                  (written (pieces plain) (n * block_size) input)
                  (n * block_size + length input)
                  i
        here_byte e = elim (Bool-cases (ltb (i % block_size) (length input))) [
          | inl new ↦ ground (arith, in_block i e)
          | inr old ↦
              get_or_beyond (i % block_size) input 0 (ltb→ge _ _ old) ∙ ground (arith, in_block i e)
        ]
