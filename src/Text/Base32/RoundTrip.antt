-- ===== src/Text/Base32/RoundTrip.antt =====
-- base32_encode against base32_decode, round by round.
use Prim.Native.Nat.{bit_or}
use securefs.Prelude.{
  ℕ, zero, suc, ◌+◌, ◌-◌, ◌*◌, ◌/◌, ◌%◌, ◌≤◌, ◌<◌, ◌≡◌, refl, ap, ap₂, sym, ◌∙◌, false, List, [],
  ◌∷◌, length, get_or, min, ltb, ◌==◌, ==→eq, if◌then◌else◌, inl, inr, Bool-cases, ltb→lt, ltb→ge,
  lt→ltb, All, replicate, length-replicate, get_or-replicate, get_or_beyond, list_ext, arith,
}
use securefs.Error.{ok, ◌>>=◌}
use securefs.Text.Base32.{
  upper_base32_alphabet, base32_encode, base32_decode, encode_loop, decode_loop, or_at,
}
use securefs.Text.Base32.Groups.{
  window, keep, get_alphabet_index_lem, get_base32_pair_lem, letter_lem,
}

length-or_at : (out : List ℕ) (i v : ℕ) → length (or_at out i v) ≡ length out
unfolding or_at
length-or_at [] i v = refl
length-or_at (x ∷ out) zero v = refl
length-or_at (x ∷ out) (suc i) v = ap suc (length-or_at out i v)

get_or-or_at :
    (out : List ℕ) (i v j : ℕ)
    → i < length out
    → get_or (or_at out i v) j 0
      ≡ (if i == j then bit_or (get_or out i 0) v % 256 else get_or out j 0)
unfolding or_at
get_or-or_at [] i v j h = absurd (omega arith)
get_or-or_at (x ∷ out) zero v zero h = refl
get_or-or_at (x ∷ out) zero v (suc j) h = ground arith
get_or-or_at (x ∷ out) (suc i) v zero h = ground arith
get_or-or_at (x ∷ out) (suc i) v (suc j) h = ground (arith, get_or-or_at out i v j)

get_or-small : (input : List ℕ) (j : ℕ) → All (λ x. x < 256) input → get_or input j 0 < 256
get_or-small [] j b = omega arith
get_or-small (x ∷ input) zero (h, b) = h
get_or-small (x ∷ input) (suc j) (h, b) = get_or-small input j b

keep-zero : (b : ℕ) → b < 256 → keep b 0 ≡ 0
unfolding keep
keep-zero b h = omega arith

keep-all : (b : ℕ) → keep b 8 ≡ b
unfolding keep
keep-all b = omega arith

-- `out` has the first `i` groups of `input`, and zeros behind them.
record Filled (input : List ℕ) (i : ℕ) (out : List ℕ) : Type 0 where
  same_length : length out ≡ length input
  bits :
      (j : ℕ) → j < length input → get_or out j 0 ≡ keep (get_or input j 0) (min 8 (i * 5 - 8 * j))

-- The byte that follows, as base32_encode reads it.
next_byte : List ℕ → ℕ → ℕ
next_byte input j = if ltb (j + 1) (length input) then get_or input (j + 1) 0 else 0

next_byte_lem : (input : List ℕ) (j : ℕ) → next_byte input j ≡ get_or input (j + 1) 0
unfolding next_byte
next_byte_lem input j = ground (arith, get_or_beyond (j + 1) input 0)

group_at : List ℕ → ℕ → ℕ
group_at input i = window (get_or input (i * 5 / 8) 0) (get_or input (i * 5 / 8 + 1) 0) (i * 5 % 8)

group_at-small : (input : List ℕ) (i : ℕ) → group_at input i < 32
unfolding group_at window
group_at-small input i = omega arith

-- What a round of base32_decode makes of the output.
after_round : List ℕ → ℕ → ℕ × ℕ → List ℕ
after_round out q p =
    let first = or_at out q p.0 in
    if ltb (q + 1) (length out) then or_at first (q + 1) p.1 else first

length-after_round : (out : List ℕ) (q : ℕ) (p : ℕ × ℕ) → length (after_round out q p) ≡ length out
unfolding after_round
length-after_round out q p =
    ground (arith, length-or_at out q p.0, length-or_at (or_at out q p.0) (q + 1) p.1)

get_or-after_round :
    (out : List ℕ) (q : ℕ) (p : ℕ × ℕ) (j : ℕ)
    → q < length out
    → j < length out
    → get_or (after_round out q p) j 0 ≡ (
        if q + 1 == j
        then bit_or (get_or out (q + 1) 0) p.1 % 256
        else if q == j
        then bit_or (get_or out q 0) p.0 % 256
        else get_or out j 0)
unfolding after_round
get_or-after_round out q p j h hj =
    let e = get_or-or_at out q p.0 j h in
    elim (Bool-cases (ltb (q + 1) (length out))) [
      | inl more ↦ rw more (
          ground (
            arith,
            e,
            get_or-or_at (or_at out q p.0) (q + 1) p.1 j
                (omega (arith, length-or_at out q p.0, ltb→lt _ _ more)),
            get_or-or_at out q p.0 (q + 1) h,
          ))
      | inr last ↦ rw last (ground (arith, e, ltb→ge _ _ last))
    ]

-- Neither '/' nor '.', nor the code 0.
abbrev pub IsLetter : ℕ → Type 0
IsLetter c = ((c == 47) ≡ false) × ((c == 46) ≡ false) × ((c == 0) ≡ false)

letter : ℕ → ℕ
letter group = get_or upper_base32_alphabet group 0

module _ (input : List ℕ) (small : All (λ x. x < 256) input) where
  encode_round :
      (fuel i : ℕ)
      → i * 5 < length input * 8
      → encode_loop (suc fuel) (i * 5) input
        ≡ (encode_loop fuel (i * 5 + 5) input >>= λ output. ok (letter (group_at input i) ∷ output))
  unfolding encode_loop letter group_at next_byte
  encode_round fuel i h =
      let b = get_or input (i * 5 / 8) 0 in
      rw
        (
          lt→ltb _ _ h,
          next_byte_lem input (i * 5 / 8),
          get_alphabet_index_lem b (get_or input (i * 5 / 8 + 1) 0) (i * 5 % 8)
              (get_or-small input _ small) (get_or-small input _ small) (omega arith),
          lt→ltb _ _ (group_at-small input i),
        )
        refl

  -- A round of base32_decode, on an output that has the groups before it.
  Filled-round :
      (i : ℕ) (out : List ℕ) (p : ℕ × ℕ)
      → i * 5 < length input * 8
      → Filled input i out
      → bit_or (keep (get_or input (i * 5 / 8) 0) (i * 5 % 8)) p.0 % 256
        ≡ keep (get_or input (i * 5 / 8) 0) (min 8 (i * 5 % 8 + 5))
      → bit_or 0 p.1 % 256 ≡ keep (get_or input (i * 5 / 8 + 1) 0) (i * 5 % 8 + 5 - 8)
      → Filled input (i + 1) (after_round out (i * 5 / 8) p)
  Filled-round i out p h f first second = record {
    same_length = length-after_round out q p ∙ f.same_length;
    bits = bits_at;
  }
    where
      q : ℕ
      q = i * 5 / 8

      b : ℕ → ℕ
      b j = get_or input j 0

      bits_at :
          (j : ℕ)
          → j < length input
          → get_or (after_round out q p) j 0 ≡ keep (b j) (min 8 ((i + 1) * 5 - 8 * j))
      bits_at j hj =
          get_or-after_round out q p j (omega (arith, f.same_length)) (omega (arith, f.same_length))
          ∙ elim (Bool-cases (q + 1 == j)) [
            | inl e ↦ rw e (
                ap (λ x. bit_or x p.1 % 256)
                  (f.bits (q + 1) (omega (arith, ==→eq (q + 1) j e))
                    ∙ ap (λ m. keep (b (q + 1)) m) (omega arith)
                    ∙ keep-zero (b (q + 1)) (get_or-small input (q + 1) small))
                ∙ second
                ∙ ap₂ keep (ap b (==→eq (q + 1) j e)) (omega (arith, ==→eq (q + 1) j e)))
            | inr e ↦ rw e (elim (Bool-cases (q == j)) [
              | inl e' ↦ rw e' (
                  ap (λ x. bit_or x p.0 % 256)
                    (f.bits q (omega (arith, ==→eq q j e')) ∙ ap (λ m. keep (b q) m) (omega arith))
                  ∙ first
                  ∙ ap₂ keep (ap b (==→eq q j e')) (omega (arith, ==→eq q j e')))
              | inr e' ↦ rw e' (f.bits j hj ∙ ap (λ m. keep (b j) m) (ground arith))
            ])
          ]

  decode_round :
      (i : ℕ) (out : List ℕ)
      → i * 5 < length input * 8
      → Filled input i out
      → (out' : List ℕ) × ((cs : List ℕ)
          → decode_loop (letter (group_at input i) ∷ cs) i out ≡ decode_loop cs (i + 1) out')
        × Filled input (i + 1) out'
  unfolding decode_loop letter group_at after_round
  decode_round i out h f =
      let q = i * 5 / 8 in
      let (p, e, first, second) =
        get_base32_pair_lem (get_or input q 0) (get_or input (q + 1) 0) (i * 5 % 8)
          (get_or-small input q small) (get_or-small input (q + 1) small) (omega arith) in
      (
        after_round out q p,
        λ cs.
            rw
              (
                (letter_lem (group_at input i) (group_at-small input i)).0,
                e,
                lt→ltb q (length out) (omega (arith, f.same_length)),
              )
              refl,
        Filled-round i out p h f first second,
      )

  complete : (i : ℕ) (out : List ℕ) → length input * 8 ≤ i * 5 → Filled input i out → out ≡ input
  complete i out h f = list_ext out input 0 f.same_length (λ j hj.
      f.bits j (omega (arith, f.same_length))
      ∙ ap (λ m. keep (get_or input j 0) m) (omega (arith, f.same_length))
      ∙ keep-all (get_or input j 0))

  -- From a round on, what is encoded is decoded; how many codes that takes, and which.
  decode_loop-encode_loop :
      (fuel i : ℕ) (out : List ℕ)
      → 0 < fuel
      → length input * 8 < fuel + i * 5
      → i * 5 < length input * 8 + 5
      → Filled input i out
      → (cs : List ℕ) × (encode_loop fuel (i * 5) input ≡ ok cs)
        × (decode_loop cs i out ≡ ok input)
        × (length input * 8 ≤ (i + length cs) * 5)
        × ((i + length cs) * 5 < length input * 8 + 5)
        × All IsLetter cs
  unfolding encode_loop decode_loop letter
  decode_loop-encode_loop zero i out some_fuel enough near f = absurd (omega arith)
  decode_loop-encode_loop (suc fuel) i out some_fuel enough near f =
      elim (Bool-cases (ltb (i * 5) (length input * 8))) [
        | inl more ↦
            let h = ltb→lt (i * 5) (length input * 8) more in
            let (out', round, f') = decode_round i out h f in
            let (cs, encoded, decoded, long, short, plain) =
              decode_loop-encode_loop fuel (i + 1) out' (omega arith) (omega arith) (omega arith)
                f' in
            let c = letter (group_at input i) in
            (
              c ∷ cs,
              encode_round fuel i h
                  ∙ ap (λ n. encode_loop fuel n input >>= λ output. ok (c ∷ output)) (omega arith)
                  ∙ ap (λ r. r >>= λ output. ok (c ∷ output)) encoded,
              round cs ∙ decoded,
              omega arith,
              omega arith,
              (
                (
                  (letter_lem (group_at input i) (group_at-small input i)).1,
                  (letter_lem (group_at input i) (group_at-small input i)).2,
                  (letter_lem (group_at input i) (group_at-small input i)).3,
                ),
                plain,
              ),
            )
        | inr last ↦ (
          [],
          rw last refl,
          ap ok (complete i out (ltb→ge _ _ last) f),
          omega (arith, ltb→ge _ _ last),
          omega arith,
          tt,
        )
      ]

  -- base32_encode makes of any bytes as many codes as their bits need, none of them '/', '.' or 0, and
  -- base32_decode reads the bytes back.
  pub base32_decode-base32_encode :
      (cs : List ℕ) × (base32_encode input ≡ ok cs)
      × (base32_decode cs ≡ ok input)
      × (length cs ≡ (length input * 8 + 4) / 5)
      × All IsLetter cs
  unfolding base32_encode base32_decode
  base32_decode-base32_encode =
      let n = length input in
      let start : Filled input 0 (replicate n 0) = record {
        same_length = length-replicate n 0;
        bits = λ j h.
            get_or-replicate n j 0
            ∙ sym (
                ap (λ m. keep (get_or input j 0) m) (omega arith)
                ∙ keep-zero (get_or input j 0) (get_or-small input j small));
      } in
      let (cs, encoded, decoded, long, short, plain) =
        decode_loop-encode_loop (n * 8 + 1) 0 (replicate n 0) (omega arith) (omega arith)
          (omega arith) start in
      let room : length cs * 5 / 8 ≡ n = omega arith in
      (cs, encoded, rw room decoded, omega arith, plain)
