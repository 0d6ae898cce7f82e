-- ===== src/Text/Base32.antt =====
-- base32_encode and base32_decode of sources/mystring.cpp.
mod Groups
pub mod RoundTrip
use Prim.Native.Nat.{bit_or}
use mathlib.Core.Option
use securefs.Prelude.{
  ℕ, zero, suc, ◌+◌, ◌-◌, ◌*◌, ◌/◌, ◌%◌, ◌^◌, List, [], ◌∷◌, ◌++◌, Option, none, some, length,
  get_or, replicate, true, false, leb, ltb, ◌==◌, if◌then◌else◌,
}
use securefs.Error.{
  Result, ok, throw, stuck, ◌>>=◌, ◌>>◌, guard, invalid_argument, std_out_of_range,
}

-- "ABCDEFGHIJKMNPQRSTUVWXYZ23456789"
abbrev pub upper_base32_alphabet : List ℕ
upper_base32_alphabet =
    65 ∷ 66 ∷ 67 ∷ 68 ∷ 69 ∷ 70 ∷ 71 ∷ 72 ∷ 73 ∷ 74 ∷ 75 ∷ 77 ∷ 78 ∷ 80 ∷ 81 ∷ 82 ∷ 83 ∷ 84 ∷ 85
    ∷ 86 ∷ 87 ∷ 88 ∷ 89 ∷ 90 ∷ 50 ∷ 51 ∷ 52 ∷ 53 ∷ 54 ∷ 55 ∷ 56 ∷ 57 ∷ []

-- "abcdefghijkmnpqrstuvwxyz23456789"
abbrev pub lower_base32_alphabet : List ℕ
lower_base32_alphabet =
    97 ∷ 98 ∷ 99 ∷ 100 ∷ 101 ∷ 102 ∷ 103 ∷ 104 ∷ 105 ∷ 106 ∷ 107 ∷ 109 ∷ 110 ∷ 112 ∷ 113 ∷ 114 ∷ 115
    ∷ 116 ∷ 117 ∷ 118 ∷ 119 ∷ 120 ∷ 121 ∷ 122 ∷ 50 ∷ 51 ∷ 52 ∷ 53 ∷ 54 ∷ 55 ∷ 56 ∷ 57 ∷ []

unfoldable pub get_alphabet_index : ℕ → ℕ → ℕ → Result ℕ
get_alphabet_index b next i =
    if i == 0
    then ok (b / 2 ^ 3 % 32)
    else if i == 1
    then ok (b / 2 ^ 2 % 32)
    else if i == 2
    then ok (b / 2 ^ 1 % 32)
    else if i == 3
    then ok (b % 32)
    else if i == 4
    then ok (bit_or (b % 16 * 2 ^ 1) (next / 2 ^ 7))
    else if i == 5
    then ok (bit_or (b % 8 * 2 ^ 2) (next / 2 ^ 6))
    else if i == 6
    then ok (bit_or (b % 4 * 2 ^ 3) (next / 2 ^ 5))
    else if i == 7
    then ok (bit_or (b % 2 * 2 ^ 4) (next / 2 ^ 4))
    else throw invalid_argument

-- The loop of base32_encode from `bit_index` on; each round takes five bits.
unfoldable pub encode_loop : ℕ → ℕ → List ℕ → Result (List ℕ)
encode_loop zero bit_index input = stuck
encode_loop (suc fuel) bit_index input =
    let rest = encode_loop fuel (bit_index + 5) input in
    if ltb bit_index (length input * 8)
    then (do
      let byte_index = bit_index / 8
      let next = if ltb (byte_index + 1) (length input) then get_or input (byte_index + 1) 0 else 0
      alphabet_index ← get_alphabet_index (get_or input byte_index 0) next (bit_index % 8)
      guard (ltb alphabet_index 32) std_out_of_range
      output ← rest
      ok (get_or upper_base32_alphabet alphabet_index 0 ∷ output))
    else ok []

unfoldable pub base32_encode : List ℕ → Result (List ℕ)
base32_encode input = encode_loop (length input * 8 + 1) 0 input

unfoldable pub get_base32_pair : ℕ → ℕ → Result (ℕ × ℕ)
get_base32_pair group i =
    if i == 0
    then ok (group * 2 ^ 3, 0)
    else if i == 1
    then ok (group * 2 ^ 2, 0)
    else if i == 2
    then ok (group * 2 ^ 1, 0)
    else if i == 3
    then ok (group, 0)
    else if i == 4
    then ok (group / 2 ^ 1, group % 2 * 2 ^ 7)
    else if i == 5
    then ok (group / 2 ^ 2, group % 4 * 2 ^ 6)
    else if i == 6
    then ok (group / 2 ^ 3, group % 8 * 2 ^ 5)
    else if i == 7
    then ok (group / 2 ^ 4, group % 16 * 2 ^ 4)
    else throw invalid_argument

-- strchr: the index of the first `c`; the code 0 is found behind the last.
unfoldable pub strchr : List ℕ → ℕ → Option ℕ
strchr [] c = if c == 0 then some 0 else none
strchr (x ∷ str) c = if x == c then some 0 else Option.map suc (strchr str c)

unfoldable pub get_group : ℕ → Result ℕ
get_group c = elim (strchr upper_base32_alphabet c) [
  | some i ↦ ok i
  | none ↦ elim (strchr lower_base32_alphabet c) [ some i ↦ ok i | none ↦ throw invalid_argument ]
]

-- `out[i] |= value`, in a byte.
unfoldable pub or_at : List ℕ → ℕ → ℕ → List ℕ
or_at [] i value = []
or_at (x ∷ out) zero value = (bit_or x value % 256) ∷ out
or_at (x ∷ out) (suc i) value = x ∷ or_at out i value

-- The loop of base32_decode; `i` codes are done.
unfoldable pub decode_loop : List ℕ → ℕ → List ℕ → Result (List ℕ)
decode_loop [] i out = ok out
decode_loop (c ∷ input) i out = do
  group ← get_group c
  let byte_index = i * 5 / 8
  p ← get_base32_pair group (i * 5 % 8)
  guard (ltb byte_index (length out)) std_out_of_range
  let first = or_at out byte_index p.0
  let second = if ltb (byte_index + 1) (length out) then or_at first (byte_index + 1) p.1 else first
  decode_loop input (i + 1) second

unfoldable pub base32_decode : List ℕ → Result (List ℕ)
base32_decode input = decode_loop input 0 (replicate (length input * 5 / 8) 0)
