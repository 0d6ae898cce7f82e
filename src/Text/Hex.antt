-- ===== src/Text/Hex.antt =====
-- Bytes and their hexadecimal text: hexify and parse_hex of sources/mystring.cpp.
use securefs.Prelude.{
  ℕ, ◌*◌, ◌/◌, ◌%◌, ◌<◌, ◌≡◌, refl, ap, List, [], ◌∷◌, length, All, eq→==, arith,
}
use securefs.Error.{ok}
use securefs.Text.{hex_digit, hexify, hex_value, parse_digits, parse_hex}

hex_value-hex_digit : (d : ℕ) → d < 16 → hex_value (hex_digit d) ≡ ok d
unfolding hex_value hex_digit
hex_value-hex_digit d h = ground arith

pub length-hexify : (bytes : List ℕ) → length (hexify bytes) ≡ 2 * length bytes
unfolding hexify
length-hexify [] = refl
length-hexify (x ∷ bytes) = omega (arith, length-hexify bytes)

pub parse_digits-hexify :
    (bytes : List ℕ) → All (λ x. x < 256) bytes → parse_digits (hexify bytes) ≡ ok bytes
unfolding hexify parse_digits
parse_digits-hexify [] b = refl
parse_digits-hexify (x ∷ bytes) (small, b) =
    rw
      (
        hex_value-hex_digit (x / 16) (omega arith),
        hex_value-hex_digit (x % 16) (omega arith),
        parse_digits-hexify bytes b,
      )
      (ap (λ (y : ℕ). ok (y ∷ bytes)) (omega arith))

-- The text of bytes is parsed to these bytes.
pub parse_hex-hexify :
    (bytes : List ℕ) → All (λ x. x < 256) bytes → parse_hex (hexify bytes) (length bytes) ≡ ok bytes
unfolding parse_hex
parse_hex-hexify bytes b =
    let e = length-hexify bytes in
    rw
      (
        eq→== (length (hexify bytes) % 2) 0 (omega arith),
        eq→== (length (hexify bytes) / 2) (length bytes) (omega arith),
      )
      (parse_digits-hexify bytes b)
