-- ===== src/Endian/RoundTrip.antt =====
-- Integers and their little-endian bytes (sources/myutils.h), there and back.
use Prim.Native.Nat.{bit_or}
use securefs.Prelude.{
  ℕ, ◌+◌, ◌*◌, ◌/◌, ◌%◌, ◌^◌, ◌<◌, ◌≡◌, refl, ap, ◌∙◌, List, [], ◌∷◌, ◌++◌, length, arith,
}
use securefs.Endian.{to_little_endian, from_little_endian}
use securefs.Endian.BitOr.{bit_or_disjoint}
use native.Mathlib.Nat.{mod-eq_of_lt}

abbrev pub IsByte : ℕ → Type 0
IsByte b = b < 256

-- One round of the loop, where the bits below 8 * i are the bytes read so far.
or_byte :
    (k value b m : ℕ)
    → value < 2 ^ k
    → b * 2 ^ k < m
    → bit_or value (b * 2 ^ k % m) ≡ value + b * 2 ^ k
or_byte k value b m h fits = ap (bit_or value) (mod-eq_of_lt fits) ∙ bit_or_disjoint k value b h

read_two :
    (a b : ℕ) (rest : List ℕ)
    → a < 256
    → b < 256
    → from_little_endian 2 (a ∷ b ∷ rest) ≡ a + b * 2 ^ 8
unfolding from_little_endian
read_two a b rest ha hb =
    rw
      (
        or_byte 0 (0) a (2 ^ 16) (omega arith) (omega arith),
        or_byte 8 (0 + a * 2 ^ 0) b (2 ^ 16) (omega arith) (omega arith),
      )
      (omega arith)

read_four :
    (a b c d : ℕ) (rest : List ℕ)
    → a < 256
    → b < 256
    → c < 256
    → d < 256
    → from_little_endian 4 (a ∷ b ∷ c ∷ d ∷ rest) ≡ a + b * 2 ^ 8 + c * 2 ^ 16 + d * 2 ^ 24
unfolding from_little_endian
read_four a b c d rest ha hb hc hd =
    rw
      (
        or_byte 0 (0) a (2 ^ 32) (omega arith) (omega arith),
        or_byte 8 (0 + a * 2 ^ 0) b (2 ^ 32) (omega arith) (omega arith),
        or_byte 16 (0 + a * 2 ^ 0 + b * 2 ^ 8) c (2 ^ 32) (omega arith) (omega arith),
        or_byte 24 (0 + a * 2 ^ 0 + b * 2 ^ 8 + c * 2 ^ 16) d (2 ^ 32) (omega arith) (omega arith),
      )
      (omega arith)

read_eight :
    (a b c d e f g h : ℕ) (rest : List ℕ)
    → a < 256
    → b < 256
    → c < 256
    → d < 256
    → e < 256
    → f < 256
    → g < 256
    → h < 256
    → from_little_endian 8 (a ∷ b ∷ c ∷ d ∷ e ∷ f ∷ g ∷ h ∷ rest)
      ≡ a + b * 2 ^ 8 + c * 2 ^ 16 + d * 2 ^ 24 + e * 2 ^ 32 + f * 2 ^ 40 + g * 2 ^ 48 + h * 2 ^ 56
unfolding from_little_endian
read_eight a b c d e f g h rest ha hb hc hd he hf hg hh =
    rw
      (
        or_byte 0 (0) a (2 ^ 64) (omega arith) (omega arith),
        or_byte 8 (0 + a * 2 ^ 0) b (2 ^ 64) (omega arith) (omega arith),
        or_byte 16 (0 + a * 2 ^ 0 + b * 2 ^ 8) c (2 ^ 64) (omega arith) (omega arith),
        or_byte 24 (0 + a * 2 ^ 0 + b * 2 ^ 8 + c * 2 ^ 16) d (2 ^ 64) (omega arith) (omega arith),
        or_byte 32 (0 + a * 2 ^ 0 + b * 2 ^ 8 + c * 2 ^ 16 + d * 2 ^ 24) e (2 ^ 64) (omega arith)
            (omega arith),
        or_byte 40 (0 + a * 2 ^ 0 + b * 2 ^ 8 + c * 2 ^ 16 + d * 2 ^ 24 + e * 2 ^ 32) f (2 ^ 64)
            (omega arith) (omega arith),
        or_byte 48 (0 + a * 2 ^ 0 + b * 2 ^ 8 + c * 2 ^ 16 + d * 2 ^ 24 + e * 2 ^ 32 + f * 2 ^ 40) g
            (2 ^ 64) (omega arith) (omega arith),
        or_byte 56
            (0
              + a * 2 ^ 0
              + b * 2 ^ 8
              + c * 2 ^ 16
              + d * 2 ^ 24
              + e * 2 ^ 32
              + f * 2 ^ 40
              + g * 2 ^ 48)
            h (2 ^ 64) (omega arith) (omega arith),
      )
      (omega arith)

-- A number of 2 bytes, read back from what was written, whatever follows.
pub from_little_endian-to_little_endian_two :
    (v : ℕ) (rest : List ℕ) → v < 2 ^ 16 → from_little_endian 2 (to_little_endian 2 v ++ rest) ≡ v
unfolding to_little_endian
from_little_endian-to_little_endian_two v rest h =
    read_two (v / 2 ^ (8 * 0) % 256) (v / 2 ^ (8 * 1) % 256) rest (omega arith) (omega arith)
    ∙ omega arith

pub length-to_little_endian_two : (v : ℕ) → length (to_little_endian 2 v) ≡ 2
unfolding to_little_endian
length-to_little_endian_two v = refl

-- A number of 4 bytes, read back from what was written, whatever follows.
pub from_little_endian-to_little_endian_four :
    (v : ℕ) (rest : List ℕ) → v < 2 ^ 32 → from_little_endian 4 (to_little_endian 4 v ++ rest) ≡ v
unfolding to_little_endian
from_little_endian-to_little_endian_four v rest h =
    read_four (v / 2 ^ (8 * 0) % 256) (v / 2 ^ (8 * 1) % 256) (v / 2 ^ (8 * 2) % 256)
      (v / 2 ^ (8 * 3) % 256) rest (omega arith) (omega arith) (omega arith) (omega arith)
    ∙ omega arith

pub length-to_little_endian_four : (v : ℕ) → length (to_little_endian 4 v) ≡ 4
unfolding to_little_endian
length-to_little_endian_four v = refl

-- A number of 8 bytes, read back from what was written, whatever follows.
pub from_little_endian-to_little_endian_eight :
    (v : ℕ) (rest : List ℕ) → v < 2 ^ 64 → from_little_endian 8 (to_little_endian 8 v ++ rest) ≡ v
unfolding to_little_endian
from_little_endian-to_little_endian_eight v rest h =
    read_eight (v / 2 ^ (8 * 0) % 256) (v / 2 ^ (8 * 1) % 256) (v / 2 ^ (8 * 2) % 256)
      (v / 2 ^ (8 * 3) % 256) (v / 2 ^ (8 * 4) % 256) (v / 2 ^ (8 * 5) % 256)
      (v / 2 ^ (8 * 6) % 256) (v / 2 ^ (8 * 7) % 256) rest (omega arith) (omega arith) (omega arith)
      (omega arith) (omega arith) (omega arith) (omega arith) (omega arith)
    ∙ omega arith

pub length-to_little_endian_eight : (v : ℕ) → length (to_little_endian 8 v) ≡ 8
unfolding to_little_endian
length-to_little_endian_eight v = refl

-- Four bytes, written back from the number that they spell.
pub to_little_endian-from_little_endian_four :
    (a b c d : ℕ)
    → a < 256
    → b < 256
    → c < 256
    → d < 256
    → to_little_endian 4 (from_little_endian 4 (a ∷ b ∷ c ∷ d ∷ [])) ≡ a ∷ b ∷ c ∷ d ∷ []
unfolding to_little_endian
to_little_endian-from_little_endian_four a b c d ha hb hc hd =
    rw (read_four a b c d [] ha hb hc hd) (ground arith)
