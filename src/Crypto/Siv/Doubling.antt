-- ===== src/Crypto/Siv/Doubling.antt =====
-- Doubling of a block, as a number with its first byte first.
use Prim.Native.Nat.{bit_or}
use native.Mathlib.Nat.{pow-suc}
use securefs.Prelude.{
  ℕ, suc, ◌+◌, ◌*◌, ◌/◌, ◌%◌, ◌^◌, ◌<◌, ◌≡◌, refl, ap, List, [], ◌∷◌, length, All, arith,
}
use securefs.Endian.BitOr.{bit_or_comm, bit_or_disjoint}
use securefs.Crypto.Siv.{aes256_bitshift_left}

unfoldable pub big_endian : List ℕ → ℕ
big_endian [] = 0
big_endian (x ∷ buf) = x * 256 ^ length buf + big_endian buf

shifted_byte : (x y : ℕ) → y < 256 → bit_or (x * 2) (y / 128 % 2) ≡ x * 2 + y / 128
shifted_byte x y h =
    omega
      (arith, bit_or_comm (x * 2) (y / 128 % 2), bit_or_disjoint 1 (y / 128 % 2) x (omega arith))

length-shifted : (x : ℕ) (buf : List ℕ) → length (aes256_bitshift_left (x ∷ buf)) ≡ suc (length buf)
unfolding aes256_bitshift_left
length-shifted x [] = refl
length-shifted x (y ∷ buf) = ap suc (length-shifted y buf)

carried :
    (p x y c d b v w : ℕ)
    → c + 256 * d ≡ x * 2 + y
    → b + y * p ≡ 2 * v
    → w ≡ 256 * p
    → c * p + b + d * w ≡ 2 * (x * p + v)
carried p x y c d b v w carry rest next = omega (arith, ap (λ t. t * p) carry, ap (λ t. d * t) next)

-- aes256_bitshift_left doubles the number that the block stands for, less the bit that is shifted
-- out of its first byte.
pub aes256_bitshift_left_lem :
    (x : ℕ) (buf : List ℕ)
    → x < 256
    → All (λ y. y < 256) buf
    → big_endian (aes256_bitshift_left (x ∷ buf)) + x / 128 * 256 ^ length (x ∷ buf)
      ≡ 2 * big_endian (x ∷ buf)
unfolding aes256_bitshift_left big_endian
aes256_bitshift_left_lem x [] h b = omega arith
aes256_bitshift_left_lem x (y ∷ buf) h (small, b) = rw (length-shifted y buf) (
    carried (256 ^ suc (length buf)) x (y / 128) _ (x / 128) _ _ _
      (omega (arith, shifted_byte x y small)) (aes256_bitshift_left_lem y buf small b)
      (omega (arith, pow-suc 256 (suc (length buf)))))
