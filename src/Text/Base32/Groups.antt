-- ===== src/Text/Base32/Groups.antt =====
-- One group of five bits: what it takes from two bytes, and what it leaves in them.
use Prim.Native.Nat.{bit_or}
use securefs.Prelude.{
  ℕ, zero, suc, ◌+◌, ◌-◌, ◌*◌, ◌/◌, ◌%◌, ◌^◌, ◌<◌, ◌≡◌, refl, ap, Bool, true, false, ◌&&◌, not,
  get_or, min, ◌==◌, arith,
}
use securefs.Error.{Result, ok, throw, undefined, stuck}
use securefs.Endian.BitOr.{zero-bit_or, bit_or_disjoint, bit_or_comm}
use securefs.Text.Base32.{
  upper_base32_alphabet, get_alphabet_index, get_base32_pair, get_group, strchr,
}

-- The five bits from bit `w` of `b` on.
unfoldable pub window : ℕ → ℕ → ℕ → ℕ
window b next w = (b * 256 + next) / 2 ^ (11 - w) % 32

-- The first `m` bits of a byte.
unfoldable pub keep : ℕ → ℕ → ℕ
keep b m = b / 2 ^ (8 - m) * 2 ^ (8 - m)

pub high_bit_or : (k a b : ℕ) → a < 2 ^ k → bit_or (b * 2 ^ k) a ≡ b * 2 ^ k + a
high_bit_or k a b h = omega (arith, bit_or_comm (b * 2 ^ k) a, bit_or_disjoint k a b h)

pub get_alphabet_index_lem :
    (b next w : ℕ)
    → b < 256
    → next < 256
    → w < 8
    → get_alphabet_index b next w ≡ ok (window b next w)
unfolding get_alphabet_index window
get_alphabet_index_lem b next zero hb hn h = ap ok (omega arith)
get_alphabet_index_lem b next (suc zero) hb hn h = ap ok (omega arith)
get_alphabet_index_lem b next (suc (suc zero)) hb hn h = ap ok (omega arith)
get_alphabet_index_lem b next (suc (suc (suc zero))) hb hn h = ap ok (omega arith)
get_alphabet_index_lem b next (suc (suc (suc (suc zero)))) hb hn h =
    ap ok (omega (arith, high_bit_or 1 (next / 2 ^ 7) (b % 16) (omega arith)))
get_alphabet_index_lem b next (suc (suc (suc (suc (suc zero))))) hb hn h =
    ap ok (omega (arith, high_bit_or 2 (next / 2 ^ 6) (b % 8) (omega arith)))
get_alphabet_index_lem b next (suc (suc (suc (suc (suc (suc zero)))))) hb hn h =
    ap ok (omega (arith, high_bit_or 3 (next / 2 ^ 5) (b % 4) (omega arith)))
get_alphabet_index_lem b next (suc (suc (suc (suc (suc (suc (suc zero))))))) hb hn h =
    ap ok (omega (arith, high_bit_or 4 (next / 2 ^ 4) (b % 2) (omega arith)))
get_alphabet_index_lem b next (suc (suc (suc (suc (suc (suc (suc (suc w)))))))) hb hn h =
    absurd (omega arith)

-- What the pair of a group adds to a byte that has its first `w` bits, and to the next byte.
pub get_base32_pair_lem :
    (b next w : ℕ)
    → b < 256
    → next < 256
    → w < 8
    → (p : ℕ × ℕ) × (get_base32_pair (window b next w) w ≡ ok p)
      × (bit_or (keep b w) p.0 % 256 ≡ keep b (min 8 (w + 5)))
      × (bit_or 0 p.1 % 256 ≡ keep next (w + 5 - 8))
unfolding get_base32_pair window keep
get_base32_pair_lem b next zero hb hn h = (
  (window b next 0 * 2 ^ 3, 0),
  refl,
  omega (arith, high_bit_or 8 (window b next 0 * 2 ^ 3) (b / 2 ^ 8) (omega arith)),
  omega (arith, zero-bit_or (0)),
)
get_base32_pair_lem b next (suc zero) hb hn h = (
  (window b next 1 * 2 ^ 2, 0),
  refl,
  omega (arith, high_bit_or 7 (window b next 1 * 2 ^ 2) (b / 2 ^ 7) (omega arith)),
  omega (arith, zero-bit_or (0)),
)
get_base32_pair_lem b next (suc (suc zero)) hb hn h = (
  (window b next 2 * 2 ^ 1, 0),
  refl,
  omega (arith, high_bit_or 6 (window b next 2 * 2 ^ 1) (b / 2 ^ 6) (omega arith)),
  omega (arith, zero-bit_or (0)),
)
get_base32_pair_lem b next (suc (suc (suc zero))) hb hn h = (
  (window b next 3, 0),
  refl,
  omega (arith, high_bit_or 5 (window b next 3) (b / 2 ^ 5) (omega arith)),
  omega (arith, zero-bit_or (0)),
)
get_base32_pair_lem b next (suc (suc (suc (suc zero)))) hb hn h = (
  (window b next 4 / 2 ^ 1, window b next 4 % 2 * 2 ^ 7),
  refl,
  omega (arith, high_bit_or 4 (window b next 4 / 2 ^ 1) (b / 2 ^ 4) (omega arith)),
  omega (arith, zero-bit_or (window b next 4 % 2 * 2 ^ 7)),
)
get_base32_pair_lem b next (suc (suc (suc (suc (suc zero))))) hb hn h = (
  (window b next 5 / 2 ^ 2, window b next 5 % 4 * 2 ^ 6),
  refl,
  omega (arith, high_bit_or 3 (window b next 5 / 2 ^ 2) (b / 2 ^ 3) (omega arith)),
  omega (arith, zero-bit_or (window b next 5 % 4 * 2 ^ 6)),
)
get_base32_pair_lem b next (suc (suc (suc (suc (suc (suc zero)))))) hb hn h = (
  (window b next 6 / 2 ^ 3, window b next 6 % 8 * 2 ^ 5),
  refl,
  omega (arith, high_bit_or 2 (window b next 6 / 2 ^ 3) (b / 2 ^ 2) (omega arith)),
  omega (arith, zero-bit_or (window b next 6 % 8 * 2 ^ 5)),
)
get_base32_pair_lem b next (suc (suc (suc (suc (suc (suc (suc zero))))))) hb hn h = (
  (window b next 7 / 2 ^ 4, window b next 7 % 16 * 2 ^ 4),
  refl,
  omega (arith, high_bit_or 1 (window b next 7 / 2 ^ 4) (b / 2 ^ 1) (omega arith)),
  omega (arith, zero-bit_or (window b next 7 % 16 * 2 ^ 4)),
)
get_base32_pair_lem b next (suc (suc (suc (suc (suc (suc (suc (suc w)))))))) hb hn h =
    absurd (omega arith)

-- A code of the alphabet is read back, and is neither '/' nor '.' nor 0.
is_read : Result ℕ → ℕ → ℕ → Bool
is_read (ok g) group c = (g == group) && not (c == 47) && not (c == 46) && not (c == 0)
is_read (throw e) group c = false
is_read undefined group c = false
is_read stuck group c = false

is_read_lem :
    (r : Result ℕ) (group c : ℕ)
    → is_read r group c ≡ true
    → (r ≡ ok group) × ((c == 47) ≡ false) × ((c == 46) ≡ false) × ((c == 0) ≡ false)
unfolding is_read
is_read_lem (ok g) group c h = ground arith
is_read_lem (throw e) group c h = cc
is_read_lem undefined group c h = cc
is_read_lem stuck group c h = cc

read_back : ℕ → Bool
unfolding is_read get_group strchr
read_back group = let c = get_or upper_base32_alphabet group 0 in is_read (get_group c) group c

all_below : ℕ → (ℕ → Bool) → Bool
all_below zero p = true
all_below (suc n) p = p n && all_below n p

all_below_lem : (n : ℕ) (p : ℕ → Bool) (x : ℕ) → all_below n p ≡ true → x < n → p x ≡ true
unfolding all_below
all_below_lem zero p x h lt = absurd (omega arith)
all_below_lem (suc n) p x h lt = ground (arith, all_below_lem n p x)

read_back_table : all_below 32 read_back ≡ true
unfolding all_below read_back
read_back_table = refl

pub letter_lem :
    (group : ℕ)
    → group < 32
    → (get_group (get_or upper_base32_alphabet group 0) ≡ ok group)
      × ((get_or upper_base32_alphabet group 0 == 47) ≡ false)
      × ((get_or upper_base32_alphabet group 0 == 46) ≡ false)
      × ((get_or upper_base32_alphabet group 0 == 0) ≡ false)
unfolding read_back
letter_lem group h =
    let c = get_or upper_base32_alphabet group 0 in
    is_read_lem (get_group c) group c (all_below_lem 32 read_back group read_back_table h)
