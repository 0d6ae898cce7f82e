-- ===== src/Endian.antt =====
-- Little-endian integers: `to_little_endian` and `from_little_endian` of sources/myutils.h.
pub mod BitOr
pub mod RoundTrip
use Prim.Native.Nat.{bit_or}
use securefs.Prelude.{ℕ, zero, suc, ◌+◌, ◌*◌, ◌/◌, ◌%◌, ◌^◌, List, [], ◌∷◌, get_or}

-- Byte `i` is `(byte)(value >> (8 * i))`; `k` bytes are left.
unfoldable pub to_loop : ℕ → ℕ → ℕ → List ℕ
to_loop zero i value = []
to_loop (suc k) i value = (value / 2 ^ (8 * i) % 256) ∷ to_loop k (i + 1) value

-- `size` is the sizeof of the type.
unfoldable pub to_little_endian : ℕ → ℕ → List ℕ
unfolding to_loop
to_little_endian size value = to_loop size 0 value

-- `value |= (T)bytes[i] << (8 * i)` in a type of `size` bytes.
unfoldable pub from_loop : ℕ → ℕ → ℕ → ℕ → List ℕ → ℕ
from_loop zero size i value bytes = value
from_loop (suc k) size i value bytes =
    from_loop k size (i + 1) (bit_or value (get_or bytes i 0 * 2 ^ (8 * i) % 2 ^ (8 * size))) bytes

unfoldable pub from_little_endian : ℕ → List ℕ → ℕ
unfolding from_loop
from_little_endian size bytes = from_loop size size 0 0 bytes
