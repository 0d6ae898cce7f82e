-- ===== src/Stream.antt =====
-- sources/streams.h: the interface `StreamBase`, and what its comments promise.
pub mod Outcome
pub mod Block
pub mod Hmac
pub mod Crypt
pub mod Memory
use securefs.Prelude.{
  ℕ, ◌+◌, ◌-◌, ◌≤◌, ◌<◌, ◌^◌, ◌≡◌, Bool, ◌&&◌, List, min, max, length, get_or, ltb, leb, segment,
  if◌then◌else◌,
}
use securefs.Error.{Result, ok}

-- The virtual functions of StreamBase, over the state `S` of the object.
pub record StreamOps (S : Type 0) : Type 0 where
  pub size : S → ℕ
  pub is_sparse : S → Bool
  pub read : S → ℕ → ℕ → Result (List ℕ)
  pub write : S → List ℕ → ℕ → Result S
  pub resize : S → ℕ → Result S

-- Bytes `start` to `start + length input` of a file come from `input`, the others from `f`.
abbrev pub written : (ℕ → ℕ) → ℕ → List ℕ → ℕ → ℕ
written f start input i =
    if leb start i && ltb i (start + length input) then get_or input (i - start) 0 else f i

-- Byte `i` of a file that is cut or extended by zeros to `new_size`.
abbrev pub cut : (ℕ → ℕ) → ℕ → ℕ → ℕ
cut f new_size i = if ltb i new_size then f i else 0

-- `s` becomes a state that holds a file of `n` bytes, byte `i` of it `f i`.
pub record Becomes {S : Type 0} (Valid : S → Type 0) (size : S → ℕ) (byte : S → ℕ → ℕ)
    (r : Result S) (n : ℕ) (f : ℕ → ℕ) : Type 0 where
  pub after : S
  pub returns : r ≡ ok after
  pub valid : Valid after
  pub resized : size after ≡ n
  pub holds : (i : ℕ) → byte after i ≡ f i

-- The contract of a stream: it is a file of `size s` bytes, byte `i` of which is `byte s i`, and
-- which may grow to `limit` bytes. A write of no byte is not in the contract.
pub record StreamLaws {S : Type 0} (o : StreamOps S) : Type 1 where
  pub Valid : S → Type 0
  pub byte : S → ℕ → ℕ
  pub limit : ℕ
  pub limit_fits : limit < 2 ^ 64
  pub byte_beyond : (s : S) (i : ℕ) → Valid s → o.size s ≤ i → byte s i ≡ 0
  pub size_fits : (s : S) → Valid s → o.size s ≤ limit
  pub read_returns :
      (s : S) (offset n : ℕ)
      → Valid s
      → offset + n ≤ limit
      → o.read s offset n ≡ ok (segment (byte s) offset (min n (o.size s - offset)))
  pub write_returns :
      (s : S) (input : List ℕ) (offset : ℕ)
      → Valid s
      → 0 < length input
      → offset + length input ≤ limit
      → Becomes Valid o.size byte
          (o.write s input offset)
          (max (o.size s) (offset + length input))
          (written (byte s) offset input)
  pub resize_returns :
      (s : S) (new_size : ℕ)
      → Valid s
      → new_size ≤ limit
      → Becomes Valid o.size byte (o.resize s new_size) new_size (cut (byte s) new_size)
