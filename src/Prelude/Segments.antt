-- ===== src/Prelude/Segments.antt =====
-- A run of bytes read off a function, `segment f start n`, and a memcpy into a buffer.
use Prim.Native.Nat.{ℕ, zero, suc, ◌+◌, ◌-◌, ◌≤◌, ◌<◌}
use mathlib.Core.Path.{◌≡◌, refl, ap, ap₂}
use mathlib.Core.Bool.{◌&&◌}
use mathlib.Core.List.{List, [], ◌∷◌, ◌++◌}
use native.Mathlib.Omega.{arith}
use securefs.Prelude.Tests.{ltb, leb, if◌then◌else◌}
use securefs.Prelude.Lists.{
  length, replicate, get_or, take, drop, length-append, length-take, length-drop, get_or-take,
  get_or-drop, get_or-append, list_ext,
}

unfoldable pub segment : (ℕ → ℕ) → ℕ → ℕ → List ℕ
segment f start zero = []
segment f start (suc n) = f start ∷ segment f (start + 1) n

module _ (f : ℕ → ℕ) where
  pub length-segment : (start n : ℕ) → length (segment f start n) ≡ n
  unfolding segment
  length-segment start zero = refl
  length-segment start (suc n) = ap suc (length-segment (start + 1) n)

  pub get_or-segment :
      (start n i : ℕ) → get_or (segment f start n) i 0 ≡ (if ltb i n then f (start + i) else 0)
  unfolding segment
  get_or-segment start zero i = ground arith
  get_or-segment start (suc n) zero = ground arith
  get_or-segment start (suc n) (suc i) = ground (arith, get_or-segment (start + 1) n i)

  pub segment-append :
      (start m n : ℕ) → segment f start m ++ segment f (start + m) n ≡ segment f start (m + n)
  segment-append start m n =
      list_ext _ _ 0
        (omega (
          arith,
          length-append (segment f start m) (segment f (start + m) n),
          length-segment start m,
          length-segment (start + m) n,
          length-segment start (m + n),
        ))
        λ i hi. ground (
          arith,
          get_or-append i (segment f start m) (segment f (start + m) n) 0,
          length-segment start m,
          get_or-segment start m i,
          get_or-segment (start + m) n (i - m),
          get_or-segment start (m + n) i,
          length-append (segment f start m) (segment f (start + m) n),
          length-segment (start + m) n,
        )

  -- A run of a run.
  pub take-drop-segment :
      (start n k m : ℕ) → k + m ≤ n → take m (drop k (segment f start n)) ≡ segment f (start + k) m
  take-drop-segment start n k m h =
      list_ext _ _ 0
        (omega (
          arith,
          length-take m (drop k (segment f start n)),
          length-drop k (segment f start n),
          length-segment start n,
          length-segment (start + k) m,
        ))
        λ i hi. ground (
          arith,
          get_or-take m i (drop k (segment f start n)) 0,
          get_or-drop k i (segment f start n) 0,
          get_or-segment start n (k + i),
          get_or-segment (start + k) m i,
        )

-- Two functions that agree on the run give the same run.
pub segment_ext :
    (f g : ℕ → ℕ) (start n : ℕ)
    → ((i : ℕ) → start ≤ i → i < start + n → f i ≡ g i)
    → segment f start n ≡ segment g start n
unfolding segment
segment_ext f g start zero h = refl
segment_ext f g start (suc n) h =
    ap₂ (λ (a : ℕ) l. a ∷ l) (h start (omega arith) (omega arith))
      (segment_ext f g (start + 1) n (λ i p q. h i (omega arith) (omega arith)))

-- A segment of zeros.
pub segment_zeros :
    (f : ℕ → ℕ) (start n : ℕ) → ((i : ℕ) → start ≤ i → f i ≡ 0) → segment f start n ≡ replicate n 0
unfolding segment
segment_zeros f start zero h = refl
segment_zeros f start (suc n) h =
    ap₂ (λ (a : ℕ) l. a ∷ l) (h start (omega arith))
      (segment_zeros f (start + 1) n (λ i p. h i (omega arith)))

-- memcpy(buffer + at, input, length input): what lies outside the buffer is not written.
unfoldable pub overlay : List ℕ → ℕ → List ℕ → List ℕ
overlay buffer at input = take at buffer ++ (input ++ drop (at + length input) buffer)

pub length-overlay :
    (buffer : List ℕ) (at : ℕ) (input : List ℕ)
    → at + length input ≤ length buffer
    → length (overlay buffer at input) ≡ length buffer
unfolding overlay
length-overlay buffer at input h = omega (
  arith,
  length-append (take at buffer) (input ++ drop (at + length input) buffer),
  length-append input (drop (at + length input) buffer),
  length-take at buffer,
  length-drop (at + length input) buffer,
)

pub get_or-overlay :
    (buffer : List ℕ) (at : ℕ) (input : List ℕ) (i : ℕ)
    → at + length input ≤ length buffer
    → get_or (overlay buffer at input) i 0 ≡ (
        if leb at i && ltb i (at + length input)
        then get_or input (i - at) 0
        else get_or buffer i 0)
unfolding overlay
get_or-overlay buffer at input i h = ground (
  arith,
  get_or-append i (take at buffer) (input ++ drop (at + length input) buffer) 0,
  length-take at buffer,
  get_or-take at i buffer 0,
  get_or-append (i - at) input (drop (at + length input) buffer) 0,
  get_or-drop (at + length input) (i - at - length input) buffer 0,
)

pub segment-zero : (f : ℕ → ℕ) (start n : ℕ) → n ≡ 0 → segment f start n ≡ []
unfolding segment
segment-zero f start zero h = refl
segment-zero f start (suc n) h = absurd (omega arith)
