-- ===== src/Stream/Memory.antt =====
-- A stream held in memory, a StreamBase to try the components on: the bytes of a file in a list.
use securefs.Prelude.{
  ℕ, ◌+◌, ◌-◌, ◌≤◌, ◌<◌, ◌^◌, ◌≡◌, refl, ap, List, ◌++◌, min, max, length, get_or, take, drop,
  replicate, false, segment, length-take, length-drop, length-replicate, length-append, get_or-take,
  get_or-drop, get_or-append, get_or-replicate, get_or_beyond, length-segment, get_or-segment,
  list_ext, length-overlay, get_or-overlay, overlay, arith,
}
use securefs.Error.{ok}
use securefs.Stream.{StreamOps, StreamLaws, written, cut}

-- The file cut, or extended by zeros, to `n` bytes.
unfoldable pub resized : List ℕ → ℕ → List ℕ
resized s n = take n s ++ replicate (n - length s) 0

-- The file that has `input` from `offset` on.
unfoldable pub patched : List ℕ → List ℕ → ℕ → List ℕ
patched s input offset = overlay (resized s (max (length s) (offset + length input))) offset input

abbrev pub memory : StreamOps (List ℕ)
memory = record {
  size = λ s. length s;
  is_sparse = λ s. false;
  read = λ s offset n. ok (take n (drop offset s));
  write = λ s input offset. ok (patched s input offset);
  resize = λ s n. ok (resized s n);
}

pub length-resized : (s : List ℕ) (n : ℕ) → length (resized s n) ≡ n
unfolding resized
length-resized s n = omega (
  arith,
  length-append (take n s) (replicate (n - length s) 0),
  length-take n s,
  length-replicate {A = ℕ} (n - length s) 0,
)

pub get_or-resized : (s : List ℕ) (n i : ℕ) → get_or (resized s n) i 0 ≡ cut (λ j. get_or s j 0) n i
unfolding resized
get_or-resized s n i = ground (
  arith,
  get_or-append i (take n s) (replicate (n - length s) 0) 0,
  length-take n s,
  get_or-take n i s 0,
  get_or-replicate {A = ℕ} (n - length s) (i - length (take n s)) 0,
  get_or_beyond i s 0,
)

pub get_or-patched :
    (s input : List ℕ) (offset i : ℕ)
    → get_or (patched s input offset) i 0 ≡ written (λ j. get_or s j 0) offset input i
unfolding patched
get_or-patched s input offset i =
    let n = max (length s) (offset + length input) in
    ground (
      arith,
      get_or-overlay (resized s n) offset input i (omega (arith, length-resized s n)),
      get_or-resized s n i,
      get_or_beyond i s 0,
    )

pub read_memory :
    (s : List ℕ) (offset n : ℕ)
    → take n (drop offset s) ≡ segment (λ j. get_or s j 0) offset (min n (length s - offset))
read_memory s offset n =
    list_ext _ _ 0
      (omega (
        arith,
        length-take n (drop offset s),
        length-drop offset s,
        length-segment (λ j. get_or s j 0) offset (min n (length s - offset)),
      ))
      λ i h. ground (
        arith,
        length-take n (drop offset s),
        length-drop offset s,
        get_or-take n i (drop offset s) 0,
        get_or-drop offset i s 0,
        get_or-segment (λ j. get_or s j 0) offset (min n (length s - offset)) i,
      )

pub length-patched :
    (s input : List ℕ) (offset : ℕ)
    → length (patched s input offset) ≡ max (length s) (offset + length input)
unfolding patched
length-patched s input offset =
    let n = max (length s) (offset + length input) in
    omega (
      arith,
      length-overlay (resized s n) offset input (omega (arith, length-resized s n)),
      length-resized s n,
    )

module _ (limit : ℕ) (fits : limit < 2 ^ 64) where
  abbrev pub memory_laws : StreamLaws memory
  memory_laws = record {
    Valid = λ s. length s ≤ limit;
    byte = λ s i. get_or s i 0;
    limit = limit;
    limit_fits = fits;
    byte_beyond = λ s i v h. get_or_beyond i s 0 h;
    size_fits = λ s v. v;
    read_returns = λ s offset n v h. ap ok (read_memory s offset n);
    write_returns = λ s input offset v p h. record {
      after = patched s input offset;
      returns = refl;
      valid = omega (arith, length-patched s input offset);
      resized = length-patched s input offset;
      holds = get_or-patched s input offset;
    };
    resize_returns = λ s n v h. record {
      after = resized s n;
      returns = refl;
      valid = omega (arith, length-resized s n);
      resized = length-resized s n;
      holds = get_or-resized s n;
    };
  }
