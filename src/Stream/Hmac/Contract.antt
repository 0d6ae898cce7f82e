-- ===== src/Stream/Hmac/Contract.antt =====
-- HMACStream as a StreamBase, over any other.
use native.Mathlib.Nat.{mod-eq_of_lt}
use securefs.Prelude.{
  ℕ, true, ◌+◌, ◌-◌, ◌≤◌, ◌<◌, ◌≡◌, ◌^◌, refl, ap, ◌∙◌, List, length, min, max, u64, segment,
  list_ext, length-segment, get_or-segment, arith,
}
use securefs.Error.{Result, ok, ◌>>=◌}
use securefs.Stream.{StreamOps, StreamLaws, Becomes, written, cut}
use securefs.Stream.Outcome.{Becomes-subst}
use securefs.Stream.Hmac.{HmacStream, hmac_length, size, read, write, resize, hmac_stream}

pub segment-shift :
    (f : ℕ → ℕ) (k start n : ℕ) → segment f (start + k) n ≡ segment (λ i. f (i + k)) start n
segment-shift f k start n =
    list_ext _ _ 0
      (omega (arith, length-segment f (start + k) n, length-segment (λ i. f (i + k)) start n))
      λ i h. ground (
        arith,
        get_or-segment f (start + k) n i,
        get_or-segment (λ j. f (j + k)) start n i,
        same_place i,
      )
  where
    same_place : (i : ℕ) → f (start + k + i) ≡ f (start + i + k)
    same_place i = ap f (omega arith)

module _ {T : Type 0} {under : StreamOps T} (below : StreamLaws under)
    (hmac : List ℕ → List ℕ → List ℕ) (room : hmac_length ≤ below.limit) where
  -- The bytes that are seen are those behind the MAC.
  abbrev pub hmac_byte : HmacStream T → ℕ → ℕ
  hmac_byte s i = below.byte s.stream (i + hmac_length)

  abbrev pub IsValid : HmacStream T → Type 0
  IsValid s = below.Valid s.stream

  pub size_lem : (s : HmacStream T) → size under hmac s ≡ under.size s.stream - hmac_length
  unfolding size
  size_lem s = ground arith

  pub hmac_read_lem :
      (s : HmacStream T) (offset n : ℕ)
      → IsValid s
      → offset + n ≤ below.limit - hmac_length
      → 0 < below.limit
      → read under hmac s offset n
        ≡ ok (segment (hmac_byte s) offset (min n (size under hmac s - offset)))
  unfolding read
  hmac_read_lem s offset n v h p =
      let fits = below.limit_fits in
      let e : u64 (offset + hmac_length) ≡ offset + hmac_length = mod-eq_of_lt (omega arith) in
      rw (e, read)
        (below.read_returns s.stream (offset + hmac_length) n v (omega arith)
          ∙ ap (λ k. ok (segment (below.byte s.stream) (offset + hmac_length) k))
              (omega (arith, size_lem s))
          ∙ ap ok (
              segment-shift (below.byte s.stream) hmac_length offset
                (min n (size under hmac s - offset))))

  -- What becomes of the stream below becomes of the stream that is seen.
  through :
      (s : HmacStream T) {r : Result T} {m : ℕ} {f : ℕ → ℕ}
      → Becomes below.Valid under.size below.byte r m f
      → Becomes IsValid
          (size under hmac)
          hmac_byte
          (r >>= λ t. ok (record s { stream = t; is_dirty = true }))
          (m - hmac_length)
          (λ i. f (i + hmac_length))
  through s {r} {m} {f} b =
      let s' : HmacStream T = record s { stream = b.after; is_dirty = true } in
      record {
        after = s';
        returns = ap (λ q. q >>= λ t. ok (record s { stream = t; is_dirty = true })) b.returns;
        valid = b.valid;
        resized = size_lem s' ∙ ap (λ k. k - hmac_length) b.resized;
        holds = λ i. b.holds (i + hmac_length);
      }

  written-shift :
      (f : ℕ → ℕ) (offset : ℕ) (input : List ℕ) (i : ℕ)
      → written f (offset + hmac_length) input (i + hmac_length)
        ≡ written (λ j. f (j + hmac_length)) offset input i
  written-shift f offset input i = ground (arith, same_place)
    where
      same_place : i + hmac_length - (offset + hmac_length) ≡ i - offset
      same_place = omega arith

  -- A write of at least one byte within the limit succeeds: behind the MAC, the file then has `input`
  -- from `offset` on, and all other bytes as they were.
  pub hmac_write_lem :
      (s : HmacStream T) (input : List ℕ) (offset : ℕ)
      → IsValid s
      → 0 < length input
      → offset + length input ≤ below.limit - hmac_length
      → Becomes IsValid
          (size under hmac)
          hmac_byte
          (write under hmac s input offset)
          (max (size under hmac s) (offset + length input))
          (written (hmac_byte s) offset input)
  unfolding write
  hmac_write_lem s input offset v p h =
      let fits = below.limit_fits in
      let here : offset + hmac_length + length input ≤ below.limit = omega arith in
      let e : u64 (offset + hmac_length) ≡ offset + hmac_length = mod-eq_of_lt (omega arith) in
      rw e (
        Becomes-subst
          (through s (below.write_returns s.stream input (offset + hmac_length) v p here)) refl
          (omega (arith, size_lem s)) (written-shift (below.byte s.stream) offset input))

  pub hmac_resize_lem :
      (s : HmacStream T) (new_size : ℕ)
      → IsValid s
      → new_size ≤ below.limit - hmac_length
      → Becomes IsValid
          (size under hmac)
          hmac_byte
          (resize under hmac s new_size)
          new_size
          (cut (hmac_byte s) new_size)
  unfolding resize
  hmac_resize_lem s new_size v h =
      let fits = below.limit_fits in
      let e : u64 (new_size + hmac_length) ≡ new_size + hmac_length = mod-eq_of_lt (omega arith) in
      rw e (
        Becomes-subst
          (through s (below.resize_returns s.stream (new_size + hmac_length) v (omega arith))) refl
          (omega arith) (λ i. ground arith))

  pub hmac_byte_beyond :
      (s : HmacStream T) (i : ℕ) → IsValid s → size under hmac s ≤ i → hmac_byte s i ≡ 0
  hmac_byte_beyond s i v h =
      below.byte_beyond s.stream (i + hmac_length) v (omega (arith, size_lem s))

  pub hmac_size_fits :
      (s : HmacStream T) → IsValid s → size under hmac s ≤ below.limit - hmac_length
  hmac_size_fits s v = omega (arith, size_lem s, below.size_fits s.stream v)

  pub hmac_limit_fits : below.limit - hmac_length < 2 ^ 64
  hmac_limit_fits = omega (arith, below.limit_fits)

  abbrev pub hmac_laws : StreamLaws (hmac_stream under hmac)
  hmac_laws = record {
    Valid = IsValid;
    byte = hmac_byte;
    limit = below.limit - hmac_length;
    limit_fits = hmac_limit_fits;
    byte_beyond = hmac_byte_beyond;
    size_fits = hmac_size_fits;
    read_returns = λ s offset n v h. hmac_read_lem s offset n v h (omega arith);
    write_returns = hmac_write_lem;
    resize_returns = hmac_resize_lem;
  }
