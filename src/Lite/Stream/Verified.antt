-- ===== src/Lite/Stream/Verified.antt =====
-- What the lite stream checks: MACs, headers and options.
use securefs.Prelude.{
  ℕ, ◌+◌, ◌-◌, ◌≤◌, ◌<◌, ◌≡◌, ◌∙◌, ◌≢◌, ◌⊎◌, inl, inr, refl, sym, List, length, take, drop, min,
  ltb, leb, ◌==◌, ◌||◌, Bool, true, false, is_all_zeros, segment, length-segment, if◌then◌else◌,
  Bool-cases, leb→le, leb→gt, ge→ltb, pos→==, arith,
}
use securefs.Error.{ok, throw, lite_message_verification, Exception, invalid_argument}
use securefs.Crypto.{Gcm, Rng}
use securefs.Stream.{StreamOps, StreamLaws}
use securefs.Lite.Stream.{
  LiteOptions, header_size, mac_size, auxiliary, open_block, lite_header, lite_open,
}

module _ {T R : Type 0} (under : StreamOps T) (random : Rng R) (options : LiteOptions) where
  open options use {block_size, iv_size, check}

  -- The MAC at the end of a buffer is right for its IV, its text and the number of the block.
  abbrev pub authentic : Gcm → ℕ → List ℕ → Bool
  authentic session n buffer =
      (session.decrypt_and_verify (take iv_size buffer) (auxiliary n)
        (drop (length buffer - mac_size) buffer)
        (take (length buffer - iv_size - mac_size) (drop iv_size buffer))).1

  -- With `check`, a block that is opened is a hole, too short to hold a text, or authentic.
  pub open_block-authentic :
      (session : Gcm) (n : ℕ) (buffer text : List ℕ)
      → check ≡ true
      → open_block under random options session n buffer ≡ ok text
      → (length buffer ≤ mac_size + iv_size)
        ⊎ ((is_all_zeros buffer ≡ true) ⊎ (authentic session n buffer ≡ true))
  unfolding open_block
  open_block-authentic session n buffer text on h =
      elim (Bool-cases (leb (length buffer) (mac_size + iv_size))) [
        | inl short ↦ inl (leb→le _ _ short)
        | inr long ↦ inr (elim (Bool-cases (is_all_zeros buffer)) [
          | inl zeros ↦ inl zeros
          | inr some ↦ inr (elim (Bool-cases (authentic session n buffer)) [
            | inl right ↦ right
            | inr wrong ↦
                absurd (ok_throw (refused long some wrong).0 (sym h ∙ (refused long some wrong).1))
          ])
        ])
      ]
    where
      ok_throw : (e : Exception) → ok text ≢ throw e
      ok_throw e h = cc h

      refused :
          leb (length buffer) (mac_size + iv_size) ≡ false
          → is_all_zeros buffer ≡ false
          → authentic session n buffer ≡ false
          → (e : Exception) × (open_block under random options session n buffer ≡ throw e)
      refused long some wrong =
          elim (Bool-cases (ltb (block_size + iv_size + mac_size) (length buffer))) [
            | inl large ↦ (invalid_argument, rw (long, large) refl)
            | inr fits ↦ (lite_message_verification, rw (long, fits, some) (rw (on, wrong) refl))
          ]

-- The constructor: which options and files it refuses, and the key that it derives from the header.
module _ {T R : Type 0} {under : StreamOps T} (below : StreamLaws under) (random : Rng R)
    (options : LiteOptions) where
  open options use {block_size, iv_size}

  -- A file with a header is opened under the key derived from its first 16 bytes, and is not written.
  -- One that has some bytes, but fewer, is refused.
  pub lite_open-old :
      (derive : List ℕ → List ℕ) (cipher : List ℕ → Gcm) (stream : T) (rng : R)
      → below.Valid stream
      → 0 < under.size stream
      → header_size ≤ below.limit
      → 12 ≤ iv_size
      → iv_size ≤ 32
      → 32 ≤ block_size
      → lite_open under random options derive cipher stream rng ≡ (
          if leb header_size (under.size stream)
          then ok (record {
            stream = stream;
            rng = rng;
            session = cipher (derive (segment (below.byte stream) 0 header_size));
          })
          else throw invalid_argument)
  unfolding lite_open lite_header
  lite_open-old derive cipher stream rng v some room iv_min iv_max block_min =
      rw
        (
          options_fine,
          ge→ltb block_size 32 block_min,
          below.read_returns stream 0 header_size v room,
        )
        (elim (Bool-cases (leb header_size (under.size stream))) [
          | inl whole ↦
              rw (whole, full whole) (rw (length-segment (below.byte stream) 0 header_size) refl)
          | inr short ↦
              rw (short, part short)
                (rw
                  (
                    length-segment (below.byte stream) 0 (under.size stream),
                    pos→== (under.size stream) some,
                    other short,
                  )
                  refl)
        ])
    where
      options_fine : (ltb iv_size 12 || ltb 32 iv_size) ≡ false
      options_fine = ground arith

      full :
          leb header_size (under.size stream) ≡ true
          → min header_size (under.size stream - 0) ≡ header_size
      full h = omega (arith, leb→le _ _ h)

      part :
          leb header_size (under.size stream) ≡ false
          → min header_size (under.size stream - 0) ≡ under.size stream
      part h = omega (arith, leb→gt _ _ h)

      other :
          leb header_size (under.size stream) ≡ false → (under.size stream == header_size) ≡ false
      other h = ground arith
