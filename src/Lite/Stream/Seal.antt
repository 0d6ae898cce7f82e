-- ===== src/Lite/Stream/Seal.antt =====
-- Sealing a block of a lite stream and opening it again.
use securefs.Prelude.{
  ℕ, ◌+◌, ◌-◌, ◌≤◌, ◌<◌, ◌≡◌, refl, ap, sym, ◌∙◌, inl, inr, true, false, List, ◌++◌, length, take,
  drop, replicate, leb, gt→leb, ge→ltb, leb→le, Bool-cases, is_all_zeros, is_all_zeros-replicate,
  is_all_zeros-append, replicate_of-is_all_zeros, length-replicate, length-append, take-append_at,
  drop-append_at, arith,
}
use mathlib.Core.Bool.{and-false}
use mathlib.Core.List.{append_assoc}
use securefs.Error.{ok}
use securefs.Crypto.{Gcm, GcmLaws, Rng, RngLaws, generate_nonzero_lem}
use securefs.Stream.{StreamOps}
use securefs.Lite.Stream.{LiteOptions, LiteStream, auxiliary, mac_size, open_block, seal_block}

module _ {T R : Type 0} (under : StreamOps T) (random : Rng R) (options : LiteOptions) where
  open options use {block_size, iv_size, tries}

  -- The parts of a buffer are opened.
  open_parts :
      (session : Gcm) (n : ℕ) (iv c mac text : List ℕ) (rc : ℕ)
      → length iv ≡ iv_size
      → length c ≡ length text
      → length mac ≡ 16
      → length (iv ++ (c ++ mac)) ≡ rc
      → 0 < length text
      → length text ≤ block_size
      → is_all_zeros iv ≡ false
      → session.decrypt_and_verify iv (auxiliary n) mac c ≡ (text, true)
      → open_block under random options session n (iv ++ (c ++ mac)) ≡ ok text
  unfolding open_block
  open_parts session n iv c mac text rc li lc lm lr pos fits fine dec = rw lr (
      rw (gt→leb rc (mac_size + iv_size) (omega (arith, long))) (
        rw (ge→ltb (block_size + iv_size + mac_size) rc (omega (arith, long))) (
          rw (is_all_zeros-append iv (c ++ mac)) (
            rw fine (
              rw (take-append_at iv_size iv (c ++ mac) li, last, middle)
                (rw dec (rw and-false)))))))
    where
      long : rc ≡ length text + iv_size + 16
      long = omega (arith, lr, li, lc, lm, length-append iv (c ++ mac), length-append c mac)

      last : drop (rc - 16) (iv ++ (c ++ mac)) ≡ mac
      last =
          ap (drop (rc - 16)) (sym (append_assoc iv c mac))
          ∙ drop-append_at (rc - 16) (iv ++ c) mac (omega (arith, long, length-append iv c, li, lc))

      middle : take (rc - iv_size - 16) (drop iv_size (iv ++ (c ++ mac))) ≡ c
      middle =
          ap (take (rc - iv_size - 16)) (drop-append_at iv_size iv (c ++ mac) li)
          ∙ take-append_at (rc - iv_size - 16) c mac (omega (arith, long, lc))

  -- A block of nulls is opened to nulls: a hole in the file below reads as zeros.
  pub open_block-zeros :
      (session : Gcm) (n m : ℕ)
      → m ≤ block_size + iv_size + mac_size
      → open_block under random options session n (replicate m 0)
        ≡ ok (replicate (m - (iv_size + mac_size)) 0)
  unfolding open_block
  open_block-zeros session n m h =
      rw (length-replicate {A = ℕ} m 0) (elim (Bool-cases (leb m (mac_size + iv_size))) [
        | inl short ↦ rw short (
            let e : 0 ≡ m - (iv_size + mac_size) = omega (arith, leb→le _ _ short) in
            ap (λ k. ok (replicate {A = ℕ} k 0)) e)
        | inr long ↦ rw long (
            rw (ge→ltb (block_size + iv_size + mac_size) m h)
              (rw (is_all_zeros-replicate m) (ap (λ k. ok (replicate {A = ℕ} k 0)) (omega arith))))
      ])

  -- A block of at least one byte is sealed, and what it is sealed to is opened to the block.
  pub open-seal :
      (s : LiteStream T R) (n : ℕ) (input : List ℕ)
      → GcmLaws s.session
      → RngLaws random iv_size tries
      → 0 < length input
      → length input ≤ block_size
      → (buffer : List ℕ) × (rng : R) × (seal_block under random options s n input
          ≡ ok (buffer, rng))
        × (length buffer ≡ length input + iv_size + mac_size)
        × (open_block under random options s.session n buffer ≡ ok input)
  unfolding seal_block
  open-seal s n input gl rl pos fits = elim (Bool-cases (is_all_zeros input)) [
    | inl zeros ↦ (
      replicate (length input + iv_size + mac_size) 0,
      s.rng,
      rw zeros,
      length-replicate (length input + iv_size + mac_size) 0,
      open_block-zeros s.session n (length input + iv_size + mac_size) (omega arith)
          ∙ ap (λ k. ok (replicate {A = ℕ} k 0)) (omega arith)
          ∙ ap ok (sym (replicate_of-is_all_zeros input zeros)),
    )
    | inr data_bytes ↦
        let (iv, rng, drawn, len, fine) = generate_nonzero_lem random iv_size tries s.rng rl in
        let c = (s.session.encrypt_and_authenticate iv (auxiliary n) input).0 in
        let mac = (s.session.encrypt_and_authenticate iv (auxiliary n) input).1 in
        let lc = gl.length_ciphertext iv (auxiliary n) input in
        let lm = gl.length_mac iv (auxiliary n) input in
        (
          iv ++ (c ++ mac),
          rng,
          rw (data_bytes, drawn),
          omega (arith, lc, lm, length-append iv (c ++ mac), length-append c mac),
          open_parts s.session n iv c mac input _ len lc lm refl pos fits fine
              (gl.decrypts iv (auxiliary n) input),
        )
  ]
