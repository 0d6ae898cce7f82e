-- ===== src/Stream/Crypt/RoundTrip.antt =====
-- AESGCMCryptStream of sources/streams.cpp: reads of the header and of a block after their writes.
use native.Mathlib.Nat.{mod-eq_of_lt}
use securefs.Prelude.{
  ℕ, ◌+◌, ◌-◌, ◌*◌, ◌≤◌, ◌<◌, ◌≡◌, refl, ap, sym, ◌∙◌, inl, inr, true, false, List, ◌++◌, length,
  take, max, replicate, ◌==◌, u64, is_all_zeros, is_all_zeros-append, arith, segment, segment_ext,
  length-append, length-replicate, take-append_at, drop-append_at, take-append, pos→==, eq→==,
  le→leb, Bool-cases, ==→eq,
}
use mathlib.Core.Bool.{and-false}
use securefs.Error.{ok}
use securefs.Crypto.{GcmLaws, Rng, RngLaws, generate_nonzero, generate_nonzero_lem}
use securefs.Stream.{StreamOps, StreamLaws, Becomes, written}
use securefs.Stream.Block.Contract.{segment-written}
use securefs.Stream.Crypt.{
  CryptOptions, CryptStream, mac_size, unchecked_read_header, unchecked_write_header, read_header,
  write_header, decrypt_with, write_block, read_block, encrypt, decrypt, check_block_number,
  max_block_number,
}

-- A write that a read follows hands over what was written.
read-written :
    {S : Type 0} {o : StreamOps S} (laws : StreamLaws o) {s : S} {input : List ℕ} {offset : ℕ}
    (b : Becomes laws.Valid o.size laws.byte
      (o.write s input offset)
      (max (o.size s) (offset + length input))
      (written (laws.byte s) offset input))
    → offset + length input ≤ laws.limit
    → o.read b.after offset (length input) ≡ ok input
read-written laws {s} {input} {offset} b h =
    laws.read_returns b.after offset (length input) b.valid h
    ∙ ap (λ n. ok (segment (laws.byte b.after) offset n)) (omega (arith, b.resized))
    ∙ ap ok (
        segment_ext (laws.byte b.after) (written (laws.byte s) offset input) offset (length input)
          (λ i p q. b.holds i)
        ∙ segment-written (laws.byte s) offset input)

-- The same, for a number of bytes that is known by another name.
pub read-written_at :
    {S : Type 0} {o : StreamOps S} (laws : StreamLaws o) {s : S} {input : List ℕ} {offset n : ℕ}
    (b : Becomes laws.Valid o.size laws.byte
      (o.write s input offset)
      (max (o.size s) (offset + length input))
      (written (laws.byte s) offset input))
    → offset + length input ≤ laws.limit
    → length input ≡ n
    → o.read b.after offset n ≡ ok input
read-written_at {o = o} laws {offset = offset} b h e =
    ap (o.read b.after offset) (sym e) ∙ read-written laws b h

-- A write at the end of the file, and a read of more than there is.
read-written_end :
    {S : Type 0} {o : StreamOps S} (laws : StreamLaws o) {s : S} {input : List ℕ} {offset : ℕ}
    (n : ℕ)
    (b : Becomes laws.Valid o.size laws.byte
      (o.write s input offset)
      (max (o.size s) (offset + length input))
      (written (laws.byte s) offset input))
    → offset + n ≤ laws.limit
    → length input ≤ n
    → o.size s ≤ offset + length input
    → o.read b.after offset n ≡ ok input
read-written_end laws {s} {input} {offset} n b h m e =
    laws.read_returns b.after offset n b.valid h
    ∙ ap (λ k. ok (segment (laws.byte b.after) offset k)) (omega (arith, b.resized))
    ∙ ap ok (
        segment_ext (laws.byte b.after) (written (laws.byte s) offset input) offset (length input)
          (λ i p q. b.holds i)
        ∙ segment-written (laws.byte s) offset input)

module _ {D M R : Type 0} (under : StreamOps D) {metas : StreamOps M} (below : StreamLaws metas)
    (random : Rng R) (options : CryptOptions)
    (full : (r : R) (n : ℕ) → length (random.generate_random r n).0 ≡ n) where
  open options use {block_size, iv_size, header_size, check, tries}

  unchecked_round_trip :
      (s : CryptStream D M R) (input : List ℕ)
      → below.Valid s.meta
      → GcmLaws s.session
      → length input ≡ header_size
      → header_size + iv_size + mac_size ≤ below.limit
      → (s' : CryptStream D M R) × (unchecked_write_header under metas random options s input
          ≡ ok s')
        × (unchecked_read_header under metas random options s' ≡ ok input)
        × below.Valid s'.meta
        × GcmLaws s'.session
  unfolding unchecked_write_header unchecked_read_header
  unchecked_round_trip s input v g l h =
      let iv = (random.generate_random s.rng iv_size).0 in
      let sealed = s.session.encrypt_and_authenticate iv s.id input in
      let li = full s.rng iv_size in
      let lm = g.length_mac iv s.id input in
      let lc = g.length_ciphertext iv s.id input in
      let bytes = iv ++ (sealed.1 ++ sealed.0) in
      let n : length bytes ≡ header_size + iv_size + 16 = omega (
        arith,
        li,
        lm,
        lc,
        l,
        length-append iv (sealed.1 ++ sealed.0),
        length-append sealed.1 sealed.0,
      ) in
      let b = below.write_returns s.meta bytes 0 v (omega (arith, n)) (omega (arith, n)) in
      let s' : CryptStream D M R = record s {
        meta = b.after;
        rng = (random.generate_random s.rng iv_size).1;
      } in
      (
        s',
        rw b.returns refl,
        rw (read-written_at below {n = header_size + iv_size + 16} b (omega (arith, n)) n) (
            rw
              (
                n,
                pos→== (header_size + iv_size + 16) (omega arith),
                eq→== (header_size + iv_size + 16) (header_size + iv_size + 16) refl,
              )
              (rw
                (
                  take-append_at iv_size iv (sealed.1 ++ sealed.0) li,
                  drop-append_at iv_size iv (sealed.1 ++ sealed.0) li,
                )
                (rw
                  (
                    take-append_at 16 sealed.1 sealed.0 lm,
                    drop-append_at 16 sealed.1 sealed.0 lm,
                    g.decrypts iv s.id input,
                  )
                  refl))),
        b.valid,
        g,
      )

  -- A header of any length that fits is read again, whole.
  pub read_header-write_header :
      (s : CryptStream D M R) (input : List ℕ)
      → below.Valid s.meta
      → GcmLaws s.session
      → 0 < header_size
      → length input ≤ header_size
      → header_size + iv_size + mac_size ≤ below.limit
      → (s' : CryptStream D M R) × (write_header under metas random options s input ≡ ok s')
        × (read_header under metas random options s' (length input) ≡ ok (true, input))
        × below.Valid s'.meta
        × GcmLaws s'.session
  unfolding write_header read_header
  read_header-write_header s input v g pos h room =
      elim (Bool-cases (length input == header_size)) [
        | inl whole ↦
            let l = ==→eq _ _ whole in
            let (s', w, r, v', g') = unchecked_round_trip s input v g l room in
            (
              s',
              rw (le→leb (length input) header_size h, whole) w,
              rw (le→leb (length input) header_size h, r, whole)
                  (rw (eq→== (length input) (length input) refl) refl),
              v',
              g',
            )
        | inr part ↦
            let padded = input ++ replicate (header_size - length input) 0 in
            let l : length padded ≡ header_size = omega (
              arith,
              length-append input (replicate (header_size - length input) 0),
              length-replicate {A = ℕ} (header_size - length input) 0,
            ) in
            let (s', w, r, v', g') = unchecked_round_trip s padded v g l room in
            (
              s',
              rw (le→leb (length input) header_size h, part) w,
              rw (le→leb (length input) header_size h, r, part)
                  (rw (l, pos→== header_size pos)
                    (ap (λ k. ok (true, take k padded)) (omega arith)
                      ∙ ap (λ t. ok (true, t))
                          (take-append input (replicate (header_size - length input) 0)))),
              v',
              g',
            )
      ]

module _ {D M R : Type 0} {under : StreamOps D} {metas : StreamOps M} (above : StreamLaws under)
    (below : StreamLaws metas) (random : Rng R) (options : CryptOptions) where
  open options use {block_size, iv_size, header_size, check, tries}

  abbrev pub RoomFor : ℕ → Type 0
  RoomFor n =
      (n * block_size + block_size ≤ above.limit)
      × (header_size + iv_size + mac_size + (iv_size + mac_size) * n + (iv_size + mac_size)
          ≤ below.limit)

  check_block_number_lem :
      (n : ℕ) → n ≤ max_block_number → check_block_number under metas random options n ≡ ok tt
  unfolding check_block_number
  check_block_number_lem n h = rw (le→leb n max_block_number h) refl

  -- What `decrypt_with` makes of what `encrypt` gives.
  pub decrypt_with-sealed :
      (s : CryptStream D M R) (n : ℕ) (iv input : List ℕ)
      → GcmLaws s.session
      → length iv ≡ iv_size
      → is_all_zeros iv ≡ false
      → decrypt_with under metas random options s n
          (s.session.encrypt_and_authenticate iv s.id input).0
          (iv ++ (s.session.encrypt_and_authenticate iv s.id input).1)
        ≡ ok input
  unfolding decrypt_with
  decrypt_with-sealed s n iv input g l fine =
      let sealed = s.session.encrypt_and_authenticate iv s.id input in
      rw
        (
          is_all_zeros-append iv sealed.1,
          fine,
          take-append_at iv_size iv sealed.1 l,
          drop-append_at iv_size iv sealed.1 l,
        )
        (rw (g.decrypts iv s.id input) (rw and-false refl))

  -- The two parts of `RoomFor`, for the words that the code computes.
  positions :
      (n : ℕ)
      → n ≤ max_block_number
      → RoomFor n
      → (u64 (n * block_size) ≡ n * block_size)
        × (u64 (header_size + iv_size + mac_size + (iv_size + mac_size) * n)
            ≡ header_size + iv_size + mac_size + (iv_size + mac_size) * n)
  positions n h (ra, rb) =
      let fa = above.limit_fits in
      let fb = below.limit_fits in (mod-eq_of_lt (omega arith), mod-eq_of_lt (omega arith))

  pub write_sealed :
      (s : CryptStream D M R) (n : ℕ) (input iv : List ℕ) (rng : R) (meta : M) (stream : D)
      → n ≤ max_block_number
      → 0 < length input
      → RoomFor n
      → generate_nonzero tries random s.rng iv_size ≡ ok (iv, rng)
      → metas.write s.meta
          (iv ++ (s.session.encrypt_and_authenticate iv s.id input).1)
          (header_size + iv_size + mac_size + (iv_size + mac_size) * n)
        ≡ ok meta
      → under.write s.stream (s.session.encrypt_and_authenticate iv s.id input).0 (n * block_size)
        ≡ ok stream
      → write_block under metas random options s n input
        ≡ ok (record s { stream = stream; meta = meta; rng = rng })
  unfolding write_block encrypt
  write_sealed s n input iv rng meta stream small pos room drawn wm wd =
      let (pa, pb) = positions n small room in
      rw (pos→== (length input) pos, check_block_number_lem n small)
        (rw drawn (rw (pb, wm) (rw (pa, wd) refl)))

  read_sealed :
      (s : CryptStream D M R) (n : ℕ) (input iv : List ℕ)
      → n ≤ max_block_number
      → 0 < length input
      → RoomFor n
      → GcmLaws s.session
      → length iv ≡ iv_size
      → is_all_zeros iv ≡ false
      → metas.read s.meta
          (header_size + iv_size + mac_size + (iv_size + mac_size) * n)
          (iv_size + mac_size)
        ≡ ok (iv ++ (s.session.encrypt_and_authenticate iv s.id input).1)
      → under.read s.stream (n * block_size) block_size
        ≡ ok (s.session.encrypt_and_authenticate iv s.id input).0
      → read_block under metas random options s n ≡ ok input
  unfolding read_block decrypt
  read_sealed s n input iv small pos room g li fine rm rd =
      let (pa, pb) = positions n small room in
      let sealed = s.session.encrypt_and_authenticate iv s.id input in
      let lc = g.length_ciphertext iv s.id input in
      let ln : length (iv ++ sealed.1) ≡ iv_size + 16 =
        omega (arith, li, g.length_mac iv s.id input, length-append iv sealed.1) in
      rw (check_block_number_lem n small, pa, rd)
        (rw (lc, pos→== (length input) pos, pb)
          (rw rm (
            rw (ln, eq→== (iv_size + 16) (iv_size + 16) refl)
              (decrypt_with-sealed s n iv input g li fine))))

  -- The last block of a file, when it is written, is read again.
  pub read_block-write_block :
      (s : CryptStream D M R) (n : ℕ) (input : List ℕ)
      → above.Valid s.stream
      → below.Valid s.meta
      → GcmLaws s.session
      → RngLaws random iv_size tries
      → n ≤ max_block_number
      → 0 < length input
      → length input ≤ block_size
      → under.size s.stream ≤ n * block_size + length input
      → RoomFor n
      → (s' : CryptStream D M R) × (write_block under metas random options s n input ≡ ok s')
        × (read_block under metas random options s' n ≡ ok input)
        × (under.size s'.stream ≡ n * block_size + length input)
  read_block-write_block s n input va vb g rl small pos fits last (ra, rb) =
      let (iv, rng, drawn, li, fine) = generate_nonzero_lem random iv_size tries s.rng rl in
      let sealed = s.session.encrypt_and_authenticate iv s.id input in
      let lc = g.length_ciphertext iv s.id input in
      let place = header_size + iv_size + 16 + (iv_size + 16) * n in
      let ln : length (iv ++ sealed.1) ≡ iv_size + 16 =
        omega (arith, li, g.length_mac iv s.id input, length-append iv sealed.1) in
      let m =
        below.write_returns s.meta (iv ++ sealed.1) place vb (omega (arith, ln))
          (omega (arith, ln)) in
      let d =
        above.write_returns s.stream sealed.0 (n * block_size) va (omega (arith, lc))
          (omega (arith, lc)) in
      let s' : CryptStream D M R = record s { stream = d.after; meta = m.after; rng = rng } in
      (
        s',
        write_sealed s n input iv rng m.after d.after small pos (ra, rb) drawn m.returns d.returns,
        read_sealed s' n input iv small pos (ra, rb) g li fine
            (read-written_at below {n = iv_size + 16} m (omega (arith, ln)) ln)
            (read-written_end above block_size d ra (omega (arith, lc)) (omega (arith, lc))),
        d.resized ∙ omega (arith, lc),
      )
