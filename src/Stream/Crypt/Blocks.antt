-- ===== src/Stream/Crypt/Blocks.antt =====
-- The blocks of a file of the full format: what its two streams say of each.
use native.Mathlib.Nat.{mod-eq_of_lt, mul-le-mul_right, mul-le-mul_left}
use securefs.Prelude.{
  ℕ, suc, ◌+◌, ◌-◌, ◌*◌, ◌/◌, ◌%◌, ◌^◌, ◌≤◌, ◌<◌, ◌≡◌, refl, ap, sym, ◌∙◌, inl, inr, Bool, true,
  List, [], ◌∷◌, length, get_or, min, ltb, u64, lt→ltb, ltb→lt, ltb→ge, le→leb, eq→==, pos→==,
  Bool-cases, if◌then◌else◌, segment, length-segment, arith,
}
use securefs.Error.{Result, ok}
use securefs.Crypto.{GcmLaws, Rng}
use securefs.Stream.{StreamOps, StreamLaws}
use securefs.Stream.Block.Pieces.{pieces, Blocks, pieces-segment}
use securefs.Stream.Crypt.{
  CryptOptions, CryptStream, mac_size, max_block_number, decrypt_with, decrypt, read_block, size,
  check_block_number,
}

abbrev pub bytes_of : Result (List ℕ) → List ℕ
bytes_of (ok bytes) = bytes
bytes_of _ = []

module _ {D M R : Type 0} {under : StreamOps D} {metas : StreamOps M} (above : StreamLaws under)
    (below : StreamLaws metas) (random : Rng R) (options : CryptOptions) where
  open options use {block_size, iv_size, header_size}

  -- The size of an IV with a MAC, and where that of block `n` is.
  abbrev pub unit : ℕ
  unit = iv_size + mac_size

  abbrev pub place : ℕ → ℕ
  place n = header_size + iv_size + mac_size + unit * n

  -- What block `n` is, encrypted, and its IV with its MAC.
  abbrev pub raw_block : CryptStream D M R → ℕ → List ℕ
  raw_block s n =
      segment (above.byte s.stream) (n * block_size)
        (min block_size (under.size s.stream - n * block_size))

  abbrev pub meta_block : CryptStream D M R → ℕ → List ℕ
  meta_block s n = segment (below.byte s.meta) (place n) unit

  -- Block `n`, decrypted; behind the end there is none.
  abbrev pub opened : CryptStream D M R → ℕ → Result (List ℕ)
  opened s n =
      if ltb (n * block_size) (under.size s.stream)
      then decrypt_with under metas random options s n (raw_block s n) (meta_block s n)
      else ok []

  abbrev pub plain_block : CryptStream D M R → ℕ → List ℕ
  plain_block s n = bytes_of (opened s n)

  abbrev pub crypt_byte : CryptStream D M R → ℕ → ℕ
  crypt_byte s i = get_or (plain_block s (i / block_size)) (i % block_size) 0

  abbrev pub crypt_limit : ℕ
  crypt_limit = (max_block_number + 1) * block_size

  -- A file that is well formed: every block has its IV and MAC and is decrypted to as many bytes, and
  -- behind those of the last block there are none.
  pub record IsCryptFile (s : CryptStream D M R) : Type 0 where
    pub valid : above.Valid s.stream
    pub meta_valid : below.Valid s.meta
    pub session : GcmLaws s.session
    pub fits : under.size s.stream ≤ crypt_limit
    pub covered :
        (n : ℕ) → n * block_size < under.size s.stream → place n + unit ≤ metas.size s.meta
    pub clean :
        (n i : ℕ) → under.size s.stream ≤ n * block_size → place n ≤ i → below.byte s.meta i ≡ 0
    pub opens : (n : ℕ) → opened s n ≡ ok (plain_block s n)
    pub lengths :
        (n : ℕ) → length (plain_block s n) ≡ min block_size (under.size s.stream - n * block_size)

  -- The two streams have room for a file of the greatest size, and a block size has 32 bits.
  pub record HasRoom : Type 0 where
    pub for_data : crypt_limit ≤ above.limit
    pub few_bytes : block_size < 2 ^ 32
    pub for_metas : place (max_block_number + 1) ≤ below.limit

  pub place_mono : (m n : ℕ) → m < n → place m + unit ≤ place n
  place_mono m n h = let p : unit * suc m ≤ unit * n = mul-le-mul_left unit h in omega arith

  pub block_number_fits :
      0 < block_size → (n : ℕ) → n * block_size < crypt_limit → n ≤ max_block_number
  block_number_fits pos n l = elim (Bool-cases (ltb max_block_number n)) [
    | inl more ↦
        let p : (max_block_number + 1) * block_size ≤ n * block_size =
          mul-le-mul_right block_size (omega (arith, ltb→lt _ _ more)) in
        absurd (omega arith)
    | inr few ↦ ltb→ge _ _ few
  ]

  pub block_fits : (n : ℕ) → n ≤ max_block_number → n * block_size + block_size ≤ crypt_limit
  block_fits n few =
      let p : suc n * block_size ≤ (max_block_number + 1) * block_size =
        mul-le-mul_right block_size (omega arith) in
      omega arith

  pub place_word : (n : ℕ) → HasRoom → n ≤ max_block_number + 1 → u64 (place n) ≡ place n
  place_word n room few =
      let p : unit * n ≤ unit * (max_block_number + 1) = mul-le-mul_left unit few in
      mod-eq_of_lt (omega (arith, room.for_metas, below.limit_fits))

  pub check_block_number_lem :
      (n : ℕ) → n ≤ max_block_number → check_block_number under metas random options n ≡ ok tt
  unfolding check_block_number
  check_block_number_lem n h = rw (le→leb n max_block_number h) refl

  pub opens_there :
      (s : CryptStream D M R) (n : ℕ)
      → IsCryptFile s
      → n * block_size < under.size s.stream
      → decrypt_with under metas random options s n (raw_block s n) (meta_block s n)
        ≡ ok (plain_block s n)
  opens_there s n v there = sym (opened_there (lt→ltb _ _ there)) ∙ v.opens n
    where
      opened_there :
          {b : Bool}
          → b ≡ true
          → (if b
              then decrypt_with under metas random options s n (raw_block s n) (meta_block s n)
              else ok [])
            ≡ decrypt_with under metas random options s n (raw_block s n) (meta_block s n)
      opened_there e = rw e refl

  -- What decrypt does, on the whole of a block that there is.
  decrypted :
      (s : CryptStream D M R) (n : ℕ)
      → HasRoom
      → IsCryptFile s
      → n ≤ max_block_number
      → n * block_size < under.size s.stream
      → decrypt under metas random options s n (raw_block s n) ≡ ok (plain_block s n)
  unfolding decrypt
  decrypted s n room v few there =
      let read =
        below.read_returns s.meta (place n) unit v.meta_valid
          (omega (arith, room.for_metas, place_mono n (max_block_number + 1) (omega arith))) in
      let whole : min unit (metas.size s.meta - place n) ≡ unit =
        omega (arith, v.covered n there) in
      let some_bytes =
        length-segment (above.byte s.stream) (n * block_size)
          (min block_size (under.size s.stream - n * block_size)) in
      rw
        (
          pos→== (length (raw_block s n)) (omega (arith, some_bytes)),
          check_block_number_lem n few,
          place_word n room (omega arith),
          read,
          whole,
          length-segment (below.byte s.meta) (place n) unit,
          eq→== unit unit refl,
        )
        (opens_there s n v there)

  module _ (pos : 0 < block_size) where
    -- Streams whose blocks are decrypted to `plain` are a well-formed file, and `plain` says what it holds.
    pub well_formed :
        (s : CryptStream D M R) (n : ℕ) (plain : ℕ → List ℕ)
        → above.Valid s.stream
        → below.Valid s.meta
        → GcmLaws s.session
        → under.size s.stream ≡ n
        → n ≤ crypt_limit
        → ((m : ℕ) → m * block_size < n → place m + unit ≤ metas.size s.meta)
        → ((m i : ℕ) → n ≤ m * block_size → place m ≤ i → below.byte s.meta i ≡ 0)
        → ((m : ℕ)
            → m * block_size < n
            → decrypt_with under metas random options s m (raw_block s m) (meta_block s m)
              ≡ ok (plain m))
        → Blocks block_size pos plain n
        → IsCryptFile s × ((i : ℕ) → crypt_byte s i ≡ pieces block_size pos plain i)
    well_formed s n plain va vb g e l covered clean o h = (
      record {
        valid = va;
        meta_valid = vb;
        session = g;
        fits = omega (arith, e);
        covered = λ m p. covered m (omega (arith, e));
        clean = λ m i p q. clean m i (omega (arith, e)) q;
        opens = λ m. opens m ∙ ap ok (sym (same m));
        lengths =
            λ m. ap length (same m) ∙ h m ∙ ap (λ k. min block_size (k - m * block_size)) (sym e);
      },
      λ i. ap (λ b. get_or b (i % block_size) 0) (same (i / block_size)),
    )
      where
        empty : (b : List ℕ) → length b ≡ 0 → [] ≡ b
        empty [] z = refl
        empty (x ∷ b) z = absurd (omega arith)

        opens : (m : ℕ) → opened s m ≡ ok (plain m)
        opens m = elim (Bool-cases (ltb (m * block_size) (under.size s.stream))) [
          | inl there ↦ rw there (o m (omega (arith, e, ltb→lt _ _ there)))
          | inr behind ↦
              rw behind (ap ok (empty (plain m) (omega (arith, h m, e, ltb→ge _ _ behind))))
        ]

        same : (m : ℕ) → plain_block s m ≡ plain m
        same m = ap bytes_of (opens m)

    -- A block is read as it is decrypted.
    pub read_block_lem :
        (s : CryptStream D M R) (n : ℕ)
        → HasRoom
        → IsCryptFile s
        → n * block_size < crypt_limit
        → read_block under metas random options s n
          ≡ ok (
              segment
                (crypt_byte s)
                (n * block_size)
                (min block_size (size under metas random options s - n * block_size)))
    unfolding read_block size
    read_block_lem s n room v l =
        let few = block_number_fits pos n l in
        let within = block_fits n few in
        let word : u64 (n * block_size) ≡ n * block_size =
          mod-eq_of_lt (omega (arith, room.for_data, above.limit_fits)) in
        let input =
          above.read_returns s.stream (n * block_size) block_size v.valid
            (omega (arith, room.for_data)) in
        rw (word, input)
          (elim (Bool-cases (ltb (n * block_size) (under.size s.stream))) [
            | inr behind ↦
                let none : min block_size (under.size s.stream - n * block_size) ≡ 0 =
                  omega (arith, ltb→ge _ _ behind) in
                rw none (unfold segment in refl)
            | inl there ↦
                rw
                  (length-segment (above.byte s.stream) (n * block_size)
                    (min block_size (under.size s.stream - n * block_size)))
                  (rw
                    (pos→== (min block_size (under.size s.stream - n * block_size))
                      (omega (arith, ltb→lt _ _ there)))
                    (decrypted s n room v few (ltb→lt _ _ there)
                      ∙ ap ok (
                          pieces-segment block_size pos (plain_block s) (under.size s.stream) n
                            v.lengths)))
          ])
