-- ===== src/Stream/Hmac/Check.antt =====
-- The MAC of an HMACStream: what run_mac covers, what the constructor finds, and what flush leaves.
use native.Mathlib.Nat.{mod-eq_of_lt}
use securefs.Prelude.{
  ℕ, suc, zero, ◌+◌, ◌-◌, ◌≤◌, ◌<◌, ◌≡◌, ◌==◌, refl, ap, sym, ◌∙◌, inl, inr, Bool, true, false,
  List, ◌++◌, [], length, min, max, u64, ltb, same, same_refl, if◌then◌else◌, ltb→ge, Bool-cases,
  ==→eq, segment, segment_ext, segment-append, segment-zero, list_ext, length-segment,
  get_or-segment, arith,
}
use securefs.Error.{Result, ok, throw, ◌>>=◌, invalid_hmac_stream}
use securefs.Stream.{StreamOps, StreamLaws, written}
use securefs.Stream.Hmac.{HmacStream, hmac_length, run_loop, run_mac, check_hmac, hmac_open, flush}

module _ {T : Type 0} {under : StreamOps T} (below : StreamLaws under)
    (hmac : List ℕ → List ℕ → List ℕ) where
  abbrev pub signed : T → List ℕ
  signed stream = segment (below.byte stream) hmac_length (under.size stream - hmac_length)

  -- What a round does with the `n` bytes that it reads.
  abbrev after_chunk : ℕ → T → ℕ → List ℕ → ℕ → Bool → Result (List ℕ)
  after_chunk fuel stream off chunk n none = elim none [
    | true ↦ ok []
    | false ↦ (run_loop under hmac fuel stream (u64 (off + n)) >>= λ rest. ok (chunk ++ rest))
  ]

  run_loop_round :
      (fuel : ℕ) (stream : T) (off : ℕ)
      → below.Valid stream
      → off + 4096 ≤ below.limit
      → run_loop under hmac (suc fuel) stream off
        ≡ after_chunk fuel stream off
            (segment (below.byte stream) off (min 4096 (under.size stream - off)))
            (min 4096 (under.size stream - off))
            (min 4096 (under.size stream - off) == 0)
  unfolding run_loop
  run_loop_round fuel stream off v h = rw (below.read_returns stream off 4096 v h) (
      ap
        (λ n.
          after_chunk fuel stream off
            (segment (below.byte stream) off (min 4096 (under.size stream - off))) n (n == 0))
        (length-segment (below.byte stream) off (min 4096 (under.size stream - off))))

  run_loop_lem :
      (fuel : ℕ) (stream : T) (off : ℕ)
      → below.Valid stream
      → under.size stream - off < fuel
      → off + 4096 ≤ below.limit
      → under.size stream + 4096 ≤ below.limit
      → run_loop under hmac fuel stream off
        ≡ ok (segment (below.byte stream) off (under.size stream - off))
  run_loop_lem zero stream off v f h l = absurd (omega arith)
  run_loop_lem (suc fuel) stream off v f h l =
      let n = min 4096 (under.size stream - off) in
      elim (Bool-cases (min 4096 (under.size stream - off) == 0)) [
        | inl none ↦
            run_loop_round fuel stream off v h
            ∙ rw none (
                ap ok (
                  sym (
                    segment-zero (below.byte stream) off (under.size stream - off)
                      (omega (arith, ==→eq _ _ none)))))
        | inr some ↦
            run_loop_round fuel stream off v h
            ∙ rw some (
                next (ground arith) (λ pos lt.
                  run_loop_lem fuel stream (off + min 4096 (under.size stream - off)) v
                    (omega arith) (omega arith) l))
      ]
    where
      next :
          0 < min 4096 (under.size stream - off)
          → (0 < min 4096 (under.size stream - off)
              → off + min 4096 (under.size stream - off) ≤ under.size stream
              → run_loop under hmac fuel stream (off + min 4096 (under.size stream - off))
                ≡ ok (
                    segment
                      (below.byte stream)
                      (off + min 4096 (under.size stream - off))
                      (under.size stream - (off + min 4096 (under.size stream - off)))))
          → after_chunk fuel stream off
              (segment (below.byte stream) off (min 4096 (under.size stream - off)))
              (min 4096 (under.size stream - off))
              false
            ≡ ok (segment (below.byte stream) off (under.size stream - off))
      next pos ih =
          let fits = below.limit_fits in
          let e : u64 (off + min 4096 (under.size stream - off))
              ≡ off + min 4096 (under.size stream - off) =
            mod-eq_of_lt (omega arith) in
          rw (e, ih pos (omega arith))
            (ap ok (
              segment-append (below.byte stream) off (min 4096 (under.size stream - off))
                (under.size stream - (off + min 4096 (under.size stream - off)))
              ∙ ap (segment (below.byte stream) off) (omega arith)))

  -- run_mac covers the id and every byte behind the MAC, whatever the number of rounds.
  pub run_mac_lem :
      (s : HmacStream T)
      → below.Valid s.stream
      → hmac_length + 4096 ≤ below.limit
      → under.size s.stream + 4096 ≤ below.limit
      → run_mac under hmac s ≡ ok (s.id ++ signed s.stream)
  unfolding run_mac
  run_mac_lem s v h l =
      rw (run_loop_lem (under.size s.stream + 1) s.stream hmac_length v (omega arith) h l) refl

  -- What the constructor is to make of a file.
  abbrev pub verdict : HmacStream T → Result (HmacStream T)
  verdict s =
      if under.size s.stream == 0
      then ok s
      else if ltb (under.size s.stream) hmac_length
      then throw invalid_hmac_stream
      else if same (hmac s.key (s.id ++ signed s.stream))
          (segment (below.byte s.stream) 0 hmac_length)
      then ok s
      else throw invalid_hmac_stream

  check_hmac_lem :
      (s : HmacStream T) (n : ℕ) (message : List ℕ)
      → run_mac under hmac s ≡ ok message
      → n ≡ min hmac_length (under.size s.stream)
      → check_hmac under hmac s (segment (below.byte s.stream) 0 n) ≡ (
          if under.size s.stream == 0
          then ok s
          else if ltb (under.size s.stream) hmac_length
          then throw invalid_hmac_stream
          else if same (hmac s.key message) (segment (below.byte s.stream) 0 hmac_length)
          then ok s
          else throw invalid_hmac_stream)
  unfolding check_hmac
  check_hmac_lem s n message e h = elim (Bool-cases (under.size s.stream == 0)) [
    | inl empty ↦ ground (arith, length-segment (below.byte s.stream) 0 n)
    | inr _ ↦ elim (Bool-cases (ltb (under.size s.stream) hmac_length)) [
      | inl short ↦ ground (arith, length-segment (below.byte s.stream) 0 n)
      | inr long ↦ full (omega (arith, ltb→ge _ _ long)) (ltb→ge _ _ long)
    ]
  ]
    where
      full :
          n ≡ 32
          → 32 ≤ under.size s.stream
          → check_hmac under hmac s (segment (below.byte s.stream) 0 n) ≡ (
              if under.size s.stream == 0
              then ok s
              else if ltb (under.size s.stream) hmac_length
              then throw invalid_hmac_stream
              else if same (hmac s.key message) (segment (below.byte s.stream) 0 hmac_length)
              then ok s
              else throw invalid_hmac_stream)
      full k long = rw (k, e) (ground (arith, length-segment (below.byte s.stream) 0 32))

  -- The constructor, with the check, takes a file that is empty or has the MAC of its bytes, and
  -- refuses one that is too short for a MAC or has another.
  pub hmac_open_lem :
      (key id : List ℕ) (stream : T)
      → below.Valid stream
      → hmac_length + 4096 ≤ below.limit
      → under.size stream + 4096 ≤ below.limit
      → hmac_open under hmac key id stream true
        ≡ verdict (record { key = key; id = id; stream = stream; is_dirty = false })
  unfolding hmac_open
  hmac_open_lem key id stream v h l =
      let s : HmacStream T = record { key = key; id = id; stream = stream; is_dirty = false } in
      rw (below.read_returns stream 0 hmac_length v (omega arith)) (
        check_hmac_lem s (min hmac_length (under.size stream - 0)) (id ++ signed stream)
          (run_mac_lem s v h l) (omega arith))

  -- The signed bytes are those behind the MAC, so a write of the MAC leaves them.
  signed-written :
      (before after : T) (mac : List ℕ)
      → length mac ≡ hmac_length
      → under.size after ≡ max (under.size before) hmac_length
      → ((i : ℕ) → below.byte after i ≡ written (below.byte before) 0 mac i)
      → signed after ≡ signed before
  signed-written before after mac l e h =
      ap (segment (below.byte after) hmac_length) (omega arith)
      ∙ segment_ext (below.byte after) (below.byte before) hmac_length
          (under.size before - hmac_length) λ i p q. ground (arith, h i)

  verdict-signed :
      (s : HmacStream T)
      → hmac_length ≤ under.size s.stream
      → hmac s.key (s.id ++ signed s.stream) ≡ segment (below.byte s.stream) 0 hmac_length
      → verdict s ≡ ok s
  verdict-signed s h e =
      rw e (ground (arith, same_refl (segment (below.byte s.stream) 0 hmac_length)))

  -- What flush leaves is accepted by the constructor, with all the bytes behind the MAC as they were.
  pub hmac_open-flush :
      (s : HmacStream T)
      → below.Valid s.stream
      → hmac_length + 4096 ≤ below.limit
      → under.size s.stream + 4096 ≤ below.limit
      → ((key text : List ℕ) → length (hmac key text) ≡ hmac_length)
      → s.is_dirty ≡ true
      → (s' : HmacStream T) × (flush under hmac s ≡ ok s')
        × (hmac_open under hmac s.key s.id s'.stream true ≡ ok s')
        × below.Valid s'.stream
        × (signed s'.stream ≡ signed s.stream)
  unfolding flush
  hmac_open-flush s v h l digest dirty =
      let mac = hmac s.key (s.id ++ signed s.stream) in
      let n = digest s.key (s.id ++ signed s.stream) in
      let b = below.write_returns s.stream mac 0 v (omega arith) (omega arith) in
      let s' : HmacStream T = record s { stream = b.after; is_dirty = false } in
      let size' : under.size b.after ≡ max (under.size s.stream) hmac_length =
        omega (arith, b.resized) in
      let kept = signed-written s.stream b.after mac n size' b.holds in
      let mac_again : hmac s.key (s.id ++ signed b.after)
          ≡ segment (below.byte b.after) 0 hmac_length =
        ap (λ bytes. hmac s.key (s.id ++ bytes)) kept
        ∙ sym (
            list_ext _ _ 0 (omega (arith, n, length-segment (below.byte b.after) 0 hmac_length))
              λ i p. ground (
                arith,
                get_or-segment (below.byte b.after) 0 hmac_length i,
                length-segment (below.byte b.after) 0 hmac_length,
                b.holds i,
                n,
              )) in
      (
        s',
        rw (run_mac_lem s v h l, dirty, b.returns) refl,
        hmac_open_lem s.key s.id b.after b.valid h (omega (arith, size'))
            ∙ verdict-signed s' (omega (arith, size')) mac_again,
        b.valid,
        kept,
      )
