-- ===== src/BtreeDir/Pages/FreeList.antt =====
-- The list of free pages of a directory, as a stack.
use native.Mathlib.Nat.{mod-eq_of_lt}
use securefs.Prelude.{
  ℕ, ◌+◌, ◌-◌, ◌*◌, ◌^◌, ◌≤◌, ◌<◌, ◌≡◌, ◌≢◌, ◌⊎◌, inl, inr, refl, ap, sym, ◌∙◌, false, List, [],
  ◌∷◌, ◌++◌, length, min, replicate, u32, ◌==◌, ltb, All, length-append, length-replicate,
  drop-append_at, segment, segment_ext, eq→==, ==→eq, ltb→lt, ltb→ge, Bool-cases, arith,
}
use securefs.Error.{ok}
use securefs.Endian.{to_little_endian, from_little_endian}
use securefs.Endian.RoundTrip.{
  from_little_endian-to_little_endian_four, length-to_little_endian_four,
}
use securefs.Stream.{StreamOps, StreamLaws, written}
use securefs.Stream.Crypt.RoundTrip.{read-written_at}
use securefs.BtreeDir.Pages.{
  invalid_page, FreePage, Dir, page_bytes, read_free_page, write_free_page, detach, allocate_page,
  attach, deallocate_page,
}

length-page_bytes : (fp : FreePage) → length (page_bytes fp) ≡ 4096
length-page_bytes fp =
    let r = length-replicate {A = ℕ} 4084 0 in
    let p = length-to_little_endian_four fp.prev in
    let n = length-to_little_endian_four fp.next in
    omega (
      arith,
      r,
      p,
      n,
      length-append (to_little_endian 4 fp.prev) (replicate 4084 0),
      length-append (to_little_endian 4 fp.next) (to_little_endian 4 fp.prev ++ replicate 4084 0),
    )

zero_flag : (rest : List ℕ) → from_little_endian 4 (replicate 4 0 ++ rest) ≡ 0
unfolding to_little_endian
zero_flag rest = from_little_endian-to_little_endian_four 0 rest (omega arith)

module _ {S : Type 0} {under : StreamOps S} (laws : StreamLaws under) where
  -- A page that lies in the file, at a place that 32 bits can say.
  abbrev pub InFile : Dir S → ℕ → Type 0
  InFile s p = (p < 2 ^ 20) × (p * 4096 + 4096 ≤ under.size s.stream)

  place : (p : ℕ) → p < 2 ^ 20 → (u32 (p * 4096) ≡ p * 4096) × (u32 (4096 * p) ≡ p * 4096)
  place p h = (mod-eq_of_lt (omega arith), mod-eq_of_lt (omega arith) ∙ omega arith)

  -- What a write of a free page leaves: the page is read as it was written, others as before.
  pub record Wrote (s s' : Dir S) (p : ℕ) (fp : FreePage) : Type 0 where
    pub valid : laws.Valid s'.stream
    pub sized : under.size s'.stream ≡ under.size s.stream
    pub here : read_free_page under s' p ≡ ok fp
    pub elsewhere :
        (q : ℕ)
        → q < 2 ^ 20
        → q ≢ p
        → q * 4096 + 4096 ≤ under.size s.stream
        → read_free_page under s' q ≡ read_free_page under s q

  same_read :
      (s s' : Dir S) (q : ℕ)
      → u32 (q * 4096) ≡ q * 4096
      → under.read s'.stream (q * 4096) 4096 ≡ under.read s.stream (q * 4096) 4096
      → read_free_page under s' q ≡ read_free_page under s q
  unfolding read_free_page
  same_read s s' q e h = rw (e, h) refl

  read_written :
      (s : Dir S) (p : ℕ) (fp : FreePage)
      → p < 2 ^ 20
      → fp.next < 2 ^ 32
      → fp.prev < 2 ^ 32
      → under.read s.stream (p * 4096) 4096 ≡ ok (page_bytes fp)
      → read_free_page under s p ≡ ok fp
  unfolding read_free_page
  read_written s p fp h hn hp r =
      rw ((place p h).0, r)
        (rw (length-page_bytes fp) (
          rw
            (zero_flag
              (to_little_endian 4 fp.next ++ (to_little_endian 4 fp.prev ++ replicate 4084 0)))
            (rw
              (
                from_little_endian-to_little_endian_four fp.next
                    (to_little_endian 4 fp.prev ++ replicate 4084 0) hn,
                drop-append_at 4 (to_little_endian 4 fp.next)
                    (to_little_endian 4 fp.prev ++ replicate 4084 0)
                    (length-to_little_endian_four fp.next),
                from_little_endian-to_little_endian_four fp.prev (replicate 4084 0) hp,
              )
              refl)))

  -- Two pages do not meet.
  apart : (p q : ℕ) → q ≢ p → (q * 4096 + 4096 ≤ p * 4096) ⊎ (p * 4096 + 4096 ≤ q * 4096)
  apart p q ne = elim (Bool-cases (ltb q p)) [
    | inl before ↦ inl (omega (arith, ltb→lt _ _ before))
    | inr behind ↦ elim (Bool-cases (q == p)) [
      | inl equal ↦ absurd (ne (==→eq _ _ equal))
      | inr _ ↦ inr (behind_by (ltb→ge _ _ behind))
    ]
  ]
    where
      behind_by : p ≤ q → p * 4096 + 4096 ≤ q * 4096
      behind_by h = omega arith

  outside :
      (s : Dir S) (p q i : ℕ) (bytes : List ℕ)
      → length bytes ≡ 4096
      → (q * 4096 + 4096 ≤ p * 4096) ⊎ (p * 4096 + 4096 ≤ q * 4096)
      → q * 4096 ≤ i
      → i < q * 4096 + 4096
      → written (laws.byte s.stream) (p * 4096) bytes i ≡ laws.byte s.stream i
  outside s p q i bytes n (inl before) h k = ground arith
  outside s p q i bytes n (inr behind) h k = ground arith

  other_read :
      (s : Dir S) (p q : ℕ) (bytes : List ℕ) (after : S)
      → laws.Valid s.stream
      → laws.Valid after
      → length bytes ≡ 4096
      → under.size after ≡ under.size s.stream
      → ((i : ℕ) → laws.byte after i ≡ written (laws.byte s.stream) (p * 4096) bytes i)
      → q ≢ p
      → q * 4096 + 4096 ≤ under.size s.stream
      → under.read after (q * 4096) 4096 ≡ under.read s.stream (q * 4096) 4096
  other_read s p q bytes after v v' n e holds ne iq =
      let fits = laws.size_fits s.stream v in
      laws.read_returns after (q * 4096) 4096 v' (omega arith)
      ∙ ap (λ k. ok (segment (laws.byte after) (q * 4096) k)) same_length
      ∙ ap ok (
          segment_ext (laws.byte after) (laws.byte s.stream) (q * 4096) 4096
            (λ i h k. holds i ∙ outside s p q i bytes n (apart p q ne) h k))
      ∙ ap (λ k. ok (segment (laws.byte s.stream) (q * 4096) k)) old_length
      ∙ sym (laws.read_returns s.stream (q * 4096) 4096 v (omega arith))
    where
      same_length : min 4096 (under.size after - q * 4096) ≡ 4096
      same_length = omega arith

      old_length : 4096 ≡ min 4096 (under.size s.stream - q * 4096)
      old_length = omega arith

  write_free_page_lem :
      (s : Dir S) (p : ℕ) (fp : FreePage)
      → laws.Valid s.stream
      → InFile s p
      → fp.next < 2 ^ 32
      → fp.prev < 2 ^ 32
      → (stream : S) × (write_free_page under s p fp ≡ ok (record s { stream = stream }))
        × Wrote s (record s { stream = stream }) p fp
  unfolding write_free_page
  write_free_page_lem s p fp v (small, inside) hn hp =
      let n = length-page_bytes fp in
      let fits = laws.size_fits s.stream v in
      let b =
        laws.write_returns s.stream (page_bytes fp) (p * 4096) v (omega (arith, n))
          (omega (arith, n)) in
      (
        b.after,
        rw ((place p small).1) (rw b.returns refl),
        record {
          valid = b.valid;
          sized = b.resized ∙ omega (arith, n);
          here =
              read_written (record s { stream = b.after }) p fp small hn hp
                (read-written_at laws {n = 4096} b (omega (arith, n)) n);
          elsewhere = λ q hq ne iq.
              same_read s (record s { stream = b.after }) q (place q hq).0
                (other_read s p q (page_bytes fp) b.after v b.valid n (b.resized ∙ omega (arith, n))
                  b.holds ne iq);
        },
      )

  -- The pages `pages` are linked from `start` on, each with its predecessor; they are distinct, and in
  -- the file.
  abbrev pub Linked : Dir S → ℕ → ℕ → List ℕ → Type 0
  Linked s prev start [] = start ≡ invalid_page
  Linked s prev start (p ∷ pages) =
      (start ≡ p)
      × InFile s p
      × All (λ q. q ≢ p) pages
      × ((next : ℕ) × (read_free_page under s p ≡ ok (record { next = next; prev = prev }))
          × Linked s p next pages)

  start_fits :
      (s : Dir S) (prev start : ℕ) (pages : List ℕ) → Linked s prev start pages → start < 2 ^ 32
  start_fits s prev start [] h = omega (arith, h)
  start_fits s prev start (p ∷ pages) h = omega (arith, h.0, h.1.0)

  -- The links stay where the pages are read as before.
  Linked-through :
      (s s' : Dir S) (prev start p : ℕ) (pages : List ℕ) (fp : FreePage)
      → Wrote s s' p fp
      → All (λ q. q ≢ p) pages
      → Linked s prev start pages
      → Linked s' prev start pages
  Linked-through s s' prev start p [] fp w ne h = h
  Linked-through s s' prev start p (q ∷ pages) fp w (n, ne)
        (e, (small, inside), distinct, (next, r, rest)) =
      (
        e,
        (small, omega (arith, w.sized)),
        distinct,
        (next, w.elsewhere q small n inside ∙ r, Linked-through s s' q next p pages fp w ne rest),
      )

  -- The links do not depend on the fields of the header.
  Linked-fields :
      (s : Dir S) (a b prev start : ℕ) (pages : List ℕ)
      → Linked s prev start pages
      → Linked (record s { start_free_page = a; num_free_page = b }) prev start pages
  unfolding read_free_page
  Linked-fields s a b prev start [] h = h
  Linked-fields s a b prev start (p ∷ pages) (e, i, d, (next, r, rest)) =
      (e, i, d, (next, r, Linked-fields s a b p next pages rest))

  attach_some :
      (s s' : Dir S) (prev : ℕ) (fp : FreePage)
      → (s.start_free_page == invalid_page) ≡ false
      → read_free_page under s s.start_free_page ≡ ok fp
      → write_free_page under s s.start_free_page (record fp { prev = prev }) ≡ ok s'
      → attach under s prev ≡ ok s'
  unfolding attach
  attach_some s s' prev fp t r w = rw (t, r) w

  attach_none :
      (s : Dir S) (prev : ℕ) → s.start_free_page ≡ invalid_page → attach under s prev ≡ ok s
  unfolding attach
  attach_none s prev e = rw (eq→== s.start_free_page invalid_page e) refl

  -- The first page of a list gets another predecessor.
  attach_lem :
      (s : Dir S) (old prev p : ℕ) (pages : List ℕ)
      → laws.Valid s.stream
      → prev < 2 ^ 32
      → Linked s old s.start_free_page (p ∷ pages)
      → (stream : S) × (next : ℕ) × (attach under s prev ≡ ok (record s { stream = stream }))
        × Wrote s (record s { stream = stream }) p (record { next = next; prev = prev })
        × Linked (record s { stream = stream }) prev s.start_free_page (p ∷ pages)
  attach_lem s old prev p pages v fits (e, (small, inside), distinct, (next, r, rest)) =
      let fp : FreePage = record { next = next; prev = prev } in
      let (stream, eq, w) =
        write_free_page_lem s p fp v (small, inside) (start_fits s p next pages rest) fits in
      (
        stream,
        next,
        attach_some s (record s { stream = stream }) prev (record { next = next; prev = old }) other
            (ap (read_free_page under s) e ∙ r) (ap (λ k. write_free_page under s k fp) e ∙ eq),
        w,
        (
          e,
          (small, omega (arith, w.sized)),
          distinct,
          (
            next,
            w.here,
            Linked-through s (record s { stream = stream }) p next p pages fp w distinct rest,
          ),
        ),
      )
    where
      other : (s.start_free_page == invalid_page) ≡ false
      other = ground arith

  deallocate_steps :
      (s s1 s2 : Dir S) (num : ℕ)
      → InFile s num
      → write_free_page under s num (record { next = s.start_free_page; prev = invalid_page })
        ≡ ok s1
      → attach under s1 num ≡ ok s2
      → deallocate_page under s num
        ≡ ok (record s2 { start_free_page = num; num_free_page = u32 (s2.num_free_page + 1) })
  unfolding deallocate_page
  deallocate_steps s s1 s2 num (small, inside) w a = rw (inner, w) (rw a refl)
    where
      inner : (u32 (num * 4096) == under.size s.stream) ≡ false
      inner = ground (arith, (place num small).0)

  -- A page of the file that is not free becomes the first of the list, and the file keeps its size.
  pub deallocate_page_lem :
      (s : Dir S) (num : ℕ) (pages : List ℕ)
      → laws.Valid s.stream
      → Linked s invalid_page s.start_free_page pages
      → InFile s num
      → All (λ q. q ≢ num) pages
      → (s' : Dir S) × (deallocate_page under s num ≡ ok s')
        × laws.Valid s'.stream
        × Linked s' invalid_page s'.start_free_page (num ∷ pages)
        × (under.size s'.stream ≡ under.size s.stream)
        × (s'.num_free_page ≡ u32 (s.num_free_page + 1))
  deallocate_page_lem s num [] v h (small, inside) others =
      let count = u32 (s.num_free_page + 1) in
      let (stream, eq, w) =
        write_free_page_lem s num (record { next = s.start_free_page; prev = invalid_page }) v
          (small, inside) (omega (arith, h)) (omega arith) in
      let s1 : Dir S = record s { stream = stream } in
      (
        record s1 { start_free_page = num; num_free_page = count },
        deallocate_steps s s1 s1 num (small, inside) eq (attach_none s1 num h),
        w.valid,
        Linked-fields s1 num count invalid_page num (num ∷ [])
            (refl, (small, omega (arith, w.sized)), tt, (s.start_free_page, w.here, h)),
        w.sized,
        refl,
      )
  deallocate_page_lem s num (p ∷ pages) v h (small, inside) (n, others) =
      let count = u32 (s.num_free_page + 1) in
      let first : FreePage = record { next = s.start_free_page; prev = invalid_page } in
      let (stream, eq, w) =
        write_free_page_lem s num first v (small, inside)
          (start_fits s invalid_page s.start_free_page (p ∷ pages) h) (omega arith) in
      let s1 : Dir S = record s { stream = stream } in
      let h1 =
        Linked-through s s1 invalid_page s.start_free_page num (p ∷ pages) first w (n, others) h in
      let (stream', next, eq', w', h2) =
        attach_lem s1 invalid_page num p pages w.valid (omega arith) h1 in
      let s2 : Dir S = record s { stream = stream' } in
      (
        record s2 { start_free_page = num; num_free_page = count },
        deallocate_steps s s1 s2 num (small, inside) eq eq',
        w'.valid,
        Linked-fields s2 num count invalid_page num (num ∷ p ∷ pages) (
          refl,
          (small, omega (arith, w.sized, w'.sized)),
          (n, others),
          (
            s.start_free_page,
            w'.elsewhere num small (λ e. n (sym e)) (omega (arith, w.sized)) ∙ w.here,
            h2,
          ),
        ),
        w'.sized ∙ w.sized,
        refl,
      )

  in_list :
      (s : Dir S) (p : ℕ)
      → s.start_free_page ≡ p
      → p < 2 ^ 20
      → (s.start_free_page == invalid_page) ≡ false
  in_list s p e h = ground arith

  allocate_steps :
      (s s' : Dir S) (fp : FreePage)
      → (s.start_free_page == invalid_page) ≡ false
      → read_free_page under s s.start_free_page ≡ ok fp
      → attach under
          (record s {
            num_free_page = u32 (s.num_free_page + (2 ^ 32 - 1));
            start_free_page = fp.next;
          })
          invalid_page
        ≡ ok s'
      → allocate_page under s ≡ ok (s.start_free_page, s')
  unfolding allocate_page detach attach
  allocate_steps s s' fp t r a = rw (t, r) (rw a refl)

  -- The first page of the list is handed out, and the list is the rest.
  pub allocate_page_lem :
      (s : Dir S) (p : ℕ) (pages : List ℕ)
      → laws.Valid s.stream
      → Linked s invalid_page s.start_free_page (p ∷ pages)
      → (s' : Dir S) × (allocate_page under s ≡ ok (p, s'))
        × laws.Valid s'.stream
        × Linked s' invalid_page s'.start_free_page pages
        × (under.size s'.stream ≡ under.size s.stream)
        × (s'.num_free_page ≡ u32 (s.num_free_page + (2 ^ 32 - 1)))
  allocate_page_lem s p [] v (e, (small, inside), distinct, (next, r, rest)) =
      let s1 : Dir S = record s {
        num_free_page = u32 (s.num_free_page + (2 ^ 32 - 1));
        start_free_page = next;
      } in
      (
        s1,
        allocate_steps s s1 (record { next = next; prev = invalid_page }) (in_list s p e small)
              (ap (read_free_page under s) e ∙ r) (attach_none s1 invalid_page rest)
            ∙ ap (λ k. ok (k, s1)) e,
        v,
        rest,
        refl,
        refl,
      )
  allocate_page_lem s p (q ∷ pages) v (e, (small, inside), distinct, (next, r, rest)) =
      let count = u32 (s.num_free_page + (2 ^ 32 - 1)) in
      let s1 : Dir S = record s { num_free_page = count; start_free_page = next } in
      let (stream, _, eq, w, h) =
        attach_lem s1 p invalid_page q pages v (omega arith)
          (Linked-fields s next count p next (q ∷ pages) rest) in
      let s2 : Dir S = record s1 { stream = stream } in
      (
        s2,
        allocate_steps s s2 (record { next = next; prev = invalid_page }) (in_list s p e small)
              (ap (read_free_page under s) e ∙ r) eq
            ∙ ap (λ k. ok (k, s2)) e,
        w.valid,
        h,
        w.sized,
        refl,
      )
