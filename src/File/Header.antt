-- ===== src/File/Header.antt =====
-- The header of a file (sources/files.cpp), written by flush and read by the constructor.
use securefs.Prelude.{
  ℕ, ◌^◌, ◌≡◌, ◌<◌, ◌≤◌, refl, ap, ap₂, sym, ◌∙◌, subst, inl, inr, Bool, true, false, List, [], ◌∷◌,
  length, drop, overlay, Bool-cases,
}
use securefs.Error.{ok}
use securefs.Endian.{to_little_endian, from_little_endian}
use securefs.Endian.RoundTrip.{
  from_little_endian-to_little_endian_four, from_little_endian-to_little_endian_eight,
}
use securefs.File.{
  Timespec, HeaderOps, File, stored_size, write_flags, write_time, read_time, encode_fields,
  encode_header, decode_header, erased, read_header, flush, atime_offset, mtime_offset,
  ctime_offset, btime_offset,
}

-- Numbers that fit in the fields of the header.
abbrev pub TimeFits : Timespec → Type 0
TimeFits t = (t.tv_sec < 2 ^ 64) × (t.tv_nsec < 2 ^ 32)

-- The flags are read from the header, with the times behind them or not.
flags_read :
    (b : Bool) (f0 f1 f2 f3 f4 f5 f6 : ℕ) (ta tm tc tb : Timespec)
    → f0 < 2 ^ 32
    → f1 < 2 ^ 32
    → f2 < 2 ^ 32
    → f3 < 2 ^ 32
    → f4 < 2 ^ 32
    → f5 < 2 ^ 32
    → f6 < 2 ^ 32
    → let header = encode_fields b (f0 ∷ f1 ∷ f2 ∷ f3 ∷ f4 ∷ f5 ∷ f6 ∷ []) ta tm tc tb in
      (from_little_endian 4 (drop 0 header) ≡ f0)
      × (from_little_endian 4 (drop 4 header) ≡ f1)
      × (from_little_endian 4 (drop 8 header) ≡ f2)
      × (from_little_endian 4 (drop 12 header) ≡ f3)
      × (from_little_endian 4 (drop 16 header) ≡ f4)
      × (from_little_endian 4 (drop 20 header) ≡ f5)
      × (from_little_endian 4 (drop 24 header) ≡ f6)
unfolding encode_fields write_flags write_time to_little_endian overlay
flags_read true f0 f1 f2 f3 f4 f5 f6 ta tm tc tb h0 h1 h2 h3 h4 h5 h6 = (
  from_little_endian-to_little_endian_four f0 _ h0,
  from_little_endian-to_little_endian_four f1 _ h1,
  from_little_endian-to_little_endian_four f2 _ h2,
  from_little_endian-to_little_endian_four f3 _ h3,
  from_little_endian-to_little_endian_four f4 _ h4,
  from_little_endian-to_little_endian_four f5 _ h5,
  from_little_endian-to_little_endian_four f6 _ h6,
)
flags_read false f0 f1 f2 f3 f4 f5 f6 ta tm tc tb h0 h1 h2 h3 h4 h5 h6 = (
  from_little_endian-to_little_endian_four f0 _ h0,
  from_little_endian-to_little_endian_four f1 _ h1,
  from_little_endian-to_little_endian_four f2 _ h2,
  from_little_endian-to_little_endian_four f3 _ h3,
  from_little_endian-to_little_endian_four f4 _ h4,
  from_little_endian-to_little_endian_four f5 _ h5,
  from_little_endian-to_little_endian_four f6 _ h6,
)

length-encode_fields :
    (b : Bool) (f0 f1 f2 f3 f4 f5 f6 : ℕ) (ta tm tc tb : Timespec)
    → length (encode_fields b (f0 ∷ f1 ∷ f2 ∷ f3 ∷ f4 ∷ f5 ∷ f6 ∷ []) ta tm tc tb) ≡ stored_size b
unfolding encode_fields write_flags write_time to_little_endian overlay
length-encode_fields true f0 f1 f2 f3 f4 f5 f6 ta tm tc tb = refl
length-encode_fields false f0 f1 f2 f3 f4 f5 f6 ta tm tc tb = refl

time_eq :
    (s s' n n' : ℕ)
    → s ≡ s'
    → n ≡ n'
    → ◌≡◌ {A = Timespec} (record { tv_sec = s; tv_nsec = n }) (record { tv_sec = s'; tv_nsec = n' })
time_eq s s' n n' p q = ap₂ (λ (a b : ℕ). record { tv_sec = a; tv_nsec = b }) p q

times_read :
    (f0 f1 f2 f3 f4 f5 f6 : ℕ) (ta tm tc tb : Timespec)
    → TimeFits ta
    → TimeFits tm
    → TimeFits tc
    → TimeFits tb
    → let header = encode_fields true (f0 ∷ f1 ∷ f2 ∷ f3 ∷ f4 ∷ f5 ∷ f6 ∷ []) ta tm tc tb in
      (read_time header atime_offset ≡ ta)
      × (read_time header mtime_offset ≡ tm)
      × (read_time header ctime_offset ≡ tc)
      × (read_time header btime_offset ≡ tb)
unfolding encode_fields write_flags write_time to_little_endian overlay read_time
times_read f0 f1 f2 f3 f4 f5 f6 ta tm tc tb (sa, an) (ms, mn) (cs, cn) (bs, bn) = (
  time_eq _ ta.tv_sec _ ta.tv_nsec (from_little_endian-to_little_endian_eight ta.tv_sec _ sa)
      (from_little_endian-to_little_endian_four ta.tv_nsec _ an),
  time_eq _ tm.tv_sec _ tm.tv_nsec (from_little_endian-to_little_endian_eight tm.tv_sec _ ms)
      (from_little_endian-to_little_endian_four tm.tv_nsec _ mn),
  time_eq _ tc.tv_sec _ tc.tv_nsec (from_little_endian-to_little_endian_eight tc.tv_sec _ cs)
      (from_little_endian-to_little_endian_four tc.tv_nsec _ cn),
  time_eq _ tb.tv_sec _ tb.tv_nsec (from_little_endian-to_little_endian_eight tb.tv_sec _ bs)
      (from_little_endian-to_little_endian_four tb.tv_nsec _ bn),
)

-- What an object owes to its header: a header that is written is read again.
pub record HeaderLaws {H : Type 0} (headers : HeaderOps H) : Type 1 where
  pub Valid : H → Type 0
  pub max_length : ℕ
  pub reads_written :
      (h : H) (bytes : List ℕ)
      → Valid h
      → length bytes ≤ max_length
      → (h' : H) × (headers.write_header h bytes ≡ ok h')
        × (headers.read_header h' (length bytes) ≡ ok (true, bytes))
        × Valid h'

module _ {H : Type 0} where
  -- The attributes fit in the fields of the header.
  pub record HeaderFits (f : File H) : Type 0 where
    pub mode : f.mode < 2 ^ 32
    pub uid : f.uid < 2 ^ 32
    pub gid : f.gid < 2 ^ 32
    pub nlink : f.nlink < 2 ^ 32
    pub root_page : f.root_page < 2 ^ 32
    pub start_free_page : f.start_free_page < 2 ^ 32
    pub num_free_page : f.num_free_page < 2 ^ 32
    pub atime : TimeFits f.atime
    pub mtime : TimeFits f.mtime
    pub ctime : TimeFits f.ctime
    pub birthtime : TimeFits f.birthtime

  -- Object `g` has the attributes of `f`; the times, where they are stored.
  pub record Recalls (g f : File H) : Type 0 where
    pub mode : g.mode ≡ f.mode
    pub uid : g.uid ≡ f.uid
    pub gid : g.gid ≡ f.gid
    pub nlink : g.nlink ≡ f.nlink
    pub root_page : g.root_page ≡ f.root_page
    pub start_free_page : g.start_free_page ≡ f.start_free_page
    pub num_free_page : g.num_free_page ≡ f.num_free_page
    pub atime : f.store_time ≡ true → g.atime ≡ f.atime
    pub mtime : f.store_time ≡ true → g.mtime ≡ f.mtime
    pub ctime : f.store_time ≡ true → g.ctime ≡ f.ctime
    pub birthtime : f.store_time ≡ true → g.birthtime ≡ f.birthtime

module _ {H : Type 0} (headers : HeaderOps H) where
  times_recalled :
      (f : File H)
      → HeaderFits f
      → f.store_time ≡ true
      → (read_time (encode_header headers f) atime_offset ≡ f.atime)
        × (read_time (encode_header headers f) mtime_offset ≡ f.mtime)
        × (read_time (encode_header headers f) ctime_offset ≡ f.ctime)
        × (read_time (encode_header headers f) btime_offset ≡ f.birthtime)
  unfolding encode_header
  times_recalled f v st = rw st (
      times_read f.mode f.uid f.gid f.nlink f.root_page f.start_free_page f.num_free_page f.atime
        f.mtime f.ctime f.birthtime v.atime v.mtime v.ctime v.birthtime)

  decode-encode :
      (f g : File H)
      → HeaderFits f
      → g.store_time ≡ f.store_time
      → Recalls (decode_header headers g (encode_header headers f)) f
  unfolding decode_header encode_header
  decode-encode f g v e =
      let (p0, p1, p2, p3, p4, p5, p6) =
        flags_read f.store_time f.mode f.uid f.gid f.nlink f.root_page f.start_free_page
          f.num_free_page f.atime f.mtime f.ctime f.birthtime v.mode v.uid v.gid v.nlink v.root_page
          v.start_free_page v.num_free_page in
      elim (Bool-cases g.store_time) [
        | inl stored ↦ rw stored (record {
          mode = p0;
          uid = p1;
          gid = p2;
          nlink = p3;
          root_page = p4;
          start_free_page = p5;
          num_free_page = p6;
          atime = λ st. (times_recalled f v st).0;
          mtime = λ st. (times_recalled f v st).1;
          ctime = λ st. (times_recalled f v st).2;
          birthtime = λ st. (times_recalled f v st).3;
        })
        | inr bare ↦ rw bare (record {
          mode = p0;
          uid = p1;
          gid = p2;
          nlink = p3;
          root_page = p4;
          start_free_page = p5;
          num_free_page = p6;
          atime = λ st. clash (sym bare ∙ e ∙ st);
          mtime = λ st. clash (sym bare ∙ e ∙ st);
          ctime = λ st. clash (sym bare ∙ e ∙ st);
          birthtime = λ st. clash (sym bare ∙ e ∙ st);
        })
      ]
    where
      clash : {P : Type 0} → false ≡ true → P
      clash h = absurd (cc h)

  length-encode_header : (f : File H) → length (encode_header headers f) ≡ stored_size f.store_time
  unfolding encode_header
  length-encode_header f =
      length-encode_fields f.store_time f.mode f.uid f.gid f.nlink f.root_page f.start_free_page
        f.num_free_page f.atime f.mtime f.ctime f.birthtime

  flush_dirty :
      (f : File H) (h : H)
      → f.is_dirty ≡ true
      → headers.write_header f.header (encode_header headers f) ≡ ok h
      → flush headers (λ g. ok g) f ≡ ok (record f { header = h; is_dirty = false })
  unfolding flush
  flush_dirty f h dirty w = rw w (rw dirty refl)

  -- What flush writes is what the constructor reads, into an object that stores times or not as the
  -- old one did.
  pub read_header-flush :
      (laws : HeaderLaws headers) (f g : File H)
      → laws.Valid f.header
      → stored_size f.store_time ≤ laws.max_length
      → HeaderFits f
      → f.is_dirty ≡ true
      → g.store_time ≡ f.store_time
      → (f' : File H) × (flush headers (λ h. ok h) f ≡ ok f')
        × (f'.is_dirty ≡ false)
        × ((g' : File H) × (read_header headers (record g { header = f'.header }) ≡ ok g')
            × Recalls g' f)
  unfolding read_header
  read_header-flush laws f g valid room fits dirty same_kind =
      let n = length-encode_header f in
      let (h, w, r, v') =
        laws.reads_written f.header (encode_header headers f) valid
          (subst (λ k. k ≤ laws.max_length) (sym n) room) in
      let f' : File H = record f { header = h; is_dirty = false } in
      let g0 : File H = record g { header = h } in
      let again : headers.read_header h (stored_size g.store_time)
          ≡ ok (true, encode_header headers f) =
        ap (λ k. headers.read_header h k) (ap (λ b. stored_size b) same_kind ∙ sym n) ∙ r in
      (
        f',
        flush_dirty f h dirty w,
        refl,
        (
          decode_header headers (erased headers g0) (encode_header headers f),
          rw again refl,
          decode-encode f (erased headers g0) fits same_kind,
        ),
      )
