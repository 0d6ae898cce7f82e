-- ===== src/SimpleDir/Saved.antt =====
-- A directory that subflush stores, and the one that initialize makes of the stream.
use native.Mathlib.Nat.{mod-eq_of_lt}
use mathlib.Core.List.{append_assoc, append-nil}
use securefs.Prelude.{
  ℕ, zero, suc, ◌+◌, ◌-◌, ◌*◌, ◌/◌, ◌^◌, ◌≤◌, ◌<◌, ◌≡◌, refl, ap, sym, subst, ◌∙◌, Bool, true,
  false, List, [], ◌∷◌, ◌++◌, length, take, drop, get_or, min, replicate, u32, u64, All,
  length-append, length-replicate, take-append_at, take-append_short, drop-append_at, get_or-append,
  get_or_beyond, list_ext, length-segment, get_or-segment, ge→ltb, arith,
}
use securefs.Error.{ok}
use securefs.Endian.{to_little_endian, from_little_endian}
use securefs.Endian.RoundTrip.{
  from_little_endian-to_little_endian_four, length-to_little_endian_four,
}
use securefs.Stream.{StreamOps, StreamLaws}
use securefs.Text.{c_string}
use securefs.Text.CStrings.{c_string-take}
use securefs.Maps.{find, emplace}
use securefs.Maps.Find.{find-emplace_append}
use securefs.BtreeDir.{name_field}
use securefs.SimpleDir.{
  Value, Dir, record_bytes, initialize_loop, initialize, subflush_loop, subflush,
}

-- What fits in a record: a name of at most 255 codes, none of them 0, an id of 32 bytes, a type of 32 bits.
pub record PairFits (pair : List ℕ × Value) : Type 0 where
  pub name : length pair.0 ≤ 255
  pub codes : All (λ c. 0 < c) pair.0
  pub id : length pair.1.0 ≡ 32
  pub type : pair.1.1 < 2 ^ 32

length-name_field : (name : List ℕ) → length name ≤ 255 → length (name_field name) ≡ 256
unfolding name_field
length-name_field name h = omega (
  arith,
  length-append name (replicate (256 - length name) 0),
  length-replicate {A = ℕ} (256 - length name) 0,
)

length-record_bytes : (pair : List ℕ × Value) → PairFits pair → length (record_bytes pair) ≡ 292
unfolding record_bytes
length-record_bytes (name, (id, type)) f = omega (
  arith,
  length-name_field name f.name,
  length-append (name_field name) (id ++ to_little_endian 4 (u32 type)),
  length-append id (to_little_endian 4 (u32 type)),
  length-to_little_endian_four (u32 type),
  f.id,
)

name_read :
    (name : List ℕ)
    → length name ≤ 255
    → All (λ c. 0 < c) name
    → c_string (take 255 (name_field name)) ≡ name
unfolding name_field
name_read name h codes = c_string-take 255 (256 - length name) name codes h

-- The parts of a record, as initialize reads them.
record_read :
    (pair : List ℕ × Value)
    → PairFits pair
    → (c_string (take 255 (record_bytes pair)) ≡ pair.0)
      × (take 32 (drop 256 (record_bytes pair)) ≡ pair.1.0)
      × (from_little_endian 4 (drop 288 (record_bytes pair)) ≡ pair.1.1)
unfolding record_bytes
record_read (name, (id, type)) f =
    let le = to_little_endian 4 (u32 type) in
    let field = length-name_field name f.name in
    (
      ap c_string (take-append_short 255 (name_field name) (id ++ le) (omega arith))
          ∙ name_read name f.name f.codes,
      rw (drop-append_at 256 (name_field name) (id ++ le) field) (take-append_at 32 id le f.id),
      rw (sym (append_assoc (name_field name) id le)) (
          rw
            (drop-append_at 288 (name_field name ++ id) le
              (omega (arith, field, f.id, length-append (name_field name) id)))
            (ap (λ l. from_little_endian 4 l) (sym (append-nil le))
              ∙ from_little_endian-to_little_endian_four (u32 type) [] (omega arith)
              ∙ mod-eq_of_lt f.type)),
    )

-- The bytes of the records, one after the other.
records : List (List ℕ × Value) → List ℕ
records [] = []
records (pair ∷ table) = record_bytes pair ++ records table

length-records :
    (table : List (List ℕ × Value))
    → All PairFits table
    → length (records table) ≡ 292 * length table
unfolding records
length-records [] a = omega arith
length-records (pair ∷ table) (f, a) = omega (
  arith,
  length-append (record_bytes pair) (records table),
  length-record_bytes pair f,
  length-records table a,
)

module _ {S : Type 0} {under : StreamOps S} (laws : StreamLaws under) where
  -- The file is these bytes.
  record Holds (s : S) (bytes : List ℕ) : Type 0 where
    valid : laws.Valid s
    sized : under.size s ≡ length bytes
    same_bytes : (i : ℕ) → laws.byte s i ≡ get_or bytes i 0

  Holds-write :
      (s : S) (before bytes : List ℕ)
      → Holds s before
      → 0 < length bytes
      → length before + length bytes ≤ laws.limit
      → (s' : S) × (under.write s bytes (length before) ≡ ok s') × Holds s' (before ++ bytes)
  Holds-write s before bytes h some_bytes room =
      let b = laws.write_returns s bytes (length before) h.valid some_bytes room in
      (
        b.after,
        b.returns,
        record {
          valid = b.valid;
          sized = b.resized ∙ omega (arith, h.sized, length-append before bytes);
          same_bytes = λ i.
              b.holds i
              ∙ ground (
                arith,
                h.same_bytes i,
                get_or-append i before bytes 0,
                get_or_beyond i before 0,
                get_or_beyond (i - length before) bytes 0,
              );
        },
      )

  Holds-read :
      (s : S) (before here behind : List ℕ)
      → Holds s (before ++ (here ++ behind))
      → length here ≡ 292
      → length before + 292 ≤ laws.limit
      → under.read s (length before) 292 ≡ ok here
  Holds-read s before here behind h n room =
      let size = length-append before (here ++ behind) in
      let size' = length-append here behind in
      laws.read_returns s (length before) 292 h.valid room
      ∙ ap ok (
          list_ext _ here 0 (length-segment (laws.byte s) _ _ ∙ omega (arith, h.sized)) (λ i hi.
            get_or-segment (laws.byte s) (length before) _ i
            ∙ ground (
              arith,
              h.sized,
              size,
              size',
              length-segment (laws.byte s) (length before) (min 292 (under.size s - length before)),
              h.same_bytes (length before + i),
              get_or-append (length before + i) before (here ++ behind) 0,
              get_or-append (length before + i - length before) here behind 0,
            )))

  subflush_loop_lem :
      (s : S) (before : List ℕ) (table : List (List ℕ × Value))
      → Holds s before
      → All PairFits table
      → length before + 292 * length table ≤ laws.limit
      → (s' : S) × (subflush_loop under s (length before) table ≡ ok s')
        × Holds s' (before ++ records table)
  unfolding subflush_loop records
  subflush_loop_lem s before [] h a room = (s, refl, rw (append-nil before) h)
  subflush_loop_lem s before (pair ∷ table) h (f, a) room =
      let n = length-record_bytes pair f in
      let (s', wrote, h') =
        Holds-write s before (record_bytes pair) h (omega arith) (omega arith) in
      let end = length-append before (record_bytes pair) in
      let (s'', wrote', h'') =
        subflush_loop_lem s' (before ++ record_bytes pair) table h' a (omega arith) in
      let next : u64 (length before + 292) ≡ length (before ++ record_bytes pair) =
        mod-eq_of_lt (omega (arith, laws.limit_fits)) ∙ omega arith in
      (
        s'',
        rw (ge→ltb 255 (length pair.0) f.name, wrote, next) wrote',
        rw (sym (append_assoc before (record_bytes pair) (records table))) h'',
      )

  -- A round of initialize that finds a record.
  initialize_round :
      (fuel : ℕ) (s : S) (off : ℕ) (acc : List (List ℕ × Value)) (pair : List ℕ × Value)
      → PairFits pair
      → under.read s off 292 ≡ ok (record_bytes pair)
      → initialize_loop under (suc fuel) s off acc
        ≡ initialize_loop under fuel s (u64 (off + 292)) (emplace acc pair.0 pair.1)
  unfolding initialize_loop
  initialize_round fuel s off acc pair f read =
      let parts = record_read pair f in
      rw (read, length-record_bytes pair f, parts.0, parts.1, parts.2) refl

  initialize_loop_lem :
      (fuel : ℕ) (s : S) (before : List ℕ) (table acc : List (List ℕ × Value))
      → Holds s (before ++ records table)
      → All PairFits table
      → length table < fuel
      → length before + 292 * length table + 292 ≤ laws.limit
      → (acc' : List (List ℕ × Value)) × (initialize_loop under fuel s (length before) acc
          ≡ ok acc')
        × ((k : List ℕ) → find acc' k ≡ find (acc ++ table) k)
  unfolding initialize_loop records
  initialize_loop_lem zero s before table acc h a enough room = absurd (omega arith)
  initialize_loop_lem (suc fuel) s before [] acc h a enough room =
      let none_left : min 292 (under.size s - length before) ≡ 0 =
        omega (arith, h.sized, length-append before []) in
      (
        acc,
        rw
            (
              laws.read_returns s (length before) 292 h.valid (omega arith),
              length-segment (laws.byte s) (length before) (min 292 (under.size s - length before)),
              none_left,
            )
            refl,
        λ k. ap (λ l. find l k) (sym (append-nil acc)),
      )
  initialize_loop_lem (suc fuel) s before (pair ∷ table) acc h (f, a) enough room =
      let n = length-record_bytes pair f in
      let end = length-append before (record_bytes pair) in
      let next : u64 (length before + 292) ≡ length (before ++ record_bytes pair) =
        mod-eq_of_lt (omega (arith, laws.limit_fits)) ∙ omega arith in
      let h' =
        subst (λ l. Holds s l) (sym (append_assoc before (record_bytes pair) (records table))) h in
      let (acc', read, same_found) =
        initialize_loop_lem fuel s (before ++ record_bytes pair) table (emplace acc pair.0 pair.1)
          h' a (omega arith) (omega arith) in
      (
        acc',
        initialize_round fuel s (length before) acc pair f
              (Holds-read s before (record_bytes pair) (records table) h n (omega arith))
            ∙ ap (λ off. initialize_loop under fuel s off (emplace acc pair.0 pair.1)) next
            ∙ read,
        λ k. same_found k ∙ find-emplace_append acc table pair.0 pair.1 k,
      )

  Holds-resize : (s : S) → laws.Valid s → (s' : S) × (under.resize s 0 ≡ ok s') × Holds s' []
  Holds-resize s v =
      let b = laws.resize_returns s 0 v (omega arith) in
      (
        b.after,
        b.returns,
        record { valid = b.valid; sized = b.resized; same_bytes = λ i. b.holds i ∙ ground arith },
      )

  -- A directory that was changed is stored by subflush, if its stream may hold its records and one
  -- more, and then counts as unchanged. The constructor makes of this stream a directory that has
  -- the same entry, or none, under every name.
  pub initialize-subflush :
      (d : Dir S) (unset : Bool)
      → laws.Valid d.stream
      → d.dirty ≡ true
      → All PairFits d.table
      → 292 * length d.table + 292 ≤ laws.limit
      → (d' : Dir S) × (subflush under d ≡ ok d')
        × (d'.dirty ≡ false)
        × (d'' : Dir S) × (initialize under d'.stream unset ≡ ok d'')
        × ((name : List ℕ) → find d''.table name ≡ find d.table name)
  unfolding subflush initialize
  initialize-subflush d unset v changed fits room =
      let (emptied, emptying, h) = Holds-resize d.stream v in
      let (s, stored, h') = subflush_loop_lem emptied [] d.table h fits (omega arith) in
      let n = length-records d.table fits in
      let (table, read, same_found) =
        initialize_loop_lem (under.size s / 292 + 1) s [] d.table [] h' fits
          (omega (arith, h'.sized)) (omega arith) in
      (
        record d { stream = s; dirty = false },
        rw (changed, emptying, stored) refl,
        refl,
        record { stream = s; table = table; dirty = unset },
        rw read refl,
        same_found,
      )
