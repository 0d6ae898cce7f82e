-- ===== src/FileTable/Invariant.antt =====
-- The cache of the file table: its queue of idle objects, and the calls that change it.
use securefs.Prelude.{
  Option-cases, ℕ, ◌+◌, ◌-◌, ◌≡◌, ◌≤◌, ◌<◌, refl, ap, sym, ◌∙◌, ◌≢◌, subst, inl, inr, Bool, false,
  ◌||◌, not, List, [], ◌∷◌, ◌++◌, Option, none, some, length, take, drop, All, same, min, leb, ◌==◌,
  leb→le, leb→gt, length-drop, length-append, same→eq, if◌then◌else◌, Bool-cases, arith,
}
use mathlib.Core.Option.{some-injective, none-ne-some}
use securefs.Error.{Result, ok, throw, undefined, stuck, invalid_argument}
use securefs.FileTable.{
  FileId, FileOps, FileTableIo, Entry, Handle, Table, max_num_closed, num_eject, erase_all, remove,
  enter, open_as, create_as, eject, gc, finalize, release, close, Call, open_call, create_call,
  close_call, gc_call, step, run,
}
use securefs.Maps.{find, erase, assign, emplace}
use securefs.FileTable.Keys.{
  find-erase_all_other, Distinct, All-remove, Distinct-remove, Distinct-drop, apart-take-drop,
  Distinct-append, length-remove,
}
use securefs.Maps.Find.{find-erase_other, find-assign_other, find-assign, find-emplace_other}
use securefs.Prelude.Predicates.{All-drop, All-append, All-map, All-map₂}

module _ {F : Type 0} where
  -- No handle of the object is open.
  abbrev pub Idle : List (FileId × Entry F) → FileId → Type 0
  Idle files id = (e : Entry F) × (find files id ≡ some e) × (e.refcount ≡ 0)

  -- What is idle stays idle where another id is erased, assigned or added.
  Idle-through :
      (files files' : List (FileId × Entry F)) (ids : List FileId)
      → All (λ k. find files' k ≡ find files k) ids
      → All (Idle files) ids
      → All (Idle files') ids
  Idle-through files files' ids same_find h =
      All-map₂ ids (λ k p (idle : Idle files k). (idle.0, p ∙ idle.1, idle.2)) same_find h

module _ {W F : Type 0} where
  -- The ids in the queue are distinct, those of objects with no handle, and at most 100.
  pub record IsTable (t : Table W F) : Type 0 where
    pub distinct : Distinct t.closed_ids
    pub idle : All (Idle t.files) t.closed_ids
    pub few : length t.closed_ids < max_num_closed

  -- An id whose object has a handle, or that has no object, is not in the queue.
  apart_from :
      (t : Table W F) (id : FileId)
      → IsTable t
      → ((e : Entry F) → find t.files id ≡ some e → e.refcount ≢ 0)
      → All (λ k. same k id ≡ false) t.closed_ids
  apart_from t id v busy =
      All-map t.closed_ids (λ k (idle : Idle t.files k). apart k idle.0 idle.1 idle.2) v.idle
    where
      apart :
          (k : FileId) (e' : Entry F)
          → find t.files k ≡ some e'
          → e'.refcount ≡ 0
          → same k id ≡ false
      apart k e' q z = elim (Bool-cases (same k id)) [
        | inl here ↦
            absurd (busy e' (subst (λ x. find t.files x ≡ some e') (same→eq k id here) q) z)
        | inr other ↦ other
      ]

  pub some_apart :
      (t : Table W F) (id : FileId) (e : Entry F)
      → IsTable t
      → find t.files id ≡ some e
      → 0 < e.refcount
      → All (λ k. same k id ≡ false) t.closed_ids
  some_apart t id e v h busy =
      apart_from t id v λ e' q z. zero_ne (ap Entry.refcount (some-injective e e' (sym h ∙ q)) ∙ z)
    where
      zero_ne : e.refcount ≢ 0
      zero_ne k = omega arith

  none_apart :
      (t : Table W F) (id : FileId)
      → IsTable t
      → find t.files id ≡ none
      → All (λ k. same k id ≡ false) t.closed_ids
  none_apart t id v h = apart_from t id v λ e q z. none-ne-some e (sym h ∙ q)

  -- The tables that the operations make of one that is well formed.
  unmarked_lem :
      (t : Table W F) (id : FileId)
      → IsTable t
      → IsTable (record t { closed_ids = remove id t.closed_ids })
  unmarked_lem t id v = record {
    distinct = (Distinct-remove id t.closed_ids v.distinct).0;
    idle = All-remove _ id t.closed_ids v.idle;
    few = omega (arith, length-remove id t.closed_ids, v.few);
  }

  erase_lem :
      (t : Table W F) (id : FileId)
      → IsTable t
      → All (λ k. same k id ≡ false) t.closed_ids
      → IsTable (record t { files = erase t.files id })
  erase_lem t id v a = record {
    distinct = v.distinct;
    idle =
        Idle-through t.files (erase t.files id) t.closed_ids
          (All-map t.closed_ids (λ k p. find-erase_other t.files id k p) a) v.idle;
    few = v.few;
  }

  assign_lem :
      (t : Table W F) (id : FileId) (e : Entry F)
      → IsTable t
      → All (λ k. same k id ≡ false) t.closed_ids
      → IsTable (record t { files = assign t.files id e })
  assign_lem t id e v a = record {
    distinct = v.distinct;
    idle =
        Idle-through t.files (assign t.files id e) t.closed_ids
          (All-map t.closed_ids (λ k p. find-assign_other t.files id k e p) a) v.idle;
    few = v.few;
  }

  root_lem : (t : Table W F) (root : W) → IsTable t → IsTable (record t { root = root })
  root_lem t root v = record { distinct = v.distinct; idle = v.idle; few = v.few }

module _ {W F : Type 0} (ops : FileOps F) (io : FileTableIo W F) (is_readonly : Bool) where
  enter_lem :
      (t : Table W F) (id : FileId) (r : W × Result F)
      → IsTable t
      → All (λ k. same k id ≡ false) t.closed_ids
      → IsTable (enter ops io is_readonly t id r).0
  unfolding enter
  enter_lem t id (root, ok f) v a =
      let e : Entry F = record { address = t.next; refcount = 1; file = f } in
      record {
        distinct = v.distinct;
        idle =
            Idle-through t.files (emplace t.files id e) t.closed_ids
              (All-map t.closed_ids (λ k p. find-emplace_other t.files id k e p) a) v.idle;
        few = v.few;
      }
  enter_lem t id (root, throw e) v a = root_lem t root v
  enter_lem t id (root, undefined) v a = root_lem t root v
  enter_lem t id (root, stuck) v a = root_lem t root v

  pub open_as-IsTable :
      (t : Table W F) (id : FileId) (type : ℕ)
      → IsTable t
      → IsTable (open_as ops io is_readonly t id type).0
  unfolding open_as
  open_as-IsTable t id type v = elim (Option-cases (find t.files id)) [
    | inl fresh ↦
        rw (fresh, open_as)
          (enter_lem t id (io.open_file t.root id type) v (none_apart t id v fresh))
    | inr (e, present) ↦
        rw (present, open_as)
          (let unmarked = unmarked_lem t id v in
            let a = (Distinct-remove id t.closed_ids v.distinct).1 in
            elim (Bool-cases (ops.type_of e.file == type)) [
              | inl fits ↦ rw fits (
                  assign_lem (record t { closed_ids = remove id t.closed_ids }) id
                    (record e { refcount = e.refcount + 1 }) unmarked a)
              | inr other ↦ rw other (
                  enter_lem
                    (record t { closed_ids = remove id t.closed_ids; files = erase t.files id }) id
                    (io.open_file t.root id type)
                    (erase_lem (record t { closed_ids = remove id t.closed_ids }) id unmarked a) a)
            ])
  ]

  pub create_as-IsTable :
      (t : Table W F) (id : FileId) (type : ℕ)
      → IsTable t
      → IsTable (create_as ops io is_readonly t id type).0
  unfolding create_as enter
  create_as-IsTable t id type v = elim (Bool-cases is_readonly) [
    | inl read_only ↦ rw read_only v
    | inr writable ↦ elim (Option-cases (find t.files id)) [
      | inl fresh ↦
          rw (writable, fresh)
            (enter_lem t id (io.create_file t.root id type) v (none_apart t id v fresh))
      | inr (e, present) ↦ rw (writable, present) v
    ]
  ]

  -- The queue before gc may have 101 ids.
  gc_lem :
      (t : Table W F)
      → Distinct t.closed_ids
      → All (Idle t.files) t.closed_ids
      → length t.closed_ids ≤ max_num_closed
      → IsTable (gc ops io is_readonly t)
  unfolding gc eject
  gc_lem t d h few = elim (Bool-cases (leb max_num_closed (length t.closed_ids))) [
    | inr fits ↦ rw fits (record { distinct = d; idle = h; few = leb→gt _ _ fits })
    | inl full ↦ rw full (record {
      distinct = Distinct-drop (min num_eject (length t.closed_ids)) t.closed_ids d;
      idle =
          Idle-through t.files
            (erase_all t.files (take (min num_eject (length t.closed_ids)) t.closed_ids))
            (drop (min num_eject (length t.closed_ids)) t.closed_ids)
            (All-map (drop (min num_eject (length t.closed_ids)) t.closed_ids)
              (λ k p.
                find-erase_all_other t.files
                  (take (min num_eject (length t.closed_ids)) t.closed_ids) k p)
              (apart-take-drop (min num_eject (length t.closed_ids)) t.closed_ids d))
            (All-drop _ (min num_eject (length t.closed_ids)) t.closed_ids h);
      few =
          omega (
            arith,
            length-drop (min num_eject (length t.closed_ids)) t.closed_ids,
            leb→le _ _ full,
          );
    })
  ]

  release_lem :
      (t : Table W F) (id : FileId) (old e : Entry F) (r : W × Result (Option F))
      → IsTable t
      → All (λ k. same k id ≡ false) t.closed_ids
      → find t.files id ≡ some old
      → e.refcount ≡ 0
      → IsTable (release ops io is_readonly t id e r).0
  unfolding release
  release_lem t id old e (root, ok none) v a h z =
      root_lem (record t { files = erase t.files id }) root (erase_lem t id v a)
  release_lem t id old e (root, throw x) v a h z =
      root_lem (record t { files = assign t.files id e }) root (assign_lem t id e v a)
  release_lem t id old e (root, undefined) v a h z =
      root_lem (record t { files = assign t.files id e }) root (assign_lem t id e v a)
  release_lem t id old e (root, stuck) v a h z =
      root_lem (record t { files = assign t.files id e }) root (assign_lem t id e v a)
  release_lem t id old e (root, ok (some f)) v a h z =
      let new : Entry F = record e { file = f } in
      let assigned = assign_lem t id new v a in
      gc_lem
        (record t {
          root = root;
          files = assign t.files id new;
          closed_ids = t.closed_ids ++ (id ∷ []);
        })
        (Distinct-append t.closed_ids id v.distinct a)
        (All-append _ t.closed_ids (id ∷ []) assigned.idle
          ((new, find-assign t.files id old new h, z), tt))
        (omega (arith, length-append t.closed_ids (id ∷ []), v.few))

  pub close-IsTable :
      (t : Table W F) (h : Option Handle) → IsTable t → IsTable (close ops io is_readonly t h).0
  unfolding close
  close-IsTable t none v = v
  close-IsTable t (some h) v = elim (Option-cases (find t.files h.id)) [
    | inl gone ↦ rw (gone, close) v
    | inr (e, present) ↦ rw (present, close) (found e present)
  ]
    where
      found :
          (e : Entry F)
          → find t.files h.id ≡ some e
          → IsTable
              (if not (e.address == h.address) || (e.refcount == 0)
                then (t, throw invalid_argument)
                else if e.refcount - 1 == 0
                then release ops io is_readonly t h.id
                    (record e { refcount = 0 })
                    (finalize ops io is_readonly t.root h.id e.file)
                else (
                  record t { files = assign t.files h.id (record e { refcount = e.refcount - 1 }) },
                  ok tt,
                )).0
      found e present = elim (Bool-cases (not (e.address == h.address) || (e.refcount == 0))) [
        | inl refused ↦ rw refused v
        | inr taken ↦
            let a = some_apart t h.id e v present (ground arith) in
            elim (Bool-cases (e.refcount - 1 == 0)) [
              | inl last ↦
                  rw (taken, last)
                    (release_lem t h.id e (record e { refcount = 0 })
                      (finalize ops io is_readonly t.root h.id e.file) v a present refl)
              | inr more ↦
                  rw (taken, more) (assign_lem t h.id (record e { refcount = e.refcount - 1 }) v a)
            ]
      ]

  pub gc-IsTable : (t : Table W F) → IsTable t → IsTable (gc ops io is_readonly t)
  gc-IsTable t v = gc_lem t v.distinct v.idle (omega (arith, v.few))

  step-IsTable :
      (t : Table W F) (call : Call) → IsTable t → IsTable (step ops io is_readonly t call)
  unfolding step
  step-IsTable t (open_call id type) v = open_as-IsTable t id type v
  step-IsTable t (create_call id type) v = create_as-IsTable t id type v
  step-IsTable t (close_call h) v = close-IsTable t h v
  step-IsTable t gc_call v = gc-IsTable t v

  -- Whatever calls are made on a well-formed table, the table is well formed: the ids in the queue are
  -- distinct, at most 100, and those of objects without a handle.
  pub run-IsTable :
      (t : Table W F) (calls : List Call) → IsTable t → IsTable (run ops io is_readonly t calls)
  unfolding run
  run-IsTable t [] v = v
  run-IsTable t (call ∷ calls) v =
      run-IsTable (step ops io is_readonly t call) calls (step-IsTable t call v)
