-- ===== src/FileTable/Handles.antt =====
-- The objects of the file table that have a handle, under calls on other files and eviction.
use securefs.Prelude.{
  Option-cases, ℕ, ◌+◌, ◌-◌, ◌≡◌, ◌<◌, refl, ap, ◌∙◌, inl, inr, Bool, true, false, ◌||◌, not, [],
  ◌∷◌, ◌++◌, Option, none, some, length, take, All, same, min, leb, ◌==◌, eq→==, gt→leb,
  length-append, same_sym, Bool-cases, arith,
}
use securefs.Error.{Result, ok, throw, undefined, stuck}
use securefs.FileTable.{
  FileId, FileOps, FileTableIo, Entry, Handle, Table, max_num_closed, num_eject, remove, enter,
  open_as, create_as, eject, gc, finalize, release, close, Call, open_call, create_call, close_call,
  gc_call, step,
}
use securefs.Maps.{find, erase, assign}
use securefs.FileTable.Keys.{find-erase_all_other}
use securefs.Maps.Find.{find-erase_other, find-assign_other, find-assign, find-emplace_other}
use securefs.Prelude.Predicates.{All-take, All-append, All-map}
use securefs.FileTable.Invariant.{IsTable, some_apart}

-- The id of the object that a call is about, if there is one.
abbrev pub subject : Call → Option FileId
subject (open_call id type) = some id
subject (create_call id type) = some id
subject (close_call none) = none
subject (close_call (some h)) = some h.id
subject gc_call = none

-- A call is about another id than `k`.
abbrev pub Spares : Call → FileId → Type 0
Spares call k = (id : FileId) → subject call ≡ some id → same k id ≡ false

module _ {W F : Type 0} (ops : FileOps F) (io : FileTableIo W F) (is_readonly : Bool) where
  gc_keeps :
      (t : Table W F) (k : FileId)
      → All (λ x. same k x ≡ false) t.closed_ids
      → find (gc ops io is_readonly t).files k ≡ find t.files k
  unfolding gc eject
  gc_keeps t k a = elim (Bool-cases (leb max_num_closed (length t.closed_ids))) [
    | inr fits ↦ rw fits refl
    | inl full ↦ rw full (
        find-erase_all_other t.files (take (min num_eject (length t.closed_ids)) t.closed_ids) k
          (All-take _ (min num_eject (length t.closed_ids)) t.closed_ids a))
  ]

  enter_keeps :
      (t : Table W F) (id k : FileId) (r : W × Result F)
      → same k id ≡ false
      → find (enter ops io is_readonly t id r).0.files k ≡ find t.files k
  unfolding enter
  enter_keeps t id k (root, ok f) d =
      find-emplace_other t.files id k (record { address = t.next; refcount = 1; file = f }) d
  enter_keeps t id k (root, throw e) d = refl
  enter_keeps t id k (root, undefined) d = refl
  enter_keeps t id k (root, stuck) d = refl

  open_as_keeps :
      (t : Table W F) (id k : FileId) (type : ℕ)
      → same k id ≡ false
      → find (open_as ops io is_readonly t id type).0.files k ≡ find t.files k
  unfolding open_as
  open_as_keeps t id k type d = elim (Option-cases (find t.files id)) [
    | inl fresh ↦ rw (fresh, open_as) (enter_keeps t id k (io.open_file t.root id type) d)
    | inr (e, present) ↦
        rw (present, open_as)
          (elim (Bool-cases (ops.type_of e.file == type)) [
            | inl fits ↦
                rw fits (find-assign_other t.files id k (record e { refcount = e.refcount + 1 }) d)
            | inr other ↦ rw other (
                enter_keeps
                  (record t { closed_ids = remove id t.closed_ids; files = erase t.files id }) id k
                  (io.open_file t.root id type) d
                ∙ find-erase_other t.files id k d)
          ])
  ]

  create_as_keeps :
      (t : Table W F) (id k : FileId) (type : ℕ)
      → same k id ≡ false
      → find (create_as ops io is_readonly t id type).0.files k ≡ find t.files k
  unfolding create_as enter
  create_as_keeps t id k type d = elim (Bool-cases is_readonly) [
    | inl read_only ↦ rw read_only refl
    | inr writable ↦ elim (Option-cases (find t.files id)) [
      | inl fresh ↦ rw (writable, fresh) (enter_keeps t id k (io.create_file t.root id type) d)
      | inr (e, present) ↦ rw (writable, present) refl
    ]
  ]

  release_keeps :
      (t : Table W F) (id k : FileId) (e : Entry F) (r : W × Result (Option F))
      → same k id ≡ false
      → All (λ x. same k x ≡ false) t.closed_ids
      → find (release ops io is_readonly t id e r).0.files k ≡ find t.files k
  unfolding release
  release_keeps t id k e (root, ok none) d a = find-erase_other t.files id k d
  release_keeps t id k e (root, throw x) d a = find-assign_other t.files id k e d
  release_keeps t id k e (root, undefined) d a = find-assign_other t.files id k e d
  release_keeps t id k e (root, stuck) d a = find-assign_other t.files id k e d
  release_keeps t id k e (root, ok (some f)) d a =
      gc_keeps
        (record t {
          root = root;
          files = assign t.files id (record e { file = f });
          closed_ids = t.closed_ids ++ (id ∷ []);
        })
        k (All-append _ t.closed_ids (id ∷ []) a (d, tt))
      ∙ find-assign_other t.files id k (record e { file = f }) d

  close_keeps :
      (t : Table W F) (h : Handle) (k : FileId)
      → same k h.id ≡ false
      → All (λ x. same k x ≡ false) t.closed_ids
      → find (close ops io is_readonly t (some h)).0.files k ≡ find t.files k
  unfolding close
  close_keeps t h k d a = elim (Option-cases (find t.files h.id)) [
    | inl gone ↦ rw (gone, close) refl
    | inr (e, present) ↦
        rw (present, close)
          (elim (Bool-cases (not (e.address == h.address) || (e.refcount == 0))) [
            | inl refused ↦ rw refused refl
            | inr taken ↦ elim (Bool-cases (e.refcount - 1 == 0)) [
              | inl last ↦
                  rw (taken, last)
                    (release_keeps t h.id k (record e { refcount = 0 })
                      (finalize ops io is_readonly t.root h.id e.file) d a)
              | inr more ↦
                  rw (taken, more)
                    (find-assign_other t.files h.id k (record e { refcount = e.refcount - 1 }) d)
            ]
          ])
  ]

  -- An object with a handle stays in the table, as it is, through any call on another file.
  pub step_keeps :
      (t : Table W F) (k : FileId) (e : Entry F) (call : Call)
      → IsTable t
      → find t.files k ≡ some e
      → 0 < e.refcount
      → Spares call k
      → find (step ops io is_readonly t call).files k ≡ some e
  unfolding step close
  step_keeps t k e (open_call id type) v h busy spares =
      open_as_keeps t id k type (spares id refl) ∙ h
  step_keeps t k e (create_call id type) v h busy spares =
      create_as_keeps t id k type (spares id refl) ∙ h
  step_keeps t k e (close_call none) v h busy spares = h
  step_keeps t k e (close_call (some g)) v h busy spares =
      close_keeps t g k (spares g.id refl)
        (All-map t.closed_ids (λ x p. same_sym k x ∙ p) (some_apart t k e v h busy))
      ∙ h
  step_keeps t k e gc_call v h busy spares =
      gc_keeps t k (All-map t.closed_ids (λ x p. same_sym k x ∙ p) (some_apart t k e v h busy)) ∙ h

  close_last :
      (t : Table W F) (h : Handle) (e : Entry F) (f : F)
      → find t.files h.id ≡ some e
      → e.address ≡ h.address
      → e.refcount ≡ 1
      → ops.is_unlinked e.file ≡ false
      → ops.flush e.file ≡ ok f
      → length t.closed_ids < 100
      → close ops io is_readonly t (some h) ≡ (
        record t {
          files = assign t.files h.id (record { address = e.address; refcount = 0; file = f });
          closed_ids = t.closed_ids ++ (h.id ∷ []);
        },
        ok tt,
      )
  unfolding close release gc finalize
  close_last t h e f present here one linked flushed few =
      rw (present, close) (rw (taken, last) (rw (linked, flushed) (rw short refl)))
    where
      taken : (not (e.address == h.address) || (e.refcount == 0)) ≡ false
      taken = ground (arith, here, one)

      last : (e.refcount - 1 == 0) ≡ true
      last = eq→== (e.refcount - 1) 0 (omega (arith, one))

      short : leb max_num_closed (length (t.closed_ids ++ (h.id ∷ []))) ≡ false
      short =
          gt→leb max_num_closed (length (t.closed_ids ++ (h.id ∷ [])))
            (omega (arith, length-append t.closed_ids (h.id ∷ []), few))

  -- The last close of a file that is not unlinked, then open_as: the object in the cache is handed
  -- out again, if the queue was not full.
  pub open_as-close :
      (t : Table W F) (h : Handle) (e : Entry F) (f : F)
      → find t.files h.id ≡ some e
      → e.address ≡ h.address
      → e.refcount ≡ 1
      → ops.is_unlinked e.file ≡ false
      → ops.flush e.file ≡ ok f
      → length t.closed_ids < 100
      → (close ops io is_readonly t (some h)).1 ≡ ok tt
        × ((open_as ops io is_readonly
              (close ops io is_readonly t (some h)).0
              h.id
              (ops.type_of f)).1
            ≡ ok h)
  unfolding open_as
  open_as-close t h e f present here one linked flushed few =
      let new : Entry F = record { address = e.address; refcount = 0; file = f } in
      let c = close_last t h e f present here one linked flushed few in
      (
        ap (λ r. r.1) c,
        ap (λ r. (open_as ops io is_readonly r.0 h.id (ops.type_of f)).1) c
            ∙ rw (find-assign t.files h.id e new present, open_as)
                (rw (eq→== (ops.type_of f) (ops.type_of f) refl)
                  (ap (λ a. ok (record { address = a; id = h.id })) here)),
      )
