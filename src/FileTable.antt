-- ===== src/FileTable.antt =====
-- FileTable of sources/file_table.h and sources/file_table.cpp: the files that are open, and those
-- kept in the cache after their last handle was closed.
mod Keys
pub mod Invariant
pub mod Handles
pub mod Paths
use securefs.Prelude.{
  ℕ, ◌+◌, ◌-◌, Bool, true, false, ◌||◌, not, List, [], ◌∷◌, ◌++◌, Option, none, some, min, length,
  take, drop, leb, ◌==◌, same, if◌then◌else◌,
}
use securefs.Maps.{find, erase, assign, emplace}
use securefs.Error.{
  Result, ok, throw, undefined, stuck, Exception, vfs, Errno, erofs, eexist, efault,
  invalid_argument,
}

-- id_type: the bytes of an id.
abbrev pub FileId : Type 0
FileId = List ℕ

-- What the table calls of FileBase, over the rest `F` of its state. The reference count is kept by
-- the table's entry.
pub record FileOps (F : Type 0) : Type 0 where
  pub type_of : F → ℕ
  pub is_unlinked : F → Bool
  pub flush : F → Result F

-- FileTableIO and btree_make_file_from_type, over the state `W` of the folder on disk: what is
-- opened or created is the file object of a type.
pub record FileTableIo (W F : Type 0) : Type 0 where
  pub open_file : W → FileId → ℕ → W × Result F
  pub create_file : W → FileId → ℕ → W × Result F
  pub unlink : W → FileId → W

-- An object of the table: its address, its m_refcount, and the rest of it.
pub record Entry (F : Type 0) : Type 0 where
  pub address : ℕ
  pub refcount : ℕ
  pub file : F

-- A pointer to an object, with the id that the object has.
pub record Handle : Type 0 where
  pub address : ℕ
  pub id : FileId

-- `next` is the address that the next object gets.
pub record Table (W F : Type 0) : Type 0 where
  pub root : W
  pub files : List (FileId × Entry F)
  pub closed_ids : List FileId
  pub next : ℕ

abbrev pub max_num_closed : ℕ
max_num_closed = 101

abbrev pub num_eject : ℕ
num_eject = 8

-- erase of each of some ids.
module _ {E : Type 0} where
  unfoldable pub erase_all : List (FileId × E) → List FileId → List (FileId × E)
  erase_all files [] = files
  erase_all files (id ∷ ids) = erase_all (erase files id) ids

unfoldable pub remove : FileId → List FileId → List FileId
remove id [] = []
remove id (x ∷ ids) = if same x id then ids else x ∷ remove id ids

module _ {W F : Type 0} (ops : FileOps F) (io : FileTableIo W F) (is_readonly : Bool) where
  -- The end of open_as and of create_as: the new object enters the table.
  unfoldable pub enter : Table W F → FileId → W × Result F → Table W F × Result Handle
  enter t id (root, ok f) = (
    record t {
      root = root;
      files = emplace t.files id (record { address = t.next; refcount = 1; file = f });
      next = t.next + 1;
    },
    ok (record { address = t.next; id = id }),
  )
  enter t id (root, throw e) = (record t { root = root }, throw e)
  enter t id (root, undefined) = (record t { root = root }, undefined)
  enter t id (root, stuck) = (record t { root = root }, stuck)

  unfoldable pub open_as : Table W F → FileId → ℕ → Table W F × Result Handle
  open_as t id type = elim (find t.files id) [
    | none ↦ enter t id (io.open_file t.root id type)
    | some e ↦
        (let unmarked = record t { closed_ids = remove id t.closed_ids } in
          if not (ops.type_of e.file == type)
          then enter (record unmarked { files = erase t.files id }) id (io.open_file t.root id type)
          else (
            record unmarked { files = assign t.files id (record e { refcount = e.refcount + 1 }) },
            ok (record { address = e.address; id = id }),
          ))
  ]

  unfoldable pub create_as : Table W F → FileId → ℕ → Table W F × Result Handle
  create_as t id type = if is_readonly then (t, throw (vfs erofs)) else elim (find t.files id) [
    | some _ ↦ (t, throw (vfs eexist))
    | none ↦ enter t id (io.create_file t.root id type)
  ]

  unfoldable pub eject : Table W F → Table W F
  eject t =
      let n = min num_eject (length t.closed_ids) in
      record t { files = erase_all t.files (take n t.closed_ids); closed_ids = drop n t.closed_ids }

  unfoldable pub gc : Table W F → Table W F
  gc t = if leb max_num_closed (length t.closed_ids) then eject t else t

  -- The folder, and the object if it is left.
  unfoldable pub finalize : W → FileId → F → W × Result (Option F)
  finalize root id f = if ops.is_unlinked f then (io.unlink root id, ok none) else (
    root,
    elim (ops.flush f) [
      | ok f' ↦ ok (some f')
      | throw e ↦ throw e
      | undefined ↦ undefined
      | stuck ↦ stuck
    ],
  )

  -- The last handle is closed; `e` is the entry with its reference count at 0.
  unfoldable pub release :
      Table W F → FileId → Entry F → W × Result (Option F) → Table W F × Result (Unit {0})
  release t id e (root, ok none) = (record t { root = root; files = erase t.files id }, ok tt)
  release t id e (root, ok (some f)) = (
    gc (record t {
      root = root;
      files = assign t.files id (record e { file = f });
      closed_ids = t.closed_ids ++ (id ∷ []);
    }),
    ok tt,
  )
  release t id e (root, throw x) = (record t { root = root; files = assign t.files id e }, throw x)
  release t id e (root, undefined) =
      (record t { root = root; files = assign t.files id e }, undefined)
  release t id e (root, stuck) = (record t { root = root; files = assign t.files id e }, stuck)

  unfoldable pub close : Table W F → Option Handle → Table W F × Result (Unit {0})
  close t none = (t, throw (vfs efault))
  close t (some h) = elim (find t.files h.id) [
    | none ↦ (t, throw invalid_argument)
    | some e ↦
        if not (e.address == h.address) || (e.refcount == 0)
        then (t, throw invalid_argument)
        else if e.refcount - 1 == 0
        then release t h.id (record e { refcount = 0 }) (finalize t.root h.id e.file)
        else (
          record t { files = assign t.files h.id (record e { refcount = e.refcount - 1 }) },
          ok tt,
        )
  ]

  -- The destructor finalizes each file, in the map's order.
  unfoldable pub finalize_all : W → List (FileId × Entry F) → W
  finalize_all root [] = root
  finalize_all root ((id, e) ∷ files) = finalize_all (finalize root id e.file).0 files

-- A public call on the table; `gc` is public too.
pub data Call : Type 0 where
  open_call : FileId → ℕ → Call
  create_call : FileId → ℕ → Call
  close_call : Option Handle → Call
  gc_call : Call

module _ {W F : Type 0} (ops : FileOps F) (io : FileTableIo W F) (is_readonly : Bool) where
  unfoldable pub step : Table W F → Call → Table W F
  step t (open_call id type) = (open_as ops io is_readonly t id type).0
  step t (create_call id type) = (create_as ops io is_readonly t id type).0
  step t (close_call h) = (close ops io is_readonly t h).0
  step t gc_call = gc ops io is_readonly t

  -- The table after calls, from an empty one on.
  unfoldable pub run : Table W F → List Call → Table W F
  run t [] = t
  run t (call ∷ calls) = run (step t call) calls
