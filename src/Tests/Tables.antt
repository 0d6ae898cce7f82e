-- ===== src/Tests/Tables.antt =====
-- Witnesses for the file table.
use mathlib.Core.Option.{some-injective}
use securefs.Prelude.{◌≡◌, refl, subst, Bool, false, List, [], ◌∷◌, some, same, arith}
use securefs.Error.{ok}
use securefs.FileTable.{
  FileId, FileOps, FileTableIo, Entry, Table, open_call, create_call, close_call, gc_call, remove,
  open_as, close, step, run,
}
use securefs.Maps.{find}
use securefs.FileTable.Invariant.{IsTable, run-IsTable}
use securefs.FileTable.Handles.{Spares, step_keeps, open_as-close}

-- A file is whether it is unlinked; the folder is the list of the ids in it.
abbrev toy_files : FileOps Bool
toy_files = record { type_of = λ f. 8; is_unlinked = λ f. f; flush = λ f. ok f }

abbrev toy_io : FileTableIo (List FileId) Bool
toy_io = record {
  open_file = λ root id type. (root, ok false);
  create_file = λ root id type. (id ∷ root, ok false);
  unlink = λ root id. remove id root;
}

abbrev empty_table : Table (List FileId) Bool
empty_table = record { root = []; files = []; closed_ids = []; next = 0 }

empty-IsTable : IsTable empty_table
empty-IsTable = record { distinct = tt; idle = tt; few = omega arith }

run-IsTable_example : IsTable (
    run toy_files toy_io false empty_table (
      create_call (1 ∷ []) 8
      ∷ open_call (1 ∷ []) 8
      ∷ close_call (some (record { address = 0; id = 1 ∷ [] }))
      ∷ close_call (some (record { address = 0; id = 1 ∷ [] }))
      ∷ gc_call
      ∷ []))
run-IsTable_example = run-IsTable toy_files toy_io false empty_table _ empty-IsTable

abbrev first : Entry Bool
first = record { address = 0; refcount = 1; file = false }

abbrev two_files : Table (List FileId) Bool
two_files = record {
  root = (1 ∷ []) ∷ (2 ∷ []) ∷ [];
  files = (1 ∷ [], first) ∷ (2 ∷ [], record { address = 1; refcount = 1; file = false }) ∷ [];
  closed_ids = [];
  next = 2;
}

two_files-IsTable : IsTable two_files
two_files-IsTable = record { distinct = tt; idle = tt; few = omega arith }

first_found : find two_files.files (1 ∷ []) ≡ some first
unfolding find same
first_found = refl

other-Spares : Spares (close_call (some (record { address = 1; id = 2 ∷ [] }))) (1 ∷ [])
unfolding same
other-Spares id e = subst (λ x. same (1 ∷ []) x ≡ false) (some-injective (2 ∷ []) id e) refl

step_keeps_example :
    find
      (step toy_files toy_io false two_files
        (close_call (some (record { address = 1; id = 2 ∷ [] })))).files
      (1 ∷ [])
    ≡ some first
step_keeps_example =
    step_keeps toy_files toy_io false two_files (1 ∷ []) first
      (close_call (some (record { address = 1; id = 2 ∷ [] }))) two_files-IsTable first_found
      (omega arith) other-Spares

open_as-close_example :
    ((close toy_files toy_io false two_files (some (record { address = 0; id = 1 ∷ [] }))).1
      ≡ ok tt)
    × ((open_as toy_files toy_io false
          (close toy_files toy_io false two_files (some (record { address = 0; id = 1 ∷ [] }))).0
          (1 ∷ [])
          8).1
        ≡ ok (record { address = 0; id = 1 ∷ [] }))
open_as-close_example =
    open_as-close toy_files toy_io false two_files (record { address = 0; id = 1 ∷ [] }) first false
      first_found refl refl refl refl (omega arith)
