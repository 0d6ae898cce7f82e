-- ===== src/Tests/SimpleDirs.antt =====
-- Witnesses for SimpleDirectory.
use securefs.Prelude.{ℕ, same, ◌≡◌, refl, true, false, List, [], ◌∷◌, replicate, arith}
use securefs.Error.{ok}
use securefs.Stream.Memory.{memory}
use securefs.Maps.{find}
use securefs.SimpleDir.{Dir, initialize, subflush}
use securefs.SimpleDir.Refines.{
  entries_of, DirCall, get_call, add_call, remove_call, DistinctNames, run_dir, run_entries,
  run_dir-refines,
}
use securefs.SimpleDir.Saved.{initialize-subflush}
use securefs.Tests.Setup.{memory_file}

abbrev small_dir : Dir (List ℕ)
small_dir = record {
  stream = replicate 7 0;
  table = (97 ∷ [], (replicate 32 5, 1)) ∷ (98 ∷ 98 ∷ [], (replicate 32 6, 2)) ∷ [];
  dirty = true;
}

abbrev calls : List DirCall
calls =
    get_call (97 ∷ [])
    ∷ add_call (99 ∷ []) (replicate 32 7, 1)
    ∷ add_call (replicate 256 97) (replicate 32 7, 1)
    ∷ remove_call (97 ∷ [])
    ∷ get_call (97 ∷ [])
    ∷ []

small_dir-DistinctNames : DistinctNames small_dir.table
unfolding find same
small_dir-DistinctNames = (refl, (refl, tt))

run_dir-refines_example :
    ((run_dir memory small_dir calls).0 ≡ (run_entries (entries_of memory small_dir) calls).0)
    × (entries_of memory (run_dir memory small_dir calls).1
        ≡ (run_entries (entries_of memory small_dir) calls).1)
    × DistinctNames (run_dir memory small_dir calls).1.table
run_dir-refines_example = run_dir-refines memory small_dir calls small_dir-DistinctNames

initialize-subflush_example :
    (d' : Dir (List ℕ)) × (subflush memory small_dir ≡ ok d')
    × (d'.dirty ≡ false)
    × (d'' : Dir (List ℕ)) × (initialize memory d'.stream true ≡ ok d'')
    × ((name : List ℕ) → find d''.table name ≡ find small_dir.table name)
initialize-subflush_example =
    initialize-subflush memory_file small_dir true (omega arith) refl
      (
        record { name = omega arith; codes = (omega arith, tt); id = refl; type = omega arith },
        (
          record {
            name = omega arith;
            codes = (omega arith, (omega arith, tt));
            id = refl;
            type = omega arith;
          },
          tt,
        ),
      )
      (omega arith)
