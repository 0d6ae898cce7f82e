-- ===== src/Tests/Paths.antt =====
-- Witnesses for the files of ids, over a root that is the test for the names in it.
use securefs.Prelude.Predicates.{All-replicate}
use securefs.Prelude.{
  ℕ, ◌≡◌, ◌≢◌, ◌<◌, get_or, refl, ap, Bool, true, false, List, replicate, same, same_refl, same→eq,
  if◌then◌else◌, arith,
}
use securefs.Error.{ok}
use securefs.FileTable.{FileId}
use securefs.FileTable.Paths.{OsService, calculate_paths_version2, unlink_version2}
use securefs.FileTable.Paths.Separate.{IsId}
use securefs.FileTable.Paths.Unlinks.{Removes, unlink_version2_lem}

abbrev name_test : OsService (List ℕ → Bool) (List ℕ)
name_test = record {
  open_file_stream = λ root name flags mode. (root, ok name);
  ensure_directory = λ root name mode. (root, ok tt);
  remove_file_nothrow = λ root name other. if same name other then false else root other;
  remove_directory_nothrow = λ root name. root;
}

differ : (name other : List ℕ) → name ≢ other → same name other ≡ false
differ name other ne = unless (same name other) (λ e. ne (same→eq name other e))
  where
    unless : (b : Bool) → b ≢ true → b ≡ false
    unless true h = absurd (h refl)
    unless false h = refl

abbrev name_laws : Removes name_test
name_laws = record {
  exists = λ root name. root name;
  removed = λ root name. ap (λ b. if b then false else root name) (same_refl name);
  others = λ root name other ne. ap (λ b. if b then false else root other) (differ name other ne);
  directory = λ root name other. refl;
}

abbrev zeros : FileId
zeros = replicate 32 0

abbrev ones : FileId
ones = replicate 32 1

zeros-IsId : IsId zeros
zeros-IsId = (refl, All-replicate (λ y. y < 256) 32 0 (omega arith))

ones-IsId : IsId ones
ones-IsId = (refl, All-replicate (λ y. y < 256) 32 1 (omega arith))

zeros_ne : zeros ≢ ones
zeros_ne e = omega (arith, ap (λ l. get_or l 0 0) e)

abbrev everything : List ℕ → Bool
everything name = true

unlink_version2_lem_example :
    (unlink_version2 name_test everything zeros (calculate_paths_version2 zeros).full_filename
      ≡ false)
    × (unlink_version2 name_test everything zeros (calculate_paths_version2 zeros).meta_filename
        ≡ false)
    × (unlink_version2 name_test everything zeros (calculate_paths_version2 ones).full_filename
        ≡ true)
    × (unlink_version2 name_test everything zeros (calculate_paths_version2 ones).meta_filename
        ≡ true)
unlink_version2_lem_example =
    unlink_version2_lem name_laws everything zeros ones zeros-IsId ones-IsId zeros_ne
