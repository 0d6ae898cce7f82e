-- ===== src/FileTable/Paths/Unlinks.antt =====
-- What unlink leaves of the files of a directory, over the laws of removal.
use securefs.Prelude.{ℕ, ◌≡◌, ◌≢◌, sym, ◌∙◌, Bool, false, List}
use securefs.FileTable.{FileId}
use securefs.FileTable.Paths.{
  OsService, calculate_paths_version1, calculate_paths_version2, unlink_version1, unlink_version2,
}
use securefs.FileTable.Paths.Separate.{IsId, paths_version1_lem, paths_version2_lem}

-- unlink(2) and rmdir(2): a file that is removed is gone (nothing of the root refuses it), and
-- nothing happens to files of other names; a directory is removed only when it holds no files.
pub record Removes {R F : Type 0} (os : OsService R F) : Type 1 where
  pub exists : R → List ℕ → Bool
  pub removed : (root : R) (name : List ℕ) → exists (os.remove_file_nothrow root name) name ≡ false
  pub others :
      (root : R) (name name' : List ℕ)
      → name ≢ name'
      → exists (os.remove_file_nothrow root name) name' ≡ exists root name'
  pub directory :
      (root : R) (name name' : List ℕ)
      → exists (os.remove_directory_nothrow root name) name' ≡ exists root name'

module _ {R F : Type 0} {os : OsService R F} (laws : Removes os) where
  pair_removed :
      (root : R) (name meta : List ℕ)
      → name ≢ meta
      → (laws.exists (os.remove_file_nothrow (os.remove_file_nothrow root name) meta) name ≡ false)
        × (laws.exists (os.remove_file_nothrow (os.remove_file_nothrow root name) meta) meta
            ≡ false)
  pair_removed root name meta apart = (
    laws.others (os.remove_file_nothrow root name) meta name (λ e. apart (sym e))
        ∙ laws.removed root name,
    laws.removed (os.remove_file_nothrow root name) meta,
  )

  pair_kept :
      (root : R) (name meta kept : List ℕ)
      → name ≢ kept
      → meta ≢ kept
      → laws.exists (os.remove_file_nothrow (os.remove_file_nothrow root name) meta) kept
        ≡ laws.exists root kept
  pair_kept root name meta kept apart apart' =
      laws.others (os.remove_file_nothrow root name) meta kept apart'
      ∙ laws.others root name kept apart

  -- In the old layout, over the laws of removal, unlink removes the file and the metadata of the
  -- id and leaves those of another id as they are.
  pub unlink_version1_lem :
      (root : R) (id id' : FileId)
      → IsId id
      → IsId id'
      → id ≢ id'
      → (laws.exists (unlink_version1 os root id) (calculate_paths_version1 id).full_filename
          ≡ false)
        × (laws.exists (unlink_version1 os root id) (calculate_paths_version1 id).meta_filename
            ≡ false)
        × (laws.exists (unlink_version1 os root id) (calculate_paths_version1 id').full_filename
            ≡ laws.exists root (calculate_paths_version1 id').full_filename)
        × (laws.exists (unlink_version1 os root id) (calculate_paths_version1 id').meta_filename
            ≡ laws.exists root (calculate_paths_version1 id').meta_filename)
  unfolding unlink_version1
  unlink_version1_lem root id id' h h' ne =
      let p = calculate_paths_version1 id in
      let q = calculate_paths_version1 id' in
      let apart = paths_version1_lem id id' h h' ne in
      let apart' = paths_version1_lem id' id h' h (λ e. ne (sym e)) in
      let gone = pair_removed root p.full_filename p.meta_filename apart.3 in
      (
        same_files id p.full_filename ∙ gone.0,
        same_files id p.meta_filename ∙ gone.1,
        same_files id q.full_filename
            ∙ pair_kept root p.full_filename p.meta_filename q.full_filename apart.0
                (λ e. apart'.2 (sym e)),
        same_files id q.meta_filename
            ∙ pair_kept root p.full_filename p.meta_filename q.meta_filename apart.2 apart.1,
      )
    where
      same_files :
          (id : FileId) (name : List ℕ)
          → laws.exists (unlink_version1 os root id) name
            ≡ laws.exists
                (os.remove_file_nothrow
                  (os.remove_file_nothrow root (calculate_paths_version1 id).full_filename)
                  (calculate_paths_version1 id).meta_filename)
                name
      same_files id name = laws.directory _ _ name ∙ laws.directory _ _ name

  -- In the new layout, over the laws of removal, unlink removes the file and the metadata of the
  -- id and leaves those of another id as they are.
  pub unlink_version2_lem :
      (root : R) (id id' : FileId)
      → IsId id
      → IsId id'
      → id ≢ id'
      → (laws.exists (unlink_version2 os root id) (calculate_paths_version2 id).full_filename
          ≡ false)
        × (laws.exists (unlink_version2 os root id) (calculate_paths_version2 id).meta_filename
            ≡ false)
        × (laws.exists (unlink_version2 os root id) (calculate_paths_version2 id').full_filename
            ≡ laws.exists root (calculate_paths_version2 id').full_filename)
        × (laws.exists (unlink_version2 os root id) (calculate_paths_version2 id').meta_filename
            ≡ laws.exists root (calculate_paths_version2 id').meta_filename)
  unfolding unlink_version2
  unlink_version2_lem root id id' h h' ne =
      let p = calculate_paths_version2 id in
      let q = calculate_paths_version2 id' in
      let apart = paths_version2_lem id id' h h' ne in
      let apart' = paths_version2_lem id' id h' h (λ e. ne (sym e)) in
      let gone = pair_removed root p.full_filename p.meta_filename apart.3 in
      (
        laws.directory _ _ p.full_filename ∙ gone.0,
        laws.directory _ _ p.meta_filename ∙ gone.1,
        laws.directory _ _ q.full_filename
            ∙ pair_kept root p.full_filename p.meta_filename q.full_filename apart.0
                (λ e. apart'.2 (sym e)),
        laws.directory _ _ q.meta_filename
            ∙ pair_kept root p.full_filename p.meta_filename q.meta_filename apart.2 apart.1,
      )
