-- ===== src/FileTable/Paths.antt =====
-- The files of an id in the directory of a file system: both versions of FileTableIO in
-- sources/file_table.cpp.
pub mod Separate
pub mod Unlinks
use securefs.Prelude.{ℕ, ◌+◌, Bool, if◌then◌else◌, List, ◌∷◌, [], ◌++◌, take, drop}
use securefs.Text.{hexify}
use securefs.Error.{Result, ok, throw, undefined, stuck}
use securefs.FileTable.{FileId}

-- '/' and ".meta"
abbrev pub slash : ℕ
slash = 47

abbrev pub meta_suffix : List ℕ
meta_suffix = 46 ∷ 109 ∷ 101 ∷ 116 ∷ 97 ∷ []

abbrev pub first_level : ℕ
first_level = 1

abbrev pub second_level : ℕ
second_level = 5

pub record PathsVersion1 : Type 0 where
  pub first_level_dir : List ℕ
  pub second_level_dir : List ℕ
  pub full_filename : List ℕ
  pub meta_filename : List ℕ

pub record PathsVersion2 : Type 0 where
  pub dir : List ℕ
  pub full_filename : List ℕ
  pub meta_filename : List ℕ

unfoldable pub calculate_paths_version1 : FileId → PathsVersion1
calculate_paths_version1 id =
    let first_dir = hexify (take first_level id) in
    let second_dir = first_dir ++ (slash ∷ hexify (take second_level (drop first_level id))) in
    let filename = second_dir ++ (slash ∷ hexify (drop (first_level + second_level) id)) in
    record {
      first_level_dir = first_dir;
      second_level_dir = second_dir;
      full_filename = filename;
      meta_filename = filename ++ meta_suffix;
    }

unfoldable pub calculate_paths_version2 : FileId → PathsVersion2
calculate_paths_version2 id =
    let first_dir = hexify (take 1 id) in
    let filename = first_dir ++ (slash ∷ hexify (drop 1 id)) in
    record { dir = first_dir; full_filename = filename; meta_filename = filename ++ meta_suffix }

-- What is called of OSService on a root directory `R`, for streams `F`.
pub record OsService (R F : Type 0) : Type 0 where
  pub open_file_stream : R → List ℕ → ℕ → ℕ → R × Result F
  pub ensure_directory : R → List ℕ → ℕ → R × Result (Unit {0})
  pub remove_file_nothrow : R → List ℕ → R
  pub remove_directory_nothrow : R → List ℕ → R

-- Flags of <fcntl.h> on Linux, and modes: 0755 and 0644.
abbrev pub o_rdonly : ℕ
o_rdonly = 0

abbrev pub o_rdwr : ℕ
o_rdwr = 2

abbrev pub o_creat_excl : ℕ
o_creat_excl = 64 + 128

abbrev pub dir_mode : ℕ
dir_mode = 493

abbrev pub file_mode : ℕ
file_mode = 420

-- `f` runs on the root that a call left, unless the call threw.
abbrev after : {R A B : Type 0} → R × Result A → (R → A → R × Result B) → R × Result B
after (root, ok a) f = f root a
after (root, throw e) f = (root, throw e)
after (root, undefined) f = (root, undefined)
after (root, stuck) f = (root, stuck)

module _ {R F : Type 0} (os : OsService R F) where
  -- std::make_pair of two open_file_stream; the first argument is evaluated first.
  unfoldable pub open_pair : R → List ℕ → List ℕ → ℕ → ℕ → R × Result (F × F)
  open_pair root filename metaname open_flags mode =
      after (os.open_file_stream root filename open_flags mode) (λ root' data_stream.
        after (os.open_file_stream root' metaname open_flags mode)
          (λ root'' meta_stream. (root'', ok (data_stream, meta_stream))))

  unfoldable pub open_version1 : Bool → R → FileId → R × Result (F × F)
  open_version1 readonly root id =
      let paths = calculate_paths_version1 id in
      open_pair root paths.full_filename paths.meta_filename (if readonly then o_rdonly else o_rdwr)
        0

  unfoldable pub create_version1 : R → FileId → R × Result (F × F)
  create_version1 root id =
      let paths = calculate_paths_version1 id in
      after (os.ensure_directory root paths.first_level_dir dir_mode) (λ root' u.
        after (os.ensure_directory root' paths.second_level_dir dir_mode) (λ root'' u'.
          open_pair root'' paths.full_filename paths.meta_filename (o_rdwr + o_creat_excl)
            file_mode))

  -- The second directory is removed twice, as the code does.
  unfoldable pub unlink_version1 : R → FileId → R
  unlink_version1 root id =
      let paths = calculate_paths_version1 id in
      let files_removed =
        os.remove_file_nothrow (os.remove_file_nothrow root paths.full_filename)
          paths.meta_filename in
      os.remove_directory_nothrow (os.remove_directory_nothrow files_removed paths.second_level_dir)
        paths.second_level_dir

  unfoldable pub open_version2 : Bool → R → FileId → R × Result (F × F)
  open_version2 readonly root id =
      let paths = calculate_paths_version2 id in
      open_pair root paths.full_filename paths.meta_filename (if readonly then o_rdonly else o_rdwr)
        0

  unfoldable pub create_version2 : R → FileId → R × Result (F × F)
  create_version2 root id =
      let paths = calculate_paths_version2 id in
      after (os.ensure_directory root paths.dir dir_mode) (λ root' u.
        open_pair root' paths.full_filename paths.meta_filename (o_rdwr + o_creat_excl) file_mode)

  unfoldable pub unlink_version2 : R → FileId → R
  unlink_version2 root id =
      let paths = calculate_paths_version2 id in
      os.remove_directory_nothrow
        (os.remove_file_nothrow (os.remove_file_nothrow root paths.full_filename)
          paths.meta_filename)
        paths.dir
