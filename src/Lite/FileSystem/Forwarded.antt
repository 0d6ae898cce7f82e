-- ===== src/Lite/FileSystem/Forwarded.antt =====
-- The operations of FileSystem of sources/lite_fs.cpp that translate their paths and forward them.
use securefs.Prelude.{ℕ, false, List, length, ◌==◌, if◌then◌else◌}
use securefs.Error.{Result, throw, ◌>>=◌, vfs, einval}
use securefs.Lite.Names.{translate_path}
use securefs.Lite.FileSystem.{FileSystem}

-- What they call of OSService, over the folder as its state: `C` are the times of utimens and `V` is
-- a traverser of a directory.
pub record PathOps (W C V : Type 0) : Type 0 where
  pub mkdir : W → List ℕ → ℕ → Result W
  pub remove_directory : W → List ℕ → Result W
  pub rename : W → List ℕ → List ℕ → Result W
  pub chmod : W → List ℕ → ℕ → Result W
  pub chown : W → List ℕ → ℕ → ℕ → Result W
  pub utimens : W → List ℕ → C → Result W
  pub remove_file : W → List ℕ → Result W
  pub link : W → List ℕ → List ℕ → Result W
  pub create_traverser : W → List ℕ → Result V

module _ {W C V R : Type 0} (root : PathOps W C V) (fs : FileSystem R) where
  abbrev pub enc : List ℕ → Result (List ℕ)
  enc path = translate_path fs.name_encryptor fs.utf8proc_map fs.case_fold fs.nfc path false

  unfoldable pub mkdir : W → List ℕ → ℕ → Result W
  mkdir w path mode = enc path >>= λ name. root.mkdir w name mode

  unfoldable pub rmdir : W → List ℕ → Result W
  rmdir w path = enc path >>= λ name. root.remove_directory w name

  -- C++ leaves the order of two arguments open; here the first is translated first.
  unfoldable pub rename : W → List ℕ → List ℕ → Result W
  rename w from to = do from_name ← enc from; to_name ← enc to; root.rename w from_name to_name

  -- The warning about a mode without S_IRUSR is left out.
  unfoldable pub chmod : W → List ℕ → ℕ → Result W
  chmod w path mode = enc path >>= λ name. root.chmod w name mode

  unfoldable pub chown : W → List ℕ → ℕ → ℕ → Result W
  chown w path uid gid = enc path >>= λ name. root.chown w name uid gid

  unfoldable pub utimens : W → List ℕ → C → Result W
  utimens w path ts = enc path >>= λ name. root.utimens w name ts

  unfoldable pub unlink : W → List ℕ → Result W
  unlink w path = enc path >>= λ name. root.remove_file w name

  unfoldable pub link : W → List ℕ → List ℕ → Result W
  link w src dest = do src_name ← enc src; dest_name ← enc dest; root.link w src_name dest_name

  unfoldable pub create_traverser : W → List ℕ → Result V
  create_traverser w path =
      if length path == 0
      then throw (vfs einval)
      else (enc path >>= λ name. root.create_traverser w name)
