-- ===== src/Tests/Links.antt =====
-- Witnesses for the file system of the lite format and for extended attributes.
use securefs.Prelude.{
  segment, segment-zero, is_all_zeros, min, ◌-◌, ◌*◌, zero, suc, ℕ, ◌<◌, ◌≡◌, refl, ap, subst, true,
  false, List, [], ◌∷◌, ◌++◌, Option, none, some, length, take-all, take, replicate, same,
  same_refl, arith,
}
use securefs.Error.{ok-injective, Result, ok, throw, posix, enoent}
use securefs.Maps.{find, erase}
use securefs.Text.{c_string}
use securefs.Text.Base32.{base32_encode, encode_loop, get_alphabet_index}
use securefs.Crypto.Siv.{encrypt_and_authenticate, s2v}
use securefs.Stream.Memory.{memory}
use securefs.Stream.Block.{read}
use securefs.Lite.Stream.{LiteStream, size, lite_blocks, open_block}
use securefs.Lite.Stream.Blocks.{lite_byte, IsLiteFile, sealed_block, from_blocks}
use securefs.Lite.Names.{encrypt_path, encrypt_from, encrypt_part, transform, translate_path}
use securefs.Lite.Names.RoundTrip.{FitsFrom}
use securefs.Lite.FileSystem.{
  wronly, OpenFlags, FileSystem, RootOps, Stat, iflnk, translate, open_file, stat, readlink,
  symlink, link_room,
}
use securefs.Lite.FileSystem.Symlinks.{RootLinks, readlink-symlink, stat-symlink}
use securefs.Lite.FileSystem.Opening.{open_file_lem}
use securefs.File.Xattrs.{XattrOps, XattrLaws, XattrFile, getxattr, setxattr, getxattr-setxattr}
use securefs.Tests.Setup.{
  memory_file, toy_rng, toy_rng_laws, toy_gcm, toy_gcm_laws, lite_options, lite_room, unset,
}
use securefs.Tests.Names.{toy_siv, toy_siv_laws, no_map, name_of_a, name_of_b}

-- A header, and a block of one byte.
abbrev stored : List ℕ
stored = replicate 16 9 ++ (replicate 12 7 ++ ((5 ∷ []) ++ replicate 16 1))

abbrev one_byte_file : LiteStream (List ℕ) (Unit {0})
one_byte_file = record { stream = stored; rng = tt; session = toy_gcm }

-- A folder of links, newest first; every other file is `stored`.
abbrev Folder : Type 0
Folder = List (List ℕ × List ℕ)

abbrev target : ℕ → Option (List ℕ) → Result (List ℕ)
target n (some to) = ok (take n to)
target n none = throw (posix enoent)

abbrev target_size : Option (List ℕ) → Result ℕ
target_size (some to) = ok (length to)
target_size none = throw (posix enoent)

abbrev told : Option (List ℕ) → Option Stat
told (some to) = some (record { file_type = iflnk; st_size = length to })
told none = none

abbrev toy_root : RootOps Folder (List ℕ)
toy_root = record {
  open_file_stream = λ w name flags owner_read. ok (stored, w);
  stat = λ w name. ok (told (find w name));
  readlink = λ w name n. target n (find w name);
  symlink = λ w to from. ok ((from, to) ∷ w);
}

toy_links : RootLinks toy_root
unfolding find
toy_links = record {
  reads = λ w w' to from n e.
      subst (λ v. target n (find v from) ≡ ok (take n to)) (ok-injective e)
        (rw (same_refl from) refl);
}

abbrev toy_fs : FileSystem (Unit {0})
toy_fs = record {
  name_encryptor = toy_siv;
  utf8proc_map = no_map;
  case_fold = false;
  nfc = false;
  options = lite_options;
  derive = λ header. header;
  cipher = λ key. toy_gcm;
}

a_name : translate toy_root memory toy_rng unset toy_fs (97 ∷ []) true ≡ ok name_of_a
unfolding translate_path transform encrypt_path encrypt_from encrypt_part base32_encode encode_loop
    get_alphabet_index encrypt_and_authenticate s2v c_string same
a_name = refl

b_name : translate toy_root memory toy_rng unset toy_fs (47 ∷ 98 ∷ []) false ≡ ok name_of_b
unfolding translate_path transform encrypt_path encrypt_from encrypt_part base32_encode encode_loop
    get_alphabet_index encrypt_and_authenticate s2v c_string same
b_name = refl

a_fits : FitsFrom [] (97 ∷ [])
unfolding FitsFrom
a_fits = omega arith

abbrev linked_folder : Folder
linked_folder = (name_of_b, name_of_a) ∷ []

-- Sixteen bytes of room hold the target and a zero.
b_room : length name_of_a < link_room toy_root memory toy_rng unset toy_fs 16
unfolding link_room
b_room = omega arith

readlink-symlink_example :
    (symlink toy_root memory toy_rng unset toy_fs [] (97 ∷ []) (47 ∷ 98 ∷ []) ≡ ok linked_folder)
    × (readlink toy_root memory toy_rng unset toy_fs linked_folder (47 ∷ 98 ∷ []) 16 ≡ ok (97 ∷ []))
readlink-symlink_example =
    readlink-symlink toy_root memory toy_rng unset toy_fs toy_siv_laws toy_links refl refl []
      linked_folder (97 ∷ []) (47 ∷ 98 ∷ []) name_of_a name_of_b (omega arith) a_fits
      (omega arith, tt) (omega arith, tt) a_name b_name refl 16 (omega arith) b_room

b_found : told (find linked_folder name_of_b) ≡ some (record { file_type = iflnk; st_size = 28 })
unfolding find same
b_found = refl

stat-symlink_example :
    stat toy_root memory toy_rng unset toy_fs linked_folder (47 ∷ 98 ∷ [])
    ≡ ok (some (record { file_type = iflnk; st_size = 1 }))
stat-symlink_example =
    stat-symlink toy_root memory toy_rng unset toy_fs toy_siv_laws toy_links refl refl []
      linked_folder (97 ∷ []) (47 ∷ 98 ∷ []) name_of_a name_of_b (omega arith) a_fits
      (omega arith, tt) (omega arith, tt) a_name b_name refl
      (record { file_type = iflnk; st_size = 28 }) (ap ok b_found) refl refl (omega arith)

abbrev append_flags : OpenFlags
append_flags = record { access = wronly; append = true; creat = false; trunc = false }

one_plain : ℕ → List ℕ
one_plain zero = 5 ∷ []
one_plain (suc m) = []

one_opens :
    (m : ℕ)
    → open_block memory toy_rng lite_options toy_gcm m
        (sealed_block memory_file toy_rng lite_options one_byte_file m)
      ≡ ok (one_plain m)
unfolding open_block one_plain is_all_zeros same segment
one_opens zero = refl
one_opens (suc m) =
    let empty : sealed_block memory_file toy_rng lite_options one_byte_file (suc m) ≡ [] =
      segment-zero _ _ _ (omega arith) in
    rw empty refl

one_length : (m : ℕ) → length (one_plain m) ≡ min 32 (1 - m * 32)
unfolding one_plain
one_length zero = refl
one_length (suc m) = omega arith

one_byte_file-IsLiteFile : IsLiteFile memory_file toy_rng lite_options one_byte_file
one_byte_file-IsLiteFile =
    (from_blocks memory_file toy_rng lite_options (omega arith) one_byte_file 1 one_plain
      (omega arith) toy_gcm_laws refl (omega arith) one_opens one_length).0

open_file_lem_example :
    (s' : LiteStream (List ℕ) (Unit {0})) × (open_file toy_root memory toy_rng unset toy_fs [] tt
        (47 ∷ 98 ∷ [])
        append_flags
        true
      ≡ ok (s', []))
    × (size memory toy_rng lite_options s' ≡ size memory toy_rng lite_options one_byte_file)
    × (read
          (lite_blocks memory toy_rng lite_options)
          unset
          s'
          0
          (size memory toy_rng lite_options s')
        ≡ ok (
            segment
              (lite_byte memory_file toy_rng lite_options one_byte_file)
              0
              (size memory toy_rng lite_options one_byte_file)))
    × ((i : ℕ)
        → lite_byte memory_file toy_rng lite_options s' i
          ≡ lite_byte memory_file toy_rng lite_options one_byte_file i)
    × IsLiteFile memory_file toy_rng lite_options s'
open_file_lem_example =
    open_file_lem toy_root memory_file toy_rng unset toy_fs toy_rng_laws (omega arith) (omega arith)
      (omega arith) lite_room refl [] [] tt (47 ∷ 98 ∷ []) name_of_b append_flags true stored b_name
      refl one_byte_file-IsLiteFile

abbrev toy_xattrs : XattrOps Folder
toy_xattrs = record {
  getxattr = λ s name size. target size (find s name);
  sizexattr = λ s name. target_size (find s name);
  setxattr = λ s name value flags. ok ((name, value) ∷ s);
  removexattr = λ s name. ok (erase s name);
}

toy_attributes : XattrLaws toy_xattrs
unfolding find
toy_attributes = record {
  gets = λ s s' name value flags size e h.
      subst (λ v. target size (find v name) ≡ ok value) (ok-injective e)
        (rw (same_refl name) (ap ok (take-all size value h)));
  sizes = λ s s' name value flags e.
      subst (λ v. target_size (find v name) ≡ ok (length value)) (ok-injective e)
        (rw (same_refl name) refl);
}

abbrev plain_file : XattrFile Folder Folder (Unit {0})
plain_file = record {
  data_stream = [];
  meta_stream = [];
  rng = tt;
  session = toy_gcm;
  id = 3 ∷ [];
  check = true;
}

getxattr-setxattr_example :
    (f' : XattrFile Folder Folder (Unit {0})) × (setxattr toy_xattrs toy_xattrs toy_rng plain_file
        (some (97 ∷ []))
        (some (5 ∷ 6 ∷ []))
        0
      ≡ ok f')
    × (getxattr toy_xattrs toy_xattrs toy_rng f' (some (97 ∷ [])) (some 10) ≡ ok (5 ∷ 6 ∷ [], 2))
    × (getxattr toy_xattrs toy_xattrs toy_rng f' (some (97 ∷ [])) none ≡ ok ([], 2))
getxattr-setxattr_example =
    getxattr-setxattr toy_xattrs toy_xattrs toy_rng toy_attributes toy_attributes
      toy_rng_laws.length_random plain_file (97 ∷ []) (5 ∷ 6 ∷ []) 0 10 ((97 ∷ [], 5 ∷ 6 ∷ []) ∷ [])
      ((97 ∷ [], replicate 16 7 ++ replicate 16 1) ∷ []) toy_gcm_laws refl refl (omega arith)
