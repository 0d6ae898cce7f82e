-- ===== src/Lite/FileSystem/Symlinks.antt =====
-- Symbolic links of the lite format: what readlink and stat tell of a link that symlink made.
use securefs.Prelude.{
  ℕ, ◌-◌, ◌<◌, ◌≡◌, refl, ap₂, sym, subst, ◌∙◌, true, false, List, [], take-all, some, length, take,
  min, All, pos→==, eq→==, arith,
}
use securefs.Error.{ok, ok-injective}
use securefs.Text.CStrings.{c_string-append}
use securefs.Crypto.{Rng}
use securefs.Crypto.Siv.{SivLaws}
use securefs.Stream.{StreamOps}
use securefs.Lite.Names.{decrypt_path, translate_path}
use securefs.Lite.Names.RoundTrip.{FitsFrom}
use securefs.Lite.Names.Translate.{decrypt_path-translate_path}
use securefs.Lite.FileSystem.{
  RootOps, FileSystem, Stat, iflnk, translate, stat, stat_found, stat_of_type, stat_link, link_room,
  readlink, symlink,
}

-- The documented behaviour of readlink: the target that the link was made with, as far as the
-- buffer has room.
pub record RootLinks {W T : Type 0} (root : RootOps W T) : Type 0 where
  pub reads :
      (w w' : W) (to from : List ℕ) (n : ℕ)
      → root.symlink w to from ≡ ok w'
      → root.readlink w' from n ≡ ok (take n to)

module _ {W T R : Type 0} (root : RootOps W T) (streams : StreamOps T) (random : Rng R)
    (unset : List ℕ) (fs : FileSystem R) (laws : SivLaws fs.name_encryptor) (links : RootLinks root)
    (no_fold : fs.case_fold ≡ false) (no_nfc : fs.nfc ≡ false) (w w' : W)
    (to from eto efrom : List ℕ) (some_codes : 0 < length to) (fits : FitsFrom [] to)
    (small : All (λ x. x < 256) to) (codes : All (λ x. 0 < x) to)
    (to_name : translate root streams random unset fs to true ≡ ok eto)
    (from_name : translate root streams random unset fs from false ≡ ok efrom)
    (linked : root.symlink w eto efrom ≡ ok w') where
  -- The target below is the encryption of the target.
  target_lem : (decrypt_path fs.name_encryptor eto ≡ ok to) × All (λ x. 0 < x) eto
  target_lem =
      let (str, translated, decrypted, nonzero) =
        decrypt_path-translate_path fs.name_encryptor laws fs.utf8proc_map to some_codes fits small
          codes in
      let same_target : str ≡ eto = ok-injective (
        sym translated
        ∙ ap₂ (λ a b. translate_path fs.name_encryptor fs.utf8proc_map a b to true) (sym no_fold)
            (sym no_nfc)
        ∙ to_name) in
      subst (λ t. (decrypt_path fs.name_encryptor t ≡ ok to) × All (λ x. 0 < x) t) same_target
        (decrypted, nonzero)

  -- Where names are neither folded nor normalised, and the target has bytes, none of them 0, in parts
  -- of at most 2000: if the system takes the link of the names below, symlink returns what it made. For
  -- a buffer of `size` bytes, with `size` not 0, if the translated target is shorter than the room that
  -- readlink makes for it, readlink then gives the target, as far as it fits before a terminating zero.
  pub readlink-symlink :
      (size : ℕ)
      → 0 < size
      → length eto < link_room root streams random unset fs size
      → (symlink root streams random unset fs w to from ≡ ok w')
        × (readlink root streams random unset fs w' from size
            ≡ ok (take (min (length to) (size - 1)) to))
  unfolding symlink readlink
  readlink-symlink size some_room room = (
    rw (to_name, from_name) linked,
    rw
        (
          pos→== size some_room,
          from_name,
          links.reads w w' eto efrom (link_room root streams random unset fs size - 1) linked,
          take-all (link_room root streams random unset fs size - 1) eto (omega arith),
          c_string-append eto (link_room root streams random unset fs size - length eto)
              target_lem.1,
          target_lem.0,
        )
        refl,
  )

  -- Where names are neither folded nor normalised, and the target has bytes, none of them 0, in parts
  -- of at most 2000: if the system has taken the link, and tells of it that it is a link and as long as
  -- the translated target, which is not empty, then stat tells the length of the target.
  pub stat-symlink :
      (buf : Stat)
      → root.stat w' efrom ≡ ok (some buf)
      → buf.file_type ≡ iflnk
      → buf.st_size ≡ length eto
      → 0 < length eto
      → stat root streams random unset fs w' from ≡ ok (some (record buf { st_size = length to }))
  unfolding stat stat_found stat_of_type stat_link
  stat-symlink buf found is_link same_size some_bytes =
      rw
        (
          from_name,
          found,
          pos→== buf.st_size (omega arith),
          is_link,
          links.reads w w' eto efrom buf.st_size linked,
          take-all buf.st_size eto (omega arith),
          eq→== (length eto) buf.st_size (omega arith),
          target_lem.0,
        )
        refl
