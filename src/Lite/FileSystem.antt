-- ===== src/Lite/FileSystem.antt =====
-- FileSystem of sources/lite_fs.cpp: opening files, symbolic links, and what stat tells.
pub mod Symlinks
pub mod Opening
pub mod Forwarded
use securefs.Prelude.{
  ℕ, ◌+◌, ◌-◌, ◌*◌, ◌/◌, Bool, true, false, ◌&&◌, ◌||◌, not, List, [], ◌++◌, Option, none, some,
  length, take, min, replicate, leb, ltb, ◌==◌, u64, if◌then◌else◌,
}
use securefs.Error.{Result, ok, throw, ◌>>=◌, ◌>>◌, guard, vfs, Errno, eio, einval, enotsup}
use securefs.Text.{c_string}
use securefs.Crypto.{Gcm, Rng}
use securefs.Crypto.Siv.{SivCiphers}
use securefs.Stream.{StreamOps}
use securefs.Stream.Block.{resize}
use securefs.Lite.Stream.{LiteOptions, LiteStream, lite_open, lite_blocks, calculate_real_size}
use securefs.Lite.Names.{decrypt_path, translate_path}

-- O_ACCMODE, O_APPEND, O_CREAT and O_TRUNC of the flags of open.
pub data Access : Type 0 where
  rdonly wronly rdwr : Access

pub record OpenFlags : Type 0 where
  pub access : Access
  pub append : Bool
  pub creat : Bool
  pub trunc : Bool

-- S_IFMT of a mode, and the parts of fuse_stat that are looked at.
pub data FileType : Type 0 where
  iflnk ifdir ifreg ifother : FileType

pub record Stat : Type 0 where
  pub file_type : FileType
  pub st_size : ℕ

-- m_root, the OSService, over the folder as its state. `owner_read` is S_IRUSR of a mode.
pub record RootOps (W T : Type 0) : Type 0 where
  pub open_file_stream : W → List ℕ → OpenFlags → Bool → Result (T × W)
  pub stat : W → List ℕ → Result (Option Stat)
  pub readlink : W → List ℕ → ℕ → Result (List ℕ)
  pub symlink : W → List ℕ → List ℕ → Result W

-- The members of a FileSystem: m_name_encryptor, the flags of names, the numbers of a file, and what
-- its files are made with.
pub record FileSystem (R : Type 0) : Type 0 where
  pub name_encryptor : SivCiphers
  pub utf8proc_map : Bool → Bool → List ℕ → Result (List ℕ)
  pub case_fold : Bool
  pub nfc : Bool
  pub options : LiteOptions
  pub derive : List ℕ → List ℕ
  pub cipher : List ℕ → Gcm

-- The flags that are handed to the OSService.
unfoldable pub writable : Access → Access
writable wronly = rdwr
writable access = access

unfoldable pub adjusted_flags : OpenFlags → OpenFlags
adjusted_flags flags = record flags { access = writable flags.access; append = false }

module _ {W T R : Type 0} (root : RootOps W T) (streams : StreamOps T) (random : Rng R)
    (unset : List ℕ) (fs : FileSystem R) where
  open fs use {name_encryptor, options}

  abbrev pub translate : List ℕ → Bool → Result (List ℕ)
  translate path preserve_leading_slash =
      translate_path name_encryptor fs.utf8proc_map fs.case_fold fs.nfc path preserve_leading_slash

  -- `rng` is the generator's state.
  unfoldable pub open_file : W → R → List ℕ → OpenFlags → Bool → Result (LiteStream T R × W)
  open_file w rng path flags owner_read = do
    name ← translate path false
    (file_stream, w') ←
        root.open_file_stream w name (adjusted_flags flags) (owner_read || flags.creat)
    fp ← lite_open streams random options fs.derive fs.cipher file_stream rng
    if flags.trunc
        then (resize (lite_blocks streams random options) unset fp 0 >>= λ fp'. ok (fp', w'))
        else ok (fp, w')

  -- The size of a link; readlink may tell that of its target in UTF-16 on NTFS.
  unfoldable pub stat_link : W → List ℕ → Stat → Result Stat
  stat_link w enc_path buf = do
    buffer ← root.readlink w enc_path buf.st_size
    guard
        (length buffer == buf.st_size
          || leb 7 buf.st_size && (length buffer == (buf.st_size - 8) / 2))
        (vfs eio)
    resolved ← decrypt_path name_encryptor buffer
    ok (record buf { st_size = length resolved })

  unfoldable pub stat_of_type : W → List ℕ → Stat → FileType → Result Stat
  stat_of_type w enc_path buf iflnk = stat_link w enc_path buf
  stat_of_type w enc_path buf ifdir = ok buf
  stat_of_type w enc_path buf ifreg =
      ok (record buf {
        st_size = calculate_real_size buf.st_size options.block_size options.iv_size;
      })
  stat_of_type w enc_path buf ifother = throw (vfs enotsup)

  unfoldable pub stat_found : W → List ℕ → Option Stat → Result (Option Stat)
  stat_found w enc_path none = ok none
  stat_found w enc_path (some buf) =
      if buf.st_size == 0
      then ok (some buf)
      else (stat_of_type w enc_path buf buf.file_type >>= λ buf'. ok (some buf'))

  -- None is the result false.
  unfoldable pub stat : W → List ℕ → Result (Option Stat)
  stat w path = do
    enc_path ← translate path false
    found ← root.stat w enc_path
    stat_found w enc_path found

  -- The room for the target of a link that is read into `size` bytes.
  unfoldable pub link_room : ℕ → ℕ
  link_room size = u64 (size / 5 * 8 + 32)

  -- The bytes before the terminating zero in the buffer.
  unfoldable pub readlink : W → List ℕ → ℕ → Result (List ℕ)
  readlink w path size = if size == 0 then ok [] else do
    name ← translate path false
    under ← root.readlink w name (link_room size - 1)
    resolved ←
        decrypt_path name_encryptor
          (c_string (under ++ replicate (link_room size - length under) 0))
    ok (take (min (length resolved) (size - 1)) resolved)

  unfoldable pub symlink : W → List ℕ → List ℕ → Result W
  symlink w to from = do
    eto ← translate to true
    efrom ← translate from false
    root.symlink w eto efrom
