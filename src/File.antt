-- ===== src/File.antt =====
-- FileBase of sources/files.h and sources/files.cpp: the attributes of a file, and the header in
-- which they are stored.
pub mod Header
pub mod Links
pub mod Xattrs
use securefs.Prelude.{
  ℕ, suc, zero, ◌+◌, ◌-◌, ◌*◌, ◌/◌, ◌%◌, ◌^◌, Bool, true, false, ◌&&◌, ◌||◌, not, List, [], ◌∷◌,
  ◌++◌, Option, none, some, length, drop, replicate, ltb, ◌==◌, u32, overlay, if◌then◌else◌,
}
use securefs.Error.{
  Result, ok, throw, ◌>>=◌, ◌>>◌, guard, Errno, eperm, einval, enotdir, invalid_cast,
  file_type_inconsistency,
}
use securefs.Endian.{to_little_endian, from_little_endian}

-- fuse_timespec
pub record Timespec : Type 0 where
  pub tv_sec : ℕ
  pub tv_nsec : ℕ

-- HeaderBase of sources/streams.h: read_header tells whether there is a header, and its bytes.
pub record HeaderOps (H : Type 0) : Type 0 where
  pub read_header : H → ℕ → Result (Bool × List ℕ)
  pub write_header : H → List ℕ → Result H

-- m_flags[0] to m_flags[6] by the names of their getters, the times, and the flags of the object.
pub record File (H : Type 0) : Type 0 where
  pub header : H
  pub mode : ℕ
  pub uid : ℕ
  pub gid : ℕ
  pub nlink : ℕ
  pub root_page : ℕ
  pub start_free_page : ℕ
  pub num_free_page : ℕ
  pub atime : Timespec
  pub mtime : Timespec
  pub ctime : Timespec
  pub birthtime : Timespec
  pub is_dirty : Bool
  pub store_time : Bool

abbrev pub atime_offset : ℕ
atime_offset = 28

abbrev pub mtime_offset : ℕ
mtime_offset = 40

abbrev pub ctime_offset : ℕ
ctime_offset = 52

abbrev pub btime_offset : ℕ
btime_offset = 64

abbrev pub stored_size : Bool → ℕ
stored_size store_time = if store_time then 80 else 32

abbrev pub regular_file : ℕ
regular_file = 8

abbrev pub symlink : ℕ
symlink = 10

abbrev pub directory : ℕ
directory = 4

abbrev pub base : ℕ
base = 255

unfoldable pub error_number_for_not : ℕ → Errno
error_number_for_not type =
    if type == regular_file
    then eperm
    else if type == symlink
    then einval
    else if type == directory
    then enotdir
    else einval

abbrev pub zero_time : Timespec
zero_time = record { tv_sec = 0; tv_nsec = 0 }

module _ {H : Type 0} where
  -- The first part of the constructor, and initialize_empty; `now` is what the clock shows.
  unfoldable pub initialize_empty : Timespec → File H → ℕ → ℕ → ℕ → File H
  initialize_empty now f mode uid gid =
      let t = if f.store_time then now else zero_time in
      record f {
        mode = mode;
        uid = uid;
        gid = gid;
        nlink = 1;
        root_page = 2 ^ 32 - 1;
        start_free_page = 2 ^ 32 - 1;
        num_free_page = 0;
        atime = t;
        mtime = t;
        ctime = t;
        birthtime = t;
      }

  unfoldable pub update_atime_helper : Timespec → File H → File H
  update_atime_helper now f =
      if f.store_time && (ltb f.atime.tv_sec f.mtime.tv_sec || ltb f.atime.tv_sec f.ctime.tv_sec)
      then record f { atime = now; is_dirty = true }
      else f

  unfoldable pub update_mtime_helper : Timespec → File H → File H
  update_mtime_helper now f =
      if f.store_time then record f { mtime = now; ctime = now; is_dirty = true } else f

  unfoldable pub update_ctime_helper : Timespec → File H → File H
  update_ctime_helper now f = if f.store_time then record f { ctime = now; is_dirty = true } else f

  unfoldable pub set_mode : Timespec → File H → ℕ → File H
  unfolding update_ctime_helper
  set_mode now f value =
      if f.mode == value
      then f
      else record (update_ctime_helper now (record f { mode = value })) { is_dirty = true }

  unfoldable pub set_uid : Timespec → File H → ℕ → File H
  unfolding update_ctime_helper
  set_uid now f value =
      if f.uid == value
      then f
      else record (update_ctime_helper now (record f { uid = value })) { is_dirty = true }

  unfoldable pub set_gid : Timespec → File H → ℕ → File H
  unfolding update_ctime_helper
  set_gid now f value =
      if f.gid == value
      then f
      else record (update_ctime_helper now (record f { gid = value })) { is_dirty = true }

  unfoldable pub set_nlink : Timespec → File H → ℕ → File H
  unfolding update_ctime_helper
  set_nlink now f value =
      if f.nlink == value
      then f
      else record (update_ctime_helper now (record f { nlink = value })) { is_dirty = true }

  unfoldable pub set_num_free_page : File H → ℕ → File H
  set_num_free_page f value = record f { num_free_page = value; is_dirty = true }

  -- `--nlink` on a uint32_t.
  unfoldable pub unlink : Timespec → File H → File H
  unfolding set_nlink
  unlink now f = set_nlink now f (u32 (f.nlink + (2 ^ 32 - 1)))

  unfoldable pub is_unlinked : File H → Bool
  is_unlinked f = f.nlink == 0

  -- The case that times are stored; otherwise the call goes to the stream of the data. `unset` is
  -- what the local variable current_time holds, which is not initialized.
  unfoldable pub utimens : Timespec → File H → Option (Timespec × Timespec) → File H
  utimens unset f (some ts) = record f {
    atime = ts.0;
    mtime = ts.1;
    ctime = unset;
    is_dirty = true;
  }
  utimens unset f none = record f { atime = unset; mtime = unset; ctime = unset; is_dirty = true }

  -- get_mode() & S_IFMT
  abbrev pub format_of : File H → ℕ
  format_of f = f.mode / 4096 % 16 * 4096

  unfoldable pub get_real_type : File H → ℕ
  get_real_type f = format_of f / 4096

  -- cast_as to the class of type `target`, on an object whose type() is `type`.
  unfoldable pub cast_as : File H → ℕ → ℕ → Result (File H)
  cast_as f type target = do
    guard ((type == base) || (type * 4096 == format_of f)) file_type_inconsistency
    guard (type == target) invalid_cast
    ok f

-- The loop that writes the flags, from number `i` on.
unfoldable pub write_flags : List ℕ → ℕ → List ℕ → List ℕ
write_flags [] i header = header
write_flags (flag ∷ flags) i header =
    write_flags flags (i + 1) (overlay header (i * 4) (to_little_endian 4 flag))

unfoldable pub write_time : List ℕ → ℕ → Timespec → List ℕ
write_time header offset t =
    overlay (overlay header offset (to_little_endian 8 t.tv_sec)) (offset + 8)
      (to_little_endian 4 t.tv_nsec)

unfoldable pub read_time : List ℕ → ℕ → Timespec
read_time header offset = record {
  tv_sec = from_little_endian 8 (drop offset header);
  tv_nsec = from_little_endian 4 (drop (offset + 8) header);
}

-- The bytes that `flush` writes, from the flags and the times.
unfoldable pub encode_fields : Bool → List ℕ → Timespec → Timespec → Timespec → Timespec → List ℕ
encode_fields store_time flags atime mtime ctime birthtime =
    let header = write_flags flags 0 (replicate (stored_size store_time) 0) in
    if store_time
    then write_time
        (write_time (write_time (write_time header atime_offset atime) mtime_offset mtime)
          ctime_offset ctime)
        btime_offset birthtime
    else header

module _ {H : Type 0} (headers : HeaderOps H) where
  unfoldable pub encode_header : File H → List ℕ
  encode_header f =
      encode_fields f.store_time
        (f.mode ∷ f.uid ∷ f.gid ∷ f.nlink ∷ f.root_page ∷ f.start_free_page ∷ f.num_free_page ∷ [])
        f.atime f.mtime f.ctime f.birthtime

  unfoldable pub decode_header : File H → List ℕ → File H
  unfolding read_time
  decode_header f header =
      let g = record f {
        mode = from_little_endian 4 (drop 0 header);
        uid = from_little_endian 4 (drop 4 header);
        gid = from_little_endian 4 (drop 8 header);
        nlink = from_little_endian 4 (drop 12 header);
        root_page = from_little_endian 4 (drop 16 header);
        start_free_page = from_little_endian 4 (drop 20 header);
        num_free_page = from_little_endian 4 (drop 24 header);
      } in
      if f.store_time
      then record g {
        atime = read_time header atime_offset;
        mtime = read_time header mtime_offset;
        ctime = read_time header ctime_offset;
        birthtime = read_time header btime_offset;
      }
      else g

  -- m_flags after memset(m_flags, 0xFF, sizeof(m_flags)).
  abbrev pub erased : File H → File H
  erased f =
      let all = 2 ^ 32 - 1 in
      record f {
        mode = all;
        uid = all;
        gid = all;
        nlink = all;
        root_page = all;
        start_free_page = all;
        num_free_page = all;
      }

  unfoldable pub read_header : File H → Result (File H)
  read_header f = do
    (rc, header) ← headers.read_header f.header (stored_size f.store_time)
    ok (if not rc then set_num_free_page (erased f) 0 else decode_header (erased f) header)

  -- The flushes of the streams, which change nothing that is read, are left out; `subflush` is the
  -- virtual function.
  unfoldable pub flush : (File H → Result (File H)) → File H → Result (File H)
  flush subflush f = do
    g ← subflush f
    if g.is_dirty
        then (headers.write_header g.header (encode_header g) >>= λ header.
            ok (record g { header = header; is_dirty = false }))
        else ok g
