-- ===== src/SimpleDir.antt =====
-- SimpleDirectory of sources/files.h and sources/files.cpp: a map of names, kept in a stream as
-- records of 292 bytes.
pub mod Refines
pub mod Saved
use securefs.Prelude.{
  ℕ, zero, suc, ◌+◌, ◌-◌, ◌*◌, ◌/◌, ◌^◌, ◌%◌, Bool, true, false, List, [], ◌∷◌, ◌++◌, Option, none,
  some, length, take, drop, leb, ltb, u32, u64, if◌then◌else◌,
}
use securefs.Error.{Result, ok, throw, stuck, ◌>>=◌, ◌>>◌, vfs, Errno, enametoolong}
use securefs.Endian.{to_little_endian, from_little_endian}
use securefs.Stream.{StreamOps}
use securefs.Text.{c_string}
use securefs.Maps.{find, erase, emplace}
use securefs.BtreeDir.{max_filename_length, id_length, name_field}

-- An id and a type.
abbrev pub Value : Type 0
Value = List ℕ × ℕ

pub record Dir (S : Type 0) : Type 0 where
  pub stream : S
  pub table : List (List ℕ × Value)
  pub dirty : Bool

-- The size of the buffer.
abbrev pub record_size : ℕ
record_size = max_filename_length + 1 + 32 + 4

-- The buffer of subflush for one pair.
unfoldable pub record_bytes : List ℕ × Value → List ℕ
record_bytes (name, (id, type)) = name_field name ++ (id ++ to_little_endian 4 (u32 type))

module _ {S : Type 0} (under : StreamOps S) where
  -- The loop of initialize, from `off` on.
  unfoldable pub initialize_loop :
      ℕ → S → ℕ → List (List ℕ × Value) → Result (List (List ℕ × Value))
  initialize_loop zero s off table = stuck
  initialize_loop (suc fuel) s off table = do
    buffer ← under.read s off record_size
    let name = c_string (take max_filename_length buffer)
    let value : Value = (
      take id_length (drop (max_filename_length + 1) buffer),
      from_little_endian 4 (drop (record_size - 4) buffer),
    )
    let rest = initialize_loop fuel s (u64 (off + record_size)) (emplace table name value)
    if ltb (length buffer) record_size then ok table else rest

  -- The constructor; `unset` is what `m_dirty` has before anything was written to it.
  unfoldable pub initialize : S → Bool → Result (Dir S)
  initialize s unset = do
    table ← initialize_loop (under.size s / record_size + 1) s 0 []
    ok (record { stream = s; table = table; dirty = unset })

  unfoldable pub get_entry_impl : Dir S → List ℕ → Option Value
  get_entry_impl d name = find d.table name

  -- From what the map has under the name.
  unfoldable pub add_found : Dir S → List ℕ → Value → Option Value → Bool × Dir S
  add_found d name value none =
      (true, record d { table = emplace d.table name value; dirty = true })
  add_found d name value (some _) = (false, d)

  unfoldable pub add_entry_impl : Dir S → List ℕ → Value → Result (Bool × Dir S)
  add_entry_impl d name value =
      if ltb max_filename_length (length name)
      then throw (vfs enametoolong)
      else ok (add_found d name value (find d.table name))

  unfoldable pub remove_found : Dir S → List ℕ → Option Value → Option Value × Dir S
  remove_found d name none = (none, d)
  remove_found d name (some value) =
      (some value, record d { table = erase d.table name; dirty = true })

  unfoldable pub remove_entry_impl : Dir S → List ℕ → Option Value × Dir S
  remove_entry_impl d name = remove_found d name (find d.table name)

  -- The loop of subflush, from `off` on.
  unfoldable pub subflush_loop : S → ℕ → List (List ℕ × Value) → Result S
  subflush_loop s off [] = ok s
  subflush_loop s off (pair ∷ table) =
      let written = (do
        s' ← under.write s (record_bytes pair) off
        subflush_loop s' (u64 (off + record_size)) table) in
      let skipped = subflush_loop s off table in
      if ltb max_filename_length (length pair.0) then skipped else written

  unfoldable pub subflush : Dir S → Result (Dir S)
  subflush d =
      if d.dirty
      then (do
        emptied ← under.resize d.stream 0
        s ← subflush_loop emptied 0 d.table
        ok (record d { stream = s; dirty = false }))
      else ok d

  unfoldable pub empty : Dir S → Bool
  empty d = leb (length d.table) 0
