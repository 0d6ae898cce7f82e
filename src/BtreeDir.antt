-- ===== src/BtreeDir.antt =====
-- The pages of a B-tree directory: nodes to and from buffers, of
-- sources/btree_dir.h and sources/btree_dir.cpp.
pub mod Nodes
pub mod Pages
use securefs.Prelude.{
  ℕ, zero, suc, ◌+◌, ◌-◌, ◌%◌, ◌^◌, List, [], ◌∷◌, ◌++◌, Option, none, some, length, take, drop,
  replicate, leb, ◌==◌, if◌then◌else◌,
}
use securefs.Error.{
  Result, ok, throw, ◌>>=◌, ◌>>◌, guard, vfs, Errno, enametoolong, corrupted_directory,
}
use securefs.Text.{c_string}
use securefs.Endian.{to_little_endian, from_little_endian}

abbrev pub max_filename_length : ℕ
max_filename_length = 255

abbrev pub id_length : ℕ
id_length = 32

pub record DirEntry : Type 0 where
  pub filename : List ℕ
  pub id : List ℕ
  pub type_code : ℕ

-- m_child_indices and m_entries of a node; the rest is not stored.
pub record Node : Type 0 where
  pub children : List ℕ
  pub entries : List DirEntry

-- The check of write_and_forward and its kin: what is left of the buffer behind `n` bytes.
unfoldable pub room : ℕ → ℕ → Result ℕ
room left n = guard (leb n left) corrupted_directory >> ok (left - n)

-- The name in a field of 256 bytes.
unfoldable pub name_field : List ℕ → List ℕ
name_field filename = filename ++ replicate (max_filename_length + 1 - length filename) 0

-- The loop on the children: the bytes written, and what is left of the buffer.
unfoldable pub write_children : ℕ → List ℕ → Result (List ℕ × ℕ)
write_children left [] = ok ([], left)
write_children left (index ∷ children) = do
  here ← room left 4
  (bytes, end) ← write_children here children
  ok (to_little_endian 4 index ++ bytes, end)

-- The loop on the entries. The type is copied as the machine has it, which is little-endian.
unfoldable pub write_entries : ℕ → List DirEntry → Result (List ℕ)
write_entries left [] = ok []
write_entries left (e ∷ entries) = do
  guard (leb (length e.filename) max_filename_length) (vfs enametoolong)
  after_name ← room left (max_filename_length + 1)
  after_id ← room after_name id_length
  here ← room after_id 4
  bytes ← write_entries here entries
  ok (name_field e.filename ++ (e.id ++ (to_little_endian 4 e.type_code ++ bytes)))

-- The bytes that to_buffer writes at the start of a buffer of `size` bytes.
unfoldable pub to_buffer : Node → ℕ → Result (List ℕ)
to_buffer n size = do
  after_flag ← room size 4
  after_children ← room after_flag 2
  after_entries ← room after_children 2
  (children, left) ← write_children after_entries n.children
  entries ← write_entries left n.entries
  ok (
      to_little_endian 4 1
      ++ (to_little_endian 2 (length n.children % 2 ^ 16)
          ++ (to_little_endian 2 (length n.entries % 2 ^ 16) ++ (children ++ entries))))

-- read_little_endian_and_forward, for a type of `size` bytes.
unfoldable pub read_number : ℕ → List ℕ → Result (ℕ × List ℕ)
read_number size buffer = do
  guard (leb size (length buffer)) corrupted_directory
  ok (from_little_endian size buffer, drop size buffer)

-- read_and_forward, for an array of `n` bytes.
unfoldable pub read_bytes : ℕ → List ℕ → Result (List ℕ × List ℕ)
read_bytes n buffer = do
  guard (leb n (length buffer)) corrupted_directory
  ok (take n buffer, drop n buffer)

unfoldable pub read_children : ℕ → List ℕ → Result (List ℕ × List ℕ)
read_children zero buffer = ok ([], buffer)
read_children (suc k) buffer = do
  (index, behind) ← read_number 4 buffer
  (children, rest) ← read_children k behind
  ok (index ∷ children, rest)

-- `filename.back() = 0` ends the name at the latest.
unfoldable pub read_entries : ℕ → List ℕ → Result (List DirEntry)
read_entries zero buffer = ok []
read_entries (suc k) buffer = do
  (filename, behind_name) ← read_bytes (max_filename_length + 1) buffer
  (id, behind_id) ← read_bytes id_length behind_name
  (type_code, behind) ← read_number 4 behind_id
  entries ← read_entries k behind
  ok (
      record {
        filename = c_string (take max_filename_length filename);
        id = id;
        type_code = type_code;
      }
      ∷ entries)

-- Into a node that is new; none is the result false.
unfoldable pub from_buffer : List ℕ → Result (Option Node)
from_buffer buffer = do
  (flag, behind_flag) ← read_number 4 buffer
  if flag == 0 then ok none else do
    (child_num, behind_children) ← read_number 2 behind_flag
    (entry_num, behind_entries) ← read_number 2 behind_children
    (children, rest) ← read_children child_num behind_entries
    entries ← read_entries entry_num rest
    ok (some (record { children = children; entries = entries }))
