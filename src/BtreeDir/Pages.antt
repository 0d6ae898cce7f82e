-- ===== src/BtreeDir/Pages.antt =====
-- The free pages of a B-tree directory: read_free_page, write_free_page, allocate_page and
-- deallocate_page of sources/btree_dir.cpp.
pub mod FreeList
use securefs.Prelude.{
  ℕ, ◌+◌, ◌-◌, ◌*◌, ◌/◌, ◌^◌, List, ◌++◌, length, drop, replicate, ◌==◌, u32, u64, if◌then◌else◌,
}
use securefs.Error.{Result, ok, ◌>>=◌, ◌>>◌, guard, corrupted_directory}
use securefs.Endian.{to_little_endian, from_little_endian}
use securefs.Stream.{StreamOps}

abbrev pub invalid_page : ℕ
invalid_page = 2 ^ 32 - 1

-- BLOCK_SIZE
abbrev pub page_size : ℕ
page_size = 4096

pub record FreePage : Type 0 where
  pub next : ℕ
  pub prev : ℕ

-- The stream of a directory, and the fields of its header that these functions use.
pub record Dir (S : Type 0) : Type 0 where
  pub stream : S
  pub start_free_page : ℕ
  pub num_free_page : ℕ

-- The buffer of write_free_page.
abbrev pub page_bytes : FreePage → List ℕ
page_bytes fp =
    replicate 4 0
    ++ (to_little_endian 4 fp.next ++ (to_little_endian 4 fp.prev ++ replicate 4084 0))

-- Numbers of pages have 32 bits, and so have their products with BLOCK_SIZE.
module _ {S : Type 0} (under : StreamOps S) where
  unfoldable pub read_free_page : Dir S → ℕ → Result FreePage
  read_free_page s num = do
    buffer ← under.read s.stream (u32 (num * page_size)) page_size
    guard (length buffer == page_size) corrupted_directory
    guard (from_little_endian 4 buffer == 0) corrupted_directory
    ok (record {
      next = from_little_endian 4 (drop 4 buffer);
      prev = from_little_endian 4 (drop 8 buffer);
    })

  unfoldable pub write_free_page : Dir S → ℕ → FreePage → Result (Dir S)
  write_free_page s num fp = do
    stream ← under.write s.stream (page_bytes fp) (u32 (page_size * num))
    ok (record s { stream = stream })

  -- The page that was first in the list is its last, or the next one loses its predecessor.
  unfoldable pub detach : Dir S → Result (Dir S)
  detach s =
      if s.start_free_page == invalid_page
      then ok s
      else (read_free_page s s.start_free_page >>= λ fp.
          write_free_page s s.start_free_page (record fp { prev = invalid_page }))

  unfoldable pub allocate_page : Dir S → Result (ℕ × Dir S)
  allocate_page s =
      if s.start_free_page == invalid_page
      then (under.resize s.stream (u64 (under.size s.stream + page_size)) >>= λ stream.
          ok (u32 (under.size s.stream / page_size), record s { stream = stream }))
      else do
        fp ← read_free_page s s.start_free_page
        s' ← detach (record s {
          num_free_page = u32 (s.num_free_page + (2 ^ 32 - 1));
          start_free_page = fp.next;
        })
        ok (s.start_free_page, s')

  -- The old first page gets a predecessor.
  unfoldable pub attach : Dir S → ℕ → Result (Dir S)
  attach s num =
      if s.start_free_page == invalid_page
      then ok s
      else (read_free_page s s.start_free_page >>= λ fp.
          write_free_page s s.start_free_page (record fp { prev = num }))

  unfoldable pub deallocate_page : Dir S → ℕ → Result (Dir S)
  deallocate_page s num =
      if u32 (num * page_size) == under.size s.stream
      then (under.resize s.stream (u32 (u32 (num + (2 ^ 32 - 1)) * page_size)) >>= λ stream.
          ok (record s { stream = stream }))
      else do
        s' ← write_free_page s num (record { next = s.start_free_page; prev = invalid_page })
        s'' ← attach s' num
        ok (record s'' { start_free_page = num; num_free_page = u32 (s''.num_free_page + 1) })
