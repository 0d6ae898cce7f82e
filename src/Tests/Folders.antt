-- ===== src/Tests/Folders.antt =====
-- Witnesses for the pages of directories.
use securefs.Prelude.{
  ℕ, ◌+◌, ◌-◌, ◌^◌, ◌≡◌, ◌≢◌, refl, List, [], ◌∷◌, ◌++◌, some, length, replicate, length-replicate,
  u32, arith,
}
use securefs.Error.{ok}
use securefs.Stream.Memory.{memory}
use securefs.BtreeDir.{DirEntry, to_buffer, from_buffer}
use securefs.BtreeDir.Nodes.{EntryFits, from_buffer-to_buffer}
use securefs.BtreeDir.Pages.{Dir, invalid_page, allocate_page, deallocate_page}
use securefs.BtreeDir.Pages.FreeList.{Linked, deallocate_page_lem, allocate_page_lem}
use securefs.Tests.Setup.{memory_file}

abbrev entry : DirEntry
entry = record { filename = 97 ∷ 98 ∷ []; id = replicate 32 5; type_code = 8 }

entry-EntryFits : EntryFits entry
entry-EntryFits = record {
  name = omega arith;
  codes = (omega arith, (omega arith, tt));
  id = refl;
  type_code = omega arith;
}

from_buffer-to_buffer_example :
    (bytes : List ℕ) × (to_buffer (record { children = 1 ∷ 2 ∷ []; entries = entry ∷ [] }) 4096
      ≡ ok bytes)
    × ((rest : List ℕ)
        → from_buffer (bytes ++ rest)
          ≡ ok (some (record { children = 1 ∷ 2 ∷ []; entries = entry ∷ [] })))
from_buffer-to_buffer_example =
    from_buffer-to_buffer (record { children = 1 ∷ 2 ∷ []; entries = entry ∷ [] }) 4096
      (omega arith, (omega arith, tt)) (entry-EntryFits, tt) (omega arith) (omega arith)
      (omega arith)

abbrev two_pages : Dir (List ℕ)
two_pages = record { stream = replicate 8192 0; start_free_page = invalid_page; num_free_page = 0 }

two_pages_size : length (replicate {A = ℕ} 8192 0) ≡ 8192
two_pages_size = length-replicate {A = ℕ} 8192 0

-- The directory with page 0 in its list.
abbrev one_free :
    (s' : Dir (List ℕ)) × (deallocate_page memory two_pages 0 ≡ ok s')
    × memory_file.Valid s'.stream
    × Linked memory_file s' invalid_page s'.start_free_page (0 ∷ [])
    × (length s'.stream ≡ length two_pages.stream)
    × (s'.num_free_page ≡ u32 (0 + 1))
one_free =
    deallocate_page_lem memory_file two_pages 0 [] (omega (arith, two_pages_size)) refl
      (omega arith, omega (arith, two_pages_size)) tt

deallocate_page_lem_example :
    (s' : Dir (List ℕ)) × (deallocate_page memory one_free.0 1 ≡ ok s')
    × memory_file.Valid s'.stream
    × Linked memory_file s' invalid_page s'.start_free_page (1 ∷ 0 ∷ [])
    × (length s'.stream ≡ length one_free.0.stream)
    × (s'.num_free_page ≡ u32 (one_free.0.num_free_page + 1))
deallocate_page_lem_example =
    deallocate_page_lem memory_file one_free.0 1 (0 ∷ []) one_free.2 one_free.3
      (omega arith, omega (arith, one_free.4, two_pages_size)) (zero_ne, tt)
  where
    zero_ne : ◌≢◌ {A = ℕ} 0 1
    zero_ne e = omega arith

allocate_page_lem_example :
    (s' : Dir (List ℕ)) × (allocate_page memory one_free.0 ≡ ok (0, s'))
    × memory_file.Valid s'.stream
    × Linked memory_file s' invalid_page s'.start_free_page []
    × (length s'.stream ≡ length one_free.0.stream)
    × (s'.num_free_page ≡ u32 (one_free.0.num_free_page + (2 ^ 32 - 1)))
allocate_page_lem_example = allocate_page_lem memory_file one_free.0 0 [] one_free.2 one_free.3
