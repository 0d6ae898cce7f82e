-- ===== src/BtreeDir/Nodes.antt =====
-- Nodes of directories (sources/btree_dir.cpp): written to buffers and read again.
use native.Mathlib.Nat.{mod-eq_of_lt}
use mathlib.Core.List.{append_assoc}
use securefs.Prelude.{
  ℕ, suc, ◌+◌, ◌-◌, ◌*◌, ◌%◌, ◌^◌, ◌≤◌, ◌<◌, ◌≡◌, refl, ap, ap₂, ◌∙◌, List, [], ◌∷◌, ◌++◌, some,
  length, take, replicate, le→leb, All, length-append, length-replicate, take-append_at,
  drop-append_at, arith,
}
use securefs.Error.{ok}
use securefs.Text.{c_string}
use securefs.Text.CStrings.{c_string-take}
use securefs.Endian.{to_little_endian}
use securefs.Endian.RoundTrip.{
  from_little_endian-to_little_endian_two, from_little_endian-to_little_endian_four,
  length-to_little_endian_two, length-to_little_endian_four,
}
use securefs.BtreeDir.{
  DirEntry, Node, room, name_field, write_children, write_entries, to_buffer, read_number,
  read_bytes, read_children, read_entries, from_buffer,
}

-- An entry whose parts fit in their fields: a name of at most 255 codes, none of them 0.
pub record EntryFits (e : DirEntry) : Type 0 where
  pub name : length e.filename ≤ 255
  pub codes : All (λ c. 0 < c) e.filename
  pub id : length e.id ≡ 32
  pub type_code : e.type_code < 2 ^ 32

room_lem : (left n : ℕ) → n ≤ left → room left n ≡ ok (left - n)
unfolding room
room_lem left n h = rw (le→leb n left h) refl

read_four :
    (v : ℕ) (rest : List ℕ)
    → v < 2 ^ 32
    → read_number 4 (to_little_endian 4 v ++ rest) ≡ ok (v, rest)
unfolding read_number
read_four v rest h =
    let n = length-to_little_endian_four v in
    rw
      (le→leb 4 (length (to_little_endian 4 v ++ rest))
        (omega (arith, n, length-append (to_little_endian 4 v) rest)))
      (rw
        (
          from_little_endian-to_little_endian_four v rest h,
          drop-append_at 4 (to_little_endian 4 v) rest n,
        )
        refl)

read_two :
    (v : ℕ) (rest : List ℕ)
    → v < 2 ^ 16
    → read_number 2 (to_little_endian 2 v ++ rest) ≡ ok (v, rest)
unfolding read_number
read_two v rest h =
    let n = length-to_little_endian_two v in
    rw
      (le→leb 2 (length (to_little_endian 2 v ++ rest))
        (omega (arith, n, length-append (to_little_endian 2 v) rest)))
      (rw
        (
          from_little_endian-to_little_endian_two v rest h,
          drop-append_at 2 (to_little_endian 2 v) rest n,
        )
        refl)

read_bytes_lem :
    (n : ℕ) (bytes rest : List ℕ)
    → length bytes ≡ n
    → read_bytes n (bytes ++ rest) ≡ ok (bytes, rest)
unfolding read_bytes
read_bytes_lem n bytes rest h =
    rw
      (
        le→leb n (length (bytes ++ rest)) (omega (arith, h, length-append bytes rest)),
        take-append_at n bytes rest h,
        drop-append_at n bytes rest h,
      )
      refl

-- The children, with what is left of the buffer behind them; they are read again whatever follows.
children_lem :
    (left : ℕ) (children : List ℕ)
    → All (λ c. c < 2 ^ 32) children
    → 4 * length children ≤ left
    → (bytes : List ℕ) × (write_children left children ≡ ok (bytes, left - 4 * length children))
      × ((rest : List ℕ) → read_children (length children) (bytes ++ rest) ≡ ok (children, rest))
unfolding write_children read_children
children_lem left [] a h = ([], ap (λ n. ok ([], n)) (omega arith), λ rest. refl)
children_lem left (c ∷ children) (p, a) h =
    let (bytes, w, r) = children_lem (left - 4) children a (omega arith) in
    (
      to_little_endian 4 c ++ bytes,
      rw (room_lem left 4 (omega arith))
          (rw w (ap (λ n. ok (to_little_endian 4 c ++ bytes, n)) (omega arith))),
      λ rest.
          rw (append_assoc (to_little_endian 4 c) bytes rest)
            (rw (read_four c (bytes ++ rest) p) (rw (r rest) refl)),
    )

length-name_field : (name : List ℕ) → length name ≤ 255 → length (name_field name) ≡ 256
unfolding name_field
length-name_field name h = omega (
  arith,
  length-append name (replicate (256 - length name) 0),
  length-replicate {A = ℕ} (256 - length name) 0,
)

name_read :
    (name : List ℕ)
    → All (λ c. 0 < c) name
    → length name ≤ 255
    → c_string (take 255 (name_field name)) ≡ name
unfolding name_field
name_read name a h = c_string-take 255 (256 - length name) name a h

-- An entry in front of others is read as it was written.
entry_read :
    (e : DirEntry) (k : ℕ) (bytes : List ℕ) (entries : List DirEntry)
    → EntryFits e
    → read_entries k bytes ≡ ok entries
    → read_entries
        (suc k)
        (name_field e.filename ++ (e.id ++ (to_little_endian 4 e.type_code ++ bytes)))
      ≡ ok (e ∷ entries)
unfolding read_entries
entry_read e k bytes entries p r =
    rw
      (read_bytes_lem 256 (name_field e.filename)
        (e.id ++ (to_little_endian 4 e.type_code ++ bytes)) (length-name_field e.filename p.name))
      (rw (read_bytes_lem 32 e.id (to_little_endian 4 e.type_code ++ bytes) p.id) (
        rw (read_four e.type_code bytes p.type_code)
          (rw (r, name_read e.filename p.codes p.name) refl)))

none_read : (rest : List ℕ) → read_entries 0 rest ≡ ok []
unfolding read_entries
none_read rest = refl

entries_lem :
    (left : ℕ) (entries : List DirEntry)
    → All EntryFits entries
    → 292 * length entries ≤ left
    → (bytes : List ℕ) × (write_entries left entries ≡ ok bytes)
      × ((rest : List ℕ) → read_entries (length entries) (bytes ++ rest) ≡ ok entries)
unfolding write_entries
entries_lem left [] a h = ([], refl, none_read)
entries_lem left (e ∷ entries) (p, a) h =
    let (bytes, w, r) = entries_lem (left - 256 - 32 - 4) entries a (omega arith) in
    (
      name_field e.filename ++ (e.id ++ (to_little_endian 4 e.type_code ++ bytes)),
      rw (le→leb (length e.filename) 255 p.name, room_lem left 256 (omega arith))
          (rw (room_lem (left - 256) 32 (omega arith))
            (rw (room_lem (left - 256 - 32) 4 (omega arith)) (rw w refl))),
      λ rest.
          ap (read_entries (suc (length entries))) (shift bytes rest)
          ∙ entry_read e (length entries) (bytes ++ rest) entries p (r rest),
    )
  where
    shift :
        (bytes rest : List ℕ)
        → (name_field e.filename ++ (e.id ++ (to_little_endian 4 e.type_code ++ bytes))) ++ rest
          ≡ name_field e.filename ++ (e.id ++ (to_little_endian 4 e.type_code ++ (bytes ++ rest)))
    shift bytes rest =
        append_assoc (name_field e.filename) (e.id ++ (to_little_endian 4 e.type_code ++ bytes))
          rest
        ∙ ap (λ l. name_field e.filename ++ l)
            (append_assoc e.id (to_little_endian 4 e.type_code ++ bytes) rest
              ∙ ap (λ l. e.id ++ l) (append_assoc (to_little_endian 4 e.type_code) bytes rest))

node_read :
    (n : Node) (bytes behind : List ℕ)
    → length n.children < 2 ^ 16
    → length n.entries < 2 ^ 16
    → read_children (length n.children) bytes ≡ ok (n.children, behind)
    → read_entries (length n.entries) behind ≡ ok n.entries
    → from_buffer (
        to_little_endian 4 1
        ++ (to_little_endian 2 (length n.children)
            ++ (to_little_endian 2 (length n.entries) ++ bytes)))
      ≡ ok (some n)
unfolding from_buffer
node_read n bytes behind few_children few_entries rc re =
    rw
      (read_four 1
        (to_little_endian 2 (length n.children) ++ (to_little_endian 2 (length n.entries) ++ bytes))
        (omega arith))
      (rw
        (read_two (length n.children) (to_little_endian 2 (length n.entries) ++ bytes) few_children)
        (rw (read_two (length n.entries) bytes few_entries) (rw rc (rw re refl))))

-- A node that fits in a buffer is written to it, and is read from it again, whatever the buffer held
-- behind the bytes written.
pub from_buffer-to_buffer :
    (n : Node) (size : ℕ)
    → All (λ c. c < 2 ^ 32) n.children
    → All EntryFits n.entries
    → length n.children < 2 ^ 16
    → length n.entries < 2 ^ 16
    → 8 + 4 * length n.children + 292 * length n.entries ≤ size
    → (bytes : List ℕ) × (to_buffer n size ≡ ok bytes)
      × ((rest : List ℕ) → from_buffer (bytes ++ rest) ≡ ok (some n))
unfolding to_buffer
from_buffer-to_buffer n size ac ae few_children few_entries fits =
    let (cs, wc, rc) = children_lem (size - 4 - 2 - 2) n.children ac (omega arith) in
    let (es, we, re) =
      entries_lem (size - 4 - 2 - 2 - 4 * length n.children) n.entries ae (omega arith) in
    (
      to_little_endian 4 1
          ++ (to_little_endian 2 (length n.children % 2 ^ 16)
              ++ (to_little_endian 2 (length n.entries % 2 ^ 16) ++ (cs ++ es))),
      rw (room_lem size 4 (omega arith)) (
          rw (room_lem (size - 4) 2 (omega arith))
            (rw (room_lem (size - 4 - 2) 2 (omega arith)) (rw wc (rw we refl)))),
      λ rest.
          ap from_buffer (shift cs es rest)
          ∙ node_read n (cs ++ (es ++ rest)) (es ++ rest) few_children few_entries (rc (es ++ rest))
              (re rest),
    )
  where
    shift :
        (cs es rest : List ℕ)
        → (to_little_endian 4 1
              ++ (to_little_endian 2 (length n.children % 2 ^ 16)
                  ++ (to_little_endian 2 (length n.entries % 2 ^ 16) ++ (cs ++ es))))
            ++ rest
          ≡ to_little_endian 4 1
            ++ (to_little_endian 2 (length n.children)
                ++ (to_little_endian 2 (length n.entries) ++ (cs ++ (es ++ rest))))
    shift cs es rest =
        append_assoc (to_little_endian 4 1)
          (to_little_endian 2 (length n.children % 2 ^ 16)
            ++ (to_little_endian 2 (length n.entries % 2 ^ 16) ++ (cs ++ es)))
          rest
        ∙ ap (λ l. to_little_endian 4 1 ++ l)
            (append_assoc (to_little_endian 2 (length n.children % 2 ^ 16))
                (to_little_endian 2 (length n.entries % 2 ^ 16) ++ (cs ++ es)) rest
              ∙ ap₂ (λ k l. to_little_endian 2 k ++ l) (mod-eq_of_lt few_children)
                  (append_assoc (to_little_endian 2 (length n.entries % 2 ^ 16)) (cs ++ es) rest
                    ∙ ap₂ (λ k l. to_little_endian 2 k ++ l) (mod-eq_of_lt few_entries)
                        (append_assoc cs es rest)))
