-- ===== src/SimpleDir/Refines.antt =====
-- SimpleDirectory as a map of names.
use mathlib.Core.Path.{fun_ext}
use securefs.Prelude.{
  ℕ, ◌≤◌, ◌≡◌, refl, ap, ap₂, sym, ◌∙◌, inl, inr, Bool, true, false, List, [], ◌∷◌, Option, none,
  some, length, ltb, same, same_sym, same→eq, if◌then◌else◌, Bool-cases, ge→ltb, ltb→ge, arith,
}
use securefs.Error.{Result, ok, throw, undefined, stuck, Exception, vfs, enametoolong}
use securefs.Stream.{StreamOps}
use securefs.Maps.{find, erase, emplace}
use securefs.Maps.Find.{emplace_fresh}
use securefs.SimpleDir.{
  Value, Dir, get_entry_impl, add_found, add_entry_impl, remove_found, remove_entry_impl,
}

-- The specification: a directory is a partial function from names.
abbrev pub Entries : Type 0
Entries = List ℕ → Option Value

unfoldable pub added_found : Entries → List ℕ → Value → Option Value → Bool × Entries
added_found entries name value none = (true, λ k. if same name k then some value else entries k)
added_found entries name value (some _) = (false, entries)

-- A name that is new gets the value; otherwise nothing happens.
unfoldable pub added : Entries → List ℕ → Value → Bool × Entries
unfolding added_found
added entries name value = added_found entries name value (entries name)

-- What was there, and the entries without it.
unfoldable pub removed : Entries → List ℕ → Option Value × Entries
removed entries name = (entries name, λ k. if same name k then none else entries k)

-- A call of the directory, and what it answers; a name that is too long is refused by an exception.
pub data DirCall : Type 0 where
  get_call : List ℕ → DirCall
  add_call : List ℕ → Value → DirCall
  remove_call : List ℕ → DirCall

pub data Answer : Type 0 where
  was_there : Option Value → Answer
  was_added : Bool → Answer
  refused : Exception → Answer
  no_answer : Answer

answer_add : {X : Type 0} → X → Result (Bool × X) → Answer × X
answer_add x (ok (b, x')) = (was_added b, x')
answer_add x (throw e) = (refused e, x)
answer_add x undefined = (no_answer, x)
answer_add x stuck = (no_answer, x)

-- The calls one after the other, on a directory and on a map.
unfoldable pub step_dir : {S : Type 0} → StreamOps S → Dir S → DirCall → Answer × Dir S
unfolding answer_add
step_dir under d (get_call name) = (was_there (get_entry_impl under d name), d)
step_dir under d (add_call name value) = answer_add d (add_entry_impl under d name value)
step_dir under d (remove_call name) =
    let (value, d') = remove_entry_impl under d name in (was_there value, d')

unfoldable pub step_entries : Entries → DirCall → Answer × Entries
unfolding answer_add
step_entries entries (get_call name) = (was_there (entries name), entries)
step_entries entries (add_call name value) =
    if ltb 255 (length name)
    then (refused (vfs enametoolong), entries)
    else (let (b, entries') = added entries name value in (was_added b, entries'))
step_entries entries (remove_call name) =
    let (value, entries') = removed entries name in (was_there value, entries')

unfoldable pub run_dir : {S : Type 0} → StreamOps S → Dir S → List DirCall → List Answer × Dir S
run_dir under d [] = ([], d)
run_dir under d (call ∷ calls) =
    let (answer, d') = step_dir under d call in
    let (answers, d'') = run_dir under d' calls in (answer ∷ answers, d'')

unfoldable pub run_entries : Entries → List DirCall → List Answer × Entries
run_entries entries [] = ([], entries)
run_entries entries (call ∷ calls) =
    let (answer, entries') = step_entries entries call in
    let (answers, entries'') = run_entries entries' calls in (answer ∷ answers, entries'')

-- No name twice.
abbrev pub DistinctNames : List (List ℕ × Value) → Type 0
DistinctNames [] = Unit {0}
DistinctNames ((k, v) ∷ table) = (find table k ≡ none) × DistinctNames table

find-erase :
    (table : List (List ℕ × Value)) (name k : List ℕ)
    → DistinctNames table
    → find (erase table name) k ≡ (if same name k then none else find table k)
unfolding find erase
find-erase [] name k d = ground arith
find-erase ((x, v) ∷ table) name k (fresh, d) = elim (Bool-cases (same x name)) [
  | inl here ↦ rw here (elim (Bool-cases (same name k)) [
    | inl asked ↦
        rw asked (ap (λ y. find table y) (sym (same→eq x name here ∙ same→eq name k asked)) ∙ fresh)
    | inr other ↦ rw (other, same→eq x name here, other) refl
  ])
  | inr there ↦ rw there (elim (Bool-cases (same x k)) [
    | inl asked ↦
        rw (asked, same_sym name k, ap (λ y. same y name) (sym (same→eq x k asked)), there) refl
    | inr other ↦ rw other (find-erase table name k d)
  ])
]

DistinctNames-erase :
    (table : List (List ℕ × Value)) (name : List ℕ)
    → DistinctNames table
    → DistinctNames (erase table name)
unfolding erase find
DistinctNames-erase [] name d = tt
DistinctNames-erase ((x, v) ∷ table) name (fresh, d) = elim (Bool-cases (same x name)) [
  | inl here ↦ rw here d
  | inr there ↦ rw there (
    rw (find-erase table name x d) (rw (same_sym name x, there) fresh),
    DistinctNames-erase table name d,
  )
]

find-none-erase :
    (table : List (List ℕ × Value)) (name : List ℕ)
    → find table name ≡ none
    → (k : List ℕ) → find table k ≡ (if same name k then none else find table k)
find-none-erase table name fresh k = elim (Bool-cases (same name k)) [
  | inl asked ↦ rw asked (ap (λ y. find table y) (sym (same→eq name k asked)) ∙ fresh)
  | inr other ↦ rw other refl
]

module _ {S : Type 0} (under : StreamOps S) where
  abbrev pub entries_of : Dir S → Entries
  entries_of d k = find d.table k

  -- add_entry_impl does to the map of the names what the specification does, for a name that is not too long,
  -- and no name comes twice afterwards.
  pub add_entry_impl_lem :
      (d : Dir S) (name : List ℕ) (value : Value)
      → DistinctNames d.table
      → length name ≤ 255
      → (d' : Dir S) × (add_entry_impl under d name value
          ≡ ok ((added (entries_of d) name value).0, d'))
        × (entries_of d' ≡ (added (entries_of d) name value).1)
        × DistinctNames d'.table
  unfolding add_entry_impl added add_found
  add_entry_impl_lem d name value distinct h =
      rw (ge→ltb 255 (length name) h) (by_found (find d.table name) refl)
    where
      by_found :
          (o : Option Value)
          → find d.table name ≡ o
          → (d' : Dir S) × (ok (add_found under d name value o)
              ≡ ok ((added_found (entries_of d) name value o).0, d'))
            × (entries_of d' ≡ (added_found (entries_of d) name value o).1)
            × DistinctNames d'.table
      by_found none fresh = (
        record d { table = emplace d.table name value; dirty = true },
        refl,
        rw (emplace_fresh d.table name value fresh) (unfold find in refl),
        rw (emplace_fresh d.table name value fresh) (fresh, distinct),
      )
      by_found (some e) present = (d, refl, refl, distinct)

  -- remove_entry_impl does to the map of the names what the specification does, and no name comes twice afterwards.
  pub remove_entry_impl_lem :
      (d : Dir S) (name : List ℕ)
      → DistinctNames d.table
      → (d' : Dir S) × (remove_entry_impl under d name ≡ ((removed (entries_of d) name).0, d'))
        × (entries_of d' ≡ (removed (entries_of d) name).1)
        × DistinctNames d'.table
  unfolding remove_entry_impl removed remove_found
  remove_entry_impl_lem d name distinct = by_found (find d.table name) refl
    where
      by_found :
          (o : Option Value)
          → find d.table name ≡ o
          → (d' : Dir S) × (remove_found under d name o ≡ (o, d'))
            × (entries_of d' ≡ (removed (entries_of d) name).1)
            × DistinctNames d'.table
      by_found none fresh = (d, refl, fun_ext (find-none-erase d.table name fresh), distinct)
      by_found (some e) present = (
        record d { table = erase d.table name; dirty = true },
        refl,
        fun_ext (λ k. find-erase d.table name k distinct),
        DistinctNames-erase d.table name distinct,
      )

  add_too_long :
      (d : Dir S) (name : List ℕ) (value : Value)
      → ltb 255 (length name) ≡ true
      → add_entry_impl under d name value ≡ throw (vfs enametoolong)
  unfolding add_entry_impl
  add_too_long d name value long = rw long refl

  step_dir_lem :
      (d : Dir S) (call : DirCall)
      → DistinctNames d.table
      → ((step_dir under d call).0 ≡ (step_entries (entries_of d) call).0)
        × (entries_of (step_dir under d call).1 ≡ (step_entries (entries_of d) call).1)
        × DistinctNames (step_dir under d call).1.table
  unfolding step_dir step_entries get_entry_impl
  step_dir_lem d (get_call name) distinct = (refl, refl, distinct)
  step_dir_lem d (add_call name value) distinct = elim (Bool-cases (ltb 255 (length name))) [
    | inl long ↦ rw (long, add_too_long d name value long) (refl, refl, distinct)
    | inr short ↦
        let (d', returns, same_entries, distinct') =
          add_entry_impl_lem d name value distinct (ltb→ge _ _ short) in
        rw (short, returns) (refl, same_entries, distinct')
  ]
  step_dir_lem d (remove_call name) distinct =
      let (d', returns, same_entries, distinct') = remove_entry_impl_lem d name distinct in
      rw returns (refl, same_entries, distinct')

  -- Any calls get the answers from a directory, and leave in it the entries, that the map of its names
  -- gives and has after the same calls; this needs no name twice at the start, and keeps it so.
  pub run_dir-refines :
      (d : Dir S) (calls : List DirCall)
      → DistinctNames d.table
      → ((run_dir under d calls).0 ≡ (run_entries (entries_of d) calls).0)
        × (entries_of (run_dir under d calls).1 ≡ (run_entries (entries_of d) calls).1)
        × DistinctNames (run_dir under d calls).1.table
  unfolding run_dir run_entries
  run_dir-refines d [] distinct = (refl, refl, distinct)
  run_dir-refines d (call ∷ calls) distinct =
      let (same_answer, same_entries, distinct') = step_dir_lem d call distinct in
      let (same_answers, same_after, distinct'') =
        run_dir-refines (step_dir under d call).1 calls distinct' in
      (
        ap₂ (λ (a : Answer) as'. a ∷ as') same_answer
            (same_answers ∙ ap (λ e. (run_entries e calls).0) same_entries),
        same_after ∙ ap (λ e. (run_entries e calls).1) same_entries,
        distinct'',
      )
