-- ===== src/Keepalive/Registry/Updates.antt =====
-- The batch of a supervisor's pass as a compare-and-swap on each row (UpdateEntries in
-- internal/keepalive/registry/store.go).
use agent_message_queue.Base.{
  String, arith, ◌≡◌, refl, sym, ap, ◌∙◌, Option, none, some, true, false, List, [], ◌∷◌, contains,
  string_eq, ◌==◌, if◌then◌else◌,
}
use agent_message_queue.Keepalive.Registry.{Entry, entry_eq, Result, ok, same_entry_identity}
use agent_message_queue.Keepalive.Registry.Operations.{find_id, replace_id}
use agent_message_queue.Keepalive.Registry.Batch.{
  EntryUpdate, Progress, check_update, check_updates, swap_row, swap, skip, apply_update,
  apply_updates,
}
use agent_message_queue.Keepalive.Registry.Rows.{find-replace_same, find_id-has_id}

-- What an update does to the row of its id: it is written where the row is the one that was read.
abbrev pub compare_and_swap : EntryUpdate → Option Entry → Option Entry
compare_and_swap u none = none
compare_and_swap u (some row) = if row == u.earlier then some u.later else some row

-- What a batch does to the row of an id.
abbrev pub batched : List EntryUpdate → String → Option Entry → Option Entry
batched [] j row = row
batched (u ∷ us) j row = if u.earlier.id == j then compare_and_swap u row else batched us j row

checked_identity :
    (seen : List String) (u : EntryUpdate)
    → check_update seen u ≡ ok tt
    → (same_entry_identity u.earlier u.later ≡ true)
      × (u.earlier.id ≡ u.later.id)
      × (contains seen u.earlier.id ≡ false)
unfolding check_update
checked_identity seen u h = ground arith

check_head :
    (seen : List String) (u : EntryUpdate) (us : List EntryUpdate)
    → check_updates seen (u ∷ us) ≡ ok tt
    → (check_update seen u ≡ ok tt) × (check_updates (u.earlier.id ∷ seen) us ≡ ok tt)
unfolding check_updates
check_head seen u us h = ground arith

-- A batch that passed its check holds one update for an id at most.
seen_untouched :
    (seen : List String) (us : List EntryUpdate) (j : String) (row : Option Entry)
    → check_updates seen us ≡ ok tt
    → contains seen j ≡ true
    → batched us j row ≡ row
seen_untouched seen [] j row h c = refl
seen_untouched seen (u ∷ us) j row h c =
    let k = check_head seen u us h in
    let i = checked_identity seen u k.0 in
    ground (arith, i.2, seen_untouched (u.earlier.id ∷ seen) us j row k.1)

swapped :
    (j : String) (u : EntryUpdate) (row : Entry) (l : List Entry)
    → u.earlier.id ≡ u.later.id
    → find_id u.earlier.id l ≡ some row
    → find_id j (replace_id u.earlier.id u.later l)
      ≡ (if j == u.later.id then some u.later else find_id j l)
swapped j u row l i at =
    ap (λ id. find_id j (replace_id id u.later l)) i
    ∙ find-replace_same j u.later l
        (find_id-has_id u.later.id l row (ap (λ id. find_id id l) (sym i) ∙ at))

-- One update is applied without an error, and to its row alone.
abbrev Applies : EntryUpdate → Progress → Result Progress → Type 0
Applies u g r =
    (g' : Progress) × (r ≡ ok g')
    × ((j : String)
        → find_id j g'.entries ≡ (
            if u.earlier.id == j
            then compare_and_swap u (find_id j g.entries)
            else find_id j g.entries))

swap_row-Applies :
    (u : EntryUpdate) (g : Progress) (o : Option Entry)
    → same_entry_identity u.earlier u.later ≡ true
    → u.earlier.id ≡ u.later.id
    → find_id u.earlier.id g.entries ≡ o
    → Applies u g (swap_row u g o)
unfolding swap_row skip swap
swap_row-Applies u g none s i at = (skip g, refl, λ j. ground arith)
swap_row-Applies u g (some row) s i at = elim (entry_eq.dec row u.earlier) [
  | no differs ↦ (skip g, ground arith, λ j. ground arith)
  | yes read ↦ elim (entry_eq.dec u.earlier u.later) [
    | yes idle ↦ (g, ground arith, λ j. ground arith)
    | no changes ↦ (
      swap u g,
      ground (arith, ap (λ r. same_entry_identity r u.later) read),
      λ j. ground (arith, swapped j u row g.entries i at),
    )
  ]
]

-- A batch that passed its check is applied without an error, and acts on each row on its own, as if by
-- one compare-and-swap: a row that is still the one that was read is replaced by its update, and every
-- other row, one that changed since it was read included, stays as it is.
pub apply_updates-batched :
    (seen : List String) (us : List EntryUpdate) (g : Progress)
    → check_updates seen us ≡ ok tt
    → (g' : Progress) × (apply_updates us (ok g) ≡ ok g')
      × ((j : String) → find_id j g'.entries ≡ batched us j (find_id j g.entries))
unfolding apply_updates
apply_updates-batched seen [] g h = (g, refl, λ j. refl)
apply_updates-batched seen (u ∷ us) g h =
    let k = check_head seen u us h in
    let i = checked_identity seen u k.0 in
    let one : Applies u g (apply_update u g) =
      unfold apply_update in swap_row-Applies u g (find_id u.earlier.id g.entries) i.0 i.1 refl in
    let rest = apply_updates-batched (u.earlier.id ∷ seen) us one.0 k.1 in
    (
      rest.0,
      ap (apply_updates us) one.1 ∙ rest.1,
      λ j.
          rest.2 j
          ∙ ground (
            arith,
            one.2 j,
            seen_untouched (u.earlier.id ∷ seen) us j (find_id j one.0.entries) k.1,
          ),
    )
