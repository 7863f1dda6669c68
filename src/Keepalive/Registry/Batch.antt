-- ===== src/Keepalive/Registry/Batch.antt =====
-- The compare-and-swap of a supervisor's pass, and the removals
-- (internal/keepalive/registry/store.go).
use Prim.Native.Nat.{ℕ}
use agent_message_queue.Base.{
  String, suc, eqb, Option, none, some, Bool, true, false, not, ◌||◌, List, [], ◌∷◌, length,
  contains, string_eq, ◌==◌, ◌!=◌, if◌then◌else◌,
}
use agent_message_queue.Keepalive.Registry.{
  Entry, entry_eq, id_required, invalid_identity, batch_id_changed, batch_duplicate,
  removal_incomplete, Result, ok, err, same_entry_identity,
}
use agent_message_queue.Keepalive.Registry.Store.{Change, keep, replace, refuse}
use agent_message_queue.Keepalive.Registry.Operations.{
  find_id, replace_id, remove_id, without_ids, count_ids, wanted_ids,
}

pub record EntryUpdate : Type 0 where
  pub earlier : Entry
  pub later : Entry

pub record UpdateResult : Type 0 where
  pub updated : ℕ
  pub skipped : ℕ

unfoldable pub check_update : List String → EntryUpdate → Result Unit
unfolding same_entry_identity
check_update seen u =
    if u.earlier.id == "" || u.later.id == ""
    then err id_required
    else if u.earlier.id != u.later.id
    then err batch_id_changed
    else if not (same_entry_identity u.earlier u.later)
    then err (invalid_identity u.earlier.id)
    else if contains seen u.earlier.id
    then err (batch_duplicate u.earlier.id)
    else ok tt

unfoldable pub check_updates : List String → List EntryUpdate → Result Unit
unfolding check_update
check_updates seen [] = ok tt
check_updates seen (u ∷ rest) =
    let after = check_updates (u.earlier.id ∷ seen) rest in
    elim (check_update seen u) [ ok x ↦ after | err x ↦ err x ]

-- The entries so far, and the counts.
pub record Progress : Type 0 where
  pub entries : List Entry
  pub result : UpdateResult

unfoldable pub skip : Progress → Progress
skip g = record g { result = record { updated = g.result.updated; skipped = suc g.result.skipped } }

unfoldable pub swap : EntryUpdate → Progress → Progress
unfolding replace_id
swap u g = record {
  entries = replace_id u.earlier.id u.later g.entries;
  result = record { updated = suc g.result.updated; skipped = g.result.skipped };
}

unfoldable pub swap_row : EntryUpdate → Progress → Option Entry → Result Progress
unfolding skip swap same_entry_identity
swap_row u g none = ok (skip g)
swap_row u g (some row) =
    if row != u.earlier
    then ok (skip g)
    else if u.earlier == u.later
    then ok g
    else if same_entry_identity row u.later
    then ok (swap u g)
    else err (invalid_identity u.later.id)

unfoldable pub apply_update : EntryUpdate → Progress → Result Progress
unfolding swap_row find_id
apply_update u g = swap_row u g (find_id u.earlier.id g.entries)

unfoldable pub apply_updates : List EntryUpdate → Result Progress → Result Progress
unfolding apply_update
apply_updates [] g = g
apply_updates (u ∷ rest) (err x) = err x
apply_updates (u ∷ rest) (ok g) = apply_updates rest (apply_update u g)

unfoldable pub save_updates : Result Progress → Change UpdateResult
save_updates (err x) = refuse x
save_updates (ok g) = if eqb g.result.updated 0 then keep g.result else replace g.entries g.result

unfoldable pub updates_change : List EntryUpdate → List Entry → Change UpdateResult
unfolding save_updates apply_updates
updates_change updates entries = save_updates (
    apply_updates updates
      (ok (record { entries = entries; result = record { updated = 0; skipped = 0 } })))

unfoldable pub forget_row : Entry → List Entry → Option Entry → Change Bool
unfolding remove_id
forget_row expected entries none = keep false
forget_row expected entries (some row) =
    if row != expected then keep false else replace (remove_id expected.id entries) true

unfoldable pub forget_unchanged_change : Entry → List Entry → Change Bool
unfolding forget_row find_id
forget_unchanged_change expected entries = forget_row expected entries (find_id expected.id entries)

unfoldable pub forget_many_change : List String → List Entry → Change ℕ
unfolding wanted_ids count_ids without_ids
forget_many_change ids entries =
    let wanted = wanted_ids ids in
    let found : ℕ = count_ids wanted entries in
    if eqb found (length wanted)
    then replace (without_ids wanted entries) found
    else refuse removal_incomplete
