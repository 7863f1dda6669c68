-- ===== src/Keepalive/Registry/Kept.antt =====
-- The updates and the removals of the registry keep its rows exclusive.
use mathlib.Core.Path.{subst}
use agent_message_queue.Base.{
  ap, String, arith, ◌≡◌, refl, ◌∙◌, Option, none, some, Bool, true, false, List, [], ◌∷◌, length,
  eqb, ◌!=◌, string_eq, codes_eq, ◌==◌, if◌then◌else◌,
}
use agent_message_queue.Keepalive.Registry.{
  Entry, Paths, Result, ok, err, invalid_identity, removal_incomplete, validate_entry_identity,
  same_entry_identity, entry_eq,
}
use agent_message_queue.Keepalive.Registry.Store.{keep, replace, refuse}
use agent_message_queue.Keepalive.Registry.Operations.{
  find_id, replace_id, remove_id, without_ids, count_ids, wanted_ids, update_row, update_found,
  update_change,
}
use agent_message_queue.Keepalive.Registry.Batch.{
  EntryUpdate, Progress, swap_row, swap, skip, apply_update, apply_updates, save_updates,
  updates_change, forget_row, forget_unchanged_change, forget_many_change,
}
use agent_message_queue.Keepalive.Registry.Rows.{
  found_id, find-replace_same, find-without_ids, find_id-has_id,
}
use agent_message_queue.Keepalive.Registry.Ownership.{
  Exclusive, Apart-same_identity, Exclusive-add, Exclusive-fewer,
}
use agent_message_queue.Keepalive.Registry.Exclusive.{rows, IsOwned, KeepsOwned, kept_row}

same_ids : (row e : Entry) → same_entry_identity row e ≡ true → e.id ≡ row.id
unfolding same_entry_identity
same_ids row e h = ground arith

module _ (p : Paths) where
  abbrev pub ExclusiveProgress : Result Progress → Type 0
  ExclusiveProgress (ok g) = Exclusive p (rows g.entries)
  ExclusiveProgress (err x) = Unit {0}

  -- A row over the one of its id, with the same identity fields.
  pub same_identity-Exclusive :
      (e row : Entry) (l : List Entry)
      → Exclusive p (rows l)
      → find_id e.id l ≡ some row
      → same_entry_identity row e ≡ true
      → Exclusive p (rows (replace_id e.id e l))
  same_identity-Exclusive e row l x at same =
      Exclusive-add p (rows l) (rows (replace_id e.id e l)) e x
        (λ j f at_j ne. Apart-same_identity p f row e (x j e.id f row at_j at ne) same)
        (λ j. find-replace_same j e l (find_id-has_id e.id l row at))

  row-KeepsOwned :
      (e row : Entry) (l : List Entry) (v : Result Unit)
      → IsOwned p l
      → find_id e.id l ≡ some row
      → KeepsOwned p (update_row p e l row v)
  unfolding update_row
  row-KeepsOwned e row l (err x) h at = tt
  row-KeepsOwned e row l (ok u) h at = choose (same_entry_identity row e) refl
    where
      choose :
          (b : Bool)
          → same_entry_identity row e ≡ b
          → KeepsOwned p
              (if b then replace (replace_id e.id e l) tt else refuse (invalid_identity e.id))
      choose true same = λ d. same_identity-Exclusive e row l h.exclusive at same
      choose false same = tt

  found-KeepsOwned :
      (e : Entry) (l : List Entry) (o : Option Entry)
      → IsOwned p l
      → find_id e.id l ≡ o
      → KeepsOwned p (update_found p e l o)
  unfolding update_found
  found-KeepsOwned e l none h at = tt
  found-KeepsOwned e l (some row) h at = row-KeepsOwned e row l (validate_entry_identity p e) h at

  pub update-KeepsOwned :
      (e : Entry) (l : List Entry) → IsOwned p l → KeepsOwned p (update_change p e l)
  unfolding update_change
  update-KeepsOwned e l h = found-KeepsOwned e l (find_id e.id l) h refl

  forget_row-KeepsOwned :
      (e : Entry) (l : List Entry) (o : Option Entry)
      → IsOwned p l
      → KeepsOwned p (forget_row e l o)
  unfolding forget_row
  forget_row-KeepsOwned e l none h = tt
  forget_row-KeepsOwned e l (some row) h = choose (row != e)
    where
      choose : (b : Bool) → KeepsOwned p (if b then keep false else replace (remove_id e.id l) true)
      choose true = tt
      choose false = λ d.
          Exclusive-fewer p (rows l) (rows (remove_id e.id l)) h.exclusive
            (λ j f at. (kept_row p j e.id f l h.distinct at).0)

  pub forget_unchanged-KeepsOwned :
      (e : Entry) (l : List Entry) → IsOwned p l → KeepsOwned p (forget_unchanged_change e l)
  unfolding forget_unchanged_change
  forget_unchanged-KeepsOwned e l h = forget_row-KeepsOwned e l (find_id e.id l) h

  pub forget_many-KeepsOwned :
      (ids : List String) (l : List Entry) → IsOwned p l → KeepsOwned p (forget_many_change ids l)
  unfolding forget_many_change
  forget_many-KeepsOwned ids l h =
      choose (eqb (count_ids (wanted_ids ids) l) (length (wanted_ids ids)))
    where
      choose :
          (b : Bool)
          → KeepsOwned p (
              if b
              then replace (without_ids (wanted_ids ids) l) (count_ids (wanted_ids ids) l)
              else refuse removal_incomplete)
      choose true = λ d.
          Exclusive-fewer p (rows l) (rows (without_ids (wanted_ids ids) l)) h.exclusive
            (λ j f at. ground (arith, find-without_ids j (wanted_ids ids) l))
      choose false = tt

  swap-Exclusive :
      (u : EntryUpdate) (g : Progress) (row : Entry)
      → Exclusive p (rows g.entries)
      → find_id u.earlier.id g.entries ≡ some row
      → same_entry_identity row u.later ≡ true
      → Exclusive p (rows (swap u g).entries)
  unfolding swap
  swap-Exclusive u g row x at same =
      let ids : u.later.id ≡ u.earlier.id =
        same_ids row u.later same ∙ found_id u.earlier.id g.entries row at in
      subst (λ id. Exclusive p (rows (replace_id id u.later g.entries))) ids
        (same_identity-Exclusive u.later row g.entries x (ap (λ id. find_id id g.entries) ids ∙ at)
          same)

  progress-Exclusive :
      (u : EntryUpdate) (g : Progress) (o : Option Entry)
      → Exclusive p (rows g.entries)
      → find_id u.earlier.id g.entries ≡ o
      → ExclusiveProgress (swap_row u g o)
  unfolding swap_row skip swap
  progress-Exclusive u g none x at = x
  progress-Exclusive u g (some row) x at =
      choose (row != u.earlier) (u.earlier == u.later) (same_entry_identity row u.later) refl
    where
      choose :
          (changed done same : Bool)
          → same_entry_identity row u.later ≡ same
          → ExclusiveProgress (
              if changed
              then ok (skip g)
              else if done
              then ok g
              else if same
              then ok (swap u g)
              else err (invalid_identity u.later.id))
      choose true done same e = x
      choose false true same e = x
      choose false false true e = swap-Exclusive u g row x at e
      choose false false false e = tt

  updates-Exclusive :
      (us : List EntryUpdate) (g : Result Progress)
      → ExclusiveProgress g
      → ExclusiveProgress (apply_updates us g)
  unfolding apply_updates apply_update
  updates-Exclusive [] g x = x
  updates-Exclusive (u ∷ us) (err e) x = tt
  updates-Exclusive (u ∷ us) (ok g) x =
      updates-Exclusive us (apply_update u g)
        (progress-Exclusive u g (find_id u.earlier.id g.entries) x refl)

  saved-KeepsOwned : (g : Result Progress) → ExclusiveProgress g → KeepsOwned p (save_updates g)
  unfolding save_updates
  saved-KeepsOwned (err e) x = tt
  saved-KeepsOwned (ok g) x = choose (eqb g.result.updated 0)
    where
      choose : (b : Bool) → KeepsOwned p (if b then keep g.result else replace g.entries g.result)
      choose true = tt
      choose false = λ d. x

  pub updates-KeepsOwned :
      (us : List EntryUpdate) (l : List Entry) → IsOwned p l → KeepsOwned p (updates_change us l)
  unfolding updates_change
  updates-KeepsOwned us l h =
      saved-KeepsOwned
        (apply_updates us
          (ok (record { entries = l; result = record { updated = 0; skipped = 0 } })))
        (updates-Exclusive us
          (ok (record { entries = l; result = record { updated = 0; skipped = 0 } })) h.exclusive)
