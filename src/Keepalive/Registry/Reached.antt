-- ===== src/Keepalive/Registry/Reached.antt =====
-- The registry's file through any sequence of operations (internal/keepalive/registry/store.go).
use mathlib.Core.Path.{subst}
use agent_message_queue.Base.{
  ℕ, String, ◌≡◌, ◌≢◌, refl, sym, ◌∙◌, some, Bool, true, false, ◌&&◌, List, [], ◌∷◌, ◌++◌,
  string_eq, ◌==◌, if◌then◌else◌,
}
use agent_message_queue.Keepalive.Registry.{
  Entry, Paths, Result, ok, err, id_required, same_target, same_root_agent,
}
use agent_message_queue.Keepalive.Registry.Store.{
  Disk, absent, Io, Change, keep, replace, refuse, with_lock, load_unlocked, sort_entries,
}
use agent_message_queue.Keepalive.Registry.Operations.{
  find_id, has_id, remove_id, is_undisturbed, prepare_entry, upsert_change, replace_change,
  restore_change, update_change,
}
use agent_message_queue.Keepalive.Registry.Batch.{
  EntryUpdate, check_updates, updates_change, forget_unchanged_change, forget_many_change,
}
use agent_message_queue.Keepalive.Registry.Transactions.{
  prepared_then, upsert, replace_session_adapter, restore_session_adapter_if_unchanged,
  update_entry, update_checked, update_entries, forget_if_unchanged, forget_many,
}
use agent_message_queue.Keepalive.Registry.Ownership.{Exclusive, Exclusive-fewer}
use agent_message_queue.Keepalive.Registry.Exclusive.{
  rows, disk_entries, IsOwned, KeepsOwned, upsert-KeepsOwned, replace-KeepsOwned,
}
use agent_message_queue.Keepalive.Registry.Kept.{
  update-KeepsOwned, forget_unchanged-KeepsOwned, forget_many-KeepsOwned, updates-KeepsOwned,
}
use agent_message_queue.Keepalive.Registry.Rows.{HasDistinctIds, find-sort, sort-HasDistinctIds}
use agent_message_queue.Keepalive.Registry.Transact.{Keeps, with_lock-Keeps}

module _ (p : Paths) where
  abbrev OwnedDisk : Disk → Type 0
  OwnedDisk disk = IsOwned p (disk_entries disk)

  sort-IsOwned : (l : List Entry) → HasDistinctIds l → IsOwned p l → IsOwned p (sort_entries l)
  sort-IsOwned l d h = record {
    distinct = sort-HasDistinctIds l d;
    exclusive =
        Exclusive-fewer p (rows l) (rows (sort_entries l)) h.exclusive
          (λ j f at. sym (find-sort j l d) ∙ at);
  }

  nothing-IsOwned : IsOwned p []
  unfolding find_id
  nothing-IsOwned = record { distinct = tt; exclusive = λ i j e f at_i at_j ne. (cc, cc) }

  owned : {A : Type 0} (c : Change A) → KeepsOwned p c → Keeps (IsOwned p) c
  owned (keep a) k = tt
  owned (replace l a) k = λ d. record { distinct = d; exclusive = k d }
  owned (refuse x) k = tt

  with_lock-IsOwned :
      {A : Type 0} (io : Io) (change : List Entry → Change A) (disk : Disk)
      → OwnedDisk disk
      → ((l : List Entry) → load_unlocked p disk ≡ ok l → IsOwned p l → KeepsOwned p (change l))
      → OwnedDisk (with_lock p io change disk).0
  with_lock-IsOwned io change disk h k =
      with_lock-Keeps p (IsOwned p) sort-IsOwned io change disk nothing-IsOwned h
        (λ l q o. owned (change l) (k l q o))

  -- The rows that a rollback brings back stand apart from one another and from what it leaves in the
  -- file, where it finds its reservation undisturbed.
  abbrev pub Restorable : Disk → Entry → List Entry → Type 0
  Restorable disk expected previous =
      (l : List Entry)
      → load_unlocked p disk ≡ ok l
      → is_undisturbed p expected l ≡ true
      → Exclusive p (rows (remove_id expected.id l ++ previous))

  prepared-IsOwned :
      {A : Type 0} (f : Entry → Disk → Disk × Result A) (disk : Disk) (r : Result Entry)
      → OwnedDisk disk
      → ((e : Entry) → OwnedDisk (f e disk).0)
      → OwnedDisk (prepared_then f disk r).0
  unfolding prepared_then
  prepared-IsOwned f disk (ok e) h k = k e
  prepared-IsOwned f disk (err x) h k = h

  module _ (io : Io) (disk : Disk) (h : OwnedDisk disk) where
    upsert-IsOwned : (now : ℕ) (e : Entry) → OwnedDisk (upsert p io now e disk).0
    unfolding upsert
    upsert-IsOwned now e =
        prepared-IsOwned (λ prepared. with_lock p io (upsert_change p prepared)) disk
          (prepare_entry p now e) h
          (λ prepared.
            with_lock-IsOwned io (upsert_change p prepared) disk h
              (λ l q. upsert-KeepsOwned p prepared l))

    replace-IsOwned : (now : ℕ) (e : Entry) → OwnedDisk (replace_session_adapter p io now e disk).0
    unfolding replace_session_adapter
    replace-IsOwned now e =
        prepared-IsOwned (λ prepared. with_lock p io (replace_change p prepared)) disk
          (prepare_entry p now e) h
          (λ prepared.
            with_lock-IsOwned io (replace_change p prepared) disk h
              (λ l q. replace-KeepsOwned p prepared l))

    restore_change-KeepsOwned :
        (expected : Entry) (previous l : List Entry)
        → Restorable disk expected previous
        → load_unlocked p disk ≡ ok l
        → KeepsOwned p (restore_change p expected previous l)
    unfolding restore_change
    restore_change-KeepsOwned expected previous l r o =
        choose (is_undisturbed p expected l) (has_id expected.id l) refl
      where
        choose :
            (b there : Bool)
            → is_undisturbed p expected l ≡ b
            → KeepsOwned p (
                if b && there
                then replace (remove_id expected.id l ++ previous) true
                else keep false)
        choose true true q = λ d. r l o q
        choose true false q = tt
        choose false there q = tt

    restore-IsOwned :
        (expected : Entry) (previous : List Entry)
        → Restorable disk expected previous
        → OwnedDisk (restore_session_adapter_if_unchanged p io expected previous disk).0
    unfolding restore_session_adapter_if_unchanged
    restore-IsOwned expected previous r = choose (expected.id == "")
      where
        choose :
            (b : Bool)
            → OwnedDisk
                (if b
                  then (disk, err id_required)
                  else with_lock p io (restore_change p expected previous) disk).0
        choose true = h
        choose false =
            with_lock-IsOwned io (restore_change p expected previous) disk h
              (λ l q o. restore_change-KeepsOwned expected previous l r q)

    update-IsOwned : (e : Entry) → OwnedDisk (update_entry p io e disk).0
    unfolding update_entry
    update-IsOwned e =
        with_lock-IsOwned io (update_change p e) disk h (λ l q. update-KeepsOwned p e l)

    checked-IsOwned :
        (us : List EntryUpdate) (r : Result Unit) → OwnedDisk (update_checked p io us disk r).0
    unfolding update_checked
    checked-IsOwned [] (ok u) = h
    checked-IsOwned (v ∷ us) (ok u) =
        with_lock-IsOwned io (updates_change (v ∷ us)) disk h
          (λ l q. updates-KeepsOwned p (v ∷ us) l)
    checked-IsOwned [] (err x) = h
    checked-IsOwned (v ∷ us) (err x) = h

    updates-IsOwned : (us : List EntryUpdate) → OwnedDisk (update_entries p io us disk).0
    unfolding update_entries
    updates-IsOwned us = checked-IsOwned us (check_updates [] us)

    forget_unchanged-IsOwned :
        (expected : Entry) → OwnedDisk (forget_if_unchanged p io expected disk).0
    unfolding forget_if_unchanged
    forget_unchanged-IsOwned expected = choose (expected.id == "")
      where
        choose :
            (b : Bool)
            → OwnedDisk
                (if b
                  then (disk, err id_required)
                  else with_lock p io (forget_unchanged_change expected) disk).0
        choose true = h
        choose false =
            with_lock-IsOwned io (forget_unchanged_change expected) disk h
              (λ l q. forget_unchanged-KeepsOwned p expected l)

    forget_many-IsOwned : (ids : List String) → OwnedDisk (forget_many p io ids disk).0
    unfolding forget_many
    forget_many-IsOwned ids =
        with_lock-IsOwned io (forget_many_change ids) disk h (λ l q. forget_many-KeepsOwned p ids l)

  -- One operation of the store, however its lock, its load and its write end.
  pub data Step : Disk → Disk → Type 0 where
    upserted :
        {d d' : Disk} (io : Io) (now : ℕ) (e : Entry) → (upsert p io now e d).0 ≡ d' → Step d d'
    reattached :
        {d d' : Disk} (io : Io) (now : ℕ) (e : Entry)
        → (replace_session_adapter p io now e d).0 ≡ d'
        → Step d d'
    restored :
        {d d' : Disk} (io : Io) (expected : Entry) (previous : List Entry)
        → Restorable d expected previous
        → (restore_session_adapter_if_unchanged p io expected previous d).0 ≡ d'
        → Step d d'
    updated : {d d' : Disk} (io : Io) (e : Entry) → (update_entry p io e d).0 ≡ d' → Step d d'
    supervised :
        {d d' : Disk} (io : Io) (us : List EntryUpdate)
        → (update_entries p io us d).0 ≡ d'
        → Step d d'
    forgotten :
        {d d' : Disk} (io : Io) (expected : Entry)
        → (forget_if_unchanged p io expected d).0 ≡ d'
        → Step d d'
    removed :
        {d d' : Disk} (io : Io) (ids : List String) → (forget_many p io ids d).0 ≡ d' → Step d d'

  step-IsOwned : (d d' : Disk) → Step d d' → OwnedDisk d → OwnedDisk d'
  step-IsOwned d d' (upserted io now e q) h = subst OwnedDisk q (upsert-IsOwned io d h now e)
  step-IsOwned d d' (reattached io now e q) h = subst OwnedDisk q (replace-IsOwned io d h now e)
  step-IsOwned d d' (restored io x previous r q) h =
      subst OwnedDisk q (restore-IsOwned io d h x previous r)
  step-IsOwned d d' (updated io e q) h = subst OwnedDisk q (update-IsOwned io d h e)
  step-IsOwned d d' (supervised io us q) h = subst OwnedDisk q (updates-IsOwned io d h us)
  step-IsOwned d d' (forgotten io x q) h = subst OwnedDisk q (forget_unchanged-IsOwned io d h x)
  step-IsOwned d d' (removed io ids q) h = subst OwnedDisk q (forget_many-IsOwned io d h ids)

  -- The files that the operations make of an absent one.
  pub data Reached : Disk → Type 0 where
    start : {d : Disk} → d ≡ absent → Reached d
    next : {d d' : Disk} → Reached d → Step d d' → Reached d'

  Reached-IsOwned : (d : Disk) → Reached d → OwnedDisk d
  Reached-IsOwned d (start q) = subst OwnedDisk (sym q) nothing-IsOwned
  Reached-IsOwned d (next {d = b} r s) = step-IsOwned b d s (Reached-IsOwned b r)

  -- In every file that the store's operations, a plain Save aside, make of an absent one, however their
  -- locks, loads and writes end, two rows claim neither one target of one adapter nor one agent of one root, provided that
  -- a rollback brings back rows that stand apart from one another and from the rest.
  pub reached-Exclusive :
      (d : Disk)
      → Reached d
      → (i j : String) (e f : Entry) → find_id i (disk_entries d) ≡ some e
      → find_id j (disk_entries d) ≡ some f
      → i ≢ j
      → (same_target p e f ≡ false) × (same_root_agent p e f ≡ false)
  reached-Exclusive d r = (Reached-IsOwned d r).exclusive
