-- ===== src/Keepalive/Registry/Transactions.antt =====
-- The public operations of the registry's store, each one transaction on the file
-- (internal/keepalive/registry/store.go).
use Prim.Native.Nat.{ℕ}
use agent_message_queue.Base.{String, eqb, Bool, List, [], ◌∷◌, string_eq, ◌==◌, if◌then◌else◌}
use agent_message_queue.Keepalive.Registry.{Entry, Paths, id_required, Result, ok, err}
use agent_message_queue.Keepalive.Registry.Store.{Disk, Io, with_lock}
use agent_message_queue.Keepalive.Registry.Operations.{
  prepare_entry, upsert_change, replace_change, restore_change, check_change, update_change,
}
use agent_message_queue.Keepalive.Registry.Batch.{
  EntryUpdate, UpdateResult, check_updates, updates_change, forget_unchanged_change,
  forget_many_change,
}

unfoldable pub prepared_then :
    {A : Type 0} → (Entry → Disk → Disk × Result A) → Disk → Result Entry → Disk × Result A
prepared_then f disk (ok e) = f e disk
prepared_then f disk (err x) = (disk, err x)

unfoldable pub removed_one : Disk × Result ℕ → Disk × Result Bool
removed_one (disk, ok n) = (disk, ok (eqb n 1))
removed_one (disk, err x) = (disk, err x)

module _ (p : Paths) (io : Io) where
  unfoldable pub upsert : ℕ → Entry → Disk → Disk × Result Entry
  unfolding prepared_then with_lock prepare_entry upsert_change
  upsert now e disk =
      prepared_then (λ prepared. with_lock p io (upsert_change p prepared)) disk
        (prepare_entry p now e)

  unfoldable pub replace_session_adapter : ℕ → Entry → Disk → Disk × Result (Entry × List Entry)
  unfolding prepared_then with_lock prepare_entry replace_change
  replace_session_adapter now e disk =
      prepared_then (λ prepared. with_lock p io (replace_change p prepared)) disk
        (prepare_entry p now e)

  unfoldable pub restore_session_adapter_if_unchanged :
      Entry → List Entry → Disk → Disk × Result Bool
  unfolding with_lock restore_change
  restore_session_adapter_if_unchanged expected previous disk =
      if expected.id == ""
      then (disk, err id_required)
      else with_lock p io (restore_change p expected previous) disk

  unfoldable pub check_target_available : ℕ → Bool → Entry → Disk → Disk × Result Unit
  unfolding prepared_then with_lock prepare_entry check_change
  check_target_available now ignore e disk =
      prepared_then (λ prepared. with_lock p io (check_change p ignore prepared)) disk
        (prepare_entry p now e)

  unfoldable pub update_entry : Entry → Disk → Disk × Result Unit
  unfolding with_lock update_change
  update_entry e disk = with_lock p io (update_change p e) disk

  unfoldable pub update_checked : List EntryUpdate → Disk → Result Unit → Disk × Result UpdateResult
  unfolding with_lock updates_change
  update_checked [] disk (ok u) = (disk, ok (record { updated = 0; skipped = 0 }))
  update_checked (v ∷ rest) disk (ok u) = with_lock p io (updates_change (v ∷ rest)) disk
  update_checked updates disk (err x) = (disk, err x)

  unfoldable pub update_entries : List EntryUpdate → Disk → Disk × Result UpdateResult
  unfolding update_checked check_updates
  update_entries updates disk = update_checked updates disk (check_updates [] updates)

  unfoldable pub forget_if_unchanged : Entry → Disk → Disk × Result Bool
  unfolding with_lock forget_unchanged_change
  forget_if_unchanged expected disk =
      if expected.id == ""
      then (disk, err id_required)
      else with_lock p io (forget_unchanged_change expected) disk

  unfoldable pub forget_many : List String → Disk → Disk × Result ℕ
  unfolding with_lock forget_many_change
  forget_many ids disk = with_lock p io (forget_many_change ids) disk

  unfoldable pub forget : String → Disk → Disk × Result Bool
  unfolding removed_one forget_many
  forget id disk = removed_one (forget_many (id ∷ []) disk)
