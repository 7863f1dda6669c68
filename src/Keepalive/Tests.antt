-- ===== src/Keepalive/Tests.antt =====
-- The registry at concrete entries.
use native.Mathlib.Decide.{ℕ_discrete}
use agent_message_queue.Format.Sort.{string_lt, codes_lt}
use agent_message_queue.Base.{
  String, ◌<>◌, ◌≡◌, ◌≢◌, refl, none, some, true, false, List, [], ◌∷◌, ◌++◌, string_eq, codes_eq,
  ne_of_test,
}
use agent_message_queue.Base.Text.{trim_space}
use agent_message_queue.Keepalive.Registry.{
  Entry, same_entry_identity, entry_eq, Paths, Resolution, ok, err, Result, write_failed,
  canonical_root, canonical_stored_target, same_target, same_root_agent,
}
use agent_message_queue.Keepalive.Supervisor.{Reconciler, target_not_found, reconcile}
use agent_message_queue.Keepalive.Supervisor.Reconcile.{Scheduled, reconcile-Settled}
use agent_message_queue.Keepalive.Registry.Store.{
  Disk, absent, Io, Saving, Change, replace, with_lock, sort_entries, load_unlocked,
}
use agent_message_queue.Keepalive.Registry.Operations.{
  has_id, find_id, restore_change, of_session, of_others,
}
use agent_message_queue.Keepalive.Registry.Batch.{
  EntryUpdate, Progress, check_updates, apply_updates,
}
use agent_message_queue.Keepalive.Registry.Transactions.{upsert}
use agent_message_queue.Keepalive.Registry.Exclusive.{disk_entries}
use agent_message_queue.Keepalive.Registry.Answers.{with_lock-Untouched, Written, with_lock-Written}
use agent_message_queue.Keepalive.Registry.Reached.{Step, Reached, reached-Exclusive}
use agent_message_queue.Keepalive.Registry.Updates.{batched, apply_updates-batched}
use agent_message_queue.Keepalive.Registry.Rollback.{restore-replace}

abbrev paths : Paths
paths = record {
  clean = λ s. s;
  abs = λ s. some s;
  eval_symlinks = λ s. Resolution.unresolved;
  dir = λ s. s;
  base = λ s. s;
  join = λ s t. s <> t;
  sha256_hex = λ s. s;
}

abbrev all_succeed : Saving
all_succeed = record {
  creates = true;
  chmods = true;
  encodes = true;
  syncs = true;
  closes = true;
  renames = true;
  chmods_registry = true;
  syncs_folder = true;
  removes = true;
}

abbrev works : Io
works = record { locks = true; write = all_succeed }

abbrev row : String → String → String → Entry
row id agent target = record {
  id = id;
  root = "/q";
  base_root = "";
  session_name = "";
  agent = agent;
  adapter = "tmux";
  target = target;
  ownership_key = "";
  state = "";
  last_attach = none;
  last_seen_by_supervisor = none;
  failure_count = 0;
  backoff_until = none;
  next_health_check = none;
  detached_since = none;
  last_error = "";
  last_supervisor_decision = "";
}

abbrev first_disk : Disk
first_disk = (upsert paths works 5 (row "" "claude" "%1") absent).0

abbrev second_disk : Disk
second_disk = (upsert paths works 6 (row "" "codex" "%2") first_disk).0

second_disk-Reached : Reached paths second_disk
second_disk-Reached =
    Reached.next {d = first_disk}
      (Reached.next {d = absent} (Reached.start refl)
        (Step.upserted works 5 (row "" "claude" "%1") refl))
      (Step.upserted works 6 (row "" "codex" "%2") refl)

abbrev claude_id : String
claude_id = "/q\0claude\0tmux\0%1"

abbrev codex_id : String
codex_id = "/q\0codex\0tmux\0%2"

abbrev claude : Entry
claude = record (row claude_id "claude" "%1") { state = "attached"; last_attach = some 5 }

abbrev codex : Entry
codex = record (row codex_id "codex" "%2") { state = "attached"; last_attach = some 6 }

rows_there :
    (find_id claude_id (disk_entries second_disk) ≡ some claude)
    × (find_id codex_id (disk_entries second_disk) ≡ some codex)
unfolding upsert find_id string_eq trim_space codes_eq entry_eq canonical_stored_target ℕ_discrete
    string_lt codes_lt
rows_there = (refl, refl)

apart_ids : claude_id ≢ codex_id
apart_ids = ne_of_test claude_id codex_id (unfold string_eq in refl)

reached-Exclusive_example :
    (same_target paths claude codex ≡ false) × (same_root_agent paths claude codex ≡ false)
reached-Exclusive_example =
    reached-Exclusive paths second_disk second_disk-Reached claude_id codex_id claude codex
      rows_there.0 rows_there.1 apart_ids

abbrev backed_off : Entry
backed_off = record claude { failure_count = 1 }

abbrev pass : List EntryUpdate
pass = record { earlier = claude; later = backed_off } ∷ []

abbrev loaded_rows : Progress
loaded_rows = record { entries = claude ∷ codex ∷ []; result = record { updated = 0; skipped = 0 } }

apply_updates-batched_example :
    (g' : Progress) × (apply_updates pass (ok loaded_rows) ≡ ok g')
    × ((j : String) → find_id j g'.entries ≡ batched pass j (find_id j (claude ∷ codex ∷ [])))
apply_updates-batched_example =
    apply_updates-batched [] pass loaded_rows (unfold check_updates string_eq in refl)

-- The session of claude moves to another terminal, and back.
abbrev moved : Entry
moved = record (row "/q\0claude\0tmux\0%9" "claude" "%9") {
  state = "attached";
  last_attach = some 7;
}

restore-replace_example :
    (l' : List Entry) × (restore_change paths moved
        (of_session paths moved (claude ∷ codex ∷ []))
        (sort_entries (of_others paths moved (claude ∷ codex ∷ []) ++ moved ∷ []))
      ≡ replace l' true)
    × ((j : String) → find_id j l' ≡ find_id j (claude ∷ codex ∷ []))
restore-replace_example =
    restore-replace paths moved (claude ∷ codex ∷ [])
      (unfold has_id string_eq in (refl, (refl, tt)))
      (unfold of_others has_id string_eq trim_space canonical_root in (refl, (refl, tt)))

-- The temporary file of a save cannot be renamed.
abbrev rename_fails : Io
rename_fails = record { locks = true; write = record all_succeed { renames = false } }

abbrev move_in : List Entry → Change (Unit {0})
move_in l = replace (moved ∷ []) tt

abbrev renamed_away : Disk × Result Unit
renamed_away = with_lock paths rename_fails move_in second_disk

rename_failed : renamed_away.1 ≡ err write_failed
unfolding with_lock upsert string_eq trim_space codes_eq canonical_stored_target ℕ_discrete
    string_lt codes_lt
rename_failed = refl

with_lock-Untouched_example : renamed_away.0 ≡ second_disk
with_lock-Untouched_example =
    with_lock-Untouched paths rename_fails move_in second_disk write_failed rename_failed (cc)

abbrev moved_in : Disk × Result Unit
moved_in = with_lock paths works move_in absent

all_written : moved_in.1 ≡ ok tt
unfolding with_lock string_eq trim_space
all_written = refl

with_lock-Written_example :
    (l : List Entry) × (load_unlocked paths absent ≡ ok l)
    × Written (move_in []) tt absent moved_in.0
with_lock-Written_example = with_lock-Written paths works move_in absent tt all_written

-- The terminal of claude is gone.
abbrev supervisor : Reconciler
supervisor = record {
  has_adapter = true;
  has_wake = true;
  probe = λ target. target_not_found "gone";
  start_wake = λ root me adapter target. none;
  ctx_before = none;
  ctx_probed = none;
  ctx_started = none;
  backoff_base = 0;
  backoff_max = 0;
  jitter = none;
  random_offset = λ span. some 7;
  active_check_interval = 0;
  detached_backoff_base = 0;
  detached_backoff_max = 0;
}

gone_is_detached : (reconcile supervisor claude 100).0.state ≡ "detached"
unfolding reconcile
gone_is_detached = refl

reconcile-Settled_example :
    (same_entry_identity claude (reconcile supervisor claude 100).0 ≡ true)
    × Scheduled supervisor
        (reconcile supervisor claude 100).1.action
        claude
        100
        (reconcile supervisor claude 100).0
reconcile-Settled_example = reconcile-Settled supervisor claude 100
