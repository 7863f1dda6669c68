-- ===== src/Fsq/Dlq/Moves.antt =====
-- dlq.go: where an envelope lies, and the moves between dlq/new and dlq/cur. The caller holds the lock of
-- the envelope, so each runs alone on a pinned root.
use agent_message_queue.Base.{
  String, ◌<>◌, Bool, true, false, not, ◌||◌, Option, none, some, List, [], ◌∷◌, string_eq,
  codes_eq, ◌==◌, if◌then◌else◌,
}
use agent_message_queue.Base.Text.{has_prefix}
use agent_message_queue.Fsq.Store.{
  Dir, FilePath, join, dir_of, Bytes, Node, regular, irregular, Files, dlq_tmp, dlq_new, dlq_cur,
  enoent, dir_eq,
}
use agent_message_queue.Fsq.Errors.{
  Error, errno, message, wrapped, committed, is_not_exist, join_error,
}
use agent_message_queue.Fsq.Monad.{
  ok, err, M, pure, fail, lift, ◌>>=◌, ◌>>◌, cases, on_error, ignore, error_of,
}
use agent_message_queue.Fsq.Syscall.{
  tick, mkdir_all, sync_dir, stat, remove, rename_no_replace, has_dir,
}
use agent_message_queue.Fsq.Names.{validate_message_filename}
use agent_message_queue.Fsq.Root.{
  verify_base, read_regular_no_follow, write_file_atomic, write_and_sync, cleanup_temp,
}
use agent_message_queue.Fsq.Delivery.{
  inbox_tmp_dir, inbox_new_dir, publish_tmp_no_replace, unique_attempt_tmp_path,
}
use agent_message_queue.Fsq.Claim.{Box, box_new, box_cur}

abbrev pub dlq_new_dir : String → Dir
dlq_new_dir agent = record { agent = agent; leaf = dlq_new }

abbrev pub dlq_cur_dir : String → Dir
dlq_cur_dir agent = record { agent = agent; leaf = dlq_cur }

abbrev pub dlq_tmp_dir : String → Dir
dlq_tmp_dir agent = record { agent = agent; leaf = dlq_tmp }

-- `DeliveryRoot.Stat`.
unfoldable pub root_stat : FilePath → M Node
root_stat p = do verify_base; stat p

unfoldable pub when_missing : {A : Type 0} → M A → Error → M A
when_missing rest e = if is_not_exist e then rest else fail e

-- `FindDLQMessage`: cur is looked at before new, for it holds the newer state where both exist.
unfoldable pub find_dlq_message : String → String → M (FilePath × Box)
unfolding root_stat when_missing
find_dlq_message agent filename = do
  lift (validate_message_filename filename)
  let cur_path = join (dlq_cur_dir agent) filename
  let new_path = join (dlq_new_dir agent) filename
  cases (root_stat cur_path) (λ _. pure (cur_path, box_cur))
      (when_missing (
        cases (root_stat new_path) (λ _. pure (new_path, box_new))
          (when_missing (fail (errno enoent)))))

-- `updateRetriedDLQEnvelope`: the new state is in cur before the old copy leaves new.
retire_new : FilePath → M (Unit {0})
retire_new path =
    on_error (remove path)
      λ e. if is_not_exist e then pure tt else fail (wrapped "remove old dlq envelope from new" e)

unfoldable pub update_retried : String → String → FilePath → Box → Bytes → M (Unit {0})
unfolding retire_new
update_retried agent filename path box data' = do
  on_error (mkdir_all (dlq_cur_dir agent)) (λ e. fail (wrapped "prepare dlq envelope cur dir" e))
  on_error (write_file_atomic (dlq_cur_dir agent) filename data' >> pure tt)
      (λ e. fail (wrapped "update dlq envelope in cur" e))
  elim box [
    | box_cur ↦ sync_dir (dlq_cur_dir agent)
    | box_new ↦ (do
      retire_new path
      on_error (sync_dir (dlq_new_dir agent)) (λ e. fail (wrapped "sync old dlq envelope dir" e))
      sync_dir (dlq_cur_dir agent))
  ]

abbrev pub add_report : Option Error → String → Option Error → Option Error
add_report acc what none = acc
add_report acc what (some e) = join_error acc (wrapped what e)

-- Both syncs are tried; a failure of either is a committed move with indeterminate durability.
unfoldable pub settle_move : {A : Type 0} → FilePath → String → String → String → A → M A
settle_move cur_path agent cur_what new_what a = do
  cur_err ← error_of (sync_dir (dlq_cur_dir agent))
  new_err ← error_of (sync_dir (dlq_new_dir agent))
  elim (add_report (add_report none cur_what cur_err) new_what new_err) [
    | none ↦ pure a
    | some e ↦ fail (committed cur_path agent e)
  ]

unfoldable pub drop_stale : FilePath → FilePath → String → Node → M Bool
drop_stale new_path cur_path agent irregular =
    fail (message "existing dlq/cur envelope is not a regular file")
drop_stale new_path cur_path agent (regular b) = do
  on_error (remove new_path)
      (λ e. if is_not_exist e then pure tt else fail (wrapped "remove stale dlq/new envelope" e))
  settle_move cur_path agent "sync authoritative dlq/cur dir" "sync reconciled dlq/new dir" true

-- `reconcileDLQCurAuthorityLocked`.
unfoldable pub reconcile : String → String → M Bool
unfolding drop_stale
reconcile agent filename =
    let new_path = join (dlq_new_dir agent) filename in
    let cur_path = join (dlq_cur_dir agent) filename in
    cases (stat new_path)
      (λ _. cases (stat cur_path) (drop_stale new_path cur_path agent) (when_missing (pure false)))
      (when_missing (pure false))

-- `moveDLQNewToCurLocked`.
unfoldable pub move_dlq_new_to_cur : String → String → M (Unit {0})
move_dlq_new_to_cur agent filename = do
  lift (validate_message_filename filename)
  verify_base
  let new_path = join (dlq_new_dir agent) filename
  let cur_path = join (dlq_cur_dir agent) filename
  mkdir_all (dlq_cur_dir agent)
  reconciled ← reconcile agent filename
  if reconciled then pure tt else (do
    rename_no_replace new_path cur_path
    settle_move cur_path agent "sync dlq/cur dir" "sync dlq/new dir" tt)

-- `attemptTmpMatches`.
unfoldable pub attempt_tmp_matches : String → String → Bool
attempt_tmp_matches filename name = name == filename || has_prefix name ("." <> filename <> ".tmp-")

-- The names in a directory.
unfoldable pub names_in : Dir → Files → List String
names_in d [] = []
names_in d ((p, n) ∷ rest) =
    let later = names_in d rest in if dir_of p == d then p.name ∷ later else later

-- `ReadDir`.
unfoldable pub read_dir : Dir → M (List String)
read_dir d = do
  verify_base
  tick
  (λ r. if has_dir r d then (ok (names_in d r.files), r) else (err (errno enoent), r))

-- The search for a retained temporary file with the content wanted.
unfoldable pub match_tmp : Dir → String → Bytes → List String → M (Option FilePath)
match_tmp d filename want [] = pure none
match_tmp d filename want (name ∷ rest) =
    let later = match_tmp d filename want rest in
    if not (attempt_tmp_matches filename name)
    then later
    else cases (read_regular_no_follow (join d name))
        (λ got. if got == want then pure (some (join d name)) else later)
        λ e. fail (wrapped "read retained inbox tmp" e)

complete_tmp : String → String → Bytes → Option FilePath → M Bool
complete_tmp agent filename want none = pure false
complete_tmp agent filename want (some tmp) = do
  on_error (publish_tmp_no_replace tmp (join (inbox_new_dir agent) filename) want)
      (λ e. fail (wrapped "complete retained inbox tmp" e))
  ignore (sync_dir (inbox_new_dir agent))
  ignore (sync_dir (inbox_tmp_dir agent))
  pure true

-- `recoverPendingInboxTmp`.
unfoldable pub recover_pending_inbox_tmp : String → String → Bytes → M Bool
unfolding complete_tmp
recover_pending_inbox_tmp agent filename want =
    cases (read_dir (inbox_tmp_dir agent))
      (λ names. do
        found ← match_tmp (inbox_tmp_dir agent) filename want names
        complete_tmp agent filename want found)
      λ e. if is_not_exist e then pure false else fail (wrapped "list retained inbox tmp" e)

-- `deliverToDLQ`.
unfoldable pub deliver_to_dlq : String → String → Bytes → M FilePath
deliver_to_dlq agent filename data' = do
  verify_base
  mkdir_all (dlq_tmp_dir agent)
  mkdir_all (dlq_new_dir agent)
  tmp ← unique_attempt_tmp_path (dlq_tmp_dir agent) filename
  let new_path = join (dlq_new_dir agent) filename
  write_and_sync tmp data'
  on_error (sync_dir (dlq_tmp_dir agent)) (cleanup_temp tmp)
  publish_tmp_no_replace tmp new_path data'
  on_error (sync_dir (dlq_new_dir agent))
      (λ e. fail (committed new_path agent (wrapped "sync dlq new dir" e)))
  ignore (sync_dir (dlq_tmp_dir agent))
  pure new_path
