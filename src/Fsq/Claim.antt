-- ===== src/Fsq/Claim.antt =====
-- find.go, claim_rename_other.go and the delivery to an existing inbox of maildir.go.
pub mod Exclusive
pub mod Existing
use agent_message_queue.Base.{String, Bool, true, false, Option, none, some, if◌then◌else◌}
use agent_message_queue.Fsq.Store.{
  Dir, FilePath, join, Bytes, Node, inbox_tmp, inbox_new, inbox_cur, enoent, eexist, Root,
}
use agent_message_queue.Fsq.Errors.{
  Error, errno, message, wrapped, committed, claim_collision, is, is_not_exist, as_residue,
  join_error,
}
use agent_message_queue.Fsq.Monad.{
  Result, ok, err, M, pure, fail, lift, ◌>>=◌, ◌>>◌, cases, on_error, ignore, error_of, fail_if,
}
use agent_message_queue.Fsq.Syscall.{tick, mkdir_all, sync_dir, stat, rename_no_replace, has_dir}
use agent_message_queue.Fsq.Names.{validate_handle, validate_message_filename}
use agent_message_queue.Fsq.Root.{verify_base, write_and_sync, cleanup_temp}
use agent_message_queue.Fsq.Delivery.{
  inbox_tmp_dir, inbox_new_dir, unique_attempt_tmp_path, publish_tmp_no_replace,
}

abbrev pub inbox_cur_dir : String → Dir
inbox_cur_dir agent = record { agent = agent; leaf = inbox_cur }

pub data Box : Type 0 where
  box_new box_cur : Box

missing_or : {A : Type 0} → M A → Error → M A
missing_or rest e = if is_not_exist e then rest else fail e

-- `FindMessage`: `new` is looked at before `cur`.
unfoldable pub find_message : String → String → M (FilePath × Box)
unfolding missing_or
find_message agent filename = do
  lift (validate_handle agent)
  lift (validate_message_filename filename)
  let new_path = join (inbox_new_dir agent) filename
  let cur_path = join (inbox_cur_dir agent) filename
  cases (stat new_path) (λ _. pure (new_path, box_new))
      (missing_or
        (cases (stat cur_path) (λ _. pure (cur_path, box_cur)) (missing_or (fail (errno enoent)))))

inspect_source : FilePath → FilePath → M (Unit {0})
inspect_source new_path cur_path =
    cases (stat new_path) (λ _. fail (claim_collision new_path cur_path))
      λ e.
        if is_not_exist e
        then fail (errno enoent)
        else fail (wrapped "inspect claim source after collision" e)

claim_failed : FilePath → FilePath → Error → M (Unit {0})
unfolding inspect_source
claim_failed new_path cur_path e = if is eexist e then inspect_source new_path cur_path else fail e

-- `claimRename` on a POSIX system.
unfoldable pub claim_rename : FilePath → FilePath → M (Unit {0})
unfolding claim_failed
claim_rename new_path cur_path =
    on_error (rename_no_replace new_path cur_path) (claim_failed new_path cur_path)

translate : FilePath → String → Error → M (Unit {0})
translate cur_path agent e = elim (as_residue e) [
  | none ↦ fail e
  | some inner ↦ fail (committed cur_path agent inner)
]

add_error : Option Error → String → Option Error → Option Error
add_error acc what none = acc
add_error acc what (some e) = join_error acc (wrapped what e)

durable : FilePath → String → Option Error → M (Unit {0})
durable cur_path agent none = pure tt
durable cur_path agent (some e) = fail (committed cur_path agent e)

-- `MoveNewToCur`.
unfoldable pub move_new_to_cur : String → String → M (Unit {0})
unfolding translate add_error durable
move_new_to_cur agent filename = do
  lift (validate_handle agent)
  lift (validate_message_filename filename)
  verify_base
  mkdir_all (inbox_cur_dir agent)
  let new_path = join (inbox_new_dir agent) filename
  let cur_path = join (inbox_cur_dir agent) filename
  on_error (claim_rename new_path cur_path) (translate cur_path agent)
  cur_err ← error_of (sync_dir (inbox_cur_dir agent))
  new_err ← error_of (sync_dir (inbox_new_dir agent))
  durable cur_path agent
      (add_error (add_error none "sync inbox/cur dir" cur_err) "sync inbox/new dir" new_err)

-- `dirExists`: a stat that fails is no directory.
unfoldable pub dir_exists : Dir → M Bool
dir_exists d = cases tick (λ _ r. (ok (has_dir r d), r)) (λ _. pure false)

require_dir : Dir → String → M (Unit {0})
require_dir d what = do there ← dir_exists d; if there then pure tt else fail (message what)

-- `DeliverToExistingInbox`, which makes no directory. The layout check is the parameter: the code of
-- `ValidateExistingMailboxLayout`, which only looks.
unfoldable pub deliver_to_existing_inbox :
    (String → M (Unit {0})) → String → String → Bytes → M FilePath
unfolding require_dir
deliver_to_existing_inbox validate_layout agent filename data' = do
  lift (validate_handle agent)
  lift (validate_message_filename filename)
  verify_base
  validate_layout agent
  require_dir (inbox_tmp_dir agent) "peer inbox tmp dir does not exist"
  require_dir (inbox_new_dir agent) "peer inbox new dir does not exist"
  tmp ← unique_attempt_tmp_path (inbox_tmp_dir agent) filename
  let new_path = join (inbox_new_dir agent) filename
  write_and_sync tmp data'
  on_error (sync_dir (inbox_tmp_dir agent)) (cleanup_temp tmp)
  on_error (publish_tmp_no_replace tmp new_path data') (λ e. fail (wrapped "rename tmp->new" e))
  on_error (sync_dir (inbox_new_dir agent))
      (λ e. fail (committed new_path agent (wrapped "sync new dir" e)))
  ignore (sync_dir (inbox_tmp_dir agent))
  pure new_path
