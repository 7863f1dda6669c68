-- ===== src/Fsq/Delivery.antt =====
-- maildir.go: delivery by a file in `tmp` that is published in `new` without replacing anything.
pub mod Publish
pub mod Single
pub mod Frame
pub mod Staging
pub mod Commit
pub mod Correct
use agent_message_queue.Base.{
  String, ◌<>◌, Bool, true, false, Option, none, some, List, [], ◌∷◌, ◌++◌, map, string_eq,
  codes_eq, ◌==◌, is_empty, if◌then◌else◌,
}
use agent_message_queue.Base.Dict.{Dict, insert}
use agent_message_queue.Fsq.Store.{
  Dir, FilePath, join, Bytes, inbox_tmp, inbox_new, Errno, eexist, exdev, Root,
}
use agent_message_queue.Fsq.Errors.{
  Error, message, wrapped, committed, partial, is, is_not_exist, join_error,
}
use agent_message_queue.Fsq.Monad.{
  Result, ok, err, M, pure, fail, lift, ◌>>=◌, ◌>>◌, cases, on_error, ignore, error_of,
}
use agent_message_queue.Fsq.Syscall.{
  tick, mkdir_all, sync_dir, remove, rename_no_replace, unique_token, has_dir,
}
use agent_message_queue.Fsq.Names.{validate_handle, validate_message_filename}
use agent_message_queue.Fsq.Root.{verify_base, write_and_sync, cleanup_temp, read_regular_no_follow}

pub record Stage : Type 0 where
  pub recipient : String
  pub tmp_path : FilePath
  pub new_path : FilePath

abbrev pub inbox_tmp_dir : String → Dir
inbox_tmp_dir agent = record { agent = agent; leaf = inbox_tmp }

abbrev pub inbox_new_dir : String → Dir
inbox_new_dir agent = record { agent = agent; leaf = inbox_new }

-- `uniqueAttemptTmpPath`.
unfoldable pub unique_attempt_tmp_path : Dir → String → M FilePath
unique_attempt_tmp_path d filename = do
  token ← unique_token
  pure (join d ("." <> filename <> ".tmp-" <> token))

-- `removeErr != nil && !os.IsNotExist(removeErr)` after an idempotent collision.
drop_idempotent : Error → M (Unit {0})
drop_idempotent e =
    if is_not_exist e then pure tt else fail (wrapped "remove idempotent tmp after collision" e)

same_content : FilePath → Bytes → Error → Bytes → M (Unit {0})
unfolding drop_idempotent
same_content tmp data' rename_err existing =
    if existing == data' then on_error (remove tmp) drop_idempotent else fail rename_err

unfoldable pub resolve_publish_collision : FilePath → FilePath → Bytes → Error → M (Unit {0})
unfolding same_content
resolve_publish_collision tmp new data' rename_err =
    cases (read_regular_no_follow new) (same_content tmp data' rename_err)
      λ e. fail (wrapped "inspect dest" rename_err)

publish_failed : FilePath → FilePath → Bytes → Error → M (Unit {0})
publish_failed tmp new data' e =
    if is eexist e then resolve_publish_collision tmp new data' e else cleanup_temp tmp e

unfoldable pub publish_tmp_no_replace : FilePath → FilePath → Bytes → M (Unit {0})
unfolding publish_failed resolve_publish_collision
publish_tmp_no_replace tmp new data' =
    on_error (rename_no_replace tmp new) (publish_failed tmp new data')

-- The body of the loop of `cleanupTmpStages`, with the error so far.
cleanup_stage : Stage → Option Error → M (Option Error)
cleanup_stage s acc = do
  acc' ←
      cases (remove s.tmp_path) (λ _. pure acc)
        λ e. pure (if is_not_exist e then acc else join_error acc (wrapped "cleanup tmp" e))
  cases (sync_dir (inbox_tmp_dir s.recipient)) (λ _. pure acc')
      λ e. pure (join_error acc' (wrapped "sync tmp dir" e))

cleanup_stages : List Stage → Option Error → M (Option Error)
cleanup_stages [] acc = pure acc
cleanup_stages (s ∷ rest) acc = do acc' ← cleanup_stage s acc; cleanup_stages rest acc'

-- `cleanupTmpStages`.
unfoldable pub cleanup_tmp_stages : List Stage → M (Option Error)
unfolding cleanup_stages cleanup_stage
cleanup_tmp_stages stages = cleanup_stages stages none

abbrev pub with_cleanup : Error → Option Error → Error
with_cleanup primary none = primary
with_cleanup primary (some c) = wrapped "cleanup" primary

-- `cleanupStagedTmp`, which always fails.
unfoldable pub cleanup_staged_tmp : {A : Type 0} → List Stage → Error → M A
cleanup_staged_tmp stages primary = do c ← cleanup_tmp_stages stages; fail (with_cleanup primary c)

-- The body of the staging loop for one recipient. A failure leaves no stage of its own behind, as far
-- as the system lets it.
unfoldable pub stage_one : String → String → Bytes → M Stage
stage_one recipient filename data' = do
  mkdir_all (inbox_tmp_dir recipient)
  mkdir_all (inbox_new_dir recipient)
  tmp ← unique_attempt_tmp_path (inbox_tmp_dir recipient) filename
  write_and_sync tmp data'
  on_error (sync_dir (inbox_tmp_dir recipient)) (cleanup_temp tmp)
  pure (record {
    recipient = recipient;
    tmp_path = tmp;
    new_path = join (inbox_new_dir recipient) filename;
  })

unfoldable pub stage_all : List Stage → List String → String → Bytes → M (List Stage)
stage_all stages [] filename data' = pure stages
stage_all stages (recipient ∷ rest) filename data' =
    cases (stage_one recipient filename data')
      (λ s. stage_all (stages ++ s ∷ []) rest filename data') (cleanup_staged_tmp stages)

abbrev pub recipients_of : List Stage → List String
recipients_of = map (λ s. s.recipient)

-- The map from a recipient to the path where its message stands.
unfoldable pub delivered_paths : List Stage → Dict String FilePath → Dict String FilePath
delivered_paths [] paths = paths
delivered_paths (s ∷ rest) paths = delivered_paths rest (insert s.recipient s.new_path paths)

-- A collision keeps the failed attempt, so that both copies survive.
abbrev pub undelivered : Error → Stage → List Stage → List Stage
undelivered primary failed pending = if is eexist primary then pending else failed ∷ pending

unfoldable pub partial_delivery_error : {A : Type 0} → List Stage → Stage → List Stage → Error → M A
partial_delivery_error committed' failed pending primary = do
  c ← cleanup_tmp_stages (undelivered primary failed pending)
  fail (
      partial (delivered_paths committed' []) failed.recipient (recipients_of pending)
        (with_cleanup primary c))

unfoldable pub committed_delivery_error : {A : Type 0} → List Stage → List Stage → Error → M A
committed_delivery_error committed' pending primary = do
  c ← cleanup_tmp_stages pending
  fail (partial (delivered_paths committed' []) "" (recipients_of pending) (with_cleanup primary c))

abbrev pub rename_error : Error → Error
rename_error e =
    if is exdev e
    then wrapped "rename tmp->new: different filesystems" e
    else wrapped "rename tmp->new" e

-- The commit loop: `before` is `stages[:i]`.
unfoldable pub commit_all : List Stage → List Stage → Bytes → M (Unit {0})
commit_all before [] data' = pure tt
commit_all before (s ∷ rest) data' =
    cases (publish_tmp_no_replace s.tmp_path s.new_path data')
      (λ _.
        cases (sync_dir (inbox_new_dir s.recipient))
          (λ _. do
            ignore (sync_dir (inbox_tmp_dir s.recipient))
            commit_all (before ++ s ∷ []) rest data')
          λ e.
            committed_delivery_error (before ++ s ∷ []) rest
              (committed s.new_path s.recipient (wrapped "sync new dir" e)))
      λ e. partial_delivery_error before s rest (rename_error e)

unfoldable pub validate_handles : List String → Result (Unit {0})
validate_handles [] = ok tt
validate_handles (a ∷ rest) = elim (validate_handle a) [
  | ok _ ↦ validate_handles rest
  | err e ↦ err e
]

unfoldable pub deliver_to_inboxes : List String → String → Bytes → M (Dict String FilePath)
deliver_to_inboxes recipients filename data' =
    if is_empty recipients then fail (message "no recipients provided") else do
      lift (validate_message_filename filename)
      lift (validate_handles recipients)
      verify_base
      stages ← stage_all [] recipients filename data'
      commit_all [] stages data'
      pure (delivered_paths stages [])
