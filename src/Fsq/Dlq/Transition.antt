-- ===== src/Fsq/Dlq/Transition.antt =====
-- dlq.go: a message that cannot be processed moves from its inbox into an envelope of the dead letter
-- queue. Each function returns a path and an error, as the code does: the path may be set beside an error.
pub mod Deliver
pub mod Kept
use agent_message_queue.Base.{
  String, ◌<>◌, Bool, true, false, not, ◌||◌, Option, none, some, string_eq, ◌==◌, ◌!=◌,
  if◌then◌else◌,
}
use agent_message_queue.Fsq.Store.{
  Dir, FilePath, join, Bytes, inbox_new, inbox_cur, dlq_new, Root, path_eq,
}
use agent_message_queue.Fsq.Errors.{
  Error, message, wrapped, committed, joined, transition, is_not_exist, is_transition, as_committed,
  join_error,
}
use agent_message_queue.Fsq.Monad.{
  Result, ok, err, M, pure, fail, lift, ◌>>=◌, ◌>>◌, cases, error_of,
}
use agent_message_queue.Fsq.Syscall.{remove, sync_dir, unique_token}
use agent_message_queue.Fsq.Names.{validate_handle, validate_message_filename}
use agent_message_queue.Fsq.Root.{verify_base, read_regular_no_follow}
use agent_message_queue.Fsq.Delivery.{inbox_new_dir}
use agent_message_queue.Fsq.Claim.{Box, box_new, box_cur, inbox_cur_dir, move_new_to_cur}
use agent_message_queue.Fsq.Dlq.{Envelope}
use agent_message_queue.Fsq.Dlq.Format.{Codec, serialize}
use agent_message_queue.Fsq.Dlq.Moves.{dlq_new_dir, deliver_to_dlq}

-- `(string, error)`; no path is the empty text.
pub record Outcome : Type 0 where
  pub path : Option FilePath
  pub error : Option Error

abbrev pub failed : Error → Outcome
failed e = record { path = none; error = some e }

-- What a caller knows of the failure that it reports.
pub record Failure : Type 0 where
  pub original_id : String
  pub reason : String
  pub detail : String
  pub time : String

-- `GenerateDLQID`: the random bytes may fail.
unfoldable pub generate_dlq_id : M String
generate_dlq_id = do token ← unique_token; pure ("dlq_" <> token)

abbrev pub box_name : Box → String
box_name box_new = "new"
box_name box_cur = "cur"

-- `inboxSourceDir`.
abbrev pub inbox_source_dir : String → Box → Dir
inbox_source_dir agent box_new = inbox_new_dir agent
inbox_source_dir agent box_cur = inbox_cur_dir agent

-- The envelope of a message that has not been retried.
abbrev pub new_envelope : String → Box → String → Failure → Envelope
new_envelope id source filename f = record {
  schema = "amq/dlq/v1";
  id = id;
  original_id = f.original_id;
  original_file = filename;
  failure_reason = f.reason;
  failure_detail = f.detail;
  failure_time = f.time;
  negative_count = false;
  retry_count = 0;
  retry_state = "";
  retry_pending = false;
  retry_delivered = false;
  source_dir = box_name source;
}

-- The source is removed once the envelope stands.
removed : String → FilePath → Dir → FilePath → M Outcome
removed agent src src_dir dlq_path =
    cases (sync_dir src_dir) (λ _. pure (record { path = some dlq_path; error = none }))
      λ e. pure (record {
        path = some dlq_path;
        error = some (committed dlq_path agent (wrapped "sync removed source dir" e));
      })

unfoldable pub remove_source : String → FilePath → Dir → FilePath → M Outcome
unfolding removed
remove_source agent src src_dir dlq_path =
    cases (remove src) (λ _. removed agent src src_dir dlq_path)
      λ e.
        if is_not_exist e
        then removed agent src src_dir dlq_path
        else pure (record {
          path = some dlq_path;
          error = some (transition dlq_path src (wrapped "remove original" e));
        })

-- The delivery of the envelope failed: a committed one stands, and the source is retained.
undelivered_envelope : FilePath → Error → M Outcome
undelivered_envelope src e = elim (as_committed e) [
  | none ↦ pure (failed (wrapped "deliver to dlq" e))
  | some (p, a) ↦ pure (record { path = some p; error = some (transition p src e) })
]

-- `syncInboxClaimDirs`: both directories are synced, whatever the first says.
claim_dir_error : String → Option Error → Option Error → Option Error
claim_dir_error what acc none = acc
claim_dir_error what acc (some e) = join_error acc (wrapped what e)

unfoldable pub sync_inbox_claim_dirs : String → M (Option Error)
unfolding claim_dir_error
sync_inbox_claim_dirs agent = do
  new_err ← error_of (sync_dir (inbox_new_dir agent))
  cur_err ← error_of (sync_dir (inbox_cur_dir agent))
  pure (claim_dir_error "resync" (claim_dir_error "resync" none new_err) cur_err)

no_path : Option FilePath → Bool
no_path none = true
no_path (some p) = false

no_commit : Option (FilePath × String) → Bool
no_commit none = true
no_commit (some c) = false

joined_with : Error → Option Error → Error
joined_with e none = e
joined_with e (some e') = joined e e'

-- After the transition the claim is healed by syncing both sides of its rename again.
heal_path : String → Error → Outcome → Option FilePath → Error → Outcome
heal_path agent claim_err o none sync_err = o
heal_path agent claim_err o (some p) sync_err = record {
  path = some p;
  error = some (
      committed p agent
        (joined (joined_with (wrapped "claim original" claim_err) o.error) sync_err));
}

healed : String → Error → Outcome → Option Error → Outcome
unfolding heal_path joined_with
healed agent claim_err o none = record { path = o.path; error = none }
healed agent claim_err o (some sync_err) = heal_path agent claim_err o o.path sync_err

heal : String → Error → Outcome → M Outcome
unfolding healed
heal agent claim_err o =
    cases (sync_inbox_claim_dirs agent) (λ e. pure (healed agent claim_err o e))
      (λ e. pure (failed e))

-- A transition that is not over keeps the claim's error beside its own.
unhealed : Outcome → Error → Bool
unfolding no_path no_commit
unhealed o e = is_transition e || (no_path o.path || no_commit (as_committed e))

after_claim : String → Error → Outcome → Option Error → M Outcome
unfolding unhealed heal
after_claim agent claim_err o none = heal agent claim_err o
after_claim agent claim_err o (some e) =
    if unhealed o e
    then pure
        (record { path = o.path; error = some (joined (wrapped "claim original" claim_err) e) })
    else heal agent claim_err o

unfoldable pub settle_claim : String → Option Error → Outcome → M Outcome
unfolding after_claim
settle_claim agent none o = pure o
settle_claim agent (some claim_err) o = after_claim agent claim_err o o.error

module _ (codec : Codec) where
  enveloped : String → FilePath → Dir → String → Option Bytes → M Outcome
  unfolding undelivered_envelope
  enveloped agent src src_dir dlq_filename none = pure (failed (message "serialize dlq"))
  enveloped agent src src_dir dlq_filename (some data') =
      cases (deliver_to_dlq agent dlq_filename data') (remove_source agent src src_dir)
        (undelivered_envelope src)

  with_content : String → Box → Box → String → Failure → Bytes → M Outcome
  unfolding enveloped
  with_content agent box source filename f content =
      cases generate_dlq_id
        (λ id.
          enveloped agent (join (inbox_source_dir agent box) filename) (inbox_source_dir agent box)
            (id <> ".md") (serialize codec (new_envelope id source filename f) content))
        (λ e. pure (failed (wrapped "generate dlq id" e)))

  -- `moveInboxMessageToDLQ`: `box` is the read directory, `source` the one that the envelope names.
  unfoldable pub move_inbox_message_to_dlq : String → Box → Box → String → Failure → M Outcome
  unfolding with_content
  move_inbox_message_to_dlq agent box source filename f =
      cases (lift (validate_message_filename filename))
        (λ _.
          cases (read_regular_no_follow (join (inbox_source_dir agent box) filename))
            (with_content agent box source filename f)
            (λ e. pure (failed (wrapped "read original" e))))
        (λ e. pure (failed e))

  -- `MoveCurToDLQ`.
  unfoldable pub move_cur_to_dlq : String → String → Failure → M Outcome
  move_cur_to_dlq agent filename f = move_inbox_message_to_dlq agent box_cur box_cur filename f

  -- `moveClaimedCurToDLQ`.
  unfoldable pub move_claimed : String → Box → String → Failure → Option Error → M Outcome
  move_claimed agent source filename f claim_err =
      cases (move_inbox_message_to_dlq agent box_cur source filename f)
        (settle_claim agent claim_err) (λ e. pure (failed e))

  claimed_new : String → String → Failure → Error → M Outcome
  claimed_new agent filename f e = elim (as_committed e) [
    | none ↦ pure (failed (wrapped "claim original" e))
    | some c ↦ move_claimed agent box_new filename f (some e)
  ]

  -- `MoveToDLQ`: the message is claimed first, so that one caller moves it.
  unfoldable pub move_to_dlq : String → String → Failure → M Outcome
  unfolding claimed_new
  move_to_dlq agent filename f =
      cases (move_new_to_cur agent filename) (λ _. move_claimed agent box_new filename f none)
        (claimed_new agent filename f)

  -- The claim's error must name this agent and this file.
  provenance : String → String → Failure → Error → FilePath × String → M Outcome
  provenance agent filename f e (p, a) =
      if a != agent || p != join (inbox_cur_dir agent) filename
      then pure (failed (wrapped "claim original provenance mismatch" e))
      else move_claimed agent box_cur filename f (some e)

  checked_claim : String → String → Failure → Error → FilePath × String → M Outcome
  unfolding provenance
  checked_claim agent filename f e claim =
      cases (lift (validate_handle agent))
        (λ _.
          cases (lift (validate_message_filename filename))
            (λ _.
              cases verify_base (λ _. provenance agent filename f e claim) (λ e'. pure (failed e')))
            (λ e'. pure (failed (wrapped "claim filename" e'))))
        (λ e'. pure (failed (wrapped "claim recipient" e')))

  -- `MoveClaimedCurToDLQ`.
  unfoldable pub move_claimed_cur_to_dlq : String → String → Failure → Option Error → M Outcome
  unfolding checked_claim
  move_claimed_cur_to_dlq agent filename f none = move_cur_to_dlq agent filename f
  move_claimed_cur_to_dlq agent filename f (some e) = elim (as_committed e) [
    | none ↦ pure (failed (wrapped "claim original" e))
    | some claim ↦ checked_claim agent filename f e claim
  ]
