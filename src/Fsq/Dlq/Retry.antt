-- ===== src/Fsq/Dlq/Retry.antt =====
-- dlq.go: the retry of one envelope, under its lock.
use agent_message_queue.Base.{
  ◌+◌, String, Bool, not, ◌&&◌, ◌||◌, Option, none, some, [], ◌∷◌, string_eq, ◌==◌, leb,
  if◌then◌else◌,
}
use agent_message_queue.Fsq.Store.{FilePath, join, Bytes}
use agent_message_queue.Fsq.Errors.{
  Error, message, wrapped, committed, joined, is_not_exist, as_committed,
}
use agent_message_queue.Fsq.Monad.{M, pure, fail, lift, ◌>>=◌, ◌>>◌, cases, on_error, error_of}
use agent_message_queue.Fsq.Names.{validate_message_filename}
use agent_message_queue.Fsq.Root.{read_regular_no_follow}
use agent_message_queue.Fsq.Delivery.{inbox_new_dir, deliver_to_inboxes}
use agent_message_queue.Fsq.Claim.{Box, box_new, box_cur, inbox_cur_dir}
use agent_message_queue.Fsq.Dlq.{
  Envelope, max_retries, state_ready, state_pending, state_delivered, state_indeterminate,
  set_retry_state,
}
use agent_message_queue.Fsq.Dlq.Format.{Codec, serialize, parse}
use agent_message_queue.Fsq.Dlq.Moves.{
  dlq_cur_dir, root_stat, find_dlq_message, update_retried, reconcile, recover_pending_inbox_tmp,
}

abbrev pub err_retry_delivered : Error
err_retry_delivered = message "DLQ envelope retry already delivered"

abbrev pub err_retry_indeterminate : Error
err_retry_indeterminate = message "DLQ envelope retry outcome is indeterminate"

-- A copy left in `dlq/new` of an envelope in `dlq/cur` is removed first.
unfoldable pub reconcile_if_cur : String → String → Box → M (Unit {0})
reconcile_if_cur agent filename box_new = pure tt
reconcile_if_cur agent filename box_cur = do reconcile agent filename; pure tt

module _ (codec : Codec) where
  unfoldable pub parsed : Option (Envelope × Bytes) → M (Envelope × Bytes)
  parsed none = fail (message "parse envelope")
  parsed (some e) = pure e

  -- `ReadDLQEnvelope`.
  unfoldable pub read_dlq_envelope : FilePath → M (Envelope × Bytes)
  unfolding parsed
  read_dlq_envelope path = do data' ← read_regular_no_follow path; parsed (parse codec data')

  serialized : String → Option Bytes → M Bytes
  serialized what none = fail (message what)
  serialized what (some b) = pure b

  -- The serialisation, and the write of the envelope.
  unfoldable pub save : String → String → FilePath → Box → Envelope → Bytes → M (Unit {0})
  unfolding serialized
  save agent filename path box env content = do
    data' ← serialized "serialize updated dlq envelope" (serialize codec env content)
    update_retried agent filename path box data'

  -- The box of the inbox that still holds the original message.
  unfoldable pub original_box : String → String → M (Option Box)
  original_box agent file =
      cases (root_stat (join (inbox_new_dir agent) file)) (λ _. pure (some box_new))
        (λ e.
          if is_not_exist e
          then (cases (root_stat (join (inbox_cur_dir agent) file)) (λ _. pure (some box_cur))
              (λ e'.
                if is_not_exist e' then pure none else fail (wrapped "stat inbox original" e')))
          else fail (wrapped "stat inbox original" e))

  -- An earlier retry may have been delivered: it is finished, and never sent again.
  recovered_box : String → Envelope → Bytes → Option Box → M Box
  recovered_box agent env content (some b) = pure b
  recovered_box agent env content none = do
    recovered ← recover_pending_inbox_tmp agent env.original_file content
    if recovered
        then pure box_new
        else fail (wrapped "no visible inbox destination" err_retry_indeterminate)

  unfoldable pub finish_earlier :
      String → String → FilePath → Box → Envelope → Bytes → Option Box → M (Unit {0})
  unfolding recovered_box serialized
  finish_earlier agent filename path box env content present = do
    there ← recovered_box agent env content present
    data' ←
        serialized "serialize recovered dlq envelope"
          (serialize codec (set_retry_state env state_delivered) content)
    on_error (update_retried agent filename path box data')
        (λ e. fail (wrapped "retry delivery exists but finalize recovered dlq envelope" e))
    fail (wrapped "original file exists in inbox" err_retry_delivered)

  finalized : Option Error → FilePath → String → Option Error → M (Unit {0})
  finalized none p agent none = pure tt
  finalized (some d) p agent none = fail (wrapped "redeliver to inbox" d)
  finalized none p agent (some e) =
      fail (committed p agent (wrapped "finalize retried dlq envelope" e))
  finalized (some d) p agent (some e) =
      fail (joined (wrapped "redeliver to inbox" d) (wrapped "finalize retried dlq envelope" e))

  -- The delivery is visible: the audit is finished before any durability error is returned.
  unfoldable pub finish_delivery :
      String → String → FilePath → Envelope → Bytes → Option Error → FilePath → M (Unit {0})
  unfolding finalized serialized
  finish_delivery agent filename cur_path env content delivery_err inbox_path = do
    data' ←
        serialized "serialize completed dlq envelope"
          (serialize codec (set_retry_state env state_delivered) content)
    save_err ← error_of (update_retried agent filename cur_path box_cur data')
    finalized delivery_err inbox_path agent save_err

  -- The delivery failed before its commit: the envelope is ready again, with its count.
  reset_failed : Error → Error → M (Unit {0})
  reset_failed d e =
      fail (joined (wrapped "redeliver to inbox" d) (wrapped "reset retried dlq envelope" e))

  unfoldable pub reset : String → String → FilePath → Envelope → Bytes → Error → M (Unit {0})
  unfolding reset_failed serialized
  reset agent filename cur_path env content d = do
    data' ←
        on_error
          (serialized "serialize reset dlq envelope"
            (serialize codec (set_retry_state env state_ready) content))
          (λ e. fail (joined (wrapped "redeliver to inbox" d) e))
    on_error (update_retried agent filename cur_path box_cur data') (reset_failed d)
    fail (wrapped "redeliver to inbox" d)

  undelivered : String → String → FilePath → Envelope → Bytes → Error → M (Unit {0})
  undelivered agent filename cur_path env content d = elim (as_committed d) [
    | none ↦ reset agent filename cur_path env content d
    | some (p, a) ↦ finish_delivery agent filename cur_path env content (some d) p
  ]

  -- The retry proper: the envelope is saved as pending, in cur, before the message is delivered.
  unfoldable pub deliver_again : String → String → FilePath → Box → Envelope → Bytes → M (Unit {0})
  unfolding undelivered
  deliver_again agent filename path box env content =
      let env' = set_retry_state (record env { retry_count = env.retry_count + 1 }) state_pending in
      let cur_path = join (dlq_cur_dir agent) filename in
      do
        save agent filename path box env' content
        cases (deliver_to_inboxes (agent ∷ []) env.original_file content)
            (λ _.
              finish_delivery agent filename cur_path env' content none
                (join (inbox_new_dir agent) env.original_file))
            (undelivered agent filename cur_path env' content)

  unfoldable pub fresh_retry :
      Bool → String → String → FilePath → Box → Envelope → Bytes → Option Box → M (Unit {0})
  fresh_retry force agent filename path box env content (some b) =
      fail (message "original file already exists in inbox (refusing retry)")
  fresh_retry force agent filename path box env content none =
      if leb max_retries env.retry_count && not force
      then fail (message "max retries exceeded; use --force to override")
      else deliver_again agent filename path box env content

  -- What `retryFromDLQLocked` does with the envelope that it has read.
  unfoldable pub retry_envelope :
      Bool → String → String → FilePath → Box → Envelope → Bytes → M (Unit {0})
  unfolding fresh_retry
  retry_envelope force agent filename path box env content = do
    lift (validate_message_filename env.original_file)
    if env.retry_state == state_delivered
        then fail (wrapped "retry already delivered" err_retry_delivered)
        else (do
          present ← original_box agent env.original_file
          if env.retry_state == state_pending || env.retry_state == state_indeterminate
              then finish_earlier agent filename path box env content present
              else fresh_retry force agent filename path box env content present)

  -- `retryFromDLQLocked`.
  unfoldable pub retry_from_dlq : Bool → String → String → M (Unit {0})
  unfolding reconcile_if_cur
  retry_from_dlq force agent filename = do
    at ← find_dlq_message agent filename
    read ← on_error (read_dlq_envelope at.0) (λ e. fail (wrapped "read dlq envelope" e))
    reconcile_if_cur agent filename at.1
    retry_envelope force agent filename at.0 at.1 read.0 read.1
