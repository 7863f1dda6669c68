-- ===== src/Wake/Doorbell/Attempt.antt =====
-- What the outcome of a notification does to the doorbell (recordWakeAttempt, shouldRecordWakeAttempt and
-- wakeInputAttemptConfirmed in internal/cli/wake.go).
use agent_message_queue.Base.{ℕ, Bool, true, false, not, ◌&&◌, ◌||◌, is_empty, if◌then◌else◌}
use agent_message_queue.Wake.Cohort.{Pending}
use agent_message_queue.Wake.Doorbell.{
  Doorbell, arm, record_injected, record_deferred_input_attempt, record_attention_attempt,
  record_attempt,
}

-- The error of a delivery, by what the code tells apart with errors.As.
pub data DeliveryResult : Type 0 where
  delivered : DeliveryResult
  attention_failed : DeliveryResult
  terminal_authority_loss : DeliveryResult
  terminal_partial_progress : DeliveryResult
  demotion_blocked : DeliveryResult
  terminal_progress_uncertain : DeliveryResult
  other_error : DeliveryResult

-- The fields of the configuration that the record of an attempt reads.
pub record Attempt : Type 0 where
  pub retry_until_injected : Bool
  pub last_attempt_attention : Bool
  pub last_attempt_transient_attention : Bool
  pub result : DeliveryResult

abbrev pub is_delivered : DeliveryResult → Bool
is_delivered DeliveryResult.delivered = true
is_delivered _ = false

abbrev pub is_attention_error : DeliveryResult → Bool
is_attention_error DeliveryResult.attention_failed = true
is_attention_error _ = false

unfoldable pub should_record_wake_attempt : DeliveryResult → Bool
should_record_wake_attempt DeliveryResult.terminal_authority_loss = false
should_record_wake_attempt DeliveryResult.terminal_partial_progress = false
should_record_wake_attempt DeliveryResult.demotion_blocked = false
should_record_wake_attempt DeliveryResult.terminal_progress_uncertain = false
should_record_wake_attempt _ = true

unfoldable pub settle_attempt : Attempt → ℕ → Doorbell → Doorbell
unfolding record_deferred_input_attempt record_attention_attempt record_attempt
settle_attempt a now s =
    if a.last_attempt_transient_attention
    then record_deferred_input_attempt now s
    else if a.last_attempt_attention || is_attention_error a.result
    then record_attention_attempt now s
    else record_attempt now s

unfoldable pub settles_announced : Attempt → Bool
settles_announced a =
    a.retry_until_injected
    && (is_delivered a.result
        && (not a.last_attempt_attention && not a.last_attempt_transient_attention))

unfoldable pub record_wake_attempt : Attempt → ℕ → Pending → Doorbell → Doorbell
unfolding arm record_injected settle_attempt settles_announced
record_wake_attempt a now current s =
    if settles_announced a
    then record_injected current
    else settle_attempt a now (if is_empty s.cohort then arm current s else s)
