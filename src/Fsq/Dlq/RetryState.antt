-- ===== src/Fsq/Dlq/RetryState.antt =====
-- The retry state of an envelope.
use agent_message_queue.Base.{arith, ◌≡◌, ◌⊎◌, false, string_eq, ◌==◌}
use agent_message_queue.Fsq.Dlq.{
  Envelope, valid, normalize_retry_state, state_ready, state_pending, state_delivered,
  state_indeterminate,
}

-- What every reader of an envelope relies on: one of the four states, the flags that follow it, and a
-- count that is not negative.
pub record IsNormal (env : Envelope) : Type 0 where
  pub known :
      (env.retry_state ≡ state_ready)
      ⊎ ((env.retry_state ≡ state_pending)
          ⊎ ((env.retry_state ≡ state_delivered) ⊎ (env.retry_state ≡ state_indeterminate)))
  pub pending : env.retry_pending ≡ (env.retry_state == state_pending)
  pub delivered : env.retry_delivered ≡ (env.retry_state == state_delivered)
  pub counted : env.negative_count ≡ false

-- An envelope that the check of the retry state accepts, in the present form or in that of an older
-- release, is left in one of the four states, with the two flags that follow it and a count that is not
-- negative.
pub normalize-IsNormal :
    (env : Envelope) (env' : Envelope) → normalize_retry_state env ≡ valid env' → IsNormal env'
unfolding normalize_retry_state
normalize-IsNormal env env' h = ground arith
