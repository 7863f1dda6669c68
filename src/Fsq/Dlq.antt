-- ===== src/Fsq/Dlq.antt =====
-- dlq.go: the envelope of a failed message, its retry state, and the retry.
pub mod RetryState
pub mod Format
pub mod Moves
pub mod Retry
pub mod Refusal
pub mod Transition
pub mod Tests
use agent_message_queue.Base.{
  ℕ, ◌+◌, String, Bool, true, false, not, ◌&&◌, ◌||◌, Option, none, some, List, [], ◌∷◌, string_eq,
  ◌==◌, leb, ltb, eqb, if◌then◌else◌,
}
use agent_message_queue.Fsq.Store.{
  Dir, FilePath, join, Bytes, Node, inbox_new, inbox_cur, dlq_new, dlq_cur, enoent, Root,
}

abbrev pub max_retries : ℕ
max_retries = 3

abbrev pub state_ready : String
state_ready = "ready"

abbrev pub state_pending : String
state_pending = "pending"

abbrev pub state_delivered : String
state_delivered = "delivered"

abbrev pub state_indeterminate : String
state_indeterminate = "indeterminate"

-- `DLQEnvelope`. A negative `retry_count` is `negative_count`, which every reader refuses.
pub record Envelope : Type 0 where
  pub schema : String
  pub id : String
  pub original_id : String
  pub original_file : String
  pub failure_reason : String
  pub failure_detail : String
  pub failure_time : String
  pub negative_count : Bool
  pub retry_count : ℕ
  pub retry_state : String
  pub retry_pending : Bool
  pub retry_delivered : Bool
  pub source_dir : String

pub data EnvelopeError : Type 0 where
  negative_retry_count exclusive_markers unknown_state needs_count disagrees : EnvelopeError

pub data Checked : Type 0 where
  valid : Envelope → Checked
  refused : EnvelopeError → Checked

-- `setRetryState`: the two flags follow the state.
unfoldable pub set_retry_state : Envelope → String → Envelope
set_retry_state env state = record env {
  retry_state = state;
  retry_pending = state == state_pending;
  retry_delivered = state == state_delivered;
}

-- An envelope with no state: the flags and the count of an older release.
legacy_state : Envelope → Checked
legacy_state env =
    if env.retry_pending && env.retry_delivered
    then refused exclusive_markers
    else if env.retry_pending
    then valid (set_retry_state env state_pending)
    else if env.retry_delivered
    then valid (set_retry_state env state_delivered)
    else if ltb 0 env.retry_count
    then valid (set_retry_state env state_indeterminate)
    else valid (set_retry_state env state_ready)

same_bool : Bool → Bool → Bool
same_bool true b = b
same_bool false b = not b

agree : Envelope → Bool → Bool → Bool
unfolding same_bool
agree env pending delivered =
    same_bool env.retry_pending pending && same_bool env.retry_delivered delivered

-- An envelope that names its state: the state is known, has a count, and the flags agree with it.
named_state : Envelope → Checked
unfolding agree
named_state env =
    let state = env.retry_state in
    if not (
      state == state_ready
      || (state == state_pending || (state == state_delivered || state == state_indeterminate)))
    then refused unknown_state
    else if not (state == state_ready) && eqb env.retry_count 0
    then refused needs_count
    else if not (agree env (state == state_pending) (state == state_delivered))
    then refused disagrees
    else valid (set_retry_state env state)

-- `normalizeRetryState`.
unfoldable pub normalize_retry_state : Envelope → Checked
unfolding legacy_state named_state set_retry_state
normalize_retry_state env =
    if env.negative_count
    then refused negative_retry_count
    else if env.retry_state == ""
    then legacy_state env
    else named_state env
