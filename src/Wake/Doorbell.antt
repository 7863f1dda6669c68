-- ===== src/Wake/Doorbell.antt =====
-- The state of a doorbell and its operations (internal/cli/wake_doorbell.go). A `time.Time` is an
-- `Option` with `none` for the zero time, in nanoseconds; a `uint` counter wraps at 2⁶⁴.
pub mod Planning
pub mod Recovery
pub mod Attempt
pub mod Invariant
pub mod Schedule
use Prim.Native.Nat.{◌*◌, ◌%◌}
use agent_message_queue.Base.{
  ℕ, ◌+◌, String, Option, none, some, Bool, true, false, not, [], ◌&&◌, ◌||◌, ltb, leb, eqb,
  is_empty, if◌then◌else◌,
}
use agent_message_queue.Wake.Backoff.{capped_exponential_backoff}
use agent_message_queue.Wake.Cohort.{
  Cohort, Pending, snapshot_wake_file_identities, wake_cohort_progressed, wake_cohort_expanded,
  wake_cohort_replaced_in_place,
}

pub data Phase : Type 0 where
  idle : Phase
  retrying : Phase
  parked : Phase
  announced : Phase
  recovery_required : Phase

abbrev pub second : ℕ
second = 1000000000

abbrev pub retry_base : ℕ
retry_base = 5 * second

abbrev pub attention_retry_base : ℕ
attention_retry_base = 30 * second

abbrev pub retry_max : ℕ
retry_max = 120 * second

abbrev pub attention_retry_max : ℕ
attention_retry_max = 900 * second

abbrev pub initial_attempt_budget : ℕ
initial_attempt_budget = 4

abbrev pub lifetime_attempt_cap : ℕ
lifetime_attempt_cap = 8

-- `n++` of a 64-bit uint.
abbrev pub next_count : ℕ → ℕ
next_count n = (n + 1) % 18446744073709551616

pub record Doorbell : Type 0 where
  pub phase : Phase
  pub cohort : Cohort
  pub presentation_confirmed : Bool
  pub attempts : ℕ
  pub reminder_attempts : ℕ
  pub attempt_budget : ℕ
  pub next_attempt : Option ℕ
  pub addition_attempt_floor : Option ℕ
  pub transient_attention_attempts : ℕ
  pub next_transient_attention : Option ℕ
  pub recovery_pending : Bool
  pub recovery_attention_undelivered : Bool

pub record Plan : Type 0 where
  pub attempt : Bool
  pub submit_only : Bool
  pub content_change : Bool
  pub progress : Bool

abbrev pub is_idle : Phase → Bool
is_idle Phase.idle = true
is_idle _ = false

abbrev pub is_retrying : Phase → Bool
is_retrying Phase.retrying = true
is_retrying _ = false

abbrev pub is_parked : Phase → Bool
is_parked Phase.parked = true
is_parked _ = false

abbrev pub is_announced : Phase → Bool
is_announced Phase.announced = true
is_announced _ = false

abbrev pub is_recovery : Phase → Bool
is_recovery Phase.recovery_required = true
is_recovery _ = false

unfoldable pub reset : Doorbell
reset = record {
  phase = Phase.idle;
  cohort = [];
  presentation_confirmed = false;
  attempts = 0;
  reminder_attempts = 0;
  attempt_budget = 0;
  next_attempt = none;
  addition_attempt_floor = none;
  transient_attention_attempts = 0;
  next_transient_attention = none;
  recovery_pending = false;
  recovery_attention_undelivered = false;
}

-- `now.Before(t)`, and false for the zero time, which lies before every clock reading.
abbrev pub before : ℕ → Option ℕ → Bool
before now none = false
before now (some t) = ltb now t

abbrev pub is_zero : Option ℕ → Bool
is_zero none = true
is_zero (some t) = false

unfoldable pub arm : Pending → Doorbell → Doorbell
arm current s = record s {
  phase = Phase.retrying;
  cohort = snapshot_wake_file_identities current;
  presentation_confirmed = false;
  attempt_budget = if eqb s.attempt_budget 0 then initial_attempt_budget else s.attempt_budget;
}

unfoldable pub confirm_presentation : Doorbell → Doorbell
confirm_presentation s = record s { presentation_confirmed = true }

unfoldable pub record_attempt_with_base : ℕ → ℕ → ℕ → Doorbell → Doorbell
record_attempt_with_base now base maximum s = record s {
  attempts = next_count s.attempts;
  addition_attempt_floor = some (now + base);
  next_attempt = some (now + capped_exponential_backoff (next_count s.attempts) base maximum);
}

unfoldable pub park_current_cohort : Doorbell → Doorbell
park_current_cohort s = record s { phase = Phase.parked; next_attempt = none }

unfoldable pub count_reminder : Doorbell → Doorbell
unfolding park_current_cohort
count_reminder s =
    let t : Doorbell = record s { reminder_attempts = next_count s.reminder_attempts } in
    if leb t.attempt_budget t.reminder_attempts then park_current_cohort t else t

unfoldable pub ensure_budget : Doorbell → Doorbell
ensure_budget s = record s {
  attempt_budget = if eqb s.attempt_budget 0 then initial_attempt_budget else s.attempt_budget;
}

unfoldable pub record_attempt : ℕ → Doorbell → Doorbell
unfolding count_reminder record_attempt_with_base ensure_budget
record_attempt now s =
    count_reminder (record_attempt_with_base now retry_base retry_max (ensure_budget s))

unfoldable pub record_deferred_input_attempt : ℕ → Doorbell → Doorbell
unfolding record_attempt_with_base
record_deferred_input_attempt now s = record_attempt_with_base now retry_base retry_max s

unfoldable pub record_injected : Pending → Doorbell
unfolding reset
record_injected current = record reset {
  phase = Phase.announced;
  cohort = snapshot_wake_file_identities current;
}

unfoldable pub record_attention_attempt : ℕ → Doorbell → Doorbell
unfolding record_attempt_with_base
record_attention_attempt now s =
    let t : Doorbell = record_attempt_with_base now attention_retry_base attention_retry_max s in
    record t { addition_attempt_floor = none }

unfoldable pub transient_attention_due : ℕ → Doorbell → Bool
transient_attention_due now s =
    is_zero s.next_transient_attention || not (before now s.next_transient_attention)

unfoldable pub record_transient_attention_attempt : ℕ → Doorbell → Doorbell
record_transient_attention_attempt now s = record s {
  transient_attention_attempts = next_count s.transient_attention_attempts;
  next_transient_attention = some (
      now
      + capped_exponential_backoff (next_count s.transient_attention_attempts) attention_retry_base
          attention_retry_max);
}
