-- ===== src/Wake/Doorbell/Recovery.antt =====
-- The doorbell while the terminal input of an agent needs recovery, and the readings that the main loop
-- takes of it (internal/cli/wake_doorbell.go).
use agent_message_queue.Base.{
  ℕ, Option, none, some, Bool, true, false, not, ◌&&◌, ◌||◌, is_empty, if◌then◌else◌,
}
use agent_message_queue.Wake.Cohort.{Pending, snapshot_wake_file_identities}
use agent_message_queue.Wake.Doorbell.{
  Doorbell, Phase, is_recovery, is_parked, is_retrying, is_zero, before, reset,
  record_attention_attempt,
}

unfoldable pub is_due : ℕ → Doorbell → Bool
is_due now s = is_zero s.next_attempt || not (before now s.next_attempt)

unfoldable pub note_recovery_inbox_empty : Doorbell → Doorbell
unfolding reset
note_recovery_inbox_empty s = reset

unfoldable pub plan_recovery_attention : ℕ → Pending → Doorbell → Doorbell × Bool
unfolding is_due note_recovery_inbox_empty
plan_recovery_attention now current s =
    if is_empty current
    then (if is_recovery s.phase && s.recovery_attention_undelivered
        then (s, is_due now s)
        else (note_recovery_inbox_empty s, false))
    else if is_recovery s.phase
    then (record s { recovery_pending = true }, is_due now s)
    else (s, true)

unfoldable pub enter_recovery : Doorbell → Doorbell
unfolding reset
enter_recovery s = record s {
  phase = Phase.recovery_required;
  recovery_pending = true;
  recovery_attention_undelivered = true;
}

unfoldable pub record_recovery_required : ℕ → Pending → Doorbell → Doorbell
unfolding record_attention_attempt enter_recovery reset
record_recovery_required now current s = record_attention_attempt now (
    enter_recovery (record (if is_recovery s.phase then s else reset) {
      cohort = snapshot_wake_file_identities current;
    }))

unfoldable pub retain_recovery_required : ℕ → Doorbell → Doorbell
unfolding record_attention_attempt enter_recovery reset
retain_recovery_required now s =
    record_attention_attempt now (enter_recovery (record reset { cohort = s.cohort }))

unfoldable pub record_recovery_attention_delivered : Doorbell → Doorbell
record_recovery_attention_delivered s = record s { recovery_attention_undelivered = false }

unfoldable pub make_due : ℕ → Doorbell → Doorbell
make_due now s =
    if not (is_retrying s.phase) || is_empty s.cohort
    then s
    else record s { next_attempt = some now }

unfoldable pub pending_input : Doorbell → Bool
pending_input s = is_retrying s.phase

unfoldable pub parked_reminder_attempts : Doorbell → ℕ × Bool
parked_reminder_attempts s = (s.reminder_attempts, is_parked s.phase)

-- The deadline, where there is one to wait for.
unfoldable pub next_deadline : Doorbell → Option ℕ
next_deadline s =
    if is_retrying s.phase
    then s.next_attempt
    else if is_recovery s.phase && s.recovery_pending
    then s.next_attempt
    else none
