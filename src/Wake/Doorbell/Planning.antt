-- ===== src/Wake/Doorbell/Planning.antt =====
-- Whether to ring now, and how the pending set changes the state (plan and pullForwardForAddition in
-- internal/cli/wake_doorbell.go).
use agent_message_queue.Base.{
  ℕ, Option, none, some, Bool, true, false, not, ◌&&◌, ◌||◌, ltb, is_empty, if◌then◌else◌,
}
use agent_message_queue.Wake.Cohort.{
  Pending, snapshot_wake_file_identities, wake_cohort_progressed, wake_cohort_expanded,
  wake_cohort_replaced_in_place,
}
use agent_message_queue.Wake.Doorbell.{
  Doorbell, Plan, Phase, is_idle, is_parked, is_announced, lifetime_attempt_cap, next_count, before,
  reset, arm, record_injected,
}

-- The earlier of a deadline and the one set, where none is set the deadline.
abbrev pub pulled : ℕ → Option ℕ → Option ℕ
pulled deadline none = some deadline
pulled deadline (some t) = if ltb deadline t then some deadline else some t

abbrev pub pulled_from : ℕ → Option ℕ → Option ℕ → Option ℕ
pulled_from now none next = next
pulled_from now (some floor) next = pulled (if ltb floor now then now else floor) next

unfoldable pub pull_forward_for_addition : ℕ → Doorbell → Doorbell
pull_forward_for_addition now s = record s {
  next_attempt = pulled_from now s.addition_attempt_floor s.next_attempt;
}

unfoldable pub reopen : ℕ → Doorbell → Doorbell
unfolding pull_forward_for_addition
reopen now s =
    if ltb s.attempt_budget lifetime_attempt_cap
    then pull_forward_for_addition now
        (record s { attempt_budget = next_count s.attempt_budget; phase = Phase.retrying })
    else s

unfoldable pub extend : ℕ → Pending → Doorbell → Doorbell
unfolding reopen arm pull_forward_for_addition
extend now current s =
    if is_parked s.phase
    then reopen now (record s {
      cohort = snapshot_wake_file_identities current;
      presentation_confirmed = false;
    })
    else pull_forward_for_addition now (arm current s)

-- A message of the cohort was taken or replaced since it was last seen.
unfoldable pub has_progressed : Pending → Doorbell → Bool
has_progressed current s = not (is_idle s.phase) && wake_cohort_progressed s.cohort current

unfoldable pub has_additions : Pending → Doorbell → Bool
unfolding has_progressed
has_additions current s =
    not (has_progressed current s)
    && (not (is_idle s.phase) && wake_cohort_expanded s.cohort current)

unfoldable pub absorb : ℕ → Pending → Doorbell → Doorbell
unfolding has_progressed has_additions extend reset
absorb now current s =
    if has_progressed current s
    then reset
    else if has_additions current s
    then extend now current s
    else s

unfoldable pub arm_idle : Pending → Doorbell → Doorbell
unfolding arm
arm_idle current s = if is_idle s.phase then arm current s else s

abbrev pub no_attempt : Plan
no_attempt = record {
  attempt = false;
  submit_only = false;
  content_change = false;
  progress = false;
}

unfoldable pub is_waiting : ℕ → Doorbell → Bool
is_waiting now s = is_parked s.phase || (ltb 0 s.attempts && before now s.next_attempt)

unfoldable pub ring_plan : ℕ → Bool → Bool → Doorbell → Plan
unfolding is_waiting
ring_plan now content_change progress s = if is_waiting now s then no_attempt else record {
  attempt = true;
  submit_only = s.presentation_confirmed;
  content_change = content_change;
  progress = progress;
}

unfoldable pub plan_announced : Pending → Doorbell → Doorbell × Plan
unfolding arm record_injected
plan_announced current s =
    if wake_cohort_expanded s.cohort current || wake_cohort_replaced_in_place s.cohort current
    then (arm current s, record no_attempt { attempt = true })
    else if wake_cohort_progressed s.cohort current
    then (record_injected current, no_attempt)
    else (s, no_attempt)

unfoldable pub plan_pending : ℕ → Pending → Doorbell → Doorbell × Plan
unfolding absorb arm_idle ring_plan has_additions has_progressed
plan_pending now current s =
    let t : Doorbell = arm_idle current (absorb now current s) in
    (t, ring_plan now (has_additions current s) (has_progressed current s) t)

unfoldable pub plan : ℕ → Pending → Doorbell → Doorbell × Plan
unfolding reset plan_announced plan_pending
plan now current s =
    if is_empty current
    then (reset, no_attempt)
    else if is_announced s.phase
    then plan_announced current s
    else plan_pending now current s
