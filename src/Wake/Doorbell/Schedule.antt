-- ===== src/Wake/Doorbell/Schedule.antt =====
-- When a doorbell rings, and what it covers then.
use agent_message_queue.Base.{
  ℕ, ◌+◌, ◌≤◌, ◌≡◌, ◌⊎◌, inl, inr, true, false, arith, is_empty, [], ◌∷◌, Option, some, string_eq,
  refl, String, Bool-cases,
}
use agent_message_queue.Base.Dict.{lookup}
use agent_message_queue.Wake.Backoff.{capped_exponential_backoff, backoff_bounds}
use agent_message_queue.Wake.Cohort.{
  FileIdentity, Cohort, Pending, capture_wake_file_identity, snapshot_wake_file_identities,
  wake_cohort_progressed, wake_cohort_expanded, is_absent, identity_eq,
}
use agent_message_queue.Wake.Doorbell.{
  Doorbell, is_idle, is_parked, is_retrying, before, retry_base, retry_max, reset, arm, next_count,
  record_attempt_with_base, park_current_cohort, count_reminder, ensure_budget, record_attempt,
  record_injected,
}
use agent_message_queue.Wake.Doorbell.Planning.{
  pull_forward_for_addition, reopen, extend, has_progressed, has_additions, absorb, arm_idle,
  no_attempt, is_waiting, ring_plan, plan_announced, plan_pending, plan,
}
use agent_message_queue.Wake.Doorbell.Recovery.{next_deadline}

-- A reminder that does not park the doorbell is repeated no sooner than five seconds and no later than
-- two minutes after it.
pub next_deadline_bounds :
    (now : ℕ) (s : Doorbell)
    → is_retrying s.phase ≡ true
    → (is_parked (record_attempt now s).phase ≡ true)
      ⊎ ((t : ℕ) × (next_deadline (record_attempt now s) ≡ some t)
          × (now + retry_base ≤ t)
          × (t ≤ now + retry_max))
unfolding next_deadline record_attempt count_reminder record_attempt_with_base ensure_budget
    park_current_cohort
next_deadline_bounds now s r = elim (Bool-cases (is_parked (record_attempt now s).phase)) [
  | inl e ↦ inl e
  | inr e ↦
      let delay : ℕ = capped_exponential_backoff (next_count s.attempts) retry_base retry_max in
      let bounds = backoff_bounds (next_count s.attempts) retry_base retry_max in
      inr
        (now + delay, ground arith, omega (arith, bounds.1 (omega arith)), omega (arith, bounds.0))
]

-- Absorbing what changed leaves the doorbell at rest, or retrying and due.
absorb-ready :
    (now t : ℕ) (current : Pending) (s : Doorbell)
    → is_retrying s.phase ≡ true
    → s.next_attempt ≡ some t
    → t ≤ now
    → ((is_idle (absorb now current s).phase ≡ true) × ((absorb now current s).attempts ≡ 0))
      ⊎ ((is_retrying (absorb now current s).phase ≡ true)
          × (before now (absorb now current s).next_attempt ≡ false))
unfolding absorb extend reopen arm pull_forward_for_addition reset
absorb-ready now t current s r n h = ground arith

-- A retrying doorbell whose deadline has come rings at the next look at a non-empty inbox, whatever arrived or
-- was taken in the meantime.
pub plan-attempts :
    (now t : ℕ) (current : Pending) (s : Doorbell)
    → is_empty current ≡ false
    → is_retrying s.phase ≡ true
    → s.next_attempt ≡ some t
    → t ≤ now
    → (plan now current s).1.attempt ≡ true
unfolding plan plan_pending ring_plan is_waiting arm_idle arm
plan-attempts now t current s e r n h = ground (arith, absorb-ready now t current s r n h)

expanded-weaken :
    (name : String) (i : Option FileIdentity) (cohort : Cohort) (current : Pending)
    → wake_cohort_expanded cohort current ≡ false
    → wake_cohort_expanded ((name, i) ∷ cohort) current ≡ false
unfolding wake_cohort_expanded lookup is_absent
expanded-weaken name i cohort [] h = refl
expanded-weaken name i cohort (_ ∷ current) h =
    ground (arith, expanded-weaken name i cohort current)

snapshot-covers :
    (current : Pending)
    → wake_cohort_expanded (snapshot_wake_file_identities current) current ≡ false
unfolding wake_cohort_expanded lookup is_absent snapshot_wake_file_identities
snapshot-covers [] = refl
snapshot-covers ((name, info) ∷ current) = ground (
  arith,
  expanded-weaken name (capture_wake_file_identity info) (snapshot_wake_file_identities current)
      current (snapshot-covers current),
)

absorb-covers :
    (now : ℕ) (current : Pending) (s : Doorbell)
    → is_idle (absorb now current s).phase ≡ false
    → wake_cohort_expanded (absorb now current s).cohort current ≡ false
unfolding absorb has_additions has_progressed extend reopen arm pull_forward_for_addition reset
absorb-covers now current s i = ground (arith, snapshot-covers current)

announced-covers :
    (current : Pending) (s : Doorbell)
    → wake_cohort_expanded (plan_announced current s).0.cohort current ≡ false
unfolding plan_announced arm record_injected
announced-covers current s = ground (arith, snapshot-covers current)

-- After a plan over a non-empty inbox the cohort covers every message that waits, in every phase and
-- whether or not the doorbell rings, so that one ring stands for all of them.
pub plan-covers :
    (now : ℕ) (current : Pending) (s : Doorbell)
    → is_empty current ≡ false
    → wake_cohort_expanded (plan now current s).0.cohort current ≡ false
unfolding plan plan_pending arm_idle arm
plan-covers now current s e =
    ground (arith, snapshot-covers current, absorb-covers now current s, announced-covers current s)

-- A parked doorbell does not ring again, and does not change, until a message is taken, replaced or
-- added.
pub plan-parked :
    (now : ℕ) (current : Pending) (s : Doorbell)
    → is_empty current ≡ false
    → is_parked s.phase ≡ true
    → wake_cohort_progressed s.cohort current ≡ false
    → wake_cohort_expanded s.cohort current ≡ false
    → plan now current s ≡ (s, no_attempt)
unfolding plan plan_pending ring_plan is_waiting absorb arm_idle has_additions has_progressed
plan-parked now current s e p g x = ground arith
