-- ===== src/Wake/Doorbell/Invariant.antt =====
-- The budget of a doorbell: which states the operations keep to.
use agent_message_queue.Base.{ℕ, ◌≤◌, ◌<◌, ◌≡◌, ◌⊎◌, true, false, arith, is_empty}
use agent_message_queue.Wake.Cohort.{Pending}
use agent_message_queue.Wake.Doorbell.{
  Doorbell, Phase, is_parked, lifetime_attempt_cap, reset, arm, record_attempt_with_base,
  park_current_cohort, count_reminder, ensure_budget, record_attempt, record_injected,
  record_attention_attempt, record_transient_attention_attempt,
}
use agent_message_queue.Wake.Doorbell.Planning.{
  pull_forward_for_addition, reopen, extend, has_progressed, absorb, arm_idle, plan_announced,
  plan_pending, plan, ring_plan, is_waiting,
}
use agent_message_queue.Wake.Doorbell.Recovery.{
  plan_recovery_attention, record_recovery_required, retain_recovery_required, make_due,
  enter_recovery, note_recovery_inbox_empty,
}

-- The reminders are within the budget, the budget within the cap of a lifetime, and the doorbell is
-- parked only where the budget is used up. A budget of zero is one that was never set.
abbrev pub HasBudget : Phase → ℕ → ℕ → Type 0
HasBudget p reminders budget =
    (budget ≤ lifetime_attempt_cap)
    × (reminders ≤ budget)
    × (is_parked p ≡ true → reminders ≡ budget)
    × (is_parked p ≡ false → (reminders < budget) ⊎ (budget ≡ 0))

-- Shut, so that the proofs over it carry it as a whole.
unfoldable pub WithinBudget : Doorbell → Type 0
WithinBudget s = HasBudget s.phase s.reminder_attempts s.attempt_budget

pub reset-WithinBudget : WithinBudget reset
unfolding WithinBudget reset
reset-WithinBudget = ground arith

pub arm-WithinBudget :
    (current : Pending) (s : Doorbell)
    → is_parked s.phase ≡ false
    → WithinBudget s
    → WithinBudget (arm current s)
unfolding WithinBudget arm
arm-WithinBudget current s p h = ground arith

pub record_injected-WithinBudget : (current : Pending) → WithinBudget (record_injected current)
unfolding WithinBudget record_injected reset
record_injected-WithinBudget current = ground arith

pub record_attempt-WithinBudget :
    (now : ℕ) (s : Doorbell)
    → is_parked s.phase ≡ false
    → WithinBudget s
    → WithinBudget (record_attempt now s)
unfolding WithinBudget record_attempt count_reminder record_attempt_with_base ensure_budget
    park_current_cohort
record_attempt-WithinBudget now s p h = ground arith

extend-WithinBudget :
    (now : ℕ) (current : Pending) (s : Doorbell)
    → WithinBudget s
    → WithinBudget (extend now current s)
unfolding WithinBudget extend reopen arm pull_forward_for_addition
extend-WithinBudget now current s h = ground arith

absorb-WithinBudget :
    (now : ℕ) (current : Pending) (s : Doorbell)
    → WithinBudget s
    → WithinBudget (absorb now current s)
unfolding absorb
absorb-WithinBudget now current s h =
    ground (arith, extend-WithinBudget now current s h, reset-WithinBudget)

arm_idle-WithinBudget :
    (current : Pending) (s : Doorbell) → WithinBudget s → WithinBudget (arm_idle current s)
unfolding WithinBudget arm_idle arm
arm_idle-WithinBudget current s h = ground arith

plan_announced-WithinBudget :
    (current : Pending) (s : Doorbell)
    → is_parked s.phase ≡ false
    → WithinBudget s
    → WithinBudget (plan_announced current s).0
unfolding WithinBudget plan_announced arm record_injected reset
plan_announced-WithinBudget current s p h = ground arith

-- The plan keeps to the budget, and rings only a doorbell that is not parked.
pub plan-WithinBudget :
    (now : ℕ) (current : Pending) (s : Doorbell)
    → WithinBudget s
    → WithinBudget (plan now current s).0
      × ((plan now current s).1.attempt ≡ true → is_parked (plan now current s).0.phase ≡ false)
unfolding plan plan_announced plan_pending ring_plan is_waiting arm
plan-WithinBudget now current s h = ground (
  arith,
  reset-WithinBudget,
  plan_announced-WithinBudget current s,
  arm_idle-WithinBudget current (absorb now current s) (absorb-WithinBudget now current s h),
)

-- A plan over an inbox where nothing was taken counts no reminder and forgets none.
pub reminders-plan :
    (now : ℕ) (current : Pending) (s : Doorbell)
    → is_empty current ≡ false
    → has_progressed current s ≡ false
    → WithinBudget s
    → (plan now current s).0.reminder_attempts ≡ s.reminder_attempts
unfolding WithinBudget plan plan_announced plan_pending absorb arm_idle extend reopen arm
    pull_forward_for_addition has_progressed
reminders-plan now current s e p h = ground arith

pub transient-WithinBudget :
    (now : ℕ) (s : Doorbell)
    → WithinBudget s
    → WithinBudget (record_transient_attention_attempt now s)
unfolding WithinBudget record_transient_attention_attempt
transient-WithinBudget now s h = ground arith

-- Entering a recovery starts from a doorbell at rest, where it is not one already.
pub recovery-WithinBudget :
    (now : ℕ) (current : Pending) (s : Doorbell)
    → WithinBudget s
    → WithinBudget (record_recovery_required now current s)
      × WithinBudget (retain_recovery_required now s)
unfolding WithinBudget record_recovery_required retain_recovery_required record_attention_attempt
    enter_recovery record_attempt_with_base reset
recovery-WithinBudget now current s h = ground arith

pub plan_recovery-WithinBudget :
    (now : ℕ) (current : Pending) (s : Doorbell)
    → WithinBudget s
    → WithinBudget (plan_recovery_attention now current s).0
unfolding WithinBudget plan_recovery_attention note_recovery_inbox_empty reset
plan_recovery-WithinBudget now current s h = ground arith

pub make_due-WithinBudget :
    (now : ℕ) (s : Doorbell) → WithinBudget s → WithinBudget (make_due now s)
unfolding WithinBudget make_due
make_due-WithinBudget now s h = ground arith

pub reminders_capped : (s : Doorbell) → WithinBudget s → s.reminder_attempts ≤ lifetime_attempt_cap
unfolding WithinBudget
reminders_capped s h = ground arith
