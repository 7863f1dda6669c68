-- ===== src/Wake/Notify/Budget.antt =====
-- Every event of a waker keeps its doorbell within the budget.
use agent_message_queue.Base.{ℕ, ◌≡◌, Bool, false, arith, List, [], ◌∷◌}
use agent_message_queue.Wake.Cohort.{Pending}
use agent_message_queue.Wake.Doorbell.{
  Doorbell, Plan, is_parked, reset, arm, confirm_presentation, record_attempt_with_base,
  record_deferred_input_attempt, record_attention_attempt, record_transient_attention_attempt,
}
use agent_message_queue.Wake.Doorbell.Planning.{plan}
use agent_message_queue.Wake.Doorbell.Recovery.{
  plan_recovery_attention, retain_recovery_required, record_recovery_attention_delivered,
  note_recovery_inbox_empty,
}
use agent_message_queue.Wake.Doorbell.Attempt.{Attempt, record_wake_attempt, settle_attempt}
use agent_message_queue.Wake.Doorbell.Invariant.{
  WithinBudget, reset-WithinBudget, arm-WithinBudget, record_injected-WithinBudget,
  record_attempt-WithinBudget, plan-WithinBudget, recovery-WithinBudget, plan_recovery-WithinBudget,
  make_due-WithinBudget,
}
use agent_message_queue.Wake.Notify.{
  Waker, Interlude, Delivery, Event, after_interlude, attention_delivered, attention_outcome,
  deliver_wake_input_recovery_attention, confirm_if, confirms, record_outcome, ring, notify_planned,
  notify_fresh, notify_recovering, deliver_new_message_notification, delivered_if,
  enter_retained_input_recovery, step,
}

settle-WithinBudget :
    (a : Attempt) (now : ℕ) (s : Doorbell)
    → is_parked s.phase ≡ false
    → WithinBudget s
    → WithinBudget (settle_attempt a now s)
unfolding WithinBudget settle_attempt record_deferred_input_attempt record_attention_attempt
    record_attempt_with_base
settle-WithinBudget a now s p h = ground (arith, record_attempt-WithinBudget now s p h)

record_wake_attempt-WithinBudget :
    (a : Attempt) (now : ℕ) (current : Pending) (s : Doorbell)
    → is_parked s.phase ≡ false
    → WithinBudget s
    → WithinBudget (record_wake_attempt a now current s)
unfolding record_wake_attempt arm
record_wake_attempt-WithinBudget a now current s p h = ground (
  arith,
  record_injected-WithinBudget current,
  settle-WithinBudget a now s p h,
  settle-WithinBudget a now (arm current s),
  arm-WithinBudget current s p h,
)

pub record_outcome-WithinBudget :
    (d : Delivery) (current : Pending) (p : Plan) (s : Doorbell)
    → is_parked s.phase ≡ false
    → WithinBudget s
    → WithinBudget (record_outcome d current p s)
unfolding WithinBudget record_outcome confirm_if confirm_presentation
record_outcome-WithinBudget d current p s q h = ground (
  arith,
  record_wake_attempt-WithinBudget d.attempt d.recorded_at current (confirm_if (confirms d p) s),
)

attention-WithinBudget :
    (now : ℕ) (current : Pending) (emitted : Bool) (s : Doorbell)
    → WithinBudget s
    → WithinBudget (deliver_wake_input_recovery_attention now current emitted s)
unfolding WithinBudget deliver_wake_input_recovery_attention attention_outcome attention_delivered
    record_recovery_attention_delivered note_recovery_inbox_empty reset
attention-WithinBudget now current emitted s h = ground (
  arith,
  plan_recovery-WithinBudget now current s h,
  recovery-WithinBudget now current (plan_recovery_attention now current s).0,
)

pub interlude-WithinBudget :
    (i : Interlude) (s : Doorbell)
    → is_parked s.phase ≡ false
    → WithinBudget s
    → WithinBudget (after_interlude i s) × (is_parked (after_interlude i s).phase ≡ false)
unfolding WithinBudget after_interlude record_transient_attention_attempt reset
interlude-WithinBudget i s p h = ground arith

ring-WithinBudget :
    (d : Delivery) (current : Pending) (p : Plan) (s : Doorbell)
    → is_parked s.phase ≡ false
    → WithinBudget s
    → WithinBudget (ring d current p s).doorbell
unfolding ring
ring-WithinBudget d current p s q h = ground (
  arith,
  interlude-WithinBudget d.interlude s q h,
  attention-WithinBudget d.recovery_at current d.emitted (after_interlude d.interlude s),
  record_outcome-WithinBudget d current p (after_interlude d.interlude s),
)

notify_fresh-WithinBudget :
    (now : ℕ) (d : Delivery) (current : Pending) (s : Doorbell)
    → WithinBudget s
    → WithinBudget (notify_fresh now d current s).doorbell
unfolding notify_fresh notify_planned
notify_fresh-WithinBudget now d current s h = ground (
  arith,
  plan-WithinBudget now current s h,
  ring-WithinBudget d current (plan now current s).1 (plan now current s).0,
)

delivered_if-WithinBudget :
    (emitted : Bool) (s : Doorbell) → WithinBudget s → WithinBudget (delivered_if emitted s)
unfolding WithinBudget delivered_if record_recovery_attention_delivered
delivered_if-WithinBudget emitted s h = ground arith

-- Whatever happens to a waker, a doorbell that keeps to its budget goes on keeping to it: at most eight
-- in all, the reminders within it, and parked only where it is used up.
pub step-WithinBudget :
    (e : Event) (w : Waker) → WithinBudget w.doorbell → WithinBudget (step e w).doorbell
unfolding step deliver_new_message_notification notify_recovering enter_retained_input_recovery
step-WithinBudget (Event.notify now d current) w h = ground (
  arith,
  notify_fresh-WithinBudget now d current w.doorbell h,
  notify_fresh-WithinBudget now d current reset,
  reset-WithinBudget,
  attention-WithinBudget d.recovery_at current d.emitted w.doorbell h,
)
step-WithinBudget (Event.input_lost now emitted) w h =
    delivered_if-WithinBudget emitted (retain_recovery_required now w.doorbell)
      (recovery-WithinBudget now [] w.doorbell h).1
step-WithinBudget (Event.input_regained now) w h =
    ground (arith, make_due-WithinBudget now w.doorbell h)

unfoldable pub start : Waker
unfolding reset
start = record { input_recovery_required = false; doorbell = reset }

unfoldable pub run : List Event → Waker → Waker
run [] w = w
run (e ∷ rest) w = run rest (step e w)

pub run-WithinBudget :
    (events : List Event) (w : Waker)
    → WithinBudget w.doorbell
    → WithinBudget (run events w).doorbell
unfolding run
run-WithinBudget [] w h = h
run-WithinBudget (e ∷ rest) w h = run-WithinBudget rest (step e w) (step-WithinBudget e w h)

pub start-WithinBudget : WithinBudget start.doorbell
unfolding start
start-WithinBudget = reset-WithinBudget
