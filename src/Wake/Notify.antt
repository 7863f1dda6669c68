-- ===== src/Wake/Notify.antt =====
-- One notification, from the plan to the record of its outcome (deliverNewMessageNotification and the
-- recovery calls around it in internal/cli/wake.go, enterRetainedInputRecovery in
-- internal/cli/wake_unix.go). What the terminal and the attention output answered is a parameter, as is
-- every clock reading; the notifier's status file is left out.
pub mod Budget
pub mod Reminders
use agent_message_queue.Base.{ℕ, Bool, true, false, not, ◌&&◌, ◌||◌, is_empty, if◌then◌else◌}
use agent_message_queue.Wake.Cohort.{Pending, wake_cohort_progressed}
use agent_message_queue.Wake.Doorbell.{
  Doorbell, Plan, is_recovery, reset, confirm_presentation, transient_attention_due,
  record_transient_attention_attempt,
}
use agent_message_queue.Wake.Doorbell.Planning.{plan}
use agent_message_queue.Wake.Doorbell.Recovery.{
  plan_recovery_attention, record_recovery_required, retain_recovery_required,
  record_recovery_attention_delivered, note_recovery_inbox_empty, make_due,
}
use agent_message_queue.Wake.Doorbell.Attempt.{
  DeliveryResult, Attempt, should_record_wake_attempt, record_wake_attempt,
}

pub record Waker : Type 0 where
  pub input_recovery_required : Bool
  pub doorbell : Doorbell

-- What a delivery does to the doorbell before its outcome is recorded: nothing, a notice by which it
-- deferred to the user's input where one was due, or the retirement of synthetic input.
pub data Interlude : Type 0 where
  untouched : Interlude
  deferred_at : ℕ → Interlude
  input_retired : Interlude

-- What the parts that are not modelled answer during one notification.
pub record Delivery : Type 0 where
  pub mode_blocked : Bool
  pub drain_unsettled : Bool
  pub synthetic : Bool
  pub retained_input_pending : Bool
  pub input_confirmed : Bool
  pub interlude : Interlude
  pub attempt : Attempt
  pub recorded_at : ℕ
  pub recovery_at : ℕ
  pub emitted : Bool

abbrev pub is_retired : Interlude → Bool
is_retired Interlude.input_retired = true
is_retired _ = false

abbrev pub is_demotion_blocked : DeliveryResult → Bool
is_demotion_blocked DeliveryResult.demotion_blocked = true
is_demotion_blocked _ = false

unfoldable pub after_interlude : Interlude → Doorbell → Doorbell
unfolding record_transient_attention_attempt transient_attention_due reset
after_interlude Interlude.untouched s = s
after_interlude (Interlude.deferred_at now) s =
    if transient_attention_due now s then record_transient_attention_attempt now s else s
after_interlude Interlude.input_retired s = reset

-- The attention was emitted: it is no longer owed, and an empty inbox ends the recovery.
unfoldable pub attention_delivered : Pending → Doorbell → Doorbell
unfolding record_recovery_attention_delivered note_recovery_inbox_empty
attention_delivered current s =
    let t : Doorbell = record_recovery_attention_delivered s in
    if is_empty current then note_recovery_inbox_empty t else t

unfoldable pub attention_outcome : ℕ → Pending → Bool → Doorbell → Doorbell
unfolding record_recovery_required attention_delivered
attention_outcome now current emitted s =
    let t : Doorbell = record_recovery_required now current s in
    if emitted then attention_delivered current t else t

unfoldable pub deliver_wake_input_recovery_attention : ℕ → Pending → Bool → Doorbell → Doorbell
unfolding plan_recovery_attention attention_outcome
deliver_wake_input_recovery_attention now current emitted s =
    let planned : Doorbell × Bool = plan_recovery_attention now current s in
    if planned.1 then attention_outcome now current emitted planned.0 else planned.0

-- A change of the inbox that shows that a consumer has moved on since the recovery began.
unfoldable pub shows_progress : Pending → Doorbell → Bool
shows_progress current s =
    is_empty current || (is_recovery s.phase && wake_cohort_progressed s.cohort current)

unfoldable pub confirm_if : Bool → Doorbell → Doorbell
unfolding confirm_presentation
confirm_if b s = if b then confirm_presentation s else s

unfoldable pub confirms : Delivery → Plan → Bool
confirms d p =
    d.synthetic
    && (not (is_retired d.interlude)
        && (not p.submit_only
            && ((not p.content_change || not d.retained_input_pending) && d.input_confirmed)))

unfoldable pub record_outcome : Delivery → Pending → Plan → Doorbell → Doorbell
unfolding confirm_if confirms record_wake_attempt should_record_wake_attempt
record_outcome d current p s =
    if should_record_wake_attempt d.attempt.result
    then record_wake_attempt d.attempt d.recorded_at current (confirm_if (confirms d p) s)
    else s

unfoldable pub ring : Delivery → Pending → Plan → Doorbell → Waker
unfolding after_interlude record_outcome deliver_wake_input_recovery_attention
ring d current p s =
    let t : Doorbell = after_interlude d.interlude s in
    if is_demotion_blocked d.attempt.result
    then record {
      input_recovery_required = true;
      doorbell = deliver_wake_input_recovery_attention d.recovery_at current d.emitted t;
    }
    else record { input_recovery_required = false; doorbell = record_outcome d current p t }

unfoldable pub notify_planned : Delivery → Pending → Doorbell × Plan → Waker
unfolding ring
notify_planned d current planned =
    if planned.1.attempt && not (planned.1.progress && d.drain_unsettled)
    then ring d current planned.1 planned.0
    else record { input_recovery_required = false; doorbell = planned.0 }

unfoldable pub notify_fresh : ℕ → Delivery → Pending → Doorbell → Waker
unfolding notify_planned plan
notify_fresh now d current s =
    if d.mode_blocked
    then record { input_recovery_required = false; doorbell = s }
    else notify_planned d current (plan now current s)

unfoldable pub notify_recovering : ℕ → Delivery → Pending → Doorbell → Waker
unfolding notify_fresh shows_progress reset deliver_wake_input_recovery_attention
notify_recovering now d current s =
    if shows_progress current s
    then (if is_empty current
        then record { input_recovery_required = false; doorbell = reset }
        else notify_fresh now d current reset)
    else record {
      input_recovery_required = true;
      doorbell = deliver_wake_input_recovery_attention d.recovery_at current d.emitted s;
    }

unfoldable pub deliver_new_message_notification : ℕ → Delivery → Pending → Waker → Waker
unfolding notify_fresh notify_recovering
deliver_new_message_notification now d current w =
    if w.input_recovery_required
    then notify_recovering now d current w.doorbell
    else notify_fresh now d current w.doorbell

unfoldable pub delivered_if : Bool → Doorbell → Doorbell
unfolding record_recovery_attention_delivered
delivered_if emitted s = if emitted then record_recovery_attention_delivered s else s

unfoldable pub enter_retained_input_recovery : ℕ → Bool → Waker → Waker
unfolding retain_recovery_required delivered_if
enter_retained_input_recovery now emitted w = record {
  input_recovery_required = true;
  doorbell = delivered_if emitted (retain_recovery_required now w.doorbell);
}

-- What happens to a waker, in the order of its main loop.
pub data Event : Type 0 where
  notify : ℕ → Delivery → Pending → Event
  input_lost : ℕ → Bool → Event
  input_regained : ℕ → Event

unfoldable pub step : Event → Waker → Waker
unfolding deliver_new_message_notification enter_retained_input_recovery make_due
step (Event.notify now d current) w = deliver_new_message_notification now d current w
step (Event.input_lost now emitted) w = enter_retained_input_recovery now emitted w
step (Event.input_regained now) w = record w { doorbell = make_due now w.doorbell }
