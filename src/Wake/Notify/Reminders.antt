-- ===== src/Wake/Notify/Reminders.antt =====
-- How often a doorbell rings for messages that nobody takes.
use agent_message_queue.Base.{
  ℕ, ◌+◌, ◌≤◌, ◌≡◌, inl, inr, Bool, true, false, not, ◌&&◌, ◌||◌, arith, if◌then◌else◌, is_empty,
  Bool-cases, List, [], ◌∷◌,
}
use native.Mathlib.Nat.{add-zero}
use agent_message_queue.Wake.Cohort.{Pending}
use agent_message_queue.Wake.Doorbell.{
  Doorbell, Plan, is_parked, lifetime_attempt_cap, arm, confirm_presentation,
  record_attempt_with_base, park_current_cohort, count_reminder, ensure_budget, record_attempt,
  record_deferred_input_attempt, record_attention_attempt, record_transient_attention_attempt,
}
use agent_message_queue.Wake.Doorbell.Planning.{has_progressed, plan}
use agent_message_queue.Wake.Doorbell.Attempt.{
  Attempt, should_record_wake_attempt, record_wake_attempt, settle_attempt, settles_announced,
  is_attention_error,
}
use agent_message_queue.Wake.Doorbell.Invariant.{
  WithinBudget, arm-WithinBudget, plan-WithinBudget, reminders-plan, reminders_capped,
}
use agent_message_queue.Wake.Notify.{
  Waker, Interlude, Delivery, Event, is_retired, is_demotion_blocked, after_interlude, confirm_if,
  confirms, record_outcome, ring, notify_planned, notify_fresh, deliver_new_message_notification,
  step,
}
use agent_message_queue.Wake.Notify.Budget.{
  start, run, run-WithinBudget, start-WithinBudget, step-WithinBudget, interlude-WithinBudget,
}

-- A look at the inbox, and what its notification met.
pub record Visit : Type 0 where
  pub now : ℕ
  pub delivery : Delivery
  pub current : Pending

abbrev pub visit : Visit → Waker → Waker
visit v w = step (Event.notify v.now v.delivery v.current) w

-- Messages wait, none was taken since the last look, and the delivery neither announced them for good
-- nor retired or lost the terminal's input.
abbrev pub KeepsObligation : Visit → Waker → Type 0
KeepsObligation v w =
    (w.input_recovery_required ≡ false)
    × (is_empty v.current ≡ false)
    × (has_progressed v.current w.doorbell ≡ false)
    × (is_retired v.delivery.interlude ≡ false)
    × (is_demotion_blocked v.delivery.attempt.result ≡ false)
    × (settles_announced v.delivery.attempt ≡ false)

-- The attempt put a reminder into the agent's terminal, or cannot rule out that it did.
unfoldable pub is_reminder : Attempt → Bool
is_reminder a =
    should_record_wake_attempt a.result
    && (not a.last_attempt_transient_attention
        && not (a.last_attempt_attention || is_attention_error a.result))

unfoldable pub rings : Delivery → Plan → Bool
unfolding is_reminder
rings d p = p.attempt && (not (p.progress && d.drain_unsettled) && is_reminder d.attempt)

unfoldable pub reminds : Visit → Waker → Bool
unfolding rings
reminds v w = not v.delivery.mode_blocked && rings v.delivery (plan v.now v.current w.doorbell).1

abbrev pub AllKeep : List Visit → Waker → Type 0
AllKeep [] w = Unit {0}
AllKeep (v ∷ rest) w = KeepsObligation v w × AllKeep rest (visit v w)

unfoldable pub reminders : List Visit → Waker → ℕ
unfolding reminds
reminders [] w = 0
reminders (v ∷ rest) w = (if reminds v w then 1 else 0) + reminders rest (visit v w)

settle-reminders :
    (a : Attempt) (now : ℕ) (s : Doorbell)
    → WithinBudget s
    → is_parked s.phase ≡ false
    → should_record_wake_attempt a.result ≡ true
    → (settle_attempt a now s).reminder_attempts
      ≡ s.reminder_attempts + (if is_reminder a then 1 else 0)
unfolding WithinBudget settle_attempt record_deferred_input_attempt record_attention_attempt
    record_attempt_with_base record_attempt count_reminder ensure_budget park_current_cohort
    is_reminder
settle-reminders a now s h p r = ground arith

attempt-reminders :
    (a : Attempt) (now : ℕ) (current : Pending) (s : Doorbell)
    → WithinBudget s
    → is_parked s.phase ≡ false
    → should_record_wake_attempt a.result ≡ true
    → settles_announced a ≡ false
    → (record_wake_attempt a now current s).reminder_attempts
      ≡ s.reminder_attempts + (if is_reminder a then 1 else 0)
unfolding record_wake_attempt arm
attempt-reminders a now current s h p r n = ground (
  arith,
  settle-reminders a now s h p r,
  settle-reminders a now (arm current s),
  arm-WithinBudget current s p h,
)

confirm-WithinBudget :
    (b : Bool) (s : Doorbell)
    → WithinBudget s
    → is_parked s.phase ≡ false
    → WithinBudget (confirm_if b s)
      × (is_parked (confirm_if b s).phase ≡ false)
      × ((confirm_if b s).reminder_attempts ≡ s.reminder_attempts)
unfolding WithinBudget confirm_if confirm_presentation
confirm-WithinBudget b s h p = ground arith

outcome-reminders :
    (d : Delivery) (current : Pending) (p : Plan) (s : Doorbell)
    → WithinBudget s
    → is_parked s.phase ≡ false
    → settles_announced d.attempt ≡ false
    → (record_outcome d current p s).reminder_attempts
      ≡ s.reminder_attempts + (if is_reminder d.attempt then 1 else 0)
unfolding record_outcome is_reminder
outcome-reminders d current p s h q n = ground (
  arith,
  confirm-WithinBudget (confirms d p) s h q,
  attempt-reminders d.attempt d.recorded_at current (confirm_if (confirms d p) s),
)

interlude-reminders :
    (i : Interlude) (s : Doorbell)
    → is_retired i ≡ false
    → (after_interlude i s).reminder_attempts ≡ s.reminder_attempts
unfolding after_interlude record_transient_attention_attempt
interlude-reminders i s r = ground arith

ring-reminders :
    (d : Delivery) (current : Pending) (p : Plan) (s : Doorbell)
    → WithinBudget s
    → is_parked s.phase ≡ false
    → is_retired d.interlude ≡ false
    → is_demotion_blocked d.attempt.result ≡ false
    → settles_announced d.attempt ≡ false
    → (ring d current p s).doorbell.reminder_attempts
      ≡ s.reminder_attempts + (if is_reminder d.attempt then 1 else 0)
unfolding ring
ring-reminders d current p s h q r b n = ground (
  arith,
  interlude-reminders d.interlude s r,
  interlude-WithinBudget d.interlude s q h,
  outcome-reminders d current p (after_interlude d.interlude s),
)

planned-reminders :
    (d : Delivery) (current : Pending) (planned : Doorbell × Plan)
    → WithinBudget planned.0
    → (planned.1.attempt ≡ true → is_parked planned.0.phase ≡ false)
    → is_retired d.interlude ≡ false
    → is_demotion_blocked d.attempt.result ≡ false
    → settles_announced d.attempt ≡ false
    → (notify_planned d current planned).doorbell.reminder_attempts
      ≡ planned.0.reminder_attempts + (if rings d planned.1 then 1 else 0)
unfolding notify_planned rings
planned-reminders d current planned h q r b n =
    ground (arith, ring-reminders d current planned.1 planned.0 h)

-- A visit that keeps the obligation adds its reminder, and forgets none.
visit-reminders :
    (v : Visit) (w : Waker)
    → KeepsObligation v w
    → WithinBudget w.doorbell
    → (visit v w).doorbell.reminder_attempts
      ≡ w.doorbell.reminder_attempts + (if reminds v w then 1 else 0)
unfolding step deliver_new_message_notification notify_fresh reminds
visit-reminders v w k h =
    let kept = plan-WithinBudget v.now v.current w.doorbell h in
    let same = reminders-plan v.now v.current w.doorbell k.1 k.2 h in
    let counted =
      planned-reminders v.delivery v.current (plan v.now v.current w.doorbell) kept.0 kept.1 k.3 k.4
        k.5 in
    elim (Bool-cases v.delivery.mode_blocked) [
      | inl e ↦ simp (k.0, e, add-zero)
      | inr e ↦ simp (k.0, e, counted, same)
    ]

reminders_left :
    (visits : List Visit) (w : Waker)
    → WithinBudget w.doorbell
    → AllKeep visits w
    → w.doorbell.reminder_attempts + reminders visits w ≤ lifetime_attempt_cap
unfolding reminders
reminders_left [] w h k = omega (arith, reminders_capped w.doorbell h)
reminders_left (v ∷ rest) w h k = omega (
  arith,
  visit-reminders v w k.0 h,
  reminders_left rest (visit v w) (step-WithinBudget (Event.notify v.now v.delivery v.current) w h)
      k.1,
)

-- Whatever happened to a waker before, its doorbell puts at most eight reminders into the agent's
-- terminal while messages wait that nobody takes, however often the inbox is looked at, whatever else
-- arrives and however the deliveries end, short of announcing them for good or losing the terminal's
-- input.
pub reminders_bounded :
    (events : List Event) (visits : List Visit)
    → AllKeep visits (run events start)
    → reminders visits (run events start) ≤ lifetime_attempt_cap
reminders_bounded events visits k = omega (
  arith,
  reminders_left visits (run events start) (run-WithinBudget events start start-WithinBudget) k,
)
