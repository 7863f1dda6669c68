-- ===== src/Wake/Tests.antt =====
-- Runs of the doorbell, and each property at an input that meets its hypotheses.
use Prim.Native.Nat.{◌*◌, ◌-◌, ◌^◌, min}
use native.Mathlib.Decide.{ℕ_discrete}
use agent_message_queue.Wake.Backoff.{capped_exponential_backoff, backoff-eq-min}
use agent_message_queue.Base.{ℕ, ◌≤◌, ◌≡◌, true, false, arith, [], ◌∷◌, some, string_eq, List, refl}
use agent_message_queue.Wake.Cohort.{
  FileInfo, Pending, wake_cohort_expanded, wake_cohort_progressed, snapshot_wake_file_identities,
  identity_eq,
}
use agent_message_queue.Wake.Doorbell.{Doorbell, Phase, second, reset, arm, lifetime_attempt_cap}
use agent_message_queue.Wake.Doorbell.Planning.{plan}
use agent_message_queue.Wake.Doorbell.Attempt.{DeliveryResult}
use agent_message_queue.Wake.Doorbell.Schedule.{plan-attempts, plan-covers}
use agent_message_queue.Wake.Notify.{Interlude, Delivery, step}
use agent_message_queue.Wake.Notify.Budget.{start, run}
use agent_message_queue.Wake.Notify.Reminders.{Visit, AllKeep, reminders, reminders_bounded}

abbrev typed : Delivery
typed = record {
  mode_blocked = false;
  drain_unsettled = false;
  synthetic = true;
  retained_input_pending = false;
  input_confirmed = true;
  interlude = Interlude.untouched;
  attempt = record {
    retry_until_injected = false;
    last_attempt_attention = false;
    last_attempt_transient_attention = false;
    result = DeliveryResult.delivered;
  };
  recorded_at = 0;
  recovery_at = 0;
  emitted = true;
}

abbrev one_message : Pending
one_message =
    ("m1.md", FileInfo.stat (record { device = 1; inode = 2; ctime_sec = 3; ctime_nsec = 4 })) ∷ []

abbrev look : ℕ → Visit
look n = record { now = n * second; delivery = typed; current = one_message }

abbrev looks : List Visit
looks = look 0 ∷ look 200 ∷ look 400 ∷ look 600 ∷ look 800 ∷ look 1000 ∷ []

-- Six looks at one unread message ring four times.
four_rings : reminders looks (run [] start) ≡ 4
unfolding reminders run start step plan string_eq identity_eq ℕ_discrete
    snapshot_wake_file_identities wake_cohort_progressed wake_cohort_expanded
    capped_exponential_backoff
four_rings = refl

abbrev two_looks : List Visit
two_looks = look 0 ∷ look 200 ∷ []

two_looks-AllKeep : AllKeep two_looks (run [] start)
unfolding run start step plan string_eq identity_eq ℕ_discrete snapshot_wake_file_identities
    wake_cohort_progressed wake_cohort_expanded capped_exponential_backoff
two_looks-AllKeep =
    ((refl, refl, refl, refl, refl, refl), ((refl, refl, refl, refl, refl, refl), tt))

reminders_bounded_example : reminders two_looks (run [] start) ≤ lifetime_attempt_cap
reminders_bounded_example = reminders_bounded [] two_looks two_looks-AllKeep

abbrev waiting : Doorbell
waiting = record (arm one_message reset) { attempts = 1; next_attempt = some (5 * second) }

plan-attempts_example : (plan (6 * second) one_message waiting).1.attempt ≡ true
plan-attempts_example =
    plan-attempts (6 * second) (5 * second) one_message waiting refl (unfold arm in refl) refl
      (omega arith)

plan-covers_example : wake_cohort_expanded (plan 0 one_message reset).0.cohort one_message ≡ false
plan-covers_example = plan-covers 0 one_message reset refl

abbrev spent : Doorbell
spent = record (arm one_message reset) { phase = Phase.parked; reminder_attempts = 4; attempts = 4 }

backoff-eq-min_example : capped_exponential_backoff 4 5 120 ≡ min 120 (5 * 2 ^ (4 - 1))
backoff-eq-min_example = backoff-eq-min 4 5 120
