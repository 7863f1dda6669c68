-- ===== src/Keepalive/Supervisor/Reconcile.antt =====
-- What one look of the supervisor may change of an entry.
use agent_message_queue.Base.{
  ℕ, ◌+◌, ◌≤◌, ◌≡◌, inl, inr, refl, arith, String, Option, none, some, Bool, true, false, string_eq,
  if◌then◌else◌, Option-cases, ◌≢◌, [], ◌<◌,
}
use agent_message_queue.Keepalive.Registry.{Entry, ok, same_entry_identity}
use agent_message_queue.Keepalive.Registry.Batch.{check_update}
use agent_message_queue.Keepalive.Supervisor.{
  Action, Probe, present, target_not_found, target_degraded, probe_failed, Reconciler, Outcome,
  capped, clamp_set, drawn, jittered, finish_delay, exponential_backoff, failure_max, detached_max,
  active_interval, failure_backoff, detached_backoff, mark_backoff, mark_detached, mark_active,
  start_outcome, ensure_wake, probe_outcome, before, seen, check_due, check_local_readiness, defer,
  reconcile_checked, reconcile,
}

-- The delays of the two kinds, with a jitter of any kind.
jittered-le :
    (set : Option (ℕ → Option ℕ)) (random : ℕ → Option ℕ) (delay maximum : ℕ)
    → delay ≤ maximum
    → jittered set random delay maximum ≤ maximum
unfolding jittered clamp_set drawn capped
jittered-le (some set) random delay maximum h = ground arith
jittered-le none random delay maximum h = ground arith

module _ (r : Reconciler) where
  finish-le : (maximum : ℕ) (o : Option ℕ) → finish_delay r maximum o ≤ maximum
  unfolding finish_delay
  finish-le maximum none = omega arith
  finish-le maximum (some delay) =
      ground (arith, jittered-le r.jitter r.random_offset delay maximum)

  backoffs-le :
      (n : ℕ) → (failure_backoff r n ≤ failure_max r) × (detached_backoff r n ≤ detached_max r)
  unfolding failure_backoff detached_backoff exponential_backoff
  backoffs-le n = (finish-le (failure_max r) _, finish-le (detached_max r) _)

  -- A back-off that is set, ends in time, and has no health check before it.
  abbrev pub Waits : Entry → ℕ → ℕ → Type 0
  Waits e now longest =
      (t : ℕ) × (e.backoff_until ≡ some t)
      × (now ≤ t)
      × (t ≤ now + longest)
      × (e.next_health_check ≡ none)

  -- When the entry may be looked at again, by what the look did: a deferred look leaves both times as they
  -- were, a wake that is there is checked after the active interval, and a failure or a detached terminal
  -- waits for its own back-off, with no health check before.
  abbrev pub Scheduled : Action → Entry → ℕ → Entry → Type 0
  Scheduled Action.nothing e now e' = ⊥
  Scheduled Action.deferred e now e' =
      (e'.backoff_until ≡ e.backoff_until) × (e'.next_health_check ≡ e.next_health_check)
  Scheduled Action.ensured e now e' =
      (e'.backoff_until ≡ none) × (e'.next_health_check ≡ some (now + active_interval r))
  Scheduled Action.detached e now e' = Waits e' now (detached_max r)
  Scheduled Action.backoff e now e' = Waits e' now (failure_max r)
  Scheduled Action.start_failed e now e' = Waits e' now (failure_max r)

  -- The later entry of a look: the same terminal, on the schedule of what was done.
  abbrev pub Settled : Entry → ℕ → Entry × Outcome → Type 0
  Settled e now (e', o) = (same_entry_identity e e' ≡ true) × Scheduled o.action e now e'

  failure-Waits :
      (f : Entry) (now : ℕ) (error : String) (a : Action) (touched : Bool)
      → Waits (mark_backoff r f now error a touched).0 now (failure_max r)
  unfolding mark_backoff
  failure-Waits f now error a touched = (
    now + failure_backoff r (f.failure_count + 1),
    refl,
    omega arith,
    omega (arith, (backoffs-le (f.failure_count + 1)).0),
    refl,
  )

  detached-Waits :
      (f : Entry) (now : ℕ) (error : String)
      → Waits (mark_detached r f now error).0 now (detached_max r)
  unfolding mark_detached
  detached-Waits f now error = (
    now + detached_backoff r (f.failure_count + 1),
    refl,
    omega arith,
    omega (arith, (backoffs-le (f.failure_count + 1)).1),
    refl,
  )

  backoff-Settled :
      (e f : Entry) (now : ℕ) (error : String) (touched : Bool)
      → same_entry_identity e f ≡ true
      → Settled e now (mark_backoff r f now error Action.backoff touched)
  unfolding mark_backoff same_entry_identity
  backoff-Settled e f now error touched s = (s, failure-Waits f now error Action.backoff touched)

  start_failed-Settled :
      (e f : Entry) (now : ℕ) (error : String) (touched : Bool)
      → same_entry_identity e f ≡ true
      → Settled e now (mark_backoff r f now error Action.start_failed touched)
  unfolding mark_backoff same_entry_identity
  start_failed-Settled e f now error touched s =
      (s, failure-Waits f now error Action.start_failed touched)

  detached-Settled :
      (e f : Entry) (now : ℕ) (error : String)
      → same_entry_identity e f ≡ true
      → Settled e now (mark_detached r f now error)
  unfolding mark_detached same_entry_identity
  detached-Settled e f now error s = (s, detached-Waits f now error)

  itself : (e : Entry) → same_entry_identity e e ≡ true
  unfolding same_entry_identity
  itself e = ground arith

  start-Settled :
      (e : Entry) (now : ℕ) (error ctx : Option String)
      → Settled e now (start_outcome r e now error ctx)
  unfolding start_outcome mark_active same_entry_identity
  start-Settled e now none ctx = (ground arith, (refl, refl))
  start-Settled e now (some error) (some c) = (ground arith, (refl, refl))
  start-Settled e now (some error) none = start_failed-Settled e e now error true (itself e)

  abbrev SettledIf : Entry → ℕ → Option (Entry × Outcome) → Type 0
  SettledIf e now none = Unit {0}
  SettledIf e now (some later) = Settled e now later

  seen-same : (e : Entry) (now : ℕ) → same_entry_identity e (seen r e now) ≡ true
  unfolding same_entry_identity
  seen-same e now = ground arith

  probe-Settled :
      (e : Entry) (now : ℕ) (ctx : Option String) (q : Probe)
      → SettledIf e now (probe_outcome r e (seen r e now) now ctx q)
  unfolding probe_outcome
  probe-Settled e now ctx present = choose r.has_wake
    where
      choose :
          (b : Bool)
          → SettledIf e now (
              if b
              then none
              else some (
                  mark_backoff r
                    (seen r e now)
                    now
                    "amq runner is not configured"
                    Action.backoff
                    false))
      choose true = tt
      choose false =
          backoff-Settled e (seen r e now) now "amq runner is not configured" false
            (seen-same e now)
  probe-Settled e now (some c) (target_not_found x) = (seen-same e now, (refl, refl))
  probe-Settled e now (some c) (target_degraded x) = (seen-same e now, (refl, refl))
  probe-Settled e now (some c) (probe_failed x) = (seen-same e now, (refl, refl))
  probe-Settled e now none (target_not_found x) =
      detached-Settled e (seen r e now) now x (seen-same e now)
  probe-Settled e now none (target_degraded x) = (itself e, (refl, refl))
  probe-Settled e now none (probe_failed x) =
      backoff-Settled e (seen r e now) now x false (seen-same e now)

  due-Settled :
      (e : Entry) (now : ℕ) (ctx : Option String) → SettledIf e now (check_due r e now ctx)
  unfolding check_due
  due-Settled e now (some c) = (itself e, (refl, refl))
  due-Settled e now none =
      choose (before r now e.next_health_check) (before r now e.backoff_until) r.has_adapter
    where
      choose :
          (waits backs has : Bool)
          → SettledIf e now (
              if waits
              then some (defer r e false none)
              else if backs
              then some (defer r e false none)
              else if has
              then probe_outcome r e (seen r e now) now r.ctx_probed (r.probe e.target)
              else some (
                  mark_backoff r
                    (seen r e now)
                    now
                    "adapter is not configured"
                    Action.backoff
                    false))
      choose true backs has = (itself e, (refl, refl))
      choose false true has = (itself e, (refl, refl))
      choose false false true = probe-Settled e now r.ctx_probed (r.probe e.target)
      choose false false false =
          backoff-Settled e (seen r e now) now "adapter is not configured" false (seen-same e now)

  checked-Settled :
      (e : Entry) (now : ℕ) (o : Option (Entry × Outcome))
      → SettledIf e now o
      → Settled e now (reconcile_checked r e now o)
  unfolding reconcile_checked ensure_wake
  checked-Settled e now none h =
      start-Settled e now (r.start_wake e.root e.agent e.adapter e.target) r.ctx_started
  checked-Settled e now (some later) h = h

  -- A look at a terminal keeps what identifies its entry, whatever the probe, the start of a wake and the
  -- jitter answer, and its outcome, which is never that nothing was done, says when the next look is due,
  -- by both times that put one off. A
  -- deferred look leaves them. After a wake was ensured only the health check is set, to the active
  -- interval from now. After a failure, and after a detached terminal, only the back-off is set, to a
  -- time from now to the longest delay of that kind.
  pub reconcile-Settled :
      (e : Entry) (now : ℕ)
      → (same_entry_identity e (reconcile r e now).0 ≡ true)
        × Scheduled (reconcile r e now).1.action e now (reconcile r e now).0
  unfolding reconcile check_local_readiness
  reconcile-Settled e now =
      checked-Settled e now (check_due r e now r.ctx_before) (due-Settled e now r.ctx_before)

  -- The update that a look makes of a stored entry passes the check of the registry's batch.
  pub reconcile-check_update :
      (e : Entry) (now : ℕ)
      → e.id ≢ ""
      → check_update [] (record { earlier = e; later = (reconcile r e now).0 }) ≡ ok tt
  unfolding check_update same_entry_identity
  reconcile-check_update e now n = ground (arith, (reconcile-Settled e now).0)

  -- Until its wait is over an entry is left alone: nothing is started, and it stays as it is.
  pub reconcile_waits :
      (e : Entry) (now t : ℕ)
      → e.backoff_until ≡ some t
      → now < t
      → ((reconcile r e now).0 ≡ e) × ((reconcile r e now).1.amq_touched ≡ false)
  unfolding reconcile check_local_readiness check_due reconcile_checked
  reconcile_waits e now t b h = elim (Option-cases r.ctx_before) [
    | inl n ↦ ground arith
    | inr c ↦ ground arith
  ]
