-- ===== src/Keepalive/Supervisor.antt =====
-- One look of the supervisor at a registered terminal (internal/keepalive/supervisor/supervisor.go). The
-- context, the probe of the terminal, the start of a wake and the random source are parameters. A duration
-- is a number of nanoseconds, with 0 where a setting is not positive; the settings are taken to be small
-- enough that a doubled delay fits an int64.

pub mod Reconcile
use Prim.Native.Nat.{ℕ, zero, suc, ◌+◌, ◌-◌, ◌*◌, ◌/◌}
use agent_message_queue.Base.{
  String, ◌<>◌, Option, none, some, Bool, true, false, not, ◌&&◌, ltb, leb, eqb, if◌then◌else◌,
}
use agent_message_queue.Keepalive.Registry.{Entry}

abbrev pub minute : ℕ
minute = 60 * 1000000000

pub data Action : Type 0 where
  nothing : Action
  backoff : Action
  deferred : Action
  detached : Action
  ensured : Action
  start_failed : Action

-- The text of an action, as it is stored.
abbrev pub action_text : Action → String
action_text Action.nothing = ""
action_text Action.backoff = "backoff"
action_text Action.deferred = "deferred"
action_text Action.detached = "detached"
action_text Action.ensured = "ensured"
action_text Action.start_failed = "start_failed"

pub record Outcome : Type 0 where
  pub action : Action
  pub amq_touched : Bool
  pub error : Option String

pub data Probe : Type 0 where
  present : Probe
  target_not_found : String → Probe
  target_degraded : String → Probe
  probe_failed : String → Probe

-- The reconciler's settings, and what its environment answers during one look: the error of the context
-- at the start, after the probe and after the start of a wake, the probe and the start, the jitter that a
-- caller set, with none for a negative answer, and the offset drawn below a span.
pub record Reconciler : Type 0 where
  pub has_adapter : Bool
  pub has_wake : Bool
  pub probe : String → Probe
  pub start_wake : String → String → String → String → Option String
  pub ctx_before : Option String
  pub ctx_probed : Option String
  pub ctx_started : Option String
  pub backoff_base : ℕ
  pub backoff_max : ℕ
  pub jitter : Option (ℕ → Option ℕ)
  pub random_offset : ℕ → Option ℕ
  pub active_check_interval : ℕ
  pub detached_backoff_base : ℕ
  pub detached_backoff_max : ℕ

abbrev pub or_default : ℕ → ℕ → ℕ
or_default setting default = if eqb setting 0 then default else setting

unfoldable pub capped : ℕ → ℕ → ℕ
capped delay maximum = if ltb maximum delay then maximum else delay

unfoldable pub clamp_set : ℕ → Option ℕ → ℕ
unfolding capped
clamp_set maximum none = 0
clamp_set maximum (some delay) = capped delay maximum

unfoldable pub drawn : ℕ → ℕ → Option ℕ → ℕ
unfolding capped
drawn delay maximum none = delay
drawn delay maximum (some offset) = capped (delay - delay / 5 + offset) maximum

unfoldable pub jittered : Option (ℕ → Option ℕ) → (ℕ → Option ℕ) → ℕ → ℕ → ℕ
unfolding clamp_set drawn
jittered (some set) random delay maximum = clamp_set maximum (set delay)
jittered none random delay maximum =
    if eqb (delay / 5) 0 then delay else drawn delay maximum (random (delay / 5 * 2 + 1))

unfoldable pub doubled : ℕ → ℕ → ℕ → Option ℕ
doubled zero delay maximum = some delay
doubled (suc n) delay maximum =
    let rest = doubled n (delay * 2) maximum in if leb maximum (delay * 2) then none else rest

module _ (r : Reconciler) where
  unfoldable pub finish_delay : ℕ → Option ℕ → ℕ
  unfolding jittered
  finish_delay maximum none = maximum
  finish_delay maximum (some delay) =
      if ltb maximum delay then maximum else jittered r.jitter r.random_offset delay maximum

  unfoldable pub exponential_backoff : ℕ → ℕ → ℕ → ℕ
  unfolding finish_delay doubled
  exponential_backoff failures base maximum =
      finish_delay maximum (doubled (failures - 1) base maximum)

  abbrev pub failure_max : ℕ
  failure_max = or_default r.backoff_max (15 * minute)

  abbrev pub detached_max : ℕ
  detached_max = or_default r.detached_backoff_max (60 * minute)

  unfoldable pub failure_backoff : ℕ → ℕ
  unfolding exponential_backoff
  failure_backoff failures =
      exponential_backoff failures (or_default r.backoff_base minute) failure_max

  unfoldable pub detached_backoff : ℕ → ℕ
  unfolding exponential_backoff
  detached_backoff failures =
      exponential_backoff failures (or_default r.detached_backoff_base (5 * minute)) detached_max

  unfoldable pub mark_backoff : Entry → ℕ → String → Action → Bool → Entry × Outcome
  unfolding failure_backoff
  mark_backoff e now error action touched = (
    record e {
      state = "attached";
      failure_count = e.failure_count + 1;
      backoff_until = some (now + failure_backoff (e.failure_count + 1));
      next_health_check = none;
      detached_since = none;
      last_supervisor_decision = action_text action;
      last_error = error;
    },
    record { action = action; amq_touched = touched; error = some error },
  )

  unfoldable pub mark_detached : Entry → ℕ → String → Entry × Outcome
  unfolding detached_backoff
  mark_detached e now error = (
    record e {
      state = "detached";
      failure_count = e.failure_count + 1;
      backoff_until = some (now + detached_backoff (e.failure_count + 1));
      next_health_check = none;
      detached_since = elim e.detached_since [ none ↦ some now | some t ↦ some t ];
      last_error = error;
      last_supervisor_decision = action_text Action.detached;
    },
    record { action = Action.detached; amq_touched = false; error = some error },
  )

  abbrev pub active_interval : ℕ
  active_interval = or_default r.active_check_interval (5 * minute)

  unfoldable pub mark_active : Entry → ℕ → Action → Entry
  mark_active e now action = record e {
    state = "active";
    last_seen_by_supervisor = some now;
    failure_count = 0;
    backoff_until = none;
    detached_since = none;
    next_health_check = some (now + active_interval);
    last_error = "";
    last_supervisor_decision = action_text action;
  }

  abbrev pub defer : Entry → Bool → Option String → Entry × Outcome
  defer e touched error =
      (e, record { action = Action.deferred; amq_touched = touched; error = error })

  unfoldable pub start_outcome : Entry → ℕ → Option String → Option String → Entry × Outcome
  unfolding mark_active mark_backoff
  start_outcome e now none ctx = (
    mark_active e now Action.ensured,
    record { action = Action.ensured; amq_touched = true; error = none },
  )
  start_outcome e now (some error) (some cancelled) =
      defer e true (some (cancelled <> ("\n" <> error)))
  start_outcome e now (some error) none = mark_backoff e now error Action.start_failed true

  unfoldable pub ensure_wake : Entry → ℕ → Entry × Outcome
  unfolding start_outcome
  ensure_wake e now =
      start_outcome e now (r.start_wake e.root e.agent e.adapter e.target) r.ctx_started

  -- The answer of a probe: a blocked entry, or none where the terminal is there.
  unfoldable pub probe_outcome :
      Entry → Entry → ℕ → Option String → Probe → Option (Entry × Outcome)
  unfolding mark_detached mark_backoff
  probe_outcome original e now ctx present =
      if r.has_wake
      then none
      else some (mark_backoff e now "amq runner is not configured" Action.backoff false)
  probe_outcome original e now (some cancelled) (target_not_found error) =
      some (defer e false (some cancelled))
  probe_outcome original e now (some cancelled) (target_degraded error) =
      some (defer e false (some cancelled))
  probe_outcome original e now (some cancelled) (probe_failed error) =
      some (defer e false (some cancelled))
  probe_outcome original e now none (target_not_found error) = some (mark_detached e now error)
  probe_outcome original e now none (target_degraded error) =
      some (defer original false (some error))
  probe_outcome original e now none (probe_failed error) =
      some (mark_backoff e now error Action.backoff false)

  abbrev pub before : ℕ → Option ℕ → Bool
  before now none = false
  before now (some t) = ltb now t

  abbrev pub seen : Entry → ℕ → Entry
  seen e now = record e { last_seen_by_supervisor = some now }

  unfoldable pub check_due : Entry → ℕ → Option String → Option (Entry × Outcome)
  unfolding probe_outcome
  check_due e now (some cancelled) = some (defer e false (some cancelled))
  check_due e now none =
      if before now e.next_health_check
      then some (defer e false none)
      else if before now e.backoff_until
      then some (defer e false none)
      else if r.has_adapter
      then probe_outcome e (seen e now) now r.ctx_probed (r.probe e.target)
      else some (mark_backoff (seen e now) now "adapter is not configured" Action.backoff false)

  unfoldable pub check_local_readiness : Entry → ℕ → Option (Entry × Outcome)
  unfolding check_due
  check_local_readiness e now = check_due e now r.ctx_before

  unfoldable pub reconcile_checked : Entry → ℕ → Option (Entry × Outcome) → Entry × Outcome
  unfolding ensure_wake
  reconcile_checked e now (some blocked) = blocked
  reconcile_checked e now none = ensure_wake e now

  unfoldable pub reconcile : Entry → ℕ → Entry × Outcome
  unfolding reconcile_checked check_local_readiness
  reconcile e now = reconcile_checked e now (check_local_readiness e now)
