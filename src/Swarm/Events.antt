-- ===== src/Swarm/Events.antt =====
-- What a poll reports.
use mathlib.Core.Path.{ap₂}
use agent_message_queue.Base.{
  String, arith, ◌↔◌, ◌≡◌, Option, ap, Bool, ◌∙◌, refl, true, false, none, some, List, [], ◌∷◌,
  ◌++◌, string_eq, contains, All, if◌then◌else◌,
}
use agent_message_queue.Base.Dict.{Dict, lookup, lookup-insert}
use agent_message_queue.Swarm.Tasks.{Task}
use agent_message_queue.Swarm.Update.{status_map, incomplete}
use agent_message_queue.Swarm.Poll.{
  Event, Agent, Memory, state_of, poll_task, poll_tasks, poll_for_changes, keep_ids, keep_deps,
  is_known, ids, state_events, unblock_events, deps_now, all_deps_completed,
}

-- The bridge calls a task's dependencies satisfied exactly when the gate of a claim finds none of them
-- incomplete, so a task that it reports as unblocked is one that can be claimed.
pub all_deps_completed_iff :
    (deps : List String) (m : Dict String String)
    → (all_deps_completed deps m ≡ true) ↔ (incomplete m deps ≡ [])
unfolding all_deps_completed incomplete
all_deps_completed_iff [] m = (λ h. refl, λ h. refl)
all_deps_completed_iff (d ∷ rest) m = ground (arith, all_deps_completed_iff rest m)

lookup-keep_ids {κ} :
    {V : Type κ} (current : List String) (id : String) (d : Dict String V)
    → lookup id (keep_ids current d) ≡ (if contains current id then lookup id d else none)
unfolding lookup keep_ids
lookup-keep_ids current id [] = ground arith
lookup-keep_ids current id ((j, v) ∷ rest) = ground (arith, lookup-keep_ids current id rest)

lookup-keep_deps :
    (current : List String) (states : Dict String String) (id : String) (d : Dict String Bool)
    → contains current id ≡ false
    → is_known (lookup id states) ≡ true
    → lookup id (keep_deps current states d) ≡ none
unfolding lookup keep_deps
lookup-keep_deps current states id [] c k = refl
lookup-keep_deps current states id ((j, b) ∷ rest) c k =
    ground (arith, lookup-keep_deps current states id rest c k)

absent_deps :
    (current : List String) (states : Dict String String) (id : String) (d : Dict String Bool)
    → lookup id d ≡ none
    → lookup id (keep_deps current states d) ≡ none
unfolding lookup keep_deps
absent_deps current states id [] h = refl
absent_deps current states id ((j, b) ∷ rest) h = ground (arith, absent_deps current states id rest)

unlisted_same :
    (a : Agent) (statuses : Dict String String) (m : Memory) (tasks : List Task) (id : String)
    → contains (ids tasks) id ≡ false
    → (lookup id (poll_tasks a statuses m tasks).1.last_states ≡ lookup id m.last_states)
      × (lookup id (poll_tasks a statuses m tasks).1.last_deps ≡ lookup id m.last_deps)
unfolding poll_tasks poll_task
unlisted_same a statuses m [] id h = (refl, refl)
unlisted_same a statuses m (t ∷ rest) id h = ground (
  arith,
  unlisted_same a statuses (poll_task a statuses m t).1 rest id,
  lookup-insert id t.id (state_of t) m.last_states,
  lookup-insert id t.id (deps_now t statuses) m.last_deps,
)

-- The bridge remembers nothing of a task that is no longer listed, where what it remembers of the
-- dependencies of the task came with what it remembers of its state.
pub gone_forgotten :
    (a : Agent) (m : Memory) (tasks : List Task) (id : String)
    → contains (ids tasks) id ≡ false
    → (lookup id m.last_states ≡ none → lookup id m.last_deps ≡ none)
    → (lookup id (poll_for_changes a m tasks).1.last_states ≡ none)
      × (lookup id (poll_for_changes a m tasks).1.last_deps ≡ none)
unfolding poll_for_changes
gone_forgotten a m tasks id h paired =
    (rw (lookup-keep_ids, keep_deps, is_known, h), forgotten (lookup id m.last_states) refl)
  where
    after : Memory
    after = (poll_tasks a (status_map tasks []) m tasks).1

    forgotten :
        (o : Option String)
        → lookup id m.last_states ≡ o
        → lookup id (keep_deps (ids tasks) after.last_states after.last_deps) ≡ none
    forgotten none e =
        absent_deps (ids tasks) after.last_states id after.last_deps
          ((unlisted_same a (status_map tasks []) m tasks id h).1 ∙ paired e)
    forgotten (some s) e =
        lookup-keep_deps (ids tasks) after.last_states id after.last_deps h
          (ap is_known ((unlisted_same a (status_map tasks []) m tasks id h).0 ∙ e))

-- The memory holds the present state of every task of the list.
abbrev pub Settled : Dict String String → Memory → List Task → Type 0
Settled statuses m = All λ t.
    (lookup t.id m.last_states ≡ some (state_of t))
    × (lookup t.id m.last_deps ≡ some (deps_now t statuses))

no_events :
    (a : Agent) (statuses : Dict String String) (m : Memory) (t : Task)
    → lookup t.id m.last_states ≡ some (state_of t)
    → lookup t.id m.last_deps ≡ some (deps_now t statuses)
    → (poll_task a statuses m t).0 ≡ []
unfolding poll_task state_events unblock_events
no_events a statuses m t s d = rw (s, d) (ground arith)

same_memory :
    (a : Agent) (statuses : Dict String String) (m : Memory) (t : Task) (id : String)
    → lookup t.id m.last_states ≡ some (state_of t)
    → lookup t.id m.last_deps ≡ some (deps_now t statuses)
    → (lookup id (poll_task a statuses m t).1.last_states ≡ lookup id m.last_states)
      × (lookup id (poll_task a statuses m t).1.last_deps ≡ lookup id m.last_deps)
unfolding poll_task
same_memory a statuses m t id s d = ground (
  arith,
  lookup-insert id t.id (state_of t) m.last_states,
  lookup-insert id t.id (deps_now t statuses) m.last_deps,
)

Settled-step :
    (a : Agent) (statuses : Dict String String) (m : Memory) (t : Task) (rest : List Task)
    → lookup t.id m.last_states ≡ some (state_of t)
    → lookup t.id m.last_deps ≡ some (deps_now t statuses)
    → Settled statuses m rest
    → Settled statuses (poll_task a statuses m t).1 rest
Settled-step a statuses m t [] s d h = tt
Settled-step a statuses m t (u ∷ rest) s d ((s', d'), h) =
    let (p, q) = same_memory a statuses m t u.id s d in
    ((p ∙ s', q ∙ d'), Settled-step a statuses m t rest s d h)

quiet_tasks :
    (a : Agent) (statuses : Dict String String) (m : Memory) (tasks : List Task)
    → Settled statuses m tasks
    → (poll_tasks a statuses m tasks).0 ≡ []
unfolding poll_tasks
quiet_tasks a statuses m [] h = refl
quiet_tasks a statuses m (t ∷ rest) ((s, d), h) =
    ap₂ (λ (xs ys : List Event). xs ++ ys) (no_events a statuses m t s d)
      (quiet_tasks a statuses (poll_task a statuses m t).1 rest
        (Settled-step a statuses m t rest s d h))

-- A poll that finds every task in the state and with the dependencies that the bridge remembers
-- reports nothing.
pub Settled-poll :
    (a : Agent) (m : Memory) (tasks : List Task)
    → Settled (status_map tasks []) m tasks
    → (poll_for_changes a m tasks).0 ≡ []
unfolding poll_for_changes
Settled-poll a m tasks h = quiet_tasks a (status_map tasks []) m tasks h
