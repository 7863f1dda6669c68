-- ===== src/Swarm/Poll.antt =====
-- bridge.go: what one poll of the task list reports, and the two maps that it keeps between polls.
use agent_message_queue.Base.{
  String, ◌<>◌, Bool, true, false, not, ◌&&◌, Option, none, some, List, [], ◌∷◌, ◌++◌, string_eq,
  ◌==◌, ◌!=◌, is_empty, contains, if◌then◌else◌,
}
use agent_message_queue.Base.Dict.{Dict, lookup, insert}
use agent_message_queue.Swarm.Tasks.{
  status_pending, status_in_progress, status_completed, status_failed, status_blocked, Task,
  is_assigned_to_me,
}
use agent_message_queue.Swarm.Update.{status_map, status_in}

pub data EventType : Type 0 where
  task_added task_updated task_assigned task_unblocked task_completed task_failed task_blocked :
      EventType

pub data Details : Type 0 where
  no_details : Details
  assignee : String → Details
  satisfied : List String → Details

-- `BridgeEvent`.
pub record Event : Type 0 where
  pub type : EventType
  pub task_id : String
  pub title : String
  pub status : String
  pub details : Details
  pub reason : String
  pub evidence : Option String

-- The handle and the agent id of the bridge's configuration.
pub record Agent : Type 0 where
  pub handle : String
  pub agent_id : String

-- `lastStates` and `lastDepsSatisfied`.
pub record Memory : Type 0 where
  pub last_states : Dict String String
  pub last_deps : Dict String Bool

abbrev pub state_of : Task → String
state_of t = t.status <> ":" <> t.assigned_to

unfoldable pub all_deps_completed : List String → Dict String String → Bool
all_deps_completed [] m = true
all_deps_completed (dep ∷ rest) m =
    if status_in m dep != status_completed then false else all_deps_completed rest m

unfoldable pub is_relevant_to_agent : Task → Agent → Bool
is_relevant_to_agent t a =
    if t.assigned_to == "" then true else is_assigned_to_me t.assigned_to a.handle a.agent_id

abbrev event_of : Task → EventType → Details → String → Option String → Event
event_of t type details reason evidence = record {
  type = type;
  task_id = t.id;
  title = t.title;
  status = t.status;
  details = details;
  reason = reason;
  evidence = evidence;
}

unfoldable pub changed_event : Agent → Task → Event
changed_event a t =
    let details = assignee t.assigned_to in
    if t.status == status_in_progress && is_assigned_to_me t.assigned_to a.handle a.agent_id
    then event_of t task_assigned details "" none
    else if t.status == status_completed
    then event_of t task_completed details "" t.evidence
    else if t.status == status_failed
    then event_of t task_failed details t.failure_reason none
    else if t.status == status_blocked
    then event_of t task_blocked details t.block_reason none
    else event_of t task_updated details "" none

-- The event of a task that is new, or whose state has changed.
unfoldable pub state_events : Agent → Task → Option String → List Event
unfolding changed_event
state_events a t none =
    if is_relevant_to_agent t a then event_of t task_added no_details "" none ∷ [] else []
state_events a t (some prev) =
    if state_of t != prev && is_relevant_to_agent t a then changed_event a t ∷ [] else []

abbrev waits_on_deps : Task → Bool
waits_on_deps t = not (is_empty t.depends_on) && (t.status == status_pending)

abbrev was_satisfied : Option Bool → Bool
was_satisfied none = false
was_satisfied (some b) = b

abbrev pub is_known : Option String → Bool
is_known none = false
is_known (some s) = true

-- The event of a known task whose dependencies have become complete.
unfoldable pub unblock_events : Agent → Task → Option String → Bool → Bool → List Event
unblock_events a t prev before now =
    if is_known prev && waits_on_deps t && now && not before && is_relevant_to_agent t a
    then event_of t task_unblocked (satisfied t.depends_on) "" none ∷ []
    else []

unfoldable pub deps_now : Task → Dict String String → Bool
deps_now t statuses = if waits_on_deps t then all_deps_completed t.depends_on statuses else true

-- The body of the loop over the tasks.
unfoldable pub poll_task : Agent → Dict String String → Memory → Task → List Event × Memory
unfolding state_events unblock_events deps_now
poll_task a statuses m t =
    let prev = lookup t.id m.last_states in
    let before = was_satisfied (lookup t.id m.last_deps) in
    let now = deps_now t statuses in
    (
      state_events a t prev ++ unblock_events a t prev before now,
      record {
        last_states = insert t.id (state_of t) m.last_states;
        last_deps = insert t.id now m.last_deps;
      },
    )

unfoldable pub poll_tasks : Agent → Dict String String → Memory → List Task → List Event × Memory
poll_tasks a statuses m [] = ([], m)
poll_tasks a statuses m (t ∷ rest) =
    let (es, m') = poll_task a statuses m t in
    let (later, m'') = poll_tasks a statuses m' rest in (es ++ later, m'')

abbrev pub ids : List Task → List String
ids [] = []
ids (t ∷ rest) = t.id ∷ ids rest

-- The loop that deletes the tasks that are gone.
unfoldable pub keep_ids {κ} : {V : Type κ} → List String → Dict String V → Dict String V
keep_ids current [] = []
keep_ids current ((id, v) ∷ rest) =
    let kept = keep_ids current rest in if contains current id then (id, v) ∷ kept else kept

-- The same loop's second map: it loses the removed tasks that the first map knew.
unfoldable pub keep_deps : List String → Dict String String → Dict String Bool → Dict String Bool
keep_deps current states [] = []
keep_deps current states ((id, b) ∷ rest) =
    let kept = keep_deps current states rest in
    if contains current id
    then (id, b) ∷ kept
    else if is_known (lookup id states)
    then kept
    else (id, b) ∷ kept

-- `pollForChanges`, over the tasks that it has listed.
unfoldable pub poll_for_changes : Agent → Memory → List Task → List Event × Memory
poll_for_changes a m tasks =
    let (es, m') = poll_tasks a (status_map tasks []) m tasks in
    (
      es,
      record {
        last_states = keep_ids (ids tasks) m'.last_states;
        last_deps = keep_deps (ids tasks) m'.last_states m'.last_deps;
      },
    )

scan_states : List Task → Dict String String → Dict String String
scan_states [] m = m
scan_states (t ∷ rest) m = scan_states rest (insert t.id (state_of t) m)

scan_deps : Dict String String → List Task → Dict String Bool → Dict String Bool
scan_deps statuses [] m = m
scan_deps statuses (t ∷ rest) m =
    scan_deps statuses rest (insert t.id (all_deps_completed t.depends_on statuses) m)

-- `initialScan`.
unfoldable pub initial_scan : List Task → Memory
unfolding scan_states scan_deps
initial_scan tasks = record {
  last_states = scan_states tasks [];
  last_deps = scan_deps (status_map tasks []) tasks [];
}
