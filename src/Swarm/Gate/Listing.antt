-- ===== src/Swarm/Gate/Listing.antt =====
-- tasks.go: what the dependency gate of `ClaimTask` has seen of the listing.
use agent_message_queue.Base.{
  String, arith, ◌≡◌, ◌≢◌, refl, ◌∙◌, none, some, Option, List, [], ◌∷◌, All, string_eq,
}
use agent_message_queue.Base.Dict.{Dict}
use agent_message_queue.Swarm.Json.{Raw, Item, object, scalar, get_text, decode_text}
use agent_message_queue.Swarm.Tasks.{
  Task, status_completed, ok, TaskStore, list_tasks, decode_task, decode_items,
}
use agent_message_queue.Swarm.Update.{
  status_map, find_task, status_in, incomplete, gate, check_dependencies, claim_task,
}

-- Every dependency is completed, by the statuses given.
abbrev pub Completed : Dict String String → List String → Type 0
Completed m = All (λ dep. status_in m dep ≡ status_completed)

Completed-of_incomplete :
    (m : Dict String String) (deps : List String) → incomplete m deps ≡ [] → Completed m deps
unfolding incomplete
Completed-of_incomplete m [] h = tt
Completed-of_incomplete m (d ∷ rest) h =
    (ground arith, Completed-of_incomplete m rest (ground arith))

pub gate_passed :
    (m : Dict String String) (t : Task) → gate m (some t) ≡ ok tt → Completed m t.depends_on
unfolding gate
gate_passed m t h = passed t.depends_on refl
  where
    passed : (deps : List String) → t.depends_on ≡ deps → Completed m deps
    passed [] e = tt
    passed (d ∷ rest) e = Completed-of_incomplete m (d ∷ rest) (ground arith)

pub gate_of_claim :
    (now id agent_id : String) (s s' : TaskStore)
    → claim_task now id agent_id s ≡ ok s'
    → (tasks : List Task) × (list_tasks s ≡ ok tasks)
      × (gate (status_map tasks []) (find_task id tasks none) ≡ ok tt)
unfolding claim_task check_dependencies
gate_of_claim now id agent_id s s' h = ground arith

-- No entry has the id.
abbrev pub IsAbsent : String → List Item → Type 0
IsAbsent id [] = Unit {0}
IsAbsent id (scalar v ∷ rest) = IsAbsent id rest
IsAbsent id (object raw ∷ rest) = (get_text raw "id" ≢ id) × IsAbsent id rest

-- After the first entry with the id there is no other.
abbrev pub IsOnce : String → List Item → Type 0
IsOnce id [] = Unit {0}
IsOnce id (scalar v ∷ rest) = IsOnce id rest
IsOnce id (object raw ∷ rest) =
    (get_text raw "id" ≡ id → IsAbsent id rest) × (get_text raw "id" ≢ id → IsOnce id rest)

pub decode_task-id : (raw : Raw) (t : Task) → decode_task raw ≡ some t → get_text raw "id" ≡ t.id
unfolding decode_task decode_text get_text
decode_task-id raw t h = ground arith

pub decode_cons :
    (raw : Raw) (rest : List Item) (tasks : List Task)
    → decode_items (object raw ∷ rest) ≡ some tasks
    → (t : Task) × (ts : List Task) × (decode_task raw ≡ some t)
      × (decode_items rest ≡ some ts)
      × (tasks ≡ t ∷ ts)
unfolding decode_items
decode_cons raw rest tasks h = ground arith

pub decode_scalar :
    (v : String) (rest : List Item) (tasks : List Task)
    → decode_items (scalar v ∷ rest) ≢ some tasks
unfolding decode_items
decode_scalar v rest tasks h = cc h

pub find_absent :
    (id : String) (items : List Item) (tasks : List Task) (target : Option Task)
    → IsAbsent id items
    → decode_items items ≡ some tasks
    → find_task id tasks target ≡ target
unfolding find_task
find_absent id [] tasks target a h = unfold decode_items in ground (arith, h)
find_absent id (scalar v ∷ rest) tasks target a h = absurd (decode_scalar v rest tasks h)
find_absent id (object raw ∷ rest) tasks target (n, a) h =
    let (t, ts, p, q, e) = decode_cons raw rest tasks h in
    let other : t.id ≢ id = λ k. n (decode_task-id raw t p ∙ k) in
    rw e (ground (arith, other, find_absent id rest ts target a q))
