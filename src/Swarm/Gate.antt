-- ===== src/Swarm/Gate.antt =====
-- tasks.go: the dependency gate of `ClaimTask`, and the task that the claim then changes.
pub mod Listing
use agent_message_queue.Base.{
  String, arith, ◌≡◌, ◌≢◌, refl, ap, ◌∙◌, none, some, Option, List, [], ◌∷◌, ◌++◌, All, string_eq,
}
use agent_message_queue.Base.Dict.{Dict}
use agent_message_queue.Swarm.Json.{Raw, Item, object, scalar, document, get_text, decode_text}
use agent_message_queue.Swarm.Tasks.{
  Task, status_completed, Result, ok, ◌>>=◌, TaskStore, found, list_tasks, decode_task,
  decode_items, parsed, parse_tasks_from_list,
}
use agent_message_queue.Swarm.Update.{
  Mutation, update_items, status_map, find_task, status_in, incomplete, gate, check_dependencies,
  claim_raw, claim_task, update_task_raw, update_task_in_list, update_single, in_list, write_doc,
}
use agent_message_queue.Swarm.Frame.{first_changed, later_changed, not_empty}
use agent_message_queue.Swarm.Gate.Listing.{
  Completed, gate_passed, gate_of_claim, IsAbsent, IsOnce, decode_task-id, decode_cons,
  decode_scalar, find_absent,
}

-- The one entry that an update changes, which is the task that the gate has looked at.
pub record Changed (id : String) (mutate : Mutation) (tasks : List Task) (target : Option Task)
    (items items' : List Item) : Type 0 where
  pub before : List Item
  pub after : List Item
  pub raw : Raw
  pub raw' : Raw
  pub task : Task
  pub stood : items ≡ before ++ object raw ∷ after
  pub stands : items' ≡ before ++ object raw' ∷ after
  pub named : get_text raw "id" ≡ id
  pub decoded : decode_task raw ≡ some task
  pub done : mutate raw ≡ ok raw'
  pub gated : find_task id tasks target ≡ some task

update_items-Changed :
    (id : String) (mutate : Mutation) (items items' : List Item) (tasks : List Task)
    (target : Option Task)
    → IsOnce id items
    → decode_items items ≡ some tasks
    → update_items id mutate items ≡ some (ok items')
    → Changed id mutate tasks target items items'
unfolding find_task
update_items-Changed id mutate [] items' tasks target a h u = absurd (not_empty id mutate items' u)
update_items-Changed id mutate (scalar v ∷ rest) items' tasks target a h u =
    absurd (decode_scalar v rest tasks h)
update_items-Changed id mutate (object raw ∷ rest) items' tasks target (a, b) h u =
    let (t, ts, p, q, e) = decode_cons raw rest tasks h in
    elim (string_eq.dec (get_text raw "id") id) [
      | yes y ↦
          let (raw', d, k) = first_changed id mutate raw rest items' y u in
          record {
            before = [];
            after = rest;
            raw = raw;
            raw' = raw';
            task = t;
            stood = refl;
            stands = k;
            named = y;
            decoded = p;
            done = d;
            gated =
                ap (λ l. find_task id l target) e
                ∙ ground
                    (arith, decode_task-id raw t p, y, find_absent id rest ts (some t) (a y) q);
          }
      | no n ↦
          let (rest', d, k) = later_changed id mutate raw rest items' n u in
          let c = update_items-Changed id mutate rest rest' ts target (b n) q d in
          record {
            before = object raw ∷ c.before;
            after = c.after;
            raw = c.raw;
            raw' = c.raw';
            task = c.task;
            stood = ap (λ (l : List Item). object raw ∷ l) c.stood;
            stands = k ∙ ap (λ (l : List Item). object raw ∷ l) c.stands;
            named = c.named;
            decoded = c.decoded;
            done = c.done;
            gated =
                ap (λ l. find_task id l target) e
                ∙ ground (arith, decode_task-id raw t p, n, c.gated);
          }
    ]

update_of_claim :
    (now id agent_id : String) (s s' : TaskStore)
    → claim_task now id agent_id s ≡ ok s'
    → update_task_raw id (claim_raw now agent_id) s ≡ ok s'
unfolding claim_task
update_of_claim now id agent_id s s' h = ground arith

stored_update :
    (s s' : TaskStore) (raw0 : Raw) (o : Option (Result (List Item)))
    → (do d' ← in_list raw0 o s.writable; ok (record s { single = found d' })) ≡ ok s'
    → (items' : List Item) × (o ≡ some (ok items'))
      × (s' ≡ record s { single = found (document raw0 (some items')) })
unfolding in_list write_doc
stored_update s s' raw0 o h = ground arith

updated_items :
    (id : String) (mutate : Mutation) (s s' : TaskStore) (raw0 : Raw) (items : List Item)
    → s.single ≡ found (document raw0 (some items))
    → update_task_raw id mutate s ≡ ok s'
    → (items' : List Item) × (update_items id mutate items ≡ some (ok items'))
      × (s' ≡ record s { single = found (document raw0 (some items')) })
unfolding update_task_raw update_single update_task_in_list
updated_items id mutate s s' raw0 items e h =
    stored_update s s' raw0 (update_items id mutate items) (rw e at h)

decoded_list :
    (s : TaskStore) (raw0 : Raw) (items : List Item) (tasks : List Task)
    → s.single ≡ found (document raw0 (some items))
    → list_tasks s ≡ ok tasks
    → decode_items items ≡ some tasks
unfolding list_tasks parse_tasks_from_list parsed
decoded_list s raw0 items tasks e h = ground arith

-- A claim of a task: the listing that the gate saw, the one entry that is changed, whose dependencies were
-- all completed in that listing, and the file written.
pub record ReadyClaim (now id agent_id : String) (s s' : TaskStore) (raw0 : Raw) (items : List Item)
    : Type 0 where
  pub tasks : List Task
  pub items' : List Item
  pub listed : list_tasks s ≡ ok tasks
  pub changed : Changed id (claim_raw now agent_id) tasks none items items'
  pub ready : Completed (status_map tasks []) changed.task.depends_on
  pub stored : s' ≡ record s { single = found (document raw0 (some items')) }

-- A claim that succeeds in a `tasks.json` where no two tasks share the id changes exactly the one task
-- with the id, as a claim does, and all the dependencies of that task were completed in the listing of
-- the file.
pub claim_task-ReadyClaim :
    (now id agent_id : String) (s s' : TaskStore) (raw0 : Raw) (items : List Item)
    → s.single ≡ found (document raw0 (some items))
    → IsOnce id items
    → claim_task now id agent_id s ≡ ok s'
    → ReadyClaim now id agent_id s s' raw0 items
claim_task-ReadyClaim now id agent_id s s' raw0 items e once h =
    let (tasks, listed, passed) = gate_of_claim now id agent_id s s' h in
    let (items', u, stored) =
      updated_items id (claim_raw now agent_id) s s' raw0 items e
        (update_of_claim now id agent_id s s' h) in
    let c =
      update_items-Changed id (claim_raw now agent_id) items items' tasks none once
        (decoded_list s raw0 items tasks e listed) u in
    record {
      tasks = tasks;
      items' = items';
      listed = listed;
      changed = c;
      ready = gate_passed (status_map tasks []) c.task (rw c.gated at passed);
      stored = stored;
    }
