-- ===== src/Swarm/Tests.antt =====
-- The task operations and the polls at concrete inputs.
use agent_message_queue.Base.{
  List, ◌≡◌, ◌≢◌, refl, inl, inr, true, false, none, some, [], ◌∷◌, string_eq, codes_eq, contains,
  String, ◌==◌, arith,
}
use native.Mathlib.Decide.{ℕ_discrete}
use agent_message_queue.Base.Dict.{lookup, insert, erase}
use agent_message_queue.Base.Text.{equal_fold, trim_space}
use agent_message_queue.Swarm.Json.{
  Item, object, scalar, document, decode_text, decode_texts, decode_object, text, texts, Raw,
  get_text,
}
use agent_message_queue.Swarm.Tasks.{
  TaskStore, found, no_dir, list_tasks, parse_tasks_from_list, decode_task, Task, ok,
  status_pending, status_in_progress, status_completed, status_failed, require_in_progress,
  require_task_assignee, is_assigned_to_me, set_optional_string,
}
use agent_message_queue.Swarm.Update.{
  claim_task, check_dependencies, gate, find_task, update_task_raw, update_task_in_list,
  update_items, claim_raw, fail_raw, status_map, incomplete,
}
use agent_message_queue.Swarm.Poll.{Agent, Memory, ids, all_deps_completed, deps_now}
use agent_message_queue.Swarm.Lifecycle.{
  Claimable, Claimed, claim_raw_effect, failing, Endable, end_raw,
}
use agent_message_queue.Swarm.Frame.{Updated, update_items-Updated}
use agent_message_queue.Swarm.Gate.Listing.{IsOnce}
use agent_message_queue.Swarm.Gate.{ReadyClaim, claim_task-ReadyClaim}
use agent_message_queue.Swarm.Events.{Settled}

abbrev free_task : Raw
free_task = ("id", text "t1") ∷ ("status", text status_pending) ∷ []

abbrev claimed_task : Raw
claimed_task =
    ("id", text "t1")
    ∷ ("status", text status_in_progress)
    ∷ ("assigned_to", text "a1")
    ∷ ("updated_at", text "now")
    ∷ []

claimed : claim_raw "now" "a1" free_task ≡ ok claimed_task
unfolding claim_raw string_eq insert lookup get_text erase
claimed = refl

claim_raw_effect_example : Claimable "a1" free_task × Claimed "now" "a1" free_task claimed_task
claim_raw_effect_example = claim_raw_effect "now" "a1" free_task claimed_task claimed

differs : (s t : String) → (s == t) ≡ false → s ≢ t
differs s t h = ground arith

claimable : Claimable "a1" free_task
unfolding string_eq lookup get_text
claimable = (differs "pending" "completed" refl, inl refl)

abbrev failed_task : Raw
failed_task =
    ("id", text "t1")
    ∷ ("status", text status_failed)
    ∷ ("assigned_to", text "a1")
    ∷ ("updated_at", text "later")
    ∷ ("failure_reason", text "no disk")
    ∷ []

ended : end_raw (failing "no disk") "later" "alice" "a1" claimed_task ≡ ok failed_task
unfolding fail_raw string_eq insert lookup get_text erase require_in_progress require_task_assignee
    is_assigned_to_me equal_fold set_optional_string trim_space codes_eq ℕ_discrete
ended = refl

endable : Endable "alice" "a1" claimed_task
unfolding string_eq lookup get_text is_assigned_to_me equal_fold codes_eq ℕ_discrete
endable = (refl, inr refl)

abbrev completed_task : Raw
completed_task = ("id", text "t1") ∷ ("status", text status_completed) ∷ []

is_completed : get_text completed_task "status" ≡ status_completed
unfolding string_eq lookup get_text
is_completed = refl

abbrev alice : Agent
alice = record { handle = "alice"; agent_id = "a1" }

abbrev task : Task
task = record {
  id = "t1";
  title = "one";
  description = "";
  status = status_pending;
  assigned_to = "";
  depends_on = "t0" ∷ [];
  created_at = "";
  updated_at = "";
  evidence = none;
  failure_reason = "";
  block_reason = "";
}

abbrev remembered : Memory
remembered = record {
  last_states = ("t1", "pending:") ∷ ("t9", "failed:a1") ∷ [];
  last_deps = ("t1", false) ∷ ("t9", true) ∷ [];
}

not_listed : contains (ids (task ∷ [])) "t9" ≡ false
unfolding string_eq
not_listed = refl

-- `t9` is remembered, so nothing has to be shown of a task that is not.
paired : lookup "t9" remembered.last_states ≡ none → lookup "t9" remembered.last_deps ≡ none
unfolding string_eq lookup
paired e = cc e

settled : Settled (status_map (task ∷ []) []) remembered (task ∷ [])
unfolding string_eq lookup insert status_map deps_now all_deps_completed
settled = ((refl, refl), tt)

abbrev items : List Item
items = scalar "x" ∷ object free_task ∷ object completed_task ∷ []

abbrev items_after : List Item
items_after = scalar "x" ∷ object claimed_task ∷ object completed_task ∷ []

updated : update_items "t1" (claim_raw "now" "a1") items ≡ some (ok items_after)
unfolding update_items claim_raw string_eq insert lookup get_text erase
updated = refl

update_items-Updated_example : Updated "t1" (claim_raw "now" "a1") items items_after
update_items-Updated_example =
    update_items-Updated "t1" (claim_raw "now" "a1") items items_after updated

abbrev store_of : List Item → TaskStore
store_of l = record { single = found (document [] (some l)); dir = no_dir; writable = true }

-- A task that waits for another, which is completed.
abbrev gated_task : Raw
gated_task =
    ("id", text "t1") ∷ ("status", text status_pending) ∷ ("depends_on", texts ("t2" ∷ [])) ∷ []

abbrev done_task : Raw
done_task = ("id", text "t2") ∷ ("status", text status_completed) ∷ []

abbrev gated_claimed : Raw
gated_claimed =
    ("id", text "t1")
    ∷ ("status", text status_in_progress)
    ∷ ("depends_on", texts ("t2" ∷ []))
    ∷ ("assigned_to", text "a1")
    ∷ ("updated_at", text "now")
    ∷ []

abbrev gated_items : List Item
gated_items = object gated_task ∷ object done_task ∷ []

abbrev claimed_items : List Item
claimed_items = object gated_claimed ∷ object done_task ∷ []

claim_accepted : claim_task "now" "t1" "a1" (store_of gated_items) ≡ ok (store_of claimed_items)
unfolding claim_task check_dependencies gate list_tasks parse_tasks_from_list decode_task
    decode_text decode_texts decode_object status_map find_task incomplete update_task_raw
    update_task_in_list update_items claim_raw string_eq insert lookup get_text erase
claim_accepted = refl

ids_differ : ◌≢◌ {A = String} "t2" "t1"
ids_differ = differs "t2" "t1" (unfold string_eq in refl)

gated-IsOnce : IsOnce "t1" gated_items
unfolding get_text lookup string_eq
gated-IsOnce = ((λ e. (ids_differ, tt)), λ n. ((λ e. tt), (λ n. tt)))

claim_task-ReadyClaim_example :
    ReadyClaim "now" "t1" "a1" (store_of gated_items) (store_of claimed_items) [] gated_items
claim_task-ReadyClaim_example =
    claim_task-ReadyClaim "now" "t1" "a1" (store_of gated_items) (store_of claimed_items) []
      gated_items refl gated-IsOnce claim_accepted

-- Two tasks have one id: the gate looks at the last of them, and the claim changes the first.
abbrev waiting_task : Raw
waiting_task =
    ("id", text "t1") ∷ ("status", text status_pending) ∷ ("depends_on", texts ("t9" ∷ [])) ∷ []

abbrev waiting_claimed : Raw
waiting_claimed =
    ("id", text "t1")
    ∷ ("status", text status_in_progress)
    ∷ ("depends_on", texts ("t9" ∷ []))
    ∷ ("assigned_to", text "a1")
    ∷ ("updated_at", text "now")
    ∷ []

gate_bypassed :
    claim_task "now" "t1" "a1" (store_of (object waiting_task ∷ object free_task ∷ []))
    ≡ ok (store_of (object waiting_claimed ∷ object free_task ∷ []))
unfolding claim_task check_dependencies gate list_tasks parse_tasks_from_list decode_task
    decode_text decode_texts decode_object status_map find_task incomplete update_task_raw
    update_task_in_list update_items claim_raw string_eq insert lookup get_text erase
gate_bypassed = refl
