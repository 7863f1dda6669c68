-- ===== src/Swarm/Update.antt =====
-- tasks.go: the operations on one task, and the update that finds the task and writes its file.
use agent_message_queue.Base.{
  String, Bool, true, false, not, ◌&&◌, ◌||◌, Option, none, some, List, [], ◌∷◌, string_eq, ◌==◌,
  ◌!=◌, is_empty, if◌then◌else◌,
}
use agent_message_queue.Base.Dict.{Dict, lookup, insert, erase}
use agent_message_queue.Base.Text.{has_suffix, equal_fold}
use agent_message_queue.Swarm.Json.{
  text, Raw, Item, object, scalar, Doc, document, invalid, get_text,
}
use agent_message_queue.Swarm.Tasks.{
  status_in_progress, status_completed, status_failed, status_blocked, Task, not_found,
  already_completed, missing_tasks_array, read_error, parse_error, write_error, already_assigned,
  blocked_by, Result, ok, err, ◌>>=◌, ◌>>◌, FileRead, absent, failed, found, FileEntry, DirRead,
  no_dir, dir_failed, entries, TaskStore, list_tasks, require_in_progress, require_task_assignee,
  set_optional_object, set_optional_string,
}

abbrev pub Mutation : Type 0
Mutation = Raw → Result Raw

-- The callback of `ClaimTask`.
unfoldable pub claim_raw : String → String → Mutation
claim_raw now agent_id raw =
    let assigned = get_text raw "assigned_to" in
    if get_text raw "status" == status_completed
    then err already_completed
    else if assigned != "" && not (equal_fold assigned agent_id)
    then err (already_assigned assigned)
    else ok (
        insert "updated_at" (text now) (
          erase "evidence" (
            erase "block_reason" (
              erase "failure_reason" (
                insert "assigned_to" (text agent_id)
                  (insert "status" (text status_in_progress) raw))))))

-- The callback of `CompleteTask`.
unfoldable pub complete_raw : String → String → String → Option String → Mutation
complete_raw now handle agent_id evidence raw = do
  require_in_progress (get_text raw "status") status_completed
  require_task_assignee raw handle agent_id
  ok (
      insert "updated_at" (text now) (
        set_optional_object
          (erase "block_reason"
            (erase "failure_reason" (insert "status" (text status_completed) raw)))
          "evidence" evidence))

-- The callback of `FailTask`.
unfoldable pub fail_raw : String → String → String → String → Mutation
fail_raw now handle agent_id reason raw = do
  require_in_progress (get_text raw "status") status_failed
  require_task_assignee raw handle agent_id
  ok (
      insert "updated_at" (text now) (
        set_optional_string (erase "block_reason" (insert "status" (text status_failed) raw))
          "failure_reason" reason))

-- The callback of `BlockTask`.
unfoldable pub block_raw : String → String → String → String → Mutation
block_raw now handle agent_id reason raw = do
  require_in_progress (get_text raw "status") status_blocked
  require_task_assignee raw handle agent_id
  ok (
      insert "updated_at" (text now) (
        set_optional_string (erase "failure_reason" (insert "status" (text status_blocked) raw))
          "block_reason" reason))

-- The first task of the list with the id, changed: `none` where there is none.
unfoldable pub update_items : String → Mutation → List Item → Option (Result (List Item))
update_items id mutate [] = none
update_items id mutate (scalar v ∷ rest) = elim (update_items id mutate rest) [
  | none ↦ none
  | some r ↦ some (do items ← r; ok (scalar v ∷ items))
]
update_items id mutate (object raw ∷ rest) =
    let later = update_items id mutate rest in
    if get_text raw "id" == id
    then some (do raw' ← mutate raw; ok (object raw' ∷ rest))
    else elim later [ none ↦ none | some r ↦ some (do items ← r; ok (object raw ∷ items)) ]

-- `atomicWriteJSON`.
unfoldable pub write_doc : Bool → Doc → Result Doc
write_doc true d = ok d
write_doc false d = err write_error

unfoldable pub in_list : Raw → Option (Result (List Item)) → Bool → Result Doc
unfolding write_doc
in_list raw none writable = err not_found
in_list raw (some r) writable = do items ← r; write_doc writable (document raw (some items))

-- `updateTaskInList`: the new content of the file.
unfoldable pub update_task_in_list : String → Mutation → Bool → Doc → Result Doc
unfolding in_list
update_task_in_list id mutate writable invalid = err parse_error
update_task_in_list id mutate writable (document raw none) = err missing_tasks_array
update_task_in_list id mutate writable (document raw (some items)) =
    in_list raw (update_items id mutate items) writable

-- The update of one file of the directory format: `none` where the task is not in it.
in_wrapper : String → Mutation → Bool → Raw → Option (List Item) → Option (Result Doc)
unfolding write_doc
in_wrapper id mutate writable raw none = none
in_wrapper id mutate writable raw (some items) = elim (update_items id mutate items) [
  | none ↦ none
  | some r ↦ some (do items' ← r; write_doc writable (document raw (some items')))
]

update_content : String → Mutation → Bool → Option Doc → Option (Result Doc)
unfolding in_wrapper
update_content id mutate writable none = none
update_content id mutate writable (some invalid) = none
update_content id mutate writable (some (document raw items)) =
    if get_text raw "id" == id
    then some (do raw' ← mutate raw; write_doc writable (document raw' items))
    else in_wrapper id mutate writable raw items

unfoldable pub update_entry : String → Mutation → Bool → FileEntry → Option (Result Doc)
unfolding update_content
update_entry id mutate writable e =
    if e.is_dir || not (has_suffix e.name ".json")
    then none
    else update_content id mutate writable e.content

unfoldable pub update_entries : String → Mutation → Bool → List FileEntry → Result (List FileEntry)
update_entries id mutate writable [] = err not_found
update_entries id mutate writable (e ∷ rest) = elim (update_entry id mutate writable e) [
  | none ↦ (do es ← update_entries id mutate writable rest; ok (e ∷ es))
  | some r ↦ (do d ← r; ok (record e { content = some d } ∷ rest))
]

update_dir : String → Mutation → Bool → DirRead → Result DirRead
update_dir id mutate writable no_dir = err not_found
update_dir id mutate writable dir_failed = err read_error
update_dir id mutate writable (entries es) = do
  es' ← update_entries id mutate writable es
  ok (entries es')

unfoldable pub update_single : String → Mutation → TaskStore → FileRead → Result TaskStore
unfolding update_dir
update_single id mutate s (found d) = do
  d' ← update_task_in_list id mutate s.writable d
  ok (record s { single = found d' })
update_single id mutate s failed = err read_error
update_single id mutate s absent = do
  dir ← update_dir id mutate s.writable s.dir
  ok (record s { dir = dir })

-- `updateTaskRaw`: the store after the update.
unfoldable pub update_task_raw : String → Mutation → TaskStore → Result TaskStore
unfolding update_single
update_task_raw id mutate s = update_single id mutate s s.single

-- `statusMap`: later tasks win.
unfoldable pub status_map : List Task → Dict String String → Dict String String
status_map [] m = m
status_map (t ∷ rest) m = status_map rest (insert t.id t.status m)

-- `target`: the last task with the id.
unfoldable pub find_task : String → List Task → Option Task → Option Task
find_task id [] target = target
find_task id (t ∷ rest) target = find_task id rest (if t.id == id then some t else target)

abbrev pub status_in : Dict String String → String → String
status_in m dep = elim (lookup dep m) [ none ↦ "" | some s ↦ s ]

unfoldable pub incomplete : Dict String String → List String → List String
incomplete m [] = []
incomplete m (dep ∷ rest) =
    let later = incomplete m rest in
    if status_in m dep != status_completed then dep ∷ later else later

unfoldable pub gate : Dict String String → Option Task → Result (Unit {0})
gate m none = ok tt
gate m (some t) =
    if is_empty t.depends_on
    then ok tt
    else if is_empty (incomplete m t.depends_on)
    then ok tt
    else err (blocked_by (incomplete m t.depends_on))

-- The dependency gate of `ClaimTask`.
unfoldable pub check_dependencies : String → TaskStore → Result (Unit {0})
unfolding gate
check_dependencies id s = do
  tasks ← list_tasks s
  gate (status_map tasks []) (find_task id tasks none)

unfoldable pub claim_task : String → String → String → TaskStore → Result TaskStore
claim_task now id agent_id s = do
  check_dependencies id s
  update_task_raw id (claim_raw now agent_id) s

unfoldable pub complete_task :
    String → String → String → String → Option String → TaskStore → Result TaskStore
complete_task now id handle agent_id evidence s =
    update_task_raw id (complete_raw now handle agent_id evidence) s

unfoldable pub fail_task : String → String → String → String → String → TaskStore → Result TaskStore
fail_task now id handle agent_id reason s =
    update_task_raw id (fail_raw now handle agent_id reason) s

unfoldable pub block_task :
    String → String → String → String → String → TaskStore → Result TaskStore
block_task now id handle agent_id reason s =
    update_task_raw id (block_raw now handle agent_id reason) s
