-- ===== src/Swarm/Tasks.antt =====
-- tasks.go: the task record, the store of a team, its listing, and the guards of the operations.
use agent_message_queue.Base.{
  String, Bool, not, ◌||◌, Option, none, some, List, [], ◌∷◌, ◌++◌, string_eq, ◌==◌, ◌!=◌,
  if◌then◌else◌,
}
use agent_message_queue.Base.Dict.{insert, erase}
use agent_message_queue.Base.Text.{has_prefix, has_suffix, trim_space, equal_fold}
use agent_message_queue.Swarm.Json.{
  text, json, Raw, Item, object, scalar, Doc, document, invalid, get_text, decode_text,
  decode_texts, decode_object,
}

abbrev pub status_pending : String
status_pending = "pending"

abbrev pub status_in_progress : String
status_in_progress = "in_progress"

abbrev pub status_completed : String
status_completed = "completed"

abbrev pub status_failed : String
status_failed = "failed"

abbrev pub status_blocked : String
status_blocked = "blocked"

pub record Task : Type 0 where
  pub id : String
  pub title : String
  pub description : String
  pub status : String
  pub assigned_to : String
  pub depends_on : List String
  pub created_at : String
  pub updated_at : String
  pub evidence : Option String
  pub failure_reason : String
  pub block_reason : String

-- Why an operation fails.
pub data TaskError : Type 0 where
  not_found already_completed invalid_status missing_tasks_array read_error parse_error
        write_error :
      TaskError
  already_assigned : String → TaskError
  blocked_by : List String → TaskError
  already : String → TaskError
  not_in_progress : String → TaskError
  not_assignee : String → String → TaskError

pub data Result (A : Type 0) : Type 0 where
  ok : A → Result A
  err : TaskError → Result A

infixl 5 ◌>>=◌ ◌>>◌
abbrev pub ◌>>=◌ : {A B : Type 0} → Result A → (A → Result B) → Result B
ok a >>= f = f a
err e >>= f = err e

abbrev pub ◌>>◌ : {B : Type 0} → Result (Unit {0}) → Result B → Result B
m >> n = m >>= λ _. n

-- What reading a file gives.
pub data FileRead : Type 0 where
  absent : FileRead
  failed : FileRead
  found : Doc → FileRead

-- A file of the directory format; `content` is none where the file cannot be read.
pub record FileEntry : Type 0 where
  pub name : String
  pub is_dir : Bool
  pub content : Option Doc

pub data DirRead : Type 0 where
  no_dir : DirRead
  dir_failed : DirRead
  entries : List FileEntry → DirRead

-- The tasks directory of a team: `tasks.json`, and the files beside it. `writable` says whether an
-- atomic write succeeds.
pub record TaskStore : Type 0 where
  pub single : FileRead
  pub dir : DirRead
  pub writable : Bool

infixl 5 ◌>>=?◌
abbrev ◌>>=?◌ : {A B : Type 0} → Option A → (A → Option B) → Option B
none >>=? f = none
some a >>=? f = f a

-- `json.Unmarshal` into a `Task`.
unfoldable pub decode_task : Raw → Option Task
decode_task raw = decode_text raw "id" >>=? λ i. decode_text raw "title" >>=? λ t.
    decode_text raw "description" >>=? λ d. decode_text raw "status" >>=? λ s.
    decode_text raw "assigned_to" >>=? λ a. decode_texts raw "depends_on" >>=? λ deps.
    decode_text raw "created_at" >>=? λ c. decode_text raw "updated_at" >>=? λ u.
    decode_object raw "evidence" >>=? λ e. decode_text raw "failure_reason" >>=? λ f.
    decode_text raw "block_reason" >>=? λ b. some (record {
      id = i;
      title = t;
      description = d;
      status = s;
      assigned_to = a;
      depends_on = deps;
      created_at = c;
      updated_at = u;
      evidence = e;
      failure_reason = f;
      block_reason = b;
    })

unfoldable pub decode_items : List Item → Option (List Task)
decode_items [] = some []
decode_items (scalar v ∷ rest) = none
decode_items (object raw ∷ rest) =
    decode_task raw >>=? λ t. decode_items rest >>=? λ ts. some (t ∷ ts)

unfoldable pub parsed : Option (List Task) → Result (List Task)
parsed none = err parse_error
parsed (some ts) = ok ts

-- `parseTasksFromList`; a document with no "tasks" has no tasks.
unfoldable pub parse_tasks_from_list : Doc → Result (List Task)
unfolding decode_items parsed
parse_tasks_from_list invalid = err parse_error
parse_tasks_from_list (document raw none) = ok []
parse_tasks_from_list (document raw (some items)) = parsed (decode_items items)

-- A file of the directory format is one task with an id, or a list of tasks.
tasks_of_list : Result (List Task) → List Task
tasks_of_list (ok ts) = ts
tasks_of_list (err e) = []

tasks_of_doc : Option Task → Doc → List Task
unfolding tasks_of_list
tasks_of_doc (some t) d = if t.id != "" then t ∷ [] else tasks_of_list (parse_tasks_from_list d)
tasks_of_doc none d = tasks_of_list (parse_tasks_from_list d)

decoded_doc : Doc → List Task
unfolding tasks_of_doc
decoded_doc invalid = []
decoded_doc (document raw items) = tasks_of_doc (decode_task raw) (document raw items)

tasks_of_content : Option Doc → List Task
unfolding decoded_doc
tasks_of_content none = []
tasks_of_content (some d) = decoded_doc d

unfoldable pub list_entries : List FileEntry → List Task
unfolding tasks_of_content
list_entries [] = []
list_entries (e ∷ rest) =
    (if e.is_dir || not (has_suffix e.name ".json")
      then []
      else if has_prefix e.name "."
      then []
      else tasks_of_content e.content)
    ++ list_entries rest

list_dir : DirRead → Result (List Task)
list_dir no_dir = ok []
list_dir dir_failed = err read_error
list_dir (entries es) = ok (list_entries es)

list_single : FileRead → DirRead → Result (List Task)
unfolding list_dir
list_single (found d) dir = parse_tasks_from_list d
list_single failed dir = err read_error
list_single absent dir = list_dir dir

-- `ListTasks`.
unfoldable pub list_tasks : TaskStore → Result (List Task)
unfolding list_single
list_tasks s = list_single s.single s.dir

-- `requireInProgress`.
unfoldable pub require_in_progress : String → String → Result (Unit {0})
require_in_progress status target =
    if status == target
    then err (already target)
    else if status == status_in_progress
    then ok tt
    else if status == status_pending
        || (status == status_completed || (status == status_failed || status == status_blocked))
    then err (not_in_progress status)
    else err invalid_status

-- `isAssignedToMe` (bridge.go).
unfoldable pub is_assigned_to_me : String → String → String → Bool
is_assigned_to_me assigned handle agent_id =
    equal_fold assigned handle || equal_fold assigned agent_id

-- `requireTaskAssignee`: nobody, or the caller.
unfoldable pub require_task_assignee : Raw → String → String → Result (Unit {0})
require_task_assignee raw handle agent_id =
    let assigned = get_text raw "assigned_to" in
    if assigned == "" || is_assigned_to_me assigned handle agent_id
    then ok tt
    else err (not_assignee assigned (if agent_id == "" then handle else agent_id))

unfoldable pub set_optional_object : Raw → String → Option String → Raw
set_optional_object raw key none = erase key raw
set_optional_object raw key (some v) = insert key (json v) raw

unfoldable pub set_optional_string : Raw → String → String → Raw
set_optional_string raw key value =
    let v = trim_space value in if v == "" then erase key raw else insert key (text v) raw
