-- ===== src/Thread/Tests.antt =====
-- One thread, at concrete inputs.
use agent_message_queue.Base.{
  ℕ, String, ◌≡◌, refl, false, none, some, Option, List, [], ◌∷◌, string_eq,
}
use agent_message_queue.Base.Text.{has_prefix, has_suffix}
use agent_message_queue.Fsq.Store.{Leaf, inbox_new, outbox_sent}
use agent_message_queue.Format.{Message}
use agent_message_queue.Thread.{
  Entry, ok, File, DirRead, missing, files, Callback, new_entry, add_message, add_file, add_files,
  add_dir, scan, mailboxes, collect,
}
use agent_message_queue.Thread.Unique.{AllOf, Distinct, collect-IsSound}

abbrev message : String → String → Message
message id thread = record {
  header = record {
    schema = 1;
    id = id;
    from = "alice";
    to = "bob" ∷ [];
    thread = thread;
    subject = "";
    created = "2025-01-01T00:00:00Z";
    refs = [];
    priority = "";
    kind = "";
    labels = [];
    context = none;
    reply_to = "";
    reply_project = "";
    from_project = "";
  };
  body = [];
}

abbrev file : Leaf → String → Option Message → File
file leaf name m = record {
  path = record { agent = "alice"; leaf = leaf; name = name };
  is_dir = false;
  message = m;
}

-- The message stands in an inbox and in the sent box, beside one of another thread and a broken one.
abbrev boxes : String → Leaf → DirRead
boxes agent inbox_new = files (
    file inbox_new "1.md" (some (message "1" "t"))
    ∷ file inbox_new "2.md" (some (message "2" "u"))
    ∷ [])
boxes agent outbox_sent =
    files (file outbox_sent "1.md" (some (message "1" "t")) ∷ file outbox_sent "3.md" none ∷ [])
boxes agent _ = missing

abbrev agents : List String
agents = "alice" ∷ []

abbrev go_on : Callback
go_on = some (λ name. none)

abbrev no_time : String → Option ℕ
no_time s = none

abbrev in_order : List Entry → List Entry
in_order es = es

collected :
    collect no_time "t" go_on in_order boxes agents ≡ ok (new_entry no_time (message "1" "t") ∷ [])
unfolding collect mailboxes scan add_dir add_files add_file add_message has_prefix has_suffix
    string_eq
collected = refl

collect-IsSound_example :
    (found : List Entry) × (new_entry no_time (message "1" "t") ∷ [] ≡ in_order found)
    × AllOf "t" found
    × Distinct found
collect-IsSound_example =
    collect-IsSound no_time "t" go_on in_order boxes agents
      (new_entry no_time (message "1" "t") ∷ []) collected
