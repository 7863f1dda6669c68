-- ===== src/Thread.antt =====
-- internal/thread/thread.go: the messages of one thread, collected from the mailboxes of some agents.
-- `sort.Slice` and the parsing of times are parameters.
pub mod Unique
pub mod Tests
use agent_message_queue.Base.{
  ℕ, String, Bool, true, false, not, ◌||◌, Option, none, some, List, [], ◌∷◌, ◌++◌, string_eq, ◌==◌,
  ◌!=◌, contains, if◌then◌else◌,
}
use agent_message_queue.Base.Text.{has_prefix, has_suffix}
use agent_message_queue.Fsq.Store.{Bytes, FilePath, Leaf, inbox_new, inbox_cur, outbox_sent}
use agent_message_queue.Format.{Header, Message, FormatError}

-- `Entry`.
pub record Entry : Type 0 where
  pub id : String
  pub from : String
  pub to : List String
  pub thread : String
  pub subject : String
  pub created : String
  pub body : Bytes
  pub priority : String
  pub kind : String
  pub labels : List String
  pub raw_time : Option ℕ

-- Why a scan ends: a message that cannot be read, the callback's error, or a directory.
pub data ThreadError : Type 0 where
  unreadable : FilePath → ThreadError
  reported : String → ThreadError
  bad_dir : ThreadError

pub data Result (A : Type 0) : Type 0 where
  ok : A → Result A
  err : ThreadError → Result A

-- A file of a mailbox, with what `ReadMessageFile` gives of it, or `ReadHeaderFile` with an empty body
-- where the body is not asked for.
pub record File : Type 0 where
  pub path : FilePath
  pub is_dir : Bool
  pub message : Option Message

-- What the listing of a directory gives.
pub data DirRead : Type 0 where
  missing failed : DirRead
  files : List File → DirRead

-- `onError`: none, or a callback that ends the scan by an error or lets it go on.
abbrev pub Callback : Type 0
Callback = Option (FilePath → Option String)

abbrev pub new_entry : (String → Option ℕ) → Message → Entry
new_entry parse_time m = record {
  id = m.header.id;
  from = m.header.from;
  to = m.header.to;
  thread = m.header.thread;
  subject = m.header.subject;
  created = m.header.created;
  body = m.body;
  priority = m.header.priority;
  kind = m.header.kind;
  labels = m.header.labels;
  raw_time = parse_time m.header.created;
}

-- What the scan has seen and found.
pub record Found : Type 0 where
  pub seen : List String
  pub entries : List Entry

-- The directories of each agent, in turn.
unfoldable pub mailboxes : (String → Leaf → DirRead) → List String → List DirRead
mailboxes listing [] = []
mailboxes listing (agent ∷ rest) =
    listing agent inbox_new
    ∷ listing agent inbox_cur
    ∷ listing agent outbox_sent
    ∷ mailboxes listing rest

module _ (parse_time : String → Option ℕ) (thread_id : String) (on_error : Callback) where
  callback : FilePath → Option String → Found → Result Found
  callback path none s = ok s
  callback path (some e) s = err (reported e)

  skipped : FilePath → Callback → Found → Result Found
  unfolding callback
  skipped path none s = err (unreadable path)
  skipped path (some f) s = callback path (f path) s

  -- The body of the loop for a message file.
  unfoldable pub add_message : FilePath → Option Message → Found → Result Found
  unfolding skipped
  add_message path none s = skipped path on_error s
  add_message path (some m) s =
      if m.header.thread != thread_id
      then ok s
      else if contains s.seen m.header.id
      then ok s
      else ok (record {
        seen = m.header.id ∷ s.seen;
        entries = s.entries ++ new_entry parse_time m ∷ [];
      })

  unfoldable pub add_file : File → Found → Result Found
  add_file f s =
      if f.is_dir || (has_prefix f.path.name "." || not (has_suffix f.path.name ".md"))
      then ok s
      else add_message f.path f.message s

  unfoldable pub add_files : List File → Found → Result Found
  add_files [] s = ok s
  add_files (f ∷ rest) s = elim (add_file f s) [ err e ↦ err e | ok s' ↦ add_files rest s' ]

  unfoldable pub add_dir : DirRead → Found → Result Found
  add_dir missing s = ok s
  add_dir failed s = err bad_dir
  add_dir (files fs) s = add_files fs s

  unfoldable pub scan : List DirRead → Found → Result Found
  scan [] s = ok s
  scan (d ∷ rest) s = elim (add_dir d s) [ err e ↦ err e | ok s' ↦ scan rest s' ]

  sorted : (List Entry → List Entry) → Result Found → Result (List Entry)
  sorted sort (err e) = err e
  sorted sort (ok s) = ok (sort s.entries)

  -- `Collect`.
  unfoldable pub collect :
      (List Entry → List Entry) → (String → Leaf → DirRead) → List String → Result (List Entry)
  unfolding sorted
  collect sort listing agents =
      sorted sort (scan (mailboxes listing agents) (record { seen = []; entries = [] }))
