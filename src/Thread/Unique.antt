-- ===== src/Thread/Unique.antt =====
-- A thread holds no message twice, and no message of another thread.
use agent_message_queue.Base.{
  ℕ, String, arith, ◌≡◌, refl, Bool, true, false, not, ◌||◌, Option, none, some, List, [], ◌∷◌,
  ◌++◌, string_eq, ◌==◌, ◌!=◌, contains, if◌then◌else◌,
}
use agent_message_queue.Base.Text.{has_prefix, has_suffix}
use agent_message_queue.Fsq.Store.{FilePath, Leaf}
use agent_message_queue.Format.{Message}
use agent_message_queue.Thread.{
  Entry, Result, ok, err, File, DirRead, missing, failed, files, Callback, new_entry, Found,
  callback, skipped, add_message, add_file, add_files, add_dir, scan, sorted, mailboxes, collect,
}

-- No id stands twice, and every entry is of the thread.
abbrev pub AllOf : String → List Entry → Type 0
AllOf thread [] = Unit
AllOf thread (e ∷ rest) = (e.thread ≡ thread) × AllOf thread rest

-- Whether an id is that of an entry.
pub has_entry : String → List Entry → Bool
has_entry id [] = false
has_entry id (e ∷ rest) = e.id == id || has_entry id rest

abbrev pub Distinct : List Entry → Type 0
Distinct [] = Unit
Distinct (e ∷ rest) = (has_entry e.id rest ≡ false) × Distinct rest

-- What the scan keeps: an id that was not seen is that of no entry.
pub record IsSound (thread : String) (s : Found) : Type 0 where
  pub all_of : AllOf thread s.entries
  pub distinct : Distinct s.entries
  pub seen : (id : String) → contains s.seen id ≡ false → has_entry id s.entries ≡ false

AllOf-append :
    (thread : String) (es : List Entry) (e : Entry)
    → AllOf thread es
    → e.thread ≡ thread
    → AllOf thread (es ++ e ∷ [])
AllOf-append thread [] e h k = (k, tt)
AllOf-append thread (x ∷ es) e (p, h) k = (p, AllOf-append thread es e h k)

has_entry-append :
    (id : String) (es : List Entry) (e : Entry)
    → has_entry id (es ++ e ∷ []) ≡ (has_entry id es || e.id == id)
unfolding has_entry
has_entry-append id [] e = ground arith
has_entry-append id (x ∷ es) e = ground (arith, has_entry-append id es e)

Distinct-append :
    (es : List Entry) (e : Entry)
    → Distinct es
    → has_entry e.id es ≡ false
    → Distinct (es ++ e ∷ [])
unfolding has_entry
Distinct-append [] e h k = (refl, tt)
Distinct-append (x ∷ es) e (p, h) k =
    (ground (arith, has_entry-append x.id es e), Distinct-append es e h (ground arith))

module _ (parse_time : String → Option ℕ) (thread_id : String) (on_error : Callback) where
  -- A result that keeps what the scan keeps.
  abbrev Keeps : Result Found → Type 0
  Keeps (ok s) = IsSound thread_id s
  Keeps (err e) = Unit

  added :
      (m : Message) (s : Found)
      → IsSound thread_id s
      → (b c : Bool) → (m.header.thread != thread_id) ≡ b
      → contains s.seen m.header.id ≡ c
      → Keeps (
          if b
          then ok s
          else if c
          then ok s
          else ok (record {
            seen = m.header.id ∷ s.seen;
            entries = s.entries ++ new_entry parse_time m ∷ [];
          }))
  added m s h true c e f = h
  added m s h false true e f = h
  added m s h false false e f = record {
    all_of = AllOf-append thread_id s.entries (new_entry parse_time m) h.all_of (ground arith);
    distinct = Distinct-append s.entries (new_entry parse_time m) h.distinct (h.seen m.header.id f);
    seen =
        λ id k. ground (arith, has_entry-append id s.entries (new_entry parse_time m), h.seen id);
  }

  called :
      (path : FilePath) (o : Option String) (s : Found)
      → IsSound thread_id s
      → Keeps (callback parse_time thread_id on_error path o s)
  unfolding callback
  called path none s h = h
  called path (some e) s h = tt

  IsSound-add_message :
      (path : FilePath) (o : Option Message) (s : Found)
      → IsSound thread_id s
      → Keeps (add_message parse_time thread_id on_error path o s)
  unfolding add_message
  IsSound-add_message path (some m) s h =
      added m s h (m.header.thread != thread_id) (contains s.seen m.header.id) refl refl
  IsSound-add_message path none s h = passed on_error
    where
      passed : (c : Callback) → Keeps (skipped parse_time thread_id on_error path c s)
      passed none = tt
      passed (some f) = called path (f path) s h

  add_file-IsSound :
      (f : File) (s : Found)
      → IsSound thread_id s
      → Keeps (add_file parse_time thread_id on_error f s)
  unfolding add_file
  add_file-IsSound f s h =
      choose (f.is_dir || (has_prefix f.path.name "." || not (has_suffix f.path.name ".md")))
    where
      choose :
          (b : Bool)
          → Keeps (if b then ok s else add_message parse_time thread_id on_error f.path f.message s)
      choose true = h
      choose false = IsSound-add_message f.path f.message s h

  add_files-IsSound :
      (fs : List File) (s : Found)
      → IsSound thread_id s
      → Keeps (add_files parse_time thread_id on_error fs s)
  unfolding add_files
  add_files-IsSound [] s h = h
  add_files-IsSound (f ∷ rest) s h =
      go (add_file parse_time thread_id on_error f s) (add_file-IsSound f s h)
        (add_files-IsSound rest)
    where
      go :
          (x : Result Found)
          → Keeps x
          → ((s : Found)
              → IsSound thread_id s
              → Keeps (add_files parse_time thread_id on_error rest s))
          → Keeps
              (elim x [ err e ↦ err e | ok s' ↦ add_files parse_time thread_id on_error rest s' ])
      go (ok s') k ih = ih s' k
      go (err e) k ih = tt

  add_dir-IsSound :
      (d : DirRead) (s : Found)
      → IsSound thread_id s
      → Keeps (add_dir parse_time thread_id on_error d s)
  unfolding add_dir
  add_dir-IsSound missing s h = h
  add_dir-IsSound failed s h = tt
  add_dir-IsSound (files fs) s h = add_files-IsSound fs s h

  scan-IsSound :
      (ds : List DirRead) (s : Found)
      → IsSound thread_id s
      → Keeps (scan parse_time thread_id on_error ds s)
  unfolding scan
  scan-IsSound [] s h = h
  scan-IsSound (d ∷ rest) s h =
      go (add_dir parse_time thread_id on_error d s) (add_dir-IsSound d s h) (scan-IsSound rest)
    where
      go :
          (x : Result Found)
          → Keeps x
          → ((s : Found) → IsSound thread_id s → Keeps (scan parse_time thread_id on_error rest s))
          → Keeps (elim x [ err e ↦ err e | ok s' ↦ scan parse_time thread_id on_error rest s' ])
      go (ok s') k ih = ih s' k
      go (err e) k ih = tt

  empty-IsSound : IsSound thread_id (record { seen = []; entries = [] })
  unfolding has_entry
  empty-IsSound = record { all_of = tt; distinct = tt; seen = λ id h. refl }

-- A thread that is collected is the sorted list of entries that are all of the thread and of which no two
-- have one id, however often a message stands in the mailboxes.
pub collect-IsSound :
    (parse_time : String → Option ℕ) (thread_id : String) (on_error : Callback)
    (sort : List Entry → List Entry) (listing : String → Leaf → DirRead) (agents : List String)
    (es : List Entry)
    → collect parse_time thread_id on_error sort listing agents ≡ ok es
    → (found : List Entry) × (es ≡ sort found) × AllOf thread_id found × Distinct found
unfolding collect sorted
collect-IsSound parse_time thread_id on_error sort listing agents es h =
    split
      (scan parse_time thread_id on_error (mailboxes listing agents)
        (record { seen = []; entries = [] }))
      h
      (scan-IsSound parse_time thread_id on_error (mailboxes listing agents) _
        (empty-IsSound parse_time thread_id on_error))
  where
    split :
        (x : Result Found)
        → sorted parse_time thread_id on_error sort x ≡ ok es
        → Keeps parse_time thread_id on_error x
        → (found : List Entry) × (es ≡ sort found) × AllOf thread_id found × Distinct found
    split (ok s) e k = (s.entries, cc e, k.all_of, k.distinct)
    split (err _) e k = cc e
