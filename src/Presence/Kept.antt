-- ===== src/Presence/Kept.antt =====
-- What the updates of a presence keep.
use agent_message_queue.Base.{
  String, arith, ◌≡◌, ◌≢◌, refl, ap, ◌∙◌, Option, none, some, Bool, true, string_eq,
}
use agent_message_queue.Base.Dict.{lookup, lookup-insert}
use agent_message_queue.Presence.{
  Presence, PresenceFile, unreadable, malformed, stored, Files, Result, ok, err, not_exist,
  read_failed, decode_failed, write_failed, new_presence, decode, read, write, touch_read, touch,
  Notifier, noted, notify_read, set_notifier_status,
}

-- The file of a handle names it.
abbrev pub NamesItself : String → Files → Type 0
NamesItself handle files =
    (p : Presence) → lookup handle files ≡ some (stored p) → p.handle ≡ handle

read-inv :
    (handle : String) (files : Files) (p : Presence)
    → read handle files ≡ ok p
    → lookup handle files ≡ some (stored p)
unfolding read decode
read-inv handle files p q = from (lookup handle files) q
  where
    from : (o : Option PresenceFile) → decode o ≡ ok p → o ≡ some (stored p)
    from none h = cc
    from (some unreadable) h = cc
    from (some malformed) h = cc
    from (some (stored x)) h = cc

-- An update of one agent's presence, whose file names it, changes the file of no other handle, however it
-- ends.
pub touch-others :
    (writes : Bool) (now handle other : String) (files : Files)
    → NamesItself handle files
    → other ≢ handle
    → lookup other (touch writes now handle files).0 ≡ lookup other files
unfolding touch
touch-others writes now handle other files n d = go (read handle files) (read-inv handle files)
  where
    go :
        (r : Result Presence)
        → ((p : Presence) → r ≡ ok p → lookup handle files ≡ some (stored p))
        → lookup other (touch_read writes now handle files r).0 ≡ lookup other files
    go (ok p) h =
        unfold touch_read write in
        ground (
          arith,
          n p (h p refl),
          lookup-insert other p.handle (stored (record p { last_seen = now })) files,
        )
    go (err not_exist) h =
        unfold touch_read write new_presence in
        ground
          (arith, lookup-insert other handle (stored (new_presence handle "active" "" now)) files)
    go (err read_failed) h = refl
    go (err decode_failed) h = refl
    go (err write_failed) h = refl

-- A notifier's report that succeeds, on a presence that names its handle, is read back: it replaces what
-- the notifier said before and the time, and keeps the agent's own status and note, and the doorbell.
pub read-set_notifier_status :
    (now handle : String) (n : Notifier) (files : Files) (p : Presence)
    → NamesItself handle files
    → read handle files ≡ ok p
    → read handle (set_notifier_status true now handle n files).0 ≡ ok (noted n now p)
unfolding set_notifier_status notify_read write noted decode
read-set_notifier_status now handle n files p names q =
    let own : p.handle ≡ handle = names p (read-inv handle files p q) in
    ap (λ r. read handle (notify_read true now handle n files r).0) q
    ∙ ground (arith, own, lookup-insert handle p.handle (stored (noted n now p)) files)
