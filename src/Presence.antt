-- ===== src/Presence.antt =====
-- The presence of an agent (internal/presence/presence.go): one file for each handle, as the presence that
-- it decodes to. A time is the text that the caller gives; how a write ends is a parameter.
pub mod Kept
mod Tests
use Prim.Native.Nat.{ℕ}
use agent_message_queue.Base.{
  String, Option, none, some, Bool, true, false, string_eq, if◌then◌else◌,
}
use agent_message_queue.Base.Dict.{Dict, lookup, insert}

pub record Presence : Type 0 where
  pub schema : ℕ
  pub handle : String
  pub status : String
  pub last_seen : String
  pub note : String
  pub notifier_status : String
  pub notifier_mode : String
  pub notifier_reason : String
  pub doorbell_parked : Bool
  pub doorbell_attempts : ℕ

pub data PresenceFile : Type 0 where
  unreadable : PresenceFile
  malformed : PresenceFile
  stored : Presence → PresenceFile

-- The files by the handle of their folder; a handle with no entry has none.
abbrev pub Files : Type 0
Files = Dict String PresenceFile

pub data PresenceError : Type 0 where
  not_exist : PresenceError
  read_failed : PresenceError
  decode_failed : PresenceError
  write_failed : PresenceError

pub data Result (A : Type 0) : Type 0 where
  ok : A → Result A
  err : PresenceError → Result A

unfoldable pub new_presence : String → String → String → String → Presence
new_presence handle status note now = record {
  schema = 1;
  handle = handle;
  status = status;
  last_seen = now;
  note = note;
  notifier_status = "";
  notifier_mode = "";
  notifier_reason = "";
  doorbell_parked = false;
  doorbell_attempts = 0;
}

unfoldable pub decode : Option PresenceFile → Result Presence
decode none = err not_exist
decode (some unreadable) = err read_failed
decode (some malformed) = err decode_failed
decode (some (stored p)) = ok p

unfoldable pub read : String → Files → Result Presence
unfolding decode lookup
read handle files = decode (lookup handle files)

-- The file is that of the presence's own handle.
unfoldable pub write : Bool → Presence → Files → Files × Result Unit
unfolding insert
write writes p files =
    if writes then (insert p.handle (stored p) files, ok tt) else (files, err write_failed)

unfoldable pub touch_read : Bool → String → String → Files → Result Presence → Files × Result Unit
unfolding write new_presence
touch_read writes now handle files (ok p) = write writes (record p { last_seen = now }) files
touch_read writes now handle files (err not_exist) =
    write writes (new_presence handle "active" "" now) files
touch_read writes now handle files (err read_failed) = (files, err read_failed)
touch_read writes now handle files (err decode_failed) = (files, err decode_failed)
touch_read writes now handle files (err write_failed) = (files, err write_failed)

-- `Touch`, and `TouchDeliveryRoot`, which differs in how it reaches the file.
unfoldable pub touch : Bool → String → String → Files → Files × Result Unit
unfolding touch_read read
touch writes now handle files = touch_read writes now handle files (read handle files)

-- What the notifier says of itself.
pub record Notifier : Type 0 where
  pub status : String
  pub mode : String
  pub reason : String

unfoldable pub noted : Notifier → String → Presence → Presence
noted n now p = record p {
  notifier_status = n.status;
  notifier_mode = n.mode;
  notifier_reason = n.reason;
  last_seen = now;
}

unfoldable pub notify_read :
    Bool → String → String → Notifier → Files → Result Presence → Files × Result Unit
unfolding write new_presence noted
notify_read writes now handle n files (ok p) = write writes (noted n now p) files
notify_read writes now handle n files (err not_exist) =
    write writes (noted n now (new_presence handle "active" "" now)) files
notify_read writes now handle n files (err read_failed) = (files, err read_failed)
notify_read writes now handle n files (err decode_failed) = (files, err decode_failed)
notify_read writes now handle n files (err write_failed) = (files, err write_failed)

unfoldable pub set_notifier_status : Bool → String → String → Notifier → Files → Files × Result Unit
unfolding notify_read read
set_notifier_status writes now handle n files =
    notify_read writes now handle n files (read handle files)
