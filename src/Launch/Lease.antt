-- ===== src/Launch/Lease.antt =====
-- The lease record of a session and what is known of its holder (internal/launch/lease.go). The process
-- table is a parameter: `inspect` answers for a pid. A pid is a natural number, with 0 for the values
-- that are not positive.
pub mod Capability
pub mod Taking
pub mod Exclusion
use Prim.Native.Nat.{ℕ}
use agent_message_queue.Base.{
  String, ◌<>◌, Option, none, some, Bool, true, false, not, ◌&&◌, ◌||◌, eqb, string_eq, ◌==◌, ◌!=◌,
  if◌then◌else◌,
}
use agent_message_queue.Base.Text.{trim_space}

pub data LeaseState : Type 0 where
  missing : LeaseState
  valid : LeaseState
  stale : LeaseState
  unverified : LeaseState

pub record HolderIdentity : Type 0 where
  pub pid : ℕ
  pub process_start : String
  pub boot_id : String

pub record ProcessInfo : Type 0 where
  pub pid : ℕ
  pub running : Bool
  pub start_token : String
  pub boot_id : String
  pub inspect_error : Option String

pub record LeaseRecord : Type 0 where
  pub version : ℕ
  pub holder : HolderIdentity
  pub launch_nonce : String

-- The lease file as an open without following links finds it.
pub data LeaseFile : Type 0 where
  absent : LeaseFile
  unreadable : LeaseFile
  bad_mode : LeaseFile
  undecodable : LeaseFile
  stored : LeaseRecord → LeaseFile

pub data LeaseError : Type 0 where
  not_running : LeaseError
  no_start_time : LeaseError
  nonce_failed : LeaseError
  interlock_failed : LeaseError
  read_failed : LeaseError
  wrong_permissions : LeaseError
  held : String → String → LeaseError
  holder_unverified : String → LeaseError
  secret_failed : LeaseError
  secret_collision : LeaseError
  write_failed : LeaseError
  remove_failed : LeaseError
  not_held : LeaseError
  no_longer_held : LeaseError
  identity_changed : LeaseError
  root_mismatch : LeaseError
  not_live : LeaseError

pub data Result (A : Type 0) : Type 0 where
  ok : A → Result A
  err : LeaseError → Result A

pub record LeaseInspection : Type 0 where
  pub state : LeaseState
  pub evidence : String
  pub holder : HolderIdentity
  pub nonce : String

abbrev pub lease_version : ℕ
lease_version = 1

abbrev pub no_holder : HolderIdentity
no_holder = record { pid = 0; process_start = ""; boot_id = "" }

abbrev pub evidence_or : String → Option String → String
evidence_or base none = base
evidence_or base (some e) = base <> (": " <> e)

-- The rows of the table for a holder whose start time is recorded and can be read.
unfoldable pub classify_started : HolderIdentity → ProcessInfo → LeaseState × String
classify_started recorded live =
    if recorded.boot_id != "" && (live.boot_id != "" && recorded.boot_id != live.boot_id)
    then (stale, "boot id mismatch")
    else if recorded.boot_id != "" && live.boot_id == ""
    then (unverified, evidence_or "boot id unavailable" live.inspect_error)
    else if recorded.process_start != live.start_token
    then (if recorded.boot_id == "" then unverified else stale, "process start time mismatch")
    else (valid, "holder identity confirmed")

unfoldable pub classify_holder : HolderIdentity → ProcessInfo → LeaseState × String
unfolding classify_started
classify_holder recorded live =
    if not live.running
    then (stale, "holder pid is not running")
    else if recorded.process_start == ""
    then (unverified, "lease lacks process start metadata")
    else if live.start_token == ""
    then (unverified, evidence_or "process start time unavailable" live.inspect_error)
    else classify_started recorded live

abbrev pub bare : LeaseState → String → LeaseInspection
bare state evidence = record { state = state; evidence = evidence; holder = no_holder; nonce = "" }

unfoldable pub is_incomplete : LeaseRecord → Bool
is_incomplete r =
    not (eqb r.version lease_version) || (trim_space r.launch_nonce == "" || eqb r.holder.pid 0)

module _ (inspect : ℕ → ProcessInfo) where
  unfoldable pub inspect_record : LeaseRecord → LeaseInspection
  unfolding classify_holder is_incomplete
  inspect_record r =
      if is_incomplete r then bare unverified "lease record is incomplete" else record {
        state = (classify_holder r.holder (inspect r.holder.pid)).0;
        evidence = (classify_holder r.holder (inspect r.holder.pid)).1;
        holder = r.holder;
        nonce = r.launch_nonce;
      }

  unfoldable pub inspect_lease_locked : LeaseFile → Result LeaseInspection
  unfolding inspect_record
  inspect_lease_locked absent = ok (bare missing "")
  inspect_lease_locked unreadable = err read_failed
  inspect_lease_locked bad_mode = err wrong_permissions
  inspect_lease_locked undecodable = ok (bare unverified "lease file is unreadable")
  inspect_lease_locked (stored r) = ok (inspect_record r)

unfoldable pub current_holder : ProcessInfo → Result HolderIdentity
current_holder self =
    if not self.running
    then err not_running
    else if self.start_token == ""
    then err no_start_time
    else ok (record { pid = self.pid; process_start = self.start_token; boot_id = self.boot_id })
