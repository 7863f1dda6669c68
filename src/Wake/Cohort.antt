-- ===== src/Wake/Cohort.antt =====
-- The unread messages that a doorbell covers, by name, with the identity of the file where one is known
-- (snapshotWakeFileIdentities in internal/cli/wake.go, the wakeCohort functions of
-- internal/cli/wake_doorbell.go, and the capture of an identity in
-- internal/cli/wake_file_identity_linux.go). A Go map is an association list.
use Prim.Native.Nat.{ℕ}
use native.Mathlib.Decide.{ℕ_discrete}
use agent_message_queue.Base.{
  String, Option, none, some, Bool, true, false, [], ◌∷◌, ◌||◌, Eq, ◌!=◌, string_eq,
}
use agent_message_queue.Base.Dict.{Dict, lookup}

pub record FileIdentity : Type 0 where
  pub device : ℕ
  pub inode : ℕ
  pub ctime_sec : ℕ
  pub ctime_nsec : ℕ

pub identity-discrete : Discrete FileIdentity
identity-discrete = hlevel ℕ_discrete

instance unfoldable pub identity_eq : Eq FileIdentity
unfolding identity-discrete
identity_eq = record { dec = identity-discrete }

-- What a scan learned about a file: nothing, metadata that no identity can be read from, or a stat.
pub data FileInfo : Type 0 where
  missing : FileInfo
  opaque : FileInfo
  stat : FileIdentity → FileInfo

abbrev pub Cohort : Type 0
Cohort = Dict String (Option FileIdentity)

abbrev pub Pending : Type 0
Pending = Dict String FileInfo

unfoldable pub capture_wake_file_identity : FileInfo → Option FileIdentity
capture_wake_file_identity missing = none
capture_wake_file_identity opaque = none
capture_wake_file_identity (stat i) = some i

unfoldable pub snapshot_wake_file_identities : Pending → Cohort
unfolding capture_wake_file_identity
snapshot_wake_file_identities [] = []
snapshot_wake_file_identities ((name, info) ∷ current) =
    (name, capture_wake_file_identity info) ∷ snapshot_wake_file_identities current

-- Whether a file that a scan found is another one than the cohort remembers under its name.
unfoldable pub other_file : Option FileIdentity → FileInfo → Bool
other_file none (stat i) = true
other_file none missing = false
other_file none opaque = false
other_file (some i) missing = false
other_file (some i) opaque = false
other_file (some i) (stat j) = i != j

unfoldable pub known_replacement : Option FileIdentity → FileInfo → Bool
known_replacement none info = false
known_replacement (some i) missing = false
known_replacement (some i) opaque = false
known_replacement (some i) (stat j) = i != j

unfoldable pub member_gone : Option FileIdentity → Option FileInfo → Bool
unfolding other_file
member_gone identity none = true
member_gone identity (some info) = other_file identity info

unfoldable pub member_replaced : Option FileIdentity → Option FileInfo → Bool
unfolding known_replacement
member_replaced identity none = false
member_replaced identity (some info) = known_replacement identity info

unfoldable pub wake_cohort_progressed : Cohort → Pending → Bool
unfolding lookup member_gone
wake_cohort_progressed [] current = false
wake_cohort_progressed ((name, identity) ∷ cohort) current =
    member_gone identity (lookup name current) || wake_cohort_progressed cohort current

unfoldable pub wake_cohort_replaced_in_place : Cohort → Pending → Bool
unfolding lookup member_replaced
wake_cohort_replaced_in_place [] current = false
wake_cohort_replaced_in_place ((name, identity) ∷ cohort) current =
    member_replaced identity (lookup name current) || wake_cohort_replaced_in_place cohort current

unfoldable pub is_absent {ℓ} : {A : Type ℓ} → Option A → Bool
is_absent none = true
is_absent (some a) = false

unfoldable pub wake_cohort_expanded : Cohort → Pending → Bool
unfolding lookup is_absent
wake_cohort_expanded cohort [] = false
wake_cohort_expanded cohort ((name, info) ∷ current) =
    is_absent (lookup name cohort) || wake_cohort_expanded cohort current
