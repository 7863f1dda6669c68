-- ===== src/Launch/Lease/Capability.antt =====
-- The lease as a capability of a process: acquisition, release and the checks before a write
-- (internal/launch/lease.go). A call is given what the platform answers during it.
use Prim.Native.Nat.{ℕ}
use agent_message_queue.Base.{
  String, Option, none, some, Bool, true, false, not, ◌||◌, List, [], ◌∷◌, eqb, string_eq, ◌==◌,
  ◌!=◌, if◌then◌else◌,
}
use agent_message_queue.Base.Text.{trim_space}
use agent_message_queue.Launch.Lease.{
  missing, valid, stale, unverified, HolderIdentity, ProcessInfo, LeaseRecord, LeaseFile, absent,
  stored, nonce_failed, interlock_failed, held, holder_unverified, secret_failed, secret_collision,
  write_failed, remove_failed, not_held, no_longer_held, identity_changed, root_mismatch, not_live,
  Result, ok, err, LeaseInspection, lease_version, inspect_lease_locked, current_holder,
}

-- How the atomic write of the record ends: before the rename, or after it, in success or in an error.
pub data Write : Type 0 where
  failed : Write
  written : Write
  written_with_error : Write

-- What the platform answers during one call: the process itself, the process table, the interlock, the
-- random sources, the write and the removal of the record.
pub record Call : Type 0 where
  pub self : ProcessInfo
  pub inspect : ℕ → ProcessInfo
  pub interlock : Bool
  pub generated_nonce : Option String
  pub random : Option ℕ
  pub write : Write
  pub removes : Bool

-- The lease of a root, with the root's identity for its pointer and the handles that it locks.
pub record Lease : Type 0 where
  pub root : ℕ
  pub nonce : String
  pub holder : HolderIdentity
  pub secret : ℕ
  pub handle_ids : List String
  pub released : Bool

-- The lease file, and the secrets that are live in this process.
pub record World : Type 0 where
  pub lease_file : LeaseFile
  pub secrets : List ℕ

unfoldable pub is_live : ℕ → List ℕ → Bool
is_live secret [] = false
is_live secret (s ∷ rest) = eqb s secret || is_live secret rest

unfoldable pub drop_secret : ℕ → List ℕ → List ℕ
drop_secret secret [] = []
drop_secret secret (s ∷ rest) =
    let later = drop_secret secret rest in if eqb s secret then later else s ∷ later

unfoldable pub new_secret : Call → List ℕ → Result ℕ
unfolding is_live
new_secret c secrets = elim c.random [
  | none ↦ err secret_failed
  | some s ↦
      if eqb s 0
      then err secret_failed
      else if is_live s secrets
      then err secret_collision
      else ok s
]

unfoldable pub write_record : Write → LeaseRecord → ℕ → World → World × Result ℕ
unfolding drop_secret
write_record Write.failed r s w = (
  record { lease_file = w.lease_file; secrets = drop_secret s (s ∷ w.secrets) },
  err write_failed,
)
write_record Write.written r s w = (record { lease_file = stored r; secrets = s ∷ w.secrets }, ok s)
write_record Write.written_with_error r s w =
    (record { lease_file = stored r; secrets = drop_secret s (s ∷ w.secrets) }, err write_failed)

unfoldable pub take_secret : Call → LeaseRecord → World → Result ℕ → World × Result ℕ
unfolding write_record
take_secret c r w (ok s) = write_record c.write r s w
take_secret c r w (err e) = (w, err e)

unfoldable pub take_over : Call → LeaseRecord → World → LeaseInspection → World × Result ℕ
unfolding take_secret new_secret
take_over c r w i = elim i.state [
  | missing ↦ take_secret c r w (new_secret c w.secrets)
  | valid ↦ (w, err (held i.nonce i.evidence))
  | stale ↦ take_secret c r w (new_secret c w.secrets)
  | unverified ↦ (w, err (holder_unverified i.evidence))
]

unfoldable pub after_inspection :
    Call → LeaseRecord → World → Result LeaseInspection → World × Result ℕ
unfolding take_over
after_inspection c r w (ok i) = take_over c r w i
after_inspection c r w (err e) = (w, err e)

unfoldable pub with_lease_interlock :
    {A : Type 0} → Call → World → World × Result A → World × Result A
with_lease_interlock c w r = if c.interlock then r else (w, err interlock_failed)

unfoldable pub named : ℕ → String → HolderIdentity → World × Result ℕ → World × Result Lease
named root nonce holder (w, ok s) = (
  w,
  ok (record {
    root = root;
    nonce = nonce;
    holder = holder;
    secret = s;
    handle_ids = [];
    released = false;
  }),
)
named root nonce holder (w, err e) = (w, err e)

unfoldable pub acquire_as : Call → ℕ → World → HolderIdentity → Option String → World × Result Lease
unfolding named with_lease_interlock after_inspection inspect_lease_locked
acquire_as c root w holder none = (w, err nonce_failed)
acquire_as c root w holder (some nonce) = named root nonce holder (
    with_lease_interlock c w (
      after_inspection c (record { version = lease_version; holder = holder; launch_nonce = nonce })
        w (inspect_lease_locked c.inspect w.lease_file)))

unfoldable pub acquire_held :
    Call → ℕ → String → World → Result HolderIdentity → World × Result Lease
unfolding acquire_as
acquire_held c root nonce w (ok holder) =
    acquire_as c root w holder (if trim_space nonce == "" then c.generated_nonce else some nonce)
acquire_held c root nonce w (err e) = (w, err e)

unfoldable pub acquire_lease : Call → ℕ → String → World → World × Result Lease
unfolding acquire_held current_holder
acquire_lease c root nonce w = acquire_held c root nonce w (current_holder c.self)

-- The lease is the valid one of the file.
unfoldable pub is_holding : Lease → LeaseInspection → Bool
is_holding l i = elim i.state [ valid ↦ i.nonce == l.nonce | _ ↦ false ]

unfoldable pub remove_held : Call → Lease → World → Result LeaseInspection → World × Result Unit
unfolding is_holding
remove_held c l w (ok i) =
    if not (is_holding l i)
    then (w, err no_longer_held)
    else if c.removes
    then (record w { lease_file = absent }, ok tt)
    else (w, err remove_failed)
remove_held c l w (err e) = (w, err e)

unfoldable pub discard : Lease → Lease
discard l = record l { handle_ids = []; released = true; secret = 0 }

unfoldable pub settle_release : Lease → World × Result Unit → World × (Lease × Result Unit)
unfolding discard drop_secret
settle_release l (w, ok u) =
    (record w { secrets = drop_secret l.secret w.secrets }, (discard l, ok tt))
settle_release l (w, err e) = (w, (record l { handle_ids = [] }, err e))

-- `Release`: the lock of every handle is given up first, and in any case.
unfoldable pub release : Call → Lease → World → World × (Lease × Result Unit)
unfolding settle_release with_lease_interlock remove_held inspect_lease_locked
release c l w =
    if l.released
    then (w, (record l { handle_ids = [] }, ok tt))
    else settle_release l
        (with_lease_interlock c w (remove_held c l w (inspect_lease_locked c.inspect w.lease_file)))

unfoldable pub abandon_capability : Lease → World → World × Lease
unfolding discard drop_secret
abandon_capability l w =
    if l.released
    then (w, l)
    else (record w { secrets = drop_secret l.secret w.secrets }, discard l)

unfoldable pub same_process : Lease → Result HolderIdentity → Result Unit
same_process l (ok h) =
    if not (eqb h.pid l.holder.pid) || h.process_start != l.holder.process_start
    then err identity_changed
    else ok tt
same_process l (err e) = err e

unfoldable pub authorize_live : Call → Lease → World → Result Unit
unfolding same_process is_live current_holder
authorize_live c l w =
    if l.released || (eqb l.secret 0 || not (is_live l.secret w.secrets))
    then err not_held
    else same_process l (current_holder c.self)

unfoldable pub check_holding : Lease → Result LeaseInspection → Result Unit
unfolding is_holding
check_holding l (ok i) = if is_holding l i then ok tt else err not_live
check_holding l (err e) = err e

unfoldable pub authorize_on_root : Call → Lease → ℕ → World → Result Unit → Result Unit
unfolding check_holding inspect_lease_locked
authorize_on_root c l root w (ok u) =
    if not (eqb l.root root)
    then err root_mismatch
    else if c.interlock
    then check_holding l (inspect_lease_locked c.inspect w.lease_file)
    else err interlock_failed
authorize_on_root c l root w (err e) = err e

unfoldable pub authorize_write : Call → Lease → ℕ → World → Result Unit
unfolding authorize_on_root authorize_live
authorize_write c l root w = authorize_on_root c l root w (authorize_live c l w)
