-- ===== src/Launch/Lease/Taking.antt =====
-- When a lease can be taken (internal/launch/lease.go).
use agent_message_queue.Base.{
  ℕ, String, arith, ◌≡◌, ◌≢◌, ◌⊎◌, inl, inr, refl, ◌∙◌, Option, none, some, Bool, true, false,
  string_eq, ◌==◌, if◌then◌else◌,
}
use agent_message_queue.Base.Text.{trim_space}
use agent_message_queue.Launch.Lease.{
  LeaseState, missing, valid, stale, unverified, HolderIdentity, ProcessInfo, LeaseRecord,
  LeaseFile, absent, unreadable, bad_mode, undecodable, stored, Result, ok, err, LeaseInspection,
  lease_version, classify_started, classify_holder, inspect_record, bare, inspect_lease_locked,
  current_holder,
}
use agent_message_queue.Launch.Lease.Capability.{
  Call, Lease, World, write_record, take_secret, take_over, after_inspection, with_lease_interlock,
  named, acquire_as, acquire_held, acquire_lease,
}

-- What is known of a process shows that it is not the holder: the pid is free, the machine was booted
-- again, or, on a machine whose boot is recorded, the pid belongs to a process that started later.
abbrev pub IsDead : HolderIdentity → ProcessInfo → Type 0
IsDead h live =
    (live.running ≡ false)
    ⊎ (((h.boot_id ≢ "") × (live.boot_id ≢ "") × (h.boot_id ≢ live.boot_id))
        ⊎ ((h.boot_id ≢ "") × (live.start_token ≢ "") × (h.process_start ≢ live.start_token)))

-- The process is there, with the holder's start and boot.
abbrev pub IsAlive : HolderIdentity → ProcessInfo → Type 0
IsAlive h live =
    (live.running ≡ true)
    × (live.start_token ≡ h.process_start)
    × (live.boot_id ≡ h.boot_id)
    × (h.process_start ≢ "")

pub alive_valid :
    (h : HolderIdentity) (live : ProcessInfo) → IsAlive h live → (classify_holder h live).0 ≡ valid
unfolding classify_holder classify_started
alive_valid h live a = ground arith

-- A lease may be taken: none is there, or its holder is dead.
abbrev pub IsFree : (ℕ → ProcessInfo) → LeaseFile → Type 0
IsFree inspect f =
    (f ≡ absent) ⊎ ((r : LeaseRecord) × (f ≡ stored r) × IsDead r.holder (inspect r.holder.pid))

-- The record that a lease stands for.
abbrev pub record_of : Lease → LeaseRecord
record_of l = record { version = lease_version; holder = l.holder; launch_nonce = l.nonce }

may_take : LeaseState → Bool
may_take missing = true
may_take stale = true
may_take valid = false
may_take unverified = false

-- Only the proof of death makes a recorded lease stale.
stale-IsDead :
    (h : HolderIdentity) (live : ProcessInfo)
    → may_take (classify_holder h live).0 ≡ true
    → IsDead h live
unfolding classify_holder may_take
stale-IsDead h live s = ground arith

record_stale :
    (inspect : ℕ → ProcessInfo) (r : LeaseRecord)
    → may_take (inspect_record inspect r).state ≡ true
    → may_take (classify_holder r.holder (inspect r.holder.pid)).0 ≡ true
unfolding inspect_record may_take
record_stale inspect r m = ground arith

same_state :
    (i j : LeaseInspection) → ok i ≡ ok j → may_take j.state ≡ true → may_take i.state ≡ true
same_state i j q m = cc

inspected-IsFree :
    (inspect : ℕ → ProcessInfo) (f : LeaseFile) (i : LeaseInspection)
    → inspect_lease_locked inspect f ≡ ok i
    → may_take i.state ≡ true
    → IsFree inspect f
unfolding inspect_lease_locked
inspected-IsFree inspect absent i q m = inl refl
inspected-IsFree inspect unreadable i q m = cc
inspected-IsFree inspect bad_mode i q m = cc
inspected-IsFree inspect undecodable i q m = absurd (
    unfold may_take in
    ground (arith, same_state (bare unverified "lease file is unreadable") i q m))
inspected-IsFree inspect (stored r) i q m = inr (
  r,
  refl,
  stale-IsDead r.holder (inspect r.holder.pid)
      (record_stale inspect r (same_state (inspect_record inspect r) i q m)),
)

-- A taken record is on disk, and the inspection before it allowed it.
taken :
    (c : Call) (r : LeaseRecord) (w w' : World) (s : ℕ) (i : Result LeaseInspection)
    → after_inspection c r w i ≡ (w', ok s)
    → (w'.lease_file ≡ stored r) × ((j : LeaseInspection) × (i ≡ ok j) × (may_take j.state ≡ true))
unfolding after_inspection take_over take_secret write_record may_take
taken c r w w' s (err e) q = cc
taken c r w w' s (ok i) q = (ground arith, (i, refl, ground arith))

interlocked :
    (c : Call) (w w' : World) (r : World × Result ℕ) (s : ℕ)
    → with_lease_interlock c w r ≡ (w', ok s)
    → r ≡ (w', ok s)
unfolding with_lease_interlock
interlocked c w w' r s q = ground arith

named_from :
    (root : ℕ) (nonce : String) (h : HolderIdentity) (r : World × Result ℕ) (w' : World) (l : Lease)
    → named root nonce h r ≡ (w', ok l)
    → (s : ℕ) × (r ≡ (w', ok s)) × (l.holder ≡ h) × (l.nonce ≡ nonce) × (l.released ≡ false)
unfolding named
named_from root nonce h (w, ok s) w' l q = (s, cc, cc, cc, cc)
named_from root nonce h (w, err e) w' l q = cc

-- An acquisition that succeeds found the lease free, and left its own record.
abbrev Acquired : Call → World → World → Lease → Type 0
Acquired c w w' l = IsFree c.inspect w.lease_file × (w'.lease_file ≡ stored (record_of l))

as-Acquired :
    (c : Call) (root : ℕ) (w w' : World) (h : HolderIdentity) (n : Option String) (l : Lease)
    → acquire_as c root w h n ≡ (w', ok l)
    → Acquired c w w' l
unfolding acquire_as
as-Acquired c root w w' h none l q = cc
as-Acquired c root w w' h (some nonce) l q =
    let made = named_from root nonce h _ w' l q in
    let locked = interlocked c w w' _ made.0 made.1 in
    let took = taken c _ w w' made.0 (inspect_lease_locked c.inspect w.lease_file) locked in
    (inspected-IsFree c.inspect w.lease_file took.1.0 took.1.1 took.1.2, took.0 ∙ ground arith)

held-Acquired :
    (c : Call) (root : ℕ) (nonce : String) (w w' : World) (h : Result HolderIdentity) (l : Lease)
    → acquire_held c root nonce w h ≡ (w', ok l)
    → Acquired c w w' l
unfolding acquire_held
held-Acquired c root nonce w w' (ok h) l q =
    as-Acquired c root w w' h (if trim_space nonce == "" then c.generated_nonce else some nonce) l q
held-Acquired c root nonce w w' (err e) l q = cc

-- A lease is taken only where none is recorded or the recorded holder is dead, and the record that is
-- left names the new holder and its nonce.
pub acquire_lease-IsFree :
    (c : Call) (root : ℕ) (nonce : String) (w w' : World) (l : Lease)
    → acquire_lease c root nonce w ≡ (w', ok l)
    → IsFree c.inspect w.lease_file × (w'.lease_file ≡ stored (record_of l))
unfolding acquire_lease
acquire_lease-IsFree c root nonce w w' l q =
    held-Acquired c root nonce w w' (current_holder c.self) l q
