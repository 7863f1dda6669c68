-- ===== src/Launch/Lease/Exclusion.antt =====
-- One holder at a time, and who can give a lease up (internal/launch/lease.go).
use agent_message_queue.Base.{
  ℕ, String, arith, ◌≡◌, ◌≢◌, inl, inr, refl, ◌∙◌, ap, Option, none, some, true, false, string_eq,
  ◌==◌, if◌then◌else◌, Bool-cases,
}
use agent_message_queue.Base.Text.{trim_space}
use agent_message_queue.Launch.Lease.{
  valid, HolderIdentity, ProcessInfo, LeaseRecord, absent, stored, LeaseError, interlock_failed,
  nonce_failed, held, Result, ok, err, LeaseInspection, is_incomplete, inspect_record,
  inspect_lease_locked, current_holder,
}
use agent_message_queue.Launch.Lease.Capability.{
  Call, Lease, World, drop_secret, take_over, after_inspection, with_lease_interlock, named,
  acquire_as, acquire_held, acquire_lease, is_holding, remove_held, discard, settle_release,
  release,
}
use agent_message_queue.Launch.Lease.Taking.{IsAlive, record_of, alive_valid, acquire_lease-IsFree}

-- The holder of a lease is known: its nonce is not blank and its pid is positive.
abbrev pub IsNamed : Lease → Type 0
IsNamed l = (trim_space l.nonce ≢ "") × (l.holder.pid ≢ 0)

-- The call sees the holder alive.
abbrev pub SeesAlive : Call → Lease → Type 0
SeesAlive c l = IsAlive l.holder (c.inspect l.holder.pid)

own_valid :
    (c : Call) (l : Lease)
    → IsNamed l
    → SeesAlive c l
    → ((inspect_record c.inspect (record_of l)).state ≡ valid)
      × ((inspect_record c.inspect (record_of l)).nonce ≡ l.nonce)
unfolding inspect_record is_incomplete
own_valid c l n a = ground (arith, alive_valid l.holder (c.inspect l.holder.pid) a)

abbrev Refused : {A : Type 0} → World → World × Result A → Type 0
Refused w r = (e : LeaseError) × (r ≡ (w, err e))

named-Refused :
    (root : ℕ) (nonce : String) (h : HolderIdentity) (w : World) (r : World × Result ℕ)
    → Refused w r
    → Refused w (named root nonce h r)
unfolding named
named-Refused root nonce h w (v, ok s) (e, q) = cc
named-Refused root nonce h w (v, err x) (e, q) = (x, cc)

interlock-Refused :
    (c : Call) (w : World) (r : World × Result ℕ)
    → Refused w r
    → Refused w (with_lease_interlock c w r)
unfolding with_lease_interlock
interlock-Refused c w r (e, q) = elim (Bool-cases c.interlock) [
  | inl on ↦ (e, ground arith)
  | inr off ↦ (interlock_failed, ground arith)
]

inspection-Refused :
    (c : Call) (r : LeaseRecord) (l : Lease) (w : World)
    → w.lease_file ≡ stored (record_of l)
    → IsNamed l
    → SeesAlive c l
    → Refused w (after_inspection c r w (inspect_lease_locked c.inspect w.lease_file))
unfolding after_inspection take_over inspect_lease_locked
inspection-Refused c r l w f n a = (
  held l.nonce (inspect_record c.inspect (record_of l)).evidence,
  ground (arith, own_valid c l n a, ap (inspect_lease_locked c.inspect) f),
)

as-Refused :
    (c : Call) (root : ℕ) (l : Lease) (w : World) (h : HolderIdentity) (nonce : Option String)
    → w.lease_file ≡ stored (record_of l)
    → IsNamed l
    → SeesAlive c l
    → Refused w (acquire_as c root w h nonce)
unfolding acquire_as
as-Refused c root l w h none f n a = (nonce_failed, refl)
as-Refused c root l w h (some nonce) f n a =
    named-Refused root nonce h w _ (interlock-Refused c w _ (inspection-Refused c _ l w f n a))

held-Refused :
    (c : Call) (root : ℕ) (nonce : String) (l : Lease) (w : World) (h : Result HolderIdentity)
    → w.lease_file ≡ stored (record_of l)
    → IsNamed l
    → SeesAlive c l
    → Refused w (acquire_held c root nonce w h)
unfolding acquire_held
held-Refused c root nonce l w (ok h) f n a =
    as-Refused c root l w h (if trim_space nonce == "" then c.generated_nonce else some nonce) f n a
held-Refused c root nonce l w (err e) f n a = (e, refl)

-- As long as the lease file is as an acquisition left it, every other acquisition that sees the holder
-- alive, with its start and its boot, fails and changes nothing, whichever process makes it. The holder's
-- nonce is not blank and its pid is positive.
pub acquire_lease-refused :
    (c c' : Call) (root root' : ℕ) (nonce nonce' : String) (w w' v : World) (l : Lease)
    → acquire_lease c root nonce w ≡ (w', ok l)
    → v.lease_file ≡ w'.lease_file
    → IsNamed l
    → SeesAlive c' l
    → (e : LeaseError) × (acquire_lease c' root' nonce' v ≡ (v, err e))
unfolding acquire_lease
acquire_lease-refused c c' root root' nonce nonce' w w' v l q f n a =
    held-Refused c' root' nonce' l v (current_holder c'.self)
      (f ∙ (acquire_lease-IsFree c root nonce w w' l q).1) n a

holding_own :
    (c : Call) (l : Lease)
    → IsNamed l
    → SeesAlive c l
    → is_holding l (inspect_record c.inspect (record_of l)) ≡ true
unfolding is_holding
holding_own c l n a = ground (arith, own_valid c l n a)

-- The holder gives its lease up: where the lease file is as the acquisition left it, the holder is seen
-- alive under its nonce and pid, and the lock and the removal of the file succeed, the release succeeds,
-- and the record is gone, and with it the secret and the handles.
pub release-acquire_lease :
    (c c' : Call) (root : ℕ) (nonce : String) (w w' v : World) (l : Lease)
    → acquire_lease c root nonce w ≡ (w', ok l)
    → v.lease_file ≡ w'.lease_file
    → IsNamed l
    → SeesAlive c' l
    → l.released ≡ false
    → c'.interlock ≡ true
    → c'.removes ≡ true
    → release c' l v ≡ (
      record { lease_file = absent; secrets = drop_secret l.secret v.secrets },
      (discard l, ok tt),
    )
unfolding release
release-acquire_lease c c' root nonce w w' v l q f n a r i m =
    let seen : inspect_lease_locked c'.inspect v.lease_file
        ≡ ok (inspect_record c'.inspect (record_of l)) =
      ap (inspect_lease_locked c'.inspect) (f ∙ (acquire_lease-IsFree c root nonce w w' l q).1) in
    ground (arith, seen, holding_own c' l n a)

other_nonce :
    (inspect : ℕ → ProcessInfo) (r : LeaseRecord) (l : Lease)
    → r.launch_nonce ≢ l.nonce
    → l.nonce ≢ ""
    → (inspect_record inspect r).nonce ≢ l.nonce
unfolding inspect_record
other_nonce inspect r l n b = ground arith

not_removed :
    (c : Call) (l : Lease) (w : World) (i : LeaseInspection)
    → i.nonce ≢ l.nonce
    → (remove_held c l w (ok i)).0 ≡ w
unfolding remove_held is_holding
not_removed c l w i n = ground arith

settle_release-file :
    (l : Lease) (r : World × Result Unit) → (settle_release l r).0.lease_file ≡ r.0.lease_file
unfolding settle_release
settle_release-file l (w, ok u) = refl
settle_release-file l (w, err e) = refl

-- A release takes away no lease but its own: a file that holds a record with another nonce stays as it
-- is.
pub release-keeps_others :
    (c : Call) (l : Lease) (w : World) (r : LeaseRecord)
    → w.lease_file ≡ stored r
    → r.launch_nonce ≢ l.nonce
    → l.nonce ≢ ""
    → (release c l w).0.lease_file ≡ w.lease_file
unfolding release with_lease_interlock
release-keeps_others c l w r f n b =
    let seen : inspect_lease_locked c.inspect w.lease_file ≡ ok (inspect_record c.inspect r) =
      ap (inspect_lease_locked c.inspect) f in
    ground (
      arith,
      seen,
      ap (λ i. (remove_held c l w i).0) seen,
      not_removed c l w (inspect_record c.inspect r) (other_nonce c.inspect r l n b),
      settle_release-file l (
          with_lease_interlock c w
            (remove_held c l w (inspect_lease_locked c.inspect w.lease_file))),
    )
